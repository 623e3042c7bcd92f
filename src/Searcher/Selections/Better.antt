-- ===== src/Searcher/Selections/Better.antt =====
-- `snippet_ranker` is an order that `std::sort` may be given.
use mathlib.Core.Path.{subst}
use amigos.Base.{
  ℕ, ◌<◌, ◌≡◌, ◌≢◌, refl, arith, Bool, true, false, List, [], ◌∷◌, none, some, ltb, length, sym,
  ◌∙◌, ◌⊎◌, inl, inr, ltb→lt, ltb→le, Bool-cases, if◌then◌else◌,
}
use amigos.Searcher.Selections.{Verdict, more, less, same, compare_statistics, snippet_ranker}

-- The first statistic is better: at the last index where the two differ, it is greater.
abbrev pub IsBetter : List ℕ → List ℕ → Type 0
IsBetter [] ys = ⊥
IsBetter (x ∷ xs) [] = ⊥
IsBetter (x ∷ xs) (y ∷ ys) = IsBetter xs ys ⊎ ((xs ≡ ys) × (y < x))

-- What a verdict says.
abbrev Judges : List ℕ → List ℕ → Verdict → Type 0
Judges xs ys more = IsBetter xs ys
Judges xs ys less = IsBetter ys xs
Judges xs ys same = xs ≡ ys

compare_lem :
    (xs ys : List ℕ)
    → length xs ≡ length ys
    → (v : Verdict) × (compare_statistics xs ys ≡ some v) × Judges xs ys v
unfolding compare_statistics
compare_lem [] [] h = (same, refl, refl)
compare_lem [] (y ∷ ys) h = absurd (omega arith)
compare_lem (x ∷ xs) [] h = absurd (omega arith)
compare_lem (x ∷ xs) (y ∷ ys) h =
    let (v, e, j) = compare_lem xs ys (omega arith) in rw e (front v j)
  where
    front :
        (v : Verdict)
        → Judges xs ys v
        → (w : Verdict) × (elim v [
          | more ↦ some more
          | less ↦ some less
          | same ↦ some (if ltb y x then more else if ltb x y then less else same)
        ]
            ≡ some w)
          × Judges (x ∷ xs) (y ∷ ys) w
    front more j = (more, refl, inl j)
    front less j = (less, refl, inl j)
    front same j = elim (Bool-cases (ltb y x)) [
      | inl gt ↦ (more, rw gt refl, inr (j, ltb→lt y x gt))
      | inr le ↦ elim (Bool-cases (ltb x y)) [
        | inl lt ↦ (less, rw (le, lt) refl, inr (sym j, ltb→lt x y lt))
        | inr ge ↦
            let e : x ≡ y = omega (arith, ltb→le y x le, ltb→le x y ge) in
            (same, rw (le, ge) refl, rw (e, j) refl)
      ]
    ]

IsBetter-irrefl : (xs : List ℕ) → IsBetter xs xs → ⊥
IsBetter-irrefl [] h = h
IsBetter-irrefl (x ∷ xs) (inl h) = IsBetter-irrefl xs h
IsBetter-irrefl (x ∷ xs) (inr (e, lt)) = omega arith

IsBetter-trans : (xs ys zs : List ℕ) → IsBetter xs ys → IsBetter ys zs → IsBetter xs zs
IsBetter-trans [] ys zs h k = absurd h
IsBetter-trans (x ∷ xs) [] zs h k = absurd h
IsBetter-trans (x ∷ xs) (y ∷ ys) [] h k = absurd k
IsBetter-trans (x ∷ xs) (y ∷ ys) (z ∷ zs) (inl h) (inl k) = inl (IsBetter-trans xs ys zs h k)
IsBetter-trans (x ∷ xs) (y ∷ ys) (z ∷ zs) (inl h) (inr (e, k)) = inl (subst (IsBetter xs) e h)
IsBetter-trans (x ∷ xs) (y ∷ ys) (z ∷ zs) (inr (e, h)) (inl k) =
    inl (subst (λ vs. IsBetter vs zs) (sym e) k)
IsBetter-trans (x ∷ xs) (y ∷ ys) (z ∷ zs) (inr (e, h)) (inr (f, k)) = inr (e ∙ f, omega arith)

-- For lines of the same query, whose statistics have one length, `snippet_ranker` reads nothing out
-- of range and answers whether, at the greatest size of selections whose numbers differ, the first
-- line has more of them.
snippet_ranker-verdict :
    (xs ys : List ℕ)
    → length xs ≡ length ys
    → ((snippet_ranker xs ys ≡ some true) × IsBetter xs ys)
      ⊎ ((snippet_ranker xs ys ≡ some false) × ((xs ≡ ys) ⊎ IsBetter ys xs))
unfolding snippet_ranker
snippet_ranker-verdict xs ys h = let (v, e, j) = compare_lem xs ys h in rw e (by_verdict v j)
  where
    by_verdict :
        (v : Verdict)
        → Judges xs ys v
        → ((some (elim v as (λ v. Bool) [ more ↦ true | less ↦ false | same ↦ false ]) ≡ some true)
            × IsBetter xs ys)
          ⊎ ((some (elim v as (λ v. Bool) [ more ↦ true | less ↦ false | same ↦ false ])
                ≡ some false)
              × ((xs ≡ ys) ⊎ IsBetter ys xs))
    by_verdict more j = inl (refl, j)
    by_verdict less j = inr (refl, inr j)
    by_verdict same j = inr (refl, inl j)

ranks→IsBetter :
    (xs ys : List ℕ) → length xs ≡ length ys → snippet_ranker xs ys ≡ some true → IsBetter xs ys
ranks→IsBetter xs ys n h = elim (snippet_ranker-verdict xs ys n) [
  | inl (e, j) ↦ j
  | inr (e, j) ↦ absurd (let e' = sym h ∙ e in cc)
]

IsBetter→ranks :
    (xs ys : List ℕ) → length xs ≡ length ys → IsBetter xs ys → snippet_ranker xs ys ≡ some true
IsBetter→ranks xs ys n h = elim (snippet_ranker-verdict xs ys n) [
  | inl (e, j) ↦ e
  | inr (e, inl same_eq) ↦ absurd (IsBetter-irrefl xs (subst (IsBetter xs) (sym same_eq) h))
  | inr (e, inr j) ↦ absurd (IsBetter-irrefl xs (IsBetter-trans xs ys xs h j))
]

-- `snippet_ranker` is a comparison that `std::sort` may be given: on the statistics of the lines of
-- one query, which have one length, it reads nothing out of range, ranks no statistic above itself,
-- is transitive, and ranks neither of two statistics above the other only where they are the same.
pub snippet_ranker_lem :
    (xs ys zs : List ℕ)
    → length xs ≡ length ys
    → length ys ≡ length zs
    → (snippet_ranker xs xs ≡ some false)
      × (snippet_ranker xs ys ≢ none)
      × (snippet_ranker xs ys ≡ some true
          → snippet_ranker ys zs ≡ some true
          → snippet_ranker xs zs ≡ some true)
      × (snippet_ranker xs ys ≡ some false → snippet_ranker ys xs ≡ some false → xs ≡ ys)
snippet_ranker_lem xs ys zs n m = (irrefl, total, trans, apart)
  where
    irrefl : snippet_ranker xs xs ≡ some false
    irrefl = elim (snippet_ranker-verdict xs xs refl) [
      | inl (e, j) ↦ absurd (IsBetter-irrefl xs j)
      | inr (e, j) ↦ e
    ]

    total : snippet_ranker xs ys ≢ none
    total = λ h. elim (snippet_ranker-verdict xs ys n) [
      | inl (e, j) ↦ absurd (let e' = sym h ∙ e in cc)
      | inr (e, j) ↦ absurd (let e' = sym h ∙ e in cc)
    ]

    trans :
        snippet_ranker xs ys ≡ some true
        → snippet_ranker ys zs ≡ some true
        → snippet_ranker xs zs ≡ some true
    trans h k =
        IsBetter→ranks xs zs (n ∙ m)
          (IsBetter-trans xs ys zs (ranks→IsBetter xs ys n h) (ranks→IsBetter ys zs m k))

    apart : snippet_ranker xs ys ≡ some false → snippet_ranker ys xs ≡ some false → xs ≡ ys
    apart h k = elim (snippet_ranker-verdict xs ys n) [
      | inl (e, j) ↦ absurd (let e' = sym h ∙ e in cc)
      | inr (e, inl same_eq) ↦ same_eq
      | inr (e, inr j) ↦ absurd (let e' = sym k ∙ IsBetter→ranks ys xs (sym n) j in cc)
    ]
