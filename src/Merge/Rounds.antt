-- ===== src/Merge/Rounds.antt =====
-- The walk over the indexes ends, and so do the rounds, which write every entry under its token.
use amigos.Base.{
  ℕ, zero, suc, ◌+◌, ◌-◌, ◌^◌, ◌≤◌, ◌<◌, ◌≡◌, ◌≢◌, refl, ◌∙◌, arith, Bool, true, false, List, [],
  ◌∷◌, All, inl, inr, ◌⊎◌, map, length, length-map, ◌==◌, ==_iff, Bool-cases, min, ltb, ltb→lt,
  ltb→le, some,
}
use amigos.Run.{done}
use amigos.Entry.{Entry}
use amigos.Merge.{walk, min_token, merge_rounds, compare_entries}
use amigos.Merge.Queues.{Queue, queue, raw, FitsQueue, pass_queues, count_queues, pass-raw}
use amigos.Merge.Totals.{
  queues_left, at_token, queues_total, items_total, items_total-same, items_total-other, total,
  Takes,
}
use amigos.Merge.Steps.{pass_queues-Passes, IsFrom, pass_queues-IsFrom}

Takes-trans :
    {t : ℕ} {qs : List Queue} {es : List Entry} {qs1 : List Queue} {es1 : List Entry}
    {qs2 : List Queue} {es2 : List Entry}
    → Takes t qs es qs1 es1
    → Takes t qs1 es1 qs2 es2
    → Takes t qs es qs2 es2
Takes-trans s1 s2 = record {
  fits = s2.fits;
  counted = s2.counted ∙ s1.counted;
  taken = λ w. s2.taken w ∙ s1.taken w;
  others = λ w u ne. s2.others w u ne ∙ s1.others w u ne;
  fewer = omega (arith, s1.fewer, s2.fewer);
  shorter = omega (arith, s1.shorter, s2.shorter);
}

-- What a walk returns.
record Walked (fuel t : ℕ) (qs : List Queue) (es : List Entry) : Type 0 where
  rest : List Queue
  entries : List Entry
  returns : walk true fuel t (map raw qs) es ≡ done (map raw rest, entries)
  takes : Takes t qs es rest entries
  progress : at_token t qs ≡ true → queues_left rest < queues_left qs
  from : (lo : ℕ) → All (IsFrom lo) qs → All (IsFrom lo) rest

walk-Walked :
    (fuel t : ℕ) (qs : List Queue) (es : List Entry)
    → All FitsQueue qs
    → length es + count_queues qs < 2 ^ 32
    → length qs < fuel
    → Walked fuel t qs es
unfolding walk
walk-Walked zero t qs es fits room enough = absurd (omega (arith, enough))
walk-Walked (suc fuel) t qs es fits room enough =
    let r = pass_queues t false qs es in
    let p = pass_queues-Passes t false qs es fits in
    let passed = pass-raw t false qs es fits room in
    elim (Bool-cases r.0) [
      | inl beyond ↦
          let next =
            walk-Walked fuel t r.1 r.2 p.takes.fits (omega (arith, p.takes.counted))
              (omega (arith, p.beyond beyond refl)) in
          record {
            rest = next.rest;
            entries = next.entries;
            returns = rw (walk, passed, beyond) next.returns;
            takes = Takes-trans p.takes next.takes;
            progress = λ h. omega (arith, p.progress refl h, next.takes.fewer);
            from = λ lo hs. next.from lo (pass_queues-IsFrom lo t false qs es hs);
          }
      | inr inside ↦ record {
        rest = r.1;
        entries = r.2;
        returns = rw (walk, passed, inside) refl;
        takes = p.takes;
        progress = p.progress refl;
        from = λ lo hs. pass_queues-IsFrom lo t false qs es hs;
      }
    ]

-- The smallest token of the queues, and `best` if there is none.
unfoldable pub least : ℕ → List Queue → ℕ
least best [] = best
least best (queue tok es items tail ∷ qs) = least (min best tok) qs

pub min_token-least :
    (best : ℕ) (qs : List Queue) → min_token best (map raw qs) ≡ some (least best qs)
unfolding min_token least raw
min_token-least best [] = refl
min_token-least best (queue tok es items tail ∷ qs) = min_token-least (min best tok) qs

module _ (tok : ℕ) (es : List Entry) (items : List (ℕ × List Entry)) (tail : List ℕ)
    (qs : List Queue) where
  at_token-here : (t : ℕ) → t ≡ tok → at_token t (queue tok es items tail ∷ qs) ≡ true
  unfolding at_token
  at_token-here t e = ground arith

  at_token-later : (t : ℕ) → at_token t qs ≡ true → at_token t (queue tok es items tail ∷ qs) ≡ true
  unfolding at_token
  at_token-later t h = ground arith

least-at_token :
    (best : ℕ) (qs : List Queue) → (least best qs ≡ best) ⊎ (at_token (least best qs) qs ≡ true)
unfolding least
least-at_token best [] = inl refl
least-at_token best (queue tok es items tail ∷ qs) = elim (least-at_token (min best tok) qs) [
  | inr later ↦ inr (at_token-later tok es items tail qs _ later)
  | inl first ↦ elim (Bool-cases (ltb tok best)) [
    | inl less ↦
        let lt = ltb→lt tok best less in
        inr (at_token-here tok es items tail qs _ (omega (arith, first, lt)))
    | inr more ↦ let le = ltb→le tok best more in inl (omega (arith, first, le))
  ]
]

pub least-there :
    (q : Queue) (qs : List Queue)
    → All FitsQueue (q ∷ qs)
    → at_token (least (2 ^ 32 - 1) (q ∷ qs)) (q ∷ qs) ≡ true
unfolding least
least-there (queue tok es items tail) qs (((small, fit, es_fit), fits), all) =
    let start : min (2 ^ 32 - 1) tok ≡ tok = omega (arith, small) in
    rw start (elim (least-at_token tok qs) [
      | inr later ↦ at_token-later tok es items tail qs _ later
      | inl first ↦ at_token-here tok es items tail qs _ first
    ])

least_le : (best : ℕ) (qs : List Queue) → least best qs ≤ best
unfolding least
least_le best [] = omega arith
least_le best (queue tok es items tail ∷ qs) = omega (arith, least_le (min best tok) qs)

least_ge : (lo best : ℕ) (qs : List Queue) → lo ≤ best → All (IsFrom lo) qs → lo ≤ least best qs
unfolding least
least_ge lo best [] h hs = h
least_ge lo best (queue tok es items tail ∷ qs) h ((from, rising), hs) =
    least_ge lo (min best tok) qs (omega arith) hs

least-IsFrom :
    (lo best : ℕ) (qs : List Queue) → All (IsFrom lo) qs → All (IsFrom (least best qs)) qs
unfolding least
least-IsFrom lo best [] hs = tt
least-IsFrom lo best (queue tok es items tail ∷ qs) ((from, rising), hs) =
    ((omega (arith, least_le (min best tok) qs), rising), least-IsFrom lo (min best tok) qs hs)

-- The tokens of the rounds do not fall.
abbrev pub InOrder : ℕ → List (ℕ × List Entry) → Type 0
InOrder lo [] = Unit
InOrder lo ((tok, es) ∷ rounds) = (lo ≤ tok) × InOrder tok rounds

-- The weight of what the rounds write under a token is `items_total`. A sort keeps the weight.
abbrev pub KeepsTotal : ((Entry → Entry → Bool) → List Entry → List Entry) → Type 0
KeepsTotal sort = (w : Entry → ℕ) (es : List Entry) → total w (sort compare_entries es) ≡ total w es

round-total :
    (w : Entry → ℕ) (u t : ℕ) (qs rest : List Queue) (entries sorted : List Entry)
    (rounds : List (ℕ × List Entry))
    → Takes t qs [] rest entries
    → total w sorted ≡ total w entries
    → items_total w u rounds ≡ queues_total w u rest
    → items_total w u ((t, sorted) ∷ rounds) ≡ queues_total w u qs
unfolding total
round-total w u t qs rest entries sorted rounds s same h = elim (Bool-cases (u == t)) [
  | inl here ↦
      let e = (==_iff u t).0 here in
      rw e (omega (arith, items_total-same w t sorted rounds, s.taken w, same, rw e at h))
  | inr other ↦
      let ne : u ≢ t = λ e. ground arith in
      omega (arith, items_total-other w t u sorted rounds ne, s.others w u ne, h)
]

-- What the rounds return.
pub record Merged (sort : (Entry → Entry → Bool) → List Entry → List Entry) (fuel : ℕ)
    (qs : List Queue) : Type 0 where
  pub rounds : List (ℕ × List Entry)
  pub returns : merge_rounds true sort fuel (map raw qs) ≡ done rounds
  pub totals : (w : Entry → ℕ) (u : ℕ) → items_total w u rounds ≡ queues_total w u qs
  pub ordered : (lo : ℕ) → lo < 2 ^ 32 → All (IsFrom lo) qs → InOrder lo rounds

pub merge_rounds-Merged :
    (sort : (Entry → Entry → Bool) → List Entry → List Entry) (fuel : ℕ) (qs : List Queue)
    → KeepsTotal sort
    → All FitsQueue qs
    → count_queues qs < 2 ^ 32
    → queues_left qs ≤ fuel
    → Merged sort fuel qs
unfolding merge_rounds queues_left items_total queues_total
merge_rounds-Merged sort fuel [] keeps fits room enough = record {
  rounds = [];
  returns = refl;
  totals = λ w u. refl;
  ordered = λ lo h hs. tt;
}
merge_rounds-Merged sort zero (queue tok es items tail ∷ qs) keeps fits room enough =
    absurd (omega (arith, enough))
merge_rounds-Merged sort (suc fuel) (q ∷ qs) keeps fits room enough =
    let t = least (2 ^ 32 - 1) (q ∷ qs) in
    let walked =
      walk-Walked (suc (length (q ∷ qs))) t (q ∷ qs) [] fits (omega (arith, room)) (omega arith) in
    let there = least-there q qs fits in
    let next =
      merge_rounds-Merged sort fuel walked.rest keeps walked.takes.fits
        (omega (arith, walked.takes.counted, room))
        (omega (arith, walked.progress there, enough)) in
    record {
      rounds = (t, sort compare_entries walked.entries) ∷ next.rounds;
      returns =
          rw
            (
              merge_rounds,
              min_token-least (2 ^ 32 - 1) (q ∷ qs),
              length-map raw qs,
              walked.returns,
              next.returns,
            )
            refl;
      totals = λ w u.
          round-total w u t (q ∷ qs) walked.rest walked.entries _ next.rounds walked.takes
            (keeps w walked.entries) (next.totals w u);
      ordered = λ lo small hs. (
        least_ge lo (2 ^ 32 - 1) (q ∷ qs) (omega (arith, small)) hs,
        next.ordered t (omega (arith, least_le (2 ^ 32 - 1) (q ∷ qs)))
            (walked.from t (least-IsFrom lo (2 ^ 32 - 1) (q ∷ qs) hs)),
      );
    }
