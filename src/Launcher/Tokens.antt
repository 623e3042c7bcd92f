-- ===== src/Launcher/Tokens.antt =====
-- Which tokens a query has for the searcher.
use amigos.Base.{
  ℕ, zero, suc, ◌*◌, ◌≤◌, ◌≡◌, refl, ap, arith, Bool, true, false, List, [], ◌∷◌, ◌++◌, Option,
  none, some, inl, inr, ◌⊎◌, length, length-append, length-take, take, get_elem?, sym, ◌∙◌,
  append_assoc, Bytes, Bool-cases,
}
use mathlib.Core.Path.{subst}
use mathlib.Core.Option.{some-injective}
use amigos.Run.{done, bind-eq-done, done-injective}
use amigos.Common.{
  Library, terminate2vec, make_l_bigram, make_r_bigram, is_stopword, left_bigram, right_bigram,
  bigrams, bigram2vec,
}
use amigos.Launcher.{query_tokens}

-- The word in front of the one with an index, where the first has the given one.
unfoldable pub word_before : Option Bytes → List Bytes → ℕ → Option Bytes
word_before first words zero = first
word_before first words (suc i) = get_elem? words i

unfoldable nearest : List Bytes → Option Bytes
nearest [] = none
nearest (left ∷ lefts) = some left

-- All tokens, word by word.
unfoldable pub concat_all {ℓ} : {A : Type ℓ} → List (List A) → List A
concat_all [] = []
concat_all (g ∷ groups) = g ++ concat_all groups

module _ (lib : Library) where
  -- The bigram with the word on the left, and with the word on the right, where there is one.
  unfoldable pub IsLeftToken : Option Bytes → Bytes → List Bytes → Type 0
  IsLeftToken none word l = l ≡ []
  IsLeftToken (some left) word l =
      (bigram : Bytes) × (make_l_bigram lib left word ≡ done bigram) × (l ≡ bigram ∷ [])

  unfoldable pub IsRightToken : Option Bytes → Bytes → List Bytes → Type 0
  IsRightToken none word r = r ≡ []
  IsRightToken (some right) word r =
      (bigram : Bytes) × (make_r_bigram lib word right ≡ done bigram) × (r ≡ bigram ∷ [])

  -- The tokens of a word with its neighbours: the word itself, or the bigrams of a stopword.
  abbrev pub IsGroup : List Bytes → Option Bytes → Bytes → Option Bytes → List Bytes → Type 0
  IsGroup stopwords left word right group =
      ((is_stopword stopwords word ≡ false) × (group ≡ word ∷ []))
      ⊎ ((is_stopword stopwords word ≡ true)
          × ((l : List Bytes) × (r : List Bytes) × (group ≡ l ++ r)
              × IsLeftToken left word l
              × IsRightToken right word r))

  left_bigram-IsLeftToken :
      (lefts : List Bytes) (word : Bytes) (l : List Bytes)
      → left_bigram lib lefts word ≡ done l
      → IsLeftToken (nearest lefts) word l × (length l ≤ 1)
  unfolding left_bigram IsLeftToken nearest
  left_bigram-IsLeftToken [] word l h =
      let e = sym (done-injective h) in (e, omega (arith, ap length e))
  left_bigram-IsLeftToken (left ∷ lefts) word l h =
      let (bigram, e, h1) = bind-eq-done (make_l_bigram lib left word) _ h in
      let f = sym (done-injective h1) in ((bigram, e, f), omega (arith, ap length f))

  right_bigram-IsRightToken :
      (word : Bytes) (rights r : List Bytes)
      → right_bigram lib word rights ≡ done r
      → IsRightToken (get_elem? rights 0) word r × (length r ≤ 1)
  unfolding right_bigram IsRightToken
  right_bigram-IsRightToken word [] r h =
      let e = sym (done-injective h) in (e, omega (arith, ap length e))
  right_bigram-IsRightToken word (right ∷ rights) r h =
      let (bigram, e, h1) = bind-eq-done (make_r_bigram lib word right) _ h in
      let f = sym (done-injective h1) in ((bigram, e, f), omega (arith, ap length f))

  -- The groups of the words, the word in front of the first being given.
  abbrev AreGroups : List Bytes → Option Bytes → List Bytes → List (List Bytes) → Type 0
  AreGroups stopwords first words groups =
      (i : ℕ) (word : Bytes)
      → get_elem? words i ≡ some word
      → (group : List Bytes) × (get_elem? groups i ≡ some group)
        × IsGroup stopwords (word_before first words i) word (get_elem? words (suc i)) group

  groups-cons :
      (stopwords : List Bytes) (first : Option Bytes) (word : Bytes) (words : List Bytes)
      (group : List Bytes) (groups : List (List Bytes))
      → IsGroup stopwords first word (get_elem? words 0) group
      → AreGroups stopwords (some word) words groups
      → AreGroups stopwords first (word ∷ words) (group ∷ groups)
  unfolding word_before
  groups-cons stopwords first word words group groups h hs zero w e = (
    group,
    refl,
    subst (λ w'. IsGroup stopwords first w' (get_elem? words 0) group) (some-injective _ _ e) h,
  )
  groups-cons stopwords first word words group groups h hs (suc zero) w e = hs zero w e
  groups-cons stopwords first word words group groups h hs (suc (suc i)) w e = hs (suc i) w e

  bigrams-AreGroups :
      (stopwords lefts words res : List Bytes)
      → bigrams lib stopwords lefts words ≡ done res
      → (groups : List (List Bytes)) × (res ≡ concat_all groups)
        × (length groups ≡ length words)
        × (length res ≤ 2 * length words)
        × AreGroups stopwords (nearest lefts) words groups
  unfolding bigrams concat_all nearest
  bigrams-AreGroups stopwords lefts [] res h =
      let e = sym (done-injective h) in
      ([], e, refl, omega (arith, ap length e), λ i word found. absurd (cc found))
  bigrams-AreGroups stopwords lefts (word ∷ words) res h =
      elim (Bool-cases (is_stopword stopwords word)) [
        | inl stop ↦
            let (l, e1, h1) =
              bind-eq-done (left_bigram lib lefts word) _ (rw (stop, bigrams) at h) in
            let (r, e2, h2) = bind-eq-done (right_bigram lib word words) _ h1 in
            let (rest, e3, h3) = bind-eq-done (bigrams lib stopwords (word ∷ lefts) words) _ h2 in
            let (groups, whole, many, few, each) =
              bigrams-AreGroups stopwords (word ∷ lefts) words rest e3 in
            let (on_left, l1) = left_bigram-IsLeftToken lefts word l e1 in
            let (on_right, r1) = right_bigram-IsRightToken word words r e2 in
            let e : res ≡ l ++ (r ++ rest) = sym (done-injective h3) in
            (
              (l ++ r) ∷ groups,
              e ∙ ap (λ t. l ++ (r ++ t)) whole ∙ sym (append_assoc l r (concat_all groups)),
              ap suc many,
              omega (
                arith,
                ap length e,
                length-append l (r ++ rest),
                length-append r rest,
                l1,
                r1,
                few,
              ),
              groups-cons stopwords (nearest lefts) word words (l ++ r) groups
                  (inr (stop, (l, r, refl, on_left, on_right))) each,
            )
        | inr other ↦
            let (rest, e3, h3) =
              bind-eq-done (bigrams lib stopwords (word ∷ lefts) words) _
                (rw (other, bigrams) at h) in
            let (groups, whole, many, few, each) =
              bigrams-AreGroups stopwords (word ∷ lefts) words rest e3 in
            let e : res ≡ word ∷ rest = sym (done-injective h3) in
            (
              (word ∷ []) ∷ groups,
              e ∙ ap (word ∷◌) whole,
              ap suc many,
              omega (arith, ap length e, few),
              groups-cons stopwords (nearest lefts) word words (word ∷ []) groups
                  (inl (other, refl)) each,
            )
      ]

-- Where the tokens of a query are made, they are at most twenty, and those of the first ten of its
-- words, as `terminate2vec` gives them, or of all of them, group by group: a word that is no stopword
-- is its own token; a stopword has its bigram with the word in front of it, if there is one, and behind
-- that its bigram with the next of these words, if there is one.
pub query_tokens-groups :
    (lib : Library) (locale_init : Bool) (stopwords : List Bytes) (query : Bytes) (res : List Bytes)
    → query_tokens lib locale_init stopwords query ≡ done res
    → (words : List Bytes) × (groups : List (List Bytes)) × (terminate2vec lib locale_init query []
          true
        ≡ done words)
      × (res ≡ concat_all groups)
      × (length groups ≡ length (take 10 words))
      × (length res ≤ 20)
      × ((i : ℕ) (word : Bytes)
          → get_elem? (take 10 words) i ≡ some word
          → (group : List Bytes) × (get_elem? groups i ≡ some group)
            × IsGroup lib stopwords
                (word_before none (take 10 words) i)
                word
                (get_elem? (take 10 words) (suc i))
                group)
unfolding query_tokens bigram2vec nearest
query_tokens-groups lib locale_init stopwords query res h =
    let (words, e, h1) = bind-eq-done (terminate2vec lib locale_init query [] true) _ h in
    let (more, e2, h2) = bind-eq-done (bigrams lib stopwords [] (take 10 words)) _ h1 in
    let (groups, whole, many, few, each) =
      bigrams-AreGroups lib stopwords [] (take 10 words) more e2 in
    let same : res ≡ more = sym (done-injective h2) in
    (
      words,
      groups,
      e,
      same ∙ whole,
      many,
      omega (arith, ap length same, few, length-take 10 words),
      each,
    )
