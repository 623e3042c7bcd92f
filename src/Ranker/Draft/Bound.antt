-- ===== src/Ranker/Draft/Bound.antt =====
-- How many documents `draft_ranking` keeps, and where it has no result.
use mathlib.Core.Option.{some-injective}
use amigos.Base.{
  ℕ, suc, ◌≡◌, refl, ap, ◌∙◌, sym, arith, List, [], ◌∷◌, none, some, inl, inr, length, length-take,
  length-map, take, min, ltb, if◌then◌else◌, Bool-cases, ltb→lt, ltb→le, bind-eq-some, Option-cases,
  Bool,
}
use amigos.Entry.{Entry}
use amigos.DocStore.{DocStorage, get_num_zone}
use amigos.Ranker.Draft.{
  Doubles, get_max_n_zone, divide, draft_loop, add_views, get_draft_rank, draft_ranks, more_rank,
  draft_ranking,
}

at_most : (n : ℕ) → (if ltb 200 n then 200 else n) ≡ min 200 n
at_most n = elim (Bool-cases (ltb 200 n)) [
  | inl many ↦ rw many (omega (arith, ltb→lt 200 n many))
  | inr few ↦ rw few (omega (arith, ltb→le 200 n few))
]

module _ (doubles : Doubles) where
  open doubles use {D, nought, sort}

  length-draft_ranks :
      (text_zones : ℕ) (store : DocStorage) (docs : List (List Entry)) (idfs : List D)
      (max_views : ℕ) (ranked : List (List Entry × D))
      → draft_ranks doubles text_zones store docs idfs max_views ≡ some ranked
      → length ranked ≡ length docs
  unfolding draft_ranks
  length-draft_ranks text_zones store [] idfs max_views ranked h =
      ap length (sym (some-injective _ _ h))
  length-draft_ranks text_zones store (entries ∷ docs) idfs max_views ranked h =
      let (rank, e, h1) =
        bind-eq-some (get_draft_rank doubles text_zones store entries idfs max_views) _ h in
      let (rest, e2, h2) =
        bind-eq-some (draft_ranks doubles text_zones store docs idfs max_views) _ h1 in
      ap length (sym (some-injective _ _ h2))
      ∙ ap suc (length-draft_ranks text_zones store docs idfs max_views rest e2)

  -- A document has no draft rank where the most views are 0.
  get_draft_rank-no_views :
      (text_zones : ℕ) (store : DocStorage) (entry : Entry) (entries : List Entry) (idfs : List D)
      → get_draft_rank doubles text_zones store (entry ∷ entries) idfs 0 ≡ none
  unfolding get_draft_rank add_views divide
  get_draft_rank-no_views text_zones store entry entries idfs =
      elim (Option-cases (draft_loop doubles text_zones store (entry ∷ entries) idfs [] nought)) [
        | inl e ↦ rw (get_draft_rank, e) refl
        | inr (rank, e) ↦ elim (Option-cases (get_num_zone store entry.doc_id_offset 0)) [
          | inl e2 ↦ rw (get_draft_rank, add_views, e, e2) refl
          | inr (views, e2) ↦ rw (get_draft_rank, add_views, e, e2) refl
        ]
      ]

-- Where `draft_ranking` has a result, it keeps the documents up to the two hundredth, if `std::sort`
-- keeps the number of the elements. It has none, but divides by zero, where there is a document with
-- an entry in front and the views of all documents are 0.
pub draft_ranking_lem :
    (doubles : Doubles) (text_zones : ℕ) (store : DocStorage) (docs : List (List Entry))
    (entry : Entry) (entries : List Entry) (idfs : List doubles.D)
    → ((A : Type 0) (cmp : A → A → Bool) (xs : List A) → length (doubles.sort cmp xs) ≡ length xs)
    → ((res : List (List Entry))
        → draft_ranking doubles text_zones store docs idfs ≡ some res
        → length res ≡ min 200 (length docs))
      × (get_max_n_zone store ((entry ∷ entries) ∷ docs) 0 0 ≡ some 0
          → draft_ranking doubles text_zones store ((entry ∷ entries) ∷ docs) idfs ≡ none)
unfolding draft_ranking draft_ranks
draft_ranking_lem doubles text_zones store docs entry entries idfs sorts = (bounded, divides)
  where
    bounded :
        (res : List (List Entry))
        → draft_ranking doubles text_zones store docs idfs ≡ some res
        → length res ≡ min 200 (length docs)
    bounded res h =
        let n = length docs in
        let num = if ltb 200 n then 200 else n in
        let (max_views, e, h1) = bind-eq-some (get_max_n_zone store docs 0 0) _ h in
        let (ranked, e2, h2) =
          bind-eq-some (draft_ranks doubles text_zones store docs idfs max_views) _ h1 in
        let by_rank = doubles.sort (more_rank doubles) ranked in
        let len = length-draft_ranks doubles text_zones store docs idfs max_views ranked e2 in
        ap length (sym (some-injective _ _ h2))
        ∙ omega (
          arith,
          length-map (λ r. r.0) (take num by_rank),
          length-take num by_rank,
          sorts (List Entry × doubles.D) (more_rank doubles) ranked,
          len,
          at_most n,
        )

    divides :
        get_max_n_zone store ((entry ∷ entries) ∷ docs) 0 0 ≡ some 0
        → draft_ranking doubles text_zones store ((entry ∷ entries) ∷ docs) idfs ≡ none
    divides e =
        rw
          (
            draft_ranking,
            e,
            draft_ranks,
            get_draft_rank-no_views doubles text_zones store entry entries idfs,
          )
          refl
