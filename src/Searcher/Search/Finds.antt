-- ===== src/Searcher/Search/Finds.antt =====
-- Which documents a search finds.
use mathlib.Core.Option.{some-injective}
use amigos.Base.{
  ℕ, ◌≡◌, Bool, List, [], ◌∷◌, some, All, All-append, length, take, drop, map, bind-eq-some,
}
use amigos.Entry.{Entry}
use amigos.DocStore.{DocStorage, get_doc_id}
use amigos.Intersect.{intersect_entries}
use amigos.Intersect.Order.{Ascending}
use amigos.Intersect.Rows.{RowOf, InAll, intersect_entries-InAll}
use amigos.Ranker.Draft.{
  Doubles, get_max_n_zone, get_draft_rank, draft_ranks, more_rank, draft_ranking,
}
use amigos.Ranker.Bands.{
  Bands, get_doc_rank, doc_ranks, comp_title, comp_subs, title_bound, sort_bands,
  get_list_of_sorted_docid_by_rank,
}
use amigos.Ranker.Bands.Ordered.{All-take, All-drop}
use amigos.Searcher.Index.{Engine, InvertIndex}
use amigos.Searcher.Search.{rank_documents}

-- A sort that neither loses nor invents an element.
abbrev pub Permutes : ((A : Type 0) → (A → A → Bool) → List A → List A) → Type 1
Permutes sort =
    (A : Type 0) (cmp : A → A → Bool) (xs : List A)
    → (length (sort A cmp xs) ≡ length xs) × ((P : A → Type 0) → All P xs → All P (sort A cmp xs))

All-map :
    {A B : Type 0} (P : B → Type 0) (f : A → B) (xs : List A)
    → All (λ x. P (f x)) xs
    → All P (map f xs)
All-map P f [] h = tt
All-map P f (x ∷ xs) (h, hs) = (h, All-map P f xs hs)

module _ (doubles : Doubles) (text_zones : ℕ) (store : DocStorage) where
  open doubles use {D, sort}

  draft_ranks-All :
      (P : List Entry → Type 0) (docs : List (List Entry)) (idfs : List D) (max_views : ℕ)
      (ranked : List (List Entry × D))
      → draft_ranks doubles text_zones store docs idfs max_views ≡ some ranked
      → All P docs
      → All (λ r. P r.0) ranked
  unfolding draft_ranks
  draft_ranks-All P [] idfs max_views ranked h hs = rw (← some-injective _ _ h) tt
  draft_ranks-All P (entries ∷ docs) idfs max_views ranked h (p, hs) =
      let (rank, e, h1) =
        bind-eq-some (get_draft_rank doubles text_zones store entries idfs max_views) _ h in
      let (rest, e2, h2) =
        bind-eq-some (draft_ranks doubles text_zones store docs idfs max_views) _ h1 in
      rw (← some-injective _ _ h2) (p, draft_ranks-All P docs idfs max_views rest e2 hs)

  draft_ranking-All :
      (P : List Entry → Type 0) (docs : List (List Entry)) (idfs : List D) (res : List (List Entry))
      → Permutes (λ A cmp xs. sort cmp xs)
      → draft_ranking doubles text_zones store docs idfs ≡ some res
      → All P docs
      → All P res
  unfolding draft_ranking
  draft_ranking-All P docs idfs res sorts h hs =
      let (max_views, e, h1) = bind-eq-some (get_max_n_zone store docs 0 0) _ h in
      let (ranked, e2, h2) =
        bind-eq-some (draft_ranks doubles text_zones store docs idfs max_views) _ h1 in
      let all = draft_ranks-All P docs idfs max_views ranked e2 hs in
      let Q : List Entry × D → Type 0 = λ r. P r.0 in
      let sorted = (sorts (List Entry × D) (more_rank doubles) ranked).1 Q all in
      rw (← some-injective _ _ h2) (All-map P (λ r. r.0) _ (All-take Q _ _ sorted))

-- A document whose place in the storage has the property.
abbrev pub IsStored : DocStorage → (ℕ → Type 0) → ℕ → Type 0
IsStored store P doc_id = (ofs : ℕ) × (get_doc_id store ofs ≡ some doc_id) × P ofs

module _ (bands : Bands) (t_zones_cnt : ℕ) (src : List ℕ) (store : DocStorage)
    (P : ℕ → Type 0) where
  open bands use {floats, sort}
  open floats use {F}

  doc_ranks-All :
      (docs : List (List Entry)) (ranks : List (ℕ × F × F))
      → doc_ranks bands t_zones_cnt src store docs ≡ some ranks
      → All (RowOf P) docs
      → All (λ r. IsStored store P r.0) ranks
  unfolding doc_ranks
  doc_ranks-All [] ranks h hs = rw (← some-injective _ _ h) tt
  doc_ranks-All ([] ∷ docs) ranks h (p, hs) = absurd p
  doc_ranks-All ((entry ∷ entries) ∷ docs) ranks h (p, hs) =
      let (r, e, h1) = bind-eq-some (get_doc_rank bands t_zones_cnt src (entry ∷ entries)) _ h in
      let (doc_id, e2, h2) = bind-eq-some (get_doc_id store entry.doc_id_offset) _ h1 in
      let (rest, e3, h3) = bind-eq-some (doc_ranks bands t_zones_cnt src store docs) _ h2 in
      rw (← some-injective _ _ h3) ((entry.doc_id_offset, e2, p), doc_ranks-All docs rest e3 hs)

  sort_bands-All :
      (ranks : List (ℕ × F × F))
      → Permutes (λ A cmp xs. sort cmp xs)
      → All (λ r. IsStored store P r.0) ranks
      → All (λ r. IsStored store P r.0) (sort_bands bands ranks)
  unfolding sort_bands
  sort_bands-All ranks sorts h =
      let Q : ℕ × F × F → Type 0 = λ r. IsStored store P r.0 in
      let it1 = title_bound bands 5000 ranks in
      let it2 = title_bound bands 500 ranks in
      let high = sorts (ℕ × F × F) (comp_subs bands) (take it1 ranks) in
      let middle = sorts (ℕ × F × F) (comp_subs bands) (drop it1 (take it2 ranks)) in
      let low = sorts (ℕ × F × F) (comp_subs bands) (drop it2 ranks) in
      All-append Q _ _ (high.1 Q (All-take Q it1 ranks h)) (
        All-append Q _ _ (middle.1 Q (All-drop Q it1 _ (All-take Q it2 ranks h)))
          (low.1 Q (All-drop Q it2 ranks h)))

  list-All :
      (docs : List (List Entry)) (ranked : List (ℕ × F × F))
      → Permutes (λ A cmp xs. sort cmp xs)
      → get_list_of_sorted_docid_by_rank bands t_zones_cnt src store docs ≡ some ranked
      → All (RowOf P) docs
      → All (λ r. IsStored store P r.0) ranked
  unfolding get_list_of_sorted_docid_by_rank
  list-All docs ranked sorts h hs =
      let (ranks, e, h1) = bind-eq-some (doc_ranks bands t_zones_cnt src store docs) _ h in
      let Q : ℕ × F × F → Type 0 = λ r. IsStored store P r.0 in
      rw (← some-injective _ _ h1) (
        sort_bands-All _ sorts
          ((sorts _ (comp_title bands) ranks).1 Q (doc_ranks-All docs ranks e hs)))

module _ (engine : Engine) (sorts : Permutes (λ A cmp xs. engine.doubles.sort cmp xs))
    (bands_sort : Permutes (λ A cmp xs. engine.bands.sort cmp xs)) where
  pub rank_documents-All :
      (index : InvertIndex engine.doubles.D engine.level.Db) (idfs : List engine.doubles.D)
      (by_token : List (List Entry)) (docs : List ℕ)
      → All Ascending by_token
      → rank_documents engine index idfs by_token ≡ some docs
      → All (IsStored index.doc_store (InAll by_token)) docs
  unfolding rank_documents
  rank_documents-All index idfs by_token docs asc h =
      let zones = length index.config.text_zones in
      let store = index.doc_store in
      let found = InAll by_token in
      let (by_doc, e, h1) = bind-eq-some (intersect_entries by_token []) _ h in
      let (draft, e2, h2) =
        bind-eq-some (draft_ranking engine.doubles zones store by_doc idfs) _ h1 in
      let (ranked, e3, h3) =
        bind-eq-some (get_list_of_sorted_docid_by_rank engine.bands zones index.src store draft) _
          h2 in
      let rows = intersect_entries-InAll by_token by_doc asc e in
      let kept =
        draft_ranking-All engine.doubles zones store (RowOf found) by_doc idfs draft sorts e2
          rows in
      let listed =
        list-All engine.bands zones index.src store found draft ranked bands_sort e3 kept in
      rw (← some-injective _ _ h3) (All-map (IsStored store found) (λ r. r.0) ranked listed)
