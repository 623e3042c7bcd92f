-- ===== src/Ranker/Bands.antt =====
-- `get_doc_rank` and `get_list_of_sorted_docid_by_rank` of projects/ranker/src/ranker.cpp: the order
-- in which the documents are shown. The floats and `std::sort` are parameters.
pub mod Ordered
use amigos.Base.{
  ℕ, zero, suc, ◌+◌, Bool, true, false, List, [], ◌∷◌, ◌++◌, Option, none, some, if◌then◌else◌,
  ◌>>=◌, length, take, drop,
}
use amigos.Entry.{Entry}
use amigos.DocStore.{DocStorage, get_doc_id}
use amigos.Posting.{get_full_posting, words_of_all}
use amigos.Ranker.{get_positions_for_zone}
use amigos.Ranker.Windows.{Floats, get_rank}

-- `times_five` is the product with 5, `greater` the comparison of two floats, `at_least` that of a
-- float with an integer, `sort` is `std::sort`.
pub record Bands : Type 1 where
  pub floats : Floats
  pub times_five : floats.F → floats.F
  pub greater : floats.F → floats.F → Bool
  pub at_least : floats.F → ℕ → Bool
  pub sort : {A : Type 0} → (A → A → Bool) → List A → List A

-- The postings of the entries, as the words in the bytes that the posting storage maps.
unfoldable pub postings_by_entries : ℕ → List ℕ → List Entry → Option (List (List (List ℕ)))
unfolding get_full_posting words_of_all
postings_by_entries t_zones_cnt src [] = some []
postings_by_entries t_zones_cnt src (entry ∷ entries) = do
  postings ← get_full_posting t_zones_cnt entry []
  words ← words_of_all src postings
  rest ← postings_by_entries t_zones_cnt src entries
  some (words ∷ rest)

module _ (bands : Bands) where
  open bands use {floats, times_five, greater, at_least, sort}
  open floats use {F}

  unfoldable pub get_doc_rank : ℕ → List ℕ → List Entry → Option (F × F)
  unfolding postings_by_entries get_positions_for_zone get_rank
  get_doc_rank t_zones_cnt src entries = do
    postings ← postings_by_entries t_zones_cnt src entries
    title ← get_positions_for_zone 0 [] postings
    rank_title ← get_rank floats title (length entries)
    subs ← get_positions_for_zone 2 [] postings
    rank_subs ← get_rank floats subs (length entries)
    some (times_five rank_title, rank_subs)

  -- The loop over the documents; one without entries is passed over.
  unfoldable pub doc_ranks : ℕ → List ℕ → DocStorage → List (List Entry) → Option (List (ℕ × F × F))
  unfolding get_doc_rank get_doc_id
  doc_ranks t_zones_cnt src store [] = some []
  doc_ranks t_zones_cnt src store ([] ∷ docs) = doc_ranks t_zones_cnt src store docs
  doc_ranks t_zones_cnt src store ((entry ∷ entries) ∷ docs) = do
    (title, subs) ← get_doc_rank t_zones_cnt src (entry ∷ entries)
    doc_id ← get_doc_id store entry.doc_id_offset
    rest ← doc_ranks t_zones_cnt src store docs
    some ((doc_id, title, subs) ∷ rest)

  -- `title_only_more`, `comp_title`, `comp_subs`.
  unfoldable pub title_only_more : ℕ × F × F → ℕ → Bool
  title_only_more i val = at_least i.1 val

  unfoldable pub comp_title : ℕ × F × F → ℕ × F × F → Bool
  comp_title x y = greater x.1 y.1

  unfoldable pub comp_subs : ℕ × F × F → ℕ × F × F → Bool
  comp_subs x y = greater x.2 y.2

  -- `std::lower_bound(..., val, title_only_more)` as an index, in a list that is partitioned.
  unfoldable pub title_bound : ℕ → List (ℕ × F × F) → ℕ
  unfolding title_only_more
  title_bound val [] = 0
  title_bound val (i ∷ ranks) =
      let rest = title_bound val ranks in if title_only_more i val then suc rest else 0

  -- The three sorts behind the first one.
  unfoldable pub sort_bands : List (ℕ × F × F) → List (ℕ × F × F)
  unfolding title_bound comp_subs
  sort_bands ranks =
      let it1 = title_bound 5000 ranks in
      let it2 = title_bound 500 ranks in
      sort comp_subs (take it1 ranks)
      ++ (sort comp_subs (drop it1 (take it2 ranks)) ++ sort comp_subs (drop it2 ranks))

  -- `get_list_of_sorted_docid_by_rank`, for an empty `docid_by_rank`.
  unfoldable pub get_list_of_sorted_docid_by_rank :
      ℕ → List ℕ → DocStorage → List (List Entry) → Option (List (ℕ × F × F))
  unfolding doc_ranks comp_title sort_bands
  get_list_of_sorted_docid_by_rank t_zones_cnt src store docs = do
    ranks ← doc_ranks t_zones_cnt src store docs
    some (sort_bands (sort comp_title ranks))
