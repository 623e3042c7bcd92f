-- ===== src/Ranker/Draft.antt =====
-- `get_draft_rank`, `getMaxNZone` and `draft_ranking` of projects/ranker/src/ranker.cpp, and
-- `InvertIndex::getZonesTf` of projects/indexer/src/index_struct.cpp: the two hundred documents that
-- are ranked in full. The doubles and `std::sort` are parameters.
pub mod Frozen
pub mod Bound
use Prim.Native.Nat.{bit_and}
use amigos.Base.{
  ℕ, zero, suc, ◌+◌, ◌/◌, Bool, true, false, List, [], ◌∷◌, ◌++◌, Option, none, some, map, ltb,
  ◌==◌, if◌then◌else◌, ◌>>=◌, length, get_elem?, take, max,
}
use amigos.Entry.{Entry, PostingInfo}
use amigos.DocStore.{DocStorage, get_t_zone_w_cnt, get_num_zone}
use amigos.Posting.{i2mask}

-- `quotient n m` stands for the double `n / m`, `fifth` and `five` for 0.2 and 5. `sort` is
-- `std::sort`.
pub record Doubles : Type 1 where
  pub D : Type 0
  pub nought : D
  pub fifth : D
  pub five : D
  pub of_nat : ℕ → D
  pub plus : D → D → D
  pub times : D → D → D
  pub quotient : ℕ → ℕ → D
  pub greater : D → D → Bool
  pub sort : {A : Type 0} → (A → A → Bool) → List A → List A

-- `getMaxNZone`; `none` is a document without an entry, or an index out of range.
unfoldable pub get_max_n_zone : DocStorage → List (List Entry) → ℕ → ℕ → Option ℕ
unfolding get_num_zone
get_max_n_zone store [] nzone best = some best
get_max_n_zone store ([] ∷ docs) nzone best = none
get_max_n_zone store ((entry ∷ entries) ∷ docs) nzone best = do
  val ← get_num_zone store entry.doc_id_offset nzone
  get_max_n_zone store docs nzone (max val best)

-- `/` of two `uint32_t`; a division by zero is undefined.
unfoldable pub divide : ℕ → ℕ → Option ℕ
divide n zero = none
divide n (suc m) = some (n / suc m)

module _ (doubles : Doubles) where
  open doubles use {D, nought, fifth, five, of_nat, plus, times, quotient, greater, sort}

  -- The loop of `getZonesTf` over `count` zones from `zi` on: `curZone` stays 0, and the values go
  -- behind those of `tfVec`.
  unfoldable pub zones_tf_loop : ℕ → ℕ → DocStorage → Entry → List D → Option (List D)
  unfolding get_t_zone_w_cnt i2mask
  zones_tf_loop zero zi store entry tf_vec = some tf_vec
  zones_tf_loop (suc count) zi store entry tf_vec = do
    mask ← i2mask zi
    elim (bit_and mask entry.posting_info.in_zone == 0) [
      | true ↦ zones_tf_loop count (zi + 1) store entry (tf_vec ++ (nought ∷ []))
      | false ↦ do
        size ← get_elem? entry.posting_info.posting_sizes 0
        words ← get_t_zone_w_cnt store entry.doc_id_offset zi
        zones_tf_loop count (zi + 1) store entry (tf_vec ++ (quotient size words ∷ []))
    ]

  -- `getZonesTf(entry, tfVec)` for so many text zones.
  unfoldable pub get_zones_tf : ℕ → DocStorage → Entry → List D → Option (List D)
  unfolding zones_tf_loop
  get_zones_tf text_zones store entry tf_vec = zones_tf_loop text_zones 0 store entry tf_vec

  -- `zonesTf[TITLE] + zonesTf[DESC] * 0.2 + zonesTf[SUB] * 5`.
  unfoldable pub weight : List D → Option D
  weight zones_tf = do
    title ← get_elem? zones_tf 0
    desc ← get_elem? zones_tf 1
    sub ← get_elem? zones_tf 2
    some (plus (plus title (times desc fifth)) (times sub five))

  -- The loop over the entries, with the inverse frequencies of their words. `zonesTf` is not emptied
  -- between the rounds.
  unfoldable pub draft_loop : ℕ → DocStorage → List Entry → List D → List D → D → Option D
  unfolding get_zones_tf weight
  draft_loop text_zones store [] idfs zones_tf rank = some rank
  draft_loop text_zones store (entry ∷ entries) [] zones_tf rank = none
  draft_loop text_zones store (entry ∷ entries) (idf ∷ idfs) zones_tf rank = do
    tf ← get_zones_tf text_zones store entry zones_tf
    w ← weight tf
    draft_loop text_zones store entries idfs tf (plus rank (times idf w))

  -- `index.getNZone(entry, VIEWS_CNT) / max_nzones_vals[VIEWS_CNT]`, of two integers.
  unfoldable pub add_views : DocStorage → List Entry → ℕ → D → Option D
  unfolding get_num_zone divide
  add_views store [] max_views rank = some rank
  add_views store (entry ∷ entries) max_views rank = do
    views ← get_num_zone store entry.doc_id_offset 0
    share ← divide views max_views
    some (plus rank (of_nat share))

  unfoldable pub get_draft_rank : ℕ → DocStorage → List Entry → List D → ℕ → Option D
  unfolding draft_loop add_views
  get_draft_rank text_zones store entries idfs max_views = do
    rank ← draft_loop text_zones store entries idfs [] nought
    add_views store entries max_views rank

  unfoldable pub draft_ranks :
      ℕ → DocStorage → List (List Entry) → List D → ℕ → Option (List (List Entry × D))
  unfolding get_draft_rank
  draft_ranks text_zones store [] idfs max_views = some []
  draft_ranks text_zones store (entries ∷ docs) idfs max_views = do
    rank ← get_draft_rank text_zones store entries idfs max_views
    rest ← draft_ranks text_zones store docs idfs max_views
    some ((entries, rank) ∷ rest)

  -- `more_rank`.
  unfoldable pub more_rank : List Entry × D → List Entry × D → Bool
  more_rank e1 e2 = greater e1.1 e2.1

  -- `draft_ranking`: what `entries_by_doc_res` is behind it, at most `MAX_DRAFT_DOCS` documents.
  unfoldable pub draft_ranking :
      ℕ → DocStorage → List (List Entry) → List D → Option (List (List Entry))
  unfolding get_max_n_zone draft_ranks more_rank
  draft_ranking text_zones store docs idfs = do
    max_views ← get_max_n_zone store docs 0 0
    ranked ← draft_ranks text_zones store docs idfs max_views
    let num = if ltb 200 (length docs) then 200 else length docs
    some (map (λ r. r.0) (take num (sort more_rank ranked)))
