-- ===== src/Searcher/Search.antt =====
-- `Searcher::search` of projects/searcher/src/searcher.cpp, and the operations of `InvertIndex` in
-- projects/indexer/src/index_struct.cpp that look something up.
pub mod Finds
pub mod Words
use amigos.Base.{
  ℕ, ◌-◌, ◌^◌, true, false, List, [], ◌∷◌, ◌++◌, Option, none, some, map, ◌==◌, ◌>>=◌, length,
  get_elem?, Bytes,
}
use amigos.Entry.{Entry}
use amigos.IndexIo.{IStream}
use amigos.DocStore.{get_doc_id, get_num_zone}
use amigos.DocDb.{Got, get_doc}
use amigos.Posting.{Posting, get_full_posting}
use amigos.Intersect.{intersect_entries}
use amigos.InvIndex.{InvIdxItem, get_entries, find_tkn_idx}
use amigos.Ranker.Draft.{draft_ranking}
use amigos.Ranker.Bands.{get_list_of_sorted_docid_by_rank}
use amigos.Searcher.Index.{Engine, InvertIndex}

module _ (engine : Engine) where
  open engine use {level, doubles, bands, murmur_hash2}
  open doubles use {D}
  open level use {Db}

  -- The loop over the tokens: the frequencies and the entries of all of them, or `none` inside if
  -- the index does not have one; `none` outside is a read out of range.
  unfoldable pub find_tokens :
      List (InvIdxItem D)
      → IStream
      → List Bytes
      → Option (Option (List D × List (List Entry)) × IStream)
  unfolding find_tkn_idx get_entries
  find_tokens inv_idx ifs [] = some (some ([], []), ifs)
  find_tokens inv_idx ifs (token ∷ tokens) = do
    tkn_id ← find_tkn_idx inv_idx (murmur_hash2 token)
    elim (tkn_id == 2 ^ 32 - 1) [
      | true ↦ some (none, ifs)
      | false ↦ do
        item ← get_elem? inv_idx tkn_id
        (entries, ifs) ← get_entries inv_idx ifs tkn_id []
        (found, ifs) ← find_tokens inv_idx ifs tokens
        some (
          elim found [
            | none ↦ none
            | some (idfs, by_token) ↦ some (item.idf ∷ idfs, entries ∷ by_token)
          ],
          ifs,
        )
    ]

  -- The documents for the entries of the tokens, the best first.
  unfoldable pub rank_documents : InvertIndex D Db → List D → List (List Entry) → Option (List ℕ)
  unfolding intersect_entries draft_ranking get_list_of_sorted_docid_by_rank
  rank_documents index idfs by_token = do
    let zones = length index.config.text_zones
    by_doc ← intersect_entries by_token []
    draft ← draft_ranking doubles zones index.doc_store by_doc idfs
    ranked ← get_list_of_sorted_docid_by_rank bands zones index.src index.doc_store draft
    some (map (λ r. r.0) ranked)

  -- `search`: what `docsId` is behind it, and the index, whose stream has moved.
  unfoldable pub search :
      InvertIndex D Db → List Bytes → List ℕ → Option (List ℕ × InvertIndex D Db)
  unfolding find_tokens rank_documents
  search index tokens docs_id = do
    (found, ifs) ← find_tokens index.inv_idx index.inv_idx_stream tokens
    let moved = record index { inv_idx_stream = ifs }
    elim found [
      | none ↦ some (docs_id, moved)
      | some (idfs, by_token) ↦ do
        docs ← rank_documents moved idfs by_token
        some (docs_id ++ docs, moved)
    ]

  -- `getDocId`, `getNZone`, `getIDF`, `getFullPosting` and `getRawDoc`.
  unfoldable pub index_doc_id : InvertIndex D Db → Entry → Option ℕ
  unfolding get_doc_id
  index_doc_id index entry = get_doc_id index.doc_store entry.doc_id_offset

  unfoldable pub get_n_zone : InvertIndex D Db → Entry → ℕ → Option ℕ
  unfolding get_num_zone
  get_n_zone index entry n_zone_id = get_num_zone index.doc_store entry.doc_id_offset n_zone_id

  unfoldable pub get_idf : InvertIndex D Db → ℕ → Option D
  get_idf index tkn_idx = do item ← get_elem? index.inv_idx tkn_idx; some item.idf

  unfoldable pub index_full_posting :
      InvertIndex D Db → Entry → List Posting → Option (List Posting)
  unfolding get_full_posting
  index_full_posting index entry res = get_full_posting (length index.config.text_zones) entry res

  unfoldable pub get_raw_doc : InvertIndex D Db → ℕ → Got
  unfolding get_doc
  get_raw_doc index doc_id = get_doc level index.doc_db doc_id
