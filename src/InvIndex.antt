-- ===== src/InvIndex.antt =====
-- The inverted index: its file, which `Indexer::_flushToDisk` of projects/indexer/src/indexer.cpp
-- writes, and `InvertIndex` of projects/indexer/src/index_struct.cpp, which reads it.
pub mod Skip
pub mod Items
pub mod Load
pub mod Find
pub mod Positions
use amigos.Base.{
  ℕ, zero, suc, ◌+◌, ◌-◌, ◌*◌, ◌/◌, ◌^◌, Bool, true, false, List, [], ◌∷◌, ◌++◌, Option, none, some,
  ltb, ◌==◌, if◌then◌else◌, ◌>>=◌, length, get_elem?,
}
use amigos.Entry.{Entry}
use amigos.IndexIo.{
  write_to, write_entries, read_from, read_entries, IStream, tellg, seekg, on_stream, read_from_end,
}

unfoldable pub write_idx_item : List ℕ → ℕ → List Entry → List ℕ
write_idx_item ofs token entries = write_entries (write_to 4 ofs token) entries

unfoldable pub write_items : List ℕ → List (ℕ × List Entry) → List ℕ
unfolding write_idx_item
write_items ofs [] = ofs
write_items ofs ((token, entries) ∷ inv_idx) =
    write_items (write_idx_item ofs token entries) inv_idx

-- The file of `_flushToDisk`, from the pairs of the map `_invIdx` in their order.
unfoldable pub flush_to_disk : List (ℕ × List Entry) → List ℕ
unfolding write_items
flush_to_disk inv_idx = write_to 4 (write_items [] inv_idx) (length inv_idx)

-- The end of each round of `_mergeIndexes`, with the token and the sorted entries of the round: the
-- item goes to `ofs`, its position to `ofsForOpt`, a `uint64_t` from `tellp`.
unfoldable pub write_rounds : List ℕ → List ℕ → List (ℕ × List Entry) → List ℕ × List ℕ
unfolding write_idx_item
write_rounds ofs ofs_for_opt [] = (ofs, ofs_for_opt)
write_rounds ofs ofs_for_opt ((min, entries) ∷ rounds) =
    write_rounds (write_idx_item ofs min entries) (write_to 8 ofs_for_opt (length ofs)) rounds

-- The two files behind `_mergeIndexes`; `size` counts the rounds.
unfoldable pub write_index : List (ℕ × List Entry) → List ℕ × List ℕ
unfolding write_rounds
write_index rounds =
    let (ofs, ofs_for_opt) = write_rounds [] [] rounds in
    (write_to 4 ofs (length rounds), ofs_for_opt)

-- The `idf` is a double; its values are in `D`.
pub record InvIdxItem (D : Type 0) : Type 0 where
  pub tok_id : ℕ
  pub offset : ℕ
  pub idf : D

-- The loop of `_readInvIdxItem` over the entries: a size, and a move behind the rest of the entry.
unfoldable pub skip_entries : ℕ → IStream → Option IStream
skip_entries zero ifs = some ifs
skip_entries (suc n) ifs = do
  (size, ifs) ← on_stream (read_from 1) ifs
  ifs ← seekg ifs (tellg ifs + (2 * size + 1 + 8 + 4))
  skip_entries n ifs

-- `log_ratio all count` stands for the double `std::log(all / count)`.
module _ {D : Type 0} (log_ratio : ℕ → ℕ → D) where
  -- `all` is `_invIdx.size()`.
  unfoldable pub read_inv_idx_item : ℕ → IStream → Option (InvIdxItem D × IStream)
  read_inv_idx_item all ifs = do
    (tok, ifs) ← on_stream (read_from 4) ifs
    (count, behind) ← on_stream (read_from 4) ifs
    next ← skip_entries count behind
    some (record { tok_id = tok; offset = tellg ifs; idf = log_ratio all count }, next)

  unfoldable pub read_items : ℕ → ℕ → IStream → Option (List (InvIdxItem D) × IStream)
  unfolding read_inv_idx_item
  read_items all zero ifs = some ([], ifs)
  read_items all (suc n) ifs = do
    (item, ifs) ← read_inv_idx_item all ifs
    (items, ifs) ← read_items all n ifs
    some (item ∷ items, ifs)

  unfoldable pub read_inv_idx_item_opt :
      ℕ → IStream → IStream → Option (InvIdxItem D × IStream × IStream)
  read_inv_idx_item_opt all ifs ifs_for_opt = do
    (offset, ifs_for_opt) ← on_stream (read_from 8) ifs_for_opt
    ifs ← seekg ifs offset
    (tok, ifs) ← on_stream (read_from 4) ifs
    (count, behind) ← on_stream (read_from 4) ifs
    some (
      record { tok_id = tok; offset = tellg ifs; idf = log_ratio all count },
      behind,
      ifs_for_opt,
    )

  unfoldable pub read_items_opt : ℕ → ℕ → IStream → IStream → Option (List (InvIdxItem D) × IStream)
  unfolding read_inv_idx_item_opt
  read_items_opt all zero ifs ifs_for_opt = some ([], ifs)
  read_items_opt all (suc n) ifs ifs_for_opt = do
    (item, ifs, ifs_for_opt) ← read_inv_idx_item_opt all ifs ifs_for_opt
    (items, ifs) ← read_items_opt all n ifs ifs_for_opt
    some (item ∷ items, ifs)

  -- What `configure` does with the index file, and with the file of positions where the
  -- configuration names one: `_invIdx` and `_invIdxStream`.
  unfoldable pub configure : List ℕ → Option (List ℕ) → Option (List (InvIdxItem D) × IStream)
  unfolding read_items read_items_opt
  configure file positions = do
    (size, ifs) ← read_from_end (record { file = file; rest = file })
    elim positions [
      | none ↦ read_items size size ifs
      | some opt ↦ read_items_opt size size ifs (record { file = opt; rest = opt })
    ]

module _ {D : Type 0} where
  -- `getEntries`; the entries go behind those of `res`.
  unfoldable pub get_entries :
      List (InvIdxItem D) → IStream → ℕ → List Entry → Option (List Entry × IStream)
  get_entries inv_idx ifs tkn_idx res = do
    item ← get_elem? inv_idx tkn_idx
    at_item ← seekg ifs item.offset
    on_stream (read_entries res) at_item

  -- `std::lower_bound` by `compareInvIdxItem`: halving the `len` items from `first` on.
  unfoldable pub lower_bound : ℕ → List (InvIdxItem D) → ℕ → ℕ → ℕ → Option ℕ
  lower_bound zero inv_idx tok first len = none
  lower_bound (suc fuel) inv_idx tok first zero = some first
  lower_bound (suc fuel) inv_idx tok first (suc len') =
      let len = suc len' in
      elim (get_elem? inv_idx (first + len / 2)) [
        | none ↦ none
        | some item ↦ elim (ltb item.tok_id tok) [
          | true ↦ lower_bound fuel inv_idx tok (first + len / 2 + 1) (len - len / 2 - 1)
          | false ↦ lower_bound fuel inv_idx tok first (len / 2)
        ]
      ]

  -- `findTknIdx`, with the hash of the word: `unexistingToken` is 2 ^ 32 - 1. `none` is a read
  -- behind the items.
  unfoldable pub find_tkn_idx : List (InvIdxItem D) → ℕ → Option ℕ
  unfolding lower_bound
  find_tkn_idx inv_idx hash = do
    pos ← lower_bound (suc (length inv_idx)) inv_idx hash 0 (length inv_idx)
    item ← get_elem? inv_idx pos
    some (if item.tok_id == hash then pos else 2 ^ 32 - 1)
