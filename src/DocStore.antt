-- ===== src/DocStore.antt =====
-- `DocStorage` of include/indexer/index_struct.h with `_load` of
-- projects/indexer/src/index_struct.cpp, and `DynDocStorage` of projects/indexer/src/indexer.cpp:
-- the columns of numbers that the index keeps for its documents, and their file.
pub mod Rows
pub mod File
use amigos.Base.{
  ℕ, ◌%◌, zero, suc, ◌+◌, ◌^◌, Bool, true, false, not, ◌||◌, List, [], ◌∷◌, ◌++◌, Option, none,
  some, leb, ltb, ◌==◌, if◌then◌else◌, ◌>>=◌, length, get_elem?, take, resize, replicate,
}
use amigos.IndexIo.{write_to, write_array, read_from, read_array}

pub record DocStorage : Type 0 where
  pub doc_ids : List ℕ
  pub n_zones : List (List ℕ)
  pub t_zones_w_cnt : List (List ℕ)

-- The exceptions of `_load` and `addDoc`, by their messages.
pub data Exception : Type 0 where
  cannot_open num_zones_differ text_zones_differ wrong_zone_counts : Exception

-- `undefined`: a value that nothing has set is used, or memory outside of a vector.
pub data Outcome {ℓ} (A : Type ℓ) : Type ℓ where
  ok : A → Outcome A
  throws : Exception → Outcome A
  undefined : Outcome A

-- The constructor's columns for a configuration with so many zones.
unfoldable pub fresh : ℕ → ℕ → DocStorage
fresh num_zones text_zones = record {
  doc_ids = [];
  n_zones = replicate num_zones [];
  t_zones_w_cnt = replicate text_zones [];
}

-- `getDocId`, `getNumZone`, `getTZoneWCnt`; `none` is an index out of range.
unfoldable pub get_doc_id : DocStorage → ℕ → Option ℕ
get_doc_id s ofs = get_elem? s.doc_ids ofs

unfoldable pub get_num_zone : DocStorage → ℕ → ℕ → Option ℕ
get_num_zone s ofs zone = do col ← get_elem? s.n_zones zone; get_elem? col ofs

unfoldable pub get_t_zone_w_cnt : DocStorage → ℕ → ℕ → Option ℕ
get_t_zone_w_cnt s ofs zone = do col ← get_elem? s.t_zones_w_cnt zone; get_elem? col ofs

-- The loops of `addDoc`: one value behind each column.
unfoldable pub push_row : List (List ℕ) → List ℕ → List (List ℕ)
push_row [] vals = []
push_row (col ∷ cols) [] = col ∷ cols
push_row (col ∷ cols) (v ∷ vals) = (col ++ (v ∷ [])) ∷ push_row cols vals

unfoldable pub add_doc : DocStorage → ℕ → List ℕ → List ℕ → Outcome DocStorage
unfolding push_row
add_doc s doc_id n_zones t_zones_w_cnt =
    if not (length n_zones == length s.n_zones)
      || not (length t_zones_w_cnt == length s.t_zones_w_cnt)
    then throws wrong_zone_counts
    else ok (record {
      doc_ids = s.doc_ids ++ (doc_id ∷ []);
      n_zones = push_row s.n_zones n_zones;
      t_zones_w_cnt = push_row s.t_zones_w_cnt t_zones_w_cnt;
    })

-- `ofs.write(&vec[0], count * sizeof(T))`: `none` where the vector is shorter than `count`.
unfoldable pub write_column : ℕ → ℕ → List ℕ → List ℕ → Option (List ℕ)
write_column w count ofs col =
    if ltb (length col) count then none else some (write_array w ofs (take count col))

unfoldable pub write_columns : ℕ → ℕ → List ℕ → List (List ℕ) → Option (List ℕ)
unfolding write_column
write_columns w count ofs [] = some ofs
write_columns w count ofs (col ∷ cols) = do
  ofs ← write_column w count ofs col
  write_columns w count ofs cols

-- `~DynDocStorage`: what the file holds behind it. `count` is a `uint32_t`.
unfoldable pub save : DocStorage → Option (List ℕ)
unfolding write_columns write_to
save s = do
  let count = length s.doc_ids % 2 ^ 32
  let sizes = write_to 4 (write_to 4 [] (length s.n_zones)) (length s.t_zones_w_cnt)
  ofs ← write_column 4 count (write_to 4 sizes count) s.doc_ids
  ofs ← write_columns 4 count ofs s.n_zones
  write_columns 2 count ofs s.t_zones_w_cnt

-- `vec.resize(start + count)` and a read of `count` words at `start`.
unfoldable pub read_column : ℕ → ℕ → ℕ → List ℕ → List ℕ → Option (List ℕ × List ℕ)
read_column w start count col ifs = do
  (vs, ifs) ← read_array w count ifs
  some (resize start 0 col ++ vs, ifs)

unfoldable pub read_columns : ℕ → ℕ → ℕ → List (List ℕ) → List ℕ → Option (List (List ℕ) × List ℕ)
unfolding read_column
read_columns w start count [] ifs = some ([], ifs)
read_columns w start count (col ∷ cols) ifs = do
  (col', ifs) ← read_column w start count col ifs
  (cols', ifs) ← read_columns w start count cols ifs
  some (col' ∷ cols', ifs)

unfoldable pub of_option {ℓ} : {A : Type ℓ} → Option A → Outcome A
of_option none = undefined
of_option (some a) = ok a

-- The reads behind the checks. Where `start + count` wraps around, the columns are too short for
-- what is read into them.
unfoldable pub load_rows : DocStorage → ℕ → List ℕ → Option DocStorage
unfolding read_columns read_from
load_rows s start ifs = do
  (count, ifs) ← read_from 4 ifs
  if leb (2 ^ 32) (start + count) then none else do
    (doc_ids, ifs) ← read_column 4 start count s.doc_ids ifs
    (n_zones, ifs) ← read_columns 4 start count s.n_zones ifs
    (t_zones, ifs) ← read_columns 2 start count s.t_zones_w_cnt ifs
    some (record { doc_ids = doc_ids; n_zones = n_zones; t_zones_w_cnt = t_zones })

-- The two numbers at the front of the file are known.
unfoldable pub load_checked : DocStorage → Bool → ℕ → ℕ → List ℕ → Outcome DocStorage
unfolding load_rows of_option
load_checked s true n_zones_cnt t_zones_cnt ifs =
    if not (length s.n_zones == n_zones_cnt)
    then throws num_zones_differ
    else if not (length s.t_zones_w_cnt == t_zones_cnt)
    then throws text_zones_differ
    else of_option (load_rows s (length s.doc_ids) ifs)
load_checked s false n_zones_cnt t_zones_cnt ifs = of_option (
    load_rows
      (record s {
        n_zones = resize n_zones_cnt [] s.n_zones;
        t_zones_w_cnt = resize t_zones_cnt [] s.t_zones_w_cnt;
      })
      0 ifs)

-- `_load(dataPath, isAppendMode)`; the file's bytes, or `none` if it cannot be opened.
unfoldable pub load : DocStorage → Bool → Option (List ℕ) → Outcome DocStorage
unfolding load_checked
load s is_append_mode none = throws cannot_open
load s is_append_mode (some ifs) = elim (read_from 4 ifs) [
  | none ↦ undefined
  | some (n_zones_cnt, ifs') ↦ elim (read_from 4 ifs') [
    | none ↦ undefined
    | some (t_zones_cnt, ifs'') ↦ load_checked s is_append_mode n_zones_cnt t_zones_cnt ifs''
  ]
]

-- `DynDocStorage(config)`: an exception is caught, and the storage starts with empty columns.
unfoldable pub open_store : ℕ → ℕ → Option (List ℕ) → Outcome DocStorage
unfolding load fresh
open_store num_zones text_zones file = elim (load (fresh num_zones text_zones) true file) [
  | ok s ↦ ok s
  | throws e ↦ ok (fresh num_zones text_zones)
  | undefined ↦ undefined
]
