-- ===== src/Indexer/Flush.antt =====
-- The state of the class `Indexer` (projects/indexer/include/indexer.h), and `_hasSpace`,
-- `_findFirstEmptyFile` and `_flushToDisk` of projects/indexer/src/indexer.cpp.
pub mod Suffix
use amigos.Base.{
  ℕ, zero, suc, ◌+◌, ◌*◌, ◌%◌, ◌^◌, Bool, true, false, not, List, [], ◌∷◌, ◌++◌, Option, none, some,
  ltb, if◌then◌else◌, length, Bytes, bytes, text_eq,
}
use amigos.Run.{Run, done, throws, undefined, ◌>>=◌}
use amigos.Xml.{Problem, no_directory, not_a_directory}
use amigos.Config.{Config}
use amigos.Entry.{Entry}
use amigos.DocStore.{DocStorage}
use amigos.DocDb.{to_string}
use amigos.Posting.{DynPostingStore}
use amigos.InvIndex.{flush_to_disk}
use amigos.Indexer.Words.{Stat}

-- `files` holds the regular files by their paths, the last written first, `words_frequency` what
-- the file of that name holds.
pub record Indexer (Db : Type 0) : Type 0 where
  pub inv_idx : List (ℕ × List Entry)
  pub stat : Stat
  pub entries_cnt : ℕ
  pub doc_store : DocStorage
  pub posting_store : DynPostingStore
  pub doc_db : Db
  pub files : List (Bytes × Bytes)
  pub words_frequency : Bytes

-- What the compiler and the library decide on: the sizes of an `std::map` and of its nodes, of an
-- `Index::Entry` and of a `double`, `estimateUMapSize`, which counts buckets, and what `<<` writes of a
-- number in the global locale, which may group its digits.
pub record Sizes : Type 0 where
  pub map_size : ℕ
  pub node_size : ℕ
  pub entry_size : ℕ
  pub double_size : ℕ
  pub u_map_size : List (Bytes × ℕ) → ℕ
  pub show_count : ℕ → Bytes

-- `boost::filesystem::exists` and `is_directory` for directories.
pub record Directories : Type 0 where
  pub exists : Bytes → Bool
  pub is_directory : Bytes → Bool

unfoldable pub has_file : List (Bytes × Bytes) → Bytes → Bool
has_file [] path = false
has_file ((p, text) ∷ files) path =
    let rest = has_file files path in if text_eq p path then true else rest

unfoldable pub index_path : Config → ℕ → Bytes
index_path config sfx =
    config.index_data_path ++ (config.invert_index_file ++ (b'.' ∷ to_string sfx))

-- The loop of `_findFirstEmptyFile`; `none` is a lack of fuel.
unfoldable pub first_free : ℕ → Config → List (Bytes × Bytes) → ℕ → Option Bytes
unfolding has_file index_path
first_free zero config files sfx = none
first_free (suc fuel) config files sfx =
    let path = index_path config sfx in
    let rest = first_free fuel config files ((sfx + 1) % 2 ^ 32) in
    if has_file files path then rest else some path

-- The exception, or the loop, with one round more than there are files.
unfoldable pub find_first_empty_file :
    Directories → Config → List (Bytes × Bytes) → Run Problem (Option Bytes)
unfolding first_free
find_first_empty_file dirs config files =
    let dir = config.index_data_path in
    if not (dirs.exists dir)
    then throws (no_directory dir)
    else if not (dirs.is_directory dir)
    then throws (not_a_directory dir)
    else done (first_free (length files + 1) config files 0)

-- The lines of `words_frequency.draw`.
unfoldable pub frequency_lines : (ℕ → Bytes) → List (Bytes × ℕ) → Bytes
frequency_lines show_count [] = []
frequency_lines show_count ((word, n) ∷ dict) =
    word ++ (b' ' ∷ (show_count n ++ (b'\n' ∷ frequency_lines show_count dict)))

abbrev pub empty_stat : Stat
empty_stat = record { stat_dict = []; chars_cnt = 0 }

module _ {Db : Type 0} (sizes : Sizes) (dirs : Directories) (config : Config) where
  -- `_hasSpace`, for `_maxMemSize`; the sum has 64 bits.
  unfoldable pub has_space : ℕ → Indexer Db → Bool
  has_space max_mem_size indexer =
      let map_bytes = sizes.node_size * length indexer.inv_idx + sizes.map_size in
      let entry_bytes = sizes.entry_size + sizes.double_size * length config.text_zones in
      let cur_size =
        map_bytes
        + sizes.u_map_size indexer.stat.stat_dict
        + indexer.entries_cnt * entry_bytes
        + indexer.stat.chars_cnt in
      ltb (cur_size % 2 ^ 64) max_mem_size

  -- `_flushToDisk` to a path.
  unfoldable pub flush_to : Bytes → Indexer Db → Indexer Db
  unfolding frequency_lines flush_to_disk
  flush_to path indexer = record indexer {
    inv_idx = [];
    stat = empty_stat;
    entries_cnt = 0;
    files = (path, flush_to_disk indexer.inv_idx) ∷ indexer.files;
    words_frequency =
        indexer.words_frequency ++ frequency_lines sizes.show_count indexer.stat.stat_dict;
  }

  -- `_flushToDisk`; `none` is a lack of fuel.
  unfoldable pub flush : Indexer Db → Run Problem (Option (Indexer Db))
  unfolding find_first_empty_file flush_to
  flush indexer = do
    path ← find_first_empty_file dirs config indexer.files
    done (elim path [ none ↦ none | some path ↦ some (flush_to path indexer) ])
