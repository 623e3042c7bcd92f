-- ===== src/Indexer/Cook/FirstRun.antt =====
-- A run of the indexer on a disk that holds no index.
use amigos.Base.{
  ℕ, ◌^◌, ◌<◌, ◌≡◌, ◌≢◌, refl, ap, arith, Bool, true, List, [], ◌∷◌, ◌++◌, some, length,
  length-append, Bytes, text_eq_self, text_eq-other,
}
use amigos.Run.{done}
use amigos.Xml.{Dom}
use amigos.Config.{Config}
use amigos.Entry.{Entry}
use amigos.DocDb.{LevelDb}
use amigos.InvIndex.{flush_to_disk, write_index}
use amigos.Merge.Queues.{count_items}
use amigos.Merge.Files.{IsIndex}
use amigos.Merge.Single.{sorted_items, merge_files-single}
use amigos.Indexer.Words.{Platform}
use amigos.Indexer.Flush.{
  Indexer, Sizes, Directories, has_file, index_path, first_free, find_first_empty_file, flush_to,
  flush,
}
use amigos.Indexer.Flush.Suffix.{index_path_injective}
use amigos.Indexer.Items.{RawFile, parse_raw_data}
use amigos.Indexer.Cook.{
  file_bytes, put_file, numbered_paths, merge_paths, contents, write_merged, merge_indexes,
  flush_all, try_cook, handled, cook,
}

module _ (config : Config) (bytes0 : Bytes) where
  index_path-base : index_path config 0 ≢ config.index_data_path ++ config.invert_index_file
  unfolding index_path
  index_path-base e =
      let longer = ap length e in
      absurd (
        omega (
          arith,
          longer,
          length-append config.index_data_path config.invert_index_file,
          length-append config.index_data_path _,
          length-append config.invert_index_file _,
        ))

  index_path-next : index_path config 0 ≢ index_path config 1
  index_path-next e =
      absurd (omega (arith, index_path_injective config 0 1 (omega arith) (omega arith) e))

  merge_paths-first :
      merge_paths config ((index_path config 0, bytes0) ∷ []) ≡ some (index_path config 0 ∷ [])
  unfolding merge_paths numbered_paths has_file
  merge_paths-first =
      let base = text_eq-other _ _ index_path-base in
      let next = text_eq-other _ _ index_path-next in
      let self = text_eq_self (index_path config 0) in
      rw (merge_paths, numbered_paths, has_file, self, next, base) refl

module _ (dom : Dom) (platform : Platform) (locale_init : Bool) (stopwords : List Bytes)
    (level : LevelDb) (sizes : Sizes) (dirs : Directories) (config : Config) (max_mem_size : ℕ)
    (sort : (Entry → Entry → Bool) → List Entry → List Entry) where
  open dom use {Element}
  open level use {Db}

  flush_all-first :
      (before : Indexer Db)
      → dirs.exists config.index_data_path ≡ true
      → dirs.is_directory config.index_data_path ≡ true
      → flush_all dom platform locale_init stopwords level sizes dirs config max_mem_size true sort
          (record before { files = [] })
        ≡ done (flush_to sizes dirs config (index_path config 0) (record before { files = [] }))
  unfolding flush_all flush find_first_empty_file first_free has_file
  flush_all-first before exists is_directory =
      rw (flush_all, flush, find_first_empty_file, exists, is_directory) refl

  merge_indexes-first :
      (before : Indexer Db) (tok : ℕ) (es : List Entry) (items : List (ℕ × List Entry))
      → IsIndex ((tok, es) ∷ items)
      → count_items ((tok, es) ∷ items) < 2 ^ 32
      → merge_indexes true sort config
          (record before { files = (index_path config 0, flush_to_disk ((tok, es) ∷ items)) ∷ [] })
        ≡ done (record before {
          files =
              write_merged config
                ((index_path config 0, flush_to_disk ((tok, es) ∷ items)) ∷ [])
                (write_index (sorted_items sort ((tok, es) ∷ items)));
        })
  unfolding merge_indexes contents file_bytes
  merge_indexes-first before tok es items is room =
      let paths = merge_paths-first config (flush_to_disk ((tok, es) ∷ items)) in
      let self = text_eq_self (index_path config 0) in
      rw
        (
          merge_indexes,
          paths,
          contents,
          file_bytes,
          self,
          merge_files-single sort tok es items is room,
        )
        refl

  -- On a disk without index files, where `_parseRawData` returns with entries in memory that it has not
  -- had to flush, which fit their fields and are fewer than 2 ^ 32, `cook` returns, with no entry left
  -- in memory, and the index file holds the sorted entries of each token. It relies on the directory
  -- of the index being there, and on `end()` leading to the first element where it is moved forward.
  pub cook-first :
      (indexer before : Indexer Db) (raw_files : List (Bytes × RawFile Element)) (tok : ℕ)
      (es : List Entry) (items : List (ℕ × List Entry))
      → dirs.exists config.index_data_path ≡ true
      → dirs.is_directory config.index_data_path ≡ true
      → parse_raw_data dom platform locale_init stopwords level sizes dirs config max_mem_size
          indexer raw_files
        ≡ done (record before { files = []; inv_idx = (tok, es) ∷ items })
      → IsIndex ((tok, es) ∷ items)
      → count_items ((tok, es) ∷ items) < 2 ^ 32
      → (after : Indexer Db) × (cook dom platform locale_init stopwords level sizes dirs config
            max_mem_size true sort indexer raw_files
          ≡ done after)
        × (after.inv_idx ≡ [])
        × (file_bytes after.files (config.index_data_path ++ config.invert_index_file)
            ≡ (write_index (sorted_items sort ((tok, es) ∷ items))).0)
  unfolding cook try_cook handled flush_to write_merged put_file file_bytes
  cook-first indexer before raw_files tok es items exists is_directory parsed is room =
      let full : Indexer Db = record before { inv_idx = (tok, es) ∷ items } in
      let flushed = flush_all-first full exists is_directory in
      let start : Indexer Db =
        flush_to sizes dirs config (index_path config 0) (record full { files = [] }) in
      let merged = merge_indexes-first start tok es items is room in
      let self = text_eq_self (config.index_data_path ++ config.invert_index_file) in
      (
        record start {
          files =
              write_merged config ((index_path config 0, flush_to_disk ((tok, es) ∷ items)) ∷ [])
                (write_index (sorted_items sort ((tok, es) ∷ items)));
        },
        rw (cook, try_cook, parsed, flushed, merged, handled) refl,
        refl,
        rw (write_merged, put_file, file_bytes, self) refl,
      )
