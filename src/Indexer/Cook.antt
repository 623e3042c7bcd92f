-- ===== src/Indexer/Cook.antt =====
-- `Indexer::_mergeIndexes` on the files of the disk, `Indexer::cook` and the constructor of
-- projects/indexer/src/indexer.cpp.
pub mod FirstRun
use amigos.Base.{
  ℕ, zero, suc, ◌+◌, Bool, true, false, List, [], ◌∷◌, ◌++◌, Option, none, some, if◌then◌else◌,
  length, Bytes, text_eq,
}
use amigos.Run.{Run, done, throws, undefined, ◌>>=◌}
use amigos.Xml.{Dom, Problem}
use amigos.Config.{Config}
use amigos.Entry.{Entry}
use amigos.DocStore.{Outcome, open_store}
use amigos.DocDb.{LevelDb}
use amigos.Posting.{open_posting_store}
use amigos.Merge.{Stuck, merge_files}
use amigos.Indexer.Words.{Platform}
use amigos.Indexer.Flush.{Indexer, Sizes, Directories, has_file, index_path, empty_stat, flush}
use amigos.Indexer.Items.{Stop, failed, aborted, out_of_fuel, at_indexer, RawFile, parse_raw_data}

-- The bytes of a file of the disk.
unfoldable pub file_bytes : List (Bytes × Bytes) → Bytes → Bytes
file_bytes [] path = []
file_bytes ((p, text) ∷ files) path =
    let rest = file_bytes files path in if text_eq p path then text else rest

-- A file that is written takes the place of one with the same path.
unfoldable pub without : List (Bytes × Bytes) → Bytes → List (Bytes × Bytes)
without [] path = []
without ((p, text) ∷ files) path =
    let rest = without files path in if text_eq p path then rest else (p, text) ∷ rest

unfoldable pub put_file : List (Bytes × Bytes) → Bytes → Bytes → List (Bytes × Bytes)
unfolding without
put_file files path text = (path, text) ∷ without files path

-- The paths with a number behind them, from one number on; `none` is a lack of fuel.
unfoldable pub numbered_paths : ℕ → Config → List (Bytes × Bytes) → ℕ → Option (List Bytes)
unfolding has_file index_path
numbered_paths zero config files sfx = none
numbered_paths (suc fuel) config files sfx = elim (has_file files (index_path config sfx)) [
  | false ↦ some []
  | true ↦ elim (numbered_paths fuel config files (sfx + 1)) [
    | none ↦ none
    | some paths ↦ some (index_path config sfx ∷ paths)
  ]
]

-- `paths` of `_mergeIndexes`, with one round more than there are files.
unfoldable pub merge_paths : Config → List (Bytes × Bytes) → Option (List Bytes)
unfolding numbered_paths has_file
merge_paths config files =
    let path = config.index_data_path ++ config.invert_index_file in
    elim (numbered_paths (length files + 1) config files 0) [
      | none ↦ none
      | some paths ↦ some (if has_file files path then path ∷ paths else paths)
    ]

unfoldable pub contents : List (Bytes × Bytes) → List Bytes → List Bytes
unfolding file_bytes
contents files [] = []
contents files (path ∷ paths) = file_bytes files path ∷ contents files paths

-- The two files that are written; the index itself replaces the file of the same path at last.
unfoldable pub write_merged : Config → List (Bytes × Bytes) → Bytes × Bytes → List (Bytes × Bytes)
unfolding put_file
write_merged config files (merged, positions) =
    put_file
      (elim config.invert_index_ipos_file [
        | [] ↦ files
        | c ∷ name ↦ put_file files (config.index_data_path ++ (c ∷ name)) positions
      ])
      (config.index_data_path ++ config.invert_index_file) merged

abbrev pub merged_or_stuck {ℓ} : {Db : Type 0} {A : Type ℓ} → Run Stuck A → Run (Stop Db) A
merged_or_stuck (done a) = done a
merged_or_stuck (throws stuck) = throws out_of_fuel
merged_or_stuck undefined = undefined

abbrev pub with_fuel {ℓ} : {Db : Type 0} {A : Type ℓ} → Option A → Run (Stop Db) A
with_fuel none = throws out_of_fuel
with_fuel (some a) = done a

-- `ring` and `sort` as in the merging of the files.
module _ {Db : Type 0} (ring : Bool) (sort : (Entry → Entry → Bool) → List Entry → List Entry)
    (config : Config) where
  -- `_mergeIndexes`.
  unfoldable pub merge_indexes : Indexer Db → Run (Stop Db) (Indexer Db)
  unfolding merge_paths contents merge_files write_merged
  merge_indexes indexer = do
    paths ← with_fuel (merge_paths config indexer.files)
    merged ← merged_or_stuck (merge_files ring sort (contents indexer.files paths))
    done (record indexer { files = write_merged config indexer.files merged })

module _ (dom : Dom) (platform : Platform) (locale_init : Bool) (stopwords : List Bytes)
    (level : LevelDb) (sizes : Sizes) (dirs : Directories) (config : Config) (max_mem_size : ℕ)
    (ring : Bool) (sort : (Entry → Entry → Bool) → List Entry → List Entry) where
  open dom use {Element}
  open level use {Db}

  -- `_flushToDisk`.
  unfoldable pub flush_all : Indexer Db → Run (Stop Db) (Indexer Db)
  unfolding flush
  flush_all indexer = do
    flushed ← at_indexer indexer (flush sizes dirs config indexer)
    with_fuel flushed

  -- What `cook` tries.
  unfoldable pub try_cook : Indexer Db → List (Bytes × RawFile Element) → Run (Stop Db) (Indexer Db)
  unfolding parse_raw_data flush_all merge_indexes
  try_cook indexer raw_files = do
    indexer ←
        parse_raw_data dom platform locale_init stopwords level sizes dirs config max_mem_size
          indexer raw_files
    indexer ← flush_all indexer
    merge_indexes ring sort config indexer

  -- The handler, for an exception of the class `Index::Exception`.
  unfoldable pub handled : Run (Stop Db) (Indexer Db) → Run (Stop Db) (Indexer Db)
  unfolding flush_all
  handled (done indexer) = done indexer
  handled undefined = undefined
  handled (throws stop) = elim stop [
    | failed indexer p ↦ (do indexer ← flush_all indexer; throws (failed indexer p))
    | aborted a ↦ throws (aborted a)
    | out_of_fuel ↦ throws out_of_fuel
  ]

  -- `cook`.
  unfoldable pub cook : Indexer Db → List (Bytes × RawFile Element) → Run (Stop Db) (Indexer Db)
  unfolding try_cook handled
  cook indexer raw_files = handled (try_cook indexer raw_files)

-- `Indexer(config)` on a disk: the files of the document storage and of the postings, if they are
-- there, the database and the files of the index.
unfoldable pub new_indexer :
    {Db : Type 0}
    → Config
    → Option Bytes
    → Option Bytes
    → Db
    → List (Bytes × Bytes)
    → Bytes
    → Run Problem (Indexer Db)
unfolding open_store open_posting_store
new_indexer config stored postings db files words_frequency =
    elim (open_store (length config.num_zones) (length config.text_zones) stored) [
      | Outcome.ok doc_store ↦ done (record {
        inv_idx = [];
        stat = empty_stat;
        entries_cnt = 0;
        doc_store = doc_store;
        posting_store = open_posting_store (elim postings [ none ↦ [] | some file ↦ file ]);
        doc_db = db;
        files = files;
        words_frequency = words_frequency;
      })
      | Outcome.throws e ↦ undefined
      | Outcome.undefined ↦ undefined
    ]
