-- ===== src/Searcher/Index.antt =====
-- `InvertIndex` of projects/indexer/src/index_struct.cpp, opened by its `configure`, which is all that
-- `Searcher::configure` of projects/searcher/src/searcher.cpp does.
use amigos.Base.{ℕ, true, List, [], ◌∷◌, ◌++◌, Option, none, some, length, Bytes}
use amigos.Run.{Run, done, throws, undefined, ◌>>=◌}
use amigos.Xml.{Dom, Problem}
use amigos.Config.{Config, load_config}
use amigos.IndexIo.{IStream}
use amigos.DocStore.{DocStorage, Exception, Outcome, fresh, load}
use amigos.DocDb.{LevelDb}
use amigos.InvIndex.{InvIdxItem}
use amigos.InvIndex as Items
use amigos.Ranker.Draft.{Doubles}
use amigos.Ranker.Bands.{Bands}

-- What the searcher takes from elsewhere: tinyxml2 with the elements of a file, leveldb with
-- `DB::Open`, the bytes of a file that can be opened, `MurmurHash2` of a word, `std::log` of the
-- quotient of two numbers, and the numbers and sorts of the ranker.
pub record Engine : Type 1 where
  pub dom : Dom
  pub level : LevelDb
  pub doubles : Doubles
  pub bands : Bands
  pub load_xml : Bytes → Option (List dom.Element)
  pub open_db : Bytes → Option level.Db
  pub open_file : Bytes → Option (List ℕ)
  pub murmur_hash2 : Bytes → ℕ
  pub log_ratio : ℕ → ℕ → doubles.D

-- How `configure` ends early.
pub data Failure : Type 0 where
  bad_config : Problem → Failure
  bad_doc_store : Exception → Failure
  cannot_open_postings cannot_open_database cannot_open_index : Failure

-- `InvertIndex`: the members that pointers lead to stand in it, `src` is what `_src` maps.
pub record InvertIndex (D Db : Type 0) : Type 0 where
  pub config : Config
  pub inv_idx : List (InvIdxItem D)
  pub inv_idx_stream : IStream
  pub src : List ℕ
  pub doc_store : DocStorage
  pub doc_db : Db

unfoldable pub config_of : Run Problem Config → Run Failure Config
config_of (done c) = done c
config_of (throws p) = throws (bad_config p)
config_of undefined = undefined

unfoldable pub store_of : Outcome DocStorage → Run Failure DocStorage
store_of (Outcome.ok s) = done s
store_of (Outcome.throws e) = throws (bad_doc_store e)
store_of Outcome.undefined = undefined

unfoldable pub or_throw {ℓ} : {A : Type ℓ} → Failure → Option A → Run Failure A
or_throw e none = throws e
or_throw e (some a) = done a

-- `PostingStorage::_load`: an empty file cannot be mapped.
unfoldable pub load_postings : Option (List ℕ) → Run Failure (List ℕ)
load_postings none = throws cannot_open_postings
load_postings (some []) = throws cannot_open_postings
load_postings (some (b ∷ src)) = done (b ∷ src)

-- `_invIdxStream` and the file of positions, read by `configure`. A file that is not there reads as
-- an empty one.
unfoldable pub positions_file : Config → (Bytes → Option (List ℕ)) → Option (List ℕ)
positions_file config open_file = elim config.invert_index_ipos_file [
  | [] ↦ none
  | c ∷ name ↦ elim (open_file (config.index_data_path ++ (b'/' ∷ config.invert_index_ipos_file))) [
    | none ↦ some []
    | some file ↦ some file
  ]
]

unfoldable pub read_or_undefined {ℓ} : {A : Type ℓ} → Option A → Run Failure A
read_or_undefined none = undefined
read_or_undefined (some a) = done a

module _ (engine : Engine) where
  open engine use {dom, level, doubles, load_xml, open_db, open_file, log_ratio}
  open doubles use {D}
  open level use {Db}

  -- The rest of `configure`, with what the configuration names.
  unfoldable pub open_index : Config → Run Failure (InvertIndex D Db)
  unfolding store_of or_throw load_postings positions_file read_or_undefined load fresh
  open_index config = do
    let dir = config.index_data_path
    let empty = fresh (length config.num_zones) (length config.text_zones)
    src ← load_postings (open_file (dir ++ config.postings_file))
    store ← store_of (load empty true (open_file (dir ++ config.doc_store_file)))
    db ← or_throw cannot_open_database (open_db (dir ++ config.document_db))
    file ← or_throw cannot_open_index (open_file (dir ++ config.invert_index_file))
    (inv_idx, stream) ←
        read_or_undefined (Items.configure log_ratio file (positions_file config open_file))
    done (record {
      config = config;
      inv_idx = inv_idx;
      inv_idx_stream = stream;
      src = src;
      doc_store = store;
      doc_db = db;
    })

  -- `configure`.
  unfoldable pub configure : Bytes → Run Failure (InvertIndex D Db)
  unfolding config_of load_config open_index
  configure path = do config ← config_of (load_config dom (load_xml path)); open_index config
