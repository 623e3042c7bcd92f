-- ===== src/Indexer/Items.antt =====
-- `_extractTextZones` with its calls, and `_parseRawData` of projects/indexer/src/indexer.cpp: the
-- loops over the files of the raw data and over their documents.
pub mod Offsets
pub mod Indexed
use amigos.Base.{
  ℕ, zero, suc, ◌+◌, ◌%◌, ◌^◌, Bool, true, false, not, ◌&&◌, List, [], ◌∷◌, ◌++◌, Option, none,
  some, ◌==◌, if◌then◌else◌, length, get_elem?, replicate, Bytes, bytes, text_eq,
}
use amigos.Run.{Run, done, throws, undefined, ◌>>=◌}
use amigos.Xml.{
  Dom, Problem, cannot_load, incorrect_tag, wrong_zone_counts, no_directory, not_a_directory,
  not_regular, parse_failed, text_of, get_necessary_tag, necessary_text, first_named, no_tag,
}
use amigos.Config.{Config}
use amigos.Common.{Assertion}
use amigos.Entry.{Entry}
use amigos.DocStore.{DocStorage, Exception, Outcome, add_doc}
use amigos.DocDb.{LevelDb, RawDoc, raw_doc, put_doc}
use amigos.Posting.{DynPostingStore}
use amigos.Indexer.Zones.{stou, extract_zones, extract_num_zones}
use amigos.Indexer.Words.{Platform, Stat, Seen, add_zones, add_entries}
use amigos.Indexer.Flush.{Indexer, Sizes, Directories, has_space, flush}

-- How a call ends early: by an exception, behind which the indexer is in use still, by an assertion
-- that fails, or, which is no behaviour of the code, for lack of fuel.
pub data Stop (Db : Type 0) : Type 0 where
  failed : Indexer Db → Problem → Stop Db
  aborted : Assertion → Stop Db
  out_of_fuel : Stop Db

-- A call that leaves the indexer as it is.
abbrev pub at_indexer {ℓ} :
    {Db : Type 0} {A : Type ℓ} → Indexer Db → Run Problem A → Run (Stop Db) A
at_indexer indexer (done a) = done a
at_indexer indexer (throws p) = throws (failed indexer p)
at_indexer indexer undefined = undefined

abbrev pub at_assertion {ℓ} : {Db : Type 0} {A : Type ℓ} → Run Assertion A → Run (Stop Db) A
at_assertion (done a) = done a
at_assertion (throws a) = throws (aborted a)
at_assertion undefined = undefined

-- An entry of the raw data's directory, where a document that tinyxml2 loads has these elements at
-- its top.
pub data RawFile (Element : Type 0) : Type 0 where
  irregular : RawFile Element
  unloadable : RawFile Element
  loaded : List Element → RawFile Element

-- The loops' variables: the indexer, `itemsCnt`, `numZones`, `zonesForSave` and `fake`.
pub record Parsing (Db : Type 0) : Type 0 where
  pub indexer : Indexer Db
  pub items_cnt : ℕ
  pub num_zones : List ℕ
  pub saved : List (Bytes × Bytes)
  pub fake : List Bytes

-- The exceptions get the file's path.
unfoldable pub in_file : {Db : Type 0} {A : Type 0} → Bytes → Run (Stop Db) A → Run (Stop Db) A
in_file path (done a) = done a
in_file path undefined = undefined
in_file path (throws stop) = elim stop [
  | failed indexer p ↦ throws (failed indexer (parse_failed path p))
  | aborted a ↦ throws (aborted a)
  | out_of_fuel ↦ throws out_of_fuel
]

module _ (dom : Dom) (platform : Platform) (locale_init : Bool) (stopwords : List Bytes)
    (level : LevelDb) (sizes : Sizes) (dirs : Directories) (config : Config)
    (max_mem_size : ℕ) where
  open dom use {Element, name, children}
  open level use {Db}

  -- The end of `_extractTextZones`: what the loop over `tmpDict` makes of the indexer.
  unfoldable pub put_entries : List ℕ → Seen → Indexer Db → Option (Indexer Db)
  unfolding add_entries
  put_entries words_cnt seen indexer =
      let added =
        add_entries words_cnt (length indexer.doc_store.doc_ids) (platform.iterate seen.tmp_dict)
          indexer.inv_idx indexer.posting_store in
      elim added [
        | none ↦ none
        | some (inv_idx, store) ↦ some (record indexer {
          inv_idx = inv_idx;
          posting_store = store;
          stat = seen.stat;
          entries_cnt = (indexer.entries_cnt + length seen.tmp_dict) % 2 ^ 64;
        })
      ]

  -- `_extractTextZones`: the indexer, `wordsCnt` and the saved zones.
  unfoldable pub extract_text_zones :
      Indexer Db
      → Element
      → List ℕ
      → List (Bytes × Bytes)
      → Run (Stop Db) (Indexer Db × List ℕ × List (Bytes × Bytes))
  unfolding extract_zones add_zones put_entries
  extract_text_zones indexer e words_cnt saved = do
    (texts, saved) ← at_indexer indexer (extract_zones dom e config.text_zones [] saved)
    let start : Seen = record { pos = 0; stat = indexer.stat; tmp_dict = [] }
    (words_cnt, seen) ←
        at_assertion (add_zones platform locale_init stopwords texts words_cnt start)
    elim (put_entries words_cnt seen indexer) [
      | none ↦ undefined
      | some indexer ↦ done (indexer, words_cnt, saved)
    ]

  -- The check of the memory, once in a thousand documents.
  unfoldable pub flush_if_full : ℕ → Indexer Db → Run (Stop Db) (Indexer Db)
  unfolding has_space flush
  flush_if_full items_cnt indexer =
      if items_cnt % 1000 == 999 && not (has_space sizes dirs config max_mem_size indexer)
      then (do
        flushed ← at_indexer indexer (flush sizes dirs config indexer)
        elim flushed [ none ↦ throws out_of_fuel | some indexer ↦ done indexer ])
      else done indexer

  -- `_docStore.addDoc`.
  unfoldable pub store_doc : Indexer Db → ℕ → List ℕ → List ℕ → Run (Stop Db) (Indexer Db)
  unfolding add_doc
  store_doc indexer doc_id num_zones words_cnt =
      elim (add_doc indexer.doc_store doc_id num_zones words_cnt) [
        | Outcome.ok doc_store ↦ done (record indexer { doc_store = doc_store })
        | Outcome.throws e ↦ throws (failed indexer wrong_zone_counts)
        | Outcome.undefined ↦ undefined
      ]

  -- The rest of a round for a document that is not left out. The loop at its end, which sets copies
  -- of the saved zones, changes nothing.
  unfoldable pub keep_item : Parsing Db → Element → ℕ → Run (Stop Db) (Parsing Db)
  unfolding extract_text_zones extract_zones store_doc raw_doc put_doc
  keep_item p e doc_id = do
    let zeros = replicate (length config.text_zones) 0
    (indexer, words_cnt, saved) ← extract_text_zones p.indexer e zeros p.saved
    (fake, saved) ← at_indexer indexer (extract_zones dom e config.trash_zones p.fake saved)
    indexer ← store_doc indexer doc_id p.num_zones words_cnt
    let (doc, saved) = raw_doc saved
    done (record p {
      indexer = record indexer { doc_db = put_doc level indexer.doc_db doc_id doc };
      saved = saved;
      fake = fake;
    })

  -- A document whose fourth numeric zone is 1 is left out.
  unfoldable pub keep_or_skip : Parsing Db → Element → ℕ → Run (Stop Db) (Parsing Db)
  unfolding keep_item
  keep_or_skip p e doc_id = elim (get_elem? p.num_zones 3) [
    | none ↦ undefined
    | some zone ↦ if zone == 1 then done p else keep_item p e doc_id
  ]

  -- A round from the element's name on.
  unfoldable pub read_item : Parsing Db → Element → Run (Stop Db) (Parsing Db)
  unfolding necessary_text stou extract_num_zones keep_or_skip
  read_item p e =
      if not (text_eq (name e) (bytes "item"))
      then throws (failed p.indexer (incorrect_tag (name e)))
      else (do
        doc_id ← at_indexer p.indexer (necessary_text dom e config.doc_id_tag)
        (num_zones, saved) ←
            at_indexer p.indexer (extract_num_zones dom config e p.num_zones p.saved)
        keep_or_skip (record p { num_zones = num_zones; saved = saved }) e (stou doc_id))

  -- One round of the loop over the items.
  unfoldable pub parse_item : Parsing Db → Element → Run (Stop Db) (Parsing Db)
  unfolding flush_if_full read_item
  parse_item p e = do
    indexer ← flush_if_full p.items_cnt p.indexer
    read_item (record p { indexer = indexer; items_cnt = (p.items_cnt + 1) % 2 ^ 32 }) e

  unfoldable pub parse_items : Parsing Db → List Element → Run (Stop Db) (Parsing Db)
  unfolding parse_item
  parse_items p [] = done p
  parse_items p (e ∷ es) = do p ← parse_item p e; parse_items p es

  -- `getNecessaryTag(&doc, "items")`, for the elements at the document's top.
  unfoldable pub items_of : List Element → Run Problem Element
  unfolding first_named
  items_of top = elim (first_named dom top (bytes "items")) [
    | none ↦ throws (no_tag (bytes "items"))
    | some tag ↦ done tag
  ]

  -- One round of the loop over the files.
  unfoldable pub parse_file : Parsing Db → Bytes → RawFile Element → Run (Stop Db) (Parsing Db)
  unfolding in_file items_of parse_items
  parse_file p path irregular = throws (failed p.indexer (not_regular path))
  parse_file p path unloadable = throws (failed p.indexer cannot_load)
  parse_file p path (loaded top) =
      in_file path (do items ← at_indexer p.indexer (items_of top); parse_items p (children items))

  unfoldable pub parse_files :
      Parsing Db → List (Bytes × RawFile Element) → Run (Stop Db) (Parsing Db)
  unfolding parse_file
  parse_files p [] = done p
  parse_files p ((path, file) ∷ files) = do p ← parse_file p path file; parse_files p files

  -- `_parseRawData`, where the directory of the raw data has these entries.
  unfoldable pub parse_raw_data :
      Indexer Db → List (Bytes × RawFile Element) → Run (Stop Db) (Indexer Db)
  unfolding parse_files
  parse_raw_data indexer files =
      let dir = config.raw_data_path in
      if not (dirs.exists dir)
      then throws (failed indexer (no_directory dir))
      else if not (dirs.is_directory dir)
      then throws (failed indexer (not_a_directory dir))
      else (do
        p ←
            parse_files
              (record {
                indexer = indexer;
                items_cnt = 0;
                num_zones = replicate (length config.num_zones) 0;
                saved = [];
                fake = [];
              })
              files
        done p.indexer)
