-- ===== src/Indexer/Items/Indexed.antt =====
-- The loops over the raw data keep the index in memory in order.
use mathlib.Core.Option.{some-injective}
use mathlib.Core.Path.{subst}
use amigos.Base.{
  ℕ, ◌+◌, ◌%◌, ◌^◌, ◌≡◌, sym, ap, Option-cases, arith, Bool, not, ◌&&◌, ◌||◌, List, [], ◌∷◌, Option,
  none, some, inl, inr, length, length-append, Bytes, bytes, text_eq, get_elem?, ◌==◌, Bool-cases,
  replicate,
}
use amigos.Run.{Run, done, throws, undefined, bind-eq-done, done-injective}
use amigos.Xml.{Dom, Problem, necessary_text}
use amigos.Config.{Config}
use amigos.DocStore.{add_doc}
use amigos.DocDb.{LevelDb}
use amigos.Indexer.Zones.{stou, extract_zones, extract_num_zones}
use amigos.Indexer.Words.{Platform, Seen, add_entries, add_zones}
use amigos.Indexer.Flush.{
  Indexer, Sizes, Directories, has_space, flush, find_first_empty_file, flush_to,
}
use amigos.Indexer.Items.{
  Stop, Parsing, RawFile, irregular, unloadable, loaded, at_indexer, at_assertion, in_file,
  put_entries, extract_text_zones, flush_if_full, store_doc, keep_item, keep_or_skip, read_item,
  parse_item, parse_items, items_of, parse_file, parse_files, parse_raw_data,
}
use amigos.Indexer.Items.Offsets.{IsIndex, IsIndexed, IsIndex-mono, add_entries-IsIndex}

at_indexer-done {ℓ} :
    {Db : Type 0} {A : Type ℓ} (indexer : Indexer Db) (m : Run Problem A) {a : A}
    → at_indexer indexer m ≡ done a
    → m ≡ done a
at_indexer-done indexer (done a) h = cc
at_indexer-done indexer (throws p) h = cc
at_indexer-done indexer undefined h = cc

in_file-done :
    {Db : Type 0} {A : Type 0} (path : Bytes) (m : Run (Stop Db) A) {a : A}
    → in_file path m ≡ done a
    → m ≡ done a
unfolding in_file
in_file-done path (done a) h = cc
in_file-done path (throws (Stop.failed i p)) h = cc
in_file-done path (throws (Stop.aborted i)) h = cc
in_file-done path (throws Stop.out_of_fuel) h = cc
in_file-done path undefined h = cc

module _ (dom : Dom) (platform : Platform) (locale_init : Bool) (stopwords : List Bytes)
    (level : LevelDb) (sizes : Sizes) (dirs : Directories) (config : Config)
    (max_mem_size : ℕ) where
  open dom use {Element}
  open level use {Db}

  put_entries-IsIndex :
      (words_cnt : List ℕ) (seen : Seen) (indexer indexer' : Indexer Db)
      → put_entries dom platform locale_init stopwords level sizes dirs config max_mem_size
          words_cnt seen indexer
        ≡ some indexer'
      → IsIndexed indexer
      → (indexer'.doc_store ≡ indexer.doc_store)
        × IsIndex (length indexer.doc_store.doc_ids + 1) indexer'.inv_idx
  unfolding put_entries
  put_entries-IsIndex words_cnt seen indexer indexer' h index =
      let n = length indexer.doc_store.doc_ids in
      elim (Option-cases (
        add_entries words_cnt n (platform.iterate seen.tmp_dict) indexer.inv_idx
          indexer.posting_store)) [
            | inl e ↦ absurd (let h' = rw (e, put_entries) at h in cc)
            | inr ((inv_idx, store), e) ↦
                let made = some-injective _ _ (rw (e, put_entries) at h) in
                (
                  ap (λ i. i.doc_store) (sym made),
                  subst (λ i. IsIndex (n + 1) i.inv_idx) made
                      (add_entries-IsIndex words_cnt n (n + 1) (platform.iterate seen.tmp_dict)
                        indexer.inv_idx inv_idx indexer.posting_store store (omega arith) e
                        (IsIndex-mono n (n + 1) indexer.inv_idx (omega arith) index)),
                )
          ]

  extract_text_zones-IsIndex :
      (indexer indexer' : Indexer Db) (e : Element) (zeros words_cnt : List ℕ)
      (saved saved' : List (Bytes × Bytes))
      → extract_text_zones dom platform locale_init stopwords level sizes dirs config max_mem_size
          indexer e zeros saved
        ≡ done (indexer', words_cnt, saved')
      → IsIndexed indexer
      → (indexer'.doc_store ≡ indexer.doc_store)
        × IsIndex (length indexer.doc_store.doc_ids + 1) indexer'.inv_idx
  unfolding extract_text_zones
  extract_text_zones-IsIndex indexer indexer' e zeros words_cnt saved saved' h index =
      let ((texts, saved1), e1, h1) =
        bind-eq-done (at_indexer indexer (extract_zones dom e config.text_zones [] saved)) _ h in
      let ((cnts, seen), e2, h2) =
        bind-eq-done
          (at_assertion (
            add_zones platform locale_init stopwords texts zeros
              (record { pos = 0; stat = indexer.stat; tmp_dict = [] })))
          _ h1 in
      let put =
        put_entries dom platform locale_init stopwords level sizes dirs config max_mem_size cnts
          seen indexer in
      elim (Option-cases put) [
        | inl none_eq ↦ absurd (let h' = rw none_eq at h2 in cc)
        | inr (indexer'', some_eq) ↦
            subst
              (λ p.
                (p.0.doc_store ≡ indexer.doc_store)
                × IsIndex (length indexer.doc_store.doc_ids + 1) p.0.inv_idx)
              (done-injective (rw some_eq at h2))
              (put_entries-IsIndex cnts seen indexer indexer'' some_eq index)
      ]

  flushed-IsIndexed :
      (indexer indexer' : Indexer Db) (o : Option Bytes) (flushed : Option (Indexer Db))
      → elim o [ none ↦ none | some path ↦ some (flush_to sizes dirs config path indexer) ]
        ≡ flushed
      → elim flushed as (λ f. Run (Stop Db) (Indexer Db)) [
        | none ↦ throws Stop.out_of_fuel
        | some i ↦ done i
      ]
        ≡ done indexer'
      → IsIndexed indexer'
  unfolding flush_to
  flushed-IsIndexed indexer indexer' none flushed e h = absurd (let h' = rw (sym e) at h in cc)
  flushed-IsIndexed indexer indexer' (some path) flushed e h =
      subst IsIndexed (done-injective (rw (sym e) at h)) tt

  flush_if_full-IsIndexed :
      (items_cnt : ℕ) (indexer indexer' : Indexer Db)
      → flush_if_full dom platform locale_init stopwords level sizes dirs config max_mem_size
          items_cnt indexer
        ≡ done indexer'
      → IsIndexed indexer
      → IsIndexed indexer'
  unfolding flush_if_full flush
  flush_if_full-IsIndexed items_cnt indexer indexer' h index =
      elim (Bool-cases
        (items_cnt % 1000 == 999 && not (has_space sizes dirs config max_mem_size indexer))) [
          | inl full ↦
              let h' = rw (full, flush_if_full) at h in
              let (flushed, e1, h1) =
                bind-eq-done (at_indexer indexer (flush sizes dirs config indexer)) _ h' in
              let (o, e2, h2) =
                bind-eq-done (find_first_empty_file dirs config indexer.files) _
                  (at_indexer-done indexer (flush sizes dirs config indexer) e1) in
              flushed-IsIndexed indexer indexer' o flushed (done-injective h2) h1
          | inr space ↦ subst IsIndexed (done-injective (rw (space, flush_if_full) at h)) index
        ]

  store_doc-grows :
      (indexer indexer' : Indexer Db) (doc_id : ℕ) (num_zones words_cnt : List ℕ)
      → store_doc dom platform locale_init stopwords level sizes dirs config max_mem_size indexer
          doc_id num_zones words_cnt
        ≡ done indexer'
      → (indexer'.inv_idx ≡ indexer.inv_idx)
        × (length indexer'.doc_store.doc_ids ≡ length indexer.doc_store.doc_ids + 1)
  unfolding store_doc add_doc
  store_doc-grows indexer indexer' doc_id num_zones words_cnt h =
      elim (Bool-cases (
        not (length num_zones == length indexer.doc_store.n_zones)
        || not (length words_cnt == length indexer.doc_store.t_zones_w_cnt))) [
          | inl wrong ↦ absurd (let h' = rw (wrong, store_doc, add_doc) at h in cc)
          | inr fits ↦
              let stored = done-injective (rw (fits, store_doc, add_doc) at h) in
              (
                ap (λ i. i.inv_idx) (sym stored),
                rw (sym stored)
                    (omega (arith, length-append indexer.doc_store.doc_ids (doc_id ∷ []))),
              )
        ]

  keep_item-IsIndexed :
      (p p' : Parsing Db) (e : Element) (doc_id : ℕ)
      → keep_item dom platform locale_init stopwords level sizes dirs config max_mem_size p e doc_id
        ≡ done p'
      → IsIndexed p.indexer
      → IsIndexed p'.indexer
  unfolding keep_item
  keep_item-IsIndexed p p' e doc_id h index =
      let zeros = replicate (length config.text_zones) 0 in
      let ((indexer, cnts, saved), e1, h1) =
        bind-eq-done
          (extract_text_zones dom platform locale_init stopwords level sizes dirs config
            max_mem_size p.indexer e zeros p.saved)
          _ h in
      let ((fake, saved'), e2, h2) =
        bind-eq-done (at_indexer indexer (extract_zones dom e config.trash_zones p.fake saved)) _
          h1 in
      let (indexer', e3, h3) =
        bind-eq-done
          (store_doc dom platform locale_init stopwords level sizes dirs config max_mem_size indexer
            doc_id p.num_zones cnts)
          _ h2 in
      let (same, more) =
        extract_text_zones-IsIndex p.indexer indexer e zeros cnts p.saved saved e1 index in
      let (kept, grown) = store_doc-grows indexer indexer' doc_id p.num_zones cnts e3 in
      subst (λ q. IsIndexed q.indexer) (done-injective h3) (rw (kept, grown, same) more)

  read_item-IsIndexed :
      (p p' : Parsing Db) (e : Element)
      → read_item dom platform locale_init stopwords level sizes dirs config max_mem_size p e
        ≡ done p'
      → IsIndexed p.indexer
      → IsIndexed p'.indexer
  unfolding read_item keep_or_skip
  read_item-IsIndexed p p' e h index =
      elim (Bool-cases (not (text_eq (dom.name e) (bytes "item")))) [
        | inl wrong ↦ absurd (let h' = rw (wrong, read_item) at h in cc)
        | inr right ↦
            let (doc_id, e1, h1) =
              bind-eq-done (at_indexer p.indexer (necessary_text dom e config.doc_id_tag)) _
                (rw (right, read_item) at h) in
            let ((num_zones, saved), e2, h2) =
              bind-eq-done
                (at_indexer p.indexer (extract_num_zones dom config e p.num_zones p.saved)) _ h1 in
            let q : Parsing Db = record p { num_zones = num_zones; saved = saved } in
            elim (Option-cases (get_elem? num_zones 3)) [
              | inl none_eq ↦ absurd (let h' = rw (none_eq, keep_or_skip) at h2 in cc)
              | inr (zone, some_eq) ↦ elim (Bool-cases (zone == 1)) [
                | inl skip ↦
                    subst (λ q. IsIndexed q.indexer)
                      (done-injective (rw (some_eq, skip, keep_or_skip) at h2)) index
                | inr keep ↦
                    keep_item-IsIndexed q p' e (stou doc_id)
                      (rw (some_eq, keep, keep_or_skip) at h2) index
              ]
            ]
      ]

  parse_item-IsIndexed :
      (p p' : Parsing Db) (e : Element)
      → parse_item dom platform locale_init stopwords level sizes dirs config max_mem_size p e
        ≡ done p'
      → IsIndexed p.indexer
      → IsIndexed p'.indexer
  unfolding parse_item
  parse_item-IsIndexed p p' e h index =
      let (indexer, e1, h1) =
        bind-eq-done
          (flush_if_full dom platform locale_init stopwords level sizes dirs config max_mem_size
            p.items_cnt p.indexer)
          _ h in
      read_item-IsIndexed (record p { indexer = indexer; items_cnt = (p.items_cnt + 1) % 2 ^ 32 })
        p' e h1 (flush_if_full-IsIndexed p.items_cnt p.indexer indexer e1 index)

  parse_items-IsIndexed :
      (es : List Element) (p p' : Parsing Db)
      → parse_items dom platform locale_init stopwords level sizes dirs config max_mem_size p es
        ≡ done p'
      → IsIndexed p.indexer
      → IsIndexed p'.indexer
  unfolding parse_items
  parse_items-IsIndexed [] p p' h index = subst (λ q. IsIndexed q.indexer) (done-injective h) index
  parse_items-IsIndexed (e ∷ es) p p' h index =
      let (q, e1, h1) =
        bind-eq-done
          (parse_item dom platform locale_init stopwords level sizes dirs config max_mem_size p e) _
          h in
      parse_items-IsIndexed es q p' h1 (parse_item-IsIndexed p q e e1 index)

  parse_file-IsIndexed :
      (file : RawFile Element) (path : Bytes) (p p' : Parsing Db)
      → parse_file dom platform locale_init stopwords level sizes dirs config max_mem_size p path
          file
        ≡ done p'
      → IsIndexed p.indexer
      → IsIndexed p'.indexer
  unfolding parse_file
  parse_file-IsIndexed irregular path p p' h index = absurd (cc)
  parse_file-IsIndexed unloadable path p p' h index = absurd (cc)
  parse_file-IsIndexed (loaded top) path p p' h index =
      let (items, e1, h1) =
        bind-eq-done
          (at_indexer p.indexer
            (items_of dom platform locale_init stopwords level sizes dirs config max_mem_size top))
          _ (in_file-done path _ h) in
      parse_items-IsIndexed (dom.children items) p p' h1 index

  parse_files-IsIndexed :
      (files : List (Bytes × RawFile Element)) (p p' : Parsing Db)
      → parse_files dom platform locale_init stopwords level sizes dirs config max_mem_size p files
        ≡ done p'
      → IsIndexed p.indexer
      → IsIndexed p'.indexer
  unfolding parse_files
  parse_files-IsIndexed [] p p' h index = subst (λ q. IsIndexed q.indexer) (done-injective h) index
  parse_files-IsIndexed ((path, file) ∷ files) p p' h index =
      let (q, e1, h1) =
        bind-eq-done
          (parse_file dom platform locale_init stopwords level sizes dirs config max_mem_size p path
            file)
          _ h in
      parse_files-IsIndexed files q p' h1 (parse_file-IsIndexed file path p q e1 index)

-- Where `_parseRawData` returns from files and documents of any kind, the flushes in between
-- included, the tokens of the index in memory ascend, as `_mergeIndexes` needs of a file, and every
-- entry belongs to a document of the document storage, if both held in front.
pub parse_raw_data-IsIndexed :
    (dom : Dom) (platform : Platform) (locale_init : Bool) (stopwords : List Bytes)
    (level : LevelDb) (sizes : Sizes) (dirs : Directories) (config : Config) (max_mem_size : ℕ)
    (indexer indexer' : Indexer level.Db) (files : List (Bytes × RawFile dom.Element))
    → parse_raw_data dom platform locale_init stopwords level sizes dirs config max_mem_size indexer
        files
      ≡ done indexer'
    → IsIndexed indexer
    → IsIndexed indexer'
unfolding parse_raw_data
parse_raw_data-IsIndexed dom platform locale_init stopwords level sizes dirs config max_mem_size
      indexer indexer' files h index =
    let start : Parsing level.Db = record {
      indexer = indexer;
      items_cnt = 0;
      num_zones = replicate (length config.num_zones) 0;
      saved = [];
      fake = [];
    } in
    elim (Bool-cases (not (dirs.exists config.raw_data_path))) [
      | inl missing ↦ absurd (let h' = rw (missing, parse_raw_data) at h in cc)
      | inr exists ↦ elim (Bool-cases (not (dirs.is_directory config.raw_data_path))) [
        | inl file ↦ absurd (let h' = rw (exists, file, parse_raw_data) at h in cc)
        | inr dir ↦
            let (p, e1, h1) =
              bind-eq-done
                (parse_files dom platform locale_init stopwords level sizes dirs config max_mem_size
                  start files)
                _ (rw (exists, dir, parse_raw_data) at h) in
            subst IsIndexed (done-injective h1) (
              parse_files-IsIndexed dom platform locale_init stopwords level sizes dirs config
                max_mem_size files start p e1 index)
      ]
    ]
