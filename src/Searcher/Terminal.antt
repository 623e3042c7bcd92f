-- ===== src/Searcher/Terminal.antt =====
-- projects/indexer/src/test_index.cpp: a terminal that shows the documents of a word, with the
-- positions at which it stands in their zones.
use amigos.Base.{ℕ, ◌-◌, ◌^◌, true, false, List, [], ◌∷◌, Option, none, some, ◌==◌, Bytes}
use amigos.Run.{Run, done, throws, undefined, ◌>>=◌}
use amigos.Config.{Zone}
use amigos.DocDb.{RawDoc, Got, missing, got, too_short}
use amigos.Entry.{Entry}
use amigos.InvIndex.{get_entries, find_tkn_idx}
use amigos.Posting.{words_of_all}
use amigos.Searcher.Index.{Engine, InvertIndex, Failure}
use amigos.Searcher.Index as Index
use amigos.Searcher.Search.{index_doc_id, index_full_posting, get_raw_doc}
use amigos.Searcher.Snippets.{Stopped, left_out, in_range, no_doc}

-- What is shown of a document: its number, `doc`, and the zones by their names, without the layout.
pub record Shown : Type 0 where
  pub doc_id : ℕ
  pub video_id : Bytes
  pub title : Bytes
  pub zones : List (Bytes × List ℕ)

-- What `main` prints: how it is used, where it returns 1, or the exception that it catches, or an
-- answer for each word, where it returns 0.
pub data Printed : Type 0 where
  usage : Printed
  caught : Failure → Printed
  answers : List (Option (List Shown)) → Printed

-- `doc` behind `getRawDoc`, which leaves it where the key is missing.
unfoldable pub refilled : RawDoc → Got → Run Stopped RawDoc
refilled doc missing = done doc
refilled doc (got other) = done other
refilled doc too_short = throws left_out

-- The loop over the postings, with the names of the text zones.
unfoldable pub zone_lines : List Zone → List (List ℕ) → Option (List (Bytes × List ℕ))
zone_lines zones [] = some []
zone_lines [] (words ∷ postings) = none
zone_lines (zone ∷ zones) (words ∷ postings) = elim (zone_lines zones postings) [
  | none ↦ none
  | some lines ↦ some ((zone.name, words) ∷ lines)
]

module _ (engine : Engine) where
  open engine use {level, doubles, murmur_hash2}
  open doubles use {D}
  open level use {Db}

  -- The loop over the entries; `doc` is kept between its rounds.
  unfoldable pub show_entries :
      InvertIndex D Db → RawDoc → List Entry → Run Stopped (List Shown × RawDoc)
  unfolding index_doc_id get_raw_doc refilled index_full_posting words_of_all zone_lines
  show_entries index doc [] = done ([], doc)
  show_entries index doc (entry ∷ entries) = do
    doc_id ← in_range (index_doc_id engine index entry)
    doc ← refilled doc (get_raw_doc engine index doc_id)
    postings ← in_range (index_full_posting engine index entry [])
    words ← in_range (words_of_all index.src postings)
    lines ← in_range (zone_lines index.config.text_zones words)
    (more, last) ← show_entries index doc entries
    done (
      record { doc_id = doc_id; video_id = doc.video_id; title = doc.title; zones = lines } ∷ more,
      last,
    )

  -- A round for one word: the documents, or `none` for NOTHING.
  unfoldable pub show_word :
      InvertIndex D Db
      → RawDoc
      → Bytes
      → Run Stopped (Option (List Shown) × InvertIndex D Db × RawDoc)
  unfolding find_tkn_idx get_entries show_entries
  show_word index doc word = do
    tok_id ← in_range (find_tkn_idx index.inv_idx (murmur_hash2 word))
    elim (tok_id == 2 ^ 32 - 1) [
      | true ↦ done (none, index, doc)
      | false ↦ do
        (entries, ifs) ← in_range (get_entries index.inv_idx index.inv_idx_stream tok_id [])
        let moved = record index { inv_idx_stream = ifs }
        (shown, doc) ← show_entries moved doc entries
        done (some shown, moved, doc)
    ]

  unfoldable pub show_words :
      InvertIndex D Db → RawDoc → List Bytes → Run Stopped (List (Option (List Shown)))
  unfolding show_word
  show_words index doc [] = done []
  show_words index doc (word ∷ words) = do
    (shown, index, doc) ← show_word index doc word
    more ← show_words index doc words
    done (shown ∷ more)

  -- The loop of `main` on an index that was opened, or the handler.
  unfoldable pub show_index : Run Failure (InvertIndex D Db) → List Bytes → Run Stopped Printed
  unfolding show_words
  show_index (done index) words = do shown ← show_words index no_doc words; done (answers shown)
  show_index (throws e) words = done (caught e)
  show_index undefined words = undefined

  -- `main`, with its arguments and the words of the input.
  unfoldable pub main : List Bytes → List Bytes → Run Stopped Printed
  unfolding show_index Index.configure
  main (config_path ∷ []) words = show_index (Index.configure engine config_path) words
  main arguments words = done usage
