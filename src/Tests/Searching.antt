-- ===== src/Tests/Searching.antt =====
-- Searches in an index of two words and two documents.
use mathlib.Core.Option.{some-injective}
use mathlib.Core.Path.{subst}
use amigos.Base.{
  ℕ, ◌≡◌, ◌≢◌, refl, ap, arith, true, zero, suc, false, List, [], ◌∷◌, ◌++◌, Option, none, some,
  All, Bytes, bytes,
}
use amigos.Entry.{Entry}
use amigos.DocDb.{LevelDb}
use amigos.IndexIo.{IStream, on_stream, write_to, write_entries, read_entries, seekg}
use amigos.InvIndex.{InvIdxItem, flush_to_disk, get_entries}
use amigos.Intersect.Order.{Ascending}
use amigos.Config.{Zone, empty_config}
use amigos.Config.RoundTrip.{tree_dom}
use amigos.Searcher.Index.{Engine, InvertIndex}
use amigos.Searcher.Search.{search}
use amigos.Searcher.Search.Finds.{IsStored}
use amigos.Searcher.Search.Words.{Reads, HasToken, search-HasToken}
use amigos.Run.{done}
use amigos.Launcher.Session.{Launcher, launch_searcher, answer_query}
use amigos.Launcher.Session.Ten.{answer_query-few}
use amigos.Tests.Snippets.{latin, times}
use amigos.Tests.Drafts.{insert, sort, length-sort, All-sort, doubles, bands, store}

abbrev level : LevelDb
level = record { Db = Bytes → Option Bytes; get = λ db k. db k; put = λ db k v j. db j }

-- The first byte in place of the hash.
abbrev engine : Engine
engine = record {
  dom = tree_dom;
  level = level;
  doubles = doubles;
  bands = bands;
  load_xml = λ path. none;
  open_db = λ path. none;
  open_file = λ path. none;
  murmur_hash2 = λ word. elim word [ [] ↦ 0 | c ∷ cs ↦ c ];
  log_ratio = λ all count. 100;
}

abbrev entry : ℕ → ℕ → Entry
entry doc offset = record {
  doc_id_offset = doc;
  posting_info = record { in_zone = 1; posting_offset = offset; posting_sizes = 1 ∷ [] };
}

abbrev pairs : List (ℕ × List Entry)
pairs = (b'a', entry 0 0 ∷ entry 1 0 ∷ []) ∷ (b'b', entry 1 1 ∷ []) ∷ []

abbrev zone : Zone
zone = record { name = []; path = []; is_optional = false; need_save = false; id = 0 }

abbrev items : List (InvIdxItem ℕ)
items =
    record { tok_id = b'a'; offset = 4; idf = 100 }
    ∷ record { tok_id = b'b'; offset = 44; idf = 100 }
    ∷ []

abbrev index : InvertIndex ℕ (Bytes → Option Bytes)
index = record {
  config = record empty_config { text_zones = zone ∷ zone ∷ zone ∷ [] };
  inv_idx = items;
  inv_idx_stream = record { file = flush_to_disk pairs; rest = [] };
  src = 3 ∷ 0 ∷ 4 ∷ 0 ∷ [];
  doc_store = store 7;
  doc_db = λ k. none;
}

search_test :
    search engine index (bytes "a" ∷ bytes "b" ∷ []) []
    ≡ some (
      9 ∷ [],
      record index {
        inv_idx_stream = record { file = flush_to_disk pairs; rest = 2 ∷ 0 ∷ 0 ∷ 0 ∷ [] };
      },
    )
unfolding search seekg flush_to_disk write_to write_entries on_stream read_entries sort insert
search_test = refl

-- What the file holds for an index in the list of items.
entries_at :
    (tkn : ℕ) (rest : List ℕ) (behind : IStream) (es : List Entry)
    → get_entries items (record { file = flush_to_disk pairs; rest = rest }) tkn []
      ≡ some (es, behind)
    → Ascending es
unfolding get_entries seekg flush_to_disk write_to write_entries on_stream read_entries
entries_at zero rest behind es h =
    rw (← ap (λ (p : List Entry × IStream). p.0) (some-injective _ _ h))
      ((omega arith, tt), (tt, tt))
entries_at (suc zero) rest behind es h =
    rw (← ap (λ (p : List Entry × IStream). p.0) (some-injective _ _ h)) (tt, tt)
entries_at (suc (suc tkn)) rest behind es h = cc

sorted : (token : Bytes) (es : List Entry) → Reads engine index token es → Ascending es
sorted token es r =
    let h =
      subst
        (λ f.
          get_entries items (record { file = f; rest = r.ifs.rest }) r.tkn_idx []
          ≡ some (es, r.behind))
        r.same_file r.read in
    entries_at r.tkn_idx r.ifs.rest r.behind es h

search-HasToken_example :
    (docs : List ℕ) × (◌≡◌ {A = List ℕ} (9 ∷ []) ([] ++ docs))
    × All
        (IsStored index.doc_store
          (λ ofs. All (HasToken engine index ofs) (bytes "a" ∷ bytes "b" ∷ [])))
        docs
search-HasToken_example =
    search-HasToken engine index
      (record index {
        inv_idx_stream = record { file = flush_to_disk pairs; rest = 2 ∷ 0 ∷ 0 ∷ 0 ∷ [] };
      })
      (bytes "a" ∷ bytes "b" ∷ []) [] (9 ∷ [])
      (λ A cmp xs. (length-sort A cmp xs, λ P h. All-sort P cmp xs h))
      (λ A cmp xs. (length-sort A cmp xs, λ P h. All-sort P cmp xs h)) sorted search_test

abbrev launcher : Launcher ℕ (Bytes → Option Bytes)
launcher = record { searcher = index; stopwords = []; locale_init = true }

abbrev moved : Launcher ℕ (Bytes → Option Bytes)
moved = record launcher {
  searcher = record index {
    inv_idx_stream = record { file = flush_to_disk pairs; rest = 2 ∷ 0 ∷ 0 ∷ 0 ∷ [] };
  };
}

launch_searcher_test :
    launch_searcher engine latin times launcher (bytes "b") [] ≡ done (9 ∷ [], moved)
unfolding launch_searcher seekg flush_to_disk write_to write_entries on_stream read_entries sort
    insert
launch_searcher_test = refl

answer_query-few_example :
    answer_query engine latin times launcher (bytes "b") ≢ done ([], launcher)
answer_query-few_example =
    answer_query-few engine latin times launcher moved (bytes "b") (9 ∷ []) launch_searcher_test
      (omega arith) ([], launcher)
