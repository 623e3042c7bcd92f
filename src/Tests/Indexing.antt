-- ===== src/Tests/Indexing.antt =====
-- The indexer on one document, and the words of a query.
use amigos.Base.{
  ℕ, ◌+◌, ◌*◌, ◌%◌, ◌^◌, ◌≤◌, ◌<◌, ◌≡◌, refl, List, [], ◌∷◌, ◌++◌, some, none, arith, true, false,
  length, Bytes, bytes, Bool, All, text_eq, if◌then◌else◌, ◌==◌, ◌&&◌, leb, map, resize, suc, take,
  get_elem?,
}
use amigos.Run.{Run, done}
use amigos.InvIndex.{write_index}
use amigos.Merge.Queues.{count_items}
use amigos.Merge.Files.{IsIndex}
use amigos.Merge.Single.{sorted_items}
use amigos.Indexer.Cook.{cook, file_bytes}
use amigos.Indexer.Cook.FirstRun.{cook-first}
use amigos.Launcher.{query_tokens}
use amigos.Launcher.Tokens.{word_before, concat_all, IsGroup, query_tokens-groups}
use amigos.Common.{terminate2vec}
use amigos.Config.{Zone, Config, empty_config}
use amigos.Config.RoundTrip.{Tree, node, end, tree, tree_dom}
use amigos.DocDb.{LevelDb, put_doc, to_string}
use amigos.Entry.{Entry, FitsEntry}
use amigos.DocStore.{fresh}
use amigos.Posting.{DynPostingStore, Posting, get_full_posting, words_of_all}
use amigos.Posting.Split.{sum}
use amigos.Posting.Stored.{IsAligned}
use amigos.IndexIo.{write_array}
use amigos.Indexer.Zones.{stou}
use amigos.Indexer.Zones.Numbers.{stou-to_string}
use amigos.Indexer.Words.{Platform, Seen, make_entry, has_bad_symbols, add_zones, zone_words}
use amigos.Indexer.Words.Places.{zeros, places, is_token, posting_of}
use amigos.Indexer.Words.Entries.{make_entry-add_zones}
use amigos.Indexer.Flush.{Indexer, Sizes, Directories, first_free, has_file, index_path, empty_stat}
use amigos.Indexer.Flush.Suffix.{first_free_lem}
use amigos.Indexer.Items.{Stop, RawFile, loaded, parse_raw_data}
use amigos.Indexer.Items.Offsets.{IsIndexed}
use amigos.Indexer.Items.Indexed.{parse_raw_data-IsIndexed}

-- The words between single spaces.
abbrev split_words : Bytes → List Bytes
split_words [] = [] ∷ []
split_words (c ∷ text) = elim (split_words text) [
  | [] ↦ []
  | w ∷ ws ↦ if c == b' ' then [] ∷ w ∷ ws else (c ∷ w) ∷ ws
]

abbrev hash : Bytes → ℕ
hash [] = 7
hash (c ∷ word) = c

abbrev platform : Platform
platform = record {
  lib = record {
    mbs = λ str. some str;
    wcs = λ str. some str;
    spare = true;
    lower = λ c. c;
    tokens = split_words;
    stem = λ word. word;
  };
  isalnum = λ c. leb b'a' c && leb c b'z';
  murmur_hash2 = hash;
  iterate = λ dict. dict;
}

abbrev texts : List Bytes
texts = bytes "ab c ab" ∷ bytes "c a?" ∷ []

abbrev words : List (List Bytes)
words = (bytes "ab" ∷ bytes "c" ∷ bytes "ab" ∷ []) ∷ (bytes "c" ∷ bytes "a?" ∷ []) ∷ []

abbrev empty_store : DynPostingStore
empty_store = record { ofs = []; common_size = 0 }

zone_words_test : zone_words platform true [] (bytes "c a?") ≡ done (bytes "c" ∷ bytes "a?" ∷ [])
unfolding zone_words
zone_words_test = refl

stou_test : stou (bytes "  12x") ≡ 12
unfolding stou
stou_test = refl

stou_negative_test : stou (bytes "-5") ≡ 4294967291
unfolding stou
stou_negative_test = refl

-- A word with a bad symbol takes a place of the second zone.
make_entry-add_zones_example :
    (seen : Seen) × (add_zones platform true [] texts
        (zeros words)
        (record { pos = 0; stat = empty_stat; tmp_dict = [] })
      ≡ done (map length words, seen))
    × ((tok : ℕ)
        → (entry : Entry) × (st' : DynPostingStore) × (res : List Posting) × (make_entry
              (map length words)
              empty_store
              4
              (posting_of tok seen.tmp_dict)
            ≡ some (entry, st'))
          × (entry.doc_id_offset ≡ 4 % 2 ^ 32)
          × (get_full_posting (length words) entry [] ≡ some res)
          × (words_of_all (st'.ofs ++ (9 ∷ [])) res
              ≡ some (map (places (is_token platform tok) 0) words))
          × IsAligned st')
unfolding zone_words sum
make_entry-add_zones_example =
    make_entry-add_zones platform true [] texts words empty_stat empty_store 4 (9 ∷ [])
      (refl, (refl, tt)) (omega arith) (omega arith) refl (omega arith)

places_test : map (places (is_token platform b'a') 0) words ≡ (0 ∷ 2 ∷ []) ∷ [] ∷ []
unfolding has_bad_symbols
places_test = refl

stou-to_string_example : stou (to_string 4000000000) ≡ 4000000000
stou-to_string_example = stou-to_string 4000000000 (omega arith)

-- Four numeric zones, the fourth of which the indexer looks at, and two zones of texts.
abbrev zone : Bytes → Zone
zone name = record { name = name; path = name ∷ []; is_optional = true; need_save = true; id = 0 }

abbrev config : Config
config = record empty_config {
  doc_id_tag = bytes "id";
  raw_data_path = bytes "raw/";
  index_data_path = bytes "idx/";
  invert_index_file = bytes "inv";
  num_zones = zone (bytes "a") ∷ zone (bytes "b") ∷ zone (bytes "c") ∷ zone (bytes "d") ∷ [];
  text_zones = zone (bytes "title") ∷ zone (bytes "sub") ∷ [];
}

abbrev files : List (Bytes × Bytes)
files = (index_path config 0, []) ∷ (bytes "other", []) ∷ []

first_free_example :
    (n : ℕ) × (first_free (length files + 1) config files 0 ≡ some (index_path config n))
    × (n ≤ length files)
    × (has_file files (index_path config n) ≡ false)
    × ((i : ℕ) → i < n → has_file files (index_path config i) ≡ true)
first_free_example = first_free_lem config files (omega arith)

first_free_test : first_free (length files + 1) config files 0 ≡ some (bytes "idx/inv.1")
unfolding first_free text_eq to_string
first_free_test = refl

abbrev level : LevelDb
level = record { Db = List (Bytes × Bytes); get = λ db k. none; put = λ db k v. (k, v) ∷ db }

abbrev sizes : Sizes
sizes = record {
  map_size = 48;
  node_size = 60;
  entry_size = 48;
  double_size = 8;
  u_map_size = λ dict. 40 * length dict;
  show_count = to_string;
}

abbrev dirs : Directories
dirs = record { exists = λ path. true; is_directory = λ path. true }

abbrev indexer : Indexer level.Db
indexer = record {
  inv_idx = [];
  stat = empty_stat;
  entries_cnt = 0;
  doc_store = fresh 4 2;
  posting_store = empty_store;
  doc_db = [];
  files = files;
  words_frequency = [];
}

abbrev leaf : Bytes → Bytes → Tree
leaf name text = node name (some text) end

-- The second item is left out.
abbrev raw_files : List (Bytes × RawFile Tree)
raw_files =
    (
      bytes "raw/x",
      loaded (
          node (bytes "items") none (
            tree
              (node (bytes "item") none (
                tree (leaf (bytes "id") (bytes "17")) (
                  tree (leaf (bytes "title") (bytes "ab c ab"))
                    (tree (leaf (bytes "sub") (bytes "c a?")) end))))
              (tree
                (node (bytes "item") none
                  (tree (leaf (bytes "id") (bytes "18")) (tree (leaf (bytes "d") (bytes "1")) end)))
                end))
          ∷ []),
    )
    ∷ []

abbrev run : Run (Stop level.Db) (Indexer level.Db)
run = parse_raw_data tree_dom platform true [] level sizes dirs config 1000000 indexer raw_files

abbrev entry : ℕ → ℕ → ℕ → List ℕ → Entry
entry doc in_zone offset sizes = record {
  doc_id_offset = doc;
  posting_info = record { in_zone = in_zone; posting_offset = offset; posting_sizes = sizes };
}

abbrev indexed : Indexer level.Db
indexed = record {
  inv_idx = (b'a', entry 0 1 0 (2 ∷ []) ∷ []) ∷ (b'c', entry 0 3 2 (1 ∷ 1 ∷ []) ∷ []) ∷ [];
  stat = record { stat_dict = (bytes "ab", 2) ∷ (bytes "c", 2) ∷ []; chars_cnt = 3 };
  entries_cnt = 2;
  doc_store = record {
    doc_ids = 17 ∷ [];
    n_zones = (0 ∷ []) ∷ (0 ∷ []) ∷ (0 ∷ []) ∷ (0 ∷ []) ∷ [];
    t_zones_w_cnt = (3 ∷ []) ∷ (2 ∷ []) ∷ [];
  };
  posting_store = record { ofs = 0 ∷ 0 ∷ 2 ∷ 0 ∷ 1 ∷ 0 ∷ 0 ∷ 0 ∷ []; common_size = 4 };
  doc_db =
      put_doc level [] 17
        (record { title = bytes "ab c ab"; video_id = []; subtitles = []; time = [] });
  files = files;
  words_frequency = [];
}

run_test : run ≡ done indexed
unfolding parse_raw_data text_eq resize fresh write_array
run_test = refl

parse_raw_data-IsIndexed_example : IsIndexed indexed
parse_raw_data-IsIndexed_example =
    parse_raw_data-IsIndexed tree_dom platform true [] level sizes dirs config 1000000 indexer
      indexed raw_files run_test tt

query_tokens_test :
    query_tokens platform.lib true (bytes "c" ∷ []) (bytes "ab c ab")
    ≡ done (bytes "ab" ∷ bytes "_abc" ∷ bytes "cab_" ∷ bytes "ab" ∷ [])
unfolding query_tokens text_eq
query_tokens_test = refl

abbrev tokens : List Bytes
tokens = bytes "ab" ∷ bytes "_abc" ∷ bytes "cab_" ∷ bytes "ab" ∷ []

query_tokens-groups_example :
    (words : List Bytes) × (groups : List (List Bytes)) × (terminate2vec platform.lib true
        (bytes "ab c ab")
        []
        true
      ≡ done words)
    × (tokens ≡ concat_all groups)
    × (length groups ≡ length (take 10 words))
    × (length tokens ≤ 20)
    × ((i : ℕ) (word : Bytes)
        → get_elem? (take 10 words) i ≡ some word
        → (group : List Bytes) × (get_elem? groups i ≡ some group)
          × IsGroup platform.lib
              (bytes "c" ∷ [])
              (word_before none (take 10 words) i)
              word
              (get_elem? (take 10 words) (suc i))
              group)
query_tokens-groups_example =
    query_tokens-groups platform.lib true (bytes "c" ∷ []) (bytes "ab c ab") tokens
      query_tokens_test

-- The same run on a disk without index files.
abbrev no_files : Indexer level.Db
no_files = record indexer { files = [] }

first_run_test :
    parse_raw_data tree_dom platform true [] level sizes dirs config 1000000 no_files raw_files
    ≡ done (record indexed { files = []; inv_idx = indexed.inv_idx })
unfolding parse_raw_data text_eq resize fresh write_array
first_run_test = refl

fits_entry :
    (in_zone offset : ℕ) (sizes : List ℕ)
    → in_zone < 256
    → offset < 256 ^ 4
    → All (λ n. n < 256 ^ 2) sizes
    → length sizes < 256
    → FitsEntry (entry 0 in_zone offset sizes)
fits_entry in_zone offset sizes zone low counts few = record {
  offset_u32 = omega arith;
  info = record {
    in_zone_byte = zone;
    offset_u64 = omega (arith, low);
    sizes_u16 = counts;
    count_byte = few;
  };
}

indexed-IsIndex : IsIndex indexed.inv_idx
indexed-IsIndex = (
  (
    (
      omega arith,
      omega arith,
      (fits_entry 1 0 (2 ∷ []) (omega arith) (omega arith) (omega arith, tt) (omega arith), tt),
    ),
    (
      (
        omega arith,
        omega arith,
        (
          fits_entry 3 2 (1 ∷ 1 ∷ []) (omega arith) (omega arith) (omega arith, (omega arith, tt))
              (omega arith),
          tt,
        ),
      ),
      tt,
    ),
  ),
  (omega arith, tt),
  omega arith,
)

indexed_few : count_items indexed.inv_idx < 2 ^ 32
unfolding count_items
indexed_few = omega arith

-- The entries stay in their order.
abbrev keep_order : (Entry → Entry → Bool) → List Entry → List Entry
keep_order cmp es = es

cook-first_example :
    (after : Indexer level.Db) × (cook tree_dom platform true [] level sizes dirs config 1000000
        true keep_order no_files raw_files
      ≡ done after)
    × (after.inv_idx ≡ [])
    × (file_bytes after.files (config.index_data_path ++ config.invert_index_file)
        ≡ (write_index (sorted_items keep_order indexed.inv_idx)).0)
cook-first_example =
    cook-first tree_dom platform true [] level sizes dirs config 1000000 keep_order no_files indexed
      raw_files b'a' (entry 0 1 0 (2 ∷ []) ∷ []) ((b'c', entry 0 3 2 (1 ∷ 1 ∷ []) ∷ []) ∷ []) refl
      refl first_run_test indexed-IsIndex indexed_few
