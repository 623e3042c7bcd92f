-- ===== src/Tests/Requests.antt =====
-- Requests and answers of the listener, the words of a query, and the configuration.
use amigos.Base.{
  ℕ, ◌+◌, ◌*◌, ◌≤◌, ◌≡◌, ◌≢◌, refl, List, [], ◌∷◌, ◌++◌, some, none, arith, true, false, length,
  take, drop, Bytes, bytes, text_eq, if◌then◌else◌, ◌==◌, All, ltb, lt→ltb, ◌/◌, ◌%◌,
}
use amigos.Run.{Run, done, throws, undefined, ◌>>=◌}
use amigos.Searcher.Snippets.{Stopped, less_times}
use amigos.Listener.{format, replace_substring}
use amigos.Listener.Query.{parse_query, first_quote, last_quote, begins_with_t, skip_spaces}
use amigos.Listener.Query.RoundTrip.{request, parse_query-request}
use amigos.Listener.Answer.{make_xml, xml_head, less_int, int_to_size, in_launcher, at_launcher}
use amigos.Listener.Answer.Page.{concat_map, document_text, page_texts, make_xml-page}
use amigos.Searcher.{Document, Snippet}
use amigos.DocDb.{to_string}
use amigos.Listener.Server.{Service, search}
use amigos.Listener.Server.Replies.{nonzero, search-request}
use amigos.Common.{
  Library, terminate2vec, c_str, make_l_bigram, make_r_bigram, str2wstr, is_stopword, bigram2vec,
}
use amigos.Common.Arrays.{IsAscii, terminate2vec-overruns}
use amigos.Common.Bigrams.{IsStateless, IsWord, encode_all, bigram2vec-fits}
use amigos.Common.Texts.{configure_stopwords, is_space}
use amigos.Common.Texts.Stopwords.{spaced, configure_stopwords-spaced}
use amigos.Config.{Zone, Config, load_config}
use amigos.Config.RoundTrip.{tree_dom, config_trees, load_config-config_trees}

nonempty : (c : ℕ) (text : Bytes) → (c ∷ text) ≢ []
nonempty c text = λ e. absurd (ground arith)

parse_query-request_example :
    parse_query (request (bytes "say \"hi\"") 10 25 (b't' ∷ 0 ∷ []))
    ≡ done (record {
      to_search = bytes "say \"hi\"";
      start_doc = 10;
      end_doc = 25;
      find_only_in_subs = begins_with_t (skip_spaces (b' ' ∷ b't' ∷ 0 ∷ []));
    })
parse_query-request_example =
    parse_query-request (bytes "say \"hi\"") 10 25 (b't' ∷ 0 ∷ []) (omega arith) (omega arith)
      (omega arith)

-- Without a space behind the second number it reads behind the text.
parse_query_test : parse_query (bytes "\"a\" 1 2") ≡ undefined
unfolding parse_query first_quote last_quote
parse_query_test = refl

abbrev documents : ℕ → Run Stopped Document
documents n = done (record { video_id = n ∷ []; title = bytes "<b>"; doc_id = n })

-- The times of document 67 are missing.
abbrev snippets : Bytes → ℕ → List (Snippet ℕ) → ℕ → Run Stopped (List (Snippet ℕ))
snippets query doc_id found n =
    if doc_id == 67
    then throws less_times
    else done (record { subtitle = (bytes "a & b", 7); selections = (0, 2) ∷ (4, 1) ∷ [] } ∷ found)

abbrev shown : List ℕ
shown = 65 ∷ 66 ∷ 67 ∷ []

abbrev seconds : ℕ → Bytes
seconds n = b'0' ∷ []

make_xml-page_example : make_xml documents snippets seconds shown (bytes "q") 1 1 ≡ (do
  texts ← at_launcher (page_texts documents snippets seconds (bytes "q") (take 1 (drop 1 shown)))
  done (xml_head (length shown) ++ (texts ++ bytes "</results>")))
make_xml-page_example = make_xml-page documents snippets seconds shown (bytes "q") 1 1 (omega arith)

-- The page with the first two documents, and one with the last, too.
page_texts_test :
    page_texts documents snippets seconds (bytes "q") (take 2 shown)
    ≡ done (
        concat_map
          (λ n.
            document_text documents snippets seconds
              (record { video_id = n ∷ []; title = bytes "<b>"; doc_id = n })
              (record { subtitle = (bytes "a & b", 7); selections = (0, 2) ∷ (4, 1) ∷ [] } ∷ []))
          (65 ∷ 66 ∷ []))
unfolding page_texts concat_map
page_texts_test = refl

make_xml_fails_test :
    make_xml documents snippets seconds shown (bytes "q") 1 5 ≡ throws (in_launcher less_times)
unfolding make_xml less_int int_to_size format replace_substring
make_xml_fails_test = refl

-- An encoding of one byte for each character.
abbrev latin : Library
latin = record {
  mbs = λ str. some str;
  wcs = λ ws. some ws;
  spare = true;
  lower = λ c. c;
  tokens = λ str. str ∷ [];
  stem = λ str. str;
}

latin-ascii : (text : Bytes) → All IsAscii text → latin.mbs text ≡ some text
latin-ascii text h = refl

-- The same, where nothing behind an array can be written.
abbrev tight : Library
tight = record latin { spare = false; tokens = λ str. bytes "x" ∷ str ∷ bytes "z" ∷ [] }

terminate2vec-overruns_example : terminate2vec tight true (bytes "ab") [] true ≡ undefined
terminate2vec-overruns_example =
    terminate2vec-overruns tight (bytes "ab") [] (bytes "x" ∷ []) (bytes "ab") (bytes "z" ∷ []) true
      refl latin-ascii refl (omega arith)

abbrev words : List Bytes
words = bytes "to" ∷ bytes "be" ∷ bytes "a" ∷ []

-- An encoding of one byte for each character below 128, and of two for any other.
abbrev decode : Bytes → List ℕ
decode [] = []
decode (c ∷ []) = c ∷ []
decode (c ∷ d ∷ str) =
    let rest = decode str in
    let more = decode (d ∷ str) in if ltb c 128 then c ∷ more else (256 * c + d) ∷ rest

abbrev encode : ℕ → Bytes
encode c = if ltb c 128 then c ∷ [] else (c / 256) ∷ (c % 256) ∷ []

abbrev two_bytes : Library
two_bytes = record tight { mbs = λ str. some (decode str); wcs = λ ws. some (encode_all encode ws) }

two_bytes-IsStateless : IsStateless two_bytes
two_bytes-IsStateless = record {
  encode = encode;
  wcs_encode = λ ws h. refl;
  encode_ascii = λ c positive small. rw (lt→ltb c 128 small) refl;
}

-- The letters of two words in the code of UTF-8, and an ASCII letter.
abbrev wide_words : List Bytes
wide_words = (208 ∷ 184 ∷ []) ∷ (208 ∷ 189 ∷ b'a' ∷ 209 ∷ 130 ∷ []) ∷ []

wide_words-IsWord : All (IsWord two_bytes two_bytes-IsStateless) wide_words
unfolding c_str encode_all two_bytes-IsStateless
wide_words-IsWord = (
  record {
    chars = decode (208 ∷ 184 ∷ []);
    decoded = refl;
    nonempty = omega arith;
    shorter = omega arith;
    back = omega arith;
    narrow = omega arith;
  },
  (
    record {
      chars = decode (208 ∷ 189 ∷ b'a' ∷ 209 ∷ 130 ∷ []);
      decoded = refl;
      nonempty = omega arith;
      shorter = omega arith;
      back = omega arith;
      narrow = omega arith;
    },
    tt,
  ),
)

bigram2vec-fits_example :
    (more : List Bytes) × (bigram2vec two_bytes ((208 ∷ 184 ∷ []) ∷ []) wide_words (bytes "x" ∷ [])
      ≡ done ((bytes "x" ∷ []) ++ more))
    × (length more ≤ 2 * length wide_words)
bigram2vec-fits_example =
    bigram2vec-fits two_bytes two_bytes-IsStateless ((208 ∷ 184 ∷ []) ∷ []) wide_words
      (bytes "x" ∷ []) wide_words-IsWord

bigram2vec_test :
    bigram2vec latin (bytes "be" ∷ []) words []
    ≡ done (bytes "to" ∷ bytes "_tobe" ∷ bytes "bea__" ∷ bytes "a" ∷ [])
unfolding bigram2vec make_l_bigram make_r_bigram str2wstr text_eq
bigram2vec_test = refl

-- A stopword that stands alone is dropped.
bigram2vec_alone_test : bigram2vec latin (bytes "be" ∷ []) (bytes "be" ∷ []) [] ≡ done []
unfolding bigram2vec text_eq
bigram2vec_alone_test = refl

configure_stopwords-spaced_example :
    (is_stopword
        (configure_stopwords (some (spaced (bytes "to" ∷ bytes "be" ∷ []))) [])
        (bytes "be")
      ≡ is_stopword (bytes "to" ∷ bytes "be" ∷ []) (bytes "be"))
    × (configure_stopwords none [] ≡ [])
unfolding is_space
configure_stopwords-spaced_example =
    configure_stopwords-spaced (bytes "to" ∷ bytes "be" ∷ []) [] (bytes "be") (
      (nonempty b't' (bytes "o"), (refl, (refl, tt))),
      ((nonempty b'b' (bytes "e"), (refl, (refl, tt))), tt),
    )

abbrev title_zone : Zone
title_zone = record {
  name = bytes "title";
  path = bytes "info" ∷ bytes "title" ∷ [];
  is_optional = false;
  need_save = true;
  id = 0;
}

abbrev small_config : Config
small_config = record {
  doc_id_tag = bytes "id";
  document_db = bytes "db";
  raw_data_path = bytes "raw";
  doc_store_file = bytes "docs";
  postings_file = bytes "postings";
  conf_data_path = bytes "conf";
  bigramer_path = bytes "stop";
  index_data_path = bytes "index";
  invert_index_file = bytes "inv";
  invert_index_ipos_file = bytes "ipos";
  num_zones = [];
  text_zones = title_zone ∷ [];
  trash_zones = [];
}

load_config-config_trees_example :
    load_config tree_dom (some (config_trees small_config)) ≡ done small_config
load_config-config_trees_example =
    load_config-config_trees small_config
      ((refl, tt), ((omega arith, (omega arith, nonempty b't' (bytes "itle"))), tt)) (tt, tt)
      (tt, tt)

-- A launcher that finds the same documents for every text.
abbrev service : Service ℕ
service = record {
  State = Unit;
  configure = λ path_to_config path_to_stopwords. done tt;
  launch_searcher = λ launcher text docs_id. done (docs_id ++ shown, launcher);
  get_doc = λ launcher. documents;
  get_snippets = λ launcher. snippets;
  show_seconds = seconds;
}

search-request_example : search service tt (b'"' ∷ 0 ∷ b'q' ∷ 0 ∷ bytes "\" 0 2 t") ≡ (do
  (docs_id, found) ← at_launcher (done (shown, tt))
  texts ← at_launcher (page_texts documents snippets seconds (bytes "q") (take 2 (drop 0 docs_id)))
  done (xml_head (length docs_id) ++ (texts ++ bytes "</results>"), found))
unfolding nonzero to_string
search-request_example =
    search-request service tt (b'"' ∷ 0 ∷ b'q' ∷ 0 ∷ bytes "\" 0 2 t") (bytes "q") 0 2 (b't' ∷ [])
      refl (omega arith) (omega arith)

search_fails_test : search service tt (bytes "\"q\" 1 5 t") ≡ throws (in_launcher less_times)
unfolding search parse_query first_quote last_quote make_xml less_int int_to_size format
    replace_substring
search_fails_test = refl
