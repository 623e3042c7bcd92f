-- ===== src/Common/Texts.antt =====
-- Sets of words, joined words and the file of the stopwords: the rest of normalizer.cpp, tokenizer.cpp
-- and bigramer.cpp. A `std::set` is the list of its elements in order.
pub mod Stopwords
use amigos.Base.{
  ℕ, zero, suc, Bool, true, false, ◌||◌, ◌&&◌, List, [], ◌∷◌, ◌++◌, Option, none, some, ◌==◌, leb,
  ltb, Bytes, text_eq,
}
use amigos.Run.{Run, done, ◌>>=◌}
use amigos.Common.{Library, Assertion, get_vec, normalize_word, normalize_words, bigram2vec}

-- The order of `std::string`.
unfoldable pub text_lt : Bytes → Bytes → Bool
text_lt xs [] = false
text_lt [] (y ∷ ys) = true
text_lt (x ∷ xs) (y ∷ ys) = ltb x y || (x == y && text_lt xs ys)

unfoldable pub insert_text : Bytes → List Bytes → List Bytes
unfolding text_lt
insert_text word [] = word ∷ []
insert_text word (s ∷ words) = elim (text_lt word s) [
  | true ↦ word ∷ s ∷ words
  | false ↦ elim (text_eq s word) [ true ↦ s ∷ words | false ↦ s ∷ insert_text word words ]
]

unfoldable pub insert_texts : List Bytes → List Bytes → List Bytes
unfolding insert_text
insert_texts [] res_set = res_set
insert_texts (word ∷ words) res_set = insert_texts words (insert_text word res_set)

-- `boost::algorithm::join`.
unfoldable pub join : List Bytes → Bytes → Bytes
join [] delim = []
join (word ∷ []) delim = word
join (word ∷ next ∷ words) delim = word ++ (delim ++ join (next ∷ words) delim)

module _ (lib : Library) where
  unfoldable pub get_set : Bytes → List Bytes → List Bytes
  unfolding insert_texts
  get_set str res_set = insert_texts (lib.tokens str) res_set

  unfoldable pub get_str : Bytes → Bytes → Bytes
  unfolding join
  get_str str delim = join (lib.tokens str) delim

  unfoldable pub terminate2set : Bool → Bytes → List Bytes → Run Assertion (List Bytes)
  unfolding get_set
  terminate2set locale_init str res_set = do
    terms ← normalize_words lib locale_init (get_set str []) true
    done (insert_texts terms res_set)

  unfoldable pub terminate2str : Bool → Bytes → Bytes → Run Assertion Bytes
  unfolding join
  terminate2str locale_init str delim = do
    vec ← normalize_words lib locale_init (get_vec lib str []) true
    done (join vec delim)

  -- `bigram2vec`, and `bigram2string`, of a text and of words.
  unfoldable pub bigram2vec_text : List Bytes → Bytes → List Bytes → Run Assertion (List Bytes)
  bigram2vec_text stopwords str res = bigram2vec lib stopwords (get_vec lib str []) res

  unfoldable pub bigram2string : List Bytes → List Bytes → Run Assertion Bytes
  unfolding join
  bigram2string stopwords words = do
    res_vec ← bigram2vec lib stopwords words []
    done (join res_vec (b' ' ∷ []))

  unfoldable pub bigram2string_text : List Bytes → Bytes → Run Assertion Bytes
  unfolding join bigram2vec_text
  bigram2string_text stopwords str = do
    res_vec ← bigram2vec_text stopwords str []
    done (join res_vec (b' ' ∷ []))

-- White space of the C locale.
unfoldable pub is_space : ℕ → Bool
is_space c = c == b' ' || (leb 9 c && leb c 13)

abbrev pub flush_word : Bytes → List Bytes
flush_word [] = []
flush_word (c ∷ word) = (c ∷ word) ∷ []

-- `stopwords_f >> word` until the end, where `word` is empty; `word` holds what was read of it.
unfoldable pub read_words : Bytes → Bytes → List Bytes
unfolding is_space
read_words word [] = flush_word word
read_words word (c ∷ file) = elim (is_space c) [
  | true ↦ flush_word word ++ read_words [] file
  | false ↦ read_words (word ++ (c ∷ [])) file
]

-- `BigRamer::configure`: the stopwords behind it. Without the file they stay as they are.
unfoldable pub configure_stopwords : Option Bytes → List Bytes → List Bytes
unfolding read_words insert_texts
configure_stopwords none stopwords = stopwords
configure_stopwords (some file) stopwords = insert_texts (read_words [] file) []
