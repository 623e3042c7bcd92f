-- ===== src/Common.antt =====
-- projects/common/src: the normalizer (normalizer.cpp), the tokenizer (tokenizer.cpp), the locale's
-- flag (loc.cpp) and the bigramer (bigramer.cpp). The C library's conversions, boost's tokenizer and
-- the stemmer are parameters; a wide text is the list of its characters.

pub mod Arrays
pub mod Bigrams
pub mod Texts
use amigos.Base.{
  ℕ, zero, suc, ◌+◌, ◌-◌, Bool, true, false, ◌||◌, List, Option, none, some, [], ◌∷◌, ◌++◌, map,
  leb, ltb, if◌then◌else◌, length, drop, Bytes, text_eq,
}
use amigos.Run.{Run, done, throws, undefined, ◌>>=◌}

-- `mbs` is what `mbstowcs` makes of a C string and `wcs` what `wcstombs` makes of a wide one, where
-- `none` is a failed conversion, `lower` `std::tolower` of the global locale, `tokens` the tokens of
-- `boost::tokenizer<>`, `stem` `Porter2Stemmer::stem`. `spare` is whether the element behind a local
-- array can be written and read without harm, which C++ does not promise.
pub record Library : Type 0 where
  pub mbs : Bytes → Option (List ℕ)
  pub wcs : List ℕ → Option Bytes
  pub spare : Bool
  pub lower : ℕ → ℕ
  pub tokens : Bytes → List Bytes
  pub stem : Bytes → Bytes

-- The assertions that may fail.
pub data Assertion : Type 0 where
  no_locale empty_word : Assertion

-- The text of a C string ends in front of its first zero.
unfoldable pub c_str : Bytes → Bytes
c_str [] = []
c_str (c ∷ str) = elim c [ zero ↦ [] | suc c' ↦ suc c' ∷ c_str str ]

-- The wide characters at the front of the right word: two of them, or the only one.
unfoldable pub right_part : List ℕ → List ℕ
right_part [] = []
right_part (a ∷ []) = a ∷ b'_' ∷ b'_' ∷ []
right_part (a ∷ b ∷ rest) = a ∷ b ∷ b'_' ∷ []

-- `find` in the set of the stopwords.
unfoldable pub is_stopword : List Bytes → Bytes → Bool
is_stopword [] word = false
is_stopword (s ∷ stopwords) word = text_eq s word || is_stopword stopwords word

module _ (lib : Library) where
  open lib use {mbs, wcs, spare, lower, tokens, stem}

  -- How many elements can be written to an array of `n`, where one more than that are asked for.
  unfoldable pub room : ℕ → ℕ
  room n = if spare then suc n else n

  -- At most `str.size() + 1` wide characters are asked for, so the ending zero is written. A conversion
  -- that fails leaves no zero.
  unfoldable pub str2wstr : Bytes → Run Assertion (List ℕ)
  unfolding c_str room
  str2wstr str = elim (mbs (c_str str)) [
    | none ↦ undefined
    | some ws ↦ if leb (suc (length ws)) (room (length str)) then done ws else undefined
  ]

  -- At most `a_size + 1` bytes are written; where these are all used up, no zero ends the text.
  unfoldable pub wstr2str : List ℕ → ℕ → Run Assertion Bytes
  unfolding room
  wstr2str ws a_size = elim (wcs ws) [
    | none ↦ undefined
    | some str ↦ if leb (suc (length str)) (room a_size) then done str else undefined
  ]

  -- `locale_init` is `g_locale_init`.
  unfoldable pub to_lower : Bool → Bytes → Run Assertion Bytes
  unfolding str2wstr wstr2str
  to_lower locale_init str = elim locale_init [
    | false ↦ throws no_locale
    | true ↦ do ws ← str2wstr str; wstr2str (map lower ws) (length str)
  ]

  unfoldable pub normalize_word : Bool → Bytes → Bool → Run Assertion Bytes
  unfolding to_lower
  normalize_word locale_init word stemm = do
    norm_word ← to_lower locale_init word
    done (if stemm then stem norm_word else norm_word)

  unfoldable pub normalize_words : Bool → List Bytes → Bool → Run Assertion (List Bytes)
  unfolding normalize_word
  normalize_words locale_init [] stemm = done []
  normalize_words locale_init (term ∷ vec) stemm = do
    term ← normalize_word locale_init term stemm
    vec ← normalize_words locale_init vec stemm
    done (term ∷ vec)

  -- `tkns.get_vec(vec)` puts the tokens behind what `vec` holds, and all of it is normalized.
  unfoldable pub get_vec : Bytes → List Bytes → List Bytes
  get_vec str vec = vec ++ tokens str

  unfoldable pub terminate2vec : Bool → Bytes → List Bytes → Bool → Run Assertion (List Bytes)
  unfolding normalize_words get_vec
  terminate2vec locale_init str vec stemm = normalize_words locale_init (get_vec str vec) stemm

  unfoldable pub make_l_bigram : Bytes → Bytes → Run Assertion Bytes
  unfolding str2wstr wstr2str
  make_l_bigram left_word word = do
    w_left_word ← str2wstr left_word
    w_word ← str2wstr word
    let l_w_size = length w_left_word
    let w_res =
        if ltb 1 l_w_size
        then (b'_' ∷ []) ++ (drop (l_w_size - 2) w_left_word ++ w_word)
        else (b'_' ∷ b'_' ∷ []) ++ (drop (l_w_size - 1) w_left_word ++ w_word)
    if leb l_w_size 0 || leb (length w_word) 0
        then throws empty_word
        else wstr2str w_res (length word + 6)

  unfoldable pub make_r_bigram : Bytes → Bytes → Run Assertion Bytes
  unfolding str2wstr wstr2str right_part
  make_r_bigram word right_word = do
    w_right_word ← str2wstr right_word
    w_word ← str2wstr word
    if leb (length w_right_word) 0 || leb (length w_word) 0
        then throws empty_word
        else wstr2str (w_word ++ right_part w_right_word) (length word + 6)

  -- The part of one word, between the word on its left and the words on its right.
  unfoldable pub left_bigram : List Bytes → Bytes → Run Assertion (List Bytes)
  unfolding make_l_bigram
  left_bigram [] word = done []
  left_bigram (left ∷ lefts) word = do bigram ← make_l_bigram left word; done (bigram ∷ [])

  unfoldable pub right_bigram : Bytes → List Bytes → Run Assertion (List Bytes)
  unfolding make_r_bigram
  right_bigram word [] = done []
  right_bigram word (right ∷ rights) = do bigram ← make_r_bigram word right; done (bigram ∷ [])

  -- `bigram2vec` from one word on; `lefts` holds the words in front of it, the nearest first.
  unfoldable pub bigrams : List Bytes → List Bytes → List Bytes → Run Assertion (List Bytes)
  unfolding left_bigram right_bigram is_stopword
  bigrams stopwords lefts [] = done []
  bigrams stopwords lefts (word ∷ words) = elim (is_stopword stopwords word) [
    | true ↦ do
      l ← left_bigram lefts word
      r ← right_bigram word words
      rest ← bigrams stopwords (word ∷ lefts) words
      done (l ++ (r ++ rest))
    | false ↦ do rest ← bigrams stopwords (word ∷ lefts) words; done (word ∷ rest)
  ]

  -- `bigram2vec(words, res)`: the result goes behind `res`.
  unfoldable pub bigram2vec : List Bytes → List Bytes → List Bytes → Run Assertion (List Bytes)
  unfolding bigrams
  bigram2vec stopwords words res = do more ← bigrams stopwords [] words; done (res ++ more)
