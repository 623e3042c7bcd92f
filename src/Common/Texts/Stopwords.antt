-- ===== src/Common/Texts/Stopwords.antt =====
-- After `configure`, the stopwords are the words of the file.
use amigos.Base.{
  ◌≡◌, ◌≢◌, refl, ap, sym, Bool, false, ◌||◌, List, [], ◌∷◌, ◌++◌, none, some, arith, append_assoc,
  append-nil, All, Bool-cases, inl, inr, Bytes, text_eq, text_eq_sound,
}
use amigos.Common.{is_stopword}
use amigos.Common.Texts.{
  text_lt, insert_text, insert_texts, is_space, flush_word, read_words, configure_stopwords,
}

-- Words, each ended by a space.
pub spaced : List Bytes → Bytes
spaced [] = []
spaced (word ∷ words) = word ++ (b' ' ∷ spaced words)

-- A word that is not empty and holds no white space.
abbrev pub IsPlainWord : Bytes → Type 0
IsPlainWord word = (word ≢ []) × All (λ c. is_space c ≡ false) word

flush-nonempty : (word : Bytes) → word ≢ [] → flush_word word ≡ word ∷ []
flush-nonempty [] h = absurd (h refl)
flush-nonempty (c ∷ word) h = refl

append-nonempty : (xs ys : Bytes) → ys ≢ [] → xs ++ ys ≢ []
append-nonempty [] ys h = h
append-nonempty (x ∷ xs) ys h = λ e. absurd (ground arith)

read_words-word :
    (front word : Bytes) (file : Bytes)
    → All (λ c. is_space c ≡ false) word
    → (front ++ word) ≢ []
    → read_words front (word ++ (b' ' ∷ file)) ≡ (front ++ word) ∷ read_words [] file
unfolding read_words
read_words-word front [] file h ne =
    rw append-nil (ap (λ ws. ws ++ read_words [] file) (flush-nonempty front (rw append-nil at ne)))
read_words-word front (c ∷ word) file (h, hs) ne =
    rw (read_words, h)
      (rw
        (read_words-word (front ++ (c ∷ [])) word file hs
          (rw (sym (append_assoc front (c ∷ []) word)) at ne))
        (simp append_assoc))

read_words-spaced :
    (words : List Bytes) → All IsPlainWord words → read_words [] (spaced words) ≡ words
unfolding spaced
read_words-spaced [] h = unfold read_words in refl
read_words-spaced (word ∷ words) ((ne, plain), hs) =
    rw (read_words-word [] word (spaced words) plain ne, read_words-spaced words hs)

or_swap : (a b c : Bool) → (a || (b || c)) ≡ (b || (a || c))
or_swap a b c = ground arith

or_twice : (a c : Bool) → (a || (a || c)) ≡ (a || c)
or_twice a c = ground arith

is_stopword-insert_text :
    (word : Bytes) (words : List Bytes) (x : Bytes)
    → is_stopword (insert_text word words) x ≡ (text_eq word x || is_stopword words x)
unfolding is_stopword insert_text
is_stopword-insert_text word [] x = refl
is_stopword-insert_text word (s ∷ words) x = elim (Bool-cases (text_lt word s)) [
  | inl low ↦ rw (insert_text, low)
  | inr high ↦ elim (Bool-cases (text_eq s word)) [
    | inl same ↦
        rw (insert_text, high, same)
          (rw (text_eq_sound s word same) (sym (or_twice (text_eq word x) (is_stopword words x))))
    | inr differ ↦
        rw (insert_text, high, differ)
          (rw (is_stopword-insert_text word words x)
            (or_swap (text_eq s x) (text_eq word x) (is_stopword words x)))
  ]
]

is_stopword-insert_texts :
    (words set : List Bytes) (x : Bytes)
    → is_stopword (insert_texts words set) x ≡ (is_stopword words x || is_stopword set x)
unfolding is_stopword insert_texts
is_stopword-insert_texts [] set x = refl
is_stopword-insert_texts (word ∷ words) set x =
    rw (is_stopword-insert_texts words (insert_text word set) x, is_stopword-insert_text word set x)
      (ground arith)

-- After `configure` with a file of words, each ended by a space, exactly these words are stopwords,
-- whatever the stopwords were before; without a file they stay.
pub configure_stopwords-spaced :
    (words old : List Bytes) (x : Bytes)
    → All IsPlainWord words
    → (is_stopword (configure_stopwords (some (spaced words)) old) x ≡ is_stopword words x)
      × (configure_stopwords none old ≡ old)
unfolding configure_stopwords
configure_stopwords-spaced words old x h = (
  rw (read_words-spaced words h, is_stopword-insert_texts words [] x)
      (unfold is_stopword in ground arith),
  refl,
)
