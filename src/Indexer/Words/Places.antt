-- ===== src/Indexer/Words/Places.antt =====
-- The positions that the loops over a document's words collect for each token.
use amigos.Base.{
  ℕ, ◌+◌, ◌%◌, ◌^◌, ◌≤◌, ◌<◌, ◌≡◌, refl, sym, ap, ◌∙◌, arith, Bool, true, false, not, ◌&&◌, List,
  [], ◌∷◌, ◌++◌, inl, inr, map, length, All, append_assoc, append-nil, Bytes, ◌==◌, if◌then◌else◌,
  Bool-cases, ==_iff,
}
use amigos.Run.{done}
use amigos.Posting.Split.{absolute, FitsZones, sum}
use amigos.Indexer.Words.{
  Platform, Seen, push_pos, has_bad_symbols, add_word, add_words, zone_words, add_zones,
}

-- The positions of a token in a dictionary.
abbrev pub posting_of : ℕ → List (ℕ × List ℕ) → List ℕ
posting_of tok [] = []
posting_of tok ((t, ps) ∷ dict) = let rest = posting_of tok dict in if t == tok then ps else rest

-- Where the words stand that a test holds of, the first at `i`.
abbrev pub places : (Bytes → Bool) → ℕ → List Bytes → List ℕ
places is_tok i [] = []
places is_tok i (word ∷ words) =
    let rest = places is_tok (i + 1) words in if is_tok word then i ∷ rest else rest

-- The words of each text of the zones.
abbrev pub Spells : Platform → Bool → List Bytes → List Bytes → List (List Bytes) → Type 0
Spells platform locale_init stopwords [] [] = Unit
Spells platform locale_init stopwords [] (ws ∷ words) = ⊥
Spells platform locale_init stopwords (text ∷ texts) [] = ⊥
Spells platform locale_init stopwords (text ∷ texts) (ws ∷ words) =
    (zone_words platform locale_init stopwords text ≡ done ws)
    × Spells platform locale_init stopwords texts words

abbrev pub zeros : List (List Bytes) → List ℕ
zeros [] = []
zeros (ws ∷ words) = 0 ∷ zeros words

posting_of-push_pos :
    (tok t' pos : ℕ) (dict : List (ℕ × List ℕ))
    → posting_of tok (push_pos dict t' pos)
      ≡ posting_of tok dict ++ (if t' == tok then pos ∷ [] else [])
unfolding push_pos posting_of
posting_of-push_pos tok t' pos [] = ground arith
posting_of-push_pos tok t' pos ((t, ps) ∷ dict) = elim (Bool-cases (t == t')) [
  | inl same ↦ elim (Bool-cases (t' == tok)) [
    | inl also ↦
        let first : (t == tok) ≡ true = rw ((==_iff t t').0 same) also in
        rw (same, also, first) refl
    | inr other ↦
        let first : (t == tok) ≡ false = rw ((==_iff t t').0 same) other in
        rw (same, other, first) (sym (append-nil _))
  ]
  | inr differ ↦ elim (Bool-cases (t == tok)) [
    | inl same ↦ ground (arith, differ, same, append-nil ps)
    | inr other ↦ ground (arith, differ, other, posting_of-push_pos tok t' pos dict)
  ]
]

places-shift :
    (is_tok : Bytes → Bool) (p i : ℕ) (words : List Bytes)
    → places is_tok (p + i) words ≡ map (λ r. p + r) (places is_tok i words)
places-shift is_tok p i [] = refl
places-shift is_tok p i (word ∷ words) = elim (Bool-cases (is_tok word)) [
  | inl holds ↦
      rw (holds, sym (places-shift is_tok p (i + 1) words))
        (ap (λ n. (p + i) ∷ places is_tok n words) (omega arith))
  | inr fails ↦
      rw (fails, sym (places-shift is_tok p (i + 1) words))
        (ap (λ n. places is_tok n words) (omega arith))
]

places-from :
    (is_tok : Bytes → Bool) (p : ℕ) (words : List Bytes)
    → places is_tok p words ≡ map (λ r. p + r) (places is_tok 0 words)
places-from is_tok p words =
    let at : p ≡ p + 0 = omega arith in
    ap (λ n. places is_tok n words) at ∙ places-shift is_tok p 0 words

All-places :
    (is_tok : Bytes → Bool) (i n : ℕ) (words : List Bytes)
    → i + length words ≤ n
    → All (λ r. r < n) (places is_tok i words)
All-places is_tok i n [] h = tt
All-places is_tok i n (word ∷ words) h =
    let rest = All-places is_tok (i + 1) n words (omega arith) in
    elim (Bool-cases (is_tok word)) [
      | inl holds ↦ rw holds (omega arith, rest)
      | inr fails ↦ rw fails rest
    ]

pub FitsZones-places :
    (is_tok : Bytes → Bool) (words : List (List Bytes))
    → FitsZones (map length words) (map (places is_tok 0) words)
FitsZones-places is_tok [] = tt
FitsZones-places is_tok (ws ∷ words) =
    (All-places is_tok 0 (length ws) ws (omega arith), FitsZones-places is_tok words)

module _ (platform : Platform) where
  -- The word counts for a token.
  abbrev pub is_token : ℕ → Bytes → Bool
  is_token tok word = not (has_bad_symbols platform word) && platform.murmur_hash2 word == tok

  add_word-posting :
      (tok : ℕ) (seen : Seen) (word : Bytes)
      → posting_of tok (add_word platform seen word).tmp_dict
        ≡ posting_of tok seen.tmp_dict ++ places (is_token tok) seen.pos (word ∷ [])
  unfolding add_word
  add_word-posting tok seen word = elim (Bool-cases (has_bad_symbols platform word)) [
    | inl bad ↦ rw bad (sym (append-nil _))
    | inr good ↦
        rw (good, posting_of-push_pos tok (platform.murmur_hash2 word) seen.pos seen.tmp_dict) refl
  ]

  add_word-pos :
      (seen : Seen) (word : Bytes) → (add_word platform seen word).pos ≡ (seen.pos + 1) % 2 ^ 16
  unfolding add_word
  add_word-pos seen word = ground arith

  add_words-cnt :
      (cnt : ℕ) (seen : Seen) (words : List Bytes)
      → cnt + length words < 2 ^ 16
      → (add_words platform cnt seen words).0 ≡ cnt + length words
  unfolding add_words
  add_words-cnt cnt seen [] h = omega arith
  add_words-cnt cnt seen (word ∷ words) h =
      let kept : (cnt + 1) % 2 ^ 16 ≡ cnt + 1 = omega arith in
      rw (add_words, kept)
        (omega (arith, add_words-cnt (cnt + 1) (add_word platform seen word) words (omega arith)))

  add_words-pos :
      (cnt : ℕ) (seen : Seen) (words : List Bytes)
      → seen.pos + length words < 2 ^ 16
      → (add_words platform cnt seen words).1.pos ≡ seen.pos + length words
  unfolding add_words
  add_words-pos cnt seen [] h = omega arith
  add_words-pos cnt seen (word ∷ words) h =
      let next = add_word-pos seen word in
      omega (
        arith,
        next,
        add_words-pos ((cnt + 1) % 2 ^ 16) (add_word platform seen word) words
            (omega (arith, next)),
      )

  places-cons :
      (tok i : ℕ) (word : Bytes) (words : List Bytes)
      → places (is_token tok) i (word ∷ []) ++ places (is_token tok) (i + 1) words
        ≡ places (is_token tok) i (word ∷ words)
  places-cons tok i word words = elim (Bool-cases (is_token tok word)) [
    | inl holds ↦ rw holds refl
    | inr fails ↦ rw fails refl
  ]

  add_words-posting :
      (tok cnt : ℕ) (seen : Seen) (words : List Bytes)
      → seen.pos + length words < 2 ^ 16
      → posting_of tok (add_words platform cnt seen words).1.tmp_dict
        ≡ posting_of tok seen.tmp_dict ++ places (is_token tok) seen.pos words
  unfolding add_words
  add_words-posting tok cnt seen [] h = sym (append-nil _)
  add_words-posting tok cnt seen (word ∷ words) h =
      let next : (add_word platform seen word).pos ≡ seen.pos + 1 =
        omega (arith, add_word-pos seen word) in
      let ih =
        add_words-posting tok ((cnt + 1) % 2 ^ 16) (add_word platform seen word) words
          (omega (arith, next)) in
      ih
      ∙ (rw (add_word-posting tok seen word, next, append_assoc)
          (ap (λ ps. posting_of tok seen.tmp_dict ++ ps) (places-cons tok seen.pos word words)))

  -- The texts of a document's zones give each zone its number of words, and each token the
  -- positions of its words, behind what the dictionary holds.
  pub add_zones_lem :
      (locale_init : Bool) (stopwords texts : List Bytes) (words : List (List Bytes)) (seen : Seen)
      → Spells platform locale_init stopwords texts words
      → seen.pos + sum (map length words) < 2 ^ 16
      → (seen' : Seen) × (add_zones platform locale_init stopwords texts (zeros words) seen
          ≡ done (map length words, seen'))
        × ((tok : ℕ)
            → posting_of tok seen'.tmp_dict
              ≡ posting_of tok seen.tmp_dict
                ++ absolute seen.pos (map length words) (map (places (is_token tok) 0) words))
  unfolding add_zones sum
  add_zones_lem locale_init stopwords [] [] seen h room = (seen, refl, λ tok. sym (append-nil _))
  add_zones_lem locale_init stopwords [] (ws ∷ words) seen h room = elim h [ ]
  add_zones_lem locale_init stopwords (text ∷ texts) [] seen h room = elim h [ ]
  add_zones_lem locale_init stopwords (text ∷ texts) (ws ∷ words) seen (h, hs) room =
      let first = add_words platform 0 seen ws in
      let at : first.1.pos ≡ seen.pos + length ws = add_words-pos 0 seen ws (omega arith) in
      let cnt : first.0 ≡ length ws = omega (arith, add_words-cnt 0 seen ws (omega arith)) in
      let (seen', eq, postings) =
        add_zones_lem locale_init stopwords texts words first.1 hs (omega arith) in
      (
        seen',
        rw (h, eq, cnt) refl,
        λ tok.
            postings tok
            ∙ (rw (at, add_words-posting tok 0 seen ws (omega arith), append_assoc)
                (ap
                  (λ ps.
                    posting_of tok seen.tmp_dict
                    ++ (ps
                        ++ absolute (seen.pos + length ws) (map length words)
                            (map (places (is_token tok) 0) words)))
                  (places-from (is_token tok) seen.pos ws))),
      )
