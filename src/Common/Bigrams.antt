-- ===== src/Common/Bigrams.antt =====
-- The bigrams of words of narrow characters fit their buffers.
use amigos.Base.{
  ℕ, zero, suc, ◌+◌, ◌-◌, ◌*◌, ◌<◌, ◌≤◌, ◌≡◌, refl, ◌||◌, List, [], ◌∷◌, ◌++◌, some, arith, length,
  length-append, length-drop, drop, Bytes, true, false, ltb, leb, ltb→lt, All, All-append,
  Bool-cases, inl, inr,
}
use amigos.Run.{done}
use amigos.Common.{
  Library, c_str, room, str2wstr, wstr2str, make_l_bigram, make_r_bigram, right_part, is_stopword,
  left_bigram, right_bigram, bigrams, bigram2vec,
}

-- The bytes of characters that have each its own.
unfoldable pub encode_all : (ℕ → Bytes) → List ℕ → Bytes
encode_all encode [] = []
encode_all encode (c ∷ ws) = encode c ++ encode_all encode ws

-- What the C library documents of `wcstombs` in an encoding without states: each character has its own
-- bytes, an ASCII character one, and one that has none makes the conversion fail.
pub record IsStateless (lib : Library) : Type 0 where
  pub encode : ℕ → Bytes
  pub wcs_encode :
      (ws : List ℕ) → All (λ c. 0 < length (encode c)) ws → lib.wcs ws ≡ some (encode_all encode ws)
  pub encode_ascii : (c : ℕ) → 0 < c → c < 128 → length (encode c) ≡ 1

length-encode_all-append :
    (encode : ℕ → Bytes) (xs ys : List ℕ)
    → length (encode_all encode (xs ++ ys))
      ≡ length (encode_all encode xs) + length (encode_all encode ys)
unfolding encode_all
length-encode_all-append encode [] ys = omega arith
length-encode_all-append encode (x ∷ xs) ys = omega (
  arith,
  length-append (encode x) (encode_all encode (xs ++ ys)),
  length-append (encode x) (encode_all encode xs),
  length-encode_all-append encode xs ys,
)

All-drop {ℓ} : {A : Type ℓ} (P : A → Type 0) (n : ℕ) (xs : List A) → All P xs → All P (drop n xs)
All-drop P zero xs h = h
All-drop P (suc n) [] h = tt
All-drop P (suc n) (x ∷ xs) (h, hs) = All-drop P n xs hs

All-map {ℓ} :
    {A : Type ℓ} (P Q : A → Type 0) (xs : List A) → ((x : A) → P x → Q x) → All P xs → All Q xs
All-map P Q [] f h = tt
All-map P Q (x ∷ xs) f (h, hs) = (f x h, All-map P Q xs f hs)

module _ (lib : Library) (enc : IsStateless lib) where
  open enc use {encode, wcs_encode, encode_ascii}

  -- A character of one byte or two.
  abbrev pub IsNarrow : ℕ → Type 0
  IsNarrow c = (0 < length (encode c)) × (length (encode c) ≤ 2)

  -- A word that is converted, to fewer characters than it has bytes, each of one byte or two, and
  -- whose characters take no more bytes than it has.
  pub record IsWord (word : Bytes) : Type 0 where
    pub chars : List ℕ
    pub decoded : lib.mbs (c_str word) ≡ some chars
    pub nonempty : 0 < length chars
    pub shorter : length chars < length word
    pub back : length (encode_all encode chars) ≤ length word
    pub narrow : All IsNarrow chars

  room-leb : (k n : ℕ) → k ≤ n → leb k (room lib n) ≡ true
  unfolding room
  room-leb k n h = ground arith

  str2wstr-chars : (word : Bytes) (h : IsWord word) → str2wstr lib word ≡ done h.chars
  unfolding str2wstr
  str2wstr-chars word h =
      rw (str2wstr, h.decoded, room-leb (suc (length h.chars)) (length word) h.shorter) refl

  wstr2str-fits :
      (ws : List ℕ) (n : ℕ)
      → All IsNarrow ws
      → length (encode_all encode ws) < n
      → wstr2str lib ws n ≡ done (encode_all encode ws)
  unfolding wstr2str
  wstr2str-fits ws n valid h =
      rw
        (
          wstr2str,
          wcs_encode ws (All-map IsNarrow (λ c. 0 < length (encode c)) ws (λ c k. k.0) valid),
          room-leb (suc (length (encode_all encode ws))) n h,
        )
        refl

  encode_all-narrow :
      (ws : List ℕ) → All IsNarrow ws → length (encode_all encode ws) ≤ 2 * length ws
  unfolding encode_all
  encode_all-narrow [] h = omega arith
  encode_all-narrow (c ∷ ws) (h, hs) =
      omega (arith, h.1, length-append (encode c) (encode_all encode ws), encode_all-narrow ws hs)

  underscore : length (encode b'_') ≡ 1
  underscore = encode_ascii b'_' (omega arith) (omega arith)

  underscore-IsNarrow : IsNarrow b'_'
  underscore-IsNarrow = (omega (arith, underscore), omega (arith, underscore))

  -- How many bytes characters take that stand between `_`s.
  three_parts :
      (a b c : List ℕ)
      → length (encode_all encode (a ++ (b ++ c)))
        ≡ length (encode_all encode a) + length (encode_all encode b) + length (encode_all encode c)
  three_parts a b c =
      omega (arith, length-encode_all-append encode a (b ++ c), length-encode_all-append encode b c)

  one_underscore : length (encode_all encode (b'_' ∷ [])) ≡ 1
  unfolding encode_all
  one_underscore = omega (arith, underscore, length-append (encode b'_') [])

  two_underscores : length (encode_all encode (b'_' ∷ b'_' ∷ [])) ≡ 2
  two_underscores =
      omega (arith, one_underscore, length-encode_all-append encode (b'_' ∷ []) (b'_' ∷ []))

  not_empty :
      (a b : List ℕ) → 0 < length a → 0 < length b → (leb (length a) 0 || leb (length b) 0) ≡ false
  not_empty a b ha hb = ground arith

  -- The last characters of a word take two bytes each.
  end-fits :
      (ws : List ℕ) (n : ℕ)
      → All IsNarrow ws
      → n ≤ length ws
      → length (encode_all encode (drop (length ws - n) ws)) ≤ 2 * n
  end-fits ws n h le = omega (
    arith,
    encode_all-narrow (drop (length ws - n) ws) (All-drop IsNarrow (length ws - n) ws h),
    length-drop (length ws - n) ws,
  )

  -- A bigram of at most five bytes besides those of the word.
  bigram-fits :
      (a b c : List ℕ) (n : ℕ)
      → All IsNarrow a
      → All IsNarrow b
      → All IsNarrow c
      → length (encode_all encode a) + length (encode_all encode b) + length (encode_all encode c)
        ≤ n + 5
      → wstr2str lib (a ++ (b ++ c)) (n + 6) ≡ done (encode_all encode (a ++ (b ++ c)))
  bigram-fits a b c n ha hb hc h =
      wstr2str-fits (a ++ (b ++ c)) (n + 6)
        (All-append IsNarrow a (b ++ c) ha (All-append IsNarrow b c hb hc))
        (omega (arith, three_parts a b c))

  make_l_bigram-fits :
      (left word : Bytes)
      → IsWord left
      → IsWord word
      → (bigram : Bytes) × (make_l_bigram lib left word ≡ done bigram)
  unfolding make_l_bigram
  make_l_bigram-fits left word hl hw =
      let l = hl.chars in
      let w = hw.chars in
      let some_chars = not_empty l w hl.nonempty hw.nonempty in
      elim (Bool-cases (ltb 1 (length l))) [
        | inl long ↦
            let part = drop (length l - 2) l in
            (
              encode_all encode ((b'_' ∷ []) ++ (part ++ w)),
              rw (make_l_bigram, str2wstr-chars left hl, str2wstr-chars word hw, some_chars, long)
                  (bigram-fits (b'_' ∷ []) part w (length word) (underscore-IsNarrow, tt)
                    (All-drop IsNarrow (length l - 2) l hl.narrow) hw.narrow
                    (omega (
                      arith,
                      one_underscore,
                      end-fits l 2 hl.narrow (ltb→lt 1 (length l) long),
                      hw.back,
                    ))),
            )
        | inr short ↦
            let part = drop (length l - 1) l in
            (
              encode_all encode ((b'_' ∷ b'_' ∷ []) ++ (part ++ w)),
              rw (make_l_bigram, str2wstr-chars left hl, str2wstr-chars word hw, some_chars, short)
                  (bigram-fits (b'_' ∷ b'_' ∷ []) part w (length word)
                    (underscore-IsNarrow, (underscore-IsNarrow, tt))
                    (All-drop IsNarrow (length l - 1) l hl.narrow) hw.narrow
                    (omega (arith, two_underscores, end-fits l 1 hl.narrow hl.nonempty, hw.back))),
            )
      ]

  right_part-fits :
      (ws : List ℕ)
      → All IsNarrow ws
      → All IsNarrow (right_part ws) × (length (encode_all encode (right_part ws)) ≤ 5)
  unfolding right_part encode_all
  right_part-fits [] h = (tt, omega arith)
  right_part-fits (a ∷ []) (h, hs) = (
    (h, (underscore-IsNarrow, (underscore-IsNarrow, tt))),
    omega (
      arith,
      h.1,
      length-encode_all-append encode (a ∷ []) (b'_' ∷ b'_' ∷ []),
      encode_all-narrow (a ∷ []) (h, hs),
      two_underscores,
    ),
  )
  right_part-fits (a ∷ b ∷ rest) (h, (k, hs)) = (
    (h, (k, (underscore-IsNarrow, tt))),
    omega (
      arith,
      length-encode_all-append encode (a ∷ b ∷ []) (b'_' ∷ []),
      encode_all-narrow (a ∷ b ∷ []) (h, (k, tt)),
      one_underscore,
    ),
  )

  make_r_bigram-fits :
      (word right : Bytes)
      → IsWord word
      → IsWord right
      → (bigram : Bytes) × (make_r_bigram lib word right ≡ done bigram)
  unfolding make_r_bigram encode_all
  make_r_bigram-fits word right hw hr =
      let (part, few) = right_part-fits hr.chars hr.narrow in
      (
        encode_all encode (hw.chars ++ right_part hr.chars),
        rw
            (
              make_r_bigram,
              str2wstr-chars right hr,
              str2wstr-chars word hw,
              not_empty hr.chars hw.chars hr.nonempty hw.nonempty,
            )
            (bigram-fits [] hw.chars (right_part hr.chars) (length word) tt hw.narrow part
              (omega (arith, few, hw.back))),
      )

  left_bigram-fits :
      (lefts : List Bytes) (word : Bytes)
      → All IsWord lefts
      → IsWord word
      → (out : List Bytes) × (left_bigram lib lefts word ≡ done out) × (length out ≤ 1)
  unfolding left_bigram
  left_bigram-fits [] word h hw = ([], refl, omega arith)
  left_bigram-fits (left ∷ lefts) word (h, hs) hw =
      let (bigram, e) = make_l_bigram-fits left word h hw in (bigram ∷ [], rw e, omega arith)

  right_bigram-fits :
      (word : Bytes) (rights : List Bytes)
      → IsWord word
      → All IsWord rights
      → (out : List Bytes) × (right_bigram lib word rights ≡ done out) × (length out ≤ 1)
  unfolding right_bigram
  right_bigram-fits word [] hw h = ([], refl, omega arith)
  right_bigram-fits word (right ∷ rights) hw (h, hs) =
      let (bigram, e) = make_r_bigram-fits word right hw h in (bigram ∷ [], rw e, omega arith)

  bigrams-fits :
      (stopwords lefts words : List Bytes)
      → All IsWord lefts
      → All IsWord words
      → (out : List Bytes) × (bigrams lib stopwords lefts words ≡ done out)
        × (length out ≤ 2 * length words)
  unfolding bigrams
  bigrams-fits stopwords lefts [] hl h = ([], refl, omega arith)
  bigrams-fits stopwords lefts (word ∷ words) hl (h, hs) =
      let (out, run, few) = bigrams-fits stopwords (word ∷ lefts) words (h, hl) hs in
      elim (Bool-cases (is_stopword stopwords word)) [
        | inl stop ↦
            let (l, le, ln) = left_bigram-fits lefts word hl h in
            let (r, re, rn) = right_bigram-fits word words h hs in
            (
              l ++ (r ++ out),
              rw (bigrams, stop, le) (rw re (rw run)),
              omega (arith, length-append l (r ++ out), length-append r out),
            )
        | inr plain ↦ (word ∷ out, rw (bigrams, plain, run), omega arith)
      ]

  -- In an encoding without states, for words that have characters, each of one byte or two and fewer of
  -- them than the word has bytes, and that take no more bytes when they are converted back, `bigram2vec`
  -- returns, whether or not the element behind an array can be written: it fails no assertion, and all
  -- that `str2wstr` and `wstr2str` write, the ending zeros included, fits their arrays. It puts at most
  -- two texts for each word behind those of the result.
  pub bigram2vec-fits :
      (stopwords words res : List Bytes)
      → All IsWord words
      → (more : List Bytes) × (bigram2vec lib stopwords words res ≡ done (res ++ more))
        × (length more ≤ 2 * length words)
  unfolding bigram2vec
  bigram2vec-fits stopwords words res h =
      let (out, run, few) = bigrams-fits stopwords [] words tt h in (out, rw run, few)
