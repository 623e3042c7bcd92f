-- ===== src/Common/Arrays.antt =====
-- The arrays of `str2wstr` and `wstr2str` are one element too short.
use amigos.Base.{
  ℕ, zero, suc, ◌<◌, ◌≡◌, refl, ap, Bool, true, false, List, [], ◌∷◌, ◌++◌, Option, none, some, map,
  arith, length, append_assoc, Bytes, All, inl, inr, sym, leb, if◌then◌else◌,
}
use mathlib.Core.Path.{subst}
use amigos.Run.{◌>>=◌, Run, done, throws, undefined, Run-cases}
use amigos.Common.{
  Library, Assertion, c_str, room, str2wstr, wstr2str, to_lower, normalize_word, normalize_words,
  terminate2vec, get_vec,
}

c_str_self : (str : Bytes) → All (λ c. 0 < c) str → c_str str ≡ str
unfolding c_str
c_str_self [] h = refl
c_str_self (zero ∷ str) (h, hs) = absurd (omega arith)
c_str_self (suc c ∷ str) (h, hs) = ap (λ s. suc c ∷ s) (c_str_self str hs)

-- A byte of ASCII that does not end a text.
abbrev pub IsAscii : ℕ → Type 0
IsAscii c = (0 < c) × (c < 128)

ascii-positive : (word : Bytes) → All IsAscii word → All (λ c. 0 < c) word
ascii-positive [] h = tt
ascii-positive (c ∷ word) (h, hs) = (h.0, ascii-positive word hs)

-- What throws nothing.
abbrev Quiet {ℓ} : {A : Type ℓ} → Run Assertion A → Type 0
Quiet (done a) = Unit
Quiet (throws e) = ⊥
Quiet undefined = Unit

unless-Quiet {ℓ} : {A : Type ℓ} (b : Bool) (a : A) → Quiet (if b then done a else undefined)
unless-Quiet true a = tt
unless-Quiet false a = tt

bind-Quiet {ℓ κ} :
    {A : Type ℓ} {B : Type κ} (m : Run Assertion A) (f : A → Run Assertion B)
    → Quiet m
    → ((a : A) → Quiet (f a))
    → Quiet (m >>= f)
bind-Quiet (done a) f h hs = hs a
bind-Quiet (throws e) f h hs = h
bind-Quiet undefined f h hs = tt

some-Quiet {ℓ} :
    {A : Type ℓ} {B : Type ℓ} (o : Option A) (f : A → Run Assertion B)
    → ((a : A) → Quiet (f a))
    → Quiet (elim o [ none ↦ undefined | some a ↦ f a ])
some-Quiet none f h = tt
some-Quiet (some a) f h = h a

module _ (lib : Library) where
  str2wstr-Quiet : (str : Bytes) → Quiet (str2wstr lib str)
  unfolding str2wstr
  str2wstr-Quiet str =
      some-Quiet (lib.mbs (c_str str)) _ (λ ws. unless-Quiet (leb (suc (length ws)) _) ws)

  wstr2str-Quiet : (ws : List ℕ) (n : ℕ) → Quiet (wstr2str lib ws n)
  unfolding wstr2str
  wstr2str-Quiet ws n =
      some-Quiet (lib.wcs ws) _ (λ str. unless-Quiet (leb (suc (length str)) _) str)

  normalize_word-Quiet : (word : Bytes) (stemm : Bool) → Quiet (normalize_word lib true word stemm)
  unfolding normalize_word to_lower
  normalize_word-Quiet word stemm =
      bind-Quiet _ _
        (bind-Quiet (str2wstr lib word) _ (str2wstr-Quiet word)
          (λ ws. wstr2str-Quiet (map lib.lower ws) (length word)))
        (λ norm_word. tt)

  normalize_word-ascii :
      (word : Bytes) (stemm : Bool)
      → lib.spare ≡ false
      → ((str : Bytes) → All IsAscii str → lib.mbs str ≡ some str)
      → All IsAscii word
      → normalize_word lib true word stemm ≡ undefined
  unfolding normalize_word to_lower str2wstr room
  normalize_word-ascii word stemm tight decodes ascii =
      let short : leb (suc (length word)) (length word) ≡ false = ground arith in
      rw
        (
          normalize_word,
          to_lower,
          str2wstr,
          room,
          c_str_self word (ascii-positive word ascii),
          decodes word ascii,
          tight,
          short,
        )
        refl

  normalize_words-overruns :
      (before : List Bytes) (word : Bytes) (after : List Bytes) (stemm : Bool)
      → lib.spare ≡ false
      → ((str : Bytes) → All IsAscii str → lib.mbs str ≡ some str)
      → All IsAscii word
      → normalize_words lib true (before ++ (word ∷ after)) stemm ≡ undefined
  unfolding normalize_words
  normalize_words-overruns [] word after stemm tight decodes ascii =
      rw (normalize_words, normalize_word-ascii word stemm tight decodes ascii) refl
  normalize_words-overruns (term ∷ before) word after stemm tight decodes ascii =
      let rest = normalize_words-overruns before word after stemm tight decodes ascii in
      elim (Run-cases (normalize_word lib true term stemm)) [
        | inl (norm, e) ↦ rw (normalize_words, e, rest) refl
        | inr (inl (a, e)) ↦ absurd (subst Quiet e (normalize_word-Quiet term stemm))
        | inr (inr e) ↦ rw (normalize_words, e) refl
      ]

  -- Where no element behind an array can be written, and `mbstowcs` takes an ASCII text as it is,
  -- `terminate2vec` on a text with a token of ASCII ends in undefined behaviour, whatever its other
  -- tokens are, once the locale is set: the arrays have no room for the ending zero.
  pub terminate2vec-overruns :
      (str : Bytes) (vec before : List Bytes) (word : Bytes) (after : List Bytes) (stemm : Bool)
      → lib.spare ≡ false
      → ((text : Bytes) → All IsAscii text → lib.mbs text ≡ some text)
      → lib.tokens str ≡ before ++ (word ∷ after)
      → All IsAscii word
      → terminate2vec lib true str vec stemm ≡ undefined
  unfolding terminate2vec get_vec
  terminate2vec-overruns str vec before word after stemm tight decodes cut ascii =
      rw (terminate2vec, get_vec, cut, sym (append_assoc vec before (word ∷ after)))
        (normalize_words-overruns (vec ++ before) word after stemm tight decodes ascii)
