-- ===== src/Listener/Escape.antt =====
-- `Format` is the XML escaping, byte by byte.
use amigos.Base.{
  ℕ, zero, suc, ◌+◌, ◌<◌, ◌≡◌, ◌≢◌, refl, sym, ap, List, [], ◌∷◌, ◌++◌, none, some, arith,
  append_assoc, append-nil, length, length-append, take, drop, take-append, drop-append, All,
  All-append, ◌==◌, ==_iff, if◌then◌else◌, Bool-cases, inl, inr, ◌>>=◌,
}
use amigos.Listener.{find, replace_loop, replace_substring, format}

-- Every byte by what stands for it.
unfoldable pub flat_map : (ℕ → List ℕ) → List ℕ → List ℕ
flat_map f [] = []
flat_map f (c ∷ str) = f c ++ flat_map f str

flat_map-append :
    (f : ℕ → List ℕ) (xs ys : List ℕ) → flat_map f (xs ++ ys) ≡ flat_map f xs ++ flat_map f ys
unfolding flat_map
flat_map-append f [] ys = refl
flat_map-append f (x ∷ xs) ys = rw (flat_map-append f xs ys, append_assoc)

-- One symbol replaced.
abbrev expand : ℕ → List ℕ → ℕ → List ℕ
expand symbol new c = if c == symbol then new else c ∷ []

find_symbol :
    (symbol : ℕ) (clean : List ℕ) (same : ℕ) (rest : List ℕ)
    → same ≡ symbol
    → All (λ c. c ≢ symbol) clean
    → find (clean ++ (same ∷ rest)) (symbol ∷ []) ≡ some (length clean)
unfolding find
find_symbol symbol [] same rest e h = ground arith
find_symbol symbol (c ∷ clean) same rest e (h, hs) =
    ground (arith, find_symbol symbol clean same rest e hs)

find_no_symbol :
    (symbol : ℕ) (clean : List ℕ) → All (λ c. c ≢ symbol) clean → find clean (symbol ∷ []) ≡ none
unfolding find
find_no_symbol symbol [] h = refl
find_no_symbol symbol (c ∷ clean) (h, hs) = ground (arith, find_no_symbol symbol clean hs)

-- Where the front ends and the byte behind it is replaced.
take_front :
    (done clean : List ℕ) (c : ℕ) (rest : List ℕ)
    → take (length done + length clean) (done ++ (clean ++ (c ∷ rest))) ≡ done ++ clean
take_front done clean c rest =
    rw (sym (append_assoc done clean (c ∷ rest)), sym (length-append done clean))
      (take-append (done ++ clean) (c ∷ rest))

drop_exactly : (n : ℕ) (xs ys : List ℕ) → n ≡ length xs → drop n (xs ++ ys) ≡ ys
drop_exactly n xs ys h = rw h (drop-append xs ys)

length_front :
    (done clean : List ℕ) (c : ℕ)
    → length ((done ++ clean) ++ (c ∷ [])) ≡ length done + length clean + 1
length_front done clean c =
    omega (arith, length-append (done ++ clean) (c ∷ []), length-append done clean)

drop_front :
    (done clean : List ℕ) (c : ℕ) (rest : List ℕ)
    → drop (length done + length clean + 1) (done ++ (clean ++ (c ∷ rest))) ≡ rest
drop_front done clean c rest =
    rw (append_assoc, append_assoc) at
      (drop_exactly (length done + length clean + 1) ((done ++ clean) ++ (c ∷ [])) rest
        (sym (length_front done clean c)))

-- The loop behind `done` and a part without the symbol. The text that is put in has the symbol
-- at most in front.
replace_loop-expand :
    (symbol head : ℕ) (tail : List ℕ) (rest : List ℕ) (fuel : ℕ) (done clean : List ℕ)
    → All (λ c. c ≢ symbol) tail
    → All (λ c. c ≢ symbol) clean
    → length rest < fuel
    → replace_loop fuel (done ++ (clean ++ rest)) (length done) (symbol ∷ []) (head ∷ tail)
      ≡ some (done ++ (clean ++ flat_map (expand symbol (head ∷ tail)) rest))
unfolding replace_loop flat_map
replace_loop-expand symbol head tail rest zero done clean ht hc h = absurd (omega arith)
replace_loop-expand symbol head tail [] (suc fuel) done clean ht hc h =
    rw (replace_loop, drop-append, append-nil, find_no_symbol symbol clean hc, append-nil)
replace_loop-expand symbol head tail (c ∷ rest) (suc fuel) done clean ht hc h =
    elim (Bool-cases (c == symbol)) [
      | inl same ↦
          rw
            (
              same,
              replace_loop,
              drop-append,
              find_symbol symbol clean c rest ((==_iff c symbol).0 same) hc,
              take_front done clean c rest,
              drop_front done clean c rest,
            )
            (simp append_assoc (
              simp append_assoc at (
                rw length_front at (
                  replace_loop-expand symbol head tail rest fuel ((done ++ clean) ++ (head ∷ []))
                    tail ht ht (omega arith)))))
      | inr differ ↦ rw differ (
          rw (append_assoc, append_assoc) at
            (replace_loop-expand symbol head tail rest (suc fuel) done (clean ++ (c ∷ [])) ht
              (All-append _ clean (c ∷ []) hc (ground arith, tt)) (omega arith)))
    ]

-- `ReplaceSubstring` of one symbol replaces each one, where the new text has it in front at most.
replace_substring-expand :
    (symbol head : ℕ) (tail str : List ℕ)
    → All (λ c. c ≢ symbol) tail
    → replace_substring str (symbol ∷ []) (head ∷ tail)
      ≡ some (flat_map (expand symbol (head ∷ tail)) str)
unfolding replace_substring
replace_substring-expand symbol head tail str ht =
    replace_loop-expand symbol head tail str (suc (length str)) [] [] ht tt (omega arith)

flat_map-flat_map :
    (f g : ℕ → List ℕ) (str : List ℕ)
    → flat_map f (flat_map g str) ≡ flat_map (λ c. flat_map f (g c)) str
unfolding flat_map
flat_map-flat_map f g [] = refl
flat_map-flat_map f g (c ∷ str) =
    rw (flat_map-append f (g c) (flat_map g str), flat_map-flat_map f g str)

flat_map-ext :
    (f g : ℕ → List ℕ) (str : List ℕ) → ((c : ℕ) → f c ≡ g c) → flat_map f str ≡ flat_map g str
unfolding flat_map
flat_map-ext f g [] h = refl
flat_map-ext f g (c ∷ str) h = rw (h c, flat_map-ext f g str h)

-- The predefined entities of XML.
abbrev pub escape : ℕ → List ℕ
escape c =
    if c == b'&'
    then b'&' ∷ b'a' ∷ b'm' ∷ b'p' ∷ b';' ∷ []
    else if c == b'<'
    then b'&' ∷ b'l' ∷ b't' ∷ b';' ∷ []
    else if c == b'>'
    then b'&' ∷ b'g' ∷ b't' ∷ b';' ∷ []
    else if c == b'"'
    then b'&' ∷ b'q' ∷ b'u' ∷ b'o' ∷ b't' ∷ b';' ∷ []
    else if c == b'\''
    then b'&' ∷ b'a' ∷ b'p' ∷ b'o' ∷ b's' ∷ b';' ∷ []
    else c ∷ []

replace-escape :
    (symbol head : ℕ) (tail : List ℕ) (f : ℕ → List ℕ) (str : List ℕ)
    → All (λ c. c ≢ symbol) tail
    → replace_substring (flat_map f str) (symbol ∷ []) (head ∷ tail)
      ≡ some (flat_map (λ c. flat_map (expand symbol (head ∷ tail)) (f c)) str)
replace-escape symbol head tail f str ht =
    rw (replace_substring-expand symbol head tail (flat_map f str) ht, flat_map-flat_map)

abbrev amp : List ℕ
amp = b'a' ∷ b'm' ∷ b'p' ∷ b';' ∷ []

abbrev lt_ : List ℕ
lt_ = b'l' ∷ b't' ∷ b';' ∷ []

abbrev gt_ : List ℕ
gt_ = b'g' ∷ b't' ∷ b';' ∷ []

abbrev quot : List ℕ
quot = b'q' ∷ b'u' ∷ b'o' ∷ b't' ∷ b';' ∷ []

abbrev apos : List ℕ
apos = b'a' ∷ b'p' ∷ b'o' ∷ b's' ∷ b';' ∷ []

-- The five rounds on one byte.
escape_rounds :
    (c : ℕ)
    → flat_map (expand b'\'' (b'&' ∷ apos)) (
        flat_map (expand b'"' (b'&' ∷ quot)) (
          flat_map
            (expand b'>' (b'&' ∷ gt_))
            (flat_map (expand b'<' (b'&' ∷ lt_)) (expand b'&' (b'&' ∷ amp) c))))
      ≡ escape c
unfolding flat_map
escape_rounds c = elim (Bool-cases (c == b'&')) [
  | inl e ↦ rw e
  | inr n1 ↦ rw n1 (elim (Bool-cases (c == b'<')) [
    | inl e ↦ rw e
    | inr n2 ↦ rw n2 (elim (Bool-cases (c == b'>')) [
      | inl e ↦ rw e
      | inr n3 ↦ rw n3 (elim (Bool-cases (c == b'"')) [
        | inl e ↦ rw e
        | inr n4 ↦ rw n4 (elim (Bool-cases (c == b'\'')) [ inl e ↦ rw e | inr n5 ↦ rw n5 ])
      ])
    ])
  ])
]

format-flat_map : (str : List ℕ) → format str ≡ some (flat_map escape str)
unfolding format
format-flat_map str =
    rw (replace_substring-expand b'&' b'&' amp str (omega arith), ◌>>=◌)
      (rw (replace-escape b'<' b'&' lt_ _ str (omega arith), ◌>>=◌)
        (rw (replace-escape b'>' b'&' gt_ _ str (omega arith), ◌>>=◌)
          (rw (replace-escape b'"' b'&' quot _ str (omega arith), ◌>>=◌)
            (rw (replace-escape b'\'' b'&' apos _ str (omega arith), ◌>>=◌)
              (ap some (flat_map-ext _ escape str escape_rounds))))))

-- A byte that ends neither a text of XML nor a quoted attribute.
abbrev pub IsPlain : ℕ → Type 0
IsPlain c = (c ≢ b'<') × (c ≢ b'>') × (c ≢ b'"') × (c ≢ b'\'')

escape-IsPlain : (c : ℕ) → All IsPlain (escape c)
escape-IsPlain c = elim (Bool-cases (c == b'&')) [
  | inl e ↦ rw e (omega arith)
  | inr n1 ↦ rw n1 (elim (Bool-cases (c == b'<')) [
    | inl e ↦ rw e (omega arith)
    | inr n2 ↦ rw n2 (elim (Bool-cases (c == b'>')) [
      | inl e ↦ rw e (omega arith)
      | inr n3 ↦ rw n3 (elim (Bool-cases (c == b'"')) [
        | inl e ↦ rw e (omega arith)
        | inr n4 ↦ rw n4 (elim (Bool-cases (c == b'\'')) [
          | inl e ↦ rw e (omega arith)
          | inr n5 ↦ rw n5 ((ground arith, ground arith, ground arith, ground arith), tt)
        ])
      ])
    ])
  ])
]

flat_map-IsPlain : (str : List ℕ) → All IsPlain (flat_map escape str)
unfolding flat_map
flat_map-IsPlain [] = tt
flat_map-IsPlain (c ∷ str) =
    All-append IsPlain (escape c) (flat_map escape str) (escape-IsPlain c) (flat_map-IsPlain str)

-- `Format` ends on every text, with the text in which each `&`, `<`, `>`, `"` and `'` is replaced
-- by its XML entity and every other byte is kept; no `<`, `>`, `"` or `'` is left.
pub format-escape :
    (str : List ℕ) → (format str ≡ some (flat_map escape str)) × All IsPlain (flat_map escape str)
format-escape str = (format-flat_map str, flat_map-IsPlain str)
