-- ===== src/Indexer/Zones/Numbers.antt =====
-- A number is read back from its decimal digits.
use amigos.Base.{
  ℕ, zero, suc, ◌+◌, ◌-◌, ◌*◌, ◌/◌, ◌%◌, ◌^◌, ◌≤◌, ◌<◌, ◌≡◌, refl, ◌∙◌, arith, true, false, ◌&&◌,
  [], ◌∷◌, leb, ltb, Bool-cases, inl, inr, All, All-append, Bytes, ◌==◌,
}
use amigos.DocDb.{to_string, to_string_fuel}
use amigos.DocDb.Key.{number_from, number_from-to_string_fuel}
use amigos.Common.Texts.{is_space}
use amigos.Indexer.Zones.{read_digits, read_unsigned, stou}

abbrev IsDigit : ℕ → Type 0
IsDigit c = (48 ≤ c) × (c ≤ 57)

read_digits-number_from :
    (n : ℕ) (text : Bytes) → All IsDigit text → read_digits n text ≡ number_from n text
unfolding read_digits number_from
read_digits-number_from n [] h = refl
read_digits-number_from n (c ∷ text) ((lo, hi), hs) =
    let digit : (leb b'0' c && leb c b'9') ≡ true = ground arith in
    let same : n * 10 + (c - 48) ≡ 10 * n + (c - 48) = omega arith in
    rw (digit, same) (read_digits-number_from (10 * n + (c - 48)) text hs)

to_string_fuel-IsDigit : (fuel n : ℕ) → All IsDigit (to_string_fuel fuel n)
unfolding to_string_fuel
to_string_fuel-IsDigit zero n = tt
to_string_fuel-IsDigit (suc fuel) n = elim (Bool-cases (ltb n 10)) [
  | inl digit ↦ rw (digit, to_string_fuel) ((omega arith, ground (arith, digit)), tt)
  | inr more ↦
      rw (more, to_string_fuel)
        (All-append IsDigit (to_string_fuel fuel (n / 10)) ((48 + n % 10) ∷ [])
          (to_string_fuel-IsDigit fuel (n / 10)) ((omega arith, omega arith), tt))
]

stou-digits :
    (text : Bytes) → All IsDigit text → number_from 0 text < 2 ^ 32 → stou text ≡ number_from 0 text
unfolding stou is_space read_unsigned
stou-digits [] h lt = unfold number_from in refl
stou-digits (c ∷ text) ((lo, hi), hs) lt =
    let value = read_digits-number_from 0 (c ∷ text) ((lo, hi), hs) in
    let space : is_space c ≡ false = ground arith in
    let minus : (c == b'-') ≡ false = ground arith in
    let plus : (c == b'+') ≡ false = ground arith in
    let fits : leb (2 ^ 32) (read_digits 0 (c ∷ text)) ≡ false = ground (arith, value) in
    rw (space, minus, plus, read_unsigned, fits) value

-- `stou` reads what `std::to_string` makes of a `uint32_t`.
pub stou-to_string : (n : ℕ) → n < 2 ^ 32 → stou (to_string n) ≡ n
unfolding to_string
stou-to_string n lt =
    let value = number_from-to_string_fuel 10 n (omega arith) in
    stou-digits (to_string_fuel 10 n) (to_string_fuel-IsDigit 10 n) (omega (arith, value)) ∙ value
