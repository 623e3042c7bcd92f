-- ===== src/Listener/Query/Numbers.antt =====
-- `ParseQuery` reads the decimal digits of a number.
use amigos.Base.{
  ℕ, zero, suc, ◌+◌, ◌-◌, ◌*◌, ◌/◌, ◌%◌, ◌^◌, ◌<◌, ◌≤◌, ◌≡◌, refl, sym, [], ◌∷◌, ◌++◌, false, arith,
  All, All-append, ltb, ◌==◌, Bool-cases, inl, inr, Bytes,
}
use amigos.Run.{done}
use amigos.DocDb.{to_string_fuel, to_string}
use amigos.DocDb.Key.{number_from, number_from-to_string}
use amigos.Listener.Query.{char_to_int, read_number, skip_spaces}

abbrev pub IsDigit : ℕ → Type 0
IsDigit c = (48 ≤ c) × (c < 58)

digits-IsDigit : (fuel n : ℕ) → All IsDigit (to_string_fuel fuel n)
unfolding to_string_fuel
digits-IsDigit zero n = tt
digits-IsDigit (suc fuel) n = elim (Bool-cases (ltb n 10)) [
  | inl digit ↦ rw (to_string_fuel, digit) (ground arith)
  | inr more ↦
      rw (to_string_fuel, more)
        (All-append IsDigit (to_string_fuel fuel (n / 10)) ((48 + n % 10) ∷ [])
          (digits-IsDigit fuel (n / 10)) (omega arith))
]

pub to_string-IsDigit : (n : ℕ) → All IsDigit (to_string n)
unfolding to_string
to_string-IsDigit n = digits-IsDigit 10 n

number_from-le : (acc : ℕ) (digits : Bytes) → acc ≤ number_from acc digits
unfolding number_from
number_from-le acc [] = omega arith
number_from-le acc (c ∷ digits) = omega (arith, number_from-le (10 * acc + (c - 48)) digits)

char_to_int_ascii : (c : ℕ) → c < 128 → char_to_int c ≡ c
unfolding char_to_int
char_to_int_ascii c h = ground arith

read_number-digits :
    (acc : ℕ) (digits rest : Bytes)
    → All IsDigit digits
    → number_from acc digits < 2 ^ 32
    → read_number acc (digits ++ (b' ' ∷ rest)) ≡ done (number_from acc digits, b' ' ∷ rest)
unfolding read_number number_from
read_number-digits acc [] rest h lt = refl
read_number-digits acc (c ∷ digits) rest (d, h) lt =
    let no_space : (c == b' ') ≡ false = ground arith in
    let low : acc * 10 + c < 2 ^ 32 + 48 =
      omega (arith, number_from-le (10 * acc + (c - 48)) digits) in
    let step : (10 * acc + char_to_int c + (2 ^ 32 - 48)) % 2 ^ 32 ≡ 10 * acc + (c - 48) =
      rw (char_to_int_ascii c (omega arith)) (omega arith) in
    rw (read_number, no_space, step) (read_number-digits (10 * acc + (c - 48)) digits rest h lt)

skip_digit : (c : ℕ) (rest : Bytes) → IsDigit c → skip_spaces (c ∷ rest) ≡ c ∷ rest
unfolding skip_spaces
skip_digit c rest h = let no_space : (c == b' ') ≡ false = ground arith in rw no_space

-- The front of a text with one more byte behind it.
front_of : (xs : Bytes) (y : ℕ) → (c : ℕ) × (more : Bytes) × (xs ++ (y ∷ []) ≡ c ∷ more)
front_of [] y = (y, [], refl)
front_of (x ∷ xs) y = (x, xs ++ (y ∷ []), refl)

to_string-front : (n : ℕ) → (c : ℕ) × (more : Bytes) × (to_string n ≡ c ∷ more)
unfolding to_string to_string_fuel
to_string-front n = elim (Bool-cases (ltb n 10)) [
  | inl digit ↦ (48 + n, [], rw (to_string_fuel, digit))
  | inr more ↦
      let (c, rest, e) = front_of (to_string_fuel 9 (n / 10)) (48 + n % 10) in
      (c, rest, rw (to_string_fuel, more) e)
]

pub skip_spaces-to_string :
    (n : ℕ) (rest : Bytes) → skip_spaces (b' ' ∷ (to_string n ++ rest)) ≡ to_string n ++ rest
skip_spaces-to_string n rest =
    let (c, more, e) = to_string-front n in
    rw e (unfold skip_spaces in skip_digit c (more ++ rest) ((rw e at (to_string-IsDigit n)).0))

pub read_number-to_string :
    (n : ℕ) (rest : Bytes)
    → n < 2 ^ 32
    → read_number 0 (to_string n ++ (b' ' ∷ rest)) ≡ done (n, b' ' ∷ rest)
read_number-to_string n rest h = rw (
  read_number-digits 0 (to_string n) rest (to_string-IsDigit n)
      (rw (sym (number_from-to_string n h)) at h),
  number_from-to_string n h,
)
