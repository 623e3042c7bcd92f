-- ===== src/DocDb/Key.antt =====
-- The decimal digits of a key determine it.
use amigos.Base.{
  ℕ, zero, suc, ◌+◌, ◌-◌, ◌*◌, ◌/◌, ◌%◌, ◌^◌, ◌<◌, ◌≡◌, refl, sym, ap, ◌∙◌, [], ◌∷◌, ◌++◌, ltb,
  Bool-cases, inl, inr, arith,
}
use amigos.DocDb.{Bytes, to_string_fuel, to_string}

-- The number that decimal digits stand for, behind a number read so far.
unfoldable pub number_from : ℕ → Bytes → ℕ
number_from acc [] = acc
number_from acc (c ∷ digits) = number_from (10 * acc + (c - 48)) digits

number_from-concat :
    (acc : ℕ) (digits : Bytes) (c : ℕ)
    → number_from acc (digits ++ (c ∷ [])) ≡ 10 * number_from acc digits + (c - 48)
unfolding number_from
number_from-concat acc [] c = refl
number_from-concat acc (d ∷ digits) c = number_from-concat (10 * acc + (d - 48)) digits c

pub number_from-to_string_fuel :
    (fuel n : ℕ) → n < 10 ^ fuel → number_from 0 (to_string_fuel fuel n) ≡ n
unfolding to_string_fuel
number_from-to_string_fuel zero n h = unfold number_from in omega arith
number_from-to_string_fuel (suc fuel) n h = elim (Bool-cases (ltb n 10)) [
  | inl digit ↦ rw (digit, to_string_fuel) (unfold number_from in omega arith)
  | inr more ↦
      rw (more, to_string_fuel)
        (rw (number_from-concat 0 (to_string_fuel fuel (n / 10)) (48 + n % 10))
          (rw (number_from-to_string_fuel fuel (n / 10) (grind arith)) (omega arith)))
]

pub number_from-to_string : (n : ℕ) → n < 2 ^ 32 → number_from 0 (to_string n) ≡ n
unfolding to_string
number_from-to_string n h = number_from-to_string_fuel 10 n (omega arith)

-- Two 32-bit keys with one decimal spelling are one key.
pub to_string_injective : (m n : ℕ) → m < 2 ^ 32 → n < 2 ^ 32 → to_string m ≡ to_string n → m ≡ n
unfolding to_string
to_string_injective m n hm hn e =
    sym (number_from-to_string_fuel 10 m (omega arith))
    ∙ ap (number_from 0) e
    ∙ number_from-to_string_fuel 10 n (omega arith)
