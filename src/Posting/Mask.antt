-- ===== src/Posting/Mask.antt =====
-- The byte `inZone`: setting one zone's bit leaves the others, by a table of all bytes.
use Prim.Native.Nat.{bit_and, bit_or}
use amigos.Base.{
  ℕ, zero, suc, ◌+◌, ◌≤◌, ◌^◌, ◌<◌, ◌≡◌, refl, Bool, true, false, not, ◌&&◌, ◌||◌, List, [], ◌∷◌,
  arith, ltb, ◌==◌, length, ==_iff, Bool-cases, inl, inr,
}

-- The bit of zone `i` is set.
unfoldable pub has_zone : ℕ → ℕ → Bool
has_zone in_zone i = not (bit_and (2 ^ i) in_zone == 0)

abbrev same_bool : Bool → Bool → Bool
same_bool true b = b
same_bool false b = not b

-- A test of every number up to `last`, which is included.
every : (ℕ → Bool) → ℕ → Bool
every test zero = test zero
every test (suc last) = every test last && test (suc last)

every_holds :
    (test : ℕ → Bool) (last : ℕ) → every test last ≡ true → (m : ℕ) → m ≤ last → test m ≡ true
unfolding every
every_holds test zero ok m below = ground arith
every_holds test (suc last) ok m below = elim (Bool-cases (m == suc last)) [
  | inl top ↦ rw ((==_iff m (suc last)).0 top) (ground arith)
  | inr lower ↦ every_holds test last (ground arith) m (ground arith)
]

-- What is checked of a byte `m` and two zones.
abbrev sets_bit : ℕ → ℕ → ℕ → Bool
sets_bit i j m =
    ltb (bit_or m (2 ^ j)) 256
    && same_bool (not (bit_and (2 ^ i) (bit_or m (2 ^ j)) == 0))
        (i == j || not (bit_and (2 ^ i) m == 0))

table : every (λ i. every (λ j. every (sets_bit i j) 255) 7) 7 ≡ true
unfolding every
table = refl

sets_bit_lem : (i j m : ℕ) → i < 8 → j < 8 → m < 256 → sets_bit i j m ≡ true
sets_bit_lem i j m hi hj hm =
    let row = every_holds (λ i. every (λ j. every (sets_bit i j) 255) 7) 7 table i (omega arith) in
    let cell = every_holds (λ j. every (sets_bit i j) 255) 7 row j (omega arith) in
    every_holds (sets_bit i j) 255 cell m (omega arith)

pub bit_or-lt : (j m : ℕ) → j < 8 → m < 256 → bit_or m (2 ^ j) < 256
bit_or-lt j m hj hm = ground (arith, sets_bit_lem 0 j m)

pub has_zone-bit_or :
    (i j m : ℕ) → i < 8 → j < 8 → m < 256 → has_zone (bit_or m (2 ^ j)) i ≡ (i == j || has_zone m i)
unfolding has_zone
has_zone-bit_or i j m hi hj hm = ground (arith, sets_bit_lem i j m hi hj hm)

-- Bits from zone `j` on: set for each part that is not empty.
abbrev pub is_cons {ℓ} : {A : Type ℓ} → List A → Bool
is_cons [] = false
is_cons (x ∷ xs) = true

abbrev pub mask_from : ℕ → List (List ℕ) → ℕ → ℕ
mask_from j [] m = m
mask_from j ([] ∷ parts) m = mask_from (j + 1) parts m
mask_from j ((r ∷ rs) ∷ parts) m = mask_from (j + 1) parts (bit_or m (2 ^ j))

-- Zones in front of `j` keep their bits.
has_zone-mask_from_below :
    (i j : ℕ) (parts : List (List ℕ)) (m : ℕ)
    → i < j
    → j + length parts ≤ 8
    → m < 256
    → has_zone (mask_from j parts m) i ≡ has_zone m i
has_zone-mask_from_below i j [] m lt n hm = refl
has_zone-mask_from_below i j ([] ∷ parts) m lt n hm =
    has_zone-mask_from_below i (j + 1) parts m (omega arith) (omega arith) hm
has_zone-mask_from_below i j ((r ∷ rs) ∷ parts) m lt n hm = ground (
  arith,
  has_zone-mask_from_below i (j + 1) parts (bit_or m (2 ^ j)) (omega arith) (omega arith)
      (bit_or-lt j m (omega arith) hm),
  has_zone-bit_or i j m (omega arith) (omega arith) hm,
)

-- No bit from `j` on is set yet.
abbrev pub IsClear : ℕ → ℕ → Type 0
IsClear j m = (i : ℕ) → j ≤ i → i < 8 → has_zone m i ≡ false

no_bits : every (λ i. bit_and (2 ^ i) 0 == 0) 7 ≡ true
unfolding every
no_bits = refl

pub IsClear-zero : IsClear 0 0
unfolding has_zone
IsClear-zero i lo hi =
    ground (arith, every_holds (λ i. bit_and (2 ^ i) 0 == 0) 7 no_bits i (omega arith))

pub has_zone-mask_from_empty :
    (j : ℕ) (parts : List (List ℕ)) (m : ℕ)
    → j + suc (length parts) ≤ 8
    → m < 256
    → IsClear j m
    → has_zone (mask_from j ([] ∷ parts) m) j ≡ false
has_zone-mask_from_empty j parts m n hm clear =
    rw (has_zone-mask_from_below j (j + 1) parts m (omega arith) (omega arith) hm)
      (clear j (omega arith) (omega arith))

pub has_zone-mask_from_cons :
    (j r : ℕ) (rs : List ℕ) (parts : List (List ℕ)) (m : ℕ)
    → j + suc (length parts) ≤ 8
    → m < 256
    → has_zone (mask_from j ((r ∷ rs) ∷ parts) m) j ≡ true
has_zone-mask_from_cons j r rs parts m n hm =
    rw
      (has_zone-mask_from_below j (j + 1) parts (bit_or m (2 ^ j)) (omega arith) (omega arith)
        (bit_or-lt j m (omega arith) hm))
      (rw (has_zone-bit_or j j m (omega arith) (omega arith) hm) (ground arith))

pub IsClear-bit_or : (j m : ℕ) → j < 8 → m < 256 → IsClear j m → IsClear (j + 1) (bit_or m (2 ^ j))
IsClear-bit_or j m hj hm clear i lo hi =
    ground (arith, has_zone-bit_or i j m hi hj hm, clear i (omega arith) hi)
