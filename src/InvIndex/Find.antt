-- ===== src/InvIndex/Find.antt =====
-- `findTknIdx`: the binary search finds what a walk through the items finds.
use amigos.Base.{
  ℕ, zero, suc, ◌+◌, ◌-◌, ◌/◌, ◌^◌, ◌<◌, ◌≤◌, ◌≡◌, refl, sym, ap, List, [], ◌∷◌, Option, none, some,
  arith, true, false, ltb, ltb→lt, ltb→le, lt→ltb, ◌==◌, if◌then◌else◌, Bool-cases, inl, inr,
  length, All, get_elem?, ◌>>=◌,
}
use mathlib.Core.Option.{some-injective}
use amigos.InvIndex.{InvIdxItem, lower_bound, find_tkn_idx}

module _ {D : Type 0} where
  -- The items stand in the order of their tokens, each token once.
  abbrev pub IsSorted : List (InvIdxItem D) → Type 0
  IsSorted [] = Unit
  IsSorted (x ∷ xs) = All (λ y. x.tok_id < y.tok_id) xs × IsSorted xs

  -- How many items in front have a token below `tok`.
  count_below : ℕ → List (InvIdxItem D) → ℕ
  count_below tok [] = 0
  count_below tok (x ∷ xs) = elim (ltb x.tok_id tok) [ true ↦ suc (count_below tok xs) | false ↦ 0 ]

  -- The index of `tok` by a walk through the items, the first of which has the index `i`: the first
  -- item that is not below decides.
  abbrev pub walk : ℕ → ℕ → List (InvIdxItem D) → Option ℕ
  walk tok i [] = none
  walk tok i (x ∷ xs) =
      if ltb x.tok_id tok
      then walk tok (suc i) xs
      else if x.tok_id == tok
      then some i
      else some (2 ^ 32 - 1)

  get_elem?-below :
      (xs : List (InvIdxItem D)) (i : ℕ)
      → i < length xs
      → (x : InvIdxItem D) × (get_elem? xs i ≡ some x)
  get_elem?-below [] i h = absurd (omega arith)
  get_elem?-below (x ∷ xs) zero h = (x, refl)
  get_elem?-below (x ∷ xs) (suc i) h = get_elem?-below xs i (omega arith)

  All-get_elem? :
      (P : InvIdxItem D → Type 0) (xs : List (InvIdxItem D)) (i : ℕ) (x : InvIdxItem D)
      → All P xs
      → get_elem? xs i ≡ some x
      → P x
  All-get_elem? P [] i x h e = absurd (ground arith)
  All-get_elem? P (y ∷ xs) zero x (h, hs) e = rw (sym (some-injective y x e)) h
  All-get_elem? P (y ∷ xs) (suc i) x (h, hs) e = All-get_elem? P xs i x hs e

  count_below-length : (tok : ℕ) (xs : List (InvIdxItem D)) → count_below tok xs ≤ length xs
  unfolding count_below
  count_below-length tok [] = omega arith
  count_below-length tok (x ∷ xs) = ground (arith, count_below-length tok xs)

  -- An item below is one of those counted.
  lt-count_below :
      (tok : ℕ) (xs : List (InvIdxItem D)) (i : ℕ) (x : InvIdxItem D)
      → IsSorted xs
      → get_elem? xs i ≡ some x
      → x.tok_id < tok
      → i < count_below tok xs
  unfolding count_below
  lt-count_below tok [] i x s e h = absurd (ground arith)
  lt-count_below tok (y ∷ xs) zero x s e h =
      let same : y.tok_id ≡ x.tok_id = ap (λ x. x.tok_id) (some-injective y x e) in
      rw (count_below, lt→ltb y.tok_id tok (omega arith)) (omega arith)
  lt-count_below tok (y ∷ xs) (suc i) x (low, s) e h =
      let first : y.tok_id < x.tok_id = All-get_elem? (λ z. y.tok_id < z.tok_id) xs i x low e in
      rw (count_below, lt→ltb y.tok_id tok (omega arith))
        (omega (arith, lt-count_below tok xs i x s e h))

  -- An item that is not below is behind those counted.
  count_below-le :
      (tok : ℕ) (xs : List (InvIdxItem D)) (i : ℕ) (x : InvIdxItem D)
      → get_elem? xs i ≡ some x
      → tok ≤ x.tok_id
      → count_below tok xs ≤ i
  unfolding count_below
  count_below-le tok [] i x e h = omega arith
  count_below-le tok (y ∷ xs) zero x e h =
      let same : y.tok_id ≡ x.tok_id = ap (λ x. x.tok_id) (some-injective y x e) in ground arith
  count_below-le tok (y ∷ xs) (suc i) x e h = ground (arith, count_below-le tok xs i x e h)

  lower_bound-count_below :
      (fuel : ℕ) (xs : List (InvIdxItem D)) (tok first len : ℕ)
      → IsSorted xs
      → len < fuel
      → first ≤ count_below tok xs
      → count_below tok xs ≤ first + len
      → first + len ≤ length xs
      → lower_bound fuel xs tok first len ≡ some (count_below tok xs)
  unfolding lower_bound
  lower_bound-count_below zero xs tok first len s f lo hi top = absurd (omega arith)
  lower_bound-count_below (suc fuel) xs tok first zero s f lo hi top = ap some (omega arith)
  lower_bound-count_below (suc fuel) xs tok first (suc len) s f lo hi top =
      let (x, found) = get_elem?-below xs (first + suc len / 2) (omega arith) in
      rw (lower_bound, found)
        (elim (Bool-cases (ltb x.tok_id tok)) [
          | inl below ↦
              let moved =
                lt-count_below tok xs (first + suc len / 2) x s found (ltb→lt x.tok_id tok below) in
              rw below (
                lower_bound-count_below fuel xs tok (first + suc len / 2 + 1)
                  (suc len - suc len / 2 - 1) s (omega arith) (omega arith) (omega arith)
                  (omega arith))
          | inr behind ↦
              let kept =
                count_below-le tok xs (first + suc len / 2) x found (ltb→le x.tok_id tok behind) in
              rw behind (
                lower_bound-count_below fuel xs tok first (suc len / 2) s (omega arith) lo
                  (omega arith) (omega arith))
        ])

  walk-count_below :
      (tok i : ℕ) (xs : List (InvIdxItem D))
      → walk tok i xs ≡ (do
        item ← get_elem? xs (count_below tok xs)
        some (if item.tok_id == tok then i + count_below tok xs else 2 ^ 32 - 1))
  unfolding count_below
  walk-count_below tok i [] = refl
  walk-count_below tok i (x ∷ xs) = elim (Bool-cases (ltb x.tok_id tok)) [
    | inl below ↦
        rw (below, count_below)
          (let moved : suc i + count_below tok xs ≡ i + suc (count_below tok xs) = omega arith in
            rw (walk-count_below tok (suc i) xs, moved))
    | inr behind ↦
        rw (behind, count_below)
          (let kept : i + 0 ≡ i = omega arith in
            rw kept
              (elim (Bool-cases (x.tok_id == tok)) [ inl same ↦ rw same | inr differ ↦ rw differ ]))
  ]

  -- On items in the order of their tokens, `findTknIdx` ends, and returns what a walk from the front
  -- does: the index of the item with the token; `unexistingToken` where there is none and some item
  -- has a larger token; where all tokens are smaller, it reads behind the last item.
  pub find_tkn_idx-walk :
      (inv_idx : List (InvIdxItem D)) (hash : ℕ)
      → IsSorted inv_idx
      → find_tkn_idx inv_idx hash ≡ walk hash 0 inv_idx
  unfolding find_tkn_idx
  find_tkn_idx-walk inv_idx hash s =
      rw
        (lower_bound-count_below (suc (length inv_idx)) inv_idx hash 0 (length inv_idx) s
          (omega arith) (omega arith) (omega (arith, count_below-length hash inv_idx))
          (omega arith))
        (let unit : 0 + count_below hash inv_idx ≡ count_below hash inv_idx = omega arith in
          rw (walk-count_below hash 0 inv_idx, unit))
