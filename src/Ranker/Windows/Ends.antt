-- ===== src/Ranker/Windows/Ends.antt =====
-- `get_rank` ends, and adds up the bonuses of windows.
use amigos.Base.{
  ℕ, zero, suc, ◌+◌, ◌-◌, ◌*◌, ◌<◌, ◌≤◌, ◌≡◌, refl, true, false, List, [], ◌∷◌, none, some, arith,
  min, ==_iff, sym, ◌∙◌, Bool-cases, Option-cases, inl, inr, length, get_elem?, All, ◌==◌,
}
use mathlib.Core.Option.{some-injective}
use amigos.Ranker.Windows.{is_close, Floats, calculate_bonus, rank_loop, get_rank}

-- The positions from `start` on and before `end`: at least one, and the last is close to the first.
pub record IsWindow (all_pos : List (ℕ × ℕ)) (window_size : ℕ) (w : ℕ × ℕ) : Type 0 where
  pub last : ℕ
  pub is_last : w.1 ≡ suc last
  pub starts : w.0 ≤ last
  pub first_pos : ℕ × ℕ
  pub last_pos : ℕ × ℕ
  pub is_first_pos : get_elem? all_pos w.0 ≡ some first_pos
  pub is_last_pos : get_elem? all_pos last ≡ some last_pos
  pub close : (first_pos.0 ≤ last_pos.0) × (last_pos.0 - first_pos.0 < window_size)

some_in : (xs : List (ℕ × ℕ)) (i : ℕ) (x : ℕ × ℕ) → get_elem? xs i ≡ some x → i < length xs
some_in [] i x h = absurd (ground arith)
some_in (y ∷ xs) zero x h = omega arith
some_in (y ∷ xs) (suc i) x h = omega (arith, some_in xs i x h)

none_out : (xs : List (ℕ × ℕ)) (i : ℕ) → get_elem? xs i ≡ none → length xs ≤ i
none_out [] i h = omega arith
none_out (y ∷ xs) zero h = absurd (ground arith)
none_out (y ∷ xs) (suc i) h = omega (arith, none_out xs i h)

is_close-lt : (e s : ℕ × ℕ) (n : ℕ) → is_close e s n ≡ true → (s.0 ≤ e.0) × (e.0 - s.0 < n)
unfolding is_close
is_close-lt (e, i) (s, j) n h = ground arith

is_close-same : (e : ℕ × ℕ) (n : ℕ) → 0 < n → is_close e e n ≡ true
unfolding is_close
is_close-same (e, i) n h = ground arith

far-apart :
    (xs : List (ℕ × ℕ)) (s e : ℕ) (first last : ℕ × ℕ) (n : ℕ)
    → get_elem? xs s ≡ some first
    → get_elem? xs e ≡ some last
    → is_close last first n ≡ false
    → 0 < n
    → s ≤ e
    → s < e
far-apart xs s e first last n gs ge far pos le = elim (Bool-cases (s == e)) [
  | inl same ↦
      let same_pos : last ≡ first =
        some-injective last first (sym ge ∙ rw ((==_iff s e).0 same) at gs) in
      absurd (let h = rw (is_close-same first n pos) at (rw same_pos at far) in ground arith)
  | inr differ ↦ ground arith
]

window :
    (xs : List (ℕ × ℕ)) (s e : ℕ) (first last : ℕ × ℕ) (n : ℕ)
    → get_elem? xs s ≡ some first
    → get_elem? xs e ≡ some last
    → is_close last first n ≡ true
    → s ≤ e
    → IsWindow xs n (s, suc e)
window xs s e first last n gs ge near le = record {
  last = e;
  is_last = refl;
  starts = le;
  first_pos = first;
  last_pos = last;
  is_first_pos = gs;
  is_last_pos = ge;
  close = is_close-lt last first n near;
}

module _ (floats : Floats) where
  open floats use {F, nought, plus}

  -- The bonuses of windows, added up from the first on.
  abbrev pub total : List (ℕ × ℕ) → ℕ → List (ℕ × ℕ) → F → F
  total all_pos n [] result = result
  total all_pos n ((s, e) ∷ windows) result =
      total all_pos n windows (plus result (calculate_bonus floats all_pos s e n))

  rank_loop-total :
      (fuel : ℕ) (xs : List (ℕ × ℕ)) (n s e : ℕ) (result : F)
      → 0 < n
      → s ≤ e
      → e ≤ length xs
      → 2 * length xs < fuel + (s + e)
      → (windows : List (ℕ × ℕ)) × (rank_loop floats fuel xs n s e result
          ≡ some (total xs n windows result))
        × All (IsWindow xs n) windows
  unfolding rank_loop
  rank_loop-total zero xs n s e result pos le top enough = absurd (omega arith)
  rank_loop-total (suc fuel) xs n s e result pos le top enough =
      elim (Option-cases (get_elem? xs e)) [
        | inl out ↦ ([], rw (rank_loop, out), tt)
        | inr (last, ge) ↦ elim (Option-cases (get_elem? xs s)) [
          | inl out ↦ absurd (omega (arith, none_out xs s out, some_in xs e last ge))
          | inr (first, gs) ↦
              let inside : e < length xs = some_in xs e last ge in
              elim (Bool-cases (is_close last first n)) [
                | inl near ↦ elim (Option-cases (get_elem? xs (suc e))) [
                  | inl end ↦
                      let (ws, run, ok) =
                        rank_loop-total fuel xs n s (suc e)
                          (plus result (calculate_bonus floats xs s (suc e) n)) pos (omega arith)
                          (omega arith) (omega arith) in
                      (
                        (s, suc e) ∷ ws,
                        rw (rank_loop, ge, gs, near, end) run,
                        (window xs s e first last n gs ge near le, ok),
                      )
                  | inr (next, gn) ↦ elim (Bool-cases (is_close next first n)) [
                    | inl on ↦
                        let (ws, run, ok) =
                          rank_loop-total fuel xs n s (suc e) result pos (omega arith) (omega arith)
                            (omega arith) in
                        (ws, rw (rank_loop, ge, gs, near, gn, on) run, ok)
                    | inr off ↦
                        let (ws, run, ok) =
                          rank_loop-total fuel xs n (suc s) (suc e)
                            (plus result (calculate_bonus floats xs s (suc e) n)) pos (omega arith)
                            (omega arith) (omega arith) in
                        (
                          (s, suc e) ∷ ws,
                          rw (rank_loop, ge, gs, near, gn, off) run,
                          (window xs s e first last n gs ge near le, ok),
                        )
                  ]
                ]
                | inr far ↦
                    let apart : s < e = far-apart xs s e first last n gs ge far pos le in
                    let (ws, run, ok) =
                      rank_loop-total fuel xs n (suc s) e result pos (omega arith) (omega arith)
                        (omega arith) in
                    (ws, rw (rank_loop, ge, gs, far) run, ok)
              ]
        ]
      ]

  -- For at least one word, `get_rank` ends on every list of positions, without a look behind the
  -- list. The rank is the sum of the bonuses of windows, and in each of these the last position is
  -- not in front of the first and less than the number of words, ten at most, behind it.
  pub get_rank-total :
      (all_pos : List (ℕ × ℕ)) (window_size : ℕ)
      → 0 < window_size
      → (windows : List (ℕ × ℕ)) × (get_rank floats all_pos window_size
          ≡ some (total all_pos (min window_size 10) windows nought))
        × All (IsWindow all_pos (min window_size 10)) windows
  unfolding get_rank
  get_rank-total [] window_size pos = ([], refl, tt)
  get_rank-total (x ∷ xs) window_size pos =
      let nonempty : (suc (length xs) == 0) ≡ false = ground arith in
      let (windows, run, ok) =
        rank_loop-total (suc (2 * length (x ∷ xs))) (x ∷ xs) (min window_size 10) 0 0 nought
          (omega arith) (omega arith) (omega arith) (omega arith) in
      (windows, rw nonempty run, ok)
