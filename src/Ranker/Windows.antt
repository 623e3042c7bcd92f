-- ===== src/Ranker/Windows.antt =====
-- `get_rank` and `calculate_bonus` of projects/ranker/src/ranker.cpp: the sum over the windows of
-- positions that lie close together. The floats are a parameter.
pub mod Ends
use amigos.Base.{
  ℕ, zero, suc, ◌+◌, ◌-◌, ◌*◌, Bool, true, false, ◌&&◌, ◌||◌, List, [], ◌∷◌, Option, none, some,
  ltb, leb, ◌==◌, if◌then◌else◌, length, get_elem?, take, drop, min,
}

unfoldable pub has_word : ℕ → List (ℕ × ℕ) → Bool
has_word i [] = false
has_word i ((p, j) ∷ positions) = i == j || has_word i positions

-- The size of `wordsId_in_passage`.
unfoldable pub words_in_passage : List (ℕ × ℕ) → ℕ
unfolding has_word
words_in_passage [] = 0
words_in_passage ((p, i) ∷ positions) =
    (if has_word i positions then 0 else 1) + words_in_passage positions

-- `end_w->first - start_w->first < window_size`: a negative difference becomes a large unsigned
-- number.
unfoldable pub is_close : ℕ × ℕ → ℕ × ℕ → ℕ → Bool
is_close end start window_size = leb start.0 end.0 && ltb (end.0 - start.0) window_size

-- `share n m` stands for the float `200.0 * n / m`.
pub record Floats : Type 1 where
  pub F : Type 0
  pub nought : F
  pub thousand : F
  pub share : ℕ → ℕ → F
  pub plus : F → F → F

module _ (floats : Floats) where
  open floats use {F, nought, thousand, share, plus}

  unfoldable pub calculate_bonus : List (ℕ × ℕ) → ℕ → ℕ → ℕ → F
  unfolding words_in_passage
  calculate_bonus all_pos start_w end_w window_size =
      let size = words_in_passage (take (end_w - start_w) (drop start_w all_pos)) in
      if leb window_size size then thousand else share size window_size

  -- The loop, the two iterators as indices. `none` is a look at `end()`, or a loop that has not
  -- ended.
  unfoldable pub rank_loop : ℕ → List (ℕ × ℕ) → ℕ → ℕ → ℕ → F → Option F
  rank_loop zero all_pos window_size start_w end_w result = none
  rank_loop (suc fuel) all_pos window_size start_w end_w result = elim (get_elem? all_pos end_w) [
    | none ↦ some result
    | some end ↦ elim (get_elem? all_pos start_w) [
      | none ↦ none
      | some start ↦ elim (is_close end start window_size) [
        | true ↦ elim (get_elem? all_pos (suc end_w)) [
          | none ↦
              rank_loop fuel all_pos window_size start_w (suc end_w)
                (plus result (calculate_bonus all_pos start_w (suc end_w) window_size))
          | some next ↦ elim (is_close next start window_size) [
            | true ↦ rank_loop fuel all_pos window_size start_w (suc end_w) result
            | false ↦
                rank_loop fuel all_pos window_size (suc start_w) (suc end_w)
                  (plus result (calculate_bonus all_pos start_w (suc end_w) window_size))
          ]
        ]
        | false ↦ rank_loop fuel all_pos window_size (suc start_w) end_w result
      ]
    ]
  ]

  -- Each round moves an iterator forward.
  unfoldable pub get_rank : List (ℕ × ℕ) → ℕ → Option F
  unfolding rank_loop calculate_bonus is_close
  get_rank all_pos window_size =
      if length all_pos == 0
      then some nought
      else rank_loop (suc (2 * length all_pos)) all_pos (min window_size 10) 0 0 nought
