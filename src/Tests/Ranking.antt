-- ===== src/Tests/Ranking.antt =====
-- The positions that the ranker collects.
use amigos.Base.{ℕ, ◌+◌, ◌*◌, ◌/◌, ◌≡◌, refl, List, [], ◌∷◌, some, arith, All, min}
use amigos.Ranker.{get_positions_for_zone}
use amigos.Ranker.Positions.{InOrder, count, count_pair, get_positions_for_zone-InOrder}
use amigos.Ranker.Windows.{Floats, get_rank}
use amigos.Ranker.Windows.Ends.{IsWindow, total, get_rank-total}

-- Two entries with two zones each.
abbrev entries : List (List (List ℕ))
entries = ([] ∷ (2 ∷ 5 ∷ 9 ∷ []) ∷ []) ∷ ((1 ∷ []) ∷ (3 ∷ 5 ∷ []) ∷ []) ∷ []

get_positions_for_zone_test :
    get_positions_for_zone 1 [] entries ≡ some ((2, 0) ∷ (3, 1) ∷ (5, 1) ∷ (5, 0) ∷ (9, 0) ∷ [])
unfolding get_positions_for_zone
get_positions_for_zone_test = refl

get_positions_for_zone-InOrder_example :
    (positions : List (ℕ × ℕ)) × (get_positions_for_zone 1 [] entries ≡ some positions)
    × InOrder 0 positions
    × (count_pair 5 1 positions ≡ count 5 (3 ∷ 5 ∷ []))
get_positions_for_zone-InOrder_example =
    get_positions_for_zone-InOrder 1 entries ((2 ∷ 5 ∷ 9 ∷ []) ∷ (3 ∷ 5 ∷ []) ∷ []) 5 1 (3 ∷ 5 ∷ [])
      (refl, (refl, tt)) (omega arith) refl

-- Numbers in place of the floats.
abbrev numbers : Floats
numbers = record {
  F = ℕ;
  nought = 0;
  thousand = 1000;
  share = λ n m. 200 * n / m;
  plus = λ a b. a + b;
}

abbrev positions : List (ℕ × ℕ)
positions = (2, 0) ∷ (3, 1) ∷ (9, 1) ∷ (20, 0) ∷ (21, 1) ∷ []

get_rank_test : get_rank numbers positions 2 ≡ some 2100
unfolding get_rank
get_rank_test = refl

get_rank-total_example :
    (windows : List (ℕ × ℕ)) × (get_rank numbers positions 2
      ≡ some (total numbers positions (min 2 10) windows 0))
    × All (IsWindow positions (min 2 10)) windows
get_rank-total_example = get_rank-total numbers positions 2 (omega arith)
