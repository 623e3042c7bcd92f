-- ===== src/Ranker.antt =====
-- projects/ranker/src/ranker.cpp: the positions at which the words of a query stand in a zone of a
-- document, each with the index of its word.
pub mod Positions
pub mod Windows
pub mod Draft
pub mod Bands
use amigos.Base.{
  ℕ, zero, suc, ◌+◌, true, false, List, [], ◌∷◌, Option, none, some, ltb, ◌>>=◌, get_elem?,
}

-- The list from the iterator on: it moves over smaller positions, then one position is inserted,
-- and `more` is what the loops do behind it.
merge_position : ℕ → ℕ → (List (ℕ × ℕ) → List (ℕ × ℕ)) → List (ℕ × ℕ) → List (ℕ × ℕ)
merge_position entry_pos i more [] = (entry_pos, i) ∷ more []
merge_position entry_pos i more ((p, j) ∷ positions) = elim (ltb p entry_pos) [
  | true ↦ (p, j) ∷ merge_position entry_pos i more positions
  | false ↦ (entry_pos, i) ∷ more ((p, j) ∷ positions)
]

-- Both loops over the words of one posting, for the `i`-th entry.
merge_posting : List ℕ → ℕ → List (ℕ × ℕ) → List (ℕ × ℕ)
merge_posting [] i positions = positions
merge_posting (entry_pos ∷ posting) i positions =
    merge_position entry_pos i (merge_posting posting i) positions

-- The loop over the entries from the `i`-th on, by the words of their postings. `none` is an entry
-- without a posting for the zone.
unfoldable pub merge_entries : ℕ → ℕ → List (List (List ℕ)) → List (ℕ × ℕ) → Option (List (ℕ × ℕ))
unfolding merge_posting merge_position
merge_entries i zone_id [] positions = some positions
merge_entries i zone_id (postings ∷ postings_by_entries) positions = do
  posting ← get_elem? postings zone_id
  merge_entries (i + 1) zone_id postings_by_entries (merge_posting posting i positions)

-- `get_positions_for_zone`, where `postings_by_entries` has one element for each entry.
unfoldable pub get_positions_for_zone :
    ℕ → List (ℕ × ℕ) → List (List (List ℕ)) → Option (List (ℕ × ℕ))
unfolding merge_entries
get_positions_for_zone zone_id positions postings_by_entries =
    merge_entries 0 zone_id postings_by_entries positions
