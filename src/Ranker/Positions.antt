-- ===== src/Ranker/Positions.antt =====
-- The positions are in order, and none is lost.
use amigos.Base.{
  ℕ, zero, suc, ◌+◌, ◌<◌, ◌≤◌, ◌≡◌, refl, ◌&&◌, if◌then◌else◌, List, [], ◌∷◌, some, arith, ltb,
  ltb→lt, ltb→le, ◌==◌, Bool-cases, inl, inr, All, get_elem?,
}
use mathlib.Core.Option.{some-injective}
use amigos.Ranker.{merge_position, merge_posting, merge_entries, get_positions_for_zone}

-- From `low` on, in order.
abbrev pub Ascending : ℕ → List ℕ → Type 0
Ascending low [] = Unit
Ascending low (w ∷ words) = (low ≤ w) × Ascending w words

abbrev pub InOrder : ℕ → List (ℕ × ℕ) → Type 0
InOrder low [] = Unit
InOrder low ((p, j) ∷ positions) = (low ≤ p) × InOrder p positions

-- How often a word position stands in a posting, and how often it stands with an entry's index.
abbrev pub count : ℕ → List ℕ → ℕ
count w [] = 0
count w (x ∷ words) = (if x == w then 1 else 0) + count w words

abbrev pub count_pair : ℕ → ℕ → List (ℕ × ℕ) → ℕ
count_pair w i [] = 0
count_pair w i ((p, j) ∷ positions) = (if p == w && j == i then 1 else 0) + count_pair w i positions

merge_position-InOrder :
    (w i : ℕ) (more : List (ℕ × ℕ) → List (ℕ × ℕ)) (low : ℕ) (positions : List (ℕ × ℕ))
    → ((later : List (ℕ × ℕ)) → InOrder w later → InOrder w (more later))
    → low ≤ w
    → InOrder low positions
    → InOrder low (merge_position w i more positions)
unfolding merge_position
merge_position-InOrder w i more low [] keeps le h = (le, keeps [] tt)
merge_position-InOrder w i more low ((p, j) ∷ positions) keeps le (lo, h) =
    elim (Bool-cases (ltb p w)) [
      | inl below ↦
          rw (merge_position, below)
            (
              lo,
              merge_position-InOrder w i more p positions keeps (omega (arith, ltb→lt p w below)) h,
            )
      | inr behind ↦
          rw (merge_position, behind) (le, keeps ((p, j) ∷ positions) (ltb→le p w behind, h))
    ]

merge_posting-InOrder :
    (words : List ℕ) (i low : ℕ) (positions : List (ℕ × ℕ))
    → Ascending low words
    → InOrder low positions
    → InOrder low (merge_posting words i positions)
unfolding merge_posting
merge_posting-InOrder [] i low positions a h = h
merge_posting-InOrder (w ∷ words) i low positions (le, a) h =
    merge_position-InOrder w i (merge_posting words i) low positions
      (λ later k. merge_posting-InOrder words i w later a k) le h

count_pair-merge_position :
    (w i v k n : ℕ) (more : List (ℕ × ℕ) → List (ℕ × ℕ)) (positions : List (ℕ × ℕ))
    → ((later : List (ℕ × ℕ)) → count_pair v k (more later) ≡ n + count_pair v k later)
    → count_pair v k (merge_position w i more positions)
      ≡ (if w == v && i == k then 1 else 0) + n + count_pair v k positions
unfolding merge_position
count_pair-merge_position w i v k n more [] adds = omega (arith, adds [])
count_pair-merge_position w i v k n more ((p, j) ∷ positions) adds = elim (Bool-cases (ltb p w)) [
  | inl below ↦
      rw (merge_position, below)
        (omega (arith, count_pair-merge_position w i v k n more positions adds))
  | inr behind ↦ rw (merge_position, behind) (omega (arith, adds ((p, j) ∷ positions)))
]

count_pair-merge_posting :
    (words : List ℕ) (i v k : ℕ) (positions : List (ℕ × ℕ))
    → count_pair v k (merge_posting words i positions)
      ≡ (if i == k then count v words else 0) + count_pair v k positions
unfolding merge_posting
count_pair-merge_posting [] i v k positions = ground arith
count_pair-merge_posting (w ∷ words) i v k positions =
    rw
      (count_pair-merge_position w i v k (if i == k then count v words else 0)
        (merge_posting words i) positions (λ later. count_pair-merge_posting words i v k later))
      (ground arith)

-- The words of the zone, one list for each entry.
abbrev pub AreWords : ℕ → List (List (List ℕ)) → List (List ℕ) → Type 0
AreWords zone_id [] [] = Unit
AreWords zone_id [] (words ∷ more) = ⊥
AreWords zone_id (postings ∷ entries) [] = ⊥
AreWords zone_id (postings ∷ entries) (words ∷ more) =
    (get_elem? postings zone_id ≡ some words) × AreWords zone_id entries more

merge_all : ℕ → List (List ℕ) → List (ℕ × ℕ) → List (ℕ × ℕ)
merge_all i [] positions = positions
merge_all i (words ∷ more) positions = merge_all (i + 1) more (merge_posting words i positions)

merge_entries-merge_all :
    (i zone_id : ℕ) (entries : List (List (List ℕ))) (all : List (List ℕ))
    (positions : List (ℕ × ℕ))
    → AreWords zone_id entries all
    → merge_entries i zone_id entries positions ≡ some (merge_all i all positions)
unfolding merge_entries merge_all
merge_entries-merge_all i zone_id [] [] positions h = refl
merge_entries-merge_all i zone_id [] (words ∷ more) positions h = absurd h
merge_entries-merge_all i zone_id (postings ∷ entries) [] positions h = absurd h
merge_entries-merge_all i zone_id (postings ∷ entries) (words ∷ more) positions (e, h) =
    rw e (merge_entries-merge_all (i + 1) zone_id entries more (merge_posting words i positions) h)

merge_all-InOrder :
    (i : ℕ) (all : List (List ℕ)) (positions : List (ℕ × ℕ))
    → All (Ascending 0) all
    → InOrder 0 positions
    → InOrder 0 (merge_all i all positions)
unfolding merge_all
merge_all-InOrder i [] positions a h = h
merge_all-InOrder i (words ∷ more) positions (a, as') h =
    merge_all-InOrder (i + 1) more (merge_posting words i positions) as'
      (merge_posting-InOrder words i 0 positions a h)

count_pair-merge_all_before :
    (i : ℕ) (all : List (List ℕ)) (positions : List (ℕ × ℕ)) (v k : ℕ)
    → k < i
    → count_pair v k (merge_all i all positions) ≡ count_pair v k positions
unfolding merge_all
count_pair-merge_all_before i [] positions v k h = refl
count_pair-merge_all_before i (words ∷ more) positions v k h =
    rw
      (count_pair-merge_all_before (i + 1) more (merge_posting words i positions) v k (omega arith))
      (rw (count_pair-merge_posting words i v k positions) (ground arith))

count_pair-merge_all :
    (i : ℕ) (all : List (List ℕ)) (positions : List (ℕ × ℕ)) (v d : ℕ) (words : List ℕ)
    → get_elem? all d ≡ some words
    → count_pair v (i + d) (merge_all i all positions)
      ≡ count v words + count_pair v (i + d) positions
unfolding merge_all
count_pair-merge_all i [] positions v d words h = absurd (ground arith)
count_pair-merge_all i (first ∷ more) positions v zero words h =
    rw
      (count_pair-merge_all_before (i + 1) more (merge_posting first i positions) v (i + 0)
        (omega arith))
      (rw (count_pair-merge_posting first i v (i + 0) positions, some-injective first words h)
        (ground arith))
count_pair-merge_all i (first ∷ more) positions v (suc d) words h =
    let next : i + suc d ≡ i + 1 + d = omega arith in
    rw next (
      rw (count_pair-merge_all (i + 1) more (merge_posting first i positions) v d words h)
        (rw (count_pair-merge_posting first i v (i + 1 + d) positions) (ground arith)))

-- Where every entry has a posting for the zone, whose positions ascend, `get_positions_for_zone`
-- ends with a list whose positions ascend, in which each position stands with the index of an entry
-- as often as it stands in the posting of this entry.
pub get_positions_for_zone-InOrder :
    (zone_id : ℕ) (entries : List (List (List ℕ))) (all : List (List ℕ)) (v d : ℕ) (words : List ℕ)
    → AreWords zone_id entries all
    → All (Ascending 0) all
    → get_elem? all d ≡ some words
    → (positions : List (ℕ × ℕ)) × (get_positions_for_zone zone_id [] entries ≡ some positions)
      × InOrder 0 positions
      × (count_pair v d positions ≡ count v words)
unfolding get_positions_for_zone
get_positions_for_zone-InOrder zone_id entries all v d words zoned ascending there = (
  merge_all 0 all [],
  merge_entries-merge_all 0 zone_id entries all [] zoned,
  merge_all-InOrder 0 all [] ascending tt,
  omega (
    arith,
    (let unit : 0 + d ≡ d = omega arith in
        rw unit at (count_pair-merge_all 0 all [] v d words there)),
  ),
)
