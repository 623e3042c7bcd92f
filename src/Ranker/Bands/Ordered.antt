-- ===== src/Ranker/Bands/Ordered.antt =====
-- The documents stand in three bands by the rank of their titles, each in the order of the rank of
-- the subtitles.
use amigos.Base.{
  ℕ, zero, suc, ◌≡◌, refl, Bool, true, false, List, [], ◌∷◌, ◌++◌, All, All-mono, inl, inr, take,
  drop, Bool-cases,
}
use amigos.Ranker.Bands.{Bands, title_only_more, comp_title, comp_subs, title_bound, sort_bands}

-- No element compares in front of an earlier one.
abbrev pub IsOrdered : {A : Type 0} → (A → A → Bool) → List A → Type 0
IsOrdered cmp [] = Unit
IsOrdered cmp (x ∷ xs) = All (λ y. cmp y x ≡ false) xs × IsOrdered cmp xs

-- What is relied on of `std::sort` for a comparison: the result is in order, and what holds of all
-- elements holds of all of the result.
abbrev pub Sorts : {A : Type 0} → (List A → List A) → (A → A → Bool) → Type 1
Sorts {A} sort cmp =
    (xs : List A) → IsOrdered cmp (sort xs) × ((P : A → Type 0) → All P xs → All P (sort xs))

pub All-take : {A : Type 0} (P : A → Type 0) (n : ℕ) (xs : List A) → All P xs → All P (take n xs)
All-take P zero xs h = tt
All-take P (suc n) [] h = tt
All-take P (suc n) (x ∷ xs) (h, hs) = (h, All-take P n xs hs)

pub All-drop : {A : Type 0} (P : A → Type 0) (n : ℕ) (xs : List A) → All P xs → All P (drop n xs)
All-drop P zero xs h = h
All-drop P (suc n) [] h = tt
All-drop P (suc n) (x ∷ xs) (h, hs) = All-drop P n xs hs

All-drop-take :
    {A : Type 0} (P : A → Type 0) (m n : ℕ) (xs : List A)
    → All P (drop m xs)
    → All P (drop m (take n xs))
All-drop-take P zero n xs h = All-take P n xs h
All-drop-take P (suc m) zero xs h = tt
All-drop-take P (suc m) (suc n) [] h = tt
All-drop-take P (suc m) (suc n) (x ∷ xs) h = All-drop-take P m n xs h

module _ (bands : Bands) where
  open bands use {floats, greater, at_least, sort}
  open floats use {F}

  take-title_bound :
      (val : ℕ) (ranks : List (ℕ × F × F))
      → All (λ r. at_least r.1 val ≡ true) (take (title_bound bands val ranks) ranks)
  unfolding title_bound title_only_more
  take-title_bound val [] = tt
  take-title_bound val (r ∷ ranks) = elim (Bool-cases (at_least r.1 val)) [
    | inl above ↦ rw (title_bound, title_only_more, above) (above, take-title_bound val ranks)
    | inr below ↦ rw (title_bound, title_only_more, below) tt
  ]

  drop-title_bound :
      (val : ℕ) (ranks : List (ℕ × F × F))
      → ((x y : F) → greater y x ≡ false → at_least x val ≡ false → at_least y val ≡ false)
      → IsOrdered (comp_title bands) ranks
      → All (λ r. at_least r.1 val ≡ false) (drop (title_bound bands val ranks) ranks)
  unfolding title_bound title_only_more comp_title
  drop-title_bound val [] law h = tt
  drop-title_bound val (r ∷ ranks) law (h, hs) = elim (Bool-cases (at_least r.1 val)) [
    | inl above ↦ rw (title_bound, title_only_more, above) (drop-title_bound val ranks law hs)
    | inr below ↦
        rw (title_bound, title_only_more, below)
          (
            below,
            All-mono (λ y. greater y.1 r.1 ≡ false) (λ y. at_least y.1 val ≡ false) ranks
                (λ y k. law r.1 y.1 k below) h,
          )
  ]

-- The list of the ranked documents, sorted by the titles in front, comes in three parts: the
-- documents whose titles reach 5000, those whose titles reach 500 only, and the rest. Within each
-- part no document stands behind one with a smaller rank of the subtitles. It relies on `std::sort`
-- for the two comparisons, and on a float below a number being below it still where it is not
-- greater.
pub sort_bands_lem :
    (bands : Bands) (ranks : List (ℕ × bands.floats.F × bands.floats.F))
    → Sorts (bands.sort (comp_title bands)) (comp_title bands)
    → Sorts (bands.sort (comp_subs bands)) (comp_subs bands)
    → ((val : ℕ) (x y : bands.floats.F)
        → bands.greater y x ≡ false
        → bands.at_least x val ≡ false
        → bands.at_least y val ≡ false)
    → (high middle low : List (ℕ × bands.floats.F × bands.floats.F)) × (sort_bands bands
          (bands.sort (comp_title bands) ranks)
        ≡ high ++ (middle ++ low))
      × All (λ r. bands.at_least r.1 5000 ≡ true) high
      × All (λ r. bands.at_least r.1 5000 ≡ false) middle
      × All (λ r. bands.at_least r.1 500 ≡ true) middle
      × All (λ r. bands.at_least r.1 500 ≡ false) low
      × IsOrdered (comp_subs bands) high
      × IsOrdered (comp_subs bands) middle
      × IsOrdered (comp_subs bands) low
unfolding sort_bands
sort_bands_lem bands ranks by_title by_subs law =
    let sorted = bands.sort (comp_title bands) ranks in
    let order = (by_title ranks).0 in
    let it1 = title_bound bands 5000 sorted in
    let it2 = title_bound bands 500 sorted in
    let high = take it1 sorted in
    let middle = drop it1 (take it2 sorted) in
    let low = drop it2 sorted in
    (
      bands.sort (comp_subs bands) high,
      bands.sort (comp_subs bands) middle,
      bands.sort (comp_subs bands) low,
      refl,
      (by_subs high).1 _ (take-title_bound bands 5000 sorted),
      (by_subs middle).1 _
          (All-drop-take _ it1 it2 sorted (drop-title_bound bands 5000 sorted (law 5000) order)),
      (by_subs middle).1 _ (All-drop _ it1 (take it2 sorted) (take-title_bound bands 500 sorted)),
      (by_subs low).1 _ (drop-title_bound bands 500 sorted (law 500) order),
      (by_subs high).0,
      (by_subs middle).0,
      (by_subs low).0,
    )
