-- ===== src/Intersect.antt =====
-- projects/indexer/src/index_struct.cpp: `jump`, `intersectMore` and `Index::intersectEntries`,
-- which keep the documents that every word of a query occurs in. Positions in a vector are far
-- below 2 ^ 64 (an entry takes more than one byte), so their sums do not wrap around.
pub mod Order
pub mod Jump
pub mod Join
pub mod Laws
pub mod Entries
pub mod Rows
use amigos.Base.{
  ℕ, zero, suc, ◌+◌, ◌-◌, ◌%◌, min, Bool, true, false, ◌||◌, List, [], ◌∷◌, ◌++◌, Option, none,
  some, map, ltb, leb, ◌==◌, if◌then◌else◌, ◌>>=◌, length, get_elem?, resize,
}
use amigos.Entry.{Entry}

-- A position, the exception `NoMoreElements`, or a read outside of the vector.
pub data Jumped : Type 0 where
  found : ℕ → Jumped
  no_more_elements : Jumped
  fault : Jumped

-- The first loop of `jump`: by whole steps, while the entry there is not behind `doc`.
pub skip_ahead : ℕ → List Entry → ℕ → ℕ → ℕ → ℕ → Option (ℕ × ℕ)
skip_ahead zero vec doc step pos next_pos = none
skip_ahead (suc fuel) vec doc step pos next_pos = elim (get_elem? vec next_pos) [
  | none ↦ some (pos, next_pos)
  | some e ↦ elim (leb e.doc_id_offset doc) [
    | true ↦ skip_ahead fuel vec doc step next_pos (next_pos + step)
    | false ↦ some (pos, next_pos)
  ]
]

-- The second loop: one by one over at most `rounds` = `next_pos - pos` entries below `doc`.
pub advance : ℕ → List Entry → ℕ → ℕ → Option ℕ
advance zero vec doc pos = some pos
advance (suc rounds) vec doc pos = elim (get_elem? vec pos) [
  | none ↦ none
  | some e ↦ elim (ltb e.doc_id_offset doc) [
    | true ↦ advance rounds vec doc (suc pos)
    | false ↦ some pos
  ]
]

-- The test behind the loops.
pub settle : List Entry → ℕ → Option ℕ → Jumped
settle vec doc none = fault
settle vec doc (some pos) = elim (get_elem? vec pos) [
  | none ↦ fault
  | some e ↦ if ltb e.doc_id_offset doc then no_more_elements else found pos
]

-- From the two positions that the first loop leaves; `next_pos` is at most the last index.
pub land : List Entry → ℕ → ℕ → ℕ → Jumped
land vec doc pos next_pos = elim (get_elem? vec next_pos) [
  | none ↦ fault
  | some e ↦
      settle vec doc
        (if leb doc e.doc_id_offset then advance (next_pos - pos) vec doc pos else some pos)
]

-- On an empty vector `vec.size() - 1` wraps around in the source and is 0 here: either way the
-- first loop is passed over and the read behind it is out of range. `length vec + 1` rounds are
-- enough for the first loop, whose position grows by `step` in each.
unfoldable pub jump : List Entry → Entry → ℕ → ℕ → Jumped
unfolding skip_ahead advance settle land
jump vec entry pos step =
    elim (skip_ahead (suc (length vec)) vec entry.doc_id_offset step pos
      (min (pos + step) (length vec - 1))) [
        | none ↦ fault
        | some (pos', next_pos) ↦ land vec entry.doc_id_offset pos' (min next_pos (length vec - 1))
      ]

-- `v1[i] = common[i].front()`; the front of an empty vector is undefined.
unfoldable pub fronts : List (List Entry) → Option (List Entry)
fronts [] = some []
fronts ([] ∷ common) = none
fronts ((a ∷ as') ∷ common) = do v1 ← fronts common; some (a ∷ v1)

-- `while (42)`; `NoMoreElements` ends it with what was found so far.
pub intersect_loop :
    ℕ
    → List (List Entry)
    → List Entry
    → List Entry
    → ℕ
    → ℕ
    → ℕ
    → List (List Entry)
    → Option (List (List Entry))
intersect_loop zero common v1 v2 step i1 i2 res = none
intersect_loop (suc fuel) common v1 v2 step i1 i2 res = elim (get_elem? v1 i1) [
  | none ↦ none
  | some a ↦ elim (get_elem? v2 i2) [
    | none ↦ none
    | some b ↦ elim (ltb a.doc_id_offset b.doc_id_offset) [
      | true ↦ elim (jump v1 b i1 step) [
        | found p ↦ intersect_loop fuel common v1 v2 step p i2 res
        | no_more_elements ↦ some res
        | fault ↦ none
      ]
      | false ↦ elim (ltb b.doc_id_offset a.doc_id_offset) [
        | true ↦ elim (jump v2 a i2 step) [
          | found p ↦ intersect_loop fuel common v1 v2 step i1 p res
          | no_more_elements ↦ some res
          | fault ↦ none
        ]
        | false ↦ elim (get_elem? common i1) [
          | none ↦ none
          | some c ↦ elim (suc i1 == length v1 || suc i2 == length v2) [
            | true ↦ some (res ++ ((c ++ (b ∷ [])) ∷ []))
            | false ↦
                intersect_loop fuel common v1 v2 step (suc i1) (suc i2)
                  (res ++ ((c ++ (b ∷ [])) ∷ []))
          ]
        ]
      ]
    ]
  ]
]

unfoldable pub is_empty {ℓ} : {A : Type ℓ} → List A → Bool
is_empty [] = true
is_empty (x ∷ xs) = false

-- The result is what `res` points to behind the call. Each round moves a position forward, so
-- the two lengths and one more round are enough.
unfoldable pub intersect_more :
    List (List Entry) → List Entry → List (List Entry) → ℕ → Option (List (List Entry))
unfolding fronts intersect_loop jump is_empty
intersect_more common entries res step = do
  v1 ← fronts common
  if is_empty v1 || is_empty entries
      then some res
      else intersect_loop (suc (length v1 + length entries)) common v1 entries step 0 0 res

-- `for (i = 1; …)`: an odd round reads `output` and fills `tmp`, an even one the reverse.
pub intersect_rounds :
    List (List Entry)
    → ℕ
    → List (List Entry)
    → List (List Entry)
    → ℕ
    → Option (List (List Entry) × List (List Entry))
intersect_rounds [] i output tmp step = some (output, tmp)
intersect_rounds (entries ∷ input) i output tmp step = elim (i % 2 == 1) [
  | true ↦ do
    tmp' ← intersect_more output entries [] step
    intersect_rounds input (i + 1) output tmp' step
  | false ↦ do
    output' ← intersect_more tmp entries [] step
    intersect_rounds input (i + 1) output' tmp step
]

-- `(*output)[i].push_back(front[i])` for each index of the first list.
pub push_each : List Entry → List (List Entry) → List (List Entry)
push_each (e ∷ front) (row ∷ output) = (row ++ (e ∷ [])) ∷ push_each front output
push_each [] output = output
push_each (e ∷ front) [] = []

-- The result is what `output` points to behind the call.
unfoldable pub intersect_entries :
    List (List Entry) → List (List Entry) → Option (List (List Entry))
unfolding intersect_rounds push_each intersect_more resize
intersect_entries [] output = some output
intersect_entries (front ∷ input) output = do
  let first = push_each front (resize (length front) [] (output ++ ([] ∷ [])))
  (output', tmp) ← intersect_rounds input 1 first [] 100
  some (if (length input + 1) % 2 == 0 then tmp else output')
