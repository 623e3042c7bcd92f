-- ===== src/Intersect/Laws.antt =====
-- `intersectMore` and `intersectEntries` compute the nested-loop join.
use amigos.Base.{
  ℕ, zero, suc, ◌+◌, ◌-◌, ◌≤◌, ◌<◌, ◌≡◌, ◌∙◌, inl, inr, true, false, ◌||◌, List, [], ◌∷◌, ◌++◌,
  some, arith, length, get_elem?, drop, All, All-mono, ◌==◌, ==_iff, ltb, ltb→lt, ltb→le,
  Bool-cases, if◌then◌else◌, append-nil, append_assoc,
}
use amigos.Entry.{Entry}
use amigos.Intersect.{found, jump, fronts, intersect_loop, intersect_more, is_empty}
use amigos.Intersect.Order.{Ascending, get_elem?-doc_at, drop-step, drop_all, drop-Ascending}
use amigos.Intersect.Jump.{Before, Lands, Lands-lt, Jumped-cases, jump-Lands}
use amigos.Intersect.Join.{
  join, Fronts, fronts-Fronts, Fronts-drop, Fronts-get_elem?, join_match, join_skip_entries,
  join_skip_rows, join_no_entries, join_no_rows,
}

-- The entries behind a position, and those from it on.
after_lt :
    (es : List Entry) (i : ℕ) {e : Entry}
    → Ascending es
    → get_elem? es i ≡ some e
    → All (λ x. e.doc_id_offset < x.doc_id_offset) (drop (suc i) es)
after_lt es i asc got = (rw (drop-step es i got) at (drop-Ascending es i asc)).0

from_le :
    (es : List Entry) (i : ℕ) {e : Entry}
    → Ascending es
    → get_elem? es i ≡ some e
    → All (λ x. e.doc_id_offset ≤ x.doc_id_offset) (drop i es)
from_le es i {e} asc got = rw (drop-step es i got) (
  omega arith,
  All-mono (λ x. e.doc_id_offset < x.doc_id_offset) (λ x. e.doc_id_offset ≤ x.doc_id_offset)
      (drop (suc i) es) (λ x h. omega arith) (after_lt es i asc got),
)

module _ (common : List (List Entry)) (v1 v2 : List Entry) (step : ℕ) (f : Fronts common v1)
    (asc1 : Ascending v1) (asc2 : Ascending v2) (grows : 0 < step) where
  -- A jump on the rows, to an entry `b`.
  left_found :
      (i1 i2 p : ℕ) (b : Entry)
      → get_elem? v2 i2 ≡ some b
      → Lands v1 b.doc_id_offset i1 (found p)
      → join (drop i1 common) (drop i2 v2) ≡ join (drop p common) (drop i2 v2)
  left_found i1 i2 p b got (lo, hi, at, before) =
      join_skip_rows (drop i2 v2) b.doc_id_offset (p - i1) i1 p (omega arith) (omega arith) before f
        (from_le v2 i2 asc2 got)

  left_ended :
      (i1 i2 : ℕ) (b : Entry)
      → get_elem? v2 i2 ≡ some b
      → i1 < length v1
      → Before v1 b.doc_id_offset i1 (length v1)
      → join (drop i1 common) (drop i2 v2) ≡ []
  left_ended i1 i2 b got r before =
      join_skip_rows (drop i2 v2) b.doc_id_offset (length v1 - i1) i1 (length v1) (omega arith)
        (omega arith) before f (from_le v2 i2 asc2 got)
      ∙ join_no_rows v1 (drop i2 v2) f

  right_found :
      (i1 i2 p : ℕ) (a : Entry)
      → get_elem? v1 i1 ≡ some a
      → Lands v2 a.doc_id_offset i2 (found p)
      → join (drop i1 common) (drop i2 v2) ≡ join (drop i1 common) (drop p v2)
  right_found i1 i2 p a got (lo, hi, at, before) =
      join_skip_entries v2 a.doc_id_offset (p - i2) i2 p (omega arith) (omega arith) before
        (Fronts-drop i1 f) (from_le v1 i1 asc1 got)

  right_ended :
      (i1 i2 : ℕ) (a : Entry)
      → get_elem? v1 i1 ≡ some a
      → i2 < length v2
      → Before v2 a.doc_id_offset i2 (length v2)
      → join (drop i1 common) (drop i2 v2) ≡ []
  right_ended i1 i2 a got r before =
      join_skip_entries v2 a.doc_id_offset (length v2 - i2) i2 (length v2) (omega arith)
        (omega arith) before (Fronts-drop i1 f) (from_le v1 i1 asc1 got)
      ∙ rw (drop_all v2 (length v2) (omega arith)) (join_no_entries (drop i1 common))

  -- A row and an entry for one document.
  both_found :
      (i1 i2 : ℕ) (a b : Entry) (as' : List Entry)
      → get_elem? v1 i1 ≡ some a
      → get_elem? v2 i2 ≡ some b
      → get_elem? common i1 ≡ some (a ∷ as')
      → a.doc_id_offset ≡ b.doc_id_offset
      → join (drop i1 common) (drop i2 v2)
        ≡ ((a ∷ as') ++ (b ∷ [])) ∷ join (drop (suc i1) common) (drop (suc i2) v2)
  both_found i1 i2 a b as' g1 g2 gc same =
      rw (drop-step common i1 gc, drop-step v2 i2 g2)
        (join_match a as' b (drop (suc i2) v2) same (Fronts-drop (suc i1) f)
          (after_lt v1 i1 asc1 g1) (after_lt v2 i2 asc2 g2))

  one_ended :
      (i1 i2 : ℕ)
      → (suc i1 == length v1 || suc i2 == length v2) ≡ true
      → join (drop (suc i1) common) (drop (suc i2) v2) ≡ []
  one_ended i1 i2 h = elim (Bool-cases (suc i1 == length v1)) [
    | inl e ↦ rw ((==_iff (suc i1) (length v1)).0 e) (join_no_rows v1 (drop (suc i2) v2) f)
    | inr n ↦
        let e : suc i2 ≡ length v2 = ground arith in
        rw (drop_all v2 (suc i2) (omega arith)) (join_no_entries (drop (suc i1) common))
  ]

  none_ended :
      (i1 i2 : ℕ)
      → i1 < length v1
      → i2 < length v2
      → (suc i1 == length v1 || suc i2 == length v2) ≡ false
      → (suc i1 < length v1) × (suc i2 < length v2)
  none_ended i1 i2 r1 r2 h = ground arith

  intersect_loop-join :
      (fuel i1 i2 : ℕ) (res : List (List Entry))
      → i1 < length v1
      → i2 < length v2
      → length v1 + length v2 < fuel + (i1 + i2)
      → intersect_loop fuel common v1 v2 step i1 i2 res
        ≡ some (res ++ join (drop i1 common) (drop i2 v2))
  unfolding intersect_loop
  intersect_loop-join zero i1 i2 res r1 r2 n = absurd (omega arith)
  intersect_loop-join (suc fuel) i1 i2 res r1 r2 n =
      let (a, g1, d1) = get_elem?-doc_at v1 i1 r1 in
      let (b, g2, d2) = get_elem?-doc_at v2 i2 r2 in
      rw (g1, g2, intersect_loop)
        (elim (Bool-cases (ltb a.doc_id_offset b.doc_id_offset)) [
          | inl less ↦
              let lands = jump-Lands v1 b i1 step asc1 grows r1 in
              elim (Jumped-cases (jump v1 b i1 step)) [
                | inl (p, e) ↦
                    let (lo, hi, at, before) = rw e at lands in
                    let more =
                      Lands-lt v1 b.doc_id_offset i1 p (omega (arith, ltb→lt _ _ less)) lo at in
                    rw (less, e, left_found i1 i2 p b g2 (lo, hi, at, before))
                      (intersect_loop-join fuel p i2 res hi r2 (omega arith))
                | inr (inl e) ↦ rw (less, e, left_ended i1 i2 b g2 r1 (rw e at lands), append-nil)
                | inr (inr e) ↦ absurd (rw e at lands)
              ]
          | inr not_less ↦ elim (Bool-cases (ltb b.doc_id_offset a.doc_id_offset)) [
            | inl greater ↦
                let lands = jump-Lands v2 a i2 step asc2 grows r2 in
                elim (Jumped-cases (jump v2 a i2 step)) [
                  | inl (p, e) ↦
                      let (lo, hi, at, before) = rw e at lands in
                      let more =
                        Lands-lt v2 a.doc_id_offset i2 p (omega (arith, ltb→lt _ _ greater)) lo
                          at in
                      rw (not_less, greater, e, right_found i1 i2 p a g1 (lo, hi, at, before))
                        (intersect_loop-join fuel i1 p res r1 hi (omega arith))
                  | inr (inl e) ↦
                      rw (
                        not_less,
                        greater,
                        e,
                        right_ended i1 i2 a g1 r2 (rw e at lands),
                        append-nil,
                      )
                  | inr (inr e) ↦ absurd (rw e at lands)
                ]
            | inr not_greater ↦
                let same : a.doc_id_offset ≡ b.doc_id_offset =
                  omega (arith, ltb→le _ _ not_less, ltb→le _ _ not_greater) in
                let (as', gc) = Fronts-get_elem? i1 f g1 in
                rw (not_less, not_greater, gc, both_found i1 i2 a b as' g1 g2 gc same)
                  (elim (Bool-cases (suc i1 == length v1 || suc i2 == length v2)) [
                    | inl last ↦ rw (last, one_ended i1 i2 last)
                    | inr more ↦
                        let (r1', r2') = none_ended i1 i2 r1 r2 more in
                        rw more (
                          intersect_loop-join fuel (suc i1) (suc i2)
                            (res ++ (((a ∷ as') ++ (b ∷ [])) ∷ [])) r1' r2' (omega arith)
                          ∙ rw append_assoc)
                  ])
          ]
        ])

start_lem :
    (common : List (List Entry)) (v1 entries : List Entry) (res : List (List Entry)) (step : ℕ)
    → Fronts common v1
    → Ascending v1
    → Ascending entries
    → 0 < step
    → (if is_empty v1 || is_empty entries
        then some res
        else intersect_loop (suc (length v1 + length entries)) common v1 entries step 0 0 res)
      ≡ some (res ++ join common entries)
unfolding is_empty
start_lem common [] entries res step f asc1 asc2 grows = rw (join_no_rows [] entries f, append-nil)
start_lem common (a ∷ v1) [] res step f asc1 asc2 grows = rw (join_no_entries common, append-nil)
start_lem common (a ∷ v1) (e ∷ entries) res step f asc1 asc2 grows =
    intersect_loop-join common (a ∷ v1) (e ∷ entries) step f asc1 asc2 grows _ 0 0 res (omega arith)
      (omega arith) (omega arith)

-- `intersectMore` puts behind `res` one row for each document that stands both in the rows and in
-- the entries: the row with the entry for that document appended, in ascending order, as a nested
-- loop over both would find them. The rows are non-empty, and their first entries and `entries`
-- are in strictly ascending order of documents; the step is positive. It reads inside of its
-- vectors, and its loop ends.
pub intersect_more-join :
    (common : List (List Entry)) {v1 : List Entry} (entries : List Entry) (res : List (List Entry))
    (step : ℕ)
    → fronts common ≡ some v1
    → Ascending v1
    → Ascending entries
    → 0 < step
    → intersect_more common entries res step ≡ some (res ++ join common entries)
unfolding intersect_more
intersect_more-join common {v1} entries res step f asc1 asc2 grows =
    rw f (start_lem common v1 entries res step (fronts-Fronts common f) asc1 asc2 grows)
