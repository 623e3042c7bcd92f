-- ===== src/Intersect/Jump.antt =====
-- `jump` finds the first position, from a given one on, whose entry is not before a document.
use amigos.Base.{
  ℕ, zero, suc, ◌+◌, ◌-◌, ◌≤◌, ◌<◌, ◌≡◌, ap, ◌⊎◌, inl, inr, refl, min, List, some, arith, length,
  leb, ltb, Bool-cases, leb→le, leb→lt, ltb→lt, ltb→le,
}
use native.Mathlib.Decide.{dec_lt}
use amigos.Entry.{Entry}
use amigos.Intersect.{
  Jumped, found, no_more_elements, fault, skip_ahead, advance, settle, land, jump,
}
use amigos.Intersect.Order.{
  Ascending, doc_at, get_elem?-none, get_elem?-doc_at, doc_at_mono, doc_at_mono_le,
}

-- All entries from `lo` up to, and without, `hi` are before `doc`.
abbrev pub Before : List Entry → ℕ → ℕ → ℕ → Type 0
Before vec doc lo hi = (i : ℕ) → lo ≤ i → i < hi → doc_at vec i < doc

-- What a call of `jump` promises of its outcome.
abbrev pub Lands : List Entry → ℕ → ℕ → Jumped → Type 0
Lands vec doc pos (found p) =
    (pos ≤ p) × (p < length vec) × (doc ≤ doc_at vec p) × Before vec doc pos p
Lands vec doc pos no_more_elements = Before vec doc pos (length vec)
Lands vec doc pos fault = ⊥

-- What the first loop leaves: nothing from `start` to `pos` is missed, and what stands at
-- `next_pos` is behind `doc`.
record Skipped (vec : List Entry) (doc start pos next_pos : ℕ) : Type 0 where
  pub in_range : pos < length vec
  pub not_back : start ≤ pos
  pub ordered : pos ≤ next_pos
  pub not_past : (pos ≡ start) ⊎ (doc_at vec pos ≤ doc)
  pub stopped : next_pos < length vec → doc < doc_at vec next_pos

module _ (vec : List Entry) (doc start step : ℕ) (grows : 0 < step) where
  skip_ahead-Skipped :
      (fuel pos next_pos : ℕ)
      → pos < length vec
      → start ≤ pos
      → pos ≤ next_pos
      → (pos ≡ start) ⊎ (doc_at vec pos ≤ doc)
      → 0 < fuel
      → length vec < fuel + next_pos
      → (p : ℕ) × (q : ℕ) × (skip_ahead fuel vec doc step pos next_pos ≡ some (p, q))
        × Skipped vec doc start p q
  unfolding skip_ahead
  skip_ahead-Skipped zero pos next_pos r b o n g f = elim g [ ]
  skip_ahead-Skipped (suc fuel) pos next_pos r b o n g f = elim (dec_lt next_pos (length vec)) [
    | no out ↦
        rw (get_elem?-none vec next_pos (omega arith), skip_ahead)
          (
            pos,
            next_pos,
            refl,
            record {
              in_range = r;
              not_back = b;
              ordered = o;
              not_past = n;
              stopped = λ h. absurd (out h);
            },
          )
    | yes inside ↦
        let (e, got, doc_e) = get_elem?-doc_at vec next_pos inside in
        elim (Bool-cases (leb e.doc_id_offset doc)) [
          | inl below ↦
              let le : doc_at vec next_pos ≤ doc = omega (arith, leb→le _ _ below) in
              rw (got, skip_ahead, below)
                (skip_ahead-Skipped fuel next_pos (next_pos + step) inside (omega arith)
                  (omega arith) (inr le) (omega arith) (omega arith))
          | inr behind ↦
              let lt : doc < doc_at vec next_pos = omega (arith, leb→lt _ _ behind) in
              rw (got, skip_ahead, behind)
                (
                  pos,
                  next_pos,
                  refl,
                  record {
                    in_range = r;
                    not_back = b;
                    ordered = o;
                    not_past = n;
                    stopped = λ h. lt;
                  },
                )
        ]
  ]

Before-suc :
    (vec : List Entry) (doc lo hi : ℕ)
    → doc_at vec lo < doc
    → Before vec doc (suc lo) hi
    → Before vec doc lo hi
Before-suc vec doc lo hi h before i a b = elim (dec_lt lo i) [
  | yes k ↦ before i k b
  | no k ↦ let e : i ≡ lo = omega arith in rw e h
]

-- `advance` stops at the first entry that is not before `doc`.
advance_lem :
    (vec : List Entry) (doc rounds pos : ℕ)
    → pos + rounds < length vec
    → (p : ℕ) × (advance rounds vec doc pos ≡ some p)
      × (pos ≤ p)
      × (p ≤ pos + rounds)
      × Before vec doc pos p
      × ((p ≡ pos + rounds) ⊎ (doc ≤ doc_at vec p))
unfolding advance
advance_lem vec doc zero pos r =
    (pos, refl, omega arith, omega arith, (λ i a b. absurd (omega arith)), inl (omega arith))
advance_lem vec doc (suc rounds) pos r =
    let (e, got, doc_e) = get_elem?-doc_at vec pos (omega arith) in
    elim (Bool-cases (ltb e.doc_id_offset doc)) [
      | inl below ↦
          let (p, eq, lo, hi, before, last) = advance_lem vec doc rounds (suc pos) (omega arith) in
          let lt : doc_at vec pos < doc = omega (arith, ltb→lt _ _ below) in
          rw (got, advance, below)
            (p, eq, omega arith, omega arith, Before-suc vec doc pos p lt before, omega arith)
      | inr stop ↦
          rw (got, advance, stop)
            (
              pos,
              refl,
              omega arith,
              omega arith,
              (λ i a b. absurd (omega arith)),
              inr (omega (arith, ltb→le _ _ stop)),
            )
    ]

-- The entries from `start` to the position that the first loop leaves are before `doc`.
Skipped-Before :
    (vec : List Entry) {doc start pos next_pos : ℕ}
    → Ascending vec
    → Skipped vec doc start pos next_pos
    → Before vec doc start pos
Skipped-Before vec {doc} {start} {pos} asc s i a b =
    omega (arith, doc_at_mono vec i pos asc b s.in_range, s.not_past)

settle-Lands :
    (vec : List Entry) (doc pos : ℕ) (start : ℕ)
    → Ascending vec
    → start ≤ pos
    → pos < length vec
    → Before vec doc start pos
    → (doc ≤ doc_at vec pos) ⊎ Before vec doc start (length vec)
    → Lands vec doc start (settle vec doc (some pos))
unfolding settle
settle-Lands vec doc pos start asc lo hi before last =
    let (e, got, doc_e) = get_elem?-doc_at vec pos hi in
    elim (Bool-cases (ltb e.doc_id_offset doc)) [
      | inl below ↦
          rw (Lands, settle, got, below)
            (elim last [ inl at_pos ↦ absurd (omega (arith, ltb→lt _ _ below)) | inr all ↦ all ])
      | inr stop ↦ rw (Lands, settle, got, stop) (lo, hi, omega (arith, ltb→le _ _ stop), before)
    ]

Before-join :
    (vec : List Entry) (doc lo mid hi : ℕ)
    → Before vec doc lo mid
    → Before vec doc mid hi
    → Before vec doc lo hi
Before-join vec doc lo mid hi left right i a b = elim (dec_lt i mid) [
  | yes k ↦ left i a k
  | no k ↦ right i (omega arith) b
]

-- The last index is in front of `doc`: so is the whole vector.
Before-end :
    (vec : List Entry) (doc start last : ℕ)
    → Ascending vec
    → length vec ≡ suc last
    → doc_at vec last < doc
    → Before vec doc start (length vec)
Before-end vec doc start last asc n h i a b =
    omega (arith, doc_at_mono_le vec i last asc (omega arith) (omega arith))

-- Where the first loop was cut short by the end of the vector, the code looks at the last index.
stopped_at_end :
    (vec : List Entry) {doc start pos next_pos : ℕ} (last : ℕ)
    → Skipped vec doc start pos next_pos
    → last ≡ min next_pos (length vec - 1)
    → doc_at vec last < doc
    → length vec ≡ suc last
stopped_at_end vec {doc} {start} {pos} {next_pos} last s m h = elim (dec_lt next_pos (length vec)) [
  | yes k ↦
      let e : last ≡ next_pos = omega arith in
      absurd (omega (arith, s.stopped k, ap (doc_at vec) e))
  | no k ↦ omega (arith, s.in_range)
]

module _ (vec : List Entry) {doc start pos next_pos : ℕ} (asc : Ascending vec) where
  land-advance :
      (last : ℕ)
      → Skipped vec doc start pos next_pos
      → pos ≤ last
      → last < length vec
      → doc ≤ doc_at vec last
      → Lands vec doc start (settle vec doc (advance (last - pos) vec doc pos))
  land-advance last s o r h =
      let (p, eq, lo, hi, before, stop) = advance_lem vec doc (last - pos) pos (omega arith) in
      rw eq (
        settle-Lands vec doc p start asc (omega (arith, s.not_back)) (omega arith)
          (Before-join vec doc start pos p (Skipped-Before vec asc s) before)
          (inl (elim stop [ inl e ↦ let e' : p ≡ last = omega arith in rw e' h | inr k ↦ k ])))

  land-Lands :
      (last : ℕ)
      → Skipped vec doc start pos next_pos
      → last ≡ min next_pos (length vec - 1)
      → Lands vec doc start (land vec doc pos last)
  unfolding land
  land-Lands last s m =
      let r : last < length vec = omega (arith, s.in_range) in
      let (e, got, doc_e) = get_elem?-doc_at vec last r in
      elim (Bool-cases (leb doc e.doc_id_offset)) [
        | inl reached ↦
            rw (Lands, land, got, reached)
              (land-advance last s (omega (arith, s.ordered, s.in_range)) r
                (omega (arith, leb→le _ _ reached)))
        | inr short ↦
            let lt : doc_at vec last < doc = omega (arith, leb→lt _ _ short) in
            rw (Lands, land, got, short)
              (settle-Lands vec doc pos start asc s.not_back s.in_range (Skipped-Before vec asc s)
                (inr (Before-end vec doc start last asc (stopped_at_end vec last s m lt) lt)))
      ]

-- On entries in strictly ascending order, with a positive step and from a position inside of the
-- vector: `jump` returns the first position from there on whose entry is not before `entry`, and
-- throws `NoMoreElements` exactly when there is none. It reads inside of the vector and ends.
pub jump-Lands :
    (vec : List Entry) (entry : Entry) (pos step : ℕ)
    → Ascending vec
    → 0 < step
    → pos < length vec
    → Lands vec entry.doc_id_offset pos (jump vec entry pos step)
unfolding jump
jump-Lands vec entry pos step asc grows inside =
    let (p, q, eq, s) =
      skip_ahead-Skipped vec entry.doc_id_offset pos step grows (suc (length vec)) pos
        (min (pos + step) (length vec - 1)) inside (omega arith) (omega arith) (inl refl)
        (omega arith) (omega arith) in
    rw (Lands, eq) (land-Lands vec asc (min q (length vec - 1)) s refl)

pub Jumped-cases : (j : Jumped) → ((p : ℕ) × (j ≡ found p)) ⊎ ((j ≡ no_more_elements) ⊎ (j ≡ fault))
Jumped-cases (found p) = inl (p, refl)
Jumped-cases no_more_elements = inr (inl refl)
Jumped-cases fault = inr (inr refl)

-- A jump from an entry before `doc` moves forward.
pub Lands-lt :
    (vec : List Entry) (doc pos p : ℕ)
    → doc_at vec pos < doc
    → pos ≤ p
    → doc ≤ doc_at vec p
    → pos < p
Lands-lt vec doc pos p before lo at = elim (dec_lt pos p) [
  | yes k ↦ k
  | no k ↦ let e : pos ≡ p = omega arith in absurd (omega (arith, ap (doc_at vec) e))
]
