-- ===== src/Intersect/Rows.antt =====
-- Which documents stand in the rows of the intersection.
use amigos.Base.{
  ℕ, ◌≡◌, refl, sym, ◌∙◌, inl, inr, Bool, true, false, List, [], ◌∷◌, some, All, All-append,
  All-mono, ◌==◌, Bool-cases, if◌then◌else◌, arith,
}
use mathlib.Core.Option.{some-injective}
use amigos.Entry.{Entry}
use amigos.Intersect.Join.{matches, join}
use amigos.Intersect.Entries.{singletons, join_all, intersect_entries-join_all}
use amigos.Intersect.Order.{Ascending}
use amigos.Intersect.{intersect_entries}

-- A document stands in a list of entries.
unfoldable pub has_doc : ℕ → List Entry → Bool
has_doc doc [] = false
has_doc doc (e ∷ es) = let rest = has_doc doc es in if doc == e.doc_id_offset then true else rest

-- The document of a row.
abbrev pub RowOf : (ℕ → Type 0) → List Entry → Type 0
RowOf P [] = ⊥
RowOf P (e ∷ es) = P e.doc_id_offset

matches-absent :
    (c : List Entry) (doc : ℕ) (es : List Entry) → has_doc doc es ≡ false → matches c doc es ≡ []
unfolding matches has_doc
matches-absent c doc [] h = refl
matches-absent c doc (e ∷ es) h = ground (arith, matches-absent c doc es)

matches-RowOf :
    (P : ℕ → Type 0) (a : Entry) (as' es : List Entry)
    → P a.doc_id_offset
    → All (RowOf P) (matches (a ∷ as') a.doc_id_offset es)
unfolding matches
matches-RowOf P a as' [] p = tt
matches-RowOf P a as' (e ∷ es) p = elim (Bool-cases (a.doc_id_offset == e.doc_id_offset)) [
  | inl same ↦ rw (matches, same) (p, matches-RowOf P a as' es p)
  | inr other ↦ rw (matches, other) (matches-RowOf P a as' es p)
]

join-RowOf :
    (P : ℕ → Type 0) (rows : List (List Entry)) (es : List Entry)
    → All (RowOf P) rows
    → All (RowOf (λ d. P d × (has_doc d es ≡ true))) (join rows es)
unfolding join
join-RowOf P [] es h = tt
join-RowOf P ([] ∷ rows) es (h, hs) = absurd h
join-RowOf P ((a ∷ as') ∷ rows) es (h, hs) =
    let Q : List Entry → Type 0 = RowOf (λ d. P d × (has_doc d es ≡ true)) in
    elim (Bool-cases (has_doc a.doc_id_offset es)) [
      | inl there ↦
          All-append Q (matches (a ∷ as') a.doc_id_offset es) (join rows es)
            (matches-RowOf (λ d. P d × (has_doc d es ≡ true)) a as' es (h, there))
            (join-RowOf P rows es hs)
      | inr gone ↦ rw (matches-absent (a ∷ as') a.doc_id_offset es gone) (join-RowOf P rows es hs)
    ]

RowOf-mono :
    (P Q : ℕ → Type 0) → ((d : ℕ) → P d → Q d) → (row : List Entry) → RowOf P row → RowOf Q row
RowOf-mono P Q f [] h = h
RowOf-mono P Q f (e ∷ es) h = f e.doc_id_offset h

join_all-RowOf :
    (P : ℕ → Type 0) (rows input : List (List Entry))
    → All (RowOf P) rows
    → All (RowOf (λ d. P d × All (λ es. has_doc d es ≡ true) input)) (join_all rows input)
join_all-RowOf P rows [] h =
    let Q : ℕ → Type 0 = λ d. P d × Unit {0} in
    All-mono (RowOf P) (RowOf Q) rows (RowOf-mono P Q (λ d p. (p, tt))) h
join_all-RowOf P rows (es ∷ input) h =
    let Q : ℕ → Type 0 = λ d. P d × (has_doc d es ≡ true) in
    let R : ℕ → Type 0 = λ d. Q d × All (λ es. has_doc d es ≡ true) input in
    let S : ℕ → Type 0 = λ d. P d × All (λ es. has_doc d es ≡ true) (es ∷ input) in
    All-mono (RowOf R) (RowOf S) (join_all (join rows es) input)
      (RowOf-mono R S (λ d r. (r.0.0, (r.0.1, r.1))))
      (join_all-RowOf Q (join rows es) input (join-RowOf P rows es h))

has_doc-later :
    (doc : ℕ) (e : Entry) (es : List Entry) → has_doc doc es ≡ true → has_doc doc (e ∷ es) ≡ true
unfolding has_doc
has_doc-later doc e es h = ground arith

has_doc-first : (e : Entry) (es : List Entry) → has_doc e.doc_id_offset (e ∷ es) ≡ true
unfolding has_doc
has_doc-first e es = ground arith

has_doc-all : (es : List Entry) → All (λ e. has_doc e.doc_id_offset es ≡ true) es
has_doc-all [] = tt
has_doc-all (e ∷ es) = (
  has_doc-first e es,
  All-mono (λ x. has_doc x.doc_id_offset es ≡ true) (λ x. has_doc x.doc_id_offset (e ∷ es) ≡ true)
      es (λ x h. has_doc-later x.doc_id_offset e es h) (has_doc-all es),
)

singletons-RowOf :
    (P : ℕ → Type 0) (es : List Entry)
    → All (λ e. P e.doc_id_offset) es
    → All (RowOf P) (singletons es)
singletons-RowOf P [] h = tt
singletons-RowOf P (e ∷ es) (h, hs) = (h, singletons-RowOf P es hs)

-- The document of each row stands in all lists.
abbrev pub InAll : List (List Entry) → ℕ → Type 0
InAll lists d = All (λ es. has_doc d es ≡ true) lists

pub intersect_entries-InAll :
    (lists rows : List (List Entry))
    → All Ascending lists
    → intersect_entries lists [] ≡ some rows
    → All (RowOf (InAll lists)) rows
unfolding intersect_entries
intersect_entries-InAll [] rows asc h = rw (← some-injective _ _ h) tt
intersect_entries-InAll (front ∷ input) rows (asc, all) h =
    let first = singletons-RowOf (λ d. has_doc d front ≡ true) front (has_doc-all front) in
    let joined = join_all-RowOf (λ d. has_doc d front ≡ true) (singletons front) input first in
    let e = some-injective _ _ (sym (intersect_entries-join_all front input asc all) ∙ h) in
    rw (← e) joined
