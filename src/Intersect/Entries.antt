-- ===== src/Intersect/Entries.antt =====
-- `Index::intersectEntries` joins all of its lists.
use amigos.Base.{
  ℕ, suc, ◌+◌, ◌%◌, ◌<◌, ◌≡◌, refl, ap, ◌∙◌, ◌⊎◌, inl, inr, true, false, List, [], ◌∷◌, ◌++◌, some,
  arith, length, All, ◌==◌, ==_iff, Bool-cases, resize, map, if◌then◌else◌,
}
use native.Mathlib.Nat.{add-zero}
use amigos.Entry.{Entry}
use amigos.Intersect.{fronts, intersect_more, intersect_rounds, push_each, intersect_entries}
use amigos.Intersect.Order.{Ascending}
use amigos.Intersect.Join.{matches, matches_none, join, Fronts, nil, cons}
use amigos.Intersect.Laws.{intersect_more-join}

-- The first list's entries as rows, joined with each further list.
abbrev pub singletons : List Entry → List (List Entry)
singletons = map (λ e. e ∷ [])

abbrev pub join_all : List (List Entry) → List (List Entry) → List (List Entry)
join_all rows [] = rows
join_all rows (entries ∷ input) = join_all (join rows entries) input

Fronts-fronts : {cs : List (List Entry)} {vs : List Entry} → Fronts cs vs → fronts cs ≡ some vs
unfolding fronts
Fronts-fronts nil = refl
Fronts-fronts (cons f) = rw (Fronts-fronts f)

singletons-Fronts : (es : List Entry) → Fronts (singletons es) es
singletons-Fronts [] = nil
singletons-Fronts (e ∷ es) = cons (singletons-Fronts es)

matches_cases :
    (c : List Entry) (d : ℕ) (es : List Entry)
    → Ascending es
    → (matches c d es ≡ []) ⊎ ((e : Entry) × (matches c d es ≡ (c ++ (e ∷ [])) ∷ []))
unfolding matches
matches_cases c d [] asc = inl refl
matches_cases c d (e ∷ es) (lt, asc) = elim (Bool-cases (d == e.doc_id_offset)) [
  | inl same ↦
      let e' : d ≡ e.doc_id_offset = (==_iff _ _).0 same in
      inr (e, rw same (rw (matches_none c d es (rw e' lt))))
  | inr other ↦ rw other (matches_cases c d es asc)
]

-- The first entries of the joined rows are some of the first entries of the rows.
record Joined (rows : List (List Entry)) (vs : List Entry) : Type 0 where
  pub ws : List Entry
  pub are_fronts : Fronts rows ws
  pub ascending : Ascending ws
  pub bounded : (d : ℕ) → All (λ v. d < v.doc_id_offset) vs → All (λ v. d < v.doc_id_offset) ws

join-Joined :
    {cs : List (List Entry)} {vs : List Entry} (es : List Entry)
    → Fronts cs vs
    → Ascending vs
    → Ascending es
    → Joined (join cs es) vs
unfolding join
join-Joined es nil asc1 asc2 = record {
  ws = [];
  are_fronts = nil;
  ascending = tt;
  bounded = λ d h. tt;
}
join-Joined es (cons {a} {as'} {cs} {vs} f) (lt, asc1) asc2 =
    let rest = join-Joined es f asc1 asc2 in
    elim (matches_cases (a ∷ as') a.doc_id_offset es asc2) [
      | inl none_there ↦ rw none_there (record {
        ws = rest.ws;
        are_fronts = rest.are_fronts;
        ascending = rest.ascending;
        bounded = λ d h. rest.bounded d h.1;
      })
      | inr (e, there) ↦ rw there (record {
        ws = a ∷ rest.ws;
        are_fronts = cons rest.are_fronts;
        ascending = (rest.bounded a.doc_id_offset lt, rest.ascending);
        bounded = λ d h. (h.0, rest.bounded d h.1);
      })
    ]

-- The buffer that the next round reads.
abbrev current : ℕ → List (List Entry) × List (List Entry) → List (List Entry)
current i b = if i % 2 == 1 then b.0 else b.1

flip_odd : (i : ℕ) → (i % 2 == 1) ≡ true → (((i + 1) % 2) == 1) ≡ false
flip_odd i h = ground arith

flip_even : (i : ℕ) → (i % 2 == 1) ≡ false → (((i + 1) % 2) == 1) ≡ true
flip_even i h = ground arith

shift_one : (i n : ℕ) → i + suc n ≡ i + 1 + n
shift_one i n = omega arith

module _ (es : List Entry) (input output tmp t : List (List Entry)) (i step : ℕ) where
  round_odd :
      (i % 2 == 1) ≡ true
      → intersect_more output es [] step ≡ some t
      → intersect_rounds (es ∷ input) i output tmp step
        ≡ intersect_rounds input (i + 1) output t step
  unfolding intersect_rounds
  round_odd odd eq = rw (odd, intersect_rounds, eq)

  round_even :
      (i % 2 == 1) ≡ false
      → intersect_more tmp es [] step ≡ some t
      → intersect_rounds (es ∷ input) i output tmp step ≡ intersect_rounds input (i + 1) t tmp step
  unfolding intersect_rounds
  round_even even eq = rw (even, intersect_rounds, eq)

intersect_rounds-join_all :
    (input : List (List Entry)) (i : ℕ) (output tmp : List (List Entry)) (step : ℕ)
    (vs : List Entry)
    → Fronts (current i (output, tmp)) vs
    → Ascending vs
    → All Ascending input
    → 0 < step
    → (b : List (List Entry) × List (List Entry)) × (intersect_rounds input i output tmp step
        ≡ some b)
      × (current (i + length input) b ≡ join_all (current i (output, tmp)) input)
unfolding intersect_rounds
intersect_rounds-join_all [] i output tmp step vs f asc all grows =
    ((output, tmp), refl, ap (λ k. current k (output, tmp)) (add-zero i))
intersect_rounds-join_all (es ∷ input) i output tmp step vs f asc (asc2, all) grows =
    elim (Bool-cases (i % 2 == 1)) [
      | inl odd ↦
          let f' : Fronts output vs = rw odd at f in
          let next = join-Joined es f' asc asc2 in
          let (b, eq, res) =
            intersect_rounds-join_all input (i + 1) output (join output es) step next.ws
              (rw (flip_odd i odd) next.are_fronts) next.ascending all grows in
          (
            b,
            round_odd es input output tmp _ i step odd
                  (intersect_more-join output es [] step (Fronts-fronts f') asc asc2 grows)
                ∙ eq,
            rw (shift_one i (length input), odd) (rw (flip_odd i odd) at res),
          )
      | inr even ↦
          let f' : Fronts tmp vs = rw even at f in
          let next = join-Joined es f' asc asc2 in
          let (b, eq, res) =
            intersect_rounds-join_all input (i + 1) (join tmp es) tmp step next.ws
              (rw (flip_even i even) next.are_fronts) next.ascending all grows in
          (
            b,
            round_even es input output tmp _ i step even
                  (intersect_more-join tmp es [] step (Fronts-fronts f') asc asc2 grows)
                ∙ eq,
            rw (shift_one i (length input), even) (rw (flip_even i even) at res),
          )
    ]

push_each-padding :
    (front : List Entry) → push_each front (resize (length front) [] []) ≡ singletons front
unfolding push_each resize
push_each-padding [] = refl
push_each-padding (e ∷ front) = ap (◌∷◌ (e ∷ [])) (push_each-padding front)

push_each-singletons :
    (front : List Entry) → push_each front (resize (length front) [] ([] ∷ [])) ≡ singletons front
unfolding push_each resize
push_each-singletons [] = refl
push_each-singletons (e ∷ front) = ap (◌∷◌ (e ∷ [])) (push_each-padding front)

last_buffer :
    (n : ℕ) (b : List (List Entry) × List (List Entry))
    → (if (n + 1) % 2 == 0 then b.1 else b.0) ≡ current (1 + n) b
last_buffer n (output, tmp) = ground arith

-- `intersectEntries`, called with an empty output and lists in strictly ascending order of
-- documents, joins the first list with all others in turn: the rows of one entry from each list,
-- for the documents that stand in all of them, in ascending order. It reads inside of its vectors
-- and ends.
pub intersect_entries-join_all :
    (front : List Entry) (input : List (List Entry))
    → Ascending front
    → All Ascending input
    → intersect_entries (front ∷ input) [] ≡ some (join_all (singletons front) input)
unfolding intersect_entries
intersect_entries-join_all front input asc all =
    let (b, eq, res) =
      intersect_rounds-join_all input 1 (singletons front) [] 100 front (singletons-Fronts front)
        asc all (omega arith) in
    rw (push_each-singletons front, eq) (ap some (last_buffer (length input) b ∙ res))
