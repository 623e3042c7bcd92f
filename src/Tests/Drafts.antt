-- ===== src/Tests/Drafts.antt =====
-- Draft ranks, with numbers in hundredths in place of the doubles.
use amigos.Base.{
  arith, true, false, All, All-mono, ltb→lt, ltb→le, le→ltb, leb, leb→lt, ◌++◌, ℕ, suc, ◌+◌, ◌*◌,
  ◌/◌, ◌≡◌, refl, ap, ◌∙◌, Bool, List, [], ◌∷◌, none, some, length, min, ltb, if◌then◌else◌,
  Bool-cases, inl, inr,
}
use amigos.Ranker.Bands.{Bands, comp_title, comp_subs, sort_bands}
use amigos.Ranker.Bands.Ordered.{IsOrdered, sort_bands_lem}
use amigos.Entry.{Entry}
use amigos.DocStore.{DocStorage}
use amigos.Ranker.Draft.{Doubles, get_max_n_zone, get_zones_tf, weight, draft_loop, draft_ranking}
use amigos.Ranker.Draft.Frozen.{add_weights, draft_loop-first}
use amigos.Ranker.Draft.Bound.{draft_ranking_lem}

unfoldable pub insert : {A : Type 0} → (A → A → Bool) → A → List A → List A
insert cmp x [] = x ∷ []
insert cmp x (y ∷ ys) = let rest = insert cmp x ys in if cmp x y then x ∷ y ∷ ys else y ∷ rest

unfoldable pub sort : {A : Type 0} → (A → A → Bool) → List A → List A
sort cmp [] = []
sort cmp (x ∷ xs) = insert cmp x (sort cmp xs)

length-insert :
    {A : Type 0} (cmp : A → A → Bool) (x : A) (ys : List A)
    → length (insert cmp x ys) ≡ suc (length ys)
unfolding insert
length-insert cmp x [] = refl
length-insert cmp x (y ∷ ys) = elim (Bool-cases (cmp x y)) [
  | inl before ↦ rw before refl
  | inr behind ↦ rw behind (ap suc (length-insert cmp x ys))
]

pub length-sort : (A : Type 0) (cmp : A → A → Bool) (xs : List A) → length (sort cmp xs) ≡ length xs
unfolding sort
length-sort A cmp [] = refl
length-sort A cmp (x ∷ xs) = length-insert cmp x (sort cmp xs) ∙ ap suc (length-sort A cmp xs)

abbrev pub doubles : Doubles
doubles = record {
  D = ℕ;
  nought = 0;
  fifth = 20;
  five = 500;
  of_nat = λ n. 100 * n;
  plus = λ a b. a + b;
  times = λ a b. a * b / 100;
  quotient = λ n m. 100 * n / m;
  greater = λ a b. ltb b a;
  sort = sort;
}

-- Two documents, the first without views.
abbrev pub store : ℕ → DocStorage
store views = record {
  doc_ids = 8 ∷ 9 ∷ [];
  n_zones = (0 ∷ views ∷ []) ∷ [];
  t_zones_w_cnt = (10 ∷ 10 ∷ []) ∷ (5 ∷ 5 ∷ []) ∷ (20 ∷ 20 ∷ []) ∷ [];
}

abbrev entry : ℕ → ℕ → Entry
entry doc size = record {
  doc_id_offset = doc;
  posting_info = record { in_zone = 5; posting_offset = 0; posting_sizes = size ∷ 4 ∷ [] };
}

abbrev docs : List (List Entry)
docs = (entry 0 2 ∷ []) ∷ (entry 1 2 ∷ []) ∷ []

-- The second zone of the entry gets the size of the first one, and the second word the weight of the
-- first one.
zones_tf_test : get_zones_tf doubles 3 (store 7) (entry 0 2) [] ≡ some (20 ∷ 0 ∷ 10 ∷ [])
unfolding get_zones_tf
zones_tf_test = refl

draft_loop_test :
    draft_loop doubles 3 (store 7) (entry 0 2 ∷ entry 0 8 ∷ []) (100 ∷ 300 ∷ []) [] 0 ≡ some 280
unfolding draft_loop
draft_loop_test = refl

draft_loop-first_example : 280 ≡ add_weights doubles 70 2 (100 ∷ 300 ∷ []) 0
unfolding weight
draft_loop-first_example =
    draft_loop-first doubles 3 (store 7) (entry 0 2) (entry 0 8 ∷ []) (100 ∷ 300 ∷ [])
      (20 ∷ 0 ∷ 10 ∷ []) 70 0 280 zones_tf_test refl draft_loop_test

draft_ranking_test :
    draft_ranking doubles 3 (store 7) docs (100 ∷ [])
    ≡ some ((entry 1 2 ∷ []) ∷ (entry 0 2 ∷ []) ∷ [])
unfolding draft_ranking sort insert
draft_ranking_test = refl

draft_ranking_example :
    ((res : List (List Entry))
      → draft_ranking doubles 3 (store 0) docs (100 ∷ []) ≡ some res
      → length res ≡ min 200 (length docs))
    × (get_max_n_zone (store 0) ((entry 0 2 ∷ []) ∷ docs) 0 0 ≡ some 0
        → draft_ranking doubles 3 (store 0) ((entry 0 2 ∷ []) ∷ docs) (100 ∷ []) ≡ none)
draft_ranking_example =
    draft_ranking_lem doubles 3 (store 0) docs (entry 0 2) [] (100 ∷ []) length-sort

All-insert :
    {A : Type 0} (P : A → Type 0) (cmp : A → A → Bool) (x : A) (ys : List A)
    → P x
    → All P ys
    → All P (insert cmp x ys)
unfolding insert
All-insert P cmp x [] h hs = (h, tt)
All-insert P cmp x (y ∷ ys) h (k, ks) = elim (Bool-cases (cmp x y)) [
  | inl before ↦ rw before (h, (k, ks))
  | inr behind ↦ rw behind (k, All-insert P cmp x ys h ks)
]

pub All-sort :
    {A : Type 0} (P : A → Type 0) (cmp : A → A → Bool) (xs : List A)
    → All P xs
    → All P (sort cmp xs)
unfolding sort
All-sort P cmp [] h = tt
All-sort P cmp (x ∷ xs) (h, hs) = All-insert P cmp x (sort cmp xs) h (All-sort P cmp xs hs)

module _ {A : Type 0} (key : A → ℕ) where
  abbrev by_key : A → A → Bool
  by_key x y = ltb (key y) (key x)

  insert-IsOrdered :
      (x : A) (ys : List A) → IsOrdered by_key ys → IsOrdered by_key (insert by_key x ys)
  unfolding insert
  insert-IsOrdered x [] h = (tt, tt)
  insert-IsOrdered x (y ∷ ys) (h, hs) = elim (Bool-cases (by_key x y)) [
    | inl before ↦
        let lt = ltb→lt (key y) (key x) before in
        rw (insert, before)
          (
            (
              le→ltb (key x) (key y) (omega arith),
              All-mono (λ z. by_key z y ≡ false) (λ z. by_key z x ≡ false) ys
                  (λ z k. le→ltb (key x) (key z) (omega (arith, ltb→le (key y) (key z) k))) h,
            ),
            (h, hs),
          )
    | inr behind ↦
        rw (insert, behind)
          (All-insert (λ z. by_key z y ≡ false) by_key x ys behind h, insert-IsOrdered x ys hs)
  ]

  sort-IsOrdered : (xs : List A) → IsOrdered by_key (sort by_key xs)
  unfolding sort
  sort-IsOrdered [] = tt
  sort-IsOrdered (x ∷ xs) = insert-IsOrdered x (sort by_key xs) (sort-IsOrdered xs)

-- Numbers in place of the floats.
abbrev pub bands : Bands
bands = record {
  floats = record {
    F = ℕ;
    nought = 0;
    thousand = 1000;
    share = λ n m. 200 * n / m;
    plus = λ a b. a + b;
  };
  times_five = λ a. 5 * a;
  greater = λ a b. ltb b a;
  at_least = λ a n. leb n a;
  sort = sort;
}

abbrev ranks : List (ℕ × ℕ × ℕ)
ranks = (1, 600, 1) ∷ (2, 10, 5) ∷ (3, 5000, 7) ∷ (4, 900, 2) ∷ []

sort_bands_test :
    sort_bands bands (bands.sort (comp_title bands) ranks)
    ≡ (3, 5000, 7) ∷ (4, 900, 2) ∷ (1, 600, 1) ∷ (2, 10, 5) ∷ []
unfolding sort_bands sort insert comp_title
sort_bands_test = refl

below : (val x y : ℕ) → ltb x y ≡ false → leb val x ≡ false → leb val y ≡ false
below val x y h k = ground (arith, ltb→le x y h, leb→lt val x k)

sort_bands_example :
    (high middle low : List (ℕ × ℕ × ℕ)) × (sort_bands bands (bands.sort (comp_title bands) ranks)
      ≡ high ++ (middle ++ low))
    × All (λ r. bands.at_least r.1 5000 ≡ true) high
    × All (λ r. bands.at_least r.1 5000 ≡ false) middle
    × All (λ r. bands.at_least r.1 500 ≡ true) middle
    × All (λ r. bands.at_least r.1 500 ≡ false) low
    × IsOrdered (comp_subs bands) high
    × IsOrdered (comp_subs bands) middle
    × IsOrdered (comp_subs bands) low
unfolding comp_title comp_subs
sort_bands_example =
    sort_bands_lem bands ranks
      (λ xs. (sort-IsOrdered (λ r. r.1) xs, λ P h. All-sort P (comp_title bands) xs h))
      (λ xs. (sort-IsOrdered (λ r. r.2) xs, λ P h. All-sort P (comp_subs bands) xs h)) below
