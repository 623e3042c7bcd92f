-- ===== src/Intersect/Order.antt =====
-- Entries in ascending order of their documents, by position and by list.
use amigos.Base.{
  ℕ, zero, suc, ◌≤◌, ◌<◌, ◌≡◌, refl, List, [], ◌∷◌, some, none, arith, length, get_elem?, drop, All,
}
use amigos.Entry.{Entry}

-- Each document stands once, and in ascending order.
abbrev pub Ascending : List Entry → Type 0
Ascending [] = Unit
Ascending (e ∷ es) = All (λ x. e.doc_id_offset < x.doc_id_offset) es × Ascending es

-- The document of the entry at a position.
pub doc_at : List Entry → ℕ → ℕ
doc_at [] i = 0
doc_at (e ∷ es) zero = e.doc_id_offset
doc_at (e ∷ es) (suc i) = doc_at es i

pub get_elem?-doc_at :
    (es : List Entry) (i : ℕ)
    → i < length es
    → (e : Entry) × (get_elem? es i ≡ some e) × (e.doc_id_offset ≡ doc_at es i)
unfolding doc_at
get_elem?-doc_at [] i h = elim h [ ]
get_elem?-doc_at (e ∷ es) zero h = (e, refl, refl)
get_elem?-doc_at (e ∷ es) (suc i) h = get_elem?-doc_at es i (omega arith)

All-doc_at :
    (d : ℕ) (es : List Entry) (j : ℕ)
    → All (λ x. d < x.doc_id_offset) es
    → j < length es
    → d < doc_at es j
unfolding doc_at
All-doc_at d [] j h k = elim k [ ]
All-doc_at d (e ∷ es) zero (h, hs) k = h
All-doc_at d (e ∷ es) (suc j) (h, hs) k = All-doc_at d es j hs (omega arith)

pub doc_at_mono :
    (es : List Entry) (i j : ℕ) → Ascending es → i < j → j < length es → doc_at es i < doc_at es j
unfolding doc_at
doc_at_mono [] i j h k l = elim l [ ]
doc_at_mono (e ∷ es) zero zero h k l = elim k [ ]
doc_at_mono (e ∷ es) zero (suc j) (h, hs) k l = All-doc_at e.doc_id_offset es j h (omega arith)
doc_at_mono (e ∷ es) (suc i) zero h k l = elim k [ ]
doc_at_mono (e ∷ es) (suc i) (suc j) (h, hs) k l = doc_at_mono es i j hs (omega arith) (omega arith)

pub doc_at_mono_le :
    (es : List Entry) (i j : ℕ) → Ascending es → i ≤ j → j < length es → doc_at es i ≤ doc_at es j
doc_at_mono_le es i j h k l = grind (arith, doc_at_mono es i j h)

pub drop-step {ℓ} :
    {A : Type ℓ} (xs : List A) (i : ℕ) {x : A}
    → get_elem? xs i ≡ some x
    → drop i xs ≡ x ∷ drop (suc i) xs
drop-step [] i h = cc
drop-step (y ∷ xs) zero h = cc
drop-step (y ∷ xs) (suc i) h = drop-step xs i h

pub drop_all {ℓ} : {A : Type ℓ} (xs : List A) (i : ℕ) → length xs ≤ i → drop i xs ≡ []
drop_all [] zero h = refl
drop_all [] (suc i) h = refl
drop_all (x ∷ xs) zero h = absurd (omega arith)
drop_all (x ∷ xs) (suc i) h = drop_all xs i (omega arith)

pub drop-Ascending : (es : List Entry) (i : ℕ) → Ascending es → Ascending (drop i es)
drop-Ascending es zero h = h
drop-Ascending [] (suc i) h = tt
drop-Ascending (e ∷ es) (suc i) (h, hs) = drop-Ascending es i hs

pub get_elem?-none {ℓ} : {A : Type ℓ} (xs : List A) (i : ℕ) → length xs ≤ i → get_elem? xs i ≡ none
get_elem?-none [] i h = refl
get_elem?-none (x ∷ xs) zero h = absurd (omega arith)
get_elem?-none (x ∷ xs) (suc i) h = get_elem?-none xs i (omega arith)
