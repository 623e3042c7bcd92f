-- ===== src/Intersect/Join.antt =====
-- The specification of the intersection, as a nested loop, and how it steps along its two lists.
use amigos.Base.{
  ℕ, zero, suc, ◌+◌, ◌≤◌, ◌<◌, ◌≡◌, refl, ap, ◌∙◌, List, [], ◌∷◌, ◌++◌, some, arith, length,
  All-mono, get_elem?, drop, All, ◌==◌, if◌then◌else◌, bind-eq-some,
}
use amigos.Entry.{Entry}
use amigos.Intersect.{fronts}
use amigos.Intersect.Order.{doc_at, get_elem?-doc_at, drop-step}
use amigos.Intersect.Jump.{Before}

-- The row `c` with each entry for the document `d` behind it.
unfoldable pub matches : List Entry → ℕ → List Entry → List (List Entry)
matches c d [] = []
matches c d (e ∷ es) =
    if d == e.doc_id_offset then (c ++ (e ∷ [])) ∷ matches c d es else matches c d es

-- Every row of `common` with every entry of `es` for the same document, in the order of `common`.
unfoldable pub join : List (List Entry) → List Entry → List (List Entry)
unfolding matches
join [] es = []
join ([] ∷ cs) es = join cs es
join ((a ∷ as') ∷ cs) es = matches (a ∷ as') a.doc_id_offset es ++ join cs es

pub matches_none :
    (c : List Entry) (d : ℕ) (es : List Entry)
    → All (λ e. d < e.doc_id_offset) es
    → matches c d es ≡ []
unfolding matches
matches_none c d [] h = refl
matches_none c d (e ∷ es) (h, hs) = ground (arith, matches_none c d es hs)

-- `vs` are the first entries of the rows.
pub data Fronts : List (List Entry) → List Entry → Type 0 where
  nil : Fronts [] []
  cons :
      {a : Entry} {as' : List Entry} {cs : List (List Entry)} {vs : List Entry}
      → Fronts cs vs
      → Fronts ((a ∷ as') ∷ cs) (a ∷ vs)

pub fronts-Fronts : (cs : List (List Entry)) {vs : List Entry} → fronts cs ≡ some vs → Fronts cs vs
unfolding fronts
fronts-Fronts [] {vs} f = let e : [] ≡ vs = cc in rw (← e) nil
fronts-Fronts ([] ∷ cs) f = cc
fronts-Fronts ((a ∷ as') ∷ cs) {vs} f =
    let (ws, rest, e) = bind-eq-some (fronts cs) (λ v1. some (a ∷ v1)) f in
    let e' : a ∷ ws ≡ vs = cc in rw (← e') (cons (fronts-Fronts cs rest))

pub Fronts-drop :
    {cs : List (List Entry)} {vs : List Entry} (i : ℕ)
    → Fronts cs vs
    → Fronts (drop i cs) (drop i vs)
Fronts-drop zero f = f
Fronts-drop (suc i) nil = nil
Fronts-drop (suc i) (cons f) = Fronts-drop i f

-- An entry in front of all rows adds nothing.
pub join_skip_entry :
    {cs : List (List Entry)} {vs : List Entry} (e : Entry) (es : List Entry)
    → Fronts cs vs
    → All (λ a. e.doc_id_offset < a.doc_id_offset) vs
    → join cs (e ∷ es) ≡ join cs es
unfolding join matches
join_skip_entry e es nil h = refl
join_skip_entry e es (cons {a} {as'} {cs} f) (h, hs) = rw (join_skip_entry e es f hs) (ground arith)

-- A row in front of all entries adds nothing.
pub join_skip_row :
    (a : Entry) (as' : List Entry) (cs : List (List Entry)) (es : List Entry)
    → All (λ e. a.doc_id_offset < e.doc_id_offset) es
    → join ((a ∷ as') ∷ cs) es ≡ join cs es
unfolding join
join_skip_row a as' cs es h = rw (matches_none (a ∷ as') a.doc_id_offset es h)

-- A row and an entry for one document, both in front of all others, make the first row.
pub join_match :
    (a : Entry) (as' : List Entry) {cs : List (List Entry)} {vs : List Entry} (e : Entry)
    (es : List Entry)
    → a.doc_id_offset ≡ e.doc_id_offset
    → Fronts cs vs
    → All (λ v. a.doc_id_offset < v.doc_id_offset) vs
    → All (λ x. e.doc_id_offset < x.doc_id_offset) es
    → join ((a ∷ as') ∷ cs) (e ∷ es) ≡ ((a ∷ as') ++ (e ∷ [])) ∷ join cs es
unfolding join matches
join_match a as' {cs} {vs} e es de f hv he =
    rw (join_skip_entry e es f (rw de at hv))
      (rw (matches_none (a ∷ as') a.doc_id_offset es (rw (← de) at he)) (ground arith))

pub join_no_entries : (cs : List (List Entry)) → join cs [] ≡ []
unfolding join matches
join_no_entries [] = refl
join_no_entries ([] ∷ cs) = join_no_entries cs
join_no_entries ((a ∷ as') ∷ cs) = join_no_entries cs

pub Fronts-get_elem? :
    {cs : List (List Entry)} {vs : List Entry} (i : ℕ) {a : Entry}
    → Fronts cs vs
    → get_elem? vs i ≡ some a
    → (as' : List Entry) × (get_elem? cs i ≡ some (a ∷ as'))
Fronts-get_elem? i nil g = cc
Fronts-get_elem? zero (cons {as'} f) g = (as', cc)
Fronts-get_elem? (suc i) (cons f) g = Fronts-get_elem? i f g

-- The entries from `i` to `p` are in front of all rows: they add nothing.
pub join_skip_entries :
    {cs : List (List Entry)} {vs : List Entry} (es : List Entry) (d k i p : ℕ)
    → i + k ≡ p
    → p ≤ length es
    → Before es d i p
    → Fronts cs vs
    → All (λ a. d ≤ a.doc_id_offset) vs
    → join cs (drop i es) ≡ join cs (drop p es)
join_skip_entries {cs} es d zero i p e n b f h =
    let e' : i ≡ p = omega arith in ap (λ x. join cs (drop x es)) e'
join_skip_entries {cs} {vs} es d (suc k) i p e n b f h =
    let (x, got, doc_x) = get_elem?-doc_at es i (omega arith) in
    let lt : doc_at es i < d = b i (omega arith) (omega arith) in
    rw (drop-step es i got) (
      join_skip_entry x (drop (suc i) es) f (
        All-mono (λ a. d ≤ a.doc_id_offset) (λ a. x.doc_id_offset < a.doc_id_offset) vs
          (λ a le. omega arith) h)
      ∙ join_skip_entries es d k (suc i) p (omega arith) n (λ j lo hi. b j (omega arith) hi) f h)

-- The rows from `i` to `p` are in front of all entries: they add nothing.
pub join_skip_rows :
    {cs : List (List Entry)} {vs : List Entry} (es : List Entry) (d k i p : ℕ)
    → i + k ≡ p
    → p ≤ length vs
    → Before vs d i p
    → Fronts cs vs
    → All (λ e. d ≤ e.doc_id_offset) es
    → join (drop i cs) es ≡ join (drop p cs) es
join_skip_rows {cs} es d zero i p e n b f h =
    let e' : i ≡ p = omega arith in ap (λ x. join (drop x cs) es) e'
join_skip_rows {cs} {vs} es d (suc k) i p e n b f h =
    let (a, got, doc_a) = get_elem?-doc_at vs i (omega arith) in
    let (as', row) = Fronts-get_elem? i f got in
    let lt : doc_at vs i < d = b i (omega arith) (omega arith) in
    rw (drop-step cs i row) (
      join_skip_row a as' (drop (suc i) cs) es (
        All-mono (λ x. d ≤ x.doc_id_offset) (λ x. a.doc_id_offset < x.doc_id_offset) es
          (λ x le. omega arith) h)
      ∙ join_skip_rows es d k (suc i) p (omega arith) n (λ j lo hi. b j (omega arith) hi) f h)

pub join_no_rows :
    {cs : List (List Entry)} (vs es : List Entry)
    → Fronts cs vs
    → join (drop (length vs) cs) es ≡ []
unfolding join
join_no_rows [] es nil = refl
join_no_rows (a ∷ vs) es (cons f) = join_no_rows vs es f
