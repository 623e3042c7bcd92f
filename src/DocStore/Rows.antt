-- ===== src/DocStore/Rows.antt =====
-- `addDoc` keeps the columns level, and the getters find each document's own row.
use amigos.Base.{
  ℕ, zero, suc, ◌+◌, ◌<◌, ◌≡◌, refl, List, [], ◌∷◌, ◌++◌, some, arith, length, length-append, All,
  get_elem?, ◌>>=◌, ◌⊎◌, inl, inr,
}
use native.Mathlib.Decide.{ℕ_discrete}
use amigos.DocStore.{
  DocStorage, ok, throws, wrong_zone_counts, get_doc_id, get_num_zone, get_t_zone_w_cnt, push_row,
  add_doc,
}

-- Every column holds one value for each document.
pub record IsLevel (s : DocStorage) : Type 0 where
  pub num_level : All (λ col. length col ≡ length s.doc_ids) s.n_zones
  pub text_level : All (λ col. length col ≡ length s.doc_ids) s.t_zones_w_cnt

get_elem?-concat_old {ℓ} :
    {A : Type ℓ} (xs : List A) (x : A) (i : ℕ)
    → i < length xs
    → get_elem? (xs ++ (x ∷ [])) i ≡ get_elem? xs i
get_elem?-concat_old [] x i h = elim h [ ]
get_elem?-concat_old (y ∷ xs) x zero h = refl
get_elem?-concat_old (y ∷ xs) x (suc i) h = get_elem?-concat_old xs x i (omega arith)

get_elem?-concat_new {ℓ} :
    {A : Type ℓ} (xs : List A) (x : A) (i : ℕ)
    → length xs ≡ i
    → get_elem? (xs ++ (x ∷ [])) i ≡ some x
get_elem?-concat_new [] x zero h = refl
get_elem?-concat_new [] x (suc i) h = absurd (omega arith)
get_elem?-concat_new (y ∷ xs) x zero h = absurd (omega arith)
get_elem?-concat_new (y ∷ xs) x (suc i) h = get_elem?-concat_new xs x i (omega arith)

push_row-level :
    (n : ℕ) (cols : List (List ℕ)) (vals : List ℕ)
    → length vals ≡ length cols
    → All (λ col. length col ≡ n) cols
    → All (λ col. length col ≡ suc n) (push_row cols vals)
unfolding push_row
push_row-level n [] vals e h = tt
push_row-level n (col ∷ cols) [] e h = absurd (omega arith)
push_row-level n (col ∷ cols) (v ∷ vals) e (h, hs) =
    (omega (arith, length-append col (v ∷ [])), push_row-level n cols vals (omega arith) hs)

push_row_new :
    (n : ℕ) (cols : List (List ℕ)) (vals : List ℕ) (zone : ℕ)
    → length vals ≡ length cols
    → All (λ col. length col ≡ n) cols
    → (get_elem? (push_row cols vals) zone >>= λ col. get_elem? col n) ≡ get_elem? vals zone
unfolding push_row
push_row_new n [] [] zone e h = refl
push_row_new n [] (v ∷ vals) zone e h = absurd (omega arith)
push_row_new n (col ∷ cols) [] zone e h = absurd (omega arith)
push_row_new n (col ∷ cols) (v ∷ vals) zero e (h, hs) = get_elem?-concat_new col v n h
push_row_new n (col ∷ cols) (v ∷ vals) (suc zone) e (h, hs) =
    push_row_new n cols vals zone (omega arith) hs

push_row_old :
    (n i : ℕ) (cols : List (List ℕ)) (vals : List ℕ) (zone : ℕ)
    → i < n
    → length vals ≡ length cols
    → All (λ col. length col ≡ n) cols
    → (get_elem? (push_row cols vals) zone >>= λ col. get_elem? col i)
      ≡ (get_elem? cols zone >>= λ col. get_elem? col i)
unfolding push_row
push_row_old n i [] vals zone lt e h = refl
push_row_old n i (col ∷ cols) [] zone lt e h = absurd (omega arith)
push_row_old n i (col ∷ cols) (v ∷ vals) zero lt e (h, hs) =
    get_elem?-concat_old col v i (omega arith)
push_row_old n i (col ∷ cols) (v ∷ vals) (suc zone) lt e (h, hs) =
    push_row_old n i cols vals zone lt (omega arith) hs

-- `t` is `s` with one more document, whose number and zones the getters return at the next
-- offset; at all earlier offsets they return what they did.
pub record Adds (s t : DocStorage) (doc_id : ℕ) (nums texts : List ℕ) : Type 0 where
  pub level : IsLevel t
  pub grown : length t.doc_ids ≡ length s.doc_ids + 1
  pub new_id : get_doc_id t (length s.doc_ids) ≡ some doc_id
  pub new_num : (z : ℕ) → get_num_zone t (length s.doc_ids) z ≡ get_elem? nums z
  pub new_text : (z : ℕ) → get_t_zone_w_cnt t (length s.doc_ids) z ≡ get_elem? texts z
  pub old_id : (i : ℕ) → i < length s.doc_ids → get_doc_id t i ≡ get_doc_id s i
  pub old_num : (i z : ℕ) → i < length s.doc_ids → get_num_zone t i z ≡ get_num_zone s i z
  pub old_text : (i z : ℕ) → i < length s.doc_ids → get_t_zone_w_cnt t i z ≡ get_t_zone_w_cnt s i z

pushed :
    (s : DocStorage) (doc_id : ℕ) (nums texts : List ℕ)
    → IsLevel s
    → length nums ≡ length s.n_zones
    → length texts ≡ length s.t_zones_w_cnt
    → Adds s
        (record {
          doc_ids = s.doc_ids ++ (doc_id ∷ []);
          n_zones = push_row s.n_zones nums;
          t_zones_w_cnt = push_row s.t_zones_w_cnt texts;
        })
        doc_id
        nums
        texts
unfolding get_doc_id get_num_zone get_t_zone_w_cnt
pushed s doc_id nums texts l en et = record {
  level = record {
    num_level = rw count (push_row-level (length s.doc_ids) s.n_zones nums en l.num_level);
    text_level = rw count (push_row-level (length s.doc_ids) s.t_zones_w_cnt texts et l.text_level);
  };
  grown = omega (arith, count);
  new_id = get_elem?-concat_new s.doc_ids doc_id _ refl;
  new_num = λ z. push_row_new (length s.doc_ids) s.n_zones nums z en l.num_level;
  new_text = λ z. push_row_new (length s.doc_ids) s.t_zones_w_cnt texts z et l.text_level;
  old_id = λ i h. get_elem?-concat_old s.doc_ids doc_id i h;
  old_num = λ i z h. push_row_old (length s.doc_ids) i s.n_zones nums z h en l.num_level;
  old_text = λ i z h. push_row_old (length s.doc_ids) i s.t_zones_w_cnt texts z h et l.text_level;
}
  where
    count : length (s.doc_ids ++ (doc_id ∷ [])) ≡ suc (length s.doc_ids)
    count = omega (arith, length-append s.doc_ids (doc_id ∷ []))

-- `addDoc` on a level storage: with as many values as there are columns of either kind it adds
-- the document's row and keeps the columns level and all earlier rows; otherwise it throws.
pub add_doc-Adds :
    (s : DocStorage) (doc_id : ℕ) (nums texts : List ℕ)
    → IsLevel s
    → ((length nums ≡ length s.n_zones)
        × (length texts ≡ length s.t_zones_w_cnt)
        × ((t : DocStorage) × (add_doc s doc_id nums texts ≡ ok t) × Adds s t doc_id nums texts))
      ⊎ (¬ ((length nums ≡ length s.n_zones) × (length texts ≡ length s.t_zones_w_cnt))
          × (add_doc s doc_id nums texts ≡ throws wrong_zone_counts))
unfolding add_doc
add_doc-Adds s doc_id nums texts l = elim (ℕ_discrete (length nums) (length s.n_zones)) [
  | no differ ↦ inr ((λ h. differ h.0), ground arith)
  | yes en ↦ elim (ℕ_discrete (length texts) (length s.t_zones_w_cnt)) [
    | no differ ↦ inr ((λ h. differ h.1), ground arith)
    | yes et ↦ inl (en, et, (_, ground arith, pushed s doc_id nums texts l en et))
  ]
]
