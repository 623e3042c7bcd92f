-- ===== src/Ranker/Draft/Frozen.antt =====
-- What the words of a query add to the rank of a document.
use mathlib.Core.Option.{some-injective}
use mathlib.Core.Path.{subst}
use amigos.Base.{
  append-nil, ℕ, zero, suc, ◌+◌, ◌≡◌, ◌∙◌, sym, List, [], ◌∷◌, ◌++◌, some, inl, inr, get_elem?,
  length, ◌==◌, Bool-cases, bind-eq-some, append_assoc,
}
use Prim.Native.Nat.{bit_and}
use amigos.Entry.{Entry}
use amigos.DocStore.{DocStorage, get_t_zone_w_cnt}
use amigos.Posting.{i2mask}
use amigos.Ranker.Draft.{Doubles, zones_tf_loop, get_zones_tf, weight, draft_loop}

module _ (doubles : Doubles) where
  open doubles use {D, nought, fifth, five, plus, times, quotient}

  -- The values of an entry go behind what `zonesTf` holds.
  zones_tf_loop-appends :
      (count zi : ℕ) (store : DocStorage) (entry : Entry) (tf_vec res : List D)
      → zones_tf_loop doubles count zi store entry tf_vec ≡ some res
      → (more : List D) × (res ≡ tf_vec ++ more)
  unfolding zones_tf_loop
  zones_tf_loop-appends zero zi store entry tf_vec res h =
      ([], sym (some-injective _ _ h) ∙ sym (append-nil tf_vec))
  zones_tf_loop-appends (suc count) zi store entry tf_vec res h =
      let (mask, e, h1) = bind-eq-some (i2mask zi) _ h in
      elim (Bool-cases (bit_and mask entry.posting_info.in_zone == 0)) [
        | inl absent ↦
            let (more, eq) =
              zones_tf_loop-appends count (zi + 1) store entry (tf_vec ++ (nought ∷ [])) res
                (rw absent at h1) in
            (nought ∷ more, eq ∙ append_assoc tf_vec (nought ∷ []) more)
        | inr present ↦
            let (size, e2, h2) =
              bind-eq-some (get_elem? entry.posting_info.posting_sizes 0) _ (rw present at h1) in
            let (words, e3, h3) =
              bind-eq-some (get_t_zone_w_cnt store entry.doc_id_offset zi) _ h2 in
            let (more, eq) =
              zones_tf_loop-appends count (zi + 1) store entry
                (tf_vec ++ (quotient size words ∷ [])) res h3 in
            (quotient size words ∷ more, eq ∙ append_assoc tf_vec (quotient size words ∷ []) more)
      ]

  get_elem?-front :
      (xs ys : List D) (i : ℕ) (x : D) → get_elem? xs i ≡ some x → get_elem? (xs ++ ys) i ≡ some x
  get_elem?-front [] ys i x h = absurd (cc)
  get_elem?-front (y ∷ xs) ys zero x h = h
  get_elem?-front (y ∷ xs) ys (suc i) x h = get_elem?-front xs ys i x h

  weight-front :
      (zones_tf more : List D) (w : D)
      → weight doubles zones_tf ≡ some w
      → weight doubles (zones_tf ++ more) ≡ some w
  unfolding weight
  weight-front zones_tf more w h =
      let (title, e0, h0) = bind-eq-some (get_elem? zones_tf 0) _ h in
      let (desc, e1, h1) = bind-eq-some (get_elem? zones_tf 1) _ h0 in
      let (sub, e2, h2) = bind-eq-some (get_elem? zones_tf 2) _ h1 in
      rw
        (
          get_elem?-front zones_tf more 0 title e0,
          get_elem?-front zones_tf more 1 desc e1,
          get_elem?-front zones_tf more 2 sub e2,
        )
        h2

  -- The sum, with one weight for all words.
  abbrev pub add_weights : D → ℕ → List D → D → D
  add_weights w zero idfs rank = rank
  add_weights w (suc n) [] rank = rank
  add_weights w (suc n) (idf ∷ idfs) rank = add_weights w n idfs (plus rank (times idf w))

  draft_loop-weights :
      (text_zones : ℕ) (store : DocStorage) (entries : List Entry) (idfs zones_tf : List D)
      (w rank res : D)
      → weight doubles zones_tf ≡ some w
      → draft_loop doubles text_zones store entries idfs zones_tf rank ≡ some res
      → res ≡ add_weights w (length entries) idfs rank
  unfolding draft_loop get_zones_tf
  draft_loop-weights text_zones store [] idfs zones_tf w rank res hw h = sym (some-injective _ _ h)
  draft_loop-weights text_zones store (entry ∷ entries) [] zones_tf w rank res hw h = absurd (cc)
  draft_loop-weights text_zones store (entry ∷ entries) (idf ∷ idfs) zones_tf w rank res hw h =
      let (tf, e, h1) = bind-eq-some (get_zones_tf doubles text_zones store entry zones_tf) _ h in
      let (more, eq) = zones_tf_loop-appends text_zones 0 store entry zones_tf tf e in
      let tf_weight : weight doubles tf ≡ some w = rw eq (weight-front zones_tf more w hw) in
      let (w', e2, h2) = bind-eq-some (weight doubles tf) _ h1 in
      let same_weight : w' ≡ w = some-injective _ _ (sym e2 ∙ tf_weight) in
      draft_loop-weights text_zones store entries idfs tf w (plus rank (times idf w)) res tf_weight
        (subst
          (λ v.
            draft_loop doubles text_zones store entries idfs tf (plus rank (times idf v))
            ≡ some res)
          same_weight h2)

-- Where `get_draft_rank` sums over the words of a query without a read out of range, the entry of
-- the first word alone gives the weight: every word adds its inverse frequency times the weight of
-- the first word's entry, and where the other words stand in the document plays no part.
pub draft_loop-first :
    (doubles : Doubles) (text_zones : ℕ) (store : DocStorage) (entry : Entry) (entries : List Entry)
    (idfs : List doubles.D) (zones_tf : List doubles.D) (w rank res : doubles.D)
    → get_zones_tf doubles text_zones store entry [] ≡ some zones_tf
    → weight doubles zones_tf ≡ some w
    → draft_loop doubles text_zones store (entry ∷ entries) idfs [] rank ≡ some res
    → res ≡ add_weights doubles w (length (entry ∷ entries)) idfs rank
unfolding draft_loop
draft_loop-first doubles text_zones store entry entries [] zones_tf w rank res tf_eq w_eq h =
    absurd (cc)
draft_loop-first doubles text_zones store entry entries (idf ∷ idfs) zones_tf w rank res tf_eq w_eq
      h =
    draft_loop-weights doubles text_zones store entries idfs zones_tf w
      (doubles.plus rank (doubles.times idf w)) res w_eq (rw (draft_loop, tf_eq, w_eq) at h)
