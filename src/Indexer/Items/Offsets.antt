-- ===== src/Indexer/Items/Offsets.antt =====
-- The entries of the index in memory belong to documents that are stored, and its tokens ascend.
use mathlib.Core.Option.{some-injective}
use mathlib.Core.Path.{subst}
use amigos.Base.{
  ℕ, ◌%◌, ◌^◌, ◌≤◌, ◌<◌, ◌≡◌, sym, ap, Option-cases, arith, List, [], ◌∷◌, some, inl, inr, All,
  All-append, All-mono, length, ltb, ltb→lt, ltb→le, ◌==◌, Bool-cases,
}
use amigos.Entry.{Entry}
use amigos.Posting.{DynPostingStore, split_by_zones, new_entry}
use amigos.Indexer.Words.{make_entry, push_entry, add_entries}
use amigos.Indexer.Flush.{Indexer}

-- The tokens ascend, and each entry belongs to one of the first `n` documents.
abbrev pub IsIndex : ℕ → List (ℕ × List Entry) → Type 0
IsIndex n [] = Unit
IsIndex n ((t, es) ∷ inv_idx) =
    All (λ e. e.doc_id_offset < n) es × All (λ p. t < p.0) inv_idx × IsIndex n inv_idx

-- The index of an indexer, with its documents.
abbrev pub IsIndexed : {Db : Type 0} → Indexer Db → Type 0
IsIndexed indexer = IsIndex (length indexer.doc_store.doc_ids) indexer.inv_idx

pub IsIndex-mono :
    (m n : ℕ) (inv_idx : List (ℕ × List Entry)) → m ≤ n → IsIndex m inv_idx → IsIndex n inv_idx
IsIndex-mono m n [] le h = tt
IsIndex-mono m n ((t, es) ∷ inv_idx) le (hs, above, h) = (
  All-mono (λ e. e.doc_id_offset < m) (λ e. e.doc_id_offset < n) es (λ e lt. omega arith) hs,
  above,
  IsIndex-mono m n inv_idx le h,
)

push_entry-above :
    (s tok : ℕ) (entry : Entry) (inv_idx : List (ℕ × List Entry))
    → s < tok
    → All (λ p. s < p.0) inv_idx
    → All (λ p. s < p.0) (push_entry inv_idx tok entry)
unfolding push_entry
push_entry-above s tok entry [] lt h = (lt, tt)
push_entry-above s tok entry ((t, es) ∷ inv_idx) lt (h, hs) = elim (Bool-cases (ltb tok t)) [
  | inl before ↦ rw before (lt, (h, hs))
  | inr after ↦ elim (Bool-cases (t == tok)) [
    | inl same ↦ rw (after, same) (h, hs)
    | inr differ ↦ rw (after, differ) (h, push_entry-above s tok entry inv_idx lt hs)
  ]
]

push_entry-IsIndex :
    (n tok : ℕ) (entry : Entry) (inv_idx : List (ℕ × List Entry))
    → entry.doc_id_offset < n
    → IsIndex n inv_idx
    → IsIndex n (push_entry inv_idx tok entry)
unfolding push_entry
push_entry-IsIndex n tok entry [] lt h = ((lt, tt), tt, tt)
push_entry-IsIndex n tok entry ((t, es) ∷ inv_idx) lt (hs, above, h) =
    elim (Bool-cases (ltb tok t)) [
      | inl before ↦ rw before (
        (lt, tt),
        (
          ltb→lt tok t before,
          All-mono (λ p. t < p.0) (λ p. tok < p.0) inv_idx
              (λ p l. omega (arith, ltb→lt tok t before)) above,
        ),
        (hs, above, h),
      )
      | inr after ↦ elim (Bool-cases (t == tok)) [
        | inl same ↦
            rw (after, same)
              (All-append (λ e. e.doc_id_offset < n) es (entry ∷ []) hs (lt, tt), above, h)
        | inr differ ↦
            let later : t < tok = ground (arith, differ, ltb→le tok t after) in
            rw (after, differ)
              (
                hs,
                push_entry-above t tok entry inv_idx later above,
                push_entry-IsIndex n tok entry inv_idx lt h,
              )
      ]
    ]

make_entry-offset :
    (words_cnt : List ℕ) (store : DynPostingStore) (doc : ℕ) (posting : List ℕ) (entry : Entry)
    (store' : DynPostingStore)
    → make_entry words_cnt store doc posting ≡ some (entry, store')
    → entry.doc_id_offset ≡ doc % 2 ^ 32
unfolding make_entry
make_entry-offset words_cnt store doc posting entry store' h =
    elim (Option-cases (split_by_zones posting words_cnt [] new_entry)) [
      | inl e ↦ absurd (let h' = rw (e, make_entry) at h in cc)
      | inr ((buf, en), e) ↦
          let h' = rw (e, make_entry) at h in
          ap (λ p. p.0.doc_id_offset) (sym (some-injective _ _ h'))
    ]

pub add_entries-IsIndex :
    (words_cnt : List ℕ) (doc n : ℕ) (dict : List (ℕ × List ℕ))
    (inv_idx inv_idx' : List (ℕ × List Entry)) (store store' : DynPostingStore)
    → doc < n
    → add_entries words_cnt doc dict inv_idx store ≡ some (inv_idx', store')
    → IsIndex n inv_idx
    → IsIndex n inv_idx'
unfolding add_entries
add_entries-IsIndex words_cnt doc n [] inv_idx inv_idx' store store' lt h index =
    subst (λ p. IsIndex n p.0) (some-injective _ _ h) index
add_entries-IsIndex words_cnt doc n ((tok, posting) ∷ dict) inv_idx inv_idx' store store' lt h
      index =
    elim (Option-cases (make_entry words_cnt store doc posting)) [
      | inl e ↦ absurd (let h' = rw (e, add_entries) at h in cc)
      | inr ((entry, next), e) ↦
          let offset = make_entry-offset words_cnt store doc posting entry next e in
          add_entries-IsIndex words_cnt doc n dict (push_entry inv_idx tok entry) inv_idx' next
            store' lt (rw (e, add_entries) at h)
            (push_entry-IsIndex n tok entry inv_idx (omega (arith, offset)) index)
    ]
