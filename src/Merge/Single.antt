-- ===== src/Merge/Single.antt =====
-- The merge of the only index file of a first run.
use amigos.Base.{
  ℕ, zero, suc, ◌+◌, ◌-◌, ◌^◌, ◌<◌, ◌≡◌, refl, arith, Bool, true, false, List, [], ◌∷◌, length, min,
  ◌==◌,
}
use amigos.Run.{done}
use amigos.Entry.{Entry}
use amigos.IndexIo.{to_bytes}
use amigos.InvIndex.{flush_to_disk, write_index}
use amigos.Merge.{walk, pass, min_token, merge_rounds, merge_files, compare_entries, tokens_left}
use amigos.Merge.Queues.{queue, raw, FitsQueue, pass_queues, count_items, count_queues, pass-raw}
use amigos.Merge.Files.{IsIndex, queues_of, open_all-flush_to_disk}

pub same_token : (t : ℕ) → (t == t) ≡ true
same_token t = ground arith

walk-last :
    (fuel tok : ℕ) (es : List Entry) (tail : List ℕ)
    → FitsQueue (queue tok es [] tail)
    → walk true (suc (suc fuel)) tok (raw (queue tok es [] tail) ∷ []) [] ≡ done ([], es)
unfolding walk pass pass_queues count_queues count_items
walk-last fuel tok es tail ((small, many, es_fit), fits) =
    let q = queue tok es [] tail in
    let passed = pass-raw tok false (q ∷ []) [] (((small, many, es_fit), fits), tt) (omega arith) in
    rw (walk, passed, pass_queues, same_token tok) refl

walk-next :
    (fuel tok : ℕ) (es : List Entry) (next : ℕ) (more : List Entry) (items : List (ℕ × List Entry))
    (tail : List ℕ)
    → FitsQueue (queue tok es ((next, more) ∷ items) tail)
    → length es + count_items ((next, more) ∷ items) < 2 ^ 32
    → walk true (suc (suc fuel)) tok (raw (queue tok es ((next, more) ∷ items) tail) ∷ []) []
      ≡ done (raw (queue next more items tail) ∷ [], es)
unfolding walk pass_queues count_queues
walk-next fuel tok es next more items tail fit room =
    let q = queue tok es ((next, more) ∷ items) tail in
    let passed = pass-raw tok false (q ∷ []) [] (fit, tt) (omega (arith, room)) in
    rw (walk, passed, pass_queues, same_token tok) refl

module _ (sort : (Entry → Entry → Bool) → List Entry → List Entry) where
  -- The items with the entries of each token sorted.
  unfoldable pub sorted_items : List (ℕ × List Entry) → List (ℕ × List Entry)
  sorted_items [] = []
  sorted_items ((tok, es) ∷ items) = (tok, sort compare_entries es) ∷ sorted_items items

  pub merge_rounds-single :
      (fuel tok : ℕ) (es : List Entry) (items : List (ℕ × List Entry)) (tail : List ℕ)
      → FitsQueue (queue tok es items tail)
      → length es + count_items items < 2 ^ 32
      → length items < fuel
      → merge_rounds true sort fuel (raw (queue tok es items tail) ∷ [])
        ≡ done (sorted_items ((tok, es) ∷ items))
  unfolding merge_rounds sorted_items raw min_token count_items
  merge_rounds-single zero tok es items tail fit room enough = absurd (omega (arith, enough))
  merge_rounds-single (suc fuel) tok es [] tail ((small, many, es_fit), fits) room enough =
      let first : min (2 ^ 32 - 1) tok ≡ tok = omega (arith, small) in
      rw (merge_rounds, min_token, first, walk-last 0 tok es tail ((small, many, es_fit), fits))
        refl
  merge_rounds-single (suc fuel) tok es ((next, more) ∷ items) tail ((small, many, es_fit), fits)
        room enough =
      let first : min (2 ^ 32 - 1) tok ≡ tok = omega (arith, small) in
      let walked = walk-next 0 tok es next more items tail ((small, many, es_fit), fits) room in
      let rest =
        merge_rounds-single fuel next more items tail fits (omega (arith, room))
          (omega (arith, enough)) in
      rw (merge_rounds, min_token, first, walked, rest) refl

  pub merge_files-single :
      (tok : ℕ) (es : List Entry) (items : List (ℕ × List Entry))
      → IsIndex ((tok, es) ∷ items)
      → count_items ((tok, es) ∷ items) < 2 ^ 32
      → merge_files true sort (flush_to_disk ((tok, es) ∷ items) ∷ [])
        ≡ done (write_index (sorted_items ((tok, es) ∷ items)))
  unfolding merge_files queues_of tokens_left raw count_items
  merge_files-single tok es items is room =
      let all : List (List (ℕ × List Entry)) = ((tok, es) ∷ items) ∷ [] in
      let fuel : suc (length items) + 0 ≡ suc (length items) = omega arith in
      let rounds =
        merge_rounds-single (suc (length items)) tok es items (to_bytes 4 (suc (length items))) is.0
          (omega (arith, room)) (omega arith) in
      rw (merge_files, open_all-flush_to_disk all (is, tt), tokens_left, fuel, rounds) refl
