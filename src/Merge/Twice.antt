-- ===== src/Merge/Twice.antt =====
-- A token that stands in two files.
use amigos.Base.{
  ℕ, suc, ◌+◌, ◌-◌, ◌^◌, ◌<◌, ◌≡◌, refl, arith, Bool, true, false, List, [], ◌∷◌, length, min,
}
use amigos.Run.{done}
use amigos.Entry.{Entry}
use amigos.IndexIo.{to_bytes}
use amigos.InvIndex.{flush_to_disk, write_index}
use amigos.Merge.{walk, min_token, merge_rounds, merge_files, compare_entries, tokens_left}
use amigos.Merge.Queues.{
  Queue, queue, raw, FitsQueue, pass_queues, count_items, count_queues, pass-raw,
}
use amigos.Merge.Files.{IsIndex, queues_of, count_lists, open_all-flush_to_disk}
use amigos.Merge.Single.{sorted_items, same_token, merge_rounds-single}

walk-passes_over :
    (fuel tok : ℕ) (es : List Entry) (tail : List ℕ) (more : List Entry)
    (items : List (ℕ × List Entry)) (behind : List ℕ)
    → FitsQueue (queue tok es [] tail)
    → FitsQueue (queue tok more items behind)
    → length es + (length more + count_items items) < 2 ^ 32
    → walk true
        (suc fuel)
        tok
        (raw (queue tok es [] tail) ∷ raw (queue tok more items behind) ∷ [])
        []
      ≡ done (raw (queue tok more items behind) ∷ [], es)
unfolding walk pass_queues count_queues count_items
walk-passes_over fuel tok es tail more items behind fit fit' room =
    let qs : List Queue = queue tok es [] tail ∷ queue tok more items behind ∷ [] in
    let passed = pass-raw tok false qs [] (fit, (fit', tt)) (omega (arith, room)) in
    rw (walk, passed, pass_queues, same_token tok) refl

-- Where one index file holds a single token and the next file begins with the same token,
-- `_mergeIndexes` writes this token twice, with the sorted entries of the first file and, behind them,
-- of the second one, and not once with the entries of both: the file behind the one that is used up is
-- passed over. This is so where moving `end()` forward leads to the first element, for files that fit
-- and have fewer than 2 ^ 32 entries together.
pub merge_files-twice :
    (sort : (Entry → Entry → Bool) → List Entry → List Entry) (tok : ℕ) (es more : List Entry)
    (items : List (ℕ × List Entry))
    → IsIndex ((tok, es) ∷ [])
    → IsIndex ((tok, more) ∷ items)
    → count_lists (((tok, es) ∷ []) ∷ ((tok, more) ∷ items) ∷ []) < 2 ^ 32
    → merge_files true sort
        (flush_to_disk ((tok, es) ∷ []) ∷ flush_to_disk ((tok, more) ∷ items) ∷ [])
      ≡ done (
          write_index (
            (tok, sort compare_entries es)
            ∷ (tok, sort compare_entries more)
            ∷ sorted_items sort items))
unfolding merge_files queues_of tokens_left raw count_lists count_items merge_rounds sorted_items
    min_token
merge_files-twice sort tok es more items one two room =
    let lists : List (List (ℕ × List Entry)) = ((tok, es) ∷ []) ∷ ((tok, more) ∷ items) ∷ [] in
    let fuel : 1 + (suc (length items) + 0) ≡ suc (suc (length items)) = omega arith in
    let small : tok < 2 ^ 32 = one.0.0.0 in
    let first : min (min (2 ^ 32 - 1) tok) tok ≡ tok = omega (arith, small) in
    let walked =
      walk-passes_over 2 tok es (to_bytes 4 1) more items (to_bytes 4 (suc (length items))) one.0
        two.0 (omega (arith, room)) in
    let rest =
      merge_rounds-single sort (suc (length items)) tok more items (to_bytes 4 (suc (length items)))
        two.0 (omega (arith, room)) (omega arith) in
    rw
      (
        merge_files,
        open_all-flush_to_disk lists (one, (two, tt)),
        fuel,
        merge_rounds,
        first,
        walked,
        rest,
      )
      refl
