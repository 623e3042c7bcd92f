-- ===== src/Merge/Ends.antt =====
-- The iterator behind the last index that is erased.
use amigos.Base.{
  ℕ, zero, suc, ◌-◌, ◌^◌, ◌≤◌, ◌<◌, ◌≡◌, ◌⊎◌, refl, arith, Bool, true, false, List, [], ◌∷◌, ◌++◌,
  All, inl, inr, map, length, ◌==◌, Bool-cases,
}
use amigos.Run.{undefined}
use amigos.Entry.{Entry}
use amigos.InvIndex.{flush_to_disk}
use amigos.Merge.{walk, merge_rounds, merge_files}
use amigos.Merge.Queues.{Queue, queue, raw, FitsQueue, pass_queues, count_queues, pass-raw}
use amigos.Merge.Totals.{queues_left}
use amigos.Merge.Steps.{pass_queues-Passes}
use amigos.Merge.Rounds.{least, least-there, min_token-least}
use amigos.Merge.Files.{
  IsIndex, queues_of, count_lists, open_all-flush_to_disk, queues_of-FitsQueue,
  count_queues-queues_of, tokens_left-raw,
}

-- A loop that ends at `end()` leaves an index, unless it found none.
pass_queues-remains :
    (t : ℕ) (skip : Bool) (qs : List Queue) (es : List Entry)
    → (pass_queues t skip qs es).0 ≡ false
    → (skip ≡ true) ⊎ (0 < length qs)
    → 0 < length (pass_queues t skip qs es).1
unfolding pass_queues
pass_queues-remains t false [] es h (inl e) = cc
pass_queues-remains t false [] es h (inr e) = e
pass_queues-remains t true [] es h e = cc
pass_queues-remains t true (q ∷ qs) es h e = omega arith
pass_queues-remains t false (queue tok entries [] tail ∷ qs) es h e = elim (Bool-cases (tok == t)) [
  | inl here ↦
      rw (pass_queues, here)
        (pass_queues-remains t true qs (es ++ entries) (rw (pass_queues, here) at h) (inl refl))
  | inr other ↦ rw (pass_queues, other) (omega arith)
]
pass_queues-remains t false (queue tok entries ((next, more) ∷ items) tail ∷ qs) es h e =
    elim (Bool-cases (tok == t)) [
      | inl here ↦ rw (pass_queues, here) (omega arith)
      | inr other ↦ rw (pass_queues, other) (omega arith)
    ]

merge_rounds-undefined :
    (sort : (Entry → Entry → Bool) → List Entry → List Entry) (fuel : ℕ) (qs : List Queue)
    → 0 < length qs
    → All FitsQueue qs
    → count_queues qs < 2 ^ 32
    → queues_left qs ≤ fuel
    → merge_rounds false sort fuel (map raw qs) ≡ undefined
unfolding merge_rounds queues_left walk
merge_rounds-undefined sort fuel [] some_queue fits room enough = absurd (omega (arith, some_queue))
merge_rounds-undefined sort zero (queue tok es items tail ∷ qs) some_queue fits room enough =
    absurd (omega (arith, enough))
merge_rounds-undefined sort (suc fuel) (q ∷ qs) some_queue fits room enough =
    let t = least (2 ^ 32 - 1) (q ∷ qs) in
    let r = pass_queues t false (q ∷ qs) [] in
    let p = pass_queues-Passes t false (q ∷ qs) [] fits in
    let passed = pass-raw t false (q ∷ qs) [] fits (omega (arith, room)) in
    let first = min_token-least (2 ^ 32 - 1) (q ∷ qs) in
    elim (Bool-cases r.0) [
      | inl beyond ↦ rw (merge_rounds, first, walk, passed, beyond) refl
      | inr inside ↦
          let next =
            merge_rounds-undefined sort fuel r.1
              (pass_queues-remains t false (q ∷ qs) [] inside (inr some_queue)) p.takes.fits
              (omega (arith, p.takes.counted, room))
              (omega (arith, p.progress refl (least-there q qs fits), enough)) in
          rw (merge_rounds, first, walk, passed, inside, next) refl
    ]

-- Where moving `end()` forward is undefined, so is each run of `_mergeIndexes` on the files that
-- `_flushToDisk` has written for one map or more that are not empty, with fewer than 2 ^ 32 entries
-- together: the index that stands last in the list is erased at some time.
pub merge_files-undefined :
    (sort : (Entry → Entry → Bool) → List Entry → List Entry) (items : List (ℕ × List Entry))
    (lists : List (List (ℕ × List Entry)))
    → All IsIndex (items ∷ lists)
    → count_lists (items ∷ lists) < 2 ^ 32
    → merge_files false sort (map flush_to_disk (items ∷ lists)) ≡ undefined
unfolding merge_files queues_of
merge_files-undefined sort [] lists (h, hs) room = absurd h
merge_files-undefined sort ((tok, es) ∷ items) lists files room =
    let all : List (List (ℕ × List Entry)) = ((tok, es) ∷ items) ∷ lists in
    let qs = queues_of all in
    let rounds =
      merge_rounds-undefined sort (queues_left qs) qs (omega arith) (queues_of-FitsQueue all files)
        (omega (arith, count_queues-queues_of all, room)) (omega arith) in
    rw (merge_files, open_all-flush_to_disk all files, tokens_left-raw qs, rounds) refl
