-- ===== src/Merge/Files.antt =====
-- The merge of whole files.
use amigos.Base.{
  ℕ, suc, ◌+◌, ◌^◌, ◌<◌, ◌≡◌, refl, ◌∙◌, arith, Bool, true, List, [], ◌∷◌, All, map, length, some,
  none,
}
use amigos.Run.{done}
use amigos.Entry.{Entry}
use amigos.IndexIo.{to_bytes}
use amigos.IndexIo.RoundTrip.{read_from_end_lem}
use amigos.InvIndex.{flush_to_disk, write_index}
use amigos.InvIndex.Items.{items_bytes, flush_to_disk-items_bytes}
use amigos.InvIndex.Load.{FitsItem}
use amigos.Merge.{open_raw_index, open_all, merge_files, tokens_left}
use amigos.Merge.Queues.{
  Queue, queue, raw, FitsQueue, count_items, count_queues, read_next_token-raw,
}
use amigos.Merge.Totals.{queues_left, queues_total, items_total}
use amigos.Merge.Steps.{Rising, IsFrom}
use amigos.Merge.Rounds.{KeepsTotal, InOrder, merge_rounds-Merged}

-- The items of an index file that holds one at least, as an `std::map` lists them.
abbrev pub IsIndex : List (ℕ × List Entry) → Type 0
IsIndex [] = ⊥
IsIndex ((tok, es) ∷ items) =
    All FitsItem ((tok, es) ∷ items) × Rising tok items × (suc (length items) < 2 ^ 32)

unfoldable pub queues_of : List (List (ℕ × List Entry)) → List Queue
queues_of [] = []
queues_of ([] ∷ lists) = queues_of lists
queues_of (((tok, es) ∷ items) ∷ lists) =
    queue tok es items (to_bytes 4 (suc (length items))) ∷ queues_of lists

unfoldable pub count_lists : List (List (ℕ × List Entry)) → ℕ
unfolding count_items
count_lists [] = 0
count_lists (items ∷ lists) = count_items items + count_lists lists

unfoldable pub lists_total : (Entry → ℕ) → ℕ → List (List (ℕ × List Entry)) → ℕ
unfolding items_total
lists_total w t [] = 0
lists_total w t (items ∷ lists) = items_total w t items + lists_total w t lists

open_raw_index-flush_to_disk :
    (tok : ℕ) (es : List Entry) (items : List (ℕ × List Entry))
    → IsIndex ((tok, es) ∷ items)
    → open_raw_index (flush_to_disk ((tok, es) ∷ items))
      ≡ some (raw (queue tok es items (to_bytes 4 (suc (length items)))))
unfolding open_raw_index
open_raw_index-flush_to_disk tok es items (((small, many, es_fit), fits), rising, few) =
    let pairs : List (ℕ × List Entry) = (tok, es) ∷ items in
    let file = flush_to_disk-items_bytes pairs in
    let size =
      read_from_end_lem [] (flush_to_disk pairs) (items_bytes pairs) (suc (length items)) file
        few in
    let first = read_next_token-raw tok none es items (to_bytes 4 (suc (length items))) small in
    rw (open_raw_index, size) (rw file (rw first refl))

pub open_all-flush_to_disk :
    (lists : List (List (ℕ × List Entry)))
    → All IsIndex lists
    → open_all (map flush_to_disk lists) ≡ some (map raw (queues_of lists))
unfolding open_all queues_of
open_all-flush_to_disk [] h = refl
open_all-flush_to_disk ([] ∷ lists) (h, hs) = absurd h
open_all-flush_to_disk (((tok, es) ∷ items) ∷ lists) (h, hs) =
    rw (open_all, open_raw_index-flush_to_disk tok es items h, open_all-flush_to_disk lists hs) refl

pub queues_of-FitsQueue :
    (lists : List (List (ℕ × List Entry))) → All IsIndex lists → All FitsQueue (queues_of lists)
unfolding queues_of
queues_of-FitsQueue [] h = tt
queues_of-FitsQueue ([] ∷ lists) (h, hs) = absurd h
queues_of-FitsQueue (((tok, es) ∷ items) ∷ lists) ((fits, rising, few), hs) =
    (fits, queues_of-FitsQueue lists hs)

queues_of-IsFrom :
    (lists : List (List (ℕ × List Entry))) → All IsIndex lists → All (IsFrom 0) (queues_of lists)
unfolding queues_of
queues_of-IsFrom [] h = tt
queues_of-IsFrom ([] ∷ lists) (h, hs) = absurd h
queues_of-IsFrom (((tok, es) ∷ items) ∷ lists) ((fits, rising, few), hs) =
    ((omega arith, rising), queues_of-IsFrom lists hs)

pub count_queues-queues_of :
    (lists : List (List (ℕ × List Entry))) → count_queues (queues_of lists) ≡ count_lists lists
unfolding queues_of count_queues count_lists count_items
count_queues-queues_of [] = refl
count_queues-queues_of ([] ∷ lists) = omega (arith, count_queues-queues_of lists)
count_queues-queues_of (((tok, es) ∷ items) ∷ lists) = omega (arith, count_queues-queues_of lists)

queues_total-queues_of :
    (w : Entry → ℕ) (t : ℕ) (lists : List (List (ℕ × List Entry)))
    → queues_total w t (queues_of lists) ≡ lists_total w t lists
unfolding queues_of queues_total lists_total items_total
queues_total-queues_of w t [] = refl
queues_total-queues_of w t ([] ∷ lists) = omega (arith, queues_total-queues_of w t lists)
queues_total-queues_of w t (((tok, es) ∷ items) ∷ lists) =
    omega (arith, queues_total-queues_of w t lists)

pub tokens_left-raw : (qs : List Queue) → tokens_left (map raw qs) ≡ queues_left qs
unfolding tokens_left queues_left raw
tokens_left-raw [] = refl
tokens_left-raw (queue tok es items tail ∷ qs) = omega (arith, tokens_left-raw qs)

-- Where moving `end()` forward leads to the first element: on the files that `_flushToDisk` has
-- written for maps that are not empty, with fewer than 2 ^ 32 entries together, `_mergeIndexes` ends.
-- What it writes are items whose tokens do not fall, and for each token it writes the entries that the
-- files have for this token, as the totals by any weight show, if `std::sort` keeps these totals.
pub merge_files-total :
    (sort : (Entry → Entry → Bool) → List Entry → List Entry) (lists : List (List (ℕ × List Entry)))
    → KeepsTotal sort
    → All IsIndex lists
    → count_lists lists < 2 ^ 32
    → (rounds : List (ℕ × List Entry)) × (merge_files true sort (map flush_to_disk lists)
        ≡ done (write_index rounds))
      × InOrder 0 rounds
      × ((w : Entry → ℕ) (t : ℕ) → items_total w t rounds ≡ lists_total w t lists)
unfolding merge_files
merge_files-total sort lists keeps files room =
    let qs = queues_of lists in
    let merged =
      merge_rounds-Merged sort (queues_left qs) qs keeps (queues_of-FitsQueue lists files)
        (omega (arith, count_queues-queues_of lists, room)) (omega arith) in
    (
      merged.rounds,
      rw (merge_files, open_all-flush_to_disk lists files, tokens_left-raw qs, merged.returns) refl,
      merged.ordered 0 (omega arith) (queues_of-IsFrom lists files),
      λ w t. merged.totals w t ∙ queues_total-queues_of w t lists,
    )
