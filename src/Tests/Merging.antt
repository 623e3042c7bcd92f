-- ===== src/Tests/Merging.antt =====
-- Merges of index files.
use amigos.Base.{
  ℕ, suc, ◌+◌, ◌^◌, ◌<◌, ◌≡◌, refl, ap, ◌∙◌, arith, Bool, true, false, List, [], ◌∷◌, none, some,
  All, inl, inr, length, map, Bool-cases, if◌then◌else◌,
}
use amigos.Run.{done, undefined}
use amigos.Entry.{Entry, FitsEntry}
use amigos.IndexIo.{IStream, write_to, write_entries, read_from_end}
use amigos.InvIndex.{InvIdxItem, flush_to_disk, write_index, configure}
use amigos.InvIndex.Skip.{at}
use amigos.Merge.{merge_files, compare_entries}
use amigos.Merge.Queues.{count_items}
use amigos.Merge.Totals.{total, items_total}
use amigos.Merge.Rounds.{InOrder}
use amigos.Merge.Files.{IsIndex, count_lists, lists_total, merge_files-total}
use amigos.Merge.Ends.{merge_files-undefined}
use amigos.Merge.Single.{sorted_items}
use amigos.Merge.Twice.{merge_files-twice}
use amigos.Merge.Refines.{lookup, disk_lookup, KeepsEntries, disk_lookup-merge_files}

-- A sort by insertion.
insert : (Entry → Entry → Bool) → Entry → List Entry → List Entry
insert cmp x [] = x ∷ []
insert cmp x (y ∷ ys) = let rest = insert cmp x ys in if cmp x y then x ∷ y ∷ ys else y ∷ rest

sort : (Entry → Entry → Bool) → List Entry → List Entry
sort cmp [] = []
sort cmp (x ∷ xs) = insert cmp x (sort cmp xs)

total-insert :
    (w : Entry → ℕ) (cmp : Entry → Entry → Bool) (x : Entry) (ys : List Entry)
    → total w (insert cmp x ys) ≡ w x + total w ys
unfolding insert total
total-insert w cmp x [] = refl
total-insert w cmp x (y ∷ ys) = elim (Bool-cases (cmp x y)) [
  | inl before ↦ rw before refl
  | inr behind ↦ rw behind (omega (arith, total-insert w cmp x ys))
]

total-sort : (w : Entry → ℕ) (es : List Entry) → total w (sort compare_entries es) ≡ total w es
unfolding sort total
total-sort w [] = refl
total-sort w (x ∷ xs) =
    total-insert w compare_entries x (sort compare_entries xs) ∙ ap (w x +◌) (total-sort w xs)

insert_lem :
    (cmp : Entry → Entry → Bool) (x : Entry) (ys : List Entry)
    → (length (insert cmp x ys) ≡ suc (length ys))
      × ((P : Entry → Type 0) → P x → All P ys → All P (insert cmp x ys))
unfolding insert
insert_lem cmp x [] = (refl, λ P h hs. (h, tt))
insert_lem cmp x (y ∷ ys) = elim (Bool-cases (cmp x y)) [
  | inl before ↦ rw before (refl, λ P h hs. (h, hs))
  | inr behind ↦
      let (len, keeps) = insert_lem cmp x ys in
      rw behind (ap suc len, λ P h hs. (hs.0, keeps P h hs.1))
]

sort-KeepsEntries : KeepsEntries sort
unfolding sort
sort-KeepsEntries [] = (refl, λ P h. h)
sort-KeepsEntries (x ∷ xs) =
    let (len, keeps) = sort-KeepsEntries xs in
    let (more, kept) = insert_lem compare_entries x (sort compare_entries xs) in
    (more ∙ ap suc len, λ P h. kept P h.0 (keeps P h.1))

abbrev entry : ℕ → Entry
entry d = record {
  doc_id_offset = d;
  posting_info = record { in_zone = 5; posting_offset = 7; posting_sizes = 2 ∷ 1 ∷ [] };
}

fits_entry : (d : ℕ) → d < 256 ^ 4 → FitsEntry (entry d)
fits_entry d h = record {
  offset_u32 = h;
  info = record {
    in_zone_byte = omega arith;
    offset_u64 = omega arith;
    sizes_u16 = omega arith;
    count_byte = omega arith;
  };
}

abbrev old : List (ℕ × List Entry)
old = (40, entry 3 ∷ entry 1 ∷ []) ∷ []

abbrev new : List (ℕ × List Entry)
new = (40, entry 4 ∷ []) ∷ (41, entry 5 ∷ []) ∷ []

old-IsIndex : IsIndex old
old-IsIndex = (
  ((omega arith, omega arith, (fits_entry 3 (omega arith), (fits_entry 1 (omega arith), tt))), tt),
  tt,
  omega arith,
)

new-IsIndex : IsIndex new
new-IsIndex = (
  (
    (omega arith, omega arith, (fits_entry 4 (omega arith), tt)),
    ((omega arith, omega arith, (fits_entry 5 (omega arith), tt)), tt),
  ),
  (omega arith, tt),
  omega arith,
)

few : count_lists (old ∷ new ∷ []) < 2 ^ 32
unfolding count_lists count_items
few = omega arith

merge_files-total_example :
    (rounds : List (ℕ × List Entry)) × (merge_files true sort (map flush_to_disk (old ∷ new ∷ []))
      ≡ done (write_index rounds))
    × InOrder 0 rounds
    × ((w : Entry → ℕ) (t : ℕ) → items_total w t rounds ≡ lists_total w t (old ∷ new ∷ []))
merge_files-total_example =
    merge_files-total sort (old ∷ new ∷ []) total-sort (old-IsIndex, (new-IsIndex, tt)) few

merge_files-undefined_example :
    merge_files false sort (map flush_to_disk (old ∷ new ∷ [])) ≡ undefined
merge_files-undefined_example =
    merge_files-undefined sort old (new ∷ []) (old-IsIndex, (new-IsIndex, tt)) few

-- The first file is used up by its only token, and the second one is passed over: the token is
-- written twice.
merge_files_test :
    merge_files true sort (map flush_to_disk (old ∷ new ∷ []))
    ≡ done
        (write_index ((40, entry 1 ∷ entry 3 ∷ []) ∷ (40, entry 4 ∷ []) ∷ (41, entry 5 ∷ []) ∷ []))
unfolding merge_files read_from_end flush_to_disk write_to write_entries sort insert
merge_files_test = refl

new_few : count_items new < 2 ^ 32
unfolding count_items
new_few = omega arith

-- The quotient's two parts stand for the logarithm.
abbrev ratio : ℕ → ℕ → ℕ × ℕ
ratio all count = (all, count)

disk_lookup-merge_files_example :
    (file positions : List ℕ) × (inv_idx : List (InvIdxItem (ℕ × ℕ))) × (ifs : IStream)
    × (merge_files true sort (flush_to_disk new ∷ []) ≡ done (file, positions))
    × (configure ratio file none ≡ some (inv_idx, ifs))
    × (disk_lookup inv_idx (at file []) 41 ≡ some (lookup 41 (sorted_items sort new)))
disk_lookup-merge_files_example =
    disk_lookup-merge_files sort ratio 41 40 (entry 4 ∷ []) ((41, entry 5 ∷ []) ∷ []) []
      sort-KeepsEntries new-IsIndex new_few (inr (inl (omega arith)))

lookup_test : lookup 41 (sorted_items sort new) ≡ some (entry 5 ∷ [])
unfolding lookup sorted_items sort insert
lookup_test = refl

one-IsIndex : IsIndex ((40, entry 3 ∷ []) ∷ [])
one-IsIndex = (((omega arith, omega arith, (fits_entry 3 (omega arith), tt)), tt), tt, omega arith)

two_few : count_lists (((40, entry 3 ∷ []) ∷ []) ∷ new ∷ []) < 2 ^ 32
unfolding count_lists count_items
two_few = omega arith

merge_files-twice_example :
    merge_files true sort (flush_to_disk ((40, entry 3 ∷ []) ∷ []) ∷ flush_to_disk new ∷ [])
    ≡ done (
        write_index (
          (40, sort compare_entries (entry 3 ∷ []))
          ∷ (40, sort compare_entries (entry 4 ∷ []))
          ∷ sorted_items sort ((41, entry 5 ∷ []) ∷ [])))
merge_files-twice_example =
    merge_files-twice sort 40 (entry 3 ∷ []) (entry 4 ∷ []) ((41, entry 5 ∷ []) ∷ []) one-IsIndex
      new-IsIndex two_few
