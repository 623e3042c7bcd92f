-- ===== src/Merge/Refines.antt =====
-- The index on the disk answers like the map that the indexer had in memory.
use mathlib.Core.Option.{some-injective}
use amigos.Base.{
  ℕ, zero, suc, ◌+◌, ◌-◌, ◌^◌, ◌≤◌, ◌<◌, ◌≡◌, refl, ap, ◌∙◌, arith, Bool, true, false, List, [],
  ◌∷◌, All, length, Option, some, none, inl, inr, ◌⊎◌, ◌==◌, ==_iff, ltb, ltb→lt, ltb→le, lt→ltb,
  le→ltb, Bool-cases, if◌then◌else◌, get_elem?,
}
use amigos.Run.{done}
use amigos.Entry.{Entry, FitsEntry}
use amigos.IndexIo.{IStream, to_bytes}
use amigos.InvIndex.{InvIdxItem, flush_to_disk, write_index, configure, find_tkn_idx, get_entries}
use amigos.InvIndex.Skip.{at}
use amigos.InvIndex.Items.{counted_bytes, flush_to_disk-items_bytes}
use amigos.InvIndex.Load.{FitsItem, located, located-Holds, configure-flush_to_disk}
use amigos.InvIndex.Positions.{same_file}
use amigos.InvIndex.Find.{IsSorted, find_tkn_idx-walk}
use amigos.InvIndex.Find as Find
use amigos.Merge.{merge_files, compare_entries}
use amigos.Merge.Queues.{count_items}
use amigos.Merge.Steps.{Rising}
use amigos.Merge.Files.{IsIndex}
use amigos.Merge.Single.{sorted_items, merge_files-single}

-- The entries that a map has for a token.
unfoldable pub lookup : ℕ → List (ℕ × List Entry) → Option (List Entry)
lookup t [] = none
lookup t ((tok, es) ∷ items) = let rest = lookup t items in if tok == t then some es else rest

-- Some token of the map is as large.
abbrev pub Reaches : ℕ → List (ℕ × List Entry) → Type 0
Reaches t [] = ⊥
Reaches t ((tok, es) ∷ items) = (t ≤ tok) ⊎ Reaches t items

-- The entries of the item at a position that `findTknIdx` has returned.
unfoldable pub read_item_at :
    {D : Type 0} → List (InvIdxItem D) → IStream → ℕ → Option (Option (List Entry))
unfolding get_entries
read_item_at inv_idx ifs pos = elim (pos == 2 ^ 32 - 1) [
  | true ↦ some none
  | false ↦ elim (get_entries inv_idx ifs pos []) [
    | none ↦ none
    | some (es, behind) ↦ some (some es)
  ]
]

-- What the searcher gets for a token: `none` inside is an unexisting token, outside a read that is out
-- of range.
unfoldable pub disk_lookup :
    {D : Type 0} → List (InvIdxItem D) → IStream → ℕ → Option (Option (List Entry))
unfolding find_tkn_idx read_item_at
disk_lookup inv_idx ifs t = elim (find_tkn_idx inv_idx t) [
  | none ↦ none
  | some pos ↦ read_item_at inv_idx ifs pos
]

lookup-above :
    (t tok : ℕ) (items : List (ℕ × List Entry)) → t ≤ tok → Rising tok items → lookup t items ≡ none
unfolding lookup
lookup-above t tok [] le h = refl
lookup-above t tok ((next, es) ∷ items) le (rises, rising) =
    let differ : (next == t) ≡ false = ground arith in
    rw (lookup, differ) (lookup-above t next items (omega arith) rising)

differs : (n : ℕ) → n < 2 ^ 32 - 1 → (n == 2 ^ 32 - 1) ≡ false
differs n h = ground arith

All-get_elem? :
    (items : List (ℕ × List Entry)) (j t : ℕ) (es : List Entry)
    → All FitsItem items
    → get_elem? items j ≡ some (t, es)
    → length es < 2 ^ 32
All-get_elem? [] j t es h e = absurd (ground arith)
All-get_elem? ((tok, xs) ∷ items) zero t es ((small, many, fit), fits) e =
    rw (← ap (λ (p : ℕ × List Entry). p.1) (some-injective (tok, xs) (t, es) e)) many
All-get_elem? ((tok, xs) ∷ items) (suc j) t es (fit, fits) e = All-get_elem? items j t es fits e

module _ {D : Type 0} (log_ratio : ℕ → ℕ → D) where
  located-above :
      (lo tok all pos : ℕ) (items : List (ℕ × List Entry))
      → lo ≤ tok
      → Rising tok items
      → All (λ y. lo < y.tok_id) (located log_ratio all pos items)
  unfolding located
  located-above lo tok all pos [] le h = tt
  located-above lo tok all pos ((next, es) ∷ items) le (rises, rising) = (
    omega arith,
    located-above lo next all (pos + 4 + length (counted_bytes es)) items (omega arith) rising,
  )

  located-IsSorted :
      (tok all pos : ℕ) (items : List (ℕ × List Entry))
      → Rising tok items
      → IsSorted (located log_ratio all pos items)
  unfolding located
  located-IsSorted tok all pos [] h = tt
  located-IsSorted tok all pos ((next, es) ∷ items) (rises, rising) = (
    located-above next next all (pos + 4 + length (counted_bytes es)) items (omega arith) rising,
    located-IsSorted next all (pos + 4 + length (counted_bytes es)) items rising,
  )

  index-IsSorted :
      (tok all pos : ℕ) (es : List Entry) (items : List (ℕ × List Entry))
      → Rising tok items
      → IsSorted (located log_ratio all pos ((tok, es) ∷ items))
  unfolding located
  index-IsSorted tok all pos es items rising = (
    located-above tok tok all (pos + 4 + length (counted_bytes es)) items (omega arith) rising,
    located-IsSorted tok all (pos + 4 + length (counted_bytes es)) items rising,
  )

  -- Where the walk ends: at `unexistingToken`, or at the item that the map has.
  Finds : ℕ → ℕ → List (InvIdxItem D) → List (ℕ × List Entry) → Type 0
  Finds t i inv_idx items =
      ((Find.walk t i inv_idx ≡ some (2 ^ 32 - 1)) × (lookup t items ≡ none))
      ⊎ ((j : ℕ) × (es : List Entry) × (Find.walk t i inv_idx ≡ some (i + j))
          × (get_elem? items j ≡ some (t, es))
          × (lookup t items ≡ some es)
          × (j < length items))

  Finds-below :
      (t i tok : ℕ) (x : InvIdxItem D) (es : List Entry) (xs : List (InvIdxItem D))
      (items : List (ℕ × List Entry))
      → x.tok_id ≡ tok
      → tok < t
      → Finds t (suc i) xs items
      → Finds t i (x ∷ xs) ((tok, es) ∷ items)
  unfolding Finds lookup
  Finds-below t i tok x es xs items same lt found =
      let below : ltb x.tok_id t ≡ true = rw same (lt→ltb tok t lt) in
      let differ : (tok == t) ≡ false = ground arith in
      elim found [
        | inl (walked, gone) ↦ inl (rw below walked, rw (lookup, differ) gone)
        | inr (j, es', walked, got, there, short) ↦
            let moved : suc i + j ≡ i + suc j = omega arith in
            inr (
              suc j,
              es',
              rw below (walked ∙ ap some moved),
              got,
              rw (lookup, differ) there,
              omega (arith, short),
            )
      ]

  Finds-here :
      (t i tok : ℕ) (x : InvIdxItem D) (es : List Entry) (xs : List (InvIdxItem D))
      (items : List (ℕ × List Entry))
      → x.tok_id ≡ tok
      → t ≤ tok
      → Rising tok items
      → Finds t i (x ∷ xs) ((tok, es) ∷ items)
  unfolding Finds lookup
  Finds-here t i tok x es xs items same le rising =
      let above : ltb x.tok_id t ≡ false = rw same (le→ltb tok t le) in
      elim (Bool-cases (tok == t)) [
        | inl here ↦
            let e = (==_iff tok t).0 here in
            let hit : (x.tok_id == t) ≡ true = rw same here in
            inr (
              0,
              es,
              rw (above, hit) (ap some (omega arith)),
              ap (λ k. some (k, es)) e,
              rw (lookup, here) refl,
              omega arith,
            )
        | inr other ↦
            let miss : (x.tok_id == t) ≡ false = rw same other in
            inl (rw (above, miss) refl, rw (lookup, other) (lookup-above t tok items le rising))
      ]

  walk-Finds :
      (t i tok all pos : ℕ) (es : List Entry) (items : List (ℕ × List Entry))
      → Rising tok items
      → Reaches t ((tok, es) ∷ items)
      → Finds t i (located log_ratio all pos ((tok, es) ∷ items)) ((tok, es) ∷ items)
  unfolding located
  walk-Finds t i tok all pos es items rising (inl le) =
      Finds-here t i tok _ es _ items refl le rising
  walk-Finds t i tok all pos es [] rising (inr later) = absurd later
  walk-Finds t i tok all pos es ((next, more) ∷ items) rising (inr later) =
      elim (Bool-cases (ltb tok t)) [
        | inl below ↦ Finds-below t i tok _ es _ ((next, more) ∷ items) refl (ltb→lt tok t below) (
            walk-Finds t (suc i) next all (pos + 4 + length (counted_bytes es)) more items rising.1
              later)
        | inr above ↦
            Finds-here t i tok _ es _ ((next, more) ∷ items) refl (ltb→le tok t above) rising
      ]

  -- The index file of a map answers like the map.
  disk_lookup-located :
      (t tok : ℕ) (es : List Entry) (items : List (ℕ × List Entry)) (now : List ℕ)
      → IsIndex ((tok, es) ∷ items)
      → Reaches t ((tok, es) ∷ items)
      → disk_lookup
          (located log_ratio (suc (length items)) 0 ((tok, es) ∷ items))
          (at (flush_to_disk ((tok, es) ∷ items)) now)
          t
        ≡ some (lookup t ((tok, es) ∷ items))
  unfolding disk_lookup Finds
  disk_lookup-located t tok es items now (fits, rising, few) reaches =
      let pairs : List (ℕ × List Entry) = (tok, es) ∷ items in
      let all = suc (length items) in
      let inv_idx = located log_ratio all 0 pairs in
      let walked = find_tkn_idx-walk inv_idx t (index-IsSorted tok all 0 es items rising) in
      elim (walk-Finds t 0 tok all 0 es items rising reaches) [
        | inl (gone, none_there) ↦ rw (disk_lookup, walked, gone, none_there) refl
        | inr (j, found, there, got, looked, short) ↦
            let valid = differs j (omega (arith, short, few)) in
            let start : 0 + j ≡ j = omega arith in
            let small = All-get_elem? pairs j t found fits got in
            let (item, at_j, tok_j, idf_j, behind, reads) =
              located-Holds log_ratio all (flush_to_disk pairs) [] pairs (to_bytes 4 all) j t found
                now [] (flush_to_disk-items_bytes pairs) fits got (omega (arith, small)) in
            rw (disk_lookup, walked, there ∙ ap some start, read_item_at, valid, reads, looked) refl
      ]

module _ (sort : (Entry → Entry → Bool) → List Entry → List Entry) where
  -- A sort that neither loses nor invents an entry.
  abbrev pub KeepsEntries : Type 1
  KeepsEntries =
      (es : List Entry)
      → (length (sort compare_entries es) ≡ length es)
        × ((P : Entry → Type 0) → All P es → All P (sort compare_entries es))

  sorted_items-FitsItem :
      (items : List (ℕ × List Entry))
      → KeepsEntries
      → All FitsItem items
      → All FitsItem (sorted_items sort items)
  unfolding sorted_items
  sorted_items-FitsItem [] keeps h = tt
  sorted_items-FitsItem ((tok, es) ∷ items) keeps ((small, many, fit), fits) = (
    (small, omega (arith, (keeps es).0), (keeps es).1 FitsEntry fit),
    sorted_items-FitsItem items keeps fits,
  )

  sorted_items-Rising :
      (tok : ℕ) (items : List (ℕ × List Entry))
      → Rising tok items
      → Rising tok (sorted_items sort items)
  unfolding sorted_items
  sorted_items-Rising tok [] h = tt
  sorted_items-Rising tok ((next, es) ∷ items) (rises, rising) =
      (rises, sorted_items-Rising next items rising)

  length-sorted_items :
      (items : List (ℕ × List Entry)) → length (sorted_items sort items) ≡ length items
  unfolding sorted_items
  length-sorted_items [] = refl
  length-sorted_items ((tok, es) ∷ items) = ap suc (length-sorted_items items)

  sorted_items-Reaches :
      (t : ℕ) (items : List (ℕ × List Entry))
      → Reaches t items
      → Reaches t (sorted_items sort items)
  unfolding sorted_items
  sorted_items-Reaches t [] h = h
  sorted_items-Reaches t ((tok, es) ∷ items) (inl le) = inl le
  sorted_items-Reaches t ((tok, es) ∷ items) (inr later) = inr (sorted_items-Reaches t items later)

  sorted_items-IsIndex :
      (tok : ℕ) (es : List Entry) (items : List (ℕ × List Entry))
      → KeepsEntries
      → IsIndex ((tok, es) ∷ items)
      → IsIndex (sorted_items sort ((tok, es) ∷ items))
  unfolding sorted_items
  sorted_items-IsIndex tok es items keeps (fits, rising, few) = (
    sorted_items-FitsItem ((tok, es) ∷ items) keeps fits,
    sorted_items-Rising tok items rising,
    omega (arith, length-sorted_items items, few),
  )

  -- A run of the indexer that flushes its map once, onto a disk without an index, leaves an index that
  -- answers like the map, where moving `end()` forward leads to the first element and `std::sort`
  -- keeps the entries: with the bytes of the only index file `_mergeIndexes` ends, `configure` reads
  -- what it has written, and from then on, wherever the stream stands, a search for a token that is
  -- not above all tokens of the map gets the sorted entries that the map has for it, or
  -- `unexistingToken` where the map has none. The map is not empty, its parts fit their fields, and it
  -- has fewer than 2 ^ 32 tokens and fewer than 2 ^ 32 entries.
  pub disk_lookup-merge_files :
      {D : Type 0} (log_ratio : ℕ → ℕ → D) (t tok : ℕ) (es : List Entry)
      (items : List (ℕ × List Entry)) (now : List ℕ)
      → KeepsEntries
      → IsIndex ((tok, es) ∷ items)
      → count_items ((tok, es) ∷ items) < 2 ^ 32
      → Reaches t ((tok, es) ∷ items)
      → (file positions : List ℕ) × (inv_idx : List (InvIdxItem D)) × (ifs : IStream) × (merge_files
            true sort
            (flush_to_disk ((tok, es) ∷ items) ∷ [])
          ≡ done (file, positions))
        × (configure log_ratio file none ≡ some (inv_idx, ifs))
        × (disk_lookup inv_idx (at file now) t
            ≡ some (lookup t (sorted_items sort ((tok, es) ∷ items))))
  unfolding sorted_items
  disk_lookup-merge_files log_ratio t tok es items now keeps is room reaches =
      let pairs = sorted_items sort ((tok, es) ∷ items) in
      let sorted = sorted_items-IsIndex tok es items keeps is in
      let same = same_file pairs in
      (
        (write_index pairs).0,
        (write_index pairs).1,
        located log_ratio (length pairs) 0 pairs,
        at (flush_to_disk pairs) (to_bytes 4 (length pairs)),
        merge_files-single sort tok es items is room,
        rw same (configure-flush_to_disk log_ratio pairs sorted.0 (omega (arith, sorted.2))),
        rw same (
            disk_lookup-located log_ratio t tok (sort compare_entries es) (sorted_items sort items)
              now sorted (sorted_items-Reaches t ((tok, es) ∷ items) reaches)),
      )
