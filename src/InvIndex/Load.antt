-- ===== src/InvIndex/Load.antt =====
-- `configure` finds in the index file what `_flushToDisk` wrote.
use amigos.Base.{
  ℕ, zero, suc, ◌+◌, ◌^◌, ◌<◌, ◌≡◌, refl, sym, ap, ◌∙◌, List, [], ◌∷◌, ◌++◌, none, some, arith,
  nil-append, length, length-append, All, get_elem?,
}
use mathlib.Core.Option.{some-injective}
use amigos.Entry.{Entry, FitsEntry}
use amigos.IndexIo.{to_bytes, IStream, on_stream, read_entries}
use amigos.IndexIo.Words.{length-to_bytes}
use amigos.IndexIo.RoundTrip.{
  entries_bytes, write_entries-append, read_entries-write_entries, read_from_end_lem,
}
use amigos.InvIndex.{
  flush_to_disk, InvIdxItem, read_inv_idx_item, read_items, configure, get_entries,
}
use amigos.InvIndex.Skip.{
  at, tellg-front, seekg-front, read_at, front_moves, skip_entries-entries_bytes,
}
use amigos.InvIndex.Items.{
  counted_bytes, counted_bytes-append, items_bytes, item_split, behind_item, length-behind_item,
  flush_to_disk-items_bytes,
}

-- A pair of the map whose parts fit their fields.
abbrev pub FitsItem : ℕ × List Entry → Type 0
FitsItem (tok, es) = (tok < 2 ^ 32) × (length es < 2 ^ 32) × All FitsEntry es

module _ {D : Type 0} (log_ratio : ℕ → ℕ → D) where
  -- The items of the file behind its first `pos` bytes.
  unfoldable pub located : ℕ → ℕ → List (ℕ × List Entry) → List (InvIdxItem D)
  located all pos [] = []
  located all pos ((tok, es) ∷ items) =
      record { tok_id = tok; offset = pos + 4; idf = log_ratio all (length es) }
      ∷ located all (pos + 4 + length (counted_bytes es)) items

  read_inv_idx_item-item_bytes :
      (all : ℕ) (file front : List ℕ) (tok : ℕ) (es : List Entry) (rest : List ℕ)
      → file ≡ front ++ (to_bytes 4 tok ++ (counted_bytes es ++ rest))
      → FitsItem (tok, es)
      → read_inv_idx_item log_ratio all (at file (to_bytes 4 tok ++ (counted_bytes es ++ rest)))
        ≡ some (
          record { tok_id = tok; offset = length front + 4; idf = log_ratio all (length es) },
          at file rest,
        )
  unfolding read_inv_idx_item
  read_inv_idx_item-item_bytes all file front tok es rest e (ht, hn, he) =
      rw (read_at file 4 tok (counted_bytes es ++ rest) (omega arith)) (
        rw counted (
          rw (read_at file 4 (length es) (entries_bytes es ++ rest) (omega arith)) (
            rw
              (skip_entries-entries_bytes file ((front ++ to_bytes 4 tok) ++ to_bytes 4 (length es))
                es rest behind_count he)
              (rw (
                tellg-front file (front ++ to_bytes 4 tok)
                    (to_bytes 4 (length es) ++ (entries_bytes es ++ rest)) behind_tok,
                length-append,
                length-to_bytes,
              )))))
    where
      counted : counted_bytes es ++ rest ≡ to_bytes 4 (length es) ++ (entries_bytes es ++ rest)
      counted = counted_bytes-append es rest

      behind_tok :
          file ≡ (front ++ to_bytes 4 tok) ++ (to_bytes 4 (length es) ++ (entries_bytes es ++ rest))
      behind_tok =
          front_moves file front (to_bytes 4 tok)
            (to_bytes 4 (length es) ++ (entries_bytes es ++ rest))
            (e ∙ ap (λ after. front ++ (to_bytes 4 tok ++ after)) counted)

      behind_count :
          file ≡ ((front ++ to_bytes 4 tok) ++ to_bytes 4 (length es)) ++ (entries_bytes es ++ rest)
      behind_count =
          front_moves file (front ++ to_bytes 4 tok) (to_bytes 4 (length es))
            (entries_bytes es ++ rest) behind_tok

  read_items-items_bytes :
      (all : ℕ) (file front : List ℕ) (items : List (ℕ × List Entry)) (rest : List ℕ)
      → file ≡ front ++ (items_bytes items ++ rest)
      → All FitsItem items
      → read_items log_ratio all (length items) (at file (items_bytes items ++ rest))
        ≡ some (located all (length front) items, at file rest)
  unfolding read_items located items_bytes
  read_items-items_bytes all file front [] rest e fits = refl
  read_items-items_bytes all file front ((tok, es) ∷ items) rest e (fit, fits) =
      rw (item_split tok es items rest) (
        rw
          (read_inv_idx_item-item_bytes all file front tok es (items_bytes items ++ rest)
            (e ∙ ap (front ++◌) (item_split tok es items rest)) fit)
          (rw
            (read_items-items_bytes all file ((front ++ to_bytes 4 tok) ++ counted_bytes es) items
              rest (behind_item file front tok es items rest e) fits)
            (rw (length-behind_item front tok es))))

  pub configure-flush_to_disk :
      (items : List (ℕ × List Entry))
      → All FitsItem items
      → length items < 2 ^ 32
      → configure log_ratio (flush_to_disk items) none
        ≡ some
            (located (length items) 0 items, at (flush_to_disk items) (to_bytes 4 (length items)))
  unfolding configure
  configure-flush_to_disk items fits n =
      rw
        (read_from_end_lem [] (flush_to_disk items) (items_bytes items) (length items)
          (flush_to_disk-items_bytes items) n)
        (rw (flush_to_disk-items_bytes items) (
          read_items-items_bytes (length items) (items_bytes items ++ to_bytes 4 (length items)) []
            items (to_bytes 4 (length items)) refl fits))

  pub length-located :
      (all pos : ℕ) (items : List (ℕ × List Entry)) → length (located all pos items) ≡ length items
  unfolding located
  length-located all pos [] = refl
  length-located all pos ((tok, es) ∷ items) =
      ap suc (length-located all (pos + 4 + length (counted_bytes es)) items)

  -- The `i`-th item is that of the `i`-th pair, and reads the entries of that pair.
  abbrev pub Holds :
      List (InvIdxItem D) → List ℕ → ℕ → ℕ → ℕ → List Entry → List ℕ → List Entry → Type 0
  Holds inv_idx file all i tok es now res =
      (item : InvIdxItem D) × (get_elem? inv_idx i ≡ some item)
      × (item.tok_id ≡ tok)
      × (item.idf ≡ log_ratio all (length es))
      × (behind : List ℕ) × (get_entries inv_idx (at file now) i res
          ≡ some (res ++ es, at file behind))

  read_entries-counted_bytes :
      (file : List ℕ) (es res : List Entry) (rest : List ℕ)
      → length res + length es < 2 ^ 32
      → All FitsEntry es
      → on_stream (read_entries res) (at file (counted_bytes es ++ rest))
        ≡ some (res ++ es, at file rest)
  unfolding on_stream counted_bytes
  read_entries-counted_bytes file es res rest n fits =
      rw (rw (write_entries-append, nil-append) at (read_entries-write_entries res es rest n fits))

  pub located-Holds :
      (all : ℕ) (file front : List ℕ) (items : List (ℕ × List Entry)) (rest : List ℕ) (i tok : ℕ)
      (es : List Entry) (now : List ℕ) (res : List Entry)
      → file ≡ front ++ (items_bytes items ++ rest)
      → All FitsItem items
      → get_elem? items i ≡ some (tok, es)
      → length res + length es < 2 ^ 32
      → Holds (located all (length front) items) file all i tok es now res
  unfolding located items_bytes get_entries
  located-Holds all file front [] rest i tok es now res e fits h n = absurd (ground arith)
  located-Holds all file front ((t, xs) ∷ items) rest zero tok es now res e ((ht, hn, hx), fits) h
        n =
      let same : (t, xs) ≡ (tok, es) = some-injective (t, xs) (tok, es) h in
      let es≡ : xs ≡ es = ap (λ p. p.1) same in
      (
        record { tok_id = t; offset = length front + 4; idf = log_ratio all (length xs) },
        refl,
        ap (λ p. p.0) same,
        ap (λ es. log_ratio all (length es)) es≡,
        items_bytes items ++ rest,
        rw
            (seekg-front file (front ++ to_bytes 4 t)
              (counted_bytes xs ++ (items_bytes items ++ rest)) now (length front + 4)
              (front_moves file front (to_bytes 4 t)
                (counted_bytes xs ++ (items_bytes items ++ rest))
                (e ∙ ap (front ++◌) (item_split t xs items rest)))
              (rw (length-append, length-to_bytes)))
            (rw (sym es≡) (
              read_entries-counted_bytes file xs res (items_bytes items ++ rest) (rw (sym es≡) at n)
                hx)),
      )
  located-Holds all file front ((t, xs) ∷ items) rest (suc i) tok es now res e (fit, fits) h n =
      rw (length-behind_item front t xs) at (
        located-Holds all file ((front ++ to_bytes 4 t) ++ counted_bytes xs) items rest i tok es now
          res (behind_item file front t xs items rest e) fits h n)

  -- Where `_flushToDisk` has written the pairs of the map, which fit their fields and are fewer than
  -- 2 ^ 32, `configure` ends with one item for each pair, and the stream is that of the file; the
  -- `i`-th item has the token of the `i`-th pair and the idf of its number of entries, and
  -- `getEntries` of it, wherever the stream stands, appends just the entries of this pair, where the
  -- vector's size does not wrap around.
  pub get_entries-configure :
      (items : List (ℕ × List Entry)) (i tok : ℕ) (es : List Entry) (now : List ℕ)
      (res : List Entry)
      → All FitsItem items
      → length items < 2 ^ 32
      → get_elem? items i ≡ some (tok, es)
      → length res + length es < 2 ^ 32
      → (inv_idx : List (InvIdxItem D)) × (ifs : IStream) × (configure log_ratio
            (flush_to_disk items)
            none
          ≡ some (inv_idx, ifs))
        × (ifs.file ≡ flush_to_disk items)
        × (length inv_idx ≡ length items)
        × Holds inv_idx (flush_to_disk items) (length items) i tok es now res
  get_entries-configure items i tok es now res fits n h m = (
    located (length items) 0 items,
    at (flush_to_disk items) (to_bytes 4 (length items)),
    configure-flush_to_disk items fits n,
    refl,
    length-located (length items) 0 items,
    located-Holds (length items) (flush_to_disk items) [] items (to_bytes 4 (length items)) i tok es
        now res (flush_to_disk-items_bytes items) fits h m,
  )
