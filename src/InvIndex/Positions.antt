-- ===== src/InvIndex/Positions.antt =====
-- The file of positions: `configure` by it makes the same items as by a walk through the index.
use amigos.Base.{
  ℕ, ◌+◌, ◌^◌, ◌<◌, ◌≡◌, refl, ap, ◌∙◌, List, [], ◌∷◌, ◌++◌, none, some, arith, append_assoc,
  append-nil, nil-append, length, length-append, All,
}
use amigos.Entry.{Entry}
use amigos.IndexIo.{to_bytes, write_to, IStream}
use amigos.IndexIo.Words.{length-to_bytes}
use amigos.IndexIo.RoundTrip.{
  entries_bytes, write_to-append, write_entries-append, read_from_end_lem,
}
use amigos.InvIndex.{
  write_idx_item, write_rounds, write_index, flush_to_disk, InvIdxItem, read_inv_idx_item_opt,
  read_items_opt, configure,
}
use amigos.InvIndex.Skip.{at, tellg-front, seekg-front, read_at, front_moves}
use amigos.InvIndex.Items.{
  counted_bytes, counted_bytes-append, items_bytes, item_split, behind_item, length-behind_item,
  flush_to_disk-items_bytes,
}
use amigos.InvIndex.Load.{FitsItem, located, configure-flush_to_disk}

positions_bytes : ℕ → List (ℕ × List Entry) → List ℕ
positions_bytes pos [] = []
positions_bytes pos ((tok, es) ∷ items) =
    to_bytes 8 pos ++ positions_bytes (pos + 4 + length (counted_bytes es)) items

write_idx_item-append :
    (ofs : List ℕ) (tok : ℕ) (es : List Entry)
    → write_idx_item ofs tok es ≡ (ofs ++ to_bytes 4 tok) ++ counted_bytes es
unfolding write_idx_item counted_bytes
write_idx_item-append ofs tok es = simp (write_entries-append, write_to-append, append_assoc)

write_rounds-append :
    (ofs opt : List ℕ) (items : List (ℕ × List Entry))
    → write_rounds ofs opt items
      ≡ (ofs ++ items_bytes items, opt ++ positions_bytes (length ofs) items)
unfolding write_rounds items_bytes positions_bytes
write_rounds-append ofs opt [] = rw (append-nil, append-nil)
write_rounds-append ofs opt ((tok, es) ∷ items) =
    rw (write_rounds-append (write_idx_item ofs tok es) (write_to 8 opt (length ofs)) items)
      (rw (write_idx_item-append, length-behind_item, write_to-append) (simp append_assoc))

pub same_file : (items : List (ℕ × List Entry)) → (write_index items).0 ≡ flush_to_disk items
unfolding write_index
same_file items =
    rw (write_rounds-append [] [] items)
      (simp (write_to-append, flush_to_disk-items_bytes, nil-append))

same_positions : (items : List (ℕ × List Entry)) → (write_index items).1 ≡ positions_bytes 0 items
unfolding write_index
same_positions items = rw (write_rounds-append [] [] items)

module _ {D : Type 0} (log_ratio : ℕ → ℕ → D) where
  read_items_opt-positions_bytes :
      (all : ℕ) (file front : List ℕ) (items : List (ℕ × List Entry)) (rest now opt : List ℕ)
      → file ≡ front ++ (items_bytes items ++ rest)
      → All FitsItem items
      → length file < 2 ^ 64
      → (behind : List ℕ) × (read_items_opt log_ratio all
            (length items)
            (at file now)
            (at opt (positions_bytes (length front) items))
          ≡ some (located log_ratio all (length front) items, at file behind))
  unfolding read_items_opt located positions_bytes read_inv_idx_item_opt
  read_items_opt-positions_bytes all file front [] rest now opt e fits n = (now, refl)
  read_items_opt-positions_bytes all file front ((tok, es) ∷ items) rest now opt e
        ((ht, hn, he), fits) n =
      let (behind, more) =
        read_items_opt-positions_bytes all file ((front ++ to_bytes 4 tok) ++ counted_bytes es)
          items rest (entries_bytes es ++ (items_bytes items ++ rest)) opt
          (behind_item file front tok es items rest e) fits n in
      (
        behind,
        rw
            (read_at opt 8 (length front) _ (
              omega (
                arith,
                length-append front (items_bytes ((tok, es) ∷ items) ++ rest),
                ap length e,
              )))
            (rw (seekg-front file front _ now (length front) at_item refl) (
              rw (read_at file 4 tok _ (omega arith)) (
                rw counted (
                  rw (read_at file 4 (length es) _ (omega arith)) (
                    rw
                      (
                        tellg-front file (front ++ to_bytes 4 tok) _ behind_tok,
                        length-append,
                        length-to_bytes,
                      )
                      (rw (rw (length-behind_item front tok es) at more))))))),
      )
    where
      counted :
          counted_bytes es ++ (items_bytes items ++ rest)
          ≡ to_bytes 4 (length es) ++ (entries_bytes es ++ (items_bytes items ++ rest))
      counted = counted_bytes-append es (items_bytes items ++ rest)

      at_item :
          file ≡ front ++ (to_bytes 4 tok ++ (counted_bytes es ++ (items_bytes items ++ rest)))
      at_item = e ∙ ap (front ++◌) (item_split tok es items rest)

      behind_tok :
          file
          ≡ (front ++ to_bytes 4 tok)
            ++ (to_bytes 4 (length es) ++ (entries_bytes es ++ (items_bytes items ++ rest)))
      behind_tok =
          front_moves file front (to_bytes 4 tok)
            (to_bytes 4 (length es) ++ (entries_bytes es ++ (items_bytes items ++ rest)))
            (at_item ∙ ap (λ after. front ++ (to_bytes 4 tok ++ after)) counted)

  configure-positions_bytes :
      (items : List (ℕ × List Entry))
      → All FitsItem items
      → length items < 2 ^ 32
      → length (flush_to_disk items) < 2 ^ 64
      → (behind : List ℕ) × (configure log_ratio
            (flush_to_disk items)
            (some (positions_bytes 0 items))
          ≡ some (located log_ratio (length items) 0 items, at (flush_to_disk items) behind))
  unfolding configure
  configure-positions_bytes items fits n m =
      let (behind, jumped) =
        read_items_opt-positions_bytes (length items) (flush_to_disk items) [] items
          (to_bytes 4 (length items)) (flush_to_disk items) (positions_bytes 0 items)
          (flush_to_disk-items_bytes items) fits m in
      (
        behind,
        rw
            (read_from_end_lem [] (flush_to_disk items) (items_bytes items) (length items)
              (flush_to_disk-items_bytes items) n)
            jumped,
      )

  -- Where `_mergeIndexes` has written items, which fit their fields and are fewer than 2 ^ 32, to a
  -- file below 2 ^ 64 bytes, this is the file that `_flushToDisk` writes of the same items, and
  -- `configure` ends with the same items whether it walks through this file or follows the file of
  -- the positions.
  pub configure-write_index :
      (rounds : List (ℕ × List Entry))
      → All FitsItem rounds
      → length rounds < 2 ^ 32
      → length (write_index rounds).0 < 2 ^ 64
      → (inv_idx : List (InvIdxItem D)) × (walked : IStream) × (jumped : IStream) × (configure
            log_ratio
            (write_index rounds).0
            none
          ≡ some (inv_idx, walked))
        × (configure log_ratio (write_index rounds).0 (some (write_index rounds).1)
            ≡ some (inv_idx, jumped))
        × ((write_index rounds).0 ≡ flush_to_disk rounds)
  configure-write_index rounds fits n m =
      let (behind, jumped) = configure-positions_bytes rounds fits n (rw (same_file rounds) at m) in
      (
        located log_ratio (length rounds) 0 rounds,
        at (flush_to_disk rounds) (to_bytes 4 (length rounds)),
        at (flush_to_disk rounds) behind,
        rw same_file (configure-flush_to_disk log_ratio rounds fits n),
        rw (same_file, same_positions) jumped,
        same_file rounds,
      )
