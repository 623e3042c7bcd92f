-- ===== src/IndexIo/RoundTrip.antt =====
-- Vectors, posting records and entries: the readers give back what the writers stored.
use amigos.Base.{
  ℕ, length-append, drop-append, ltb, le→ltb, false, ◌+◌, ◌-◌, ◌%◌, ◌^◌, ◌<◌, ◌≡◌, refl, sym, ◌∙◌,
  List, [], ◌∷◌, ◌++◌, some, arith, append_assoc, append-nil, length, All, take_self,
}
use amigos.Entry.{Entry, PostingInfo, FitsEntry, FitsInfo}
use amigos.IndexIo.{
  to_bytes, write_to, read_from, write_vec, read_vec, write_posting_info, read_posting_info,
  write_all, read_all, write_entries, read_entries, tellg, seekg, on_stream, read_from_end,
}
use amigos.IndexIo.Words.{
  read_from-to_bytes, array_bytes, write_array-append, read_array-array_bytes, length-to_bytes,
}

-- The bytes that `write_posting_info` puts behind the stream.
unfoldable pub info_bytes : PostingInfo → List ℕ
info_bytes p =
    to_bytes 1 (length p.posting_sizes)
    ++ (array_bytes 2 p.posting_sizes ++ (to_bytes 1 p.in_zone ++ to_bytes 8 p.posting_offset))

unfoldable pub entry_bytes : Entry → List ℕ
entry_bytes e = info_bytes e.posting_info ++ to_bytes 4 e.doc_id_offset

abbrev pub entries_bytes : List Entry → List ℕ
entries_bytes [] = []
entries_bytes (e ∷ es) = entry_bytes e ++ entries_bytes es

pub write_to-append : (w : ℕ) (ofs : List ℕ) (v : ℕ) → write_to w ofs v ≡ ofs ++ to_bytes w v
unfolding write_to
write_to-append w ofs v = refl

write_posting_info-append :
    (ofs : List ℕ) (p : PostingInfo) → write_posting_info ofs p ≡ ofs ++ info_bytes p
unfolding write_posting_info info_bytes
write_posting_info-append ofs p = simp (write_array-append, write_to-append, append_assoc)

write_all-append : (ofs : List ℕ) (es : List Entry) → write_all ofs es ≡ ofs ++ entries_bytes es
unfolding write_all entry_bytes
write_all-append ofs [] = sym (append-nil ofs)
write_all-append ofs (e ∷ es) =
    write_all-append (write_to 4 (write_posting_info ofs e.posting_info) e.doc_id_offset) es
    ∙ simp (write_to-append, write_posting_info-append, append_assoc)

pub write_entries-append :
    (ofs : List ℕ) (es : List Entry)
    → write_entries ofs es ≡ ofs ++ (to_bytes 4 (length es) ++ entries_bytes es)
unfolding write_entries
write_entries-append ofs es = simp (write_all-append, write_to-append, append_assoc)

pub read_posting_info-info_bytes :
    (p : PostingInfo) (rest : List ℕ)
    → FitsInfo p
    → read_posting_info (info_bytes p ++ rest) ≡ some (p, rest)
unfolding read_posting_info info_bytes
read_posting_info-info_bytes p rest h = simp append_assoc (
    rw (read_from-to_bytes 1 (length p.posting_sizes) _ h.count_byte) (
      rw (read_array-array_bytes 2 p.posting_sizes _ h.sizes_u16) (
        rw (read_from-to_bytes 1 p.in_zone _ h.in_zone_byte)
          (rw (read_from-to_bytes 8 p.posting_offset rest h.offset_u64)))))

read_all-entries_bytes :
    (es : List Entry) (rest : List ℕ)
    → All FitsEntry es
    → read_all (length es) (entries_bytes es ++ rest) ≡ some (es, rest)
unfolding read_all entry_bytes
read_all-entries_bytes [] rest h = refl
read_all-entries_bytes (e ∷ es) rest (h, hs) = simp append_assoc (
    rw (read_posting_info-info_bytes e.posting_info _ h.info) (
      rw (read_from-to_bytes 4 e.doc_id_offset _ h.offset_u32)
        (rw (read_all-entries_bytes es rest hs))))

write_vec-append :
    (w : ℕ) (ofs vec : List ℕ)
    → write_vec w ofs vec ≡ ofs ++ (to_bytes 4 (length vec) ++ array_bytes w vec)
unfolding write_vec
write_vec-append w ofs vec = simp (write_array-append, write_to-append, append_assoc)

-- A vector of words that `operator<<` stored is appended by `operator>>`, and the bytes behind it
-- are left, where the length fits 32 bits and each element its width.
pub read_vec-write_vec :
    (w : ℕ) (old vec rest : List ℕ)
    → length vec < 256 ^ 4
    → All (λ v. v < 256 ^ w) vec
    → read_vec w old (write_vec w [] vec ++ rest) ≡ some (old ++ vec, rest)
unfolding read_vec
read_vec-write_vec w old vec rest n fits =
    simp (write_vec-append, append_assoc)
      (rw (read_from-to_bytes 4 (length vec) _ n) (rw (read_array-array_bytes w vec rest fits)))

-- `readEntries` appends the entries that `writeEntries` stored to a vector that has some already,
-- and leaves the bytes behind them, where each field fits its type and the two lengths together
-- fit 32 bits.
pub read_entries-write_entries :
    (old entries : List Entry) (rest : List ℕ)
    → length old + length entries < 2 ^ 32
    → All FitsEntry entries
    → read_entries old (write_entries [] entries ++ rest) ≡ some (old ++ entries, rest)
unfolding read_entries
read_entries-write_entries old entries rest n fits =
    simp (write_entries-append, append_assoc)
      (rw (read_from-to_bytes 4 (length entries) _ (omega arith)) (
        rw (added, kept)
          (rw (read_all-entries_bytes entries rest fits)
            (rw (take_self (length old + length entries) old (omega arith))))))
  where
    kept : (length old + length entries) % 2 ^ 32 ≡ length old + length entries
    kept = omega arith

    added : (length old + length entries) % 2 ^ 32 - length old ≡ length entries
    added = omega arith

tellg-before :
    (before rest : List ℕ) → tellg (record { file = before ++ rest; rest = rest }) ≡ length before
unfolding tellg
tellg-before before rest = rw length-append (omega arith)

pub seekg-before :
    (before after now : List ℕ)
    → seekg (record { file = before ++ after; rest = now }) (length before)
      ≡ some (record { file = before ++ after; rest = after })
unfolding seekg
seekg-before before after now =
    rw length-append
      (rw (le→ltb (length before + length after) (length before) (omega arith)) (rw drop-append))

read_last :
    (file : List ℕ) (n : ℕ)
    → n < 2 ^ 32
    → on_stream (read_from 4) (record { file = file; rest = to_bytes 4 n })
      ≡ some (n, record { file = file; rest = [] })
unfolding on_stream
read_last file n h = rw (rw append-nil at (read_from-to_bytes 4 n [] h))

length_without_last : (front : List ℕ) (n : ℕ) → length (front ++ to_bytes 4 n) - 4 ≡ length front
length_without_last front n = rw (length-append, length-to_bytes) (omega arith)

seekg_last :
    (file front rest : List ℕ) (n : ℕ)
    → file ≡ front ++ to_bytes 4 n
    → seekg (record { file = file; rest = rest }) (length file - 4)
      ≡ some (record { file = file; rest = to_bytes 4 n })
seekg_last file front rest n e =
    rw e (rw (length_without_last front n) (seekg-before front (to_bytes 4 n) rest))

-- On a file that ends in the four bytes of a 32-bit number `readFromEnd` reads that number, and
-- the get pointer is where it was.
pub read_from_end_lem :
    (before rest front : List ℕ) (n : ℕ)
    → before ++ rest ≡ front ++ to_bytes 4 n
    → n < 2 ^ 32
    → read_from_end (record { file = before ++ rest; rest = rest })
      ≡ some (n, record { file = before ++ rest; rest = rest })
unfolding read_from_end
read_from_end_lem before rest front n e h =
    rw (long, jump_end, read_last _ n h)
      (rw (tellg-before before rest, seekg-before before rest []))
  where
    count : length (before ++ rest) ≡ length front + 4
    count = rw e (rw length-append (rw length-to_bytes))

    long : ltb (length (before ++ rest)) 4 ≡ false
    long = rw count (le→ltb _ _ (omega arith))

    jump_end :
        seekg (record { file = before ++ rest; rest = rest }) (length (before ++ rest) - 4)
        ≡ some (record { file = before ++ rest; rest = to_bytes 4 n })
    jump_end = seekg_last (before ++ rest) front rest n e
