-- ===== src/IndexIo.antt =====
-- projects/indexer/include/index_io.hpp: how words, vectors, posting records and entries lie in
-- a file. A file is the list of its bytes; words are stored with the lowest byte first.
pub mod Words
pub mod RoundTrip
use amigos.Base.{
  ℕ, zero, suc, ◌+◌, ◌-◌, ◌*◌, ◌/◌, ◌%◌, ◌^◌, List, [], ◌∷◌, ◌++◌, Option, none, some, ltb,
  if◌then◌else◌, ◌>>=◌, length, take, drop,
}
use amigos.Entry.{Entry, PostingInfo}

-- The bytes of `sizeof(T)` = `w` at which the value `v` is stored; a larger value wraps around.
unfoldable pub to_bytes : ℕ → ℕ → List ℕ
to_bytes zero v = []
to_bytes (suc w) v = v % 256 ∷ to_bytes w (v / 256)

-- `writeTo(ofs, val)`: the bytes go behind what the stream holds.
unfoldable pub write_to : ℕ → List ℕ → ℕ → List ℕ
unfolding to_bytes
write_to w ofs v = ofs ++ to_bytes w v

-- `ofs.write` of an array of words.
unfoldable pub write_array : ℕ → List ℕ → List ℕ → List ℕ
unfolding write_to
write_array w ofs [] = ofs
write_array w ofs (v ∷ vs) = write_array w (write_to w ofs v) vs

-- A reader works on the bytes from the get pointer on. `none` is a stream that ends too early:
-- the C++ code then goes on with a value that nothing has set.
abbrev pub Reader : Type 0 → Type 0
Reader A = List ℕ → Option (A × List ℕ)

-- `readFrom(ifs, &val)`.
unfoldable pub read_from : ℕ → Reader ℕ
read_from zero ifs = some (0, ifs)
read_from (suc w) [] = none
read_from (suc w) (b ∷ ifs) = do (v, rest) ← read_from w ifs; some (b + 256 * v, rest)

-- `ifs.read` of an array of `n` words.
unfoldable pub read_array : ℕ → ℕ → Reader (List ℕ)
unfolding read_from
read_array w zero ifs = some ([], ifs)
read_array w (suc n) ifs = do
  (v, ifs) ← read_from w ifs
  (vs, ifs) ← read_array w n ifs
  some (v ∷ vs, ifs)

-- `operator<<(ofs, vec)` and `operator>>(ifs, vec)`; the second appends to the vector.
unfoldable pub write_vec : ℕ → List ℕ → List ℕ → List ℕ
unfolding write_to write_array
write_vec w ofs vec = write_array w (write_to 4 ofs (length vec)) vec

unfoldable pub read_vec : ℕ → List ℕ → Reader (List ℕ)
unfolding read_from read_array
read_vec w vec ifs = do
  (size, ifs) ← read_from 4 ifs
  (vs, ifs) ← read_array w size ifs
  some (vec ++ vs, ifs)

unfoldable pub write_posting_info : List ℕ → PostingInfo → List ℕ
unfolding write_to write_array
write_posting_info ofs p =
    let counted = write_to 1 ofs (length p.posting_sizes) in
    let sized = write_array 2 counted p.posting_sizes in
    write_to 8 (write_to 1 sized p.in_zone) p.posting_offset

unfoldable pub read_posting_info : Reader PostingInfo
unfolding read_from read_array
read_posting_info ifs = do
  (size, ifs) ← read_from 1 ifs
  (sizes, ifs) ← read_array 2 size ifs
  (zone, ifs) ← read_from 1 ifs
  (offset, ifs) ← read_from 8 ifs
  some (record { in_zone = zone; posting_offset = offset; posting_sizes = sizes }, ifs)

write_all : List ℕ → List Entry → List ℕ
write_all ofs [] = ofs
write_all ofs (e ∷ entries) =
    write_all (write_to 4 (write_posting_info ofs e.posting_info) e.doc_id_offset) entries

unfoldable pub write_entries : List ℕ → List Entry → List ℕ
unfolding write_all write_to write_posting_info
write_entries ofs entries = write_all (write_to 4 ofs (length entries)) entries

read_all : ℕ → Reader (List Entry)
read_all zero ifs = some ([], ifs)
read_all (suc n) ifs = do
  (info, ifs) ← read_posting_info ifs
  (offset, ifs) ← read_from 4 ifs
  (entries, ifs) ← read_all n ifs
  some (record { doc_id_offset = offset; posting_info = info } ∷ entries, ifs)

-- `readEntries(ifs, entries)`: the vector is resized to `curSize + size`, a 32-bit sum, and the
-- elements from `curSize` on are read. Where the sum wraps around, the vector shrinks.
unfoldable pub read_entries : List Entry → Reader (List Entry)
unfolding read_all read_from read_posting_info
read_entries entries ifs = do
  (size, ifs) ← read_from 4 ifs
  (more, ifs) ← read_all ((length entries + size) % 2 ^ 32 - length entries) ifs
  some (take ((length entries + size) % 2 ^ 32) entries ++ more, ifs)

-- An input stream: the whole file, and what stands at and behind the get pointer.
pub record IStream : Type 0 where
  pub file : List ℕ
  pub rest : List ℕ

-- `ifs.tellg()` and `ifs.seekg(pos)`.
unfoldable pub tellg : IStream → ℕ
tellg ifs = length ifs.file - length ifs.rest

unfoldable pub seekg : IStream → ℕ → Option IStream
seekg ifs pos =
    if ltb (length ifs.file) pos then none else some (record ifs { rest = drop pos ifs.file })

-- A reader at the get pointer of a stream.
unfoldable pub on_stream : {A : Type 0} → Reader A → IStream → Option (A × IStream)
on_stream r ifs = do (a, rest) ← r ifs.rest; some (a, record ifs { rest = rest })

-- `readFromEnd(ifs)`: the last four bytes; the get pointer is put back.
unfoldable pub read_from_end : IStream → Option (ℕ × IStream)
unfolding read_from on_stream seekg tellg
read_from_end ifs = if ltb (length ifs.file) 4 then none else do
  at_end ← seekg ifs (length ifs.file - 4)
  (res, moved) ← on_stream (read_from 4) at_end
  back ← seekg moved (tellg ifs)
  some (res, back)
