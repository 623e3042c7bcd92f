-- ===== src/InvIndex/Skip.antt =====
-- Streams that stand behind a part of the file, and the loop that moves behind the entries.
use amigos.Base.{
  ℕ, ◌+◌, ◌*◌, ◌^◌, ◌<◌, ◌≡◌, refl, sym, ap, ◌∙◌, List, [], ◌∷◌, ◌++◌, some, arith, append_assoc,
  length, length-append, All,
}
use amigos.Entry.{Entry, FitsEntry}
use amigos.IndexIo.{to_bytes, read_from, IStream, tellg, seekg, on_stream}
use amigos.IndexIo.Words.{length-to_bytes, read_from-to_bytes, array_bytes}
use amigos.IndexIo.RoundTrip.{info_bytes, entry_bytes, entries_bytes, seekg-before}
use amigos.InvIndex.{skip_entries}

-- What an entry holds behind the byte that counts its sizes.
entry_tail : Entry → List ℕ
entry_tail e =
    array_bytes 2 e.posting_info.posting_sizes
    ++ (to_bytes 1 e.posting_info.in_zone
        ++ (to_bytes 8 e.posting_info.posting_offset ++ to_bytes 4 e.doc_id_offset))

entry_bytes-tail :
    (e : Entry) → entry_bytes e ≡ to_bytes 1 (length e.posting_info.posting_sizes) ++ entry_tail e
unfolding entry_bytes info_bytes entry_tail
entry_bytes-tail e = simp append_assoc

length-array_bytes : (vs : List ℕ) → length (array_bytes 2 vs) ≡ 2 * length vs
length-array_bytes [] = refl
length-array_bytes (v ∷ vs) = omega (
  arith,
  length-append (to_bytes 2 v) (array_bytes 2 vs),
  length-to_bytes 2 v,
  length-array_bytes vs,
)

length-entry_tail :
    (e : Entry) → length (entry_tail e) ≡ 2 * length e.posting_info.posting_sizes + 1 + 8 + 4
unfolding entry_tail
length-entry_tail e = simp (length-append, length-to_bytes, length-array_bytes) (omega arith)

-- A stream of the file `front ++ after` that stands behind `front`.
abbrev pub at : List ℕ → List ℕ → IStream
at file after = record { file = file; rest = after }

pub tellg-front :
    (file front after : List ℕ) → file ≡ front ++ after → tellg (at file after) ≡ length front
unfolding tellg
tellg-front file front after e = rw (e, length-append) (omega arith)

pub seekg-front :
    (file front after now : List ℕ) (pos : ℕ)
    → file ≡ front ++ after
    → pos ≡ length front
    → seekg (at file now) pos ≡ some (at file after)
seekg-front file front after now pos e p = rw (e, p) (seekg-before front after now)

pub read_at :
    (file : List ℕ) (w v : ℕ) (rest : List ℕ)
    → v < 256 ^ w
    → on_stream (read_from w) (at file (to_bytes w v ++ rest)) ≡ some (v, at file rest)
unfolding on_stream
read_at file w v rest h = rw (read_from-to_bytes w v rest h)

abbrev sizes_count : Entry → ℕ
sizes_count e = length e.posting_info.posting_sizes

-- A part of the file that has been read goes to the front.
pub front_moves :
    (file front part after : List ℕ)
    → file ≡ front ++ (part ++ after)
    → file ≡ (front ++ part) ++ after
front_moves file front part after e = e ∙ sym (append_assoc front part after)

pub skip_entries-entries_bytes :
    (file front : List ℕ) (es : List Entry) (rest : List ℕ)
    → file ≡ front ++ (entries_bytes es ++ rest)
    → All FitsEntry es
    → skip_entries (length es) (at file (entries_bytes es ++ rest)) ≡ some (at file rest)
unfolding skip_entries
skip_entries-entries_bytes file front [] rest e fits = refl
skip_entries-entries_bytes file front (x ∷ es) rest e (fit, fits) = rw split (
    rw
      (read_at file 1 (sizes_count x) ((entry_tail x) ++ (entries_bytes es ++ rest))
        fit.info.count_byte)
      (rw
        (tellg-front file (front ++ to_bytes 1 (sizes_count x))
          ((entry_tail x) ++ (entries_bytes es ++ rest)) behind_count)
        (rw
          (seekg-front file ((front ++ to_bytes 1 (sizes_count x)) ++ (entry_tail x))
            (entries_bytes es ++ rest) (entry_tail x ++ (entries_bytes es ++ rest))
            (length (front ++ to_bytes 1 (sizes_count x)) + (2 * sizes_count x + 1 + 8 + 4))
            behind_entry
            (omega (
              arith,
              length-append (front ++ to_bytes 1 (sizes_count x)) (entry_tail x),
              length-entry_tail x,
            )))
          (skip_entries-entries_bytes file ((front ++ to_bytes 1 (sizes_count x)) ++ (entry_tail x))
            es rest behind_entry fits))))
  where
    split :
        (entry_bytes x ++ entries_bytes es) ++ rest
        ≡ to_bytes 1 (sizes_count x) ++ ((entry_tail x) ++ (entries_bytes es ++ rest))
    split = rw (entry_bytes-tail x) (simp append_assoc)

    behind_count :
        file
        ≡ (front ++ to_bytes 1 (sizes_count x)) ++ ((entry_tail x) ++ (entries_bytes es ++ rest))
    behind_count =
        front_moves file front (to_bytes 1 (sizes_count x))
          ((entry_tail x) ++ (entries_bytes es ++ rest)) (e ∙ ap (front ++◌) split)

    behind_entry :
        file
        ≡ ((front ++ to_bytes 1 (sizes_count x)) ++ (entry_tail x)) ++ (entries_bytes es ++ rest)
    behind_entry =
        front_moves file (front ++ to_bytes 1 (sizes_count x)) (entry_tail x)
          (entries_bytes es ++ rest) behind_count
