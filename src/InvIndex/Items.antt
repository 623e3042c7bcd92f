-- ===== src/InvIndex/Items.antt =====
-- The bytes of the items in the index file.
use amigos.Base.{
  ℕ, ◌+◌, ◌≡◌, sym, ap, ◌∙◌, List, [], ◌∷◌, ◌++◌, append_assoc, append-nil, nil-append, length,
  length-append,
}
use amigos.Entry.{Entry}
use amigos.IndexIo.{to_bytes, write_to, write_entries}
use amigos.IndexIo.Words.{length-to_bytes}
use amigos.IndexIo.RoundTrip.{entries_bytes, write_to-append, write_entries-append}
use amigos.InvIndex.{write_idx_item, write_items, flush_to_disk}
use amigos.InvIndex.Skip.{front_moves}

-- An item of the file: the token, how many entries it has, and the entries.
unfoldable pub counted_bytes : List Entry → List ℕ
counted_bytes es = to_bytes 4 (length es) ++ entries_bytes es

pub counted_bytes-append :
    (es : List Entry) (rest : List ℕ)
    → counted_bytes es ++ rest ≡ to_bytes 4 (length es) ++ (entries_bytes es ++ rest)
unfolding counted_bytes
counted_bytes-append es rest = append_assoc (to_bytes 4 (length es)) (entries_bytes es) rest

unfoldable pub items_bytes : List (ℕ × List Entry) → List ℕ
items_bytes [] = []
items_bytes ((tok, es) ∷ items) = to_bytes 4 tok ++ (counted_bytes es ++ items_bytes items)

write_items-append :
    (ofs : List ℕ) (items : List (ℕ × List Entry))
    → write_items ofs items ≡ ofs ++ items_bytes items
unfolding write_items write_idx_item items_bytes counted_bytes
write_items-append ofs [] = sym (append-nil ofs)
write_items-append ofs ((tok, es) ∷ items) =
    rw (write_items-append (write_entries (write_to 4 ofs tok) es) items)
      (simp (write_entries-append, write_to-append, append_assoc))

pub flush_to_disk-items_bytes :
    (items : List (ℕ × List Entry))
    → flush_to_disk items ≡ items_bytes items ++ to_bytes 4 (length items)
unfolding flush_to_disk
flush_to_disk-items_bytes items = simp (write_items-append, write_to-append, nil-append)

pub item_split :
    (tok : ℕ) (es : List Entry) (items : List (ℕ × List Entry)) (rest : List ℕ)
    → items_bytes ((tok, es) ∷ items) ++ rest
      ≡ to_bytes 4 tok ++ (counted_bytes es ++ (items_bytes items ++ rest))
unfolding items_bytes
item_split tok es items rest = simp append_assoc

pub behind_item :
    (file front : List ℕ) (tok : ℕ) (es : List Entry) (items : List (ℕ × List Entry))
    (rest : List ℕ)
    → file ≡ front ++ (items_bytes ((tok, es) ∷ items) ++ rest)
    → file ≡ ((front ++ to_bytes 4 tok) ++ counted_bytes es) ++ (items_bytes items ++ rest)
behind_item file front tok es items rest e =
    front_moves file (front ++ to_bytes 4 tok) (counted_bytes es) (items_bytes items ++ rest) (
      front_moves file front (to_bytes 4 tok) (counted_bytes es ++ (items_bytes items ++ rest))
        (e ∙ ap (front ++◌) (item_split tok es items rest)))

pub length-behind_item :
    (front : List ℕ) (tok : ℕ) (es : List Entry)
    → length ((front ++ to_bytes 4 tok) ++ counted_bytes es)
      ≡ length front + 4 + length (counted_bytes es)
length-behind_item front tok es = simp (length-append, length-to_bytes)
