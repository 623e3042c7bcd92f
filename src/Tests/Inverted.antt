-- ===== src/Tests/Inverted.antt =====
-- The inverted index: its file and the search for a token.
use amigos.Base.{ℕ, ◌^◌, ◌<◌, ◌≡◌, refl, List, [], ◌∷◌, some, none, arith, All, length}
use amigos.Entry.{Entry, FitsEntry}
use amigos.IndexIo.{IStream, read_from_end, write_to, write_entries}
use amigos.InvIndex.{InvIdxItem, flush_to_disk, configure, find_tkn_idx, write_index, skip_entries}
use amigos.InvIndex.Load.{FitsItem, Holds, get_entries-configure}
use amigos.InvIndex.Positions.{configure-write_index}
use amigos.InvIndex.Find.{walk, find_tkn_idx-walk}

abbrev entry : ℕ → Entry
entry d = record {
  doc_id_offset = d;
  posting_info = record { in_zone = 5; posting_offset = 7; posting_sizes = 2 ∷ 1 ∷ [] };
}

fits_entry : (d : ℕ) → d < 256 ^ 4 → FitsEntry (entry d)
fits_entry d h = record {
  offset_u32 = h;
  info = record {
    in_zone_byte = omega arith;
    offset_u64 = omega arith;
    sizes_u16 = omega arith;
    count_byte = omega arith;
  };
}

abbrev pairs : List (ℕ × List Entry)
pairs = (40, entry 1 ∷ []) ∷ (3000000000, entry 3 ∷ entry 900 ∷ []) ∷ []

pairs-FitsItem : All FitsItem pairs
pairs-FitsItem = (
  (omega arith, omega arith, (fits_entry 1 (omega arith), tt)),
  (
    (omega arith, omega arith, (fits_entry 3 (omega arith), (fits_entry 900 (omega arith), tt))),
    tt,
  ),
)

-- The quotient's two parts stand for the logarithm.
abbrev ratio : ℕ → ℕ → ℕ × ℕ
ratio all count = (all, count)

configure_test :
    configure ratio (flush_to_disk pairs) none
    ≡ some (
      record { tok_id = 40; offset = 4; idf = (2, 1) }
          ∷ record { tok_id = 3000000000; offset = 30; idf = (2, 2) }
          ∷ [],
      record { file = flush_to_disk pairs; rest = 2 ∷ 0 ∷ 0 ∷ 0 ∷ [] },
    )
unfolding flush_to_disk configure read_from_end write_to write_entries skip_entries
configure_test = refl

get_entries-configure_example :
    (inv_idx : List (InvIdxItem (ℕ × ℕ))) × (ifs : IStream) × (configure ratio
        (flush_to_disk pairs)
        none
      ≡ some (inv_idx, ifs))
    × (ifs.file ≡ flush_to_disk pairs)
    × (length inv_idx ≡ length pairs)
    × Holds ratio inv_idx
        (flush_to_disk pairs)
        2
        1
        3000000000
        (entry 3 ∷ entry 900 ∷ [])
        []
        (entry 7 ∷ [])
get_entries-configure_example =
    get_entries-configure ratio pairs 1 3000000000 (entry 3 ∷ entry 900 ∷ []) [] (entry 7 ∷ [])
      pairs-FitsItem (omega arith) refl (omega arith)

write_index-pairs : length (write_index pairs).0 < 2 ^ 64
unfolding write_index write_to write_entries
write_index-pairs = omega arith

configure-write_index_example :
    (inv_idx : List (InvIdxItem (ℕ × ℕ))) × (walked : IStream) × (jumped : IStream) × (configure
        ratio
        (write_index pairs).0
        none
      ≡ some (inv_idx, walked))
    × (configure ratio (write_index pairs).0 (some (write_index pairs).1) ≡ some (inv_idx, jumped))
    × ((write_index pairs).0 ≡ flush_to_disk pairs)
configure-write_index_example =
    configure-write_index ratio pairs pairs-FitsItem (omega arith) write_index-pairs

abbrev token : ℕ → InvIdxItem ℕ
token t = record { tok_id = t; offset = 0; idf = 1 }

find_tkn_idx-walk_example :
    find_tkn_idx (token 3 ∷ token 5 ∷ token 8 ∷ []) 8 ≡ walk 8 0 (token 3 ∷ token 5 ∷ token 8 ∷ [])
find_tkn_idx-walk_example = find_tkn_idx-walk (token 3 ∷ token 5 ∷ token 8 ∷ []) 8 (omega arith)

find_tkn_idx_test : find_tkn_idx (token 3 ∷ token 5 ∷ token 8 ∷ []) 8 ≡ some 2
unfolding find_tkn_idx
find_tkn_idx_test = refl

-- All tokens are smaller.
find_tkn_idx_behind_test : find_tkn_idx (token 3 ∷ token 5 ∷ []) 6 ≡ none
unfolding find_tkn_idx
find_tkn_idx_behind_test = refl
