-- ===== src/Tests/Index.antt =====
-- The index component: its files, its stores and the intersection.
use amigos.Base.{
  ℕ, ◌+◌, ◌<◌, ◌≡◌, refl, List, [], ◌∷◌, ◌++◌, some, arith, true, ◌⊎◌, ◌^◌, ◌*◌, ◌%◌, length,
}
use amigos.Entry.{Entry, FitsEntry}
use amigos.IndexIo.{to_bytes, write_entries}
use amigos.Intersect.{jump, found, fronts, intersect_more, intersect_entries}
use amigos.Intersect.Jump.{Lands, jump-Lands}
use amigos.Intersect.Join.{join}
use amigos.Intersect.Laws.{intersect_more-join}
use amigos.Intersect.Entries.{singletons, join_all, intersect_entries-join_all}
use amigos.DocStore.{DocStorage, add_doc, ok, throws, wrong_zone_counts, save, load}
use amigos.DocStore.Rows.{IsLevel, Adds, add_doc-Adds}
use amigos.DocStore.File.{FitsFile, merged, load-save}
use amigos.Posting.{
  new_entry, split_by_zones, DynPostingStore, add_token_posting, open_posting_store, Posting,
  make_posting, words_of, words_of_all, get_full_posting,
}
use amigos.Posting.Split.{sum}
use amigos.Posting.Stored.{
  IsAligned, get_full_posting-add_token_posting, open_posting_store-old_words,
}

abbrev entry : ℕ → Entry
entry d = record {
  doc_id_offset = d;
  posting_info = record { in_zone = 5; posting_offset = 7; posting_sizes = 2 ∷ 1 ∷ [] };
}

fits_entry : (d : ℕ) → d < 256 ^ 4 → FitsEntry (entry d)
fits_entry d h = record {
  offset_u32 = h;
  info = record {
    in_zone_byte = omega arith;
    offset_u64 = omega arith;
    sizes_u16 = omega arith;
    count_byte = omega arith;
  };
}

abbrev two_entries : List Entry
two_entries = entry 3 ∷ entry 900 ∷ []

write_entries_test : length (write_entries [] two_entries) ≡ 4 + 2 * (1 + 4 + 1 + 8 + 4)
unfolding write_entries
write_entries_test = refl

abbrev docs : List ℕ → List Entry
docs [] = []
docs (d ∷ ds) = entry d ∷ docs ds

jump-Lands_example :
    Lands (docs (1 ∷ 4 ∷ 6 ∷ 9 ∷ [])) 5 0 (jump (docs (1 ∷ 4 ∷ 6 ∷ 9 ∷ [])) (entry 5) 0 2)
jump-Lands_example =
    jump-Lands (docs (1 ∷ 4 ∷ 6 ∷ 9 ∷ [])) (entry 5) 0 2 (omega arith) (omega arith) (omega arith)

jump_test : jump (docs (1 ∷ 4 ∷ 6 ∷ 9 ∷ [])) (entry 5) 0 2 ≡ found 2
unfolding jump
jump_test = refl

intersect_more-join_example :
    intersect_more (singletons (docs (1 ∷ 4 ∷ 6 ∷ []))) (docs (4 ∷ 5 ∷ 6 ∷ 8 ∷ [])) [] 100
    ≡ some (join (singletons (docs (1 ∷ 4 ∷ 6 ∷ []))) (docs (4 ∷ 5 ∷ 6 ∷ 8 ∷ [])))
unfolding fronts
intersect_more-join_example =
    intersect_more-join (singletons (docs (1 ∷ 4 ∷ 6 ∷ []))) (docs (4 ∷ 5 ∷ 6 ∷ 8 ∷ [])) [] 100 refl
      (omega arith) (omega arith) (omega arith)

intersect_entries_test :
    intersect_entries (docs (1 ∷ 4 ∷ 6 ∷ []) ∷ docs (4 ∷ 6 ∷ 8 ∷ []) ∷ docs (2 ∷ 6 ∷ []) ∷ []) []
    ≡ some ((entry 6 ∷ entry 6 ∷ entry 6 ∷ []) ∷ [])
unfolding intersect_entries
intersect_entries_test = refl

intersect_entries-join_all_example :
    intersect_entries (docs (1 ∷ 4 ∷ 6 ∷ []) ∷ docs (4 ∷ 6 ∷ 8 ∷ []) ∷ docs (2 ∷ 6 ∷ []) ∷ []) []
    ≡ some (
        join_all
          (singletons (docs (1 ∷ 4 ∷ 6 ∷ [])))
          (docs (4 ∷ 6 ∷ 8 ∷ []) ∷ docs (2 ∷ 6 ∷ []) ∷ []))
intersect_entries-join_all_example =
    intersect_entries-join_all (docs (1 ∷ 4 ∷ 6 ∷ []))
      (docs (4 ∷ 6 ∷ 8 ∷ []) ∷ docs (2 ∷ 6 ∷ []) ∷ []) (omega arith) (omega arith)

abbrev two_docs : DocStorage
two_docs = record {
  doc_ids = 70 ∷ 80 ∷ [];
  n_zones = (5 ∷ 6 ∷ []) ∷ [];
  t_zones_w_cnt = (1 ∷ 2 ∷ []) ∷ (30 ∷ 40 ∷ []) ∷ [];
}

two_docs-IsLevel : IsLevel two_docs
two_docs-IsLevel = record { num_level = omega arith; text_level = omega arith }

two_docs-FitsFile : FitsFile two_docs
two_docs-FitsFile = record {
  ids = omega arith;
  nums = omega arith;
  texts = omega arith;
  num_count = omega arith;
  text_count = omega arith;
}

add_doc-Adds_example :
    ((1 ≡ length two_docs.n_zones)
      × (2 ≡ length two_docs.t_zones_w_cnt)
      × ((t : DocStorage) × (add_doc two_docs 90 (7 ∷ []) (3 ∷ 4 ∷ []) ≡ ok t)
          × Adds two_docs t 90 (7 ∷ []) (3 ∷ 4 ∷ [])))
    ⊎ (¬ ((1 ≡ length two_docs.n_zones) × (2 ≡ length two_docs.t_zones_w_cnt))
        × (add_doc two_docs 90 (7 ∷ []) (3 ∷ 4 ∷ []) ≡ throws wrong_zone_counts))
add_doc-Adds_example = add_doc-Adds two_docs 90 (7 ∷ []) (3 ∷ 4 ∷ []) two_docs-IsLevel

load-save_example :
    (file : List ℕ) × (save two_docs ≡ some file)
    × (load two_docs true (some file) ≡ ok (merged two_docs two_docs))
load-save_example =
    load-save two_docs two_docs two_docs-IsLevel two_docs-IsLevel two_docs-FitsFile refl refl
      (omega arith)

abbrev parts : List (List ℕ)
parts = (0 ∷ 2 ∷ []) ∷ [] ∷ (1 ∷ []) ∷ []

abbrev small_store : DynPostingStore
small_store = record { ofs = 1 ∷ 0 ∷ 2 ∷ 0 ∷ []; common_size = 2 }

get_full_posting-add_token_posting_example :
    (split : List (List ℕ)) × (e : Entry) × (res : List Posting) × (split_by_zones
        (0 ∷ 2 ∷ 9 ∷ [])
        (3 ∷ 5 ∷ 4 ∷ [])
        []
        new_entry
      ≡ some (split, e))
    × (get_full_posting 3
          (record e {
            posting_info = record {
              in_zone = e.posting_info.in_zone;
              posting_offset = (add_token_posting small_store split).1;
              posting_sizes = e.posting_info.posting_sizes;
            };
          })
          []
        ≡ some res)
    × (words_of_all ((add_token_posting small_store split).0.ofs ++ (8 ∷ [])) res ≡ some parts)
    × IsAligned (add_token_posting small_store split).0
unfolding sum
get_full_posting-add_token_posting_example =
    get_full_posting-add_token_posting (3 ∷ 5 ∷ 4 ∷ []) parts small_store (8 ∷ []) (omega arith)
      (omega arith) (omega arith) (omega arith) (omega arith) (omega arith)

open_posting_store-old_words_example :
    ((add_token_posting (open_posting_store (1 ∷ 0 ∷ 2 ∷ 0 ∷ [])) ((9 ∷ []) ∷ [])).1 ≡ 0)
    × (words_of
          ((add_token_posting (open_posting_store (1 ∷ 0 ∷ 2 ∷ 0 ∷ [])) ((9 ∷ []) ∷ [])).0.ofs
            ++ [])
          (make_posting (0 * 2 % 2 ^ 64) 1)
        ≡ some (1 ∷ []))
unfolding to_bytes
open_posting_store-old_words_example =
    open_posting_store-old_words (1 ∷ []) (2 ∷ []) (9 ∷ []) [] (omega arith) refl (omega arith)
