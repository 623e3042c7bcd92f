-- ===== src/Posting.antt =====
-- The positions at which a word stands in a document: `splitByZones` and `DynPostingStore` of
-- projects/indexer/src/indexer.cpp store them, `PostingStorage::getFullPosting` of
-- projects/indexer/src/index_struct.cpp finds them again.
pub mod Mask
pub mod Split
pub mod Stored
use Prim.Native.Nat.{bit_and, bit_or}
use amigos.Base.{
  ℕ, zero, suc, ◌+◌, ◌-◌, ◌*◌, ◌/◌, ◌%◌, ◌^◌, Bool, true, false, not, List, [], ◌∷◌, ◌++◌, Option,
  none, some, map, leb, ltb, ◌==◌, if◌then◌else◌, ◌>>=◌, length, drop, resize,
}
use amigos.Entry.{Entry, PostingInfo}
use amigos.IndexIo.{write_array, read_array}

-- `i2mask[i]`, a table of eight bytes.
unfoldable pub i2mask : ℕ → Option ℕ
i2mask i = if ltb i 8 then some (2 ^ i) else none

-- Where `splitByZones` stands: the zone `zi`, its first position `offset` (16 bits), `isNewZone`,
-- and the word counts of the zones from `zi` on.
pub record Cursor : Type 0 where
  pub zi : ℕ
  pub offset : ℕ
  pub is_new_zone : Bool
  pub zw_cnt : List ℕ

-- `while (val >= offset + zwCnt[zi])`; `none` is a read behind the last zone.
unfoldable pub find_zone : ℕ → ℕ → ℕ → Bool → List ℕ → Option Cursor
find_zone val zi offset is_new [] = none
find_zone val zi offset is_new (c ∷ zw_cnt) = elim (leb (offset + c) val) [
  | true ↦ find_zone val (zi + 1) ((offset + c) % 2 ^ 16) true zw_cnt
  | false ↦ some (record { zi = zi; offset = offset; is_new_zone = is_new; zw_cnt = c ∷ zw_cnt })
]

-- `splitPosting.back().push_back(val)`.
unfoldable pub push_last : List (List ℕ) → ℕ → List (List ℕ)
push_last [] val = []
push_last (p ∷ []) val = (p ++ (val ∷ [])) ∷ []
push_last (p ∷ q ∷ ps) val = p ∷ push_last (q ∷ ps) val

-- `val - offset`, made a `uint16_t`.
unfoldable pub inner : ℕ → ℕ → ℕ
inner val offset = (val + (2 ^ 16 - offset)) % 2 ^ 16

-- The loop over the posting; it returns `splitPosting` and `inZone`.
unfoldable pub split_loop : List ℕ → Cursor → List (List ℕ) → ℕ → Option (List (List ℕ) × ℕ)
unfolding find_zone push_last i2mask inner
split_loop [] at split in_zone = some (split, in_zone)
split_loop (val ∷ posting) at split in_zone = do
  at' ← find_zone val at.zi at.offset at.is_new_zone at.zw_cnt
  elim at'.is_new_zone [
    | true ↦ do
      mask ← i2mask at'.zi
      split_loop posting (record at' { is_new_zone = false })
          (push_last (split ++ ([] ∷ [])) (inner val at'.offset)) (bit_or in_zone mask)
    | false ↦
        split_loop posting (record at' { is_new_zone = false })
          (push_last split (inner val at'.offset)) in_zone
  ]

-- `splitByZones`: what `splitPosting` and `entry` are behind the call. A size has 16 bits.
unfoldable pub split_by_zones :
    List ℕ → List ℕ → List (List ℕ) → Entry → Option (List (List ℕ) × Entry)
unfolding split_loop
split_by_zones posting zw_cnt split entry = do
  let start : Cursor = record { zi = 0; offset = 0; is_new_zone = true; zw_cnt = zw_cnt }
  (split', in_zone) ← split_loop posting start split entry.posting_info.in_zone
  some (
    split',
    record entry {
      posting_info = record {
        in_zone = in_zone;
        posting_offset = entry.posting_info.posting_offset;
        posting_sizes = entry.posting_info.posting_sizes ++ map (λ p. length p % 2 ^ 16) split';
      };
    },
  )

-- `Index::Entry()`.
abbrev pub new_entry : Entry
new_entry = record {
  doc_id_offset = 0;
  posting_info = record { in_zone = 0; posting_offset = 0; posting_sizes = [] };
}

-- `DynPostingStore`: the file that it appends to, and `_commonSize` (32 bits).
pub record DynPostingStore : Type 0 where
  pub ofs : List ℕ
  pub common_size : ℕ

-- The constructor opens the file for appending, and counts from 0.
unfoldable pub open_posting_store : List ℕ → DynPostingStore
open_posting_store file = record { ofs = file; common_size = 0 }

unfoldable pub append_postings : DynPostingStore → List (List ℕ) → DynPostingStore
append_postings st [] = st
append_postings st (p ∷ zones_posting) =
    append_postings
      (record { ofs = write_array 2 st.ofs p; common_size = (st.common_size + length p) % 2 ^ 32 })
      zones_posting

-- `addTokenPosting`: the new store, and `*postingOffset`.
unfoldable pub add_token_posting : DynPostingStore → List (List ℕ) → DynPostingStore × ℕ
unfolding append_postings
add_token_posting st zones_posting = (append_postings st zones_posting, st.common_size)

-- `Posting`: two pointers into an array of 16-bit words, as indices from its start.
pub record Posting : Type 0 where
  pub begin : ℕ
  pub end : ℕ

-- The default constructor's two null pointers, and `Posting(src, seek, size)`.
abbrev pub no_posting : Posting
no_posting = record { begin = 0; end = 0 }

unfoldable pub make_posting : ℕ → ℕ → Posting
make_posting seek size = record { begin = seek / 2; end = seek / 2 + size }

-- The loop of `getFullPosting` over the elements of `res`, the `i`-th first. `none` is a read
-- behind the masks or behind the sizes.
unfoldable pub fill_postings : ℕ → ℕ → ℕ → List ℕ → List Posting → Option (List Posting)
unfolding i2mask make_posting
fill_postings i in_zone po sizes [] = some []
fill_postings i in_zone po sizes (r ∷ res) = do
  mask ← i2mask i
  elim (bit_and mask in_zone == 0) [
    | true ↦ do rest ← fill_postings (i + 1) in_zone po sizes res; some (r ∷ rest)
    | false ↦ elim sizes [
      | [] ↦ none
      | size ∷ more ↦ do
        let np = make_posting (po * 2 % 2 ^ 64) size
        rest ← fill_postings (i + 1) in_zone ((po + (np.end - np.begin)) % 2 ^ 64) more res
        some (np ∷ rest)
    ]
  ]

-- `getFullPosting(entry, &res)` with `_tZonesCnt` text zones.
unfoldable pub get_full_posting : ℕ → Entry → List Posting → Option (List Posting)
unfolding fill_postings
get_full_posting t_zones_cnt entry res =
    let p = entry.posting_info in
    fill_postings 0 p.in_zone p.posting_offset p.posting_sizes (resize t_zones_cnt no_posting res)

-- The words between the pointers of a posting, in the bytes that `_src` maps.
unfoldable pub words_of : List ℕ → Posting → Option (List ℕ)
words_of src p = do
  (words, rest) ← read_array 2 (p.end - p.begin) (drop (2 * p.begin) src)
  some words

unfoldable pub words_of_all : List ℕ → List Posting → Option (List (List ℕ))
unfolding words_of
words_of_all src [] = some []
words_of_all src (p ∷ ps) = do
  words ← words_of src p
  rest ← words_of_all src ps
  some (words ∷ rest)
