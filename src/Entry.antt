-- ===== src/Entry.antt =====
-- include/indexer/index_struct.h: the records of the inverted index.
use amigos.Base.{ℕ, List, ◌^◌, ◌<◌, All, length}

-- `struct PostingInfo`: `inZone` a byte, `postingOffset` 64 bits, each size 16 bits.
pub record PostingInfo : Type 0 where
  pub in_zone : ℕ
  pub posting_offset : ℕ
  pub posting_sizes : List ℕ

-- `struct Entry`.
pub record Entry : Type 0 where
  pub doc_id_offset : ℕ
  pub posting_info : PostingInfo

-- The ranges that the C++ field types impose, and the byte that counts `postingSizes` on disk.
pub record FitsInfo (p : PostingInfo) : Type 0 where
  pub in_zone_byte : p.in_zone < 256
  pub offset_u64 : p.posting_offset < 256 ^ 8
  pub sizes_u16 : All (λ s. s < 256 ^ 2) p.posting_sizes
  pub count_byte : length p.posting_sizes < 256

pub record FitsEntry (e : Entry) : Type 0 where
  pub offset_u32 : e.doc_id_offset < 256 ^ 4
  pub info : FitsInfo e.posting_info
