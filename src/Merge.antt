-- ===== src/Merge.antt =====
-- `RawIndex` and `_mergeIndexes` of projects/indexer/src/indexer.cpp: the index files are read side by
-- side, the smallest token first, and written as one.
pub mod Queues
pub mod Totals
pub mod Steps
pub mod Rounds
pub mod Files
pub mod Ends
pub mod Single
pub mod Refines
pub mod Twice
use amigos.Base.{
  ℕ, zero, suc, ◌+◌, ◌-◌, ◌^◌, Bool, true, false, List, [], ◌∷◌, ◌++◌, Option, none, some, ltb,
  ◌==◌, if◌then◌else◌, length, min,
}
use amigos.Run.{Run, done, throws, undefined, ◌>>=◌}
use amigos.Entry.{Entry}
use amigos.IndexIo.{read_from, read_entries, read_from_end}
use amigos.InvIndex.{write_index}

-- `curTok` is `none` as long as nothing has set it; `ifs` is what stands from the get pointer on.
pub record RawIndex : Type 0 where
  pub cur_tok : Option ℕ
  pub ifs : List ℕ
  pub size : ℕ

-- No behaviour of the code.
pub data Stuck : Type 0 where
  out_of_fuel : Stuck

abbrev pub or_undefined {ℓ} : {A : Type ℓ} → Option A → Run Stuck A
or_undefined none = undefined
or_undefined (some a) = done a

-- `readNextToken`; `none` is a file that ends too early. `_size` is a `size_t`.
unfoldable pub read_next_token : RawIndex → Option (Bool × RawIndex)
read_next_token index = elim index.size [
  | zero ↦ some (false, record index { size = 2 ^ 64 - 1 })
  | suc n ↦ elim (read_from 4 index.ifs) [
    | none ↦ none
    | some (tok, ifs) ↦ some (true, record { cur_tok = some tok; ifs = ifs; size = n })
  ]
]

-- `RawIndex(pathToFile)`, by the bytes of the file.
unfoldable pub open_raw_index : List ℕ → Option RawIndex
unfolding read_next_token
open_raw_index file = elim (read_from_end (record { file = file; rest = file })) [
  | none ↦ none
  | some (size, ifs) ↦
      elim (read_next_token (record { cur_tok = none; ifs = ifs.rest; size = size })) [
        | none ↦ none
        | some (more, index) ↦ some index
      ]
]

unfoldable pub open_all : List (List ℕ) → Option (List RawIndex)
unfolding open_raw_index
open_all [] = some []
open_all (file ∷ files) = elim (open_raw_index file) [
  | none ↦ none
  | some index ↦ elim (open_all files) [ none ↦ none | some indexes ↦ some (index ∷ indexes) ]
]

-- `readTokEntries`: the entries go behind those that are there.
unfoldable pub read_tok_entries : RawIndex → List Entry → Option (List Entry × RawIndex)
unfolding read_entries
read_tok_entries index entries = elim (read_entries entries index.ifs) [
  | none ↦ none
  | some (entries, ifs) ↦ some (entries, record index { ifs = ifs })
]

-- The smallest `curTok`, and `best` if there is none; `none` is a token that nothing has set.
unfoldable pub min_token : ℕ → List RawIndex → Option ℕ
min_token best [] = some best
min_token best (index ∷ indexes) = elim index.cur_tok [
  | none ↦ none
  | some tok ↦ min_token (min best tok) indexes
]

-- The loop over the indexes from an iterator on: whether the iterator is moved behind the end of the
-- list, the indexes that are left, and the entries. Behind an index that is erased the iterator moves
-- on once more: `skip` passes over one index.
unfoldable pub pass :
    ℕ → Bool → List RawIndex → List Entry → Option (Bool × List RawIndex × List Entry)
unfolding read_tok_entries read_next_token
pass min skip [] entries = some (skip, [], entries)
pass min true (index ∷ indexes) entries = elim (pass min false indexes entries) [
  | none ↦ none
  | some (beyond, rest, entries) ↦ some (beyond, index ∷ rest, entries)
]
pass min false (index ∷ indexes) entries = elim index.cur_tok [
  | none ↦ none
  | some tok ↦ elim (tok == min) [
    | false ↦ elim (pass min false indexes entries) [
      | none ↦ none
      | some (beyond, rest, entries) ↦ some (beyond, index ∷ rest, entries)
    ]
    | true ↦ elim (read_tok_entries index entries) [
      | none ↦ none
      | some (entries, behind) ↦ elim (read_next_token behind) [
        | none ↦ none
        | some (true, next) ↦ elim (pass min false indexes entries) [
          | none ↦ none
          | some (beyond, rest, entries) ↦ some (beyond, next ∷ rest, entries)
        ]
        | some (false, next) ↦ pass min true indexes entries
      ]
    ]
  ]
]

-- The whole loop. C++ leaves it undefined to move the end of a list forward; `ring` says that this
-- leads to the first element, as in a list that is a ring with its end.
unfoldable pub walk :
    Bool → ℕ → ℕ → List RawIndex → List Entry → Run Stuck (List RawIndex × List Entry)
unfolding pass
walk ring zero min indexes entries = throws out_of_fuel
walk ring (suc fuel) min indexes entries = elim (pass min false indexes entries) [
  | none ↦ undefined
  | some (false, rest, entries) ↦ done (rest, entries)
  | some (true, rest, entries) ↦ elim ring [
    | true ↦ walk ring fuel min rest entries
    | false ↦ undefined
  ]
]

-- `compareEntries`.
unfoldable pub compare_entries : Entry → Entry → Bool
compare_entries e1 e2 = ltb e1.doc_id_offset e2.doc_id_offset

-- The rounds, each with its token and its entries. `sort` is `std::sort`.
unfoldable pub merge_rounds :
    Bool
    → ((Entry → Entry → Bool) → List Entry → List Entry)
    → ℕ
    → List RawIndex
    → Run Stuck (List (ℕ × List Entry))
unfolding min_token walk compare_entries
merge_rounds ring sort fuel [] = done []
merge_rounds ring sort zero (index ∷ indexes) = throws out_of_fuel
merge_rounds ring sort (suc fuel) (index ∷ indexes) = do
  min ← or_undefined (min_token (2 ^ 32 - 1) (index ∷ indexes))
  (rest, entries) ← walk ring (suc (length (index ∷ indexes))) min (index ∷ indexes) []
  rounds ← merge_rounds ring sort fuel rest
  done ((min, sort compare_entries entries) ∷ rounds)

-- A round takes a token of a file at least.
unfoldable pub tokens_left : List RawIndex → ℕ
tokens_left [] = 0
tokens_left (index ∷ indexes) = suc index.size + tokens_left indexes

-- `_mergeIndexes` on the bytes of the files: the index, and the positions of its items.
unfoldable pub merge_files :
    Bool
    → ((Entry → Entry → Bool) → List Entry → List Entry)
    → List (List ℕ)
    → Run Stuck (List ℕ × List ℕ)
unfolding open_all merge_rounds tokens_left write_index
merge_files ring sort files = do
  indexes ← or_undefined (open_all files)
  rounds ← merge_rounds ring sort (tokens_left indexes) indexes
  done (write_index rounds)
