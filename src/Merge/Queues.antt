-- ===== src/Merge/Queues.antt =====
-- The indexes of `_mergeIndexes` as queues of items.
use amigos.Base.{
  ℕ, suc, ◌+◌, ◌^◌, ◌<◌, ◌≡◌, refl, arith, Bool, true, false, List, [], ◌∷◌, ◌++◌, Option, some,
  All, inl, inr, map, length, length-append, Bool-cases, ◌==◌, min,
}
use amigos.Entry.{Entry}
use amigos.IndexIo.Words.{read_from-to_bytes}
use amigos.IndexIo.RoundTrip.{write_entries-append, read_entries-write_entries}
use amigos.InvIndex.Items.{items_bytes, counted_bytes, item_split}
use amigos.InvIndex.Load.{FitsItem}
use amigos.Merge.{RawIndex, read_next_token, read_tok_entries, pass}

-- What an index has left of its items: the one whose token is read, the others, and what stands
-- behind them in the file.
pub data Queue : Type 0 where
  queue : ℕ → List Entry → List (ℕ × List Entry) → List ℕ → Queue

unfoldable pub raw : Queue → RawIndex
raw (queue tok entries items tail) = record {
  cur_tok = some tok;
  ifs = counted_bytes entries ++ (items_bytes items ++ tail);
  size = length items;
}

abbrev pub FitsQueue : Queue → Type 0
FitsQueue (queue tok entries items tail) = FitsItem (tok, entries) × All FitsItem items

-- The loop over the indexes, on queues.
unfoldable pub pass_queues : ℕ → Bool → List Queue → List Entry → Bool × List Queue × List Entry
pass_queues min skip [] es = (skip, [], es)
pass_queues min true (q ∷ qs) es =
    let (beyond, rest, es) = pass_queues min false qs es in (beyond, q ∷ rest, es)
pass_queues min false (queue tok entries items tail ∷ qs) es = elim (tok == min) [
  | false ↦
      let (beyond, rest, es) = pass_queues min false qs es in
      (beyond, queue tok entries items tail ∷ rest, es)
  | true ↦ elim items [
    | [] ↦ pass_queues min true qs (es ++ entries)
    | (next, more) ∷ items ↦
        let (beyond, rest, es) = pass_queues min false qs (es ++ entries) in
        (beyond, queue next more items tail ∷ rest, es)
  ]
]

-- How many entries the queues have.
unfoldable pub count_items : List (ℕ × List Entry) → ℕ
count_items [] = 0
count_items ((tok, es) ∷ items) = length es + count_items items

unfoldable pub count_queues : List Queue → ℕ
count_queues [] = 0
count_queues (queue tok entries items tail ∷ qs) =
    length entries + count_items items + count_queues qs

read_tok_entries-raw :
    (tok : ℕ) (entries : List Entry) (items : List (ℕ × List Entry)) (tail : List ℕ)
    (es : List Entry)
    → FitsItem (tok, entries)
    → length es + length entries < 2 ^ 32
    → read_tok_entries (raw (queue tok entries items tail)) es
      ≡ some (
        es ++ entries,
        record { cur_tok = some tok; ifs = items_bytes items ++ tail; size = length items },
      )
unfolding read_tok_entries raw counted_bytes
read_tok_entries-raw tok entries items tail es (ht, hn, hx) lt =
    let read =
      rw (write_entries-append [] entries) at
        (read_entries-write_entries es entries (items_bytes items ++ tail) lt hx) in
    rw (read_tok_entries, raw, read) refl

pub read_next_token-raw :
    (tok : ℕ) (now : Option ℕ) (es : List Entry) (items : List (ℕ × List Entry)) (tail : List ℕ)
    → tok < 2 ^ 32
    → read_next_token (record {
      cur_tok = now;
      ifs = items_bytes ((tok, es) ∷ items) ++ tail;
      size = suc (length items);
    })
      ≡ some (true, raw (queue tok es items tail))
unfolding read_next_token raw
read_next_token-raw tok now es items tail lt =
    let read = read_from-to_bytes 4 tok (counted_bytes es ++ (items_bytes items ++ tail)) lt in
    let split = item_split tok es items tail in rw (read_next_token, split, read) refl

-- On indexes that stand in front of items, the loop does what it does to queues.
pub pass-raw :
    (min : ℕ) (skip : Bool) (qs : List Queue) (es : List Entry)
    → All FitsQueue qs
    → length es + count_queues qs < 2 ^ 32
    → pass min skip (map raw qs) es
      ≡ some (
        (pass_queues min skip qs es).0,
        map raw (pass_queues min skip qs es).1,
        (pass_queues min skip qs es).2,
      )
unfolding pass pass_queues count_queues raw read_next_token
pass-raw min skip [] es fits lt = refl
pass-raw min true (queue tok entries items tail ∷ qs) es (fit, fits) lt =
    rw (pass-raw min false qs es fits (omega arith)) refl
pass-raw min false (queue tok entries [] tail ∷ qs) es ((fit, more_fit), fits) lt =
    let room : length (es ++ entries) + count_queues qs < 2 ^ 32 =
      omega (arith, length-append es entries) in
    elim (Bool-cases (tok == min)) [
      | inl here ↦
          rw
            (
              pass,
              pass_queues,
              here,
              read_tok_entries-raw tok entries [] tail es fit (omega arith),
              read_next_token,
              pass-raw min true qs (es ++ entries) fits room,
            )
            refl
      | inr other ↦ rw (pass, pass_queues, other, pass-raw min false qs es fits (omega arith)) refl
    ]
pass-raw min false (queue tok entries ((next, more) ∷ items) tail ∷ qs) es
      ((fit, (next_fit, more_fit)), fits) lt =
    let room : length (es ++ entries) + count_queues qs < 2 ^ 32 =
      omega (arith, length-append es entries) in
    elim (Bool-cases (tok == min)) [
      | inl here ↦
          rw
            (
              pass,
              pass_queues,
              here,
              read_tok_entries-raw tok entries ((next, more) ∷ items) tail es fit (omega arith),
              read_next_token-raw next (some tok) more items tail next_fit.0,
              pass-raw min false qs (es ++ entries) fits room,
            )
            refl
      | inr other ↦ rw (pass, pass_queues, other, pass-raw min false qs es fits (omega arith)) refl
    ]
