-- ===== src/Listener/Query.antt =====
-- `ParseQuery` of projects/listener/main.cpp, and the cleaning of the received bytes in `Search`. An
-- `int` is its 32-bit word, and overflow wraps around.
pub mod Numbers
pub mod RoundTrip
use amigos.Base.{
  ℕ, zero, suc, ◌+◌, ◌-◌, ◌*◌, ◌%◌, ◌^◌, Bool, true, false, List, [], ◌∷◌, ◌++◌, Option, none, some,
  ltb, ◌==◌, if◌then◌else◌, length, take, drop, Bytes,
}
use amigos.Run.{Run, done, throws, undefined, ◌>>=◌}

-- The exception of `substr`.
pub data OutOfRange : Type 0 where
  out_of_range : OutOfRange

pub record Query : Type 0 where
  pub to_search : Bytes
  pub start_doc : ℕ
  pub end_doc : ℕ
  pub find_only_in_subs : Bool

-- The loops for the first and for the last quote; 0 where there is none.
unfoldable pub first_quote : Bytes → Option ℕ
first_quote [] = none
first_quote (c ∷ query) = elim (c == b'"') [
  | true ↦ some 0
  | false ↦ elim (first_quote query) [ none ↦ none | some i ↦ some (suc i) ]
]

unfoldable pub last_quote : Bytes → Option ℕ
last_quote [] = none
last_quote (c ∷ query) = elim (last_quote query) [
  | some i ↦ some (suc i)
  | none ↦ if c == b'"' then some 0 else none
]

abbrev pub or_zero : Option ℕ → ℕ
or_zero none = 0
or_zero (some i) = i

-- `query.substr(start + 1, end - start - 1)`: a negative count is a large unsigned number, and asks
-- for all that is left.
unfoldable pub quoted : Bytes → ℕ → ℕ → Run OutOfRange Bytes
quoted query start end =
    if ltb (length query) (start + 1)
    then throws out_of_range
    else done (
        if ltb end (start + 1)
        then drop (start + 1) query
        else take (end - start - 1) (drop (start + 1) query))

-- From `query[i]` on. Behind the text stands a zero, which is no space.
unfoldable pub skip_spaces : Bytes → Bytes
skip_spaces [] = []
skip_spaces (c ∷ query) = if c == b' ' then skip_spaces query else c ∷ query

-- A `char` as an `int`.
unfoldable pub char_to_int : ℕ → ℕ
char_to_int c = if ltb c 128 then c else 2 ^ 32 + c - 256

-- The loop up to a space. Without one it reads behind the text.
unfoldable pub read_number : ℕ → Bytes → Run OutOfRange (ℕ × Bytes)
unfolding char_to_int
read_number x [] = undefined
read_number x (c ∷ query) = elim (c == b' ') [
  | true ↦ done (x, c ∷ query)
  | false ↦ read_number ((10 * x + char_to_int c + (2 ^ 32 - 48)) % 2 ^ 32) query
]

abbrev pub begins_with_t : Bytes → Bool
begins_with_t [] = false
begins_with_t (c ∷ query) = c == b't'

unfoldable pub parse_query : Bytes → Run OutOfRange Query
unfolding quoted skip_spaces read_number
parse_query query = do
  let start = or_zero (first_quote query)
  let end = or_zero (last_quote query)
  to_search ← quoted query start end
  (start_doc, rest) ← read_number 0 (skip_spaces (drop (end + 1) query))
  (end_doc, rest) ← read_number 0 (skip_spaces rest)
  done (record {
    to_search = to_search;
    start_doc = start_doc;
    end_doc = end_doc;
    find_only_in_subs = begins_with_t (skip_spaces rest);
  })

-- The loop of `Search` over what `recv` has put into the buffer, without its zeros, and the zero that
-- is pushed behind it.
unfoldable pub received : Bytes → Bytes
received [] = 0 ∷ []
received (c ∷ buff) = if c == 0 then received buff else c ∷ received buff
