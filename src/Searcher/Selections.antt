-- ===== src/Searcher/Selections.antt =====
-- `get_query_part`, `get_selections` and `snippet_ranker` of projects/searcher/src/searcher.cpp:
-- where the words of a query stand in a line of the subtitles, and which line is better.
pub mod Disjoint
pub mod Better
use amigos.Base.{
  ℕ, zero, suc, ◌+◌, ◌-◌, ◌%◌, ◌^◌, Bool, true, false, ◌&&◌, List, [], ◌∷◌, ◌++◌, Option, none,
  some, leb, ltb, ◌==◌, if◌then◌else◌, ◌>>=◌, length, take, resize, Bytes,
}
use amigos.Listener.{starts_with}

-- `Select_with_size_t`: the position and the length of a selection, and how many words it has.
pub record Select : Type 0 where
  pub start_pos : ℕ
  pub select_length : ℕ
  pub selection_size : ℕ

-- `get_query_part` of these tokens; there is one at least.
unfoldable pub get_query_part : List Bytes → Bytes
get_query_part [] = []
get_query_part (token ∷ []) = token
get_query_part (token ∷ next ∷ tokens) = token ++ (b' ' ∷ get_query_part (next ∷ tokens))

-- `" " + text + " "`.
unfoldable pub spaces_around : Bytes → Bytes
spaces_around text = b' ' ∷ (text ++ (b' ' ∷ []))

-- `selects_map[pos].push_back(select)`, in a map in ascending order.
unfoldable pub push_select : List (ℕ × List Select) → ℕ → Select → List (ℕ × List Select)
push_select [] pos select = (pos, select ∷ []) ∷ []
push_select ((p, ss) ∷ selects) pos select =
    let rest = push_select selects pos select in
    if ltb pos p
    then (pos, select ∷ []) ∷ (p, ss) ∷ selects
    else if p == pos
    then (p, ss ++ (select ∷ [])) ∷ selects
    else (p, ss) ∷ rest

-- The loop over the places in the line, from the position `pos` on, at which a part of the query
-- stands. Positions and lengths have 32 bits in the map and in a selection.
unfoldable pub push_found : ℕ → Bytes → ℕ → Bytes → List (ℕ × List Select) → List (ℕ × List Select)
unfolding push_select
push_found window query_part pos [] selects = selects
push_found window query_part pos (c ∷ line) selects =
    let select : Select = record {
      start_pos = pos % 2 ^ 32;
      select_length = (length query_part - 1) % 2 ^ 32;
      selection_size = window;
    } in
    push_found window query_part (pos + 1) line (
      if starts_with (c ∷ line) query_part
      then push_select selects (pos % 2 ^ 32) select
      else selects)

-- The loop over the windows of one size, from one of the tokens on.
unfoldable pub push_windows :
    ℕ → Bytes → List Bytes → List (ℕ × List Select) → List (ℕ × List Select)
unfolding get_query_part spaces_around push_found
push_windows window line [] selects = selects
push_windows window line (token ∷ tokens) selects = push_windows window line tokens (
    if leb window (length (token ∷ tokens))
    then push_found window (spaces_around (get_query_part (take window (token ∷ tokens)))) 0 line
        selects
    else selects)

-- The loop over `count` sizes of the windows, from `window` on.
unfoldable pub push_sizes :
    ℕ → ℕ → Bytes → List Bytes → List (ℕ × List Select) → List (ℕ × List Select)
unfolding push_windows
push_sizes zero window line tokens selects = selects
push_sizes (suc count) window line tokens selects =
    push_sizes count (window + 1) line tokens (push_windows window line tokens selects)

-- `std::max_element`: the first of the largest; `best` is the largest so far.
unfoldable pub max_element : Select → List Select → Select
max_element best [] = best
max_element best (s ∷ selects) =
    max_element (if ltb best.selection_size s.selection_size then s else best) selects

-- `++statistic[i]`; `none` is out of range.
unfoldable pub count_at : List ℕ → ℕ → Option (List ℕ)
count_at [] i = none
count_at (n ∷ statistic) zero = some ((n + 1) ∷ statistic)
count_at (n ∷ statistic) (suc i) = do statistic ← count_at statistic i; some (n ∷ statistic)

-- The loops over the map, which take the longest selection at a position and go on behind it; `end`
-- is where the last one ends. The end of a vector without elements is read in the case of `none`.
unfoldable pub choose :
    ℕ → List (ℕ × List Select) → List (ℕ × ℕ) → List ℕ → Option (List (ℕ × ℕ) × List ℕ)
unfolding max_element count_at
choose end [] chosen statistic = some (chosen, statistic)
choose end ((pos, selects) ∷ selects_map) chosen statistic = elim (ltb pos end) [
  | true ↦ choose end selects_map chosen statistic
  | false ↦ elim selects [
    | [] ↦ none
    | s ∷ more ↦ do
      let best = max_element s more
      counted ← count_at statistic (best.selection_size - 1)
      choose ((best.start_pos + best.select_length) % 2 ^ 32) selects_map
          (chosen ++ ((best.start_pos, best.select_length) ∷ [])) counted
  ]
]

-- `get_selections` for a line: the selections and their statistic, which were empty.
unfoldable pub get_selections : List Bytes → Bytes → Option (List (ℕ × ℕ) × List ℕ)
unfolding spaces_around push_sizes choose
get_selections tokens subtitle =
    let selects_map = push_sizes (length tokens) 1 (spaces_around subtitle) tokens [] in
    choose 0 selects_map [] (resize (length tokens) 0 [])

-- What the loop of `snippet_ranker` finds from the last index of the statistics to the first.
pub data Verdict : Type 0 where
  more less same : Verdict

-- `none` is a read behind the second statistic.
unfoldable pub compare_statistics : List ℕ → List ℕ → Option Verdict
compare_statistics [] ys = some same
compare_statistics (x ∷ xs) [] = none
compare_statistics (x ∷ xs) (y ∷ ys) = do
  verdict ← compare_statistics xs ys
  elim verdict [
    | more ↦ some more
    | less ↦ some less
    | same ↦ some (if ltb y x then more else if ltb x y then less else same)
  ]

-- `snippet_ranker`, by the statistics of the two lines.
unfoldable pub snippet_ranker : List ℕ → List ℕ → Option Bool
unfolding compare_statistics
snippet_ranker s1 s2 = do
  verdict ← compare_statistics s1 s2
  some (elim verdict [ more ↦ true | less ↦ false | same ↦ false ])
