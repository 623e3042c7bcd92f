-- ===== src/Searcher/Selections/Disjoint.antt =====
-- The selections of a line do not overlap, and their statistic counts them.
use mathlib.Core.Path.{subst}
use amigos.Base.{
  ℕ, zero, suc, ◌+◌, ◌-◌, ◌%◌, ◌^◌, ◌≤◌, ◌<◌, ◌≡◌, refl, sym, ap, ◌∙◌, arith, true, List, [], ◌∷◌,
  ◌++◌, some, inl, inr, All, All-append, length, length-append, append_assoc, append-nil, resize,
  leb, ltb, ltb→le, ◌==◌, ==_iff, Bool-cases, Bytes, length-resize,
}
use amigos.Listener.{starts_with}
use amigos.Posting.Split.{sum}
use amigos.Searcher.Selections.{
  Select, spaces_around, push_select, push_found, push_windows, push_sizes, max_element, count_at,
  choose, get_selections,
}

-- The selections stand behind `end` and behind each other.
abbrev pub Apart : ℕ → List (ℕ × ℕ) → Type 0
Apart end [] = Unit
Apart end ((pos, len) ∷ selections) = (end ≤ pos) × Apart (pos + len) selections

abbrev IsSelect : ℕ → ℕ → Select → Type 0
IsSelect n pos s =
    (s.start_pos ≡ pos)
    × (pos + s.select_length < 2 ^ 32)
    × (1 ≤ s.selection_size)
    × (s.selection_size ≤ n)

abbrev HasSelects : ℕ → ℕ → List Select → Type 0
HasSelects n pos [] = ⊥
HasSelects n pos (s ∷ ss) = IsSelect n pos s × All (IsSelect n pos) ss

abbrev IsMap : ℕ → List (ℕ × List Select) → Type 0
IsMap n selects = All (λ e. HasSelects n e.0 e.1) selects

HasSelects-append :
    (n pos : ℕ) (ss : List Select) (s : Select)
    → HasSelects n pos ss
    → IsSelect n pos s
    → HasSelects n pos (ss ++ (s ∷ []))
HasSelects-append n pos [] s h k = absurd h
HasSelects-append n pos (r ∷ ss) s (h, hs) k =
    (h, All-append (IsSelect n pos) ss (s ∷ []) hs (k, tt))

push_select-IsMap :
    (n pos : ℕ) (s : Select) (selects : List (ℕ × List Select))
    → IsSelect n pos s
    → IsMap n selects
    → IsMap n (push_select selects pos s)
unfolding push_select
push_select-IsMap n pos s [] k h = ((k, tt), tt)
push_select-IsMap n pos s ((p, ss) ∷ selects) k (h, hs) = elim (Bool-cases (ltb pos p)) [
  | inl before ↦ rw before ((k, tt), (h, hs))
  | inr after ↦ elim (Bool-cases (p == pos)) [
    | inl here ↦
        let e : p ≡ pos = (==_iff p pos).0 here in
        rw (after, here) (HasSelects-append n p ss s h (rw e k), hs)
    | inr differ ↦ rw (after, differ) (h, push_select-IsMap n pos s selects k hs)
  ]
]

length-starts_with : (str pat : Bytes) → starts_with str pat ≡ true → length pat ≤ length str
unfolding starts_with
length-starts_with str [] h = omega arith
length-starts_with [] (p ∷ pat) h = absurd (ground arith)
length-starts_with (c ∷ str) (p ∷ pat) h = elim (Bool-cases (c == p)) [
  | inl here ↦ omega (arith, length-starts_with str pat (rw here at h))
  | inr differ ↦ absurd (let h' = rw differ at h in ground arith)
]

push_found-IsMap :
    (n window : ℕ) (part : Bytes) (pos : ℕ) (line : Bytes) (selects : List (ℕ × List Select))
    → 1 ≤ window
    → window ≤ n
    → 1 ≤ length part
    → pos + length line < 2 ^ 32
    → IsMap n selects
    → IsMap n (push_found window part pos line selects)
unfolding push_found
push_found-IsMap n window part pos [] selects lo hi some_part room h = h
push_found-IsMap n window part pos (c ∷ line) selects lo hi some_part room h =
    elim (Bool-cases (starts_with (c ∷ line) part)) [
      | inl found ↦
          let fits = length-starts_with (c ∷ line) part found in
          rw found (
            push_found-IsMap n window part (pos + 1) line _ lo hi some_part (omega arith)
              (push_select-IsMap n (pos % 2 ^ 32) _ selects (refl, omega (arith, fits), lo, hi) h))
      | inr fails ↦
          rw fails
            (push_found-IsMap n window part (pos + 1) line selects lo hi some_part (omega arith) h)
    ]

push_windows-IsMap :
    (n window : ℕ) (line : Bytes) (tokens : List Bytes) (selects : List (ℕ × List Select))
    → 1 ≤ window
    → window ≤ n
    → length line < 2 ^ 32
    → IsMap n selects
    → IsMap n (push_windows window line tokens selects)
unfolding push_windows spaces_around
push_windows-IsMap n window line [] selects lo hi room h = h
push_windows-IsMap n window line (token ∷ tokens) selects lo hi room h =
    elim (Bool-cases (leb window (length (token ∷ tokens)))) [
      | inl fits ↦ rw fits (
          push_windows-IsMap n window line tokens _ lo hi room
            (push_found-IsMap n window _ 0 line selects lo hi (omega arith) (omega arith) h))
      | inr long ↦ rw long (push_windows-IsMap n window line tokens selects lo hi room h)
    ]

push_sizes-IsMap :
    (n count window : ℕ) (line : Bytes) (tokens : List Bytes) (selects : List (ℕ × List Select))
    → 1 ≤ window
    → window + count ≤ n + 1
    → length line < 2 ^ 32
    → IsMap n selects
    → IsMap n (push_sizes count window line tokens selects)
unfolding push_sizes
push_sizes-IsMap n zero window line tokens selects lo hi room h = h
push_sizes-IsMap n (suc count) window line tokens selects lo hi room h =
    push_sizes-IsMap n count (window + 1) line tokens (push_windows window line tokens selects)
      (omega arith) (omega arith) room
      (push_windows-IsMap n window line tokens selects lo (omega arith) room h)

max_element-IsSelect :
    (n pos : ℕ) (s : Select) (ss : List Select)
    → IsSelect n pos s
    → All (IsSelect n pos) ss
    → IsSelect n pos (max_element s ss)
unfolding max_element
max_element-IsSelect n pos s [] h hs = h
max_element-IsSelect n pos s (r ∷ ss) h (k, hs) =
    elim (Bool-cases (ltb s.selection_size r.selection_size)) [
      | inl larger ↦ rw (larger, max_element) (max_element-IsSelect n pos r ss k hs)
      | inr smaller ↦ rw (smaller, max_element) (max_element-IsSelect n pos s ss h hs)
    ]

count_at_lem :
    (statistic : List ℕ) (i : ℕ)
    → i < length statistic
    → (counted : List ℕ) × (count_at statistic i ≡ some counted)
      × (sum counted ≡ sum statistic + 1)
      × (length counted ≡ length statistic)
unfolding count_at sum
count_at_lem [] i lt = absurd (omega arith)
count_at_lem (n ∷ statistic) zero lt = ((n + 1) ∷ statistic, refl, omega arith, refl)
count_at_lem (n ∷ statistic) (suc i) lt =
    let (counted, e, s, l) = count_at_lem statistic i (omega arith) in
    (n ∷ counted, rw e refl, omega arith, ap suc l)

choose_lem :
    (selects : List (ℕ × List Select)) (end : ℕ) (chosen : List (ℕ × ℕ)) (statistic : List ℕ)
    → IsMap (length statistic) selects
    → (selections : List (ℕ × ℕ)) × (counted : List ℕ) × (choose end selects chosen statistic
        ≡ some (chosen ++ selections, counted))
      × Apart end selections
      × (sum counted ≡ sum statistic + length selections)
      × (length counted ≡ length statistic)
unfolding choose
choose_lem [] end chosen statistic h =
    ([], statistic, rw (append-nil chosen) refl, tt, omega arith, refl)
choose_lem ((pos, []) ∷ selects) end chosen statistic (h, hs) = absurd h
choose_lem ((pos, s ∷ ss) ∷ selects) end chosen statistic ((h, k), hs) =
    elim (Bool-cases (ltb pos end)) [
      | inl inside ↦ rw (inside, choose) (choose_lem selects end chosen statistic hs)
      | inr behind ↦
          let best = max_element s ss in
          let (at, fits, lo, hi) = max_element-IsSelect (length statistic) pos s ss h k in
          let (counted, e, total, same) =
            count_at_lem statistic (best.selection_size - 1) (omega arith) in
          let next : (best.start_pos + best.select_length) % 2 ^ 32
              ≡ best.start_pos + best.select_length =
            omega arith in
          let (selections, final, eq, apart, total', same') =
            choose_lem selects (best.start_pos + best.select_length)
              (chosen ++ ((best.start_pos, best.select_length) ∷ [])) counted
              (subst (λ n. IsMap n selects) (sym same) hs) in
          (
            (best.start_pos, best.select_length) ∷ selections,
            final,
            rw (behind, choose, e, next, eq, append_assoc) refl,
            (omega (arith, ltb→le pos end behind), apart),
            omega arith,
            sym (sym same ∙ sym same'),
          )
    ]

sum-zeros : (n : ℕ) → sum (resize n 0 []) ≡ 0
unfolding sum resize
sum-zeros zero = refl
sum-zeros (suc n) = omega (arith, sum-zeros n)

-- For a line below 2 ^ 32 - 2 bytes and the words of a query, `get_selections` reads nothing out of
-- range. Its selections, in the line with a space at both ends, follow each other without an
-- overlap, and its statistic has a number for each count of words, which together count the
-- selections.
pub get_selections-Apart :
    (tokens : List Bytes) (subtitle : Bytes)
    → length subtitle + 2 < 2 ^ 32
    → (selections : List (ℕ × ℕ)) × (statistic : List ℕ) × (get_selections tokens subtitle
        ≡ some (selections, statistic))
      × Apart 0 selections
      × (sum statistic ≡ length selections)
      × (length statistic ≡ length tokens)
unfolding get_selections spaces_around
get_selections-Apart tokens subtitle room =
    let n = length tokens in
    let same = length-resize n 0 [] in
    let fits : length (spaces_around subtitle) < 2 ^ 32 =
      omega (arith, length-append subtitle (b' ' ∷ [])) in
    let map_ok =
      push_sizes-IsMap n n 1 (spaces_around subtitle) tokens [] (omega arith) (omega arith) fits
        tt in
    let (selections, statistic, e, apart, total, len) =
      choose_lem (push_sizes n 1 (spaces_around subtitle) tokens []) 0 [] (resize n 0 []) (
        subst (λ k. IsMap k (push_sizes n 1 (spaces_around subtitle) tokens [])) (sym same)
          map_ok) in
    (selections, statistic, e, apart, omega (arith, sum-zeros n), len ∙ same)
