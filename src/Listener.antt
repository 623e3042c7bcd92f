-- ===== src/Listener.antt =====
-- projects/listener/main.cpp: the texts that the server puts into its XML answer.
pub mod Escape
pub mod Query
pub mod Answer
pub mod Server
use amigos.Base.{
  ℕ, zero, suc, ◌+◌, Bool, true, false, List, [], ◌∷◌, ◌++◌, Option, none, some, ◌==◌, ◌&&◌,
  if◌then◌else◌, ◌>>=◌, length, take, drop,
}

-- `compare` of the front of a text with a pattern.
unfoldable pub starts_with : List ℕ → List ℕ → Bool
starts_with str [] = true
starts_with [] (p ∷ pat) = false
starts_with (c ∷ str) (p ∷ pat) = c == p && starts_with str pat

-- `str.find(pat)`: how far the first occurrence is; `none` is `npos`.
unfoldable pub find : List ℕ → List ℕ → Option ℕ
unfolding starts_with
find [] pat = if starts_with [] pat then some 0 else none
find (c ∷ str) pat = elim (starts_with (c ∷ str) pat) [
  | true ↦ some 0
  | false ↦ do k ← find str pat; some (suc k)
]

-- The loop of `ReplaceSubstring`; `none` is a loop that has not ended.
unfoldable pub replace_loop : ℕ → List ℕ → ℕ → List ℕ → List ℕ → Option (List ℕ)
unfolding find
replace_loop zero str index pat new = none
replace_loop (suc fuel) str index pat new = elim (find (drop index str) pat) [
  | none ↦ some str
  | some k ↦
      replace_loop fuel (take (index + k) str ++ (new ++ drop (index + k + length pat) str))
        (index + k + length pat) pat new
]

-- `ReplaceSubstring(str, replaceStr, newStr)`, with fuel for one round at each byte and one more.
unfoldable pub replace_substring : List ℕ → List ℕ → List ℕ → Option (List ℕ)
unfolding replace_loop
replace_substring str pat new = replace_loop (suc (length str)) str 0 pat new

-- `symbols` and `symbolCode`.
abbrev pub symbol_codes : List (List ℕ × List ℕ)
symbol_codes =
    (b'&' ∷ [], b'&' ∷ b'a' ∷ b'm' ∷ b'p' ∷ b';' ∷ [])
    ∷ (b'<' ∷ [], b'&' ∷ b'l' ∷ b't' ∷ b';' ∷ [])
    ∷ (b'>' ∷ [], b'&' ∷ b'g' ∷ b't' ∷ b';' ∷ [])
    ∷ (b'"' ∷ [], b'&' ∷ b'q' ∷ b'u' ∷ b'o' ∷ b't' ∷ b';' ∷ [])
    ∷ (b'\'' ∷ [], b'&' ∷ b'a' ∷ b'p' ∷ b'o' ∷ b's' ∷ b';' ∷ [])
    ∷ []

unfoldable pub replace_all : List (List ℕ × List ℕ) → List ℕ → Option (List ℕ)
replace_all [] str = some str
replace_all ((pat, new) ∷ codes) str = do
  str' ← replace_substring str pat new
  replace_all codes str'

-- `Format(str)`.
unfoldable pub format : List ℕ → Option (List ℕ)
unfolding replace_all
format = replace_all symbol_codes
