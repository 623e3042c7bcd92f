-- ===== src/Indexer/Flush/Suffix.antt =====
-- `_findFirstEmptyFile` comes to a path that no file has.
use mathlib.Core.List.{append_cancel_left}
use mathlib.Core.Option.{some-injective}
use amigos.Base.{
  ℕ, zero, suc, ◌+◌, ◌%◌, ◌^◌, ◌≤◌, ◌<◌, ◌≡◌, ◌≢◌, refl, sym, ap, ◌∙◌, arith, true, false, List, [],
  ◌∷◌, Option, some, inl, inr, length, Bytes, text_eq, text_eq_sound, text_eq-other, Bool-cases,
  ltb, ltb→lt, ltb→le, if◌then◌else◌,
}
use amigos.Config.{Config}
use amigos.DocDb.{to_string}
use amigos.DocDb.Key.{to_string_injective}
use amigos.Indexer.Flush.{has_file, index_path, first_free}

-- The files but those of one path.
remove : Bytes → List (Bytes × Bytes) → List (Bytes × Bytes)
remove path [] = []
remove path ((p, text) ∷ files) =
    let rest = remove path files in if text_eq p path then rest else (p, text) ∷ rest

length-remove_le :
    (path : Bytes) (files : List (Bytes × Bytes)) → length (remove path files) ≤ length files
unfolding remove
length-remove_le path [] = omega arith
length-remove_le path ((p, text) ∷ files) = ground (arith, length-remove_le path files)

length-remove :
    (path : Bytes) (files : List (Bytes × Bytes))
    → has_file files path ≡ true
    → length (remove path files) < length files
unfolding remove has_file
length-remove path [] h = absurd (ground arith)
length-remove path ((p, text) ∷ files) h = elim (Bool-cases (text_eq p path)) [
  | inl same ↦ rw same (omega (arith, length-remove_le path files))
  | inr differ ↦ rw differ (omega (arith, length-remove path files (rw differ at h)))
]

has_file-remove :
    (path q : Bytes) (files : List (Bytes × Bytes))
    → path ≢ q
    → has_file (remove path files) q ≡ has_file files q
unfolding remove has_file
has_file-remove path q [] h = refl
has_file-remove path q ((p, text) ∷ files) h = elim (Bool-cases (text_eq p path)) [
  | inl same ↦
      let e : p ≡ path = text_eq_sound p path same in
      let other : text_eq p q ≡ false = rw e (text_eq-other path q h) in
      rw (same, other) (has_file-remove path q files h)
  | inr differ ↦
      rw differ (ap (λ b. if text_eq p q then true else b) (has_file-remove path q files h))
]

pub index_path_injective :
    (config : Config) (a b : ℕ)
    → a < 2 ^ 32
    → b < 2 ^ 32
    → index_path config a ≡ index_path config b
    → a ≡ b
unfolding index_path
index_path_injective config a b la lb h =
    let h1 = append_cancel_left config.index_data_path _ _ h in
    let h2 = append_cancel_left config.invert_index_file _ _ h1 in
    let h3 = append_cancel_left (b'.' ∷ []) (to_string a) (to_string b) h2 in
    to_string_injective a b la lb h3

module _ (config : Config) where
  -- A file that has a path of an earlier suffix plays no part.
  first_free-remove :
      (fuel s t : ℕ) (files : List (Bytes × Bytes))
      → s < t
      → t + fuel < 2 ^ 32
      → first_free fuel config (remove (index_path config s) files) t
        ≡ first_free fuel config files t
  unfolding first_free
  first_free-remove zero s t files lt room = refl
  first_free-remove (suc fuel) s t files lt room =
      let next : (t + 1) % 2 ^ 32 ≡ t + 1 = omega arith in
      let path_eq =
        has_file-remove (index_path config s) (index_path config t) files
          (λ e. omega (arith, index_path_injective config s t (omega arith) (omega arith) e)) in
      let ih = first_free-remove fuel s (t + 1) files (omega arith) (omega arith) in
      rw (next, path_eq)
        (ap (λ o. if has_file files (index_path config t) then o else some (index_path config t))
          ih)

  first_free-taken :
      (fuel s : ℕ) (files : List (Bytes × Bytes)) {o : Option Bytes}
      → has_file files (index_path config s) ≡ true
      → s + 1 < 2 ^ 32
      → first_free fuel config files (s + 1) ≡ o
      → first_free (suc fuel) config files s ≡ o
  unfolding first_free
  first_free-taken fuel s files taken room e =
      let next : (s + 1) % 2 ^ 32 ≡ s + 1 = omega arith in rw (taken, next) e

  first_free-found :
      (fuel s : ℕ) (files : List (Bytes × Bytes))
      → length files < fuel
      → s + fuel < 2 ^ 32
      → (path : Bytes) × (first_free fuel config files s ≡ some path)
  unfolding first_free
  first_free-found zero s files h room = absurd (omega arith)
  first_free-found (suc fuel) s files h room =
      elim (Bool-cases (has_file files (index_path config s))) [
        | inl taken ↦
            let shorter = length-remove (index_path config s) files taken in
            let (path, e) =
              first_free-found fuel (s + 1) (remove (index_path config s) files) (omega arith)
                (omega arith) in
            (
              path,
              first_free-taken fuel s files taken (omega arith)
                  (sym (first_free-remove fuel s (s + 1) files (omega arith) (omega arith)) ∙ e),
            )
        | inr free ↦ (index_path config s, rw free refl)
      ]

  first_free-first :
      (fuel s : ℕ) (files : List (Bytes × Bytes)) (path : Bytes)
      → s + fuel < 2 ^ 32
      → first_free fuel config files s ≡ some path
      → (n : ℕ) × (path ≡ index_path config n)
        × (s ≤ n)
        × (n < s + fuel)
        × (has_file files path ≡ false)
        × ((i : ℕ) → s ≤ i → i < n → has_file files (index_path config i) ≡ true)
  unfolding first_free
  first_free-first zero s files path room h = absurd (ground arith)
  first_free-first (suc fuel) s files path room h =
      elim (Bool-cases (has_file files (index_path config s))) [
        | inl taken ↦
            let next : (s + 1) % 2 ^ 32 ≡ s + 1 = omega arith in
            let (n, e, le, lt, free, before) =
              first_free-first fuel (s + 1) files path (omega arith) (rw (taken, next) at h) in
            (
              n,
              e,
              omega arith,
              omega arith,
              free,
              λ i le' lt'. elim (Bool-cases (ltb s i)) [
                | inl later ↦ before i (omega (arith, ltb→lt s i later)) lt'
                | inr now ↦
                    let same : s ≡ i = omega (arith, ltb→le s i now) in
                    ap (λ n. has_file files (index_path config n)) (sym same) ∙ taken
              ],
            )
        | inr free ↦
            let e : index_path config s ≡ path = some-injective _ _ (rw free at h) in
            (s, sym e, omega arith, omega arith, rw (sym e) free, λ i le lt. absurd (omega arith))
      ]

-- The loop of `_findFirstEmptyFile` ends after at most one round more than there are files, where
-- these are fewer than 2 ^ 32 - 1. Its path is that of the smallest suffix that no file has.
pub first_free_lem :
    (config : Config) (files : List (Bytes × Bytes))
    → length files + 1 < 2 ^ 32
    → (n : ℕ) × (first_free (length files + 1) config files 0 ≡ some (index_path config n))
      × (n ≤ length files)
      × (has_file files (index_path config n) ≡ false)
      × ((i : ℕ) → i < n → has_file files (index_path config i) ≡ true)
first_free_lem config files room =
    let (path, found) =
      first_free-found config (length files + 1) 0 files (omega arith) (omega arith) in
    let (n, e, le, lt, free, before) =
      first_free-first config (length files + 1) 0 files path (omega arith) found in
    (n, rw e at found, omega arith, rw e at free, λ i lt'. before i (omega arith) lt')
