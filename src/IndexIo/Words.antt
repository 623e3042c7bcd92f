-- ===== src/IndexIo/Words.antt =====
-- Words: what `readFrom` reads where `writeTo` wrote.
use amigos.Base.{
  ℕ, zero, suc, ◌/◌, ◌^◌, ◌<◌, ◌≡◌, refl, ap, sym, ◌∙◌, List, [], ◌∷◌, ◌++◌, some, arith,
  append_assoc, append-nil, length, All,
}
use amigos.IndexIo.{to_bytes, write_array, read_from, read_array}

pub length-to_bytes : (w v : ℕ) → length (to_bytes w v) ≡ w
unfolding to_bytes
length-to_bytes zero v = refl
length-to_bytes (suc w) v = ap suc (length-to_bytes w (v / 256))

pub read_from-to_bytes :
    (w v : ℕ) (rest : List ℕ) → v < 256 ^ w → read_from w (to_bytes w v ++ rest) ≡ some (v, rest)
unfolding to_bytes read_from
read_from-to_bytes zero v rest h = ground arith
read_from-to_bytes (suc w) v rest h =
    rw (read_from-to_bytes w (v / 256) rest (grind arith)) (ground arith)

-- The bytes of an array.
abbrev pub array_bytes : ℕ → List ℕ → List ℕ
array_bytes w [] = []
array_bytes w (v ∷ vs) = to_bytes w v ++ array_bytes w vs

pub write_array-append : (w : ℕ) (ofs vs : List ℕ) → write_array w ofs vs ≡ ofs ++ array_bytes w vs
unfolding write_array
write_array-append w ofs [] = sym (append-nil ofs)
write_array-append w ofs (v ∷ vs) =
    write_array-append w (ofs ++ to_bytes w v) vs
    ∙ append_assoc ofs (to_bytes w v) (array_bytes w vs)

pub read_array-array_bytes :
    (w : ℕ) (vs rest : List ℕ)
    → All (λ v. v < 256 ^ w) vs
    → read_array w (length vs) (array_bytes w vs ++ rest) ≡ some (vs, rest)
unfolding read_array
read_array-array_bytes w [] rest h = refl
read_array-array_bytes w (v ∷ vs) rest (h, hs) =
    rw (append_assoc (to_bytes w v) (array_bytes w vs) rest) (
      rw (read_from-to_bytes w v (array_bytes w vs ++ rest) h)
        (rw (read_array-array_bytes w vs rest hs)))
