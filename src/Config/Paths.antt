-- ===== src/Config/Paths.antt =====
-- The path of a zone, put together by commas.
use amigos.Base.{◌≡◌, ◌≢◌, refl, List, [], ◌∷◌, ◌++◌, false, arith, All, ◌==◌, Bytes}
use amigos.Common.Texts.{join}
use amigos.Config.{split_commas}

abbrev pub NoComma : Bytes → Type 0
NoComma part = All (λ c. c ≢ b',') part

-- A path whose parts hold no comma and whose last part is not empty.
abbrev pub IsPath : List Bytes → Type 0
IsPath [] = ⊥
IsPath (part ∷ []) = NoComma part × (part ≢ [])
IsPath (part ∷ next ∷ parts) = NoComma part × IsPath (next ∷ parts)

split_commas_last : (part : Bytes) → NoComma part → part ≢ [] → split_commas part ≡ part ∷ []
unfolding split_commas
split_commas_last [] h ne = absurd (ne refl)
split_commas_last (c ∷ []) (h, hs) ne =
    let differ : (c == b',') ≡ false = ground arith in rw (split_commas, differ)
split_commas_last (c ∷ d ∷ part) (h, hs) ne =
    let differ : (c == b',') ≡ false = ground arith in
    rw (split_commas, differ) (rw (split_commas_last (d ∷ part) hs (λ e. absurd (ground arith))))

split_commas_front :
    (part rest : Bytes)
    → NoComma part
    → split_commas (part ++ (b',' ∷ rest)) ≡ part ∷ split_commas rest
unfolding split_commas
split_commas_front [] rest h = refl
split_commas_front (c ∷ part) rest (h, hs) =
    let differ : (c == b',') ≡ false = ground arith in
    rw (split_commas, differ) (rw (split_commas_front part rest hs))

pub split_commas-join :
    (path : List Bytes) → IsPath path → split_commas (join path (b',' ∷ [])) ≡ path
unfolding join
split_commas-join [] h = absurd h
split_commas-join (part ∷ []) (h, ne) = split_commas_last part h ne
split_commas-join (part ∷ next ∷ parts) (h, hs) =
    rw (split_commas_front part (join (next ∷ parts) (b',' ∷ [])) h)
      (rw (split_commas-join (next ∷ parts) hs))
