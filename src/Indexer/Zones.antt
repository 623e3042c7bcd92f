-- ===== src/Indexer/Zones.antt =====
-- `stou`, `extractZones` and `_extractNumZones` of projects/indexer/src/indexer.cpp: what the
-- indexer takes out of the tags of a document.
pub mod Numbers
use amigos.Base.{
  ℕ, zero, suc, ◌+◌, ◌-◌, ◌*◌, ◌%◌, ◌^◌, Bool, true, false, ◌&&◌, List, [], ◌∷◌, Option, none, some,
  leb, ltb, ◌==◌, if◌then◌else◌, length, resize, Bytes, text_eq,
}
use amigos.Run.{Run, done, throws, undefined, ◌>>=◌}
use amigos.Xml.{Dom, Problem, zone_is_necessary, first_named}
use amigos.Config.{Zone, Config}
use amigos.Common.Texts.{is_space}

-- The digits in front, behind those of `n`.
unfoldable pub read_digits : ℕ → Bytes → ℕ
read_digits n [] = n
read_digits n (c ∷ text) =
    if leb b'0' c && leb c b'9' then read_digits (n * 10 + (c - 48)) text else n

-- A number above the largest `uint32_t` becomes that, one below zero wraps around.
unfoldable pub read_unsigned : Bool → Bytes → ℕ
unfolding read_digits
read_unsigned negative text =
    let n = read_digits 0 text in
    if leb (2 ^ 32) n then 2 ^ 32 - 1 else if negative then (2 ^ 32 - n) % 2 ^ 32 else n

-- `iss >> res` of the C locale, for a `uint32_t` that is 0.
unfoldable pub stou : Bytes → ℕ
unfolding is_space read_unsigned
stou [] = 0
stou (c ∷ str) =
    let rest = stou str in
    if is_space c
    then rest
    else if c == b'-'
    then read_unsigned true str
    else if c == b'+'
    then read_unsigned false str
    else read_unsigned false (c ∷ str)

-- `forSave[name] = text`.
unfoldable pub save_zone : List (Bytes × Bytes) → Bytes → Bytes → List (Bytes × Bytes)
save_zone [] name text = (name, text) ∷ []
save_zone ((n, t) ∷ saved) name text =
    let rest = save_zone saved name text in
    if text_eq n name then (n, text) ∷ saved else (n, t) ∷ rest

-- `zonesVal[zi] = stou(zonesVec[zi])` for each zone.
unfoldable pub put_values : List ℕ → List Bytes → Run Problem (List ℕ)
unfolding stou
put_values vals [] = done vals
put_values [] (text ∷ texts) = undefined
put_values (val ∷ vals) (text ∷ texts) = do vals ← put_values vals texts; done (stou text ∷ vals)

module _ (dom : Dom) where
  open dom use {Element, get_text, children}

  -- The tags of a path, from `curTag` on. A further tag is looked for behind a null pointer as well.
  unfoldable pub descend : Option Element → List Bytes → Run Problem (Option Element)
  unfolding first_named
  descend cur_tag [] = done cur_tag
  descend none (tag ∷ path) = undefined
  descend (some e) (tag ∷ path) = descend (first_named dom (children e) tag) path

  -- What the zone's text and the saved zones are behind one round; `old` is the text in front of it.
  unfoldable pub take_text :
      Zone
      → Bytes
      → List (Bytes × Bytes)
      → Option Element
      → Run Problem (Bytes × List (Bytes × Bytes))
  unfolding save_zone
  take_text z old saved none =
      if z.is_optional then done (old, saved) else throws (zone_is_necessary z.name)
  take_text z old saved (some tag) = elim (get_text tag) [
    | none ↦ done (old, saved)
    | some text ↦ done (text, if z.need_save then save_zone saved z.name text else saved)
  ]

  unfoldable pub extract_loop :
      Element
      → List Zone
      → List Bytes
      → List (Bytes × Bytes)
      → Run Problem (List Bytes × List (Bytes × Bytes))
  unfolding descend take_text
  extract_loop e [] out saved = done (out, saved)
  extract_loop e (z ∷ zones) [] saved = undefined
  extract_loop e (z ∷ zones) (old ∷ out) saved = do
    tag ← descend (some e) z.path
    (text, saved) ← take_text z old saved tag
    (texts, saved) ← extract_loop e zones out saved
    done (text ∷ texts, saved)

  -- `extractZones(tiElem, zonesVec, outVec, forSave)`.
  unfoldable pub extract_zones :
      Element
      → List Zone
      → List Bytes
      → List (Bytes × Bytes)
      → Run Problem (List Bytes × List (Bytes × Bytes))
  unfolding extract_loop
  extract_zones e zones out saved = extract_loop e zones (resize (length zones) [] out) saved

  -- `_extractNumZones`: the values, and the saved zones.
  unfoldable pub extract_num_zones :
      Config → Element → List ℕ → List (Bytes × Bytes) → Run Problem (List ℕ × List (Bytes × Bytes))
  unfolding extract_zones put_values
  extract_num_zones config e vals saved = do
    (texts, saved) ← extract_zones e config.num_zones [] saved
    vals ← put_values vals texts
    done (vals, saved)
