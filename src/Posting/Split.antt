-- ===== src/Posting/Split.antt =====
-- `splitByZones` takes apart a posting that numbers the words of all zones through.
use Prim.Native.Nat.{bit_or}
use amigos.Base.{
  ℕ, ◌+◌, ◌≤◌, ◌^◌, ◌%◌, ◌<◌, ◌≡◌, refl, sym, ap, ◌∙◌, Bool, true, false, ◌||◌, List, [], ◌∷◌, ◌++◌,
  some, arith, append_assoc, append-nil, map, All, length, length-append,
}
use amigos.Posting.{
  Cursor, i2mask, find_zone, push_last, inner, split_loop, split_by_zones, new_entry,
}
use amigos.Posting.Mask.{is_cons, mask_from}

unfoldable pub sum : List ℕ → ℕ
sum [] = 0
sum (n ∷ ns) = n + sum ns

-- The posting of a word: its positions in each zone, the zones' words numbered through from
-- `start` on, as `_extractTextZones` does.
abbrev pub absolute : ℕ → List ℕ → List (List ℕ) → List ℕ
absolute start [] parts = []
absolute start (c ∷ zw_cnt) [] = []
absolute start (c ∷ zw_cnt) (p ∷ parts) =
    map (λ r. start + r) p ++ absolute (start + c) zw_cnt parts

-- One part for each zone, whose positions lie inside of the zone.
abbrev pub FitsZones : List ℕ → List (List ℕ) → Type 0
FitsZones [] [] = Unit
FitsZones [] (p ∷ parts) = ⊥
FitsZones (c ∷ zw_cnt) [] = ⊥
FitsZones (c ∷ zw_cnt) (p ∷ parts) = All (λ r. r < c) p × FitsZones zw_cnt parts

abbrev pub nonempty : List (List ℕ) → List (List ℕ)
nonempty [] = []
nonempty ([] ∷ parts) = nonempty parts
nonempty ((r ∷ rs) ∷ parts) = (r ∷ rs) ∷ nonempty parts

push_last-concat :
    (sp : List (List ℕ)) (q : List ℕ) (v : ℕ)
    → push_last (sp ++ (q ∷ [])) v ≡ sp ++ ((q ++ (v ∷ [])) ∷ [])
unfolding push_last
push_last-concat [] q v = refl
push_last-concat (p ∷ []) q v = refl
push_last-concat (p ∷ p' ∷ sp) q v = ap (◌∷◌ p) (push_last-concat (p' ∷ sp) q v)

pub i2mask_lem : (i : ℕ) → i < 8 → i2mask i ≡ some (2 ^ i)
unfolding i2mask
i2mask_lem i h = ground arith

inner_lem : (offset r : ℕ) → offset + r < 2 ^ 16 → inner (offset + r) offset ≡ r
unfolding inner
inner_lem offset r h = omega arith

-- From `offset` over the zones `ks` to the zone of `c` words from `start` on.
find_zone_lem :
    (ks : List ℕ) (start r c zi offset : ℕ) (is_new : Bool) (cs : List ℕ)
    → offset + sum ks ≡ start
    → r < c
    → start < 2 ^ 16
    → find_zone (start + r) zi offset is_new (ks ++ (c ∷ cs))
      ≡ some (record {
        zi = zi + length ks;
        offset = start;
        is_new_zone = is_new || is_cons ks;
        zw_cnt = c ∷ cs;
      })
unfolding find_zone sum
find_zone_lem [] start r c zi offset is_new cs e lt fits = ground arith
find_zone_lem (k ∷ ks) start r c zi offset is_new cs e lt fits = ground (
  arith,
  find_zone_lem ks start r c (zi + 1) ((offset + k) % 2 ^ 16) true cs (omega arith) lt fits,
)

module _ (start : ℕ) (c : ℕ) (cs : List ℕ) (zi : ℕ) (room : start + c ≤ 2 ^ 16) where
  -- The cursor inside of the zone.
  abbrev inside : Cursor
  inside = record { zi = zi; offset = start; is_new_zone = false; zw_cnt = c ∷ cs }

  find_zone-inside : (r : ℕ) → r < c → find_zone (start + r) zi start false (c ∷ cs) ≡ some inside
  unfolding find_zone
  find_zone-inside r lt = ground arith

  -- The positions of a zone behind the first one join the zone's list.
  split_loop-inside :
      (rs tail : List ℕ) (sp : List (List ℕ)) (q : List ℕ) (m : ℕ)
      → All (λ r. r < c) rs
      → split_loop (map (λ r. start + r) rs ++ tail) inside (sp ++ (q ∷ [])) m
        ≡ split_loop tail inside (sp ++ ((q ++ rs) ∷ [])) m
  unfolding split_loop
  split_loop-inside [] tail sp q m h = rw append-nil
  split_loop-inside (r ∷ rs) tail sp q m (h, hs) =
      let back : inner (start + r) start ≡ r = inner_lem start r (omega arith) in
      rw (find_zone-inside r h, push_last-concat sp q (inner (start + r) start), back)
        (split_loop-inside rs tail sp (q ++ (r ∷ [])) m hs ∙ rw append_assoc)

  -- The first position of a zone, met with a cursor `at` that stands `ks` zones before it.
  split_loop-first :
      (ks : List ℕ) (at : Cursor) (r : ℕ) (tail : List ℕ) (sp : List (List ℕ)) (m : ℕ)
      → at.zw_cnt ≡ ks ++ (c ∷ cs)
      → at.offset + sum ks ≡ start
      → at.zi + length ks ≡ zi
      → (at.is_new_zone || is_cons ks) ≡ true
      → r < c
      → zi < 8
      → split_loop ((start + r) ∷ tail) at sp m
        ≡ split_loop tail inside (sp ++ ((r ∷ []) ∷ [])) (bit_or m (2 ^ zi))
  unfolding split_loop
  split_loop-first ks at r tail sp m e1 e2 e3 e4 lt low =
      let back : inner (start + r) start ≡ r = inner_lem start r (omega arith) in
      rw
        (
          e1,
          find_zone_lem ks start r c at.zi at.offset at.is_new_zone cs e2 lt (omega arith),
          e3,
          e4,
        )
        (rw (i2mask_lem zi low, push_last-concat sp [] (inner (start + r) start), back))

sum-concat : (ns : List ℕ) (n : ℕ) → sum (ns ++ (n ∷ [])) ≡ sum ns + n
unfolding sum
sum-concat [] n = omega arith
sum-concat (k ∷ ns) n = omega (arith, sum-concat ns n)

is_cons-concat : (ks : List ℕ) (c : ℕ) → is_cons (ks ++ (c ∷ [])) ≡ true
is_cons-concat [] c = refl
is_cons-concat (k ∷ ks) c = refl

or-true : (b : Bool) → (b || true) ≡ true
or-true true = refl
or-true false = refl

split_loop-nonempty :
    (zw_cnt : List ℕ) (parts : List (List ℕ)) (start zi : ℕ) (ks : List ℕ) (at : Cursor)
    (sp : List (List ℕ)) (m : ℕ)
    → FitsZones zw_cnt parts
    → at.zw_cnt ≡ ks ++ zw_cnt
    → at.offset + sum ks ≡ start
    → at.zi + length ks ≡ zi
    → (at.is_new_zone || is_cons ks) ≡ true
    → start + sum zw_cnt ≤ 2 ^ 16
    → zi + length zw_cnt ≤ 8
    → split_loop (absolute start zw_cnt parts) at sp m
      ≡ some (sp ++ nonempty parts, mask_from zi parts m)
split_loop-nonempty [] [] start zi ks at sp m h e1 e2 e3 e4 room low =
    rw append-nil (unfold split_loop in refl)
split_loop-nonempty [] (p ∷ parts) start zi ks at sp m h e1 e2 e3 e4 room low = absurd h
split_loop-nonempty (c ∷ cs) [] start zi ks at sp m h e1 e2 e3 e4 room low = absurd h
split_loop-nonempty (c ∷ cs) ([] ∷ parts) start zi ks at sp m (h, hs) e1 e2 e3 e4 room low =
    split_loop-nonempty cs parts (start + c) (zi + 1) (ks ++ (c ∷ [])) at sp m hs
      (e1 ∙ sym (append_assoc ks (c ∷ []) cs)) (omega (arith, sum-concat ks c))
      (omega (arith, length-append ks (c ∷ []))) (rw (is_cons-concat ks c) (or-true at.is_new_zone))
      (omega (arith, room_step)) (omega arith)
  where
    room_step : sum (c ∷ cs) ≡ c + sum cs
    room_step = unfold sum in refl
split_loop-nonempty (c ∷ cs) ((r ∷ rs) ∷ parts) start zi ks at sp m ((h, hr), hs) e1 e2 e3 e4 room
      low =
    split_loop-first start c cs zi (omega (arith, room_step)) ks at r
      (map (λ r. start + r) rs ++ absolute (start + c) cs parts) sp m e1 e2 e3 e4 h (omega arith)
    ∙ split_loop-inside start c cs zi (omega (arith, room_step)) rs (absolute (start + c) cs parts)
        sp (r ∷ []) (bit_or m (2 ^ zi)) hr
    ∙ split_loop-nonempty cs parts (start + c) (zi + 1) (c ∷ [])
        (inside start c cs zi (omega (arith, room_step))) (sp ++ ((r ∷ rs) ∷ []))
        (bit_or m (2 ^ zi)) hs refl (omega (arith, one)) (omega arith) refl
        (omega (arith, room_step)) (omega arith)
    ∙ rw append_assoc
  where
    room_step : sum (c ∷ cs) ≡ c + sum cs
    room_step = unfold sum in refl

    one : sum (c ∷ []) ≡ c
    one = unfold sum in omega arith

sum_nil : sum [] ≡ 0
unfolding sum
sum_nil = refl

-- On the posting of a word, numbered through over at most eight zones with at most 2 ^ 16 words
-- together, and a new entry: `splitByZones` returns the word's positions inside of each zone in
-- which it stands, and sets in the entry the bits of just these zones and their sizes.
pub split_by_zones-nonempty :
    (zw_cnt : List ℕ) (parts : List (List ℕ))
    → FitsZones zw_cnt parts
    → length zw_cnt ≤ 8
    → sum zw_cnt ≤ 2 ^ 16
    → split_by_zones (absolute 0 zw_cnt parts) zw_cnt [] new_entry
      ≡ some (
        nonempty parts,
        record new_entry {
          posting_info = record {
            in_zone = mask_from 0 parts 0;
            posting_offset = 0;
            posting_sizes = map (λ p. length p % 2 ^ 16) (nonempty parts);
          };
        },
      )
unfolding split_by_zones
split_by_zones-nonempty zw_cnt parts h low room =
    let start : Cursor = record { zi = 0; offset = 0; is_new_zone = true; zw_cnt = zw_cnt } in
    rw (
      split_loop-nonempty zw_cnt parts 0 0 [] start [] 0 h refl (omega (arith, sum_nil))
        (omega arith) refl (omega arith) (omega arith))
