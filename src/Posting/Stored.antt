-- ===== src/Posting/Stored.antt =====
-- What `addTokenPosting` appends to the file, `getFullPosting` finds again, zone by zone.
use Prim.Native.Nat.{bit_and, bit_or}
use amigos.Base.{
  ℕ, zero, suc, ◌+◌, ◌-◌, ◌*◌, ◌/◌, ◌≤◌, ◌^◌, ◌%◌, ◌<◌, ◌≡◌, refl, sym, ap, ◌∙◌, true, false, List,
  [], ◌∷◌, ◌++◌, some, arith, append_assoc, append-nil, map, All, length, length-append, All-mono,
  ◌==◌, ◌>>=◌, drop-append, replicate, resize,
}
use mathlib.Core.Path.{subst}
use amigos.Entry.{Entry}
use amigos.IndexIo.{to_bytes, read_array}
use amigos.IndexIo.Words.{array_bytes, write_array-append, read_array-array_bytes, length-to_bytes}
use amigos.Posting.{
  new_entry, DynPostingStore, append_postings, add_token_posting, Posting, no_posting, make_posting,
  fill_postings, get_full_posting, words_of, words_of_all, split_by_zones, open_posting_store,
}
use amigos.Posting.Mask.{
  has_zone, mask_from, IsClear, IsClear-zero, IsClear-bit_or, has_zone-mask_from_empty,
  has_zone-mask_from_cons, bit_or-lt,
}
use amigos.Posting.Split.{sum, absolute, FitsZones, nonempty, i2mask_lem, split_by_zones-nonempty}

-- The bytes of all postings, one after the other.
abbrev postings_bytes : List (List ℕ) → List ℕ
postings_bytes [] = []
postings_bytes (p ∷ ps) = array_bytes 2 p ++ postings_bytes ps

abbrev pub count : List (List ℕ) → ℕ
count [] = 0
count (p ∷ ps) = length p + count ps

length-array_bytes : (w : ℕ) (vs : List ℕ) → length (array_bytes w vs) ≡ w * length vs
length-array_bytes w [] = omega arith
length-array_bytes w (v ∷ vs) = omega (
  arith,
  length-append (to_bytes w v) (array_bytes w vs),
  length-to_bytes w v,
  length-array_bytes w vs,
)

append_postings_lem :
    (st : DynPostingStore) (ps : List (List ℕ))
    → st.common_size + count ps < 2 ^ 32
    → append_postings st ps
      ≡ record { ofs = st.ofs ++ postings_bytes ps; common_size = st.common_size + count ps }
unfolding append_postings
append_postings_lem st [] h = ground (arith, append-nil st.ofs)
append_postings_lem st (p ∷ ps) h =
    let kept : (st.common_size + length p) % 2 ^ 32 ≡ st.common_size + length p = omega arith in
    rw (write_array-append 2 st.ofs p, kept)
      (ground (
        arith,
        append_postings_lem
            (record { ofs = st.ofs ++ array_bytes 2 p; common_size = st.common_size + length p }) ps
            (omega arith),
        append_assoc st.ofs (array_bytes 2 p) (postings_bytes ps),
      ))

-- Reading a posting whose words stand behind `front`.
words_of_lem :
    (front p more : List ℕ) (po : ℕ)
    → length front ≡ 2 * po
    → po < 2 ^ 63
    → All (λ v. v < 256 ^ 2) p
    → words_of (front ++ (array_bytes 2 p ++ more)) (make_posting (po * 2 % 2 ^ 64) (length p))
      ≡ some p
unfolding words_of make_posting
words_of_lem front p more po e lt h =
    let seek : po * 2 % 2 ^ 64 / 2 ≡ po = omega arith in
    let size : po + length p - po ≡ length p = omega arith in
    rw (seek, size, ← e, drop-append front (array_bytes 2 p ++ more))
      (rw (read_array-array_bytes 2 p more h))

-- The word positions fit 16 bits.
abbrev FitsWords : List (List ℕ) → Type 0
FitsWords parts = All (λ p. All (λ v. v < 256 ^ 2) p) parts

fill_skip :
    (i m po : ℕ) (sizes : List ℕ) (r : Posting) (res : List Posting)
    → i < 8
    → has_zone m i ≡ false
    → fill_postings i m po sizes (r ∷ res)
      ≡ (fill_postings (i + 1) m po sizes res >>= λ rest. some (r ∷ rest))
unfolding fill_postings has_zone
fill_skip i m po sizes r res low off =
    let zero_bit : (bit_and (2 ^ i) m == 0) ≡ true = ground arith in
    rw (i2mask_lem i low, ◌>>=◌, zero_bit)

fill_take :
    (i m po size : ℕ) (sizes : List ℕ) (r : Posting) (res : List Posting)
    → i < 8
    → has_zone m i ≡ true
    → po + size < 2 ^ 63
    → fill_postings i m po (size ∷ sizes) (r ∷ res) ≡ (
        fill_postings (i + 1) m (po + size) sizes res >>= λ rest.
        some (make_posting (po * 2 % 2 ^ 64) size ∷ rest))
unfolding fill_postings has_zone
fill_take i m po size sizes r res low on lt =
    let set_bit : (bit_and (2 ^ i) m == 0) ≡ false = ground arith in
    let kept : (po + (po * 2 % 2 ^ 64 / 2 + size - po * 2 % 2 ^ 64 / 2)) % 2 ^ 64 ≡ po + size =
      omega arith in
    rw (i2mask_lem i low, ◌>>=◌, set_bit, kept)

words_of_none : (src : List ℕ) → words_of src no_posting ≡ some []
unfolding words_of read_array
words_of_none src = refl

next_front :
    (front p : List ℕ) (po : ℕ)
    → length front ≡ 2 * po
    → length (front ++ array_bytes 2 p) ≡ 2 * (po + length p)
next_front front p po e =
    omega (arith, length-append front (array_bytes 2 p), length-array_bytes 2 p)

words_of_all-cons :
    (front bytes others more p : List ℕ) (q : Posting) (res : List Posting) (parts : List (List ℕ))
    → words_of (front ++ (bytes ++ (others ++ more))) q ≡ some p
    → words_of_all ((front ++ bytes) ++ (others ++ more)) res ≡ some parts
    → words_of_all (front ++ ((bytes ++ others) ++ more)) (q ∷ res) ≡ some (p ∷ parts)
unfolding words_of_all
words_of_all-cons front bytes others more p q res parts one rest =
    let rest' : words_of_all (front ++ (bytes ++ (others ++ more))) res ≡ some parts =
      rw append_assoc at rest in
    subst (λ src. words_of_all (front ++ src) (q ∷ res) ≡ some (p ∷ parts))
      (sym (append_assoc bytes others more)) (rw (one, rest'))

fill_postings-words :
    (parts : List (List ℕ)) (front more : List ℕ) (i m m' po : ℕ)
    → length front ≡ 2 * po
    → po + count parts < 2 ^ 63
    → FitsWords parts
    → i + length parts ≤ 8
    → m < 256
    → IsClear i m
    → mask_from i parts m ≡ m'
    → (res : List Posting) × (fill_postings i m' po
          (map length (nonempty parts))
          (replicate (length parts) no_posting)
        ≡ some res)
      × (words_of_all (front ++ (postings_bytes parts ++ more)) res ≡ some parts)
unfolding fill_postings words_of_all
fill_postings-words [] front more i m m' po e lt h low hm clear em = ([], refl, refl)
fill_postings-words ([] ∷ parts) front more i m m' po e lt (h, hs) low hm clear em =
    let off = has_zone-mask_from_empty i parts m low hm clear in
    let (res, eq, words) =
      fill_postings-words parts front more (i + 1) m m' po e (omega arith) hs (omega arith) hm
        (λ j lo hi. clear j (omega arith) hi) em in
    (
      no_posting ∷ res,
      fill_skip i m' po (map length (nonempty parts)) no_posting
            (replicate (length parts) no_posting) (omega arith) (rw (← em) off)
          ∙ rw eq,
      rw (words_of_none (front ++ (postings_bytes parts ++ more)), words),
    )
fill_postings-words ((r ∷ rs) ∷ parts) front more i m m' po e lt (h, hs) low hm clear em =
    let on = has_zone-mask_from_cons i r rs parts m low hm in
    let p : List ℕ = r ∷ rs in
    let (res, eq, words) =
      fill_postings-words parts (front ++ array_bytes 2 p) more (i + 1) (bit_or m (2 ^ i)) m'
        (po + length p) (next_front front p po e) (omega arith) hs (omega arith)
        (bit_or-lt i m (omega arith) hm) (IsClear-bit_or i m (omega arith) hm clear) em in
    (
      make_posting (po * 2 % 2 ^ 64) (length p) ∷ res,
      fill_take i m' po (length p) (map length (nonempty parts)) no_posting
            (replicate (length parts) no_posting) (omega arith) (rw (← em) on) (omega arith)
          ∙ rw eq,
      words_of_all-cons front (array_bytes 2 p) (postings_bytes parts) more p
          (make_posting (po * 2 % 2 ^ 64) (length p)) res parts
          (words_of_lem front p (postings_bytes parts ++ more) po e (omega arith) h) words,
    )

resize-nil {ℓ} : {A : Type ℓ} (n : ℕ) (d : A) → resize n d [] ≡ replicate n d
unfolding resize
resize-nil zero d = refl
resize-nil (suc n) d = ap (◌∷◌ d) (resize-nil n d)

-- The postings of one word are stored aligned: the words written so far are the store's count.
abbrev pub IsAligned : DynPostingStore → Type 0
IsAligned st = length st.ofs ≡ 2 * st.common_size

-- Positions inside of zones that have at most 2 ^ 16 words fit 16 bits, and so do their numbers.
FitsZones-words :
    (zw_cnt : List ℕ) (parts : List (List ℕ))
    → FitsZones zw_cnt parts
    → sum zw_cnt ≤ 2 ^ 16
    → FitsWords parts
unfolding sum
FitsZones-words [] [] h room = tt
FitsZones-words [] (p ∷ parts) h room = absurd h
FitsZones-words (c ∷ zw_cnt) [] h room = absurd h
FitsZones-words (c ∷ zw_cnt) (p ∷ parts) (h, hs) room = (
  All-mono (λ r. r < c) (λ r. r < 256 ^ 2) p (λ r lt. omega arith) h,
  FitsZones-words zw_cnt parts hs (omega arith),
)

FitsZones-length :
    (zw_cnt : List ℕ) (parts : List (List ℕ))
    → FitsZones zw_cnt parts
    → length zw_cnt ≡ length parts
FitsZones-length [] [] h = refl
FitsZones-length [] (p ∷ parts) h = absurd h
FitsZones-length (c ∷ zw_cnt) [] h = absurd h
FitsZones-length (c ∷ zw_cnt) (p ∷ parts) (h, hs) = ap suc (FitsZones-length zw_cnt parts hs)

postings_bytes-nonempty :
    (parts : List (List ℕ)) → postings_bytes (nonempty parts) ≡ postings_bytes parts
postings_bytes-nonempty [] = refl
postings_bytes-nonempty ([] ∷ parts) = postings_bytes-nonempty parts
postings_bytes-nonempty ((r ∷ rs) ∷ parts) =
    ap (λ b. array_bytes 2 (r ∷ rs) ++ b) (postings_bytes-nonempty parts)

pub count-nonempty : (parts : List (List ℕ)) → count (nonempty parts) ≡ count parts
count-nonempty [] = refl
count-nonempty ([] ∷ parts) = omega (arith, count-nonempty parts)
count-nonempty ((r ∷ rs) ∷ parts) = omega (arith, count-nonempty parts)

length-postings_bytes : (ps : List (List ℕ)) → length (postings_bytes ps) ≡ 2 * count ps
length-postings_bytes [] = omega arith
length-postings_bytes (p ∷ ps) = omega (
  arith,
  length-append (array_bytes 2 p) (postings_bytes ps),
  length-array_bytes 2 p,
  length-postings_bytes ps,
)

abbrev FitsSizes : List (List ℕ) → Type 0
FitsSizes parts = All (λ p. length p < 2 ^ 16) parts

sizes_kept :
    (parts : List (List ℕ))
    → FitsSizes parts
    → map (λ p. length p % 2 ^ 16) (nonempty parts) ≡ map length (nonempty parts)
sizes_kept [] h = refl
sizes_kept ([] ∷ parts) (h, hs) = sizes_kept parts hs
sizes_kept ((r ∷ rs) ∷ parts) (h, hs) =
    let kept : length (r ∷ rs) % 2 ^ 16 ≡ length (r ∷ rs) = omega arith in
    rw (kept, sizes_kept parts hs)

-- The positions of a word in one document, stored by `splitByZones` and `addTokenPosting` behind
-- what an aligned store holds: the entry that gets the offset of the store leads `getFullPosting`
-- back to just these positions, zone by zone, whatever is appended to the file later on. There
-- are at most eight zones, with at most 2 ^ 16 words together, a word stands fewer than 2 ^ 16
-- times in a zone, and the store's count stays below 2 ^ 32. The store is aligned again.
pub get_full_posting-add_token_posting :
    (zw_cnt : List ℕ) (parts : List (List ℕ)) (st : DynPostingStore) (more : List ℕ)
    → FitsZones zw_cnt parts
    → length zw_cnt ≤ 8
    → sum zw_cnt ≤ 2 ^ 16
    → FitsSizes parts
    → IsAligned st
    → st.common_size + count (nonempty parts) < 2 ^ 32
    → (split : List (List ℕ)) × (e : Entry) × (res : List Posting) × (split_by_zones
          (absolute 0 zw_cnt parts)
          zw_cnt
          []
          new_entry
        ≡ some (split, e))
      × (get_full_posting
            (length zw_cnt)
            (record e {
              posting_info = record {
                in_zone = e.posting_info.in_zone;
                posting_offset = (add_token_posting st split).1;
                posting_sizes = e.posting_info.posting_sizes;
              };
            })
            []
          ≡ some res)
      × (words_of_all ((add_token_posting st split).0.ofs ++ more) res ≡ some parts)
      × IsAligned (add_token_posting st split).0
unfolding get_full_posting add_token_posting
get_full_posting-add_token_posting zw_cnt parts st more h low room sizes aligned lt =
    let stored = append_postings_lem st (nonempty parts) lt in
    let (res, filled, words) =
      fill_postings-words parts st.ofs more 0 0 (mask_from 0 parts 0) st.common_size aligned
        (omega (arith, count-nonempty parts)) (FitsZones-words zw_cnt parts h room)
        (omega (arith, FitsZones-length zw_cnt parts h)) (omega arith) IsClear-zero refl in
    (
      nonempty parts,
      _,
      res,
      split_by_zones-nonempty zw_cnt parts h low room,
      rw
          (
            sizes_kept parts sizes,
            resize-nil (length zw_cnt) no_posting,
            FitsZones-length zw_cnt parts h,
          )
          filled,
      rw (stored, postings_bytes-nonempty parts) (rw append_assoc words),
      rw stored (
          omega (
            arith,
            length-append st.ofs (postings_bytes (nonempty parts)),
            length-postings_bytes (nonempty parts),
          )),
    )

add_token_posting_lem :
    (st : DynPostingStore) (ps : List (List ℕ))
    → st.common_size + count ps < 2 ^ 32
    → add_token_posting st ps ≡ (
      record { ofs = st.ofs ++ postings_bytes ps; common_size = st.common_size + count ps },
      st.common_size,
    )
unfolding add_token_posting
add_token_posting_lem st ps h = ap (λ t. (t, st.common_size)) (append_postings_lem st ps h)

array_bytes-append :
    (w : ℕ) (vs ws : List ℕ) → array_bytes w (vs ++ ws) ≡ array_bytes w vs ++ array_bytes w ws
array_bytes-append w [] ws = refl
array_bytes-append w (v ∷ vs) ws =
    ap (λ b. to_bytes w v ++ b) (array_bytes-append w vs ws)
    ∙ sym (append_assoc (to_bytes w v) (array_bytes w vs) (array_bytes w ws))

-- A store that is opened on a file that holds words already gives the first posting the offset 0,
-- and the posting made from that offset and the posting's size reads the file's first words, not
-- the ones stored, where the file held as many at least.
pub open_posting_store-old_words :
    (old older p more : List ℕ)
    → All (λ v. v < 256 ^ 2) old
    → length old ≡ length p
    → length p < 2 ^ 16
    → ((add_token_posting (open_posting_store (array_bytes 2 (old ++ older))) (p ∷ [])).1 ≡ 0)
      × (words_of
            ((add_token_posting (open_posting_store (array_bytes 2 (old ++ older))) (p ∷ [])).0.ofs
              ++ more)
            (make_posting (0 * 2 % 2 ^ 64) (length p))
          ≡ some old)
unfolding open_posting_store
open_posting_store-old_words old older p more fits e lt =
    let start : DynPostingStore = record { ofs = array_bytes 2 (old ++ older); common_size = 0 } in
    let stored = add_token_posting_lem start (p ∷ []) (omega arith) in
    (
      rw stored,
      rw (stored, array_bytes-append 2 old older, ← e)
          (rw (append_assoc, append_assoc)
            (words_of_lem [] old (array_bytes 2 older ++ ((array_bytes 2 p ++ []) ++ more)) 0 refl
              (omega arith) fits)),
    )
