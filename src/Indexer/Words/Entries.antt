-- ===== src/Indexer/Words/Entries.antt =====
-- An entry of the index leads back to where its token's words stand in the document.
use amigos.Base.{
  length-map, ℕ, ◌+◌, ◌%◌, ◌^◌, ◌≤◌, ◌<◌, ◌≡◌, refl, arith, Bool, List, [], ◌∷◌, ◌++◌, some, map,
  length, All, inl, inr, Bytes, Bool-cases,
}
use amigos.Run.{done}
use amigos.Entry.{Entry}
use amigos.Posting.{DynPostingStore, Posting, get_full_posting, words_of_all}
use amigos.Posting.Split.{sum}
use amigos.Posting.Stored.{IsAligned, count, count-nonempty, get_full_posting-add_token_posting}
use amigos.Indexer.Words.{Platform, Stat, Seen, make_entry, add_zones}
use amigos.Indexer.Words.Places.{
  posting_of, places, is_token, Spells, zeros, FitsZones-places, add_zones_lem,
}

length-places :
    (is_tok : Bytes → Bool) (i : ℕ) (words : List Bytes)
    → length (places is_tok i words) ≤ length words
length-places is_tok i [] = omega arith
length-places is_tok i (word ∷ words) =
    let rest = length-places is_tok (i + 1) words in
    elim (Bool-cases (is_tok word)) [
      | inl holds ↦ rw holds (omega (arith, rest))
      | inr fails ↦ rw fails (omega (arith, rest))
    ]

count-places :
    (is_tok : Bytes → Bool) (words : List (List Bytes))
    → count (map (places is_tok 0) words) ≤ sum (map length words)
unfolding sum
count-places is_tok [] = omega arith
count-places is_tok (ws ∷ words) =
    omega (arith, length-places is_tok 0 ws, count-places is_tok words)

FitsSizes-places :
    (is_tok : Bytes → Bool) (words : List (List Bytes))
    → sum (map length words) < 2 ^ 16
    → All (λ p. length p < 2 ^ 16) (map (places is_tok 0) words)
unfolding sum
FitsSizes-places is_tok [] room = tt
FitsSizes-places is_tok (ws ∷ words) room =
    (omega (arith, length-places is_tok 0 ws), FitsSizes-places is_tok words (omega arith))

-- The words of a document's text zones, at most eight zones with fewer than 2 ^ 16 words together,
-- go through the loop over the zones, which counts each zone's words. For every token, the positions
-- that the loop collects then make an entry of the document, and from this entry `getFullPosting`
-- finds, zone by zone, just where the words of the token stand in the zone, words with bad symbols
-- counted as places but never found; and it does so whatever is appended to the file of positions
-- later on. The store of positions is aligned and stays so, and has room for the words.
pub make_entry-add_zones :
    (platform : Platform) (locale_init : Bool) (stopwords texts : List Bytes)
    (words : List (List Bytes)) (stat : Stat) (st : DynPostingStore) (doc : ℕ) (more : List ℕ)
    → Spells platform locale_init stopwords texts words
    → length words ≤ 8
    → sum (map length words) < 2 ^ 16
    → IsAligned st
    → st.common_size + sum (map length words) < 2 ^ 32
    → (seen : Seen) × (add_zones platform locale_init stopwords texts
          (zeros words)
          (record { pos = 0; stat = stat; tmp_dict = [] })
        ≡ done (map length words, seen))
      × ((tok : ℕ)
          → (entry : Entry) × (st' : DynPostingStore) × (res : List Posting) × (make_entry
                (map length words)
                st
                doc
                (posting_of tok seen.tmp_dict)
              ≡ some (entry, st'))
            × (entry.doc_id_offset ≡ doc % 2 ^ 32)
            × (get_full_posting (length words) entry [] ≡ some res)
            × (words_of_all (st'.ofs ++ more) res
                ≡ some (map (places (is_token platform tok) 0) words))
            × IsAligned st')
unfolding make_entry get_full_posting
make_entry-add_zones platform locale_init stopwords texts words stat st doc more spells low room
      aligned lt =
    let (seen, added, postings) =
      add_zones_lem platform locale_init stopwords texts words
        (record { pos = 0; stat = stat; tmp_dict = [] }) spells (omega arith) in
    (
      seen,
      added,
      λ tok.
          let parts = map (places (is_token platform tok) 0) words in
          let (split, e, res, split_eq, found, stored, aligned') =
            get_full_posting-add_token_posting (map length words) parts st more
              (FitsZones-places (is_token platform tok) words)
              (omega (arith, length-map (length {A = Bytes}) words)) (omega arith)
              (FitsSizes-places (is_token platform tok) words room) aligned
              (omega (arith, count-nonempty parts, count-places (is_token platform tok) words)) in
          (
            _,
            _,
            res,
            rw (postings tok, make_entry, split_eq) refl,
            refl,
            rw (length-map (length {A = Bytes}) words) at found,
            stored,
            aligned',
          ),
    )
