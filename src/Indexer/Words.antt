-- ===== src/Indexer/Words.antt =====
-- `hasBadSymbols`, `_addToStatDict` and `_extractTextZones` of projects/indexer/src/indexer.cpp: the
-- words of a document's text zones, their positions, and the entries of the index.
pub mod Places
pub mod Entries
use amigos.Base.{
  ℕ, zero, suc, ◌+◌, ◌%◌, ◌^◌, Bool, true, false, not, ◌&&◌, List, [], ◌∷◌, ◌++◌, Option, none,
  some, ltb, ◌==◌, if◌then◌else◌, length, Bytes, text_eq,
}
use amigos.Run.{Run, done, throws, undefined, ◌>>=◌}
use amigos.Common.{Library, Assertion, terminate2vec, bigram2vec}
use amigos.Entry.{Entry, PostingInfo}
use amigos.Posting.{DynPostingStore, split_by_zones, add_token_posting, new_entry}

-- `std::isalnum`, `MurmurHash2(word.data(), word.size())`, and the order in which the
-- `unordered_map` of a document's tokens is gone through.
pub record Platform : Type 0 where
  pub lib : Library
  pub isalnum : ℕ → Bool
  pub murmur_hash2 : Bytes → ℕ
  pub iterate : List (ℕ × List ℕ) → List (ℕ × List ℕ)

-- `_statDict` and `_charsCnt`.
pub record Stat : Type 0 where
  pub stat_dict : List (Bytes × ℕ)
  pub chars_cnt : ℕ

-- `++it->second` of a `uint32_t`, or `emplace(word, 1)`.
unfoldable pub count_word : List (Bytes × ℕ) → Bytes → List (Bytes × ℕ)
count_word [] word = (word, 1) ∷ []
count_word ((w, n) ∷ dict) word =
    let rest = count_word dict word in
    if text_eq w word then (w, (n + 1) % 2 ^ 32) ∷ dict else (w, n) ∷ rest

unfoldable pub in_stat_dict : List (Bytes × ℕ) → Bytes → Bool
in_stat_dict [] word = false
in_stat_dict ((w, n) ∷ dict) word =
    let rest = in_stat_dict dict word in if text_eq w word then true else rest

-- `_addToStatDict`.
unfoldable pub add_to_stat_dict : Stat → Bytes → Stat
unfolding count_word in_stat_dict
add_to_stat_dict stat word = record {
  stat_dict = count_word stat.stat_dict word;
  chars_cnt =
      if in_stat_dict stat.stat_dict word
      then stat.chars_cnt
      else (stat.chars_cnt + length word) % 2 ^ 64;
}

-- `tmpDict[tokId].push_back(pos)`.
unfoldable pub push_pos : List (ℕ × List ℕ) → ℕ → ℕ → List (ℕ × List ℕ)
push_pos [] tok_id pos = (tok_id, pos ∷ []) ∷ []
push_pos ((t, ps) ∷ dict) tok_id pos =
    let rest = push_pos dict tok_id pos in
    if t == tok_id then (t, ps ++ (pos ∷ [])) ∷ dict else (t, ps) ∷ rest

-- Where the loop over the words stands: `pos` has 16 bits.
pub record Seen : Type 0 where
  pub pos : ℕ
  pub stat : Stat
  pub tmp_dict : List (ℕ × List ℕ)

-- The vector of a token in `_invIdx`, a map in ascending order, gets a further entry.
unfoldable pub push_entry : List (ℕ × List Entry) → ℕ → Entry → List (ℕ × List Entry)
push_entry [] tok_id entry = (tok_id, entry ∷ []) ∷ []
push_entry ((t, es) ∷ inv_idx) tok_id entry =
    let rest = push_entry inv_idx tok_id entry in
    if ltb tok_id t
    then (tok_id, entry ∷ []) ∷ (t, es) ∷ inv_idx
    else if t == tok_id
    then (t, es ++ (entry ∷ [])) ∷ inv_idx
    else (t, es) ∷ rest

-- The entry of one token of the document at the offset `doc_id_offset`, which is a `uint32_t`.
unfoldable pub make_entry : List ℕ → DynPostingStore → ℕ → List ℕ → Option (Entry × DynPostingStore)
unfolding split_by_zones add_token_posting
make_entry words_cnt store doc_id_offset posting =
    elim (split_by_zones posting words_cnt [] new_entry) [
      | none ↦ none
      | some (fzp_buf, entry) ↦
          let (store', posting_offset) = add_token_posting store fzp_buf in
          some (
            record {
              doc_id_offset = doc_id_offset % 2 ^ 32;
              posting_info = record {
                in_zone = entry.posting_info.in_zone;
                posting_offset = posting_offset;
                posting_sizes = entry.posting_info.posting_sizes;
              };
            },
            store',
          )
    ]

-- The loop over `tmpDict`.
unfoldable pub add_entries :
    List ℕ
    → ℕ
    → List (ℕ × List ℕ)
    → List (ℕ × List Entry)
    → DynPostingStore
    → Option (List (ℕ × List Entry) × DynPostingStore)
unfolding make_entry push_entry
add_entries words_cnt doc_id_offset [] inv_idx store = some (inv_idx, store)
add_entries words_cnt doc_id_offset ((tok_id, posting) ∷ dict) inv_idx store =
    elim (make_entry words_cnt store doc_id_offset posting) [
      | none ↦ none
      | some (entry, store') ↦
          add_entries words_cnt doc_id_offset dict (push_entry inv_idx tok_id entry) store'
    ]

module _ (platform : Platform) where
  open platform use {lib, isalnum, murmur_hash2}

  unfoldable pub has_bad_symbols : Bytes → Bool
  has_bad_symbols [] = false
  has_bad_symbols (ch ∷ str) =
      if not (isalnum ch) && not (ch == b'_') then true else has_bad_symbols str

  unfoldable pub add_word : Seen → Bytes → Seen
  unfolding has_bad_symbols add_to_stat_dict push_pos
  add_word seen word =
      if has_bad_symbols word then record seen { pos = (seen.pos + 1) % 2 ^ 16 } else record {
        pos = (seen.pos + 1) % 2 ^ 16;
        stat = add_to_stat_dict seen.stat word;
        tmp_dict = push_pos seen.tmp_dict (murmur_hash2 word) seen.pos;
      }

  -- The loop over the words of one zone; `cnt` is `wordsCnt[zi]`.
  unfoldable pub add_words : ℕ → Seen → List Bytes → ℕ × Seen
  unfolding add_word
  add_words cnt seen [] = (cnt, seen)
  add_words cnt seen (word ∷ words) = add_words ((cnt + 1) % 2 ^ 16) (add_word seen word) words

  -- The words of one zone, as `bterms` holds them.
  unfoldable pub zone_words : Bool → List Bytes → Bytes → Run Assertion (List Bytes)
  unfolding terminate2vec bigram2vec
  zone_words locale_init stopwords text = do
    terms ← terminate2vec lib locale_init text [] true
    bigram2vec lib stopwords terms []

  -- The loop over the zones, with their `wordsCnt`.
  unfoldable pub add_zones :
      Bool → List Bytes → List Bytes → List ℕ → Seen → Run Assertion (List ℕ × Seen)
  unfolding zone_words add_words
  add_zones locale_init stopwords [] words_cnt seen = done (words_cnt, seen)
  add_zones locale_init stopwords (text ∷ texts) [] seen = undefined
  add_zones locale_init stopwords (text ∷ texts) (cnt ∷ words_cnt) seen = do
    bterms ← zone_words locale_init stopwords text
    let (cnt, seen) = add_words cnt seen bterms
    (words_cnt, seen) ← add_zones locale_init stopwords texts words_cnt seen
    done (cnt ∷ words_cnt, seen)
