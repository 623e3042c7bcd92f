-- ===== src/Searcher/Snippets/Length.antt =====
-- The snippets of a document: no comparison reads out of range, and how many there are.
use amigos.Base.{
  length-take, length-map, ℕ, suc, ◌+◌, ◌^◌, ◌<◌, ◌≡◌, ◌≢◌, refl, ap, ◌∙◌, sym, arith, Bool, List,
  [], ◌∷◌, ◌++◌, Option, none, some, All, All-mono, map, length, length-append, take, min, Bytes,
}
use amigos.Run.{done}
use amigos.Common.{Library}
use amigos.DocDb.{RawDoc, LevelDb, get_doc, get_phrases}
use amigos.Searcher.{Snippet}
use amigos.Searcher.Selections.{snippet_ranker}
use amigos.Searcher.Selections.Disjoint.{Apart, get_selections-Apart}
use amigos.Searcher.Selections.Better.{snippet_ranker_lem}
use amigos.Searcher.Snippets.{
  Times, Ranked, filled, phrases_of, lower_phrases, rank_phrases, snippet_of, less_pos,
  get_snippets,
}

-- What is relied on of `std::sort`: if no comparison of two elements fails, it ends, with as many
-- elements.
abbrev pub IsSort : Times → Type 1
IsSort times =
    (A : Type 0) (cmp : A → A → Option Bool) (xs : List A)
    → All (λ x. All (λ y. cmp x y ≢ none) xs) xs
    → (ys : List A) × (times.sort cmp xs ≡ some ys) × (length ys ≡ length xs)

-- A line whose statistic has a number for each token, and whose selections do not overlap.
abbrev pub IsRanked : {D : Type 0} → ℕ → Ranked D → Type 0
IsRanked n r = (length r.statistic ≡ n) × Apart 0 r.selections

rank_phrases-IsRanked :
    {D : Type 0} (tokens : List Bytes) (phrases : List (Bytes × D))
    → All (λ p. length p.0 + 2 < 2 ^ 32) phrases
    → (ranked : List (Ranked D)) × (rank_phrases tokens phrases ≡ done ranked)
      × (length ranked ≡ length phrases)
      × All (IsRanked (length tokens)) ranked
unfolding rank_phrases
rank_phrases-IsRanked tokens [] h = ([], refl, refl, tt)
rank_phrases-IsRanked tokens (phrase ∷ phrases) (h, hs) =
    let (selections, statistic, e, apart, total, len) = get_selections-Apart tokens phrase.0 h in
    let (ranked, e', len', hs') = rank_phrases-IsRanked tokens phrases hs in
    (
      record { selections = selections; statistic = statistic; phrase = phrase } ∷ ranked,
      rw (e, e') refl,
      ap suc len',
      ((len, apart), hs'),
    )

All-pairs :
    {D : Type 0} (n : ℕ) (xs ys : List (Ranked D))
    → All (IsRanked n) xs
    → All (IsRanked n) ys
    → All (λ x. All (λ y. snippet_ranker x.statistic y.statistic ≢ none) ys) xs
All-pairs n [] ys hs ks = tt
All-pairs n (x ∷ xs) ys ((len, apart), hs) ks = (
  All-mono (IsRanked n) (λ y. snippet_ranker x.statistic y.statistic ≢ none) ys
      (λ y k. (snippet_ranker_lem x.statistic y.statistic y.statistic (len ∙ sym k.0) refl).1) ks,
  All-pairs n xs ys hs ks,
)

All-some :
    {A : Type 0} (cmp : A → A → Bool) (xs ys : List A)
    → All (λ x. All (λ y. some (cmp x y) ≢ none) ys) xs
All-some cmp [] ys = tt
All-some cmp (x ∷ xs) ys = (go ys, All-some cmp xs ys)
  where
    go : (zs : List _) → All (λ y. some (cmp x y) ≢ none) zs
    go [] = tt
    go (z ∷ zs) = ((λ e. cc), go zs)

-- For a document whose lines, behind `getPhrases` and `toLower`, are shorter than 2 ^ 32 - 2 bytes,
-- `get_snippets` compares nothing out of range in either sort and returns, with one snippet more for
-- each line, at most `snippets_num`. It relies on `std::sort` to end with as many elements where no
-- comparison fails.
pub get_snippets-total :
    (level : LevelDb) (lib : Library) (times : Times) (db : level.Db) (locale_init : Bool)
    (doc_id : ℕ) (tokens : List Bytes) (snippets : List (Snippet times.Time)) (snippets_num : ℕ)
    (doc : RawDoc) (lines low_lines : List (Bytes × times.Time))
    → IsSort times
    → filled (get_doc level db doc_id) ≡ done doc
    → phrases_of (get_phrases times.stod times.nought doc []) ≡ done lines
    → lower_phrases lib locale_init lines ≡ done low_lines
    → All (λ p. length p.0 + 2 < 2 ^ 32) low_lines
    → (res : List (Snippet times.Time)) × (get_snippets level lib times db locale_init doc_id tokens
          snippets snippets_num
        ≡ done res)
      × (length res ≡ length snippets + min snippets_num (length low_lines))
unfolding get_snippets
get_snippets-total level lib times db locale_init doc_id tokens snippets snippets_num doc lines
      low_lines sorts doc_eq lines_eq low_eq short =
    let n = length tokens in
    let (ranked, ranked_eq, len, rs) = rank_phrases-IsRanked tokens low_lines short in
    let (best, best_eq, best_len) =
      sorts (Ranked times.Time) (λ r1 r2. snippet_ranker r1.statistic r2.statistic) ranked
        (All-pairs n ranked ranked rs rs) in
    let more = snippets ++ map snippet_of (take snippets_num best) in
    let (res, res_eq, res_len) =
      sorts (Snippet times.Time) (λ s1 s2. some (less_pos level lib times s1 s2)) more
        (All-some (less_pos level lib times) more more) in
    (
      res,
      rw (doc_eq, lines_eq, low_eq, ranked_eq, best_eq, res_eq) refl,
      omega (
        arith,
        length-append snippets (map snippet_of (take snippets_num best)),
        length-map snippet_of (take snippets_num best),
        length-take snippets_num best,
      ),
    )
