-- ===== src/Tests/Snippets.antt =====
-- Selections and snippets of a document.
use amigos.Base.{
  ℕ, suc, ◌+◌, ◌≡◌, ◌≢◌, refl, ap, ◌∙◌, if◌then◌else◌, arith, Bool, true, false, List, [], ◌∷◌,
  Option, none, some, All, length, min, Bytes, bytes, ltb, ◌>>=◌, inl, inr, Option-cases, text_eq,
  resize, All-mono,
}
use amigos.Run.{done}
use amigos.Common.{Library}
use amigos.IndexIo.{read_from, write_array, read_array}
use amigos.DocDb.{read_doc, read_str, write_str, RawDoc, LevelDb, doc_value, get_doc, get_phrases}
use amigos.Listener.{starts_with}
use amigos.Searcher.{Snippet}
use amigos.Searcher.Selections.{get_selections, snippet_ranker}
use amigos.Searcher.Selections.Better.{snippet_ranker_lem}
use amigos.Searcher.Selections.Disjoint.{Apart, get_selections-Apart}
use amigos.Searcher.Snippets.{Times, filled, phrases_of, lower_phrases, get_snippets}
use amigos.Searcher.Snippets.Length.{IsSort, get_snippets-total}
use amigos.Posting.Split.{sum}

get_selections_test :
    get_selections (bytes "a" ∷ bytes "b" ∷ []) (bytes "b a b c b")
    ≡ some ((0, 2) ∷ (2, 4) ∷ (8, 2) ∷ [], 2 ∷ 1 ∷ [])
unfolding get_selections starts_with resize
get_selections_test = refl

get_selections-Apart_example :
    (selections : List (ℕ × ℕ)) × (statistic : List ℕ) × (get_selections
        (bytes "a" ∷ bytes "b" ∷ [])
        (bytes "b a b c b")
      ≡ some (selections, statistic))
    × Apart 0 selections
    × (sum statistic ≡ length selections)
    × (length statistic ≡ length (bytes "a" ∷ bytes "b" ∷ []))
get_selections-Apart_example =
    get_selections-Apart (bytes "a" ∷ bytes "b" ∷ []) (bytes "b a b c b") (omega arith)

snippet_ranker_example :
    (snippet_ranker (1 ∷ 2 ∷ []) (1 ∷ 2 ∷ []) ≡ some false)
    × (snippet_ranker (1 ∷ 2 ∷ []) (5 ∷ 1 ∷ []) ≢ none)
    × (snippet_ranker (1 ∷ 2 ∷ []) (5 ∷ 1 ∷ []) ≡ some true
        → snippet_ranker (5 ∷ 1 ∷ []) (4 ∷ 1 ∷ []) ≡ some true
        → snippet_ranker (1 ∷ 2 ∷ []) (4 ∷ 1 ∷ []) ≡ some true)
    × (snippet_ranker (1 ∷ 2 ∷ []) (5 ∷ 1 ∷ []) ≡ some false
        → snippet_ranker (5 ∷ 1 ∷ []) (1 ∷ 2 ∷ []) ≡ some false
        → ◌≡◌ {A = List ℕ} (1 ∷ 2 ∷ []) (5 ∷ 1 ∷ []))
snippet_ranker_example = snippet_ranker_lem (1 ∷ 2 ∷ []) (5 ∷ 1 ∷ []) (4 ∷ 1 ∷ []) refl refl

-- A sort by insertion.
unfoldable pub insert : {A : Type 0} → (A → A → Option Bool) → A → List A → Option (List A)
insert cmp x [] = some (x ∷ [])
insert cmp x (y ∷ ys) = do
  before ← cmp x y
  rest ← insert cmp x ys
  some (elim before [ true ↦ x ∷ y ∷ ys | false ↦ y ∷ rest ])

unfoldable pub sort : {A : Type 0} → (A → A → Option Bool) → List A → Option (List A)
sort cmp [] = some []
sort cmp (x ∷ xs) = do ys ← sort cmp xs; insert cmp x ys

insert_lem :
    {A : Type 0} (cmp : A → A → Option Bool) (x : A) (ys : List A)
    → All (λ y. cmp x y ≢ none) ys
    → (zs : List A) × (insert cmp x ys ≡ some zs)
      × (length zs ≡ suc (length ys))
      × ((P : A → Type 0) → P x → All P ys → All P zs)
unfolding insert
insert_lem cmp x [] h = (x ∷ [], refl, refl, λ P k hs. (k, tt))
insert_lem cmp x (y ∷ ys) (h, hs) = elim (Option-cases (cmp x y)) [
  | inl e ↦ absurd (h e)
  | inr (true, e) ↦
      let (zs, e', len, keeps) = insert_lem cmp x ys hs in
      (x ∷ y ∷ ys, rw (e, e') refl, refl, λ P k ks. (k, ks))
  | inr (false, e) ↦
      let (zs, e', len, keeps) = insert_lem cmp x ys hs in
      (y ∷ zs, rw (e, e') refl, ap suc len, λ P k ks. (ks.0, keeps P k ks.1))
]

sort_lem :
    (A : Type 0) (cmp : A → A → Option Bool) (xs : List A)
    → All (λ x. All (λ y. cmp x y ≢ none) xs) xs
    → (ys : List A) × (sort cmp xs ≡ some ys)
      × (length ys ≡ length xs)
      × ((P : A → Type 0) → All P xs → All P ys)
unfolding sort
sort_lem A cmp [] h = ([], refl, refl, λ P k. k)
sort_lem A cmp (x ∷ xs) ((here, hs), rest) =
    let tails =
      All-mono (λ x'. (cmp x' x ≢ none) × All (λ y. cmp x' y ≢ none) xs)
        (λ x'. All (λ y. cmp x' y ≢ none) xs) xs (λ x' k. k.1) rest in
    let (ys, e, len, keeps) = sort_lem A cmp xs tails in
    let (zs, e', len', keeps') = insert_lem cmp x ys (keeps (λ y. cmp x y ≢ none) hs) in
    (zs, rw (e, e') refl, len' ∙ ap suc len, λ P k. keeps' P k.0 (keeps P k.1))

abbrev pub times : Times
times = record {
  Time = ℕ;
  stod = λ text. elim text [ [] ↦ none | c ∷ cs ↦ some c ];
  nought = 0;
  less_time = ltb;
  sort = sort;
}

times-IsSort : IsSort times
times-IsSort = λ A cmp xs h. let (ys, e, len, keeps) = sort_lem A cmp xs h in (ys, e, len)

abbrev pub latin : Library
latin = record {
  mbs = λ str. some str;
  wcs = λ ws. some ws;
  spare = true;
  lower = λ c. c;
  tokens = λ str. str ∷ [];
  stem = λ str. str;
}

abbrev doc : RawDoc
doc = record {
  title = bytes "T";
  video_id = bytes "v";
  subtitles = bytes "b a\na\n";
  time = bytes "7\n3\n";
}

abbrev level : LevelDb
level = record {
  Db = Bytes → Option Bytes;
  get = λ db k. db k;
  put = λ db k v j. if text_eq k j then some v else db j;
}

abbrev low_lines : List (Bytes × ℕ)
low_lines = (bytes "b a", b'7') ∷ (bytes "a", b'3') ∷ ([], 0) ∷ []

get_snippets-total_example :
    (res : List (Snippet ℕ)) × (get_snippets level latin times
        (λ k. some (doc_value doc))
        true
        17
        (bytes "a" ∷ [])
        []
        1
      ≡ done res)
    × (length res ≡ length {A = Snippet ℕ} [] + min 1 (length {A = Bytes × ℕ} low_lines))
unfolding get_doc filled read_doc read_str read_from doc_value write_str write_array read_array
    phrases_of get_phrases lower_phrases
get_snippets-total_example =
    get_snippets-total level latin times (λ k. some (doc_value doc)) true 17 (bytes "a" ∷ []) [] 1
      doc low_lines low_lines times-IsSort refl refl refl (omega arith)
