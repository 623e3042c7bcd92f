-- ===== src/Searcher/Snippets.antt =====
-- `toLower`, `Searcher::get_snippets` and `Searcher::get_doc` of
-- projects/searcher/src/searcher.cpp: the lines of a document that fit a query best.
pub mod Length
use amigos.Base.{
  ℕ, zero, suc, Bool, true, false, List, [], ◌∷◌, ◌++◌, Option, none, some, map, length, take,
  Bytes,
}
use amigos.Run.{Run, done, throws, undefined, ◌>>=◌}
use amigos.Common.{Library, Assertion, to_lower}
use amigos.DocDb.{
  RawDoc, LevelDb, Got, missing, got, too_short, PhrasesResult, phrases, less_time_items,
  more_time_items, bad_number, out_of_fuel, get_doc, get_phrases,
}
use amigos.Searcher.{Document, Snippet}
use amigos.Searcher.Selections.{get_selections, snippet_ranker}

-- `std::sort`, where `none` is a comparison that reads out of range, `std::stod`, and the times.
pub record Times : Type 1 where
  pub Time : Type 0
  pub stod : Bytes → Option Time
  pub nought : Time
  pub less_time : Time → Time → Bool
  pub sort : {A : Type 0} → (A → A → Option Bool) → List A → Option (List A)

-- How the search for snippets ends early: by an exception of `getPhrases`, by a failed assertion, or
-- by what the model leaves out, a value of the database that is too short.
pub data Stopped : Type 0 where
  less_times more_times wrong_number : Stopped
  asserted : Assertion → Stopped
  left_out : Stopped

-- A line with its selections and their statistic.
pub record Ranked (D : Type 0) : Type 0 where
  pub selections : List (ℕ × ℕ)
  pub statistic : List ℕ
  pub phrase : Bytes × D

-- `RawDoc()`.
abbrev pub no_doc : RawDoc
no_doc = record { title = []; video_id = []; subtitles = []; time = [] }

-- The document behind `getRawDoc`, which changes nothing where the key is missing.
unfoldable pub filled : Got → Run Stopped RawDoc
filled missing = done no_doc
filled (got doc) = done doc
filled too_short = throws left_out

unfoldable pub phrases_of : {D : Type 0} → PhrasesResult D → Run Stopped (List (Bytes × D))
phrases_of (phrases ps) = done ps
phrases_of less_time_items = throws less_times
phrases_of more_time_items = throws more_times
phrases_of bad_number = throws wrong_number
phrases_of out_of_fuel = throws left_out

abbrev pub at_assert : {A : Type 0} → Run Assertion A → Run Stopped A
at_assert (done a) = done a
at_assert (throws a) = throws (asserted a)
at_assert undefined = undefined

abbrev pub in_range : {A : Type 0} → Option A → Run Stopped A
in_range none = undefined
in_range (some a) = done a

-- `toLower`.
unfoldable pub lower_phrases :
    {D : Type 0} → Library → Bool → List (Bytes × D) → Run Stopped (List (Bytes × D))
unfolding to_lower
lower_phrases lib locale_init [] = done []
lower_phrases lib locale_init ((line, time) ∷ lines) = do
  line ← at_assert (to_lower lib locale_init line)
  lines ← lower_phrases lib locale_init lines
  done ((line, time) ∷ lines)

-- The loop over the lines.
unfoldable pub rank_phrases :
    {D : Type 0} → List Bytes → List (Bytes × D) → Run Stopped (List (Ranked D))
unfolding get_selections
rank_phrases tokens [] = done []
rank_phrases tokens (phrase ∷ lines) = do
  (selections, statistic) ← in_range (get_selections tokens phrase.0)
  rest ← rank_phrases tokens lines
  done (record { selections = selections; statistic = statistic; phrase = phrase } ∷ rest)

-- The snippet of a line.
unfoldable pub snippet_of : {D : Type 0} → Ranked D → Snippet D
snippet_of r = record { subtitle = r.phrase; selections = r.selections }

module _ (level : LevelDb) (lib : Library) (times : Times) where
  open level use {Db}
  open times use {Time, stod, nought, less_time, sort}

  -- `less_pos`.
  unfoldable pub less_pos : Snippet Time → Snippet Time → Bool
  less_pos s1 s2 = less_time s1.subtitle.1 s2.subtitle.1

  -- `get_snippets`: what `snippets` is behind it.
  unfoldable pub get_snippets :
      Db → Bool → ℕ → List Bytes → List (Snippet Time) → ℕ → Run Stopped (List (Snippet Time))
  unfolding get_doc get_phrases filled phrases_of lower_phrases rank_phrases snippet_ranker
      snippet_of less_pos
  get_snippets db locale_init doc_id tokens snippets snippets_num = do
    raw_doc ← filled (get_doc level db doc_id)
    lines ← phrases_of (get_phrases stod nought raw_doc [])
    lines ← lower_phrases lib locale_init lines
    ranked ← rank_phrases tokens lines
    best ← in_range (sort (λ r1 r2. snippet_ranker r1.statistic r2.statistic) ranked)
    in_range (
        sort (λ s1 s2. some (less_pos s1 s2)) (snippets ++ map snippet_of (take snippets_num best)))

  -- `get_doc`; `doc` is filled with this.
  unfoldable pub fill_doc : Db → ℕ → Run Stopped Document
  unfolding get_doc filled
  fill_doc db doc_id = do
    raw_doc ← filled (get_doc level db doc_id)
    done (record { video_id = raw_doc.video_id; title = raw_doc.title; doc_id = doc_id })
