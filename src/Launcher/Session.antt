-- ===== src/Launcher/Session.antt =====
-- The class `Launcher` of include/launcher/launcher.hpp with the members of
-- projects/launcher/src/launcher.cpp that keep its state, and the rounds of
-- projects/launcher/src/main.cpp.
pub mod Ten
use amigos.Base.{
  ℕ, zero, suc, ◌+◌, Bool, true, false, List, [], ◌∷◌, ◌++◌, Option, none, some, length, get_elem?,
  ltb, Bytes, bytes, text_eq, if◌then◌else◌,
}
use amigos.Run.{Run, done, throws, undefined, ◌>>=◌}
use amigos.Common.{Library, Assertion}
use amigos.Common.Texts.{configure_stopwords}
use amigos.DocDb.{to_string}
use amigos.Searcher.{Document, Snippet}
use amigos.Searcher.Index.{Engine, Failure, InvertIndex}
use amigos.Searcher.Index as Index
use amigos.Searcher.Search.{search}
use amigos.Searcher.Snippets.{Times, Stopped, at_assert, in_range, fill_doc}
use amigos.Launcher.{query_tokens, query_snippets}

-- `searcher`, the stopwords of `bi_gramer`, and `g_locale_init`.
pub record Launcher (D Db : Type 0) : Type 0 where
  pub searcher : InvertIndex D Db
  pub stopwords : List Bytes
  pub locale_init : Bool

-- The lines that `main` prints for the selections of a snippet, and for the snippets of a document.
unfoldable pub selection_lines : List (ℕ × ℕ) → Bytes
selection_lines [] = []
selection_lines ((start, len) ∷ selections) =
    bytes "SEL: "
    ++ (to_string start
        ++ (bytes " SIZE: " ++ (to_string len ++ (bytes "\n" ++ selection_lines selections))))

unfoldable pub snippet_lines : {T : Type 0} → List (Snippet T) → Bytes
unfolding selection_lines
snippet_lines [] = []
snippet_lines (s ∷ snippets) =
    bytes "SUBTITLE: "
    ++ (s.subtitle.0 ++ (bytes "\n" ++ (selection_lines s.selections ++ snippet_lines snippets)))

module _ (engine : Engine) (lib : Library) (times : Times) where
  open engine use {level, doubles, open_file}
  open doubles use {D}
  open level use {Db}
  open times use {Time}

  -- `configure`, where `stopwords` are those of `bi_gramer` so far; behind the searcher the locale is
  -- set.
  unfoldable pub configure : List Bytes → Bytes → Bytes → Run Failure (Launcher D Db)
  unfolding Index.configure configure_stopwords
  configure stopwords path_to_config path_to_stopwords = do
    searcher ← Index.configure engine path_to_config
    done (record {
      searcher = searcher;
      stopwords = elim path_to_stopwords [
        | [] ↦ stopwords
        | c ∷ path ↦ configure_stopwords (open_file (c ∷ path)) stopwords
      ];
      locale_init = true;
    })

  -- `launch_searcher`: what `docsId` is behind it, and the launcher.
  unfoldable pub launch_searcher :
      Launcher D Db → Bytes → List ℕ → Run Stopped (List ℕ × Launcher D Db)
  unfolding query_tokens search
  launch_searcher launcher query docs_id = do
    tokens ← at_assert (query_tokens lib launcher.locale_init launcher.stopwords query)
    (docs_id, searcher) ← in_range (search engine launcher.searcher tokens docs_id)
    done (docs_id, record launcher { searcher = searcher })

  -- `get_doc` and `get_snippets`.
  unfoldable pub get_doc : Launcher D Db → ℕ → Run Stopped Document
  unfolding fill_doc
  get_doc launcher doc_id = fill_doc level lib times launcher.searcher.doc_db doc_id

  unfoldable pub get_snippets :
      Launcher D Db → Bytes → ℕ → List (Snippet Time) → ℕ → Run Stopped (List (Snippet Time))
  unfolding query_snippets
  get_snippets launcher query doc_id snippets snippets_num =
      query_snippets level lib times launcher.searcher.doc_db launcher.locale_init query doc_id
        snippets snippets_num

  -- The loop of `main` over `count` documents from the `i`-th on: what is printed. A document that
  -- was not found is read behind the end of `docsId`.
  unfoldable pub show_docs : Launcher D Db → Bytes → List ℕ → ℕ → ℕ → Run Stopped Bytes
  unfolding get_doc get_snippets snippet_lines
  show_docs launcher query docs_id zero i = done []
  show_docs launcher query docs_id (suc count) i = do
    doc_id ← in_range (get_elem? docs_id i)
    doc ← get_doc launcher doc_id
    snippets ← get_snippets launcher query doc.doc_id [] 3
    more ← show_docs launcher query docs_id count (i + 1)
    done (bytes "SNIPPETS:\n" ++ (snippet_lines snippets ++ more))

  -- A round of `main`: what it prints behind the query, and the launcher.
  unfoldable pub answer_query : Launcher D Db → Bytes → Run Stopped (Bytes × Launcher D Db)
  unfolding launch_searcher show_docs
  answer_query launcher query = do
    (docs_id, launcher) ← launch_searcher launcher query []
    shown ← show_docs launcher query docs_id 10 0
    done (
      shown ++ (bytes "DOCS NUM FROM LAUNCHER: " ++ (to_string (length docs_id) ++ bytes "\n")),
      launcher,
    )

  -- The loop of `main` over lines of the input: what it prints for each. Behind the end of the input
  -- `query` is empty in every further round.
  unfoldable pub answer_queries : Launcher D Db → List Bytes → Run Stopped (List Bytes)
  unfolding answer_query
  answer_queries launcher [] = done []
  answer_queries launcher (query ∷ queries) = do
    (shown, launcher) ← answer_query launcher query
    more ← answer_queries launcher queries
    done (shown ∷ more)
