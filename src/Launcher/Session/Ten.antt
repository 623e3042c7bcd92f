-- ===== src/Launcher/Session/Ten.antt =====
-- How many documents the terminal needs.
use amigos.Base.{ℕ, zero, suc, ◌+◌, ◌<◌, ◌≡◌, ◌≢◌, arith, List, [], ◌∷◌, length, get_elem?, Bytes}
use amigos.Run.{done, bind-eq-done}
use amigos.Common.{Library}
use amigos.Searcher.Index.{Engine}
use amigos.Searcher.Snippets.{Times, in_range}
use amigos.Launcher.Session.{
  Launcher, launch_searcher, get_doc, get_snippets, show_docs, answer_query,
}

in_range-length :
    {A : Type 0} (xs : List A) (i : ℕ) (a : A) → in_range (get_elem? xs i) ≡ done a → i < length xs
unfolding get_elem?
in_range-length [] i a h = cc
in_range-length (x ∷ xs) zero a h = omega arith
in_range-length (x ∷ xs) (suc i) a h = omega (arith, in_range-length xs i a h)

module _ (engine : Engine) (lib : Library) (times : Times) where
  length-show_docs :
      (launcher : Launcher engine.doubles.D engine.level.Db) (query : Bytes) (docs_id : List ℕ)
      (count i : ℕ) (text : Bytes)
      → show_docs engine lib times launcher query docs_id (suc count) i ≡ done text
      → i + count < length docs_id
  unfolding show_docs
  length-show_docs launcher query docs_id zero i text h =
      let (doc_id, e, h1) = bind-eq-done (in_range (get_elem? docs_id i)) _ h in
      omega (arith, in_range-length docs_id i doc_id e)
  length-show_docs launcher query docs_id (suc count) i text h =
      let (doc_id, e, h1) = bind-eq-done (in_range (get_elem? docs_id i)) _ h in
      let (doc, e2, h2) = bind-eq-done (get_doc engine lib times launcher doc_id) _ h1 in
      let (snippets, e3, h3) =
        bind-eq-done (get_snippets engine lib times launcher query doc.doc_id [] 3) _ h2 in
      let (more, e4, h4) =
        bind-eq-done (show_docs engine lib times launcher query docs_id (suc count) (i + 1)) _ h3 in
      omega (arith, length-show_docs launcher query docs_id count (i + 1) more e4)

  -- Where the searcher finds fewer than ten documents for a query, the round of `main` does not end
  -- with a result: it reads behind the documents, unless an exception or an assertion stops it
  -- earlier.
  pub answer_query-few :
      (launcher found : Launcher engine.doubles.D engine.level.Db) (query : Bytes)
      (docs_id : List ℕ)
      → launch_searcher engine lib times launcher query [] ≡ done (docs_id, found)
      → length docs_id < 10
      → (res : Bytes × Launcher engine.doubles.D engine.level.Db)
      → answer_query engine lib times launcher query ≢ done res
  unfolding answer_query
  answer_query-few launcher found query docs_id search few res h =
      let h1 = rw search at h in
      let (text, e, h2) = bind-eq-done (show_docs engine lib times found query docs_id 10 0) _ h1 in
      absurd (omega (arith, few, length-show_docs found query docs_id 9 0 text e))
