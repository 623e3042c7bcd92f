-- ===== src/Launcher.antt =====
-- projects/launcher/src/launcher.cpp: a query on its way to the searcher.
pub mod Tokens
pub mod Session
use amigos.Base.{ℕ, Bool, true, false, List, [], take, Bytes}
use amigos.Run.{Run, ◌>>=◌}
use amigos.Common.{Library, Assertion, terminate2vec, bigram2vec}
use amigos.DocDb.{LevelDb}
use amigos.Searcher.{Snippet}
use amigos.Searcher.Snippets.{Times, Stopped, at_assert, get_snippets}

-- The tokens of `launch_searcher`: those of the first `MAX_TOKEN_CNT` words.
unfoldable pub query_tokens : Library → Bool → List Bytes → Bytes → Run Assertion (List Bytes)
unfolding terminate2vec bigram2vec
query_tokens lib locale_init stopwords query = do
  norm_words ← terminate2vec lib locale_init query [] true
  bigram2vec lib stopwords (take 10 norm_words) []

-- `Launcher::get_snippets`, whose words are not stemmed.
unfoldable pub query_snippets :
    (level : LevelDb) (lib : Library) (times : Times)
    → level.Db
    → Bool
    → Bytes
    → ℕ
    → List (Snippet times.Time)
    → ℕ
    → Run Stopped (List (Snippet times.Time))
unfolding terminate2vec get_snippets
query_snippets level lib times db locale_init query doc_id snippets snippets_num = do
  norm_words ← at_assert (terminate2vec lib locale_init query [] false)
  get_snippets level lib times db locale_init doc_id norm_words snippets snippets_num
