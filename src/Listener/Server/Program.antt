-- ===== src/Listener/Server/Program.antt =====
-- The launcher of projects/listener/main.cpp: the global of the class `Launcher`.
use amigos.Base.{[], Bytes}
use amigos.Common.{Library}
use amigos.Searcher.Snippets.{Times}
use amigos.Searcher.Index.{Engine}
use amigos.Launcher.Session as Session
use amigos.Listener.Server.{Service}

-- `configure` starts from a launcher without stopwords. `show_seconds` is `std::to_string` of a time
-- made a `long long`.
unfoldable pub program :
    (engine : Engine) (lib : Library) (times : Times) → (times.Time → Bytes) → Service times.Time
unfolding Session.configure Session.launch_searcher Session.get_doc Session.get_snippets
program engine lib times show_seconds = record {
  State = Session.Launcher engine.doubles.D engine.level.Db;
  configure = Session.configure engine lib times [];
  launch_searcher = Session.launch_searcher engine lib times;
  get_doc = Session.get_doc engine lib times;
  get_snippets = Session.get_snippets engine lib times;
  show_seconds = show_seconds;
}
