-- ===== src/Listener/Server.antt =====
-- `Search`, `ConvertToWideChar` and `main` of projects/listener/main.cpp: the answer to what a client
-- sends, and the server's connections. The sockets are parameters, and so are the launcher's calls, which
-- Listener/Server/Program gives.
pub mod Program
pub mod Replies
use amigos.Base.{
  ℕ, zero, suc, ◌+◌, Bool, true, false, not, List, [], ◌∷◌, ◌++◌, Option, none, some, ◌==◌,
  if◌then◌else◌, length, get_elem?, Bytes,
}
use amigos.Run.{Run, done, throws, undefined, ◌>>=◌}
use amigos.Searcher.{Document, Snippet}
use amigos.Searcher.Snippets.{Stopped}
use amigos.Listener.Query.{OutOfRange, parse_query, received, char_to_int}
use amigos.Listener.Answer.{Broken, bad_query, in_configure, in_launcher, at_launcher, make_xml}
use amigos.Searcher.Index.{Failure}

abbrev pub at_query {ℓ} : {A : Type ℓ} → Run OutOfRange A → Run Broken A
at_query (done a) = done a
at_query (throws e) = throws bad_query
at_query undefined = undefined

abbrev pub at_configure {ℓ} : {A : Type ℓ} → Run Failure A → Run Broken A
at_configure (done a) = done a
at_configure (throws e) = throws (in_configure e)
at_configure undefined = undefined

-- The global `launcher`: its state, and its calls, each of which may throw. Program has the one of the
-- program.
pub record Service (T : Type 0) : Type 1 where
  pub State : Type 0
  pub configure : Bytes → Bytes → Run Failure State
  pub launch_searcher : State → Bytes → List ℕ → Run Stopped (List ℕ × State)
  pub get_doc : State → ℕ → Run Stopped Document
  pub get_snippets : State → Bytes → ℕ → List (Snippet T) → ℕ → Run Stopped (List (Snippet T))
  pub show_seconds : T → Bytes

-- What the system's calls give: whether a socket is made, bound and listened at, and for each
-- connection the buffers that `recv` fills until it returns 0 or `SOCKET_ERROR`.
pub record Network : Type 0 where
  pub has_socket : Bool
  pub is_bound : Bool
  pub is_listening : Bool
  pub connections : List (List Bytes)

-- How `main` ends, by what it returns: 1, -1 three times, and 0.
pub data Exit : Type 0 where
  usage no_socket no_bind no_listen finished : Exit

module _ {T : Type 0} (service : Service T) where
  open service use {State, configure, launch_searcher, get_doc, get_snippets, show_seconds}

  -- `Search` on the bytes that were received.
  unfoldable pub search : State → Bytes → Run Broken (Bytes × State)
  unfolding received parse_query make_xml
  search launcher buff = do
    query ← at_query (parse_query (received buff))
    (docs_id, launcher) ← at_launcher (launch_searcher launcher query.to_search [])
    answer ←
        make_xml (get_doc launcher) (get_snippets launcher) show_seconds docs_id query.to_search
          query.start_doc query.end_doc
    done (answer, launcher)

  -- The loop over what one client sends: the answers, each sent before the next buffer is read.
  unfoldable pub serve : State → List Bytes → Run Broken (List Bytes × State)
  unfolding search
  serve launcher [] = done ([], launcher)
  serve launcher (buff ∷ buffs) = do
    (answer, launcher) ← search launcher buff
    (answers, launcher) ← serve launcher buffs
    done (answer ∷ answers, launcher)

  -- The loop over the clients, one after the other.
  unfoldable pub serve_all : State → List (List Bytes) → Run Broken (List (List Bytes) × State)
  unfolding serve
  serve_all launcher [] = done ([], launcher)
  serve_all launcher (buffs ∷ connections) = do
    (answers, launcher) ← serve launcher buffs
    (more, launcher) ← serve_all launcher connections
    done (answers ∷ more, launcher)

  -- `main`: how it ends, and the answers that were sent on each connection.
  unfoldable pub main : List Bytes → Network → Run Broken (Exit × List (List Bytes))
  unfolding serve_all
  main (path_to_config ∷ path_to_stopwords ∷ []) network = do
    launcher ← at_configure (configure path_to_config path_to_stopwords)
    if not network.has_socket
        then done (no_socket, [])
        else if not network.is_bound
        then done (no_bind, [])
        else if not network.is_listening
        then done (no_listen, [])
        else (do
          (answers, launcher) ← serve_all launcher network.connections
          done (finished, answers))
  main arguments network = done (usage, [])

-- `ConvertToWideChar`: the bytes up to the ending zero and the zero itself, each as a `wchar_t` of 32
-- bits, where a `char` is signed; without a zero it reads behind the text.
unfoldable pub convert_to_wide_char : Bytes → Option (List ℕ)
convert_to_wide_char [] = none
convert_to_wide_char (zero ∷ p) = some (0 ∷ [])
convert_to_wide_char (suc c ∷ p) = elim (convert_to_wide_char p) [
  | none ↦ none
  | some r ↦ some (char_to_int (suc c) ∷ r)
]

-- `TestXml`: the lines of the file put together, and how many commas are counted in them; a file that
-- cannot be opened gives no text.
unfoldable pub join_lines : Bytes → Bytes
join_lines [] = []
join_lines (c ∷ file) = let rest = join_lines file in if c == b'\n' then rest else c ∷ rest

unfoldable pub count_commas : Bytes → ℕ
count_commas [] = 0
count_commas (c ∷ text) = let rest = count_commas text in if c == b',' then suc rest else rest

unfoldable pub test_xml : Option Bytes → Bytes × ℕ
unfolding join_lines count_commas
test_xml none = ([], 0)
test_xml (some file) = (join_lines file, count_commas (join_lines file))
