-- ===== src/Listener/Answer.antt =====
-- `MakeXml` of projects/listener/main.cpp.
pub mod Page
use amigos.Base.{
  ℕ, zero, suc, ◌+◌, ◌-◌, ◌%◌, ◌^◌, Bool, true, false, ◌&&◌, List, [], ◌∷◌, ◌++◌, Option, none,
  some, ltb, if◌then◌else◌, length, get_elem?, Bytes, bytes,
}
use amigos.DocDb.{to_string_fuel}
use amigos.Run.{Run, done, throws, undefined, ◌>>=◌}
use amigos.Searcher.{Document, Snippet}
use amigos.Searcher.Index.{Failure}
use amigos.Searcher.Snippets.{Stopped}
use amigos.Listener.{format}

-- `std::to_string` of a `long long` that is not negative.
unfoldable pub to_string_ll : ℕ → Bytes
to_string_ll = to_string_fuel 19

-- The comparison of two `int`s by their words, and an `int` made a `size_t`.
unfoldable pub less_int : ℕ → ℕ → Bool
less_int a b = ltb ((a + 2 ^ 31) % 2 ^ 32) ((b + 2 ^ 31) % 2 ^ 32)

unfoldable pub int_to_size : ℕ → ℕ
int_to_size i = if ltb i (2 ^ 31) then i else i + (2 ^ 64 - 2 ^ 32)

unfoldable pub xml_head : ℕ → Bytes
xml_head count =
    bytes "<?xml version=\"1.0\" encoding=\"utf-16\"?>\n"
    ++ (bytes "<results totalResultsCount = \"" ++ (to_string_ll count ++ bytes "\">\n"))

unfoldable pub xml_result : Bytes → Bytes → Bytes
xml_result video_id title =
    bytes "\t <result link=\"https://www.youtube.com/watch?v="
    ++ (video_id
        ++ (bytes "\" "
            ++ (bytes "title=\""
                ++ (title ++ (bytes "\" " ++ (bytes "description=\"\" " ++ bytes "> \n"))))))

unfoldable pub xml_snippet : Bytes → Bytes → Bytes
xml_snippet text time =
    bytes "\t\t <snippet text=\""
    ++ (text ++ (bytes "\" " ++ (bytes "time=\"" ++ (time ++ (bytes "\" " ++ bytes ">\n")))))

unfoldable pub xml_selection : ℕ × ℕ → Bytes
xml_selection (start, len) =
    bytes "\t\t\t <selection start=\""
    ++ (to_string_ll start
        ++ (bytes "\" " ++ (bytes "length=\"" ++ (to_string_ll len ++ bytes "\"/>\n"))))

unfoldable pub xml_selections : Bytes → List (ℕ × ℕ) → Bytes
unfolding xml_selection
xml_selections xml [] = xml
xml_selections xml (s ∷ selections) = xml_selections (xml ++ xml_selection s) selections

-- How the server breaks off: by the exception of `substr`, by what ends the launcher or its
-- `configure`, or, which is no behaviour of the code, for lack of fuel.
pub data Broken : Type 0 where
  bad_query : Broken
  in_configure : Failure → Broken
  in_launcher : Stopped → Broken
  out_of_fuel : Broken

abbrev pub at_launcher {ℓ} : {A : Type ℓ} → Run Stopped A → Run Broken A
at_launcher (done a) = done a
at_launcher (throws e) = throws (in_launcher e)
at_launcher undefined = undefined

abbrev pub in_time {ℓ} : {A : Type ℓ} → Option A → Run Broken A
in_time none = throws out_of_fuel
in_time (some a) = done a

abbrev pub in_vector {ℓ} : {A : Type ℓ} → Option A → Run Broken A
in_vector none = undefined
in_vector (some a) = done a

-- The launcher's `get_doc` and `get_snippets`, which may throw; Listener/Server/Program has those of
-- the program. `show_seconds` stands for `std::to_string` of the time made a `long long`.
module _ {D : Type 0} (get_doc : ℕ → Run Stopped Document)
    (get_snippets : Bytes → ℕ → List (Snippet D) → ℕ → Run Stopped (List (Snippet D)))
    (show_seconds : D → Bytes) where
  unfoldable pub xml_snippets : Bytes → List (Snippet D) → Run Broken Bytes
  unfolding xml_selections xml_snippet
  xml_snippets xml [] = done xml
  xml_snippets xml (s ∷ snippets) = do
    text ← in_time (format s.subtitle.0)
    let opened = xml ++ xml_snippet text (show_seconds s.subtitle.1)
    xml_snippets (xml_selections opened s.selections ++ bytes "\t\t</snippet>\n") snippets

  -- The body of the loop for one document.
  unfoldable pub xml_document : Bytes → Bytes → ℕ → Run Broken Bytes
  unfolding xml_snippets xml_result
  xml_document xml query doc_id = do
    doc ← at_launcher (get_doc doc_id)
    title ← in_time (format doc.title)
    snippets ← at_launcher (get_snippets query doc.doc_id [] 3)
    xml ← xml_snippets (xml ++ xml_result doc.video_id title) snippets
    done (xml ++ bytes "\t </result>")

  -- `i` and `last` are `int`s.
  unfoldable pub xml_documents : ℕ → Bytes → Bytes → List ℕ → ℕ → ℕ → Run Broken Bytes
  unfolding xml_document less_int int_to_size
  xml_documents zero xml query docs_id i last = throws out_of_fuel
  xml_documents (suc fuel) xml query docs_id i last =
      elim (less_int i last && ltb (int_to_size i) (length docs_id)) [
        | false ↦ done xml
        | true ↦ do
          doc_id ← in_vector (get_elem? docs_id i)
          xml ← xml_document xml query doc_id
          xml_documents fuel xml query docs_id ((i + 1) % 2 ^ 32) last
      ]

  -- Each round takes one of the documents.
  unfoldable pub make_xml : List ℕ → Bytes → ℕ → ℕ → Run Broken Bytes
  unfolding xml_documents xml_head
  make_xml docs_id query start_doc end_doc = do
    xml ←
        xml_documents (suc (length docs_id)) (xml_head (length docs_id)) query docs_id start_doc
          ((start_doc + end_doc) % 2 ^ 32)
    done (xml ++ bytes "</results>")
