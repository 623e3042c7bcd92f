-- ===== src/Listener/Answer/Page.antt =====
-- The answer shows one page of the documents, with every text escaped.
use amigos.Base.{
  ℕ, zero, suc, ◌+◌, ◌-◌, ◌%◌, ◌^◌, ◌<◌, ◌≤◌, ◌≡◌, refl, sym, ap, true, false, List, [], ◌∷◌, ◌++◌,
  some, arith, append_assoc, append-nil, length, get_elem?, take, drop, Bytes, bytes, ltb, ltb→lt,
  ltb→le, Bool-cases, inl, inr,
}
use amigos.Run.{Run, done, throws, undefined, ◌>>=◌, Run-cases}
use amigos.Searcher.{Document, Snippet}
use amigos.Searcher.Snippets.{Stopped}
use amigos.Listener.Escape.{flat_map, escape, format-escape}
use amigos.Listener.Answer.{
  less_int, int_to_size, xml_head, xml_result, xml_snippet, xml_selection, xml_selections,
  xml_snippets, xml_document, xml_documents, make_xml, at_launcher,
}

-- The texts of all elements, one behind the other.
unfoldable pub concat_map {ℓ} : {A : Type ℓ} → (A → Bytes) → List A → Bytes
concat_map f [] = []
concat_map f (x ∷ xs) = f x ++ concat_map f xs

xml_selections-concat_map :
    (xml : Bytes) (selections : List (ℕ × ℕ))
    → xml_selections xml selections ≡ xml ++ concat_map xml_selection selections
unfolding xml_selections concat_map
xml_selections-concat_map xml [] = sym (append-nil xml)
xml_selections-concat_map xml (s ∷ selections) =
    rw (xml_selections-concat_map (xml ++ xml_selection s) selections, append_assoc)

page-nil : (i n : ℕ) (docs_id : List ℕ) → length docs_id ≤ i → take n (drop i docs_id) ≡ []
page-nil i zero docs_id h = refl
page-nil zero (suc n) [] h = refl
page-nil zero (suc n) (d ∷ docs_id) h = absurd (omega arith)
page-nil (suc i) (suc n) [] h = refl
page-nil (suc i) (suc n) (d ∷ docs_id) h = page-nil i (suc n) docs_id (omega arith)

page-cons :
    (i n : ℕ) (docs_id : List ℕ)
    → i < length docs_id
    → (d : ℕ) × (get_elem? docs_id i ≡ some d)
      × (take (suc n) (drop i docs_id) ≡ d ∷ take n (drop (suc i) docs_id))
page-cons i n [] h = absurd (omega arith)
page-cons zero n (d ∷ docs_id) h = (d, refl, refl)
page-cons (suc i) n (d ∷ docs_id) h = page-cons i n docs_id (omega arith)

less_int-true : (a b : ℕ) → a < b → b < 2 ^ 31 → less_int a b ≡ true
unfolding less_int
less_int-true a b h k = ground (arith)

less_int-false : (a b : ℕ) → b ≤ a → a < 2 ^ 31 → less_int a b ≡ false
unfolding less_int
less_int-false a b h k = ground (arith)

int_to_size_small : (i : ℕ) → i < 2 ^ 31 → int_to_size i ≡ i
unfolding int_to_size
int_to_size_small i h = ground arith

module _ {D : Type 0} (get_doc : ℕ → Run Stopped Document)
    (get_snippets : Bytes → ℕ → List (Snippet D) → ℕ → Run Stopped (List (Snippet D)))
    (show_seconds : D → Bytes) where
  -- A snippet, and a document with its snippets; the texts are escaped, the video's id is not.
  pub snippet_text : Snippet D → Bytes
  snippet_text s =
      xml_snippet (flat_map escape s.subtitle.0) (show_seconds s.subtitle.1)
      ++ (concat_map xml_selection s.selections ++ bytes "\t\t</snippet>\n")

  pub document_text : Document → List (Snippet D) → Bytes
  document_text doc snippets =
      xml_result doc.video_id (flat_map escape doc.title)
      ++ (concat_map snippet_text snippets ++ bytes "\t </result>")

  -- The texts of documents, each with its three best snippets; the first call that fails ends it.
  pub document_of : Bytes → ℕ → Run Stopped Bytes
  document_of query doc_id = do
    doc ← get_doc doc_id
    snippets ← get_snippets query doc.doc_id [] 3
    done (document_text doc snippets)

  unfoldable pub page_texts : Bytes → List ℕ → Run Stopped Bytes
  unfolding document_of
  page_texts query [] = done []
  page_texts query (doc_id ∷ docs_id) = do
    text ← document_of query doc_id
    texts ← page_texts query docs_id
    done (text ++ texts)

  xml_snippets-concat_map :
      (xml : Bytes) (snippets : List (Snippet D))
      → xml_snippets get_doc get_snippets show_seconds xml snippets
        ≡ done (xml ++ concat_map snippet_text snippets)
  unfolding xml_snippets concat_map snippet_text
  xml_snippets-concat_map xml [] = ap done (sym (append-nil xml))
  xml_snippets-concat_map xml (s ∷ snippets) = rw ((format-escape s.subtitle.0).0) (
      rw
        (
          xml_snippets-concat_map
              (xml_selections
                  (xml ++ xml_snippet (flat_map escape s.subtitle.0) (show_seconds s.subtitle.1))
                  s.selections
                ++ bytes "\t\t</snippet>\n")
              snippets,
          xml_selections-concat_map,
        )
        (simp append_assoc))

  xml_document-document_of :
      (xml query : Bytes) (doc_id : ℕ)
      → xml_document get_doc get_snippets show_seconds xml query doc_id
        ≡ (do text ← at_launcher (document_of query doc_id); done (xml ++ text))
  unfolding xml_document document_of document_text
  xml_document-document_of xml query doc_id = elim (Run-cases (get_doc doc_id)) [
    | inl (doc, found) ↦
        let title = (format-escape doc.title).0 in
        elim (Run-cases (get_snippets query doc.doc_id [] 3)) [
          | inl (snippets, best) ↦
              rw (found, title, best, xml_snippets-concat_map) (simp append_assoc)
          | inr (inl (e, failed)) ↦ rw (found, title, failed) refl
          | inr (inr failed) ↦ rw (found, title, failed) refl
        ]
    | inr (inl (e, failed)) ↦ rw failed refl
    | inr (inr failed) ↦ rw failed refl
  ]

  texts_append :
      (xml text : Bytes) (rest : Run Stopped Bytes)
      → (do texts ← at_launcher rest; done ((xml ++ text) ++ texts))
        ≡ (do texts ← at_launcher (do texts ← rest; done (text ++ texts)); done (xml ++ texts))
  texts_append xml text (done texts) = simp append_assoc
  texts_append xml text (throws e) = refl
  texts_append xml text undefined = refl

  xml_documents-page :
      (fuel : ℕ) (xml query : Bytes) (docs_id : List ℕ) (i n : ℕ)
      → i + n < 2 ^ 31
      → length docs_id - i < fuel
      → xml_documents get_doc get_snippets show_seconds fuel xml query docs_id i (i + n)
        ≡ (do texts ← at_launcher (page_texts query (take n (drop i docs_id))); done (xml ++ texts))
  unfolding xml_documents page_texts
  xml_documents-page zero xml query docs_id i n h f = absurd (omega arith)
  xml_documents-page (suc fuel) xml query docs_id i zero h f =
      let stop : less_int i (i + 0) ≡ false =
        less_int-false i (i + 0) (omega arith) (omega arith) in
      rw (xml_documents, stop) (ap done (sym (append-nil xml)))
  xml_documents-page (suc fuel) xml query docs_id i (suc n) h f =
      let go : less_int i (i + suc n) ≡ true =
        less_int-true i (i + suc n) (omega arith) (omega arith) in
      elim (Bool-cases (ltb i (length docs_id))) [
        | inl inside ↦
            let (d, found, page) = page-cons i n docs_id (ltb→lt i (length docs_id) inside) in
            let next : (i + 1) % 2 ^ 32 ≡ i + 1 = omega arith in
            let last : i + suc n ≡ i + 1 + n = omega arith in
            let row : suc i ≡ i + 1 = omega arith in
            let rest = page_texts query (take n (drop (i + 1) docs_id)) in
            rw (xml_documents, go, int_to_size_small i (omega arith), inside, found)
              (rw (xml_document-document_of, page, next, last, row)
                (elim (Run-cases (document_of query d)) [
                  | inl (text, made) ↦
                      rw
                        (
                          made,
                          xml_documents-page fuel (xml ++ text) query docs_id (i + 1) n
                              (omega arith) (omega (arith, ltb→lt i (length docs_id) inside)),
                        )
                        (texts_append xml text rest)
                  | inr (inl (e, failed)) ↦ rw failed refl
                  | inr (inr failed) ↦ rw failed refl
                ]))
        | inr outside ↦
            rw
              (
                xml_documents,
                go,
                int_to_size_small i (omega arith),
                outside,
                page-nil i (suc n) docs_id (ltb→le i (length docs_id) outside),
              )
              (ap done (sym (append-nil xml)))
      ]

  -- Where the first document and the number of documents add up to less than 2 ^ 31, `MakeXml` runs
  -- like the calls of `get_doc` and `get_snippets` for the documents of the page, one document behind
  -- the other, which are `end_doc` many from the one with index `start_doc` on or as many as there
  -- are: it ends as the first call that fails does, and where none fails, it returns the head with the
  -- number of all results, the texts of these documents and the end tag. The titles and the snippets
  -- are escaped.
  pub make_xml-page :
      (docs_id : List ℕ) (query : Bytes) (start_doc end_doc : ℕ)
      → start_doc + end_doc < 2 ^ 31
      → make_xml get_doc get_snippets show_seconds docs_id query start_doc end_doc ≡ (do
        texts ← at_launcher (page_texts query (take end_doc (drop start_doc docs_id)))
        done (xml_head (length docs_id) ++ (texts ++ bytes "</results>")))
  unfolding make_xml
  make_xml-page docs_id query start_doc end_doc h =
      let last : (start_doc + end_doc) % 2 ^ 32 ≡ start_doc + end_doc = omega arith in
      let page = page_texts query (take end_doc (drop start_doc docs_id)) in
      rw
        (
          last,
          xml_documents-page (suc (length docs_id)) (xml_head (length docs_id)) query docs_id
              start_doc end_doc h (omega arith),
        )
        (elim (Run-cases page) [
          | inl (texts, made) ↦ rw made (simp append_assoc)
          | inr (inl (e, failed)) ↦ rw failed refl
          | inr (inr failed) ↦ rw failed refl
        ])
