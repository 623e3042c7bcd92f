-- ===== src/Listener/Server/Replies.antt =====
-- The reply to a request.
use amigos.Base.{
  ℕ, ◌+◌, ◌^◌, ◌<◌, ◌≢◌, ◌≡◌, refl, ap, ◌∙◌, arith, inl, inr, [], ◌∷◌, ◌++◌, All-append,
  append_assoc, length, take, drop, ◌==◌, if◌then◌else◌, Bool-cases, Bytes, bytes,
}
use amigos.Run.{done, ◌>>=◌, Run-cases}
use amigos.Listener.Query.{received}
use amigos.Listener.Query.RoundTrip.{request, NoQuote, parse_query-request}
use amigos.Listener.Answer.{xml_head, at_launcher}
use amigos.Listener.Answer.Page.{page_texts, make_xml-page}
use amigos.Listener.Server.{Service, search}

-- The bytes that are not zero: of a text in two-byte characters below 256 they are the text.
unfoldable pub nonzero : Bytes → Bytes
nonzero [] = []
nonzero (c ∷ buff) = let rest = nonzero buff in if c == 0 then rest else c ∷ rest

received-nonzero : (buff : Bytes) → received buff ≡ nonzero buff ++ (0 ∷ [])
unfolding received nonzero
received-nonzero [] = refl
received-nonzero (c ∷ buff) = elim (Bool-cases (c == 0)) [
  | inl is_zero ↦ rw (received, nonzero, is_zero) (received-nonzero buff)
  | inr other ↦ rw (received, nonzero, other) (ap (◌∷◌ c) (received-nonzero buff))
]

request-append :
    (text : Bytes) (start count : ℕ) (flag more : Bytes)
    → request text start count flag ++ more ≡ request text start count (flag ++ more)
request-append text start count flag more = simp append_assoc

-- On a request, between whose bytes any zeros may stand, for the documents from `start` on, at most
-- `count`, where the text may hold quotes and the flag does not, and the two numbers add up to less
-- than 2 ^ 31, `Search` runs like the launcher's calls one behind the other: `launch_searcher` on the
-- text, and `get_doc` and `get_snippets` for these of the documents it finds. It ends as the first
-- call that fails does; where none fails, it answers with the page of these documents, and the
-- launcher is the one behind the search.
pub search-request :
    {T : Type 0} (service : Service T) (launcher : service.State) (buff text : Bytes)
    (start count : ℕ) (flag : Bytes)
    → nonzero buff ≡ request text start count flag
    → NoQuote flag
    → start + count < 2 ^ 31
    → search service launcher buff ≡ (do
      (docs_id, found) ← at_launcher (service.launch_searcher launcher text [])
      texts ← at_launcher (
          page_texts
            (service.get_doc found)
            (service.get_snippets found)
            service.show_seconds
            text
            (take count (drop start docs_id)))
      done (xml_head (length docs_id) ++ (texts ++ bytes "</results>"), found))
unfolding search
search-request service launcher buff text start count flag sent quoteless small =
    let read : received buff ≡ request text start count (flag ++ (0 ∷ [])) =
      received-nonzero buff
      ∙ ap (λ b. b ++ (0 ∷ [])) sent
      ∙ request-append text start count flag (0 ∷ []) in
    let parsed =
      parse_query-request text start count (flag ++ (0 ∷ [])) (omega arith) (omega arith)
        (All-append (λ c. c ≢ b'"') flag (0 ∷ []) quoteless (omega arith, tt)) in
    elim (Run-cases (service.launch_searcher launcher text [])) [
      | inl ((docs_id, found), finds) ↦
          let page =
            make_xml-page (service.get_doc found) (service.get_snippets found) service.show_seconds
              docs_id text start count small in
          let texts =
            page_texts (service.get_doc found) (service.get_snippets found) service.show_seconds
              text (take count (drop start docs_id)) in
          rw (search, read, parsed, finds, page)
            (elim (Run-cases texts) [
              | inl (made, e) ↦ rw e refl
              | inr (inl (stop, e)) ↦ rw e refl
              | inr (inr e) ↦ rw e refl
            ])
      | inr (inl (stop, fails)) ↦ rw (search, read, parsed, fails) refl
      | inr (inr fails) ↦ rw (search, read, parsed, fails) refl
    ]
