-- ===== src/Searcher/Search/Words.antt =====
-- Every document that a search finds has all words of the query.
use mathlib.Core.Option.{some-injective, none-ne-some}
use amigos.Base.{
  ℕ, ◌^◌, ◌-◌, ◌≡◌, refl, ap, sym, ◌∙◌, true, List, [], ◌∷◌, ◌++◌, Option, none, some, inl, inr,
  All, All-mono, append-nil, bind-eq-some, Bool-cases, Option-cases, get_elem?, length, ltb, Bytes,
  ◌==◌,
}
use amigos.Entry.{Entry}
use amigos.IndexIo.{IStream, seekg, on_stream, read_entries}
use amigos.InvIndex.{InvIdxItem, get_entries, find_tkn_idx}
use amigos.Intersect.Order.{Ascending}
use amigos.Intersect.Rows.{has_doc, InAll}
use amigos.Searcher.Index.{Engine, InvertIndex}
use amigos.Searcher.Search.{find_tokens, rank_documents, search}
use amigos.Searcher.Search.Finds.{Permutes, IsStored, rank_documents-All}

-- The two outcomes of the loop differ.
none-found :
    {A B : Type 0} (b c : B) (a : A)
    → ◌≡◌ {A = Option (Option A × B)} (some (none, b)) (some (some a, c))
    → ⊥
none-found {A} {B} b c a h = none-ne-some a (ap (λ (p : Option A × B). p.0) (some-injective _ _ h))

lists_of :
    {A B C : Type 0} (a x : A) (b y : B) (c z : C)
    → ◌≡◌ {A = Option (Option (A × B) × C)} (some (some (a, b), c)) (some (some (x, y), z))
    → b ≡ y
lists_of {A} {B} {C} a x b y c z h =
    let first = ap (λ (p : Option (A × B) × C). p.0) (some-injective _ _ h) in
    ap (λ (p : A × B). p.1) (some-injective _ _ first)

result_of :
    {A B : Type 0} (a x : A) (b y : B)
    → ◌≡◌ {A = Option (A × B)} (some (a, b)) (some (x, y))
    → a ≡ x
result_of {A} {B} a x b y h = ap (λ (p : A × B). p.0) (some-injective _ _ h)

file-seekg : (ifs at : IStream) (pos : ℕ) → seekg ifs pos ≡ some at → at.file ≡ ifs.file
unfolding seekg
file-seekg ifs at pos h = elim (Bool-cases (ltb (length ifs.file) pos)) [
  | inl beyond ↦ cc (rw (seekg, beyond) at h)
  | inr inside ↦ ap (λ (s : IStream). s.file) (sym (some-injective _ _ (rw (seekg, inside) at h)))
]

file-on_stream :
    {A : Type 0} (r : List ℕ → Option (A × List ℕ)) (ifs behind : IStream) (a : A)
    → on_stream r ifs ≡ some (a, behind)
    → behind.file ≡ ifs.file
unfolding on_stream
file-on_stream {A} r ifs behind a h =
    let ((b, rest), e, h1) = bind-eq-some (r ifs.rest) _ h in
    ap (λ (p : A × IStream). p.1.file) (sym (some-injective _ _ h1))

module _ (engine : Engine) where
  open engine use {murmur_hash2}

  -- `es` is what the index file has for a token.
  pub record Reads (index : InvertIndex engine.doubles.D engine.level.Db) (token : Bytes)
      (es : List Entry) : Type 0 where
    pub tkn_idx : ℕ
    pub ifs : IStream
    pub behind : IStream
    pub found : find_tkn_idx index.inv_idx (murmur_hash2 token) ≡ some tkn_idx
    pub same_file : ifs.file ≡ index.inv_idx_stream.file
    pub read : get_entries index.inv_idx ifs tkn_idx [] ≡ some (es, behind)

  file-get_entries :
      {D : Type 0} (inv_idx : List (InvIdxItem D)) (ifs behind : IStream) (tkn : ℕ)
      (es : List Entry)
      → get_entries inv_idx ifs tkn [] ≡ some (es, behind)
      → behind.file ≡ ifs.file
  unfolding get_entries
  file-get_entries inv_idx ifs behind tkn es h =
      let (item, e, h1) = bind-eq-some (get_elem? inv_idx tkn) _ h in
      let (at, e2, h2) = bind-eq-some (seekg ifs item.offset) _ h1 in
      file-on_stream (read_entries []) at behind es h2 ∙ file-seekg ifs at item.offset e2

  -- The lists that the loop collects are those of the tokens.
  pub data AllRead (index : InvertIndex engine.doubles.D engine.level.Db)
      : List Bytes → List (List Entry) → Type 0 where
    nil : AllRead index [] []
    cons :
        {token : Bytes} {tokens : List Bytes} {es : List Entry} {by_token : List (List Entry)}
        → Reads index token es
        → AllRead index tokens by_token
        → AllRead index (token ∷ tokens) (es ∷ by_token)

  find_tokens-AllRead :
      (index : InvertIndex engine.doubles.D engine.level.Db) (ifs behind : IStream)
      (tokens : List Bytes) (idfs : List engine.doubles.D) (by_token : List (List Entry))
      → ifs.file ≡ index.inv_idx_stream.file
      → find_tokens engine index.inv_idx ifs tokens ≡ some (some (idfs, by_token), behind)
      → AllRead index tokens by_token
  unfolding find_tokens
  find_tokens-AllRead index ifs behind [] idfs by_token same h =
      let e : ◌≡◌ {A = List (List Entry)} [] by_token = cc in rw (← e) nil
  find_tokens-AllRead index ifs behind (token ∷ tokens) idfs by_token same h =
      let (tkn, e, h1) = bind-eq-some (find_tkn_idx index.inv_idx (murmur_hash2 token)) _ h in
      elim (Bool-cases (tkn == 2 ^ 32 - 1)) [
        | inl unexisting ↦ absurd (none-found ifs behind (idfs, by_token) (rw unexisting at h1))
        | inr there ↦
            let h2 = rw there at h1 in
            let (item, e2, h3) = bind-eq-some (get_elem? index.inv_idx tkn) _ h2 in
            let ((es, moved), e3, h4) = bind-eq-some (get_entries index.inv_idx ifs tkn []) _ h3 in
            let ((found, last), e4, h5) =
              bind-eq-some (find_tokens engine index.inv_idx moved tokens) _ h4 in
            let moved_same = file-get_entries index.inv_idx ifs moved tkn es e3 ∙ same in
            elim (Option-cases found) [
              | inl none_found ↦
                  absurd (none-found last behind (idfs, by_token) (rw none_found at h5))
              | inr ((more_idfs, more), some_found) ↦
                  let h6 = rw some_found at h5 in
                  let list = lists_of _ idfs (es ∷ more) by_token last behind h6 in
                  let rest =
                    find_tokens-AllRead index moved last tokens more_idfs more moved_same
                      (e4 ∙ ap (λ f. some (f, last)) some_found) in
                  rw (← list) (
                    cons
                      (record {
                        tkn_idx = tkn;
                        ifs = ifs;
                        behind = moved;
                        found = e;
                        same_file = same;
                        read = e3;
                      })
                      rest)
            ]
      ]

  -- The index has an entry for this token and the place of a document.
  abbrev pub HasToken : InvertIndex engine.doubles.D engine.level.Db → ℕ → Bytes → Type 0
  HasToken index ofs token = (es : List Entry) × Reads index token es × (has_doc ofs es ≡ true)

  AllRead-HasToken :
      (index : InvertIndex engine.doubles.D engine.level.Db) (ofs : ℕ) (tokens : List Bytes)
      (by_token : List (List Entry))
      → AllRead index tokens by_token
      → InAll by_token ofs
      → All (HasToken index ofs) tokens
  AllRead-HasToken index ofs [] [] nil h = tt
  AllRead-HasToken index ofs [] (es ∷ by_token) reads h = elim reads [ ]
  AllRead-HasToken index ofs (token ∷ tokens) [] reads h = elim reads [ ]
  AllRead-HasToken index ofs (token ∷ tokens) (es ∷ by_token) (cons r rs) (h, hs) =
      ((es, r, h), AllRead-HasToken index ofs tokens by_token rs hs)

  AllRead-Ascending :
      (index : InvertIndex engine.doubles.D engine.level.Db) (tokens : List Bytes)
      (by_token : List (List Entry))
      → ((token : Bytes) (es : List Entry) → Reads index token es → Ascending es)
      → AllRead index tokens by_token
      → All Ascending by_token
  AllRead-Ascending index [] [] sorted nil = tt
  AllRead-Ascending index [] (es ∷ by_token) sorted reads = elim reads [ ]
  AllRead-Ascending index (token ∷ tokens) [] sorted reads = elim reads [ ]
  AllRead-Ascending index (token ∷ tokens) (es ∷ by_token) sorted (cons r rs) =
      (sorted token es r, AllRead-Ascending index tokens by_token sorted rs)

  -- Where the index file has the entries of each token in ascending order, and the ranker's sorts
  -- permute, a search that returns puts documents behind `docsId` each of which has, at its place in
  -- the document storage, an entry for every token of the query in the index file.
  pub search-HasToken :
      (index after : InvertIndex engine.doubles.D engine.level.Db) (tokens : List Bytes)
      (docs_id res : List ℕ)
      → Permutes (λ A cmp xs. engine.doubles.sort cmp xs)
      → Permutes (λ A cmp xs. engine.bands.sort cmp xs)
      → ((token : Bytes) (es : List Entry) → Reads index token es → Ascending es)
      → search engine index tokens docs_id ≡ some (res, after)
      → (docs : List ℕ) × (res ≡ docs_id ++ docs)
        × All (IsStored index.doc_store (λ ofs. All (HasToken index ofs) tokens)) docs
  unfolding search
  search-HasToken index after tokens docs_id res draft_sort bands_sort sorted h =
      let ((found, ifs), e, h1) =
        bind-eq-some (find_tokens engine index.inv_idx index.inv_idx_stream tokens) _ h in
      elim (Option-cases found) [
        | inl none_found ↦
            let same = result_of _ _ _ _ (rw none_found at h1) in
            ([], sym same ∙ sym (append-nil docs_id), tt)
        | inr ((idfs, by_token), some_found) ↦
            let moved : InvertIndex engine.doubles.D engine.level.Db = record index {
              inv_idx_stream = ifs;
            } in
            let h2 = rw some_found at h1 in
            let (docs, e2, h3) = bind-eq-some (rank_documents engine moved idfs by_token) _ h2 in
            let reads =
              find_tokens-AllRead index index.inv_idx_stream ifs tokens idfs by_token refl
                (e ∙ ap (λ f. some (f, ifs)) some_found) in
            let all =
              rank_documents-All engine draft_sort bands_sort moved idfs by_token docs
                (AllRead-Ascending index tokens by_token sorted reads) e2 in
            (
              docs,
              sym (result_of _ _ _ _ h3),
              All-mono _ _ docs
                  (λ d (ofs, stored, in_all).
                    (ofs, stored, AllRead-HasToken index ofs tokens by_token reads in_all))
                  all,
            )
      ]
