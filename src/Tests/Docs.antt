-- ===== src/Tests/Docs.antt =====
-- The document database and the escaping of the listener.
use amigos.Base.{
  text_eq, text_eq_self, text_eq-other, ℕ, ◌≡◌, refl, [], ◌∷◌, Option, some, none, arith, All,
  if◌then◌else◌,
}
use amigos.DocDb.{Bytes, RawDoc, LevelDb, got, put_doc, get_doc, get_phrases}
use amigos.DocDb.Store.{FitsDoc, IsStore, get_doc-put_doc}
use amigos.DocDb.Phrases.{unlines, paired, get_phrases-paired}
use amigos.Listener.{format, replace_substring}
use amigos.Listener.Escape.{flat_map, escape, IsPlain, format-escape}

-- A store that is a function from keys to values.
abbrev level : LevelDb
level = record {
  Db = Bytes → Option Bytes;
  get = λ db k. db k;
  put = λ db k v j. if text_eq k j then some v else db j;
}

level-IsStore : IsStore level
level-IsStore = record {
  get-put_self = λ db k v. rw (text_eq_self k);
  get-put_other = λ db k j v h. rw (text_eq-other k j h);
}

abbrev doc : RawDoc
doc = record {
  title = b'T' ∷ [];
  video_id = b'x' ∷ b'y' ∷ [];
  subtitles = b'h' ∷ b'i' ∷ b'\n' ∷ b'\n' ∷ [];
  time = b'0' ∷ b'\n' ∷ b'7' ∷ b'\n' ∷ [];
}

doc-FitsDoc : FitsDoc doc
doc-FitsDoc = record {
  video_id = omega arith;
  title = omega arith;
  subtitles = omega arith;
  time = omega arith;
}

get_doc-put_doc_example :
    (get_doc level (put_doc level (λ k. none) 3000000000 doc) 3000000000 ≡ got doc)
    × (get_doc level (put_doc level (λ k. none) 3000000000 doc) 30 ≡ get_doc level (λ k. none) 30)
get_doc-put_doc_example =
    get_doc-put_doc level (λ k. none) 3000000000 30 doc level-IsStore doc-FitsDoc (omega arith)
      (omega arith) (omega arith)

-- A number of one digit.
digit : Bytes → Option ℕ
digit [] = none
digit (c ∷ str) = some c

get_phrases-paired_example :
    get_phrases digit 0 doc []
    ≡ paired digit 0 ((b'h' ∷ b'i' ∷ []) ∷ [] ∷ []) ((b'0' ∷ []) ∷ (b'7' ∷ []) ∷ []) []
unfolding unlines
get_phrases-paired_example =
    get_phrases-paired digit 0 ((b'h' ∷ b'i' ∷ []) ∷ [] ∷ []) ((b'0' ∷ []) ∷ (b'7' ∷ []) ∷ []) doc
      [] (omega arith) (omega arith) refl refl

format-escape_example :
    (format (b'a' ∷ b'<' ∷ b'&' ∷ []) ≡ some (flat_map escape (b'a' ∷ b'<' ∷ b'&' ∷ [])))
    × All IsPlain (flat_map escape (b'a' ∷ b'<' ∷ b'&' ∷ []))
format-escape_example = format-escape (b'a' ∷ b'<' ∷ b'&' ∷ [])

format_test :
    format (b'a' ∷ b'<' ∷ b'&' ∷ [])
    ≡ some (b'a' ∷ b'&' ∷ b'l' ∷ b't' ∷ b';' ∷ b'&' ∷ b'a' ∷ b'm' ∷ b'p' ∷ b';' ∷ [])
unfolding format replace_substring
format_test = refl
