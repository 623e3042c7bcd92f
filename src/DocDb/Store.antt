-- ===== src/DocDb/Store.antt =====
-- `getDoc` finds what `putDoc` stored.
use amigos.Base.{
  ℕ, ◌^◌, ◌<◌, ◌≡◌, ◌≢◌, ◌++◌, [], some, append_assoc, append-nil, nil-append, length, All,
}
use amigos.IndexIo.{to_bytes}
use amigos.IndexIo.Words.{
  read_from-to_bytes, array_bytes, write_array-append, read_array-array_bytes,
}
use amigos.IndexIo.RoundTrip.{write_to-append}
use amigos.DocDb.{
  Bytes, RawDoc, to_string, write_str, read_str, doc_value, read_doc, LevelDb, got, put_doc,
  get_doc,
}
use amigos.DocDb.Key.{to_string_injective}

-- A text of bytes whose length fits 32 bits.
abbrev pub FitsStr : Bytes → Type 0
FitsStr str = (length str < 256 ^ 4) × All (λ c. c < 256 ^ 1) str

pub record FitsDoc (doc : RawDoc) : Type 0 where
  pub video_id : FitsStr doc.video_id
  pub title : FitsStr doc.title
  pub subtitles : FitsStr doc.subtitles
  pub time : FitsStr doc.time

str_bytes : Bytes → Bytes
str_bytes str = to_bytes 4 (length str) ++ array_bytes 1 str

write_str-append : (os str : Bytes) → write_str os str ≡ os ++ str_bytes str
unfolding write_str str_bytes
write_str-append os str = simp (write_array-append, write_to-append, append_assoc)

read_str-str_bytes :
    (str rest : Bytes) → FitsStr str → read_str (str_bytes str ++ rest) ≡ some (str, rest)
unfolding read_str str_bytes
read_str-str_bytes str rest (n, h) = rw append_assoc (
    rw (read_from-to_bytes 4 (length str) (array_bytes 1 str ++ rest) n)
      (read_array-array_bytes 1 str rest h))

read_doc-doc_value : (doc : RawDoc) → FitsDoc doc → read_doc (doc_value doc) ≡ some doc
unfolding read_doc doc_value
read_doc-doc_value doc h =
    simp (write_str-append, append_assoc, nil-append)
      (rw (read_str-str_bytes doc.video_id _ h.video_id) (
        rw (read_str-str_bytes doc.title _ h.title) (
          rw (read_str-str_bytes doc.subtitles _ h.subtitles)
            (rw (rw append-nil at (read_str-str_bytes doc.time [] h.time))))))

-- What leveldb documents of the two calls: a key has the value last put.
pub record IsStore (level : LevelDb) : Type 0 where
  pub get-put_self : (db : level.Db) (k v : Bytes) → level.get (level.put db k v) k ≡ some v
  pub get-put_other :
      (db : level.Db) (k j v : Bytes) → k ≢ j → level.get (level.put db k v) j ≡ level.get db j

-- Over a key-value store, `getDoc` returns the document that `putDoc` stored under the same key,
-- where the texts are bytes and shorter than 2 ^ 32, and under every other 32-bit key it returns
-- what it did before.
pub get_doc-put_doc :
    (level : LevelDb) (db : level.Db) (key other : ℕ) (doc : RawDoc)
    → IsStore level
    → FitsDoc doc
    → key < 2 ^ 32
    → other < 2 ^ 32
    → key ≢ other
    → (get_doc level (put_doc level db key doc) key ≡ got doc)
      × (get_doc level (put_doc level db key doc) other ≡ get_doc level db other)
unfolding get_doc put_doc
get_doc-put_doc level db key other doc store fits hk ho ne = (
  rw (get_doc, store.get-put_self db (to_string key) (doc_value doc))
      (rw (read_doc-doc_value doc fits)),
  rw (
    get_doc,
    store.get-put_other db (to_string key) (to_string other) (doc_value doc)
        (λ e. ne (to_string_injective key other hk ho e)),
  ),
)
