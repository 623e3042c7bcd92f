-- ===== src/DocDb.antt =====
-- `DocDatabase` and `RawDoc` of projects/indexer/src/index_struct.cpp: the documents' texts, in a
-- key-value store. A text is the list of its bytes.
pub mod Key
pub mod Store
pub mod Phrases
use amigos.Base.{
  text_eq, bytes, ℕ, zero, suc, ◌+◌, ◌*◌, ◌/◌, ◌%◌, Bool, true, false, List, [], ◌∷◌, ◌++◌, Option,
  none, some, ltb, ◌==◌, if◌then◌else◌, ◌>>=◌, length,
}
pub use amigos.Base.{Bytes}
use amigos.IndexIo.{write_to, write_array, read_from, read_array}

pub record RawDoc : Type 0 where
  pub title : Bytes
  pub video_id : Bytes
  pub subtitles : Bytes
  pub time : Bytes

-- `zones[key]`: a missing key is added with an empty text.
unfoldable pub zone_text : List (Bytes × Bytes) → Bytes → Bytes × List (Bytes × Bytes)
zone_text [] key = ([], (key, []) ∷ [])
zone_text ((k, v) ∷ zones) key =
    let (text, rest) = zone_text zones key in
    if text_eq k key then (v, (k, v) ∷ zones) else (text, (k, v) ∷ rest)

-- `RawDoc(zones)`: the document, and what the map is behind it.
unfoldable pub raw_doc : List (Bytes × Bytes) → RawDoc × List (Bytes × Bytes)
unfolding zone_text
raw_doc zones =
    let (title, zones1) = zone_text zones (bytes "title") in
    let (subtitles, zones2) = zone_text zones1 (bytes "en_sub") in
    let (time, zones3) = zone_text zones2 (bytes "en_sub_time") in
    let (video_id, zones4) = zone_text zones3 (bytes "video_id") in
    (record { title = title; video_id = video_id; subtitles = subtitles; time = time }, zones4)

-- `std::to_string` of a number below 10 ^ fuel, in decimal digits.
unfoldable pub to_string_fuel : ℕ → ℕ → Bytes
to_string_fuel zero n = []
to_string_fuel (suc fuel) n = elim (ltb n 10) [
  | true ↦ (48 + n) ∷ []
  | false ↦ to_string_fuel fuel (n / 10) ++ ((48 + n % 10) ∷ [])
]

-- A `uint32_t` has at most ten digits.
unfoldable pub to_string : ℕ → Bytes
unfolding to_string_fuel
to_string = to_string_fuel 10

unfoldable pub write_str : Bytes → Bytes → Bytes
write_str os str = write_array 1 (write_to 4 os (length str)) str

unfoldable pub read_str : Bytes → Option (Bytes × Bytes)
read_str is = do (size, is) ← read_from 4 is; read_array 1 size is

-- What `putDoc` hands to the store.
unfoldable pub doc_value : RawDoc → Bytes
doc_value doc =
    write_str (write_str (write_str (write_str [] doc.video_id) doc.title) doc.subtitles) doc.time

-- What `getDoc` makes of a value of the store; `none` is a value that ends too early.
unfoldable pub read_doc : Bytes → Option RawDoc
read_doc value = do
  (video_id, iss) ← read_str value
  (title, iss) ← read_str iss
  (subtitles, iss) ← read_str iss
  (time, iss) ← read_str iss
  some (record { title = title; video_id = video_id; subtitles = subtitles; time = time })

-- leveldb, by the calls that the code makes: `Get` with its status, and `Put`, whose status is
-- not looked at.
pub record LevelDb : Type 1 where
  pub Db : Type 0
  pub get : Db → Bytes → Option Bytes
  pub put : Db → Bytes → Bytes → Db

-- `getDoc`: false, or true with the document. `too_short` is a value that ends before its four
-- texts do; what the code makes of it is left out.
pub data Got : Type 0 where
  missing : Got
  got : RawDoc → Got
  too_short : Got

module _ (level : LevelDb) where
  open level use {Db, get, put}

  unfoldable pub put_doc : Db → ℕ → RawDoc → Db
  put_doc db key doc = put db (to_string key) (doc_value doc)

  unfoldable pub get_doc : Db → ℕ → Got
  get_doc db key = elim (get db (to_string key)) [
    | none ↦ missing
    | some value ↦ elim (read_doc value) [ none ↦ too_short | some doc ↦ got doc ]
  ]

-- `std::getline`: the bytes up to a newline, which is taken too; `none` at the end of the text.
unfoldable pub split_line : Bytes → Bytes × Bytes
split_line [] = ([], [])
split_line (c ∷ text) =
    let (line, rest) = split_line text in if c == b'\n' then ([], text) else (c ∷ line, rest)

unfoldable pub getline : Bytes → Option (Bytes × Bytes)
unfolding split_line
getline [] = none
getline (c ∷ text) = some (split_line (c ∷ text))

-- What `getPhrases` ends with. `bad_number` is the exception of `std::stod`; `out_of_fuel` is no
-- behaviour of the code. What `res` holds behind an exception is left out.
pub data PhrasesResult (D : Type 0) : Type 0 where
  phrases : List (Bytes × D) → PhrasesResult D
  less_time_items : PhrasesResult D
  more_time_items : PhrasesResult D
  bad_number : PhrasesResult D
  out_of_fuel : PhrasesResult D

module _ {D : Type 0} (stod : Bytes → Option D) (nought : D) where
  -- One round pushes a phrase before it looks for a line, and fills it where there is one.
  pub phrases_loop : ℕ → Bytes → Bytes → List (Bytes × D) → PhrasesResult D
  phrases_loop zero subs times res = out_of_fuel
  phrases_loop (suc fuel) subs times res = elim (getline subs) [
    | none ↦ elim (getline times) [
      | none ↦ phrases (res ++ (([], nought) ∷ []))
      | some _ ↦ more_time_items
    ]
    | some (line, subs') ↦ elim (getline times) [
      | none ↦ less_time_items
      | some (number, times') ↦ elim (stod number) [
        | none ↦ bad_number
        | some d ↦ phrases_loop fuel subs' times' (res ++ ((line, d) ∷ []))
      ]
    ]
  ]

  -- Each round takes a byte of the subtitles at least.
  unfoldable pub get_phrases : RawDoc → List (Bytes × D) → PhrasesResult D
  unfolding phrases_loop getline
  get_phrases doc res = phrases_loop (suc (length doc.subtitles)) doc.subtitles doc.time res
