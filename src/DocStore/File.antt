-- ===== src/DocStore/File.antt =====
-- The file of the document storage: what `_load` makes of what `~DynDocStorage` wrote.
use amigos.Base.{
  ℕ, ◌%◌, zero, suc, ◌+◌, ◌^◌, ◌<◌, ◌≡◌, refl, ap, sym, ◌∙◌, List, [], ◌∷◌, ◌++◌, some, arith,
  length, append_assoc, append-nil, All, true, false, leb, le→ltb, ==_iff, take_self, resize,
  replicate, length-replicate,
}
use amigos.IndexIo.{to_bytes}
use amigos.IndexIo.Words.{
  read_from-to_bytes, array_bytes, write_array-append, read_array-array_bytes,
}
use amigos.DocStore.{
  DocStorage, ok, save, load, load_rows, write_column, write_columns, read_column, read_columns,
  fresh, open_store,
}
use amigos.DocStore.Rows.{IsLevel}

-- The numbers fit the widths at which the file stores them.
pub record FitsFile (s : DocStorage) : Type 0 where
  pub ids : All (λ v. v < 256 ^ 4) s.doc_ids
  pub nums : All (λ col. All (λ v. v < 256 ^ 4) col) s.n_zones
  pub texts : All (λ col. All (λ v. v < 256 ^ 2) col) s.t_zones_w_cnt
  pub num_count : length s.n_zones < 256 ^ 4
  pub text_count : length s.t_zones_w_cnt < 256 ^ 4

abbrev columns_bytes : ℕ → List (List ℕ) → List ℕ
columns_bytes w [] = []
columns_bytes w (col ∷ cols) = array_bytes w col ++ columns_bytes w cols

-- What the file of a level storage holds.
file_bytes : DocStorage → List ℕ
file_bytes s =
    to_bytes 4 (length s.n_zones)
    ++ (to_bytes 4 (length s.t_zones_w_cnt)
        ++ (to_bytes 4 (length s.doc_ids)
            ++ (array_bytes 4 s.doc_ids
                ++ (columns_bytes 4 s.n_zones ++ columns_bytes 2 s.t_zones_w_cnt))))

write_column-append :
    (w n : ℕ) (ofs col : List ℕ)
    → length col ≡ n
    → write_column w n ofs col ≡ some (ofs ++ array_bytes w col)
unfolding write_column
write_column-append w n ofs col e = rw (
  le→ltb (length col) n (omega arith),
  take_self n col (omega arith),
  write_array-append w ofs col,
)

write_columns-append :
    (w n : ℕ) (ofs : List ℕ) (cols : List (List ℕ))
    → All (λ col. length col ≡ n) cols
    → write_columns w n ofs cols ≡ some (ofs ++ columns_bytes w cols)
unfolding write_columns
write_columns-append w n ofs [] h = ap some (sym (append-nil ofs))
write_columns-append w n ofs (col ∷ cols) (h, hs) =
    rw (write_column-append w n ofs col h)
      (write_columns-append w n (ofs ++ array_bytes w col) cols hs ∙ rw append_assoc)

save_lem : (s : DocStorage) → IsLevel s → length s.doc_ids < 2 ^ 32 → save s ≡ some (file_bytes s)
unfolding save file_bytes
save_lem s l few =
    let count : length s.doc_ids % 2 ^ 32 ≡ length s.doc_ids = omega arith in
    rw (save, count)
      (rw (write_column-append 4 (length s.doc_ids) _ s.doc_ids refl) (
        rw (write_columns-append 4 (length s.doc_ids) _ s.n_zones l.num_level) (
          rw (write_columns-append 2 (length s.doc_ids) _ s.t_zones_w_cnt l.text_level)
            (rw append_assoc))))

-- Each column of `cols` behind the column of `olds` with the same index.
abbrev pub extend : List (List ℕ) → List (List ℕ) → List (List ℕ)
extend [] cols = []
extend (old ∷ olds) [] = old ∷ olds
extend (old ∷ olds) (col ∷ cols) = (old ++ col) ∷ extend olds cols

resize_self {ℓ} : {A : Type ℓ} (d : A) (n : ℕ) (xs : List A) → length xs ≡ n → resize n d xs ≡ xs
unfolding resize
resize_self d zero [] h = refl
resize_self d zero (x ∷ xs) h = absurd (omega arith)
resize_self d (suc n) [] h = absurd (omega arith)
resize_self d (suc n) (x ∷ xs) h = ap (◌∷◌ x) (resize_self d n xs (omega arith))

read_column-array_bytes :
    (w n m : ℕ) (old col rest : List ℕ)
    → length old ≡ n
    → length col ≡ m
    → All (λ v. v < 256 ^ w) col
    → read_column w n m old (array_bytes w col ++ rest) ≡ some (old ++ col, rest)
unfolding read_column
read_column-array_bytes w n m old col rest e c h =
    rw (← c) (rw (read_array-array_bytes w col rest h) (rw (resize_self 0 n old e)))

read_columns-columns_bytes :
    (w n m : ℕ) (olds cols : List (List ℕ)) (rest : List ℕ)
    → length olds ≡ length cols
    → All (λ old. length old ≡ n) olds
    → All (λ col. length col ≡ m) cols
    → All (λ col. All (λ v. v < 256 ^ w) col) cols
    → read_columns w n m olds (columns_bytes w cols ++ rest) ≡ some (extend olds cols, rest)
unfolding read_columns
read_columns-columns_bytes w n m [] [] rest e ho hc hf = refl
read_columns-columns_bytes w n m [] (col ∷ cols) rest e ho hc hf = absurd (omega arith)
read_columns-columns_bytes w n m (old ∷ olds) [] rest e ho hc hf = absurd (omega arith)
read_columns-columns_bytes w n m (old ∷ olds) (col ∷ cols) rest e (ho, hos) (hc, hcs) (hf, hfs) =
    rw (append_assoc (array_bytes w col) (columns_bytes w cols) rest) (
      rw (read_column-array_bytes w n m old col _ ho hc hf)
        (rw (read_columns-columns_bytes w n m olds cols rest (omega arith) hos hcs hfs)))

-- `s` with the documents of `t` behind its own.
abbrev pub merged : DocStorage → DocStorage → DocStorage
merged s t = record {
  doc_ids = s.doc_ids ++ t.doc_ids;
  n_zones = extend s.n_zones t.n_zones;
  t_zones_w_cnt = extend s.t_zones_w_cnt t.t_zones_w_cnt;
}

load_rows-merged :
    (s t : DocStorage)
    → IsLevel s
    → IsLevel t
    → FitsFile t
    → length s.n_zones ≡ length t.n_zones
    → length s.t_zones_w_cnt ≡ length t.t_zones_w_cnt
    → length s.doc_ids + length t.doc_ids < 2 ^ 32
    → load_rows s (length s.doc_ids) (
        to_bytes 4 (length t.doc_ids)
        ++ (array_bytes 4 t.doc_ids
            ++ (columns_bytes 4 t.n_zones ++ columns_bytes 2 t.t_zones_w_cnt)))
      ≡ some (merged s t)
unfolding load_rows
load_rows-merged s t ls lt ft en et n =
    rw (read_from-to_bytes 4 (length t.doc_ids) _ (omega arith)) (
      rw (fits) (
        rw
          (read_column-array_bytes 4 (length s.doc_ids) (length t.doc_ids) s.doc_ids t.doc_ids _
            refl refl ft.ids)
          (rw
            (read_columns-columns_bytes 4 (length s.doc_ids) (length t.doc_ids) s.n_zones t.n_zones
              _ en ls.num_level lt.num_level ft.nums)
            (rw (texts)))))
  where
    fits : leb (2 ^ 32) (length s.doc_ids + length t.doc_ids) ≡ false
    fits = ground arith

    texts :
        read_columns 2
          (length s.doc_ids)
          (length t.doc_ids)
          s.t_zones_w_cnt
          (columns_bytes 2 t.t_zones_w_cnt)
        ≡ some (extend s.t_zones_w_cnt t.t_zones_w_cnt, [])
    texts = rw append-nil at (
        read_columns-columns_bytes 2 (length s.doc_ids) (length t.doc_ids) s.t_zones_w_cnt
          t.t_zones_w_cnt [] et ls.text_level lt.text_level ft.texts)

load-file_bytes :
    (s t : DocStorage)
    → IsLevel s
    → IsLevel t
    → FitsFile t
    → length s.n_zones ≡ length t.n_zones
    → length s.t_zones_w_cnt ≡ length t.t_zones_w_cnt
    → length s.doc_ids + length t.doc_ids < 2 ^ 32
    → load s true (some (file_bytes t)) ≡ ok (merged s t)
unfolding load file_bytes
load-file_bytes s t ls lt ft en et n =
    rw (load, read_from-to_bytes 4 (length t.n_zones) _ ft.num_count)
      (rw (load, read_from-to_bytes 4 (length t.t_zones_w_cnt) _ ft.text_count)
        (rw ((==_iff _ _).1 en, (==_iff _ _).1 et) (rw (load_rows-merged s t ls lt ft en et n))))

-- What `~DynDocStorage` writes for a level storage, `_load` appends to another level storage with
-- as many columns of either kind: each column of the first behind the same column of the second.
-- The numbers fit the file's widths, and the documents together are fewer than 2 ^ 32. Neither
-- the writing nor the reading goes outside of a vector.
pub load-save :
    (s t : DocStorage)
    → IsLevel s
    → IsLevel t
    → FitsFile t
    → length s.n_zones ≡ length t.n_zones
    → length s.t_zones_w_cnt ≡ length t.t_zones_w_cnt
    → length s.doc_ids + length t.doc_ids < 2 ^ 32
    → (file : List ℕ) × (save t ≡ some file) × (load s true (some file) ≡ ok (merged s t))
load-save s t ls lt ft en et n =
    (file_bytes t, save_lem t lt (omega arith), load-file_bytes s t ls lt ft en et n)

extend-replicate : (cols : List (List ℕ)) → extend (replicate (length cols) []) cols ≡ cols
extend-replicate [] = refl
extend-replicate (col ∷ cols) = ap (◌∷◌ col) (extend-replicate cols)

replicate-level : (n : ℕ) → All (λ col. length {A = ℕ} col ≡ 0) (replicate n [])
replicate-level zero = tt
replicate-level (suc n) = (refl, replicate-level n)

fresh-merged : (t : DocStorage) → merged (fresh (length t.n_zones) (length t.t_zones_w_cnt)) t ≡ t
unfolding fresh
fresh-merged t = rw (extend-replicate t.n_zones, extend-replicate t.t_zones_w_cnt)

load-fresh :
    (t : DocStorage)
    → IsLevel t
    → FitsFile t
    → length t.doc_ids < 2 ^ 32
    → load (fresh (length t.n_zones) (length t.t_zones_w_cnt)) true (some (file_bytes t)) ≡ ok t
unfolding fresh
load-fresh t lt ft n =
    load-file_bytes (fresh (length t.n_zones) (length t.t_zones_w_cnt)) t
      (record {
        num_level = replicate-level (length t.n_zones);
        text_level = replicate-level (length t.t_zones_w_cnt);
      })
      lt ft (length-replicate (length t.n_zones) []) (length-replicate (length t.t_zones_w_cnt) [])
      (omega arith)
    ∙ ap ok (fresh-merged t)

-- A storage that is written at the end of one run and opened at the start of the next, under a
-- configuration with the same numbers of zones, is what it was. It is level, its numbers fit the
-- file's widths and its documents are fewer than 2 ^ 32.
pub open_store-save :
    (t : DocStorage)
    → IsLevel t
    → FitsFile t
    → length t.doc_ids < 2 ^ 32
    → (file : List ℕ) × (save t ≡ some file)
      × (open_store (length t.n_zones) (length t.t_zones_w_cnt) (some file) ≡ ok t)
unfolding open_store
open_store-save t lt ft n = (file_bytes t, save_lem t lt n, rw (open_store, load-fresh t lt ft n))
