-- ===== src/DocDb/Phrases.antt =====
-- `RawDoc::getPhrases` pairs the lines of the subtitles with the lines of their times.
use amigos.Base.{
  ℕ, zero, suc, ◌≤◌, ◌<◌, ◌≡◌, ◌≢◌, refl, ap, List, [], ◌∷◌, ◌++◌, Option, none, some, arith,
  length, length-append, All, Option-cases, inl, inr,
}
use amigos.DocDb.{
  Bytes, RawDoc, split_line, getline, PhrasesResult, phrases, less_time_items, more_time_items,
  bad_number, phrases_loop, get_phrases,
}

-- A text of lines, each ended by a newline.
unfoldable pub unlines : List Bytes → Bytes
unlines [] = []
unlines (l ∷ ls) = l ++ (b'\n' ∷ unlines ls)

-- No line holds a newline.
abbrev pub AreLines : List Bytes → Type 0
AreLines ls = All (λ l. All (λ c. c ≢ b'\n') l) ls

split_line-append :
    (l rest : Bytes) → All (λ c. c ≢ b'\n') l → split_line (l ++ (b'\n' ∷ rest)) ≡ (l, rest)
unfolding split_line
split_line-append [] rest h = refl
split_line-append (c ∷ l) rest (h, hs) = rw (split_line-append l rest hs) (ground arith)

getline-unlines :
    (l : Bytes) (ls : List Bytes)
    → All (λ c. c ≢ b'\n') l
    → getline (unlines (l ∷ ls)) ≡ some (l, unlines ls)
unfolding getline unlines
getline-unlines [] ls h = ap some (split_line-append [] (unlines ls) h)
getline-unlines (c ∷ l) ls h = ap some (split_line-append (c ∷ l) (unlines ls) h)

getline_end : getline (unlines []) ≡ none
unfolding getline unlines
getline_end = refl

module _ {D : Type 0} (stod : Bytes → Option D) (nought : D) where
  -- The lines of the subtitles with the numbers on the lines of the times, behind `res`, and one
  -- more phrase without a text; or the exception at the first line where this fails.
  abbrev pub paired : List Bytes → List Bytes → List (Bytes × D) → PhrasesResult D
  paired [] [] res = phrases (res ++ (([], nought) ∷ []))
  paired [] (t ∷ ts) res = more_time_items
  paired (l ∷ ls) [] res = less_time_items
  paired (l ∷ ls) (t ∷ ts) res = elim (stod t) [
    | none ↦ bad_number
    | some d ↦ paired ls ts (res ++ ((l, d) ∷ []))
  ]

  phrases_loop-paired :
      (ls ts : List Bytes) (fuel : ℕ) (res : List (Bytes × D))
      → AreLines ls
      → AreLines ts
      → length ls < fuel
      → phrases_loop stod nought fuel (unlines ls) (unlines ts) res ≡ paired ls ts res
  unfolding phrases_loop
  phrases_loop-paired ls ts zero res hl ht h = absurd (omega arith)
  phrases_loop-paired [] [] (suc fuel) res hl ht h = rw (getline_end, phrases_loop, getline_end)
  phrases_loop-paired [] (t ∷ ts) (suc fuel) res hl (ht, hts) h =
      rw (getline_end, phrases_loop, getline-unlines t ts ht)
  phrases_loop-paired (l ∷ ls) [] (suc fuel) res (hl, hls) ht h =
      rw (getline-unlines l ls hl, phrases_loop, getline_end)
  phrases_loop-paired (l ∷ ls) (t ∷ ts) (suc fuel) res (hl, hls) (ht, hts) h =
      rw (getline-unlines l ls hl, phrases_loop, getline-unlines t ts ht)
        (elim (Option-cases (stod t)) [
          | inl bad ↦ rw (bad, paired)
          | inr (d, good) ↦
              rw (good, paired, phrases_loop-paired ls ts fuel _ hls hts (omega arith))
        ])

  length-unlines : (ls : List Bytes) → length ls ≤ length (unlines ls)
  unfolding unlines
  length-unlines [] = omega arith
  length-unlines (l ∷ ls) = omega (arith, length-append l (b'\n' ∷ unlines ls), length-unlines ls)

  -- On texts whose lines all end in a newline, `getPhrases` appends the lines of the subtitles,
  -- each with the number on the same line of the times, and one more phrase that is empty; it
  -- throws where one text has more lines than the other, or where a number cannot be read.
  pub get_phrases-paired :
      (ls ts : List Bytes) (doc : RawDoc) (res : List (Bytes × D))
      → AreLines ls
      → AreLines ts
      → doc.subtitles ≡ unlines ls
      → doc.time ≡ unlines ts
      → get_phrases stod nought doc res ≡ paired ls ts res
  unfolding get_phrases
  get_phrases-paired ls ts doc res hl ht es et =
      rw (es, et)
        (phrases_loop-paired ls ts (suc (length (unlines ls))) res hl ht
          (omega (arith, length-unlines ls)))
