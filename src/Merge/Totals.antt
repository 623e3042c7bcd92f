-- ===== src/Merge/Totals.antt =====
-- What the loop over the indexes takes from them, and what it leaves.
use amigos.Base.{
  ℕ, suc, ◌+◌, ◌≤◌, ◌≡◌, ◌≢◌, refl, ap, arith, Bool, true, false, List, [], ◌∷◌, ◌++◌, All,
  All-append, length, length-append, ◌==◌, if◌then◌else◌,
}
use amigos.Entry.{Entry}
use amigos.Merge.Queues.{Queue, queue, FitsQueue, count_items, count_queues}

-- The entries, each by a weight. An entry's indicator as the weight counts how often it stands.
unfoldable pub total : (Entry → ℕ) → List Entry → ℕ
total w [] = 0
total w (e ∷ es) = w e + total w es

-- The weight of what stands under a token.
unfoldable pub items_total : (Entry → ℕ) → ℕ → List (ℕ × List Entry) → ℕ
items_total w t [] = 0
items_total w t ((tok, es) ∷ items) = (if tok == t then total w es else 0) + items_total w t items

unfoldable pub queues_total : (Entry → ℕ) → ℕ → List Queue → ℕ
queues_total w t [] = 0
queues_total w t (queue tok es items tail ∷ qs) =
    items_total w t ((tok, es) ∷ items) + queues_total w t qs

pub total-append :
    (w : Entry → ℕ) (xs ys : List Entry) → total w (xs ++ ys) ≡ total w xs + total w ys
unfolding total
total-append w [] ys = omega arith
total-append w (x ∷ xs) ys = omega (arith, total-append w xs ys)

-- The tokens that are left.
unfoldable pub queues_left : List Queue → ℕ
queues_left [] = 0
queues_left (queue tok es items tail ∷ qs) = suc (length items) + queues_left qs

module _ (more : List Queue) where
  count-append : (qs : List Queue) → count_queues (qs ++ more) ≡ count_queues qs + count_queues more
  unfolding count_queues
  count-append [] = omega arith
  count-append (queue tok es items tail ∷ qs) = omega (arith, count-append qs)

  queues_total-append :
      (w : Entry → ℕ) (t : ℕ) (qs : List Queue)
      → queues_total w t (qs ++ more) ≡ queues_total w t qs + queues_total w t more
  unfolding queues_total
  queues_total-append w t [] = omega arith
  queues_total-append w t (queue tok es items tail ∷ qs) = omega (arith, queues_total-append w t qs)

  left-append : (qs : List Queue) → queues_left (qs ++ more) ≡ queues_left qs + queues_left more
  unfolding queues_left
  left-append [] = omega arith
  left-append (queue tok es items tail ∷ qs) = omega (arith, left-append qs)

-- Some queue stands at this token.
unfoldable pub at_token : ℕ → List Queue → Bool
at_token t [] = false
at_token t (queue tok es items tail ∷ qs) =
    let rest = at_token t qs in if tok == t then true else rest

-- From queues and entries to the rest of the queues and more entries: nothing is lost, and only
-- entries of the token are taken.
pub record Takes (t : ℕ) (qs : List Queue) (es : List Entry) (rest : List Queue) (es' : List Entry)
    : Type 0 where
  pub fits : All FitsQueue rest
  pub counted : length es' + count_queues rest ≡ length es + count_queues qs
  pub taken :
      (w : Entry → ℕ) → total w es' + queues_total w t rest ≡ total w es + queues_total w t qs
  pub others : (w : Entry → ℕ) (u : ℕ) → u ≢ t → queues_total w u rest ≡ queues_total w u qs
  pub fewer : queues_left rest ≤ queues_left qs
  pub shorter : length rest ≤ length qs

pub keep-Takes :
    {t : ℕ} {qs rest : List Queue} {es es' : List Entry} (q : Queue)
    → FitsQueue q
    → Takes t qs es rest es'
    → Takes t (q ∷ qs) es (q ∷ rest) es'
unfolding count_queues queues_total queues_left
keep-Takes (queue tok entries items tail) fit s = record {
  fits = (fit, s.fits);
  counted = omega (arith, s.counted);
  taken = λ w. omega (arith, s.taken w);
  others = λ w u ne. ap (λ n. items_total w u ((tok, entries) ∷ items) + n) (s.others w u ne);
  fewer = omega (arith, s.fewer);
  shorter = omega (arith, s.shorter);
}

pub items_total-same :
    (w : Entry → ℕ) (t : ℕ) (es : List Entry) (items : List (ℕ × List Entry))
    → items_total w t ((t, es) ∷ items) ≡ total w es + items_total w t items
unfolding items_total
items_total-same w t es items = ground arith

pub items_total-other :
    (w : Entry → ℕ) (t u : ℕ) (es : List Entry) (items : List (ℕ × List Entry))
    → u ≢ t
    → items_total w u ((t, es) ∷ items) ≡ items_total w u items
unfolding items_total
items_total-other w t u es items ne = ground arith

-- The entries of the token that a queue stands at are taken.
take-Takes :
    {t : ℕ} {qs rest : List Queue} {es es' : List Entry} (entries : List Entry)
    (items : List (ℕ × List Entry)) (tail : List ℕ) (heads : List Queue)
    → All FitsQueue heads
    → count_queues heads ≡ count_items items
    → ((w : Entry → ℕ) (u : ℕ) → queues_total w u heads ≡ items_total w u items)
    → queues_left heads ≤ length items
    → length heads ≤ 1
    → Takes t qs (es ++ entries) rest es'
    → Takes t (queue t entries items tail ∷ qs) es (heads ++ rest) es'
unfolding count_queues queues_total queues_left
take-Takes {t} {qs} {rest} {es} {es'} entries items tail heads fits counts totals left short s =
    record {
      fits = All-append FitsQueue heads rest fits s.fits;
      counted = omega (arith, s.counted, count-append rest heads, counts, length-append es entries);
      taken = λ w. omega (
        arith,
        items_total-same w t entries items,
        s.taken w,
        total-append w es entries,
        queues_total-append rest w t heads,
        totals w t,
      );
      others = λ w u ne. omega (
        arith,
        items_total-other w t u entries items ne,
        s.others w u ne,
        queues_total-append rest w u heads,
        totals w u,
      );
      fewer = omega (arith, s.fewer, left-append rest heads, left);
      shorter = omega (arith, s.shorter, short, length-append heads rest);
    }

pub start-Takes : (t : ℕ) (es : List Entry) → Takes t [] es [] es
start-Takes t es = record {
  fits = tt;
  counted = refl;
  taken = λ w. refl;
  others = λ w u ne. refl;
  fewer = omega arith;
  shorter = omega arith;
}

-- An erased queue, and one that goes on to its next item.
pub erase-Takes :
    {t : ℕ} {qs rest : List Queue} {es es' : List Entry} (entries : List Entry) (tail : List ℕ)
    → Takes t qs (es ++ entries) rest es'
    → Takes t (queue t entries [] tail ∷ qs) es rest es'
unfolding count_queues queues_total queues_left count_items items_total
erase-Takes entries tail s =
    take-Takes entries [] tail [] tt refl (λ w u. refl) (omega arith) (omega arith) s

pub next-Takes :
    {t : ℕ} {qs rest : List Queue} {es es' : List Entry} (entries : List Entry) (next : ℕ)
    (more : List Entry) (items : List (ℕ × List Entry)) (tail : List ℕ)
    → FitsQueue (queue next more items tail)
    → Takes t qs (es ++ entries) rest es'
    → Takes t
        (queue t entries ((next, more) ∷ items) tail ∷ qs)
        es
        (queue next more items tail ∷ rest)
        es'
unfolding count_queues queues_total queues_left count_items items_total
next-Takes entries next more items tail fit s =
    take-Takes entries ((next, more) ∷ items) tail (queue next more items tail ∷ []) (fit, tt)
      (omega arith) (λ w u. omega arith) (omega arith) (omega arith) s
