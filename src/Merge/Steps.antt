-- ===== src/Merge/Steps.antt =====
-- One walk over the indexes, and that it ends.
use amigos.Base.{
  ℕ, ◌≤◌, ◌<◌, ◌≡◌, arith, Bool, true, false, List, [], ◌∷◌, ◌++◌, All, inl, inr, length, ◌==◌,
  ==_iff, Bool-cases,
}
use amigos.Entry.{Entry}
use amigos.Merge.Queues.{Queue, queue, FitsQueue, pass_queues}
use amigos.Merge.Totals.{
  queues_left, at_token, Takes, start-Takes, keep-Takes, erase-Takes, next-Takes,
}

-- What the loop does from queues and entries: it takes entries of the token; where it leaves the list
-- behind its end, or where an index stands at the token, it leaves less.
pub record Passes (t : ℕ) (skip : Bool) (qs : List Queue) (es : List Entry)
    (r : Bool × List Queue × List Entry) : Type 0 where
  pub takes : Takes t qs es r.1 r.2
  pub beyond : r.0 ≡ true → skip ≡ false → length r.1 < length qs
  pub progress : skip ≡ false → at_token t qs ≡ true → queues_left r.1 < queues_left qs

module _ {t : ℕ} {qs : List Queue} {es : List Entry} {r : Bool × List Queue × List Entry} where
  Passes-skip :
      (q : Queue)
      → FitsQueue q
      → Passes t false qs es r
      → Passes t true (q ∷ qs) es (r.0, q ∷ r.1, r.2)
  Passes-skip q fit s = record {
    takes = keep-Takes q fit s.takes;
    beyond = λ b e. cc;
    progress = λ e h. cc;
  }

  Passes-keep :
      (tok : ℕ) (entries : List Entry) (items : List (ℕ × List Entry)) (tail : List ℕ)
      → FitsQueue (queue tok entries items tail)
      → (tok == t) ≡ false
      → Passes t false qs es r
      → Passes t false
          (queue tok entries items tail ∷ qs)
          es
          (r.0, queue tok entries items tail ∷ r.1, r.2)
  unfolding at_token queues_left
  Passes-keep tok entries items tail fit other s = record {
    takes = keep-Takes (queue tok entries items tail) fit s.takes;
    beyond = λ b e. omega (arith, s.beyond b e);
    progress = λ e h. omega (arith, s.progress e (rw (at_token, other) at h));
  }

module _ {t : ℕ} {qs : List Queue} {es : List Entry} {r : Bool × List Queue × List Entry}
    (entries : List Entry) where
  Passes-erase :
      (tail : List ℕ)
      → Passes t true qs (es ++ entries) r
      → Passes t false (queue t entries [] tail ∷ qs) es r
  unfolding queues_left
  Passes-erase tail s = record {
    takes = erase-Takes entries tail s.takes;
    beyond = λ b e. omega (arith, s.takes.shorter);
    progress = λ e h. omega (arith, s.takes.fewer);
  }

  Passes-next :
      (next : ℕ) (more : List Entry) (items : List (ℕ × List Entry)) (tail : List ℕ)
      → FitsQueue (queue next more items tail)
      → Passes t false qs (es ++ entries) r
      → Passes t false
          (queue t entries ((next, more) ∷ items) tail ∷ qs)
          es
          (r.0, queue next more items tail ∷ r.1, r.2)
  unfolding queues_left
  Passes-next next more items tail fit s = record {
    takes = next-Takes entries next more items tail fit s.takes;
    beyond = λ b e. omega (arith, s.beyond b e);
    progress = λ e h. omega (arith, s.takes.fewer);
  }

pub pass_queues-Passes :
    (t : ℕ) (skip : Bool) (qs : List Queue) (es : List Entry)
    → All FitsQueue qs
    → Passes t skip qs es (pass_queues t skip qs es)
unfolding pass_queues at_token
pass_queues-Passes t skip [] es fits = record {
  takes = start-Takes t es;
  beyond = λ b e. cc;
  progress = λ e h. cc;
}
pass_queues-Passes t true (q ∷ qs) es (fit, fits) =
    Passes-skip q fit (pass_queues-Passes t false qs es fits)
pass_queues-Passes t false (queue tok entries [] tail ∷ qs) es (fit, fits) =
    elim (Bool-cases (tok == t)) [
      | inl here ↦
          let same = (==_iff tok t).0 here in
          rw (pass_queues, here)
            (rw same
              (Passes-erase entries tail (pass_queues-Passes t true qs (es ++ entries) fits)))
      | inr other ↦
          rw (pass_queues, other)
            (Passes-keep tok entries [] tail fit other (pass_queues-Passes t false qs es fits))
    ]
pass_queues-Passes t false (queue tok entries ((next, more) ∷ items) tail ∷ qs) es
      ((fit, (next_fit, fits)), all) =
    elim (Bool-cases (tok == t)) [
      | inl here ↦
          let same = (==_iff tok t).0 here in
          rw (pass_queues, here)
            (rw same (
              Passes-next entries next more items tail (next_fit, fits)
                (pass_queues-Passes t false qs (es ++ entries) all)))
      | inr other ↦
          rw (pass_queues, other)
            (Passes-keep tok entries ((next, more) ∷ items) tail (fit, (next_fit, fits)) other
              (pass_queues-Passes t false qs es all))
    ]

-- The tokens of a queue rise, from a number on.
abbrev pub Rising : ℕ → List (ℕ × List Entry) → Type 0
Rising tok [] = Unit
Rising tok ((next, es) ∷ items) = (tok < next) × Rising next items

abbrev pub IsFrom : ℕ → Queue → Type 0
IsFrom lo (queue tok es items tail) = (lo ≤ tok) × Rising tok items

pub pass_queues-IsFrom :
    (lo t : ℕ) (skip : Bool) (qs : List Queue) (es : List Entry)
    → All (IsFrom lo) qs
    → All (IsFrom lo) (pass_queues t skip qs es).1
unfolding pass_queues
pass_queues-IsFrom lo t skip [] es hs = tt
pass_queues-IsFrom lo t true (q ∷ qs) es (h, hs) = (h, pass_queues-IsFrom lo t false qs es hs)
pass_queues-IsFrom lo t false (queue tok entries [] tail ∷ qs) es (h, hs) =
    elim (Bool-cases (tok == t)) [
      | inl here ↦ rw (pass_queues, here) (pass_queues-IsFrom lo t true qs (es ++ entries) hs)
      | inr other ↦ rw (pass_queues, other) (h, pass_queues-IsFrom lo t false qs es hs)
    ]
pass_queues-IsFrom lo t false (queue tok entries ((next, more) ∷ items) tail ∷ qs) es
      ((from, (rises, rising)), hs) =
    elim (Bool-cases (tok == t)) [
      | inl here ↦
          rw (pass_queues, here)
            ((omega arith, rising), pass_queues-IsFrom lo t false qs (es ++ entries) hs)
      | inr other ↦
          rw (pass_queues, other) ((from, (rises, rising)), pass_queues-IsFrom lo t false qs es hs)
    ]
