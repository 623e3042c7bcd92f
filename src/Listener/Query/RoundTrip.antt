-- ===== src/Listener/Query/RoundTrip.antt =====
-- `ParseQuery` takes a request apart into what it was put together from.
use amigos.Base.{
  ℕ, suc, ◌+◌, ◌-◌, ◌^◌, ◌<◌, ◌≡◌, ◌≢◌, refl, [], ◌∷◌, ◌++◌, none, some, false, arith, All,
  All-append, All-mono, ltb, ◌==◌, length, drop, take-append, Bytes,
}
use amigos.Run.{done}
use amigos.DocDb.{to_string}
use amigos.Listener.Query.{first_quote, last_quote, quoted, skip_spaces, begins_with_t, parse_query}
use amigos.Listener.Query.Numbers.{
  IsDigit, to_string-IsDigit, skip_spaces-to_string, read_number-to_string,
}

-- The request for a text with a first document, a number of documents and a flag.
abbrev pub numbers : ℕ → ℕ → Bytes → Bytes
numbers start count flag = b' ' ∷ (to_string start ++ (b' ' ∷ (to_string count ++ (b' ' ∷ flag))))

abbrev pub request : Bytes → ℕ → ℕ → Bytes → Bytes
request text start count flag = b'"' ∷ (text ++ (b'"' ∷ numbers start count flag))

-- No byte is a quote.
abbrev pub NoQuote : Bytes → Type 0
NoQuote text = All (λ c. c ≢ b'"') text

last_quote-none : (text : Bytes) → NoQuote text → last_quote text ≡ none
unfolding last_quote
last_quote-none [] h = refl
last_quote-none (c ∷ text) (h, hs) =
    let differ : (c == b'"') ≡ false = ground arith in
    rw (last_quote, last_quote-none text hs, differ)

to_string-NoQuote : (n : ℕ) → NoQuote (to_string n)
to_string-NoQuote n =
    All-mono IsDigit (λ c. c ≢ b'"') (to_string n) (λ c h. omega arith) (to_string-IsDigit n)

numbers-NoQuote :
    (start count : ℕ) (flag : Bytes) → NoQuote flag → NoQuote (numbers start count flag)
numbers-NoQuote start count flag h = (
  omega arith,
  All-append (λ c. c ≢ b'"') (to_string start) _ (to_string-NoQuote start)
      (
        omega arith,
        All-append (λ c. c ≢ b'"') (to_string count) (b' ' ∷ flag) (to_string-NoQuote count)
            (omega arith, h),
      ),
)

last_quote-append :
    (xs ys : Bytes) → last_quote ys ≡ none → last_quote (xs ++ (b'"' ∷ ys)) ≡ some (length xs)
unfolding last_quote
last_quote-append [] ys h = rw h
last_quote-append (x ∷ xs) ys h = rw (last_quote-append xs ys h)

quoted_text :
    (text rest : Bytes) → quoted (b'"' ∷ (text ++ (b'"' ∷ rest))) 0 (suc (length text)) ≡ done text
unfolding quoted
quoted_text text rest =
    let fits : ltb (suc (length (text ++ (b'"' ∷ rest)))) 1 ≡ false = ground arith in
    let inside : ltb (suc (length text)) 1 ≡ false = ground arith in
    let count : suc (length text) - 0 - 1 ≡ length text = omega arith in
    rw (fits, inside, count) (rw take-append)

drop-text :
    (text : Bytes) (q : ℕ) (rest : Bytes) → drop (suc (length text)) (text ++ (q ∷ rest)) ≡ rest
drop-text [] q rest = refl
drop-text (c ∷ text) q rest = drop-text text q rest

behind_text :
    (text rest : Bytes) → drop (suc (length text) + 1) (b'"' ∷ (text ++ (b'"' ∷ rest))) ≡ rest
behind_text text rest =
    let count : suc (length text) + 1 ≡ suc (suc (length text)) = omega arith in
    rw count (drop-text text b'"' rest)

first_quote-request : (rest : Bytes) → first_quote (b'"' ∷ rest) ≡ some 0
unfolding first_quote
first_quote-request rest = refl

last_quote-request :
    (text rest : Bytes)
    → NoQuote rest
    → last_quote (b'"' ∷ (text ++ (b'"' ∷ rest))) ≡ some (suc (length text))
last_quote-request text rest h = last_quote-append (b'"' ∷ text) rest (last_quote-none rest h)

-- Of a request `"text" start count flag` for numbers below 2 ^ 31, whose flag holds no quote, while
-- the text may, `ParseQuery` returns the text, the two numbers, and whether the flag begins with `t`
-- behind its spaces.
pub parse_query-request :
    (text : Bytes) (start count : ℕ) (flag : Bytes)
    → start < 2 ^ 31
    → count < 2 ^ 31
    → NoQuote flag
    → parse_query (request text start count flag)
      ≡ done (record {
        to_search = text;
        start_doc = start;
        end_doc = count;
        find_only_in_subs = begins_with_t (skip_spaces (b' ' ∷ flag));
      })
unfolding parse_query
parse_query-request text start count flag hs hc hf =
    rw
      (
        first_quote-request (text ++ (b'"' ∷ numbers start count flag)),
        last_quote-request text (numbers start count flag) (numbers-NoQuote start count flag hf),
      )
      (rw (quoted_text text (numbers start count flag), behind_text text (numbers start count flag))
        (rw (skip_spaces-to_string start (b' ' ∷ (to_string count ++ (b' ' ∷ flag)))) (
          rw (read_number-to_string start (to_string count ++ (b' ' ∷ flag)) (omega arith)) (
            rw (skip_spaces-to_string count (b' ' ∷ flag))
              (rw (read_number-to_string count flag (omega arith)))))))
