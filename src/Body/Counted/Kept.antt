-- ===== src/Body/Counted/Kept.antt =====
-- The count is that of the bytes that the application has been given.
use goggles.Base.{
  ℕ, ◌+◌, ◌≡◌, refl, sym, ap, ◌∙◌, Option, none, some, List, [], ◌∷◌, ◌++◌, arith, length,
  length-append,
}
use goggles.Body.Counted.{
  Input, CountingInput, count_with, read, sum_lengths, length_if_some, readline, readlines, next,
}

-- A call of the application.
pub data Call : Type 0 where
  call_read : Option ℕ → Call
  call_readline : Option ℕ → Call
  call_readlines : Option ℕ → Call
  call_next : Call

unfoldable pub joined : List (List ℕ) → List ℕ
joined [] = []
joined (line ∷ lines) = line ++ joined lines

abbrev pub line_or_none : Option (List ℕ) → List ℕ
line_or_none none = []
line_or_none (some line) = line

-- What the call has given, as bytes.
abbrev pub as_bytes : {S A : Type 0} → (A → List ℕ) → Option (A × S) → Option (List ℕ × S)
as_bytes bytes none = none
as_bytes bytes (some (given, s)) = some (bytes given, s)

abbrev pub answer : {S : Type 0} → Input S → Call → S → Option (List ℕ × S)
answer input (call_read size) s = input.read size s
answer input (call_readline size) s = input.readline size s
answer input (call_readlines hint) s = as_bytes joined (input.readlines hint s)
answer input call_next s = as_bytes line_or_none (input.next s)

abbrev pub counted_answer :
    {S : Type 0} → Input S → Call → CountingInput S → Option (List ℕ × CountingInput S)
counted_answer input (call_read size) counter = read input size counter
counted_answer input (call_readline size) counter = readline input size counter
counted_answer input (call_readlines hint) counter = as_bytes joined (readlines input hint counter)
counted_answer input call_next counter = as_bytes line_or_none (next input counter)

-- The calls in order, and all that they have given, unless one raises.
unfoldable pub run :
    {S : Type 0} → (Call → S → Option (List ℕ × S)) → List Call → S → Option (List ℕ × S)
run ask [] s = some ([], s)
run ask (call ∷ calls) s = elim (ask call s) [
  | none ↦ none
  | some (given, t) ↦ as_bytes (λ later. given ++ later) (run ask calls t)
]

-- The counter's answer is the stream's, with the count.
abbrev pub counting : {S : Type 0} → ℕ → Option (List ℕ × S) → Option (List ℕ × CountingInput S)
counting n none = none
counting n (some (given, s)) = some (given, record { stream = s; bytes_read = n + length given })

length-joined : (lines : List (List ℕ)) → length (joined lines) ≡ sum_lengths lines
unfolding joined sum_lengths
length-joined [] = refl
length-joined (line ∷ lines) =
    length-append line (joined lines) ∙ ap (λ n. length line + n) (length-joined lines)

module _ {S : Type 0} (input : Input S) where
  counted_lem :
      {A : Type 0} (bytes : A → List ℕ) (size : A → ℕ) (n : ℕ) (o : Option (A × S))
      → ((a : A) → length (bytes a) ≡ size a)
      → as_bytes bytes (count_with size n o) ≡ counting n (as_bytes bytes o)
  counted_lem bytes size n none h = refl
  counted_lem bytes size n (some (a, s)) h =
      ap (λ m. some (bytes a, record { stream = s; bytes_read = n + m })) (sym (h a))

  plain_lem : (n : ℕ) (o : Option (List ℕ × S)) → count_with length n o ≡ counting n o
  plain_lem n none = refl
  plain_lem n (some (given, s)) = refl

  answer_lem :
      (call : Call) (counter : CountingInput S)
      → counted_answer input call counter
        ≡ counting counter.bytes_read (answer input call counter.stream)
  answer_lem (call_read size) counter =
      plain_lem counter.bytes_read (input.read size counter.stream)
  answer_lem (call_readline size) counter =
      plain_lem counter.bytes_read (input.readline size counter.stream)
  answer_lem (call_readlines hint) counter =
      counted_lem joined sum_lengths counter.bytes_read (input.readlines hint counter.stream)
        length-joined
  answer_lem call_next counter =
      counted_lem line_or_none length_if_some counter.bytes_read (input.next counter.stream)
        line_length
    where
      line_length : (o : Option (List ℕ)) → length (line_or_none o) ≡ length_if_some o
      line_length none = refl
      line_length (some line) = refl

  -- Whatever calls an application makes, the counter gives it what the stream alone would give or
  -- raises where it raises, and counts exactly the bytes that it has given.
  pub run-counted_answer :
      (calls : List Call) (counter : CountingInput S)
      → run (counted_answer input) calls counter
        ≡ counting counter.bytes_read (run (answer input) calls counter.stream)
  unfolding run
  run-counted_answer [] counter =
      ap (λ n. some ([], record { stream = counter.stream; bytes_read = n })) (omega arith)
  run-counted_answer (call ∷ calls) counter =
      ap
        (λ (o : Option (List ℕ × CountingInput S)).
          let out : Option (List ℕ × CountingInput S) = elim o [
            | none ↦ none
            | some (given, t) ↦
                as_bytes (λ later. given ++ later) (run (counted_answer input) calls t)
          ] in
          out)
        (answer_lem call counter)
      ∙ go (answer input call counter.stream)
          (λ n s. run-counted_answer calls (record { stream = s; bytes_read = n }))
    where
      added :
          (given : List ℕ) (o : Option (List ℕ × S))
          → as_bytes (λ later. given ++ later) (counting (counter.bytes_read + length given) o)
            ≡ counting counter.bytes_read (as_bytes (λ later. given ++ later) o)
      added given none = refl
      added given (some (later, s)) =
          ap (λ n. some (given ++ later, record { stream = s; bytes_read = n }))
            (omega (arith, length-append given later))

      go :
          (o : Option (List ℕ × S))
          → ((n : ℕ) (s : S)
              → run (counted_answer input) calls (record { stream = s; bytes_read = n })
                ≡ counting n (run (answer input) calls s))
          → (let out : Option (List ℕ × CountingInput S) = elim (counting counter.bytes_read o) [
            | none ↦ none
            | some (given, t) ↦
                as_bytes (λ later. given ++ later) (run (counted_answer input) calls t)
          ] in
              out)
            ≡ counting counter.bytes_read (
                let out : Option (List ℕ × S) = elim o [
                  | none ↦ none
                  | some (given, t) ↦
                      as_bytes (λ later. given ++ later) (run (answer input) calls t)
                ] in
                out)
      go none k = refl
      go (some (given, s)) k =
          ap (as_bytes (λ later. given ++ later)) (k (counter.bytes_read + length given) s)
          ∙ added given (run (answer input) calls s)
