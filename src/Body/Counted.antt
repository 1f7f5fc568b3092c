-- ===== src/Body/Counted.antt =====
-- `CountingInput` of forensics/request_body.py: wsgi.input, with a count of the bytes it gave.
pub mod Kept
use goggles.Base.{ℕ, ◌+◌, Option, none, some, List, [], ◌∷◌, length}

-- The input methods of PEP 3333 in a state S, `none` being an exception; a size of None or below 0
-- is `none`. `next` is one step of the iteration, without a line at its end.
pub record Input (S : Type 0) : Type 0 where
  pub read : Option ℕ → S → Option (List ℕ × S)
  pub readline : Option ℕ → S → Option (List ℕ × S)
  pub readlines : Option ℕ → S → Option (List (List ℕ) × S)
  pub next : S → Option (Option (List ℕ) × S)

pub record CountingInput (S : Type 0) : Type 0 where
  pub stream : S
  pub bytes_read : ℕ

unfoldable pub sum_lengths : List (List ℕ) → ℕ
sum_lengths [] = 0
sum_lengths (line ∷ lines) = length line + sum_lengths lines

abbrev pub length_if_some : Option (List ℕ) → ℕ
length_if_some none = 0
length_if_some (some line) = length line

-- self.bytes_read += ...
abbrev pub count_with : {S A : Type 0} → (A → ℕ) → ℕ → Option (A × S) → Option (A × CountingInput S)
count_with size bytes_read none = none
count_with size bytes_read (some (given, s)) =
    some (given, record { stream = s; bytes_read = bytes_read + size given })

module _ {S : Type 0} (input : Input S) where
  abbrev pub read : Option ℕ → CountingInput S → Option (List ℕ × CountingInput S)
  read size counter = count_with length counter.bytes_read (input.read size counter.stream)

  abbrev pub readline : Option ℕ → CountingInput S → Option (List ℕ × CountingInput S)
  readline size counter = count_with length counter.bytes_read (input.readline size counter.stream)

  abbrev pub readlines : Option ℕ → CountingInput S → Option (List (List ℕ) × CountingInput S)
  readlines hint counter =
      count_with sum_lengths counter.bytes_read (input.readlines hint counter.stream)

  abbrev pub next : CountingInput S → Option (Option (List ℕ) × CountingInput S)
  next counter = count_with length_if_some counter.bytes_read (input.next counter.stream)
