-- ===== src/Tests/Bodies.antt =====
-- The theorems on bodies at work on a stream that is a list of bytes, given one at a time.
use mathlib.Core.Path.{subst}
use goggles.Body.Progress.Chunks.{IsChunk, has_inner_newline}
use goggles.Body.Counted.Kept.{
  run, counted_answer, call_readline, call_next, call_readlines, counting, answer,
  run-counted_answer,
}
use goggles.Body.Counted.{Input}
use goggles.Body.Progress.Ends.{IsCalm, is_finished, read_in-ends}
use goggles.Body.Progress.Chunks.{first_line}
use goggles.Base.{
  ℕ, zero, suc, ◌≡◌, refl, Bool, true, false, Option, none, some, List, [], ◌∷◌, arith, length,
  drop, nat_eq,
}
use goggles.Body.Progress.Whole.{IsStream, read_in-Gives, Gives}
use goggles.Body.Progress.{read_in, Clock, ProgressInput, Stream}

-- One byte at a time, of as many as were asked for.
abbrev one_byte : ℕ → List ℕ → List ℕ
one_byte n [] = []
one_byte zero (b ∷ bs) = []
one_byte (suc n) (b ∷ bs) = b ∷ []

abbrev behind : ℕ → List ℕ → List ℕ
behind n [] = []
behind zero (b ∷ bs) = b ∷ bs
behind (suc n) (b ∷ bs) = bs

abbrev list_stream : Stream (List ℕ)
list_stream = record {
  read = λ n s. some (one_byte n s, behind n s);
  readline = λ n s. some (one_byte n s, behind n s);
}

one_byte-IsChunk : (line : Bool) (n : ℕ) (s : List ℕ) → IsChunk line n s (behind n s) (one_byte n s)
unfolding has_inner_newline
one_byte-IsChunk line n [] = record {
  in_order = refl;
  within = omega arith;
  at_end = λ h e. refl;
  one_line = λ h. refl;
}
one_byte-IsChunk line zero (b ∷ bs) = record {
  in_order = refl;
  within = omega arith;
  at_end = λ h e. absurd (omega (arith, h));
  one_line = λ h. refl;
}
one_byte-IsChunk line (suc n) (b ∷ bs) = record {
  in_order = refl;
  within = omega arith;
  at_end = λ h e. absurd (ground (arith, e));
  one_line = λ h. ground arith;
}

given_lem :
    (line : Bool) (n : ℕ) (s t chunk : List ℕ)
    → ◌≡◌ {A = Option (List ℕ × List ℕ)} (some (one_byte n s, behind n s)) (some (chunk, t))
    → IsChunk line n s t chunk
given_lem line n s t chunk e =
    let p : one_byte n s ≡ chunk = ground (arith, e) in
    let q : behind n s ≡ t = ground (arith, e) in
    subst (λ c. IsChunk line n s t c) p
      (subst (λ left. IsChunk line n s left (one_byte n s)) q (one_byte-IsChunk line n s))

list_stream-IsStream : IsStream list_stream (λ s. s)
list_stream-IsStream = record {
  read_gives = λ n s t chunk e. given_lem false n s t chunk e;
  line_gives = λ n s t chunk e. given_lem true n s t chunk e;
}

abbrev slow_clock : Clock
slow_clock = record { monotonic = λ n. 3; transfer_timeout = 900 }

abbrev fresh_input : ProgressInput (List ℕ)
fresh_input = record { stream = 7 ∷ 10 ∷ 8 ∷ []; deadline = none; clock_calls = 0; notified = 0 }

read_in-Gives_example :
    Gives
      (λ s. s)
      true
      (some 5)
      (7 ∷ 10 ∷ 8 ∷ [])
      (read_in list_stream slow_clock 4 true (some 5) fresh_input)
read_in-Gives_example =
    read_in-Gives list_stream slow_clock (λ s. s) list_stream-IsStream 4 true (some 5) fresh_input
      (omega arith)

slow_clock-IsCalm : IsCalm list_stream slow_clock (λ s. s) list_stream-IsStream true 903
slow_clock-IsCalm = record { sound = λ n s. refl; timely = λ n. omega arith }

read_in-ends_example : is_finished (read_in list_stream slow_clock 4 true none fresh_input) ≡ true
read_in-ends_example =
    read_in-ends list_stream slow_clock (λ s. s) list_stream-IsStream 4 true none fresh_input
      slow_clock-IsCalm (omega arith)

abbrev list_input : Input (List ℕ)
list_input = record {
  read = λ size s. some (s, []);
  readline = λ size s. some (first_line (length s) s, drop (length (first_line (length s) s)) s);
  readlines = λ hint s. some (s ∷ [], []);
  next = λ s. some (none, s);
}

run-counted_answer_example :
    run
      (counted_answer list_input)
      (call_readline none ∷ call_next ∷ call_readlines none ∷ [])
      (record { stream = 7 ∷ 10 ∷ 8 ∷ []; bytes_read = 0 })
    ≡ counting 0 (
        run
          (answer list_input)
          (call_readline none ∷ call_next ∷ call_readlines none ∷ [])
          (7 ∷ 10 ∷ 8 ∷ []))
run-counted_answer_example =
    run-counted_answer list_input (call_readline none ∷ call_next ∷ call_readlines none ∷ [])
      (record { stream = 7 ∷ 10 ∷ 8 ∷ []; bytes_read = 0 })
