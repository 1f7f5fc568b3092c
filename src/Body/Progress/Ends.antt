-- ===== src/Body/Progress/Ends.antt =====
-- A read that is in time ends with bytes.
use mathlib.Core.Path.{subst}
use goggles.Base.{
  ℕ, zero, suc, ◌<◌, ◌≡◌, refl, sym, ap, ◌∙◌, inl, inr, Bool, true, false, ◌&&◌, Option, none, some,
  List, arith, ltb, leb, Bool-cases, length, is_empty, nat_eq,
}
use goggles.Body.Progress.{
  no_fuel, Outcome, Stream, Clock, finished, prepend, ProgressInput, read_chunk, read_in, timed_out,
  broken, chunk_limit, deadline_of, timed_pass, started, take_chunk, ends_with_newline, is_done,
  size_left,
}
use goggles.Body.Progress.Whole.{IsStream, chunk_lem, left_less}

abbrev pub is_finished : {S : Type 0} → Outcome S → Bool
is_finished (finished bytes input) = true
is_finished timed_out = false
is_finished broken = false
is_finished no_fuel = false

abbrev pub has_chunk : {S : Type 0} → Option (List ℕ × S) → Bool
has_chunk none = false
has_chunk (some chunk) = true

is_finished-prepend :
    {S : Type 0} (chunk : List ℕ) (out : Outcome S)
    → is_finished (prepend chunk out) ≡ is_finished out
is_finished-prepend chunk (finished bytes input) = refl
is_finished-prepend chunk timed_out = refl
is_finished-prepend chunk broken = refl
is_finished-prepend chunk no_fuel = refl

module _ {S : Type 0} (source : Stream S) (clock : Clock) (bytes_left : S → List ℕ)
    (law : IsStream source bytes_left) where
  -- The stream raises nothing, and the clock stays short of the deadline.
  pub record IsCalm (line : Bool) (deadline : ℕ) : Type 0 where
    pub sound : (n : ℕ) (s : S) → has_chunk (read_chunk source clock line n s) ≡ true
    pub timely : (n : ℕ) → clock.monotonic n < deadline

  take_chunk-ends :
      (next : Option ℕ → ProgressInput S → Outcome S) (line : Bool) (size : Option ℕ) (deadline : ℕ)
      (input : ProgressInput S) (o : Option (List ℕ × S))
      → IsCalm line deadline
      → read_chunk source clock line (chunk_limit size) input.stream ≡ o
      → ((rest : Option ℕ) (later : ProgressInput S)
          → length (bytes_left later.stream) < length (bytes_left input.stream)
          → later.deadline ≡ input.deadline
          → is_finished (next rest later) ≡ true)
      → is_finished (take_chunk source clock next line size deadline input o) ≡ true
  take_chunk-ends next line size deadline input none calm e k =
      absurd (ground (arith, calm.sound (chunk_limit size) input.stream, e))
  take_chunk-ends next line size deadline input (some (chunk, s)) calm e k =
      let bytes = bytes_left input.stream in
      let c =
        chunk_lem source clock bytes_left law line (chunk_limit size) input.stream s chunk e in
      let timely : ltb deadline (clock.monotonic input.clock_calls) ≡ false =
        ground (arith, calm.timely input.clock_calls) in
      rw timely (elim (Bool-cases (is_empty chunk)) [
        | inl empty ↦ rw empty refl
        | inr full ↦ rw full (elim (Bool-cases (line && ends_with_newline chunk)) [
          | inl whole ↦ rw whole refl
          | inr partial ↦ rw partial (
              is_finished-prepend chunk _
              ∙ k (size_left size chunk) _
                  (left_less source clock bytes_left law line (chunk_limit size) bytes
                    (bytes_left s) chunk c full)
                  refl)
        ])
      ])

  timed_pass-ends :
      (next : Option ℕ → ProgressInput S → Outcome S) (line : Bool) (size : Option ℕ) (deadline : ℕ)
      (input : ProgressInput S)
      → IsCalm line deadline
      → ((rest : Option ℕ) (later : ProgressInput S)
          → length (bytes_left later.stream) < length (bytes_left input.stream)
          → later.deadline ≡ input.deadline
          → is_finished (next rest later) ≡ true)
      → is_finished (timed_pass source clock next line size deadline input) ≡ true
  timed_pass-ends next line size deadline input calm k =
      let timely : leb deadline (clock.monotonic input.clock_calls) ≡ false =
        ground (arith, calm.timely input.clock_calls) in
      rw timely (take_chunk-ends next line size deadline _ _ calm refl k)

  -- If the stream raises nothing and the clock stays short of the deadline, the one that the input
  -- has or the one that its first read sets, a read ends with bytes within one pass more than bytes
  -- are left. The stream must hand out its bytes in order, in whatever chunks up to the size asked
  -- for, no more than a line where a line is, and none only at its end.
  pub read_in-ends :
      (fuel : ℕ) (line : Bool) (size : Option ℕ) (input : ProgressInput S)
      → IsCalm line (deadline_of source clock input.deadline input)
      → length (bytes_left input.stream) < fuel
      → is_finished (read_in source clock fuel line size input) ≡ true
  unfolding read_in
  read_in-ends zero line size input calm h = absurd (omega arith)
  read_in-ends (suc fuel) line size input calm h = elim (Bool-cases (is_done size)) [
    | inl over ↦ rw over refl
    | inr more ↦ rw more (
        pass input.deadline refl calm (λ deadline held rest later g e.
          read_in-ends fuel line rest later
            (subst (IsCalm line) (ap (λ o. deadline_of source clock o later) (sym e)) held)
            (omega (arith, h, g))))
  ]
    where
      pass :
          (o : Option ℕ)
          → input.deadline ≡ o
          → IsCalm line (deadline_of source clock o input)
          → ((deadline : ℕ)
              → IsCalm line deadline
              → (rest : Option ℕ) (later : ProgressInput S)
              → length (bytes_left later.stream) < length (bytes_left input.stream)
              → later.deadline ≡ some deadline
              → is_finished (read_in source clock fuel line rest later) ≡ true)
          → is_finished (
              timed_pass source clock
                (read_in source clock fuel line)
                line
                size
                (deadline_of source clock o input)
                (started source clock o input))
            ≡ true
      pass none set held k =
          timed_pass-ends (read_in source clock fuel line) line size _
            (started source clock none input) held (k _ held)
      pass (some deadline) set held k =
          timed_pass-ends (read_in source clock fuel line) line size deadline input held
            (λ rest later g e. k deadline held rest later g (e ∙ set))
