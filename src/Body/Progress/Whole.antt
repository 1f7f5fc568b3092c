-- ===== src/Body/Progress/Whole.antt =====
-- A read in chunks is one read: `_read` gives what its stream has, and ends.
use goggles.Body.Progress.{
  no_fuel, Stream, Clock, Outcome, finished, is_done, prepend, read_chunk, chunk_limit, timed_out,
  broken, ProgressInput, take_chunk, read_in, timed_pass, deadline_of, ends_with_newline, started,
  size_left,
}
use goggles.Base.{
  ℕ, zero, suc, ◌<◌, ◌≡◌, refl, sym, ap, ◌∙◌, inl, inr, Bool, true, false, ◌&&◌, Option, none, some,
  List, [], ◌∷◌, ◌++◌, arith, ltb, leb, Bool-cases, ◌==◌, length, is_empty, drop, length-append,
  nat_eq,
}
use goggles.Body.Progress.Chunks.{
  wanted, first_line, taken, drop-append, drop-chunk, IsChunk, wanted_chunked,
}

-- `bytes_left` are the bytes that arrive before the stream's end, and it hands them out in order, in
-- chunks of any size up to the one asked for.
pub record IsStream {S : Type 0} (source : Stream S) (bytes_left : S → List ℕ) : Type 0 where
  pub read_gives :
      (n : ℕ) (s t : S) (chunk : List ℕ)
      → source.read n s ≡ some (chunk, t)
      → IsChunk false n (bytes_left s) (bytes_left t) chunk
  pub line_gives :
      (n : ℕ) (s t : S) (chunk : List ℕ)
      → source.readline n s ≡ some (chunk, t)
      → IsChunk true n (bytes_left s) (bytes_left t) chunk

-- What the loop gives for a read of that size, where these bytes are left.
abbrev pub Gives : {S : Type 0} → (S → List ℕ) → Bool → Option ℕ → List ℕ → Outcome S → Type 0
Gives bytes_left line size bytes (finished given input) =
    (given ≡ wanted line size bytes) × (bytes_left input.stream ≡ drop (length given) bytes)
Gives bytes_left line size bytes timed_out = Unit
Gives bytes_left line size bytes broken = Unit
Gives bytes_left line size bytes no_fuel = ⊥

module _ {S : Type 0} (source : Stream S) (clock : Clock) (bytes_left : S → List ℕ)
    (law : IsStream source bytes_left) where
  pub chunk_lem :
      (line : Bool) (limit : ℕ) (s t : S) (chunk : List ℕ)
      → read_chunk source clock line limit s ≡ some (chunk, t)
      → IsChunk line limit (bytes_left s) (bytes_left t) chunk
  chunk_lem false limit s t chunk h = law.read_gives limit s t chunk h
  chunk_lem true limit s t chunk h = law.line_gives limit s t chunk h

  Gives-prepend :
      (line : Bool) (size rest : Option ℕ) (bytes left chunk : List ℕ) (out : Outcome S)
      → wanted line size bytes ≡ chunk ++ wanted line rest left
      → left ≡ drop (length chunk) bytes
      → Gives bytes_left line rest left out
      → Gives bytes_left line size bytes (prepend chunk out)
  Gives-prepend line size rest bytes left chunk (finished given input) w l g = (
    ap (λ r. chunk ++ r) g.0 ∙ sym w,
    g.1 ∙ ap (drop (length given)) l ∙ sym (drop-append chunk given bytes),
  )
  Gives-prepend line size rest bytes left chunk timed_out w l g = tt
  Gives-prepend line size rest bytes left chunk broken w l g = tt
  Gives-prepend line size rest bytes left chunk no_fuel w l g = g

  chunk_limit_lem : (size : Option ℕ) → is_done size ≡ false → 0 < chunk_limit size
  chunk_limit_lem none h = omega arith
  chunk_limit_lem (some n) h = ground arith

  wanted-done :
      (line : Bool) (size : Option ℕ) (bytes : List ℕ)
      → is_done size ≡ true
      → wanted line size bytes ≡ []
  unfolding first_line
  wanted-done line none bytes h = absurd (ground arith)
  wanted-done line (some n) bytes h = rw (zero_of n h) (none_taken line bytes)
    where
      zero_of : (n : ℕ) → (n == 0) ≡ true → n ≡ 0
      zero_of n h = ground arith

      none_taken : (line : Bool) (bytes : List ℕ) → taken line 0 bytes ≡ []
      none_taken false bytes = refl
      none_taken true [] = refl
      none_taken true (b ∷ bytes) = refl

  wanted-nil : (line : Bool) (size : Option ℕ) → wanted line size [] ≡ []
  unfolding first_line
  wanted-nil false none = refl
  wanted-nil true none = refl
  wanted-nil false (some zero) = refl
  wanted-nil false (some (suc n)) = refl
  wanted-nil true (some n) = refl

  append_nil : (bytes : List ℕ) → bytes ++ [] ≡ bytes
  append_nil [] = refl
  append_nil (b ∷ bytes) = ap (λ r. b ∷ r) (append_nil bytes)

  -- Behind an empty chunk, nothing is left.
  nothing_wanted :
      (line : Bool) (size : Option ℕ) (bytes : List ℕ)
      → is_empty bytes ≡ true
      → wanted line size bytes ≡ []
  nothing_wanted line size [] h = wanted-nil line size
  nothing_wanted line size (b ∷ bytes) h = absurd (ground arith)

  none_read : (chunk : List ℕ) → is_empty chunk ≡ true → length chunk ≡ 0
  none_read [] h = refl
  none_read (b ∷ chunk) h = absurd (ground arith)

  -- A chunk that is not empty leaves less.
  pub left_less :
      (line : Bool) (k : ℕ) (bytes left chunk : List ℕ)
      → IsChunk line k bytes left chunk
      → is_empty chunk ≡ false
      → length left < length bytes
  left_less line k bytes left [] c e = absurd (ground arith)
  left_less line k bytes left (b ∷ chunk) c e =
      omega (arith, ap length c.in_order, length-append (b ∷ chunk) left)

  -- The pass behind a chunk, if the next passes give what is wanted of the rest.
  take_chunk-Gives :
      (next : Option ℕ → ProgressInput S → Outcome S) (line : Bool) (size : Option ℕ) (deadline : ℕ)
      (input : ProgressInput S) (o : Option (List ℕ × S))
      → is_done size ≡ false
      → read_chunk source clock line (chunk_limit size) input.stream ≡ o
      → ((rest : Option ℕ) (later : ProgressInput S)
          → length (bytes_left later.stream) < length (bytes_left input.stream)
          → Gives bytes_left line rest (bytes_left later.stream) (next rest later))
      → Gives bytes_left line size
          (bytes_left input.stream)
          (take_chunk source clock next line size deadline input o)
  take_chunk-Gives next line size deadline input none d e k = tt
  take_chunk-Gives next line size deadline input (some (chunk, s)) d e k =
      let bytes = bytes_left input.stream in
      let left = bytes_left s in
      let c = chunk_lem line (chunk_limit size) input.stream s chunk e in
      let w = wanted_chunked line size bytes left chunk c in
      let l : left ≡ drop (length chunk) bytes =
        sym (ap (drop (length chunk)) c.in_order ∙ drop-chunk chunk left) in
      elim (Bool-cases (ltb deadline (clock.monotonic input.clock_calls))) [
        | inl late ↦ rw late tt
        | inr timely ↦ rw timely (elim (Bool-cases (is_empty chunk)) [
          | inl empty ↦
              let gone = c.at_end (chunk_limit_lem size d) empty in
              rw empty (
                sym (nothing_wanted line size bytes gone),
                l ∙ ap (λ n. drop n bytes) (none_read chunk empty),
              )
          | inr full ↦ rw full (elim (Bool-cases (line && ends_with_newline chunk)) [
            | inl whole ↦ rw whole (sym (rw whole at w ∙ append_nil chunk), l)
            | inr partial ↦ rw partial (
                Gives-prepend line size (size_left size chunk) bytes left chunk _ (rw partial at w)
                  l
                  (k (size_left size chunk) _
                    (left_less line (chunk_limit size) bytes left chunk c full)))
          ])
        ])
      ]

  timed_pass-Gives :
      (next : Option ℕ → ProgressInput S → Outcome S) (line : Bool) (size : Option ℕ) (deadline : ℕ)
      (input : ProgressInput S)
      → is_done size ≡ false
      → ((rest : Option ℕ) (later : ProgressInput S)
          → length (bytes_left later.stream) < length (bytes_left input.stream)
          → Gives bytes_left line rest (bytes_left later.stream) (next rest later))
      → Gives bytes_left line size
          (bytes_left input.stream)
          (timed_pass source clock next line size deadline input)
  timed_pass-Gives next line size deadline input d k =
      elim (Bool-cases (leb deadline (clock.monotonic input.clock_calls))) [
        | inl late ↦ rw late tt
        | inr timely ↦ rw timely (take_chunk-Gives next line size deadline _ _ d refl k)
      ]

  -- However the clock runs, and whatever chunks the stream cuts its bytes into, a read ends within
  -- one pass more than bytes are left, and unless the deadline passes or the stream raises, it gives
  -- all bytes that are left, or so many of them as were asked for, or of the first line; the bytes
  -- behind them are left. The stream must hand out its bytes in order, no more than are asked for, no
  -- more than a line where a line is, and none only at its end.
  pub read_in-Gives :
      (fuel : ℕ) (line : Bool) (size : Option ℕ) (input : ProgressInput S)
      → length (bytes_left input.stream) < fuel
      → Gives bytes_left line size
          (bytes_left input.stream)
          (read_in source clock fuel line size input)
  unfolding read_in
  read_in-Gives zero line size input h = absurd (omega arith)
  read_in-Gives (suc fuel) line size input h = elim (Bool-cases (is_done size)) [
    | inl over ↦ rw over (sym (wanted-done line size (bytes_left input.stream) over), refl)
    | inr more ↦ rw more (
        pass input.deadline more
          (λ rest later g. read_in-Gives fuel line rest later (omega (arith, h, g))))
  ]
    where
      pass :
          (o : Option ℕ)
          → is_done size ≡ false
          → ((rest : Option ℕ) (later : ProgressInput S)
              → length (bytes_left later.stream) < length (bytes_left input.stream)
              → Gives bytes_left line rest
                  (bytes_left later.stream)
                  (read_in source clock fuel line rest later))
          → Gives bytes_left line size (bytes_left input.stream) (
              timed_pass source clock
                (read_in source clock fuel line)
                line
                size
                (deadline_of source clock o input)
                (started source clock o input))
      pass none d k = timed_pass-Gives (read_in source clock fuel line) line size _ _ d k
      pass (some deadline) d k =
          timed_pass-Gives (read_in source clock fuel line) line size deadline input d k
