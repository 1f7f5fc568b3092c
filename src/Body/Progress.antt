-- ===== src/Body/Progress.antt =====
-- `ProgressInput._read` of deploy/ingest_worker.py: a read in chunks, under a deadline. The timeout
-- of the socket is set and put back around each chunk, which nothing here reads.
pub mod Chunks
pub mod Whole
pub mod Ends
use goggles.Base.{
  ℕ, zero, suc, ◌+◌, ◌-◌, Bool, false, ◌&&◌, Option, none, some, List, [], ◌∷◌, ◌++◌, ltb, leb,
  if◌then◌else◌, ◌==◌, length, is_empty, nat_eq,
}

-- The body's stream in a state S; `none` is an exception. read(n) and readline(n) for n above 0.
pub record Stream (S : Type 0) : Type 0 where
  pub read : ℕ → S → Option (List ℕ × S)
  pub readline : ℕ → S → Option (List ℕ × S)

-- What monotonic() returns, by the count of its calls, and the timeout of a transfer.
pub record Clock : Type 0 where
  pub monotonic : ℕ → ℕ
  pub transfer_timeout : ℕ

pub record ProgressInput (S : Type 0) : Type 0 where
  pub stream : S
  pub deadline : Option ℕ
  pub clock_calls : ℕ
  pub notified : ℕ

-- `timed_out` is the TimeoutError, and `broken` an exception of the stream.
pub data Outcome (S : Type 0) : Type 0 where
  finished : List ℕ → ProgressInput S → Outcome S
  timed_out : Outcome S
  broken : Outcome S
  no_fuel : Outcome S

abbrev pub chunk_size : ℕ
chunk_size = 65536

-- A size of None or below 0 is `none`.
abbrev pub chunk_limit : Option ℕ → ℕ
chunk_limit none = chunk_size
chunk_limit (some size) = if ltb chunk_size size then chunk_size else size

-- size -= len(chunk), for a size above 0; below 0, the rest is read without a limit.
abbrev pub size_left : Option ℕ → List ℕ → Option ℕ
size_left none chunk = none
size_left (some size) chunk = if ltb size (length chunk) then none else some (size - length chunk)

abbrev pub is_done : Option ℕ → Bool
is_done none = false
is_done (some size) = size == 0

unfoldable pub ends_with_newline : List ℕ → Bool
ends_with_newline [] = false
ends_with_newline (b ∷ bs) =
    let later = ends_with_newline bs in if is_empty bs then b == 10 else later

abbrev pub prepend : {S : Type 0} → List ℕ → Outcome S → Outcome S
prepend chunk (finished bytes input) = finished (chunk ++ bytes) input
prepend chunk timed_out = timed_out
prepend chunk broken = broken
prepend chunk no_fuel = no_fuel

module _ {S : Type 0} (source : Stream S) (clock : Clock) where
  -- The input with its deadline set.
  abbrev pub started : Option ℕ → ProgressInput S → ProgressInput S
  started (some deadline) input = input
  started none input = record input {
    deadline = some (clock.monotonic input.clock_calls + clock.transfer_timeout);
    clock_calls = suc input.clock_calls;
  }

  abbrev pub deadline_of : Option ℕ → ProgressInput S → ℕ
  deadline_of (some deadline) input = deadline
  deadline_of none input = clock.monotonic input.clock_calls + clock.transfer_timeout

  abbrev pub told : S → ProgressInput S → ProgressInput S
  told s input = record input { stream = s; notified = suc input.notified }

  -- Behind the stream's chunk; `next` is the loop's next pass.
  abbrev pub take_chunk :
      (Option ℕ → ProgressInput S → Outcome S)
      → Bool
      → Option ℕ
      → ℕ
      → ProgressInput S
      → Option (List ℕ × S)
      → Outcome S
  take_chunk next line size deadline input none = broken
  take_chunk next line size deadline input (some (chunk, s)) =
      let checked = record input { clock_calls = suc input.clock_calls } in
      if ltb deadline (clock.monotonic input.clock_calls)
      then timed_out
      else if is_empty chunk
      then finished [] (record checked { stream = s })
      else if line && ends_with_newline chunk
      then finished chunk (told s checked)
      else prepend chunk (next (size_left size chunk) (told s checked))

  abbrev pub read_chunk : Bool → ℕ → S → Option (List ℕ × S)
  read_chunk line limit s = if line then source.readline limit s else source.read limit s

  -- A pass of the loop, with the input's deadline set.
  abbrev pub timed_pass :
      (Option ℕ → ProgressInput S → Outcome S) → Bool → Option ℕ → ℕ → ProgressInput S → Outcome S
  timed_pass next line size deadline input =
      if leb deadline (clock.monotonic input.clock_calls)
      then timed_out
      else take_chunk next line size deadline (record input { clock_calls = suc input.clock_calls })
          (read_chunk line (chunk_limit size) input.stream)

  -- `_read(size, line=line)`, in so many passes of its loop at most.
  unfoldable pub read_in : ℕ → Bool → Option ℕ → ProgressInput S → Outcome S
  unfolding ends_with_newline
  read_in zero line size input = if is_done size then finished [] input else no_fuel
  read_in (suc fuel) line size input =
      if is_done size
      then finished [] input
      else timed_pass (read_in fuel line) line size (deadline_of input.deadline input)
          (started input.deadline input)
