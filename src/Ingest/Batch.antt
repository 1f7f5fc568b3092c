-- ===== src/Ingest/Batch.antt =====
-- `audit_event_batch_size` of forensics/ingest.py: the rows of one INSERT of bulk_create.
use goggles.Base.{
  ℕ, ◌*◌, ◌/◌, ◌≤◌, String, Bool, not, List, arith, if◌then◌else◌, ◌==◌, length, select, nat_eq,
}
use native.Mathlib.Nat.{mul-div-le}

abbrev pub postgres_max_bind_params : ℕ
postgres_max_bind_params = 65535

-- The columns of AuditEvent by name, with the mark of those that are created automatically.
abbrev pub bound_columns : List (String × Bool) → ℕ
bound_columns columns = length (select (λ (c : String × Bool). not c.1) columns)

abbrev pub at_least_one : ℕ → ℕ
at_least_one n = if n == 0 then 1 else n

unfoldable pub audit_event_batch_size : List (String × Bool) → ℕ
audit_event_batch_size columns =
    at_least_one (postgres_max_bind_params / (at_least_one (bound_columns columns) * 2))

-- A batch has a row, and unless a single row has more columns than one statement can bind, the
-- batch's rows bind no more parameters than it can.
pub audit_event_batch_size-le :
    (columns : List (String × Bool))
    → bound_columns columns ≤ postgres_max_bind_params
    → (1 ≤ audit_event_batch_size columns)
      × (audit_event_batch_size columns * bound_columns columns ≤ postgres_max_bind_params)
unfolding audit_event_batch_size
audit_event_batch_size-le columns h = go (bound_columns columns) h
  where
    positive : (q : ℕ) → 1 ≤ at_least_one q
    positive q = ground arith

    bound : (f q : ℕ) → f ≤ 65535 → at_least_one f * 2 * q ≤ 65535 → at_least_one q * f ≤ 65535
    bound f q h k = grind (arith, h, k)

    go :
        (f : ℕ)
        → f ≤ 65535
        → (1 ≤ at_least_one (65535 / (at_least_one f * 2)))
          × (at_least_one (65535 / (at_least_one f * 2)) * f ≤ 65535)
    go f h = (
      positive (65535 / (at_least_one f * 2)),
      bound f (65535 / (at_least_one f * 2)) h (mul-div-le 65535 (at_least_one f * 2)),
    )
