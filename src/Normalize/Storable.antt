-- ===== src/Normalize/Storable.antt =====
-- Every write of the normalizer is within the limits of its column: what they are, and the rule for
-- each way to build a step. The characters of a text are not looked at.
pub mod Helpers
pub mod Ids
pub mod Outbound
pub mod Kinds
pub mod Events
pub mod Rows
use goggles.Base.{
  String, ◌≡◌, refl, Bool, true, false, not, ◌||◌, Option, none, some, List, [], ◌∷◌, arith, leb,
  if◌then◌else◌, ◌==◌, contains, string_eq,
}
use goggles.Base.Dict
use goggles.Base.Dict.{Dict, get-put}
use goggles.Base.Text.{str_len}
use goggles.Env.{FieldType, char, text, positive_integer, positive_big_integer, boolean, json, Env}
use goggles.Json.{is_hex, Value, null, bool, int, str}
use goggles.Normalize.Columns.{columns, exceeds, group_ref_max_length}
use goggles.Normalize.Event.{max_wall_time_ms}
use goggles.Normalize.Copy.{Notes, Norm, ◌>>◌, skip, fail, store, unless}

-- The columns that the normalizer fills with a value whose size it does not test itself: the
-- schema bounds the first, and the others count the members of a list.
abbrev pub untested : List String
untested = "account_ref" ∷ "candidate_count" ∷ "eligible_count" ∷ []

-- The columns for one message id, whose index bounds them: they take 64 hex digits and no more.
-- The time column takes an instant up to the year 2100, and the indexed group reference a text that
-- fits the group's own column.
abbrev pub strict_columns : List String
strict_columns =
    "msg_id" ∷ "outbound_msg_id" ∷ "invalidated_msg_id" ∷ "wall_time_ms" ∷ "group_ref" ∷ []

abbrev pub is_instant : Value → Bool
is_instant null = true
is_instant (int n) = leb n max_wall_time_ms
is_instant _ = false

abbrev pub is_short_ref : Value → Bool
is_short_ref (str t) = leb (str_len t) group_ref_max_length
is_short_ref _ = false

abbrev pub fits_strict : String → Value → Bool
fits_strict field v =
    if field == "wall_time_ms"
    then is_instant v
    else if field == "group_ref"
    then is_short_ref v
    else is_hex (some 64) v

module _ ⦃env : Env⦄ where
  -- Whether a value has the column's type; with `test`, whether it is within the type's limit too.
  abbrev pub fits : Bool → Option FieldType → Value → Bool
  fits test (some (char n)) (str t) = not test || leb (str_len t) n
  fits test (some text) (str t) = true
  fits test (some positive_integer) (int n) =
      not test || not (exceeds (env.integer_field_max positive_integer) n)
  fits test (some positive_integer) null = true
  fits test (some positive_big_integer) (int n) =
      not test || not (exceeds (env.integer_field_max positive_big_integer) n)
  fits test (some positive_big_integer) null = true
  fits test (some boolean) (bool b) = true
  fits test (some json) v = true
  fits test _ _ = false

  unfoldable pub within_limits : String → Value → Bool
  unfolding columns
  within_limits field v =
      if contains field strict_columns
      then fits_strict field v
      else fits (not (contains field untested)) (Dict.get field columns) v

  -- Every entry is a column of AuditEvent, and its value is within the limits.
  pub record IsWithinLimits (s : Notes) : Type 0 where
    pub at :
        (field : String) (v : Value)
        → Dict.get field s.normalized ≡ some v
        → within_limits field v ≡ true

  -- The step keeps that.
  pub record Keeps (f : Norm) : Type 0 where
    pub keep : (s : Notes) → IsWithinLimits s → IsWithinLimits (f s)

  pub Keeps-skip : Keeps skip
  Keeps-skip = record { keep = λ s h. h }

  pub Keeps-fail : (message : String) → Keeps (fail message)
  Keeps-fail message = record { keep = λ s h. record { at = h.at } }

  pub Keeps-store :
      (field : String) (v : Value) → within_limits field v ≡ true → Keeps (store field v)
  Keeps-store field v fit = record {
    keep = λ s h. record {
      at = λ j w e.
          ground (arith, get-put field j v s.normalized, h.at j w, string_eq.same_iff field j);
    };
  }

  pub Keeps->> : (f g : Norm) → Keeps f → Keeps g → Keeps (f >> g)
  Keeps->> f g kf kg = record { keep = λ s h. kg.keep (f s) (kf.keep s h) }

  pub Keeps-unless : (o : Option String) (f : Norm) → (o ≡ none → Keeps f) → Keeps (unless o f)
  Keeps-unless none f k = k refl
  Keeps-unless (some message) f k = Keeps-fail message

  pub Keeps-if :
      (b : Bool) (f g : Norm)
      → (b ≡ true → Keeps f)
      → (b ≡ false → Keeps g)
      → Keeps (if b then f else g)
  Keeps-if true f g kf kg = kf refl
  Keeps-if false f g kf kg = kg refl

pub ruleset keeps_rules = (Keeps-skip, Keeps-fail, Keeps->>, Keeps-if, refl)
