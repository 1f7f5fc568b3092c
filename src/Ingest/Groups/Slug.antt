-- ===== src/Ingest/Groups/Slug.antt =====
-- A slug fits its column, whatever the group reference.
use goggles.Normalize.Columns.{group_slug_max_length}
use goggles.Ingest.Groups.{group_slug_for_ref, shortened, slug_or_incoming}
use goggles.Env.{Env}
use goggles.Base.Text.{str_len, str_take, str_len-str_take-le}
use goggles.Base.{◌+◌, ◌-◌, ◌≤◌, String, ◌<>◌, ◌≡◌, arith, string_eq}
use text.Mathlib.TextLemmas.{cons-append, nil-append}

str_len-append : (s t : String) → str_len (s <> t) ≡ str_len s + str_len t
unfolding str_len
str_len-append String.[] t = rw (nil-append t) (omega arith)
str_len-append (String.◌∷◌ c s) t = rw (cons-append c s t) (omega (arith, str_len-append s t))

module _ ⦃env : Env⦄ where
  shortened-le :
      (text digest : String)
      → str_len digest ≤ 32
      → str_len (shortened text digest) ≤ group_slug_max_length
  unfolding str_len
  shortened-le text digest h =
      let n = group_slug_max_length - str_len digest - 1 in
      omega (
        arith,
        str_len-append (str_take n text) ("-" <> digest),
        str_len-append "-" digest,
        str_len-str_take-le n text,
      )

  -- The slug of a group reference is no longer than the slug column, whatever slugify and the
  -- hash return.
  pub group_slug_for_ref-le :
      (group_ref : String) → str_len (group_slug_for_ref group_ref) ≤ group_slug_max_length
  unfolding group_slug_for_ref
  group_slug_for_ref-le group_ref = ground (
    arith,
    shortened-le (slug_or_incoming (env.slugify group_ref))
        (str_take 32 (env.sha256_text group_ref))
        (str_len-str_take-le 32 (env.sha256_text group_ref)),
  )
