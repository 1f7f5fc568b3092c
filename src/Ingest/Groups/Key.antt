-- ===== src/Ingest/Groups/Key.antt =====
-- Group keys as keys of a dict, and in the order of their tuples.
use goggles.Base.Text.{str_leb}
use goggles.Base.Sort.{sorted_set}
use goggles.Upload.Parse.{ParsedLine}
use goggles.Ingest.Groups.{GroupKey, by_ref, by_slug, group_key_for_parsed_line}
use goggles.Base.{
  String, ◌≡◌, ◌↔◌, Bool, true, false, Option, none, some, List, [], ◌∷◌, arith, Eq, ◌==◌,
  string_eq,
}

abbrev pub key_beq : GroupKey → GroupKey → Bool
key_beq (by_ref a) (by_ref b) = a == b
key_beq (by_slug a) (by_slug b) = a == b
key_beq _ _ = false

pub key_beq_iff : (a b : GroupKey) → (key_beq a b ≡ true) ↔ (a ≡ b)
key_beq_iff (by_ref a) (by_ref b) = ground (arith, string_eq.same_iff a b)
key_beq_iff (by_slug a) (by_slug b) = ground (arith, string_eq.same_iff a b)
key_beq_iff (by_ref a) (by_slug b) = ground arith
key_beq_iff (by_slug a) (by_ref b) = ground arith

instance abbrev pub key_eq : Eq GroupKey
key_eq = record { same_iff = key_beq_iff; same = key_beq }

-- ("ref", a) and ("slug", b), by their first members and then by their second.
unfoldable pub key_leb : GroupKey → GroupKey → Bool
key_leb (by_ref a) (by_ref b) = str_leb a b
key_leb (by_slug a) (by_slug b) = str_leb a b
key_leb (by_ref a) (by_slug b) = true
key_leb (by_slug a) (by_ref b) = false

abbrev pub cons_if_key : Option GroupKey → List GroupKey → List GroupKey
cons_if_key none keys = keys
cons_if_key (some key) keys = key ∷ keys

-- sorted(key for key in keys if key is not None), of the set of the lines' keys
unfoldable pub keys_of : List ParsedLine → String → List GroupKey
keys_of [] fallback_group_slug = []
keys_of (parsed ∷ lines) fallback_group_slug =
    cons_if_key (group_key_for_parsed_line parsed fallback_group_slug)
      (keys_of lines fallback_group_slug)

unfoldable pub sorted_keys : List ParsedLine → String → List GroupKey
unfolding keys_of key_leb
sorted_keys lines fallback_group_slug = sorted_set key_leb (keys_of lines fallback_group_slug)
