-- ===== src/Ingest/Groups/Find.antt =====
-- The rows of groups: `group_for_ref`, `group_for_slug` and `groups_for_parsed_lines` of
-- forensics/ingest.py.
use goggles.Ingest.Session.{◌>>=◌, ◌>>◌, gets, modify}
use goggles.Base.Dict.{Dict}
use goggles.Base.Text.{nonempty, str_take}
use goggles.Ingest.Groups.{GroupKey, by_ref, by_slug, group_slug_for_ref}
use goggles.Ingest.Session.{Database, Transaction, statement, pure}
use goggles.Env.{Env}
use goggles.Ingest.Store.{GroupRow, Store}
use Prim.Native.Char.{code}
use goggles.Base.{
  ℕ, suc, String, ◌<>◌, Bool, true, false, not, ◌&&◌, Option, none, some, List, [], ◌∷◌, ◌++◌, map,
  if◌then◌else◌, ◌==◌, string_eq, nat_eq,
}

abbrev pub first_group : (GroupRow → Bool) → List GroupRow → Option GroupRow
first_group test [] = none
first_group test (row ∷ rows) =
    let later = first_group test rows in if test row then some row else later

-- group.save(update_fields=["group_ref"])
abbrev pub set_group_ref : ℕ → String → List GroupRow → List GroupRow
set_group_ref id group_ref rows =
    map (λ row. if row.id == id then record row { group_ref = group_ref } else row) rows

abbrev pub new_group : String → String → String → Store → GroupRow
new_group slug name group_ref store = record {
  id = store.next_group;
  name = name;
  slug = slug;
  group_ref = group_ref;
  divergent_message_count = 0;
}

abbrev pub add_group : GroupRow → Store → Store
add_group row store = record store {
  groups = store.groups ++ row ∷ [];
  next_group = suc store.next_group;
}

-- slug.replace("-", " ")
unfoldable pub dashes_to_spaces : String → String
dashes_to_spaces String.[] = ""
dashes_to_spaces (String.◌∷◌ c s) =
    String.◌∷◌ (if code c == 45 then " " else c) (dashes_to_spaces s)

module _ ⦃env : Env⦄ ⦃db : Database⦄ where
  abbrev pub found_or_created :
      Option GroupRow → String → String → String → Transaction (GroupRow × Bool)
  found_or_created (some row) slug name group_ref = pure (row, false)
  found_or_created none slug name group_ref = do
    statement
    row ← gets (new_group slug name group_ref)
    modify (add_group row)
    pure (row, true)

  -- AuditGroup.objects.get_or_create(slug=slug, defaults=...)
  unfoldable pub get_or_create : String → String → String → Transaction (GroupRow × Bool)
  unfolding statement
  get_or_create slug name group_ref = do
    statement
    existing ← gets (λ store. first_group (λ row. row.slug == slug) store.groups)
    found_or_created existing slug name group_ref

  -- A group without a reference takes this one; the save that only moves `updated_at` is a statement.
  abbrev pub claim_ref : String → GroupRow × Bool → Transaction GroupRow
  claim_ref group_ref (row, created) =
      if nonempty group_ref && not (nonempty row.group_ref)
      then (do
        statement
        modify (λ store. record store { groups = set_group_ref row.id group_ref store.groups })
        pure (record row { group_ref = group_ref }))
      else if created
      then statement >> pure row
      else pure row

  abbrev pub group_with_ref : Option GroupRow → String → Transaction GroupRow
  group_with_ref (some row) group_ref = pure row
  group_with_ref none group_ref = do
    found ←
        get_or_create (group_slug_for_ref group_ref) ("Group " <> str_take 12 group_ref) group_ref
    claim_ref group_ref found

  unfoldable pub group_for_ref : String → Transaction GroupRow
  unfolding get_or_create group_slug_for_ref statement
  group_for_ref group_ref = do
    statement
    existing ← gets (λ store. first_group (λ row. row.group_ref == group_ref) store.groups)
    group_with_ref existing group_ref

  unfoldable pub group_name_from_slug : String → String
  unfolding dashes_to_spaces
  group_name_from_slug slug =
      let name = env.title (env.strip (dashes_to_spaces slug)) in
      if nonempty name then name else "Incoming"

  unfoldable pub group_for_slug : String → String → Transaction GroupRow
  unfolding get_or_create group_name_from_slug
  group_for_slug slug name = do
    found ← get_or_create slug (if nonempty name then name else group_name_from_slug slug) ""
    pure found.0

  unfoldable pub group_for_key : GroupKey → String → Transaction GroupRow
  unfolding group_for_ref group_for_slug
  group_for_key (by_ref value) fallback_group_name = group_for_ref value
  group_for_key (by_slug value) fallback_group_name = group_for_slug value fallback_group_name

  unfoldable pub groups_for_keys : List GroupKey → String → Transaction (Dict GroupKey GroupRow)
  unfolding group_for_key
  groups_for_keys [] fallback_group_name = pure []
  groups_for_keys (key ∷ keys) fallback_group_name = do
    row ← group_for_key key fallback_group_name
    rows ← groups_for_keys keys fallback_group_name
    pure ((key, row) ∷ rows)
