-- ===== src/Json/Load.antt =====
-- `loads_audit_json` of forensics/ingest.py: the depth test, then `json.loads` with two hooks.
use goggles.Base.{
  ℕ, ◌≤◌, String, ◌≡◌, refl, ap, ◌↔◌, inl, inr, Bool, true, false, not, ◌&&◌, ◌||◌, Option, none,
  some, [], ◌∷◌, ◌++◌, arith, ltb, if◌then◌else◌, Bool-cases, ◌==◌, string_eq,
}
use mathlib.Core.List.{append-nil}
use goggles.Base.Dict
use goggles.Base.Dict.{Dict}
use goggles.Json.{
  Value, Items, Fields, null, bool, int, neg, float, constant, str, arr, obj, nil, cons, end, field,
  entries, of_entries, has_key,
}
use goggles.Json.Depth.{max_json_nesting_depth}

abbrev pub max_json_nesting : ℕ
max_json_nesting = 200

-- The loop of unique_object: `none` is the ValueError on a repeated key.
unfoldable pub unique_from : Dict String Value → Dict String Value → Option (Dict String Value)
unique_from result [] = some result
unique_from result ((k, v) ∷ pairs) =
    let rest = unique_from (Dict.put k v result) pairs in if Dict.has k result then none else rest

unfoldable pub unique_object : Dict String Value → Option (Dict String Value)
unfolding unique_from
unique_object pairs = unique_from [] pairs

abbrev bind {ℓ κ} : {A : Type ℓ} {B : Type κ} → Option A → (A → Option B) → Option B
bind none f = none
bind (some a) f = f a

-- What `json.loads` returns with the hooks installed, from the parse tree: the hook for constants
-- raises, and the hook for objects sees the pairs of each object, whose values are done.
unfoldable mutual
  unfolding unique_object

  pub hooked : Value → Option Value
  hooked null = some null
  hooked (bool b) = some (bool b)
  hooked (int n) = some (int n)
  hooked (neg n) = some (neg n)
  hooked (float s) = some (float s)
  hooked (constant s) = none
  hooked (str s) = some (str s)
  hooked (arr xs) = bind (hooked_items xs) (λ ys. some (arr ys))
  hooked (obj fs) =
      bind (hooked_fields fs)
        (λ gs. bind (unique_object (entries gs)) (λ d. some (obj (of_entries d))))

  pub hooked_items : Items → Option Items
  hooked_items nil = some nil
  hooked_items (cons x xs) = bind (hooked x) (λ y. bind (hooked_items xs) (λ ys. some (cons y ys)))

  pub hooked_fields : Fields → Option Fields
  hooked_fields end = some end
  hooked_fields (field k v fs) =
      bind (hooked v) (λ w. bind (hooked_fields fs) (λ gs. some (field k w gs)))

-- `decode` is the parse of `json.loads` before its hooks; `none` is its JSONDecodeError.
unfoldable pub loads_audit_json : (String → Option Value) → String → Option Value
loads_audit_json decode raw =
    if ltb max_json_nesting (max_json_nesting_depth raw) then none else bind (decode raw) hooked

-- A value without constants in which no object repeats a key, at any depth.
mutual
  pub is_strict : Value → Bool
  is_strict null = true
  is_strict (bool b) = true
  is_strict (int n) = true
  is_strict (neg n) = true
  is_strict (float s) = true
  is_strict (constant s) = false
  is_strict (str s) = true
  is_strict (arr xs) = is_strict_items xs
  is_strict (obj fs) = is_strict_fields fs && distinct_keys fs

  pub is_strict_items : Items → Bool
  is_strict_items nil = true
  is_strict_items (cons x xs) = is_strict x && is_strict_items xs

  pub is_strict_fields : Fields → Bool
  is_strict_fields end = true
  is_strict_fields (field k v fs) = is_strict v && is_strict_fields fs

  pub distinct_keys : Fields → Bool
  distinct_keys end = true
  distinct_keys (field k v fs) = not (has_key k fs) && distinct_keys fs

-- No pair's key is in `result`.
fresh : Dict String Value → Dict String Value → Bool
fresh result [] = true
fresh result ((k, v) ∷ d) = not (Dict.has k result) && fresh result d

put_fresh :
    (k : String) (v : Value) (d : Dict String Value)
    → Dict.has k d ≡ false
    → Dict.put k v d ≡ d ++ (k, v) ∷ []
unfolding Dict.put Dict.get
put_fresh k v [] h = refl
put_fresh k v ((j, w) ∷ d) h = ground (arith, put_fresh k v d)

has-append :
    (k j : String) (v : Value) (d : Dict String Value)
    → Dict.has j (d ++ (k, v) ∷ []) ≡ (Dict.has j d || k == j)
unfolding Dict.get
has-append k j v [] = ground arith
has-append k j v ((i, w) ∷ d) = ground (arith, has-append k j v d)

fresh-append :
    (k : String) (v : Value) (result d : Dict String Value)
    → fresh (result ++ (k, v) ∷ []) d ≡ (fresh result d && not (Dict.has k d))
unfolding fresh Dict.get
fresh-append k v result [] = refl
fresh-append k v result ((j, w) ∷ d) = ground (
  arith,
  has-append k j v result,
  fresh-append k v result d,
  string_eq.same_iff k j,
  string_eq.same_iff j k,
)

append_assoc_one :
    (a : String × Value) (xs ys : Dict String Value) → (xs ++ a ∷ []) ++ ys ≡ xs ++ a ∷ ys
append_assoc_one a [] ys = refl
append_assoc_one a (x ∷ xs) ys = cc (append_assoc_one a xs ys)

distinct : Dict String Value → Bool
distinct [] = true
distinct ((k, v) ∷ d) = not (Dict.has k d) && distinct d

unique_from_lem :
    (result pairs : Dict String Value)
    → unique_from result pairs
      ≡ (if fresh result pairs && distinct pairs then some (result ++ pairs) else none)
unfolding unique_from fresh distinct
unique_from_lem result [] = rw (append-nil)
unique_from_lem result ((k, v) ∷ pairs) = elim (Bool-cases (Dict.has k result)) [
  | inl old ↦ ground arith
  | inr new ↦
      rw
        (
          new,
          put_fresh k v result new,
          unique_from_lem (result ++ (k, v) ∷ []) pairs,
          fresh-append k v result pairs,
          append_assoc_one (k, v) result pairs,
        )
        (ground arith)
]

entries-distinct : (fs : Fields) → distinct (entries fs) ≡ distinct_keys fs
unfolding distinct distinct_keys
entries-distinct end = refl
entries-distinct (field k v fs) = rw (entries-distinct fs)

of_entries-entries : (fs : Fields) → of_entries (entries fs) ≡ fs
of_entries-entries end = refl
of_entries-entries (field k v fs) = ap (field k v) (of_entries-entries fs)

fresh_nil : (d : Dict String Value) → fresh [] d ≡ true
unfolding fresh Dict.get
fresh_nil [] = refl
fresh_nil ((k, v) ∷ d) = fresh_nil d

unique_object_lem :
    (fs : Fields)
    → unique_object (entries fs) ≡ (if distinct_keys fs then some (entries fs) else none)
unfolding unique_object
unique_object_lem fs =
    rw (unique_from_lem [] (entries fs), fresh_nil (entries fs), entries-distinct fs)

mutual
  unfolding hooked is_strict

  hooked_lem : (v : Value) → hooked v ≡ (if is_strict v then some v else none)
  hooked_lem null = refl
  hooked_lem (bool b) = refl
  hooked_lem (int n) = refl
  hooked_lem (neg n) = refl
  hooked_lem (float s) = refl
  hooked_lem (constant s) = refl
  hooked_lem (str s) = refl
  hooked_lem (arr xs) = ground (arith, hooked_items_lem xs)
  hooked_lem (obj fs) =
      ground (arith, hooked_fields_lem fs, unique_object_lem fs, of_entries-entries fs)

  hooked_items_lem : (xs : Items) → hooked_items xs ≡ (if is_strict_items xs then some xs else none)
  hooked_items_lem nil = refl
  hooked_items_lem (cons x xs) = ground (arith, hooked_lem x, hooked_items_lem xs)

  hooked_fields_lem :
      (fs : Fields) → hooked_fields fs ≡ (if is_strict_fields fs then some fs else none)
  hooked_fields_lem end = refl
  hooked_fields_lem (field k v fs) = ground (arith, hooked_lem v, hooked_fields_lem fs)

-- A line loads exactly if it nests at most 200 deep, the parser accepts it, and its value has
-- no constant such as NaN and no object with a repeated key at any depth. The value is then the
-- parser's, unchanged.
pub loads_audit_json_iff :
    (decode : String → Option Value) (raw : String) (v : Value)
    → (loads_audit_json decode raw ≡ some v) ↔ (
        (max_json_nesting_depth raw ≤ max_json_nesting)
        × (decode raw ≡ some v)
        × (is_strict v ≡ true))
unfolding loads_audit_json
loads_audit_json_iff decode raw v = (loaded (decode raw) refl, λ h. accepted h)
  where
    loaded :
        (o : Option Value)
        → decode raw ≡ o
        → loads_audit_json decode raw ≡ some v
        → (max_json_nesting_depth raw ≤ max_json_nesting)
          × (decode raw ≡ some v)
          × (is_strict v ≡ true)
    loaded none e h = ground arith
    loaded (some w) e h = ground (arith, hooked_lem w)

    accepted :
        (max_json_nesting_depth raw ≤ max_json_nesting)
          × (decode raw ≡ some v)
          × (is_strict v ≡ true)
        → loads_audit_json decode raw ≡ some v
    accepted h = ground (arith, hooked_lem v)
