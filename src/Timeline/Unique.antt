-- ===== src/Timeline/Unique.antt =====
-- What `unique_in_order` of forensics/analysis.py gives.
use goggles.Base.Text.{nonempty}
use goggles.Base.{
  String, ◌≡◌, refl, ◌∙◌, inl, inr, Bool, true, false, not, ◌&&◌, ◌||◌, List, [], ◌∷◌, ◌++◌, arith,
  Bool-cases, ◌==◌, contains, contains-append, string_eq,
}
use goggles.Timeline.Item.{unique_in_order, unique_from}

-- No text stands twice.
abbrev pub IsUnique : List String → Type 0
IsUnique [] = Unit
IsUnique (x ∷ xs) = (contains x xs ≡ false) × IsUnique xs

append-IsUnique :
    (xs : List String) (v : String) → IsUnique xs → contains v xs ≡ false → IsUnique (xs ++ v ∷ [])
append-IsUnique [] v h k = (refl, tt)
append-IsUnique (x ∷ xs) v h k = (
  contains-append x xs (v ∷ [])
      ∙ ground (arith, h.0, string_eq.same_iff v x, string_eq.same_iff x v),
  append-IsUnique xs v h.1 (ground arith),
)

unique_from-IsUnique :
    (result values : List String) → IsUnique result → IsUnique (unique_from result values)
unfolding unique_from
unique_from-IsUnique result [] h = h
unique_from-IsUnique result (value ∷ values) h =
    elim (Bool-cases (not (nonempty value) || contains value result)) [
      | inl known ↦ rw known (unique_from-IsUnique result values h)
      | inr new ↦ rw new (
          unique_from-IsUnique (result ++ value ∷ []) values
            (append-IsUnique result value h (ground (arith, new))))
    ]

contains-unique_from :
    (v : String) (result values : List String)
    → contains v (unique_from result values)
      ≡ (contains v result || (nonempty v && contains v values))
unfolding unique_from
contains-unique_from v result [] = ground arith
contains-unique_from v result (value ∷ values) =
    elim (Bool-cases (not (nonempty value) || contains value result)) [
      | inl known ↦ rw known (
          contains-unique_from v result values
          ∙ skipped (value == v) ((string_eq.same_iff value v).0) known)
      | inr new ↦ rw new (
          contains-unique_from v (result ++ value ∷ []) values
          ∙ ground (
            arith,
            new,
            contains-append v result (value ∷ []),
            kept (value == v) ((string_eq.same_iff value v).0) new,
          ))
    ]
  where
    skipped :
        (b : Bool)
        → (b ≡ true → value ≡ v)
        → (not (nonempty value) || contains value result) ≡ true
        → (contains v result || (nonempty v && contains v values))
          ≡ (contains v result || (nonempty v && (b || contains v values)))
    skipped false same known = refl
    skipped true same known = let e = same refl in ground (arith, rw e at known)

    kept :
        (b : Bool)
        → (b ≡ true → value ≡ v)
        → (not (nonempty value) || contains value result) ≡ false
        → b ≡ true
        → nonempty v ≡ true
    kept b same new p = let e = same p in ground (arith, rw e at new)

-- The result of unique_in_order holds exactly the values that are not blank, each once.
pub unique_in_order-IsUnique :
    (values : List String)
    → IsUnique (unique_in_order values)
      × ((v : String) → contains v (unique_in_order values) ≡ (nonempty v && contains v values))
unfolding unique_in_order
unique_in_order-IsUnique values =
    (unique_from-IsUnique [] values tt, λ v. contains-unique_from v [] values)
