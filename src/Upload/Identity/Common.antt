-- ===== src/Upload/Identity/Common.antt =====
-- An upload speaks for one engine and one account.
use goggles.Base.{
  String, ◌≡◌, refl, ◌↔◌, inl, inr, true, false, none, some, List, [], ◌∷◌, arith, Bool-cases, All,
  string_eq,
}
use goggles.Base.Text.{nonempty}
use goggles.Upload.Parse.{ParsedLine}
use goggles.Upload.Identity.{text_of, mixed_from, has_inconsistent_identity}

-- Every line that names a value of the field names `value`.
abbrev pub IsCommon : String → String → List ParsedLine → Type 0
IsCommon field value =
    All (λ line. nonempty (text_of field line) ≡ true → text_of field line ≡ value)

IsCommon-of_some :
    (field value : String) (lines : List ParsedLine)
    → mixed_from field (some value) lines ≡ false
    → IsCommon field value lines
unfolding mixed_from
IsCommon-of_some field value [] h = tt
IsCommon-of_some field value (line ∷ lines) h = elim (Bool-cases (nonempty (text_of field line))) [
  | inl p ↦
      let q : text_of field line ≡ value =
        ground (arith, string_eq.same_iff (text_of field line) value) in
      (λ _. q, IsCommon-of_some field value lines (ground (arith, q)))
  | inr p ↦ (λ e. cc, IsCommon-of_some field value lines (ground arith))
]

some_of_common :
    (field value : String) (lines : List ParsedLine)
    → IsCommon field value lines
    → mixed_from field (some value) lines ≡ false
unfolding mixed_from
some_of_common field value [] h = refl
some_of_common field value (line ∷ lines) (f, r) =
    let ih = some_of_common field value lines r in
    elim (Bool-cases (nonempty (text_of field line))) [
      | inl p ↦ ground (arith, f p, string_eq.same_iff (text_of field line) value, ih)
      | inr p ↦ ground (arith, ih)
    ]

IsCommon-of_none :
    (field : String) (lines : List ParsedLine)
    → mixed_from field none lines ≡ false
    → (value : String) × IsCommon field value lines
unfolding mixed_from
IsCommon-of_none field [] h = ("", tt)
IsCommon-of_none field (line ∷ lines) h = elim (Bool-cases (nonempty (text_of field line))) [
  | inl p ↦ (
    text_of field line,
    (λ _. refl, IsCommon-of_some field (text_of field line) lines (ground arith)),
  )
  | inr p ↦ let (value, c) = IsCommon-of_none field lines (ground arith) in (value, (λ e. cc, c))
]

none_of_common :
    (field value : String) (lines : List ParsedLine)
    → IsCommon field value lines
    → mixed_from field none lines ≡ false
unfolding mixed_from
none_of_common field value [] h = refl
none_of_common field value (line ∷ lines) (f, r) =
    elim (Bool-cases (nonempty (text_of field line))) [
      | inl p ↦ rw (p, f p) (some_of_common field value lines r)
      | inr p ↦ rw p (none_of_common field value lines r)
    ]

-- The test passes exactly if one engine id is the only one that the lines name, and one account
-- reference the only one; lines that name none do not count.
pub has_inconsistent_identity-IsCommon :
    (lines : List ParsedLine)
    → (has_inconsistent_identity lines ≡ false) ↔ (
        ((engine : String) × IsCommon "engine_id" engine lines)
        × ((account : String) × IsCommon "account_ref" account lines))
unfolding has_inconsistent_identity
has_inconsistent_identity-IsCommon lines = (
  λ h. (
    IsCommon-of_none "engine_id" lines (ground arith),
    IsCommon-of_none "account_ref" lines (ground arith),
  ),
  λ ((engine, e), (account, a)).
      rw (none_of_common "engine_id" engine lines e) (none_of_common "account_ref" account lines a),
)
