-- ===== src/Tokens/Personal.antt =====
-- The two token models of forensics/models.py, UploadToken and PersonalAccessToken, over the shared
-- authentication.
use goggles.Tokens.{Secrets, Token, authenticate, check_parts}
use goggles.Base.{
  String, ◌≡◌, refl, sym, ap, ◌∙◌, inl, inr, Bool, true, false, Option, none, some, List, arith,
  if◌then◌else◌, Bool-cases, ◌==◌, string_eq,
}
use goggles.Tokens.Verified.{IsVerified, authenticate-IsVerified}

abbrev pub upload_token_prefix : String
upload_token_prefix = "goggles"

abbrev pub personal_token_prefix : String
personal_token_prefix = "gpat"

-- `if token is not None and not token.user.is_active: return None`
abbrev pub unless_inactive : (Token → Bool) → Option Token → Option Token
unless_inactive owner_is_active none = none
unless_inactive owner_is_active (some token) = if owner_is_active token then some token else none

module _ ⦃secrets : Secrets⦄ where
  -- UploadToken.authenticate
  abbrev pub authenticate_upload : Option String → List Token → Option Token × List Token
  authenticate_upload raw_token rows = authenticate raw_token upload_token_prefix rows

  -- PersonalAccessToken.authenticate
  abbrev pub authenticate_personal :
      (Token → Bool) → Option String → List Token → Option Token × List Token
  authenticate_personal owner_is_active raw_token rows =
      let out = authenticate raw_token personal_token_prefix rows in
      (unless_inactive owner_is_active out.0, out.1)

  other_prefix :
      (raw_token type_prefix other : String) (token : Token) (held after rows : List Token)
      → (type_prefix == other) ≡ false
      → IsVerified raw_token type_prefix held token after
      → authenticate (some raw_token) other rows ≡ (none, rows)
  unfolding authenticate
  other_prefix raw_token type_prefix other token held after rows d v =
      ap (λ o. check_parts other o rows) v.parts ∙ rw d refl

  -- If a text authenticates to a personal token, the token's owner is active, and the text is no
  -- upload token's, whatever rows the other table holds; those rows stay as they are.
  pub authenticate_personal-apart :
      (owner_is_active : Token → Bool) (raw_token : String) (token : Token)
      (rows others after : List Token)
      → authenticate_personal owner_is_active (some raw_token) rows ≡ (some token, after)
      → (authenticate_upload (some raw_token) others ≡ (none, others))
        × (owner_is_active token ≡ true)
  authenticate_personal-apart owner_is_active raw_token token rows others after h =
      go (authenticate (some raw_token) personal_token_prefix rows).0
        (authenticate (some raw_token) personal_token_prefix rows).1 refl h
    where
      go :
          (o : Option Token) (left : List Token)
          → authenticate (some raw_token) personal_token_prefix rows ≡ (o, left)
          → ◌≡◌ {A = Option Token × List Token}
              (unless_inactive owner_is_active o, left)
              (some token, after)
          → (authenticate_upload (some raw_token) others ≡ (none, others))
            × (owner_is_active token ≡ true)
      go none left e k = absurd (ground arith)
      go (some found) left e k = elim (Bool-cases (owner_is_active found)) [
        | inl active ↦
            let same : found ≡ token = ground (arith, k, active) in
            (
              other_prefix raw_token personal_token_prefix upload_token_prefix found rows left
                  others refl
                  (authenticate-IsVerified raw_token personal_token_prefix found rows left e),
              sym (ap owner_is_active same) ∙ active,
            )
        | inr inactive ↦ absurd (ground (arith, k, inactive))
      ]
