-- ===== src/Tokens/Issued.antt =====
-- A token that was issued authenticates, with its own prefix and no other.
use goggles.Tokens.{
  Secrets, cut, get_active, split_token, Token, authenticate, is_underscore, raw_token_of, issue,
  split_rest, matched_legacy_key, with_first, is_expired_at, token_of,
}
use goggles.Base.Text.{str_all}
use goggles.Base.{
  ℕ, String, ◌<>◌, ◌≡◌, refl, ap, ◌∙◌, Bool, true, false, not, Option, some, List, [], ◌∷◌, ◌++◌,
  arith, ◌==◌, any, string_eq,
}
use text.Mathlib.TextLemmas.{cons-append, nil-append}

abbrev pub has_no_underscore : String → Bool
has_no_underscore s = str_all (λ c. not (is_underscore c)) s

cut-append :
    (s rest : String) → has_no_underscore s ≡ true → cut (s <> ("_" <> rest)) ≡ some (s, rest)
unfolding cut
cut-append String.[] rest h =
    rw (nil-append ("_" <> rest), cons-append "_" "" rest, nil-append rest) refl
cut-append (String.◌∷◌ c s) rest h =
    rw (cons-append c s ("_" <> rest)) (ground (arith, cut-append s rest))

split_token-raw_token_of :
    (t p secret : String)
    → has_no_underscore t ≡ true
    → has_no_underscore p ≡ true
    → split_token (raw_token_of t p secret) ≡ some (t, (p, secret))
unfolding split_token
split_token-raw_token_of t p secret h k =
    ap split_rest (cut-append t (p <> ("_" <> secret)) h)
    ∙ ap (with_first t) (cut-append p secret k)

get_active-append :
    (p : String) (rows : List Token) (token : Token)
    → any (λ row. row.token_prefix == p) rows ≡ false
    → token.token_prefix ≡ p
    → token.is_active ≡ true
    → get_active p (rows ++ token ∷ []) ≡ some token
unfolding get_active
get_active-append p [] token h e a = rw (e, a, (string_eq.same_iff p p).1 refl) refl
get_active-append p (row ∷ rows) token h e a =
    ground (arith, get_active-append p rows token (ground arith) e a)

module _ ⦃secrets : Secrets⦄ where
  -- A token that is issued for prefixes without an underscore authenticates under its own type
  -- prefix as long as it has not expired: the row is the new one, and the rows stay as they are.
  pub authenticate-issue :
      (t p secret : String) (expires_at : Option ℕ) (rows rows' : List Token) (raw_token : String)
      → has_no_underscore t ≡ true
      → has_no_underscore p ≡ true
      → is_expired_at expires_at ≡ false
      → issue t p secret expires_at rows ≡ some (raw_token, rows')
      → authenticate (some raw_token) t rows' ≡ (some (token_of p secret expires_at), rows')
  unfolding authenticate issue matched_legacy_key
  authenticate-issue t p secret expires_at rows rows' raw_token h k live issued =
      let fresh : any (λ row. row.token_prefix == p) rows ≡ false = ground arith in
      let raw : raw_token_of t p secret ≡ raw_token = ground arith in
      let new : rows ++ token_of p secret expires_at ∷ [] ≡ rows' = ground arith in
      rw
        (
          ← raw,
          ← new,
          split_token-raw_token_of t p secret h k,
          (string_eq.same_iff t t).1 refl,
          get_active-append p rows (token_of p secret expires_at) fresh refl refl,
          (string_eq.same_iff (secrets.hmac secrets.token_hash_key secret)
                (secrets.hmac secrets.token_hash_key secret)).1
              refl,
          live,
        )
        refl
