-- ===== src/Tokens.antt =====
-- forensics/token_crypto.py: bearer tokens over the rows of one token model.
pub mod Issued
pub mod Verified
pub mod Personal
use Prim.Native.Char.{code}
use goggles.Base.Text.{nonempty}
use goggles.Base.{
  ℕ, Char, String, ◌<>◌, Bool, true, false, not, ◌&&◌, Option, none, some, List, [], ◌∷◌, ◌++◌, map,
  leb, if◌then◌else◌, ◌==◌, any, string_eq, nat_eq,
}

-- The settings, the clock, and hmac.new(key, secret, sha256).hexdigest().
pub record Secrets : Type 0 where
  pub hmac : String → String → String
  pub token_hash_key : String
  pub secret_key : String
  pub now : ℕ

-- The fields of a row that the module reads; `token_prefix` is unique.
pub record Token : Type 0 where
  pub token_prefix : String
  pub token_hash : String
  pub is_active : Bool
  pub expires_at : Option ℕ

abbrev pub is_underscore : Char → Bool
is_underscore c = code c == 95

abbrev pub put_before : Char → Option (String × String) → Option (String × String)
put_before c none = none
put_before c (some (first, rest)) = some (String.◌∷◌ c first, rest)

-- A text cut at its first underscore, and raw_token.split("_", 2) with three parts.
unfoldable pub cut : String → Option (String × String)
cut String.[] = none
cut (String.◌∷◌ c s) =
    let later = put_before c (cut s) in if is_underscore c then some ("", s) else later

abbrev pub with_first : String → Option (String × String) → Option (String × (String × String))
with_first first none = none
with_first first (some (second, third)) = some (first, (second, third))

abbrev pub split_rest : Option (String × String) → Option (String × (String × String))
split_rest none = none
split_rest (some (first, rest)) = with_first first (cut rest)

unfoldable pub split_token : String → Option (String × (String × String))
unfolding cut
split_token raw_token = split_rest (cut raw_token)

-- model.objects.get(token_prefix=lookup_prefix, is_active=True)
unfoldable pub get_active : String → List Token → Option Token
get_active lookup_prefix [] = none
get_active lookup_prefix (token ∷ rows) =
    let later = get_active lookup_prefix rows in
    if token.token_prefix == lookup_prefix && token.is_active then some token else later

-- token.save(update_fields=["token_hash"])
unfoldable pub save : Token → List Token → List Token
save token rows = map (λ row. if row.token_prefix == token.token_prefix then token else row) rows

-- generate_raw_token's text, for the random parts that it draws.
abbrev pub raw_token_of : String → String → String → String
raw_token_of type_prefix lookup_prefix secret =
    type_prefix <> ("_" <> (lookup_prefix <> ("_" <> secret)))

module _ ⦃secrets : Secrets⦄ where
  -- `key or settings.GOGGLES_TOKEN_HASH_KEY`
  abbrev pub hash_key : Option String → String
  hash_key none = secrets.token_hash_key
  hash_key (some key) = if nonempty key then key else secrets.token_hash_key

  abbrev pub hash_secret : String → Option String → String
  hash_secret secret key = secrets.hmac (hash_key key) secret

  unfoldable pub legacy_hash_keys : List String
  legacy_hash_keys =
      if nonempty secrets.secret_key && not (secrets.secret_key == secrets.token_hash_key)
      then secrets.secret_key ∷ []
      else []

  abbrev pub is_expired_at : Option ℕ → Bool
  is_expired_at none = false
  is_expired_at (some expires_at) = leb expires_at secrets.now

  abbrev pub is_expired : Token → Bool
  is_expired token = is_expired_at token.expires_at

  -- `none` where no key matches, else whether a legacy key did.
  unfoldable pub matched_legacy_key : Token → String → Option Bool
  unfolding legacy_hash_keys
  matched_legacy_key token secret =
      if token.token_hash == hash_secret secret none
      then some false
      else if any (λ key. token.token_hash == hash_secret secret (some key)) legacy_hash_keys
      then some true
      else none

  abbrev pub rekeyed : Token → String → Token
  rekeyed token secret = record token { token_hash = hash_secret secret none }

  -- Behind the comparison of the hashes.
  abbrev pub admit : Option Bool → Token → String → List Token → Option Token × List Token
  admit none token secret rows = (none, rows)
  admit (some legacy) token secret rows =
      if is_expired token
      then (none, rows)
      else if legacy
      then (some (rekeyed token secret), save (rekeyed token secret) rows)
      else (some token, rows)

  abbrev pub check_row : Option Token → String → List Token → Option Token × List Token
  check_row none secret rows = (none, rows)
  check_row (some token) secret rows = admit (matched_legacy_key token secret) token secret rows

  abbrev pub check_parts :
      String → Option (String × (String × String)) → List Token → Option Token × List Token
  check_parts type_prefix none rows = (none, rows)
  check_parts type_prefix (some (first, (lookup_prefix, secret))) rows =
      if first == type_prefix
      then check_row (get_active lookup_prefix rows) secret rows
      else (none, rows)

  -- The row, or None, and the rows afterwards.
  unfoldable pub authenticate : Option String → String → List Token → Option Token × List Token
  unfolding split_token get_active matched_legacy_key save
  authenticate none type_prefix rows = (none, rows)
  authenticate (some raw_token) type_prefix rows =
      check_parts type_prefix (split_token raw_token) rows

  abbrev pub token_of : String → String → Option ℕ → Token
  token_of lookup_prefix secret expires_at = record {
    token_prefix = lookup_prefix;
    token_hash = hash_secret secret none;
    is_active = true;
    expires_at = expires_at;
  }

  -- UploadToken.issue; `none` is the IntegrityError on a prefix that is taken.
  unfoldable pub issue :
      String → String → String → Option ℕ → List Token → Option (String × List Token)
  issue type_prefix lookup_prefix secret expires_at rows =
      if any (λ row. row.token_prefix == lookup_prefix) rows
      then none
      else some (
        raw_token_of type_prefix lookup_prefix secret,
        rows ++ token_of lookup_prefix secret expires_at ∷ [],
      )
