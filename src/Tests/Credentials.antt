-- ===== src/Tests/Credentials.antt =====
-- A token that is issued and then presented.
use goggles.Tokens.Personal.{
  authenticate_personal, authenticate_upload, authenticate_personal-apart,
}
use goggles.Tokens.Issued.{authenticate-issue}
use goggles.Tokens.Verified.{IsVerified, authenticate-IsVerified}
use goggles.Tokens.{
  Secrets, Token, authenticate, issue, raw_token_of, split_token, token_of, cut, get_active,
  matched_legacy_key,
}
use goggles.Base.{◌≡◌, refl, true, none, some, List, [], ◌∷◌, string_eq}

instance abbrev small_secrets : Secrets
small_secrets = record {
  hmac = λ key secret. secret;
  token_hash_key = "key";
  secret_key = "old";
  now = 100;
}

abbrev issued_rows : List Token
issued_rows = token_of "ab12" "secret" (some 200) ∷ []

authenticate-issue_example :
    authenticate (some (raw_token_of "goggles" "ab12" "secret")) "goggles" issued_rows
    ≡ (some (token_of "ab12" "secret" (some 200)), issued_rows)
unfolding issue
authenticate-issue_example =
    authenticate-issue "goggles" "ab12" "secret" (some 200) [] issued_rows
      (raw_token_of "goggles" "ab12" "secret") refl refl refl refl

presented_token :
    authenticate (some (raw_token_of "goggles" "ab12" "secret")) "goggles" issued_rows
    ≡ (some (token_of "ab12" "secret" (some 200)), issued_rows)
unfolding authenticate split_token cut get_active matched_legacy_key
presented_token = refl

authenticate-IsVerified_example :
    IsVerified
      (raw_token_of "goggles" "ab12" "secret")
      "goggles"
      issued_rows
      (token_of "ab12" "secret" (some 200))
      issued_rows
authenticate-IsVerified_example =
    authenticate-IsVerified (raw_token_of "goggles" "ab12" "secret") "goggles"
      (token_of "ab12" "secret" (some 200)) issued_rows issued_rows presented_token

abbrev personal_rows : List Token
personal_rows = token_of "cd34" "hidden" none ∷ []

presented_personal :
    authenticate_personal (λ token. true) (some (raw_token_of "gpat" "cd34" "hidden")) personal_rows
    ≡ (some (token_of "cd34" "hidden" none), personal_rows)
unfolding authenticate split_token cut get_active matched_legacy_key
presented_personal = refl

authenticate_personal-apart_example :
    (authenticate_upload (some (raw_token_of "gpat" "cd34" "hidden")) issued_rows
      ≡ (none, issued_rows))
    × (true ≡ true)
authenticate_personal-apart_example =
    authenticate_personal-apart (λ token. true) (raw_token_of "gpat" "cd34" "hidden")
      (token_of "cd34" "hidden" none) personal_rows issued_rows personal_rows presented_personal
