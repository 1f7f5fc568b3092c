-- ===== src/Tokens/Verified.antt =====
-- What a row that authenticates is, and the stored row that it comes from.
use goggles.Tokens.{
  Secrets, get_active, Token, authenticate, matched_legacy_key, legacy_hash_keys, admit, check_row,
  hash_secret, split_token, check_parts, is_expired, rekeyed, save,
}
use goggles.Base.{
  String, ◌≡◌, refl, sym, ap, ◌∙◌, ◌⊎◌, inl, inr, Bool, true, false, ◌&&◌, Option, none, some, List,
  [], ◌∷◌, arith, Bool-cases, ◌==◌, any, contains, string_eq,
}

-- The row is one of the rows.
abbrev pub Holds : List Token → Token → Type 0
Holds [] row = ⊥
Holds (x ∷ rows) row = (row ≡ x) ⊎ Holds rows row

get_active_lem :
    (p : String) (rows : List Token) (row : Token)
    → get_active p rows ≡ some row
    → Holds rows row × (row.token_prefix ≡ p) × (row.is_active ≡ true)
unfolding get_active
get_active_lem p [] row h = absurd (ground arith)
get_active_lem p (other ∷ rows) row h =
    elim (Bool-cases (other.token_prefix == p && other.is_active)) [
      | inl q ↦
          let same : other ≡ row = ground arith in
          let found : other.token_prefix ≡ p =
            (string_eq.same_iff other.token_prefix p).0 (ground (arith, q)) in
          let active : other.is_active ≡ true = ground (arith, q) in
          (
            inl (sym same),
            ap (λ (t : Token). t.token_prefix) (sym same) ∙ found,
            ap (λ (t : Token). t.is_active) (sym same) ∙ active,
          )
      | inr q ↦
          let (held, found, active) = get_active_lem p rows row (ground arith) in
          (inr held, found, active)
    ]

module _ ⦃secrets : Secrets⦄ where
  -- The stored hash is the secret's under the current key, and nothing changes, or it is the
  -- secret's under a legacy key, and the row is saved with the hash under the current key.
  abbrev pub Matches : Token → String → List Token → Token → List Token → Type 0
  Matches row secret rows token rows' =
      ((row.token_hash ≡ hash_secret secret none) × (token ≡ row) × (rows' ≡ rows))
      ⊎ (((key : String) × (contains key legacy_hash_keys ≡ true)
            × (row.token_hash ≡ hash_secret secret (some key)))
          × (token ≡ rekeyed row secret)
          × (rows' ≡ save (rekeyed row secret) rows))

  -- The row that a raw token of this type prefix authenticates to, from the row that the table
  -- held, and the rows afterwards.
  pub record IsVerified (raw_token type_prefix : String) (rows : List Token) (token : Token)
      (rows' : List Token) : Type 0 where
    pub lookup_prefix : String
    pub secret : String
    pub row : Token
    pub parts : split_token raw_token ≡ some (type_prefix, (lookup_prefix, secret))
    pub stored : Holds rows row
    pub looked_up : row.token_prefix ≡ lookup_prefix
    pub active : row.is_active ≡ true
    pub live : is_expired row ≡ false
    pub matches : Matches row secret rows token rows'

  any_key :
      (row : Token) (secret : String) (keys : List String)
      → any (λ key. row.token_hash == hash_secret secret (some key)) keys ≡ true
      → (key : String) × (contains key keys ≡ true)
        × (row.token_hash ≡ hash_secret secret (some key))
  any_key row secret [] h = absurd (ground arith)
  any_key row secret (key ∷ keys) h =
      elim (Bool-cases (row.token_hash == hash_secret secret (some key))) [
        | inl q ↦ (
          key,
          ground (arith, string_eq.same_iff key key),
          (string_eq.same_iff row.token_hash (hash_secret secret (some key))).0 q,
        )
        | inr q ↦
            let (k, held, same) = any_key row secret keys (ground arith) in
            (k, ground (arith, held), same)
      ]

  current_lem :
      (row : Token) (secret : String)
      → matched_legacy_key row secret ≡ some false
      → row.token_hash ≡ hash_secret secret none
  unfolding matched_legacy_key
  current_lem row secret h =
      (string_eq.same_iff row.token_hash (hash_secret secret none)).0 (ground arith)

  legacy_lem :
      (row : Token) (secret : String)
      → matched_legacy_key row secret ≡ some true
      → any (λ key. row.token_hash == hash_secret secret (some key)) legacy_hash_keys ≡ true
  unfolding matched_legacy_key
  legacy_lem row secret h = ground arith

  admit_lem :
      (o : Option Bool) (row token : Token) (secret : String) (rows rows' : List Token)
      → matched_legacy_key row secret ≡ o
      → admit o row secret rows ≡ (some token, rows')
      → (is_expired row ≡ false) × Matches row secret rows token rows'
  admit_lem none row token secret rows rows' m h = absurd (ground arith)
  admit_lem (some true) row token secret rows rows' m h =
      let live : is_expired row ≡ false = ground arith in
      let same : rekeyed row secret ≡ token = ground arith in
      let saved : save (rekeyed row secret) rows ≡ rows' = ground arith in
      (
        live,
        inr (any_key row secret legacy_hash_keys (legacy_lem row secret m), sym same, sym saved),
      )
  admit_lem (some false) row token secret rows rows' m h =
      let live : is_expired row ≡ false = ground arith in
      let same : row ≡ token = ground arith in
      let kept : rows ≡ rows' = ground arith in
      (live, inl (current_lem row secret m, sym same, sym kept))

  -- If a raw token authenticates, it has three parts, the first of which is the type prefix; the
  -- table holds an active row, not expired, with the second part as its prefix, whose hash is the
  -- third part's under the current key or a legacy one. The result is that row, and the rows stay
  -- as they are, unless a legacy key matched: then the result, and the row saved in its place, has
  -- the hash under the current key.
  pub authenticate-IsVerified :
      (raw_token type_prefix : String) (token : Token) (rows rows' : List Token)
      → authenticate (some raw_token) type_prefix rows ≡ (some token, rows')
      → IsVerified raw_token type_prefix rows token rows'
  unfolding authenticate
  authenticate-IsVerified raw_token type_prefix token rows rows' h =
      go (split_token raw_token) refl h
    where
      found :
          (p secret : String) (o : Option Token)
          → split_token raw_token ≡ some (type_prefix, (p, secret))
          → get_active p rows ≡ o
          → check_row o secret rows ≡ (some token, rows')
          → IsVerified raw_token type_prefix rows token rows'
      found p secret none e g k = absurd (ground arith)
      found p secret (some row) e g k =
          let (live, matches) =
            admit_lem (matched_legacy_key row secret) row token secret rows rows' refl k in
          let (held, same, active) = get_active_lem p rows row g in
          record {
            lookup_prefix = p;
            secret = secret;
            row = row;
            parts = e;
            stored = held;
            looked_up = same;
            active = active;
            live = live;
            matches = matches;
          }

      go :
          (o : Option (String × (String × String)))
          → split_token raw_token ≡ o
          → check_parts type_prefix o rows ≡ (some token, rows')
          → IsVerified raw_token type_prefix rows token rows'
      go none e k = absurd (ground arith)
      go (some (first, (p, secret))) e k =
          let q : (first == type_prefix) ≡ true = ground arith in
          let same : first ≡ type_prefix = (string_eq.same_iff first type_prefix).0 q in
          found p secret (get_active p rows) (e ∙ ap (λ f. some (f, (p, secret))) same) refl
            (ground arith)
