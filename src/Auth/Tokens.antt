-- ===== src/Auth/Tokens.antt =====
-- user-service/internal/features/auth/application/tokens/issuer.go and VerifyClaims of
-- common/security/auth/jwt.go: signing and parsing of the JWTs. The JWT library is a parameter.
-- Instants and durations are nanoseconds; texts that are only compared are numbers, 0 the empty one.
use aegis_core.Base.{
  ℕ, ◌+◌, ◌*◌, ◌/◌, ◌<◌, ◌≡◌, Bool, true, false, ◌&&◌, not, Option, none, some, [], ◌∷◌, ◌==◌,
  if◌then◌else◌,
}
use aegis_core.Base.Int.{ℤ, pos, pos_part, leb_ℤ}
use aegis_core.Base.Text.{Uuid}
use aegis_core.Auth.Domain.{
  Result, success, failure, SessionId, TokenId, missing_secret, missing_user_id,
  missing_token_version, missing_session_id, missing_token_id, invalid_token_id, invalid_subject,
  entropy_failed, signing_failed, verification_failed,
}

pub data Subject : Type 0 where
  access refresh password_change other_subject : Subject

abbrev same_subject : Subject → Subject → Bool
same_subject access access = true
same_subject refresh refresh = true
same_subject password_change password_change = true
same_subject other_subject other_subject = true
same_subject _ _ = false

-- Claims; the expiry is a NumericDate, in seconds
pub record Claims : Type 0 where
  pub user_id : Uuid
  pub token_version : ℤ
  pub session_id : SessionId
  pub id : TokenId
  pub issuer : ℕ
  pub audience : Option ℕ
  pub subject : Subject
  pub expires_at : ℕ

pub record JwtConfig : Type 0 where
  pub secret : ℕ
  pub issuer : ℕ
  pub audience : ℕ
  pub access_token_ttl : ℤ
  pub refresh_token_ttl : ℤ
  pub password_change_token_ttl : ℤ

pub record SignInput : Type 0 where
  pub user_id : Uuid
  pub token_version : ℤ
  pub session_id : SessionId
  pub ttl : ℕ

abbrev pub sign_input : Uuid → ℤ → SessionId → ℕ → SignInput
sign_input u version session ttl = record {
  user_id = u;
  token_version = version;
  session_id = session;
  ttl = ttl;
}

-- WithIssuer and WithAudience, where they are given
pub record ParserOptions : Type 0 where
  pub expected_issuer : Option ℕ
  pub expected_audience : Option ℕ

-- the JWT library on tokens T, HMAC with a secret; parsing reads the clock. uuid.Parse on a token id
pub record Jwt (T : Type 0) : Type 0 where
  pub signed_string : ℕ → Claims → Option T
  pub parse_with_claims : ParserOptions → ℕ → ℕ → T → Option Claims
  pub is_uuid : TokenId → Bool

abbrev pub accepts : Option ℕ → Option ℕ → Bool
accepts none given = true
accepts (some want) none = false
accepts (some want) (some given) = given == want

-- a token that the same secret signed is read back until it expires, where the options accept it
pub record JwtLaws {T : Type 0} (jwt : Jwt T) : Type 0 where
  pub parse-signed :
      (options : ParserOptions) (secret now : ℕ) (claims : Claims) (token : T)
      → jwt.signed_string secret claims ≡ some token
      → now < claims.expires_at * 1000000000
      → accepts options.expected_issuer (some claims.issuer) ≡ true
      → accepts options.expected_audience claims.audience ≡ true
      → jwt.parse_with_claims options secret now token ≡ some claims

-- audienceClaim
abbrev audience_claim : ℕ → Option ℕ
audience_claim audience = if audience == 0 then none else some audience

abbrev ttl_or : ℕ → ℤ → ℕ
ttl_or standard ttl = if leb_ℤ ttl (pos 0) then standard else pos_part ttl

-- accessTokenTTL, refreshTokenTTL, passwordChangeTokenTTL
unfoldable access_ttl : JwtConfig → ℕ
access_ttl cfg = ttl_or (900 * 1000000000) cfg.access_token_ttl

unfoldable pub refresh_ttl : JwtConfig → ℕ
refresh_ttl cfg = ttl_or (604800 * 1000000000) cfg.refresh_token_ttl

unfoldable pub password_change_ttl : JwtConfig → ℕ
password_change_ttl cfg = ttl_or (300 * 1000000000) cfg.password_change_token_ttl

pub record TokenResult (T : Type 0) : Type 0 where
  pub access_token : T
  pub refresh_token : Option T
  pub expires_in : ℕ

pub record IssuedTokenPair (T : Type 0) : Type 0 where
  pub result : TokenResult T
  pub refresh_ttl : ℤ

abbrev signed : {T : Type 0} → Option T → Result T
signed none = failure (signing_failed ∷ [])
signed (some token) = success token

module _ {T : Type 0} (jwt : Jwt T) where
  -- the claims that sign builds
  unfoldable pub claims_of : JwtConfig → ℕ → SignInput → Subject → TokenId → Claims
  claims_of cfg now input subject token_id = record {
    user_id = input.user_id;
    token_version = input.token_version;
    session_id = input.session_id;
    id = token_id;
    issuer = cfg.issuer;
    audience = audience_claim cfg.audience;
    subject = subject;
    expires_at = (now + input.ttl) / 1000000000;
  }

  -- authTokenIssuer.sign, where the new token id may be missing
  unfoldable pub sign : JwtConfig → ℕ → Option TokenId → SignInput → Subject → Result T
  unfolding claims_of
  sign cfg now new_id input subject =
      if cfg.secret == 0
      then failure (missing_secret ∷ [])
      else if input.user_id == 0
      then failure (missing_user_id ∷ [])
      else if leb_ℤ input.token_version (pos 0)
      then failure (missing_token_version ∷ [])
      else if input.session_id == 0
      then failure (missing_session_id ∷ [])
      else elim new_id [
        | none ↦ failure (entropy_failed ∷ [])
        | some token_id ↦
            signed (jwt.signed_string cfg.secret (claims_of cfg now input subject token_id))
      ]

  -- JWTService.VerifyClaims
  unfoldable verify_claims : JwtConfig → ℕ → T → Result Claims
  verify_claims cfg now token =
      let options : ParserOptions = record {
        expected_issuer = if cfg.issuer == 0 then none else some cfg.issuer;
        expected_audience = if cfg.audience == 0 then none else some cfg.audience;
      } in
      if cfg.secret == 0
      then failure (missing_secret ∷ [])
      else elim (jwt.parse_with_claims options cfg.secret now token) [
        | none ↦ failure (verification_failed ∷ [])
        | some claims ↦ success claims
      ]

  -- the checks of authTokenIssuer.parse after VerifyClaims
  unfoldable check_claims : Subject → Bool → Claims → Result Claims
  check_claims subject require_session c =
      if c.id == 0
      then failure (missing_token_id ∷ [])
      else if not (jwt.is_uuid c.id)
      then failure (invalid_token_id ∷ [])
      else if c.user_id == 0
      then failure (missing_user_id ∷ [])
      else if leb_ℤ c.token_version (pos 0)
      then failure (missing_token_version ∷ [])
      else if require_session && (c.session_id == 0)
      then failure (missing_session_id ∷ [])
      else if same_subject c.subject subject
      then success c
      else failure (invalid_subject ∷ [])

  -- authTokenIssuer.parse
  unfoldable pub parse : JwtConfig → ℕ → Subject → Bool → T → Result Claims
  unfolding verify_claims check_claims
  parse cfg now subject require_session token = elim (verify_claims cfg now token) [
    | failure e ↦ failure e
    | success c ↦ check_claims subject require_session c
  ]

  -- authTokenIssuer.IssueTokenPair; the two signatures have token ids and clocks of their own
  unfoldable pub issue_token_pair :
      JwtConfig
      → ℕ
      → ℕ
      → Option TokenId
      → Option TokenId
      → Uuid
      → ℤ
      → SessionId
      → Result (IssuedTokenPair T)
  unfolding sign access_ttl refresh_ttl
  issue_token_pair cfg now now2 id id2 u version session =
      let first : Result T =
        sign cfg now id (sign_input u version session (access_ttl cfg)) access in
      let second : Result T =
        sign cfg now2 id2 (sign_input u version session (refresh_ttl cfg)) refresh in
      elim first [
        | failure e ↦ failure e
        | success access_token ↦ elim second [
          | failure e ↦ failure e
          | success refresh_token ↦ success (record {
            result = record {
              access_token = access_token;
              refresh_token = some refresh_token;
              expires_in = access_ttl cfg / 1000000000;
            };
            refresh_ttl = pos (refresh_ttl cfg);
          })
        ]
      ]
