-- ===== src/Auth/Issuer.antt =====
-- The remaining operations of user-service/internal/features/auth/application/tokens/issuer.go, on
-- tokens as they are received: texts that may begin with the Bearer scheme.
use aegis_core.Base.{ℕ, ◌/◌, true, false, Option, none, [], ◌∷◌}
use aegis_core.Base.Int.{ℤ}
use aegis_core.Base.Text.{Uuid}
use aegis_core.Auth.Domain.{Result, success, failure, SessionId, TokenId, token_invalid}
use aegis_core.Auth.Tokens.{
  Jwt, JwtConfig, Claims, access, refresh, password_change, sign_input, sign, parse,
  password_change_ttl, TokenResult,
}
use aegis_core.Auth.Bearer.{Text, strip_bearer_prefix}

-- AccessToken of common/security/auth/access_token.go
pub record AccessToken : Type 0 where
  pub user_id : Uuid
  pub session_id : SessionId
  pub token_version : ℤ

abbrev or_invalid : Result Claims → Result Claims
or_invalid (success c) = success c
or_invalid (failure e) = failure (token_invalid ∷ [])

module _ (jwt : Jwt Text) where
  -- IssuePasswordChangeToken
  unfoldable pub issue_password_change_token :
      JwtConfig → ℕ → Option TokenId → Uuid → ℤ → SessionId → Result (TokenResult Text)
  issue_password_change_token cfg now new_id u version session =
      let ttl = password_change_ttl cfg in
      elim (sign jwt cfg now new_id (sign_input u version session ttl) password_change) [
        | failure e ↦ failure e
        | success token ↦
            success
              (record { access_token = token; refresh_token = none; expires_in = ttl / 1000000000 })
      ]

  -- ParseRefreshToken
  unfoldable pub parse_refresh_token : JwtConfig → ℕ → Text → Result Claims
  parse_refresh_token cfg now token =
      or_invalid (parse jwt cfg now refresh false (strip_bearer_prefix token))

  -- ParsePasswordChangeToken
  unfoldable pub parse_password_change_token : JwtConfig → ℕ → Text → Result Claims
  parse_password_change_token cfg now token =
      or_invalid (parse jwt cfg now password_change true (strip_bearer_prefix token))

  -- VerifyAccessToken
  unfoldable verify_access_token : JwtConfig → ℕ → Text → Result AccessToken
  verify_access_token cfg now token = elim (parse jwt cfg now access true token) [
    | failure e ↦ failure e
    | success c ↦
        success (record {
          user_id = c.user_id;
          session_id = c.session_id;
          token_version = c.token_version;
        })
  ]
