-- ===== src/Auth/UseCases.antt =====
-- user-service/internal/features/auth/application/command: login, refresh, forced password change and
-- logout, with application/validators/auth_validator.go. Texts are their runes. Metrics and logs are
-- left out.
use aegis_core.Base.{◌*◌, Bool, true, false, ◌||◌, Option, none, some, [], ◌∷◌, if◌then◌else◌}
use aegis_core.Base.Int.{ℤ, pos}
use aegis_core.Base.Text.{Uuid}
use aegis_core.Auth.Domain.{
  Error, Result, success, failure, AuthSession, SessionId, UserStatus, requires_password_change,
  token_invalid, invalid_credentials, empty_password, missing_session,
  session_revocation_incomplete,
}
use aegis_core.Auth.Bearer.{Text, trim_space, is_empty, is_blank_token}
use aegis_core.Auth.Tokens.{Claims, TokenResult, IssuedTokenPair}
use aegis_core.Auth.Lifecycle.{
  Ports, on_value, on_nil, create_token_session, create_password_session,
  consume_password_change_claims, validate_refresh_session, rotate_token_session,
  revoke_user_sessions_at_version, revoke_all_user_sessions,
}

-- ValidateRefreshToken, ValidateLoginCommand, ValidateForceChangePasswordCommand
unfoldable pub validate_refresh_token : Text → Error
unfolding is_blank_token
validate_refresh_token token = if is_blank_token token then token_invalid ∷ [] else []

unfoldable pub validate_login_command : Text → Text → Error
unfolding trim_space
validate_login_command username password =
    if is_empty (trim_space username) || is_empty (trim_space password)
    then invalid_credentials ∷ []
    else []

unfoldable pub validate_force_change_password : Text → Text → Error
unfolding is_blank_token trim_space
validate_force_change_password token password =
    if is_blank_token token
    then token_invalid ∷ []
    else if is_empty (trim_space password)
    then empty_password ∷ []
    else []

pub record Credential : Type 0 where
  pub user_id : Uuid
  pub status : UserStatus
  pub token_version : ℤ

-- Issuer and Verifier, and newAuthSessionID
pub record Services (W : Type 0) : Type 0 where
  pub issue_token_pair : Uuid → ℤ → SessionId → W → Result (IssuedTokenPair Text) × W
  pub issue_password_change_token : Uuid → ℤ → SessionId → W → Result (TokenResult Text) × W
  pub parse_refresh_token : Text → W → Result Claims × W
  pub parse_password_change_token : Text → W → Result Claims × W
  pub verify_password : Text → Text → W → Result Credential × W
  pub force_change_password : Uuid → ℤ → Text → W → Result (Uuid × ℤ) × W
  pub new_session_id : W → Result SessionId × W

pub record LoginResult : Type 0 where
  pub password_change_required : Bool
  pub tokens : TokenResult Text

module _ {W : Type 0} (ports : Ports W) (services : Services W) where
  -- issueTokenPair of dependencies.go
  unfoldable pub issue_session : Uuid → ℤ → SessionId → W → Result (TokenResult Text) × W
  issue_session u version session w =
      let pair = services.issue_token_pair u version session w in
      on_value pair.0 pair.1 (λ issued w2.
        let created = create_token_session ports u session version issued.refresh_ttl w2 in
        on_nil created.0 created.1 (λ w3. (success issued.result, w3)))

  -- refreshWithRotation
  unfoldable pub refresh_with_rotation :
      Claims → AuthSession → ℤ → W → Result (TokenResult Text) × W
  refresh_with_rotation c prior version w =
      let fresh = services.new_session_id w in
      on_value fresh.0 fresh.1 (λ session w2.
        let pair = services.issue_token_pair c.user_id version session w2 in
        on_value pair.0 pair.1 (λ issued w3.
          let new : AuthSession = record {
            user_id = c.user_id;
            session_id = session;
            token_version = version;
            expires_at = 0;
          } in
          let rotated = rotate_token_session ports prior new issued.refresh_ttl w3 in
          on_nil rotated.0 rotated.1 (λ w4. (success issued.result, w4))))

  -- refreshTokenUseCase.Refresh
  unfoldable pub refresh : Bool → Text → W → Result (TokenResult Text) × W
  unfolding issue_session refresh_with_rotation
  refresh rotation token w = on_nil (validate_refresh_token token) w (λ w1.
      let parsed = services.parse_refresh_token token w1 in
      on_value parsed.0 parsed.1 (λ c w2.
        let valid = validate_refresh_session ports c w2 in
        on_value valid.0 valid.1 (λ found w3.
          if rotation
          then refresh_with_rotation c found.0 found.1 w3
          else issue_session c.user_id found.1 found.0.session_id w3)))

  -- loginWithSession
  unfoldable login_with_session : Credential → W → Result LoginResult × W
  unfolding issue_session
  login_with_session user w =
      let fresh = services.new_session_id w in
      on_value fresh.0 fresh.1 (λ session w2.
        let issued = issue_session user.user_id user.token_version session w2 in
        on_value issued.0 issued.1 (λ tokens w3.
          (success (record { password_change_required = false; tokens = tokens }), w3)))

  -- loginWithPasswordChangeSession
  unfoldable login_with_password_change : Credential → W → Result LoginResult × W
  login_with_password_change user w =
      let fresh = services.new_session_id w in
      on_value fresh.0 fresh.1 (λ session w2.
        let issued =
          services.issue_password_change_token user.user_id user.token_version session w2 in
        on_value issued.0 issued.1 (λ tokens w3.
          let parsed = services.parse_password_change_token tokens.access_token w3 in
          on_value parsed.0 parsed.1 (λ c w4.
            let created =
              create_password_session ports user.user_id session c.id user.token_version
                (pos (tokens.expires_in * 1000000000)) w4 in
            on_nil created.0 created.1
              (λ w5. (success (record { password_change_required = true; tokens = tokens }), w5)))))

  -- loginUseCase.Login
  unfoldable pub login : Text → Text → W → Result LoginResult × W
  unfolding login_with_session login_with_password_change
  login username password w = on_nil (validate_login_command username password) w (λ w1.
      let verified = services.verify_password username password w1 in
      on_value verified.0 verified.1 (λ user w2.
        if requires_password_change user.status
        then login_with_password_change user w2
        else login_with_session user w2))

  abbrev incomplete : Error → Result Bool
  incomplete [] = success true
  incomplete (e ∷ es) = failure (session_revocation_incomplete ∷ e ∷ es)

  -- forceChangePasswordUseCase.ForceChangePassword
  unfoldable pub force_change_password : Text → Text → W → Result Bool × W
  force_change_password token password w =
      on_nil (validate_force_change_password token password) w (λ w1.
        let parsed = services.parse_password_change_token token w1 in
        on_value parsed.0 parsed.1 (λ c w2.
          let consumed = consume_password_change_claims ports c w2 in
          on_nil consumed.0 consumed.1 (λ w3.
            let updated = services.force_change_password c.user_id c.token_version password w3 in
            on_value updated.0 updated.1 (λ user w4.
              let revoked = revoke_user_sessions_at_version ports user.0 user.1 w4 in
              (incomplete revoked.0, revoked.1)))))

  abbrev authenticated : {A : Type 0} → Option A → Result A
  authenticated none = failure (missing_session ∷ [])
  authenticated (some a) = success a

  -- LogoutCurrentSession, on the user and the session that the context of the request holds
  unfoldable logout_current_session : Option (Uuid × SessionId) → W → Result Bool × W
  logout_current_session context w = on_value (authenticated context) w (λ who w1.
      let deleted = ports.delete_session who.0 who.1 w1 in
      on_nil deleted.0 deleted.1 (λ w2. (success true, w2)))

  -- LogoutAllSessions, on the user that the context of the request holds
  unfoldable logout_all_sessions : Option Uuid → W → Result Bool × W
  logout_all_sessions context w = on_value (authenticated context) w (λ u w1.
      let revoked = revoke_all_user_sessions ports u w1 in
      on_value revoked.0 revoked.1 (λ r w2. (incomplete r.1, w2)))
