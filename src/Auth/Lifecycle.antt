-- ===== src/Auth/Lifecycle.antt =====
-- user-service/internal/features/auth/application/sessions (lifecycle.go, revocation.go) with
-- application/validators (session_policy.go, Current of token_version_validator.go): the life of the
-- sessions over the ports of application/ports.go. A world W stands for everything that the ports act
-- on; a port that returns an error has acted too.
use aegis_core.Base.{ℕ, ◌+◌, Bool, true, false, ◌&&◌, ◌||◌, [], ◌∷◌, ◌==◌, if◌then◌else◌}
use aegis_core.Base.Int.{ℤ, pos_part}
use aegis_core.Base.Text.{Uuid}
use aegis_core.Auth.Domain.{
  AuthError, Error, Result, success, failure, AuthSession, PasswordChangeSession, SessionId,
  TokenId, same_int, auth_session_not_found, auth_session_mismatch, token_invalid,
  token_version_cache_miss, token_version_mismatch, password_change_session_not_found,
  password_change_session_mismatch, user_not_found,
}
use aegis_core.Auth.Tokens.{Claims}

-- UserTokenVersionStore, TokenVersionCache, RefreshSessionStore, PasswordChangeSessionStore and
-- TokenVersionLocalInvalidator, with the clock
pub record Ports (W : Type 0) : Type 0 where
  pub get_token_version : Uuid → W → Result ℤ × W
  pub increment_token_version : Uuid → W → Result ℤ × W
  pub get_cached_token_version : Uuid → W → Result ℤ × W
  pub cache_token_version : Uuid → ℤ → W → Error × W
  pub delete_cached_token_version : Uuid → W → Error × W
  pub create_session : AuthSession → ℤ → ℤ → W → Error × W
  pub rotate_session : AuthSession → AuthSession → ℤ → ℤ → W → Error × W
  pub get_session : Uuid → SessionId → W → Result AuthSession × W
  pub delete_session : Uuid → SessionId → W → Error × W
  pub delete_all_user_sessions : Uuid → W → Error × W
  pub create_password_change_session : PasswordChangeSession → ℤ → W → Error × W
  pub consume_password_change_session : PasswordChangeSession → W → Error × W
  pub invalidate_token_version : Uuid → W → W
  pub time_now : W → ℕ
  pub max_active_sessions : ℤ

-- errors.Is for the errors that the code asks for
abbrev is_not_found : AuthError → Bool
is_not_found auth_session_not_found = true
is_not_found _ = false

abbrev is_mismatch : AuthError → Bool
is_mismatch auth_session_mismatch = true
is_mismatch _ = false

abbrev is_miss : AuthError → Bool
is_miss token_version_cache_miss = true
is_miss _ = false

abbrev is_password_rejection : AuthError → Bool
is_password_rejection password_change_session_not_found = true
is_password_rejection password_change_session_mismatch = true
is_password_rejection _ = false

abbrev pub is_user_not_found : AuthError → Bool
is_user_not_found user_not_found = true
is_user_not_found _ = false

abbrev pub error_is : (AuthError → Bool) → Error → Bool
error_is p [] = false
error_is p (e ∷ es) = let rest = error_is p es in p e || rest

abbrev pub joined : Error → Error → Error
joined [] f = f
joined (x ∷ xs) f = x ∷ joined xs f

-- if err != nil { return err }
abbrev pub on_value : {W A B : Type 0} → Result A → W → (A → W → Result B × W) → Result B × W
on_value (failure e) w f = (failure e, w)
on_value (success a) w f = f a w

abbrev pub on_nil : {W B : Type 0} → Error → W → (W → Result B × W) → Result B × W
on_nil [] w f = f w
on_nil (e ∷ es) w f = (failure (e ∷ es), w)

-- ValidateRefreshSessionClaims
unfoldable pub validate_refresh_session_claims : AuthSession → Uuid → ℤ → Error
validate_refresh_session_claims session u version =
    if session.user_id == u && same_int session.token_version version
    then []
    else auth_session_mismatch ∷ token_invalid ∷ []

-- ValidateTokenVersionMatch
unfoldable pub validate_token_version_match : ℤ → ℤ → Error
validate_token_version_match current version =
    if same_int current version then [] else token_invalid ∷ token_version_mismatch ∷ []

-- the error that a rejected session is returned with
abbrev pub rejected_rotation : Error → Error
rejected_rotation e =
    if error_is is_not_found e || error_is is_mismatch e then joined e (token_invalid ∷ []) else e

abbrev rejected_consumption : Error → Error
rejected_consumption e =
    if error_is is_password_rejection e then joined e (token_invalid ∷ []) else e

abbrev missing_refresh : Error → Error
missing_refresh e =
    if error_is is_not_found e then auth_session_not_found ∷ token_invalid ∷ [] else e

abbrev missing_user : Error → Error
missing_user e = if error_is is_user_not_found e then user_not_found ∷ [] else e

abbrev pub map_error : {A : Type 0} → (Error → Error) → Result A → Result A
map_error f (success a) = success a
map_error f (failure e) = failure (f e)

module _ {W : Type 0} (ports : Ports W) where
  abbrev backfill : Uuid → ℤ → W → Result ℤ × W
  backfill u version w =
      let cached = ports.cache_token_version u version w in
      on_nil cached.0 cached.1 (λ w2. (success version, w2))

  abbrev on_miss : Uuid → Result ℤ → W → Result ℤ × W
  on_miss u (success version) w = (success version, w)
  on_miss u (failure e) w =
      let found = ports.get_token_version u w in
      if error_is is_miss e then on_value found.0 found.1 (backfill u) else (failure e, w)

  -- Current: Redis first, then the user store, whose answer Redis must take
  unfoldable pub current_token_version : Uuid → W → Result ℤ × W
  current_token_version u w =
      let cached = ports.get_cached_token_version u w in on_miss u cached.0 cached.1

  -- lifecycle.CreateTokenSession
  unfoldable pub create_token_session : Uuid → SessionId → ℤ → ℤ → W → Error × W
  create_token_session u session version ttl w =
      let s : AuthSession = record {
        user_id = u;
        session_id = session;
        token_version = version;
        expires_at = ports.time_now w + pos_part ttl;
      } in
      ports.create_session s ttl ports.max_active_sessions w

  -- lifecycle.CreatePasswordChangeSession
  unfoldable pub create_password_session : Uuid → SessionId → TokenId → ℤ → ℤ → W → Error × W
  create_password_session u session token version ttl w =
      let s : PasswordChangeSession = record {
        user_id = u;
        session_id = session;
        token_id = token;
        token_version = version;
        expires_at = ports.time_now w + pos_part ttl;
      } in
      ports.create_password_change_session s ttl w

  -- lifecycle.ConsumePasswordChangeClaims; the expiry is not compared
  unfoldable pub consume_password_change_claims : Claims → W → Error × W
  consume_password_change_claims c w =
      let expected : PasswordChangeSession = record {
        user_id = c.user_id;
        session_id = c.session_id;
        token_id = c.id;
        token_version = c.token_version;
        expires_at = 0;
      } in
      let answer = ports.consume_password_change_session expected w in
      (rejected_consumption answer.0, answer.1)

  -- lifecycle.ValidateRefreshSession
  unfoldable pub validate_refresh_session : Claims → W → Result (AuthSession × ℤ) × W
  unfolding validate_refresh_session_claims validate_token_version_match current_token_version
  validate_refresh_session c w =
      let read = ports.get_session c.user_id c.session_id w in
      on_value (map_error missing_refresh read.0) read.1 (λ session w2.
        on_nil (validate_refresh_session_claims session c.user_id c.token_version) w2 (λ w3.
          let current = current_token_version c.user_id w3 in
          on_value (map_error missing_user current.0) current.1 (λ version w4.
            on_nil (validate_token_version_match version session.token_version) w4
              (λ w5. (success (session, version), w5)))))

  -- lifecycle.RotateTokenSession
  unfoldable pub rotate_token_session : AuthSession → AuthSession → ℤ → W → Error × W
  rotate_token_session prior new ttl w =
      let answer = ports.rotate_session prior new ttl ports.max_active_sessions w in
      (rejected_rotation answer.0, answer.1)

  abbrev evict : Uuid → Error → W → Error × W
  evict u [] w = ([], w)
  evict u (e ∷ es) w =
      let evicted = ports.delete_cached_token_version u w in (joined (e ∷ es) evicted.0, evicted.1)

  -- lifecycle.RevokeUserSessionsAtVersion
  unfoldable pub revoke_user_sessions_at_version : Uuid → ℤ → W → Error × W
  revoke_user_sessions_at_version u version w =
      let cached = ports.cache_token_version u version (ports.invalidate_token_version u w) in
      let projected = evict u cached.0 cached.1 in
      let removed =
        ports.delete_all_user_sessions u (ports.invalidate_token_version u projected.1) in
      (joined projected.0 removed.0, removed.1)

  -- lifecycle.RevokeAllUserSessions: the new version with the error of the projection
  unfoldable pub revoke_all_user_sessions : Uuid → W → Result (ℤ × Error) × W
  unfolding revoke_user_sessions_at_version
  revoke_all_user_sessions u w =
      let raised = ports.increment_token_version u w in
      on_value (map_error missing_user raised.0) raised.1 (λ version w2.
        let projection = revoke_user_sessions_at_version u version w2 in
        (success (version, projection.0), projection.1))
