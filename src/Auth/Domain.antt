-- ===== src/Auth/Domain.antt =====
-- user-service/internal/features/auth/domain and user-service/internal/shared/identity: sessions,
-- credentials, statuses and the errors. An error value is the list of what errors.Is finds in it:
-- nil is the empty list and errors.Join appends. Texts that are only compared are numbers, 0 the
-- empty one.
use aegis_core.Base.{ℕ, Bool, true, false, List, ◌==◌}
use aegis_core.Base.Int.{ℤ, pos, negsuc}
use aegis_core.Base.Text.{Uuid}

abbrev pub SessionId : Type 0
SessionId = ℕ

abbrev pub TokenId : Type 0
TokenId = ℕ

pub record AuthSession : Type 0 where
  pub user_id : Uuid
  pub session_id : SessionId
  pub token_version : ℤ
  pub expires_at : ℕ

pub record PasswordChangeSession : Type 0 where
  pub user_id : Uuid
  pub session_id : SessionId
  pub token_id : TokenId
  pub token_version : ℤ
  pub expires_at : ℕ

pub data AuthError : Type 0 where
  invalid_credentials user_status_rejected missing_session token_invalid : AuthError
  auth_session_not_found auth_session_mismatch token_version_cache_miss : AuthError
  password_change_session_not_found password_change_session_mismatch : AuthError
  session_revocation_incomplete user_not_found token_version_mismatch empty_password : AuthError
  redis_failed database_failed hash_failed purge_conflict purge_rejected : AuthError
  session_exists session_unreadable entropy_failed signing_failed verification_failed : AuthError
  missing_secret missing_user_id missing_token_id invalid_token_id missing_token_version : AuthError
  missing_session_id invalid_subject : AuthError

abbrev pub Error : Type 0
Error = List AuthError

-- a value, or the error that is returned with the zero value
pub data Result (A : Type 0) : Type 0 where
  success : A → Result A
  failure : Error → Result A

-- equality of int64
abbrev pub same_int : ℤ → ℤ → Bool
same_int (pos a) (pos b) = a == b
same_int (negsuc a) (negsuc b) = a == b
same_int _ _ = false

-- UserStatus is an int64 of which three values are known
pub data UserStatus : Type 0 where
  normal disabled must_change_password : UserStatus
  unknown_status : ℤ → UserStatus

-- UserStatus.CanLogin
abbrev pub can_login : UserStatus → Bool
can_login normal = true
can_login _ = false

-- UserStatus.RequiresPasswordChange
abbrev pub requires_password_change : UserStatus → Bool
requires_password_change must_change_password = true
requires_password_change _ = false
