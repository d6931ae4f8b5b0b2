-- ===== src/Auth/Verifier.antt =====
-- user-service/internal/features/auth/application/credentials/verifier.go: the check of a password at
-- login, and the forced change of credentials. The password service is a parameter.
pub mod Change
use aegis_core.Base.{
  ℕ, Bool, true, false, not, ◌&&◌, Option, none, some, List, [], ◌∷◌, if◌then◌else◌,
}
use aegis_core.Base.Int.{ℤ}
use aegis_core.Base.Text.{Uuid}
use aegis_core.Auth.Domain.{
  Error, Result, success, failure, normal, must_change_password, can_login,
  requires_password_change, user_not_found, token_invalid, hash_failed, invalid_credentials,
  user_status_rejected,
}
use aegis_core.Auth.Lifecycle.{error_is, is_user_not_found, map_error}
use aegis_core.Rbac.Outbox.Store.{TxOutcome}
use aegis_core.Auth.Credentials.{
  UserRow, UpdateCredentialsInput, get_credential_by_user_id, update_credentials,
}

-- PasswordService: bcrypt, which may fail
pub record PasswordService : Type 0 where
  pub hash : ℕ → Result ℕ
  pub verify : ℕ → ℕ → Result Bool

abbrev may_enter : UserRow → Result UserRow
may_enter r =
    if not (requires_password_change r.status) && not (can_login r.status)
    then failure (invalid_credentials ∷ user_status_rejected ∷ [])
    else success r

abbrev judged : UserRow → Result Bool → Result UserRow
judged r (success true) = may_enter r
judged r _ = failure (invalid_credentials ∷ [])

-- VerifyPassword, on what GetByUsername has answered, with the hashes that it verified
unfoldable pub verify_password : PasswordService → ℕ → Result UserRow → ℕ → Result UserRow × List ℕ
verify_password service dummy_hash (success r) plain =
    (judged r (service.verify plain r.password_hash), r.password_hash ∷ [])
verify_password service dummy_hash (failure e) plain =
    if error_is is_user_not_found e
    then (failure (invalid_credentials ∷ []), dummy_hash ∷ [])
    else (failure e, [])

abbrev pub only_user_not_found : Error → Error
only_user_not_found e = if error_is is_user_not_found e then user_not_found ∷ [] else e

abbrev pub with_user : Uuid → Result ℤ → Result (Uuid × ℤ)
with_user u (success version) = success (u, version)
with_user u (failure e) = failure e

-- the input of UpdateCredentials: only a user who must change the password, at the version of the token
abbrev pub change_input : Uuid → ℤ → ℕ → UpdateCredentialsInput
change_input u version hashed = record {
  user_id = u;
  password_hash = hashed;
  status = normal;
  expected_status = some must_change_password;
  expected_token_version = some version;
}

-- how others act and which statements fail between the query and the end of a forced change
pub record Surroundings : Type 0 where
  pub query_fails : Bool
  pub before_update : List UserRow → List UserRow
  pub update_query_fails : Bool
  pub outcome : TxOutcome
  pub within_update : List UserRow → List UserRow
  pub last_query_fails : Bool

-- ForceChangePassword with the hashed password
unfoldable pub change_hashed :
    Surroundings → Uuid → ℤ → List UserRow → Result ℕ → Result (Uuid × ℤ) × List UserRow
unfolding update_credentials
change_hashed env u version rows (failure e) = (failure (hash_failed ∷ []), rows)
change_hashed env u version rows (success hashed) =
    let done =
      update_credentials env.update_query_fails env.outcome env.within_update env.last_query_fails
        (change_input u version hashed) (env.before_update rows) in
    (with_user u (map_error only_user_not_found done.0), done.1)

-- ForceChangePassword with the credential that was read
unfoldable pub change_found :
    PasswordService
    → Surroundings
    → Uuid
    → ℤ
    → ℕ
    → List UserRow
    → Result UserRow
    → Result (Uuid × ℤ) × List UserRow
unfolding change_hashed
change_found service env u version plain rows (failure e) = (failure (only_user_not_found e), rows)
change_found service env u version plain rows (success r) =
    if requires_password_change r.status
    then change_hashed env u version rows (service.hash plain)
    else (failure (token_invalid ∷ []), rows)

-- ForceChangePassword of the verifier
unfoldable pub force_change_password :
    PasswordService → Surroundings → Uuid → ℤ → ℕ → List UserRow → Result (Uuid × ℤ) × List UserRow
unfolding get_credential_by_user_id change_found
force_change_password service env u version plain rows =
    change_found service env u version plain rows (get_credential_by_user_id env.query_fails u rows)
