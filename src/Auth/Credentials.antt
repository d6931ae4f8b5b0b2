-- ===== src/Auth/Credentials.antt =====
-- user-service/internal/features/auth/infrastructure/postgres/credential_store.go. The table of users is its rows; each query and each update is
-- one statement, other sessions commit between two of them, and a statement may fail. User names
-- and hashes are numbers.
use aegis_core.Base.{
  ℕ, zero, suc, Bool, true, false, not, ◌&&◌, ◌||◌, Option, none, some, List, [], ◌∷◌, ◌==◌,
  if◌then◌else◌, filter,
}
use aegis_core.Base.Int.{ℤ, pos, negsuc}
use aegis_core.Base.Text.{Uuid}
use aegis_core.Auth.Domain.{
  Result, success, failure, UserStatus, normal, disabled, must_change_password, unknown_status,
  same_int, user_not_found, token_invalid, database_failed,
}
use aegis_core.Rbac.Outbox.Store.{TxOutcome, tx_ok, tx_failed, tx_reply_lost}

-- the columns of UserCredential with the key and the mark of a soft deletion
pub record UserRow : Type 0 where
  pub id : ℕ
  pub user_id : Uuid
  pub username : ℕ
  pub password_hash : ℕ
  pub status : UserStatus
  pub token_version : ℤ
  pub deleted : Bool

abbrev pub same_status : UserStatus → UserStatus → Bool
same_status normal normal = true
same_status disabled disabled = true
same_status must_change_password must_change_password = true
same_status (unknown_status a) (unknown_status b) = same_int a b
same_status _ _ = false

-- AddTokenVersion(1)
abbrev pub next_version : ℤ → ℤ
next_version (pos n) = pos (suc n)
next_version (negsuc zero) = pos 0
next_version (negsuc (suc n)) = negsuc n

abbrev only : List UserRow → Result UserRow
only [] = failure (user_not_found ∷ [])
only (r ∷ []) = success r
only (r ∷ s ∷ rs) = failure (database_failed ∷ [])

-- Query().Where(...).Only: no row and several rows are errors
abbrev pub query_only : Bool → (UserRow → Bool) → List UserRow → Result UserRow
query_only true p rows = failure (database_failed ∷ [])
query_only false p rows = only (filter p rows)

-- UserIDEQ and DeletedAtIsNil
abbrev pub of_user : Uuid → UserRow → Bool
of_user u r = r.user_id == u && not r.deleted

-- GetByUsername
unfoldable pub get_by_username : Bool → ℕ → List UserRow → Result UserRow
get_by_username fails name rows = query_only fails (λ r. r.username == name && not r.deleted) rows

-- GetCredentialByUserID
unfoldable pub get_credential_by_user_id : Bool → Uuid → List UserRow → Result UserRow
get_credential_by_user_id fails u rows = query_only fails (of_user u) rows

abbrev version_of : Result UserRow → Result ℤ
version_of (success r) = success r.token_version
version_of (failure e) = failure e

-- GetTokenVersion
unfoldable pub get_token_version : Bool → Uuid → List UserRow → Result ℤ
get_token_version fails u rows = version_of (query_only fails (of_user u) rows)

-- UPDATE on the rows that pass a test
abbrev pub update_rows : (UserRow → Bool) → (UserRow → UserRow) → List UserRow → List UserRow
update_rows p change [] = []
update_rows p change (r ∷ rs) = (if p r then change r else r) ∷ update_rows p change rs

-- the row that an update of one row meets
abbrev pub first_row : (UserRow → Bool) → List UserRow → Option UserRow
first_row p [] = none
first_row p (r ∷ rs) = let rest = first_row p rs in if p r then some r else rest

-- UpdateOneID(...).Where(...).Save with a new version: none is the NotFound of a row that is not there
pub data Saved : Type 0 where
  saved : ℤ → Saved
  not_found save_failed : Saved

abbrev pub save_reply : Option UserRow → Saved
save_reply none = not_found
save_reply (some r) = saved (next_version r.token_version)

unfoldable pub save_one :
    (UserRow → Bool) → (UserRow → UserRow) → TxOutcome → List UserRow → Saved × List UserRow
save_one p change tx_ok rows = (save_reply (first_row p rows), update_rows p change rows)
save_one p change tx_failed rows = (save_failed, rows)
save_one p change tx_reply_lost rows = (save_failed, update_rows p change rows)

abbrev raise_version : UserRow → UserRow
raise_version r = record r { token_version = next_version r.token_version }

abbrev incremented : Saved → Result ℤ
incremented (saved version) = success version
incremented not_found = failure (user_not_found ∷ [])
incremented save_failed = failure (database_failed ∷ [])

-- IncrementTokenVersion, where others commit between the query and the update
unfoldable pub increment_token_version :
    Bool → TxOutcome → (List UserRow → List UserRow) → Uuid → List UserRow → Result ℤ × List UserRow
unfolding save_one
increment_token_version fails outcome others u rows = elim (query_only fails (of_user u) rows) [
  | failure e ↦ (failure e, rows)
  | success found ↦
      (let done =
          save_one (λ r. r.id == found.id && not r.deleted) raise_version outcome (others rows) in
        (incremented done.0, done.1))
]

pub record UpdateCredentialsInput : Type 0 where
  pub user_id : Uuid
  pub password_hash : ℕ
  pub status : UserStatus
  pub expected_status : Option UserStatus
  pub expected_token_version : Option ℤ

abbrev pub status_allowed : Option UserStatus → UserStatus → Bool
status_allowed none s = true
status_allowed (some want) s = same_status s want

abbrev pub version_allowed : Option ℤ → ℤ → Bool
version_allowed none v = true
version_allowed (some want) v = same_int v want

-- the predicates of UpdateCredentials, and its SET
unfoldable pub may_update : UpdateCredentialsInput → ℕ → UserRow → Bool
may_update input id r =
    r.id == id
    && not r.deleted
    && status_allowed input.expected_status r.status
    && version_allowed input.expected_token_version r.token_version

unfoldable pub replace_credentials : UpdateCredentialsInput → UserRow → UserRow
replace_credentials input r = record r {
  password_hash = input.password_hash;
  status = input.status;
  token_version = next_version r.token_version;
}

abbrev is_given : {A : Type 0} → Option A → Bool
is_given none = false
is_given (some a) = true

abbrev pub updated : Bool → Saved → Result UserRow → Result ℤ
updated conditional (saved version) now = success version
updated conditional save_failed now = failure (database_failed ∷ [])
updated true not_found (success r) = failure (token_invalid ∷ [])
updated _ not_found _ = failure (user_not_found ∷ [])

-- UpdateCredentials on the row that its query found; after a conditional update that met no row it
-- looks for the user again
unfoldable pub update_found :
    TxOutcome
    → (List UserRow → List UserRow)
    → Bool
    → UpdateCredentialsInput
    → List UserRow
    → Result UserRow
    → Result ℤ × List UserRow
unfolding save_one may_update replace_credentials
update_found outcome others fails_again input rows (failure e) = (failure e, rows)
update_found outcome others fails_again input rows (success found) =
    let done =
      save_one (may_update input found.id) (replace_credentials input) outcome (others rows) in
    let conditional = is_given input.expected_status || is_given input.expected_token_version in
    (updated conditional done.0 (query_only fails_again (of_user input.user_id) done.1), done.1)

-- UpdateCredentials
unfoldable pub update_credentials :
    Bool
    → TxOutcome
    → (List UserRow → List UserRow)
    → Bool
    → UpdateCredentialsInput
    → List UserRow
    → Result ℤ × List UserRow
unfolding update_found
update_credentials fails outcome others fails_again input rows =
    update_found outcome others fails_again input rows
      (query_only fails (of_user input.user_id) rows)
