-- ===== src/Tests/Credentials.antt =====
-- A forced change of the password, while another session commits.
use aegis_core.Base.{ℕ, ◌+◌, false, List, [], ◌∷◌, ◌==◌}
use aegis_core.Base.Int.{ℤ, pos}
use aegis_core.Auth.Domain.{Result, success, must_change_password}
use aegis_core.Rbac.Outbox.Store.{tx_ok}
use aegis_core.Auth.Credentials.{UserRow}
use aegis_core.Auth.Verifier.{PasswordService, Surroundings, force_change_password}

abbrev user : ℕ
user = 7

abbrev row : ℕ → UserRow
row u = record {
  id = u + 100;
  user_id = u;
  username = u;
  password_hash = 1;
  status = must_change_password;
  token_version = pos 2;
  deleted = false;
}

abbrev service : PasswordService
service = record {
  hash = λ plain. success (plain + 1000);
  verify = λ plain hashed. success (hashed == plain + 1000);
}

-- before the update another session inserts a user
abbrev env : Surroundings
env = record {
  query_fails = false;
  before_update = λ rows. row 8 ∷ rows;
  update_query_fails = false;
  outcome = tx_ok;
  within_update = λ rows. rows;
  last_query_fails = false;
}

abbrev changed : Result (ℕ × ℤ) × List UserRow
changed = force_change_password service env 7 (pos 2) 5 (row 7 ∷ [])
