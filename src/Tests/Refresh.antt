-- ===== src/Tests/Refresh.antt =====
-- Refresh messages, the coordinator and the watcher on an engine that answers as told.
use aegis_core.Base.{
  ℕ, ◌+◌, ◌≡◌, ◌⊎◌, ◌↔◌, refl, Bool, true, false, Option, none, some, List, [], ◌∷◌, ◌++◌, arith,
  String, ◌≤◌,
}
use aegis_core.Base.Int.{◌≤ℤ◌, ℤ, pos}
use aegis_core.Rbac.Engine.{ready}
use aegis_core.Rbac.Message.{
  PolicyRefreshMessage, validate_policy_refresh_message, validate_kind, Decoder,
  decode_policy_refresh_message, accepted, cache_policy_revision,
}
use aegis_core.Rbac.Message.Validity.{IsEnvelope, validate_policy_refresh_message_iff}
use aegis_core.Rbac.Message.Cache.{value, cache_policy_revision-max}
use aegis_core.Rbac.Sync.{ReloadEngine, Local}
use aegis_core.Rbac.Watcher.{
  Watcher, watcher_error_none, watcher_error_revision_source, check_version, latest_revision,
  at_env,
}
use aegis_core.Rbac.Watcher.Reconcile.{LiveAt, EndedAt, IsConcluded, check_version-IsConcluded}

abbrev role_message : PolicyRefreshMessage
role_message = record {
  schema_version = pos 1;
  event_id = 21;
  idempotency_key = "k";
  policy_revision = none;
  user_role_revision = some (pos 4);
  kind = "user_role_changed";
  reason = "assigned";
  instance_id = "a";
  user_id = some 9;
  role_id = some 5;
  permission_id = none;
}

abbrev json : Decoder
json = λ payload. some (role_message, false)

validate_policy_refresh_message_iff_example :
    (validate_policy_refresh_message role_message ≡ none) ↔ IsEnvelope role_message
validate_policy_refresh_message_iff_example = validate_policy_refresh_message_iff role_message

decoded_role : decode_policy_refresh_message json "{}" ≡ accepted role_message
unfolding decode_policy_refresh_message validate_policy_refresh_message validate_kind
    aegis_core.Base.Text.is_blank aegis_core.Base.Text.is_space
decoded_role = refl

-- "9" is cached, "10" is supplied
abbrev nine : List ℕ
nine = 57 ∷ []

abbrev ten : List ℕ
ten = 49 ∷ 48 ∷ []

keeps_ten : cache_policy_revision (some nine) ten ≡ some ten
unfolding cache_policy_revision
keeps_ten = refl

cache_policy_revision-max_example :
    ((ten ≡ nine) ⊎ (ten ≡ ten)) × (value nine ≤ value ten) × (value ten ≤ value ten)
cache_policy_revision-max_example =
    cache_policy_revision-max nine ten ten (omega arith, omega arith, tt)
      (omega arith, omega arith, (omega arith, omega arith, tt)) keeps_ten

-- an engine whose state is its applied revision, on a database at revision 5
abbrev engine : ReloadEngine ℤ
engine = record {
  reload_to_revision = λ t s. ((pos 5, none), pos 5);
  refresh_to_revision = λ t s. ((pos 5, none), pos 5);
  projection_status = λ s. (
    record {
      initialized = true;
      reload_succeeded = true;
      applied_revision = s;
      target_revision = s;
      last_error = none;
    },
    s,
  );
  applied_revision = λ s. (s, s);
  ctx_err = λ s. (none, s);
  latest_policy_revision = λ s. (some (pos 5), s);
  now = λ s. (100, s);
}

abbrev replica : Local ℤ
replica = record { env = pos 3; invalidated = [] }

abbrev watcher : Watcher ℤ
watcher = record {
  local = replica;
  reconcile_error_category = watcher_error_none;
  last_reconcile_success_at = 0;
  last_reconcile_failure_at = 0;
}

check_version-IsConcluded_example :
    let w = check_version engine true watcher in
    let (read, s₁) = latest_revision engine true (pos 3) in
    (read ≡ none
      → (w.local.invalidated ≡ [])
        × (LiveAt engine s₁ × (w.reconcile_error_category ≡ watcher_error_revision_source)
            ⊎ EndedAt engine s₁ × (w.reconcile_error_category ≡ watcher_error_none)))
    × ((latest : ℤ)
        → read ≡ some latest
        → ((latest ≤ℤ s₁)
            × (ready (engine.projection_status s₁).0 ≡ true)
            × (w.reconcile_error_category ≡ watcher_error_none)
            × (w.local.invalidated ≡ []))
          ⊎ IsConcluded engine latest "database_revision_check" (at_env s₁ watcher) w)
check_version-IsConcluded_example = check_version-IsConcluded engine true watcher

abbrev two_payloads : List String
two_payloads = "{}" ∷ "{}" ∷ []
