-- ===== src/Rbac/Sync.antt =====
-- user-service/internal/features/permission/application/policy_sync.go: the changes that refreshes
-- carry, the engine as its clients see it, and the coordinator that a committed change calls. Logs
-- and metrics are left out.
pub mod Notified
use text.Mathlib.Text.{◌==◌ as same_text}
use aegis_core.Base.{
  ℕ, ◌≡◌, Bool, true, false, not, ◌&&◌, ◌||◌, Option, none, some, List, [], ◌∷◌, ◌++◌, ◌==◌,
  if◌then◌else◌, String,
}
use aegis_core.Base.Int.{ℤ, pos, ltb_ℤ}
use aegis_core.Base.Text.{Uuid, nil_uuid, uuid_value}
use aegis_core.Rbac.Engine.{ProjectionStatus, EngineError, ready}
use aegis_core.Rbac.Dispatcher.{ContextError}
use aegis_core.Rbac.Message.{PolicyRefreshMessage, policy_refresh_kind_user_role_changed}

pub data PolicyChangeKind : Type 0 where
  unset policy user_role : PolicyChangeKind

pub record PolicyChange : Type 0 where
  pub kind : PolicyChangeKind
  pub reason : String
  pub user_id : Uuid
  pub role_id : Uuid
  pub permission_id : Uuid

-- NewPolicyReloadChange
unfoldable pub new_policy_reload_change : String → PolicyChange
new_policy_reload_change reason = record {
  kind = policy;
  reason = reason;
  user_id = nil_uuid;
  role_id = nil_uuid;
  permission_id = nil_uuid;
}

-- NewUserRoleChange
unfoldable new_user_role_change : String → Uuid → Uuid → PolicyChange
new_user_role_change reason user role = record {
  kind = user_role;
  reason = reason;
  user_id = user;
  role_id = role;
  permission_id = nil_uuid;
}

-- PolicyChange.RequiresReload
unfoldable pub requires_reload : PolicyChange → Bool
requires_reload c = elim c.kind [ unset ↦ true | policy ↦ true | user_role ↦ false ]

-- PolicyRefreshMessage.policyChange of message.go
unfoldable pub policy_change : PolicyRefreshMessage → PolicyChange
policy_change m = record {
  kind = if same_text m.kind policy_refresh_kind_user_role_changed then user_role else policy;
  reason = m.reason;
  user_id = uuid_value m.user_id;
  role_id = uuid_value m.role_id;
  permission_id = uuid_value m.permission_id;
}

-- what a client asks of the engine, of its context and of the database: each answer is given by the
-- state of the surroundings, which other goroutines may change before every call
pub record ReloadEngine (S : Type 0) : Type 0 where
  pub reload_to_revision : ℤ → S → (ℤ × Option EngineError) × S
  pub refresh_to_revision : ℤ → S → (ℤ × Option EngineError) × S
  pub projection_status : S → ProjectionStatus × S
  pub applied_revision : S → ℤ × S
  pub ctx_err : S → Option ContextError × S
  -- LatestPolicyRevisionSource; none is an error
  pub latest_policy_revision : S → Option ℤ × S
  pub now : S → ℕ × S

-- a call of InvalidateUserRole or of InvalidateAllUserRoles
pub data Invalidation : Type 0 where
  one_user : Uuid → Invalidation
  all_users : Invalidation

-- the surroundings, and the invalidations so far, the oldest first
pub record Local (S : Type 0) : Type 0 where
  pub env : S
  pub invalidated : List Invalidation

pub data SyncError : Type 0 where
  reload_failed : EngineError → SyncError
  target_not_reached : SyncError
  sync_canceled : ContextError → SyncError

-- the invalidations of the coordinator after a reload
abbrev invalidation_of : PolicyChange → Invalidation
invalidation_of c =
    if requires_reload c
    then all_users
    else if not (c.user_id == nil_uuid)
    then one_user c.user_id
    else all_users

-- !status.Ready() || status.AppliedRevision < targetRevision
abbrev pub is_incomplete : ℤ → ProjectionStatus → Bool
is_incomplete target s = not (ready s) || ltb_ℤ s.applied_revision target

module _ {S : Type 0} where
  abbrev pub invalidate : Invalidation → Local S → Local S
  invalidate i w = record w { invalidated = w.invalidated ++ i ∷ [] }

  -- ObservePolicyRevision of the coordinator, which NotifyPolicyChanged calls
  unfoldable pub observe_policy_revision :
      ReloadEngine S → ℤ → PolicyChange → Local S → Option SyncError × Local S
  observe_policy_revision engine target change w =
      let ((applied, failed), s₁) = engine.reload_to_revision target w.env in
      elim failed [
        | some e ↦ (some (reload_failed e), record w { env = s₁ })
        | none ↦
            let (status, s₂) = engine.projection_status s₁ in
            if is_incomplete target status
            then (some target_not_reached, record w { env = s₂ })
            else (none, invalidate (invalidation_of change) (record w { env = s₂ }))
      ]

  -- ObserveUserRoleRevision of the coordinator, which NotifyUserRoleChanged calls
  unfoldable observe_user_role_revision : PolicyChange → Local S → Option SyncError × Local S
  observe_user_role_revision change w = (
    none,
    invalidate (if not (change.user_id == nil_uuid) then one_user change.user_id else all_users) w,
  )
