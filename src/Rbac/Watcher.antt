-- ===== src/Rbac/Watcher.antt =====
-- user-service/internal/features/permission/infrastructure/redis/watcher.go: the reconciliation of one
-- replica with the database's policy revision, on a timer and on batches of refresh messages. The
-- loop of `run` makes these calls one after the other; logs and metrics are left out.
pub mod Batch
pub mod Reconcile
use text.Mathlib.Text.{◌==◌ as same_text}
use aegis_core.Base.{
  ℕ, Bool, true, false, not, ◌&&◌, ◌||◌, Option, none, some, List, [], ◌∷◌, ◌++◌, ◌==◌,
  if◌then◌else◌, String,
}
use aegis_core.Base.Int.{ℤ, pos, ltb_ℤ, leb_ℤ}
use aegis_core.Base.Text.{Uuid, nil_uuid}
use aegis_core.Rbac.Dispatcher.{ContextError}
use aegis_core.Rbac.Engine.{ProjectionStatus, EngineError, ready}
use aegis_core.Rbac.Message.{
  PolicyRefreshMessage, policy_refresh_kind_policy_changed, policy_revision_of, Decoder, Decoded,
  refused, accepted, decode_policy_refresh_message,
}
use aegis_core.Rbac.Sync.{
  PolicyChange, new_policy_reload_change, requires_reload, policy_change, ReloadEngine,
  Invalidation, one_user, all_users, Local, invalidate, SyncError, reload_failed,
  target_not_reached, sync_canceled, is_incomplete,
}

-- PolicyWatcherErrorCategory, as far as reconciliation sets it
pub data WatcherErrorCategory : Type 0 where
  watcher_error_none watcher_error_revision_source watcher_error_reload : WatcherErrorCategory

-- the watcher's own state around the replica's
pub record Watcher (S : Type 0) : Type 0 where
  pub local : Local S
  pub reconcile_error_category : WatcherErrorCategory
  pub last_reconcile_success_at : ℕ
  pub last_reconcile_failure_at : ℕ

pub record PendingRefreshBatch : Type 0 where
  pub has_messages : Bool
  pub has_policy_change : Bool
  pub max_policy_revision : ℤ
  pub policy_reason : String
  pub instance_id : String
  pub changes : List PolicyChange
  pub user_role_changes : List PolicyChange

-- newPendingRefreshBatch
abbrev pub new_pending_refresh_batch : PendingRefreshBatch
new_pending_refresh_batch = record {
  has_messages = false;
  has_policy_change = false;
  max_policy_revision = pos 0;
  policy_reason = "policy_changed";
  instance_id = "";
  changes = [];
  user_role_changes = [];
}

abbrev pub is_policy_message : PolicyRefreshMessage → Bool
is_policy_message m = same_text m.kind policy_refresh_kind_policy_changed

abbrev raise : PolicyRefreshMessage → PendingRefreshBatch → PendingRefreshBatch
raise m b =
    if ltb_ℤ b.max_policy_revision (policy_revision_of m)
    then record b {
      max_policy_revision = policy_revision_of m;
      policy_reason = m.reason;
      instance_id = m.instance_id;
    }
    else b

-- pendingRefreshBatch.add
unfoldable pub add : PolicyRefreshMessage → PendingRefreshBatch → PendingRefreshBatch
add m b₀ =
    let change = policy_change m in
    let b = record b₀ { has_messages = true; changes = b₀.changes ++ change ∷ [] } in
    if is_policy_message m
    then raise m (record b { has_policy_change = true })
    else record b { user_role_changes = b.user_role_changes ++ change ∷ [] }

-- the loop of HandlePayloads: what does not decode is skipped
unfoldable pub gather : Decoder → List String → PendingRefreshBatch → PendingRefreshBatch
gather json [] b = b
gather json (payload ∷ payloads) b = elim (decode_policy_refresh_message json payload) [
  | refused e ↦ gather json payloads b
  | accepted m ↦ gather json payloads (add m b)
]

module _ {S : Type 0} where
  abbrev pub at_env : S → Watcher S → Watcher S
  at_env s w = record w { local = record (w.local) { env = s } }

  -- invalidateChange
  unfoldable pub invalidate_change : PolicyChange → Local S → Local S
  invalidate_change change w =
      if not (change.user_id == nil_uuid)
      then invalidate (one_user change.user_id) w
      else if requires_reload change
      then invalidate all_users w
      else w

  abbrev pub invalidate_changes : List PolicyChange → Local S → Local S
  invalidate_changes [] w = w
  invalidate_changes (c ∷ cs) w = invalidate_changes cs (invalidate_change c w)

  -- the end of ObserveTargetRevision
  abbrev pub after_catch_up :
      Bool → PolicyChange → Option SyncError → Local S → Option SyncError × Local S
  after_catch_up has_revision_gap change (some e) w = (some e, w)
  after_catch_up has_revision_gap change none w =
      (none, if has_revision_gap then invalidate all_users w else invalidate_change change w)

  module _ (engine : ReloadEngine S) where
    -- latestRevision, where `present` is revisionSource != nil; an error is none
    unfoldable pub latest_revision : Bool → S → Option ℤ × S
    latest_revision present s =
        let (ended, s₁) = engine.ctx_err s in
        elim ended [
          | some c ↦ (none, s₁)
          | none ↦
              if not present
              then (none, s₁)
              else (let (revision, s₂) = engine.latest_policy_revision s₁ in
                  elim revision [ some r ↦ (some r, s₂) | none ↦ (none, (engine.ctx_err s₂).1) ])
        ]

    -- markReconcileSuccess
    unfoldable pub mark_reconcile_success : Watcher S → Watcher S
    mark_reconcile_success w =
        let (t, s) = engine.now w.local.env in
        record (at_env s w) {
          reconcile_error_category = watcher_error_none;
          last_reconcile_success_at = t;
        }

    -- markReconcileFailure
    unfoldable pub mark_reconcile_failure : WatcherErrorCategory → Watcher S → Watcher S
    mark_reconcile_failure category w =
        let (ended, s) = engine.ctx_err w.local.env in
        elim ended [
          | some c ↦ at_env s w
          | none ↦
              let (t, s') = engine.now s in
              record (at_env s' w) {
                reconcile_error_category = category;
                last_reconcile_failure_at = t;
              }
        ]

    -- the callers' `if ctx.Err() != nil { return }` before markReconcileFailure
    abbrev pub fail_unless_ended : WatcherErrorCategory → Watcher S → Watcher S
    fail_unless_ended category w =
        let (ended, s) = engine.ctx_err w.local.env in
        elim ended [ some c ↦ at_env s w | none ↦ mark_reconcile_failure category (at_env s w) ]

    abbrev pub reload : Bool → ℤ → S → (ℤ × Option EngineError) × S
    reload force target s =
        if force then engine.refresh_to_revision target s else engine.reload_to_revision target s

    -- the reload inside ObserveTargetRevision
    unfoldable pub catch_up : ℤ → PolicyChange → S → Option SyncError × S
    catch_up target change s =
        let ((applied, failed), s₁) = reload (requires_reload change) target s in
        elim failed [
          | some e ↦
              let (ended, s₂) = engine.ctx_err s₁ in
              elim ended [
                | some c ↦ (some (sync_canceled c), s₂)
                | none ↦ (some (reload_failed e), s₂)
              ]
          | none ↦
              let (status, s₂) = engine.projection_status s₁ in
              if is_incomplete target status then (some target_not_reached, s₂) else (none, s₂)
        ]

    -- ObserveTargetRevision
    unfoldable pub observe_target_revision : ℤ → PolicyChange → Local S → Option SyncError × Local S
    observe_target_revision target change w =
        let (local_applied, s₁) = engine.applied_revision w.env in
        let has_revision_gap = ltb_ℤ local_applied target in
        let (status, s₂) = engine.projection_status s₁ in
        let (failed, s₃) =
          if has_revision_gap || not (ready status)
          then catch_up target change s₂
          else (none, s₂) in
        after_catch_up has_revision_gap change failed (record w { env = s₃ })

    -- what CheckVersion and handlePolicyBatch do with the outcome of ObserveTargetRevision
    abbrev pub conclude : Option SyncError → Watcher S → Watcher S
    conclude none w = mark_reconcile_success w
    conclude (some e) w = fail_unless_ended watcher_error_reload w

    abbrev pub reconcile : ℤ → String → Watcher S → Watcher S
    reconcile target reason w =
        let (failed, l) =
          observe_target_revision target (new_policy_reload_change reason) w.local in
        conclude failed (record w { local = l })

    -- CheckVersion
    unfoldable pub check_version : Bool → Watcher S → Watcher S
    check_version present w =
        let (latest, s₁) = latest_revision present w.local.env in
        elim latest [
          | none ↦ fail_unless_ended watcher_error_revision_source (at_env s₁ w)
          | some database_latest ↦
              let (local_applied, s₂) = engine.applied_revision s₁ in
              let (status, s₃) = engine.projection_status s₂ in
              if leb_ℤ database_latest local_applied && ready status
              then mark_reconcile_success (at_env s₃ w)
              else reconcile database_latest "database_revision_check" (at_env s₃ w)
        ]

    -- handlePolicyBatch, where the changes are invalidated when the source fails
    unfoldable pub handle_policy_batch : Bool → PendingRefreshBatch → Watcher S → Watcher S
    handle_policy_batch present pending w =
        let (local_applied, s₀) = engine.applied_revision w.local.env in
        let (latest, s₁) = latest_revision present s₀ in
        elim latest [
          | none ↦
              let (ended, s₂) = engine.ctx_err s₁ in
              elim ended [
                | some c ↦ at_env s₂ w
                | none ↦
                    let w₃ = mark_reconcile_failure watcher_error_revision_source (at_env s₂ w) in
                    record w₃ { local = invalidate_changes pending.changes w₃.local }
              ]
          | some database_latest ↦ reconcile database_latest pending.policy_reason (at_env s₁ w)
        ]

    -- HandlePayloads
    unfoldable pub handle_payloads : Bool → Decoder → List String → Watcher S → Watcher S
    handle_payloads present json payloads w =
        let pending = gather json payloads new_pending_refresh_batch in
        if not pending.has_messages
        then w
        else if pending.has_policy_change
        then handle_policy_batch present pending w
        else mark_reconcile_success
            (record w { local = invalidate_changes pending.user_role_changes w.local })
