-- ===== src/Rbac/Sync/Notified.antt =====
-- What a caller of the coordinator of policy_sync.go may rely on.
use aegis_core.Base.{◌≡◌, ◌≢◌, true, false, [], ◌∷◌, ◌++◌}
use aegis_core.Base.Int.{ℤ, ◌≤ℤ◌}
use aegis_core.Base.Text.{nil_uuid}
use aegis_core.Rbac.Engine.{ready}
use aegis_core.Rbac.Sync.{ReloadEngine, Local, PolicyChange, one_user, all_users, requires_reload}

module _ {S : Type 0} (engine : ReloadEngine S) where
  -- the change was taken over at some status of the engine that is ready and has the target
  abbrev pub IsTaken : ℤ → PolicyChange → Local S → Local S → Type 0
  IsTaken target change w w' =
      let ((applied, failed), s₁) = engine.reload_to_revision target w.env in
      let (status, s₂) = engine.projection_status s₁ in
      (ready status ≡ true)
      × (target ≤ℤ status.applied_revision)
      × (requires_reload change ≡ true → w'.invalidated ≡ w.invalidated ++ all_users ∷ [])
      × (requires_reload change ≡ false
          → change.user_id ≢ nil_uuid
          → w'.invalidated ≡ w.invalidated ++ one_user change.user_id ∷ [])
