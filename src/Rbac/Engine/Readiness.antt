-- ===== src/Rbac/Engine/Readiness.antt =====
-- What the answers of enforcer_lifecycle.go and the readiness gate say of each other.
use aegis_core.Base.{◌≡◌, Bool, true, false, Option, none, some, arith}
use aegis_core.Base.Int.{ℤ, pos, ◌≤ℤ◌}
use aegis_core.Rbac.Dispatcher.{ContextError}
use aegis_core.Rbac.Engine.{
  Engine, EngineError, Admission, answered, ready, projection_status, projection_ready_for,
  observe_target_revision, record_reload_failure, request_reload, start_flight,
}

-- what one request of a reload leaves
pub record IsAdmitted (target : ℤ) (force : Bool) (e : Engine) (out : Engine × Admission)
    : Type 0 where
  pub applied : out.0.applied_revision ≡ e.applied_revision
  pub enforcer : out.0.enforcer ≡ e.enforcer
  pub observed : pos 0 ≤ℤ target → target ≤ℤ out.0.target_revision
  pub target_grows : e.target_revision ≤ℤ out.0.target_revision
  pub success :
      (r : ℤ)
      → out.1 ≡ answered r none
      → (force ≡ false) × (r ≡ e.applied_revision) × (projection_ready_for target out.0 ≡ true)
  pub failure :
      (r : ℤ) (err : EngineError)
      → out.1 ≡ answered r (some err)
      → ready (projection_status out.0) ≡ false

-- A request of a reload, on every branch: it never touches the policy that decides, nor lowers the
-- target, and a target that is not negative is observed; it succeeds at once only unforced, with the
-- projection ready for the target; and each error it returns at once leaves the engine not ready.
pub request_reload-IsAdmitted :
    (ctx : Option ContextError) (target : ℤ) (force : Bool) (e : Engine)
    → IsAdmitted target force e (request_reload ctx target force e)
unfolding request_reload observe_target_revision record_reload_failure start_flight ready
    projection_status
request_reload-IsAdmitted none target force e = ground arith
request_reload-IsAdmitted (some c) target force e = ground arith
