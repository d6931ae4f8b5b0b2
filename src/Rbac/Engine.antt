-- ===== src/Rbac/Engine.antt =====
-- user-service/internal/features/permission/infrastructure/casbin/enforcer.go: the authorization
-- engine. Each section that the source runs under its mutex is one function on `Engine`; how
-- goroutines interleave them is in Engine/Flights. An enforcer stands for the policy set that it was
-- built from, since the engine never changes it.
pub mod Readiness
pub mod Flights
pub mod Enforcement
use aegis_core.Base.{
  ℕ, ◌+◌, ◌-◌, Bool, true, false, not, ◌&&◌, ◌||◌, Option, none, some, List, ◌==◌, if◌then◌else◌,
  is_none, is_some, String,
}
use aegis_core.Base.Int.{ℤ, pos, ltb_ℤ, leb_ℤ}
use aegis_core.Base.Text.{Uuid}
use aegis_core.Rbac.Dispatcher.{ContextError}

pub record PermissionRule : Type 0 where
  pub role_id : Uuid
  pub path_template : String
  pub http_method : String

pub record PolicySet : Type 0 where
  pub revision : ℤ
  pub permission_rules : List PermissionRule

pub data EngineError : Type 0 where
  negative_target negative_candidate revision_not_reached lifecycle_not_started : EngineError
  context_done : ContextError → EngineError
  build_failed : EngineError

-- *reloadFlight: `id` tells one allocation from another
pub record ReloadFlight : Type 0 where
  pub id : ℕ
  pub waiters : ℕ
  pub force : Bool

pub record Engine : Type 0 where
  pub lifecycle_started : Bool
  pub lifecycle_done : Bool
  pub enforcer : Option PolicySet
  pub applied_revision : ℤ
  pub target_revision : ℤ
  pub initialized : Bool
  pub reload_succeeded : Bool
  pub last_err : Option EngineError
  pub flight : Option ReloadFlight
  -- the next allocation
  pub fresh : ℕ

-- NewEngine
unfoldable pub new_engine : Engine
new_engine = record {
  lifecycle_started = false;
  lifecycle_done = false;
  enforcer = none;
  applied_revision = pos 0;
  target_revision = pos 0;
  initialized = false;
  reload_succeeded = false;
  last_err = none;
  flight = none;
  fresh = 0;
}

pub record ProjectionStatus : Type 0 where
  pub initialized : Bool
  pub reload_succeeded : Bool
  pub applied_revision : ℤ
  pub target_revision : ℤ
  pub last_error : Option EngineError

unfoldable pub projection_status : Engine → ProjectionStatus
projection_status e = record {
  initialized = e.initialized;
  reload_succeeded = e.reload_succeeded;
  applied_revision = e.applied_revision;
  target_revision = e.target_revision;
  last_error = e.last_err;
}

-- PolicyProjectionStatus.Ready
unfoldable pub ready : ProjectionStatus → Bool
ready s =
    s.initialized
    && s.reload_succeeded
    && is_none s.last_error
    && leb_ℤ s.target_revision s.applied_revision

-- projectionReadyForLocked
unfoldable pub projection_ready_for : ℤ → Engine → Bool
projection_ready_for target e =
    e.initialized
    && e.reload_succeeded
    && is_none e.last_err
    && leb_ℤ target e.applied_revision
    && leb_ℤ e.target_revision e.applied_revision

unfoldable pub observe_target_revision : ℤ → Engine → Engine
observe_target_revision target e =
    if ltb_ℤ target (pos 0)
    then e
    else if ltb_ℤ e.target_revision target
    then record e { target_revision = target }
    else e

-- recordReloadFailure
unfoldable pub record_reload_failure : EngineError → Engine → Engine
record_reload_failure err e = record e { last_err = some err; reload_succeeded = false }

-- what a caller of reloadToRevision has: an answer, or a flight to wait for
pub data Admission : Type 0 where
  answered : ℤ → Option EngineError → Admission
  waiting : ℕ → Admission

-- startFlightLocked
unfoldable pub start_flight : Bool → Engine → Engine
start_flight force e = record e {
  flight = some (record { id = e.fresh; waiters = 0; force = force });
  fresh = e.fresh + 1;
}

-- flight.force = true for a joining forced reload, and flight.waiters++
abbrev join : Bool → ReloadFlight → ReloadFlight
join force f = record f { force = force || f.force; waiters = f.waiters + 1 }

abbrev join_current : Bool → Engine → Engine × Admission
join_current force e = elim e.flight [
  | none ↦ (e, answered e.applied_revision none)
  | some f ↦ (record e { flight = some (join force f) }, waiting f.id)
]

-- reloadToRevision, up to the point where the caller waits; the source lets go of the mutex after it
-- has observed the target, which Flights allows for with a step of its own
unfoldable pub request_reload : Option ContextError → ℤ → Bool → Engine → Engine × Admission
request_reload ctx target force e₀ =
    if ltb_ℤ target (pos 0)
    then (
      record_reload_failure negative_target e₀,
      answered e₀.applied_revision (some negative_target),
    )
    else (let e = observe_target_revision target e₀ in
        elim ctx [
          | some c ↦ (
            record_reload_failure (context_done c) e,
            answered e.applied_revision (some (context_done c)),
          )
          | none ↦
              if not force && projection_ready_for target e
              then (e, answered e.applied_revision none)
              else if not e.lifecycle_started
              then (
                record_reload_failure lifecycle_not_started e,
                answered e.applied_revision (some lifecycle_not_started),
              )
              else join_current force (if is_none e.flight then start_flight force e else e)
        ])

-- reloadToRevision, once the flight that the caller waits for is done
unfoldable pub wake : ℤ → Engine → ℤ × Option EngineError
wake target e =
    if projection_ready_for target e then (e.applied_revision, none) else elim e.last_err [
      | some err ↦ (e.applied_revision, some err)
      | none ↦ (e.applied_revision, some revision_not_reached)
    ]

-- e.flight == flight
unfoldable pub is_current : ℕ → Engine → Bool
is_current id e = elim e.flight [ none ↦ false | some f ↦ f.id == id ]

abbrev current_waiters : Engine → ℕ
current_waiters e = elim e.flight [ none ↦ 0 | some f ↦ f.waiters ]

abbrev set_waiters : ℕ → Option ReloadFlight → Option ReloadFlight
set_waiters n none = none
set_waiters n (some f) = some (record f { waiters = n })

abbrev clear_force : Option ReloadFlight → Option ReloadFlight
clear_force none = none
clear_force (some f) = some (record f { force = false })

abbrev is_forced : Option ReloadFlight → Bool
is_forced none = false
is_forced (some f) = f.force

-- leaveFlight: a waiting caller whose context ended
unfoldable pub leave_flight : ℕ → ContextError → Engine → Engine
unfolding is_current
leave_flight id c e =
    if not (is_current id e)
    then e
    else (let left = current_waiters e - 1 in
        if left == 0
        then record e { flight = none; last_err = some (context_done c); reload_succeeded = false }
        else record e { flight = set_waiters left e.flight })

-- the head of the loop of runReloadFlight: the target and the force to load for, unless the flight
-- was abandoned
unfoldable pub take_order : ℕ → Engine → Engine × Option (ℤ × Bool)
unfolding is_current
take_order id e =
    if is_current id e
    then (record e { flight = clear_force e.flight }, some (e.target_revision, is_forced e.flight))
    else (e, none)

-- recordFlightFailure
unfoldable pub record_flight_failure : ℕ → EngineError → Engine → Engine
unfolding is_current
record_flight_failure id err e =
    if is_current id e
    then record e { last_err = some err; reload_succeeded = false; flight = none }
    else e

-- applyCandidate: true ends the flight
unfoldable pub apply_candidate : ℕ → PolicySet → Bool → Engine → Engine × Bool
unfolding is_current
apply_candidate id candidate force e =
    if not (is_current id e)
    then (e, true)
    else if ltb_ℤ candidate.revision e.target_revision
    then (e, false)
    else if is_forced e.flight
    then (e, false)
    else (let taken = ltb_ℤ e.applied_revision candidate.revision || not e.initialized || force in
        (
          record e {
            enforcer = if taken then some candidate else e.enforcer;
            applied_revision = if taken then candidate.revision else e.applied_revision;
            initialized = true;
            last_err = none;
            reload_succeeded = true;
            flight = none;
          },
          true,
        ))

-- the body of the loop of runReloadFlight after buildEnforcer: true ends the flight
unfoldable pub finish_round : ℕ → ℤ → Bool → Option PolicySet → Engine → Engine × Bool
finish_round id target force none e = (record_flight_failure id build_failed e, true)
finish_round id target force (some candidate) e =
    if ltb_ℤ candidate.revision (pos 0)
    then (record_flight_failure id negative_candidate e, true)
    else if ltb_ℤ candidate.revision target
    then (record_flight_failure id revision_not_reached e, true)
    else apply_candidate id candidate force e

-- Start of enforcer_lifecycle.go, with a context; false is its error
unfoldable pub start : Engine → Engine × Bool
start e = if e.lifecycle_done then (e, false) else (record e { lifecycle_started = true }, true)

-- Stop of enforcer_lifecycle.go
unfoldable pub stop : Engine → Engine
stop e = record e { lifecycle_done = true; lifecycle_started = false }
