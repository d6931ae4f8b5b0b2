-- ===== src/Rbac/Engine/Flights/Calls.antt =====
-- Each operation of the engine, as the invariant of Flights/Invariant sees it.
use aegis_core.Base.{
  ℕ, ◌+◌, ◌≤◌, ◌<◌, Bool, true, Option, none, some, List, [], ◌∷◌, ◌≡◌, arith, ==_iff, count, inl,
  inr, Option-cases, ◌⊎◌,
}
use aegis_core.Base.Int.{ℤ, pos, ◌≤ℤ◌}
use aegis_core.Rbac.Dispatcher.{ContextError}
use aegis_core.Rbac.Engine.{
  Engine, PolicySet, is_current, request_reload, observe_target_revision, record_reload_failure,
  start_flight, take_order, leave_flight, finish_round, apply_candidate, record_flight_failure,
  start, stop,
}
use aegis_core.Rbac.Engine.Flights.{System, callers_after, IsLoaded}
use aegis_core.Rbac.Engine.Flights.Invariant.{
  waits_for, FlightIsSound, PolicyIsSound, IsCalmer, count_fresh, AllBelow-mono, AllBelow,
}

-- an operation that leaves the projection as it is
pub record IsQuiet (e e' : Engine) : Type 0 where
  pub applied : e'.applied_revision ≡ e.applied_revision
  pub policy : e'.enforcer ≡ e.enforcer
  pub initialized : e'.initialized ≡ e.initialized
  pub given_out : e.fresh ≤ e'.fresh
  pub current : (id : ℕ) → id < e.fresh → is_current id e' ≡ true → is_current id e ≡ true

pub quiet-IsCalmer : (e e' : Engine) → IsQuiet e e' → IsCalmer e e'
quiet-IsCalmer e e' h = record {
  given_out = h.given_out;
  current = λ id small now. (h.current id small now, h.applied);
}

pub observe-IsQuiet : (t : ℤ) (e : Engine) → IsQuiet e (observe_target_revision t e)
unfolding observe_target_revision is_current
observe-IsQuiet t e = ground arith

pub request_reload-IsQuiet :
    (ctx : Option ContextError) (t : ℤ) (force : Bool) (e : Engine)
    → IsQuiet e (request_reload ctx t force e).0
unfolding request_reload observe_target_revision record_reload_failure start_flight is_current
request_reload-IsQuiet none t force e = ground arith
request_reload-IsQuiet (some c) t force e = ground arith

pub take_order-IsQuiet : (id : ℕ) (e : Engine) → IsQuiet e (take_order id e).0
unfolding take_order is_current
take_order-IsQuiet id e = ground arith

pub leave_flight-IsQuiet :
    (id : ℕ) (c : ContextError) (e : Engine) → IsQuiet e (leave_flight id c e)
unfolding leave_flight is_current
leave_flight-IsQuiet id c e = ground arith

pub start-IsQuiet : (e : Engine) → IsQuiet e (start e).0
unfolding start is_current
start-IsQuiet e = ground arith

pub stop-IsQuiet : (e : Engine) → IsQuiet e (stop e)
unfolding stop is_current
stop-IsQuiet e = ground arith

pub request_reload-FlightIsSound :
    (ctx : Option ContextError) (t : ℤ) (force : Bool) (s : System)
    → FlightIsSound s.engine.fresh s.callers s.engine.flight
    → AllBelow s.engine.fresh s.callers
    → let (e, a) = request_reload ctx t force s.engine in
      FlightIsSound e.fresh (callers_after a s.callers) e.flight
      × AllBelow e.fresh (callers_after a s.callers)
unfolding request_reload observe_target_revision record_reload_failure start_flight
request_reload-FlightIsSound none t force s h k = ground (
  arith,
  count_fresh s.engine.fresh s.callers k,
  AllBelow-mono s.engine.fresh (s.engine.fresh + 1) (omega arith) s.callers k,
)
request_reload-FlightIsSound (some c) t force s h k = ground arith

pub take_order-FlightIsSound :
    (id : ℕ) (e : Engine) (callers : List ℕ)
    → FlightIsSound e.fresh callers e.flight
    → FlightIsSound (take_order id e).0.fresh callers (take_order id e).0.flight
unfolding take_order
take_order-FlightIsSound id e callers h = ground arith

-- the caller that leaves was counted
pub leave_flight-FlightIsSound :
    (id : ℕ) (c : ContextError) (e : Engine) (callers left : List ℕ)
    → ((i : ℕ)
        → count (waits_for i) callers ≡ count (waits_for i) (id ∷ []) + count (waits_for i) left)
    → FlightIsSound e.fresh callers e.flight
    → FlightIsSound (leave_flight id c e).fresh left (leave_flight id c e).flight
unfolding leave_flight is_current
leave_flight-FlightIsSound id c e callers left counts h = elim (Option-cases e.flight) [
  | inl is ↦ ground (arith, is)
  | inr (f, is) ↦ ground (arith, is, counts f.id, ==_iff f.id id)
]

-- the end of a round either leaves the projection alone, or it is current, takes a later candidate,
-- and ends the flight
pub finish_round-facts :
    (id : ℕ) (t : ℤ) (force : Bool) (result : Option PolicySet) (e : Engine) (started database : ℤ)
    → IsLoaded started database result
    → (is_current id e ≡ true → e.applied_revision ≤ℤ started)
    → e.applied_revision ≤ℤ database
    → pos 0 ≤ℤ e.applied_revision
    → PolicyIsSound e.applied_revision e.initialized e.enforcer
    → let e' = (finish_round id t force result e).0 in
      IsCalmer e e'
      × (e.applied_revision ≤ℤ e'.applied_revision)
      × (e'.applied_revision ≤ℤ database)
      × PolicyIsSound e'.applied_revision e'.initialized e'.enforcer
      × ((e'.flight ≡ none) ⊎ (e' ≡ e))
unfolding finish_round apply_candidate record_flight_failure is_current
finish_round-facts id t force none e started database load ahead behind nonneg policy = ground arith
finish_round-facts id t force (some p) e started database load ahead behind nonneg policy =
    ground arith
