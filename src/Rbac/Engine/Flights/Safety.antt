-- ===== src/Rbac/Engine/Flights/Safety.antt =====
-- Every reachable state of the goroutines around one engine is sound, and the policy that decides
-- never goes back.
use aegis_core.Base.{◌++◌, arith}
use aegis_core.Base.Int.{◌≤ℤ◌}
use aegis_core.Rbac.Engine.{Engine, new_engine}
use aegis_core.Rbac.Engine.Flights.{
  looping, System, SystemStep, SystemReach, initial, committed, observed, asked, ordered, built,
  gave_up, woke, started_up, stopped, here, then_step,
}
use aegis_core.Rbac.Engine.Flights.Invariant.{IsSound, runs_calmer}
use aegis_core.Rbac.Engine.Flights.Calls.{
  IsQuiet, quiet-IsCalmer, observe-IsQuiet, take_order-IsQuiet, leave_flight-IsQuiet, start-IsQuiet,
  stop-IsQuiet, take_order-FlightIsSound, leave_flight-FlightIsSound, finish_round-facts,
}
use aegis_core.Rbac.Engine.Flights.Steps.{
  quiet_step, calm_runs, requested-IsSound, ordered_sound, replaced, this_run, removed_caller,
  removed_count, engine_step, observe_flight, take_order_fresh, leave_flight_fresh,
  start_flight_kept, stop_flight_kept, woken_flight, built-IsSound, same-IsCalmer,
  requested_applied,
}

-- Every step of every goroutine, and every commit, keeps the state sound: the policy that decides is
-- that of the applied revision, which the database has reached; the callers of the current flight are
-- counted exactly and there is one; and a run that may still apply its candidate has one that is
-- no older than what is applied.
SystemStep-IsSound : {s t : System} → IsSound s → SystemStep s t → IsSound t
SystemStep-IsSound {s} h (committed d grows) = record {
  not_negative = h.not_negative;
  behind = ground (arith, h.behind);
  policy = h.policy;
  flight = h.flight;
  runs = runs_calmer s.engine s.engine s.database d (same-IsCalmer s.engine) grows s.runs h.runs;
  callers = h.callers;
}
SystemStep-IsSound {s} h (observed target) =
    let (same, fresh) = observe_flight target s.engine in
    engine_step s _ h (observe-IsQuiet target s.engine) same fresh
SystemStep-IsSound {s} h (asked ctx target force) = requested-IsSound ctx target force s h
SystemStep-IsSound {s} h (ordered id before after split) =
    let q = take_order-IsQuiet id s.engine in
    quiet_step s _ h q (omega arith) (take_order-FlightIsSound id s.engine s.callers h.flight)
      (replaced s _ before after _ (looping id) h (quiet-IsCalmer _ _ q) split
        (ordered_sound id s h (this_run s before after (looping id) h split)))
      (rw (take_order_fresh id s.engine) h.callers)
SystemStep-IsSound {s} h (built id target force started result before after split load) =
    built-IsSound id target force started result before after s h split load
SystemStep-IsSound {s} h (gave_up id c before after split) =
    let q = leave_flight-IsQuiet id c s.engine in
    quiet_step s _ h q (omega arith)
      (leave_flight-FlightIsSound id c s.engine s.callers (before ++ after)
        (removed_count s.callers before after id split) h.flight)
      (calm_runs s _ q h)
      (rw (leave_flight_fresh id c s.engine) (removed_caller s before after id h split))
SystemStep-IsSound {s} h (woke id before after split old) = record {
  not_negative = h.not_negative;
  behind = h.behind;
  policy = h.policy;
  flight =
      woken_flight id s.engine s.callers (before ++ after)
        (removed_count s.callers before after id split) old h.flight;
  runs = h.runs;
  callers = removed_caller s before after id h split;
}
SystemStep-IsSound {s} h started_up =
    let (same, fresh) = start_flight_kept s.engine in
    engine_step s _ h (start-IsQuiet s.engine) same fresh
SystemStep-IsSound {s} h stopped =
    let (same, fresh) = stop_flight_kept s.engine in
    engine_step s _ h (stop-IsQuiet s.engine) same fresh

initial-IsSound : IsSound initial
unfolding new_engine
initial-IsSound = record {
  not_negative = omega arith;
  behind = omega arith;
  policy = tt;
  flight = tt;
  runs = tt;
  callers = tt;
}

SystemReach-IsSound : {s t : System} → IsSound s → SystemReach s t → IsSound t
SystemReach-IsSound h here = h
SystemReach-IsSound h (then_step r step) = SystemStep-IsSound (SystemReach-IsSound h r) step

-- In every state that a schedule of callers, runs and commits reaches from a new engine: the policy
-- that decides is that of the applied revision, which is not negative and which the database has
-- reached; the current flight counts exactly the callers that wait for it, and there is one; and a
-- run that may still apply its candidate took its order when the database was at least as far as what
-- is applied.
pub reachable-IsSound : {t : System} → SystemReach initial t → IsSound t
reachable-IsSound r = SystemReach-IsSound initial-IsSound r

quiet_applied : (e e' : Engine) → IsQuiet e e' → e.applied_revision ≤ℤ e'.applied_revision
quiet_applied e e' q = ground (arith, q.applied)

step_applied :
    {s t : System}
    → IsSound s
    → SystemStep s t
    → s.engine.applied_revision ≤ℤ t.engine.applied_revision
step_applied {s} h (committed d grows) = omega arith
step_applied {s} h (observed target) = quiet_applied _ _ (observe-IsQuiet target s.engine)
step_applied {s} h (asked ctx target force) = requested_applied ctx target force s
step_applied {s} h (ordered id before after split) =
    quiet_applied _ _ (take_order-IsQuiet id s.engine)
step_applied {s} h (built id target force started result before after split load) =
    let (small, _, ahead) = this_run s before after _ h split in
    (finish_round-facts id target force result s.engine started s.database load ahead h.behind
      h.not_negative h.policy).1
step_applied {s} h (gave_up id c before after split) =
    quiet_applied _ _ (leave_flight-IsQuiet id c s.engine)
step_applied {s} h (woke id before after split old) = omega arith
step_applied {s} h started_up = quiet_applied _ _ (start-IsQuiet s.engine)
step_applied {s} h stopped = quiet_applied _ _ (stop-IsQuiet s.engine)

-- On every schedule from a sound state the applied revision never falls, also when refreshes are
-- forced and several flights overlap.
pub applied_never_falls :
    {s t : System}
    → IsSound s
    → SystemReach s t
    → s.engine.applied_revision ≤ℤ t.engine.applied_revision
applied_never_falls h here = omega arith
applied_never_falls {s} {t} h (then_step r step) =
    let first = applied_never_falls h r in
    let last = step_applied (SystemReach-IsSound h r) step in omega (arith, first, last)
