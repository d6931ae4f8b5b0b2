-- ===== src/Rbac/Engine/Flights/Steps.antt =====
-- What each kind of step does to the parts of the invariant of Flights/Invariant.
use aegis_core.Base.{
  ℕ, ◌+◌, ◌<◌, Bool, true, false, Option, none, some, List, [], ◌∷◌, ◌++◌, ◌≡◌, ◌⊎◌, refl, sym,
  arith, ==_iff, count, All, All-append, Option-cases, inl, inr,
}
use aegis_core.Base.Int.{ℤ, ◌≤ℤ◌}
use aegis_core.Rbac.Dispatcher.{ContextError}
use aegis_core.Rbac.Engine.{
  Engine, PolicySet, Admission, answered, waiting, ReloadFlight, is_current,
  observe_target_revision, take_order, leave_flight, finish_round, start, stop, apply_candidate,
  record_flight_failure,
}
use aegis_core.Rbac.Engine.Flights.{
  Run, building, System, requested, runs_after, callers_after, ordered_run, after_round, IsLoaded,
}
use aegis_core.Rbac.Engine.Flights.Invariant.{
  waits_for, IsSound, IsCalmer, FlightIsSound, RunIsSound, AllBelow, AllBelow-remove, runs_calmer,
  All-split, count-remove,
}
use aegis_core.Rbac.Engine.Flights.Calls.{
  IsQuiet, quiet-IsCalmer, request_reload-IsQuiet, request_reload-FlightIsSound, finish_round-facts,
}

-- a step that leaves the projection as it is, with what it does to the runs and the callers
pub quiet_step :
    (s t : System)
    → IsSound s
    → IsQuiet s.engine t.engine
    → s.database ≤ℤ t.database
    → FlightIsSound t.engine.fresh t.callers t.engine.flight
    → All (RunIsSound t.engine t.database) t.runs
    → AllBelow t.engine.fresh t.callers
    → IsSound t
quiet_step s t h q grows flight runs callers = record {
  not_negative = ground (arith, h.not_negative, q.applied);
  behind = ground (arith, h.behind, q.applied);
  policy = ground (arith, h.policy, q.applied, q.policy, q.initialized);
  flight = flight;
  runs = runs;
  callers = callers;
}

pub calm_runs :
    (s : System) (e' : Engine)
    → IsQuiet s.engine e'
    → IsSound s
    → All (RunIsSound e' s.database) s.runs
calm_runs s e' q h =
    runs_calmer s.engine e' s.database s.database (quiet-IsCalmer s.engine e' q) (omega arith)
      s.runs h.runs

run_added :
    (o : Option ReloadFlight) (a : Admission) (e : Engine) (d : ℤ) (runs : List Run)
    (callers : List ℕ)
    → AllBelow e.fresh (callers_after a callers)
    → All (RunIsSound e d) runs
    → All (RunIsSound e d) (runs_after o a runs)
run_added (some f) a e d runs callers h k = k
run_added none (answered r err) e d runs callers h k = k
run_added none (waiting id) e d runs callers h k = (h.0, k)

pub requested-IsSound :
    (ctx : Option ContextError) (target : ℤ) (force : Bool) (s : System)
    → IsSound s
    → IsSound (requested ctx target force s)
unfolding requested
requested-IsSound ctx target force s h =
    let q = request_reload-IsQuiet ctx target force s.engine in
    let (flight, callers) = request_reload-FlightIsSound ctx target force s h.flight h.callers in
    quiet_step s _ h q (omega arith) flight
      (run_added s.engine.flight _ _ _ s.runs s.callers callers (calm_runs s _ q h)) callers

pub ordered_sound :
    (id : ℕ) (s : System)
    → IsSound s
    → id < s.engine.fresh
    → All
        (RunIsSound (take_order id s.engine).0 s.database)
        (ordered_run id s.database (take_order id s.engine).1)
unfolding take_order is_current
ordered_sound id s h small = ground (arith, h.behind)

-- the runs of the others, and the one of the step
pub replaced :
    (s : System) (e' : Engine) (before after mine : List Run) (r : Run)
    → IsSound s
    → IsCalmer s.engine e'
    → s.runs ≡ before ++ r ∷ after
    → All (RunIsSound e' s.database) mine
    → All (RunIsSound e' s.database) (before ++ (mine ++ after))
replaced s e' before after mine r h calm split own =
    let (a, b, c) =
      All-split (RunIsSound s.engine s.database) before r after (rw (sym split) h.runs) in
    let kept = runs_calmer s.engine e' s.database s.database calm (omega arith) in
    All-append _ before (mine ++ after) (kept before a) (All-append _ mine after own (kept after c))

pub this_run :
    (s : System) (before after : List Run) (r : Run)
    → IsSound s
    → s.runs ≡ before ++ r ∷ after
    → RunIsSound s.engine s.database r
this_run s before after r h split =
    (All-split (RunIsSound s.engine s.database) before r after (rw (sym split) h.runs)).1

pub removed_caller :
    (s : System) (before after : List ℕ) (id : ℕ)
    → IsSound s
    → s.callers ≡ before ++ id ∷ after
    → AllBelow s.engine.fresh (before ++ after)
removed_caller s before after id h split =
    AllBelow-remove s.engine.fresh before id after (rw (sym split) h.callers)

pub removed_count :
    (callers before after : List ℕ) (id : ℕ)
    → callers ≡ before ++ id ∷ after
    → (i : ℕ)
    → count (waits_for i) callers
      ≡ count (waits_for i) (id ∷ []) + count (waits_for i) (before ++ after)
removed_count callers before after id split i =
    rw split (count-remove (waits_for i) before id after)

-- a step on the engine alone
pub engine_step :
    (s : System) (e' : Engine)
    → IsSound s
    → IsQuiet s.engine e'
    → e'.flight ≡ s.engine.flight
    → e'.fresh ≡ s.engine.fresh
    → IsSound (record s { engine = e' })
engine_step s e' h q same fresh =
    quiet_step s (record s { engine = e' }) h q (omega arith) (rw (same, fresh) h.flight)
      (calm_runs s e' q h) (rw fresh h.callers)

pub observe_flight :
    (t : ℤ) (e : Engine)
    → ((observe_target_revision t e).flight ≡ e.flight)
      × ((observe_target_revision t e).fresh ≡ e.fresh)
unfolding observe_target_revision
observe_flight t e = ground arith

pub take_order_fresh : (id : ℕ) (e : Engine) → (take_order id e).0.fresh ≡ e.fresh
unfolding take_order is_current
take_order_fresh id e = ground arith

pub leave_flight_fresh :
    (id : ℕ) (c : ContextError) (e : Engine) → (leave_flight id c e).fresh ≡ e.fresh
unfolding leave_flight is_current
leave_flight_fresh id c e = ground arith

pub start_flight_kept :
    (e : Engine) → ((start e).0.flight ≡ e.flight) × ((start e).0.fresh ≡ e.fresh)
unfolding start
start_flight_kept e = ground arith

pub stop_flight_kept : (e : Engine) → ((stop e).flight ≡ e.flight) × ((stop e).fresh ≡ e.fresh)
unfolding stop
stop_flight_kept e = (refl, refl)

pub woken_flight :
    (id : ℕ) (e : Engine) (callers left : List ℕ)
    → ((i : ℕ)
        → count (waits_for i) callers ≡ count (waits_for i) (id ∷ []) + count (waits_for i) left)
    → is_current id e ≡ false
    → FlightIsSound e.fresh callers e.flight
    → FlightIsSound e.fresh left e.flight
unfolding is_current
woken_flight id e callers left counts old h = elim (Option-cases e.flight) [
  | inl is ↦ ground (arith, is)
  | inr (f, is) ↦ ground (arith, is, counts f.id, ==_iff f.id id, ==_iff id f.id)
]

finish_round_fresh :
    (id : ℕ) (t : ℤ) (force : Bool) (result : Option PolicySet) (e : Engine)
    → (finish_round id t force result e).0.fresh ≡ e.fresh
unfolding finish_round apply_candidate record_flight_failure is_current
finish_round_fresh id t force none e = ground arith
finish_round_fresh id t force (some p) e = ground arith

looping_again :
    (id : ℕ) (b : Bool) (e : Engine) (d : ℤ)
    → id < e.fresh
    → All (RunIsSound e d) (after_round id b)
looping_again id true e d h = tt
looping_again id false e d h = (h, tt)

ended_flight :
    (e e' : Engine) (callers : List ℕ)
    → FlightIsSound e.fresh callers e.flight
    → (e'.flight ≡ none) ⊎ (e' ≡ e)
    → FlightIsSound e'.fresh callers e'.flight
ended_flight e e' callers h (inl is) = rw is tt
ended_flight e e' callers h (inr is) = rw is h

pub built-IsSound :
    (id : ℕ) (target : ℤ) (force : Bool) (started : ℤ) (result : Option PolicySet)
    (before after : List Run) (s : System)
    → IsSound s
    → s.runs ≡ before ++ building id target force started ∷ after
    → IsLoaded started s.database result
    → IsSound (record s {
      engine = (finish_round id target force result s.engine).0;
      runs = before ++ (after_round id (finish_round id target force result s.engine).1 ++ after);
    })
built-IsSound id target force started result before after s h split load =
    let (small, _, ahead) = this_run s before after _ h split in
    let (calm, grows, behind, policy, ends) =
      finish_round-facts id target force result s.engine started s.database load ahead h.behind
        h.not_negative h.policy in
    let fresh = finish_round_fresh id target force result s.engine in
    record {
      not_negative = ground (arith, h.not_negative);
      behind = behind;
      policy = policy;
      flight = ended_flight s.engine _ s.callers h.flight ends;
      runs =
          replaced s _ before after _ _ h calm split
            (looping_again id _ _ s.database (rw fresh small));
      callers = rw fresh h.callers;
    }

pub same-IsCalmer : (e : Engine) → IsCalmer e e
same-IsCalmer e = record { given_out = omega arith; current = λ id small now. (now, refl) }

pub requested_applied :
    (ctx : Option ContextError) (target : ℤ) (force : Bool) (s : System)
    → s.engine.applied_revision ≤ℤ (requested ctx target force s).engine.applied_revision
unfolding requested
requested_applied ctx target force s =
    ground (arith, (request_reload-IsQuiet ctx target force s.engine).applied)
