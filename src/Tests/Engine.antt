-- ===== src/Tests/Engine.antt =====
-- The engine: a start, a reload that a commit overtakes, and the requests that it then decides.
use aegis_core.Base.{any, ◌≡◌, refl, true, false, Option, none, some, [], ◌∷◌, arith, ◌==◌}
use aegis_core.Base.Int.{pos, ◌≤ℤ◌}
use aegis_core.Rbac.Dispatcher.{ContextError}
use aegis_core.Rbac.Engine.{
  PolicySet, new_engine, take_order, finish_round, start, request_reload, is_current, start_flight,
  observe_target_revision, projection_ready_for, apply_candidate, ready, projection_status,
}
use aegis_core.Rbac.Engine.Readiness.{IsAdmitted, request_reload-IsAdmitted}
use aegis_core.Rbac.Engine.Enforcement.{
  allows, enforce-any, Casbin, enforce, enforce_roles, IsGranted, enforce-IsGranted,
}
use aegis_core.Rbac.Engine.Flights.{
  System, SystemReach, initial, requested, committed, asked, ordered, built, started_up, here,
  then_step, building,
}
use aegis_core.Rbac.Engine.Flights.Invariant.{IsSound}
use aegis_core.Rbac.Engine.Flights.Safety.{reachable-IsSound, applied_never_falls}

abbrev policy_3 : PolicySet
policy_3 = record { revision = pos 3; permission_rules = [] }

-- the database reaches revision 2, a reload to 2 is asked for and takes its order, the database moves
-- on to 3, and the run applies the snapshot of 3
abbrev committed_2 : System
committed_2 = record initial { database = pos 2 }

abbrev up : System
up = record committed_2 { engine = (start committed_2.engine).0 }

abbrev waiting_for_2 : System
waiting_for_2 = requested none (pos 2) false up

abbrev loading : System
loading = record waiting_for_2 {
  engine = (take_order 0 waiting_for_2.engine).0;
  runs = building 0 (pos 2) false (pos 2) ∷ [];
}

abbrev committed_3 : System
committed_3 = record loading { database = pos 3 }

abbrev loaded : System
loaded = record committed_3 {
  engine = (finish_round 0 (pos 2) false (some policy_3) committed_3.engine).0;
  runs = [];
}

first_steps : SystemReach initial waiting_for_2
first_steps =
    then_step (then_step (then_step here (committed (pos 2) (omega arith))) started_up)
      (asked none (pos 2) false)

whole_run : SystemReach initial loaded
unfolding requested request_reload take_order finish_round new_engine start is_current start_flight
    observe_target_revision projection_ready_for apply_candidate
whole_run =
    then_step
      (then_step (then_step first_steps (ordered 0 [] [] refl)) (committed (pos 3) (omega arith)))
      (built 0 (pos 2) false (pos 2) (some policy_3) [] [] refl (omega arith, omega arith))

reachable-IsSound_example : IsSound loaded
reachable-IsSound_example = reachable-IsSound whole_run

applied_never_falls_example : pos 0 ≤ℤ loaded.engine.applied_revision
unfolding new_engine
applied_never_falls_example = applied_never_falls (reachable-IsSound here) whole_run

-- the run has applied revision 3
run_applies_3 : loaded.engine.applied_revision ≡ pos 3
unfolding requested request_reload take_order finish_round new_engine start is_current start_flight
    observe_target_revision projection_ready_for apply_candidate
run_applies_3 = refl

-- a forced request while nothing flies
request_reload-IsAdmitted_example :
    IsAdmitted (pos 4) true loaded.engine (request_reload none (pos 4) true loaded.engine)
request_reload-IsAdmitted_example = request_reload-IsAdmitted none (pos 4) true loaded.engine

-- a policy that allows role 7
abbrev casbin : Casbin
casbin = λ p role path method. some (role == 7)

abbrev live : Option ContextError
live = none

enforce-IsGranted_example :
    (live ≡ none)
    × IsGranted casbin (some (some (5 ∷ 7 ∷ []))) loaded.engine loaded.engine "/users" "GET"
unfolding enforce enforce_roles ready projection_status requested request_reload take_order
    finish_round new_engine start is_current start_flight observe_target_revision
    projection_ready_for apply_candidate
enforce-IsGranted_example =
    enforce-IsGranted casbin live (some (some (5 ∷ 7 ∷ []))) loaded.engine loaded.engine "/users"
      "GET" refl

enforce-any_example :
    enforce casbin none (some (some (5 ∷ 7 ∷ []))) loaded.engine loaded.engine "/users" "GET"
    ≡ (any (allows casbin policy_3 "/users" "GET") (5 ∷ 7 ∷ []), none)
unfolding ready projection_status requested request_reload take_order finish_round new_engine start
    is_current start_flight observe_target_revision projection_ready_for apply_candidate
enforce-any_example =
    enforce-any casbin loaded.engine loaded.engine policy_3 (5 ∷ 7 ∷ []) "/users" "GET" refl refl
      refl refl (λ role. refl)
