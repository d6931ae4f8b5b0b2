-- ===== src/Rbac/Engine/Flights.antt =====
-- The goroutines of enforcer_lifecycle.go around one engine: callers that wait for a flight, the runs
-- of runReloadFlight, and the database whose policy revision they read. Each step is what one
-- goroutine does under the mutex, or a commit on the database.
pub mod Invariant
pub mod Calls
pub mod Steps
pub mod Safety
use aegis_core.Base.{
  ℕ, Bool, true, false, Option, none, some, List, [], ◌∷◌, ◌++◌, ◌≡◌, is_none, ◌+◌, if◌then◌else◌,
}
use aegis_core.Base.Int.{ℤ, pos, ◌≤ℤ◌}
use aegis_core.Rbac.Dispatcher.{ContextError}
use aegis_core.Rbac.Engine.{
  Engine, PolicySet, Admission, answered, waiting, ReloadFlight, new_engine,
  observe_target_revision, request_reload, is_current, leave_flight, take_order, finish_round,
  start, stop,
}

-- runReloadFlight at the head of its loop, or in buildEnforcer with its order and the database's
-- revision when it took the order
pub data Run : Type 0 where
  looping : ℕ → Run
  building : ℕ → ℤ → Bool → ℤ → Run

pub record System : Type 0 where
  pub engine : Engine
  pub database : ℤ
  pub runs : List Run
  -- the flights that callers wait for
  pub callers : List ℕ

abbrev pub initial : System
initial = record { engine = new_engine; database = pos 0; runs = []; callers = [] }

abbrev callers_after : Admission → List ℕ → List ℕ
callers_after (answered r e) callers = callers
callers_after (waiting id) callers = id ∷ callers

-- go e.runReloadFlight(...) of startFlightLocked
abbrev runs_after : Option ReloadFlight → Admission → List Run → List Run
runs_after (some f) a runs = runs
runs_after none (answered r e) runs = runs
runs_after none (waiting id) runs = looping id ∷ runs

unfoldable pub requested : Option ContextError → ℤ → Bool → System → System
requested ctx target force s =
    let (e, a) = request_reload ctx target force s.engine in
    record s {
      engine = e;
      callers = callers_after a s.callers;
      runs = runs_after s.engine.flight a s.runs;
    }

abbrev ordered_run : ℕ → ℤ → Option (ℤ × Bool) → List Run
ordered_run id database none = []
ordered_run id database (some (target, force)) = building id target force database ∷ []

-- what the loader may return: an error, or a snapshot of the database taken since the order
abbrev IsLoaded : ℤ → ℤ → Option PolicySet → Type 0
IsLoaded started database none = Unit
IsLoaded started database (some p) = (started ≤ℤ p.revision) × (p.revision ≤ℤ database)

abbrev after_round : ℕ → Bool → List Run
after_round id true = []
after_round id false = looping id ∷ []

pub data SystemStep (s : System) : System → Type 0 where
  committed : (d : ℤ) → s.database ≤ℤ d → SystemStep s (record s { database = d })
  observed :
      (target : ℤ) → SystemStep s (record s { engine = observe_target_revision target s.engine })
  asked :
      (ctx : Option ContextError) (target : ℤ) (force : Bool)
      → SystemStep s (requested ctx target force s)
  ordered :
      (id : ℕ) (before after : List Run)
      → s.runs ≡ before ++ looping id ∷ after
      → SystemStep s (record s {
        engine = (take_order id s.engine).0;
        runs = before ++ (ordered_run id s.database (take_order id s.engine).1 ++ after);
      })
  built :
      (id : ℕ) (target : ℤ) (force : Bool) (started : ℤ) (result : Option PolicySet)
      (before after : List Run)
      → s.runs ≡ before ++ building id target force started ∷ after
      → IsLoaded started s.database result
      → SystemStep s (record s {
        engine = (finish_round id target force result s.engine).0;
        runs = before ++ (after_round id (finish_round id target force result s.engine).1 ++ after);
      })
  gave_up :
      (id : ℕ) (c : ContextError) (before after : List ℕ)
      → s.callers ≡ before ++ id ∷ after
      → SystemStep s (record s { engine = leave_flight id c s.engine; callers = before ++ after })
  woke :
      (id : ℕ) (before after : List ℕ)
      → s.callers ≡ before ++ id ∷ after
      → is_current id s.engine ≡ false
      → SystemStep s (record s { callers = before ++ after })
  started_up : SystemStep s (record s { engine = (start s.engine).0 })
  stopped : SystemStep s (record s { engine = stop s.engine })

pub data SystemReach (s : System) : System → Type 0 where
  here : SystemReach s s
  then_step : {t u : System} → SystemReach s t → SystemStep t u → SystemReach s u
