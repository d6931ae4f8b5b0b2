-- ===== src/Runtime/WorkerPool/Drain.antt =====
-- A pool whose submissions, tasks and stops interleave: what Stop can rely on when it returns.
use aegis_core.Base.{sym, ap, ◌∙◌, ◌+◌, ◌<◌, ◌≡◌, refl, Bool, true, some, arith}
use aegis_core.Base.{String}
use aegis_core.Base.Int.{ℤ}
use aegis_core.Runtime.WorkerPool.{
  Task, pool_closed, Pool, NewPool, created, name_required, workers_required, ants_failed,
  empty_pool, new_pool, submit_checks, admit, AntsError, withdraw, dequeue, refuse, end_refusal,
  leave_queue, count_start, enter_running, Outcome, count_outcome, leave_running, leave_flight,
  begin_stop, drain, stopped, stop_wait,
}
use aegis_core.Runtime.WorkerPool.Balance.{
  IsBalanced, empty-IsBalanced, admit-IsBalanced, withdraw-IsBalanced, dequeue-IsBalanced,
  refuse-IsBalanced, leave_queue-IsBalanced, count_start-IsBalanced, enter_running-IsBalanced,
  leave_running-IsBalanced, leave_flight-IsBalanced, count_outcome-IsBalanced,
  end_refusal-IsBalanced, submit_checks-IsBalanced, begin_stop-IsBalanced, drain-IsBalanced,
  stop_wait-IsBalanced,
}

pub data PoolStep : Pool → Pool → Type 0 where
  checked :
      (task : Task) (context_done : Bool) (p : Pool)
      → PoolStep p (submit_checks task context_done p).1
  admitted : (p : Pool) → PoolStep p (admit p).1
  withdrew : (p : Pool) → 0 < p.handed → PoolStep p (withdraw p)
  dequeued_one : (p : Pool) → 0 < p.withdrawn → PoolStep p (dequeue p)
  refused_one : (p : Pool) → 0 < p.dequeued → PoolStep p (refuse p)
  refusal_ended :
      (cause : AntsError) (p : Pool) → 0 < p.refused → PoolStep p (end_refusal cause p).1
  left_queue : (p : Pool) → 0 < p.handed → PoolStep p (leave_queue p)
  start_counted : (p : Pool) → 0 < p.unqueued → PoolStep p (count_start p)
  running_entered : (p : Pool) → 0 < p.begun → PoolStep p (enter_running p)
  outcome_counted : (o : Outcome) (p : Pool) → 0 < p.executing → PoolStep p (count_outcome o p)
  running_left : (p : Pool) → 0 < p.ended → PoolStep p (leave_running p)
  flight_left : (p : Pool) → 0 < p.leaving → PoolStep p (leave_flight p)
  stop_begun : (p : Pool) → PoolStep p (begin_stop p)
  drained : (release_failed : Bool) (p : Pool) → PoolStep p (drain release_failed p)
  stop_waited : (context_done : Bool) (p : Pool) → PoolStep p (stop_wait context_done p).1

pub data PoolReach (p : Pool) : Pool → Type 0 where
  no_step : PoolReach p p
  then_step : {q r : Pool} → PoolReach p q → PoolStep q r → PoolReach p r

step-IsBalanced : {p q : Pool} → PoolStep p q → IsBalanced p → IsBalanced q
step-IsBalanced (checked task context_done p) h = submit_checks-IsBalanced task context_done p h
step-IsBalanced (admitted p) h = admit-IsBalanced p h
step-IsBalanced (withdrew p some_task) h = withdraw-IsBalanced p some_task h
step-IsBalanced (dequeued_one p some_task) h = dequeue-IsBalanced p some_task h
step-IsBalanced (refused_one p some_task) h = refuse-IsBalanced p some_task h
step-IsBalanced (refusal_ended cause p some_task) h = end_refusal-IsBalanced cause p some_task h
step-IsBalanced (left_queue p some_task) h = leave_queue-IsBalanced p some_task h
step-IsBalanced (start_counted p some_task) h = count_start-IsBalanced p some_task h
step-IsBalanced (running_entered p some_task) h = enter_running-IsBalanced p some_task h
step-IsBalanced (outcome_counted o p some_task) h = count_outcome-IsBalanced o p some_task h
step-IsBalanced (running_left p some_task) h = leave_running-IsBalanced p some_task h
step-IsBalanced (flight_left p some_task) h = leave_flight-IsBalanced p some_task h
step-IsBalanced (stop_begun p) h = begin_stop-IsBalanced p h
step-IsBalanced (drained release_failed p) h = drain-IsBalanced release_failed p h
step-IsBalanced (stop_waited context_done p) h = stop_wait-IsBalanced context_done p h

reach-IsBalanced : {p q : Pool} → PoolReach p q → IsBalanced p → IsBalanced q
reach-IsBalanced no_step h = h
reach-IsBalanced (then_step before step) h = step-IsBalanced step (reach-IsBalanced before h)

abbrev pool_of : NewPool → Pool
pool_of (created p) = p
pool_of name_required = empty_pool
pool_of workers_required = empty_pool
pool_of ants_failed = empty_pool

new_pool-empty :
    (name : String) (workers : ℤ) (ants_fails : Bool)
    → pool_of (new_pool name workers ants_fails) ≡ empty_pool
unfolding new_pool
new_pool-empty name workers ants_fails = ground arith

-- every accepted task has begun and ended, is counted once by how it ended, and no task is accepted
pub record IsSettled (p : Pool) : Type 0 where
  pub all_started : p.submitted ≡ p.started
  pub all_ended : p.submitted ≡ p.completed + p.failed + p.panicked
  pub none_queued : p.queued ≡ 0
  pub none_running : p.running ≡ 0
  pub none_admitted : (admit p).0 ≡ some pool_closed

settled : (p : Pool) → IsBalanced p → p.stop_done ≡ true → IsSettled p
unfolding admit
settled p h done =
    let empty = h.done_empty done in
    let shut = h.stopping_closed (h.done_stopping done) in
    record {
      all_started = omega (arith, empty, h.flights, h.submissions);
      all_ended = omega (arith, empty, h.flights, h.submissions, h.starts);
      none_queued = omega (arith, empty, h.flights, h.queue);
      none_running = omega (arith, empty, h.flights, h.runs);
      none_admitted = rw shut refl;
    }

stopped-done :
    (context_done : Bool) (p : Pool) (e : Bool)
    → (stop_wait context_done p).0 ≡ stopped e
    → p.stop_done ≡ true
unfolding stop_wait
stopped-done context_done p e answer = ground (arith, answer)

-- In a pool that New creates, after any interleaving of submissions, refusals by ants, tasks and stops:
-- when Stop returns because the pool is drained, every accepted task has begun and ended, is counted
-- once as completed, failed or panicked, none is queued or running, and Submit accepts no other task.
pub stop_wait-IsSettled :
    (name : String) (workers : ℤ) (ants_fails context_done release_failed : Bool) (start p : Pool)
    → new_pool name workers ants_fails ≡ created start
    → PoolReach start p
    → (stop_wait context_done p).0 ≡ stopped release_failed
    → IsSettled p
stop_wait-IsSettled name workers ants_fails context_done release_failed start p is_new reach
      answer =
    let same : start ≡ empty_pool =
      sym (ap pool_of is_new) ∙ new_pool-empty name workers ants_fails in
    let balanced : IsBalanced start = rw same empty-IsBalanced in
    settled p (reach-IsBalanced reach balanced) (stopped-done context_done p release_failed answer)
