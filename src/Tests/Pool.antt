-- ===== src/Tests/Pool.antt =====
-- A pool with two submissions, of which ants refuses one, and a Stop that waits for the other.
use aegis_core.Base.{◌≡◌, refl, true, false, some, arith}
use aegis_core.Base.Int.{pos}
use aegis_core.Base.Text.{is_blank, is_space}
use aegis_core.Runtime.WorkerPool.{
  Pool, empty_pool, new_pool, submit_checks, validate_task, admit, ants_other, withdraw, dequeue,
  refuse, end_refusal, leave_queue, count_start, enter_running, task_panicked, count_outcome,
  leave_running, leave_flight, begin_stop, drain, stop_wait, stopped, keeps_waiting, invalid_task,
  Task, submit_failed,
}
use aegis_core.Runtime.WorkerPool.Drain.{
  PoolReach, no_step, then_step, admitted, withdrew, dequeued_one, refused_one, refusal_ended,
  left_queue, start_counted, running_entered, outcome_counted, running_left, flight_left,
  stop_begun, drained, IsSettled, stop_wait-IsSettled,
}

abbrev two_in : Pool
two_in = (admit (admit empty_pool).1).1

abbrev one_refused : Pool
one_refused = (end_refusal ants_other (refuse (dequeue (withdraw two_in)))).1

abbrev stop_asked : Pool
stop_asked = begin_stop one_refused

abbrev at_work : Pool
at_work = enter_running (count_start (leave_queue stop_asked))

abbrev over : Pool
over = leave_flight (leave_running (count_outcome task_panicked at_work))

abbrev done : Pool
done = drain false over

abbrev unnamed : Task
unnamed = record { name = " "; has_run = true }

pool_runs :
    (drain false at_work ≡ at_work)
    × ((stop_wait false at_work).0 ≡ keeps_waiting)
    × ((stop_wait true done).0 ≡ stopped false)
    × (done.submitted ≡ 1)
    × (done.rejected ≡ 1)
    × (done.panicked ≡ 1)
    × ((submit_checks unnamed false empty_pool).0 ≡ some invalid_task)
    × ((end_refusal ants_other two_in).0 ≡ submit_failed)
unfolding admit withdraw dequeue refuse end_refusal leave_queue count_start enter_running
    count_outcome leave_running leave_flight begin_stop drain stop_wait submit_checks validate_task
    is_blank is_space
pool_runs = (refl, refl, refl, refl, refl, refl, refl, refl)

both_in : PoolReach empty_pool two_in
both_in = then_step (then_step no_step (admitted empty_pool)) (admitted (admit empty_pool).1)

refusal : PoolReach empty_pool stop_asked
unfolding admit withdraw dequeue refuse
refusal =
    then_step
      (then_step
        (then_step
          (then_step (then_step both_in (withdrew two_in (omega arith)))
            (dequeued_one (withdraw two_in) (omega arith)))
          (refused_one (dequeue (withdraw two_in)) (omega arith)))
        (refusal_ended ants_other (refuse (dequeue (withdraw two_in))) (omega arith)))
      (stop_begun one_refused)

work : PoolReach empty_pool at_work
unfolding admit withdraw dequeue refuse end_refusal begin_stop leave_queue count_start
work =
    then_step
      (then_step (then_step refusal (left_queue stop_asked (omega arith)))
        (start_counted (leave_queue stop_asked) (omega arith)))
      (running_entered (count_start (leave_queue stop_asked)) (omega arith))

finish : PoolReach empty_pool done
unfolding admit withdraw dequeue refuse end_refusal begin_stop leave_queue count_start enter_running
    count_outcome leave_running
finish =
    then_step
      (then_step
        (then_step (then_step work (outcome_counted task_panicked at_work (omega arith)))
          (running_left (count_outcome task_panicked at_work) (omega arith)))
        (flight_left (leave_running (count_outcome task_panicked at_work)) (omega arith)))
      (drained false over)

stop_wait-IsSettled_example : IsSettled done
unfolding admit withdraw dequeue refuse end_refusal leave_queue count_start enter_running
    count_outcome leave_running leave_flight begin_stop drain stop_wait new_pool is_blank is_space
stop_wait-IsSettled_example =
    stop_wait-IsSettled "purge" (pos 2) false true false empty_pool done refl finish refl
