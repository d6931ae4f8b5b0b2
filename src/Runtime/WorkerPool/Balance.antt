-- ===== src/Runtime/WorkerPool/Balance.antt =====
-- The counters account for where the goroutines stand, after every operation of the pool.
use aegis_core.Base.{
  ◌&&◌, not, Option-cases, ◌+◌, ◌<◌, ◌≡◌, refl, Bool, true, false, arith, Bool-cases, inl, inr,
  ◌==◌, if◌then◌else◌,
}
use aegis_core.Runtime.WorkerPool.{
  Task, Pool, empty_pool, reject, submit_checks, admit, AntsError, ants_overload, ants_closed,
  ants_other, withdraw, dequeue, refuse, end_refusal, leave_queue, count_start, enter_running,
  Outcome, task_completed, task_failed, task_panicked, count_outcome, leave_running, leave_flight,
  begin_stop, drain, stop_wait, validate_task,
}

-- where the goroutines stand accounts for every counter
pub record IsBalanced (p : Pool) : Type 0 where
  pub flights :
      p.in_flight
      ≡ p.handed + p.unqueued + p.begun + p.executing + p.ended + p.leaving + p.withdrawn
        + p.dequeued + p.refused
  pub queue : p.queued ≡ p.handed + p.withdrawn
  pub submissions : p.submitted ≡ p.handed + p.unqueued + p.started
  pub starts : p.started ≡ p.begun + p.executing + p.completed + p.failed + p.panicked
  pub runs : p.running ≡ p.executing + p.ended
  pub stopping_closed : p.stopping ≡ true → p.closed ≡ true
  pub done_stopping : p.stop_done ≡ true → p.stopping ≡ true
  pub done_empty : p.stop_done ≡ true → p.in_flight ≡ 0

pub empty-IsBalanced : IsBalanced empty_pool
empty-IsBalanced = record {
  flights = refl;
  queue = refl;
  submissions = refl;
  starts = refl;
  runs = refl;
  stopping_closed = λ impossible. ground (arith, impossible);
  done_stopping = λ impossible. ground (arith, impossible);
  done_empty = λ done. refl;
}

-- a property of both branches, each under its condition, holds of the conditional
if-holds :
    {A : Type 0} (P : A → Type 0) (b : Bool) (x y : A)
    → (b ≡ true → P x)
    → (b ≡ false → P y)
    → P (if b then x else y)
if-holds P true x y if_true if_false = if_true refl
if-holds P false x y if_true if_false = if_false refl

abbrev SecondIsBalanced : {A : Type 0} → A × Pool → Type 0
SecondIsBalanced r = IsBalanced r.1

reject-IsBalanced : (p : Pool) → IsBalanced p → IsBalanced (reject p)
reject-IsBalanced p h = record {
  flights = h.flights;
  queue = h.queue;
  submissions = h.submissions;
  starts = h.starts;
  runs = h.runs;
  stopping_closed = h.stopping_closed;
  done_stopping = h.done_stopping;
  done_empty = h.done_empty;
}

pub admit-IsBalanced : (p : Pool) → IsBalanced p → IsBalanced (admit p).1
unfolding admit
admit-IsBalanced p h =
    if-holds SecondIsBalanced p.closed _ _ (λ shut. reject-IsBalanced p h)
      (λ is_open. (record {
        flights = omega (arith, h.flights);
        queue = omega (arith, h.queue);
        submissions = omega (arith, h.submissions);
        starts = h.starts;
        runs = h.runs;
        stopping_closed = h.stopping_closed;
        done_stopping = h.done_stopping;
        done_empty = λ done. ground (arith, is_open, h.stopping_closed (h.done_stopping done));
      }))

pub withdraw-IsBalanced : (p : Pool) → 0 < p.handed → IsBalanced p → IsBalanced (withdraw p)
unfolding withdraw
withdraw-IsBalanced p some_task h = record {
  flights = omega (arith, some_task, h.flights);
  queue = omega (arith, some_task, h.queue);
  submissions = omega (arith, some_task, h.submissions);
  starts = h.starts;
  runs = h.runs;
  stopping_closed = h.stopping_closed;
  done_stopping = h.done_stopping;
  done_empty = h.done_empty;
}

pub dequeue-IsBalanced : (p : Pool) → 0 < p.withdrawn → IsBalanced p → IsBalanced (dequeue p)
unfolding dequeue
dequeue-IsBalanced p some_task h = record {
  flights = omega (arith, some_task, h.flights);
  queue = omega (arith, some_task, h.queue);
  submissions = h.submissions;
  starts = h.starts;
  runs = h.runs;
  stopping_closed = h.stopping_closed;
  done_stopping = h.done_stopping;
  done_empty = h.done_empty;
}

pub refuse-IsBalanced : (p : Pool) → 0 < p.dequeued → IsBalanced p → IsBalanced (refuse p)
unfolding refuse
refuse-IsBalanced p some_task h = record {
  flights = omega (arith, some_task, h.flights);
  queue = h.queue;
  submissions = h.submissions;
  starts = h.starts;
  runs = h.runs;
  stopping_closed = h.stopping_closed;
  done_stopping = h.done_stopping;
  done_empty = h.done_empty;
}

pub leave_queue-IsBalanced : (p : Pool) → 0 < p.handed → IsBalanced p → IsBalanced (leave_queue p)
unfolding leave_queue
leave_queue-IsBalanced p some_task h = record {
  flights = omega (arith, some_task, h.flights);
  queue = omega (arith, some_task, h.queue);
  submissions = omega (arith, some_task, h.submissions);
  starts = h.starts;
  runs = h.runs;
  stopping_closed = h.stopping_closed;
  done_stopping = h.done_stopping;
  done_empty = h.done_empty;
}

pub count_start-IsBalanced : (p : Pool) → 0 < p.unqueued → IsBalanced p → IsBalanced (count_start p)
unfolding count_start
count_start-IsBalanced p some_task h = record {
  flights = omega (arith, some_task, h.flights);
  queue = h.queue;
  submissions = omega (arith, some_task, h.submissions);
  starts = omega (arith, some_task, h.starts);
  runs = h.runs;
  stopping_closed = h.stopping_closed;
  done_stopping = h.done_stopping;
  done_empty = h.done_empty;
}

pub enter_running-IsBalanced :
    (p : Pool) → 0 < p.begun → IsBalanced p → IsBalanced (enter_running p)
unfolding enter_running
enter_running-IsBalanced p some_task h = record {
  flights = omega (arith, some_task, h.flights);
  queue = h.queue;
  submissions = h.submissions;
  starts = omega (arith, some_task, h.starts);
  runs = omega (arith, some_task, h.runs);
  stopping_closed = h.stopping_closed;
  done_stopping = h.done_stopping;
  done_empty = h.done_empty;
}

pub leave_running-IsBalanced :
    (p : Pool) → 0 < p.ended → IsBalanced p → IsBalanced (leave_running p)
unfolding leave_running
leave_running-IsBalanced p some_task h = record {
  flights = omega (arith, some_task, h.flights);
  queue = h.queue;
  submissions = h.submissions;
  starts = h.starts;
  runs = omega (arith, some_task, h.runs);
  stopping_closed = h.stopping_closed;
  done_stopping = h.done_stopping;
  done_empty = h.done_empty;
}

pub leave_flight-IsBalanced :
    (p : Pool) → 0 < p.leaving → IsBalanced p → IsBalanced (leave_flight p)
unfolding leave_flight
leave_flight-IsBalanced p some_task h = record {
  flights = omega (arith, some_task, h.flights);
  queue = h.queue;
  submissions = h.submissions;
  starts = h.starts;
  runs = h.runs;
  stopping_closed = h.stopping_closed;
  done_stopping = h.done_stopping;
  done_empty = λ done. (let none_left = h.done_empty done in omega (arith, none_left));
}

pub count_outcome-IsBalanced :
    (o : Outcome) (p : Pool) → 0 < p.executing → IsBalanced p → IsBalanced (count_outcome o p)
unfolding count_outcome
count_outcome-IsBalanced task_completed p some_task h = record {
  flights = omega (arith, some_task, h.flights);
  queue = h.queue;
  submissions = h.submissions;
  starts = omega (arith, some_task, h.starts);
  runs = omega (arith, some_task, h.runs);
  stopping_closed = h.stopping_closed;
  done_stopping = h.done_stopping;
  done_empty = h.done_empty;
}
count_outcome-IsBalanced task_failed p some_task h = record {
  flights = omega (arith, some_task, h.flights);
  queue = h.queue;
  submissions = h.submissions;
  starts = omega (arith, some_task, h.starts);
  runs = omega (arith, some_task, h.runs);
  stopping_closed = h.stopping_closed;
  done_stopping = h.done_stopping;
  done_empty = h.done_empty;
}
count_outcome-IsBalanced task_panicked p some_task h = record {
  flights = omega (arith, some_task, h.flights);
  queue = h.queue;
  submissions = h.submissions;
  starts = omega (arith, some_task, h.starts);
  runs = omega (arith, some_task, h.runs);
  stopping_closed = h.stopping_closed;
  done_stopping = h.done_stopping;
  done_empty = h.done_empty;
}

pub end_refusal-IsBalanced :
    (cause : AntsError) (p : Pool)
    → 0 < p.refused
    → IsBalanced p
    → IsBalanced (end_refusal cause p).1
unfolding end_refusal
end_refusal-IsBalanced ants_overload p some_task h = record {
  flights = omega (arith, some_task, h.flights);
  queue = h.queue;
  submissions = h.submissions;
  starts = h.starts;
  runs = h.runs;
  stopping_closed = h.stopping_closed;
  done_stopping = h.done_stopping;
  done_empty = λ done. (let none_left = h.done_empty done in omega (arith, none_left));
}
end_refusal-IsBalanced ants_closed p some_task h = record {
  flights = omega (arith, some_task, h.flights);
  queue = h.queue;
  submissions = h.submissions;
  starts = h.starts;
  runs = h.runs;
  stopping_closed = λ stops. refl;
  done_stopping = h.done_stopping;
  done_empty = λ done. (let none_left = h.done_empty done in omega (arith, none_left));
}
end_refusal-IsBalanced ants_other p some_task h = record {
  flights = omega (arith, some_task, h.flights);
  queue = h.queue;
  submissions = h.submissions;
  starts = h.starts;
  runs = h.runs;
  stopping_closed = h.stopping_closed;
  done_stopping = h.done_stopping;
  done_empty = λ done. (let none_left = h.done_empty done in omega (arith, none_left));
}

pub submit_checks-IsBalanced :
    (task : Task) (context_done : Bool) (p : Pool)
    → IsBalanced p
    → IsBalanced (submit_checks task context_done p).1
unfolding submit_checks
submit_checks-IsBalanced task context_done p h = elim (Option-cases (validate_task task)) [
  | inl valid ↦
      rw (valid, submit_checks)
        (if-holds SecondIsBalanced context_done _ _ (λ over. h)
          (λ lives.
            if-holds SecondIsBalanced p.closed _ _ (λ shut. reject-IsBalanced p h) (λ is_open. h)))
  | inr (e, invalid) ↦ rw (invalid, submit_checks) h
]

pub begin_stop-IsBalanced : (p : Pool) → IsBalanced p → IsBalanced (begin_stop p)
unfolding begin_stop
begin_stop-IsBalanced p h =
    if-holds IsBalanced p.stopping _ _ (λ again. h)
      (λ first. (record {
        flights = h.flights;
        queue = h.queue;
        submissions = h.submissions;
        starts = h.starts;
        runs = h.runs;
        stopping_closed = λ stops. refl;
        done_stopping = λ done. refl;
        done_empty = h.done_empty;
      }))

pub drain-IsBalanced :
    (release_failed : Bool) (p : Pool) → IsBalanced p → IsBalanced (drain release_failed p)
unfolding drain
drain-IsBalanced release_failed p h =
    elim (Bool-cases (p.stopping && not p.stop_done && p.in_flight == 0)) [
      | inl ready ↦
          rw (ready, drain)
            (record {
              flights = h.flights;
              queue = h.queue;
              submissions = h.submissions;
              starts = h.starts;
              runs = h.runs;
              stopping_closed = h.stopping_closed;
              done_stopping = λ done. ground (arith, ready);
              done_empty = λ done. ground (arith, ready);
            })
      | inr waits ↦ rw (waits, drain) h
    ]

pub stop_wait-IsBalanced :
    (context_done : Bool) (p : Pool) → IsBalanced p → IsBalanced (stop_wait context_done p).1
unfolding stop_wait
stop_wait-IsBalanced context_done p h =
    if-holds SecondIsBalanced p.stop_done _ _ (λ done. h)
      (λ waits.
        if-holds SecondIsBalanced context_done _ _
          (λ over. (record {
            flights = h.flights;
            queue = h.queue;
            submissions = h.submissions;
            starts = h.starts;
            runs = h.runs;
            stopping_closed = h.stopping_closed;
            done_stopping = h.done_stopping;
            done_empty = h.done_empty;
          }))
          (λ lives. h))
