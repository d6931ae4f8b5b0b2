-- ===== src/Runtime/WorkerPool.antt =====
-- common/runtime/workerpool: pool.go, lifecycle.go, execution.go. Each atomic change of a counter outside
-- the admission lock is one step. The fields handed to refused say how many goroutines stand between two
-- of their steps; the code has no such fields and no decision reads them. The counters do not wrap around.
mod Balance
pub mod Drain
use aegis_core.Base.{
  ℕ, suc, ◌+◌, ◌-◌, Bool, true, false, not, ◌&&◌, Option, none, some, ◌==◌, if◌then◌else◌, String,
}
use aegis_core.Base.Int.{ℤ, pos, leb_ℤ}
use aegis_core.Base.Text.{is_blank}

pub record Task : Type 0 where
  pub name : String
  pub has_run : Bool

pub data PoolError : Type 0 where
  pool_closed queue_full invalid_task context_ended submit_failed : PoolError

pub record Pool : Type 0 where
  -- closed, the context of the pool, stopOnce, stopDone and stopErr
  pub closed : Bool
  pub cancelled : Bool
  pub stopping : Bool
  pub stop_done : Bool
  pub stop_failed : Bool
  -- the wait group and the counters
  pub in_flight : ℕ
  pub submitted : ℕ
  pub rejected : ℕ
  pub started : ℕ
  pub completed : ℕ
  pub failed : ℕ
  pub panicked : ℕ
  pub queued : ℕ
  pub running : ℕ
  -- tasks that ants has or is being given, and those in run, from its first change to its last
  pub handed : ℕ
  pub unqueued : ℕ
  pub begun : ℕ
  pub executing : ℕ
  pub ended : ℕ
  pub leaving : ℕ
  -- submissions that ants refused, from the first change that takes them back to the last
  pub withdrawn : ℕ
  pub dequeued : ℕ
  pub refused : ℕ

abbrev pub empty_pool : Pool
empty_pool = record {
  closed = false;
  cancelled = false;
  stopping = false;
  stop_done = false;
  stop_failed = false;
  in_flight = 0;
  submitted = 0;
  rejected = 0;
  started = 0;
  completed = 0;
  failed = 0;
  panicked = 0;
  queued = 0;
  running = 0;
  handed = 0;
  unqueued = 0;
  begun = 0;
  executing = 0;
  ended = 0;
  leaving = 0;
  withdrawn = 0;
  dequeued = 0;
  refused = 0;
}

-- the configuration is refused, ants fails, or there is a pool
pub data NewPool : Type 0 where
  name_required workers_required ants_failed : NewPool
  created : Pool → NewPool

-- New
unfoldable pub new_pool : String → ℤ → Bool → NewPool
new_pool name workers ants_fails =
    if is_blank name
    then name_required
    else if leb_ℤ workers (pos 0)
    then workers_required
    else if ants_fails
    then ants_failed
    else created empty_pool

-- validateTask
unfoldable pub validate_task : Task → Option PoolError
validate_task task =
    if is_blank task.name
    then some invalid_task
    else if not task.has_run
    then some invalid_task
    else none

abbrev pub reject : Pool → Pool
reject p = record p { rejected = suc p.rejected }

-- Submit before the lock: the task, the context of the caller, and the first look at closed
unfoldable pub submit_checks : Task → Bool → Pool → Option PoolError × Pool
unfolding validate_task
submit_checks task context_done p = elim (validate_task task) [
  | some e ↦ (some e, p)
  | none ↦
      (if context_done
        then (some context_ended, p)
        else if p.closed
        then (some pool_closed, reject p)
        else (none, p))
]

-- Submit under the lock
unfoldable pub admit : Pool → Option PoolError × Pool
admit p = if p.closed then (some pool_closed, reject p) else (
  none,
  record p {
    submitted = suc p.submitted;
    queued = suc p.queued;
    in_flight = suc p.in_flight;
    handed = suc p.handed;
  },
)

-- the errors of ants
pub data AntsError : Type 0 where
  ants_overload ants_closed ants_other : AntsError

-- Submit when ants refuses the task, change by change
unfoldable pub withdraw : Pool → Pool
withdraw p = record p {
  submitted = p.submitted - 1;
  handed = p.handed - 1;
  withdrawn = suc p.withdrawn;
}

unfoldable pub dequeue : Pool → Pool
dequeue p = record p {
  queued = p.queued - 1;
  withdrawn = p.withdrawn - 1;
  dequeued = suc p.dequeued;
}

unfoldable pub refuse : Pool → Pool
refuse p = record p {
  rejected = suc p.rejected;
  dequeued = p.dequeued - 1;
  refused = suc p.refused;
}

unfoldable pub end_refusal : AntsError → Pool → PoolError × Pool
end_refusal cause p =
    let left = record p { in_flight = p.in_flight - 1; refused = p.refused - 1 } in
    elim cause [
      | ants_overload ↦ (queue_full, left)
      | ants_closed ↦ (pool_closed, record left { closed = true })
      | ants_other ↦ (submit_failed, left)
    ]

-- run, change by change
unfoldable pub leave_queue : Pool → Pool
leave_queue p = record p { queued = p.queued - 1; handed = p.handed - 1; unqueued = suc p.unqueued }

unfoldable pub count_start : Pool → Pool
count_start p = record p { started = suc p.started; unqueued = p.unqueued - 1; begun = suc p.begun }

unfoldable pub enter_running : Pool → Pool
enter_running p = record p {
  running = suc p.running;
  begun = p.begun - 1;
  executing = suc p.executing;
}

-- what the function of a task does
pub data Outcome : Type 0 where
  task_completed task_failed task_panicked : Outcome

unfoldable pub count_outcome : Outcome → Pool → Pool
count_outcome o p =
    let over = record p { executing = p.executing - 1; ended = suc p.ended } in
    elim o [
      | task_completed ↦ record over { completed = suc p.completed }
      | task_failed ↦ record over { failed = suc p.failed }
      | task_panicked ↦ record over { panicked = suc p.panicked }
    ]

unfoldable pub leave_running : Pool → Pool
leave_running p = record p { running = p.running - 1; ended = p.ended - 1; leaving = suc p.leaving }

unfoldable pub leave_flight : Pool → Pool
leave_flight p = record p { in_flight = p.in_flight - 1; leaving = p.leaving - 1 }

-- Stop up to its wait: the first call closes the pool and starts drain
unfoldable pub begin_stop : Pool → Pool
begin_stop p = if p.stopping then p else record p { closed = true; stopping = true }

-- drain once ants is released, with or without an error: it goes on when nothing is in flight
unfoldable pub drain : Bool → Pool → Pool
drain release_failed p =
    if p.stopping && not p.stop_done && p.in_flight == 0
    then record p { cancelled = true; stop_failed = release_failed; stop_done = true }
    else p

pub data Stopped : Type 0 where
  keeps_waiting stop_timed_out : Stopped
  stopped : Bool → Stopped

-- Stop from its wait, with a context that has ended or not
unfoldable pub stop_wait : Bool → Pool → Stopped × Pool
stop_wait context_done p =
    if p.stop_done
    then (stopped p.stop_failed, p)
    else if context_done
    then (stop_timed_out, record p { cancelled = true })
    else (keeps_waiting, p)
