-- ===== src/Runtime/Scheduler/Jobs.antt =====
-- What a job that validation.go accepts satisfies.
use aegis_core.Base.{
  ◌≡◌, true, false, Option, none, some, String, arith, is_some, Option-cases, inl, inr,
}
use aegis_core.Base.Text.{is_blank}
use aegis_core.Base.Int.{ℤ, pos, ◌≤ℤ◌, ◌<ℤ◌}
use aegis_core.Runtime.Scheduler.{
  RenewPolicy, LockPolicy, Job, SchedulerSettings, normalize_renew, normalize_lock, normalize_job,
  default_to,
}

-- a renewal that can run before its lease ends
abbrev RenewIsSound : ℤ → Option RenewPolicy → Type 0
RenewIsSound ttl none = Unit
RenewIsSound ttl (some r) =
    (pos 0 <ℤ r.interval) × (r.interval <ℤ ttl) × (pos 0 ≤ℤ r.timeout) × (r.timeout <ℤ ttl)

-- a lease outlives the job's timeout, or is renewed
abbrev LockIsSound : ℤ → Option LockPolicy → Type 0
LockIsSound timeout none = Unit
LockIsSound timeout (some l) =
    (pos 0 <ℤ l.ttl)
    × (pos 0 ≤ℤ l.wait_timeout)
    × RenewIsSound l.ttl l.renew
    × (pos 0 <ℤ timeout → is_some l.renew ≡ false → timeout <ℤ l.ttl)

pub record IsRunnable (j : Job) : Type 0 where
  pub key : is_blank j.key ≡ false
  pub spec : is_blank j.spec ≡ false
  pub task : j.has_task ≡ true
  pub timeout : pos 0 ≤ℤ j.timeout
  pub lock : LockIsSound j.timeout j.lock

normalize_renew-RenewIsSound :
    (ttl : ℤ) (r : RenewPolicy)
    → (normalize_renew ttl r).0 ≡ none
    → RenewIsSound ttl (some (normalize_renew ttl r).1)
unfolding normalize_renew
normalize_renew-RenewIsSound ttl r h = ground arith

normalize_lock-LockIsSound :
    (s : SchedulerSettings) (timeout : ℤ) (l : LockPolicy)
    → (normalize_lock s timeout l).0 ≡ none
    → LockIsSound timeout (some (normalize_lock s timeout l).1)
unfolding normalize_lock
normalize_lock-LockIsSound s timeout l h = elim (Option-cases l.renew) [
  | inl is ↦ ground (arith, is, h)
  | inr (r, is) ↦
      ground (arith, is, h, normalize_renew-RenewIsSound (default_to s.default_lock_ttl l.ttl) r)
]

-- A job that registration accepts can run: it has a key, a schedule and a task, and its lock, if it has
-- one, has a positive lease, outlives the timeout or is renewed, and is renewed in time.
pub normalize_job-IsRunnable :
    (trim : String → String) (s : SchedulerSettings) (job : Job)
    → (normalize_job trim s job).0 ≡ none
    → IsRunnable (normalize_job trim s job).1
unfolding normalize_job
normalize_job-IsRunnable trim s job h = elim (Option-cases job.lock) [
  | inl is ↦ ground (arith, is, h)
  | inr (l, is) ↦ ground (arith, is, h, normalize_lock-LockIsSound s job.timeout l)
]
