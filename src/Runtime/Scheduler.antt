-- ===== src/Runtime/Scheduler.antt =====
-- common/runtime/scheduler: the distributed lock of lock.go and the checks of validation.go. Durations
-- are in nanoseconds. Redis is a parameter: its commands on the key of one lock, and what they do.
pub mod Delays
pub mod Ownership
pub mod Jobs
use aegis_core.Base.{
  ℕ, zero, suc, ◌+◌, ◌-◌, ◌*◌, ◌≡◌, Bool, true, false, not, ◌&&◌, ◌||◌, Option, none, some, List,
  [], ◌∷◌, ◌==◌, if◌then◌else◌, String, leb, ltb, is_none, ◌/◌,
}
use aegis_core.Base.Text.{is_blank}
use aegis_core.Base.Int.{ℤ, pos, negsuc, ltb_ℤ, leb_ℤ, double64, half}

abbrev millisecond : ℕ
millisecond = 1000000

abbrev pub second : ℕ
second = 1000000000

-- Duration.Milliseconds
abbrev pub milliseconds : ℤ → ℤ
milliseconds (pos n) = pos (n / millisecond)
milliseconds (negsuc n) =
    if ltb (n + 1) millisecond then pos 0 else negsuc ((n + 1) / millisecond - 1)

abbrev is_zero : ℤ → Bool
is_zero (pos n) = n == 0
is_zero (negsuc n) = false

abbrev pub default_to : ℤ → ℤ → ℤ
default_to d v = if is_zero v then d else v

pub record RetryPolicy : Type 0 where
  pub initial_interval : ℤ
  pub max_interval : ℤ
  pub max_attempts : ℤ
  pub jitter : Bool

pub data LockError : Type 0 where
  initial_interval_negative max_interval_negative initial_above_max attempts_negative : LockError
  key_required ttl_not_positive wait_timeout_negative : LockError
  lock_not_owned redis_failed lock_context_ended : LockError

-- normalizeRetryPolicy: the policy with its defaults, or the reason to refuse it
unfoldable normalize_retry_policy : RetryPolicy → Option LockError × RetryPolicy
normalize_retry_policy p =
    let initial = default_to (pos (50 * millisecond)) p.initial_interval in
    let maximum = default_to (pos second) p.max_interval in
    let q = record p { initial_interval = initial; max_interval = maximum } in
    if ltb_ℤ p.initial_interval (pos 0)
    then (some initial_interval_negative, p)
    else if ltb_ℤ p.max_interval (pos 0)
    then (some max_interval_negative, p)
    else if ltb_ℤ maximum initial
    then (some initial_above_max, p)
    else if ltb_ℤ p.max_attempts (pos 0)
    then (some attempts_negative, p)
    else (none, q)

-- nextRetryDelay
unfoldable pub next_retry_delay : ℤ → ℤ → ℤ
next_retry_delay current maximum =
    if leb_ℤ current (pos 0)
    then maximum
    else if leb_ℤ maximum current
    then maximum
    else (let doubled = double64 current in
        if ltb_ℤ doubled current || ltb_ℤ maximum doubled then maximum else doubled)

abbrev sub_pos : ℤ → ℕ → ℤ
sub_pos (pos a) b = if leb b a then pos (a - b) else negsuc (b - a - 1)
sub_pos (negsuc a) b = negsuc (a + b)

abbrev add_pos : ℤ → ℕ → ℤ
add_pos (pos a) n = pos (a + n)
add_pos (negsuc a) n = if leb (a + 1) n then pos (n - (a + 1)) else negsuc (a - n)

abbrev at_least_one_ms : ℤ → ℤ
at_least_one_ms m = if leb_ℤ m (pos 0) then pos millisecond else m

-- RedisLocker.retryDelay, where the random source gives an offset or fails
unfoldable pub retry_delay : RetryPolicy → Option ℕ → ℤ → ℤ
retry_delay p random delay =
    if not p.jitter || leb_ℤ delay (pos 1)
    then delay
    else elim random [ none ↦ delay | some offset ↦ add_pos (at_least_one_ms (half delay)) offset ]

-- Redis on one key that holds an owner's token
pub record RedisKey (R : Type 0) : Type 0 where
  pub get : R → Option ℕ
  pub set_nx : ℕ → ℤ → R → R × Bool
  pub del : R → R × ℕ
  pub pexpire : ℤ → R → R × ℕ

-- the documented behaviour of the four commands
pub record RedisLaws {R : Type 0} (redis : RedisKey R) : Type 0 where
  pub set_free :
      (t : ℕ) (ttl : ℤ) (r : R)
      → redis.get r ≡ none
      → ((redis.set_nx t ttl r).1 ≡ true) × (redis.get (redis.set_nx t ttl r).0 ≡ some t)
  pub set_taken :
      (t o : ℕ) (ttl : ℤ) (r : R)
      → redis.get r ≡ some o
      → ((redis.set_nx t ttl r).1 ≡ false) × (redis.get (redis.set_nx t ttl r).0 ≡ some o)
  pub deleted :
      (o : ℕ) (r : R)
      → redis.get r ≡ some o
      → ((redis.del r).1 ≡ 1) × (redis.get (redis.del r).0 ≡ none)
  -- PEXPIRE keeps the key for a positive time to live, and deletes it otherwise
  pub prolonged :
      (o n : ℕ) (r : R)
      → redis.get r ≡ some o
      → ((redis.pexpire (pos (suc n)) r).1 ≡ 1)
        × (redis.get (redis.pexpire (pos (suc n)) r).0 ≡ some o)
  pub expired :
      (o : ℕ) (ttl : ℤ) (r : R)
      → redis.get r ≡ some o
      → leb_ℤ ttl (pos 0) ≡ true
      → ((redis.pexpire ttl r).1 ≡ 1) × (redis.get (redis.pexpire ttl r).0 ≡ none)

-- redis.call("GET", KEYS[1]) == ARGV[1]
abbrev owns : ℕ → Option ℕ → Bool
owns token none = false
owns token (some o) = o == token

module _ {R : Type 0} (redis : RedisKey R) where
  -- redisUnlockScript
  unfoldable pub redis_unlock_script : ℕ → R → R × ℕ
  redis_unlock_script token r = if owns token (redis.get r) then redis.del r else (r, 0)

  -- redisRenewScript
  unfoldable pub redis_renew_script : ℕ → ℤ → R → R × ℕ
  redis_renew_script token ttl r = if owns token (redis.get r) then redis.pexpire ttl r else (r, 0)

  abbrev settle : Bool → R × ℕ → Option LockError × R
  settle reached (r, result) =
      if not reached
      then (some redis_failed, r)
      else if result == 0
      then (some lock_not_owned, r)
      else (none, r)

  -- redisLock.Unlock, where `reached` is false when the answer of Redis is lost
  unfoldable pub unlock : Bool → ℕ → R → Option LockError × R
  unlock reached token r = settle reached (redis_unlock_script token r)

  -- redisLock.Renew
  unfoldable pub renew : Bool → ℕ → ℤ → R → Option LockError × R
  renew reached token ttl r =
      if leb_ℤ ttl (pos 0)
      then (some ttl_not_positive, r)
      else settle reached (redis_renew_script token (milliseconds ttl) r)

-- how one wait of Acquire ends
pub data Wake : Type 0 where
  timer_fired : Wake
  caller_ended : Wake
  wait_ended : Wake

-- what the surroundings do in one round of Acquire: other owners' changes of the key come first
pub record Round (R : Type 0) : Type 0 where
  pub others : R → R
  -- the call of SETNX fails, and still reached Redis
  pub failed : Bool
  pub reached : Bool
  pub ctx_ended : Bool
  pub wait_ctx_ended : Bool
  pub remaining : ℤ
  pub random : Option ℕ
  pub wake : Wake

pub data Acquired : Type 0 where
  acquire_failed : LockError → Acquired
  not_acquired : Acquired
  acquired : Acquired
  -- the rounds given are over
  still_waiting : Acquired

pub record Attempts (R : Type 0) : Type 0 where
  pub answer : Acquired
  pub store : R
  pub tries : ℕ
  pub slept : List ℤ

module _ {R : Type 0} (redis : RedisKey R) (policy : RetryPolicy) (token : ℕ) (ttl : ℤ) where
  abbrev stop_with : Acquired → R → Attempts R
  stop_with a r = record { answer = a; store = r; tries = 1; slept = [] }

  abbrev failed_set : Round R → Acquired
  failed_set round =
      if round.ctx_ended
      then acquire_failed lock_context_ended
      else if round.wait_ctx_ended
      then not_acquired
      else acquire_failed redis_failed

  abbrev sleep_for : Round R → ℤ → ℤ
  sleep_for round delay =
      let sleep = retry_delay policy round.random delay in
      if ltb_ℤ round.remaining sleep then round.remaining else sleep

  abbrev waited : ℤ → Attempts R → Attempts R
  waited sleep a = record a { tries = suc a.tries; slept = sleep ∷ a.slept }

  abbrev woken : Round R → ℤ → R → Attempts R → Attempts R
  woken round sleep r rest = elim round.wake [
    | caller_ended ↦ record (stop_with (acquire_failed lock_context_ended) r) { slept = sleep ∷ [] }
    | wait_ended ↦
        record (stop_with
          (if round.ctx_ended then acquire_failed lock_context_ended else not_acquired) r) {
            slept = sleep ∷ [];
          }
    | timer_fired ↦ waited sleep rest
  ]

  -- the loop of Acquire, from its attempt and delay
  unfoldable pub acquire_loop : List (Round R) → ℕ → ℤ → R → Attempts R
  acquire_loop [] attempt delay r = record {
    answer = still_waiting;
    store = r;
    tries = 0;
    slept = [];
  }
  acquire_loop (round ∷ rounds) attempt delay r₀ =
      let (r, set) = redis.set_nx token ttl (round.others r₀) in
      let rest = acquire_loop rounds (attempt + 1) (next_retry_delay delay policy.max_interval) r in
      if round.failed
      then stop_with (failed_set round) (if round.reached then r else round.others r₀)
      else if set
      then stop_with acquired r
      else if ltb_ℤ (pos 0) policy.max_attempts && leb_ℤ policy.max_attempts (pos attempt)
      then stop_with not_acquired r
      else if leb_ℤ round.remaining (pos 0)
      then stop_with not_acquired r
      else woken round (sleep_for round delay) r rest

  -- Acquire with waitTimeout == 0: one attempt
  abbrev acquire_once : List (Round R) → R → Attempts R
  acquire_once [] r = record { answer = still_waiting; store = r; tries = 0; slept = [] }
  acquire_once (round ∷ rounds) r₀ =
      let (r, set) = redis.set_nx token ttl (round.others r₀) in
      if round.failed
      then stop_with (acquire_failed redis_failed) (if round.reached then r else round.others r₀)
      else stop_with (if set then acquired else not_acquired) r

  abbrev refuse : LockError → R → Attempts R
  refuse e r = record { answer = acquire_failed e; store = r; tries = 0; slept = [] }

  -- RedisLocker.Acquire, once the key is built and the token drawn
  unfoldable pub acquire : String → ℤ → List (Round R) → R → Attempts R
  acquire key wait_timeout rounds r =
      if is_blank key
      then refuse key_required r
      else if leb_ℤ ttl (pos 0)
      then refuse ttl_not_positive r
      else if ltb_ℤ wait_timeout (pos 0)
      then refuse wait_timeout_negative r
      else if is_zero wait_timeout
      then acquire_once rounds r
      else acquire_loop rounds 1 policy.initial_interval r

pub record RenewPolicy : Type 0 where
  pub interval : ℤ
  pub timeout : ℤ
  pub continue_on_failure : Bool

pub record LockPolicy : Type 0 where
  pub key : String
  pub ttl : ℤ
  pub wait_timeout : ℤ
  pub renew : Option RenewPolicy

-- Job; `has_task` is Task != nil
pub record Job : Type 0 where
  pub key : String
  pub spec : String
  pub timeout : ℤ
  pub allow_overlap : Bool
  pub lock : Option LockPolicy
  pub has_task : Bool

pub data JobError : Type 0 where
  job_key_required spec_required task_required timeout_negative locker_required : JobError
  job_wait_timeout_negative ttl_negative ttl_required ttl_below_timeout : JobError
  renew_interval_negative renew_interval_invalid renew_timeout_negative : JobError
  renew_timeout_invalid : JobError

-- the part of Scheduler that validation reads
pub record SchedulerSettings : Type 0 where
  pub has_locker : Bool
  pub default_lock_ttl : ℤ

abbrev default_lock_renew_timeout : ℤ
default_lock_renew_timeout = pos (5 * second)

abbrev third : ℤ → ℤ
third (pos n) = pos (n / 3)
third (negsuc n) = if ltb n 2 then pos 0 else negsuc ((n + 1) / 3 - 1)

-- the checks of a renewal against the lock's TTL
unfoldable pub normalize_renew : ℤ → RenewPolicy → Option JobError × RenewPolicy
normalize_renew ttl p =
    let interval = default_to (third ttl) p.interval in
    let timeout = default_to default_lock_renew_timeout p.timeout in
    if ltb_ℤ p.interval (pos 0)
    then (some renew_interval_negative, p)
    else if leb_ℤ interval (pos 0) || leb_ℤ ttl interval
    then (some renew_interval_invalid, p)
    else if ltb_ℤ p.timeout (pos 0)
    then (some renew_timeout_negative, p)
    else if leb_ℤ ttl timeout
    then (some renew_timeout_invalid, p)
    else (none, record p { interval = interval; timeout = timeout })

abbrev with_renew : LockPolicy → Option JobError × RenewPolicy → Option JobError × LockPolicy
with_renew l (failed, r) = (failed, record l { renew = some r })

abbrev renewed : LockPolicy → Option JobError × LockPolicy
renewed l = elim l.renew [ none ↦ (none, l) | some r ↦ with_renew l (normalize_renew l.ttl r) ]

-- the checks of a lock
unfoldable pub normalize_lock : SchedulerSettings → ℤ → LockPolicy → Option JobError × LockPolicy
normalize_lock s timeout l =
    let ttl = default_to s.default_lock_ttl l.ttl in
    if not s.has_locker
    then (some locker_required, l)
    else if ltb_ℤ l.wait_timeout (pos 0)
    then (some job_wait_timeout_negative, l)
    else if ltb_ℤ l.ttl (pos 0)
    then (some ttl_negative, l)
    else if leb_ℤ ttl (pos 0)
    then (some ttl_required, l)
    else if ltb_ℤ (pos 0) timeout && is_none l.renew && leb_ℤ ttl timeout
    then (some ttl_below_timeout, l)
    else renewed (record l { ttl = ttl })

abbrev with_lock : Job → Option JobError × LockPolicy → Option JobError × Job
with_lock j (failed, l) = (failed, record j { lock = some l })

-- normalizeJob; `trim` is strings.TrimSpace
unfoldable pub normalize_job : (String → String) → SchedulerSettings → Job → Option JobError × Job
normalize_job trim s job =
    let j = record job { key = trim job.key; spec = trim job.spec } in
    if is_blank j.key
    then (some job_key_required, job)
    else if is_blank j.spec
    then (some spec_required, job)
    else if not j.has_task
    then (some task_required, job)
    else if ltb_ℤ j.timeout (pos 0)
    then (some timeout_negative, job)
    else elim j.lock [ none ↦ (none, j) | some l ↦ with_lock j (normalize_lock s j.timeout l) ]
