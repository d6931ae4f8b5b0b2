-- ===== src/Tests/Runtime.antt =====
-- The scheduler's lock, the subscriber and the rate limiter on small inputs.
use aegis_core.Base.{
  ℕ, zero, suc, ◌+◌, ◌-◌, ◌*◌, ◌/◌, ◌^◌, min, ◌≡◌, ◌≢◌, refl, Bool, true, false, not, ◌&&◌, ◌||◌,
  Option, none, some, List, [], ◌∷◌, arith, String, All, ◌≤◌, ◌<◌, ltb, leb, length, is_none,
  if◌then◌else◌,
}
use aegis_core.Base.Int.{pos, leb_ℤ, ◌<ℤ◌, ◌≤ℤ◌}
use aegis_core.Runtime.Scheduler.{
  RetryPolicy, RedisKey, RedisLaws, unlock, renew, lock_not_owned, Round, timer_fired, acquire,
  acquired, still_waiting, Job, SchedulerSettings, normalize_job, normalize_lock, normalize_renew,
}
use aegis_core.Runtime.Scheduler.Ownership.{unlock-renew-owner, acquire-owns}
use aegis_core.Runtime.Scheduler.Jobs.{IsRunnable, normalize_job-IsRunnable}
use aegis_core.Runtime.Subscriber.{
  Subscriber, new_subscriber, start, stop, mark_connected, end_run, Options, validate_options,
  run_backoffs, AttemptEnd, Received, message, pong, receive,
}
use aegis_core.Runtime.Subscriber.Lifecycle.{
  LifeReach, unchanged, and_then, started, confirmed, stop_asked, ended, IsLive, rank,
  LifeReach-IsLive, new-IsLive, Within, Draws, run_backoffs-Within,
}
use aegis_core.Runtime.Subscriber.Messages.{IsOn, IsPrefixOf, payloads, receive-IsPrefixOf}
use aegis_core.Runtime.RateLimit.{Bucket, Limiter, reject, allow}
use aegis_core.Runtime.RateLimit.Capacity.{IsCounted, allow-IsCounted}

-- a key that never expires, as its holder
abbrev redis : RedisKey (Option ℕ)
redis = record {
  get = λ r. r;
  set_nx = λ t ttl r. if is_none r then (some t, true) else (r, false);
  del = λ r. (none, 1);
  pexpire = λ ttl r. (if leb_ℤ ttl (pos 0) then none else r, 1);
}

redis_laws : RedisLaws redis
redis_laws = record {
  set_free = λ t ttl r h. ground (arith, h);
  set_taken = λ t o ttl r h. ground (arith, h);
  deleted = λ o r h. (refl, refl);
  prolonged = λ o n r h. (refl, ground (arith, h));
  expired = λ o ttl r h short. (refl, rw short refl);
}

abbrev retry : RetryPolicy
retry = record {
  initial_interval = pos 50;
  max_interval = pos 1000;
  max_attempts = pos 3;
  jitter = true;
}

-- another owner holds the key first, and frees it before the second attempt
abbrev round : (Option ℕ → Option ℕ) → Round (Option ℕ)
round others = record {
  others = others;
  failed = false;
  reached = true;
  ctx_ended = false;
  wait_ctx_ended = false;
  remaining = pos 500;
  random = some 10;
  wake = timer_fired;
}

abbrev rounds : List (Round (Option ℕ))
rounds = round (λ r. some 4) ∷ round (λ r. none) ∷ round (λ r. r) ∷ []

acquire-owns_example :
    let a = acquire redis retry 8 (pos 1000) "job" (pos 600) rounds none in
    (a.answer ≡ acquired → redis.get a.store ≡ some 8)
    × (a.tries ≤ 3)
    × (3 ≤ length rounds → a.answer ≢ still_waiting)
acquire-owns_example =
    acquire-owns redis redis_laws retry 8 (pos 1000) 2 "job" (pos 600) rounds none refl

abbrev holder : ℕ
holder = 8

-- a renewal for half a millisecond
unlock-renew-owner_example :
    (holder ≡ holder
      → ((unlock redis true 8 (some 8)).0 ≡ none)
        × (redis.get (unlock redis true 8 (some 8)).1 ≡ none)
        × ((renew redis true 8 (pos 500000) (some 8)).0 ≡ none)
        × (pos 1000000 ≤ℤ pos 500000
            → redis.get (renew redis true 8 (pos 500000) (some 8)).1 ≡ some 8)
        × (pos 500000 <ℤ pos 1000000
            → redis.get (renew redis true 8 (pos 500000) (some 8)).1 ≡ none))
    × (holder ≢ holder
        → (unlock redis true 8 (some 8) ≡ (some lock_not_owned, some 8))
          × (renew redis true 8 (pos 500000) (some 8) ≡ (some lock_not_owned, some 8)))
unlock-renew-owner_example =
    unlock-renew-owner redis redis_laws holder holder (pos 500000) (some 8) refl (omega arith)

offset_small : (n : ℕ) → some 10 ≡ some n → n ≤ 50 - 50 / 2
offset_small n h = ground (arith, h)

abbrev job : Job
job = record {
  key = "sync";
  spec = "@hourly";
  timeout = pos 60;
  allow_overlap = false;
  lock = some (record {
    key = "";
    ttl = pos 0;
    wait_timeout = pos 0;
    renew = some (record { interval = pos 0; timeout = pos 0; continue_on_failure = false });
  });
  has_task = true;
}

abbrev scheduler : SchedulerSettings
scheduler = record { has_locker = true; default_lock_ttl = pos 30000000000 }

normalize_job-IsRunnable_example : IsRunnable (normalize_job (λ t. t) scheduler job).1
unfolding normalize_job normalize_lock normalize_renew aegis_core.Base.Text.is_blank
    aegis_core.Base.Text.is_space
normalize_job-IsRunnable_example = normalize_job-IsRunnable (λ t. t) scheduler job refl

-- started, connected, stopped while connected, and ended
abbrev running : Subscriber
running = (start 1 new_subscriber).1

abbrev online : Subscriber
online = mark_connected 5 running

abbrev closing : Subscriber
closing = stop 2 online

life : LifeReach new_subscriber (end_run 1 closing)
unfolding start stop mark_connected
life =
    and_then
      (and_then (and_then (and_then unchanged (started 1)) (confirmed 1 5 refl)) (stop_asked 2))
      (ended 1 refl)

LifeReach-IsLive_example :
    IsLive (end_run 1 closing) × (rank new_subscriber.state ≤ rank (end_run 1 closing).state)
LifeReach-IsLive_example = LifeReach-IsLive new-IsLive life

abbrev options : Options
options = record {
  name = "rbac";
  channel = "policy";
  buffer_size = pos 16;
  subscribe_timeout = pos 5;
  backoff_initial = pos 10;
  backoff_max = pos 100;
}

options_valid : validate_options options ≡ none
unfolding validate_options aegis_core.Base.Text.is_blank aegis_core.Base.Text.is_space
options_valid = refl

abbrev attempt : Bool → AttemptEnd
attempt confirmed_first = record {
  confirmed = confirmed_first;
  ends_run = false;
  draw = λ n. n - 1;
}

abbrev attempts : List AttemptEnd
attempts = attempt false ∷ attempt false ∷ attempt true ∷ []

attempts_draw : All Draws attempts
attempts_draw = (
  λ n some_range. omega (arith, some_range),
  (λ n some_range. omega (arith, some_range), (λ n some_range. omega (arith, some_range), tt)),
)

run_backoffs-Within_example : All (Within 5 100) (run_backoffs (pos 10) (pos 100) (pos 10) attempts)
run_backoffs-Within_example =
    run_backoffs-Within options attempts options_valid (omega arith) attempts_draw

abbrev received : List (Option (Received × Bool))
received =
    some (message "policy" "" "p1", true)
    ∷ some (pong, true)
    ∷ some (message "other" "" "p2", true)
    ∷ []

receive-IsPrefixOf_example :
    All (IsOn "policy") (receive options received).0
    × IsPrefixOf (receive options received).0 (payloads received)
receive-IsPrefixOf_example = receive-IsPrefixOf options received

-- a bucket that always allows, counting
abbrev bucket : Bucket ℕ
bucket = record { fresh = 0; allow_n = λ now n. (n + 1, true) }

abbrev limiter : Limiter ℕ
limiter = record {
  key_ttl = 100;
  max_keys = 1;
  current_keys = 0;
  capacity_policy = reject;
  shards =
      record { visitors = []; overflow_limiter = none }
      ∷ record { visitors = []; overflow_limiter = none }
      ∷ [];
  cleanup_cursor = 0;
  closed = false;
}

limiter-IsCounted : IsCounted limiter
limiter-IsCounted = record { counted = refl; bounded = omega arith }

allow-IsCounted_example : IsCounted (allow bucket (λ k. k) 7 (97 ∷ 98 ∷ []) limiter).0
allow-IsCounted_example = allow-IsCounted bucket (λ k. k) 7 (97 ∷ 98 ∷ []) limiter limiter-IsCounted

abbrev one_visitor : Limiter ℕ
one_visitor = record limiter {
  current_keys = 1;
  shards =
      record {
        visitors = record { key = 97 ∷ []; limiter = 0; last_seen = 7 } ∷ [];
        overflow_limiter = none;
      }
      ∷ [];
}

one_visitor-IsCounted : IsCounted one_visitor
one_visitor-IsCounted = record { counted = refl; bounded = omega arith }
