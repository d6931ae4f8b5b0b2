-- ===== src/Runtime/Subscriber/Lifecycle.antt =====
-- subscriber.go under every interleaving of Start, Stop and its run.
use aegis_core.Base.{
  ℕ, ◌+◌, ◌-◌, ◌/◌, ◌≤◌, ◌<◌, ◌^◌, ◌≡◌, ◌≢◌, Bool, true, false, none, some, List, [], ◌∷◌, arith,
  is_some, All, inl, inr, Bool-cases,
}
use aegis_core.Base.Int.{ℤ, pos, negsuc, pos_part, ◌≤ℤ◌, half, double64-pos}
use aegis_core.Runtime.Subscriber.{
  Subscriber, SubscriberState, SubscriberError, subscriber_none, created, starting, connected,
  reconnecting, stopping, stopped, new_subscriber, start, stop, finish_locked, create_attempt,
  clear_attempt, mark_connected, mark_failure, end_run, is_stopped, Options, validate_options,
  next_backoff, jittered_backoff, AttemptEnd, run_backoffs,
}

-- what one goroutine does under the mutex
pub data LifeStep (s : Subscriber) : Subscriber → Type 0 where
  started : (fresh : ℕ) → LifeStep s (start fresh s).1
  stop_asked : (fresh : ℕ) → LifeStep s (stop fresh s)
  attempted : (ctx_ended : Bool) (fresh : ℕ) → LifeStep s (create_attempt ctx_ended fresh s).1
  -- by the run that Start has begun
  confirmed : (id now : ℕ) → s.done ≡ some id → LifeStep s (mark_connected now s)
  failed :
      (category : SubscriberError) (id now : ℕ)
      → s.done ≡ some id
      → LifeStep s (mark_failure category now s)
  cleared : (id : ℕ) → LifeStep s (clear_attempt id s)
  ended : (id : ℕ) → s.done ≡ some id → LifeStep s (end_run id s)

pub data LifeReach (s : Subscriber) : Subscriber → Type 0 where
  unchanged : LifeReach s s
  and_then : {t u : Subscriber} → LifeReach s t → LifeStep t u → LifeReach s u

-- how far the lifecycle is
abbrev pub rank : SubscriberState → ℕ
rank created = 0
rank starting = 1
rank connected = 1
rank reconnecting = 1
rank stopping = 2
rank stopped = 3

-- both channels are closed exactly when the subscriber is stopped, and once; a subscriber that was
-- started or stopped has its done channel
abbrev pub IsLive : Subscriber → Type 0
IsLive s =
    (is_stopped s.state ≡ true
      → (s.closed ≡ 1)
        × (s.done_closed ≡ 1)
        × (s.running ≡ false)
        × (s.error_category ≡ subscriber_none))
    × (is_stopped s.state ≡ false → (s.closed ≡ 0) × (s.done_closed ≡ 0))
    × (s.state ≡ created → (s.done ≡ none) × (s.running ≡ false))
    × (s.state ≢ created → is_some s.done ≡ true)

start-IsLive :
    (fresh : ℕ) (s : Subscriber)
    → IsLive s
    → IsLive (start fresh s).1 × (rank s.state ≤ rank (start fresh s).1.state)
unfolding start
start-IsLive fresh s h = ground arith

finish-IsLive :
    (id : ℕ) (s : Subscriber)
    → IsLive s
    → IsLive (finish_locked id s) × (rank s.state ≤ rank (finish_locked id s).state)
unfolding finish_locked
finish-IsLive id s h = ground arith

stop-IsLive :
    (fresh : ℕ) (s : Subscriber)
    → IsLive s
    → IsLive (stop fresh s) × (rank s.state ≤ rank (stop fresh s).state)
unfolding stop finish_locked
stop-IsLive fresh s h = ground arith

attempt-IsLive :
    (e : Bool) (fresh : ℕ) (s : Subscriber)
    → IsLive s
    → IsLive (create_attempt e fresh s).1 × (rank s.state ≤ rank (create_attempt e fresh s).1.state)
unfolding create_attempt
attempt-IsLive e fresh s h = ground arith

connected-IsLive :
    (id now : ℕ) (s : Subscriber)
    → s.done ≡ some id
    → IsLive s
    → IsLive (mark_connected now s) × (rank s.state ≤ rank (mark_connected now s).state)
unfolding mark_connected
connected-IsLive id now s k h = ground arith

failed-IsLive :
    (c : SubscriberError) (id now : ℕ) (s : Subscriber)
    → s.done ≡ some id
    → IsLive s
    → IsLive (mark_failure c now s) × (rank s.state ≤ rank (mark_failure c now s).state)
unfolding mark_failure
failed-IsLive c id now s k h = ground arith

cleared-IsLive :
    (id : ℕ) (s : Subscriber)
    → IsLive s
    → IsLive (clear_attempt id s) × (rank s.state ≤ rank (clear_attempt id s).state)
unfolding clear_attempt
cleared-IsLive id s h = ground arith

ended-IsLive :
    (id : ℕ) (s : Subscriber)
    → IsLive s
    → IsLive (end_run id s) × (rank s.state ≤ rank (end_run id s).state)
unfolding end_run
ended-IsLive id s h = finish-IsLive id (record s { active = none }) h

LifeStep-IsLive :
    {s t : Subscriber} → IsLive s → LifeStep s t → IsLive t × (rank s.state ≤ rank t.state)
LifeStep-IsLive {s} h (started fresh) = start-IsLive fresh s h
LifeStep-IsLive {s} h (stop_asked fresh) = stop-IsLive fresh s h
LifeStep-IsLive {s} h (attempted e fresh) = attempt-IsLive e fresh s h
LifeStep-IsLive {s} h (confirmed id now k) = connected-IsLive id now s k h
LifeStep-IsLive {s} h (failed c id now k) = failed-IsLive c id now s k h
LifeStep-IsLive {s} h (cleared id) = cleared-IsLive id s h
LifeStep-IsLive {s} h (ended id k) = ended-IsLive id s h

-- On every schedule of Start, Stop and the run from a subscriber in order, it stays in order - its two
-- channels are closed exactly when it is stopped, and once - and its lifecycle never goes back.
pub LifeReach-IsLive :
    {s t : Subscriber} → IsLive s → LifeReach s t → IsLive t × (rank s.state ≤ rank t.state)
LifeReach-IsLive h unchanged = (h, omega arith)
LifeReach-IsLive h (and_then r step) =
    let (live, low) = LifeReach-IsLive h r in
    let (next, high) = LifeStep-IsLive live step in (next, omega (arith, low, high))

pub new-IsLive : IsLive new_subscriber
new-IsLive = ground arith

-- what the constructor has checked of the two backoffs
validate_backoffs :
    (o : Options)
    → validate_options o ≡ none
    → (o.backoff_initial ≡ pos (pos_part o.backoff_initial))
      × (o.backoff_max ≡ pos (pos_part o.backoff_max))
      × (0 < pos_part o.backoff_initial)
      × (pos_part o.backoff_initial ≤ pos_part o.backoff_max)
unfolding validate_options
validate_backoffs o valid = ground arith

next_backoff_within :
    (i c m : ℕ)
    → 0 < i
    → i ≤ c
    → c ≤ m
    → m < 2 ^ 63
    → (pos i ≤ℤ next_backoff (pos c) (pos m))
      × (next_backoff (pos c) (pos m) ≤ℤ pos m)
      × (next_backoff (pos c) (pos m) ≡ pos (pos_part (next_backoff (pos c) (pos m))))
unfolding next_backoff half
next_backoff_within i c m p q r small = ground (arith, double64-pos c)

abbrev pub Within : ℕ → ℕ → ℤ → Type 0
Within i m d = (pos i ≤ℤ d) × (d ≤ℤ pos m)

in_range :
    (i m : ℕ) (d : ℤ) (P : ℤ → Type 0)
    → ((k : ℕ) → i ≤ k → k ≤ m → P (pos k))
    → pos i ≤ℤ d
    → d ≤ℤ pos m
    → d ≡ pos (pos_part d)
    → P d
in_range i m (pos k) P ih low high is = ih k (omega (arith, low)) (omega (arith, high))
in_range i m (negsuc k) P ih low high is = absurd (omega (arith, low))

-- the documented range of rand.Int64N
abbrev pub Draws : AttemptEnd → Type 0
Draws a = (n : ℕ) → 0 < n → a.draw n < n

jittered-Within :
    (draw : ℕ → ℕ) (i d m : ℕ)
    → ((n : ℕ) → 0 < n → draw n < n)
    → i ≤ d
    → d ≤ m
    → Within (i / 2) m (jittered_backoff draw (pos d))
unfolding jittered_backoff
jittered-Within draw i d m in_bounds low high =
    let drawn = in_bounds (d - d / 2 + 1) (omega arith) in ground (arith, drawn, low, high)

-- one more backoff, for what holds from every backoff in range
tail-Within :
    (i m c : ℕ) (rest : List AttemptEnd)
    → 0 < i
    → i ≤ c
    → c ≤ m
    → m < 2 ^ 63
    → ((k : ℕ) → i ≤ k → k ≤ m → All (Within (i / 2) m) (run_backoffs (pos i) (pos m) (pos k) rest))
    → All (Within (i / 2) m) (run_backoffs (pos i) (pos m) (next_backoff (pos c) (pos m)) rest)
tail-Within i m c rest p q r small ih =
    let (low, high, is) = next_backoff_within i c m p q r small in
    in_range i m (next_backoff (pos c) (pos m))
      (λ d. All (Within (i / 2) m) (run_backoffs (pos i) (pos m) d rest)) ih low high is

one_backoff :
    (i m c : ℕ) (a : AttemptEnd) (rest : List AttemptEnd)
    → 0 < i
    → i ≤ c
    → c ≤ m
    → m < 2 ^ 63
    → Draws a
    → ((k : ℕ) → i ≤ k → k ≤ m → All (Within (i / 2) m) (run_backoffs (pos i) (pos m) (pos k) rest))
    → All (Within (i / 2) m) (run_backoffs (pos i) (pos m) (pos c) (a ∷ rest))
unfolding run_backoffs
one_backoff i m c a rest p q r small draws ih = elim (Bool-cases a.ends_run) [
  | inl over ↦ rw over tt
  | inr goes_on ↦ elim (Bool-cases a.confirmed) [
    | inl was ↦
        rw (goes_on, was)
          (
            jittered-Within a.draw i i m draws (omega arith) (omega (arith, q, r)),
            tail-Within i m i rest p (omega arith) (omega (arith, q, r)) small ih,
          )
    | inr never ↦
        rw (goes_on, never)
          (jittered-Within a.draw i c m draws q r, tail-Within i m c rest p q r small ih)
  ]
]

backoffs-Within :
    (i m c : ℕ) (ends : List AttemptEnd)
    → 0 < i
    → i ≤ c
    → c ≤ m
    → m < 2 ^ 63
    → All Draws ends
    → All (Within (i / 2) m) (run_backoffs (pos i) (pos m) (pos c) ends)
unfolding run_backoffs
backoffs-Within i m c [] p q r small draws = tt
backoffs-Within i m c (a ∷ rest) p q r small draws =
    one_backoff i m c a rest p q r small draws.0
      (λ k low high. backoffs-Within i m k rest p low high small draws.1)

in_backoff :
    (initial maximum : ℤ) (ends : List AttemptEnd)
    → initial ≡ pos (pos_part initial)
    → maximum ≡ pos (pos_part maximum)
    → 0 < pos_part initial
    → pos_part initial ≤ pos_part maximum
    → pos_part maximum < 2 ^ 63
    → All Draws ends
    → All
        (Within (pos_part initial / 2) (pos_part maximum))
        (run_backoffs initial maximum initial ends)
in_backoff (pos i) (pos m) ends hi hm p q small draws =
    backoffs-Within i m i ends p (omega arith) q small draws
in_backoff (pos i) (negsuc m) ends hi hm p q small draws = absurd (omega (arith, p, q))
in_backoff (negsuc i) maximum ends hi hm p q small draws = absurd (omega (arith, p))

-- With the options that the constructor accepts, a maximum below 2^63 and random numbers in the range
-- asked for, every delay that the run waits for lies between half of the initial backoff and the
-- maximum, however its attempts end.
pub run_backoffs-Within :
    (o : Options) (ends : List AttemptEnd)
    → validate_options o ≡ none
    → pos_part o.backoff_max < 2 ^ 63
    → All Draws ends
    → All
        (Within (pos_part o.backoff_initial / 2) (pos_part o.backoff_max))
        (run_backoffs o.backoff_initial o.backoff_max o.backoff_initial ends)
run_backoffs-Within o ends valid small draws =
    let (hi, hm, p, q) = validate_backoffs o valid in
    in_backoff o.backoff_initial o.backoff_max ends hi hm p q small draws
