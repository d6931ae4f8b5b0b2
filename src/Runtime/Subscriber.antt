-- ===== src/Runtime/Subscriber.antt =====
-- common/runtime/redispubsub/subscriber.go: the lifecycle of one subscription. Each section that the
-- source runs under its mutex is one function; the loop of `run` is followed through the ends of its
-- attempts. The Redis client is what the attempts report.
pub mod Lifecycle
pub mod Messages
use text.Mathlib.Text.{◌==◌ as same_text}
use aegis_core.Base.{
  ℕ, zero, suc, ◌+◌, ◌-◌, ◌/◌, ◌≡◌, Bool, true, false, not, ◌&&◌, ◌||◌, Option, none, some, List,
  [], ◌∷◌, ◌==◌, if◌then◌else◌, String,
}
use aegis_core.Base.Text.{is_blank}
use aegis_core.Base.Int.{ℤ, pos, negsuc, ltb_ℤ, leb_ℤ, double64, half}

pub data SubscriberState : Type 0 where
  created starting connected reconnecting stopping stopped : SubscriberState

pub data SubscriberError : Type 0 where
  subscriber_none subscribe_error receive_error protocol_error : SubscriberError

-- Subscriber with its Status: `closed` counts the closings of the message channel, `done_closed` those
-- of the done channel, `canceled` tells whether cancel was called
pub record Subscriber : Type 0 where
  pub state : SubscriberState
  pub running : Bool
  pub error_category : SubscriberError
  pub last_connected_at : ℕ
  pub last_failure_at : ℕ
  pub reconnects : ℕ
  pub has_cancel : Bool
  pub canceled : Bool
  pub done : Option ℕ
  pub active : Option ℕ
  pub closed : ℕ
  pub done_closed : ℕ

-- newSubscriber
abbrev pub new_subscriber : Subscriber
new_subscriber = record {
  state = created;
  running = false;
  error_category = subscriber_none;
  last_connected_at = 0;
  last_failure_at = 0;
  reconnects = 0;
  has_cancel = false;
  canceled = false;
  done = none;
  active = none;
  closed = 0;
  done_closed = 0;
}

pub record Options : Type 0 where
  pub name : String
  pub channel : String
  pub buffer_size : ℤ
  pub subscribe_timeout : ℤ
  pub backoff_initial : ℤ
  pub backoff_max : ℤ

pub data OptionsError : Type 0 where
  name_required channel_required buffer_size_not_positive timeout_not_positive : OptionsError
  initial_not_positive maximum_not_positive maximum_too_small : OptionsError

-- validateOptions
unfoldable pub validate_options : Options → Option OptionsError
validate_options o =
    if is_blank o.name
    then some name_required
    else if is_blank o.channel
    then some channel_required
    else if leb_ℤ o.buffer_size (pos 0)
    then some buffer_size_not_positive
    else if leb_ℤ o.subscribe_timeout (pos 0)
    then some timeout_not_positive
    else if leb_ℤ o.backoff_initial (pos 0)
    then some initial_not_positive
    else if leb_ℤ o.backoff_max (pos 0)
    then some maximum_not_positive
    else if ltb_ℤ o.backoff_max o.backoff_initial
    then some maximum_too_small
    else none

pub data StartReply : Type 0 where
  start_ok start_stopped : StartReply

-- Start with a context: `fresh` is the done channel that it makes; its run begins if the state was
-- created
unfoldable pub start : ℕ → Subscriber → StartReply × Subscriber
start fresh s = elim s.state [
  | created ↦ (
    start_ok,
    record s { has_cancel = true; done = some fresh; running = true; state = starting },
  )
  | starting ↦ (start_ok, s)
  | connected ↦ (start_ok, s)
  | reconnecting ↦ (start_ok, s)
  | stopping ↦ (start_stopped, s)
  | stopped ↦ (start_stopped, s)
]

abbrev is_ending : SubscriberState → Bool
is_ending created = false
is_ending starting = false
is_ending connected = false
is_ending reconnecting = false
is_ending stopping = true
is_ending stopped = true

abbrev pub is_stopped : SubscriberState → Bool
is_stopped created = false
is_stopped starting = false
is_stopped connected = false
is_stopped reconnecting = false
is_stopped stopping = false
is_stopped stopped = true

abbrev is_done : ℕ → Option ℕ → Bool
is_done id none = false
is_done id (some d) = d == id

-- finishLocked; closeOnce keeps the message channel from being closed twice
unfoldable pub finish_locked : ℕ → Subscriber → Subscriber
finish_locked id s = if not (is_done id s.done) || is_stopped s.state then s else record s {
  has_cancel = false;
  running = false;
  state = stopped;
  error_category = subscriber_none;
  closed = if s.closed == 0 then 1 else s.closed;
  done_closed = s.done_closed + 1;
}

-- Stop, up to the wait for the done channel
unfoldable pub stop : ℕ → Subscriber → Subscriber
stop fresh s = elim s.state [
  | created ↦ finish_locked fresh (record s { done = some fresh; state = stopping; running = true })
  | starting ↦ record s { state = stopping; canceled = true }
  | connected ↦ record s { state = stopping; canceled = true }
  | reconnecting ↦ record s { state = stopping; canceled = true }
  | stopping ↦ s
  | stopped ↦ s
]

-- createAttempt: the attempt, unless the context ended or the stop began
unfoldable pub create_attempt : Bool → ℕ → Subscriber → Option ℕ × Subscriber
create_attempt ctx_ended fresh s =
    if ctx_ended || is_ending s.state
    then (none, s)
    else (some fresh, record s { active = some fresh })

unfoldable pub clear_attempt : ℕ → Subscriber → Subscriber
clear_attempt id s = if is_done id s.active then record s { active = none } else s

unfoldable pub mark_connected : ℕ → Subscriber → Subscriber
mark_connected now s =
    if is_ending s.state
    then s
    else record s { state = connected; error_category = subscriber_none; last_connected_at = now }

unfoldable pub mark_failure : SubscriberError → ℕ → Subscriber → Subscriber
mark_failure category now s = if is_ending s.state then s else record s {
  state = reconnecting;
  error_category = category;
  last_failure_at = now;
  reconnects = s.reconnects + 1;
}

-- the deferred end of run
unfoldable pub end_run : ℕ → Subscriber → Subscriber
end_run id s = finish_locked id (record s { active = none })

-- nextBackoff
unfoldable pub next_backoff : ℤ → ℤ → ℤ
next_backoff current maximum =
    if leb_ℤ maximum current || ltb_ℤ (half maximum) current then maximum else double64 current

-- what Receive of the client gives
pub data Received : Type 0 where
  subscription : String → String → Received
  message : String → String → String → Received
  pong : Received
  other_value : Received

-- confirm, after an answer or an error of Receive
unfoldable confirm : Options → Option Received → SubscriberError
confirm o none = subscribe_error
confirm o (some (subscription kind channel)) =
    if not (same_text kind "subscribe") || not (same_text channel o.channel)
    then protocol_error
    else subscriber_none
confirm o (some (message channel pattern payload)) = protocol_error
confirm o (some pong) = protocol_error
confirm o (some other_value) = protocol_error

pub record Message : Type 0 where
  pub channel : String
  pub pattern : String
  pub payload : String

-- what receive passes on before it ends, and how it ends; `taken` answers whether the context let the
-- message into the channel, and none, or the end of the list, is an error of Receive
unfoldable pub receive : Options → List (Option (Received × Bool)) → List Message × SubscriberError
receive o [] = ([], receive_error)
receive o (none ∷ rest) = ([], receive_error)
receive o (some (message channel pattern payload, taken) ∷ rest) =
    let (later, e) = receive o rest in
    if not (same_text channel o.channel) || not (same_text pattern "")
    then ([], protocol_error)
    else if taken
    then (record { channel = channel; pattern = pattern; payload = payload } ∷ later, e)
    else ([], receive_error)
receive o (some (subscription kind channel, taken) ∷ rest) =
    let after = receive o rest in
    if not (same_text kind "subscribe") || not (same_text channel o.channel)
    then ([], protocol_error)
    else after
receive o (some (pong, taken) ∷ rest) = receive o rest
receive o (some (other_value, taken) ∷ rest) = ([], protocol_error)

-- jitteredBackoff, where `draw` is rand.Int64N
unfoldable pub jittered_backoff : (ℕ → ℕ) → ℤ → ℤ
jittered_backoff draw (negsuc d) = negsuc d
jittered_backoff draw (pos d) = if d / 2 == 0 then pos d else pos (d / 2 + draw (d - d / 2 + 1))

-- how one attempt of run ended: after it was confirmed or before, whether the run goes on, and what
-- rand.Int64N answers then
pub record AttemptEnd : Type 0 where
  pub confirmed : Bool
  pub ends_run : Bool
  pub draw : ℕ → ℕ

-- the delays that run waits for, one for each attempt after which it goes on,
-- from the options' initial backoff and maximum
unfoldable pub run_backoffs : ℤ → ℤ → ℤ → List AttemptEnd → List ℤ
run_backoffs initial maximum backoff [] = []
run_backoffs initial maximum backoff (a ∷ rest) =
    let now = if a.confirmed then initial else backoff in
    let later = run_backoffs initial maximum (next_backoff now maximum) rest in
    if a.ends_run then [] else jittered_backoff a.draw now ∷ later
