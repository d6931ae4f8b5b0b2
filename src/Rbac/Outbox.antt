-- ===== src/Rbac/Outbox.antt =====
-- user-service/internal/features/permission/application/outbox.go: events, claims and the settings
-- of the dispatcher.
pub mod Backoff
pub mod Store
use aegis_core.Base.{ℕ, zero, suc, ◌-◌, String, Option, none, some, if◌then◌else◌}
use aegis_core.Base.Int.{ℤ, pos, negsuc, ltb_ℤ, leb_ℤ, double64, half}
use aegis_core.Base.Text.{Uuid}

pub record OutboxEvent : Type 0 where
  pub event_id : Uuid
  pub policy_revision : Option ℤ
  pub user_role_revision : Option ℤ
  pub kind : String
  pub reason : String
  pub role_id : Option Uuid
  pub user_id : Option Uuid
  pub permission_id : Option Uuid
  pub idempotency_key : String

-- OutboxEvent.Revision
unfoldable pub revision : OutboxEvent → ℤ
revision e = elim e.policy_revision [
  | some r ↦ r
  | none ↦ elim e.user_role_revision [ some r ↦ r | none ↦ pos 0 ]
]

pub record OutboxClaim : Type 0 where
  pub event : OutboxEvent
  pub claim_token : Uuid
  pub attempt_count : ℕ

pub record DispatcherSettings : Type 0 where
  pub poll_interval : ℤ
  pub batch_size : ℤ
  pub claim_timeout : ℤ
  pub backoff_initial : ℤ
  pub backoff_max : ℤ

pub data SettingsError : Type 0 where
  poll_interval_not_positive batch_size_not_positive claim_timeout_not_positive : SettingsError
  initial_backoff_not_positive maximum_backoff_not_positive maximum_below_initial : SettingsError

unfoldable pub validate : DispatcherSettings → Option SettingsError
validate s =
    if leb_ℤ s.poll_interval (pos 0)
    then some poll_interval_not_positive
    else if leb_ℤ s.batch_size (pos 0)
    then some batch_size_not_positive
    else if leb_ℤ s.claim_timeout (pos 0)
    then some claim_timeout_not_positive
    else if leb_ℤ s.backoff_initial (pos 0)
    then some initial_backoff_not_positive
    else if leb_ℤ s.backoff_max (pos 0)
    then some maximum_backoff_not_positive
    else if ltb_ℤ s.backoff_max s.backoff_initial
    then some maximum_below_initial
    else none

-- what follows the loop of RetryBackoff
abbrev cap_delay : ℤ → ℤ → ℤ
cap_delay maximum delay = if ltb_ℤ maximum delay then maximum else delay

-- the loop of RetryBackoff, with the rounds that `i < attempt` leaves
unfoldable pub backoff_loop : ℕ → ℤ → ℤ → ℤ
backoff_loop zero maximum delay = cap_delay maximum delay
backoff_loop (suc rounds) maximum delay =
    let next = backoff_loop rounds maximum (double64 delay) in
    if ltb_ℤ delay maximum
    then if ltb_ℤ (half maximum) delay then maximum else next
    else cap_delay maximum delay

-- i runs from 1 while i < attempt
abbrev rounds_of : ℤ → ℕ
rounds_of (pos n) = n - 1
rounds_of (negsuc n) = 0

-- DispatcherSettings.RetryBackoff
unfoldable pub retry_backoff : DispatcherSettings → ℤ → ℤ
retry_backoff s attempt =
    if leb_ℤ attempt (pos 1)
    then s.backoff_initial
    else backoff_loop (rounds_of attempt) s.backoff_max s.backoff_initial
