-- ===== src/Rbac/Outbox/Store.antt =====
-- user-service/internal/features/permission/infrastructure/postgres/outbox_store.go: the table of
-- outbox events and the operations on it. A table is its rows by id; each operation is one
-- transaction. Instants are nanoseconds since 1970, the columns milliseconds.
pub mod Rows
pub mod Selection
pub mod Lease
use aegis_core.Base.{
  ℕ, ◌+◌, ◌-◌, ◌/◌, Bool, true, false, not, ◌&&◌, ◌||◌, Option, none, some, List, [], ◌∷◌, map, leb,
  ◌==◌, if◌then◌else◌, length, take, filter, count, any,
}
use aegis_core.Base.Int.{ℤ, pos, pos_part, neg_part, leb_ℤ}
use aegis_core.Base.Text.{Uuid}
use aegis_core.Rbac.Outbox.{OutboxEvent, OutboxClaim}

pub data OutboxStatus : Type 0 where
  pending processing failed delivered : OutboxStatus

pub record Row : Type 0 where
  pub id : ℕ
  pub event : OutboxEvent
  pub status : OutboxStatus
  pub claim_token : Option Uuid
  pub claimed_until : Option ℕ
  pub attempt_count : ℕ
  pub next_attempt_at : ℕ
  pub last_error : Option (List ℕ)
  pub delivered_at : Option ℕ
  pub created_at : ℕ
  pub updated_at : ℕ

abbrev pub is_processing : OutboxStatus → Bool
is_processing processing = true
is_processing _ = false

abbrev pub is_delivered : OutboxStatus → Bool
is_delivered delivered = true
is_delivered _ = false

abbrev is_waiting : OutboxStatus → Bool
is_waiting pending = true
is_waiting failed = true
is_waiting _ = false

-- time.Time.UnixMilli
abbrev pub unix_milli : ℕ → ℕ
unix_milli t = t / 1000000

-- time.Time.Add
abbrev pub add_duration : ℕ → ℤ → ℕ
add_duration t d = t + pos_part d - neg_part d

-- a comparison with NULL is not true
abbrev expired_at : ℕ → Option ℕ → Bool
expired_at now none = false
expired_at now (some t) = leb t now

-- dueOutboxPredicate
unfoldable pub due : ℕ → Row → Bool
due now r =
    (is_waiting r.status && leb r.next_attempt_at now)
    || (is_processing r.status && expired_at now r.claimed_until)

-- ClaimTokenEQ, again no comparison with NULL
abbrev holds_token : Uuid → Option Uuid → Bool
holds_token token none = false
holds_token token (some t) = t == token

-- what a transaction of the database may answer: a commit whose reply is lost has still happened
pub data TxOutcome : Type 0 where
  tx_ok tx_failed tx_reply_lost : TxOutcome

pub data StoreError : Type 0 where
  claim_limit_not_positive claim_timeout_not_positive store_failed : StoreError

pub data Reply {ℓ} (A : Type ℓ) : Type ℓ where
  ok : A → Reply A
  err : StoreError → Reply A

abbrev pub settle {ℓ} : {A : Type ℓ} → TxOutcome → A → List Row → List Row → Reply A × List Row
settle tx_ok a before after = (ok a, after)
settle tx_failed a before after = (err store_failed, before)
settle tx_reply_lost a before after = (err store_failed, after)

-- the rows that the SELECT of Claim locks: SKIP LOCKED leaves out what others have locked
unfoldable pub select_due : ℕ → ℕ → (ℕ → Bool) → List Row → List Row
select_due now limit locked rows = take limit (filter (λ r. due now r && not (locked r.id)) rows)

-- the UPDATE of Claim on one row
unfoldable pub mark_processing : List Row → Uuid → ℕ → ℕ → Row → Row
mark_processing selected token until now r =
    if any (λ s. s.id == r.id) selected
    then record r {
      status = processing;
      claim_token = some token;
      claimed_until = some until;
      updated_at = now;
    }
    else r

abbrev pub to_claim : Uuid → Row → OutboxClaim
to_claim token r = record { event = r.event; claim_token = token; attempt_count = r.attempt_count }

-- OutboxStore.Claim
unfoldable pub claim :
    ℕ → ℤ → ℤ → Uuid → (ℕ → Bool) → TxOutcome → List Row → Reply (List OutboxClaim) × List Row
claim now limit timeout token locked outcome rows =
    let selected = select_due (unix_milli now) (pos_part limit) locked rows in
    let until = unix_milli (add_duration now timeout) in
    if leb_ℤ limit (pos 0)
    then (err claim_limit_not_positive, rows)
    else if leb_ℤ timeout (pos 0)
    then (err claim_timeout_not_positive, rows)
    else settle outcome (map (to_claim token) selected) rows
        (map (mark_processing selected token until (unix_milli now)) rows)

-- the WHERE of Ack and Fail
unfoldable pub owned : Uuid → Uuid → Row → Bool
owned event_id token r =
    (r.event.event_id == event_id) && is_processing r.status && holds_token token r.claim_token

-- the SET of Ack
unfoldable pub mark_delivered : Uuid → Uuid → ℕ → Row → Row
unfolding owned
mark_delivered event_id token at r =
    if owned event_id token r
    then record r {
      status = delivered;
      delivered_at = some at;
      updated_at = at;
      claim_token = none;
      claimed_until = none;
      last_error = none;
    }
    else r

-- OutboxStore.Ack
unfoldable pub ack : Uuid → Uuid → ℕ → TxOutcome → List Row → Reply Bool × List Row
ack event_id token at outcome rows =
    settle outcome (count (owned event_id token) rows == 1) rows
      (map (mark_delivered event_id token (unix_milli at)) rows)

-- truncateOutboxError, on the runes of a valid text
unfoldable pub truncate_outbox_error : List ℕ → List ℕ
truncate_outbox_error summary = if leb (length summary) 2048 then summary else take 2048 summary

-- the SET of Fail
unfoldable pub mark_failed : Uuid → Uuid → ℕ → ℕ → List ℕ → Row → Row
unfolding owned truncate_outbox_error
mark_failed event_id token at next summary r =
    if owned event_id token r
    then record r {
      status = failed;
      attempt_count = r.attempt_count + 1;
      next_attempt_at = next;
      last_error = some (truncate_outbox_error summary);
      updated_at = at;
      claim_token = none;
      claimed_until = none;
    }
    else r

-- OutboxStore.Fail
unfoldable pub fail : Uuid → Uuid → ℕ → ℕ → List ℕ → TxOutcome → List Row → Reply Bool × List Row
fail event_id token at next summary outcome rows =
    settle outcome (count (owned event_id token) rows == 1) rows
      (map (mark_failed event_id token (unix_milli at) (unix_milli next) summary) rows)

pub record OutboxBacklog : Type 0 where
  pub due_count : ℕ
  pub oldest_created_at : Option ℕ

abbrev earlier : ℕ → Option ℕ → Option ℕ
earlier t none = some t
earlier t (some u) = if leb t u then some t else some u

-- the first unfinished event by creation
unfoldable oldest_unfinished : List Row → Option ℕ
oldest_unfinished [] = none
oldest_unfinished (r ∷ rows) =
    let rest = oldest_unfinished rows in
    if is_delivered r.status then rest else earlier r.created_at rest

-- OutboxStore.Backlog
unfoldable pub backlog : ℕ → List Row → OutboxBacklog
unfolding oldest_unfinished
backlog now rows = record {
  due_count = count (due (unix_milli now)) rows;
  oldest_created_at = oldest_unfinished rows;
}
