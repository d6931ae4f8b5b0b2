-- ===== src/Rbac/Dispatcher.antt =====
-- user-service/internal/features/permission/application/dispatcher.go: one batch of the outbox
-- dispatcher. What the dispatcher asks of its surroundings (clock, context, publisher, database) is
-- a `Ports` read at a counter that each question advances; logs and metrics are left out.
pub mod Accounting
pub mod Delivery
use aegis_core.Base.{
  ℕ, ◌+◌, ◌*◌, ◌-◌, Bool, true, false, ◌&&◌, Option, none, some, List, [], ◌∷◌, ◌++◌, ltb,
  if◌then◌else◌, is_none, is_some, length, any,
}
use aegis_core.Base.Int.{ℤ, pos}
use aegis_core.Base.Text.{Uuid, nil_uuid, codes}
use aegis_core.Rbac.Outbox.{OutboxEvent, OutboxClaim, DispatcherSettings, revision, retry_backoff}
use aegis_core.Rbac.Outbox.Store.{
  Row, TxOutcome, tx_ok, tx_failed, tx_reply_lost, Reply, ok, err, OutboxBacklog, claim, ack, fail,
  backlog, add_duration,
}

-- ctx.Err()
pub data ContextError : Type 0 where
  canceled deadline_exceeded : ContextError

-- the innermost error of a chain, as far as errors.Is tells causes apart
pub data Cause : Type 0 where
  context_error : ContextError → Cause
  other : Cause

pub data Category : Type 0 where
  no_error claim_failed publish_failed ack_failed failure_record_failed claim_lost : Category
  backlog_failed context_canceled unexpected_exit : Category

pub data Stage : Type 0 where
  claim_stage publish_stage ack_stage failure_record_stage status_stage context_stage : Stage

-- DispatcherDispatchError; errors.Join is a list, and nil is the empty one
pub record DispatchError : Type 0 where
  pub stage : Stage
  pub category : Category
  pub event_id : Uuid
  pub revision : ℤ
  pub cause : Cause

-- errors.Is(err, context.Canceled) of one joined error
abbrev pub is_canceled : DispatchError → Bool
is_canceled e = elim e.cause [
  | context_error c ↦ elim c [ canceled ↦ true | deadline_exceeded ↦ false ]
  | other ↦ false
]

-- err == nil
abbrev pub is_empty {ℓ} : {A : Type ℓ} → List A → Bool
is_empty [] = true
is_empty (x ∷ xs) = false

-- what all replicas share: the table, and the events that the channel has been sent
pub record Shared : Type 0 where
  pub rows : List Row
  pub sent : List OutboxEvent

pub record Ports : Type 0 where
  pub now : ℕ → ℕ
  pub ctx_err : ℕ → Option ContextError
  pub publish : ℕ → OutboxEvent → Option Cause
  pub outcome : ℕ → TxOutcome
  pub cause : ℕ → Cause
  pub token : ℕ → Uuid
  pub locked : ℕ → ℕ → Bool
  -- what the other replicas have done before a transaction of this one
  pub others : ℕ → Shared → Shared

-- the fields of Dispatcher that a batch writes
pub record World : Type 0 where
  pub tick : ℕ
  pub shared : Shared
  pub last_successful : Option ℕ
  pub last_error : Category

pub record DispatchStatus : Type 0 where
  pub last_successful : Option ℕ
  pub last_error : Category
  pub due_count : ℕ
  pub oldest_unfinished_age : ℕ

pub record DispatchResult : Type 0 where
  pub claimed : ℕ
  pub delivered : ℕ
  pub acknowledged : ℕ
  pub retried : ℕ
  pub failed : ℕ
  pub status : Option DispatchStatus

pub record ClaimResult : Type 0 where
  pub delivered : Bool
  pub acknowledged : Bool
  pub retried : Bool
  pub failed : Bool

abbrev nothing_done : ClaimResult
nothing_done = record { delivered = false; acknowledged = false; retried = false; failed = false }

abbrev pub no_result : DispatchResult
no_result = record {
  claimed = 0;
  delivered = 0;
  acknowledged = 0;
  retried = 0;
  failed = 0;
  status = none;
}

-- dispatchError
abbrev pub dispatch_error : Stage → Category → OutboxClaim → Cause → DispatchError
dispatch_error s c claimed cause = record {
  stage = s;
  category = c;
  event_id = claimed.event.event_id;
  revision = revision claimed.event;
  cause = cause;
}

-- dispatchError of the zero OutboxClaim
abbrev batch_error : Stage → Category → Cause → DispatchError
batch_error s c cause = record {
  stage = s;
  category = c;
  event_id = nil_uuid;
  revision = pos 0;
  cause = cause;
}

-- recordError
abbrev record_error : Category → World → World
record_error c w = record w { last_error = c }

-- recordSuccess
abbrev record_success : ℕ → World → World
record_success at w = record w { last_successful = some at }

abbrev pub advance : World → World
advance w = record w { tick = w.tick + 1 }

-- the summary that Fail stores
abbrev publish_summary : List ℕ
publish_summary = codes "publish_failed"

-- the batch's table as the next transaction finds it
abbrev before_tx : Ports → World → Shared
before_tx p w = p.others w.tick w.shared

-- dispatchClaim, from the answer of store.Fail on
unfoldable pub after_fail :
    OutboxClaim → Cause → Cause → Reply Bool → World → (ClaimResult × List DispatchError) × World
after_fail c cause store_cause (err e) w = (
  (
    record nothing_done { failed = true },
    dispatch_error publish_stage publish_failed c cause
        ∷ dispatch_error failure_record_stage failure_record_failed c store_cause
        ∷ [],
  ),
  record_error failure_record_failed w,
)
after_fail c cause store_cause (ok false) w = (
  (
    record nothing_done { failed = true },
    dispatch_error publish_stage publish_failed c cause
        ∷ dispatch_error failure_record_stage claim_lost c other
        ∷ [],
  ),
  record_error claim_lost w,
)
after_fail c cause store_cause (ok true) w = (
  (
    record nothing_done { failed = true; retried = true },
    dispatch_error publish_stage publish_failed c cause ∷ [],
  ),
  record_error publish_failed w,
)

-- dispatchClaim, from the answer of store.Ack on
unfoldable pub after_ack :
    OutboxClaim → ℕ → Cause → Reply Bool → World → (ClaimResult × List DispatchError) × World
after_ack c at store_cause (err e) w = (
  (
    record nothing_done { delivered = true; failed = true },
    dispatch_error ack_stage ack_failed c store_cause ∷ [],
  ),
  record_error ack_failed w,
)
after_ack c at store_cause (ok false) w = (
  (
    record nothing_done { delivered = true; failed = true },
    dispatch_error ack_stage claim_lost c other ∷ [],
  ),
  record_error claim_lost w,
)
after_ack c at store_cause (ok true) w =
    ((record nothing_done { delivered = true; acknowledged = true }, []), record_success at w)

module _ (p : Ports) (settings : DispatcherSettings) where
  -- store.Fail, called with the delay of the next attempt
  unfoldable pub record_failure :
      OutboxClaim → Cause → World → (ClaimResult × List DispatchError) × World
  record_failure c cause w =
      let failed_at = p.now w.tick in
      let next = add_duration failed_at (retry_backoff settings (pos (c.attempt_count + 1))) in
      let w' = advance w in
      let shared = before_tx p w' in
      let (reply, rows) =
        fail c.event.event_id c.claim_token failed_at next publish_summary (p.outcome w'.tick)
          shared.rows in
      after_fail c cause (p.cause w'.tick) reply
        (advance (record w' { shared = record shared { rows = rows } }))

  unfoldable pub acknowledge : OutboxClaim → World → (ClaimResult × List DispatchError) × World
  acknowledge c w =
      let delivered_at = p.now w.tick in
      let w' = advance w in
      let shared = before_tx p w' in
      let (reply, rows) =
        ack c.event.event_id c.claim_token delivered_at (p.outcome w'.tick) shared.rows in
      after_ack c delivered_at (p.cause w'.tick) reply
        (advance (record w' { shared = record shared { rows = rows } }))

  -- dispatchClaim
  unfoldable pub dispatch_claim : OutboxClaim → World → (ClaimResult × List DispatchError) × World
  dispatch_claim c w = elim (p.publish w.tick c.event) [
    | none ↦
        acknowledge c
          (advance (record w { shared = record w.shared { sent = c.event ∷ w.shared.sent } }))
    | some cause ↦ elim (p.ctx_err (w.tick + 1)) [
      | some e ↦ (
        (nothing_done, dispatch_error context_stage context_canceled c (context_error e) ∷ []),
        advance (advance w),
      )
      | none ↦ record_failure c cause (advance (advance w))
    ]
  ]

  abbrev add_if : Bool → ℕ → ℕ
  add_if b n = if b then n + 1 else n

  -- the counting of dispatchBatch
  unfoldable pub tally : DispatchResult → ClaimResult → DispatchResult
  tally r c = record r {
    delivered = add_if c.delivered r.delivered;
    acknowledged = add_if c.acknowledged r.acknowledged;
    retried = add_if c.retried r.retried;
    failed = add_if c.failed r.failed;
  }

  -- the loop of dispatchBatch
  unfoldable pub dispatch_batch :
      DispatchResult
      → List DispatchError
      → List OutboxClaim
      → World
      → (DispatchResult × List DispatchError) × World
  dispatch_batch result errors [] w = ((result, errors), w)
  dispatch_batch result errors (c ∷ claims) w = elim (p.ctx_err w.tick) [
    | some e ↦ (
      (result, errors ++ dispatch_error context_stage context_canceled c (context_error e) ∷ []),
      advance w,
    )
    | none ↦
        let ((claim_result, claim_errors), w') = dispatch_claim c (advance w) in
        dispatch_batch (tally result claim_result) (errors ++ claim_errors) claims w'
  ]

  -- claimDispatchBatch; none when the claim failed
  unfoldable pub claim_dispatch_batch :
      World → (DispatchResult × List OutboxClaim × List DispatchError) × World
  claim_dispatch_batch w =
      let now = p.now w.tick in
      let w' = advance w in
      let shared = before_tx p w' in
      let (reply, rows) =
        claim now settings.batch_size settings.claim_timeout (p.token w'.tick) (p.locked w'.tick)
          (p.outcome w'.tick) shared.rows in
      let w'' = advance (record w' { shared = record shared { rows = rows } }) in
      elim reply [
        | err e ↦ (
          (no_result, [], batch_error claim_stage claim_failed (p.cause w'.tick) ∷ []),
          record_error claim_failed w'',
        )
        | ok claims ↦ ((record no_result { claimed = length claims }, claims, []), w'')
      ]

  -- OldestUnfinishedAge of Status
  abbrev unfinished_age : ℕ → Option ℕ → ℕ
  unfinished_age now none = 0
  unfinished_age now (some created) =
      if ltb (created * 1000000) now then now - created * 1000000 else 0

  -- Dispatcher.Status: the backlog, or the error of its queries
  unfoldable pub read_status : World → (DispatchStatus × List DispatchError) × World
  read_status w =
      let now = p.now w.tick in
      let w' = advance w in
      let shared = before_tx p w' in
      let found = backlog now shared.rows in
      let w'' = advance (record w' { shared = shared }) in
      elim (p.outcome w'.tick) [
        | tx_ok ↦ (
          (
            record {
              last_successful = w.last_successful;
              last_error = w.last_error;
              due_count = found.due_count;
              oldest_unfinished_age = unfinished_age now found.oldest_created_at;
            },
            [],
          ),
          w'',
        )
        | _ ↦ (
          (
            record {
              last_successful = w.last_successful;
              last_error = backlog_failed;
              due_count = 0;
              oldest_unfinished_age = 0;
            },
            batch_error status_stage backlog_failed (p.cause w'.tick) ∷ [],
          ),
          record_error backlog_failed w'',
        )
      ]

  -- refreshDispatchStatus
  unfoldable pub refresh_dispatch_status :
      DispatchResult → World → (DispatchResult × List DispatchError) × World
  refresh_dispatch_status result w =
      let ((status, errors), w') = read_status w in
      if is_empty errors
      then ((record result { status = some status }, []), w')
      else ((result, errors), w')

  -- finalizeDispatchResult
  unfoldable pub finalize :
      DispatchResult → List DispatchError → World → (DispatchResult × List DispatchError) × World
  finalize result errors w =
      if is_empty errors && ltb 0 result.claimed
      then ((result, errors), record w { last_error = no_error })
      else ((result, errors), w)

  -- DispatchOnce
  unfoldable pub dispatch_once : World → (DispatchResult × List DispatchError) × World
  dispatch_once w =
      let ((claimed, claims, claim_errors), w₁) = claim_dispatch_batch w in
      if is_empty claim_errors
      then (let ((result, errors), w₂) = dispatch_batch claimed [] claims w₁ in
          if any is_canceled errors
          then finalize result errors w₂
          else (let ((refreshed, status_errors), w₃) = refresh_dispatch_status result w₂ in
              finalize refreshed (errors ++ status_errors) w₃))
      else ((claimed, claim_errors), w₁)
