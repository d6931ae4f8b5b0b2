-- ===== src/Tests/Outbox.antt =====
-- The outbox and its dispatcher on a table of three events.
use aegis_core.Base.{
  ℕ, ◌+◌, ◌^◌, ◌*◌, min, ◌≡◌, ◌≢◌, inl, inr, refl, Bool, true, false, none, some, List, [], ◌∷◌,
  arith, ◌<◌,
}
use aegis_core.Base.Int.{ℤ, pos, pos_part}
use aegis_core.Base.Text.{Uuid}
use aegis_core.Rbac.Outbox.{OutboxEvent, DispatcherSettings, validate, retry_backoff}
use aegis_core.Rbac.Outbox.Backoff.{retry_backoff-eq-min}
use aegis_core.Rbac.Outbox.Store.{
  Row, pending, processing, delivered, TxOutcome, tx_ok, claim, ack, fail, due, unix_milli,
  is_processing, ok,
}
use aegis_core.Rbac.Outbox.Store.Rows.{IsTable, IsWellFormed, find_row}
use aegis_core.Rbac.Outbox.Store.Lease.{
  TableReach, TableReach-IsTable, delivered_is_final, lease_excludes, due_again, IsLost,
  settled_row, retried_row, ack-fail-settle, here, later, claimed, acked,
}
use aegis_core.Rbac.Dispatcher.{Ports, World, Shared, no_error, dispatch_claim, dispatch_once}
use aegis_core.Rbac.Dispatcher.Accounting.{IsBatchAccounted, dispatch_once-IsBatchAccounted}
use aegis_core.Rbac.Dispatcher.Delivery.{
  IsHonest, IsFair, dispatch_once-IsHonest, IsKeptByOthers, dispatch_once-respects_lease,
}

-- 1 s, at most 60 s
abbrev settings : DispatcherSettings
settings = record {
  poll_interval = pos 1000000000;
  batch_size = pos 10;
  claim_timeout = pos 30000000000;
  backoff_initial = pos 1000000000;
  backoff_max = pos 60000000000;
}

settings_valid : validate settings ≡ none
unfolding validate
settings_valid = refl

small : pos_part settings.backoff_max < 2 ^ 63
small = omega arith

retry_backoff-eq-min_example :
    retry_backoff settings (pos 8) ≡ pos (min 60000000000 (1000000000 * 2 ^ 7))
retry_backoff-eq-min_example = retry_backoff-eq-min settings 7 settings_valid small

abbrev event : Uuid → ℕ → OutboxEvent
event id r = record {
  event_id = id;
  policy_revision = some (pos r);
  user_role_revision = none;
  kind = "policy_changed";
  reason = "role_updated";
  role_id = some 5;
  user_id = none;
  permission_id = none;
  idempotency_key = "key";
}

abbrev waiting_row : Row
waiting_row = record {
  id = 1;
  event = event 11 3;
  status = pending;
  claim_token = none;
  claimed_until = none;
  attempt_count = 0;
  next_attempt_at = 500;
  last_error = none;
  delivered_at = none;
  created_at = 400;
  updated_at = 400;
}

abbrev leased_row : Row
leased_row = record waiting_row {
  id = 2;
  event = event 12 4;
  status = processing;
  claim_token = some 77;
  claimed_until = some 9000;
  attempt_count = 1;
}

abbrev done_row : Row
done_row = record waiting_row {
  id = 3;
  event = event 13 2;
  status = delivered;
  delivered_at = some 450;
}

abbrev table : List Row
table = waiting_row ∷ leased_row ∷ done_row ∷ []

table-IsTable : IsTable table
unfolding find_row
table-IsTable = record { formed = ground arith; keys = ground arith }

-- a claim at second 1 and its acknowledgement
abbrev claimed_table : List Row
claimed_table = (claim 1000000000 (pos 10) (pos 30000000000) 99 (λ i. false) tx_ok table).1

abbrev acked_table : List Row
acked_table = (ack 11 99 1100000000 tx_ok claimed_table).1

run : TableReach table acked_table
run =
    later (later here (claimed 1000000000 (pos 10) (pos 30000000000) 99 (λ i. false) tx_ok))
      (acked 11 99 1100000000 tx_ok)

TableReach-IsTable_example : IsTable acked_table
TableReach-IsTable_example = TableReach-IsTable table-IsTable run

delivered_is_final_example : find_row 3 acked_table ≡ some done_row
unfolding find_row
delivered_is_final_example = delivered_is_final 3 table-IsTable run refl refl

lease_excludes_example :
    ((now : ℕ) (limit timeout : ℤ) (token : Uuid) (locked : ℕ → Bool) (outcome : TxOutcome)
      → unix_milli now < 9000
      → find_row 2 (claim now limit timeout token locked outcome table).1 ≡ some leased_row)
    × ((event_id token : Uuid) (at : ℕ) (outcome : TxOutcome)
        → 77 ≢ token
        → find_row 2 (ack event_id token at outcome table).1 ≡ some leased_row)
    × ((event_id token : Uuid) (at next : ℕ) (summary : List ℕ) (outcome : TxOutcome)
        → 77 ≢ token
        → find_row 2 (fail event_id token at next summary outcome table).1 ≡ some leased_row)
unfolding find_row
lease_excludes_example = lease_excludes table 2 77 9000 table-IsTable refl refl refl refl

leased_row-IsWellFormed : IsWellFormed leased_row
leased_row-IsWellFormed = record { leased = refl; until = refl; stamped = refl }

due_again_example : due 9500 leased_row ≡ true
due_again_example =
    due_again 9500 leased_row leased_row-IsWellFormed refl (omega arith) (omega arith)

waiting-IsLost : IsLost 12 77 waiting_row
waiting-IsLost = inr (inl refl)

done-IsLost : IsLost 12 77 done_row
done-IsLost = inr (inl refl)

ack-fail-settle_example :
    (leased_row.event.event_id ≡ 12
      → is_processing leased_row.status ≡ true
      → leased_row.claim_token ≡ some 77
      → (ack 12 77 5000000000 tx_ok table
          ≡ (ok true, waiting_row ∷ settled_row (unix_milli 5000000000) leased_row ∷ done_row ∷ []))
        × (fail 12 77 5000000000 6000000000 [] tx_ok table ≡ (
          ok true,
          waiting_row
              ∷ retried_row (unix_milli 5000000000) (unix_milli 6000000000) [] leased_row
              ∷ done_row
              ∷ [],
        )))
    × (IsLost 12 77 leased_row
        → (ack 12 77 5000000000 tx_ok table ≡ (ok false, table))
          × (fail 12 77 5000000000 6000000000 [] tx_ok table ≡ (ok false, table)))
ack-fail-settle_example =
    ack-fail-settle 12 77 5000000000 6000000000 [] (waiting_row ∷ []) (done_row ∷ []) leased_row
      (waiting-IsLost, tt) (done-IsLost, tt)

-- one replica alone, with everything working
abbrev ports : Ports
ports = record {
  now = λ t. 1000000000 + t;
  ctx_err = λ t. none;
  publish = λ t e. none;
  outcome = λ t. tx_ok;
  cause = λ t. aegis_core.Rbac.Dispatcher.other;
  token = λ t. 99;
  locked = λ t i. false;
  others = λ t s. s;
}

abbrev shared : Shared
shared = record { rows = table; sent = event 13 2 ∷ [] }

abbrev world : World
world = record { tick = 0; shared = shared; last_successful = none; last_error = no_error }

ports-IsFair : IsFair ports
ports-IsFair = record { honest = λ t s h. h; remembers = λ t s id h. h }

shared-IsHonest : IsHonest shared
shared-IsHonest = (λ h. absurd (cc), (λ h. absurd (cc), (λ h. refl, tt)))

dispatch_once-IsBatchAccounted_example :
    IsBatchAccounted ports settings (dispatch_once ports settings world)
dispatch_once-IsBatchAccounted_example = dispatch_once-IsBatchAccounted ports settings world

dispatch_once-IsHonest_example : IsHonest (dispatch_once ports settings world).1.shared
dispatch_once-IsHonest_example =
    dispatch_once-IsHonest ports settings world ports-IsFair shared-IsHonest

-- a clock that stands still
abbrev still_ports : Ports
still_ports = record ports { now = λ t. 1000000000 }

still-IsKept : IsKeptByOthers still_ports 2 leased_row
still-IsKept = record { tables = λ t s h. h; row = λ t s h. h; remembers = λ t s id h. h }

dispatch_once-respects_lease_example :
    let rows = (dispatch_once still_ports settings world).1.shared.rows in
    IsTable rows × (find_row 2 rows ≡ some leased_row)
unfolding find_row
dispatch_once-respects_lease_example =
    dispatch_once-respects_lease still_ports settings world 2 leased_row 77 9000 still-IsKept refl
      refl refl (λ t. omega arith) (λ t. omega arith) table-IsTable refl
