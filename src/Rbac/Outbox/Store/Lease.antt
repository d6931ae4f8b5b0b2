-- ===== src/Rbac/Outbox/Store/Lease.antt =====
-- What the leases of outbox_store.go give when several dispatchers work on one table.
use aegis_core.Base.{
  ℕ, ◌≡◌, ◌≢◌, ◌⊎◌, ◌+◌, ap, inl, inr, refl, Bool, true, false, Option, none, some, List, [], ◌∷◌,
  ◌++◌, map, arith, ==_iff, ◌≤◌, ◌<◌, if◌then◌else◌, is_none, count, All, All-append,
}
use aegis_core.Base.Int.{ℤ}
use aegis_core.Base.Text.{Uuid}
use aegis_core.Rbac.Outbox.Store.{
  Row, ok, TxOutcome, tx_ok, pending, delivered, failed, truncate_outbox_error, is_processing,
  is_delivered, due, unix_milli, owned, claim, ack, fail, mark_delivered, mark_failed,
}
use aegis_core.Rbac.Outbox.Store.Rows.{
  find_row, find_row-map, DistinctIds, IsTable, IsWellFormed, id-mark_delivered, id-mark_failed,
}
use aegis_core.Rbac.Outbox.Store.Selection.{
  find_row-claim, due-delivered, claim-IsTable, ack-IsTable, fail-IsTable,
}

-- a row as the policy transaction inserts it
pub record IsFresh (r : Row) : Type 0 where
  pub status : r.status ≡ pending
  pub token : r.claim_token ≡ none
  pub until : r.claimed_until ≡ none
  pub at : r.delivered_at ≡ none

-- one transaction on the table, by any replica at any time
pub data TableStep (rows : List Row) : List Row → Type 0 where
  inserted : (r : Row) → IsFresh r → find_row r.id rows ≡ none → TableStep rows (rows ++ r ∷ [])
  claimed :
      (now : ℕ) (limit timeout : ℤ) (token : Uuid) (locked : ℕ → Bool) (outcome : TxOutcome)
      → TableStep rows (claim now limit timeout token locked outcome rows).1
  acked :
      (event_id token : Uuid) (at : ℕ) (outcome : TxOutcome)
      → TableStep rows (ack event_id token at outcome rows).1
  refused :
      (event_id token : Uuid) (at next : ℕ) (summary : List ℕ) (outcome : TxOutcome)
      → TableStep rows (fail event_id token at next summary outcome rows).1

pub data TableReach (rows : List Row) : List Row → Type 0 where
  here : TableReach rows rows
  later : {mid last : List Row} → TableReach rows mid → TableStep mid last → TableReach rows last

IsFresh-IsWellFormed : (r : Row) → IsFresh r → IsWellFormed r
IsFresh-IsWellFormed r h = ground arith

find_row-append :
    (i : ℕ) (rows : List Row) (r : Row)
    → find_row i (rows ++ r ∷ [])
      ≡ (if is_none (find_row i rows) then find_row i (r ∷ []) else find_row i rows)
unfolding find_row
find_row-append i [] r = refl
find_row-append i (q ∷ rows) r = ground (arith, find_row-append i rows r)

DistinctIds-append :
    (rows : List Row) (r : Row)
    → find_row r.id rows ≡ none
    → DistinctIds rows
    → DistinctIds (rows ++ r ∷ [])
unfolding find_row
DistinctIds-append [] r fresh h = (refl, tt)
DistinctIds-append (q ∷ rows) r fresh h = (
  ground (arith, find_row-append q.id rows r, ==_iff q.id r.id, ==_iff r.id q.id),
  DistinctIds-append rows r (ground arith) h.1,
)

TableStep-IsTable : {rows last : List Row} → TableStep rows last → IsTable rows → IsTable last
TableStep-IsTable {rows} (inserted r new key) h = record {
  formed = All-append IsWellFormed rows (r ∷ []) h.formed (IsFresh-IsWellFormed r new, tt);
  keys = DistinctIds-append rows r key h.keys;
}
TableStep-IsTable {rows} (claimed now limit timeout token locked outcome) h =
    claim-IsTable now limit timeout token locked outcome rows h
TableStep-IsTable {rows} (acked event_id token at outcome) h =
    ack-IsTable event_id token at outcome rows h
TableStep-IsTable {rows} (refused event_id token at next summary outcome) h =
    fail-IsTable event_id token at outcome next summary rows h

-- From any table, whatever transactions the replicas run in whatever order: the keys stay distinct,
-- a row has a lease (token and expiry) exactly while it is in processing, and a delivery time
-- exactly once it is delivered.
pub TableReach-IsTable : {rows last : List Row} → IsTable rows → TableReach rows last → IsTable last
TableReach-IsTable h here = h
TableReach-IsTable h (later r st) = TableStep-IsTable st (TableReach-IsTable h r)

not_owned-delivered :
    (event_id token : Uuid) (r : Row)
    → is_delivered r.status ≡ true
    → owned event_id token r ≡ false
unfolding owned
not_owned-delivered event_id token r h = ground arith

not_owned-token :
    (event_id token holder : Uuid) (r : Row)
    → r.claim_token ≡ some holder
    → holder ≢ token
    → owned event_id token r ≡ false
unfolding owned
not_owned-token event_id token holder r h ne = ground arith

module _ (event_id token : Uuid) (at : ℕ) (outcome : TxOutcome) (rows : List Row) (i : ℕ) where
  -- a row that the WHERE of Ack and Fail leaves out is untouched by both
  find_row-ack :
      {r : Row}
      → find_row i rows ≡ some r
      → owned event_id token r ≡ false
      → find_row i (ack event_id token at outcome rows).1 ≡ some r
  unfolding ack mark_delivered
  find_row-ack {r} e other = ground (
    arith,
    find_row-map (mark_delivered event_id token (unix_milli at)) (id-mark_delivered _ _ _) i rows,
  )

  find_row-fail :
      (next : ℕ) (summary : List ℕ) {r : Row}
      → find_row i rows ≡ some r
      → owned event_id token r ≡ false
      → find_row i (fail event_id token at next summary outcome rows).1 ≡ some r
  unfolding fail mark_failed
  find_row-fail next summary {r} e other = ground (
    arith,
    find_row-map (mark_failed event_id token (unix_milli at) (unix_milli next) summary)
        (id-mark_failed event_id token (unix_milli at) (unix_milli next) summary) i rows,
  )

find_row-step :
    {rows last : List Row}
    → TableStep rows last
    → (i : ℕ) {r : Row} → DistinctIds rows
    → find_row i rows ≡ some r
    → is_delivered r.status ≡ true
    → find_row i last ≡ some r
find_row-step {rows} (inserted q new key) i keys e done = ground (arith, find_row-append i rows q)
find_row-step {rows} (claimed now limit timeout token locked outcome) i {r} keys e done =
    find_row-claim now limit timeout token locked outcome rows i keys e (due-delivered _ r done)
find_row-step {rows} (acked event_id token at outcome) i {r} keys e done =
    find_row-ack event_id token at outcome rows i e (not_owned-delivered event_id token r done)
find_row-step {rows} (refused event_id token at next summary outcome) i {r} keys e done =
    find_row-fail event_id token at outcome rows i next summary e
      (not_owned-delivered event_id token r done)

-- Delivered is final: from any table, whatever transactions the replicas run afterwards, a delivered
-- row keeps every column.
pub delivered_is_final :
    {rows last : List Row} (i : ℕ) {r : Row}
    → IsTable rows
    → TableReach rows last
    → find_row i rows ≡ some r
    → is_delivered r.status ≡ true
    → find_row i last ≡ some r
delivered_is_final i h here e done = e
delivered_is_final i h (later reach st) e done =
    find_row-step st i (TableReach-IsTable h reach).keys (delivered_is_final i h reach e done) done

not_due-leased :
    (now until : ℕ) (r : Row)
    → is_processing r.status ≡ true
    → r.claimed_until ≡ some until
    → now < until
    → due now r ≡ false
unfolding due
not_due-leased now until r h u early = ground arith

-- A lease excludes the other replicas: while it has not expired, no claim touches its row, and an
-- Ack or a Fail under any other token leaves the row as it was.
pub lease_excludes :
    (rows : List Row) (i : ℕ) {r : Row} (holder : Uuid) (until : ℕ)
    → IsTable rows
    → find_row i rows ≡ some r
    → is_processing r.status ≡ true
    → r.claim_token ≡ some holder
    → r.claimed_until ≡ some until
    → ((now : ℕ) (limit timeout : ℤ) (token : Uuid) (locked : ℕ → Bool) (outcome : TxOutcome)
        → unix_milli now < until
        → find_row i (claim now limit timeout token locked outcome rows).1 ≡ some r)
      × ((event_id token : Uuid) (at : ℕ) (outcome : TxOutcome)
          → holder ≢ token
          → find_row i (ack event_id token at outcome rows).1 ≡ some r)
      × ((event_id token : Uuid) (at next : ℕ) (summary : List ℕ) (outcome : TxOutcome)
          → holder ≢ token
          → find_row i (fail event_id token at next summary outcome rows).1 ≡ some r)
lease_excludes rows i {r} holder until h e held token_is until_is = (
  λ now limit timeout token locked outcome early.
      find_row-claim now limit timeout token locked outcome rows i h.keys e
        (not_due-leased _ until r held until_is early),
  λ event_id token at outcome ne.
      find_row-ack event_id token at outcome rows i e
        (not_owned-token event_id token holder r token_is ne),
  λ event_id token at next summary outcome ne.
      find_row-fail event_id token at outcome rows i next summary e
        (not_owned-token event_id token holder r token_is ne),
)

abbrev After : ℕ → Option ℕ → Type 0
After now none = Unit
After now (some t) = t ≤ now

-- No event is stuck: a well-formed row that is not delivered is due once its retry time and its lease
-- have passed.
pub due_again :
    (now : ℕ) (r : Row)
    → IsWellFormed r
    → is_delivered r.status ≡ false
    → r.next_attempt_at ≤ now
    → After now r.claimed_until
    → due now r ≡ true
unfolding due
due_again now r h open_row retry lease = ground arith

count_none :
    (event_id token : Uuid) (rows : List Row)
    → All (λ r. owned event_id token r ≡ false) rows
    → (count (owned event_id token) rows ≡ 0)
      × ((at : ℕ) → map (mark_delivered event_id token at) rows ≡ rows)
      × ((at next : ℕ) (summary : List ℕ)
          → map (mark_failed event_id token at next summary) rows ≡ rows)
unfolding mark_delivered mark_failed
count_none event_id token [] h = (refl, λ at. refl, λ at next summary. refl)
count_none event_id token (r ∷ rows) h =
    let (none_owned, acks, fails) = count_none event_id token rows h.1 in
    (
      ground (arith, h.0, none_owned),
      λ at. ground (arith, h.0, acks at),
      λ at next summary. ground (arith, h.0, fails at next summary),
    )

-- the row is no processing row of this event under this token
abbrev pub IsLost : Uuid → Uuid → Row → Type 0
IsLost event_id token r =
    (r.event.event_id ≢ event_id) ⊎ (is_processing r.status ≡ false) ⊎ (r.claim_token ≢ some token)

lost-not_owned :
    (event_id token : Uuid) (r : Row) → IsLost event_id token r → owned event_id token r ≡ false
unfolding owned
lost-not_owned event_id token r (inl e) = ground (arith, e, ==_iff r.event.event_id event_id)
lost-not_owned event_id token r (inr (inl p)) = ground (arith, p)
lost-not_owned event_id token r (inr (inr t)) = ground (arith, t)

held-owned :
    (event_id token : Uuid) (r : Row)
    → r.event.event_id ≡ event_id
    → is_processing r.status ≡ true
    → r.claim_token ≡ some token
    → owned event_id token r ≡ true
unfolding owned
held-owned event_id token r e p t = ground (arith, e, p, t, ==_iff r.event.event_id event_id)

lost_rows :
    (event_id token : Uuid) (rows : List Row)
    → All (IsLost event_id token) rows
    → All (λ r. owned event_id token r ≡ false) rows
lost_rows event_id token [] h = h
lost_rows event_id token (r ∷ rows) h =
    (lost-not_owned event_id token r h.0, lost_rows event_id token rows h.1)

-- the row as Ack and as Fail leave it
abbrev pub settled_row : ℕ → Row → Row
settled_row at r = record r {
  status = delivered;
  delivered_at = some at;
  updated_at = at;
  claim_token = none;
  claimed_until = none;
  last_error = none;
}

abbrev pub retried_row : ℕ → ℕ → List ℕ → Row → Row
retried_row at next summary r = record r {
  status = failed;
  attempt_count = r.attempt_count + 1;
  next_attempt_at = next;
  last_error = some (truncate_outbox_error summary);
  updated_at = at;
  claim_token = none;
  claimed_until = none;
}

-- one owned row among rows that are not
count_one :
    (event_id token : Uuid) (before : List Row) (r : Row) (after : List Row)
    → All (λ q. owned event_id token q ≡ false) before
    → All (λ q. owned event_id token q ≡ false) after
    → owned event_id token r ≡ true
    → count (owned event_id token) (before ++ r ∷ after) ≡ 1
count_one event_id token [] r after h k own =
    let (none_owned, acks, fails) = count_none event_id token after k in
    ground (arith, own, none_owned)
count_one event_id token (q ∷ before) r after h k own =
    ground (arith, h.0, count_one event_id token before r after h.1 k own)

map_one :
    (f : Row → Row) (P : Row → Type 0)
    → ((q : Row) → P q → f q ≡ q)
    → (before : List Row) (r : Row) (after : List Row) → All P before
    → map f after ≡ after
    → map f (before ++ r ∷ after) ≡ before ++ f r ∷ after
map_one f P same [] r after h k = ap (λ l. f r ∷ l) k
map_one f P same (q ∷ before) r after h k = cc (same q h.0, map_one f P same before r after h.1 k)

-- If no row is owned under an event and a token, then Ack and Fail with these, where the transaction
-- commits, answer false and leave the table as it was.
lost_claim :
    (event_id token : Uuid) (at next : ℕ) (summary : List ℕ) (rows : List Row)
    → All (IsLost event_id token) rows
    → (ack event_id token at tx_ok rows ≡ (ok false, rows))
      × (fail event_id token at next summary tx_ok rows ≡ (ok false, rows))
unfolding ack fail
lost_claim event_id token at next summary rows h =
    let (none_owned, acks, fails) =
      count_none event_id token rows (lost_rows event_id token rows h) in
    (
      ground (arith, none_owned, acks (unix_milli at)),
      ground (arith, none_owned, fails (unix_milli at) (unix_milli next) summary),
    )

module _ (event_id token : Uuid) (at next : ℕ) (summary : List ℕ) (before after : List Row)
    (r : Row) where
  held_claim :
      All (IsLost event_id token) before
      → All (IsLost event_id token) after
      → owned event_id token r ≡ true
      → (ack event_id token at tx_ok (before ++ r ∷ after)
          ≡ (ok true, before ++ settled_row (unix_milli at) r ∷ after))
        × (fail event_id token at next summary tx_ok (before ++ r ∷ after)
            ≡ (ok true, before ++ retried_row (unix_milli at) (unix_milli next) summary r ∷ after))
  unfolding ack fail mark_delivered mark_failed
  held_claim h k own =
      let earlier = lost_rows event_id token before h in
      let others = lost_rows event_id token after k in
      let one = count_one event_id token before r after earlier others own in
      let (none_owned, acks, fails) = count_none event_id token after others in
      let t = unix_milli at in
      let done =
        map_one (mark_delivered event_id token t) (λ q. owned event_id token q ≡ false)
          (λ q out. rw (out, mark_delivered) refl) before r after earlier (acks t) in
      let retried =
        map_one (mark_failed event_id token t (unix_milli next) summary)
          (λ q. owned event_id token q ≡ false) (λ q out. rw (out, mark_failed) refl) before r after
          earlier (fails t (unix_milli next) summary) in
      (ground (arith, one, done, own), ground (arith, one, retried, own))

  -- Ack and Fail, where the transaction commits and no row but one may be a processing row of the event
  -- under the token. If that one is such a row, they answer true and change it alone: Ack to delivered,
  -- with its time, Fail to failed, with one attempt more and the time of the next; the lease is gone.
  -- If it is of another event, is not in processing or has another token, they answer false and leave
  -- the table as it was.
  pub ack-fail-settle :
      All (IsLost event_id token) before
      → All (IsLost event_id token) after
      → (r.event.event_id ≡ event_id
          → is_processing r.status ≡ true
          → r.claim_token ≡ some token
          → (ack event_id token at tx_ok (before ++ r ∷ after)
              ≡ (ok true, before ++ settled_row (unix_milli at) r ∷ after))
            × (fail event_id token at next summary tx_ok (before ++ r ∷ after) ≡ (
              ok true,
              before ++ retried_row (unix_milli at) (unix_milli next) summary r ∷ after,
            )))
        × (IsLost event_id token r
            → (ack event_id token at tx_ok (before ++ r ∷ after) ≡ (ok false, before ++ r ∷ after))
              × (fail event_id token at next summary tx_ok (before ++ r ∷ after)
                  ≡ (ok false, before ++ r ∷ after)))
  ack-fail-settle h k = (
    λ e p t. held_claim h k (held-owned event_id token r e p t),
    λ lost.
        lost_claim event_id token at next summary (before ++ r ∷ after)
          (All-append (IsLost event_id token) before (r ∷ after) h (lost, k)),
  )
