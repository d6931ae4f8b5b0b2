-- ===== src/Rbac/Dispatcher/Delivery.antt =====
-- What a batch of dispatcher.go does to what the replicas share: the outbox table and the channel.
use aegis_core.Base.{
  sym, ℕ, ◌<◌, ◌≢◌, some, ◌+◌, ◌≡◌, refl, Bool, true, false, List, [], ◌∷◌, ◌++◌, map, arith, ◌==◌,
  any, All, Bool-cases, inl, inr, Option-cases,
}
use mathlib.Core.Path.{subst}
use aegis_core.Base.Int.{ℤ, pos, leb_ℤ}
use aegis_core.Base.Text.{Uuid}
use aegis_core.Rbac.Outbox.{OutboxEvent, OutboxClaim, DispatcherSettings}
use aegis_core.Rbac.Outbox.Store.{
  Row, Reply, ok, err, TxOutcome, tx_ok, tx_failed, tx_reply_lost, is_delivered, settle, claim, ack,
  fail, mark_processing, mark_delivered, mark_failed, owned, is_processing, unix_milli, to_claim,
}
use aegis_core.Rbac.Outbox.Store.Selection.{claim_table, claim-IsTable, ack-IsTable, fail-IsTable}
use aegis_core.Rbac.Outbox.Store.Rows.{IsTable, find_row}
use aegis_core.Rbac.Outbox.Store.Lease.{lease_excludes}
use aegis_core.Rbac.Dispatcher.{
  Ports, World, Shared, DispatchResult, DispatchError, Cause, is_empty, is_canceled, after_fail,
  after_ack, advance, record_failure, acknowledge, dispatch_claim, tally, dispatch_batch,
  claim_dispatch_batch, read_status, refresh_dispatch_status, finalize, dispatch_once,
}

-- the channel has been sent an event of this id
abbrev was_sent : Uuid → List OutboxEvent → Bool
was_sent id sent = any (λ (e : OutboxEvent). e.event_id == id) sent

-- The writes that a dispatcher makes, by its clock and under the tokens that it draws, keep `Q`, and so
-- do the other replicas, who never take back what was sent.
pub record IsKept (p : Ports) (Q : Shared → Type 0) : Type 0 where
  pub others : (t : ℕ) (s : Shared) → Q s → Q (p.others t s)
  pub remembers :
      (t : ℕ) (s : Shared) (id : Uuid)
      → was_sent id s.sent ≡ true
      → was_sent id (p.others t s).sent ≡ true
  pub claims :
      (begun t : ℕ) (limit timeout : ℤ) (locked : ℕ → Bool) (outcome : TxOutcome) (s : Shared)
      → Q s
      → Q (record s {
        rows = (claim (p.now begun) limit timeout (p.token t) locked outcome s.rows).1;
      })
  pub acks :
      (id : Uuid) (t at : ℕ) (outcome : TxOutcome) (s : Shared)
      → was_sent id s.sent ≡ true
      → Q s
      → Q (record s { rows = (ack id (p.token t) at outcome s.rows).1 })
  pub fails :
      (id : Uuid) (t at next : ℕ) (summary : List ℕ) (outcome : TxOutcome) (s : Shared)
      → Q s
      → Q (record s { rows = (fail id (p.token t) at next summary outcome s.rows).1 })
  pub sends : (e : OutboxEvent) (s : Shared) → Q s → Q (record s { sent = e ∷ s.sent })

module _ (p : Ports) (settings : DispatcherSettings) (Q : Shared → Type 0) (k : IsKept p Q) where
  shared-after_fail :
      (c : OutboxClaim) (cause store_cause : Cause) (reply : Reply Bool) (w : World)
      → (after_fail c cause store_cause reply w).1.shared ≡ w.shared
  unfolding after_fail
  shared-after_fail c cause store_cause (err e) w = refl
  shared-after_fail c cause store_cause (ok true) w = refl
  shared-after_fail c cause store_cause (ok false) w = refl

  shared-after_ack :
      (c : OutboxClaim) (at : ℕ) (store_cause : Cause) (reply : Reply Bool) (w : World)
      → (after_ack c at store_cause reply w).1.shared ≡ w.shared
  unfolding after_ack
  shared-after_ack c at store_cause (err e) w = refl
  shared-after_ack c at store_cause (ok true) w = refl
  shared-after_ack c at store_cause (ok false) w = refl

  -- a claim under the token that was drawn at t
  abbrev IsOwn : ℕ → OutboxClaim → Type 0
  IsOwn t c = c.claim_token ≡ p.token t

  record_failure_keeps :
      (t : ℕ) (c : OutboxClaim) (cause : Cause) (w : World)
      → IsOwn t c
      → Q w.shared
      → Q (record_failure p settings c cause w).1.shared
  unfolding record_failure
  record_failure_keeps t c cause w own h =
      rw (shared-after_fail c cause _ _ _, own) (k.fails _ t _ _ _ _ _ (k.others _ _ h))

  acknowledge_keeps :
      (t : ℕ) (c : OutboxClaim) (w : World)
      → IsOwn t c
      → was_sent c.event.event_id w.shared.sent ≡ true
      → Q w.shared
      → Q (acknowledge p settings c w).1.shared
  unfolding acknowledge
  acknowledge_keeps t c w own sent h =
      rw (shared-after_ack c _ _ _ _, own)
        (k.acks _ t _ _ _ (k.remembers _ _ _ sent) (k.others _ _ h))

  dispatch_claim_keeps :
      (t : ℕ) (c : OutboxClaim) (w : World)
      → IsOwn t c
      → Q w.shared
      → Q (dispatch_claim p settings c w).1.shared
  unfolding dispatch_claim
  dispatch_claim_keeps t c w own h = elim (Option-cases (p.publish w.tick c.event)) [
    | inl sent ↦
        rw (sent, dispatch_claim)
          (acknowledge_keeps t c _ own (ground arith) (k.sends c.event w.shared h))
    | inr (cause, bad) ↦ elim (Option-cases (p.ctx_err (w.tick + 1))) [
      | inl live ↦ rw (bad, live, dispatch_claim) (record_failure_keeps t c cause _ own h)
      | inr (e, dead) ↦ rw (bad, dead, dispatch_claim) h
    ]
  ]

  dispatch_batch_keeps :
      (result : DispatchResult) (errors : List DispatchError) (claims : List OutboxClaim)
      (w : World) (t : ℕ)
      → All (IsOwn t) claims
      → Q w.shared
      → Q (dispatch_batch p settings result errors claims w).1.shared
  unfolding dispatch_batch
  dispatch_batch_keeps result errors [] w t own h = h
  dispatch_batch_keeps result errors (c ∷ claims) w t own h =
      elim (Option-cases (p.ctx_err w.tick)) [
        | inr (e, dead) ↦ rw (dead, dispatch_batch) h
        | inl live ↦
            let r = dispatch_claim p settings c (advance w) in
            rw (live, dispatch_batch)
              (dispatch_batch_keeps (tally p settings result r.0.0) (errors ++ r.0.1) claims r.1 t
                own.1 (dispatch_claim_keeps t c (advance w) own.0 h))
      ]

  -- the table that the claim of the batch leaves
  abbrev claimed_shared : World → Shared
  claimed_shared w =
      let t = w.tick + 1 in
      let s = p.others t w.shared in
      record s {
        rows =
            (claim (p.now w.tick) settings.batch_size settings.claim_timeout (p.token t)
              (p.locked t) (p.outcome t) s.rows).1;
      }

  shared-claim_batch : (w : World) → (claim_dispatch_batch p settings w).1.shared ≡ claimed_shared w
  unfolding claim_dispatch_batch
  shared-claim_batch w = ground arith

  claim_batch_keeps : (w : World) → Q w.shared → Q (claim_dispatch_batch p settings w).1.shared
  claim_batch_keeps w h =
      rw (shared-claim_batch w)
        (k.claims w.tick (w.tick + 1) _ _ _ _ _ (k.others (w.tick + 1) w.shared h))

  to_claim-IsOwn : (t : ℕ) (rows : List Row) → All (IsOwn t) (map (to_claim (p.token t)) rows)
  to_claim-IsOwn t [] = tt
  to_claim-IsOwn t (r ∷ rows) = (refl, to_claim-IsOwn t rows)

  abbrev claims_of : Reply (List OutboxClaim) → List OutboxClaim
  claims_of (ok claims) = claims
  claims_of (err e) = []

  settled-IsOwn :
      (t : ℕ) (outcome : TxOutcome) (claims : List OutboxClaim) (before after : List Row)
      → All (IsOwn t) claims
      → All (IsOwn t) (claims_of (settle outcome claims before after).0)
  settled-IsOwn t tx_ok claims before after own = own
  settled-IsOwn t tx_failed claims before after own = tt
  settled-IsOwn t tx_reply_lost claims before after own = tt

  claim-IsOwn :
      (t now : ℕ) (limit timeout : ℤ) (locked : ℕ → Bool) (outcome : TxOutcome) (rows : List Row)
      → All (IsOwn t) (claims_of (claim now limit timeout (p.token t) locked outcome rows).0)
  unfolding claim
  claim-IsOwn t now limit timeout locked outcome rows = elim (Bool-cases (leb_ℤ limit (pos 0))) [
    | inl bad ↦ rw (bad, claim) tt
    | inr good ↦ elim (Bool-cases (leb_ℤ timeout (pos 0))) [
      | inl none_left ↦ rw (good, none_left, claim) tt
      | inr some_left ↦
          rw (good, some_left, claim) (settled-IsOwn t outcome _ rows _ (to_claim-IsOwn t _))
    ]
  ]

  claim_batch-claims :
      (w : World)
      → let t = w.tick + 1 in
        (claim_dispatch_batch p settings w).0.1
        ≡ claims_of
            (claim
              (p.now w.tick)
              settings.batch_size
              settings.claim_timeout
              (p.token t)
              (p.locked t)
              (p.outcome t)
              (p.others t w.shared).rows).0
  unfolding claim_dispatch_batch
  claim_batch-claims w = ground arith

  claim_batch-IsOwn : (w : World) → All (IsOwn (w.tick + 1)) (claim_dispatch_batch p settings w).0.1
  claim_batch-IsOwn w = rw (claim_batch-claims w) (claim-IsOwn (w.tick + 1) _ _ _ _ _ _)

  shared-read_status :
      (w : World) → (read_status p settings w).1.shared ≡ p.others (w.tick + 1) w.shared
  unfolding read_status
  shared-read_status w = ground arith

  shared-refresh :
      (r : DispatchResult) (w : World)
      → (refresh_dispatch_status p settings r w).1.shared ≡ (read_status p settings w).1.shared
  unfolding refresh_dispatch_status
  shared-refresh r w = ground arith

  shared-finalize :
      (r : DispatchResult) (errors : List DispatchError) (w : World)
      → (finalize p settings r errors w).1.shared ≡ w.shared
  unfolding finalize
  shared-finalize r errors w = ground arith

  refresh_keeps :
      (r : DispatchResult) (w : World)
      → Q w.shared
      → Q (refresh_dispatch_status p settings r w).1.shared
  refresh_keeps r w h =
      rw (shared-refresh r w, shared-read_status w) (k.others (w.tick + 1) w.shared h)

  -- the whole of DispatchOnce
  dispatch_once_keeps : (w : World) → Q w.shared → Q (dispatch_once p settings w).1.shared
  unfolding dispatch_once
  dispatch_once_keeps w h =
      let c = claim_dispatch_batch p settings w in
      let b = dispatch_batch p settings c.0.0 [] c.0.1 c.1 in
      let after_claim = claim_batch_keeps w h in
      let after_batch =
        dispatch_batch_keeps c.0.0 [] c.0.1 c.1 (w.tick + 1) (claim_batch-IsOwn w) after_claim in
      elim (Bool-cases (is_empty c.0.2)) [
        | inr bad ↦ rw (bad, dispatch_once) after_claim
        | inl good ↦ elim (Bool-cases (any is_canceled b.0.1)) [
          | inl dead ↦ rw (good, dead, dispatch_once) (rw (shared-finalize _ _ _) after_batch)
          | inr live ↦
              rw (good, live, dispatch_once)
                (rw (shared-finalize _ _ _) (refresh_keeps b.0.0 b.1 after_batch))
        ]
      ]

-- no event is marked delivered that the channel was not sent
abbrev pub IsHonest : Shared → Type 0
IsHonest s =
    All (λ (r : Row). is_delivered r.status ≡ true → was_sent r.event.event_id s.sent ≡ true) s.rows

abbrev Told : List OutboxEvent → Row → Type 0
Told sent r = is_delivered r.status ≡ true → was_sent r.event.event_id sent ≡ true

Told-map :
    (sent : List OutboxEvent) (f : Row → Row)
    → ((r : Row) → Told sent r → Told sent (f r))
    → (rows : List Row) → All (Told sent) rows
    → All (Told sent) (map f rows)
Told-map sent f keep [] h = h
Told-map sent f keep (r ∷ rows) h = (keep r h.0, Told-map sent f keep rows h.1)

Told-settle :
    {A : Type 0} (sent : List OutboxEvent) (outcome : TxOutcome) (a : A) (before after : List Row)
    → All (Told sent) before
    → All (Told sent) after
    → All (Told sent) (settle outcome a before after).1
Told-settle sent tx_ok a before after h k = k
Told-settle sent tx_failed a before after h k = h
Told-settle sent tx_reply_lost a before after h k = k

Told-mark_processing :
    (sent : List OutboxEvent) (selected : List Row) (token : Uuid) (until now : ℕ) (r : Row)
    → Told sent r
    → Told sent (mark_processing selected token until now r)
unfolding mark_processing
Told-mark_processing sent selected token until now r h = ground arith

Told-mark_failed :
    (sent : List OutboxEvent) (id token : Uuid) (at next : ℕ) (summary : List ℕ) (r : Row)
    → Told sent r
    → Told sent (mark_failed id token at next summary r)
unfolding mark_failed
Told-mark_failed sent id token at next summary r h = ground arith

owned_id : (id token : Uuid) (r : Row) → owned id token r ≡ true → r.event.event_id ≡ id
unfolding owned
owned_id id token r h = ground arith

Told-mark_delivered :
    (sent : List OutboxEvent) (id token : Uuid) (at : ℕ) (r : Row)
    → was_sent id sent ≡ true
    → Told sent r
    → Told sent (mark_delivered id token at r)
unfolding mark_delivered
Told-mark_delivered sent id token at r known h = elim (Bool-cases (owned id token r)) [
  | inl own ↦
      rw (own, mark_delivered)
        (λ _. subst (λ k. was_sent k sent ≡ true) (sym (owned_id id token r own)) known)
  | inr other ↦ rw (other, mark_delivered) h
]

Told-claim :
    (now : ℕ) (limit timeout : ℤ) (token : Uuid) (locked : ℕ → Bool) (outcome : TxOutcome)
    (sent : List OutboxEvent) (rows : List Row)
    → All (Told sent) rows
    → All (Told sent) (claim now limit timeout token locked outcome rows).1
Told-claim now limit timeout token locked outcome sent rows h =
    elim (claim_table now limit timeout token locked outcome rows) [
      | inl same ↦ rw same h
      | inr marked ↦ rw marked (Told-map sent _ (Told-mark_processing sent _ _ _ _) rows h)
    ]

Told-ack :
    (id token : Uuid) (at : ℕ) (outcome : TxOutcome) (sent : List OutboxEvent) (rows : List Row)
    → was_sent id sent ≡ true
    → All (Told sent) rows
    → All (Told sent) (ack id token at outcome rows).1
unfolding ack
Told-ack id token at outcome sent rows known h =
    Told-settle sent outcome _ rows _ h
      (Told-map sent _ (λ r. Told-mark_delivered sent id token _ r known) rows h)

Told-fail :
    (id token : Uuid) (at next : ℕ) (summary : List ℕ) (outcome : TxOutcome)
    (sent : List OutboxEvent) (rows : List Row)
    → All (Told sent) rows
    → All (Told sent) (fail id token at next summary outcome rows).1
unfolding fail
Told-fail id token at next summary outcome sent rows h =
    Told-settle sent outcome _ rows _ h
      (Told-map sent _ (Told-mark_failed sent id token _ _ summary) rows h)

Told-send :
    (e : OutboxEvent) (sent : List OutboxEvent) (rows : List Row)
    → All (Told sent) rows
    → All (Told (e ∷ sent)) rows
Told-send e sent [] h = h
Told-send e sent (r ∷ rows) h = (ground arith, Told-send e sent rows h.1)

-- what the replicas are taken to do between two transactions of this one
pub record IsFair (p : Ports) : Type 0 where
  pub honest : (t : ℕ) (s : Shared) → IsHonest s → IsHonest (p.others t s)
  pub remembers :
      (t : ℕ) (s : Shared) (id : Uuid)
      → was_sent id s.sent ≡ true
      → was_sent id (p.others t s).sent ≡ true

IsHonest-IsKept : (p : Ports) → IsFair p → IsKept p IsHonest
IsHonest-IsKept p fair = record {
  others = fair.honest;
  remembers = fair.remembers;
  claims = λ begun t limit timeout locked outcome s h.
      Told-claim (p.now begun) limit timeout (p.token t) locked outcome s.sent s.rows h;
  acks = λ id t at outcome s known h. Told-ack id (p.token t) at outcome s.sent s.rows known h;
  fails = λ id t at next summary outcome s h.
      Told-fail id (p.token t) at next summary outcome s.sent s.rows h;
  sends = λ e s h. Told-send e s.sent s.rows h;
}

-- Delivered means sent: if every delivered row's event was sent before a batch, then the same holds
-- after it, whatever fails in the batch, if what the other replicas do between its transactions
-- keeps it too and takes back nothing that was sent.
pub dispatch_once-IsHonest :
    (p : Ports) (settings : DispatcherSettings) (w : World)
    → IsFair p
    → IsHonest w.shared
    → IsHonest (dispatch_once p settings w).1.shared
dispatch_once-IsHonest p settings w fair h =
    dispatch_once_keeps p settings IsHonest (IsHonest-IsKept p fair) w h

-- what the other replicas are taken to do with the row: they keep the table in order and the row as it
-- is, and never take back what was sent
pub record IsKeptByOthers (p : Ports) (i : ℕ) (r : Row) : Type 0 where
  pub tables : (t : ℕ) (s : Shared) → IsTable s.rows → IsTable (p.others t s).rows
  pub row :
      (t : ℕ) (s : Shared) → find_row i s.rows ≡ some r → find_row i (p.others t s).rows ≡ some r
  pub remembers :
      (t : ℕ) (s : Shared) (id : Uuid)
      → was_sent id s.sent ≡ true
      → was_sent id (p.others t s).sent ≡ true

abbrev Holds : ℕ → Row → Shared → Type 0
Holds i r s = IsTable s.rows × (find_row i s.rows ≡ some r)

Holds-IsKept :
    (p : Ports) (i : ℕ) (r : Row) (holder : Uuid) (until : ℕ)
    → IsKeptByOthers p i r
    → is_processing r.status ≡ true
    → r.claim_token ≡ some holder
    → r.claimed_until ≡ some until
    → ((t : ℕ) → holder ≢ p.token t)
    → ((t : ℕ) → unix_milli (p.now t) < until)
    → IsKept p (Holds i r)
Holds-IsKept p i r holder until kept held token_is until_is foreign early = record {
  others = λ t s (table, found). (kept.tables t s table, kept.row t s found);
  remembers = kept.remembers;
  claims = λ begun t limit timeout locked outcome s (table, found).
      let (claims, acks, fails) =
        lease_excludes s.rows i holder until table found held token_is until_is in
      (
        claim-IsTable (p.now begun) limit timeout (p.token t) locked outcome s.rows table,
        claims (p.now begun) limit timeout (p.token t) locked outcome (early begun),
      );
  acks = λ id t at outcome s known (table, found).
      let (claims, acks, fails) =
        lease_excludes s.rows i holder until table found held token_is until_is in
      (
        ack-IsTable id (p.token t) at outcome s.rows table,
        acks id (p.token t) at outcome (foreign t),
      );
  fails = λ id t at next summary outcome s (table, found).
      let (claims, acks, fails) =
        lease_excludes s.rows i holder until table found held token_is until_is in
      (
        fail-IsTable id (p.token t) at outcome next summary s.rows table,
        fails id (p.token t) at next summary outcome (foreign t),
      );
  sends = λ e s h. h;
}

-- A batch respects the leases of other replicas. If a row of a table in order is in processing under a
-- token that this dispatcher never draws, by its clock the lease does not expire during the batch, and
-- what the others do between its transactions keeps the table in order, the row as it is and what was
-- sent, then after the batch the row is what it was before, in every column, and the table is in order,
-- whatever is published and whatever fails.
pub dispatch_once-respects_lease :
    (p : Ports) (settings : DispatcherSettings) (w : World) (i : ℕ) (r : Row) (holder : Uuid)
    (until : ℕ)
    → IsKeptByOthers p i r
    → is_processing r.status ≡ true
    → r.claim_token ≡ some holder
    → r.claimed_until ≡ some until
    → ((t : ℕ) → holder ≢ p.token t)
    → ((t : ℕ) → unix_milli (p.now t) < until)
    → IsTable w.shared.rows
    → find_row i w.shared.rows ≡ some r
    → let rows = (dispatch_once p settings w).1.shared.rows in
      IsTable rows × (find_row i rows ≡ some r)
dispatch_once-respects_lease p settings w i r holder until kept held token_is until_is foreign early
      table found =
    dispatch_once_keeps p settings (Holds i r)
      (Holds-IsKept p i r holder until kept held token_is until_is foreign early) w (table, found)
