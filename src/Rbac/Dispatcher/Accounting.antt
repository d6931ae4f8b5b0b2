-- ===== src/Rbac/Dispatcher/Accounting.antt =====
-- The counters and errors of dispatcher.go agree with what happened to the claims.
use aegis_core.Base.{
  is_some, any, ℕ, suc, ◌+◌, ◌≤◌, ◌<◌, ◌≡◌, refl, ap, Bool, true, false, List, [], ◌∷◌, ◌++◌, arith,
  length, Bool-cases, inl, inr, Option-cases,
}
use aegis_core.Rbac.Outbox.{OutboxClaim, DispatcherSettings}
use aegis_core.Rbac.Outbox.Store.{Reply, ok, err}
use aegis_core.Rbac.Dispatcher.{
  Ports, World, ClaimResult, DispatchResult, DispatchError, Cause, no_error, no_result, is_canceled,
  is_empty, advance, dispatch_error, context_error, context_stage, context_canceled, after_fail,
  after_ack, record_failure, acknowledge, dispatch_claim, tally, dispatch_batch,
  claim_dispatch_batch, refresh_dispatch_status, finalize, dispatch_once,
}

-- how the flags of one claim go together with its errors
pub record IsAccounted (r : ClaimResult × List DispatchError) : Type 0 where
  pub acked : r.0.acknowledged ≡ is_empty r.1
  pub sent : r.0.acknowledged ≡ true → r.0.delivered ≡ true
  pub exclusive : r.0.failed ≡ true → r.0.acknowledged ≡ false
  pub rescheduled : r.0.retried ≡ true → r.0.failed ≡ true

after_fail-IsAccounted :
    (c : OutboxClaim) (cause store_cause : Cause) (reply : Reply Bool) (w : World)
    → IsAccounted (after_fail c cause store_cause reply w).0
unfolding after_fail
after_fail-IsAccounted c cause store_cause (err e) w = ground arith
after_fail-IsAccounted c cause store_cause (ok true) w = ground arith
after_fail-IsAccounted c cause store_cause (ok false) w = ground arith

after_ack-IsAccounted :
    (c : OutboxClaim) (at : ℕ) (store_cause : Cause) (reply : Reply Bool) (w : World)
    → IsAccounted (after_ack c at store_cause reply w).0
unfolding after_ack
after_ack-IsAccounted c at store_cause (err e) w = ground arith
after_ack-IsAccounted c at store_cause (ok true) w = ground arith
after_ack-IsAccounted c at store_cause (ok false) w = ground arith

module _ (p : Ports) (settings : DispatcherSettings) where
  record_failure-IsAccounted :
      (c : OutboxClaim) (cause : Cause) (w : World)
      → IsAccounted (record_failure p settings c cause w).0
  unfolding record_failure
  record_failure-IsAccounted c cause w = after_fail-IsAccounted c cause _ _ _

  acknowledge-IsAccounted :
      (c : OutboxClaim) (w : World) → IsAccounted (acknowledge p settings c w).0
  unfolding acknowledge
  acknowledge-IsAccounted c w = after_ack-IsAccounted c _ _ _ _

  -- One claim, on every branch: it is acknowledged exactly when no error is reported, only after its
  -- event was sent, and never together with a failure; a retry is recorded only for a failure.
  dispatch_claim-IsAccounted :
      (c : OutboxClaim) (w : World) → IsAccounted (dispatch_claim p settings c w).0
  unfolding dispatch_claim
  dispatch_claim-IsAccounted c w = elim (Option-cases (p.publish w.tick c.event)) [
    | inl sent ↦ rw (sent, dispatch_claim) (acknowledge-IsAccounted c _)
    | inr (cause, refused) ↦ elim (Option-cases (p.ctx_err (w.tick + 1))) [
      | inl live ↦ rw (refused, live, dispatch_claim) (record_failure-IsAccounted c cause _)
      | inr (e, dead) ↦ rw (refused, dead, dispatch_claim) (ground arith)
    ]
  ]

  -- what the batch has counted so far
  abbrev Counted : ℕ → DispatchResult → Type 0
  Counted seen r =
      (r.acknowledged ≤ r.delivered)
      × (r.retried ≤ r.failed)
      × (r.acknowledged + r.failed ≤ seen)
      × (r.delivered ≤ seen)

  tally-Counted :
      (seen : ℕ) (r : DispatchResult) (c : ClaimResult × List DispatchError)
      → IsAccounted c
      → Counted seen r
      → Counted (seen + 1) (tally p settings r c.0)
  unfolding tally
  tally-Counted seen r c h k = ground arith

  -- the loop, from any counters: `total` is what has been seen when all claims are through
  abbrev BatchFacts :
      ℕ → DispatchResult → List DispatchError → ℕ → DispatchResult × List DispatchError → Type 0
  BatchFacts total result errors n out =
      Counted total out.0
      × (out.0.claimed ≡ result.claimed)
      × (out.0.status ≡ result.status)
      × (is_empty out.1 ≡ true
          → (is_empty errors ≡ true) × (out.0.acknowledged ≡ result.acknowledged + n))

  claimed-tally :
      (r : DispatchResult) (c : ClaimResult)
      → ((tally p settings r c).claimed ≡ r.claimed) × ((tally p settings r c).status ≡ r.status)
  unfolding tally
  claimed-tally r c = (refl, refl)

  acknowledged-tally :
      (r : DispatchResult) (c : ClaimResult × List DispatchError) (errors : List DispatchError)
      → IsAccounted c
      → is_empty (errors ++ c.1) ≡ true
      → (is_empty errors ≡ true) × ((tally p settings r c.0).acknowledged ≡ r.acknowledged + 1)
  unfolding tally
  acknowledged-tally r c [] h e = ground arith
  acknowledged-tally r c (x ∷ errors) h e = absurd (cc)

  append_not_empty :
      (errors : List DispatchError) (e : DispatchError) → is_empty (errors ++ e ∷ []) ≡ false
  append_not_empty [] e = refl
  append_not_empty (x ∷ errors) e = refl

  Counted-mono : (n m : ℕ) (r : DispatchResult) → Counted n r → Counted (n + m) r
  Counted-mono n m r h = omega arith

  extend :
      (seen : ℕ) (result : DispatchResult) (errors : List DispatchError)
      (c : ClaimResult × List DispatchError) (n : ℕ) (out : DispatchResult × List DispatchError)
      → IsAccounted c
      → BatchFacts (seen + 1 + n) (tally p settings result c.0) (errors ++ c.1) n out
      → BatchFacts (seen + suc n) result errors (suc n) out
  extend seen result errors c n out h k =
      ground (arith, claimed-tally result c.0, acknowledged-tally result c errors h)

  dispatch_batch-BatchFacts :
      (seen : ℕ) (result : DispatchResult) (errors : List DispatchError) (claims : List OutboxClaim)
      (w : World)
      → Counted seen result
      → BatchFacts
          (seen + length claims)
          result
          errors
          (length claims)
          (dispatch_batch p settings result errors claims w).0
  unfolding dispatch_batch
  dispatch_batch-BatchFacts seen result errors [] w h = ground arith
  dispatch_batch-BatchFacts seen result errors (c ∷ claims) w h =
      elim (Option-cases (p.ctx_err w.tick)) [
        | inr (e, dead) ↦
            rw (dead, dispatch_batch)
              (ground (
                arith,
                append_not_empty errors
                    (dispatch_error context_stage context_canceled c (context_error e)),
              ))
        | inl live ↦
            let r = dispatch_claim p settings c (advance w) in
            let h' = dispatch_claim-IsAccounted c (advance w) in
            rw (live, dispatch_batch)
              (extend seen result errors r.0 (length claims) _ h' (
                dispatch_batch-BatchFacts (seen + 1) (tally p settings result r.0.0)
                  (errors ++ r.0.1) claims r.1 (tally-Counted seen result r.0 h' h)))
      ]

  -- the result of a whole DispatchOnce, its errors and the category that it leaves
  pub record IsBatchAccounted (out : (DispatchResult × List DispatchError) × World) : Type 0 where
    pub acked_were_sent : out.0.0.acknowledged ≤ out.0.0.delivered
    pub retries_failed : out.0.0.retried ≤ out.0.0.failed
    pub each_once : out.0.0.acknowledged + out.0.0.failed ≤ out.0.0.claimed
    pub sent_claims : out.0.0.delivered ≤ out.0.0.claimed
    pub all_acked : is_empty out.0.1 ≡ true → out.0.0.acknowledged ≡ out.0.0.claimed
    pub refreshed : is_empty out.0.1 ≡ true → is_some out.0.0.status ≡ true
    pub cleared : is_empty out.0.1 ≡ true → 0 < out.0.0.claimed → out.1.last_error ≡ no_error

  claim_dispatch_batch_lem :
      (w : World)
      → let ((r, claims, errors), w') = claim_dispatch_batch p settings w in
        (r ≡ record no_result { claimed = length claims })
  unfolding claim_dispatch_batch
  claim_dispatch_batch_lem w = ground arith

  finalize-IsBatchAccounted :
      (r : DispatchResult) (errors : List DispatchError) (w : World)
      → Counted r.claimed r
      → (is_empty errors ≡ true → (r.acknowledged ≡ r.claimed) × (is_some r.status ≡ true))
      → IsBatchAccounted (finalize p settings r errors w)
  unfolding finalize
  finalize-IsBatchAccounted r errors w h k = ground arith

  refresh_facts :
      (r : DispatchResult) (w : World)
      → let ((r', errors), w') = refresh_dispatch_status p settings r w in
        (r'.claimed ≡ r.claimed)
        × (r'.acknowledged ≡ r.acknowledged)
        × (r'.delivered ≡ r.delivered)
        × (r'.retried ≡ r.retried)
        × (r'.failed ≡ r.failed)
        × (is_empty errors ≡ true → is_some r'.status ≡ true)
  unfolding refresh_dispatch_status
  refresh_facts r w = ground arith

  canceled_not_empty :
      (errors : List DispatchError) → any is_canceled errors ≡ true → is_empty errors ≡ false
  canceled_not_empty [] h = cc
  canceled_not_empty (e ∷ errors) h = refl

  is_empty-append :
      (xs ys : List DispatchError)
      → is_empty (xs ++ ys) ≡ true
      → (is_empty xs ≡ true) × (is_empty ys ≡ true)
  is_empty-append [] ys h = (refl, h)
  is_empty-append (x ∷ xs) ys h = absurd (cc)

  failed_claim-IsBatchAccounted :
      (r : DispatchResult) (claims : List OutboxClaim) (errors : List DispatchError) (w : World)
      → (r ≡ record no_result { claimed = length claims })
      → claims ≡ []
      → is_empty errors ≡ false
      → IsBatchAccounted ((r, errors), w)
  failed_claim-IsBatchAccounted r claims errors w h empty e =
      ground (arith, ap (λ (l : List OutboxClaim). length l) empty)

  claim_failed_lem :
      (w : World)
      → let ((r, claims, errors), w') = claim_dispatch_batch p settings w in
        is_empty errors ≡ false → claims ≡ []
  unfolding claim_dispatch_batch
  claim_failed_lem w = ground arith

  Counted-start : (r : DispatchResult) (n : ℕ) → r ≡ record no_result { claimed = n } → Counted 0 r
  Counted-start r n h = ground arith

  batch_then :
      (claimed : DispatchResult) (claims : List OutboxClaim) (w : World)
      → claimed ≡ record no_result { claimed = length claims }
      → let ((result, errors), w₂) = dispatch_batch p settings claimed [] claims w in
        let ((refreshed, status_errors), w₃) = refresh_dispatch_status p settings result w₂ in
        IsBatchAccounted (finalize p settings refreshed (errors ++ status_errors) w₃)
        × (any is_canceled errors ≡ true → IsBatchAccounted (finalize p settings result errors w₂))
  batch_then claimed claims w h =
      let b = dispatch_batch p settings claimed [] claims w in
      let facts =
        dispatch_batch-BatchFacts 0 claimed [] claims w (Counted-start claimed (length claims) h) in
      let s = refresh_dispatch_status p settings b.0.0 b.1 in
      let kept = refresh_facts b.0.0 b.1 in
      (
        finalize-IsBatchAccounted s.0.0 (b.0.1 ++ s.0.1) s.1 (ground (arith, facts, kept, h)) (λ e.
            let parts = is_empty-append b.0.1 s.0.1 e in ground (arith, facts, kept, h, parts)),
        λ dead.
            finalize-IsBatchAccounted b.0.0 b.0.1 b.1 (ground (arith, facts, h))
              (λ e. ground (arith, canceled_not_empty b.0.1 dead)),
      )

  -- DispatchOnce on every path: each claim is counted at most once as acknowledged or failed, and only
  -- sent events are acknowledged; without an error every claimed event was acknowledged, the status
  -- was read, and a batch that had claims leaves no error category.
  pub dispatch_once-IsBatchAccounted : (w : World) → IsBatchAccounted (dispatch_once p settings w)
  unfolding dispatch_once
  dispatch_once-IsBatchAccounted w =
      let c = claim_dispatch_batch p settings w in
      let start = claim_dispatch_batch_lem w in
      let b = dispatch_batch p settings c.0.0 [] c.0.1 c.1 in
      let done = batch_then c.0.0 c.0.1 c.1 start in
      elim (Bool-cases (is_empty c.0.2)) [
        | inr bad ↦
            rw (bad, dispatch_once)
              (failed_claim-IsBatchAccounted c.0.0 c.0.1 c.0.2 c.1 start (claim_failed_lem w bad)
                bad)
        | inl good ↦ elim (Bool-cases (any is_canceled b.0.1)) [
          | inl dead ↦ rw (good, dead, dispatch_once) (done.1 dead)
          | inr live ↦ rw (good, live, dispatch_once) done.0
        ]
      ]
