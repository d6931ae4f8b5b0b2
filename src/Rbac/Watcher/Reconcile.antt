-- ===== src/Rbac/Watcher/Reconcile.antt =====
-- What the reconciliations of watcher.go leave, whatever the engine, the database and the context do.
use aegis_core.Base.{
  ◌||◌, not, if◌then◌else◌, ◌≡◌, ◌≢◌, ◌⊎◌, refl, ◌∙◌, inl, inr, Bool, true, false, ◌&&◌, Option,
  none, some, List, [], ◌∷◌, ◌++◌, arith, Option-cases, Bool-cases, is_some, String,
}
use aegis_core.Base.Int.{ℤ, leb_ℤ, ltb_ℤ, ◌≤ℤ◌, ◌<ℤ◌}
use aegis_core.Rbac.Engine.{EngineError, ready}
use aegis_core.Rbac.Sync.{
  PolicyChange, ReloadEngine, Local, all_users, SyncError, new_policy_reload_change,
  requires_reload, is_incomplete,
}
use aegis_core.Rbac.Watcher.{
  Watcher, WatcherErrorCategory, PendingRefreshBatch, watcher_error_none,
  watcher_error_revision_source, watcher_error_reload, invalidate_change, invalidate_changes,
  after_catch_up, fail_unless_ended, conclude, reconcile, at_env, latest_revision,
  mark_reconcile_success, mark_reconcile_failure, catch_up, observe_target_revision, check_version,
  handle_policy_batch,
}

after_catch_up-invalidates :
    {S : Type 0} (gap : Bool) (reason : String) (failed : Option SyncError) (w : Local S)
    → let (out, w') = after_catch_up gap (new_policy_reload_change reason) failed w in
      (out ≡ none → w'.invalidated ≡ w.invalidated ++ all_users ∷ [])
      × (out ≢ none → w'.invalidated ≡ w.invalidated)
unfolding new_policy_reload_change invalidate_change requires_reload
after_catch_up-invalidates gap reason (some e) w = ground arith
after_catch_up-invalidates true reason none w = ground arith
after_catch_up-invalidates false reason none w = ground arith

-- invalidations only add to the list
same_invalidation :
    {S : Type 0} (c : PolicyChange) (a b : Local S)
    → a.invalidated ≡ b.invalidated
    → (invalidate_change c a).invalidated ≡ (invalidate_change c b).invalidated
unfolding invalidate_change
same_invalidation c a b h = ground (arith, h)

same_invalidations :
    {S : Type 0} (cs : List PolicyChange) (a b : Local S)
    → a.invalidated ≡ b.invalidated
    → (invalidate_changes cs a).invalidated ≡ (invalidate_changes cs b).invalidated
same_invalidations [] a b h = h
same_invalidations (c ∷ cs) a b h = same_invalidations cs _ _ (same_invalidation c a b h)

current_parts :
    (latest applied : ℤ) (is_ready : Bool)
    → (leb_ℤ latest applied && is_ready) ≡ true
    → (latest ≤ℤ applied) × (is_ready ≡ true)
current_parts latest applied is_ready h = ground (arith, h)

module _ {S : Type 0} (engine : ReloadEngine S) where
  -- the context as the two readings from this state on see it: live at both, or ended at one
  abbrev pub LiveAt : S → Type 0
  LiveAt s = ((engine.ctx_err s).0 ≡ none) × ((engine.ctx_err (engine.ctx_err s).1).0 ≡ none)

  abbrev pub EndedAt : S → Type 0
  EndedAt s =
      (is_some (engine.ctx_err s).0 ≡ true)
      ⊎ (is_some (engine.ctx_err (engine.ctx_err s).1).0 ≡ true)

  -- the answer of the reload, after the two readings of the engine
  abbrev pub reload_answer : ℤ → S → (ℤ × Option EngineError) × S
  reload_answer target s =
      engine.refresh_to_revision target (engine.projection_status (engine.applied_revision s).1).1

  -- the engine had the target and was ready, or a reload to the target succeeded and left it so
  abbrev pub CaughtUp : ℤ → S → Type 0
  CaughtUp target s =
      let (applied, s₁) = engine.applied_revision s in
      let r = reload_answer target s in
      let after = (engine.projection_status r.1).0 in
      ((target ≤ℤ applied) × (ready (engine.projection_status s₁).0 ≡ true))
      ⊎ ((r.0.1 ≡ none) × (ready after ≡ true) × (target ≤ℤ after.applied_revision))

  -- the engine was behind the target or not ready, and the reload failed or left it so
  abbrev pub Missed : ℤ → S → Type 0
  Missed target s =
      let (applied, s₁) = engine.applied_revision s in
      let r = reload_answer target s in
      let after = (engine.projection_status r.1).0 in
      ((applied <ℤ target) ⊎ (ready (engine.projection_status s₁).0 ≡ false))
      × ((is_some r.0.1 ≡ true) ⊎ (ready after ≡ false) ⊎ (after.applied_revision <ℤ target))

  -- A target observed for a change of the policy: on success, for a gap or not, exactly one more
  -- invalidation was made, of every user; on failure none was.
  observe_target_revision-invalidates :
      (target : ℤ) (reason : String) (w : Local S)
      → let (failed, w') =
          observe_target_revision engine target (new_policy_reload_change reason) w in
        (failed ≡ none → w'.invalidated ≡ w.invalidated ++ all_users ∷ [])
        × (failed ≢ none → w'.invalidated ≡ w.invalidated)
  unfolding observe_target_revision
  observe_target_revision-invalidates target reason w =
      after_catch_up-invalidates _ reason _ (record w { env = _ })

  catch_up-outcome :
      (target : ℤ) (reason : String) (s : S)
      → let r = engine.refresh_to_revision target s in
        let after = (engine.projection_status r.1).0 in
        let failed = (catch_up engine target (new_policy_reload_change reason) s).0 in
        (failed ≡ none → (r.0.1 ≡ none) × (ready after ≡ true) × (target ≤ℤ after.applied_revision))
        × (failed ≢ none
            → (is_some r.0.1 ≡ true) ⊎ (ready after ≡ false) ⊎ (after.applied_revision <ℤ target))
  unfolding catch_up new_policy_reload_change requires_reload
  catch_up-outcome target reason s =
      let r = engine.refresh_to_revision target s in
      let after = (engine.projection_status r.1).0 in
      elim (Option-cases r.0.1) [
        | inr (e, failed) ↦ elim (Option-cases (engine.ctx_err r.1).0) [
          | inr (c, ended) ↦ ground (arith, failed, ended)
          | inl live ↦ ground (arith, failed, live)
        ]
        | inl fine ↦ elim (Bool-cases (is_incomplete target after)) [
          | inl incomplete ↦ ground (arith, fine, incomplete)
          | inr complete ↦ ground (arith, fine, complete)
        ]
      ]

  same_failure :
      (gap : Bool) (change : PolicyChange) (failed : Option SyncError) (w : Local S)
      → (after_catch_up gap change failed w).0 ≡ failed
  same_failure gap change none w = refl
  same_failure gap change (some e) w = refl

  observe-outcome :
      (target : ℤ) (reason : String) (w : Local S)
      → let failed =
          (observe_target_revision engine target (new_policy_reload_change reason) w).0 in
        (failed ≡ none → CaughtUp target w.env) × (failed ≢ none → Missed target w.env)
  unfolding observe_target_revision
  observe-outcome target reason w =
      let (applied, s₁) = engine.applied_revision w.env in
      let (status, s₂) = engine.projection_status s₁ in
      let tried = catch_up-outcome target reason s₂ in
      let behind = ltb_ℤ applied target || not (ready status) in
      let attempt =
        if behind
        then catch_up engine target (new_policy_reload_change reason) s₂
        else (none, s₂) in
      let same =
        same_failure (ltb_ℤ applied target) (new_policy_reload_change reason) attempt.0
          (record w { env = attempt.1 }) in
      elim (Bool-cases behind) [
        | inl lags ↦ (
          λ fine. inr (tried.0 (ground (arith, lags, same, fine))),
          λ failed. (ground (arith, lags), tried.1 (ground (arith, lags, same, failed))),
        )
        | inr current ↦ (
          λ fine. inl (ground (arith, current)),
          λ failed. absurd (ground (arith, current, same, failed)),
        )
      ]

  -- the state of the surroundings in which a reconciliation of this target has tried to catch up
  abbrev pub after_attempt : ℤ → String → Watcher S → S
  after_attempt target reason w =
      (observe_target_revision engine target (new_policy_reload_change reason) w.local).1.env

  -- how a reconciliation with the target ended
  pub data IsConcluded (target : ℤ) (reason : String) (w w' : Watcher S) : Type 0 where
    synchronized :
        CaughtUp target w.local.env
        → w'.reconcile_error_category ≡ watcher_error_none
        → w'.local.invalidated ≡ w.local.invalidated ++ all_users ∷ []
        → IsConcluded target reason w w'
    marked :
        Missed target w.local.env
        → LiveAt (after_attempt target reason w)
        → w'.reconcile_error_category ≡ watcher_error_reload
        → w'.local.invalidated ≡ w.local.invalidated
        → IsConcluded target reason w w'
    gave_up :
        Missed target w.local.env
        → EndedAt (after_attempt target reason w)
        → w'.reconcile_error_category ≡ w.reconcile_error_category
        → w'.local.invalidated ≡ w.local.invalidated
        → IsConcluded target reason w w'

  -- marking a failure writes the category, unless the context is seen ended, and touches no cache
  mark_failure_lem :
      (category : WatcherErrorCategory) (w : Watcher S)
      → let w' = mark_reconcile_failure engine category w in
        (w'.local.invalidated ≡ w.local.invalidated)
        × (((engine.ctx_err w.local.env).0 ≡ none) × (w'.reconcile_error_category ≡ category)
            ⊎ (is_some (engine.ctx_err w.local.env).0 ≡ true)
              × (w'.reconcile_error_category ≡ w.reconcile_error_category))
  unfolding mark_reconcile_failure
  mark_failure_lem category w = elim (Option-cases (engine.ctx_err w.local.env).0) [
    | inl live ↦ rw (live, mark_reconcile_failure) (refl, inl (refl, refl))
    | inr (c, ended) ↦ rw (ended, mark_reconcile_failure) (refl, inr (refl, refl))
  ]

  fail_lem :
      (category : WatcherErrorCategory) (w : Watcher S)
      → let w' = fail_unless_ended engine category w in
        (w'.local.invalidated ≡ w.local.invalidated)
        × (LiveAt w.local.env × (w'.reconcile_error_category ≡ category)
            ⊎ EndedAt w.local.env × (w'.reconcile_error_category ≡ w.reconcile_error_category))
  fail_lem category w = elim (Option-cases (engine.ctx_err w.local.env).0) [
    | inr (c, ended) ↦ rw (ended, fail_unless_ended) (refl, inr (inl (refl), refl))
    | inl live ↦
        let (kept, marks) = mark_failure_lem category (at_env (engine.ctx_err w.local.env).1 w) in
        rw (live, fail_unless_ended)
          (
            kept,
            elim marks [
              | inr (ended, same) ↦ inr (inr ended, same)
              | inl (still, is) ↦ inl ((refl, still), is)
            ],
          )
  ]

  success_lem :
      (w : Watcher S)
      → let w' = mark_reconcile_success engine w in
        (w'.reconcile_error_category ≡ watcher_error_none)
        × (w'.local.invalidated ≡ w.local.invalidated)
  unfolding mark_reconcile_success
  success_lem w = (refl, refl)

  conclude-IsConcluded :
      (target : ℤ) (reason : String) (w : Watcher S)
      → let (failed, l) =
          observe_target_revision engine target (new_policy_reload_change reason) w.local in
        (attempt : Option SyncError)
        → failed ≡ attempt
        → IsConcluded target reason w (conclude engine attempt (record w { local = l }))
  conclude-IsConcluded target reason w none is =
      let (h, k) = observe_target_revision-invalidates target reason w.local in
      let (reached, missed) = observe-outcome target reason w.local in
      let l = (observe_target_revision engine target (new_policy_reload_change reason) w.local).1 in
      let (good, kept) = success_lem (record w { local = l }) in
      synchronized (reached is) good (kept ∙ h is)
  conclude-IsConcluded target reason w (some e) is =
      let (h, k) = observe_target_revision-invalidates target reason w.local in
      let (reached, missed) = observe-outcome target reason w.local in
      let l = (observe_target_revision engine target (new_policy_reload_change reason) w.local).1 in
      let (kept, marks) = fail_lem watcher_error_reload (record w { local = l }) in
      let some_failure : (observe_target_revision engine target (new_policy_reload_change reason)
            w.local).0
          ≢ none =
        λ none_failed. absurd (cc (is, none_failed)) in
      let same = kept ∙ k some_failure in
      elim marks [
        | inr (ended, category) ↦ gave_up (missed some_failure) ended category same
        | inl (live, category) ↦ marked (missed some_failure) live category same
      ]

  reconcile-IsConcluded :
      (target : ℤ) (reason : String) (w : Watcher S)
      → IsConcluded target reason w (reconcile engine target reason w)
  reconcile-IsConcluded target reason w = conclude-IsConcluded target reason w _ refl

  -- A periodic check, on every path. If the revision could not be read, no cache is touched, and the
  -- failure is marked exactly when the two readings of the context that follow see it live. If it was
  -- read, either it was not ahead of the applied revision and the status was ready: then the check is
  -- marked good and no cache is touched. Or it ends as a reconciliation with that revision. Either the
  -- engine had it or a reload to it succeeded and left a ready status with it: marked good, with one
  -- invalidation, of every user. Or the engine was behind and the reload failed or left it behind: no
  -- invalidation, and marked as a failed reload exactly when the two readings that follow the attempt
  -- see the context live, else with the mark as it was.
  pub check_version-IsConcluded :
      (present : Bool) (w : Watcher S)
      → let w' = check_version engine present w in
        let (read, s₁) = latest_revision engine present w.local.env in
        let (local_applied, s₂) = engine.applied_revision s₁ in
        let (status, s₃) = engine.projection_status s₂ in
        (read ≡ none
          → (w'.local.invalidated ≡ w.local.invalidated)
            × (LiveAt s₁ × (w'.reconcile_error_category ≡ watcher_error_revision_source)
                ⊎ EndedAt s₁ × (w'.reconcile_error_category ≡ w.reconcile_error_category)))
        × ((latest : ℤ)
            → read ≡ some latest
            → ((latest ≤ℤ local_applied)
                × (ready status ≡ true)
                × (w'.reconcile_error_category ≡ watcher_error_none)
                × (w'.local.invalidated ≡ w.local.invalidated))
              ⊎ IsConcluded latest "database_revision_check" (at_env s₃ w) w')
  unfolding check_version
  check_version-IsConcluded present w =
      let r = latest_revision engine present w.local.env in
      let (local_applied, s₂) = engine.applied_revision r.1 in
      let (status, s₃) = engine.projection_status s₂ in
      let w₃ = at_env s₃ w in
      (
        λ failed.
            rw (failed, check_version) (fail_lem watcher_error_revision_source (at_env r.1 w)),
        λ latest is. elim (Bool-cases (leb_ℤ latest local_applied && ready status)) [
          | inl current ↦
              let (good, kept) = success_lem w₃ in
              let (low, is_ready) = current_parts latest local_applied (ready status) current in
              rw (is, current, check_version) (inl (low, is_ready, good, kept))
          | inr behind ↦
              rw (is, behind, check_version)
                (inr (reconcile-IsConcluded latest "database_revision_check" w₃))
        ],
      )

  -- A batch with a policy change, on every path. If the revision was read, it ends as a reconciliation
  -- with that revision. If it could not be read and the context has ended then, the mark is as it was
  -- and no cache was touched; if it is live then, each change of the batch was invalidated in order,
  -- and the failure is marked exactly when the next reading of the context sees it live.
  pub handle_policy_batch-IsConcluded :
      (present : Bool) (pending : PendingRefreshBatch) (w : Watcher S)
      → let w' = handle_policy_batch engine present pending w in
        let (read, s₁) = latest_revision engine present (engine.applied_revision w.local.env).1 in
        let next = (engine.ctx_err (engine.ctx_err s₁).1).0 in
        ((latest : ℤ)
          → read ≡ some latest
          → IsConcluded latest pending.policy_reason (at_env s₁ w) w')
        × (read ≡ none
            → (is_some (engine.ctx_err s₁).0 ≡ true)
                × (w'.reconcile_error_category ≡ w.reconcile_error_category)
                × (w'.local.invalidated ≡ w.local.invalidated)
              ⊎ ((engine.ctx_err s₁).0 ≡ none)
                × (w'.local.invalidated ≡ (invalidate_changes pending.changes w.local).invalidated)
                × ((next ≡ none) × (w'.reconcile_error_category ≡ watcher_error_revision_source)
                    ⊎ (is_some next ≡ true)
                      × (w'.reconcile_error_category ≡ w.reconcile_error_category)))
  unfolding handle_policy_batch
  handle_policy_batch-IsConcluded present pending w =
      let r = latest_revision engine present (engine.applied_revision w.local.env).1 in
      (
        λ latest is.
            rw (is, handle_policy_batch)
              (reconcile-IsConcluded latest pending.policy_reason (at_env r.1 w)),
        λ failed. elim (Option-cases (engine.ctx_err r.1).0) [
          | inr (c, ended) ↦ rw (failed, ended, handle_policy_batch) (inl (refl, refl, refl))
          | inl live ↦
              let w₁ = at_env (engine.ctx_err r.1).1 w in
              let (kept, marks) = mark_failure_lem watcher_error_revision_source w₁ in
              rw (failed, live, handle_policy_batch)
                (inr (refl, same_invalidations pending.changes _ _ kept, marks))
        ],
      )
