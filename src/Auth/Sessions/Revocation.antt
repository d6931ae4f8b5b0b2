-- ===== src/Auth/Sessions/Revocation.antt =====
-- DeleteAllUserSessions together with the task that it submits: the task ends, and no session that was
-- alive at the cut is left.
use aegis_core.Base.{
  ℕ, zero, suc, ◌<◌, ◌≤◌, ◌≡◌, ◌≢◌, refl, sym, ap, ◌∙◌, Bool, true, false, Option, none, some, [],
  ◌∷◌, ltb, length, ◌⊎◌, inl, inr, arith, Bool-cases, Option-cases,
}
use aegis_core.Base.Text.{Uuid}
use aegis_core.Auth.Domain.{SessionId, redis_failed}
use aegis_core.Auth.Keyspace.{Backend, Laws, session_key, user_sessions, purge_sessions, scored}
use aegis_core.Auth.Sessions.{
  run_script, under_link-either, detach_script, ScriptReply, script_ok, script_not_found,
  script_mismatch, script_empty, script_conflict, script_error,
}
use aegis_core.Auth.Sessions.Store.{
  PurgeTask, purge_round, purge_detached, delete_all_user_sessions, done, detached,
}
use aegis_core.Auth.Sessions.Rotation.{under_link-some}
use aegis_core.Auth.Sessions.Purge.{round-more, purge_batch-last, purge_round-read, take-none}
use aegis_core.Auth.Sessions.Reach.{reachable, reachable-entry, IsIndexed}

module _ {S V : Type 0} (b : Backend S V) (laws : Laws b) where
  purge_detached-step :
      (fuel : ℕ) (t : PurgeTask) (s : S)
      → (purge_round b t s).0 ≡ some false
      → purge_detached b (suc fuel) t s ≡ purge_detached b fuel t (purge_round b t s).1
  unfolding purge_detached
  purge_detached-step fuel t s e = rw (e, purge_detached) refl

  purge_detached-lost :
      (fuel : ℕ) (t : PurgeTask) (s : S)
      → (purge_round b t s).0 ≡ none
      → purge_detached b (suc fuel) t s ≡ (some (redis_failed ∷ []), (purge_round b t s).1)
  unfolding purge_detached
  purge_detached-lost fuel t s e = rw (e, purge_detached) refl

  abbrev last_unlink : PurgeTask → S → Option Bool × S
  last_unlink t s =
      run_script b (λ r. (true, b.unlink_index (purge_sessions t.owner t.purge_id) r)) s

  purge_detached-last :
      (fuel : ℕ) (t : PurgeTask) (s : S)
      → (purge_round b t s).0 ≡ some true
      → purge_detached b (suc fuel) t s ≡ (
        some (done (last_unlink t (purge_round b t s).1).0),
        (last_unlink t (purge_round b t s).1).1,
      )
  unfolding purge_detached
  purge_detached-last fuel t s e = rw (e, purge_detached) refl

  round-last :
      (t : PurgeTask) (s : S)
      → (purge_round b t s).0 ≡ some true
      → (b.zrange (purge_sessions t.owner t.purge_id) s ≡ []) × ((purge_round b t s).1 ≡ b.spent s)
  round-last t s e =
      let read = purge_round-read b laws t s true e in
      let (empty, state) = purge_batch-last b laws t _ (b.spent s) (ap (λ x. x.0) (sym read) ∙ e) in
      (take-none b laws _ empty, ap (λ x. x.1) read ∙ state)

  -- With fuel for one round per session that the detached index holds and one more, the loop of the
  -- purge task ends: it returns nil or the error of a lost command, whatever the link does.
  pub purge_detached-Terminates :
      (fuel : ℕ) (t : PurgeTask) (s : S)
      → length (b.zrange (purge_sessions t.owner t.purge_id) s) < fuel
      → (purge_detached b fuel t s).0 ≢ none
  unfolding purge_detached
  purge_detached-Terminates zero t s h e = omega (arith, h)
  purge_detached-Terminates (suc fuel) t s h e = elim (Option-cases (purge_round b t s).0) [
    | inl lost ↦ ground (arith, e, ap (λ x. x.0) (purge_detached-lost fuel t s lost))
    | inr (true, last) ↦ ground (arith, e, ap (λ x. x.0) (purge_detached-last fuel t s last))
    | inr (false, more) ↦
        (let (fewer, gets, entries) = round-more b laws t s more in
          purge_detached-Terminates fuel t (purge_round b t s).1 (omega (arith, fewer, h))
            (ap (λ x. x.0) (sym (purge_detached-step fuel t s more)) ∙ e))
  ]

  last_unlink-get :
      (t : PurgeTask) (j : SessionId) (s : S)
      → b.get (session_key t.owner j) (last_unlink t s).1 ≡ b.get (session_key t.owner j) s
  unfolding run_script
  last_unlink-get t j s =
      let spent = laws.get-spent (session_key t.owner j) s in
      let removed : Bool × S =
        (true, b.unlink_index (purge_sessions t.owner t.purge_id) (b.spent s)) in
      let after =
        laws.get-unlink (purge_sessions t.owner t.purge_id) (session_key t.owner j) (b.spent s)
        ∙ spent in
      under_link-either (λ r. b.get (session_key t.owner j) r ≡ b.get (session_key t.owner j) s)
        (b.link s) removed (b.spent s) after spent

  -- what a purge that ended well did to one session
  purge_detached-clears :
      (fuel : ℕ) (t : PurgeTask) (s : S) (j : SessionId) (sc : ℕ)
      → b.score t.cut_time < sc
      → (purge_detached b fuel t s).0 ≡ some []
      → (b.get (session_key t.owner j) (purge_detached b fuel t s).1 ≡ none)
        ⊎ (b.get (session_key t.owner j) (purge_detached b fuel t s).1
            ≡ b.get (session_key t.owner j) s)
          × (scored j sc (b.zrange (purge_sessions t.owner t.purge_id) s) ≡ false)
  unfolding purge_detached
  purge_detached-clears zero t s j sc later e = ground (arith, e)
  purge_detached-clears (suc fuel) t s j sc later e =
      let index = purge_sessions t.owner t.purge_id in
      let key = session_key t.owner j in
      elim (Option-cases (purge_round b t s).0) [
        | inl lost ↦ ground (arith, e, ap (λ x. x.0) (purge_detached-lost fuel t s lost))
        | inr (true, last) ↦
            (let (empty, state) = round-last t s last in
              inr (
                ap (λ x. b.get key x.1) (purge_detached-last fuel t s last)
                    ∙ last_unlink-get t j _
                    ∙ ap (b.get key) state
                    ∙ laws.get-spent key s,
                ap (scored j sc) empty,
              ))
        | inr (false, more) ↦
            (let (fewer, gets, entries) = round-more b laws t s more in
              let next = purge_detached-step fuel t s more in
              let rest =
                purge_detached-clears fuel t (purge_round b t s).1 j sc later
                  (ap (λ x. x.0) (sym next) ∙ e) in
              let final = ap (λ x. b.get key x.1) next in
              elim rest [
                | inl gone ↦ inl (final ∙ gone)
                | inr (same, unlisted) ↦ elim (gets j) [
                  | inl gone ↦ inl (final ∙ same ∙ gone)
                  | inr kept ↦ elim (Bool-cases (scored j sc (b.zrange index s))) [
                    | inr out ↦ inr (final ∙ same ∙ kept, out)
                    | inl entry ↦ elim (entries j sc later entry) [
                      | inl gone ↦ inl (final ∙ same ∙ gone)
                      | inr listed_ ↦ ground (arith, listed_, unlisted)
                    ]
                  ]
                ]
              ])
      ]

detached-ok :
    (accepted : Bool) (t task : PurgeTask) (o : Option ScriptReply)
    → detached accepted t o ≡ ([], some task)
    → (o ≡ some script_ok) × (t ≡ task)
detached-ok true t task none e = ground (arith, ap (λ x. x.0) e)
detached-ok false t task none e = ground (arith, ap (λ x. x.0) e)
detached-ok true t task (some script_ok) e = (refl, ground (arith, ap (λ x. x.1) e))
detached-ok false t task (some script_ok) e = ground (arith, ap (λ x. x.0) e)
detached-ok true t task (some script_empty) e = ground (arith, ap (λ x. x.1) e)
detached-ok false t task (some script_empty) e = ground (arith, ap (λ x. x.1) e)
detached-ok true t task (some script_not_found) e = ground (arith, ap (λ x. x.0) e)
detached-ok false t task (some script_not_found) e = ground (arith, ap (λ x. x.0) e)
detached-ok true t task (some script_mismatch) e = ground (arith, ap (λ x. x.0) e)
detached-ok false t task (some script_mismatch) e = ground (arith, ap (λ x. x.0) e)
detached-ok true t task (some script_conflict) e = ground (arith, ap (λ x. x.0) e)
detached-ok false t task (some script_conflict) e = ground (arith, ap (λ x. x.0) e)
detached-ok true t task (some script_error) e = ground (arith, ap (λ x. x.0) e)
detached-ok false t task (some script_error) e = ground (arith, ap (λ x. x.0) e)

module _ {S V : Type 0} (b : Backend S V) where
  -- the session can be used after now, by the score of its expiry
  unfoldable pub is_live : Uuid → ℕ → SessionId → S → Bool
  is_live u now j s = elim (b.get (session_key u j) s) [
    | none ↦ false
    | some text ↦ elim (b.unmarshal text) [
      | none ↦ false
      | some p ↦ ltb (b.score now) (b.score p.expires_at)
    ]
  ]

  module _ (laws : Laws b) where
    -- the index was renamed, and nothing else has changed
    delete_all-detached :
        (now : ℕ) (purge : Uuid) (accepted : Bool) (u : Uuid) (s : S) (task : PurgeTask)
        → (delete_all_user_sessions b now (some purge) accepted u s).0 ≡ ([], some task)
        → (task ≡ record { owner = u; purge_id = purge; cut_time = now })
          × ((j : SessionId)
              → b.get (session_key u j) (delete_all_user_sessions b now (some purge) accepted u s).1
                ≡ b.get (session_key u j) s)
          × (b.zrange
                (purge_sessions u purge)
                (delete_all_user_sessions b now (some purge) accepted u s).1
              ≡ b.zrange (user_sessions u) s)
    unfolding delete_all_user_sessions run_script detach_script
    delete_all-detached now purge accepted u s task e =
        let r = b.spent s in
        let from = user_sessions u in
        let to = purge_sessions u purge in
        let renamed = b.rename from to r in
        let script = detach_script b u purge 3600 r in
        let (ok, same) = detached-ok accepted _ task _ e in
        let (replied, state) = under_link-some (b.link s) script r script_ok ok in
        elim (Bool-cases (b.exists from r)) [
          | inr missing ↦ ground (arith, replied, missing)
          | inl there ↦ elim (Bool-cases (b.exists to r)) [
            | inl taken ↦ ground (arith, replied, there, taken)
            | inr free ↦
                (let ran : script.1 ≡ b.pexpire to 3600000 renamed =
                    rw (there, free, detach_script) refl in
                  (
                    sym same,
                    λ j.
                        ap (b.get (session_key u j)) (state ∙ ran)
                        ∙ laws.get-pexpire to 3600000 (session_key u j) renamed
                        ∙ laws.get-rename from to (session_key u j) r
                        ∙ laws.get-spent (session_key u j) s,
                    ap (b.zrange to) (state ∙ ran)
                        ∙ laws.zrange-pexpire to 3600000 to renamed
                        ∙ laws.zrange-rename from to r there free
                        ∙ laws.zrange-spent from s,
                  ))
          ]
        ]

    purged-dead :
        (clock now : ℕ) (purge : Uuid) (u : Uuid) (s after : S) (fuel : ℕ) (j : SessionId)
        → clock ≤ now
        → IsIndexed b u clock s
        → b.get (session_key u j) after ≡ b.get (session_key u j) s
        → b.zrange (purge_sessions u purge) after ≡ b.zrange (user_sessions u) s
        → (purge_detached b fuel (record { owner = u; purge_id = purge; cut_time = now }) after).0
          ≡ some []
        → is_live u now j
            (purge_detached b fuel (record { owner = u; purge_id = purge; cut_time = now }) after).1
          ≡ false
    unfolding is_live reachable
    purged-dead clock now purge u s after fuel j later complete got moved ended =
        let t : PurgeTask = record { owner = u; purge_id = purge; cut_time = now } in
        let f = (purge_detached b fuel t after).1 in
        let mono = laws.score_mono clock now later in
        let whole = complete j in
        elim (Option-cases (b.get (session_key u j) f)) [
          | inl gone ↦ rw (gone, is_live) refl
          | inr (text, found) ↦ elim (Option-cases (b.unmarshal text)) [
            | inl bad ↦ rw (found, is_live, bad) refl
            | inr (p, read) ↦ elim (Bool-cases (ltb (b.score now) (b.score p.expires_at))) [
              | inr past ↦ rw (found, is_live, read, past) refl
              | inl fresh ↦
                  elim (purge_detached-clears b laws fuel t after j (b.score p.expires_at)
                    (ground (arith, fresh)) ended) [
                      | inl gone ↦ ground (arith, gone, found)
                      | inr (same, unlisted) ↦
                          (let stored : b.get (session_key u j) s ≡ some text =
                              sym got ∙ sym same ∙ found in
                            let entry : scored j (b.score p.expires_at)
                                  (b.zrange (user_sessions u) s)
                                ≡ true =
                              reachable-entry b clock j p text s u whole stored read
                                (ground (arith, fresh, mono)) in
                            ground
                              (arith, entry, unlisted, ap (scored j (b.score p.expires_at)) moved))
                    ]
            ]
          ]
        ]

    -- When the index of a user is complete, DeleteAllUserSessions has returned nil and submitted its
    -- task, and the task has run to its end without an error directly after it, no session of the user
    -- that outlives the cut can be read any more, however many batches that took and whatever its fuel.
    pub delete_all_user_sessions-Revokes :
        (clock now : ℕ) (purge : Uuid) (accepted : Bool) (u : Uuid) (s : S) (task : PurgeTask)
        (fuel : ℕ) (j : SessionId)
        → clock ≤ now
        → IsIndexed b u clock s
        → (delete_all_user_sessions b now (some purge) accepted u s).0 ≡ ([], some task)
        → (purge_detached b fuel task
            (delete_all_user_sessions b now (some purge) accepted u s).1).0
          ≡ some []
        → is_live u now j
            (purge_detached b fuel task
              (delete_all_user_sessions b now (some purge) accepted u s).1).1
          ≡ false
    delete_all_user_sessions-Revokes clock now purge accepted u s task fuel j later complete e
          ended =
        let after = (delete_all_user_sessions b now (some purge) accepted u s).1 in
        let (same, gets, ranges) = delete_all-detached now purge accepted u s task e in
        let revoked : (purge_detached b fuel task after).0 ≡ some []
            → is_live u now j (purge_detached b fuel task after).1 ≡ false =
          rw same (purged-dead clock now purge u s after fuel j later complete (gets j) ranges) in
        revoked ended
