-- ===== src/Auth/Sessions/Reach.antt =====
-- Every state that the operations on a user's refresh sessions lead to keeps its index complete.
use aegis_core.Base.{
  ℕ, ◌<◌, ◌≤◌, ◌≡◌, refl, sym, ap, Bool, true, false, none, some, [], ◌∷◌, ◌==◌, ltb, if◌then◌else◌,
  ◌⊎◌, inl, inr, arith, Bool-cases, Option-cases, ==_iff,
}
use aegis_core.Base.Int.{ℤ}
use aegis_core.Base.Text.{Uuid}
use aegis_core.Auth.Domain.{SessionId, AuthSession}
use aegis_core.Auth.Keyspace.{Backend, Laws, session_key, user_sessions, scored}
use aegis_core.Auth.Sessions.{
  ScriptArgs, trim, keep_index, create_session_script, rotate_writes, rotate_session_script,
  run_script, under_link-either,
}
use aegis_core.Auth.Sessions.Store.{
  create_session, rotate_session, get_session, delete_session, delete_writes, script_args, stored,
  same_owner,
}
use aegis_core.Auth.Sessions.Index.{
  Kept, Kept-trans, listed, listed-other, listed-new, trim-Kept, keep_index-Kept, pruned-Kept,
  consume-Kept,
}
use aegis_core.Auth.Sessions.Branches.{rotate_cases}

module _ {S V : Type 0} (b : Backend S V) where
  -- a stored session whose expiry has a greater score than the clock is in the index with that score
  unfoldable pub reachable : Uuid → ℕ → SessionId → S → Bool
  reachable u clock j s = elim (b.get (session_key u j) s) [
    | none ↦ true
    | some text ↦ elim (b.unmarshal text) [
      | none ↦ true
      | some p ↦
          if ltb (b.score clock) (b.score p.expires_at)
          then scored j (b.score p.expires_at) (b.zrange (user_sessions u) s)
          else true
    ]
  ]

  abbrev pub IsIndexed : Uuid → ℕ → S → Type 0
  IsIndexed u clock s = (j : SessionId) → reachable u clock j s ≡ true

  pub reachable-entry :
      (clock : ℕ) (j : SessionId) (p : AuthSession) (text : V) (s : S) (u : Uuid)
      → reachable u clock j s ≡ true
      → b.get (session_key u j) s ≡ some text
      → b.unmarshal text ≡ some p
      → b.score clock < b.score p.expires_at
      → scored j (b.score p.expires_at) (b.zrange (user_sessions u) s) ≡ true
  unfolding reachable
  reachable-entry clock j p text s u whole stored read fresh =
      ground (arith, whole, stored, read, fresh, reachable)

  reachable-Kept :
      (laws : Laws b) (u : Uuid) (clock now : ℕ) (j : SessionId) (s t : S)
      → clock ≤ now
      → ((sc : ℕ) → b.score now < sc → Kept b laws u j sc s t)
      → reachable u clock j s ≡ true
      → reachable u now j t ≡ true
  unfolding reachable
  reachable-Kept laws u clock now j s t later kept old =
      let mono = laws.score_mono clock now later in
      elim (Option-cases (b.get (session_key u j) t)) [
        | inl gone ↦ rw (gone, reachable) refl
        | inr (text, got) ↦ elim (Option-cases (b.unmarshal text)) [
          | inl bad ↦ rw (got, reachable, bad) refl
          | inr (p, read) ↦ elim (Bool-cases (ltb (b.score now) (b.score p.expires_at))) [
            | inr past ↦ rw (got, reachable, read, past) refl
            | inl fresh ↦ elim (kept (b.score p.expires_at) (ground (arith, fresh))) [
              | inl gone ↦ ground (arith, gone, got)
              | inr (same, entry) ↦
                  ground (arith, got, read, fresh, mono, same, entry, old, reachable)
            ]
          ]
        ]
      ]

  module _ (laws : Laws b) where
    -- the new session that both scripts write, with its entry
    listed-reachable :
        (a : ScriptArgs V) (clock now : ℕ) (p : AuthSession) (j : SessionId) (s : S)
        → clock ≤ now
        → a.payload ≡ b.marshal p
        → a.expiry_score ≡ b.score p.expires_at
        → a.now_score ≡ b.score now
        → (a.ttl_ms == 0) ≡ false
        → reachable a.user clock j s ≡ true
        → reachable a.user now j (listed b laws a.user a s) ≡ true
    unfolding reachable
    listed-reachable a clock now p j s later text score at ttl old =
        elim (Bool-cases (a.new_id == j)) [
          | inr other ↦
              reachable-Kept laws a.user clock now j s (listed b laws a.user a s) later
                (λ sc after. listed-other b laws a.user a j sc s ttl other (rw at after)) old
          | inl is ↦ rw (sym ((==_iff a.new_id j).0 is)) (
              let (got, entry) = listed-new b laws a.user a s ttl in
              ground (arith, got, entry, text, score, reachable, laws.unmarshal-marshal p))
        ]

    spent-Kept : (u : Uuid) (j : SessionId) (sc : ℕ) (s : S) → Kept b laws u j sc s (b.spent s)
    spent-Kept u j sc s = inr (
      laws.get-spent (session_key u j) s,
      ap (scored j sc) (laws.zrange-spent (user_sessions u) s),
    )

    spent-reachable :
        (u : Uuid) (clock now : ℕ) (j : SessionId) (s : S)
        → clock ≤ now
        → reachable u clock j s ≡ true
        → reachable u now j (b.spent s) ≡ true
    spent-reachable u clock now j s later old =
        reachable-Kept laws u clock now j s (b.spent s) later (λ sc after. spent-Kept u j sc s) old

    -- a script that keeps the index complete does so under every answer of the link
    run_script-reachable :
        {A : Type 0} (f : S → A × S) (u : Uuid) (clock now : ℕ) (j : SessionId) (s : S)
        → clock ≤ now
        → reachable u clock j s ≡ true
        → ((t : S) → reachable u clock j t ≡ true → reachable u now j (f t).1 ≡ true)
        → reachable u now j (run_script b f s).1 ≡ true
    unfolding run_script
    run_script-reachable f u clock now j s later old kept =
        let same = spent-reachable u clock now j s later old in
        let ran = kept (b.spent s) (spent-reachable u clock clock j s (omega arith) old) in
        under_link-either (λ t. reachable u now j t ≡ true) (b.link s) (f (b.spent s)) (b.spent s)
          ran same

    pub trimmed-Kept :
        (u : Uuid) (max : ℤ) (n : ℕ) (j : SessionId) (sc : ℕ) (s : S)
        → Kept b laws u j sc s (keep_index b u n (trim b u max s))
    trimmed-Kept u max n j sc s =
        let t = trim b u max s in
        Kept-trans b laws u j sc s t (keep_index b u n t) (trim-Kept b laws u max j sc s)
          (keep_index-Kept b laws u n j sc t)

    created-reachable :
        (now : ℕ) (session : AuthSession) (ttl max : ℤ) (clock : ℕ) (j : SessionId) (s : S)
        → clock ≤ now
        → reachable session.user_id clock j s ≡ true
        → reachable session.user_id now j
            (create_session_script b (script_args b now session ttl max) s).1
          ≡ true
    unfolding create_session_script script_args
    created-reachable now session ttl max clock j s later old =
        let a = script_args b now session ttl max in
        let u = session.user_id in
        elim (Bool-cases (a.ttl_ms == 0)) [
          | inl none_left ↦
              rw none_left
                (reachable-Kept laws u clock now j s s later (λ sc after. inr (refl, refl)) old)
          | inr some_left ↦ rw some_left (
              reachable-Kept laws u now now j (listed b laws u a s) _ (omega arith)
                (λ sc after.
                  trimmed-Kept u a.max_sessions a.index_ttl_ms j sc (listed b laws u a s))
                (listed-reachable a clock now _ j s later refl refl refl some_left old))
        ]

    rotated-reachable :
        (now : ℕ) (prior session : AuthSession) (ttl max : ℤ) (clock : ℕ) (j : SessionId) (s : S)
        → clock ≤ now
        → reachable session.user_id clock j s ≡ true
        → reachable session.user_id now j
            (rotate_session_script b prior (script_args b now session ttl max) s).1
          ≡ true
    unfolding rotate_writes script_args
    rotated-reachable now prior session ttl max clock j s later old =
        let a = script_args b now session ttl max in
        let u = session.user_id in
        let l = listed b laws u a s in
        let unlisted = b.zrem (user_sessions u) (prior.session_id ∷ []) l in
        let consumed = b.del (session_key u prior.session_id) unlisted in
        elim (rotate_cases b prior a s) [
          | inl (refused_, same) ↦
              rw same
                (reachable-Kept laws u clock now j s s later (λ sc after. inr (refl, refl)) old)
          | inr (matched, left, ran) ↦ rw ran (
              reachable-Kept laws u now now j l _ (omega arith)
                (λ sc after.
                  Kept-trans b laws u j sc l consumed _
                    (consume-Kept b laws u prior.session_id j sc l)
                    (trimmed-Kept u a.max_sessions a.index_ttl_ms j sc consumed))
                (listed-reachable a clock now _ j s later refl refl refl left old))
        ]

    deleted-reachable :
        (now : ℕ) (u : Uuid) (i : SessionId) (clock : ℕ) (j : SessionId) (s : S)
        → clock ≤ now
        → reachable u clock j s ≡ true
        → reachable u now j (delete_writes b now u i s) ≡ true
    unfolding delete_writes
    deleted-reachable now u i clock j s later old =
        reachable-Kept laws u clock now j s _ later
          (λ sc after. pruned-Kept b laws u i j (b.score now) sc s after) old

  -- what happens to the sessions of one user: the operations of SessionStore, and Redis dropping
  -- session keys whose time to live is over
  pub data SessionStep : Uuid → ℕ → S → ℕ → S → Type 0 where
    step_create :
        (clock now : ℕ) (session : AuthSession) (ttl max : ℤ) (s : S)
        → clock ≤ now
        → SessionStep session.user_id clock s now (create_session b now session ttl max s).1
    step_rotate :
        (clock now : ℕ) (prior session : AuthSession) (ttl max : ℤ) (s : S)
        → clock ≤ now
        → SessionStep session.user_id clock s now (rotate_session b now prior session ttl max s).1
    step_get :
        (u : Uuid) (clock : ℕ) (i : SessionId) (s : S)
        → SessionStep u clock s clock (get_session b u i s).1
    step_delete :
        (u : Uuid) (clock now : ℕ) (i : SessionId) (s : S)
        → clock ≤ now
        → SessionStep u clock s now (delete_session b now u i s).1
    step_expire :
        (u : Uuid) (clock : ℕ) (s t : S)
        → ((j : SessionId)
            → (b.get (session_key u j) t ≡ none)
              ⊎ (b.get (session_key u j) t ≡ b.get (session_key u j) s))
        → b.zrange (user_sessions u) t ≡ b.zrange (user_sessions u) s
        → SessionStep u clock s clock t

  pub data SessionReach (u : Uuid) (clock : ℕ) (s : S) : ℕ → S → Type 0 where
    at_start : SessionReach u clock s clock s
    and_step :
        {now after : ℕ} {t r : S}
        → SessionReach u clock s now t
        → SessionStep u now t after r
        → SessionReach u clock s after r

  module _ (laws : Laws b) where
    create_session-reachable :
        (now : ℕ) (session : AuthSession) (ttl max : ℤ) (clock : ℕ) (j : SessionId) (s : S)
        → clock ≤ now
        → reachable session.user_id clock j s ≡ true
        → reachable session.user_id now j (create_session b now session ttl max s).1 ≡ true
    unfolding create_session
    create_session-reachable now session ttl max clock j s later old =
        run_script-reachable laws (create_session_script b (script_args b now session ttl max))
          session.user_id clock now j s later old
          (λ t held. created-reachable laws now session ttl max clock j t later held)

    rotate_session-reachable :
        (now : ℕ) (prior session : AuthSession) (ttl max : ℤ) (clock : ℕ) (j : SessionId) (s : S)
        → clock ≤ now
        → reachable session.user_id clock j s ≡ true
        → reachable session.user_id now j (rotate_session b now prior session ttl max s).1 ≡ true
    unfolding rotate_session
    rotate_session-reachable now prior session ttl max clock j s later old =
        elim (Bool-cases (same_owner session prior)) [
          | inl same ↦
              rw (same, rotate_session)
                (run_script-reachable laws
                  (rotate_session_script b prior (script_args b now session ttl max))
                  session.user_id clock now j s later old
                  (λ t held. rotated-reachable laws now prior session ttl max clock j t later held))
          | inr other ↦
              rw (other, rotate_session)
                (reachable-Kept laws session.user_id clock now j s s later
                  (λ sc after. inr (refl, refl)) old)
        ]

    delete_session-reachable :
        (now : ℕ) (u : Uuid) (i : SessionId) (clock : ℕ) (j : SessionId) (s : S)
        → clock ≤ now
        → reachable u clock j s ≡ true
        → reachable u now j (delete_session b now u i s).1 ≡ true
    unfolding delete_session
    delete_session-reachable now u i clock j s later old =
        run_script-reachable laws (λ t. (true, delete_writes b now u i t)) u clock now j s later old
          (λ t held. deleted-reachable laws now u i clock j t later held)

    get_session-state : (u : Uuid) (i : SessionId) (s : S) → (get_session b u i s).1 ≡ b.spent s
    unfolding get_session
    get_session-state u i s = refl

    step-reachable :
        {u : Uuid} {clock now : ℕ} {s t : S} (j : SessionId)
        → SessionStep u clock s now t
        → reachable u clock j s ≡ true
        → reachable u now j t ≡ true
    step-reachable j (step_create clock now session ttl max s later) held =
        create_session-reachable now session ttl max clock j s later held
    step-reachable j (step_rotate clock now prior session ttl max s later) held =
        rotate_session-reachable now prior session ttl max clock j s later held
    step-reachable j (step_get u clock i s) held =
        rw (get_session-state u i s) (spent-reachable laws u clock clock j s (omega arith) held)
    step-reachable j (step_delete u clock now i s later) held =
        delete_session-reachable now u i clock j s later held
    step-reachable j (step_expire u clock s t drops same) held =
        reachable-Kept laws u clock clock j s t (omega arith)
          (λ sc after. elim (drops j) [
            | inl gone ↦ inl gone
            | inr kept ↦ inr (kept, ap (scored j sc) same)
          ])
          held

    -- From a state whose index of the user is complete, every sequence of creations, rotations, reads
    -- and deletions of sessions of the user, whatever the link does to each call, and of session keys
    -- that Redis drops at the end of their time to live, under a clock that does not go back, leads to a
    -- state whose index is complete: each stored session that still counts as unexpired is listed with
    -- the score of its expiry.
    pub SessionReach-IsIndexed :
        (u : Uuid) (clock : ℕ) (s : S) (now : ℕ) (t : S)
        → SessionReach u clock s now t
        → IsIndexed u clock s
        → IsIndexed u now t
    SessionReach-IsIndexed u clock s now t at_start held j = held j
    SessionReach-IsIndexed u clock s now t (and_step {now = n} {t = m} before step) held j =
        step-reachable j step (SessionReach-IsIndexed u clock s n m before held j)
