-- ===== src/Auth/Sessions/Rotation.antt =====
-- What a call of CreateSession or RotateSession that returns nil has done, and that a session is
-- rotated at most once.
use aegis_core.Base.{
  ℕ, ◌<◌, ◌≤◌, ◌≡◌, ◌≢◌, refl, sym, ap, ◌∙◌, true, false, Option, none, some, [], ◌∷◌, ◌==◌, length,
  ◌⊎◌, inl, inr, arith, Bool-cases,
}
use aegis_core.Base.Int.{ℤ, pos}
use aegis_core.Auth.Domain.{SessionId, AuthSession, failure, auth_session_not_found}
use aegis_core.Auth.Keyspace.{
  Backend, Laws, Link, delivered, request_lost, reply_lost, session_key, user_sessions, TextKey,
  IndexKey,
}
use aegis_core.Auth.Sessions.{
  trim, keep_index, ScriptArgs, create_session_script, rotate_session_script, rotate_writes,
  run_script, under_link, under_link-either, ScriptReply, script_ok, script_not_found,
  script_mismatch, script_empty, script_conflict, script_error,
}
use aegis_core.Auth.Sessions.Store.{
  create_session, rotate_session, script_args, same_owner, created, rotated, stored,
}
use aegis_core.Auth.Sessions.Branches.{rotate_cases, matches}
use aegis_core.Auth.Sessions.Index.{listed}
use aegis_core.Auth.Sessions.Reach.{trimmed-Kept}
use aegis_core.Auth.Sessions.Limits.{kept_index-Capped}

created-ok : (o : Option ScriptReply) → created o ≡ [] → o ≡ some script_ok
created-ok none e = ground (arith, e)
created-ok (some script_ok) e = refl
created-ok (some script_not_found) e = ground (arith, e)
created-ok (some script_mismatch) e = ground (arith, e)
created-ok (some script_empty) e = ground (arith, e)
created-ok (some script_conflict) e = ground (arith, e)
created-ok (some script_error) e = ground (arith, e)

rotated-ok : (o : Option ScriptReply) → rotated o ≡ [] → o ≡ some script_ok
rotated-ok none e = ground (arith, e)
rotated-ok (some script_ok) e = refl
rotated-ok (some script_not_found) e = ground (arith, e)
rotated-ok (some script_mismatch) e = ground (arith, e)
rotated-ok (some script_empty) e = ground (arith, e)
rotated-ok (some script_conflict) e = ground (arith, e)
rotated-ok (some script_error) e = ground (arith, e)

pub under_link-some :
    {S A : Type 0} (l : Link) (r : A × S) (idle : S) (a : A)
    → (under_link l r idle).0 ≡ some a
    → (r.0 ≡ a) × ((under_link l r idle).1 ≡ r.1)
under_link-some delivered r idle a e = (ground (arith, e), refl)
under_link-some request_lost r idle a e = ground (arith, e)
under_link-some reply_lost r idle a e = ground (arith, e)

same_owner-user :
    (new prior : AuthSession) → same_owner new prior ≡ true → new.user_id ≡ prior.user_id
unfolding same_owner
same_owner-user new prior h = ground (arith, h)

module _ {S V : Type 0} (b : Backend S V) where
  -- CreateSession returned nil: the script ran to its end
  create_session-done :
      (now : ℕ) (session : AuthSession) (ttl max : ℤ) (s : S)
      → (create_session b now session ttl max s).0 ≡ []
      → (((script_args b now session ttl max).ttl_ms == 0) ≡ false)
        × ((create_session b now session ttl max s).1
            ≡ (create_session_script b (script_args b now session ttl max) (b.spent s)).1)
  unfolding create_session run_script create_session_script
  create_session-done now session ttl max s e =
      let a = script_args b now session ttl max in
      let (replied, state) =
        under_link-some (b.link s) (create_session_script b a (b.spent s)) (b.spent s) script_ok
          (created-ok _ e) in
      elim (Bool-cases (a.ttl_ms == 0)) [
        | inl zero ↦ ground (arith, replied, zero, create_session_script b a (b.spent s))
        | inr left ↦ (left, state)
      ]

  -- RotateSession returned nil: the prior session was there, and the script ran to its end
  rotate_session-done :
      (now : ℕ) (prior session : AuthSession) (ttl max : ℤ) (s : S)
      → (rotate_session b now prior session ttl max s).0 ≡ []
      → (same_owner session prior ≡ true)
        × (matches b prior (b.spent s) ≡ true)
        × (((script_args b now session ttl max).ttl_ms == 0) ≡ false)
        × ((rotate_session b now prior session ttl max s).1
            ≡ rotate_writes b prior.session_id (script_args b now session ttl max) (b.spent s))
  unfolding rotate_session run_script
  rotate_session-done now prior session ttl max s e =
      let a = script_args b now session ttl max in
      let t = b.spent s in
      let script = rotate_session_script b prior a t in
      elim (Bool-cases (same_owner session prior)) [
        | inr other ↦ ground (arith, other, e)
        | inl same ↦
            (let (replied, state) =
                under_link-some (b.link s) script t script_ok
                  (rotated-ok _ (ground (arith, e, same))) in
              elim (rotate_cases b prior a t) [
                | inl (refused_, kept) ↦ ground (arith, refused_, replied)
                | inr (matched, left, ran) ↦ (same, matched, left, ground (arith, same, state, ran))
              ])
      ]

  -- further calls of RotateSession for one session, towards whatever sessions
  pub data Retried (prior : AuthSession) (s : S) : S → Type 0 where
    no_retry : Retried prior s s
    then_retry :
        {t : S}
        → Retried prior s t
        → (now : ℕ) (other : AuthSession) (ttl max : ℤ)
        → Retried prior s (rotate_session b now prior other ttl max t).1

  -- a RotateSession whose session is not stored runs no write
  rotate_session-unmatched :
      (now : ℕ) (prior other : AuthSession) (ttl max : ℤ) (t : S)
      → matches b prior (b.spent t) ≡ false
      → ((rotate_session b now prior other ttl max t).1 ≡ b.spent t)
        ⊎ ((rotate_session b now prior other ttl max t).1 ≡ t)
  unfolding rotate_session run_script
  rotate_session-unmatched now prior other ttl max t absent =
      let a = script_args b now other ttl max in
      let script = rotate_session_script b prior a (b.spent t) in
      elim (Bool-cases (same_owner other prior)) [
        | inr foreign ↦ inr (ground (arith, foreign))
        | inl same ↦ elim (rotate_cases b prior a (b.spent t)) [
          | inr (matched, left, ran) ↦ ground (arith, matched, absent)
          | inl (refused_, kept) ↦ inl (
              rw (same, rotate_session)
                (under_link-either (λ u. u ≡ b.spent t) (b.link t) script (b.spent t) kept refl))
        ]
      ]

  module _ (laws : Laws b) where
    create_session_script-ran :
        (a : ScriptArgs V) (s : S)
        → (a.ttl_ms == 0) ≡ false
        → (create_session_script b a s).1
          ≡ keep_index b a.user a.index_ttl_ms
              (trim b a.user a.max_sessions (listed b laws a.user a s))
    unfolding create_session_script
    create_session_script-ran a s left = rw (left, create_session_script) refl

    -- CreateSession with a positive limit, when it returns nil, leaves at most that many sessions in the
    -- index of the user, however many it held before.
    pub create_session-Capped :
        (now : ℕ) (session : AuthSession) (ttl : ℤ) (m : ℕ) (s : S)
        → 0 < m
        → (create_session b now session ttl (pos m) s).0 ≡ []
        → length (
            b.zrange (user_sessions session.user_id) (create_session b now session ttl (pos m) s).1)
          ≤ m
    unfolding script_args
    create_session-Capped now session ttl m s some_limit e =
        let a = script_args b now session ttl (pos m) in
        let u = session.user_id in
        let (left, state) = create_session-done now session ttl (pos m) s e in
        let l = listed b laws u a (b.spent s) in
        let cap = kept_index-Capped b laws u a.index_ttl_ms m l some_limit in
        let ran = create_session_script-ran a (b.spent s) left in rw (state ∙ ran) cap

    -- RotateSession with a positive limit does so as well.
    rotate_session-Capped :
        (now : ℕ) (prior session : AuthSession) (ttl : ℤ) (m : ℕ) (s : S)
        → 0 < m
        → (rotate_session b now prior session ttl (pos m) s).0 ≡ []
        → length (
            b.zrange
              (user_sessions session.user_id)
              (rotate_session b now prior session ttl (pos m) s).1)
          ≤ m
    unfolding rotate_writes script_args
    rotate_session-Capped now prior session ttl m s some_limit e =
        let a = script_args b now session ttl (pos m) in
        let (same, matched, left, state) = rotate_session-done now prior session ttl (pos m) s e in
        rw (state, rotate_writes)
          (kept_index-Capped b laws session.user_id a.index_ttl_ms m _ some_limit)

    rotate_writes-consumes :
        (i : SessionId) (a : ScriptArgs V) (s : S)
        → b.get (session_key a.user i) (rotate_writes b i a s) ≡ none
    unfolding rotate_writes
    rotate_writes-consumes i a s =
        let u = a.user in
        let unlisted = b.zrem (user_sessions u) (i ∷ []) (listed b laws u a s) in
        let consumed = b.del (session_key u i) unlisted in
        let gone : b.get (session_key u i) consumed ≡ none =
          ground (arith, laws.get-del (session_key u i) (session_key u i) unlisted) in
        elim (trimmed-Kept b laws u a.max_sessions a.index_ttl_ms i 0 consumed) [
          | inl none_left ↦ none_left
          | inr (same, entry) ↦ same ∙ gone
        ]

    unmatched-same :
        (now : ℕ) (prior other : AuthSession) (ttl max : ℤ) (t : S)
        → matches b prior (b.spent t) ≡ false
        → let u = (rotate_session b now prior other ttl max t).1 in
          ((k : TextKey) → b.get k u ≡ b.get k t) × ((j : IndexKey) → b.zrange j u ≡ b.zrange j t)
    unmatched-same now prior other ttl max t absent =
        elim (rotate_session-unmatched now prior other ttl max t absent) [
          | inl lost ↦ (
            λ k. ap (b.get k) lost ∙ laws.get-spent k t,
            λ j. ap (b.zrange j) lost ∙ laws.zrange-spent j t,
          )
          | inr same ↦ (λ k. ap (b.get k) same, λ j. ap (b.zrange j) same)
        ]

    absent-unmatched :
        (prior : AuthSession) (t : S)
        → b.get (session_key prior.user_id prior.session_id) t ≡ none
        → matches b prior (b.spent t) ≡ false
    unfolding matches
    absent-unmatched prior t gone =
        rw (laws.get-spent (session_key prior.user_id prior.session_id) t ∙ gone, matches) refl

    Retried-same :
        (prior : AuthSession) (s : S) {t : S}
        → b.get (session_key prior.user_id prior.session_id) s ≡ none
        → Retried prior s t
        → ((k : TextKey) → b.get k t ≡ b.get k s) × ((j : IndexKey) → b.zrange j t ≡ b.zrange j s)
    Retried-same prior s gone no_retry = (λ k. refl, λ j. refl)
    Retried-same prior s gone (then_retry {t} before now other ttl max) =
        let (keys, indexes) = Retried-same prior s gone before in
        let absent = absent-unmatched prior t (keys _ ∙ gone) in
        let (one_key, one_index) = unmatched-same now prior other ttl max t absent in
        (λ k. one_key k ∙ keys k, λ j. one_index j ∙ indexes j)

    -- A refresh session is rotated at most once. When RotateSession has returned nil for a session, the
    -- payload stored under it had its user, session id and token version, and GetSession no longer finds
    -- it. After that, and after any number of further calls of RotateSession for it, towards whatever
    -- sessions and whatever the link does, with no other call in between, one more such call returns an
    -- error, and it leaves every key and every index with what they held after the first rotation, so
    -- that none of these calls has created a session.
    pub rotate_session-once :
        (now later : ℕ) (prior new other : AuthSession) (ttl ttl2 max max2 : ℤ) (s t : S)
        → (rotate_session b now prior new ttl max s).0 ≡ []
        → Retried prior (rotate_session b now prior new ttl max s).1 t
        → let after = (rotate_session b now prior new ttl max s).1 in
          let (failed, last) = rotate_session b later prior other ttl2 max2 t in
          (matches b prior (b.spent s) ≡ true)
          × (stored b prior.user_id prior.session_id after ≡ failure (auth_session_not_found ∷ []))
          × (failed ≢ [])
          × ((k : TextKey) → b.get k last ≡ b.get k after)
          × ((j : IndexKey) → b.zrange j last ≡ b.zrange j after)
    unfolding stored script_args
    rotate_session-once now later prior new other ttl ttl2 max max2 s t e retries =
        let a = script_args b now new ttl max in
        let (same, matched, left, state) = rotate_session-done now prior new ttl max s e in
        let own = same_owner-user new prior same in
        let after = (rotate_session b now prior new ttl max s).1 in
        let gone : b.get (session_key prior.user_id prior.session_id) after ≡ none =
          ap (λ v. b.get (session_key v prior.session_id) after) (sym own)
          ∙ ap (b.get (session_key new.user_id prior.session_id)) state
          ∙ rotate_writes-consumes prior.session_id a (b.spent s) in
        let (keys, indexes) = Retried-same prior after gone retries in
        let absent = absent-unmatched prior t (keys _ ∙ gone) in
        let (one_key, one_index) = unmatched-same later prior other ttl2 max2 t absent in
        (
          matched,
          rw (gone, stored) refl,
          λ again.
              let (same2, matched2, left2, state2) =
                rotate_session-done later prior other ttl2 max2 t again in
              ground (arith, matched2, absent),
          λ k. one_key k ∙ keys k,
          λ j. one_index j ∙ indexes j,
        )
