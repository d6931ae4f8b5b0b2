-- ===== src/Auth/PasswordChange.antt =====
-- user-service/internal/features/auth/infrastructure/redis/password_change_session_store.go with
-- scripts/consume_password_change_session.lua: the one-time sessions of the forced password change.
use aegis_core.Base.{
  ℕ, ◌*◌, ◌+◌, ◌/◌, ◌≡◌, ◌≢◌, refl, ap, ◌∙◌, Bool, true, false, ◌&&◌, Option, none, some, [], ◌∷◌,
  ◌==◌, if◌then◌else◌, arith, Bool-cases, Option-cases, inl, inr, is_some, ◌⊎◌,
}
use aegis_core.Base.Int.{ℤ, pos, pos_part, leb_ℤ}
use aegis_core.Base.Text.{Uuid}
use aegis_core.Auth.Domain.{
  PasswordChangeSession, SessionId, Error, same_int, redis_failed, session_exists,
  password_change_session_not_found, password_change_session_mismatch,
}
use aegis_core.Auth.Keyspace.{
  Backend, Laws, LuaSession, TextKey, password_change_key, same_text_key,
}
use aegis_core.Auth.Sessions.{
  run_script, under_link-either, ScriptReply, script_ok, script_not_found, script_mismatch,
  script_empty, script_conflict, script_error,
}
use aegis_core.Auth.Sessions.Rotation.{under_link-some}

-- defaultPasswordChangeSessionTTL
abbrev default_ttl : ℕ
default_ttl = 300 * 1000000000

unfoldable pub password_change_ttl : ℤ → ℕ
password_change_ttl ttl = if leb_ℤ ttl (pos 0) then default_ttl else pos_part ttl

abbrev pub consumed : Option ScriptReply → Error
consumed (some script_ok) = []
consumed (some script_not_found) = password_change_session_not_found ∷ []
consumed (some script_mismatch) = password_change_session_mismatch ∷ []
consumed _ = redis_failed ∷ []

abbrev created : Option (Option Bool) → Error
created (some (some true)) = []
created (some (some false)) = session_exists ∷ []
created _ = redis_failed ∷ []

abbrev revoked : Option Bool → Error
revoked none = redis_failed ∷ []
revoked (some ok) = []

unfoldable pub same_fields : PasswordChangeSession → LuaSession → Bool
same_fields expected l =
    l.user_id == expected.user_id
    && l.session_id == expected.session_id
    && l.token_id == expected.token_id
    && same_int l.token_version expected.token_version

module _ {S V : Type 0} (b : Backend S V) where
  -- consume_password_change_session.lua
  unfoldable pub consume_script : PasswordChangeSession → S → ScriptReply × S
  unfolding same_fields
  consume_script expected s =
      let key = password_change_key expected.user_id expected.session_id in
      elim (b.get key s) [
        | none ↦ (script_not_found, s)
        | some text ↦ elim (b.lua_session text) [
          | none ↦ (script_mismatch, s)
          | some l ↦
              if same_fields expected l then (script_ok, b.del key s) else (script_mismatch, s)
        ]
      ]

  -- SessionStore.ConsumePasswordChangeSession
  unfoldable pub consume_session : PasswordChangeSession → S → Error × S
  unfolding consume_script run_script
  consume_session expected s =
      let answer = run_script b (consume_script expected) s in (consumed answer.0, answer.1)

  -- SET with NX and PX; none when Redis refuses the time to live
  unfoldable pub set_nx : PasswordChangeSession → ℕ → S → Option Bool × S
  set_nx session ttl_ms s =
      let key = password_change_key session.user_id session.session_id in
      if ttl_ms == 0
      then (none, s)
      else if is_some (b.get key s)
      then (some false, s)
      else (some true, b.set_px key (b.marshal_password_change session) ttl_ms s)

  -- SessionStore.CreatePasswordChangeSession
  unfoldable pub create_password_change_session : ℕ → PasswordChangeSession → ℤ → S → Error × S
  unfolding set_nx run_script password_change_ttl
  create_password_change_session now session ttl s =
      let stamped = record session { expires_at = now + password_change_ttl ttl } in
      let answer = run_script b (set_nx stamped (password_change_ttl ttl / 1000000)) s in
      (created answer.0, answer.1)

  -- SessionStore.RevokePasswordChangeSession
  unfoldable pub revoke_password_change_session : Uuid → SessionId → S → Error × S
  unfolding run_script
  revoke_password_change_session u i s =
      let answer = run_script b (λ t. (true, b.del (password_change_key u i) t)) s in
      (revoked answer.0, answer.1)

  consumed-ok : (o : Option ScriptReply) → consumed o ≡ [] → o ≡ some script_ok
  consumed-ok none e = ground (arith, e)
  consumed-ok (some script_ok) e = refl
  consumed-ok (some script_not_found) e = ground (arith, e)
  consumed-ok (some script_mismatch) e = ground (arith, e)
  consumed-ok (some script_empty) e = ground (arith, e)
  consumed-ok (some script_conflict) e = ground (arith, e)
  consumed-ok (some script_error) e = ground (arith, e)

  -- the stored payload has the user, the session, the token and the version of the claims
  unfoldable pub payload_matches : PasswordChangeSession → S → Bool
  unfolding same_fields
  payload_matches expected s =
      elim (b.get (password_change_key expected.user_id expected.session_id) s) [
        | none ↦ false
        | some text ↦ elim (b.lua_session text) [ none ↦ false | some l ↦ same_fields expected l ]
      ]

  consume_script-cases :
      (expected : PasswordChangeSession) (s : S)
      → ((consume_script expected s).0 ≡ script_ok)
      → (payload_matches expected s ≡ true)
        × ((consume_script expected s).1
            ≡ b.del (password_change_key expected.user_id expected.session_id) s)
  unfolding consume_script payload_matches
  consume_script-cases expected s e =
      elim (Option-cases (b.get (password_change_key expected.user_id expected.session_id) s)) [
        | inl gone ↦ ground (arith, e, gone)
        | inr (text, got) ↦ elim (Option-cases (b.lua_session text)) [
          | inl bad ↦ ground (arith, e, got, bad)
          | inr (l, read) ↦ elim (Bool-cases (same_fields expected l)) [
            | inr other ↦ ground (arith, e, got, read, other)
            | inl same ↦ rw (got, consume_script, payload_matches, read, same) (refl, refl)
          ]
        ]
      ]

  consume_session-done :
      (expected : PasswordChangeSession) (s : S)
      → (consume_session expected s).0 ≡ []
      → (payload_matches expected (b.spent s) ≡ true)
        × ((consume_session expected s).1
            ≡ b.del (password_change_key expected.user_id expected.session_id) (b.spent s))
  unfolding consume_session run_script
  consume_session-done expected s e =
      let script = consume_script expected (b.spent s) in
      let (replied, state) =
        under_link-some (b.link s) script (b.spent s) script_ok (consumed-ok _ e) in
      let (same, removed) = consume_script-cases expected (b.spent s) replied in
      (same, state ∙ removed)

  -- calls of the store that create no session under this user and session id
  pub data Unmade (u : Uuid) (i : SessionId) (s : S) : S → Type 0 where
    no_call : Unmade u i s s
    then_consume :
        {t : S}
        → Unmade u i s t
        → (expected : PasswordChangeSession) → Unmade u i s (consume_session expected t).1
    then_revoke :
        {t : S}
        → Unmade u i s t
        → (v : Uuid) (j : SessionId) → Unmade u i s (revoke_password_change_session v j t).1
    then_create :
        {t : S}
        → Unmade u i s t
        → (now : ℕ) (session : PasswordChangeSession) (ttl : ℤ)
        → same_text_key
            (password_change_key session.user_id session.session_id)
            (password_change_key u i)
          ≡ false
        → Unmade u i s (create_password_change_session now session ttl t).1

  consume_script-writes :
      (expected : PasswordChangeSession) (s : S)
      → ((consume_script expected s).1 ≡ s)
        ⊎ ((consume_script expected s).1
            ≡ b.del (password_change_key expected.user_id expected.session_id) s)
  unfolding consume_script
  consume_script-writes expected s =
      elim (Option-cases (b.get (password_change_key expected.user_id expected.session_id) s)) [
        | inl gone ↦ rw (gone, consume_script) (inl refl)
        | inr (text, got) ↦ elim (Option-cases (b.lua_session text)) [
          | inl bad ↦ rw (got, consume_script, bad) (inl refl)
          | inr (l, read) ↦ elim (Bool-cases (same_fields expected l)) [
            | inr other ↦ rw (got, consume_script, read, other) (inl refl)
            | inl same ↦ rw (got, consume_script, read, same) (inr refl)
          ]
        ]
      ]

  module _ (laws : Laws b) (u : Uuid) (i : SessionId) where
    abbrev IsGone : S → Type 0
    IsGone s = b.get (password_change_key u i) s ≡ none

    spent-IsGone : (s : S) → IsGone s → IsGone (b.spent s)
    spent-IsGone s gone = laws.get-spent (password_change_key u i) s ∙ gone

    del-IsGone : (k : TextKey) (s : S) → IsGone s → IsGone (b.del k s)
    del-IsGone k s gone = ground (arith, laws.get-del k (password_change_key u i) s, gone)

    set_nx-IsGone :
        (session : PasswordChangeSession) (ttl_ms : ℕ) (s : S)
        → same_text_key
            (password_change_key session.user_id session.session_id)
            (password_change_key u i)
          ≡ false
        → IsGone s
        → IsGone (set_nx session ttl_ms s).1
    unfolding set_nx
    set_nx-IsGone session ttl_ms s other gone =
        let key = password_change_key session.user_id session.session_id in
        elim (Bool-cases (ttl_ms == 0)) [
          | inl zero_ttl ↦ rw (zero_ttl, set_nx) gone
          | inr some_ttl ↦ elim (Bool-cases (is_some (b.get key s))) [
            | inl there ↦ rw (some_ttl, there, set_nx) gone
            | inr free ↦
                let kept =
                  laws.get-set key (password_change_key u i) (b.marshal_password_change session)
                    ttl_ms s some_ttl in
                rw (some_ttl, free, set_nx) (kept ∙ rw other gone)
          ]
        ]

    Unmade-IsGone : {s t : S} → IsGone s → Unmade u i s t → IsGone t
    unfolding consume_session revoke_password_change_session create_password_change_session
        run_script
    Unmade-IsGone gone no_call = gone
    Unmade-IsGone gone (then_consume {t} before expected) =
        let kept = spent-IsGone t (Unmade-IsGone gone before) in
        let ran : IsGone (consume_script expected (b.spent t)).1 =
          elim (consume_script-writes expected (b.spent t)) [
            | inl same ↦ ap (b.get (password_change_key u i)) same ∙ kept
            | inr deleted ↦
                ap (b.get (password_change_key u i)) deleted
                ∙ del-IsGone (password_change_key expected.user_id expected.session_id) (b.spent t)
                    kept
          ] in
        under_link-either IsGone (b.link t) (consume_script expected (b.spent t)) (b.spent t) ran
          kept
    Unmade-IsGone gone (then_revoke {t} before v j) =
        let kept = spent-IsGone t (Unmade-IsGone gone before) in
        under_link-either IsGone (b.link t) (true, b.del (password_change_key v j) (b.spent t))
          (b.spent t) (del-IsGone (password_change_key v j) (b.spent t) kept) kept
    Unmade-IsGone gone (then_create {t} before now session ttl other) =
        let kept = spent-IsGone t (Unmade-IsGone gone before) in
        let stamped = record session { expires_at = now + password_change_ttl ttl } in
        let ms = password_change_ttl ttl / 1000000 in
        under_link-either IsGone (b.link t) (set_nx stamped ms (b.spent t)) (b.spent t)
          (set_nx-IsGone stamped ms (b.spent t) other kept) kept

  -- A one-time password change session is consumed at most once: ConsumePasswordChangeSession returns nil
  -- only where the stored payload has the user, session, token and version of the claims. After that, and
  -- after any further calls of consume, revoke and create, of which none creates a session of this user
  -- and session id again, and whatever the link does, a call with the same user and session id, whatever
  -- its other claims, returns an error.
  pub consume_session-once :
      (laws : Laws b) (expected again : PasswordChangeSession) (s t : S)
      → again.user_id ≡ expected.user_id
      → again.session_id ≡ expected.session_id
      → (consume_session expected s).0 ≡ []
      → Unmade expected.user_id expected.session_id (consume_session expected s).1 t
      → (payload_matches expected (b.spent s) ≡ true) × ((consume_session again t).0 ≢ [])
  unfolding payload_matches
  consume_session-once laws expected again s t own named e calls =
      let (same, state) = consume_session-done expected s e in
      let key = password_change_key expected.user_id expected.session_id in
      let removed : b.get key (consume_session expected s).1 ≡ none =
        ap (b.get key) state ∙ laws.get-del key key (b.spent s) ∙ ground arith in
      let gone = Unmade-IsGone laws expected.user_id expected.session_id removed calls in
      let key2 = password_change_key again.user_id again.session_id in
      let gone2 : b.get key2 (b.spent t) ≡ none =
        laws.get-spent key2 t ∙ ap (λ k. b.get k t) (cc (own, named)) ∙ gone in
      let unmatched : payload_matches again (b.spent t) ≡ false =
        rw (gone2, payload_matches) refl in
      (
        same,
        λ twice.
            let (same2, state2) = consume_session-done again t twice in
            ground (arith, same2, unmatched),
      )
