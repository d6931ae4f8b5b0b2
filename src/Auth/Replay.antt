-- ===== src/Auth/Replay.antt =====
-- The use cases over the Redis adapter: a refresh token that was rotated cannot be used again.
use aegis_core.Base.{◌≡◌, ◌≢◌, refl, sym, ap, ◌∙◌, Bool, true, Option, [], ◌∷◌, arith}
use aegis_core.Base.Int.{ℤ}
use aegis_core.Base.Text.{Uuid}
use aegis_core.Auth.Domain.{
  Result, success, failure, AuthSession, SessionId, auth_session_not_found,
}
use aegis_core.Auth.Keyspace.{Backend, Laws, Link, delivered, request_lost, reply_lost, session_key}
use aegis_core.Auth.Tokens.{Claims, TokenResult}
use aegis_core.Auth.Bearer.{Text}
use aegis_core.Auth.Sessions.Store.{
  create_session, rotate_session, get_session, delete_session, delete_all_user_sessions, stored,
  answered,
}
use aegis_core.Auth.Sessions.Rotation.{no_retry, rotate_session-once}
use aegis_core.Auth.TokenVersions.{
  cache_token_version, get_cached_token_version, delete_cached_token_version,
}
use aegis_core.Auth.PasswordChange.{consume_session, create_password_change_session}
use aegis_core.Auth.Lifecycle.{Ports}
use aegis_core.Auth.UseCases.{Services, refresh}
use aegis_core.Auth.Refresh.{refresh-Authorized, refresh_with_rotation-ok}

module _ {S V : Type 0} (b : Backend S V) where
  -- NewSessionStore as the Redis ports: the other ports, the clock and the limit are those given, and so
  -- are the configured time to live of token versions, the purge ids and the answers of the purge pool
  abbrev pub over_store : Ports S → ℤ → (S → Option Uuid) → (S → Bool) → Ports S
  over_store rest ttl new_id accepted = record rest {
    get_cached_token_version = get_cached_token_version b;
    cache_token_version = cache_token_version b ttl;
    delete_cached_token_version = delete_cached_token_version b;
    create_session = λ session t max s. create_session b (rest.time_now s) session t max s;
    rotate_session = λ prior new t max s. rotate_session b (rest.time_now s) prior new t max s;
    get_session = get_session b;
    delete_session = λ u i s. delete_session b (rest.time_now s) u i s;
    delete_all_user_sessions = λ u s.
        (let answer = delete_all_user_sessions b (rest.time_now s) (new_id s) (accepted s) u s in
          (answer.0.0, answer.1));
    create_password_change_session =
        λ session t s. create_password_change_session b (rest.time_now s) session t s;
    consume_password_change_session = consume_session b;
  }

  answered-success :
      (l : Link) (r : Result AuthSession) (x : AuthSession)
      → answered l r ≡ success x
      → r ≡ success x
  answered-success delivered r x e = e
  answered-success request_lost r x e = ground (arith, e)
  answered-success reply_lost r x e = ground (arith, e)

  get_session-gone :
      (laws : Laws b) (u : Uuid) (i : SessionId) (s : S) (session : AuthSession)
      → stored b u i s ≡ failure (auth_session_not_found ∷ [])
      → (get_session b u i s).0 ≢ success session
  unfolding get_session stored
  get_session-gone laws u i s session gone e =
      let same : stored b u i (b.spent s) ≡ stored b u i s =
        rw (laws.get-spent (session_key u i) s, stored) refl in
      ground (arith, answered-success (b.link s) (stored b u i (b.spent s)) session e, same, gone)

  module _ (laws : Laws b) (rest : Ports S) (ttl : ℤ) (new_id : S → Option Uuid)
      (accepted : S → Bool) (services : Services S) where
    -- Over the Redis adapter and with rotation, a refresh token works once: when a refresh with it has
    -- answered with tokens, no later refresh with the same token, in the state that the first has left,
    -- with rotation or without, answers with tokens. The parser reads one set of claims from the token and
    -- writes nothing, and the payload under the session's key has the session's own id.
    pub refresh-replay :
        (token : Text) (c : Claims) (s : S) (tokens : TokenResult Text) (rotation : Bool)
        (again : TokenResult Text)
        → ((t : S) → (services.parse_refresh_token token t).1 ≡ t)
        → ((t : S) (d : Claims) → (services.parse_refresh_token token t).0 ≡ success d → d ≡ c)
        → ((session : AuthSession)
            → (get_session b c.user_id c.session_id s).0 ≡ success session
            → session.session_id ≡ c.session_id)
        → (refresh (over_store rest ttl new_id accepted) services true token s).0 ≡ success tokens
        → (refresh
            (over_store rest ttl new_id accepted)
            services
            rotation
            token
            (refresh (over_store rest ttl new_id accepted) services true token s).1).0
          ≢ success again
    refresh-replay token c s tokens rotation again pure one keyed e e2 =
        let ports = over_store rest ttl new_id accepted in
        let after = (refresh ports services true token s).1 in
        let (d, session, w2, read, got, owned, bound, known, ran) =
          refresh-Authorized ports services true token s tokens e in
        let (d2, session2, v2, read2, got2, owned2, bound2, known2, ran2) =
          refresh-Authorized ports services rotation token after again e2 in
        let (i, issued, w3, result, rotated, state) =
          refresh_with_rotation-ok ports services d session d.token_version w2 tokens
            (ap (λ r. r.0) (sym ran) ∙ e) in
        let new : AuthSession = record {
          user_id = d.user_id;
          session_id = i;
          token_version = d.token_version;
          expires_at = 0;
        } in
        let max = rest.max_active_sessions in
        let once =
          rotate_session-once b laws (rest.time_now w3) 0 session new new issued.refresh_ttl
            issued.refresh_ttl max max w3 _ rotated no_retry in
        let at_c = λ (t : S) (x : Claims) (is : x ≡ c).
          ap (λ (y : Claims). (get_session b y.user_id y.session_id t).0) (sym is) in
        let read_at = λ (t : S) (x : Claims).
          ap (λ (r : S). (get_session b x.user_id x.session_id r).0) (sym (pure t)) in
        let is_c = one s d read in
        let is_c2 = one after d2 read2 in
        let here_ = at_c s d is_c ∙ read_at s d ∙ got in
        let there_ = at_c after d2 is_c2 ∙ read_at after d2 ∙ got2 in
        let own = owned ∙ ap (λ (x : Claims). x.user_id) is_c in
        let gone : stored b c.user_id c.session_id after ≡ failure (auth_session_not_found ∷ []) =
          ap (λ u. stored b u c.session_id after) (sym own)
          ∙ ap (λ k. stored b session.user_id k after) (sym (keyed session here_))
          ∙ ap (stored b session.user_id session.session_id) (ap (λ r. r.1) ran ∙ state)
          ∙ once.1 in
        get_session-gone laws c.user_id c.session_id after session2 gone there_
