-- ===== src/Auth/Sessions/Store.antt =====
-- The operations of SessionStore on refresh sessions (refresh_session_store.go), and the task that
-- deletes the sessions of a detached index. Instants and durations are nanoseconds.
use aegis_core.Base.{
  ℕ, zero, suc, ◌+◌, ◌*◌, ◌/◌, Bool, true, false, ◌&&◌, Option, none, some, List, [], ◌∷◌, ◌==◌,
  ltb, if◌then◌else◌, take,
}
use aegis_core.Base.Int.{ℤ, pos, pos_part, leb_ℤ}
use aegis_core.Base.Text.{Uuid}
use aegis_core.Auth.Domain.{
  SessionId, AuthSession, Error, Result, success, failure, same_int, auth_session_not_found,
  auth_session_mismatch, redis_failed, session_unreadable, purge_conflict, purge_rejected,
  entropy_failed,
}
use aegis_core.Auth.Keyspace.{
  Backend, Link, delivered, Member, session_key, user_sessions, purge_sessions,
}
use aegis_core.Auth.Sessions.{
  ScriptReply, script_ok, script_not_found, script_mismatch, script_empty, script_conflict,
  ScriptArgs, ids, run_script, and_then, create_session_script, rotate_session_script,
  detach_script,
}

-- defaultAuthSessionTTL, and authSessionIndexTTLBuffer
abbrev default_session_ttl : ℕ
default_session_ttl = 3600 * 1000000000

abbrev index_ttl_buffer : ℕ
index_ttl_buffer = 300 * 1000000000

-- deleteAllUserSessionsPurgeTTL in seconds, and deleteAllUserSessionsBatchSize
abbrev purge_ttl : ℕ
purge_ttl = 3600

abbrev pub batch_size : ℕ
batch_size = 500

-- the time to live that both writers use
unfoldable pub session_ttl : ℤ → ℕ
session_ttl ttl = if leb_ℤ ttl (pos 0) then default_session_ttl else pos_part ttl

-- milliseconds of session_store_codec.go
abbrev milliseconds : ℕ → ℕ
milliseconds t = t / 1000000

abbrev pub created : Option ScriptReply → Error
created (some script_ok) = []
created _ = redis_failed ∷ []

abbrev pub rotated : Option ScriptReply → Error
rotated (some script_ok) = []
rotated (some script_not_found) = auth_session_not_found ∷ []
rotated (some script_mismatch) = auth_session_mismatch ∷ []
rotated _ = redis_failed ∷ []

abbrev pub done : Option Bool → Error
done none = redis_failed ∷ []
done (some u) = []

-- a read whose reply may be lost
abbrev pub answered : {A : Type 0} → Link → Result A → Result A
answered delivered r = r
answered _ r = failure (redis_failed ∷ [])

-- the first guard of RotateSession
unfoldable pub same_owner : AuthSession → AuthSession → Bool
same_owner new old = new.user_id == old.user_id && same_int new.token_version old.token_version

-- what the background task of DeleteAllUserSessions keeps
pub record PurgeTask : Type 0 where
  pub owner : Uuid
  pub purge_id : Uuid
  pub cut_time : ℕ

abbrev pub detached : Bool → PurgeTask → Option ScriptReply → Error × Option PurgeTask
detached accepted task (some script_empty) = ([], none)
detached true task (some script_ok) = ([], some task)
detached false task (some script_ok) = (purge_rejected ∷ [], none)
detached accepted task (some script_conflict) = (purge_conflict ∷ [], none)
detached accepted task _ = (redis_failed ∷ [], none)

-- the sessions of a batch that the task deletes: those that outlive the cut
abbrev pub alive_ids : ℕ → List Member → List SessionId
alive_ids cut [] = []
alive_ids cut (m ∷ ms) =
    let rest = alive_ids cut ms in if ltb cut m.score then m.id ∷ rest else rest

module _ {S V : Type 0} (b : Backend S V) where
  -- what CreateSession and RotateSession send for a new session
  unfoldable pub script_args : ℕ → AuthSession → ℤ → ℤ → ScriptArgs V
  unfolding session_ttl
  script_args now session ttl max =
      let expires = now + session_ttl ttl in
      record {
        user = session.user_id;
        new_id = session.session_id;
        payload = b.marshal (record session { expires_at = expires });
        ttl_ms = milliseconds (session_ttl ttl);
        expiry_score = b.score expires;
        now_score = b.score now;
        index_ttl_ms = milliseconds (session_ttl ttl + index_ttl_buffer);
        max_sessions = max;
      }

  -- SessionStore.CreateSession
  unfoldable pub create_session : ℕ → AuthSession → ℤ → ℤ → S → Error × S
  unfolding script_args run_script create_session_script
  create_session now session ttl max s =
      let answer = run_script b (create_session_script b (script_args now session ttl max)) s in
      (created answer.0, answer.1)

  -- SessionStore.RotateSession
  unfoldable pub rotate_session : ℕ → AuthSession → AuthSession → ℤ → ℤ → S → Error × S
  unfolding script_args run_script rotate_session_script same_owner
  rotate_session now old new ttl max s =
      let answer = run_script b (rotate_session_script b old (script_args now new ttl max)) s in
      if same_owner new old then (rotated answer.0, answer.1) else (auth_session_mismatch ∷ [], s)

  -- what is under a session's key
  unfoldable pub stored : Uuid → SessionId → S → Result AuthSession
  stored u i s = elim (b.get (session_key u i) s) [
    | none ↦ failure (auth_session_not_found ∷ [])
    | some text ↦ elim (b.unmarshal text) [
      | none ↦ failure (session_unreadable ∷ [])
      | some session ↦ success session
    ]
  ]

  -- SessionStore.GetSession
  unfoldable pub get_session : Uuid → SessionId → S → Result AuthSession × S
  unfolding stored
  get_session u i s = (answered (b.link s) (stored u i (b.spent s)), b.spent s)

  -- the transaction of DeleteSession
  unfoldable pub delete_writes : ℕ → Uuid → SessionId → S → S
  delete_writes now u i s =
      b.zrem (user_sessions u) (i ∷ [])
        (b.zremrangebyscore (user_sessions u) (b.score now) (b.del (session_key u i) s))

  -- SessionStore.DeleteSession
  unfoldable pub delete_session : ℕ → Uuid → SessionId → S → Error × S
  unfolding run_script delete_writes
  delete_session now u i s =
      let answer = run_script b (λ t. (true, delete_writes now u i t)) s in
      (done answer.0, answer.1)

  -- SessionStore.DeleteAllUserSessions, where the new purge id may be missing and the pool may refuse
  -- the task that it would return
  unfoldable pub delete_all_user_sessions :
      ℕ → Option Uuid → Bool → Uuid → S → (Error × Option PurgeTask) × S
  unfolding run_script detach_script
  delete_all_user_sessions now none accepted u s = ((entropy_failed ∷ [], none), s)
  delete_all_user_sessions now (some purge) accepted u s =
      let answer = run_script b (detach_script b u purge purge_ttl) s in
      let task : PurgeTask = record { owner = u; purge_id = purge; cut_time = now } in
      (detached accepted task answer.0, answer.1)

  -- UNLINK of session keys
  unfoldable pub unlink_sessions : Uuid → List SessionId → S → S
  unlink_sessions u [] s = s
  unlink_sessions u (i ∷ is) s = unlink_sessions u is (b.del (session_key u i) s)

  -- the first write of a round, left out when no session outlives the cut
  unfoldable pub unlink_alive : Uuid → List SessionId → S → Option Bool × S
  unfolding run_script unlink_sessions
  unlink_alive u [] s = (some true, s)
  unlink_alive u (i ∷ is) s = run_script b (λ r. (true, unlink_sessions u (i ∷ is) r)) s

  -- a round of the loop of purgeDetachedUserSessions on the batch that it read; true when it was empty
  unfoldable pub purge_batch : PurgeTask → List Member → S → Option Bool × S
  unfolding unlink_alive run_script
  purge_batch t [] s = (some true, s)
  purge_batch t (m ∷ ms) s =
      let index = purge_sessions t.owner t.purge_id in
      let unlinked = unlink_alive t.owner (alive_ids (b.score t.cut_time) (m ∷ ms)) s in
      and_then unlinked.0 unlinked.1
        (λ u. run_script b (λ r. (false, b.zrem index (ids (m ∷ ms)) r)) unlinked.1)

  -- a round with its ZRANGE
  unfoldable pub purge_round : PurgeTask → S → Option Bool × S
  unfolding purge_batch run_script
  purge_round t s =
      let index = purge_sessions t.owner t.purge_id in
      let read = run_script b (λ r. (take batch_size (b.zrange index r), r)) s in
      and_then read.0 read.1 (λ batch. purge_batch t batch read.1)

  -- purgeDetachedUserSessions, its loop on fuel; none when the fuel is spent
  unfoldable pub purge_detached : ℕ → PurgeTask → S → Option Error × S
  unfolding purge_round run_script
  purge_detached zero t s = (none, s)
  purge_detached (suc fuel) t s =
      let round = purge_round t s in
      let rest = purge_detached fuel t round.1 in
      elim round.0 [
        | none ↦ (some (redis_failed ∷ []), round.1)
        | some true ↦
            let last =
              run_script b (λ r. (true, b.unlink_index (purge_sessions t.owner t.purge_id) r))
                round.1 in
            (some (done last.0), last.1)
        | some false ↦ rest
      ]
