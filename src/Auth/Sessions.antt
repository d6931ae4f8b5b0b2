-- ===== src/Auth/Sessions.antt =====
-- user-service/internal/features/auth/infrastructure/redis/refresh_session_store.go and the scripts it
-- runs (scripts/create_session.lua, rotate_session.lua, detach_user_sessions.lua): the refresh sessions
-- of a user and the index of them. A script runs as one atomic function of the server's state.
pub mod Store
pub mod Index
pub mod Branches
pub mod Reach
pub mod Limits
pub mod Rotation
pub mod Purge
pub mod Revocation
use aegis_core.Base.{
  ℕ, ◌-◌, ◌*◌, Bool, true, false, ◌&&◌, Option, none, some, List, [], ◌∷◌, ◌==◌, ltb, if◌then◌else◌,
  length, take,
}
use aegis_core.Base.Int.{ℤ, pos, pos_part, ltb_ℤ}
use aegis_core.Base.Text.{Uuid}
use aegis_core.Auth.Domain.{SessionId, AuthSession, same_int}
use aegis_core.Auth.Keyspace.{
  Backend, Link, delivered, request_lost, reply_lost, Member, LuaSession, session_key,
  user_sessions, purge_sessions, IndexKey,
}

-- what a script returns, or an error that Redis raises at its first write
pub data ScriptReply : Type 0 where
  script_ok script_not_found script_mismatch script_empty script_conflict script_error : ScriptReply

-- the arguments that the two writing scripts share
pub record ScriptArgs (V : Type 0) : Type 0 where
  pub user : Uuid
  pub new_id : SessionId
  pub payload : V
  pub ttl_ms : ℕ
  pub expiry_score : ℕ
  pub now_score : ℕ
  pub index_ttl_ms : ℕ
  pub max_sessions : ℤ

abbrev pub ids : List Member → List SessionId
ids [] = []
ids (m ∷ ms) = m.id ∷ ids ms

-- the caller's view of what the server did, or did not do
abbrev pub under_link : {S A : Type 0} → Link → A × S → S → Option A × S
under_link delivered ran idle = (some ran.0, ran.1)
under_link request_lost ran idle = (none, idle)
under_link reply_lost ran idle = (none, ran.1)

-- what holds after the script and without it holds under every answer
pub under_link-either :
    {S A : Type 0} (P : S → Type 0) (l : Link) (r : A × S) (idle : S)
    → P r.1
    → P idle
    → P (under_link l r idle).1
under_link-either P delivered r idle ran kept = ran
under_link-either P request_lost r idle ran kept = kept
under_link-either P reply_lost r idle ran kept = ran

-- the next command of an operation, after one that was answered
abbrev pub and_then : {S A B : Type 0} → Option A → S → (A → Option B × S) → Option B × S
and_then none s f = (none, s)
and_then (some a) s f = f a

module _ {S V : Type 0} (b : Backend S V) where
  -- Script.Run: the reply of a script, unless the link failed
  unfoldable pub run_script : {A : Type 0} → (S → A × S) → S → Option A × S
  run_script f s = under_link (b.link s) (f (b.spent s)) (b.spent s)

  -- the loop over stale_sessions
  unfoldable pub evict : Uuid → List SessionId → S → S
  evict u [] s = s
  evict u (i ∷ is) s = evict u is (b.zrem (user_sessions u) (i ∷ []) (b.del (session_key u i) s))

  -- the part of both scripts from max_sessions on
  unfoldable pub trim : Uuid → ℤ → S → S
  unfolding evict
  trim u max s =
      let members = b.zrange (user_sessions u) s in
      let overflow = length members - pos_part max in
      if ltb_ℤ (pos 0) max && ltb 0 overflow then evict u (ids (take overflow members)) s else s

  -- the last lines of both scripts: the index never loses time to live
  unfoldable pub keep_index : Uuid → ℕ → S → S
  keep_index u target s =
      if ltb_ℤ (b.pttl (user_sessions u) s) (pos target)
      then b.pexpire (user_sessions u) target s
      else s

  -- create_session.lua
  unfoldable pub create_session_script : ScriptArgs V → S → ScriptReply × S
  unfolding trim keep_index
  create_session_script a s =
      let stored = b.set_px (session_key a.user a.new_id) a.payload a.ttl_ms s in
      let pruned = b.zremrangebyscore (user_sessions a.user) a.now_score stored in
      let member : Member = record { id = a.new_id; score = a.expiry_score } in
      let listed = b.zadd (user_sessions a.user) member pruned in
      if a.ttl_ms == 0
      then (script_error, s)
      else (script_ok, keep_index a.user a.index_ttl_ms (trim a.user a.max_sessions listed))

  unfoldable pub same_session : AuthSession → LuaSession → Bool
  same_session old l =
      l.user_id == old.user_id
      && l.session_id == old.session_id
      && same_int l.token_version old.token_version

  -- the writes of rotate_session.lua
  unfoldable pub rotate_writes : SessionId → ScriptArgs V → S → S
  unfolding trim keep_index
  rotate_writes old_id a s =
      let stored = b.set_px (session_key a.user a.new_id) a.payload a.ttl_ms s in
      let pruned = b.zremrangebyscore (user_sessions a.user) a.now_score stored in
      let member : Member = record { id = a.new_id; score = a.expiry_score } in
      let listed = b.zadd (user_sessions a.user) member pruned in
      let unlisted = b.zrem (user_sessions a.user) (old_id ∷ []) listed in
      let consumed = b.del (session_key a.user old_id) unlisted in
      keep_index a.user a.index_ttl_ms (trim a.user a.max_sessions consumed)

  -- rotate_session.lua
  unfoldable pub rotate_session_script : AuthSession → ScriptArgs V → S → ScriptReply × S
  unfolding rotate_writes same_session
  rotate_session_script old a s = elim (b.get (session_key old.user_id old.session_id) s) [
    | none ↦ (script_not_found, s)
    | some text ↦ elim (b.lua_session text) [
      | none ↦ (script_mismatch, s)
      | some l ↦
          if same_session old l
          then (if a.ttl_ms == 0
              then (script_error, s)
              else (script_ok, rotate_writes old.session_id a s))
          else (script_mismatch, s)
    ]
  ]

  -- detach_user_sessions.lua; its EXPIRE counts seconds
  unfoldable pub detach_script : Uuid → Uuid → ℕ → S → ScriptReply × S
  detach_script u purge purge_ttl s =
      if b.exists (user_sessions u) s
      then (if b.exists (purge_sessions u purge) s then (script_conflict, s) else (
        script_ok,
        b.pexpire (purge_sessions u purge) (purge_ttl * 1000)
            (b.rename (user_sessions u) (purge_sessions u purge) s),
      ))
      else (script_empty, s)
