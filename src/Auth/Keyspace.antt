-- ===== src/Auth/Keyspace.antt =====
-- What the Redis adapter of user-service/internal/features/auth/infrastructure/redis is given: Redis
-- itself, encoding/json and cjson on the payloads, the float64 scores, and the link to the server. All
-- are parameters; `Laws` states their documented behaviour on the keys of the adapter (keys.go).
use aegis_core.Base.{
  ℕ, ◌≡◌, ◌≤◌, ◌<◌, Bool, true, false, ◌&&◌, Option, none, some, List, [], ◌∷◌, ◌==◌, ltb, not,
  if◌then◌else◌, ◌^◌,
}
use aegis_core.Base.Int.{ℤ, pos}
use aegis_core.Base.Text.{Uuid}
use aegis_core.Auth.Domain.{SessionId, TokenId, AuthSession, PasswordChangeSession}

-- the keys that hold a text: AuthSession, PasswordChangeSession, AuthUserTokenVersion
pub data TextKey : Type 0 where
  session_key : Uuid → SessionId → TextKey
  password_change_key : Uuid → SessionId → TextKey
  token_version_key : Uuid → TextKey

-- the sorted sets of a user's session ids: AuthUserSessions, AuthUserSessionsPurge
pub data IndexKey : Type 0 where
  user_sessions : Uuid → IndexKey
  purge_sessions : Uuid → Uuid → IndexKey

abbrev pub same_text_key : TextKey → TextKey → Bool
same_text_key (session_key u i) (session_key v j) = u == v && i == j
same_text_key (password_change_key u i) (password_change_key v j) = u == v && i == j
same_text_key (token_version_key u) (token_version_key v) = u == v
same_text_key _ _ = false

abbrev pub same_index_key : IndexKey → IndexKey → Bool
same_index_key (user_sessions u) (user_sessions v) = u == v
same_index_key (purge_sessions u p) (purge_sessions v q) = u == v && p == q
same_index_key _ _ = false

-- a member of a sorted set
pub record Member : Type 0 where
  pub id : SessionId
  pub score : ℕ

-- the member is there with this score
abbrev pub scored : SessionId → ℕ → List Member → Bool
scored i sc [] = false
scored i sc (m ∷ ms) =
    let rest = scored i sc ms in if m.id == i && m.score == sc then true else rest

abbrev pub has_id : SessionId → List SessionId → Bool
has_id i [] = false
has_id i (j ∷ js) = let rest = has_id i js in if j == i then true else rest

-- the members left by ZREM and by ZREMRANGEBYSCORE from -inf
abbrev pub without : List SessionId → List Member → List Member
without is [] = []
without is (m ∷ ms) = let rest = without is ms in if has_id m.id is then rest else m ∷ rest

abbrev pub above : ℕ → List Member → List Member
above sc [] = []
above sc (m ∷ ms) = let rest = above sc ms in if ltb sc m.score then m ∷ rest else rest

abbrev pub scored_any : SessionId → List Member → Bool
scored_any i [] = false
scored_any i (m ∷ ms) = let rest = scored_any i ms in if m.id == i then true else rest

-- a sorted set holds a member once
abbrev pub distinct : List Member → Bool
distinct [] = true
distinct (m ∷ ms) = not (scored_any m.id ms) && distinct ms

-- how the link answers a command or a script: it may be lost before or after the server ran it
pub data Link : Type 0 where
  delivered request_lost reply_lost : Link

-- what a script reads from a payload; a version is what tostring gives of it, by its number
pub record LuaSession : Type 0 where
  pub user_id : Uuid
  pub session_id : SessionId
  pub token_id : TokenId
  pub token_version : ℤ

pub record Backend (S V : Type 0) : Type 0 where
  pub get : TextKey → S → Option V
  pub set_px : TextKey → V → ℕ → S → S
  pub del : TextKey → S → S
  pub zrange : IndexKey → S → List Member
  pub zadd : IndexKey → Member → S → S
  pub zrem : IndexKey → List SessionId → S → S
  pub zremrangebyscore : IndexKey → ℕ → S → S
  pub pttl : IndexKey → S → ℤ
  pub pexpire : IndexKey → ℕ → S → S
  pub exists : IndexKey → S → Bool
  pub rename : IndexKey → IndexKey → S → S
  pub unlink_index : IndexKey → S → S
  pub link : S → Link
  pub spent : S → S
  pub score : ℕ → ℕ
  pub marshal : AuthSession → V
  pub unmarshal : V → Option AuthSession
  pub marshal_password_change : PasswordChangeSession → V
  pub lua_session : V → Option LuaSession
  pub format_version : ℤ → V
  pub parse_version : V → Option ℤ
  pub lua_number : V → Option ℤ

abbrev lua_fields : AuthSession → LuaSession
lua_fields p = record {
  user_id = p.user_id;
  session_id = p.session_id;
  token_id = 0;
  token_version = p.token_version;
}

abbrev lua_password_fields : PasswordChangeSession → LuaSession
lua_password_fields p = record {
  user_id = p.user_id;
  session_id = p.session_id;
  token_id = p.token_id;
  token_version = p.token_version;
}

pub record Laws {S V : Type 0} (b : Backend S V) : Type 0 where
  pub get-set :
      (k j : TextKey) (v : V) (ttl : ℕ) (s : S)
      → (ttl == 0) ≡ false
      → b.get j (b.set_px k v ttl s) ≡ (if same_text_key k j then some v else b.get j s)
  pub get-del :
      (k j : TextKey) (s : S)
      → b.get j (b.del k s) ≡ (if same_text_key k j then none else b.get j s)
  pub get-zadd :
      (k : IndexKey) (m : Member) (j : TextKey) (s : S) → b.get j (b.zadd k m s) ≡ b.get j s
  pub get-zrem :
      (k : IndexKey) (is : List SessionId) (j : TextKey) (s : S)
      → b.get j (b.zrem k is s) ≡ b.get j s
  pub get-zremrange :
      (k : IndexKey) (sc : ℕ) (j : TextKey) (s : S)
      → b.get j (b.zremrangebyscore k sc s) ≡ b.get j s
  pub get-pexpire :
      (k : IndexKey) (ttl : ℕ) (j : TextKey) (s : S) → b.get j (b.pexpire k ttl s) ≡ b.get j s
  pub get-rename : (k l : IndexKey) (j : TextKey) (s : S) → b.get j (b.rename k l s) ≡ b.get j s
  pub get-unlink : (k : IndexKey) (j : TextKey) (s : S) → b.get j (b.unlink_index k s) ≡ b.get j s
  pub get-spent : (j : TextKey) (s : S) → b.get j (b.spent s) ≡ b.get j s
  pub zrange-set :
      (k : TextKey) (v : V) (ttl : ℕ) (j : IndexKey) (s : S)
      → b.zrange j (b.set_px k v ttl s) ≡ b.zrange j s
  pub zrange-del : (k : TextKey) (j : IndexKey) (s : S) → b.zrange j (b.del k s) ≡ b.zrange j s
  -- ZADD puts the member where its score belongs and leaves the others where they are
  pub zrange-zadd :
      (k : IndexKey) (m : Member) (s : S) → scored m.id m.score (b.zrange k (b.zadd k m s)) ≡ true
  pub zrange-zadd_other :
      (k : IndexKey) (m : Member) (i : SessionId) (sc : ℕ) (s : S)
      → (m.id == i) ≡ false
      → scored i sc (b.zrange k (b.zadd k m s)) ≡ scored i sc (b.zrange k s)
  pub zrange-zrem :
      (k : IndexKey) (is : List SessionId) (s : S)
      → b.zrange k (b.zrem k is s) ≡ without is (b.zrange k s)
  pub zrange-zremrange :
      (k : IndexKey) (sc : ℕ) (s : S)
      → b.zrange k (b.zremrangebyscore k sc s) ≡ above sc (b.zrange k s)
  pub zrange-pexpire :
      (k : IndexKey) (ttl : ℕ) (j : IndexKey) (s : S)
      → b.zrange j (b.pexpire k ttl s) ≡ b.zrange j s
  pub zrange-rename :
      (k l : IndexKey) (s : S)
      → b.exists k s ≡ true
      → b.exists l s ≡ false
      → b.zrange l (b.rename k l s) ≡ b.zrange k s
  pub zrange-distinct : (k : IndexKey) (s : S) → distinct (b.zrange k s) ≡ true
  pub zrange-spent : (j : IndexKey) (s : S) → b.zrange j (b.spent s) ≡ b.zrange j s
  -- float64 rounding keeps the order of instants
  pub score_mono : (t u : ℕ) → t ≤ u → b.score t ≤ b.score u
  pub unmarshal-marshal : (p : AuthSession) → b.unmarshal (b.marshal p) ≡ some p
  -- cjson reads a number as a double, and tostring writes 14 digits of it
  pub lua-format : (n : ℕ) → n < 10 ^ 14 → b.lua_number (b.format_version (pos n)) ≡ some (pos n)
