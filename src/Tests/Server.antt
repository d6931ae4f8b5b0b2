-- ===== src/Tests/Server.antt =====
-- A small Redis that answers at once and drops nothing, with a clock as coarse as it is given.
use aegis_core.Base.{
  ℕ, ◌≡◌, refl, Bool, true, false, Option, none, some, List, [], ◌∷◌, ◌==◌, if◌then◌else◌, arith,
}
use aegis_core.Base.Int.{ℤ, pos}
use aegis_core.Auth.Domain.{AuthSession, PasswordChangeSession, SessionId}
use aegis_core.Auth.Keyspace.{
  TextKey, IndexKey, user_sessions, purge_sessions, same_text_key, same_index_key, Member, scored,
  scored_any, without, above, distinct, delivered, LuaSession, Backend, Laws,
}

scored_any-without :
    (i : SessionId) (is : List SessionId) (ms : List Member)
    → scored_any i ms ≡ false
    → scored_any i (without is ms) ≡ false
scored_any-without i is [] h = h
scored_any-without i is (m ∷ ms) h =
    let ih = scored_any-without i is ms (ground (arith, h)) in ground (arith, ih, h)

pub distinct-without :
    (is : List SessionId) (ms : List Member) → distinct ms ≡ true → distinct (without is ms) ≡ true
distinct-without is [] h = h
distinct-without is (m ∷ ms) h =
    let ih = distinct-without is ms (ground (arith, h)) in
    let out = scored_any-without m.id is ms (ground (arith, h)) in ground (arith, ih, out)

scored_any-above :
    (i : SessionId) (sc : ℕ) (ms : List Member)
    → scored_any i ms ≡ false
    → scored_any i (above sc ms) ≡ false
scored_any-above i sc [] h = h
scored_any-above i sc (m ∷ ms) h =
    let ih = scored_any-above i sc ms (ground (arith, h)) in ground (arith, ih, h)

pub distinct-above :
    (sc : ℕ) (ms : List Member) → distinct ms ≡ true → distinct (above sc ms) ≡ true
distinct-above sc [] h = h
distinct-above sc (m ∷ ms) h =
    let ih = distinct-above sc ms (ground (arith, h)) in
    let out = scored_any-above m.id sc ms (ground (arith, h)) in ground (arith, ih, out)

scored_any-removed : (i : SessionId) (ms : List Member) → scored_any i (without (i ∷ []) ms) ≡ false
scored_any-removed i [] = refl
scored_any-removed i (m ∷ ms) = let ih = scored_any-removed i ms in ground (arith, ih)

pub distinct-added :
    (m : Member) (ms : List Member)
    → distinct ms ≡ true
    → distinct (m ∷ without (m.id ∷ []) ms) ≡ true
distinct-added m ms h =
    let out = scored_any-removed m.id ms in
    let rest = distinct-without (m.id ∷ []) ms h in ground (arith, out, rest)

scored-removed :
    (i j : SessionId) (sc : ℕ) (ms : List Member)
    → (i == j) ≡ false
    → scored j sc (without (i ∷ []) ms) ≡ scored j sc ms
scored-removed i j sc [] h = refl
scored-removed i j sc (m ∷ ms) h = let ih = scored-removed i j sc ms h in ground (arith, ih, h)

same_index_key_self : (k : IndexKey) → same_index_key k k ≡ true
same_index_key_self (user_sessions u) = ground arith
same_index_key_self (purge_sessions u p) = ground arith

pub data Value : Type 0 where
  session_text : AuthSession → Value
  password_text : PasswordChangeSession → Value
  version_text : ℤ → Value

abbrev pub Index : Type 0
Index = (ms : List Member) × (distinct ms ≡ true)

pub record Server : Type 0 where
  pub texts : TextKey → Option Value
  pub indexes : IndexKey → Index

abbrev put_index : IndexKey → Index → Server → Server
put_index k x s = record s { indexes = λ j. if same_index_key k j then x else s.indexes j }

abbrev pub removed : List SessionId → Index → Index
removed is (ms, h) = (without is ms, distinct-without is ms h)

abbrev cut_above : ℕ → Index → Index
cut_above sc (ms, h) = (above sc ms, distinct-above sc ms h)

abbrev pub added : Member → Index → Index
added m (ms, h) = (m ∷ without (m.id ∷ []) ms, distinct-added m ms h)

abbrev pub no_index : Index
no_index = ([], refl)

abbrev is_listed : List Member → Bool
is_listed [] = false
is_listed (m ∷ ms) = true

abbrev as_session : Value → Option AuthSession
as_session (session_text p) = some p
as_session _ = none

abbrev as_version : Value → Option ℤ
as_version (version_text z) = some z
as_version _ = none

abbrev as_lua : Value → Option LuaSession
as_lua (session_text p) = some (record {
  user_id = p.user_id;
  session_id = p.session_id;
  token_id = 0;
  token_version = p.token_version;
})
as_lua (password_text p) = some (record {
  user_id = p.user_id;
  session_id = p.session_id;
  token_id = p.token_id;
  token_version = p.token_version;
})
as_lua (version_text z) = none

abbrev pub server : Backend Server Value
server = record {
  get = λ k s. s.texts k;
  set_px = λ k v ttl s. record s { texts = λ j. if same_text_key k j then some v else s.texts j };
  del = λ k s. record s { texts = λ j. if same_text_key k j then none else s.texts j };
  zrange = λ k s. (s.indexes k).0;
  zadd = λ k m s. put_index k (added m (s.indexes k)) s;
  zrem = λ k is s. put_index k (removed is (s.indexes k)) s;
  zremrangebyscore = λ k sc s. put_index k (cut_above sc (s.indexes k)) s;
  pttl = λ k s. pos 0;
  pexpire = λ k ttl s. s;
  exists = λ k s. is_listed (s.indexes k).0;
  rename = λ k l s. put_index l (s.indexes k) (put_index k no_index s);
  unlink_index = λ k s. put_index k no_index s;
  link = λ s. delivered;
  spent = λ s. s;
  score = λ t. t;
  marshal = session_text;
  unmarshal = as_session;
  marshal_password_change = password_text;
  lua_session = as_lua;
  format_version = version_text;
  parse_version = as_version;
  lua_number = as_version;
}

pub server-Laws : Laws server
server-Laws = record {
  get-set = λ k j v ttl s some_ttl. refl;
  get-del = λ k j s. refl;
  get-zadd = λ k m j s. refl;
  get-zrem = λ k is j s. refl;
  get-zremrange = λ k sc j s. refl;
  get-pexpire = λ k ttl j s. refl;
  get-rename = λ k l j s. refl;
  get-unlink = λ k j s. refl;
  get-spent = λ j s. refl;
  zrange-set = λ k v ttl j s. refl;
  zrange-del = λ k j s. refl;
  zrange-zadd = λ k m s. rw (same_index_key_self k) (ground arith);
  zrange-zadd_other = λ k m i sc s other.
      rw (same_index_key_self k)
        (let rest = scored-removed m.id i sc (s.indexes k).0 other in ground (arith, other, rest));
  zrange-zrem = λ k is s. rw (same_index_key_self k) refl;
  zrange-zremrange = λ k sc s. rw (same_index_key_self k) refl;
  zrange-pexpire = λ k ttl j s. refl;
  zrange-rename = λ k l s there free. rw (same_index_key_self l) refl;
  zrange-distinct = λ k s. (s.indexes k).1;
  zrange-spent = λ j s. refl;
  score_mono = λ t u h. h;
  unmarshal-marshal = λ p. refl;
  lua-format = λ n small. refl;
}
