-- ===== src/Auth/TokenVersions.antt =====
-- user-service/internal/features/auth/infrastructure/redis/token_version_store.go with its script
-- scripts/cache_token_version.lua: the token version of a user as Redis has it.
use aegis_core.Base.{
  ℕ, ◌≤◌, ◌<◌, ◌^◌, ◌*◌, ◌/◌, ◌≡◌, ◌∙◌, Bool, true, false, Option, none, some, [], ◌∷◌, ◌==◌, ltb,
  if◌then◌else◌, arith, Bool-cases, ◌⊎◌, inl, inr,
}
use aegis_core.Base.Int.{ℤ, pos, pos_part, leb_ℤ, ltb_ℤ}
use aegis_core.Base.Text.{Uuid}
use aegis_core.Auth.Domain.{Error, Result, success, failure, token_version_cache_miss, redis_failed}
use aegis_core.Auth.Keyspace.{Backend, Laws, Link, delivered, token_version_key}
use aegis_core.Auth.Sessions.{run_script, under_link-either}

pub data CacheReply : Type 0 where
  stored skipped rejected : CacheReply

-- defaultTokenVersionCacheTTL
abbrev default_cache_ttl : ℕ
default_cache_ttl = 300 * 1000000000

-- the time to live in milliseconds that CacheTokenVersion sends
unfoldable pub cache_ttl_ms : ℤ → ℕ
cache_ttl_ms ttl = (if leb_ℤ ttl (pos 0) then default_cache_ttl else pos_part ttl) / 1000000

abbrev cached_error : Option CacheReply → Error
cached_error (some stored) = []
cached_error (some skipped) = []
cached_error _ = redis_failed ∷ []

module _ {S V : Type 0} (b : Backend S V) where
  -- the current value is a number above the next one
  unfoldable pub is_newer : Uuid → ℤ → S → Bool
  is_newer u version s = elim (b.get (token_version_key u) s) [
    | none ↦ false
    | some text ↦ elim (b.lua_number text) [ none ↦ false | some current ↦ ltb_ℤ version current ]
  ]

  -- cache_token_version.lua; SET refuses a time to live of zero
  unfoldable pub cache_script : Uuid → ℤ → ℕ → S → CacheReply × S
  unfolding is_newer
  cache_script u version ttl_ms s =
      if is_newer u version s
      then (skipped, s)
      else if ttl_ms == 0
      then (rejected, s)
      else (stored, b.set_px (token_version_key u) (b.format_version version) ttl_ms s)

  -- SessionStore.CacheTokenVersion, with the configured time to live
  unfoldable pub cache_token_version : ℤ → Uuid → ℤ → S → Error × S
  unfolding cache_ttl_ms cache_script run_script
  cache_token_version ttl u version s =
      let answer = run_script b (cache_script u version (cache_ttl_ms ttl)) s in
      (cached_error answer.0, answer.1)

  -- what GetCachedTokenVersion makes of the stored text
  unfoldable pub cached_version : Uuid → S → Option ℤ
  cached_version u s = elim (b.get (token_version_key u) s) [
    | none ↦ none
    | some text ↦ elim (b.parse_version text) [
      | none ↦ none
      | some version ↦ if leb_ℤ version (pos 0) then none else some version
    ]
  ]

  abbrev read_reply : Link → Option ℤ → Result ℤ
  read_reply delivered none = failure (token_version_cache_miss ∷ [])
  read_reply delivered (some version) = success version
  read_reply _ found = failure (redis_failed ∷ [])

  -- SessionStore.GetCachedTokenVersion
  unfoldable pub get_cached_token_version : Uuid → S → Result ℤ × S
  unfolding cached_version
  get_cached_token_version u s = (read_reply (b.link s) (cached_version u (b.spent s)), b.spent s)

  abbrev deleted_error : Option Bool → Error
  deleted_error none = redis_failed ∷ []
  deleted_error (some ok) = []

  -- SessionStore.DeleteCachedTokenVersion
  unfoldable pub delete_cached_token_version : Uuid → S → Error × S
  unfolding run_script
  delete_cached_token_version u s =
      let answer = run_script b (λ t. (true, b.del (token_version_key u) t)) s in
      (deleted_error answer.0, answer.1)

  module _ (laws : Laws b) where
    -- the text that the script leaves, where it found a version
    cache_script-text :
        (u : Uuid) (m n ttl_ms : ℕ) (s : S)
        → m < 10 ^ 14
        → b.get (token_version_key u) s ≡ some (b.format_version (pos m))
        → (b.get (token_version_key u) (cache_script u (pos n) ttl_ms s).1
            ≡ some (b.format_version (pos m)))
          ⊎ (b.get (token_version_key u) (cache_script u (pos n) ttl_ms s).1
              ≡ some (b.format_version (pos n)))
            × (m ≤ n)
    unfolding cache_script is_newer
    cache_script-text u m n ttl_ms s small found =
        let number = laws.lua-format m small in
        let key = token_version_key u in
        let newer : is_newer u (pos n) s ≡ ltb n m = rw (found, is_newer, number) (ground arith) in
        elim (Bool-cases (ltb n m)) [
          | inl below ↦ rw (newer ∙ below, cache_script) (inl found)
          | inr above ↦ elim (Bool-cases (ttl_ms == 0)) [
            | inl zero ↦ rw (newer ∙ above, cache_script, zero) (inl found)
            | inr left ↦
                (let set = laws.get-set key key (b.format_version (pos n)) ttl_ms s left in
                  rw (newer ∙ above, cache_script, left)
                    (inr (ground (arith, set), ground (arith, above))))
          ]
        ]

    -- CacheTokenVersion never takes a token version in Redis back: whatever the link does to the call,
    -- where the version m was stored there is afterwards m, or the new version n and m is at most n
    -- (versions below 10^14, which Lua compares exactly).
    pub cache_token_version-keeps_newer :
        (ttl : ℤ) (u : Uuid) (m n : ℕ) (s : S)
        → m < 10 ^ 14
        → b.get (token_version_key u) s ≡ some (b.format_version (pos m))
        → (b.get (token_version_key u) (cache_token_version ttl u (pos n) s).1
            ≡ some (b.format_version (pos m)))
          ⊎ (b.get (token_version_key u) (cache_token_version ttl u (pos n) s).1
              ≡ some (b.format_version (pos n)))
            × (m ≤ n)
    unfolding cache_token_version run_script
    cache_token_version-keeps_newer ttl u m n s small found =
        let key = token_version_key u in
        let old = laws.get-spent key s ∙ found in
        under_link-either
          (λ t.
            (b.get key t ≡ some (b.format_version (pos m)))
            ⊎ (b.get key t ≡ some (b.format_version (pos n))) × (m ≤ n))
          (b.link s) (cache_script u (pos n) (cache_ttl_ms ttl) (b.spent s)) (b.spent s)
          (cache_script-text u m n (cache_ttl_ms ttl) (b.spent s) small old) (inl old)
