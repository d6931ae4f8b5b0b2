-- ===== src/Auth/Sessions/Branches.antt =====
-- rotate_session.lua, branch by branch: a rejected rotation writes nothing.
use aegis_core.Base.{
  ◌≡◌, refl, Bool, true, false, none, some, ◌==◌, ◌⊎◌, inl, inr, Bool-cases, Option-cases,
}
use aegis_core.Auth.Domain.{AuthSession}
use aegis_core.Auth.Keyspace.{Backend, session_key}
use aegis_core.Auth.Sessions.{
  ScriptReply, script_ok, ScriptArgs, rotate_writes, rotate_session_script, same_session,
}

abbrev is_ok : ScriptReply → Bool
is_ok script_ok = true
is_ok _ = false

module _ {S V : Type 0} (b : Backend S V) where
  -- the stored payload is the session that is to be rotated
  unfoldable pub matches : AuthSession → S → Bool
  matches prior s = elim (b.get (session_key prior.user_id prior.session_id) s) [
    | none ↦ false
    | some text ↦ elim (b.lua_session text) [ none ↦ false | some l ↦ same_session b prior l ]
  ]

  pub rotate_cases :
      (prior : AuthSession) (a : ScriptArgs V) (s : S)
      → (is_ok (rotate_session_script b prior a s).0 ≡ false)
          × ((rotate_session_script b prior a s).1 ≡ s)
        ⊎ (matches prior s ≡ true)
          × ((a.ttl_ms == 0) ≡ false)
          × (rotate_session_script b prior a s ≡ (script_ok, rotate_writes b prior.session_id a s))
  unfolding matches rotate_session_script
  rotate_cases prior a s =
      elim (Option-cases (b.get (session_key prior.user_id prior.session_id) s)) [
        | inl gone ↦ rw (gone, rotate_session_script) (inl (refl, refl))
        | inr (text, got) ↦ elim (Option-cases (b.lua_session text)) [
          | inl bad ↦ rw (got, rotate_session_script, bad) (inl (refl, refl))
          | inr (fields, read) ↦ elim (Bool-cases (same_session b prior fields)) [
            | inr other ↦ rw (got, rotate_session_script, matches, read, other) (inl (refl, refl))
            | inl is ↦ elim (Bool-cases (a.ttl_ms == 0)) [
              | inl zero ↦
                  rw (got, rotate_session_script, matches, read, is, zero) (inl (refl, refl))
              | inr left ↦
                  rw (got, rotate_session_script, matches, read, is, left) (inr (refl, refl, refl))
            ]
          ]
        ]
      ]
