-- ===== src/Tests/Auth.antt =====
-- The authentication sessions on the Redis of Tests/Server.antt.
use aegis_core.Base.{◌≤◌, ◌≡◌, ◌≢◌, refl, true, false, none, some, [], ◌∷◌, length, arith, ◌⊎◌}
use aegis_core.Base.Int.{ℤ, pos}
use aegis_core.Auth.Domain.{
  AuthSession, PasswordChangeSession, SessionId, failure, auth_session_not_found,
}
use aegis_core.Auth.Keyspace.{
  TextKey, IndexKey, password_change_key, token_version_key, user_sessions,
}
use aegis_core.Auth.Sessions.{
  run_script, evict, trim, keep_index, create_session_script, rotate_session_script, rotate_writes,
  same_session, detach_script,
}
use aegis_core.Auth.Sessions.Store.{
  create_session, rotate_session, script_args, session_ttl, same_owner, stored, PurgeTask,
  purge_detached, purge_round, purge_batch, unlink_alive, unlink_sessions, delete_all_user_sessions,
}
use aegis_core.Auth.Sessions.Branches.{matches}
use aegis_core.Auth.Sessions.Reach.{
  IsIndexed, reachable, at_start, and_step, step_create, step_rotate, SessionReach-IsIndexed,
}
use aegis_core.Auth.Sessions.Rotation.{
  no_retry, then_retry, create_session-Capped, rotate_session-once,
}
use aegis_core.Auth.Sessions.Revocation.{
  purge_detached-Terminates, delete_all_user_sessions-Revokes, is_live,
}
use aegis_core.Auth.TokenVersions.{
  cache_token_version, cache_script, cache_ttl_ms, is_newer, cache_token_version-keeps_newer,
}
use aegis_core.Auth.PasswordChange.{
  consume_session, no_call, then_create, create_password_change_session, set_nx,
  password_change_ttl, consume_script, same_fields, payload_matches, consume_session-once,
}
use aegis_core.Tests.Server.{server, server-Laws, Server, password_text, version_text, no_index}

abbrev pub empty : Server
empty = record { texts = λ k. none; indexes = λ k. no_index }

abbrev pub session : SessionId → AuthSession
session i = record { user_id = 7; session_id = i; token_version = pos 2; expires_at = 0 }

abbrev pub hour : ℤ
hour = pos 3600000000000

-- two sessions, the second in place of the first
abbrev pub first_login : Server
first_login = (create_session server 100 (session 1) hour (pos 5) empty).1

abbrev rotated : Server
rotated = (rotate_session server 200 (session 1) (session 2) hour (pos 5) first_login).1

empty-IsIndexed : IsIndexed server 7 100 empty
unfolding reachable
empty-IsIndexed j = refl

SessionReach-IsIndexed_example : IsIndexed server 7 200 rotated
SessionReach-IsIndexed_example =
    SessionReach-IsIndexed server server-Laws 7 100 empty 200 rotated
      (and_step
        (and_step at_start (step_create 100 100 (session 1) hour (pos 5) empty (omega arith)))
        (step_rotate 100 200 (session 1) (session 2) hour (pos 5) first_login (omega arith)))
      empty-IsIndexed

create_session-Capped_example :
    length (
      server.zrange
        (user_sessions 7)
        (create_session server 300 (session 3) hour (pos 1) rotated).1)
    ≤ 1
unfolding create_session rotate_session create_session_script rotate_session_script rotate_writes
    script_args session_ttl run_script same_owner same_session trim evict keep_index
create_session-Capped_example =
    create_session-Capped server server-Laws 300 (session 3) hour 1 rotated (omega arith) refl

-- the stolen session is tried once in between
abbrev tried : Server
tried = (rotate_session server 240 (session 1) (session 5) hour (pos 5) rotated).1

rotate_session-once_example :
    let (failed, last) = rotate_session server 250 (session 1) (session 4) hour (pos 5) tried in
    (matches server (session 1) first_login ≡ true)
    × (stored server 7 1 rotated ≡ failure (auth_session_not_found ∷ []))
    × (failed ≢ [])
    × ((k : TextKey) → server.get k last ≡ server.get k rotated)
    × ((j : IndexKey) → server.zrange j last ≡ server.zrange j rotated)
unfolding create_session rotate_session create_session_script rotate_session_script rotate_writes
    script_args session_ttl run_script same_owner same_session trim evict keep_index
rotate_session-once_example =
    rotate_session-once server server-Laws 200 250 (session 1) (session 2) (session 4) hour hour
      (pos 5) (pos 5) first_login tried refl (then_retry no_retry 240 (session 5) hour (pos 5))

abbrev purge_task : PurgeTask
purge_task = record { owner = 7; purge_id = 9; cut_time = 300 }

abbrev detached : Server
detached = (delete_all_user_sessions server 300 (some 9) true 7 rotated).1

purge_detached-Terminates_example : (purge_detached server 2 purge_task detached).0 ≢ none
unfolding create_session rotate_session create_session_script rotate_session_script rotate_writes
    script_args session_ttl run_script same_owner same_session trim evict keep_index
    delete_all_user_sessions detach_script
purge_detached-Terminates_example =
    purge_detached-Terminates server server-Laws 2 purge_task detached (omega arith)

delete_all_user_sessions-Revokes_example :
    is_live server 7 300 2 (purge_detached server 2 purge_task detached).1 ≡ false
unfolding create_session rotate_session create_session_script rotate_session_script rotate_writes
    script_args session_ttl run_script same_owner same_session trim evict keep_index
    delete_all_user_sessions detach_script purge_detached purge_round purge_batch unlink_alive
    unlink_sessions
delete_all_user_sessions-Revokes_example =
    delete_all_user_sessions-Revokes server server-Laws 200 300 9 true 7 rotated purge_task 2 2
      (omega arith) SessionReach-IsIndexed_example refl refl

abbrev cached : Server
cached = (cache_token_version server hour 7 (pos 3) empty).1

cache_token_version-keeps_newer_example :
    (server.get (token_version_key 7) (cache_token_version server hour 7 (pos 2) cached).1
      ≡ some (version_text (pos 3)))
    ⊎ (server.get (token_version_key 7) (cache_token_version server hour 7 (pos 2) cached).1
        ≡ some (version_text (pos 2)))
      × (3 ≤ 2)
unfolding cache_token_version cache_script cache_ttl_ms is_newer run_script
cache_token_version-keeps_newer_example =
    cache_token_version-keeps_newer server server-Laws hour 7 3 2 cached (omega arith) refl

abbrev change : PasswordChangeSession
change = record { user_id = 7; session_id = 5; token_id = 6; token_version = pos 2; expires_at = 0 }

abbrev waiting : Server
waiting = server.set_px (password_change_key 7 5) (password_text change) 1000 empty

-- consumed, and then another session is created
abbrev used : Server
used = (consume_session server change waiting).1

abbrev another : PasswordChangeSession
another = record change { session_id = 6 }

abbrev busy : Server
busy = (create_password_change_session server 300 another hour used).1

consume_session-once_example :
    (payload_matches server change waiting ≡ true) × ((consume_session server change busy).0 ≢ [])
unfolding consume_session consume_script run_script same_fields create_password_change_session
    set_nx password_change_ttl
consume_session-once_example =
    consume_session-once server server-Laws change change waiting busy refl refl refl
      (then_create no_call 300 another hour refl)
