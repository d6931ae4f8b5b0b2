-- ===== src/Tests/Tokens.antt =====
-- Tokens that carry their claims, and the refresh use case over the small Redis of Tests/Auth.antt.
use aegis_core.Base.{
  ℕ, ◌*◌, ◌≡◌, ◌≢◌, refl, sym, ap, true, false, ◌&&◌, Option, none, some, [], ◌∷◌, ◌==◌, ltb,
  if◌then◌else◌,
}
use aegis_core.Base.Int.{pos}
use aegis_core.Base.Text.{is_space}
use aegis_core.Auth.Domain.{AuthSession, Result, success, failure, invalid_subject}
use aegis_core.Auth.Tokens.{
  Jwt, JwtConfig, Claims, refresh, accepts, SignInput, claims_of, TokenResult, IssuedTokenPair,
}
use aegis_core.Auth.Bearer.{
  Text, parse_bearer_authorization, strip_bearer_prefix, trim_space, is_empty, is_blank_token,
  parse_bearer_authorization-strip,
}
use aegis_core.Auth.Lifecycle.{
  Ports, current_token_version, validate_refresh_session, validate_refresh_session_claims,
  validate_token_version_match, rotate_token_session,
}
use aegis_core.Auth.Sessions.{
  run_script, evict, trim, keep_index, create_session_script, rotate_session_script, rotate_writes,
  same_session,
}
use aegis_core.Auth.Sessions.Store.{
  create_session, rotate_session, get_session, script_args, session_ttl, same_owner, stored,
}
use aegis_core.Auth.TokenVersions.{
  get_cached_token_version, cached_version, cache_token_version, cache_script, cache_ttl_ms,
  is_newer,
}
use aegis_core.Auth.UseCases.{Services, refresh_with_rotation, validate_refresh_token}
use aegis_core.Auth.UseCases
use aegis_core.Auth.Refresh.{refresh-Authorized, success-inj}
use aegis_core.Auth.Replay.{over_store, refresh-replay}
use aegis_core.Tests.Server.{server, server-Laws, Server}
use aegis_core.Tests.Auth.{first_login, hour}

-- a token is the secret, and the claims that it was signed with
record Token : Type 0 where
  key : ℕ
  claims : Claims

abbrev jwt : Jwt Token
jwt = record {
  signed_string = λ secret claims. some (record { key = secret; claims = claims });
  parse_with_claims = λ options secret now token.
      if (token.key == secret)
        && ltb now (token.claims.expires_at * 1000000000)
        && accepts options.expected_issuer (some token.claims.issuer)
        && accepts options.expected_audience token.claims.audience
      then some token.claims
      else none;
  is_uuid = λ id. true;
}

abbrev token_of : Token → Option Token → Token
token_of d none = d
token_of d (some t) = t

abbrev cfg : JwtConfig
cfg = record {
  secret = 77;
  issuer = 5;
  audience = 0;
  access_token_ttl = hour;
  refresh_token_ttl = hour;
  password_change_token_ttl = hour;
}

abbrev input : SignInput
input = record { user_id = 7; token_version = pos 2; session_id = 1; ttl = 3600000000000 }

abbrev signed_token : Token
signed_token = record { key = 77; claims = claims_of jwt cfg 100 input refresh 4 }

-- the header "Bearer x"
abbrev header : Text
header = 66 ∷ 101 ∷ 97 ∷ 114 ∷ 101 ∷ 114 ∷ 32 ∷ 120 ∷ []

parse_bearer_authorization-strip_example :
    (strip_bearer_prefix header ≡ 120 ∷ []) × (is_empty (120 ∷ []) ≡ false)
unfolding parse_bearer_authorization trim_space is_space
parse_bearer_authorization-strip_example = parse_bearer_authorization-strip header (120 ∷ []) refl

abbrev pair : IssuedTokenPair Text
pair = record {
  result = record { access_token = 1 ∷ []; refresh_token = some (2 ∷ []); expires_in = 900 };
  refresh_ttl = hour;
}

abbrev claims : Claims
claims = record {
  user_id = 7;
  token_version = pos 2;
  session_id = 1;
  id = 4;
  issuer = 5;
  audience = none;
  subject = refresh;
  expires_at = 9;
}

-- every refresh token is that of the first session, and new sessions are all called 2
abbrev services : Services Server
services = record {
  issue_token_pair = λ u version i s. (success pair, s);
  issue_password_change_token = λ u version i s. (success pair.result, s);
  parse_refresh_token = λ token s. (success claims, s);
  parse_password_change_token = λ token s. (success claims, s);
  verify_password = λ username password s. (failure (invalid_subject ∷ []), s);
  force_change_password = λ u version password s. (failure (invalid_subject ∷ []), s);
  new_session_id = λ s. (success 2, s);
}

-- the user store knows version 2; the Redis ports are replaced by over_store
abbrev rest : Ports Server
rest = record {
  get_token_version = λ u s. (success (pos 2), s);
  increment_token_version = λ u s. (success (pos 3), s);
  get_cached_token_version = λ u s. (success (pos 2), s);
  cache_token_version = λ u version s. ([], s);
  delete_cached_token_version = λ u s. ([], s);
  create_session = λ p ttl max s. ([], s);
  rotate_session = λ p n ttl max s. ([], s);
  get_session = λ u i s. (failure (invalid_subject ∷ []), s);
  delete_session = λ u i s. ([], s);
  delete_all_user_sessions = λ u s. ([], s);
  create_password_change_session = λ p ttl s. ([], s);
  consume_password_change_session = λ p s. ([], s);
  invalidate_token_version = λ u s. s;
  time_now = λ s. 200;
  max_active_sessions = pos 5;
}

abbrev ports : Ports Server
ports = over_store server rest hour (λ s. some 9) (λ s. true)

abbrev refreshed : Result (TokenResult Text) × Server
refreshed = UseCases.refresh ports services true header first_login

refreshed_runs : refreshed.0 ≡ success pair.result
unfolding UseCases.refresh validate_refresh_token refresh_with_rotation is_blank_token
    strip_bearer_prefix trim_space is_space validate_refresh_session validate_refresh_session_claims
    validate_token_version_match current_token_version rotate_token_session get_session stored
    rotate_session create_session script_args session_ttl same_owner run_script
    create_session_script rotate_session_script rotate_writes same_session trim evict keep_index
    get_cached_token_version cached_version cache_token_version cache_script cache_ttl_ms is_newer
refreshed_runs = refl

refresh-replay_example :
    (UseCases.refresh ports services false header refreshed.1).0 ≢ success pair.result
unfolding UseCases.refresh validate_refresh_token refresh_with_rotation is_blank_token
    strip_bearer_prefix trim_space is_space validate_refresh_session validate_refresh_session_claims
    validate_token_version_match current_token_version rotate_token_session get_session stored
    rotate_session create_session script_args session_ttl same_owner run_script
    create_session_script rotate_session_script rotate_writes same_session trim evict keep_index
    get_cached_token_version cached_version cache_token_version cache_script cache_ttl_ms is_newer
refresh-replay_example =
    refresh-replay server server-Laws rest hour (λ s. some 9) (λ s. true) services header claims
      first_login pair.result false pair.result (λ s. refl) (λ s d e. success-inj d claims (sym e))
      (λ p e. ap (λ (q : AuthSession). q.session_id) (success-inj p _ (sym e))) refreshed_runs

refresh-Authorized_example :
    (c : Claims) × (session : AuthSession) × (w2 : Server) × ((services.parse_refresh_token header
        first_login).0
      ≡ success c)
    × ((ports.get_session c.user_id c.session_id first_login).0 ≡ success session)
    × (session.user_id ≡ c.user_id)
    × (session.token_version ≡ c.token_version)
    × ((current_token_version ports c.user_id
          (ports.get_session c.user_id c.session_id first_login).1).0
        ≡ success c.token_version)
    × (refreshed ≡ refresh_with_rotation ports services c session c.token_version w2)
refresh-Authorized_example =
    refresh-Authorized ports services true header first_login pair.result refreshed_runs
