-- ===== src/Auth/Refresh.antt =====
-- When a refresh answers with tokens.
use aegis_core.Base.{
  ◌≡◌, refl, sym, ap, ◌∙◌, Bool, true, ◌&&◌, ◌==◌, [], ◌∷◌, if◌then◌else◌, arith, Bool-cases, inl,
  inr, ==_iff,
}
use aegis_core.Base.Int.{ℤ, pos, negsuc}
use aegis_core.Base.Text.{Uuid}
use aegis_core.Auth.Domain.{Error, Result, success, failure, AuthSession, SessionId, same_int}
use aegis_core.Auth.Tokens.{Claims, TokenResult, IssuedTokenPair}
use aegis_core.Auth.Bearer.{Text}
use aegis_core.Auth.Lifecycle.{
  Ports, on_value, on_nil, create_token_session, validate_refresh_session, rotate_token_session,
  current_token_version, validate_refresh_session_claims, validate_token_version_match, map_error,
  rejected_rotation,
}
use aegis_core.Auth.UseCases.{
  Services, issue_session, refresh_with_rotation, refresh, validate_refresh_token,
}

on_value-success :
    {W A B : Type 0} (r : Result A) (w : W) (f : A → W → Result B × W) (v : B)
    → (on_value r w f).0 ≡ success v
    → (a : A) × (r ≡ success a) × (on_value r w f ≡ f a w)
on_value-success (failure x) w f v e = ground (arith, e)
on_value-success (success a) w f v e = (a, refl, refl)

on_nil-success :
    {W B : Type 0} (x : Error) (w : W) (f : W → Result B × W) (v : B)
    → (on_nil x w f).0 ≡ success v
    → (x ≡ []) × (on_nil x w f ≡ f w)
on_nil-success [] w f v e = (refl, refl)
on_nil-success (x ∷ xs) w f v e = ground (arith, e)

abbrev or_value : {A : Type 0} → A → Result A → A
or_value a (success x) = x
or_value a (failure e) = a

pub success-inj : {A : Type 0} (a c : A) → success a ≡ success c → a ≡ c
success-inj a c e = ap (or_value a) e

map_error-success :
    {A : Type 0} (g : Error → Error) (r : Result A) (a : A)
    → map_error g r ≡ success a
    → r ≡ success a
map_error-success g (failure x) a e = ground (arith, e)
map_error-success g (success x) a e = e

pub same_int-path : (a b : ℤ) → same_int a b ≡ true → a ≡ b
same_int-path (pos a) (pos b) e = ap pos ((==_iff a b).0 e)
same_int-path (negsuc a) (negsuc b) e = ap negsuc ((==_iff a b).0 e)
same_int-path (pos a) (negsuc b) e = ground (arith, e)
same_int-path (negsuc a) (pos b) e = ground (arith, e)

claims-match :
    (s : AuthSession) (u : Uuid) (version : ℤ)
    → validate_refresh_session_claims s u version ≡ []
    → (s.user_id ≡ u) × (s.token_version ≡ version)
unfolding validate_refresh_session_claims
claims-match s u version e =
    elim (Bool-cases (s.user_id == u && same_int s.token_version version)) [
      | inl same ↦
          (ground (arith, same), same_int-path s.token_version version (ground (arith, same)))
      | inr other ↦ ground (arith, e, other)
    ]

version-match : (a b : ℤ) → validate_token_version_match a b ≡ [] → a ≡ b
unfolding validate_token_version_match
version-match a b e = elim (Bool-cases (same_int a b)) [
  | inl same ↦ same_int-path a b same
  | inr other ↦ ground (arith, e, other)
]

module _ {W : Type 0} (ports : Ports W) where
  -- what ValidateRefreshSession has seen when it returns a session
  validate_refresh_session-ok :
      (c : Claims) (w : W) (session : AuthSession) (version : ℤ)
      → (validate_refresh_session ports c w).0 ≡ success (session, version)
      → ((ports.get_session c.user_id c.session_id w).0 ≡ success session)
        × (session.user_id ≡ c.user_id)
        × (session.token_version ≡ c.token_version)
        × ((current_token_version ports c.user_id (ports.get_session c.user_id c.session_id w).1).0
            ≡ success version)
        × (version ≡ c.token_version)
  unfolding validate_refresh_session
  validate_refresh_session-ok c w session version e =
      let read = ports.get_session c.user_id c.session_id w in
      let (s, found, step1) = on_value-success (map_error _ read.0) read.1 _ (session, version) e in
      let e2 = ap (λ r. r.0) (sym step1) ∙ e in
      let (claimed, step2) =
        on_nil-success (validate_refresh_session_claims s c.user_id c.token_version) read.1 _
          (session, version) e2 in
      let e3 = ap (λ r. r.0) (sym step2) ∙ e2 in
      let current = current_token_version ports c.user_id read.1 in
      let (v, known, step3) =
        on_value-success (map_error _ current.0) current.1 _ (session, version) e3 in
      let e4 = ap (λ r. r.0) (sym step3) ∙ e3 in
      let (matched, step4) =
        on_nil-success (validate_token_version_match v s.token_version) current.1 _
          (session, version) e4 in
      let e5 = ap (λ r. r.0) (sym step4) ∙ e4 in
      let same = success-inj (s, v) (session, version) e5 in
      let same_s : s ≡ session = ap (λ (x : AuthSession × ℤ). x.0) same in
      let same_v : v ≡ version = ap (λ (x : AuthSession × ℤ). x.1) same in
      let (owned, bound) = claims-match s c.user_id c.token_version claimed in
      let agreed = version-match v s.token_version matched in
      (
        map_error-success _ read.0 s found ∙ ap success same_s,
        ap (λ (x : AuthSession). x.user_id) (sym same_s) ∙ owned,
        ap (λ (x : AuthSession). x.token_version) (sym same_s) ∙ bound,
        map_error-success _ current.0 v known ∙ ap success same_v,
        sym same_v ∙ agreed ∙ bound,
      )

  rejected_rotation-nil : (x : Error) → rejected_rotation x ≡ [] → x ≡ []
  rejected_rotation-nil [] e = refl
  rejected_rotation-nil (x ∷ xs) e = ground (arith, e)

  module _ (services : Services W) where
    -- the token pair is stored under the session before it is returned
    issue_session-ok :
        (u : Uuid) (version : ℤ) (i : SessionId) (w : W) (tokens : TokenResult Text)
        → (issue_session ports services u version i w).0 ≡ success tokens
        → (issued : IssuedTokenPair Text) × ((services.issue_token_pair u version i w).0
            ≡ success issued)
          × ((create_token_session ports u i version issued.refresh_ttl
                (services.issue_token_pair u version i w).1).0
              ≡ [])
          × (issued.result ≡ tokens)
    unfolding issue_session
    issue_session-ok u version i w tokens e =
        let pair = services.issue_token_pair u version i w in
        let (issued, made, step1) = on_value-success pair.0 pair.1 _ tokens e in
        let e2 = ap (λ r. r.0) (sym step1) ∙ e in
        let created = create_token_session ports u i version issued.refresh_ttl pair.1 in
        let (kept, step2) = on_nil-success created.0 created.1 _ tokens e2 in
        (issued, made, kept, success-inj issued.result tokens (ap (λ r. r.0) (sym step2) ∙ e2))

    pub refresh_with_rotation-ok :
        (c : Claims) (prior : AuthSession) (version : ℤ) (w : W) (tokens : TokenResult Text)
        → (refresh_with_rotation ports services c prior version w).0 ≡ success tokens
        → (i : SessionId) × (issued : IssuedTokenPair Text) × (w3 : W) × (issued.result ≡ tokens)
          × ((ports.rotate_session prior
                (record {
                  user_id = c.user_id;
                  session_id = i;
                  token_version = version;
                  expires_at = 0;
                })
                issued.refresh_ttl
                ports.max_active_sessions
                w3).0
              ≡ [])
          × ((refresh_with_rotation ports services c prior version w).1
              ≡ (ports.rotate_session prior
                  (record {
                    user_id = c.user_id;
                    session_id = i;
                    token_version = version;
                    expires_at = 0;
                  })
                  issued.refresh_ttl
                  ports.max_active_sessions
                  w3).1)
    unfolding refresh_with_rotation rotate_token_session
    refresh_with_rotation-ok c prior version w tokens e =
        let fresh = services.new_session_id w in
        let (i, named, step1) = on_value-success fresh.0 fresh.1 _ tokens e in
        let e2 = ap (λ r. r.0) (sym step1) ∙ e in
        let pair = services.issue_token_pair c.user_id version i fresh.1 in
        let (issued, made, step2) = on_value-success pair.0 pair.1 _ tokens e2 in
        let e3 = ap (λ r. r.0) (sym step2) ∙ e2 in
        let (kept, step3) = on_nil-success _ _ _ tokens e3 in
        let e4 = ap (λ r. r.0) (sym step3) ∙ e3 in
        (
          i,
          issued,
          pair.1,
          success-inj issued.result tokens e4,
          rejected_rotation-nil _ kept,
          ap (λ r. r.1) (step1 ∙ step2 ∙ step3),
        )

    -- Refresh answers with tokens only if the refresh token was parsed to claims, GetSession then found a
    -- session of the user and the token version of the claims, and the current token version, read from
    -- Redis or the user store, was that version as well.
    pub refresh-Authorized :
        (rotation : Bool) (token : Text) (w : W) (tokens : TokenResult Text)
        → (refresh ports services rotation token w).0 ≡ success tokens
        → (c : Claims) × (session : AuthSession) × (w2 : W) × ((services.parse_refresh_token token
              w).0
            ≡ success c)
          × ((ports.get_session c.user_id c.session_id (services.parse_refresh_token token w).1).0
              ≡ success session)
          × (session.user_id ≡ c.user_id)
          × (session.token_version ≡ c.token_version)
          × ((current_token_version ports c.user_id
                (ports.get_session c.user_id c.session_id
                  (services.parse_refresh_token token w).1).1).0
              ≡ success c.token_version)
          × (refresh ports services rotation token w ≡ (
              if rotation
              then refresh_with_rotation ports services c session c.token_version w2
              else issue_session ports services c.user_id c.token_version session.session_id w2))
    unfolding refresh
    refresh-Authorized rotation token w tokens e =
        let (valid_input, step1) = on_nil-success (validate_refresh_token token) w _ tokens e in
        let e2 = ap (λ r. r.0) (sym step1) ∙ e in
        let parsed = services.parse_refresh_token token w in
        let (c, read, step2) = on_value-success parsed.0 parsed.1 _ tokens e2 in
        let e3 = ap (λ r. r.0) (sym step2) ∙ e2 in
        let valid = validate_refresh_session ports c parsed.1 in
        let (found, checked, step3) = on_value-success valid.0 valid.1 _ tokens e3 in
        let (got, owned, bound, known, unrevoked) =
          validate_refresh_session-ok c parsed.1 found.0 found.1 checked in
        (
          c,
          found.0,
          valid.1,
          read,
          got,
          owned,
          bound,
          known ∙ ap success unrevoked,
          step1
              ∙ step2
              ∙ step3
              ∙ ap
                  (λ v.
                    if rotation
                    then refresh_with_rotation ports services c found.0 v valid.1
                    else issue_session ports services c.user_id v found.0.session_id valid.1)
                  unrevoked,
        )
