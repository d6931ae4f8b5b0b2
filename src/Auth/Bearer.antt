-- ===== src/Auth/Bearer.antt =====
-- common/security/auth/token.go and isBlankToken of
-- user-service/internal/features/auth/application/validators/auth_validator.go. Texts are their runes.
use aegis_core.Base.{
  ℕ, ◌+◌, ◌≡◌, sym, ap, Bool, true, false, ◌&&◌, ◌||◌, Option, none, some, List, [], ◌∷◌, ◌==◌, leb,
  if◌then◌else◌, arith, Option-cases, Bool-cases, inl, inr,
}
use aegis_core.Base.Text.{is_space}

abbrev pub Text : Type 0
Text = List ℕ

-- strings.TrimSpace, from the front and from the back
abbrev trim_front : Text → Text
trim_front [] = []
trim_front (c ∷ cs) = if is_space c then trim_front cs else c ∷ cs

abbrev or_keep : ℕ → Text → Text
or_keep c [] = if is_space c then [] else c ∷ []
or_keep c (d ∷ ds) = c ∷ d ∷ ds

abbrev trim_back : Text → Text
trim_back [] = []
trim_back (c ∷ cs) = or_keep c (trim_back cs)

unfoldable pub trim_space : Text → Text
trim_space cs = trim_back (trim_front cs)

abbrev lower : ℕ → ℕ
lower c = if leb 65 c && leb c 90 then c + 32 else c

-- "bearer " and "bearer", which have no folded letters outside ASCII
abbrev bearer : Text
bearer = 98 ∷ 101 ∷ 97 ∷ 114 ∷ 101 ∷ 114 ∷ []

abbrev bearer_space : Text
bearer_space = 98 ∷ 101 ∷ 97 ∷ 114 ∷ 101 ∷ 114 ∷ 32 ∷ []

-- what follows a prefix, compared as strings.EqualFold does
abbrev after_prefix : Text → Text → Option Text
after_prefix [] cs = some cs
after_prefix (p ∷ ps) [] = none
after_prefix (p ∷ ps) (c ∷ cs) =
    let rest = after_prefix ps cs in if lower c == p then rest else none

abbrev strip_from : Text → Option Text → Text
strip_from whole none = whole
strip_from whole (some rest) = trim_space rest

-- StripBearerPrefix
unfoldable pub strip_bearer_prefix : Text → Text
unfolding trim_space
strip_bearer_prefix token =
    strip_from (trim_space token) (after_prefix bearer_space (trim_space token))

abbrev pub is_empty : Text → Bool
is_empty [] = true
is_empty (c ∷ cs) = false

abbrev is_whole : Option Text → Bool
is_whole (some []) = true
is_whole _ = false

-- isBlankToken
unfoldable pub is_blank_token : Text → Bool
unfolding strip_bearer_prefix
is_blank_token token =
    is_empty (strip_bearer_prefix token)
    || is_whole (after_prefix bearer (strip_bearer_prefix token))

pub data BearerError : Type 0 where
  missing_bearer_prefix empty_bearer_token : BearerError

abbrev non_empty : Text → Option BearerError × Text
non_empty [] = (some empty_bearer_token, [])
non_empty (c ∷ cs) = (none, c ∷ cs)

abbrev after_scheme : Option Text → Option BearerError × Text
after_scheme none = (some missing_bearer_prefix, [])
after_scheme (some rest) = non_empty (trim_space rest)

-- ParseBearerAuthorization
unfoldable pub parse_bearer_authorization : Text → Option BearerError × Text
unfolding trim_space
parse_bearer_authorization header =
    if is_whole (after_prefix bearer (trim_space header))
    then (some empty_bearer_token, [])
    else after_scheme (after_prefix bearer_space (trim_space header))

non_empty-token :
    (cs token : Text) → non_empty cs ≡ (none, token) → (cs ≡ token) × (is_empty token ≡ false)
non_empty-token [] token e = ground (arith, ap (λ r. r.0) e)
non_empty-token (c ∷ cs) token e =
    let same : c ∷ cs ≡ token = ap (λ (r : Option BearerError × Text). r.1) e in
    (same, ap is_empty (sym same))

-- A header that ParseBearerAuthorization accepts gives the token that StripBearerPrefix leaves of it, and
-- the token is not empty.
pub parse_bearer_authorization-strip :
    (header token : Text)
    → parse_bearer_authorization header ≡ (none, token)
    → (strip_bearer_prefix header ≡ token) × (is_empty token ≡ false)
unfolding parse_bearer_authorization strip_bearer_prefix
parse_bearer_authorization-strip header token e =
    let text = trim_space header in
    elim (Bool-cases (is_whole (after_prefix bearer text))) [
      | inl whole ↦ ground (arith, ap (λ r. r.0) e, whole)
      | inr partial ↦ elim (Option-cases (after_prefix bearer_space text)) [
        | inl none_found ↦ ground (arith, ap (λ r. r.0) e, partial, none_found)
        | inr (rest, found) ↦
            (let accepted =
                non_empty-token (trim_space rest) token (ground (arith, e, partial, found)) in
              (rw found accepted.0, accepted.1))
      ]
    ]
