-- ===== src/Auth/Validator.antt =====
-- user-service/internal/features/auth/application/validators (token_version_validator.go,
-- metrics_token_version_validator.go) and common/security/auth/token_version.go: the check of an access
-- token's version against the current one, through a cache in the process or without it.
use aegis_core.Base.{ℕ, suc, Option, none, some, [], ◌∷◌, if◌then◌else◌}
use aegis_core.Base.Int.{ℤ}
use aegis_core.Base.Text.{Uuid}
use aegis_core.Auth.Domain.{
  Error, Result, success, failure, same_int, token_version_mismatch, token_invalid,
}
use aegis_core.Auth.Lifecycle.{Ports, current_token_version}

-- ValidateTokenVersion of token_version.go
unfoldable pub validate_token_version : ℤ → ℤ → Error
validate_token_version token current =
    if same_int token current then [] else token_version_mismatch ∷ []

abbrev compared : ℤ → Result ℤ → Error
compared token (success current) = validate_token_version token current
compared token (failure e) = e

-- DirectTokenVersionCache: the counts of its loads
pub record DirectTokenVersionCache : Type 0 where
  pub load : ℕ
  pub load_error : ℕ

abbrev counted : {A : Type 0} → Result A → DirectTokenVersionCache → DirectTokenVersionCache
counted (success a) c = record c { load = suc c.load }
counted (failure e) c = record c { load = suc c.load; load_error = suc c.load_error }

module _ {W : Type 0} where
  -- DirectTokenVersionCache.Get, on the UUID that its key parses to
  unfoldable pub direct_get :
      Ports W → Uuid → DirectTokenVersionCache × W → Result ℤ × (DirectTokenVersionCache × W)
  direct_get ports u (c, w) =
      let answer = current_token_version ports u w in (answer.0, (counted answer.0 c, answer.1))

  -- TokenVersionValidator.ValidateTokenVersion over the Get of its cache
  unfoldable pub validate : (Uuid → W → Result ℤ × W) → Uuid → ℤ → W → Error × W
  validate get u token w = let answer = get u w in (compared token answer.0, answer.1)

  -- metricsTokenVersionValidator.ValidateTokenVersion, where there may be no validator behind it and the
  -- text of the user id may not be a UUID
  unfoldable pub validate_access_token :
      Option (Uuid → W → Result ℤ × W) → Option Uuid → ℤ → W → Error × W
  unfolding validate
  validate_access_token none user token w = ([], w)
  validate_access_token (some get) none token w = (token_invalid ∷ [], w)
  validate_access_token (some get) (some u) token w = validate get u token w
