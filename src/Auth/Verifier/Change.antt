-- ===== src/Auth/Verifier/Change.antt =====
-- What a forced change of the password has changed when it succeeds.
use aegis_core.Base.{◌≡◌, refl, inl, inr, ◌⊎◌}
use aegis_core.Auth.Domain.{Error, Result, success, failure}

Result-cases :
    {A : Type 0} (r : Result A) → ((x : Error) × (r ≡ failure x)) ⊎ ((a : A) × (r ≡ success a))
Result-cases (failure x) = inl (x, refl)
Result-cases (success a) = inr (a, refl)
