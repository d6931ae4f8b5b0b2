-- ===== src/Rbac/Engine/Enforcement.antt =====
-- Enforce of enforcer.go, with the two readings of the engine's state that bracket the reading of the
-- user's roles, and the matcher of user-service/internal/features/permission/infrastructure/casbin/model.conf.
use aegis_core.Base.{
  ◌≡◌, refl, ap, Bool, true, false, not, ◌&&◌, Option, none, some, List, [], ◌∷◌, ◌++◌, arith,
  if◌then◌else◌, String, is_some, any, Option-cases, inl, inr, Bool-cases,
}
use aegis_core.Base.Int.{◌≤ℤ◌}
use aegis_core.Base.Text.{Uuid}
use aegis_core.Rbac.Dispatcher.{ContextError}
use aegis_core.Rbac.Engine.{Engine, PolicySet, ready, projection_status}

pub data EnforceError : Type 0 where
  context_ended : ContextError → EnforceError
  roles_failed : EnforceError
  casbin_failed : EnforceError

-- the library that evaluates one request of a role against the policy: an error, or a decision
abbrev pub Casbin : Type 0
Casbin = PolicySet → Uuid → String → String → Option Bool

-- what Enforce does with the roles: the first error or the first allow ends the loop
unfoldable pub enforce_roles :
    Casbin → PolicySet → List Uuid → String → String → Bool × Option EnforceError
enforce_roles casbin p [] path method = (false, none)
enforce_roles casbin p (role ∷ roles) path method =
    let rest = enforce_roles casbin p roles path method in
    elim (casbin p role path method) [
      | none ↦ (false, some casbin_failed)
      | some allowed ↦ if allowed then (true, none) else rest
    ]

abbrev pub is_ready : Engine → Bool
is_ready e = ready (projection_status e)

-- userRoles.RolesForUser: absent, or an error, or the user's roles
abbrev RoleSource : Type 0
RoleSource = Option (Option (List Uuid))

-- Engine.Enforce: `before` is the engine under the first lock, `after` under the second
unfoldable pub enforce :
    Casbin
    → Option ContextError
    → RoleSource
    → Engine
    → Engine
    → String
    → String
    → Bool × Option EnforceError
enforce casbin (some c) source before after path method = (false, some (context_ended c))
enforce casbin none source before after path method =
    if not (is_ready before && is_some before.enforcer) then (false, none) else elim source [
      | none ↦ (false, none)
      | some none ↦ (false, some roles_failed)
      | some (some roles) ↦ elim after.enforcer [
        | none ↦ (false, none)
        | some p ↦
            if not (is_ready after) then (false, none) else enforce_roles casbin p roles path method
      ]
    ]

-- some role of the list is allowed
abbrev AllowedBy : Casbin → PolicySet → String → String → List Uuid → Type 0
AllowedBy casbin p path method roles =
    (role : Uuid) × (before : List Uuid) × (after : List Uuid) × (roles ≡ before ++ role ∷ after)
    × (casbin p role path method ≡ some true)

enforce_roles-AllowedBy :
    (casbin : Casbin) (p : PolicySet) (roles : List Uuid) (path method : String)
    → (enforce_roles casbin p roles path method).0 ≡ true
    → AllowedBy casbin p path method roles
unfolding enforce_roles
enforce_roles-AllowedBy casbin p [] path method h = absurd (cc)
enforce_roles-AllowedBy casbin p (role ∷ roles) path method h =
    let rest = enforce_roles-AllowedBy casbin p roles path method in
    elim (Option-cases (casbin p role path method)) [
      | inl failed ↦ absurd (ground (arith, failed, h))
      | inr (allowed, is) ↦ elim (Bool-cases allowed) [
        | inl good ↦ (role, [], roles, refl, ground (arith, is, good))
        | inr bad ↦
            let (r, before, after, split, ok) = rest (ground (arith, is, bad, h)) in
            (r, role ∷ before, after, ap (λ l. role ∷ l) split, ok)
      ]
    ]

pub record IsGranted (casbin : Casbin) (source : RoleSource) (before after : Engine)
    (path method : String) : Type 0 where
  pub before_ready : is_ready before ≡ true
  pub after_ready : is_ready after ≡ true
  pub reached : after.target_revision ≤ℤ after.applied_revision
  pub policy : PolicySet
  pub loaded : after.enforcer ≡ some policy
  pub roles : List Uuid
  pub resolved : source ≡ some (some roles)
  pub allowed : AllowedBy casbin policy path method roles

ready_reached : (e : Engine) → is_ready e ≡ true → e.target_revision ≤ℤ e.applied_revision
unfolding ready projection_status
ready_reached e h = ground arith

ready_at_end :
    (casbin : Casbin) (roles : List Uuid) (before after : Engine) (path method : String)
    (p : PolicySet)
    → after.enforcer ≡ some p
    → (enforce casbin none (some (some roles)) before after path method).0 ≡ true
    → (is_ready before ≡ true)
      × (is_ready after ≡ true)
      × ((enforce_roles casbin p roles path method).0 ≡ true)
unfolding enforce
ready_at_end casbin roles before after path method p is h = ground (arith, is, h)

-- Fail closed: access is granted only without a context error, with the engine ready at both readings
-- and its target reached, by the policy that is loaded then, and for a role that the user has.
pub enforce-IsGranted :
    (casbin : Casbin) (ctx : Option ContextError) (source : RoleSource) (before after : Engine)
    (path method : String)
    → (enforce casbin ctx source before after path method).0 ≡ true
    → (ctx ≡ none) × IsGranted casbin source before after path method
unfolding enforce
enforce-IsGranted casbin (some c) source before after path method h = absurd (cc)
enforce-IsGranted casbin none none before after path method h = absurd (ground (arith, h))
enforce-IsGranted casbin none (some none) before after path method h = absurd (ground (arith, h))
enforce-IsGranted casbin none (some (some roles)) before after path method h =
    elim (Option-cases after.enforcer) [
      | inl missing ↦ absurd (ground (arith, missing, h))
      | inr (p, is) ↦
          let ready_then = ready_at_end casbin roles before after path method p is h in
          (
            refl,
            record {
              before_ready = ready_then.0;
              after_ready = ready_then.1;
              reached = ready_reached after ready_then.1;
              policy = p;
              loaded = is;
              roles = roles;
              resolved = refl;
              allowed = enforce_roles-AllowedBy casbin p roles path method ready_then.2;
            },
          )
    ]

-- what the library decides for one role, where an error is no permission
abbrev pub allows : Casbin → PolicySet → String → String → Uuid → Bool
allows casbin p path method role = elim (casbin p role path method) [ none ↦ false | some b ↦ b ]

enforce_roles-any :
    (casbin : Casbin) (p : PolicySet) (roles : List Uuid) (path method : String)
    → ((role : Uuid) → is_some (casbin p role path method) ≡ true)
    → enforce_roles casbin p roles path method ≡ (any (allows casbin p path method) roles, none)
unfolding enforce_roles
enforce_roles-any casbin p [] path method answers = refl
enforce_roles-any casbin p (role ∷ roles) path method answers =
    ground (arith, answers role, enforce_roles-any casbin p roles path method answers)

-- A ready engine decides: without a context error, with the engine ready and a policy loaded at both
-- readings, and a library that answers without errors, access is granted exactly when the loaded
-- policy allows one of the user's roles, and there is no error.
pub enforce-any :
    (casbin : Casbin) (before after : Engine) (p : PolicySet) (roles : List Uuid)
    (path method : String)
    → is_ready before ≡ true
    → is_some before.enforcer ≡ true
    → is_ready after ≡ true
    → after.enforcer ≡ some p
    → ((role : Uuid) → is_some (casbin p role path method) ≡ true)
    → enforce casbin none (some (some roles)) before after path method
      ≡ (any (allows casbin p path method) roles, none)
unfolding enforce
enforce-any casbin before after p roles path method early loaded_then late is answers =
    ground
      (arith, early, loaded_then, late, is, enforce_roles-any casbin p roles path method answers)
