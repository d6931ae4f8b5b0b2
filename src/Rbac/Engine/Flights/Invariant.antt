-- ===== src/Rbac/Engine/Flights/Invariant.antt =====
-- What every schedule of the goroutines around one engine keeps.
use aegis_core.Base.{
  ℕ, ◌+◌, ◌≤◌, ◌<◌, Bool, true, Option, none, some, List, [], ◌∷◌, ◌++◌, ◌≡◌, refl, arith, ◌==◌,
  ==_iff, count, All,
}
use aegis_core.Base.Int.{ℤ, pos, ◌≤ℤ◌}
use aegis_core.Rbac.Engine.{Engine, PolicySet, ReloadFlight, is_current}
use aegis_core.Rbac.Engine.Flights.{Run, looping, building, System}

abbrev pub waits_for : ℕ → ℕ → Bool
waits_for i id = id == i

-- identifiers that were given out
abbrev pub AllBelow : ℕ → List ℕ → Type 0
AllBelow n [] = Unit
AllBelow n (id ∷ ids) = (id < n) × AllBelow n ids

-- the flight that new callers join: its identifier was given out, and it counts those who wait for
-- it, of whom there is one
abbrev pub FlightIsSound : ℕ → List ℕ → Option ReloadFlight → Type 0
FlightIsSound fresh callers none = Unit
FlightIsSound fresh callers (some f) =
    (f.id < fresh) × (f.waiters ≡ count (waits_for f.id) callers) × (0 < f.waiters)

-- the policy that decides is the one of the applied revision
abbrev pub PolicyIsSound : ℤ → Bool → Option PolicySet → Type 0
PolicyIsSound applied initialized none = Unit
PolicyIsSound applied initialized (some p) = (p.revision ≡ applied) × (initialized ≡ true)

-- a run that may still apply its candidate took its order when the database was at least as far as
-- what is applied
abbrev pub RunIsSound : Engine → ℤ → Run → Type 0
RunIsSound e database (looping id) = id < e.fresh
RunIsSound e database (building id target force started) =
    (id < e.fresh)
    × (started ≤ℤ database)
    × (is_current id e ≡ true → e.applied_revision ≤ℤ started)

pub record IsSound (s : System) : Type 0 where
  pub not_negative : pos 0 ≤ℤ s.engine.applied_revision
  pub behind : s.engine.applied_revision ≤ℤ s.database
  pub policy : PolicyIsSound s.engine.applied_revision s.engine.initialized s.engine.enforcer
  pub flight : FlightIsSound s.engine.fresh s.callers s.engine.flight
  pub runs : All (RunIsSound s.engine s.database) s.runs
  pub callers : AllBelow s.engine.fresh s.callers

-- what a change of the engine must respect for the runs to stay sound
pub record IsCalmer (e e' : Engine) : Type 0 where
  pub given_out : e.fresh ≤ e'.fresh
  pub current :
      (id : ℕ)
      → id < e.fresh
      → is_current id e' ≡ true
      → (is_current id e ≡ true) × (e'.applied_revision ≡ e.applied_revision)

RunIsSound-calmer :
    (e e' : Engine) (d d' : ℤ)
    → IsCalmer e e'
    → d ≤ℤ d'
    → (r : Run) → RunIsSound e d r
    → RunIsSound e' d' r
RunIsSound-calmer e e' d d' h k (looping id) s = ground (arith, h.given_out)
RunIsSound-calmer e e' d d' h k (building id target force started) s =
    (ground (arith, h.given_out), ground arith, λ now. ground (arith, h.current id s.0 now))

pub All-map : {P Q : Run → Type 0} → ((r : Run) → P r → Q r) → (rs : List Run) → All P rs → All Q rs
All-map f [] h = h
All-map f (r ∷ rs) h = (f r h.0, All-map f rs h.1)

pub AllBelow-mono : (n m : ℕ) → n ≤ m → (xs : List ℕ) → AllBelow n xs → AllBelow m xs
AllBelow-mono n m h [] k = k
AllBelow-mono n m h (x ∷ xs) k = (omega (arith, k.0), AllBelow-mono n m h xs k.1)

pub AllBelow-remove :
    (n : ℕ) (xs : List ℕ) (y : ℕ) (ys : List ℕ) → AllBelow n (xs ++ y ∷ ys) → AllBelow n (xs ++ ys)
AllBelow-remove n [] y ys h = h.1
AllBelow-remove n (x ∷ xs) y ys h = (h.0, AllBelow-remove n xs y ys h.1)

pub runs_calmer :
    (e e' : Engine) (d d' : ℤ)
    → IsCalmer e e'
    → d ≤ℤ d'
    → (rs : List Run) → All (RunIsSound e d) rs
    → All (RunIsSound e' d') rs
runs_calmer e e' d d' h k rs s = All-map (λ r. RunIsSound-calmer e e' d d' h k r) rs s

module _ {ℓ κ} {A : Type ℓ} where
  pub All-split :
      (P : A → Type κ) (xs : List A) (y : A) (ys : List A)
      → All P (xs ++ y ∷ ys)
      → All P xs × P y × All P ys
  All-split P [] y ys h = (tt, h.0, h.1)
  All-split P (x ∷ xs) y ys h = let (a, b, c) = All-split P xs y ys h.1 in ((h.0, a), b, c)

module _ {ℓ} {A : Type ℓ} where
  pub count-remove :
      (p : A → Bool) (xs : List A) (y : A) (ys : List A)
      → count p (xs ++ y ∷ ys) ≡ count p (y ∷ []) + count p (xs ++ ys)
  count-remove p [] y ys = ground arith
  count-remove p (x ∷ xs) y ys = ground (arith, count-remove p xs y ys)

-- nobody waits for an identifier that was not given out
pub count_fresh : (n : ℕ) (xs : List ℕ) → AllBelow n xs → count (waits_for n) xs ≡ 0
count_fresh n [] h = refl
count_fresh n (x ∷ xs) h = ground (arith, ==_iff x n, count_fresh n xs h.1)
