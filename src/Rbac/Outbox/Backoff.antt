-- ===== src/Rbac/Outbox/Backoff.antt =====
-- RetryBackoff of outbox.go is a bounded exponential.
use native.Mathlib.Nat.{pow-suc}
use aegis_core.Base.{ℕ, zero, suc, ◌-◌, ◌*◌, ◌^◌, ◌≤◌, ◌<◌, min, ◌≡◌, none, arith}
use aegis_core.Base.Int.{pos, pos_part, ◌≤ℤ◌, half, double64-pos}
use aegis_core.Rbac.Outbox.{DispatcherSettings, validate, backoff_loop, retry_backoff}

pow_pos : (r : ℕ) → 1 ≤ 2 ^ r
pow_pos zero = omega arith
pow_pos (suc r) = let s = pow-suc 2 r in omega (arith, pow_pos r)

pow_grows : (d r : ℕ) → d ≤ d * 2 ^ r
pow_grows d r = grind (arith, pow_pos r)

pow_shift : (d r : ℕ) → d * 2 ^ suc r ≡ d * 2 * 2 ^ r
pow_shift d r = simp pow-suc (omega arith)

-- on positive int64 values the loop is the minimum of the bound and the doubled delay
backoff_loop-pos :
    (rounds m d : ℕ)
    → m < 2 ^ 63
    → d ≤ m
    → backoff_loop rounds (pos m) (pos d) ≡ pos (min m (d * 2 ^ rounds))
unfolding backoff_loop half
backoff_loop-pos zero m d small h = ground arith
backoff_loop-pos (suc r) m d small h =
    ground (
      arith,
      pow_shift d r,
      pow_grows (d * 2) r,
      double64-pos d,
      backoff_loop-pos r m (d * 2) small,
    )

-- what the dispatcher's constructor has checked of the two delays
validate_delays :
    (s : DispatcherSettings)
    → validate s ≡ none
    → (s.backoff_initial ≡ pos (pos_part s.backoff_initial))
      × (s.backoff_max ≡ pos (pos_part s.backoff_max))
      × (0 < pos_part s.backoff_initial)
      × (pos_part s.backoff_initial ≤ pos_part s.backoff_max)
unfolding validate
validate_delays s valid = ground arith

loop_rounds : (k : ℕ) → suc (suc k) - 1 ≡ suc k
loop_rounds k = omega arith

-- With the settings that the constructor accepts, RetryBackoff doubles the initial delay with each
-- attempt and stops at the maximum, with no overflow of int64.
pub retry_backoff-eq-min :
    (s : DispatcherSettings) (k : ℕ)
    → validate s ≡ none
    → pos_part s.backoff_max < 2 ^ 63
    → retry_backoff s (pos (suc k))
      ≡ pos (min (pos_part s.backoff_max) (pos_part s.backoff_initial * 2 ^ k))
unfolding retry_backoff
retry_backoff-eq-min s zero valid small = ground (arith, validate_delays s valid)
retry_backoff-eq-min s (suc k) valid small =
    let (i, m, p, q) = validate_delays s valid in
    ground (
      arith,
      i,
      m,
      loop_rounds k,
      backoff_loop-pos (suc k) (pos_part s.backoff_max) (pos_part s.backoff_initial) small q,
    )

-- With the settings that the constructor accepts, the delay of each attempt lies between the two
-- settings, and that of the next attempt is not smaller.
retry_backoff_bounds :
    (s : DispatcherSettings) (k : ℕ)
    → validate s ≡ none
    → pos_part s.backoff_max < 2 ^ 63
    → (s.backoff_initial ≤ℤ retry_backoff s (pos (suc k)))
      × (retry_backoff s (pos (suc k)) ≤ℤ s.backoff_max)
      × (retry_backoff s (pos (suc k)) ≤ℤ retry_backoff s (pos (suc (suc k))))
retry_backoff_bounds s k valid small = ground (
  arith,
  validate_delays s valid,
  retry_backoff-eq-min s k valid small,
  retry_backoff-eq-min s (suc k) valid small,
  pow_grows (pos_part s.backoff_initial) k,
  pow_shift (pos_part s.backoff_initial) k,
)
