-- ===== src/Runtime/Scheduler/Delays.antt =====
-- The delays between the attempts of lock.go.
use aegis_core.Base.{
  ℕ, ◌-◌, ◌*◌, ◌/◌, ◌^◌, ◌≤◌, ◌<◌, min, ◌≡◌, refl, true, false, Option, none, some, arith,
}
use aegis_core.Base.Int.{pos, ◌≤ℤ◌, half, double64, ltb_ℤ}
use aegis_core.Runtime.Scheduler.{RetryPolicy, next_retry_delay, retry_delay}

-- doubling a delay below the bound: the exact double, or what wraps around below zero
double64-cases :
    (c : ℕ)
    → c < 2 ^ 63
    → (c * 2 < 2 ^ 63 → double64 (pos c) ≡ pos (c * 2))
      × (2 ^ 63 ≤ c * 2 → ltb_ℤ (double64 (pos c)) (pos c) ≡ true)
unfolding double64
double64-cases c h = ground arith

-- The next delay is the doubled one, capped: the test of the source catches the overflow of int64
-- whatever the maximum.
next_retry_delay-eq-min :
    (c m : ℕ)
    → 0 < c
    → c < 2 ^ 63
    → m < 2 ^ 63
    → next_retry_delay (pos c) (pos m) ≡ pos (min m (c * 2))
unfolding next_retry_delay
next_retry_delay-eq-min c m positive hc hm = ground (arith, double64-cases c hc)

-- The delay that is slept stays between half of it and all of it, for every offset up to what is left
-- above the half, and it is the delay itself without jitter.
retry_delay_bounds :
    (p : RetryPolicy) (random : Option ℕ) (d : ℕ)
    → (some_offset : (n : ℕ) → random ≡ some n → n ≤ d - d / 2)
    → (pos (d / 2) ≤ℤ retry_delay p random (pos d))
      × (retry_delay p random (pos d) ≤ℤ pos d)
      × (p.jitter ≡ false → retry_delay p random (pos d) ≡ pos d)
unfolding retry_delay half
retry_delay_bounds p none d h = ground arith
retry_delay_bounds p (some n) d h = ground (arith, h n refl)
