-- ===== src/Runtime/Scheduler/Ownership.antt =====
-- Who holds the lock of lock.go.
use aegis_core.Base.{
  ℕ, zero, suc, ◌+◌, ◌/◌, ◌<◌, ◌≤◌, ◌≡◌, ◌≢◌, true, false, none, some, List, [], ◌∷◌, arith, length,
  ==_iff, Option-cases, Bool-cases, inl, inr, String, leb,
}
use aegis_core.Base.Int.{ℤ, pos, negsuc, ◌<ℤ◌, ◌≤ℤ◌}
use aegis_core.Runtime.Scheduler.{
  RetryPolicy, lock_not_owned, RedisKey, RedisLaws, redis_unlock_script, redis_renew_script, unlock,
  renew, Round, acquired, still_waiting, acquire_loop, acquire, next_retry_delay,
}

below : (n attempt : ℕ) → leb (suc n) attempt ≡ false → attempt + 1 ≤ suc n
below n attempt h = ground arith

module _ {R : Type 0} (redis : RedisKey R) (laws : RedisLaws redis) where
  prolonged-pos :
      (o ms : ℕ) (r : R)
      → redis.get r ≡ some o
      → 0 < ms
      → ((redis.pexpire (pos ms) r).1 ≡ 1) × (redis.get (redis.pexpire (pos ms) r).0 ≡ some o)
  prolonged-pos o zero r held some_time = absurd (omega (arith, some_time))
  prolonged-pos o (suc n) r held some_time = laws.prolonged o n r held

  -- the owner's renewal, by the whole milliseconds of its TTL
  renew-owner :
      (owner : ℕ) (ttl : ℤ) (r : R)
      → redis.get r ≡ some owner
      → pos 0 <ℤ ttl
      → ((renew redis true owner ttl r).0 ≡ none)
        × (pos 1000000 ≤ℤ ttl → redis.get (renew redis true owner ttl r).1 ≡ some owner)
        × (ttl <ℤ pos 1000000 → redis.get (renew redis true owner ttl r).1 ≡ none)
  unfolding renew redis_renew_script
  renew-owner owner (negsuc n) r held positive = absurd (omega (arith, positive))
  renew-owner owner (pos t) r held positive = elim (Bool-cases (leb 1000000 t)) [
    | inl long ↦
        let kept = prolonged-pos owner (t / 1000000) r held (ground (arith, long)) in
        ground (arith, held, positive, long, kept, ==_iff owner owner)
    | inr short ↦
        let none_left : t / 1000000 ≡ 0 = ground (arith, short) in
        let gone = laws.expired owner (pos (t / 1000000)) r held (ground (arith, none_left)) in
        ground (arith, held, positive, short, gone, ==_iff owner owner)
  ]

  -- Owner only, for a key that an owner holds, a positive TTL and a Redis that answers as documented.
  -- The owner's unlock frees the key. Its renewal reports success; it keeps the key when the TTL is a
  -- millisecond or more, and loses it when the TTL is shorter. Anyone else's unlock or renewal changes
  -- nothing and reports that the lock is not owned.
  pub unlock-renew-owner :
      (token owner : ℕ) (ttl : ℤ) (r : R)
      → redis.get r ≡ some owner
      → pos 0 <ℤ ttl
      → (token ≡ owner
          → ((unlock redis true token r).0 ≡ none)
            × (redis.get (unlock redis true token r).1 ≡ none)
            × ((renew redis true token ttl r).0 ≡ none)
            × (pos 1000000 ≤ℤ ttl → redis.get (renew redis true token ttl r).1 ≡ some owner)
            × (ttl <ℤ pos 1000000 → redis.get (renew redis true token ttl r).1 ≡ none))
        × (token ≢ owner
            → (unlock redis true token r ≡ (some lock_not_owned, r))
              × (renew redis true token ttl r ≡ (some lock_not_owned, r)))
  unfolding unlock renew redis_unlock_script redis_renew_script
  unlock-renew-owner token owner ttl r held positive = (
    λ same.
        let (renewed, longer, shorter) = renew-owner owner ttl r held positive in
        let removal = laws.deleted owner r held in
        rw (same) (
          ground (arith, held, removal, ==_iff owner owner),
          ground (arith, held, removal, ==_iff owner owner),
          renewed,
          longer,
          shorter,
        ),
    λ other. ground (arith, held, positive, ==_iff owner token),
  )

  set-acquires :
      (t : ℕ) (ttl : ℤ) (r : R)
      → (redis.set_nx t ttl r).1 ≡ true
      → redis.get (redis.set_nx t ttl r).0 ≡ some t
  set-acquires t ttl r h = elim (Option-cases (redis.get r)) [
    | inl free ↦ (laws.set_free t ttl r free).1
    | inr (o, held) ↦ absurd (cc ((laws.set_taken t o ttl r held).0, h))
  ]

  module _ (policy : RetryPolicy) (token : ℕ) (ttl : ℤ) where
    -- when the loop says that the lock is acquired, the key holds this attempt's token
    acquire_loop-owns :
        (rounds : List (Round R)) (attempt : ℕ) (delay : ℤ) (r : R)
        → let a = acquire_loop redis policy token ttl rounds attempt delay r in
          a.answer ≡ acquired → redis.get a.store ≡ some token
    unfolding acquire_loop
    acquire_loop-owns [] attempt delay r h = absurd (cc)
    acquire_loop-owns (round ∷ rounds) attempt delay r h =
        let s = redis.set_nx token ttl (round.others r) in
        let rest =
          acquire_loop-owns rounds (attempt + 1) (next_retry_delay delay policy.max_interval) s.0 in
        ground (arith, h, rest, set-acquires token ttl (round.others r))

    -- at most the policy's attempts, and as many rounds are enough to have an answer
    acquire_loop-bounded :
        (n : ℕ) (rounds : List (Round R)) (attempt : ℕ) (delay : ℤ) (r : R)
        → policy.max_attempts ≡ pos (suc n)
        → 1 ≤ attempt
        → attempt ≤ suc n
        → let a = acquire_loop redis policy token ttl rounds attempt delay r in
          (a.tries + attempt ≤ suc n + 1)
          × (suc n + 1 ≤ length rounds + attempt → a.answer ≢ still_waiting)
    unfolding acquire_loop
    acquire_loop-bounded n [] attempt delay r h low high = ground (arith, h, low, high)
    acquire_loop-bounded n (round ∷ rounds) attempt delay r h low high =
        let s = redis.set_nx token ttl (round.others r) in
        let d = next_retry_delay delay policy.max_interval in
        elim (Bool-cases (leb (suc n) attempt)) [
          | inl last ↦ ground (arith, h, low, high, last)
          | inr more ↦ ground (
            arith,
            h,
            low,
            high,
            more,
            acquire_loop-bounded n rounds (attempt + 1) d s.0 h (omega arith)
                (below n attempt more),
          )
        ]

    -- Acquire under a policy that bounds the attempts, on a Redis that does what is documented: if it
    -- says that the lock is acquired, the key holds this call's token, whatever other owners did in
    -- between; it makes at most that many attempts; and as many rounds are enough for an answer.
    pub acquire-owns :
        (n : ℕ) (key : String) (wait_timeout : ℤ) (rounds : List (Round R)) (r : R)
        → policy.max_attempts ≡ pos (suc n)
        → let a = acquire redis policy token ttl key wait_timeout rounds r in
          (a.answer ≡ acquired → redis.get a.store ≡ some token)
          × (a.tries ≤ suc n)
          × (suc n ≤ length rounds → a.answer ≢ still_waiting)
    unfolding acquire
    acquire-owns n key wait_timeout [] r h = ground (
      arith,
      h,
      acquire_loop-owns [] 1 policy.initial_interval r,
      acquire_loop-bounded n [] 1 policy.initial_interval r,
    )
    acquire-owns n key wait_timeout (round ∷ rounds) r h = ground (
      arith,
      h,
      set-acquires token ttl (round.others r),
      acquire_loop-owns (round ∷ rounds) 1 policy.initial_interval r,
      acquire_loop-bounded n (round ∷ rounds) 1 policy.initial_interval r,
    )
