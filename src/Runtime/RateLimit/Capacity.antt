-- ===== src/Runtime/RateLimit/Capacity.antt =====
-- The limiter of ratelimit.go keeps to its capacity.
use native.Mathlib.Nat.{mod-lt, div-add-mod}
use aegis_core.Base.{
  ℕ, zero, suc, ◌+◌, ◌-◌, ◌*◌, ◌/◌, ◌%◌, ◌≤◌, ◌<◌, ◌≡◌, ◌≢◌, refl, Bool, false, none, some, List,
  [], ◌∷◌, arith, length, filter, Option-cases, inl, inr, ◌∙◌,
}
use aegis_core.Runtime.RateLimit.{
  Bucket, Visitor, Shard, Limiter, CapacityPolicy, overflow, reject, nth, set_nth, find, touch,
  allow_in_shard, allow, is_kept, cleanup_shard, cleanup_below, cleanup, total, capacity_overflow,
  capacity_rejected, index_panic, fnv_hash, bit_and, shard_mask, shard_index,
}

-- the counter is the number of visitors, which is within the limit
pub record IsCounted {L : Type 0} (l : Limiter L) : Type 0 where
  pub counted : l.current_keys ≡ total l.shards
  pub bounded : l.current_keys ≤ l.max_keys

module _ {L : Type 0} where
  length-touch :
      (b : Bucket L) (now : ℕ) (key : List ℕ) (vs : List (Visitor L))
      → length (touch b now key vs) ≡ length vs
  length-touch b now key [] = refl
  length-touch b now key (v ∷ vs) = ground (arith, length-touch b now key vs)

  length-filter : (p : Visitor L → Bool) (vs : List (Visitor L)) → length (filter p vs) ≤ length vs
  length-filter p [] = omega arith
  length-filter p (v ∷ vs) = ground (arith, length-filter p vs)

  total-set_nth :
      (i : ℕ) (shards : List (Shard L)) (s t : Shard L)
      → nth i shards ≡ some s
      → (total (set_nth i t shards) + length s.visitors ≡ total shards + length t.visitors)
        × (length s.visitors ≤ total shards)
        × (length (set_nth i t shards) ≡ length shards)
  total-set_nth i [] s t h = absurd (cc)
  total-set_nth zero (r ∷ shards) s t h = ground (arith, h)
  total-set_nth (suc i) (r ∷ shards) s t h = ground (arith, total-set_nth i shards s t h)

  shard_facts :
      (b : Bucket L) (policy : CapacityPolicy) (max_keys current now : ℕ) (key : List ℕ)
      (s : Shard L)
      → current ≤ max_keys
      → let ((t, n), answer) = allow_in_shard b policy max_keys current now key s in
        (n + length s.visitors ≡ current + length t.visitors) × (n ≤ max_keys)
  unfolding allow_in_shard
  shard_facts b policy max_keys current now key s h = elim (Option-cases (find key s.visitors)) [
    | inl fresh ↦ ground (arith, fresh, h)
    | inr (v, is) ↦ ground (arith, is, h, length-touch b now key s.visitors)
  ]

  -- Every call of Allow keeps the counter equal to the number of visitors and within the limit, for
  -- any key and any bucket.
  pub allow-IsCounted :
      (b : Bucket L) (trim : List ℕ → List ℕ) (now : ℕ) (raw : List ℕ) (l : Limiter L)
      → IsCounted l
      → IsCounted (allow b trim now raw l).0
  unfolding allow
  allow-IsCounted b trim now raw l h =
      let key = trim raw in
      let i = shard_index (length l.shards) key in
      elim (Option-cases (nth i l.shards)) [
        | inl missing ↦ ground (arith, missing, h.counted, h.bounded)
        | inr (s, is) ↦
            let out = allow_in_shard b l.capacity_policy l.max_keys l.current_keys now key s in
            ground (
              arith,
              is,
              h.counted,
              h.bounded,
              shard_facts b l.capacity_policy l.max_keys l.current_keys now key s h.bounded,
              total-set_nth i l.shards s out.0.0 is,
            )
      ]

  cleanup_shard-IsCounted :
      (i now : ℕ) (l : Limiter L)
      → IsCounted l
      → IsCounted (cleanup_shard i now l)
        × ((cleanup_shard i now l).max_keys ≡ l.max_keys)
        × ((cleanup_shard i now l).current_keys ≤ l.current_keys)
  unfolding cleanup_shard
  cleanup_shard-IsCounted i now l h = elim (Option-cases (nth i l.shards)) [
    | inl missing ↦ ground (arith, missing, h.counted, h.bounded)
    | inr (s, is) ↦
        let kept = filter (is_kept l.key_ttl now) s.visitors in
        ground (
          arith,
          is,
          h.counted,
          h.bounded,
          length-filter (is_kept l.key_ttl now) s.visitors,
          total-set_nth i l.shards s (record s { visitors = kept }) is,
        )
  ]

  cleanup_below-IsCounted :
      (n now : ℕ) (l : Limiter L)
      → IsCounted l
      → IsCounted (cleanup_below n now l)
        × ((cleanup_below n now l).max_keys ≡ l.max_keys)
        × ((cleanup_below n now l).current_keys ≤ l.current_keys)
  cleanup_below-IsCounted zero now l h = (h, refl, omega arith)
  cleanup_below-IsCounted (suc n) now l h =
      let (h₁, m₁, c₁) = cleanup_below-IsCounted n now l h in
      let (h₂, m₂, c₂) = cleanup_shard-IsCounted n now (cleanup_below n now l) h₁ in
      (h₂, m₂ ∙ m₁, omega (arith, c₁, c₂))

  -- A cleanup keeps the counter equal to the number of visitors, and never raises it.
  cleanup-IsCounted :
      (now : ℕ) (l : Limiter L)
      → IsCounted l
      → IsCounted (cleanup now l) × ((cleanup now l).current_keys ≤ l.current_keys)
  unfolding cleanup
  cleanup-IsCounted now l h =
      let (k, m, c) = cleanup_below-IsCounted (length l.shards) now l h in ground (arith, h, k, c)

  -- no independent state for a key beyond the limit
  no_room :
      (b : Bucket L) (policy : CapacityPolicy) (max_keys now : ℕ) (key : List ℕ) (s : Shard L)
      → find key s.visitors ≡ none
      → let ((t, n), (allowed, e)) = allow_in_shard b policy max_keys max_keys now key s in
        (t.visitors ≡ s.visitors)
        × (n ≡ max_keys)
        × (policy ≡ reject → (t ≡ s) × (allowed ≡ false) × (e ≡ some capacity_rejected))
        × (policy ≡ overflow → e ≡ some capacity_overflow)
  unfolding allow_in_shard
  no_room b policy max_keys now key s new = ground (arith, new)

bit_product : (x y : ℕ) → x < 2 → x * y ≤ y
bit_product zero y h = omega arith
bit_product (suc zero) y h = omega arith
bit_product (suc (suc x)) y h = absurd (omega (arith, h))

bit_and-bound : (bits a b : ℕ) → bit_and bits a b ≤ b
unfolding bit_and
bit_and-bound zero a b = omega arith
bit_and-bound (suc bits) a b =
    let low = bit_product (a % 2) (b % 2) (mod-lt a (omega arith)) in
    omega (arith, low, bit_and-bound bits (a / 2) (b / 2), div-add-mod b 2)

shard_index-bound : (shards : ℕ) (key : List ℕ) → 0 < shards → shard_index shards key < shards
unfolding shard_index shard_mask
shard_index-bound shards key h = ground (
  arith,
  h,
  bit_and-bound 64 (fnv_hash 2166136261 key) (shards - 1),
  mod-lt (fnv_hash 2166136261 key) h,
)

nth_in : {L : Type 0} (i : ℕ) (shards : List (Shard L)) → i < length shards → nth i shards ≢ none
nth_in i [] h = absurd (omega (arith, h))
nth_in zero (s ∷ shards) h = λ e. absurd (cc)
nth_in (suc i) (s ∷ shards) h = nth_in i shards (omega (arith, h))

shard_answer :
    {L : Type 0} (b : Bucket L) (policy : CapacityPolicy) (max_keys current now : ℕ) (key : List ℕ)
    (s : Shard L)
    → (allow_in_shard b policy max_keys current now key s).1.1 ≢ some index_panic
unfolding allow_in_shard
shard_answer b policy max_keys current now key s = elim (Option-cases (find key s.visitors)) [
  | inl fresh ↦ ground (arith, fresh)
  | inr (v, is) ↦ ground (arith, is)
]

-- The shard of a key is always in range, so that Allow never panics on a limiter with shards; and it
-- leaves their number as it is.
allow-in_range :
    {L : Type 0} (b : Bucket L) (trim : List ℕ → List ℕ) (now : ℕ) (raw : List ℕ) (l : Limiter L)
    → 0 < length l.shards
    → ((allow b trim now raw l).1.1 ≢ some index_panic)
      × (length (allow b trim now raw l).0.shards ≡ length l.shards)
unfolding allow
allow-in_range b trim now raw l h =
    let key = trim raw in
    let i = shard_index (length l.shards) key in
    elim (Option-cases (nth i l.shards)) [
      | inl missing ↦ absurd (nth_in i l.shards (shard_index-bound (length l.shards) key h) missing)
      | inr (s, is) ↦
          let out = allow_in_shard b l.capacity_policy l.max_keys l.current_keys now key s in
          ground (
            arith,
            is,
            shard_answer b l.capacity_policy l.max_keys l.current_keys now key s,
            total-set_nth i l.shards s out.0.0 is,
          )
    ]
