-- ===== src/Runtime/RateLimit.antt =====
-- common/http/middleware/ratelimit.go: the local token-bucket limiter and its middleware. Keys are their
-- bytes, times are in nanoseconds, and a bucket of golang.org/x/time/rate is a parameter. A call of
-- Allow holds one shard; the map of a shard is a list of visitors.
pub mod Capacity
use aegis_core.Base.{
  ℕ, zero, suc, ◌+◌, ◌-◌, ◌*◌, ◌/◌, ◌%◌, ◌^◌, ◌≡◌, Bool, true, false, not, ◌&&◌, ◌||◌, Option, none,
  some, List, [], ◌∷◌, ◌==◌, if◌then◌else◌, leb, ltb, length, filter,
}

pub data CapacityPolicy : Type 0 where
  overflow reject : CapacityPolicy

pub data LimitError : Type 0 where
  key_required limiter_closed capacity_overflow capacity_rejected : LimitError
  -- an index out of range, which would be a panic
  index_panic : LimitError

pub record Bucket (L : Type 0) : Type 0 where
  pub fresh : L
  pub allow_n : ℕ → L → L × Bool

pub record Visitor (L : Type 0) : Type 0 where
  pub key : List ℕ
  pub limiter : L
  pub last_seen : ℕ

pub record Shard (L : Type 0) : Type 0 where
  pub visitors : List (Visitor L)
  pub overflow_limiter : Option L

pub record Limiter (L : Type 0) : Type 0 where
  pub key_ttl : ℕ
  pub max_keys : ℕ
  pub current_keys : ℕ
  pub capacity_policy : CapacityPolicy
  pub shards : List (Shard L)
  pub cleanup_cursor : ℕ
  pub closed : Bool

abbrev same_key : List ℕ → List ℕ → Bool
same_key [] [] = true
same_key [] (y ∷ ys) = false
same_key (x ∷ xs) [] = false
same_key (x ∷ xs) (y ∷ ys) = let rest = same_key xs ys in x == y && rest

-- bitwise exclusive or, and, of `bits` bits
unfoldable pub bit_xor : ℕ → ℕ → ℕ → ℕ
bit_xor zero a b = 0
bit_xor (suc bits) a b = (a % 2 + b % 2) % 2 + 2 * bit_xor bits (a / 2) (b / 2)

unfoldable pub bit_and : ℕ → ℕ → ℕ → ℕ
bit_and zero a b = 0
bit_and (suc bits) a b = a % 2 * (b % 2) + 2 * bit_and bits (a / 2) (b / 2)

-- the loop of shardFor: FNV-1a in uint32
unfoldable pub fnv_hash : ℕ → List ℕ → ℕ
fnv_hash hash [] = hash
fnv_hash hash (byte ∷ bytes) = fnv_hash (bit_xor 32 hash byte * 16777619 % 2 ^ 32) bytes

-- shardMask: the mask of a power of two, else none
unfoldable pub shard_mask : ℕ → Option ℕ
shard_mask shards =
    if ltb 0 shards && bit_and 64 shards (shards - 1) == 0 then some (shards - 1) else none

-- the index that shardFor takes of `shards` shards
unfoldable pub shard_index : ℕ → List ℕ → ℕ
shard_index shards key =
    let hash = fnv_hash 2166136261 key in
    elim (shard_mask shards) [ some mask ↦ bit_and 64 hash mask | none ↦ hash % shards ]

module _ {L : Type 0} where
  abbrev pub nth : ℕ → List (Shard L) → Option (Shard L)
  nth i [] = none
  nth zero (s ∷ shards) = some s
  nth (suc i) (s ∷ shards) = nth i shards

  abbrev pub set_nth : ℕ → Shard L → List (Shard L) → List (Shard L)
  set_nth i t [] = []
  set_nth zero t (s ∷ shards) = t ∷ shards
  set_nth (suc i) t (s ∷ shards) = s ∷ set_nth i t shards

  abbrev pub find : List ℕ → List (Visitor L) → Option (Visitor L)
  find key [] = none
  find key (v ∷ vs) = let rest = find key vs in if same_key key v.key then some v else rest

  -- visitor.lastSeen = now and visitor.limiter.AllowN(now, 1), of the visitor of a key
  abbrev pub touch : Bucket L → ℕ → List ℕ → List (Visitor L) → List (Visitor L)
  touch bucket now key [] = []
  touch bucket now key (v ∷ vs) =
      let rest = touch bucket now key vs in
      if same_key key v.key
      then record v { limiter = (bucket.allow_n now v.limiter).0; last_seen = now } ∷ vs
      else v ∷ rest

  -- the section of Allow under the shard's lock: the shard, the key count and the answer
  unfoldable pub allow_in_shard :
      Bucket L
      → CapacityPolicy
      → ℕ
      → ℕ
      → ℕ
      → List ℕ
      → Shard L
      → (Shard L × ℕ) × (Bool × Option LimitError)
  allow_in_shard bucket policy max_keys current now key s = elim (find key s.visitors) [
    | some v ↦ (
      (record s { visitors = touch bucket now key s.visitors }, current),
      ((bucket.allow_n now v.limiter).1, none),
    )
    | none ↦
        let (limiter, allowed) = bucket.allow_n now bucket.fresh in
        let visitor : Visitor L = record { key = key; limiter = limiter; last_seen = now } in
        if leb (current + 1) max_keys
        then ((record s { visitors = visitor ∷ s.visitors }, current + 1), (allowed, none))
        else elim policy [
          | reject ↦ ((s, current), (false, some capacity_rejected))
          | overflow ↦ elim s.overflow_limiter [
            | none ↦ ((s, current), (false, some capacity_overflow))
            | some o ↦ (
              (record s { overflow_limiter = some (bucket.allow_n now o).0 }, current),
              ((bucket.allow_n now o).1, some capacity_overflow),
            )
          ]
        ]
  ]

  -- Allow, where `trim` is strings.TrimSpace on the bytes
  unfoldable pub allow :
      Bucket L → (List ℕ → List ℕ) → ℕ → List ℕ → Limiter L → Limiter L × (Bool × Option LimitError)
  allow bucket trim now raw l =
      let key = trim raw in
      if l.closed
      then (l, (false, some limiter_closed))
      else if length key == 0
      then (l, (false, some key_required))
      else (let i = shard_index (length l.shards) key in
          elim (nth i l.shards) [
            | none ↦ (l, (false, some index_panic))
            | some s ↦
                let ((s', current), answer) =
                  allow_in_shard bucket l.capacity_policy l.max_keys l.current_keys now key s in
                (record l { shards = set_nth i s' l.shards; current_keys = current }, answer)
          ])

  abbrev pub is_kept : ℕ → ℕ → Visitor L → Bool
  is_kept ttl now v = leb (now - v.last_seen) ttl

  -- cleanupShard, for an index in range
  unfoldable pub cleanup_shard : ℕ → ℕ → Limiter L → Limiter L
  cleanup_shard i now l = elim (nth i l.shards) [
    | none ↦ l
    | some s ↦
        let kept = filter (is_kept l.key_ttl now) s.visitors in
        record l {
          shards = set_nth i (record s { visitors = kept }) l.shards;
          current_keys = l.current_keys - (length s.visitors - length kept);
        }
  ]

  -- the shards below `n`, in the order of Cleanup
  abbrev pub cleanup_below : ℕ → ℕ → Limiter L → Limiter L
  cleanup_below zero now l = l
  cleanup_below (suc n) now l = cleanup_shard n now (cleanup_below n now l)

  -- Cleanup
  unfoldable pub cleanup : ℕ → Limiter L → Limiter L
  cleanup now l = if l.closed then l else cleanup_below (length l.shards) now l

  -- Close
  unfoldable close : Limiter L → Limiter L
  close l = record l { closed = true }

  -- Len
  abbrev pub total : List (Shard L) → ℕ
  total [] = 0
  total (s ∷ shards) = length s.visitors + total shards

-- what the middleware does with a request
pub data Decision : Type 0 where
  go_on : Decision
  rate_limited : Decision

-- RateLimit, from the answer of Allow
unfoldable rate_limit : Bool → Bool × Option LimitError → Decision
rate_limit fail_closed (allowed, none) = if allowed then go_on else rate_limited
rate_limit fail_closed (allowed, some capacity_rejected) = rate_limited
rate_limit fail_closed (allowed, some capacity_overflow) =
    if not allowed then rate_limited else if fail_closed then rate_limited else go_on
rate_limit fail_closed (allowed, some key_required) = if fail_closed then rate_limited else go_on
rate_limit fail_closed (allowed, some limiter_closed) = if fail_closed then rate_limited else go_on
rate_limit fail_closed (allowed, some index_panic) = rate_limited
