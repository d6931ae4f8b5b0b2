-- ===== src/Runtime/LocalCache.antt =====
-- common/runtime/localcache: the loading cache of cache.go, loading.go and invalidation.go. ttlcache
-- keeps the entries; which of them it drops, by time or by capacity, is an argument of the steps. The
-- fields epoch, started and last_invalidated count invalidations without wrapping around; the code has
-- no such fields and no decision reads them.
pub mod Freshness
use aegis_core.Base.{
  ℕ, suc, ◌+◌, ◌%◌, ◌^◌, Bool, true, false, not, ◌&&◌, ◌||◌, Option, none, some, List, [], ◌∷◌,
  ◌==◌, leb, length, if◌then◌else◌, is_some, String,
}
use aegis_core.Base.Int.{ℤ, pos, leb_ℤ}
use aegis_core.Base.Text.{is_blank}

pub record Entry (V : Type 0) : Type 0 where
  pub key : ℕ
  pub value : V
  pub started : ℕ

-- a load that singleflight runs for a key, after it read the revision
pub record Flight : Type 0 where
  pub key : ℕ
  pub start_revision : ℕ
  pub started : ℕ

pub record LoadingCache (V : Type 0) : Type 0 where
  pub capacity : ℕ
  pub revision : ℕ
  pub entries : List (Entry V)
  pub flights : List Flight
  pub hit : ℕ
  pub miss : ℕ
  pub load_success : ℕ
  pub load_error : ℕ
  pub capacity_evictions : ℕ
  pub epoch : ℕ
  pub last_invalidated : ℕ → ℕ

pub data ConfigError : Type 0 where
  name_required capacity_required ttl_required load_timeout_required loader_required : ConfigError

pub record Config : Type 0 where
  pub name : String
  pub capacity : ℕ
  pub ttl : ℤ
  pub load_timeout : ℤ

abbrev pub new_cache : {V : Type 0} → ℕ → LoadingCache V
new_cache capacity = record {
  capacity = capacity;
  revision = 0;
  entries = [];
  flights = [];
  hit = 0;
  miss = 0;
  load_success = 0;
  load_error = 0;
  capacity_evictions = 0;
  epoch = 0;
  last_invalidated = λ k. 0;
}

-- a configuration is refused, or gives a cache
pub data Created (V : Type 0) : Type 0 where
  refused_config : ConfigError → Created V
  created : LoadingCache V → Created V

-- NewLoadingCache, where the loader may be nil
unfoldable pub new_loading_cache : {V : Type 0} → Config → Bool → Created V
new_loading_cache cfg has_loader =
    if is_blank cfg.name
    then refused_config name_required
    else if cfg.capacity == 0
    then refused_config capacity_required
    else if leb_ℤ cfg.ttl (pos 0)
    then refused_config ttl_required
    else if leb_ℤ cfg.load_timeout (pos 0)
    then refused_config load_timeout_required
    else if not has_loader
    then refused_config loader_required
    else created (new_cache cfg.capacity)

abbrev pub find_flight : ℕ → List Flight → Option Flight
find_flight k [] = none
find_flight k (f ∷ fs) = let rest = find_flight k fs in if f.key == k then some f else rest

abbrev pub without_flight : ℕ → List Flight → List Flight
without_flight k [] = []
without_flight k (f ∷ fs) = let rest = without_flight k fs in if f.key == k then rest else f ∷ rest

-- what load answers its waiters
pub data Loaded (V : Type 0) : Type 0 where
  value_loaded : V → Loaded V
  loader_failed load_invalidated no_such_load : Loaded V

-- the answers of Get
pub data Got (V : Type 0) : Type 0 where
  got_value : V → Got V
  got_error got_invalidated : Got V

module _ {V : Type 0} where
  abbrev find : ℕ → List (Entry V) → Option V
  find k [] = none
  find k (e ∷ es) = let rest = find k es in if e.key == k then some e.value else rest

  -- the entries that ttlcache keeps
  abbrev pub kept : (ℕ → Bool) → List (Entry V) → List (Entry V)
  kept drops [] = []
  kept drops (e ∷ es) = let rest = kept drops es in if drops e.key then rest else e ∷ rest

  -- lookup
  unfoldable pub lookup : ℕ → LoadingCache V → Option V
  lookup k c = find k c.entries

  -- the start of load for a key that is not there: it joins the load of the key, or begins one with the
  -- revision of now
  unfoldable pub begin_load : ℕ → LoadingCache V → LoadingCache V
  unfolding lookup
  begin_load k c =
      if is_some (lookup k c) || is_some (find_flight k c.flights) then c else record c {
        flights = record { key = k; start_revision = c.revision; started = c.epoch } ∷ c.flights;
      }

  -- publish, where DeleteExpired drops some entries and Set drops others to make room
  unfoldable pub publish : (ℕ → Bool) → (ℕ → Bool) → ℕ → V → ℕ → LoadingCache V → LoadingCache V
  publish expired evicted k v started c =
      let live = kept expired c.entries in
      let full = leb c.capacity (length live) in
      record c {
        entries =
            record { key = k; value = v; started = started } ∷ kept (λ j. j == k || evicted j) live;
        capacity_evictions = if full then suc c.capacity_evictions else c.capacity_evictions;
      }

  -- the end of a load: the loader's value or error, and the publication under the lock
  unfoldable pub end_load :
      (ℕ → Bool) → (ℕ → Bool) → ℕ → Option V → LoadingCache V → Loaded V × LoadingCache V
  unfolding publish
  end_load expired evicted k loaded c =
      let landed = record c { flights = without_flight k c.flights } in
      elim (find_flight k c.flights) [
        | none ↦ (no_such_load, c)
        | some f ↦ elim loaded [
          | none ↦ (loader_failed, record landed { load_error = suc c.load_error })
          | some v ↦
              (let counted = record landed { load_success = suc c.load_success } in
                if c.revision == f.start_revision
                then (value_loaded v, publish expired evicted k v f.started counted)
                else (load_invalidated, counted))
        ]
      ]

  -- revision++ of a uint64
  abbrev bump : LoadingCache V → LoadingCache V
  bump c = record c { revision = (c.revision + 1) % 2 ^ 64; epoch = suc c.epoch }

  -- Invalidate
  unfoldable pub invalidate : ℕ → LoadingCache V → LoadingCache V
  invalidate k c = record (bump c) {
    entries = kept (λ j. j == k) c.entries;
    last_invalidated = λ j. if j == k then suc c.epoch else c.last_invalidated j;
  }

  -- InvalidateAll
  unfoldable pub invalidate_all : LoadingCache V → LoadingCache V
  invalidate_all c = record (bump c) { entries = []; last_invalidated = λ j. suc c.epoch }

  -- the two attempts of Get, whose loads answer in turn
  abbrev second_attempt : Loaded V → Got V
  second_attempt (value_loaded v) = got_value v
  second_attempt load_invalidated = got_invalidated
  second_attempt _ = got_error

  abbrev first_attempt : Loaded V → Loaded V → Got V
  first_attempt load_invalidated again = second_attempt again
  first_attempt (value_loaded v) again = got_value v
  first_attempt _ again = got_error

  -- Get, given what the loads that it asks for answer; an error of the context is one of a load
  unfoldable pub get : ℕ → Loaded V → Loaded V → LoadingCache V → Got V × LoadingCache V
  unfolding lookup
  get k first second c = elim (lookup k c) [
    | some v ↦ (got_value v, record c { hit = suc c.hit })
    | none ↦ (first_attempt first second, record c { miss = suc c.miss })
  ]
