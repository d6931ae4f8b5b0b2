-- ===== src/Tests/Cache.antt =====
-- A load of key 1 that an invalidation overtakes, and the load after it.
use aegis_core.Base.{ℕ, ◌≡◌, refl, Bool, false, none, some, arith}
use aegis_core.Runtime.LocalCache.{
  LoadingCache, new_cache, begin_load, end_load, invalidate, publish, lookup, load_invalidated,
}
use aegis_core.Runtime.LocalCache.Freshness.{
  IsFresh, no_step, then_step, load_begun, load_ended, one_invalidated, CacheReach-IsFresh,
}

abbrev keeps : ℕ → Bool
keeps k = false

abbrev begun : LoadingCache ℕ
begun = begin_load 1 (new_cache 10)

abbrev overtaken : LoadingCache ℕ
overtaken = invalidate 1 begun

abbrev suppressed : LoadingCache ℕ
suppressed = (end_load keeps keeps 1 (some 41) overtaken).1

abbrev again : LoadingCache ℕ
again = begin_load 1 suppressed

abbrev loaded : LoadingCache ℕ
loaded = (end_load keeps keeps 1 (some 42) again).1

loads_run :
    ((end_load keeps keeps 1 (some 41) overtaken).0 ≡ load_invalidated)
    × (lookup 1 suppressed ≡ none)
    × (lookup 1 loaded ≡ some 42)
unfolding begin_load end_load invalidate publish lookup
loads_run = (refl, refl, refl)

CacheReach-IsFresh_example : IsFresh loaded
unfolding begin_load end_load invalidate publish lookup
CacheReach-IsFresh_example =
    CacheReach-IsFresh 10 loaded
      (then_step
        (then_step
          (then_step
            (then_step (then_step no_step (load_begun 1 (new_cache 10))) (one_invalidated 1 begun))
            (load_ended keeps keeps 1 (some 41) overtaken))
          (load_begun 1 suppressed))
        (load_ended keeps keeps 1 (some 42) again))
      (omega arith)
