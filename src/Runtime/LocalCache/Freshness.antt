-- ===== src/Runtime/LocalCache/Freshness.antt =====
-- Loads that race with invalidations: what is in the cache was loaded after the last invalidation.
use aegis_core.Base.{
  ℕ, suc, ◌≤◌, ◌<◌, ◌%◌, ◌^◌, ◌≡◌, refl, sym, ap, ◌∙◌, Bool, ◌||◌, Option, none, some, List, [],
  ◌∷◌, ◌==◌, if◌then◌else◌, arith, Bool-cases, Option-cases, inl, inr, is_some, ==_iff,
}
use aegis_core.Runtime.LocalCache.{
  Entry, Flight, LoadingCache, kept, find_flight, without_flight, begin_load, publish, end_load,
  invalidate, invalidate_all, get, lookup, new_cache, Loaded,
}

abbrev AreMarked : ℕ → List Flight → Type 0
AreMarked epoch [] = Unit
AreMarked epoch (f ∷ fs) =
    (f.start_revision ≡ f.started % 2 ^ 64) × (f.started ≤ epoch) × AreMarked epoch fs

AreMarked-without :
    (epoch k : ℕ) (fs : List Flight) → AreMarked epoch fs → AreMarked epoch (without_flight k fs)
AreMarked-without epoch k [] h = h
AreMarked-without epoch k (f ∷ fs) (revision, begun, others) =
    let ih = AreMarked-without epoch k fs others in
    elim (Bool-cases (f.key == k)) [
      | inl gone ↦ rw gone ih
      | inr stays ↦ rw stays (revision, begun, ih)
    ]

AreMarked-later : (epoch : ℕ) (fs : List Flight) → AreMarked epoch fs → AreMarked (suc epoch) fs
AreMarked-later epoch [] h = h
AreMarked-later epoch (f ∷ fs) (revision, begun, others) =
    (revision, omega (arith, begun), AreMarked-later epoch fs others)

abbrev or_flight : Flight → Option Flight → Flight
or_flight g none = g
or_flight g (some f) = f

find_flight-marked :
    (epoch k : ℕ) (fs : List Flight) (f : Flight)
    → AreMarked epoch fs
    → find_flight k fs ≡ some f
    → (f.start_revision ≡ f.started % 2 ^ 64) × (f.started ≤ epoch)
find_flight-marked epoch k [] f h e = ground (arith, e)
find_flight-marked epoch k (g ∷ fs) f (revision, begun, others) e = elim (Bool-cases (g.key == k)) [
  | inl is ↦
      (let found : some g ≡ some f = ground (arith, e, is) in
        let same : g ≡ f = ap (or_flight g) found in
        let mark = ap (λ (x : Flight). x.started) same in
        (
          sym (ap (λ (x : Flight). x.start_revision) same) ∙ revision ∙ ap (λ n. n % 2 ^ 64) mark,
          omega (arith, begun, mark),
        ))
  | inr isnt ↦ find_flight-marked epoch k fs f others (ground (arith, e, isnt))
]

module _ {V : Type 0} where
  abbrev AreFresh : (ℕ → ℕ) → List (Entry V) → Type 0
  AreFresh since [] = Unit
  AreFresh since (e ∷ es) = (since e.key ≤ e.started) × AreFresh since es

  -- every entry was read after the last invalidation of its key; the rest says that revisions and marks
  -- belong together
  pub record IsFresh (c : LoadingCache V) : Type 0 where
    entries_fresh : AreFresh c.last_invalidated c.entries
    flights_marked : AreMarked c.epoch c.flights
    revision_counts : c.revision ≡ c.epoch % 2 ^ 64
    invalidated_before : (k : ℕ) → c.last_invalidated k ≤ c.epoch

  AreFresh-kept :
      (since : ℕ → ℕ) (drops : ℕ → Bool) (es : List (Entry V))
      → AreFresh since es
      → AreFresh since (kept drops es)
  AreFresh-kept since drops [] h = h
  AreFresh-kept since drops (e ∷ es) (first, others) =
      let ih = AreFresh-kept since drops es others in
      elim (Bool-cases (drops e.key)) [ inl gone ↦ rw gone ih | inr stays ↦ rw stays (first, ih) ]

  -- the invalidation of k leaves out the entries of k, and the others keep their last invalidation
  AreFresh-invalidated :
      (since : ℕ → ℕ) (k epoch : ℕ) (es : List (Entry V))
      → AreFresh since es
      → AreFresh (λ j. if j == k then epoch else since j) (kept (λ j. j == k) es)
  AreFresh-invalidated since k epoch [] h = h
  AreFresh-invalidated since k epoch (e ∷ es) (first, others) =
      let ih = AreFresh-invalidated since k epoch es others in
      elim (Bool-cases (e.key == k)) [
        | inl gone ↦ rw gone ih
        | inr stays ↦ rw stays (ground (arith, stays, first), ih)
      ]

  new-IsFresh : (capacity : ℕ) → IsFresh (new_cache capacity)
  new-IsFresh capacity = record {
    entries_fresh = tt;
    flights_marked = tt;
    revision_counts = refl;
    invalidated_before = λ k. omega arith;
  }

  begin_load-IsFresh : (k : ℕ) (c : LoadingCache V) → IsFresh c → IsFresh (begin_load k c)
  unfolding begin_load
  begin_load-IsFresh k c h =
      elim (Bool-cases (is_some (lookup k c) || is_some (find_flight k c.flights))) [
        | inl there ↦ rw (there, begin_load) h
        | inr absent ↦
            rw (absent, begin_load)
              (record {
                entries_fresh = h.entries_fresh;
                flights_marked = (h.revision_counts, omega arith, h.flights_marked);
                revision_counts = h.revision_counts;
                invalidated_before = h.invalidated_before;
              })
      ]

  invalidate-IsFresh : (k : ℕ) (c : LoadingCache V) → IsFresh c → IsFresh (invalidate k c)
  unfolding invalidate
  invalidate-IsFresh k c h = record {
    entries_fresh =
        AreFresh-invalidated c.last_invalidated k (suc c.epoch) c.entries h.entries_fresh;
    flights_marked = AreMarked-later c.epoch c.flights h.flights_marked;
    revision_counts = (let r = h.revision_counts in omega (arith, r));
    invalidated_before = λ j. (let before = h.invalidated_before j in ground (arith, before));
  }

  invalidate_all-IsFresh : (c : LoadingCache V) → IsFresh c → IsFresh (invalidate_all c)
  unfolding invalidate_all
  invalidate_all-IsFresh c h = record {
    entries_fresh = tt;
    flights_marked = AreMarked-later c.epoch c.flights h.flights_marked;
    revision_counts = (let r = h.revision_counts in omega (arith, r));
    invalidated_before = λ j. omega arith;
  }

  publish-IsFresh :
      (expired evicted : ℕ → Bool) (k : ℕ) (v : V) (started : ℕ) (c : LoadingCache V)
      → IsFresh c
      → c.epoch ≤ started
      → IsFresh (publish expired evicted k v started c)
  unfolding publish
  publish-IsFresh expired evicted k v started c h current = record {
    entries_fresh = (
      (let before = h.invalidated_before k in omega (arith, before, current)),
      AreFresh-kept c.last_invalidated (λ j. j == k || evicted j) (kept expired c.entries)
          (AreFresh-kept c.last_invalidated expired c.entries h.entries_fresh),
    );
    flights_marked = h.flights_marked;
    revision_counts = h.revision_counts;
    invalidated_before = h.invalidated_before;
  }

  landed-IsFresh :
      (k n m : ℕ) (c : LoadingCache V)
      → IsFresh c
      → IsFresh
          (record c { flights = without_flight k c.flights; load_success = n; load_error = m })
  landed-IsFresh k n m c h = record {
    entries_fresh = h.entries_fresh;
    flights_marked = AreMarked-without c.epoch k c.flights h.flights_marked;
    revision_counts = h.revision_counts;
    invalidated_before = h.invalidated_before;
  }

  end_load-IsFresh :
      (expired evicted : ℕ → Bool) (k : ℕ) (loaded : Option V) (c : LoadingCache V)
      → c.epoch < 2 ^ 64
      → IsFresh c
      → IsFresh (end_load expired evicted k loaded c).1
  unfolding end_load
  end_load-IsFresh expired evicted k loaded c few h =
      elim (Option-cases (find_flight k c.flights)) [
        | inl absent ↦ rw (absent, end_load) h
        | inr (f, found) ↦
            (let (revision, begun) =
                find_flight-marked c.epoch k c.flights f h.flights_marked found in
              elim loaded as (λ o. IsFresh (end_load expired evicted k o c).1) [
                | none ↦ rw (found, end_load) (landed-IsFresh k _ _ c h)
                | some v ↦ elim (Bool-cases (c.revision == f.start_revision)) [
                  | inl same ↦
                      rw (found, end_load, same)
                        (publish-IsFresh expired evicted k v f.started _ (landed-IsFresh k _ _ c h)
                          (let now = h.revision_counts in
                            let equal = (==_iff c.revision f.start_revision).0 same in
                            omega (arith, now, equal, revision, begun, few)))
                  | inr changed ↦ rw (found, end_load, changed) (landed-IsFresh k _ _ c h)
                ]
              ])
      ]

  expire-IsFresh :
      (drops : ℕ → Bool) (c : LoadingCache V)
      → IsFresh c
      → IsFresh (record c { entries = kept drops c.entries })
  expire-IsFresh drops c h = record {
    entries_fresh = AreFresh-kept c.last_invalidated drops c.entries h.entries_fresh;
    flights_marked = h.flights_marked;
    revision_counts = h.revision_counts;
    invalidated_before = h.invalidated_before;
  }

  -- what happens to a cache: Get and its loads of any keys, invalidations, and entries that expire
  pub data CacheStep : LoadingCache V → LoadingCache V → Type 0 where
    load_begun : (k : ℕ) (c : LoadingCache V) → CacheStep c (begin_load k c)
    load_ended :
        (expired evicted : ℕ → Bool) (k : ℕ) (loaded : Option V) (c : LoadingCache V)
        → CacheStep c (end_load expired evicted k loaded c).1
    one_invalidated : (k : ℕ) (c : LoadingCache V) → CacheStep c (invalidate k c)
    all_invalidated : (c : LoadingCache V) → CacheStep c (invalidate_all c)
    asked : (k : ℕ) (a b : Loaded V) (c : LoadingCache V) → CacheStep c (get k a b c).1
    entries_dropped :
        (drops : ℕ → Bool) (c : LoadingCache V)
        → CacheStep c (record c { entries = kept drops c.entries })

  pub data CacheReach (c : LoadingCache V) : LoadingCache V → Type 0 where
    no_step : CacheReach c c
    then_step : {d e : LoadingCache V} → CacheReach c d → CacheStep d e → CacheReach c e

  get-IsFresh : (k : ℕ) (a b : Loaded V) (c : LoadingCache V) → IsFresh c → IsFresh (get k a b c).1
  unfolding get
  get-IsFresh k a b c h = elim (Option-cases (lookup k c)) [
    | inl absent ↦
        rw (absent, get)
          (record {
            entries_fresh = h.entries_fresh;
            flights_marked = h.flights_marked;
            revision_counts = h.revision_counts;
            invalidated_before = h.invalidated_before;
          })
    | inr (v, there) ↦
        rw (there, get)
          (record {
            entries_fresh = h.entries_fresh;
            flights_marked = h.flights_marked;
            revision_counts = h.revision_counts;
            invalidated_before = h.invalidated_before;
          })
  ]

  -- the number of invalidations does not fall
  begin_load-epoch : (k : ℕ) (c : LoadingCache V) → (begin_load k c).epoch ≡ c.epoch
  unfolding begin_load
  begin_load-epoch k c =
      elim (Bool-cases (is_some (lookup k c) || is_some (find_flight k c.flights))) [
        | inl there ↦ rw (there, begin_load) refl
        | inr absent ↦ rw (absent, begin_load) refl
      ]

  end_load-epoch :
      (expired evicted : ℕ → Bool) (k : ℕ) (loaded : Option V) (c : LoadingCache V)
      → (end_load expired evicted k loaded c).1.epoch ≡ c.epoch
  unfolding end_load publish
  end_load-epoch expired evicted k loaded c = elim (Option-cases (find_flight k c.flights)) [
    | inl absent ↦ rw (absent, end_load) refl
    | inr (f, found) ↦ elim loaded as (λ o. (end_load expired evicted k o c).1.epoch ≡ c.epoch) [
      | none ↦ rw (found, end_load) refl
      | some v ↦ elim (Bool-cases (c.revision == f.start_revision)) [
        | inl same ↦ rw (found, end_load, same) refl
        | inr changed ↦ rw (found, end_load, changed) refl
      ]
    ]
  ]

  get-epoch : (k : ℕ) (a b : Loaded V) (c : LoadingCache V) → (get k a b c).1.epoch ≡ c.epoch
  unfolding get
  get-epoch k a b c = elim (Option-cases (lookup k c)) [
    | inl absent ↦ rw (absent, get) refl
    | inr (v, there) ↦ rw (there, get) refl
  ]

  step-epoch : {c d : LoadingCache V} → CacheStep c d → c.epoch ≤ d.epoch
  unfolding invalidate invalidate_all
  step-epoch (load_begun k c) = (let same = begin_load-epoch k c in omega (arith, same))
  step-epoch (load_ended expired evicted k loaded c) =
      (let same = end_load-epoch expired evicted k loaded c in omega (arith, same))
  step-epoch (one_invalidated k c) = omega arith
  step-epoch (all_invalidated c) = omega arith
  step-epoch (asked k a b c) = (let same = get-epoch k a b c in omega (arith, same))
  step-epoch (entries_dropped drops c) = omega arith

  step-IsFresh : {c d : LoadingCache V} → CacheStep c d → c.epoch < 2 ^ 64 → IsFresh c → IsFresh d
  step-IsFresh (load_begun k c) few h = begin_load-IsFresh k c h
  step-IsFresh (load_ended expired evicted k loaded c) few h =
      end_load-IsFresh expired evicted k loaded c few h
  step-IsFresh (one_invalidated k c) few h = invalidate-IsFresh k c h
  step-IsFresh (all_invalidated c) few h = invalidate_all-IsFresh c h
  step-IsFresh (asked k a b c) few h = get-IsFresh k a b c h
  step-IsFresh (entries_dropped drops c) few h = expire-IsFresh drops c h

  -- After any interleaving of Get, of the begins and ends of loads, of invalidations and of entries that
  -- expire or are evicted, with fewer than 2^64 invalidations, every entry of the cache was loaded by a
  -- load that began after the last invalidation of its key.
  pub CacheReach-IsFresh :
      (capacity : ℕ) (c : LoadingCache V)
      → CacheReach (new_cache capacity) c
      → c.epoch < 2 ^ 64
      → IsFresh c
  CacheReach-IsFresh capacity c no_step few = new-IsFresh capacity
  CacheReach-IsFresh capacity c (then_step {d = d} before step) few =
      (let fewer = step-epoch step in
        let early : d.epoch < 2 ^ 64 = omega (arith, few, fewer) in
        step-IsFresh step early (CacheReach-IsFresh capacity d before early))
