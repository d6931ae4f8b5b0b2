-- ===== src/Rbac/Outbox/Store/Selection.antt =====
-- Claim of outbox_store.go takes due rows only, and the operations keep the table.
use aegis_core.Base.{
  sym, not, ◌&&◌, ◌⊎◌, Option-cases, ℕ, zero, suc, ◌≡◌, refl, ap, ==_iff, filter, take, Bool, true,
  false, none, some, List, [], ◌∷◌, map, arith, ◌==◌, any, Bool-cases, inl, inr,
}
use mathlib.Core.Path.{subst}
use aegis_core.Base.Int.{ℤ, pos_part}
use aegis_core.Base.Text.{Uuid}
use aegis_core.Rbac.Outbox.Store.{
  Row, TxOutcome, is_delivered, due, unix_milli, add_duration, select_due, claim, ack, fail,
  mark_processing,
}
use aegis_core.Rbac.Outbox.Store.Rows.{
  find_row, find_row-map, apply_to, DistinctIds, DistinctIds-map, IsTable, IsTable-map,
  IsTable-settle, IsWellFormed, find_row-head, find_row-tail, All-find, find-All,
  id-mark_processing, id-mark_delivered, id-mark_failed, mark_processing-IsWellFormed,
  mark_delivered-IsWellFormed, mark_failed-IsWellFormed,
}

any-filter-none :
    (p : Row → Bool) (i : ℕ) (rows : List Row)
    → find_row i rows ≡ none
    → any (λ s. s.id == i) (filter p rows) ≡ false
unfolding find_row
any-filter-none p i [] h = refl
any-filter-none p i (r ∷ rows) h = ground (arith, any-filter-none p i rows)

-- a row that fails the test is not selected: no other row has its key
any-filter_kept :
    (p : Row → Bool) (i : ℕ) (rows : List Row) {r : Row}
    → DistinctIds rows
    → find_row i rows ≡ some r
    → p r ≡ false
    → any (λ s. s.id == i) (filter p rows) ≡ false
unfolding find_row
any-filter_kept p i [] keys e h = refl
any-filter_kept p i (q ∷ rows) {r} keys e h = elim (Bool-cases (q.id == i)) [
  | inl same ↦
      let q_eq = find_row-head i q rows same e in
      ground (arith, q_eq, ap p q_eq, keys.0, any-filter-none p i rows)
  | inr other ↦ ground (arith, any-filter_kept p i rows keys.1 (find_row-tail i q rows other e) h)
]

any-take :
    (p : Row → Bool) (n : ℕ) (rows : List Row) → any p rows ≡ false → any p (take n rows) ≡ false
any-take p zero rows h = refl
any-take p (suc n) [] h = refl
any-take p (suc n) (r ∷ rows) h = ground (arith, any-take p n rows)

find_row-id : (i : ℕ) (rows : List Row) {r : Row} → find_row i rows ≡ some r → r.id ≡ i
unfolding find_row
find_row-id i [] e = absurd (cc)
find_row-id i (q ∷ rows) e = elim (Bool-cases (q.id == i)) [
  | inl same ↦ ground (arith, find_row-head i q rows same e, ==_iff q.id i)
  | inr other ↦ find_row-id i rows (find_row-tail i q rows other e)
]

pub due-delivered : (now : ℕ) (r : Row) → is_delivered r.status ≡ true → due now r ≡ false
unfolding due
due-delivered now r h = ground arith

any-select_due :
    (now limit : ℕ) (locked : ℕ → Bool) (rows : List Row) (i : ℕ) {r : Row}
    → DistinctIds rows
    → find_row i rows ≡ some r
    → due now r ≡ false
    → any (λ s. s.id == i) (select_due now limit locked rows) ≡ false
unfolding select_due
any-select_due now limit locked rows i keys e early =
    any-take (λ s. s.id == i) limit (filter (λ r. due now r && not (locked r.id)) rows)
      (any-filter_kept (λ r. due now r && not (locked r.id)) i rows keys e (rw early))

module _ (now : ℕ) (limit timeout : ℤ) (token : Uuid) (locked : ℕ → Bool)
    (outcome : TxOutcome) where
  -- the UPDATE of Claim, for the rows that it has selected
  abbrev pub mark : List Row → Row → Row
  mark rows =
      mark_processing (select_due (unix_milli now) (pos_part limit) locked rows) token
        (unix_milli (add_duration now timeout)) (unix_milli now)

  pub claim_table :
      (rows : List Row)
      → ((claim now limit timeout token locked outcome rows).1 ≡ rows)
        ⊎ ((claim now limit timeout token locked outcome rows).1 ≡ map (mark rows) rows)
  unfolding claim
  claim_table rows = ground arith

  mark_early :
      (rows : List Row) (i : ℕ) {r : Row}
      → DistinctIds rows
      → find_row i rows ≡ some r
      → due (unix_milli now) r ≡ false
      → mark rows r ≡ r
  unfolding mark_processing
  mark_early rows i {r} keys e early =
      let picked = select_due (unix_milli now) (pos_part limit) locked rows in
      let left : any (λ s. s.id == r.id) picked ≡ false =
        subst (λ k. any (λ s. s.id == k) picked ≡ false) (sym (find_row-id i rows e))
          (any-select_due _ _ locked rows i keys e early) in
      ground (arith, left)

  -- a row that is not due keeps everything under a claim
  pub find_row-claim :
      (rows : List Row) (i : ℕ) {r : Row}
      → DistinctIds rows
      → find_row i rows ≡ some r
      → due (unix_milli now) r ≡ false
      → find_row i (claim now limit timeout token locked outcome rows).1 ≡ some r
  find_row-claim rows i keys e early = elim (claim_table rows) [
    | inl same ↦ rw same e
    | inr marked ↦
        rw (marked, find_row-map (mark rows) (id-mark_processing _ _ _ _) i rows, e)
          (ap some (mark_early rows i keys e early))
  ]

  mark-IsWellFormed :
      (rows : List Row) (i : ℕ) (r : Row)
      → IsTable rows
      → find_row i rows ≡ some r
      → IsWellFormed (mark rows r)
  mark-IsWellFormed rows i r h e = elim (Bool-cases (is_delivered r.status)) [
    | inl done ↦
        rw (mark_early rows i h.keys e (due-delivered _ r done))
          (All-find IsWellFormed i rows h.formed e)
    | inr open_row ↦
        mark_processing-IsWellFormed _ _ _ _ r open_row (All-find IsWellFormed i rows h.formed e)
  ]

  mark_all-IsTable : (rows : List Row) → IsTable rows → IsTable (map (mark rows) rows)
  mark_all-IsTable rows h = record {
    formed = find-All IsWellFormed (map (mark rows) rows) marked_keys found;
    keys = marked_keys;
  }
    where
      marked_keys : DistinctIds (map (mark rows) rows)
      marked_keys = DistinctIds-map (mark rows) (id-mark_processing _ _ _ _) rows h.keys

      found : (i : ℕ) (r : Row) → find_row i (map (mark rows) rows) ≡ some r → IsWellFormed r
      found i r e =
          let eq = find_row-map (mark rows) (id-mark_processing _ _ _ _) i rows in
          elim (Option-cases (find_row i rows)) [
            | inl missing ↦ absurd (cc (eq, missing))
            | inr (q, here) ↦
                subst IsWellFormed (cc (eq, ap (apply_to (mark rows)) here))
                  (mark-IsWellFormed rows i q h here)
          ]

  pub claim-IsTable :
      (rows : List Row)
      → IsTable rows
      → IsTable (claim now limit timeout token locked outcome rows).1
  claim-IsTable rows h = elim (claim_table rows) [
    | inl same ↦ rw same h
    | inr marked ↦ rw marked (mark_all-IsTable rows h)
  ]

module _ (event_id token : Uuid) (at : ℕ) (outcome : TxOutcome) where
  pub ack-IsTable :
      (rows : List Row) → IsTable rows → IsTable (ack event_id token at outcome rows).1
  unfolding ack
  ack-IsTable rows h =
      IsTable-settle outcome _ rows _ h
        (IsTable-map _ (id-mark_delivered _ _ _) (mark_delivered-IsWellFormed _ _ _) rows h)

  pub fail-IsTable :
      (next : ℕ) (summary : List ℕ) (rows : List Row)
      → IsTable rows
      → IsTable (fail event_id token at next summary outcome rows).1
  unfolding fail
  fail-IsTable next summary rows h =
      IsTable-settle outcome _ rows _ h
        (IsTable-map _ (id-mark_failed _ _ _ _ _) (mark_failed-IsWellFormed _ _ _ _ _) rows h)
