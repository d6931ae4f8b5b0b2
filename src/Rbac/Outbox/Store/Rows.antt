-- ===== src/Rbac/Outbox/Store/Rows.antt =====
-- The rows of the outbox table of outbox_store.go: when a row is well formed, and rows by key.
use aegis_core.Base.{
  ℕ, ◌≡◌, refl, ==_iff, true, false, Option, none, some, List, [], ◌∷◌, map, arith, ◌==◌,
  if◌then◌else◌, is_some, All, Bool-cases, inl, inr,
}
use mathlib.Core.Path.{subst}
use aegis_core.Base.Text.{Uuid}
use aegis_core.Rbac.Outbox.Store.{
  Row, TxOutcome, tx_ok, tx_failed, tx_reply_lost, is_processing, is_delivered, settle,
  mark_processing, mark_delivered, mark_failed,
}

-- a lease exactly while the row is in processing, a delivery time exactly once it is delivered
pub record IsWellFormed (r : Row) : Type 0 where
  pub leased : is_some r.claim_token ≡ is_processing r.status
  pub until : is_some r.claimed_until ≡ is_processing r.status
  pub stamped : is_some r.delivered_at ≡ is_delivered r.status

pub All-map :
    {P : Row → Type 0} (f : Row → Row)
    → ((r : Row) → P r → P (f r))
    → (rows : List Row) → All P rows
    → All P (map f rows)
All-map f keep [] h = h
All-map f keep (r ∷ rows) h = (keep r h.0, All-map f keep rows h.1)

unfoldable pub find_row : ℕ → List Row → Option Row
find_row i [] = none
find_row i (r ∷ rows) = if r.id == i then some r else find_row i rows

abbrev pub apply_to : (Row → Row) → Option Row → Option Row
apply_to f none = none
apply_to f (some r) = some (f r)

pub find_row-map :
    (f : Row → Row)
    → ((r : Row) → (f r).id ≡ r.id)
    → (i : ℕ) (rows : List Row) → find_row i (map f rows) ≡ apply_to f (find_row i rows)
unfolding find_row
find_row-map f keep i [] = refl
find_row-map f keep i (r ∷ rows) = ground (arith, keep r, find_row-map f keep i rows)

abbrev pub DistinctIds : List Row → Type 0
DistinctIds [] = Unit
DistinctIds (r ∷ rows) = (find_row r.id rows ≡ none) × DistinctIds rows

-- the table: well-formed rows under distinct keys
pub record IsTable (rows : List Row) : Type 0 where
  pub formed : All IsWellFormed rows
  pub keys : DistinctIds rows

pub DistinctIds-map :
    (f : Row → Row)
    → ((r : Row) → (f r).id ≡ r.id)
    → (rows : List Row) → DistinctIds rows
    → DistinctIds (map f rows)
DistinctIds-map f keep [] h = h
DistinctIds-map f keep (r ∷ rows) h =
    (ground (arith, keep r, find_row-map f keep r.id rows, h.0), DistinctIds-map f keep rows h.1)

pub IsTable-map :
    (f : Row → Row)
    → ((r : Row) → (f r).id ≡ r.id)
    → ((r : Row) → IsWellFormed r → IsWellFormed (f r))
    → (rows : List Row) → IsTable rows
    → IsTable (map f rows)
IsTable-map f same keep rows h = record {
  formed = All-map f keep rows h.formed;
  keys = DistinctIds-map f same rows h.keys;
}

pub IsTable-settle :
    {A : Type 0} (outcome : TxOutcome) (a : A) (before after : List Row)
    → IsTable before
    → IsTable after
    → IsTable (settle outcome a before after).1
IsTable-settle tx_ok a before after h k = k
IsTable-settle tx_failed a before after h k = h
IsTable-settle tx_reply_lost a before after h k = k

pub id-mark_processing :
    (selected : List Row) (token : Uuid) (until now : ℕ) (r : Row)
    → (mark_processing selected token until now r).id ≡ r.id
unfolding mark_processing
id-mark_processing selected token until now r = ground arith

pub id-mark_delivered :
    (event_id token : Uuid) (at : ℕ) (r : Row) → (mark_delivered event_id token at r).id ≡ r.id
unfolding mark_delivered
id-mark_delivered event_id token at r = ground arith

pub id-mark_failed :
    (event_id token : Uuid) (at next : ℕ) (summary : List ℕ) (r : Row)
    → (mark_failed event_id token at next summary r).id ≡ r.id
unfolding mark_failed
id-mark_failed event_id token at next summary r = ground arith

pub mark_processing-IsWellFormed :
    (selected : List Row) (token : Uuid) (until now : ℕ) (r : Row)
    → is_delivered r.status ≡ false
    → IsWellFormed r
    → IsWellFormed (mark_processing selected token until now r)
unfolding mark_processing
mark_processing-IsWellFormed selected token until now r open_row h = ground arith

pub mark_delivered-IsWellFormed :
    (event_id token : Uuid) (at : ℕ) (r : Row)
    → IsWellFormed r
    → IsWellFormed (mark_delivered event_id token at r)
unfolding mark_delivered
mark_delivered-IsWellFormed event_id token at r h = ground arith

pub mark_failed-IsWellFormed :
    (event_id token : Uuid) (at next : ℕ) (summary : List ℕ) (r : Row)
    → IsWellFormed r
    → IsWellFormed (mark_failed event_id token at next summary r)
unfolding mark_failed
mark_failed-IsWellFormed event_id token at next summary r h = ground arith

pub find_row-head :
    (i : ℕ) (q : Row) (rows : List Row) {r : Row}
    → (q.id == i) ≡ true
    → find_row i (q ∷ rows) ≡ some r
    → q ≡ r
unfolding find_row
find_row-head i q rows same e = ground arith

pub find_row-tail :
    (i : ℕ) (q : Row) (rows : List Row) {r : Row}
    → (q.id == i) ≡ false
    → find_row i (q ∷ rows) ≡ some r
    → find_row i rows ≡ some r
unfolding find_row
find_row-tail i q rows other e = ground arith

pub All-find :
    (P : Row → Type 0) (i : ℕ) (rows : List Row) {r : Row}
    → All P rows
    → find_row i rows ≡ some r
    → P r
unfolding find_row
All-find P i [] h e = absurd (cc)
All-find P i (q ∷ rows) h e = elim (Bool-cases (q.id == i)) [
  | inl same ↦ subst P (find_row-head i q rows same e) h.0
  | inr other ↦ All-find P i rows h.1 (find_row-tail i q rows other e)
]

find_row-later :
    (i : ℕ) (q : Row) (rows : List Row) {r : Row}
    → find_row q.id rows ≡ none
    → find_row i rows ≡ some r
    → find_row i (q ∷ rows) ≡ some r
unfolding find_row
find_row-later i q rows fresh e = ground (arith, ==_iff q.id i)

-- what holds of every row that a lookup finds holds of all rows of a table
pub find-All :
    (P : Row → Type 0) (rows : List Row)
    → DistinctIds rows
    → ((i : ℕ) (r : Row) → find_row i rows ≡ some r → P r)
    → All P rows
find-All P [] keys h = tt
find-All P (q ∷ rows) keys h = (
  h q.id q (unfold find_row in ground arith),
  find-All P rows keys.1 (λ i r e. h i r (find_row-later i q rows keys.0 e)),
)
