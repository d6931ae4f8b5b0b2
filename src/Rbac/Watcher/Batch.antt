-- ===== src/Rbac/Watcher/Batch.antt =====
-- HandlePayloads of watcher.go merges a batch without losing a message's effect.
use aegis_core.Base.{
  ◌≡◌, refl, ap, sym, inl, inr, Bool, true, false, not, ◌||◌, List, [], ◌∷◌, ◌++◌, map, arith,
  String, any, filter, Bool-cases,
}
use aegis_core.Base.Int.{ℤ, ◌≤ℤ◌}
use aegis_core.Base.Text.{uuid_value}
use aegis_core.Rbac.Message.{
  PolicyRefreshMessage, policy_revision_of, Decoder, refused, accepted,
  decode_policy_refresh_message,
}
use aegis_core.Rbac.Sync.{policy_change, Invalidation, one_user}
use aegis_core.Rbac.Watcher.{Watcher, PendingRefreshBatch, is_policy_message, add, gather}

-- the messages of a batch that decode
abbrev pub messages : Decoder → List String → List PolicyRefreshMessage
messages json [] = []
messages json (payload ∷ payloads) =
    let rest = messages json payloads in
    elim (decode_policy_refresh_message json payload) [ refused e ↦ rest | accepted m ↦ m ∷ rest ]

abbrev is_user_message : PolicyRefreshMessage → Bool
is_user_message m = not (is_policy_message m)

-- every policy message of the list has at most this revision
abbrev Covers : ℤ → List PolicyRefreshMessage → Type 0
Covers r [] = Unit
Covers r (m ∷ ms) = (is_policy_message m ≡ true → policy_revision_of m ≤ℤ r) × Covers r ms

append_assoc : {A : Type 0} (xs ys zs : List A) → (xs ++ ys) ++ zs ≡ xs ++ (ys ++ zs)
append_assoc [] ys zs = refl
append_assoc (x ∷ xs) ys zs = ap (λ l. x ∷ l) (append_assoc xs ys zs)

append_nil : {A : Type 0} (xs : List A) → xs ++ [] ≡ xs
append_nil [] = refl
append_nil (x ∷ xs) = ap (λ l. x ∷ l) (append_nil xs)

-- what the messages have added to the batch
pub record IsGathered (ms : List PolicyRefreshMessage) (b b' : PendingRefreshBatch) : Type 0 where
  pub changes : b'.changes ≡ b.changes ++ map policy_change ms
  pub users :
      b'.user_role_changes ≡ b.user_role_changes ++ map policy_change (filter is_user_message ms)
  pub policies : b'.has_policy_change ≡ (b.has_policy_change || any is_policy_message ms)
  pub some_message : b'.has_messages ≡ (b.has_messages || any (λ m. true) ms)
  pub raised : b.max_policy_revision ≤ℤ b'.max_policy_revision
  pub covered : Covers b'.max_policy_revision ms

add-facts :
    (m : PolicyRefreshMessage) (b : PendingRefreshBatch)
    → let b' = add m b in
      (b'.changes ≡ b.changes ++ policy_change m ∷ [])
      × (is_policy_message m ≡ true → b'.user_role_changes ≡ b.user_role_changes)
      × (is_policy_message m ≡ false
          → b'.user_role_changes ≡ b.user_role_changes ++ policy_change m ∷ [])
      × (b'.has_policy_change ≡ (b.has_policy_change || is_policy_message m))
      × (b'.has_messages ≡ true)
      × (b.max_policy_revision ≤ℤ b'.max_policy_revision)
      × (is_policy_message m ≡ true → policy_revision_of m ≤ℤ b'.max_policy_revision)
unfolding add
add-facts m b = ground arith

IsGathered-more :
    (m : PolicyRefreshMessage) (ms : List PolicyRefreshMessage) (b b' : PendingRefreshBatch)
    → IsGathered ms (add m b) b'
    → IsGathered (m ∷ ms) b b'
IsGathered-more m ms b b' h =
    let facts = add-facts m b in
    let one = append_assoc b.changes (policy_change m ∷ []) (map policy_change ms) in
    let two =
      append_assoc b.user_role_changes (policy_change m ∷ [])
        (map policy_change (filter is_user_message ms)) in
    record {
      changes = ground (arith, h.changes, facts.0, one);
      users = elim (Bool-cases (is_policy_message m)) [
        | inl is ↦ ground (arith, is, h.users, facts)
        | inr is ↦ ground (arith, is, h.users, facts, two)
      ];
      policies = ground (arith, h.policies, facts);
      some_message = ground (arith, h.some_message, facts);
      raised = ground (arith, h.raised, facts);
      covered = (λ is. ground (arith, h.raised, facts, is), h.covered);
    }

-- The merged batch, whatever the payloads: the changes are those of the messages that decode, in
-- order, the role changes apart; a policy change is noted exactly when there is one; and the batch's
-- revision is at least that of every policy message.
pub gather-IsGathered :
    (json : Decoder) (payloads : List String) (b : PendingRefreshBatch)
    → IsGathered (messages json payloads) b (gather json payloads b)
unfolding gather
gather-IsGathered json [] b = record {
  changes = sym (append_nil b.changes);
  users = sym (append_nil b.user_role_changes);
  policies = ground arith;
  some_message = ground arith;
  raised = omega arith;
  covered = tt;
}
gather-IsGathered json (payload ∷ payloads) b =
    elim (decode_policy_refresh_message json payload)
      as (λ d.
        IsGathered
          (elim d [ refused e ↦ messages json payloads | accepted m ↦ m ∷ messages json payloads ])
          b
          (elim d [
            | refused e ↦ gather json payloads b
            | accepted m ↦ gather json payloads (add m b)
          ])) [
            | refused e ↦ gather-IsGathered json payloads b
            | accepted m ↦
                IsGathered-more m (messages json payloads) b _
                  (gather-IsGathered json payloads (add m b))
          ]

-- the users of a batch without a policy message
abbrev pub user_invalidation : PolicyRefreshMessage → Invalidation
user_invalidation m = one_user (uuid_value m.user_id)
