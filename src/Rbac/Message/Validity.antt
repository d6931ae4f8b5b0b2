-- ===== src/Rbac/Message/Validity.antt =====
-- Exactly which messages validatePolicyRefreshMessage accepts, and what decoding lets through.
use aegis_core.Base.{
  ◌≡◌, ◌≢◌, ◌⊎◌, ◌↔◌, inl, inr, Bool, true, false, Option, none, some, String, arith, eq_iff, refl,
  ap, Option-cases,
}
use aegis_core.Base.Int.{ℤ, pos, negsuc, leb_ℤ, ◌<ℤ◌}
use aegis_core.Base.Text.{Uuid, nil_uuid, is_blank}
use aegis_core.Rbac.Message.{
  PolicyRefreshMessage, policy_refresh_schema_version, policy_refresh_kind_policy_changed,
  policy_refresh_kind_user_role_changed, validate_kind, validate_policy_refresh_message, Decoder,
  decode_policy_refresh_message, accepted,
}

-- a revision that is set and positive
abbrev IsPositive : Option ℤ → Type 0
IsPositive none = ⊥
IsPositive (some r) = pos 0 <ℤ r

abbrev IsNotNil : Option Uuid → Type 0
IsNotNil none = Unit
IsNotNil (some u) = u ≢ nil_uuid

abbrev pub IsUser : Option Uuid → Type 0
IsUser none = ⊥
IsUser (some u) = u ≢ nil_uuid

-- a change of the policy carries its revision alone; a change of a user's roles carries the other
-- revision alone, and the user
abbrev KindIsSound : PolicyRefreshMessage → Type 0
KindIsSound m =
    ((m.kind ≡ policy_refresh_kind_policy_changed)
      × IsPositive m.policy_revision
      × (m.user_role_revision ≡ none))
    ⊎ ((m.kind ≡ policy_refresh_kind_user_role_changed)
        × IsPositive m.user_role_revision
        × (m.policy_revision ≡ none)
        × IsUser m.user_id)

pub record IsEnvelope (m : PolicyRefreshMessage) : Type 0 where
  pub version : m.schema_version ≡ policy_refresh_schema_version
  pub event : m.event_id ≢ nil_uuid
  pub key : is_blank m.idempotency_key ≡ false
  pub because : is_blank m.reason ≡ false
  pub publisher : is_blank m.instance_id ≡ false
  pub user : IsNotNil m.user_id
  pub role : IsNotNil m.role_id
  pub permission : IsNotNil m.permission_id
  pub kind : KindIsSound m

validate_kind_sound : (m : PolicyRefreshMessage) → validate_kind m ≡ none → KindIsSound m
unfolding validate_kind
validate_kind_sound m h = ground (
  arith,
  eq_iff m.kind policy_refresh_kind_policy_changed,
  eq_iff m.kind policy_refresh_kind_user_role_changed,
)

kinds_differ : policy_refresh_kind_policy_changed ≢ policy_refresh_kind_user_role_changed
kinds_differ h =
    absurd
      (cc ((eq_iff policy_refresh_kind_policy_changed policy_refresh_kind_user_role_changed).1 h))

version_is : (v : ℤ) → leb_ℤ v (pos 1) ≡ true → leb_ℤ (pos 1) v ≡ true → v ≡ pos 1
version_is (pos n) h k = ap pos (ground arith)
version_is (negsuc n) h k = absurd (ground arith)

validate_kind_complete : (m : PolicyRefreshMessage) → KindIsSound m → validate_kind m ≡ none
unfolding validate_kind
validate_kind_complete m (inl h) = ground (arith, eq_iff m.kind policy_refresh_kind_policy_changed)
validate_kind_complete m (inr h) = ground (
  arith,
  kinds_differ,
  eq_iff m.kind policy_refresh_kind_policy_changed,
  eq_iff m.kind policy_refresh_kind_user_role_changed,
)

-- The validation accepts a message exactly when the envelope is complete, its identifiers are not
-- nil, and the revisions and the user are those that its kind asks for.
pub validate_policy_refresh_message_iff :
    (m : PolicyRefreshMessage) → (validate_policy_refresh_message m ≡ none) ↔ IsEnvelope m
unfolding validate_policy_refresh_message
validate_policy_refresh_message_iff m = (
  λ h. record {
    version = version_is m.schema_version (ground (arith, h)) (ground (arith, h));
    event = ground (arith, h);
    key = ground (arith, h);
    because = ground (arith, h);
    publisher = ground (arith, h);
    user = ground (arith, h);
    role = ground (arith, h);
    permission = ground (arith, h);
    kind = validate_kind_sound m (ground (arith, h));
  },
  λ h. ground (
    arith,
    h.version,
    h.event,
    h.key,
    h.because,
    h.publisher,
    h.user,
    h.role,
    h.permission,
    validate_kind_complete m h.kind,
  ),
)

accepted_parts :
    (json : Decoder) (payload : String) (m read : PolicyRefreshMessage) (trailing : Bool)
    → json payload ≡ some (read, trailing)
    → decode_policy_refresh_message json payload ≡ accepted m
    → (trailing ≡ false) × (m ≡ read) × (validate_policy_refresh_message read ≡ none)
unfolding decode_policy_refresh_message
accepted_parts json payload m read trailing is h =
    elim (Option-cases (validate_policy_refresh_message read)) [
      | inl valid ↦ ground (arith, is, h, valid)
      | inr (e, invalid) ↦ absurd (ground (arith, is, h, invalid))
    ]

-- What decoding accepts is the message that the library read, with nothing behind it, and valid.
pub decode_policy_refresh_message-IsEnvelope :
    (json : Decoder) (payload : String) (m : PolicyRefreshMessage)
    → decode_policy_refresh_message json payload ≡ accepted m
    → (json payload ≡ some (m, false)) × IsEnvelope m
unfolding decode_policy_refresh_message
decode_policy_refresh_message-IsEnvelope json payload m h = elim (Option-cases (json payload)) [
  | inl failed ↦ absurd (ground (arith, failed, h))
  | inr ((read, trailing), is) ↦
      let (whole, same, valid) = accepted_parts json payload m read trailing is h in
      (rw (is, same, whole) refl, (validate_policy_refresh_message_iff m).0 (rw same valid))
]
