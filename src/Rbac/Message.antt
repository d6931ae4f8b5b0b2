-- ===== src/Rbac/Message.antt =====
-- user-service/internal/features/permission/infrastructure/redis/message.go and the publishing half
-- of store.go beside it: the envelope of a policy refresh, its validation, and the revision that a
-- script caches in Redis. JSON encoding is the library's: a decoder is a parameter.
pub mod Validity
pub mod Cache
use text.Mathlib.Text.{◌==◌ as same_text}
use aegis_core.Base.{
  ℕ, ◌≡◌, Bool, true, false, not, ◌&&◌, ◌||◌, Option, none, some, List, [], ◌∷◌, ◌==◌,
  if◌then◌else◌, String, length, ltb, is_some,
}
use aegis_core.Base.Int.{ℤ, pos, leb_ℤ}
use aegis_core.Base.Text.{Uuid, nil_uuid, uuid_value, is_blank}
use aegis_core.Rbac.Outbox.{OutboxEvent}

abbrev pub policy_refresh_schema_version : ℤ
policy_refresh_schema_version = pos 1

abbrev pub policy_refresh_kind_policy_changed : String
policy_refresh_kind_policy_changed = "policy_changed"

abbrev pub policy_refresh_kind_user_role_changed : String
policy_refresh_kind_user_role_changed = "user_role_changed"

pub record PolicyRefreshMessage : Type 0 where
  pub schema_version : ℤ
  pub event_id : Uuid
  pub idempotency_key : String
  pub policy_revision : Option ℤ
  pub user_role_revision : Option ℤ
  pub kind : String
  pub reason : String
  pub instance_id : String
  pub user_id : Option Uuid
  pub role_id : Option Uuid
  pub permission_id : Option Uuid

-- newPolicyRefreshMessage
unfoldable new_policy_refresh_message : OutboxEvent → String → PolicyRefreshMessage
new_policy_refresh_message event instance_id = record {
  schema_version = policy_refresh_schema_version;
  event_id = event.event_id;
  idempotency_key = event.idempotency_key;
  policy_revision = event.policy_revision;
  user_role_revision = event.user_role_revision;
  kind = event.kind;
  reason = event.reason;
  instance_id = instance_id;
  user_id = event.user_id;
  role_id = event.role_id;
  permission_id = event.permission_id;
}

pub data MessageError : Type 0 where
  unsupported_version event_id_required idempotency_key_required reason_required : MessageError
  publisher_required nil_uuid_present invalid_policy_revision : MessageError
  unexpected_user_role_revision invalid_user_role_revision : MessageError
  unexpected_policy_revision user_id_required invalid_kind : MessageError

-- value != nil && *value == uuid.Nil()
abbrev is_nil_value : Option Uuid → Bool
is_nil_value none = false
is_nil_value (some u) = u == nil_uuid

-- value == nil || *value <= 0
abbrev is_invalid_revision : Option ℤ → Bool
is_invalid_revision none = true
is_invalid_revision (some r) = leb_ℤ r (pos 0)

abbrev is_missing_user : Option Uuid → Bool
is_missing_user none = true
is_missing_user (some u) = u == nil_uuid

-- the cases of the kind
unfoldable pub validate_kind : PolicyRefreshMessage → Option MessageError
validate_kind m =
    if same_text m.kind policy_refresh_kind_policy_changed
    then if is_invalid_revision m.policy_revision
      then some invalid_policy_revision
      else if is_some m.user_role_revision
      then some unexpected_user_role_revision
      else none
    else if same_text m.kind policy_refresh_kind_user_role_changed
    then if is_invalid_revision m.user_role_revision
      then some invalid_user_role_revision
      else if is_some m.policy_revision
      then some unexpected_policy_revision
      else if is_missing_user m.user_id
      then some user_id_required
      else none
    else some invalid_kind

-- validatePolicyRefreshMessage
unfoldable pub validate_policy_refresh_message : PolicyRefreshMessage → Option MessageError
validate_policy_refresh_message m =
    if not (
      leb_ℤ m.schema_version policy_refresh_schema_version
      && leb_ℤ policy_refresh_schema_version m.schema_version)
    then some unsupported_version
    else if m.event_id == nil_uuid
    then some event_id_required
    else if is_blank m.idempotency_key
    then some idempotency_key_required
    else if is_blank m.reason
    then some reason_required
    else if is_blank m.instance_id
    then some publisher_required
    else if is_nil_value m.user_id || is_nil_value m.role_id || is_nil_value m.permission_id
    then some nil_uuid_present
    else validate_kind m

-- PolicyRefreshMessage.policyRevision
unfoldable pub policy_revision_of : PolicyRefreshMessage → ℤ
policy_revision_of m = elim m.policy_revision [ none ↦ pos 0 | some r ↦ r ]

pub data DecodeError : Type 0 where
  unmarshal_failed trailing_data : DecodeError
  invalid_message : MessageError → DecodeError

-- what encoding/json makes of a payload, unknown fields refused: the message, and whether anything
-- follows it
abbrev pub Decoder : Type 0
Decoder = String → Option (PolicyRefreshMessage × Bool)

pub data Decoded : Type 0 where
  refused : DecodeError → Decoded
  accepted : PolicyRefreshMessage → Decoded

-- decodePolicyRefreshMessage
unfoldable pub decode_policy_refresh_message : Decoder → String → Decoded
decode_policy_refresh_message json payload = elim (json payload) [
  | none ↦ refused unmarshal_failed
  | some (m, trailing) ↦
      if trailing then refused trailing_data else elim (validate_policy_refresh_message m) [
        | some e ↦ refused (invalid_message e)
        | none ↦ accepted m
      ]
]

abbrev is_some_tail : List ℕ → Bool
is_some_tail [] = false
is_some_tail (y ∷ ys) = true

-- the Redis script's comparison of two strings of the same length, byte by byte
unfoldable pub bytes_less : List ℕ → List ℕ → Bool
bytes_less [] ys = is_some_tail ys
bytes_less (x ∷ xs) [] = false
bytes_less (x ∷ xs) (y ∷ ys) =
    let rest = bytes_less xs ys in if ltb x y then true else x == y && rest

-- cachePolicyRevisionScript on the cached text and the supplied one
unfoldable pub cache_policy_revision : Option (List ℕ) → List ℕ → Option (List ℕ)
cache_policy_revision none supplied = some supplied
cache_policy_revision (some current) supplied =
    if ltb (length current) (length supplied)
      || (length current == length supplied && bytes_less current supplied)
    then some supplied
    else some current
