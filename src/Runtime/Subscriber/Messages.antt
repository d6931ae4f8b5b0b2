-- ===== src/Runtime/Subscriber/Messages.antt =====
-- What the receive loop of subscriber.go passes on.
use text.Mathlib.Text.{◌==◌ as same_text}
use aegis_core.Base.{
  ◌≡◌, refl, Bool, false, not, ◌||◌, Option, none, some, List, [], ◌∷◌, arith, String, All, eq_iff,
  Bool-cases, inl, inr,
}
use aegis_core.Runtime.Subscriber.{
  Options, Received, subscription, message, pong, other_value, Message, receive,
}

-- the payloads of the messages that the client gave
abbrev pub payloads : List (Option (Received × Bool)) → List String
payloads [] = []
payloads (none ∷ rest) = payloads rest
payloads (some (message channel pattern payload, taken) ∷ rest) = payload ∷ payloads rest
payloads (some (subscription kind channel, taken) ∷ rest) = payloads rest
payloads (some (pong, taken) ∷ rest) = payloads rest
payloads (some (other_value, taken) ∷ rest) = payloads rest

abbrev pub IsOn : String → Message → Type 0
IsOn channel m = (m.channel ≡ channel) × (m.pattern ≡ "")

abbrev pub IsPrefixOf : List Message → List String → Type 0
IsPrefixOf [] ps = Unit
IsPrefixOf (m ∷ ms) [] = ⊥
IsPrefixOf (m ∷ ms) (p ∷ ps) = (m.payload ≡ p) × IsPrefixOf ms ps

is_on :
    (o : Options) (channel pattern payload : String)
    → (not (same_text channel o.channel) || not (same_text pattern "")) ≡ false
    → IsOn o.channel (record { channel = channel; pattern = pattern; payload = payload })
is_on o channel pattern payload right =
    ground (arith, right, eq_iff channel o.channel, eq_iff pattern "")

-- Only messages of the subscribed channel are passed on, and their payloads are a prefix of those that
-- the client gave: none is reordered, repeated or skipped.
pub receive-IsPrefixOf :
    (o : Options) (rs : List (Option (Received × Bool)))
    → All (IsOn o.channel) (receive o rs).0 × IsPrefixOf (receive o rs).0 (payloads rs)
unfolding receive
receive-IsPrefixOf o [] = (tt, tt)
receive-IsPrefixOf o (none ∷ rest) = (tt, tt)
receive-IsPrefixOf o (some (message channel pattern payload, taken) ∷ rest) =
    let ih = receive-IsPrefixOf o rest in
    elim (Bool-cases (not (same_text channel o.channel) || not (same_text pattern ""))) [
      | inl wrong ↦ rw wrong (tt, tt)
      | inr right ↦ elim (Bool-cases taken) [
        | inl kept ↦ rw (right, kept) ((is_on o channel pattern payload right, ih.0), (refl, ih.1))
        | inr lost ↦ rw (right, lost) (tt, tt)
      ]
    ]
receive-IsPrefixOf o (some (subscription kind channel, taken) ∷ rest) =
    let ih = receive-IsPrefixOf o rest in
    elim (Bool-cases (not (same_text kind "subscribe") || not (same_text channel o.channel))) [
      | inl wrong ↦ rw wrong (tt, tt)
      | inr right ↦ rw right ih
    ]
receive-IsPrefixOf o (some (pong, taken) ∷ rest) = receive-IsPrefixOf o rest
receive-IsPrefixOf o (some (other_value, taken) ∷ rest) = (tt, tt)
