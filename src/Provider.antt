-- ===== src/Provider.antt =====
-- src/fcm_sender.rs: what the push provider answers for one device. The client that sends is a
-- parameter of the deliveries.
use divine_push_service.Prelude.{ℕ, String, Bool, true, false, Option, List, [], ◌∷◌, if◌then◌else◌}
use divine_push_service.Payload.{FcmPayload}

pub data FcmError : Type 0 where
  initialization internal_request internal_response unauthorized invalid_request : String → FcmError
  token_not_registered : FcmError
  -- in nanoseconds
  retryable_internal : ℕ → FcmError
  internal_error : FcmError
  unknown : ℕ → Option String → FcmError

pub data SendResult : Type 0 where
  accepted : SendResult
  failed : FcmError → SendResult

-- `send_batch`: the outcomes of the devices, in the order of the map that holds them.
abbrev pub SendBatch : Type 0
SendBatch = List String → FcmPayload → List (String × SendResult)

-- The loops over the outcomes: the devices that took the push, those that are gone, and whether any
-- other error came.
unfoldable pub delivered_tokens : List (String × SendResult) → List String
delivered_tokens [] = []
delivered_tokens ((token, accepted) ∷ outcomes) = token ∷ delivered_tokens outcomes
delivered_tokens ((token, failed e) ∷ outcomes) = delivered_tokens outcomes

abbrev pub is_not_registered : FcmError → Bool
is_not_registered token_not_registered = true
is_not_registered _ = false

unfoldable pub has_other_error : List (String × SendResult) → Bool
has_other_error [] = false
has_other_error ((token, accepted) ∷ outcomes) = has_other_error outcomes
has_other_error ((token, failed e) ∷ outcomes) =
    let rest = has_other_error outcomes in if is_not_registered e then rest else true
