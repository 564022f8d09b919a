-- ===== src/Handler/Control.antt =====
-- The control events (src/event_handler.rs): registration, deregistration and preferences, of which
-- the contents are encrypted.
use divine_push_service.Prelude.{
  ℕ, String, Bool, true, false, not, Option, none, some, List, str_eq, if◌then◌else◌,
}
use divine_push_service.Prelude.Int.{ℤ, pos, negsuc}
use divine_push_service.Prelude.{leb}
use divine_push_service.Redis.{SortedSets}
use divine_push_service.Redis.Members.{MemberSets}
use divine_push_service.Preferences.{Format, Keys, set_user_preferences_with_campaign_consent}
use divine_push_service.Devices.{
  Parsers, Devices, add_or_update_token_with_timezone_name, remove_token,
}
use divine_push_service.Events.{Event}

-- `TokenPayload` of src/crypto.rs.
pub record TokenPayload : Type 0 where
  pub token : String
  pub timezone_offset_minutes : Option ℤ
  pub timezone : Option String

pub record PreferencesPayload : Type 0 where
  pub kinds : List ℕ
  pub campaigns_enabled : Bool

-- What src/crypto.rs and the crates answer: whether a content is encrypted, what it decrypts to for
-- its sender, if the service has its keys and it does, and `trim`.
pub record Crypto : Type 0 where
  pub is_encrypted : String → Bool
  pub is_configured : Bool
  pub decrypt_token_payload : String → String → Option TokenPayload
  pub decrypt_nip44 : String → String → Option String
  pub parse_preferences : String → Option PreferencesPayload
  pub trim : String → String

-- One call: the service's clock, and whether the server's call fails.
pub record ControlCall : Type 0 where
  pub now : ℕ
  pub write_fails : Bool

-- From 12 hours behind to 14 ahead, in minutes.
unfoldable pub is_timezone_offset : ℤ → Bool
is_timezone_offset (pos n) = leb n 840
is_timezone_offset (negsuc n) = leb n 719

unfoldable pub valid_offset : Option ℤ → Option ℤ
valid_offset none = none
valid_offset (some offset) = if is_timezone_offset offset then some offset else none

-- The payload of a token that is not empty, where the content gives one.
unfoldable pub token_payload : Crypto → Event → Option TokenPayload
token_payload K event =
    if not (K.is_encrypted event.content)
    then none
    else if not K.is_configured
    then none
    else elim (K.decrypt_token_payload event.content event.pubkey) [
      | none ↦ none
      | some payload ↦
          if str_eq (K.trim payload.token) ""
          then none
          else some (record payload { token = K.trim payload.token })
    ]

unfoldable pub preferences_payload : Crypto → Event → Option PreferencesPayload
preferences_payload K event =
    if not (K.is_encrypted event.content)
    then none
    else if not K.is_configured
    then none
    else elim (K.decrypt_nip44 event.content event.pubkey) [
      | none ↦ none
      | some decrypted ↦ K.parse_preferences decrypted
    ]

module _ (R : SortedSets) (S : MemberSets) (D : Parsers) (K : Crypto) (C : ControlCall) where
  -- A handler's Boolean is whether it succeeds; an event that it rejects is no failure.
  unfoldable pub handle_registration : Event → Devices R S → Bool × Devices R S
  handle_registration event d = elim (token_payload K event) [
    | none ↦ (true, d)
    | some payload ↦ if C.write_fails then (false, d) else (
      true,
      add_or_update_token_with_timezone_name R S D C.now event.pubkey payload.token
          (valid_offset payload.timezone_offset_minutes) payload.timezone d,
    )
  ]

  unfoldable pub handle_deregistration : Event → Devices R S → Bool × Devices R S
  handle_deregistration event d = elim (token_payload K event) [
    | none ↦ (true, d)
    | some payload ↦
        if C.write_fails
        then (false, d)
        else (true, (remove_token R S event.pubkey payload.token d).1)
  ]

unfoldable pub handle_preferences_update :
    Format → Crypto → ControlCall → Event → Keys → Bool × Keys
handle_preferences_update G K C event keys = elim (preferences_payload K event) [
  | none ↦ (true, keys)
  | some payload ↦ if C.write_fails then (false, keys) else (
    true,
    set_user_preferences_with_campaign_consent G event.pubkey (record { kinds = payload.kinds })
        payload.campaigns_enabled keys,
  )
]
