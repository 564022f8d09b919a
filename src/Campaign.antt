-- ===== src/Campaign.antt =====
-- src/campaign_delivery.rs: the data that the campaign tool hands over and gets back, expiry and quiet
-- hours, and the payload. Campaign/Deliver is `deliver`, Campaign/Poll is `poll_once`.
pub mod QuietHours
pub mod Deliver
pub mod Poll
use Prim.Native.String.{◌++◌, len, slice}
use divine_push_service.Prelude.{
  ℕ, ◌+◌, ◌-◌, ◌*◌, ◌^◌, String, Bool, true, false, ◌&&◌, Option, none, some, List, ◌==◌, leb,
  str_eq, if◌then◌else◌, min, unwrap_or,
}
use divine_push_service.Prelude.Int.{ℤ, pos, pos_part, neg_part, sub_ℕ, ◌+ℤ◌, scale, rem_euclid}
use divine_push_service.Budget.{DeliverySettings}
use divine_push_service.Delivery.{in_quiet_hours}
use divine_push_service.Devices.{Parsers}
use divine_push_service.Payload.{FcmPayload, no_fields, put}

pub record TapTarget : Type 0 where
  pub target_type : String
  pub value : String

pub record PendingDelivery : Type 0 where
  pub idempotency_key : String
  pub lease_id : String
  pub campaign_revision_id : String
  pub recipient_pubkey : String
  pub category : String
  pub title : String
  pub body : String
  pub tap_target : TapTarget
  pub expires_at : Option String

pub data DeliveryStatus : Type 0 where
  delivered deferred suppressed permanent_failure retryable_failure : DeliveryStatus

abbrev pub is_delivered : DeliveryStatus → Bool
is_delivered delivered = true
is_delivered _ = false

pub record DeliveryResult : Type 0 where
  pub idempotency_key : String
  pub lease_id : String
  pub status : DeliveryStatus
  pub reason : Option String
  pub retry_after : Option String

-- What the crates parse and write.
pub record Formats : Type 0 where
  pub parsers : Parsers
  -- `PublicKey::from_str`, then `to_hex`
  pub from_str : String → Option String
  pub to_bech32 : String → String
  -- `DateTime::parse_from_rfc3339`, in seconds
  pub parse_rfc3339 : String → Option ℤ
  -- `DateTime::from_timestamp`, then `to_rfc3339_opts`
  pub to_rfc3339 : ℤ → Option String

-- The settings that a delivery reads.
pub record CampaignSettings : Type 0 where
  pub dedup_ttl_secs : ℕ
  pub allow_unverified_consent : Bool
  -- of the service
  pub allowed_pubkeys : List String
  pub delivery : DeliverySettings

unfoldable pub dedup_key : String → String
dedup_key idempotency_key = "campaign_delivery:" ++ idempotency_key

-- a ≤ b
abbrev pub lebℤ : ℤ → ℤ → Bool
lebℤ a b = leb (pos_part a + neg_part b) (pos_part b + neg_part a)

-- A timestamp without its seconds gets them.
unfoldable pub normalized : String → String
normalized raw =
    if (len raw == 17) && str_eq (slice raw 16 17) "Z" then slice raw 0 16 ++ ":00Z" else raw

unfoldable pub expiry_timestamp : Formats → String → Option ℤ
expiry_timestamp F raw = F.parse_rfc3339 (normalized raw)

unfoldable pub is_expired : Formats → Option String → ℤ → Bool
is_expired F none now = false
is_expired F (some raw) now = elim (expiry_timestamp F raw) [
  | none ↦ true
  | some expiry ↦ lebℤ expiry now
]

-- `saturating_sub` and `max(0)`, by the bound of an i64.
abbrev pub seconds_until : ℤ → ℤ → ℕ
seconds_until expiry now =
    min (pos_part expiry + neg_part now - (pos_part now + neg_part expiry)) (2 ^ 63 - 1)

unfoldable pub remaining_lifetime : Formats → Option String → ℤ → ℕ
remaining_lifetime F none now = 0
remaining_lifetime F (some raw) now = elim (expiry_timestamp F raw) [
  | none ↦ 0
  | some expiry ↦ seconds_until expiry now
]

-- The seconds to the end of the quiet hours.
unfoldable pub until_end : ℤ → ℤ → DeliverySettings → ℕ
until_end timezone_offset_minutes now settings =
    let seconds_today = rem_euclid (now +ℤ scale 60 timezone_offset_minutes) 86400 in
    rem_euclid (sub_ℕ (settings.quiet_end_hour * 3600) seconds_today) 86400

unfoldable pub quiet_hours_retry_after : Formats → ℤ → ℤ → DeliverySettings → Option String
unfolding until_end
quiet_hours_retry_after F timezone_offset_minutes now settings =
    if in_quiet_hours timezone_offset_minutes now settings
    then F.to_rfc3339 (now +ℤ pos (until_end timezone_offset_minutes now settings))
    else none

unfoldable pub campaign_payload : Formats → PendingDelivery → String → FcmPayload
campaign_payload F delivery recipient = record {
  contents = some (
      put "receiverNpub" (F.to_bech32 recipient) (
        put "receiverPubkey" recipient (
          put "tapTargetValue" delivery.tap_target.value (
            put "tapTargetType" delivery.tap_target.target_type (
              put "campaignRevisionId" delivery.campaign_revision_id (
                put "body" delivery.body (
                  put "title" delivery.title
                    (put "category" delivery.category (put "type" "campaign" no_fields)))))))));
  collapse_key = none;
}
