-- ===== src/Push/Call.antt =====
-- The data of one delivery to one recipient, its keys and its payload (src/event_handler.rs,
-- `send_notification_trigger_to_user`).
use Prim.Native.String.{◌++◌}
use divine_push_service.Prelude.{
  ℕ, ◌*◌, String, Bool, true, false, ◌||◌, Option, none, some, List, [], ◌∷◌, ◌==◌, if◌then◌else◌,
  max, unwrap_or,
}
use divine_push_service.Prelude.Int.{ℤ}
use divine_push_service.Activity.{Clock}
use divine_push_service.Budget.{DeliverySettings}
use divine_push_service.Preferences.{
  NotificationType, like, comment, mention, repost, direct_message, new_post, display_name,
}
use divine_push_service.Provider.{SendBatch, SendResult, accepted, failed, is_not_registered}
use divine_push_service.Coalesce.{ServiceSettings, saturating_add}
use divine_push_service.Coalesce.Ingest.{Trigger}
use divine_push_service.Events.{Event, ReferencedCoordinate, CoalesceTarget, kind_video}

pub data DeliveryTrigger : Type 0 where
  nostr : Event → DeliveryTrigger
  -- the published gift wrap
  wrapped_message : String → DeliveryTrigger

unfoldable pub event_id : DeliveryTrigger → String
event_id (nostr event) = event.id
event_id (wrapped_message id) = id

abbrev pub nostr_event : DeliveryTrigger → Option Event
nostr_event (nostr event) = some event
nostr_event (wrapped_message id) = none

abbrev pub is_video : Event → Bool
is_video event = event.kind == kind_video

abbrev pub is_video_event : Option Event → Bool
is_video_event none = false
is_video_event (some event) = is_video event

-- The settings that a delivery reads.
pub record PushSettings : Type 0 where
  pub service : ServiceSettings
  pub delivery : DeliverySettings
  pub allowed_pubkeys : List String
  pub default_preferences : List ℕ
  pub processed_event_ttl_secs : ℕ
  pub video_coordinate_dedup_ttl_secs : ℕ
  pub new_post_rate_limit_secs : ℕ

-- The parts of a payload that depend on the event alone.
pub record EventScopedCopy : Type 0 where
  pub sender_name : String
  pub formatted_content : Option String

-- Where the code looks whether it is cancelled, just before a call.
pub data Checkpoint : Type 0 where
  at_tokens at_video at_legacy at_rate at_claim at_copy at_send : Checkpoint
  -- at one device's outcome, and at its removal
  at_outcome at_removal : String → Checkpoint

-- One call: its clocks, what it draws, where it is cancelled, the calls that fail, the copy and
-- the provider.
pub record PushCall : Type 0 where
  -- the service's clocks
  pub started_at : ℕ
  pub lookup_now : ℤ
  pub recheck_now : ℤ
  pub refresh_at : ℕ
  -- the server's clock at each command
  pub bind_clock : Clock
  pub video_at : ℕ
  pub legacy_at : ℕ
  pub rate_at : ℕ
  pub claim_at : ℕ
  pub ingest_at : ℕ
  pub reserve_at : ℕ
  pub validate_at : ℕ
  pub refund_at : ℕ
  pub set_rate_at : ℕ
  pub record_at : ℕ
  pub release_at : ℕ
  -- the claim's value
  pub claim_value : String
  pub cancelled : Checkpoint → Bool
  pub bind_fails : Bool
  pub lookup_fails : Bool
  pub preferences_fail : Bool
  pub watcher_fails : Bool
  pub video_fails : Bool
  pub legacy_fails : Bool
  pub rate_fails : Bool
  pub claim_fails : Bool
  pub ingest_fails : Bool
  pub recheck_fails : Bool
  pub budget_fails : Bool
  pub validation_fails : Bool
  pub refund_fails : Bool
  pub release_fails : Bool
  pub refresh_fails : Bool
  pub set_rate_fails : Bool
  -- of one key, and of one device's token
  pub record_fails : String → Bool
  pub removal_fails : String → Bool
  pub copy : EventScopedCopy
  pub send : SendBatch

pub data PushResult : Type 0 where
  -- cancelled, or another error
  ok stopped err : PushResult
  -- `RetryableDelivery`, in nanoseconds
  retryable : ℕ → PushResult

abbrev pub is_ok : PushResult → Bool
is_ok ok = true
is_ok stopped = false
is_ok err = false
is_ok (retryable delay) = false

-- What the crates write.
pub record Writing : Type 0 where
  pub decimal : ℕ → String
  pub to_bech32 : String → String
  -- the hash of the type, the actor and the target's key
  pub action_hash : String → String → String → String

unfoldable pub build_notify_rate_key : String → String → String
build_notify_rate_key subscriber creator = "notify_rate:" ++ subscriber ++ ":" ++ creator

unfoldable pub video_recipient_claim_key :
    Writing → Event → String → NotificationType → Option String
video_recipient_claim_key W event recipient type = elim event.identifier [
  | none ↦ none
  | some d_tag ↦ some (
      W.decimal event.kind
      ++ ":"
      ++ display_name type
      ++ ":"
      ++ event.pubkey
      ++ ":"
      ++ d_tag
      ++ ":"
      ++ recipient)
]

unfoldable pub legacy_video_recipient_claim_key : Writing → Event → String → Option String
legacy_video_recipient_claim_key W event recipient = elim event.identifier [
  | none ↦ none
  | some d_tag ↦
      some (W.decimal event.kind ++ ":" ++ event.pubkey ++ ":" ++ d_tag ++ ":" ++ recipient)
]

unfoldable pub satisfied_video_claims : NotificationType → List NotificationType
satisfied_video_claims mention = mention ∷ new_post ∷ []
satisfied_video_claims like = like ∷ []
satisfied_video_claims comment = comment ∷ []
satisfied_video_claims repost = repost ∷ []
satisfied_video_claims direct_message = direct_message ∷ []
satisfied_video_claims new_post = new_post ∷ []

-- How long a work identity stays bound to its visit.
unfoldable pub retention_secs : PushSettings → DeliveryTrigger → ℕ
retention_secs settings trigger =
    let group_secs =
      saturating_add settings.service.coalesce_group_ttl_secs
        settings.service.coalesce_logical_expiry_grace_secs in
    let public_secs = max (max settings.delivery.max_event_age_secs group_secs) 86400 in
    elim trigger [ nostr event ↦ public_secs | wrapped_message id ↦ max public_secs (7 * 86400) ]

abbrev pub text_or_empty : Option String → String
text_or_empty text = unwrap_or text ""

abbrev part_of : (ReferencedCoordinate → String) → Option ReferencedCoordinate → String
part_of part none = ""
part_of part (some address) = part address

-- The arguments of the ingest script.
unfoldable pub trigger_of :
    Writing → ServiceSettings → Event → String → NotificationType → ℕ → CoalesceTarget → Trigger
trigger_of W settings event recipient type generation target = record {
  event_id = event.id;
  event_kind = event.kind;
  actor = event.pubkey;
  created_at = event.created_at;
  type = display_name type;
  owner = recipient;
  target = target.key;
  ref_event_id = text_or_empty target.event_id;
  ref_address = part_of (λ a. a.address) target.address;
  ref_kind = part_of (λ a. a.kind) target.address;
  ref_author = part_of (λ a. a.author_pubkey) target.address;
  ref_dtag = part_of (λ a. a.d_tag) target.address;
  action_hash =
      if settings.coalesce_immediate_limit == 0
      then W.action_hash (display_name type) event.pubkey target.key
      else "";
  generation = generation;
}

pub data SendOutcome : Type 0 where
  delivered failed_and_prune not_delivered : SendOutcome

unfoldable pub classify_send_outcome : SendResult → SendOutcome
classify_send_outcome accepted = delivered
classify_send_outcome (failed e) = if is_not_registered e then failed_and_prune else not_delivered

-- The loop over the outcomes: the devices to remove, and whether one of its turns is cancelled.
unfoldable pub tokens_to_remove : List (String × SendResult) → List String
unfolding classify_send_outcome
tokens_to_remove [] = []
tokens_to_remove ((token, result) ∷ outcomes) =
    let rest = tokens_to_remove outcomes in
    elim (classify_send_outcome result) [
      | delivered ↦ rest
      | failed_and_prune ↦ token ∷ rest
      | not_delivered ↦ rest
    ]

unfoldable pub is_cancelled_in : (Checkpoint → Bool) → List (String × SendResult) → Bool
is_cancelled_in seen [] = false
is_cancelled_in seen ((token, result) ∷ outcomes) =
    seen (at_outcome token) || is_cancelled_in seen outcomes
