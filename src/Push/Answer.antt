-- ===== src/Push/Answer.antt =====
-- What a delivery does with the provider's answer (src/event_handler.rs,
-- `send_notification_trigger_to_user`): the bookkeeping of a push that some device took, the removal
-- of devices that are gone, and the claim that a retry gives back.
use Prim.Native.String.{◌++◌}
use divine_push_service.Prelude.{
  ℕ, ◌+◌, String, Bool, true, false, ◌||◌, not, Option, none, some, List, [], ◌∷◌, str_eq,
  if◌then◌else◌,
}
use divine_push_service.Redis.{SortedSets, at_time}
use divine_push_service.Redis.Members.{MemberSets}
use divine_push_service.Preferences.{Format, NotificationType, new_post, display_name}
use divine_push_service.Claims.{
  ClaimKeys, set_key, RecipientEventClaim, release_recipient_event_claim,
}
use divine_push_service.Devices.{Parsers, remove_token, refresh_token_activity}
use divine_push_service.Payload.{FcmPayload, immediate_delivery}
use divine_push_service.Provider.{SendResult, delivered_tokens}
use divine_push_service.World.{World, is_empty}
use divine_push_service.Coalesce.Groups.{ActorCounts, Store}
use divine_push_service.Coalesce.Ingest.{Formats}
use divine_push_service.Coalesce.Flush.{retryable_failure}
use divine_push_service.Notify.{Lists}
use divine_push_service.Events.{Event, Parsing}
use divine_push_service.Push.Payloads.{create_direct_message_payload, create_fcm_payload}
use divine_push_service.Push.Call.{
  DeliveryTrigger, nostr_event, is_video, PushSettings, PushCall, PushResult, Writing,
  build_notify_rate_key, video_recipient_claim_key, satisfied_video_claims, tokens_to_remove,
  is_cancelled_in, nostr, wrapped_message, ok, stopped, err, retryable, at_send, at_removal,
}

-- `get_cached_string` and `set_cached_string`.
abbrev pub get_cached_string : ℕ → String → ClaimKeys → Option String
get_cached_string now key keys = (at_time now none (keys key)).value

unfoldable pub set_cached_string : ℕ → String → String → ℕ → ClaimKeys → ClaimKeys
set_cached_string now key value ttl_secs keys =
    set_key key (record { value = some value; expires_at = some (now + ttl_secs) }) keys

abbrev pub is_type : NotificationType → NotificationType → Bool
is_type a b = str_eq (display_name a) (display_name b)

module _ (R : SortedSets) (S : MemberSets) (L : ActorCounts) where
  -- The keys of the delivery paths: the groups, the accounts, the bells, and the strings that
  -- remember a video's recipients and a creator's last new post, whose names no claim has.
  pub record Shared : Type 0 where
    pub store : Store R L
    pub world : World R S
    pub lists : Lists S
    pub cached : ClaimKeys

  -- The result, what it leaves, and the batch that went to the provider if one did.
  pub record Pushed : Type 0 where
    pub result : PushResult
    pub shared : Shared
    pub batch : Option (List String × FcmPayload)

  abbrev pub end_with : PushResult → Shared → Pushed
  end_with result s = record { result = result; shared = s; batch = none }

module _ (R : SortedSets) (S : MemberSets) (L : ActorCounts) (D : Parsers) (P : Parsing)
    (W : Writing) (F : Formats) (G : Format) (settings : PushSettings) (C : PushCall)
    (trigger : DeliveryTrigger) (recipient : String) (notification_type : NotificationType) where
  -- The release of the recipient's claim.
  unfoldable pub release : RecipientEventClaim → Shared R S L → Shared R S L
  release claim s = if C.release_fails then s else record s {
    world = record s.world {
      claims = (release_recipient_event_claim C.release_at claim s.world.claims).1;
    };
  }

  -- Where every device refused and the provider asks for a retry, the claim is given back.
  unfoldable pub conclude :
      RecipientEventClaim → List (String × SendResult) → Shared R S L → Pushed R S L
  conclude claim outcomes s =
      if not (is_empty (delivered_tokens outcomes))
      then end_with R S L ok s
      else elim (retryable_failure outcomes) [
        | none ↦ end_with R S L ok s
        | some delay ↦
            end_with R S L (if C.release_fails then err else retryable delay) (release claim s)
      ]

  unfoldable pub remove : String → Shared R S L → Shared R S L
  remove token s = if C.removal_fails token then s else record s {
    world = record s.world { devices = (remove_token R S recipient token s.world.devices).1 };
  }

  -- The loop over the devices to remove: whether a turn of it is cancelled, and what it leaves.
  unfoldable pub remove_invalid : List String → Shared R S L → Bool × Shared R S L
  remove_invalid [] s = (false, s)
  remove_invalid (token ∷ tokens) s =
      if C.cancelled (at_removal token) then (true, s) else remove_invalid tokens (remove token s)

  unfoldable pub record_claim : String → Shared R S L → Shared R S L
  record_claim key s = if C.record_fails key then s else record s {
    cached =
        set_cached_string C.record_at key "1" settings.video_coordinate_dedup_ttl_secs s.cached;
  }

  unfoldable pub record_claims : Event → List NotificationType → Shared R S L → Shared R S L
  record_claims event [] s = s
  record_claims event (type ∷ types) s = elim (video_recipient_claim_key W event recipient type) [
    | none ↦ s
    | some key ↦ record_claims event types (record_claim ("dedup:" ++ key) s)
  ]

  unfoldable pub record_video_claims : Option Event → NotificationType → Shared R S L → Shared R S L
  record_video_claims none type s = s
  record_video_claims (some event) type s =
      if is_video event then record_claims event (satisfied_video_claims type) s else s

  -- The rate window of a new post's creator, which opens on a push that was delivered. A gift wrap
  -- is never a new post.
  unfoldable pub open_rate_window : Option Event → NotificationType → Shared R S L → Shared R S L
  open_rate_window none type s = s
  open_rate_window (some event) type s =
      if not (is_type type new_post) || C.set_rate_fails then s else record s {
        cached =
            set_cached_string C.set_rate_at (build_notify_rate_key recipient event.pubkey) "1"
              settings.new_post_rate_limit_secs s.cached;
      }

  unfoldable pub refresh_delivered : List String → Shared R S L → Shared R S L
  refresh_delivered tokens s = if C.refresh_fails then s else record s {
    world = record s.world {
      devices = (refresh_token_activity R S C.refresh_at tokens s.world.devices).1;
    };
  }

  -- What is written once a device took the push.
  unfoldable pub note_delivered :
      NotificationType → List (String × SendResult) → Shared R S L → Shared R S L
  note_delivered type outcomes s =
      let delivered = delivered_tokens outcomes in
      if is_empty delivered
      then s
      else record_video_claims (nostr_event trigger) type
          (open_rate_window (nostr_event trigger) type (refresh_delivered delivered s))

  -- What follows the provider's answer.
  unfoldable pub settle :
      NotificationType
      → RecipientEventClaim
      → List (String × SendResult)
      → Shared R S L
      → Pushed R S L
  settle type claim outcomes s =
      if is_cancelled_in C.cancelled outcomes
      then end_with R S L stopped s
      else let (cut, s') =
          remove_invalid (tokens_to_remove outcomes) (note_delivered type outcomes s) in
        if cut then end_with R S L stopped s' else conclude claim outcomes s'

  unfoldable pub payload_of : NotificationType → Option String → FcmPayload
  payload_of type collapse_key = immediate_delivery (elim trigger [
    | nostr event ↦ create_fcm_payload P W event recipient type C.copy collapse_key
    | wrapped_message id ↦ create_direct_message_payload W id recipient
  ])

  unfoldable pub push :
      NotificationType
      → RecipientEventClaim
      → Option String
      → List String
      → Shared R S L
      → Pushed R S L
  push type claim collapse_key tokens s =
      if C.cancelled at_send
      then end_with R S L stopped s
      else let payload = payload_of type collapse_key in
        record (settle type claim (C.send tokens payload) s) { batch = some (tokens, payload) }
