-- ===== src/Handler.antt =====
-- src/event_handler.rs: what the handler does with an event, from the loop to the service's keys. A
-- call that fails changes nothing.
pub mod Control
pub mod Once
pub mod Each
use Prim.Native.String.{◌++◌, len, slice}
use divine_push_service.Prelude.{
  ℕ, ◌+◌, String, Bool, true, false, ◌||◌, not, Option, none, some, List, [], ◌∷◌, ltb, ◌==◌,
  if◌then◌else◌, unwrap_or,
}
use divine_push_service.Redis.{SortedSets}
use divine_push_service.Redis.Members.{MemberSets}
use divine_push_service.Preferences.{Format}
use divine_push_service.Claims.{try_claim_event}
use divine_push_service.Devices.{Parsers}
use divine_push_service.Payload.{FcmPayload}
use divine_push_service.Coalesce.{saturating_add}
use divine_push_service.Coalesce.Groups.{ActorCounts}
use divine_push_service.Coalesce.Ingest.{Formats}
use divine_push_service.Notify.{StringOrder, replace_notify_subscriptions}
use divine_push_service.Fanout.{JobFormat, FanoutQueue, enqueue_initial_fanout_job}
use divine_push_service.Events.{
  EventContext, historical, live, Event, Parsing, kind_registration, kind_deregistration,
  kind_video, kind_notify_list, notify_list_d_tag, is_that, is_beyond_replay_horizon,
  requires_event_claim, is_event_for_service, collect_notify_creators, NotificationTarget,
  deliverable_targets, content_notification_targets, video_mention_targets, renders_event_content,
}
use divine_push_service.Push.{
  nostr, PushSettings, EventScopedCopy, PushCall, PushResult, ok, stopped, err, retryable, Writing,
  Shared, Pushed, send_notification_trigger_to_user,
}
use divine_push_service.Handler.Control.{
  Crypto, ControlCall, handle_registration, handle_deregistration, handle_preferences_update,
}

-- What the handler is built with: the crates and src/crypto.rs, the profiles that src/mention_parser.rs
-- gives, and the public key of the service's keys, if it has them.
pub record Service : Type 0 where
  pub devices : Parsers
  pub parsing : Parsing
  pub writing : Writing
  pub groups : Formats
  pub text : Format
  pub jobs : JobFormat
  pub crypto : Crypto
  pub is_above : StringOrder
  pub event_json : Event → String
  -- none also where the lookup fails or there is no parser
  pub profile_name : String → Option String
  pub format_content : String → Option String
  pub public_key : Option String

pub record HandlerSettings : Type 0 where
  pub push : PushSettings
  pub notify_list_max_creators : ℕ

-- The handling of one event: its clocks, where it is cancelled, the calls that fail, and the call
-- of each of its targets, by position.
pub record HandlerCall : Type 0 where
  pub received_at : ℕ
  pub claim_at : ℕ
  pub enqueue_at : ℕ
  pub enqueue_now_ms : ℕ
  pub expires_from : ℕ
  pub is_cancelled : Bool
  pub cancelled_before : ℕ → Bool
  pub claim_fails : Bool
  pub list_fails : Bool
  pub enqueue_fails : Bool
  pub control : ControlCall
  pub sends : ℕ → PushCall
  -- whether one of the deliveries comes to resolve the copy
  pub is_resolved : Bool

unfoldable pub format_short_npub : Writing → String → String
format_short_npub W pubkey =
    let npub = W.to_bech32 pubkey in if ltb 12 (len npub) then slice npub 0 12 ++ "..." else npub

unfoldable pub needs_content : List NotificationTarget → Bool
needs_content [] = false
needs_content (target ∷ targets) =
    renders_event_content target.notification_type || needs_content targets

unfoldable pub resolve_event_scoped_copy : Service → Event → Bool → EventScopedCopy
resolve_event_scoped_copy V event wanted = record {
  sender_name = unwrap_or (V.profile_name event.pubkey) (format_short_npub V.writing event.pubkey);
  formatted_content = if wanted then V.format_content event.content else none;
}

-- The first error of a loop.
unfoldable pub keep_first : Option PushResult → PushResult → Option PushResult
keep_first (some first) result = some first
keep_first none ok = none
keep_first none stopped = some stopped
keep_first none err = some err
keep_first none (retryable delay) = some (retryable delay)

abbrev pub is_stopped : PushResult → Bool
is_stopped stopped = true
is_stopped ok = false
is_stopped err = false
is_stopped (retryable delay) = false

-- What went to the provider, and for whom.
abbrev pub Batch : Type 0
Batch = String × (List String × FcmPayload)

abbrev pub logged : String → Option (List String × FcmPayload) → List Batch → List Batch
logged recipient none batches = batches
logged recipient (some batch) batches = (recipient, batch) ∷ batches

module _ (R : SortedSets) (S : MemberSets) (L : ActorCounts) where
  pub record Sent : Type 0 where
    pub result : PushResult
    pub shared : Shared R S L
    pub batches : List Batch

  -- The keys, and the queue of the fan-out.
  pub record Stored : Type 0 where
    pub shared : Shared R S L
    pub queue : FanoutQueue R

  pub record Handled : Type 0 where
    pub result : PushResult
    pub stored : Stored
    pub batches : List Batch

module _ (R : SortedSets) (S : MemberSets) (L : ActorCounts) (V : Service)
    (settings : HandlerSettings) (C : HandlerCall) where
  abbrev pub deliver_to :
      Event → EventScopedCopy → ℕ → NotificationTarget → Shared R S L → Pushed R S L
  deliver_to event copy i target s =
      send_notification_trigger_to_user R S L V.devices V.parsing V.writing V.groups V.text
        settings.push (record (C.sends i) { copy = copy }) (nostr event) target.recipient
        target.notification_type s

  -- The loop over the targets from the `i`th on, with the first error so far.
  unfoldable pub send_from :
      Event
      → EventScopedCopy
      → ℕ
      → Option PushResult
      → List NotificationTarget
      → Shared R S L
      → Sent R S L
  send_from event copy i first [] s = record {
    result = unwrap_or first ok;
    shared = s;
    batches = [];
  }
  send_from event copy i first (target ∷ targets) s =
      let d = deliver_to event copy i target s in
      let rest = send_from event copy (i + 1) (keep_first first d.result) targets d.shared in
      if C.cancelled_before i
      then record { result = stopped; shared = s; batches = [] }
      else if is_stopped d.result
      then record {
        result = stopped;
        shared = d.shared;
        batches = logged target.recipient d.batch [];
      }
      else record rest { batches = logged target.recipient d.batch rest.batches }

  unfoldable pub send_notifications_sequential :
      Event → List NotificationTarget → EventScopedCopy → Shared R S L → Sent R S L
  send_notifications_sequential event targets copy s = send_from event copy 0 none targets s

  abbrev pub copy_for : Event → List NotificationTarget → EventScopedCopy
  copy_for event targets = resolve_event_scoped_copy V event (needs_content targets)

  -- The first page of a video's watchers is queued whatever came of its mentions.
  unfoldable pub handle_video_content_event : Event → Stored R S L → Handled R S L
  handle_video_content_event event s =
      let targets = deliverable_targets (video_mention_targets V.parsing event) event.pubkey in
      let copy = copy_for event targets in
      let sent = send_notifications_sequential event targets copy s.shared in
      let job = V.jobs.to_string (record {
        event_json = V.event_json event;
        cursor = 0;
        sender_name = if C.is_resolved then some copy.sender_name else none;
        attempt = 0;
        expires_at = saturating_add C.expires_from settings.push.processed_event_ttl_secs;
      }) in
      if C.enqueue_fails
      then record {
        result = err;
        stored = record s { shared = sent.shared };
        batches = sent.batches;
      }
      else record {
        result = sent.result;
        stored = record {
          shared = sent.shared;
          queue =
              (enqueue_initial_fanout_job R C.enqueue_at C.enqueue_now_ms event.id job
                settings.push.processed_event_ttl_secs s.queue).1;
        };
        batches = sent.batches;
      }

  unfoldable pub handle_content_event : Event → Stored R S L → Handled R S L
  handle_content_event event s =
      if event.kind == kind_video
      then handle_video_content_event event s
      else elim (content_notification_targets V.parsing event) [
        | none ↦ record { result = ok; stored = s; batches = [] }
        | some found ↦
            let targets = deliverable_targets found event.pubkey in
            let sent =
              send_notifications_sequential event targets (copy_for event targets) s.shared in
            record {
              result = sent.result;
              stored = record s { shared = sent.shared };
              batches = sent.batches;
            }
      ]

  -- The list of creators replaces the subscriber's.
  unfoldable pub handle_notify_list_update : Event → Stored R S L → Handled R S L
  handle_notify_list_update event s =
      if not (is_that notify_list_d_tag event.identifier)
      then record { result = ok; stored = s; batches = [] }
      else if C.list_fails
      then record { result = err; stored = s; batches = [] }
      else record {
        result = ok;
        stored = record s {
          shared = record s.shared {
            lists =
                (replace_notify_subscriptions S V.is_above
                  (record {
                    subscriber = event.pubkey;
                    creators =
                        collect_notify_creators V.parsing event settings.notify_list_max_creators;
                    created_at = event.created_at;
                    event_id = event.id;
                  })
                  s.shared.lists).1;
          };
        };
        batches = [];
      }

  abbrev pub result_of : Bool → PushResult
  result_of succeeds = if succeeds then ok else err

  unfoldable pub handle_control_event : Event → Stored R S L → Handled R S L
  handle_control_event event s =
      let w = s.shared.world in
      let registered = handle_registration R S V.devices V.crypto C.control event w.devices in
      let deregistered = handle_deregistration R S V.devices V.crypto C.control event w.devices in
      let updated = handle_preferences_update V.text V.crypto C.control event w.keys in
      if event.kind == kind_registration
      then record {
        result = result_of registered.0;
        stored = record s {
          shared = record s.shared { world = record w { devices = registered.1 } };
        };
        batches = [];
      }
      else if event.kind == kind_deregistration
      then record {
        result = result_of deregistered.0;
        stored = record s {
          shared = record s.shared { world = record w { devices = deregistered.1 } };
        };
        batches = [];
      }
      else record {
        result = result_of updated.0;
        stored = record s { shared = record s.shared { world = record w { keys = updated.1 } } };
        batches = [];
      }

  -- A control event is for the service if it names its key; without one, every event is.
  unfoldable pub is_addressed : Event → Bool
  is_addressed event = elim V.public_key [
    | none ↦ true
    | some service ↦ is_event_for_service V.parsing event service
  ]

  unfoldable pub route_event : EventContext → Event → Stored R S L → Handled R S L
  route_event context event s =
      if event.kind == kind_notify_list
      then handle_notify_list_update event s
      else if requires_event_claim event
      then (if is_addressed event
          then handle_control_event event s
          else record { result = ok; stored = s; batches = [] })
      else elim context [
        | historical ↦ record { result = ok; stored = s; batches = [] }
        | live ↦ handle_content_event event s
      ]

  -- One turn of the loop of `run`. An error is only logged.
  unfoldable pub handle_event : EventContext → Event → Stored R S L → Handled R S L
  handle_event context event s =
      if is_beyond_replay_horizon C.received_at event
      then record { result = ok; stored = s; batches = [] }
      else if not (requires_event_claim event)
      then route_event context event s
      else if C.is_cancelled
      then record { result = stopped; stored = s; batches = [] }
      else if C.claim_fails
      then record { result = err; stored = s; batches = [] }
      else let (claimed, claims) =
          try_claim_event C.claim_at event.id settings.push.processed_event_ttl_secs
            s.shared.world.claims in
        let s' : Stored R S L = record s {
          shared = record s.shared { world = record s.shared.world { claims = claims } };
        } in
        if claimed
        then route_event context event s'
        else record { result = ok; stored = s'; batches = [] }
