-- ===== src/Push.antt =====
-- `send_notification_trigger_to_user` (src/event_handler.rs): one notification to one recipient, from
-- its age to what follows the provider's answer. A stage is a function of the shared keys; a call
-- that fails changes nothing, and a cancellation is seen before the call that it is awaited with.
pub mod Call
pub mod Stages
pub mod Gates
pub mod Once
pub mod Allowed
pub mod Edits
pub mod Payloads
pub mod Answer
unfoldable pub use Call.*
unfoldable pub use Payloads.*
unfoldable pub use Answer.*
use Prim.Native.String.{◌++◌}
use divine_push_service.Prelude.{
  ℕ, ◌+◌, ◌-◌, String, Bool, false, ◌&&◌, ◌||◌, not, Option, none, some, List, ltb, ◌==◌,
  if◌then◌else◌, is_some, unwrap_or,
}
use divine_push_service.Prelude.Int.{ℤ}
use divine_push_service.Redis.{SortedSets, at_time}
use divine_push_service.Redis.Members.{MemberSets}
use divine_push_service.Activity.{no_visits, generation_for_work}
use divine_push_service.Budget.{nonurgent, direct_message as direct_class, Request}
use divine_push_service.Delivery.{
  social_tokens, reserve_budget_for_class, validate_reservation_for_class,
}
use divine_push_service.Preferences.{
  Format, NotificationType, like, repost, mention, direct_message, new_post, is_enabled,
  UserPreferences, get_user_preferences,
}
use divine_push_service.Claims.{RecipientEventClaim, try_claim_recipient_event}
use divine_push_service.Devices.{Parsers, get_tokens_with_timezone_offsets}
use divine_push_service.World.{
  World, is_empty, set_at, account_of, with_account, budgets_at, with_budgets,
}
use divine_push_service.Campaign.Deliver.{is_permitted, is_allowed}
use divine_push_service.Coalesce.Tokens.{refund_recipient_token}
use divine_push_service.Coalesce.Groups.{ActorCounts, update}
use divine_push_service.Coalesce.Ingest.{
  Formats, CoalesceDecision, immediate, buffered, stale_visit, ingest_for_generation,
}
use divine_push_service.Coalesce.Flush.{kept_tokens}
use divine_push_service.Notify.{is_notify_watcher}
use divine_push_service.Events.{Event, Parsing, CoalesceTarget, coalesce_target}

module _ (R : SortedSets) (S : MemberSets) (L : ActorCounts) (D : Parsers) (P : Parsing)
    (W : Writing) (F : Formats) (G : Format) (settings : PushSettings) (C : PushCall)
    (trigger : DeliveryTrigger) (recipient : String) (notification_type : NotificationType) where
  abbrev pub identity : String
  identity = "event:" ++ event_id trigger

  abbrev pub request : ℕ → Request
  request generation = record {
    identity = identity;
    generation = some generation;
    class = if is_type notification_type direct_message then direct_class else nonurgent;
  }

  -- The refund of what the ingest charged for the push.
  unfoldable pub refund : Shared R S L → Shared R S L
  refund s = record s {
    store = record s.store {
      allowances = update s.store.allowances recipient (
          refund_recipient_token R settings.service C.refund_at (event_id trigger)
            (s.store.allowances recipient));
    };
  }

  -- A final gate leaves no device: what was charged is refunded, and the claim is kept.
  unfoldable pub suppress : Option String → Shared R S L → Pushed R S L
  suppress collapse_key s =
      if not (is_some collapse_key)
      then end_with R S L ok s
      else if C.refund_fails
      then end_with R S L err s
      else end_with R S L ok (refund s)

  unfoldable pub validate_and_push :
      ℕ
      → NotificationType
      → RecipientEventClaim
      → Option String
      → List String
      → Shared R S L
      → Pushed R S L
  validate_and_push generation type claim collapse_key tokens s =
      if C.validation_fails
      then end_with R S L err
          (release R S L D P W F G settings C trigger recipient notification_type claim s)
      else let (valid, b) =
          validate_reservation_for_class R settings.delivery (request generation) C.validate_at
            (budgets_at R S recipient s.world) in
        let s' : Shared R S L = record s { world = with_budgets R S recipient b s.world } in
        if valid
        then push R S L D P W F G settings C trigger recipient notification_type type claim
            collapse_key tokens s'
        else suppress collapse_key s'

  unfoldable pub reserve_and_push :
      ℕ
      → NotificationType
      → RecipientEventClaim
      → Option String
      → List String
      → Shared R S L
      → Pushed R S L
  reserve_and_push generation type claim collapse_key tokens s =
      if C.budget_fails
      then end_with R S L err
          (release R S L D P W F G settings C trigger recipient notification_type claim s)
      else let (decision, b) =
          reserve_budget_for_class R settings.delivery (request generation) C.reserve_at
            (budgets_at R S recipient s.world) in
        let s' : Shared R S L = record s { world = with_budgets R S recipient b s.world } in
        if is_allowed decision
        then validate_and_push generation type claim collapse_key tokens s'
        else suppress collapse_key s'

  -- The devices that may be pushed to at `now`.
  unfoldable pub tokens_at : ℤ → World R S → List String
  tokens_at now w =
      social_tokens (get_tokens_with_timezone_offsets R S D now recipient w.devices) now
        settings.delivery

  unfoldable pub recheck_tokens :
      ℕ
      → List String
      → NotificationType
      → RecipientEventClaim
      → Option String
      → Shared R S L
      → Pushed R S L
  recheck_tokens generation tokens type claim collapse_key s =
      if C.recheck_fails
      then end_with R S L err
          (release R S L D P W F G settings C trigger recipient notification_type claim s)
      else let kept = kept_tokens (tokens_at C.recheck_now s.world) tokens in
        if is_empty kept
        then suppress collapse_key s
        else reserve_and_push generation type claim collapse_key kept s

  -- The copy is resolved once every gate that is known by now has been passed.
  unfoldable pub compose :
      ℕ
      → List String
      → NotificationType
      → RecipientEventClaim
      → Option String
      → Shared R S L
      → Pushed R S L
  compose generation tokens type claim collapse_key s =
      if C.cancelled at_copy
      then end_with R S L stopped
          (release R S L D P W F G settings C trigger recipient notification_type claim s)
      else recheck_tokens generation tokens type claim collapse_key s

  -- The script, on the generation that the recipient's visits then have.
  unfoldable pub ingest_event :
      ℕ → Event → NotificationType → CoalesceTarget → Shared R S L → CoalesceDecision × Shared R S L
  ingest_event generation event type target s =
      let current =
        unwrap_or (at_time C.ingest_at no_visits (s.world.visits recipient)).value.generation 0 in
      let (decision, store) =
        ingest_for_generation R L F settings.service C.ingest_at
          (trigger_of W settings.service event recipient type generation target)
          (record s.store { generations = set_at recipient current s.store.generations }) in
      (decision, record s { store = store })

  -- The match on the decision.
  unfoldable pub follow :
      ℕ
      → List String
      → NotificationType
      → RecipientEventClaim
      → CoalesceDecision
      → Shared R S L
      → Pushed R S L
  follow generation tokens type claim decision s = elim decision [
    | stale_visit ↦ end_with R S L ok s
    | immediate group key ↦ compose generation tokens type claim (some key) s
    | buffered group ↦ end_with R S L ok s
  ]

  unfoldable pub ingest_and_push :
      ℕ
      → List String
      → NotificationType
      → RecipientEventClaim
      → Event
      → CoalesceTarget
      → Shared R S L
      → Pushed R S L
  ingest_and_push generation tokens type claim event target s =
      if C.ingest_fails
      then end_with R S L err
          (release R S L D P W F G settings C trigger recipient notification_type claim s)
      else let (decision, s') = ingest_event generation event type target s in
        follow generation tokens type claim decision s'

  -- A like or a repost of a known object goes through coalescing.
  unfoldable pub coalesce_and_push :
      ℕ → List String → NotificationType → RecipientEventClaim → Event → Shared R S L → Pushed R S L
  coalesce_and_push generation tokens type claim event s = elim (coalesce_target P event) [
    | some target ↦ ingest_and_push generation tokens type claim event target s
    | none ↦
        if settings.service.coalesce_immediate_limit == 0
        then end_with R S L ok s
        else compose generation tokens type claim none s
  ]

  unfoldable pub route_claimed :
      ℕ → List String → NotificationType → RecipientEventClaim → Shared R S L → Pushed R S L
  route_claimed generation tokens type claim s = elim trigger [
    | nostr event ↦
        if is_type type like || is_type type repost
        then coalesce_and_push generation tokens type claim event s
        else compose generation tokens type claim none s
    | wrapped_message id ↦ compose generation tokens type claim none s
  ]

  unfoldable pub claim_and_push : ℕ → List String → NotificationType → Shared R S L → Pushed R S L
  claim_and_push generation tokens type s =
      if C.cancelled at_claim
      then end_with R S L stopped s
      else if C.claim_fails
      then end_with R S L err s
      else let (claim, claims) =
          try_claim_recipient_event C.claim_at (event_id trigger) recipient C.claim_value
            settings.processed_event_ttl_secs s.world.claims in
        let s' : Shared R S L = record s { world = record s.world { claims = claims } } in
        elim claim [
          | none ↦ end_with R S L ok s'
          | some c ↦ route_claimed generation tokens type c s'
        ]

  abbrev pub is_in_rate_window : Event → Shared R S L → Bool
  is_in_rate_window event s =
      is_some (get_cached_string C.rate_at (build_notify_rate_key recipient event.pubkey) s.cached)

  -- A new post within its creator's window counts as told.
  unfoldable pub check_rate :
      ℕ → List String → NotificationType → Event → Shared R S L → Pushed R S L
  check_rate generation tokens type event s =
      if not (is_type type new_post)
      then claim_and_push generation tokens type s
      else if C.cancelled at_rate
      then end_with R S L stopped s
      else if C.rate_fails
      then end_with R S L err s
      else if is_in_rate_window event s
      then end_with R S L ok (
          record_video_claims R S L D P W F G settings C trigger recipient notification_type
            (some event) type s)
      else claim_and_push generation tokens type s

  -- The key of before the claims had a type.
  unfoldable pub check_legacy_claim :
      ℕ → List String → NotificationType → Event → Shared R S L → Pushed R S L
  check_legacy_claim generation tokens type event s =
      elim (legacy_video_recipient_claim_key W event recipient) [
        | none ↦ check_rate generation tokens type event s
        | some key ↦
            if C.cancelled at_legacy
            then end_with R S L stopped s
            else if C.legacy_fails
            then end_with R S L err s
            else if is_some (get_cached_string C.legacy_at ("dedup:" ++ key) s.cached)
            then end_with R S L ok s
            else check_rate generation tokens type event s
      ]

  -- `has_video_claim`, and what follows it. A video without a `d` tag counts as told.
  unfoldable pub check_video_claim :
      ℕ → List String → NotificationType → Event → Shared R S L → Pushed R S L
  check_video_claim generation tokens type event s =
      elim (video_recipient_claim_key W event recipient type) [
        | none ↦ end_with R S L ok s
        | some key ↦
            if C.cancelled at_video
            then end_with R S L stopped s
            else if C.video_fails
            then end_with R S L err s
            else if is_some (get_cached_string C.video_at ("dedup:" ++ key) s.cached)
            then end_with R S L ok s
            else check_legacy_claim generation tokens type event s
      ]

  unfoldable pub check_history : ℕ → List String → NotificationType → Shared R S L → Pushed R S L
  check_history generation tokens type s = elim trigger [
    | nostr event ↦
        if is_video event
        then check_video_claim generation tokens type event s
        else check_rate generation tokens type event s
    | wrapped_message id ↦ claim_and_push generation tokens type s
  ]

  -- A muted mention in a video falls back to the bell of a watcher.
  unfoldable pub can_fall_back_to_bell : UserPreferences → Shared R S L → Bool
  can_fall_back_to_bell prefs s = elim trigger [
    | nostr event ↦
        if (is_video event && is_type notification_type mention) && is_enabled new_post prefs
        then not C.watcher_fails && is_notify_watcher S event.pubkey recipient s.lists
        else false
    | wrapped_message id ↦ false
  ]

  -- The type to deliver, if the preferences leave one.
  unfoldable pub delivery_type : UserPreferences → Shared R S L → Option NotificationType
  delivery_type prefs s =
      if is_enabled notification_type prefs
      then some notification_type
      else if can_fall_back_to_bell prefs s
      then some new_post
      else none

  unfoldable pub check_preferences : ℕ → List String → Shared R S L → Pushed R S L
  check_preferences generation tokens s =
      if C.preferences_fail
      then end_with R S L err s
      else let prefs = get_user_preferences G recipient settings.default_preferences s.world.keys in
        elim (delivery_type prefs s) [
          | none ↦ end_with R S L ok s
          | some type ↦ check_history generation tokens type s
        ]

  unfoldable pub find_tokens : ℕ → Shared R S L → Pushed R S L
  find_tokens generation s =
      if C.cancelled at_tokens
      then end_with R S L stopped s
      else if C.lookup_fails
      then end_with R S L err s
      else let tokens = tokens_at C.lookup_now s.world in
        if is_empty tokens then end_with R S L ok s else check_preferences generation tokens s

  unfoldable pub bind_and_push : Shared R S L → Pushed R S L
  bind_and_push s =
      if C.bind_fails
      then end_with R S L err s
      else let (generation, account) =
          generation_for_work R C.bind_clock identity (retention_secs settings trigger)
            (account_of R S recipient s.world) in
        find_tokens generation (record s { world = with_account R S recipient account s.world })

  unfoldable pub is_expired : Option Event → Bool
  is_expired none = false
  is_expired (some event) =
      ltb settings.delivery.max_event_age_secs (C.started_at - event.created_at)

  unfoldable pub send_notification_trigger_to_user : Shared R S L → Pushed R S L
  send_notification_trigger_to_user s =
      if is_expired (nostr_event trigger)
      then end_with R S L ok s
      else if not (is_permitted settings.allowed_pubkeys recipient)
      then end_with R S L ok s
      else bind_and_push s
