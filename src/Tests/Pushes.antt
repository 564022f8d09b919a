-- ===== src/Tests/Pushes.antt =====
-- Deliveries of one event to one recipient with one phone, at concrete times.
use divine_push_service.Prelude.{
  ◌≡◌, ◌||◌, String, true, false, none, some, [], ◌∷◌, refl, arith, map, is_some, inr,
}
use divine_push_service.Prelude.Int.{pos}
use divine_push_service.Redis.Memory.{memory}
use divine_push_service.Redis.Members.{listed, contains}
use divine_push_service.Budget.{default_settings}
use divine_push_service.Preferences.{mention, new_post, is_enabled, get_user_preferences}
use divine_push_service.Claims.{try_claim_recipient_event}
use divine_push_service.Provider.{accepted, failed, retryable_internal}
use divine_push_service.Events.{Event, Parsing}
use divine_push_service.Push.{
  nostr, nostr_event, PushSettings, PushCall, ok, retryable, Writing, Shared, Pushed,
  send_notification_trigger_to_user, tokens_at, is_expired, can_fall_back_to_bell,
}
use divine_push_service.Push.Once.{notified_once, retry_unclaimed}
use divine_push_service.Push.Allowed.{pushed_allowed}
use divine_push_service.Push.Edits.{edit_refused}
use divine_push_service.Tests.Campaign.{parsers, world, never}
use divine_push_service.Tests.Codes.{preferences_format}
use divine_push_service.Tests.Summaries.{actors, service}
use divine_push_service.Campaign.Deliver.{is_permitted}
use divine_push_service.Push.{
  bind_and_push, find_tokens, check_preferences, delivery_type, check_history, check_video_claim,
  check_legacy_claim, check_rate, claim_and_push, route_claimed, compose, recheck_tokens,
  reserve_and_push, validate_and_push, push, settle, conclude, note_delivered, remove_invalid,
  refresh_delivered, release, tokens_to_remove, is_cancelled_in,
}
use divine_push_service.Delivery.{
  social_tokens, in_quiet_hours, local_hour, reserve_budget_for_class,
  validate_reservation_for_class,
}
use divine_push_service.Devices.{get_tokens_with_timezone_offsets}
use divine_push_service.World.{with_account, account_of, budgets_at, with_budgets}
use divine_push_service.Preferences.{contains as prefs_contain}
use divine_push_service.Activity.{generation_for_work}
use divine_push_service.Budget.{reserve, validate, latest_left, cooldown_left}
use divine_push_service.Redis.Entries.{find, without, insert, fresh, count}
use divine_push_service.Provider.{delivered_tokens}
use divine_push_service.Coalesce.Flush.{kept_tokens, retryable_failure}
use divine_push_service.Payload.{FcmPayload}
use divine_push_service.World.{is_empty}
use divine_push_service.Prelude.{List}
use divine_push_service.Preferences.{display_name}
use divine_push_service.Push.{
  payload_of, video_recipient_claim_key, legacy_video_recipient_claim_key, event_id,
  record_video_claims, satisfied_video_claims, record_claims, record_claim, open_rate_window,
  set_cached_string,
}
use divine_push_service.Coalesce.Ingest.{Formats}
use divine_push_service.Coalesce.{no_bucket}

-- A line is split at nothing.
abbrev pub parsing : Parsing
parsing = record {
  from_str = λ text. some text;
  splitn_3 = λ text. text ∷ [];
  is_u32 = λ text. true;
}

abbrev pub writing : Writing
writing = record {
  decimal = λ n. "some";
  to_bech32 = λ pubkey. pubkey;
  action_hash = λ type actor target. target;
}

abbrev pub group_formats : Formats
group_formats = record { decimal = λ n. "some"; collapse_key_for_group = λ gid. gid }

abbrev pub settings : PushSettings
settings = record {
  service = service;
  delivery = default_settings;
  allowed_pubkeys = [];
  default_preferences = 1 ∷ 34_236 ∷ [];
  processed_event_ttl_secs = 604_800;
  video_coordinate_dedup_ttl_secs = 31_536_000;
  new_post_rate_limit_secs = 3_600;
}

-- At noon, to a phone that takes the push.
abbrev pub call : PushCall
call = record {
  started_at = 129_600;
  lookup_now = pos 129_600;
  recheck_now = pos 129_601;
  refresh_at = 129_603;
  bind_clock = record { secs = 129_600; micros = 0 };
  video_at = 129_600;
  legacy_at = 129_600;
  rate_at = 129_600;
  claim_at = 129_600;
  ingest_at = 129_600;
  reserve_at = 129_601;
  validate_at = 129_602;
  refund_at = 129_602;
  set_rate_at = 129_603;
  record_at = 129_603;
  release_at = 129_603;
  claim_value = "first";
  cancelled = λ checkpoint. false;
  bind_fails = false;
  lookup_fails = false;
  preferences_fail = false;
  watcher_fails = false;
  video_fails = false;
  legacy_fails = false;
  rate_fails = false;
  claim_fails = false;
  ingest_fails = false;
  recheck_fails = false;
  budget_fails = false;
  validation_fails = false;
  refund_fails = false;
  release_fails = false;
  refresh_fails = false;
  set_rate_fails = false;
  record_fails = λ key. false;
  removal_fails = λ token. false;
  copy = record { sender_name = "Bob"; formatted_content = none };
  send = λ tokens payload. map (λ token. (token, accepted)) tokens;
}

abbrev later : PushCall
later = record call { claim_at = 130_000; video_at = 130_000; claim_value = "second" }

-- The provider asks for a retry in a second.
abbrev refused : PushCall
refused = record call {
  send = λ tokens payload. map (λ token. (token, failed (retryable_internal 1_000_000_000))) tokens;
}

-- Bob's video names Alice.
abbrev pub video : Event
video = record {
  id = "v1";
  kind = 34_236;
  pubkey = "bob";
  created_at = 129_500;
  content = "look";
  tags = record { name = "p"; content = some "alice" } ∷ [];
  identifier = some "clip";
}

abbrev edit : Event
edit = record video { id = "v2"; created_at = 129_900 }

abbrev pub shared : Shared memory listed actors
shared = record {
  store = record {
    dispositions = λ id owner. never none;
    generations = λ owner. 0;
    allowances = λ owner. record { bucket = never no_bucket; emitted = never ([], tt) };
    groups = λ gid. never none;
    hlls = λ gid. never [];
    due = ([], tt);
    leases = ([], tt);
  };
  world = world;
  lists = record { subs = λ j. []; stamps = λ j. none; watchers = λ j. [] };
  cached = λ key. never none;
}

abbrev first : Pushed memory listed actors
first =
    send_notification_trigger_to_user memory listed actors parsers parsing writing group_formats
      preferences_format settings call (nostr video) "alice" mention shared

abbrev phone : List String
phone = "phone" ∷ []

-- What Alice's phone is sent.
abbrev first_payload : FcmPayload
first_payload =
    payload_of memory listed actors parsers parsing writing group_formats preferences_format
      settings call (nostr video) "alice" mention mention none

first_sent : first.batch ≡ some (phone, first_payload)
unfolding send_notification_trigger_to_user is_expired is_permitted bind_and_push find_tokens
    tokens_at social_tokens get_tokens_with_timezone_offsets with_account in_quiet_hours local_hour
    check_preferences delivery_type is_enabled prefs_contain get_user_preferences check_history
    check_video_claim check_legacy_claim check_rate claim_and_push try_claim_recipient_event
    route_claimed compose recheck_tokens kept_tokens reserve_and_push validate_and_push
    reserve_budget_for_class validate_reservation_for_class reserve validate latest_left
    cooldown_left budgets_at with_budgets generation_for_work account_of find without insert fresh
    count push settle conclude note_delivered remove_invalid refresh_delivered release
    delivered_tokens retryable_failure tokens_to_remove is_cancelled_in video_recipient_claim_key
    legacy_video_recipient_claim_key display_name event_id
first_sent = refl

first_done : first.result ≡ ok
unfolding send_notification_trigger_to_user is_expired is_permitted bind_and_push find_tokens
    tokens_at social_tokens get_tokens_with_timezone_offsets with_account in_quiet_hours local_hour
    check_preferences delivery_type is_enabled prefs_contain get_user_preferences check_history
    check_video_claim check_legacy_claim check_rate claim_and_push try_claim_recipient_event
    route_claimed compose recheck_tokens kept_tokens reserve_and_push validate_and_push
    reserve_budget_for_class validate_reservation_for_class reserve validate latest_left
    cooldown_left budgets_at with_budgets generation_for_work account_of find without insert fresh
    count push settle conclude note_delivered remove_invalid refresh_delivered release
    delivered_tokens retryable_failure tokens_to_remove is_cancelled_in video_recipient_claim_key
    legacy_video_recipient_claim_key display_name event_id record_video_claims
    satisfied_video_claims record_claims record_claim open_rate_window set_cached_string
first_done = refl

notified_once_example :
    (send_notification_trigger_to_user memory listed actors parsers parsing writing group_formats
      preferences_format settings later
      (nostr video)
      "alice"
      new_post
      first.shared).batch
    ≡ none
notified_once_example =
    notified_once memory listed actors parsers parsing writing group_formats preferences_format
      settings call later (nostr video) (nostr video) "alice" mention new_post shared first.shared
      (rw first_sent refl) (rw first_done refl) refl refl (omega arith)

video_enabled :
    is_enabled mention (
      get_user_preferences preferences_format "alice" settings.default_preferences
        shared.world.keys)
    ≡ true
unfolding is_enabled get_user_preferences prefs_contain
video_enabled = refl

phone_took : is_empty (delivered_tokens (call.send phone first_payload)) ≡ false
unfolding delivered_tokens
phone_took = refl

edit_refused_example :
    (send_notification_trigger_to_user memory listed actors parsers parsing writing group_formats
      preferences_format settings later
      (nostr edit)
      "alice"
      new_post
      first.shared).batch
    ≡ none
edit_refused_example =
    edit_refused memory listed actors parsers parsing writing group_formats preferences_format
      settings "alice" call later video edit new_post shared first.shared phone first_payload
      (refl, refl) (refl, refl) video_enabled (λ key. refl) first_sent first_done phone_took
      (λ told key i e. refl) (omega arith) (inr refl)

pushed_allowed_example :
    let prefs =
      get_user_preferences preferences_format "alice" settings.default_preferences
        shared.world.keys in
    (contains
        (tokens_at memory listed actors parsers parsing writing group_formats preferences_format
          settings call
          (nostr video)
          "alice"
          mention
          (pos 129_600)
          shared.world)
        "phone"
      ≡ true)
    × (contains
          (tokens_at memory listed actors parsers parsing writing group_formats preferences_format
            settings call
            (nostr video)
            "alice"
            mention
            (pos 129_601)
            shared.world)
          "phone"
        ≡ true)
    × (is_permitted settings.allowed_pubkeys "alice" ≡ true)
    × (is_expired memory listed actors parsers parsing writing group_formats preferences_format
          settings call
          (nostr video)
          "alice"
          mention
          (nostr_event (nostr video))
        ≡ false)
    × ((is_enabled mention prefs
          || can_fall_back_to_bell memory listed actors parsers parsing writing group_formats
              preferences_format settings call
              (nostr video)
              "alice"
              mention
              prefs
              shared)
        ≡ true)
pushed_allowed_example =
    pushed_allowed memory listed actors parsers parsing writing group_formats preferences_format
      settings call (nostr video) "alice" mention shared phone first_payload "phone" first_sent refl

abbrev again : Pushed memory listed actors
again =
    send_notification_trigger_to_user memory listed actors parsers parsing writing group_formats
      preferences_format settings refused (nostr video) "alice" mention shared

again_retryable : again.result ≡ retryable 1_000_000_000
unfolding send_notification_trigger_to_user is_expired is_permitted bind_and_push find_tokens
    tokens_at social_tokens get_tokens_with_timezone_offsets with_account in_quiet_hours local_hour
    check_preferences delivery_type is_enabled prefs_contain get_user_preferences check_history
    check_video_claim check_legacy_claim check_rate claim_and_push try_claim_recipient_event
    route_claimed compose recheck_tokens kept_tokens reserve_and_push validate_and_push
    reserve_budget_for_class validate_reservation_for_class reserve validate latest_left
    cooldown_left budgets_at with_budgets generation_for_work account_of find without insert fresh
    count push settle conclude note_delivered remove_invalid refresh_delivered release
    delivered_tokens retryable_failure tokens_to_remove is_cancelled_in video_recipient_claim_key
    legacy_video_recipient_claim_key display_name event_id record_video_claims
    satisfied_video_claims record_claims record_claim open_rate_window set_cached_string
again_retryable = refl

retry_unclaimed_example :
    is_some
      (try_claim_recipient_event 129_604 "v1" "alice" "second" 604_800 again.shared.world.claims).0
    ≡ true
unfolding event_id
retry_unclaimed_example =
    retry_unclaimed memory listed actors parsers parsing writing group_formats preferences_format
      settings refused (nostr video) "alice" mention shared 129_604 "second" 604_800
      (rw again_retryable refl) (omega arith)
