-- ===== src/Tests/Settings.antt =====
-- Settings, preferences and pages of the fan-out at concrete inputs.
use divine_push_service.Prelude.{
  ◌≡◌, ◌≢◌, String, true, false, none, some, [], arith, refl, is_some, str_eq, eq_iff,
}
use divine_push_service.Prelude.Int.{pos}
use divine_push_service.Redis.Memory.{memory}
use divine_push_service.Budget.{default_settings}
use divine_push_service.Delivery.{in_quiet_hours, local_hour}
use divine_push_service.Config.{
  Settings, validate_settings, is_invalid_delivery, first_zero, check_lifetimes,
}
use divine_push_service.Config.Limits.{quiet_at_night}
use divine_push_service.Preferences.{
  Keys, get_user_preferences, set_user_preferences_with_campaign_consent, campaign_consent_enabled,
  default_preferences,
}
use divine_push_service.Preferences.Stored.{set-get}
use divine_push_service.Fanout.{
  NewPostFanoutJob, FanoutQueue, next_fanout_retry, enqueue_initial_fanout_job, complete_fanout_job,
}
use divine_push_service.Fanout.Queue.{complete-successor}
use divine_push_service.Tests.Codes.{preferences_format}

abbrev settings : Settings
settings = record {
  nostr = record { event_silence_timeout_secs = 300; profile_cache_ttl_secs = 3_600 };
  service = record {
    delivery = default_settings;
    coalescing = record {
      coalesce_window_secs = 900;
      coalesce_immediate_limit = 1;
      coalesce_group_ttl_secs = 86_400;
      coalesce_logical_expiry_grace_secs = 3_600;
      recipient_throttle_capacity = 5;
      recipient_throttle_refill_secs = 600;
      recipient_daily_window_secs = 86_400;
      recipient_daily_cap = 20;
    };
    processed_event_ttl_secs = 604_800;
    video_coordinate_dedup_ttl_secs = 604_800;
    new_post_rate_limit_secs = 3_600;
    notify_list_max_creators = 500;
    notify_list_history_limit = 1_000;
    new_post_fanout_page_size = 100;
    new_post_delivery_concurrency = 8;
    new_post_fanout_lease_secs = 120;
    new_post_fanout_retry_secs = 5;
    new_post_fanout_poll_millis = 500;
    coalesce_lease_secs = 120;
    coalesce_retry_secs = 60;
    coalesce_poll_millis = 1_000;
    coalesce_flush_timeout_secs = 30;
  };
  internal_api_token = none;
}

settings_valid : validate_settings settings ≡ none
unfolding validate_settings first_zero check_lifetimes is_invalid_delivery
settings_valid = refl

-- 22:13 on a clock that is at UTC.
quiet_at_night_example : in_quiet_hours (pos 0) (pos 1_700_000_000) default_settings ≡ true
unfolding local_hour
quiet_at_night_example = quiet_at_night settings (pos 0) (pos 1_700_000_000) settings_valid refl

abbrev no_keys : Keys
no_keys key = none

abbrev alice_keys : Keys
alice_keys =
    set_user_preferences_with_campaign_consent preferences_format "alice" default_preferences true
      no_keys

set-get_example :
    (get_user_preferences preferences_format "alice" [] alice_keys ≡ default_preferences)
    × (campaign_consent_enabled preferences_format "alice" alice_keys ≡ some true)
    × (get_user_preferences preferences_format "bob" [] alice_keys
        ≡ get_user_preferences preferences_format "bob" [] no_keys)
    × (campaign_consent_enabled preferences_format "bob" alice_keys
        ≡ campaign_consent_enabled preferences_format "bob" no_keys)
set-get_example = set-get preferences_format "alice" "bob" default_preferences true [] no_keys refl

abbrev page : NewPostFanoutJob
page = record {
  event_json = "event";
  cursor = 40;
  sender_name = some "Alice";
  attempt = 3;
  expires_at = 5_000;
}

abbrev retried_page : NewPostFanoutJob
retried_page = record page { attempt = 4 }

page_retried : next_fanout_retry page 5 60 1_000 ≡ some (retried_page, 60)
unfolding next_fanout_retry
page_retried = refl

abbrev no_pages : FanoutQueue memory
no_pages = record { enqueued = λ id. record { value = false; expires_at = none }; jobs = ([], tt) }

first_page :
    (enqueue_initial_fanout_job memory 1_000 1_000_000 "video" "page" 600 no_pages).0 ≡ true
unfolding enqueue_initial_fanout_job
first_page = refl

distinct_names : (a b : String) → str_eq a b ≡ false → a ≢ b
distinct_names a b other e = ground (arith, eq_iff a b)

complete-successor_example :
    let q = complete_fanout_job memory 1_000_000 "page" (some "next") no_pages in
    (is_some (memory.zscore q.jobs "next") ≡ true)
    × (memory.zscore q.jobs "page" ≡ none)
    × (memory.zscore q.jobs "third" ≡ memory.zscore no_pages.jobs "third")
complete-successor_example =
    complete-successor memory 1_000_000 "page" "next" "third" no_pages
      (distinct_names "next" "" refl) (distinct_names "page" "next" refl)
      (distinct_names "third" "page" refl) (distinct_names "third" "next" refl)
