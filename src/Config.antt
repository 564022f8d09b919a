-- ===== src/Config.antt =====
-- src/config.rs: the settings that `Settings::validate` reads, and its checks. A `usize` that it
-- widens is a number like the others.
pub mod Limits
use divine_push_service.Prelude.{
  ℕ, String, Bool, true, false, ◌||◌, Option, none, some, List, [], ◌∷◌, ltb, leb, ◌==◌, str_eq,
  if◌then◌else◌, is_some,
}
use divine_push_service.Budget.{DeliverySettings}
use divine_push_service.Coalesce.{ServiceSettings, saturating_add, saturating_mul}

pub record NostrSettings : Type 0 where
  pub event_silence_timeout_secs : ℕ
  pub profile_cache_ttl_secs : ℕ

-- The fields of the service's settings: those of `coalescing` are the ones that src/coalesce.rs
-- reads.
pub record Service : Type 0 where
  pub delivery : DeliverySettings
  pub coalescing : ServiceSettings
  pub processed_event_ttl_secs : ℕ
  pub video_coordinate_dedup_ttl_secs : ℕ
  pub new_post_rate_limit_secs : ℕ
  pub notify_list_max_creators : ℕ
  pub notify_list_history_limit : ℕ
  pub new_post_fanout_page_size : ℕ
  pub new_post_delivery_concurrency : ℕ
  pub new_post_fanout_lease_secs : ℕ
  pub new_post_fanout_retry_secs : ℕ
  pub new_post_fanout_poll_millis : ℕ
  pub coalesce_lease_secs : ℕ
  pub coalesce_retry_secs : ℕ
  pub coalesce_poll_millis : ℕ
  pub coalesce_flush_timeout_secs : ℕ

pub record Settings : Type 0 where
  pub nostr : NostrSettings
  pub service : Service
  -- `server.internal_api_token`
  pub internal_api_token : Option String

pub data ConfigError : Type 0 where
  invalid_delivery : ConfigError
  -- with the name of the field that is zero
  not_positive : String → ConfigError
  short_group_ttl short_lease empty_token : ConfigError

unfoldable pub is_invalid_delivery : DeliverySettings → Bool
is_invalid_delivery d =
    ltb 23 d.quiet_start_hour
    || (ltb 23 d.quiet_end_hour
        || (leb d.quiet_start_hour d.quiet_end_hour
            || ((d.hourly_cap == 0)
                || ((d.daily_cap == 0)
                    || ((d.max_event_age_secs == 0)
                        || (ltb d.min_interval_secs 21600
                            || ((d.absence_cap == 0)
                                || (ltb 2 d.absence_cap
                                    || (ltb 21 d.quiet_start_hour || ltb d.quiet_end_hour 7)))))))))

-- The fields that must be greater than zero, with their names, in the order of the checks.
abbrev pub must_be_positive : Settings → List (String × ℕ)
must_be_positive c =
    ("nostr.event_silence_timeout_secs", c.nostr.event_silence_timeout_secs)
    ∷ ("nostr.profile_cache_ttl_secs", c.nostr.profile_cache_ttl_secs)
    ∷ ("service.processed_event_ttl_secs", c.service.processed_event_ttl_secs)
    ∷ ("service.video_coordinate_dedup_ttl_secs", c.service.video_coordinate_dedup_ttl_secs)
    ∷ ("service.new_post_rate_limit_secs", c.service.new_post_rate_limit_secs)
    ∷ ("service.notify_list_max_creators", c.service.notify_list_max_creators)
    ∷ ("service.notify_list_history_limit", c.service.notify_list_history_limit)
    ∷ ("service.new_post_fanout_page_size", c.service.new_post_fanout_page_size)
    ∷ ("service.new_post_delivery_concurrency", c.service.new_post_delivery_concurrency)
    ∷ ("service.new_post_fanout_lease_secs", c.service.new_post_fanout_lease_secs)
    ∷ ("service.new_post_fanout_retry_secs", c.service.new_post_fanout_retry_secs)
    ∷ ("service.new_post_fanout_poll_millis", c.service.new_post_fanout_poll_millis)
    ∷ ("service.coalesce_window_secs", c.service.coalescing.coalesce_window_secs)
    ∷ ("service.coalesce_lease_secs", c.service.coalesce_lease_secs)
    ∷ ("service.coalesce_retry_secs", c.service.coalesce_retry_secs)
    ∷ ("service.coalesce_poll_millis", c.service.coalesce_poll_millis)
    ∷ ("service.coalesce_group_ttl_secs", c.service.coalescing.coalesce_group_ttl_secs)
    ∷ ("service.coalesce_flush_timeout_secs", c.service.coalesce_flush_timeout_secs)
    ∷ (
      "service.coalesce_logical_expiry_grace_secs",
      c.service.coalescing.coalesce_logical_expiry_grace_secs,
    )
    ∷ ("service.recipient_throttle_capacity", c.service.coalescing.recipient_throttle_capacity)
    ∷ (
      "service.recipient_throttle_refill_secs", c.service.coalescing.recipient_throttle_refill_secs,
    )
    ∷ ("service.recipient_daily_window_secs", c.service.coalescing.recipient_daily_window_secs)
    ∷ ("service.recipient_daily_cap", c.service.coalescing.recipient_daily_cap)
    ∷ []

-- The loop over them.
unfoldable pub first_zero : List (String × ℕ) → Option String
first_zero [] = none
first_zero ((name, value) ∷ fields) = if value == 0 then some name else first_zero fields

-- The checks after the loop.
unfoldable pub check_lifetimes : Settings → Option ConfigError
check_lifetimes c =
    if leb c.service.coalescing.coalesce_group_ttl_secs
      (saturating_add c.service.coalescing.coalesce_window_secs c.service.coalesce_lease_secs)
    then some short_group_ttl
    else if leb c.service.coalesce_lease_secs
        (saturating_mul c.service.coalesce_flush_timeout_secs 2)
    then some short_lease
    else elim c.internal_api_token [
      | none ↦ none
      | some token ↦ if str_eq token "" then some empty_token else none
    ]

-- `none` is `Ok`.
unfoldable pub validate_settings : Settings → Option ConfigError
validate_settings c =
    if is_invalid_delivery c.service.delivery
    then some invalid_delivery
    else elim (first_zero (must_be_positive c)) [
      | some name ↦ some (not_positive name)
      | none ↦ check_lifetimes c
    ]
