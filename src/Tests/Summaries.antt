-- ===== src/Tests/Summaries.antt =====
-- A flush of one group at concrete times.
use divine_push_service.Prelude.{
  ℕ, ◌+◌, ◌≡◌, String, true, false, none, some, List, [], ◌∷◌, refl, str_eq, if◌then◌else◌, length,
  map, ap,
}
use divine_push_service.Prelude.Int.{pos}
use divine_push_service.Redis.Memory.{memory}
use divine_push_service.Redis.Entries.{find, without, insert, fresh, count}
use divine_push_service.Redis.Members.{listed}
use divine_push_service.Budget.{default_settings, reserve, validate, cooldown_left, latest_left}
use divine_push_service.Provider.{failed, retryable_internal, delivered_tokens}
use divine_push_service.Coalesce.{ServiceSettings, no_bucket}
use divine_push_service.Coalesce.Groups.{ActorCounts, no_group}
use divine_push_service.Coalesce.Queue.{GroupClaim, complete_group}
use divine_push_service.Coalesce.Summary.{Names, load_group}
use divine_push_service.Coalesce.Flush.{
  FlushSettings, FlushCall, FlushResult, Outbox, flush_group, ok, err, retry_queued, flush_snapshot,
  check_owner, check_recipient, tokens_at, check_preferences, spend_and_push, charge, follow_spend,
  reserve_and_push, follow, recheck_tokens, kept_tokens, check_expiry, validate_and_push, push,
  settle, return_undelivered, requeue_or_expire, refund, refunded, remove_unregistered,
  refresh_delivered, retryable_failure, is_past, is_preference_disabled,
}
use divine_push_service.Coalesce.Flush.Charge.{IsUncharged, is_undelivered}
use divine_push_service.Coalesce.Flush.Uncharged.{flush-IsUncharged}
use divine_push_service.Coalesce.Flush.Completion.{is_ok, is_released}
use divine_push_service.Coalesce.Flush.Settled.{flush-settled}
use divine_push_service.Coalesce.Tokens.{consume_recipient_token, refund_recipient_token}
use divine_push_service.Campaign.Deliver.{is_permitted}
use divine_push_service.Preferences.{from_display_name, is_enabled, contains, get_user_preferences}
use divine_push_service.Delivery.{
  social_tokens, in_quiet_hours, local_hour, reserve_budget_for_generation, validate_reservation,
}
use divine_push_service.Devices.{get_tokens_with_timezone_offsets}
use divine_push_service.World.{budgets_at, with_budgets}
use divine_push_service.Coalesce.Worker.{Pass, flush_claim}
use divine_push_service.Coalesce.Worker.Returned.{is_held, IsDue, delay_of, failed_flush_returned}
use divine_push_service.Tests.Campaign.{parsers, world, never}
use divine_push_service.Tests.Codes.{preferences_format}

abbrev pub actors : ActorCounts
actors = record { Hll = List String; no_actors = []; pfadd = λ a l. a ∷ l; pfcount = length }

abbrev names : Names
names = record {
  from_hex = λ s. some s;
  to_bech32 = λ s. s;
  decimal = λ n. "some";
  collapse_key_for_group = λ gid. gid;
}

abbrev pub service : ServiceSettings
service = record {
  coalesce_window_secs = 100;
  coalesce_immediate_limit = 1;
  coalesce_group_ttl_secs = 90_000;
  coalesce_logical_expiry_grace_secs = 1_000;
  recipient_throttle_capacity = 3;
  recipient_throttle_refill_secs = 60;
  recipient_daily_window_secs = 86_400;
  recipient_daily_cap = 10;
}

abbrev settings : FlushSettings
settings = record {
  service = service;
  coalesce_retry_secs = 60;
  allowed_pubkeys = [];
  delivery = default_settings;
  default_preferences = 7 ∷ [];
}

-- The provider asks for a retry in 90 seconds.
abbrev call : FlushCall
call = record {
  load_at = 129_600;
  lookup_now = pos 129_600;
  recheck_now = pos 129_601;
  consume_at = 129_600;
  reserve_at = 129_600;
  expiry_at = 129_601;
  validate_at = 129_601;
  refund_at = 129_602;
  refresh_at = 129_602;
  complete_at = 129_602;
  cancelled = false;
  load_fails = false;
  lookup_fails = false;
  preferences_fail = false;
  consume_fails = false;
  budget_fails = false;
  recheck_fails = false;
  expiry_fails = false;
  validation_fails = false;
  refund_fails = false;
  refresh_fails = false;
  removal_fails = λ token. false;
  complete_fails = false;
  display_name = λ actor. none;
  send =
      λ tokens payload. map (λ token. (token, failed (retryable_internal 90_000_000_000))) tokens;
}

abbrev claim : GroupClaim
claim = record { group_id = "g"; token = "worker"; claimed_at = 129_600 }

abbrev outbox : Outbox memory listed actors parsers names preferences_format settings call claim
outbox = record {
  store = record {
    dispositions = λ id owner. never none;
    generations = λ owner. 0;
    allowances = λ owner. record { bucket = never no_bucket; emitted = never ([], tt) };
    groups = λ gid.
        if str_eq "g" gid
        then never (
            some (record no_group {
              due = some 129_600;
              expires_at = some 216_000;
              owner = some "alice";
              generation = some 0;
              type = some "like";
              target = some "video";
              first_actor = some "fan";
              pending = some 2;
              lease = some "worker";
            }))
        else never none;
    hlls = λ gid. never ("fan" ∷ "friend" ∷ []);
    due = ([], tt);
    leases = (("g", 129_720) ∷ [], (tt, tt));
  };
  world = world;
}

flushed :
    (flush_group memory listed actors parsers names preferences_format settings call claim
      outbox).result
    ≡ ok retry_queued
unfolding flush_group load_group flush_snapshot check_owner check_recipient tokens_at
    check_preferences get_user_preferences spend_and_push charge follow_spend reserve_and_push
    follow recheck_tokens kept_tokens check_expiry validate_and_push push settle return_undelivered
    requeue_or_expire refund refunded remove_unregistered refresh_delivered delivered_tokens
    retryable_failure is_past is_preference_disabled is_permitted from_display_name is_enabled
    contains consume_recipient_token refund_recipient_token complete_group
    get_tokens_with_timezone_offsets social_tokens in_quiet_hours local_hour
    reserve_budget_for_generation validate_reservation reserve validate cooldown_left latest_left
    budgets_at with_budgets find without insert fresh count
flushed = refl

none_took :
    is_undelivered memory listed actors parsers names preferences_format settings call claim
      (flush_group memory listed actors parsers names preferences_format settings call claim outbox)
    ≡ true
unfolding flush_group load_group flush_snapshot check_owner check_recipient tokens_at
    check_preferences get_user_preferences spend_and_push charge follow_spend reserve_and_push
    follow recheck_tokens kept_tokens check_expiry validate_and_push push delivered_tokens is_past
    is_preference_disabled is_permitted from_display_name is_enabled contains
    consume_recipient_token get_tokens_with_timezone_offsets social_tokens in_quiet_hours local_hour
    reserve_budget_for_generation validate_reservation reserve validate cooldown_left latest_left
    budgets_at with_budgets find without insert fresh count
none_took = refl

-- The clock cannot be read at the group's logical expiry: the flush ends with an error, and the token
-- that it spent is not refunded.
abbrev blind_call : FlushCall
blind_call = record call { expiry_fails = true }

abbrev blind_outbox :
    Outbox memory listed actors parsers names preferences_format settings blind_call claim
blind_outbox = record { store = outbox.store; world = outbox.world }

blind_flush :
    let d =
      flush_group memory listed actors parsers names preferences_format settings blind_call claim
        blind_outbox in
    (d.result ≡ err)
    × (d.batch ≡ none)
    × (memory.zscore (d.outbox.store.allowances "alice").emitted.value "g" ≡ some 129_600)
unfolding flush_group load_group flush_snapshot check_owner check_recipient tokens_at
    check_preferences get_user_preferences spend_and_push charge follow_spend reserve_and_push
    follow recheck_tokens kept_tokens check_expiry is_past is_preference_disabled is_permitted
    from_display_name is_enabled contains consume_recipient_token get_tokens_with_timezone_offsets
    social_tokens in_quiet_hours local_hour reserve_budget_for_generation reserve cooldown_left
    latest_left budgets_at with_budgets find without insert fresh count
blind_flush = (refl, refl, refl)

no_emission :
    IsUncharged memory listed actors parsers names preferences_format settings call claim "alice"
      outbox.store
unfolding find
no_emission = refl

flush-IsUncharged_example :
    memory.zscore
      ((flush_group memory listed actors parsers names preferences_format settings call claim
          outbox).outbox.store.allowances
        "alice").emitted.value
      "g"
    ≡ none
flush-IsUncharged_example =
    flush-IsUncharged memory listed actors parsers names preferences_format settings call claim refl
      refl "alice" outbox no_emission none_took

flush-settled_example :
    is_released memory listed actors parsers names preferences_format settings call claim
      (flush_group memory listed actors parsers names preferences_format settings call claim
        outbox).result
      (flush_group memory listed actors parsers names preferences_format settings call claim
        outbox).outbox.store
    ≡ true
flush-settled_example =
    flush-settled memory listed actors parsers names preferences_format settings call claim outbox
      refl (ap is_ok flushed)

-- The same flush, by a worker.
abbrev worker_pass : Pass memory listed actors
worker_pass = record {
  claim_at = 129_600;
  token = "worker";
  claim_fails = false;
  call = blind_call;
  times_out = false;
  dropped = λ s. s;
  release_at = 129_602;
  release_fails = false;
}

group_held :
    is_held memory listed actors parsers names preferences_format settings 120 claim 129_602 2
      216_000 outbox.store
    ≡ true
group_held = refl

abbrev blind_result : FlushResult
blind_result =
    (flush_group memory listed actors parsers names preferences_format settings blind_call claim
      blind_outbox).result

abbrev blind_delay : FlushResult → ℕ
blind_delay = delay_of memory listed actors parsers names preferences_format settings 120

not_past : is_past 216_000 (129_602 + blind_delay blind_result) ≡ false
unfolding is_past
not_past = ap (λ r. is_past 216_000 (129_602 + blind_delay r)) blind_flush.0

failed_flush_returned_example :
    IsDue memory listed actors parsers names preferences_format settings 120 "g" 129_602
      (129_602 + blind_delay blind_result)
      2
      (flush_claim memory listed actors parsers names preferences_format settings 120 worker_pass
        claim
        (record { store = outbox.store; world = world })).1.store
failed_flush_returned_example =
    failed_flush_returned memory listed actors parsers names preferences_format settings 120
      worker_pass claim (record { store = outbox.store; world = world }) 2 216_000 group_held refl
      refl (ap is_ok blind_flush.0) not_past
