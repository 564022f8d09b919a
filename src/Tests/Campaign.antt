-- ===== src/Tests/Campaign.antt =====
-- A campaign delivery to one device, and claims, at concrete times.
use divine_push_service.Prelude.{
  ℕ, ◌≡◌, ◌==◌, String, true, false, none, some, [], ◌∷◌, refl, arith, str_eq, if◌then◌else◌, map,
  ap, is_some,
}
use divine_push_service.Prelude.Int.{pos, pos_part}
use divine_push_service.Redis.{Key, at_time}
use divine_push_service.Redis.Memory.{memory}
use divine_push_service.Redis.Entries.{find, without, insert, fresh, count}
use divine_push_service.Redis.Members.{listed}
use divine_push_service.Activity.{no_visits, no_session, generation_for_work}
use divine_push_service.Budget.{
  default_settings, Ledger, allowed, latest_left, cooldown_left, reserve, validate,
}
use divine_push_service.Delivery.{
  in_quiet_hours, local_hour, reserve_budget_for_generation, validate_reservation,
}
use divine_push_service.Preferences.{campaign_consent_enabled}
use divine_push_service.Claims.{
  claim_campaign_delivery, promote_campaign_delivery, release_campaign_delivery,
}
use divine_push_service.Claims.Ownership.{claim_exclusive_until}
use divine_push_service.Payload.{immediate_delivery}
use divine_push_service.Provider.{
  accepted, failed, internal_error, delivered_tokens, has_other_error,
}
use divine_push_service.Devices.{Parsers, get_tokens_with_timezone_offsets}
use divine_push_service.World.{World, account_of, with_account, budgets_at, with_budgets}
use divine_push_service.Campaign.{
  PendingDelivery, delivered, retryable_failure, Formats, CampaignSettings, dedup_key, is_expired,
  remaining_lifetime, expiry_timestamp, quiet_hours_retry_after, campaign_payload,
}
use divine_push_service.Campaign.Deliver.{
  Attempt, deliver, bind_and_admit, admit, consent_of, is_permitted, claim_and_send,
  send_to_devices, choose_tokens, reserve_and_push, validate_and_push, push, settle, refuse,
  release_claim, promote_claim, refresh_delivered, remove_unregistered,
}
use divine_push_service.Campaign.Deliver.Once.{delivered_once, undelivered_given_back}
use divine_push_service.Campaign.Deliver.Allowed.{batch_allowed, all_reachable, Consents}
use divine_push_service.Campaign.Deliver.Capped.{IsCapped}
use divine_push_service.Campaign.Deliver.Counted.{decision, bound, IsCounted, push_paid}
use divine_push_service.Campaign.Poll.{Turn}
use divine_push_service.Tests.Codes.{preferences_format}

abbrev pub parsers : Parsers
parsers = record {
  from_hex = λ s. some s;
  is_timezone = λ name. false;
  timezone_offset_at = λ name now. none;
}

abbrev formats : Formats
formats = record {
  parsers = parsers;
  from_str = λ s. some s;
  to_bech32 = λ s. s;
  parse_rfc3339 = λ s. some (pos 200_000);
  to_rfc3339 = λ t. some "later";
}

abbrev settings : CampaignSettings
settings = record {
  dedup_ttl_secs = 86_400;
  allow_unverified_consent = false;
  allowed_pubkeys = [];
  delivery = default_settings;
}

abbrev pub never {ℓ} : {A : Type ℓ} → A → Key A
never a = record { value = a; expires_at = none }

abbrev no_ledger : Ledger memory
no_ledger = record { sends = never ([], tt); generations = never (λ id. none) }

-- Alice has one phone, in UTC, and consents to campaigns.
abbrev pub world : World memory listed
world = record {
  devices = record {
    user_tokens = λ pubkey. if str_eq "alice" pubkey then "phone" ∷ [] else [];
    stale_tokens = ([], tt);
    token_to_pubkey = λ token. if str_eq "phone" token then some "alice" else none;
    timezone_offsets = λ token. some (pos 0);
    timezone_names = λ token. none;
  };
  sessions = λ owner session. never no_session;
  active = λ owner. never ([], tt);
  visits = λ owner. never no_visits;
  retained = λ owner. never ([], tt);
  work = λ owner identity. never none;
  visit_sequence = none;
  nonurgent_ledger = λ owner. no_ledger;
  direct_ledger = λ owner. no_ledger;
  keys = λ key. if str_eq "campaign_consent:alice" key then some "1" else none;
  claims = λ key. never none;
}

-- At noon.
abbrev attempt : Attempt
attempt = record {
  now = pos 129_600;
  lookup_now = pos 129_600;
  claim_ttl_secs = 300;
  owner = "first";
  bind_clock = record { secs = 129_600; micros = 0 };
  claim_at = 129_600;
  reserve_at = 129_601;
  validate_at = 129_602;
  promote_at = 129_603;
  release_at = 129_603;
  refresh_at = 129_603;
  bind_fails = false;
  consent_fails = false;
  claim_fails = false;
  tokens_fail = false;
  budget_fails = false;
  validation_fails = false;
  removal_fails = λ token. false;
  refresh_fails = false;
  promotion_fails = false;
  release_fails = false;
  send = λ tokens payload. map (λ token. (token, accepted)) tokens;
}

abbrev refused : Attempt
refused = record attempt {
  send = λ tokens payload. map (λ token. (token, failed internal_error)) tokens;
}

abbrev again : Attempt
again = record attempt {
  now = pos 130_000;
  owner = "second";
  claim_at = 130_000;
  reserve_at = 130_001;
}

abbrev offer : PendingDelivery
offer = record {
  idempotency_key = "k1";
  lease_id = "l1";
  campaign_revision_id = "r1";
  recipient_pubkey = "alice";
  category = "news";
  title = "Hello";
  body = "New videos";
  tap_target = record { target_type = "url"; value = "divine://home" };
  expires_at = some "1970-01-03T07:33:20Z";
}

delivered_first :
    (deliver memory listed formats preferences_format settings attempt offer world).result.status
    ≡ delivered
unfolding deliver bind_and_admit admit consent_of is_permitted claim_and_send send_to_devices
    choose_tokens reserve_and_push validate_and_push push settle refuse release_claim promote_claim
    refresh_delivered remove_unregistered is_expired generation_for_work account_of with_account
    budgets_at with_budgets claim_campaign_delivery get_tokens_with_timezone_offsets
    reserve_budget_for_generation validate_reservation delivered_tokens campaign_consent_enabled
    quiet_hours_retry_after in_quiet_hours local_hour find without insert fresh count latest_left
    remaining_lifetime expiry_timestamp reserve validate cooldown_left
delivered_first = refl

abbrev after : World memory listed
after = (deliver memory listed formats preferences_format settings attempt offer world).world

delivered_once_example :
    (deliver memory listed formats preferences_format settings again
      (record offer { lease_id = "l2" })
      after).batch
    ≡ none
delivered_once_example =
    delivered_once memory listed formats preferences_format settings attempt again offer
      (record offer { lease_id = "l2" }) world after delivered_first refl (omega arith) refl refl
      (omega arith)

refused_first :
    (deliver memory listed formats preferences_format settings refused offer world).result.status
    ≡ retryable_failure
unfolding deliver bind_and_admit admit consent_of is_permitted claim_and_send send_to_devices
    choose_tokens reserve_and_push validate_and_push push settle refuse release_claim promote_claim
    refresh_delivered remove_unregistered is_expired generation_for_work account_of with_account
    budgets_at with_budgets claim_campaign_delivery get_tokens_with_timezone_offsets
    reserve_budget_for_generation validate_reservation delivered_tokens campaign_consent_enabled
    quiet_hours_retry_after in_quiet_hours local_hour find without insert fresh count latest_left
    remaining_lifetime expiry_timestamp reserve validate cooldown_left has_other_error
refused_first = refl

undelivered_given_back_example :
    (at_time 129_700 none (
      (deliver memory listed formats preferences_format settings refused offer world).world.claims
        (dedup_key "k1"))).value
    ≡ none
undelivered_given_back_example =
    undelivered_given_back memory listed formats preferences_format settings refused offer world
      129_700 (λ e. absurd (ground (arith, refused_first, e))) refl (omega arith) (omega arith)

batch_first :
    (deliver memory listed formats preferences_format settings attempt offer world).batch
    ≡ some ("phone" ∷ [], immediate_delivery (campaign_payload formats offer "alice"))
unfolding deliver bind_and_admit admit consent_of is_permitted claim_and_send send_to_devices
    choose_tokens reserve_and_push validate_and_push push settle refuse release_claim promote_claim
    refresh_delivered remove_unregistered is_expired generation_for_work account_of with_account
    budgets_at with_budgets claim_campaign_delivery get_tokens_with_timezone_offsets
    reserve_budget_for_generation validate_reservation delivered_tokens campaign_consent_enabled
    quiet_hours_retry_after in_quiet_hours local_hour find without insert fresh count latest_left
    remaining_lifetime expiry_timestamp reserve validate cooldown_left
batch_first = refl

batch_allowed_example :
    (recipient : String) × (formats.from_str "alice" ≡ some recipient)
    × (is_expired formats offer.expires_at attempt.now ≡ false)
    × (immediate_delivery (campaign_payload formats offer "alice")
        ≡ immediate_delivery (campaign_payload formats offer recipient))
    × (is_permitted settings.allowed_pubkeys recipient ≡ true)
    × Consents memory listed formats preferences_format settings attempt offer recipient world
    × (all_reachable settings attempt.now
          (get_tokens_with_timezone_offsets memory listed formats.parsers attempt.lookup_now
            recipient world.devices)
          ("phone" ∷ [])
        ≡ true)
batch_allowed_example =
    batch_allowed memory listed formats preferences_format settings attempt offer world
      ("phone" ∷ []) (immediate_delivery (campaign_payload formats offer "alice")) (λ offset. refl)
      batch_first

world-IsCapped :
    (j : String)
    → IsCapped memory listed formats preferences_format settings attempt offer 129_600 j world
unfolding budgets_at count
world-IsCapped j = record { hourly = omega arith; daily = omega arith }

push_paid_example :
    (recipient : String) × (formats.from_str "alice" ≡ some recipient)
    × (decision memory listed formats preferences_format settings attempt offer recipient
          (bound memory listed formats preferences_format settings attempt offer recipient world).0
          (bound memory listed formats preferences_format settings attempt offer recipient world).1
        ≡ allowed)
    × IsCounted memory listed formats preferences_format settings attempt offer recipient after
    × IsCapped memory listed formats preferences_format settings attempt offer 129_602 recipient
        after
push_paid_example =
    push_paid memory listed formats preferences_format settings attempt offer 129_600 world
      (omega arith) (omega arith) world-IsCapped (ap is_some batch_first)

-- At 22:00, with the time written at which the quiet hours end.
abbrev at_night : Attempt
at_night = record attempt { now = pos 165_600; lookup_now = pos 165_600 }

abbrev seven : String
seven = "1970-01-03T07:00:00Z"

abbrev night_formats : Formats
night_formats = record formats {
  to_rfc3339 = λ t. if pos_part t == 198_000 then some seven else none;
}

abbrev turns : ℕ → Turn memory listed
turns i = record {
  started_at = 0;
  now = pos 129_600;
  attempt = attempt;
  finishes = true;
  dropped = λ w. w;
}

claimed : (claim_campaign_delivery 50 "k" "first" 300 world.claims).0 ≡ true
unfolding claim_campaign_delivery
claimed = refl

claim_exclusive_until_example :
    let keys = (claim_campaign_delivery 50 "k" "first" 300 world.claims).1 in
    (claim_campaign_delivery 100 "k" "second" 60 keys ≡ (false, keys))
    × (release_campaign_delivery 100 "k" "second" keys ≡ (false, keys))
    × (promote_campaign_delivery 100 "k" "second" 60 keys ≡ (false, keys))
claim_exclusive_until_example =
    claim_exclusive_until 50 100 300 "k" "first" "second" world.claims 60 claimed (omega arith) refl
