-- ===== src/Campaign/Deliver.antt =====
-- `deliver` (src/campaign_delivery.rs): one campaign delivery, from its expiry to its result. A stage
-- is a function of the shared keys; a call that fails changes nothing.
pub mod Claimed
pub mod Once
pub mod Capped
pub mod Counted
pub mod Deferred
pub mod Named
pub mod Allowed
pub mod Call
unfoldable pub use Call.*
use Prim.Native.String.{◌++◌}
use divine_push_service.Prelude.{
  ℕ, ◌+◌, ◌-◌, String, Bool, true, false, Option, none, some, List, [], ◌∷◌, if◌then◌else◌, max,
}
use divine_push_service.Redis.{SortedSets}
use divine_push_service.Redis.Members.{MemberSets}
use divine_push_service.Activity.{generation_for_work}
use divine_push_service.Delivery.{reserve_budget_for_generation, validate_reservation}
use divine_push_service.Preferences.{Format, campaign_consent_enabled}
use divine_push_service.Claims.{
  claim_campaign_delivery, release_campaign_delivery, promote_campaign_delivery,
}
use divine_push_service.Devices.{
  get_tokens_with_timezone_offsets, remove_token, refresh_token_activity,
}
use divine_push_service.Payload.{FcmPayload, immediate_delivery}
use divine_push_service.Provider.{
  SendResult, accepted, failed, is_not_registered, delivered_tokens, has_other_error,
}
use divine_push_service.World.{World, is_empty, account_of, with_account, budgets_at, with_budgets}
use divine_push_service.Campaign.{
  PendingDelivery, DeliveryStatus, delivered, deferred, suppressed, permanent_failure,
  retryable_failure, DeliveryResult, Formats, CampaignSettings, dedup_key, is_expired,
  remaining_lifetime, campaign_payload,
}

module _ (R : SortedSets) (S : MemberSets) (F : Formats) (G : Format) (settings : CampaignSettings)
    (A : Attempt) (delivery : PendingDelivery) where
  -- The result, what it leaves, and the batch that went to the provider if one did.
  pub record Done : Type 0 where
    pub result : DeliveryResult
    pub world : World R S
    pub batch : Option (List String × FcmPayload)

  abbrev pub claim_key : String
  claim_key = dedup_key delivery.idempotency_key

  abbrev pub identity : String
  identity = "campaign:" ++ delivery.idempotency_key

  unfoldable pub refuse : DeliveryStatus → String → World R S → Done
  refuse status reason w = record {
    result = record {
      idempotency_key = delivery.idempotency_key;
      lease_id = delivery.lease_id;
      status = status;
      reason = some reason;
      retry_after = none;
    };
    world = w;
    batch = none;
  }

  unfoldable pub release_claim : World R S → World R S
  release_claim w = if A.release_fails then w else record w {
    claims = (release_campaign_delivery A.release_at claim_key A.owner w.claims).1;
  }

  unfoldable pub remove : String → String → World R S → World R S
  remove recipient token w =
      if A.removal_fails token
      then w
      else record w { devices = (remove_token R S recipient token w.devices).1 }

  unfoldable pub remove_unregistered : String → List (String × SendResult) → World R S → World R S
  remove_unregistered recipient [] w = w
  remove_unregistered recipient ((token, accepted) ∷ outcomes) w =
      remove_unregistered recipient outcomes w
  remove_unregistered recipient ((token, failed e) ∷ outcomes) w =
      remove_unregistered recipient outcomes
        (if is_not_registered e then remove recipient token w else w)

  unfoldable pub refresh_delivered : List String → World R S → World R S
  refresh_delivered [] w = w
  refresh_delivered (token ∷ tokens) w = if A.refresh_fails then w else record w {
    devices = (refresh_token_activity R S A.refresh_at (token ∷ tokens) w.devices).1;
  }

  unfoldable pub promote_claim : World R S → World R S
  promote_claim w = if A.promotion_fails then w else record w {
    claims =
        (promote_campaign_delivery A.promote_at claim_key A.owner
          (max settings.dedup_ttl_secs A.claim_ttl_secs) w.claims).1;
  }

  -- What follows the provider's answer.
  unfoldable pub settle : List (String × SendResult) → World R S → Done
  settle outcomes w =
      if is_empty (delivered_tokens outcomes)
      then if has_other_error outcomes
        then refuse retryable_failure "provider_error" (release_claim w)
        else refuse permanent_failure "no_device" (release_claim w)
      else record {
        result = record {
          idempotency_key = delivery.idempotency_key;
          lease_id = delivery.lease_id;
          status = delivered;
          reason = none;
          retry_after = none;
        };
        world = promote_claim w;
        batch = none;
      }

  unfoldable pub push : String → List String → World R S → Done
  push recipient tokens w =
      let payload = immediate_delivery (campaign_payload F delivery recipient) in
      let outcomes = A.send tokens payload in
      record (settle outcomes (
        refresh_delivered (delivered_tokens outcomes) (remove_unregistered recipient outcomes w))) {
          batch = some (tokens, payload);
        }

  unfoldable pub validate_and_push : String → ℕ → List String → World R S → Done
  validate_and_push recipient generation tokens w =
      if A.validation_fails
      then refuse retryable_failure "activity_authority_unavailable" (release_claim w)
      else let (valid, b) =
          validate_reservation R settings.delivery identity (some generation) A.validate_at
            (budgets_at R S recipient w) in
        let w' = with_budgets R S recipient b w in
        if valid
        then push recipient tokens w'
        else refuse suppressed "recipient_returned" (release_claim w')

  unfoldable pub reserve_and_push : String → ℕ → List String → World R S → Done
  reserve_and_push recipient generation tokens w =
      if A.budget_fails
      then refuse retryable_failure "frequency_budget_unavailable" (release_claim w)
      else let (decision, b) =
          reserve_budget_for_generation R settings.delivery identity (some generation) A.reserve_at
            (budgets_at R S recipient w) in
        let w' = with_budgets R S recipient b w in
        if is_allowed decision
        then validate_and_push recipient generation tokens w'
        else refuse suppressed "recipient_frequency_capped" (release_claim w')

  -- No device may be pushed to now.
  unfoldable pub refuse_chosen : Chosen → World R S → Done
  refuse_chosen c w = elim c.earliest_retry_after [
    | some retry_after ↦ record {
      result = record {
        idempotency_key = delivery.idempotency_key;
        lease_id = delivery.lease_id;
        status = deferred;
        reason = some "recipient_quiet_hours";
        retry_after = some retry_after;
      };
      world = w;
      batch = none;
    }
    | none ↦
        refuse suppressed (if c.timezone_unknown then "recipient_timezone_unknown" else "no_device")
          w
  ]

  unfoldable pub send_to_devices : String → ℕ → World R S → Done
  send_to_devices recipient generation w =
      if A.tokens_fail
      then refuse retryable_failure "token_lookup_failed" (release_claim w)
      else let registered =
          get_tokens_with_timezone_offsets R S F.parsers A.lookup_now recipient w.devices in
        let c = choose_tokens F settings A.now registered none_chosen in
        if is_empty registered
        then refuse permanent_failure "no_device" (release_claim w)
        else if is_empty c.tokens
        then refuse_chosen c (release_claim w)
        else reserve_and_push recipient generation c.tokens w

  unfoldable pub claim_and_send : String → ℕ → World R S → Done
  claim_and_send recipient generation w =
      if A.claim_fails
      then refuse retryable_failure "dedup_unavailable" w
      else let (claimed, claims) =
          claim_campaign_delivery A.claim_at claim_key A.owner (max A.claim_ttl_secs 1) w.claims in
        if claimed
        then send_to_devices recipient generation (record w { claims = claims })
        else refuse suppressed "already_delivered" (record w { claims = claims })

  -- The consent of a recipient, or the error of its lookup.
  unfoldable pub consent_of : String → World R S → Option Bool
  consent_of recipient w =
      if settings.allow_unverified_consent
      then some true
      else if A.consent_fails
      then none
      else campaign_consent_enabled G recipient w.keys

  unfoldable pub admit : String → ℕ → World R S → Done
  admit recipient generation w =
      if is_permitted settings.allowed_pubkeys recipient
      then elim (consent_of recipient w) [
        | some true ↦ claim_and_send recipient generation w
        | some false ↦ refuse suppressed "campaign_consent_disabled" w
        | none ↦ refuse retryable_failure "consent_lookup_failed" w
      ]
      else refuse suppressed "recipient_not_allowed" w

  unfoldable pub bind_and_admit : String → World R S → Done
  bind_and_admit recipient w =
      if A.bind_fails
      then refuse retryable_failure "activity_authority_unavailable" w
      else let (generation, account) =
          generation_for_work R A.bind_clock identity
            (saturating_add (remaining_lifetime F delivery.expires_at A.now)
              settings.dedup_ttl_secs)
            (account_of R S recipient w) in
        admit recipient generation (with_account R S recipient account w)

  unfoldable pub deliver : World R S → Done
  deliver w =
      if is_expired F delivery.expires_at A.now
      then refuse suppressed "campaign_expired" w
      else elim (F.from_str delivery.recipient_pubkey) [
        | none ↦ refuse permanent_failure "invalid_recipient_pubkey" w
        | some recipient ↦ bind_and_admit recipient w
      ]
