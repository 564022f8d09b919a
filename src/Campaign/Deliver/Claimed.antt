-- ===== src/Campaign/Deliver/Claimed.antt =====
-- The claim of a campaign delivery: a push that was taken is not repeated, and an attempt that ends
-- without one gives the key back (src/campaign_delivery.rs, src/redis_store.rs).
use divine_push_service.Prelude.{
  ℕ, ◌≡◌, String, Bool, true, false, some, List, [], ◌∷◌, inl, inr, arith, max, ◌⊎◌, Option-cases,
  if◌then◌else◌, refl,
}
use divine_push_service.Redis.{SortedSets}
use divine_push_service.Redis.Members.{MemberSets}
use divine_push_service.Activity.{generation_for_work}
use divine_push_service.Preferences.{Format}
use divine_push_service.Delivery.{reserve_budget_for_generation, validate_reservation}
use divine_push_service.Claims.{
  ClaimKeys, claim_campaign_delivery, release_campaign_delivery, promote_campaign_delivery,
}
use divine_push_service.Payload.{immediate_delivery}
use divine_push_service.Provider.{SendResult, accepted, failed, delivered_tokens, is_not_registered}
use divine_push_service.World.{World, with_account, with_budgets, budgets_at, account_of}
use divine_push_service.Devices.{get_tokens_with_timezone_offsets}
use divine_push_service.Campaign.{
  PendingDelivery, DeliveryStatus, is_delivered, suppressed, permanent_failure, retryable_failure,
  Formats, CampaignSettings, dedup_key, campaign_payload, remaining_lifetime,
}
use divine_push_service.Campaign.Deliver.{
  Attempt, Done, refuse, release_claim, remove_unregistered, refresh_delivered, promote_claim,
  settle, push, remove, validate_and_push, reserve_and_push, refuse_chosen, send_to_devices,
  claim_and_send, admit, bind_and_admit, deliver, choose_tokens, none_chosen, saturating_add,
  identity, Chosen,
}

module _ (R : SortedSets) (S : MemberSets) (F : Formats) (G : Format) (settings : CampaignSettings)
    (A : Attempt) (delivery : PendingDelivery) where
  abbrev pub claim_key : String
  claim_key = dedup_key delivery.idempotency_key

  abbrev pub window : ℕ
  window = max settings.dedup_ttl_secs A.claim_ttl_secs

  -- What becomes of the claims once this attempt holds the key.
  abbrev pub ended : Bool → ClaimKeys → ClaimKeys
  ended true claims =
      if A.promotion_fails
      then claims
      else (promote_campaign_delivery A.promote_at claim_key A.owner window claims).1
  ended false claims =
      if A.release_fails
      then claims
      else (release_campaign_delivery A.release_at claim_key A.owner claims).1

  abbrev pub IsEnded : ClaimKeys → Done R S F G settings A delivery → Type 0
  IsEnded claims d = d.world.claims ≡ ended (is_delivered d.result.status) claims

  refuse-IsEnded :
      (status : DeliveryStatus) (reason : String) (w : World R S)
      → is_delivered status ≡ false
      → IsEnded w.claims (
          refuse R S F G settings A delivery status reason
            (release_claim R S F G settings A delivery w))
  unfolding refuse release_claim
  refuse-IsEnded status reason w h = ground arith

  settle-IsEnded :
      (outcomes : List (String × SendResult)) (w : World R S)
      → IsEnded w.claims (settle R S F G settings A delivery outcomes w)
  unfolding settle refuse release_claim promote_claim
  settle-IsEnded outcomes w = ground arith

  remove-claims :
      (recipient : String) (outcomes : List (String × SendResult)) (w : World R S)
      → (remove_unregistered R S F G settings A delivery recipient outcomes w).claims ≡ w.claims
  unfolding remove_unregistered remove
  remove-claims recipient [] w = refl
  remove-claims recipient ((token, accepted) ∷ outcomes) w = remove-claims recipient outcomes w
  remove-claims recipient ((token, failed e) ∷ outcomes) w =
      let w' =
        if is_not_registered e then remove R S F G settings A delivery recipient token w else w in
      ground (arith, remove-claims recipient outcomes w')

  refresh-claims :
      (tokens : List String) (w : World R S)
      → (refresh_delivered R S F G settings A delivery tokens w).claims ≡ w.claims
  unfolding refresh_delivered
  refresh-claims tokens w = ground arith

  push-IsEnded :
      (recipient : String) (tokens : List String) (w : World R S)
      → IsEnded w.claims (push R S F G settings A delivery recipient tokens w)
  unfolding push
  push-IsEnded recipient tokens w =
      let outcomes = A.send tokens (immediate_delivery (campaign_payload F delivery recipient)) in
      let w' = remove_unregistered R S F G settings A delivery recipient outcomes w in
      ground (
        arith,
        settle-IsEnded outcomes
            (refresh_delivered R S F G settings A delivery (delivered_tokens outcomes) w'),
        refresh-claims (delivered_tokens outcomes) w',
        remove-claims recipient outcomes w,
      )

  validate-IsEnded :
      (recipient : String) (generation : ℕ) (tokens : List String) (w : World R S)
      → IsEnded w.claims
          (validate_and_push R S F G settings A delivery recipient generation tokens w)
  unfolding validate_and_push with_budgets
  validate-IsEnded recipient generation tokens w =
      let checked =
        validate_reservation R settings.delivery (identity R S F G settings A delivery)
          (some generation) A.validate_at (budgets_at R S recipient w) in
      let w' = with_budgets R S recipient checked.1 w in
      ground (
        arith,
        push-IsEnded recipient tokens w',
        refuse-IsEnded retryable_failure "activity_authority_unavailable" w,
        refuse-IsEnded suppressed "recipient_returned" w',
      )

  reserve-IsEnded :
      (recipient : String) (generation : ℕ) (tokens : List String) (w : World R S)
      → IsEnded w.claims
          (reserve_and_push R S F G settings A delivery recipient generation tokens w)
  unfolding reserve_and_push with_budgets
  reserve-IsEnded recipient generation tokens w =
      let reserved =
        reserve_budget_for_generation R settings.delivery (identity R S F G settings A delivery)
          (some generation) A.reserve_at (budgets_at R S recipient w) in
      let w' = with_budgets R S recipient reserved.1 w in
      ground (
        arith,
        validate-IsEnded recipient generation tokens w',
        refuse-IsEnded retryable_failure "frequency_budget_unavailable" w,
        refuse-IsEnded suppressed "recipient_frequency_capped" w',
      )

  refuse_chosen-IsEnded :
      (c : Chosen) (w : World R S)
      → IsEnded w.claims (
          refuse_chosen R S F G settings A delivery c (release_claim R S F G settings A delivery w))
  unfolding refuse_chosen refuse release_claim
  refuse_chosen-IsEnded c w = ground arith

  send-IsEnded :
      (recipient : String) (generation : ℕ) (w : World R S)
      → IsEnded w.claims (send_to_devices R S F G settings A delivery recipient generation w)
  unfolding send_to_devices
  send-IsEnded recipient generation w =
      let registered =
        get_tokens_with_timezone_offsets R S F.parsers A.lookup_now recipient w.devices in
      let c = choose_tokens F settings A.now registered none_chosen in
      ground (
        arith,
        reserve-IsEnded recipient generation c.tokens w,
        refuse_chosen-IsEnded c w,
        refuse-IsEnded retryable_failure "token_lookup_failed" w,
        refuse-IsEnded permanent_failure "no_device" w,
      )

  abbrev pub taken : ClaimKeys → Bool × ClaimKeys
  taken claims =
      claim_campaign_delivery A.claim_at claim_key A.owner (max A.claim_ttl_secs 1) claims

  -- Either nothing was claimed, or the attempt held the key.
  abbrev pub IsSettled : ClaimKeys → Done R S F G settings A delivery → Type 0
  IsSettled claims d =
      ((is_delivered d.result.status ≡ false) × (d.world.claims ≡ claims))
      ⊎ (((taken claims).0 ≡ true) × IsEnded (taken claims).1 d)

  claim-IsSettled :
      (recipient : String) (generation : ℕ) (w : World R S)
      → IsSettled w.claims (claim_and_send R S F G settings A delivery recipient generation w)
  unfolding claim_and_send refuse claim_campaign_delivery
  claim-IsSettled recipient generation w =
      ground (arith, send-IsEnded recipient generation (record w { claims = (taken w.claims).1 }))

  admit-IsSettled :
      (recipient : String) (generation : ℕ) (w : World R S)
      → IsSettled w.claims (admit R S F G settings A delivery recipient generation w)
  unfolding admit refuse
  admit-IsSettled recipient generation w = ground (arith, claim-IsSettled recipient generation w)

  bind-IsSettled :
      (recipient : String) (w : World R S)
      → IsSettled w.claims (bind_and_admit R S F G settings A delivery recipient w)
  unfolding bind_and_admit refuse with_account
  bind-IsSettled recipient w =
      let bound =
        generation_for_work R A.bind_clock (identity R S F G settings A delivery)
          (saturating_add (remaining_lifetime F delivery.expires_at A.now) settings.dedup_ttl_secs)
          (account_of R S recipient w) in
      ground (arith, admit-IsSettled recipient bound.0 (with_account R S recipient bound.1 w))

  pub deliver-IsSettled :
      (w : World R S) → IsSettled w.claims (deliver R S F G settings A delivery w)
  unfolding deliver refuse
  deliver-IsSettled w = elim (Option-cases (F.from_str delivery.recipient_pubkey)) [
    | inl h ↦ ground arith
    | inr (recipient, h) ↦ ground (arith, bind-IsSettled recipient w)
  ]
