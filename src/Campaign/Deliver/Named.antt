-- ===== src/Campaign/Deliver/Named.antt =====
-- A campaign delivery's result is of the offer that it answers (src/campaign_delivery.rs).
use divine_push_service.Prelude.{ℕ, ◌≡◌, String, inl, inr, arith, Option-cases, max}
use divine_push_service.Redis.{SortedSets}
use divine_push_service.Redis.Members.{MemberSets}
use divine_push_service.Preferences.{Format}
use divine_push_service.Activity.{generation_for_work}
use divine_push_service.Claims.{claim_campaign_delivery}
use divine_push_service.World.{World, account_of, with_account}
use divine_push_service.Campaign.{
  PendingDelivery, Formats, CampaignSettings, dedup_key, remaining_lifetime,
}
use divine_push_service.Campaign.Deliver.{
  Attempt, Done, refuse, settle, push, validate_and_push, reserve_and_push, refuse_chosen,
  send_to_devices, claim_and_send, admit, bind_and_admit, deliver, identity, saturating_add,
}

module _ (R : SortedSets) (S : MemberSets) (F : Formats) (G : Format) (settings : CampaignSettings)
    (A : Attempt) (delivery : PendingDelivery) where
  abbrev pub IsNamed : Done R S F G settings A delivery → Type 0
  IsNamed d =
      (d.result.idempotency_key ≡ delivery.idempotency_key)
      × (d.result.lease_id ≡ delivery.lease_id)

  send-IsNamed :
      (recipient : String) (generation : ℕ) (w : World R S)
      → IsNamed (send_to_devices R S F G settings A delivery recipient generation w)
  unfolding send_to_devices refuse refuse_chosen reserve_and_push validate_and_push push settle
  send-IsNamed recipient generation w = ground arith

  admit-IsNamed :
      (recipient : String) (generation : ℕ) (w : World R S)
      → IsNamed (admit R S F G settings A delivery recipient generation w)
  unfolding admit refuse claim_and_send
  admit-IsNamed recipient generation w =
      let claims =
        (claim_campaign_delivery A.claim_at (dedup_key delivery.idempotency_key) A.owner
          (max A.claim_ttl_secs 1) w.claims).1 in
      ground (arith, send-IsNamed recipient generation (record w { claims = claims }))

  pub deliver-IsNamed : (w : World R S) → IsNamed (deliver R S F G settings A delivery w)
  unfolding deliver refuse bind_and_admit
  deliver-IsNamed w = elim (Option-cases (F.from_str delivery.recipient_pubkey)) [
    | inl h ↦ ground arith
    | inr (recipient, h) ↦
        (let bound =
            generation_for_work R A.bind_clock (identity R S F G settings A delivery)
              (saturating_add (remaining_lifetime F delivery.expires_at A.now)
                settings.dedup_ttl_secs)
              (account_of R S recipient w) in
          ground (arith, admit-IsNamed recipient bound.0 (with_account R S recipient bound.1 w)))
  ]
