-- ===== src/Campaign/Deliver/Once.antt =====
-- A campaign delivery that was made is not made again, and one that was not can be
-- (src/campaign_delivery.rs, src/redis_store.rs).
use divine_push_service.Prelude.{
  ℕ, ◌+◌, ◌≤◌, ◌<◌, ◌≡◌, ◌≢◌, String, false, Option, none, some, arith, eq_refl, max, inl, inr,
  Option-cases,
}
use divine_push_service.Redis.{SortedSets, Key, at_time}
use divine_push_service.Redis.Members.{MemberSets}
use divine_push_service.Activity.{generation_for_work}
use divine_push_service.Preferences.{Format}
use divine_push_service.Claims.{
  claim_campaign_delivery, release_campaign_delivery, promote_campaign_delivery,
}
use divine_push_service.World.{World, with_account, account_of}
use divine_push_service.Campaign.{
  PendingDelivery, delivered, Formats, CampaignSettings, dedup_key, remaining_lifetime,
}
use divine_push_service.Campaign.Deliver.{
  Attempt, refuse, claim_and_send, admit, bind_and_admit, deliver, saturating_add, identity,
}
use divine_push_service.Campaign.Deliver.Claimed.{window, deliver-IsSettled}

module _ (R : SortedSets) (S : MemberSets) (F : Formats) (G : Format)
    (settings : CampaignSettings) where
  abbrev pub held : String → ℕ → Key (Option String)
  held owner t = record { value = some owner; expires_at = some t }

  delivered_held :
      (A : Attempt) (delivery : PendingDelivery) (w : World R S)
      → (deliver R S F G settings A delivery w).result.status ≡ delivered
      → A.promotion_fails ≡ false
      → A.promote_at < A.claim_at + max A.claim_ttl_secs 1
      → (deliver R S F G settings A delivery w).world.claims (dedup_key delivery.idempotency_key)
        ≡ held A.owner (A.promote_at + window R S F G settings A delivery)
  unfolding claim_campaign_delivery promote_campaign_delivery
  delivered_held A delivery w done kept soon = ground (
    arith,
    deliver-IsSettled R S F G settings A delivery w,
    eq_refl (dedup_key delivery.idempotency_key),
    eq_refl A.owner,
  )

  module _ (A : Attempt) (delivery : PendingDelivery) (owner : String) (t : ℕ)
      (live : A.claim_at < t) where
    claim-refused :
        (recipient : String) (generation : ℕ) (w : World R S)
        → w.claims (dedup_key delivery.idempotency_key) ≡ held owner t
        → (claim_and_send R S F G settings A delivery recipient generation w).batch ≡ none
    unfolding claim_and_send refuse claim_campaign_delivery
    claim-refused recipient generation w h = ground arith

    admit-refused :
        (recipient : String) (generation : ℕ) (w : World R S)
        → w.claims (dedup_key delivery.idempotency_key) ≡ held owner t
        → (admit R S F G settings A delivery recipient generation w).batch ≡ none
    unfolding admit refuse
    admit-refused recipient generation w h = ground (arith, claim-refused recipient generation w h)

    bind-refused :
        (recipient : String) (w : World R S)
        → w.claims (dedup_key delivery.idempotency_key) ≡ held owner t
        → (bind_and_admit R S F G settings A delivery recipient w).batch ≡ none
    unfolding bind_and_admit refuse with_account
    bind-refused recipient w h =
        let bound =
          generation_for_work R A.bind_clock (identity R S F G settings A delivery)
            (saturating_add (remaining_lifetime F delivery.expires_at A.now)
              settings.dedup_ttl_secs)
            (account_of R S recipient w) in
        ground (arith, admit-refused recipient bound.0 (with_account R S recipient bound.1 w) h)

    deliver-refused :
        (w : World R S)
        → w.claims (dedup_key delivery.idempotency_key) ≡ held owner t
        → (deliver R S F G settings A delivery w).batch ≡ none
    unfolding deliver refuse
    deliver-refused w h = elim (Option-cases (F.from_str delivery.recipient_pubkey)) [
      | inl e ↦ ground arith
      | inr (recipient, e) ↦ ground (arith, bind-refused recipient w h)
    ]

  -- A campaign delivery is made once: after an attempt that delivers and promotes its claim before
  -- the claim expires, no attempt at an offer of the same key, made while the key is as the first
  -- attempt left it and before the claim's promoted window has passed, sends anything to the
  -- provider.
  pub delivered_once :
      (A A' : Attempt) (delivery delivery' : PendingDelivery) (w w' : World R S)
      → (deliver R S F G settings A delivery w).result.status ≡ delivered
      → A.promotion_fails ≡ false
      → A.promote_at < A.claim_at + max A.claim_ttl_secs 1
      → delivery'.idempotency_key ≡ delivery.idempotency_key
      → w'.claims (dedup_key delivery.idempotency_key)
        ≡ (deliver R S F G settings A delivery w).world.claims (dedup_key delivery.idempotency_key)
      → A'.claim_at < A.promote_at + max settings.dedup_ttl_secs A.claim_ttl_secs
      → (deliver R S F G settings A' delivery' w').batch ≡ none
  delivered_once A A' delivery delivery' w w' done kept soon same left early =
      deliver-refused A' delivery' A.owner (A.promote_at + window R S F G settings A delivery) early
        w' (rw (same, left) (delivered_held A delivery w done kept soon))

  -- An attempt that ends undelivered, its release having not failed, leaves the key of its claim as
  -- it found it, as read at any time from the release on, if it released no earlier than it
  -- claimed.
  pub undelivered_given_back :
      (A : Attempt) (delivery : PendingDelivery) (w : World R S) (t : ℕ)
      → (deliver R S F G settings A delivery w).result.status ≢ delivered
      → A.release_fails ≡ false
      → A.claim_at ≤ A.release_at
      → A.release_at ≤ t
      → (at_time t none (
          (deliver R S F G settings A delivery w).world.claims
            (dedup_key delivery.idempotency_key))).value
        ≡ (at_time t none (w.claims (dedup_key delivery.idempotency_key))).value
  unfolding claim_campaign_delivery release_campaign_delivery
  undelivered_given_back A delivery w t failed given order later = ground (
    arith,
    deliver-IsSettled R S F G settings A delivery w,
    eq_refl (dedup_key delivery.idempotency_key),
    eq_refl A.owner,
  )
