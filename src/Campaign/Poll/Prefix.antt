-- ===== src/Campaign/Poll/Prefix.antt =====
-- What a poll reports (src/campaign_delivery.rs, `poll_once`).
use divine_push_service.Prelude.{
  ℕ, zero, suc, ◌+◌, ◌-◌, ◌*◌, ◌^◌, ◌≤◌, ◌<◌, ◌≡◌, String, List, [], ◌∷◌, arith, length, take, ap,
  refl,
}
use divine_push_service.Redis.{SortedSets}
use divine_push_service.Redis.Members.{MemberSets}
use divine_push_service.Preferences.{Format}
use divine_push_service.World.{World}
use divine_push_service.Campaign.{PendingDelivery, DeliveryResult, Formats, CampaignSettings}
use divine_push_service.Campaign.Deliver.{deliver}
use divine_push_service.Campaign.Deliver.Named.{deliver-IsNamed}
use divine_push_service.Campaign.Poll.{
  second, result_report_reserve, claim_ttl, Turn, attempt_of, poll_deliveries,
}

-- The claim's time to live is the lease's remaining time, rounded up to a second, if that time is
-- positive and fits in a u64 of seconds.
pub claim_ttl-covers :
    (remaining : ℕ)
    → remaining < (2 ^ 64 - 1) * second
    → 0 < remaining
    → (remaining ≤ claim_ttl remaining * second)
      × (claim_ttl remaining * second < remaining + second)
unfolding claim_ttl
claim_ttl-covers remaining bound some_left = ground arith

-- The offers that results answer.
abbrev pub answers : List DeliveryResult → List (String × String)
answers [] = []
answers (r ∷ results) = (r.idempotency_key, r.lease_id) ∷ answers results

abbrev pub offers : List PendingDelivery → List (String × String)
offers [] = []
offers (d ∷ deliveries) = (d.idempotency_key, d.lease_id) ∷ offers deliveries

module _ (R : SortedSets) (S : MemberSets) (F : Formats) (G : Format) (settings : CampaignSettings)
    (deadline : ℕ) (turns : ℕ → Turn R S) where
  -- The results of a poll answer the offers of the response in order, each by its key and its
  -- lease, up to some offer.
  pub poll-answers :
      (i : ℕ) (deliveries : List PendingDelivery) (w : World R S)
      → let (results, w') = poll_deliveries R S F G settings deadline turns i deliveries w in
        answers results ≡ take (length results) (offers deliveries)
  unfolding poll_deliveries
  poll-answers i [] w = refl
  poll-answers i (delivery ∷ deliveries) w =
      let A = attempt_of R S F G settings deadline (turns i) in
      let d = deliver R S F G settings A delivery w in
      ground (
        arith,
        poll-answers (suc i) deliveries d.world,
        deliver-IsNamed R S F G settings A delivery w,
      )

  -- No delivery is reported of a turn at which the lease has no more left than the reserve for
  -- reporting, nor of a later turn.
  pub poll-stops :
      (i n : ℕ) (deliveries : List PendingDelivery) (w : World R S)
      → deadline ≤ (turns (i + n)).started_at + result_report_reserve
      → length (poll_deliveries R S F G settings deadline turns i deliveries w).0 ≤ n
  unfolding poll_deliveries
  poll-stops i n [] w late = ground arith
  poll-stops i zero (delivery ∷ deliveries) w late =
      let e : i + 0 ≡ i = omega arith in ground (arith, ap (λ k. (turns k).started_at) e)
  poll-stops i (suc n) (delivery ∷ deliveries) w late =
      let A = attempt_of R S F G settings deadline (turns i) in
      let d = deliver R S F G settings A delivery w in
      let e : i + suc n ≡ suc i + n = omega arith in
      ground (arith, poll-stops (suc i) n deliveries d.world (rw (← e) late))
