-- ===== src/Campaign/Poll.antt =====
-- `poll_once` (src/campaign_delivery.rs): the deliveries of one response of the campaign tool, under
-- the lease that it grants. Times are in nanoseconds.
pub mod Prefix
use divine_push_service.Prelude.{
  ℕ, suc, ◌+◌, ◌-◌, ◌*◌, ◌/◌, ◌%◌, ◌≤◌, ◌<◌, ◌≡◌, String, Bool, true, false, Option, none, some,
  List, [], ◌∷◌, arith, ltb, leb, ◌==◌, length, if◌then◌else◌, min, max,
}
use divine_push_service.Prelude.Int.{ℤ}
use divine_push_service.Redis.{SortedSets}
use divine_push_service.Redis.Members.{MemberSets}
use divine_push_service.Preferences.{Format}
use divine_push_service.World.{World}
use divine_push_service.Campaign.{PendingDelivery, DeliveryResult, Formats, CampaignSettings}
use divine_push_service.Campaign.Deliver.{Attempt, deliver, saturating_add}

pub record PendingResponse : Type 0 where
  pub lease_seconds : ℕ
  pub deliveries : List PendingDelivery

abbrev pub second : ℕ
second = 1000000000

abbrev pub result_report_reserve : ℕ
result_report_reserve = 30 * second

pub data PollError : Type 0 where
  -- the request, its status or its decoding
  poll_failed zero_lease unrepresentable_lease : PollError

pub data Polled {ℓ} (A : Type ℓ) : Type ℓ where
  ok : A → Polled A
  err : PollError → Polled A

-- `limit` is the last `Instant` of the platform.
unfoldable pub compute_lease_deadline : ℕ → ℕ → ℕ → Polled ℕ
compute_lease_deadline limit started_at lease_seconds =
    let deadline = started_at + lease_seconds * second in
    if leb deadline limit then ok deadline else err unrepresentable_lease

-- The remaining lease in whole seconds, rounded up.
unfoldable pub claim_ttl : ℕ → ℕ
claim_ttl remaining =
    max (saturating_add (remaining / second) (if ltb 0 (remaining % second) then 1 else 0)) 1

module _ (R : SortedSets) (S : MemberSets) where
  -- One turn of the loop: the clocks that it reads, the call's own, whether the call ends within its
  -- timeout, and what it leaves where it is dropped.
  pub record Turn : Type 0 where
    pub started_at : ℕ
    pub now : ℤ
    pub attempt : Attempt
    pub finishes : Bool
    pub dropped : World R S → World R S

  module _ (F : Formats) (G : Format) (settings : CampaignSettings) where
    unfoldable pub attempt_of : ℕ → Turn → Attempt
    attempt_of deadline turn = record turn.attempt {
      now = turn.now;
      claim_ttl_secs = claim_ttl (deadline - turn.started_at);
    }

    -- The results that are reported, in order, by the turns from the i-th on.
    unfoldable pub poll_deliveries :
        ℕ → (ℕ → Turn) → ℕ → List PendingDelivery → World R S → List DeliveryResult × World R S
    poll_deliveries deadline turns i [] w = ([], w)
    poll_deliveries deadline turns i (delivery ∷ deliveries) w =
        let d = deliver R S F G settings (attempt_of deadline (turns i)) delivery w in
        let (results, w') = poll_deliveries deadline turns (suc i) deliveries d.world in
        if leb (deadline - (turns i).started_at) result_report_reserve
        then ([], w)
        else if (turns i).finishes
        then (d.result ∷ results, w')
        else ([], (turns i).dropped w)

    unfoldable pub poll_once :
        ℕ
        → ℕ
        → Option PendingResponse
        → (ℕ → Turn)
        → World R S
        → Polled (List DeliveryResult) × World R S
    poll_once limit started_at none turns w = (err poll_failed, w)
    poll_once limit started_at (some response) turns w = elim response.deliveries [
      | [] ↦ (ok [], w)
      | delivery ∷ deliveries ↦
          if response.lease_seconds == 0
          then (err zero_lease, w)
          else elim (compute_lease_deadline limit started_at response.lease_seconds) [
            | err e ↦ (err e, w)
            | ok deadline ↦
                (let (results, w') = poll_deliveries deadline turns 0 (delivery ∷ deliveries) w in
                  (ok results, w'))
          ]
    ]
