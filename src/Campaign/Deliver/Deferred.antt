-- ===== src/Campaign/Deliver/Deferred.antt =====
-- The time that a deferred delivery is to be retried at (src/campaign_delivery.rs, `deliver`).
use divine_push_service.Prelude.{
  ℕ, ◌≡◌, String, Bool, true, false, ◌&&◌, ◌||◌, not, Option, none, some, List, [], ◌∷◌, ◌⊎◌, min,
  ltb, leb, ◌==◌, is_some,
}
use divine_push_service.Prelude.{◌++◌ as append}
use divine_push_service.Prelude.Int.{ℤ, pos, ◌+ℤ◌}
use divine_push_service.Redis.{SortedSets}
use divine_push_service.Redis.Members.{MemberSets}
use divine_push_service.Preferences.{Format}
use divine_push_service.Delivery.{in_quiet_hours}
use divine_push_service.Devices.{get_tokens_with_timezone_offsets}
use divine_push_service.World.{World, is_empty}
use divine_push_service.Campaign.{PendingDelivery, Formats, CampaignSettings, until_end}
use divine_push_service.Campaign.Deliver.{
  Attempt, Done, Chosen, none_chosen, choose_tokens, is_before,
}

abbrev Devices : Type 0
Devices = List (String × Option ℤ)

module _ (F : Formats) (settings : CampaignSettings) (now : ℤ) where
  abbrev until : ℤ → ℕ
  until offset = until_end offset now settings.delivery

  abbrev sooner : ℕ → Option ℕ → ℕ
  sooner e none = e
  sooner e (some e') = min e e'

  -- The seconds to the first end of quiet hours of the devices, or of `h`.
  soonest : Devices → Option ℕ → Option ℕ
  soonest [] h = h
  soonest ((token, none) ∷ devices) h = soonest devices h
  soonest ((token, some offset) ∷ devices) h = soonest devices (some (sooner (until offset) h))

  abbrev written : Option ℕ → Option String
  written none = none
  written (some e) = F.to_rfc3339 (now +ℤ pos e)

  -- The earliest time kept is the one that is `h` seconds away, if there is one.
  abbrev Writes : Option String → Option ℕ → Type 0
  Writes earliest h = (earliest ≡ written h) × (is_some earliest ≡ is_some h)

  -- The written times of a day are in their order as strings.
  abbrev pub AreSorted : Type 0
  AreSorted =
      (a b : ℕ) (x y : String)
      → F.to_rfc3339 (now +ℤ pos a) ≡ some x
      → F.to_rfc3339 (now +ℤ pos b) ≡ some y
      → is_before x y ≡ ltb a b

  -- The quiet hours of every device of a known timezone last until `e`, and those of some end then.
  all_until : ℕ → Devices → Bool
  all_until e [] = true
  all_until e ((token, none) ∷ devices) = all_until e devices
  all_until e ((token, some offset) ∷ devices) = leb e (until offset) && all_until e devices

  any_until : ℕ → Devices → Bool
  any_until e [] = false
  any_until e ((token, none) ∷ devices) = any_until e devices
  any_until e ((token, some offset) ∷ devices) = (until offset == e) || any_until e devices

  -- Every device of a known timezone is in quiet hours.
  pub all_quiet_at : ℤ → Devices → Bool
  all_quiet_at t [] = true
  all_quiet_at t ((token, none) ∷ devices) = all_quiet_at t devices
  all_quiet_at t ((token, some offset) ∷ devices) =
      in_quiet_hours offset t settings.delivery && all_quiet_at t devices

  -- Some device of a known timezone is out of quiet hours.
  pub any_awake_at : ℤ → Devices → Bool
  any_awake_at t [] = false
  any_awake_at t ((token, none) ∷ devices) = any_awake_at t devices
  any_awake_at t ((token, some offset) ∷ devices) =
      not (in_quiet_hours offset t settings.delivery) || any_awake_at t devices

module _ (R : SortedSets) (S : MemberSets) (F : Formats) (G : Format) (settings : CampaignSettings)
    (A : Attempt) (delivery : PendingDelivery) where
  abbrev pub registered : String → World R S → Devices
  registered recipient w =
      get_tokens_with_timezone_offsets R S F.parsers A.lookup_now recipient w.devices

  abbrev chosen : String → World R S → Chosen
  chosen recipient w = choose_tokens F settings A.now (registered recipient w) none_chosen

  -- A time to retry at is the earliest of the devices', none of which may be pushed to.
  abbrev Tells : String → World R S → Done R S F G settings A delivery → Type 0
  Tells recipient w d =
      (d.result.retry_after ≡ none)
      ⊎ ((d.result.retry_after ≡ (chosen recipient w).earliest_retry_after)
          × (is_empty (chosen recipient w).tokens ≡ true))
