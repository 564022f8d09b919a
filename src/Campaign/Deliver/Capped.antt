-- ===== src/Campaign/Deliver/Capped.antt =====
-- Campaign deliveries keep within the recipient's send budget (src/campaign_delivery.rs,
-- src/notification_delivery.rs).
use divine_push_service.Prelude.{
  ℕ, ◌≤◌, ◌≡◌, String, some, List, [], ◌∷◌, inl, inr, arith, eq_iff, Option-cases, if◌then◌else◌,
  max, refl, ap,
}
use divine_push_service.Redis.{SortedSets}
use divine_push_service.Redis.Members.{MemberSets}
use divine_push_service.Activity.{Account, generation_for_work}
use divine_push_service.Preferences.{Format}
use divine_push_service.Budget.{Request, nonurgent, hour}
use divine_push_service.Delivery.{
  Budgets, reserve_budget_for_generation, validate_reservation, reserve_budget_for_class,
  validate_reservation_for_class,
}
use divine_push_service.Delivery.Limits.{AreCapped, reserve-AreCapped, validate-AreCapped}
use divine_push_service.Devices.{get_tokens_with_timezone_offsets}
use divine_push_service.Payload.{immediate_delivery}
use divine_push_service.Provider.{SendResult, accepted, failed, is_not_registered}
use divine_push_service.World.{World, with_account, with_budgets, budgets_at, account_of}
use divine_push_service.Claims.{claim_campaign_delivery}
use divine_push_service.Campaign.{
  PendingDelivery, Formats, CampaignSettings, dedup_key, remaining_lifetime, campaign_payload,
}
use divine_push_service.Campaign.Deliver.{
  Attempt, none_chosen, choose_tokens, refuse, settle, push, remove, remove_unregistered,
  refresh_delivered, release_claim, promote_claim, validate_and_push, reserve_and_push,
  refuse_chosen, send_to_devices, claim_and_send, admit, bind_and_admit, deliver, saturating_add,
  identity,
}

module _ (R : SortedSets) (S : MemberSets) (F : Formats) (G : Format) (settings : CampaignSettings)
    (A : Attempt) (delivery : PendingDelivery) where
  open R use {zcount_mono}

  -- The account's sends are within the settings' bounds.
  abbrev pub IsCapped : ℕ → String → World R S → Type 0
  IsCapped now j w = AreCapped R settings.delivery now (budgets_at R S j w)

  later-IsCapped :
      (now later : ℕ) (j : String) (w : World R S)
      → now ≤ later
      → IsCapped now j w
      → IsCapped later j w
  unfolding budgets_at
  later-IsCapped now later j w order h = ground (
    arith,
    zcount_mono now hour later hour (w.nonurgent_ledger j).sends.value,
    zcount_mono now hour later hour (w.direct_ledger j).sends.value,
  )

  abbrev pub HasLedgersOf : World R S → World R S → Type 0
  HasLedgersOf w w' =
      (w'.nonurgent_ledger ≡ w.nonurgent_ledger) × (w'.direct_ledger ≡ w.direct_ledger)

  remove-ledgers :
      (recipient : String) (outcomes : List (String × SendResult)) (w : World R S)
      → HasLedgersOf w (remove_unregistered R S F G settings A delivery recipient outcomes w)
  unfolding remove_unregistered remove
  remove-ledgers recipient [] w = (refl, refl)
  remove-ledgers recipient ((token, accepted) ∷ outcomes) w = remove-ledgers recipient outcomes w
  remove-ledgers recipient ((token, failed e) ∷ outcomes) w =
      let w' =
        if is_not_registered e then remove R S F G settings A delivery recipient token w else w in
      ground (arith, remove-ledgers recipient outcomes w')

  pub push-ledgers :
      (recipient : String) (tokens : List String) (w : World R S)
      → HasLedgersOf w (push R S F G settings A delivery recipient tokens w).world
  unfolding push settle refuse release_claim promote_claim refresh_delivered
  push-ledgers recipient tokens w =
      let outcomes = A.send tokens (immediate_delivery (campaign_payload F delivery recipient)) in
      ground (arith, remove-ledgers recipient outcomes w)

  transfer-IsCapped :
      (now : ℕ) (j : String) (w w' : World R S)
      → HasLedgersOf w w'
      → IsCapped now j w
      → IsCapped now j w'
  unfolding budgets_at
  transfer-IsCapped now j w w' same h = ground (arith, ap (λ f. f j) same.0, ap (λ f. f j) same.1)

  with_budgets-IsCapped :
      (now : ℕ) (j recipient : String) (b : Budgets R) (w : World R S)
      → AreCapped R settings.delivery now b
      → IsCapped now j w
      → IsCapped now j (with_budgets R S recipient b w)
  unfolding budgets_at with_budgets
  with_budgets-IsCapped now j recipient b w fresh h = ground (arith, eq_iff recipient j)

  release-ledgers : (w : World R S) → HasLedgersOf w (release_claim R S F G settings A delivery w)
  unfolding release_claim
  release-ledgers w = ground arith

  account-ledgers :
      (recipient : String) (a : Account R) (w : World R S)
      → HasLedgersOf w (with_account R S recipient a w)
  unfolding with_account
  account-ledgers recipient a w = (refl, refl)

  -- With the recipient's budget within the bounds, as every account's is.
  module _ (now : ℕ) (j : String) (before : now ≤ A.reserve_at)
      (after : A.reserve_at ≤ A.validate_at) where
    waiting-IsCapped : (w : World R S) → IsCapped now j w → IsCapped A.validate_at j w
    waiting-IsCapped w h = later-IsCapped now A.validate_at j w (omega arith) h

    idle-IsCapped :
        (w : World R S)
        → IsCapped now j w
        → IsCapped A.validate_at j (release_claim R S F G settings A delivery w)
    idle-IsCapped w h =
        transfer-IsCapped A.validate_at j w (release_claim R S F G settings A delivery w)
          (release-ledgers w) (waiting-IsCapped w h)

    validate-IsCapped :
        (recipient : String) (generation : ℕ) (tokens : List String) (w : World R S)
        → IsCapped A.reserve_at recipient w
        → IsCapped A.reserve_at j w
        → IsCapped A.validate_at j
            (validate_and_push R S F G settings A delivery recipient generation tokens w).world
    unfolding validate_and_push refuse validate_reservation
    validate-IsCapped recipient generation tokens w own h =
        let q : Request = record {
          identity = identity R S F G settings A delivery;
          generation = some generation;
          class = nonurgent;
        } in
        let b =
          (validate_reservation_for_class R settings.delivery q A.validate_at
            (budgets_at R S recipient w)).1 in
        let w' = with_budgets R S recipient b w in
        let h' = later-IsCapped A.reserve_at A.validate_at j w after h in
        let fresh =
          validate-AreCapped R settings.delivery q A.reserve_at A.validate_at
            (budgets_at R S recipient w) after own in
        let h'' = with_budgets-IsCapped A.validate_at j recipient b w fresh h' in
        ground (
          arith,
          h'',
          h',
          transfer-IsCapped A.validate_at j w (release_claim R S F G settings A delivery w)
              (release-ledgers w) h',
          transfer-IsCapped A.validate_at j w' (release_claim R S F G settings A delivery w')
              (release-ledgers w') h'',
          transfer-IsCapped A.validate_at j w'
              (push R S F G settings A delivery recipient tokens w').world
              (push-ledgers recipient tokens w') h'',
        )

    reserve-IsCapped :
        (recipient : String) (generation : ℕ) (tokens : List String) (w : World R S)
        → IsCapped now recipient w
        → IsCapped now j w
        → IsCapped A.validate_at j
            (reserve_and_push R S F G settings A delivery recipient generation tokens w).world
    unfolding reserve_and_push refuse reserve_budget_for_generation
    reserve-IsCapped recipient generation tokens w own h =
        let q : Request = record {
          identity = identity R S F G settings A delivery;
          generation = some generation;
          class = nonurgent;
        } in
        let b =
          (reserve_budget_for_class R settings.delivery q A.reserve_at
            (budgets_at R S recipient w)).1 in
        let w' = with_budgets R S recipient b w in
        let fresh =
          reserve-AreCapped R settings.delivery q now A.reserve_at (budgets_at R S recipient w)
            before own in
        let own' =
          with_budgets-IsCapped A.reserve_at recipient recipient b w fresh
            (later-IsCapped now A.reserve_at recipient w before own) in
        let h' =
          with_budgets-IsCapped A.reserve_at j recipient b w fresh
            (later-IsCapped now A.reserve_at j w before h) in
        ground (
          arith,
          validate-IsCapped recipient generation tokens w' own' h',
          idle-IsCapped w h,
          later-IsCapped A.reserve_at A.validate_at j (release_claim R S F G settings A delivery w')
              after
              (transfer-IsCapped A.reserve_at j w' (release_claim R S F G settings A delivery w')
                (release-ledgers w') h'),
        )

    send-IsCapped :
        (recipient : String) (generation : ℕ) (w : World R S)
        → IsCapped now recipient w
        → IsCapped now j w
        → IsCapped A.validate_at j
            (send_to_devices R S F G settings A delivery recipient generation w).world
    unfolding send_to_devices refuse refuse_chosen
    send-IsCapped recipient generation w own h =
        let tokens =
          (choose_tokens F settings A.now
            (get_tokens_with_timezone_offsets R S F.parsers A.lookup_now recipient w.devices)
            none_chosen).tokens in
        ground (arith, reserve-IsCapped recipient generation tokens w own h, idle-IsCapped w h)

    claim-IsCapped :
        (recipient : String) (generation : ℕ) (w : World R S)
        → IsCapped now recipient w
        → IsCapped now j w
        → IsCapped A.validate_at j
            (claim_and_send R S F G settings A delivery recipient generation w).world
    unfolding claim_and_send refuse
    claim-IsCapped recipient generation w own h =
        let claims =
          (claim_campaign_delivery A.claim_at (dedup_key delivery.idempotency_key) A.owner
            (max A.claim_ttl_secs 1) w.claims).1 in
        let w' : World R S = record w { claims = claims } in
        let same : HasLedgersOf w w' = (refl, refl) in
        let h' = transfer-IsCapped now j w w' same h in
        ground (
          arith,
          send-IsCapped recipient generation w' (transfer-IsCapped now recipient w w' same own) h',
          waiting-IsCapped w h,
          waiting-IsCapped w' h',
        )

    admit-IsCapped :
        (recipient : String) (generation : ℕ) (w : World R S)
        → IsCapped now recipient w
        → IsCapped now j w
        → IsCapped A.validate_at j (admit R S F G settings A delivery recipient generation w).world
    unfolding admit refuse
    admit-IsCapped recipient generation w own h =
        ground (arith, claim-IsCapped recipient generation w own h, waiting-IsCapped w h)

    bind-IsCapped :
        (recipient : String) (w : World R S)
        → IsCapped now recipient w
        → IsCapped now j w
        → IsCapped A.validate_at j (bind_and_admit R S F G settings A delivery recipient w).world
    unfolding bind_and_admit refuse
    bind-IsCapped recipient w own h =
        let bound =
          generation_for_work R A.bind_clock (identity R S F G settings A delivery)
            (saturating_add (remaining_lifetime F delivery.expires_at A.now)
              settings.dedup_ttl_secs)
            (account_of R S recipient w) in
        let w' = with_account R S recipient bound.1 w in
        let same = account-ledgers recipient bound.1 w in
        ground (
          arith,
          admit-IsCapped recipient bound.0 w' (transfer-IsCapped now recipient w w' same own)
              (transfer-IsCapped now j w w' same h),
          waiting-IsCapped w h,
        )

  -- If the sends of every account are within the settings' hourly and daily bounds, they are so
  -- after a campaign delivery that reserves no earlier and validates no earlier than it reserves.
  pub deliver-IsCapped :
      (now : ℕ) (w : World R S)
      → now ≤ A.reserve_at
      → A.reserve_at ≤ A.validate_at
      → ((j : String) → IsCapped now j w)
      → (j : String) → IsCapped A.validate_at j (deliver R S F G settings A delivery w).world
  unfolding deliver refuse
  deliver-IsCapped now w before after h j =
      elim (Option-cases (F.from_str delivery.recipient_pubkey)) [
        | inl e ↦ ground (arith, waiting-IsCapped now j before after w (h j))
        | inr (recipient, e) ↦ ground (
          arith,
          waiting-IsCapped now j before after w (h j),
          bind-IsCapped now j before after recipient w (h recipient) (h j),
        )
      ]
