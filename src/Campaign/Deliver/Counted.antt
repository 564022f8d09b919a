-- ===== src/Campaign/Deliver/Counted.antt =====
-- A campaign push is one that the recipient's budget allowed and counts
-- (src/campaign_delivery.rs, `deliver`).
use divine_push_service.Prelude.{
  ℕ, ◌≤◌, ◌≡◌, String, true, none, some, List, inl, inr, arith, eq_refl, Option-cases, ◌⊎◌, max, ap,
  is_some,
}
use divine_push_service.Redis.{SortedSets}
use divine_push_service.Redis.Members.{MemberSets}
use divine_push_service.Activity.{generation_for_work}
use divine_push_service.Preferences.{Format}
use divine_push_service.Budget.{BudgetDecision, allowed, Request, nonurgent}
use divine_push_service.Budget.Fence.{validate-stamped}
use divine_push_service.Delivery.{
  Budgets, books_of, reserve_budget_for_generation, validate_reservation,
}
use divine_push_service.Devices.{get_tokens_with_timezone_offsets}
use divine_push_service.World.{World, with_account, with_budgets, budgets_at, account_of}
use divine_push_service.Claims.{claim_campaign_delivery}
use divine_push_service.Campaign.{
  PendingDelivery, Formats, CampaignSettings, dedup_key, remaining_lifetime,
}
use divine_push_service.Campaign.Deliver.{
  Attempt, Done, none_chosen, choose_tokens, refuse, validate_and_push, reserve_and_push,
  refuse_chosen, send_to_devices, claim_and_send, admit, bind_and_admit, deliver, saturating_add,
  identity,
}
use divine_push_service.Campaign.Deliver.Capped.{IsCapped, push-ledgers, deliver-IsCapped}

module _ (R : SortedSets) (S : MemberSets) (F : Formats) (G : Format) (settings : CampaignSettings)
    (A : Attempt) (delivery : PendingDelivery) where
  open R use {zscore}

  -- The answer of the recipient's budget, of the keys as the reservation finds them.
  abbrev pub decision : String → ℕ → World R S → BudgetDecision
  decision recipient generation w =
      (reserve_budget_for_generation R settings.delivery (identity R S F G settings A delivery)
        (some generation) A.reserve_at (budgets_at R S recipient w)).0

  -- The recipient's ledger counts the delivery as a send of the time of its validation.
  abbrev pub IsCounted : String → World R S → Type 0
  IsCounted recipient w =
      zscore (w.nonurgent_ledger recipient).sends.value (identity R S F G settings A delivery)
      ≡ some A.validate_at

  validated-stamped :
      (generation : ℕ) (b : Budgets R)
      → let checked =
          validate_reservation R settings.delivery
            (identity R S F G settings A delivery)
            (some generation)
            A.validate_at
            b in
        checked.0 ≡ true
        → zscore checked.1.nonurgent_ledger.sends.value (identity R S F G settings A delivery)
          ≡ some A.validate_at
  unfolding validate_reservation
  validated-stamped generation b valid =
      let q : Request = record {
        identity = identity R S F G settings A delivery;
        generation = some generation;
        class = nonurgent;
      } in
      validate-stamped R settings.delivery q A.validate_at (books_of R nonurgent b) valid

  validate-IsCounted :
      (recipient : String) (generation : ℕ) (tokens : List String) (w : World R S)
      → let d = validate_and_push R S F G settings A delivery recipient generation tokens w in
        (d.batch ≡ none) ⊎ IsCounted recipient d.world
  unfolding validate_and_push refuse with_budgets
  validate-IsCounted recipient generation tokens w =
      let checked =
        validate_reservation R settings.delivery (identity R S F G settings A delivery)
          (some generation) A.validate_at (budgets_at R S recipient w) in
      let w' = with_budgets R S recipient checked.1 w in
      ground (
        arith,
        eq_refl recipient,
        validated-stamped generation (budgets_at R S recipient w),
        ap (λ f. f recipient) (push-ledgers R S F G settings A delivery recipient tokens w').0,
      )

  -- Nothing goes to the provider, or the budget allowed the delivery and counts it.
  abbrev IsPaid : String → ℕ → World R S → Done R S F G settings A delivery → Type 0
  IsPaid recipient generation w d =
      (d.batch ≡ none) ⊎ ((decision recipient generation w ≡ allowed) × IsCounted recipient d.world)

  reserve-IsPaid :
      (recipient : String) (generation : ℕ) (tokens : List String) (w : World R S)
      → IsPaid recipient generation w
          (reserve_and_push R S F G settings A delivery recipient generation tokens w)
  unfolding reserve_and_push refuse
  reserve-IsPaid recipient generation tokens w =
      let reserved =
        reserve_budget_for_generation R settings.delivery (identity R S F G settings A delivery)
          (some generation) A.reserve_at (budgets_at R S recipient w) in
      ground (
        arith,
        validate-IsCounted recipient generation tokens (with_budgets R S recipient reserved.1 w),
      )

  send-IsPaid :
      (recipient : String) (generation : ℕ) (w : World R S)
      → IsPaid recipient generation w
          (send_to_devices R S F G settings A delivery recipient generation w)
  unfolding send_to_devices refuse refuse_chosen
  send-IsPaid recipient generation w =
      let tokens =
        (choose_tokens F settings A.now
          (get_tokens_with_timezone_offsets R S F.parsers A.lookup_now recipient w.devices)
          none_chosen).tokens in
      ground (arith, reserve-IsPaid recipient generation tokens w)

  claim-IsPaid :
      (recipient : String) (generation : ℕ) (w : World R S)
      → IsPaid recipient generation w
          (claim_and_send R S F G settings A delivery recipient generation w)
  unfolding claim_and_send refuse budgets_at
  claim-IsPaid recipient generation w =
      let claims =
        (claim_campaign_delivery A.claim_at (dedup_key delivery.idempotency_key) A.owner
          (max A.claim_ttl_secs 1) w.claims).1 in
      ground (arith, send-IsPaid recipient generation (record w { claims = claims }))

  -- The generation that the delivery is bound to, and the keys that binding it leaves.
  abbrev pub bound : String → World R S → ℕ × World R S
  bound recipient w =
      let (generation, account) =
        generation_for_work R A.bind_clock (identity R S F G settings A delivery)
          (saturating_add (remaining_lifetime F delivery.expires_at A.now) settings.dedup_ttl_secs)
          (account_of R S recipient w) in
      (generation, with_account R S recipient account w)

  bind-IsPaid :
      (recipient : String) (w : World R S)
      → IsPaid recipient
          (bound recipient w).0
          (bound recipient w).1
          (bind_and_admit R S F G settings A delivery recipient w)
  unfolding bind_and_admit admit refuse
  bind-IsPaid recipient w =
      let (generation, w') = bound recipient w in
      ground (arith, claim-IsPaid recipient generation w')

  -- A campaign delivery that reaches the provider is paid for: its recipient's budget allowed it for
  -- the generation that the delivery is bound to, the recipient's ledger counts it under the
  -- delivery's identity, and the sends of the recipient, with this one, are within the settings'
  -- hourly and daily bounds; if the sends of every account were within them before, and the delivery
  -- reserves no earlier and validates no earlier than it reserves.
  pub push_paid :
      (now : ℕ) (w : World R S)
      → now ≤ A.reserve_at
      → A.reserve_at ≤ A.validate_at
      → ((j : String) → IsCapped R S F G settings A delivery now j w)
      → is_some (deliver R S F G settings A delivery w).batch ≡ true
      → let w' = (deliver R S F G settings A delivery w).world in
        (recipient : String) × (F.from_str delivery.recipient_pubkey ≡ some recipient)
        × (decision recipient (bound recipient w).0 (bound recipient w).1 ≡ allowed)
        × IsCounted recipient w'
        × IsCapped R S F G settings A delivery A.validate_at recipient w'
  unfolding deliver refuse
  push_paid now w before after h sent = elim (Option-cases (F.from_str delivery.recipient_pubkey)) [
    | inl e ↦ ground arith
    | inr (recipient, e) ↦
        (let capped = deliver-IsCapped R S F G settings A delivery now w before after h recipient in
          (
            recipient,
            e,
            ground (arith, bind-IsPaid recipient w),
            ground (arith, bind-IsPaid recipient w),
            capped,
          ))
  ]
