-- ===== src/Push/Gates.antt =====
-- The way from a recipient's claim to the provider (src/event_handler.rs,
-- `send_notification_trigger_to_user`).
use divine_push_service.Prelude.{
  ℕ, ◌≡◌, ◌⊎◌, String, Bool, true, false, Option, none, some, List, arith, refl, inl, inr,
  Option-cases,
}
use divine_push_service.Redis.{SortedSets}
use divine_push_service.Redis.Members.{MemberSets}
use divine_push_service.Delivery.{reserve_budget_for_class, validate_reservation_for_class}
use divine_push_service.Preferences.{Format, NotificationType}
use divine_push_service.Claims.{RecipientEventClaim}
use divine_push_service.Devices.{Parsers}
use divine_push_service.World.{World, is_empty, budgets_at, with_budgets}
use divine_push_service.Campaign.Deliver.{is_allowed}
use divine_push_service.Coalesce.Groups.{ActorCounts}
use divine_push_service.Coalesce.Ingest.{
  Formats, CoalesceDecision, immediate, buffered, stale_visit,
}
use divine_push_service.Coalesce.Flush.{kept_tokens}
use divine_push_service.Events.{Event, Parsing, CoalesceTarget, coalesce_target}
use divine_push_service.Push.{
  DeliveryTrigger, PushSettings, PushCall, PushResult, ok, stopped, err, Writing, Shared, Pushed,
  end_with, request, release, push, suppress, refund, validate_and_push, reserve_and_push,
  tokens_at, recheck_tokens, compose, follow, ingest_event, ingest_and_push, coalesce_and_push,
  route_claimed,
}
use divine_push_service.Push.Stages.{is_retryable, trigger-cases}

decision-cases :
    (d : CoalesceDecision)
    → ((key : String) × ((group : String) × (d ≡ immediate group key)))
      ⊎ (((group : String) × (d ≡ buffered group)) ⊎ (d ≡ stale_visit))
decision-cases (immediate group key) = inl (key, (group, refl))
decision-cases (buffered group) = inr (inl (group, refl))
decision-cases stale_visit = inr (inr refl)

module _ (R : SortedSets) (S : MemberSets) (L : ActorCounts) (D : Parsers) (P : Parsing)
    (W : Writing) (F : Formats) (G : Format) (settings : PushSettings) (C : PushCall)
    (trigger : DeliveryTrigger) (recipient : String) (notification_type : NotificationType) where
  abbrev pub reserved_at : ℕ → World R S → World R S
  reserved_at generation w =
      with_budgets R S recipient
        (reserve_budget_for_class R settings.delivery
          (request R S L D P W F G settings C trigger recipient notification_type generation)
          C.reserve_at (budgets_at R S recipient w)).1
        w

  -- The keys of the accounts once the budget is reserved and the reservation validated.
  abbrev pub charged : ℕ → World R S → World R S
  charged generation w =
      let w' = reserved_at generation w in
      with_budgets R S recipient
        (validate_reservation_for_class R settings.delivery
          (request R S L D P W F G settings C trigger recipient notification_type generation)
          C.validate_at (budgets_at R S recipient w')).1
        w'

  -- What the gates after the claim let through: the devices that are still awake, with a budget
  -- that is reserved and validated.
  abbrev pub IsCleared : ℕ → (tokens kept : List String) → World R S → Type 0
  IsCleared generation tokens kept w =
      (kept
        ≡ kept_tokens
            (tokens_at R S L D P W F G settings C trigger recipient notification_type C.recheck_now
              w)
            tokens)
      × (is_empty kept ≡ false)
      × (is_allowed
            (reserve_budget_for_class R settings.delivery
              (request R S L D P W F G settings C trigger recipient notification_type generation)
              C.reserve_at (budgets_at R S recipient w)).0
          ≡ true)
      × ((validate_reservation_for_class R settings.delivery
            (request R S L D P W F G settings C trigger recipient notification_type generation)
            C.validate_at (budgets_at R S recipient (reserved_at generation w))).0
          ≡ true)

  module _ (Q : Pushed R S L → Bool)
      (early : (r : PushResult)
        → is_retryable r ≡ false
        → (s : Shared R S L) → Q (end_with R S L r s) ≡ true)
      (generation : ℕ) (tokens : List String) (type : NotificationType)
      (claim : RecipientEventClaim) (w : World R S)
      (pushed : (key : Option String) (kept : List String) (s : Shared R S L)
        → IsCleared generation tokens kept w
        → s.world ≡ charged generation w
        → Q (
            push R S L D P W F G settings C trigger recipient notification_type type claim key kept
              s)
          ≡ true) where
    suppressed :
        (key : Option String) (s : Shared R S L)
        → Q (suppress R S L D P W F G settings C trigger recipient notification_type key s) ≡ true
    unfolding suppress
    suppressed key s = ground (
      arith,
      early ok refl s,
      early err refl s,
      early ok refl (refund R S L D P W F G settings C trigger recipient notification_type s),
    )

    composed :
        (key : Option String) (s : Shared R S L)
        → s.world ≡ w
        → Q (
            compose R S L D P W F G settings C trigger recipient notification_type generation tokens
              type claim key s)
          ≡ true
    unfolding compose recheck_tokens reserve_and_push validate_and_push
    composed key s same =
        let kept =
          kept_tokens
            (tokens_at R S L D P W F G settings C trigger recipient notification_type C.recheck_now
              s.world)
            tokens in
        let reserved : Shared R S L = record s { world = reserved_at generation s.world } in
        let validated : Shared R S L = record s { world = charged generation s.world } in
        ground (
          arith,
          same,
          early stopped refl
              (release R S L D P W F G settings C trigger recipient notification_type claim s),
          early err refl
              (release R S L D P W F G settings C trigger recipient notification_type claim s),
          early err refl (
              release R S L D P W F G settings C trigger recipient notification_type claim
                reserved),
          suppressed key s,
          suppressed key reserved,
          suppressed key validated,
          pushed key kept validated,
        )

    ingested :
        (event : Event) (target : CoalesceTarget) (s : Shared R S L)
        → s.world ≡ w
        → Q (
            ingest_and_push R S L D P W F G settings C trigger recipient notification_type
              generation tokens type claim event target s)
          ≡ true
    unfolding ingest_and_push follow ingest_event
    ingested event target s same =
        let s' =
          (ingest_event R S L D P W F G settings C trigger recipient notification_type generation
            event type target s).1 in
        elim (decision-cases
          (ingest_event R S L D P W F G settings C trigger recipient notification_type generation
            event type target s).0) [
              | inl (key, (group, e)) ↦ ground (
                arith,
                e,
                early err refl (
                    release R S L D P W F G settings C trigger recipient notification_type claim s),
                composed (some key) s' same,
              )
              | inr (inl (group, e)) ↦ ground (
                arith,
                e,
                early err refl (
                    release R S L D P W F G settings C trigger recipient notification_type claim s),
                early ok refl s',
              )
              | inr (inr e) ↦ ground (
                arith,
                e,
                early err refl (
                    release R S L D P W F G settings C trigger recipient notification_type claim s),
                early ok refl s',
              )
            ]

    coalesced :
        (event : Event) (s : Shared R S L)
        → s.world ≡ w
        → Q (
            coalesce_and_push R S L D P W F G settings C trigger recipient notification_type
              generation tokens type claim event s)
          ≡ true
    unfolding coalesce_and_push
    coalesced event s same = elim (Option-cases (coalesce_target P event)) [
      | inl e ↦ ground (arith, e, early ok refl s, composed none s same)
      | inr (target, e) ↦ ground (arith, e, ingested event target s same)
    ]

    pub claimed_sent :
        (s : Shared R S L)
        → s.world ≡ w
        → Q (
            route_claimed R S L D P W F G settings C trigger recipient notification_type generation
              tokens type claim s)
          ≡ true
    unfolding route_claimed
    claimed_sent s same = elim (trigger-cases trigger) [
      | inl (event, e) ↦ ground (arith, e, coalesced event s same, composed none s same)
      | inr (id, e) ↦ ground (arith, e, composed none s same)
    ]
