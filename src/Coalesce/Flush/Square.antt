-- ===== src/Coalesce/Flush/Square.antt =====
-- From the spend of a token on, a flush that delivers nothing refunds it (src/coalesce.rs).
use divine_push_service.Prelude.{
  ◌/◌, ◌≡◌, String, true, false, some, List, arith, max, inl, inr, Option-cases, Bool-cases, refl,
}
use divine_push_service.Redis.{SortedSets}
use divine_push_service.Redis.Members.{MemberSets}
use divine_push_service.Budget.{
  BudgetDecision, allowed, active, stale_visit, allowance_exhausted, cooldown, capped,
}
use divine_push_service.Delivery.{reserve_budget_for_generation, validate_reservation}
use divine_push_service.Preferences.{Format}
use divine_push_service.Devices.{Parsers}
use divine_push_service.Payload.{FcmPayload}
use divine_push_service.Provider.{SendResult, delivered_tokens}
use divine_push_service.World.{is_empty, budgets_at, with_budgets}
use divine_push_service.Coalesce.Groups.{ActorCounts}
use divine_push_service.Coalesce.Queue.{GroupClaim}
use divine_push_service.Coalesce.Summary.{Names, GroupSnapshot}
use divine_push_service.Coalesce.Flush.{
  FlushSettings, FlushCall, sent, retry_queued, throttled, suppressed, is_digest, Outbox, finish,
  drop_expired_group, requeue_or_expire, refund, refunded, return_undelivered, settle, push,
  validate_and_push, check_expiry, recheck_tokens, follow, reserve_and_push, kept_tokens, tokens_at,
  summary_payload, remove_unregistered, refresh_delivered, retryable_failure, failures, fail,
  identity,
}
use divine_push_service.Coalesce.Flush.Charge.{
  IsUncharged, KeepsAllowances, IsOnlyCharged, IsSquare, emission, finish-keeps, drop-keeps,
  requeue-keeps, refund-IsUncharged, refunded-IsSquare,
}

module _ (R : SortedSets) (S : MemberSets) (L : ActorCounts) (P : Parsers) (N : Names) (G : Format)
    (settings : FlushSettings) (C : FlushCall) (claim : GroupClaim) where
  module _ (given : C.refund_fails ≡ false) (read : C.expiry_fails ≡ false)
      (snapshot : GroupSnapshot) (j : String) where
    return-keeps :
        (outcomes : List (String × SendResult)) (o : Outbox R S L P N G settings C claim)
        → KeepsAllowances R S L P N G settings C claim o
            (return_undelivered R S L P N G settings C claim snapshot outcomes o)
    unfolding return_undelivered
    return-keeps outcomes o = elim (Option-cases (retryable_failure outcomes)) [
      | inl h ↦ ground (
        arith,
        finish-keeps R S L P N G settings C claim (sent 0 (failures outcomes) snapshot.actor_count)
            o,
      )
      | inr (delay, h) ↦ ground (
        arith,
        requeue-keeps R S L P N G settings C claim retry_queued
            (max (delay / 1000000000) settings.coalesce_retry_secs) o,
      )
    ]

    settle-IsUncharged :
        (owner : String) (outcomes : List (String × SendResult))
        (o : Outbox R S L P N G settings C claim)
        → IsOnlyCharged R S L P N G settings C claim snapshot j o.store
        → is_empty (delivered_tokens outcomes) ≡ true
        → IsUncharged R S L P N G settings C claim j
            (settle R S L P N G settings C claim snapshot owner outcomes o).outbox.store
    unfolding settle
    settle-IsUncharged owner outcomes o only none_took =
        let delivered = delivered_tokens outcomes in
        let w =
          remove_unregistered R S L P N G settings C claim owner outcomes
            (refresh_delivered R S L P N G settings C claim delivered o.world) in
        let o' : Outbox R S L P N G settings C claim = record o { world = w } in
        elim (Bool-cases (is_digest snapshot)) [
          | inl d ↦
              ground
                (arith, only, emission R S L P N G settings C claim j (return-keeps outcomes o'))
          | inr d ↦
              (let o'' = refund R S L P N G settings C claim snapshot.owner o' in
                ground (
                  arith,
                  refund-IsUncharged R S L P N G settings C claim snapshot j o' d only,
                  emission R S L P N G settings C claim j (return-keeps outcomes o''),
                ))
        ]

    push-IsSquare :
        (owner : String) (tokens : List String) (payload : FcmPayload)
        (o : Outbox R S L P N G settings C claim)
        → IsOnlyCharged R S L P N G settings C claim snapshot j o.store
        → IsSquare R S L P N G settings C claim j
            (push R S L P N G settings C claim snapshot owner tokens payload o)
    unfolding push
    push-IsSquare owner tokens payload o only ended =
        settle-IsUncharged owner (C.send tokens payload) o only ended

    validate-IsSquare :
        (owner : String) (tokens : List String) (payload : FcmPayload)
        (o : Outbox R S L P N G settings C claim)
        → IsOnlyCharged R S L P N G settings C claim snapshot j o.store
        → IsSquare R S L P N G settings C claim j
            (validate_and_push R S L P N G settings C claim snapshot owner tokens payload o)
    unfolding validate_and_push
    validate-IsSquare owner tokens payload o only ended =
        let checked =
          validate_reservation R settings.delivery (identity R S L P N G settings C claim)
            (some snapshot.generation) C.validate_at (budgets_at R S owner o.world) in
        let o' : Outbox R S L P N G settings C claim = record o {
          world = with_budgets R S owner checked.1 o.world;
        } in
        ground (
          arith,
          refunded-IsSquare R S L P N G settings C claim given snapshot j o
              (fail R S L P N G settings C claim) (λ x. refl) only,
          refunded-IsSquare R S L P N G settings C claim given snapshot j o'
              (finish R S L P N G settings C claim (suppressed "activity_changed"))
              (finish-keeps R S L P N G settings C claim (suppressed "activity_changed")) only,
          push-IsSquare owner tokens payload o' only,
        )

    expiry-IsSquare :
        (owner : String) (tokens : List String) (payload : FcmPayload)
        (o : Outbox R S L P N G settings C claim)
        → IsOnlyCharged R S L P N G settings C claim snapshot j o.store
        → IsSquare R S L P N G settings C claim j
            (check_expiry R S L P N G settings C claim snapshot owner tokens payload o)
    unfolding check_expiry
    expiry-IsSquare owner tokens payload o only ended = ground (
      arith,
      refunded-IsSquare R S L P N G settings C claim given snapshot j o
          (drop_expired_group R S L P N G settings C claim)
          (drop-keeps R S L P N G settings C claim) only,
      validate-IsSquare owner tokens payload o only,
    )

    recheck-IsSquare :
        (owner : String) (tokens : List String) (payload : FcmPayload)
        (o : Outbox R S L P N G settings C claim)
        → IsOnlyCharged R S L P N G settings C claim snapshot j o.store
        → IsSquare R S L P N G settings C claim j
            (recheck_tokens R S L P N G settings C claim snapshot owner tokens payload o)
    unfolding recheck_tokens
    recheck-IsSquare owner tokens payload o only ended =
        let kept =
          kept_tokens (tokens_at R S L P N G settings C claim C.recheck_now owner o.world) tokens in
        ground (
          arith,
          refunded-IsSquare R S L P N G settings C claim given snapshot j o
              (fail R S L P N G settings C claim) (λ x. refl) only,
          refunded-IsSquare R S L P N G settings C claim given snapshot j o
              (finish R S L P N G settings C claim (suppressed "quiet_hours"))
              (finish-keeps R S L P N G settings C claim (suppressed "quiet_hours")) only,
          expiry-IsSquare owner kept payload o only,
        )

    refused-IsSquare :
        (reason : String) (o : Outbox R S L P N G settings C claim)
        → IsOnlyCharged R S L P N G settings C claim snapshot j o.store
        → IsSquare R S L P N G settings C claim j (
            refunded R S L P N G settings C claim snapshot o
              (finish R S L P N G settings C claim (suppressed reason)))
    refused-IsSquare reason o only =
        refunded-IsSquare R S L P N G settings C claim given snapshot j o
          (finish R S L P N G settings C claim (suppressed reason))
          (finish-keeps R S L P N G settings C claim (suppressed reason)) only

    follow-IsSquare :
        (owner : String) (tokens : List String) (decision : BudgetDecision)
        (o : Outbox R S L P N G settings C claim)
        → IsOnlyCharged R S L P N G settings C claim snapshot j o.store
        → IsSquare R S L P N G settings C claim j
            (follow R S L P N G settings C claim snapshot owner tokens decision o)
    unfolding follow
    follow-IsSquare owner tokens allowed o only =
        recheck-IsSquare owner tokens (summary_payload R S L P N G settings C claim snapshot owner)
          o only
    follow-IsSquare owner tokens (cooldown secs) o only =
        refunded-IsSquare R S L P N G settings C claim given snapshot j o
          (requeue_or_expire R S L P N G settings C claim throttled secs)
          (requeue-keeps R S L P N G settings C claim throttled secs) only
    follow-IsSquare owner tokens active o only = refused-IsSquare "active" o only
    follow-IsSquare owner tokens stale_visit o only = refused-IsSquare "stale_visit" o only
    follow-IsSquare owner tokens allowance_exhausted o only =
        refused-IsSquare "allowance_exhausted" o only
    follow-IsSquare owner tokens capped o only = refused-IsSquare "frequency_capped" o only

    pub reserve-IsSquare :
        (owner : String) (tokens : List String) (o : Outbox R S L P N G settings C claim)
        → IsOnlyCharged R S L P N G settings C claim snapshot j o.store
        → IsSquare R S L P N G settings C claim j
            (reserve_and_push R S L P N G settings C claim snapshot owner tokens o)
    unfolding reserve_and_push
    reserve-IsSquare owner tokens o only ended =
        let reserved =
          reserve_budget_for_generation R settings.delivery (identity R S L P N G settings C claim)
            (some snapshot.generation) C.reserve_at (budgets_at R S owner o.world) in
        let o' : Outbox R S L P N G settings C claim = record o {
          world = with_budgets R S owner reserved.1 o.world;
        } in
        ground (
          arith,
          refunded-IsSquare R S L P N G settings C claim given snapshot j o
              (fail R S L P N G settings C claim) (λ x. refl) only,
          follow-IsSquare owner tokens reserved.0 o' only,
        )
