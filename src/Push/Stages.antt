-- ===== src/Push/Stages.antt =====
-- The ways through a delivery (src/event_handler.rs, `send_notification_trigger_to_user`): what holds
-- of every early end, and of what follows the last gate, holds of the whole.
use divine_push_service.Prelude.{
  ℕ, ◌≡◌, String, Bool, true, false, ◌⊎◌, some, List, refl, arith, inl, inr, Option-cases,
}
use divine_push_service.Redis.{SortedSets}
use divine_push_service.Redis.Members.{MemberSets}
use divine_push_service.Activity.{generation_for_work}
use divine_push_service.Preferences.{Format, NotificationType, get_user_preferences}
use divine_push_service.Devices.{Parsers}
use divine_push_service.World.{account_of, with_account}
use divine_push_service.Campaign.Deliver.{is_permitted}
use divine_push_service.Coalesce.Groups.{ActorCounts}
use divine_push_service.Coalesce.Ingest.{Formats}
use divine_push_service.Events.{Event, Parsing}
use divine_push_service.Push.{
  DeliveryTrigger, nostr, wrapped_message, nostr_event, PushSettings, PushCall, PushResult, ok,
  stopped, err, retryable, Writing, retention_secs, Shared, Pushed, end_with, record_video_claims,
  identity, tokens_at, delivery_type, is_expired, claim_and_push, check_rate, check_legacy_claim,
  check_video_claim, check_history, check_preferences, find_tokens, bind_and_push,
  send_notification_trigger_to_user,
}

abbrev pub is_retryable : PushResult → Bool
is_retryable (retryable delay) = true
is_retryable ok = false
is_retryable stopped = false
is_retryable err = false

pub trigger-cases :
    (t : DeliveryTrigger)
    → ((event : Event) × (t ≡ nostr event)) ⊎ ((id : String) × (t ≡ wrapped_message id))
trigger-cases (nostr event) = inl (event, refl)
trigger-cases (wrapped_message id) = inr (id, refl)

module _ (R : SortedSets) (S : MemberSets) (L : ActorCounts) (D : Parsers) (P : Parsing)
    (W : Writing) (F : Formats) (G : Format) (settings : PushSettings) (C : PushCall)
    (trigger : DeliveryTrigger) (recipient : String) (notification_type : NotificationType) where
  -- What the gates before the claim let through.
  abbrev pub IsAdmitted : List String → NotificationType → Shared R S L → Type 0
  IsAdmitted tokens type s =
      (tokens
        ≡ tokens_at R S L D P W F G settings C trigger recipient notification_type C.lookup_now
            s.world)
      × (delivery_type R S L D P W F G settings C trigger recipient notification_type
            (get_user_preferences G recipient settings.default_preferences s.world.keys) s
          ≡ some type)
      × (is_permitted settings.allowed_pubkeys recipient ≡ true)
      × (is_expired R S L D P W F G settings C trigger recipient notification_type
            (nostr_event trigger)
          ≡ false)

  -- The keys once the identity is bound to a visit.
  abbrev pub bound : Shared R S L → Shared R S L
  bound s = record s {
    world =
        with_account R S recipient
          (generation_for_work R C.bind_clock
            (identity R S L D P W F G settings C trigger recipient notification_type)
            (retention_secs settings trigger) (account_of R S recipient s.world)).1
          s.world;
  }

  module _ (Q : Pushed R S L → Bool)
      (early : (r : PushResult)
        → is_retryable r ≡ false
        → (s : Shared R S L) → Q (end_with R S L r s) ≡ true) where
    rate_checked :
        (generation : ℕ) (tokens : List String) (type : NotificationType) (event : Event)
        (s : Shared R S L)
        → Q (
            claim_and_push R S L D P W F G settings C trigger recipient notification_type generation
              tokens type s)
          ≡ true
        → Q (
            check_rate R S L D P W F G settings C trigger recipient notification_type generation
              tokens type event s)
          ≡ true
    unfolding check_rate
    rate_checked generation tokens type event s q = ground (
      arith,
      early stopped refl s,
      early err refl s,
      early ok refl (
          record_video_claims R S L D P W F G settings C trigger recipient notification_type
            (some event) type s),
    )

    video_checked :
        (generation : ℕ) (tokens : List String) (type : NotificationType) (event : Event)
        (s : Shared R S L)
        → Q (
            claim_and_push R S L D P W F G settings C trigger recipient notification_type generation
              tokens type s)
          ≡ true
        → Q (
            check_video_claim R S L D P W F G settings C trigger recipient notification_type
              generation tokens type event s)
          ≡ true
    unfolding check_video_claim check_legacy_claim
    video_checked generation tokens type event s q = ground (
      arith,
      early ok refl s,
      early stopped refl s,
      early err refl s,
      rate_checked generation tokens type event s q,
    )

    history_checked :
        (generation : ℕ) (tokens : List String) (type : NotificationType) (s : Shared R S L)
        → Q (
            claim_and_push R S L D P W F G settings C trigger recipient notification_type generation
              tokens type s)
          ≡ true
        → Q (
            check_history R S L D P W F G settings C trigger recipient notification_type generation
              tokens type s)
          ≡ true
    unfolding check_history
    history_checked generation tokens type s q = elim (trigger-cases trigger) [
      | inl (event, e) ↦ ground (
        arith,
        e,
        rate_checked generation tokens type event s q,
        video_checked generation tokens type event s q,
      )
      | inr (id, e) ↦ ground (arith, e)
    ]

    module _ (s : Shared R S L)
        (checked : (generation : ℕ) (tokens : List String) (type : NotificationType)
          → IsAdmitted tokens type (bound s)
          → Q (
              check_history R S L D P W F G settings C trigger recipient notification_type
                generation tokens type
                (bound s))
            ≡ true) where
      tokens_found :
          (generation : ℕ)
          → is_permitted settings.allowed_pubkeys recipient ≡ true
          → is_expired R S L D P W F G settings C trigger recipient notification_type
              (nostr_event trigger)
            ≡ false
          → Q (
              find_tokens R S L D P W F G settings C trigger recipient notification_type generation
                (bound s))
            ≡ true
      unfolding find_tokens check_preferences
      tokens_found generation permitted fresh =
          let tokens =
            tokens_at R S L D P W F G settings C trigger recipient notification_type C.lookup_now
              (bound s).world in
          let prefs =
            get_user_preferences G recipient settings.default_preferences (bound s).world.keys in
          elim (Option-cases (
            delivery_type R S L D P W F G settings C trigger recipient notification_type prefs
              (bound s))) [
                | inl e ↦ ground (
                  arith,
                  e,
                  early ok refl (bound s),
                  early stopped refl (bound s),
                  early err refl (bound s),
                )
                | inr (type, e) ↦ ground (
                  arith,
                  e,
                  early ok refl (bound s),
                  early stopped refl (bound s),
                  early err refl (bound s),
                  checked generation tokens type (refl, e, permitted, fresh),
                )
              ]

      pub history_sent :
          Q (
            send_notification_trigger_to_user R S L D P W F G settings C trigger recipient
              notification_type s)
          ≡ true
      unfolding send_notification_trigger_to_user bind_and_push
      history_sent =
          let work =
            generation_for_work R C.bind_clock
              (identity R S L D P W F G settings C trigger recipient notification_type)
              (retention_secs settings trigger) (account_of R S recipient s.world) in
          ground (arith, early ok refl s, early err refl s, tokens_found work.0)

    pub trigger_sent :
        (s : Shared R S L)
        → ((generation : ℕ) (tokens : List String) (type : NotificationType)
            → IsAdmitted tokens type (bound s)
            → Q (
                claim_and_push R S L D P W F G settings C trigger recipient notification_type
                  generation tokens type
                  (bound s))
              ≡ true)
        → Q (
            send_notification_trigger_to_user R S L D P W F G settings C trigger recipient
              notification_type s)
          ≡ true
    trigger_sent s claimed = history_sent s (λ generation tokens type admitted.
        history_checked generation tokens type (bound s) (claimed generation tokens type admitted))
