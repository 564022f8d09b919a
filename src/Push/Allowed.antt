-- ===== src/Push/Allowed.antt =====
-- What reaches the provider (src/event_handler.rs, `send_notification_trigger_to_user`).
use divine_push_service.Prelude.{
  ℕ, ◌≡◌, ◌&&◌, ◌||◌, String, Bool, true, false, not, Option, none, some, List, [], ◌∷◌, arith,
  eq_iff, refl, Option-cases, inl, inr,
}
use divine_push_service.Redis.{SortedSets}
use divine_push_service.Redis.Members.{MemberSets, contains}
use divine_push_service.Preferences.{Format, NotificationType, get_user_preferences, is_enabled}
use divine_push_service.Claims.{RecipientEventClaim, try_claim_recipient_event}
use divine_push_service.Devices.{Parsers}
use divine_push_service.Payload.{FcmPayload}
use divine_push_service.World.{with_account}
use divine_push_service.Campaign.Deliver.{is_permitted}
use divine_push_service.Coalesce.Groups.{ActorCounts}
use divine_push_service.Coalesce.Ingest.{Formats}
use divine_push_service.Coalesce.Flush.{kept_tokens}
use divine_push_service.Events.{Parsing}
use divine_push_service.Push.{
  DeliveryTrigger, nostr_event, event_id, PushSettings, PushCall, Writing, Shared, Pushed, push,
  tokens_at, claim_and_push, delivery_type, can_fall_back_to_bell, is_expired,
  send_notification_trigger_to_user,
}
use divine_push_service.Push.Stages.{IsAdmitted, bound, trigger_sent}
use divine_push_service.Push.Gates.{claimed_sent}

contains-kept_tokens :
    (awake tokens : List String) (j : String)
    → contains (kept_tokens awake tokens) j ≡ (contains tokens j && contains awake j)
unfolding kept_tokens
contains-kept_tokens awake [] j = refl
contains-kept_tokens awake (token ∷ tokens) j =
    ground (arith, eq_iff token j, contains-kept_tokens awake tokens j)

module _ (R : SortedSets) (S : MemberSets) (L : ActorCounts) (D : Parsers) (P : Parsing)
    (W : Writing) (F : Formats) (G : Format) (settings : PushSettings) (C : PushCall)
    (trigger : DeliveryTrigger) (recipient : String) (notification_type : NotificationType) where
  abbrev is_wanted : Shared R S L → Bool
  is_wanted s =
      let prefs = get_user_preferences G recipient settings.default_preferences s.world.keys in
      is_enabled notification_type prefs
      || can_fall_back_to_bell R S L D P W F G settings C trigger recipient notification_type prefs
          s

  module _ (s : Shared R S L) (j : String) where
    abbrev is_reachable : Bool
    is_reachable =
        contains
          (tokens_at R S L D P W F G settings C trigger recipient notification_type C.lookup_now
            s.world)
          j
        && contains
            (tokens_at R S L D P W F G settings C trigger recipient notification_type C.recheck_now
              s.world)
            j

    abbrev is_fit : Pushed R S L → Bool
    is_fit d = elim d.batch [
      | none ↦ true
      | some b ↦
          (not (contains b.0 j) || is_reachable)
          && ((is_permitted settings.allowed_pubkeys recipient
                && not (
                    is_expired R S L D P W F G settings C trigger recipient notification_type
                      (nostr_event trigger)))
              && is_wanted s)
    ]

    push-is_fit :
        (tokens kept : List String) (type : NotificationType) (claim : RecipientEventClaim)
        (key : Option String) (s' : Shared R S L)
        → IsAdmitted R S L D P W F G settings C trigger recipient notification_type tokens type
            (bound R S L D P W F G settings C trigger recipient notification_type s)
        → kept
          ≡ kept_tokens
              (tokens_at R S L D P W F G settings C trigger recipient notification_type
                C.recheck_now s.world)
              tokens
        → is_fit (
            push R S L D P W F G settings C trigger recipient notification_type type claim key kept
              s')
          ≡ true
    unfolding push delivery_type can_fall_back_to_bell with_account tokens_at
    push-is_fit tokens kept type claim key s' admitted e = ground (
      arith,
      admitted,
      e,
      contains-kept_tokens
          (tokens_at R S L D P W F G settings C trigger recipient notification_type C.recheck_now
            s.world)
          tokens j,
    )

    claim-is_fit :
        (generation : ℕ) (tokens : List String) (type : NotificationType)
        → IsAdmitted R S L D P W F G settings C trigger recipient notification_type tokens type
            (bound R S L D P W F G settings C trigger recipient notification_type s)
        → is_fit (
            claim_and_push R S L D P W F G settings C trigger recipient notification_type generation
              tokens type
              (bound R S L D P W F G settings C trigger recipient notification_type s))
          ≡ true
    unfolding claim_and_push with_account tokens_at
    claim-is_fit generation tokens type admitted =
        let b = bound R S L D P W F G settings C trigger recipient notification_type s in
        let claims =
          (try_claim_recipient_event C.claim_at (event_id trigger) recipient C.claim_value
            settings.processed_event_ttl_secs b.world.claims).1 in
        let s' : Shared R S L = record b { world = record b.world { claims = claims } } in
        elim (Option-cases
          (try_claim_recipient_event C.claim_at (event_id trigger) recipient C.claim_value
            settings.processed_event_ttl_secs b.world.claims).0) [
              | inl e ↦ ground (arith, e)
              | inr (claim, e) ↦ ground (
                arith,
                e,
                claimed_sent R S L D P W F G settings C trigger recipient notification_type is_fit
                    (λ r e s. refl) generation tokens type claim s'.world
                    (λ key kept s'' cleared same.
                      push-is_fit tokens kept type claim key s'' admitted cleared.0)
                    s' refl,
              )
            ]

  -- A device that a batch for the provider names was awake at both lookups of the recipient's
  -- devices; the recipient is permitted, the event is not past the greatest age, and the recipient's
  -- preferences enable the notification's type, or for a muted mention in a video the bell that the
  -- recipient watches the author by.
  pub pushed_allowed :
      (s : Shared R S L) (tokens : List String) (payload : FcmPayload) (j : String)
      → (send_notification_trigger_to_user R S L D P W F G settings C trigger recipient
          notification_type s).batch
        ≡ some (tokens, payload)
      → contains tokens j ≡ true
      → let prefs = get_user_preferences G recipient settings.default_preferences s.world.keys in
        (contains
            (tokens_at R S L D P W F G settings C trigger recipient notification_type C.lookup_now
              s.world)
            j
          ≡ true)
        × (contains
              (tokens_at R S L D P W F G settings C trigger recipient notification_type
                C.recheck_now s.world)
              j
            ≡ true)
        × (is_permitted settings.allowed_pubkeys recipient ≡ true)
        × (is_expired R S L D P W F G settings C trigger recipient notification_type
              (nostr_event trigger)
            ≡ false)
        × ((is_enabled notification_type prefs
              || can_fall_back_to_bell R S L D P W F G settings C trigger recipient
                  notification_type prefs s)
            ≡ true)
  pushed_allowed s tokens payload j sent named = ground (
    arith,
    sent,
    named,
    trigger_sent R S L D P W F G settings C trigger recipient notification_type (is_fit s j)
        (λ r e s. refl) s (claim-is_fit s j),
  )
