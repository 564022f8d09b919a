-- ===== src/Push/Once.antt =====
-- A recipient is told of an event once (src/event_handler.rs, `send_notification_trigger_to_user`;
-- src/redis_store.rs, `try_claim_recipient_event`).
use Prim.Native.String.{◌++◌}
use divine_push_service.Prelude.{
  ℕ, ◌+◌, ◌<◌, ◌≡◌, ◌&&◌, ◌||◌, leb, String, Bool, true, false, not, Option, none, some, List, [],
  ◌∷◌, arith, refl, is_some, if◌then◌else◌, eq_refl, ◌==◌, Option-cases, Bool-cases, inl, inr,
}
use divine_push_service.Redis.{SortedSets, Key}
use divine_push_service.Redis.Members.{MemberSets}
use divine_push_service.Preferences.{Format, NotificationType}
use divine_push_service.Claims.{
  ClaimKeys, RecipientEventClaim, try_claim_recipient_event, release_recipient_event_claim,
}
use divine_push_service.Devices.{Parsers}
use divine_push_service.Provider.{SendResult, delivered_tokens}
use divine_push_service.World.{World, with_budgets, with_account}
use divine_push_service.Coalesce.Groups.{ActorCounts}
use divine_push_service.Coalesce.Ingest.{Formats}
use divine_push_service.Events.{Event, Parsing}
use divine_push_service.Push.{
  DeliveryTrigger, event_id, PushSettings, PushCall, PushResult, Writing, tokens_to_remove, Shared,
  Pushed, release, conclude, remove_invalid, remove, record_claim, video_recipient_claim_key,
  record_claims, record_video_claims, open_rate_window, refresh_delivered, note_delivered, settle,
  payload_of, push, claim_and_push, send_notification_trigger_to_user, satisfied_video_claims,
}
use divine_push_service.Push.Stages.{is_retryable, trigger_sent, bound, trigger-cases}
use divine_push_service.Push.Gates.{claimed_sent, charged}

-- The key of a recipient's claim.
abbrev pub recipient_key : String → String → String
recipient_key id recipient = "dedup:" ++ id ++ ":" ++ recipient

-- What holds a key until `t`.
abbrev pub is_held_until : ℕ → Key (Option String) → Bool
is_held_until t k = is_some k.value && (elim k.expires_at [ none ↦ false | some e ↦ e == t ])

module _ (R : SortedSets) (S : MemberSets) (L : ActorCounts) (D : Parsers) (P : Parsing)
    (W : Writing) (F : Formats) (G : Format) (settings : PushSettings) (C : PushCall)
    (trigger : DeliveryTrigger) (recipient : String) (notification_type : NotificationType) where
  abbrev claims_of : Shared R S L → ClaimKeys
  claims_of s = s.world.claims

  -- What becomes of the claims once the provider has answered.
  abbrev ended : RecipientEventClaim → PushResult → ClaimKeys → ClaimKeys
  ended claim result claims =
      if is_retryable result
      then (release_recipient_event_claim C.release_at claim claims).1
      else claims

  record-claims :
      (event : Event) (types : List NotificationType) (s : Shared R S L)
      → claims_of (
          record_claims R S L D P W F G settings C trigger recipient notification_type event types
            s)
        ≡ claims_of s
  unfolding record_claims record_claim
  record-claims event [] s = refl
  record-claims event (type ∷ types) s =
      elim (Option-cases (video_recipient_claim_key W event recipient type)) [
        | inl e ↦ ground (arith, e)
        | inr (key, e) ↦ ground (
          arith,
          e,
          record-claims event types (
              record_claim R S L D P W F G settings C trigger recipient notification_type
                ("dedup:" ++ key) s),
        )
      ]

  remove-claims :
      (tokens : List String) (s : Shared R S L)
      → claims_of
          (remove_invalid R S L D P W F G settings C trigger recipient notification_type tokens s).1
        ≡ claims_of s
  unfolding remove_invalid remove
  remove-claims [] s = refl
  remove-claims (token ∷ tokens) s = ground (
    arith,
    remove-claims tokens
        (remove R S L D P W F G settings C trigger recipient notification_type token s),
  )

  note-claims :
      (type : NotificationType) (outcomes : List (String × SendResult)) (s : Shared R S L)
      → claims_of (
          note_delivered R S L D P W F G settings C trigger recipient notification_type type
            outcomes s)
        ≡ claims_of s
  unfolding note_delivered record_video_claims open_rate_window refresh_delivered
  note-claims type outcomes s =
      let refreshed =
        refresh_delivered R S L D P W F G settings C trigger recipient notification_type
          (delivered_tokens outcomes) s in
      elim (trigger-cases trigger) [
        | inl (event, e) ↦
            let opened =
              open_rate_window R S L D P W F G settings C trigger recipient notification_type
                (some event) type refreshed in
            ground (arith, e, record-claims event (satisfied_video_claims type) opened)
        | inr (id, e) ↦ ground (arith, e)
      ]

  push-claims :
      (type : NotificationType) (claim : RecipientEventClaim) (key : Option String)
      (kept : List String) (s : Shared R S L)
      → let d =
          push R S L D P W F G settings C trigger recipient notification_type type claim key kept
            s in
        claims_of d.shared ≡ ended claim d.result (claims_of s)
  unfolding push settle conclude release
  push-claims type claim key kept s =
      let outcomes =
        C.send kept
          (payload_of R S L D P W F G settings C trigger recipient notification_type type key) in
      let noted =
        note_delivered R S L D P W F G settings C trigger recipient notification_type type outcomes
          s in
      ground (arith, note-claims type outcomes s, remove-claims (tokens_to_remove outcomes) noted)

  -- The claims once the recipient's key is taken.
  abbrev taken : ClaimKeys → ClaimKeys
  taken claims =
      (try_claim_recipient_event C.claim_at (event_id trigger) recipient C.claim_value
        settings.processed_event_ttl_secs claims).1

  abbrev own_claim : RecipientEventClaim
  own_claim = record { key = recipient_key (event_id trigger) recipient; value = C.claim_value }

  abbrev own_key : ClaimKeys → Key (Option String)
  own_key claims = claims (recipient_key (event_id trigger) recipient)

  -- What the claim is after a delivery that reached the provider.
  abbrev is_settled : Pushed R S L → Bool
  is_settled d =
      if not (is_some d.batch)
      then not (is_retryable d.result)
      else if is_retryable d.result
      then leb (C.claim_at + settings.processed_event_ttl_secs) C.release_at
        || not (is_some (own_key (claims_of d.shared)).value)
      else is_held_until (C.claim_at + settings.processed_event_ttl_secs)
          (own_key (claims_of d.shared))

  abbrev is_won : ClaimKeys → Bool
  is_won claims =
      is_some
        (try_claim_recipient_event C.claim_at (event_id trigger) recipient C.claim_value
          settings.processed_event_ttl_secs claims).0

  kept_claims :
      (generation : ℕ) (w : World R S)
      → (charged R S L D P W F G settings C trigger recipient notification_type generation w).claims
        ≡ w.claims
  unfolding with_budgets
  kept_claims generation w = refl

  push-is_settled :
      (type : NotificationType) (key : Option String) (kept : List String) (claims : ClaimKeys)
      (s : Shared R S L)
      → is_won claims ≡ true
      → claims_of s ≡ taken claims
      → is_settled (
          push R S L D P W F G settings C trigger recipient notification_type type own_claim key
            kept s)
        ≡ true
  unfolding push try_claim_recipient_event release_recipient_event_claim
  push-is_settled type key kept claims s won same = ground (
    arith,
    same,
    push-claims type own_claim key kept s,
    eq_refl (recipient_key (event_id trigger) recipient),
    eq_refl C.claim_value,
  )

  claim-is_settled :
      (generation : ℕ) (tokens : List String) (type : NotificationType) (s : Shared R S L)
      → is_settled (
          claim_and_push R S L D P W F G settings C trigger recipient notification_type generation
            tokens type s)
        ≡ true
  unfolding claim_and_push try_claim_recipient_event
  claim-is_settled generation tokens type s =
      let s' : Shared R S L = record s {
        world = record s.world { claims = taken (claims_of s) };
      } in
      elim (Bool-cases (is_won (claims_of s))) [
        | inl won ↦ ground (
          arith,
          won,
          claimed_sent R S L D P W F G settings C trigger recipient notification_type is_settled
              (λ r e s. rw e refl) generation tokens type own_claim s'.world
              (λ key kept s'' cleared same.
                push-is_settled type key kept (claims_of s) s'' won
                  (rw same (kept_claims generation s'.world)))
              s' refl,
        )
        | inr lost ↦ ground (arith, lost)
      ]

  delivery-is_settled :
      (s : Shared R S L)
      → is_settled (
          send_notification_trigger_to_user R S L D P W F G settings C trigger recipient
            notification_type s)
        ≡ true
  delivery-is_settled s =
      trigger_sent R S L D P W F G settings C trigger recipient notification_type is_settled
        (λ r e s. rw e refl) s
        (λ generation tokens type admitted.
          claim-is_settled generation tokens type
            (bound R S L D P W F G settings C trigger recipient notification_type s))

  claim-refused :
      (t : ℕ) (generation : ℕ) (tokens : List String) (type : NotificationType) (s : Shared R S L)
      → is_held_until t (own_key (claims_of s)) ≡ true
      → C.claim_at < t
      → not (
          is_some
            (claim_and_push R S L D P W F G settings C trigger recipient notification_type
              generation tokens type s).batch)
        ≡ true
  unfolding claim_and_push try_claim_recipient_event
  claim-refused t generation tokens type s held early = ground arith

  delivery-refused :
      (t : ℕ) (s : Shared R S L)
      → is_held_until t (own_key (claims_of s)) ≡ true
      → C.claim_at < t
      → not (
          is_some
            (send_notification_trigger_to_user R S L D P W F G settings C trigger recipient
              notification_type s).batch)
        ≡ true
  unfolding with_account
  delivery-refused t s held early =
      trigger_sent R S L D P W F G settings C trigger recipient notification_type
        (λ d. not (is_some d.batch)) (λ r e s. refl) s
        (λ generation tokens type admitted.
          claim-refused t generation tokens type
            (bound R S L D P W F G settings C trigger recipient notification_type s) held early)

module _ (R : SortedSets) (S : MemberSets) (L : ActorCounts) (D : Parsers) (P : Parsing)
    (W : Writing) (F : Formats) (G : Format) (settings : PushSettings) where
  -- A recipient is told of an event once: after a delivery that reached the provider and did not end
  -- in a retry, no delivery of the same event to the recipient, made before the time to live of the
  -- first one's claim has passed and while its key is as that one left it, reaches the provider.
  pub notified_once :
      (C C' : PushCall) (trigger trigger' : DeliveryTrigger) (recipient : String)
      (type type' : NotificationType) (s s' : Shared R S L)
      → let d =
          send_notification_trigger_to_user R S L D P W F G settings C trigger recipient type s in
        is_some d.batch ≡ true
        → is_retryable d.result ≡ false
        → event_id trigger' ≡ event_id trigger
        → s'.world.claims (recipient_key (event_id trigger) recipient)
          ≡ d.shared.world.claims (recipient_key (event_id trigger) recipient)
        → C'.claim_at < C.claim_at + settings.processed_event_ttl_secs
        → (send_notification_trigger_to_user R S L D P W F G settings C' trigger' recipient type'
            s').batch
          ≡ none
  notified_once C C' trigger trigger' recipient type type' s s' sent final same left early =
      ground (
        arith,
        same,
        delivery-is_settled R S L D P W F G settings C trigger recipient type s,
        delivery-refused R S L D P W F G settings C' trigger' recipient type'
            (C.claim_at + settings.processed_event_ttl_secs) s',
      )

  -- A delivery that every device refused, where the provider asks for a retry, gives its claim back:
  -- from then on, an attempt to claim the event for the recipient succeeds, if the release came
  -- before the claim expired.
  pub retry_unclaimed :
      (C : PushCall) (trigger : DeliveryTrigger) (recipient : String) (type : NotificationType)
      (s : Shared R S L) (now : ℕ) (value : String) (ttl_seconds : ℕ)
      → let d =
          send_notification_trigger_to_user R S L D P W F G settings C trigger recipient type s in
        is_retryable d.result ≡ true
        → C.release_at < C.claim_at + settings.processed_event_ttl_secs
        → is_some
            (try_claim_recipient_event now
              (event_id trigger)
              recipient
              value
              ttl_seconds
              d.shared.world.claims).0
          ≡ true
  unfolding try_claim_recipient_event
  retry_unclaimed C trigger recipient type s now value ttl_seconds again soon =
      ground (arith, delivery-is_settled R S L D P W F G settings C trigger recipient type s)
