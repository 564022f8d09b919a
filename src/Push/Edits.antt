-- ===== src/Push/Edits.antt =====
-- The edits of a video (src/event_handler.rs, `has_video_claim`, `record_video_claims`).
use Prim.Native.String.{◌++◌}
use divine_push_service.Prelude.{
  ℕ, ◌+◌, ◌<◌, ◌≡◌, ◌&&◌, ◌||◌, ◌⊎◌, String, Bool, true, false, not, Option, none, some, List, [],
  ◌∷◌, arith, eq_iff, eq_refl, refl, is_some, Option-cases, inl, inr,
}
use divine_push_service.Redis.{SortedSets}
use divine_push_service.Redis.Members.{MemberSets}
use divine_push_service.Preferences.{
  Format, NotificationType, mention, new_post, get_user_preferences, is_enabled, display_name,
}
use divine_push_service.Claims.{ClaimKeys, RecipientEventClaim, try_claim_recipient_event}
use divine_push_service.Devices.{Parsers}
use divine_push_service.Payload.{FcmPayload}
use divine_push_service.Provider.{SendResult, delivered_tokens}
use divine_push_service.World.{is_empty, with_account}
use divine_push_service.Coalesce.Groups.{ActorCounts}
use divine_push_service.Coalesce.Ingest.{Formats}
use divine_push_service.Events.{Event, Parsing, kind_video}
use divine_push_service.Push.{
  nostr, event_id, is_ok, PushSettings, PushCall, ok, Writing, Shared, Pushed, set_cached_string,
  video_recipient_claim_key, tokens_to_remove, record_claim, record_claims, record_video_claims,
  satisfied_video_claims, open_rate_window, refresh_delivered, note_delivered, remove,
  remove_invalid, release, conclude, settle, payload_of, push, claim_and_push, check_history,
  check_video_claim, delivery_type, send_notification_trigger_to_user,
}
use divine_push_service.Push.Stages.{bound, trigger_sent, history_sent}
use divine_push_service.Push.Gates.{claimed_sent}
use divine_push_service.Push.Once.{is_held_until}

module _ (R : SortedSets) (S : MemberSets) (L : ActorCounts) (D : Parsers) (P : Parsing)
    (W : Writing) (F : Formats) (G : Format) (settings : PushSettings) (recipient : String) where
  -- The key of a video that has a `d` tag.
  abbrev video_key : Event → NotificationType → String → String
  video_key event type d_tag =
      "dedup:"
      ++ (W.decimal event.kind
          ++ ":"
          ++ display_name type
          ++ ":"
          ++ event.pubkey
          ++ ":"
          ++ d_tag
          ++ ":"
          ++ recipient)

  -- A video's key for a type is held until `t`.
  abbrev is_recorded : ℕ → Event → NotificationType → ClaimKeys → Bool
  is_recorded t event type keys = elim (video_recipient_claim_key W event recipient type) [
    | none ↦ true
    | some key ↦ is_held_until t (keys ("dedup:" ++ key))
  ]

  -- Both of a mention and of a new post.
  abbrev is_told : ℕ → Event → ClaimKeys → Bool
  is_told t event keys = is_recorded t event mention keys && is_recorded t event new_post keys

  module _ (C : PushCall) (event : Event) where
    abbrev until : ℕ
    until = C.record_at + settings.video_coordinate_dedup_ttl_secs

    record-is_told :
        (s : Shared R S L)
        → ((key : String) → C.record_fails key ≡ false)
        → is_told until event
            (record_claims R S L D P W F G settings C
              (nostr event)
              recipient
              mention
              event
              (mention ∷ new_post ∷ [])
              s).cached
          ≡ true
    unfolding record_claims record_claim set_cached_string video_recipient_claim_key
    record-is_told s works = elim (Option-cases event.identifier) [
      | inl e ↦ ground (arith, e)
      | inr (d_tag, e) ↦
          let k = video_key event mention d_tag in
          let k' = video_key event new_post d_tag in
          ground (arith, e, works k, works k', eq_refl k, eq_refl k', eq_iff k k', eq_iff k' k)
    ]

    note-is_told :
        (outcomes : List (String × SendResult)) (s : Shared R S L)
        → ((key : String) → C.record_fails key ≡ false)
        → event.kind ≡ kind_video
        → is_empty (delivered_tokens outcomes) ≡ false
        → is_told until event
            (note_delivered R S L D P W F G settings C
              (nostr event)
              recipient
              mention
              mention
              outcomes
              s).cached
          ≡ true
    unfolding note_delivered record_video_claims satisfied_video_claims
    note-is_told outcomes s works video took = ground (
      arith,
      record-is_told
          (open_rate_window R S L D P W F G settings C (nostr event) recipient mention (some event)
            mention
            (refresh_delivered R S L D P W F G settings C (nostr event) recipient mention
              (delivered_tokens outcomes) s))
          works,
    )

    remove-cached :
        (tokens : List String) (s : Shared R S L)
        → (remove_invalid R S L D P W F G settings C
            (nostr event)
            recipient
            mention
            tokens
            s).1.cached
          ≡ s.cached
    unfolding remove_invalid remove
    remove-cached [] s = refl
    remove-cached (token ∷ tokens) s = ground (
      arith,
      remove-cached tokens
          (remove R S L D P W F G settings C (nostr event) recipient mention token s),
    )

    -- A mention that some device took leaves the video told of.
    abbrev is_noted : Pushed R S L → Bool
    is_noted d = elim d.batch [
      | none ↦ true
      | some b ↦
          not (is_ok d.result)
          || (is_empty (delivered_tokens (C.send b.0 b.1)) || is_told until event d.shared.cached)
    ]

    push-is_noted :
        (claim : RecipientEventClaim) (key : Option String) (kept : List String) (s : Shared R S L)
        → ((key : String) → C.record_fails key ≡ false)
        → event.kind ≡ kind_video
        → is_noted (
            push R S L D P W F G settings C
              (nostr event)
              recipient
              mention
              mention
              claim
              key
              kept
              s)
          ≡ true
    unfolding push settle conclude release
    push-is_noted claim key kept s works video =
        let outcomes =
          C.send kept
            (payload_of R S L D P W F G settings C (nostr event) recipient mention mention key) in
        ground (
          arith,
          video,
          note-is_told outcomes s works video,
          remove-cached (tokens_to_remove outcomes) (
              note_delivered R S L D P W F G settings C (nostr event) recipient mention mention
                outcomes s),
        )

    abbrev is_enabled_at : NotificationType → Shared R S L → Bool
    is_enabled_at type s =
        is_enabled type (get_user_preferences G recipient settings.default_preferences s.world.keys)

    delivery-is_noted :
        (s : Shared R S L)
        → ((key : String) → C.record_fails key ≡ false)
        → event.kind ≡ kind_video
        → is_enabled_at mention s ≡ true
        → is_noted (
            send_notification_trigger_to_user R S L D P W F G settings C
              (nostr event)
              recipient
              mention
              s)
          ≡ true
    unfolding claim_and_push delivery_type with_account
    delivery-is_noted s works video enabled =
        trigger_sent R S L D P W F G settings C (nostr event) recipient mention is_noted
          (λ r e s'. refl) s
          (λ generation tokens type admitted.
            let b = bound R S L D P W F G settings C (nostr event) recipient mention s in
            let taken =
              try_claim_recipient_event C.claim_at (event_id (nostr event)) recipient C.claim_value
                settings.processed_event_ttl_secs b.world.claims in
            let s' : Shared R S L = record b { world = record b.world { claims = taken.1 } } in
            let is_mention : type ≡ mention = ground (arith, admitted.1, enabled) in
            elim (Option-cases taken.0) [
              | inl e ↦ ground (arith, e)
              | inr (claim, e) ↦ ground (
                arith,
                e,
                is_mention,
                claimed_sent R S L D P W F G settings C (nostr event) recipient mention is_noted
                    (λ r h x. refl) generation tokens mention claim s'.world
                    (λ key kept s'' cleared same. push-is_noted claim key kept s'' works video) s'
                    refl,
              )
            ])

    module _ (type : NotificationType) (t : ℕ) (s : Shared R S L) where
      video-refused :
          (generation : ℕ) (tokens : List String) (delivered : NotificationType) (s' : Shared R S L)
          → is_recorded t event delivered s'.cached ≡ true
          → C.video_at < t
          → not (
              is_some
                (check_video_claim R S L D P W F G settings C
                  (nostr event)
                  recipient
                  type
                  generation
                  tokens
                  delivered
                  event
                  s').batch)
            ≡ true
      unfolding check_video_claim
      video-refused generation tokens delivered s' held early =
          elim (Option-cases (video_recipient_claim_key W event recipient delivered)) [
            | inl e ↦ ground (arith, e)
            | inr (key, e) ↦ ground (arith, e)
          ]

      -- Only a mention or a new post is delivered of a notification that is one.
      history-refused :
          (type ≡ mention) ⊎ (type ≡ new_post)
          → event.kind ≡ kind_video
          → is_told t event s.cached ≡ true
          → C.video_at < t
          → not (
              is_some
                (send_notification_trigger_to_user R S L D P W F G settings C
                  (nostr event)
                  recipient
                  type
                  s).batch)
            ≡ true
      unfolding check_history delivery_type
      history-refused told_type video told early =
          history_sent R S L D P W F G settings C (nostr event) recipient type
            (λ d. not (is_some d.batch)) (λ r e s'. refl) s
            (λ generation tokens delivered admitted.
              let b = bound R S L D P W F G settings C (nostr event) recipient type s in
              ground (
                arith,
                video,
                admitted.1,
                video-refused generation tokens mention b,
                video-refused generation tokens new_post b,
              ))

  -- The keys that record the video as told, of a mention and of a new post, are as `c` has them.
  abbrev pub HasRecordsOf : Event → ClaimKeys → ClaimKeys → Type 0
  HasRecordsOf event c c' =
      (told : NotificationType) (key : String)
      → (told ≡ mention) ⊎ (told ≡ new_post)
      → video_recipient_claim_key W event recipient told ≡ some key
      → c' ("dedup:" ++ key) ≡ c ("dedup:" ++ key)

  recorded-moved :
      (t : ℕ) (event : Event) (told : NotificationType) (c c' : ClaimKeys)
      → (told ≡ mention) ⊎ (told ≡ new_post)
      → HasRecordsOf event c c'
      → is_recorded t event told c ≡ is_recorded t event told c'
  recorded-moved t event told c c' i same =
      elim (Option-cases (video_recipient_claim_key W event recipient told)) [
        | inl e ↦ ground (arith, e)
        | inr (key, e) ↦ ground (arith, e, same told key i e)
      ]

  -- A mention in a video is told once, whatever becomes of the video. After a delivery of it that
  -- ended without being cancelled, that some device took and whose records were written, to a
  -- recipient whose preferences enabled mentions, no mention or new post of an event of the same
  -- author and `d` tag, an edit of the video, reaches the provider for the recipient before the
  -- records expire, while the two keys of these records are as that delivery left them.
  pub edit_refused :
      (C C' : PushCall) (event edit : Event) (type : NotificationType) (s s' : Shared R S L)
      (tokens : List String) (payload : FcmPayload)
      → let d =
          send_notification_trigger_to_user R S L D P W F G settings C
            (nostr event)
            recipient
            mention
            s in
        (event.kind ≡ kind_video) × (edit.kind ≡ kind_video)
        → (edit.pubkey ≡ event.pubkey) × (edit.identifier ≡ event.identifier)
        → is_enabled mention
            (get_user_preferences G recipient settings.default_preferences s.world.keys)
          ≡ true
        → ((key : String) → C.record_fails key ≡ false)
        → d.batch ≡ some (tokens, payload)
        → d.result ≡ ok
        → is_empty (delivered_tokens (C.send tokens payload)) ≡ false
        → HasRecordsOf event d.shared.cached s'.cached
        → C'.video_at < C.record_at + settings.video_coordinate_dedup_ttl_secs
        → (type ≡ mention) ⊎ (type ≡ new_post)
        → (send_notification_trigger_to_user R S L D P W F G settings C'
            (nostr edit)
            recipient
            type
            s').batch
          ≡ none
  unfolding video_recipient_claim_key
  edit_refused C C' event edit type s s' tokens payload videos same enabled works sent done took
        left early told_type =
      let c =
        (send_notification_trigger_to_user R S L D P W F G settings C (nostr event) recipient
          mention s).shared.cached in
      let t = C.record_at + settings.video_coordinate_dedup_ttl_secs in
      ground (
        arith,
        delivery-is_noted C event s works videos.0 enabled,
        recorded-moved t event mention c s'.cached (inl refl) left,
        recorded-moved t event new_post c s'.cached (inr refl) left,
        history-refused C' edit type t s' told_type videos.1,
      )
