-- ===== src/Campaign/Deliver/Allowed.antt =====
-- What a campaign delivery has passed when a batch goes to the provider (src/campaign_delivery.rs).
use divine_push_service.Prelude.{
  ℕ, ◌≡◌, String, Bool, true, false, ◌&&◌, ◌||◌, not, Option, none, some, List, [], ◌∷◌, inl, inr,
  arith, str_eq, eq_refl, Option-cases, Bool-cases, is_some, refl, ◌⊎◌, max,
}
use divine_push_service.Prelude.{◌++◌ as append}
use divine_push_service.Prelude.Int.{ℤ, pos, ◌+ℤ◌}
use divine_push_service.Redis.{SortedSets}
use divine_push_service.Redis.Members.{MemberSets}
use divine_push_service.Activity.{generation_for_work}
use divine_push_service.Preferences.{Format, campaign_consent_enabled}
use divine_push_service.Delivery.{in_quiet_hours, reserve_budget_for_generation}
use divine_push_service.Devices.{get_tokens_with_timezone_offsets}
use divine_push_service.Claims.{claim_campaign_delivery}
use divine_push_service.Payload.{FcmPayload, immediate_delivery}
use divine_push_service.World.{World, with_account, with_budgets, budgets_at, account_of}
use divine_push_service.Campaign.{
  PendingDelivery, Formats, CampaignSettings, dedup_key, is_expired, remaining_lifetime, until_end,
  quiet_hours_retry_after, campaign_payload,
}
use divine_push_service.Campaign.Deliver.{
  Attempt, Done, Chosen, none_chosen, choose, choose_tokens, refuse, push, validate_and_push,
  reserve_and_push, refuse_chosen, send_to_devices, claim_and_send, admit, bind_and_admit, deliver,
  is_permitted, consent_of, saturating_add, identity,
}

-- A registered device with this token that may be pushed to now.
pub is_reachable : CampaignSettings → ℤ → List (String × Option ℤ) → String → Bool
is_reachable settings now [] token = false
is_reachable settings now ((t, none) ∷ devices) token =
    (str_eq t token && settings.allow_unverified_consent) || is_reachable settings now devices token
is_reachable settings now ((t, some offset) ∷ devices) token =
    (str_eq t token
      && (settings.allow_unverified_consent || not (in_quiet_hours offset now settings.delivery)))
    || is_reachable settings now devices token

pub all_reachable : CampaignSettings → ℤ → List (String × Option ℤ) → List String → Bool
all_reachable settings now devices [] = true
all_reachable settings now devices (token ∷ tokens) =
    is_reachable settings now devices token && all_reachable settings now devices tokens

all_reachable-append :
    (settings : CampaignSettings) (now : ℤ) (devices : List (String × Option ℤ))
    (tokens : List String) (token : String)
    → all_reachable settings now devices (append tokens (token ∷ []))
      ≡ (all_reachable settings now devices tokens && is_reachable settings now devices token)
unfolding all_reachable
all_reachable-append settings now devices [] token = ground arith
all_reachable-append settings now devices (t ∷ tokens) token =
    ground (arith, all_reachable-append settings now devices tokens token)

reachable-tail :
    (settings : CampaignSettings) (now : ℤ) (token : String) (offset : Option ℤ)
    (devices : List (String × Option ℤ)) (t : String)
    → is_reachable settings now devices t ≡ true
    → is_reachable settings now ((token, offset) ∷ devices) t ≡ true
unfolding is_reachable
reachable-tail settings now token none devices t e = ground arith
reachable-tail settings now token (some o) devices t e = ground arith

reachable-head :
    (settings : CampaignSettings) (now : ℤ) (token : String) (offset : Option ℤ)
    (devices : List (String × Option ℤ))
    → is_reachable settings now ((token, offset) ∷ []) token ≡ true
    → is_reachable settings now ((token, offset) ∷ devices) token ≡ true
unfolding is_reachable
reachable-head settings now token none devices e = ground arith
reachable-head settings now token (some o) devices e = ground arith

module _ (F : Formats) (settings : CampaignSettings) (now : ℤ)
    (ends : (offset : ℤ)
      → is_some (F.to_rfc3339 (now +ℤ pos (until_end offset now settings.delivery))) ≡ true) where
  choose-all_reachable :
      (all : List (String × Option ℤ)) (token : String) (offset : Option ℤ) (c : Chosen)
      → (is_reachable settings now ((token, offset) ∷ []) token ≡ true
          → is_reachable settings now all token ≡ true)
      → all_reachable settings now all c.tokens ≡ true
      → all_reachable settings now all (choose F settings now (token, offset) c).tokens ≡ true
  unfolding choose is_reachable quiet_hours_retry_after
  choose-all_reachable all token none c here h =
      ground (arith, here, all_reachable-append settings now all c.tokens token, eq_refl token)
  choose-all_reachable all token (some offset) c here h = ground (
    arith,
    here,
    ends offset,
    all_reachable-append settings now all c.tokens token,
    eq_refl token,
  )

  choose_tokens-all_reachable :
      (all devices : List (String × Option ℤ)) (c : Chosen)
      → ((token : String)
          → is_reachable settings now devices token ≡ true
          → is_reachable settings now all token ≡ true)
      → all_reachable settings now all c.tokens ≡ true
      → all_reachable settings now all (choose_tokens F settings now devices c).tokens ≡ true
  unfolding choose_tokens
  choose_tokens-all_reachable all [] c here h = h
  choose_tokens-all_reachable all ((token, offset) ∷ devices) c here h =
      choose_tokens-all_reachable all devices (choose F settings now (token, offset) c)
        (λ t e. here t (reachable-tail settings now token offset devices t e))
        (choose-all_reachable all token offset c
          (λ e. here token (reachable-head settings now token offset devices e)) h)

module _ (R : SortedSets) (S : MemberSets) (F : Formats) (G : Format) (settings : CampaignSettings)
    (A : Attempt) (delivery : PendingDelivery) where
  abbrev payload_for : String → FcmPayload
  payload_for recipient = immediate_delivery (campaign_payload F delivery recipient)

  abbrev SendsAtMost : String → List String → Done R S F G settings A delivery → Type 0
  SendsAtMost recipient tokens d =
      (d.batch ≡ none) ⊎ (d.batch ≡ some (tokens, payload_for recipient))

  validate-SendsAtMost :
      (recipient : String) (generation : ℕ) (tokens : List String) (w : World R S)
      → SendsAtMost recipient tokens
          (validate_and_push R S F G settings A delivery recipient generation tokens w)
  unfolding validate_and_push push refuse
  validate-SendsAtMost recipient generation tokens w = ground arith

  reserve-SendsAtMost :
      (recipient : String) (generation : ℕ) (tokens : List String) (w : World R S)
      → SendsAtMost recipient tokens
          (reserve_and_push R S F G settings A delivery recipient generation tokens w)
  unfolding reserve_and_push refuse
  reserve-SendsAtMost recipient generation tokens w =
      let reserved =
        reserve_budget_for_generation R settings.delivery (identity R S F G settings A delivery)
          (some generation) A.reserve_at (budgets_at R S recipient w) in
      ground (
        arith,
        validate-SendsAtMost recipient generation tokens (with_budgets R S recipient reserved.1 w),
      )

  abbrev registered : String → World R S → List (String × Option ℤ)
  registered recipient w =
      get_tokens_with_timezone_offsets R S F.parsers A.lookup_now recipient w.devices

  abbrev chosen : String → World R S → List String
  chosen recipient w = (choose_tokens F settings A.now (registered recipient w) none_chosen).tokens

  send-SendsAtMost :
      (recipient : String) (generation : ℕ) (w : World R S)
      → SendsAtMost recipient
          (chosen recipient w)
          (send_to_devices R S F G settings A delivery recipient generation w)
  unfolding send_to_devices refuse refuse_chosen
  send-SendsAtMost recipient generation w =
      ground (arith, reserve-SendsAtMost recipient generation (chosen recipient w) w)

  claim-SendsAtMost :
      (recipient : String) (generation : ℕ) (w : World R S)
      → SendsAtMost recipient
          (chosen recipient w)
          (claim_and_send R S F G settings A delivery recipient generation w)
  unfolding claim_and_send refuse
  claim-SendsAtMost recipient generation w =
      let claims =
        (claim_campaign_delivery A.claim_at (dedup_key delivery.idempotency_key) A.owner
          (max A.claim_ttl_secs 1) w.claims).1 in
      ground (arith, send-SendsAtMost recipient generation (record w { claims = claims }))

  -- A batch that goes to the provider is the recipient's chosen tokens, of a recipient who is
  -- admitted.
  abbrev SendsAdmitted : String → World R S → Done R S F G settings A delivery → Type 0
  SendsAdmitted recipient w d =
      (d.batch ≡ none)
      ⊎ ((d.batch ≡ some (chosen recipient w, payload_for recipient))
          × (is_permitted settings.allowed_pubkeys recipient ≡ true)
          × (consent_of R S F G settings A delivery recipient w ≡ some true))

  admit-SendsAdmitted :
      (recipient : String) (generation : ℕ) (w : World R S)
      → SendsAdmitted recipient w (admit R S F G settings A delivery recipient generation w)
  unfolding admit refuse
  admit-SendsAdmitted recipient generation w =
      ground (arith, claim-SendsAtMost recipient generation w)

  bind-SendsAdmitted :
      (recipient : String) (w : World R S)
      → SendsAdmitted recipient w (bind_and_admit R S F G settings A delivery recipient w)
  unfolding bind_and_admit refuse with_account consent_of
  bind-SendsAdmitted recipient w =
      let bound =
        generation_for_work R A.bind_clock (identity R S F G settings A delivery)
          (saturating_add (remaining_lifetime F delivery.expires_at A.now) settings.dedup_ttl_secs)
          (account_of R S recipient w) in
      ground (arith, admit-SendsAdmitted recipient bound.0 (with_account R S recipient bound.1 w))

  -- The recipient's consent was read and is given, or the settings let it go unread.
  abbrev pub Consents : String → World R S → Type 0
  Consents recipient w =
      (settings.allow_unverified_consent ≡ true)
      ⊎ ((A.consent_fails ≡ false) × (campaign_consent_enabled G recipient w.keys ≡ some true))

  consent_of-Consents :
      (recipient : String) (w : World R S)
      → consent_of R S F G settings A delivery recipient w ≡ some true
      → Consents recipient w
  unfolding consent_of
  consent_of-Consents recipient w given = elim (Bool-cases settings.allow_unverified_consent) [
    | inl h ↦ inl h
    | inr h ↦ inr (ground arith)
  ]

  -- When a batch goes to the provider, the delivery has not expired, its recipient parses and is
  -- permitted, the recipient's consent was read and is given unless the settings allow unverified
  -- consent, the payload is the recipient's, and each token is of a registered device that is out
  -- of quiet hours in a known timezone, or of any if the settings allow unverified consent; if the
  -- end of every timezone's quiet hours can be written.
  pub batch_allowed :
      (w : World R S) (tokens : List String) (payload : FcmPayload)
      → ((offset : ℤ)
          → is_some (F.to_rfc3339 (A.now +ℤ pos (until_end offset A.now settings.delivery))) ≡ true)
      → (deliver R S F G settings A delivery w).batch ≡ some (tokens, payload)
      → (recipient : String) × (F.from_str delivery.recipient_pubkey ≡ some recipient)
        × (is_expired F delivery.expires_at A.now ≡ false)
        × (payload ≡ immediate_delivery (campaign_payload F delivery recipient))
        × (is_permitted settings.allowed_pubkeys recipient ≡ true)
        × Consents recipient w
        × (all_reachable settings A.now
              (get_tokens_with_timezone_offsets R S F.parsers A.lookup_now recipient w.devices)
              tokens
            ≡ true)
  unfolding deliver refuse all_reachable
  batch_allowed w tokens payload ends sent =
      elim (Option-cases (F.from_str delivery.recipient_pubkey)) [
        | inl h ↦ ground arith
        | inr (recipient, h) ↦
            (let all = registered recipient w in
              let reached =
                choose_tokens-all_reachable F settings A.now ends all all none_chosen (λ t e. e)
                  refl in
              (
                recipient,
                h,
                ground (arith, bind-SendsAdmitted recipient w),
                ground (arith, bind-SendsAdmitted recipient w),
                ground (arith, bind-SendsAdmitted recipient w),
                consent_of-Consents recipient w (ground (arith, bind-SendsAdmitted recipient w)),
                ground (arith, bind-SendsAdmitted recipient w, reached),
              ))
      ]
