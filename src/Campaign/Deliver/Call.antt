-- ===== src/Campaign/Deliver/Call.antt =====
-- The data of a campaign delivery, and the choice of its devices (src/campaign_delivery.rs, `deliver`).
use Prim.Native.Nat.{Ordering}
use Prim.Native.String.{compare}
use divine_push_service.Prelude.{
  ℕ, ◌+◌, ◌^◌, ◌-◌, String, Bool, true, false, Option, none, some, List, [], ◌∷◌, if◌then◌else◌,
  min,
}
use divine_push_service.Prelude.{◌++◌ as append}
use divine_push_service.Prelude.Int.{ℤ}
use divine_push_service.Redis.Members.{contains}
use divine_push_service.Activity.{Clock}
use divine_push_service.Budget.{BudgetDecision, allowed}
use divine_push_service.Provider.{SendBatch}
use divine_push_service.Campaign.{Formats, CampaignSettings, quiet_hours_retry_after}

-- One call: its clocks, what it draws, the calls that fail, and the provider.
pub record Attempt : Type 0 where
  -- the caller's `now`, and the one that the token lookup reads
  pub now : ℤ
  pub lookup_now : ℤ
  pub claim_ttl_secs : ℕ
  -- `new_claim_owner`
  pub owner : String
  -- the server's clock at each command
  pub bind_clock : Clock
  pub claim_at : ℕ
  pub reserve_at : ℕ
  pub validate_at : ℕ
  pub promote_at : ℕ
  pub release_at : ℕ
  -- the service's clock where it writes the tokens' activity
  pub refresh_at : ℕ
  pub bind_fails : Bool
  pub consent_fails : Bool
  pub claim_fails : Bool
  pub tokens_fail : Bool
  pub budget_fails : Bool
  pub validation_fails : Bool
  -- of one device's token
  pub removal_fails : String → Bool
  pub refresh_fails : Bool
  pub promotion_fails : Bool
  pub release_fails : Bool
  pub send : SendBatch

-- What the loop over the devices has found.
pub record Chosen : Type 0 where
  pub tokens : List String
  pub earliest_retry_after : Option String
  pub timezone_unknown : Bool

abbrev pub none_chosen : Chosen
none_chosen = record { tokens = []; earliest_retry_after = none; timezone_unknown = false }

-- `String`'s order, of the bytes.
abbrev pub is_before : String → String → Bool
is_before a b = elim (compare a b) [ Ordering.lt ↦ true | _ ↦ false ]

unfoldable pub earlier : String → Option String → Option String
earlier retry_after none = some retry_after
earlier retry_after (some current) =
    if is_before retry_after current then some retry_after else some current

-- One turn of the loop.
unfoldable pub choose : Formats → CampaignSettings → ℤ → String × Option ℤ → Chosen → Chosen
unfolding earlier
choose F settings now (token, offset) c =
    if settings.allow_unverified_consent
    then record c { tokens = append c.tokens (token ∷ []) }
    else elim offset [
      | none ↦ record c { timezone_unknown = true }
      | some minutes ↦ elim (quiet_hours_retry_after F minutes now settings.delivery) [
        | some retry_after ↦ record c {
          earliest_retry_after = earlier retry_after c.earliest_retry_after;
        }
        | none ↦ record c { tokens = append c.tokens (token ∷ []) }
      ]
    ]

unfoldable pub choose_tokens :
    Formats → CampaignSettings → ℤ → List (String × Option ℤ) → Chosen → Chosen
unfolding choose
choose_tokens F settings now [] c = c
choose_tokens F settings now (device ∷ devices) c =
    choose_tokens F settings now devices (choose F settings now device c)

-- `saturating_add` of two u64.
abbrev pub saturating_add : ℕ → ℕ → ℕ
saturating_add a b = min (a + b) (2 ^ 64 - 1)

-- `service.allowed_pubkeys` is empty or has the recipient.
unfoldable pub is_permitted : List String → String → Bool
is_permitted [] recipient = true
is_permitted (pubkey ∷ pubkeys) recipient = contains (pubkey ∷ pubkeys) recipient

abbrev pub is_allowed : BudgetDecision → Bool
is_allowed allowed = true
is_allowed _ = false
