-- ===== src/Coalesce/Flush/Call.antt =====
-- The data of a flush, and what it computes without the keys (src/coalesce.rs, `flush_group`).
use divine_push_service.Prelude.{
  ℕ, ◌+◌, String, Bool, false, ◌&&◌, not, Option, none, some, List, [], ◌∷◌, ltb, leb, ◌==◌, str_eq,
  if◌then◌else◌, is_some,
}
use divine_push_service.Prelude.Int.{ℤ}
use divine_push_service.Redis.Members.{contains}
use divine_push_service.Budget.{DeliverySettings}
use divine_push_service.Preferences.{like, repost, from_display_name, is_enabled, UserPreferences}
use divine_push_service.Provider.{SendBatch, SendResult, accepted, failed, retryable_internal}
use divine_push_service.Coalesce.{ServiceSettings}
use divine_push_service.Coalesce.Summary.{GroupSnapshot, activity_digest}

-- The settings that a flush reads.
pub record FlushSettings : Type 0 where
  pub service : ServiceSettings
  pub coalesce_retry_secs : ℕ
  pub allowed_pubkeys : List String
  pub delivery : DeliverySettings
  pub default_preferences : List ℕ

-- One call: its clocks, the calls that fail, whether the worker is cancelled, the names that the
-- profiles give, and the provider.
pub record FlushCall : Type 0 where
  pub load_at : ℕ
  -- the service's clocks of the two token lookups
  pub lookup_now : ℤ
  pub recheck_now : ℤ
  pub consume_at : ℕ
  pub reserve_at : ℕ
  pub expiry_at : ℕ
  pub validate_at : ℕ
  pub refund_at : ℕ
  pub refresh_at : ℕ
  pub complete_at : ℕ
  pub cancelled : Bool
  pub load_fails : Bool
  pub lookup_fails : Bool
  pub preferences_fail : Bool
  pub consume_fails : Bool
  pub budget_fails : Bool
  pub recheck_fails : Bool
  pub expiry_fails : Bool
  pub validation_fails : Bool
  pub refund_fails : Bool
  pub refresh_fails : Bool
  pub removal_fails : String → Bool
  pub complete_fails : Bool
  -- none also where the lookup fails or there is no parser
  pub display_name : String → Option String
  pub send : SendBatch

pub data FlushOutcome : Type 0 where
  -- delivered, failed, actors
  sent : ℕ → ℕ → ℕ → FlushOutcome
  retry_queued throttled dropped : FlushOutcome
  suppressed empty : String → FlushOutcome

pub data FlushResult : Type 0 where
  ok : FlushOutcome → FlushResult
  -- cancelled before it spent, or another error
  stopped err : FlushResult

-- The last delay that the provider asks for, in nanoseconds.
unfoldable pub retryable_failure : List (String × SendResult) → Option ℕ
retryable_failure [] = none
retryable_failure ((token, accepted) ∷ outcomes) = retryable_failure outcomes
retryable_failure ((token, failed (retryable_internal delay)) ∷ outcomes) =
    let rest = retryable_failure outcomes in if is_some rest then rest else some delay
retryable_failure ((token, failed e) ∷ outcomes) = retryable_failure outcomes

unfoldable pub failures : List (String × SendResult) → ℕ
failures [] = 0
failures ((token, accepted) ∷ outcomes) = failures outcomes
failures ((token, failed e) ∷ outcomes) = failures outcomes + 1

unfoldable pub kept_tokens : List String → List String → List String
kept_tokens awake [] = []
kept_tokens awake (token ∷ tokens) =
    let rest = kept_tokens awake tokens in if contains awake token then token ∷ rest else rest

-- A digest keeps the totals of the types that the recipient enables.
unfoldable pub enabled_totals : UserPreferences → GroupSnapshot → GroupSnapshot
enabled_totals prefs snapshot = record snapshot {
  likes = if is_enabled like prefs then snapshot.likes else 0;
  reposts = if is_enabled repost prefs then snapshot.reposts else 0;
}

abbrev pub is_digest : GroupSnapshot → Bool
is_digest snapshot = str_eq snapshot.notification_type activity_digest

-- Whether the recipient's preferences leave nothing to tell, of a snapshot with its enabled totals.
unfoldable pub is_preference_disabled : UserPreferences → GroupSnapshot → Bool
is_preference_disabled prefs snapshot =
    if is_digest snapshot
    then (snapshot.likes == 0) && (snapshot.reposts == 0)
    else elim (from_display_name snapshot.notification_type) [
      | none ↦ false
      | some type ↦ not (is_enabled type prefs)
    ]

unfoldable pub is_past : ℕ → ℕ → Bool
is_past expires_at now = ltb 0 expires_at && leb expires_at now
