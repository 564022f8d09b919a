-- ===== src/Coalesce.antt =====
-- src/coalesce.rs: the buffering of likes and reposts. This module has the settings, the lifetimes
-- and the state that the scripts share; its children have the scripts.
pub mod Tokens
pub mod Groups
pub mod Ingest
pub mod Queue
pub mod Summary
pub mod Flush
pub mod Worker
use divine_push_service.Prelude.{
  ℕ, ◌+◌, ◌-◌, ◌*◌, ◌^◌, ◌≤◌, String, Bool, true, false, Option, none, some, ltb, leb, str_eq,
  if◌then◌else◌, unwrap_or, min, max,
}
use divine_push_service.Redis.{SortedSets, Key, at_time}

abbrev pub max_actions_per_category : ℕ
max_actions_per_category = 1024

abbrev pub max_recovery_per_claim : ℕ
max_recovery_per_claim = 64

abbrev pub max_dangling_skips : ℕ
max_dangling_skips = 8

-- The fields of `ServiceSettings` that coalescing reads, each a u64.
pub record ServiceSettings : Type 0 where
  pub coalesce_window_secs : ℕ
  pub coalesce_immediate_limit : ℕ
  pub coalesce_group_ttl_secs : ℕ
  pub coalesce_logical_expiry_grace_secs : ℕ
  pub recipient_throttle_capacity : ℕ
  pub recipient_throttle_refill_secs : ℕ
  pub recipient_daily_window_secs : ℕ
  pub recipient_daily_cap : ℕ

abbrev pub u64_max : ℕ
u64_max = 2 ^ 64 - 1

abbrev pub saturating_add : ℕ → ℕ → ℕ
saturating_add a b = min (a + b) u64_max

abbrev pub saturating_mul : ℕ → ℕ → ℕ
saturating_mul a b = min (a * b) u64_max

unfoldable pub disp_ttl : ServiceSettings → ℕ
disp_ttl s = saturating_add s.coalesce_window_secs s.coalesce_logical_expiry_grace_secs

unfoldable pub physical_ttl : ServiceSettings → ℕ
physical_ttl s = saturating_add s.coalesce_group_ttl_secs s.coalesce_logical_expiry_grace_secs

unfoldable pub throttle_key_ttl : ServiceSettings → ℕ
unfolding disp_ttl
throttle_key_ttl s =
    max
      (saturating_mul
        (saturating_mul s.recipient_throttle_capacity s.recipient_throttle_refill_secs) 2)
      (disp_ttl s)

unfoldable pub emitted_key_ttl : ServiceSettings → ℕ
emitted_key_ttl s =
    saturating_add s.recipient_daily_window_secs s.coalesce_logical_expiry_grace_secs

-- The hash `coalesce:throttle:{owner}`. A token is counted in milliseconds of refilling, so that
-- the scripts' fractions, `elapsed / (refill_secs * 1000)`, are whole numbers: one token is
-- `refill_secs * 1000`. The rounding of the server's floating point is not modelled.
pub record Bucket : Type 0 where
  pub tokens : Option ℕ
  pub ts : Option ℕ

abbrev pub no_bucket : Bucket
no_bucket = record { tokens = none; ts = none }

abbrev pub one_token : ServiceSettings → ℕ
one_token s = s.recipient_throttle_refill_secs * 1000

abbrev pub full_bucket : ServiceSettings → ℕ
full_bucket s = s.recipient_throttle_capacity * one_token s

-- The tokens after lazy refilling, before they are cut off at the capacity.
unfoldable pub refilled : ServiceSettings → ℕ → Bucket → ℕ
refilled s now_ms b = unwrap_or b.tokens (full_bucket s) + (now_ms - unwrap_or b.ts now_ms)
