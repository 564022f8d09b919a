-- ===== src/Coalesce/Tokens.antt =====
-- src/coalesce.rs: `consume_recipient_token` and `refund_recipient_token`, on the token bucket and
-- the emission window of one recipient.
pub mod Window
pub mod Rate
use divine_push_service.Prelude.{
  ℕ, ◌+◌, ◌-◌, ◌*◌, String, Bool, true, false, Option, none, some, List, [], ◌∷◌, ltb, leb, ◌==◌,
  if◌then◌else◌, is_some, min, max,
}
use divine_push_service.Redis.{SortedSets, Key, at_time, write, expire}
use divine_push_service.Coalesce.{
  ServiceSettings, Bucket, no_bucket, one_token, full_bucket, refilled, throttle_key_ttl,
  emitted_key_ttl,
}

pub data SpendOutcome : Type 0 where
  spent : SpendOutcome
  bucket_empty : ℕ → SpendOutcome
  daily_capped : ℕ → SpendOutcome

abbrev pub is_spent : SpendOutcome → Bool
is_spent spent = true
is_spent _ = false

-- HSET of both fields, and EXPIRE.
unfoldable pub set_bucket : ServiceSettings → ℕ → ℕ → Key Bucket → Key Bucket
set_bucket s now tokens k =
    expire now (throttle_key_ttl s)
      (write (record { tokens = some tokens; ts = some (now * 1000) }) k)

-- How long the cap holds: until the oldest emission ages out.
unfoldable pub cap_wait : ℕ → ℕ → List (String × ℕ) → ℕ
cap_wait window now [] = window
cap_wait window now ((m, oldest) ∷ l) = max 1 (oldest + window - now)

module _ (R : SortedSets) where
  open R use {Zset, no_members, zscore, zadd, zrem, zremrange, zcard, zrange}

  -- The keys `coalesce:throttle:{owner}` and `coalesce:emitted:{owner}`.
  pub record Allowance : Type 0 where
    pub bucket : Key Bucket
    pub emitted : Key Zset

  -- The keys as a script at `now` finds them, the emissions out of the window removed.
  unfoldable pub slide : ServiceSettings → ℕ → Allowance → Allowance
  slide s now a =
      let emitted = at_time now no_members a.emitted in
      record {
        bucket = at_time now no_bucket a.bucket;
        emitted = write (zremrange now s.recipient_daily_window_secs emitted.value) emitted;
      }

  -- The spending of a token, once the window has room.
  pub take_token : ServiceSettings → ℕ → String → Allowance → (ℕ × ℕ) × Allowance
  unfolding set_bucket refilled
  take_token s now member a =
      let tokens = min (full_bucket s) (refilled s (now * 1000) a.bucket.value) in
      if leb (one_token s) tokens
      then (
        (1, 0),
        record {
          bucket = set_bucket s now (tokens - one_token s) a.bucket;
          emitted =
              expire now (emitted_key_ttl s) (write (zadd now member a.emitted.value) a.emitted);
        },
      )
      else (
        (0, s.recipient_throttle_refill_secs),
        record a { bucket = set_bucket s now tokens a.bucket },
      )

  pub token_script : ServiceSettings → ℕ → String → Allowance → (ℕ × ℕ) × Allowance
  unfolding slide take_token cap_wait
  token_script s now member a =
      let a' = slide s now a in
      if is_some (zscore a'.emitted.value member)
      then ((1, 0), a')
      else if leb s.recipient_daily_cap (zcard a'.emitted.value)
      then ((2, cap_wait s.recipient_daily_window_secs now (zrange 1 a'.emitted.value)), a')
      else take_token s now member a'

  -- The match on the script's reply; its -1 is 2 here.
  abbrev pub outcome_of : ℕ × ℕ → SpendOutcome
  outcome_of (code, secs) =
      if code == 1
      then spent
      else if code == 0
      then bucket_empty (max secs 1)
      else daily_capped (max secs 1)

  unfoldable pub consume_recipient_token :
      ServiceSettings → ℕ → String → Allowance → SpendOutcome × Allowance
  unfolding token_script
  consume_recipient_token s now member a =
      let (reply, a') = token_script s now member a in (outcome_of reply, a')

  unfoldable pub refund_recipient_token : ServiceSettings → ℕ → String → Allowance → Allowance
  unfolding set_bucket refilled
  refund_recipient_token s now member a =
      let bucket = at_time now no_bucket a.bucket in
      let emitted = at_time now no_members a.emitted in
      record {
        bucket =
            set_bucket s now
              (min (full_bucket s) (refilled s (now * 1000) bucket.value + one_token s)) bucket;
        emitted = write (zrem member emitted.value) emitted;
      }
