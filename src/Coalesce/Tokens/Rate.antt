-- ===== src/Coalesce/Tokens/Rate.antt =====
-- The rate of a recipient's notifications (src/coalesce.rs, `consume_recipient_token`).
use divine_push_service.Prelude.{
  ℕ, ◌+◌, ◌*◌, ◌≤◌, ◌≡◌, String, Bool, true, false, some, List, [], ◌∷◌, arith, min, if◌then◌else◌,
  is_some, inl, inr, Option-cases,
}
use divine_push_service.Redis.{SortedSets, Key, at_time}
use divine_push_service.Coalesce.{
  ServiceSettings, Bucket, no_bucket, one_token, full_bucket, refilled, throttle_key_ttl, u64_max,
}
use divine_push_service.Coalesce.Tokens.{
  Allowance, consume_recipient_token, slide, take_token, outcome_of, spent, SpendOutcome,
}

-- The time to live of the bucket's key is long enough for an empty bucket to fill, if the product
-- of the capacity and the refill time fits in a u64.
pub throttle_key_ttl-fills :
    (s : ServiceSettings)
    → s.recipient_throttle_capacity * s.recipient_throttle_refill_secs ≤ u64_max
    → full_bucket s ≤ throttle_key_ttl s * 1000
unfolding throttle_key_ttl
throttle_key_ttl-fills s h = omega arith

-- What the bucket holds at a time, if its key never expires.
abbrev pub held : ServiceSettings → ℕ → Bucket → ℕ
held s now b = min (full_bucket s) (refilled s (now * 1000) b)

-- When the key expires the bucket has filled.
pub record IsLasting (s : ServiceSettings) (k : Key Bucket) : Type 0 where
  pub filled : (e : ℕ) → k.expires_at ≡ some e → full_bucket s ≤ refilled s (e * 1000) k.value

-- An expired bucket reads as the full one that it would be.
pub held-at_time :
    (s : ServiceSettings) (now : ℕ) (k : Key Bucket)
    → IsLasting s k
    → held s now (at_time now no_bucket k).value ≡ held s now k.value
unfolding refilled
held-at_time s now k h = elim (Option-cases k.expires_at) [
  | inl e ↦ ground arith
  | inr (t, e) ↦ ground (arith, h.filled t e)
]

held_grows :
    (s : ServiceSettings) (now wait : ℕ) (b : Bucket)
    → held s (now + wait) b ≤ held s now b + wait * 1000
unfolding refilled
held_grows s now wait b = ground arith

abbrev is_spent : SpendOutcome → Bool
is_spent spent = true
is_spent _ = false

at_time-IsLasting :
    (s : ServiceSettings) (now : ℕ) (k : Key Bucket)
    → IsLasting s k
    → IsLasting s (at_time now no_bucket k)
at_time-IsLasting s now k h = elim (Option-cases k.expires_at) [
  | inl e ↦ record { filled = λ t p. ground (arith, h.filled t) }
  | inr (u, e) ↦ record { filled = λ t p. ground (arith, h.filled t) }
]

module _ (R : SortedSets) (s : ServiceSettings)
    (fills : full_bucket s ≤ throttle_key_ttl s * 1000) where
  -- One where a call takes a token: it is allowed, and its member is not in the window yet.
  abbrev pub taken : ℕ → String → Allowance R → ℕ
  taken now member a =
      if is_some (R.zscore (slide R s now a).emitted.value member)
      then 0
      else if is_spent (consume_recipient_token R s now member a).0
      then 1
      else 0

  take_token-held :
      (now : ℕ) (member : String) (a : Allowance R)
      → held s now (take_token R s now member a).1.bucket.value
          + (if is_spent (outcome_of R (take_token R s now member a).0) then 1 else 0) * one_token s
        ≤ held s now a.bucket.value
  unfolding take_token
  take_token-held now member a = ground arith

  take_token-IsLasting :
      (now : ℕ) (member : String) (a : Allowance R)
      → IsLasting s (take_token R s now member a).1.bucket
  unfolding take_token
  take_token-IsLasting now member a = record { filled = λ e p. ground (arith, fills) }

  consume-held :
      (now : ℕ) (member : String) (a : Allowance R)
      → IsLasting s a.bucket
      → held s now (consume_recipient_token R s now member a).1.bucket.value
          + taken now member a * one_token s
        ≤ held s now a.bucket.value
  unfolding consume_recipient_token
  consume-held now member a h =
      ground (arith, take_token-held now member (slide R s now a), held-at_time s now a.bucket h)

  pub consume-IsLasting :
      (now : ℕ) (member : String) (a : Allowance R)
      → IsLasting s a.bucket
      → IsLasting s (consume_recipient_token R s now member a).1.bucket
  unfolding consume_recipient_token
  consume-IsLasting now member a h = record {
    filled = λ e p. ground (
      arith,
      (take_token-IsLasting now member (slide R s now a)).filled e,
      (at_time-IsLasting s now a.bucket h).filled e,
    );
  }

  -- Calls, each after a number of seconds from the one before it: what they leave.
  pub consume_all : List (ℕ × String) → ℕ → Allowance R → Allowance R
  consume_all [] now a = a
  consume_all ((wait, member) ∷ calls) now a =
      consume_all calls (now + wait) (consume_recipient_token R s (now + wait) member a).1

  -- The tokens that they take.
  pub taken_by_all : List (ℕ × String) → ℕ → Allowance R → ℕ
  unfolding consume_all
  taken_by_all [] now a = 0
  taken_by_all ((wait, member) ∷ calls) now a =
      taken (now + wait) member a
      + taken_by_all calls (now + wait) (consume_recipient_token R s (now + wait) member a).1

  abbrev pub total_wait : List (ℕ × String) → ℕ
  total_wait [] = 0
  total_wait ((wait, member) ∷ calls) = wait + total_wait calls

  -- Over any run of spends, the tokens taken are at most what the bucket holds at the start and
  -- what the time of the run refills, if the bucket's key lives until it is full.
  pub taken_bounded :
      (calls : List (ℕ × String)) (now : ℕ) (a : Allowance R)
      → IsLasting s a.bucket
      → taken_by_all calls now a * one_token s ≤ held s now a.bucket.value + total_wait calls * 1000
  unfolding taken_by_all
  taken_bounded [] now a h = omega arith
  taken_bounded ((wait, member) ∷ calls) now a h = omega (
    arith,
    taken_bounded calls (now + wait) (consume_recipient_token R s (now + wait) member a).1
        (consume-IsLasting (now + wait) member a h),
    consume-held (now + wait) member a h,
    held_grows s now wait a.bucket.value,
  )
