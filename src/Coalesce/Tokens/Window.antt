-- ===== src/Coalesce/Tokens/Window.antt =====
-- The rolling emission window of a recipient (src/coalesce.rs).
use divine_push_service.Prelude.{
  ℕ, ◌+◌, ◌*◌, ◌≤◌, ◌<◌, ◌≡◌, String, false, none, some, arith, min, if◌then◌else◌, eq_refl, eq_iff,
  str_eq,
}
use divine_push_service.Redis.{SortedSets, at_time}
use divine_push_service.Coalesce.{
  ServiceSettings, no_bucket, emitted_key_ttl, one_token, full_bucket, throttle_key_ttl,
}
use divine_push_service.Coalesce.Tokens.{
  Allowance, consume_recipient_token, refund_recipient_token, slide, spent, is_spent,
}
use divine_push_service.Coalesce.Tokens.Rate.{held, held-at_time, IsLasting, consume-IsLasting}

module _ (R : SortedSets) (s : ServiceSettings) where
  open R use {zcard, zscore}

  -- A spend leaves at most the daily cap of emissions in the window, if there were no more before.
  pub consume_capped :
      (now : ℕ) (member : String) (a : Allowance R)
      → zcard a.emitted.value ≤ s.recipient_daily_cap
      → zcard (consume_recipient_token R s now member a).1.emitted.value ≤ s.recipient_daily_cap
  unfolding consume_recipient_token
  consume_capped now member a h =
      let z = (at_time now R.no_members a.emitted).value in
      let y = R.zremrange now s.recipient_daily_window_secs z in
      ground (
        arith,
        R.zcard-no_members,
        R.zcard-zremrange now s.recipient_daily_window_secs z,
        R.zcount-le-zcard now s.recipient_daily_window_secs z,
        R.zcard-zadd now member y,
      )

  -- A spend that took a token is allowed again for the same emission within the window and the
  -- key's lifetime, and takes no second token.
  pub consume_again :
      (now now' : ℕ) (member : String) (a : Allowance R)
      → (consume_recipient_token R s now member a).0 ≡ spent
      → zscore (slide R s now a).emitted.value member ≡ none
      → now' < now + s.recipient_daily_window_secs
      → now' < now + emitted_key_ttl s
      → let a' = (consume_recipient_token R s now member a).1 in
        ((consume_recipient_token R s now' member a').0 ≡ spent)
        × ((consume_recipient_token R s now' member a').1.bucket ≡ at_time now' no_bucket a'.bucket)
  unfolding consume_recipient_token slide
  consume_again now now' member a ok new live kept =
      let y = (slide R s now a).emitted.value in
      ground (
        arith,
        eq_refl member,
        R.zscore-zadd now member y member,
        R.zscore-zremrange now' s.recipient_daily_window_secs (R.zadd now member y) member,
      )

  refund-held :
      (now : ℕ) (member : String) (a : Allowance R)
      → held s now (refund_recipient_token R s now member a).bucket.value
        ≡ min (full_bucket s) (held s now (at_time now no_bucket a.bucket).value + one_token s)
  unfolding refund_recipient_token
  refund-held now member a = ground arith

  refund-emitted :
      (now : ℕ) (member : String) (a : Allowance R) (j : String)
      → zscore (refund_recipient_token R s now member a).emitted.value j
        ≡ (if str_eq member j then none else zscore (at_time now R.no_members a.emitted).value j)
  unfolding refund_recipient_token
  refund-emitted now member a j = R.zscore-zrem member (at_time now R.no_members a.emitted).value j

  -- What a spend of a new emission leaves.
  spent-held :
      (now : ℕ) (member : String) (a : Allowance R)
      → (consume_recipient_token R s now member a).0 ≡ spent
      → zscore (slide R s now a).emitted.value member ≡ none
      → held s now (consume_recipient_token R s now member a).1.bucket.value + one_token s
        ≡ held s now (at_time now no_bucket a.bucket).value
  unfolding consume_recipient_token slide
  spent-held now member a ok new = ground arith

  spent-emitted :
      (now : ℕ) (member : String) (a : Allowance R) (j : String)
      → (consume_recipient_token R s now member a).0 ≡ spent
      → zscore (slide R s now a).emitted.value member ≡ none
      → 0 < emitted_key_ttl s
      → zscore
          (at_time now R.no_members (consume_recipient_token R s now member a).1.emitted).value
          j
        ≡ (if str_eq member j then some now else zscore (slide R s now a).emitted.value j)
  unfolding consume_recipient_token slide
  spent-emitted now member a j ok new lasts =
      ground (arith, R.zscore-zadd now member (slide R s now a).emitted.value j)

  -- A refund at the time of a spend that took a token undoes it, if the bucket's key lives until it
  -- is full: the bucket holds what it held, and the window has the emissions that it had.
  pub refund_undoes :
      (now : ℕ) (member : String) (a : Allowance R) (j : String)
      → full_bucket s ≤ throttle_key_ttl s * 1000
      → 0 < emitted_key_ttl s
      → IsLasting s a.bucket
      → (consume_recipient_token R s now member a).0 ≡ spent
      → zscore (slide R s now a).emitted.value member ≡ none
      → let back =
          refund_recipient_token R s now member (consume_recipient_token R s now member a).1 in
        (held s now back.bucket.value ≡ held s now a.bucket.value)
        × (zscore back.emitted.value j ≡ zscore (slide R s now a).emitted.value j)
  refund_undoes now member a j fills lasts h ok new =
      let a' = (consume_recipient_token R s now member a).1 in
      (
        omega (
          arith,
          refund-held now member a',
          held-at_time s now a'.bucket (consume-IsLasting R s fills now member a h),
          spent-held now member a ok new,
          held-at_time s now a.bucket h,
        ),
        ground (
          arith,
          refund-emitted now member a' j,
          spent-emitted now member a j ok new lasts,
          eq_iff member j,
        ),
      )

  -- A spend that is not granted records no emission.
  pub consume-unspent :
      (now : ℕ) (member : String) (a : Allowance R)
      → is_spent (consume_recipient_token R s now member a).0 ≡ false
      → zscore a.emitted.value member ≡ none
      → zscore (consume_recipient_token R s now member a).1.emitted.value member ≡ none
  unfolding consume_recipient_token
  consume-unspent now member a refused h = ground (
    arith,
    R.zscore-no_members member,
    R.zscore-zremrange now s.recipient_daily_window_secs (at_time now R.no_members a.emitted).value
        member,
  )
