-- ===== src/Fanout/Retry.antt =====
-- The retries of a page (src/event_handler.rs, `next_fanout_retry`, `schedule_fanout_retry`).
use divine_push_service.Prelude.{
  ℕ, ◌+◌, ◌-◌, ◌≤◌, ◌<◌, ◌≡◌, ◌≢◌, String, true, Option, none, some, arith, eq_iff, eq_refl,
  is_some, refl, max, ap, ◌∙◌, sym, min,
}
use divine_push_service.Redis.{SortedSets}
use divine_push_service.Coalesce.{saturating_add, saturating_mul}
use divine_push_service.Fanout.{
  NewPostFanoutJob, JobFormat, next_fanout_retry, fanout_retry_delay, schedule_fanout_retry,
  retry_fanout_job, FanoutQueue, max_fanout_attempts,
}

-- A retry that is granted is the next attempt of the same page, below the number of attempts, and
-- waits no longer than to the job's expiry nor than 300 seconds or the provider's own delay.
pub next_fanout_retry-bounded :
    (job retry : NewPostFanoutJob) (base minimum now delay : ℕ)
    → next_fanout_retry job base minimum now ≡ some (retry, delay)
    → (retry ≡ record job { attempt = job.attempt + 1 })
      × (retry.attempt < 12)
      × (delay ≤ job.expires_at - now)
      × (delay ≤ max 300 minimum)
unfolding next_fanout_retry
next_fanout_retry-bounded job retry base minimum now delay e = ground arith

-- A retry that is granted waits at least as long as the provider asks for, if that ends by the
-- job's expiry.
pub next_fanout_retry-waits :
    (job retry : NewPostFanoutJob) (base minimum now delay : ℕ)
    → next_fanout_retry job base minimum now ≡ some (retry, delay)
    → now + minimum ≤ job.expires_at
    → minimum ≤ delay
unfolding next_fanout_retry
next_fanout_retry-waits job retry base minimum now delay e h = ground arith

next_fanout_retry-left :
    (job : NewPostFanoutJob) (base minimum now : ℕ)
    → job.attempt + 1 < max_fanout_attempts
    → next_fanout_retry job base minimum now
      ≡ some (
        record job { attempt = job.attempt + 1 },
        min (fanout_retry_delay base (job.attempt + 1) minimum) (job.expires_at - now),
      )
unfolding next_fanout_retry
next_fanout_retry-left job base minimum now left = ground arith

module _ (R : SortedSets) (F : JobFormat) where
  open R use {zscore}

  -- A job's text is not that of its next attempt.
  retry_apart :
      (job retry : NewPostFanoutJob)
      → retry.attempt ≡ job.attempt + 1
      → F.to_string job ≢ F.to_string retry
  retry_apart job retry next e =
      let same : some job ≡ some retry =
        sym (F.from_str-to_string job) ∙ ap F.from_str e ∙ F.from_str-to_string retry in
      ground (arith, same)

  replaced :
      (now_ms delay : ℕ) (current retry : String) (q : FanoutQueue R)
      → current ≢ retry
      → let q' = retry_fanout_job R now_ms current retry delay q in
        (zscore q'.jobs current ≡ none) × (is_some (zscore q'.jobs retry) ≡ true)
  unfolding retry_fanout_job
  replaced now_ms delay current retry q apart =
      let score = saturating_add now_ms (saturating_mul delay 1000) in
      ground (
        arith,
        eq_iff current retry,
        eq_refl current,
        eq_refl retry,
        R.zscore-zadd score retry q.jobs retry,
        R.zscore-zrem current (R.zadd score retry q.jobs) retry,
        R.zscore-zrem current (R.zadd score retry q.jobs) current,
      )

  -- While an attempt is left, scheduling the retry of a page takes its present attempt off the
  -- queue and leaves the next one on it.
  pub schedule-keeps_page :
      (retry_secs now_secs now_ms minimum : ℕ) (job : NewPostFanoutJob) (next : Option String)
      (q : FanoutQueue R)
      → job.attempt + 1 < max_fanout_attempts
      → let q' =
          schedule_fanout_retry R F retry_secs now_secs now_ms
            (F.to_string job)
            job
            minimum
            next
            q in
        (zscore q'.jobs (F.to_string job) ≡ none)
        × (is_some (zscore q'.jobs (F.to_string (record job { attempt = job.attempt + 1 }))) ≡ true)
  unfolding schedule_fanout_retry
  schedule-keeps_page retry_secs now_secs now_ms minimum job next q left =
      let retry = record job { attempt = job.attempt + 1 } in
      let delay =
        min (fanout_retry_delay retry_secs (job.attempt + 1) minimum) (job.expires_at - now_secs) in
      rw (schedule_fanout_retry, next_fanout_retry-left job retry_secs minimum now_secs left)
        (replaced now_ms delay (F.to_string job) (F.to_string retry) q (retry_apart job retry refl))
