-- ===== src/Fanout/Page/Kept.antt =====
-- A page that was not delivered stays in the queue while it has an attempt left, and it has twelve
-- (src/event_handler.rs).
use divine_push_service.Prelude.{
  ℕ, ◌+◌, ◌<◌, ◌≤◌, ◌≡◌, ◌||◌, String, Bool, true, false, Option, none, some, List, [], ◌∷◌, arith,
  is_some, if◌then◌else◌, eq_refl, length, Bool-cases, ltb, inl, inr, Option-cases,
}
use divine_push_service.Redis.{SortedSets}
use divine_push_service.Coalesce.{saturating_add, saturating_mul}
use divine_push_service.Events.{Event, Parsing, kind_video}
use divine_push_service.Push.{is_ok, PushResult, ok, stopped, err, retryable}
use divine_push_service.Fanout.{
  NewPostFanoutJob, JobFormat, FanoutQueue, fanout_job_expired, fanout_successor_job,
  rescore_fanout_job, next_fanout_retry, max_fanout_attempts,
}
use divine_push_service.Fanout.Retry.{schedule-keeps_page, next_fanout_retry-bounded}
use divine_push_service.Fanout.Page.{
  PageCall, FanoutSettings, page_targets, page_result, retry_page, follow_page, read_page,
  process_fanout_job, rescore_page, process_and_rescore, provider_delay,
}

-- The job after some retries, each with the base of the delay, its minimum and the time: none once
-- the attempts are spent.
unfoldable pub retry_all : List (ℕ × ℕ × ℕ) → NewPostFanoutJob → Option NewPostFanoutJob
retry_all [] job = some job
retry_all (c ∷ calls) job = elim (next_fanout_retry job c.0 c.1 c.2) [
  | none ↦ none
  | some r ↦ retry_all calls r.0
]

retry_all-none :
    (calls : List (ℕ × ℕ × ℕ)) (job : NewPostFanoutJob)
    → max_fanout_attempts ≤ length calls + job.attempt
    → (job.attempt < max_fanout_attempts)
    → retry_all calls job ≡ none
unfolding retry_all
retry_all-none [] job enough below = ground arith
retry_all-none (c ∷ calls) job enough below =
    elim (Option-cases (next_fanout_retry job c.0 c.1 c.2)) [
      | inl e ↦ ground (arith, e)
      | inr (r, e) ↦
          let bounded = next_fanout_retry-bounded job r.0 c.0 c.1 c.2 r.1 e in
          ground (arith, e, bounded, retry_all-none calls r.0)
    ]

-- The retries of a page end: no more than twelve are ever granted, whatever the delays, the
-- provider's minimums and the times.
pub retries_end :
    (calls : List (ℕ × ℕ × ℕ)) (job : NewPostFanoutJob)
    → 12 ≤ length calls
    → retry_all calls job ≡ none
unfolding retry_all next_fanout_retry
retries_end [] job enough = ground arith
retries_end (c ∷ calls) job enough = elim (Bool-cases (ltb job.attempt max_fanout_attempts)) [
  | inl below ↦ retry_all-none (c ∷ calls) job (ground arith) (ground (arith, below))
  | inr spent ↦ ground (arith, spent)
]

module _ (R : SortedSets) (J : JobFormat) (P : Parsing) (from_json : String → Option Event)
    (settings : FanoutSettings) (C : PageCall) where
  open R use {zscore}

  abbrev is_queued : String → FanoutQueue R → Bool
  is_queued job_json q = is_some (zscore q.jobs job_json)

  -- Whether the page's deliveries all ended well.
  abbrev is_delivered : Event → Bool
  is_delivered event = elim C.page [
    | none ↦ false
    | some page ↦ is_ok (
        page_result R J P from_json settings C event
          (page_targets R J P from_json settings C event page.0))
  ]

  rescore-keeps :
      (job_json : String) (delay : ℕ) (q : FanoutQueue R)
      → is_queued job_json q ≡ true
      → is_queued job_json (rescore_page R J P from_json settings C job_json delay q) ≡ true
  unfolding rescore_page rescore_fanout_job
  rescore-keeps job_json delay q h = ground (
    arith,
    eq_refl job_json,
    R.zscore-zadd (saturating_add C.rescored_at_ms (saturating_mul delay 1000)) job_json q.jobs
        job_json,
  )

  abbrev retried : NewPostFanoutJob → NewPostFanoutJob
  retried job = record job { attempt = job.attempt + 1 }

  -- The page, as it is or as its next attempt.
  abbrev is_kept : NewPostFanoutJob → FanoutQueue R → Bool
  is_kept job q = is_queued (J.to_string job) q || is_queued (J.to_string (retried job)) q

  -- What a processing leaves: the page as it was, or one of its attempts where it ended well.
  abbrev is_safe : NewPostFanoutJob → PushResult × FanoutQueue R → Bool
  is_safe job r = if is_ok r.0 then is_kept job r.1 else is_queued (J.to_string job) r.1

  retry-is_safe :
      (job : NewPostFanoutJob) (minimum : ℕ) (exhausted : Option String) (q : FanoutQueue R)
      → is_queued (J.to_string job) q ≡ true
      → job.attempt + 1 < max_fanout_attempts
      → is_safe job
          (retry_page R J P from_json settings C (J.to_string job) job minimum exhausted q)
        ≡ true
  unfolding retry_page
  retry-is_safe job minimum exhausted q h left = ground (
    arith,
    schedule-keeps_page R J settings.retry_secs C.retry_at C.now_ms minimum job exhausted q left,
  )

  follow-is_safe :
      (job : NewPostFanoutJob) (next_cursor : ℕ) (result : PushResult) (q : FanoutQueue R)
      → is_queued (J.to_string job) q ≡ true
      → job.attempt + 1 < max_fanout_attempts
      → is_ok result ≡ false
      → is_safe job
          (follow_page R J P from_json settings C (J.to_string job) job next_cursor result q)
        ≡ true
  unfolding follow_page
  follow-is_safe job next_cursor ok q h left failed = ground arith
  follow-is_safe job next_cursor stopped q h left failed = h
  follow-is_safe job next_cursor err q h left failed =
      retry-is_safe job 0 (fanout_successor_job J job next_cursor C.resolved_name) q h left
  follow-is_safe job next_cursor (retryable delay) q h left failed =
      retry-is_safe job (provider_delay (retryable delay))
        (fanout_successor_job J job next_cursor C.resolved_name) q h left

  process-is_safe :
      (job : NewPostFanoutJob) (event : Event) (q : FanoutQueue R)
      → from_json job.event_json ≡ some event
      → event.kind ≡ kind_video
      → fanout_job_expired job C.checked_at ≡ false
      → is_queued (J.to_string job) q ≡ true
      → job.attempt + 1 < max_fanout_attempts
      → is_delivered event ≡ false
      → is_safe job (process_fanout_job R J P from_json settings C (J.to_string job) q) ≡ true
  unfolding process_fanout_job read_page
  process-is_safe job event q parsed video fresh h left failed = elim (Option-cases C.page) [
    | inl e ↦ ground (
      arith,
      e,
      parsed,
      video,
      fresh,
      J.from_str-to_string job,
      retry-is_safe job 0 none q h left,
    )
    | inr (page, e) ↦
        let result =
          page_result R J P from_json settings C event
            (page_targets R J P from_json settings C event page.0) in
        ground (
          arith,
          e,
          parsed,
          video,
          fresh,
          failed,
          J.from_str-to_string job,
          follow-is_safe job page.1 result q h left,
        )
  ]

  -- No page of watchers is lost: a worker's processing of a video's page that is not delivered to
  -- every target, whether its reading, a delivery or a write of the queue fails or it is cancelled,
  -- leaves the page in the queue, as it was or as its next attempt, if the page has not expired and
  -- its attempts are not spent.
  pub page_kept :
      (job : NewPostFanoutJob) (event : Event) (q : FanoutQueue R)
      → from_json job.event_json ≡ some event
      → event.kind ≡ kind_video
      → fanout_job_expired job C.checked_at ≡ false
      → is_queued (J.to_string job) q ≡ true
      → job.attempt + 1 < max_fanout_attempts
      → is_delivered event ≡ false
      → is_kept job (process_and_rescore R J P from_json settings C (J.to_string job) q) ≡ true
  unfolding process_and_rescore
  page_kept job event q parsed video fresh h left failed =
      let processed = process_fanout_job R J P from_json settings C (J.to_string job) q in
      ground (
        arith,
        process-is_safe job event q parsed video fresh h left failed,
        rescore-keeps (J.to_string job) 0 processed.1,
        rescore-keeps (J.to_string job) settings.retry_secs processed.1,
      )
