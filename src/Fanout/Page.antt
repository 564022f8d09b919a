-- ===== src/Fanout/Page.antt =====
-- `process_fanout_job` and the turns of `run_new_post_fanout` (src/event_handler.rs): one page of a
-- video's watchers. How the deliveries of a page end, in the order in which they do, is a parameter.
pub mod Kept
use divine_push_service.Prelude.{
  ℕ, ◌/◌, ◌^◌, String, Bool, true, false, not, Option, none, some, List, [], ◌∷◌, ◌==◌,
  if◌then◌else◌, is_some,
}
use divine_push_service.Redis.{SortedSets}
use divine_push_service.World.{is_empty}
use divine_push_service.Events.{
  Event, Parsing, kind_video, NotificationTarget, video_mention_targets, watcher_page_targets,
}
use divine_push_service.Push.{PushResult, ok, stopped, err, retryable}
use divine_push_service.Fanout.{
  NewPostFanoutJob, JobFormat, FanoutQueue, fanout_job_expired, fanout_successor_job,
  claim_fanout_job, complete_fanout_job, rescore_fanout_job, schedule_fanout_retry,
}

-- One call: its clocks, the calls that fail, the page that the server gives, with the next cursor,
-- how the deliveries of its targets end, and the name that their copy resolved to.
pub record PageCall : Type 0 where
  pub claimed_at_ms : ℕ
  pub checked_at : ℕ
  pub retry_at : ℕ
  pub now_ms : ℕ
  pub rescored_at_ms : ℕ
  pub claim_fails : Bool
  pub write_fails : Bool
  pub rescore_fails : Bool
  -- none where the read fails
  pub page : Option (List String × ℕ)
  pub deliver : Event → List NotificationTarget → List PushResult
  pub resolved_name : Option String

abbrev pub recipients_of : List NotificationTarget → List String
recipients_of [] = []
recipients_of (target ∷ targets) = target.recipient ∷ recipients_of targets

-- `send_notifications_bounded`: every delivery ends, and the first error is the result.
unfoldable pub bounded_result : List PushResult → PushResult
bounded_result [] = ok
bounded_result (ok ∷ results) = bounded_result results
bounded_result (stopped ∷ results) = stopped
bounded_result (err ∷ results) = err
bounded_result (retryable delay ∷ results) = retryable delay

-- The provider's delay in whole seconds.
unfoldable pub provider_delay : PushResult → ℕ
provider_delay ok = 0
provider_delay stopped = 0
provider_delay err = 0
provider_delay (retryable delay) = delay / 10 ^ 9

-- `new_post_fanout_retry_secs` and `new_post_fanout_lease_secs`
pub record FanoutSettings : Type 0 where
  pub retry_secs : ℕ
  pub lease_secs : ℕ

module _ (R : SortedSets) (J : JobFormat) (P : Parsing) (from_json : String → Option Event)
    (settings : FanoutSettings) (C : PageCall) where
  unfoldable pub finish_page : String → Option String → FanoutQueue R → PushResult × FanoutQueue R
  finish_page job_json next_job q =
      if C.write_fails then (err, q) else (ok, complete_fanout_job R C.now_ms job_json next_job q)

  unfoldable pub retry_page :
      String → NewPostFanoutJob → ℕ → Option String → FanoutQueue R → PushResult × FanoutQueue R
  retry_page job_json job minimum exhausted q = if C.write_fails then (err, q) else (
    ok,
    schedule_fanout_retry R J settings.retry_secs C.retry_at C.now_ms job_json job minimum exhausted
        q,
  )

  -- The targets of a page: its watchers that the event does not mention.
  unfoldable pub page_targets : Event → List String → List NotificationTarget
  page_targets event watchers =
      watcher_page_targets watchers event.pubkey (recipients_of (video_mention_targets P event))

  unfoldable pub page_result : Event → List NotificationTarget → PushResult
  page_result event targets =
      if is_empty targets then ok else bounded_result (C.deliver event targets)

  -- What follows the deliveries: the next page, another attempt, or nothing where they are
  -- cancelled.
  unfoldable pub follow_page :
      String → NewPostFanoutJob → ℕ → PushResult → FanoutQueue R → PushResult × FanoutQueue R
  follow_page job_json job next_cursor result q =
      let successor = fanout_successor_job J job next_cursor C.resolved_name in
      elim result [
        | ok ↦ finish_page job_json successor q
        | stopped ↦ (stopped, q)
        | err ↦ retry_page job_json job 0 successor q
        | retryable delay ↦ retry_page job_json job (provider_delay (retryable delay)) successor q
      ]

  unfoldable pub read_page :
      String → NewPostFanoutJob → Event → FanoutQueue R → PushResult × FanoutQueue R
  read_page job_json job event q = elim C.page [
    | none ↦ retry_page job_json job 0 none q
    | some page ↦ follow_page job_json job page.1 (page_result event (page_targets event page.0)) q
  ]

  unfoldable pub process_fanout_job : String → FanoutQueue R → PushResult × FanoutQueue R
  process_fanout_job job_json q = elim (J.from_str job_json) [
    | none ↦ finish_page job_json none q
    | some job ↦ elim (from_json job.event_json) [
      | none ↦ finish_page job_json none q
      | some event ↦
          if not (event.kind == kind_video)
          then finish_page job_json none q
          else if fanout_job_expired job C.checked_at
          then finish_page job_json none q
          else read_page job_json job event q
    ]
  ]

  -- A page that was not processed stays in the queue: at once for another worker where this one is
  -- cancelled, and otherwise for another attempt.
  unfoldable pub rescore_page : String → ℕ → FanoutQueue R → FanoutQueue R
  rescore_page job_json delay_secs q =
      if C.rescore_fails then q else rescore_fanout_job R C.rescored_at_ms job_json delay_secs q

  unfoldable pub process_and_rescore : String → FanoutQueue R → FanoutQueue R
  process_and_rescore job_json q =
      let (result, q') = process_fanout_job job_json q in
      elim result [
        | ok ↦ q'
        | stopped ↦ rescore_page job_json 0 q'
        | err ↦ rescore_page job_json settings.retry_secs q'
        | retryable delay ↦ rescore_page job_json settings.retry_secs q'
      ]

  -- One turn of the worker.
  unfoldable pub fanout_turn : FanoutQueue R → FanoutQueue R
  fanout_turn q =
      if C.claim_fails
      then q
      else let (job, q') = claim_fanout_job R C.claimed_at_ms settings.lease_secs q in
        elim job [ none ↦ q' | some job_json ↦ process_and_rescore job_json q' ]
