-- ===== src/Fanout.antt =====
-- The durable fan-out of new posts: the queue of pages (src/redis_store.rs) and its retries
-- (src/event_handler.rs). `now_ms` is the caller's clock, `now` that of Redis.
pub mod Retry
pub mod Queue
pub mod Page
use divine_push_service.Prelude.{
  ℕ, ◌+◌, ◌-◌, ◌*◌, ◌^◌, ◌≡◌, String, Bool, true, false, Option, none, some, List, [], ◌∷◌, leb,
  str_eq, if◌then◌else◌, is_some, unwrap_or, min, max,
}
use divine_push_service.Redis.{SortedSets, Key, at_time}
use divine_push_service.Coalesce.{saturating_add, saturating_mul}

abbrev pub max_fanout_attempts : ℕ
max_fanout_attempts = 12

abbrev pub max_retry_delay_secs : ℕ
max_retry_delay_secs = 300

pub record NewPostFanoutJob : Type 0 where
  pub event_json : String
  pub cursor : ℕ
  pub sender_name : Option String
  pub attempt : ℕ  -- u16
  pub expires_at : ℕ

-- The text that serde writes is read back.
pub record JobFormat : Type 0 where
  pub to_string : NewPostFanoutJob → String
  pub from_str : String → Option NewPostFanoutJob
  pub from_str-to_string : (job : NewPostFanoutJob) → from_str (to_string job) ≡ some job

unfoldable pub fanout_retry_delay : ℕ → ℕ → ℕ → ℕ
fanout_retry_delay base_secs attempt minimum_delay_secs =
    max (min (saturating_mul base_secs (2 ^ min (attempt - 1) 6)) max_retry_delay_secs)
      minimum_delay_secs

-- An attempt below the last one is far from the bound of a u16.
unfoldable pub next_fanout_retry : NewPostFanoutJob → ℕ → ℕ → ℕ → Option (NewPostFanoutJob × ℕ)
unfolding fanout_retry_delay
next_fanout_retry job base_delay_secs minimum_delay_secs now =
    let attempt = min (job.attempt + 1) (2 ^ 16 - 1) in
    if leb max_fanout_attempts attempt
    then none
    else some (
      record job { attempt = attempt },
      min (fanout_retry_delay base_delay_secs attempt minimum_delay_secs) (job.expires_at - now),
    )

unfoldable pub fanout_job_expired : NewPostFanoutJob → ℕ → Bool
fanout_job_expired job now = leb job.expires_at now

-- `resolved` is the sender's name in the event's copy.
unfoldable pub fanout_successor_job :
    JobFormat → NewPostFanoutJob → ℕ → Option String → Option String
fanout_successor_job F job next_cursor resolved =
    if leb next_cursor 0
    then none
    else some (
        F.to_string (record {
          event_json = job.event_json;
          cursor = next_cursor;
          sender_name = if is_some job.sender_name then job.sender_name else resolved;
          attempt = 0;
          expires_at = job.expires_at;
        }))

module _ (R : SortedSets) where
  open R use {Zset, zscore, zadd, zrem, zrangebyscore}

  pub record FanoutQueue : Type 0 where
    -- `fanout:enqueued:{event}` exists
    pub enqueued : String → Key Bool
    pub jobs : Zset

  unfoldable pub enqueue_initial_fanout_job :
      ℕ → ℕ → String → String → ℕ → FanoutQueue → Bool × FanoutQueue
  enqueue_initial_fanout_job now now_ms event_id job marker_ttl_secs q =
      if (at_time now false (q.enqueued event_id)).value then (false, q) else (
        true,
        record {
          enqueued = λ id.
              if str_eq event_id id
              then record { value = true; expires_at = some (now + marker_ttl_secs) }
              else q.enqueued id;
          jobs = zadd now_ms job q.jobs;
        },
      )

  unfoldable pub claim_fanout_job : ℕ → ℕ → FanoutQueue → Option String × FanoutQueue
  claim_fanout_job now_ms lease_secs q = elim (zrangebyscore now_ms 1 q.jobs) [
    | [] ↦ (none, q)
    | e ∷ l ↦ (
      some e.0,
      record q { jobs = zadd (saturating_add now_ms (saturating_mul lease_secs 1000)) e.0 q.jobs },
    )
  ]

  -- ZADD NX
  abbrev pub add_if_absent : ℕ → String → Zset → Zset
  add_if_absent score job z = if is_some (zscore z job) then z else zadd score job z

  unfoldable pub complete_fanout_job : ℕ → String → Option String → FanoutQueue → FanoutQueue
  complete_fanout_job now_ms current_job next_job q =
      let next = unwrap_or next_job "" in
      record q {
        jobs =
            zrem current_job (if str_eq next "" then q.jobs else add_if_absent now_ms next q.jobs);
      }

  -- ZADD XX
  unfoldable pub rescore_fanout_job : ℕ → String → ℕ → FanoutQueue → FanoutQueue
  rescore_fanout_job now_ms job delay_secs q = record q {
    jobs =
        if is_some (zscore q.jobs job)
        then zadd (saturating_add now_ms (saturating_mul delay_secs 1000)) job q.jobs
        else q.jobs;
  }

  unfoldable pub retry_fanout_job : ℕ → String → String → ℕ → FanoutQueue → FanoutQueue
  retry_fanout_job now_ms current_job retry_job delay_secs q = record q {
    jobs =
        zrem current_job
          (zadd (saturating_add now_ms (saturating_mul delay_secs 1000)) retry_job q.jobs);
  }

  -- `now_secs` is the caller's clock in seconds.
  unfoldable pub schedule_fanout_retry :
      JobFormat
      → ℕ
      → ℕ
      → ℕ
      → String
      → NewPostFanoutJob
      → ℕ
      → Option String
      → FanoutQueue
      → FanoutQueue
  unfolding complete_fanout_job retry_fanout_job
  schedule_fanout_retry F retry_secs now_secs now_ms current_job job minimum_delay_secs
        exhausted_next_job q =
      elim (next_fanout_retry job retry_secs minimum_delay_secs now_secs) [
        | some r ↦ retry_fanout_job now_ms current_job (F.to_string r.0) r.1 q
        | none ↦ elim exhausted_next_job [
          | some successor ↦
              retry_fanout_job now_ms current_job successor
                (min (fanout_retry_delay retry_secs max_fanout_attempts minimum_delay_secs)
                  (job.expires_at - now_secs))
                q
          | none ↦ complete_fanout_job now_ms current_job none q
        ]
      ]
