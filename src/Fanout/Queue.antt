-- ===== src/Fanout/Queue.antt =====
-- The queue of pages (src/redis_store.rs).
use divine_push_service.Prelude.{
  ℕ, ◌+◌, ◌<◌, ◌≡◌, ◌≢◌, String, true, false, none, some, arith, eq_iff, eq_refl, is_some,
}
use divine_push_service.Redis.{SortedSets}
use divine_push_service.Fanout.{FanoutQueue, enqueue_initial_fanout_job, complete_fanout_job}

module _ (R : SortedSets) where
  open R use {zscore}

  -- An event is enqueued once: after a call that enqueued it, a call within the marker's lifetime
  -- adds no job and changes nothing.
  pub enqueue_once :
      (now now' now_ms now_ms' ttl ttl' : ℕ) (event_id job job' : String) (q : FanoutQueue R)
      → now' < now + ttl
      → (enqueue_initial_fanout_job R now now_ms event_id job ttl q).0 ≡ true
      → let q' = (enqueue_initial_fanout_job R now now_ms event_id job ttl q).1 in
        enqueue_initial_fanout_job R now' now_ms' event_id job' ttl' q' ≡ (false, q')
  unfolding enqueue_initial_fanout_job
  enqueue_once now now' now_ms now_ms' ttl ttl' event_id job job' q live new =
      ground (arith, eq_refl event_id)

  -- Completing a page with a successor of another, nonempty name leaves the successor on the queue,
  -- takes the page off it, and leaves every other page as it was.
  pub complete-successor :
      (now_ms : ℕ) (current next other : String) (q : FanoutQueue R)
      → next ≢ ""
      → current ≢ next
      → other ≢ current
      → other ≢ next
      → let q' = complete_fanout_job R now_ms current (some next) q in
        (is_some (zscore q'.jobs next) ≡ true)
        × (zscore q'.jobs current ≡ none)
        × (zscore q'.jobs other ≡ zscore q.jobs other)
  unfolding complete_fanout_job
  complete-successor now_ms current next other q named apart a b =
      let z = R.zadd now_ms next q.jobs in
      ground (
        arith,
        eq_iff next "",
        eq_iff current next,
        eq_iff current other,
        eq_iff next other,
        eq_refl next,
        eq_refl current,
        R.zscore-zadd now_ms next q.jobs next,
        R.zscore-zadd now_ms next q.jobs current,
        R.zscore-zadd now_ms next q.jobs other,
        R.zscore-zrem current z next,
        R.zscore-zrem current z current,
        R.zscore-zrem current z other,
        R.zscore-zrem current q.jobs next,
        R.zscore-zrem current q.jobs current,
        R.zscore-zrem current q.jobs other,
      )
