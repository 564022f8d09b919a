-- ===== src/Activity/Sessions.antt =====
-- The sessions of an account (src/activity.rs, `record_activity`).
use divine_push_service.Prelude.{◌+◌, ◌≤◌, ◌<◌, String, ◌≡◌, arith, eq_iff, eq_refl, unwrap_or}
use divine_push_service.Redis.{SortedSets, at_time}
use divine_push_service.Activity.{
  Account, ActivityUpdate, Clock, ok, visit, renewed_or_stale, record_activity, no_session,
  max_sessions_per_account, session_ttl_secs,
}

module _ (R : SortedSets) where
  open R use {zcard, zscore}

  -- An update leaves an account with at most the allowed number of retained sessions, if it had no
  -- more before.
  pub record_activity-bounded :
      (clock : Clock) (u : ActivityUpdate) (a : Account R)
      → zcard a.retained.value ≤ max_sessions_per_account
      → zcard (record_activity R clock u a).1.retained.value ≤ max_sessions_per_account
  unfolding record_activity
  record_activity-bounded clock u a h =
      let z = (at_time clock.secs R.no_members a.retained).value in
      ground (
        arith,
        R.zcard-no_members,
        R.zcard-zremrange clock.secs 0 z,
        R.zcount-le-zcard clock.secs 0 z,
        R.zcard-zadd (clock.secs + session_ttl_secs) u.session_id (R.zremrange clock.secs 0 z),
      )

  -- An update that began a visit is stale when it comes again within the session's lifetime, and
  -- then changes nothing.
  pub record_activity_again :
      (clock clock' : Clock) (u : ActivityUpdate) (a : Account R)
      → (record_activity R clock u a).0 ≡ ok visit
      → clock'.secs < clock.secs + session_ttl_secs
      → let a' = (record_activity R clock u a).1 in
        record_activity R clock' u a' ≡ (ok renewed_or_stale, a')
  unfolding record_activity
  record_activity_again clock clock' u a h later = ground (arith, eq_refl u.session_id)

  -- The last sequence of a session that has not expired never falls.
  pub record_activity-monotone :
      (clock : Clock) (u : ActivityUpdate) (a : Account R) (id : String)
      → unwrap_or (at_time clock.secs no_session (a.sessions id)).value.sequence 0
        ≤ unwrap_or
            (at_time clock.secs no_session
              ((record_activity R clock u a).1.sessions id)).value.sequence
            0
  unfolding record_activity
  record_activity-monotone clock u a id = ground (arith, eq_iff u.session_id id)
