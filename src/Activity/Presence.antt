-- ===== src/Activity/Presence.antt =====
-- Presence (src/activity.rs, `record_activity`, `is_active`).
use divine_push_service.Prelude.{
  ℕ, ◌+◌, ◌<◌, String, ◌≡◌, true, false, some, arith, str_eq, eq_refl,
}
use divine_push_service.Redis.{SortedSets, at_time}
use divine_push_service.Activity.{
  Account, ActivityUpdate, Clock, ok, visit, foreground, record_activity, is_active,
  presence_ttl_secs,
}

module _ (R : SortedSets) where
  open R use {zcard, zscore}

  -- A foreground update that begins a visit keeps the account active for the lease's lifetime, no
  -- update coming after it.
  pub foreground_active :
      (clock : Clock) (u : ActivityUpdate) (a : Account R) (now : ℕ)
      → (record_activity R clock u a).0 ≡ ok visit
      → u.state ≡ foreground
      → now < clock.secs + presence_ttl_secs
      → (is_active R now (record_activity R clock u a).1).0 ≡ true
  unfolding record_activity is_active
  foreground_active clock u a now h fore live =
      let z = R.zremrange clock.secs 0 (at_time clock.secs R.no_members a.active).value in
      let s = clock.secs + presence_ttl_secs in
      let y = R.zadd s u.session_id z in
      ground (
        arith,
        eq_refl u.session_id,
        R.zscore-zadd s u.session_id z u.session_id,
        R.zcount-pos now 0 y u.session_id,
        R.zcard-zremrange now 0 y,
      )

  -- An update of one session leaves the live presence lease of another as it is.
  pub record_activity-other_lease :
      (clock : Clock) (u : ActivityUpdate) (a : Account R) (j : String) (t : ℕ)
      → str_eq u.session_id j ≡ false
      → zscore (at_time clock.secs R.no_members a.active).value j ≡ some t
      → clock.secs < t
      → zscore (at_time clock.secs R.no_members (record_activity R clock u a).1.active).value j
        ≡ some t
  unfolding record_activity
  record_activity-other_lease clock u a j t other lease live =
      let z = (at_time clock.secs R.no_members a.active).value in
      ground (
        arith,
        R.zscore-zremrange clock.secs 0 z j,
        R.zscore-zadd (clock.secs + presence_ttl_secs) u.session_id (R.zremrange clock.secs 0 z) j,
        R.zscore-zrem u.session_id (R.zremrange clock.secs 0 z) j,
      )
