-- ===== src/Activity/Generations.antt =====
-- Visit generations (src/activity.rs, `record_activity`, `generation_for_work`).
use divine_push_service.Prelude.{
  ℕ, ◌+◌, ◌≤◌, ◌<◌, String, ◌≡◌, true, none, some, arith, eq_iff, eq_refl, unwrap_or, max, Option,
  Option-cases, inl, inr,
}
use divine_push_service.Redis.{SortedSets, Key, at_time}
use divine_push_service.Activity.{
  Account, ActivityUpdate, Clock, ok, visit, record_activity, generation_for_work,
  current_generation,
}

module _ (R : SortedSets) where
  -- No generation in the account's keys is past the last value of the sequence.
  pub record AreIssued (a : Account R) : Type 0 where
    pub of_visits : unwrap_or a.visits.value.generation 0 ≤ unwrap_or a.visit_sequence 0
    pub of_work : (id : String) → unwrap_or (a.work id).value 0 ≤ unwrap_or a.visit_sequence 0

  pub record_activity-AreIssued :
      (clock : Clock) (u : ActivityUpdate) (a : Account R)
      → AreIssued a
      → AreIssued (record_activity R clock u a).1
  unfolding record_activity
  record_activity-AreIssued clock u a h = record {
    of_visits = ground arith;
    of_work = λ id. ground (arith, h.of_work id);
  }

  pub generation_for_work-AreIssued :
      (clock : Clock) (identity : String) (retention : ℕ) (a : Account R)
      → AreIssued a
      → AreIssued (generation_for_work R clock identity retention a).1
  unfolding generation_for_work
  generation_for_work-AreIssued clock identity retention a h = record {
    of_visits = ground arith;
    of_work = λ id. ground (arith, h.of_work id, h.of_work identity, eq_iff identity id);
  }

  -- A visit begins a generation above that of all work bound before it, if no generation of the
  -- account is past the issued ones.
  pub visit_fences_work :
      (clock : Clock) (u : ActivityUpdate) (a : Account R) (id : String) (g : ℕ)
      → AreIssued a
      → (record_activity R clock u a).0 ≡ ok visit
      → (a.work id).value ≡ some g
      → g < current_generation R clock.secs (record_activity R clock u a).1
  unfolding record_activity current_generation
  visit_fences_work clock u a id g h begun bound = ground (arith, h.of_work id)

  -- What binding an identity leaves in its marker.
  marker_of_work :
      (clock : Clock) (identity : String) (retention : ℕ) (a : Account R)
      → a.registered ≡ true
      → let (g, a') = generation_for_work R clock identity retention a in
        ((a'.work identity).value ≡ some g)
        × ((t : ℕ) → (a'.work identity).expires_at ≡ some t → clock.secs + max retention 1 ≤ t)
  unfolding generation_for_work
  marker_of_work clock identity retention a reg =
      (ground (arith, eq_refl identity), λ t e. ground (arith, eq_refl identity))

  work-record_activity :
      (clock : Clock) (u : ActivityUpdate) (a : Account R)
      → (record_activity R clock u a).1.work ≡ a.work
  unfolding record_activity
  work-record_activity clock u a = ground arith

  live_marker :
      (now g : ℕ) (k : Key (Option ℕ))
      → k.value ≡ some g
      → ((t : ℕ) → k.expires_at ≡ some t → now < t)
      → (at_time now none k).value ≡ some g
  live_marker now g k v live = elim (Option-cases k.expires_at) [
    | inl e ↦ ground arith
    | inr (t, e) ↦ ground (arith, live t)
  ]

  generation_of_marker :
      (clock : Clock) (identity : String) (retention g : ℕ) (a : Account R)
      → (at_time clock.secs none (a.work identity)).value ≡ some g
      → (generation_for_work R clock identity retention a).0 ≡ g
  unfolding generation_for_work
  generation_of_marker clock identity retention g a h = ground arith

  -- Work of a registered account that is bound again while its marker lives keeps the generation
  -- that it was first bound to, whatever activity is recorded in between.
  pub generation_for_work_kept :
      (clock between again : Clock) (u : ActivityUpdate) (identity : String)
      (retention retention' : ℕ) (a : Account R)
      → a.registered ≡ true
      → again.secs < clock.secs + max retention 1
      → let (g, a') = generation_for_work R clock identity retention a in
        (generation_for_work R again identity retention' (record_activity R between u a').1).0 ≡ g
  generation_for_work_kept clock between again u identity retention retention' a reg live =
      let (g, a') = generation_for_work R clock identity retention a in
      let (bound, lasts) = marker_of_work clock identity retention a reg in
      generation_of_marker again identity retention' g (record_activity R between u a').1 (
        rw (work-record_activity between u a')
          (live_marker again.secs g (a'.work identity) bound (λ t e. omega (arith, lasts t e))))
