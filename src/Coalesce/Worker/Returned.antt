-- ===== src/Coalesce/Worker/Returned.antt =====
-- What a worker does with a group whose flush failed (src/coalesce.rs, `run_coalesce_flush`).
use divine_push_service.Prelude.{
  ℕ, ◌+◌, ◌≡◌, String, Bool, true, false, ◌||◌, ◌&&◌, none, some, arith, eq_refl, refl, unwrap_or,
  ◌==◌,
}
use divine_push_service.Redis.{SortedSets}
use divine_push_service.Redis.Members.{MemberSets}
use divine_push_service.Preferences.{Format}
use divine_push_service.Devices.{Parsers}
use divine_push_service.Coalesce.Groups.{ActorCounts, Store}
use divine_push_service.Coalesce.Queue.{GroupClaim, complete_group, found, fields}
use divine_push_service.Coalesce.Summary.{Names}
use divine_push_service.Coalesce.Flush.{
  FlushSettings, FlushCall, FlushOutcome, FlushResult, ok, stopped, err, Outbox, finish,
  drop_expired_group, requeue_or_expire, flush_group, is_past,
}
use divine_push_service.Coalesce.Flush.Completion.{is_ok, is_queued_again}
use divine_push_service.Coalesce.Flush.Ends.{EndRule, flush-IsDone}
use divine_push_service.Coalesce.Flush.Settled.{is_token}
use divine_push_service.Coalesce.Worker.{Pass, State, release, after_flush, flush_claim}

module _ (R : SortedSets) (S : MemberSets) (L : ActorCounts) (P : Parsers) (N : Names) (G : Format)
    (settings : FlushSettings) (lease_secs : ℕ) where
  open R use {zscore}

  -- The claim's lease is the group's at `t`, and the group's pending events and its expiry are these.
  abbrev pub is_held : GroupClaim → ℕ → ℕ → ℕ → Store R L → Bool
  is_held claim t pending expires_at st =
      let g = fields (found R L t claim.group_id st) in
      is_token claim.token g.lease
      && ((unwrap_or g.pending 0 == pending) && (unwrap_or g.expires_at 0 == expires_at))

  module _ (C : FlushCall) (claim : GroupClaim) (t pending expires_at : ℕ) where
    -- A flush that does not end well leaves the group as it was.
    abbrev holds : FlushResult → Store R L → Bool
    holds result st = is_ok result || is_held claim t pending expires_at st

    finish-holds :
        (outcome : FlushOutcome) (o : Outbox R S L P N G settings C claim)
        → is_queued_again (ok outcome) ≡ false
        → is_held claim t pending expires_at o.store ≡ true
        → let d = finish R S L P N G settings C claim outcome o in
          holds d.result d.outbox.store ≡ true
    unfolding finish
    finish-holds outcome o again h = ground (arith, h)

    drop-holds :
        (o : Outbox R S L P N G settings C claim)
        → is_held claim t pending expires_at o.store ≡ true
        → let d = drop_expired_group R S L P N G settings C claim o in
          holds d.result d.outbox.store ≡ true
    unfolding drop_expired_group complete_group
    drop-holds o h = ground (arith, h)

    requeue-holds :
        (outcome : FlushOutcome) (secs : ℕ) (o : Outbox R S L P N G settings C claim)
        → is_queued_again (ok outcome) ≡ true
        → is_held claim t pending expires_at o.store ≡ true
        → let d = requeue_or_expire R S L P N G settings C claim outcome secs o in
          holds d.result d.outbox.store ≡ true
    unfolding requeue_or_expire complete_group
    requeue-holds outcome secs o again h = ground (arith, h)

    abbrev holding : EndRule R S L P N G settings C claim
    holding = record {
      before = is_held claim t pending expires_at;
      after = holds;
      spends = λ allowances st h. h;
      fails = λ st h. h;
      stops = λ st h. h;
      finishes = finish-holds;
      drops = drop-holds;
      requeues = requeue-holds;
    }

  -- A cancelled flush is due again at once.
  abbrev pub delay_of : FlushResult → ℕ
  delay_of stopped = 0
  delay_of _ = settings.coalesce_retry_secs

  -- The group is due at `at`, under no lease, and has these pending events.
  pub record IsDue (gid : String) (t at pending : ℕ) (st : Store R L) : Type 0 where
    pub due : zscore st.due gid ≡ some at
    pub unleased : zscore st.leases gid ≡ none
    pub unowned : (fields (found R L t gid st)).lease ≡ none
    pub counted : unwrap_or (fields (found R L t gid st)).pending 0 ≡ pending

  requeue-IsDue :
      (claim : GroupClaim) (t secs pending expires_at : ℕ) (st : Store R L)
      → is_held claim t pending expires_at st ≡ true
      → is_past expires_at (t + secs) ≡ false
      → IsDue claim.group_id t (t + secs) pending (complete_group R L t claim (some secs) st).1
  unfolding complete_group is_past
  requeue-IsDue claim t secs pending expires_at st h later = record {
    due = ground (
      arith,
      eq_refl claim.group_id,
      R.zscore-zadd (t + secs) claim.group_id st.due claim.group_id,
    );
    unleased =
        ground
          (arith, eq_refl claim.group_id, R.zscore-zrem claim.group_id st.leases claim.group_id);
    unowned = ground (arith, eq_refl claim.group_id);
    counted = ground (arith, eq_refl claim.group_id);
  }

  after_flush-release :
      (p : Pass R S L) (claim : GroupClaim) (result : FlushResult) (st : Store R L)
      → p.release_fails ≡ false
      → is_ok result ≡ false
      → after_flush R S L P N G settings lease_secs p claim result st
        ≡ (complete_group R L p.release_at claim (some (delay_of result)) st).1
  unfolding after_flush release
  after_flush-release p claim (ok outcome) st works failed = ground arith
  after_flush-release p claim stopped st works failed = rw works refl
  after_flush-release p claim err st works failed = rw works refl

  -- A group is not lost to a failed flush: where the flush of a claim ends with an error or
  -- cancelled, before its timeout, the claim's lease is still the group's when the worker releases
  -- it and the release works, the group is due again, after the settings' delay or, cancelled, at
  -- once, under no lease and with the pending events that it had; unless it expires by then.
  pub failed_flush_returned :
      (p : Pass R S L) (claim : GroupClaim) (s : State R S L) (pending expires_at : ℕ)
      → let d =
          flush_group R S L P N G settings p.call claim
            (record { store = s.store; world = s.world }) in
        is_held claim p.release_at pending expires_at s.store ≡ true
        → p.times_out ≡ false
        → p.release_fails ≡ false
        → is_ok d.result ≡ false
        → is_past expires_at (p.release_at + delay_of d.result) ≡ false
        → IsDue claim.group_id p.release_at
            (p.release_at + delay_of d.result)
            pending
            (flush_claim R S L P N G settings lease_secs p claim s).1.store
  unfolding flush_claim
  failed_flush_returned p claim s pending expires_at held timely works failed later =
      let o : Outbox R S L P N G settings p.call claim = record {
        store = s.store;
        world = s.world;
      } in
      let d = flush_group R S L P N G settings p.call claim o in
      let kept =
        flush-IsDone R S L P N G settings p.call claim
          (holding p.call claim p.release_at pending expires_at) o held in
      let held' : is_held claim p.release_at pending expires_at d.outbox.store ≡ true =
        ground (arith, kept, failed) in
      rw (after_flush-release p claim d.result d.outbox.store works failed, timely)
        (requeue-IsDue claim p.release_at (delay_of d.result) pending expires_at d.outbox.store
          held' later)
