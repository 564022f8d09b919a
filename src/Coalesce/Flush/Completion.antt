-- ===== src/Coalesce/Flush/Completion.antt =====
-- What completing and requeueing leave of a flushed group (src/coalesce.rs).
use divine_push_service.Prelude.{
  ℕ, ◌+◌, ◌≡◌, Bool, true, false, ◌&&◌, not, none, some, arith, eq_refl, if◌then◌else◌, is_some,
}
use divine_push_service.Redis.{SortedSets}
use divine_push_service.Redis.Members.{MemberSets}
use divine_push_service.Preferences.{Format}
use divine_push_service.Devices.{Parsers}
use divine_push_service.Coalesce.Groups.{ActorCounts, Store}
use divine_push_service.Coalesce.Queue.{
  GroupClaim, CompleteOutcome, requeued, complete_group, delete_group, unlease, found, fields,
}
use divine_push_service.Coalesce.Summary.{Names}
use divine_push_service.Coalesce.Flush.{
  FlushSettings, FlushCall, FlushOutcome, retry_queued, throttled, FlushResult, ok, Outbox, Flushed,
  finish, drop_expired_group, requeue_or_expire,
}

abbrev pub is_ok : FlushResult → Bool
is_ok (ok outcome) = true
is_ok _ = false

-- The outcomes of a group that is queued again.
abbrev pub is_queued_again : FlushResult → Bool
is_queued_again (ok retry_queued) = true
is_queued_again (ok throttled) = true
is_queued_again _ = false

module _ (R : SortedSets) (S : MemberSets) (L : ActorCounts) (P : Parsers) (N : Names) (G : Format)
    (settings : FlushSettings) (C : FlushCall) (claim : GroupClaim) where
  open R use {zscore, zscore-zrem, zscore-zadd}

  -- The claim's lease is the group's when the flush completes it.
  abbrev pub IsOwned : Store R L → Type 0
  IsOwned st = (fields (found R L C.complete_at claim.group_id st)).lease ≡ some claim.token

  -- No lease is left; the group is in the due queue where it was queued again, and else deleted.
  abbrev pub is_released : FlushResult → Store R L → Bool
  is_released result st =
      not (is_some (zscore st.leases claim.group_id))
      && (if is_queued_again result
          then is_some (zscore st.due claim.group_id)
          else not (is_some (st.groups claim.group_id).value))

  abbrev pub IsSettled : Flushed R S L P N G settings C claim → Type 0
  IsSettled d = is_ok d.result ≡ true → is_released d.result d.outbox.store ≡ true

  complete-released :
      (st : Store R L)
      → IsOwned st
      → not (
            is_some
              (zscore (complete_group R L C.complete_at claim none st).1.leases claim.group_id))
          && not (
              is_some
                ((complete_group R L C.complete_at claim none st).1.groups claim.group_id).value)
        ≡ true
  unfolding complete_group delete_group unlease
  complete-released st h = ground (
    arith,
    zscore-zrem claim.group_id st.leases claim.group_id,
    eq_refl claim.group_id,
    eq_refl claim.token,
  )

  abbrev is_requeued : CompleteOutcome → Bool
  is_requeued requeued = true
  is_requeued _ = false

  requeue-released :
      (secs : ℕ) (st : Store R L)
      → IsOwned st
      → not (
            is_some (
              zscore
                (complete_group R L C.complete_at claim (some secs) st).1.leases
                claim.group_id))
          && (if is_requeued (complete_group R L C.complete_at claim (some secs) st).0
              then is_some (
                  zscore
                    (complete_group R L C.complete_at claim (some secs) st).1.due
                    claim.group_id)
              else not (
                  is_some
                    ((complete_group R L C.complete_at claim (some secs) st).1.groups
                      claim.group_id).value))
        ≡ true
  unfolding complete_group delete_group unlease
  requeue-released secs st h = ground (
    arith,
    zscore-zrem claim.group_id st.leases claim.group_id,
    zscore-zadd (C.complete_at + secs) claim.group_id st.due claim.group_id,
    eq_refl claim.group_id,
    eq_refl claim.token,
  )

  pub finish-IsSettled :
      (outcome : FlushOutcome) (o : Outbox R S L P N G settings C claim)
      → is_queued_again (ok outcome) ≡ false
      → IsOwned o.store
      → IsSettled (finish R S L P N G settings C claim outcome o)
  unfolding finish
  finish-IsSettled outcome o again h ended = ground (arith, complete-released o.store h)

  pub drop-IsSettled :
      (o : Outbox R S L P N G settings C claim)
      → IsOwned o.store
      → IsSettled (drop_expired_group R S L P N G settings C claim o)
  unfolding drop_expired_group
  drop-IsSettled o h ended = ground (arith, complete-released o.store h)

  pub requeue-IsSettled :
      (outcome : FlushOutcome) (secs : ℕ) (o : Outbox R S L P N G settings C claim)
      → is_queued_again (ok outcome) ≡ true
      → IsOwned o.store
      → IsSettled (requeue_or_expire R S L P N G settings C claim outcome secs o)
  unfolding requeue_or_expire
  requeue-IsSettled outcome secs o again h ended = ground (arith, requeue-released secs o.store h)
