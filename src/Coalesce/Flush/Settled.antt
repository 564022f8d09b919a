-- ===== src/Coalesce/Flush/Settled.antt =====
-- A flush that ends leaves its group completed or queued again (src/coalesce.rs, `flush_group`).
use divine_push_service.Prelude.{
  ◌≡◌, String, Bool, true, false, ◌||◌, not, Option, none, some, arith, str_eq, eq_iff, eq_refl,
  inl, inr, Bool-cases, refl,
}
use divine_push_service.Redis.{SortedSets}
use divine_push_service.Redis.Members.{MemberSets}
use divine_push_service.Preferences.{Format}
use divine_push_service.Devices.{Parsers}
use divine_push_service.Coalesce.Groups.{ActorCounts, Store}
use divine_push_service.Coalesce.Queue.{GroupClaim, found, fields}
use divine_push_service.Coalesce.Summary.{Names}
use divine_push_service.Coalesce.Flush.{
  FlushSettings, FlushCall, FlushResult, Outbox, Flushed, finish, drop_expired_group,
  requeue_or_expire, flush_group,
}
use divine_push_service.Coalesce.Flush.Completion.{
  is_ok, IsOwned, is_released, IsSettled, finish-IsSettled, drop-IsSettled, requeue-IsSettled,
}
use divine_push_service.Coalesce.Flush.Ends.{EndRule, flush-IsDone}

abbrev pub is_token : String → Option String → Bool
is_token token none = false
is_token token (some t) = str_eq t token

is_token_refl :
    (token : String) (lease : Option String) → lease ≡ some token → is_token token lease ≡ true
is_token_refl token lease e = ground (arith, eq_refl token)

token_of :
    (token : String) (lease : Option String) → is_token token lease ≡ true → lease ≡ some token
token_of token none h = ground arith
token_of token (some t) h = ground (arith, eq_iff t token)

module _ (R : SortedSets) (S : MemberSets) (L : ActorCounts) (P : Parsers) (N : Names) (G : Format)
    (settings : FlushSettings) (C : FlushCall) (claim : GroupClaim) where
  abbrev lease_in : Store R L → Option String
  lease_in st = (fields (found R L C.complete_at claim.group_id st)).lease

  abbrev settles : FlushResult → Store R L → Bool
  settles result st = not (is_ok result) || is_released R S L P N G settings C claim result st

  IsSettled-settles :
      (d : Flushed R S L P N G settings C claim)
      → IsSettled R S L P N G settings C claim d
      → settles d.result d.outbox.store ≡ true
  IsSettled-settles d h = elim (Bool-cases (is_ok d.result)) [
    | inl e ↦ ground (arith, e, h e)
    | inr e ↦ ground (arith, e)
  ]

  abbrev settling : EndRule R S L P N G settings C claim
  settling = record {
    before = λ st. is_token claim.token (lease_in st);
    after = settles;
    spends = λ allowances st h. h;
    fails = λ st h. refl;
    stops = λ st h. refl;
    finishes = λ outcome o again h.
        IsSettled-settles (finish R S L P N G settings C claim outcome o) (
          finish-IsSettled R S L P N G settings C claim outcome o again
            (token_of claim.token (lease_in o.store) h));
    drops = λ o h.
        IsSettled-settles (drop_expired_group R S L P N G settings C claim o) (
          drop-IsSettled R S L P N G settings C claim o
            (token_of claim.token (lease_in o.store) h));
    requeues = λ outcome secs o again h.
        IsSettled-settles (requeue_or_expire R S L P N G settings C claim outcome secs o) (
          requeue-IsSettled R S L P N G settings C claim outcome secs o again
            (token_of claim.token (lease_in o.store) h));
  }

  -- A flush that ends without an error, its claim holding the group's lease when it completes,
  -- leaves no lease, and leaves the group in the due queue if its outcome is a deferral or a retry,
  -- and deleted otherwise.
  pub flush-settled :
      (o : Outbox R S L P N G settings C claim)
      → IsOwned R S L P N G settings C claim o.store
      → is_ok (flush_group R S L P N G settings C claim o).result ≡ true
      → is_released R S L P N G settings C claim
          (flush_group R S L P N G settings C claim o).result
          (flush_group R S L P N G settings C claim o).outbox.store
        ≡ true
  flush-settled o h ended =
      let settled =
        flush-IsDone R S L P N G settings C claim settling o
          (is_token_refl claim.token (lease_in o.store) h) in
      ground (arith, ended, settled)
