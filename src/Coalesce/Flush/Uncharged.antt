-- ===== src/Coalesce/Flush/Uncharged.antt =====
-- A flush that delivers nothing leaves no emission of its group (src/coalesce.rs, `flush_group`).
use divine_push_service.Prelude.{
  ◌≡◌, String, true, false, ◌&&◌, List, arith, str_eq, eq_iff, if◌then◌else◌, inl, inr,
  Option-cases, Bool-cases, refl,
}
use divine_push_service.Redis.{SortedSets}
use divine_push_service.Redis.Members.{MemberSets}
use divine_push_service.Preferences.{Format, get_user_preferences}
use divine_push_service.Devices.{Parsers}
use divine_push_service.Coalesce.Tokens.{SpendOutcome, spent, bucket_empty, daily_capped, is_spent}
use divine_push_service.Coalesce.Tokens.Window.{consume-unspent}
use divine_push_service.Coalesce.Groups.{ActorCounts}
use divine_push_service.Coalesce.Queue.{GroupClaim}
use divine_push_service.Coalesce.Summary.{Names, GroupSnapshot, load_group}
use divine_push_service.Coalesce.Flush.{
  FlushSettings, FlushCall, FlushOutcome, throttled, suppressed, empty, is_digest, Outbox, finish,
  charge, follow_spend, spend_and_push, check_preferences, check_recipient, check_owner,
  flush_snapshot, flush_group, tokens_at, enabled_totals,
}
use divine_push_service.Coalesce.Flush.Charge.{
  is_undelivered, IsUncharged, IsSquare, emission, finish-keeps, drop-keeps, requeue-keeps,
}
use divine_push_service.Coalesce.Flush.Square.{reserve-IsSquare}

module _ (R : SortedSets) (S : MemberSets) (L : ActorCounts) (P : Parsers) (N : Names) (G : Format)
    (settings : FlushSettings) (C : FlushCall) (claim : GroupClaim) (given : C.refund_fails ≡ false)
    (read : C.expiry_fails ≡ false) (j : String) where
  open R use {zscore}

  charge-IsUncharged :
      (owner : String) (o : Outbox R S L P N G settings C claim)
      → IsUncharged R S L P N G settings C claim j o.store
      → is_spent (charge R S L P N G settings C claim owner o).0 && str_eq owner j ≡ false
      → IsUncharged R S L P N G settings C claim j
          (charge R S L P N G settings C claim owner o).1.store
  unfolding charge
  charge-IsUncharged owner o h apart = ground (
    arith,
    eq_iff owner j,
    consume-unspent R settings.service C.consume_at claim.group_id (o.store.allowances j),
  )

  follow_spend-IsSquare :
      (snapshot : GroupSnapshot) (owner : String) (tokens : List String) (outcome : SpendOutcome)
      (o : Outbox R S L P N G settings C claim)
      → is_digest snapshot ≡ false
      → ((is_spent outcome && str_eq snapshot.owner j ≡ false)
          → IsUncharged R S L P N G settings C claim j o.store)
      → IsSquare R S L P N G settings C claim j
          (follow_spend R S L P N G settings C claim snapshot owner tokens outcome o)
  unfolding follow_spend
  follow_spend-IsSquare snapshot owner tokens spent o d h ended =
      reserve-IsSquare R S L P N G settings C claim given read snapshot j owner tokens o
        (λ e. h (ground arith)) ended
  follow_spend-IsSquare snapshot owner tokens (bucket_empty secs) o d h ended = ground (
    arith,
    h refl,
    emission R S L P N G settings C claim j
        (requeue-keeps R S L P N G settings C claim throttled secs o),
  )
  follow_spend-IsSquare snapshot owner tokens (daily_capped secs) o d h ended = ground (
    arith,
    h refl,
    emission R S L P N G settings C claim j
        (requeue-keeps R S L P N G settings C claim throttled secs o),
  )

  spend-IsSquare :
      (snapshot : GroupSnapshot) (owner : String) (tokens : List String)
      (o : Outbox R S L P N G settings C claim)
      → IsUncharged R S L P N G settings C claim j o.store
      → IsSquare R S L P N G settings C claim j
          (spend_and_push R S L P N G settings C claim snapshot owner tokens o)
  unfolding spend_and_push
  spend-IsSquare snapshot owner tokens o h ended = elim (Bool-cases (is_digest snapshot)) [
    | inl d ↦ ground (
      arith,
      reserve-IsSquare R S L P N G settings C claim given read snapshot j owner tokens o (λ e. h),
    )
    | inr d ↦
        (let charged = charge R S L P N G settings C claim snapshot.owner o in
          ground (
            arith,
            follow_spend-IsSquare snapshot owner tokens charged.0 charged.1 d
                (charge-IsUncharged snapshot.owner o h),
          ))
  ]

  preferences-IsSquare :
      (snapshot : GroupSnapshot) (owner : String) (tokens : List String)
      (o : Outbox R S L P N G settings C claim)
      → IsUncharged R S L P N G settings C claim j o.store
      → IsSquare R S L P N G settings C claim j
          (check_preferences R S L P N G settings C claim snapshot owner tokens o)
  unfolding check_preferences
  preferences-IsSquare snapshot owner tokens o h ended =
      let prefs = get_user_preferences G snapshot.owner settings.default_preferences o.world.keys in
      let snapshot' = if is_digest snapshot then enabled_totals prefs snapshot else snapshot in
      ground (
        arith,
        h,
        emission R S L P N G settings C claim j
            (finish-keeps R S L P N G settings C claim (suppressed "preference_disabled") o),
        spend-IsSquare snapshot' owner tokens o h,
      )

  recipient-IsSquare :
      (snapshot : GroupSnapshot) (owner : String) (o : Outbox R S L P N G settings C claim)
      → IsUncharged R S L P N G settings C claim j o.store
      → IsSquare R S L P N G settings C claim j
          (check_recipient R S L P N G settings C claim snapshot owner o)
  unfolding check_recipient
  recipient-IsSquare snapshot owner o h ended = ground (
    arith,
    h,
    emission R S L P N G settings C claim j
        (finish-keeps R S L P N G settings C claim (suppressed "not_allowlisted") o),
    emission R S L P N G settings C claim j
        (finish-keeps R S L P N G settings C claim (suppressed "no_tokens") o),
    preferences-IsSquare snapshot owner
        (tokens_at R S L P N G settings C claim C.lookup_now owner o.world) o h,
  )

  closed-IsSquare :
      (outcome : FlushOutcome) (o : Outbox R S L P N G settings C claim)
      → IsUncharged R S L P N G settings C claim j o.store
      → IsSquare R S L P N G settings C claim j (finish R S L P N G settings C claim outcome o)
  closed-IsSquare outcome o h ended = ground (
    arith,
    h,
    emission R S L P N G settings C claim j (finish-keeps R S L P N G settings C claim outcome o),
  )

  owner-IsSquare :
      (snapshot : GroupSnapshot) (o : Outbox R S L P N G settings C claim)
      → IsUncharged R S L P N G settings C claim j o.store
      → IsSquare R S L P N G settings C claim j
          (check_owner R S L P N G settings C claim snapshot o)
  unfolding check_owner
  owner-IsSquare snapshot o h ended = elim (Option-cases (N.from_hex snapshot.owner)) [
    | inl e ↦ ground (arith, h, closed-IsSquare (empty "unparseable_owner") o h)
    | inr (owner, e) ↦ ground (arith, h, recipient-IsSquare snapshot owner o h)
  ]

  snapshot-IsSquare :
      (snapshot : GroupSnapshot) (o : Outbox R S L P N G settings C claim)
      → IsUncharged R S L P N G settings C claim j o.store
      → IsSquare R S L P N G settings C claim j
          (flush_snapshot R S L P N G settings C claim snapshot o)
  unfolding flush_snapshot
  snapshot-IsSquare snapshot o h ended = ground (
    arith,
    h,
    emission R S L P N G settings C claim j (drop-keeps R S L P N G settings C claim o),
    closed-IsSquare (empty "unknown_type") o h,
    closed-IsSquare (empty "no_pending") o h,
    closed-IsSquare (empty "missing_actor_count") o h,
    owner-IsSquare snapshot o h,
  )

  -- After a flush of which no device took a summary, whether it ends with an outcome, with an error
  -- or cancelled, no recipient's window has an emission of the group, if there was none before and
  -- neither the refund nor the read of the clock at the group's logical expiry fails.
  pub flush-IsUncharged :
      (o : Outbox R S L P N G settings C claim)
      → IsUncharged R S L P N G settings C claim j o.store
      → is_undelivered R S L P N G settings C claim (flush_group R S L P N G settings C claim o)
        ≡ true
      → IsUncharged R S L P N G settings C claim j
          (flush_group R S L P N G settings C claim o).outbox.store
  unfolding flush_group
  flush-IsUncharged o h ended =
      elim (Option-cases (load_group R L N C.load_at claim.group_id o.store)) [
        | inl e ↦ ground (arith, h, closed-IsSquare (empty "missing_group") o h)
        | inr (snapshot, e) ↦ ground (arith, h, snapshot-IsSquare snapshot o h)
      ]
