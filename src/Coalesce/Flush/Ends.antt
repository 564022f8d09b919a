-- ===== src/Coalesce/Flush/Ends.antt =====
-- The ways that a flush ends in, and what it leaves by each (src/coalesce.rs, `flush_group`).
use divine_push_service.Prelude.{
  ℕ, ◌/◌, ◌≡◌, String, Bool, true, false, ◌||◌, some, List, arith, if◌then◌else◌, inl, inr,
  Option-cases, refl, max, length,
}
use divine_push_service.Redis.{SortedSets}
use divine_push_service.Redis.Members.{MemberSets}
use divine_push_service.Budget.{
  BudgetDecision, allowed, active, stale_visit, allowance_exhausted, cooldown, capped,
}
use divine_push_service.Delivery.{reserve_budget_for_generation, validate_reservation}
use divine_push_service.Preferences.{Format, get_user_preferences}
use divine_push_service.Devices.{Parsers}
use divine_push_service.Payload.{FcmPayload}
use divine_push_service.Provider.{SendResult, delivered_tokens}
use divine_push_service.World.{budgets_at, with_budgets}
use divine_push_service.Coalesce.Tokens.{Allowance, SpendOutcome, spent, bucket_empty, daily_capped}
use divine_push_service.Coalesce.Groups.{ActorCounts, Store}
use divine_push_service.Coalesce.Queue.{GroupClaim}
use divine_push_service.Coalesce.Summary.{Names, GroupSnapshot, load_group}
use divine_push_service.Coalesce.Flush.{
  FlushSettings, FlushCall, FlushOutcome, FlushResult, ok, stopped, err, sent, retry_queued,
  throttled, suppressed, empty, is_digest, Outbox, Flushed, finish, drop_expired_group,
  requeue_or_expire, refund, refunded, return_undelivered, settle, push, validate_and_push,
  check_expiry, recheck_tokens, follow, reserve_and_push, charge, follow_spend, spend_and_push,
  check_preferences, check_recipient, check_owner, flush_snapshot, flush_group, tokens_at,
  enabled_totals, fail, identity, kept_tokens, summary_payload, remove_unregistered,
  refresh_delivered, retryable_failure, failures,
}
use divine_push_service.Coalesce.Flush.Completion.{is_queued_again}

module _ (R : SortedSets) (S : MemberSets) (L : ActorCounts) (P : Parsers) (N : Names) (G : Format)
    (settings : FlushSettings) (C : FlushCall) (claim : GroupClaim) where
  -- What a flush leaves of the groups, by its result, of a store that it finds: a rule that holds of
  -- each of the ways that a flush ends in, and of a store whose allowances alone differ.
  pub record EndRule : Type 0 where
    pub before : Store R L → Bool
    pub after : FlushResult → Store R L → Bool
    pub spends :
        (allowances : String → Allowance R) (st : Store R L)
        → before st ≡ true
        → before (record st { allowances = allowances }) ≡ true
    pub fails : (st : Store R L) → before st ≡ true → after err st ≡ true
    pub stops : (st : Store R L) → before st ≡ true → after stopped st ≡ true
    pub finishes :
        (outcome : FlushOutcome) (o : Outbox R S L P N G settings C claim)
        → is_queued_again (ok outcome) ≡ false
        → before o.store ≡ true
        → let d = finish R S L P N G settings C claim outcome o in
          after d.result d.outbox.store ≡ true
    pub drops :
        (o : Outbox R S L P N G settings C claim)
        → before o.store ≡ true
        → let d = drop_expired_group R S L P N G settings C claim o in
          after d.result d.outbox.store ≡ true
    pub requeues :
        (outcome : FlushOutcome) (secs : ℕ) (o : Outbox R S L P N G settings C claim)
        → is_queued_again (ok outcome) ≡ true
        → before o.store ≡ true
        → let d = requeue_or_expire R S L P N G settings C claim outcome secs o in
          after d.result d.outbox.store ≡ true

module _ (R : SortedSets) (S : MemberSets) (L : ActorCounts) (P : Parsers) (N : Names) (G : Format)
    (settings : FlushSettings) (C : FlushCall) (claim : GroupClaim)
    (rule : EndRule R S L P N G settings C claim) where
  abbrev IsDone : Flushed R S L P N G settings C claim → Type 0
  IsDone d = rule.after d.result d.outbox.store ≡ true

  refund-before :
      (owner : String) (o : Outbox R S L P N G settings C claim)
      → rule.before o.store ≡ true
      → rule.before (refund R S L P N G settings C claim owner o).store ≡ true
  unfolding refund
  refund-before owner o h =
      rule.spends (refund R S L P N G settings C claim owner o).store.allowances o.store h

  charge-before :
      (owner : String) (o : Outbox R S L P N G settings C claim)
      → rule.before o.store ≡ true
      → rule.before (charge R S L P N G settings C claim owner o).1.store ≡ true
  unfolding charge
  charge-before owner o h =
      rule.spends (charge R S L P N G settings C claim owner o).1.store.allowances o.store h

  refunded-IsDone :
      (snapshot : GroupSnapshot) (o : Outbox R S L P N G settings C claim)
      (next : Outbox R S L P N G settings C claim → Flushed R S L P N G settings C claim)
      → ((o' : Outbox R S L P N G settings C claim)
          → rule.before o'.store ≡ true
          → IsDone (next o'))
      → rule.before o.store ≡ true
      → IsDone (refunded R S L P N G settings C claim snapshot o next)
  unfolding refunded
  refunded-IsDone snapshot o next done h = ground (
    arith,
    rule.fails o.store h,
    done o h,
    done (refund R S L P N G settings C claim snapshot.owner o) (refund-before snapshot.owner o h),
  )

  module _ (snapshot : GroupSnapshot) where
    return-IsDone :
        (outcomes : List (String × SendResult)) (o : Outbox R S L P N G settings C claim)
        → rule.before o.store ≡ true
        → IsDone (return_undelivered R S L P N G settings C claim snapshot outcomes o)
    unfolding return_undelivered
    return-IsDone outcomes o h = elim (Option-cases (retryable_failure outcomes)) [
      | inl e ↦ ground (
        arith,
        rule.fails o.store h,
        rule.finishes (sent 0 (failures outcomes) snapshot.actor_count) o refl h,
      )
      | inr (delay, e) ↦ ground (
        arith,
        rule.fails o.store h,
        rule.requeues retry_queued (max (delay / 1000000000) settings.coalesce_retry_secs) o refl h,
      )
    ]

    push-IsDone :
        (owner : String) (tokens : List String) (payload : FcmPayload)
        (o : Outbox R S L P N G settings C claim)
        → rule.before o.store ≡ true
        → IsDone (push R S L P N G settings C claim snapshot owner tokens payload o)
    unfolding push settle
    push-IsDone owner tokens payload o h =
        let outcomes = C.send tokens payload in
        let delivered = delivered_tokens outcomes in
        let w =
          remove_unregistered R S L P N G settings C claim owner outcomes
            (refresh_delivered R S L P N G settings C claim delivered o.world) in
        let o' : Outbox R S L P N G settings C claim = record o { world = w } in
        let o'' =
          if is_digest snapshot || C.refund_fails
          then o'
          else refund R S L P N G settings C claim snapshot.owner o' in
        let h'' : rule.before o''.store ≡ true =
          ground (arith, rule.fails o.store h, refund-before snapshot.owner o' h) in
        ground (
          arith,
          rule.fails o.store h,
          return-IsDone outcomes o'' h'',
          rule.finishes (sent (length delivered) (failures outcomes) snapshot.actor_count) o' refl
              h,
        )

    fail-IsDone :
        (o : Outbox R S L P N G settings C claim)
        → rule.before o.store ≡ true
        → IsDone (fail R S L P N G settings C claim o)
    fail-IsDone o h = rule.fails o.store h

    refused-IsDone :
        (reason : String) (o : Outbox R S L P N G settings C claim)
        → rule.before o.store ≡ true
        → IsDone (
            refunded R S L P N G settings C claim snapshot o
              (finish R S L P N G settings C claim (suppressed reason)))
    refused-IsDone reason o h =
        refunded-IsDone snapshot o (finish R S L P N G settings C claim (suppressed reason))
          (λ o'. rule.finishes (suppressed reason) o' refl) h

    validate-IsDone :
        (owner : String) (tokens : List String) (payload : FcmPayload)
        (o : Outbox R S L P N G settings C claim)
        → rule.before o.store ≡ true
        → IsDone (validate_and_push R S L P N G settings C claim snapshot owner tokens payload o)
    unfolding validate_and_push
    validate-IsDone owner tokens payload o h =
        let checked =
          validate_reservation R settings.delivery (identity R S L P N G settings C claim)
            (some snapshot.generation) C.validate_at (budgets_at R S owner o.world) in
        let o' : Outbox R S L P N G settings C claim = record o {
          world = with_budgets R S owner checked.1 o.world;
        } in
        ground (
          arith,
          rule.fails o.store h,
          refunded-IsDone snapshot o (fail R S L P N G settings C claim) fail-IsDone h,
          refused-IsDone "activity_changed" o' h,
          push-IsDone owner tokens payload o' h,
        )

    recheck-IsDone :
        (owner : String) (tokens : List String) (payload : FcmPayload)
        (o : Outbox R S L P N G settings C claim)
        → rule.before o.store ≡ true
        → IsDone (recheck_tokens R S L P N G settings C claim snapshot owner tokens payload o)
    unfolding recheck_tokens check_expiry
    recheck-IsDone owner tokens payload o h =
        let kept =
          kept_tokens (tokens_at R S L P N G settings C claim C.recheck_now owner o.world) tokens in
        ground (
          arith,
          rule.fails o.store h,
          refunded-IsDone snapshot o (fail R S L P N G settings C claim) fail-IsDone h,
          refunded-IsDone snapshot o (drop_expired_group R S L P N G settings C claim) (rule.drops)
              h,
          refused-IsDone "quiet_hours" o h,
          validate-IsDone owner kept payload o h,
        )

    follow-IsDone :
        (owner : String) (tokens : List String) (decision : BudgetDecision)
        (o : Outbox R S L P N G settings C claim)
        → rule.before o.store ≡ true
        → IsDone (follow R S L P N G settings C claim snapshot owner tokens decision o)
    unfolding follow
    follow-IsDone owner tokens allowed o h =
        recheck-IsDone owner tokens (summary_payload R S L P N G settings C claim snapshot owner) o
          h
    follow-IsDone owner tokens (cooldown secs) o h =
        refunded-IsDone snapshot o (requeue_or_expire R S L P N G settings C claim throttled secs)
          (λ o'. rule.requeues throttled secs o' refl) h
    follow-IsDone owner tokens active o h = refused-IsDone "active" o h
    follow-IsDone owner tokens stale_visit o h = refused-IsDone "stale_visit" o h
    follow-IsDone owner tokens allowance_exhausted o h = refused-IsDone "allowance_exhausted" o h
    follow-IsDone owner tokens capped o h = refused-IsDone "frequency_capped" o h

    reserve-IsDone :
        (owner : String) (tokens : List String) (o : Outbox R S L P N G settings C claim)
        → rule.before o.store ≡ true
        → IsDone (reserve_and_push R S L P N G settings C claim snapshot owner tokens o)
    unfolding reserve_and_push
    reserve-IsDone owner tokens o h =
        let reserved =
          reserve_budget_for_generation R settings.delivery (identity R S L P N G settings C claim)
            (some snapshot.generation) C.reserve_at (budgets_at R S owner o.world) in
        let o' : Outbox R S L P N G settings C claim = record o {
          world = with_budgets R S owner reserved.1 o.world;
        } in
        ground (
          arith,
          rule.fails o.store h,
          refunded-IsDone snapshot o (fail R S L P N G settings C claim) fail-IsDone h,
          follow-IsDone owner tokens reserved.0 o' h,
        )

    follow_spend-IsDone :
        (owner : String) (tokens : List String) (outcome : SpendOutcome)
        (o : Outbox R S L P N G settings C claim)
        → rule.before o.store ≡ true
        → IsDone (follow_spend R S L P N G settings C claim snapshot owner tokens outcome o)
    unfolding follow_spend
    follow_spend-IsDone owner tokens spent o h = reserve-IsDone owner tokens o h
    follow_spend-IsDone owner tokens (bucket_empty secs) o h = rule.requeues throttled secs o refl h
    follow_spend-IsDone owner tokens (daily_capped secs) o h = rule.requeues throttled secs o refl h

    spend-IsDone :
        (owner : String) (tokens : List String) (o : Outbox R S L P N G settings C claim)
        → rule.before o.store ≡ true
        → IsDone (spend_and_push R S L P N G settings C claim snapshot owner tokens o)
    unfolding spend_and_push
    spend-IsDone owner tokens o h =
        let charged = charge R S L P N G settings C claim snapshot.owner o in
        ground (
          arith,
          rule.fails o.store h,
          reserve-IsDone owner tokens o h,
          follow_spend-IsDone owner tokens charged.0 charged.1 (charge-before snapshot.owner o h),
        )

  preferences-IsDone :
      (snapshot : GroupSnapshot) (owner : String) (tokens : List String)
      (o : Outbox R S L P N G settings C claim)
      → rule.before o.store ≡ true
      → IsDone (check_preferences R S L P N G settings C claim snapshot owner tokens o)
  unfolding check_preferences
  preferences-IsDone snapshot owner tokens o h =
      let prefs = get_user_preferences G snapshot.owner settings.default_preferences o.world.keys in
      let snapshot' = if is_digest snapshot then enabled_totals prefs snapshot else snapshot in
      ground (
        arith,
        rule.fails o.store h,
        rule.stops o.store h,
        rule.finishes (suppressed "preference_disabled") o refl h,
        spend-IsDone snapshot' owner tokens o h,
      )

  owner-IsDone :
      (snapshot : GroupSnapshot) (o : Outbox R S L P N G settings C claim)
      → rule.before o.store ≡ true
      → IsDone (check_owner R S L P N G settings C claim snapshot o)
  unfolding check_owner check_recipient
  owner-IsDone snapshot o h = elim (Option-cases (N.from_hex snapshot.owner)) [
    | inl e ↦
        ground (arith, rule.fails o.store h, rule.finishes (empty "unparseable_owner") o refl h)
    | inr (owner, e) ↦ ground (
      arith,
      rule.fails o.store h,
      rule.finishes (suppressed "not_allowlisted") o refl h,
      rule.finishes (suppressed "no_tokens") o refl h,
      preferences-IsDone snapshot owner
          (tokens_at R S L P N G settings C claim C.lookup_now owner o.world) o h,
    )
  ]

  snapshot-IsDone :
      (snapshot : GroupSnapshot) (o : Outbox R S L P N G settings C claim)
      → rule.before o.store ≡ true
      → IsDone (flush_snapshot R S L P N G settings C claim snapshot o)
  unfolding flush_snapshot
  snapshot-IsDone snapshot o h = ground (
    arith,
    rule.fails o.store h,
    rule.drops o h,
    rule.finishes (empty "unknown_type") o refl h,
    rule.finishes (empty "no_pending") o refl h,
    rule.finishes (empty "missing_actor_count") o refl h,
    owner-IsDone snapshot o h,
  )

  -- A flush does what a rule says of the way it ends in.
  pub flush-IsDone :
      (o : Outbox R S L P N G settings C claim)
      → rule.before o.store ≡ true
      → IsDone (flush_group R S L P N G settings C claim o)
  unfolding flush_group
  flush-IsDone o h = elim (Option-cases (load_group R L N C.load_at claim.group_id o.store)) [
    | inl e ↦ ground (arith, rule.fails o.store h, rule.finishes (empty "missing_group") o refl h)
    | inr (snapshot, e) ↦ ground (arith, rule.fails o.store h, snapshot-IsDone snapshot o h)
  ]
