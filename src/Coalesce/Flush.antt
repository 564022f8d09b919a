-- ===== src/Coalesce/Flush.antt =====
-- `flush_group` (src/coalesce.rs): one claimed group, from its snapshot to its completion. A stage is
-- a function of the store of the groups and the keys that the delivery paths share; a call that
-- fails changes nothing.
pub mod Charge
pub mod Square
pub mod Uncharged
pub mod Completion
pub mod Ends
pub mod Settled
pub mod Call
unfoldable pub use Call.*
use Prim.Native.String.{◌++◌}
use divine_push_service.Prelude.{
  ℕ, ◌+◌, ◌/◌, String, ◌&&◌, ◌||◌, not, Option, none, some, List, [], ◌∷◌, ltb, ◌==◌, if◌then◌else◌,
  is_some, length, max,
}
use divine_push_service.Prelude.Int.{ℤ}
use divine_push_service.Redis.{SortedSets}
use divine_push_service.Redis.Members.{MemberSets}
use divine_push_service.Budget.{
  BudgetDecision, allowed, active, stale_visit, allowance_exhausted, cooldown, capped,
}
use divine_push_service.Delivery.{
  social_tokens, reserve_budget_for_generation, validate_reservation,
}
use divine_push_service.Preferences.{Format, from_display_name, get_user_preferences}
use divine_push_service.Devices.{
  Parsers, get_tokens_with_timezone_offsets, remove_token, refresh_token_activity,
}
use divine_push_service.Payload.{FcmPayload, immediate_delivery}
use divine_push_service.Provider.{SendResult, accepted, failed, is_not_registered, delivered_tokens}
use divine_push_service.World.{World, is_empty, budgets_at, with_budgets}
use divine_push_service.Campaign.Deliver.{is_permitted}
use divine_push_service.Coalesce.Tokens.{
  SpendOutcome, spent, bucket_empty, daily_capped, consume_recipient_token, refund_recipient_token,
}
use divine_push_service.Coalesce.Groups.{ActorCounts, Store, update}
use divine_push_service.Coalesce.Queue.{
  GroupClaim, CompleteOutcome, completed, requeued, expired, complete_group,
}
use divine_push_service.Coalesce.Summary.{
  Names, GroupSnapshot, load_group, build_summary_payload, short_npub,
}

module _ (R : SortedSets) (S : MemberSets) (L : ActorCounts) (P : Parsers) (N : Names) (G : Format)
    (settings : FlushSettings) (C : FlushCall) (claim : GroupClaim) where
  pub record Outbox : Type 0 where
    pub store : Store R L
    pub world : World R S

  -- The result, what it leaves, and the batch that went to the provider if one did.
  pub record Flushed : Type 0 where
    pub result : FlushResult
    pub outbox : Outbox
    pub batch : Option (List String × FcmPayload)

  abbrev pub fail : Outbox → Flushed
  fail o = record { result = err; outbox = o; batch = none }

  abbrev pub complete : Option ℕ → Outbox → CompleteOutcome × Store R L
  complete requeue o = complete_group R L C.complete_at claim requeue o.store

  -- The group is completed, whoever owns it.
  unfoldable pub finish : FlushOutcome → Outbox → Flushed
  finish outcome o = if C.complete_fails then fail o else record {
    result = ok outcome;
    outbox = record o { store = (complete none o).1 };
    batch = none;
  }

  unfoldable pub drop_expired_group : Outbox → Flushed
  drop_expired_group o = if C.complete_fails then fail o else record {
    result = elim (complete none o).0 [ completed ↦ ok dropped | _ ↦ err ];
    outbox = record o { store = (complete none o).1 };
    batch = none;
  }

  unfoldable pub requeue_or_expire : FlushOutcome → ℕ → Outbox → Flushed
  requeue_or_expire outcome delay_secs o = if C.complete_fails then fail o else record {
    result = elim (complete (some delay_secs) o).0 [
      | requeued ↦ ok outcome
      | expired ↦ ok dropped
      | _ ↦ err
    ];
    outbox = record o { store = (complete (some delay_secs) o).1 };
    batch = none;
  }

  -- `refund_recipient_token` of the claim's emission.
  unfoldable pub refund : String → Outbox → Outbox
  refund owner o = record o {
    store = record o.store {
      allowances = update o.store.allowances owner (
          refund_recipient_token R settings.service C.refund_at claim.group_id
            (o.store.allowances owner));
    };
  }

  -- What a group of one type has spent is refunded before the flush goes on; a digest spent nothing.
  unfoldable pub refunded : GroupSnapshot → Outbox → (Outbox → Flushed) → Flushed
  refunded snapshot o next =
      if is_digest snapshot
      then next o
      else if C.refund_fails
      then fail o
      else next (refund snapshot.owner o)

  unfoldable pub remove_unregistered : String → List (String × SendResult) → World R S → World R S
  remove_unregistered owner [] w = w
  remove_unregistered owner ((token, accepted) ∷ outcomes) w = remove_unregistered owner outcomes w
  remove_unregistered owner ((token, failed e) ∷ outcomes) w = remove_unregistered owner outcomes (
      if is_not_registered e && not (C.removal_fails token)
      then record w { devices = (remove_token R S owner token w.devices).1 }
      else w)

  unfoldable pub refresh_delivered : List String → World R S → World R S
  refresh_delivered tokens w =
      if is_empty tokens || C.refresh_fails
      then w
      else record w { devices = (refresh_token_activity R S C.refresh_at tokens w.devices).1 }

  -- No device took the summary: it is retried where the provider asks for that.
  unfoldable pub return_undelivered : GroupSnapshot → List (String × SendResult) → Outbox → Flushed
  return_undelivered snapshot outcomes o = elim (retryable_failure outcomes) [
    | some delay ↦
        requeue_or_expire retry_queued (max (delay / 1000000000) settings.coalesce_retry_secs) o
    | none ↦ finish (sent 0 (failures outcomes) snapshot.actor_count) o
  ]

  -- What follows the provider's answer. A refund that fails here is only logged.
  unfoldable pub settle : GroupSnapshot → String → List (String × SendResult) → Outbox → Flushed
  settle snapshot owner outcomes o =
      let delivered = delivered_tokens outcomes in
      let o' : Outbox = record o {
        world = remove_unregistered owner outcomes (refresh_delivered delivered o.world);
      } in
      let o'' = if is_digest snapshot || C.refund_fails then o' else refund snapshot.owner o' in
      if is_empty delivered
      then return_undelivered snapshot outcomes o''
      else finish (sent (length delivered) (failures outcomes) snapshot.actor_count) o'

  unfoldable pub push : GroupSnapshot → String → List String → FcmPayload → Outbox → Flushed
  push snapshot owner tokens payload o = record (settle snapshot owner (C.send tokens payload) o) {
    batch = some (tokens, payload);
  }

  abbrev pub identity : String
  identity = "summary:" ++ claim.group_id

  unfoldable pub validate_and_push :
      GroupSnapshot → String → List String → FcmPayload → Outbox → Flushed
  validate_and_push snapshot owner tokens payload o =
      if C.validation_fails
      then refunded snapshot o fail
      else let (valid, b) =
          validate_reservation R settings.delivery identity (some snapshot.generation) C.validate_at
            (budgets_at R S owner o.world) in
        let o' : Outbox = record o { world = with_budgets R S owner b o.world } in
        if valid
        then push snapshot owner tokens payload o'
        else refunded snapshot o' (finish (suppressed "activity_changed"))

  -- The server's clock is read only where the group has a logical expiry.
  unfoldable pub check_expiry : GroupSnapshot → String → List String → FcmPayload → Outbox → Flushed
  check_expiry snapshot owner tokens payload o =
      if (ltb 0 snapshot.expires_at) && C.expiry_fails
      then fail o
      else if is_past snapshot.expires_at C.expiry_at
      then refunded snapshot o drop_expired_group
      else validate_and_push snapshot owner tokens payload o

  unfoldable pub tokens_at : ℤ → String → World R S → List String
  tokens_at now owner w =
      social_tokens (get_tokens_with_timezone_offsets R S P now owner w.devices) now
        settings.delivery

  unfoldable pub recheck_tokens :
      GroupSnapshot → String → List String → FcmPayload → Outbox → Flushed
  recheck_tokens snapshot owner tokens payload o =
      if C.recheck_fails
      then refunded snapshot o fail
      else let kept = kept_tokens (tokens_at C.recheck_now owner o.world) tokens in
        if is_empty kept
        then refunded snapshot o (finish (suppressed "quiet_hours"))
        else check_expiry snapshot owner kept payload o

  unfoldable pub sample_name : GroupSnapshot → String
  sample_name snapshot = if is_digest snapshot then "" else elim snapshot.first_actor [
    | none ↦ "Someone"
    | some actor ↦ elim (C.display_name actor) [ some name ↦ name | none ↦ short_npub N actor ]
  ]

  unfoldable pub summary_payload : GroupSnapshot → String → FcmPayload
  summary_payload snapshot owner = immediate_delivery (
      build_summary_payload N snapshot owner (sample_name snapshot)
        (N.collapse_key_for_group claim.group_id))

  -- The match on the decision, which a refund comes before.
  unfoldable pub follow : GroupSnapshot → String → List String → BudgetDecision → Outbox → Flushed
  follow snapshot owner tokens decision o = elim decision [
    | allowed ↦ recheck_tokens snapshot owner tokens (summary_payload snapshot owner) o
    | cooldown secs ↦ refunded snapshot o (requeue_or_expire throttled secs)
    | active ↦ refunded snapshot o (finish (suppressed "active"))
    | stale_visit ↦ refunded snapshot o (finish (suppressed "stale_visit"))
    | allowance_exhausted ↦ refunded snapshot o (finish (suppressed "allowance_exhausted"))
    | capped ↦ refunded snapshot o (finish (suppressed "frequency_capped"))
  ]

  unfoldable pub reserve_and_push : GroupSnapshot → String → List String → Outbox → Flushed
  reserve_and_push snapshot owner tokens o =
      if C.budget_fails
      then refunded snapshot o fail
      else let (decision, b) =
          reserve_budget_for_generation R settings.delivery identity (some snapshot.generation)
            C.reserve_at (budgets_at R S owner o.world) in
        follow snapshot owner tokens decision
          (record o { world = with_budgets R S owner b o.world })

  -- `consume_recipient_token` of the claim's emission.
  unfoldable pub charge : String → Outbox → SpendOutcome × Outbox
  charge owner o =
      let (outcome, allowance) =
        consume_recipient_token R settings.service C.consume_at claim.group_id
          (o.store.allowances owner) in
      (
        outcome,
        record o {
          store = record o.store { allowances = update o.store.allowances owner allowance };
        },
      )

  -- A deferral is not a failure.
  unfoldable pub follow_spend :
      GroupSnapshot → String → List String → SpendOutcome → Outbox → Flushed
  follow_spend snapshot owner tokens outcome o = elim outcome [
    | spent ↦ reserve_and_push snapshot owner tokens o
    | bucket_empty secs ↦ requeue_or_expire throttled secs o
    | daily_capped secs ↦ requeue_or_expire throttled secs o
  ]

  unfoldable pub spend_and_push : GroupSnapshot → String → List String → Outbox → Flushed
  spend_and_push snapshot owner tokens o =
      if is_digest snapshot
      then reserve_and_push snapshot owner tokens o
      else if C.consume_fails
      then fail o
      else let (outcome, o') = charge snapshot.owner o in
        follow_spend snapshot owner tokens outcome o'

  unfoldable pub check_preferences : GroupSnapshot → String → List String → Outbox → Flushed
  check_preferences snapshot owner tokens o =
      if C.preferences_fail
      then fail o
      else let prefs =
          get_user_preferences G snapshot.owner settings.default_preferences o.world.keys in
        let snapshot' = if is_digest snapshot then enabled_totals prefs snapshot else snapshot in
        if is_preference_disabled prefs snapshot'
        then finish (suppressed "preference_disabled") o
        else if C.cancelled
        then record { result = stopped; outbox = o; batch = none }
        else spend_and_push snapshot' owner tokens o

  unfoldable pub check_recipient : GroupSnapshot → String → Outbox → Flushed
  check_recipient snapshot owner o =
      if not (is_permitted settings.allowed_pubkeys snapshot.owner)
      then finish (suppressed "not_allowlisted") o
      else if C.lookup_fails
      then fail o
      else let tokens = tokens_at C.lookup_now owner o.world in
        if is_empty tokens
        then finish (suppressed "no_tokens") o
        else check_preferences snapshot owner tokens o

  unfoldable pub check_owner : GroupSnapshot → Outbox → Flushed
  check_owner snapshot o = elim (N.from_hex snapshot.owner) [
    | none ↦ finish (empty "unparseable_owner") o
    | some owner ↦ check_recipient snapshot owner o
  ]

  unfoldable pub flush_snapshot : GroupSnapshot → Outbox → Flushed
  flush_snapshot snapshot o =
      if is_past snapshot.expires_at claim.claimed_at
      then drop_expired_group o
      else if not (is_some (from_display_name snapshot.notification_type))
          && not (is_digest snapshot)
      then finish (empty "unknown_type") o
      else if snapshot.pending == 0
      then finish (empty "no_pending") o
      else if not (is_digest snapshot) && (snapshot.actor_count == 0)
      then finish (empty "missing_actor_count") o
      else check_owner snapshot o

  unfoldable pub flush_group : Outbox → Flushed
  flush_group o =
      if C.load_fails then fail o else elim (load_group R L N C.load_at claim.group_id o.store) [
        | none ↦ finish (empty "missing_group") o
        | some snapshot ↦ flush_snapshot snapshot o
      ]
