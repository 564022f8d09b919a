-- ===== src/Tests/Groups.antt =====
-- One recipient's allowance and groups at concrete times.
use Prim.Native.Nat.{zero, suc}
use Prim.Native.String.{◌++◌}
use text.Mathlib.TextLemmas.{append_cancel_left, length-append}
use Prim.Native.String.{count as string_count}
use divine_push_service.Prelude.{
  length, ℕ, ◌+◌, ◌*◌, ◌≤◌, ◌<◌, ◌≡◌, ◌≢◌, ◌∷◌, [], List, none, some, refl, arith, String, inl,
  unwrap_or, ap,
}
use divine_push_service.Redis.Memory.{memory}
use divine_push_service.Redis.Entries.Due.{due}
use divine_push_service.Redis.Entries.{find, without, insert, fresh, count}
use divine_push_service.Coalesce.{
  ServiceSettings, no_bucket, throttle_key_ttl, emitted_key_ttl, full_bucket, one_token,
  physical_ttl,
}
use divine_push_service.Coalesce.Tokens.{
  Allowance, consume_recipient_token, refund_recipient_token, slide, spent,
}
use divine_push_service.Coalesce.Tokens.Rate.{
  IsLasting, held, taken_by_all, taken_bounded, throttle_key_ttl-fills,
}
use divine_push_service.Coalesce.Tokens.Window.{refund_undoes}
use divine_push_service.Coalesce.Groups.{ActorCounts, no_group, Store}
use divine_push_service.Coalesce.Ingest.{
  Formats, Trigger, buffered, stale_visit, ingest_new, has_action, base_fields, finish, group_stem,
  disposition_ttl, group_id, ingest_for_generation,
}
use divine_push_service.Coalesce.Ingest.Replay.{ingest_again}
use divine_push_service.Coalesce.Ingest.Groups.{IsTallied, ingest-IsTallied}
use divine_push_service.Coalesce.Queue.{
  take_due, recover_all, GroupClaim, not_owner, claim_due_group, complete_group,
}
use divine_push_service.Coalesce.Queue.Schedule.{IsScheduled}
use divine_push_service.Coalesce.Queue.Owner.{claim_exclusive, complete_after_claim}
use divine_push_service.Coalesce.Queue.Run.{Op, ingests, claims, run, run-IsScheduled}

-- Two notifications at once, then one in ten minutes.
abbrev settings : ServiceSettings
settings = record {
  coalesce_window_secs = 1_000;
  coalesce_immediate_limit = 1;
  coalesce_group_ttl_secs = 86_400;
  coalesce_logical_expiry_grace_secs = 3_600;
  recipient_throttle_capacity = 2;
  recipient_throttle_refill_secs = 600;
  recipient_daily_window_secs = 86_400;
  recipient_daily_cap = 3;
}

abbrev digest_settings : ServiceSettings
digest_settings = record settings { coalesce_immediate_limit = 0 }

abbrev new_allowance : Allowance memory
new_allowance = record {
  bucket = record { value = no_bucket; expires_at = none };
  emitted = record { value = ([], tt); expires_at = none };
}

new_allowance-IsLasting : IsLasting settings new_allowance.bucket
new_allowance-IsLasting = record { filled = λ e p. cc }

settings-fills : full_bucket settings ≤ throttle_key_ttl settings * 1000
settings-fills = throttle_key_ttl-fills settings (omega arith)

abbrev calls : List (ℕ × String)
calls = (0, "one") ∷ (1, "two") ∷ (1, "three") ∷ (700, "four") ∷ []

taken_bounded_example :
    taken_by_all memory settings settings-fills calls 50 new_allowance * one_token settings
    ≤ held settings 50 no_bucket + 702 * 1000
taken_bounded_example =
    taken_bounded memory settings settings-fills calls 50 new_allowance new_allowance-IsLasting

abbrev spent_allowance : Allowance memory
spent_allowance = (consume_recipient_token memory settings 50 "one" new_allowance).1

one_spent : (consume_recipient_token memory settings 50 "one" new_allowance).0 ≡ spent
unfolding consume_recipient_token find without insert fresh count
one_spent = refl

one_new : memory.zscore (slide memory settings 50 new_allowance).emitted.value "one" ≡ none
unfolding slide find without insert fresh count
one_new = refl

emitted_kept : 60 < 50 + emitted_key_ttl settings
unfolding emitted_key_ttl
emitted_kept = omega arith

emitted_lasts : 0 < emitted_key_ttl settings
unfolding emitted_key_ttl
emitted_lasts = omega arith

refund_undoes_example :
    let back = refund_recipient_token memory settings 50 "one" spent_allowance in
    (held settings 50 back.bucket.value ≡ held settings 50 no_bucket)
    × (memory.zscore back.emitted.value "one"
        ≡ memory.zscore (slide memory settings 50 new_allowance).emitted.value "one")
refund_undoes_example =
    refund_undoes memory settings 50 "one" new_allowance "one" settings-fills emitted_lasts
      new_allowance-IsLasting one_spent one_new

abbrev listed : ActorCounts
listed = record { Hll = List String; no_actors = []; pfadd = λ a l. a ∷ l; pfcount = length }

-- Numbers in tallies.
tally : ℕ → String
tally zero = ""
tally (suc n) = "1" ++ tally n

tally-injective : (m n : ℕ) → tally m ≡ tally n → m ≡ n
unfolding tally
tally-injective zero zero e = refl
tally-injective zero (suc n) e =
    absurd (omega (arith, ap string_count e, length-append "1" (tally n)))
tally-injective (suc m) zero e =
    absurd (omega (arith, ap string_count e, length-append "1" (tally m)))
tally-injective (suc m) (suc n) e =
    ap suc (tally-injective m n (append_cancel_left "1" (tally m) (tally n) e))

abbrev formats : Formats
formats = record { decimal = tally; collapse_key_for_group = λ gid. "key of " ++ gid }

abbrev like : Trigger
like = record {
  event_id = "e1";
  event_kind = 7;
  actor = "fan";
  created_at = 40;
  type = "like";
  owner = "creator";
  target = "video";
  ref_event_id = "";
  ref_address = "34236:creator:video";
  ref_kind = "34236";
  ref_author = "creator";
  ref_dtag = "video";
  action_hash = "h1";
  generation = 0;
}

abbrev empty_store : Store memory listed
empty_store = record {
  dispositions = λ id owner. record { value = none; expires_at = none };
  generations = λ owner. 0;
  allowances = λ owner. new_allowance;
  groups = λ gid. record { value = none; expires_at = none };
  hlls = λ gid. record { value = []; expires_at = none };
  due = ([], tt);
  leases = ([], tt);
}

-- A like that waits: the group has had its one immediate send.
abbrev second : Trigger
second = record like { event_id = "e2"; actor = "friend"; action_hash = "h2" }

abbrev first_store : Store memory listed
first_store = (ingest_for_generation memory listed formats digest_settings 50 like empty_store).1

like_buffered :
    (ingest_for_generation memory listed formats digest_settings 50 like empty_store).0
    ≡ buffered "activity:creator::"
unfolding ingest_for_generation group_id tally find without insert fresh count due ingest_new
    has_action base_fields finish group_stem physical_ttl
like_buffered = refl

like_taken :
    (ingest_for_generation memory listed formats digest_settings 50 like empty_store).0
    ≢ stale_visit
like_taken e = cc (e, like_buffered)

disposition_kept : 60 < 50 + disposition_ttl digest_settings
unfolding disposition_ttl physical_ttl
disposition_kept = omega arith

ingest_again_example :
    ingest_for_generation memory listed formats digest_settings 60 like first_store ≡ (
      (ingest_for_generation memory listed formats digest_settings 50 like empty_store).0,
      first_store,
    )
ingest_again_example =
    ingest_again memory listed formats digest_settings 50 60 like empty_store like_taken refl
      disposition_kept

no_group-IsTallied :
    (j : String) → IsTallied memory listed formats (unwrap_or (empty_store.groups j).value no_group)
no_group-IsTallied j = record {
  likes_bounded = omega arith;
  reposts_bounded = omega arith;
  pending_counted = refl;
  likes_saturated = λ e. cc;
  reposts_saturated = λ e. cc;
}

abbrev first_group : String
first_group = group_id formats digest_settings 50 like

ingest-IsTallied_example :
    IsTallied memory listed formats (unwrap_or (first_store.groups first_group).value no_group)
ingest-IsTallied_example =
    ingest-IsTallied memory listed formats digest_settings 50 like empty_store refl (inl refl)
      no_group-IsTallied first_group

empty_store-IsScheduled : (j : String) → IsScheduled memory listed 0 j empty_store
empty_store-IsScheduled j = record { indexed = refl }

abbrev ops : List (ℕ × Op)
ops = (50, ingests like) ∷ (1_000, claims 60 "worker") ∷ (70, claims 60 "other") ∷ []

run-IsScheduled_example :
    IsScheduled memory listed 1_120 first_group
      (run memory listed formats digest_settings 0 ops empty_store).1
unfolding run
run-IsScheduled_example =
    run-IsScheduled memory listed formats digest_settings 0 ops first_group empty_store
      empty_store-IsScheduled

abbrev first_claim : GroupClaim
first_claim = record { group_id = "activity:creator::"; token = "worker"; claimed_at = 1_050 }

abbrev leased_store : Store memory listed
leased_store = (claim_due_group memory listed 1_050 60 "worker" first_store).1

like_claimed : (claim_due_group memory listed 1_050 60 "worker" first_store).0 ≡ some first_claim
unfolding claim_due_group ingest_for_generation group_id tally find without insert fresh count
    take_due due recover_all ingest_new has_action base_fields finish group_stem physical_ttl
like_claimed = refl

complete_after_claim_example :
    complete_group memory listed 1_060
      (record { group_id = "activity:creator::"; token = "late"; claimed_at = 900 })
      none
      leased_store
    ≡ (not_owner, leased_store)
complete_after_claim_example =
    complete_after_claim memory listed 1_050 1_060 60 "worker" first_claim
      (record { group_id = "activity:creator::"; token = "late"; claimed_at = 900 }) none
      first_store like_claimed refl refl

abbrev two_stored : Store memory listed
two_stored =
    (ingest_for_generation memory listed formats digest_settings 60 (record like { owner = "fan" })
      first_store).1

abbrev fan_claim : GroupClaim
fan_claim = record { group_id = "activity:fan::"; token = "other"; claimed_at = 1_060 }

first_claimed : (claim_due_group memory listed 1_050 60 "worker" two_stored).0 ≡ some first_claim
unfolding claim_due_group ingest_for_generation group_id tally find without insert fresh count
    take_due due recover_all ingest_new has_action base_fields finish group_stem physical_ttl
first_claimed = refl

fan_claimed :
    (claim_due_group memory listed 1_060 60 "other"
      (claim_due_group memory listed 1_050 60 "worker" two_stored).1).0
    ≡ some fan_claim
unfolding claim_due_group ingest_for_generation group_id tally find without insert fresh count
    take_due due recover_all ingest_new has_action base_fields finish group_stem physical_ttl
fan_claimed = refl

claim_exclusive_example : fan_claim.group_id ≢ first_claim.group_id
claim_exclusive_example =
    claim_exclusive memory listed 1_050 1_060 60 60 "worker" "other" first_claim fan_claim
      two_stored first_claimed (omega arith) fan_claimed
