-- ===== src/Coalesce/Worker.antt =====
-- `run_coalesce_flush` (src/coalesce.rs): the passes of a worker, each of which claims a group and
-- flushes it. The gauge of the oldest group and the waits between passes have no effect on the keys.
pub mod Returned
use divine_push_service.Prelude.{
  ℕ, String, Bool, true, false, Option, none, some, List, [], ◌∷◌, if◌then◌else◌,
}
use divine_push_service.Redis.{SortedSets}
use divine_push_service.Redis.Members.{MemberSets}
use divine_push_service.Preferences.{Format}
use divine_push_service.Devices.{Parsers}
use divine_push_service.World.{World}
use divine_push_service.Coalesce.Groups.{ActorCounts, Store}
use divine_push_service.Coalesce.Queue.{GroupClaim, claim_due_group, complete_group}
use divine_push_service.Coalesce.Summary.{Names}
use divine_push_service.Coalesce.Flush.{
  FlushSettings, FlushCall, FlushResult, ok, stopped, err, flush_group, Outbox,
}

module _ (R : SortedSets) (S : MemberSets) (L : ActorCounts) where
  pub record State : Type 0 where
    pub store : Store R L
    pub world : World R S

  -- One pass: when it claims and the identifier that it draws, the calls of its flush, whether the
  -- flush ran into its timeout, and what it had done by then; and when a flush that failed is
  -- released.
  pub record Pass : Type 0 where
    pub claim_at : ℕ
    pub token : String
    pub claim_fails : Bool
    pub call : FlushCall
    pub times_out : Bool
    pub dropped : State → State
    pub release_at : ℕ
    pub release_fails : Bool

  module _ (P : Parsers) (N : Names) (G : Format) (settings : FlushSettings) (lease_secs : ℕ) where
    -- The group goes back to the due queue.
    unfoldable pub release : Pass → GroupClaim → ℕ → Store R L → Store R L
    release p claim delay_secs st =
        if p.release_fails
        then st
        else (complete_group R L p.release_at claim (some delay_secs) st).1

    unfoldable pub after_flush : Pass → GroupClaim → FlushResult → Store R L → Store R L
    unfolding release
    after_flush p claim (ok outcome) st = st
    after_flush p claim stopped st = release p claim 0 st
    after_flush p claim err st = release p claim settings.coalesce_retry_secs st

    -- Whether the worker goes on, and what the pass leaves.
    unfoldable pub flush_claim : Pass → GroupClaim → State → Bool × State
    flush_claim p claim s =
        let d =
          flush_group R S L P N G settings p.call claim
            (record { store = s.store; world = s.world }) in
        if p.times_out then (true, p.dropped s) else (
          elim d.result [ stopped ↦ false | _ ↦ true ],
          record { store = after_flush p claim d.result d.outbox.store; world = d.outbox.world },
        )

    unfoldable pub pass : Pass → State → Bool × State
    pass p s =
        if p.claim_fails
        then (true, s)
        else let (claimed, st) = claim_due_group R L p.claim_at lease_secs p.token s.store in
          elim claimed [
            | none ↦ (true, record s { store = st })
            | some claim ↦ flush_claim p claim (record s { store = st })
          ]

    -- The loop, over the passes that it comes to before it is cancelled.
    unfoldable pub run_coalesce_flush : List Pass → State → State
    run_coalesce_flush [] s = s
    run_coalesce_flush (p ∷ passes) s =
        let rest = run_coalesce_flush passes (pass p s).1 in
        if (pass p s).0 then rest else (pass p s).1
