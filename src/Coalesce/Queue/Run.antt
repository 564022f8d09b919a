-- ===== src/Coalesce/Queue/Run.antt =====
-- Runs of the scripts of src/coalesce.rs over one store: a sender's events and the workers' claims
-- and completions in any order.
use divine_push_service.Prelude.{ℕ, ◌+◌, String, Option, List, [], ◌∷◌, arith}
use divine_push_service.Redis.{SortedSets}
use divine_push_service.Coalesce.{ServiceSettings}
use divine_push_service.Coalesce.Groups.{ActorCounts, Store, update}
use divine_push_service.Coalesce.Ingest.{Formats, Trigger, ingest_for_generation}
use divine_push_service.Coalesce.Queue.{GroupClaim, claim_due_group, complete_group}
use divine_push_service.Coalesce.Queue.Schedule.{
  IsScheduled, ingest-IsScheduled, claim-IsScheduled, complete-IsScheduled, later-IsScheduled,
}

-- A call, or a visit of a recipient that moves the recipient on to a new generation.
pub data Op : Type 0 where
  ingests : Trigger → Op
  claims : ℕ → String → Op
  completes : GroupClaim → Option ℕ → Op
  visits : String → ℕ → Op

module _ (R : SortedSets) (L : ActorCounts) (F : Formats) (s : ServiceSettings) where
  -- A call at `now`.
  unfoldable pub step : ℕ → Op → Store R L → Store R L
  step now (ingests t) st = (ingest_for_generation R L F s now t st).1
  step now (claims lease_secs token) st = (claim_due_group R L now lease_secs token st).1
  step now (completes claim requeue) st = (complete_group R L now claim requeue st).1
  step now (visits owner generation) st = record st {
    generations = update st.generations owner generation;
  }

  -- The time after calls that each come some seconds after the one before, and what they leave.
  unfoldable pub run : ℕ → List (ℕ × Op) → Store R L → ℕ × Store R L
  run now [] st = (now, st)
  run now ((wait, op) ∷ ops) st = run (now + wait) ops (step (now + wait) op st)

  step-IsScheduled :
      (now : ℕ) (op : Op) (j : String) (st : Store R L)
      → IsScheduled R L now j st
      → IsScheduled R L now j (step now op st)
  unfolding step
  step-IsScheduled now (ingests t) j st h = ingest-IsScheduled R L F s now t j st h
  step-IsScheduled now (claims secs token) j st h = claim-IsScheduled R L now secs token j st h
  step-IsScheduled now (completes claim requeue) j st h =
      complete-IsScheduled R L now claim requeue j st h
  step-IsScheduled now (visits owner generation) j st h = record { indexed = h.indexed }

  -- If every group that has pending events is in the due queue or the lease queue, that holds after
  -- any run of ingests, claims, completions and visits, whatever time passes between them.
  pub run-IsScheduled :
      (now : ℕ) (ops : List (ℕ × Op)) (j : String) (st : Store R L)
      → ((i : String) → IsScheduled R L now i st)
      → IsScheduled R L (run now ops st).0 j (run now ops st).1
  unfolding run
  run-IsScheduled now [] j st h = h j
  run-IsScheduled now ((wait, op) ∷ ops) j st h =
      run-IsScheduled (now + wait) ops j (step (now + wait) op st) (λ i.
        step-IsScheduled (now + wait) op i st
          (later-IsScheduled R L now (now + wait) i st (omega arith) (h i)))
