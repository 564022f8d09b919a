-- ===== src/Coalesce/Flush/Charge.antt =====
-- A flush charges the recipient for what it delivers only (src/coalesce.rs, `flush_group`).
use divine_push_service.Prelude.{
  ℕ, ◌≡◌, String, Bool, true, false, ◌||◌, not, Option, none, some, arith, str_eq, eq_refl, inl,
  inr, Bool-cases, ap,
}
use divine_push_service.Redis.{SortedSets, at_time}
use divine_push_service.Redis.Members.{MemberSets}
use divine_push_service.Preferences.{Format}
use divine_push_service.Devices.{Parsers}
use divine_push_service.Provider.{delivered_tokens}
use divine_push_service.World.{is_empty}
use divine_push_service.Coalesce.Tokens.{Allowance, refund_recipient_token}
use divine_push_service.Coalesce.Groups.{ActorCounts, Store}
use divine_push_service.Coalesce.Queue.{GroupClaim, complete_group, delete_group, unlease}
use divine_push_service.Coalesce.Summary.{Names, GroupSnapshot}
use divine_push_service.Coalesce.Flush.{
  FlushSettings, FlushCall, FlushOutcome, is_digest, Outbox, Flushed, finish, drop_expired_group,
  requeue_or_expire, refund, refunded,
}

module _ (R : SortedSets) (S : MemberSets) (L : ActorCounts) (P : Parsers) (N : Names) (G : Format)
    (settings : FlushSettings) (C : FlushCall) (claim : GroupClaim) where
  open R use {zscore, zscore-zrem, zscore-zadd, zscore-zremrange, zscore-no_members, no_members}

  -- The recipient's window has no emission of the group.
  abbrev pub IsUncharged : String → Store R L → Type 0
  IsUncharged j st = zscore (st.allowances j).emitted.value claim.group_id ≡ none

  complete-allowances :
      (requeue : Option ℕ) (st : Store R L)
      → (complete_group R L C.complete_at claim requeue st).1.allowances ≡ st.allowances
  unfolding complete_group delete_group unlease
  complete-allowances requeue st = ground arith

  abbrev pub KeepsAllowances :
      Outbox R S L P N G settings C claim → Flushed R S L P N G settings C claim → Type 0
  KeepsAllowances o d = d.outbox.store.allowances ≡ o.store.allowances

  pub finish-keeps :
      (outcome : FlushOutcome) (o : Outbox R S L P N G settings C claim)
      → KeepsAllowances o (finish R S L P N G settings C claim outcome o)
  unfolding finish
  finish-keeps outcome o = ground (arith, complete-allowances none o.store)

  pub drop-keeps :
      (o : Outbox R S L P N G settings C claim)
      → KeepsAllowances o (drop_expired_group R S L P N G settings C claim o)
  unfolding drop_expired_group
  drop-keeps o = ground (arith, complete-allowances none o.store)

  pub requeue-keeps :
      (outcome : FlushOutcome) (secs : ℕ) (o : Outbox R S L P N G settings C claim)
      → KeepsAllowances o (requeue_or_expire R S L P N G settings C claim outcome secs o)
  unfolding requeue_or_expire
  requeue-keeps outcome secs o = ground (arith, complete-allowances (some secs) o.store)

  pub emission :
      {f g : String → Allowance R} (j : String)
      → f ≡ g
      → zscore (f j).emitted.value claim.group_id ≡ zscore (g j).emitted.value claim.group_id
  emission j e = ap (λ h. zscore (h j).emitted.value claim.group_id) e

  -- What holds of recipient `j` once a group of `owner` may have been charged.
  abbrev pub IsOnlyCharged : GroupSnapshot → String → Store R L → Type 0
  IsOnlyCharged snapshot j st =
      (is_digest snapshot || not (str_eq snapshot.owner j) ≡ true) → IsUncharged j st

  -- No batch went to the provider, or no device took it.
  abbrev pub is_undelivered : Flushed R S L P N G settings C claim → Bool
  is_undelivered d = elim d.batch [
    | none ↦ true
    | some (tokens, payload) ↦ is_empty (delivered_tokens (C.send tokens payload))
  ]

  abbrev pub IsSquare : String → Flushed R S L P N G settings C claim → Type 0
  IsSquare j d = is_undelivered d ≡ true → IsUncharged j d.outbox.store

  pub refund-IsUncharged :
      (snapshot : GroupSnapshot) (j : String) (o : Outbox R S L P N G settings C claim)
      → is_digest snapshot ≡ false
      → IsOnlyCharged snapshot j o.store
      → IsUncharged j (refund R S L P N G settings C claim snapshot.owner o).store
  unfolding refund refund_recipient_token
  refund-IsUncharged snapshot j o h only =
      let emitted = at_time C.refund_at no_members (o.store.allowances snapshot.owner).emitted in
      ground (
        arith,
        only,
        zscore-zrem claim.group_id emitted.value claim.group_id,
        eq_refl claim.group_id,
      )

  pub refunded-IsSquare :
      C.refund_fails ≡ false
      → (snapshot : GroupSnapshot) (j : String) (o : Outbox R S L P N G settings C claim)
        (next : Outbox R S L P N G settings C claim → Flushed R S L P N G settings C claim)
      → ((o' : Outbox R S L P N G settings C claim) → KeepsAllowances o' (next o'))
      → IsOnlyCharged snapshot j o.store
      → IsSquare j (refunded R S L P N G settings C claim snapshot o next)
  unfolding refunded
  refunded-IsSquare given snapshot j o next keeps only ended =
      let o' = refund R S L P N G settings C claim snapshot.owner o in
      elim (Bool-cases (is_digest snapshot)) [
        | inl h ↦ ground (arith, only, emission j (keeps o))
        | inr h ↦ ground (arith, refund-IsUncharged snapshot j o h only, emission j (keeps o'))
      ]
