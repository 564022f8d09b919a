-- ===== src/Coalesce/Queue/Schedule.antt =====
-- Which groups the due queue and the lease queue hold after each script of src/coalesce.rs.
use divine_push_service.Prelude.{
  ℕ, ◌+◌, ◌≤◌, ◌≡◌, String, Bool, true, false, ◌||◌, Option, none, some, List, [], ◌∷◌, arith,
  eq_iff, unwrap_or, is_some, if◌then◌else◌, inl, inr, refl, ap, ◌∙◌, not, Bool-cases, ltb, leb,
}
use divine_push_service.Redis.{SortedSets, Key, at_time, write}
use divine_push_service.Coalesce.{ServiceSettings, max_recovery_per_claim, max_dangling_skips}
use divine_push_service.Coalesce.Groups.{ActorCounts, Group, Store, buffered_in, update}
use divine_push_service.Coalesce.Ingest.{
  Formats, Trigger, ingest_for_generation, ingest_new, group_id, due_at, finish, Charge,
  base_fields, count_action, target_fields, dispose, charge_immediate, no_charge, is_digest,
  has_action,
}
use divine_push_service.Coalesce.Queue.{
  GroupClaim, fields, found, names, recover, recover_all, take_due, lease_group, claim_due_group,
  complete_group,
}

module _ (R : SortedSets) (L : ActorCounts) where
  open R use {zscore, zadd, zrem, zrangebyscore}

  abbrev pub is_indexed : String → Store R L → Bool
  is_indexed j st = is_some (zscore st.due j) || is_some (zscore st.leases j)

  abbrev pub pending_at : ℕ → String → Store R L → ℕ
  pending_at now j st = unwrap_or (fields (found R L now j st)).pending 0

  -- A group that has pending events at `now` is in one of the two indexes.
  pub record IsScheduled (now : ℕ) (j : String) (st : Store R L) : Type 0 where
    pub indexed : leb (pending_at now j st) 0 || is_indexed j st ≡ true

  recover-IsScheduled :
      (now : ℕ) (gid j : String) (st : Store R L)
      → IsScheduled now j st
      → IsScheduled now j (recover R L now gid st).0
  unfolding recover
  recover-IsScheduled now gid j st h = record {
    indexed = ground (
      arith,
      eq_iff gid j,
      h.indexed,
      R.zscore-zrem gid st.leases j,
      R.zscore-zadd (unwrap_or (fields (found R L now gid st)).due 0) gid st.due j,
      R.zscore-zadd now gid st.due j,
    );
  }

  recover_all-IsScheduled :
      (now : ℕ) (gids : List String) (j : String) (st : Store R L)
      → IsScheduled now j st
      → IsScheduled now j (recover_all R L now gids st).0
  unfolding recover_all
  recover_all-IsScheduled now [] j st h = h
  recover_all-IsScheduled now (gid ∷ gids) j st h =
      recover_all-IsScheduled now gids j (recover R L now gid st).0
        (recover-IsScheduled now gid j st h)

  lease_group-IsScheduled :
      (now lease_secs : ℕ) (token gid j : String) (st : Store R L)
      → IsScheduled now j st
      → IsScheduled now j (lease_group R L now lease_secs token gid st)
  unfolding lease_group
  lease_group-IsScheduled now lease_secs token gid j st h = record {
    indexed = ground (
      arith,
      eq_iff gid j,
      h.indexed,
      R.zscore-zrem gid st.due j,
      R.zscore-zadd (now + lease_secs) gid st.leases j,
    );
  }

  dangling-IsScheduled :
      (now : ℕ) (gid j : String) (st : Store R L)
      → is_some (found R L now gid st) ≡ false
      → IsScheduled now j st
      → IsScheduled now j (record st { due = zrem gid st.due })
  dangling-IsScheduled now gid j st gone h = record {
    indexed = ground (arith, eq_iff gid j, h.indexed, R.zscore-zrem gid st.due j);
  }

  take_due-IsScheduled :
      (now lease_secs : ℕ) (token : String) (gids : List String) (j : String) (st : Store R L)
      → IsScheduled now j st
      → IsScheduled now j (take_due R L now lease_secs token gids st).1.0
  unfolding take_due
  take_due-IsScheduled now lease_secs token [] j st h = h
  take_due-IsScheduled now lease_secs token (gid ∷ gids) j st h =
      elim (Bool-cases (is_some (found R L now gid st))) [
        | inl there ↦ rw there (lease_group-IsScheduled now lease_secs token gid j st h)
        | inr gone ↦ rw gone (
            take_due-IsScheduled now lease_secs token gids j (record st { due = zrem gid st.due })
              (dangling-IsScheduled now gid j st gone h))
      ]

  pub claim-IsScheduled :
      (now lease_secs : ℕ) (token j : String) (st : Store R L)
      → IsScheduled now j st
      → IsScheduled now j (claim_due_group R L now lease_secs token st).1
  unfolding claim_due_group
  claim-IsScheduled now lease_secs token j st h =
      let gids = names (zrangebyscore now max_recovery_per_claim st.leases) in
      let st' = (recover_all R L now gids st).0 in
      take_due-IsScheduled now lease_secs token
        (names (zrangebyscore now max_dangling_skips st'.due)) j st'
        (recover_all-IsScheduled now gids j st h)

  pub complete-IsScheduled :
      (now : ℕ) (claim : GroupClaim) (requeue : Option ℕ) (j : String) (st : Store R L)
      → IsScheduled now j st
      → IsScheduled now j (complete_group R L now claim requeue st).1
  unfolding complete_group
  complete-IsScheduled now claim none j st h = record {
    indexed =
        ground
          (arith, eq_iff claim.group_id j, h.indexed, R.zscore-zrem claim.group_id st.leases j);
  }
  complete-IsScheduled now claim (some secs) j st h = record {
    indexed = ground (
      arith,
      eq_iff claim.group_id j,
      h.indexed,
      R.zscore-zrem claim.group_id st.leases j,
      R.zscore-zadd (now + secs) claim.group_id st.due j,
    );
  }

  -- As time passes a group can only go.
  pub later-IsScheduled :
      (now now' : ℕ) (j : String) (st : Store R L)
      → now ≤ now'
      → IsScheduled now j st
      → IsScheduled now' j st
  later-IsScheduled now now' j st later h = record { indexed = ground (arith, h.indexed) }

  module _ (F : Formats) (s : ServiceSettings) (now : ℕ) (t : Trigger) where
    finish-IsScheduled :
        (c : Charge R L F) (k : Key (Option Group)) (counted : Bool) (g : Group) (gid j : String)
        (st : Store R L)
        → unwrap_or g.pending 0 ≡ pending_at now gid st
        → IsScheduled now j st
        → IsScheduled now j (finish R L F s now t gid c k counted g st).1
    unfolding finish
    finish-IsScheduled c k counted g gid j st same h = record {
      indexed = ground (arith, h.indexed, eq_iff gid j, R.zscore-zadd (due_at s now) gid st.due j);
    }

    pending-based : (new : Bool) (g : Group) → (base_fields s now t new g).pending ≡ g.pending
    unfolding base_fields
    pending-based new g = refl

    pending-count_action : (g : Group) → (count_action t g).0.pending ≡ g.pending
    unfolding count_action
    pending-count_action g = ground arith

    pending-target_fields : (g : Group) → (target_fields t g).pending ≡ g.pending
    unfolding target_fields
    pending-target_fields g = refl

    -- An action that the digest has: the group is written with the fields that it has.
    duplicate-IsScheduled :
        (gid j : String) (g : Group) (st : Store R L)
        → unwrap_or g.pending 0 ≡ pending_at now gid st
        → IsScheduled now j st
        → IsScheduled now j (
            dispose R L F s now t (buffered_in gid) (record st {
              groups = update st.groups gid (write (some g) (at_time now none (st.groups gid)));
            }))
    unfolding dispose
    duplicate-IsScheduled gid j g st same h = record {
      indexed = ground (arith, h.indexed, eq_iff gid j);
    }

    ingest_new-IsScheduled :
        (j : String) (st : Store R L)
        → IsScheduled now j st
        → IsScheduled now j (ingest_new R L F s now t st).1
    unfolding ingest_new
    ingest_new-IsScheduled j st h =
        let gid = group_id F s now t in
        let k = at_time now none (st.groups gid) in
        let g = fields k.value in
        let base = base_fields s now t (not (is_some k.value)) g in
        let same : unwrap_or base.pending 0 ≡ unwrap_or g.pending 0 =
          ap (λ o. unwrap_or o 0) (pending-based (not (is_some k.value)) g) in
        let c : Charge R L F =
          if ltb (unwrap_or g.immediate 0) s.coalesce_immediate_limit
          then charge_immediate R L F s now t (st.allowances t.owner)
          else no_charge R L F (st.allowances t.owner) in
        let st' = record st { allowances = update st.allowances t.owner c.allowance } in
        let h' : IsScheduled now j st' = record { indexed = h.indexed } in
        elim (Bool-cases (is_digest s)) [
          | inl d ↦ rw d (elim (Bool-cases (has_action t base)) [
            | inl has ↦ rw has (duplicate-IsScheduled gid j base st' same h')
            | inr new ↦ rw new (
                finish-IsScheduled c k (count_action t base).1 (count_action t base).0 gid j st'
                  (ap (λ o. unwrap_or o 0) (pending-count_action base) ∙ same) h')
          ])
          | inr n ↦ rw n (
              finish-IsScheduled c k true (target_fields t base) gid j st'
                (ap (λ o. unwrap_or o 0) (pending-target_fields base) ∙ same) h')
        ]

    pub ingest-IsScheduled :
        (j : String) (st : Store R L)
        → IsScheduled now j st
        → IsScheduled now j (ingest_for_generation R L F s now t st).1
    unfolding ingest_for_generation
    ingest-IsScheduled j st h = ground (arith, ingest_new-IsScheduled j st h)
