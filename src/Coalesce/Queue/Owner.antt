-- ===== src/Coalesce/Queue/Owner.antt =====
-- The owner of a leased group (src/coalesce.rs, `claim_due_group`, `complete_group`).
use divine_push_service.Prelude.{
  ℕ, ◌+◌, ◌≤◌, ◌<◌, ◌≡◌, ◌≢◌, String, false, Option, none, some, List, [], ◌∷◌, arith, str_eq,
  eq_iff, eq_refl, unwrap_or, All, ◌⊎◌, ap, ◌∙◌,
}
use divine_push_service.Redis.{SortedSets}
use divine_push_service.Coalesce.{max_recovery_per_claim, max_dangling_skips}
use divine_push_service.Coalesce.Groups.{ActorCounts, Store}
use divine_push_service.Coalesce.Queue.{
  GroupClaim, not_owner, fields, found, names, recover, recover_all, take_due, claim_script,
  claim_due_group, complete_group,
}

-- A name that is in no entry of a reply.
abbrev Without : String → List String → Type 0
Without j = All (λ g. str_eq g j ≡ false)

names-Without :
    (f : String → Option ℕ) (bound : ℕ) (j : String) (s : Option ℕ) (l : List (String × ℕ))
    → All (λ (e : String × ℕ). (f e.0 ≡ some e.1) × (e.1 ≤ bound)) l
    → f j ≡ s
    → ((n : ℕ) → s ≡ some n → bound < n)
    → Without j (names l)
names-Without f bound j s [] sound e over = tt
names-Without f bound j s ((m, n) ∷ l) sound e over =
    (ground (arith, eq_iff m j, over n), names-Without f bound j s l sound.1 e over)

module _ (R : SortedSets) (L : ActorCounts) where
  open R use {zscore, zadd, zrem, zrangebyscore}

  -- The group's index entries: out of the due queue, leased until `t`.
  record IsLeased (j : String) (t : ℕ) (st : Store R L) : Type 0 where
    off : zscore st.due j ≡ none
    held : zscore st.leases j ≡ some t

  recover-IsLeased :
      (now : ℕ) (gid j : String) (t : ℕ) (st : Store R L)
      → str_eq gid j ≡ false
      → IsLeased j t st
      → IsLeased j t (recover R L now gid st).0
  unfolding recover
  recover-IsLeased now gid j t st other h = ground (
    arith,
    R.zscore-zrem gid st.leases j,
    R.zscore-zadd (unwrap_or (fields (found R L now gid st)).due 0) gid st.due j,
    R.zscore-zadd now gid st.due j,
  )

  recover_all-IsLeased :
      (now : ℕ) (gids : List String) (j : String) (t : ℕ) (st : Store R L)
      → Without j gids
      → IsLeased j t st
      → IsLeased j t (recover_all R L now gids st).0
  unfolding recover_all
  recover_all-IsLeased now [] j t st w h = h
  recover_all-IsLeased now (gid ∷ gids) j t st w h =
      recover_all-IsLeased now gids j t (recover R L now gid st).0 w.1
        (recover-IsLeased now gid j t st w.0 h)

  -- A claim takes a group of the candidates.
  take_due-Without :
      (now lease_secs : ℕ) (token : String) (gids : List String) (j : String) (st : Store R L)
      → Without j gids
      → (take_due R L now lease_secs token gids st).0 ≢ some j
  unfolding take_due
  take_due-Without now lease_secs token [] j st w e = cc
  take_due-Without now lease_secs token (gid ∷ gids) j st w e = ground (
    arith,
    eq_refl j,
    take_due-Without now lease_secs token gids j (record st { due = zrem gid st.due }) w.1,
    w.0,
  )

  -- What a claim leaves of the group that it takes.
  take_due-IsLeased :
      (now lease_secs : ℕ) (token : String) (gids : List String) (j : String) (st : Store R L)
      → (take_due R L now lease_secs token gids st).0 ≡ some j
      → IsLeased j (now + lease_secs) (take_due R L now lease_secs token gids st).1.0
  unfolding take_due
  take_due-IsLeased now lease_secs token [] j st e = cc
  take_due-IsLeased now lease_secs token (gid ∷ gids) j st e = ground (
    arith,
    eq_refl j,
    R.zscore-zrem j st.due j,
    R.zscore-zadd (now + lease_secs) j st.leases j,
    take_due-IsLeased now lease_secs token gids j (record st { due = zrem gid st.due }),
  )

  -- Its lease is the claim's, as long as the group is there.
  take_due-lease :
      (now now' lease_secs : ℕ) (token : String) (gids : List String) (j : String) (st : Store R L)
      → (take_due R L now lease_secs token gids st).0 ≡ some j
      → let g = fields (found R L now' j (take_due R L now lease_secs token gids st).1.0) in
        (g.lease ≡ some token) ⊎ (g.lease ≡ none)
  unfolding take_due
  take_due-lease now now' lease_secs token [] j st e = cc
  take_due-lease now now' lease_secs token (gid ∷ gids) j st e = ground (
    arith,
    eq_refl j,
    take_due-lease now now' lease_secs token gids j (record st { due = zrem gid st.due }),
  )

  claimed :
      (now lease_secs : ℕ) (token : String) (claim : GroupClaim) (st : Store R L)
      → (claim_due_group R L now lease_secs token st).0 ≡ some claim
      → (claim_script R L now lease_secs token st).0 ≡ some claim.group_id
  unfolding claim_due_group
  claimed now lease_secs token claim st e = ground arith

  claim-IsLeased :
      (now lease_secs : ℕ) (token : String) (j : String) (st : Store R L)
      → (claim_script R L now lease_secs token st).0 ≡ some j
      → IsLeased j (now + lease_secs) (claim_due_group R L now lease_secs token st).1
  unfolding claim_due_group
  claim-IsLeased now lease_secs token j st e =
      let st' =
        (recover_all R L now (names (zrangebyscore now max_recovery_per_claim st.leases)) st).0 in
      take_due-IsLeased now lease_secs token (names (zrangebyscore now max_dangling_skips st'.due))
        j st' e

  -- No other claim takes a leased group before the lease is over.
  leased_exclusive :
      (now lease_secs : ℕ) (token : String) (j : String) (t : ℕ) (st : Store R L)
      → now < t
      → IsLeased j t st
      → (claim_script R L now lease_secs token st).0 ≢ some j
  unfolding claim_script
  leased_exclusive now lease_secs token j t st live h =
      let l = zrangebyscore now max_recovery_per_claim st.leases in
      let st' = (recover_all R L now (names l) st).0 in
      let h' : IsLeased j t st' =
        recover_all-IsLeased now (names l) j t st
          (names-Without (zscore st.leases) now j (some t) l
            (R.zrangebyscore-sound now max_recovery_per_claim st.leases) h.held
            (λ n e. ground (arith)))
          h in
      take_due-Without now lease_secs token (names (zrangebyscore now max_dangling_skips st'.due)) j
        st'
        (names-Without (zscore st'.due) now j none (zrangebyscore now max_dangling_skips st'.due)
          (R.zrangebyscore-sound now max_dangling_skips st'.due) h'.off (λ n e. cc))

  -- While a claim's lease lives, a claim that directly follows it takes another group.
  pub claim_exclusive :
      (now now' lease_secs lease_secs' : ℕ) (token token' : String) (claim claim' : GroupClaim)
      (st : Store R L)
      → (claim_due_group R L now lease_secs token st).0 ≡ some claim
      → now' < now + lease_secs
      → (claim_due_group R L now' lease_secs' token'
          (claim_due_group R L now lease_secs token st).1).0
        ≡ some claim'
      → claim'.group_id ≢ claim.group_id
  claim_exclusive now now' lease_secs lease_secs' token token' claim claim' st first live second e =
      let st' = (claim_due_group R L now lease_secs token st).1 in
      leased_exclusive now' lease_secs' token' claim.group_id (now + lease_secs) st' live
        (claim-IsLeased now lease_secs token claim.group_id st
          (claimed now lease_secs token claim st first))
        (claimed now' lease_secs' token' claim' st' second ∙ ap some e)

  lease_of_claim :
      (now now' lease_secs : ℕ) (token : String) (claim stale : GroupClaim) (st : Store R L)
      → (claim_due_group R L now lease_secs token st).0 ≡ some claim
      → stale.group_id ≡ claim.group_id
      → let g =
          fields (found R L now' stale.group_id (claim_due_group R L now lease_secs token st).1) in
        (g.lease ≡ some token) ⊎ (g.lease ≡ none)
  unfolding claim_due_group
  lease_of_claim now now' lease_secs token claim stale st taken same =
      let st' =
        (recover_all R L now (names (zrangebyscore now max_recovery_per_claim st.leases)) st).0 in
      rw same (
        take_due-lease now now' lease_secs token
          (names (zrangebyscore now max_dangling_skips st'.due)) claim.group_id st'
          (claimed now lease_secs token claim st taken))

  -- Once a group is claimed under a new token, the worker of an earlier claim, whose token is
  -- another one, can neither delete nor requeue it: its completion, at any time, is refused and
  -- changes nothing.
  pub complete_after_claim :
      (now now' lease_secs : ℕ) (token : String) (claim stale : GroupClaim) (requeue : Option ℕ)
      (st : Store R L)
      → (claim_due_group R L now lease_secs token st).0 ≡ some claim
      → stale.group_id ≡ claim.group_id
      → str_eq token stale.token ≡ false
      → let st' = (claim_due_group R L now lease_secs token st).1 in
        complete_group R L now' stale requeue st' ≡ (not_owner, st')
  unfolding complete_group
  complete_after_claim now now' lease_secs token claim stale requeue st taken same other =
      ground (arith, lease_of_claim now now' lease_secs token claim stale st taken same)
