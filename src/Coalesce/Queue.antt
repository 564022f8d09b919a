-- ===== src/Coalesce/Queue.antt =====
-- src/coalesce.rs: claiming due groups, and completing them (`claim_due_group`, `complete_group`,
-- `oldest_due_age_seconds`).
pub mod Schedule
pub mod Owner
pub mod Run
use divine_push_service.Prelude.{
  ℕ, ◌+◌, ◌-◌, String, Bool, true, false, ◌&&◌, not, Option, none, some, List, [], ◌∷◌, map, ltb,
  leb, ◌==◌, str_eq, if◌then◌else◌, is_some, unwrap_or, max,
}
use divine_push_service.Redis.{SortedSets, Key, at_time, write}
use divine_push_service.Coalesce.{max_recovery_per_claim, max_dangling_skips}
use divine_push_service.Coalesce.Groups.{ActorCounts, Group, no_group, update, Store}

pub record GroupClaim : Type 0 where
  pub group_id : String
  pub token : String
  pub claimed_at : ℕ

pub data CompleteOutcome : Type 0 where
  completed requeued expired not_owner : CompleteOutcome

-- The group that a script finds, its fields absent where it is.
abbrev pub fields : Option Group → Group
fields o = unwrap_or o no_group

-- Names of a reply.
abbrev pub names : List (String × ℕ) → List String
names [] = []
names ((m, s) ∷ l) = m ∷ names l

module _ (R : SortedSets) (L : ActorCounts) where
  open R use {zscore, zadd, zrem, zrangebyscore}
  open L use {no_actors}

  -- The group as a script at `now` finds it.
  abbrev pub found : ℕ → String → Store R L → Option Group
  found now gid st = (at_time now none (st.groups gid)).value

  -- DEL of the group and of its actors.
  unfoldable pub delete_group : String → Store R L → Store R L
  delete_group gid st = record st {
    groups = update st.groups gid (record { value = none; expires_at = none });
    hlls = update st.hlls gid (record { value = no_actors; expires_at = none });
  }

  unfoldable pub unlease : String → Store R L → Store R L
  unlease gid st = record st { leases = zrem gid st.leases }

  -- One expired lease: the group is dropped, requeued or deleted. The number says whether it was
  -- dropped at its logical expiry.
  unfoldable pub recover : ℕ → String → Store R L → Store R L × ℕ
  unfolding delete_group unlease
  recover now gid st =
      let g = fields (found now gid st) in
      let expires_at = unwrap_or g.expires_at 0 in
      let due_at = unwrap_or g.due 0 in
      let st' = unlease gid st in
      if ltb 0 (unwrap_or g.pending 0)
      then (if ltb 0 expires_at && leb expires_at now
          then (delete_group gid st', 1)
          else if not (is_some (zscore st'.due gid)) && not (is_some (zscore st'.leases gid))
          then (record st' { due = zadd (if ltb 0 due_at then due_at else now) gid st'.due }, 0)
          else (st', 0))
      else (delete_group gid st', 0)

  unfoldable pub recover_all : ℕ → List String → Store R L → Store R L × ℕ
  recover_all now [] st = (st, 0)
  recover_all now (gid ∷ gids) st =
      let (st', n) = recover now gid st in let (st'', m) = recover_all now gids st' in (st'', n + m)

  -- The lease of a due group that is there.
  unfoldable pub lease_group : ℕ → ℕ → String → String → Store R L → Store R L
  lease_group now lease_secs token gid st =
      let k = at_time now none (st.groups gid) in
      record st {
        due = zrem gid st.due;
        leases = zadd (now + lease_secs) gid st.leases;
        groups =
            update st.groups gid (write (some (record (fields k.value) { lease = some token })) k);
      }

  -- The loop over the candidates: the first group that is there is leased, and what dangles before
  -- it is removed.
  unfoldable pub take_due :
      ℕ → ℕ → String → List String → Store R L → Option String × (Store R L × ℕ)
  unfolding lease_group
  take_due now lease_secs token [] st = (none, (st, 0))
  take_due now lease_secs token (gid ∷ gids) st =
      let rest = take_due now lease_secs token gids (record st { due = zrem gid st.due }) in
      if is_some (found now gid st)
      then (some gid, (lease_group now lease_secs token gid st, 0))
      else (rest.0, (rest.1.0, rest.1.1 + 1))

  -- The reply's counts of expired and dangling drops only feed counters.
  unfoldable pub claim_script : ℕ → ℕ → String → Store R L → Option String × (Store R L × ℕ × ℕ)
  claim_script now lease_secs token st =
      let (st', expired_drops) =
        recover_all now (names (zrangebyscore now max_recovery_per_claim st.leases)) st in
      let (claimed, taken) =
        take_due now lease_secs token (names (zrangebyscore now max_dangling_skips st'.due)) st' in
      (claimed, (taken.0, expired_drops, taken.1))

  -- `token` is the new identifier that the worker draws.
  unfoldable pub claim_due_group : ℕ → ℕ → String → Store R L → Option GroupClaim × Store R L
  unfolding claim_script
  claim_due_group now lease_secs token st =
      let (claimed, rest) = claim_script now lease_secs token st in
      (
        elim claimed [
          | none ↦ none
          | some gid ↦ some (record { group_id = gid; token = token; claimed_at = now })
        ],
        rest.0,
      )

  abbrev is_owner : Option String → String → Bool
  is_owner none token = false
  is_owner (some t) token = str_eq t token

  unfoldable pub complete_group :
      ℕ → GroupClaim → Option ℕ → Store R L → CompleteOutcome × Store R L
  unfolding delete_group unlease
  complete_group now claim requeue_after_secs st =
      let gid = claim.group_id in
      let k = at_time now none (st.groups gid) in
      let g = fields k.value in
      let st' = unlease gid st in
      if not (is_owner g.lease claim.token) then (not_owner, st) else elim requeue_after_secs [
        | none ↦ (completed, delete_group gid st')
        | some secs ↦
            (let expires_at = unwrap_or g.expires_at 0 in
              if ltb 0 expires_at && leb expires_at (now + secs)
              then (expired, delete_group gid st')
              else (
                requeued,
                record st' {
                  groups = update st'.groups gid (write (some (record g { lease = none })) k);
                  due = zadd (now + secs) gid st'.due;
                },
              ))
      ]

  unfoldable pub oldest_due_age_seconds : ℕ → Store R L → ℕ
  oldest_due_age_seconds now st = elim (zrangebyscore now 1 st.due) [ [] ↦ 0 | e ∷ l ↦ now - e.1 ]
