-- ===== src/Budget/Fence.antt =====
-- What an allowed reservation needed, and what a refused one leaves
-- (src/notification_delivery.rs, `reserve_budget_for_class`).
use divine_push_service.Prelude.{ℕ, true, false, ◌≡◌, ◌≢◌, refl, some, arith, eq_refl, unwrap_or}
use divine_push_service.Redis.{SortedSets, at_time}
use divine_push_service.Activity.{no_visits}
use divine_push_service.Budget.{
  DeliverySettings, allowed, Request, Books, open_books, decide, reserve, decision_of,
  generation_of, is_fenced, validate, validate_read, read_books,
}

module _ (R : SortedSets) (settings : DeliverySettings) (q : Request) (now : ℕ) where
  open R use {zscore, zcard}

  -- What an allowed decision on the pruned books `b` found and left.
  pub record IsAuthorized (b b' : Books R) : Type 0 where
    pub no_lease : zcard b.leases.value ≡ 0
    pub asked : is_fenced q.generation (generation_of R b) ≡ false
    pub stamped : zscore b'.own.sends.value q.identity ≡ some now
    pub bound : unwrap_or (b'.own.generations.value q.identity) 0 ≡ generation_of R b

  pub decide-IsAuthorized :
      (b : Books R)
      → decision_of R (decide R settings q now b).0 ≡ allowed
      → IsAuthorized b (decide R settings q now b).1
  unfolding decide
  decide-IsAuthorized b ok = record {
    no_lease = ground arith;
    asked = ground arith;
    stamped =
        ground
          (arith, eq_refl q.identity, R.zscore-zadd now q.identity b.own.sends.value q.identity);
    bound = ground (arith, eq_refl q.identity);
  }

  decide_refused :
      (b : Books R)
      → decision_of R (decide R settings q now b).0 ≢ allowed
      → (decide R settings q now b).1 ≡ b
  unfolding decide
  decide_refused b refused = ground arith

  -- The account's generation at `now`.
  abbrev pub generation_now : Books R → ℕ
  generation_now b = unwrap_or (at_time now no_visits b.visits).value.generation 0

  lease_over : (z : R.Zset) → zcard (R.zremrange now 0 z) ≡ 0 → R.zcount now 0 z ≡ 0
  lease_over z empty = omega (arith, R.zcard-zremrange now 0 z)

  generation_of-open_books : (b : Books R) → generation_of R (open_books R now b) ≡ generation_now b
  unfolding open_books
  generation_of-open_books b = refl

  leases-open_books :
      (b : Books R)
      → (open_books R now b).leases.value
        ≡ R.zremrange now 0 (at_time now R.no_members b.leases).value
  unfolding open_books
  leases-open_books b = refl

  -- An allowed reservation found no presence lease that lasts beyond the time, and found the account
  -- at the generation asked for, if one is. It has stamped its identity with the time and bound it to
  -- the account's generation.
  pub reserve_authorized :
      (b : Books R)
      → (reserve R settings q now b).0 ≡ allowed
      → (R.zcount now 0 (at_time now R.no_members b.leases).value ≡ 0)
        × (is_fenced q.generation (generation_now b) ≡ false)
        × (zscore (reserve R settings q now b).1.own.sends.value q.identity ≡ some now)
        × (unwrap_or ((reserve R settings q now b).1.own.generations.value q.identity) 0
            ≡ generation_now b)
  unfolding reserve
  reserve_authorized b ok =
      let a = decide-IsAuthorized (open_books R now b) ok in
      (
        lease_over (at_time now R.no_members b.leases).value
            (rw (← leases-open_books b) a.no_lease),
        a.asked,
        a.stamped,
        a.bound,
      )

  -- A refused reservation changes nothing but what pruning the books drops.
  pub reserve_refused :
      (b : Books R)
      → (reserve R settings q now b).0 ≢ allowed
      → (reserve R settings q now b).1 ≡ open_books R now b
  unfolding reserve
  reserve_refused b refused = decide_refused (open_books R now b) refused

  -- A reservation that validates is stamped with the time of its validation.
  pub validate-stamped :
      (b : Books R)
      → (validate R settings q now b).0 ≡ true
      → zscore (validate R settings q now b).1.own.sends.value q.identity ≡ some now
  unfolding validate validate_read
  validate-stamped b valid = ground (
    arith,
    eq_refl q.identity,
    R.zscore-zadd now q.identity (read_books R now b).own.sends.value q.identity,
  )
