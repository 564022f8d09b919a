-- ===== src/Budget/Retry.antt =====
-- A retry of an allowed reservation (src/notification_delivery.rs, `reserve_budget_for_class`).
use divine_push_service.Prelude.{
  ℕ, ◌+◌, ◌≤◌, String, ◌≡◌, refl, sym, ◌∙◌, false, none, some, List, [], ◌∷◌, arith, str_eq, eq_iff,
  unwrap_or, All, All-imp,
}
use divine_push_service.Redis.{SortedSets, at_time}
use divine_push_service.Budget.{
  DeliverySettings, allowed, Request, Books, day, open_books, decide, reserve, decision_of,
  generation_of, cooldown_left, is_direct, is_fenced,
}
use divine_push_service.Budget.Spacing.{decide_spaced}
use divine_push_service.Budget.Fence.{decide-IsAuthorized}

-- The loop finds nothing where every other identity has waited.
pub cooldown_over :
    (id : String) (interval now : ℕ) (l : List (String × ℕ))
    → All (λ (e : String × ℕ). str_eq id e.0 ≡ false → e.1 + interval ≤ now) l
    → cooldown_left id interval now l ≡ none
unfolding cooldown_left
cooldown_over id interval now [] h = refl
cooldown_over id interval now ((m, s) ∷ l) h =
    ground (arith, cooldown_over id interval now l h.1, h.0, eq_iff id m, eq_iff m id)

module _ (R : SortedSets) (settings : DeliverySettings) (q : Request) (now : ℕ) where
  open R use {zscore, zcard, zrevrange}

  -- What a retry at the time of the reservation finds.
  record IsReserved (b : Books R) : Type 0 where
    no_lease : zcard b.leases.value ≡ 0
    asked : is_fenced q.generation (generation_of R b) ≡ false
    stamped : zscore b.own.sends.value q.identity ≡ some now
    bound : unwrap_or (b.own.generations.value q.identity) 0 ≡ generation_of R b
    spaced :
        (j : String) (s : ℕ)
        → is_direct q.class ≡ false
        → zscore b.own.sends.value j ≡ some s
        → str_eq q.identity j ≡ false
        → s + settings.min_interval_secs ≤ now

  left_over :
      (b : Books R)
      → IsReserved b
      → is_direct q.class ≡ false
      → cooldown_left q.identity settings.min_interval_secs now (zrevrange 2 b.own.sends.value)
        ≡ none
  left_over b r urgent =
      cooldown_over q.identity settings.min_interval_secs now (zrevrange 2 b.own.sends.value) (
        All-imp (zrevrange 2 b.own.sends.value)
          (λ (e : String × ℕ) at_e other. r.spaced e.0 e.1 urgent at_e other)
          (R.zrevrange-sound 2 b.own.sends.value))

  decide_retry :
      (b : Books R)
      → IsReserved b
      → (decision_of R (decide R settings q now b).0 ≡ allowed)
        × (zcard (decide R settings q now b).1.own.sends.value ≡ zcard b.own.sends.value)
  unfolding decide
  decide_retry b r = ground (arith, left_over b r, R.zcard-zadd now q.identity b.own.sends.value)

  -- A key that is read once reads the same again, also after an EXPIRE or an EXPIRE NX.
  visits_again :
      (b : Books R)
      → generation_of R (open_books R now (decide R settings q now (open_books R now b)).1)
        ≡ generation_of R (open_books R now b)
  unfolding open_books decide
  visits_again b = ground arith

  leases_again :
      (b : Books R)
      → zcard (open_books R now b).leases.value ≡ 0
      → zcard (open_books R now (decide R settings q now (open_books R now b)).1).leases.value ≡ 0
  unfolding open_books decide
  leases_again b h =
      let z = R.zremrange now 0 (at_time now R.no_members b.leases).value in
      ground (
        arith,
        R.zcard-no_members,
        R.zcard-zremrange now 0 R.no_members,
        R.zcount-le-zcard now 0 R.no_members,
        R.zcard-zremrange now 0 z,
        R.zcount-le-zcard now 0 z,
      )

  -- Pruning what was pruned and stamped at the same time takes nothing away.
  zscore_again :
      (z : R.Zset) (j : String)
      → zscore (R.zremrange now day (R.zadd now q.identity (R.zremrange now day z))) j
        ≡ zscore (R.zadd now q.identity (R.zremrange now day z)) j
  zscore_again z j =
      let y = R.zremrange now day z in
      ground (
        arith,
        R.zscore-zremrange now day (R.zadd now q.identity y) j,
        R.zscore-zadd now q.identity y j,
        R.zscore-zremrange now day z j,
      )

  zcard_again :
      (z : R.Zset)
      → zcard (R.zremrange now day (R.zadd now q.identity (R.zremrange now day z)))
        ≡ zcard (R.zadd now q.identity (R.zremrange now day z))
  zcard_again z =
      let y = R.zremrange now day z in
      ground (
        arith,
        R.zcard-zremrange now day (R.zadd now q.identity y),
        R.zcard-zadd now q.identity y,
        R.zcount-zadd now day now q.identity y,
        R.zscore-zremrange now day z q.identity,
        R.zcard-zremrange now day z,
        R.zcount-zremrange now day now day z,
      )

  -- What an allowed decision leaves of its ledger.
  decide-sends :
      (b : Books R)
      → decision_of R (decide R settings q now b).0 ≡ allowed
      → ((decide R settings q now b).1.own.sends.value ≡ R.zadd now q.identity b.own.sends.value)
        × ((decide R settings q now b).1.own.sends.expires_at ≡ some (now + day))
        × ((decide R settings q now b).1.own.generations.expires_at ≡ some (now + day))
  unfolding decide
  decide-sends b ok = ground arith

  open_books-sends :
      (b : Books R)
      → b.own.sends.expires_at ≡ some (now + day)
      → (open_books R now b).own.sends.value ≡ R.zremrange now day b.own.sends.value
  unfolding open_books
  open_books-sends b e = ground arith

  open_books-generations :
      (b : Books R)
      → b.own.sends.expires_at ≡ some (now + day)
      → b.own.generations.expires_at ≡ some (now + day)
      → zscore b.own.sends.value q.identity ≡ some now
      → (open_books R now b).own.generations.value q.identity ≡ b.own.generations.value q.identity
  unfolding open_books
  open_books-generations b e f at = ground arith

  prune_value : (b : Books R) → R.Zset
  prune_value b = (at_time now R.no_members b.own.sends).value

  open_books-own :
      (b : Books R) → (open_books R now b).own.sends.value ≡ R.zremrange now day (prune_value b)
  unfolding open_books prune_value
  open_books-own b = refl

  abbrev decided : Books R → Books R
  decided b = (decide R settings q now (open_books R now b)).1

  module _ (b : Books R)
      (ok : decision_of R (decide R settings q now (open_books R now b)).0 ≡ allowed) where
    sends_twice :
        (open_books R now (decided b)).own.sends.value
        ≡ R.zremrange now day (R.zadd now q.identity (R.zremrange now day (prune_value b)))
    sends_twice = rw (
      open_books-sends (decided b) (decide-sends (open_books R now b) ok).1,
      (decide-sends (open_books R now b) ok).0,
      open_books-own b,
    )

    sends_once :
        (decided b).own.sends.value ≡ R.zadd now q.identity (R.zremrange now day (prune_value b))
    sends_once = rw ((decide-sends (open_books R now b) ok).0, open_books-own b)

    sends_again :
        (j : String)
        → zscore (open_books R now (decided b)).own.sends.value j
          ≡ zscore (decided b).own.sends.value j
    sends_again j = rw (sends_twice, sends_once) (zscore_again (prune_value b) j)

    decided-IsReserved : IsReserved (open_books R now (decided b))
    decided-IsReserved =
        let a = decide-IsAuthorized R settings q now (open_books R now b) ok in
        record {
          no_lease = leases_again b a.no_lease;
          asked = rw visits_again a.asked;
          stamped = sends_again q.identity ∙ a.stamped;
          bound =
              rw
                (
                  open_books-generations (decided b) (decide-sends (open_books R now b) ok).1
                      (decide-sends (open_books R now b) ok).2 a.stamped,
                  visits_again b,
                )
                a.bound;
          spaced = λ j s urgent at_j other.
              decide_spaced R settings q now (open_books R now b) j s ok (ground arith) other
                (sym (sends_again j) ∙ at_j);
        }

-- An allowed reservation that is made again at the same time is allowed again, and takes no further
-- slot of its ledger.
pub reserve_again :
    (R : SortedSets) (settings : DeliverySettings) (q : Request) (now : ℕ) (b : Books R)
    → (reserve R settings q now b).0 ≡ allowed
    → let once = (reserve R settings q now b).1 in
      ((reserve R settings q now once).0 ≡ allowed)
      × (R.zcard (reserve R settings q now once).1.own.sends.value ≡ R.zcard once.own.sends.value)
unfolding reserve
reserve_again R settings q now b ok =
    let (again, size) =
      decide_retry R settings q now (open_books R now (decided R settings q now b))
        (decided-IsReserved R settings q now b ok) in
    (
      again,
      size
          ∙ rw (sends_twice R settings q now b ok, sends_once R settings q now b ok)
              (zcard_again R settings q now (prune_value R settings q now b)),
    )
