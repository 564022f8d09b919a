-- ===== src/Delivery/Limits.antt =====
-- The bounds on one account's sends over any run of calls (src/notification_delivery.rs).
use native.Mathlib.Nat.{add-zero, add_assoc}
use divine_push_service.Prelude.{ℕ, ◌+◌, ◌≤◌, List, [], ◌∷◌, arith}
use divine_push_service.Redis.{SortedSets}
use divine_push_service.Budget.{
  DeliverySettings, DeliveryClass, nonurgent, direct_message, Request, Books, hour, reserve,
  validate, hour_count,
}
use divine_push_service.Budget.Caps.{IsWithin, reserve-IsWithin, validate-IsWithin}
use divine_push_service.Delivery.{
  Budgets, books_of, budgets_of, reserve_budget_for_class, validate_reservation_for_class,
}

-- A call that the service makes of one account's budget.
pub data Call : Type 0 where
  reserve_call validate_call : Request → Call

module _ (R : SortedSets) (settings : DeliverySettings) where
  open R use {zcard, zcount}

  pub make : Call → ℕ → Budgets R → Budgets R
  unfolding reserve_budget_for_class validate_reservation_for_class
  make (reserve_call q) now s = (reserve_budget_for_class R settings q now s).1
  make (validate_call q) now s = (validate_reservation_for_class R settings q now s).1

  -- Calls, each after a number of seconds from the one before it.
  pub make_all : List (ℕ × Call) → ℕ → Budgets R → Budgets R
  make_all [] now s = s
  make_all ((wait, c) ∷ calls) now s = make_all calls (now + wait) (make c (now + wait) s)

  abbrev pub total_wait : List (ℕ × Call) → ℕ
  total_wait [] = 0
  total_wait ((wait, c) ∷ calls) = wait + total_wait calls

  -- The sends of both classes: those of the hour before `now`, and those retained for a day.
  abbrev pub sent_in_hour : ℕ → Budgets R → ℕ
  sent_in_hour now s =
      zcount now hour s.nonurgent_ledger.sends.value + zcount now hour s.direct_ledger.sends.value

  abbrev pub sent_in_day : Budgets R → ℕ
  sent_in_day s = zcard s.nonurgent_ledger.sends.value + zcard s.direct_ledger.sends.value

  pub record AreCapped (now : ℕ) (s : Budgets R) : Type 0 where
    pub hourly : sent_in_hour now s ≤ settings.hourly_cap
    pub daily : sent_in_day s ≤ settings.daily_cap

  AreCapped-IsWithin :
      (k : DeliveryClass) (now : ℕ) (s : Budgets R)
      → AreCapped now s
      → IsWithin R settings now (books_of R k s)
  unfolding books_of hour_count
  AreCapped-IsWithin nonurgent now s w = ground arith
  AreCapped-IsWithin direct_message now s w = ground arith

  IsWithin-AreCapped :
      (k : DeliveryClass) (now : ℕ) (b : Books R)
      → IsWithin R settings now b
      → AreCapped now (budgets_of R k b)
  unfolding budgets_of hour_count
  IsWithin-AreCapped nonurgent now b w = ground arith
  IsWithin-AreCapped direct_message now b w = ground arith

  pub reserve-AreCapped :
      (q : Request) (now later : ℕ) (s : Budgets R)
      → now ≤ later
      → AreCapped now s
      → AreCapped later (reserve_budget_for_class R settings q later s).1
  unfolding reserve_budget_for_class
  reserve-AreCapped q now later s order w =
      IsWithin-AreCapped q.class later (reserve R settings q later (books_of R q.class s)).1 (
        reserve-IsWithin R settings q now later (books_of R q.class s) order
          (AreCapped-IsWithin q.class now s w))

  pub validate-AreCapped :
      (q : Request) (now later : ℕ) (s : Budgets R)
      → now ≤ later
      → AreCapped now s
      → AreCapped later (validate_reservation_for_class R settings q later s).1
  unfolding validate_reservation_for_class
  validate-AreCapped q now later s order w =
      IsWithin-AreCapped q.class later (validate R settings q later (books_of R q.class s)).1 (
        validate-IsWithin R settings q now later (books_of R q.class s) order
          (AreCapped-IsWithin q.class now s w))

  make-AreCapped :
      (c : Call) (now wait : ℕ) (s : Budgets R)
      → AreCapped now s
      → AreCapped (now + wait) (make c (now + wait) s)
  unfolding make
  make-AreCapped (reserve_call q) now wait s w =
      reserve-AreCapped q now (now + wait) s (omega arith) w
  make-AreCapped (validate_call q) now wait s w =
      validate-AreCapped q now (now + wait) s (omega arith) w

  -- Over any run of reservations and validations of either class, from budgets within the bounds,
  -- the sends of the last hour and those retained for a day stay within the settings' bounds, both
  -- classes counted together.
  pub make_all-AreCapped :
      (calls : List (ℕ × Call)) (now : ℕ) (s : Budgets R)
      → AreCapped now s
      → AreCapped (now + total_wait calls) (make_all calls now s)
  unfolding make_all
  make_all-AreCapped [] now s w = rw add-zero w
  make_all-AreCapped ((wait, c) ∷ calls) now s w = rw (← add_assoc) (
      make_all-AreCapped calls (now + wait) (make c (now + wait) s) (make-AreCapped c now wait s w))
