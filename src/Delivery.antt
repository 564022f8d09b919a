-- ===== src/Delivery.antt =====
-- src/notification_delivery.rs: quiet hours, the devices that a push may go to, and the budget of
-- one account, whose two classes keep a ledger each.
pub mod Quiet
pub mod Limits
use divine_push_service.Prelude.{
  ℕ, ◌+◌, ◌/◌, String, Bool, true, false, ◌&&◌, ◌||◌, Option, none, some, List, [], ◌∷◌, ltb, leb,
  str_eq, if◌then◌else◌,
}
use divine_push_service.Prelude.Int.{ℤ, pos, ◌+ℤ◌, scale, rem_euclid}
use divine_push_service.Redis.{SortedSets, Key}
use divine_push_service.Activity.{Visits}
use divine_push_service.Budget.{
  DeliverySettings, BudgetDecision, allowed, DeliveryClass, nonurgent, direct_message, Request,
  Ledger, Books, reserve, validate,
}

-- The hour of the device's day.
unfoldable pub local_hour : ℤ → ℤ → ℕ
unfolding ◌+ℤ◌ scale rem_euclid
local_hour offset_minutes now = rem_euclid (now +ℤ scale 60 offset_minutes) 86400 / 3600

unfoldable pub in_quiet_hours : ℤ → ℤ → DeliverySettings → Bool
in_quiet_hours offset_minutes now settings =
    let h = local_hour offset_minutes now in
    if ltb settings.quiet_end_hour settings.quiet_start_hour
    then leb settings.quiet_start_hour h || ltb h settings.quiet_end_hour
    else leb settings.quiet_start_hour h && ltb h settings.quiet_end_hour

-- The devices of known timezone that are out of quiet hours, in order.
unfoldable pub social_tokens : List (String × Option ℤ) → ℤ → DeliverySettings → List String
social_tokens [] now settings = []
social_tokens ((token, none) ∷ devices) now settings = social_tokens devices now settings
social_tokens ((token, some offset) ∷ devices) now settings =
    let rest = social_tokens devices now settings in
    if in_quiet_hours offset now settings then rest else token ∷ rest

module _ (R : SortedSets) where
  open R use {Zset}

  -- The budget keys of one account.
  pub record Budgets : Type 0 where
    pub nonurgent_ledger : Ledger R
    pub direct_ledger : Ledger R
    pub visits : Key Visits
    pub leases : Key Zset

  -- `budget_prefixes`: the keys of the class come first.
  unfoldable pub books_of : DeliveryClass → Budgets → Books R
  books_of nonurgent s = record {
    own = s.nonurgent_ledger;
    other = s.direct_ledger;
    visits = s.visits;
    leases = s.leases;
  }
  books_of direct_message s = record {
    own = s.direct_ledger;
    other = s.nonurgent_ledger;
    visits = s.visits;
    leases = s.leases;
  }

  unfoldable pub budgets_of : DeliveryClass → Books R → Budgets
  budgets_of nonurgent b = record {
    nonurgent_ledger = b.own;
    direct_ledger = b.other;
    visits = b.visits;
    leases = b.leases;
  }
  budgets_of direct_message b = record {
    nonurgent_ledger = b.other;
    direct_ledger = b.own;
    visits = b.visits;
    leases = b.leases;
  }

  unfoldable pub reserve_budget_for_class :
      DeliverySettings → Request → ℕ → Budgets → BudgetDecision × Budgets
  unfolding books_of budgets_of
  reserve_budget_for_class settings q now s =
      let (decision, b) = reserve R settings q now (books_of q.class s) in
      (decision, budgets_of q.class b)

  unfoldable pub reserve_budget_for_generation :
      DeliverySettings → String → Option ℕ → ℕ → Budgets → BudgetDecision × Budgets
  unfolding reserve_budget_for_class
  reserve_budget_for_generation settings identity generation now s =
      reserve_budget_for_class settings
        (record { identity = identity; generation = generation; class = nonurgent }) now s

  abbrev is_allowed : BudgetDecision → Bool
  is_allowed allowed = true
  is_allowed _ = false

  unfoldable pub reserve_budget : DeliverySettings → String → ℕ → Budgets → Bool × Budgets
  unfolding reserve_budget_for_generation
  reserve_budget settings identity now s =
      let (decision, s') = reserve_budget_for_generation settings identity none now s in
      (is_allowed decision, s')

  unfoldable pub validate_reservation_for_class :
      DeliverySettings → Request → ℕ → Budgets → Bool × Budgets
  unfolding books_of budgets_of
  validate_reservation_for_class settings q now s =
      let (valid, b) = validate R settings q now (books_of q.class s) in
      (valid, budgets_of q.class b)

  unfoldable pub validate_reservation :
      DeliverySettings → String → Option ℕ → ℕ → Budgets → Bool × Budgets
  unfolding validate_reservation_for_class
  validate_reservation settings identity generation now s =
      validate_reservation_for_class settings
        (record { identity = identity; generation = generation; class = nonurgent }) now s
