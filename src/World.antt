-- ===== src/World.antt =====
-- The keys that the delivery paths share, over all accounts: the parts' own states, put together
-- where they name the same keys.
use divine_push_service.Prelude.{
  ℕ, String, Bool, true, false, Option, List, [], ◌∷◌, str_eq, if◌then◌else◌,
}
use divine_push_service.Redis.{SortedSets, Key}
use divine_push_service.Redis.Members.{MemberSets}
use divine_push_service.Activity.{Session, Visits, Account}
use divine_push_service.Budget.{Ledger}
use divine_push_service.Delivery.{Budgets}
use divine_push_service.Preferences.{Keys}
use divine_push_service.Claims.{ClaimKeys}
use divine_push_service.Devices.{Devices}

-- A write for one account.
abbrev pub set_at {ℓ} : {A : Type ℓ} → String → A → (String → A) → String → A
set_at owner a f j = if str_eq owner j then a else f j

abbrev pub is_empty {ℓ} : {A : Type ℓ} → List A → Bool
is_empty [] = true
is_empty (x ∷ l) = false

module _ (R : SortedSets) (S : MemberSets) where
  open R use {Zset}
  open S use {smembers}

  pub record World : Type 0 where
    pub devices : Devices R S
    -- the sessions, presence leases, visits, session index and work markers of each account
    pub sessions : String → String → Key Session
    pub active : String → Key Zset
    pub visits : String → Key Visits
    pub retained : String → Key Zset
    pub work : String → String → Key (Option ℕ)
    pub visit_sequence : Option ℕ
    -- the ledgers of each account
    pub nonurgent_ledger : String → Ledger R
    pub direct_ledger : String → Ledger R
    pub keys : Keys
    pub claims : ClaimKeys

  -- `user_tokens:{owner}` exists while the set has a member.
  unfoldable pub account_of : String → World → Account R
  account_of owner w = record {
    registered = if is_empty (smembers (w.devices.user_tokens owner)) then false else true;
    sessions = w.sessions owner;
    active = w.active owner;
    visits = w.visits owner;
    visit_sequence = w.visit_sequence;
    retained = w.retained owner;
    work = w.work owner;
  }

  unfoldable pub with_account : String → Account R → World → World
  with_account owner a w = record w {
    sessions = set_at owner a.sessions w.sessions;
    active = set_at owner a.active w.active;
    visits = set_at owner a.visits w.visits;
    retained = set_at owner a.retained w.retained;
    work = set_at owner a.work w.work;
    visit_sequence = a.visit_sequence;
  }

  unfoldable pub budgets_at : String → World → Budgets R
  budgets_at owner w = record {
    nonurgent_ledger = w.nonurgent_ledger owner;
    direct_ledger = w.direct_ledger owner;
    visits = w.visits owner;
    leases = w.active owner;
  }

  unfoldable pub with_budgets : String → Budgets R → World → World
  with_budgets owner b w = record w {
    nonurgent_ledger = set_at owner b.nonurgent_ledger w.nonurgent_ledger;
    direct_ledger = set_at owner b.direct_ledger w.direct_ledger;
    visits = set_at owner b.visits w.visits;
    active = set_at owner b.leases w.active;
  }
