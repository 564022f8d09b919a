-- ===== src/Budget.antt =====
-- src/notification_delivery.rs: the recipient-wide send budgets. A script is one function of the
-- keys that it names: the ledger of its class, the ledger of the other class, the account's visits
-- and its presence leases.
pub mod Caps
pub mod Spacing
pub mod Fence
pub mod Retry
use divine_push_service.Prelude.{
  ℕ, ◌+◌, ◌-◌, String, Bool, true, false, ◌&&◌, not, Option, none, some, List, [], ◌∷◌, ltb, leb,
  ◌==◌, str_eq, if◌then◌else◌, is_some, unwrap_or,
}
use divine_push_service.Redis.{SortedSets, Key, at_time, write, expire, expire_nx}
use divine_push_service.Activity.{Visits, no_visits, state_ttl_secs}

pub record DeliverySettings : Type 0 where
  pub quiet_start_hour : ℕ
  pub quiet_end_hour : ℕ
  pub hourly_cap : ℕ
  pub daily_cap : ℕ
  pub max_event_age_secs : ℕ
  pub min_interval_secs : ℕ
  pub absence_cap : ℕ

abbrev pub default_settings : DeliverySettings
default_settings = record {
  quiet_start_hour = 21;
  quiet_end_hour = 7;
  hourly_cap = 5;
  daily_cap = 20;
  max_event_age_secs = 3600;
  min_interval_secs = 21600;
  absence_cap = 2;
}

pub data BudgetDecision : Type 0 where
  allowed active stale_visit allowance_exhausted : BudgetDecision
  cooldown : ℕ → BudgetDecision
  capped : BudgetDecision

pub refusal_outcome : BudgetDecision → Option String
refusal_outcome allowed = none
refusal_outcome active = some "active"
refusal_outcome stale_visit = some "stale_visit"
refusal_outcome allowance_exhausted = some "allowance_exhausted"
refusal_outcome (cooldown n) = some "cooldown"
refusal_outcome capped = some "frequency_capped"

pub data DeliveryClass : Type 0 where
  nonurgent direct_message : DeliveryClass

abbrev pub is_direct : DeliveryClass → Bool
is_direct nonurgent = false
is_direct direct_message = true

abbrev pub hour : ℕ
hour = 3600

abbrev pub day : ℕ
day = 86400

-- The loop over the latest entries: what is left of the interval after the first entry of another
-- identity for which anything is left.
unfoldable pub cooldown_left : String → ℕ → ℕ → List (String × ℕ) → Option ℕ
cooldown_left identity interval now [] = none
cooldown_left identity interval now ((m, s) ∷ latest) =
    let rest = cooldown_left identity interval now latest in
    if str_eq m identity
    then rest
    else if ltb now (s + interval)
    then some (s + interval - now)
    else rest

-- The same for the one latest entry, whatever its identity.
unfoldable pub latest_left : ℕ → ℕ → List (String × ℕ) → Option ℕ
latest_left interval now [] = none
latest_left interval now ((m, s) ∷ latest) =
    if ltb now (s + interval) then some (s + interval - now) else none

-- The caller names a generation that is not the account's.
unfoldable pub is_fenced : Option ℕ → ℕ → Bool
is_fenced none generation = false
is_fenced (some g) generation = not (g == generation)

-- What a reservation is asked for.
pub record Request : Type 0 where
  pub identity : String
  pub generation : Option ℕ
  pub class : DeliveryClass

module _ (R : SortedSets) where
  open R use {Zset, no_members, zscore, zadd, zremrange, zcard, zcount, zrevrange}

  pub record Ledger : Type 0 where
    pub sends : Key Zset
    pub generations : Key (String → Option ℕ)

  pub record Books : Type 0 where
    pub own : Ledger
    pub other : Ledger
    pub visits : Key Visits
    pub leases : Key Zset

  abbrev pub forgotten : String → Option ℕ
  forgotten id = none

  -- HDEL of the identities whose score is a day old.
  pub forget : ℕ → Zset → (String → Option ℕ) → String → Option ℕ
  forget now z g id = elim (zscore z id) [
    | none ↦ g id
    | some s ↦ if ltb now (s + day) then g id else none
  ]

  -- The reservations of the last day, and their generations.
  pub prune : ℕ → Ledger → Ledger
  unfolding forget
  prune now l =
      let sends = at_time now no_members l.sends in
      let generations = at_time now forgotten l.generations in
      record {
        sends = write (zremrange now day sends.value) sends;
        generations = write (forget now sends.value generations.value) generations;
      }

  -- Both scripts begin so, but that `validate_script` prunes no ledger.
  pub read_visits : ℕ → Books → Books
  read_visits now b =
      let leases = at_time now no_members b.leases in
      record b {
        visits = at_time now no_visits b.visits;
        leases = write (zremrange now 0 leases.value) leases;
      }

  abbrev pub generation_of : Books → ℕ
  generation_of b = unwrap_or b.visits.value.generation 0

  -- ZCOUNT of both ledgers.
  unfoldable pub hour_count : ℕ → Books → ℕ
  hour_count now b = zcount now hour b.own.sends.value + zcount now hour b.other.sends.value

  -- ZADD of the identity, and EXPIRE of both keys.
  pub stamp : ℕ → String → Ledger → Ledger
  stamp now id l = record {
    sends = expire now day (write (zadd now id l.sends.value) l.sends);
    generations = expire now day l.generations;
  }

  -- HSET of the identity's generation.
  pub bind_generation : String → ℕ → Ledger → Ledger
  bind_generation id g l = record l {
    generations = write (λ j. if str_eq id j then some g else l.generations.value j) l.generations;
  }

  -- The identity has a reservation of the last day, made at `score`.
  pub retry_reservation : DeliverySettings → Request → ℕ → ℕ → Books → (ℕ × ℕ) × Books
  unfolding hour_count stamp
  retry_reservation settings q now score b =
      let left =
        cooldown_left q.identity settings.min_interval_secs now (zrevrange 2 b.own.sends.value) in
      if not (unwrap_or (b.own.generations.value q.identity) 0 == generation_of b)
      then ((2, 0), b)
      else if leb (score + hour) now && leb settings.hourly_cap (hour_count now b)
      then ((5, 0), b)
      else if not (is_direct q.class) && is_some left
      then ((4, unwrap_or left 0), b)
      else ((0, 0), record b { own = stamp now q.identity b.own })

  -- The absence allowance spent: the visit's counter where the account reports activity, and else
  -- the reservations of the last day.
  pub used : Books → ℕ
  used b =
      if b.visits.value.activity_reported
      then unwrap_or b.visits.value.absence_used 0
      else zcard b.own.sends.value

  -- HSET of the allowance spent.
  pub spend_allowance : ℕ → ℕ → Key Visits → Key Visits
  spend_allowance now n k =
      expire_nx now state_ttl_secs (write (record (k.value) { absence_used = some n }) k)

  -- The reservation of a new identity.
  pub reserve_new : Request → ℕ → Books → Books
  unfolding stamp bind_generation used spend_allowance
  reserve_new q now b = record b {
    own = bind_generation q.identity (generation_of b) (stamp now q.identity b.own);
    visits =
        if not (is_direct q.class) && b.visits.value.activity_reported
        then spend_allowance now (used b + 1) b.visits
        else b.visits;
  }

  pub new_reservation : DeliverySettings → Request → ℕ → Books → (ℕ × ℕ) × Books
  unfolding hour_count used reserve_new
  new_reservation settings q now b =
      let left = latest_left settings.min_interval_secs now (zrevrange 1 b.own.sends.value) in
      if not (is_direct q.class) && leb settings.absence_cap (used b)
      then ((3, 0), b)
      else if not (is_direct q.class) && is_some left
      then ((4, unwrap_or left 0), b)
      else if leb settings.daily_cap (zcard b.own.sends.value + zcard b.other.sends.value)
      then ((5, 0), b)
      else if leb settings.hourly_cap (hour_count now b)
      then ((5, 0), b)
      else ((0, 0), reserve_new q now b)

  -- What the script does first, whatever it then decides.
  pub open_books : ℕ → Books → Books
  unfolding prune read_visits
  open_books now b = read_visits now (record b { own = prune now b.own; other = prune now b.other })

  pub decide : DeliverySettings → Request → ℕ → Books → (ℕ × ℕ) × Books
  unfolding retry_reservation new_reservation is_fenced
  decide settings q now b =
      if is_fenced q.generation (generation_of b)
      then ((2, 0), b)
      else if ltb 0 (zcard b.leases.value)
      then ((1, 0), b)
      else elim (zscore b.own.sends.value q.identity) [
        | none ↦ new_reservation settings q now b
        | some score ↦ retry_reservation settings q now score b
      ]

  -- The match on the script's reply.
  abbrev pub decision_of : ℕ × ℕ → BudgetDecision
  decision_of (code, retry_after_secs) =
      if code == 0
      then allowed
      else if code == 1
      then active
      else if code == 2
      then stale_visit
      else if code == 3
      then allowance_exhausted
      else if code == 4
      then cooldown retry_after_secs
      else capped

  unfoldable pub reserve : DeliverySettings → Request → ℕ → Books → BudgetDecision × Books
  unfolding open_books decide
  reserve settings q now b =
      let (reply, b') = decide settings q now (open_books now b) in (decision_of reply, b')

  -- The ledger as the commands of a script at `now` find it.
  pub read_ledger : ℕ → Ledger → Ledger
  read_ledger now l = record {
    sends = at_time now no_members l.sends;
    generations = at_time now forgotten l.generations;
  }

  pub read_books : ℕ → Books → Books
  unfolding read_ledger read_visits
  read_books now b =
      read_visits now (record b { own = read_ledger now b.own; other = read_ledger now b.other })

  -- The checks on a reservation made at `score`.
  pub revalidate : DeliverySettings → Request → ℕ → ℕ → Books → Bool × Books
  unfolding hour_count stamp
  revalidate settings q now score b =
      if leb (score + day) now
      then (false, b)
      else if leb (score + hour) now && leb settings.hourly_cap (hour_count now b)
      then (false, b)
      else if not (generation_of b == unwrap_or (b.own.generations.value q.identity) 0)
      then (false, b)
      else if not (is_direct q.class)
          && is_some (
              cooldown_left q.identity settings.min_interval_secs now
                (zrevrange 2 b.own.sends.value))
      then (false, b)
      else (true, record b { own = stamp now q.identity b.own })

  pub validate_read : DeliverySettings → Request → ℕ → Books → Bool × Books
  unfolding revalidate is_fenced
  validate_read settings q now b =
      if ltb 0 (zcard b.leases.value)
      then (false, b)
      else if is_fenced q.generation (generation_of b)
      then (false, b)
      else elim (zscore b.own.sends.value q.identity) [
        | none ↦ (false, b)
        | some score ↦ revalidate settings q now score b
      ]

  unfoldable pub validate : DeliverySettings → Request → ℕ → Books → Bool × Books
  unfolding read_books validate_read
  validate settings q now b = validate_read settings q now (read_books now b)
