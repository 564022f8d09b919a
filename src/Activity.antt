-- ===== src/Activity.antt =====
-- src/activity.rs: account-scoped foreground presence and ordered visits. The state of one account
-- is the value of the keys that the scripts of `record_activity`, `current_generation`,
-- `generation_for_work` and `is_active` name; each script is one function of it.
pub mod Sessions
pub mod Presence
pub mod Generations
use divine_push_service.Prelude.{
  ℕ, ◌+◌, ◌-◌, ◌*◌, ◌^◌, String, Bool, true, false, ◌&&◌, Option, none, some, ltb, leb, str_eq,
  if◌then◌else◌, is_some, not, unwrap_or, max,
}
use divine_push_service.Redis.{SortedSets, Key, at_time, write, expire, expire_nx}

abbrev pub presence_ttl_secs : ℕ
presence_ttl_secs = 180

abbrev pub session_ttl_secs : ℕ
session_ttl_secs = 604800

abbrev pub max_sessions_per_account : ℕ
max_sessions_per_account = 128

abbrev pub state_ttl_secs : ℕ
state_ttl_secs = 90 * 24 * 60 * 60

pub data ActivityState : Type 0 where
  foreground background : ActivityState

pub record ActivityUpdate : Type 0 where
  pub session_id : String
  pub sequence : ℕ  -- u32
  pub visit : ℕ  -- u32
  pub state : ActivityState

-- `i32::MAX` is the last sequence.
pub is_valid : ActivityUpdate → Bool
is_valid u =
    (leb 1 u.sequence && leb u.sequence (2 ^ 31 - 1)) && (ltb 0 u.visit && leb u.visit u.sequence)

-- The hash `notification_activity_session:{owner}:{session}`.
pub record Session : Type 0 where
  pub sequence : Option ℕ
  pub visit : Option ℕ
  pub state : Option ActivityState

abbrev pub no_session : Session
no_session = record { sequence = none; visit = none; state = none }

-- The hash `notification_activity:{owner}`.
pub record Visits : Type 0 where
  pub generation : Option ℕ
  pub absence_used : Option ℕ
  pub activity_reported : Bool
  pub last_activity_at : Option ℕ

abbrev pub no_visits : Visits
no_visits = record {
  generation = none;
  absence_used = none;
  activity_reported = false;
  last_activity_at = none;
}

-- The server clock, `TIME`: seconds, and microseconds of the second.
pub record Clock : Type 0 where
  pub secs : ℕ
  pub micros : ℕ

-- The value that seeds `notification_visit_sequence` where it is absent.
abbrev pub seed : Clock → ℕ
seed c = c.secs * 1000000 + c.micros

-- SET .. NX, then INCR: the next value of `notification_visit_sequence`.
pub next_generation : Clock → Option ℕ → ℕ
next_generation c sequence = unwrap_or sequence (seed c) + 1

pub data ServiceError : Type 0 where
  internal activity_session_limit : ServiceError

pub data Outcome : Type 0 where
  renewed_or_stale visit : Outcome

pub data Result {ℓ} (A : Type ℓ) : Type ℓ where
  ok : A → Result A
  err : ServiceError → Result A

-- What the script of `record_activity` returns: 1, 0 or -1.
pub data Reply : Type 0 where
  reset unchanged over_limit : Reply

module _ (R : SortedSets) where
  open R use {Zset, no_members, zscore, zadd, zrem, zremrange, zcard}

  pub record Account : Type 0 where
    -- `user_tokens:{owner}` exists
    pub registered : Bool
    -- one key for each session
    pub sessions : String → Key Session
    pub active : Key Zset
    pub visits : Key Visits
    -- `notification_visit_sequence`, shared by all accounts
    pub visit_sequence : Option ℕ
    pub retained : Key Zset
    -- `notification_work_generation:{owner}:{hash}`, by the hashed identity
    pub work : String → Key (Option ℕ)

  abbrev pub set_session : (String → Key Session) → String → Key Session → String → Key Session
  set_session f id k j = if str_eq id j then k else f j

  abbrev pub set_work :
      (String → Key (Option ℕ)) → String → Key (Option ℕ) → String → Key (Option ℕ)
  set_work f id k j = if str_eq id j then k else f j

  -- The part of the script that a visit later than the session's last one reaches: a new
  -- generation, and the absence allowance anew.
  pub start_visit : Clock → Visits → Option ℕ → Visits × Option ℕ
  start_visit clock v sequence =
      let g = next_generation clock sequence in
      (record v { generation = some g; absence_used = some 0 }, some g)

  -- ZADD and EXPIRE of a foreground state, ZREM of a background one.
  pub set_presence : ℕ → ActivityUpdate → Key Zset → Key Zset
  set_presence now u k = elim u.state [
    | foreground ↦
        expire now presence_ttl_secs (write (zadd (now + presence_ttl_secs) u.session_id k.value) k)
    | background ↦ write (zrem u.session_id k.value) k
  ]

  -- The script past its guards.
  pub apply_update : Clock → ActivityUpdate → ℕ → Account → Reply × Account
  unfolding start_visit set_presence next_generation
  apply_update clock u previous_visit a =
      let now = clock.secs in
      let retained = at_time now no_members a.retained in
      let active = at_time now no_members a.active in
      let visits = at_time now no_visits a.visits in
      let begins = ltb previous_visit u.visit in
      let started =
        if begins
        then start_visit clock visits.value a.visit_sequence
        else (visits.value, a.visit_sequence) in
      (
        if begins then reset else unchanged,
        record a {
          sessions = set_session a.sessions u.session_id (record {
            value = record {
              sequence = some u.sequence;
              visit = some u.visit;
              state = some u.state;
            };
            expires_at = some (now + session_ttl_secs);
          });
          retained = expire now session_ttl_secs (
              write (zadd (now + session_ttl_secs) u.session_id (zremrange now 0 retained.value))
                retained);
          active = set_presence now u (write (zremrange now 0 active.value) active);
          visits = expire now state_ttl_secs (
              write (record (started.0) { activity_reported = true; last_activity_at = none })
                visits);
          visit_sequence = started.1;
        },
      )

  -- The script of `record_activity`.
  pub record_script : Clock → ActivityUpdate → Account → Reply × Account
  unfolding apply_update
  record_script clock u a =
      let now = clock.secs in
      let session = (at_time now no_session (a.sessions u.session_id)).value in
      let previous_visit = unwrap_or session.visit 0 in
      let retained = at_time now no_members a.retained in
      let pruned = zremrange now 0 retained.value in
      if not a.registered
      then (unchanged, a)
      else if leb u.sequence (unwrap_or session.sequence 0)
      then (unchanged, a)
      else if ltb u.visit previous_visit
      then (unchanged, a)
      else if not (is_some (zscore pruned u.session_id))
          && leb max_sessions_per_account (zcard pruned)
      then (over_limit, record a { retained = write pruned retained })
      else apply_update clock u previous_visit a

  abbrev outcome_of : Reply → Result Outcome
  outcome_of reset = ok visit
  outcome_of unchanged = ok renewed_or_stale
  outcome_of over_limit = err activity_session_limit

  -- The outcome is the label of the counter that the code increments.
  unfoldable pub record_activity : Clock → ActivityUpdate → Account → Result Outcome × Account
  unfolding is_valid record_script
  record_activity clock u a =
      if is_valid u
      then (let (reply, a') = record_script clock u a in (outcome_of reply, a'))
      else (err internal, a)

  -- The generation of the account's visit, 0 for a client that reports none.
  unfoldable pub current_generation : ℕ → Account → ℕ
  current_generation now a = unwrap_or (at_time now no_visits a.visits).value.generation 0

  -- A registered account without a generation gets one.
  pub ensure_generation : Clock → Account → Account
  unfolding next_generation
  ensure_generation clock a =
      let visits = at_time clock.secs no_visits a.visits in
      if a.registered && not (is_some visits.value.generation)
      then (let g = next_generation clock a.visit_sequence in
          record a {
            visits =
                expire_nx clock.secs state_ttl_secs
                  (write (record (visits.value) { generation = some g }) visits);
            visit_sequence = some g;
          })
      else a

  -- A marker that is there is kept, for at least the retention asked for.
  pub extend_marker : ℕ → ℕ → Key (Option ℕ) → Key (Option ℕ)
  extend_marker now retention k = elim k.expires_at [
    | none ↦ expire now retention k
    | some t ↦ if ltb (t - now) retention then expire now retention k else k
  ]

  -- The generation that `identity` is bound to: the marker's, or else the current one, which the
  -- marker then keeps.
  unfoldable pub generation_for_work : Clock → String → ℕ → Account → ℕ × Account
  unfolding ensure_generation current_generation extend_marker
  generation_for_work clock identity retention_secs a =
      let now = clock.secs in
      let retention = max retention_secs 1 in
      let marker = at_time now none (a.work identity) in
      let a' = ensure_generation clock a in
      elim marker.value [
        | none ↦
            (let g = current_generation now a' in
              (
                g,
                if a.registered
                    then record a' {
                      work =
                          set_work a'.work identity
                            (record { value = some g; expires_at = some (now + retention) });
                    }
                    else a',
              ))
        | some g ↦ (
          g,
          if a.registered
              then record a' {
                work = set_work a'.work identity (extend_marker now retention marker);
              }
              else a',
        )
      ]

  -- Presence is account-wide.
  unfoldable pub is_active : ℕ → Account → Bool × Account
  is_active now a =
      let active = at_time now no_members a.active in
      let pruned = zremrange now 0 active.value in
      (ltb 0 (zcard pruned), record a { active = write pruned active })
