-- ===== src/Coalesce/Groups.antt =====
-- src/coalesce.rs: the groups, their indexes and what the scripts keep for each recipient.
use divine_push_service.Prelude.{ℕ, String, Bool, false, Option, none, some, str_eq, if◌then◌else◌}
use divine_push_service.Redis.{SortedSets, Key}
use divine_push_service.Coalesce.Tokens.{Allowance}

-- A HyperLogLog, whose count is an estimate.
pub record ActorCounts : Type 1 where
  pub Hll : Type 0
  pub no_actors : Hll
  -- PFADD
  pub pfadd : String → Hll → Hll
  -- PFCOUNT
  pub pfcount : Hll → ℕ

-- The hash `coalesce:g:{group}`, a field of it absent where it is `none`.
pub record Group : Type 0 where
  pub due : Option ℕ
  pub expires_at : Option ℕ
  pub owner : Option String
  pub generation : Option ℕ
  pub type : Option String
  pub target : Option String
  pub event_kind : Option ℕ
  pub ref_event_id : Option String
  pub ref_address : Option String
  pub ref_kind : Option String
  pub ref_author : Option String
  pub ref_dtag : Option String
  pub first_actor : Option String
  pub first_event : Option String
  pub last_at : Option ℕ
  pub pending : Option ℕ
  pub immediate : Option ℕ
  pub likes : Option ℕ
  pub reposts : Option ℕ
  pub likes_lower_bound : Bool
  pub reposts_lower_bound : Bool
  -- the fields `action:{type}:{hash}`
  pub actions : String → String → Bool
  pub lease : Option String

abbrev pub no_group : Group
no_group = record {
  due = none;
  expires_at = none;
  owner = none;
  generation = none;
  type = none;
  target = none;
  event_kind = none;
  ref_event_id = none;
  ref_address = none;
  ref_kind = none;
  ref_author = none;
  ref_dtag = none;
  first_actor = none;
  first_event = none;
  last_at = none;
  pending = none;
  immediate = none;
  likes = none;
  reposts = none;
  likes_lower_bound = false;
  reposts_lower_bound = false;
  actions = λ type hash. false;
  lease = none;
}

-- HSETNX of a field.
abbrev pub set_nx {ℓ} : {A : Type ℓ} → Option A → A → Option A
set_nx none a = some a
set_nx (some b) a = some b

-- The value of a disposition key: `i:{group}` or `b:{group}`.
pub data Disposition : Type 0 where
  immediate_in buffered_in : String → Disposition

-- A write at one name.
abbrev pub update {ℓ} : {A : Type ℓ} → (String → A) → String → A → String → A
update f k a j = if str_eq k j then a else f j

module _ (R : SortedSets) (L : ActorCounts) where
  open R use {Zset}
  open L use {Hll}

  pub record Store : Type 0 where
    -- `coalesce:disp:{event}:{recipient}`
    pub dispositions : String → String → Key (Option Disposition)
    -- `notification_activity:{recipient}`, its generation
    pub generations : String → ℕ
    pub allowances : String → Allowance R
    pub groups : String → Key (Option Group)
    pub hlls : String → Key Hll
    pub due : Zset
    pub leases : Zset
