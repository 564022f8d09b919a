-- ===== src/Devices.antt =====
-- Device tokens (src/redis_store.rs): the set of each user, the owner of each token, its timezone
-- and when it was last seen.
pub mod Consistency
pub mod Sweep
pub mod Runs
use divine_push_service.Prelude.{
  ℕ, ◌+◌, ◌-◌, String, ◌≡◌, Bool, true, false, ◌&&◌, Option, none, some, List, [], ◌∷◌, ltb, str_eq,
  if◌then◌else◌, is_some, length,
}
use divine_push_service.Prelude.Int.{ℤ}
use divine_push_service.Redis.{SortedSets}
use divine_push_service.Redis.Members.{MemberSets}

-- What the crates parse: a public key, which is written back in one way, and the offset of a named
-- timezone in minutes.
pub record Parsers : Type 0 where
  -- `PublicKey::from_hex`, then `to_hex`
  pub from_hex : String → Option String
  -- the name parses as a timezone
  pub is_timezone : String → Bool
  pub timezone_offset_at : String → ℤ → Option ℤ

-- HSET and HDEL of one field.
abbrev pub set_field {ℓ} :
    {A : Type ℓ} → String → Option A → (String → Option A) → String → Option A
set_field name value f j = if str_eq name j then value else f j

module _ (R : SortedSets) (S : MemberSets) where
  open R use {Zset, zscore, zadd, zrem, zremrange, zrangebyscore_all}
  open S use {Members, smembers, sadd, srem}

  pub record Devices : Type 0 where
    -- `user_tokens:{pubkey}`
    pub user_tokens : String → Members
    -- `stale_tokens`, by the second of the last sign of life
    pub stale_tokens : Zset
    pub token_to_pubkey : String → Option String
    pub timezone_offsets : String → Option ℤ
    pub timezone_names : String → Option String

  abbrev pub set_members : String → Members → (String → Members) → String → Members
  set_members pubkey s f j = if str_eq pubkey j then s else f j

  abbrev pub get_tokens_for_pubkey : String → Devices → List String
  get_tokens_for_pubkey pubkey d = smembers (d.user_tokens pubkey)

  abbrev pub effective_offset : Parsers → ℤ → Devices → String → Option ℤ
  effective_offset P now d token = elim (d.timezone_names token) [
    | none ↦ d.timezone_offsets token
    | some name ↦ elim (P.timezone_offset_at name now) [
      | none ↦ d.timezone_offsets token
      | some offset ↦ some offset
    ]
  ]

  unfoldable pub with_offsets : Parsers → ℤ → Devices → List String → List (String × Option ℤ)
  with_offsets P now d [] = []
  with_offsets P now d (token ∷ tokens) =
      (token, effective_offset P now d token) ∷ with_offsets P now d tokens

  unfoldable pub get_tokens_with_timezone_offsets :
      Parsers → ℤ → String → Devices → List (String × Option ℤ)
  unfolding with_offsets
  get_tokens_with_timezone_offsets P now pubkey d =
      with_offsets P now d (get_tokens_for_pubkey pubkey d)

  -- The old owner's set, without the token.
  unfoldable pub move_away : Parsers → Option String → String → String → Devices → Devices
  move_away P none pubkey token d = d
  move_away P (some existing) pubkey token d = elim (P.from_hex existing) [
    | none ↦ d
    | some old ↦ if str_eq existing pubkey then d else record d {
      user_tokens = set_members old (srem token (d.user_tokens old)) d.user_tokens;
    }
  ]

  -- The pipeline, with the owner that was read before it.
  unfoldable pub register :
      Parsers → ℕ → Option String → String → String → Option ℤ → Option String → Devices → Devices
  unfolding move_away
  register P now existing pubkey token offset timezone d =
      let d' = move_away P existing pubkey token d in
      record {
        user_tokens = set_members pubkey (sadd token (d'.user_tokens pubkey)) d'.user_tokens;
        stale_tokens = zadd now token d.stale_tokens;
        token_to_pubkey = set_field token (some pubkey) d.token_to_pubkey;
        timezone_offsets = set_field token offset d.timezone_offsets;
        timezone_names =
            set_field token
              (elim timezone [
                | none ↦ none
                | some name ↦ if P.is_timezone name then some name else none
              ])
              d.timezone_names;
      }

  -- The read and the pipeline, with nothing between them.
  unfoldable pub add_or_update_token_with_timezone_name :
      Parsers → ℕ → String → String → Option ℤ → Option String → Devices → Devices
  unfolding register
  add_or_update_token_with_timezone_name P now pubkey token offset timezone d =
      register P now (d.token_to_pubkey token) pubkey token offset timezone d

  abbrev pub add_or_update_token_with_timezone :
      Parsers → ℕ → String → String → Option ℤ → Devices → Devices
  add_or_update_token_with_timezone P now pubkey token offset d =
      add_or_update_token_with_timezone_name P now pubkey token offset none d

  abbrev pub add_or_update_token : Parsers → ℕ → String → String → Devices → Devices
  add_or_update_token P now pubkey token d =
      add_or_update_token_with_timezone P now pubkey token none d

  -- The pipeline of a removal.
  unfoldable pub deregister : String → String → Devices → Devices
  deregister pubkey token d = record {
    user_tokens = set_members pubkey (srem token (d.user_tokens pubkey)) d.user_tokens;
    stale_tokens = zrem token d.stale_tokens;
    token_to_pubkey = set_field token none d.token_to_pubkey;
    timezone_offsets = set_field token none d.timezone_offsets;
    timezone_names = set_field token none d.timezone_names;
  }

  -- A token is removed by its owner only.
  unfoldable pub remove_token : String → String → Devices → Bool × Devices
  unfolding deregister
  remove_token pubkey token d = elim (d.token_to_pubkey token) [
    | none ↦ (false, d)
    | some owner ↦ if str_eq owner pubkey then (true, deregister pubkey token d) else (false, d)
  ]

  -- ZADD XX GT CH of one token: whether its score moved.
  unfoldable pub touch : ℕ → String → Zset → ℕ × Zset
  touch now token z = elim (zscore z token) [
    | none ↦ (0, z)
    | some seen ↦ if ltb seen now then (1, zadd now token z) else (0, z)
  ]

  unfoldable pub touch_all : ℕ → List String → Zset → ℕ × Zset
  unfolding touch
  touch_all now [] z = (0, z)
  touch_all now (token ∷ tokens) z =
      let (n, z') = touch now token z in let (m, z'') = touch_all now tokens z' in (n + m, z'')

  unfoldable pub refresh_token_activity : ℕ → List String → Devices → ℕ × Devices
  unfolding touch_all
  refresh_token_activity now tokens d =
      let (n, z) = touch_all now tokens d.stale_tokens in (n, record d { stale_tokens = z })

  abbrev pub names : List (String × ℕ) → List String
  names [] = []
  names ((m, s) ∷ l) = m ∷ names l

  -- What the sweep reads: the stale tokens, each with its owner.
  unfoldable pub read_owners : Devices → List String → List (String × Option String)
  read_owners d [] = []
  read_owners d (token ∷ tokens) = (token, d.token_to_pubkey token) ∷ read_owners d tokens

  unfoldable pub read_stale : ℕ → Devices → List (String × Option String)
  unfolding read_owners
  read_stale cutoff d = read_owners d (names (zrangebyscore_all cutoff d.stale_tokens))

  -- The hashes' fields and the set member of one swept token.
  unfoldable pub forget_token : String × Option String → Devices → Devices
  forget_token (token, owner) d = record d {
    user_tokens = elim owner [
      | none ↦ d.user_tokens
      | some pubkey ↦ set_members pubkey (srem token (d.user_tokens pubkey)) d.user_tokens
    ];
    token_to_pubkey = set_field token none d.token_to_pubkey;
    timezone_offsets = set_field token none d.timezone_offsets;
    timezone_names = set_field token none d.timezone_names;
  }

  unfoldable pub forget_tokens : List (String × Option String) → Devices → Devices
  unfolding forget_token
  forget_tokens [] d = d
  forget_tokens (entry ∷ entries) d = forget_tokens entries (forget_token entry d)

  -- The pipeline of the sweep, on what was read before it.
  unfoldable pub sweep : ℕ → List (String × Option String) → Devices → Devices
  unfolding forget_tokens
  sweep cutoff [] d = d
  sweep cutoff (entry ∷ entries) d =
      forget_tokens (entry ∷ entries)
        (record d { stale_tokens = zremrange cutoff 0 d.stale_tokens })

  -- The reads and the pipeline, with nothing between them.
  unfoldable pub cleanup_stale_tokens : ℕ → ℕ → Devices → ℕ × Devices
  unfolding read_stale sweep
  cleanup_stale_tokens now max_age_seconds d =
      let stale = read_stale (now - max_age_seconds) d in
      (length stale, sweep (now - max_age_seconds) stale d)
