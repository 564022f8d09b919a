-- ===== src/Coalesce/Ingest.antt =====
-- src/coalesce.rs: the ingest script.
pub mod Replay
pub mod Groups
use Prim.Native.String.{◌++◌}
use divine_push_service.Prelude.{
  ℕ, ◌+◌, ◌-◌, ◌*◌, ◌/◌, String, Bool, true, false, ◌&&◌, not, Option, none, some, ltb, leb, ◌==◌,
  str_eq, if◌then◌else◌, is_some, unwrap_or, min,
}
use divine_push_service.Redis.{SortedSets, Key, at_time, write, expire}
use divine_push_service.Coalesce.{
  ServiceSettings, Bucket, no_bucket, one_token, full_bucket, refilled, disp_ttl, physical_ttl,
  throttle_key_ttl, emitted_key_ttl, max_actions_per_category,
}
use divine_push_service.Coalesce.Tokens.{Allowance, slide, set_bucket}
use divine_push_service.Coalesce.Groups.{
  ActorCounts, Group, no_group, set_nx, Disposition, immediate_in, buffered_in, update, Store,
}

-- `Ingest` with the recipient and the fields that its target gives; `action_hash` is the hash of
-- type, actor and target.
pub record Trigger : Type 0 where
  pub event_id : String
  pub event_kind : ℕ
  pub actor : String
  pub created_at : ℕ
  pub type : String
  pub owner : String
  pub target : String
  pub ref_event_id : String
  pub ref_address : String
  pub ref_kind : String
  pub ref_author : String
  pub ref_dtag : String
  pub action_hash : String
  pub generation : ℕ

pub data CoalesceDecision : Type 0 where
  -- with the collapse key
  immediate : String → String → CoalesceDecision
  buffered : String → CoalesceDecision
  stale_visit : CoalesceDecision

abbrev pub is_digest : ServiceSettings → Bool
is_digest s = s.coalesce_immediate_limit == 0

abbrev pub bucket_at : ServiceSettings → ℕ → ℕ
bucket_at s now = now / s.coalesce_window_secs

-- The deadline of the bucket.
abbrev pub due_at : ServiceSettings → ℕ → ℕ
due_at s now = (bucket_at s now + 1) * s.coalesce_window_secs

-- How the server writes a number, and how the crate hashes a group id.
pub record Formats : Type 0 where
  pub decimal : ℕ → String
  pub collapse_key_for_group : String → String

-- A group's name up to its bucket.
unfoldable pub group_stem : Formats → ServiceSettings → Trigger → String
group_stem F s t =
    if is_digest s
    then "activity:" ++ t.owner ++ ":" ++ F.decimal t.generation ++ ":"
    else t.type ++ ":" ++ t.owner ++ ":" ++ t.target ++ ":"

unfoldable pub group_id : Formats → ServiceSettings → ℕ → Trigger → String
group_id F s now t = group_stem F s t ++ F.decimal (bucket_at s now)

-- The lifetime of a disposition: a digest's is that of its group.
unfoldable pub disposition_ttl : ServiceSettings → ℕ
disposition_ttl s = if is_digest s then physical_ttl s else disp_ttl s

-- The fields that a new event sets if they are absent, in a digest and otherwise.
unfoldable pub base_fields : ServiceSettings → ℕ → Trigger → Bool → Group → Group
base_fields s now t new g = record g {
  due = set_nx g.due (due_at s now);
  expires_at = set_nx g.expires_at (now + s.coalesce_group_ttl_secs);
  owner = set_nx g.owner t.owner;
  generation = if new then some t.generation else g.generation;
  type = set_nx g.type (if is_digest s then "activityDigest" else t.type);
}

-- HSETNX of a field whose argument may be empty.
abbrev pub set_ref : String → String → Option String → Option String
set_ref test value field = if str_eq test "" then field else set_nx field value

unfoldable pub target_fields : Trigger → Group → Group
target_fields t g = record g {
  target = set_nx g.target t.target;
  event_kind = set_nx g.event_kind t.event_kind;
  ref_event_id = set_ref t.ref_event_id t.ref_event_id g.ref_event_id;
  ref_address = set_ref t.ref_address t.ref_address g.ref_address;
  ref_kind = set_ref t.ref_address t.ref_kind g.ref_kind;
  ref_author = set_ref t.ref_address t.ref_author g.ref_author;
  ref_dtag = set_ref t.ref_address t.ref_dtag g.ref_dtag;
}

-- The action of a digest: whether the group has it, and the group with it. The last is whether the
-- event is to count as pending.
unfoldable pub has_action : Trigger → Group → Bool
has_action t g =
    if str_eq t.type "like"
    then g.actions t.type t.action_hash
    else if str_eq t.type "repost"
    then g.actions t.type t.action_hash
    else false

abbrev set_action : Trigger → Group → String → String → Bool
set_action t g type hash =
    if str_eq t.type type && str_eq t.action_hash hash then true else g.actions type hash

unfoldable pub count_action : Trigger → Group → Group × Bool
count_action t g =
    if str_eq t.type "like"
    then (if ltb (unwrap_or g.likes 0) max_actions_per_category
        then (record g { likes = some (unwrap_or g.likes 0 + 1); actions = set_action t g }, true)
        else (record g { likes_lower_bound = true }, false))
    else if str_eq t.type "repost"
    then (if ltb (unwrap_or g.reposts 0) max_actions_per_category
        then (
          record g { reposts = some (unwrap_or g.reposts 0 + 1); actions = set_action t g },
          true,
        )
        else (record g { reposts_lower_bound = true }, false))
    else (g, true)

-- The fields that a buffered event sets.
unfoldable pub buffer_fields : ServiceSettings → Trigger → Bool → Group → Group
buffer_fields s t counted g = record g {
  pending = if counted then some (unwrap_or g.pending 0 + 1) else g.pending;
  first_actor = if is_digest s then g.first_actor else set_nx g.first_actor t.actor;
  first_event = set_nx g.first_event t.event_id;
  last_at = if ltb (unwrap_or g.last_at 0) t.created_at then some t.created_at else g.last_at;
}

module _ (R : SortedSets) (L : ActorCounts) (F : Formats) where
  open R use {zcard, zadd}
  open L use {no_actors, pfadd}

  -- What the attempt to send at once comes to.
  pub record Charge : Type 0 where
    pub send : Bool
    pub throttled : Bool
    pub allowance : Allowance R

  unfoldable pub charge_immediate : ServiceSettings → ℕ → Trigger → Allowance R → Charge
  unfolding slide set_bucket refilled
  charge_immediate s now t a =
      let a' = slide R s now a in
      let tokens = min (full_bucket s) (refilled s (now * 1000) a'.bucket.value) in
      if leb s.recipient_daily_cap (zcard a'.emitted.value)
      then record {
        send = false;
        throttled = true;
        allowance = record a' { bucket = set_bucket s now tokens a'.bucket };
      }
      else if leb (one_token s) tokens
      then record {
        send = true;
        throttled = false;
        allowance = record {
          bucket = set_bucket s now (tokens - one_token s) a'.bucket;
          emitted =
              expire now (emitted_key_ttl s)
                (write (zadd now t.event_id a'.emitted.value) a'.emitted);
        };
      }
      else record {
        send = false;
        throttled = true;
        allowance = record a' { bucket = set_bucket s now tokens a'.bucket };
      }

  abbrev pub no_charge : Allowance R → Charge
  no_charge a = record { send = false; throttled = false; allowance = a }

  unfoldable pub dispose : ServiceSettings → ℕ → Trigger → Disposition → Store R L → Store R L
  dispose s now t d st = record st {
    dispositions = update st.dispositions t.event_id (
        update (st.dispositions t.event_id) t.owner
          (record { value = some d; expires_at = some (now + disposition_ttl s) }));
  }

  -- A group that is sent at once: it outlives its bucket, and its buffered events if it has any.
  unfoldable pub send_now :
      ServiceSettings → ℕ → Trigger → String → Key (Option Group) → Group → Store R L → Store R L
  unfolding dispose
  send_now s now t gid k g st =
      let g' = record g { immediate = some (unwrap_or g.immediate 0 + 1) } in
      let ttl = if ltb 0 (unwrap_or g.pending 0) then physical_ttl s else disposition_ttl s in
      dispose s now t (immediate_in gid)
        (record st { groups = update st.groups gid (expire now ttl (write (some g') k)) })

  -- ZADD NX of the deadline.
  abbrev pub zadd_nx : ℕ → String → R.Zset → R.Zset
  zadd_nx score gid z = if is_some (R.zscore z gid) then z else zadd score gid z

  unfoldable pub buffer :
      ServiceSettings
      → ℕ
      → Trigger
      → String
      → Key (Option Group)
      → Bool
      → Group
      → Store R L
      → Store R L
  unfolding dispose buffer_fields
  buffer s now t gid k counted g st =
      let hll = at_time now no_actors (st.hlls gid) in
      dispose s now t (buffered_in gid) (record st {
        groups =
            update st.groups gid
              (expire now (physical_ttl s) (write (some (buffer_fields s t counted g)) k));
        hlls =
            if is_digest s
            then st.hlls
            else update st.hlls gid
                (expire now (physical_ttl s) (write (pfadd t.actor hll.value) hll));
        due = zadd_nx (due_at s now) gid st.due;
      })

  -- The end of the script, with the group's fields set.
  unfoldable pub finish :
      ServiceSettings
      → ℕ
      → Trigger
      → String
      → Charge
      → Key (Option Group)
      → Bool
      → Group
      → Store R L
      → (ℕ × String) × Store R L
  unfolding send_now buffer
  finish s now t gid c k counted g st =
      if c.send
      then ((1, gid), send_now s now t gid k g st)
      else ((if c.throttled then 3 else 2, gid), buffer s now t gid k counted g st)

  -- The script past the replay.
  unfoldable pub ingest_new : ServiceSettings → ℕ → Trigger → Store R L → (ℕ × String) × Store R L
  ingest_new s now t st =
      let gid = group_id F s now t in
      let k = at_time now none (st.groups gid) in
      let g = unwrap_or k.value no_group in
      let c =
        if ltb (unwrap_or g.immediate 0) s.coalesce_immediate_limit
        then charge_immediate s now t (st.allowances t.owner)
        else no_charge (st.allowances t.owner) in
      let st' = record st { allowances = update st.allowances t.owner c.allowance } in
      let base = base_fields s now t (not (is_some k.value)) g in
      if is_digest s
      then (if has_action t base
          then (
            (2, gid),
            dispose s now t (buffered_in gid)
                (record st' { groups = update st.groups gid (write (some base) k) }),
          )
          else finish s now t gid c k (count_action t base).1 (count_action t base).0 st')
      else finish s now t gid c k true (target_fields t base) st'

  -- The script: the fence of the visit, then the replay, then the decision.
  unfoldable pub ingest_script :
      ServiceSettings → ℕ → Trigger → Store R L → (ℕ × String) × Store R L
  ingest_script s now t st =
      if not (st.generations t.owner == t.generation)
      then ((4, ""), st)
      else elim (at_time now none (st.dispositions t.event_id t.owner)).value [
        | some (immediate_in gid) ↦ ((1, gid), st)
        | some (buffered_in gid) ↦ ((2, gid), st)
        | none ↦ ingest_new s now t st
      ]

  -- The match on the script's reply.
  abbrev pub decision_of : ℕ × String → CoalesceDecision
  decision_of (code, gid) =
      if code == 4
      then stale_visit
      else if code == 1
      then immediate gid (F.collapse_key_for_group gid)
      else buffered gid

  unfoldable pub ingest_for_generation :
      ServiceSettings → ℕ → Trigger → Store R L → CoalesceDecision × Store R L
  unfolding ingest_script
  ingest_for_generation s now t st =
      let (reply, st') = ingest_script s now t st in (decision_of reply, st')

  -- With the generation that the recipient has now.
  unfoldable pub ingest : ServiceSettings → ℕ → Trigger → Store R L → CoalesceDecision × Store R L
  unfolding ingest_for_generation
  ingest s now t st =
      ingest_for_generation s now (record t { generation = st.generations t.owner }) st
