-- ===== src/Notify.antt =====
-- The bells (src/redis_store.rs): each subscriber's list of creators, the stamp of the list that was
-- applied last, and the reverse index of a creator's watchers. A stored stamp is the value that the
-- script reads of it; an event's identifiers are compared as the server's Lua does.
pub mod Refines
pub mod Order
pub mod Bytes
use divine_push_service.Prelude.{
  ℕ, String, Bool, true, false, Option, none, some, List, [], ◌∷◌, ltb, ◌==◌, str_eq, if◌then◌else◌,
}
use divine_push_service.Redis.Members.{MemberSets, contains}

-- `created_at:event_id`, or a bare number of an earlier build.
pub record Stamp : Type 0 where
  pub created_at : ℕ
  pub event_id : Option String

-- One list event.
pub record ListUpdate : Type 0 where
  pub subscriber : String
  pub creators : List String
  pub created_at : ℕ
  pub event_id : String

-- The server's order of two strings.
abbrev pub StringOrder : Type 0
StringOrder = String → String → Bool

-- Whether the stored stamp, none also where it cannot be read, refuses the event.
unfoldable pub is_refused : StringOrder → ListUpdate → Option Stamp → Bool
is_refused is_above u none = false
is_refused is_above u (some stored) =
    if ltb u.created_at stored.created_at
    then true
    else if stored.created_at == u.created_at
    then elim stored.event_id [ none ↦ true | some id ↦ is_above u.event_id id ]
    else false

module _ (S : MemberSets) where
  open S use {Members, smembers, sadd, srem}

  -- The keys `notify_subs:{subscriber}`, `notify_subs_ts:{subscriber}` and
  -- `notify_watchers:{creator}`.
  pub record Lists : Type 0 where
    pub subs : String → Members
    pub stamps : String → Option Stamp
    pub watchers : String → Members

  abbrev pub set_members : String → Members → (String → Members) → String → Members
  set_members key members f j = if str_eq key j then members else f j

  -- One turn of the loop over the creators that the subscriber had: those that are off the list go.
  unfoldable pub drop_creator : ListUpdate → String → Lists → Lists
  drop_creator u creator s = if contains u.creators creator then s else record s {
    watchers = set_members creator (srem u.subscriber (s.watchers creator)) s.watchers;
    subs = set_members u.subscriber (srem creator (s.subs u.subscriber)) s.subs;
  }

  unfoldable pub drop_creators : ListUpdate → List String → Lists → Lists
  drop_creators u [] s = s
  drop_creators u (creator ∷ previous) s = drop_creators u previous (drop_creator u creator s)

  unfoldable pub add_creator : String → String → Lists → Lists
  add_creator subscriber creator s = record s {
    subs = set_members subscriber (sadd creator (s.subs subscriber)) s.subs;
    watchers = set_members creator (sadd subscriber (s.watchers creator)) s.watchers;
  }

  unfoldable pub add_creators : String → List String → Lists → Lists
  add_creators subscriber [] s = s
  add_creators subscriber (creator ∷ creators) s =
      add_creators subscriber creators (add_creator subscriber creator s)

  -- Whether the list was applied.
  unfoldable pub replace_notify_subscriptions : StringOrder → ListUpdate → Lists → Bool × Lists
  replace_notify_subscriptions is_above u s =
      if is_refused is_above u (s.stamps u.subscriber) then (false, s) else (
        true,
        record (add_creators u.subscriber u.creators
            (drop_creators u (smembers (s.subs u.subscriber)) s)) {
              stamps = λ j.
                  if str_eq u.subscriber j
                  then some (record { created_at = u.created_at; event_id = some u.event_id })
                  else s.stamps j;
            },
      )

  -- SISMEMBER
  unfoldable pub is_notify_watcher : String → String → Lists → Bool
  is_notify_watcher creator subscriber s = contains (smembers (s.watchers creator)) subscriber

  -- The members that parse, in the order of the reply.
  unfoldable pub parsed_members : (String → Option String) → List String → List String
  parsed_members from_hex [] = []
  parsed_members from_hex (member ∷ members) =
      let rest = parsed_members from_hex members in
      elim (from_hex member) [ none ↦ rest | some pubkey ↦ pubkey ∷ rest ]

  unfoldable pub get_notify_watchers : (String → Option String) → String → Lists → List String
  unfolding parsed_members
  get_notify_watchers from_hex creator s = parsed_members from_hex (smembers (s.watchers creator))

-- The watchers of one reply of SSCAN: those that parse, each once, after those seen.
unfoldable pub page_watchers : (String → Option String) → (seen members : List String) → List String
page_watchers from_hex seen [] = []
page_watchers from_hex seen (member ∷ members) = elim (from_hex member) [
  | none ↦ page_watchers from_hex seen members
  | some pubkey ↦
      if contains seen pubkey
      then page_watchers from_hex seen members
      else pubkey ∷ page_watchers from_hex (pubkey ∷ seen) members
]
