-- ===== src/Notify/Refines.antt =====
-- The bells as the relation they stand for: who watches whom is what the last list of each
-- subscriber says (src/redis_store.rs, `replace_notify_subscriptions`).
use divine_push_service.Prelude.{
  ◌≡◌, ◌&&◌, String, Bool, true, false, not, Option, none, some, List, [], ◌∷◌, arith, eq_iff,
  str_eq, if◌then◌else◌, refl, ◌||◌, ltb, leb, ◌==◌, Option-cases, inl, inr,
}
use divine_push_service.Redis.Members.{MemberSets, contains}
use divine_push_service.Notify.{
  Stamp, ListUpdate, StringOrder, is_refused, Lists, drop_creator, drop_creators, add_creator,
  add_creators, replace_notify_subscriptions, is_notify_watcher,
}

-- The specification: of two lists of a subscriber the later one is held, and of two with the same
-- time the one that comes second, unless the server's order puts its identifier above the first's.
abbrev pub supersedes : StringOrder → ListUpdate → Option ListUpdate → Bool
supersedes is_above u none = true
supersedes is_above u (some held) =
    ltb held.created_at u.created_at
    || ((held.created_at == u.created_at) && not (is_above u.event_id held.event_id))

-- The lists held after some updates, by subscriber.
abbrev pub Held : Type 0
Held = String → Option ListUpdate

abbrev pub hold : StringOrder → ListUpdate → Held → Held
hold is_above u held j =
    if str_eq u.subscriber j && supersedes is_above u (held j) then some u else held j

abbrev pub stamp_of : Option ListUpdate → Option Stamp
stamp_of none = none
stamp_of (some u) = some (record { created_at = u.created_at; event_id = some u.event_id })

abbrev pub is_on_list : String → Option ListUpdate → Bool
is_on_list creator none = false
is_on_list creator (some u) = contains u.creators creator

unfoldable pub hold_all : StringOrder → List ListUpdate → Held → Held
hold_all is_above [] held = held
hold_all is_above (u ∷ updates) held = hold_all is_above updates (hold is_above u held)

module _ (S : MemberSets) where
  open S use {smembers, sadd, srem, nobody}

  abbrev pub watched_by : Lists S → String → String → Bool
  watched_by s creator j = contains (smembers (s.watchers creator)) j

  abbrev pub subscribed_to : Lists S → String → String → Bool
  subscribed_to s j creator = contains (smembers (s.subs j)) creator

  drop-watchers :
      (u : ListUpdate) (previous : List String) (s : Lists S) (creator j : String)
      → watched_by (drop_creators S u previous s) creator j ≡ (
          if str_eq u.subscriber j
            && (contains previous creator && not (contains u.creators creator))
          then false
          else watched_by s creator j)
  unfolding drop_creators drop_creator
  drop-watchers u [] s creator j = ground arith
  drop-watchers u (c ∷ previous) s creator j = ground (
    arith,
    drop-watchers u previous (drop_creator S u c s) creator j,
    eq_iff c creator,
    eq_iff u.subscriber j,
    S.smembers-srem u.subscriber (s.watchers c) j,
  )

  drop-subs :
      (u : ListUpdate) (previous : List String) (s : Lists S) (creator j : String)
      → subscribed_to (drop_creators S u previous s) j creator ≡ (
          if str_eq u.subscriber j
            && (contains previous creator && not (contains u.creators creator))
          then false
          else subscribed_to s j creator)
  unfolding drop_creators drop_creator
  drop-subs u [] s creator j = ground arith
  drop-subs u (c ∷ previous) s creator j = ground (
    arith,
    drop-subs u previous (drop_creator S u c s) creator j,
    eq_iff c creator,
    eq_iff u.subscriber j,
    S.smembers-srem c (s.subs u.subscriber) creator,
  )

  add-watchers :
      (subscriber : String) (creators : List String) (s : Lists S) (creator j : String)
      → watched_by (add_creators S subscriber creators s) creator j ≡ (
          if str_eq subscriber j && contains creators creator then true else watched_by s creator j)
  unfolding add_creators add_creator
  add-watchers subscriber [] s creator j = ground arith
  add-watchers subscriber (c ∷ creators) s creator j = ground (
    arith,
    add-watchers subscriber creators (add_creator S subscriber c s) creator j,
    eq_iff c creator,
    eq_iff subscriber j,
    S.smembers-sadd subscriber (s.watchers c) j,
  )

  add-subs :
      (subscriber : String) (creators : List String) (s : Lists S) (creator j : String)
      → subscribed_to (add_creators S subscriber creators s) j creator ≡ (
          if str_eq subscriber j && contains creators creator
          then true
          else subscribed_to s j creator)
  unfolding add_creators add_creator
  add-subs subscriber [] s creator j = ground arith
  add-subs subscriber (c ∷ creators) s creator j = ground (
    arith,
    add-subs subscriber creators (add_creator S subscriber c s) creator j,
    eq_iff c creator,
    eq_iff subscriber j,
    S.smembers-sadd c (s.subs subscriber) creator,
  )

  -- The keys stand for the lists held: the stamps, the subscribers' sets and the reverse index.
  pub record StandsFor (held : Held) (s : Lists S) : Type 0 where
    pub stamped : (j : String) → s.stamps j ≡ stamp_of (held j)
    pub forward : (j creator : String) → subscribed_to s j creator ≡ is_on_list creator (held j)
    pub reverse : (creator j : String) → watched_by s creator j ≡ is_on_list creator (held j)

  replace-StandsFor :
      (is_above : StringOrder) (u : ListUpdate) (held : Held) (s : Lists S)
      → StandsFor held s
      → StandsFor (hold is_above u held) (replace_notify_subscriptions S is_above u s).1
  unfolding replace_notify_subscriptions is_refused
  replace-StandsFor is_above u held s h =
      let previous = smembers (s.subs u.subscriber) in
      let dropped = drop_creators S u previous s in
      record {
        stamped = λ j. ground (arith, eq_iff u.subscriber j, h.stamped u.subscriber, h.stamped j);
        forward = λ j creator. ground (
          arith,
          eq_iff u.subscriber j,
          h.stamped u.subscriber,
          h.forward j creator,
          add-subs u.subscriber u.creators dropped creator j,
          drop-subs u previous s creator j,
        );
        reverse = λ creator j. ground (
          arith,
          eq_iff u.subscriber j,
          h.stamped u.subscriber,
          h.reverse creator j,
          h.forward u.subscriber creator,
          add-watchers u.subscriber u.creators dropped creator j,
          drop-watchers u previous s creator j,
        );
      }

  abbrev pub no_lists : Lists S
  no_lists = record { subs = λ j. nobody; stamps = λ j. none; watchers = λ j. nobody }

  unfoldable pub apply_all : StringOrder → List ListUpdate → Lists S → Lists S
  apply_all is_above [] s = s
  apply_all is_above (u ∷ updates) s =
      apply_all is_above updates (replace_notify_subscriptions S is_above u s).1

  apply_all-StandsFor :
      (is_above : StringOrder) (updates : List ListUpdate) (held : Held) (s : Lists S)
      → StandsFor held s
      → StandsFor (hold_all is_above updates held) (apply_all is_above updates s)
  unfolding apply_all hold_all
  apply_all-StandsFor is_above [] held s h = h
  apply_all-StandsFor is_above (u ∷ updates) held s h =
      apply_all-StandsFor is_above updates (hold is_above u held)
        (replace_notify_subscriptions S is_above u s).1 (replace-StandsFor is_above u held s h)

  -- A list is held, and it is no earlier than `u`.
  abbrev pub is_not_after : ListUpdate → Option ListUpdate → Bool
  is_not_after u none = false
  is_not_after u (some held) = leb u.created_at held.created_at

  abbrev pub all_not_after : String → List ListUpdate → Option ListUpdate → Bool
  all_not_after j [] held = true
  all_not_after j (u ∷ updates) held =
      (not (str_eq u.subscriber j) || is_not_after u held) && all_not_after j updates held

  hold_all-grows :
      (is_above : StringOrder) (u : ListUpdate) (updates : List ListUpdate) (held : Held)
      (j : String)
      → is_not_after u (held j) ≡ true
      → is_not_after u (hold_all is_above updates held j) ≡ true
  unfolding hold_all
  hold_all-grows is_above u [] held j h = h
  hold_all-grows is_above u (v ∷ updates) held j h =
      hold_all-grows is_above u updates (hold is_above v held) j
        (elim (Option-cases (held j)) [ inl e ↦ ground arith | inr (w, e) ↦ ground arith ])

  hold_all-latest :
      (is_above : StringOrder) (updates : List ListUpdate) (held : Held) (j : String)
      → all_not_after j updates (hold_all is_above updates held j) ≡ true
  unfolding hold_all
  hold_all-latest is_above [] held j = refl
  hold_all-latest is_above (u ∷ updates) held j =
      let held' = hold is_above u held in
      ground (
        arith,
        hold_all-latest is_above updates held' j,
        hold_all-grows is_above u updates held' j,
        Option-cases (held j),
      )

  -- After any run of list events on empty keys, whether one watches another is what the list says
  -- that the subscriber then holds, and no list of the subscriber in the run is later than that one.
  -- Of lists with the same time, one replaces another that came before it unless the server's order
  -- puts its identifier above the other's.
  pub watchers_refine :
      (is_above : StringOrder) (updates : List ListUpdate) (creator j : String)
      → let held = hold_all is_above updates (λ i. none) j in
        (is_notify_watcher S creator j (apply_all is_above updates no_lists)
          ≡ is_on_list creator held)
        × (all_not_after j updates held ≡ true)
  unfolding is_notify_watcher
  watchers_refine is_above updates creator j = (
    (apply_all-StandsFor is_above updates (λ i. none) no_lists
          (record {
            stamped = λ i. refl;
            forward = λ i c. rw S.smembers-nobody;
            reverse = λ c i. rw S.smembers-nobody;
          })).reverse
        creator j,
    hold_all-latest is_above updates (λ i. none) j,
  )
