-- ===== src/Notify/Order.antt =====
-- The bells do not depend on the order in which the list events arrive, nor on how often
-- (src/redis_store.rs, `replace_notify_subscriptions`).
use divine_push_service.Prelude.{
  ◌≡◌, ◌⊎◌, ◌↔◌, String, Bool, true, false, not, Option, none, some, List, [], ◌∷◌, arith, eq_iff,
  str_eq, inl, inr, Option-cases, ◌∙◌, sym, ap, Bool-cases,
}
use divine_push_service.Redis.Members.{MemberSets}
use divine_push_service.Notify.{ListUpdate, StringOrder, is_refused, is_notify_watcher}
use divine_push_service.Notify.Refines.{
  Held, hold, hold_all, stamp_of, is_on_list, apply_all, no_lists, watchers_refine, supersedes,
}

-- What the order of strings of one length is: strict, total, and decided at any third string.
pub record IsOrder (is_above : StringOrder) : Type 0 where
  pub asym : (a b : String) → is_above a b ≡ true → is_above b a ≡ false
  pub total : (a b : String) → is_above a b ≡ false → is_above b a ≡ false → a ≡ b
  pub between :
      (a b c : String) → is_above a c ≡ true → (is_above a b ≡ true) ⊎ (is_above b c ≡ true)

abbrev pub IsIn : ListUpdate → List ListUpdate → Type 0
IsIn u [] = ⊥
IsIn u (v ∷ l) = (v ≡ u) ⊎ IsIn u l

module _ (is_above : StringOrder) (order : IsOrder is_above) where
  -- The first is the list to hold of the two.
  unfoldable beats : ListUpdate → ListUpdate → Bool
  beats v u = is_refused is_above u (stamp_of (some v))

  abbrev is_unbeaten : ListUpdate → Option ListUpdate → Bool
  is_unbeaten v none = false
  is_unbeaten v (some r) = not (beats v r)

  supersedes-beats : (v u : ListUpdate) → supersedes is_above u (some v) ≡ not (beats v u)
  unfolding beats is_refused
  supersedes-beats v u = ground arith

  beats_irrefl : (u : ListUpdate) → beats u u ≡ false
  unfolding beats is_refused
  beats_irrefl u = ground (arith, order.asym u.event_id u.event_id)

  beats_asym : (v u : ListUpdate) → beats v u ≡ true → beats u v ≡ false
  unfolding beats is_refused
  beats_asym v u h =
      ground (arith, order.asym u.event_id v.event_id, order.asym v.event_id u.event_id)

  beats_between : (v h u : ListUpdate) → beats v h ≡ false → beats h u ≡ false → beats v u ≡ false
  unfolding beats is_refused
  beats_between v h u p q = elim (Bool-cases (is_above u.event_id v.event_id)) [
    | inl e ↦ (elim (order.between u.event_id h.event_id v.event_id e) [
      | inl a ↦ ground arith
      | inr a ↦ ground arith
    ])
    | inr e ↦ ground arith
  ]

  -- Of two lists neither of which beats the other, the identifiers agree.
  tied_event_id :
      (v u : ListUpdate) → beats v u ≡ false → beats u v ≡ false → v.event_id ≡ u.event_id
  unfolding beats is_refused
  tied_event_id v u p q = ground (arith, order.total v.event_id u.event_id)

  hold-unbeaten :
      (v u : ListUpdate) (held : Held) (j : String)
      → is_unbeaten v (held j) ≡ true
      → is_unbeaten v (hold is_above u held j) ≡ true
  hold-unbeaten v u held j h = elim (Option-cases (held j)) [
    | inl e ↦ ground (arith, e)
    | inr (r, e) ↦ ground (arith, e, supersedes-beats r u, beats_between v r u)
  ]

  hold-own :
      (u : ListUpdate) (held : Held) (j : String)
      → u.subscriber ≡ j
      → is_unbeaten u (hold is_above u held j) ≡ true
  hold-own u held j e = elim (Option-cases (held j)) [
    | inl absent ↦ ground (arith, absent, eq_iff u.subscriber j, beats_irrefl u)
    | inr (r, present) ↦ ground (
      arith,
      present,
      eq_iff u.subscriber j,
      supersedes-beats r u,
      beats_irrefl u,
      beats_asym r u,
    )
  ]

  hold_all-unbeaten :
      (v : ListUpdate) (updates : List ListUpdate) (held : Held) (j : String)
      → is_unbeaten v (held j) ≡ true
      → is_unbeaten v (hold_all is_above updates held j) ≡ true
  unfolding hold_all
  hold_all-unbeaten v [] held j h = h
  hold_all-unbeaten v (u ∷ updates) held j h =
      hold_all-unbeaten v updates (hold is_above u held) j (hold-unbeaten v u held j h)

  hold_all-own :
      (v : ListUpdate) (updates : List ListUpdate) (held : Held) (j : String)
      → IsIn v updates
      → v.subscriber ≡ j
      → is_unbeaten v (hold_all is_above updates held j) ≡ true
  unfolding hold_all
  hold_all-own v [] held j i own = elim i [ ]
  hold_all-own v (u ∷ updates) held j (inl e) own =
      hold_all-unbeaten v updates (hold is_above u held) j
        (rw (sym e) (hold-own u held j (ap (λ w. w.subscriber) e ∙ own)))
  hold_all-own v (u ∷ updates) held j (inr i) own =
      hold_all-own v updates (hold is_above u held) j i own

  hold_all-IsIn :
      (r : ListUpdate) (updates : List ListUpdate) (held : Held) (j : String)
      → hold_all is_above updates held j ≡ some r
      → (held j ≡ some r) ⊎ (IsIn r updates × (r.subscriber ≡ j))
  unfolding hold_all
  hold_all-IsIn r [] held j e = inl e
  hold_all-IsIn r (u ∷ updates) held j e =
      elim (hold_all-IsIn r updates (hold is_above u held) j e) [
        | inr (i, own) ↦ inr (inr i, own)
        | inl h ↦ (elim (Bool-cases (str_eq u.subscriber j)) [
          | inl own ↦ (elim (Bool-cases (supersedes is_above u (held j))) [
            | inl fresh ↦ inr (
              inl (ground (arith, h, own, fresh)),
              ground (arith, h, own, fresh, eq_iff u.subscriber j),
            )
            | inr stale ↦ inl (ground (arith, h, own, stale))
          ])
          | inr other ↦ inl (ground (arith, h, other))
        ])
      ]

  held_found :
      (updates : List ListUpdate) (r : ListUpdate) (j : String)
      → hold_all is_above updates (λ i. none) j ≡ some r
      → IsIn r updates × (r.subscriber ≡ j)
  held_found updates r j e = elim (hold_all-IsIn r updates (λ i. none) j e) [
    | inl h ↦ ground (arith, h)
    | inr found ↦ found
  ]

  held_same :
      (us vs : List ListUpdate)
      → ((u : ListUpdate) → IsIn u us ↔ IsIn u vs)
      → ((u v : ListUpdate) → IsIn u us → IsIn v us → u.event_id ≡ v.event_id → u ≡ v)
      → (j : String) → hold_all is_above us (λ i. none) j ≡ hold_all is_above vs (λ i. none) j
  held_same us vs same named j = elim (Option-cases (hold_all is_above us (λ i. none) j)) [
    | inl e ↦ (elim (Option-cases (hold_all is_above vs (λ i. none) j)) [
      | inl e' ↦ e ∙ sym e'
      | inr (r, e') ↦
          (let (i, own) = held_found vs r j e' in
            ground (arith, e, hold_all-own r us (λ x. none) j ((same r).1 i) own))
    ])
    | inr (r, e) ↦ (elim (Option-cases (hold_all is_above vs (λ i. none) j)) [
      | inl e' ↦
          (let (i, own) = held_found us r j e in
            ground (arith, e', hold_all-own r vs (λ x. none) j ((same r).0 i) own))
      | inr (r', e') ↦
          (let (i, own) = held_found us r j e in
            let (i', own') = held_found vs r' j e' in
            let p = hold_all-own r vs (λ x. none) j ((same r).0 i) own in
            let q = hold_all-own r' us (λ x. none) j ((same r').1 i') own' in
            let id = tied_event_id r r' (ground (arith, p, e')) (ground (arith, q, e)) in
            e ∙ ap some (named r r' i ((same r').1 i') id) ∙ sym e')
    ])
  ]

  -- A run of list events in any order, each any number of times, leaves the same bells: two runs of
  -- the same events on empty keys agree on whether one watches another, if events of the same
  -- identifier are the same and the server's comparison orders the identifiers.
  pub watchers_converge :
      (S : MemberSets) (us vs : List ListUpdate)
      → ((u : ListUpdate) → IsIn u us ↔ IsIn u vs)
      → ((u v : ListUpdate) → IsIn u us → IsIn v us → u.event_id ≡ v.event_id → u ≡ v)
      → (creator j : String)
      → is_notify_watcher S creator j (apply_all S is_above us (no_lists S))
        ≡ is_notify_watcher S creator j (apply_all S is_above vs (no_lists S))
  watchers_converge S us vs same named creator j =
      (watchers_refine S is_above us creator j).0
      ∙ ap (is_on_list creator) (held_same us vs same named j)
      ∙ sym (watchers_refine S is_above vs creator j).0
