-- ===== src/Tests/Bells.antt =====
-- Three list events of two subscribers.
use divine_push_service.Prelude.{
  ◌≡◌, ◌≤◌, ◌⊎◌, ◌↔◌, String, true, false, none, some, List, [], ◌∷◌, refl, arith, inl, inr, length,
  str_eq, eq_iff,
}
use divine_push_service.Redis.Members.{listed, contains}
use divine_push_service.Notify.{ListUpdate, is_notify_watcher}
use divine_push_service.Notify.Refines.{
  apply_all, no_lists, hold_all, is_on_list, all_not_after, watchers_refine,
}
use divine_push_service.Notify.Order.{IsIn, watchers_converge}
use divine_push_service.Notify.Bytes.{bytes_above, bytes_order}
use divine_push_service.Events.{Event, is_p, pubkeys_of, collect_notify_creators}
use divine_push_service.Events.Targets.{are_distinct, creators_taken}
use divine_push_service.Tests.Pushes.{parsing, video}

abbrev old_list : ListUpdate
old_list = record {
  subscriber = "alice";
  creators = "bob" ∷ "carol" ∷ [];
  created_at = 10;
  event_id = "0a";
}

abbrev new_list : ListUpdate
new_list = record {
  subscriber = "alice";
  creators = "carol" ∷ [];
  created_at = 20;
  event_id = "0b";
}

abbrev events : List ListUpdate
events = new_list ∷ old_list ∷ []

-- In order, the older one twice.
abbrev repeated : List ListUpdate
repeated = old_list ∷ new_list ∷ old_list ∷ []

watchers_refine_example :
    let held = hold_all bytes_above events (λ j. none) "alice" in
    (is_notify_watcher listed "bob" "alice" (apply_all listed bytes_above events (no_lists listed))
      ≡ is_on_list "bob" held)
    × (all_not_after listed "alice" events held ≡ true)
watchers_refine_example = watchers_refine listed bytes_above events "bob" "alice"

events_same : (u : ListUpdate) → IsIn u events ↔ IsIn u repeated
events_same u = (to, from)
  where
    to : IsIn u events → IsIn u repeated
    to (inl e) = inr (inl e)
    to (inr (inl e)) = inl e
    to (inr (inr i)) = elim i [ ]

    from : IsIn u repeated → IsIn u events
    from (inl e) = inr (inl e)
    from (inr (inl e)) = inl e
    from (inr (inr (inl e))) = inr (inl e)
    from (inr (inr (inr i))) = elim i [ ]

apart : (str_eq "0a" "0b" ≡ false) × (str_eq "0b" "0a" ≡ false)
apart = (refl, refl)

events_named : (u v : ListUpdate) → IsIn u events → IsIn v events → u.event_id ≡ v.event_id → u ≡ v
events_named u v (inl e) (inl e') same = cc (e, e')
events_named u v (inr (inl e)) (inr (inl e')) same = cc (e, e')
events_named u v (inl e) (inr (inl e')) same =
    ground (arith, e, e', same, apart, eq_iff "0a" "0b", eq_iff "0b" "0a")
events_named u v (inr (inl e)) (inl e') same =
    ground (arith, e, e', same, apart, eq_iff "0a" "0b", eq_iff "0b" "0a")
events_named u v (inr (inr i)) j same = elim i [ ]
events_named u v i (inr (inr j)) same = elim j [ ]

watchers_converge_example :
    is_notify_watcher listed "bob" "alice" (apply_all listed bytes_above events (no_lists listed))
    ≡ is_notify_watcher listed "bob" "alice"
        (apply_all listed bytes_above repeated (no_lists listed))
watchers_converge_example =
    watchers_converge bytes_above bytes_order listed events repeated events_same events_named "bob"
      "alice"

-- Alice's list names Bob twice and herself.
abbrev list_event : Event
list_event = record video {
  kind = 30_000;
  pubkey = "alice";
  tags =
      record { name = "p"; content = some "bob" }
      ∷ record { name = "p"; content = some "alice" }
      ∷ record { name = "p"; content = some "bob" }
      ∷ [];
}

creators_taken_example :
    let taken = collect_notify_creators parsing list_event 500 in
    (length taken ≤ 500)
    × (are_distinct taken ≡ true)
    × (contains taken "alice" ≡ false)
    × ((length taken ≡ 500)
        ⊎ ((◌≡◌ {A = String} "bob" "alice")
            ⊎ (contains taken "bob" ≡ contains (pubkeys_of parsing is_p list_event.tags) "bob")))
creators_taken_example = creators_taken parsing list_event 500 "bob"
