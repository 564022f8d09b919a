-- ===== src/Handler/Each.antt =====
-- An error does not keep the recipients after it from being told (src/event_handler.rs,
-- `send_notifications_sequential`).
use divine_push_service.Prelude.{
  ℕ, ◌+◌, ◌≡◌, Bool, true, false, Option, none, some, List, [], ◌∷◌, arith, refl, ◌&&◌, is_some,
  not,
}
use divine_push_service.Redis.{SortedSets}
use divine_push_service.Redis.Members.{MemberSets}
use divine_push_service.Coalesce.Groups.{ActorCounts}
use divine_push_service.Events.{Event, NotificationTarget}
use divine_push_service.Push.{
  EventScopedCopy, is_ok, PushResult, ok, stopped, err, retryable, Shared,
}
use divine_push_service.Handler.{
  Service, HandlerSettings, HandlerCall, keep_first, is_stopped, deliver_to, send_from,
  send_notifications_sequential,
}

module _ (R : SortedSets) (S : MemberSets) (L : ActorCounts) (V : Service)
    (settings : HandlerSettings) (C : HandlerCall) (event : Event) (copy : EventScopedCopy) where
  -- One delivery after the other, whatever each comes to: whether all end well, and what they leave.
  unfoldable pub deliver_all : ℕ → List NotificationTarget → Shared R S L → Bool × Shared R S L
  deliver_all i [] s = (true, s)
  deliver_all i (target ∷ targets) s =
      let d = deliver_to R S L V settings C event copy i target s in
      let rest = deliver_all (i + 1) targets d.shared in (is_ok d.result && rest.0, rest.1)

  abbrev is_first : Option PushResult → Bool
  is_first none = true
  is_first (some ok) = false
  is_first (some stopped) = false
  is_first (some err) = true
  is_first (some (retryable delay)) = true

  send_from-deliver_all :
      (i : ℕ) (first : Option PushResult) (targets : List NotificationTarget) (s : Shared R S L)
      → is_first first ≡ true
      → let sent = send_from R S L V settings C event copy i first targets s in
        is_stopped sent.result ≡ false
        → (sent.shared ≡ (deliver_all i targets s).1)
          × (is_ok sent.result ≡ (not (is_some first) && (deliver_all i targets s).0))
  unfolding send_from deliver_all keep_first
  send_from-deliver_all i first [] s h running = ground arith
  send_from-deliver_all i first (target ∷ targets) s h running =
      let d = deliver_to R S L V settings C event copy i target s in
      ground (arith, send_from-deliver_all (i + 1) (keep_first first d.result) targets d.shared)

  -- Unless it is cancelled, the loop over an event's targets makes a delivery to every one of them
  -- in turn, whatever errors the earlier ones end in, and it succeeds exactly where all of them do.
  pub sends_to_all :
      (targets : List NotificationTarget) (s : Shared R S L)
      → let sent = send_notifications_sequential R S L V settings C event targets copy s in
        is_stopped sent.result ≡ false
        → (sent.shared ≡ (deliver_all 0 targets s).1)
          × (is_ok sent.result ≡ (deliver_all 0 targets s).0)
  unfolding send_notifications_sequential
  sends_to_all targets s running = send_from-deliver_all 0 none targets s refl running
