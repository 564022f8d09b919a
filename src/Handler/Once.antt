-- ===== src/Handler/Once.antt =====
-- A control event is applied once (src/event_handler.rs, `run`; src/redis_store.rs,
-- `try_claim_event`).
use Prim.Native.String.{◌++◌}
use divine_push_service.Prelude.{◌+◌, ◌<◌, ◌≡◌, true, false, none, arith, eq_refl}
use divine_push_service.Redis.{SortedSets, at_time}
use divine_push_service.Redis.Members.{MemberSets}
use divine_push_service.Claims.{try_claim_event}
use divine_push_service.Coalesce.Groups.{ActorCounts}
use divine_push_service.Events.{EventContext, Event, is_beyond_replay_horizon, requires_event_claim}
use divine_push_service.Handler.{
  Service, HandlerSettings, HandlerCall, Stored, handle_control_event, route_event, handle_event,
}

module _ (R : SortedSets) (S : MemberSets) (L : ActorCounts) (V : Service)
    (settings : HandlerSettings) where
  route-claims :
      (C : HandlerCall) (context : EventContext) (event : Event) (s : Stored R S L)
      → requires_event_claim event ≡ true
      → (route_event R S L V settings C context event s).stored.shared.world.claims
        ≡ s.shared.world.claims
  unfolding route_event requires_event_claim handle_control_event
  route-claims C context event s control = ground arith

  -- A control event is applied once: once it is claimed, its next handling, before the claim's time
  -- to live has passed and while its key is as the first one left it, changes nothing, whatever the
  -- first one's handler made of it.
  pub control_event_once :
      (C C' : HandlerCall) (context context' : EventContext) (event : Event) (s s' : Stored R S L)
      → requires_event_claim event ≡ true
      → is_beyond_replay_horizon C.received_at event ≡ false
      → C.is_cancelled ≡ false
      → C.claim_fails ≡ false
      → (at_time C.claim_at none (s.shared.world.claims ("dedup:" ++ event.id))).value ≡ none
      → s'.shared.world.claims ("dedup:" ++ event.id)
        ≡ (handle_event R S L V settings C context event s).stored.shared.world.claims
            ("dedup:" ++ event.id)
      → C'.claim_at < C.claim_at + settings.push.processed_event_ttl_secs
      → (handle_event R S L V settings C' context' event s').stored ≡ s'
  unfolding handle_event try_claim_event
  control_event_once C C' context context' event s s' control fresh running works free left early =
      let claims =
        (try_claim_event C.claim_at event.id settings.push.processed_event_ttl_secs
          s.shared.world.claims).1 in
      let claimed : Stored R S L = record s {
        shared = record s.shared { world = record s.shared.world { claims = claims } };
      } in
      ground (
        arith,
        control,
        route-claims C context event claimed control,
        eq_refl ("dedup:" ++ event.id),
      )
