-- ===== src/Coalesce/Ingest/Replay.antt =====
-- Replays and visits (src/coalesce.rs, `ingest_for_generation`).
use divine_push_service.Prelude.{ℕ, ◌+◌, ◌<◌, ◌≡◌, ◌≢◌, none, some, ◌⊎◌, arith, eq_refl}
use divine_push_service.Redis.{SortedSets, at_time}
use divine_push_service.Coalesce.{ServiceSettings}
use divine_push_service.Coalesce.Groups.{ActorCounts, Store, immediate_in, buffered_in}
use divine_push_service.Coalesce.Ingest.{
  Formats, Trigger, stale_visit, ingest_for_generation, ingest_new, disposition_ttl, finish,
  dispose,
}

module _ (R : SortedSets) (L : ActorCounts) (F : Formats) where
  generations-new :
      (s : ServiceSettings) (now : ℕ) (t : Trigger) (st : Store R L)
      → (ingest_new R L F s now t st).1.generations ≡ st.generations
  unfolding ingest_new finish dispose
  generations-new s now t st = ground arith

  -- What a new event leaves for its replay.
  stored_new :
      (s : ServiceSettings) (now now' : ℕ) (t : Trigger) (st : Store R L)
      → now' < now + disposition_ttl s
      → let (reply, st') = ingest_new R L F s now t st in
        let stored = (at_time now' none (st'.dispositions t.event_id t.owner)).value in
        ((reply.0 ≡ 1) × (stored ≡ some (immediate_in reply.1)))
        ⊎ ((reply.0 ≡ 2) × (stored ≡ some (buffered_in reply.1)))
        ⊎ ((reply.0 ≡ 3) × (stored ≡ some (buffered_in reply.1)))
  unfolding ingest_new finish dispose
  stored_new s now now' t st live = ground (arith, eq_refl t.event_id, eq_refl t.owner)

  -- An event that had no live disposition and was not stale is decided once: taken again while its
  -- disposition lives, with nothing between but time, and the recipient's generation as it was, it
  -- gets the same decision with the same collapse key, and nothing changes.
  pub ingest_again :
      (s : ServiceSettings) (now now' : ℕ) (t : Trigger) (st : Store R L)
      → (ingest_for_generation R L F s now t st).0 ≢ stale_visit
      → (at_time now none (st.dispositions t.event_id t.owner)).value ≡ none
      → now' < now + disposition_ttl s
      → let (decision, st') = ingest_for_generation R L F s now t st in
        ingest_for_generation R L F s now' t st' ≡ (decision, st')
  unfolding ingest_for_generation
  ingest_again s now now' t st fresh new live =
      ground (arith, stored_new s now now' t st live, generations-new s now t st)

  -- An event whose generation is not the recipient's is refused as stale, and changes nothing.
  pub ingest_stale :
      (s : ServiceSettings) (now : ℕ) (t : Trigger) (st : Store R L)
      → st.generations t.owner ≢ t.generation
      → ingest_for_generation R L F s now t st ≡ (stale_visit, st)
  unfolding ingest_for_generation
  ingest_stale s now t st other = ground arith
