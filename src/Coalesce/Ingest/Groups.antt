-- ===== src/Coalesce/Ingest/Groups.antt =====
-- What one ingest does to the groups (src/coalesce.rs, `ingest_for_generation`).
use text.Mathlib.TextPositions.{eq_refl}
use text.Mathlib.TextLemmas.{append_cancel_left}
use mathlib.Core.Path.{subst}
use divine_push_service.Prelude.{
  ℕ, ◌+◌, ◌≤◌, ◌<◌, ◌≡◌, ◌⊎◌, String, true, false, none, some, arith, str_eq, eq_iff, unwrap_or,
  is_some, Option, if◌then◌else◌, inl, inr, Bool-cases, not,
}
use divine_push_service.Redis.{SortedSets, at_time}
use divine_push_service.Coalesce.{ServiceSettings, max_actions_per_category}
use divine_push_service.Coalesce.Groups.{ActorCounts, Store, Group, no_group}
use divine_push_service.Coalesce.Ingest.{
  Formats, Trigger, ingest_for_generation, ingest_new, group_id, group_stem, due_at, bucket_at,
  is_digest, base_fields, count_action, has_action, buffer_fields, finish, dispose,
}

group_id_bucket :
    (F : Formats) (s : ServiceSettings) (now now' : ℕ) (t : Trigger)
    → group_id F s now t ≡ group_id F s now' t
    → F.decimal (bucket_at s now) ≡ F.decimal (bucket_at s now')
unfolding group_id
group_id_bucket F s now now' t e =
    append_cancel_left (group_stem F s t) (F.decimal (bucket_at s now))
      (F.decimal (bucket_at s now')) e

bucket_passed :
    (s : ServiceSettings) (now now' : ℕ)
    → 0 < s.coalesce_window_secs
    → due_at s now ≤ now'
    → bucket_at s now < bucket_at s now'
bucket_passed s now now' w h = grind arith

module _ (R : SortedSets) (L : ActorCounts) (F : Formats) where
  -- Only the group of the event's name at the time changes.
  ingest-other_group :
      (s : ServiceSettings) (now : ℕ) (t : Trigger) (st : Store R L) (j : String)
      → str_eq (group_id F s now t) j ≡ false
      → (ingest_for_generation R L F s now t st).1.groups j ≡ st.groups j
  unfolding ingest_for_generation ingest_new finish dispose
  ingest-other_group s now t st j other = ground arith

  -- The totals of a digest.
  pub record IsTallied (g : Group) : Type 0 where
    pub likes_bounded : unwrap_or g.likes 0 ≤ max_actions_per_category
    pub reposts_bounded : unwrap_or g.reposts 0 ≤ max_actions_per_category
    pub pending_counted : unwrap_or g.pending 0 ≡ unwrap_or g.likes 0 + unwrap_or g.reposts 0
    pub likes_saturated :
        g.likes_lower_bound ≡ true → unwrap_or g.likes 0 ≡ max_actions_per_category
    pub reposts_saturated :
        g.reposts_lower_bound ≡ true → unwrap_or g.reposts 0 ≡ max_actions_per_category

  count_action-IsTallied :
      (s : ServiceSettings) (t : Trigger) (g : Group)
      → (t.type ≡ "like") ⊎ (t.type ≡ "repost")
      → is_digest s ≡ true
      → IsTallied g
      → IsTallied (buffer_fields s t (count_action t g).1 (count_action t g).0)
  unfolding count_action buffer_fields
  count_action-IsTallied s t g kind d h =
      ground (arith, eq_iff t.type "like", eq_iff t.type "repost")

  no_group-IsTallied : IsTallied no_group
  no_group-IsTallied = ground arith

  -- The group of the event as the script finds it.
  abbrev found : ℕ → String → Store R L → Option Group
  found now gid st = (at_time now none (st.groups gid)).value

  abbrev based : ServiceSettings → ℕ → Trigger → Store R L → Group
  based s now t st =
      let o = found now (group_id F s now t) st in
      base_fields s now t (not (is_some o)) (unwrap_or o no_group)

  based-IsTallied :
      (s : ServiceSettings) (now : ℕ) (t : Trigger) (st : Store R L)
      → IsTallied (unwrap_or (st.groups (group_id F s now t)).value no_group)
      → IsTallied (based s now t st)
  unfolding base_fields
  based-IsTallied s now t st h = ground arith

  -- The group of the event after a new event of a digest.
  digest_group :
      (s : ServiceSettings) (now : ℕ) (t : Trigger) (st : Store R L)
      → is_digest s ≡ true
      → ((ingest_new R L F s now t st).1.groups (group_id F s now t)).value
        ≡ some (
            let b = based s now t st in
            if has_action t b
            then b
            else buffer_fields s t (count_action t b).1 (count_action t b).0)
  unfolding ingest_new finish dispose
  digest_group s now t st d = ground (arith, eq_refl (group_id F s now t))

  ingest_new-IsTallied :
      (s : ServiceSettings) (now : ℕ) (t : Trigger) (st : Store R L)
      → is_digest s ≡ true
      → (t.type ≡ "like") ⊎ (t.type ≡ "repost")
      → IsTallied (unwrap_or (st.groups (group_id F s now t)).value no_group)
      → IsTallied
          (unwrap_or ((ingest_new R L F s now t st).1.groups (group_id F s now t)).value no_group)
  ingest_new-IsTallied s now t st d kind h =
      let b = based-IsTallied s now t st h in
      rw (digest_group s now t st d) (elim (Bool-cases (has_action t (based s now t st))) [
        | inl has ↦ rw has b
        | inr new ↦ rw new (count_action-IsTallied s t (based s now t st) kind d b)
      ])

  ingest-IsTallied_own :
      (s : ServiceSettings) (now : ℕ) (t : Trigger) (st : Store R L)
      → is_digest s ≡ true
      → (t.type ≡ "like") ⊎ (t.type ≡ "repost")
      → IsTallied (unwrap_or (st.groups (group_id F s now t)).value no_group)
      → IsTallied (
          unwrap_or
            ((ingest_for_generation R L F s now t st).1.groups (group_id F s now t)).value
            no_group)
  unfolding ingest_for_generation
  ingest-IsTallied_own s now t st d kind h =
      ground (arith, ingest_new-IsTallied s now t st d kind h)

  -- The ingest of a like or a repost into a digest keeps the totals of every group: each is at most
  -- the bound, is at the bound where it is said to be a lower bound, and their sum is what is
  -- pending.
  pub ingest-IsTallied :
      (s : ServiceSettings) (now : ℕ) (t : Trigger) (st : Store R L)
      → is_digest s ≡ true
      → (t.type ≡ "like") ⊎ (t.type ≡ "repost")
      → ((j : String) → IsTallied (unwrap_or (st.groups j).value no_group))
      → (j : String)
      → IsTallied (unwrap_or ((ingest_for_generation R L F s now t st).1.groups j).value no_group)
  ingest-IsTallied s now t st d kind h j = elim (Bool-cases (str_eq (group_id F s now t) j)) [
    | inl own ↦
        subst
          (λ i.
            IsTallied
              (unwrap_or ((ingest_for_generation R L F s now t st).1.groups i).value no_group))
          ((eq_iff (group_id F s now t) j).0 own)
          (ingest-IsTallied_own s now t st d kind (h (group_id F s now t)))
    | inr other ↦ rw (ingest-other_group s now t st j other) (h j)
  ]

  -- With a positive window and numbers written one way each, an event that comes at or after the
  -- deadline of a bucket leaves the bucket's group as it is.
  pub ingest_after_deadline :
      (s : ServiceSettings) (now now' : ℕ) (t : Trigger) (st : Store R L)
      → 0 < s.coalesce_window_secs
      → ((m n : ℕ) → F.decimal m ≡ F.decimal n → m ≡ n)
      → due_at s now ≤ now'
      → (ingest_for_generation R L F s now' t st).1.groups (group_id F s now t)
        ≡ st.groups (group_id F s now t)
  ingest_after_deadline s now now' t st w injective late =
      ingest-other_group s now' t st (group_id F s now t)
        (elim (Bool-cases (str_eq (group_id F s now' t) (group_id F s now t))) [
          | inl same ↦ absurd (
              omega (
                arith,
                injective (bucket_at s now') (bucket_at s now)
                    (group_id_bucket F s now' now t ((eq_iff _ _).0 same)),
                bucket_passed s now now' w late,
              ))
          | inr other ↦ other
        ])
