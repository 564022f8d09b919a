-- ===== src/Events/Targets.antt =====
-- The creators that a notify list is taken to name (src/event_handler.rs, `collect_notify_creators`).
use divine_push_service.Prelude.{
  ℕ, ◌+◌, ◌≤◌, ◌<◌, ◌≡◌, ◌&&◌, ◌||◌, String, Bool, true, false, not, List, [], ◌∷◌, arith, eq_iff,
  str_eq, ◌⊎◌, length, eq_refl,
}
use divine_push_service.Redis.Members.{contains}
use divine_push_service.Events.{
  Event, Parsing, is_p, pubkeys_of, collect_creators, collect_notify_creators,
}

-- No element comes twice.
abbrev pub are_distinct : List String → Bool
are_distinct [] = true
are_distinct (x ∷ l) = not (contains l x) && are_distinct l

module _ (author : String) (max_creators : ℕ) where
  length-collect_creators :
      (seen pubkeys : List String)
      → length seen ≤ max_creators
      → length seen + length (collect_creators author max_creators seen pubkeys) ≤ max_creators
  unfolding collect_creators
  length-collect_creators seen [] h = ground arith
  length-collect_creators seen (p ∷ pubkeys) h =
      ground
        (arith, length-collect_creators seen pubkeys h, length-collect_creators (p ∷ seen) pubkeys)

  collect_creators-apart :
      (seen pubkeys : List String) (j : String)
      → (contains seen j || str_eq j author) ≡ true
      → contains (collect_creators author max_creators seen pubkeys) j ≡ false
  unfolding collect_creators
  collect_creators-apart seen [] j h = ground arith
  collect_creators-apart seen (p ∷ pubkeys) j h = ground (
    arith,
    eq_iff p j,
    eq_iff p author,
    eq_iff j author,
    collect_creators-apart seen pubkeys j h,
    collect_creators-apart (p ∷ seen) pubkeys j,
  )

  collect_creators-distinct :
      (seen pubkeys : List String)
      → are_distinct (collect_creators author max_creators seen pubkeys) ≡ true
  unfolding collect_creators
  collect_creators-distinct seen [] = ground arith
  collect_creators-distinct seen (p ∷ pubkeys) = ground (
    arith,
    eq_refl p,
    collect_creators-distinct seen pubkeys,
    collect_creators-distinct (p ∷ seen) pubkeys,
    collect_creators-apart (p ∷ seen) pubkeys p,
  )

  -- A list that is not full has every key of the tags but the author's.
  collect_creators_complete :
      (seen pubkeys : List String) (j : String)
      → length seen + length (collect_creators author max_creators seen pubkeys) < max_creators
      → str_eq j author ≡ false
      → (contains seen j || contains (collect_creators author max_creators seen pubkeys) j)
        ≡ (contains seen j || contains pubkeys j)
  unfolding collect_creators
  collect_creators_complete seen [] j room other = ground arith
  collect_creators_complete seen (p ∷ pubkeys) j room other = ground (
    arith,
    eq_iff p j,
    eq_iff p author,
    eq_iff j author,
    collect_creators_complete seen pubkeys j,
    collect_creators_complete (p ∷ seen) pubkeys j,
  )

-- A notify list is taken to name at most so many creators as the setting says, none twice and never
-- its author; and where it names fewer, every other public key of its `p` tags is one of them.
pub creators_taken :
    (P : Parsing) (event : Event) (max_creators : ℕ) (j : String)
    → let taken = collect_notify_creators P event max_creators in
      (length taken ≤ max_creators)
      × (are_distinct taken ≡ true)
      × (contains taken event.pubkey ≡ false)
      × ((length taken ≡ max_creators)
          ⊎ ((j ≡ event.pubkey) ⊎ (contains taken j ≡ contains (pubkeys_of P is_p event.tags) j)))
unfolding collect_notify_creators
creators_taken P event max_creators j =
    let pubkeys = pubkeys_of P is_p event.tags in
    (
      ground (arith, length-collect_creators event.pubkey max_creators [] pubkeys),
      collect_creators-distinct event.pubkey max_creators [] pubkeys,
      ground (
        arith,
        eq_refl event.pubkey,
        collect_creators-apart event.pubkey max_creators [] pubkeys event.pubkey,
      ),
      ground (
        arith,
        eq_iff j event.pubkey,
        length-collect_creators event.pubkey max_creators [] pubkeys,
        collect_creators_complete event.pubkey max_creators [] pubkeys j,
      ),
    )
