-- ===== src/Devices/Sweep.antt =====
-- The sweep of stale tokens (src/redis_store.rs, `cleanup_stale_tokens`).
use divine_push_service.Prelude.{
  ℕ, ◌-◌, ◌≤◌, ◌<◌, ◌≡◌, String, true, false, ◌&&◌, ◌||◌, Option, none, some, List, [], ◌∷◌, arith,
  leb, str_eq, eq_iff, eq_refl, if◌then◌else◌, ap, ◌∙◌, refl,
}
use divine_push_service.Redis.{SortedSets, is_named}
use divine_push_service.Redis.Members.{MemberSets, contains}
use divine_push_service.Claims.{is_held_by}
use divine_push_service.Devices.{
  Parsers, Devices, names, read_owners, read_stale, forget_token, forget_tokens, sweep,
  cleanup_stale_tokens, refresh_token_activity, touch,
}
use divine_push_service.Devices.Consistency.{is_listed, IsConsistent}

module _ (R : SortedSets) (S : MemberSets) (P : Parsers) where
  open R use {zscore, zrangebyscore_all, zremrange}

  contains-names : (l : List (String × ℕ)) (j : String) → contains (names R S l) j ≡ is_named j l
  contains-names [] j = refl
  contains-names ((m, s) ∷ l) j = ap (λ b. str_eq m j || b) (contains-names l j)

  owner-forget_tokens :
      (d₀ : Devices R S) (ts : List String) (token : String) (d : Devices R S)
      → (forget_tokens R S (read_owners R S d₀ ts) d).token_to_pubkey token
        ≡ (if contains ts token then none else d.token_to_pubkey token)
  unfolding forget_tokens read_owners
  owner-forget_tokens d₀ [] token d = refl
  owner-forget_tokens d₀ (t ∷ ts) token d = ground (
    arith,
    owner-forget_tokens d₀ ts token (forget_token R S (t, d₀.token_to_pubkey t) d),
    eq_iff t token,
  )

  stale-forget_tokens :
      (l : List (String × Option String)) (d : Devices R S)
      → (forget_tokens R S l d).stale_tokens ≡ d.stale_tokens
  unfolding forget_tokens
  stale-forget_tokens [] d = refl
  stale-forget_tokens (entry ∷ l) d = stale-forget_tokens l (forget_token R S entry d)

  listed-forget_token :
      (t : String) (o : Option String) (token pubkey : String) (d : Devices R S)
      → is_listed R S P pubkey token (forget_token R S (t, o) d)
        ≡ (if str_eq t token && is_held_by pubkey o then false else is_listed R S P pubkey token d)
  unfolding forget_token
  listed-forget_token t none token pubkey d = ground arith
  listed-forget_token t (some p) token pubkey d =
      ground (arith, eq_iff p pubkey, S.smembers-srem t (d.user_tokens p) token)

  listed-forget_tokens :
      (d₀ : Devices R S) (ts : List String) (token pubkey : String) (d : Devices R S)
      → is_listed R S P pubkey token (forget_tokens R S (read_owners R S d₀ ts) d) ≡ (
          if contains ts token && is_held_by pubkey (d₀.token_to_pubkey token)
          then false
          else is_listed R S P pubkey token d)
  unfolding forget_tokens read_owners
  listed-forget_tokens d₀ [] token pubkey d = refl
  listed-forget_tokens d₀ (t ∷ ts) token pubkey d = ground (
    arith,
    listed-forget_tokens d₀ ts token pubkey (forget_token R S (t, d₀.token_to_pubkey t) d),
    listed-forget_token t (d₀.token_to_pubkey t) token pubkey d,
    eq_iff t token,
  )

  sweep_entries :
      (cutoff : ℕ) (t : String) (ts : List String) (d₀ d : Devices R S)
      → sweep R S cutoff (read_owners R S d₀ (t ∷ ts)) d
        ≡ forget_tokens R S
            (read_owners R S d₀ (t ∷ ts))
            (record d { stale_tokens = zremrange cutoff 0 d.stale_tokens })
  unfolding sweep read_owners forget_tokens
  sweep_entries cutoff t ts d₀ d = refl

  sweep-IsConsistent :
      (cutoff : ℕ) (ts : List String) (token pubkey : String) (d : Devices R S)
      → contains ts token
        ≡ (elim (zscore d.stale_tokens token) [ none ↦ false | some s ↦ leb s cutoff ])
      → IsConsistent R S P token pubkey d
      → IsConsistent R S P token pubkey (sweep R S cutoff (read_owners R S d ts) d)
  unfolding sweep
  sweep-IsConsistent cutoff [] token pubkey d stale h = unfold read_owners in h
  sweep-IsConsistent cutoff (t ∷ ts) token pubkey d stale h =
      let d' : Devices R S = record d { stale_tokens = zremrange cutoff 0 d.stale_tokens } in
      let l = read_owners R S d (t ∷ ts) in
      rw (sweep_entries cutoff t ts d d) (record {
        owned = ground (
          arith,
          h.owned,
          listed-forget_tokens d (t ∷ ts) token pubkey d',
          owner-forget_tokens d (t ∷ ts) token d',
        );
        tracked = ground (
          arith,
          h.tracked,
          owner-forget_tokens d (t ∷ ts) token d',
          ap (λ z. zscore z token) (stale-forget_tokens l d'),
          R.zscore-zremrange cutoff 0 d.stale_tokens token,
        );
        canonical = ground (arith, h.canonical, owner-forget_tokens d (t ∷ ts) token d');
      })

  -- A sweep keeps the keys of every token consistent.
  pub sweep_stale-IsConsistent :
      (now max_age : ℕ) (token pubkey : String) (d : Devices R S)
      → IsConsistent R S P token pubkey d
      → IsConsistent R S P token pubkey (cleanup_stale_tokens R S now max_age d).1
  unfolding cleanup_stale_tokens read_stale
  sweep_stale-IsConsistent now max_age token pubkey d h =
      let l = zrangebyscore_all (now - max_age) d.stale_tokens in
      sweep-IsConsistent (now - max_age) (names R S l) token pubkey d
        (contains-names l token ∙ R.zrangebyscore_all-names (now - max_age) d.stale_tokens token) h

  touched :
      (now s : ℕ) (t : String) (d : Devices R S)
      → zscore d.stale_tokens t ≡ some s
      → s < now
      → zscore (refresh_token_activity R S now (t ∷ []) d).1.stale_tokens t ≡ some now
  unfolding refresh_token_activity touch
  touched now s t d at earlier = ground (arith, eq_refl t, R.zscore-zadd now t d.stale_tokens t)

  swept_late :
      (cutoff now : ℕ) (ts : List String) (t : String) (d₀ d : Devices R S)
      → contains ts t ≡ true
      → cutoff < now
      → zscore d.stale_tokens t ≡ some now
      → let d' = sweep R S cutoff (read_owners R S d₀ ts) d in
        (d'.token_to_pubkey t ≡ none) × (zscore d'.stale_tokens t ≡ some now)
  swept_late cutoff now [] t d₀ d stale late at = cc
  swept_late cutoff now (i ∷ ts) t d₀ d stale late at =
      let d' : Devices R S = record d { stale_tokens = zremrange cutoff 0 d.stale_tokens } in
      rw (sweep_entries cutoff i ts d₀ d) (
        rw (owner-forget_tokens d₀ (i ∷ ts) t d', stale) refl,
        rw (stale-forget_tokens (read_owners R S d₀ (i ∷ ts)) d')
            (ground (arith, R.zscore-zremrange cutoff 0 d.stale_tokens t)),
      )

  -- A token whose sign of life comes between the reads and the pipeline of a sweep that read it as
  -- stale loses its owner, and stays tracked.
  pub sweep_race :
      (cutoff now s : ℕ) (t : String) (d : Devices R S)
      → zscore d.stale_tokens t ≡ some s
      → s ≤ cutoff
      → cutoff < now
      → let d' =
          sweep R S cutoff
            (read_stale R S cutoff d)
            (refresh_token_activity R S now (t ∷ []) d).1 in
        (d'.token_to_pubkey t ≡ none) × (zscore d'.stale_tokens t ≡ some now)
  unfolding read_stale
  sweep_race cutoff now s t d at old late =
      let l = zrangebyscore_all cutoff d.stale_tokens in
      swept_late cutoff now (names R S l) t d (refresh_token_activity R S now (t ∷ []) d).1
        (contains-names l t ∙ ground (arith, R.zrangebyscore_all-names cutoff d.stale_tokens t))
        late (touched now s t d at (omega arith))
