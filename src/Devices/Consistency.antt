-- ===== src/Devices/Consistency.antt =====
-- What the keys of a token say of each other (src/redis_store.rs).
use divine_push_service.Prelude.{
  ℕ, ◌≡◌, String, ◌&&◌, not, Bool, true, false, Option, none, some, List, [], ◌∷◌, refl, arith,
  str_eq, eq_iff, eq_refl, if◌then◌else◌, is_some, inl, inr, Option-cases, ◌∙◌,
}
use divine_push_service.Prelude.Int.{ℤ}
use divine_push_service.Redis.{SortedSets}
use divine_push_service.Claims.{is_held_by}
use divine_push_service.Redis.Members.{MemberSets, contains}
use divine_push_service.Devices.{
  Parsers, Devices, add_or_update_token_with_timezone_name, remove_token, refresh_token_activity,
  touch, touch_all, move_away,
}

module _ (R : SortedSets) (S : MemberSets) (P : Parsers) where
  open R use {zscore}
  open S use {smembers}

  abbrev pub is_listed : String → String → Devices R S → Bool
  is_listed pubkey token d = contains (smembers (d.user_tokens pubkey)) token

  -- The owner is written the one way in which a public key is.
  abbrev pub is_canonical : Option String → Bool
  is_canonical none = true
  is_canonical (some pubkey) = is_held_by pubkey (P.from_hex pubkey)

  -- A token is in the set of its owner and in no other, and it is tracked exactly if it is owned.
  pub record IsConsistent (token pubkey : String) (d : Devices R S) : Type 0 where
    pub owned : is_listed pubkey token d ≡ is_held_by pubkey (d.token_to_pubkey token)
    pub tracked : is_some (zscore d.stale_tokens token) ≡ is_some (d.token_to_pubkey token)
    pub canonical : is_canonical (d.token_to_pubkey token) ≡ true

  listed-move_away :
      (o : Option String) (p t token pubkey : String) (d : Devices R S)
      → is_canonical o ≡ true
      → is_listed pubkey token (move_away R S P o p t d) ≡ (
          if str_eq t token && (is_held_by pubkey o && not (str_eq pubkey p))
          then false
          else is_listed pubkey token d)
  unfolding move_away
  listed-move_away none p t token pubkey d h = ground arith
  listed-move_away (some e) p t token pubkey d h = elim (Option-cases (P.from_hex e)) [
    | inl n ↦ ground (arith, eq_iff e p, eq_iff e pubkey, eq_iff pubkey p)
    | inr (q, n) ↦ ground (
      arith,
      eq_iff q e,
      eq_iff e p,
      eq_iff e pubkey,
      eq_iff q pubkey,
      eq_iff pubkey p,
      S.smembers-srem t (d.user_tokens q) token,
    )
  ]

  -- A registration of a public key that is written the one way keeps the keys of every token
  -- consistent, and the registered token is then of that key alone.
  pub register-IsConsistent :
      (now : ℕ) (p t : String) (offset : Option ℤ) (timezone : Option String)
      (token pubkey : String) (d : Devices R S)
      → P.from_hex p ≡ some p
      → IsConsistent t pubkey d
      → IsConsistent token pubkey d
      → IsConsistent token pubkey
          (add_or_update_token_with_timezone_name R S P now p t offset timezone d)
  unfolding add_or_update_token_with_timezone_name
  register-IsConsistent now p t offset timezone token pubkey d written h0 h =
      let d' = move_away R S P (d.token_to_pubkey t) p t d in
      record {
        owned = ground (
          arith,
          h.owned,
          eq_iff t token,
          eq_iff p pubkey,
          eq_iff pubkey p,
          eq_refl p,
          listed-move_away (d.token_to_pubkey t) p t token pubkey d h0.canonical,
          S.smembers-sadd t (d'.user_tokens p) token,
        );
        tracked =
            ground (arith, h.tracked, eq_iff t token, R.zscore-zadd now t d.stale_tokens token);
        canonical = ground (arith, h.canonical, eq_refl p);
      }

  -- A removal keeps the keys of every token consistent.
  pub remove-IsConsistent :
      (p t token pubkey : String) (d : Devices R S)
      → IsConsistent t pubkey d
      → IsConsistent token pubkey d
      → IsConsistent token pubkey (remove_token R S p t d).1
  unfolding remove_token
  remove-IsConsistent p t token pubkey d h0 h = record {
    owned = elim (Option-cases (d.token_to_pubkey t)) [
      | inl e ↦ ground (arith, h.owned)
      | inr (owner, e) ↦ ground (
        arith,
        h.owned,
        eq_iff t token,
        eq_iff owner p,
        eq_iff owner pubkey,
        eq_iff p pubkey,
        S.smembers-srem t (d.user_tokens p) token,
      )
    ];
    tracked = ground (arith, h.tracked, eq_iff t token, R.zscore-zrem t d.stale_tokens token);
    canonical = ground (arith, h.canonical);
  }

  touch-tracked :
      (now : ℕ) (t : String) (z : R.Zset) (token : String)
      → is_some (zscore (touch R S now t z).1 token) ≡ is_some (zscore z token)
  unfolding touch
  touch-tracked now t z token = ground (arith, eq_iff t token, R.zscore-zadd now t z token)

  touch_all-tracked :
      (now : ℕ) (tokens : List String) (z : R.Zset) (token : String)
      → is_some (zscore (touch_all R S now tokens z).1 token) ≡ is_some (zscore z token)
  unfolding touch_all
  touch_all-tracked now [] z token = refl
  touch_all-tracked now (t ∷ tokens) z token =
      touch_all-tracked now tokens (touch R S now t z).1 token ∙ touch-tracked now t z token

  -- A sign of life keeps the keys of every token consistent.
  pub refresh-IsConsistent :
      (now : ℕ) (tokens : List String) (token pubkey : String) (d : Devices R S)
      → IsConsistent token pubkey d
      → IsConsistent token pubkey (refresh_token_activity R S now tokens d).1
  unfolding refresh_token_activity
  refresh-IsConsistent now tokens token pubkey d h = record {
    owned = h.owned;
    tracked = touch_all-tracked now tokens d.stale_tokens token ∙ h.tracked;
    canonical = h.canonical;
  }
