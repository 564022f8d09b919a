-- ===== src/Budget/Spacing.antt =====
-- The interval between nonurgent sends (src/notification_delivery.rs, `reserve_budget_for_class`).
use divine_push_service.Prelude.{
  ℕ, ◌+◌, ◌≤◌, String, ◌≡◌, false, Option, none, some, List, [], ◌∷◌, ◌⊎◌, inr, inl, arith, str_eq,
  eq_iff, length, All,
}
use divine_push_service.Redis.{SortedSets, IsDescending}
use divine_push_service.Budget.{
  DeliverySettings, nonurgent, allowed, Request, Books, open_books, decide, reserve, cooldown_left,
  latest_left, decision_of,
}

abbrev Entry : Type 0
Entry = String × ℕ

module _ (f : String → Option ℕ) (interval now : ℕ) (id j : String) (s : ℕ) (at_j : f j ≡ some s)
    (other : str_eq id j ≡ false) where
  -- Where the loop finds nothing left, an identity that is among the entries has waited.
  waited_or_absent :
      (l : List Entry)
      → All (λ (e : Entry). f e.0 ≡ some e.1) l
      → cooldown_left id interval now l ≡ none
      → (s + interval ≤ now) ⊎ All (λ (e : Entry). str_eq e.0 j ≡ false) l
  unfolding cooldown_left
  waited_or_absent [] sound left = inr tt
  waited_or_absent ((m, t) ∷ l) sound left =
      ground (arith, eq_iff m j, eq_iff m id, eq_iff id j, waited_or_absent l sound.1)

-- Two entries of distinct members cannot both be the identity's own.
waited_of_two :
    (interval now : ℕ) (id : String) (s : ℕ) (l : List Entry)
    → length l ≡ 2
    → IsDescending l
    → All (λ (e : Entry). s ≤ e.1) l
    → cooldown_left id interval now l ≡ none
    → s + interval ≤ now
unfolding cooldown_left
waited_of_two interval now id s [] two d above left = absurd (omega arith)
waited_of_two interval now id s (a ∷ []) two d above left = absurd (omega arith)
waited_of_two interval now id s ((m, t) ∷ (n, u) ∷ []) two d above left =
    ground (arith, eq_iff m id, eq_iff n id, eq_iff n m)
waited_of_two interval now id s (a ∷ b ∷ c ∷ l) two d above left = absurd (omega arith)

waited_of_one :
    (f : String → Option ℕ) (interval now : ℕ) (j : String) (s : ℕ) (l : List Entry)
    → f j ≡ some s
    → All (λ (e : Entry). f e.0 ≡ some e.1) l
    → latest_left interval now l ≡ none
    → length l ≤ 1
    → (s + interval ≤ now)
      ⊎ (All (λ (e : Entry). str_eq e.0 j ≡ false) l
          × (length l ≡ 1 → All (λ (e : Entry). s ≤ e.1) l → s + interval ≤ now))
unfolding latest_left
waited_of_one f interval now j s [] at_j sound left one = inr (tt, λ h _. absurd (omega arith))
waited_of_one f interval now j s ((m, t) ∷ []) at_j sound left one = ground (arith, eq_iff m j)
waited_of_one f interval now j s (a ∷ b ∷ l) at_j sound left one = absurd (omega arith)

module _ (R : SortedSets) (settings : DeliverySettings) (q : Request) (now : ℕ) (b : Books R)
    (j : String) (s : ℕ) where
  open R use {zscore, zrevrange}

  waited_of_retry :
      zscore b.own.sends.value j ≡ some s
      → str_eq q.identity j ≡ false
      → cooldown_left q.identity settings.min_interval_secs now (zrevrange 2 b.own.sends.value)
        ≡ none
      → s + settings.min_interval_secs ≤ now
  waited_of_retry at_j other left =
      let z = b.own.sends.value in
      elim (waited_or_absent (zscore z) settings.min_interval_secs now q.identity j s at_j other
        (zrevrange 2 z) (R.zrevrange-sound 2 z) left) [
          | inl waited ↦ waited
          | inr absent ↦
              (let full = R.zrevrange-complete 2 z j s at_j absent in
                waited_of_two settings.min_interval_secs now q.identity s (zrevrange 2 z) full.0
                  (R.zrevrange-IsDescending 2 z) full.1 left)
        ]

  waited_of_new :
      zscore b.own.sends.value j ≡ some s
      → latest_left settings.min_interval_secs now (zrevrange 1 b.own.sends.value) ≡ none
      → s + settings.min_interval_secs ≤ now
  waited_of_new at_j left =
      let z = b.own.sends.value in
      elim (waited_of_one (zscore z) settings.min_interval_secs now j s (zrevrange 1 z) at_j
        (R.zrevrange-sound 1 z) left (R.length-zrevrange 1 z)) [
          | inl waited ↦ waited
          | inr (absent, rest) ↦
              (let full = R.zrevrange-complete 1 z j s at_j absent in rest full.0 full.1)
        ]

  pub decide_spaced :
      decision_of R (decide R settings q now b).0 ≡ allowed
      → q.class ≡ nonurgent
      → str_eq q.identity j ≡ false
      → zscore (decide R settings q now b).1.own.sends.value j ≡ some s
      → s + settings.min_interval_secs ≤ now
  unfolding decide
  decide_spaced ok urgent other at_j =
      ground
        (arith, waited_of_retry, waited_of_new, R.zscore-zadd now q.identity b.own.sends.value j)

-- After an allowed nonurgent reservation, every other identity in its ledger was reserved at least
-- the minimal interval before.
pub reserve_spaced :
    (R : SortedSets) (settings : DeliverySettings) (q : Request) (now : ℕ) (b : Books R)
    (j : String) (s : ℕ)
    → (reserve R settings q now b).0 ≡ allowed
    → q.class ≡ nonurgent
    → str_eq q.identity j ≡ false
    → R.zscore (reserve R settings q now b).1.own.sends.value j ≡ some s
    → s + settings.min_interval_secs ≤ now
unfolding reserve
reserve_spaced R settings q now b j s ok urgent other at_j =
    decide_spaced R settings q now (open_books R now b) j s ok urgent other at_j
