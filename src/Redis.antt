-- ===== src/Redis.antt =====
-- What the service relies on of Redis, which it calls and does not implement: sorted sets with
-- numeric scores, and keys with an expiry time. Both are interfaces here; `Redis.Memory` is a
-- sorted set in memory that meets the first one.
pub mod Entries
pub mod Memory
pub mod Members
use divine_push_service.Prelude.{
  ℕ, ◌+◌, ◌≤◌, String, ◌≡◌, Option, none, some, Bool, true, false, ◌||◌, List, [], ◌∷◌, ltb, leb,
  str_eq, if◌then◌else◌, length, All,
}

-- 1 where the score of a member is after `now - window`; 0 where it is not, or there is no member.
abbrev pub counted : ℕ → ℕ → Option ℕ → ℕ
counted now window none = 0
counted now window (some s) = if ltb now (s + window) then 1 else 0

-- A score that survives the removal of the scores up to `now - window`.
abbrev pub keep : ℕ → ℕ → Option ℕ → Option ℕ
keep now window none = none
keep now window (some s) = if ltb now (s + window) then some s else none

abbrev pub present : Option ℕ → ℕ
present none = 0
present (some s) = 1

-- The entries of a reply, in the reply's order: no later one has a greater score, and no member
-- comes twice.
abbrev pub IsDescending : List (String × ℕ) → Type 0
IsDescending [] = Unit
IsDescending ((m, s) ∷ l) =
    All (λ (e : String × ℕ). (e.1 ≤ s) × (str_eq e.0 m ≡ false)) l × IsDescending l

-- A reply names a member.
abbrev pub is_named : String → List (String × ℕ) → Bool
is_named j [] = false
is_named j ((m, s) ∷ l) = str_eq m j || is_named j l

-- A bound on scores is a difference, `now - window`, taken as two numbers, so that it is exact also
-- where it is negative.
pub record SortedSets : Type 1 where
  pub Zset : Type 0
  -- the value of an absent key
  pub no_members : Zset
  -- ZSCORE
  pub zscore : Zset → String → Option ℕ
  -- ZADD key score member
  pub zadd : ℕ → String → Zset → Zset
  -- ZREM key member
  pub zrem : String → Zset → Zset
  -- ZREMRANGEBYSCORE key -inf (now - window)
  pub zremrange : (now window : ℕ) → Zset → Zset
  -- ZCARD
  pub zcard : Zset → ℕ
  -- ZCOUNT key ((now - window) +inf
  pub zcount : (now window : ℕ) → Zset → ℕ
  -- ZREVRANGE key 0 (n - 1) WITHSCORES
  pub zrevrange : ℕ → Zset → List (String × ℕ)
  -- ZRANGE key 0 (n - 1) WITHSCORES
  pub zrange : ℕ → Zset → List (String × ℕ)
  -- ZRANGEBYSCORE key -inf now LIMIT 0 n WITHSCORES
  pub zrangebyscore : (now n : ℕ) → Zset → List (String × ℕ)
  -- ZRANGEBYSCORE key -inf now, of every member up to the bound
  pub zrangebyscore_all : ℕ → Zset → List (String × ℕ)
  pub zscore-no_members : (j : String) → zscore no_members j ≡ none
  pub zscore-zadd :
      (s : ℕ) (m : String) (z : Zset) (j : String)
      → zscore (zadd s m z) j ≡ (if str_eq m j then some s else zscore z j)
  pub zscore-zrem :
      (m : String) (z : Zset) (j : String)
      → zscore (zrem m z) j ≡ (if str_eq m j then none else zscore z j)
  pub zscore-zremrange :
      (now window : ℕ) (z : Zset) (j : String)
      → zscore (zremrange now window z) j ≡ keep now window (zscore z j)
  pub zcard-no_members : zcard no_members ≡ 0
  pub zcard-zadd :
      (s : ℕ) (m : String) (z : Zset) → zcard (zadd s m z) + present (zscore z m) ≡ zcard z + 1
  pub zcard-zrem : (m : String) (z : Zset) → zcard (zrem m z) + present (zscore z m) ≡ zcard z
  pub zcard-zremrange :
      (now window : ℕ) (z : Zset) → zcard (zremrange now window z) ≡ zcount now window z
  pub zcount-zadd :
      (now window s : ℕ) (m : String) (z : Zset)
      → zcount now window (zadd s m z) + counted now window (zscore z m)
        ≡ zcount now window z + counted now window (some s)
  pub zcount-zrem :
      (now window : ℕ) (m : String) (z : Zset)
      → zcount now window (zrem m z) + counted now window (zscore z m) ≡ zcount now window z
  -- what is left after a removal is counted as before from any later bound
  pub zcount-zremrange :
      (now window now' window' : ℕ) (z : Zset)
      → now + window' ≤ now' + window
      → zcount now' window' (zremrange now window z) ≡ zcount now' window' z
  pub zcount_mono :
      (now window now' window' : ℕ) (z : Zset)
      → now + window' ≤ now' + window
      → zcount now' window' z ≤ zcount now window z
  pub zcount-le-zcard : (now window : ℕ) (z : Zset) → zcount now window z ≤ zcard z
  pub zcount-pos :
      (now window : ℕ) (z : Zset) (j : String)
      → counted now window (zscore z j) ≤ zcount now window z
  pub zrevrange-sound :
      (n : ℕ) (z : Zset) → All (λ (e : String × ℕ). zscore z e.0 ≡ some e.1) (zrevrange n z)
  pub zrevrange-IsDescending : (n : ℕ) (z : Zset) → IsDescending (zrevrange n z)
  pub length-zrevrange : (n : ℕ) (z : Zset) → length (zrevrange n z) ≤ n
  -- a reply that is not full names every member; a full one leaves out no greater score
  pub zrevrange-complete :
      (n : ℕ) (z : Zset) (j : String) (s : ℕ)
      → zscore z j ≡ some s
      → All (λ (e : String × ℕ). str_eq e.0 j ≡ false) (zrevrange n z)
      → (length (zrevrange n z) ≡ n) × All (λ (e : String × ℕ). s ≤ e.1) (zrevrange n z)
  pub zrange-sound :
      (n : ℕ) (z : Zset) → All (λ (e : String × ℕ). zscore z e.0 ≡ some e.1) (zrange n z)
  pub length-zrange : (n : ℕ) (z : Zset) → length (zrange n z) ≤ n
  -- a reply that is not full names every member; a full one leaves out no smaller score
  pub zrange-complete :
      (n : ℕ) (z : Zset) (j : String) (s : ℕ)
      → zscore z j ≡ some s
      → All (λ (e : String × ℕ). str_eq e.0 j ≡ false) (zrange n z)
      → (length (zrange n z) ≡ n) × All (λ (e : String × ℕ). e.1 ≤ s) (zrange n z)
  pub zrangebyscore-sound :
      (now n : ℕ) (z : Zset)
      → All (λ (e : String × ℕ). (zscore z e.0 ≡ some e.1) × (e.1 ≤ now)) (zrangebyscore now n z)
  -- a reply that leaves out a member within the bound is full, of scores no greater
  pub zrangebyscore-complete :
      (now n : ℕ) (z : Zset) (j : String) (s : ℕ)
      → zscore z j ≡ some s
      → s ≤ now
      → All (λ (e : String × ℕ). str_eq e.0 j ≡ false) (zrangebyscore now n z)
      → (length (zrangebyscore now n z) ≡ n)
        × All (λ (e : String × ℕ). e.1 ≤ s) (zrangebyscore now n z)
  pub length-zrangebyscore : (now n : ℕ) (z : Zset) → length (zrangebyscore now n z) ≤ n
  pub zrangebyscore_all-names :
      (now : ℕ) (z : Zset) (j : String)
      → is_named j (zrangebyscore_all now z)
        ≡ (elim (zscore z j) [ none ↦ false | some s ↦ leb s now ])

-- A key holds a value, and the second at which it expires if one is set. From then on it reads as
-- an absent key, whose value is `absent`.
pub record Key {ℓ} (A : Type ℓ) : Type ℓ where
  pub value : A
  pub expires_at : Option ℕ

module _ {ℓ} {A : Type ℓ} where
  -- The key as a command at `now` finds it.
  abbrev pub at_time : ℕ → A → Key A → Key A
  at_time now absent k = elim k.expires_at [
    | none ↦ k
    | some t ↦ if ltb now t then k else record { value = absent; expires_at = none }
  ]

  -- A write that leaves the expiry as it is.
  abbrev pub write : A → Key A → Key A
  write a k = record k { value = a }

  -- EXPIRE key secs
  abbrev pub expire : ℕ → ℕ → Key A → Key A
  expire now secs k = record k { expires_at = some (now + secs) }

  -- EXPIRE key secs NX
  abbrev pub expire_nx : ℕ → ℕ → Key A → Key A
  expire_nx now secs k = record k {
    expires_at = elim k.expires_at [ none ↦ some (now + secs) | some t ↦ some t ];
  }
