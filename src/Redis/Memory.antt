-- ===== src/Redis/Memory.antt =====
-- The sorted set in memory as an instance of the interface of Redis.
use divine_push_service.Prelude.{String, ℕ, ◌≡◌, refl, [], ◌∷◌, All-imp, take, arith}
use divine_push_service.Redis.{SortedSets, IsDescending, present, counted}
use divine_push_service.Redis.Entries.{Entry, Entries, find, without, insert, fresh, count}
use divine_push_service.Redis.Entries.Order.{
  Absent-without, IsDescending-without, IsDescending-insert, IsDescending-fresh, IsDescending-take,
  find-insert, find-without, find-fresh, find_self, find-Below, All-take, length-take,
}
use divine_push_service.Redis.Entries.Order
use divine_push_service.Redis.Entries.Due.{due, All-due, IsAscending-due, find-due, is_named-due}
use divine_push_service.Redis.Entries.Due
use divine_push_service.Redis.Entries.Counts.{
  length-insert, length-without, length-fresh, count-insert, count-without, count-fresh, count_mono,
  count-le-length, count-pos,
}
use divine_push_service.Prelude.{length, none, some, All, ◌≤◌, ◌+◌, if◌then◌else◌, str_eq}

abbrev pub Ordered : Type 0
Ordered = (l : Entries) × IsDescending l

abbrev pub add : ℕ → String → Ordered → Ordered
add s m z = (
  insert m s (without m z.0),
  IsDescending-insert m s (without m z.0) (Absent-without m z.0 z.1)
      (IsDescending-without m z.0 z.1),
)

pub find-add :
    (s : ℕ) (m : String) (z : Ordered) (j : String)
    → find (add s m z).0 j ≡ (if str_eq m j then some s else find z.0 j)
find-add s m z j =
    ground (
      arith,
      find-insert m s (without m z.0) j (Absent-without m z.0 z.1),
      find-without m z.0 j z.1,
    )

pub length-add :
    (s : ℕ) (m : String) (z : Ordered)
    → length (add s m z).0 + present (find z.0 m) ≡ length z.0 + 1
length-add s m z = omega (arith, length-insert m s (without m z.0), length-without m z.0)

pub count-add :
    (now window s : ℕ) (m : String) (z : Ordered)
    → count now window (add s m z).0 + counted now window (find z.0 m)
      ≡ count now window z.0 + counted now window (some s)
count-add now window s m z =
    ground (arith, count-insert now window m s (without m z.0), count-without now window m z.0)

pub find_due_self :
    (now : ℕ) (z : Ordered)
    → All (λ (e : Entry). (find z.0 e.0 ≡ some e.1) × (e.1 ≤ now)) (due now z.0)
find_due_self now z = All-due (λ e. find z.0 e.0 ≡ some e.1) now z.0 (find_self z.0 z.1)

pub find-nil : (j : String) → find [] j ≡ none
unfolding find
find-nil j = refl

-- The greatest score.
abbrev pub top : Ordered → ℕ
top ([], d) = 0
top ((m, s) ∷ l, d) = s

abbrev pub rising : Ordered → Entries
rising z = due (top z) z.0

pub find-le-top : (z : Ordered) (j : String) (s : ℕ) → find z.0 j ≡ some s → s ≤ top z
unfolding find
find-le-top ([], d) j s h = cc
find-le-top ((m, t) ∷ l, d) j s h = ground (arith, find-Below j s t m l, d.0)

abbrev pub memory : SortedSets
memory = record {
  Zset = Ordered;
  no_members = ([], tt);
  zscore = λ z. find z.0;
  zadd = add;
  zrem = λ m z. (without m z.0, IsDescending-without m z.0 z.1);
  zremrange = λ now window z. (fresh now window z.0, IsDescending-fresh now window z.0 z.1);
  zcard = λ z. length z.0;
  zcount = λ now window z. count now window z.0;
  zrevrange = λ n z. take n z.0;
  zrange = λ n z. take n (rising z);
  zrangebyscore = λ now n z. take n (due now z.0);
  zrangebyscore_all = λ now z. due now z.0;
  zscore-no_members = find-nil;
  zscore-zadd = find-add;
  zscore-zrem = λ m z j. find-without m z.0 j z.1;
  zscore-zremrange = λ now window z j. find-fresh now window z.0 j z.1;
  zcard-no_members = refl;
  zcard-zadd = length-add;
  zcard-zrem = λ m z. length-without m z.0;
  zcard-zremrange = λ now window z. length-fresh now window z.0;
  zcount-zadd = count-add;
  zcount-zrem = λ now window m z. count-without now window m z.0;
  zcount-zremrange = λ now window now' window' z. count-fresh now window now' window' z.0;
  zcount_mono = λ now window now' window' z. count_mono now window now' window' z.0;
  zcount-le-zcard = λ now window z. count-le-length now window z.0;
  zcount-pos = λ now window z. count-pos now window z.0;
  zrevrange-sound = λ n z. All-take (λ e. find z.0 e.0 ≡ some e.1) n z.0 (find_self z.0 z.1);
  zrevrange-IsDescending = λ n z. IsDescending-take n z.0 z.1;
  length-zrevrange = λ n z. length-take n z.0;
  zrevrange-complete = λ n z j s. Order.take_complete n z.0 j s z.1;
  zrange-sound = λ n z.
      All-take (λ e. find z.0 e.0 ≡ some e.1) n (rising z)
        (All-imp (rising z) (λ e p. p.0) (find_due_self (top z) z));
  length-zrange = λ n z. length-take n (rising z);
  zrange-complete = λ n z j s h.
      Due.take_complete n (rising z) j s (IsAscending-due (top z) z.0 z.1)
        (find-due (top z) z.0 j s z.1 h (find-le-top z j s h));
  zrangebyscore-sound = λ now n z.
      All-take (λ e. (find z.0 e.0 ≡ some e.1) × (e.1 ≤ now)) n (due now z.0) (find_due_self now z);
  zrangebyscore-complete = λ now n z j s h le.
      Due.take_complete n (due now z.0) j s (IsAscending-due now z.0 z.1)
        (find-due now z.0 j s z.1 h le);
  length-zrangebyscore = λ now n z. length-take n (due now z.0);
  zrangebyscore_all-names = λ now z j. is_named-due now z.0 j z.1;
}
