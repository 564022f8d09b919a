-- ===== src/Redis/Entries/Counts.antt =====
-- How many entries there are, and how many of them are fresh.
use divine_push_service.Prelude.{ℕ, suc, ◌+◌, ◌≤◌, String, ◌≡◌, refl, some, [], ◌∷◌, arith, length}
use divine_push_service.Redis.{counted, present}
use divine_push_service.Redis.Entries.{Entries, find, without, insert, fresh, count}

pub length-insert : (m : String) (s : ℕ) (l : Entries) → length (insert m s l) ≡ suc (length l)
unfolding insert
length-insert m s [] = refl
length-insert m s ((j, t) ∷ l) = ground (arith, length-insert m s l)

pub length-without :
    (m : String) (l : Entries) → length (without m l) + present (find l m) ≡ length l
unfolding without find
length-without m [] = omega arith
length-without m ((j, t) ∷ l) = ground (arith, length-without m l)

pub length-fresh : (now window : ℕ) (l : Entries) → length (fresh now window l) ≡ count now window l
unfolding fresh count
length-fresh now window [] = refl
length-fresh now window ((j, t) ∷ l) = ground (arith, length-fresh now window l)

pub count-insert :
    (now window : ℕ) (m : String) (s : ℕ) (l : Entries)
    → count now window (insert m s l) ≡ count now window l + counted now window (some s)
unfolding insert count
count-insert now window m s [] = ground arith
count-insert now window m s ((j, t) ∷ l) = ground (arith, count-insert now window m s l)

pub count-without :
    (now window : ℕ) (m : String) (l : Entries)
    → count now window (without m l) + counted now window (find l m) ≡ count now window l
unfolding without find count
count-without now window m [] = omega arith
count-without now window m ((j, t) ∷ l) = ground (arith, count-without now window m l)

pub count-fresh :
    (now window now' window' : ℕ) (l : Entries)
    → now + window' ≤ now' + window
    → count now' window' (fresh now window l) ≡ count now' window' l
unfolding fresh count
count-fresh now window now' window' [] h = refl
count-fresh now window now' window' ((j, t) ∷ l) h =
    ground (arith, count-fresh now window now' window' l h)

pub count_mono :
    (now window now' window' : ℕ) (l : Entries)
    → now + window' ≤ now' + window
    → count now' window' l ≤ count now window l
unfolding count
count_mono now window now' window' [] h = omega arith
count_mono now window now' window' ((j, t) ∷ l) h =
    ground (arith, count_mono now window now' window' l h)

pub count-le-length : (now window : ℕ) (l : Entries) → count now window l ≤ length l
unfolding count
count-le-length now window [] = omega arith
count-le-length now window ((j, t) ∷ l) = ground (arith, count-le-length now window l)

pub count-pos :
    (now window : ℕ) (l : Entries) (j : String) → counted now window (find l j) ≤ count now window l
unfolding count find
count-pos now window [] j = omega arith
count-pos now window ((m, t) ∷ l) j = ground (arith, count-pos now window l j)
