-- ===== src/Redis/Entries/Due.antt =====
-- The entries up to a score, from the least.
use divine_push_service.Prelude.{
  ℕ, zero, suc, ◌≤◌, String, ◌≡◌, refl, false, ◌||◌, none, some, [], ◌∷◌, arith, leb, str_eq,
  eq_iff, eq_refl, if◌then◌else◌, All, All-imp, length, take, ap, Bool-cases, inl, inr, leb→le,
}
use divine_push_service.Redis.{IsDescending, is_named}
use divine_push_service.Redis.Entries.{Entry, Entries, Absent, find}
use divine_push_service.Redis.Entries.Order.{Below, find-Absent}

unfoldable pub snoc : Entries → Entry → Entries
snoc [] e = e ∷ []
snoc (x ∷ l) e = x ∷ snoc l e

unfoldable pub due : ℕ → Entries → Entries
unfolding snoc
due now [] = []
due now ((m, s) ∷ l) = let rest = due now l in if leb s now then snoc rest (m, s) else rest

abbrev pub IsAscending : Entries → Type 0
IsAscending [] = Unit
IsAscending ((m, s) ∷ l) = All (λ (e : Entry). s ≤ e.1) l × IsAscending l

module _ (P : Entry → Type 0) where
  pub All-snoc : (l : Entries) (e : Entry) → All P l → P e → All P (snoc l e)
  unfolding snoc
  All-snoc [] e h p = (p, tt)
  All-snoc (x ∷ l) e h p = (h.0, All-snoc l e h.1 p)

pub All-due :
    (P : Entry → Type 0) (now : ℕ) (l : Entries)
    → All P l
    → All (λ e. P e × (e.1 ≤ now)) (due now l)
unfolding due
All-due P now [] h = tt
All-due P now ((m, s) ∷ l) h = elim (Bool-cases (leb s now)) [
  | inl le ↦ rw le (
      All-snoc (λ e. P e × (e.1 ≤ now)) (due now l) (m, s) (All-due P now l h.1)
        (h.0, leb→le s now le))
  | inr gt ↦ rw gt (All-due P now l h.1)
]

IsAscending-snoc :
    (l : Entries) (m : String) (s : ℕ)
    → IsAscending l
    → All (λ (e : Entry). e.1 ≤ s) l
    → IsAscending (snoc l (m, s))
unfolding snoc
IsAscending-snoc [] m s a h = (tt, tt)
IsAscending-snoc ((j, t) ∷ l) m s a h =
    (All-snoc (λ (e : Entry). t ≤ e.1) l (m, s) a.0 h.0, IsAscending-snoc l m s a.1 h.1)

pub IsAscending-due : (now : ℕ) (l : Entries) → IsDescending l → IsAscending (due now l)
unfolding due
IsAscending-due now [] d = tt
IsAscending-due now ((m, s) ∷ l) d = ground (
  arith,
  IsAscending-due now l d.1,
  λ (h : IsAscending (due now l)).
      IsAscending-snoc (due now l) m s h
        (All-imp (due now l) (λ e p. p.0.0) (All-due (Below m s) now l d.0)),
)

find-snoc_left :
    (l : Entries) (e : Entry) (j : String) (s : ℕ) → find l j ≡ some s → find (snoc l e) j ≡ some s
unfolding snoc find
find-snoc_left [] e j s h = cc
find-snoc_left ((m, t) ∷ l) e j s h = ground (arith, find-snoc_left l e j s)

find-snoc_right : (l : Entries) (m : String) (s : ℕ) → Absent m l → find (snoc l (m, s)) m ≡ some s
unfolding snoc find
find-snoc_right [] m s a = rw (eq_refl m)
find-snoc_right ((j, t) ∷ l) m s a = ground (arith, find-snoc_right l m s a.1)

pub find-due :
    (now : ℕ) (l : Entries) (j : String) (s : ℕ)
    → IsDescending l
    → find l j ≡ some s
    → s ≤ now
    → find (due now l) j ≡ some s
unfolding due find
find-due now [] j s d h le = cc
find-due now ((m, t) ∷ l) j s d h le = ground (
  arith,
  find-due now l j s d.1,
  find-snoc_left (due now l) (m, t) j s,
  find-snoc_right (due now l) m t
      (All-imp (due now l) (λ e p. p.0.1) (All-due (Below m t) now l d.0)),
  eq_iff m j,
)

find_above :
    (j : String) (t s : ℕ) (l : Entries)
    → find l j ≡ some t
    → All (λ (e : Entry). s ≤ e.1) l
    → s ≤ t
unfolding find
find_above j t s [] h b = cc
find_above j t s ((i, u) ∷ l) h b = ground (arith, find_above j t s l, b.0, b.1)

pub take_complete :
    (n : ℕ) (l : Entries) (j : String) (s : ℕ)
    → IsAscending l
    → find l j ≡ some s
    → Absent j (take n l)
    → (length (take n l) ≡ n) × All (λ (e : Entry). e.1 ≤ s) (take n l)
unfolding find
take_complete zero l j s d h a = (refl, tt)
take_complete (suc n) [] j s d h a = cc
take_complete (suc n) ((m, t) ∷ l) j s d h a =
    let h' : find l j ≡ some s = ground (arith, a.0) in
    let (full, below) = take_complete n l j s d.1 h' a.1 in
    (ap suc full, (find_above j s t l h' d.0, below))

pub is_named-snoc :
    (l : Entries) (m : String) (s : ℕ) (j : String)
    → is_named j (snoc l (m, s)) ≡ (is_named j l || str_eq m j)
unfolding snoc
is_named-snoc [] m s j = ground arith
is_named-snoc ((i, t) ∷ l) m s j = ground (arith, is_named-snoc l m s j)

pub is_named-due :
    (now : ℕ) (l : Entries) (j : String)
    → IsDescending l
    → is_named j (due now l) ≡ (elim (find l j) [ none ↦ false | some s ↦ leb s now ])
unfolding due find
is_named-due now [] j d = refl
is_named-due now ((m, s) ∷ l) j d = ground (
  arith,
  is_named-snoc (due now l) m s j,
  is_named-due now l j d.1,
  find-Absent m l (All-imp l (λ e p. p.1) d.0),
  eq_iff m j,
)
