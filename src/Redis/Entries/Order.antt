-- ===== src/Redis/Entries/Order.antt =====
-- The operations keep the entries in order, and each member once.
use divine_push_service.Prelude.{
  ℕ, zero, suc, ◌≤◌, String, ◌≡◌, refl, true, false, none, some, [], ◌∷◌, arith, leb, str_eq,
  eq_iff, eq_refl, if◌then◌else◌, All, All-imp, length, take, Bool-cases, inl, inr, leb→le, ap,
}
use divine_push_service.Redis.{IsDescending, keep}
use divine_push_service.Redis.Entries.{Entry, Entries, Absent, find, without, insert, fresh}

module _ (P : Entry → Type 0) where
  pub All-without : (m : String) (l : Entries) → All P l → All P (without m l)
  unfolding without
  All-without m [] h = tt
  All-without m ((j, s) ∷ l) h = ground (arith, All-without m l h.1)

  pub All-insert : (m : String) (s : ℕ) (l : Entries) → P (m, s) → All P l → All P (insert m s l)
  unfolding insert
  All-insert m s [] p h = (p, tt)
  All-insert m s ((j, t) ∷ l) p h = ground (arith, All-insert m s l p h.1)

  pub All-fresh : (now window : ℕ) (l : Entries) → All P l → All P (fresh now window l)
  unfolding fresh
  All-fresh now window [] h = tt
  All-fresh now window ((m, s) ∷ l) h = ground (arith, All-fresh now window l h.1)

  pub All-take : (n : ℕ) (l : Entries) → All P l → All P (take n l)
  All-take zero l h = tt
  All-take (suc n) [] h = tt
  All-take (suc n) (e ∷ l) h = (h.0, All-take n l h.1)

  pub All-both : (Q : Entry → Type 0) (l : Entries) → All P l → All Q l → All (λ e. P e × Q e) l
  All-both Q [] h k = tt
  All-both Q (e ∷ l) h k = ((h.0, k.0), All-both Q l h.1 k.1)

-- What may stand behind an entry.
abbrev pub Below : String → ℕ → Entry → Type 0
Below m s e = (e.1 ≤ s) × (str_eq e.0 m ≡ false)

Absent-tail :
    (j m : String) (s : ℕ) (l : Entries) → str_eq j m ≡ true → All (Below j s) l → Absent m l
Absent-tail j m s l same h = All-imp l (λ e p. rw (← (eq_iff j m).0 same) p.1) h

pub Absent-without : (m : String) (l : Entries) → IsDescending l → Absent m (without m l)
unfolding without
Absent-without m [] d = tt
Absent-without m ((j, s) ∷ l) d =
    ground (arith, Absent-without m l d.1, λ (e : str_eq j m ≡ true). Absent-tail j m s l e d.0)

pub IsDescending-without : (m : String) (l : Entries) → IsDescending l → IsDescending (without m l)
unfolding without
IsDescending-without m [] d = tt
IsDescending-without m ((j, s) ∷ l) d =
    ground (arith, IsDescending-without m l d.1, All-without (Below j s) m l d.0)

Below-trans :
    (m j : String) (s t : ℕ) (l : Entries)
    → t ≤ s
    → Absent m l
    → All (Below j t) l
    → All (Below m s) l
Below-trans m j s t l h a b =
    All-imp l (λ e p. (omega (arith, p.1.0), p.0))
      (All-both (λ e. str_eq e.0 m ≡ false) (Below j t) l a b)

pub IsDescending-insert :
    (m : String) (s : ℕ) (l : Entries) → Absent m l → IsDescending l → IsDescending (insert m s l)
unfolding insert
IsDescending-insert m s [] a d = (tt, tt)
IsDescending-insert m s ((j, t) ∷ l) a d = elim (Bool-cases (leb t s)) [
  | inl le ↦ rw le (((leb→le t s le, a.0), Below-trans m j s t l (leb→le t s le) a.1 d.0), d)
  | inr gt ↦ rw gt (
    All-insert (Below j t) m s l (ground (arith, eq_iff m j, eq_iff j m)) d.0,
    IsDescending-insert m s l a.1 d.1,
  )
]

pub IsDescending-fresh :
    (now window : ℕ) (l : Entries) → IsDescending l → IsDescending (fresh now window l)
unfolding fresh
IsDescending-fresh now window [] d = tt
IsDescending-fresh now window ((m, s) ∷ l) d =
    ground (arith, IsDescending-fresh now window l d.1, All-fresh (Below m s) now window l d.0)

pub IsDescending-take : (n : ℕ) (l : Entries) → IsDescending l → IsDescending (take n l)
IsDescending-take zero l d = tt
IsDescending-take (suc n) [] d = tt
IsDescending-take (suc n) ((m, s) ∷ l) d = (All-take (Below m s) n l d.0, IsDescending-take n l d.1)

pub find-Absent : (m : String) (l : Entries) → Absent m l → find l m ≡ none
unfolding find
find-Absent m [] a = refl
find-Absent m ((j, s) ∷ l) a = ground (arith, find-Absent m l a.1)

pub find-insert :
    (m : String) (s : ℕ) (l : Entries) (j : String)
    → Absent m l
    → find (insert m s l) j ≡ (if str_eq m j then some s else find l j)
unfolding find insert
find-insert m s [] j a = refl
find-insert m s ((i, t) ∷ l) j a =
    ground (arith, find-insert m s l j a.1, a.0, eq_iff m j, eq_iff i j, eq_iff i m)

pub find-without :
    (m : String) (l : Entries) (j : String)
    → IsDescending l
    → find (without m l) j ≡ (if str_eq m j then none else find l j)
unfolding find without
find-without m [] j d = ground arith
find-without m ((i, t) ∷ l) j d = ground (
  arith,
  find-without m l j d.1,
  λ (e : str_eq i m ≡ true). find-Absent m l (Absent-tail i m t l e d.0),
  eq_iff m j,
  eq_iff i j,
  eq_iff i m,
)

pub find-fresh :
    (now window : ℕ) (l : Entries) (j : String)
    → IsDescending l
    → find (fresh now window l) j ≡ keep now window (find l j)
unfolding find fresh
find-fresh now window [] j d = refl
find-fresh now window ((m, s) ∷ l) j d = ground (
  arith,
  find-fresh now window l j d.1,
  λ (e : str_eq m j ≡ true). find-Absent j l (Absent-tail m j s l e d.0),
)

-- Each entry is what its member is found with.
pub find_self : (l : Entries) → IsDescending l → All (λ (e : Entry). find l e.0 ≡ some e.1) l
unfolding find
find_self [] d = tt
find_self ((m, s) ∷ l) d = (
  rw (eq_refl m),
  All-imp l (λ e p. ground (arith, p.0.1, p.1, eq_iff m e.0, eq_iff e.0 m))
      (All-both (Below m s) (λ e. find l e.0 ≡ some e.1) l d.0 (find_self l d.1)),
)

pub find-Below :
    (j : String) (t s : ℕ) (m : String) (l : Entries)
    → find l j ≡ some t
    → All (Below m s) l
    → t ≤ s
unfolding find
find-Below j t s m [] h b = cc
find-Below j t s m ((i, u) ∷ l) h b = ground (arith, find-Below j t s m l, b.0.0, b.1)

pub take_complete :
    (n : ℕ) (l : Entries) (j : String) (s : ℕ)
    → IsDescending l
    → find l j ≡ some s
    → Absent j (take n l)
    → (length (take n l) ≡ n) × All (λ (e : Entry). s ≤ e.1) (take n l)
unfolding find
take_complete zero l j s d h a = (refl, tt)
take_complete (suc n) [] j s d h a = cc
take_complete (suc n) ((m, t) ∷ l) j s d h a =
    let h' : find l j ≡ some s = ground (arith, a.0) in
    let (full, above) = take_complete n l j s d.1 h' a.1 in
    (ap suc full, (find-Below j s t m l h' d.0, above))

pub length-take : (n : ℕ) (l : Entries) → length (take n l) ≤ n
length-take zero l = omega arith
length-take (suc n) [] = omega arith
length-take (suc n) (e ∷ l) = omega (arith, length-take n l)
