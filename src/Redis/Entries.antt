-- ===== src/Redis/Entries.antt =====
-- A sorted set in memory: the entries by falling score, each member once.
pub mod Order
pub mod Counts
pub mod Due
use divine_push_service.Prelude.{
  ℕ, zero, suc, ◌+◌, ◌≤◌, String, ◌≡◌, refl, Bool, true, false, Option, none, some, List, [], ◌∷◌,
  arith, ltb, leb, str_eq, eq_iff, eq_refl, if◌then◌else◌, All, All-imp, length,
}
use divine_push_service.Redis.{IsDescending, keep, counted, present}

abbrev pub Entry : Type 0
Entry = String × ℕ

abbrev pub Entries : Type 0
Entries = List Entry

abbrev pub Absent : String → Entries → Type 0
Absent m = All (λ (e : Entry). str_eq e.0 m ≡ false)

unfoldable pub find : Entries → String → Option ℕ
find [] j = none
find ((m, s) ∷ l) j = if str_eq m j then some s else find l j

unfoldable pub without : String → Entries → Entries
without m [] = []
without m ((j, s) ∷ l) = if str_eq j m then l else (j, s) ∷ without m l

unfoldable pub insert : String → ℕ → Entries → Entries
insert m s [] = (m, s) ∷ []
insert m s ((j, t) ∷ l) = if leb t s then (m, s) ∷ (j, t) ∷ l else (j, t) ∷ insert m s l

-- The entries after `now - window`.
unfoldable pub fresh : ℕ → ℕ → Entries → Entries
fresh now window [] = []
fresh now window ((m, s) ∷ l) =
    let rest = fresh now window l in if ltb now (s + window) then (m, s) ∷ rest else rest

unfoldable pub count : ℕ → ℕ → Entries → ℕ
count now window [] = 0
count now window ((m, s) ∷ l) = counted now window (some s) + count now window l
