-- ===== src/Redis/Members.antt =====
-- What the service relies on of the unordered sets of Redis, and one in memory.
use divine_push_service.Prelude.{
  String, Bool, true, false, ◌||◌, ◌≡◌, refl, List, [], ◌∷◌, arith, str_eq, eq_iff, if◌then◌else◌,
}

abbrev pub contains : List String → String → Bool
contains [] j = false
contains (m ∷ l) j = str_eq m j || contains l j

pub record MemberSets : Type 1 where
  pub Members : Type 0
  -- the value of an absent key
  pub nobody : Members
  -- SMEMBERS, in the order of the server
  pub smembers : Members → List String
  pub sadd : String → Members → Members
  pub srem : String → Members → Members
  pub smembers-nobody : smembers nobody ≡ []
  pub smembers-sadd :
      (m : String) (s : Members) (j : String)
      → contains (smembers (sadd m s)) j ≡ (if str_eq m j then true else contains (smembers s) j)
  pub smembers-srem :
      (m : String) (s : Members) (j : String)
      → contains (smembers (srem m s)) j ≡ (if str_eq m j then false else contains (smembers s) j)

unfoldable pub insert : String → List String → List String
insert m l = if contains l m then l else m ∷ l

unfoldable pub without : String → List String → List String
without m [] = []
without m (j ∷ l) = let rest = without m l in if str_eq m j then rest else j ∷ rest

pub contains-insert :
    (m : String) (l : List String) (j : String)
    → contains (insert m l) j ≡ (if str_eq m j then true else contains l j)
unfolding insert
contains-insert m l j = ground (arith, eq_iff m j)

pub contains-without :
    (m : String) (l : List String) (j : String)
    → contains (without m l) j ≡ (if str_eq m j then false else contains l j)
unfolding without
contains-without m [] j = ground arith
contains-without m (i ∷ l) j =
    ground (arith, eq_iff m i, eq_iff m j, eq_iff i j, contains-without m l j)

abbrev pub listed : MemberSets
listed = record {
  Members = List String;
  nobody = [];
  smembers = λ l. l;
  sadd = insert;
  srem = without;
  smembers-nobody = refl;
  smembers-sadd = contains-insert;
  smembers-srem = contains-without;
}
