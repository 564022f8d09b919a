-- ===== src/Notify/Bytes.antt =====
-- The order of strings by their bytes, as one that the bells may be compared in
-- (src/redis_store.rs).
use Prim.Native.Nat.{Ordering, compare as compare_ℕ}
use Prim.Native.Char.{Char, code}
use Prim.Native.String.compare
use Prim.Native.String.{[], ◌∷◌, compare, then as lexicographic}
use text.Mathlib.TextEquality.{Char-path}
use divine_push_service.Prelude.{
  ◌≡◌, ◌⊎◌, String, Bool, true, false, arith, inl, inr, refl, ltb, ◌==◌, if◌then◌else◌,
}
use divine_push_service.Notify.{StringOrder}
use divine_push_service.Notify.Order.{IsOrder}

abbrev is_greater : Ordering → Bool
is_greater Ordering.gt = true
is_greater Ordering.lt = false
is_greater Ordering.eq = false

abbrev is_eq : Ordering → Bool
is_eq Ordering.eq = true
is_eq Ordering.lt = false
is_eq Ordering.gt = false

unfoldable pub bytes_above : StringOrder
bytes_above a b = is_greater (compare a b)

above_nil : (s : String) → bytes_above [] s ≡ false
unfolding bytes_above
above_nil [] = refl
above_nil (d ∷ t) = rw (compare.nil-cons d t)

above_cons-nil : (c : Char) (s : String) → bytes_above (c ∷ s) [] ≡ true
unfolding bytes_above
above_cons-nil c s = rw (compare.cons-nil c s)

then_greater :
    (o r : Ordering)
    → is_greater (lexicographic o r) ≡ (if is_eq o then is_greater r else is_greater o)
then_greater Ordering.lt r = refl
then_greater Ordering.eq r = refl
then_greater Ordering.gt r = refl

above_cons :
    (c d : Char) (s t : String)
    → bytes_above (c ∷ s) (d ∷ t)
      ≡ (if code c == code d then bytes_above s t else ltb (code d) (code c))
unfolding bytes_above
above_cons c d s t =
    ground
      (arith, compare.cons-cons c d s t, then_greater (compare_ℕ (code c) (code d)) (compare s t))

pub bytes_asym : (a b : String) → bytes_above a b ≡ true → bytes_above b a ≡ false
bytes_asym [] b h = ground (arith, above_nil b)
bytes_asym (c ∷ s) [] h = ground (arith, above_nil (c ∷ s))
bytes_asym (c ∷ s) (d ∷ t) h =
    ground (arith, bytes_asym s t, above_cons c d s t, above_cons d c t s)

pub bytes_total : (a b : String) → bytes_above a b ≡ false → bytes_above b a ≡ false → a ≡ b
bytes_total [] [] h h' = refl
bytes_total [] (d ∷ t) h h' = ground (arith, above_cons-nil d t)
bytes_total (c ∷ s) [] h h' = ground (arith, above_cons-nil c s)
bytes_total (c ∷ s) (d ∷ t) h h' =
    let e : code c ≡ code d = ground (arith, above_cons c d s t, above_cons d c t s) in
    let e' : s ≡ t =
      bytes_total s t (ground (arith, e, above_cons c d s t))
        (ground (arith, e, above_cons d c t s)) in
    λ i. Char-path c d e i ∷ e' i

pub bytes_between :
    (a b c : String) → bytes_above a c ≡ true → (bytes_above a b ≡ true) ⊎ (bytes_above b c ≡ true)
bytes_between [] b c h = ground (arith, above_nil c)
bytes_between (x ∷ a) [] c h = inl (above_cons-nil x a)
bytes_between (x ∷ a) (y ∷ b) [] h = inr (above_cons-nil y b)
bytes_between (x ∷ a) (y ∷ b) (z ∷ c) h =
    ground (arith, bytes_between a b c, above_cons x y a b, above_cons x z a c, above_cons y z b c)

abbrev pub bytes_order : IsOrder bytes_above
bytes_order = record { asym = bytes_asym; total = bytes_total; between = bytes_between }
