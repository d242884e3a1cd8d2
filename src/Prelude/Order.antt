-- ===== src/Prelude/Order.antt =====
-- Integers, compared; a three-way comparison is an `Ordering`, as the sign of a JavaScript
-- comparator.
use Prim.Native.Nat.{ℕ, compare, Ordering}
use mathlib.Core.Path.{◌≡◌}
use mathlib.Core.Bool.{Bool, true, false}
use native.Mathlib.Omega.{arith}

-- `negsuc n` is -(n + 1).
pub data ℤ : Type 0 where
  pos : ℕ → ℤ
  negsuc : ℕ → ℤ

abbrev pub compare_ℤ : ℤ → ℤ → Ordering
compare_ℤ (pos a) (pos b) = compare a b
compare_ℤ (pos a) (negsuc b) = Ordering.gt
compare_ℤ (negsuc a) (pos b) = Ordering.lt
compare_ℤ (negsuc a) (negsuc b) = compare b a

-- The first comparison decides unless it finds the two equal.
abbrev pub or_else : Ordering → Ordering → Ordering
or_else Ordering.lt o = Ordering.lt
or_else Ordering.eq o = o
or_else Ordering.gt o = Ordering.gt

abbrev pub is_gt : Ordering → Bool
is_gt Ordering.gt = true
is_gt Ordering.eq = false
is_gt Ordering.lt = false

abbrev pub is_lt : Ordering → Bool
is_lt Ordering.lt = true
is_lt Ordering.eq = false
is_lt Ordering.gt = false

abbrev pub is_eq : Ordering → Bool
is_eq Ordering.eq = true
is_eq Ordering.lt = false
is_eq Ordering.gt = false

abbrev pub flip : Ordering → Ordering
flip Ordering.lt = Ordering.gt
flip Ordering.eq = Ordering.eq
flip Ordering.gt = Ordering.lt

-- What the comparisons of a with b and of b with c say of the comparison of a with c.
abbrev pub Composes : Ordering → Ordering → Ordering → Type 0
Composes Ordering.eq o r = r ≡ o
Composes o Ordering.eq r = r ≡ o
Composes Ordering.lt Ordering.lt r = r ≡ Ordering.lt
Composes Ordering.gt Ordering.gt r = r ≡ Ordering.gt
Composes Ordering.lt Ordering.gt r = Unit
Composes Ordering.gt Ordering.lt r = Unit

pub Composes-or_else :
    (x y z x' y' z' : Ordering)
    → Composes x y z
    → Composes x' y' z'
    → Composes (or_else x x') (or_else y y') (or_else z z')
Composes-or_else Ordering.lt Ordering.lt z x' y' z' h h' = ground arith
Composes-or_else Ordering.lt Ordering.eq z x' y' z' h h' = ground arith
Composes-or_else Ordering.lt Ordering.gt z x' y' z' h h' = tt
Composes-or_else Ordering.eq Ordering.lt z x' y' z' h h' = ground arith
Composes-or_else Ordering.eq Ordering.eq z x' y' z' h h' = rw h h'
Composes-or_else Ordering.eq Ordering.gt z x' y' z' h h' = ground arith
Composes-or_else Ordering.gt Ordering.lt z x' y' z' h h' = tt
Composes-or_else Ordering.gt Ordering.eq z x' y' z' h h' = ground arith
Composes-or_else Ordering.gt Ordering.gt z x' y' z' h h' = ground arith

pub compare-Composes : (a b c : ℕ) → Composes (compare a b) (compare b c) (compare a c)
compare-Composes a b c = ground arith

pub compare-flip : (a b : ℕ) → compare b a ≡ flip (compare a b)
compare-flip a b = ground arith

pub compare_ℤ-Composes : (a b c : ℤ) → Composes (compare_ℤ a b) (compare_ℤ b c) (compare_ℤ a c)
compare_ℤ-Composes a b c = ground arith

pub compare_ℤ-flip : (a b : ℤ) → compare_ℤ b a ≡ flip (compare_ℤ a b)
compare_ℤ-flip a b = ground arith

pub compare_ℤ-eq : (a b : ℤ) → compare_ℤ a b ≡ Ordering.eq → a ≡ b
compare_ℤ-eq a b h = ground arith

pub compare_ℤ-Composes_reversed :
    (a b c : ℤ) → Composes (compare_ℤ b a) (compare_ℤ c b) (compare_ℤ c a)
compare_ℤ-Composes_reversed a b c = ground arith
