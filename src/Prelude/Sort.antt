-- ===== src/Prelude/Sort.antt =====
-- `Array.prototype.sort`: the stable sort by a comparator that answers with a sign.
use Prim.Native.Nat.{Ordering}
use mathlib.Core.Path.{◌≡◌}
use mathlib.Core.Bool.{false}
use mathlib.Core.Logic.{inl, inr}
use mathlib.Core.List.{List, [], ◌∷◌, Perm}
use mathlib.Core.List.Perm
use native.Mathlib.Omega.{arith}
use morpheus_proxy.Prelude.Tests.{if◌then◌else◌, Bool-cases}
use morpheus_proxy.Prelude.Lists.{All}
use morpheus_proxy.Prelude.Order.{flip, is_gt, Composes}

module _ {ℓ} {A : Type ℓ} (cmp : A → A → Ordering) where
  -- `x` stands before the elements that it is not greater than.
  unfoldable pub insert_sorted : A → List A → List A
  insert_sorted x [] = x ∷ []
  insert_sorted x (y ∷ ys) = if is_gt (cmp x y) then y ∷ insert_sorted x ys else x ∷ y ∷ ys

  unfoldable pub sort : List A → List A
  unfolding insert_sorted
  sort [] = []
  sort (x ∷ xs) = insert_sorted x (sort xs)

  abbrev pub NotAfter : A → A → Type 0
  NotAfter x y = is_gt (cmp x y) ≡ false

  -- No element comes after one that it should precede.
  abbrev pub IsSorted : List A → Type ℓ
  IsSorted [] = Unit
  IsSorted (x ∷ xs) = All (NotAfter x) xs × IsSorted xs

  insert_sorted-perm : (x : A) (xs : List A) → Perm (insert_sorted x xs) (x ∷ xs)
  unfolding insert_sorted
  insert_sorted-perm x [] = Perm.refl (x ∷ [])
  insert_sorted-perm x (y ∷ ys) = elim (Bool-cases (is_gt (cmp x y))) [
    | inl e ↦ rw e (Perm.trans (Perm.cons y (insert_sorted-perm x ys)) (Perm.swap x y ys))
    | inr e ↦ rw e (Perm.refl (x ∷ y ∷ ys))
  ]

  pub sort-perm : (xs : List A) → Perm (sort xs) xs
  unfolding sort
  sort-perm [] = Perm.refl []
  sort-perm (x ∷ xs) = Perm.trans (insert_sorted-perm x (sort xs)) (Perm.cons x (sort-perm xs))

  pub insert_sorted-All {κ} :
      (P : A → Type κ) (x : A) (xs : List A) → P x → All P xs → All P (insert_sorted x xs)
  unfolding insert_sorted
  insert_sorted-All P x [] p h = (p, tt)
  insert_sorted-All P x (y ∷ ys) p h = elim (Bool-cases (is_gt (cmp x y))) [
    | inl e ↦ rw e (h.0, insert_sorted-All P x ys p h.1)
    | inr e ↦ rw e (p, h)
  ]

  pub sort-All {κ} : (P : A → Type κ) (xs : List A) → All P xs → All P (sort xs)
  unfolding sort
  sort-All P [] h = tt
  sort-All P (x ∷ xs) h = insert_sorted-All P x (sort xs) h.0 (sort-All P xs h.1)

module _ {ℓ} {A : Type ℓ} (cmp : A → A → Ordering) (flips : (a b : A) → cmp b a ≡ flip (cmp a b))
    (composes : (a b c : A) → Composes (cmp a b) (cmp b c) (cmp a c)) where
  NotAfter-trans : (a b c : A) → NotAfter cmp a b → NotAfter cmp b c → NotAfter cmp a c
  NotAfter-trans a b c h k = ground (arith, composes a b c)

  NotAfter-All :
      (a b : A) (xs : List A) → NotAfter cmp a b → All (NotAfter cmp b) xs → All (NotAfter cmp a) xs
  NotAfter-All a b [] h k = tt
  NotAfter-All a b (x ∷ xs) h k = (NotAfter-trans a b x h k.0, NotAfter-All a b xs h k.1)

  insert_sorted-IsSorted :
      (x : A) (xs : List A) → IsSorted cmp xs → IsSorted cmp (insert_sorted cmp x xs)
  unfolding insert_sorted
  insert_sorted-IsSorted x [] s = (tt, tt)
  insert_sorted-IsSorted x (y ∷ ys) s = elim (Bool-cases (is_gt (cmp x y))) [
    | inl e ↦ rw e (
      insert_sorted-All cmp (NotAfter cmp y) x ys (ground (arith, flips x y)) s.0,
      insert_sorted-IsSorted x ys s.1,
    )
    | inr e ↦ rw e ((e, NotAfter-All x y ys e s.0), s)
  ]

  pub sort-IsSorted : (xs : List A) → IsSorted cmp (sort cmp xs)
  unfolding sort
  sort-IsSorted [] = tt
  sort-IsSorted (x ∷ xs) = insert_sorted-IsSorted x (sort cmp xs) (sort-IsSorted xs)
