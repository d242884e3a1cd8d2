-- ===== src/Prelude/Assoc.antt =====
-- A `Map` or a plain object: its entries in insertion order. A write to a key that is there keeps
-- the key's place; a new key goes to the end.
use mathlib.Core.Path.{◌≡◌, refl, sym, subst}
use mathlib.Core.Logic.{inl, inr}
use mathlib.Core.Option.{Option, none, some}
use mathlib.Core.List.{List, [], ◌∷◌, ◌++◌}
use native.Mathlib.Omega.{arith}
use morpheus_proxy.Prelude.Tests.{if◌then◌else◌, Bool-cases}
use morpheus_proxy.Prelude.Strings.{Text, text_eq, text_eq_iff, text_eq_refl}

module _ {ℓ} {V : Type ℓ} where
  unfoldable pub lookup : Text → List (Text × V) → Option V
  lookup k [] = none
  lookup k ((j, v) ∷ m) = if text_eq j k then some v else lookup k m

  unfoldable pub insert : Text → V → List (Text × V) → List (Text × V)
  insert k v [] = (k, v) ∷ []
  insert k v ((j, w) ∷ m) = if text_eq j k then (j, v) ∷ m else (j, w) ∷ insert k v m

  unfoldable pub remove : Text → List (Text × V) → List (Text × V)
  remove k [] = []
  remove k ((j, w) ∷ m) = if text_eq j k then remove k m else (j, w) ∷ remove k m

  abbrev pub keys : List (Text × V) → List Text
  keys [] = []
  keys ((k, v) ∷ m) = k ∷ keys m

  abbrev pub values : List (Text × V) → List V
  values [] = []
  values ((k, v) ∷ m) = v ∷ values m

  -- Each key stands once.
  abbrev pub Distinct : List (Text × V) → Type ℓ
  Distinct [] = Unit
  Distinct ((k, v) ∷ m) = (lookup k m ≡ none) × Distinct m

  -- A property of every entry.
  abbrev pub Entries {κ} : (Text → V → Type κ) → List (Text × V) → Type κ
  Entries P [] = Unit
  Entries P ((k, v) ∷ m) = P k v × Entries P m

  pub lookup-insert :
      (k j : Text) (v : V) (m : List (Text × V))
      → lookup j (insert k v m) ≡ (if text_eq k j then some v else lookup j m)
  unfolding lookup insert
  lookup-insert k j v [] = refl
  lookup-insert k j v ((i, w) ∷ m) =
      ground (arith, text_eq_iff k j, text_eq_iff i k, text_eq_iff i j, lookup-insert k j v m)

  pub lookup-remove :
      (k j : Text) (m : List (Text × V))
      → lookup j (remove k m) ≡ (if text_eq k j then none else lookup j m)
  unfolding lookup remove
  lookup-remove k j [] = ground arith
  lookup-remove k j ((i, w) ∷ m) =
      ground (arith, text_eq_iff k j, text_eq_iff i k, text_eq_iff i j, lookup-remove k j m)

  pub insert-Distinct :
      (k : Text) (v : V) (m : List (Text × V)) → Distinct m → Distinct (insert k v m)
  unfolding insert lookup
  insert-Distinct k v [] h = (refl, tt)
  insert-Distinct k v ((i, w) ∷ m) h =
      ground
        (arith, insert-Distinct k v m h.1, lookup-insert k i v m, text_eq_iff k i, text_eq_iff i k)

  pub remove-Distinct : (k : Text) (m : List (Text × V)) → Distinct m → Distinct (remove k m)
  unfolding remove
  remove-Distinct k [] h = tt
  remove-Distinct k ((i, w) ∷ m) h =
      ground (arith, remove-Distinct k m h.1, lookup-remove k i m, text_eq_iff k i)

  pub insert-Entries {κ} :
      (P : Text → V → Type κ) (k : Text) (v : V) (m : List (Text × V))
      → P k v
      → Entries P m
      → Entries P (insert k v m)
  unfolding insert
  insert-Entries P k v [] p h = (p, tt)
  insert-Entries P k v ((i, w) ∷ m) p h = elim (Bool-cases (text_eq i k)) [
    | inl e ↦ rw e (subst (λ (j : Text). P j v) (sym ((text_eq_iff i k).0 e)) p, h.1)
    | inr e ↦ rw e (h.0, insert-Entries P k v m p h.1)
  ]

  pub remove-Entries {κ} :
      (P : Text → V → Type κ) (k : Text) (m : List (Text × V))
      → Entries P m
      → Entries P (remove k m)
  unfolding remove
  remove-Entries P k [] h = tt
  remove-Entries P k ((i, w) ∷ m) h = elim (Bool-cases (text_eq i k)) [
    | inl e ↦ rw e (remove-Entries P k m h.1)
    | inr e ↦ rw e (h.0, remove-Entries P k m h.1)
  ]

  pub lookup-Entries {κ} :
      (P : Text → V → Type κ) (k : Text) (v : V) (m : List (Text × V))
      → Entries P m
      → lookup k m ≡ some v
      → P k v
  unfolding lookup
  lookup-Entries P k v [] h e = absurd (ground arith)
  lookup-Entries P k v ((i, w) ∷ m) h e = elim (Bool-cases (text_eq i k)) [
    | inl hit ↦
        subst (λ (j : Text). P j v) ((text_eq_iff i k).0 hit)
          (subst (P i) (let e' : some w ≡ some v = ground arith in ground arith) h.0)
    | inr miss ↦ lookup-Entries P k v m h.1 (ground arith)
  ]

module _ {ℓ} {V : Type ℓ} where
  pub remove_absent : (k : Text) (m : List (Text × V)) → lookup k m ≡ none → remove k m ≡ m
  unfolding lookup remove
  remove_absent k [] h = refl
  remove_absent k ((j, v) ∷ m) h = ground (arith, remove_absent k m)

  pub insert_absent :
      (k : Text) (v : V) (m : List (Text × V)) → lookup k m ≡ none → insert k v m ≡ m ++ (k, v) ∷ []
  unfolding lookup insert
  insert_absent k v [] h = refl
  insert_absent k v ((j, w) ∷ m) h = ground (arith, insert_absent k v m)

  pub remove_first : (k : Text) (v : V) (m : List (Text × V)) → remove k ((k, v) ∷ m) ≡ remove k m
  unfolding remove
  remove_first k v m = rw (text_eq_refl k)

  pub append-Distinct :
      (k : Text) (v : V) (m : List (Text × V))
      → lookup k m ≡ none
      → Distinct m
      → Distinct (m ++ (k, v) ∷ [])
  append-Distinct k v m h d =
      subst (λ (l : List (Text × V)). Distinct l) (insert_absent k v m h) (insert-Distinct k v m d)
