-- ===== src/Prelude/Strings.antt =====
-- JavaScript strings: sequences of UTF-16 code units. `===` and `<` of strings are those of the
-- code units. `js` gives the string of a literal.
use Prim.Native.Nat.{ℕ, zero, suc, ◌+◌, ◌-◌, ◌/◌, ◌%◌, compare, Ordering}
use Prim.Native.Char.{code}
use Prim.Native.String.{String}
use mathlib.Core.Path.{◌≡◌, refl, ap₂}
use mathlib.Core.Logic.{◌↔◌}
use mathlib.Core.Bool.{Bool, true, false, ◌&&◌}
use mathlib.Core.List.{List, [], ◌∷◌, ◌++◌, map}
use native.Mathlib.Omega.{arith}
use morpheus_proxy.Prelude.Tests.{ltb, leb, ◌==◌, if◌then◌else◌}
use morpheus_proxy.Prelude.Order.{
  or_else, flip, is_eq, is_lt, Composes, Composes-or_else, compare-Composes, compare-flip,
}

abbrev pub Text : Type 0
Text = List ℕ

-- The code units of a code point: one, or a surrogate pair.
utf16 : ℕ → Text
utf16 c =
    if ltb c 0x10000
    then c ∷ []
    else (0xD800 + (c - 0x10000) / 0x400) ∷ (0xDC00 + (c - 0x10000) % 0x400) ∷ []

unfoldable pub js : String → Text
unfolding utf16
js String.[] = []
js (String.◌∷◌ c s) = utf16 (code c) ++ js s

unfoldable pub compare_text : Text → Text → Ordering
compare_text [] [] = Ordering.eq
compare_text [] (b ∷ t) = Ordering.lt
compare_text (a ∷ s) [] = Ordering.gt
compare_text (a ∷ s) (b ∷ t) = or_else (compare a b) (compare_text s t)

-- `s === t`
unfoldable pub text_eq : Text → Text → Bool
unfolding compare_text
text_eq s t = is_eq (compare_text s t)

-- `s < t`
unfoldable pub text_lt : Text → Text → Bool
unfolding compare_text
text_lt s t = is_lt (compare_text s t)

-- `s.startsWith(p)`
unfoldable pub starts_with : Text → Text → Bool
starts_with s [] = true
starts_with [] (b ∷ p) = false
starts_with (a ∷ s) (b ∷ p) = a == b && starts_with s p

lower_unit : ℕ → ℕ
lower_unit c = if leb b'A' c && leb c b'Z' then c + 32 else c

-- `s.toLowerCase()`, of ASCII text
unfoldable pub to_lower_case : Text → Text
unfolding lower_unit
to_lower_case s = map lower_unit s

-- The digits of `n` before `acc`; `fuel` bounds their number.
unfoldable pub print_digits : ℕ → ℕ → Text → Text
print_digits zero n acc = acc
print_digits (suc fuel) n acc =
    let more = print_digits fuel (n / 10) ((b'0' + n % 10) ∷ acc) in
    if ltb n 10 then (b'0' + n) ∷ acc else more

-- `String(n)`: `n + 1` digits are enough.
unfoldable pub to_string : ℕ → Text
unfolding print_digits
to_string n = print_digits (n + 1) n []

compare_text-eq : (s t : Text) → compare_text s t ≡ Ordering.eq → s ≡ t
unfolding compare_text
compare_text-eq [] [] h = refl
compare_text-eq [] (b ∷ t) h = ground arith
compare_text-eq (a ∷ s) [] h = ground arith
compare_text-eq (a ∷ s) (b ∷ t) h = ground (arith, compare_text-eq s t)

pub compare_text_refl : (s : Text) → compare_text s s ≡ Ordering.eq
unfolding compare_text
compare_text_refl [] = refl
compare_text_refl (a ∷ s) = ground (arith, compare_text_refl s)

pub compare_text-Composes :
    (s t u : Text) → Composes (compare_text s t) (compare_text t u) (compare_text s u)
unfolding compare_text
compare_text-Composes [] [] [] = refl
compare_text-Composes [] [] (c ∷ u) = refl
compare_text-Composes [] (b ∷ t) [] = tt
compare_text-Composes [] (b ∷ t) (c ∷ u) = ground arith
compare_text-Composes (a ∷ s) [] [] = refl
compare_text-Composes (a ∷ s) [] (c ∷ u) = tt
compare_text-Composes (a ∷ s) (b ∷ t) [] = ground arith
compare_text-Composes (a ∷ s) (b ∷ t) (c ∷ u) =
    Composes-or_else _ _ _ _ _ _ (compare-Composes a b c) (compare_text-Composes s t u)

pub compare_text-flip : (s t : Text) → compare_text t s ≡ flip (compare_text s t)
unfolding compare_text
compare_text-flip [] [] = refl
compare_text-flip [] (b ∷ t) = refl
compare_text-flip (a ∷ s) [] = refl
compare_text-flip (a ∷ s) (b ∷ t) = ground (arith, compare_text-flip s t, compare-flip a b)

pub text_eq_iff : (s t : Text) → (text_eq s t ≡ true) ↔ (s ≡ t)
unfolding text_eq
text_eq_iff s t =
    (λ h. compare_text-eq s t (ground arith), λ e. rw e (rw (compare_text_refl t, text_eq)))

pub text_eq_refl : (s : Text) → text_eq s s ≡ true
text_eq_refl s = (text_eq_iff s s).1 refl

pub to_lower_case_idem : (s : Text) → to_lower_case (to_lower_case s) ≡ to_lower_case s
unfolding to_lower_case
to_lower_case_idem [] = refl
to_lower_case_idem (c ∷ s) = ap₂ ◌∷◌ (lower_unit_idem c) (to_lower_case_idem s)
  where
    lower_unit_idem : (c : ℕ) → lower_unit (lower_unit c) ≡ lower_unit c
    lower_unit_idem c = ground arith
