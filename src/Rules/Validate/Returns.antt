-- ===== src/Rules/Validate/Returns.antt =====
-- Rules for what the parsers return, one for each construct they are written with.
use morpheus_proxy.Prelude.{
  ◌∷◌, [], List, All, String, ℕ, ◌≡◌, refl, subst, Bool, true, false, Option, none, some, Text, ok,
  err, Bool-cases, Option-cases, inl, inr, List, String, All,
}
use morpheus_proxy.Json.{Json, Fields}
use morpheus_proxy.Rules.Matcher.{RegExp}
use morpheus_proxy.Rules.Validate.Issues.{
  RuleValidationIssue, Parsed, ◌>>=◌, require, as_natural, integer_in, is_within, optional,
  valid_regex, script_source, is_filled, switch, equals,
}
use morpheus_proxy.Rules.Validate.Valid.{Present}

-- What a returned value satisfies; of an issue nothing is said.
pub data Returns {A : Type 0} (P : A → Type 0) : Parsed A → Type 0 where
  returns : {a : A} → P a → Returns P (ok a)
  fails : {e : RuleValidationIssue} → Returns P (err e)

pub bind-Returns :
    {A B : Type 0} {P : A → Type 0} {Q : B → Type 0} {m : Parsed A} {f : A → Parsed B}
    → Returns P m
    → ((a : A) → P a → Returns Q (f a))
    → Returns Q (m >>= f)
unfolding ◌>>=◌
bind-Returns (returns p) k = k _ p
bind-Returns fails k = fails

-- Each case of a `switch` counts, and the default.
pub switch_lem :
    {A : Type 0} (Q : A → Type 0) (value : Option Text) (cases : List (String × A)) (other : A)
    → All (λ c. Q c.1) cases
    → Q other
    → Q (switch value cases other)
unfolding switch
switch_lem Q value [] other h k = k
switch_lem Q value ((key, a) ∷ cases) other h k = elim (Bool-cases (equals value key)) [
  | inl e ↦ rw e h.0
  | inr e ↦ rw e (switch_lem Q value cases other h.1 k)
]

pub switch-Returns :
    {A : Type 0} {P : A → Type 0} (value : Option Text) (cases : List (String × Parsed A))
    (other : Parsed A)
    → All (λ c. Returns P c.1) cases
    → Returns P other
    → Returns P (switch value cases other)
switch-Returns {P} value cases other h k = switch_lem (Returns P) value cases other h k

pub Returns-ok : {A : Type 0} {P : A → Type 0} {r : Parsed A} {a : A} → Returns P r → r ≡ ok a → P a
Returns-ok {P} (returns p) e = subst P (cc) p
Returns-ok fails e = absurd (cc)

-- Of a value nothing is said.
pub anything : {A : Type 0} (r : Parsed A) → Returns (λ a. Unit {0}) r
anything (ok a) = returns tt
anything (err e) = fails

pub require-Returns : (b : Bool) (e : RuleValidationIssue) → Returns (λ u. b ≡ true) (require b e)
require-Returns true e = returns refl
require-Returns false e = fails

pub integer_in-Returns :
    (lo : ℕ) (hi : Option ℕ) (value : Option Json) (e : RuleValidationIssue)
    → Returns (λ n. is_within lo hi n ≡ true) (integer_in lo hi value e)
unfolding integer_in
integer_in-Returns lo hi value e = elim (Option-cases (as_natural value)) [
  | inl h ↦ rw h fails
  | inr (n, h) ↦ elim (Bool-cases (is_within lo hi n)) [
    | inl k ↦ rw (h, k) (returns k)
    | inr k ↦ rw (h, k) fails
  ]
]

pub optional-Returns :
    {A : Type 0} {P : A → Type 0} (value : Option Json) (check : Option Json → Parsed A)
    → ((v : Option Json) → Returns P (check v))
    → Returns (Present P) (optional value check)
unfolding optional
optional-Returns none check h = returns tt
optional-Returns (some v) check h = bind-Returns (h (some v)) (λ a p. returns p)

pub valid_regex-Returns :
    (re : RegExp) (pattern' flags path : Text)
    → Returns (λ u. re.syntax_error pattern' flags ≡ none) (valid_regex re pattern' flags path)
unfolding valid_regex
valid_regex-Returns re pattern' flags path = elim (Option-cases (re.syntax_error pattern' flags)) [
  | inl h ↦ rw (valid_regex, h) (returns refl)
  | inr h ↦ rw (valid_regex, h.1) fails
]

pub script_source-Returns :
    (fs : Fields) (path : Text)
    → Returns (λ source. is_filled source ≡ true) (script_source fs path)
unfolding script_source
script_source-Returns fs path = bind-Returns (anything _) (λ u p.
    bind-Returns (anything _) (λ source q.
      bind-Returns (require-Returns (is_filled source) _) (λ v filled. returns filled)))

pub weaken :
    {A : Type 0} {P Q : A → Type 0} {r : Parsed A}
    → ((a : A) → P a → Q a)
    → Returns P r
    → Returns Q r
weaken f (returns p) = returns (f _ p)
weaken f fails = fails
