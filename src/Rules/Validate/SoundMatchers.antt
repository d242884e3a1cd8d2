-- ===== src/Rules/Validate/SoundMatchers.antt =====
-- Matchers without findings are well formed.
use morpheus_proxy.Prelude.{
  ℕ, ◌+◌, ◌<◌, ◌≡◌, refl, Option, none, some, List, [], ◌∷◌, ◌++◌, Text, js, length, ltb, text_eq,
  Bool-cases, inl, inr, arith, lookup, sym, false, if◌then◌else◌,
}
use morpheus_proxy.Json.{Json, Items, Fields, null, bool, num, str, arr, obj, nil, cons, end}
use morpheus_proxy.Rules.Types.{Matcher, Conditions, Protocol, Stage, protocol_eq}
use morpheus_proxy.Rules.Matcher.{RegExp, or_empty}
use morpheus_proxy.Rules.Validate.Issues.{Parsed}
use morpheus_proxy.Rules.Validate.Matchers.{
  Finding, Checked, from_parsed, validate_field_for_stage, tabled_field, parse_regex, parse_script,
  both_parsed, negated, combined, regex_at, typed_matcher, parse_matcher, parse_conditions,
  parse_array, parse_items, parse_condition, field_rules, is_trailer, mismatch,
}
use morpheus_proxy.Rules.Validate.Returns.{
  Returns, returns, fails, bind-Returns, anything, require-Returns, valid_regex-Returns,
  script_source-Returns, switch_lem,
}
use morpheus_proxy.Rules.Validate.Sound.{optional-IsPositive}
use morpheus_proxy.Prelude.{any, starts_with, true}
use morpheus_proxy.Rules.Types.{http, grpc}
use morpheus_proxy.Rules.Validate.Valid.{
  IsMatchable, field_names, ValidMatcher, ValidConditions, AllValid,
}

-- Where nothing is found there is a value, and it satisfies `P`.
abbrev pub SoundAt : {A : Type 0} → (A → Type 0) → List Finding → Option A → Type 0
SoundAt P [] none = ⊥
SoundAt P [] (some a) = P a
SoundAt P (e ∷ es) o = Unit

abbrev pub Sound : {A : Type 0} → (A → Type 0) → Checked A → Type 0
Sound P c = SoundAt P c.0 c.1

pub from_parsed-Sound :
    {A : Type 0} {P : A → Type 0} {r : Parsed A} → Returns P r → Sound P (from_parsed r)
from_parsed-Sound (returns p) = p
from_parsed-Sound fails = tt

tabled_field-IsMatchable :
    (name path : Text) (stage : Stage) (protocol : Protocol)
    → tabled_field name path stage protocol (lookup name (field_rules stage)) ≡ []
    → any (λ known. text_eq known name) (field_names stage protocol) ≡ true
unfolding tabled_field field_rules field_names lookup
tabled_field-IsMatchable name path Stage.request http h = ground arith
tabled_field-IsMatchable name path Stage.request grpc h = ground arith
tabled_field-IsMatchable name path Stage.response http h = ground arith
tabled_field-IsMatchable name path Stage.response grpc h = ground arith

-- A field in which nothing is found is one of the stage and the protocol.
validate_field-IsMatchable :
    (name path : Text) (stage : Stage) (protocol : Protocol)
    → validate_field_for_stage name path stage protocol ≡ []
    → IsMatchable stage protocol name
unfolding validate_field_for_stage
validate_field-IsMatchable name path stage protocol h =
    elim (Bool-cases (starts_with name (js "header."))) [
      | inl e ↦ inl (e, ground arith)
      | inr e ↦ no_header name path stage protocol e (rw (validate_field_for_stage, e) at h)
    ]
  where
    no_header :
        (name path : Text) (stage : Stage) (protocol : Protocol)
        → starts_with name (js "header.") ≡ false
        → (if is_trailer name stage
            then if protocol_eq protocol grpc then [] else mismatch name path grpc
            else tabled_field name path stage protocol (lookup name (field_rules stage)))
          ≡ []
        → IsMatchable stage protocol name
    no_header name path Stage.request protocol e h =
        inr (inr (tabled_field-IsMatchable name path Stage.request protocol h))
    no_header name path Stage.response http e h =
        elim (Bool-cases (starts_with name (js "grpc.trailer."))) [
          | inl f ↦ absurd (ground arith)
          | inr f ↦ inr (inr (tabled_field-IsMatchable name path Stage.response http (rw f at h)))
        ]
    no_header name path Stage.response grpc e h =
        elim (Bool-cases (starts_with name (js "grpc.trailer."))) [
          | inl f ↦ inr (inl (refl, refl, f))
          | inr f ↦ inr (inr (tabled_field-IsMatchable name path Stage.response grpc (rw f at h)))
        ]

parse_regex-Returns :
    (re : RegExp) (fs : Fields) (path : Text)
    → Returns
        (λ (t : Text × Text × Option Text).
          (0 < length t.0) × (re.syntax_error t.1 (or_empty t.2) ≡ none))
        (parse_regex re fs path)
unfolding parse_regex
parse_regex-Returns re fs path = bind-Returns (anything _) (λ name p.
    bind-Returns (require-Returns (ltb 0 (length name)) _) (λ u h.
      bind-Returns (anything _) (λ pattern' q. bind-Returns (anything _) (λ flags r.
        bind-Returns (valid_regex-Returns re pattern' (or_empty flags) _)
          (λ v k. returns (ground arith, k))))))

module _ (re : RegExp) (stage : Stage) (protocol : Protocol) where
  abbrev V : Matcher → Type 0
  V = ValidMatcher re stage protocol

  found-Sound :
      (name pattern' : Text) (flags : Option Text) (path : Text) (es : List Finding)
      → es ≡ validate_field_for_stage name path stage protocol
      → 0 < length name
      → re.syntax_error pattern' (or_empty flags) ≡ none
      → Sound V (es, some (Matcher.regex name pattern' flags))
  unfolding ValidMatcher
  found-Sound name pattern' flags path [] e h k =
      (h, k, validate_field-IsMatchable name path stage protocol (sym e))
  found-Sound name pattern' flags path (x ∷ es) e h k = tt

  regex_at-Sound :
      (path : Text) {r : Parsed (Text × Text × Option Text)}
      → Returns
          (λ (t : Text × Text × Option Text).
            (0 < length t.0) × (re.syntax_error t.1 (or_empty t.2) ≡ none))
          r
      → Sound V (regex_at stage protocol path r)
  regex_at-Sound path (returns {a} p) = found-Sound a.0 a.1 a.2 path _ refl p.0 p.1
  regex_at-Sound path fails = tt

  parse_script-Returns : (fs : Fields) (path : Text) → Returns V (parse_script fs path)
  unfolding parse_script ValidMatcher
  parse_script-Returns fs path =
      bind-Returns (script_source-Returns fs path)
        (λ source h. bind-Returns (optional-IsPositive _ _) (λ timeout k. returns (h, k)))

  negated-Sound : (c : Checked Matcher) → Sound V c → Sound V (negated c)
  unfolding ValidMatcher
  negated-Sound ([], none) h = h
  negated-Sound ([], some m) h = h
  negated-Sound (e ∷ es, none) h = tt
  negated-Sound (e ∷ es, some m) h = tt

  all-Sound :
      (c : Checked Conditions)
      → Sound (ValidConditions re stage protocol) c
      → Sound V (combined Matcher.all c)
  unfolding ValidMatcher
  all-Sound ([], none) h = h
  all-Sound ([], some cs) h = h
  all-Sound (e ∷ es, none) h = tt
  all-Sound (e ∷ es, some cs) h = tt

  any-Sound :
      (c : Checked Conditions)
      → Sound (ValidConditions re stage protocol) c
      → Sound V (combined Matcher.any c)
  unfolding ValidMatcher
  any-Sound ([], none) h = h
  any-Sound ([], some cs) h = h
  any-Sound (e ∷ es, none) h = tt
  any-Sound (e ∷ es, some cs) h = tt

  typed_matcher-Sound :
      (fs : Fields) (path : Text) (conditions : Checked Conditions) (condition : Checked Matcher)
      → Sound (ValidConditions re stage protocol) conditions
      → Sound V condition
      → Sound V (typed_matcher re stage protocol fs path conditions condition)
  unfolding typed_matcher
  typed_matcher-Sound fs path conditions condition h k =
      switch_lem (Sound V) _ _ _
        (
          regex_at-Sound path (parse_regex-Returns re fs path),
          (
            all-Sound conditions h,
            (
              any-Sound conditions h,
              (negated-Sound condition k, (from_parsed-Sound (parse_script-Returns fs path), tt)),
            ),
          ),
        )
        tt

  both_parsed-Sound :
      (c : Checked Matcher) (d : Checked Conditions)
      → Sound V c
      → Sound (AllValid re stage protocol) d
      → Sound (AllValid re stage protocol) (both_parsed c d)
        × Sound (ValidConditions re stage protocol) (both_parsed c d)
  unfolding both_parsed ValidMatcher
  both_parsed-Sound ([], none) d h k = absurd h
  both_parsed-Sound ([], some m) ([], none) h k = absurd k
  both_parsed-Sound ([], some m) ([], some cs) h k = ((h, k), (h, k))
  both_parsed-Sound ([], some m) (e ∷ es, none) h k = (tt, tt)
  both_parsed-Sound ([], some m) (e ∷ es, some cs) h k = (tt, tt)
  both_parsed-Sound (e ∷ es, none) d h k = (tt, tt)
  both_parsed-Sound (e ∷ es, some m) (fs, none) h k = (tt, tt)
  both_parsed-Sound (e ∷ es, some m) (fs, some cs) h k = (tt, tt)

  nil-Valid : AllValid re stage protocol Conditions.nil
  unfolding ValidMatcher
  nil-Valid = tt

  mutual
    unfolding parse_matcher

    matcher-Sound : (j : Json) (path : Text) → Sound V (parse_matcher re stage protocol j path)
    matcher-Sound null path = tt
    matcher-Sound (bool b) path = tt
    matcher-Sound (num n) path = tt
    matcher-Sound (str t) path = tt
    matcher-Sound (arr vs) path = tt
    matcher-Sound (obj fs) path =
        typed_matcher-Sound fs path _ _ (conditions-Sound fs path) (condition-Sound fs path)

    conditions-Sound :
        (fs : Fields) (path : Text)
        → Sound (ValidConditions re stage protocol) (parse_conditions re stage protocol fs path)
    conditions-Sound end path = tt
    conditions-Sound (Fields.field k v fs) path = elim (Bool-cases (text_eq k (js "conditions"))) [
      | inl e ↦ rw e (array-Sound v path)
      | inr e ↦ rw e (conditions-Sound fs path)
    ]

    array-Sound :
        (j : Json) (path : Text)
        → Sound (ValidConditions re stage protocol) (parse_array re stage protocol j path)
    array-Sound null path = tt
    array-Sound (bool b) path = tt
    array-Sound (num n) path = tt
    array-Sound (str t) path = tt
    array-Sound (obj fs) path = tt
    array-Sound (arr nil) path = tt
    array-Sound (arr (cons v vs)) path =
        (both_parsed-Sound _ _ (matcher-Sound v (path ++ js ".conditions[0]"))
          (items-Sound vs path 1)).1

    items-Sound :
        (vs : Items) (path : Text) (i : ℕ)
        → Sound (AllValid re stage protocol) (parse_items re stage protocol vs path i)
    items-Sound nil path i = nil-Valid
    items-Sound (cons v vs) path i =
        (both_parsed-Sound _ _ (matcher-Sound v _) (items-Sound vs path (i + 1))).0

    condition-Sound :
        (fs : Fields) (path : Text) → Sound V (parse_condition re stage protocol fs path)
    condition-Sound end path = tt
    condition-Sound (Fields.field k v fs) path = elim (Bool-cases (text_eq k (js "condition"))) [
      | inl e ↦ rw e (matcher-Sound v (path ++ js ".condition"))
      | inr e ↦ rw e (condition-Sound fs path)
    ]

  -- A matcher in which nothing is found is there and well formed.
  pub parse_matcher-Sound :
      (j : Json) (path : Text)
      → Sound (ValidMatcher re stage protocol) (parse_matcher re stage protocol j path)
  parse_matcher-Sound j path = matcher-Sound j path
