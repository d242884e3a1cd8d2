-- ===== src/Rules/Validate/Issues.antt =====
-- The issues of src/rules/validate.ts, and the checks of single values that its parsers share. What
-- `input[key]` gives is `none` where the key is missing; a parsed object holds no `undefined`.
use morpheus_proxy.Prelude.{
  ℕ, Bool, true, false, ◌&&◌, Option, none, some, List, [], ◌∷◌, ◌++◌, Text, String, js, text_eq,
  lookup, ltb, leb, if◌then◌else◌, Result, ok, err, length,
}
use morpheus_proxy.Json.{
  Json, Number, Items, Fields, nat, negative, fractional, null, bool, num, str, arr, obj, end,
  field, fields,
}
use morpheus_proxy.Rules.Matcher.{RegExp}
use morpheus_proxy.Proxy.Headers.{trim}

pub record RuleValidationIssue : Type 0 where
  pub path : Text
  pub reason : Text
  pub message : Text

abbrev pub issue : Text → String → String → RuleValidationIssue
issue path reason message = record { path = path; reason = js reason; message = js message }

-- A parser that reports one issue and gives nothing, or gives a value.
abbrev pub Parsed : Type 0 → Type 0
Parsed A = Result RuleValidationIssue A

-- Shut, so that a proof follows the steps of a `do` block by the rules of `Validate/Returns`.
infixl 5 ◌>>=◌ ◌>>◌
unfoldable pub ◌>>=◌ : {A B : Type 0} → Parsed A → (A → Parsed B) → Parsed B
ok a >>= f = f a
err e >>= f = err e

abbrev pub ◌>>◌ : {B : Type 0} → Parsed (Unit {0}) → Parsed B → Parsed B
m >> k = m >>= λ _. k

abbrev pub or_issue : {A : Type 0} → Option A → RuleValidationIssue → Parsed A
or_issue none e = err e
or_issue (some a) e = ok a

abbrev pub require : Bool → RuleValidationIssue → Parsed (Unit {0})
require true e = ok tt
require false e = err e

abbrev pub get_key : String → Fields → Option Json
get_key key fs = lookup (js key) (fields fs)

-- `isPlainObject(value)`
abbrev pub is_plain_object : Option Json → Option Fields
is_plain_object (some (obj fs)) = some fs
is_plain_object none = none
is_plain_object (some null) = none
is_plain_object (some (bool b)) = none
is_plain_object (some (num n)) = none
is_plain_object (some (str t)) = none
is_plain_object (some (arr vs)) = none

-- `typeof value === 'string'`
abbrev pub as_text : Option Json → Option Text
as_text (some (str t)) = some t
as_text none = none
as_text (some null) = none
as_text (some (bool b)) = none
as_text (some (num n)) = none
as_text (some (arr vs)) = none
as_text (some (obj fs)) = none

abbrev pub as_array : Option Json → Option Items
as_array (some (arr vs)) = some vs
as_array none = none
as_array (some null) = none
as_array (some (bool b)) = none
as_array (some (num n)) = none
as_array (some (str t)) = none
as_array (some (obj fs)) = none

abbrev natural : Number → Option ℕ
natural (nat n) = some n
natural (negative n) = none
natural (fractional t) = none

-- `typeof value === 'number' && Number.isInteger(value) && value >= 0`
abbrev pub as_natural : Option Json → Option ℕ
as_natural (some (num n)) = natural n
as_natural none = none
as_natural (some null) = none
as_natural (some (bool b)) = none
as_natural (some (str t)) = none
as_natural (some (arr vs)) = none
as_natural (some (obj fs)) = none

-- `value ?? other`
abbrev pub or_default : Option Json → Json → Option Json
or_default none other = some other
or_default (some null) other = some other
or_default (some (bool b)) other = some (bool b)
or_default (some (num n)) other = some (num n)
or_default (some (str t)) other = some (str t)
or_default (some (arr vs)) other = some (arr vs)
or_default (some (obj fs)) other = some (obj fs)

-- `value === text`
abbrev pub equals : Option Text → String → Bool
equals none s = false
equals (some t) s = text_eq t (js s)

-- `switch (value)` over strings.
unfoldable pub switch : {A : Type 0} → Option Text → List (String × A) → A → A
switch value [] other = other
switch value ((k, a) ∷ cases) other = if equals value k then a else switch value cases other

-- The integers from `lo` to `hi`, or from `lo` on.
abbrev pub is_within : ℕ → Option ℕ → ℕ → Bool
is_within lo none n = leb lo n
is_within lo (some hi) n = leb lo n && leb n hi

abbrev within : ℕ → Option ℕ → Option ℕ → Option ℕ
within lo hi none = none
within lo hi (some n) = if is_within lo hi n then some n else none

unfoldable pub integer_in : ℕ → Option ℕ → Option Json → RuleValidationIssue → Parsed ℕ
integer_in lo hi value e = or_issue (within lo hi (as_natural value)) e

-- A check of a value that may be missing.
unfoldable pub optional : {A : Type 0} → Option Json → (Option Json → Parsed A) → Parsed (Option A)
optional none check = ok none
optional (some value) check = do a ← check (some value); ok (some a)

unfoldable pub text_of : Option Json → RuleValidationIssue → Parsed Text
text_of value e = or_issue (as_text value) e

abbrev with_text : Text → Option Text → Option (List (Text × Text)) → Option (List (Text × Text))
with_text k none rest = none
with_text k (some t) none = none
with_text k (some t) (some rest) = some ((k, t) ∷ rest)

-- The entries, if every value is a string.
unfoldable pub string_entries : Fields → Option (List (Text × Text))
string_entries end = some []
string_entries (field k v fs) = with_text k (as_text (some v)) (string_entries fs)

abbrev entries_of : Option Fields → Option (List (Text × Text))
entries_of none = none
entries_of (some fs) = string_entries fs

-- `isStringRecord(value)`, with the entries.
unfoldable pub string_record : Option Json → RuleValidationIssue → Parsed (List (Text × Text))
string_record value e = or_issue (entries_of (is_plain_object value)) e

-- `validRegex(pattern, flags)`: the message of the error, if any, becomes that of the issue.
unfoldable pub valid_regex : RegExp → Text → Text → Text → Parsed (Unit {0})
valid_regex re pattern flags path = elim (re.syntax_error pattern flags) [
  | none ↦ ok tt
  | some message ↦ err (record { path = path; reason = js "invalid_regex"; message = message })
]

-- `source.trim() !== ''`
unfoldable pub is_filled : Text → Bool
is_filled source = ltb 0 (length (trim source))

unfoldable pub script_source : Fields → Text → Parsed Text
script_source fs path = do
  require (equals (as_text (get_key "language" fs)) "javascript")
      (issue (path ++ js ".language") "invalid_language" "language must be \"javascript\"")
  source ←
      text_of (get_key "source" fs)
        (issue (path ++ js ".source") "invalid_source" "source must be a non-empty string")
  require (is_filled source)
      (issue (path ++ js ".source") "invalid_source" "source must be a non-empty string")
  ok source
