-- ===== src/Rules/Validate/Matchers.antt =====
-- src/rules/validate.ts: parseMatcher and validateFieldForStage. A matcher may have several issues.
-- The table of fields is a plain object, so that a field spelled like a member of `Object.prototype`
-- makes the code throw a TypeError.
use morpheus_proxy.Prelude.{
  ℕ, ◌+◌, Bool, true, false, Option, none, some, List, [], ◌∷◌, ◌++◌, Text, js, text_eq,
  starts_with, to_string, ltb, leb, length, any, if◌then◌else◌, ok, err, lookup,
}
use morpheus_proxy.Json.{Json, Items, Fields, null, bool, num, str, arr, obj, nil, cons, end}
use morpheus_proxy.Rules.Types.{Matcher, Conditions, Protocol, http, grpc, Stage, protocol_eq}
use morpheus_proxy.Rules.Matcher.{RegExp, or_empty}
use morpheus_proxy.Logging.Mask.{inherited_names}
use morpheus_proxy.Rules.Validate.Issues.{
  switch, ◌>>=◌, ◌>>◌, RuleValidationIssue, issue, Parsed, require, get_key, as_text, integer_in,
  optional, text_of, valid_regex, script_source,
}

-- What validation finds: an issue that it reports, or a TypeError that ends it.
pub data Finding : Type 0 where
  reported : RuleValidationIssue → Finding
  type_error : Finding

-- The findings so far, and the value if there is one.
abbrev pub Checked : Type 0 → Type 0
Checked A = List Finding × Option A

abbrev pub from_parsed : {A : Type 0} → Parsed A → Checked A
from_parsed (ok a) = ([], some a)
from_parsed (err e) = (reported e ∷ [], none)

-- For which protocols a field is: `none` stands for both.
abbrev both : Option Protocol
both = none

-- REQUEST_FIELD_RULES and RESPONSE_FIELD_RULES
unfoldable pub field_rules : Stage → List (Text × Option Protocol)
field_rules Stage.request =
    (js "method", some http)
    ∷ (js "host", both)
    ∷ (js "path", both)
    ∷ (js "query", some http)
    ∷ (js "body", both)
    ∷ (js "rawBodyBase64", both)
    ∷ (js "grpc.service", some grpc)
    ∷ (js "grpc.method", some grpc)
    ∷ []
field_rules Stage.response =
    (js "status", some http)
    ∷ (js "body", both)
    ∷ (js "rawBodyBase64", both)
    ∷ (js "grpc.status", some grpc)
    ∷ []

abbrev stage_name : Stage → Text
stage_name Stage.request = js "request"
stage_name Stage.response = js "response"

abbrev protocol_name : Protocol → Text
protocol_name http = js "http"
protocol_name grpc = js "grpc"

abbrev pub mismatch : Text → Text → Protocol → List Finding
mismatch field path allowed =
    reported (record {
      path = path ++ js ".field";
      reason = js "field_protocol_mismatch";
      message = field ++ js " is only valid for " ++ protocol_name allowed ++ js " rules";
    })
    ∷ []

abbrev is_allowed : Option Protocol → Protocol → Bool
is_allowed none protocol = true
is_allowed (some allowed) protocol = protocol_eq allowed protocol

abbrev allowed_or : Option Protocol → Protocol
allowed_or none = http
allowed_or (some allowed) = allowed

-- The field is looked up in the table.
unfoldable pub tabled_field :
    Text → Text → Stage → Protocol → Option (Option Protocol) → List Finding
tabled_field field path stage protocol none =
    if any (λ name. text_eq name field) (js "__proto__" ∷ inherited_names)
    then type_error ∷ []
    else reported (record {
      path = path ++ js ".field";
      reason = js "invalid_field";
      message = field ++ js " is not a valid " ++ stage_name stage ++ js " matcher field";
    })
      ∷ []
tabled_field field path stage protocol (some allowed) =
    if is_allowed allowed protocol then [] else mismatch field path (allowed_or allowed)

abbrev pub is_trailer : Text → Stage → Bool
is_trailer field Stage.request = false
is_trailer field Stage.response = starts_with field (js "grpc.trailer.")

unfoldable pub validate_field_for_stage : Text → Text → Stage → Protocol → List Finding
validate_field_for_stage field path stage protocol =
    if starts_with field (js "header.")
    then if leb (length field) 7
      then reported
          (issue (path ++ js ".field") "invalid_field" "header.<name> requires a header name")
        ∷ []
      else []
    else if is_trailer field stage
    then if protocol_eq protocol grpc then [] else mismatch field path grpc
    else tabled_field field path stage protocol (lookup field (field_rules stage))

-- `case 'regex'`, up to the check of the field.
unfoldable pub parse_regex : RegExp → Fields → Text → Parsed (Text × Text × Option Text)
parse_regex re fs path = do
  field ←
      text_of (get_key "field" fs)
        (issue (path ++ js ".field") "invalid_field" "field must be a non-empty string")
  require (ltb 0 (length field))
      (issue (path ++ js ".field") "invalid_field" "field must be a non-empty string")
  pattern' ←
      text_of (get_key "pattern" fs)
        (issue (path ++ js ".pattern") "invalid_pattern" "pattern must be a string")
  flags ← optional (get_key "flags" fs) (λ value.
      text_of value (issue (path ++ js ".flags") "invalid_flags" "flags must be a string"))
  valid_regex re pattern' (or_empty flags) (path ++ js ".pattern")
  ok (field, pattern', flags)

-- `case 'script'`
unfoldable pub parse_script : Fields → Text → Parsed Matcher
parse_script fs path = do
  source ← script_source fs path
  timeout ← optional (get_key "timeoutMs" fs) (λ value.
      integer_in 1 none value
        (issue (path ++ js ".timeoutMs") "invalid_timeout" "timeoutMs must be a positive integer"))
  ok (Matcher.script (record { source = source; timeout_ms = timeout }))

abbrev no_conditions : Text → List Finding
no_conditions path =
    reported
      (issue (path ++ js ".conditions") "invalid_conditions" "conditions must be a non-empty array")
    ∷ []

abbrev no_type : Text → List Finding
no_type path =
    reported (
      issue (path ++ js ".type") "invalid_matcher_type"
        "matcher type must be one of regex, all, any, not, script")
    ∷ []

abbrev no_matcher : Text → Checked Matcher
no_matcher path = (reported (issue path "invalid_matcher" "matcher must be an object") ∷ [], none)

-- The findings of both, and the list if there are both.
unfoldable pub both_parsed : Checked Matcher → Checked Conditions → Checked Conditions
both_parsed (es, none) (es', cs) = (es ++ es', none)
both_parsed (es, some m) (es', none) = (es ++ es', none)
both_parsed (es, some m) (es', some cs) = (es ++ es', some (Conditions.cons m cs))

abbrev pub negated : Checked Matcher → Checked Matcher
negated (es, none) = (es, none)
negated (es, some m) = (es, some (Matcher.not m))

abbrev pub combined : (Conditions → Matcher) → Checked Conditions → Checked Matcher
combined f (es, none) = (es, none)
combined f (es, some cs) = (es, some (f cs))

abbrev pub regex_at : Stage → Protocol → Text → Parsed (Text × Text × Option Text) → Checked Matcher
regex_at stage protocol path (err e) = (reported e ∷ [], none)
regex_at stage protocol path (ok (field, pattern', flags)) =
    (validate_field_for_stage field path stage protocol, some (Matcher.regex field pattern' flags))

-- The cases of `type`; the parsed conditions and the parsed condition are taken where they are needed.
unfoldable pub typed_matcher :
    RegExp
    → Stage
    → Protocol
    → Fields
    → Text
    → Checked Conditions
    → Checked Matcher
    → Checked Matcher
typed_matcher re stage protocol fs path conditions condition =
    switch (as_text (get_key "type" fs))
      (("regex", regex_at stage protocol path (parse_regex re fs path))
        ∷ ("all", combined Matcher.all conditions)
        ∷ ("any", combined Matcher.any conditions)
        ∷ ("not", negated condition)
        ∷ ("script", from_parsed (parse_script fs path))
        ∷ [])
      (no_type path, none)

module _ (re : RegExp) (stage : Stage) (protocol : Protocol) where
  unfoldable mutual
    pub parse_matcher : Json → Text → Checked Matcher
    parse_matcher null path = no_matcher path
    parse_matcher (bool b) path = no_matcher path
    parse_matcher (num n) path = no_matcher path
    parse_matcher (str t) path = no_matcher path
    parse_matcher (arr vs) path = no_matcher path
    parse_matcher (obj fs) path =
        typed_matcher re stage protocol fs path (parse_conditions fs path) (parse_condition fs path)

    -- `input['conditions']`, as a non-empty array.
    pub parse_conditions : Fields → Text → Checked Conditions
    parse_conditions end path = (no_conditions path, none)
    parse_conditions (Fields.field k v fs) path =
        let here = parse_array v path in
        let later = parse_conditions fs path in if text_eq k (js "conditions") then here else later

    pub parse_array : Json → Text → Checked Conditions
    parse_array null path = (no_conditions path, none)
    parse_array (bool b) path = (no_conditions path, none)
    parse_array (num n) path = (no_conditions path, none)
    parse_array (str t) path = (no_conditions path, none)
    parse_array (obj fs) path = (no_conditions path, none)
    parse_array (arr nil) path = (no_conditions path, none)
    parse_array (arr (cons v vs)) path =
        both_parsed (parse_matcher v (path ++ js ".conditions[0]")) (parse_items vs path 1)

    -- The conditions from the `i`-th on.
    pub parse_items : Items → Text → ℕ → Checked Conditions
    parse_items nil path i = ([], some Conditions.nil)
    parse_items (cons v vs) path i =
        both_parsed (parse_matcher v (path ++ js ".conditions[" ++ to_string i ++ js "]"))
          (parse_items vs path (i + 1))

    -- `input['condition']`
    pub parse_condition : Fields → Text → Checked Matcher
    parse_condition end path = no_matcher (path ++ js ".condition")
    parse_condition (Fields.field k v fs) path =
        let here = parse_matcher v (path ++ js ".condition") in
        let later = parse_condition fs path in if text_eq k (js "condition") then here else later
