-- ===== src/Rules/Validate.antt =====
-- src/rules/validate.ts: validateRule. Each part of a rule gives its findings and its value; the rule
-- is made where nothing is found.
pub mod Issues
pub mod Matchers
pub mod Actions
pub mod Stages
pub mod Valid
pub mod Returns
pub mod Sound
pub mod SoundStages
pub mod SoundMatchers
pub mod Judged
pub mod Running
mod Tests
use morpheus_proxy.Prelude.{
  ℕ, ◌+◌, ℤ, pos, negsuc, Bool, true, false, not, ◌&&◌, ◌||◌, Option, none, some, List, [], ◌∷◌,
  ◌++◌, Text, String, js, text_eq, ltb, leb, length, any, all, take, if◌then◌else◌, ok, err, ◌==◌,
  is_some, map,
}
use morpheus_proxy.Json.{
  Json, Number, Fields, nat, negative, fractional, null, bool, num, str, arr, obj,
}
use morpheus_proxy.Rules.Types.{
  Rule, Matcher, Protocol, http, grpc, protocol_eq, Stage, Delay, RequestAction, ResponseAction,
  RequestStage, ResponseStage, ConsumeSpec, MockResponse, is_terminal_request_action,
}
use morpheus_proxy.Rules.Matcher.{RegExp, matcher_uses_body}
use morpheus_proxy.Rules.Validate.Issues.{
  RuleValidationIssue, issue, Parsed, get_key, is_plain_object, as_text, or_default, equals,
}
use morpheus_proxy.Rules.Validate.Matchers.{
  Finding, reported, type_error, Checked, from_parsed, parse_matcher,
}
use morpheus_proxy.Rules.Validate.Actions.{parse_delay}
use morpheus_proxy.Rules.Validate.Stages.{
  parse_request_action, parse_response_action, parse_consume,
}

pub record RuleValidationResult : Type 0 where
  pub rule : Option Rule
  pub errors : List RuleValidationIssue
  pub warnings : List RuleValidationIssue

-- A result, or the TypeError that ended the validation.
pub data Validation : Type 0 where
  checked : RuleValidationResult → Validation
  thrown : Validation

-- The options, and what validation asks of its surroundings: `new RegExp`, `randomUUID()`, and
-- whether `Date.parse` reads a text.
pub record ValidateEnv : Type 0 where
  pub re : RegExp
  pub uuid : Text
  pub is_date : Text → Bool
  pub script_max_timeout_ms : Option ℕ
  pub grpc_body_validator : Option (Rule → List RuleValidationIssue)

-- A part of a rule that always has a value.
abbrev pub Part : Type 0 → Type 0
Part A = List Finding × A

abbrev found : Text → String → String → List Finding
found path reason message = reported (issue path reason message) ∷ []

abbrev found_unless : Bool → Text → String → String → List Finding
found_unless b path reason message = if b then [] else found path reason message

-- `[A-Za-z0-9_-]`
abbrev is_id_unit : ℕ → Bool
is_id_unit c =
    (leb b'A' c && leb c b'Z')
    || (leb b'a' c && leb c b'z')
    || (leb b'0' c && leb c b'9')
    || c == b'_'
    || c == b'-'

-- ID_PATTERN
unfoldable pub is_id : Text → Bool
is_id t = ltb 0 (length t) && leb (length t) 128 && all is_id_unit t

unfoldable pub generated_id : Text → Text
generated_id uuid = js "rule-" ++ take 8 uuid

abbrev id_of_text : Option Text → Part Text
id_of_text none = (found (js "id") "invalid_id" "id must match ^[A-Za-z0-9_-]{1,128}$", [])
id_of_text (some t) =
    if is_id t
    then ([], t)
    else (found (js "id") "invalid_id" "id must match ^[A-Za-z0-9_-]{1,128}$", [])

unfoldable pub parse_id : Text → Option Json → Part Text
parse_id uuid none = ([], generated_id uuid)
parse_id uuid (some v) = id_of_text (as_text (some v))

-- A text that may be missing.
unfoldable pub parse_text : Option Json → Text → String → String → Part Text
parse_text none path reason message = ([], [])
parse_text (some v) path reason message = elim (as_text (some v)) [
  | none ↦ (found path reason message, [])
  | some t ↦ ([], t)
]

abbrev as_bool : Option Json → Option Bool
as_bool (some (bool b)) = some b
as_bool none = none
as_bool (some null) = none
as_bool (some (num n)) = none
as_bool (some (str t)) = none
as_bool (some (arr vs)) = none
as_bool (some (obj fs)) = none

unfoldable pub parse_enabled : Option Json → Part Bool
parse_enabled value = elim (as_bool (or_default value (bool true))) [
  | none ↦ (found (js "enabled") "invalid_enabled" "enabled must be a boolean", false)
  | some b ↦ ([], b)
]

abbrev integer : Number → Option ℤ
integer (nat n) = some (pos n)
integer (negative n) = some (negsuc n)
integer (fractional t) = none

abbrev as_integer : Option Json → Option ℤ
as_integer (some (num n)) = integer n
as_integer none = none
as_integer (some null) = none
as_integer (some (bool b)) = none
as_integer (some (str t)) = none
as_integer (some (arr vs)) = none
as_integer (some (obj fs)) = none

unfoldable pub parse_priority : Option Json → Part ℤ
parse_priority value = elim (as_integer (or_default value (num (nat 0)))) [
  | none ↦ (found (js "priority") "invalid_priority" "priority must be an integer", pos 0)
  | some n ↦ ([], n)
]

-- `value === 1`
abbrev is_one : Option ℤ → Bool
is_one (some (pos n)) = n == 1
is_one (some (negsuc n)) = false
is_one none = false

unfoldable pub check_version : Option Json → List Finding
check_version value =
    found_unless (is_one (as_integer (or_default value (num (nat 1))))) (js "schemaVersion")
      "unsupported_schema_version" "only schemaVersion 1 is supported"

unfoldable pub parse_protocol : Option Json → Option Protocol
parse_protocol value =
    if equals (as_text value) "http"
    then some http
    else if equals (as_text value) "grpc"
    then some grpc
    else none

-- A part that is parsed where it is given.
abbrev pub given : {A : Type 0} → Option Json → (Json → Checked A) → Checked A
given none parse = ([], none)
given (some v) parse = parse v

abbrev no_stage : Text → List Finding
no_stage name =
    reported (record {
      path = name;
      reason = js "invalid_stage";
      message = name ++ js " must be an object";
    })
    ∷ []

abbrev empty_stage : Text → Fields → List Finding
empty_stage name fs =
    if is_some (get_key "delay" fs) || is_some (get_key "action" fs)
    then []
    else reported (record {
      path = name;
      reason = js "empty_stage";
      message = name ++ js " must contain delay and/or action (spec 4.5)";
    })
      ∷ []

unfoldable pub parse_request_stage :
    ValidateEnv → Protocol → Option Json → List Finding × Option RequestStage
parse_request_stage env protocol none = ([], none)
parse_request_stage env protocol (some v) = elim (is_plain_object (some v)) [
  | none ↦ (no_stage (js "request"), none)
  | some fs ↦
      let (es, delay) =
        given (get_key "delay" fs)
          (λ d. from_parsed (parse_delay d (js "request.delay") Stage.request)) in
      let (es', action) =
        given (get_key "action" fs)
          (λ a. from_parsed (parse_request_action env.re a (js "request.action") protocol)) in
      (
        es ++ (es' ++ empty_stage (js "request") fs),
        some (record { delay = delay; action = action }),
      )
]

unfoldable pub parse_response_stage :
    ValidateEnv → Protocol → Option Json → List Finding × Option ResponseStage
parse_response_stage env protocol none = ([], none)
parse_response_stage env protocol (some v) = elim (is_plain_object (some v)) [
  | none ↦ (no_stage (js "response"), none)
  | some fs ↦
      let (es, m) =
        given (get_key "match" fs)
          (λ m. parse_matcher env.re Stage.response protocol m (js "response.match")) in
      let (es', delay) =
        given (get_key "delay" fs)
          (λ d. from_parsed (parse_delay d (js "response.delay") Stage.response)) in
      let (es'', action) = given (get_key "action" fs) (λ a. from_parsed (
        parse_response_action env.re env.script_max_timeout_ms a (js "response.action")
          protocol)) in
      (
        es ++ (es' ++ (es'' ++ empty_stage (js "response") fs)),
        some (record { match = m; delay = delay; action = action }),
      )
]

abbrev no_logging : Part Bool
no_logging = (found (js "logging") "invalid_logging" "logging.capture must be a boolean", false)

abbrev capture_of : Option Json → Part Bool
capture_of none = ([], false)
capture_of (some (bool b)) = ([], b)
capture_of (some null) = no_logging
capture_of (some (num n)) = no_logging
capture_of (some (str t)) = no_logging
capture_of (some (arr vs)) = no_logging
capture_of (some (obj fs)) = no_logging

unfoldable pub parse_logging : Option Json → Part Bool
parse_logging none = ([], false)
parse_logging (some v) = elim (is_plain_object (some v)) [
  | none ↦ no_logging
  | some fs ↦ capture_of (get_key "capture" fs)
]

-- isoOrUndefined(value) ?? ''
unfoldable pub iso_or_empty : ValidateEnv → Option Json → Text
iso_or_empty env value = elim (as_text value) [
  | none ↦ []
  | some t ↦ if env.is_date t then t else []
]

-- The action of a request stage, if there are both.
abbrev pub action_of : Option RequestStage → Option RequestAction
action_of none = none
action_of (some stage) = stage.action

abbrev is_terminal : Option RequestAction → Bool
is_terminal none = false
is_terminal (some action) = is_terminal_request_action action

abbrev mocks_messages : Option RequestAction → Bool
mocks_messages (some (RequestAction.mock_response response)) = is_some response.messages
mocks_messages (some (RequestAction.fault f)) = false
mocks_messages (some (RequestAction.request_rewrite ops)) = false
mocks_messages none = false

abbrev uses_body : Option Matcher → Bool
uses_body none = false
uses_body (some m) = matcher_uses_body m

-- A missing matcher is refused like any value that is no object.
abbrev or_null : Option Json → Json
or_null none = null
or_null (some v) = v

-- The parts of a rule whose protocol is known.
pub record RuleParts : Type 0 where
  pub id : Part Text
  pub name : Part Text
  pub description : Part Text
  pub enabled : Part Bool
  pub priority : Part ℤ
  pub match : Checked Matcher
  pub request : List Finding × Option RequestStage
  pub response : List Finding × Option ResponseStage
  pub consume : Checked ConsumeSpec
  pub capture : Part Bool

unfoldable pub parse_parts : ValidateEnv → Protocol → Fields → RuleParts
parse_parts env protocol fs = record {
  id = parse_id env.uuid (get_key "id" fs);
  name = parse_text (get_key "name" fs) (js "name") "invalid_name" "name must be a string";
  description =
      parse_text (get_key "description" fs) (js "description") "invalid_description"
        "description must be a string";
  enabled = parse_enabled (get_key "enabled" fs);
  priority = parse_priority (get_key "priority" fs);
  match = parse_matcher env.re Stage.request protocol (or_null (get_key "match" fs)) (js "match");
  request = parse_request_stage env protocol (get_key "request" fs);
  response = parse_response_stage env protocol (get_key "response" fs);
  consume = given (get_key "consume" fs) (λ c. from_parsed (parse_consume c));
  capture = parse_logging (get_key "logging" fs);
}

-- What is found before the protocol is looked at.
unfoldable pub head_findings : Fields → RuleParts → List Finding
head_findings fs parts =
    check_version (get_key "schemaVersion" fs)
    ++ (parts.id.0
        ++ (parts.name.0 ++ (parts.description.0 ++ (parts.enabled.0 ++ parts.priority.0))))

-- The rules across the fields.
unfoldable pub cross_findings : ValidateEnv → Protocol → Fields → RuleParts → List Finding
cross_findings env protocol fs parts =
    found_unless
      (is_some (get_key "request" fs) || is_some (get_key "response" fs) || parts.capture.1) []
      "noop_rule"
      "a rule without request/response stages must set logging.capture: true (spec 4.3.1)"
    ++ found_unless
        (not (
          mocks_messages (action_of parts.request.1)
          && protocol_eq protocol grpc
          && not (is_some env.grpc_body_validator)))
        (js "request.action.response.messages") "descriptor_required"
        "gRPC mock responses with message bodies require a registered descriptor (spec 4.7.3)"

unfoldable pub all_findings : ValidateEnv → Protocol → Fields → RuleParts → List Finding
all_findings env protocol fs parts =
    head_findings fs parts
    ++ (parts.match.0
        ++ (parts.request.0
            ++ (parts.response.0
                ++ (parts.consume.0 ++ (parts.capture.0 ++ cross_findings env protocol fs parts)))))

unfoldable pub all_warnings : ValidateEnv → Protocol → RuleParts → List RuleValidationIssue
all_warnings env protocol parts =
    (if is_terminal (action_of parts.request.1) && is_some parts.response.1
      then issue (js "response") "unreachable_response_stage"
          "request.action is terminal (mock/fault), so the response stage never runs (spec 4.3.1)"
        ∷ []
      else [])
    ++ (if uses_body parts.match.1
          && protocol_eq protocol grpc
          && not (is_some env.grpc_body_validator)
        then issue (js "match") "descriptor_required"
            "gRPC body matchers only work when a descriptor for the method is registered (spec 4.4.1)"
          ∷ []
        else [])

abbrev with_issue :
    RuleValidationIssue → Option (List RuleValidationIssue) → Option (List RuleValidationIssue)
with_issue e none = none
with_issue e (some es) = some (e ∷ es)

-- The issues, unless a TypeError is among the findings.
unfoldable pub issues_of : List Finding → Option (List RuleValidationIssue)
issues_of [] = some []
issues_of (type_error ∷ es) = none
issues_of (reported e ∷ es) = with_issue e (issues_of es)

abbrev pub rejected : List RuleValidationIssue → List RuleValidationIssue → Validation
rejected errors warnings = checked (record { rule = none; errors = errors; warnings = warnings })

-- The end of a validation with findings.
abbrev pub reject : List Finding → List RuleValidationIssue → Validation
reject es warnings = elim (issues_of es) [ none ↦ thrown | some errors ↦ rejected errors warnings ]

unfoldable pub made_rule : ValidateEnv → Protocol → Fields → RuleParts → Matcher → Rule
made_rule env protocol fs parts m = record {
  schema_version = 1;
  id = parts.id.1;
  name = parts.name.1;
  description = parts.description.1;
  enabled = parts.enabled.1;
  priority = parts.priority.1;
  protocol = protocol;
  match = m;
  request = parts.request.1;
  response = parts.response.1;
  consume = parts.consume.1;
  logging = record { capture = parts.capture.1 };
  created_at = iso_or_empty env (get_key "createdAt" fs);
  updated_at = iso_or_empty env (get_key "updatedAt" fs);
}

-- The issues that the hook has with a gRPC rule.
unfoldable pub hook_issues : ValidateEnv → Rule → List RuleValidationIssue
hook_issues env rule = elim env.grpc_body_validator [
  | none ↦ []
  | some validator ↦ if protocol_eq rule.protocol grpc then validator rule else []
]

unfoldable pub accept : ValidateEnv → Rule → List RuleValidationIssue → Validation
accept env rule warnings = elim (hook_issues env rule) [
  | [] ↦ checked (record { rule = some rule; errors = []; warnings = warnings })
  | e ∷ es ↦ rejected (e ∷ es) warnings
]

-- Parts without findings make a rule. They have a matcher then, so that the case without one is
-- never reached.
unfoldable pub conclude :
    ValidateEnv → Protocol → Fields → RuleParts → List Finding → Option Matcher → Validation
conclude env protocol fs parts (e ∷ es) o = reject (e ∷ es) (all_warnings env protocol parts)
conclude env protocol fs parts [] none = rejected [] []
conclude env protocol fs parts [] (some m) =
    accept env (made_rule env protocol fs parts m) (all_warnings env protocol parts)

unfoldable pub finish : ValidateEnv → Protocol → Fields → RuleParts → Validation
finish env protocol fs parts =
    conclude env protocol fs parts (all_findings env protocol fs parts) parts.match.1

abbrev invalid_protocol : List Finding
invalid_protocol = found (js "protocol") "invalid_protocol" "protocol must be \"http\" or \"grpc\""

-- An object, by its protocol.
unfoldable pub validate_object : ValidateEnv → Fields → Option Protocol → Validation
validate_object env fs none =
    reject (head_findings fs (parse_parts env http fs) ++ invalid_protocol) []
validate_object env fs (some protocol) = finish env protocol fs (parse_parts env protocol fs)

abbrev validate_fields : ValidateEnv → Option Fields → Validation
validate_fields env none = rejected (issue [] "invalid_rule" "rule must be an object" ∷ []) []
validate_fields env (some fs) = validate_object env fs (parse_protocol (get_key "protocol" fs))

unfoldable pub validate_rule : ValidateEnv → Json → Validation
validate_rule env input = validate_fields env (is_plain_object (some input))
