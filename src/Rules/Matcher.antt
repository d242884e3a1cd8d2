-- ===== src/Rules/Matcher.antt =====
-- src/rules/matcher.ts. The regular expression engine and the script sandbox are parameters.
pub mod Fields
pub mod Bodies
pub mod Meaning
use morpheus_proxy.Prelude.{
  ℕ, ◌≡◌, Bool, true, false, not, ◌||◌, Option, none, some, List, [], ◌∷◌, ◌++◌, Text, js, text_eq,
  starts_with, to_lower_case, to_string, drop, any, lookup, Result, ok, err, ◌>>=◌, if◌then◌else◌,
  is_some,
}
use morpheus_proxy.Json.{Json}
use morpheus_proxy.Rules.Types.{Protocol, Stage, Matcher, Conditions, ScriptMatcher}

-- A header is one value or a list of values.
pub data HeaderValue : Type 0 where
  one : Text → HeaderValue
  many : List Text → HeaderValue

abbrev pub HeaderMap : Type 0
HeaderMap = List (Text × HeaderValue)

pub record GrpcRequest : Type 0 where
  pub service : Option Text
  pub method : Option Text
  pub metadata : HeaderMap
  pub messages : Option (List Json)

pub record RequestSnapshot : Type 0 where
  pub id : Text
  pub method : Option Text
  pub host : Option Text
  pub path : Option Text
  pub query : Option Text
  pub headers : HeaderMap
  pub body : Option Text
  pub raw_body_base64 : Option Text
  pub grpc : Option GrpcRequest

pub record GrpcResponse : Type 0 where
  pub status : Option ℕ
  pub message : Option Text
  pub trailers : HeaderMap
  pub messages : Option (List Json)

pub record ResponseSnapshot : Type 0 where
  pub status_code : Option ℕ
  pub headers : HeaderMap
  pub body : Option Text
  pub raw_body_base64 : Option Text
  pub grpc : Option GrpcResponse

pub record RuleStateView : Type 0 where
  pub hits : ℕ
  pub remaining : Option ℕ

pub record MatchInput : Type 0 where
  pub protocol : Protocol
  pub stage : Stage
  pub request : RequestSnapshot
  pub response : Option ResponseSnapshot
  pub rule_state : RuleStateView

-- The engine's `RegExp`: the message of the SyntaxError that `new RegExp(pattern, flags)` throws,
-- if any; a test of a fresh expression on a value; and the replacement of every match in a value.
pub record RegExp : Type 0 where
  pub syntax_error : (pattern flags : Text) → Option Text
  pub test : (pattern flags value : Text) → Bool
  pub replace_all : (pattern value replacement : Text) → Text

-- What a script matcher answers, or the message of what it throws.
abbrev pub ScriptMatcherRunner : Type 0
ScriptMatcherRunner = ScriptMatcher → MatchInput → Result Text Bool

unfoldable pub header_values : HeaderMap → Text → List Text
header_values headers name = elim (lookup (to_lower_case name) headers) [
  | none ↦ []
  | some (one v) ↦ v ∷ []
  | some (many vs) ↦ vs
]

abbrev pub optional : Option Text → List Text
optional none = []
optional (some v) = v ∷ []

abbrev pub optional_number : Option ℕ → List Text
optional_number none = []
optional_number (some n) = to_string n ∷ []

-- `first.length > 0 ? first : second`
abbrev or_if_empty : List Text → List Text → List Text
or_if_empty [] second = second
or_if_empty (v ∷ vs) second = v ∷ vs

abbrev from_grpc : Option GrpcRequest → (GrpcRequest → List Text) → List Text
from_grpc none f = []
from_grpc (some g) f = f g

abbrev from_grpc_response : Option GrpcResponse → (GrpcResponse → List Text) → List Text
from_grpc_response none f = []
from_grpc_response (some g) f = f g

unfoldable pub resolve_request_field : Text → RequestSnapshot → List Text
resolve_request_field field request =
    if text_eq field (js "method")
    then optional request.method
    else if text_eq field (js "host")
    then optional request.host
    else if text_eq field (js "path")
    then optional request.path
    else if text_eq field (js "query")
    then optional request.query
    else if text_eq field (js "body")
    then optional request.body
    else if text_eq field (js "rawBodyBase64")
    then optional request.raw_body_base64
    else if text_eq field (js "grpc.service")
    then from_grpc request.grpc (λ g. optional g.service)
    else if text_eq field (js "grpc.method")
    then from_grpc request.grpc (λ g. optional g.method)
    else if starts_with field (js "header.")
    then or_if_empty (header_values request.headers (drop 7 field))
        (from_grpc request.grpc (λ g. header_values g.metadata (drop 7 field)))
    else []

unfoldable pub resolve_response_field : Text → ResponseSnapshot → List Text
resolve_response_field field response =
    if text_eq field (js "status")
    then optional_number response.status_code
    else if text_eq field (js "body")
    then optional response.body
    else if text_eq field (js "rawBodyBase64")
    then optional response.raw_body_base64
    else if text_eq field (js "grpc.status")
    then from_grpc_response response.grpc (λ g. optional_number g.status)
    else if starts_with field (js "header.")
    then header_values response.headers (drop 7 field)
    else if starts_with field (js "grpc.trailer.")
    then from_grpc_response response.grpc (λ g. header_values g.trailers (drop 13 field))
    else []

abbrev in_response : Option ResponseSnapshot → (ResponseSnapshot → List Text) → List Text
in_response none f = []
in_response (some r) f = f r

abbrev at_stage : Stage → List Text → List Text → List Text
at_stage Stage.request requested responded = requested
at_stage Stage.response requested responded = responded

unfoldable pub resolve_field : Text → MatchInput → List Text
resolve_field field input =
    at_stage input.stage (resolve_request_field field input.request)
      (in_response input.response (resolve_response_field field))

abbrev pub or_empty : Option Text → Text
or_empty none = []
or_empty (some t) = t

-- The expression is made anew for each evaluation, and thrown for if it is no expression.
unfoldable pub test_values : RegExp → Text → Text → List Text → Result Text Bool
test_values re pattern flags candidates = elim (re.syntax_error pattern flags) [
  | none ↦ ok (any (re.test pattern flags) candidates)
  | some message ↦ err message
]

abbrev pub eval_regex : RegExp → Text → Text → Option Text → MatchInput → Result Text Bool
eval_regex re field pattern flags input =
    test_values re pattern (or_empty flags) (resolve_field field input)

unfoldable pub eval_script :
    Option ScriptMatcherRunner → ScriptMatcher → MatchInput → Result Text Bool
eval_script none s input =
    err (js "script matcher requires the script sandbox, which is not available")
eval_script (some runner) s input = runner s input

module _ (re : RegExp) (runner : Option ScriptMatcherRunner) (input : MatchInput) where
  unfoldable mutual
    pub eval_matcher : Matcher → Result Text Bool
    eval_matcher (Matcher.regex field pattern flags) = eval_regex re field pattern flags input
    eval_matcher (Matcher.all cs) = eval_all cs
    eval_matcher (Matcher.any cs) = eval_any cs
    eval_matcher (Matcher.not m) = do b ← eval_matcher m; ok (not b)
    eval_matcher (Matcher.script s) = eval_script runner s input

    -- The loop of the case 'all'.
    pub eval_all : Conditions → Result Text Bool
    eval_all Conditions.nil = ok true
    eval_all (Conditions.cons m cs) = do b ← eval_matcher m; if b then eval_all cs else ok false

    -- The loop of the case 'any'.
    pub eval_any : Conditions → Result Text Bool
    eval_any Conditions.nil = ok false
    eval_any (Conditions.cons m cs) = do b ← eval_matcher m; if b then ok true else eval_any cs

unfoldable mutual
  pub collect_matcher_fields : Matcher → List Text → List Text
  collect_matcher_fields (Matcher.regex field pattern flags) into = into ++ field ∷ []
  collect_matcher_fields (Matcher.all cs) into = collect_conditions cs into
  collect_matcher_fields (Matcher.any cs) into = collect_conditions cs into
  collect_matcher_fields (Matcher.not m) into = collect_matcher_fields m into
  collect_matcher_fields (Matcher.script s) into = into

  pub collect_conditions : Conditions → List Text → List Text
  collect_conditions Conditions.nil into = into
  collect_conditions (Conditions.cons m cs) into =
      collect_conditions cs (collect_matcher_fields m into)

abbrev pub is_body_field : Text → Bool
is_body_field field = text_eq field (js "body") || text_eq field (js "rawBodyBase64")

unfoldable pub matcher_uses_body : Matcher → Bool
matcher_uses_body m = any is_body_field (collect_matcher_fields m [])

unfoldable mutual
  pub matcher_has_script : Matcher → Bool
  matcher_has_script (Matcher.script s) = true
  matcher_has_script (Matcher.all cs) = conditions_have_script cs
  matcher_has_script (Matcher.any cs) = conditions_have_script cs
  matcher_has_script (Matcher.not m) = matcher_has_script m
  matcher_has_script (Matcher.regex field pattern flags) = false

  pub conditions_have_script : Conditions → Bool
  conditions_have_script Conditions.nil = false
  conditions_have_script (Conditions.cons m cs) = matcher_has_script m || conditions_have_script cs

abbrev pub is_trailer_field : Text → Bool
is_trailer_field field =
    text_eq field (js "grpc.status")
    || text_eq field (js "status")
    || starts_with field (js "grpc.trailer.")

unfoldable pub matcher_uses_trailers : Matcher → Bool
matcher_uses_trailers m =
    if matcher_has_script m then true else any is_trailer_field (collect_matcher_fields m [])
