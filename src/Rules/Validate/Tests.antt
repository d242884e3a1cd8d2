-- ===== src/Rules/Validate/Tests.antt =====
-- The theorems about src/rules/validate.ts at concrete inputs, and runs of the code.
use morpheus_proxy.Prelude.{
  ◌≡◌, refl, true, false, none, some, [], ◌∷◌, Text, js, ok, pos, text_eq, starts_with, to_string,
  lookup,
}
use morpheus_proxy.Json.{Json, str, arr, obj, nil, cons, end, field}
use morpheus_proxy.Rules.Types.{
  is_terminal_request_action, Rule, Matcher, Protocol, RequestAction, RewriteOperation,
  RequestStage,
}
use morpheus_proxy.Rules.Matcher.{
  collect_matcher_fields, eval_script, matcher_uses_body, resolve_field, resolve_request_field,
  test_values, eval_matcher,
}
use morpheus_proxy.Rules.Matcher.Meaning.{holds}
use morpheus_proxy.Rules.Tests.{prefix_engine, seen}
use morpheus_proxy.Logging.Tests.{platform}
use morpheus_proxy.Proxy.Actions.{RewritableRequest, RewriteResult, apply_rewrite_operations}
use morpheus_proxy.Rules.Validate.Issues.{
  ◌>>=◌, switch, integer_in, optional, text_of, string_entries, string_record, valid_regex,
  is_filled, script_source,
}
use morpheus_proxy.Rules.Validate.Matchers.{
  field_rules, tabled_field, validate_field_for_stage, parse_regex, parse_script, both_parsed,
  typed_matcher, parse_matcher,
}
use morpheus_proxy.Rules.Validate.Actions.{
  parse_mode, parse_delay, parse_http_fault, parse_grpc_fault, parse_connection_fault,
  parse_timeout_fault, parse_fault, parse_script_timeout, refuse_keys, parse_http_mock,
  parse_grpc_mock, parse_mock,
}
use morpheus_proxy.Rules.Validate.Stages.{
  parse_set_header, parse_remove_header, parse_set_value, parse_replace_body,
  parse_rewrite_operation, parse_operations, parse_rewrite, parse_mock_action, parse_request_fault,
  parse_request_action, is_header_target, parse_response_replace, parse_manipulator,
  parse_response_fault, parse_response_action, parse_consume,
}
use morpheus_proxy.Proxy.Headers.{trim}
use morpheus_proxy.Logging.Mask.{inherited_names}
use morpheus_proxy.Rules.Validate.{
  parse_id, parse_text, parse_enabled, parse_priority, check_version, parse_protocol,
  parse_request_stage, parse_response_stage, parse_logging, iso_or_empty, parse_parts,
  head_findings, cross_findings, all_findings, all_warnings, issues_of, made_rule, hook_issues,
  accept, conclude, finish, validate_object, ValidateEnv, checked, thrown, RuleValidationResult,
  validate_rule, is_id, generated_id,
}
use morpheus_proxy.Rules.Validate.Judged.{Judged, validate_rule-Judged}
use morpheus_proxy.Rules.Validate.Running.{
  ScriptsAnswer, validate_rule-eval_matcher, validate_rule-apply_rewrite_operations,
}

abbrev env : ValidateEnv
env = record {
  re = prefix_engine;
  uuid = js "0f8c2a11-aaaa";
  is_date = λ t. false;
  script_max_timeout_ms = some 1000;
  grpc_body_validator = none;
}

abbrev path_matcher : Json
path_matcher = obj (
    field (js "type") (str (js "regex"))
      (field (js "field") (str (js "path")) (field (js "pattern") (str (js "/users")) end)))

abbrev rewrites : Json
rewrites = obj (
    field (js "action")
      (obj (
        field (js "type") (str (js "request_rewrite")) (
          field (js "operations")
            (arr (
              cons
                (obj
                  (field (js "op") (str (js "set_path")) (field (js "value") (str (js "/v2")) end)))
                nil))
            end)))
      end)

-- A rule without an id.
abbrev given_rule : Json
given_rule = obj (
    field (js "protocol") (str (js "http"))
      (field (js "match") path_matcher (field (js "request") rewrites end)))

abbrev stage : RequestStage
stage = record {
  delay = none;
  action = some (RequestAction.request_rewrite (RewriteOperation.set_path (js "/v2") ∷ []));
}

abbrev rule : Rule
rule = record {
  schema_version = 1;
  id = generated_id env.uuid;
  name = [];
  description = [];
  enabled = true;
  priority = pos 0;
  protocol = Protocol.http;
  match = Matcher.regex (js "path") (js "/users") none;
  request = some stage;
  response = none;
  consume = none;
  logging = record { capture = false };
  created_at = [];
  updated_at = [];
}

abbrev result : RuleValidationResult
result = record { rule = some rule; errors = []; warnings = [] }

abbrev asked_request : RewritableRequest
asked_request = record { path = js "/users"; query = []; headers = []; body = none }

validation : Unit {0}
unfolding ◌>>=◌ switch integer_in optional text_of string_entries string_record valid_regex
    is_filled script_source field_rules tabled_field validate_field_for_stage parse_regex
    parse_script both_parsed typed_matcher parse_matcher parse_mode parse_delay parse_http_fault
    parse_grpc_fault parse_connection_fault parse_timeout_fault parse_fault parse_script_timeout
    refuse_keys parse_http_mock parse_grpc_mock parse_mock parse_set_header parse_remove_header
    parse_set_value parse_replace_body parse_rewrite_operation parse_operations parse_rewrite
    parse_mock_action parse_request_fault parse_request_action is_header_target
    parse_response_replace parse_manipulator parse_response_fault parse_response_action
    parse_consume is_id generated_id parse_id parse_text parse_enabled parse_priority check_version
    parse_protocol parse_request_stage parse_response_stage parse_logging iso_or_empty parse_parts
    head_findings cross_findings all_findings all_warnings issues_of made_rule hook_issues accept
    conclude finish validate_object validate_rule trim js text_eq starts_with to_string lookup
    inherited_names matcher_uses_body is_terminal_request_action resolve_field resolve_request_field
    eval_matcher test_values collect_matcher_fields eval_script
validation = tt

validate_tests : validate_rule env given_rule ≡ checked result
unfolding validation
validate_tests = refl

validate_rule-Judged_example : Judged env (validate_rule env given_rule)
unfolding is_id generated_id js
validate_rule-Judged_example = validate_rule-Judged env given_rule refl

validate_rule-eval_matcher_example :
    eval_matcher prefix_engine (some (λ s input. ok true)) seen rule.match
    ≡ ok (holds prefix_engine (λ s. true) seen rule.match)
unfolding validation ScriptsAnswer
validate_rule-eval_matcher_example =
    validate_rule-eval_matcher env given_rule result rule (some (λ s input. ok true)) (λ s. true)
      seen refl refl refl tt

-- The pattern "(" is refused with and without flags.
global :
    (p : Text)
    → prefix_engine.syntax_error p [] ≡ none
    → prefix_engine.syntax_error p (js "g") ≡ none
global p h = h

validate_rule-apply_rewrite_operations_example :
    (flags : RewriteResult) × ((apply_rewrite_operations prefix_engine platform
        (RewriteOperation.set_path (js "/v2") ∷ [])
        asked_request).result
      ≡ ok flags)
unfolding validation
validate_rule-apply_rewrite_operations_example =
    validate_rule-apply_rewrite_operations env platform given_rule result rule stage
      (RewriteOperation.set_path (js "/v2") ∷ []) asked_request global refl refl refl refl refl

-- A field spelled like a member of Object.prototype ends the validation with a TypeError.
thrown_test :
    validate_rule env (
      obj (
        field (js "protocol") (str (js "http")) (
          field
            (js "match")
            (obj (
              field
                (js "type")
                (str (js "regex"))
                (field (js "field") (str (js "constructor")) (field (js "pattern") (str []) end))))
            end)))
    ≡ thrown
unfolding validation
thrown_test = refl
