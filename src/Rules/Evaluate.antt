-- ===== src/Rules/Evaluate.antt =====
-- src/rules/evaluate.ts. The registry is passed along; what other requests do to it while a
-- matcher is awaited is the parameter `meanwhile`, and the readings of the clock are `readings`.
pub mod Selection
pub mod Streaming
use morpheus_proxy.Prelude.{
  ℕ, Bool, true, false, not, ◌&&◌, ◌||◌, Option, none, some, List, [], ◌∷◌, ◌++◌, Text, js, Result,
  ok, err, is_some, if◌then◌else◌,
}
use morpheus_proxy.Rules.Types.{
  Protocol, Stage, Rule, RequestAction, ResponseAction, RequestStage, ResponseStage, Matcher,
  is_observation_rule, protocol_eq,
}
use morpheus_proxy.Rules.Matcher.{
  RequestSnapshot, ResponseSnapshot, MatchInput, RegExp, ScriptMatcherRunner, RuleStateView,
  eval_matcher, matcher_uses_body,
}
use morpheus_proxy.Rules.Consume.{Registry, view, try_consume, record_hit, remaining}

pub record MatchedRuleInfo : Type 0 where
  pub id : Text
  pub action : Text
  pub consumed : Bool
  pub remaining : Option ℕ

pub record RuleErrorInfo : Type 0 where
  pub rule_id : Text
  pub stage : Stage
  pub error : Text

pub record RequestEvaluation : Type 0 where
  pub intercept_rule : Option Rule
  pub capture_rules : List Rule
  pub matched : List MatchedRuleInfo
  pub errors : List RuleErrorInfo

abbrev request_action_type : RequestAction → Text
request_action_type (RequestAction.mock_response r) = js "mock_response"
request_action_type (RequestAction.fault f) = js "fault"
request_action_type (RequestAction.request_rewrite ops) = js "request_rewrite"

abbrev response_action_type : ResponseAction → Text
response_action_type (ResponseAction.fault f) = js "fault"
response_action_type (ResponseAction.response_replace a) = js "response_replace"
response_action_type (ResponseAction.script_manipulator a) = js "script_manipulator"

-- `rule.request?.action`
abbrev request_action : Option RequestStage → Option RequestAction
request_action none = none
request_action (some stage) = stage.action

-- `rule.response?.action`
abbrev response_action : Option ResponseStage → Option ResponseAction
response_action none = none
response_action (some stage) = stage.action

describe_stages : Option RequestAction → Option ResponseAction → Text
describe_stages (some a) response = request_action_type a
describe_stages none (some a) = response_action_type a
describe_stages none none = js "delay"

unfoldable pub describe_rule_action : Rule → Text
unfolding describe_stages
describe_rule_action rule =
    if is_observation_rule rule
    then js "capture"
    else describe_stages (request_action rule.request) (response_action rule.response)

-- What the clock shows while one rule is evaluated: at the view of its state, at the check and the
-- stamp of its consumption, at its hit, and at the count of what remains.
pub record Readings : Type 0 where
  pub viewed : ℕ
  pub checked : ℕ
  pub stamped : ℕ
  pub hit : ℕ
  pub counted : ℕ

-- `opts` of `evaluateRequest`, less the rules and the registry, with the surroundings.
pub record EvaluateOptions : Type 0 where
  pub protocol : Protocol
  pub request : RequestSnapshot
  pub script_runner : Option ScriptMatcherRunner
  pub streaming : Bool
  pub re : RegExp
  pub readings : Rule → Readings
  pub meanwhile : Rule → Registry → Registry

abbrev pub no_rules : RequestEvaluation
no_rules = record { intercept_rule = none; capture_rules = []; matched = []; errors = [] }

-- Where a round of the loop leads: on to the next rule, or out by `break`.
pub record Round : Type 0 where
  pub evaluation : RequestEvaluation
  pub registry : Registry
  pub done : Bool

-- The rule is passed over before its matcher runs.
abbrev pub is_skipped : EvaluateOptions → Rule → Bool
is_skipped opts rule =
    not rule.enabled
    || not (protocol_eq rule.protocol opts.protocol)
    || (opts.streaming && matcher_uses_body rule.match)

abbrev pub request_input : EvaluateOptions → RuleStateView → MatchInput
request_input opts state = record {
  protocol = opts.protocol;
  stage = Stage.request;
  request = opts.request;
  response = none;
  rule_state = state;
}

-- The end of a round, once the rule has been consumed.
unfoldable pub apply_rule : EvaluateOptions → Rule → Registry → RequestEvaluation → Round
apply_rule opts rule reg acc =
    let now = opts.readings rule in
    let (reg', left) = remaining now.counted rule (record_hit now.hit rule reg) in
    let info : MatchedRuleInfo = record {
      id = rule.id;
      action = describe_rule_action rule;
      consumed = is_some rule.consume;
      remaining = left;
    } in
    if is_observation_rule rule
    then record {
      evaluation = record acc {
        capture_rules = acc.capture_rules ++ rule ∷ [];
        matched = acc.matched ++ info ∷ [];
      };
      registry = reg';
      done = false;
    }
    else record {
      evaluation = record acc { intercept_rule = some rule; matched = acc.matched ++ info ∷ [] };
      registry = reg';
      done = true;
    }

-- The rule's matcher held.
unfoldable pub match_rule : EvaluateOptions → Rule → Registry → RequestEvaluation → Round
unfolding apply_rule
match_rule opts rule reg acc =
    let now = opts.readings rule in
    let (reg', consumed) = try_consume now.checked now.stamped rule reg in
    if consumed
    then apply_rule opts rule reg' acc
    else record { evaluation = acc; registry = reg'; done = false }

-- The matcher's answer.
unfoldable pub judge_rule :
    EvaluateOptions → Rule → Result Text Bool → Registry → RequestEvaluation → Round
unfolding match_rule
judge_rule opts rule (err e) reg acc = record {
  evaluation = record acc {
    errors = acc.errors ++ record { rule_id = rule.id; stage = Stage.request; error = e } ∷ [];
  };
  registry = reg;
  done = false;
}
judge_rule opts rule (ok false) reg acc = record { evaluation = acc; registry = reg; done = false }
judge_rule opts rule (ok true) reg acc = match_rule opts rule reg acc

-- One round of the loop.
unfoldable pub evaluate_rule : EvaluateOptions → Rule → Registry → RequestEvaluation → Round
unfolding judge_rule
evaluate_rule opts rule reg acc =
    if is_skipped opts rule
    then record { evaluation = acc; registry = reg; done = false }
    else (let (reg', state) = view (opts.readings rule).viewed rule reg in
        judge_rule opts rule
          (eval_matcher opts.re opts.script_runner (request_input opts state) rule.match)
          (opts.meanwhile rule reg') acc)

unfoldable pub evaluate_rules :
    EvaluateOptions → List Rule → Registry → RequestEvaluation → RequestEvaluation × Registry
unfolding evaluate_rule
evaluate_rules opts [] reg acc = (acc, reg)
evaluate_rules opts (rule ∷ rules) reg acc =
    let round = evaluate_rule opts rule reg acc in
    let rest = evaluate_rules opts rules round.registry round.evaluation in
    if round.done then (round.evaluation, round.registry) else rest

unfoldable pub evaluate_request :
    EvaluateOptions → List Rule → Registry → RequestEvaluation × Registry
unfolding evaluate_rules
evaluate_request opts rules reg = evaluate_rules opts rules reg no_rules

pub record ResponseMatchResult : Type 0 where
  pub matched : Bool
  pub error : Option Text

abbrev response_match : Option ResponseStage → Option Matcher
response_match none = none
response_match (some stage) = stage.match

abbrev to_match_result : Result Text Bool → ResponseMatchResult
to_match_result (ok b) = record { matched = b; error = none }
to_match_result (err e) = record { matched = false; error = some e }

-- `at` is the clock at the view of the rule's state.
unfoldable pub evaluate_response_match :
    RegExp
    → Option ScriptMatcherRunner
    → (at : ℕ) → Rule
    → Protocol
    → RequestSnapshot
    → ResponseSnapshot
    → Registry
    → ResponseMatchResult × Registry
evaluate_response_match re runner at rule protocol request response reg =
    elim (response_match rule.response) [
      | none ↦ (record { matched = true; error = none }, reg)
      | some matcher ↦
          let (reg', state) = view at rule reg in
          (
            to_match_result (
                eval_matcher re runner
                  (record {
                    protocol = protocol;
                    stage = Stage.response;
                    request = request;
                    response = some response;
                    rule_state = state;
                  })
                  matcher),
            reg',
          )
    ]
