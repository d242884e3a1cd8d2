-- ===== src/Rules/Tests.antt =====
-- The theorems about src/rules at concrete inputs, and runs of the code.
use Prim.Native.Nat.{min}
use morpheus_proxy.Prelude.{
  ◌≡◌, refl, inl, true, false, none, some, List, [], ◌∷◌, Text, js, ok, err, pos, negsuc, Perm,
  values, IsSorted, lookup, if◌then◌else◌, text_eq, starts_with, is_some, ltb, ◌-◌, to_string,
  insert, arith, remove, sort,
}
use morpheus_proxy.Rules.Types.{
  Rule, Matcher, Conditions, Protocol, RequestAction, Stage, is_observation_rule,
}
use morpheus_proxy.Rules.Matcher.{
  RegExp, RequestSnapshot, MatchInput, HeaderValue, eval_matcher, resolve_field,
  resolve_request_field, header_values, test_values, eval_script, collect_matcher_fields,
  matcher_uses_body, matcher_has_script,
}
use morpheus_proxy.Rules.Matcher.Bodies.{BodyFields, with_bodies, eval_matcher-with_bodies}
use morpheus_proxy.Rules.Matcher.Meaning.{holds, eval_matcher-holds, LeavesAnswer}
use morpheus_proxy.Rules.Consume.{
  Registry, try_consume, state_for, remaining, fresh_state, maybe_reset, record_hit, view, reset,
}
use morpheus_proxy.Rules.Store.{
  RuleStore, initial, snapshot, compare_rules, stamped, fail, import_rules, revision_conflict, get,
  ImportMode, kept, computed_snapshot,
}
use morpheus_proxy.Rules.Store.Commands.{Command, creates, deletes, reads, run, apply}
use morpheus_proxy.Rules.Consume.Budget.{
  applied, Call, attempts, attempt, applied-eq-min, look, step,
}
use morpheus_proxy.Rules.Store.Revisions.{run-revision, Leaves, apply-Leaves, apply-conflict}
use morpheus_proxy.Rules.Store.Coherence.{Coherent, snapshot-IsSorted, run-initial-Coherent}
use morpheus_proxy.Rules.Evaluate.{
  EvaluateOptions, evaluate_request, evaluate_rules, describe_rule_action,
}
use morpheus_proxy.Rules.Evaluate.Selection.{
  Selected, evaluate_request-Selected, evaluate_request-append,
}
use morpheus_proxy.Rules.Evaluate.Streaming.{with_body, evaluate_request-with_body}
use morpheus_proxy.Rules.Store.Notices.{notify, apply-fresh}
use morpheus_proxy.Rules.Store.Contents.{stamped_or, find_by_id, get-import_rules}
use morpheus_proxy.Rules.Consume.Counters.{try_consume-remaining}

-- An engine that finds a pattern at the start of a value; the pattern "(" is no expression.
abbrev pub prefix_engine : RegExp
prefix_engine = record {
  syntax_error = λ pattern flags. if text_eq pattern (js "(") then some (js "bad") else none;
  test = λ pattern flags value. starts_with value pattern;
  replace_all = λ pattern value replacement. value;
}

abbrev on_path : Matcher
on_path = Matcher.regex (js "path") (js "/users") none

abbrev not_posted : Matcher
not_posted = Matcher.all (
    Conditions.cons on_path
      (Conditions.cons (Matcher.not (Matcher.regex (js "method") (js "POST") none)) Conditions.nil))

abbrev pub asked : RequestSnapshot
asked = record {
  id = js "q";
  method = some (js "GET");
  host = some (js "api");
  path = some (js "/users/7");
  query = some [];
  headers = (js "accept", HeaderValue.one (js "text/html")) ∷ [];
  body = some (js "x");
  raw_body_base64 = none;
  grpc = none;
}

abbrev pub seen : MatchInput
seen = record {
  protocol = Protocol.http;
  stage = Stage.request;
  request = asked;
  response = none;
  rule_state = record { hits = 0; remaining = none };
}

abbrev pub other_body : BodyFields
other_body = record { body = none; raw_body_base64 = some (js "eA==") }

-- A consumable intercept rule.
abbrev pub twice : Rule
twice = record {
  schema_version = 1;
  id = js "a";
  name = [];
  description = [];
  enabled = true;
  priority = pos 5;
  protocol = Protocol.http;
  match = not_posted;
  request = some (record { delay = none; action = some (RequestAction.request_rewrite []) });
  response = none;
  consume = some (record { times = 2; reset_after_ms = none });
  logging = record { capture = true };
  created_at = [];
  updated_at = [];
}

-- An observation rule of lower priority.
abbrev pub watching : Rule
watching = record twice { id = js "b"; priority = negsuc 0; request = none; consume = none }

abbrev now : Text
now = js "2026-01-01T00:00:00.000Z"

abbrev history : List Command
history = creates now watching ∷ reads ∷ creates now twice ∷ []

abbrev both : RuleStore
both = run history initial

rules : Unit {0}
unfolding js text_eq starts_with to_string lookup insert remove sort resolve_field
    resolve_request_field header_values test_values eval_script eval_matcher collect_matcher_fields
    matcher_uses_body matcher_has_script holds LeavesAnswer state_for maybe_reset try_consume
    record_hit remaining view reset step attempts applied compare_rules computed_snapshot snapshot
    run is_observation_rule describe_rule_action evaluate_request
rules = tt

eval_matcher-with_bodies_example :
    eval_matcher prefix_engine none (with_bodies other_body other_body seen) not_posted
    ≡ eval_matcher prefix_engine none seen not_posted
unfolding rules
eval_matcher-with_bodies_example =
    eval_matcher-with_bodies prefix_engine none other_body other_body seen not_posted refl refl

eval_matcher-holds_example :
    eval_matcher prefix_engine none seen not_posted
    ≡ ok (holds prefix_engine (λ s. false) seen not_posted)
unfolding rules
eval_matcher-holds_example =
    eval_matcher-holds prefix_engine none (λ s. false) seen not_posted (refl, (refl, tt))

eval_tests :
    (eval_matcher prefix_engine none seen not_posted ≡ ok true)
    × (eval_matcher prefix_engine none seen (Matcher.regex (js "body") (js "(") none)
        ≡ err (js "bad"))
unfolding rules
eval_tests = (refl, refl)

snapshot-IsSorted_example :
    ((snapshot both).1.revision ≡ both.revision_value)
    × Perm (snapshot both).1.rules (values both.rules)
    × IsSorted compare_rules (snapshot both).1.rules
snapshot-IsSorted_example = snapshot-IsSorted history

snapshot_test : (snapshot both).1.rules ≡ stamped now twice ∷ stamped now watching ∷ []
unfolding rules
snapshot_test = refl

run-initial-Coherent_example : Coherent both
run-initial-Coherent_example = run-initial-Coherent history

run-revision_example : (run (reads ∷ []) both).rules ≡ both.rules
unfolding rules
run-revision_example = run-revision (reads ∷ []) both refl

apply-Leaves_example : Leaves (Unit {0}) both (apply (deletes (js "b") none) both)
apply-Leaves_example = apply-Leaves (deletes (js "b") none) both

apply-conflict_example :
    apply (deletes (js "b") (some 9)) initial ≡ fail initial (revision_conflict 9 1)
apply-conflict_example = apply-conflict (deletes (js "b") (some 9)) initial 9 refl (omega arith)

abbrev renamed : Rule
renamed = record watching { name = js "n" }

get-import_rules_example :
    get (js "b") (import_rules now (renamed ∷ []) ImportMode.replace none both).store
    ≡ stamped_or now
        (find_by_id (js "b") (renamed ∷ []))
        (lookup (js "b") (kept ImportMode.replace both.rules))
unfolding rules import_rules
get-import_rules_example =
    get-import_rules now (js "b") (renamed ∷ []) ImportMode.replace none both refl

-- Two applications of `twice` have been counted.
abbrev spent : Registry
spent =
    (
      js "a",
      record { hits = 2; consumed = 2; last_consumed_at = some 40; last_matched_at = some 40 },
    )
    ∷ []

apply-fresh_example :
    state_for (js "b") (notify (apply (deletes (js "b") none) both).changed spent) ≡ fresh_state
unfolding rules apply
apply-fresh_example =
    apply-fresh (js "b") (deletes (js "b") none) both spent (stamped now watching) refl refl
      (ground arith)

abbrev calls : List Call
calls = attempt 1 2 twice ∷ attempt 3 3 twice ∷ look 4 twice ∷ attempt 5 6 twice ∷ []

applied-eq-min_example :
    applied (js "a") calls [] ≡ min (2 - (state_for (js "a") []).consumed) (attempts (js "a") calls)
applied-eq-min_example =
    applied-eq-min twice (record { times = 2; reset_after_ms = none }) refl refl calls []
      (inl refl, (inl refl, (inl refl, (inl refl, tt))))

applied_test : applied (js "a") calls [] ≡ 2
unfolding rules
applied_test = refl

try_consume-remaining_example :
    ((try_consume 10 11 twice []).1 ≡ ltb 0 2)
    × ((remaining (if ltb 0 2 then 12 else 10) twice (try_consume 10 11 twice []).0).1
        ≡ some (2 - 1))
unfolding rules
try_consume-remaining_example =
    try_consume-remaining 10 11 twice (record { times = 2; reset_after_ms = none }) [] refl 2 12
      refl refl

abbrev pub options : EvaluateOptions
options = record {
  protocol = Protocol.http;
  request = asked;
  script_runner = none;
  streaming = true;
  re = prefix_engine;
  readings = λ r. record { viewed = 1; checked = 1; stamped = 1; hit = 1; counted = 1 };
  meanwhile = λ r reg. reg;
}

evaluate_request-append_example : evaluate_request options (watching ∷ twice ∷ []) [] ≡ (
    if is_some (evaluate_request options (watching ∷ []) []).0.intercept_rule
    then evaluate_request options (watching ∷ []) []
    else evaluate_rules options
        (twice ∷ [])
        (evaluate_request options (watching ∷ []) []).1
        (evaluate_request options (watching ∷ []) []).0)
evaluate_request-append_example = evaluate_request-append options (watching ∷ []) (twice ∷ []) []

evaluate_request-Selected_example :
    Selected options (λ r. r.enabled ≡ true) (evaluate_request options (watching ∷ twice ∷ []) []).0
evaluate_request-Selected_example =
    evaluate_request-Selected options (λ r. r.enabled ≡ true) (watching ∷ twice ∷ []) []
      (refl, (refl, tt))

evaluate_request-with_body_example :
    evaluate_request (with_body other_body options) (watching ∷ twice ∷ []) []
    ≡ evaluate_request options (watching ∷ twice ∷ []) []
unfolding rules
evaluate_request-with_body_example =
    evaluate_request-with_body other_body options (watching ∷ twice ∷ []) [] refl (refl, (refl, tt))

-- The observation rule is captured, the next one intercepts, once it still may.
evaluate_tests :
    ((evaluate_request options (watching ∷ twice ∷ []) []).0.intercept_rule ≡ some twice)
    × ((evaluate_request options (watching ∷ twice ∷ []) []).0.capture_rules ≡ watching ∷ [])
    × ((evaluate_request options (watching ∷ twice ∷ []) spent).0.intercept_rule ≡ none)
unfolding rules
evaluate_tests = (refl, refl, refl)
