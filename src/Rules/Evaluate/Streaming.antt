-- ===== src/Rules/Evaluate/Streaming.antt =====
-- Streaming traffic: the evaluation does not depend on a body that it cannot have.
use morpheus_proxy.Prelude.{
  ◌≡◌, refl, Bool, true, false, List, [], ◌∷◌, All, arith, Bool-cases, inl, Result, Text, inr, ◌∙◌,
  ok, ap, err,
}
use morpheus_proxy.Rules.Types.{Rule}
use morpheus_proxy.Rules.Matcher.{matcher_uses_body, matcher_has_script, RuleStateView}
use morpheus_proxy.Rules.Matcher.Bodies.{BodyFields, eval_matcher-with_bodies}
use morpheus_proxy.Rules.Consume.{Registry, view}
use morpheus_proxy.Rules.Evaluate.{
  EvaluateOptions, RequestEvaluation, is_skipped, request_input, judge_rule, evaluate_rule,
  evaluate_rules, evaluate_request, no_rules,
}

abbrev pub with_body : BodyFields → EvaluateOptions → EvaluateOptions
with_body b opts = record opts {
  request = record (opts.request) { body = b.body; raw_body_base64 = b.raw_body_base64 };
}

skipped-streaming :
    (opts : EvaluateOptions) (rule : Rule)
    → opts.streaming ≡ true
    → is_skipped opts rule ≡ false
    → matcher_uses_body rule.match ≡ false
skipped-streaming opts rule h e = ground arith

judge_rule-with_body :
    (b : BodyFields) (opts : EvaluateOptions) (rule : Rule) (answer : Result Text Bool)
    (reg : Registry) (acc : RequestEvaluation)
    → judge_rule (with_body b opts) rule answer reg acc ≡ judge_rule opts rule answer reg acc
unfolding judge_rule
judge_rule-with_body b opts rule (ok true) reg acc = refl
judge_rule-with_body b opts rule (ok false) reg acc = refl
judge_rule-with_body b opts rule (err e) reg acc = refl

-- A rule that is not skipped looks at no body.
abbrev pub IgnoresBody : EvaluateOptions → Rule → Type 0
IgnoresBody opts rule =
    is_skipped opts rule ≡ false
    → (matcher_uses_body rule.match ≡ false) × (matcher_has_script rule.match ≡ false)

evaluate_rule-with_body :
    (b : BodyFields) (opts : EvaluateOptions) (rule : Rule) (reg : Registry)
    (acc : RequestEvaluation)
    → IgnoresBody opts rule
    → evaluate_rule (with_body b opts) rule reg acc ≡ evaluate_rule opts rule reg acc
unfolding evaluate_rule
evaluate_rule-with_body b opts rule reg acc h = elim (Bool-cases (is_skipped opts rule)) [
  | inl e ↦ rw e
  | inr e ↦ rw e (
      judge_rule-with_body b opts rule _ _ acc
      ∙ ap (λ answer. judge_rule opts rule answer (opts.meanwhile rule reg') acc)
          (eval_matcher-with_bodies opts.re opts.script_runner b b (request_input opts state)
            rule.match (h e).0 (h e).1))
]
  where
    state : RuleStateView
    state = (view (opts.readings rule).viewed rule reg).1

    reg' : Registry
    reg' = (view (opts.readings rule).viewed rule reg).0

pub evaluate_rules-with_body :
    (b : BodyFields) (opts : EvaluateOptions) (rules : List Rule) (reg : Registry)
    (acc : RequestEvaluation)
    → All (IgnoresBody opts) rules
    → evaluate_rules (with_body b opts) rules reg acc ≡ evaluate_rules opts rules reg acc
unfolding evaluate_rules
evaluate_rules-with_body b opts [] reg acc h = refl
evaluate_rules-with_body b opts (x ∷ xs) reg acc h = rw (
  evaluate_rule-with_body b opts x reg acc h.0,
  evaluate_rules-with_body b opts xs (evaluate_rule opts x reg acc).registry
      (evaluate_rule opts x reg acc).evaluation h.1,
)

streaming-IgnoresBody :
    (opts : EvaluateOptions) (rules : List Rule)
    → opts.streaming ≡ true
    → All (λ r. matcher_has_script r.match ≡ false) rules
    → All (IgnoresBody opts) rules
streaming-IgnoresBody opts [] h ks = tt
streaming-IgnoresBody opts (x ∷ xs) h ks =
    ((λ e. (skipped-streaming opts x h e, ks.0)), streaming-IgnoresBody opts xs h ks.1)

-- Where the traffic streams and no matcher runs a script, the outcome and all counters are the same
-- whatever body the request has: no rule matches by a body that was not read.
pub evaluate_request-with_body :
    (b : BodyFields) (opts : EvaluateOptions) (rules : List Rule) (reg : Registry)
    → opts.streaming ≡ true
    → All (λ r. matcher_has_script r.match ≡ false) rules
    → evaluate_request (with_body b opts) rules reg ≡ evaluate_request opts rules reg
unfolding evaluate_request
evaluate_request-with_body b opts rules reg h ks =
    evaluate_rules-with_body b opts rules reg no_rules (streaming-IgnoresBody opts rules h ks)
