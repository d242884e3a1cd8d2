-- ===== src/Proxy/Body/Interest.antt =====
-- Which bodies are read: the loop as a disjunction, and what it means for the evaluation.
use morpheus_proxy.Prelude.{◌≡◌, Bool, false, ◌&&◌, ◌||◌, List, [], ◌∷◌, any, All, arith, sym, ◌∙◌}
use morpheus_proxy.Rules.Types.{Rule}
use morpheus_proxy.Rules.Matcher.Bodies.{BodyFields}
use morpheus_proxy.Rules.Consume.{Registry}
use morpheus_proxy.Rules.Evaluate.{EvaluateOptions, evaluate_request, no_rules}
use morpheus_proxy.Rules.Evaluate.Streaming.{with_body, IgnoresBody, evaluate_rules-with_body}
use morpheus_proxy.Proxy.Body.{
  interest_loop, request_body_interest, rule_needs_request_body, wants_request_body,
}

abbrev needs : List Rule → Bool
needs rules = any (λ rule. rule.enabled && rule_needs_request_body rule) rules

abbrev wants : List Rule → Bool
wants rules =
    any (λ rule. rule.enabled && (wants_request_body rule || rule_needs_request_body rule)) rules

interest_loop-any :
    (rules : List Rule) (want : Bool)
    → ((interest_loop rules want).need ≡ needs rules)
      × (((interest_loop rules want).want || (interest_loop rules want).need)
          ≡ (want || wants rules))
unfolding interest_loop
interest_loop-any [] want = ground arith
interest_loop-any (rule ∷ rules) want =
    ground (
      arith,
      interest_loop-any rules want,
      interest_loop-any rules (want || wants_request_body rule),
    )

-- A request body is needed exactly if an enabled rule needs it, and wanted exactly if an enabled rule
-- needs it, captures, or acts on the request or the response: stopping early loses nothing.
pub request_body_interest-any :
    (rules : List Rule)
    → ((request_body_interest rules).need
        ≡ any (λ rule. rule.enabled && rule_needs_request_body rule) rules)
      × ((request_body_interest rules).want
          ≡ any
              (λ rule. rule.enabled && (wants_request_body rule || rule_needs_request_body rule))
              rules)
unfolding request_body_interest
request_body_interest-any rules = interest_loop-any rules false

needs-IgnoresBody :
    (opts : EvaluateOptions) (rules : List Rule)
    → needs rules ≡ false
    → All (IgnoresBody opts) rules
unfolding rule_needs_request_body
needs-IgnoresBody opts [] h = tt
needs-IgnoresBody opts (rule ∷ rules) h =
    ((λ e. ground arith), needs-IgnoresBody opts rules (ground arith))

-- Where no request body is needed, the evaluation of the rules has the same outcome and the same
-- counters whatever body the request has: a body that passes unread changes nothing.
pub request_body_interest-evaluate_request :
    (b : BodyFields) (opts : EvaluateOptions) (rules : List Rule) (reg : Registry)
    → (request_body_interest rules).need ≡ false
    → evaluate_request (with_body b opts) rules reg ≡ evaluate_request opts rules reg
unfolding evaluate_request
request_body_interest-evaluate_request b opts rules reg h =
    evaluate_rules-with_body b opts rules reg no_rules
      (needs-IgnoresBody opts rules (sym (request_body_interest-any rules).0 ∙ h))
