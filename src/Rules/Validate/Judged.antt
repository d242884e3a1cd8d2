-- ===== src/Rules/Validate/Judged.antt =====
-- What `validateRule` promises of its result.
use morpheus_proxy.Prelude.{
  ◌≡◌, refl, inl, inr, true, Option, none, some, List, [], ◌∷◌, ◌++◌, Text, is_some, Option-cases,
  arith, subst, Bool, ◌||◌, if◌then◌else◌, ◌<◌, false, not, ◌&&◌, length, ◌⊎◌, js, ◌≢◌,
}
use morpheus_proxy.Json.{Json, Fields}
use morpheus_proxy.Rules.Types.{Protocol, Rule, Stage, Matcher, is_observation_rule}
use morpheus_proxy.Rules.Validate.Issues.{get_key, is_plain_object}
use morpheus_proxy.Rules.Validate.Matchers.{Finding, Checked, type_error}
use morpheus_proxy.Rules.Validate.{
  ValidateEnv, is_id, generated_id, parse_id, given, parse_request_stage, Validation,
  cross_findings, accept, issues_of, all_findings, parse_response_stage, RuleValidationIssue,
  checked, head_findings, RuleParts, reject, thrown, hook_issues, reported, parse_parts, finish,
  with_issue, made_rule, validate_rule, rejected, validate_object, conclude, validate_fields,
}
use morpheus_proxy.Rules.Validate.Sound.{parse_delay-Valid}
use morpheus_proxy.Rules.Validate.SoundStages.{
  parse_request_action-Valid, parse_response_action-Valid, parse_consume-Valid,
}
use morpheus_proxy.Rules.Validate.SoundMatchers.{
  SoundAt, Sound, from_parsed-Sound, parse_matcher-Sound,
}
use morpheus_proxy.Rules.Validate.Valid.{
  Present, ValidRequestStage, ValidResponseStage, ValidRule, ValidMatcher, ValidConsume,
}

append-nil_parts : (es fs : List Finding) → es ++ fs ≡ [] → (es ≡ []) × (fs ≡ [])
append-nil_parts [] fs h = (refl, h)
append-nil_parts (e ∷ es) fs h = cc

Sound-some :
    {A : Type 0} (P : A → Type 0) (es : List Finding) (o : Option A) (a : A)
    → SoundAt P es o
    → es ≡ []
    → o ≡ some a
    → P a
Sound-some P [] none a s h k = absurd s
Sound-some P [] (some b) a s h k = subst P (cc) s
Sound-some P (e ∷ es) o a s h k = absurd (cc)

Sound-is_some :
    {A : Type 0} (P : A → Type 0) (es : List Finding) (o : Option A)
    → SoundAt P es o
    → es ≡ []
    → Present P o × (is_some o ≡ true)
Sound-is_some P [] none s h = absurd s
Sound-is_some P [] (some a) s h = (s, refl)
Sound-is_some P (e ∷ es) o s h = absurd (cc)

given-Present :
    {A : Type 0} (P : A → Type 0) (value : Option Json) (parse : Json → Checked A)
    → ((v : Json) → Sound P (parse v))
    → (given value parse).0 ≡ []
    → Present P (given value parse).1
given-Present P none parse s h = tt
given-Present P (some v) parse s h = (Sound-is_some P _ _ (s v) h).0

given-is_some :
    {A : Type 0} (P : A → Type 0) (value : Option Json) (parse : Json → Checked A)
    → ((v : Json) → Sound P (parse v))
    → (given value parse).0 ≡ []
    → is_some (given value parse).1 ≡ is_some value
given-is_some P none parse s h = refl
given-is_some P (some v) parse s h = (Sound-is_some P _ _ (s v) h).1

-- Of two fields, one that is there and sound has a value.
given-some :
    {A B : Type 0} (P : A → Type 0) (Q : B → Type 0) (value value' : Option Json)
    (parse : Json → Checked A) (parse' : Json → Checked B)
    → ((v : Json) → Sound P (parse v))
    → ((v : Json) → Sound Q (parse' v))
    → (given value parse).0 ≡ []
    → (given value' parse').0 ≡ []
    → (is_some value || is_some value') ≡ true
    → (is_some (given value parse).1 || is_some (given value' parse').1) ≡ true
given-some P Q value value' parse parse' s s' h h' e =
    rw (given-is_some P value parse s h, given-is_some Q value' parse' s' h') e

parse_id-IsId :
    (uuid : Text) (value : Option Json)
    → is_id (generated_id uuid) ≡ true
    → (parse_id uuid value).0 ≡ []
    → is_id (parse_id uuid value).1 ≡ true
unfolding parse_id
parse_id-IsId uuid none g h = g
parse_id-IsId uuid (some v) g h = ground arith

if_nil : (b : Bool) (e : Finding) → (if b then [] else e ∷ []) ≡ [] → b ≡ true
if_nil true e h = refl
if_nil false e h = cc

module _ (env : ValidateEnv) (protocol : Protocol) where
  parse_request_stage-Valid :
      (value : Option Json)
      → (parse_request_stage env protocol value).0 ≡ []
      → Present (ValidRequestStage env protocol) (parse_request_stage env protocol value).1
        × (is_some (parse_request_stage env protocol value).1 ≡ is_some value)
  unfolding parse_request_stage
  parse_request_stage-Valid none h = (tt, refl)
  parse_request_stage-Valid (some v) h = elim (Option-cases (is_plain_object (some v))) [
    | inl e ↦ absurd (ground arith)
    | inr (fs, e) ↦
        rw (parse_request_stage, e)
          (let parts = append-nil_parts _ _ (rw (parse_request_stage, e) at h) in
            let parts' = append-nil_parts _ _ parts.1 in
            (
              (
                given-Present _ (get_key "delay" fs) _
                    (λ d. from_parsed-Sound (parse_delay-Valid d _ _)) parts.0,
                given-Present _ (get_key "action" fs) _
                    (λ a. from_parsed-Sound (parse_request_action-Valid env.re a _ protocol))
                    parts'.0,
                given-some _ _ (get_key "delay" fs) (get_key "action" fs) _ _
                    (λ d. from_parsed-Sound (parse_delay-Valid d _ _))
                    (λ a. from_parsed-Sound (parse_request_action-Valid env.re a _ protocol))
                    parts.0 parts'.0 (if_nil _ _ parts'.1),
              ),
              refl,
            ))
  ]

  parse_response_stage-Valid :
      (value : Option Json)
      → (parse_response_stage env protocol value).0 ≡ []
      → Present (ValidResponseStage env protocol) (parse_response_stage env protocol value).1
        × (is_some (parse_response_stage env protocol value).1 ≡ is_some value)
  unfolding parse_response_stage
  parse_response_stage-Valid none h = (tt, refl)
  parse_response_stage-Valid (some v) h = elim (Option-cases (is_plain_object (some v))) [
    | inl e ↦ absurd (ground arith)
    | inr (fs, e) ↦
        rw (parse_response_stage, e)
          (let parts = append-nil_parts _ _ (rw (parse_response_stage, e) at h) in
            let parts' = append-nil_parts _ _ parts.1 in
            let parts'' = append-nil_parts _ _ parts'.1 in
            (
              (
                given-Present _ (get_key "match" fs) _
                    (λ m. parse_matcher-Sound env.re Stage.response protocol m _) parts.0,
                given-Present _ (get_key "delay" fs) _
                    (λ d. from_parsed-Sound (parse_delay-Valid d _ _)) parts'.0,
                given-Present _ (get_key "action" fs) _
                    (λ a.
                      from_parsed-Sound
                        (parse_response_action-Valid env.re env.script_max_timeout_ms a _ protocol))
                    parts''.0,
                given-some _ _ (get_key "delay" fs) (get_key "action" fs) _ _
                    (λ d. from_parsed-Sound (parse_delay-Valid d _ _))
                    (λ a.
                      from_parsed-Sound
                        (parse_response_action-Valid env.re env.script_max_timeout_ms a _ protocol))
                    parts'.0 parts''.0 (if_nil _ _ parts''.1),
              ),
              refl,
            ))
  ]

  -- Without findings across the fields, a rule with no stage captures.
  cross_findings-captures :
      (fs : Fields) (parts : RuleParts)
      → cross_findings env protocol fs parts ≡ []
      → (is_some (get_key "request" fs) || is_some (get_key "response" fs) || parts.capture.1)
        ≡ true
  unfolding cross_findings
  cross_findings-captures fs parts h = if_nil _ _ (append-nil_parts _ _ h).0

-- The parts of a rule in which nothing is found.
record Clean (env : ValidateEnv) (protocol : Protocol) (fs : Fields) (parts : RuleParts)
    : Type 0 where
  id : parts.id.0 ≡ []
  match : parts.match.0 ≡ []
  request : parts.request.0 ≡ []
  response : parts.response.0 ≡ []
  consume : parts.consume.0 ≡ []
  cross : cross_findings env protocol fs parts ≡ []

all_findings-Clean :
    (env : ValidateEnv) (protocol : Protocol) (fs : Fields) (parts : RuleParts)
    → all_findings env protocol fs parts ≡ []
    → Clean env protocol fs parts
unfolding all_findings head_findings
all_findings-Clean env protocol fs parts h =
    let (head, a) = append-nil_parts _ _ h in
    let (version, b) = append-nil_parts _ _ head in
    let (id, c) = append-nil_parts _ _ b in
    let (m, d) = append-nil_parts _ _ a in
    let (request, e) = append-nil_parts _ _ d in
    let (response, f) = append-nil_parts _ _ e in
    let (consume, g) = append-nil_parts _ _ f in
    let (capture, cross) = append-nil_parts _ _ g in
    record {
      id = id;
      match = m;
      request = request;
      response = response;
      consume = consume;
      cross = cross;
    }

-- What the end of a validation promises: a well-formed rule and no error, or an error and no rule.
abbrev pub JudgedAt : ValidateEnv → Option Rule → List RuleValidationIssue → Type 0
JudgedAt env none errors = 0 < length errors
JudgedAt env (some rule) errors = ValidRule env rule × (errors ≡ [])

abbrev pub Judged : ValidateEnv → Validation → Type 0
Judged env thrown = Unit
Judged env (checked r) = JudgedAt env r.rule r.errors

captures_of :
    (request response capture : Bool)
    → (request || response || capture) ≡ true
    → ((not request && not response) ≡ false) ⊎ (capture ≡ true)
captures_of true response capture h = inl refl
captures_of false true capture h = inl refl
captures_of false false capture h = inr h

rejected-Judged :
    (env : ValidateEnv) (e : RuleValidationIssue) (o : Option (List RuleValidationIssue))
    (warnings : List RuleValidationIssue)
    → Judged env (elim (with_issue e o) [ none ↦ thrown | some errors ↦ rejected errors warnings ])
rejected-Judged env e none warnings = tt
rejected-Judged env e (some es) warnings = omega arith

reject-Judged :
    (env : ValidateEnv) (e : Finding) (es : List Finding) (warnings : List RuleValidationIssue)
    → Judged env (reject (e ∷ es) warnings)
unfolding issues_of
reject-Judged env type_error es warnings = tt
reject-Judged env (reported e) es warnings = rejected-Judged env e (issues_of es) warnings

accept-Judged :
    (env : ValidateEnv) (rule : Rule) (warnings : List RuleValidationIssue)
    → ValidRule env rule
    → Judged env (accept env rule warnings)
unfolding accept
accept-Judged env rule warnings h = go (hook_issues env rule) refl
  where
    go :
        (es : List RuleValidationIssue)
        → hook_issues env rule ≡ es
        → Judged env (accept env rule warnings)
    go [] e = rw (accept, e) (h, refl)
    go (x ∷ es) e = rw (accept, e) (omega arith)

-- The rule that is made of parts in which nothing is found.
made_rule-Valid :
    (env : ValidateEnv) (protocol : Protocol) (fs : Fields) (m : Matcher)
    → is_id (generated_id env.uuid) ≡ true
    → Clean env protocol fs (parse_parts env protocol fs)
    → (parse_parts env protocol fs).match.1 ≡ some m
    → ValidRule env (made_rule env protocol fs (parse_parts env protocol fs) m)
unfolding made_rule parse_parts is_observation_rule
made_rule-Valid env protocol fs m g c e =
    let request = parse_request_stage-Valid env protocol (get_key "request" fs) c.request in
    let response = parse_response_stage-Valid env protocol (get_key "response" fs) c.response in
    record {
      version = refl;
      id = parse_id-IsId env.uuid (get_key "id" fs) g c.id;
      match =
          Sound-some (ValidMatcher env.re Stage.request protocol) _ _ m
            (parse_matcher-Sound env.re Stage.request protocol _ (js "match")) c.match e;
      request = request.0;
      response = response.0;
      consume =
          given-Present ValidConsume (get_key "consume" fs) _
            (λ v. from_parsed-Sound (parse_consume-Valid v)) c.consume;
      captures =
          captures_of _ _ _
            (rw (request.1, response.1) (cross_findings-captures env protocol fs _ c.cross));
    }

is_some-none : {A : Type 0} (o : Option A) → is_some o ≡ true → o ≢ none
is_some-none none h k = absurd (cc)
is_some-none (some a) h k = absurd (cc)

no_match :
    (env : ValidateEnv) (protocol : Protocol) (fs : Fields)
    → Clean env protocol fs (parse_parts env protocol fs)
    → (parse_parts env protocol fs).match.1 ≢ none
unfolding parse_parts
no_match env protocol fs c e =
    is_some-none _
      (Sound-is_some (ValidMatcher env.re Stage.request protocol) _ _
        (parse_matcher-Sound env.re Stage.request protocol _ (js "match")) c.match).1
      e

conclude-Judged :
    (env : ValidateEnv) (protocol : Protocol) (fs : Fields) (es : List Finding) (o : Option Matcher)
    → is_id (generated_id env.uuid) ≡ true
    → all_findings env protocol fs (parse_parts env protocol fs) ≡ es
    → (parse_parts env protocol fs).match.1 ≡ o
    → Judged env (conclude env protocol fs (parse_parts env protocol fs) es o)
unfolding conclude
conclude-Judged env protocol fs (e ∷ es) o g h k = reject-Judged env e es _
conclude-Judged env protocol fs [] none g h k =
    absurd (no_match env protocol fs (all_findings-Clean env protocol fs _ h) k)
conclude-Judged env protocol fs [] (some m) g h k =
    accept-Judged env _ _
      (made_rule-Valid env protocol fs m g (all_findings-Clean env protocol fs _ h) k)

-- Findings before others are some findings.
reject_more :
    (env : ValidateEnv) (es : List Finding) (e : Finding) → Judged env (reject (es ++ e ∷ []) [])
reject_more env [] e = reject-Judged env e [] []
reject_more env (x ∷ es) e = reject-Judged env x (es ++ e ∷ []) []

object-Judged :
    (env : ValidateEnv) (fs : Fields) (o : Option Protocol)
    → is_id (generated_id env.uuid) ≡ true
    → Judged env (validate_object env fs o)
unfolding validate_object finish
object-Judged env fs none g = reject_more env _ _
object-Judged env fs (some protocol) g = conclude-Judged env protocol fs _ _ g refl refl

-- A validation that ends without a TypeError has a well-formed rule and no error, or no rule and at
-- least one error, whatever the input: no ill-formed rule is accepted, and none is refused without a
-- reason. The generated id is assumed to be an id, which eight hexadecimal digits of a UUID make it.
pub validate_rule-Judged :
    (env : ValidateEnv) (input : Json)
    → is_id (generated_id env.uuid) ≡ true
    → Judged env (validate_rule env input)
unfolding validate_rule
validate_rule-Judged env input g = go (is_plain_object (some input))
  where
    go : (o : Option Fields) → Judged env (validate_fields env o)
    go none = omega arith
    go (some fs) = object-Judged env fs _ g
