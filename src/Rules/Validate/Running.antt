-- ===== src/Rules/Validate/Running.antt =====
-- Accepted rules at work: their matchers and their rewrites do not throw.
use morpheus_proxy.Prelude.{
  ◌≡◌, refl, subst, Bool, true, Option, none, some, List, [], ◌∷◌, Text, js, All, Result, ok, err,
  inl, inr, Bool-cases, text_eq, ℕ,
}
use morpheus_proxy.Json.{Json}
use morpheus_proxy.Rules.Types.{
  Rule, Matcher, Conditions, Protocol, Stage, ScriptMatcher, RewriteOperation, RequestAction,
  RequestStage,
}
use morpheus_proxy.Rules.Matcher.{
  RegExp, MatchInput, ScriptMatcherRunner, eval_matcher, eval_script, HeaderMap,
}
use morpheus_proxy.Rules.Matcher.Meaning.{holds, LeavesAnswer, AllAnswer, eval_matcher-holds}
use morpheus_proxy.Logging.Messages.{Platform}
use morpheus_proxy.Proxy.Actions.{
  RewritableRequest, Rewriting, RewriteResult, rewrite, replace_body, apply_rewrite_operations,
  followed, combined,
}
use morpheus_proxy.Rules.Validate.{
  ValidateEnv, checked, RuleValidationResult, validate_rule, is_id, generated_id,
}
use morpheus_proxy.Rules.Validate.Valid.{
  ValidMatcher, ValidConditions, AllValid, ValidOperation, ValidRule, ValidRequestAction, Present,
  ValidRequestStage,
}
use morpheus_proxy.Rules.Validate.Judged.{Judged, JudgedAt, validate_rule-Judged}

-- The rule of a result is well formed.
accepted :
    (env : ValidateEnv) (input : Json) (r : RuleValidationResult) (rule : Rule)
    → is_id (generated_id env.uuid) ≡ true
    → validate_rule env input ≡ checked r
    → r.rule ≡ some rule
    → ValidRule env rule
accepted env input r rule g h k = at (subst (Judged env) h (validate_rule-Judged env input g)) k
  where
    at : Judged env (checked r) → r.rule ≡ some rule → ValidRule env rule
    at j e = (subst (λ o. JudgedAt env o r.errors) e j).0

-- Every script of the matcher answers with its verdict; of other scripts nothing is said.
module _ (runner : Option ScriptMatcherRunner) (verdict : ScriptMatcher → Bool)
    (input : MatchInput) where
  unfoldable mutual
    pub ScriptsAnswer : Matcher → Type 0
    ScriptsAnswer (Matcher.regex name pattern' flags) = Unit
    ScriptsAnswer (Matcher.all cs) = AllScriptsAnswer cs
    ScriptsAnswer (Matcher.any cs) = AllScriptsAnswer cs
    ScriptsAnswer (Matcher.not m) = ScriptsAnswer m
    ScriptsAnswer (Matcher.script s) = eval_script runner s input ≡ ok (verdict s)

    pub AllScriptsAnswer : Conditions → Type 0
    AllScriptsAnswer Conditions.nil = Unit
    AllScriptsAnswer (Conditions.cons m cs) = ScriptsAnswer m × AllScriptsAnswer cs

module _ (re : RegExp) (stage : Stage) (protocol : Protocol) (runner : Option ScriptMatcherRunner)
    (verdict : ScriptMatcher → Bool) (input : MatchInput) where
  mutual
    unfolding ValidMatcher LeavesAnswer ScriptsAnswer

    leaves_answer :
        (m : Matcher)
        → ValidMatcher re stage protocol m
        → ScriptsAnswer runner verdict input m
        → LeavesAnswer re runner verdict input m
    leaves_answer (Matcher.regex name pattern' flags) h k = h.1
    leaves_answer (Matcher.all cs) h k = conditions_answer cs h k
    leaves_answer (Matcher.any cs) h k = conditions_answer cs h k
    leaves_answer (Matcher.not m) h k = leaves_answer m h k
    leaves_answer (Matcher.script s) h k = k

    conditions_answer :
        (cs : Conditions)
        → ValidConditions re stage protocol cs
        → AllScriptsAnswer runner verdict input cs
        → AllAnswer re runner verdict input cs
    conditions_answer Conditions.nil h k = absurd h
    conditions_answer (Conditions.cons m cs) h k = (leaves_answer m h.0 k.0, all_answer cs h.1 k.1)

    all_answer :
        (cs : Conditions)
        → AllValid re stage protocol cs
        → AllScriptsAnswer runner verdict input cs
        → AllAnswer re runner verdict input cs
    all_answer Conditions.nil h k = tt
    all_answer (Conditions.cons m cs) h k = (leaves_answer m h.0 k.0, all_answer cs h.1 k.1)

-- The matcher of an accepted rule never throws, on whatever request on which the scripts of this
-- matcher, if it has any, answer, and provided that a generated id is an id: it returns the Boolean
-- combination of its leaves.
pub validate_rule-eval_matcher :
    (env : ValidateEnv) (input : Json) (r : RuleValidationResult) (rule : Rule)
    (runner : Option ScriptMatcherRunner) (verdict : ScriptMatcher → Bool) (seen : MatchInput)
    → is_id (generated_id env.uuid) ≡ true
    → validate_rule env input ≡ checked r
    → r.rule ≡ some rule
    → ScriptsAnswer runner verdict seen rule.match
    → eval_matcher env.re runner seen rule.match ≡ ok (holds env.re verdict seen rule.match)
validate_rule-eval_matcher env input r rule runner verdict seen g h k answers =
    let valid = accepted env input r rule g h k in
    eval_matcher-holds env.re runner verdict seen rule.match (
      leaves_answer env.re Stage.request rule.protocol runner verdict seen rule.match valid.match
        answers)

-- The result of a rewriting is no error.
abbrev Succeeds : Result Text RewriteResult → Type 0
Succeeds (ok flags) = Unit
Succeeds (err e) = ⊥

replace_body-Succeeds :
    (re : RegExp) (platform : Platform) (from to : Text) (body : List ℕ)
    (request : RewritableRequest)
    → re.syntax_error from (js "g") ≡ none
    → Succeeds (replace_body re platform from to body request).result
unfolding replace_body
replace_body-Succeeds re platform from to body request h =
    elim (Bool-cases
      (text_eq (re.replace_all from (platform.from_utf8 body) to) (platform.from_utf8 body))) [
        | inl e ↦ rw (replace_body, h, e) tt
        | inr e ↦ rw (replace_body, h, e) tt
      ]

combined-Succeeds :
    (flags : RewriteResult) (r : Result Text RewriteResult)
    → Succeeds r
    → Succeeds (combined flags r)
combined-Succeeds flags (ok rest) h = tt
combined-Succeeds flags (err e) h = h

followed-Succeeds :
    (middle : RewritableRequest) (r : Result Text RewriteResult) (rest : Rewriting)
    → Succeeds r
    → Succeeds rest.result
    → Succeeds (followed (record { request = middle; result = r }) rest).result
followed-Succeeds middle (err e) rest h k = h
followed-Succeeds middle (ok flags) rest h k = combined-Succeeds flags rest.result k

module _ (re : RegExp) (protocol : Protocol) (platform : Platform)
    (global : (p : Text) → re.syntax_error p [] ≡ none → re.syntax_error p (js "g") ≡ none) where
  body-Succeeds :
      (from to path query : Text) (headers : HeaderMap) (body : Option (List ℕ))
      → re.syntax_error from [] ≡ none
      → Succeeds
          (rewrite re platform
            (RewriteOperation.replace_body from to)
            (record { path = path; query = query; headers = headers; body = body })).result
  unfolding rewrite
  body-Succeeds from to path query headers none h = tt
  body-Succeeds from to path query headers (some body) h =
      replace_body-Succeeds re platform from to body _ (global from h)

  rewrite-Succeeds :
      (op : RewriteOperation) (request : RewritableRequest)
      → ValidOperation re protocol op
      → Succeeds (rewrite re platform op request).result
  unfolding rewrite
  rewrite-Succeeds (RewriteOperation.set_header name value) request h = tt
  rewrite-Succeeds (RewriteOperation.remove_header name) request h = tt
  rewrite-Succeeds (RewriteOperation.set_path value) request h =
      elim (Bool-cases (text_eq request.path value)) [ inl e ↦ rw e tt | inr e ↦ rw e tt ]
  rewrite-Succeeds (RewriteOperation.set_query value) request h =
      elim (Bool-cases (text_eq request.query value)) [ inl e ↦ rw e tt | inr e ↦ rw e tt ]
  rewrite-Succeeds (RewriteOperation.replace_body from to) request h =
      body-Succeeds from to request.path request.query request.headers request.body h.1

  operations-Succeeds :
      (ops : List RewriteOperation) (request : RewritableRequest)
      → All (ValidOperation re protocol) ops
      → Succeeds (apply_rewrite_operations re platform ops request).result
  unfolding apply_rewrite_operations
  operations-Succeeds [] request h = tt
  operations-Succeeds (op ∷ ops) request h =
      followed-Succeeds (rewrite re platform op request).request
        (rewrite re platform op request).result
        (apply_rewrite_operations re platform ops (rewrite re platform op request).request)
        (rewrite-Succeeds op request h.0)
        (operations-Succeeds ops (rewrite re platform op request).request h.1)

ok_of_Succeeds :
    (r : Result Text RewriteResult) → Succeeds r → (flags : RewriteResult) × (r ≡ ok flags)
ok_of_Succeeds (ok flags) h = (flags, refl)
ok_of_Succeeds (err e) h = absurd h

-- The rewrite of an accepted rule never throws, on whatever request, provided that a generated id is
-- an id and that a pattern which is an expression without flags is one with the flag `g` too.
pub validate_rule-apply_rewrite_operations :
    (env : ValidateEnv) (platform : Platform) (input : Json) (r : RuleValidationResult)
    (rule : Rule) (stage : RequestStage) (ops : List RewriteOperation) (request : RewritableRequest)
    → ((p : Text) → env.re.syntax_error p [] ≡ none → env.re.syntax_error p (js "g") ≡ none)
    → is_id (generated_id env.uuid) ≡ true
    → validate_rule env input ≡ checked r
    → r.rule ≡ some rule
    → rule.request ≡ some stage
    → stage.action ≡ some (RequestAction.request_rewrite ops)
    → (flags : RewriteResult) × ((apply_rewrite_operations env.re platform ops request).result
        ≡ ok flags)
validate_rule-apply_rewrite_operations env platform input r rule stage ops request global g h k s
      a =
    let valid = accepted env input r rule g h k in
    let in_stage = subst (Present (ValidRequestStage env rule.protocol)) s valid.request in
    let in_action = subst (Present (ValidRequestAction env.re rule.protocol)) a in_stage.1 in
    ok_of_Succeeds _
      (operations-Succeeds env.re rule.protocol platform global ops request in_action.1)
