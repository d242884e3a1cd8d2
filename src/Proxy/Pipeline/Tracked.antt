-- ===== src/Proxy/Pipeline/Tracked.antt =====
-- What the stages of an exchange do to its tally.
use morpheus_proxy.Prelude.{
  ℕ, zero, suc, ◌≡◌, refl, false, Option, none, some, List, Text, Result, ok, err, Bool-cases, inl,
  inr,
}
use morpheus_proxy.Rules.Types.{
  Rule, Delay, RequestAction, ResponseAction, RequestStage, ResponseStage, RewriteOperation,
}
use morpheus_proxy.Proxy.Actions.{RewritableRequest, RewriteResult}
use morpheus_proxy.Proxy.Upstream.{
  UpstreamReply, UpstreamFailure, parse_upstream, UpstreamTarget, UpstreamRequestInit,
}
use morpheus_proxy.Proxy.Pipeline.Exchange.{
  ProxyRuntime, Course, HttpExchange, Context, Vars, Effect, perform, Flow, followed_by, ◌>>=◌,
}
use morpheus_proxy.Proxy.Pipeline.Stages.{
  slept, delay_request, rewrite_request, act_on_request, run_request_stage, forward, answer_error,
  rewritten, request_of, run_stage, on_reply, on_rewriting, on_target, upstream_request,
  on_rewriting, on_target, upstream_request, answer,
}
use morpheus_proxy.Proxy.Pipeline.Tally.{
  Untouched, Tracks, after-Tracked, IsHttpFault, answer-Over, execute_fault-Tracks,
}

abbrev pub IsHttpRequestAction : Option RequestAction → Type 0
IsHttpRequestAction none = Unit
IsHttpRequestAction (some (RequestAction.mock_response r)) = Unit
IsHttpRequestAction (some (RequestAction.fault fault)) = IsHttpFault fault
IsHttpRequestAction (some (RequestAction.request_rewrite ops)) = Unit

abbrev pub IsHttpResponseAction : Option ResponseAction → Type 0
IsHttpResponseAction none = Unit
IsHttpResponseAction (some (ResponseAction.fault fault)) = IsHttpFault fault
IsHttpResponseAction (some (ResponseAction.response_replace a)) = Unit
IsHttpResponseAction (some (ResponseAction.script_manipulator a)) = Unit

abbrev pub IsHttpRequestStage : Option RequestStage → Type 0
IsHttpRequestStage none = Unit
IsHttpRequestStage (some stage) = IsHttpRequestAction stage.action

abbrev pub IsHttpResponseStage : Option ResponseStage → Type 0
IsHttpResponseStage none = Unit
IsHttpResponseStage (some stage) = IsHttpResponseAction stage.action

-- The rule has no fault of gRPC.
abbrev pub IsHttpRule : Rule → Type 0
IsHttpRule rule = IsHttpRequestStage rule.request × IsHttpResponseStage rule.response

abbrev pub IsHttpIntercept : Option Rule → Type 0
IsHttpIntercept none = Unit
IsHttpIntercept (some rule) = IsHttpRule rule

pub slept-Untouched : (ms : ℕ) (v : Vars) → v.logged ≡ false → Untouched v (slept ms v)
slept-Untouched zero v l = (l, refl)
slept-Untouched (suc ms) v l = (l, refl)

module _ (runtime : ProxyRuntime) (course : Course) (exchange : HttpExchange) (ctx : Context) where
  delay_request-Untouched :
      (delay : Option Delay) (v : Vars)
      → v.logged ≡ false
      → Untouched v (delay_request runtime course exchange ctx delay v)
  unfolding delay_request
  delay_request-Untouched none v l = (l, refl)
  delay_request-Untouched (some delay) v l = slept-Untouched _ v l

  rewritten-Tracks :
      (request : RewritableRequest) (result : RewriteResult)
      → Tracks (rewritten runtime course exchange ctx request result)
  rewritten-Tracks request result v l = elim (Bool-cases result.modified) [
    | inl e ↦ rw e (l, refl)
    | inr e ↦ rw e (l, refl)
  ]

  on_rewriting-Tracks :
      (request : RewritableRequest) (result : Result Text RewriteResult)
      → Tracks (on_rewriting runtime course exchange ctx request result)
  on_rewriting-Tracks request (err e) v l = (l, refl)
  on_rewriting-Tracks request (ok result) v l = rewritten-Tracks _ result v l

  rewrite_request-Tracks :
      (operations : List RewriteOperation)
      → Tracks (rewrite_request runtime course exchange ctx operations)
  unfolding rewrite_request
  rewrite_request-Tracks operations v l = on_rewriting-Tracks _ _ v l

  act_on_request-Tracks :
      (action : Option RequestAction)
      → IsHttpRequestAction action
      → Tracks (act_on_request runtime course exchange ctx action)
  unfolding act_on_request
  act_on_request-Tracks none h v l = (l, refl)
  act_on_request-Tracks (some (RequestAction.mock_response response)) h v l =
      answer-Over runtime course exchange ctx RewritableRequest _ _ _ _
  act_on_request-Tracks (some (RequestAction.fault fault)) h v l =
      execute_fault-Tracks runtime course exchange ctx RewritableRequest fault h v l
  act_on_request-Tracks (some (RequestAction.request_rewrite operations)) h v l =
      rewrite_request-Tracks operations v l

  stage-Tracks :
      (stage : Option RequestStage)
      → IsHttpRequestStage stage
      → Tracks (run_stage runtime course exchange ctx stage)
  stage-Tracks none h v l = (l, refl)
  stage-Tracks (some stage) h v l =
      after-Tracked (act_on_request runtime course exchange ctx stage.action) v
        (delay_request runtime course exchange ctx stage.delay v)
        (act_on_request-Tracks stage.action h) (delay_request-Untouched stage.delay v l)

  intercepted-Tracks :
      (rule : Option Rule)
      → IsHttpIntercept rule
      → Tracks (run_stage runtime course exchange ctx (request_of rule))
  intercepted-Tracks none h = stage-Tracks none tt
  intercepted-Tracks (some rule) h = stage-Tracks rule.request h.0

  pub run_request_stage-Tracks :
      IsHttpIntercept ctx.evaluation.intercept_rule
      → Tracks (run_request_stage runtime course exchange ctx)
  unfolding run_request_stage
  run_request_stage-Tracks h v l = intercepted-Tracks ctx.evaluation.intercept_rule h v l

  -- Behind the sending, only replies of the upstream are gone on with.
  module _ (next : UpstreamReply → Flow ⊥) where
    on_reply-Tracks :
        (result : Result UpstreamFailure UpstreamReply)
        → ((reply : UpstreamReply) → result ≡ ok reply → Tracks (next reply))
        → Tracks (λ v.
          let sent = on_reply runtime course exchange ctx result v in
          followed_by sent.vars sent.ended next)
    unfolding answer_error answer
    on_reply-Tracks (err failure) h v l =
        answer-Over runtime course exchange ctx UpstreamReply _ _ _ _
    on_reply-Tracks (ok reply) h v l =
        after-Tracked (next reply) v
          (record v { timing = record v.timing { upstream_duration_ms = some course.upstream_ms } })
          (h reply refl) (l, refl)

    on_target-Tracks :
        (request : RewritableRequest) (target : Option UpstreamTarget)
        → ((target : UpstreamTarget) (request : UpstreamRequestInit) (reply : UpstreamReply)
            → runtime.send_to_upstream target request ≡ ok reply
            → Tracks (next reply))
        → Tracks (λ v.
          let sent = on_target runtime course exchange ctx request target v in
          followed_by sent.vars sent.ended next)
    on_target-Tracks request none h v l = (l, refl)
    on_target-Tracks request (some target) h v l =
        let request' = upstream_request runtime course exchange ctx request in
        let result = runtime.send_to_upstream target request' in
        after-Tracked
          (λ w.
            let sent = on_reply runtime course exchange ctx result w in
            followed_by sent.vars sent.ended next)
          v (perform (Effect.send request') v) (on_reply-Tracks result (h target request'))
          (l, refl)

    pub forward-Tracks :
        (request : RewritableRequest)
        → ((target : UpstreamTarget) (request : UpstreamRequestInit) (reply : UpstreamReply)
            → runtime.send_to_upstream target request ≡ ok reply
            → Tracks (next reply))
        → Tracks (forward runtime course exchange ctx request >>= next)
    unfolding forward ◌>>=◌
    forward-Tracks request h v l =
        on_target-Tracks request (parse_upstream runtime.listener.upstream) h v l
