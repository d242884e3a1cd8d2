-- ===== src/Proxy/Pipeline/TrackedReply.antt =====
-- What the response stage of an exchange does to its tally.
use morpheus_proxy.Prelude.{
  ◌≡◌, refl, arith, Bool, true, false, Option, none, some, Text, Result, ok, err, Bool-cases, inl,
  inr, is_some, String, ◌&&◌, if◌then◌else◌,
}
use morpheus_proxy.Json.{Fields}
use morpheus_proxy.Grpc.Frames.{Buffer}
use morpheus_proxy.Rules.Matcher.{HeaderMap}
use morpheus_proxy.Rules.Evaluate.{ResponseMatchResult, evaluate_response_match}
use morpheus_proxy.Rules.Types.{Rule, Delay, ResponseAction, ResponseStage, ScriptManipulatorAction}
use morpheus_proxy.Proxy.Patch.{PatchableHttpResponse, PatchOutcome}
use morpheus_proxy.Proxy.Body.{
  Settled, complete, prefix, failed, stream_aborted, stream_closed, limit_exceeded, new_reader,
}
use morpheus_proxy.Proxy.Upstream.{UpstreamReply}
use morpheus_proxy.Proxy.Pipeline.Exchange.{
  ProxyRuntime, Course, HttpExchange, Context, Vars, ManipulatorRunner, is_present, perform,
}
use morpheus_proxy.Proxy.Pipeline.Stages.{answer_error, execute_fault}
use morpheus_proxy.Proxy.Pipeline.Reply.{
  ResponseBody, Response, read_response_body, warn_skipped, delay_response, replace_response,
  manipulate, act_on_response, run_response_stage, send_response, on_settled, on_patch, patched,
  run_manipulator, interest, intercept_stage, optional_stage, on_match, read_if, send_body,
  with_error, dropped, unchanged, is_unavailable, upstream_draft, snapshot_of, on_replaced,
}
use morpheus_proxy.Proxy.Pipeline.Tally.{
  Untouched, Tracks, after-Tracked, if-Tracked, write_log-Written, answer-Over,
  execute_fault-Tracks,
}
use morpheus_proxy.Proxy.Pipeline.Tracked.{
  IsHttpResponseAction, IsHttpResponseStage, IsHttpIntercept, slept-Untouched,
}
use morpheus_proxy.Logging.TrafficLog.{Flagged}
use morpheus_proxy.Logging.Messages.{MessageDraft}
use morpheus_proxy.Proxy.Body.Limits.{comes_to_end, read_body_up_to-ends}

module _ (runtime : ProxyRuntime) (course : Course) (exchange : HttpExchange) (ctx : Context) where
  on_settled-Tracks :
      (reply : UpstreamReply) (settled : Option Settled)
      → is_some settled ≡ true
      → Tracks (on_settled runtime course exchange ctx reply settled)
  unfolding answer_error
  on_settled-Tracks reply none h v l = absurd (cc)
  on_settled-Tracks reply (some (complete body)) h v l = (l, refl)
  on_settled-Tracks reply (some (prefix bytes)) h v l = (l, refl)
  on_settled-Tracks reply (some (failed message)) h v l =
      answer-Over runtime course exchange ctx ResponseBody _ _ _ _
  on_settled-Tracks reply (some stream_aborted) h v l =
      answer-Over runtime course exchange ctx ResponseBody _ _ _ _
  on_settled-Tracks reply (some stream_closed) h v l =
      answer-Over runtime course exchange ctx ResponseBody _ _ _ _
  on_settled-Tracks reply (some limit_exceeded) h v l =
      answer-Over runtime course exchange ctx ResponseBody _ _ _ _

  read_if-Tracks :
      (buffered too_long streams : Bool) (reply : UpstreamReply) (settled : Option Settled)
      → is_some settled ≡ true
      → Tracks (read_if runtime course exchange ctx buffered too_long streams reply settled)
  read_if-Tracks true true streams reply settled h v l = (l, refl)
  read_if-Tracks true false streams reply settled h v l = on_settled-Tracks reply settled h v l
  read_if-Tracks false too_long true reply settled h v l = (l, refl)
  read_if-Tracks false too_long false reply settled h v l = (l, refl)

  pub read_response_body-Tracks :
      (reply : UpstreamReply)
      → comes_to_end reply.is_http2_stream reply.stream ≡ true
      → Tracks (read_response_body runtime course exchange ctx reply)
  unfolding read_response_body
  read_response_body-Tracks reply h v l =
      read_if-Tracks _ _ _ reply _
        (read_body_up_to-ends reply.is_http2_stream runtime.listener.max_response_body_buffer_bytes
          reply.stream new_reader h)
        v l

  pub warn_skipped-Tracks :
      (read : ResponseBody) → Tracks (warn_skipped runtime course exchange ctx read)
  unfolding warn_skipped
  warn_skipped-Tracks read v l =
      elim (Bool-cases (is_some read.skip_reason && (interest runtime course exchange ctx).need)) [
        | inl e ↦ rw e (l, refl)
        | inr e ↦ rw e (l, refl)
      ]

  delay_response-Untouched :
      (delay : Option Delay) (v : Vars)
      → v.logged ≡ false
      → Untouched v (delay_response runtime course exchange ctx delay v)
  unfolding delay_response
  delay_response-Untouched none v l = (l, refl)
  delay_response-Untouched (some delay) v l = slept-Untouched _ v l

  on_replaced-Tracks :
      (response : Response) (headers : HeaderMap) (result : Result Text Bool)
      → Tracks (on_replaced runtime course exchange ctx response headers result)
  on_replaced-Tracks response headers (err e) v l = (l, refl)
  on_replaced-Tracks response headers (ok true) v l = (l, refl)
  on_replaced-Tracks response headers (ok false) v l = (l, refl)

  patched-Tracks :
      (rule : Rule) (response : Response) (patchable : PatchableHttpResponse)
      (result : Result String PatchOutcome)
      → Tracks (patched runtime course exchange ctx rule response patchable result)
  patched-Tracks rule response patchable (err message) v l = (l, refl)
  patched-Tracks rule response patchable (ok outcome) v l =
      elim (Bool-cases (is_present outcome.ignored_fields)) [
        | inl e ↦ rw e (if-Tracked outcome.changed v _ _ (l, refl) (l, refl))
        | inr e ↦ rw e (if-Tracked outcome.changed v _ _ (l, refl) (l, refl))
      ]

  on_patch-Tracks :
      (rule : Rule) (response : Response) (result : Result Text Fields)
      → Tracks (on_patch runtime course exchange ctx rule response result)
  on_patch-Tracks rule response (err message) v l = (l, refl)
  on_patch-Tracks rule response (ok patch) v l = patched-Tracks rule response _ _ v l

  run_manipulator-Tracks :
      (runner : Option ManipulatorRunner) (rule : Rule) (action : ScriptManipulatorAction)
      (response : Response)
      → Tracks (run_manipulator runtime course exchange ctx runner rule action response)
  run_manipulator-Tracks none rule action response v l = (l, refl)
  run_manipulator-Tracks (some run) rule action response v l =
      on_patch-Tracks rule response _ (record v { registry = _ }) l

  manipulate-Tracks :
      (rule : Rule) (action : ScriptManipulatorAction) (read : ResponseBody) (response : Response)
      → Tracks (manipulate runtime course exchange ctx rule action read response)
  unfolding manipulate
  manipulate-Tracks rule action read response v l =
      elim (Bool-cases (is_unavailable runtime course exchange ctx read)) [
        | inl e ↦ rw e (l, refl)
        | inr e ↦ rw e (run_manipulator-Tracks runtime.manipulator_runner rule action response v l)
      ]

  dropped-Untouched :
      (reply : UpstreamReply) (read : ResponseBody) (v : Vars)
      → v.logged ≡ false
      → Untouched v (record (dropped runtime course exchange ctx read v) {
        upstream = upstream_draft runtime course exchange ctx reply read;
      })
  dropped-Untouched reply read v l = elim (Bool-cases (is_some read.body)) [
    | inl e ↦ rw e (l, refl)
    | inr e ↦ rw e (l, refl)
  ]

  act_on_response-Tracks :
      (rule : Rule) (action : Option ResponseAction) (reply : UpstreamReply) (read : ResponseBody)
      (response : Response)
      → IsHttpResponseAction action
      → Tracks (act_on_response runtime course exchange ctx rule action reply read response)
  unfolding act_on_response replace_response
  act_on_response-Tracks rule none reply read response h v l = (l, refl)
  act_on_response-Tracks rule (some (ResponseAction.fault fault)) reply read response h v l =
      after-Tracked (execute_fault runtime course exchange ctx {A = Response} fault) v
        (record (dropped runtime course exchange ctx read v) {
          upstream = upstream_draft runtime course exchange ctx reply read;
        })
        (execute_fault-Tracks runtime course exchange ctx Response fault h)
        (dropped-Untouched reply read v l)
  act_on_response-Tracks rule (some (ResponseAction.response_replace action)) reply read response h
        v l =
      on_replaced-Tracks response _ _ v l
  act_on_response-Tracks rule (some (ResponseAction.script_manipulator action)) reply read response
        h v l =
      manipulate-Tracks rule action read response v l

  with_error-Untouched :
      (rule : Rule) (error : Option Text) (v : Vars)
      → v.logged ≡ false
      → Untouched v (with_error runtime course exchange ctx rule error v)
  with_error-Untouched rule none v l = (l, refl)
  with_error-Untouched rule (some message) v l = (l, refl)

  matched-Tracks :
      (rule : Rule) (stage : ResponseStage) (reply : UpstreamReply) (read : ResponseBody)
      → IsHttpResponseAction stage.action
      → Tracks (λ v.
        act_on_response runtime course exchange ctx rule stage.action reply read
          (unchanged runtime course exchange ctx reply read)
          (delay_response runtime course exchange ctx stage.delay v))
  matched-Tracks rule stage reply read h v l =
      after-Tracked
        (act_on_response runtime course exchange ctx rule stage.action reply read
          (unchanged runtime course exchange ctx reply read))
        v (delay_response runtime course exchange ctx stage.delay v)
        (act_on_response-Tracks rule stage.action reply read
          (unchanged runtime course exchange ctx reply read) h)
        (delay_response-Untouched stage.delay v l)

  on_match-Tracks :
      (rule : Rule) (stage : ResponseStage) (reply : UpstreamReply) (read : ResponseBody)
      (result : ResponseMatchResult)
      → IsHttpResponseAction stage.action
      → Tracks (on_match runtime course exchange ctx rule stage reply read result)
  on_match-Tracks rule stage reply read result h v l =
      let w = with_error runtime course exchange ctx rule result.error v in
      let u = with_error-Untouched rule result.error v l in
      elim (Bool-cases result.matched) [
        | inl e ↦ rw e (
            after-Tracked
              (λ v.
                act_on_response runtime course exchange ctx rule stage.action reply read
                  (unchanged runtime course exchange ctx reply read)
                  (delay_response runtime course exchange ctx stage.delay v))
              v w (matched-Tracks rule stage reply read h) u)
        | inr e ↦ rw e u
      ]

  optional_stage-Tracks :
      (rule : Rule) (stage : Option ResponseStage) (reply : UpstreamReply) (read : ResponseBody)
      → IsHttpResponseStage stage
      → Tracks (optional_stage runtime course exchange ctx rule stage reply read)
  optional_stage-Tracks rule none reply read h v l = (l, refl)
  optional_stage-Tracks rule (some stage) reply read h v l =
      let (result, registry) =
        evaluate_response_match runtime.re runtime.script_runner course.matched_at rule
          runtime.listener.protocol ctx.request
          (snapshot_of runtime course exchange ctx
            (unchanged runtime course exchange ctx reply read))
          (course.while_upstream v.registry) in
      after-Tracked (on_match runtime course exchange ctx rule stage reply read result) v
        (record v { registry = registry }) (on_match-Tracks rule stage reply read result h)
        (l, refl)

  intercept_stage-Tracks :
      (rule : Option Rule) (reply : UpstreamReply) (read : ResponseBody)
      → IsHttpIntercept rule
      → Tracks (intercept_stage runtime course exchange ctx rule reply read)
  intercept_stage-Tracks none reply read h v l = (l, refl)
  intercept_stage-Tracks (some rule) reply read h v l =
      optional_stage-Tracks rule rule.response reply read h.1 v l

  pub run_response_stage-Tracks :
      (reply : UpstreamReply) (read : ResponseBody)
      → IsHttpIntercept ctx.evaluation.intercept_rule
      → Tracks (run_response_stage runtime course exchange ctx reply read)
  unfolding run_response_stage
  run_response_stage-Tracks reply read h v l =
      intercept_stage-Tracks ctx.evaluation.intercept_rule reply read h v l

  send_body-Tracks :
      (reply : UpstreamReply) (read : ResponseBody) (response : Response) (body : Option Buffer)
      → Tracks (send_body runtime course exchange ctx reply read response body)
  send_body-Tracks reply read response none v l =
      let h = write_log-Written runtime course exchange ctx _ (perform _ v) in
      (h.0, h.1, omega arith)
  send_body-Tracks reply read response (some body) v l =
      let h = write_log-Written runtime course exchange ctx _ (perform _ v) in
      (h.0, h.1, omega arith)

  kept-Untouched :
      (changed : Bool) (upstream : Option (Flagged MessageDraft)) (v : Vars)
      → v.logged ≡ false
      → Untouched v (if changed then record v { upstream = upstream } else v)
  kept-Untouched true upstream v l = (l, refl)
  kept-Untouched false upstream v l = (l, refl)

  pub send_response-Tracks :
      (reply : UpstreamReply) (read : ResponseBody) (response : Response)
      → Tracks (send_response runtime course exchange ctx reply read response)
  unfolding send_response
  send_response-Tracks reply read response v l =
      after-Tracked (send_body runtime course exchange ctx reply read response response.body) v
        (if response.changed
          then record v { upstream = upstream_draft runtime course exchange ctx reply read }
          else v)
        (send_body-Tracks reply read response response.body) (kept-Untouched response.changed _ v l)
