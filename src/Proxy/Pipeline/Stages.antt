-- ===== src/Proxy/Pipeline/Stages.antt =====
-- The request stage of src/proxy/pipeline.ts, its faults, and the way to the upstream.
use morpheus_proxy.Prelude.{
  ℕ, Bool, true, false, Option, none, some, List, [], ◌∷◌, ◌++◌, Text, js, Result, ok, err, length,
  to_string, if◌then◌else◌, suc,
}
use morpheus_proxy.Grpc.Frames.{Buffer}
use morpheus_proxy.Rules.Types.{
  Rule, Delay, FaultSpec, ConnectionMode, RequestAction, RequestStage, RewriteOperation,
}
use morpheus_proxy.Rules.Matcher.{HeaderMap, one}
use morpheus_proxy.Logging.Messages.{MessageDraft}
use morpheus_proxy.Logging.TrafficLog.{Flagged}
use morpheus_proxy.Proxy.Headers.{header_value, set_header, strip_hop_by_hop}
use morpheus_proxy.Proxy.Actions.{
  RewritableRequest, RewriteResult, apply_rewrite_operations, compute_delay,
}
use morpheus_proxy.Proxy.Upstream.{
  UpstreamRequestInit, UpstreamReply, UpstreamFailure, UpstreamFailureReason, StreamBody, whole,
  joined, untouched, parse_upstream, UpstreamTarget,
}
use morpheus_proxy.Proxy.Pipeline.Exchange.{
  ProxyRuntime, Course, HttpExchange, Context, Vars, Flow, Effect, go, stop, throw, perform,
  empty_draft, write_log, join_path,
}
use Prim.Native.Nat.{zero}

-- `toHeaderMap`
abbrev entries_as_headers : List (Text × Text) → HeaderMap
entries_as_headers [] = []
entries_as_headers ((name, value) ∷ entries) = (name, one value) ∷ entries_as_headers entries

abbrev pub to_header_map : Option (List (Text × Text)) → HeaderMap
to_header_map none = []
to_header_map (some entries) = entries_as_headers entries

abbrev pub or_else : {A : Type 0} → Option A → A → A
or_else none a = a
or_else (some b) a = b

abbrev pub optional_or : {A : Type 0} → Option A → Option A → Option A
optional_or none o = o
optional_or (some a) o = some a

-- The headers with the length of the body.
abbrev pub with_length : Buffer → HeaderMap → HeaderMap
with_length body headers = set_header headers (js "content-length") (one (to_string (length body)))

-- `applyDelay` sleeps only if there is something to wait for.
abbrev pub slept : ℕ → Vars → Vars
slept zero v = v
slept (suc ms) v = perform (Effect.sleep (suc ms)) v

abbrev pub received : Bool → MessageDraft → Option (Flagged MessageDraft)
received flag draft = some (record { message = draft; flag = flag })

abbrev pub request_of : Option Rule → Option RequestStage
request_of none = none
request_of (some rule) = rule.request

module _ (runtime : ProxyRuntime) (course : Course) (exchange : HttpExchange) (ctx : Context) where
  abbrev pub log_return : {A : Type 0} → MessageDraft → Flow A
  log_return draft v = stop (write_log runtime course exchange ctx draft v)

  -- A response that the proxy makes, and its entry.
  unfoldable pub answer : {A : Type 0} → (status : ℕ) → HeaderMap → Buffer → Flow A
  answer status headers body v =
      log_return
        (record empty_draft {
          status_code = some status;
          headers = headers;
          body = some body;
          content_type = header_value headers (js "content-type");
        })
        (perform (Effect.respond status headers body) v)

  abbrev skipped : Text → MessageDraft
  skipped reason = record empty_draft { body_skipped_reason = some reason }

  abbrev mode_name : ConnectionMode → Text
  mode_name ConnectionMode.close = js "close"
  mode_name ConnectionMode.reset = js "reset"

  abbrev is_reset : ConnectionMode → Bool
  is_reset ConnectionMode.close = false
  is_reset ConnectionMode.reset = true

  abbrev end_timeout : Option ℕ → Vars → Vars
  end_timeout none v = v
  end_timeout (some ms) v = perform (Effect.destroy false) (perform (Effect.sleep ms) v)

  abbrev faulted : Vars → Vars
  faulted v = record v { flags = record v.flags { fault = true } }

  -- A fault always returns; the status of gRPC, which is not for this listener, writes no entry.
  unfoldable pub execute_fault : {A : Type 0} → FaultSpec → Flow A
  unfolding answer
  execute_fault (FaultSpec.http_response status headers body) v =
      let bytes = runtime.platform.to_utf8 (or_else body []) in
      answer status (with_length bytes (to_header_map headers)) bytes (faulted v)
  execute_fault (FaultSpec.connection mode) v = stop (
      perform (Effect.destroy (is_reset mode)) (
        write_log runtime course exchange ctx (skipped (js "connection_" ++ mode_name mode))
          (faulted v)))
  execute_fault (FaultSpec.timeout duration) v = stop (
      end_timeout duration
        (write_log runtime course exchange ctx (skipped (js "timeout_fault")) (faulted v)))
  execute_fault (FaultSpec.grpc_status status message metadata) v =
      stop (perform (Effect.destroy false) (faulted v))

  unfoldable pub delay_request : Option Delay → Vars → Vars
  delay_request none v = v
  delay_request (some delay) v =
      let plan = compute_delay delay 0 in
      let w = slept plan.wait_ms v in
      record w {
        flags = record w.flags { delayed = true };
        timing = record w.timing { delay_ms = some plan.wait_ms };
      }

  -- What is forwarded: `forwardPath`, `forwardQuery`, `forwardHeaders` and `forwardBody`.
  abbrev pub original : RewritableRequest
  original = record {
    path = or_else ctx.request.path [];
    query = or_else ctx.request.query [];
    headers = exchange.headers;
    body = ctx.body;
  }

  abbrev forwarded_draft : RewritableRequest → (body_modified : Bool) → Flagged MessageDraft
  forwarded_draft request body_modified = record {
    message = record empty_draft {
      method = some exchange.method;
      path = some (join_path request.path request.query);
      headers = request.headers;
      body = if body_modified then request.body else none;
      content_type = header_value exchange.headers (js "content-type");
    };
    flag = true;
  }

  abbrev pub rewritten : RewritableRequest → RewriteResult → Flow RewritableRequest
  rewritten request result v =
      if result.modified
      then go request (record v {
        flags = record v.flags { modified = true };
        forwarded = some (forwarded_draft request result.body_modified);
      })
      else go request v

  abbrev pub on_rewriting : RewritableRequest → Result Text RewriteResult → Flow RewritableRequest
  on_rewriting request (err e) v = throw e v
  on_rewriting request (ok result) v =
      rewritten (record request { body = optional_or request.body ctx.body }) result v

  unfoldable pub rewrite_request : List RewriteOperation → Flow RewritableRequest
  rewrite_request operations v =
      let rewriting = apply_rewrite_operations runtime.re runtime.platform operations original in
      on_rewriting rewriting.request rewriting.result v

  unfoldable pub act_on_request : Option RequestAction → Flow RewritableRequest
  unfolding answer execute_fault rewrite_request
  act_on_request none v = go original v
  act_on_request (some (RequestAction.mock_response response)) v =
      let bytes = runtime.platform.to_utf8 (or_else response.body []) in
      answer (or_else response.status_code 200) (with_length bytes (to_header_map response.headers))
        bytes (record v { flags = record v.flags { mock = true } })
  act_on_request (some (RequestAction.fault fault)) v = execute_fault fault v
  act_on_request (some (RequestAction.request_rewrite operations)) v = rewrite_request operations v

  abbrev pub run_stage : Option RequestStage → Flow RewritableRequest
  run_stage none v = go original v
  run_stage (some stage) v = act_on_request stage.action (delay_request stage.delay v)

  unfoldable pub run_request_stage : Flow RewritableRequest
  unfolding act_on_request delay_request
  run_request_stage v = run_stage (request_of ctx.evaluation.intercept_rule) v

  abbrev forwarded_body : Option Buffer → Option Buffer → Option Buffer → Option StreamBody
  forwarded_body (some body) tail request_body = some (whole body)
  forwarded_body none (some prefix) request_body = some (joined prefix)
  forwarded_body none none none = some untouched
  forwarded_body none none (some body) = none

  unfoldable pub upstream_request : RewritableRequest → UpstreamRequestInit
  upstream_request request = record {
    method = exchange.method;
    path = join_path request.path request.query;
    authority = exchange.authority;
    headers = strip_hop_by_hop request.headers;
    body = forwarded_body request.body ctx.tail ctx.body;
    timeout_ms = runtime.upstream_timeout_ms;
  }

  abbrev reason_name : UpstreamFailureReason → Text
  reason_name UpstreamFailureReason.connect_failed = js "connect_failed"
  reason_name UpstreamFailureReason.timeout = js "timeout"
  reason_name UpstreamFailureReason.reset = js "reset"

  abbrev status_of : UpstreamFailureReason → ℕ
  status_of UpstreamFailureReason.connect_failed = 502
  status_of UpstreamFailureReason.timeout = 504
  status_of UpstreamFailureReason.reset = 502

  -- The response to a failure of the upstream, and its entry.
  unfoldable pub answer_error :
      {A : Type 0} → (status : ℕ) → (error message : Text) → Option (Flagged MessageDraft) → Flow A
  unfolding answer
  answer_error status error message upstream v =
      let body = runtime.platform.to_utf8 (runtime.error_json error message) in
      answer status
        ((js "content-type", one (js "application/json"))
          ∷ (js "x-morpheus-error", one error)
          ∷ (js "content-length", one (to_string (length body)))
          ∷ [])
        body (record v { flags = record v.flags { upstream_error = true }; upstream = upstream })

  abbrev pub on_reply : Result UpstreamFailure UpstreamReply → Flow UpstreamReply
  on_reply (err failure) v =
      let reason = or_else failure.reason UpstreamFailureReason.reset in
      answer_error (status_of reason) (js "upstream_" ++ reason_name reason) failure.message
        (received false empty_draft) v
  on_reply (ok reply) v =
      go reply
        (record v { timing = record v.timing { upstream_duration_ms = some course.upstream_ms } })

  abbrev pub on_target : RewritableRequest → Option UpstreamTarget → Flow UpstreamReply
  on_target request none v = throw (js "unsupported upstream URL: " ++ runtime.listener.upstream) v
  on_target request (some target) v =
      let sent = upstream_request request in
      on_reply (runtime.send_to_upstream target sent) (perform (Effect.send sent) v)

  unfoldable pub forward : RewritableRequest → Flow UpstreamReply
  unfolding answer_error
  forward request v = on_target request (parse_upstream runtime.listener.upstream) v
