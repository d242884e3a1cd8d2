-- ===== src/Proxy/Pipeline.antt =====
-- src/proxy/pipeline.ts: one exchange from its request to its log entry. The children have the data,
-- the request stage with the forwarding, and the response stage.
pub mod Exchange
pub mod Stages
pub mod Reply
pub mod Tally
pub mod Tracked
pub mod TrackedReply
pub mod Once
pub mod Pass
mod Tests
use morpheus_proxy.Prelude.{
  ℕ, Bool, true, false, not, ◌&&◌, ◌||◌, Option, none, some, List, [], ◌∷◌, ◌++◌, Text, js, map,
  filter, length, to_string, is_some, if◌then◌else◌, ltb,
}
use morpheus_proxy.Grpc.Frames.{Buffer}
use morpheus_proxy.Rules.Types.{Rule, Stage, protocol_eq}
use morpheus_proxy.Rules.Matcher.{HeaderMap, one, RequestSnapshot}
use morpheus_proxy.Rules.Consume.{Registry}
use morpheus_proxy.Rules.Evaluate.{
  RequestEvaluation, EvaluateOptions, RuleErrorInfo, evaluate_request,
}
use morpheus_proxy.Logging.Messages.{MessageDraft}
use morpheus_proxy.Logging.TrafficLog.{TrafficEventDraft, LogOutcome, LoggingReason, TimingInfo}
use morpheus_proxy.Proxy.Body.{
  Settled, complete, prefix, failed, stream_aborted, stream_closed, limit_exceeded, BodyInterest,
  new_reader, read_body_up_to, request_body_interest,
}
use morpheus_proxy.Proxy.Pipeline.Exchange.{
  ProxyRuntime, Course, HttpExchange, Context, Vars, Flow, Flowed, Effect, Ended, going, returned,
  threw, waits, OutcomeFlags, go, stop, throw, perform, empty_draft, write_log, ◌>>=◌,
  content_length_of, push_error, is_present, split_raw_path, script_errors, outcome_text,
}
use morpheus_proxy.Proxy.Pipeline.Stages.{run_request_stage, forward, log_return, answer}
use morpheus_proxy.Proxy.Pipeline.Reply.{
  exceeds, read_response_body, warn_skipped, run_response_stage, send_response,
}

-- What the buffering of the request's body comes to: a rejection with 413, a client that gave up, a
-- stream that does not settle, or the body, the reason why it is not there, and what was read of it.
pub data BodyPhase : Type 0 where
  rejected aborted unsettled : BodyPhase
  ready : (body : Option Buffer) (skip_reason : Option Text) (tail : Option Buffer) → BodyPhase

abbrev pub is_active : ProxyRuntime → Rule → Bool
is_active runtime rule = rule.enabled && protocol_eq rule.protocol runtime.listener.protocol

abbrev pub falls_short : Buffer → Option ℕ → Bool
falls_short body none = false
falls_short body (some declared) = ltb (length body) declared

-- An empty body counts as none.
abbrev pub non_empty_body : Buffer → Option Buffer
non_empty_body [] = none
non_empty_body (b ∷ bs) = some (b ∷ bs)

abbrev pub on_settled : (need : Bool) → Option ℕ → Option Settled → BodyPhase
on_settled need declared none = unsettled
on_settled need declared (some (complete body)) =
    if falls_short body declared then aborted else ready (non_empty_body body) none none
on_settled need declared (some (prefix bytes)) =
    if need then rejected else ready none (some (js "limit_exceeded")) (some bytes)
on_settled need declared (some (failed message)) = aborted
on_settled need declared (some stream_aborted) = aborted
on_settled need declared (some stream_closed) = aborted
on_settled need declared (some limit_exceeded) = aborted

unfoldable pub read_request_body : ProxyRuntime → HttpExchange → BodyPhase
read_request_body runtime exchange =
    let active = filter (is_active runtime) runtime.rules in
    let interest = request_body_interest active in
    let limit = runtime.listener.max_request_body_buffer_bytes in
    let declared = content_length_of runtime.number exchange.headers in
    if not (is_present active) || (not interest.need && not interest.want)
    then ready none none none
    else if exceeds declared limit
    then (if interest.need then rejected else ready none (some (js "limit_exceeded")) none)
    else on_settled interest.need declared
        (read_body_up_to exchange.is_http2_stream limit exchange.stream new_reader).settled

abbrev pub no_flags : OutcomeFlags
no_flags = record {
  mock = false;
  fault = false;
  modified = false;
  delayed = false;
  upstream_error = false;
  client_aborted = false;
}

abbrev pub start : Registry → List Effect → Vars
start registry effects = record {
  flags = no_flags;
  timing = record { upstream_duration_ms = none; delay_ms = none; delay_skipped = none };
  rule_errors = [];
  forwarded = none;
  upstream = none;
  logged = false;
  registry = registry;
  effects = effects;
}

module _ (runtime : ProxyRuntime) (course : Course) (exchange : HttpExchange) where
  -- `reject413`
  abbrev pub reject : Registry → Flowed ⊥
  reject registry = stop (
      perform
        (Effect.respond 413 ((js "content-type", one (js "application/json")) ∷ []) (
          runtime.platform.to_utf8
            (runtime.limit_json runtime.listener.max_request_body_buffer_bytes)))
        (start registry []))

  abbrev text_body : Option Buffer → Option Text
  text_body none = none
  text_body (some body) = some (runtime.platform.from_utf8 body)

  abbrev base64_body : Option Buffer → Option Text
  base64_body none = none
  base64_body (some body) = some (runtime.platform.to_base64 body)

  unfoldable pub request_snapshot : Option Buffer → RequestSnapshot
  request_snapshot body = record {
    id = course.uuid;
    method = some exchange.method;
    host = some exchange.authority;
    path = some (split_raw_path exchange.raw_path).0;
    query = some (split_raw_path exchange.raw_path).1;
    headers = exchange.headers;
    body = text_body body;
    raw_body_base64 = base64_body body;
    grpc = none;
  }

  abbrev pub evaluate_options : Option Buffer → EvaluateOptions
  evaluate_options body = record {
    protocol = runtime.listener.protocol;
    request = request_snapshot body;
    script_runner = runtime.script_runner;
    streaming = not (is_some body);
    re = runtime.re;
    readings = course.readings;
    meanwhile = course.meanwhile;
  }

  abbrev pub is_loggable : RequestEvaluation → Bool
  is_loggable evaluation =
      is_some evaluation.intercept_rule
      || is_present evaluation.capture_rules
      || is_present evaluation.errors

  abbrev pub gone : MessageDraft
  gone = record empty_draft { body_skipped_reason = some (js "client_aborted") }

  abbrev pub aborted_entry : RequestEvaluation → TrafficEventDraft
  aborted_entry evaluation = record {
    started_at = course.started_at;
    ended_at = course.ended_at;
    protocol = runtime.listener.protocol;
    listener = runtime.listener.name;
    client = exchange.client;
    target = runtime.listener.upstream;
    request = record gone {
      method = some exchange.method;
      path = some exchange.raw_path;
      headers = exchange.headers;
    };
    forwarded_request = none;
    upstream_response = none;
    response = gone;
    outcome = LogOutcome.client_aborted;
    logging_reason = LoggingReason.client_aborted;
    matched_rules = evaluation.matched;
    rule_errors = some evaluation.errors;
    timing = none;
  }

  -- The client gave up in the middle of its body: the rules are evaluated without it.
  unfoldable pub abort : Registry → Flowed ⊥
  unfolding request_snapshot
  abort registry =
      let (evaluation, registry') =
        evaluate_request (evaluate_options none) runtime.rules registry in
      let loggable = is_loggable evaluation in
      let v = start registry' (
        script_errors evaluation.errors (
          Effect.record_request (if loggable then js "client_aborted" else js "passthrough")
            (map (λ m. m.id) evaluation.matched) none
          ∷ Effect.destroy false
          ∷ [])) in
      stop (if loggable then perform (Effect.add (aborted_entry evaluation)) v else v)

  abbrev error_rule : Option Rule → Text
  error_rule none = js "unknown"
  error_rule (some rule) = rule.id

  abbrev error_body : Buffer
  error_body = runtime.platform.to_utf8 (js "{\"error\":\"proxy_internal_error\"}")

  -- The `catch` of the stages.
  unfoldable pub on_error : Context → Text → Vars → Flowed ⊥
  unfolding answer
  on_error ctx message v =
      if v.logged
      then throw message v
      else if course.is_gone_at_error
      then log_return runtime course exchange ctx gone
          (record v { flags = record v.flags { client_aborted = true } })
      else answer runtime course exchange ctx 500
          ((js "content-type", one (js "application/json"))
            ∷ (js "content-length", one (to_string (length error_body)))
            ∷ [])
          error_body
          (push_error
            (record {
              rule_id = error_rule ctx.evaluation.intercept_rule;
              stage = Stage.response;
              error = message;
            })
            v)

  abbrev pub caught : Context → Vars → Ended ⊥ → Flowed ⊥
  caught ctx v (going a) = absurd a
  caught ctx v returned = stop v
  caught ctx v (threw message) = on_error ctx message v
  caught ctx v waits = record { vars = v; ended = waits }

  -- The stages, in their order. None goes on behind the last one, which the type says.
  unfoldable pub run_stages : Context → Flow ⊥
  run_stages ctx = do
    request ← run_request_stage runtime course exchange ctx
    reply ← forward runtime course exchange ctx request
    read ← read_response_body runtime course exchange ctx reply
    warned ← warn_skipped runtime course exchange ctx read
    response ← run_response_stage runtime course exchange ctx reply warned
    send_response runtime course exchange ctx reply warned response

  abbrev pub context_of : Option Buffer → Option Text → Option Buffer → RequestEvaluation → Context
  context_of body skip_reason tail evaluation = record {
    request = request_snapshot body;
    body = body;
    skip_reason = skip_reason;
    tail = tail;
    evaluation = evaluation;
  }

  -- The variables before the stages: the errors of the evaluation are kept.
  abbrev pub begin : RequestEvaluation → Registry → Vars
  begin evaluation registry = record (start registry []) { rule_errors = evaluation.errors }

  unfoldable pub proceed : Option Buffer → Option Text → Option Buffer → Registry → Flowed ⊥
  unfolding request_snapshot on_error
  proceed body skip_reason tail registry =
      let (evaluation, registry') =
        evaluate_request (evaluate_options body) runtime.rules registry in
      let ctx = context_of body skip_reason tail evaluation in
      let flowed = run_stages ctx (begin evaluation registry') in
      caught ctx flowed.vars flowed.ended

  abbrev pub handle_phase : BodyPhase → Registry → Flowed ⊥
  handle_phase rejected registry = reject registry
  handle_phase aborted registry = abort registry
  handle_phase unsettled registry = record { vars = start registry []; ended = waits }
  handle_phase (ready body skip_reason tail) registry = proceed body skip_reason tail registry

  unfoldable pub handle_http_exchange : Registry → Flowed ⊥
  unfolding abort proceed read_request_body
  handle_http_exchange registry = handle_phase (read_request_body runtime exchange) registry
