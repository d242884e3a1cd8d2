-- ===== src/Proxy/Pipeline/Reply.antt =====
-- The response stage of src/proxy/pipeline.ts: the body of the reply, the rule's response stage, and
-- what the client is sent.
use morpheus_proxy.Prelude.{
  ℕ, Bool, true, false, not, ◌&&◌, ◌||◌, Option, none, some, [], Text, String, js, Result, ok, err,
  is_some, if◌then◌else◌, ltb, starts_with,
}
use morpheus_proxy.Json.{Fields}
use morpheus_proxy.Grpc.Frames.{Buffer}
use morpheus_proxy.Rules.Types.{
  Rule, Stage, Delay, ResponseStage, ResponseAction, ResponseReplaceAction, ScriptManipulatorAction,
}
use morpheus_proxy.Rules.Matcher.{HeaderMap, ResponseSnapshot}
use morpheus_proxy.Rules.Consume.{view}
use morpheus_proxy.Rules.Evaluate.{evaluate_response_match, ResponseMatchResult}
use morpheus_proxy.Logging.Messages.{MessageDraft}
use morpheus_proxy.Logging.TrafficLog.{Flagged}
use morpheus_proxy.Proxy.Headers.{header_value, strip_hop_by_hop}
use morpheus_proxy.Proxy.Body.{
  Settled, complete, prefix, failed, stream_aborted, stream_closed, limit_exceeded, BodyInterest,
  new_reader, read_body_up_to, response_body_interest,
}
use morpheus_proxy.Proxy.Actions.{apply_response_replace, compute_delay, is_total}
use morpheus_proxy.Proxy.Patch.{PatchableHttpResponse, PatchOutcome, apply_http_response_patch}
use morpheus_proxy.Proxy.Upstream.{UpstreamReply, StreamBody, joined, untouched}
use morpheus_proxy.Proxy.Pipeline.Exchange.{
  ProxyRuntime, Course, HttpExchange, Context, Vars, Flow, Effect, waits, go, throw, perform,
  empty_draft, content_length_of, push_error, persist_needed, kept_if, is_present,
  ManipulatorRunner,
}
use morpheus_proxy.Proxy.Pipeline.Stages.{
  with_length, slept, received, answer_error, execute_fault, log_return, or_else,
}

-- `responseBody`, `responseBodySkipReason` and the prefix of `responseTail`.
pub record ResponseBody : Type 0 where
  pub body : Option Buffer
  pub skip_reason : Option Text
  pub tail : Option Buffer

-- `responseStatus`, `responseHeaders`, `responseBody` and `responseChanged`.
pub record Response : Type 0 where
  pub status : ℕ
  pub headers : HeaderMap
  pub body : Option Buffer
  pub changed : Bool

abbrev pub exceeds : Option ℕ → ℕ → Bool
exceeds none limit = false
exceeds (some n) limit = ltb limit n

abbrev pub is_event_stream : Option Text → Bool
is_event_stream none = false
is_event_stream (some t) = starts_with t (js "text/event-stream")

-- The message of the error that `readBodyUpTo` rejects with.
abbrev failure_message : Settled → Text
failure_message (failed message) = message
failure_message stream_aborted = js "client stream aborted before request body completed"
failure_message stream_closed = js "client stream closed before request body completed"
failure_message (complete b) = []
failure_message (prefix b) = []
failure_message limit_exceeded = []

abbrev no_body : ResponseBody
no_body = record { body = none; skip_reason = none; tail = none }

abbrev response_stage : Option Rule → Option ResponseStage
response_stage none = none
response_stage (some rule) = rule.response

module _ (runtime : ProxyRuntime) (course : Course) (exchange : HttpExchange) (ctx : Context) where
  abbrev pub on_settled : UpstreamReply → Option Settled → Flow ResponseBody
  on_settled reply none v = record { vars = v; ended = waits }
  on_settled reply (some (complete body)) v = go (record no_body { body = some body }) v
  on_settled reply (some (prefix bytes)) v =
      go (record { body = none; skip_reason = some (js "limit_exceeded"); tail = some bytes }) v
  on_settled reply (some (failed message)) v =
      answer_error runtime course exchange ctx 502 (js "upstream_reset") message
        (received true (record empty_draft { headers = reply.headers })) v
  on_settled reply (some stream_aborted) v =
      answer_error runtime course exchange ctx 502 (js "upstream_reset")
        (failure_message stream_aborted)
        (received true (record empty_draft { headers = reply.headers })) v
  on_settled reply (some stream_closed) v =
      answer_error runtime course exchange ctx 502 (js "upstream_reset")
        (failure_message stream_closed)
        (received true (record empty_draft { headers = reply.headers })) v
  on_settled reply (some limit_exceeded) v =
      answer_error runtime course exchange ctx 502 (js "upstream_reset")
        (failure_message limit_exceeded)
        (received true (record empty_draft { headers = reply.headers })) v

  abbrev pub interest : BodyInterest
  interest = response_body_interest ctx.evaluation.intercept_rule ctx.evaluation.capture_rules

  abbrev pub content_type : UpstreamReply → Option Text
  content_type reply = header_value reply.headers (js "content-type")

  -- By whether the body is to be buffered, is declared too long, and is a stream of events.
  abbrev pub read_if :
      (buffered too_long streams : Bool) → UpstreamReply → Option Settled → Flow ResponseBody
  read_if true true streams reply settled v =
      go (record no_body { skip_reason = some (js "limit_exceeded") }) v
  read_if true false streams reply settled v = on_settled reply settled v
  read_if false too_long true reply settled v =
      go (record no_body { skip_reason = some (js "streaming") }) v
  read_if false too_long false reply settled v = go no_body v

  unfoldable pub read_response_body : UpstreamReply → Flow ResponseBody
  unfolding answer_error
  read_response_body reply v =
      let limit = runtime.listener.max_response_body_buffer_bytes in
      let event_stream = is_event_stream (content_type reply) in
      let reader = read_body_up_to reply.is_http2_stream limit reply.stream new_reader in
      read_if ((interest.want || interest.need) && not event_stream)
        (exceeds (content_length_of runtime.number reply.headers) limit)
        (interest.want && event_stream) reply reader.settled v

  unfoldable pub warn_skipped : ResponseBody → Flow ResponseBody
  warn_skipped read v =
      if is_some read.skip_reason && interest.need
      then go read (perform (Effect.warn (js "response manipulation skipped: body not buffered")) v)
      else go read v

  abbrev text_body : Option Buffer → Option Text
  text_body none = none
  text_body (some body) = some (runtime.platform.from_utf8 body)

  abbrev base64_body : Option Buffer → Option Text
  base64_body none = none
  base64_body (some body) = some (runtime.platform.to_base64 body)

  abbrev pub unchanged : UpstreamReply → ResponseBody → Response
  unchanged reply read = record {
    status = reply.status_code;
    headers = strip_hop_by_hop reply.headers;
    body = read.body;
    changed = false;
  }

  abbrev pub snapshot_of : Response → ResponseSnapshot
  snapshot_of response = record {
    status_code = some response.status;
    headers = response.headers;
    body = text_body response.body;
    raw_body_base64 = base64_body response.body;
    grpc = none;
  }

  -- The reply as the log keeps it, with the body that was read.
  abbrev pub upstream_draft : UpstreamReply → ResponseBody → Option (Flagged MessageDraft)
  upstream_draft reply read = received true (record empty_draft {
    status_code = some reply.status_code;
    headers = reply.headers;
    body = read.body;
    content_type = content_type reply;
  })

  abbrev skipped_of : Option Delay → Bool → Option Bool → Option Bool
  skipped_of none skipped earlier = earlier
  skipped_of (some delay) skipped earlier = if is_total delay.mode then some skipped else earlier

  unfoldable pub delay_response : Option Delay → Vars → Vars
  delay_response none v = v
  delay_response (some delay) v =
      let plan = compute_delay delay course.elapsed in
      let w = slept plan.wait_ms v in
      record w {
        flags = record w.flags { delayed = true };
        timing = record w.timing {
          delay_ms = some plan.wait_ms;
          delay_skipped = skipped_of (some delay) plan.skipped w.timing.delay_skipped;
        };
      }

  abbrev pub failed_rule : Rule → Text → Vars → Vars
  failed_rule rule message v =
      push_error (record { rule_id = rule.id; stage = Stage.response; error = message }) v

  abbrev pub modified : Vars → Vars
  modified v = record v { flags = record v.flags { modified = true } }

  abbrev pub on_replaced : Response → HeaderMap → Result Text Bool → Flow Response
  on_replaced response headers (err e) v = throw e v
  on_replaced response headers (ok false) v = go response v
  on_replaced response headers (ok true) v =
      go (record response { headers = headers; changed = true }) (modified v)

  unfoldable pub replace_response : ResponseReplaceAction → Response → Flow Response
  replace_response action response v =
      let (headers, result) = apply_response_replace runtime.re response.headers action in
      on_replaced response headers result v

  -- What a patch leaves: the headers are written in place, the rest only if the patch is accepted.
  abbrev pub patched :
      Rule → Response → PatchableHttpResponse → Result String PatchOutcome → Flow Response
  patched rule response patchable (err message) v =
      go (record response { headers = patchable.headers }) (failed_rule rule (js message) v)
  patched rule response patchable (ok outcome) v =
      let warned =
        if is_present outcome.ignored_fields
        then perform (Effect.warn (js "script patch fields ignored for http response")) v
        else v in
      let response' : Response = record response {
        status = patchable.status_code;
        headers = patchable.headers;
        body = if outcome.body_changed then patchable.body else response.body;
      } in
      if outcome.changed
      then go (record response' { changed = true }) (modified warned)
      else go response' warned

  abbrev pub on_patch : Rule → Response → Result Text Fields → Flow Response
  on_patch rule response (err message) v = go response (failed_rule rule message v)
  on_patch rule response (ok patch) v =
      let patching =
        apply_http_response_patch runtime.platform.to_utf8 runtime.from_base64 patch (record {
          status_code = response.status;
          headers = response.headers;
          body = response.body;
        }) in
      patched rule response patching.response patching.result v

  abbrev pub is_unavailable : ResponseBody → Bool
  is_unavailable read = not (is_some read.body) && is_some read.skip_reason

  abbrev pub run_manipulator :
      Option ManipulatorRunner → Rule → ScriptManipulatorAction → Response → Flow Response
  run_manipulator none rule action response v = go response (
      failed_rule rule (js "script manipulator requires the script sandbox, which is not available")
        v)
  run_manipulator (some run) rule action response v =
      let (registry, state) = view course.viewed_at rule (course.while_delayed v.registry) in
      on_patch rule response
        (run action (record {
          input = record {
            protocol = runtime.listener.protocol;
            stage = Stage.response;
            request = ctx.request;
            response = some (snapshot_of response);
            rule_state = state;
          };
          duration_ms = or_else v.timing.upstream_duration_ms 0;
        }))
        (record v { registry = registry })

  unfoldable pub manipulate :
      Rule → ScriptManipulatorAction → ResponseBody → Response → Flow Response
  manipulate rule action read response v =
      if is_unavailable read
      then go response v
      else run_manipulator runtime.manipulator_runner rule action response v

  abbrev pub dropped : ResponseBody → Vars → Vars
  dropped read v = if is_some read.body then v else perform Effect.destroy_upstream v

  unfoldable pub act_on_response :
      Rule → Option ResponseAction → UpstreamReply → ResponseBody → Response → Flow Response
  unfolding replace_response manipulate execute_fault
  act_on_response rule none reply read response v = go response v
  act_on_response rule (some (ResponseAction.fault fault)) reply read response v =
      execute_fault runtime course exchange ctx fault
        (record (dropped read v) { upstream = upstream_draft reply read })
  act_on_response rule (some (ResponseAction.response_replace action)) reply read response v =
      replace_response action response v
  act_on_response rule (some (ResponseAction.script_manipulator action)) reply read response v =
      manipulate rule action read response v

  abbrev pub with_error : Rule → Option Text → Vars → Vars
  with_error rule none v = v
  with_error rule (some message) v = failed_rule rule message v

  abbrev pub on_match :
      Rule → ResponseStage → UpstreamReply → ResponseBody → ResponseMatchResult → Flow Response
  on_match rule stage reply read result v =
      let w = with_error rule result.error v in
      if result.matched
      then act_on_response rule stage.action reply read (unchanged reply read)
          (delay_response stage.delay w)
      else go (unchanged reply read) w

  abbrev pub run_stage : Rule → ResponseStage → UpstreamReply → ResponseBody → Flow Response
  run_stage rule stage reply read v =
      let (result, registry) =
        evaluate_response_match runtime.re runtime.script_runner course.matched_at rule
          runtime.listener.protocol ctx.request (snapshot_of (unchanged reply read))
          (course.while_upstream v.registry) in
      on_match rule stage reply read result (record v { registry = registry })

  abbrev pub optional_stage :
      Rule → Option ResponseStage → UpstreamReply → ResponseBody → Flow Response
  optional_stage rule none reply read v = go (unchanged reply read) v
  optional_stage rule (some stage) reply read v = run_stage rule stage reply read v

  abbrev pub intercept_stage : Option Rule → UpstreamReply → ResponseBody → Flow Response
  intercept_stage none reply read v = go (unchanged reply read) v
  intercept_stage (some rule) reply read v = optional_stage rule rule.response reply read v

  unfoldable pub run_response_stage : UpstreamReply → ResponseBody → Flow Response
  unfolding act_on_response delay_response
  run_response_stage reply read v = intercept_stage ctx.evaluation.intercept_rule reply read v

  abbrev stream_of : Option Buffer → StreamBody
  stream_of none = untouched
  stream_of (some bytes) = joined bytes

  abbrev kept_body : Response → Vars → Option Buffer
  kept_body response v = kept_if (persist_needed ctx v.flags) response.body

  abbrev pub log_sent : UpstreamReply → ResponseBody → Response → Flow ⊥
  log_sent reply read response v =
      log_return runtime course exchange ctx
        (record empty_draft {
          status_code = some response.status;
          headers = response.headers;
          body = kept_body response v;
          body_skipped_reason = kept_if (persist_needed ctx v.flags) read.skip_reason;
          content_type = content_type reply;
        })
        v

  abbrev pub send_body : UpstreamReply → ResponseBody → Response → Option Buffer → Flow ⊥
  send_body reply read response none v =
      log_sent reply read response
        (perform (Effect.respond_stream response.status response.headers (stream_of read.tail)) v)
  send_body reply read response (some body) v =
      let headers =
        if response.changed then with_length body response.headers else response.headers in
      log_sent reply read (record response { headers = headers })
        (perform (Effect.respond response.status headers body) v)

  -- The response goes to the client, and the entry is written.
  unfoldable pub send_response : UpstreamReply → ResponseBody → Response → Flow ⊥
  send_response reply read response v =
      send_body reply read response response.body
        (if response.changed then record v { upstream = upstream_draft reply read } else v)
