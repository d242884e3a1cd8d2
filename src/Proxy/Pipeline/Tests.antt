-- ===== src/Proxy/Pipeline/Tests.antt =====
-- The theorems about src/proxy/pipeline.ts at concrete inputs, and runs of the code.
use morpheus_proxy.Prelude.{
  ◌≡◌, refl, false, none, some, [], ◌∷◌, js, ok, inr, length, starts_with, List, Text,
}
use morpheus_proxy.Rules.Types.{Rule, Protocol, FaultSpec, RequestAction, ConnectionMode}
use morpheus_proxy.Rules.Matcher.{one}
use morpheus_proxy.Rules.Tests.{prefix_engine, twice, options}
use morpheus_proxy.Logging.Tests.{platform}
use morpheus_proxy.Proxy.Upstream.{parse_upstream, h2c, http, UpstreamReply}
use morpheus_proxy.Proxy.Body.{chunk, end}
use morpheus_proxy.Proxy.Pipeline.Exchange.{
  ProxyRuntime, Course, HttpExchange, split_raw_path, join_path, returned, Effect,
}
use morpheus_proxy.Proxy.Pipeline.{handle_http_exchange, read_request_body}
use morpheus_proxy.Rules.Consume.{view, remaining, try_consume, record_hit, state_for, maybe_reset}
use morpheus_proxy.Rules.Types.{is_observation_rule}
use morpheus_proxy.Rules.Evaluate.{evaluate_request, describe_rule_action}
use morpheus_proxy.Rules.Matcher.{
  matcher_uses_body, collect_matcher_fields, matcher_has_script, eval_matcher, test_values,
  resolve_field, resolve_request_field,
}
use morpheus_proxy.Proxy.Body.{request_body_interest, read_body_up_to}
use morpheus_proxy.Proxy.Pipeline.Stages.{
  run_request_stage, execute_fault, act_on_request, delay_request,
}
use morpheus_proxy.Proxy.Pipeline.Exchange.{
  content_length_of, ◌>>=◌, write_log, script_errors, outcome_text, decide_outcome,
}
use morpheus_proxy.Proxy.Pipeline.{run_stages}
use morpheus_proxy.Prelude.{text_eq, lookup, to_string, insert}
use morpheus_proxy.Proxy.Pipeline.Pass.{
  handle_http_exchange-inactive, passed_request, IsAddress, Passes,
}
use morpheus_proxy.Prelude.{subst, true, Result}
use morpheus_proxy.Proxy.Body.Limits.{comes_to_end}
use morpheus_proxy.Proxy.Upstream.{UpstreamFailure}
use morpheus_proxy.Proxy.Pipeline.Once.{Handled, handle_http_exchange-Handled}

upstream_test :
    (parse_upstream (js "h2c://up:50051/")
      ≡ some (record { kind = h2c; host = js "up"; port = 50051 }))
    × (parse_upstream (js "http://up") ≡ some (record { kind = http; host = js "up"; port = 80 }))
    × (parse_upstream (js "http://up:/") ≡ none)
unfolding parse_upstream js starts_with
upstream_test = (refl, refl, refl)

path_test :
    (split_raw_path (js "/users?id=1?") ≡ (js "/users", js "id=1?"))
    × (join_path (js "/users") [] ≡ js "/users")
unfolding split_raw_path join_path js
path_test = (refl, refl)

-- Refuses connections to the path "/users" with a reset.
abbrev refusing : Rule
refusing = record twice {
  request = some (record {
    delay = none;
    action = some (RequestAction.fault (FaultSpec.connection ConnectionMode.reset));
  });
}

abbrev runtime : ProxyRuntime
runtime = record {
  listener = record {
    name = js "main";
    protocol = Protocol.http;
    upstream = js "http://up";
    max_request_body_buffer_bytes = 3;
    max_response_body_buffer_bytes = 3;
  };
  upstream_timeout_ms = 1000;
  rules = refusing ∷ [];
  re = prefix_engine;
  platform = platform;
  from_base64 = λ t. t;
  number = λ t. some (length t);
  error_json = λ e m. m;
  limit_json = λ n. [];
  script_runner = none;
  manipulator_runner = none;
  send_to_upstream = λ target request. ok (record {
    status_code = 200;
    headers = (js "server", one (js "s")) ∷ [];
    is_http2_stream = false;
    stream = chunk (js "hi") ∷ end ∷ [];
  });
}

abbrev course : Course
course = record {
  uuid = js "1";
  started_at = 1;
  ended_at = 2;
  readings = options.readings;
  meanwhile = λ rule registry. registry;
  upstream_ms = 7;
  while_upstream = λ registry. registry;
  matched_at = 3;
  elapsed = 4;
  while_delayed = λ registry. registry;
  viewed_at = 5;
  is_gone_at_error = false;
  is_gone_at_log = false;
}

abbrev exchange : HttpExchange
exchange = record {
  method = js "GET";
  raw_path = js "/users?id=1";
  authority = js "api";
  headers = [];
  client = js "c";
  is_http2_stream = false;
  stream = end ∷ [];
}

abbrev reply : UpstreamReply
reply = record {
  status_code = 200;
  headers = (js "server", one (js "s")) ∷ [];
  is_http2_stream = false;
  stream = chunk (js "hi") ∷ end ∷ [];
}

abbrev sent : Result UpstreamFailure UpstreamReply
sent = ok reply

reply_ends :
    (given : UpstreamReply)
    → sent ≡ ok given
    → comes_to_end given.is_http2_stream given.stream ≡ true
reply_ends given e =
    let same : reply ≡ given = cc in
    subst (λ r. comes_to_end r.is_http2_stream r.stream ≡ true) same refl

handle_http_exchange-Handled_example :
    Handled
      (read_request_body runtime exchange)
      (handle_http_exchange runtime course exchange []).vars
      (handle_http_exchange runtime course exchange []).ended
handle_http_exchange-Handled_example =
    handle_http_exchange-Handled runtime course exchange [] (inr (tt, tt), tt) refl
      (λ target request given e. reply_ends given e)

-- The only rule is for gRPC.
abbrev idle : ProxyRuntime
idle = record runtime { rules = record refusing { protocol = Protocol.grpc } ∷ [] }

handle_http_exchange-inactive_example :
    let flowed = handle_http_exchange idle course exchange [] in
    (path : Text) × IsAddress exchange.raw_path path
    × (flowed.ended ≡ returned)
    × (flowed.vars.registry ≡ [])
    × Passes course (passed_request idle exchange path) (ok reply) flowed.vars.effects
unfolding parse_upstream js starts_with
handle_http_exchange-inactive_example =
    handle_http_exchange-inactive idle course exchange []
      (record { kind = http; host = js "up"; port = 80 }) (refl, tt) refl

-- How the metrics count an exchange.
abbrev outcomes : List Effect → List Text
outcomes [] = []
outcomes (Effect.record_request outcome ids ms ∷ es) = outcome ∷ outcomes es
outcomes (Effect.respond status headers body ∷ es) = outcomes es
outcomes (Effect.respond_stream status headers body ∷ es) = outcomes es
outcomes (Effect.destroy reset ∷ es) = outcomes es
outcomes (Effect.destroy_upstream ∷ es) = outcomes es
outcomes (Effect.sleep ms ∷ es) = outcomes es
outcomes (Effect.send request ∷ es) = outcomes es
outcomes (Effect.record_script_error ∷ es) = outcomes es
outcomes (Effect.add draft ∷ es) = outcomes es
outcomes (Effect.warn message ∷ es) = outcomes es

fault_test :
    outcomes (handle_http_exchange runtime course exchange []).vars.effects ≡ js "fault" ∷ []
unfolding handle_http_exchange js request_body_interest matcher_uses_body collect_matcher_fields
    text_eq matcher_has_script content_length_of lookup read_body_up_to run_stages ◌>>=◌
    run_request_stage evaluate_request eval_matcher test_values resolve_field resolve_request_field
    starts_with split_raw_path to_string view remaining try_consume record_hit state_for maybe_reset
    insert describe_rule_action is_observation_rule execute_fault write_log script_errors
    outcome_text decide_outcome act_on_request delay_request
fault_test = refl
