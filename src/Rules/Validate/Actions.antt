-- ===== src/Rules/Validate/Actions.antt =====
-- src/rules/validate.ts: the parsers of delays, faults, actions and consumption, which stop at the
-- first issue.
use morpheus_proxy.Prelude.{
  ℕ, Bool, true, false, not, Option, none, some, List, [], ◌∷◌, ◌++◌, Text, String, js, to_string,
  leb, if◌then◌else◌, ok, err, is_some,
}
use morpheus_proxy.Json.{Json, Items, Fields, nat, num, items}
use morpheus_proxy.Rules.Types.{
  Protocol, http, grpc, protocol_eq, Stage, Delay, DelayMode, fixed, total, FaultSpec,
  ConnectionMode, MockResponse,
}
use morpheus_proxy.Rules.Validate.Issues.{
  switch, ◌>>=◌, ◌>>◌, RuleValidationIssue, issue, Parsed, or_issue, require, get_key,
  is_plain_object, as_text, as_array, or_default, integer_in, optional, text_of, string_record,
}

abbrev pub object_of : Json → RuleValidationIssue → Parsed Fields
object_of input e = or_issue (is_plain_object (some input)) e

-- `mode`, where it is given.
unfoldable pub parse_mode : Option Json → Text → Parsed DelayMode
parse_mode mode path =
    switch (as_text mode) (("fixed", ok fixed) ∷ ("total", ok total) ∷ [])
      (err (issue (path ++ js ".mode") "invalid_delay_mode" "mode must be \"fixed\" or \"total\""))

abbrev pub is_total_request : Option DelayMode → Stage → Bool
is_total_request (some total) Stage.request = true
is_total_request (some total) Stage.response = false
is_total_request (some fixed) stage = false
is_total_request none stage = false

unfoldable pub parse_delay : Json → Text → Stage → Parsed Delay
parse_delay input path stage = do
  fs ← object_of input (issue path "invalid_delay" "delay must be an object")
  duration ←
      integer_in 1 none (get_key "durationMs" fs) (
        issue (path ++ js ".durationMs") "invalid_duration" "durationMs must be a positive integer")
  mode ← optional (get_key "mode" fs) (λ value. parse_mode value path)
  require (not (is_total_request mode stage)) (
      issue (path ++ js ".mode") "total_delay_on_request"
        "delay mode \"total\" is only valid on the response stage (spec 4.5.1)")
  ok (record { duration_ms = duration; mode = mode })

unfoldable pub parse_http_fault : Fields → Text → Protocol → Parsed FaultSpec
parse_http_fault fs path protocol = do
  require (protocol_eq protocol http) (
      issue (path ++ js ".kind") "fault_protocol_mismatch"
        "http_response fault requires protocol \"http\"")
  status ←
      integer_in 100 (some 599) (get_key "statusCode" fs)
        (issue (path ++ js ".statusCode") "invalid_status" "statusCode must be an integer 100-599")
  headers ← optional (get_key "headers" fs) (λ value.
      string_record value
        (issue (path ++ js ".headers") "invalid_headers" "headers must be a string map"))
  body ←
      optional (get_key "body" fs)
        (λ value. text_of value (issue (path ++ js ".body") "invalid_body" "body must be a string"))
  ok (FaultSpec.http_response status headers body)

unfoldable pub parse_grpc_fault : Fields → Text → Protocol → Parsed FaultSpec
parse_grpc_fault fs path protocol = do
  require (protocol_eq protocol grpc) (
      issue (path ++ js ".kind") "fault_protocol_mismatch"
        "grpc_status fault requires protocol \"grpc\"")
  status ←
      integer_in 0 (some 16) (get_key "status" fs)
        (issue (path ++ js ".status") "invalid_grpc_status" "status must be an integer 0-16")
  message ← optional (get_key "message" fs) (λ value.
      text_of value (issue (path ++ js ".message") "invalid_message" "message must be a string"))
  metadata ← optional (get_key "metadata" fs) (λ value.
      string_record value
        (issue (path ++ js ".metadata") "invalid_metadata" "metadata must be a string map"))
  ok (FaultSpec.grpc_status status message metadata)

unfoldable pub parse_connection_fault : Fields → Text → Parsed FaultSpec
parse_connection_fault fs path =
    switch (as_text (get_key "mode" fs))
      (("close", ok (FaultSpec.connection ConnectionMode.close))
        ∷ ("reset", ok (FaultSpec.connection ConnectionMode.reset))
        ∷ [])
      (err (
        issue (path ++ js ".mode") "invalid_connection_mode" "mode must be \"close\" or \"reset\""))

unfoldable pub parse_timeout_fault : Fields → Text → Parsed FaultSpec
parse_timeout_fault fs path = do
  duration ← optional (get_key "durationMs" fs) (λ value.
      integer_in 1 none value (
        issue (path ++ js ".durationMs") "invalid_duration"
          "durationMs must be a positive integer"))
  ok (FaultSpec.timeout duration)

unfoldable pub parse_fault : Option Json → Text → Protocol → Parsed FaultSpec
parse_fault input path protocol = do
  fs ← or_issue (is_plain_object input) (issue path "invalid_fault" "fault must be an object")
  switch (as_text (get_key "kind" fs))
      (("http_response", parse_http_fault fs path protocol)
        ∷ ("grpc_status", parse_grpc_fault fs path protocol)
        ∷ ("connection", parse_connection_fault fs path)
        ∷ ("timeout", parse_timeout_fault fs path)
        ∷ [])
      (err (
        issue (path ++ js ".kind") "invalid_fault_kind"
          "fault kind must be one of http_response, grpc_status, connection, timeout"))

abbrev pub is_below : Option ℕ → ℕ → Bool
is_below none n = true
is_below (some max) n = leb n max

abbrev maximum : Option ℕ → Text
maximum none = []
maximum (some max) = to_string max

-- `max` is `opts.scriptMaxTimeoutMs`.
unfoldable pub parse_script_timeout : Option ℕ → Fields → Text → Parsed (Option ℕ)
parse_script_timeout max fs path = optional (get_key "timeoutMs" fs) (λ value. do
  timeout ←
      integer_in 1 none value
        (issue (path ++ js ".timeoutMs") "invalid_timeout" "timeoutMs must be a positive integer")
  require (is_below max timeout) (record {
    path = path ++ js ".timeoutMs";
    reason = js "timeout_exceeds_max";
    message = js "timeoutMs exceeds the configured maximum of " ++ maximum max;
  })
  ok timeout)

-- The first of the keys that the object has, as an issue.
unfoldable pub refuse_keys : List String → String → Fields → Text → Parsed (Unit {0})
refuse_keys [] suffix fs path = ok tt
refuse_keys (key ∷ keys) suffix fs path = do
  require (not (is_some (get_key key fs))) (record {
    path = path ++ js ".response." ++ js key;
    reason = js "protocol_mismatch";
    message = js key ++ js suffix;
  })
  refuse_keys keys suffix fs path

unfoldable pub parse_http_mock : Fields → Text → Parsed MockResponse
parse_http_mock fs path = do
  refuse_keys ("grpcStatus" ∷ "grpcMessage" ∷ "messages" ∷ "metadata" ∷ [])
      " is not valid for http rules" fs path
  status ← integer_in 100 (some 599) (or_default (get_key "statusCode" fs) (num (nat 200))) (
      issue (path ++ js ".response.statusCode") "invalid_status"
        "statusCode must be an integer 100-599")
  headers ← optional (get_key "headers" fs) (λ value.
      string_record value
        (issue (path ++ js ".response.headers") "invalid_headers" "headers must be a string map"))
  body ← optional (get_key "body" fs) (λ value.
      text_of value (issue (path ++ js ".response.body") "invalid_body" "body must be a string"))
  ok (record {
    status_code = some status;
    headers = headers;
    body = body;
    grpc_status = none;
    grpc_message = none;
    messages = none;
    metadata = none;
  })

abbrev items_or_issue : Option Items → RuleValidationIssue → Parsed (List Json)
items_or_issue none e = err e
items_or_issue (some vs) e = ok (items vs)

unfoldable pub parse_grpc_mock : Fields → Text → Parsed MockResponse
parse_grpc_mock fs path = do
  refuse_keys ("statusCode" ∷ "body" ∷ []) " is not valid for grpc rules" fs path
  status ← integer_in 0 (some 16) (or_default (get_key "grpcStatus" fs) (num (nat 0))) (
      issue (path ++ js ".response.grpcStatus") "invalid_grpc_status"
        "grpcStatus must be an integer 0-16")
  message ← optional (get_key "grpcMessage" fs) (λ value.
      text_of value (
        issue (path ++ js ".response.grpcMessage") "invalid_message"
          "grpcMessage must be a string"))
  messages ← optional (get_key "messages" fs) (λ value.
      items_or_issue (as_array value)
        (issue (path ++ js ".response.messages") "invalid_messages" "messages must be an array"))
  metadata ← optional (get_key "metadata" fs) (λ value.
      string_record value (
        issue (path ++ js ".response.metadata") "invalid_metadata" "metadata must be a string map"))
  ok (record {
    status_code = none;
    headers = none;
    body = none;
    grpc_status = some status;
    grpc_message = message;
    messages = messages;
    metadata = metadata;
  })

unfoldable pub parse_mock : Fields → Text → Protocol → Parsed MockResponse
parse_mock fs path protocol = do
  response ←
      or_issue (is_plain_object (get_key "response" fs))
        (issue (path ++ js ".response") "invalid_mock" "response must be an object")
  if protocol_eq protocol http then parse_http_mock response path else parse_grpc_mock response path
