-- ===== src/Rules/Validate/Stages.antt =====
-- src/rules/validate.ts: the parsers of the request and the response action, of their rewrites, and
-- of consumption.
use morpheus_proxy.Prelude.{
  ℕ, ◌+◌, Bool, true, false, not, ◌&&◌, ◌||◌, Option, none, some, List, [], ◌∷◌, ◌++◌, Text, String,
  js, starts_with, to_string, ltb, length, any, drop, ok, err, ◌==◌,
}
use morpheus_proxy.Json.{Json, Items, Fields, nil, cons}
use morpheus_proxy.Rules.Types.{
  Protocol, http, protocol_eq, RewriteOperation, RequestAction, ResponseAction, ConsumeSpec,
}
use morpheus_proxy.Rules.Matcher.{RegExp}
use morpheus_proxy.Rules.Validate.Issues.{
  switch, ◌>>=◌, ◌>>◌, RuleValidationIssue, issue, Parsed, or_issue, require, get_key, as_text,
  as_array, integer_in, optional, text_of, valid_regex, script_source,
}
use morpheus_proxy.Rules.Validate.Actions.{object_of, parse_fault, parse_mock, parse_script_timeout}

abbrev invalid_operation : Text → String → RuleValidationIssue
invalid_operation path message = issue path "invalid_operation" message

unfoldable pub parse_set_header : Fields → Text → Parsed RewriteOperation
parse_set_header fs path = do
  let e = invalid_operation path "set_header requires string name and value"
  name ← text_of (get_key "name" fs) e
  require (ltb 0 (length name)) e
  value ← text_of (get_key "value" fs) e
  ok (RewriteOperation.set_header name value)

unfoldable pub parse_remove_header : Fields → Text → Parsed RewriteOperation
parse_remove_header fs path = do
  let e = invalid_operation path "remove_header requires a string name"
  name ← text_of (get_key "name" fs) e
  require (ltb 0 (length name)) e
  ok (RewriteOperation.remove_header name)

unfoldable pub parse_set_value :
    String → (Text → RewriteOperation) → Fields → Text → Parsed RewriteOperation
parse_set_value op make fs path = do
  value ← text_of (get_key "value" fs) (record {
    path = path;
    reason = js "invalid_operation";
    message = js op ++ js " requires a string value";
  })
  ok (make value)

unfoldable pub parse_replace_body : RegExp → Fields → Text → Parsed RewriteOperation
parse_replace_body re fs path = do
  let e = invalid_operation path "replace_body requires string from and to"
  from ← text_of (get_key "from" fs) e
  to ← text_of (get_key "to" fs) e
  valid_regex re from [] (path ++ js ".from")
  ok (RewriteOperation.replace_body from to)

unfoldable pub parse_rewrite_operation : RegExp → Json → Text → Parsed RewriteOperation
parse_rewrite_operation re input path = do
  fs ← object_of input (invalid_operation path "operation must be an object")
  switch (as_text (get_key "op" fs))
      (("set_header", parse_set_header fs path)
        ∷ ("remove_header", parse_remove_header fs path)
        ∷ ("set_path", parse_set_value "set_path" RewriteOperation.set_path fs path)
        ∷ ("set_query", parse_set_value "set_query" RewriteOperation.set_query fs path)
        ∷ ("replace_body", parse_replace_body re fs path)
        ∷ [])
      (err (
        invalid_operation (path ++ js ".op")
          "op must be one of set_header, remove_header, set_path, set_query, replace_body"))

abbrev pub is_header_operation : RewriteOperation → Bool
is_header_operation (RewriteOperation.set_header name value) = true
is_header_operation (RewriteOperation.remove_header name) = true
is_header_operation (RewriteOperation.set_path value) = false
is_header_operation (RewriteOperation.set_query value) = false
is_header_operation (RewriteOperation.replace_body from to) = false

-- The operations from the `i`-th on.
unfoldable pub parse_operations :
    RegExp → Protocol → Items → Text → ℕ → Parsed (List RewriteOperation)
parse_operations re protocol nil path i = ok []
parse_operations re protocol (cons v vs) path i = do
  let here = path ++ js ".operations[" ++ to_string i ++ js "]"
  op ← parse_rewrite_operation re v here
  require (protocol_eq protocol http || is_header_operation op) (
      issue here "grpc_rewrite_unsupported"
        "gRPC request_rewrite supports header operations only (spec 4.7.5)")
  ops ← parse_operations re protocol vs path (i + 1)
  ok (op ∷ ops)

abbrev pub non_empty : Option Items → Option Items
non_empty none = none
non_empty (some nil) = none
non_empty (some (cons v vs)) = some (cons v vs)

unfoldable pub parse_rewrite : RegExp → Fields → Text → Protocol → Parsed RequestAction
parse_rewrite re fs path protocol = do
  vs ←
      or_issue (non_empty (as_array (get_key "operations" fs))) (
        issue (path ++ js ".operations") "invalid_operations"
          "operations must be a non-empty array")
  ops ← parse_operations re protocol vs path 0
  ok (RequestAction.request_rewrite ops)

unfoldable pub parse_mock_action : Fields → Text → Protocol → Parsed RequestAction
parse_mock_action fs path protocol = do
  response ← parse_mock fs path protocol
  ok (RequestAction.mock_response response)

unfoldable pub parse_request_fault : Fields → Text → Protocol → Parsed RequestAction
parse_request_fault fs path protocol = do
  fault ← parse_fault (get_key "fault" fs) (path ++ js ".fault") protocol
  ok (RequestAction.fault fault)

unfoldable pub parse_request_action : RegExp → Json → Text → Protocol → Parsed RequestAction
parse_request_action re input path protocol = do
  fs ← object_of input (issue path "invalid_action" "action must be an object")
  switch (as_text (get_key "type" fs))
      (("mock_response", parse_mock_action fs path protocol)
        ∷ ("fault", parse_request_fault fs path protocol)
        ∷ ("request_rewrite", parse_rewrite re fs path protocol)
        ∷ [])
      (err (
        issue (path ++ js ".type") "invalid_action_type"
          "request action must be one of mock_response, fault, request_rewrite"))

-- `.`: no line terminator
abbrev is_line_end : ℕ → Bool
is_line_end c = c == 10 || c == 13 || c == 0x2028 || c == 0x2029

-- /^header\..+$/
unfoldable pub is_header_target : Text → Bool
is_header_target target =
    starts_with target (js "header.")
    && ltb 7 (length target)
    && not (any is_line_end (drop 7 target))

unfoldable pub parse_response_replace : RegExp → Fields → Text → Parsed ResponseAction
parse_response_replace re fs path = do
  let no_target =
      issue (path ++ js ".target") "invalid_target"
        "target must be \"header.<name>\" (body/trailer changes require a script manipulator, spec 4.5.5)"
  let no_texts = issue path "invalid_replace" "from and to must be strings"
  target ← text_of (get_key "target" fs) no_target
  require (is_header_target target) no_target
  from ← text_of (get_key "from" fs) no_texts
  to ← text_of (get_key "to" fs) no_texts
  valid_regex re from [] (path ++ js ".from")
  ok (ResponseAction.response_replace (record { target = target; from = from; to = to }))

unfoldable pub parse_manipulator : Option ℕ → Fields → Text → Parsed ResponseAction
parse_manipulator max fs path = do
  source ← script_source fs path
  timeout ← parse_script_timeout max fs path
  ok (ResponseAction.script_manipulator (record { source = source; timeout_ms = timeout }))

unfoldable pub parse_response_fault : Fields → Text → Protocol → Parsed ResponseAction
parse_response_fault fs path protocol = do
  fault ← parse_fault (get_key "fault" fs) (path ++ js ".fault") protocol
  ok (ResponseAction.fault fault)

unfoldable pub parse_response_action :
    RegExp → Option ℕ → Json → Text → Protocol → Parsed ResponseAction
parse_response_action re max input path protocol = do
  fs ← object_of input (issue path "invalid_action" "action must be an object")
  switch (as_text (get_key "type" fs))
      (("fault", parse_response_fault fs path protocol)
        ∷ ("response_replace", parse_response_replace re fs path)
        ∷ ("script_manipulator", parse_manipulator max fs path)
        ∷ [])
      (err (
        issue (path ++ js ".type") "invalid_action_type"
          "response action must be one of fault, response_replace, script_manipulator"))

unfoldable pub parse_consume : Json → Parsed ConsumeSpec
parse_consume input = do
  fs ← object_of input (issue (js "consume") "invalid_consume" "consume must be an object")
  times ←
      integer_in 1 none (get_key "times" fs)
        (issue (js "consume.times") "invalid_times" "times must be an integer >= 1")
  after ← optional (get_key "resetAfterMs" fs) (λ value.
      integer_in 1 none value (
        issue (js "consume.resetAfterMs") "invalid_reset"
          "resetAfterMs must be a positive integer"))
  ok (record { times = times; reset_after_ms = after })
