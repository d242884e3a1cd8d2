-- ===== src/Rules/Validate/Valid.antt =====
-- What a well-formed rule is, independently of how validation finds out.
use morpheus_proxy.Prelude.{
  List, ◌∷◌, js, text_eq, starts_with, any, ◌||◌, ℕ, ◌≤◌, ◌<◌, ◌≡◌, ◌⊎◌, true, false, Option, none,
  some, [], Text, All, length, is_some,
}
use morpheus_proxy.Rules.Types.{
  Rule, Matcher, Conditions, Protocol, http, grpc, Stage, Delay, FaultSpec, MockResponse,
  RewriteOperation, RequestAction, ResponseAction, RequestStage, ResponseStage, ConsumeSpec,
  is_observation_rule,
}
use morpheus_proxy.Rules.Matcher.{RegExp, or_empty}
use morpheus_proxy.Rules.Validate.Issues.{is_filled}
use morpheus_proxy.Rules.Validate.Actions.{is_total_request, is_below}
use morpheus_proxy.Rules.Validate.Stages.{is_header_target}
use morpheus_proxy.Rules.Validate.{ValidateEnv, is_id}

abbrev pub Present : {A : Type 0} → (A → Type 0) → Option A → Type 0
Present P none = Unit
Present P (some a) = P a

abbrev pub IsPositive : ℕ → Type 0
IsPositive n = 1 ≤ n

-- The fields of a stage that need no name of a header or trailer, by the protocol.
unfoldable pub field_names : Stage → Protocol → List Text
field_names Stage.request http =
    js "method" ∷ js "host" ∷ js "path" ∷ js "query" ∷ js "body" ∷ js "rawBodyBase64" ∷ []
field_names Stage.request grpc =
    js "host"
    ∷ js "path"
    ∷ js "body"
    ∷ js "rawBodyBase64"
    ∷ js "grpc.service"
    ∷ js "grpc.method"
    ∷ []
field_names Stage.response http = js "status" ∷ js "body" ∷ js "rawBodyBase64" ∷ []
field_names Stage.response grpc = js "body" ∷ js "rawBodyBase64" ∷ js "grpc.status" ∷ []

-- A field of a matcher: a header with a name, a trailer of a gRPC response, or one of the names.
abbrev pub IsMatchable : Stage → Protocol → Text → Type 0
IsMatchable stage protocol name =
    ((starts_with name (js "header.") ≡ true) × (7 < length name))
    ⊎ (((stage ≡ Stage.response)
          × (protocol ≡ grpc)
          × (starts_with name (js "grpc.trailer.") ≡ true))
        ⊎ (any (λ known. text_eq known name) (field_names stage protocol) ≡ true))

-- Every pattern is an expression, every field is one of the stage and the protocol, no list of
-- conditions is empty, every script has a source and a positive time.
module _ (re : RegExp) (stage : Stage) (protocol : Protocol) where
  unfoldable mutual
    pub ValidMatcher : Matcher → Type 0
    ValidMatcher (Matcher.regex name pattern' flags) =
        (0 < length name)
        × (re.syntax_error pattern' (or_empty flags) ≡ none)
        × IsMatchable stage protocol name
    ValidMatcher (Matcher.all cs) = ValidConditions cs
    ValidMatcher (Matcher.any cs) = ValidConditions cs
    ValidMatcher (Matcher.not m) = ValidMatcher m
    ValidMatcher (Matcher.script s) = (is_filled s.source ≡ true) × Present IsPositive s.timeout_ms

    pub ValidConditions : Conditions → Type 0
    ValidConditions Conditions.nil = ⊥
    ValidConditions (Conditions.cons m cs) = ValidMatcher m × AllValid cs

    pub AllValid : Conditions → Type 0
    AllValid Conditions.nil = Unit
    AllValid (Conditions.cons m cs) = ValidMatcher m × AllValid cs

abbrev pub ValidDelay : Stage → Delay → Type 0
ValidDelay stage delay = IsPositive delay.duration_ms × (is_total_request delay.mode stage ≡ false)

abbrev pub ValidFault : Protocol → FaultSpec → Type 0
ValidFault protocol (FaultSpec.http_response status headers body) =
    (protocol ≡ http) × (100 ≤ status) × (status ≤ 599)
ValidFault protocol (FaultSpec.grpc_status status message metadata) =
    (protocol ≡ grpc) × (status ≤ 16)
ValidFault protocol (FaultSpec.connection mode) = Unit
ValidFault protocol (FaultSpec.timeout duration) = Present IsPositive duration

-- An HTTP mock has a status and nothing of gRPC; a gRPC mock the other way round.
abbrev pub ValidMock : Protocol → MockResponse → Type 0
ValidMock http mock =
    Present (λ n. (100 ≤ n) × (n ≤ 599)) mock.status_code
    × (is_some mock.status_code ≡ true)
    × (mock.grpc_status ≡ none)
    × (mock.grpc_message ≡ none)
    × (mock.messages ≡ none)
    × (mock.metadata ≡ none)
ValidMock grpc mock =
    Present (λ n. n ≤ 16) mock.grpc_status
    × (is_some mock.grpc_status ≡ true)
    × (mock.status_code ≡ none)
    × (mock.headers ≡ none)
    × (mock.body ≡ none)

abbrev pub ValidOperation : RegExp → Protocol → RewriteOperation → Type 0
ValidOperation re protocol (RewriteOperation.set_header name value) = 0 < length name
ValidOperation re protocol (RewriteOperation.remove_header name) = 0 < length name
ValidOperation re protocol (RewriteOperation.set_path value) = protocol ≡ http
ValidOperation re protocol (RewriteOperation.set_query value) = protocol ≡ http
ValidOperation re protocol (RewriteOperation.replace_body from to) =
    (protocol ≡ http) × (re.syntax_error from [] ≡ none)

abbrev pub ValidRequestAction : RegExp → Protocol → RequestAction → Type 0
ValidRequestAction re protocol (RequestAction.mock_response mock) = ValidMock protocol mock
ValidRequestAction re protocol (RequestAction.fault fault) = ValidFault protocol fault
ValidRequestAction re protocol (RequestAction.request_rewrite ops) =
    (0 < length ops) × All (ValidOperation re protocol) ops

abbrev pub ValidTimeout : Option ℕ → ℕ → Type 0
ValidTimeout max timeout = IsPositive timeout × (is_below max timeout ≡ true)

abbrev pub ValidResponseAction : RegExp → Option ℕ → Protocol → ResponseAction → Type 0
ValidResponseAction re max protocol (ResponseAction.fault fault) = ValidFault protocol fault
ValidResponseAction re max protocol (ResponseAction.response_replace action) =
    (is_header_target action.target ≡ true) × (re.syntax_error action.from [] ≡ none)
ValidResponseAction re max protocol (ResponseAction.script_manipulator action) =
    (is_filled action.source ≡ true) × Present (ValidTimeout max) action.timeout_ms

-- A stage has a delay or an action.
abbrev pub ValidRequestStage : ValidateEnv → Protocol → RequestStage → Type 0
ValidRequestStage env protocol stage =
    Present (ValidDelay Stage.request) stage.delay
    × Present (ValidRequestAction env.re protocol) stage.action
    × ((is_some stage.delay || is_some stage.action) ≡ true)

abbrev pub ValidResponseStage : ValidateEnv → Protocol → ResponseStage → Type 0
ValidResponseStage env protocol stage =
    Present (ValidMatcher env.re Stage.response protocol) stage.match
    × Present (ValidDelay Stage.response) stage.delay
    × Present (ValidResponseAction env.re env.script_max_timeout_ms protocol) stage.action
    × ((is_some stage.delay || is_some stage.action) ≡ true)

abbrev pub ValidConsume : ConsumeSpec → Type 0
ValidConsume spec = IsPositive spec.times × Present IsPositive spec.reset_after_ms

pub record ValidRule (env : ValidateEnv) (rule : Rule) : Type 0 where
  pub version : rule.schema_version ≡ 1
  pub id : is_id rule.id ≡ true
  pub match : ValidMatcher env.re Stage.request rule.protocol rule.match
  pub request : Present (ValidRequestStage env rule.protocol) rule.request
  pub response : Present (ValidResponseStage env rule.protocol) rule.response
  pub consume : Present ValidConsume rule.consume
  -- An observation rule captures.
  pub captures : (is_observation_rule rule ≡ false) ⊎ (rule.logging.capture ≡ true)
