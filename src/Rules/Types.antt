-- ===== src/Rules/Types.antt =====
-- src/rules/types.ts. Optional properties are `Option`, a `Record<string, string>` is the list of
-- its entries, and `language`, which has one value, is left out.
use morpheus_proxy.Prelude.{
  ℕ, ℤ, Bool, true, false, ◌&&◌, not as negate, Option, List, Text, is_some,
}
use morpheus_proxy.Json.{Json}

pub data Protocol : Type 0 where
  http grpc : Protocol

pub data Stage : Type 0 where
  request response : Stage

pub record ScriptMatcher : Type 0 where
  pub source : Text
  pub timeout_ms : Option ℕ

mutual
  pub data Matcher : Type 0 where
    regex : (field pattern : Text) (flags : Option Text) → Matcher
    all : Conditions → Matcher
    any : Conditions → Matcher
    not : Matcher → Matcher
    script : ScriptMatcher → Matcher

  pub data Conditions : Type 0 where
    nil : Conditions
    cons : Matcher → Conditions → Conditions

pub data DelayMode : Type 0 where
  fixed total : DelayMode

pub record Delay : Type 0 where
  pub duration_ms : ℕ
  pub mode : Option DelayMode

-- `HttpMockResponse & GrpcMockResponse`
pub record MockResponse : Type 0 where
  pub status_code : Option ℕ
  pub headers : Option (List (Text × Text))
  pub body : Option Text
  pub grpc_status : Option ℕ
  pub grpc_message : Option Text
  pub messages : Option (List Json)
  pub metadata : Option (List (Text × Text))

pub data ConnectionMode : Type 0 where
  close reset : ConnectionMode

pub data FaultSpec : Type 0 where
  http_response :
      (status_code : ℕ) (headers : Option (List (Text × Text))) (body : Option Text) → FaultSpec
  grpc_status :
      (status : ℕ) (message : Option Text) (metadata : Option (List (Text × Text))) → FaultSpec
  connection : ConnectionMode → FaultSpec
  timeout : (duration_ms : Option ℕ) → FaultSpec

pub data RewriteOperation : Type 0 where
  set_header : (name value : Text) → RewriteOperation
  remove_header : (name : Text) → RewriteOperation
  set_path : (value : Text) → RewriteOperation
  set_query : (value : Text) → RewriteOperation
  replace_body : (from to : Text) → RewriteOperation

pub record ResponseReplaceAction : Type 0 where
  pub target : Text
  pub from : Text
  pub to : Text

pub record ScriptManipulatorAction : Type 0 where
  pub source : Text
  pub timeout_ms : Option ℕ

pub data RequestAction : Type 0 where
  mock_response : MockResponse → RequestAction
  fault : FaultSpec → RequestAction
  request_rewrite : List RewriteOperation → RequestAction

pub data ResponseAction : Type 0 where
  fault : FaultSpec → ResponseAction
  response_replace : ResponseReplaceAction → ResponseAction
  script_manipulator : ScriptManipulatorAction → ResponseAction

pub record RequestStage : Type 0 where
  pub delay : Option Delay
  pub action : Option RequestAction

pub record ResponseStage : Type 0 where
  pub match : Option Matcher
  pub delay : Option Delay
  pub action : Option ResponseAction

pub record ConsumeSpec : Type 0 where
  pub times : ℕ
  pub reset_after_ms : Option ℕ

pub record RuleLogging : Type 0 where
  pub capture : Bool

pub record Rule : Type 0 where
  pub schema_version : ℕ
  pub id : Text
  pub name : Text
  pub description : Text
  pub enabled : Bool
  pub priority : ℤ
  pub protocol : Protocol
  pub match : Matcher
  pub request : Option RequestStage
  pub response : Option ResponseStage
  pub consume : Option ConsumeSpec
  pub logging : RuleLogging
  pub created_at : Text
  pub updated_at : Text

unfoldable pub is_observation_rule : Rule → Bool
is_observation_rule rule = negate (is_some rule.request) && negate (is_some rule.response)

unfoldable pub is_terminal_request_action : RequestAction → Bool
is_terminal_request_action (mock_response r) = true
is_terminal_request_action (RequestAction.fault f) = true
is_terminal_request_action (request_rewrite ops) = false

-- `===` of protocols
abbrev pub protocol_eq : Protocol → Protocol → Bool
protocol_eq http http = true
protocol_eq http grpc = false
protocol_eq grpc http = false
protocol_eq grpc grpc = true
