-- ===== src/Proxy/Pipeline/Exchange.antt =====
-- The data of src/proxy/pipeline.ts, what an exchange does to its surroundings, and the writing of
-- its log entry.
use morpheus_proxy.Prelude.{
  ℕ, Bool, true, false, not, ◌&&◌, ◌||◌, Option, none, some, List, [], ◌∷◌, ◌++◌, Text, js, Result,
  map, any, is_some, if◌then◌else◌, ◌==◌, lookup,
}
use morpheus_proxy.Json.{Fields}
use morpheus_proxy.Grpc.Frames.{Buffer}
use morpheus_proxy.Rules.Types.{Protocol, Rule, ScriptManipulatorAction}
use morpheus_proxy.Rules.Matcher.{
  HeaderMap, RegExp, ScriptMatcherRunner, MatchInput, RequestSnapshot,
}
use morpheus_proxy.Rules.Consume.{Registry}
use morpheus_proxy.Rules.Evaluate.{RequestEvaluation, RuleErrorInfo, Readings}
use morpheus_proxy.Logging.Messages.{Platform, MessageDraft}
use morpheus_proxy.Logging.TrafficLog.{
  TrafficEventDraft, LogOutcome, LoggingReason, TimingInfo, Flagged,
}
use morpheus_proxy.Proxy.Headers.{header_value, and_then_first}
use morpheus_proxy.Proxy.Body.{StreamEvent}
use morpheus_proxy.Proxy.Upstream.{
  UpstreamTarget, UpstreamRequestInit, UpstreamReply, UpstreamFailure, StreamBody,
}

pub record ListenerConfig : Type 0 where
  pub name : Text
  pub protocol : Protocol
  pub upstream : Text
  pub max_request_body_buffer_bytes : ℕ
  pub max_response_body_buffer_bytes : ℕ

pub record ManipulatorInput : Type 0 where
  pub input : MatchInput
  pub duration_ms : ℕ

-- What a script answers, or the message of what it throws.
abbrev pub ManipulatorRunner : Type 0
ManipulatorRunner = ScriptManipulatorAction → ManipulatorInput → Result Text Fields

-- The part of an exchange that the client gives. `stream` has the events of the body.
pub record HttpExchange : Type 0 where
  pub method : Text
  pub raw_path : Text
  pub authority : Text
  pub headers : HeaderMap
  pub client : Text
  pub is_http2_stream : Bool
  pub stream : List StreamEvent

-- What the clock and the client do while an exchange is handled.
pub record Course : Type 0 where
  pub uuid : Text
  pub started_at : ℕ
  pub ended_at : ℕ
  pub readings : Rule → Readings
  pub meanwhile : Rule → Registry → Registry
  pub upstream_ms : ℕ
  pub while_upstream : Registry → Registry
  pub matched_at : ℕ
  pub elapsed : ℕ
  pub while_delayed : Registry → Registry
  pub viewed_at : ℕ
  pub is_gone_at_error : Bool
  pub is_gone_at_log : Bool

-- The runtime, with the snapshot of its rules, and what the environment gives: `number` is
-- `Number(value)` rounded up, where it is finite and not negative; `error_json` prints an error and
-- its message; `limit_json` prints the limit that a body passed.
pub record ProxyRuntime : Type 0 where
  pub listener : ListenerConfig
  pub upstream_timeout_ms : ℕ
  pub rules : List Rule
  pub re : RegExp
  pub platform : Platform
  pub from_base64 : Text → Buffer
  pub number : Text → Option ℕ
  pub error_json : (error message : Text) → Text
  pub limit_json : ℕ → Text
  pub script_runner : Option ScriptMatcherRunner
  pub manipulator_runner : Option ManipulatorRunner
  pub send_to_upstream : UpstreamTarget → UpstreamRequestInit → Result UpstreamFailure UpstreamReply

-- The calls of an exchange on its client, the metrics and the logs, and its timers.
pub data Effect : Type 0 where
  respond : (status : ℕ) → HeaderMap → Buffer → Effect
  respond_stream : (status : ℕ) → HeaderMap → StreamBody → Effect
  destroy : (reset : Bool) → Effect
  destroy_upstream : Effect
  sleep : (ms : ℕ) → Effect
  send : UpstreamRequestInit → Effect
  record_request : (outcome : Text) (rule_ids : List Text) (ms : Option ℕ) → Effect
  record_script_error : Effect
  add : TrafficEventDraft → Effect
  warn : (message : Text) → Effect

pub record OutcomeFlags : Type 0 where
  pub mock : Bool
  pub fault : Bool
  pub modified : Bool
  pub delayed : Bool
  pub upstream_error : Bool
  pub client_aborted : Bool

unfoldable pub decide_outcome : OutcomeFlags → (has_rule_errors : Bool) → LogOutcome
decide_outcome flags has_rule_errors =
    if flags.client_aborted
    then LogOutcome.client_aborted
    else if flags.upstream_error
    then LogOutcome.upstream_error
    else if flags.mock
    then LogOutcome.mock
    else if flags.fault
    then LogOutcome.fault
    else if flags.modified
    then LogOutcome.modified
    else if flags.delayed
    then LogOutcome.delayed
    else if has_rule_errors
    then LogOutcome.rule_error
    else LogOutcome.captured

unfoldable pub outcome_text : LogOutcome → Text
outcome_text LogOutcome.captured = js "captured"
outcome_text LogOutcome.mock = js "mock"
outcome_text LogOutcome.fault = js "fault"
outcome_text LogOutcome.modified = js "modified"
outcome_text LogOutcome.delayed = js "delayed"
outcome_text LogOutcome.upstream_error = js "upstream_error"
outcome_text LogOutcome.rule_error = js "rule_error"
outcome_text LogOutcome.client_aborted = js "client_aborted"

-- What stands before the first `?`, and what stands behind it.
unfoldable pub split_raw_path : Text → Text × Text
split_raw_path [] = ([], [])
split_raw_path (c ∷ raw) =
    let (path, query) = split_raw_path raw in if c == b'?' then ([], raw) else (c ∷ path, query)

unfoldable pub join_path : Text → Text → Text
join_path path [] = path
join_path path (c ∷ query) = path ++ js "?" ++ c ∷ query

unfoldable pub content_length_of : (Text → Option ℕ) → HeaderMap → Option ℕ
content_length_of number headers = elim (and_then_first (lookup (js "content-length") headers)) [
  | none ↦ none
  | some value ↦ number value
]

-- What is settled before the stages: the snapshot of the request, its body, and its evaluation.
pub record Context : Type 0 where
  pub request : RequestSnapshot
  pub body : Option Buffer
  pub skip_reason : Option Text
  pub tail : Option Buffer
  pub evaluation : RequestEvaluation

-- The variables of an exchange. The last effect stands first.
pub record Vars : Type 0 where
  pub flags : OutcomeFlags
  pub timing : TimingInfo
  pub rule_errors : List RuleErrorInfo
  pub forwarded : Option (Flagged MessageDraft)
  pub upstream : Option (Flagged MessageDraft)
  pub logged : Bool
  pub registry : Registry
  pub effects : List Effect

-- How a stretch of the code ends: it goes on, returns from the function, throws, or waits for ever
-- on a stream that does not settle.
pub data Ended (A : Type 0) : Type 0 where
  going : A → Ended A
  returned : Ended A
  threw : Text → Ended A
  waits : Ended A

pub record Flowed (A : Type 0) : Type 0 where
  pub vars : Vars
  pub ended : Ended A

abbrev pub Flow : Type 0 → Type 0
Flow A = Vars → Flowed A

abbrev pub go : {A : Type 0} → A → Flow A
go a v = record { vars = v; ended = going a }

abbrev pub stop : {A : Type 0} → Flow A
stop v = record { vars = v; ended = returned }

abbrev pub throw : {A : Type 0} → Text → Flow A
throw e v = record { vars = v; ended = threw e }

abbrev pub followed_by : {A B : Type 0} → Vars → Ended A → (A → Flow B) → Flowed B
followed_by v (going a) f = f a v
followed_by v returned f = record { vars = v; ended = returned }
followed_by v (threw e) f = record { vars = v; ended = threw e }
followed_by v waits f = record { vars = v; ended = waits }

infixl 5 ◌>>=◌
unfoldable pub ◌>>=◌ : {A B : Type 0} → Flow A → (A → Flow B) → Flow B
◌>>=◌ m f v = followed_by (m v).vars (m v).ended f

abbrev pub perform : Effect → Vars → Vars
perform e v = record v { effects = e ∷ v.effects }

abbrev pub push_error : RuleErrorInfo → Vars → Vars
push_error e v = record v { rule_errors = v.rule_errors ++ e ∷ [] }

abbrev pub is_present : {A : Type 0} → List A → Bool
is_present [] = false
is_present (x ∷ xs) = true

abbrev pub is_capturing : Option Rule → Bool
is_capturing none = false
is_capturing (some rule) = rule.logging.capture

abbrev pub persist_needed : Context → OutcomeFlags → Bool
persist_needed ctx flags =
    any (λ r. r.logging.capture) ctx.evaluation.capture_rules
    || is_capturing ctx.evaluation.intercept_rule
    || flags.mock
    || flags.fault
    || flags.modified

abbrev pub kept_if : {A : Type 0} → Bool → Option A → Option A
kept_if true o = o
kept_if false o = none

abbrev pub empty_draft : MessageDraft
empty_draft = record {
  method = none;
  path = none;
  status_code = none;
  grpc_status = none;
  headers = [];
  trailers = none;
  body = none;
  body_skipped_reason = none;
  content_type = none;
}

unfoldable pub request_draft : HttpExchange → Context → OutcomeFlags → MessageDraft
request_draft exchange ctx flags = record empty_draft {
  method = some exchange.method;
  path = some exchange.raw_path;
  headers = exchange.headers;
  body = kept_if (persist_needed ctx flags) ctx.body;
  body_skipped_reason = kept_if (persist_needed ctx flags) ctx.skip_reason;
  content_type = header_value exchange.headers (js "content-type");
}

abbrev is_aborted : LogOutcome → Bool
is_aborted LogOutcome.client_aborted = true
is_aborted LogOutcome.captured = false
is_aborted LogOutcome.mock = false
is_aborted LogOutcome.fault = false
is_aborted LogOutcome.modified = false
is_aborted LogOutcome.delayed = false
is_aborted LogOutcome.upstream_error = false
is_aborted LogOutcome.rule_error = false

abbrev is_upstream_error : LogOutcome → Bool
is_upstream_error LogOutcome.upstream_error = true
is_upstream_error LogOutcome.captured = false
is_upstream_error LogOutcome.mock = false
is_upstream_error LogOutcome.fault = false
is_upstream_error LogOutcome.modified = false
is_upstream_error LogOutcome.delayed = false
is_upstream_error LogOutcome.client_aborted = false
is_upstream_error LogOutcome.rule_error = false

unfoldable pub logging_reason_of :
    LogOutcome → RequestEvaluation → (has_rule_errors : Bool) → LoggingReason
logging_reason_of outcome evaluation has_rule_errors =
    if is_aborted outcome
    then LoggingReason.client_aborted
    else if is_upstream_error outcome && not (is_present evaluation.matched)
    then LoggingReason.upstream_error
    else if is_some evaluation.intercept_rule
    then LoggingReason.matched_rule
    else if has_rule_errors && not (is_present evaluation.capture_rules)
    then LoggingReason.rule_error
    else LoggingReason.capture_rule

-- `recordScriptError`, once for each error.
unfoldable pub script_errors : List RuleErrorInfo → List Effect → List Effect
script_errors [] effects = effects
script_errors (e ∷ es) effects = script_errors es (record_script_error ∷ effects)

abbrev pub should_log : Context → Vars → Bool
should_log ctx v =
    is_some ctx.evaluation.intercept_rule
    || is_present ctx.evaluation.capture_rules
    || is_present v.rule_errors
    || v.flags.upstream_error

unfoldable pub entry_draft :
    ProxyRuntime → Course → HttpExchange → Context → Vars → MessageDraft → TrafficEventDraft
entry_draft runtime course exchange ctx v response =
    let outcome = decide_outcome v.flags (is_present v.rule_errors) in
    record {
      started_at = course.started_at;
      ended_at = course.ended_at;
      protocol = runtime.listener.protocol;
      listener = runtime.listener.name;
      client = exchange.client;
      target = runtime.listener.upstream;
      request = request_draft exchange ctx v.flags;
      forwarded_request = v.forwarded;
      upstream_response = v.upstream;
      response = response;
      outcome = outcome;
      logging_reason = logging_reason_of outcome ctx.evaluation (is_present v.rule_errors);
      matched_rules = ctx.evaluation.matched;
      rule_errors = some v.rule_errors;
      timing = some v.timing;
    }

abbrev pub marked : Course → Vars → Vars
marked course v = record v {
  logged = true;
  flags = if course.is_gone_at_log then record v.flags { client_aborted = true } else v.flags;
}

abbrev pub metered : Context → Vars → Vars
metered ctx v = record v {
  effects = script_errors v.rule_errors (
      record_request
        (if should_log ctx v
          then outcome_text (decide_outcome v.flags (is_present v.rule_errors))
          else js "passthrough")
        (map (λ m. m.id) ctx.evaluation.matched) v.timing.upstream_duration_ms
      ∷ v.effects);
}

-- `writeLog`: the metrics, and the entry where one is due. A failing write of the entry, which is
-- caught, is left out.
unfoldable pub write_log :
    ProxyRuntime → Course → HttpExchange → Context → MessageDraft → Vars → Vars
write_log runtime course exchange ctx response v =
    let w = marked course v in
    let w' = metered ctx w in
    if should_log ctx w
    then perform (add (entry_draft runtime course exchange ctx w response)) w'
    else w'
