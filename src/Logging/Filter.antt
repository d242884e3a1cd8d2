-- ===== src/Logging/Filter.antt =====
-- The filters of `list`: `matchesFilter` and `parseGrpcPath` of src/logging/traffic-log.ts.
use morpheus_proxy.Prelude.{
  ℕ, Bool, true, false, not, ◌&&◌, ◌||◌, Option, none, some, [], ◌∷◌, ◌++◌, Text, text_eq, text_lt,
  starts_with, any, ◌==◌, if◌then◌else◌, length, ltb, is_some,
}
use morpheus_proxy.Rules.Types.{Protocol, protocol_eq, grpc}
use morpheus_proxy.Logging.Messages.{Platform}
use morpheus_proxy.Logging.TrafficLog.{TrafficLogEntry, LogOutcome}

-- What a filter asks; dates are compared as texts.
pub record LogFilter : Type 0 where
  pub protocol : Option Protocol
  pub method : Option Text
  pub path : Option Text
  pub grpc_service : Option Text
  pub grpc_method : Option Text
  pub rule_id : Option Text
  pub outcome : Option LogOutcome
  pub from : Option Text
  pub to : Option Text
  pub status_code : Option ℕ
  pub grpc_status : Option ℕ
  pub contains : Option Text

-- What stands before the first slash, and behind it.
unfoldable pub split_slash : Text → Text → Option (Text × Text)
split_slash part [] = none
split_slash part (c ∷ s) =
    let later = split_slash (part ++ c ∷ []) s in if c == b'/' then some (part, s) else later

abbrev is_segment : Text → Bool
is_segment s = ltb 0 (length s) && not (any (λ c. c == b'/') s)

abbrev service_and_method : Option (Text × Text) → Option (Text × Text)
service_and_method none = none
service_and_method (some (service, method)) =
    if is_segment service && is_segment method then some (service, method) else none

-- /^\/([^/]+)\/([^/]+)$/
unfoldable pub parse_grpc_path : Option Text → Option (Text × Text)
unfolding split_slash
parse_grpc_path none = none
parse_grpc_path (some []) = none
parse_grpc_path (some (c ∷ s)) = if c == b'/' then service_and_method (split_slash [] s) else none

-- `text.includes(part)`
unfoldable pub includes : Text → Text → Bool
includes [] part = starts_with [] part
includes (c ∷ s) part = starts_with (c ∷ s) part || includes s part

-- A test that an absent field of the filter passes.
abbrev asks : {A : Type 0} → Option A → (A → Bool) → Bool
asks none test = true
asks (some a) test = test a

abbrev is_text : Option Text → Text → Bool
is_text none t = false
is_text (some u) t = text_eq u t

abbrev is_number : Option ℕ → ℕ → Bool
is_number none n = false
is_number (some m) n = m == n

abbrev or_empty : Option Text → Text
or_empty none = []
or_empty (some t) = t

abbrev outcome_code : LogOutcome → ℕ
outcome_code LogOutcome.captured = 0
outcome_code LogOutcome.mock = 1
outcome_code LogOutcome.fault = 2
outcome_code LogOutcome.modified = 3
outcome_code LogOutcome.delayed = 4
outcome_code LogOutcome.upstream_error = 5
outcome_code LogOutcome.rule_error = 6
outcome_code LogOutcome.client_aborted = 7

abbrev parsed_service : Option (Text × Text) → Option Text
parsed_service none = none
parsed_service (some (service, method)) = some service

abbrev parsed_method : Option (Text × Text) → Option Text
parsed_method none = none
parsed_method (some (service, method)) = some method

abbrev matches_grpc : LogFilter → TrafficLogEntry → Bool
matches_grpc filter entry =
    if is_some filter.grpc_service || is_some filter.grpc_method
    then protocol_eq entry.protocol grpc
      && asks filter.grpc_service (is_text (parsed_service (parse_grpc_path entry.request.path)))
      && asks filter.grpc_method (is_text (parsed_method (parse_grpc_path entry.request.path)))
    else true

-- The texts that `contains` looks into, joined by line feeds.
abbrev haystack : Platform → TrafficLogEntry → Text
haystack platform entry =
    entry.id
    ++ 10 ∷ or_empty entry.request.path
    ++ 10 ∷ or_empty entry.request.body_preview
    ++ 10 ∷ or_empty entry.response.body_preview
    ++ 10 ∷ platform.stringify_headers entry.request.headers
    ++ 10 ∷ platform.stringify_headers entry.response.headers

unfoldable pub matches_filter : Platform → LogFilter → TrafficLogEntry → Bool
unfolding parse_grpc_path includes
matches_filter platform filter entry =
    asks filter.protocol (λ p. protocol_eq entry.protocol p)
    && asks filter.method (is_text entry.request.method)
    && asks filter.path (includes (or_empty entry.request.path))
    && matches_grpc filter entry
    && asks filter.rule_id (λ id. any (λ rule. text_eq rule.id id) entry.matched_rules)
    && asks filter.outcome (λ o. outcome_code entry.outcome == outcome_code o)
    && asks filter.from (λ t. not (text_lt entry.started_at t))
    && asks filter.to (λ t. not (text_lt t entry.started_at))
    && asks filter.status_code (is_number entry.response.status_code)
    && asks filter.grpc_status (is_number entry.response.grpc_status)
    && asks filter.contains (includes (haystack platform entry))
