-- ===== src/Logging/Tests.antt =====
-- The theorems about src/logging at concrete inputs.
use morpheus_proxy.Prelude.{
  ◌≡◌, refl, ℕ, none, some, List, [], ◌∷◌, Text, js, All, lookup, length, text_eq, take, suc, ◌≤◌,
  to_lower_case, ◌++◌, ◌+◌, ◌<◌,
}
use morpheus_proxy.Json.{Json, str, arr, obj, field, end, cons, nil}
use morpheus_proxy.Rules.Types.{Protocol}
use morpheus_proxy.Rules.Matcher.{HeaderMap, one, many}
use morpheus_proxy.Logging.Mask.{MaskRegistry, mask_headers, apply_path, masked_value, is_masked}
use morpheus_proxy.Logging.Mask.Headers.{mask_headers-lookup}
use morpheus_proxy.Logging.Mask.Paths.{reached, apply_path-reached}
use morpheus_proxy.Logging.Messages.{Platform, MessageDraft}
use morpheus_proxy.Logging.TrafficLog.{
  StoredEntry, TrafficLog, TrafficLogOptions, TrafficEventDraft, LogOutcome, LoggingReason,
  empty_log, add, apply_retention, StoredEntry,
}
use morpheus_proxy.Prelude.{◌+◌, ◌<◌}
use morpheus_proxy.Logging.TrafficLog.Caps.{
  IsNew, IsRest, Starts, add-bounded, apply_retention-Starts, IsNew,
}
use morpheus_proxy.Logging.TrafficLog.Index.{
  calls, adds, retains, clears, Consistent, calls-empty_log-Consistent, bytes_of,
}
use Prim.Native.Nat.{zero}

abbrev mask : MaskRegistry
mask = record {
  headers = js "authorization" ∷ [];
  json_paths = (js "user" ∷ js "token" ∷ []) ∷ [];
  raw_json_paths = js "$.user.token" ∷ [];
}

abbrev ones : ℕ → Text
ones zero = []
ones (suc n) = 49 ∷ ones n

-- A platform that decodes bytes one by one and writes a date as that many ones.
abbrev pub platform : Platform
platform = record {
  from_utf8 = λ b. b;
  to_utf8 = λ t. t;
  to_base64 = λ b. b;
  json = record { parse = λ t. none; stringify = λ v. [] };
  stringify_headers = λ h. [];
  to_iso_string = λ n. ones n;
  parse_date = λ t. length t;
}

abbrev options : TrafficLogOptions
options = record {
  max_entries = 2;
  max_bytes = 5;
  retention_ms = 3;
  mask = mask;
  platform = platform;
}

abbrev message : List ℕ → MessageDraft
message body = record {
  method = none;
  path = none;
  status_code = some 200;
  grpc_status = none;
  headers = [];
  trailers = none;
  body = some body;
  body_skipped_reason = none;
  content_type = none;
}

abbrev exchange : ℕ → TrafficEventDraft
exchange at = record {
  started_at = at;
  ended_at = at;
  protocol = Protocol.http;
  listener = js "http";
  client = [];
  target = [];
  request = message (1 ∷ 2 ∷ []);
  forwarded_request = none;
  upstream_response = none;
  response = message (3 ∷ []);
  outcome = LogOutcome.captured;
  logging_reason = LoggingReason.capture_rule;
  matched_rules = [];
  rule_errors = none;
  timing = none;
}

abbrev headers : HeaderMap
headers = (js "Authorization", many (js "a" ∷ js "b" ∷ [])) ∷ (js "host", one (js "api")) ∷ []

mask_headers-lookup_example :
    lookup (js "Authorization") (mask_headers mask headers)
    ≡ some (many (masked_value ∷ masked_value ∷ []))
unfolding js text_eq to_lower_case lookup is_masked
mask_headers-lookup_example =
    mask_headers-lookup mask headers (js "Authorization") (refl, (refl, tt))

abbrev document : Json
document =
    obj (field (js "user") (arr (cons (obj (field (js "token") (str (js "s")) end)) nil)) end)

apply_path-reached_example :
    All
      (λ w. w ≡ str masked_value)
      (reached (apply_path document (js "user") (js "token" ∷ [])) (js "user") (js "token" ∷ []))
apply_path-reached_example = apply_path-reached document (js "user") (js "token" ∷ [])

abbrev two_logged : TrafficLog
two_logged = (add options (exchange 2) (add options (exchange 1) empty_log).0).0

add-bounded_example :
    let (log, returned) = add options (exchange 4) two_logged in
    (length log.entries ≤ 2)
    × (bytes_of log.entries ≤ 5)
    × ((s : StoredEntry) × IsNew options (exchange 4) two_logged s
        × (s.entry ≡ returned)
        × IsRest (two_logged.entries ++ s ∷ []) log.entries)
unfolding add calls
add-bounded_example =
    add-bounded options (exchange 4) two_logged
      (calls-empty_log-Consistent options (adds (exchange 1) ∷ adds (exchange 2) ∷ []))

apply_retention-Starts_example :
    (two_logged.entries
      ≡ take (apply_retention options 5 two_logged).1 two_logged.entries
        ++ (apply_retention options 5 two_logged).0.entries)
    × All
        (λ s. platform.parse_date s.entry.started_at + options.retention_ms < 5)
        (take (apply_retention options 5 two_logged).1 two_logged.entries)
    × Starts options 5 (apply_retention options 5 two_logged).0.entries
apply_retention-Starts_example = apply_retention-Starts options 5 two_logged

calls-empty_log-Consistent_example :
    Consistent
      (calls options (adds (exchange 1) ∷ adds (exchange 2) ∷ retains 5 ∷ clears ∷ []) empty_log)
calls-empty_log-Consistent_example =
    calls-empty_log-Consistent options
      (adds (exchange 1) ∷ adds (exchange 2) ∷ retains 5 ∷ clears ∷ [])
