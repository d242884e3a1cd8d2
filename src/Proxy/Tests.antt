-- ===== src/Proxy/Tests.antt =====
-- The theorems about src/proxy at concrete inputs.
use morpheus_proxy.Prelude.{
  ◌≡◌, refl, none, some, [], ◌∷◌, js, to_lower_case, lookup, text_eq, any, starts_with, false, ◌&&◌,
  true, is_some, List, ◌||◌, ok,
}
use morpheus_proxy.Rules.Matcher.{HeaderMap, one, many, header_values}
use morpheus_proxy.Logging.Tests.{platform}
use morpheus_proxy.Rules.Types.{RewriteOperation}
use morpheus_proxy.Proxy.Actions.{RewritableRequest, apply_rewrite_operations, rewrite}
use morpheus_proxy.Proxy.Actions.Rewrite.{Keeps, Told, apply_rewrite_operations-Keeps}
use morpheus_proxy.Rules.Tests.{prefix_engine, options, twice, watching, other_body}
use morpheus_proxy.Rules.Evaluate.{evaluate_request}
use morpheus_proxy.Rules.Evaluate.Streaming.{with_body}
use morpheus_proxy.Rules.Matcher.{matcher_uses_body, matcher_has_script, collect_matcher_fields}
use morpheus_proxy.Proxy.Body.{
  StreamEvent, chunk, end, prefix, new_reader, read_body_up_to, read_body_with_limit,
  request_body_interest, rule_needs_request_body, wants_request_body,
}
use morpheus_proxy.Proxy.Body.Interest.{
  request_body_interest-any, request_body_interest-evaluate_request,
}
use morpheus_proxy.Proxy.Body.Limits.{
  limited, read_body_up_to-settles, read_body_with_limit-limited,
}
use morpheus_proxy.Proxy.Headers.{
  from_raw_headers, strip_hop_by_hop, connection_names, delete_header, set_header, header_value,
  is_stripped,
}
use morpheus_proxy.Proxy.Headers.Edits.{set_header-header_value}
use morpheus_proxy.Proxy.Headers.Raw.{raw_values, from_raw_headers-values}
use morpheus_proxy.Proxy.Headers.Hops.{strip_hop_by_hop-lookup}

-- GET with a Connection header that names another one.
abbrev received : HeaderMap
received =
    (js "host", one (js "api"))
    ∷ (js "connection", one (js "Keep-Alive, X-Hop"))
    ∷ (js "x-hop", one (js "1"))
    ∷ (js "Accept", many (js "a" ∷ js "b" ∷ []))
    ∷ []

set_header-header_value_example :
    (header_value (set_header received (js "X-Id") (one (js "7"))) (js "x-iD") ≡ some (js "7"))
    × (header_values (set_header received (js "X-Id") (one (js "7"))) (js "x-iD") ≡ js "7" ∷ [])
unfolding js to_lower_case
set_header-header_value_example =
    set_header-header_value received (js "X-Id") (js "x-iD") (js "7") refl

from_raw_headers-values_example :
    header_values
      (from_raw_headers
        (js "Set-Cookie" ∷ js "a" ∷ js ":path" ∷ js "/" ∷ js "set-cookie" ∷ js "b" ∷ []))
      (js "SET-COOKIE")
    ≡ js "a" ∷ js "b" ∷ []
unfolding js to_lower_case raw_values text_eq starts_with
from_raw_headers-values_example =
    from_raw_headers-values
      (js "Set-Cookie" ∷ js "a" ∷ js ":path" ∷ js "/" ∷ js "set-cookie" ∷ js "b" ∷ [])
      (js "SET-COOKIE") refl refl

strip_hop_by_hop-lookup_example : lookup (js "x-hop") (strip_hop_by_hop received) ≡ none
unfolding js to_lower_case lookup text_eq connection_names is_stripped
strip_hop_by_hop-lookup_example =
    strip_hop_by_hop-lookup received (js "x-hop") (refl, (refl, (refl, (refl, tt))))

request_body_interest-any_example :
    ((request_body_interest (watching ∷ twice ∷ [])).need
      ≡ any (λ rule. rule.enabled && rule_needs_request_body rule) (watching ∷ twice ∷ []))
    × ((request_body_interest (watching ∷ twice ∷ [])).want
        ≡ any
            (λ rule. rule.enabled && (wants_request_body rule || rule_needs_request_body rule))
            (watching ∷ twice ∷ []))
request_body_interest-any_example = request_body_interest-any (watching ∷ twice ∷ [])

request_body_interest-evaluate_request_example :
    evaluate_request (with_body other_body options) (watching ∷ twice ∷ []) []
    ≡ evaluate_request options (watching ∷ twice ∷ []) []
unfolding request_body_interest rule_needs_request_body matcher_uses_body matcher_has_script js
    text_eq collect_matcher_fields
request_body_interest-evaluate_request_example =
    request_body_interest-evaluate_request other_body options (watching ∷ twice ∷ []) [] refl

-- Three bytes, two more, and the end.
abbrev stream : List StreamEvent
stream = chunk (1 ∷ 2 ∷ 3 ∷ []) ∷ chunk (4 ∷ 5 ∷ []) ∷ end ∷ []

read_body_up_to-settles_example : is_some (read_body_up_to false 9 stream new_reader).settled ≡ true
read_body_up_to-settles_example = read_body_up_to-settles false 9 stream refl

read_body_with_limit-limited_example :
    (read_body_with_limit 4 stream new_reader).settled
    ≡ limited (read_body_up_to false 4 stream new_reader).settled
read_body_with_limit-limited_example =
    read_body_with_limit-limited 4 stream (refl, (refl, (refl, tt)))

-- The passing of the limit is seen on HTTP/2 too, and a whole body is read there with the timer.
read_body_tests :
    ((read_body_up_to true 4 stream new_reader).settled ≡ some (prefix (1 ∷ 2 ∷ 3 ∷ 4 ∷ 5 ∷ [])))
    × ((read_body_up_to true 5 stream new_reader).settled ≡ none)
unfolding read_body_up_to
read_body_tests = (refl, refl)

abbrev upload : RewritableRequest
upload = record { path = js "/a"; query = []; headers = received; body = none }

abbrev operations : List RewriteOperation
operations =
    RewriteOperation.remove_header (js "absent")
    ∷ RewriteOperation.set_path (js "/a")
    ∷ RewriteOperation.replace_body (js "x") (js "y")
    ∷ []

apply_rewrite_operations-Keeps_example :
    let rewriting = apply_rewrite_operations prefix_engine platform operations upload in
    Told false false rewriting.result × Keeps upload rewriting.request rewriting.result
unfolding js text_eq to_lower_case rewrite delete_header
apply_rewrite_operations-Keeps_example =
    apply_rewrite_operations-Keeps prefix_engine platform operations upload

apply_rewrite_tests :
    (apply_rewrite_operations prefix_engine platform operations upload).result
    ≡ ok (record { modified = false; body_modified = false })
unfolding apply_rewrite_operations js text_eq delete_header to_lower_case
apply_rewrite_tests = refl
