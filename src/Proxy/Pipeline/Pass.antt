-- ===== src/Proxy/Pipeline/Pass.antt =====
-- An exchange that no rule is for passes through.
use morpheus_proxy.Proxy.Pipeline.Stages.{answer, answer_error}
use morpheus_proxy.Proxy.Pipeline.Exchange.{outcome_text, decide_outcome}
use morpheus_proxy.Prelude.{
  ap, inl, inr, ◌⊎◌, ◌++◌, err, ℕ, ◌==◌, Bool-cases, if◌then◌else◌, Option, Text, Result,
}
use morpheus_proxy.Grpc.Frames.{Buffer}
use morpheus_proxy.Rules.Matcher.{HeaderMap}
use morpheus_proxy.Logging.TrafficLog.{TrafficEventDraft}
use morpheus_proxy.Proxy.Upstream.{UpstreamFailure, UpstreamFailureReason}
use morpheus_proxy.Prelude.{
  ◌≡◌, refl, sym, arith, Bool, true, false, not, none, some, List, [], ◌∷◌, js, ok, All, ◌||◌, ◌&&◌,
  filter, subst,
}
use morpheus_proxy.Rules.Types.{Rule, protocol_eq}
use morpheus_proxy.Rules.Consume.{Registry}
use morpheus_proxy.Rules.Matcher.{matcher_uses_body}
use morpheus_proxy.Rules.Evaluate.{
  evaluate_rules, evaluate_rule, evaluate_request, no_rules, EvaluateOptions, RequestEvaluation,
  is_skipped,
}
use morpheus_proxy.Proxy.Headers.{strip_hop_by_hop}
use morpheus_proxy.Proxy.Body.{response_body_interest}
use morpheus_proxy.Proxy.Upstream.{
  UpstreamTarget, UpstreamRequestInit, UpstreamReply, parse_upstream, untouched,
}
use morpheus_proxy.Proxy.Pipeline.Exchange.{
  ProxyRuntime, Course, HttpExchange, Effect, returned, ◌>>=◌, write_log, script_errors, join_path,
  split_raw_path, decide_outcome,
}
use morpheus_proxy.Proxy.Pipeline.Stages.{
  run_request_stage, forward, upstream_request, answer_error,
}
use morpheus_proxy.Proxy.Pipeline.Reply.{
  read_response_body, warn_skipped, run_response_stage, send_response,
}
use morpheus_proxy.Proxy.Pipeline.{
  is_active, read_request_body, ready, run_stages, proceed, handle_http_exchange, request_snapshot,
  evaluate_options, answer, outcome_text,
}

filter-none :
    (runtime : ProxyRuntime) (rules : List Rule)
    → All (λ r. is_active runtime r ≡ false) rules
    → filter (is_active runtime) rules ≡ []
filter-none runtime [] h = refl
filter-none runtime (r ∷ rules) h = rw (h.0) (filter-none runtime rules h.1)

skipped_of_inactive : (a b c : Bool) → (a && b) ≡ false → (not a || not b || c) ≡ true
skipped_of_inactive a b c h = ground arith

evaluate_rules-inactive :
    (runtime : ProxyRuntime) (opts : EvaluateOptions) (rules : List Rule) (registry : Registry)
    (acc : RequestEvaluation)
    → opts.protocol ≡ runtime.listener.protocol
    → All (λ r. is_active runtime r ≡ false) rules
    → evaluate_rules opts rules registry acc ≡ (acc, registry)
unfolding evaluate_rules evaluate_rule
evaluate_rules-inactive runtime opts [] registry acc p h = refl
evaluate_rules-inactive runtime opts (r ∷ rules) registry acc p h =
    let skipped : is_skipped opts r ≡ true =
      skipped_of_inactive r.enabled (protocol_eq r.protocol opts.protocol)
        (opts.streaming && matcher_uses_body r.match)
        (subst (λ q. (r.enabled && protocol_eq r.protocol q) ≡ false) (sym p) h.0) in
    rw skipped (evaluate_rules-inactive runtime opts rules registry acc p h.1)

read_request_body-inactive :
    (runtime : ProxyRuntime) (exchange : HttpExchange)
    → All (λ r. is_active runtime r ≡ false) runtime.rules
    → read_request_body runtime exchange ≡ ready none none none
unfolding read_request_body
read_request_body-inactive runtime exchange h = rw (filter-none runtime runtime.rules h)

join_path-cons : (c : ℕ) (path query : Text) → join_path (c ∷ path) query ≡ c ∷ join_path path query
unfolding join_path
join_path-cons c path [] = refl
join_path-cons c path (d ∷ query) = refl

-- The address as it came, or less a question mark at its end.
abbrev pub IsAddress : Text → Text → Type 0
IsAddress raw path = (path ≡ raw) ⊎ (path ++ js "?" ≡ raw)

cons-IsAddress : (c : ℕ) (raw path : Text) → IsAddress raw path → IsAddress (c ∷ raw) (c ∷ path)
cons-IsAddress c raw path (inl e) = inl (ap (λ p. c ∷ p) e)
cons-IsAddress c raw path (inr e) = inr (ap (λ p. c ∷ p) e)

question-IsAddress : (c : ℕ) (raw : Text) → c ≡ b'?' → IsAddress (c ∷ raw) (join_path [] raw)
unfolding join_path js
question-IsAddress c [] e = inr (ap (λ d. d ∷ []) (sym e))
question-IsAddress c (d ∷ raw) e = inl (ap (λ k. k ∷ d ∷ raw) (sym e))

join_path-split_raw_path :
    (raw : Text) → IsAddress raw (join_path (split_raw_path raw).0 (split_raw_path raw).1)
unfolding split_raw_path join_path
join_path-split_raw_path [] = inl refl
join_path-split_raw_path (c ∷ raw) = elim (Bool-cases (c == b'?')) [
  | inl e ↦ rw e (question-IsAddress c raw (ground arith))
  | inr e ↦
      rw (e, join_path-cons c (split_raw_path raw).0 (split_raw_path raw).1)
        (cons-IsAddress c raw _ (join_path-split_raw_path raw))
]

-- What is sent for an exchange that passes: the request with that path, less the headers of its
-- connection.
abbrev pub passed_request : ProxyRuntime → HttpExchange → Text → UpstreamRequestInit
passed_request runtime exchange path = record {
  method = exchange.method;
  path = path;
  authority = exchange.authority;
  headers = strip_hop_by_hop exchange.headers;
  body = some untouched;
  timeout_ms = runtime.upstream_timeout_ms;
}

-- The status for a failure of the upstream.
abbrev pub failure_status : Option UpstreamFailureReason → ℕ
failure_status none = 502
failure_status (some UpstreamFailureReason.timeout) = 504
failure_status (some UpstreamFailureReason.connect_failed) = 502
failure_status (some UpstreamFailureReason.reset) = 502

-- What is done for an exchange that passes, the last first.
abbrev pub Passes :
    Course → UpstreamRequestInit → Result UpstreamFailure UpstreamReply → List Effect → Type 0
Passes course sent (ok reply) effects =
    effects
    ≡ Effect.record_request (js "passthrough") [] (some course.upstream_ms)
      ∷ Effect.respond_stream reply.status_code (strip_hop_by_hop reply.headers) untouched
      ∷ Effect.send sent
      ∷ []
Passes course sent (err failure) effects =
    (draft : TrafficEventDraft) × (headers : HeaderMap) × (body : Buffer) × (effects
      ≡ Effect.add draft
        ∷ Effect.record_request
            (if course.is_gone_at_log then js "client_aborted" else js "upstream_error") [] none
        ∷ Effect.respond (failure_status failure.reason) headers body
        ∷ Effect.send sent
        ∷ [])

module _ (runtime : ProxyRuntime) (course : Course) (exchange : HttpExchange) (registry : Registry)
    (target : UpstreamTarget) where
  replied-Passes :
      (reply : UpstreamReply)
      → let path =
          join_path (split_raw_path exchange.raw_path).0 (split_raw_path exchange.raw_path).1 in
        let flowed = handle_http_exchange runtime course exchange registry in
        All (λ r. is_active runtime r ≡ false) runtime.rules
        → parse_upstream runtime.listener.upstream ≡ some target
        → runtime.send_to_upstream target (passed_request runtime exchange path) ≡ ok reply
        → (flowed.ended ≡ returned)
          × (flowed.vars.registry ≡ registry)
          × Passes course (passed_request runtime exchange path) (ok reply) flowed.vars.effects
  unfolding handle_http_exchange proceed evaluate_request run_stages ◌>>=◌ run_request_stage forward
      upstream_request read_response_body response_body_interest warn_skipped run_response_stage
      send_response write_log script_errors request_snapshot
  replied-Passes reply h t s =
      rw
        (
          read_request_body-inactive runtime exchange h,
          evaluate_rules-inactive runtime (evaluate_options runtime course exchange none)
              runtime.rules registry no_rules refl h,
          t,
          s,
        )
        (elim (Bool-cases course.is_gone_at_log) [
          | inl g ↦ rw g (refl, refl, refl)
          | inr g ↦ rw g (refl, refl, refl)
        ])

  failed-Passes :
      (message : Text) (reason : Option UpstreamFailureReason)
      → let failure : UpstreamFailure = record { message = message; reason = reason } in
        let path =
          join_path (split_raw_path exchange.raw_path).0 (split_raw_path exchange.raw_path).1 in
        let flowed = handle_http_exchange runtime course exchange registry in
        All (λ r. is_active runtime r ≡ false) runtime.rules
        → parse_upstream runtime.listener.upstream ≡ some target
        → runtime.send_to_upstream target (passed_request runtime exchange path) ≡ err failure
        → (flowed.ended ≡ returned)
          × (flowed.vars.registry ≡ registry)
          × Passes course (passed_request runtime exchange path) (err failure) flowed.vars.effects
  unfolding handle_http_exchange proceed evaluate_request run_stages ◌>>=◌ run_request_stage forward
      upstream_request read_response_body response_body_interest warn_skipped run_response_stage
      send_response write_log script_errors request_snapshot answer_error answer decide_outcome
      outcome_text
  failed-Passes message none h t s =
      rw
        (
          read_request_body-inactive runtime exchange h,
          evaluate_rules-inactive runtime (evaluate_options runtime course exchange none)
              runtime.rules registry no_rules refl h,
          t,
          s,
        )
        (elim (Bool-cases course.is_gone_at_log) [
          | inl g ↦ rw g (refl, refl, (_, _, _, refl))
          | inr g ↦ rw g (refl, refl, (_, _, _, refl))
        ])
  failed-Passes message (some UpstreamFailureReason.connect_failed) h t s =
      rw
        (
          read_request_body-inactive runtime exchange h,
          evaluate_rules-inactive runtime (evaluate_options runtime course exchange none)
              runtime.rules registry no_rules refl h,
          t,
          s,
        )
        (elim (Bool-cases course.is_gone_at_log) [
          | inl g ↦ rw g (refl, refl, (_, _, _, refl))
          | inr g ↦ rw g (refl, refl, (_, _, _, refl))
        ])
  failed-Passes message (some UpstreamFailureReason.timeout) h t s =
      rw
        (
          read_request_body-inactive runtime exchange h,
          evaluate_rules-inactive runtime (evaluate_options runtime course exchange none)
              runtime.rules registry no_rules refl h,
          t,
          s,
        )
        (elim (Bool-cases course.is_gone_at_log) [
          | inl g ↦ rw g (refl, refl, (_, _, _, refl))
          | inr g ↦ rw g (refl, refl, (_, _, _, refl))
        ])
  failed-Passes message (some UpstreamFailureReason.reset) h t s =
      rw
        (
          read_request_body-inactive runtime exchange h,
          evaluate_rules-inactive runtime (evaluate_options runtime course exchange none)
              runtime.rules registry no_rules refl h,
          t,
          s,
        )
        (elim (Bool-cases course.is_gone_at_log) [
          | inl g ↦ rw g (refl, refl, (_, _, _, refl))
          | inr g ↦ rw g (refl, refl, (_, _, _, refl))
        ])

-- Where no rule of the listener's protocol is enabled, the exchange passes through to an upstream
-- that can be addressed. The request is sent on with its stream untouched and nothing removed but
-- the headers of the connection and a question mark at the end of the address. A reply is sent back
-- with its stream untouched and nothing but the headers of the connection removed, counted as a
-- passthrough without rule hits, and not logged. A failure of the upstream is answered with 504 for
-- a timeout and 502 otherwise, counted as an error of the upstream, or as aborted if the client has
-- gone, and logged. No counter of a rule changes.
pub handle_http_exchange-inactive :
    (runtime : ProxyRuntime) (course : Course) (exchange : HttpExchange) (registry : Registry)
    (target : UpstreamTarget)
    → All (λ r. is_active runtime r ≡ false) runtime.rules
    → parse_upstream runtime.listener.upstream ≡ some target
    → let flowed = handle_http_exchange runtime course exchange registry in
      (path : Text) × IsAddress exchange.raw_path path
      × (flowed.ended ≡ returned)
      × (flowed.vars.registry ≡ registry)
      × Passes course
          (passed_request runtime exchange path)
          (runtime.send_to_upstream target (passed_request runtime exchange path))
          flowed.vars.effects
handle_http_exchange-inactive runtime course exchange registry target h t =
    let path =
      join_path (split_raw_path exchange.raw_path).0 (split_raw_path exchange.raw_path).1 in
    let sent = passed_request runtime exchange path in
    let flowed = handle_http_exchange runtime course exchange registry in
    let (ended, kept, passes) = go (runtime.send_to_upstream target sent) refl in
    (path, join_path-split_raw_path exchange.raw_path, ended, kept, passes)
  where
    go :
        (result : Result UpstreamFailure UpstreamReply)
        → let path =
            join_path (split_raw_path exchange.raw_path).0 (split_raw_path exchange.raw_path).1 in
          let sent = passed_request runtime exchange path in
          let flowed = handle_http_exchange runtime course exchange registry in
          runtime.send_to_upstream target sent ≡ result
          → (flowed.ended ≡ returned)
            × (flowed.vars.registry ≡ registry)
            × Passes course sent (runtime.send_to_upstream target sent) flowed.vars.effects
    go (ok reply) s = rw s (replied-Passes runtime course exchange registry target reply h t s)
    go (err failure) s =
        rw s (
          failed-Passes runtime course exchange registry target failure.message failure.reason h t
            s)
