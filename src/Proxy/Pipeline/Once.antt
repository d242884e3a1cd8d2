-- ===== src/Proxy/Pipeline/Once.antt =====
-- Every exchange is counted once, and logged and answered once at most.
use morpheus_proxy.Prelude.{
  ◌⊎◌, ◌≤◌, ◌≡◌, refl, sym, ◌∙◌, arith, Bool, true, false, not, Option, none, some, Text, inl, inr,
  All, if◌then◌else◌, ◌||◌, subst, ◌&&◌, ℕ, is_some, ok, filter, js,
}
use morpheus_proxy.Grpc.Frames.{Buffer}
use morpheus_proxy.Rules.Types.{Rule, protocol_eq, is_observation_rule}
use morpheus_proxy.Rules.Consume.{Registry}
use morpheus_proxy.Rules.Evaluate.{evaluate_request, EvaluateOptions, is_skipped}
use morpheus_proxy.Rules.Evaluate.Selection.{evaluate_request-Selected, OfSome}
use morpheus_proxy.Proxy.Pipeline.Exchange.{
  ProxyRuntime, Course, HttpExchange, Context, Vars, Flowed, Ended, going, returned, threw, waits,
  script_errors,
}
use morpheus_proxy.Proxy.Pipeline.Tally.{
  Tally, tally, Over, Tracked, Tracks, bind-Tracks, write_log-Written, answer-Over, Written-Over,
  script_errors-tally, add_if-Written,
}
use morpheus_proxy.Proxy.Pipeline.Tracked.{
  IsHttpRule, IsHttpIntercept, run_request_stage-Tracks, forward-Tracks,
}
use morpheus_proxy.Proxy.Pipeline.TrackedReply.{
  read_response_body-Tracks, warn_skipped-Tracks, run_response_stage-Tracks, send_response-Tracks,
}
use morpheus_proxy.Proxy.Pipeline.{
  BodyPhase, rejected, aborted, unsettled, ready, start, context_of, begin, read_request_body,
  evaluate_options, abort, on_error, run_stages, caught, proceed, handle_phase,
  handle_http_exchange, is_loggable, aborted_entry, Settled, new_reader, on_settled, complete,
  prefix, failed, falls_short, non_empty_body, is_active, content_length_of, exceeds,
}
use morpheus_proxy.Rules.Matcher.{matcher_uses_body}
use morpheus_proxy.Proxy.Upstream.{UpstreamTarget, UpstreamRequestInit, UpstreamReply}
use morpheus_proxy.Proxy.Body.Limits.{comes_to_end, read_body_up_to-ends}
use morpheus_proxy.Proxy.Body.{
  stream_aborted, stream_closed, limit_exceeded, request_body_interest, read_body_up_to,
}

-- How an exchange ends.
abbrev pub Counted : Vars → Ended ⊥ → Type 0
Counted w (going a) = ⊥
Counted w returned = let t = tally w.effects in (t.counted ≡ 1) × (t.added ≤ 1) × (t.sent ≤ 1)
Counted w (threw e) = ⊥
Counted w waits = ⊥

-- A rejected body is answered, and neither counted nor logged.
abbrev pub Handled : BodyPhase → Vars → Ended ⊥ → Type 0
Handled rejected w e =
    (e ≡ returned) × (tally w.effects ≡ record { counted = 0; added = 0; sent = 1 })
Handled aborted w e = Counted w e
Handled unsettled w e = ⊥
Handled (ready body skip_reason tail) w e = Counted w e

abbrev none_yet : Tally
none_yet = record { counted = 0; added = 0; sent = 0 }

abbrev Closed : Tally → Flowed ⊥ → Type 0
Closed s x = (x.ended ≡ returned) × Over s (tally x.vars.effects)

if-Closed :
    (c : Bool) (s : Tally) (x y : Flowed ⊥)
    → Closed s x
    → Closed s y
    → Closed s (if c then x else y)
if-Closed true s x y h k = h
if-Closed false s x y h k = k

Closed-Counted : (x : Flowed ⊥) → Closed none_yet x → Counted x.vars x.ended
Closed-Counted x h = subst (Counted x.vars) (sym h.0) h.1

-- A rule of another protocol, or one without a fault of gRPC.
abbrev pub IsServable : ProxyRuntime → Rule → Type 0
IsServable runtime rule =
    (protocol_eq rule.protocol runtime.listener.protocol ≡ false) ⊎ IsHttpRule rule

second_of_none : (a b c : Bool) → (not a || not b || c) ≡ false → b ≡ true
second_of_none a true c h = refl
second_of_none true false c h = absurd (cc)
second_of_none false false c h = absurd (cc)

not_skipped :
    (opts : EvaluateOptions) (rule : Rule)
    → is_skipped opts rule ≡ false
    → protocol_eq rule.protocol opts.protocol ≡ true
not_skipped opts rule h =
    second_of_none rule.enabled (protocol_eq rule.protocol opts.protocol)
      (opts.streaming && matcher_uses_body rule.match) h

-- The rule that an evaluation selects is of the listener's protocol.
selected-IsHttpIntercept :
    (runtime : ProxyRuntime) (opts : EvaluateOptions)
    → opts.protocol ≡ runtime.listener.protocol
    → (rule : Option Rule)
    → OfSome opts
        (λ r. IsServable runtime r × (is_skipped opts r ≡ false) × (is_observation_rule r ≡ false))
        rule
    → IsHttpIntercept rule
selected-IsHttpIntercept runtime opts p none h = tt
selected-IsHttpIntercept runtime opts p (some rule) h = elim h.0 [
  | inl e ↦
      let served = subst (λ q. protocol_eq rule.protocol q ≡ true) p (not_skipped opts rule h.1) in
      absurd (cc)
  | inr k ↦ k
]

-- The body has been read.
abbrev IsSettled : BodyPhase → Type 0
IsSettled unsettled = ⊥
IsSettled rejected = Unit
IsSettled aborted = Unit
IsSettled (ready body skip_reason tail) = Unit

if-IsSettled :
    (c : Bool) (x y : BodyPhase) → IsSettled x → IsSettled y → IsSettled (if c then x else y)
if-IsSettled true x y h k = h
if-IsSettled false x y h k = k

on_settled-IsSettled :
    (need : Bool) (declared : Option ℕ) (settled : Option Settled)
    → is_some settled ≡ true
    → IsSettled (on_settled need declared settled)
on_settled-IsSettled need declared none h = absurd (cc)
on_settled-IsSettled need declared (some (complete body)) h =
    if-IsSettled (falls_short body declared) aborted (ready (non_empty_body body) none none) tt tt
on_settled-IsSettled need declared (some (prefix bytes)) h =
    if-IsSettled need rejected (ready none (some (js "limit_exceeded")) (some bytes)) tt tt
on_settled-IsSettled need declared (some (failed message)) h = tt
on_settled-IsSettled need declared (some stream_aborted) h = tt
on_settled-IsSettled need declared (some stream_closed) h = tt
on_settled-IsSettled need declared (some limit_exceeded) h = tt

read_request_body-IsSettled :
    (runtime : ProxyRuntime) (exchange : HttpExchange)
    → comes_to_end exchange.is_http2_stream exchange.stream ≡ true
    → IsSettled (read_request_body runtime exchange)
unfolding read_request_body
read_request_body-IsSettled runtime exchange h =
    let interest = request_body_interest (filter (is_active runtime) runtime.rules) in
    let limit = runtime.listener.max_request_body_buffer_bytes in
    let declared = content_length_of runtime.number exchange.headers in
    let phase =
      on_settled interest.need declared
        (read_body_up_to exchange.is_http2_stream limit exchange.stream new_reader).settled in
    let unread : BodyPhase = ready none (some (js "limit_exceeded")) none in
    let cut : BodyPhase = if interest.need then rejected else unread in
    if-IsSettled _ (ready none none none) (if exceeds declared limit then cut else phase) tt (
      if-IsSettled (exceeds declared limit) cut phase
        (if-IsSettled interest.need rejected unread tt tt)
        (on_settled-IsSettled interest.need declared _
          (read_body_up_to-ends exchange.is_http2_stream limit exchange.stream new_reader h)))

-- The bodies of the upstream's replies come to an end.
abbrev RepliesEnd : ProxyRuntime → Type 0
RepliesEnd runtime =
    (target : UpstreamTarget) (request : UpstreamRequestInit) (reply : UpstreamReply)
    → runtime.send_to_upstream target request ≡ ok reply
    → comes_to_end reply.is_http2_stream reply.stream ≡ true

module _ (runtime : ProxyRuntime) (course : Course) (exchange : HttpExchange)
    (replies_end : RepliesEnd runtime) where
  run_stages-Tracks :
      (ctx : Context)
      → IsHttpIntercept ctx.evaluation.intercept_rule
      → Tracks (run_stages runtime course exchange ctx)
  unfolding run_stages
  run_stages-Tracks ctx h =
      bind-Tracks _ _ (run_request_stage-Tracks runtime course exchange ctx h) (λ request.
        forward-Tracks runtime course exchange ctx _ request (λ target sent reply e.
          bind-Tracks _ _
            (read_response_body-Tracks runtime course exchange ctx reply
              (replies_end target sent reply e))
            (λ read.
              bind-Tracks _ _ (warn_skipped-Tracks runtime course exchange ctx read) (λ warned.
                bind-Tracks _ _
                  (run_response_stage-Tracks runtime course exchange ctx reply warned h)
                  (λ response.
                    send_response-Tracks runtime course exchange ctx reply warned response)))))

  on_error-Closed :
      (ctx : Context) (message : Text) (v : Vars)
      → v.logged ≡ false
      → Closed (tally v.effects) (on_error runtime course exchange ctx message v)
  unfolding on_error
  on_error-Closed ctx message v l = rw l (
      if-Closed course.is_gone_at_error (tally v.effects) _ _
        (
          refl,
          Written-Over runtime course exchange ctx _ _
              (write_log-Written runtime course exchange ctx _ _),
        )
        (refl, answer-Over runtime course exchange ctx ⊥ _ _ _ _))

  caught-Counted :
      (ctx : Context) (v w : Vars) (e : Ended ⊥)
      → tally v.effects ≡ none_yet
      → Tracked v w e
      → Counted
          (caught runtime course exchange ctx w e).vars
          (caught runtime course exchange ctx w e).ended
  caught-Counted ctx v w (going a) h k = absurd a
  caught-Counted ctx v w returned h k = subst (λ s. Over s (tally w.effects)) h k
  caught-Counted ctx v w (threw message) h k =
      Closed-Counted (on_error runtime course exchange ctx message w) (
        subst (λ s. Closed s (on_error runtime course exchange ctx message w)) (k.1 ∙ h)
          (on_error-Closed ctx message w k.0))
  caught-Counted ctx v w waits h k = absurd k

  abort-Counted :
      (registry : Registry)
      → Counted
          (abort runtime course exchange registry).vars
          (abort runtime course exchange registry).ended
  unfolding abort
  abort-Counted registry =
      let (evaluation, registry') =
        evaluate_request (evaluate_options runtime course exchange none) runtime.rules registry in
      let h =
        add_if-Written (is_loggable runtime course exchange evaluation)
          (aborted_entry runtime course exchange evaluation)
          (start registry' (script_errors evaluation.errors _)) none_yet
          (script_errors-tally evaluation.errors _) in
      (h.0, h.1, omega arith)

  intercept-IsHttpIntercept :
      (body : Option Buffer) (registry : Registry)
      → All (IsServable runtime) runtime.rules
      → IsHttpIntercept
          (evaluate_request
            (evaluate_options runtime course exchange body)
            runtime.rules
            registry).0.intercept_rule
  intercept-IsHttpIntercept body registry h =
      let opts = evaluate_options runtime course exchange body in
      selected-IsHttpIntercept runtime opts refl _
        (evaluate_request-Selected opts (IsServable runtime) runtime.rules registry h).intercept

  proceed-Counted :
      (body : Option Buffer) (skip_reason : Option Text) (tail : Option Buffer)
      (registry : Registry)
      → All (IsServable runtime) runtime.rules
      → Counted
          (proceed runtime course exchange body skip_reason tail registry).vars
          (proceed runtime course exchange body skip_reason tail registry).ended
  unfolding proceed
  proceed-Counted body skip_reason tail registry h =
      let (evaluation, registry') =
        evaluate_request (evaluate_options runtime course exchange body) runtime.rules registry in
      let ctx = context_of runtime course exchange body skip_reason tail evaluation in
      let v = begin runtime course exchange evaluation registry' in
      let flowed = run_stages runtime course exchange ctx v in
      caught-Counted ctx v flowed.vars flowed.ended refl
        (run_stages-Tracks ctx (intercept-IsHttpIntercept body registry h) v refl)

  phase-Handled :
      (phase : BodyPhase) (registry : Registry)
      → IsSettled phase
      → All (IsServable runtime) runtime.rules
      → Handled phase
          (handle_phase runtime course exchange phase registry).vars
          (handle_phase runtime course exchange phase registry).ended
  phase-Handled rejected registry s h = (refl, refl)
  phase-Handled aborted registry s h = abort-Counted registry
  phase-Handled unsettled registry s h = absurd s
  phase-Handled (ready body skip_reason tail) registry s h =
      proceed-Counted body skip_reason tail registry h

-- Where the request's stream and those of the upstream's replies come to an end, with an error or
-- without, the handling of an exchange comes to an end, whatever the rules and the scripts do, and
-- never throws: the exchange is then counted exactly once in the metrics, has one log entry at most
-- and is answered once at most. Only a request that is rejected with 413 is not counted; it is
-- answered exactly once and not logged. The rules of the listener's protocol are assumed to have no
-- gRPC fault.
pub handle_http_exchange-Handled :
    (runtime : ProxyRuntime) (course : Course) (exchange : HttpExchange) (registry : Registry)
    → All (IsServable runtime) runtime.rules
    → comes_to_end exchange.is_http2_stream exchange.stream ≡ true
    → ((target : UpstreamTarget) (request : UpstreamRequestInit) (reply : UpstreamReply)
        → runtime.send_to_upstream target request ≡ ok reply
        → comes_to_end reply.is_http2_stream reply.stream ≡ true)
    → Handled
        (read_request_body runtime exchange)
        (handle_http_exchange runtime course exchange registry).vars
        (handle_http_exchange runtime course exchange registry).ended
unfolding handle_http_exchange
handle_http_exchange-Handled runtime course exchange registry h e r =
    phase-Handled runtime course exchange r (read_request_body runtime exchange) registry
      (read_request_body-IsSettled runtime exchange e) h
