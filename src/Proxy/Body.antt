-- ===== src/Proxy/Body.antt =====
-- src/proxy/body.ts: which bodies are read, and the reading of a stream up to a limit. A stream is
-- the sequence of the events that its listeners get; the timer that a reader sets is an event too.
pub mod Interest
pub mod Limits
pub mod Reading
use morpheus_proxy.Prelude.{
  ℕ, ◌+◌, Bool, true, false, not, ◌&&◌, ◌||◌, Option, none, some, List, [], ◌∷◌, ◌++◌, Text, length,
  any, ltb, if◌then◌else◌, is_some,
}
use morpheus_proxy.Grpc.Frames.{Buffer}
use morpheus_proxy.Rules.Types.{
  Rule, RewriteOperation, RequestAction, ResponseAction, RequestStage, ResponseStage,
}
use morpheus_proxy.Rules.Matcher.{matcher_uses_body, matcher_has_script}

pub record BodyInterest : Type 0 where
  pub need : Bool
  pub want : Bool

abbrev is_replace_body : RewriteOperation → Bool
is_replace_body (RewriteOperation.replace_body from to) = true
is_replace_body (RewriteOperation.set_header name value) = false
is_replace_body (RewriteOperation.remove_header name) = false
is_replace_body (RewriteOperation.set_path value) = false
is_replace_body (RewriteOperation.set_query value) = false

abbrev rewrites_body : Option RequestAction → Bool
rewrites_body (some (RequestAction.request_rewrite operations)) = any is_replace_body operations
rewrites_body (some (RequestAction.mock_response r)) = false
rewrites_body (some (RequestAction.fault f)) = false
rewrites_body none = false

abbrev stage_rewrites_body : Option RequestStage → Bool
stage_rewrites_body none = false
stage_rewrites_body (some stage) = rewrites_body stage.action

unfoldable pub rule_needs_request_body : Rule → Bool
rule_needs_request_body rule =
    if matcher_uses_body rule.match || matcher_has_script rule.match
    then true
    else stage_rewrites_body rule.request

abbrev is_manipulator : Option ResponseAction → Bool
is_manipulator (some (ResponseAction.script_manipulator a)) = true
is_manipulator (some (ResponseAction.fault f)) = false
is_manipulator (some (ResponseAction.response_replace r)) = false
is_manipulator none = false

unfoldable pub rule_needs_response_body : Rule → Bool
rule_needs_response_body rule = elim rule.response [
  | none ↦ false
  | some response ↦ elim response.match [
    | none ↦ is_manipulator response.action
    | some m ↦
        if matcher_uses_body m || matcher_has_script m then true else is_manipulator response.action
  ]
]

abbrev pub wants_request_body : Rule → Bool
wants_request_body rule = rule.logging.capture || is_some rule.request || is_some rule.response

-- The loop, which stops at a rule that needs the body.
unfoldable pub interest_loop : List Rule → (want : Bool) → BodyInterest
unfolding rule_needs_request_body
interest_loop [] want = record { need = false; want = want }
interest_loop (rule ∷ rules) want =
    let rest = interest_loop rules (want || wants_request_body rule) in
    let skipped = interest_loop rules want in
    if not rule.enabled
    then skipped
    else if rule_needs_request_body rule
    then record { need = true; want = want || wants_request_body rule }
    else rest

unfoldable pub request_body_interest : List Rule → BodyInterest
unfolding interest_loop
request_body_interest rules =
    let found = interest_loop rules false in
    record { need = found.need; want = found.want || found.need }

abbrev needs_response : Option Rule → Bool
needs_response none = false
needs_response (some rule) = rule_needs_response_body rule

unfoldable pub response_body_interest : Option Rule → List Rule → BodyInterest
unfolding rule_needs_response_body
response_body_interest intercept_rule capture_rules = record {
  need = needs_response intercept_rule;
  want =
      needs_response intercept_rule
      || is_some intercept_rule
      || any (λ rule. rule.logging.capture) capture_rules;
}

-- What a listener is told; `timed` is the timer of `readBodyUpTo`.
pub data StreamEvent : Type 0 where
  chunk : Buffer → StreamEvent
  end aborted close timed : StreamEvent
  error : Text → StreamEvent

-- How a promise settles: with the whole body, with a prefix of it, or with an error.
pub data Settled : Type 0 where
  complete : Buffer → Settled
  prefix : Buffer → Settled
  failed : Text → Settled
  stream_aborted stream_closed limit_exceeded : Settled

-- The variables of a reader. `Buffer.concat(chunks)` is the list of all bytes.
pub record Reader : Type 0 where
  pub chunks : Buffer
  pub total : ℕ
  pub settled : Option Settled
  pub ended : Bool
  pub timer : Bool

abbrev pub new_reader : Reader
new_reader = record { chunks = []; total = 0; settled = none; ended = false; timer = false }

-- `succeed` and `fail`, with `cleanup`, which clears the timer.
abbrev settle : Settled → Reader → Reader
settle result reader = elim reader.settled [
  | none ↦ record reader { settled = some result; timer = false }
  | some earlier ↦ reader
]

unfoldable pub on_data : ℕ → Buffer → Reader → Reader
on_data limit bytes reader =
    let reader' : Reader = record reader {
      chunks = reader.chunks ++ bytes;
      total = reader.total + length bytes;
    } in
    if ltb limit reader'.total then settle (prefix reader'.chunks) reader' else reader'

unfoldable pub on_end : (is_http2_stream : Bool) → Reader → Reader
on_end false reader =
    let reader' : Reader = record reader { ended = true } in
    settle (complete reader'.chunks) reader'
on_end true reader = record reader { ended = true; timer = true }

-- One event, for a reader that still listens.
unfoldable pub on_event : Bool → ℕ → StreamEvent → Reader → Reader
unfolding on_data on_end
on_event http2 limit (chunk bytes) reader = on_data limit bytes reader
on_event http2 limit end reader = on_end http2 reader
on_event http2 limit (error e) reader = settle (failed e) reader
on_event http2 limit aborted reader = settle stream_aborted reader
on_event http2 limit close reader = if reader.ended then reader else settle stream_closed reader
on_event http2 limit timed reader =
    if reader.timer then settle (complete reader.chunks) reader else reader

-- The events in their order; `cleanup` ends the listening.
unfoldable pub read_body_up_to : Bool → ℕ → List StreamEvent → Reader → Reader
unfolding on_event
read_body_up_to http2 limit [] reader = reader
read_body_up_to http2 limit (event ∷ events) reader =
    let rest = read_body_up_to http2 limit events (on_event http2 limit event reader) in
    if is_some reader.settled then reader else rest

-- The listeners of `readBodyWithLimit`: the chunk that passes the limit is not kept.
unfoldable pub on_limited_event : ℕ → StreamEvent → Reader → Reader
on_limited_event limit (chunk bytes) reader =
    let total = reader.total + length bytes in
    if ltb limit total
    then record reader { total = total; settled = some limit_exceeded }
    else record reader { total = total; chunks = reader.chunks ++ bytes }
on_limited_event limit end reader = record reader { settled = some (complete reader.chunks) }
on_limited_event limit (error e) reader = record reader { settled = some (failed e) }
on_limited_event limit aborted reader = reader
on_limited_event limit close reader = reader
on_limited_event limit timed reader = reader

unfoldable pub read_body_with_limit : ℕ → List StreamEvent → Reader → Reader
unfolding on_limited_event
read_body_with_limit limit [] reader = reader
read_body_with_limit limit (event ∷ events) reader =
    let rest = read_body_with_limit limit events (on_limited_event limit event reader) in
    if is_some reader.settled then reader else rest
