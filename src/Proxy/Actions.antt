-- ===== src/Proxy/Actions.antt =====
-- src/proxy/actions.ts: what rules do to a request, to response headers, and to the time. The code
-- mutates the request; here the request after it is returned, also where a RegExp cannot be made.
-- Waiting itself is left out.
pub mod Rewrite
pub mod Replace
use morpheus_proxy.Prelude.{
  ℕ, ◌-◌, Bool, true, false, not, ◌&&◌, ◌||◌, Option, none, some, List, [], ◌∷◌, Text, js, text_eq,
  to_lower_case, lookup, insert, length, drop, map, ◌==◌, if◌then◌else◌, Result, ok, err,
}
use morpheus_proxy.Grpc.Frames.{Buffer}
use morpheus_proxy.Rules.Types.{
  RewriteOperation, ResponseReplaceAction, Delay, DelayMode, fixed, total,
}
use morpheus_proxy.Rules.Matcher.{RegExp, HeaderMap, HeaderValue, one, many}
use morpheus_proxy.Logging.Messages.{Platform}
use morpheus_proxy.Proxy.Headers.{set_header, delete_header}

pub record RewritableRequest : Type 0 where
  pub path : Text
  pub query : Text
  pub headers : HeaderMap
  pub body : Option Buffer

pub record RewriteResult : Type 0 where
  pub modified : Bool
  pub body_modified : Bool

-- The request after some operations, and the two flags, or the error that ended them.
pub record Rewriting : Type 0 where
  pub request : RewritableRequest
  pub result : Result Text RewriteResult

abbrev pub unmodified : RewriteResult
unmodified = record { modified = false; body_modified = false }

abbrev pub changed : RewriteResult
changed = record { modified = true; body_modified = false }

abbrev done : RewritableRequest → RewriteResult → Rewriting
done request result = record { request = request; result = ok result }

-- The text of a body, replaced.
unfoldable pub replace_body :
    RegExp → Platform → Text → Text → Buffer → RewritableRequest → Rewriting
replace_body re platform from to body request = elim (re.syntax_error from (js "g")) [
  | some e ↦ record { request = request; result = err e }
  | none ↦
      let text = platform.from_utf8 body in
      let replaced = re.replace_all from text to in
      if text_eq replaced text
      then done request unmodified
      else done (record request { body = some (platform.to_utf8 replaced) })
          (record { modified = true; body_modified = true })
]

-- One operation.
unfoldable pub rewrite : RegExp → Platform → RewriteOperation → RewritableRequest → Rewriting
unfolding replace_body
rewrite re platform (RewriteOperation.set_header name value) request =
    done (record request { headers = set_header request.headers name (one value) }) changed
rewrite re platform (RewriteOperation.remove_header name) request =
    let (headers, removed) = delete_header request.headers name in
    done (record request { headers = headers }) (if removed then changed else unmodified)
rewrite re platform (RewriteOperation.set_path value) request =
    if text_eq request.path value
    then done request unmodified
    else done (record request { path = value }) changed
rewrite re platform (RewriteOperation.set_query value) request =
    if text_eq request.query value
    then done request unmodified
    else done (record request { query = value }) changed
rewrite re platform (RewriteOperation.replace_body from to) request = elim request.body [
  | none ↦ done request unmodified
  | some body ↦ replace_body re platform from to body request
]

abbrev pub combined : RewriteResult → Result Text RewriteResult → Result Text RewriteResult
combined first (err e) = err e
combined first (ok rest) = ok (record {
  modified = first.modified || rest.modified;
  body_modified = first.body_modified || rest.body_modified;
})

-- An operation, and those that follow unless it failed.
abbrev pub followed : Rewriting → Rewriting → Rewriting
followed first rest = elim first.result [
  | err e ↦ record { request = first.request; result = err e }
  | ok flags ↦ record { request = rest.request; result = combined flags rest.result }
]

-- The loop, which an error leaves.
unfoldable pub apply_rewrite_operations :
    RegExp → Platform → List RewriteOperation → RewritableRequest → Rewriting
unfolding rewrite
apply_rewrite_operations re platform [] request = done request unmodified
apply_rewrite_operations re platform (operation ∷ operations) request =
    let first = rewrite re platform operation request in
    let rest = apply_rewrite_operations re platform operations first.request in followed first rest

abbrev same_texts : List Text → List Text → Bool
same_texts [] us = true
same_texts (t ∷ ts) [] = false
same_texts (t ∷ ts) (u ∷ us) = text_eq t u && same_texts ts us

-- Whether a header value changed, and the value.
unfoldable pub replace_value : (Text → Text) → HeaderValue → Option HeaderValue
replace_value f (one value) = if text_eq (f value) value then none else some (one (f value))
replace_value f (many values) =
    if same_texts (map f values) values then none else some (many (map f values))

-- The name behind "header.".
abbrev pub target_name : ResponseReplaceAction → Text
target_name action = to_lower_case (drop 7 action.target)

unfoldable pub apply_response_replace :
    RegExp → HeaderMap → ResponseReplaceAction → HeaderMap × Result Text Bool
unfolding replace_value
apply_response_replace re headers action = elim (lookup (target_name action) headers) [
  | none ↦ (headers, ok false)
  | some current ↦ elim (re.syntax_error action.from (js "g")) [
    | some e ↦ (headers, err e)
    | none ↦ elim (replace_value (λ value. re.replace_all action.from value action.to) current) [
      | none ↦ (headers, ok false)
      | some value ↦ (insert (target_name action) value headers, ok true)
    ]
  ]
]

pub record DelayPlan : Type 0 where
  pub wait_ms : ℕ
  pub skipped : Bool

abbrev pub is_total : Option DelayMode → Bool
is_total (some total) = true
is_total (some fixed) = false
is_total none = false

unfoldable pub compute_delay : Delay → ℕ → DelayPlan
compute_delay delay elapsed_ms =
    if is_total delay.mode
    then record {
      wait_ms = delay.duration_ms - elapsed_ms;
      skipped = (delay.duration_ms - elapsed_ms) == 0;
    }
    else record { wait_ms = delay.duration_ms; skipped = false }
