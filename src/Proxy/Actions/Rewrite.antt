-- ===== src/Proxy/Actions/Rewrite.antt =====
-- What the flags of a rewrite promise, and how long a delay waits.
use Prim.Native.Nat.{max}
use morpheus_proxy.Prelude.{
  ℕ, ◌+◌, ◌≡◌, refl, ap, true, false, none, some, List, [], ◌∷◌, Text, text_eq, Result, ok, err,
  arith, Bool-cases, inl, inr, js, leb, Option-cases, Option, ◌⊎◌, if◌then◌else◌, ◌&&◌, Bool, any,
  not, ◌||◌, keys, sym, ◌∙◌,
}
use morpheus_proxy.Rules.Types.{RewriteOperation, Delay, DelayMode, total, fixed}
use morpheus_proxy.Rules.Matcher.{RegExp, HeaderMap}
use morpheus_proxy.Logging.Messages.{Platform}
use morpheus_proxy.Grpc.Frames.{Buffer}
use morpheus_proxy.Proxy.Headers.{delete_header, same_name}
use morpheus_proxy.Proxy.Actions.{
  RewritableRequest, RewriteResult, Rewriting, rewrite, replace_body, apply_rewrite_operations,
  combined, compute_delay, followed, is_total,
}
use morpheus_proxy.Proxy.Headers.Edits.{delete_header-lookup}

-- What the flags promise of a request before and after.
abbrev pub Keeps : RewritableRequest → RewritableRequest → Result Text RewriteResult → Type 0
Keeps before after (err e) = Unit
Keeps before after (ok flags) =
    ((flags.modified ≡ true) ⊎ (after ≡ before))
    × ((flags.body_modified ≡ true) ⊎ (after.body ≡ before.body))

pub delete_header-none :
    (headers : HeaderMap) (name : Text)
    → (delete_header headers name).1 ≡ false
    → (delete_header headers name).0 ≡ headers
unfolding delete_header
delete_header-none [] name h = refl
delete_header-none ((key, value) ∷ headers) name h = ground (arith, delete_header-none headers name)

replace_body-Keeps :
    (re : RegExp) (platform : Platform) (from to : Text) (body : Buffer)
    (request : RewritableRequest)
    → Keeps request
        (replace_body re platform from to body request).request
        (replace_body re platform from to body request).result
unfolding replace_body
replace_body-Keeps re platform from to body request =
    elim (Option-cases (re.syntax_error from (js "g"))) [
      | inl e ↦
          elim (Bool-cases (
            text_eq (re.replace_all from (platform.from_utf8 body) to) (platform.from_utf8 body))) [
              | inl k ↦ rw (replace_body, e, k) (inr refl, inr refl)
              | inr k ↦ rw (replace_body, e, k) (inl refl, inl refl)
            ]
      | inr e ↦ rw (replace_body, e.1) tt
    ]

body-Keeps :
    (re : RegExp) (platform : Platform) (from to path query : Text) (headers : HeaderMap)
    (body : Option Buffer)
    → let request : RewritableRequest = record {
      path = path;
      query = query;
      headers = headers;
      body = body;
    } in
      Keeps request
        (rewrite re platform (RewriteOperation.replace_body from to) request).request
        (rewrite re platform (RewriteOperation.replace_body from to) request).result
unfolding rewrite
body-Keeps re platform from to path query headers none = (inr refl, inr refl)
body-Keeps re platform from to path query headers (some body) =
    replace_body-Keeps re platform from to body _

rewrite-Keeps :
    (re : RegExp) (platform : Platform) (operation : RewriteOperation) (request : RewritableRequest)
    → Keeps request
        (rewrite re platform operation request).request
        (rewrite re platform operation request).result
unfolding rewrite
rewrite-Keeps re platform (RewriteOperation.set_header name value) request = (inl refl, inr refl)
rewrite-Keeps re platform (RewriteOperation.remove_header name) request =
    elim (Bool-cases (delete_header request.headers name).1) [
      | inl e ↦ rw e (inl refl, inr refl)
      | inr e ↦ rw e (
        inr (
            ap (λ headers. record request { headers = headers })
              (delete_header-none request.headers name e)),
        inr refl,
      )
    ]
rewrite-Keeps re platform (RewriteOperation.set_path value) request =
    elim (Bool-cases (text_eq request.path value)) [
      | inl e ↦ rw e (inr refl, inr refl)
      | inr e ↦ rw e (inl refl, inr refl)
    ]
rewrite-Keeps re platform (RewriteOperation.set_query value) request =
    elim (Bool-cases (text_eq request.query value)) [
      | inl e ↦ rw e (inr refl, inr refl)
      | inr e ↦ rw e (inl refl, inr refl)
    ]
rewrite-Keeps re platform (RewriteOperation.replace_body from to) request =
    body-Keeps re platform from to request.path request.query request.headers request.body

combined-Keeps :
    (a b c : RewritableRequest) (flags : RewriteResult) (r : Result Text RewriteResult)
    → Keeps a b (ok flags)
    → Keeps b c r
    → Keeps a c (combined flags r)
combined-Keeps a b c flags (err e) h k = tt
combined-Keeps a b c flags (ok rest) h k = ground arith

next-Keeps :
    (before middle : RewritableRequest) (r : Result Text RewriteResult) (rest : Rewriting)
    → Keeps before middle r
    → Keeps middle rest.request rest.result
    → Keeps before
        (followed (record { request = middle; result = r }) rest).request
        (followed (record { request = middle; result = r }) rest).result
next-Keeps before middle (err e) rest h k = tt
next-Keeps before middle (ok flags) rest h k =
    combined-Keeps before middle rest.request flags rest.result h k

-- Whether the text of a body changes.
abbrev replaces : RegExp → Platform → Text → Text → Option Buffer → Bool
replaces re platform from to none = false
replaces re platform from to (some body) =
    let text = platform.from_utf8 body in not (text_eq (re.replace_all from text to) text)

-- What each operation is to report: setting a header always, removing one if a spelling of it is
-- there, the others if the value differs.
abbrev pub modifies : RegExp → Platform → RewriteOperation → RewritableRequest → Bool
modifies re platform (RewriteOperation.set_header name value) request = true
modifies re platform (RewriteOperation.remove_header name) request =
    any (λ k. same_name k name) (keys request.headers)
modifies re platform (RewriteOperation.set_path value) request = not (text_eq request.path value)
modifies re platform (RewriteOperation.set_query value) request = not (text_eq request.query value)
modifies re platform (RewriteOperation.replace_body from to) request =
    replaces re platform from to request.body

abbrev pub modifies_body : RegExp → Platform → RewriteOperation → RewritableRequest → Bool
modifies_body re platform (RewriteOperation.set_header name value) request = false
modifies_body re platform (RewriteOperation.remove_header name) request = false
modifies_body re platform (RewriteOperation.set_path value) request = false
modifies_body re platform (RewriteOperation.set_query value) request = false
modifies_body re platform (RewriteOperation.replace_body from to) request =
    replaces re platform from to request.body

-- Whether one of the operations, each on the request that those before it left, is to report.
abbrev pub any_along :
    (RewriteOperation → RewritableRequest → Bool)
    → RegExp
    → Platform
    → List RewriteOperation
    → RewritableRequest
    → Bool
any_along test re platform [] request = false
any_along test re platform (operation ∷ operations) request =
    test operation request
    || any_along test re platform operations (rewrite re platform operation request).request

abbrev pub Told : Bool → Bool → Result Text RewriteResult → Type 0
Told modified body_modified (err e) = Unit
Told modified body_modified (ok flags) =
    (flags.modified ≡ modified) × (flags.body_modified ≡ body_modified)

replace_body-Told :
    (re : RegExp) (platform : Platform) (from to : Text) (body : Buffer)
    (request : RewritableRequest)
    → let told = replaces re platform from to (some body) in
      Told told told (replace_body re platform from to body request).result
unfolding replace_body
replace_body-Told re platform from to body request =
    elim (Option-cases (re.syntax_error from (js "g"))) [
      | inl e ↦
          elim (Bool-cases (
            text_eq (re.replace_all from (platform.from_utf8 body) to) (platform.from_utf8 body))) [
              | inl k ↦ rw (replace_body, e, k) (refl, refl)
              | inr k ↦ rw (replace_body, e, k) (refl, refl)
            ]
      | inr e ↦ rw (replace_body, e.1) tt
    ]

body-Told :
    (re : RegExp) (platform : Platform) (from to path query : Text) (headers : HeaderMap)
    (body : Option Buffer)
    → let request : RewritableRequest = record {
      path = path;
      query = query;
      headers = headers;
      body = body;
    } in
      let told = replaces re platform from to body in
      Told told told (rewrite re platform (RewriteOperation.replace_body from to) request).result
unfolding rewrite
body-Told re platform from to path query headers none = (refl, refl)
body-Told re platform from to path query headers (some body) =
    replace_body-Told re platform from to body _

rewrite-Told :
    (re : RegExp) (platform : Platform) (operation : RewriteOperation) (request : RewritableRequest)
    → Told
        (modifies re platform operation request)
        (modifies_body re platform operation request)
        (rewrite re platform operation request).result
unfolding rewrite
rewrite-Told re platform (RewriteOperation.set_header name value) request = (refl, refl)
rewrite-Told re platform (RewriteOperation.remove_header name) request =
    let removed = (delete_header-lookup request.headers name name).1 in
    elim (Bool-cases (delete_header request.headers name).1) [
      | inl e ↦ rw e (sym e ∙ removed, refl)
      | inr e ↦ rw e (sym e ∙ removed, refl)
    ]
rewrite-Told re platform (RewriteOperation.set_path value) request =
    elim (Bool-cases (text_eq request.path value)) [
      | inl e ↦ rw e (refl, refl)
      | inr e ↦ rw e (refl, refl)
    ]
rewrite-Told re platform (RewriteOperation.set_query value) request =
    elim (Bool-cases (text_eq request.query value)) [
      | inl e ↦ rw e (refl, refl)
      | inr e ↦ rw e (refl, refl)
    ]
rewrite-Told re platform (RewriteOperation.replace_body from to) request =
    body-Told re platform from to request.path request.query request.headers request.body

combined-Told :
    (a b c d : Bool) (flags : RewriteResult) (r : Result Text RewriteResult)
    → Told a c (ok flags)
    → Told b d r
    → Told (a || b) (c || d) (combined flags r)
combined-Told a b c d flags (err e) h k = tt
combined-Told a b c d flags (ok rest) h k = rw (h.0, h.1, k.0, k.1) (refl, refl)

next-Told :
    (a b c d : Bool) (middle : RewritableRequest) (r : Result Text RewriteResult) (rest : Rewriting)
    → Told a c r
    → Told b d rest.result
    → Told (a || b) (c || d) (followed (record { request = middle; result = r }) rest).result
next-Told a b c d middle (err e) rest h k = tt
next-Told a b c d middle (ok flags) rest h k = combined-Told a b c d flags rest.result h k

apply_rewrite_operations-Told :
    (re : RegExp) (platform : Platform) (operations : List RewriteOperation)
    (request : RewritableRequest)
    → Told
        (any_along (modifies re platform) re platform operations request)
        (any_along (modifies_body re platform) re platform operations request)
        (apply_rewrite_operations re platform operations request).result
unfolding apply_rewrite_operations
apply_rewrite_operations-Told re platform [] request = (refl, refl)
apply_rewrite_operations-Told re platform (operation ∷ operations) request =
    next-Told _ _ _ _ (rewrite re platform operation request).request _
      (apply_rewrite_operations re platform operations
        (rewrite re platform operation request).request)
      (rewrite-Told re platform operation request)
      (apply_rewrite_operations-Told re platform operations
        (rewrite re platform operation request).request)

rewrites-Keeps :
    (re : RegExp) (platform : Platform) (operations : List RewriteOperation)
    (request : RewritableRequest)
    → Keeps request
        (apply_rewrite_operations re platform operations request).request
        (apply_rewrite_operations re platform operations request).result
unfolding apply_rewrite_operations
rewrites-Keeps re platform [] request = (inr refl, inr refl)
rewrites-Keeps re platform (operation ∷ operations) request =
    next-Keeps request (rewrite re platform operation request).request
      (rewrite re platform operation request).result
      (apply_rewrite_operations re platform operations
        (rewrite re platform operation request).request)
      (rewrite-Keeps re platform operation request)
      (rewrites-Keeps re platform operations (rewrite re platform operation request).request)

-- The flags of rewrites that do not fail are exact. A modification is reported if and only if some
-- operation, on the request that those before it left, sets a header, removes one that is there in
-- some spelling, or has a path, a query or a text of the body that differs; a modification of the
-- body if and only if the text of the body differs. Where none is reported, the request or the body
-- is the one that came in.
pub apply_rewrite_operations-Keeps :
    (re : RegExp) (platform : Platform) (operations : List RewriteOperation)
    (request : RewritableRequest)
    → let rewriting = apply_rewrite_operations re platform operations request in
      Told
        (any_along (modifies re platform) re platform operations request)
        (any_along (modifies_body re platform) re platform operations request)
        rewriting.result
      × Keeps request rewriting.request rewriting.result
apply_rewrite_operations-Keeps re platform operations request = (
  apply_rewrite_operations-Told re platform operations request,
  rewrites-Keeps re platform operations request,
)

delay-max :
    (duration : ℕ) (mode : Option DelayMode) (elapsed : ℕ)
    → let delay : Delay = record { duration_ms = duration; mode = mode } in
      (elapsed + (compute_delay delay elapsed).wait_ms
        ≡ (if is_total mode then max elapsed duration else elapsed + duration))
      × ((compute_delay delay elapsed).skipped ≡ (is_total mode && leb duration elapsed))
unfolding compute_delay
delay-max duration none elapsed = ground arith
delay-max duration (some fixed) elapsed = ground arith
delay-max duration (some total) elapsed = ground arith

-- When a delay is over: in the mode `total` at the greater of the delay and the time that has elapsed
-- since the request was accepted, else its whole duration from now; it is skipped exactly if it is
-- total and that much time has elapsed.
compute_delay-max :
    (delay : Delay) (elapsed : ℕ)
    → (elapsed + (compute_delay delay elapsed).wait_ms ≡ (
        if is_total delay.mode then max elapsed delay.duration_ms else elapsed + delay.duration_ms))
      × ((compute_delay delay elapsed).skipped
          ≡ (is_total delay.mode && leb delay.duration_ms elapsed))
compute_delay-max delay elapsed = delay-max delay.duration_ms delay.mode elapsed
