-- ===== src/Proxy/Patch/Keeps.antt =====
-- What the flags of a patch promise.
use morpheus_proxy.Prelude.{
  ◌≡◌, ◌⊎◌, inl, inr, refl, ap, ◌∙◌, Bool, true, false, ◌||◌, Option, none, some, List, [], ◌∷◌,
  Text, String, Result, ok, err, arith, Bool-cases, Option-cases, ◌==◌, is_some, or-eq-false, ◌&&◌,
  any, ℕ, not, keys,
}
use morpheus_proxy.Json.{Json, Fields}
use morpheus_proxy.Grpc.Frames.{Buffer}
use morpheus_proxy.Rules.Matcher.{HeaderMap}
use morpheus_proxy.Rules.Validate.Issues.{get_key, as_text, as_natural}
use morpheus_proxy.Proxy.Headers.{delete_header, same_name}
use morpheus_proxy.Proxy.Actions.Rewrite.{delete_header-none}
use morpheus_proxy.Proxy.Patch.{
  Change, PatchableHttpResponse, PatchOutcome, Patching, apply_header_patch, patch_status,
  HeaderPatch, no_object, wrong_value, changes, header_patch, patch_headers, patch_body, then_patch,
  apply_http_response_patch, integer_within, is_within,
}
use morpheus_proxy.Proxy.Headers.Edits.{delete_header-lookup}

-- A response before and after, by the flags; of a refused patch nothing is said.
abbrev pub Fair :
    PatchableHttpResponse → PatchableHttpResponse → Result String PatchOutcome → Type 0
Fair before after (err e) = Unit
Fair before after (ok outcome) =
    ((outcome.changed ≡ true) ⊎ (after ≡ before))
    × ((outcome.body_changed ≡ true) ⊎ (after.body ≡ before.body))

apply_header_patch-unchanged :
    (patch : List (Text × Change)) (headers : HeaderMap)
    → (apply_header_patch patch headers).1 ≡ false
    → (apply_header_patch patch headers).0 ≡ headers
unfolding apply_header_patch
apply_header_patch-unchanged [] headers h = refl
apply_header_patch-unchanged ((name, some value) ∷ patch) headers h = absurd (cc)
apply_header_patch-unchanged ((name, none) ∷ patch) headers h =
    let (removed, changed) = or-eq-false _ _ h in
    apply_header_patch-unchanged patch (delete_header headers name).0 changed
    ∙ delete_header-none headers name removed

module _ (before response : PatchableHttpResponse) (outcome : PatchOutcome)
    (fair : Fair before response (ok outcome)) where
  patch_status-Fair :
      (value : Option Json)
      → Fair before
          (patch_status value response outcome).response
          (patch_status value response outcome).result
  unfolding patch_status
  patch_status-Fair none = fair
  patch_status-Fair (some v) = elim (Option-cases (integer_within 100 599 (as_natural (some v)))) [
    | inl e ↦ rw (patch_status, e) tt
    | inr (n, e) ↦ elim (Bool-cases (n == response.status_code)) [
      | inl k ↦ rw (patch_status, e, k) fair
      | inr k ↦ rw (patch_status, e, k) (inl refl, fair.1)
    ]
  ]

  patch_body-Fair :
      (decode : Text → Buffer) (message : String) (value : Option Json)
      → Fair before
          (patch_body decode message value response outcome).response
          (patch_body decode message value response outcome).result
  unfolding patch_body
  patch_body-Fair decode message none = fair
  patch_body-Fair decode message (some v) = elim (Option-cases (as_text (some v))) [
    | inl e ↦ rw (patch_body, e) tt
    | inr (t, e) ↦ rw (patch_body, e) (inl refl, inl refl)
  ]

  changes-Fair :
      (cs : List (Text × Change)) (changed : Bool)
      → (apply_header_patch cs response.headers).1 ≡ changed
      → Fair before
          (record response { headers = (apply_header_patch cs response.headers).0 })
          (ok (record outcome { changed = outcome.changed || changed }))
  changes-Fair cs true h = (inl (ground arith), fair.1)
  changes-Fair cs false h =
      let same =
        ap (λ headers. record response { headers = headers })
          (apply_header_patch-unchanged cs response.headers h) in
      elim fair.0 [ inl k ↦ (inl (ground arith), fair.1) | inr k ↦ (inr (same ∙ k), fair.1) ]

  patch_headers-Fair :
      (value : Option Json)
      → Fair before
          (patch_headers value response outcome).response
          (patch_headers value response outcome).result
  unfolding patch_headers
  patch_headers-Fair none = fair
  patch_headers-Fair (some v) = go (header_patch v) refl
    where
      go :
          (p : HeaderPatch)
          → header_patch v ≡ p
          → Fair before
              (patch_headers (some v) response outcome).response
              (patch_headers (some v) response outcome).result
      go no_object e = rw (patch_headers, e) tt
      go wrong_value e = rw (patch_headers, e) tt
      go (changes cs) e = rw (patch_headers, e) (changes-Fair cs _ refl)

then_patch-Fair :
    (before middle : PatchableHttpResponse) (r : Result String PatchOutcome)
    (step : PatchableHttpResponse → PatchOutcome → Patching PatchableHttpResponse PatchOutcome)
    → Fair before middle r
    → ((response : PatchableHttpResponse) (outcome : PatchOutcome)
        → Fair before response (ok outcome)
        → Fair before (step response outcome).response (step response outcome).result)
    → Fair before
        (then_patch (record { response = middle; result = r }) step).response
        (then_patch (record { response = middle; result = r }) step).result
then_patch-Fair before middle (err e) step h k = tt
then_patch-Fair before middle (ok outcome) step h k = k middle outcome h

-- Whether the changes set a header, or delete one that is there in some spelling.
unfoldable pub touches : List (Text × Change) → HeaderMap → Bool
touches [] headers = false
touches ((name, some value) ∷ patch) headers = true
touches ((name, none) ∷ patch) headers =
    any (λ k. same_name k name) (keys headers) || touches patch (delete_header headers name).0

abbrev touched_by : HeaderPatch → HeaderMap → Bool
touched_by no_object headers = false
touched_by wrong_value headers = false
touched_by (changes cs) headers = touches cs headers

abbrev pub touched : Option Json → HeaderMap → Bool
touched none headers = false
touched (some v) headers = touched_by (header_patch v) headers

abbrev other : Option ℕ → ℕ → Bool
other none status = false
other (some n) status = not (n == status)

-- Whether the patch has a status other than the response's.
abbrev pub other_status : Option Json → ℕ → Bool
other_status none status = false
other_status (some v) status = other (as_natural (some v)) status

-- The flags of an accepted patch.
abbrev pub Exact : Bool → Bool → Result String PatchOutcome → Type 0
Exact changed body_changed (err e) = Unit
Exact changed body_changed (ok outcome) =
    (outcome.changed ≡ changed) × (outcome.body_changed ≡ body_changed)

apply_header_patch-touches :
    (patch : List (Text × Change)) (headers : HeaderMap)
    → (apply_header_patch patch headers).1 ≡ touches patch headers
unfolding apply_header_patch touches
apply_header_patch-touches [] headers = refl
apply_header_patch-touches ((name, some value) ∷ patch) headers = refl
apply_header_patch-touches ((name, none) ∷ patch) headers =
    rw
      (
        (delete_header-lookup headers name name).1,
        apply_header_patch-touches patch (delete_header headers name).0,
      )
      refl

patch_status-Exact :
    (value : Option Json) (response : PatchableHttpResponse) (outcome : PatchOutcome)
    → outcome.changed ≡ false
    → outcome.body_changed ≡ false
    → ((patch_status value response outcome).response.headers ≡ response.headers)
      × Exact
          (other_status value response.status_code)
          false
          (patch_status value response outcome).result
unfolding patch_status
patch_status-Exact none response outcome c b = (refl, (c, b))
patch_status-Exact (some v) response outcome c b = elim (Option-cases (as_natural (some v))) [
  | inl e ↦ rw (patch_status, e) (refl, tt)
  | inr (n, e) ↦ elim (Bool-cases (is_within 100 (some 599) n)) [
    | inr w ↦ rw (patch_status, e, w) (refl, tt)
    | inl w ↦ elim (Bool-cases (n == response.status_code)) [
      | inl k ↦ rw (patch_status, e, w, k) (refl, (c, b))
      | inr k ↦ rw (patch_status, e, w, k) (refl, (refl, b))
    ]
  ]
]

module _ (c b : Bool) (response : PatchableHttpResponse) (outcome : PatchOutcome)
    (changed : outcome.changed ≡ c) (body_changed : outcome.body_changed ≡ b) where
  patch_headers-Exact :
      (value : Option Json) (headers : HeaderMap)
      → response.headers ≡ headers
      → Exact (c || touched value headers) b (patch_headers value response outcome).result
  unfolding patch_headers
  patch_headers-Exact none headers h = (ground arith, body_changed)
  patch_headers-Exact (some v) headers h = go (header_patch v) refl
    where
      go :
          (p : HeaderPatch)
          → header_patch v ≡ p
          → Exact (c || touched (some v) headers) b (patch_headers (some v) response outcome).result
      go no_object e = rw (patch_headers, e) tt
      go wrong_value e = rw (patch_headers, e) tt
      go (changes cs) e =
          rw (patch_headers, e, h, apply_header_patch-touches cs headers, changed)
            (refl, body_changed)

  patch_body-Exact :
      (decode : Text → Buffer) (message : String) (value : Option Json)
      → Exact
          (c || is_some value)
          (b || is_some value)
          (patch_body decode message value response outcome).result
  unfolding patch_body
  patch_body-Exact decode message none = (ground arith, ground arith)
  patch_body-Exact decode message (some v) = elim (Option-cases (as_text (some v))) [
    | inl e ↦ rw (patch_body, e) tt
    | inr (t, e) ↦ rw (patch_body, e) (ground arith, ground arith)
  ]

then_patch-Exact :
    (c b c' b' : Bool) (middle : PatchableHttpResponse) (r : Result String PatchOutcome)
    (step : PatchableHttpResponse → PatchOutcome → Patching PatchableHttpResponse PatchOutcome)
    → Exact c b r
    → ((outcome : PatchOutcome)
        → outcome.changed ≡ c
        → outcome.body_changed ≡ b
        → Exact c' b' (step middle outcome).result)
    → Exact c' b' (then_patch (record { response = middle; result = r }) step).result
then_patch-Exact c b c' b' middle (err e) step h k = tt
then_patch-Exact c b c' b' middle (ok outcome) step h k = k outcome h.0 h.1

apply_http_response_patch-Exact :
    (to_utf8 from_base64 : Text → Buffer) (patch : Fields) (response : PatchableHttpResponse)
    → Exact
        (((other_status (get_key "statusCode" patch) response.status_code
              || touched (get_key "headers" patch) response.headers)
            || is_some (get_key "body" patch))
          || is_some (get_key "rawBodyBase64" patch))
        (is_some (get_key "body" patch) || is_some (get_key "rawBodyBase64" patch))
        (apply_http_response_patch to_utf8 from_base64 patch response).result
unfolding apply_http_response_patch
apply_http_response_patch-Exact to_utf8 from_base64 patch response =
    elim (Bool-cases (is_some (get_key "body" patch) && is_some (get_key "rawBodyBase64" patch))) [
      | inl e ↦ rw e tt
      | inr e ↦
          let (same, status) =
            patch_status-Exact (get_key "statusCode" patch) response _ refl refl in
          rw e (
            then_patch-Exact _ _ _ _ _ _
              (patch_body from_base64 "patch rawBodyBase64 must be a string"
                (get_key "rawBodyBase64" patch))
              (then_patch-Exact _ _ _ _ _ _
                (patch_body to_utf8 "patch body must be a string" (get_key "body" patch))
                (then_patch-Exact _ _ _ _ _ _ (patch_headers (get_key "headers" patch)) status
                  (λ o h k. patch_headers-Exact _ _ _ o h k (get_key "headers" patch) _ same))
                (λ o h k.
                  patch_body-Exact _ _ _ o h k to_utf8 "patch body must be a string"
                    (get_key "body" patch)))
              (λ o h k.
                patch_body-Exact _ _ _ o h k from_base64 "patch rawBodyBase64 must be a string"
                  (get_key "rawBodyBase64" patch)))
    ]

patch-Fair :
    (to_utf8 from_base64 : Text → Buffer) (patch : Fields) (response : PatchableHttpResponse)
    → Fair response
        (apply_http_response_patch to_utf8 from_base64 patch response).response
        (apply_http_response_patch to_utf8 from_base64 patch response).result
unfolding apply_http_response_patch
patch-Fair to_utf8 from_base64 patch response =
    elim (Bool-cases (is_some (get_key "body" patch) && is_some (get_key "rawBodyBase64" patch))) [
      | inl e ↦ rw e tt
      | inr e ↦ rw e (
          then_patch-Fair response _ _
            (patch_body from_base64 "patch rawBodyBase64 must be a string"
              (get_key "rawBodyBase64" patch))
            (then_patch-Fair response _ _
              (patch_body to_utf8 "patch body must be a string" (get_key "body" patch))
              (then_patch-Fair response _ _ (patch_headers (get_key "headers" patch))
                (patch_status-Fair response response _ (inr refl, inr refl)
                  (get_key "statusCode" patch))
                (λ r o h. patch_headers-Fair response r o h (get_key "headers" patch)))
              (λ r o h.
                patch_body-Fair response r o h to_utf8 "patch body must be a string"
                  (get_key "body" patch)))
            (λ r o h.
              patch_body-Fair response r o h from_base64 "patch rawBodyBase64 must be a string"
                (get_key "rawBodyBase64" patch)))
    ]

-- The flags of a patch that is accepted are exact. It reports a change if and only if its status is
-- another than the response's, it sets a header or deletes one that is there in some spelling, or it
-- has a body or a raw body; and a change of the body if and only if it has one of the two. Where it
-- reports none, the response or its body is as it was.
pub apply_http_response_patch-Fair :
    (to_utf8 from_base64 : Text → Buffer) (patch : Fields) (response : PatchableHttpResponse)
    → let patching = apply_http_response_patch to_utf8 from_base64 patch response in
      Exact
        (((other_status (get_key "statusCode" patch) response.status_code
              || touched (get_key "headers" patch) response.headers)
            || is_some (get_key "body" patch))
          || is_some (get_key "rawBodyBase64" patch))
        (is_some (get_key "body" patch) || is_some (get_key "rawBodyBase64" patch))
        patching.result
      × Fair response patching.response patching.result
apply_http_response_patch-Fair to_utf8 from_base64 patch response = (
  apply_http_response_patch-Exact to_utf8 from_base64 patch response,
  patch-Fair to_utf8 from_base64 patch response,
)
