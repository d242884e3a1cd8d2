-- ===== src/Proxy/Patch.antt =====
-- src/proxy/patch.ts: what a script manipulator's patch does to a response. A patch is an object of
-- unknown values. The response comes back also where the patch is refused, since what was written
-- before stays written.
pub mod Grpc
pub mod Keeps
mod Tests
use morpheus_proxy.Prelude.{
  ℕ, ◌+◌, Bool, true, false, not, ◌&&◌, ◌||◌, Option, none, some, List, [], ◌∷◌, ◌++◌, Text, String,
  js, text_eq, ltb, leb, ◌==◌, is_some, if◌then◌else◌, Result, ok, err,
}
use morpheus_proxy.Json.{
  Json, Number, Items, Fields, nat, null, bool, num, str, arr, obj, nil, cons, end, items,
}
use morpheus_proxy.Grpc.Frames.{Buffer}
use morpheus_proxy.Rules.Matcher.{HeaderMap, HeaderValue, one, many}
use morpheus_proxy.Rules.Validate.Issues.{get_key, as_text, as_natural, is_within}
use morpheus_proxy.Proxy.Headers.{delete_header, set_header}

-- The values that a header patch may hold: a deletion, or what the header is set to.
abbrev pub Change : Type 0
Change = Option HeaderValue

abbrev with_text : Option Text → Option (List Text) → Option (List Text)
with_text none ts = none
with_text (some t) none = none
with_text (some t) (some ts) = some (t ∷ ts)

-- The texts of an array of strings.
unfoldable pub texts_of : Items → Option (List Text)
texts_of nil = some []
texts_of (cons v vs) = with_text (as_text (some v)) (texts_of vs)

abbrev as_many : Option (List Text) → Option Change
as_many none = none
as_many (some ts) = some (some (many ts))

abbrev with_change :
    Text → Option Change → Option (List (Text × Change)) → Option (List (Text × Change))
with_change name none cs = none
with_change name (some c) none = none
with_change name (some c) (some cs) = some ((name, c) ∷ cs)

-- Whether a value is null, a string or an array of strings.
unfoldable pub change_of : Json → Option Change
change_of null = some none
change_of (str t) = some (some (one t))
change_of (arr vs) = as_many (texts_of vs)
change_of (bool b) = none
change_of (num n) = none
change_of (obj fs) = none

unfoldable pub changes_of : Fields → Option (List (Text × Change))
changes_of end = some []
changes_of (Fields.field name v fs) = with_change name (change_of v) (changes_of fs)

unfoldable pub apply_header_patch : List (Text × Change) → HeaderMap → HeaderMap × Bool
apply_header_patch [] headers = (headers, false)
apply_header_patch ((name, none) ∷ patch) headers =
    let (headers', removed) = delete_header headers name in
    let (headers'', changed) = apply_header_patch patch headers' in (headers'', removed || changed)
apply_header_patch ((name, some value) ∷ patch) headers =
    let (headers', changed) = apply_header_patch patch (set_header headers name value) in
    (headers', true)

pub record PatchableHttpResponse : Type 0 where
  pub status_code : ℕ
  pub headers : HeaderMap
  pub body : Option Buffer

pub record PatchOutcome : Type 0 where
  pub changed : Bool
  pub body_changed : Bool
  pub ignored_fields : List Text

-- A response and what became of the patch so far: the flags, or the message of an InvalidPatchError.
pub record Patching (A B : Type 0) : Type 0 where
  pub response : A
  pub result : Result String B

-- The fields of the list that the patch has.
unfoldable pub ignored : List String → Fields → List Text
ignored [] patch = []
ignored (key ∷ keys) patch =
    if is_some (get_key key patch) then js key ∷ ignored keys patch else ignored keys patch

abbrev HttpPatching : Type 0
HttpPatching = Patching PatchableHttpResponse PatchOutcome

-- A step of a patch, unless one before it failed.
abbrev pub then_patch : {A B : Type 0} → Patching A B → (A → B → Patching A B) → Patching A B
then_patch p step = elim p.result [
  | err e ↦ record { response = p.response; result = err e }
  | ok outcome ↦ step p.response outcome
]

abbrev pub patched : {A B : Type 0} → A → B → Patching A B
patched response outcome = record { response = response; result = ok outcome }

abbrev pub refused : {A B : Type 0} → A → String → Patching A B
refused response e = record { response = response; result = err e }

-- The integers from `lo` to `hi`.
abbrev pub integer_within : ℕ → ℕ → Option ℕ → Option ℕ
integer_within lo hi none = none
integer_within lo hi (some n) = if is_within lo (some hi) n then some n else none

unfoldable pub patch_status :
    Option Json → PatchableHttpResponse → PatchOutcome → Patching PatchableHttpResponse PatchOutcome
patch_status none response outcome = patched response outcome
patch_status (some v) response outcome = elim (integer_within 100 599 (as_natural (some v))) [
  | none ↦ refused response "patch statusCode must be an integer 100-599"
  | some n ↦
      if n == response.status_code
      then patched response outcome
      else patched (record response { status_code = n }) (record outcome { changed = true })
]

-- The value as a header patch: not an object, an object with a wrong value, or changes.
pub data HeaderPatch : Type 0 where
  no_object wrong_value : HeaderPatch
  changes : List (Text × Change) → HeaderPatch

abbrev checked_changes : Option (List (Text × Change)) → HeaderPatch
checked_changes none = wrong_value
checked_changes (some cs) = changes cs

unfoldable pub header_patch : Json → HeaderPatch
header_patch (obj fs) = checked_changes (changes_of fs)
header_patch null = no_object
header_patch (bool b) = no_object
header_patch (num n) = no_object
header_patch (str t) = no_object
header_patch (arr vs) = no_object

unfoldable pub patch_headers :
    Option Json → PatchableHttpResponse → PatchOutcome → Patching PatchableHttpResponse PatchOutcome
patch_headers none response outcome = patched response outcome
patch_headers (some v) response outcome = elim (header_patch v) [
  | no_object ↦ refused response "patch headers must be an object"
  | wrong_value ↦ refused response "patch header values must be string, string[], or null"
  | changes cs ↦
      let (headers, changed) = apply_header_patch cs response.headers in
      patched (record response { headers = headers })
        (record outcome { changed = outcome.changed || changed })
]

-- The body, decoded by `decode`.
unfoldable pub patch_body :
    (Text → Buffer)
    → String
    → Option Json
    → PatchableHttpResponse
    → PatchOutcome
    → Patching PatchableHttpResponse PatchOutcome
patch_body decode message none response outcome = patched response outcome
patch_body decode message (some v) response outcome = elim (as_text (some v)) [
  | none ↦ refused response message
  | some t ↦
      patched (record response { body = some (decode t) })
        (record outcome { changed = true; body_changed = true })
]

-- `Buffer.from(text, 'utf8')` and `Buffer.from(text, 'base64')` are parameters.
unfoldable pub apply_http_response_patch :
    (to_utf8 from_base64 : Text → Buffer)
    → Fields
    → PatchableHttpResponse
    → Patching PatchableHttpResponse PatchOutcome
apply_http_response_patch to_utf8 from_base64 patch response =
    if is_some (get_key "body" patch) && is_some (get_key "rawBodyBase64" patch)
    then refused response "patch must not set both body and rawBodyBase64"
    else then_patch
        (then_patch
          (then_patch
            (patch_status (get_key "statusCode" patch) response (record {
              changed = false;
              body_changed = false;
              ignored_fields =
                  ignored ("metadata" ∷ "messages" ∷ "grpcStatus" ∷ "grpcMessage" ∷ "trailers" ∷ [])
                    patch;
            }))
            (patch_headers (get_key "headers" patch)))
          (patch_body to_utf8 "patch body must be a string" (get_key "body" patch)))
        (patch_body from_base64 "patch rawBodyBase64 must be a string"
          (get_key "rawBodyBase64" patch))
