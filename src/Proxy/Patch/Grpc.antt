-- ===== src/Proxy/Patch/Grpc.antt =====
-- src/proxy/patch.ts for gRPC: what a script manipulator's patch does to a gRPC response.
use morpheus_proxy.Prelude.{
  ℕ, Bool, true, false, ◌||◌, Option, none, some, List, [], ◌∷◌, ◌++◌, Text, String, js, text_eq,
  ◌==◌, if◌then◌else◌,
}
use morpheus_proxy.Json.{Json, Fields, items}
use morpheus_proxy.Rules.Matcher.{HeaderMap}
use morpheus_proxy.Rules.Validate.Issues.{get_key, as_text, as_array, as_natural}
use morpheus_proxy.Proxy.Patch.{
  Patching, no_object, wrong_value, changes, header_patch, apply_header_patch, ignored, then_patch,
  patched, refused, integer_within,
}

pub record PatchableGrpcResponse : Type 0 where
  pub metadata : HeaderMap
  pub messages : Option (List Json)
  pub grpc_status : ℕ
  pub grpc_message : Option Text
  pub trailers : HeaderMap

pub record GrpcPatchOutcome : Type 0 where
  pub changed : Bool
  pub messages_changed : Bool
  pub ignored_fields : List Text

pub record GrpcPatchOptions : Type 0 where
  pub allow_metadata : Option Bool
  pub allow_messages : Option Bool

abbrev GrpcPatching : Type 0
GrpcPatching = Patching PatchableGrpcResponse GrpcPatchOutcome

-- `option ?? true`
abbrev or_true : Option Bool → Bool
or_true none = true
or_true (some b) = b

abbrev ignore : Text → GrpcPatchOutcome → GrpcPatchOutcome
ignore name outcome = record outcome { ignored_fields = outcome.ignored_fields ++ name ∷ [] }

abbrev changed_if : Bool → GrpcPatchOutcome → GrpcPatchOutcome
changed_if changed outcome = record outcome { changed = outcome.changed || changed }

-- A patch of some headers, which `write` puts into the response.
unfoldable pub patch_grpc_headers :
    (no_object_message wrong_message : String)
    → HeaderMap
    → (HeaderMap → PatchableGrpcResponse)
    → Json
    → PatchableGrpcResponse
    → GrpcPatchOutcome
    → Patching PatchableGrpcResponse GrpcPatchOutcome
patch_grpc_headers no_object_message wrong_message headers write v response outcome =
    elim (header_patch v) [
      | no_object ↦ refused response no_object_message
      | wrong_value ↦ refused response wrong_message
      | changes cs ↦
          let (headers', changed) = apply_header_patch cs headers in
          patched (write headers') (changed_if changed outcome)
    ]

unfoldable pub patch_metadata :
    Bool
    → Option Json
    → PatchableGrpcResponse
    → GrpcPatchOutcome
    → Patching PatchableGrpcResponse GrpcPatchOutcome
unfolding patch_grpc_headers
patch_metadata allowed none response outcome = patched response outcome
patch_metadata false (some v) response outcome = patched response (ignore (js "metadata") outcome)
patch_metadata true (some v) response outcome =
    patch_grpc_headers "patch metadata must be an object"
      "patch metadata values must be string, string[], or null" response.metadata
      (λ headers. record response { metadata = headers }) v response outcome

unfoldable pub patch_messages :
    Bool
    → Option Json
    → PatchableGrpcResponse
    → GrpcPatchOutcome
    → Patching PatchableGrpcResponse GrpcPatchOutcome
patch_messages allowed none response outcome = patched response outcome
patch_messages false (some v) response outcome = patched response (ignore (js "messages") outcome)
patch_messages true (some v) response outcome = elim (as_array (some v)) [
  | none ↦ refused response "patch messages must be an array"
  | some vs ↦
      patched (record response { messages = some (items vs) })
        (record outcome { changed = true; messages_changed = true })
]

unfoldable pub patch_grpc_status :
    Option Json
    → PatchableGrpcResponse
    → GrpcPatchOutcome
    → Patching PatchableGrpcResponse GrpcPatchOutcome
patch_grpc_status none response outcome = patched response outcome
patch_grpc_status (some v) response outcome = elim (integer_within 0 16 (as_natural (some v))) [
  | none ↦ refused response "patch grpcStatus must be an integer 0-16"
  | some n ↦
      if n == response.grpc_status
      then patched response outcome
      else patched (record response { grpc_status = n }) (record outcome { changed = true })
]

-- `===` of a text and one that may be missing
abbrev is_text : Text → Option Text → Bool
is_text t none = false
is_text t (some u) = text_eq t u

unfoldable pub patch_grpc_message :
    Option Json
    → PatchableGrpcResponse
    → GrpcPatchOutcome
    → Patching PatchableGrpcResponse GrpcPatchOutcome
patch_grpc_message none response outcome = patched response outcome
patch_grpc_message (some v) response outcome = elim (as_text (some v)) [
  | none ↦ refused response "patch grpcMessage must be a string"
  | some t ↦
      if is_text t response.grpc_message
      then patched response outcome
      else patched (record response { grpc_message = some t }) (record outcome { changed = true })
]

unfoldable pub patch_trailers :
    Option Json
    → PatchableGrpcResponse
    → GrpcPatchOutcome
    → Patching PatchableGrpcResponse GrpcPatchOutcome
unfolding patch_grpc_headers
patch_trailers none response outcome = patched response outcome
patch_trailers (some v) response outcome =
    patch_grpc_headers "patch trailers must be an object"
      "patch trailers values must be string, string[], or null" response.trailers
      (λ headers. record response { trailers = headers }) v response outcome

unfoldable pub apply_grpc_response_patch :
    Fields
    → GrpcPatchOptions
    → PatchableGrpcResponse
    → Patching PatchableGrpcResponse GrpcPatchOutcome
unfolding patch_metadata patch_messages patch_grpc_status patch_grpc_message patch_trailers
apply_grpc_response_patch patch options response =
    then_patch
      (then_patch
        (then_patch
          (then_patch
            (patch_metadata (or_true options.allow_metadata) (get_key "metadata" patch) response
              (record {
                changed = false;
                messages_changed = false;
                ignored_fields =
                    ignored ("statusCode" ∷ "body" ∷ "rawBodyBase64" ∷ "headers" ∷ []) patch;
              }))
            (patch_messages (or_true options.allow_messages) (get_key "messages" patch)))
          (patch_grpc_status (get_key "grpcStatus" patch)))
        (patch_grpc_message (get_key "grpcMessage" patch)))
      (patch_trailers (get_key "trailers" patch))
