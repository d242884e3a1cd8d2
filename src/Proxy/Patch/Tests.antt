-- ===== src/Proxy/Patch/Tests.antt =====
-- The theorems about src/proxy/patch.ts at concrete inputs.
use morpheus_proxy.Prelude.{
  ◌≡◌, refl, true, none, some, [], ◌∷◌, js, ok, text_eq, to_lower_case, lookup, insert, false,
}
use morpheus_proxy.Json.{Json, Fields, str, obj, end, null, arr, nil}
use morpheus_proxy.Rules.Matcher.{one}
use morpheus_proxy.Proxy.Headers.{delete_header, set_header}
use morpheus_proxy.Proxy.Patch.{
  PatchableHttpResponse, apply_http_response_patch, ignored, patch_status, patch_headers,
  header_patch, texts_of, changes_of, change_of, patch_body, apply_header_patch,
}
use morpheus_proxy.Json.{nat}
use morpheus_proxy.Proxy.Patch.Grpc.{
  apply_grpc_response_patch, patch_metadata, patch_messages, patch_grpc_status, patch_grpc_message,
  patch_trailers, patch_grpc_headers,
}
use morpheus_proxy.Proxy.Patch.Keeps.{Fair, Exact, touches, apply_http_response_patch-Fair}

abbrev answer : PatchableHttpResponse
answer = record { status_code = 200; headers = (js "Server", one (js "s")) ∷ []; body = some [] }

-- Deletes one header and sets another.
abbrev header_changes : Json
header_changes = obj (Fields.field (js "server") null (Fields.field (js "X-A") (str (js "1")) end))

abbrev good_patch : Fields
good_patch =
    Fields.field (js "headers") header_changes
      (Fields.field (js "messages") null (Fields.field (js "body") (str (js "ok")) end))

good_patch_test : apply_http_response_patch (λ t. t) (λ t. []) good_patch answer ≡ record {
  response = record {
    status_code = 200;
    headers = (js "x-a", one (js "1")) ∷ [];
    body = some (js "ok");
  };
  result = ok (record { changed = true; body_changed = true; ignored_fields = js "messages" ∷ [] });
}
unfolding apply_http_response_patch ignored patch_status patch_headers header_patch texts_of
    changes_of change_of patch_body apply_header_patch set_header delete_header insert js text_eq
    lookup to_lower_case
good_patch_test = refl

apply_http_response_patch-Fair_example :
    let patching = apply_http_response_patch (λ t. t) (λ t. []) good_patch answer in
    Exact true true patching.result × Fair answer patching.response patching.result
unfolding js lookup text_eq header_patch changes_of change_of touches to_lower_case
apply_http_response_patch-Fair_example =
    apply_http_response_patch-Fair (λ t. t) (λ t. []) good_patch answer

-- A status, a message of the protocol that is not allowed, and a field of HTTP.
grpc_patch_test :
    apply_grpc_response_patch
      (Fields.field (js "grpcStatus") (Json.num (nat 5)) (
        Fields.field (js "messages") (arr nil) (
          Fields.field
            (js "grpcMessage")
            (str (js "x"))
            (Fields.field (js "body") (str (js "b")) end))))
      (record { allow_metadata = none; allow_messages = some false })
      (record {
        metadata = [];
        messages = none;
        grpc_status = 5;
        grpc_message = none;
        trailers = [];
      })
    ≡ record {
      response = record {
        metadata = [];
        messages = none;
        grpc_status = 5;
        grpc_message = some (js "x");
        trailers = [];
      };
      result = ok (record {
        changed = true;
        messages_changed = false;
        ignored_fields = js "body" ∷ js "messages" ∷ [];
      });
    }
unfolding apply_grpc_response_patch patch_metadata patch_messages patch_grpc_status
    patch_grpc_message patch_trailers patch_grpc_headers ignored lookup text_eq js
grpc_patch_test = refl
