-- ===== src/Logging/Messages.antt =====
-- The messages of src/logging/traffic-log.ts: what is drafted, and what is logged of it.
use morpheus_proxy.Prelude.{
  ℕ, Bool, true, false, not, ◌&&◌, ◌||◌, Option, none, some, List, [], ◌∷◌, Text, text_eq,
  to_lower_case, take, any, length, leb, ◌==◌, if◌then◌else◌, is_some,
}
use morpheus_proxy.Grpc.Frames.{Buffer}
use morpheus_proxy.Rules.Matcher.{HeaderMap}
use morpheus_proxy.Logging.Mask.{MaskRegistry, JsonText, mask_headers, mask_json_text}

-- What Node's buffers, dates and JSON do: decoding and encoding of UTF-8, base64, ISO dates of
-- epoch milliseconds and their parsing.
pub record Platform : Type 0 where
  pub from_utf8 : Buffer → Text
  pub to_utf8 : Text → Buffer
  pub to_base64 : Buffer → Text
  pub json : JsonText
  pub stringify_headers : HeaderMap → Text
  pub to_iso_string : ℕ → Text
  pub parse_date : Text → ℕ

unfoldable pub preview_bytes : ℕ
preview_bytes = 4096

pub data Encoding : Type 0 where
  utf8 base64 : Encoding

pub data BodyKind : Type 0 where
  request forwarded_request upstream_response response : BodyKind

pub record LoggedMessage : Type 0 where
  pub method : Option Text
  pub path : Option Text
  pub status_code : Option ℕ
  pub grpc_status : Option ℕ
  pub headers : HeaderMap
  pub trailers : Option HeaderMap
  pub body_logged : Bool
  pub body_size : Option ℕ
  pub body_preview : Option Text
  pub body_preview_encoding : Option Encoding
  pub body_logging_skipped_reason : Option Text

pub record MessageDraft : Type 0 where
  pub method : Option Text
  pub path : Option Text
  pub status_code : Option ℕ
  pub grpc_status : Option ℕ
  pub headers : HeaderMap
  pub trailers : Option HeaderMap
  pub body : Option Buffer
  pub body_skipped_reason : Option Text
  pub content_type : Option Text

-- A queued write or deletion of the file `<id>.<kind>.bin`.
pub data DiskOp : Type 0 where
  write_file : (id : Text) → BodyKind → Buffer → DiskOp
  unlink : (id : Text) → BodyKind → DiskOp

-- `===` of buffers
buffer_eq : Buffer → Buffer → Bool
buffer_eq a b = text_eq a b

unfoldable pub looks_binary : Platform → Buffer → Bool
unfolding buffer_eq
looks_binary platform buffer =
    let sample = take preview_bytes buffer in
    if any (λ b. b == 0) sample
    then true
    else not (buffer_eq sample (platform.to_utf8 (platform.from_utf8 sample)))

-- `\w`
is_word : ℕ → Bool
is_word c =
    (leb b'0' c && leb c b'9')
    || (leb b'A' c && leb c b'Z')
    || (leb b'a' c && leb c b'z')
    || c == b'_'

-- `\b` behind a word character
at_boundary : Text → Bool
at_boundary [] = true
at_boundary (c ∷ s) = not (is_word c)

-- "json" at the start of the text, with a boundary behind it
json_here : Text → Bool
unfolding at_boundary is_word
json_here (j ∷ s ∷ o ∷ n ∷ rest) =
    j == b'j' && s == b's' && o == b'o' && n == b'n' && at_boundary rest
json_here _ = false

-- "json" behind a slash or a plus
json_later : Text → Bool
json_later [] = false
json_later (c ∷ s) = (c == b'/' || c == b'+') && json_here s || json_later s

-- /(^|[/+])json\b/i
unfoldable pub is_json_content_type : Option Text → Bool
unfolding json_here json_later
is_json_content_type none = false
is_json_content_type (some content_type) =
    let text = to_lower_case content_type in json_here text || json_later text

abbrev map_headers : (HeaderMap → HeaderMap) → Option HeaderMap → Option HeaderMap
map_headers f none = none
map_headers f (some headers) = some (f headers)

unfoldable pub preview : Platform → MaskRegistry → Option Text → Buffer → Text × Encoding
preview platform mask content_type body =
    if looks_binary platform body
    then (platform.to_base64 (take preview_bytes body), base64)
    else (let text = platform.from_utf8 body in
        (
          take preview_bytes (
              if is_json_content_type content_type
              then mask_json_text platform.json mask text
              else text),
          utf8,
        ))

-- The part of a message that does not depend on its body.
abbrev without_body : MaskRegistry → MessageDraft → LoggedMessage
without_body mask draft = record {
  method = draft.method;
  path = draft.path;
  status_code = draft.status_code;
  grpc_status = draft.grpc_status;
  headers = mask_headers mask draft.headers;
  trailers = map_headers (mask_headers mask) draft.trailers;
  body_logged = is_some draft.body;
  body_size = none;
  body_preview = none;
  body_preview_encoding = none;
  body_logging_skipped_reason = draft.body_skipped_reason;
}

-- The logged message, and the write of its body.
unfoldable pub build_message :
    Platform → MaskRegistry → MessageDraft → (id : Text) → BodyKind → LoggedMessage × List DiskOp
unfolding preview
build_message platform mask draft id kind = elim draft.body [
  | none ↦ (without_body mask draft, [])
  | some body ↦
      let (text, encoding) = preview platform mask draft.content_type body in
      (
        record (without_body mask draft) {
          body_size = some (length body);
          body_preview = some text;
          body_preview_encoding = some encoding;
        },
        write_file id kind body ∷ [],
      )
]
