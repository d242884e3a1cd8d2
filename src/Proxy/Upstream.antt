-- ===== src/Proxy/Upstream.antt =====
-- src/proxy/upstream.ts: the addresses of upstreams, and what is sent to one and comes back. The
-- connection itself, `sendToUpstream`, is a parameter of the pipeline.
use morpheus_proxy.Prelude.{
  ℕ, ◌+◌, ◌*◌, ◌-◌, Bool, true, false, not, ◌&&◌, Option, none, some, List, [], ◌∷◌, Text, js, leb,
  ◌==◌, if◌then◌else◌, starts_with, drop,
}
use morpheus_proxy.Grpc.Frames.{Buffer}
use morpheus_proxy.Rules.Matcher.{HeaderMap}
use morpheus_proxy.Proxy.Body.{StreamEvent}

pub data UpstreamKind : Type 0 where
  http h2c : UpstreamKind

pub record UpstreamTarget : Type 0 where
  pub kind : UpstreamKind
  pub host : Text
  pub port : ℕ

abbrev is_host_unit : ℕ → Bool
is_host_unit c = not (c == b'/') && not (c == b':')

abbrev is_digit : ℕ → Bool
is_digit c = leb b'0' c && leb c b'9'

-- The longest prefix of units that pass, and the rest.
unfoldable span : (ℕ → Bool) → Text → Text × Text
span p [] = ([], [])
span p (c ∷ s) = let (front, rest) = span p s in if p c then (c ∷ front, rest) else ([], c ∷ s)

abbrev number_of : ℕ → Text → ℕ
number_of n [] = n
number_of n (c ∷ s) = number_of (n * 10 + (c - b'0')) s

-- `\/?$`
abbrev is_end : Text → Bool
is_end [] = true
is_end (c ∷ []) = c == b'/'
is_end (c ∷ d ∷ s) = false

abbrev target : UpstreamKind → Text → ℕ → Text → Option UpstreamTarget
target kind [] port rest = none
target kind (c ∷ host) port rest =
    if is_end rest then some (record { kind = kind; host = c ∷ host; port = port }) else none

abbrev with_port : UpstreamKind → Text → Text × Text → Option UpstreamTarget
with_port kind host ([], rest) = none
with_port kind host (c ∷ digits, rest) = target kind host (number_of 0 (c ∷ digits)) rest

-- What follows the host: a port or the end.
abbrev after_host : UpstreamKind → Text → Text → Option UpstreamTarget
after_host kind host [] = target kind host 80 []
after_host kind host (c ∷ rest) =
    if c == b':' then with_port kind host (span is_digit rest) else target kind host 80 (c ∷ rest)

abbrev after_scheme : UpstreamKind → Text → Option UpstreamTarget
after_scheme kind rest = let (host, tail) = span is_host_unit rest in after_host kind host tail

-- Nothing where an error is thrown. The two schemes have no common start.
unfoldable pub parse_upstream : Text → Option UpstreamTarget
unfolding span
parse_upstream url =
    if starts_with url (js "http://")
    then after_scheme http (drop 7 url)
    else if starts_with url (js "h2c://")
    then after_scheme h2c (drop 6 url)
    else none

pub data UpstreamFailureReason : Type 0 where
  connect_failed timeout reset : UpstreamFailureReason

-- What `sendToUpstream` throws: an UpstreamError with its reason, or another error.
pub record UpstreamFailure : Type 0 where
  pub reason : Option UpstreamFailureReason
  pub message : Text

-- A body that is passed on: bytes, the bytes that were read before the rest of a stream, or the
-- stream untouched.
pub data StreamBody : Type 0 where
  whole joined : Buffer → StreamBody
  untouched : StreamBody

pub record UpstreamRequestInit : Type 0 where
  pub method : Text
  pub path : Text
  pub authority : Text
  pub headers : HeaderMap
  pub body : Option StreamBody
  pub timeout_ms : ℕ

-- `stream` has the events of the reply's stream.
pub record UpstreamReply : Type 0 where
  pub status_code : ℕ
  pub headers : HeaderMap
  pub is_http2_stream : Bool
  pub stream : List StreamEvent
