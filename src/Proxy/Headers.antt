-- ===== src/Proxy/Headers.antt =====
-- src/proxy/headers.ts. A header map is the entries of the object in the order of their insertion;
-- names that are array indices, and `__proto__`, are left out.
pub mod Edits
pub mod Raw
pub mod Hops
use morpheus_proxy.Prelude.{
  ℕ, Bool, true, false, not, ◌&&◌, ◌||◌, Option, none, some, List, [], ◌∷◌, ◌++◌, Text, js, text_eq,
  starts_with, to_lower_case, lookup, insert, any, leb, ◌==◌, if◌then◌else◌,
}
use mathlib.Core.List.{reverse}
use morpheus_proxy.Rules.Matcher.{HeaderMap, HeaderValue, one, many}

unfoldable pub mem : Text → List Text → Bool
mem t ts = any (λ u. text_eq u t) ts

unfoldable pub hop_by_hop_headers : List Text
hop_by_hop_headers =
    js "connection"
    ∷ js "keep-alive"
    ∷ js "proxy-connection"
    ∷ js "te"
    ∷ js "trailer"
    ∷ js "transfer-encoding"
    ∷ js "upgrade"
    ∷ []

-- `Object.entries(raw)`: a value may be undefined.
unfoldable pub from_node_headers : List (Text × Option HeaderValue) → HeaderMap → HeaderMap
from_node_headers [] headers = headers
from_node_headers ((name, none) ∷ raw) headers = from_node_headers raw headers
from_node_headers ((name, some value) ∷ raw) headers =
    from_node_headers raw (if starts_with name (js ":") then headers else insert name value headers)

-- The existing value of the name, with one more.
abbrev joined : Option HeaderValue → Text → HeaderValue
joined none value = one value
joined (some (one existing)) value = many (existing ∷ value ∷ [])
joined (some (many existing)) value = many (existing ++ value ∷ [])

-- `headers[name]`, which finds an inherited property too: of the names of `Object.prototype` in lower
-- case, `constructor` has a function, here by its printed form. `__proto__` is left out.
abbrev pub own_or_inherited : Text → Option HeaderValue → Option HeaderValue
own_or_inherited name (some value) = some value
own_or_inherited name none =
    if text_eq name (js "constructor")
    then some (one (js "function Object() { [native code] }"))
    else none

abbrev pub existing : Text → HeaderMap → Option HeaderValue
existing name headers = own_or_inherited name (lookup name headers)

-- One round of the loop of `fromRawHeaders`; the name is in lower case.
unfoldable pub add_raw : Text → Text → HeaderMap → HeaderMap
add_raw name value headers =
    if starts_with name (js ":")
    then headers
    else insert name (joined (existing name headers) value) headers

-- The rounds over `[name, value, name, value, …]`; a last name with no value is left out.
unfoldable pub from_raw_loop : List Text → HeaderMap → HeaderMap
unfolding add_raw
from_raw_loop [] headers = headers
from_raw_loop (name ∷ []) headers = headers
from_raw_loop (name ∷ value ∷ raw) headers =
    from_raw_loop raw (add_raw (to_lower_case name) value headers)

unfoldable pub from_raw_headers : List Text → HeaderMap
unfolding from_raw_loop
from_raw_headers raw = from_raw_loop raw []

unfoldable pub from_http2_headers :
    List (Text × Option HeaderValue) → Option (List Text) → HeaderMap
from_http2_headers headers none = from_node_headers headers []
from_http2_headers headers (some []) = from_node_headers headers []
from_http2_headers headers (some (name ∷ raw)) = from_raw_headers (name ∷ raw)

-- `s.split(',')`, with the part that has been read.
unfoldable pub split_comma : Text → Text → List Text
split_comma part [] = part ∷ []
split_comma part (c ∷ s) =
    let closed = part ∷ split_comma [] s in
    let longer = split_comma (part ++ c ∷ []) s in if c == b',' then closed else longer

-- `parts.join(',')`
unfoldable pub join_comma : List Text → Text
join_comma [] = []
join_comma (part ∷ []) = part
join_comma (part ∷ part' ∷ parts) = part ++ b',' ∷ join_comma (part' ∷ parts)

-- The white space and line terminators that `trim` removes.
is_space : ℕ → Bool
is_space c =
    (leb 9 c && leb c 13)
    || c == 32
    || c == 160
    || c == 0x1680
    || (leb 0x2000 c && leb c 0x200A)
    || c == 0x2028
    || c == 0x2029
    || c == 0x202F
    || c == 0x205F
    || c == 0x3000
    || c == 0xFEFF

trim_start : Text → Text
trim_start [] = []
trim_start (c ∷ s) = if is_space c then trim_start s else c ∷ s

unfoldable pub trim : Text → Text
unfolding trim_start is_space
trim s = reverse (trim_start (reverse (trim_start s)))

abbrev value_text : HeaderValue → Text
value_text (one value) = value
value_text (many values) = join_comma values

-- The loop over the tokens of the Connection header.
add_tokens : List Text → List Text → List Text
add_tokens [] extra = extra
add_tokens (token ∷ tokens) extra =
    let name = to_lower_case (trim token) in
    add_tokens tokens (if text_eq name [] then extra else name ∷ extra)

unfoldable pub connection_names : HeaderMap → List Text
unfolding add_tokens split_comma join_comma trim
connection_names headers = elim (lookup (js "connection") headers) [
  | none ↦ []
  | some value ↦ add_tokens (split_comma [] (value_text value)) []
]

unfoldable pub is_stripped : List Text → Text → Bool
unfolding mem hop_by_hop_headers
is_stripped extra name =
    mem (to_lower_case name) hop_by_hop_headers || mem (to_lower_case name) extra

-- The last loop of `stripHopByHop`.
unfoldable pub copy_kept : List Text → HeaderMap → HeaderMap → HeaderMap
copy_kept extra [] result = result
copy_kept extra ((name, value) ∷ headers) result =
    copy_kept extra headers (if is_stripped extra name then result else insert name value result)

unfoldable pub strip_hop_by_hop : HeaderMap → HeaderMap
unfolding copy_kept is_stripped
strip_hop_by_hop headers = copy_kept (connection_names headers) headers []

abbrev first_value : HeaderValue → Option Text
first_value (one value) = some value
first_value (many []) = none
first_value (many (value ∷ values)) = some value

abbrev pub or_else_value : Option HeaderValue → Option HeaderValue → Option HeaderValue
or_else_value none second = second
or_else_value (some value) second = some value

abbrev pub and_then_first : Option HeaderValue → Option Text
and_then_first none = none
and_then_first (some value) = first_value value

unfoldable pub header_value : HeaderMap → Text → Option Text
header_value headers name =
    and_then_first (or_else_value (lookup (to_lower_case name) headers) (lookup name headers))

abbrev pub same_name : Text → Text → Bool
same_name key name = text_eq (to_lower_case key) (to_lower_case name)

-- The headers that are left, and whether one was removed.
unfoldable pub delete_header : HeaderMap → Text → HeaderMap × Bool
delete_header [] name = ([], false)
delete_header ((key, value) ∷ headers) name =
    let (rest, removed) = delete_header headers name in
    if same_name key name then (rest, true) else ((key, value) ∷ rest, removed)

unfoldable pub set_header : HeaderMap → Text → HeaderValue → HeaderMap
unfolding delete_header
set_header headers name value = insert (to_lower_case name) value (delete_header headers name).0
