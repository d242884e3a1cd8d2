-- ===== src/Proxy/Headers/Raw.antt =====
-- Repeated fields of a raw header list.
use morpheus_proxy.Prelude.{
  false, ◌≡◌, refl, Option, none, some, List, [], ◌∷◌, ◌++◌, Text, js, text_eq, text_eq_iff,
  starts_with, to_lower_case, lookup, lookup-insert, if◌then◌else◌, arith, sym, ◌∙◌,
}
use mathlib.Core.List.{append-nil, append_assoc}
use morpheus_proxy.Rules.Matcher.{HeaderMap, HeaderValue, one, many, header_values}
use morpheus_proxy.Proxy.Headers.{
  own_or_inherited, existing, add_raw, from_raw_loop, from_raw_headers, joined,
}

-- The values of a lower-case name in the raw list, in order; a pseudo-header has none.
unfoldable pub raw_values : Text → List Text → List Text
raw_values name [] = []
raw_values name (n ∷ []) = []
raw_values name (n ∷ value ∷ raw) =
    if starts_with (to_lower_case n) (js ":")
    then raw_values name raw
    else if text_eq (to_lower_case n) name
    then value ∷ raw_values name raw
    else raw_values name raw

abbrev values_at : Option HeaderValue → List Text
values_at none = []
values_at (some (one value)) = value ∷ []
values_at (some (many values)) = values

joined-values :
    (o : Option HeaderValue) (value : Text)
    → values_at (some (joined o value)) ≡ values_at o ++ value ∷ []
joined-values none value = refl
joined-values (some (one v)) value = refl
joined-values (some (many vs)) value = refl

-- Of every name but `constructor` an object has what was put into it.
existing-own :
    (name : Text) (o : Option HeaderValue)
    → text_eq name (js "constructor") ≡ false
    → own_or_inherited name o ≡ o
existing-own name none h = rw h refl
existing-own name (some value) h = refl

add_raw-values :
    (name n value : Text) (headers : HeaderMap)
    → text_eq name (js "constructor") ≡ false
    → values_at (lookup name (add_raw n value headers)) ≡ (
        if starts_with n (js ":")
        then values_at (lookup name headers)
        else if text_eq n name
        then values_at (lookup name headers) ++ value ∷ []
        else values_at (lookup name headers))
unfolding add_raw
add_raw-values name n value headers h = ground (
  arith,
  lookup-insert n name (joined (existing n headers) value) headers,
  existing-own name (lookup name headers) h,
  joined-values (lookup n headers) value,
  text_eq_iff n name,
)

from_raw_loop-values :
    (name : Text) (raw : List Text) (headers : HeaderMap)
    → text_eq name (js "constructor") ≡ false
    → values_at (lookup name (from_raw_loop raw headers))
      ≡ values_at (lookup name headers) ++ raw_values name raw
unfolding from_raw_loop raw_values
from_raw_loop-values name [] headers h = sym (append-nil _)
from_raw_loop-values name (n ∷ []) headers h = sym (append-nil _)
from_raw_loop-values name (n ∷ value ∷ raw) headers h = ground (
  arith,
  from_raw_loop-values name raw (add_raw (to_lower_case n) value headers) h,
  add_raw-values name (to_lower_case n) value headers h,
  append_assoc (values_at (lookup name headers)) (value ∷ []) (raw_values name raw),
)

header_values-at :
    (headers : HeaderMap) (name : Text)
    → header_values headers name ≡ values_at (lookup (to_lower_case name) headers)
unfolding header_values
header_values-at headers name = ground arith

-- Read back under any spelling of its name, a field has all the values that the raw list gives it,
-- in their order, however often it is repeated; pseudo-headers are gone. The name is not
-- `constructor`, which a plain object inherits, and no field of the list is named `__proto__`.
pub from_raw_headers-values :
    (raw : List Text) (name : Text)
    → text_eq (to_lower_case name) (js "constructor") ≡ false
    → raw_values (js "__proto__") raw ≡ []
    → header_values (from_raw_headers raw) name ≡ raw_values (to_lower_case name) raw
unfolding from_raw_headers lookup
from_raw_headers-values raw name h plain =
    header_values-at (from_raw_headers raw) name
    ∙ from_raw_loop-values (to_lower_case name) raw [] h
