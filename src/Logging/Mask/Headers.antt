-- ===== src/Logging/Mask/Headers.antt =====
-- Masked header maps.
use morpheus_proxy.Prelude.{
  ◌≡◌, refl, ◌∙◌, Bool, true, false, Option, none, some, [], ◌∷◌, Text, text_eq_iff, lookup,
  lookup-insert, insert, Distinct, if◌then◌else◌, arith, Option-cases,
}
use morpheus_proxy.Rules.Matcher.{HeaderMap, HeaderValue}
use morpheus_proxy.Logging.Mask.{
  MaskRegistry, mask_headers, mask_entries, mask_value, is_masked, any, text_eq, to_lower_case,
}

-- What a header shows: nothing but `***` where its name is masked.
abbrev pub shown : Bool → Option HeaderValue → Option HeaderValue
shown masked none = none
shown true (some value) = some (mask_value value)
shown false (some value) = some value

abbrev first_of_two : Option HeaderValue → Option HeaderValue → Option HeaderValue
first_of_two none second = second
first_of_two (some value) second = some value

mask_entries-lookup :
    (registry : MaskRegistry) (headers masked : HeaderMap) (key : Text)
    → Distinct headers
    → lookup key (mask_entries registry headers masked)
      ≡ first_of_two (shown (is_masked registry key) (lookup key headers)) (lookup key masked)
unfolding mask_entries lookup
mask_entries-lookup registry [] masked key d = refl
mask_entries-lookup registry ((name, value) ∷ headers) masked key d = ground (
  arith,
  mask_entries-lookup registry headers
      (insert name (if is_masked registry name then mask_value value else value) masked) key d.1,
  lookup-insert name key (if is_masked registry name then mask_value value else value) masked,
  text_eq_iff name key,
)

-- A header whose name is masked, in any spelling, shows `***` for each of its values; any other header
-- is as it was, and no name is added or lost.
pub mask_headers-lookup :
    (registry : MaskRegistry) (headers : HeaderMap) (key : Text)
    → Distinct headers
    → lookup key (mask_headers registry headers)
      ≡ shown (any (λ name. text_eq name (to_lower_case key)) registry.headers) (lookup key headers)
unfolding mask_headers lookup is_masked
mask_headers-lookup registry headers key d =
    mask_entries-lookup registry headers [] key d
    ∙ ground (arith, Option-cases (lookup key headers))
