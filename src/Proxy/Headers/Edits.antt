-- ===== src/Proxy/Headers/Edits.antt =====
-- Deleting and setting headers without regard to the case of their names.
use morpheus_proxy.Prelude.{
  ◌≡◌, none, some, [], ◌∷◌, Text, text_eq, text_eq_iff, to_lower_case, lookup, lookup-insert, any,
  keys, if◌then◌else◌, arith,
}
use morpheus_proxy.Rules.Matcher.{HeaderMap, HeaderValue, one, header_values}
use morpheus_proxy.Proxy.Headers.{delete_header, set_header, header_value, same_name}

-- A deletion removes every spelling of the name, leaves every other header as it was, and says
-- whether there was one to remove.
pub delete_header-lookup :
    (headers : HeaderMap) (name key : Text)
    → (lookup key (delete_header headers name).0
        ≡ (if same_name key name then none else lookup key headers))
      × ((delete_header headers name).1 ≡ any (λ k. same_name k name) (keys headers))
unfolding delete_header lookup
delete_header-lookup [] name key = ground arith
delete_header-lookup ((k, v) ∷ headers) name key =
    ground (arith, delete_header-lookup headers name key, text_eq_iff k key)

-- After a header is set, its lower-case name has the value, no other spelling of the name is left,
-- and every other header is as it was.
set_header-lookup :
    (headers : HeaderMap) (name key : Text) (value : HeaderValue)
    → lookup key (set_header headers name value) ≡ (
        if text_eq (to_lower_case name) key
        then some value
        else if same_name key name
        then none
        else lookup key headers)
unfolding set_header
set_header-lookup headers name key value = ground (
  arith,
  lookup-insert (to_lower_case name) key value (delete_header headers name).0,
  delete_header-lookup headers name key,
)

-- A header that is set is read back under any spelling of its name, by the pipeline and by the
-- matchers.
pub set_header-header_value :
    (headers : HeaderMap) (name spelling value : Text)
    → to_lower_case spelling ≡ to_lower_case name
    → (header_value (set_header headers name (one value)) spelling ≡ some value)
      × (header_values (set_header headers name (one value)) spelling ≡ value ∷ [])
unfolding header_value header_values
set_header-header_value headers name spelling value h = ground (
  arith,
  set_header-lookup headers name (to_lower_case spelling) (one value),
  text_eq_iff (to_lower_case name) (to_lower_case spelling),
)
