-- ===== src/Proxy/Headers/Hops.antt =====
-- What a forwarded message keeps of its headers.
use morpheus_proxy.Prelude.{
  ◌≡◌, Option, none, List, [], ◌∷◌, Text, text_eq_iff, lookup, lookup-insert, insert, Distinct,
  if◌then◌else◌, arith, Bool-cases, inl, ◌∙◌, inr, Option-cases, to_lower_case, ◌||◌,
}
use morpheus_proxy.Rules.Matcher.{HeaderMap, HeaderValue}
use morpheus_proxy.Proxy.Headers.{
  copy_kept, strip_hop_by_hop, connection_names, is_stripped, or_else_value, mem,
  hop_by_hop_headers,
}

abbrev kept_or : List Text → HeaderMap → HeaderMap → Text → Option HeaderValue
kept_or extra headers result key =
    if is_stripped extra key
    then lookup key result
    else or_else_value (lookup key headers) (lookup key result)

copy_kept-lookup :
    (extra : List Text) (headers result : HeaderMap) (key : Text)
    → Distinct headers
    → lookup key (copy_kept extra headers result) ≡ kept_or extra headers result key
unfolding copy_kept lookup
copy_kept-lookup extra [] result key d = ground arith
copy_kept-lookup extra ((name, value) ∷ headers) result key d =
    elim (Bool-cases (is_stripped extra name)) [
      | inl e ↦
          rw e
            (copy_kept-lookup extra headers result key d.1 ∙ ground (arith, text_eq_iff name key))
      | inr e ↦ rw e (
          copy_kept-lookup extra headers (insert name value result) key d.1
          ∙ ground (arith, text_eq_iff name key, lookup-insert name key value result))
    ]

-- A forwarded message has no hop-by-hop header and none that its Connection header names, under any
-- spelling; every other header is there with its value.
pub strip_hop_by_hop-lookup :
    (headers : HeaderMap) (key : Text)
    → Distinct headers
    → lookup key (strip_hop_by_hop headers) ≡ (
        if mem (to_lower_case key) hop_by_hop_headers
          || mem (to_lower_case key) (connection_names headers)
        then none
        else lookup key headers)
unfolding strip_hop_by_hop lookup is_stripped
strip_hop_by_hop-lookup headers key d =
    copy_kept-lookup (connection_names headers) headers [] key d
    ∙ ground (arith, Option-cases (lookup key headers))
