-- ===== src/Proxy/Actions/Replace.antt =====
-- What a replacement changes in response headers.
use morpheus_proxy.Prelude.{
  ◌≡◌, Option, none, some, Text, text_eq, lookup, lookup-insert, if◌then◌else◌, arith, Option-cases,
  inl, inr, js,
}
use morpheus_proxy.Rules.Types.{ResponseReplaceAction}
use morpheus_proxy.Rules.Matcher.{RegExp, HeaderMap, HeaderValue}
use morpheus_proxy.Proxy.Actions.{apply_response_replace, replace_value, target_name}

-- The replacement in the target's value, where the header is there, the expression can be made and
-- something changes.
abbrev pub replaced : RegExp → HeaderMap → ResponseReplaceAction → Option HeaderValue
replaced re headers action = elim (re.syntax_error action.from (js "g")) [
  | some e ↦ none
  | none ↦ elim (lookup (target_name action) headers) [
    | none ↦ none
    | some current ↦ replace_value (λ value. re.replace_all action.from value action.to) current
  ]
]

abbrev pub or_value : Option HeaderValue → Option HeaderValue → Option HeaderValue
or_value none second = second
or_value (some value) second = some value

-- A replacement changes the target's value and nothing else, and only to what the expression makes of
-- each of its values; where it does not change it, all headers are as they were.
apply_response_replace-lookup :
    (re : RegExp) (headers : HeaderMap) (action : ResponseReplaceAction) (key : Text)
    → lookup key (apply_response_replace re headers action).0 ≡ (
        if text_eq (target_name action) key
        then or_value (replaced re headers action) (lookup key headers)
        else lookup key headers)
unfolding apply_response_replace
apply_response_replace-lookup re headers action key =
    elim (Option-cases (lookup (target_name action) headers)) [
      | inl e ↦ rw (apply_response_replace, e) (ground arith)
      | inr e ↦ elim (Option-cases (re.syntax_error action.from (js "g"))) [
        | inr k ↦ rw (apply_response_replace, e.1, k.1) (ground arith)
        | inl k ↦
            elim (Option-cases
              (replace_value (λ value. re.replace_all action.from value action.to) e.0)) [
                | inl l ↦ rw (apply_response_replace, e.1, k, l) (ground arith)
                | inr l ↦
                    rw (apply_response_replace, replaced, e.1, k, e.1, l.1)
                      (lookup-insert (target_name action) key l.0 headers)
              ]
      ]
    ]
