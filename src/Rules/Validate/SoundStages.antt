-- ===== src/Rules/Validate/SoundStages.antt =====
-- What the parsers of actions and of consumption let pass.
use morpheus_proxy.Prelude.{
  ℕ, ◌+◌, ◌<◌, ◌≡◌, refl, true, ◌||◌, Option, none, some, [], Text, length, All, ltb, arith,
}
use morpheus_proxy.Json.{Json, Items, Fields, nil, cons}
use morpheus_proxy.Rules.Types.{Protocol, http, grpc, protocol_eq, RewriteOperation}
use morpheus_proxy.Rules.Matcher.{RegExp}
use morpheus_proxy.Rules.Validate.Issues.{RuleValidationIssue, or_issue}
use morpheus_proxy.Rules.Validate.Stages.{
  parse_set_header, parse_remove_header, parse_set_value, parse_replace_body,
  parse_rewrite_operation, is_header_operation, parse_operations, non_empty, parse_rewrite,
  parse_mock_action, parse_request_fault, parse_request_action, is_header_target,
  parse_response_replace, parse_manipulator, parse_response_fault, parse_response_action,
  parse_consume,
}
use morpheus_proxy.Rules.Validate.Returns.{
  Returns, returns, fails, bind-Returns, switch-Returns, anything, require-Returns,
  integer_in-Returns, valid_regex-Returns, script_source-Returns,
}
use morpheus_proxy.Rules.Validate.Sound.{
  parse_fault-Valid, parse_mock-Valid, parse_script_timeout-Valid, IsPositive-of_within,
  optional-IsPositive,
}
use morpheus_proxy.Rules.Validate.Valid.{
  ValidOperation, ValidRequestAction, ValidResponseAction, ValidConsume,
}

-- An operation that is valid for HTTP.
abbrev HttpOperation : RegExp → RewriteOperation → Type 0
HttpOperation re = ValidOperation re http

parse_set_header-Valid :
    (re : RegExp) (fs : Fields) (path : Text)
    → Returns (HttpOperation re) (parse_set_header fs path)
unfolding parse_set_header
parse_set_header-Valid re fs path = bind-Returns (anything _) (λ name p.
    bind-Returns (require-Returns (ltb 0 (length name)) _)
      (λ u h. bind-Returns (anything _) (λ value q. returns (ground arith))))

parse_remove_header-Valid :
    (re : RegExp) (fs : Fields) (path : Text)
    → Returns (HttpOperation re) (parse_remove_header fs path)
unfolding parse_remove_header
parse_remove_header-Valid re fs path = bind-Returns (anything _) (λ name p.
    bind-Returns (require-Returns (ltb 0 (length name)) _) (λ u h. returns (ground arith)))

parse_replace_body-Valid :
    (re : RegExp) (fs : Fields) (path : Text)
    → Returns (HttpOperation re) (parse_replace_body re fs path)
unfolding parse_replace_body
parse_replace_body-Valid re fs path = bind-Returns (anything _) (λ from p.
    bind-Returns (anything _)
      (λ to q. bind-Returns (valid_regex-Returns re from [] _) (λ u h. returns (refl, h))))

parse_set_path-Valid :
    (re : RegExp) (fs : Fields) (path : Text)
    → Returns (HttpOperation re) (parse_set_value "set_path" RewriteOperation.set_path fs path)
unfolding parse_set_value
parse_set_path-Valid re fs path = bind-Returns (anything _) (λ value p. returns refl)

parse_set_query-Valid :
    (re : RegExp) (fs : Fields) (path : Text)
    → Returns (HttpOperation re) (parse_set_value "set_query" RewriteOperation.set_query fs path)
unfolding parse_set_value
parse_set_query-Valid re fs path = bind-Returns (anything _) (λ value p. returns refl)

parse_rewrite_operation-Valid :
    (re : RegExp) (input : Json) (path : Text)
    → Returns (HttpOperation re) (parse_rewrite_operation re input path)
unfolding parse_rewrite_operation
parse_rewrite_operation-Valid re input path = bind-Returns (anything _) (λ fs p.
    switch-Returns _ _ _
      (
        parse_set_header-Valid re fs path,
        (
          parse_remove_header-Valid re fs path,
          (
            parse_set_path-Valid re fs path,
            (parse_set_query-Valid re fs path, (parse_replace_body-Valid re fs path, tt)),
          ),
        ),
      )
      fails)

valid_operation :
    (re : RegExp) (protocol : Protocol) (op : RewriteOperation)
    → ValidOperation re http op
    → (protocol_eq protocol http || is_header_operation op) ≡ true
    → ValidOperation re protocol op
valid_operation re http op h k = h
valid_operation re grpc (RewriteOperation.set_header name value) h k = h
valid_operation re grpc (RewriteOperation.remove_header name) h k = h
valid_operation re grpc (RewriteOperation.set_path value) h k = absurd (cc)
valid_operation re grpc (RewriteOperation.set_query value) h k = absurd (cc)
valid_operation re grpc (RewriteOperation.replace_body from to) h k = absurd (cc)

parse_operations-Valid :
    (re : RegExp) (protocol : Protocol) (vs : Items) (path : Text) (i : ℕ)
    → Returns (All (ValidOperation re protocol)) (parse_operations re protocol vs path i)
unfolding parse_operations
parse_operations-Valid re protocol nil path i = returns tt
parse_operations-Valid re protocol (cons v vs) path i =
    bind-Returns (parse_rewrite_operation-Valid re v _) (λ op h.
      bind-Returns (require-Returns (protocol_eq protocol http || is_header_operation op) _) (λ u k.
        bind-Returns (parse_operations-Valid re protocol vs path (i + 1))
          (λ ops hs. returns (valid_operation re protocol op h k, hs))))

-- A list that is not empty gives operations.
parse_cons-Valid :
    (re : RegExp) (protocol : Protocol) (v : Json) (vs : Items) (path : Text)
    → Returns
        (λ ops. (0 < length ops) × All (ValidOperation re protocol) ops)
        (parse_operations re protocol (cons v vs) path 0)
unfolding parse_operations
parse_cons-Valid re protocol v vs path =
    bind-Returns (parse_rewrite_operation-Valid re v _) (λ op h.
      bind-Returns (require-Returns (protocol_eq protocol http || is_header_operation op) _) (λ u k.
        bind-Returns (parse_operations-Valid re protocol vs path (0 + 1))
          (λ ops hs. returns (omega arith, (valid_operation re protocol op h k, hs)))))

abbrev IsCons : Items → Type 0
IsCons nil = ⊥
IsCons (cons v vs) = Unit

non_empty-IsCons :
    (o : Option Items) (e : RuleValidationIssue) → Returns IsCons (or_issue (non_empty o) e)
non_empty-IsCons none e = fails
non_empty-IsCons (some nil) e = fails
non_empty-IsCons (some (cons v vs)) e = returns tt

parse_some-Valid :
    (re : RegExp) (protocol : Protocol) (vs : Items) (path : Text)
    → IsCons vs
    → Returns
        (λ ops. (0 < length ops) × All (ValidOperation re protocol) ops)
        (parse_operations re protocol vs path 0)
parse_some-Valid re protocol nil path h = absurd h
parse_some-Valid re protocol (cons v vs) path h = parse_cons-Valid re protocol v vs path

parse_rewrite-Valid :
    (re : RegExp) (fs : Fields) (path : Text) (protocol : Protocol)
    → Returns (ValidRequestAction re protocol) (parse_rewrite re fs path protocol)
unfolding parse_rewrite
parse_rewrite-Valid re fs path protocol =
    bind-Returns (non_empty-IsCons _ _)
      (λ vs h. bind-Returns (parse_some-Valid re protocol vs path h) (λ ops k. returns k))

parse_mock_action-Valid :
    (re : RegExp) (fs : Fields) (path : Text) (protocol : Protocol)
    → Returns (ValidRequestAction re protocol) (parse_mock_action fs path protocol)
unfolding parse_mock_action
parse_mock_action-Valid re fs path protocol =
    bind-Returns (parse_mock-Valid fs path protocol) (λ mock h. returns h)

parse_request_fault-Valid :
    (re : RegExp) (fs : Fields) (path : Text) (protocol : Protocol)
    → Returns (ValidRequestAction re protocol) (parse_request_fault fs path protocol)
unfolding parse_request_fault
parse_request_fault-Valid re fs path protocol =
    bind-Returns (parse_fault-Valid _ _ protocol) (λ fault h. returns h)

pub parse_request_action-Valid :
    (re : RegExp) (input : Json) (path : Text) (protocol : Protocol)
    → Returns (ValidRequestAction re protocol) (parse_request_action re input path protocol)
unfolding parse_request_action
parse_request_action-Valid re input path protocol = bind-Returns (anything _) (λ fs p.
    switch-Returns _ _ _
      (
        parse_mock_action-Valid re fs path protocol,
        (
          parse_request_fault-Valid re fs path protocol,
          (parse_rewrite-Valid re fs path protocol, tt),
        ),
      )
      fails)

module _ (re : RegExp) (max : Option ℕ) (fs : Fields) (path : Text) (protocol : Protocol) where
  parse_response_replace-Valid :
      Returns (ValidResponseAction re max protocol) (parse_response_replace re fs path)
  unfolding parse_response_replace
  parse_response_replace-Valid = bind-Returns (anything _) (λ target p.
      bind-Returns (require-Returns (is_header_target target) _) (λ u h.
        bind-Returns (anything _) (λ from q.
          bind-Returns (anything _)
            (λ to r. bind-Returns (valid_regex-Returns re from [] _) (λ v k. returns (h, k))))))

  parse_manipulator-Valid :
      Returns (ValidResponseAction re max protocol) (parse_manipulator max fs path)
  unfolding parse_manipulator
  parse_manipulator-Valid = bind-Returns (script_source-Returns fs path) (λ source h.
      bind-Returns (parse_script_timeout-Valid max fs path) (λ timeout k. returns (h, k)))

  parse_response_fault-Valid :
      Returns (ValidResponseAction re max protocol) (parse_response_fault fs path protocol)
  unfolding parse_response_fault
  parse_response_fault-Valid = bind-Returns (parse_fault-Valid _ _ protocol) (λ fault h. returns h)

pub parse_response_action-Valid :
    (re : RegExp) (max : Option ℕ) (input : Json) (path : Text) (protocol : Protocol)
    → Returns
        (ValidResponseAction re max protocol)
        (parse_response_action re max input path protocol)
unfolding parse_response_action
parse_response_action-Valid re max input path protocol = bind-Returns (anything _) (λ fs p.
    switch-Returns _ _ _
      (
        parse_response_fault-Valid re max fs path protocol,
        (
          parse_response_replace-Valid re max fs path protocol,
          (parse_manipulator-Valid re max fs path protocol, tt),
        ),
      )
      fails)

pub parse_consume-Valid : (input : Json) → Returns ValidConsume (parse_consume input)
unfolding parse_consume
parse_consume-Valid input = bind-Returns (anything _) (λ fs p.
    bind-Returns (integer_in-Returns 1 none _ _) (λ times h.
      bind-Returns (optional-IsPositive _ _)
        (λ after k. returns (IsPositive-of_within times h, k))))
