-- ===== src/Rules/Matcher/Bodies.antt =====
-- Matchers that refer to no body field and run no script do not look at bodies.
use morpheus_proxy.Prelude.{
  ◌≡◌, refl, sym, ◌∙◌, ◌∷◌, or-eq-false, false, Option, none, some, [], Text, any, arith,
}
use morpheus_proxy.Rules.Types.{Matcher, Conditions}
use morpheus_proxy.Rules.Matcher.{
  MatchInput, RegExp, ResponseSnapshot, ScriptMatcherRunner, resolve_field, resolve_request_field,
  resolve_response_field, eval_regex, eval_matcher, eval_all, eval_any, collect_matcher_fields,
  collect_conditions, matcher_uses_body, matcher_has_script, conditions_have_script, is_body_field,
}
use morpheus_proxy.Rules.Matcher.Fields.{any-collect_conditions}

-- The body fields of a snapshot: the text and its base64 form.
pub record BodyFields : Type 0 where
  pub body : Option Text
  pub raw_body_base64 : Option Text

abbrev with_response_body : BodyFields → Option ResponseSnapshot → Option ResponseSnapshot
with_response_body b none = none
with_response_body b (some r) =
    some (record r { body = b.body; raw_body_base64 = b.raw_body_base64 })

-- The same input with other bodies of the request and of the response.
abbrev pub with_bodies : BodyFields → BodyFields → MatchInput → MatchInput
with_bodies b c i = record i {
  request = record (i.request) { body = b.body; raw_body_base64 = b.raw_body_base64 };
  response = with_response_body c i.response;
}

resolve_field-with_bodies :
    (b c : BodyFields) (i : MatchInput) (field : Text)
    → is_body_field field ≡ false
    → resolve_field field (with_bodies b c i) ≡ resolve_field field i
unfolding resolve_field resolve_request_field resolve_response_field
resolve_field-with_bodies b c i field h = ground arith

conditions_free :
    (m : Matcher) (cs : Conditions)
    → any is_body_field (collect_conditions (Conditions.cons m cs) []) ≡ false
    → (any is_body_field (collect_matcher_fields m []) ≡ false)
      × (any is_body_field (collect_conditions cs []) ≡ false)
conditions_free m cs h = or-eq-false _ _ (sym (any-collect_conditions is_body_field m cs) ∙ h)

module _ (re : RegExp) (runner : Option ScriptMatcherRunner) (b c : BodyFields)
    (i : MatchInput) where
  regex_same :
      (field pattern : Text) (flags : Option Text)
      → any is_body_field (field ∷ []) ≡ false
      → eval_regex re field pattern flags (with_bodies b c i) ≡ eval_regex re field pattern flags i
  regex_same field pattern flags h =
      let free = (or-eq-false _ _ h).0 in rw (resolve_field-with_bodies b c i field free)

  mutual
    unfolding eval_matcher collect_matcher_fields matcher_has_script

    matcher_same :
        (m : Matcher)
        → any is_body_field (collect_matcher_fields m []) ≡ false
        → matcher_has_script m ≡ false
        → eval_matcher re runner (with_bodies b c i) m ≡ eval_matcher re runner i m
    matcher_same (Matcher.regex field pattern flags) h k = regex_same field pattern flags h
    matcher_same (Matcher.all cs) h k = all_same cs h k
    matcher_same (Matcher.any cs) h k = any_same cs h k
    matcher_same (Matcher.not m) h k = rw (matcher_same m h k)
    matcher_same (Matcher.script s) h k = cc

    all_same :
        (cs : Conditions)
        → any is_body_field (collect_conditions cs []) ≡ false
        → conditions_have_script cs ≡ false
        → eval_all re runner (with_bodies b c i) cs ≡ eval_all re runner i cs
    all_same Conditions.nil h k = refl
    all_same (Conditions.cons m cs) h k =
        let free = conditions_free m cs h in
        let plain = or-eq-false (matcher_has_script m) (conditions_have_script cs) k in
        rw (matcher_same m free.0 plain.0, all_same cs free.1 plain.1)

    any_same :
        (cs : Conditions)
        → any is_body_field (collect_conditions cs []) ≡ false
        → conditions_have_script cs ≡ false
        → eval_any re runner (with_bodies b c i) cs ≡ eval_any re runner i cs
    any_same Conditions.nil h k = refl
    any_same (Conditions.cons m cs) h k =
        let free = conditions_free m cs h in
        let plain = or-eq-false (matcher_has_script m) (conditions_have_script cs) k in
        rw (matcher_same m free.0 plain.0, any_same cs free.1 plain.1)

  -- A matcher that names no body field and holds no script answers alike whatever the bodies of the
  -- request and the response are, in value and in error.
  pub eval_matcher-with_bodies :
      (m : Matcher)
      → matcher_uses_body m ≡ false
      → matcher_has_script m ≡ false
      → eval_matcher re runner (with_bodies b c i) m ≡ eval_matcher re runner i m
  unfolding matcher_uses_body
  eval_matcher-with_bodies m h k = matcher_same m h k
