-- ===== src/Rules/Matcher/Fields.antt =====
-- The fields that a matcher tree refers to, collected in any order of visits.
use mathlib.Core.List.{append-nil, append_assoc}
use morpheus_proxy.Prelude.{
  ◌≡◌, refl, sym, ap, ◌∙◌, Bool, ◌||◌, List, [], ◌++◌, Text, any, any-append,
}
use morpheus_proxy.Rules.Types.{Matcher, Conditions}
use morpheus_proxy.Rules.Matcher.{collect_matcher_fields, collect_conditions}

mutual
  unfolding collect_matcher_fields

  collect-append :
      (m : Matcher) (into : List Text)
      → collect_matcher_fields m into ≡ into ++ collect_matcher_fields m []
  collect-append (Matcher.regex field pattern flags) into = refl
  collect-append (Matcher.all cs) into = conditions-append cs into
  collect-append (Matcher.any cs) into = conditions-append cs into
  collect-append (Matcher.not m) into = collect-append m into
  collect-append (Matcher.script s) into = sym (append-nil into)

  conditions-append :
      (cs : Conditions) (into : List Text)
      → collect_conditions cs into ≡ into ++ collect_conditions cs []
  conditions-append Conditions.nil into = sym (append-nil into)
  conditions-append (Conditions.cons m cs) into =
      conditions-append cs (collect_matcher_fields m into)
      ∙ ap (λ (l : List Text). l ++ collect_conditions cs []) (collect-append m into)
      ∙ append_assoc into (collect_matcher_fields m []) (collect_conditions cs [])
      ∙ ap (λ (l : List Text). into ++ l) (sym (conditions-append cs (collect_matcher_fields m [])))

-- A property of some collected field holds of the first condition or of a later one.
pub any-collect_conditions :
    (p : Text → Bool) (m : Matcher) (cs : Conditions)
    → any p (collect_conditions (Conditions.cons m cs) [])
      ≡ (any p (collect_matcher_fields m []) || any p (collect_conditions cs []))
unfolding collect_matcher_fields
any-collect_conditions p m cs =
    ap (any p) (conditions-append cs (collect_matcher_fields m []))
    ∙ any-append p (collect_matcher_fields m []) (collect_conditions cs [])
