-- ===== src/Rules/Matcher/Meaning.antt =====
-- What a matcher tree means: a Boolean combination of its leaves.
use morpheus_proxy.Prelude.{
  ◌≡◌, refl, Bool, true, false, not, ◌&&◌, ◌||◌, Option, none, any, arith, ok,
}
use morpheus_proxy.Rules.Types.{Matcher, Conditions, ScriptMatcher}
use morpheus_proxy.Rules.Matcher.{
  MatchInput, RegExp, ScriptMatcherRunner, resolve_field, or_empty, test_values, eval_script,
  eval_matcher, eval_all, eval_any,
}

-- The value of a tree whose script leaves have the values `verdict`: every condition of `all`
-- holds, some condition of `any` holds, whichever the order.
module _ (re : RegExp) (verdict : ScriptMatcher → Bool) (input : MatchInput) where
  unfoldable mutual
    pub holds : Matcher → Bool
    holds (Matcher.regex field pattern flags) =
        any (re.test pattern (or_empty flags)) (resolve_field field input)
    holds (Matcher.all cs) = all_hold cs
    holds (Matcher.any cs) = any_holds cs
    holds (Matcher.not m) = not (holds m)
    holds (Matcher.script s) = verdict s

    pub all_hold : Conditions → Bool
    all_hold Conditions.nil = true
    all_hold (Conditions.cons m cs) = holds m && all_hold cs

    pub any_holds : Conditions → Bool
    any_holds Conditions.nil = false
    any_holds (Conditions.cons m cs) = holds m || any_holds cs

-- No leaf throws: every pattern is an expression, and every script answers with its verdict.
module _ (re : RegExp) (runner : Option ScriptMatcherRunner) (verdict : ScriptMatcher → Bool)
    (input : MatchInput) where
  unfoldable mutual
    pub LeavesAnswer : Matcher → Type 0
    LeavesAnswer (Matcher.regex field pattern flags) =
        re.syntax_error pattern (or_empty flags) ≡ none
    LeavesAnswer (Matcher.all cs) = AllAnswer cs
    LeavesAnswer (Matcher.any cs) = AllAnswer cs
    LeavesAnswer (Matcher.not m) = LeavesAnswer m
    LeavesAnswer (Matcher.script s) = eval_script runner s input ≡ ok (verdict s)

    pub AllAnswer : Conditions → Type 0
    AllAnswer Conditions.nil = Unit
    AllAnswer (Conditions.cons m cs) = LeavesAnswer m × AllAnswer cs

  mutual
    unfolding eval_matcher holds LeavesAnswer test_values

    value_of :
        (m : Matcher)
        → LeavesAnswer m
        → eval_matcher re runner input m ≡ ok (holds re verdict input m)
    value_of (Matcher.regex field pattern flags) h = rw (h, test_values)
    value_of (Matcher.all cs) h = value_of_all cs h
    value_of (Matcher.any cs) h = value_of_any cs h
    value_of (Matcher.not m) h = rw (value_of m h)
    value_of (Matcher.script s) h = h

    value_of_all :
        (cs : Conditions)
        → AllAnswer cs
        → eval_all re runner input cs ≡ ok (all_hold re verdict input cs)
    value_of_all Conditions.nil h = refl
    value_of_all (Conditions.cons m cs) h = ground (arith, value_of m h.0, value_of_all cs h.1)

    value_of_any :
        (cs : Conditions)
        → AllAnswer cs
        → eval_any re runner input cs ≡ ok (any_holds re verdict input cs)
    value_of_any Conditions.nil h = refl
    value_of_any (Conditions.cons m cs) h = ground (arith, value_of m h.0, value_of_any cs h.1)

  -- Where no leaf throws, the evaluation, which stops early at 'all' and 'any', returns, with the
  -- Boolean combination of all leaves.
  pub eval_matcher-holds :
      (m : Matcher)
      → LeavesAnswer m
      → eval_matcher re runner input m ≡ ok (holds re verdict input m)
  eval_matcher-holds m h = value_of m h
