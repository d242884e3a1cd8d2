-- ===== src/Rules/Evaluate/Selection.antt =====
-- Which rules an evaluation selects, and that the first intercept rule ends it.
use morpheus_proxy.Prelude.{
  ℕ, ◌+◌, ◌≡◌, refl, Bool, true, false, Option, none, some, List, [], ◌∷◌, ◌++◌, Text, Result, ok,
  err, length, length-append, All, All-append, is_some, if◌then◌else◌, arith, Bool-cases, inl, inr,
  sym, ◌∙◌, ap, none_of_is_some,
}
use morpheus_proxy.Rules.Types.{Rule, is_observation_rule}
use morpheus_proxy.Rules.Consume.{Registry, try_consume}
use morpheus_proxy.Rules.Evaluate.{
  EvaluateOptions, RequestEvaluation, Round, is_skipped, apply_rule, judge_rule, evaluate_rule,
  evaluate_rules, evaluate_request, no_rules, Readings,
}

module _ (opts : EvaluateOptions) where
  -- A round ends the loop exactly when it has found the intercept rule.
  abbrev Ends : Round → Type 0
  Ends round = round.done ≡ is_some round.evaluation.intercept_rule

  judge_rule-Ends :
      (rule : Rule) (answer : Result Text Bool) (reg : Registry) (acc : RequestEvaluation)
      → acc.intercept_rule ≡ none
      → Ends (judge_rule opts rule answer reg acc)
  unfolding judge_rule
  judge_rule-Ends rule (err e) reg acc h = ground arith
  judge_rule-Ends rule (ok false) reg acc h = ground arith
  judge_rule-Ends rule (ok true) reg acc h = ground arith

  evaluate_rule-Ends :
      (rule : Rule) (reg : Registry) (acc : RequestEvaluation)
      → acc.intercept_rule ≡ none
      → Ends (evaluate_rule opts rule reg acc)
  unfolding evaluate_rule
  evaluate_rule-Ends rule reg acc h = elim (Bool-cases (is_skipped opts rule)) [
    | inl e ↦ rw e (ground arith)
    | inr e ↦ rw e (judge_rule-Ends rule _ _ acc h)
  ]

  evaluate_rules-append :
      (xs ys : List Rule) (reg : Registry) (acc : RequestEvaluation)
      → acc.intercept_rule ≡ none
      → evaluate_rules opts (xs ++ ys) reg acc ≡ (
          if is_some (evaluate_rules opts xs reg acc).0.intercept_rule
          then evaluate_rules opts xs reg acc
          else evaluate_rules opts ys
              (evaluate_rules opts xs reg acc).1
              (evaluate_rules opts xs reg acc).0)
  unfolding evaluate_rules
  evaluate_rules-append [] ys reg acc h = rw h
  evaluate_rules-append (x ∷ xs) ys reg acc h =
      elim (Bool-cases (evaluate_rule opts x reg acc).done) [
        | inl e ↦ rw (e, sym (evaluate_rule-Ends x reg acc h) ∙ e)
        | inr e ↦ rw e (
            evaluate_rules-append xs ys _ _
              (none_of_is_some _ (sym (evaluate_rule-Ends x reg acc h) ∙ e)))
      ]

  -- The rules before and those after can be evaluated apart: the later ones are reached exactly if
  -- the earlier ones hold no intercept rule that applies, and otherwise they change neither the
  -- evaluation nor any counter.
  pub evaluate_request-append :
      (xs ys : List Rule) (reg : Registry)
      → evaluate_request opts (xs ++ ys) reg ≡ (
          if is_some (evaluate_request opts xs reg).0.intercept_rule
          then evaluate_request opts xs reg
          else evaluate_rules opts ys
              (evaluate_request opts xs reg).1
              (evaluate_request opts xs reg).0)
  unfolding evaluate_request
  evaluate_request-append xs ys reg = evaluate_rules-append xs ys reg no_rules refl

  abbrev one_if : Bool → ℕ
  one_if true = 1
  one_if false = 0

  -- Of a rule that may be there.
  abbrev pub OfSome {ℓ} : (Rule → Type ℓ) → Option Rule → Type ℓ
  OfSome P none = Unit
  OfSome P (some rule) = P rule

  -- Every selected rule has the property and was not passed over; the intercept rule is no
  -- observation rule, and the capture rules are; there is one log entry for each of them.
  pub record Selected (P : Rule → Type 0) (acc : RequestEvaluation) : Type 0 where
    pub intercept :
        OfSome
          (λ r. P r × (is_skipped opts r ≡ false) × (is_observation_rule r ≡ false))
          acc.intercept_rule
    pub captures :
        All
          (λ r. P r × (is_skipped opts r ≡ false) × (is_observation_rule r ≡ true))
          acc.capture_rules
    pub counted :
        length acc.matched ≡ length acc.capture_rules + one_if (is_some acc.intercept_rule)

  apply_rule-Selected :
      (P : Rule → Type 0) (rule : Rule) (reg : Registry) (acc : RequestEvaluation)
      → P rule
      → is_skipped opts rule ≡ false
      → acc.intercept_rule ≡ none
      → Selected P acc
      → Selected P (apply_rule opts rule reg acc).evaluation
  unfolding apply_rule
  apply_rule-Selected P rule reg acc p h e s = elim (Bool-cases (is_observation_rule rule)) [
    | inl o ↦ rw o (record {
      intercept = s.intercept;
      captures = All-append _ acc.capture_rules _ s.captures ((p, h, o), tt);
      counted = omega (
        arith,
        s.counted,
        length-append acc.matched (_ ∷ []),
        length-append acc.capture_rules (rule ∷ []),
      );
    })
    | inr o ↦ rw o (record {
      intercept = (p, h, o);
      captures = s.captures;
      counted = omega (
        arith,
        length-append acc.matched (_ ∷ []),
        s.counted,
        ap (λ (o : Option Rule). one_if (is_some o)) e,
      );
    })
  ]

  judge_rule-Selected :
      (P : Rule → Type 0) (rule : Rule) (answer : Result Text Bool) (reg : Registry)
      (acc : RequestEvaluation)
      → P rule
      → is_skipped opts rule ≡ false
      → acc.intercept_rule ≡ none
      → Selected P acc
      → Selected P (judge_rule opts rule answer reg acc).evaluation
  unfolding judge_rule
  judge_rule-Selected P rule (err e) reg acc p h n s = record {
    intercept = s.intercept;
    captures = s.captures;
    counted = s.counted;
  }
  judge_rule-Selected P rule (ok false) reg acc p h n s = s
  judge_rule-Selected P rule (ok true) reg acc p h n s =
      elim (Bool-cases (try_consume now.checked now.stamped rule reg).1) [
        | inl e ↦ rw e (apply_rule-Selected P rule _ acc p h n s)
        | inr e ↦ rw e s
      ]
    where
      now : Readings
      now = opts.readings rule

  evaluate_rule-Selected :
      (P : Rule → Type 0) (rule : Rule) (reg : Registry) (acc : RequestEvaluation)
      → P rule
      → acc.intercept_rule ≡ none
      → Selected P acc
      → Selected P (evaluate_rule opts rule reg acc).evaluation
  unfolding evaluate_rule
  evaluate_rule-Selected P rule reg acc p n s = elim (Bool-cases (is_skipped opts rule)) [
    | inl e ↦ rw e s
    | inr e ↦ rw e (judge_rule-Selected P rule _ _ acc p e n s)
  ]

  evaluate_rules-Selected :
      (P : Rule → Type 0) (rules : List Rule) (reg : Registry) (acc : RequestEvaluation)
      → All P rules
      → acc.intercept_rule ≡ none
      → Selected P acc
      → Selected P (evaluate_rules opts rules reg acc).0
  unfolding evaluate_rules
  evaluate_rules-Selected P [] reg acc ps n s = s
  evaluate_rules-Selected P (x ∷ xs) reg acc ps n s =
      elim (Bool-cases (evaluate_rule opts x reg acc).done) [
        | inl e ↦ rw e (evaluate_rule-Selected P x reg acc ps.0 n s)
        | inr e ↦ rw e (
            evaluate_rules-Selected P xs _ _ ps.1
              (none_of_is_some _ (sym (evaluate_rule-Ends x reg acc n) ∙ e))
              (evaluate_rule-Selected P x reg acc ps.0 n s))
      ]

  -- Whatever the matchers answer and other requests do: a property of all the rules holds of those
  -- that an evaluation selects, and none of these was passed over as disabled, of another protocol
  -- or in need of a body that streams; the intercept rule is no observation rule, the capture rules
  -- are; and `matched` has one entry for each capture rule and one for the intercept rule.
  pub evaluate_request-Selected :
      (P : Rule → Type 0) (rules : List Rule) (reg : Registry)
      → All P rules
      → Selected P (evaluate_request opts rules reg).0
  unfolding evaluate_request
  evaluate_request-Selected P rules reg ps =
      evaluate_rules-Selected P rules reg no_rules ps refl
        (record { intercept = tt; captures = tt; counted = refl })
