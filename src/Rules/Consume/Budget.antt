-- ===== src/Rules/Consume/Budget.antt =====
-- Sequences of the registry's calls, in the order in which any number of requests make them: each
-- call is one synchronous step.
use Prim.Native.Nat.{min}
use morpheus_proxy.Prelude.{
  ℕ, ◌+◌, ◌-◌, ◌≡◌, refl, ◌⊎◌, inl, inr, Bool, true, false, ◌&&◌, none, some, List, [], ◌∷◌, Text,
  All, text_eq, text_eq_refl, ltb, insert, arith, ap, ◌∙◌,
}
use morpheus_proxy.Rules.Types.{Rule, ConsumeSpec}
use morpheus_proxy.Rules.Consume.{
  Registry, CounterState, state_for, current, maybe_reset, try_consume, record_hit, remaining, view,
  state_of, reset,
}
use morpheus_proxy.Rules.Consume.Counters.{state_for-insert, state_for-remove, used}

-- A call of the registry.
pub data Call : Type 0 where
  attempt : (at stamp : ℕ) → Rule → Call
  hit : (stamp : ℕ) → Rule → Call
  count_left : (at : ℕ) → Rule → Call
  look : (at : ℕ) → Rule → Call
  inspect : (iso : ℕ → Text) (at : ℕ) → Rule → Call
  clear : Text → Call

-- The registry after the call, and whether the call was an attempt that succeeded.
unfoldable pub step : Call → Registry → Registry × Bool
unfolding try_consume record_hit remaining view state_of reset
step (attempt at stamp rule) reg = try_consume at stamp rule reg
step (hit stamp rule) reg = (record_hit stamp rule reg, false)
step (count_left at rule) reg = ((remaining at rule reg).0, false)
step (look at rule) reg = ((view at rule reg).0, false)
step (inspect iso at rule) reg = ((state_of iso at rule reg).0, false)
step (clear id) reg = (reset id reg, false)

abbrev is_attempt : Text → Call → Bool
is_attempt id (attempt at stamp rule) = text_eq rule.id id
is_attempt id (hit stamp rule) = false
is_attempt id (count_left at rule) = false
is_attempt id (look at rule) = false
is_attempt id (inspect iso at rule) = false
is_attempt id (clear id') = false

abbrev one_if : Bool → ℕ
one_if true = 1
one_if false = 0

-- How many of the calls try to consume the rule, and how many of those succeed.
unfoldable pub attempts : Text → List Call → ℕ
attempts id [] = 0
attempts id (c ∷ cs) = one_if (is_attempt id c) + attempts id cs

unfoldable pub applied : Text → List Call → Registry → ℕ
unfolding step
applied id [] reg = 0
applied id (c ∷ cs) reg = one_if (is_attempt id c && (step c reg).1) + applied id cs (step c reg).0

-- The call is about this very rule, or about a rule with another id; it is no reset of this one.
abbrev pub Concerns : Rule → Call → Type 0
Concerns rule (attempt at stamp r) = (r ≡ rule) ⊎ (text_eq r.id rule.id ≡ false)
Concerns rule (hit stamp r) = (r ≡ rule) ⊎ (text_eq r.id rule.id ≡ false)
Concerns rule (count_left at r) = (r ≡ rule) ⊎ (text_eq r.id rule.id ≡ false)
Concerns rule (look at r) = (r ≡ rule) ⊎ (text_eq r.id rule.id ≡ false)
Concerns rule (inspect iso at r) = (r ≡ rule) ⊎ (text_eq r.id rule.id ≡ false)
Concerns rule (clear id) = text_eq id rule.id ≡ false

consumed_of : Text → Registry → ℕ
consumed_of id reg = (state_for id reg).consumed

module _ (rule : Rule) (spec : ConsumeSpec) (consumable : rule.consume ≡ some spec)
    (no_reset : spec.reset_after_ms ≡ none) where
  current-state_for : (at : ℕ) (reg : Registry) → current at rule reg ≡ state_for rule.id reg
  unfolding maybe_reset
  current-state_for at reg = ground arith

  abbrev Counted : Call → Registry → Type 0
  Counted c reg =
      (consumed_of rule.id (step c reg).0
        ≡ consumed_of rule.id reg + one_if (is_attempt rule.id c && (step c reg).1))
      × ((is_attempt rule.id c && (step c reg).1)
          ≡ (is_attempt rule.id c && ltb (consumed_of rule.id reg) spec.times))

  -- A call that writes counters of another rule, or this rule's own as they stand.
  abbrev Unmoved : Registry → Registry → Type 0
  Unmoved reg reg' = consumed_of rule.id reg' ≡ consumed_of rule.id reg

  other-Unmoved :
      (id : Text) (s : CounterState) (reg : Registry)
      → text_eq id rule.id ≡ false
      → Unmoved reg (insert id s reg)
  unfolding consumed_of
  other-Unmoved id s reg h = ground (arith, state_for-insert id rule.id s reg)

  self-Unmoved :
      (s : CounterState) (reg : Registry)
      → s.consumed ≡ consumed_of rule.id reg
      → Unmoved reg (insert rule.id s reg)
  unfolding consumed_of
  self-Unmoved s reg h =
      ground (arith, state_for-insert rule.id rule.id s reg, text_eq_refl rule.id)

  current-Unmoved :
      (at : ℕ) (r : Rule) (reg : Registry)
      → (r ≡ rule) ⊎ (text_eq r.id rule.id ≡ false)
      → Unmoved reg (insert r.id (current at r reg) reg)
  unfolding consumed_of
  current-Unmoved at r reg (inl e) =
      rw e (self-Unmoved _ reg (ap (λ s. s.consumed) (current-state_for at reg)))
  current-Unmoved at r reg (inr ne) = other-Unmoved r.id _ reg ne

  remaining-Unmoved :
      (at : ℕ) (r : Rule) (reg : Registry)
      → (r ≡ rule) ⊎ (text_eq r.id rule.id ≡ false)
      → Unmoved reg (remaining at r reg).0
  unfolding remaining
  remaining-Unmoved at r reg h = ground (arith, current-Unmoved at r reg h)

  attempt-Counted : (at stamp : ℕ) (reg : Registry) → Counted (attempt at stamp rule) reg
  unfolding step consumed_of
  attempt-Counted at stamp reg = ground (
    arith,
    text_eq_refl rule.id,
    current-state_for at reg,
    state_for-insert rule.id rule.id (current at rule reg) reg,
    state_for-insert rule.id rule.id (used at stamp rule spec reg consumable) reg,
  )

  other_attempt-Counted :
      (at stamp : ℕ) (r : Rule) (reg : Registry)
      → text_eq r.id rule.id ≡ false
      → Counted (attempt at stamp r) reg
  unfolding step consumed_of
  other_attempt-Counted at stamp r reg ne = ground (
    arith,
    state_for-insert r.id rule.id (current at r reg) reg,
    state_for-insert r.id rule.id
        (record (current at r reg) {
          consumed = (current at r reg).consumed + 1;
          last_consumed_at = some stamp;
        })
        reg,
  )

  hit-Unmoved :
      (stamp : ℕ) (r : Rule) (reg : Registry)
      → (r ≡ rule) ⊎ (text_eq r.id rule.id ≡ false)
      → Unmoved reg (record_hit stamp r reg)
  unfolding record_hit consumed_of
  hit-Unmoved stamp r reg (inl e) = rw e (self-Unmoved _ reg refl)
  hit-Unmoved stamp r reg (inr ne) = other-Unmoved r.id _ reg ne

  stored-Unmoved :
      (r : Rule) (reg : Registry)
      → (r ≡ rule) ⊎ (text_eq r.id rule.id ≡ false)
      → Unmoved reg (insert r.id (state_for r.id reg) reg)
  unfolding consumed_of
  stored-Unmoved r reg (inl e) = rw e (self-Unmoved _ reg refl)
  stored-Unmoved r reg (inr ne) = other-Unmoved r.id _ reg ne

  view-Unmoved :
      (at : ℕ) (r : Rule) (reg : Registry)
      → (r ≡ rule) ⊎ (text_eq r.id rule.id ≡ false)
      → Unmoved reg (view at r reg).0
  unfolding view
  view-Unmoved at r reg h =
      remaining-Unmoved at r (insert r.id (state_for r.id reg) reg) h ∙ stored-Unmoved r reg h

  reset-Unmoved :
      (id : Text) (reg : Registry) → text_eq id rule.id ≡ false → Unmoved reg (reset id reg)
  unfolding reset consumed_of
  reset-Unmoved id reg ne = ground (arith, state_for-remove id rule.id reg)

  step-Counted : (c : Call) (reg : Registry) → Concerns rule c → Counted c reg
  unfolding step
  step-Counted (attempt at stamp r) reg (inl e) = rw e (attempt-Counted at stamp reg)
  step-Counted (attempt at stamp r) reg (inr ne) = other_attempt-Counted at stamp r reg ne
  step-Counted (hit stamp r) reg h = (omega (arith, hit-Unmoved stamp r reg h), refl)
  step-Counted (count_left at r) reg h = (omega (arith, remaining-Unmoved at r reg h), refl)
  step-Counted (look at r) reg h = (omega (arith, view-Unmoved at r reg h), refl)
  step-Counted (inspect iso at r) reg h = (omega (arith, current-Unmoved at r reg h), refl)
  step-Counted (clear id) reg h = (omega (arith, reset-Unmoved id reg h), refl)

  -- Of a rule that is consumable `times` times and has no timed reset: in any sequence of calls of
  -- the registry that are about this version of the rule or about rules with other ids, and none of
  -- which is a reset of this rule, it applies as often as it is tried, up to the applications left.
  -- So as long as the rule is neither changed nor reset, no attempt is lost and none too many succeeds.
  pub applied-eq-min :
      (cs : List Call) (reg : Registry)
      → All (Concerns rule) cs
      → applied rule.id cs reg
        ≡ min (spec.times - (state_for rule.id reg).consumed) (attempts rule.id cs)
  unfolding applied attempts consumed_of
  applied-eq-min [] reg h = omega arith
  applied-eq-min (c ∷ cs) reg h =
      ground (arith, step-Counted c reg h.0, applied-eq-min cs (step c reg).0 h.1)
