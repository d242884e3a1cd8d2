-- ===== src/Rules/Consume/Counters.antt =====
-- The counters of one rule: what an operation writes, and that it leaves other rules alone.
use morpheus_proxy.Prelude.{
  ◌≤◌, ◌<◌, inl, inr, refl, Bool-cases, ℕ, ◌+◌, ◌-◌, ◌≡◌, some, Text, text_eq, text_eq_refl, ltb,
  insert, remove, lookup-insert, lookup-remove, if◌then◌else◌, arith, false, true,
}
use morpheus_proxy.Rules.Types.{Rule, ConsumeSpec}
use morpheus_proxy.Rules.Consume.{
  is_due, Registry, CounterState, fresh_state, state_for, current, try_consume, remaining,
  maybe_reset,
}

pub state_for-insert :
    (k j : Text) (s : CounterState) (reg : Registry)
    → state_for j (insert k s reg) ≡ (if text_eq k j then s else state_for j reg)
unfolding state_for
state_for-insert k j s reg = ground (arith, lookup-insert k j s reg)

pub state_for-remove :
    (k j : Text) (reg : Registry)
    → state_for j (remove k reg) ≡ (if text_eq k j then fresh_state else state_for j reg)
unfolding state_for
state_for-remove k j reg = ground (arith, lookup-remove k j reg)

module _ (at stamp : ℕ) (rule : Rule) (spec : ConsumeSpec) (reg : Registry)
    (consumable : rule.consume ≡ some spec) where
  abbrev pub used : CounterState
  used = record (current at rule reg) {
    consumed = (current at rule reg).consumed + 1;
    last_consumed_at = some stamp;
  }

  pub try_consume-exhausted :
      spec.times ≤ (current at rule reg).consumed
      → try_consume at stamp rule reg ≡ (insert rule.id (current at rule reg) reg, false)
  unfolding try_consume
  try_consume-exhausted h = ground arith

  pub try_consume-left :
      (current at rule reg).consumed < spec.times
      → try_consume at stamp rule reg ≡ (insert rule.id used reg, true)
  unfolding try_consume
  try_consume-left h = ground arith

  pub remaining_lem : (remaining at rule reg).1 ≡ some (spec.times - (current at rule reg).consumed)
  unfolding remaining
  remaining_lem = ground arith

  after_left :
      (later : ℕ)
      → is_due later spec.reset_after_ms (some stamp) ≡ false
      → (remaining later rule (insert rule.id used reg)).1
        ≡ some (spec.times - ((current at rule reg).consumed + 1))
  unfolding remaining maybe_reset
  after_left later soon =
      ground (arith, text_eq_refl rule.id, state_for-insert rule.id rule.id used reg)

  after_exhausted :
      spec.times ≤ (current at rule reg).consumed
      → (remaining at rule (insert rule.id (current at rule reg) reg)).1 ≡ some 0
  unfolding remaining maybe_reset
  after_exhausted h =
      ground
        (arith, text_eq_refl rule.id, state_for-insert rule.id rule.id (current at rule reg) reg)

  -- With `n` applications remaining at the time `at`, an attempt then succeeds exactly if `n` is
  -- not 0. After a success `n - 1` remain at any later time at which the reset of the counter is not
  -- yet due, and after a failure none remains at the time `at`.
  pub try_consume-remaining :
      (n later : ℕ)
      → (remaining at rule reg).1 ≡ some n
      → is_due later spec.reset_after_ms (some stamp) ≡ false
      → ((try_consume at stamp rule reg).1 ≡ ltb 0 n)
        × ((remaining (if ltb 0 n then later else at) rule (try_consume at stamp rule reg).0).1
            ≡ some (n - 1))
  try_consume-remaining n later e soon = elim (Bool-cases (ltb 0 n)) [
    | inl some_left ↦
        rw (some_left, try_consume-left (ground (arith, remaining_lem)))
          (refl, ground (arith, remaining_lem, after_left later soon))
    | inr exhausted ↦
        rw (exhausted, try_consume-exhausted (ground (arith, remaining_lem)))
          (refl, ground (arith, remaining_lem, after_exhausted (ground (arith, remaining_lem))))
  ]
