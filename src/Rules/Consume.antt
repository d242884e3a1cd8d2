-- ===== src/Rules/Consume.antt =====
-- src/rules/consume.ts. The registry is its map of counters; each method returns the registry that
-- it leaves. A reading of the clock is an argument: `at` where a reset is decided, `stamp` where a
-- time is stored, since the code reads the clock once for each.
pub mod Counters
pub mod Budget
use morpheus_proxy.Prelude.{
  ℕ, ◌+◌, ◌-◌, Bool, true, false, ◌&&◌, Option, none, some, List, [], ◌∷◌, Text, leb, lookup,
  insert, remove, if◌then◌else◌,
}
use morpheus_proxy.Rules.Types.{Rule, ConsumeSpec}
use morpheus_proxy.Rules.Matcher.{RuleStateView}

pub record CounterState : Type 0 where
  pub hits : ℕ
  pub consumed : ℕ
  pub last_consumed_at : Option ℕ
  pub last_matched_at : Option ℕ

abbrev pub Registry : Type 0
Registry = List (Text × CounterState)

pub record RuleRuntimeState : Type 0 where
  pub rule_id : Text
  pub hits : ℕ
  pub consumed : ℕ
  pub remaining : Option ℕ
  pub last_matched_at : Option Text

abbrev pub fresh_state : CounterState
fresh_state = record { hits = 0; consumed = 0; last_consumed_at = none; last_matched_at = none }

abbrev or_fresh : Option CounterState → CounterState
or_fresh none = fresh_state
or_fresh (some s) = s

-- The counters of a rule; `insert` of them stores those that are new.
unfoldable pub state_for : Text → Registry → CounterState
state_for id reg = or_fresh (lookup id reg)

-- now - last >= resetAfterMs
abbrev pub is_due : ℕ → Option ℕ → Option ℕ → Bool
is_due at none last = false
is_due at (some after) none = false
is_due at (some after) (some last) = leb (last + after) at

unfoldable pub maybe_reset : ℕ → Option ConsumeSpec → CounterState → CounterState
maybe_reset at none state = state
maybe_reset at (some spec) state =
    if is_due at spec.reset_after_ms state.last_consumed_at
    then record state { consumed = 0; last_consumed_at = none }
    else state

-- The counters that `rule` has at the time `at`.
abbrev pub current : ℕ → Rule → Registry → CounterState
current at rule reg = maybe_reset at rule.consume (state_for rule.id reg)

abbrev consume_once : ℕ → ℕ → Text → CounterState → Registry → Registry × Bool
consume_once stamp times id state reg =
    if leb times state.consumed then (insert id state reg, false) else (
      insert id (record state { consumed = state.consumed + 1; last_consumed_at = some stamp }) reg,
      true,
    )

unfoldable pub try_consume : (at stamp : ℕ) → Rule → Registry → Registry × Bool
try_consume at stamp rule reg = elim rule.consume [
  | none ↦ (reg, true)
  | some spec ↦ consume_once stamp spec.times rule.id (current at rule reg) reg
]

unfoldable pub record_hit : (stamp : ℕ) → Rule → Registry → Registry
record_hit stamp rule reg =
    let state = state_for rule.id reg in
    insert rule.id (record state { hits = state.hits + 1; last_matched_at = some stamp }) reg

unfoldable pub remaining : (at : ℕ) → Rule → Registry → Registry × Option ℕ
remaining at rule reg = elim rule.consume [
  | none ↦ (reg, none)
  | some spec ↦
      (insert rule.id (current at rule reg) reg, some (spec.times - (current at rule reg).consumed))
]

unfoldable pub view : (at : ℕ) → Rule → Registry → Registry × RuleStateView
unfolding remaining
view at rule reg =
    let reg' = insert rule.id (state_for rule.id reg) reg in
    let (reg'', left) = remaining at rule reg' in
    (reg'', record { hits = (state_for rule.id reg'').hits; remaining = left })

abbrev map_time : (ℕ → Text) → Option ℕ → Option Text
map_time iso none = none
map_time iso (some t) = some (iso t)

-- `iso` is `new Date(t).toISOString()`.
unfoldable pub state_of : (ℕ → Text) → (at : ℕ) → Rule → Registry → Registry × RuleRuntimeState
state_of iso at rule reg =
    let state = current at rule reg in
    (
      insert rule.id state reg,
      record {
        rule_id = rule.id;
        hits = state.hits;
        consumed = state.consumed;
        remaining = elim rule.consume [
          | none ↦ none
          | some spec ↦ some (spec.times - state.consumed)
        ];
        last_matched_at = map_time iso state.last_matched_at;
      },
    )

unfoldable pub reset : Text → Registry → Registry
reset id reg = remove id reg

clone_onto : Registry → Registry → Registry
clone_onto copy [] = copy
clone_onto copy ((id, state) ∷ states) = clone_onto (insert id state copy) states

unfoldable pub clone : Registry → Registry
unfolding clone_onto
clone reg = clone_onto [] reg
