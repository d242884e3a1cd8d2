-- ===== src/Rules/Store.antt =====
-- src/rules/store.ts. A mutating method returns the store that it leaves, the ids that it passes to
-- `onRuleChanged`, in order, and its value or the error that it throws. `timestamp` is
-- `this.now().toISOString()`.
pub mod Commands
pub mod Order
pub mod Coherence
pub mod Revisions
pub mod Contents
pub mod Notices
use morpheus_proxy.Prelude.{
  ℕ, ◌+◌, Bool, true, false, not, Option, none, some, List, [], ◌∷◌, ◌++◌, Text, text_eq, text_lt,
  Ordering, ℤ, compare_ℤ, is_eq, lookup, insert, remove, keys, values, sort, any, is_some, Result,
  ok, err, ltb, ◌==◌, if◌then◌else◌,
}
use morpheus_proxy.Rules.Types.{Rule}

pub data StoreError : Type 0 where
  revision_conflict : (expected_revision actual_revision : ℕ) → StoreError
  duplicate_rule_id : (rule_id : Text) → StoreError
  rule_not_found : (rule_id : Text) → StoreError

pub record RuleSetSnapshot : Type 0 where
  pub revision : ℕ
  pub rules : List Rule

pub record RuleStore : Type 0 where
  pub rules : List (Text × Rule)
  pub revision_value : ℕ
  pub cached_snapshot : Option RuleSetSnapshot

pub record Outcome (A : Type 0) : Type 0 where
  pub store : RuleStore
  pub changed : List Text
  pub result : Result StoreError A

pub data ImportMode : Type 0 where
  merge replace : ImportMode

-- The sign of the comparator's number.
unfoldable pub compare_rules : Rule → Rule → Ordering
compare_rules a b =
    if not (is_eq (compare_ℤ a.priority b.priority))
    then compare_ℤ b.priority a.priority
    else if not (text_eq a.created_at b.created_at)
    then (if text_lt a.created_at b.created_at then Ordering.lt else Ordering.gt)
    else if text_lt a.id b.id
    then Ordering.lt
    else if text_lt b.id a.id
    then Ordering.gt
    else Ordering.eq

abbrev pub initial : RuleStore
initial = record { rules = []; revision_value = 1; cached_snapshot = none }

abbrev pub bump : RuleStore → RuleStore
bump st = record st { revision_value = st.revision_value + 1; cached_snapshot = none }

abbrev pub fail : {A : Type 0} → RuleStore → StoreError → Outcome A
fail st e = record { store = st; changed = []; result = err e }

-- `this.checkRevision(expected)` before the rest of a method.
abbrev pub check_revision : {A : Type 0} → Option ℕ → RuleStore → Outcome A → Outcome A
check_revision none st rest = rest
check_revision (some expected) st rest =
    if expected == st.revision_value
    then rest
    else fail st (revision_conflict expected st.revision_value)

abbrev pub get : Text → RuleStore → Option Rule
get id st = lookup id st.rules

abbrev pub or_timestamp : Text → Text → Text
or_timestamp [] timestamp = timestamp
or_timestamp (c ∷ cs) timestamp = c ∷ cs

-- A rule as `create` and `importRules` store it.
abbrev pub stamped : Text → Rule → Rule
stamped timestamp rule = record rule {
  created_at = or_timestamp rule.created_at timestamp;
  updated_at = timestamp;
}

unfoldable pub create : Text → Rule → RuleStore → Outcome Rule
create timestamp rule st =
    if is_some (lookup rule.id st.rules) then fail st (duplicate_rule_id rule.id) else record {
      store = bump (record st { rules = insert rule.id (stamped timestamp rule) st.rules });
      changed = [];
      result = ok (stamped timestamp rule);
    }

abbrev pub updated : Text → Text → Rule → Rule → Rule
updated timestamp id existing rule = record rule {
  id = id;
  created_at = existing.created_at;
  updated_at = timestamp;
}

unfoldable pub update : Text → Text → Rule → Option ℕ → RuleStore → Outcome Rule
update timestamp id rule expected st = check_revision expected st (elim (lookup id st.rules) [
  | none ↦ fail st (rule_not_found id)
  | some existing ↦ record {
    store = bump (record st { rules = insert id (updated timestamp id existing rule) st.rules });
    changed = id ∷ [];
    result = ok (updated timestamp id existing rule);
  }
])

unfoldable pub delete : Text → Option ℕ → RuleStore → Outcome (Unit {0})
delete id expected st = check_revision expected st (
    if is_some (lookup id st.rules)
    then record {
      store = bump (record st { rules = remove id st.rules });
      changed = id ∷ [];
      result = ok tt;
    }
    else fail st (rule_not_found id))

-- The loop of `disableAll`: the rules after it, and how many it changed.
unfoldable pub disable_rules : Text → List (Text × Rule) → List (Text × Rule) × ℕ
disable_rules timestamp [] = ([], 0)
disable_rules timestamp ((id, rule) ∷ m) =
    let (rest, count) = disable_rules timestamp m in
    if rule.enabled
    then ((id, record rule { enabled = false; updated_at = timestamp }) ∷ rest, count + 1)
    else ((id, rule) ∷ rest, count)

unfoldable pub disable_all : Text → Option ℕ → RuleStore → Outcome ℕ
unfolding disable_rules
disable_all timestamp expected st = check_revision expected st (
    let (rules, count) = disable_rules timestamp st.rules in
    let st' : RuleStore = record st { rules = rules } in
    record { store = if ltb 0 count then bump st' else st'; changed = []; result = ok count })

abbrev pub mem : Text → List Text → Bool
mem id ids = any (λ other. text_eq other id) ids

-- The first id that stands twice.
unfoldable pub first_duplicate : List Text → List Rule → Option Text
first_duplicate seen [] = none
first_duplicate seen (rule ∷ rules) =
    if mem rule.id seen then some rule.id else first_duplicate (rule.id ∷ seen) rules

-- The last loop of `importRules`: the rules after it, and the ids that it passes on.
unfoldable pub put_rules : Text → List Rule → List (Text × Rule) → List (Text × Rule) × List Text
put_rules timestamp [] m = (m, [])
put_rules timestamp (rule ∷ rules) m =
    let (m', changed) = put_rules timestamp rules (insert rule.id (stamped timestamp rule) m) in
    (m', if is_some (lookup rule.id m) then rule.id ∷ changed else changed)

abbrev pub kept : ImportMode → List (Text × Rule) → List (Text × Rule)
kept merge m = m
kept replace m = []

abbrev pub cleared : ImportMode → List (Text × Rule) → List Text
cleared merge m = []
cleared replace m = keys m

unfoldable pub import_rules :
    Text → List Rule → ImportMode → Option ℕ → RuleStore → Outcome (Unit {0})
unfolding first_duplicate put_rules
import_rules timestamp rules mode expected st =
    check_revision expected st (elim (first_duplicate [] rules) [
      | some id ↦ fail st (duplicate_rule_id id)
      | none ↦
          let (m, changed) = put_rules timestamp rules (kept mode st.rules) in
          record {
            store = bump (record st { rules = m });
            changed = cleared mode st.rules ++ changed;
            result = ok tt;
          }
    ])

-- What `snapshot` computes where nothing is cached.
unfoldable pub computed_snapshot : RuleStore → RuleSetSnapshot
unfolding compare_rules
computed_snapshot st = record {
  revision = st.revision_value;
  rules = sort compare_rules (values st.rules);
}

unfoldable pub snapshot : RuleStore → RuleStore × RuleSetSnapshot
snapshot st = elim st.cached_snapshot [
  | some cached ↦ (st, cached)
  | none ↦ (record st { cached_snapshot = some (computed_snapshot st) }, computed_snapshot st)
]
