-- ===== src/Rules/Store/Coherence.antt =====
-- What every reachable store keeps: rules under their own ids, each id once, and a cached snapshot
-- only as long as it is up to date.
use morpheus_proxy.Prelude.{
  ℕ, ◌≡◌, refl, ◌⊎◌, inl, inr, Option, none, some, List, [], ◌∷◌, Text, lookup, Entries, Distinct,
  insert-Entries, insert-Distinct, remove-Entries, remove-Distinct, arith, Option-cases, Bool-cases,
  is_some, ltb, Perm, values, IsSorted, sort-perm, sort-IsSorted,
}
use morpheus_proxy.Rules.Types.{Rule}
use morpheus_proxy.Rules.Store.{
  RuleStore, ImportMode, merge, replace, computed_snapshot, create, update, delete, disable_all,
  disable_rules, import_rules, put_rules, snapshot, stamped, updated, initial, first_duplicate,
  bump, kept, Outcome, compare_rules,
}
use morpheus_proxy.Rules.Store.Order.{compare_rules-flip, compare_rules-Composes}
use morpheus_proxy.Rules.Store.Commands.{
  check_revision_cases, Command, creates, updates, deletes, disables, imports, reads, apply, run,
}

abbrev pub Keyed : Text → Rule → Type 0
Keyed id rule = rule.id ≡ id

pub record Coherent (st : RuleStore) : Type 0 where
  pub keyed : Entries Keyed st.rules
  pub distinct : Distinct st.rules
  pub cached : (st.cached_snapshot ≡ none) ⊎ (st.cached_snapshot ≡ some (computed_snapshot st))

initial-Coherent : Coherent initial
initial-Coherent = record { keyed = tt; distinct = tt; cached = inl refl }

abbrev Stays : {A : Type 0} → Outcome A → Type 0
Stays o = Coherent o.store

-- A command that replaces the rules drops the cached snapshot.
bump-Coherent :
    (st : RuleStore) (m : List (Text × Rule))
    → Entries Keyed m
    → Distinct m
    → Coherent (bump (record st { rules = m }))
bump-Coherent st m h k = record { keyed = h; distinct = k; cached = inl refl }

create-Coherent :
    (timestamp : Text) (rule : Rule) (st : RuleStore)
    → Coherent st
    → Coherent (create timestamp rule st).store
unfolding create
create-Coherent timestamp rule st v = elim (Bool-cases (is_some (lookup rule.id st.rules))) [
  | inl e ↦ rw e v
  | inr e ↦ rw e (
      bump-Coherent st _
        (insert-Entries Keyed rule.id (stamped timestamp rule) st.rules refl v.keyed)
        (insert-Distinct rule.id (stamped timestamp rule) st.rules v.distinct))
]

update-Coherent :
    (timestamp id : Text) (rule : Rule) (expected : Option ℕ) (st : RuleStore)
    → Coherent st
    → Coherent (update timestamp id rule expected st).store
unfolding update
update-Coherent timestamp id rule expected st v =
    check_revision_cases Stays expected st _ (λ e. v)
      (elim (Option-cases (lookup id st.rules)) [
        | inl e ↦ rw e v
        | inr (existing, e) ↦ rw e (
            bump-Coherent st _
              (insert-Entries Keyed id (updated timestamp id existing rule) st.rules refl v.keyed)
              (insert-Distinct id (updated timestamp id existing rule) st.rules v.distinct))
      ])

delete-Coherent :
    (id : Text) (expected : Option ℕ) (st : RuleStore)
    → Coherent st
    → Coherent (delete id expected st).store
unfolding delete
delete-Coherent id expected st v =
    check_revision_cases Stays expected st _ (λ e. v)
      (elim (Bool-cases (is_some (lookup id st.rules))) [
        | inl e ↦ rw e (
            bump-Coherent st _ (remove-Entries Keyed id st.rules v.keyed)
              (remove-Distinct id st.rules v.distinct))
        | inr e ↦ rw e v
      ])

disable_rules-lookup :
    (timestamp k : Text) (m : List (Text × Rule))
    → is_some (lookup k (disable_rules timestamp m).0) ≡ is_some (lookup k m)
unfolding disable_rules lookup
disable_rules-lookup timestamp k [] = refl
disable_rules-lookup timestamp k ((id, rule) ∷ m) =
    ground (arith, disable_rules-lookup timestamp k m)

disable_rules-Keyed :
    (timestamp : Text) (m : List (Text × Rule))
    → Entries Keyed m
    → Entries Keyed (disable_rules timestamp m).0
unfolding disable_rules
disable_rules-Keyed timestamp [] h = tt
disable_rules-Keyed timestamp ((id, rule) ∷ m) h =
    ground (arith, disable_rules-Keyed timestamp m h.1)

disable_rules-Distinct :
    (timestamp : Text) (m : List (Text × Rule))
    → Distinct m
    → Distinct (disable_rules timestamp m).0
unfolding disable_rules
disable_rules-Distinct timestamp [] h = tt
disable_rules-Distinct timestamp ((id, rule) ∷ m) h =
    ground (arith, disable_rules-Distinct timestamp m h.1, disable_rules-lookup timestamp id m)

put_rules-Keyed :
    (timestamp : Text) (rules : List Rule) (m : List (Text × Rule))
    → Entries Keyed m
    → Entries Keyed (put_rules timestamp rules m).0
unfolding put_rules
put_rules-Keyed timestamp [] m h = h
put_rules-Keyed timestamp (rule ∷ rules) m h =
    put_rules-Keyed timestamp rules _
      (insert-Entries Keyed rule.id (stamped timestamp rule) m refl h)

put_rules-Distinct :
    (timestamp : Text) (rules : List Rule) (m : List (Text × Rule))
    → Distinct m
    → Distinct (put_rules timestamp rules m).0
unfolding put_rules
put_rules-Distinct timestamp [] m h = h
put_rules-Distinct timestamp (rule ∷ rules) m h =
    put_rules-Distinct timestamp rules _ (insert-Distinct rule.id (stamped timestamp rule) m h)

pub disable_rules-unchanged :
    (timestamp : Text) (m : List (Text × Rule))
    → (disable_rules timestamp m).1 ≡ 0
    → (disable_rules timestamp m).0 ≡ m
unfolding disable_rules
disable_rules-unchanged timestamp [] h = refl
disable_rules-unchanged timestamp ((id, rule) ∷ m) h =
    ground (arith, disable_rules-unchanged timestamp m)

disable_all-Coherent :
    (timestamp : Text) (expected : Option ℕ) (st : RuleStore)
    → Coherent st
    → Coherent (disable_all timestamp expected st).store
unfolding disable_all
disable_all-Coherent timestamp expected st v =
    check_revision_cases Stays expected st _ (λ e. v)
      (elim (Bool-cases (ltb 0 (disable_rules timestamp st.rules).1)) [
        | inl e ↦ rw e (
            bump-Coherent st _ (disable_rules-Keyed timestamp st.rules v.keyed)
              (disable_rules-Distinct timestamp st.rules v.distinct))
        | inr e ↦ rw (e, disable_rules-unchanged timestamp st.rules (ground arith)) v
      ])

kept-Coherent :
    (mode : ImportMode) (st : RuleStore)
    → Coherent st
    → Entries Keyed (kept mode st.rules) × Distinct (kept mode st.rules)
kept-Coherent merge st v = (v.keyed, v.distinct)
kept-Coherent replace st v = (tt, tt)

import_rules-Coherent :
    (timestamp : Text) (rules : List Rule) (mode : ImportMode) (expected : Option ℕ)
    (st : RuleStore)
    → Coherent st
    → Coherent (import_rules timestamp rules mode expected st).store
unfolding import_rules
import_rules-Coherent timestamp rules mode expected st v =
    check_revision_cases Stays expected st _ (λ e. v)
      (elim (Option-cases (first_duplicate [] rules)) [
        | inl e ↦ rw e (
            bump-Coherent st _ (put_rules-Keyed timestamp rules _ (kept-Coherent mode st v).0)
              (put_rules-Distinct timestamp rules _ (kept-Coherent mode st v).1))
        | inr (id, e) ↦ rw e v
      ])

snapshot-Coherent : (st : RuleStore) → Coherent st → Coherent (snapshot st).0
unfolding snapshot computed_snapshot
snapshot-Coherent st v = elim (Option-cases st.cached_snapshot) [
  | inl e ↦ rw (e, snapshot) (record { keyed = v.keyed; distinct = v.distinct; cached = inr refl })
  | inr (s, e) ↦ rw (e, snapshot) v
]

apply-Coherent : (c : Command) (st : RuleStore) → Coherent st → Coherent (apply c st).store
unfolding apply
apply-Coherent (creates timestamp rule) st v = create-Coherent timestamp rule st v
apply-Coherent (updates timestamp id rule expected) st v =
    update-Coherent timestamp id rule expected st v
apply-Coherent (deletes id expected) st v = delete-Coherent id expected st v
apply-Coherent (disables timestamp expected) st v = disable_all-Coherent timestamp expected st v
apply-Coherent (imports timestamp rules mode expected) st v =
    import_rules-Coherent timestamp rules mode expected st v
apply-Coherent reads st v = snapshot-Coherent st v

run-Coherent : (cs : List Command) (st : RuleStore) → Coherent st → Coherent (run cs st)
unfolding run
run-Coherent [] st v = v
run-Coherent (c ∷ cs) st v = run-Coherent cs (apply c st).store (apply-Coherent c st v)

-- After any history of calls, each stored rule stands under its own id, no id stands twice, and a
-- cached snapshot is the one that would be computed now.
pub run-initial-Coherent : (cs : List Command) → Coherent (run cs initial)
run-initial-Coherent cs = run-Coherent cs initial initial-Coherent

pub snapshot-computed : (st : RuleStore) → Coherent st → (snapshot st).1 ≡ computed_snapshot st
unfolding snapshot
snapshot-computed st v = ground arith

-- After any history of calls, a snapshot has the current revision, its rules are the stored ones, in
-- some order, and no rule comes before one that `compare_rules` puts first.
pub snapshot-IsSorted :
    (cs : List Command)
    → ((snapshot (run cs initial)).1.revision ≡ (run cs initial).revision_value)
      × Perm (snapshot (run cs initial)).1.rules (values (run cs initial).rules)
      × IsSorted compare_rules (snapshot (run cs initial)).1.rules
unfolding computed_snapshot
snapshot-IsSorted cs =
    let st : RuleStore = run cs initial in
    rw (snapshot-computed st (run-initial-Coherent cs)) (
      refl,
      sort-perm compare_rules (values st.rules),
      sort-IsSorted compare_rules compare_rules-flip compare_rules-Composes (values st.rules),
    )
