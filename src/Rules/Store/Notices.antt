-- ===== src/Rules/Store/Notices.antt =====
-- Which changes the store reports to `onRuleChanged`, and what the proxy does with them:
-- src/index.ts makes it the reset of the rule's consume counters.
use morpheus_proxy.Prelude.{
  ◌≡◌, refl, ◌⊎◌, inl, inr, true, none, List, [], ◌∷◌, ◌++◌, Text, text_eq, text_eq_iff, lookup,
  lookup-insert, keys, any-append, if◌then◌else◌, arith, is_some, remove, insert, Option, ℕ,
  lookup-remove, Bool, false, Option-cases, some, ◌≢◌,
}
use morpheus_proxy.Rules.Types.{Rule}
use morpheus_proxy.Rules.Consume.{Registry, fresh_state, state_for, reset}
use morpheus_proxy.Rules.Consume.Counters.{state_for-remove}
use morpheus_proxy.Rules.Store.{
  ImportMode, merge, replace, put_rules, kept, mem, stamped, cleared, disable_all, RuleStore,
  create, import_rules, update, delete, Outcome, updated, first_duplicate,
}
use morpheus_proxy.Rules.Store.Commands.{
  apply, check_revision_cases, Command, creates, disables, updates, deletes, imports, reads,
}

-- `new RuleStore({ onRuleChanged: (id) => consume.reset(id) })`: the registry after the notices.
unfoldable pub notify : List Text → Registry → Registry
unfolding reset
notify [] reg = reg
notify (id ∷ ids) reg = notify ids (reset id reg)

notify-fresh :
    (id : Text) (ids : List Text) (reg : Registry)
    → state_for id reg ≡ fresh_state
    → state_for id (notify ids reg) ≡ fresh_state
unfolding notify
notify-fresh id [] reg h = h
notify-fresh id (j ∷ ids) reg h =
    notify-fresh id ids (remove j reg) (ground (arith, state_for-remove j id reg))

pub notify-state_for :
    (id : Text) (ids : List Text) (reg : Registry)
    → state_for id (notify ids reg) ≡ (if mem id ids then fresh_state else state_for id reg)
unfolding notify
notify-state_for id [] reg = refl
notify-state_for id (j ∷ ids) reg = ground (
  arith,
  notify-state_for id ids (remove j reg),
  notify-fresh id ids (remove j reg),
  state_for-remove j id reg,
)

-- The rule of an id is new, or it is as it was, or its change is reported.
abbrev pub Reported : Text → List (Text × Rule) → List (Text × Rule) → List Text → Type 0
Reported id before after changed =
    (lookup id before ≡ none) ⊎ (lookup id after ≡ lookup id before) ⊎ (mem id changed ≡ true)

put_rules-Reported :
    (timestamp id : Text) (rules : List Rule) (m : List (Text × Rule))
    → Reported id m (put_rules timestamp rules m).0 (put_rules timestamp rules m).1
unfolding put_rules
put_rules-Reported timestamp id [] m = inr (inl refl)
put_rules-Reported timestamp id (rule ∷ rules) m = ground (
  arith,
  put_rules-Reported timestamp id rules (insert rule.id (stamped timestamp rule) m),
  lookup-insert rule.id id (stamped timestamp rule) m,
  text_eq_iff rule.id id,
)

mem-keys : (id : Text) (m : List (Text × Rule)) → mem id (keys m) ≡ is_some (lookup id m)
unfolding lookup
mem-keys id [] = refl
mem-keys id ((k, rule) ∷ m) = ground (arith, mem-keys id m)

import-Reported :
    (timestamp id : Text) (rules : List Rule) (mode : ImportMode) (m : List (Text × Rule))
    → Reported id m
        (put_rules timestamp rules (kept mode m)).0
        (cleared mode m ++ (put_rules timestamp rules (kept mode m)).1)
import-Reported timestamp id rules merge m = put_rules-Reported timestamp id rules m
import-Reported timestamp id rules replace m = ground (
  arith,
  mem-keys id m,
  any-append (λ other. text_eq other id) (keys m) (put_rules timestamp rules []).1,
)

module _ (id : Text) (st : RuleStore) where
  abbrev Reports : {A : Type 0} → Outcome A → Type 0
  Reports o = Reported id st.rules o.store.rules o.changed

  create-Reported : (timestamp : Text) (rule : Rule) → Reports (create timestamp rule st)
  unfolding create
  create-Reported timestamp rule =
      ground
        (arith, lookup-insert rule.id id (stamped timestamp rule) st.rules, text_eq_iff rule.id id)

  update-Reported :
      (timestamp key : Text) (rule : Rule) (expected : Option ℕ)
      → Reports (update timestamp key rule expected st)
  unfolding update
  update-Reported timestamp key rule expected =
      check_revision_cases Reports expected st _ (λ e. inr (inl refl))
        (elim (Option-cases (lookup key st.rules)) [
          | inl e ↦ rw e (inr (inl refl))
          | inr (existing, e) ↦
              rw e (
                ground (arith, lookup-insert key id (updated timestamp key existing rule) st.rules))
        ])

  delete-Reported : (key : Text) (expected : Option ℕ) → Reports (delete key expected st)
  unfolding delete
  delete-Reported key expected =
      check_revision_cases Reports expected st _ (λ e. inr (inl refl))
        (ground (arith, lookup-remove key id st.rules))

  import_rules-Reported :
      (timestamp : Text) (rules : List Rule) (mode : ImportMode) (expected : Option ℕ)
      → Reports (import_rules timestamp rules mode expected st)
  unfolding import_rules
  import_rules-Reported timestamp rules mode expected =
      check_revision_cases Reports expected st _ (λ e. inr (inl refl))
        (elim (Option-cases (first_duplicate [] rules)) [
          | inl e ↦ rw e (import-Reported timestamp id rules mode st.rules)
          | inr (key, e) ↦ rw e (inr (inl refl))
        ])

abbrev pub is_disable : Command → Bool
is_disable (disables timestamp expected) = true
is_disable (creates timestamp rule) = false
is_disable (updates timestamp id rule expected) = false
is_disable (deletes id expected) = false
is_disable (imports timestamp rules mode expected) = false
is_disable reads = false

apply-Reported :
    (id : Text) (c : Command) (st : RuleStore)
    → is_disable c ≡ false
    → Reported id st.rules (apply c st).store.rules (apply c st).changed
unfolding apply
apply-Reported id (creates timestamp rule) st h = create-Reported id st timestamp rule
apply-Reported id (updates timestamp key rule expected) st h =
    update-Reported id st timestamp key rule expected
apply-Reported id (deletes key expected) st h = delete-Reported id st key expected
apply-Reported id (disables timestamp expected) st h = cc
apply-Reported id (imports timestamp rules mode expected) st h =
    import_rules-Reported id st timestamp rules mode expected
apply-Reported id reads st h = inr (inl (ground arith))

-- After any call but `disableAll`, a rule that existed and is no longer what it was, changed or
-- removed, has fresh counters, whatever they were.
pub apply-fresh :
    (id : Text) (c : Command) (st : RuleStore) (reg : Registry) (before : Rule)
    → is_disable c ≡ false
    → lookup id st.rules ≡ some before
    → lookup id (apply c st).store.rules ≢ some before
    → state_for id (notify (apply c st).changed reg) ≡ fresh_state
apply-fresh id c st reg before h e changed =
    ground (arith, apply-Reported id c st h, notify-state_for id (apply c st).changed reg)

-- `disableAll` reports nothing, although it may disable any rule.
pub disable_all-silent :
    (timestamp : Text) (expected : Option ℕ) (st : RuleStore)
    → (disable_all timestamp expected st).changed ≡ []
unfolding disable_all
disable_all-silent timestamp expected st =
    check_revision_cases (λ o. o.changed ≡ []) expected st _ (λ e. refl) refl
