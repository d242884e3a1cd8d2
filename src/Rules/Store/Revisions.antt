-- ===== src/Rules/Store/Revisions.antt =====
-- Revisions: optimistic locking of the store's writes.
use morpheus_proxy.Prelude.{
  ℕ, ◌+◌, ◌≤◌, ◌≡◌, ◌≢◌, ◌⊎◌, inl, inr, refl, Option, none, some, List, [], ◌∷◌, Text, ok, arith,
  ltb, lookup, Option-cases, Bool-cases, is_some, ap,
}
use morpheus_proxy.Rules.Store.{
  RuleStore, Outcome, StoreError, create, update, delete, disable_all, disable_rules, import_rules,
  snapshot, first_duplicate, check_revision, fail, revision_conflict, Rule, duplicate_rule_id,
  rule_not_found, ImportMode,
}
use morpheus_proxy.Rules.Store.Coherence.{disable_rules-unchanged}
use morpheus_proxy.Rules.Store.Commands.{
  Command, creates, updates, deletes, disables, imports, reads, apply, run, check_revision_cases,
  dropped,
}

-- The revision that a command expects.
abbrev pub expected_of : Command → Option ℕ
expected_of (creates timestamp rule) = none
expected_of (updates timestamp id rule expected) = expected
expected_of (deletes id expected) = expected
expected_of (disables timestamp expected) = expected
expected_of (imports timestamp rules mode expected) = expected
expected_of reads = none

check_revision-conflict :
    {A : Type 0} (n : ℕ) (st : RuleStore) (rest : Outcome A)
    → n ≢ st.revision_value
    → check_revision (some n) st rest ≡ fail st (revision_conflict n st.revision_value)
check_revision-conflict n st rest h = ground arith

-- A command that expects another revision than the current one fails with the conflict of the two
-- revisions, and leaves the store, its cache included, and every counter alone.
pub apply-conflict :
    (c : Command) (st : RuleStore) (n : ℕ)
    → expected_of c ≡ some n
    → n ≢ st.revision_value
    → apply c st ≡ fail st (revision_conflict n st.revision_value)
unfolding apply
apply-conflict (creates timestamp rule) st n e h = cc
apply-conflict (updates timestamp id rule expected) st n e h =
    rw e (ap dropped (check_revision-conflict n st _ h))
apply-conflict (deletes id expected) st n e h = rw e (check_revision-conflict n st _ h)
apply-conflict (disables timestamp expected) st n e h =
    rw e (ap dropped (check_revision-conflict n st _ h))
apply-conflict (imports timestamp rules mode expected) st n e h =
    rw e (check_revision-conflict n st _ h)
apply-conflict reads st n e h = cc

-- What a method may leave: nothing new after an error, the same rules at the same revision, or the
-- next revision with no cached snapshot.
pub data Leaves (A : Type 0) (st : RuleStore) (o : Outcome A) : Type 0 where
  failed : (e : StoreError) → o ≡ fail st e → Leaves A st o
  kept_rules :
      (a : A)
      → o.result ≡ ok a
      → o.store.rules ≡ st.rules
      → o.store.revision_value ≡ st.revision_value
      → Leaves A st o
  advanced :
      (a : A)
      → o.result ≡ ok a
      → o.store.revision_value ≡ st.revision_value + 1
      → o.store.cached_snapshot ≡ none
      → Leaves A st o

module _ (st : RuleStore) where
  create-Leaves : (timestamp : Text) (rule : Rule) → Leaves Rule st (create timestamp rule st)
  unfolding create
  create-Leaves timestamp rule = elim (Bool-cases (is_some (lookup rule.id st.rules))) [
    | inl e ↦ rw e (failed (duplicate_rule_id rule.id) refl)
    | inr e ↦ rw e (advanced _ refl refl refl)
  ]

  update-Leaves :
      (timestamp id : Text) (rule : Rule) (expected : Option ℕ)
      → Leaves Rule st (update timestamp id rule expected st)
  unfolding update
  update-Leaves timestamp id rule expected =
      check_revision_cases (Leaves Rule st) expected st _ (λ e. failed e refl)
        (elim (Option-cases (lookup id st.rules)) [
          | inl e ↦ rw e (failed (rule_not_found id) refl)
          | inr (existing, e) ↦ rw e (advanced _ refl refl refl)
        ])

  delete-Leaves : (id : Text) (expected : Option ℕ) → Leaves (Unit {0}) st (delete id expected st)
  unfolding delete
  delete-Leaves id expected =
      check_revision_cases (Leaves (Unit {0}) st) expected st _ (λ e. failed e refl)
        (elim (Bool-cases (is_some (lookup id st.rules))) [
          | inl e ↦ rw e (advanced _ refl refl refl)
          | inr e ↦ rw e (failed (rule_not_found id) refl)
        ])

  disable_all-Leaves :
      (timestamp : Text) (expected : Option ℕ) → Leaves ℕ st (disable_all timestamp expected st)
  unfolding disable_all
  disable_all-Leaves timestamp expected =
      check_revision_cases (Leaves ℕ st) expected st _ (λ e. failed e refl)
        (elim (Bool-cases (ltb 0 (disable_rules timestamp st.rules).1)) [
          | inl e ↦ rw e (advanced _ refl refl refl)
          | inr e ↦
              rw e
                (kept_rules _ refl (disable_rules-unchanged timestamp st.rules (ground arith)) refl)
        ])

  import_rules-Leaves :
      (timestamp : Text) (rules : List Rule) (mode : ImportMode) (expected : Option ℕ)
      → Leaves (Unit {0}) st (import_rules timestamp rules mode expected st)
  unfolding import_rules
  import_rules-Leaves timestamp rules mode expected =
      check_revision_cases (Leaves (Unit {0}) st) expected st _ (λ e. failed e refl)
        (elim (Option-cases (first_duplicate [] rules)) [
          | inl e ↦ rw e (advanced _ refl refl refl)
          | inr (id, e) ↦ rw e (failed (duplicate_rule_id id) refl)
        ])

  dropped-Leaves : {A : Type 0} (o : Outcome A) → Leaves A st o → Leaves (Unit {0}) st (dropped o)
  dropped-Leaves o (failed e h) = failed e (rw h)
  dropped-Leaves o (kept_rules a h p q) = kept_rules tt (rw h) p q
  dropped-Leaves o (advanced a h p q) = advanced tt (rw h) p q

  reads-Leaves : Leaves (Unit {0}) st (apply reads st)
  unfolding apply snapshot
  reads-Leaves = elim (Option-cases st.cached_snapshot) [
    | inl e ↦ kept_rules tt refl (ground arith) (ground arith)
    | inr (s, e) ↦ kept_rules tt refl (ground arith) (ground arith)
  ]

-- Every call of the store either fails and changes nothing, passing no id on, or succeeds and keeps
-- rules and revision, or succeeds, advances the revision by one and drops the cached snapshot.
pub apply-Leaves : (c : Command) (st : RuleStore) → Leaves (Unit {0}) st (apply c st)
unfolding apply
apply-Leaves (creates timestamp rule) st = dropped-Leaves st _ (create-Leaves st timestamp rule)
apply-Leaves (updates timestamp id rule expected) st =
    dropped-Leaves st _ (update-Leaves st timestamp id rule expected)
apply-Leaves (deletes id expected) st = delete-Leaves st id expected
apply-Leaves (disables timestamp expected) st =
    dropped-Leaves st _ (disable_all-Leaves st timestamp expected)
apply-Leaves (imports timestamp rules mode expected) st =
    import_rules-Leaves st timestamp rules mode expected
apply-Leaves reads st = reads-Leaves st

-- The same rules, or a later revision.
abbrev SameOrLater : RuleStore → RuleStore → Type 0
SameOrLater st st' =
    ((st'.rules ≡ st.rules) × (st'.revision_value ≡ st.revision_value))
    ⊎ (st.revision_value + 1 ≤ st'.revision_value)

Leaves-SameOrLater :
    (st : RuleStore) (o : Outcome (Unit {0})) → Leaves (Unit {0}) st o → SameOrLater st o.store
Leaves-SameOrLater st o (failed e h) = inl (rw h (refl, refl))
Leaves-SameOrLater st o (kept_rules a h p q) = inl (p, q)
Leaves-SameOrLater st o (advanced a h p q) = inr (omega arith)

run-SameOrLater : (cs : List Command) (st : RuleStore) → SameOrLater st (run cs st)
unfolding run
run-SameOrLater [] st = inl (refl, refl)
run-SameOrLater (c ∷ cs) st = ground (
  arith,
  Leaves-SameOrLater st (apply c st) (apply-Leaves c st),
  run-SameOrLater cs (apply c st).store,
)

-- Over any history of calls the revision identifies the rules: where it is what it was, no rule has
-- been added, changed or removed in between.
pub run-revision :
    (cs : List Command) (st : RuleStore)
    → (run cs st).revision_value ≡ st.revision_value
    → (run cs st).rules ≡ st.rules
run-revision cs st h = ground (arith, run-SameOrLater cs st)
