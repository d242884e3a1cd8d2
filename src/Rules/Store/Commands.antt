-- ===== src/Rules/Store/Commands.antt =====
-- The calls of the store that may change it, and what any of them leaves.
use morpheus_proxy.Prelude.{
  ℕ, Option, List, [], ◌∷◌, Text, ok, err, some, Bool-cases, ◌==◌, inl, inr, none,
}
use morpheus_proxy.Rules.Types.{Rule}
use morpheus_proxy.Rules.Store.{
  RuleStore, Outcome, ImportMode, create, update, delete, disable_all, import_rules, snapshot,
  StoreError, fail, check_revision, revision_conflict,
}

pub data Command : Type 0 where
  creates : (timestamp : Text) → Rule → Command
  updates : (timestamp id : Text) → Rule → (expected : Option ℕ) → Command
  deletes : (id : Text) → (expected : Option ℕ) → Command
  disables : (timestamp : Text) → (expected : Option ℕ) → Command
  imports : (timestamp : Text) → List Rule → ImportMode → (expected : Option ℕ) → Command
  reads : Command

abbrev pub dropped : {A : Type 0} → Outcome A → Outcome (Unit {0})
dropped o = record {
  store = o.store;
  changed = o.changed;
  result = elim o.result [ ok a ↦ ok tt | err e ↦ err e ];
}

-- The outcome of a command, with the value dropped.
unfoldable pub apply : Command → RuleStore → Outcome (Unit {0})
unfolding create update delete disable_all import_rules snapshot
apply (creates timestamp rule) st = dropped (create timestamp rule st)
apply (updates timestamp id rule expected) st = dropped (update timestamp id rule expected st)
apply (deletes id expected) st = delete id expected st
apply (disables timestamp expected) st = dropped (disable_all timestamp expected st)
apply (imports timestamp rules mode expected) st = import_rules timestamp rules mode expected st
apply reads st = record { store = (snapshot st).0; changed = []; result = ok tt }

unfoldable pub run : List Command → RuleStore → RuleStore
unfolding apply
run [] st = st
run (c ∷ cs) st = run cs (apply c st).store

-- A method that checks the revision first either fails at once or goes on.
pub check_revision_cases {ℓ} :
    {A : Type 0} (P : Outcome A → Type ℓ) (expected : Option ℕ) (st : RuleStore) (rest : Outcome A)
    → ((e : StoreError) → P (fail st e))
    → P rest
    → P (check_revision expected st rest)
check_revision_cases P none st rest failed passed = passed
check_revision_cases P (some n) st rest failed passed = elim (Bool-cases (n == st.revision_value)) [
  | inl e ↦ rw e passed
  | inr e ↦ rw e (failed (revision_conflict n st.revision_value))
]
