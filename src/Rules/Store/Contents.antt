-- ===== src/Rules/Store/Contents.antt =====
-- What the store holds after each write, by lookups.
use morpheus_proxy.Prelude.{
  ℕ, ◌≡◌, refl, inl, inr, true, Option, none, some, List, [], ◌∷◌, Text, text_eq, text_eq_iff,
  text_eq_refl, lookup, lookup-insert, lookup-remove, ok, if◌then◌else◌, arith, is_some, insert,
  Option-cases,
}
use morpheus_proxy.Rules.Types.{Rule}
use morpheus_proxy.Rules.Store.{
  RuleStore, Outcome, ImportMode, create, update, delete, import_rules, put_rules, first_duplicate,
  kept, mem, get, stamped, updated, check_revision,
}

check_revision-ok :
    {A : Type 0} (expected : Option ℕ) (st : RuleStore) (rest : Outcome A) (a : A)
    → (check_revision expected st rest).result ≡ ok a
    → check_revision expected st rest ≡ rest
check_revision-ok none st rest a h = refl
check_revision-ok (some n) st rest a h = ground arith

-- After a successful `create` the new rule is found under its id, with the time of the call as its
-- last update and, if it brought none, as its creation; every other lookup answers as before.
get-create :
    (timestamp j : Text) (rule stored : Rule) (st : RuleStore)
    → (create timestamp rule st).result ≡ ok stored
    → (get rule.id st ≡ none)
      × (get j (create timestamp rule st).store
          ≡ (if text_eq rule.id j then some (stamped timestamp rule) else get j st))
unfolding create
get-create timestamp j rule stored st h =
    ground (arith, lookup-insert rule.id j (stamped timestamp rule) st.rules)

-- A successful `update` finds an existing rule, whose id and creation time the stored rule keeps
-- whatever the new definition says; every other lookup answers as before.
get-update :
    (timestamp id j : Text) (rule stored : Rule) (expected : Option ℕ) (st : RuleStore)
    → (update timestamp id rule expected st).result ≡ ok stored
    → (existing : Rule) × (get id st ≡ some existing)
      × (stored ≡ updated timestamp id existing rule)
      × (get j (update timestamp id rule expected st).store
          ≡ (if text_eq id j then some stored else get j st))
unfolding update
get-update timestamp id j rule stored expected st h =
    let passed = check_revision-ok expected st _ stored h in
    elim (Option-cases (lookup id st.rules)) [
      | inl missing ↦ absurd (ground arith)
      | inr (existing, found) ↦ (
        existing,
        found,
        ground arith,
        ground (arith, lookup-insert id j (updated timestamp id existing rule) st.rules),
      )
    ]

-- After a successful `delete` the id is not found, and had been; every other lookup answers as before.
get-delete :
    (id j : Text) (expected : Option ℕ) (st : RuleStore)
    → (delete id expected st).result ≡ ok tt
    → (is_some (get id st) ≡ true)
      × (get j (delete id expected st).store ≡ (if text_eq id j then none else get j st))
unfolding delete
get-delete id j expected st h =
    ground (arith, check_revision-ok expected st _ tt h, lookup-remove id j st.rules)

-- The rule of an import with a given id.
unfoldable pub find_by_id : Text → List Rule → Option Rule
find_by_id id [] = none
find_by_id id (rule ∷ rules) = if text_eq rule.id id then some rule else find_by_id id rules

abbrev pub stamped_or : Text → Option Rule → Option Rule → Option Rule
stamped_or timestamp none before = before
stamped_or timestamp (some rule) before = some (stamped timestamp rule)

first_duplicate-seen :
    (seen : List Text) (rules : List Rule) (id : Text)
    → first_duplicate seen rules ≡ none
    → mem id seen ≡ true
    → find_by_id id rules ≡ none
unfolding first_duplicate find_by_id
first_duplicate-seen seen [] id h k = refl
first_duplicate-seen seen (rule ∷ rules) id h k =
    ground (arith, text_eq_iff rule.id id, first_duplicate-seen (rule.id ∷ seen) rules id)

put_rules-lookup :
    (timestamp j : Text) (seen : List Text) (rules : List Rule) (m : List (Text × Rule))
    → first_duplicate seen rules ≡ none
    → lookup j (put_rules timestamp rules m).0
      ≡ stamped_or timestamp (find_by_id j rules) (lookup j m)
unfolding first_duplicate put_rules find_by_id
put_rules-lookup timestamp j seen [] m h = refl
put_rules-lookup timestamp j seen (rule ∷ rules) m h = ground (
  arith,
  put_rules-lookup timestamp j (rule.id ∷ seen) rules (insert rule.id (stamped timestamp rule) m),
  lookup-insert rule.id j (stamped timestamp rule) m,
  first_duplicate-seen (rule.id ∷ seen) rules j,
  text_eq_refl rule.id,
  text_eq_iff rule.id j,
)

-- After a successful import every lookup finds the imported rule of that id, if there is one, and
-- otherwise what it found before under `merge` and nothing under `replace`.
pub get-import_rules :
    (timestamp j : Text) (rules : List Rule) (mode : ImportMode) (expected : Option ℕ)
    (st : RuleStore)
    → (import_rules timestamp rules mode expected st).result ≡ ok tt
    → get j (import_rules timestamp rules mode expected st).store
      ≡ stamped_or timestamp (find_by_id j rules) (lookup j (kept mode st.rules))
unfolding import_rules
get-import_rules timestamp j rules mode expected st h = ground (
  arith,
  check_revision-ok expected st _ tt h,
  put_rules-lookup timestamp j [] rules (kept mode st.rules),
)
