-- ===== src/Rules/Store/Order.antt =====
-- The order of a snapshot is total: priority, then creation time, then id.
use morpheus_proxy.Prelude.{
  ◌≡◌, Ordering, compare_ℤ, compare_ℤ-flip, compare_ℤ-Composes_reversed, compare_text,
  compare_text-flip, compare_text-Composes, text_eq, text_lt, or_else, flip, Composes,
  Composes-or_else, arith,
}
use morpheus_proxy.Rules.Types.{Rule}
use morpheus_proxy.Rules.Store.{compare_rules}

-- The comparison as a chain of three.
abbrev by_keys : Rule → Rule → Ordering
by_keys a b =
    or_else (compare_ℤ b.priority a.priority)
      (or_else (compare_text a.created_at b.created_at) (compare_text a.id b.id))

pub compare_rules-keys : (a b : Rule) → compare_rules a b ≡ by_keys a b
unfolding compare_rules text_eq text_lt
compare_rules-keys a b =
    ground (arith, compare_ℤ-flip a.priority b.priority, compare_text-flip a.id b.id)

or_else-flip : (o p : Ordering) → or_else (flip o) (flip p) ≡ flip (or_else o p)
or_else-flip o p = ground arith

pub compare_rules-flip : (a b : Rule) → compare_rules b a ≡ flip (compare_rules a b)
compare_rules-flip a b = ground (
  arith,
  compare_rules-keys a b,
  compare_rules-keys b a,
  compare_ℤ-flip a.priority b.priority,
  compare_text-flip a.created_at b.created_at,
  compare_text-flip a.id b.id,
)

pub compare_rules-Composes :
    (a b c : Rule) → Composes (compare_rules a b) (compare_rules b c) (compare_rules a c)
compare_rules-Composes a b c =
    rw (compare_rules-keys a b, compare_rules-keys b c, compare_rules-keys a c)
      (Composes-or_else _ _ _ _ _ _ (compare_ℤ-Composes_reversed a.priority b.priority c.priority) (
        Composes-or_else _ _ _ _ _ _ (compare_text-Composes a.created_at b.created_at c.created_at)
          (compare_text-Composes a.id b.id c.id)))
