-- ===== src/Logging/TrafficLog/Caps.antt =====
-- The caps and the retention of the log: what is kept is bounded, and what goes is the oldest.
use morpheus_proxy.Prelude.{
  ℕ, zero, suc, ◌+◌, ◌≤◌, ◌≡◌, refl, ◌⊎◌, inl, inr, List, [], ◌∷◌, ◌++◌, length, drop, take, All,
  ltb, arith, Bool-cases, ap, ◌∙◌, length-drop, ◌<◌,
}
use morpheus_proxy.Logging.LogId.{format_log_id}
use morpheus_proxy.Logging.TrafficLog.Index.{Consistent, bytes_of, added-Consistent, stored_of}
use morpheus_proxy.Logging.TrafficLog.{
  build_entry, TrafficLog, TrafficLogOptions, TrafficEventDraft, StoredEntry, remove_stored,
  shift_entries, shift_bytes, push_entry, add, is_retained, drop_expired, apply_retention,
}

-- Some of the oldest entries are gone, and all others are there in their order.
abbrev pub IsRest : List StoredEntry → List StoredEntry → Type 0
IsRest es rest = (k : ℕ) × (rest ≡ drop k es)

shift_entries-IsRest :
    (max : ℕ) (es : List StoredEntry) (log : TrafficLog)
    → IsRest es (shift_entries max es log).entries
unfolding shift_entries
shift_entries-IsRest max [] log = (0, refl)
shift_entries-IsRest max (s ∷ es) log = elim (Bool-cases (ltb max (length (s ∷ es)))) [
  | inl e ↦ let (k, p) = shift_entries-IsRest max es (remove_stored s log) in rw e (suc k, p)
  | inr e ↦ rw e (0, refl)
]

shift_entries-length :
    (max : ℕ) (es : List StoredEntry) (log : TrafficLog)
    → length (shift_entries max es log).entries ≤ max
unfolding shift_entries
shift_entries-length max [] log = omega arith
shift_entries-length max (s ∷ es) log =
    ground (arith, shift_entries-length max es (remove_stored s log))

shift_bytes-IsRest :
    (max : ℕ) (es : List StoredEntry) (log : TrafficLog)
    → IsRest es (shift_bytes max es log).entries
unfolding shift_bytes
shift_bytes-IsRest max [] log = (0, refl)
shift_bytes-IsRest max (s ∷ es) log = elim (Bool-cases (ltb max log.total_body_bytes)) [
  | inl e ↦ let (k, p) = shift_bytes-IsRest max es (remove_stored s log) in rw e (suc k, p)
  | inr e ↦ rw e (0, refl)
]

shift_bytes-total :
    (max : ℕ) (es : List StoredEntry) (log : TrafficLog)
    → ((shift_bytes max es log).total_body_bytes ≤ max) ⊎ ((shift_bytes max es log).entries ≡ [])
unfolding shift_bytes
shift_bytes-total max [] log = inr refl
shift_bytes-total max (s ∷ es) log = elim (Bool-cases (ltb max log.total_body_bytes)) [
  | inl e ↦ rw e (shift_bytes-total max es (remove_stored s log))
  | inr e ↦ rw e (inl (ground arith))
]

drop-drop : (j k : ℕ) (es : List StoredEntry) → drop j (drop k es) ≡ drop (k + j) es
drop-drop j zero es = ap (λ n. drop n es) {x = j} {y = zero + j} (omega arith)
drop-drop zero (suc k) [] =
    ap (λ n. drop {A = StoredEntry} n []) {x = suc k} {y = suc k + zero} (omega arith)
drop-drop (suc j) (suc k) [] =
    ap (λ n. drop {A = StoredEntry} n []) {x = suc (k + suc j)} {y = suc k + suc j} (omega arith)
drop-drop j (suc k) (s ∷ es) =
    drop-drop j k es ∙ ap (λ n. drop n (s ∷ es)) {x = suc (k + j)} {y = suc k + j} (omega arith)

IsRest-trans : (a b c : List StoredEntry) → IsRest a b → IsRest b c → IsRest a c
IsRest-trans a b c (k, p) (j, q) = (k + j, q ∙ ap (drop j) p ∙ drop-drop j k a)

IsRest-length : (a b : List StoredEntry) → IsRest a b → length b ≤ length a
IsRest-length a b (k, p) = omega (arith, ap length p, length-drop k a)

-- What the entry of a draft is.
abbrev pub IsNew : TrafficLogOptions → TrafficEventDraft → TrafficLog → StoredEntry → Type 0
IsNew opts draft log s =
    (s.entry.id ≡ format_log_id (opts.platform.to_iso_string draft.started_at) (log.seq + 1))
    × (s.entry.started_at ≡ opts.platform.to_iso_string draft.started_at)
    × (s.entry.ended_at ≡ opts.platform.to_iso_string draft.ended_at)
    × (s.entry.outcome ≡ draft.outcome)

-- An empty log has no bytes.
bounded_bytes :
    (log : TrafficLog) (max : ℕ)
    → log.total_body_bytes ≡ bytes_of log.entries
    → (log.total_body_bytes ≤ max) ⊎ (log.entries ≡ [])
    → bytes_of log.entries ≤ max
unfolding bytes_of
bounded_bytes log max t (inl h) = omega (arith, t, h)
bounded_bytes log max t (inr e) = rw e (omega arith)

-- A log whose byte count is the sum of its bodies: after an entry is added to it the log holds no more
-- entries than `maxEntries`, and the bodies that they show have no more bytes than `maxBytes`. What it
-- holds is what is left, in order, of the entries there were followed by the new one, which is the
-- returned entry, when some at the old end are dropped; the new entry has the draft's times and
-- outcome and the id of the next number.
pub add-bounded :
    (opts : TrafficLogOptions) (draft : TrafficEventDraft) (log : TrafficLog)
    → Consistent log
    → (length (add opts draft log).0.entries ≤ opts.max_entries)
      × (bytes_of (add opts draft log).0.entries ≤ opts.max_bytes)
      × ((s : StoredEntry) × IsNew opts draft log s
          × (s.entry ≡ (add opts draft log).1)
          × IsRest (log.entries ++ s ∷ []) (add opts draft log).0.entries)
unfolding add push_entry build_entry
add-bounded opts draft log t =
    let log' : TrafficLog = (push_entry opts draft log).0 in
    let shifted : TrafficLog = shift_entries opts.max_entries log'.entries log' in
    let total = (added-Consistent opts draft log t).total in
    (
      omega (
        arith,
        shift_entries-length opts.max_entries log'.entries log',
        IsRest-length _ _ (shift_bytes-IsRest opts.max_bytes shifted.entries shifted),
      ),
      bounded_bytes (add opts draft log).0 opts.max_bytes total
          (shift_bytes-total opts.max_bytes shifted.entries shifted),
      (
        stored_of opts draft
            (format_log_id (opts.platform.to_iso_string draft.started_at) (log.seq + 1)),
        (refl, refl, refl, refl),
        refl,
        IsRest-trans _ _ _ (shift_entries-IsRest opts.max_entries log'.entries log')
            (shift_bytes-IsRest opts.max_bytes shifted.entries shifted),
      ),
    )

-- When an entry was started, and whether that is longer ago than the retention time.
abbrev IsOld : TrafficLogOptions → ℕ → StoredEntry → Type 0
IsOld opts now s = opts.platform.parse_date s.entry.started_at + opts.retention_ms < now

-- The first entry, if any, is young enough.
abbrev pub Starts : TrafficLogOptions → ℕ → List StoredEntry → Type 0
Starts opts now [] = Unit
Starts opts now (s ∷ es) = now ≤ opts.platform.parse_date s.entry.started_at + opts.retention_ms

drop_expired-Starts :
    (opts : TrafficLogOptions) (now : ℕ) (es : List StoredEntry) (log : TrafficLog)
    → (es ≡ take (drop_expired opts now es log).1 es ++ (drop_expired opts now es log).0.entries)
      × All (IsOld opts now) (take (drop_expired opts now es log).1 es)
      × Starts opts now (drop_expired opts now es log).0.entries
unfolding drop_expired
drop_expired-Starts opts now [] log = (refl, tt, tt)
drop_expired-Starts opts now (s ∷ es) log = elim (Bool-cases (is_retained opts now s)) [
  | inl e ↦ rw e (refl, tt, ground (arith, e))
  | inr e ↦
      let (p, old, young) = drop_expired-Starts opts now es (remove_stored s log) in
      rw e (ap (◌∷◌ s) p, (ground (arith, e), old), young)
]

-- A retention sweep removes as many entries as it says, all of them from the old end and all started
-- more than the retention time before now, and stops at the first that was not; the rest stays in
-- order.
pub apply_retention-Starts :
    (opts : TrafficLogOptions) (now : ℕ) (log : TrafficLog)
    → (log.entries
        ≡ take (apply_retention opts now log).1 log.entries
          ++ (apply_retention opts now log).0.entries)
      × All
          (λ s. opts.platform.parse_date s.entry.started_at + opts.retention_ms < now)
          (take (apply_retention opts now log).1 log.entries)
      × Starts opts now (apply_retention opts now log).0.entries
unfolding apply_retention
apply_retention-Starts opts now log = drop_expired-Starts opts now log.entries log
