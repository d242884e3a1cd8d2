-- ===== src/Logging/TrafficLog/Index.antt =====
-- The log's bookkeeping: its byte count and its index by id.
use morpheus_proxy.Prelude.{
  ℕ, ◌+◌, ◌≤◌, ◌≡◌, refl, sym, ap, ◌∙◌, none, List, [], ◌∷◌, ◌++◌, Text, text_eq, text_eq_iff,
  lookup, insert, remove, remove_absent, insert_absent, Distinct, length, All, All-append, ltb,
  arith, Bool-cases, inl, inr, remove_first, append-Distinct,
}
use morpheus_proxy.Logging.LogId.{format_log_id, format_log_id-injective}
use morpheus_proxy.Grpc.Frames.{Buffer}
use morpheus_proxy.Logging.Mask.{MaskRegistry}
use morpheus_proxy.Logging.Messages.{Platform, MessageDraft, LoggedMessage, BodyKind, build_message}
use morpheus_proxy.Prelude.{Option, some, Option-cases}
use morpheus_proxy.Logging.TrafficLog.{
  Flagged, TrafficLogEntry, tracked, build_flagged, flagged_body, TrafficLog, TrafficLogOptions,
  TrafficEventDraft, StoredEntry, empty_log, remove_stored, shift_entries, shift_bytes,
  enforce_caps, push_entry, build_entry, add, is_retained, drop_expired, apply_retention,
  remove_all, clear, track_bodies, DiskOp,
}

abbrev or_zero : Option ℕ → ℕ
or_zero none = 0
or_zero (some n) = n

abbrev flagged_size : Option (Flagged LoggedMessage) → ℕ
flagged_size none = 0
flagged_size (some logged) = or_zero logged.message.body_size

-- The sizes of the bodies of an entry, as its four messages give them.
abbrev pub bodies_of : TrafficLogEntry → ℕ
bodies_of entry =
    or_zero entry.request.body_size
    + flagged_size entry.forwarded_request
    + flagged_size entry.upstream_response
    + or_zero entry.response.body_size

-- The bytes of the logged bodies.
unfoldable pub bytes_of : List StoredEntry → ℕ
bytes_of [] = 0
bytes_of (s ∷ es) = bodies_of s.entry + bytes_of es

abbrev size_of : Option Buffer → ℕ
size_of none = 0
size_of (some body) = length body

abbrev pub index_of : List StoredEntry → List (Text × StoredEntry)
index_of [] = []
index_of (s ∷ es) = (s.entry.id, s) ∷ index_of es

-- The id was made for a number that has been used.
abbrev pub IsNumbered : ℕ → StoredEntry → Type 0
IsNumbered seq s = (iso : Text) × (n : ℕ) × (s.entry.id ≡ format_log_id iso n) × (n ≤ seq)

-- The entries `es` are those that the counters and the index of the log describe.
pub record Tracks (es : List StoredEntry) (log : TrafficLog) : Type 0 where
  pub total : log.total_body_bytes ≡ bytes_of es
  pub sized : All (λ s. s.body_bytes ≡ bodies_of s.entry) es
  pub index : log.by_id ≡ index_of es
  pub distinct : Distinct (index_of es)
  pub numbered : All (IsNumbered log.seq) es

abbrev pub Consistent : TrafficLog → Type 0
Consistent log = Tracks log.entries log

empty_log-Consistent : Consistent empty_log
unfolding bytes_of
empty_log-Consistent = record {
  total = refl;
  sized = tt;
  index = refl;
  distinct = tt;
  numbered = tt;
}

remove_stored-Tracks :
    (s : StoredEntry) (es : List StoredEntry) (log : TrafficLog)
    → Tracks (s ∷ es) log
    → Tracks es (remove_stored s log)
unfolding remove_stored bytes_of
remove_stored-Tracks s es log t = record {
  total = omega (arith, t.total, t.sized.0);
  sized = t.sized.1;
  index =
      ap (remove s.entry.id) t.index
      ∙ remove_first s.entry.id s (index_of es)
      ∙ remove_absent s.entry.id (index_of es) t.distinct.0;
  distinct = t.distinct.1;
  numbered = t.numbered.1;
}

abbrev kept : List StoredEntry → TrafficLog → TrafficLog
kept es log = record log { entries = es }

kept-Consistent :
    (es : List StoredEntry) (log : TrafficLog) → Tracks es log → Consistent (kept es log)
kept-Consistent es log t = record {
  total = t.total;
  sized = t.sized;
  index = t.index;
  distinct = t.distinct;
  numbered = t.numbered;
}

shift_entries-Consistent :
    (max : ℕ) (es : List StoredEntry) (log : TrafficLog)
    → Tracks es log
    → Consistent (shift_entries max es log)
unfolding shift_entries
shift_entries-Consistent max [] log t = kept-Consistent [] log t
shift_entries-Consistent max (s ∷ es) log t = elim (Bool-cases (ltb max (length (s ∷ es)))) [
  | inl e ↦ rw e (shift_entries-Consistent max es _ (remove_stored-Tracks s es log t))
  | inr e ↦ rw e (kept-Consistent (s ∷ es) log t)
]

shift_bytes-Consistent :
    (max : ℕ) (es : List StoredEntry) (log : TrafficLog)
    → Tracks es log
    → Consistent (shift_bytes max es log)
unfolding shift_bytes
shift_bytes-Consistent max [] log t = kept-Consistent [] log t
shift_bytes-Consistent max (s ∷ es) log t = elim (Bool-cases (ltb max log.total_body_bytes)) [
  | inl e ↦ rw e (shift_bytes-Consistent max es _ (remove_stored-Tracks s es log t))
  | inr e ↦ rw e (kept-Consistent (s ∷ es) log t)
]

enforce_caps-Consistent :
    (opts : TrafficLogOptions) (log : TrafficLog)
    → Consistent log
    → Consistent (enforce_caps opts log)
unfolding enforce_caps
enforce_caps-Consistent opts log t =
    shift_bytes-Consistent opts.max_bytes _ _
      (shift_entries-Consistent opts.max_entries log.entries log t)

bytes_of-append :
    (es : List StoredEntry) (s : StoredEntry)
    → bytes_of (es ++ s ∷ []) ≡ bytes_of es + bodies_of s.entry
unfolding bytes_of
bytes_of-append [] s = omega arith
bytes_of-append (x ∷ es) s = omega (arith, bytes_of-append es s)

index_of-append :
    (es : List StoredEntry) (s : StoredEntry)
    → index_of (es ++ s ∷ []) ≡ index_of es ++ (s.entry.id, s) ∷ []
index_of-append [] s = refl
index_of-append (x ∷ es) s = ap (◌∷◌ (x.entry.id, x)) (index_of-append es s)

IsNumbered-later :
    (m n : ℕ) (es : List StoredEntry) → m ≤ n → All (IsNumbered m) es → All (IsNumbered n) es
IsNumbered-later m n [] h a = tt
IsNumbered-later m n (x ∷ es) h a =
    ((a.0.0, a.0.1, a.0.2, omega (arith, a.0.3)), IsNumbered-later m n es h a.1)

-- A new number has no entry yet.
new_id-absent :
    (seq : ℕ) (iso : Text) (es : List StoredEntry)
    → All (IsNumbered seq) es
    → lookup (format_log_id iso (seq + 1)) (index_of es) ≡ none
unfolding lookup
new_id-absent seq iso [] a = refl
new_id-absent seq iso (x ∷ es) a =
    elim (Bool-cases (text_eq x.entry.id (format_log_id iso (seq + 1)))) [
      | inl e ↦ absurd (
          omega (
            arith,
            a.0.3,
            format_log_id-injective a.0.0 iso a.0.1 (seq + 1) (sym a.0.2 ∙ (text_eq_iff _ _).0 e),
          ))
      | inr e ↦ rw e (new_id-absent seq iso es a.1)
    ]

-- The entry that `push_entry` stores.
abbrev pub stored_of : TrafficLogOptions → TrafficEventDraft → Text → StoredEntry
stored_of opts draft id = record {
  entry = (build_entry opts draft id).0;
  body_bytes = (track_bodies draft).1;
  body_kinds = (track_bodies draft).0;
}

build_entry-id :
    (opts : TrafficLogOptions) (draft : TrafficEventDraft) (id : Text)
    → (build_entry opts draft id).0.id ≡ id
unfolding build_entry
build_entry-id opts draft id = refl

build_message-size :
    (platform : Platform) (mask : MaskRegistry) (draft : MessageDraft) (id : Text) (kind : BodyKind)
    → or_zero (build_message platform mask draft id kind).0.body_size ≡ size_of draft.body
unfolding build_message
build_message-size platform mask draft id kind = elim (Option-cases draft.body) [
  | inl e ↦ rw (build_message, e) refl
  | inr (body, e) ↦ rw (build_message, e) refl
]

build_flagged-size :
    (opts : TrafficLogOptions) (draft : Option (Flagged MessageDraft)) (id : Text) (kind : BodyKind)
    → flagged_size (build_flagged opts draft id kind).0 ≡ size_of (flagged_body draft)
build_flagged-size opts none id kind = refl
build_flagged-size opts (some draft) id kind =
    build_message-size opts.platform opts.mask draft.message id kind

tracked-size :
    (body : Option Buffer) (kind : BodyKind) (p : List BodyKind × ℕ)
    → (tracked body kind p).1 ≡ p.1 + size_of body
tracked-size none kind p = omega arith
tracked-size (some body) kind p = refl

track_bodies-size :
    (draft : TrafficEventDraft)
    → (track_bodies draft).1
      ≡ size_of draft.request.body
        + size_of (flagged_body draft.forwarded_request)
        + size_of (flagged_body draft.upstream_response)
        + size_of draft.response.body
unfolding track_bodies
track_bodies-size draft =
    let one = tracked draft.request.body BodyKind.request ([], 0) in
    let two = tracked (flagged_body draft.forwarded_request) BodyKind.forwarded_request one in
    let three = tracked (flagged_body draft.upstream_response) BodyKind.upstream_response two in
    omega (
      arith,
      tracked-size draft.request.body BodyKind.request ([], 0),
      tracked-size (flagged_body draft.forwarded_request) BodyKind.forwarded_request one,
      tracked-size (flagged_body draft.upstream_response) BodyKind.upstream_response two,
      tracked-size draft.response.body BodyKind.response three,
    )

-- The bytes that are counted for a draft are those of the bodies that its entry shows.
build_entry-bodies :
    (opts : TrafficLogOptions) (draft : TrafficEventDraft) (id : Text)
    → (track_bodies draft).1 ≡ bodies_of (build_entry opts draft id).0
unfolding build_entry
build_entry-bodies opts draft id = omega (
  arith,
  track_bodies-size draft,
  build_message-size opts.platform opts.mask draft.request id BodyKind.request,
  build_flagged-size opts draft.forwarded_request id BodyKind.forwarded_request,
  build_flagged-size opts draft.upstream_response id BodyKind.upstream_response,
  build_message-size opts.platform opts.mask draft.response id BodyKind.response,
)

pushed-Consistent :
    (s : StoredEntry) (iso : Text) (log : TrafficLog) (ops : List DiskOp)
    → s.entry.id ≡ format_log_id iso (log.seq + 1)
    → s.body_bytes ≡ bodies_of s.entry
    → Consistent log
    → Consistent (record {
      entries = log.entries ++ s ∷ [];
      by_id = insert s.entry.id s log.by_id;
      seq = log.seq + 1;
      total_body_bytes = log.total_body_bytes + s.body_bytes;
      pending = ops;
    })
pushed-Consistent s iso log ops e b t =
    let absent : lookup s.entry.id (index_of log.entries) ≡ none =
      rw e (new_id-absent log.seq iso log.entries t.numbered) in
    record {
      total = omega (arith, t.total, b, bytes_of-append log.entries s);
      sized =
          All-append (λ s. s.body_bytes ≡ bodies_of s.entry) log.entries (s ∷ []) t.sized (b, tt);
      index =
          ap (insert s.entry.id s) t.index
          ∙ insert_absent s.entry.id s (index_of log.entries) absent
          ∙ sym (index_of-append log.entries s);
      distinct =
          rw (index_of-append log.entries s)
            (append-Distinct s.entry.id s (index_of log.entries) absent t.distinct);
      numbered =
          All-append (IsNumbered (log.seq + 1)) log.entries (s ∷ [])
            (IsNumbered-later log.seq (log.seq + 1) log.entries (omega arith) t.numbered)
            ((iso, log.seq + 1, e, omega arith), tt);
    }

push_entry-Consistent :
    (opts : TrafficLogOptions) (draft : TrafficEventDraft) (log : TrafficLog)
    → Consistent log
    → Consistent (push_entry opts draft log).0
unfolding push_entry
push_entry-Consistent opts draft log t =
    pushed-Consistent (stored_of opts draft _) (opts.platform.to_iso_string draft.started_at) log _
      (build_entry-id opts draft _) (build_entry-bodies opts draft _) t

pub added-Consistent :
    (opts : TrafficLogOptions) (draft : TrafficEventDraft) (log : TrafficLog)
    → Consistent log
    → Consistent (add opts draft log).0
unfolding add
added-Consistent opts draft log t =
    enforce_caps-Consistent opts _ (push_entry-Consistent opts draft log t)

drop_expired-Consistent :
    (opts : TrafficLogOptions) (now : ℕ) (es : List StoredEntry) (log : TrafficLog)
    → Tracks es log
    → Consistent (drop_expired opts now es log).0
unfolding drop_expired
drop_expired-Consistent opts now [] log t = kept-Consistent [] log t
drop_expired-Consistent opts now (s ∷ es) log t = elim (Bool-cases (is_retained opts now s)) [
  | inl e ↦ rw e (kept-Consistent (s ∷ es) log t)
  | inr e ↦ rw e (drop_expired-Consistent opts now es _ (remove_stored-Tracks s es log t))
]

remove_all-Tracks :
    (es : List StoredEntry) (log : TrafficLog) → Tracks es log → Tracks [] (remove_all es log)
unfolding remove_all
remove_all-Tracks [] log t = t
remove_all-Tracks (s ∷ es) log t = remove_all-Tracks es _ (remove_stored-Tracks s es log t)

-- A call of the log that changes it.
pub data LogCall : Type 0 where
  adds : TrafficEventDraft → LogCall
  retains : (now : ℕ) → LogCall
  clears : LogCall

unfoldable pub call : TrafficLogOptions → LogCall → TrafficLog → TrafficLog
unfolding add apply_retention clear
call opts (adds draft) log = (add opts draft log).0
call opts (retains now) log = (apply_retention opts now log).0
call opts clears log = (clear log).0

unfoldable pub calls : TrafficLogOptions → List LogCall → TrafficLog → TrafficLog
unfolding call
calls opts [] log = log
calls opts (c ∷ cs) log = calls opts cs (call opts c log)

call-Consistent :
    (opts : TrafficLogOptions) (c : LogCall) (log : TrafficLog)
    → Consistent log
    → Consistent (call opts c log)
unfolding call
call-Consistent opts (adds draft) log t = added-Consistent opts draft log t
call-Consistent opts (retains now) log t = drop_expired-Consistent opts now log.entries log t
call-Consistent opts clears log t = kept-Consistent [] _ (remove_all-Tracks log.entries log t)

calls-Consistent :
    (opts : TrafficLogOptions) (cs : List LogCall) (log : TrafficLog)
    → Consistent log
    → Consistent (calls opts cs log)
unfolding calls
calls-Consistent opts [] log t = t
calls-Consistent opts (c ∷ cs) log t =
    calls-Consistent opts cs (call opts c log) (call-Consistent opts c log t)

-- After any history of calls the log's byte count is the sum of the sizes of all bodies that its
-- entries show, of requests, forwarded requests, upstream responses and responses; its index by id is
-- that of its entries, in their order, and no two entries have one id.
pub calls-empty_log-Consistent :
    (opts : TrafficLogOptions) (cs : List LogCall) → Consistent (calls opts cs empty_log)
calls-empty_log-Consistent opts cs = calls-Consistent opts cs empty_log empty_log-Consistent
