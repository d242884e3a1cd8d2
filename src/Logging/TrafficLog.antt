-- ===== src/Logging/TrafficLog.antt =====
-- src/logging/traffic-log.ts: the store of log entries. The entries stand oldest first; what the
-- store asks of the file system is a queue of writes and deletions, in order. Subscribers are left
-- out: they see an entry after it is stored and change nothing here.
pub mod Caps
pub mod Index
use morpheus_proxy.Prelude.{
  ℕ, zero, suc, ◌+◌, ◌-◌, ◌≡◌, Bool, true, false, not, ◌&&◌, ◌||◌, Option, none, some, List, [],
  ◌∷◌, ◌++◌, Text, js, text_eq, text_lt, lookup, insert, remove, length, any, map, ltb, leb, ◌==◌,
  starts_with, if◌then◌else◌, is_some,
}
use mathlib.Core.List.{reverse}
use morpheus_proxy.Grpc.Frames.{Buffer}
use morpheus_proxy.Rules.Types.{Protocol, protocol_eq}
use morpheus_proxy.Rules.Evaluate.{MatchedRuleInfo, RuleErrorInfo}
use morpheus_proxy.Logging.Mask.{MaskRegistry}
use morpheus_proxy.Logging.Messages.{
  Platform, LoggedMessage, MessageDraft, BodyKind, DiskOp, unlink, build_message,
}
use morpheus_proxy.Logging.LogId.{format_log_id}

pub data LogOutcome : Type 0 where
  captured mock fault modified delayed upstream_error rule_error client_aborted : LogOutcome

pub data LoggingReason : Type 0 where
  capture_rule matched_rule upstream_error rule_error client_aborted : LoggingReason

pub record TimingInfo : Type 0 where
  pub upstream_duration_ms : Option ℕ
  pub delay_ms : Option ℕ
  pub delay_skipped : Option Bool

-- A message with the flag `modified`, or `received`.
pub record Flagged (A : Type 0) : Type 0 where
  pub message : A
  pub flag : Bool

pub record TrafficLogEntry : Type 0 where
  pub id : Text
  pub started_at : Text
  pub ended_at : Text
  pub duration_ms : ℕ
  pub protocol : Protocol
  pub listener : Text
  pub client : Text
  pub target : Text
  pub request : LoggedMessage
  pub forwarded_request : Option (Flagged LoggedMessage)
  pub upstream_response : Option (Flagged LoggedMessage)
  pub response : LoggedMessage
  pub outcome : LogOutcome
  pub logging_reason : LoggingReason
  pub matched_rules : List MatchedRuleInfo
  pub rule_errors : Option (List RuleErrorInfo)
  pub timing : Option TimingInfo

-- Dates are epoch milliseconds.
pub record TrafficEventDraft : Type 0 where
  pub started_at : ℕ
  pub ended_at : ℕ
  pub protocol : Protocol
  pub listener : Text
  pub client : Text
  pub target : Text
  pub request : MessageDraft
  pub forwarded_request : Option (Flagged MessageDraft)
  pub upstream_response : Option (Flagged MessageDraft)
  pub response : MessageDraft
  pub outcome : LogOutcome
  pub logging_reason : LoggingReason
  pub matched_rules : List MatchedRuleInfo
  pub rule_errors : Option (List RuleErrorInfo)
  pub timing : Option TimingInfo

pub record StoredEntry : Type 0 where
  pub entry : TrafficLogEntry
  pub body_bytes : ℕ
  pub body_kinds : List BodyKind

pub record TrafficLogOptions : Type 0 where
  pub max_entries : ℕ
  pub max_bytes : ℕ
  pub retention_ms : ℕ
  pub mask : MaskRegistry
  pub platform : Platform

pub record TrafficLog : Type 0 where
  pub entries : List StoredEntry
  pub by_id : List (Text × StoredEntry)
  pub seq : ℕ
  pub total_body_bytes : ℕ
  pub pending : List DiskOp

abbrev pub empty_log : TrafficLog
empty_log = record { entries = []; by_id = []; seq = 0; total_body_bytes = 0; pending = [] }

-- `track` for one message.
abbrev pub tracked : Option Buffer → BodyKind → List BodyKind × ℕ → List BodyKind × ℕ
tracked none kind (kinds, bytes) = (kinds, bytes)
tracked (some body) kind (kinds, bytes) = (kinds ++ kind ∷ [], bytes + length body)

abbrev pub flagged_body : Option (Flagged MessageDraft) → Option Buffer
flagged_body none = none
flagged_body (some draft) = draft.message.body

-- The kinds of bodies that a draft brings, and their bytes.
unfoldable pub track_bodies : TrafficEventDraft → List BodyKind × ℕ
track_bodies draft = tracked draft.response.body BodyKind.response (
    tracked (flagged_body draft.upstream_response) BodyKind.upstream_response (
      tracked (flagged_body draft.forwarded_request) BodyKind.forwarded_request
        (tracked draft.request.body BodyKind.request ([], 0))))

abbrev pub build_flagged :
    TrafficLogOptions
    → Option (Flagged MessageDraft)
    → Text
    → BodyKind
    → Option (Flagged LoggedMessage) × List DiskOp
build_flagged opts none id kind = (none, [])
build_flagged opts (some draft) id kind =
    let (message, ops) = build_message opts.platform opts.mask draft.message id kind in
    (some (record { message = message; flag = draft.flag }), ops)

abbrev non_empty : Option (List RuleErrorInfo) → Option (List RuleErrorInfo)
non_empty none = none
non_empty (some []) = none
non_empty (some (e ∷ es)) = some (e ∷ es)

-- The entry of a draft, and the writes of its bodies.
unfoldable pub build_entry :
    TrafficLogOptions → TrafficEventDraft → Text → TrafficLogEntry × List DiskOp
build_entry opts draft id =
    let (request, ops) = build_message opts.platform opts.mask draft.request id BodyKind.request in
    let (forwarded, ops') =
      build_flagged opts draft.forwarded_request id BodyKind.forwarded_request in
    let (upstream, ops'') =
      build_flagged opts draft.upstream_response id BodyKind.upstream_response in
    let (response, ops''') =
      build_message opts.platform opts.mask draft.response id BodyKind.response in
    (
      record {
        id = id;
        started_at = opts.platform.to_iso_string draft.started_at;
        ended_at = opts.platform.to_iso_string draft.ended_at;
        duration_ms = draft.ended_at - draft.started_at;
        protocol = draft.protocol;
        listener = draft.listener;
        client = draft.client;
        target = draft.target;
        request = request;
        forwarded_request = forwarded;
        upstream_response = upstream;
        response = response;
        outcome = draft.outcome;
        logging_reason = draft.logging_reason;
        matched_rules = draft.matched_rules;
        rule_errors = non_empty draft.rule_errors;
        timing = draft.timing;
      },
      ops ++ ops' ++ ops'' ++ ops''',
    )

-- `removeStored`, once the entry has left `entries`.
unfoldable pub remove_stored : StoredEntry → TrafficLog → TrafficLog
remove_stored stored log = record log {
  by_id = remove stored.entry.id log.by_id;
  total_body_bytes = log.total_body_bytes - stored.body_bytes;
  pending = log.pending ++ map (unlink stored.entry.id) stored.body_kinds;
}

-- The first loop of `enforceCaps`, over the entries.
unfoldable pub shift_entries : ℕ → List StoredEntry → TrafficLog → TrafficLog
shift_entries max [] log = record log { entries = [] }
shift_entries max (oldest ∷ rest) log =
    let shifted = shift_entries max rest (remove_stored oldest log) in
    if ltb max (length (oldest ∷ rest)) then shifted else record log { entries = oldest ∷ rest }

-- The second loop, which stops at an empty log.
unfoldable pub shift_bytes : ℕ → List StoredEntry → TrafficLog → TrafficLog
shift_bytes max [] log = record log { entries = [] }
shift_bytes max (oldest ∷ rest) log =
    let shifted = shift_bytes max rest (remove_stored oldest log) in
    if ltb max log.total_body_bytes then shifted else record log { entries = oldest ∷ rest }

unfoldable pub enforce_caps : TrafficLogOptions → TrafficLog → TrafficLog
unfolding shift_entries shift_bytes
enforce_caps opts log =
    let log' = shift_entries opts.max_entries log.entries log in
    shift_bytes opts.max_bytes log'.entries log'

-- The log before the caps are enforced, and the new entry.
unfoldable pub push_entry :
    TrafficLogOptions → TrafficEventDraft → TrafficLog → TrafficLog × TrafficLogEntry
unfolding build_entry track_bodies
push_entry opts draft log =
    let id = format_log_id (opts.platform.to_iso_string draft.started_at) (log.seq + 1) in
    let (entry, ops) = build_entry opts draft id in
    let (kinds, bytes) = track_bodies draft in
    let stored : StoredEntry = record { entry = entry; body_bytes = bytes; body_kinds = kinds } in
    (
      record {
        entries = log.entries ++ stored ∷ [];
        by_id = insert id stored log.by_id;
        seq = log.seq + 1;
        total_body_bytes = log.total_body_bytes + bytes;
        pending = log.pending ++ ops;
      },
      entry,
    )

unfoldable pub add :
    TrafficLogOptions → TrafficEventDraft → TrafficLog → TrafficLog × TrafficLogEntry
unfolding push_entry enforce_caps
add opts draft log =
    let (log', entry) = push_entry opts draft log in (enforce_caps opts log', entry)

-- startedAt >= now - retentionMs
abbrev pub is_retained : TrafficLogOptions → ℕ → StoredEntry → Bool
is_retained opts now stored =
    leb now (opts.platform.parse_date stored.entry.started_at + opts.retention_ms)

-- The loop of `applyRetention`.
unfoldable pub drop_expired : TrafficLogOptions → ℕ → List StoredEntry → TrafficLog → TrafficLog × ℕ
drop_expired opts now [] log = (record log { entries = [] }, 0)
drop_expired opts now (oldest ∷ rest) log =
    let (log', removed) = drop_expired opts now rest (remove_stored oldest log) in
    if is_retained opts now oldest
    then (record log { entries = oldest ∷ rest }, 0)
    else (log', suc removed)

unfoldable pub apply_retention : TrafficLogOptions → ℕ → TrafficLog → TrafficLog × ℕ
unfolding drop_expired
apply_retention opts now log = drop_expired opts now log.entries log

unfoldable pub remove_all : List StoredEntry → TrafficLog → TrafficLog
remove_all [] log = log
remove_all (stored ∷ rest) log = remove_all rest (remove_stored stored log)

unfoldable pub clear : TrafficLog → TrafficLog × ℕ
unfolding remove_all remove_stored
clear log = (record (remove_all log.entries log) { entries = [] }, length log.entries)

unfoldable pub get : Text → TrafficLog → Option TrafficLogEntry
get id log = elim (lookup id log.by_id) [ none ↦ none | some stored ↦ some stored.entry ]

pub record LogListResult : Type 0 where
  pub items : List TrafficLogEntry
  pub next_cursor : Option Text

last_id : List TrafficLogEntry → Option Text
last_id [] = none
last_id (e ∷ []) = some e.id
last_id (e ∷ e' ∷ es) = last_id (e' ∷ es)

-- The rounds of `list` behind the cursor, newest first.
unfoldable pub list_page :
    (TrafficLogEntry → Bool) → ℕ → List StoredEntry → List TrafficLogEntry → LogListResult
unfolding last_id
list_page matches limit [] found = record { items = found; next_cursor = none }
list_page matches limit (stored ∷ rest) found =
    let more = list_page matches limit rest (found ++ stored.entry ∷ []) in
    let skipped = list_page matches limit rest found in
    if not (matches stored.entry)
    then skipped
    else if length found == limit
    then record { items = found; next_cursor = last_id found }
    else more

-- The rounds up to the cursor.
unfoldable pub after_cursor : Option Text → List StoredEntry → List StoredEntry
after_cursor none es = es
after_cursor (some cursor) [] = []
after_cursor (some cursor) (stored ∷ rest) =
    if text_eq stored.entry.id cursor then rest else after_cursor (some cursor) rest

-- `list`, for a filter that has been made a test.
unfoldable pub list : (TrafficLogEntry → Bool) → ℕ → Option Text → TrafficLog → LogListResult
unfolding list_page after_cursor
list matches limit cursor log =
    list_page matches limit (after_cursor cursor (reverse log.entries)) []

unfoldable pub body_kinds_of : Text → TrafficLog → List BodyKind
body_kinds_of id log = elim (lookup id log.by_id) [ none ↦ [] | some stored ↦ stored.body_kinds ]
