-- ===== src/Logging/AppLog.antt =====
-- src/logging/app-log.ts. What is written to stderr and to files is kept as lists in the order of the
-- writes; a failed write of a file, which the code ignores, is left out.
use morpheus_proxy.Prelude.{
  ℕ, ◌≤◌, Bool, false, Option, none, some, List, [], ◌∷◌, ◌++◌, Text, js, length, take, drop, ltb,
  if◌then◌else◌, arith, length-append, length-drop,
}
use morpheus_proxy.Json.{Json}

pub data AppLogLevel : Type 0 where
  info warn error : AppLogLevel

pub record AppLogEntry : Type 0 where
  pub time : Text
  pub level : AppLogLevel
  pub message : Text
  pub details : Option Json

-- A line at the end of a file of a directory.
pub record FileLine : Type 0 where
  pub dir : Text
  pub file : Text
  pub line : Text

pub record AppLogger : Type 0 where
  pub dir : Option Text
  pub stderr : Bool
  pub recent : List AppLogEntry
  pub errors : List Text
  pub pending : List FileLine

abbrev upper : AppLogLevel → Text
upper info = js "INFO"
upper warn = js "WARN"
upper error = js "ERROR"

abbrev pub recent_cap : ℕ
recent_cap = 1000

-- `shift`, where there are too many.
unfoldable pub shift_recent : List AppLogEntry → List AppLogEntry
shift_recent recent = if ltb recent_cap (length recent) then drop 1 recent else recent

abbrev appended : (AppLogEntry → Text) → Option Text → AppLogEntry → List FileLine
appended stringify none entry = []
appended stringify (some dir) entry =
    record {
      dir = dir;
      file = js "app-" ++ take 10 entry.time ++ js ".log";
      line = stringify entry ++ 10 ∷ [];
    }
    ∷ []

-- `now` is `this.now().toISOString()`, `stringify` is JSON.stringify.
unfoldable pub log :
    (AppLogEntry → Text) → (now : Text) → AppLogLevel → Text → Option Json → AppLogger → AppLogger
unfolding shift_recent
log stringify now level message details logger =
    let entry : AppLogEntry = record {
      time = now;
      level = level;
      message = message;
      details = details;
    } in
    record logger {
      recent = shift_recent (logger.recent ++ entry ∷ []);
      errors =
          if logger.stderr
          then logger.errors
            ++ (b'[' ∷ now ++ js "] " ++ upper level ++ b' ' ∷ message ++ 10 ∷ []) ∷ []
          else logger.errors;
      pending = logger.pending ++ appended stringify logger.dir entry;
    }

unfoldable pub recent_entries : AppLogger → List AppLogEntry
recent_entries logger = logger.recent

abbrev pub null_logger : AppLogger
null_logger = record { dir = none; stderr = false; recent = []; errors = []; pending = [] }

-- Entries logged one after another.
unfoldable pub log_all : (AppLogEntry → Text) → List AppLogEntry → AppLogger → AppLogger
unfolding log
log_all stringify [] logger = logger
log_all stringify (e ∷ es) logger =
    log_all stringify es (log stringify e.time e.level e.message e.details logger)

shift_recent-length :
    (recent : List AppLogEntry) (e : AppLogEntry)
    → length recent ≤ recent_cap
    → length (shift_recent (recent ++ e ∷ [])) ≤ recent_cap
unfolding shift_recent
shift_recent-length recent e h =
    ground (arith, length-append recent (e ∷ []), length-drop 1 (recent ++ e ∷ []))

-- However much is logged, no more entries are kept in memory than the cap.
pub log_all-length :
    (stringify : AppLogEntry → Text) (es : List AppLogEntry) (logger : AppLogger)
    → length (recent_entries logger) ≤ recent_cap
    → length (recent_entries (log_all stringify es logger)) ≤ recent_cap
unfolding log_all log recent_entries
log_all-length stringify [] logger h = h
log_all-length stringify (e ∷ es) logger h =
    log_all-length stringify es _ (shift_recent-length logger.recent e h)
