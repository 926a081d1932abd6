-- ===== src/ErrorLog.antt =====
-- mysql-internal/collector/events.py: `ErrorLogReader`, with the queries error_log.sql and
-- error_log_bootstrap.sql of mysql-internal/sql. A time is a number of microseconds of UTC, which is
-- what `_as_utc` makes of a driver's timestamp.
pub mod Reading
pub mod Delivery
pub mod Restart
mod Tests
use azure_mysql_monitoring.Prelude.{
  ltb, if◌then◌else◌, take, ℕ, String, Bool, true, false, Option, none, some, List, [], ◌∷◌, map,
}
use azure_mysql_monitoring.Prelude.Sorting.{sort_by}
use azure_mysql_monitoring.Spool.Step.{then}

-- `MAX_ROWS_PER_POLL`
abbrev pub max_rows_per_poll : ℕ
max_rows_per_poll = 500

-- A row of performance_schema.error_log, whose columns may be NULL but for the time.
pub record Entry : Type 0 where
  pub logged : ℕ
  pub prio : Option String
  pub error_code : Option String
  pub subsystem : Option String
  pub message : Option String

-- envelope.py: what `Envelope.event` makes of an entry.
pub record Envelope : Type 0 where
  pub run_id : String
  pub host : String
  pub tier : String

pub record Event : Type 0 where
  pub ts : ℕ
  pub run_id : String
  pub host : String
  pub tier : String
  pub source : String
  pub level : String
  pub error_code : String
  pub subsystem : String
  pub message : String

-- The cursor file holds a time, or is missing or unreadable.
pub record Reader : Type 0 where
  pub cursor : Option ℕ
  pub available : Bool
  pub file : Option ℕ

-- What the bootstrap query answers: an exception, NULL, or the newest time.
pub data Probe : Type 0 where
  unreadable empty : Probe
  newest : ℕ → Probe

-- `str(value or "")`
or_empty : Option String → String
or_empty none = ""
or_empty (some s) = s

pub event_of : Envelope → Entry → Event
unfolding or_empty
event_of envelope e = record {
  ts = e.logged;
  run_id = envelope.run_id;
  host = envelope.host;
  tier = envelope.tier;
  source = "error_log";
  level = or_empty e.prio;
  error_code = or_empty e.error_code;
  subsystem = or_empty e.subsystem;
  message = or_empty e.message;
}

-- `ErrorLogReader.__init__`
unfoldable pub new_reader : Option ℕ → Reader
new_reader file = record { cursor = none; available = true; file = file }

-- `load_cursor`, with the time of the call.
unfoldable pub load_cursor : ℕ → Probe → Reader → Reader
load_cursor now probe r = elim r.file [
  | some persisted ↦ record r { cursor = some persisted }
  | none ↦ elim probe [
    | unreadable ↦ record r { available = false }
    | empty ↦ record r { cursor = some now }
    | newest t ↦ record r { cursor = some t }
  ]
]

-- `WHERE LOGGED > %s`
since : ℕ → List Entry → List Entry
since cursor [] = []
since cursor (e ∷ es) = if ltb cursor e.logged then e ∷ since cursor es else since cursor es

-- `ORDER BY LOGGED ASC`
pub in_order : List Entry → List Entry
unfolding sort_by
in_order es = sort_by (λ e. e.logged) es

-- error_log.sql
pub select_rows : ℕ → ℕ → List Entry → List Entry
unfolding since in_order
select_rows cursor limit buffer = take limit (in_order (since cursor buffer))

-- The loop over the rows: the newest time.
newest_of : ℕ → List Entry → ℕ
newest_of t [] = t
newest_of t (e ∷ es) = newest_of (if ltb t e.logged then e.logged else t) es

-- `_write_cursor_file`: an `OSError` leaves the file as it was.
write_cursor_file : Bool → ℕ → Reader → Reader
write_cursor_file true t r = record r { file = some t }
write_cursor_file false t r = r

-- What follows the loop: rows were read, or none.
finish_poll : Bool → ℕ → List Entry → Reader → Reader
unfolding newest_of write_cursor_file
finish_poll writable cursor [] r = r
finish_poll writable cursor (e ∷ es) r =
    let t = newest_of cursor (e ∷ es) in write_cursor_file writable t (record r { cursor = some t })

poll_rows : Envelope → Bool → ℕ → Option (List Entry) → Reader → List Event × Reader
unfolding finish_poll select_rows event_of
poll_rows envelope writable cursor none r = ([], r)
poll_rows envelope writable cursor (some buffer) r =
    let rows = select_rows cursor max_rows_per_poll buffer in
    (map (event_of envelope) rows, finish_poll writable cursor rows r)

-- `poll`, read to its end: the buffer as the server has it, or `none` where the query raises.
unfoldable pub poll : Envelope → Bool → Option (List Entry) → Reader → List Event × Reader
unfolding poll_rows
poll envelope writable answer r = elim r.cursor [
  | none ↦ ([], r)
  | some cursor ↦ if r.available then poll_rows envelope writable cursor answer r else ([], r)
]
