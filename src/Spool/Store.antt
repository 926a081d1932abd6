-- ===== src/Spool/Store.antt =====
-- mysql-internal/collector/sinks/spool.py: the directory of the spool. A file's name is its stem,
-- which begins with the target's directory and which a fresh UUID makes unique, and a suffix, which
-- is its stage; so the store has at most one file for a stem.
use azure_mysql_monitoring.Prelude.{
  if◌then◌else◌, ℕ, ◌+◌, String, Bool, true, false, Option, none, some, List, [], ◌∷◌, ◌==◌, ◌&&◌,
}
use azure_mysql_monitoring.Prelude.Dict.{Dict, lookup, insert, remove}
use azure_mysql_monitoring.Prelude.Text.{is_blank}
use azure_mysql_monitoring.Spool.Codec.{Codec, bytes}

pub data Stage : Type 0 where
  -- `.tmp`, `.live.jsonl`, `.ready.jsonl`, `.submitted.<id>.jsonl`, `.failed.jsonl`, `.corrupt`
  temporary live ready failed corrupt : Stage
  submitted : String → Stage

pub record Segment (Line : Type 0) : Type 0 where
  pub stage : Stage
  pub lines : List Line
  pub modified : ℕ

-- What the messages of `last_error` say.
pub data Fault : Type 0 where
  rejected : String → String → Fault
  ingestion : String → Fault
  unreadable terminal : String → Fault
  source_ids : ℕ → Fault

-- What happened to a stem: its segment is on disk in whole; the live sink had this `last_error` after
-- its rows were written to it; a terminal status came in for the id under which it was submitted,
-- `true` a success.
pub data Event (Line : Type 0) : Type 0 where
  accepted : String → List Line → Event Line
  live_answered : String → Option String → Event Line
  status_received : String → Bool → Event Line

pub record Spool (Line : Type 0) : Type 0 where
  pub files : Dict (Segment Line)
  pub max_bytes : ℕ
  pub confirmation_timeout : ℕ
  -- how many stems were drawn
  pub drawn : ℕ
  pub last_error : List Fault
  -- the marker `.overflow` is there
  pub overflow : Bool
  pub trace : List (Event Line)

abbrev is_ready : Stage → Bool
is_ready ready = true
is_ready _ = false

-- `.tmp` and `.live.jsonl`
abbrev pub is_abandoned : Stage → Bool
is_abandoned temporary = true
is_abandoned live = true
is_abandoned _ = false

abbrev pub is_submitted : Stage → Bool
is_submitted (submitted id) = true
is_submitted _ = false

-- The three patterns of `pending_segments`.
abbrev is_pending : Stage → Bool
is_pending ready = true
is_pending failed = true
is_pending (submitted id) = true
is_pending _ = false

abbrev pub same_stage : Stage → Stage → Bool
same_stage temporary temporary = true
same_stage live live = true
same_stage ready ready = true
same_stage failed failed = true
same_stage corrupt corrupt = true
same_stage (submitted a) (submitted b) = a == b
same_stage _ _ = false

-- `not last_error`: an exception without a text leaves an empty one.
abbrev pub is_silent : Option String → Bool
is_silent none = true
is_silent (some error) = is_blank error

module _ {Line : Type 0} where
  -- The lines that are owed for a stem: those of its last acceptance, unless the live sink then had no
  -- error, or a success came in.
  abbrev pub owed : String → List (Event Line) → Option (List Line)
  owed stem [] = none
  owed stem (accepted k lines ∷ events) = if k == stem then some lines else owed stem events
  owed stem (live_answered k error ∷ events) =
      if k == stem && is_silent error then none else owed stem events
  owed stem (status_received k succeeded ∷ events) =
      if k == stem && succeeded then none else owed stem events

  -- An answer from outside is kept in the trace, as it was.
  abbrev pub observe : Event Line → Spool Line → Spool Line
  observe event s = record s { trace = event ∷ s.trace }

  -- The stems of the files that a pattern of `glob` finds.
  unfoldable pub matching : (Stage → Bool) → Dict (Segment Line) → List String
  matching test [] = []
  matching test ((stem, segment) ∷ rest) =
      if test segment.stage then stem ∷ matching test rest else matching test rest

  unfoldable pub ready_segments : Spool Line → List String
  unfolding matching
  ready_segments s = matching is_ready s.files

  unfoldable pub pending_segments : Spool Line → List String
  unfolding matching
  pending_segments s = matching is_pending s.files

  unfoldable pub total : Codec Line → Dict (Segment Line) → ℕ
  total codec [] = 0
  total codec ((stem, segment) ∷ rest) = bytes codec segment.lines + total codec rest

  -- `pending_bytes`: every file counts, whatever its stage.
  unfoldable pub pending_bytes : Codec Line → Spool Line → ℕ
  unfolding total
  pending_bytes codec s = total codec s.files

  -- The file that stands under a name.
  unfoldable pub file_at : String → Stage → Dict (Segment Line) → Option (Segment Line)
  unfolding lookup
  file_at stem stage files = elim (lookup stem files) [
    | none ↦ none
    | some segment ↦ if same_stage segment.stage stage then some segment else none
  ]

  -- `Path.replace`: `false` is `FileNotFoundError`.
  unfoldable pub replace : String → Stage → Stage → Spool Line → Bool × Spool Line
  unfolding file_at insert
  replace stem source destination s = elim (file_at stem source s.files) [
    | none ↦ (false, s)
    | some segment ↦
        (true, record s { files = insert stem (record segment { stage = destination }) s.files })
  ]

  -- `os.utime(path, None)`
  unfoldable pub touch : String → ℕ → Spool Line → Spool Line
  unfolding lookup insert
  touch stem now s = elim (lookup stem s.files) [
    | none ↦ s
    | some segment ↦ record s { files = insert stem (record segment { modified = now }) s.files }
  ]

  -- `_remove_segment`: a file that is not there is none to remove.
  unfoldable pub remove_segment : String → Stage → Spool Line → Spool Line
  unfolding file_at remove
  remove_segment stem stage s = elim (file_at stem stage s.files) [
    | none ↦ s
    | some segment ↦ record s { files = remove stem s.files }
  ]
