-- ===== src/Spool/Replay.antt =====
-- mysql-internal/collector/sinks/spool.py: the replay of kept segments through queued ingestion,
-- the statuses that end them, and the recovery at start. `false` is an exception.
pub mod Refines
use Prim.Native.String.{◌++◌}
use azure_mysql_monitoring.Prelude.{
  ltb, if◌then◌else◌, length, is_empty, ℕ, ◌+◌, String, Bool, true, false, not, ◌&&◌, Option, none,
  some, List, [], ◌∷◌,
}
use azure_mysql_monitoring.Plan.Group.{mapping}
use azure_mysql_monitoring.Prelude.Dict.{Dict, lookup, insert}
use azure_mysql_monitoring.Spool.Codec.{Row, Codec, read_segment}
use azure_mysql_monitoring.Spool.Step.{moved, then}
use azure_mysql_monitoring.Spool.Store.{
  Stage, ready, failed, corrupt, submitted, Segment, Fault, ingestion, unreadable, terminal,
  source_ids, Spool, is_abandoned, is_submitted, ready_segments, pending_segments, file_at, replace,
  touch, remove_segment, status_received, observe,
}

pub data Queued : Type 0 where
  -- the queued write raises; it ends with an error; it returns source ids
  raised : Queued
  failed_with : String → Queued
  ids : List String → Queued

-- A message of `pop_ingestion_statuses`.
pub record Status : Type 0 where
  pub succeeded : Bool
  -- in lower case
  pub source_id : String
  pub should_retry : Bool

pub record Service (Line : Type 0) : Type 0 where
  -- what is queued: the rows, their table and mapping, and the tag
  pub queue : String → String → List Row → String → Queued
  pub statuses : List Status
  -- `_segment_id`
  pub sha256 : List Line → String
  -- can the file be read
  pub readable : String → Bool
  pub now : ℕ
  pub lower : String → String

-- How a queued write ends: with an error, with one source id, or with another number of them.
pub data Answer : Type 0 where
  stopped : Fault → Answer
  taken : String → Answer
  broken : Answer

-- `f"spool:{...}"`
pub tag_of : String → String
tag_of id = "spool:" ++ id

answer_of : Queued → Answer
answer_of raised = broken
answer_of (failed_with error) = stopped (ingestion error)
answer_of (ids (id ∷ [])) = taken id
answer_of (ids others) = stopped (source_ids (length others))

module _ {Line : Type 0} (codec : Codec Line) (service : Service Line) where
  -- `{_submitted_source_id(path).lower(): path ...}`: the last one wins.
  submitted_by_id : Dict (String × Stage) → Dict (Segment Line) → Dict (String × Stage)
  unfolding insert
  submitted_by_id known [] = known
  submitted_by_id known ((stem, segment) ∷ rest) = elim segment.stage [
    | submitted id ↦ submitted_by_id (insert (service.lower id) (stem, submitted id) known) rest
    | _ ↦ submitted_by_id known rest
  ]

  mark_terminal : String → Bool × Spool Line → Bool × ℕ × Spool Line
  mark_terminal stem (true, s) = (true, 0, record s { last_error = terminal stem ∷ [] })
  mark_terminal stem (false, s) = (false, 0, s)

  -- One status: did it go through, and how many segments did it complete.
  apply_status : Dict (String × Stage) → Status → Spool Line → Bool × ℕ × Spool Line
  unfolding lookup replace remove_segment mark_terminal
  apply_status known status s = elim (lookup status.source_id known) [
    | none ↦ (true, 0, s)
    | some (stem, stage) ↦
        let s' = observe (status_received stem status.succeeded) s in
        if status.succeeded
        then (true, 1, remove_segment stem stage s')
        else if status.should_retry
        then ((replace stem stage ready s').0, 0, (replace stem stage ready s').1)
        else mark_terminal stem (replace stem stage failed s')
  ]

  apply_statuses : Dict (String × Stage) → List Status → ℕ → Spool Line → Bool × ℕ × Spool Line
  unfolding apply_status
  apply_statuses known [] completed s = (true, completed, s)
  apply_statuses known (status ∷ rest) completed s =
      let (alive, count, s') = apply_status known status s in
      let others = apply_statuses known rest (completed + count) s' in
      if alive then others else (false, completed, s')

  -- `_apply_terminal_statuses`
  apply_terminal_statuses : Spool Line → Bool × ℕ × Spool Line
  unfolding apply_statuses submitted_by_id
  apply_terminal_statuses s = apply_statuses (submitted_by_id [] s.files) service.statuses 0 s

  -- `segment.stat().st_mtime < cutoff`
  is_stale : ℕ → Segment Line → Bool
  is_stale timeout segment = ltb (segment.modified + timeout) service.now

  retry_submissions : Dict (Segment Line) → Spool Line → Bool × Spool Line
  unfolding replace is_stale
  retry_submissions [] s = (true, s)
  retry_submissions ((stem, segment) ∷ rest) s =
      let (alive, s') = replace stem segment.stage ready s in
      let skipped = retry_submissions rest s in
      let others = retry_submissions rest s' in
      if is_submitted segment.stage && is_stale s.confirmation_timeout segment
      then if alive then others else (false, s')
      else skipped

  -- `_retry_unconfirmed_submissions`
  retry_unconfirmed_submissions : Spool Line → Bool × Spool Line
  unfolding retry_submissions
  retry_unconfirmed_submissions s = retry_submissions s.files s

  -- A segment that cannot be read is set aside.
  note_unreadable : String → Bool × Spool Line → Bool × Bool × Spool Line
  note_unreadable stem (true, s) = (true, true, record s { last_error = unreadable stem ∷ [] })
  note_unreadable stem (false, s) = (false, false, s)

  quarantine : String → Spool Line → Bool × Bool × Spool Line
  unfolding replace note_unreadable
  quarantine stem s = note_unreadable stem (replace stem ready corrupt s)

  read_file : String → Segment Line → Option (String × String × List Row)
  read_file stem segment = if service.readable stem then read_segment codec segment.lines else none

  submit_read : String → Answer → Spool Line → Bool × Bool × Spool Line
  unfolding replace touch
  submit_read stem broken s = (false, false, s)
  submit_read stem (stopped fault) s = (true, false, record s { last_error = fault ∷ [] })
  submit_read stem (taken id) s = (
    (replace stem ready (submitted id) s).0,
    true,
    touch stem service.now (replace stem ready (submitted id) s).1,
  )

  -- One segment of the loop: no exception, and no `break`.
  submit_segment : String → Spool Line → Bool × Bool × Spool Line
  unfolding file_at quarantine read_file submit_read answer_of
  submit_segment stem s = elim (file_at stem ready s.files) [
    | none ↦ quarantine stem s
    | some segment ↦ elim (read_file stem segment) [
      | none ↦ quarantine stem s
      | some (table, mapping, rows) ↦
          submit_read stem
            (answer_of (service.queue table mapping rows (tag_of (service.sha256 segment.lines)))) s
    ]
  ]

  submit_segments : List String → Spool Line → Bool × Spool Line
  unfolding submit_segment
  submit_segments [] s = (true, s)
  submit_segments (stem ∷ stems) s =
      let (alive, going, s') = submit_segment stem s in
      let others = submit_segments stems s' in if alive && going then others else (alive, s')

  -- `if completed and not self.pending_segments()`
  clear_error : ℕ → Spool Line → Spool Line
  unfolding pending_segments
  clear_error completed s =
      if ltb 0 completed && is_empty (pending_segments s) then record s { last_error = [] } else s

  -- `replay_once`, on the segments that are ready in the order of their paths.
  unfoldable pub replay_once : (List String → List String) → Spool Line → Bool × Spool Line
  unfolding apply_terminal_statuses retry_unconfirmed_submissions submit_segments clear_error
      ready_segments
  replay_once sorted s =
      let (applied, completed, s₁) = apply_terminal_statuses s in
      let (retried, s₂) = retry_unconfirmed_submissions s₁ in
      let (sent, s₃) = submit_segments (sorted (ready_segments s₂)) s₂ in
      if not applied
      then (false, s₁)
      else if not retried
      then (false, s₂)
      else if not sent
      then (false, s₃)
      else (true, clear_error completed s₃)

  recovered : Option (String × String × List Row) → Stage
  recovered none = corrupt
  recovered (some read) = ready

  recover_files : Dict (Segment Line) → Spool Line → Spool Line
  unfolding read_file replace recovered
  recover_files [] s = s
  recover_files ((stem, segment) ∷ rest) s =
      let destination = recovered (read_file stem segment) in
      let moved = (replace stem segment.stage destination s).1 in
      recover_files rest (if is_abandoned segment.stage then moved else s)

  -- `_recover_temporary_segments`
  unfoldable pub recover_temporary_segments : Spool Line → Spool Line
  unfolding recover_files
  recover_temporary_segments s = recover_files s.files s
