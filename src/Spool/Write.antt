-- ===== src/Spool/Write.antt =====
-- mysql-internal/collector/sinks/spool.py: `_write_projected` and `_persist`.
pub mod Refines
pub mod Chunks
use azure_mysql_monitoring.Prelude.{
  ltb, if◌then◌else◌, length, take, drop, ℕ, zero, suc, ◌+◌, String, true, Option, none, some, List,
  [], ◌∷◌, ◌++◌, Bool, false,
}
use azure_mysql_monitoring.Plan.Document.{Value, str, null, truthy}
use azure_mysql_monitoring.Plan.Group.{mapping}
use azure_mysql_monitoring.Prelude.Dict.{Dict, lookup, get_or, insert, has}
use azure_mysql_monitoring.Prelude.Text.{is_blank}
use azure_mysql_monitoring.Spool.Codec.{Row, Codec, encode, bytes}
use azure_mysql_monitoring.Spool.Step.{then}
use azure_mysql_monitoring.Spool.Store.{
  temporary, live, ready, Fault, rejected, ingestion, accepted, Spool, pending_bytes, replace,
  remove_segment, live_answered, observe,
}

pub data Disk (Line : Type 0) : Type 0 where
  -- the segment is written, synced and renamed
  stored : Disk Line
  -- an `OSError`, which leaves a temporary file with these lines, or none
  torn : List Line → Disk Line
  refused : Disk Line

pub record Outside (Line : Type 0) : Type 0 where
  -- the stamp and the UUID of a new segment, in the target's directory
  pub stem : String → ℕ → String
  pub disk : String → List Line → Disk Line
  -- the clock of the file system, when the segment is written
  pub written_at : String → ℕ
  -- `live_sink.last_error` after the write, which is the text of an exception that it raised
  pub live_error : String → Option String
  -- Python's `str`
  pub text_of : Value → String

-- `MAX_ROWS_PER_REQUEST` of sinks/adx.py
abbrev pub max_rows : ℕ
max_rows = 1000

-- `value or other`
first_truthy : Value → Value → Value
first_truthy value other = if truthy value then value else other

unfoldable pub identity : (Value → String) → Row → String
unfolding first_truthy lookup
identity text_of row = text_of (
    first_truthy (get_or "target_id" row null)
      (first_truthy (get_or "host" row null) (str "legacy")))

-- `groups.setdefault(identity, []).append(row)`
append_row : String → Row → Dict (List Row) → Dict (List Row)
unfolding lookup insert
append_row name row groups = insert name (get_or name groups [] ++ (row ∷ [])) groups

unfoldable pub group_rows : (Value → String) → Dict (List Row) → List Row → Dict (List Row)
unfolding append_row
group_rows text_of groups [] = groups
group_rows text_of groups (row ∷ rows) =
    group_rows text_of (append_row (identity text_of row) row groups) rows

-- The slices of `range(0, len(rows), n)`: a positive `n` needs no more rounds than there are rows.
chunk_rounds : ℕ → ℕ → List Row → List (List Row)
chunk_rounds zero n rows = []
chunk_rounds (suc fuel) n [] = []
chunk_rounds (suc fuel) n (row ∷ rows) =
    take n (row ∷ rows) ∷ chunk_rounds fuel n (drop n (row ∷ rows))

unfoldable pub chunks : ℕ → List Row → List (List Row)
unfolding chunk_rounds
chunks n rows = chunk_rounds (length rows) n rows

module _ {Line : Type 0} (codec : Codec Line) (out : Outside Line) where
  put_on_disk : String → List Line → Disk Line → Spool Line → Option String × Spool Line
  unfolding insert
  put_on_disk stem lines stored s = (
    some stem,
    record s {
      files =
          insert stem (record { stage = live; lines = lines; modified = out.written_at stem })
            s.files;
      trace = accepted stem lines ∷ s.trace;
    },
  )
  put_on_disk stem lines (torn rest) s = (
    none,
    record s {
      files =
          insert stem (record { stage = temporary; lines = rest; modified = out.written_at stem })
            s.files;
    },
  )
  put_on_disk stem lines refused s = (none, s)

  -- `_persist`: the live file, or `none` for an `OSError`. The lock is held from the sum of the
  -- bytes to the rename.
  persist : String → String → String → List Row → Spool Line → Option String × Spool Line
  unfolding put_on_disk pending_bytes lookup
  persist target table mapping rows s =
      let stem = out.stem target s.drawn in
      let lines = encode codec table mapping rows in
      let s' = record s { drawn = suc s.drawn } in
      if ltb s.max_bytes (pending_bytes codec s + bytes codec lines)
      then (none, s')
      else if has stem s.files
      then (none, s')
      else put_on_disk stem lines (out.disk stem lines) s'

  -- What follows the live write: the segment is kept for the replay, or removed. `false` is an
  -- exception, of a file that is no longer there under its live name; it ends the loops.
  after_live : String → Option String → List Fault → Spool Line → Bool × List Fault × Spool Line
  unfolding replace remove_segment
  after_live stem none errors s = (true, errors, remove_segment stem live s)
  after_live stem (some error) errors s =
      if is_blank error then (true, errors, remove_segment stem live s) else (
        (replace stem live ready s).0,
        errors ++ (ingestion error ∷ []),
        (replace stem live ready s).1,
      )

  after_persist :
      String → String → List Fault → Option String × Spool Line → Bool × List Fault × Spool Line
  unfolding after_live
  after_persist target table errors (none, s) =
      (true, errors ++ (rejected target table ∷ []), record s { overflow = true })
  after_persist target table errors (some stem, s) =
      after_live stem (out.live_error stem) errors
        (observe (live_answered stem (out.live_error stem)) s)

  -- One turn of the inner loop.
  write_chunk :
      String → String → String → List Row → List Fault → Spool Line → Bool × List Fault × Spool Line
  unfolding persist after_persist
  write_chunk target table mapping rows errors s =
      after_persist target table errors (persist target table mapping rows s)

  write_chunks :
      String
      → String
      → String
      → List (List Row)
      → List Fault
      → Spool Line
      → Bool × List Fault × Spool Line
  unfolding write_chunk
  write_chunks target table mapping [] errors s = (true, errors, s)
  write_chunks target table mapping (chunk ∷ rest) errors s =
      let (alive, errors', s') = write_chunk target table mapping chunk errors s in
      let others = write_chunks target table mapping rest errors' s' in
      if alive then others else (false, errors', s')

  write_groups :
      String → String → Dict (List Row) → List Fault → Spool Line → Bool × List Fault × Spool Line
  unfolding write_chunks chunks
  write_groups table mapping [] errors s = (true, errors, s)
  write_groups table mapping ((target, rows) ∷ rest) errors s =
      let (alive, errors', s') =
        write_chunks target table mapping (chunks max_rows rows) errors s in
      let others = write_groups table mapping rest errors' s' in
      if alive then others else (false, errors', s')

  -- `self.last_error = "; ".join(errors) if errors else None`, which an exception skips.
  finish_write : Bool × List Fault × Spool Line → Bool × Spool Line
  finish_write (true, errors, s) = (true, record s { last_error = errors })
  finish_write (false, errors, s) = (false, s)

  -- `_write_projected`
  unfoldable pub write_projected : List Row → String → String → Spool Line → Bool × Spool Line
  unfolding write_groups group_rows finish_write
  write_projected [] table mapping s = (true, s)
  write_projected (row ∷ rows) table mapping s =
      finish_write (write_groups table mapping (group_rows out.text_of [] (row ∷ rows)) [] s)
