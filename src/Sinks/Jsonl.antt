-- ===== src/Sinks/Jsonl.antt =====
-- mysql-internal/collector/sinks/jsonl.py: `JsonlSink`, over a file that takes each line or raises
-- `OSError`. A line is what `json.dumps` makes of a row, its end left out.
use mathlib.Core.List.{append_assoc, append-nil}
use azure_mysql_monitoring.Prelude.{
  Bool, if◌then◌else◌, Option-cases, String, ◌≡◌, sym, ◌∙◌, inl, inr, true, false, Option, none,
  some, List, [], ◌∷◌, ◌++◌, map,
}
use azure_mysql_monitoring.Spool.Codec.{Row}
use azure_mysql_monitoring.Workload.Balance.{held}

-- The file: what it answers to a write and to a flush, with the lines that it was given before.
pub record Handle : Type 0 where
  pub write_line : List String → String → Option String
  pub flush : List String → Option String

pub record JsonlSink : Type 0 where
  pub owns_handle : Bool
  pub lines : List String
  pub last_error : Option String
  pub closed : Bool

-- `JsonlSink.__init__`: a file is opened to append to what it holds.
abbrev pub jsonl_sink : Option (List String) → JsonlSink
jsonl_sink none = record { owns_handle = false; lines = []; last_error = none; closed = false }
jsonl_sink (some held) = record {
  owns_handle = true;
  lines = held;
  last_error = none;
  closed = false;
}

-- `close`
abbrev pub close_jsonl : JsonlSink → JsonlSink
close_jsonl s = if s.owns_handle then record s { closed = true } else s

module _ (handle : Handle) (dumps : Row → String) where
  -- The loop over the rows: the lines that the file has then, and the text of an exception.
  write_lines : List Row → List String → List String × Option String
  write_lines [] lines = (lines, none)
  write_lines (row ∷ rows) lines = elim (handle.write_line lines (dumps row)) [
    | some message ↦ (lines, some message)
    | none ↦ write_lines rows (lines ++ (dumps row ∷ []))
  ]

  -- The rest of the `try`.
  after_lines : List String × Option String → JsonlSink → JsonlSink
  after_lines (lines, some message) s = record s { lines = lines; last_error = some message }
  after_lines (lines, none) s = record s { lines = lines; last_error = handle.flush lines }

  -- `_write`, which also `write_metrics` and `write_events` are: without rows nothing changes.
  unfoldable pub write_rows : List Row → JsonlSink → JsonlSink
  unfolding write_lines after_lines
  write_rows [] s = s
  write_rows (row ∷ rows) s = after_lines (write_lines (row ∷ rows) s.lines) s

  write_lines_lem :
      (rows : List Row) (lines : List String)
      → (write_lines rows lines).1 ≡ none
      → (write_lines rows lines).0 ≡ lines ++ map dumps rows
  unfolding write_lines
  write_lines_lem [] lines h = sym (append-nil lines)
  write_lines_lem (row ∷ rows) lines h = elim (Option-cases (handle.write_line lines (dumps row))) [
    | inr (message, e) ↦ cc (rw (e, write_lines) at h)
    | inl e ↦
        rw (e, write_lines)
          (write_lines_lem rows (lines ++ (dumps row ∷ [])) (rw (e, write_lines) at h)
            ∙ append_assoc lines (dumps row ∷ []) (map dumps rows))
  ]

  -- A write of rows that ends without an error has appended the lines of all of them.
  pub write_rows_appends :
      (row : Row) (rows : List Row) (s : JsonlSink)
      → (write_rows (row ∷ rows) s).last_error ≡ none
      → (write_rows (row ∷ rows) s).lines ≡ s.lines ++ map dumps (row ∷ rows)
  unfolding write_rows
  write_rows_appends row rows s h = elim (Option-cases (write_lines (row ∷ rows) s.lines).1) [
    | inr (message, e) ↦ cc (rw (e, after_lines) at h)
    | inl e ↦ rw (e, after_lines) (write_lines_lem (row ∷ rows) s.lines e)
  ]
