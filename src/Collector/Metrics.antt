-- ===== src/Collector/Metrics.antt =====
-- mysql-internal/collector/metrics.py, and `Envelope.metric` of envelope.py. A generator that raises
-- has yielded the rows before.
use azure_mysql_monitoring.Prelude.{ℕ, String, Option, none, some, List, [], ◌∷◌, ◌++◌, ◌<>◌}
use azure_mysql_monitoring.ErrorLog.{Envelope}
use azure_mysql_monitoring.Groups.Rows.{
  Trouble, query_failed, unpacking, Tried, Python, limit, Connection, float_or_zero, milliseconds,
  str_or,
}
use azure_mysql_monitoring.Prelude.Int.{ℤ, pos}
use azure_mysql_monitoring.Prelude.Result.{ok, err}
use azure_mysql_monitoring.Telemetry.Catalog.{LegacyRow}
use azure_mysql_monitoring.Telemetry.Rows.{first_chars}

-- `Envelope.metric`
unfoldable pub metric : Envelope → String → String → String → ℤ × ℕ → LegacyRow
metric env ts source name value = record {
  ts = ts;
  run_id = env.run_id;
  host = env.host;
  tier = env.tier;
  source = source;
  metric = name;
  value = value;
}

-- `heartbeat`
unfoldable pub heartbeat : Envelope → String → LegacyRow
unfolding metric
heartbeat env ts = metric env ts "collector" "collector_heartbeat" (pos 1, 0)

-- `cycle_duration`, of a time in milliseconds.
unfoldable pub cycle_duration : Envelope → ℕ → String → LegacyRow
unfolding metric
cycle_duration env elapsed ts =
    metric env ts "collector" "collector_cycle_duration_ms" (pos elapsed, 0)

-- The rows that a generator yields, and what it raised then.
abbrev pub Yielded : Type 0
Yielded = List LegacyRow × Option Trouble

yield_row : LegacyRow → Yielded → Yielded
yield_row row (rows, raised) = (row ∷ rows, raised)

then_yield : Yielded → Yielded → Yielded
then_yield (rows, some raised) later = (rows, some raised)
then_yield (rows, none) (later, raised) = (rows ++ later, raised)

module _ {Cell : Type 0} (python : Python Cell) (env : Envelope) (ts : String) where
  -- The loop over the rows: a value that is no number is skipped.
  status_rows : List (List Cell) → Yielded
  unfolding metric yield_row
  status_rows [] = ([], none)
  status_rows ((name ∷ raw ∷ []) ∷ rows) = elim (python.to_float raw) [
    | none ↦ status_rows rows
    | some value ↦
        yield_row (metric env ts "global_status" (python.to_str name) value) (status_rows rows)
  ]
  status_rows (row ∷ rows) = ([], some unpacking)

  -- `collect_global_status`
  unfoldable pub sample_global_status : Connection Cell → Yielded
  unfolding status_rows
  sample_global_status conn = elim (conn "global_status.sql" []) [
    | none ↦ ([], some query_failed)
    | some rows ↦ status_rows rows
  ]

  -- Yields one metric after the other, until a conversion raises.
  yield_each : List (String × Tried (ℤ × ℕ)) → Yielded
  unfolding metric yield_row
  yield_each [] = ([], none)
  yield_each ((name, err raised) ∷ rest) = ([], some raised)
  yield_each ((name, ok value) ∷ rest) =
      yield_row (metric env ts "ps_digest" name value) (yield_each rest)

  -- `(digest or "unknown")[:16]`
  digest_key : Cell → String
  unfolding first_chars str_or
  digest_key digest = first_chars 16 (str_or python "unknown" digest)

  -- The metrics of a row.
  digest_row : List Cell → Yielded
  unfolding yield_each digest_key milliseconds float_or_zero
  digest_row
        (digest ∷ text_cell ∷ count_star ∷ sum_timer ∷ examined ∷ returned ∷ no_index ∷ lock_time
          ∷ []) =
      let prefix = "digest." <> digest_key digest in
      yield_each (
        (prefix <> ".count", float_or_zero python count_star)
        ∷ (prefix <> ".latency_ms", milliseconds python sum_timer)
        ∷ (prefix <> ".lock_ms", milliseconds python lock_time)
        ∷ (prefix <> ".rows_examined", float_or_zero python examined)
        ∷ (prefix <> ".rows_sent", float_or_zero python returned)
        ∷ (prefix <> ".no_index_used", float_or_zero python no_index)
        ∷ [])
  digest_row _ = ([], some unpacking)

  digest_rows : List (List Cell) → Yielded
  unfolding digest_row then_yield
  digest_rows [] = ([], none)
  digest_rows (row ∷ rows) = then_yield (digest_row row) (digest_rows rows)

  -- `collect_statement_digests`, with its limit of 20.
  unfoldable pub sample_statement_digests : Connection Cell → Yielded
  unfolding digest_rows
  sample_statement_digests conn = elim (conn "ps_statement_digest.sql" (limit 20 ∷ [])) [
    | none ↦ ([], some query_failed)
    | some rows ↦ digest_rows rows
  ]
