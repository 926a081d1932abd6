-- ===== src/Lib.antt =====
-- Verification of the MySQL monitoring collector.
--
-- The collector reads a plan of targets and profiles, and runs one worker for each target: the
-- worker keeps a connection to the target's server, asks each group of measurements when it is
-- due, and hands points and events to the sinks.
--
-- Module Plan: mysql-internal/collector/plan.py, from the YAML document to the jobs.
--   Document: the values that the YAML reader returns, and Python's tests on them.
--   Duration, Secret, Catalog, Group, Target: `parse_duration`, `parse_secret_reference`,
--     `GROUP_CATALOG`, `_compile_group` and `_compile_target`; an exception is a value of
--     `PlanError` (Errors), one constructor for each message.
--   Profile: `_compile_profiles`. Its recursion over parents runs on fuel, one more than the number
--     of profiles; Profile.Termination shows that this is enough for every document. Overrides and
--     Derivation: what a profile comes to, described without the recursion and its memo table.
--   Load: `load_plan` and `CollectionPlan.jobs`.
-- Module Runtime: `TargetWorker` of mysql-internal/collector/runtime.py. Times are milliseconds.
--   Schedule: the arithmetic of `_advance` and `_schedule_reconnect`. The loop of `_advance` runs
--     on as many rounds as there are milliseconds to catch up, which is enough for an interval that
--     is not 0.
--   Worker: the worker's state and `run_cycle`, `next_delay` and `run`. Each cycle gets an
--     `Environment`, which says what the resolver, the driver, the collectors, the log reader and
--     the catalog answer or raise; what the worker does outside is its trace.
--   Worker.Step: the steps that a cycle is made of. Worker.Backoff, Worker.Trace, Worker.Cycle and
--     Worker.Progress: invariants and progress, most of them by induction on the steps.
--   Sinks: `SinkWriter`. Assembly: `CollectionPlanRuntime.__init__`.
-- Module Spool: `DurableSpoolSink` of mysql-internal/collector/sinks/spool.py.
--   Codec: the text of a segment, over what the json module does. Store: the directory, one file for
--     each stem, whose suffix is the stage of the segment; a rename or a deletion of a file that is
--     there does not fail. Write: `_write_projected` and `_persist`, on what the disk and the live
--     sink answer; the cutting into requests runs on as many rounds as there are rows, which is
--     enough since each takes one row at least. Replay: `replay_once` and the recovery at start, on
--     what the queued service answers. The trace of a spool keeps these answers as they came.
--   Names: the file names behind stems and stages, and those made of a target's id, here and in
--   runtime.py's `cursor_path_for_target`. Points: the settings, and the writes of each kind.
--   Step, Write.Refines, Replay.Refines, Kept, Run: every operation as a sequence of single changes
--     of the disk, between which a crash or the other thread can come, and what holds after each.
-- Module Telemetry: mysql-internal/collector/telemetry.py. Point: the specifications, contexts and
--   points, with the checks of their constructors. Catalog: `MetricCatalog` and
--   `legacy_metric_rows`; `float` is taken not to round. Catalog.Conformance says which points are
--   accepted, Catalog.Series what their rows are. Rows: `series_key`, `packed_row` and
--   the columns of the series, with the hash and the JSON text as parameters; Rows.Order: the order
--   of the tags. Measurements is `CATALOG` of
--   mysql-internal/collector/catalog.py, and Health the health point of runtime.py.
-- Module Secrets: `SecretResolver` of mysql-internal/collector/secrets.py, over a `Backend` that
--   answers for the environment, the Azure SDK and the vaults.
-- Module ErrorLog: `ErrorLogReader` of mysql-internal/collector/events.py with its query, over what
--   the server's buffer holds and what the cursor file says. Reading: what a poll returns and where
--   the cursor goes. Delivery: `TargetWorker._write_error_log_events`, without the two ids that it
--   adds to each event. Restart: the cursor file.
-- Module Groups: mysql-internal/collector/groups.py. Rows: `_rows` and `_point`, over a connection
--   that answers each query file and over Python's functions on the cells; a float is not rounded.
--   Server and Storage: the nine collectors; Collectors: their table. Fit: what they return,
--   measured by the catalog.
-- Module Workload: benchmark-integration/open_loop_workload.py. Run: the producer and the workers of
--   `run_open_loop`, whose steps come in any order; Session: how it begins; Balance, with its children,
--   and Exit: what its counters say. Dataset: `prepare_dataset`, its loop on as many rounds as rows
--   are missing, which is enough since a batch has one at least. Pool and Latency:
--   `wait_for_buffer_pool` and `percentile`, without the rounding of floats.
-- Module Report: benchmark-integration/performance_report.py. Comparisons: `build_comparisons`;
--   Grouped and Coverage: the rows that it compares.
--   Verdict: the quality issues and the overall result of `render_report`. Worse, Issues and Pass:
--   what PASS says. Values are natural numbers, so that negative ones and NaN are left out, and
--   quotients are compared without rounding.
-- Module Settings: mysql-internal/collector/config.py over the environment variables; Connection:
--   the parameters of connection.py's `connect`, `assert_tls`, and `build_sink` of
--   sinks/__init__.py. Accepted: what holds of settings that are accepted.
--   PlanSink: `PlanSinkConfig` of runtime.py, and the sinks of a plan.
-- Module Sinks: mysql-internal/collector/sinks. Adx: `AdxSink`, over a client that answers each
--   request; the rows are cut as those of the spool are. Adx.Delivery: what its requests hold. Jsonl:
--   `JsonlSink`, over a file that takes each line or raises.
-- Module Upload: benchmark-integration/upload_jsonl.py, over what the json module and
--   `datetime.fromisoformat` read. Load: `load_rows`; RoundTrip and Archive: the rows that jsonl.py
--   wrote, read back; Main: `main`; Marking: what its marker says.
-- Module Collector: mysql-internal/collector/collector.py and metrics.py. Metrics: the generators
--   of version 1, with what they have yielded where they raise. Loop: `_run_loop`, in milliseconds,
--   over the cycles that start before a signal; the sleep runs on as many rounds as there are
--   milliseconds left, which is enough since each step takes one at least. Cycles: what the sinks
--   get. Main: `main` and `_plan_main`, which compose the settings, the plan, the assembly and the
--   sinks; Exits: how they end.
-- Prelude has the lists, dictionaries, texts, signed numbers and results that these share.
--
-- Not modelled: the SQL of the groups, threads beyond those of the workload, logging, the command
-- lines, the texts of reports and queries, and every script that only checks a deployment. The
-- context that a worker builds from a compiled target is taken to pass its own checks.
pub mod Prelude
pub mod Plan
pub mod Runtime
pub mod Spool
pub mod Telemetry
pub mod Secrets
pub mod ErrorLog
pub mod Groups
pub mod Workload
pub mod Report
pub mod Settings
pub mod Sinks
pub mod Upload
pub mod Collector
