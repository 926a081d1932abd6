-- ===== src/Workload.antt =====
-- benchmark-integration/open_loop_workload.py. A time is a number of units of 1 / (rate · 10^6)
-- seconds, so that the operations of a run are 10^6 units apart.
pub mod Run
pub mod Balance
pub mod Exit
pub mod Dataset
pub mod Session
pub mod Pool
pub mod Latency
mod Tests
use azure_mysql_monitoring.Prelude.{
  ltb, leb, if◌then◌else◌, ℕ, zero, suc, ◌+◌, ◌*◌, String, Bool, ◌&&◌, List, [], ◌∷◌, ◌++◌,
}
use azure_mysql_monitoring.Spool.Step.{then}

pub data Kind : Type 0 where
  reading writing : Kind

pub record Operation : Type 0 where
  pub scheduled_at : ℕ
  pub kind : Kind
  pub row_id : ℕ

pub record RunStats : Type 0 where
  pub scheduled : ℕ
  pub completed_reads : ℕ
  pub completed_writes : ℕ
  pub dropped_queue : ℕ
  pub dropped_late : ℕ
  pub errors : ℕ
  pub latencies : List ℕ
  pub failure_messages : List String

abbrev pub no_stats : RunStats
no_stats = record {
  scheduled = 0;
  completed_reads = 0;
  completed_writes = 0;
  dropped_queue = 0;
  dropped_late = 0;
  errors = 0;
  latencies = [];
  failure_messages = [];
}

-- `RunStats.record_completion`
unfoldable pub record_completion : Kind → ℕ → RunStats → RunStats
record_completion reading latency stats = record stats {
  completed_reads = suc stats.completed_reads;
  latencies = stats.latencies ++ (latency ∷ []);
}
record_completion writing latency stats = record stats {
  completed_writes = suc stats.completed_writes;
  latencies = stats.latencies ++ (latency ∷ []);
}

-- `RunStats.record_failure`
unfoldable pub record_failure : String → RunStats → RunStats
record_failure message stats = record stats {
  errors = suc stats.errors;
  failure_messages = stats.failure_messages ++ (message ∷ []);
}

-- `operation_stream` from a sequence number on, where the generator draws, for each number, of 100
-- and of the rows.
unfoldable pub operation_stream : (ℕ → ℕ × ℕ) → ℕ → ℕ → ℕ → ℕ → List Operation
operation_stream draw read_percent started_at sequence zero = []
operation_stream draw read_percent started_at sequence (suc count) =
    record {
      scheduled_at = started_at + sequence * 1000000;
      kind = if ltb (draw sequence).0 read_percent then reading else writing;
      row_id = (draw sequence).1;
    }
    ∷ operation_stream draw read_percent started_at (suc sequence) count

-- The guard of `run_open_loop`, with `max_lag_seconds` as a number of units.
pub has_valid_arguments : ℕ → ℕ → ℕ → ℕ → ℕ → Bool
has_valid_arguments seconds threads rate read_percent max_lag =
    leb 30 seconds && (leb 1 threads && (leb 1 rate && (leb read_percent 100 && ltb 0 max_lag)))
