-- ===== src/Workload/Tests.antt =====
-- Two operations and two workers, and the theorems about a run at them.
use mathlib.Core.List.{Permᴰ}
use azure_mysql_monitoring.Prelude.{
  ℕ, ◌+◌, ◌*◌, ◌≡◌, refl, none, some, List, [], ◌∷◌, ◌-◌, ◌≤◌, ◌≢◌, true, ◌++◌, arith,
}
use azure_mysql_monitoring.Prelude.Result.{ok}
use azure_mysql_monitoring.Workload.{reading, writing, Operation, operation_stream, no_stats}
use azure_mysql_monitoring.Workload.Balance.{completed, IsBalanced}
use azure_mysql_monitoring.Workload.Dataset.{
  PrepareArguments, max_id, target_rows, ids_from, has_bad_arguments, prepare_dataset,
}
use azure_mysql_monitoring.Workload.Dataset.Filled.{prepare_dataset_fills}
use azure_mysql_monitoring.Workload.Latency.{percentile, percentile-Perm}
use azure_mysql_monitoring.Workload.Run.{
  start, stopped, State, open_cursor, cursor_fails, get_item, look, finish, Action, pass, announce,
  put_nowait, put_sentinel, skip_sentinel, move, perform, exit_code, opening, waiting,
}
use azure_mysql_monitoring.Workload.Session.{
  RunArguments, Inventory, run_open_loop, run_open_loop-IsBalanced,
}

abbrev draw : ℕ → ℕ × ℕ
draw n = (90 * n, n + 1)

abbrev operations : List Operation
operations =
    record { scheduled_at = 0; kind = reading; row_id = 1 }
    ∷ record { scheduled_at = 1000000; kind = writing; row_id = 2 }
    ∷ []

streamed : operation_stream draw 80 0 0 2 ≡ operations
unfolding operation_stream
streamed = refl

-- One worker reads, the other is too late for its operation.
abbrev actions : List Action
actions =
    move 0 open_cursor
    ∷ move 1 open_cursor
    ∷ announce
    ∷ put_nowait
    ∷ move 0 get_item
    ∷ move 0 look
    ∷ pass 1000000
    ∷ announce
    ∷ put_nowait
    ∷ move 0 finish
    ∷ move 1 get_item
    ∷ pass 9000000
    ∷ move 1 look
    ∷ put_sentinel
    ∷ put_sentinel
    ∷ move 0 get_item
    ∷ move 0 look
    ∷ move 1 get_item
    ∷ move 1 look
    ∷ []

abbrev end_state : State
end_state = record {
  clock = 10000000;
  pending = [];
  offering = none;
  sentinels = 0;
  queue = [];
  capacity = 2;
  max_lag = 2000000;
  workers = stopped ∷ stopped ∷ [];
  stats = record {
    scheduled = 2;
    completed_reads = 1;
    completed_writes = 0;
    dropped_queue = 0;
    dropped_late = 1;
    errors = 0;
    latencies = 1000000 ∷ [];
    failure_messages = [];
  };
}

ran : perform actions (start operations 2 2 2000000) ≡ some end_state
unfolding perform start
ran = refl

abbrev arguments : RunArguments
arguments = record { seconds = 30; threads = 2; rate = 1; read_percent = 80; max_lag = 2000000 }

abbrev inventory : Inventory
inventory = record { rows = 9; max_id = 9; table_bytes = 2; buffer_pool_bytes = 1 }

abbrev draw_row : ℕ → ℕ → ℕ × ℕ
draw_row bound n = (90 * n, n + 1)

abbrev first : State
first = start (operation_stream (draw_row 9) 80 1000000 0 30) 2 2 2000000

-- The first operation is read, when it is due.
abbrev later : State
later = record first {
  clock = 1000000;
  pending = operation_stream (draw_row 9) 80 1000000 1 29;
  workers = waiting ∷ opening ∷ [];
  stats = record no_stats { scheduled = 1; completed_reads = 1; latencies = 0 ∷ [] };
}

run_open_loop-IsBalanced_example : IsBalanced 30 later × (2 ≤ 2)
unfolding perform start run_open_loop operation_stream
run_open_loop-IsBalanced_example =
    run_open_loop-IsBalanced draw_row true arguments inventory first later
      (pass 1000000
        ∷ announce
        ∷ put_nowait
        ∷ move 0 open_cursor
        ∷ move 0 get_item
        ∷ move 0 look
        ∷ move 0 finish
        ∷ [])
      refl refl

abbrev prepare_arguments : PrepareArguments
prepare_arguments = record { dataset_mib = 128; payload_bytes = 65535; batch_size = 64 }

-- No worker gets a cursor: nothing is done and nothing counted as an error, and the exit code is 0.
abbrev silent : List Action
silent =
    move 0 cursor_fails
    ∷ announce
    ∷ put_nowait
    ∷ pass 1000000
    ∷ announce
    ∷ put_nowait
    ∷ skip_sentinel
    ∷ []

silent_run :
    (s : State) × (perform silent (start operations 1 2 2000000) ≡ some s)
    × (exit_code (λ alive. "workers did not stop") s ≡ 0)
    × (completed s.stats ≡ 0)
unfolding perform start exit_code
silent_run = (_, refl, refl, refl)

percentile_swapped : percentile (10 ∷ 30 ∷ []) 95 ≡ percentile (30 ∷ 10 ∷ []) 95
percentile_swapped = percentile-Perm (10 ∷ 30 ∷ []) (30 ∷ 10 ∷ []) 95 (Permᴰ.swap refl refl)

prepare_dataset_fills_example :
    (code : ℕ) × (prepare_dataset (λ ids. (2, 1)) prepare_arguments (3 ∷ [])
      ≡ ok (code, (3 ∷ []) ++ ids_from 4 (target_rows prepare_arguments - 1)))
    × (code ≢ 3)
unfolding max_id has_bad_arguments
prepare_dataset_fills_example =
    prepare_dataset_fills (λ ids. (2, 1)) prepare_arguments (3 ∷ []) (omega arith) refl
