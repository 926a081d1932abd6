-- ===== src/Collector/Tests.antt =====
-- A run of three cycles, and the theorems about the loop and the command at it.
use azure_mysql_monitoring.Prelude.{
  if◌then◌else◌, ℕ, String, ◌≡◌, refl, true, false, not, none, some, List, [], ◌∷◌, map, ◌==◌,
}
use azure_mysql_monitoring.Collector.Cycles.{Reports, run_loop-Reports}
use azure_mysql_monitoring.Collector.Exits.{TargetEnds, target_main-TargetEnds}
use azure_mysql_monitoring.Collector.Loop.{LoopArgs, Cycle, CycleRows, sleep_steps, run_loop}
use azure_mysql_monitoring.Collector.Main.{
  opened, closed, connected, disconnected, Site, target_main,
}
use azure_mysql_monitoring.ErrorLog.{Envelope}
use azure_mysql_monitoring.Groups.Rows.{Python, Connection}
use azure_mysql_monitoring.Prelude.Int.{pos}
use azure_mysql_monitoring.Prelude.Text.{is_blank}
use azure_mysql_monitoring.Settings.Connection.{jsonl}

abbrev small_python : Python String
small_python = record {
  truthy = λ cell. not (is_blank cell);
  to_int = λ cell. if cell == "12" then some (pos 12) else none;
  to_float = λ cell. if cell == "12" then some (pos 12, 0) else none;
  to_str = λ cell. cell;
  equals = λ cell other. cell == other;
}

abbrev small_args : LoopArgs
small_args = record { interval = 1000; digest_interval = pos 2; max_cycles = pos 2 }

abbrev small_env : Envelope
small_env = record { run_id = "run"; host = "db"; tier = "premium-ssd-v2" }

-- The second row of the status variables is no number, and the server has one digest, whose last
-- column cannot be read.
abbrev answers : Connection String
answers name params =
    if name == "global_status.sql"
    then some (("Threads_running" ∷ "12" ∷ []) ∷ ("Dump_status" ∷ "ON" ∷ []) ∷ [])
    else some (("0123456789abcdef0123" ∷ "" ∷ "12" ∷ "" ∷ "" ∷ "" ∷ "bad" ∷ "" ∷ []) ∷ [])

abbrev down : Connection String
down name params = none

abbrev cycle_of : String → Connection String → ℕ → Cycle String String
cycle_of ts conn elapsed = record {
  ts = ts;
  conn = conn;
  polled = none;
  sink_raises = false;
  elapsed = elapsed;
}

abbrev three_cycles : List (Cycle String String)
three_cycles = cycle_of "t1" down 1200 ∷ cycle_of "t2" answers 300 ∷ cycle_of "t3" answers 5 ∷ []

run_loop-Reports_example :
    Reports small_env none
      (cycle_of "t1" down 1200 ∷ cycle_of "t2" answers 300 ∷ [])
      (run_loop small_python small_args small_env three_cycles).0
    × ((run_loop small_python small_args small_env three_cycles).1 ≡ false)
run_loop-Reports_example =
    run_loop-Reports small_env small_python small_args three_cycles (refl, (refl, (refl, tt)))

abbrev names_of : List (CycleRows String) → List (List String)
names_of ws = map (λ w. map (λ r. r.metric) w.batch) ws

-- A metric of the digests keeps 16 characters of the hash; the conversion that fails ends them.
three_cycles_run :
    names_of (run_loop small_python small_args small_env three_cycles).0
    ≡ ("collector_heartbeat" ∷ [])
      ∷ ("collector_heartbeat" ∷ "collector_cycle_duration_ms" ∷ "Threads_running"
          ∷ "digest.0123456789abcdef.count" ∷ "digest.0123456789abcdef.latency_ms"
          ∷ "digest.0123456789abcdef.lock_ms" ∷ "digest.0123456789abcdef.rows_examined"
          ∷ "digest.0123456789abcdef.rows_sent" ∷ [])
      ∷ []
unfolding run_loop
three_cycles_run = refl

slept : sleep_steps 1000 300 ≡ 250 ∷ 250 ∷ 200 ∷ []
unfolding sleep_steps
slept = refl

abbrev small_site : Site String String
small_site = record {
  environ =
      ("MYSQL_TIER", "premium-ssd-v2")
      ∷ ("MYSQL_HOST", "db")
      ∷ ("MYSQL_USER", "monitor")
      ∷ ("MYSQL_PASSWORD", "secret")
      ∷ ("MYSQL_DB", "app")
      ∷ ("RUN_ID", "run")
      ∷ [];
  to_int = λ digits. some (pos 3306);
  constructs = λ kind. true;
  is_file = λ path. true;
  driver_connects = λ parameters. true;
  tls_row = some ("Ssl_cipher", "TLS_AES_256_GCM_SHA384");
  identifies = true;
  loads_cursor = true;
  cycles = three_cycles;
}

target_main-TargetEnds_example :
    TargetEnds small_python small_args small_site
      ("jsonl" ∷ [])
      (target_main small_python small_args small_site ("jsonl" ∷ []))
target_main-TargetEnds_example =
    target_main-TargetEnds small_python small_args small_site ("jsonl" ∷ [])

small_site_runs :
    (target_main small_python small_args small_site []).acts
    ≡ opened jsonl ∷ connected ∷ closed jsonl ∷ disconnected ∷ []
unfolding target_main
small_site_runs = refl

-- The first sink was opened, and stays open.
second_sink_refused :
    (target_main small_python small_args small_site ("jsonl" ∷ "adx-queued" ∷ [])).acts
    ≡ opened jsonl ∷ []
unfolding target_main
second_sink_refused = refl
