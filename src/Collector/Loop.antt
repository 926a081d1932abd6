-- ===== src/Collector/Loop.antt =====
-- mysql-internal/collector/collector.py: `_run_loop`. Times are milliseconds.
use azure_mysql_monitoring.Prelude.{
  Bool, ltb, leb, eqb, if◌then◌else◌, ℕ, zero, suc, ◌+◌, ◌-◌, ◌%◌, min, String, true, false, Option,
  none, some, List, [], ◌∷◌, ◌++◌,
}
use azure_mysql_monitoring.Collector.Metrics.{
  heartbeat, cycle_duration, sample_global_status, sample_statement_digests, Yielded,
}
use azure_mysql_monitoring.ErrorLog.{Envelope}
use azure_mysql_monitoring.Groups.Rows.{Python, Connection}
use azure_mysql_monitoring.Prelude.Int.{ℤ, pos, negsuc}
use azure_mysql_monitoring.Telemetry.Catalog.{LegacyRow}

pub record LoopArgs : Type 0 where
  pub interval : ℕ
  pub digest_interval : ℤ
  pub max_cycles : ℤ

-- What a cycle finds outside, if the collector was not told to stop before.
pub record Cycle (Cell Event : Type 0) : Type 0 where
  pub ts : String
  pub conn : Connection Cell
  -- what `reader.poll` yields, if it does not raise
  pub polled : Option (List Event)
  -- does a sink raise
  pub sink_raises : Bool
  -- the time from the start to the end of the cycle
  pub elapsed : ℕ

-- What a cycle hands to every sink, in their order.
pub record CycleRows (Event : Type 0) : Type 0 where
  pub batch : List LegacyRow
  pub events : List Event

-- `args.digest_interval > 0 and cycle % args.digest_interval == 0`
unfoldable pub digests_due : ℤ → ℕ → Bool
digests_due (pos zero) cycle = false
digests_due (pos (suc n)) cycle = eqb (cycle % suc n) 0
digests_due (negsuc n) cycle = false

-- `args.max_cycles and cycle >= args.max_cycles`
unfoldable pub is_last : ℤ → ℕ → Bool
is_last (pos zero) cycle = false
is_last (pos (suc n)) cycle = leb (suc n) cycle
is_last (negsuc n) cycle = true

unfoldable pub duration_row : Envelope → Option ℕ → String → List LegacyRow
unfolding cycle_duration
duration_row env none ts = []
duration_row env (some elapsed) ts = cycle_duration env elapsed ts ∷ []

-- `sleep_for`, slept in steps of a quarter of a second.
unfoldable pub sleep_rounds : ℕ → ℕ → ℕ → List ℕ
sleep_rounds zero sleep_for slept = []
sleep_rounds (suc rounds) sleep_for slept =
    let step = min 250 (sleep_for - slept) in
    let rest = sleep_rounds rounds sleep_for (slept + step) in
    if ltb slept sleep_for then step ∷ rest else []

unfoldable pub sleep_steps : ℕ → ℕ → List ℕ
unfolding sleep_rounds
sleep_steps interval elapsed = sleep_rounds (interval - elapsed) (interval - elapsed) 0

with_digests : Bool → List LegacyRow → Yielded → List LegacyRow
with_digests due digests (rows, some raised) = rows
with_digests due digests (rows, none) = if due then rows ++ digests else rows

module _ {Cell Event : Type 0} (python : Python Cell) (args : LoopArgs) (env : Envelope) where
  -- The body of the first `try`: what was yielded before an exception stays in the batch.
  unfoldable pub sample : ℕ → Cycle Cell Event → List LegacyRow
  unfolding sample_global_status sample_statement_digests digests_due with_digests
  sample number cycle =
      with_digests (digests_due args.digest_interval number)
        (sample_statement_digests python env cycle.ts cycle.conn).0
        (sample_global_status python env cycle.ts cycle.conn)

  -- The rows of a cycle, with the duration of the cycle before it.
  unfoldable pub batch_of : ℕ → Option ℕ → Cycle Cell Event → List LegacyRow
  unfolding heartbeat duration_row sample
  batch_of number last cycle =
      heartbeat env cycle.ts ∷ (duration_row env last cycle.ts ++ sample number cycle)

  unfoldable pub cycle_rows : ℕ → Option ℕ → Cycle Cell Event → CycleRows Event
  unfolding batch_of
  cycle_rows number last cycle = record {
    batch = batch_of number last cycle;
    events = elim cycle.polled [ none ↦ [] | some events ↦ events ];
  }

  -- The loop, from a cycle number on: what was handed on, and whether a sink raised.
  unfoldable pub run_from : ℕ → Option ℕ → List (Cycle Cell Event) → List (CycleRows Event) × Bool
  unfolding cycle_rows is_last
  run_from number last [] = ([], false)
  run_from number last (cycle ∷ cycles) =
      let rest = run_from (suc number) (some cycle.elapsed) cycles in
      if cycle.sink_raises
      then ([], true)
      else if is_last args.max_cycles number
      then (cycle_rows number last cycle ∷ [], false)
      else (cycle_rows number last cycle ∷ rest.0, rest.1)

  -- `_run_loop`: the cycles are those that start before the collector is told to stop.
  unfoldable pub run_loop : List (Cycle Cell Event) → List (CycleRows Event) × Bool
  unfolding run_from
  run_loop cycles = run_from 1 none cycles
