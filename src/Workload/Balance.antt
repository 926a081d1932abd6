-- ===== src/Workload/Balance.antt =====
-- Where each operation of a run is, whatever the order of the steps.
pub mod Producer
pub mod Moves
pub mod Runs
use mathlib.Core.Option.{some-injective}
use azure_mysql_monitoring.Prelude.{
  length, ℕ, zero, suc, ◌+◌, ◌≤◌, ◌≡◌, Option, none, some, List, [], ◌∷◌, ◌++◌, arith,
}
use azure_mysql_monitoring.Plan.Catalog.{bounded}
use azure_mysql_monitoring.Runtime.Worker.Step.{reported}
use azure_mysql_monitoring.Workload.{Operation, RunStats}
use azure_mysql_monitoring.Workload.Run.{
  stopped, Item, sentinel, job, Phase, opening, waiting, holding, executing, State, phase_at,
  set_phase,
}

abbrev pub jobs_in : List Item → ℕ
jobs_in [] = 0
jobs_in (sentinel ∷ items) = jobs_in items
jobs_in (job op ∷ items) = suc (jobs_in items)

abbrev pub held : Phase → ℕ
held opening = 0
held waiting = 0
held stopped = 0
held (holding sentinel) = 0
held (holding (job op)) = 1
held (executing op) = 1

abbrev pub held_by : List Phase → ℕ
held_by [] = 0
held_by (p ∷ ps) = held p + held_by ps

abbrev pub offered : Option Operation → ℕ
offered none = 0
offered (some op) = 1

-- The operations that are counted, and not done with.
abbrev pub in_flight : State → ℕ
in_flight s = offered s.offering + (jobs_in s.queue + held_by s.workers)

abbrev pub completed : RunStats → ℕ
completed stats = stats.completed_reads + stats.completed_writes

pub record IsBalanced (count : ℕ) (s : State) : Type 0 where
  -- each counted operation is completed, dropped, failed, or on its way
  pub accounted :
      s.stats.scheduled
      ≡ (completed s.stats + (s.stats.dropped_queue + (s.stats.dropped_late + s.stats.errors)))
        + in_flight s
  pub all_offered : s.stats.scheduled + length s.pending ≡ count
  -- a latency for each completion, a message for each failure
  pub measured : length s.stats.latencies ≡ completed s.stats
  pub reported : length s.stats.failure_messages ≡ s.stats.errors
  pub bounded : length s.queue ≤ s.capacity

pub jobs_in-append : (xs ys : List Item) → jobs_in (xs ++ ys) ≡ jobs_in xs + jobs_in ys
jobs_in-append [] ys = omega arith
jobs_in-append (sentinel ∷ xs) ys = jobs_in-append xs ys
jobs_in-append (job op ∷ xs) ys = omega (arith, jobs_in-append xs ys)

pub held_by-set_phase :
    (w : ℕ) (p q : Phase) (ps : List Phase)
    → phase_at w ps ≡ some p
    → held_by (set_phase w q ps) + held p ≡ held_by ps + held q
unfolding phase_at set_phase
held_by-set_phase w p q [] h = cc h
held_by-set_phase zero p q (r ∷ ps) h = rw (some-injective _ _ h) (omega arith)
held_by-set_phase (suc w) p q (r ∷ ps) h = omega (arith, held_by-set_phase w p q ps h)
