-- ===== src/Collector/Cycles.antt =====
-- What the sinks get in a run of the loop, and how long it sleeps.
use azure_mysql_monitoring.Prelude.{
  if◌then◌else◌, Bool-cases, take, All, ℕ, zero, suc, ◌+◌, String, ◌≡◌, refl, ap, subst, inl, inr,
  false, Option, none, some, List, [], ◌∷◌, ◌++◌, arith, ltb, ltb→lt, ◌-◌, ◌≤◌, ◌<◌, min, max,
}
use azure_mysql_monitoring.Collector.Loop.{
  LoopArgs, Cycle, CycleRows, is_last, duration_row, sample, batch_of, cycle_rows, run_from,
  run_loop, sleep_rounds, sleep_steps,
}
use azure_mysql_monitoring.Collector.Metrics.{heartbeat, cycle_duration}
use azure_mysql_monitoring.ErrorLog.{Envelope}
use azure_mysql_monitoring.Groups.Rows.{Python}
use azure_mysql_monitoring.Prelude.Int.{ℤ, pos, negsuc}
use azure_mysql_monitoring.Spool.Store.{total}
use azure_mysql_monitoring.Telemetry.Catalog.{LegacyRow}

abbrev pub durations : Envelope → Option ℕ → String → List LegacyRow
durations env none ts = []
durations env (some elapsed) ts = cycle_duration env elapsed ts ∷ []

module _ {Cell Event : Type 0} where
  -- The cycles that `--max-cycles` lets run.
  abbrev pub allowed : ℤ → List (Cycle Cell Event) → List (Cycle Cell Event)
  allowed (pos zero) cycles = cycles
  allowed (pos (suc n)) cycles = take (suc n) cycles
  allowed (negsuc n) cycles = take 1 cycles

  abbrev remaining : ℤ → ℕ → List (Cycle Cell Event) → List (Cycle Cell Event)
  remaining most number [] = []
  remaining most number (cycle ∷ cycles) =
      let rest = remaining most (suc number) cycles in
      cycle ∷ (if is_last most number then [] else rest)

  abbrev pub IsQuiet : List (Cycle Cell Event) → Type 0
  IsQuiet cycles = All (λ c. c.sink_raises ≡ false) cycles

  remaining_endless :
      (number : ℕ) (cycles : List (Cycle Cell Event)) → remaining (pos zero) number cycles ≡ cycles
  unfolding is_last
  remaining_endless number [] = refl
  remaining_endless number (cycle ∷ cycles) =
      ap (λ cs. cycle ∷ cs) (remaining_endless (suc number) cycles)

  remaining_counted :
      (n left number : ℕ) (cycles : List (Cycle Cell Event))
      → number + left ≡ suc n
      → remaining (pos (suc n)) number cycles ≡ take (suc left) cycles
  unfolding is_last
  remaining_counted n left number [] h = refl
  remaining_counted n zero number (cycle ∷ cycles) h = ground (arith, h)
  remaining_counted n (suc left) number (cycle ∷ cycles) h =
      ground (arith, h, remaining_counted n left (suc number) cycles (omega (arith, h)))

  remaining-allowed :
      (most : ℤ) (cycles : List (Cycle Cell Event)) → remaining most 1 cycles ≡ allowed most cycles
  unfolding is_last
  remaining-allowed (pos zero) cycles = remaining_endless 1 cycles
  remaining-allowed (pos (suc n)) cycles = remaining_counted n n 1 cycles (omega arith)
  remaining-allowed (negsuc n) [] = refl
  remaining-allowed (negsuc n) (cycle ∷ cycles) = refl

module _ {Cell Event : Type 0} (env : Envelope) where
  -- One batch for each cycle: its heartbeat first, then the duration of the cycle before it.
  abbrev pub Reports : Option ℕ → List (Cycle Cell Event) → List (CycleRows Event) → Type 0
  Reports last [] [] = Unit
  Reports last (cycle ∷ cycles) (w ∷ ws) =
      ((more : List LegacyRow) × (w.batch
          ≡ heartbeat env cycle.ts ∷ (durations env last cycle.ts ++ more)))
      × Reports (some cycle.elapsed) cycles ws
  Reports last _ _ = ⊥

  module _ (python : Python Cell) (args : LoopArgs) where
    cycle_rows-Reports :
        (number : ℕ) (last : Option ℕ) (cycle : Cycle Cell Event)
        → (more : List LegacyRow) × ((cycle_rows python args env number last cycle).batch
            ≡ heartbeat env cycle.ts ∷ (durations env last cycle.ts ++ more))
    unfolding cycle_rows batch_of duration_row
    cycle_rows-Reports number none cycle = (sample python args env number cycle, refl)
    cycle_rows-Reports number (some elapsed) cycle = (sample python args env number cycle, refl)

    run_from-Reports :
        (number : ℕ) (last : Option ℕ) (cycles : List (Cycle Cell Event))
        → IsQuiet cycles
        → Reports last
            (remaining args.max_cycles number cycles)
            (run_from python args env number last cycles).0
          × ((run_from python args env number last cycles).1 ≡ false)
    unfolding run_from
    run_from-Reports number last [] h = (tt, refl)
    run_from-Reports number last (cycle ∷ cycles) h =
        let batch = cycle_rows-Reports number last cycle in
        let rest = run_from-Reports (suc number) (some cycle.elapsed) cycles h.1 in
        elim (Bool-cases (is_last args.max_cycles number)) [
          | inl stop ↦ rw (h.0, stop) ((batch, tt), refl)
          | inr go ↦ rw (h.0, go) ((batch, rest.0), rest.1)
        ]

    -- Where no sink raises, each cycle that `--max-cycles` lets run, and no other, hands the sinks
    -- one batch: it begins with the heartbeat of the cycle, whatever the server and the reader do,
    -- and goes on with the duration of the cycle before, where there was one.
    pub run_loop-Reports :
        (cycles : List (Cycle Cell Event))
        → IsQuiet cycles
        → Reports none (allowed args.max_cycles cycles) (run_loop python args env cycles).0
          × ((run_loop python args env cycles).1 ≡ false)
    unfolding run_loop
    run_loop-Reports cycles h =
        let (reports, ended) = run_from-Reports 1 none cycles h in
        (
          subst (λ cs. Reports none cs (run_from python args env 1 none cycles).0)
              (remaining-allowed args.max_cycles cycles) reports,
          ended,
        )

abbrev pub sum : List ℕ → ℕ
sum [] = 0
sum (n ∷ ns) = n + sum ns

sleep_rounds_lem :
    (rounds sleep_for slept : ℕ)
    → slept ≤ sleep_for
    → sleep_for - slept ≤ rounds
    → (slept + sum (sleep_rounds rounds sleep_for slept) ≡ sleep_for)
      × All (λ n. (0 < n) × (n ≤ 250)) (sleep_rounds rounds sleep_for slept)
unfolding sleep_rounds
sleep_rounds_lem zero sleep_for slept h k = (omega (arith, h, k), tt)
sleep_rounds_lem (suc rounds) sleep_for slept h k = elim (Bool-cases (ltb slept sleep_for)) [
  | inl more ↦
      let step = min 250 (sleep_for - slept) in
      let lt = ltb→lt slept sleep_for more in
      let rest =
        sleep_rounds_lem rounds sleep_for (slept + step) (omega (arith, lt))
          (omega (arith, lt, k)) in
      rw more (omega (arith, rest.0), ((omega (arith, lt), omega arith), rest.1))
  | inr enough ↦ rw enough (ground (arith, h, enough), tt)
]

-- The sleep after a cycle takes what is left of the interval and no more, in steps of a quarter of
-- a second at most, between which the collector looks whether it is to stop.
pub sleep_steps_lem :
    (interval elapsed : ℕ)
    → (elapsed + sum (sleep_steps interval elapsed) ≡ max interval elapsed)
      × All (λ n. (0 < n) × (n ≤ 250)) (sleep_steps interval elapsed)
unfolding sleep_steps
sleep_steps_lem interval elapsed =
    let (total, small) =
      sleep_rounds_lem (interval - elapsed) (interval - elapsed) 0 (omega arith) (omega arith) in
    (omega (arith, total), small)
