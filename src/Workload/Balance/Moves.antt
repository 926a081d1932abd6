-- ===== src/Workload/Balance/Moves.antt =====
-- The steps of a worker keep the balance.
use mathlib.Core.Option.{some-injective}
use azure_mysql_monitoring.Prelude.{
  ltb, Bool-cases, length, length-append, ℕ, suc, ◌+◌, ◌-◌, ◌≤◌, ◌≡◌, refl, sym, ap, ◌∙◌, subst,
  inl, inr, some, List, [], ◌∷◌, arith,
}
use azure_mysql_monitoring.Workload.{
  Kind, reading, writing, RunStats, record_completion, record_failure,
}
use azure_mysql_monitoring.Workload.Balance.{
  jobs_in, held, completed, IsBalanced, held_by-set_phase,
}
use azure_mysql_monitoring.Workload.Run.{
  stopped, Item, sentinel, job, Phase, opening, waiting, holding, executing, State, Move,
  open_cursor, cursor_fails, get_item, look, finish, fail, phase_at, become, take_item, look_at,
  advance_worker,
}

-- A completion is one more of its kind, with its latency, and changes nothing else.
record_completion_lem :
    (kind : Kind) (latency : ℕ) (stats : RunStats)
    → (completed (record_completion kind latency stats) ≡ suc (completed stats))
      × (length (record_completion kind latency stats).latencies ≡ suc (length stats.latencies))
      × ((record_completion kind latency stats).scheduled ≡ stats.scheduled)
      × ((record_completion kind latency stats).dropped_queue ≡ stats.dropped_queue)
      × ((record_completion kind latency stats).dropped_late ≡ stats.dropped_late)
      × ((record_completion kind latency stats).errors ≡ stats.errors)
      × ((record_completion kind latency stats).failure_messages ≡ stats.failure_messages)
unfolding record_completion
record_completion_lem reading latency stats =
    let n = length-append stats.latencies (latency ∷ []) in
    (omega arith, omega (arith, n), refl, refl, refl, refl, refl)
record_completion_lem writing latency stats =
    let n = length-append stats.latencies (latency ∷ []) in
    (omega arith, omega (arith, n), refl, refl, refl, refl, refl)

module _ (count : ℕ) where
  -- A worker that changes its place, and with it what is done with its operation.
  moved-IsBalanced :
      (w : ℕ) (p q : Phase) (s : State) (stats : RunStats) (queue : List Item)
      → phase_at w s.workers ≡ some p
      → IsBalanced count s
      → stats.scheduled ≡ s.stats.scheduled
      → ((completed stats + (stats.dropped_queue + (stats.dropped_late + stats.errors)))
            + (jobs_in queue + held q)
          ≡ (completed s.stats + (s.stats.dropped_queue + (s.stats.dropped_late + s.stats.errors)))
            + (jobs_in s.queue + held p))
      → length stats.latencies ≡ completed stats
      → length stats.failure_messages ≡ stats.errors
      → length queue ≤ length s.queue
      → IsBalanced count (become w q (record s { stats = stats; queue = queue }))
  unfolding become
  moved-IsBalanced w p q s stats queue at b same books timed told shorter =
      let a = b.accounted in
      let n = b.all_offered in
      let c = b.bounded in
      record {
        accounted = omega (arith, a, same, books, held_by-set_phase w p q s.workers at);
        all_offered = omega (arith, n, same);
        measured = timed;
        reported = told;
        bounded = omega (arith, c, shorter);
      }

  pub advance_worker-IsBalanced :
      (w : ℕ) (m : Move) (p : Phase) (s s2 : State)
      → phase_at w s.workers ≡ some p
      → IsBalanced count s
      → advance_worker w m p s ≡ some s2
      → IsBalanced count s2
  unfolding advance_worker take_item look_at record_completion record_failure
  advance_worker-IsBalanced w open_cursor opening s s2 at b h =
      subst (IsBalanced count) (some-injective _ _ h) (
        moved-IsBalanced w opening waiting s s.stats s.queue at b refl refl b.measured b.reported
          (omega arith))
  advance_worker-IsBalanced w cursor_fails opening s s2 at b h =
      subst (IsBalanced count) (some-injective _ _ h) (
        moved-IsBalanced w opening stopped s s.stats s.queue at b refl refl b.measured b.reported
          (omega arith))
  advance_worker-IsBalanced w get_item waiting s s2 at b h = taken s.queue refl h
    where
      taken :
          (queue : List Item)
          → queue ≡ s.queue
          → take_item w queue s ≡ some s2
          → IsBalanced count s2
      taken [] e k = cc k
      taken (sentinel ∷ items) e k = subst (IsBalanced count) (some-injective _ _ k) (
          moved-IsBalanced w waiting (holding sentinel) s s.stats items at b refl
            (omega (arith, ap jobs_in e)) b.measured b.reported (omega (arith, ap length e)))
      taken (job op ∷ items) e k = subst (IsBalanced count) (some-injective _ _ k) (
          moved-IsBalanced w waiting (holding (job op)) s s.stats items at b refl
            (omega (arith, ap jobs_in e)) b.measured b.reported (omega (arith, ap length e)))
  advance_worker-IsBalanced w look (holding sentinel) s s2 at b h =
      subst (IsBalanced count) (some-injective _ _ h) (
        moved-IsBalanced w (holding sentinel) stopped s s.stats s.queue at b refl refl b.measured
          b.reported (omega arith))
  advance_worker-IsBalanced w look (holding (job op)) s s2 at b h =
      elim (Bool-cases (ltb (op.scheduled_at + s.max_lag) s.clock)) [
        | inl late ↦ subst (IsBalanced count) (some-injective _ _ (rw late at h)) (
            moved-IsBalanced w (holding (job op)) waiting s
              (record s.stats { dropped_late = suc s.stats.dropped_late }) s.queue at b refl
              (omega arith) b.measured b.reported (omega arith))
        | inr early ↦ subst (IsBalanced count) (some-injective _ _ (rw early at h)) (
            moved-IsBalanced w (holding (job op)) (executing op) s s.stats s.queue at b refl refl
              b.measured b.reported (omega arith))
      ]
  advance_worker-IsBalanced w finish (executing op) s s2 at b h =
      let latency = s.clock - op.scheduled_at in
      let (done, timed, same, full, late, bad, told) =
        record_completion_lem op.kind latency s.stats in
      let t = b.measured in
      subst (IsBalanced count) (some-injective _ _ h) (
        moved-IsBalanced w (executing op) waiting s (record_completion op.kind latency s.stats)
          s.queue at b same (omega (arith, done, full, late, bad)) (omega (arith, done, timed, t))
          (ap length told ∙ (b.reported ∙ sym bad)) (omega arith))
  advance_worker-IsBalanced w (fail message) (executing op) s s2 at b h =
      let told = b.reported in
      subst (IsBalanced count) (some-injective _ _ h) (
        moved-IsBalanced w (executing op) stopped s (record_failure message s.stats) s.queue at b
          refl (omega arith) b.measured
          (omega (arith, told, length-append s.stats.failure_messages (message ∷ [])))
          (omega arith))
  advance_worker-IsBalanced w _ _ s s2 at b h = cc h
