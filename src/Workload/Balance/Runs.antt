-- ===== src/Workload/Balance/Runs.antt =====
-- Whole runs keep the balance.
use mathlib.Core.Option.{some-injective}
use azure_mysql_monitoring.Prelude.{
  Option-cases, length, ℕ, zero, suc, ◌≡◌, refl, subst, inl, inr, some, List, [], ◌∷◌, arith,
}
use azure_mysql_monitoring.Workload.{Operation}
use azure_mysql_monitoring.Workload.Balance.{held_by, IsBalanced}
use azure_mysql_monitoring.Workload.Balance.Moves.{advance_worker-IsBalanced}
use azure_mysql_monitoring.Workload.Balance.Producer.{
  announce_next-IsBalanced, put_next-IsBalanced, sentinel_next-IsBalanced, skip_next-IsBalanced,
}
use azure_mysql_monitoring.Workload.Run.{
  start, State, Action, pass, announce, put_nowait, put_sentinel, skip_sentinel, move, phases,
  phase_at, move_worker, step, perform,
}

module _ (count : ℕ) where
  step-IsBalanced :
      (a : Action) (s s2 : State) → IsBalanced count s → step a s ≡ some s2 → IsBalanced count s2
  unfolding step
  step-IsBalanced (pass n) s s2 b h = subst (IsBalanced count) (some-injective _ _ h) (record {
    accounted = b.accounted;
    all_offered = b.all_offered;
    measured = b.measured;
    reported = b.reported;
    bounded = b.bounded;
  })
  step-IsBalanced announce s s2 b h =
      announce_next-IsBalanced count s.offering s.pending s s2 refl refl b h
  step-IsBalanced put_nowait s s2 b h = put_next-IsBalanced count s.offering s s2 refl b h
  step-IsBalanced put_sentinel s s2 b h = sentinel_next-IsBalanced count s.sentinels s s2 b h
  step-IsBalanced skip_sentinel s s2 b h = skip_next-IsBalanced count s.sentinels s s2 b h
  step-IsBalanced (move w m) s s2 b h = elim (Option-cases (phase_at w s.workers)) [
    | inl e ↦ cc (rw (e, move_worker) at h)
    | inr (p, e) ↦ advance_worker-IsBalanced count w m p s s2 e b (rw (e, move_worker) at h)
  ]

  steps-IsBalanced :
      (actions : List Action) (s s2 : State)
      → IsBalanced count s
      → perform actions s ≡ some s2
      → IsBalanced count s2
  unfolding perform
  steps-IsBalanced [] s s2 b h = subst (IsBalanced count) (some-injective _ _ h) b
  steps-IsBalanced (a ∷ rest) s s2 b h = elim (Option-cases (step a s)) [
    | inl e ↦ cc (rw (e, perform) at h)
    | inr (mid, e) ↦
        steps-IsBalanced rest mid s2 (step-IsBalanced a s mid b e) (rw (e, perform) at h)
  ]

held_by-phases : (threads : ℕ) → held_by (phases threads) ≡ 0
unfolding phases
held_by-phases zero = refl
held_by-phases (suc n) = omega (arith, held_by-phases n)

-- In whatever order the producer and the workers come, and whichever operations fail: each operation
-- that was counted is completed, dropped, failed or still on its way, exactly one of these; each
-- completion has a latency and each failure a message; and the queue is never longer than its
-- capacity.
pub perform-IsBalanced :
    (operations : List Operation) (threads capacity max_lag : ℕ) (actions : List Action) (s : State)
    → perform actions (start operations threads capacity max_lag) ≡ some s
    → IsBalanced (length operations) s
unfolding start
perform-IsBalanced operations threads capacity max_lag actions s h =
    let none_held = held_by-phases threads in
    steps-IsBalanced (length operations) actions (start operations threads capacity max_lag) s
      (record {
        accounted = omega (arith, none_held);
        all_offered = omega arith;
        measured = refl;
        reported = refl;
        bounded = omega arith;
      })
      h
