-- ===== src/Workload/Exit.antt =====
-- What the exit code 0 of a run says.
use azure_mysql_monitoring.Prelude.{
  String, ltb, length, ℕ, ◌+◌, ◌≡◌, refl, ap, false, ◌||◌, none, some, List, [], ◌∷◌, arith,
}
use azure_mysql_monitoring.Workload.{Operation}
use azure_mysql_monitoring.Workload.Balance.{completed, jobs_in, held_by, offered}
use azure_mysql_monitoring.Workload.Balance.Runs.{perform-IsBalanced}
use azure_mysql_monitoring.Workload.Run.{
  start, stopped, Phase, opening, waiting, holding, executing, State, Action, any_alive, perform,
  exit_code, is_stopped, note_alive,
}

held_by-stopped : (ps : List Phase) → any_alive ps ≡ false → held_by ps ≡ 0
unfolding any_alive is_stopped
held_by-stopped [] h = refl
held_by-stopped (stopped ∷ ps) h = omega (arith, held_by-stopped ps h)
held_by-stopped (opening ∷ ps) h = cc h
held_by-stopped (waiting ∷ ps) h = cc h
held_by-stopped (holding item ∷ ps) h = cc h
held_by-stopped (executing op ∷ ps) h = cc h

-- A run that is over and exits with 0, and whose queue the workers have emptied, has completed or
-- dropped every operation of its stream.
pub exit_code_complete :
    (operations : List Operation) (threads capacity max_lag : ℕ) (actions : List Action) (s : State)
    (message : List ℕ → String)
    → perform actions (start operations threads capacity max_lag) ≡ some s
    → s.pending ≡ []
    → s.offering ≡ none
    → s.queue ≡ []
    → exit_code message s ≡ 0
    → completed s.stats + (s.stats.dropped_queue + s.stats.dropped_late) ≡ length operations
unfolding exit_code note_alive
exit_code_complete operations threads capacity max_lag actions s message h over put emptied e =
    let b = perform-IsBalanced operations threads capacity max_lag actions s h in
    let a = b.accounted in
    let n = b.all_offered in
    let quiet : (ltb 0 (note_alive message s).stats.errors || any_alive s.workers) ≡ false =
      ground (arith, e) in
    let all_stopped : any_alive s.workers ≡ false = ground (arith, quiet) in
    let none_failed : s.stats.errors ≡ 0 = ground (arith, rw (all_stopped, note_alive) at quiet) in
    let none_held = held_by-stopped s.workers all_stopped in
    omega (arith, a, n, ap length over, ap offered put, ap jobs_in emptied, none_failed, none_held)
