-- ===== src/Workload/Session.antt =====
-- open_loop_workload.py: how `run_open_loop` begins, up to its first operation.
use azure_mysql_monitoring.Prelude.{
  ltb, leb, length, ℕ, zero, suc, ◌*◌, ◌≤◌, max, ◌≡◌, refl, Bool, not, some, List, arith, sym, ap,
  subst,
}
use azure_mysql_monitoring.Prelude.Result.{Result, ok, ◌>>◌, raise_if, raise_if-eq-ok}
use azure_mysql_monitoring.Workload.{operation_stream, has_valid_arguments}
use azure_mysql_monitoring.Workload.Balance.{IsBalanced}
use azure_mysql_monitoring.Workload.Balance.Runs.{perform-IsBalanced}
use azure_mysql_monitoring.Workload.Dataset.{ceil_div}
use azure_mysql_monitoring.Workload.Run.{start, State, Action, perform}

pub record RunArguments : Type 0 where
  pub seconds : ℕ
  pub threads : ℕ
  pub rate : ℕ
  pub read_percent : ℕ
  pub max_lag : ℕ

-- `table_inventory`
pub record Inventory : Type 0 where
  pub rows : ℕ
  pub max_id : ℕ
  pub table_bytes : ℕ
  pub buffer_pool_bytes : ℕ

-- The capacity of the queue: `max_lag` is in units of 1 / (rate · 10^6) seconds.
abbrev capacity_of : RunArguments → ℕ
capacity_of arguments = max arguments.threads (ceil_div arguments.max_lag 1000000)

-- An exit code, or the state in which the loop begins, a second before the first operation. The
-- generator draws of 100 and of the ids up to a bound; the connections are there, or one failed.
unfoldable pub run_open_loop : (ℕ → ℕ → ℕ × ℕ) → Bool → RunArguments → Inventory → Result ℕ State
unfolding has_valid_arguments operation_stream start
run_open_loop draw connected arguments inventory = do
  raise_if
      (not (
        has_valid_arguments arguments.seconds arguments.threads arguments.rate
          arguments.read_percent arguments.max_lag))
      2
  raise_if (ltb inventory.rows 1) 3
  raise_if (leb inventory.table_bytes inventory.buffer_pool_bytes) 3
  raise_if (not connected) 4
  ok (
      start
        (operation_stream (draw inventory.max_id) arguments.read_percent (arguments.rate * 1000000)
          0 (arguments.seconds * arguments.rate))
        arguments.threads (capacity_of arguments) arguments.max_lag)

length-operation_stream :
    (draw : ℕ → ℕ × ℕ) (read_percent started_at sequence count : ℕ)
    → length (operation_stream draw read_percent started_at sequence count) ≡ count
unfolding operation_stream
length-operation_stream draw read_percent started_at sequence zero = refl
length-operation_stream draw read_percent started_at sequence (suc count) =
    omega (arith, length-operation_stream draw read_percent started_at (suc sequence) count)

-- A run that begins, and whatever its threads do from there, accounts for its seconds times its rate
-- of operations; and its queue has room for one item of each worker.
pub run_open_loop-IsBalanced :
    (draw : ℕ → ℕ → ℕ × ℕ) (connected : Bool) (arguments : RunArguments) (inventory : Inventory)
    (first s : State) (actions : List Action)
    → run_open_loop draw connected arguments inventory ≡ ok first
    → perform actions first ≡ some s
    → IsBalanced (arguments.seconds * arguments.rate) s × (arguments.threads ≤ first.capacity)
unfolding run_open_loop start
run_open_loop-IsBalanced draw connected arguments inventory first s actions h done =
    let operations =
      operation_stream (draw inventory.max_id) arguments.read_percent (arguments.rate * 1000000) 0
        (arguments.seconds * arguments.rate) in
    let (_, h₁) =
      raise_if-eq-ok
        (not (
          has_valid_arguments arguments.seconds arguments.threads arguments.rate
            arguments.read_percent arguments.max_lag))
        2 _ h in
    let (_, h₂) = raise_if-eq-ok (ltb inventory.rows 1) 3 _ h₁ in
    let (_, h₃) = raise_if-eq-ok (leb inventory.table_bytes inventory.buffer_pool_bytes) 3 _ h₂ in
    let (_, h₄) = raise_if-eq-ok (not connected) 4 _ h₃ in
    let begun : start operations arguments.threads (capacity_of arguments) arguments.max_lag
        ≡ first =
      cc h₄ in
    (
      subst (λ n. IsBalanced n s)
          (length-operation_stream (draw inventory.max_id) arguments.read_percent
            (arguments.rate * 1000000) 0 (arguments.seconds * arguments.rate))
          (perform-IsBalanced operations arguments.threads (capacity_of arguments) arguments.max_lag
            actions s (subst (λ f. perform actions f ≡ some s) (sym begun) done)),
      subst (λ c. arguments.threads ≤ c) (ap (λ f. f.capacity) begun) (omega arith),
    )
