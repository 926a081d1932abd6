-- ===== src/Workload/Dataset.antt =====
-- open_loop_workload.py: `prepare_dataset`. The table is the list of its ids; what MySQL says of its
-- bytes and of the buffer pool is a parameter.
pub mod Filled
use azure_mysql_monitoring.Prelude.{
  ltb, leb, eqb, if◌then◌else◌, length, ℕ, zero, suc, ◌+◌, ◌-◌, ◌*◌, ◌/◌, min, max, Bool, false,
  not, ◌&&◌, ◌||◌, Option, none, some, List, [], ◌∷◌, ◌++◌,
}
use azure_mysql_monitoring.Prelude.Result.{Result, ok, err, ◌>>=◌}
use azure_mysql_monitoring.Spool.Step.{then}

-- The arguments of the command.
pub record PrepareArguments : Type 0 where
  pub dataset_mib : ℕ
  pub payload_bytes : ℕ
  pub batch_size : ℕ

-- `COALESCE(MAX(id), 0)`
unfoldable pub max_id : List ℕ → ℕ
max_id [] = 0
max_id (id ∷ ids) = max id (max_id ids)

has_id : ℕ → List ℕ → Bool
has_id id [] = false
has_id id (other ∷ ids) = eqb other id || has_id id ids

-- `math.ceil(a / b)`, without the rounding of the division.
abbrev pub ceil_div : ℕ → ℕ → ℕ
ceil_div a b = (a + (b - 1)) / b

-- `MIB`
abbrev pub mib : ℕ
mib = 1048576

pub target_rows : PrepareArguments → ℕ
target_rows arguments = ceil_div (arguments.dataset_mib * mib) arguments.payload_bytes

-- `next_id + offset` for each offset.
pub ids_from : ℕ → ℕ → List ℕ
ids_from next_id zero = []
ids_from next_id (suc n) = next_id ∷ ids_from (suc next_id) n

-- `executemany`: an id that is there is an error of the primary key.
insert_rows : List ℕ → List ℕ → Option (List ℕ)
unfolding has_id
insert_rows [] table = some table
insert_rows (id ∷ ids) table =
    if has_id id table then none else insert_rows ids (table ++ (id ∷ []))

-- Why `prepare_dataset` does not return.
pub data Failure : Type 0 where
  duplicate_id out_of_fuel : Failure

-- The loop over the batches, with what is left to insert, on fuel.
insert_batches : ℕ → ℕ → ℕ → ℕ → List ℕ → Result Failure (List ℕ)
unfolding insert_rows ids_from
insert_batches fuel batch_size zero next_id table = ok table
insert_batches zero batch_size (suc remaining) next_id table = err out_of_fuel
insert_batches (suc fuel) batch_size (suc remaining) next_id table =
    let batch_count = min batch_size (suc remaining) in
    let rows = insert_rows (ids_from next_id batch_count) table in
    rows_inserted rows
      (insert_batches fuel batch_size (suc remaining - batch_count) (next_id + batch_count))
  where
    rows_inserted : Option (List ℕ) → (List ℕ → Result Failure (List ℕ)) → Result Failure (List ℕ)
    rows_inserted none rest = err duplicate_id
    rows_inserted (some table2) rest = rest table2

unfoldable pub has_bad_arguments : PrepareArguments → Bool
has_bad_arguments arguments =
    ltb arguments.dataset_mib 128
    || not (leb 1024 arguments.payload_bytes && leb arguments.payload_bytes 65535)

-- The last tests: the bytes of the table and of the buffer pool.
unfoldable pub exit_of : ℕ → ℕ × ℕ → List ℕ → ℕ
exit_of target (table_bytes, buffer_pool_bytes) table =
    if ltb (length table) target then 3 else if leb table_bytes buffer_pool_bytes then 4 else 0

-- `prepare_dataset`: the exit code and the table.
pub prepare_dataset : (List ℕ → ℕ × ℕ) → PrepareArguments → List ℕ → Result Failure (ℕ × List ℕ)
unfolding has_bad_arguments exit_of insert_batches target_rows max_id
prepare_dataset sizes arguments table =
    let target = target_rows arguments in
    let remaining = target - length table in
    if has_bad_arguments arguments
    then ok (2, table)
    else insert_batches remaining arguments.batch_size remaining (suc (max_id table)) table
      >>= λ filled. ok (exit_of target (sizes filled) filled, filled)
