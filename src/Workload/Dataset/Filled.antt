-- ===== src/Workload/Dataset/Filled.antt =====
-- The loop of `prepare_dataset` ends, and fills the table.
use mathlib.Core.List.{append_assoc, append-nil}
use azure_mysql_monitoring.Prelude.{
  ℕ, zero, suc, ◌+◌, ◌<◌, ◌≡◌, refl, false, some, List, [], ◌∷◌, ◌++◌, arith, length, ◌-◌, ◌≤◌, min,
  sym, ap, ◌∙◌, subst, ltb, length-append, ◌≢◌,
}
use azure_mysql_monitoring.Prelude.Result.{ok, err}
use azure_mysql_monitoring.Workload.Dataset.{
  max_id, ids_from, has_id, insert_rows, insert_batches, out_of_fuel, PrepareArguments, target_rows,
  has_bad_arguments, exit_of, prepare_dataset,
}

has_id-le : (id : ℕ) (table : List ℕ) → max_id table < id → has_id id table ≡ false
unfolding has_id max_id
has_id-le id [] h = refl
has_id-le id (other ∷ table) h = ground (arith, h, has_id-le id table)

max_id-append : (table : List ℕ) (id : ℕ) → max_id table < id → max_id (table ++ (id ∷ [])) ≡ id
unfolding max_id
max_id-append [] id h = omega arith
max_id-append (other ∷ table) id h = let r = max_id-append table id in ground (arith, h, r)

insert_rows-ids_from :
    (n next_id : ℕ) (table : List ℕ)
    → max_id table < next_id
    → (insert_rows (ids_from next_id n) table ≡ some (table ++ ids_from next_id n))
      × (max_id (table ++ ids_from next_id n) < next_id + n)
unfolding insert_rows ids_from
insert_rows-ids_from zero next_id table h = rw append-nil (refl, omega (arith, h))
insert_rows-ids_from (suc n) next_id table h =
    let r =
      insert_rows-ids_from n (suc next_id) (table ++ (next_id ∷ []))
        (omega (arith, max_id-append table next_id h)) in
    let joined = append_assoc table (next_id ∷ []) (ids_from (suc next_id) n) in
    let bound = subst (λ t. max_id t < suc next_id + n) joined r.1 in
    (rw (has_id-le next_id table h) (r.0 ∙ ap (λ t. some t) joined), omega (arith, bound))

ids_from-add :
    (m n next_id : ℕ) → ids_from next_id (m + n) ≡ ids_from next_id m ++ ids_from (next_id + m) n
unfolding ids_from
ids_from-add zero n next_id =
    let all : 0 + n ≡ n = omega arith in
    let same : next_id ≡ next_id + 0 = omega arith in
    ap (λ k. ids_from next_id k) all ∙ ap (λ k. ids_from k n) same
ids_from-add (suc m) n next_id =
    let more : suc m + n ≡ suc (m + n) = omega arith in
    let same : suc next_id + m ≡ next_id + suc m = omega arith in
    ap (λ k. ids_from next_id k) more
    ∙ ap (λ ids. next_id ∷ ids)
        (ids_from-add m n (suc next_id) ∙ ap (λ k. ids_from (suc next_id) m ++ ids_from k n) same)

length-ids_from : (n next_id : ℕ) → length (ids_from next_id n) ≡ n
unfolding ids_from
length-ids_from zero next_id = refl
length-ids_from (suc n) next_id = omega (arith, length-ids_from n (suc next_id))

insert_batches_lem :
    (fuel batch_size remaining next_id : ℕ) (table : List ℕ)
    → 1 ≤ batch_size
    → remaining ≤ fuel
    → max_id table < next_id
    → insert_batches fuel batch_size remaining next_id table
      ≡ ok (table ++ ids_from next_id remaining)
unfolding insert_batches
insert_batches_lem fuel batch_size zero next_id table h f m =
    ap (λ t. ok t) (sym (append-nil table))
insert_batches_lem zero batch_size (suc remaining) next_id table h f m = absurd (omega (arith, f))
insert_batches_lem (suc fuel) batch_size (suc remaining) next_id table h f m =
    let count = min batch_size (suc remaining) in
    let others = suc remaining - count in
    let (inserted, bound) = insert_rows-ids_from count next_id table m in
    let rest =
      insert_batches_lem fuel batch_size others (next_id + count) (table ++ ids_from next_id count)
        h (omega (arith, h, f)) bound in
    let whole : count + others ≡ suc remaining = omega arith in
    let split : ids_from next_id count ++ ids_from (next_id + count) others
        ≡ ids_from next_id (suc remaining) =
      sym (ids_from-add count others next_id) ∙ ap (λ k. ids_from next_id k) whole in
    rw inserted (
      rest
      ∙ ap (λ t. ok t)
          (append_assoc table (ids_from next_id count) (ids_from (next_id + count) others)
            ∙ ap (λ ids. table ++ ids) split))

-- With a positive batch size and arguments that are accepted, `prepare_dataset` ends: it keeps the
-- rows of the table and adds as many as are missing, with the ids that follow the greatest one, none
-- of which is taken; and it never reports that rows are missing.
pub prepare_dataset_fills :
    (sizes : List ℕ → ℕ × ℕ) (arguments : PrepareArguments) (table : List ℕ)
    → 1 ≤ arguments.batch_size
    → has_bad_arguments arguments ≡ false
    → (code : ℕ) × (prepare_dataset sizes arguments table
        ≡ ok (code, table ++ ids_from (suc (max_id table)) (target_rows arguments - length table)))
      × (code ≢ 3)
unfolding prepare_dataset
prepare_dataset_fills sizes arguments table h good =
    let target = target_rows arguments in
    let missing = target - length table in
    let filled = table ++ ids_from (suc (max_id table)) missing in
    let looped =
      insert_batches_lem missing arguments.batch_size missing (suc (max_id table)) table h
        (omega arith) (omega arith) in
    let enough : ltb (length filled) target ≡ false = ground (
      arith,
      length-append table (ids_from (suc (max_id table)) missing),
      length-ids_from missing (suc (max_id table)),
    ) in
    (
      exit_of target (sizes filled) filled,
      rw (good, looped) refl,
      other_exit target filled (sizes filled) enough,
    )
  where
    other_exit :
        (target : ℕ) (filled : List ℕ) (found : ℕ × ℕ)
        → ltb (length filled) target ≡ false
        → exit_of target found filled ≢ 3
    other_exit target filled found e = ground (arith, e)

-- With a batch size of 0 the loop goes round as often as it may.
insert_batches_stuck :
    (fuel remaining next_id : ℕ) (table : List ℕ)
    → insert_batches fuel 0 (suc remaining) next_id table ≡ err out_of_fuel
unfolding insert_batches insert_rows ids_from
insert_batches_stuck zero remaining next_id table = refl
insert_batches_stuck (suc fuel) remaining next_id table =
    let none_asked : min 0 (suc remaining) ≡ 0 = omega arith in
    let same : suc remaining - 0 ≡ suc remaining = omega arith in
    rw none_asked (rw same (insert_batches_stuck fuel remaining (next_id + 0) table))
