-- ===== src/Workload/Pool.antt =====
-- open_loop_workload.py: `wait_for_buffer_pool`. Each look has its time, and the size and the status
-- that the server answers with.
use azure_mysql_monitoring.Prelude.{
  ltb, eqb, if◌then◌else◌, ltb→lt, Bool-cases, ℕ, ◌<◌, String, ◌≡◌, refl, inl, inr, Bool, true, not,
  ◌&&◌, ◌||◌, List, [], ◌∷◌, Memᴰ, arith,
}
use azure_mysql_monitoring.Prelude.Text.{is_blank}
use azure_mysql_monitoring.Telemetry.Measurements.Status.{begins_lower, contains_lower}

pub record Look : Type 0 where
  pub time : ℕ
  pub size : ℕ
  pub status : String

-- The test on the status, in lower case: the resize is over.
resize_finished : String → Bool
unfolding begins_lower contains_lower
resize_finished status =
    is_blank status
    || (begins_lower "completed" status
        || (contains_lower "nothing to do" status || contains_lower "size did not change" status))

-- The exit code: of the looks, those from the deadline on are not taken.
pub wait_for_buffer_pool : ℕ → ℕ → List Look → ℕ
unfolding resize_finished begins_lower
wait_for_buffer_pool deadline expected_bytes [] = 3
wait_for_buffer_pool deadline expected_bytes (l ∷ looks) =
    let rest = wait_for_buffer_pool deadline expected_bytes looks in
    if not (ltb l.time deadline)
    then 3
    else if eqb l.size expected_bytes && resize_finished l.status
    then 0
    else if begins_lower "failed" l.status
    then 4
    else rest

-- A look that makes the wait end well.
IsReady : ℕ → ℕ → Look → Type 0
IsReady deadline expected_bytes l =
    (l.time < deadline) × (l.size ≡ expected_bytes) × (resize_finished l.status ≡ true)

-- The wait ends well only with a look before the deadline that saw the expected size and no resize
-- under way.
wait_for_buffer_pool-zero :
    (deadline expected_bytes : ℕ) (looks : List Look)
    → wait_for_buffer_pool deadline expected_bytes looks ≡ 0
    → (l : Look) × Memᴰ l looks × IsReady deadline expected_bytes l
unfolding wait_for_buffer_pool IsReady
wait_for_buffer_pool-zero deadline expected_bytes [] h = absurd (omega (arith, h))
wait_for_buffer_pool-zero deadline expected_bytes (l ∷ looks) h =
    elim (Bool-cases (ltb l.time deadline)) [
      | inr late ↦ absurd (ground (arith, h, late))
      | inl early ↦ elim (Bool-cases (eqb l.size expected_bytes && resize_finished l.status)) [
        | inl both ↦
            (l, Memᴰ.head refl, (ltb→lt _ _ early, ground (arith, both), ground (arith, both)))
        | inr waiting_still ↦
            let r =
              wait_for_buffer_pool-zero deadline expected_bytes looks
                (ground (arith, h, early, waiting_still)) in
            (r.0, Memᴰ.tail r.1, r.2)
      ]
    ]
