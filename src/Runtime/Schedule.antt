-- ===== src/Runtime/Schedule.antt =====
-- mysql-internal/collector/runtime.py: the clock arithmetic of `_advance` and `_schedule_reconnect`.
-- A time is a number of milliseconds of the monotonic clock.
use native.Mathlib.Nat.{pow-suc, pow-zero}
use azure_mysql_monitoring.Prelude.{
  leb, if◌then◌else◌, Bool-cases, ℕ, zero, suc, ◌+◌, ◌-◌, ◌*◌, ◌^◌, ◌≤◌, ◌<◌, min, max, ◌≡◌, inl,
  inr, arith,
}

-- `while due <= now: due += interval`. The source would not end at interval 0, which no compiled
-- group has; a positive interval needs at most `suc now - due` rounds.
advance_rounds : ℕ → ℕ → ℕ → ℕ → ℕ
advance_rounds zero interval now due = due
advance_rounds (suc fuel) interval now due =
    let later = advance_rounds fuel interval now (due + interval) in
    if leb due now then later else due

unfoldable pub advance_due : ℕ → ℕ → ℕ → ℕ
unfolding advance_rounds
advance_due interval now due = advance_rounds (suc now - due) interval now due

-- `min(self.max_backoff, max(self.initial_backoff, delay * 2))`
unfoldable pub next_backoff : ℕ → ℕ → ℕ → ℕ
next_backoff initial maximum delay = min maximum (max initial (delay * 2))

module _ (interval now : ℕ) (positive : 0 < interval) where
  advance_rounds_past :
      (fuel due : ℕ) → suc now - due ≤ fuel → now < advance_rounds fuel interval now due
  unfolding advance_rounds
  advance_rounds_past zero due h = omega arith
  advance_rounds_past (suc fuel) due h = ground (arith, advance_rounds_past fuel (due + interval))

  advance_rounds_near :
      (fuel due : ℕ) → advance_rounds fuel interval now due ≤ max due (now + interval)
  unfolding advance_rounds
  advance_rounds_near zero due = omega arith
  advance_rounds_near (suc fuel) due = ground (arith, advance_rounds_near fuel (due + interval))

  advance_rounds_whole :
      (fuel due : ℕ) → (k : ℕ) × (advance_rounds fuel interval now due ≡ due + k * interval)
  unfolding advance_rounds
  advance_rounds_whole zero due = (0, omega arith)
  advance_rounds_whole (suc fuel) due =
      let (k, e) = advance_rounds_whole fuel (due + interval) in
      elim (Bool-cases (leb due now)) [
        | inl h ↦ (suc k, rw h (rw e (grind arith)))
        | inr h ↦ (0, rw h (omega arith))
      ]

  pub advance_due_past : (due : ℕ) → now < advance_due interval now due
  unfolding advance_due
  advance_due_past due = advance_rounds_past (suc now - due) due (omega arith)

  -- An overdue group gets its next slot: later than now, at most one interval ahead of it, and a
  -- whole number of intervals after the slot that it had.
  pub advance_due_slot :
      (due : ℕ)
      → due ≤ now
      → (now < advance_due interval now due)
        × (advance_due interval now due ≤ now + interval)
        × ((k : ℕ) × (advance_due interval now due ≡ due + k * interval))
  unfolding advance_due
  advance_due_slot due h = (
    advance_rounds_past (suc now - due) due (omega arith),
    omega (arith, advance_rounds_near (suc now - due) due),
    advance_rounds_whole (suc now - due) due,
  )

one_le_pow : (n : ℕ) → 1 ≤ 2 ^ n
one_le_pow zero = omega arith
one_le_pow (suc n) = rw pow-suc (omega (arith, one_le_pow n))

-- How long the wait is after so many failures in a row.
unfoldable pub backoff_after : ℕ → ℕ → ℕ → ℕ
backoff_after initial maximum zero = initial
backoff_after initial maximum (suc n) =
    next_backoff initial maximum (backoff_after initial maximum n)

-- The wait doubles with each failure in a row until it meets the maximum.
pub backoff_after_lem :
    (initial maximum n : ℕ)
    → initial ≤ maximum
    → backoff_after initial maximum n ≡ min maximum (initial * 2 ^ n)
unfolding backoff_after next_backoff
backoff_after_lem initial maximum zero h = omega (arith, pow-zero 2)
backoff_after_lem initial maximum (suc n) h =
    let grown : initial * 1 ≤ initial * 2 ^ n = grind (arith, one_le_pow n) in
    rw pow-suc (omega (arith, backoff_after_lem initial maximum n h, grown))
