-- ===== src/Workload/Balance/Producer.antt =====
-- The steps of the producer keep the balance.
use mathlib.Core.Option.{some-injective}
use azure_mysql_monitoring.Prelude.{
  ltb, leb, ltb→lt, Bool-cases, length, length-append, ℕ, zero, suc, ◌≡◌, ap, subst, inl, inr, not,
  ◌&&◌, Option, none, some, List, [], ◌∷◌, arith,
}
use azure_mysql_monitoring.Workload.{Operation}
use azure_mysql_monitoring.Workload.Balance.{offered, IsBalanced, jobs_in-append}
use azure_mysql_monitoring.Workload.Run.{
  sentinel, job, State, announce_next, put_next, is_over, sentinel_next, any_alive, skip_next,
}

module _ (count : ℕ) where
  pub announce_next-IsBalanced :
      (offering : Option Operation) (pending : List Operation) (s s2 : State)
      → offering ≡ s.offering
      → pending ≡ s.pending
      → IsBalanced count s
      → announce_next offering pending s ≡ some s2
      → IsBalanced count s2
  unfolding announce_next
  announce_next-IsBalanced (some op) pending s s2 eo ep b h = cc h
  announce_next-IsBalanced none [] s s2 eo ep b h = cc h
  announce_next-IsBalanced none (op ∷ ops) s s2 eo ep b h =
      let a = b.accounted in
      let n = b.all_offered in
      elim (Bool-cases (ltb s.clock op.scheduled_at)) [
        | inl early ↦ cc (rw early at h)
        | inr due ↦ subst (IsBalanced count) (some-injective _ _ (rw due at h)) (record {
          accounted = omega (arith, a, ap offered eo);
          all_offered = omega (arith, n, ap length ep);
          measured = b.measured;
          reported = b.reported;
          bounded = b.bounded;
        })
      ]

  pub put_next-IsBalanced :
      (offering : Option Operation) (s s2 : State)
      → offering ≡ s.offering
      → IsBalanced count s
      → put_next offering s ≡ some s2
      → IsBalanced count s2
  unfolding put_next
  put_next-IsBalanced none s s2 eo b h = cc h
  put_next-IsBalanced (some op) s s2 eo b h =
      let a = b.accounted in
      elim (Bool-cases (ltb (length s.queue) s.capacity)) [
        | inl room ↦ subst (IsBalanced count) (some-injective _ _ (rw room at h)) (record {
          accounted = omega (arith, a, ap offered eo, jobs_in-append s.queue (job op ∷ []));
          all_offered = b.all_offered;
          measured = b.measured;
          reported = b.reported;
          bounded = omega (arith, length-append s.queue (job op ∷ []), ltb→lt _ _ room);
        })
        | inr full ↦ subst (IsBalanced count) (some-injective _ _ (rw full at h)) (record {
          accounted = omega (arith, a, ap offered eo);
          all_offered = b.all_offered;
          measured = b.measured;
          reported = b.reported;
          bounded = b.bounded;
        })
      ]

  pub sentinel_next-IsBalanced :
      (sentinels : ℕ) (s s2 : State)
      → IsBalanced count s
      → sentinel_next sentinels s ≡ some s2
      → IsBalanced count s2
  unfolding sentinel_next
  sentinel_next-IsBalanced zero s s2 b h = cc h
  sentinel_next-IsBalanced (suc n) s s2 b h =
      let a = b.accounted in
      elim (Bool-cases (is_over s.pending s.offering && ltb (length s.queue) s.capacity)) [
        | inr full ↦ cc (rw full at h)
        | inl room ↦ subst (IsBalanced count) (some-injective _ _ (rw room at h)) (record {
          accounted = omega (arith, a, jobs_in-append s.queue (sentinel ∷ []));
          all_offered = b.all_offered;
          measured = b.measured;
          reported = b.reported;
          bounded = omega (
            arith,
            length-append s.queue (sentinel ∷ []),
            ltb→lt (length s.queue) s.capacity (ground (arith, room)),
          );
        })
      ]

  pub skip_next-IsBalanced :
      (sentinels : ℕ) (s s2 : State)
      → IsBalanced count s
      → skip_next sentinels s ≡ some s2
      → IsBalanced count s2
  unfolding skip_next
  skip_next-IsBalanced zero s s2 b h = cc h
  skip_next-IsBalanced (suc n) s s2 b h =
      elim (Bool-cases (
        is_over s.pending s.offering
        && (leb s.capacity (length s.queue) && not (any_alive s.workers)))) [
          | inr e ↦ cc (rw e at h)
          | inl e ↦ subst (IsBalanced count) (some-injective _ _ (rw e at h)) (record {
            accounted = b.accounted;
            all_offered = b.all_offered;
            measured = b.measured;
            reported = b.reported;
            bounded = b.bounded;
          })
        ]
