-- ===== src/Workload/Latency.antt =====
-- open_loop_workload.py: `percentile`, of latencies that are natural numbers, and for a quantile that
-- is a number of percents. The value is exact, and counted in hundredths.
use mathlib.Core.List.{Permᴰ}
use mathlib.Core.Path.{ap₂}
use azure_mysql_monitoring.Prelude.{
  length, ℕ, zero, suc, ◌+◌, ◌-◌, ◌*◌, ◌/◌, ◌≡◌, List, [], ◌∷◌, arith, eqb, if◌then◌else◌, refl,
  ◌∙◌,
}
use azure_mysql_monitoring.Prelude.Sorting.{place, sort_by}

-- `ordered[n]`, which is in range wherever `percentile` asks for it.
pub at_rank : ℕ → List ℕ → ℕ
at_rank n [] = 0
at_rank zero (x ∷ xs) = x
at_rank (suc n) (x ∷ xs) = at_rank n xs

-- The numbers in ascending order.
pub ordered : List ℕ → List ℕ
unfolding sort_by
ordered numbers = sort_by (λ v. v) numbers

-- Between the two ranks, `rank` hundredths above the first.
interpolate : ℕ → List ℕ → ℕ
unfolding at_rank
interpolate rank numbers =
    let lower = rank / 100 in
    let upper = (rank + 99) / 100 in
    if eqb lower upper
    then at_rank lower numbers * 100
    else at_rank lower numbers * 100
      + (at_rank upper numbers - at_rank lower numbers) * (rank - lower * 100)

pub percentile : List ℕ → ℕ → ℕ
unfolding interpolate ordered
percentile [] percent = 0
percentile (x ∷ xs) percent = interpolate (length xs * percent) (ordered (x ∷ xs))

place_comm :
    (x y : ℕ) (zs : List ℕ)
    → place (λ v. v) x (place (λ v. v) y zs) ≡ place (λ v. v) y (place (λ v. v) x zs)
unfolding place
place_comm x y [] = ground arith
place_comm x y (z ∷ zs) = ground (arith, place_comm x y zs)

ordered-Perm : {xs ys : List ℕ} → Permᴰ xs ys → ordered xs ≡ ordered ys
unfolding ordered sort_by
ordered-Perm Permᴰ.nil = refl
ordered-Perm (Permᴰ.cons {a} e p) = ap₂ (place (λ v. v)) e (ordered-Perm p)
ordered-Perm (Permᴰ.swap {a} {b} {l = l} e f) =
    place_comm a b (ordered l) ∙ ap₂ (λ x y. place (λ v. v) x (place (λ v. v) y (ordered l))) f e
ordered-Perm (Permᴰ.trans p q) = ordered-Perm p ∙ ordered-Perm q

length-Perm : {xs ys : List ℕ} → Permᴰ xs ys → length xs ≡ length ys
length-Perm Permᴰ.nil = refl
length-Perm (Permᴰ.cons e p) = omega (arith, length-Perm p)
length-Perm (Permᴰ.swap e f) = omega arith
length-Perm (Permᴰ.trans p q) = length-Perm p ∙ length-Perm q

-- The order in which the workers record their latencies makes no difference to a percentile.
pub percentile-Perm :
    (xs ys : List ℕ) (percent : ℕ) → Permᴰ xs ys → percentile xs percent ≡ percentile ys percent
unfolding percentile
percentile-Perm [] [] percent p = refl
percentile-Perm [] (y ∷ ys) percent p = absurd (omega (arith, length-Perm p))
percentile-Perm (x ∷ xs) [] percent p = absurd (omega (arith, length-Perm p))
percentile-Perm (x ∷ xs) (y ∷ ys) percent p =
    let n : length xs ≡ length ys = omega (arith, length-Perm p) in
    ap₂ (λ k numbers. interpolate (k * percent) numbers) n (ordered-Perm p)
