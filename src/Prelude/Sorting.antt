-- ===== src/Prelude/Sorting.antt =====
-- Python's `sorted` with a key that is a number: insertion, which keeps equal keys in their order.
use Prim.Native.Nat.{ℕ, suc, ◌≤◌}
use mathlib.Core.Path.{◌≡◌, refl}
use mathlib.Core.Logic.{inl, inr}
use mathlib.Core.List.{List, [], ◌∷◌, Memᴰ}
use native.Mathlib.Omega.{arith}
use azure_mysql_monitoring.Prelude.Tests.{leb, if◌then◌else◌, Bool-cases}
use azure_mysql_monitoring.Prelude.Lists.{length, All}

module _ {A : Type 0} (key : A → ℕ) where
  unfoldable pub place : A → List A → List A
  place x [] = x ∷ []
  place x (y ∷ ys) = if leb (key x) (key y) then x ∷ y ∷ ys else y ∷ place x ys

  unfoldable pub sort_by : List A → List A
  unfolding place
  sort_by [] = []
  sort_by (x ∷ xs) = place x (sort_by xs)

  abbrev pub IsAscending : List A → Type 0
  IsAscending [] = Unit
  IsAscending (x ∷ xs) = All (λ y. key x ≤ key y) xs × IsAscending xs

  length-place : (x : A) (xs : List A) → length (place x xs) ≡ suc (length xs)
  unfolding place
  length-place x [] = refl
  length-place x (y ∷ ys) = ground (arith, length-place x ys)

  pub length-sort_by : (xs : List A) → length (sort_by xs) ≡ length xs
  unfolding sort_by
  length-sort_by [] = refl
  length-sort_by (x ∷ xs) = ground (arith, length-place x (sort_by xs), length-sort_by xs)

  swapped : {x y z : A} {zs : List A} → Memᴰ z (x ∷ y ∷ zs) → Memᴰ z (y ∷ x ∷ zs)
  swapped (Memᴰ.head p) = Memᴰ.tail (Memᴰ.head p)
  swapped (Memᴰ.tail (Memᴰ.head p)) = Memᴰ.head p
  swapped (Memᴰ.tail (Memᴰ.tail m)) = Memᴰ.tail (Memᴰ.tail m)

  -- The head stays, and the rest goes where it goes.
  under : {x z : A} {xs ys : List A} → (Memᴰ z xs → Memᴰ z ys) → Memᴰ z (x ∷ xs) → Memᴰ z (x ∷ ys)
  under f (Memᴰ.head p) = Memᴰ.head p
  under f (Memᴰ.tail m) = Memᴰ.tail (f m)

  place-mem : (x : A) (xs : List A) {z : A} → Memᴰ z (place x xs) → Memᴰ z (x ∷ xs)
  unfolding place
  place-mem x [] m = m
  place-mem x (y ∷ ys) m = elim (Bool-cases (leb (key x) (key y))) [
    | inl before ↦ rw before at m
    | inr behind ↦ swapped (under (place-mem x ys) (rw behind at m))
  ]

  mem-place : (x : A) (xs : List A) {z : A} → Memᴰ z (x ∷ xs) → Memᴰ z (place x xs)
  unfolding place
  mem-place x [] m = m
  mem-place x (y ∷ ys) m = elim (Bool-cases (leb (key x) (key y))) [
    | inl before ↦ rw before m
    | inr behind ↦ rw behind (under (mem-place x ys) (swapped m))
  ]

  pub sort_by-mem : (xs : List A) {z : A} → Memᴰ z (sort_by xs) → Memᴰ z xs
  unfolding sort_by
  sort_by-mem [] m = m
  sort_by-mem (x ∷ xs) m = under (sort_by-mem xs) (place-mem x (sort_by xs) m)

  pub mem-sort_by : (xs : List A) {z : A} → Memᴰ z xs → Memᴰ z (sort_by xs)
  unfolding sort_by
  mem-sort_by [] m = m
  mem-sort_by (x ∷ xs) m = mem-place x (sort_by xs) (under (mem-sort_by xs) m)

  All-place :
      (t : ℕ) (x : A) (xs : List A)
      → t ≤ key x
      → All (λ y. t ≤ key y) xs
      → All (λ y. t ≤ key y) (place x xs)
  unfolding place
  All-place t x [] h all = (h, tt)
  All-place t x (y ∷ ys) h all = elim (Bool-cases (leb (key x) (key y))) [
    | inl before ↦ rw before (h, all)
    | inr behind ↦ rw behind (all.0, All-place t x ys h all.1)
  ]

  pub All-later :
      (s t : ℕ) (xs : List A) → s ≤ t → All (λ y. t ≤ key y) xs → All (λ y. s ≤ key y) xs
  All-later s t [] h all = tt
  All-later s t (x ∷ xs) h all = (omega (arith, h, all.0), All-later s t xs h all.1)

  place-IsAscending : (x : A) (xs : List A) → IsAscending xs → IsAscending (place x xs)
  unfolding place
  place-IsAscending x [] h = (tt, tt)
  place-IsAscending x (y ∷ ys) h = elim (Bool-cases (leb (key x) (key y))) [
    | inl before ↦
        let le : key x ≤ key y = ground (arith, before) in
        rw before ((le, All-later (key x) (key y) ys le h.0), h)
    | inr behind ↦
        rw behind (All-place (key y) x ys (ground (arith, behind)) h.0, place-IsAscending x ys h.1)
  ]

  pub sort_by-IsAscending : (xs : List A) → IsAscending (sort_by xs)
  unfolding sort_by
  sort_by-IsAscending [] = tt
  sort_by-IsAscending (x ∷ xs) = place-IsAscending x (sort_by xs) (sort_by-IsAscending xs)
