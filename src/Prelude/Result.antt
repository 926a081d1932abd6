-- ===== src/Prelude/Result.antt =====
-- Code that may raise: a value, or the exception that ends it.
use mathlib.Core.Path.{◌≡◌, refl}
use mathlib.Core.Logic.{◌⊎◌, inl, inr}
use mathlib.Core.Bool.{Bool, true, false}
use mathlib.Core.Option.{Option, none, some}

pub data Result {ℓ} (E : Type 0) (A : Type ℓ) : Type ℓ where
  ok : A → Result E A
  err : E → Result E A

module _ {E : Type 0} where
  infixl 5 ◌>>=◌ ◌>>◌
  abbrev pub ◌>>=◌ {ℓ κ} : {A : Type ℓ} {B : Type κ} → Result E A → (A → Result E B) → Result E B
  err raised >>= next = err raised
  ok value >>= next = next value

  abbrev pub ◌>>◌ {ℓ} : {B : Type ℓ} → Result E (Unit {0}) → Result E B → Result E B
  m >> k = m >>= λ _. k

  -- `if bad: raise e`
  abbrev pub raise_if : Bool → E → Result E (Unit {0})
  raise_if true e = err e
  raise_if false e = ok tt

  -- A value that is there, or the exception of its absence.
  abbrev pub or_raise {ℓ} : {A : Type ℓ} → Option A → E → Result E A
  or_raise none e = err e
  or_raise (some a) e = ok a

  -- Inversion of a successful chain.
  pub >>=-eq-ok {ℓ κ} :
      {A : Type ℓ} {B : Type κ} (m : Result E A) (next : A → Result E B) {result : B}
      → (m >>= next) ≡ ok result
      → (value : A) × (m ≡ ok value) × (next value ≡ ok result)
  >>=-eq-ok (err raised) next h = cc
  >>=-eq-ok (ok value) next h = (value, refl, h)

  pub raise_if-eq-ok {ℓ} :
      {B : Type ℓ} (c : Bool) (e : E) (k : Result E B) {b : B}
      → (raise_if c e >> k) ≡ ok b
      → (c ≡ false) × (k ≡ ok b)
  raise_if-eq-ok true e k h = cc
  raise_if-eq-ok false e k h = (refl, h)

  pub or_raise-eq-ok {ℓ} :
      {A : Type ℓ} (o : Option A) (e : E) {a : A} → or_raise o e ≡ ok a → o ≡ some a
  or_raise-eq-ok none e h = cc
  or_raise-eq-ok (some x) e h = cc

  pub Result-cases {ℓ} :
      {A : Type ℓ} (r : Result E A) → ((a : A) × (r ≡ ok a)) ⊎ ((e : E) × (r ≡ err e))
  Result-cases (ok a) = inl (a, refl)
  Result-cases (err e) = inr (e, refl)
