-- ===== src/Prelude/Dict.antt =====
-- Python's `dict` with text keys: an association list in order of insertion.
use Prim.Native.String.{String}
use mathlib.Core.Path.{◌≡◌, refl, subst, sym}
use mathlib.Core.Logic.{inl, inr}
use mathlib.Core.Bool.{Bool, true, false, not, ◌||◌}
use mathlib.Core.Option.{Option, none, some, some-injective}
use mathlib.Core.List.{List, [], ◌∷◌, map}
use native.Mathlib.Omega.{arith}
use text.Mathlib.Text.{◌==◌}
use text.Mathlib.TextEquality.{eq_iff}
use azure_mysql_monitoring.Prelude.Tests.{if◌then◌else◌, Bool-cases}
use azure_mysql_monitoring.Prelude.Lists.{All}
use azure_mysql_monitoring.Prelude.Text.{contains}

abbrev pub Dict {ℓ} : Type ℓ → Type ℓ
Dict V = List (String × V)

module _ {ℓ} {V : Type ℓ} where
  abbrev pub keys : Dict V → List String
  keys d = map (λ e. e.0) d

  unfoldable pub lookup : String → Dict V → Option V
  lookup k [] = none
  lookup k ((j, v) ∷ d) = if j == k then some v else lookup k d

  -- `d.get(k, default)`
  abbrev pub get_or : String → Dict V → V → V
  get_or k d v = elim (lookup k d) [ none ↦ v | some w ↦ w ]

  -- `d[k] = v`: a key that is there keeps its place.
  unfoldable pub insert : String → V → Dict V → Dict V
  insert k v [] = (k, v) ∷ []
  insert k v ((j, w) ∷ d) = if j == k then (j, v) ∷ d else (j, w) ∷ insert k v d

  -- `del d[k]`
  unfoldable pub remove : String → Dict V → Dict V
  remove k [] = []
  remove k ((j, v) ∷ d) = if j == k then d else (j, v) ∷ remove k d

  -- `k in d`
  abbrev pub has : String → Dict V → Bool
  has k d = elim (lookup k d) [ none ↦ false | some _ ↦ true ]

  -- `set(d) - allowed` is not empty.
  unfoldable pub has_unknown : List String → Dict V → Bool
  has_unknown allowed [] = false
  has_unknown allowed ((k, v) ∷ d) = not (contains allowed k) || has_unknown allowed d

  pub lookup-nil : (k : String) → lookup k [] ≡ none
  unfolding lookup
  lookup-nil k = refl

  pub lookup-insert :
      (k j : String) (v : V) (d : Dict V)
      → lookup j (insert k v d) ≡ (if k == j then some v else lookup j d)
  unfolding lookup insert
  lookup-insert k j v [] = refl
  lookup-insert k j v ((i, w) ∷ d) =
      ground (arith, eq_iff k j, eq_iff i k, eq_iff i j, lookup-insert k j v d)

  pub contains-keys : (k : String) (d : Dict V) → contains (keys d) k ≡ has k d
  unfolding lookup
  contains-keys k [] = refl
  contains-keys k ((j, v) ∷ d) = ground (arith, contains-keys k d)

  -- What holds of every value stays so under writes and deletions.
  module _ {κ} (P : V → Type κ) where
    abbrev pub Values : Dict V → Type κ
    Values d = All (λ e. P e.1) d

    pub Values-insert : (k : String) (v : V) (d : Dict V) → P v → Values d → Values (insert k v d)
    unfolding insert
    Values-insert k v [] p h = (p, tt)
    Values-insert k v ((j, w) ∷ d) p h = elim (Bool-cases (j == k)) [
      | inl e ↦ rw e (p, h.1)
      | inr e ↦ rw e (h.0, Values-insert k v d p h.1)
    ]

    pub Values-remove : (k : String) (d : Dict V) → Values d → Values (remove k d)
    unfolding remove
    Values-remove k [] h = tt
    Values-remove k ((j, w) ∷ d) h = elim (Bool-cases (j == k)) [
      | inl e ↦ rw e h.1
      | inr e ↦ rw e (h.0, Values-remove k d h.1)
    ]

    pub Values-lookup : (k : String) (d : Dict V) {v : V} → Values d → lookup k d ≡ some v → P v
    unfolding lookup
    Values-lookup k [] h e = cc
    Values-lookup k ((j, w) ∷ d) {v} h e = elim (Bool-cases (j == k)) [
      | inl q ↦ subst_value (rw q at e) h.0
      | inr q ↦ Values-lookup k d h.1 (rw q at e)
    ]
      where
        subst_value : some w ≡ some v → P w → P v
        subst_value p x = subst P (some-injective w v p) x

-- What holds of every entry stays so too.
module _ {ℓ κ} {V : Type ℓ} (P : String × V → Type κ) where
  pub insert-All : (k : String) (v : V) (d : Dict V) → P (k, v) → All P d → All P (insert k v d)
  unfolding insert
  insert-All k v [] p h = (p, tt)
  insert-All k v ((j, w) ∷ d) p h = elim (Bool-cases (j == k)) [
    | inl e ↦ rw e (subst (λ i. P (i, v)) (sym ((eq_iff j k).0 e)) p, h.1)
    | inr e ↦ rw e (h.0, insert-All k v d p h.1)
  ]

  pub remove-All : (k : String) (d : Dict V) → All P d → All P (remove k d)
  unfolding remove
  remove-All k [] h = tt
  remove-All k ((j, w) ∷ d) h = elim (Bool-cases (j == k)) [
    | inl e ↦ rw e h.1
    | inr e ↦ rw e (h.0, remove-All k d h.1)
  ]

pub some-ne-none {ℓ} : {A : Type ℓ} {o : Option A} {a : A} → o ≡ none → o ≡ some a → ⊥
some-ne-none h e = cc (h, e)

-- No key is there twice.
abbrev pub Distinct : {V : Type 0} → Dict V → Type 0
Distinct [] = Unit
Distinct ((k, v) ∷ d) = (lookup k d ≡ none) × Distinct d

pub lookup-remove_key :
    {V : Type 0} (k j : String) (d : Dict V)
    → Distinct d
    → lookup j (remove k d) ≡ (if k == j then none else lookup j d)
unfolding lookup remove
lookup-remove_key k j [] h = ground arith
lookup-remove_key k j ((i, v) ∷ d) h =
    ground (arith, h.0, eq_iff i k, eq_iff i j, eq_iff k j, lookup-remove_key k j d h.1)

pub Distinct-insert :
    {V : Type 0} (k : String) (v : V) (d : Dict V) → Distinct d → Distinct (insert k v d)
unfolding lookup insert
Distinct-insert k v [] h = (refl, tt)
Distinct-insert k v ((j, w) ∷ d) h = elim (Bool-cases (j == k)) [
  | inl e ↦ rw e h
  | inr e ↦ rw e (
    ground (arith, h.0, e, eq_iff j k, eq_iff k j, lookup-insert k j v d),
    Distinct-insert k v d h.1,
  )
]

pub Distinct-remove : {V : Type 0} (k : String) (d : Dict V) → Distinct d → Distinct (remove k d)
unfolding lookup remove
Distinct-remove k [] h = tt
Distinct-remove k ((j, w) ∷ d) h = elim (Bool-cases (j == k)) [
  | inl e ↦ rw e h.1
  | inr e ↦ rw e (ground (arith, h.0, lookup-remove_key k j d h.1), Distinct-remove k d h.1)
]

-- What is found in a list is found behind another key too.
lookup-carried :
    {V : Type 0} (k : String) (v : V) (d es : Dict V)
    → lookup k es ≡ none
    → All (λ e. lookup e.0 d ≡ some e.1) es
    → All (λ e. lookup e.0 ((k, v) ∷ d) ≡ some e.1) es
unfolding lookup
lookup-carried k v d [] g h = tt
lookup-carried k v d ((j, w) ∷ es) g h = elim (Bool-cases (j == k)) [
  | inl e ↦ cc (rw e at g)
  | inr e ↦
      (ground (arith, h.0, e, eq_iff j k, eq_iff k j), lookup-carried k v d es (rw e at g) h.1)
]

pub lookup-Distinct : {V : Type 0} (d : Dict V) → Distinct d → All (λ e. lookup e.0 d ≡ some e.1) d
unfolding lookup
lookup-Distinct [] h = tt
lookup-Distinct ((k, v) ∷ d) h =
    (ground (arith, eq_iff k k), lookup-carried k v d d h.0 (lookup-Distinct d h.1))
