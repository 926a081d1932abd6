-- ===== src/Groups/Fit/Literals.antt =====
-- Which `dict` literals suit a measurement, tested on the names and the types of their values, which
-- are fixed in the source; and that their points are accepted.
use azure_mysql_monitoring.Prelude.{
  if◌then◌else◌, Option-cases, is_empty, All, ℕ, String, ◌≡◌, refl, ap, inl, inr, Bool, true, false,
  not, ◌&&◌, none, some, List, [], ◌∷◌, arith, any, Bool-cases, sym,
}
use azure_mysql_monitoring.Groups.Fit.{Fits, >>=-Fits, IsAccepted, tried-Fits}
use azure_mysql_monitoring.Groups.Fit.Points.{accepted_point, IsMeasured, point-Fits}
use azure_mysql_monitoring.Groups.Rows.{
  Raising, Literal, whole, decimal, word, dict, value_of_literal, point, Tried, tried,
}
use azure_mysql_monitoring.Prelude.Dict.{Dict, keys, lookup, has, contains-keys}
use azure_mysql_monitoring.Prelude.Int.{ℤ}
use azure_mysql_monitoring.Prelude.Result.{◌>>=◌}
use azure_mysql_monitoring.Prelude.Text.{contains, is_blank}
use azure_mysql_monitoring.Telemetry.Point.{
  FieldValue, integer, real, text, ValueType, int_type, float_type, bool_type, str_type, FieldSpec,
  MeasurementSpec, has_type, TelemetryContext,
}

accepts : ValueType → Literal → Bool
accepts int_type (whole m) = true
accepts float_type (whole m) = true
accepts float_type (decimal m) = true
accepts str_type (word s) = true
accepts _ _ = false

suit : Dict FieldSpec → Dict Literal → Bool
unfolding lookup accepts
suit specs [] = true
suit specs ((name, literal) ∷ rest) =
    elim (lookup name specs) [ none ↦ false | some f ↦ accepts f.value_type literal ]
    && suit specs rest

all_in : List String → List String → Bool
all_in [] known = true
all_in (name ∷ names) known = contains known name && all_in names known

required : Dict FieldSpec → List String
required [] = []
required ((name, spec) ∷ rest) = if spec.required then name ∷ required rest else required rest

-- No name is blank, the fields suit, and the required fields and the tags are there.
unfoldable pub suits : MeasurementSpec → Dict Literal → List String → Bool
unfolding suit all_in required
suits spec literals tags =
    not (is_empty literals)
    && (suit spec.fields literals
        && (all_in (required spec.fields) (keys literals)
            && (all_in tags spec.tags
                && (all_in spec.tags tags
                    && (not (any is_blank (keys literals)) && not (any is_blank tags))))))

-- A computed field has the name and the type of its literal.
abbrev Typed : Dict FieldSpec → Dict FieldValue → Type 0
Typed specs fields =
    All (λ e. (f : FieldSpec) × (lookup e.0 specs ≡ some f) × (has_type f.value_type e.1 ≡ true))
      fields

abbrev Computed : Dict FieldSpec → Dict Literal → Dict FieldValue → Type 0
Computed specs literals fields = (keys fields ≡ keys literals) × Typed specs fields

value_of_literal-Fits :
    (f : FieldSpec) (literal : Literal)
    → accepts f.value_type literal ≡ true
    → Fits (λ v. has_type f.value_type v ≡ true) (value_of_literal literal)
unfolding accepts value_of_literal has_type Fits
value_of_literal-Fits f (whole m) a =
    >>=-Fits _ (tried m) _ (tried-Fits m) λ z _. whole_type f.value_type m z a
  where
    whole_type :
        (t : ValueType) (m : Tried ℤ) (z : ℤ)
        → accepts t (whole m) ≡ true
        → has_type t (integer z) ≡ true
    whole_type int_type m z h = refl
    whole_type float_type m z h = refl
    whole_type bool_type m z h = cc h
    whole_type str_type m z h = cc h
value_of_literal-Fits f (decimal m) a =
    >>=-Fits _ (tried m) _ (tried-Fits m) λ n _. decimal_type f.value_type m n a
  where
    decimal_type :
        (t : ValueType) (m : Tried (ℤ × ℕ)) (n : ℤ × ℕ)
        → accepts t (decimal m) ≡ true
        → has_type t (real n.0 n.1) ≡ true
    decimal_type int_type m n h = cc h
    decimal_type float_type m n h = refl
    decimal_type bool_type m n h = cc h
    decimal_type str_type m n h = cc h
value_of_literal-Fits f (word s) a = word_type f.value_type a
  where
    word_type : (t : ValueType) → accepts t (word s) ≡ true → has_type t (text s) ≡ true
    word_type int_type h = cc h
    word_type float_type h = cc h
    word_type bool_type h = cc h
    word_type str_type h = refl

dict-Fits :
    (specs : Dict FieldSpec) (literals : Dict Literal)
    → suit specs literals ≡ true
    → Fits (Computed specs literals) (dict literals)
unfolding dict suit Fits
dict-Fits specs [] h = (refl, tt)
dict-Fits specs ((name, literal) ∷ rest) h = elim (Option-cases (lookup name specs)) [
  | inl e ↦ cc (rw (e, suit) at h)
  | inr (f, e) ↦
      let h' = rw (e, suit) at h in
      let fit : accepts f.value_type literal ≡ true = ground (arith, h') in
      let others : suit specs rest ≡ true = ground (arith, h') in
      >>=-Fits _ (value_of_literal literal) _ (value_of_literal-Fits f literal fit) λ v typed.
        >>=-Fits _ (dict rest) _ (dict-Fits specs rest others)
          λ fields computed. (ap (λ names. name ∷ names) computed.0, ((f, e, typed), computed.1))
]

all_in-All :
    (names known : List String)
    → all_in names known ≡ true
    → All (λ name. contains known name ≡ true) names
unfolding all_in
all_in-All [] known h = tt
all_in-All (name ∷ names) known h = (ground (arith, h), all_in-All names known (ground (arith, h)))

required_complete :
    (specs : Dict FieldSpec) (fields : Dict FieldValue)
    → all_in (required specs) (keys fields) ≡ true
    → All (λ e. (e.1.required && not (has e.0 fields)) ≡ false) specs
unfolding all_in required
required_complete [] fields h = tt
required_complete ((name, spec) ∷ specs) fields h = elim (Bool-cases spec.required) [
  | inl e ↦
      let h' = rw e at h in
      let there : has name fields ≡ true =
        rw (sym (contains-keys name fields)) (ground (arith, h')) in
      (rw (e, there) refl, required_complete specs fields (ground (arith, h')))
  | inr e ↦ (rw e refl, required_complete specs fields (rw e at h))
]

is_empty-keys :
    {V W : Type 0} (d : Dict V) (e : Dict W)
    → keys d ≡ keys e
    → is_empty e ≡ false
    → is_empty d ≡ false
is_empty-keys [] [] k h = h
is_empty-keys [] (x ∷ e) k h = cc k
is_empty-keys (x ∷ d) e k h = refl

-- A literal that suits a measurement raises no contract error, and its point is accepted.
pub literals-Fits :
    {B : Type 0} (P : B → Type 0) (context : TelemetryContext) (observed_at name : String)
    (spec : MeasurementSpec) (literals : Dict Literal) (tags : Dict String)
    (k : Dict FieldValue → Raising B)
    → is_blank name ≡ false
    → IsMeasured name spec
    → suits spec literals (keys tags) ≡ true
    → ((fields : Dict FieldValue)
        → Fits IsAccepted (point context observed_at name fields tags)
        → Fits P (k fields))
    → Fits P (dict literals >>= k)
unfolding suits accepted_point
literals-Fits P context observed_at name spec literals tags k named measured suited rest =
    let suited_fields : suit spec.fields literals ≡ true = ground (arith, suited) in
    let filled : is_empty literals ≡ false = ground (arith, suited) in
    let needed : all_in (required spec.fields) (keys literals) ≡ true = ground (arith, suited) in
    let known : all_in (keys tags) spec.tags ≡ true = ground (arith, suited) in
    let given : all_in spec.tags (keys tags) ≡ true = ground (arith, suited) in
    let keyed : any is_blank (keys literals) ≡ false = ground (arith, suited) in
    let labelled : any is_blank (keys tags) ≡ false = ground (arith, suited) in
    >>=-Fits P (dict literals) k (dict-Fits spec.fields literals suited_fields) λ fields computed.
      rest fields (
        point-Fits context observed_at name fields tags spec named
          (is_empty-keys fields literals computed.0 filled) (rw computed.0 keyed) labelled measured
          (record {
            typed = computed.1;
            complete = required_complete spec.fields fields (rw computed.0 needed);
            tags_known = all_in-All (keys tags) spec.tags known;
            tags_given = all_in-All spec.tags (keys tags) given;
          }))
