-- ===== src/Plan/Document.antt =====
-- mysql-internal/collector/plan.py: the values that `yaml.safe_load` returns, and the tests that
-- the compiler makes on them. A mapping has text keys, each once, in the order of the document.
use azure_mysql_monitoring.Prelude.{eqb, ℕ, ◌^◌, String, Bool, true, false, not, List, [], ◌∷◌}
use azure_mysql_monitoring.Prelude.Dict.{Dict}
use azure_mysql_monitoring.Prelude.Int.{ℤ, pos, negsuc, is_zero}
use azure_mysql_monitoring.Prelude.Text.{is_blank}

mutual
  pub data Value : Type 0 where
    obj : Fields → Value
    arr : Items → Value
    str : String → Value
    int : ℤ → Value
    -- mantissa / 10 ^ scale
    float : ℤ → ℕ → Value
    bool : Bool → Value
    null : Value

  pub data Fields : Type 0 where
    end : Fields
    field : String → Value → Fields → Fields

  pub data Items : Type 0 where
    nil : Items
    cons : Value → Items → Items

unfoldable pub entries : Fields → Dict Value
entries end = []
entries (field k v rest) = (k, v) ∷ entries rest

unfoldable pub elements : Items → List Value
elements nil = []
elements (cons v rest) = v ∷ elements rest

-- `value is False`
abbrev pub is_false : Value → Bool
is_false (bool false) = true
is_false _ = false

-- `bool(value)`
unfoldable pub truthy : Value → Bool
truthy null = false
truthy (bool b) = b
truthy (int z) = not (is_zero z)
truthy (float m s) = not (is_zero m)
truthy (str s) = not (is_blank s)
truthy (arr nil) = false
truthy (arr (cons v rest)) = true
truthy (obj end) = false
truthy (obj (field k v rest)) = true

eq_one : ℤ → ℕ → Bool
eq_one (pos m) s = eqb m (10 ^ s)
eq_one (negsuc m) s = false

-- `value == 1`, which Python also grants to `True` and to `1.0`.
unfoldable pub equals_one : Value → Bool
unfolding eq_one
equals_one (int z) = eq_one z 0
equals_one (bool b) = b
equals_one (float m s) = eq_one m s
equals_one _ = false
