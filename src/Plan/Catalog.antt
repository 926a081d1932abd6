-- ===== src/Plan/Catalog.antt =====
-- mysql-internal/collector/plan.py: the collection groups that the repository implements, with
-- the defaults and the safety floors of each. Intervals are in milliseconds.
use azure_mysql_monitoring.Prelude.{
  ℕ, ◌*◌, ◌≤◌, ◌<◌, Bool, true, false, Option, none, some, [], ◌∷◌, arith,
}
use azure_mysql_monitoring.Prelude.Dict.{Dict, Values}

-- `Cardinality` of telemetry.py.
pub data Cardinality : Type 0 where
  low bounded high : Cardinality

pub record CollectionGroupSpec : Type 0 where
  pub default_interval : ℕ
  pub minimum_interval : ℕ
  pub cardinality : Cardinality
  pub default_top_k : Option ℕ

abbrev spec : ℕ → ℕ → Cardinality → Option ℕ → CollectionGroupSpec
spec default minimum cardinality top_k = record {
  default_interval = default * 1000;
  minimum_interval = minimum * 1000;
  cardinality = cardinality;
  default_top_k = top_k;
}

-- `GROUP_CATALOG`, its intervals in seconds.
unfoldable pub group_catalog : Dict CollectionGroupSpec
group_catalog =
    ("global-status", spec 10 5 low none)
    ∷ ("innodb-metrics", spec 30 10 low none)
    ∷ ("error-log", spec 10 5 low none)
    ∷ ("collector-health", spec 10 5 low none)
    ∷ ("global-variables", spec 900 300 low none)
    ∷ ("file-io", spec 60 30 bounded (some 100))
    ∷ ("process-states", spec 60 30 low none)
    ∷ ("statement-digests", spec 60 30 high (some 50))
    ∷ ("schema-size", spec 900 300 high (some 500))
    ∷ ("table-io", spec 300 60 high (some 100))
    ∷ ("index-io", spec 300 60 high (some 100))
    ∷ []

abbrev pub is_high : Cardinality → Bool
is_high high = true
is_high _ = false

-- `cardinality in (BOUNDED, HIGH)`
abbrev pub needs_top_k : Cardinality → Bool
needs_top_k low = false
needs_top_k _ = true

-- The defaults keep the rules that the compiler holds the YAML to.
pub record IsSound (s : CollectionGroupSpec) : Type 0 where
  pub floor_positive : 0 < s.minimum_interval
  pub default_above_floor : s.minimum_interval ≤ s.default_interval

pub group_catalog-IsSound : Values IsSound group_catalog
unfolding group_catalog
group_catalog-IsSound = omega arith
