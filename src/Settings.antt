-- ===== src/Settings.antt =====
-- mysql-internal/collector/config.py: the settings of the collector of one target, from environment
-- variables, and connection.py with sinks/__init__.py: what is made of them.
pub mod PlanSink
pub mod Connection
pub mod Accepted
mod Tests
use azure_mysql_monitoring.Prelude.{if◌then◌else◌, is_empty, String, not, Option, List, [], ◌∷◌}
use azure_mysql_monitoring.Prelude.Dict.{Dict, lookup, get_or}
use azure_mysql_monitoring.Prelude.Int.{ℤ}
use azure_mysql_monitoring.Prelude.Result.{Result, ok, ◌>>=◌, ◌>>◌, raise_if, or_raise}
use azure_mysql_monitoring.Prelude.Text.{is_blank, strip, contains}
use azure_mysql_monitoring.Spool.Step.{then}

pub data ConfigError : Type 0 where
  required bad_tier bad_port : String → ConfigError
  adx_missing : List String → ConfigError

abbrev pub valid_tiers : List String
valid_tiers = "premium-ssd-v1" ∷ "premium-ssd-v2" ∷ []

pub record Config : Type 0 where
  pub host : String
  pub user : String
  pub password : String
  pub database : String
  pub tier : String
  pub run_id : String
  pub port : ℤ
  pub ssl_ca : String
  pub adx_ingest_uri : String
  pub adx_cluster_uri : String
  pub adx_database : String

-- `os.environ`
abbrev pub Environ : Type 0
Environ = Dict String

-- `_require`
unfoldable pub require : Environ → String → Result ConfigError String
unfolding strip lookup
require environ name =
    let value = strip (get_or name environ "") in
    raise_if (is_blank value) (required name) >> ok value

-- `_optional`
unfoldable pub optional : Environ → String → String → String
unfolding strip lookup
optional environ name default = strip (get_or name environ default)

-- The call of the constructor, once the required values are there.
abbrev pub config_with : Environ → String → ℤ → String → String → String → String → String → Config
config_with environ tier port host user password database run_id = record {
  host = host;
  user = user;
  password = password;
  database = database;
  tier = tier;
  run_id = run_id;
  port = port;
  ssl_ca = optional environ "MYSQL_SSL_CA" "";
  adx_ingest_uri = optional environ "ADX_INGEST_URI" "";
  adx_cluster_uri = optional environ "ADX_CLUSTER_URI" "";
  adx_database = optional environ "ADX_DATABASE" "";
}

-- `Config.from_env`, where Python's `int` reads a text or raises `ValueError`.
unfoldable pub from_env : (String → Option ℤ) → Environ → Result ConfigError Config
unfolding require optional
from_env to_int environ = do
  tier ← require environ "MYSQL_TIER"
  raise_if (not (contains valid_tiers tier)) (bad_tier tier)
  port ←
      or_raise (to_int (optional environ "MYSQL_PORT" "3306"))
        (bad_port (optional environ "MYSQL_PORT" "3306"))
  host ← require environ "MYSQL_HOST"
  user ← require environ "MYSQL_USER"
  password ← require environ "MYSQL_PASSWORD"
  database ← require environ "MYSQL_DB"
  run_id ← require environ "RUN_ID"
  ok (config_with environ tier port host user password database run_id)

-- The names whose values are empty.
unfoldable pub unset_names : List (String × String) → List String
unset_names [] = []
unset_names ((name, value) ∷ rest) =
    if is_blank value then name ∷ unset_names rest else unset_names rest

-- `Config.require_adx`
unfoldable pub require_adx : Config → Result ConfigError (Unit {0})
unfolding unset_names
require_adx config =
    let missing =
      unset_names
        (("ADX_INGEST_URI", config.adx_ingest_uri) ∷ ("ADX_DATABASE", config.adx_database) ∷ []) in
    raise_if (not (is_empty missing)) (adx_missing missing)

-- `value or default`
abbrev or_else : String → String → String
or_else value default = if is_blank value then default else value

-- `Config.describe`, where `write_port` is `str`.
unfoldable pub describe : (ℤ → String) → Config → Dict String
describe write_port config =
    ("host", config.host)
    ∷ ("port", write_port config.port)
    ∷ ("user", config.user)
    ∷ ("password", "***redacted***")
    ∷ ("database", config.database)
    ∷ ("tier", config.tier)
    ∷ ("run_id", config.run_id)
    ∷ ("ssl_ca", or_else config.ssl_ca "(system trust store)")
    ∷ ("adx_ingest_uri", or_else config.adx_ingest_uri "(unset)")
    ∷ ("adx_cluster_uri", or_else config.adx_cluster_uri "(unset)")
    ∷ ("adx_database", or_else config.adx_database "(unset)")
    ∷ []
