-- ===== src/Settings/Connection.antt =====
-- mysql-internal/collector/connection.py: the parameters of `connect` and `assert_tls`; and
-- sinks/__init__.py: `build_sink`.
use azure_mysql_monitoring.Prelude.{
  if◌then◌else◌, ℕ, String, Bool, true, false, not, Option, none, some, ◌==◌,
}
use azure_mysql_monitoring.Prelude.Int.{ℤ}
use azure_mysql_monitoring.Prelude.Result.{Result, ok, err, ◌>>◌, raise_if}
use azure_mysql_monitoring.Prelude.Text.{is_blank}
use azure_mysql_monitoring.Settings.{ConfigError, Config, require_adx}

-- What `mysql.connector.connect` is called with.
pub record ConnectParameters : Type 0 where
  pub host : String
  pub port : ℤ
  pub user : String
  pub password : String
  pub database : String
  pub ssl_disabled : Bool
  pub connection_timeout : ℕ
  pub use_pure : Bool
  pub autocommit : Bool
  pub time_zone : String
  -- the CA file, with which the certificate and the name of the server are verified
  pub ssl_ca : Option String
  pub ssl_verify_cert : Bool
  pub ssl_verify_identity : Bool

-- `FileNotFoundError` of the CA file.
pub data ConnectError : Type 0 where
  missing_file : String → ConnectError

abbrev pub parameters : Config → Option String → Bool → ConnectParameters
parameters config ssl_ca verify = record {
  host = config.host;
  port = config.port;
  user = config.user;
  password = config.password;
  database = config.database;
  ssl_disabled = false;
  connection_timeout = 10;
  use_pure = true;
  autocommit = true;
  time_zone = "+00:00";
  ssl_ca = ssl_ca;
  ssl_verify_cert = verify;
  ssl_verify_identity = verify;
}

-- `connect` up to the call of the driver, which files exist being a parameter.
unfoldable pub connect_parameters : (String → Bool) → Config → Result ConnectError ConnectParameters
connect_parameters is_file config =
    if is_blank config.ssl_ca
    then ok (parameters config none false)
    else raise_if (not (is_file config.ssl_ca)) (missing_file config.ssl_ca)
      >> ok (parameters config (some config.ssl_ca) true)

-- `assert_tls`, of the row that the server answers with: a name and the cipher. `none` is the
-- `RuntimeError`.
unfoldable pub assert_tls : Option (String × String) → Option String
assert_tls none = none
assert_tls (some (name, cipher)) = if is_blank cipher then none else some cipher

pub data SinkKind : Type 0 where
  jsonl adx_streaming adx_queued adx_resilient : SinkKind

pub data SinkError : Type 0 where
  config_error : ConfigError → SinkError
  unknown_sink : String → SinkError

with_adx : Result ConfigError (Unit {0}) → SinkKind → Result SinkError SinkKind
with_adx (ok _) kind = ok kind
with_adx (err e) kind = err (config_error e)

-- `build_sink`, up to the constructors of the sinks, with what `require_adx` says.
unfoldable pub build_sink_with : Result ConfigError (Unit {0}) → String → Result SinkError SinkKind
unfolding with_adx
build_sink_with has_adx kind =
    if kind == "jsonl"
    then ok jsonl
    else if kind == "adx-streaming"
    then with_adx has_adx adx_streaming
    else if kind == "adx-queued"
    then with_adx has_adx adx_queued
    else if kind == "adx-resilient"
    then with_adx has_adx adx_resilient
    else err (unknown_sink kind)

-- `build_sink` with the settings of one target.
unfoldable pub build_sink : String → Config → Result SinkError SinkKind
unfolding build_sink_with require_adx
build_sink kind config = build_sink_with (require_adx config) kind
