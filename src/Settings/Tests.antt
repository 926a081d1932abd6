-- ===== src/Settings/Tests.antt =====
-- Settings with a CA file, and the theorem about their connection.
use azure_mysql_monitoring.Prelude.{
  if◌then◌else◌, String, ◌≡◌, refl, ◌⊎◌, true, false, not, Option, none, some, [], ◌∷◌, ◌==◌,
}
use azure_mysql_monitoring.Prelude.Int.{ℤ, pos}
use azure_mysql_monitoring.Prelude.Result.{ok, err}
use azure_mysql_monitoring.Prelude.Text.{is_blank}
use azure_mysql_monitoring.Settings.{adx_missing, Config, Environ, from_env}
use azure_mysql_monitoring.Settings.Accepted.{IsComplete, connect_parameters-from_env, ConnectsAs}
use azure_mysql_monitoring.Settings.Connection.{
  ConnectParameters, parameters, connect_parameters, assert_tls, config_error, unknown_sink,
  build_sink,
}

abbrev environ : Environ
environ =
    ("MYSQL_TIER", "premium-ssd-v2")
    ∷ ("MYSQL_HOST", " db ")
    ∷ ("MYSQL_USER", "monitor")
    ∷ ("MYSQL_PASSWORD", "secret")
    ∷ ("MYSQL_DB", "app")
    ∷ ("RUN_ID", "run")
    ∷ ("MYSQL_SSL_CA", "ca.pem")
    ∷ []

abbrev to_int : String → Option ℤ
to_int digits = if digits == "3306" then some (pos 3306) else none

abbrev settings : Config
settings = record {
  host = "db";
  user = "monitor";
  password = "secret";
  database = "app";
  tier = "premium-ssd-v2";
  run_id = "run";
  port = pos 3306;
  ssl_ca = "ca.pem";
  adx_ingest_uri = "";
  adx_cluster_uri = "";
  adx_database = "";
}

read_settings : from_env to_int environ ≡ ok settings
unfolding from_env
read_settings = refl

-- A sink of ADX needs its settings, and an unknown one is refused.
sink_refused :
    (build_sink "adx-queued" settings
      ≡ err (config_error (adx_missing ("ADX_INGEST_URI" ∷ "ADX_DATABASE" ∷ []))))
    × (build_sink "csv" settings ≡ err (unknown_sink "csv"))
unfolding build_sink
sink_refused = (refl, refl)

not_encrypted : assert_tls (some ("Ssl_cipher", "")) ≡ none
unfolding assert_tls
not_encrypted = refl

abbrev connection : ConnectParameters
connection = parameters settings (some "ca.pem") true

connect_parameters-from_env_example :
    IsComplete settings
    × ConnectsAs settings connection
    × (connection.ssl_disabled ≡ false)
    × (connection.ssl_verify_cert ≡ not (is_blank settings.ssl_ca))
    × (connection.ssl_verify_identity ≡ connection.ssl_verify_cert)
    × (connection.ssl_ca ≡ (if is_blank settings.ssl_ca then none else some settings.ssl_ca))
    × ((connection.ssl_ca ≡ none) ⊎ (true ≡ true))
unfolding connect_parameters
connect_parameters-from_env_example =
    connect_parameters-from_env to_int (λ path. true) environ settings connection read_settings refl
