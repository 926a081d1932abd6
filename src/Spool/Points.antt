-- ===== src/Spool/Points.antt =====
-- spool.py: `write_metrics`, `write_events` and `write_points`, and the settings of `SpoolConfig`.
use azure_mysql_monitoring.Prelude.{
  Bool, if◌then◌else◌, ℕ, zero, suc, String, ◌≡◌, true, false, not, Option, List, arith,
}
use azure_mysql_monitoring.Prelude.Dict.{Dict, lookup, get_or}
use azure_mysql_monitoring.Prelude.Int.{ℤ, pos, negsuc}
use azure_mysql_monitoring.Prelude.Result.{
  Result, ok, ◌>>=◌, ◌>>◌, raise_if, or_raise, raise_if-eq-ok,
}
use azure_mysql_monitoring.Spool.Codec.{Row, Codec}
use azure_mysql_monitoring.Spool.Store.{Spool}
use azure_mysql_monitoring.Spool.Write.{Outside, write_projected}

module _ {Line : Type 0} (codec : Codec Line) (out : Outside Line) where
  -- `write_metrics`
  unfoldable pub spool_metrics : List Row → Spool Line → Bool × Spool Line
  unfolding write_projected
  spool_metrics rows s = write_projected codec out rows "MysqlMetrics" "MysqlMetricsMapping" s

  -- `write_events`
  unfoldable pub spool_events : List Row → Spool Line → Bool × Spool Line
  unfolding write_projected
  spool_events rows s = write_projected codec out rows "MysqlEvents" "MysqlEventsMapping" s

  -- `write_points`, for the packed rows and the rows of the series: an exception of the first write
  -- leaves out the second.
  unfoldable pub spool_points : List Row → List Row → Spool Line → Bool × Spool Line
  unfolding write_projected
  spool_points packed series s =
      let (alive, s') =
        write_projected codec out packed "MysqlTelemetry" "MysqlTelemetryMapping" s in
      let both =
        write_projected codec out series "MysqlMetricSeries" "MysqlMetricSeriesMapping" s' in
      if alive then both else (false, s')

-- `ValueError` of the settings.
pub data SpoolConfigError : Type 0 where
  not_numeric : SpoolConfigError
  not_positive : String → SpoolConfigError

-- The directory, and the numbers; a float is mantissa / 10 ^ scale.
pub record SpoolConfig : Type 0 where
  pub directory : String
  pub max_bytes : ℤ
  pub replay_seconds : ℤ × ℕ
  pub confirmation_timeout_seconds : ℤ × ℕ

abbrev pub is_positive : ℤ → Bool
is_positive (pos zero) = false
is_positive (pos (suc n)) = true
is_positive (negsuc n) = false

-- The three checks, and the settings.
unfoldable pub check_settings : String → ℤ → ℤ × ℕ → ℤ × ℕ → Result SpoolConfigError SpoolConfig
check_settings directory max_bytes replay timeout = do
  raise_if (not (is_positive max_bytes)) (not_positive "COLLECTOR_SPOOL_MAX_BYTES")
  raise_if (not (is_positive replay.0)) (not_positive "COLLECTOR_SPOOL_REPLAY_SECONDS")
  raise_if (not (is_positive timeout.0))
      (not_positive "COLLECTOR_SPOOL_CONFIRMATION_TIMEOUT_SECONDS")
  ok (record {
    directory = directory;
    max_bytes = max_bytes;
    replay_seconds = replay;
    confirmation_timeout_seconds = timeout;
  })

-- `SpoolConfig.from_env`, where Python's `int` and `float` read a text or raise `ValueError`.
unfoldable pub spool_config :
    (String → Option ℤ)
    → (String → Option (ℤ × ℕ))
    → Dict String
    → Result SpoolConfigError SpoolConfig
unfolding lookup check_settings
spool_config to_int to_float environ = do
  max_bytes ←
      or_raise (to_int (get_or "COLLECTOR_SPOOL_MAX_BYTES" environ "1073741824")) not_numeric
  replay ← or_raise (to_float (get_or "COLLECTOR_SPOOL_REPLAY_SECONDS" environ "30.0")) not_numeric
  timeout ←
      or_raise (to_float (get_or "COLLECTOR_SPOOL_CONFIRMATION_TIMEOUT_SECONDS" environ "3600.0"))
        not_numeric
  check_settings (get_or "COLLECTOR_SPOOL_DIR" environ "/var/lib/azure-mysql-monitoring/spool")
      max_bytes replay timeout

-- Settings that pass the checks have a positive limit and positive times.
pub check_settings_positive :
    (directory : String) (m : ℤ) (r t : ℤ × ℕ) (c : SpoolConfig)
    → check_settings directory m r t ≡ ok c
    → (is_positive c.max_bytes ≡ true)
      × (is_positive c.replay_seconds.0 ≡ true)
      × (is_positive c.confirmation_timeout_seconds.0 ≡ true)
unfolding check_settings
check_settings_positive directory m r t c h =
    let (good_m, h₁) = raise_if-eq-ok (not (is_positive m)) _ _ h in
    let (good_r, h₂) = raise_if-eq-ok (not (is_positive r.0)) _ _ h₁ in
    let (good_t, h₃) = raise_if-eq-ok (not (is_positive t.0)) _ _ h₂ in
    ground (arith, good_m, good_r, good_t, h₃)
