-- ===== src/Settings/Accepted.antt =====
-- What holds of settings that are accepted, and of the connection that is made with them.
use azure_mysql_monitoring.Prelude.{
  Bool-cases, String, ◌≡◌, refl, sym, ap, ◌∙◌, subst, ◌⊎◌, inl, inr, Bool, true, false, not, Option,
  none, some, arith, if◌then◌else◌,
}
use azure_mysql_monitoring.Prelude.Dict.{get_or}
use azure_mysql_monitoring.Prelude.Int.{ℤ}
use azure_mysql_monitoring.Prelude.Result.{ok, or_raise, >>=-eq-ok, raise_if-eq-ok}
use azure_mysql_monitoring.Prelude.Text.{is_blank, strip, contains}
use azure_mysql_monitoring.Runtime.Worker.{run}
use azure_mysql_monitoring.Settings.{
  required, bad_tier, bad_port, valid_tiers, Config, Environ, require, optional, from_env, describe,
  config_with,
}
use azure_mysql_monitoring.Settings.Connection.{
  ConnectParameters, missing_file, parameters, connect_parameters,
}

require-eq-ok :
    (environ : Environ) (name : String) {value : String}
    → require environ name ≡ ok value
    → is_blank value ≡ false
unfolding require
require-eq-ok environ name {value} h =
    let (filled, same) =
      raise_if-eq-ok (is_blank (strip (get_or name environ ""))) (required name) _ h in
    let same_text : strip (get_or name environ "") ≡ value = cc same in
    subst (λ v. is_blank v ≡ false) same_text filled

-- The settings that the collector cannot do without.
pub record IsComplete (config : Config) : Type 0 where
  pub has_host : is_blank config.host ≡ false
  pub has_user : is_blank config.user ≡ false
  pub has_password : is_blank config.password ≡ false
  pub has_database : is_blank config.database ≡ false
  pub has_run : is_blank config.run_id ≡ false
  pub known_tier : contains valid_tiers config.tier ≡ true

from_env-IsComplete :
    (to_int : String → Option ℤ) (environ : Environ) (config : Config)
    → from_env to_int environ ≡ ok config
    → IsComplete config
unfolding from_env
from_env-IsComplete to_int environ config h =
    let (tier, _, h₁) = >>=-eq-ok (require environ "MYSQL_TIER") _ h in
    let (known, h₂) = raise_if-eq-ok (not (contains valid_tiers tier)) (bad_tier tier) _ h₁ in
    let (port, _, h₃) =
      >>=-eq-ok
        (or_raise (to_int (optional environ "MYSQL_PORT" "3306"))
          (bad_port (optional environ "MYSQL_PORT" "3306")))
        _ h₂ in
    let (host, e₁, h₄) = >>=-eq-ok (require environ "MYSQL_HOST") _ h₃ in
    let (user, e₂, h₅) = >>=-eq-ok (require environ "MYSQL_USER") _ h₄ in
    let (password, e₃, h₆) = >>=-eq-ok (require environ "MYSQL_PASSWORD") _ h₅ in
    let (database, e₄, h₇) = >>=-eq-ok (require environ "MYSQL_DB") _ h₆ in
    let (run, e₅, h₈) = >>=-eq-ok (require environ "RUN_ID") _ h₇ in
    let known_tier : contains valid_tiers tier ≡ true = ground (arith, known) in
    let same : config_with environ tier port host user password database run ≡ config = cc h₈ in
    subst IsComplete same (record {
      has_host = require-eq-ok environ "MYSQL_HOST" e₁;
      has_user = require-eq-ok environ "MYSQL_USER" e₂;
      has_password = require-eq-ok environ "MYSQL_PASSWORD" e₃;
      has_database = require-eq-ok environ "MYSQL_DB" e₄;
      has_run = require-eq-ok environ "RUN_ID" e₅;
      known_tier = known_tier;
    })

-- The connection is to the server, for the account and with the database of the settings.
pub record ConnectsAs (config : Config) (p : ConnectParameters) : Type 0 where
  pub to_host : p.host ≡ config.host
  pub to_port : p.port ≡ config.port
  pub for_user : p.user ≡ config.user
  pub by_password : p.password ≡ config.password
  pub with_database : p.database ≡ config.database

connects_as :
    (config : Config) (ssl_ca : Option String) (verify : Bool)
    → ConnectsAs config (parameters config ssl_ca verify)
connects_as config ssl_ca verify = record {
  to_host = refl;
  to_port = refl;
  for_user = refl;
  by_password = refl;
  with_database = refl;
}

-- A connection that is made with accepted settings is to their host and port, for their user,
-- password and database, which are not blank, and is never without TLS. The server's certificate and
-- name are verified just when a CA file is set, which is then the one that is used, and exists.
pub connect_parameters-from_env :
    (to_int : String → Option ℤ) (is_file : String → Bool) (environ : Environ) (config : Config)
    (p : ConnectParameters)
    → from_env to_int environ ≡ ok config
    → connect_parameters is_file config ≡ ok p
    → IsComplete config
      × ConnectsAs config p
      × (p.ssl_disabled ≡ false)
      × (p.ssl_verify_cert ≡ not (is_blank config.ssl_ca))
      × (p.ssl_verify_identity ≡ p.ssl_verify_cert)
      × (p.ssl_ca ≡ (if is_blank config.ssl_ca then none else some config.ssl_ca))
      × ((p.ssl_ca ≡ none) ⊎ (is_file config.ssl_ca ≡ true))
unfolding connect_parameters
connect_parameters-from_env to_int is_file environ config p h c =
    let complete = from_env-IsComplete to_int environ config h in
    elim (Bool-cases (is_blank config.ssl_ca)) [
      | inl e ↦
          let same : parameters config none false ≡ p = cc (rw e at c) in
          (
            complete,
            subst (ConnectsAs config) same (connects_as config none false),
            ap (λ q. q.ssl_disabled) (sym same),
            rw e (ap (λ q. q.ssl_verify_cert) (sym same)),
            ap (λ q. q.ssl_verify_identity) (sym same) ∙ ap (λ q. q.ssl_verify_cert) same,
            rw e (ap (λ q. q.ssl_ca) (sym same)),
            inl (ap (λ q. q.ssl_ca) (sym same)),
          )
      | inr e ↦
          let (there, made) =
            raise_if-eq-ok (not (is_file config.ssl_ca)) (missing_file config.ssl_ca) _
              (rw e at c) in
          let same : parameters config (some config.ssl_ca) true ≡ p = cc made in
          (
            complete,
            subst (ConnectsAs config) same (connects_as config (some config.ssl_ca) true),
            ap (λ q. q.ssl_disabled) (sym same),
            rw e (ap (λ q. q.ssl_verify_cert) (sym same)),
            ap (λ q. q.ssl_verify_identity) (sym same) ∙ ap (λ q. q.ssl_verify_cert) same,
            rw e (ap (λ q. q.ssl_ca) (sym same)),
            inr (ground (arith, there)),
          )
    ]

-- What is logged of the settings does not depend on the password.
describe-password :
    (write_port : ℤ → String) (config : Config) (password : String)
    → describe write_port (record config { password = password }) ≡ describe write_port config
unfolding describe
describe-password write_port config password = refl
