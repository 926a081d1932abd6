-- ===== src/Plan/Secret.antt =====
-- mysql-internal/collector/plan.py: references to secrets, never the secrets themselves.
use text.Mathlib.Text.{starts_with}
use azure_mysql_monitoring.Prelude.{if◌then◌else◌, String, ◌≡◌, true, false, not, [], ◌∷◌, ◌==◌}
use azure_mysql_monitoring.Plan.Document.{Value, str, obj, entries}
use azure_mysql_monitoring.Plan.Errors.{
  PlanError, secret_literal, env_name_empty, vault_not_object, vault_unknown_keys,
  vault_uri_not_https, vault_secret_empty, vault_version_not_text, secret_shape, Compiled,
}
use azure_mysql_monitoring.Prelude.Dict.{Dict, lookup, get_or, has_unknown}
use azure_mysql_monitoring.Prelude.Result.{ok, err, ◌>>=◌, ◌>>◌, raise_if}
use azure_mysql_monitoring.Prelude.Text.{is_blank, strip}

pub record KeyVaultReference : Type 0 where
  pub vault_uri : String
  pub secret : String
  pub version : String

-- `EnvReference | KeyVaultReference`
pub data SecretReference : Type 0 where
  from_env : String → SecretReference
  from_vault : KeyVaultReference → SecretReference

-- The text behind a key; a value of another type is refused.
abbrev text_field : String → Dict Value → PlanError → Compiled String
text_field name data' e = elim (get_or name data' (str "")) [ str s ↦ ok s | _ ↦ err e ]

env_reference : Value → Compiled SecretReference
unfolding strip
env_reference (str variable) =
    if is_blank (strip variable) then err env_name_empty else ok (from_env (strip variable))
env_reference _ = err env_name_empty

vault_fields : Dict Value → Compiled SecretReference
unfolding strip lookup has_unknown
vault_fields data' = do
  raise_if (has_unknown ("vault_uri" ∷ "secret" ∷ "version" ∷ []) data') vault_unknown_keys
  vault_uri ← text_field "vault_uri" data' vault_uri_not_https
  raise_if (not (starts_with vault_uri "https://")) vault_uri_not_https
  secret ← text_field "secret" data' vault_secret_empty
  raise_if (is_blank (strip secret)) vault_secret_empty
  version ← text_field "version" data' vault_version_not_text
  ok (from_vault (record { vault_uri = vault_uri; secret = strip secret; version = strip version }))

vault_reference : Value → Compiled SecretReference
unfolding entries vault_fields
vault_reference (obj fields) = vault_fields (entries fields)
vault_reference _ = err vault_not_object

-- The mapping has exactly one key, and it is one of the two.
reference_of : Dict Value → Compiled SecretReference
unfolding env_reference vault_reference
reference_of ((key, value) ∷ []) =
    if key == "env"
    then env_reference value
    else if key == "key_vault"
    then vault_reference value
    else err secret_shape
reference_of _ = err secret_shape

unfoldable pub parse_secret_reference : Value → Compiled SecretReference
unfolding reference_of
parse_secret_reference (obj fields) = reference_of (entries fields)
parse_secret_reference _ = err secret_literal

-- What a reference may hold: a name without white space around it, or an https vault.
abbrev pub IsReference : SecretReference → Type 0
IsReference (from_env variable) = is_blank variable ≡ false
IsReference (from_vault r) =
    (starts_with r.vault_uri "https://" ≡ true) × (is_blank r.secret ≡ false)
