-- ===== src/Secrets/Texts.antt =====
-- What a resolved text is: never blank from the environment, while a vault may give a blank one.
use azure_mysql_monitoring.Prelude.{
  Bool-cases, ℕ, String, ◌≡◌, refl, subst, inl, inr, true, false, some, arith,
}
use azure_mysql_monitoring.Plan.Secret.{KeyVaultReference, from_env, from_vault}
use azure_mysql_monitoring.Prelude.Result.{ok}
use azure_mysql_monitoring.Prelude.Text.{is_blank, strip}
use azure_mysql_monitoring.Secrets.{Backend, Resolver, key_vault_client, resolve}

-- A text that is resolved from the environment is not empty, and with the spaces removed from its
-- ends, as for a user name, it is not blank either; and the resolver is left as it was.
pub resolve_env :
    (backend : Backend) (variable value : String) (r : Resolver)
    → (resolve backend (from_env variable) true r).0 ≡ ok value
    → (is_blank value ≡ false) × ((resolve backend (from_env variable) true r).1 ≡ r)
unfolding resolve
resolve_env backend variable value r h =
    elim (Bool-cases (is_blank (strip (backend.variable variable)))) [
      | inl e ↦ cc (rw e at h)
      | inr e ↦
          let same : strip (backend.variable variable) ≡ value = ground (arith, rw e at h) in
          (subst (λ v. is_blank v ≡ false) same e, rw e refl)
    ]

-- A vault's secret of nothing but spaces is resolved, to the empty text, when the spaces are to be
-- removed.
pub resolve_blank_secret :
    (backend : Backend) (reference : KeyVaultReference) (value : String) (client : ℕ)
    (r s : Resolver)
    → key_vault_client backend reference.vault_uri r ≡ (ok client, s)
    → backend.get_secret client reference.secret reference.version ≡ some (some value)
    → is_blank value ≡ false
    → is_blank (strip value) ≡ true
    → (v : String) × ((resolve backend (from_vault reference) true r).0 ≡ ok v)
      × (is_blank v ≡ true)
unfolding resolve
resolve_blank_secret backend reference value client r s found given full blank =
    (strip value, rw (found, given, full) refl, blank)
