-- ===== src/Secrets.antt =====
-- mysql-internal/collector/secrets.py: `SecretResolver`. The environment, the Azure SDK and the
-- vaults answer through a `Backend`; a credential and a client are numbers, of which the factories
-- hand out fresh ones. The lock is not modelled: each operation is one step.
pub mod Closing
pub mod Texts
mod Tests
use azure_mysql_monitoring.Prelude.{
  eqb, if◌then◌else◌, All, ℕ, String, ◌≡◌, Bool, true, false, ◌||◌, Option, none, some, List, [],
  ◌∷◌, ◌++◌,
}
use azure_mysql_monitoring.Plan.Secret.{KeyVaultReference, SecretReference, from_env, from_vault}
use azure_mysql_monitoring.Prelude.Dict.{Dict, lookup, insert}
use azure_mysql_monitoring.Prelude.Result.{Result, ok, err}
use azure_mysql_monitoring.Prelude.Text.{is_blank, strip}
use azure_mysql_monitoring.Runtime.Worker.{closed}
use azure_mysql_monitoring.Spool.Step.{then}

pub data SecretError : Type 0 where
  variable_empty : String → SecretError
  sdk_missing setup_failed : SecretError
  unreadable no_string_value : String → SecretError

pub record Backend : Type 0 where
  -- `environ.get(variable, "")`
  pub variable : String → String
  -- can the SDK be imported
  pub has_sdk : Bool
  pub credential : Option ℕ
  pub client : String → ℕ → Option ℕ
  -- `none` is an exception, `some none` a value that is no text
  pub get_secret : ℕ → String → String → Option (Option String)

pub record Resolver : Type 0 where
  pub credential : Option ℕ
  pub clients : Dict ℕ
  -- what the factories handed out, and what was closed, newest first
  pub created : List ℕ
  pub closed : List ℕ

pub new_resolver : Resolver
new_resolver = record { credential = none; clients = []; created = []; closed = [] }

-- `value.strip() if strip else value`
stripped : Bool → String → String
unfolding strip
stripped true value = strip value
stripped false value = value

module _ (backend : Backend) where
  -- `if self._credential is None: self._credential = credential_factory()`
  ensure_credential : Option ℕ → Resolver → Result SecretError ℕ × Resolver
  ensure_credential (some credential) r = (ok credential, r)
  ensure_credential none r = elim backend.credential [
    | none ↦ (err setup_failed, r)
    | some credential ↦
        (ok credential, record r { credential = some credential; created = credential ∷ r.created })
  ]

  make_client : String → Result SecretError ℕ × Resolver → Result SecretError ℕ × Resolver
  unfolding insert
  make_client vault_uri (err e, r) = (err e, r)
  make_client vault_uri (ok credential, r) = elim (backend.client vault_uri credential) [
    | none ↦ (err setup_failed, r)
    | some client ↦ (
      ok client,
      record r { clients = insert vault_uri client r.clients; created = client ∷ r.created },
    )
  ]

  -- `_key_vault_client`
  pub key_vault_client : String → Resolver → Result SecretError ℕ × Resolver
  unfolding ensure_credential make_client lookup
  key_vault_client vault_uri r = elim (lookup vault_uri r.clients) [
    | some client ↦ (ok client, r)
    | none ↦
        if backend.has_sdk
        then make_client vault_uri (ensure_credential r.credential r)
        else (err sdk_missing, r)
  ]

  -- What the vault's answer is worth.
  value_of : String → Bool → Option (Option String) → Result SecretError String
  unfolding stripped
  value_of secret strip_it none = err (unreadable secret)
  value_of secret strip_it (some none) = err (no_string_value secret)
  value_of secret strip_it (some (some value)) =
      if is_blank value then err (no_string_value secret) else ok (stripped strip_it value)

  read_secret :
      KeyVaultReference
      → Bool
      → Result SecretError ℕ × Resolver
      → Result SecretError String × Resolver
  unfolding value_of
  read_secret reference strip_it (err e, r) = (err e, r)
  read_secret reference strip_it (ok client, r) = (
    value_of reference.secret strip_it
        (backend.get_secret client reference.secret reference.version),
    r,
  )

  -- `resolve`
  pub resolve : SecretReference → Bool → Resolver → Result SecretError String × Resolver
  unfolding stripped key_vault_client read_secret strip
  resolve (from_env variable) strip_it r =
      if is_blank (strip (backend.variable variable))
      then (err (variable_empty variable), r)
      else (ok (stripped strip_it (backend.variable variable)), r)
  resolve (from_vault reference) strip_it r =
      read_secret reference strip_it (key_vault_client reference.vault_uri r)

pub values : Dict ℕ → List ℕ
values [] = []
values ((vault_uri, client) ∷ rest) = client ∷ values rest

pub credentials : Option ℕ → List ℕ
credentials none = []
credentials (some credential) = credential ∷ []

-- `close`: every client, then the credential. What is closed had its `close` called, if it has one; an
-- exception of it is caught, and changes nothing here.
pub close : Resolver → Resolver
unfolding values credentials
close r = record r {
  credential = none;
  clients = [];
  closed = (values r.clients ++ credentials r.credential) ++ r.closed;
}

-- Is the number in the list.
abbrev pub is_in : ℕ → List ℕ → Bool
is_in n [] = false
is_in n (m ∷ ms) = eqb m n || is_in n ms

-- What was handed out is held, or was closed.
abbrev pub IsAccounted : Resolver → Type 0
IsAccounted r =
    All (λ n. is_in n ((values r.clients ++ credentials r.credential) ++ r.closed) ≡ true) r.created
