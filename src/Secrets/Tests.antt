-- ===== src/Secrets/Tests.antt =====
-- A backend of one vault, and the theorems about the resolver at it.
use azure_mysql_monitoring.Prelude.{All, ◌≡◌, refl, true, some, [], ◌∷◌}
use azure_mysql_monitoring.Plan.Secret.{KeyVaultReference, from_vault}
use azure_mysql_monitoring.Prelude.Result.{ok}
use azure_mysql_monitoring.Secrets.{Backend, Resolver, new_resolver, key_vault_client, close, is_in}
use azure_mysql_monitoring.Secrets.Closing.{resolve_all, close_complete}

abbrev backend : Backend
backend = record {
  variable = λ name. " admin ";
  has_sdk = true;
  credential = some 1;
  client = λ vault_uri credential. some 2;
  get_secret = λ client name version. some (some "  ");
}

abbrev reference : KeyVaultReference
reference = record { vault_uri = "https://v"; secret = "password"; version = "" }

abbrev first_client : Resolver
first_client = record {
  credential = some 1;
  clients = ("https://v", 2) ∷ [];
  created = 2 ∷ 1 ∷ [];
  closed = [];
}

client_made : key_vault_client backend "https://v" new_resolver ≡ (ok 2, first_client)
unfolding key_vault_client new_resolver
client_made = refl

close_complete_example :
    All
      (λ n.
        is_in n
          (close (resolve_all ((backend, from_vault reference, true) ∷ []) new_resolver)).closed
        ≡ true)
      (close (resolve_all ((backend, from_vault reference, true) ∷ []) new_resolver)).created
close_complete_example = close_complete ((backend, from_vault reference, true) ∷ [])
