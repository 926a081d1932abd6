-- ===== src/Secrets/Closing.antt =====
-- Every credential and client that the resolver is handed is closed in the end.
use azure_mysql_monitoring.Prelude.{
  eqb, Bool-cases, Option-cases, All, ℕ, String, ◌≡◌, refl, sym, ap, ◌∙◌, subst, inl, inr, Bool,
  true, ◌||◌, Option, none, some, List, [], ◌∷◌, ◌++◌, arith,
}
use azure_mysql_monitoring.Plan.Secret.{KeyVaultReference, SecretReference, from_env, from_vault}
use azure_mysql_monitoring.Prelude.Dict.{Dict, lookup, insert}
use azure_mysql_monitoring.Prelude.Result.{Result, ok, err}
use azure_mysql_monitoring.Prelude.Text.{is_blank, strip}
use azure_mysql_monitoring.Secrets.{
  SecretError, Backend, Resolver, new_resolver, key_vault_client, resolve, values, credentials,
  close, is_in, ensure_credential, make_client, read_secret,
}

All-imp : {P Q : ℕ → Type 0} (xs : List ℕ) → ((n : ℕ) → P n → Q n) → All P xs → All Q xs
All-imp [] f h = tt
All-imp (x ∷ xs) f h = (f x h.0, All-imp xs f h.1)

is_in-append : (n : ℕ) (xs ys : List ℕ) → is_in n (xs ++ ys) ≡ (is_in n xs || is_in n ys)
is_in-append n [] ys = refl
is_in-append n (x ∷ xs) ys = ground (arith, is_in-append n xs ys)

values-insert :
    (k : String) (c n : ℕ) (d : Dict ℕ)
    → lookup k d ≡ none
    → is_in n (values (insert k c d)) ≡ (is_in n (values d) || eqb n c)
unfolding lookup insert values
values-insert k c n [] h = ground arith
values-insert k c n ((j, m) ∷ d) h = ground (arith, values-insert k c n d)

-- Is the number held or closed.
abbrev held : Resolver → ℕ → Bool
held r n = is_in n (values r.clients) || (is_in n (credentials r.credential) || is_in n r.closed)

held_lem :
    (r : Resolver) (n : ℕ)
    → is_in n ((values r.clients ++ credentials r.credential) ++ r.closed) ≡ held r n
held_lem r n = ground (
  arith,
  is_in-append n (values r.clients ++ credentials r.credential) r.closed,
  is_in-append n (values r.clients) (credentials r.credential),
)

IsHeld : Resolver → Type 0
IsHeld r = All (λ n. held r n ≡ true) r.created

module _ (backend : Backend) where
  ensure_credential-IsHeld :
      (o : Option ℕ) (r : Resolver)
      → r.credential ≡ o
      → IsHeld r
      → IsHeld (ensure_credential backend o r).1
        × ((ensure_credential backend o r).1.clients ≡ r.clients)
  unfolding ensure_credential IsHeld credentials
  ensure_credential-IsHeld (some c) r e h = (h, refl)
  ensure_credential-IsHeld none r e h = elim (Option-cases backend.credential) [
    | inl m ↦ rw (m, ensure_credential) (h, refl)
    | inr (c, m) ↦
        rw (m, ensure_credential)
          ((ground arith, All-imp r.created (λ n p. ground (arith, e, p)) h), refl)
  ]

  make_client-IsHeld :
      (vault_uri : String) (p : Result SecretError ℕ × Resolver)
      → lookup vault_uri p.1.clients ≡ none
      → IsHeld p.1
      → IsHeld (make_client backend vault_uri p).1
  unfolding make_client IsHeld
  make_client-IsHeld vault_uri (err e, r) fresh h = h
  make_client-IsHeld vault_uri (ok credential, r) fresh h =
      elim (Option-cases (backend.client vault_uri credential)) [
        | inl m ↦ rw (m, make_client) h
        | inr (c, m) ↦
            rw (m, make_client)
              (
                ground (arith, values-insert vault_uri c c r.clients fresh),
                All-imp r.created
                    (λ n p. ground (arith, p, values-insert vault_uri c n r.clients fresh)) h,
              )
      ]

  key_vault_client-IsHeld :
      (vault_uri : String) (r : Resolver)
      → IsHeld r
      → IsHeld (key_vault_client backend vault_uri r).1
  unfolding key_vault_client
  key_vault_client-IsHeld vault_uri r h = elim (Option-cases (lookup vault_uri r.clients)) [
    | inr (c, e) ↦ rw (e, key_vault_client) h
    | inl e ↦
        rw (e, key_vault_client)
          (elim (Bool-cases backend.has_sdk) [
            | inr missing ↦ rw missing h
            | inl there ↦
                let (k, same) = ensure_credential-IsHeld r.credential r refl h in
                rw there (
                  make_client-IsHeld vault_uri (ensure_credential backend r.credential r)
                    (ap (lookup vault_uri) same ∙ e) k)
          ])
  ]

  read_secret-resolver :
      (reference : KeyVaultReference) (strip_it : Bool) (p : Result SecretError ℕ × Resolver)
      → (read_secret backend reference strip_it p).1 ≡ p.1
  unfolding read_secret
  read_secret-resolver reference strip_it (ok c, r) = refl
  read_secret-resolver reference strip_it (err e, r) = refl

  resolve-IsHeld :
      (reference : SecretReference) (strip_it : Bool) (r : Resolver)
      → IsHeld r
      → IsHeld (resolve backend reference strip_it r).1
  unfolding resolve
  resolve-IsHeld (from_env variable) strip_it r h =
      elim (Bool-cases (is_blank (strip (backend.variable variable)))) [
        | inl e ↦ rw e h
        | inr e ↦ rw e h
      ]
  resolve-IsHeld (from_vault reference) strip_it r h =
      subst IsHeld (sym (read_secret-resolver reference strip_it _))
        (key_vault_client-IsHeld reference.vault_uri r h)

-- A resolver's life: what it is asked, and what the outside answers each time.
pub resolve_all : List (Backend × SecretReference × Bool) → Resolver → Resolver
resolve_all [] r = r
resolve_all ((backend, reference, strip_it) ∷ rest) r =
    resolve_all rest (resolve backend reference strip_it r).1

resolve_all-IsHeld :
    (requests : List (Backend × SecretReference × Bool)) (r : Resolver)
    → IsHeld r
    → IsHeld (resolve_all requests r)
unfolding resolve_all
resolve_all-IsHeld [] r h = h
resolve_all-IsHeld ((backend, reference, strip_it) ∷ rest) r h =
    resolve_all-IsHeld rest _ (resolve-IsHeld backend reference strip_it r h)

-- After any requests, failed ones included, `close` has closed every credential and every client
-- that the factories ever handed to the resolver.
pub close_complete :
    (requests : List (Backend × SecretReference × Bool))
    → let r = close (resolve_all requests new_resolver) in
      All (λ n. is_in n r.closed ≡ true) r.created
unfolding close new_resolver IsHeld
close_complete requests =
    let r = resolve_all requests new_resolver in
    All-imp r.created (λ n h. held_lem r n ∙ h) (resolve_all-IsHeld requests new_resolver start)
  where
    start : IsHeld new_resolver
    start = unfold IsHeld in tt
