-- ===== src/Plan/Target.antt =====
-- mysql-internal/collector/plan.py: `_compile_target`, one MySQL server to collect from.
use azure_mysql_monitoring.Prelude.{
  leb, if◌then◌else◌, ℕ, ◌≤◌, String, ◌≡◌, true, false, not, ◌&&◌, List, [], ◌∷◌, Bool, arith,
}
use azure_mysql_monitoring.Plan.Document.{Value, null, bool, int, str}
use azure_mysql_monitoring.Plan.Errors.{
  not_an_object, target_unknown_keys, field_not_text, tier_invalid, target_unknown_profile,
  port_out_of_range, credentials_unknown_keys, run_id_not_env, Compiled,
}
use azure_mysql_monitoring.Plan.Group.{mapping}
use azure_mysql_monitoring.Plan.Profile.{Profile}
use azure_mysql_monitoring.Plan.Secret.{
  SecretReference, parse_secret_reference, from_env, from_vault,
}
use azure_mysql_monitoring.Prelude.Dict.{Dict, lookup, get_or, has, has_unknown}
use azure_mysql_monitoring.Prelude.Int.{pos}
use azure_mysql_monitoring.Prelude.Result.{
  ok, err, ◌>>=◌, ◌>>◌, raise_if, >>=-eq-ok, raise_if-eq-ok,
}
use azure_mysql_monitoring.Prelude.Text.{is_blank, strip, contains}

pub record Target : Type 0 where
  pub target_id : String
  pub host : String
  pub database : String
  pub tier : String
  pub profile : String
  pub username : SecretReference
  pub password : SecretReference
  pub run_id : String
  pub port : ℕ
  pub azure_resource_id : String
  pub ssl_ca : String

-- `VALID_TIERS`
abbrev pub valid_tiers : List String
valid_tiers = "premium-ssd-v1" ∷ "premium-ssd-v2" ∷ []

abbrev target_keys : List String
target_keys =
    "id" ∷ "host" ∷ "port" ∷ "database" ∷ "tier" ∷ "profile" ∷ "azure_resource_id" ∷ "ssl_ca"
    ∷ "run_id" ∷ "credentials" ∷ []

-- `required_string`
required_string : Dict Value → String → Compiled String
unfolding lookup strip
required_string data' name = elim (get_or name data' null) [
  | str s ↦ if is_blank (strip s) then err (field_not_text name) else ok (strip s)
  | _ ↦ err (field_not_text name)
]

port_of : Value → Compiled ℕ
port_of (int (pos n)) = if leb 1 n && leb n 65535 then ok n else err port_out_of_range
port_of _ = err port_out_of_range

run_id_of : Dict Value → Compiled String
unfolding parse_secret_reference lookup
run_id_of data' = do
  reference ← parse_secret_reference (get_or "run_id" data' null)
  elim reference [ from_env variable ↦ ok variable | from_vault r ↦ err run_id_not_env ]

-- What holds of every accepted target.
pub record IsValid (profiles : Dict Profile) (t : Target) : Type 0 where
  pub known_profile : has t.profile profiles ≡ true
  pub known_tier : contains valid_tiers t.tier ≡ true
  pub port_lower : 1 ≤ t.port
  pub port_upper : t.port ≤ 65535

-- `repr` is Python's `str` on the values that are no text, `null` and the Booleans.
module _ (repr : Value → String) where
  -- `str(value)`
  to_str : Value → String
  to_str null = "None"
  to_str (bool true) = "True"
  to_str (bool false) = "False"
  to_str (str s) = s
  to_str value = repr value

  -- The credentials and the run, and the target of it all: the arguments of `Target` are read in
  -- the order in which they stand.
  finish_target : Dict Value → Dict Value → String → String → String → ℕ → Compiled Target
  finish_target data' credentials target_id tier profile port = do
    raise_if (has_unknown ("username" ∷ "password" ∷ []) credentials) credentials_unknown_keys
    run_id ← run_id_of data'
    host ← required_string data' "host"
    database ← required_string data' "database"
    username ← parse_secret_reference (get_or "username" credentials null)
    password ← parse_secret_reference (get_or "password" credentials null)
    ok (record {
      target_id = target_id;
      host = host;
      database = database;
      tier = tier;
      profile = profile;
      username = username;
      password = password;
      run_id = run_id;
      port = port;
      azure_resource_id = strip (to_str (get_or "azure_resource_id" data' (str "")));
      ssl_ca = strip (to_str (get_or "ssl_ca" data' (str "")));
    })

  unfoldable pub compile_target : Dict Profile → Value → Compiled Target
  unfolding finish_target port_of mapping required_string run_id_of to_str
  compile_target profiles raw = do
    data' ← mapping raw not_an_object
    raise_if (has_unknown target_keys data') target_unknown_keys
    target_id ← required_string data' "id"
    tier ← required_string data' "tier"
    raise_if (not (contains valid_tiers tier)) tier_invalid
    profile ← required_string data' "profile"
    raise_if (not (has profile profiles)) target_unknown_profile
    port ← port_of (get_or "port" data' (int (pos 3306)))
    credentials ← mapping (get_or "credentials" data' null) not_an_object
    finish_target data' credentials target_id tier profile port

not-false : {b : Bool} → not b ≡ false → b ≡ true
not-false {b} h = ground arith

port_of_bounds : (v : Value) {n : ℕ} → port_of v ≡ ok n → (1 ≤ n) × (n ≤ 65535)
unfolding port_of
port_of_bounds v h = ground arith

module _ (repr : Value → String) where
  finish_target_fields :
      (data' credentials : Dict Value) (target_id tier profile : String) (port : ℕ) (t : Target)
      → finish_target repr data' credentials target_id tier profile port ≡ ok t
      → (t.tier ≡ tier) × (t.profile ≡ profile) × (t.port ≡ port)
  unfolding finish_target
  finish_target_fields data' credentials target_id tier profile port t h = ground arith

  pub compile_target-IsValid :
      (profiles : Dict Profile) (raw : Value) (t : Target)
      → compile_target repr profiles raw ≡ ok t
      → IsValid profiles t
  unfolding compile_target
  compile_target-IsValid profiles raw t h =
      let (data', _, h₁) = >>=-eq-ok (mapping raw not_an_object) _ h in
      let (_, h₂) = raise_if-eq-ok (has_unknown target_keys data') target_unknown_keys _ h₁ in
      let (target_id, _, h₃) = >>=-eq-ok (required_string data' "id") _ h₂ in
      let (tier, _, h₄) = >>=-eq-ok (required_string data' "tier") _ h₃ in
      let (known_tier, h₅) = raise_if-eq-ok (not (contains valid_tiers tier)) tier_invalid _ h₄ in
      let (profile, _, h₆) = >>=-eq-ok (required_string data' "profile") _ h₅ in
      let (known, h₇) = raise_if-eq-ok (not (has profile profiles)) target_unknown_profile _ h₆ in
      let (port, in_range, h₈) = >>=-eq-ok (port_of (get_or "port" data' (int (pos 3306)))) _ h₇ in
      let (credentials, _, h₉) =
        >>=-eq-ok (mapping (get_or "credentials" data' null) not_an_object) _ h₈ in
      let (e_tier, e_profile, e_port) =
        finish_target_fields data' credentials target_id tier profile port t h₉ in
      let (lower, upper) = port_of_bounds (get_or "port" data' (int (pos 3306))) in_range in
      record {
        known_profile = rw e_profile (not-false known);
        known_tier = rw e_tier (not-false known_tier);
        port_lower = omega (arith, e_port);
        port_upper = omega (arith, e_port);
      }
