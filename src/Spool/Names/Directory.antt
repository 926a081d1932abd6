-- ===== src/Spool/Names/Directory.antt =====
-- spool.py: `_safe_component`, and runtime.py: `cursor_path_for_target`. Both make a file name of the id
-- of a target, with the first ten digits of its SHA-256, for which `hexdigest` stands.
use azure_mysql_monitoring.Prelude.{
  if◌then◌else◌, ℕ, zero, suc, String, ◌≡◌, refl, true, false, arith,
}
use azure_mysql_monitoring.Prelude.FileName.{
  is_safe, is_edge, replace_unsafe, lstrip_edge, rstrip_edge, strip_edge, all_safe, starts_plain,
  all_safe-append, json_safe, dash_safe, safe_strip_edge,
}
use azure_mysql_monitoring.Prelude.Text.{is_blank, append}
use azure_mysql_monitoring.Telemetry.Rows.{first_chars}

abbrev or_target : String → String
or_target s = if is_blank s then "target" else s

module _ (hexdigest : String → String) where
  -- `_safe_component`
  unfoldable pub safe_component : String → String
  unfolding first_chars replace_unsafe lstrip_edge rstrip_edge
  safe_component value =
      append (or_target (first_chars 100 (strip_edge (replace_unsafe false value))))
        (append "-" (first_chars 10 (hexdigest value)))

  -- `cursor_path_for_target`, without the directory
  unfoldable pub cursor_name : String → String
  unfolding first_chars replace_unsafe lstrip_edge rstrip_edge
  cursor_name target_id =
      append (or_target (strip_edge (replace_unsafe false target_id)))
        (append "-" (append (first_chars 10 (hexdigest target_id)) ".json"))

-- A name that is no path: it holds no separator, and is not empty, `.` or `..`.
abbrev pub IsComponent : String → Type 0
IsComponent name = (all_safe name ≡ true) × (starts_plain name ≡ true) × (is_blank name ≡ false)

all_safe-first_chars : (n : ℕ) (s : String) → all_safe s ≡ true → all_safe (first_chars n s) ≡ true
unfolding first_chars
all_safe-first_chars zero s h = refl
all_safe-first_chars (suc n) String.[] h = refl
all_safe-first_chars (suc n) (String.◌∷◌ c s) h = ground (arith, h, all_safe-first_chars n s)

starts_plain-first_chars :
    (n : ℕ) (s : String) → starts_plain s ≡ true → starts_plain (first_chars n s) ≡ true
unfolding first_chars
starts_plain-first_chars zero s h = refl
starts_plain-first_chars (suc n) String.[] h = refl
starts_plain-first_chars (suc n) (String.◌∷◌ c s) h = h

or_target-IsComponent :
    (s : String) → all_safe s ≡ true → starts_plain s ≡ true → IsComponent (or_target s)
unfolding is_safe is_edge
or_target-IsComponent String.[] h k = (refl, refl, refl)
or_target-IsComponent (String.◌∷◌ c s) h k = (h, k, refl)

append-IsComponent : (s t : String) → IsComponent s → all_safe t ≡ true → IsComponent (append s t)
append-IsComponent String.[] t (safe, plain, there) h = cc there
append-IsComponent (String.◌∷◌ c s) t (safe, plain, there) h =
    (all_safe-append (String.◌∷◌ c s) t safe h, plain, refl)

-- Whatever the id of a target is, the name of its directory in the spool and the name of its cursor
-- file are single components of a path. The digits of a SHA-256 are taken to be letters and digits.
pub names_are_components :
    (hexdigest : String → String) (id : String)
    → all_safe (hexdigest id) ≡ true
    → IsComponent (safe_component hexdigest id) × IsComponent (cursor_name hexdigest id)
unfolding safe_component cursor_name
names_are_components hexdigest id h =
    let (safe, plain) = safe_strip_edge id in
    let t = strip_edge (replace_unsafe false id) in
    let digits = all_safe-first_chars 10 (hexdigest id) h in
    (
      append-IsComponent (or_target (first_chars 100 t))
          (append "-" (first_chars 10 (hexdigest id)))
          (or_target-IsComponent (first_chars 100 t) (all_safe-first_chars 100 t safe)
            (starts_plain-first_chars 100 t plain))
          (all_safe-append "-" (first_chars 10 (hexdigest id)) dash_safe digits),
      append-IsComponent (or_target t) (append "-" (append (first_chars 10 (hexdigest id)) ".json"))
          (or_target-IsComponent t safe plain)
          (all_safe-append "-" (append (first_chars 10 (hexdigest id)) ".json") dash_safe
            (all_safe-append (first_chars 10 (hexdigest id)) ".json" digits json_safe)),
    )
