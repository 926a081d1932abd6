-- ===== src/Spool/Names.antt =====
-- mysql-internal/collector/sinks/spool.py: the names of the files, of which the store keeps the stem
-- and the stage.
pub mod Stages
pub mod Directory
use mathlib.Core.Option
use Prim.Native.Char.{code}
use azure_mysql_monitoring.Prelude.{eqb, if◌then◌else◌, String, Option, none, some, ◌==◌}
use azure_mysql_monitoring.Prelude.Text.{append}
use azure_mysql_monitoring.Spool.Step.{then}
use azure_mysql_monitoring.Spool.Store.{Stage, live, ready, failed, submitted, temporary, corrupt}

-- What is left of a text behind a prefix.
unfoldable pub after_prefix : String → String → Option String
after_prefix String.[] s = some s
after_prefix (String.◌∷◌ c prefix) String.[] = none
after_prefix (String.◌∷◌ c prefix) (String.◌∷◌ d s) =
    let rest = after_prefix prefix s in if eqb (code c) (code d) then rest else none

-- `s.split(marker, 1)`, where the marker occurs.
unfoldable pub split_once : String → String → Option (String × String)
unfolding after_prefix
split_once marker String.[] = none
split_once marker (String.◌∷◌ c s) = elim (after_prefix marker (String.◌∷◌ c s)) [
  | some rest ↦ some ("", rest)
  | none ↦ Option.map (λ parts. (String.◌∷◌ c parts.0, parts.1)) (split_once marker s)
]

-- `s.removesuffix(suffix)`, for a suffix that is not empty
unfoldable pub remove_suffix : String → String → String
remove_suffix suffix String.[] = String.[]
remove_suffix suffix (String.◌∷◌ c s) =
    let rest = remove_suffix suffix s in
    if String.◌∷◌ c s == suffix then String.[] else String.◌∷◌ c rest

-- `s.split(marker, 1)[0]`
unfoldable pub before_first : String → String → String
unfolding split_once
before_first marker s = elim (split_once marker s) [ none ↦ s | some (before, rest) ↦ before ]

-- `_submitted_source_id`: `none` is the `IndexError` of a name without the marker.
unfoldable pub submitted_source_id : String → Option String
unfolding split_once remove_suffix
submitted_source_id name = elim (split_once ".submitted." name) [
  | none ↦ none
  | some (before, rest) ↦ some (remove_suffix ".jsonl" rest)
]

-- `_ready_path`
unfoldable pub ready_name : String → String
unfolding before_first
ready_name name = append (before_first ".submitted." name) ".ready.jsonl"

-- `_failed_path`
unfoldable pub failed_name : String → String
unfolding before_first
failed_name name = append (before_first ".submitted." name) ".failed.jsonl"

-- `_ready_path_from_live`
unfoldable pub ready_name_from_live : String → String
unfolding remove_suffix
ready_name_from_live name = append (remove_suffix ".live.jsonl" name) ".ready.jsonl"

-- The names of the files of a stem while a segment lives.
unfoldable pub name_of : String → Stage → Option String
name_of stem live = some (append stem ".live.jsonl")
name_of stem ready = some (append stem ".ready.jsonl")
name_of stem (submitted id) = some (append stem (append ".submitted." (append id ".jsonl")))
name_of stem failed = some (append stem ".failed.jsonl")
name_of stem temporary = some (append stem ".tmp")
name_of stem corrupt = none
