-- ===== src/Spool/Tests.antt =====
-- A spool of a few rows, and the theorems about the spool at it. Its lines are the entries
-- themselves, of ten bytes each.
use azure_mysql_monitoring.Prelude.{
  if◌then◌else◌, All, ℕ, ◌≤◌, String, ◌≡◌, refl, true, none, some, List, [], ◌∷◌, ◌==◌, eqb, false,
}
use azure_mysql_monitoring.Plan.Document.{Value, str, truthy}
use azure_mysql_monitoring.Prelude.FileName.{is_safe, is_edge}
use azure_mysql_monitoring.Prelude.Int.{pos}
use azure_mysql_monitoring.Prelude.Result.{ok}
use azure_mysql_monitoring.Prelude.Text.{append}
use azure_mysql_monitoring.Spool.Codec.{
  Entry, Row, Codec, encode, bytes, read_segment, IsFaithful, read_segment-encode,
}
use azure_mysql_monitoring.Spool.Names.{
  submitted_source_id, ready_name, failed_name, ready_name_from_live, name_of,
}
use azure_mysql_monitoring.Spool.Names.Directory.{
  safe_component, cursor_name, IsComponent, names_are_components,
}
use azure_mysql_monitoring.Spool.Names.Stages.{name_of_renamed}
use azure_mysql_monitoring.Spool.Points.{spool_points, spool_config}
use azure_mysql_monitoring.Spool.Replay.{ids, Status, Service, replay_once}
use azure_mysql_monitoring.Spool.Run.{
  Operation, write, replay, empty_spool, perform_all, IsSane, perform_all_within,
}
use azure_mysql_monitoring.Spool.Store.{ready, failed, submitted, pending_bytes}
use azure_mysql_monitoring.Spool.Write.{Outside, stored, identity, write_projected}

abbrev codec : Codec Entry
codec = record {
  dumps = λ table mapping row. record { table = table; mapping = mapping; row = some row };
  loads = λ entry. some entry;
  size = λ entry. 10;
}

codec-IsFaithful : IsFaithful codec
codec-IsFaithful = record { loads-dumps = λ table mapping row. refl }

abbrev text_of : Value → String
text_of (str s) = s
text_of value = "?"

abbrev row_of : String → Row
row_of target = ("target_id", str target) ∷ []

-- The stem is the target's name; the disk takes everything, and streaming fails for one target.
abbrev outside : Outside Entry
outside = record {
  stem = λ target drawn. target;
  disk = λ stem lines. stored;
  written_at = λ stem. 100;
  live_error = λ stem. if stem == "b" then some "unavailable" else none;
  text_of = text_of;
}

abbrev service : List Status → ℕ → Service Entry
service statuses now = record {
  queue = λ table mapping rows tag. ids ("source" ∷ []);
  statuses = statuses;
  sha256 = λ lines. "digest";
  readable = λ stem. true;
  now = now;
  lower = λ s. s;
}

abbrev two_rows : List Row
two_rows = row_of "a" ∷ row_of "b" ∷ []

abbrev operations : List (Operation Entry)
operations = write outside two_rows "T" "M" ∷ replay (service [] 200) (λ stems. stems) ∷ []

operations-IsSane : All (IsSane codec) operations
operations-IsSane = (λ stem lines rest h. cc h, (tt, tt))

-- One target's segment is streamed and removed, the other's is submitted.
replayed :
    (perform_all codec operations (empty_spool 1000 3600)).files
    ≡ (
      "b",
      record {
        stage = submitted "source";
        lines = record { table = "T"; mapping = "M"; row = some (row_of "b") } ∷ [];
        modified = 200;
      },
    )
      ∷ []
unfolding perform_all write_projected replay_once empty_spool encode bytes read_segment identity
    truthy
replayed = refl

perform_all_within_example :
    pending_bytes codec (perform_all codec operations (empty_spool 1000 3600))
    ≤ (perform_all codec operations (empty_spool 1000 3600)).max_bytes
perform_all_within_example = perform_all_within codec operations 1000 3600 operations-IsSane

-- A live sink whose exception has no text: the segment is gone, and no row arrived.
abbrev silent_live : Outside Entry
silent_live = record outside { live_error = λ stem. some "" }

silent_exception_removes :
    (write_projected codec silent_live two_rows "T" "M" (empty_spool 1000 3600)).1.files ≡ []
unfolding write_projected empty_spool pending_bytes encode bytes identity truthy
silent_exception_removes = refl

-- A terminal failure keeps the file.
failure_keeps :
    (perform_all codec
      (write outside two_rows "T" "M"
        ∷ replay (service [] 200) (λ stems. stems)
        ∷ replay
            (service
              (record { succeeded = false; source_id = "source"; should_retry = false } ∷ [])
              300)
            (λ stems. stems)
        ∷ [])
      (empty_spool 1000 3600)).files
    ≡ (
      "b",
      record {
        stage = failed;
        lines = record { table = "T"; mapping = "M"; row = some (row_of "b") } ∷ [];
        modified = 200;
      },
    )
      ∷ []
unfolding perform_all write_projected replay_once empty_spool encode bytes read_segment identity
    truthy
failure_keeps = refl

read_segment-encode_example :
    read_segment codec (encode codec "T" "M" two_rows) ≡ some ("T", "M", two_rows)
read_segment-encode_example =
    read_segment-encode codec codec-IsFaithful "T" "M" (row_of "a") (row_of "b" ∷ [])

abbrev stamped : String
stamped = "20260101T000000.123456Z-0f0f-MysqlEvents"

name_of_renamed_example :
    (some (ready_name_from_live (append stamped ".live.jsonl")) ≡ name_of stamped ready)
    × (some (ready_name (append stamped ".submitted.id-1.jsonl")) ≡ name_of stamped ready)
    × (some (failed_name (append stamped ".submitted.id-1.jsonl")) ≡ name_of stamped failed)
    × (some (submitted_source_id (append stamped ".submitted.id-1.jsonl")) ≡ some (some "id-1"))
unfolding name_of
name_of_renamed_example = name_of_renamed stamped "id-1" refl

abbrev ten_digits : String → String
ten_digits s = "0123456789"

names_are_components_example :
    IsComponent (safe_component ten_digits "../etc/passwd")
    × IsComponent (cursor_name ten_digits "../etc/passwd")
unfolding is_safe
names_are_components_example = names_are_components ten_digits "../etc/passwd" refl

traversal_blocked : cursor_name ten_digits "../etc/pass wd" ≡ "etc-pass-wd-0123456789.json"
unfolding cursor_name is_safe is_edge
traversal_blocked = refl

abbrev first_fails : Outside Entry
first_fails = record outside { stem = λ target drawn. if eqb drawn 0 then "b" else "c" }

-- The second write of `write_points` clears the error of the first.
error_of_packed_rows_lost :
    (spool_points codec first_fails
      (row_of "t" ∷ [])
      (row_of "t" ∷ [])
      (empty_spool 1000 60)).1.last_error
    ≡ []
unfolding spool_points pending_bytes empty_spool bytes encode
error_of_packed_rows_lost = refl

defaults_accepted :
    spool_config (λ s. some (pos 7)) (λ s. some (pos 30, 0)) []
    ≡ ok (record {
      directory = "/var/lib/azure-mysql-monitoring/spool";
      max_bytes = pos 7;
      replay_seconds = (pos 30, 0);
      confirmation_timeout_seconds = (pos 30, 0);
    })
unfolding spool_config
defaults_accepted = refl
