-- ===== src/Spool/Step.antt =====
-- What the operations of the spool do to the disk, one change at a time: the points at which a crash
-- or the other thread can come in.
use azure_mysql_monitoring.Prelude.{
  Option, Option-cases, ℕ, ◌+◌, ◌≤◌, String, ◌≡◌, refl, inl, inr, Bool, false, some, List, ◌∷◌,
  arith, none, true, eq_iff,
}
use azure_mysql_monitoring.Prelude.Dict.{Dict, lookup, insert, remove, has}
use azure_mysql_monitoring.Spool.Codec.{Codec, bytes}
use azure_mysql_monitoring.Spool.Store.{
  Stage, temporary, live, Segment, Fault, Event, accepted, Spool, pending_bytes, file_at, replace,
  touch, remove_segment, live_answered, status_received, owed, observe, is_silent,
}

-- Is it an answer from outside?
abbrev pub is_answer : {Line : Type 0} → Event Line → Bool
is_answer (accepted stem lines) = false
is_answer (live_answered stem error) = true
is_answer (status_received stem succeeded) = true

module _ {Line : Type 0} (codec : Codec Line) where
  pub data Step (s u : Spool Line) : Type 0 where
    -- a whole segment, where there is room for it
    landed :
        (stem : String) (lines : List Line) (at : ℕ)
        → has stem s.files ≡ false
        → pending_bytes codec s + bytes codec lines ≤ s.max_bytes
        → u ≡ record s {
          files = insert stem (record { stage = live; lines = lines; modified = at }) s.files;
          trace = accepted stem lines ∷ s.trace;
        }
        → Step s u
    -- what a failed write leaves
    left :
        (stem : String) (lines : List Line) (at : ℕ)
        → has stem s.files ≡ false
        → pending_bytes codec s + bytes codec lines ≤ s.max_bytes
        → u ≡ record s {
          files = insert stem (record { stage = temporary; lines = lines; modified = at }) s.files;
        }
        → Step s u
    -- a file gets another suffix or another time
    moved :
        (stem : String) (segment : Segment Line) (stage : Stage) (at : ℕ)
        → lookup stem s.files ≡ some segment
        → u ≡ record s {
          files =
              insert stem (record { stage = stage; lines = segment.lines; modified = at }) s.files;
        }
        → Step s u
    -- an answer of the live sink or of the service comes in
    observed : (event : Event Line) → is_answer event ≡ true → u ≡ observe event s → Step s u
    -- a file goes for which nothing is owed
    settled :
        (stem : String) (segment : Segment Line)
        → owed stem s.trace ≡ none
        → lookup stem s.files ≡ some segment
        → u ≡ record s { files = remove stem s.files }
        → Step s u
    -- nothing of the disk
    noted :
        (drawn : ℕ) (last_error : List Fault) (overflow : Bool)
        → u ≡ record s { drawn = drawn; last_error = last_error; overflow = overflow }
        → Step s u

  pub data Reach (s : Spool Line) : Spool Line → Type 0 where
    stay : Reach s s
    then : {u v : Spool Line} → Reach s u → Step u v → Reach s v

  pub Reach-trans : {s u v : Spool Line} → Reach s u → Reach u v → Reach s v
  Reach-trans r stay = r
  Reach-trans r (then q st) = then (Reach-trans r q) st

  abbrev once : {s u : Spool Line} → Step s u → Reach s u
  once st = then stay st

  pub Reach_ind :
      {s u : Spool Line} (P : Spool Line → Type 0)
      → ((x y : Spool Line) → Step x y → P x → P y)
      → Reach s u
      → P s
      → P u
  Reach_ind P keep stay p = p
  Reach_ind P keep (then {u = x} {v = y} r st) p = keep x y st (Reach_ind P keep r p)

  file_at-lookup :
      (stem : String) (stage : Stage) (files : Dict (Segment Line)) (segment : Segment Line)
      → file_at stem stage files ≡ some segment
      → lookup stem files ≡ some segment
  unfolding file_at
  file_at-lookup stem stage files segment h = ground arith

  pub replace-Reach :
      (stem : String) (source destination : Stage) (s : Spool Line)
      → Reach s (replace stem source destination s).1
  unfolding replace
  replace-Reach stem source destination s = elim (Option-cases (file_at stem source s.files)) [
    | inl e ↦ rw (e, replace) stay
    | inr (segment, e) ↦
        rw (e, replace)
          (once (
            moved stem segment destination segment.modified
              (file_at-lookup stem source s.files segment e) refl))
  ]

  pub remove_segment-Reach :
      (stem : String) (stage : Stage) (s : Spool Line)
      → owed stem s.trace ≡ none
      → Reach s (remove_segment stem stage s)
  unfolding remove_segment
  remove_segment-Reach stem stage s h = elim (Option-cases (file_at stem stage s.files)) [
    | inl e ↦ rw (e, remove_segment) stay
    | inr (segment, e) ↦
        rw (e, remove_segment)
          (once (settled stem segment h (file_at-lookup stem stage s.files segment e) refl))
  ]

  -- The live sink had no error, so the file may go.
  pub streamed-Reach :
      (stem : String) (stage : Stage) (error : Option String) (s : Spool Line)
      → is_silent error ≡ true
      → Reach s (remove_segment stem stage (observe (live_answered stem error) s))
  streamed-Reach stem stage error s silent =
      Reach-trans (once (observed (live_answered stem error) refl refl))
        (remove_segment-Reach stem stage _ (ground (arith, eq_iff stem stem, silent)))

  -- A success came in, so the file may go.
  pub confirmed-Reach :
      (stem : String) (stage : Stage) (s : Spool Line)
      → Reach s (remove_segment stem stage (observe (status_received stem true) s))
  confirmed-Reach stem stage s =
      Reach-trans (once (observed (status_received stem true) refl refl))
        (remove_segment-Reach stem stage _ (ground (arith, eq_iff stem stem)))

  -- An answer comes in, and a file is renamed.
  pub answered-Reach :
      (event : Event Line) (stem : String) (source destination : Stage) (s : Spool Line)
      → is_answer event ≡ true
      → Reach s (replace stem source destination (observe event s)).1
  answered-Reach event stem source destination s h =
      Reach-trans (once (observed event h refl)) (replace-Reach stem source destination _)

  pub touch-Reach : (stem : String) (now : ℕ) (s : Spool Line) → Reach s (touch stem now s)
  unfolding touch
  touch-Reach stem now s = elim (Option-cases (lookup stem s.files)) [
    | inl e ↦ rw (e, touch) stay
    | inr (segment, e) ↦ rw (e, touch) (once (moved stem segment segment.stage now e refl))
  ]
