-- ===== src/Spool/Run.antt =====
-- A spool's life: writes, replays and restarts in any order, and what holds of it after each.
use azure_mysql_monitoring.Prelude.{All, ℕ, ◌≤◌, String, false, List, [], ◌∷◌, arith}
use azure_mysql_monitoring.Spool.Codec.{Row, Codec}
use azure_mysql_monitoring.Spool.Kept.{IsKept, IsWithin, Reach-IsKept}
use azure_mysql_monitoring.Spool.Replay.{Service, replay_once, recover_temporary_segments}
use azure_mysql_monitoring.Spool.Replay.Refines.{
  replay_once-Reach, recover_temporary_segments-Reach,
}
use azure_mysql_monitoring.Spool.Step.{Reach, stay, Reach-trans}
use azure_mysql_monitoring.Spool.Store.{Spool, pending_bytes}
use azure_mysql_monitoring.Spool.Write.{Outside, write_projected}
use azure_mysql_monitoring.Spool.Write.Refines.{IsShort, write_projected-Reach}

pub data Operation (Line : Type 0) : Type 0 where
  write : Outside Line → List Row → String → String → Operation Line
  replay : Service Line → (List String → List String) → Operation Line
  restart : Service Line → Operation Line

module _ {Line : Type 0} where
  unfoldable pub empty_spool : ℕ → ℕ → Spool Line
  empty_spool max_bytes confirmation_timeout = record {
    files = [];
    max_bytes = max_bytes;
    confirmation_timeout = confirmation_timeout;
    drawn = 0;
    last_error = [];
    overflow = false;
    trace = [];
  }

  module _ (codec : Codec Line) where
    perform : Operation Line → Spool Line → Spool Line
    perform (write out rows table kind) s = (write_projected codec out rows table kind s).1
    perform (replay service sorted) s = (replay_once codec service sorted s).1
    perform (restart service) s = recover_temporary_segments codec service s

    unfoldable pub perform_all : List (Operation Line) → Spool Line → Spool Line
    unfolding perform
    perform_all [] s = s
    perform_all (operation ∷ rest) s = perform_all rest (perform operation s)

    -- The disk of every write leaves no more of a failed segment than was to be written.
    abbrev pub IsSane : Operation Line → Type 0
    IsSane (write out rows table kind) = IsShort codec out
    IsSane (replay service sorted) = Unit
    IsSane (restart service) = Unit

    perform-Reach :
        (operation : Operation Line) (s : Spool Line)
        → IsSane operation
        → Reach codec s (perform operation s)
    unfolding perform
    perform-Reach (write out rows table kind) s sane =
        write_projected-Reach codec out sane rows table kind s
    perform-Reach (replay service sorted) s sane = replay_once-Reach codec service sorted s
    perform-Reach (restart service) s sane = recover_temporary_segments-Reach codec service s

    -- Writes, replays and restarts are sequences of steps of the disk.
    pub perform_all-Reach :
        (operations : List (Operation Line)) (s : Spool Line)
        → All IsSane operations
        → Reach codec s (perform_all operations s)
    unfolding perform_all
    perform_all-Reach [] s sane = stay
    perform_all-Reach (operation ∷ rest) s sane =
        Reach-trans codec (perform-Reach operation s sane.0) (perform_all-Reach rest _ sane.1)

    empty_spool-IsKept : (max_bytes timeout : ℕ) → IsKept (empty_spool max_bytes timeout)
    unfolding empty_spool
    empty_spool-IsKept max_bytes timeout stem lines h = cc h

    empty_spool-IsWithin : (max_bytes timeout : ℕ) → IsWithin codec (empty_spool max_bytes timeout)
    unfolding empty_spool pending_bytes
    empty_spool-IsWithin max_bytes timeout = omega arith

    perform_all-IsKept :
        (operations : List (Operation Line)) (max_bytes timeout : ℕ)
        → All IsSane operations
        → let s = perform_all operations (empty_spool max_bytes timeout) in
          IsKept s × IsWithin codec s
    perform_all-IsKept operations max_bytes timeout sane =
        Reach-IsKept codec _ _ (perform_all-Reach operations _ sane)
          (empty_spool-IsKept max_bytes timeout) (empty_spool-IsWithin max_bytes timeout)

    -- In the same histories the files of the spool, of every stage, are never more bytes than the
    -- limit allows.
    pub perform_all_within :
        (operations : List (Operation Line)) (max_bytes timeout : ℕ)
        → All IsSane operations
        → let s = perform_all operations (empty_spool max_bytes timeout) in
          pending_bytes codec s ≤ s.max_bytes
    perform_all_within operations max_bytes timeout sane =
        (perform_all-IsKept operations max_bytes timeout sane).1
