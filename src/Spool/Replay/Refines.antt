-- ===== src/Spool/Replay/Refines.antt =====
-- The replay of the spool and its recovery are sequences of its steps.
use azure_mysql_monitoring.Prelude.{
  ltb, Bool-cases, Option-cases, is_empty, ℕ, ◌+◌, String, refl, inl, inr, Bool, true, false, ◌&&◌,
  List, [], ◌∷◌,
}
use azure_mysql_monitoring.Prelude.Dict.{Dict, lookup}
use azure_mysql_monitoring.Spool.Codec.{Codec}
use azure_mysql_monitoring.Spool.Replay.{
  Status, Service, replay_once, recover_temporary_segments, Answer, stopped, taken, broken,
  mark_terminal, apply_status, apply_statuses, apply_terminal_statuses, is_stale, retry_submissions,
  retry_unconfirmed_submissions, note_unreadable, quarantine, read_file, submit_read,
  submit_segment, submit_segments, clear_error, recover_files,
}
use azure_mysql_monitoring.Spool.Step.{
  noted, Reach, stay, then, Reach-trans, replace-Reach, touch-Reach, confirmed-Reach,
  answered-Reach,
}
use azure_mysql_monitoring.Spool.Store.{
  Stage, ready, failed, corrupt, submitted, Segment, unreadable, terminal, Spool, is_abandoned,
  is_submitted, ready_segments, pending_segments, file_at, replace, status_received,
}

module _ {Line : Type 0} (codec : Codec Line) (service : Service Line) where
  mark_terminal-Reach :
      (stem : String) (s : Spool Line) (r : Bool × Spool Line)
      → Reach codec s r.1
      → Reach codec s (mark_terminal codec service stem r).2
  unfolding mark_terminal
  mark_terminal-Reach stem s (true, u) h =
      then h (noted u.drawn (terminal stem ∷ []) u.overflow refl)
  mark_terminal-Reach stem s (false, u) h = h

  apply_status-Reach :
      (known : Dict (String × Stage)) (status : Status) (s : Spool Line)
      → Reach codec s (apply_status codec service known status s).2
  unfolding apply_status
  apply_status-Reach known status s = elim (Option-cases (lookup status.source_id known)) [
    | inl e ↦ rw (e, apply_status) stay
    | inr ((stem, stage), e) ↦
        rw (e, apply_status)
          (elim (Bool-cases status.succeeded) [
            | inl good ↦ rw good (confirmed-Reach codec stem stage s)
            | inr bad ↦ rw bad (elim (Bool-cases status.should_retry) [
              | inl again ↦
                  rw again
                    (answered-Reach codec (status_received stem false) stem stage ready s refl)
              | inr final ↦ rw final (
                  mark_terminal-Reach stem s _
                    (answered-Reach codec (status_received stem false) stem stage failed s refl))
            ])
          ])
  ]

  apply_statuses-Reach :
      (known : Dict (String × Stage)) (statuses : List Status) (completed : ℕ) (s : Spool Line)
      → Reach codec s (apply_statuses codec service known statuses completed s).2
  unfolding apply_statuses
  apply_statuses-Reach known [] completed s = stay
  apply_statuses-Reach known (status ∷ rest) completed s =
      let r = apply_status codec service known status s in
      let first = apply_status-Reach known status s in
      elim (Bool-cases r.0) [
        | inl alive ↦
            rw alive
              (Reach-trans codec first (apply_statuses-Reach known rest (completed + r.1) r.2))
        | inr ended ↦ rw ended first
      ]

  retry_submissions-Reach :
      (files : Dict (Segment Line)) (s : Spool Line)
      → Reach codec s (retry_submissions codec service files s).1
  unfolding retry_submissions
  retry_submissions-Reach [] s = stay
  retry_submissions-Reach ((stem, segment) ∷ files) s =
      let r = replace stem segment.stage ready s in
      let first = replace-Reach codec stem segment.stage ready s in
      elim (Bool-cases
        (is_submitted segment.stage && is_stale codec service s.confirmation_timeout segment)) [
          | inr fresh ↦ rw fresh (retry_submissions-Reach files s)
          | inl stale ↦ rw stale (elim (Bool-cases r.0) [
            | inl alive ↦ rw alive (Reach-trans codec first (retry_submissions-Reach files r.1))
            | inr ended ↦ rw ended first
          ])
        ]

  note_unreadable-Reach :
      (stem : String) (s : Spool Line) (r : Bool × Spool Line)
      → Reach codec s r.1
      → Reach codec s (note_unreadable codec service stem r).2
  unfolding note_unreadable
  note_unreadable-Reach stem s (true, u) h =
      then h (noted u.drawn (unreadable stem ∷ []) u.overflow refl)
  note_unreadable-Reach stem s (false, u) h = h

  quarantine-Reach :
      (stem : String) (s : Spool Line) → Reach codec s (quarantine codec service stem s).2
  unfolding quarantine
  quarantine-Reach stem s =
      note_unreadable-Reach stem s _ (replace-Reach codec stem ready corrupt s)

  submit_read-Reach :
      (stem : String) (answer : Answer) (s : Spool Line)
      → Reach codec s (submit_read codec service stem answer s).2
  unfolding submit_read
  submit_read-Reach stem broken s = stay
  submit_read-Reach stem (stopped fault) s = then stay (noted s.drawn (fault ∷ []) s.overflow refl)
  submit_read-Reach stem (taken id) s =
      Reach-trans codec (replace-Reach codec stem ready (submitted id) s)
        (touch-Reach codec stem service.now _)

  submit_segment-Reach :
      (stem : String) (s : Spool Line) → Reach codec s (submit_segment codec service stem s).2
  unfolding submit_segment
  submit_segment-Reach stem s = elim (Option-cases (file_at stem ready s.files)) [
    | inl e ↦ rw (e, submit_segment) (quarantine-Reach stem s)
    | inr (segment, e) ↦
        rw (e, submit_segment)
          (elim (Option-cases (read_file codec service stem segment)) [
            | inl f ↦ rw f (quarantine-Reach stem s)
            | inr (read, f) ↦ rw f (submit_read-Reach stem _ s)
          ])
  ]

  submit_segments-Reach :
      (stems : List String) (s : Spool Line)
      → Reach codec s (submit_segments codec service stems s).1
  unfolding submit_segments
  submit_segments-Reach [] s = stay
  submit_segments-Reach (stem ∷ stems) s =
      let r = submit_segment codec service stem s in
      let first = submit_segment-Reach stem s in
      elim (Bool-cases (r.0 && r.1)) [
        | inl going ↦ rw going (Reach-trans codec first (submit_segments-Reach stems r.2))
        | inr ended ↦ rw ended first
      ]

  clear_error-Reach :
      (completed : ℕ) (s : Spool Line) → Reach codec s (clear_error codec service completed s)
  unfolding clear_error
  clear_error-Reach completed s =
      elim (Bool-cases (ltb 0 completed && is_empty (pending_segments s))) [
        | inl all ↦ rw all (then stay (noted s.drawn [] s.overflow refl))
        | inr some_left ↦ rw some_left stay
      ]

  pub replay_once-Reach :
      (sorted : List String → List String) (s : Spool Line)
      → Reach codec s (replay_once codec service sorted s).1
  unfolding replay_once apply_terminal_statuses retry_unconfirmed_submissions
  replay_once-Reach sorted s =
      let a = apply_terminal_statuses codec service s in
      let b = retry_unconfirmed_submissions codec service a.2 in
      let c = submit_segments codec service (sorted (ready_segments b.1)) b.1 in
      let to_a = apply_statuses-Reach _ service.statuses 0 s in
      let to_b = Reach-trans codec to_a (retry_submissions-Reach a.2.files a.2) in
      let to_c = Reach-trans codec to_b (submit_segments-Reach _ b.1) in
      elim (Bool-cases a.0) [
        | inr e ↦ rw e to_a
        | inl e ↦ rw e (elim (Bool-cases b.0) [
          | inr f ↦ rw f to_b
          | inl f ↦ rw f (elim (Bool-cases c.0) [
            | inr g ↦ rw g to_c
            | inl g ↦ rw g (Reach-trans codec to_c (clear_error-Reach a.1 c.1))
          ])
        ])
      ]

  recover_files-Reach :
      (files : Dict (Segment Line)) (s : Spool Line)
      → Reach codec s (recover_files codec service files s)
  unfolding recover_files
  recover_files-Reach [] s = stay
  recover_files-Reach ((stem, segment) ∷ files) s = elim (Bool-cases (is_abandoned segment.stage)) [
    | inr other ↦ rw other (recover_files-Reach files s)
    | inl found ↦ rw found (
        Reach-trans codec (replace-Reach codec stem segment.stage _ s)
          (recover_files-Reach files _))
  ]

  pub recover_temporary_segments-Reach :
      (s : Spool Line) → Reach codec s (recover_temporary_segments codec service s)
  unfolding recover_temporary_segments
  recover_temporary_segments-Reach s = recover_files-Reach s.files s
