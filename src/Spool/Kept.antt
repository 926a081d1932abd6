-- ===== src/Spool/Kept.antt =====
-- The two promises of the spool, over its steps: a segment that was accepted stays on disk as it was
-- written until its rows have arrived, and the files stay within the limit.
use mathlib.Core.Option.{some-injective}
use azure_mysql_monitoring.Prelude.{
  ◌+◌, ◌≤◌, String, ◌≡◌, refl, true, false, some, List, [], ◌∷◌, arith, ◌==◌, eq_iff, Bool-cases,
  sym, ◌∙◌, subst, inl, inr,
}
use azure_mysql_monitoring.Prelude.Dict.{Dict, lookup, insert, remove, has, lookup-insert}
use azure_mysql_monitoring.Spool.Codec.{Codec, bytes}
use azure_mysql_monitoring.Spool.Step.{
  Step, left, moved, settled, noted, Reach, Reach_ind, landed, observed, is_answer,
}
use azure_mysql_monitoring.Spool.Store.{
  Segment, Event, accepted, Spool, total, live, pending_bytes, live_answered, status_received, owed,
}

lookup-remove :
    {V : Type 0} (k j : String) (d : Dict V) → (k == j) ≡ false → lookup j (remove k d) ≡ lookup j d
unfolding lookup remove
lookup-remove k j [] h = refl
lookup-remove k j ((i, v) ∷ d) h =
    ground (arith, lookup-remove k j d h, eq_iff i k, eq_iff i j, eq_iff k j)

module _ {Line : Type 0} where
  -- Every owed segment has its file.
  abbrev pub IsKept : Spool Line → Type 0
  IsKept s =
      (stem : String) (lines : List Line)
      → owed stem s.trace ≡ some lines
      → (segment : Segment Line) × (lookup stem s.files ≡ some segment) × (segment.lines ≡ lines)

  -- What a write of a file does to another one.
  insert_other :
      (k stem : String) (new segment : Segment Line) (files : Dict (Segment Line))
      → (k == stem) ≡ false
      → lookup stem files ≡ some segment
      → lookup stem (insert k new files) ≡ some segment
  insert_other k stem new segment files h e = ground (arith, lookup-insert k stem new files)

  insert_same :
      (k stem : String) (new : Segment Line) (files : Dict (Segment Line))
      → (k == stem) ≡ true
      → lookup stem (insert k new files) ≡ some new
  insert_same k stem new files h = ground (arith, lookup-insert k stem new files)

  -- An answer makes nothing owed that was not.
  owed_answered :
      (event : Event Line) (stem : String) (events : List (Event Line)) (lines : List Line)
      → is_answer event ≡ true
      → owed stem (event ∷ events) ≡ some lines
      → owed stem events ≡ some lines
  owed_answered (accepted j written) stem events lines h e = cc h
  owed_answered (live_answered j error) stem events lines h e = ground (arith, e)
  owed_answered (status_received j succeeded) stem events lines h e = ground (arith, e)

  total-insert-new :
      (codec : Codec Line) (k : String) (new : Segment Line) (files : Dict (Segment Line))
      → has k files ≡ false
      → total codec (insert k new files) ≡ total codec files + bytes codec new.lines
  unfolding total insert lookup
  total-insert-new codec k new [] h = omega arith
  total-insert-new codec k new ((j, v) ∷ files) h =
      ground (arith, total-insert-new codec k new files)

  total-insert-old :
      (codec : Codec Line) (k : String) (old new : Segment Line) (files : Dict (Segment Line))
      → lookup k files ≡ some old
      → new.lines ≡ old.lines
      → total codec (insert k new files) ≡ total codec files
  unfolding total insert lookup
  total-insert-old codec k old new [] h e = cc h
  total-insert-old codec k old new ((j, v) ∷ files) h e =
      ground (arith, total-insert-old codec k old new files)

  total-remove :
      (codec : Codec Line) (k : String) (files : Dict (Segment Line))
      → total codec (remove k files) ≤ total codec files
  unfolding total remove
  total-remove codec k [] = omega arith
  total-remove codec k ((j, v) ∷ files) = ground (arith, total-remove codec k files)

  module _ (codec : Codec Line) where
    Step-IsKept : (s u : Spool Line) → Step codec s u → IsKept s → IsKept u
    Step-IsKept s u (landed k lines at fresh room e) kept = subst IsKept (sym e) λ stem owes h.
        elim (Bool-cases (k == stem)) [
          | inl same ↦ (
            record { stage = live; lines = lines; modified = at },
            insert_same k stem _ s.files same,
            some-injective _ _ (rw same at h),
          )
          | inr other ↦
              let (segment, found, agrees) = kept stem owes (rw other at h) in
              (segment, insert_other k stem _ segment s.files other found, agrees)
        ]
    Step-IsKept s u (left k lines at fresh room e) kept = subst IsKept (sym e) λ stem owes h.
        let (segment, found, agrees) = kept stem owes h in
        elim (Bool-cases (k == stem)) [
          | inl same ↦ absurd (ground (arith, fresh, found, eq_iff k stem))
          | inr other ↦ (segment, insert_other k stem _ segment s.files other found, agrees)
        ]
    Step-IsKept s u (moved k old stage at there e) kept = subst IsKept (sym e) λ stem owes h.
        let (segment, found, agrees) = kept stem owes h in
        elim (Bool-cases (k == stem)) [
          | inl same ↦ (
            record { stage = stage; lines = old.lines; modified = at },
            insert_same k stem _ s.files same,
            ground (arith, there, found, eq_iff k stem, agrees),
          )
          | inr other ↦ (segment, insert_other k stem _ segment s.files other found, agrees)
        ]
    Step-IsKept s u (observed event answer e) kept =
        subst IsKept (sym e)
          λ stem owes h. kept stem owes (owed_answered event stem s.trace owes answer h)
    Step-IsKept s u (settled k old nothing there e) kept = subst IsKept (sym e) λ stem owes h.
        elim (Bool-cases (k == stem)) [
          | inl same ↦ absurd (ground (arith, nothing, h, eq_iff k stem, same))
          | inr other ↦
              let (segment, found, agrees) = kept stem owes h in
              (segment, lookup-remove k stem s.files other ∙ found, agrees)
        ]
    Step-IsKept s u (noted drawn last_error overflow e) kept = subst IsKept (sym e) kept

    abbrev pub IsWithin : Spool Line → Type 0
    IsWithin s = pending_bytes codec s ≤ s.max_bytes

    Step-IsWithin : (s u : Spool Line) → Step codec s u → IsWithin s → IsWithin u
    unfolding pending_bytes
    Step-IsWithin s u (landed k lines at fresh room e) h =
        subst IsWithin (sym e) (omega (arith, room, total-insert-new codec k _ s.files fresh))
    Step-IsWithin s u (left k lines at fresh room e) h =
        subst IsWithin (sym e) (omega (arith, room, total-insert-new codec k _ s.files fresh))
    Step-IsWithin s u (moved k old stage at there e) h =
        subst IsWithin (sym e) (omega (arith, h, total-insert-old codec k old _ s.files there refl))
    Step-IsWithin s u (observed event answer e) h = subst IsWithin (sym e) h
    Step-IsWithin s u (settled k old nothing there e) h =
        subst IsWithin (sym e) (omega (arith, h, total-remove codec k s.files))
    Step-IsWithin s u (noted drawn last_error overflow e) h = subst IsWithin (sym e) h

    -- Wherever the spool is stopped, each segment that it accepted and whose rows have not arrived is
    -- on disk with the lines that were written, and the files are within the limit, if both held at
    -- the start.
    pub Reach-IsKept :
        (s u : Spool Line) → Reach codec s u → IsKept s → IsWithin s → IsKept u × IsWithin u
    Reach-IsKept s u r kept within =
        (Reach_ind codec IsKept Step-IsKept r kept, Reach_ind codec IsWithin Step-IsWithin r within)
