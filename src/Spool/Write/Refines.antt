-- ===== src/Spool/Write/Refines.antt =====
-- The writes of the spool are sequences of its steps.
use azure_mysql_monitoring.Prelude.{
  ltb, Bool-cases, suc, ◌+◌, ◌≤◌, String, ◌≡◌, refl, inl, inr, Bool, true, false, Option, none,
  some, List, [], ◌∷◌, arith,
}
use azure_mysql_monitoring.Prelude.Dict.{Dict, has}
use azure_mysql_monitoring.Prelude.Text.{is_blank}
use azure_mysql_monitoring.Spool.Codec.{Row, Codec, encode, bytes}
use azure_mysql_monitoring.Spool.Step.{
  landed, left, noted, Reach, stay, then, Reach-trans, streamed-Reach, answered-Reach,
}
use azure_mysql_monitoring.Spool.Store.{
  live, ready, Fault, Spool, pending_bytes, live_answered, observe,
}
use azure_mysql_monitoring.Spool.Write.{
  Disk, stored, torn, refused, Outside, max_rows, group_rows, chunks, write_projected, put_on_disk,
  persist, after_live, after_persist, write_chunk, write_chunks, write_groups, finish_write,
}

module _ {Line : Type 0} (codec : Codec Line) where
  noted_last :
      {s u : Spool Line} (last_error : List Fault)
      → Reach codec s u
      → Reach codec s (record u { last_error = last_error })
  noted_last {u = u} last_error r = then r (noted u.drawn last_error u.overflow refl)

  module _ (out : Outside Line) where
    -- A failed write leaves no more than was to be written.
    abbrev pub IsShort : Type 0
    IsShort =
        (stem : String) (lines rest : List Line)
        → out.disk stem lines ≡ torn rest
        → bytes codec rest ≤ bytes codec lines

    module _ (short : IsShort) where
      put_on_disk-Reach :
          (stem : String) (lines : List Line) (answer : Disk Line) (s : Spool Line)
          → out.disk stem lines ≡ answer
          → has stem s.files ≡ false
          → pending_bytes codec s + bytes codec lines ≤ s.max_bytes
          → Reach codec s (put_on_disk codec out stem lines answer s).1
      unfolding put_on_disk
      put_on_disk-Reach stem lines stored s e fresh room =
          then stay (landed stem lines (out.written_at stem) fresh room refl)
      put_on_disk-Reach stem lines (torn rest) s e fresh room = then stay (
          left stem rest (out.written_at stem) fresh (omega (arith, room, short stem lines rest e))
            refl)
      put_on_disk-Reach stem lines refused s e fresh room = stay

      persist-Reach :
          (target table kind : String) (rows : List Row) (s : Spool Line)
          → Reach codec s (persist codec out target table kind rows s).1
      unfolding persist
      persist-Reach target table kind rows s =
          let stem = out.stem target s.drawn in
          let lines = encode codec table kind rows in
          let drew = then stay (noted (suc s.drawn) s.last_error s.overflow refl) in
          elim (Bool-cases (ltb s.max_bytes (pending_bytes codec s + bytes codec lines))) [
            | inl full ↦ rw full drew
            | inr room ↦ rw room (elim (Bool-cases (has stem s.files)) [
              | inl taken ↦ rw taken drew
              | inr fresh ↦ rw fresh (
                  Reach-trans codec drew (
                    put_on_disk-Reach stem lines (out.disk stem lines) _ refl fresh
                      (ground (arith, room))))
            ])
          ]

      after_persist-Reach :
          (target table : String) (errors : List Fault) (r : Option String × Spool Line)
          → Reach codec r.1 (after_persist codec out target table errors r).2
      unfolding after_persist
      after_persist-Reach target table errors (none, s) =
          then stay (noted s.drawn s.last_error true refl)
      after_persist-Reach target table errors (some stem, s) = written (out.live_error stem)
        where
          written :
              (answer : Option String)
              → Reach codec s
                  (after_live codec out stem answer errors
                    (observe (live_answered stem answer) s)).2
          written none = streamed-Reach codec stem live none s refl
          written (some error) = elim (Bool-cases (is_blank error)) [
            | inl silent ↦ rw silent (streamed-Reach codec stem live (some error) s silent)
            | inr said ↦
                rw said
                  (answered-Reach codec (live_answered stem (some error)) stem live ready s refl)
          ]

      write_chunk-Reach :
          (target table kind : String) (rows : List Row) (errors : List Fault) (s : Spool Line)
          → Reach codec s (write_chunk codec out target table kind rows errors s).2
      unfolding write_chunk
      write_chunk-Reach target table kind rows errors s =
          Reach-trans codec (persist-Reach target table kind rows s)
            (after_persist-Reach target table errors (persist codec out target table kind rows s))

      write_chunks-Reach :
          (target table kind : String) (parts : List (List Row)) (errors : List Fault)
          (s : Spool Line)
          → Reach codec s (write_chunks codec out target table kind parts errors s).2
      unfolding write_chunks
      write_chunks-Reach target table kind [] errors s = stay
      write_chunks-Reach target table kind (part ∷ parts) errors s =
          let r = write_chunk codec out target table kind part errors s in
          let first = write_chunk-Reach target table kind part errors s in
          elim (Bool-cases r.0) [
            | inl alive ↦
                rw alive
                  (Reach-trans codec first (write_chunks-Reach target table kind parts r.1 r.2))
            | inr ended ↦ rw ended first
          ]

      write_groups-Reach :
          (table kind : String) (groups : Dict (List Row)) (errors : List Fault) (s : Spool Line)
          → Reach codec s (write_groups codec out table kind groups errors s).2
      unfolding write_groups
      write_groups-Reach table kind [] errors s = stay
      write_groups-Reach table kind ((target, rows) ∷ groups) errors s =
          let r = write_chunks codec out target table kind (chunks max_rows rows) errors s in
          let first = write_chunks-Reach target table kind (chunks max_rows rows) errors s in
          elim (Bool-cases r.0) [
            | inl alive ↦
                rw alive (Reach-trans codec first (write_groups-Reach table kind groups r.1 r.2))
            | inr ended ↦ rw ended first
          ]

      finish_write-Reach :
          (s : Spool Line) (r : Bool × List Fault × Spool Line)
          → Reach codec s r.2
          → Reach codec s (finish_write codec out r).1
      unfolding finish_write
      finish_write-Reach s (true, errors, u) h = noted_last errors h
      finish_write-Reach s (false, errors, u) h = h

      pub write_projected-Reach :
          (rows : List Row) (table kind : String) (s : Spool Line)
          → Reach codec s (write_projected codec out rows table kind s).1
      unfolding write_projected
      write_projected-Reach [] table kind s = stay
      write_projected-Reach (row ∷ rows) table kind s =
          finish_write-Reach s _
            (write_groups-Reach table kind (group_rows out.text_of [] (row ∷ rows)) [] s)
