-- ===== src/ErrorLog/Restart.antt =====
-- The cursor over a restart of the collector.
use azure_mysql_monitoring.Prelude.{
  Bool-cases, Option-cases, is_empty, ℕ, ◌≡◌, refl, ◌∙◌, inl, inr, true, false, Option, some, List,
  [], sym, subst, none, ◌∷◌, map,
}
use azure_mysql_monitoring.ErrorLog.{
  Entry, Envelope, Reader, Probe, new_reader, load_cursor, poll, poll_rows, max_rows_per_poll,
  event_of, select_rows, finish_poll,
}

finish_poll-file :
    (cursor : ℕ) (rows : List Entry) (r : Reader)
    → is_empty rows ≡ false
    → (finish_poll true cursor rows r).file ≡ (finish_poll true cursor rows r).cursor
unfolding finish_poll
finish_poll-file cursor [] r h = cc h
finish_poll-file cursor (e ∷ es) r h = refl

is_empty-map :
    {A B : Type 0} (f : A → B) (xs : List A) → is_empty (map f xs) ≡ false → is_empty xs ≡ false
is_empty-map f [] h = h
is_empty-map f (x ∷ xs) h = refl

poll_rows-file :
    (envelope : Envelope) (cursor : ℕ) (answer : Option (List Entry)) (r : Reader)
    → is_empty (poll_rows envelope true cursor answer r).0 ≡ false
    → (poll_rows envelope true cursor answer r).1.file
      ≡ (poll_rows envelope true cursor answer r).1.cursor
unfolding poll_rows
poll_rows-file envelope cursor none r h = cc h
poll_rows-file envelope cursor (some buffer) r h =
    let rows = select_rows cursor max_rows_per_poll buffer in
    finish_poll-file cursor rows r (is_empty-map (event_of envelope) rows h)

-- A poll yields events only where it reads.
poll-file :
    (envelope : Envelope) (answer : Option (List Entry)) (r : Reader)
    → is_empty (poll envelope true answer r).0 ≡ false
    → (poll envelope true answer r).1.file ≡ (poll envelope true answer r).1.cursor
unfolding poll
poll-file envelope answer r h = elim (Option-cases r.cursor) [
  | inl e ↦
      let idle : poll envelope true answer r ≡ ([], r) = rw e refl in
      cc (subst (λ p. is_empty p.0 ≡ false) idle h)
  | inr (cursor, e) ↦ elim (Bool-cases r.available) [
    | inr off ↦
        let idle : poll envelope true answer r ≡ ([], r) = rw (e, off) refl in
        cc (subst (λ p. is_empty p.0 ≡ false) idle h)
    | inl on ↦
        let reading : poll envelope true answer r ≡ poll_rows envelope true cursor answer r =
          rw (e, on) refl in
        subst (λ p. is_empty p.0 ≡ false → p.1.file ≡ p.1.cursor) (sym reading)
          (poll_rows-file envelope cursor answer r) h
  ]
]

-- A collector that is started again after a poll that yielded events, and whose cursor file could be
-- written, goes on where that poll ended, whatever the buffer holds by then.
pub restart_resumes :
    (envelope : Envelope) (answer : Option (List Entry)) (r : Reader) (now : ℕ) (probe : Probe)
    (cursor : ℕ)
    → is_empty (poll envelope true answer r).0 ≡ false
    → (poll envelope true answer r).1.cursor ≡ some cursor
    → (load_cursor now probe (new_reader (poll envelope true answer r).1.file)).cursor ≡ some cursor
unfolding load_cursor new_reader
restart_resumes envelope answer r now probe cursor h c =
    let file : (poll envelope true answer r).1.file ≡ some cursor =
      poll-file envelope answer r h ∙ c in
    rw (file, load_cursor) refl
