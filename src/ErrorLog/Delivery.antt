-- ===== src/ErrorLog/Delivery.antt =====
-- mysql-internal/collector/runtime.py: `TargetWorker._write_error_log_events`, with the reader that
-- it polls. What the sinks were given is kept, newest first.
use azure_mysql_monitoring.Prelude.{
  if◌then◌else◌, All-mem, ℕ, ◌≡◌, refl, ap, ◌∙◌, subst, Bool, true, false, Option, some, List, [],
  ◌∷◌, Memᴰ, arith,
}
use azure_mysql_monitoring.ErrorLog.{
  Entry, Envelope, Event, Reader, Probe, load_cursor, poll, event_of,
}
use azure_mysql_monitoring.ErrorLog.Reading.{IsRead, poll-IsRead}

pub record Feed : Type 0 where
  pub reader : Reader
  pub loaded : Bool
  pub written : List (List Event)

-- What one call meets: the file system, the server and the connection.
pub record Call : Type 0 where
  pub now : ℕ
  pub probe : Probe
  pub writable : Bool
  pub buffer : Option (List Entry)
  pub connected : Bool

ensure_loaded : Call → Feed → Feed
unfolding load_cursor
ensure_loaded call feed =
    if feed.loaded
    then feed
    else record feed { reader = load_cursor call.now call.probe feed.reader; loaded = true }

-- `SinkWriter.write_events` returns at once for no events.
give : List Event → List (List Event) → List (List Event)
give [] written = written
give (event ∷ events) written = (event ∷ events) ∷ written

after_poll : Bool → List Event × Reader → Feed → Bool × Feed
unfolding give
after_poll true (events, reader) feed =
    (true, record feed { reader = reader; written = give events feed.written })
after_poll false (events, reader) feed = (false, record feed { reader = reader })

-- `false` is the `ConnectionError` of a connection that is lost by now.
unfoldable pub deliver : Envelope → Call → Feed → Bool × Feed
unfolding ensure_loaded after_poll poll
deliver envelope call feed =
    let ready = ensure_loaded call feed in
    after_poll call.connected (poll envelope call.writable call.buffer ready.reader) ready

event_of-ts : (envelope : Envelope) (e : Entry) → (event_of envelope e).ts ≡ e.logged
unfolding event_of
event_of-ts envelope e = refl

poll-available :
    (envelope : Envelope) (writable : Bool) (answer : Option (List Entry)) (r : Reader)
    → (poll envelope writable answer r).1.available ≡ r.available
unfolding poll
poll-available envelope writable answer r = ground arith

module _ (envelope : Envelope) (call : Call) (feed : Feed) where
  deliver_failed :
      feed.loaded ≡ true
      → call.connected ≡ false
      → deliver envelope call feed
        ≡ (false, record feed { reader = (poll envelope call.writable call.buffer feed.reader).1 })
  unfolding deliver
  deliver_failed l d = rw (l, d) refl

  -- A connection that turns out lost after the poll: the call fails and gives the sinks nothing,
  -- and an event that the poll had read is read by no poll of the reader it leaves.
  pub deliver_loses :
      (buffer later : List Entry) (cursor : ℕ) (event : Event) (writable : Bool)
      → feed.loaded ≡ true
      → call.connected ≡ false
      → call.buffer ≡ some buffer
      → feed.reader.cursor ≡ some cursor
      → feed.reader.available ≡ true
      → Memᴰ event (poll envelope call.writable call.buffer feed.reader).0
      → ((deliver envelope call feed).0 ≡ false)
        × ((deliver envelope call feed).1.written ≡ feed.written)
        × (¬ Memᴰ event
            (poll envelope writable (some later) (deliver envelope call feed).1.reader).0)
  deliver_loses buffer later cursor event writable l d b c a m =
      let failed = deliver_failed l d in
      let r = (poll envelope call.writable call.buffer feed.reader).1 in
      let first = poll-IsRead envelope call.writable buffer feed.reader cursor c a in
      let at_new : r.cursor ≡ some first.0 =
        ap (λ o. (poll envelope call.writable o feed.reader).1.cursor) b ∙ first.1 in
      let open_still : r.available ≡ true =
        poll-available envelope call.writable call.buffer feed.reader ∙ a in
      let second = poll-IsRead envelope writable later r first.0 at_new open_still in
      let x =
        All-mem (IsRead envelope call.writable buffer feed.reader cursor first.0) _ first.3
          (subst (λ o. Memᴰ event (poll envelope call.writable o feed.reader).0) b m) in
      (
        ap (λ p. p.0) failed,
        ap (λ p. p.1.written) failed,
        λ again.
            let y = All-mem (IsRead envelope writable later r first.0 second.0) _ second.3 (
              subst (λ p. Memᴰ event (poll envelope writable (some later) p.1.reader).0) failed
                again) in
            let at_x : event.ts ≡ x.entry.logged =
              ap (λ e. e.ts) x.built ∙ event_of-ts envelope _ in
            let at_y : event.ts ≡ y.entry.logged =
              ap (λ e. e.ts) y.built ∙ event_of-ts envelope _ in
            absurd (omega (arith, x.until, y.after, at_x, at_y)),
      )
