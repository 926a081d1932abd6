-- ===== src/ErrorLog/Tests.antt =====
-- A buffer of three entries, and the theorems about the error log at it.
use azure_mysql_monitoring.Prelude.{
  All, ℕ, ◌≤◌, ◌≡◌, refl, inl, true, false, none, some, List, [], ◌∷◌, Memᴰ, arith,
}
use azure_mysql_monitoring.ErrorLog.{
  unreadable, Entry, Envelope, Event, Reader, empty, event_of, new_reader, load_cursor, poll,
}
use azure_mysql_monitoring.ErrorLog.Delivery.{Feed, Call, deliver, deliver_loses}
use azure_mysql_monitoring.ErrorLog.Reading.{IsRead, poll-IsRead, poll_complete}
use azure_mysql_monitoring.ErrorLog.Restart.{restart_resumes}

abbrev entry : ℕ → Entry
entry t = record {
  logged = t;
  prio = some "Error";
  error_code = some "MY-000001";
  subsystem = none;
  message = some "lost";
}

abbrev buffer : List Entry
buffer = entry 30 ∷ entry 10 ∷ entry 20 ∷ []

abbrev envelope : Envelope
envelope = record { run_id = "run"; host = "db"; tier = "premium-ssd-v2" }

abbrev reader : Reader
reader = record { cursor = some 10; available = true; file = none }

abbrev event : ℕ → Event
event t = record {
  ts = t;
  run_id = "run";
  host = "db";
  tier = "premium-ssd-v2";
  source = "error_log";
  level = "Error";
  error_code = "MY-000001";
  subsystem = "";
  message = "lost";
}

polled :
    poll envelope true (some buffer) reader
    ≡ (event 20 ∷ event 30 ∷ [], record reader { cursor = some 30; file = some 30 })
unfolding poll
polled = refl

poll-IsRead_example :
    (new : ℕ) × ((poll envelope true (some buffer) reader).1.cursor ≡ some new)
    × (10 ≤ new)
    × All (IsRead envelope true buffer reader 10 new) (poll envelope true (some buffer) reader).0
poll-IsRead_example = poll-IsRead envelope true buffer reader 10 refl refl

poll_complete_example :
    Memᴰ (event_of envelope (entry 20)) (poll envelope true (some buffer) reader).0
unfolding poll
poll_complete_example =
    poll_complete envelope true buffer reader 10 (entry 20) 30 refl refl refl
      (Memᴰ.tail (Memᴰ.tail (Memᴰ.head refl))) (omega arith) (inl (omega arith))

abbrev call : Call
call = record { now = 50; probe = empty; writable = false; buffer = some buffer; connected = false }

abbrev feed : Feed
feed = record { reader = reader; loaded = true; written = [] }

deliver_loses_example :
    ((deliver envelope call feed).0 ≡ false)
    × ((deliver envelope call feed).1.written ≡ [])
    × (¬ Memᴰ (event 20) (poll envelope true (some buffer) (deliver envelope call feed).1.reader).0)
unfolding poll
deliver_loses_example =
    deliver_loses envelope call feed buffer buffer 10 (event 20) true refl refl refl refl refl
      (Memᴰ.head refl)

restart_resumes_example :
    (load_cursor 60 unreadable (new_reader (poll envelope true (some buffer) reader).1.file)).cursor
    ≡ some 30
unfolding poll
restart_resumes_example = restart_resumes envelope (some buffer) reader 60 unreadable 30 refl refl
