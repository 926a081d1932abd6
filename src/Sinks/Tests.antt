-- ===== src/Sinks/Tests.antt =====
-- A client that refuses its second request, and the theorem about the requests at it.
use azure_mysql_monitoring.Prelude.{
  ℕ, zero, suc, ◌≡◌, refl, true, false, none, some, List, [], ◌∷◌, String,
}
use azure_mysql_monitoring.Plan.Document.{int}
use azure_mysql_monitoring.Prelude.Int.{pos}
use azure_mysql_monitoring.Prelude.Result.{ok, err, Result}
use azure_mysql_monitoring.Sinks.Adx.{
  IngestClient, AdxSink, adx_sink, endpoint, request, ingest, write_both, pop_ingestion_statuses,
}
use azure_mysql_monitoring.Sinks.Adx.Delivery.{IsIngested, ingest-IsIngested}
use azure_mysql_monitoring.Spool.Codec.{Row}

abbrev small_row : Row
small_row = ("value", int (pos 7)) ∷ []

abbrev flaky_client : IngestClient
flaky_client [] made = ok (some "first")
flaky_client (before ∷ more) made = err "throttled"

abbrev queued : AdxSink
queued = adx_sink false "monitoring"

many_rows : ℕ → List Row
many_rows zero = []
many_rows (suc n) = small_row ∷ many_rows n

ingest-IsIngested_example :
    IsIngested flaky_client
      (request queued "MysqlTelemetry" "MysqlTelemetryMapping" (some "segment"))
      (small_row ∷ small_row ∷ [])
      []
      (ingest flaky_client
        (small_row ∷ small_row ∷ [])
        "MysqlTelemetry"
        "MysqlTelemetryMapping"
        (some "segment")
        queued).1.sent
      (ok ("first" ∷ []))
unfolding ingest
ingest-IsIngested_example =
    ingest-IsIngested flaky_client (small_row ∷ small_row ∷ []) "MysqlTelemetry"
      "MysqlTelemetryMapping" (some "segment") queued

-- 1001 rows take two requests, and the second is refused.
second_refused :
    (ingest flaky_client (many_rows 1001) "MysqlTelemetry" "MysqlTelemetryMapping" none queued).0
    ≡ err "throttled"
unfolding ingest many_rows
second_refused = refl

both_errors :
    (write_both (λ before made. err "down") (small_row ∷ []) (small_row ∷ []) queued).last_error
    ≡ some "down; down"
unfolding write_both
both_errors = refl

abbrev first_queue : ℕ → Result String (List String)
first_queue n = ok ("lost" ∷ [])

-- Failures that were popped are gone when the second queue cannot be read.
failures_lost : (pop_ingestion_statuses first_queue (λ n. err "timeout") 32 queued).0 ≡ []
unfolding pop_ingestion_statuses
failures_lost = refl

engine : endpoint true "https://ingest-c" "" (λ uri. "https://c") ≡ "https://c"
engine = refl
