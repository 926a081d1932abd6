-- ===== src/Upload/Marking.antt =====
-- What a marker of upload_jsonl.py says of the upload.
use mathlib.Core.Option.{some-injective}
use azure_mysql_monitoring.Prelude.{
  Bool-cases, Option-cases, String, ◌≡◌, refl, ap, ◌≢◌, inl, inr, true, none, List, ◌++◌, map,
  length, ℕ, sym, ◌⊎◌, Option, some, ◌∙◌, Bool, not, ◌&&◌, if◌then◌else◌, subst, [],
}
use azure_mysql_monitoring.Prelude.Result.{err, ok, Result-cases}
use azure_mysql_monitoring.Prelude.Text.{is_blank}
use azure_mysql_monitoring.Settings.PlanSink.{plan_sink_config}
use azure_mysql_monitoring.Sinks.Adx.{
  IngestRequest, IngestClient, AdxSink, adx_sink, request, write_raw_rows,
}
use azure_mysql_monitoring.Sinks.Adx.Delivery.{
  write_raw_rows-Answers, write_raw_rows_sends, request-write_raw_rows, AllAnswered,
}
use azure_mysql_monitoring.Spool.Codec.{Row}
use azure_mysql_monitoring.Spool.Write.Chunks.{concat}
use azure_mysql_monitoring.Telemetry.Catalog.{MetricCatalog, SeriesRow}
use azure_mysql_monitoring.Upload.{Reading}
use azure_mysql_monitoring.Upload.Main.{
  Outside, error_of, mark, upload_rows, UploadRun, write_packed, write_series, if_accepted,
  rows_to_upload, main, no_sink, ends,
}
use azure_mysql_monitoring.Upload.RoundTrip.{packed}

module _ (client : IngestClient) (database : String) where
  abbrev packed_request : List Row → IngestRequest
  packed_request = request (adx_sink true database) "MysqlTelemetry" "MysqlTelemetryMapping" none

  abbrev series_request : List Row → IngestRequest
  series_request =
      request (adx_sink true database) "MysqlMetricSeries" "MysqlMetricSeriesMapping" none

  -- All rows of both tables were sent, and the client answered each request without an exception.
  pub record IsUploaded (packed series : List Row) (s : AdxSink) : Type 0 where
    pub packed_parts : List (List Row)
    pub series_parts : List (List Row)
    pub sent_all : s.sent ≡ map packed_request packed_parts ++ map series_request series_parts
    pub packed_complete : concat packed_parts ≡ packed
    pub series_complete : concat series_parts ≡ series
    pub packed_answered : AllAnswered client [] (map packed_request packed_parts)
    pub series_answered :
        AllAnswered client (map packed_request packed_parts) (map series_request series_parts)

blank_empty : (s : String) → is_blank s ≡ true → s ≡ ""
blank_empty String.[] h = refl
blank_empty (String.◌∷◌ c s) h = cc h

-- No exception of the client has an empty text.
abbrev pub Speaks : IngestClient → Type 0
Speaks client = (before : List IngestRequest) (made : IngestRequest) → client before made ≢ err ""

error_of-none : (error : Option String) → error_of error ≡ none → (error ≡ none) ⊎ (error ≡ some "")
unfolding error_of
error_of-none none h = inl refl
error_of-none (some message) h = elim (Bool-cases (is_blank message)) [
  | inl blank ↦ inr (ap some (blank_empty message blank))
  | inr said ↦ cc (rw said at h)
]

last_error-none :
    (client : IngestClient) (rows : List Row) (table mapping : String) (s : AdxSink)
    → Speaks client
    → error_of (write_raw_rows client rows table mapping none s).1.last_error ≡ none
    → (write_raw_rows client rows table mapping none s).1.last_error ≡ none
last_error-none client rows table mapping s speaks h = elim (error_of-none _ h) [
  | inl e ↦ e
  | inr e ↦
      let (before, made, answer) = write_raw_rows-Answers client rows table mapping none s "" e in
      absurd (speaks before made answer)
]

if_accepted-marked :
    (s : AdxSink) (continue : AdxSink → UploadRun) (counts : ℕ × ℕ)
    → (if_accepted s continue).marked ≡ some counts
    → (error_of s.last_error ≡ none) × (if_accepted s continue ≡ continue s)
unfolding if_accepted
if_accepted-marked s continue counts h = elim (Option-cases (error_of s.last_error)) [
  | inl e ↦ (e, rw (e, if_accepted) refl)
  | inr (message, e) ↦ cc (rw (e, if_accepted) at h)
]

module _ (out : Outside) (packed series : List Row) (database : String) where
  mark-marked :
      (s : AdxSink) (counts : ℕ × ℕ)
      → (mark out packed series s).marked ≡ some counts
      → (counts ≡ (length packed, length series)) × ((mark out packed series s).sink ≡ some s)
  unfolding mark
  mark-marked s counts h = elim (Bool-cases out.writes_marker) [
    | inl e ↦ (sym (some-injective _ _ (rw e at h)), rw e refl)
    | inr e ↦ cc (rw e at h)
  ]

  upload_rows-IsUploaded :
      (counts : ℕ × ℕ)
      → Speaks out.client
      → (upload_rows out packed series (adx_sink true database)).marked ≡ some counts
      → (s : AdxSink) × ((upload_rows out packed series (adx_sink true database)).sink ≡ some s)
        × (counts ≡ (length packed, length series))
        × IsUploaded out.client database packed series s
  unfolding upload_rows
  upload_rows-IsUploaded counts speaks h =
      let s₀ = adx_sink true database in
      let s₁ : AdxSink = write_packed out packed s₀ in
      let s₂ : AdxSink = write_series out series s₁ in
      let (e, first) =
        if_accepted-marked s₁
          (λ s. if_accepted (write_series out series s) (mark out packed series)) counts h in
      let (f, second) =
        if_accepted-marked s₂ (mark out packed series) counts
          (ap (λ u. u.marked) (sym first) ∙ h) in
      let same : upload_rows out packed series s₀ ≡ mark out packed series s₂ = first ∙ second in
      let (counted, sink) = mark-marked s₂ counts (ap (λ u. u.marked) (sym same) ∙ h) in
      let (parts, sent, all, answers) =
        write_raw_rows_sends out.client packed "MysqlTelemetry" "MysqlTelemetryMapping" none s₀
          (last_error-none out.client packed _ _ s₀ speaks e) in
      let (more, sent_more, all_more, more_answers) =
        write_raw_rows_sends out.client series "MysqlMetricSeries" "MysqlMetricSeriesMapping" none
          s₁ (last_error-none out.client series _ _ s₁ speaks f) in
      let kept : request s₁ ≡ request s₀ =
        request-write_raw_rows out.client packed "MysqlTelemetry" "MysqlTelemetryMapping" none s₀ in
      (
        s₂,
        ap (λ u. u.sink) same ∙ sink,
        counted,
        record {
          packed_parts = parts;
          series_parts = more;
          sent_all = sent_more ∙ λ i.
              sent i ++ map (kept i "MysqlMetricSeries" "MysqlMetricSeriesMapping" none) more;
          packed_complete = all;
          series_complete = all_more;
          packed_answered = answers;
          series_answered =
              subst
                (λ made.
                  AllAnswered out.client
                    (map (request s₀ "MysqlTelemetry" "MysqlTelemetryMapping" none) parts)
                    (map (made "MysqlMetricSeries" "MysqlMetricSeriesMapping" none) more))
                kept
                (subst
                  (λ before.
                    AllAnswered out.client before
                      (map (request s₁ "MysqlMetricSeries" "MysqlMetricSeriesMapping" none) more))
                  sent more_answers);
        },
      )

-- Where `main` writes its marker, `rows_to_upload` accepted the archive and returned the rows of both
-- tables; all of them were sent, each in its order and to its own table, the packed ones first; the
-- client answered every one of these requests without an exception; and the marker has the numbers of
-- the rows. No exception of the client may have an empty text.
pub main-IsUploaded :
    (out : Outside) (reading : Reading) (catalog : MetricCatalog) (project : SeriesRow → Row)
    (force : Bool) (counts : ℕ × ℕ)
    → Speaks out.client
    → (main out reading catalog project force).marked ≡ some counts
    → (packed : List Row) × (series : List Row) × (s : AdxSink) × (rows_to_upload out reading
          catalog project
        ≡ ok (packed, series))
      × ((main out reading catalog project force).sink ≡ some s)
      × (counts ≡ (length packed, length series))
      × IsUploaded out.client (plan_sink_config out.environ).adx_database packed series s
unfolding main
main-IsUploaded out reading catalog project force counts speaks h =
    elim (Bool-cases (out.marker_exists && not force)) [
      | inl done ↦ cc (rw done at h)
      | inr go ↦ elim (Result-cases (rows_to_upload out reading catalog project)) [
        | inr (e, bad) ↦ cc (rw (go, bad) at h)
        | inl ((packed, series), loaded) ↦
            let database = (plan_sink_config out.environ).adx_database in
            let s₀ = adx_sink true database in
            let choose : Bool → UploadRun =
              λ b. if b then upload_rows out packed series s₀ else ends (err no_sink) in
            let chosen : main out reading catalog project force ≡ choose out.makes_sink =
              rw (go, loaded) refl in
            elim (Bool-cases out.makes_sink) [
              | inr unmade ↦
                  let same = chosen ∙ ap choose unmade in cc (ap (λ u. u.marked) (sym same) ∙ h)
              | inl made ↦
                  let same = chosen ∙ ap choose made in
                  let (s, sink, counted, all) =
                    upload_rows-IsUploaded out packed series database counts speaks
                      (ap (λ u. u.marked) (sym same) ∙ h) in
                  (packed, series, s, loaded, ap (λ u. u.sink) same ∙ sink, counted, all)
            ]
      ]
    ]
