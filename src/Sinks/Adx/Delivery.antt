-- ===== src/Sinks/Adx/Delivery.antt =====
-- Which rows the requests of `_ingest` hold.
use mathlib.Core.List.{append_assoc, append-nil}
use mathlib.Core.Option.{some-injective}
use azure_mysql_monitoring.Prelude.{
  length, All, ◌≤◌, ◌<◌, String, ◌≡◌, refl, sym, ap, ◌∙◌, subst, ◌⊎◌, inl, inr, Option, List, [],
  ◌∷◌, ◌++◌, map, arith, none, some,
}
use azure_mysql_monitoring.Prelude.Result.{Result, ok, err, Result-cases}
use azure_mysql_monitoring.Sinks.Adx.{
  IngestRequest, IngestClient, AdxSink, request, ingest, with_id, ingest_parts, write_raw_rows,
  keep_result,
}
use azure_mysql_monitoring.Spool.Codec.{Row}
use azure_mysql_monitoring.Spool.Write.{max_rows, chunks}
use azure_mysql_monitoring.Spool.Write.Chunks.{concat, chunks_lem}

-- The client answers each of these requests with an id or none, called with them one after another
-- and after those before.
abbrev pub AllAnswered : IngestClient → List IngestRequest → List IngestRequest → Type 0
AllAnswered client before [] = Unit
AllAnswered client before (made ∷ more) =
    ((id : Option String) × (client before made ≡ ok id))
    × AllAnswered client (before ++ (made ∷ [])) more

-- The client answers these requests but the last, on which it raises the message.
pub record IsStopped (client : IngestClient) (make : List Row → IngestRequest)
    (before : List IngestRequest) (done : List (List Row)) (message : String) : Type 0 where
  pub answered : List (List Row)
  pub refused : List Row
  pub all_done : done ≡ answered ++ (refused ∷ [])
  pub all_answered : AllAnswered client before (map make answered)
  pub raises : client (before ++ map make answered) (make refused) ≡ err message

-- What was sent: requests for the first chunks of the rows, each with one row at least and no more
-- than the limit. Either the client answered all of them and no row is left, or it raised on the
-- last one.
pub record IsIngested (client : IngestClient) (make : List Row → IngestRequest) (rows : List Row)
    (before after : List IngestRequest) (result : Result String (List String)) : Type 0 where
  pub done : List (List Row)
  pub left : List (List Row)
  pub sent_after : after ≡ before ++ map make done
  pub in_order : concat done ++ concat left ≡ rows
  pub sized : All (λ part. (0 < length part) × (length part ≤ max_rows)) done
  pub ended :
      ((ids : List String) × (result ≡ ok ids)
        × (left ≡ [])
        × AllAnswered client before (map make done))
      ⊎ ((message : String) × (result ≡ err message) × IsStopped client make before done message)

concat-append : (xs ys : List (List Row)) → concat (xs ++ ys) ≡ concat xs ++ concat ys
concat-append [] ys = refl
concat-append (x ∷ xs) ys =
    ap (◌++◌ x) (concat-append xs ys) ∙ sym (append_assoc x (concat xs) (concat ys))

module _ (client : IngestClient) (make : List Row → IngestRequest) where
  abbrev PartsSent :
      List (List Row)
      → List IngestRequest
      → Result String (List String) × List IngestRequest
      → Type 0
  PartsSent parts before (result, after) =
      (done : List (List Row)) × (left : List (List Row)) × (after ≡ before ++ map make done)
      × (parts ≡ done ++ left)
      × (((ids : List String) × (result ≡ ok ids)
            × (left ≡ [])
            × AllAnswered client before (map make done))
          ⊎ ((message : String) × (result ≡ err message)
              × IsStopped client make before done message))

  -- The first of several requests is answered.
  IsStopped-cons :
      (part : List Row) (done : List (List Row)) (before : List IngestRequest) (message : String)
      → ((id : Option String) × (client before (make part) ≡ ok id))
      → IsStopped client make (before ++ (make part ∷ [])) done message
      → IsStopped client make before (part ∷ done) message
  IsStopped-cons part done before message first h = record {
    answered = part ∷ h.answered;
    refused = h.refused;
    all_done = ap (λ r. part ∷ r) h.all_done;
    all_answered = (first, h.all_answered);
    raises =
        (λ i.
          client (sym (append_assoc before (make part ∷ []) (map make h.answered)) i)
            (make h.refused))
        ∙ h.raises;
  }

  stops_at :
      (part : List Row) (before : List IngestRequest) (message : String)
      → client before (make part) ≡ err message
      → IsStopped client make before (part ∷ []) message
  stops_at part before message e = record {
    answered = [];
    refused = part;
    all_done = refl;
    all_answered = tt;
    raises = (λ i. client (append-nil before i) (make part)) ∙ e;
  }

  ingest_parts_lem :
      (parts : List (List Row)) (ids : List String) (sent : List IngestRequest)
      → PartsSent parts sent (ingest_parts client make parts ids sent)
  unfolding ingest_parts
  ingest_parts_lem [] ids sent = ([], [], sym (append-nil sent), refl, inl (ids, refl, refl, tt))
  ingest_parts_lem (part ∷ parts) ids sent = elim (Result-cases (client sent (make part))) [
    | inr (message, e) ↦
        rw (e, ingest_parts)
          (part ∷ [], parts, refl, refl, inr (message, refl, stops_at part sent message e))
    | inl (id, e) ↦
        let (done, left, after, all_parts, ended) =
          ingest_parts_lem parts (with_id ids id) (sent ++ (make part ∷ [])) in
        rw (e, ingest_parts)
          (
            part ∷ done,
            left,
            after ∙ append_assoc sent (make part ∷ []) (map make done),
            ap (λ r. part ∷ r) all_parts,
            elim ended [
              | inl (all_ids, same, none_left, answers) ↦
                  inl (all_ids, same, none_left, ((id, e), answers))
              | inr (message, same, stopped) ↦
                  inr (message, same, IsStopped-cons part done sent message (id, e) stopped)
            ],
          )
  ]

All-left : {A : Type 0} (P : A → Type 0) (xs ys : List A) → All P (xs ++ ys) → All P xs
All-left P [] ys h = tt
All-left P (x ∷ xs) ys h = (h.0, All-left P xs ys h.1)

-- The requests hold the rows from the first on, in their order, each with one row at least and no more
-- than the limit. Either the client answered each of them, and then they hold all rows and the result
-- is a list of ids; or it answered all but the last and raised on that one, and then the result is
-- its message.
pub ingest-IsIngested :
    (client : IngestClient) (rows : List Row) (table mapping : String) (tag : Option String)
    (s : AdxSink)
    → let (result, after) = ingest client rows table mapping tag s in
      IsIngested client (request s table mapping tag) rows s.sent after.sent result
unfolding ingest
ingest-IsIngested client [] table mapping tag s = record {
  done = [];
  left = [];
  sent_after = sym (append-nil s.sent);
  in_order = refl;
  sized = tt;
  ended = inl ([], refl, refl, tt);
}
ingest-IsIngested client (row ∷ rows) table mapping tag s =
    let parts = chunks max_rows (row ∷ rows) in
    let (all_parts, sized) = chunks_lem max_rows (omega arith) (row ∷ rows) in
    let (done, left, after, split, ended) =
      ingest_parts_lem client (request s table mapping tag) parts [] s.sent in
    record {
      done = done;
      left = left;
      sent_after = after;
      in_order = sym (concat-append done left) ∙ (ap concat (sym split) ∙ all_parts);
      sized =
          All-left _ done left (
            subst (λ ps. All (λ part. (0 < length part) × (length part ≤ max_rows)) ps) split
              sized);
      ended = ended;
    }

-- A call of `write_raw_rows` after which `last_error` is not set has sent all rows, and no request
-- raised.
pub write_raw_rows_sends :
    (client : IngestClient) (rows : List Row) (table mapping : String) (tag : Option String)
    (s : AdxSink)
    → let after = (write_raw_rows client rows table mapping tag s).1 in
      after.last_error ≡ none
      → (done : List (List Row)) × (after.sent ≡ s.sent ++ map (request s table mapping tag) done)
        × (concat done ≡ rows)
        × AllAnswered client s.sent (map (request s table mapping tag) done)
unfolding write_raw_rows
write_raw_rows_sends client rows table mapping tag s h =
    let r = ingest-IsIngested client rows table mapping tag s in
    elim r.ended [
      | inr (message, e, _) ↦ cc (rw (e, keep_result) at h)
      | inl (ids, e, none_left, answers) ↦
          rw (e, keep_result)
            (
              r.done,
              r.sent_after,
              sym (append-nil (concat r.done))
                  ∙ (ap (λ l. concat r.done ++ concat l) (sym none_left) ∙ r.in_order),
              answers,
            )
    ]

-- The requests that a sink makes stay those of its database and path.
pub request-write_raw_rows :
    (client : IngestClient) (rows : List Row) (table mapping : String) (tag : Option String)
    (s : AdxSink)
    → request (write_raw_rows client rows table mapping tag s).1 ≡ request s
unfolding write_raw_rows request ingest
request-write_raw_rows client [] table mapping tag s = refl
request-write_raw_rows client (row ∷ rows) table mapping tag s =
    let parts = chunks max_rows (row ∷ rows) in
    elim (Result-cases (ingest_parts client (request s table mapping tag) parts [] s.sent).0) [
      | inl (ids, e) ↦ rw e refl
      | inr (message, e) ↦ rw e refl
    ]

raised_by : Result String (List String) → String
raised_by (ok ids) = ""
raised_by (err message) = message

module _ (client : IngestClient) where
  -- The answer that a message is of.
  abbrev pub Answers : String → Type 0
  Answers message =
      (before : List IngestRequest) × (made : IngestRequest) × (client before made ≡ err message)

  ingest_parts-err :
      (make : List Row → IngestRequest) (parts : List (List Row)) (ids : List String)
      (sent : List IngestRequest) (message : String)
      → (ingest_parts client make parts ids sent).0 ≡ err message
      → Answers message
  unfolding ingest_parts raised_by
  ingest_parts-err make [] ids sent message h = cc h
  ingest_parts-err make (part ∷ parts) ids sent message h =
      elim (Result-cases (client sent (make part))) [
        | inl (id, e) ↦
            ingest_parts-err make parts (with_id ids id) (sent ++ (make part ∷ [])) message
              (rw (e, ingest_parts) at h)
        | inr (m, e) ↦ (sent, make part, e ∙ ap err (ap raised_by (rw (e, ingest_parts) at h)))
      ]

  ingest-err :
      (rows : List Row) (table mapping : String) (tag : Option String) (s : AdxSink)
      (message : String)
      → (ingest client rows table mapping tag s).0 ≡ err message
      → Answers message
  unfolding ingest
  ingest-err [] table mapping tag s message h = cc h
  ingest-err (row ∷ rows) table mapping tag s message h =
      ingest_parts-err (request s table mapping tag) (chunks max_rows (row ∷ rows)) [] s.sent
        message h

  -- What `last_error` says is what the client raised.
  pub write_raw_rows-Answers :
      (rows : List Row) (table mapping : String) (tag : Option String) (s : AdxSink)
      (message : String)
      → (write_raw_rows client rows table mapping tag s).1.last_error ≡ some message
      → Answers message
  unfolding write_raw_rows
  write_raw_rows-Answers rows table mapping tag s message h =
      elim (Result-cases (ingest client rows table mapping tag s).0) [
        | inl (ids, e) ↦ cc (rw (e, keep_result) at h)
        | inr (m, e) ↦
            ingest-err rows table mapping tag s message
              (e ∙ ap err (some-injective _ _ (rw (e, keep_result) at h)))
      ]
