-- ===== src/Collector/Exits.antt =====
-- What the two ways of running leave open, and how they exit.
use azure_mysql_monitoring.Prelude.{
  if◌then◌else◌, Bool-cases, String, ◌≡◌, refl, inl, inr, true, false, List, [], ◌++◌, map, ap, ◌∙◌,
  ◌⊎◌, Bool, ◌&&◌, ◌∷◌, not, Option, none, some,
}
use azure_mysql_monitoring.Collector.Loop.{LoopArgs, run_loop}
use azure_mysql_monitoring.Collector.Main.{
  exit, open_all, close_all, PlanSite, PlanRan, run_plan, plan_sinks, plan_main, plan_ends,
  connected, disconnected, escaped, kinds_or_jsonl, build_all, Site, Ran, poll_session, connects,
  with_sinks, target_main, ended_of, is_plan_error,
}
use azure_mysql_monitoring.ErrorLog.{Envelope}
use azure_mysql_monitoring.Groups.Rows.{Python}
use azure_mysql_monitoring.Plan.Document.{Value}
use azure_mysql_monitoring.Plan.Errors.{PlanError}
use azure_mysql_monitoring.Plan.Load.{CollectionPlan, load_plan}
use azure_mysql_monitoring.Plan.Target.{Target}
use azure_mysql_monitoring.Prelude.Dict.{has}
use azure_mysql_monitoring.Prelude.Result.{ok, err, Result-cases}
use azure_mysql_monitoring.Prelude.Text.{is_blank}
use azure_mysql_monitoring.Runtime.Assembly.Loaded.{assemble_loaded}
use azure_mysql_monitoring.Runtime.Worker.{Worker}
use azure_mysql_monitoring.Settings.{from_env, Config, ConfigError}
use azure_mysql_monitoring.Settings.Connection.{SinkKind, assert_tls, build_sink}

module _ {Cell Point Event : Type 0} (python : Python Cell) (repr : Value → String)
    (out : PlanSite Point Event) (kinds : List String) where
  -- The four ways in which the command of a plan ends.
  pub data PlanEnds : PlanRan → Type 0 where
    -- the plan is refused before anything is opened
    refused_plan :
        (e : PlanError)
        → load_plan repr out.document ≡ err e
        → is_plan_error e ≡ true
        → {ran : PlanRan} → ran ≡ record { ended = exit 2; acts = [] }
        → PlanEnds ran
    -- an exception that is no `PlanError` leaves the command, before anything is opened
    raised_plan :
        (e : PlanError)
        → load_plan repr out.document ≡ err e
        → is_plan_error e ≡ false
        → {ran : PlanRan} → ran ≡ record { ended = escaped; acts = [] }
        → PlanEnds ran
    -- a sink could not be built, and those before it are closed
    refused_sink :
        (plan : CollectionPlan) (sinks : List SinkKind)
        → load_plan repr out.document ≡ ok plan
        → plan_sinks python repr out kinds ≡ (sinks, false)
        → {ran : PlanRan}
        → ran ≡ record { ended = exit 2; acts = open_all sinks ++ close_all sinks }
        → PlanEnds ran
    -- there is a worker for each target, the command says whether they finished, and all sinks
    -- are closed
    ran_plan :
        (plan : CollectionPlan) (workers : List (Target × Worker Point Event))
        (sinks : List SinkKind)
        → load_plan repr out.document ≡ ok plan
        → map (λ w. w.0) workers ≡ plan.targets
        → plan_sinks python repr out kinds ≡ (sinks, true)
        → {ran : PlanRan}
        → ran ≡ record {
          ended = exit (if out.finishes workers then 0 else 3);
          acts = open_all sinks ++ close_all sinks;
        }
        → PlanEnds ran

  run_plan_loaded :
      (plan : CollectionPlan)
      → load_plan repr out.document ≡ ok plan
      → (workers : List (Target × Worker Point Event)) × (map (λ w. w.0) workers ≡ plan.targets)
        × (run_plan python repr out plan ≡ (if out.finishes workers then 0 else 3))
  unfolding run_plan
  run_plan_loaded plan h =
      let (workers, made, same) = assemble_loaded python repr out.document plan 1000 30000 h in
      (workers, same, rw (made, run_plan) refl)

  -- The command of a plan refuses the plan with exit code 2 before it opens a sink, or `load_plan`
  -- raises an exception that is no `PlanError`, which leaves the command before it opens a sink; or
  -- it refuses a sink with exit code 2; or else the plan has a worker for each target, and the exit
  -- code is 0 or 3 as they finish or not: the check for missing collectors never ends it. Whatever
  -- happens, each sink that was built is closed.
  pub plan_main-PlanEnds : PlanEnds (plan_main python repr out kinds)
  unfolding plan_main
  plan_main-PlanEnds =
      let run = run_plan python repr out in
      let built = plan_sinks python repr out kinds in
      elim (Result-cases (load_plan repr out.document)) [
        | inr (e, bad) ↦
            let ended_as : Bool → PlanRan =
              λ b. record { ended = if b then exit 2 else escaped; acts = [] } in
            elim (Bool-cases (is_plan_error e)) [
              | inl caught ↦
                  refused_plan e bad caught
                    ((λ i. plan_ends (bad i) built run) ∙ ap ended_as caught)
              | inr missed ↦
                  raised_plan e bad missed ((λ i. plan_ends (bad i) built run) ∙ ap ended_as missed)
            ]
        | inl (plan, loads) ↦
            let (workers, same, ended) = run_plan_loaded plan loads in
            elim (Bool-cases built.1) [
              | inr stopped ↦
                  refused_sink plan built.0 loads (λ i. (built.0, stopped i))
                    (λ i. plan_ends (loads i) (built.0, stopped i) run)
              | inl complete ↦
                  ran_plan plan workers built.0 loads same (λ i. (built.0, complete i))
                    ((λ i. plan_ends (loads i) (built.0, complete i) run)
                      ∙ ap
                          (λ code. record {
                            ended = exit code;
                            acts = open_all built.0 ++ close_all built.0;
                          })
                          ended)
            ]
      ]

module _ {Cell Event : Type 0} (python : Python Cell) (args : LoopArgs) (out : Site Cell Event)
    (kinds : List String) where
  -- Does the row of `Ssl_cipher` name a cipher?
  abbrev encrypted : Option (String × String) → Bool
  encrypted none = false
  encrypted (some (name, cipher)) = not (is_blank cipher)

  abbrev built_sinks : Config → List SinkKind × Bool
  built_sinks config =
      build_all (λ kind. build_sink kind config) out.constructs [] (kinds_or_jsonl kinds)

  -- Nothing raises from the check of TLS to the end of the loop.
  abbrev completes : Config → Bool
  completes config =
      let env : Envelope = record {
        run_id = config.run_id;
        host = config.host;
        tier = config.tier;
      } in
      encrypted out.tls_row
      && (out.identifies && (out.loads_cursor && not (run_loop python args env out.cycles).1))

  -- The four ways in which the command of one target ends.
  pub data TargetEnds : Ran Event → Type 0 where
    -- the settings are refused
    refused_settings :
        (e : ConfigError)
        → from_env out.to_int out.environ ≡ err e
        → {ran : Ran Event} → ran ≡ record { ended = exit 2; acts = []; batches = [] }
        → TargetEnds ran
    -- a sink is refused, and those before it stay open
    refused_sink :
        (config : Config) (sinks : List SinkKind)
        → from_env out.to_int out.environ ≡ ok config
        → built_sinks config ≡ (sinks, false)
        → {ran : Ran Event} → ran ≡ record { ended = exit 2; acts = open_all sinks; batches = [] }
        → TargetEnds ran
    -- there is no connection, and all sinks stay open
    unconnected :
        (config : Config) (sinks : List SinkKind)
        → from_env out.to_int out.environ ≡ ok config
        → built_sinks config ≡ (sinks, true)
        → connects python args out config ≡ false
        → {ran : Ran Event} → ran ≡ record { ended = exit 3; acts = open_all sinks; batches = [] }
        → TargetEnds ran
    -- the loop has ended, or an exception: all sinks and the connection are closed
    served :
        (config : Config) (sinks : List SinkKind)
        → from_env out.to_int out.environ ≡ ok config
        → built_sinks config ≡ (sinks, true)
        → connects python args out config ≡ true
        → {ran : Ran Event} → ran.ended ≡ (if completes config then exit 0 else escaped)
        → ran.acts ≡ open_all sinks ++ (connected ∷ (close_all sinks ++ (disconnected ∷ [])))
        → TargetEnds ran

  ended_of-not : (raised : Bool) → ended_of raised ≡ (if not raised then exit 0 else escaped)
  ended_of-not true = refl
  ended_of-not false = refl

  assert_tls-encrypted :
      (row : Option (String × String))
      → ((assert_tls row ≡ none) × (encrypted row ≡ false))
        ⊎ ((cipher : String) × (assert_tls row ≡ some cipher) × (encrypted row ≡ true))
  unfolding assert_tls
  assert_tls-encrypted none = inl (refl, refl)
  assert_tls-encrypted (some (name, cipher)) = elim (Bool-cases (is_blank cipher)) [
    | inl e ↦ inl (rw e refl, rw e refl)
    | inr e ↦ inr (cipher, rw e refl, rw e refl)
  ]

  poll_session_lem :
      (config : Config)
      → ((poll_session python args out config).ended
          ≡ (if completes config then exit 0 else escaped))
        × ((poll_session python args out config).acts ≡ [])
  unfolding poll_session
  poll_session_lem config = elim (assert_tls-encrypted out.tls_row) [
    | inl (e, not_encrypted) ↦ rw (e, not_encrypted, poll_session) (refl, refl)
    | inr (cipher, e, has) ↦ elim (Bool-cases out.identifies) [
      | inr g ↦ rw (e, has, g, poll_session) (refl, refl)
      | inl g ↦ elim (Bool-cases out.loads_cursor) [
        | inr h ↦ rw (e, has, g, h, poll_session) (refl, refl)
        | inl h ↦ rw (e, has, g, h, poll_session) (ended_of-not _, refl)
      ]
    ]
  ]

  with_sinks-TargetEnds :
      (config : Config) (sinks : List SinkKind)
      → from_env out.to_int out.environ ≡ ok config
      → built_sinks config ≡ (sinks, true)
      → TargetEnds (with_sinks python args out config sinks)
  unfolding with_sinks
  with_sinks-TargetEnds config sinks h built =
      let (end, nothing) = poll_session_lem config in
      elim (Bool-cases (connects python args out config)) [
        | inl e ↦ served config sinks h built e (rw e end) (
            rw e (λ i.
              open_all sinks
              ++ (connected ∷ (nothing i ++ (close_all sinks ++ (disconnected ∷ []))))))
        | inr e ↦ unconnected config sinks h built e (rw e refl)
      ]

  -- The command of one target exits with 2 where its settings are refused or a sink cannot be built,
  -- and with 3 where it cannot connect; it closes none of the sinks that it then has. Where it
  -- connects it closes all sinks and the connection: it exits with 0 if the session has a cipher, the
  -- server is identified, the cursor is loaded and no sink raises in the loop, and otherwise an
  -- exception leaves it.
  pub target_main-TargetEnds : TargetEnds (target_main python args out kinds)
  unfolding target_main
  target_main-TargetEnds = elim (Result-cases (from_env out.to_int out.environ)) [
    | inr (e, bad) ↦ refused_settings e bad (rw (bad, target_main) refl)
    | inl (config, found) ↦
        let sinks = (built_sinks config).0 in
        rw (found, target_main)
          (elim (Bool-cases (built_sinks config).1) [
            | inl complete ↦
                rw complete (with_sinks-TargetEnds config sinks found (λ i. (sinks, complete i)))
            | inr stopped ↦
                rw stopped (refused_sink config sinks found (λ i. (sinks, stopped i)) refl)
          ])
  ]
