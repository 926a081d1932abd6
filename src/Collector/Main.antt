-- ===== src/Collector/Main.antt =====
-- mysql-internal/collector/collector.py: `main` and `_plan_main`, after the arguments are parsed. That
-- a sink or a connection is closed is taken not to fail.
use Prim.Native.Char.{code}
use azure_mysql_monitoring.Prelude.{
  Bool, if◌then◌else◌, ℕ, String, true, false, ◌&&◌, Option, none, some, List, [], ◌∷◌, ◌++◌, map,
}
use azure_mysql_monitoring.Collector.Loop.{LoopArgs, Cycle, CycleRows, run_loop}
use azure_mysql_monitoring.ErrorLog.{Envelope}
use azure_mysql_monitoring.Groups.Collectors.{group_collectors}
use azure_mysql_monitoring.Groups.Rows.{Python}
use azure_mysql_monitoring.Plan.Document.{Value}
use azure_mysql_monitoring.Plan.Errors.{
  PlanError, overflow_error, value_error, key_error, out_of_fuel,
}
use azure_mysql_monitoring.Plan.Load.{CollectionPlan, load_plan}
use azure_mysql_monitoring.Plan.Target.{Target}
use azure_mysql_monitoring.Prelude.Dict.{keys}
use azure_mysql_monitoring.Prelude.Int.{ℤ}
use azure_mysql_monitoring.Prelude.Result.{Result, ok, err}
use azure_mysql_monitoring.Runtime.Assembly.{assemble}
use azure_mysql_monitoring.Runtime.Worker.{Worker}
use azure_mysql_monitoring.Settings.{from_env, Config, Environ}
use azure_mysql_monitoring.Settings.Connection.{
  ConnectParameters, connect_parameters, assert_tls, SinkKind, SinkError, build_sink,
}
use azure_mysql_monitoring.Settings.PlanSink.{plan_sink_config, build_plan_sink}

pub data Act : Type 0 where
  opened closed : SinkKind → Act
  connected disconnected : Act

-- The exit code, or an exception that leaves the function.
pub data Ended : Type 0 where
  exit : ℕ → Ended
  escaped : Ended

-- `args.sinks or ["jsonl"]`
unfoldable pub kinds_or_jsonl : List String → List String
kinds_or_jsonl [] = "jsonl" ∷ []
kinds_or_jsonl (kind ∷ kinds) = kind ∷ kinds

-- The loop that builds the sinks: those that it has built, and whether it built them all.
unfoldable pub build_all :
    (String → Result SinkError SinkKind)
    → (SinkKind → Bool)
    → List SinkKind
    → List String
    → List SinkKind × Bool
build_all make constructs built [] = (built, true)
build_all make constructs built (kind ∷ kinds) = elim (make kind) [
  | err e ↦ (built, false)
  | ok sink ↦
      let rest = build_all make constructs (built ++ (sink ∷ [])) kinds in
      if constructs sink then rest else (built, false)
]

abbrev pub open_all : List SinkKind → List Act
open_all sinks = map opened sinks

abbrev pub close_all : List SinkKind → List Act
close_all sinks = map closed sinks

-- What the command of one target finds outside.
pub record Site (Cell Event : Type 0) : Type 0 where
  pub environ : Environ
  pub to_int : String → Option ℤ
  -- does the constructor of a sink return
  pub constructs : SinkKind → Bool
  pub is_file : String → Bool
  pub driver_connects : ConnectParameters → Bool
  pub tls_row : Option (String × String)
  -- do `server_identity` and `load_cursor` return
  pub identifies : Bool
  pub loads_cursor : Bool
  pub cycles : List (Cycle Cell Event)

pub record Ran (Event : Type 0) : Type 0 where
  pub ended : Ended
  pub acts : List Act
  pub batches : List (CycleRows Event)

-- An exception of a sink leaves the loop.
abbrev pub ended_of : Bool → Ended
ended_of true = escaped
ended_of false = exit 0

module _ {Cell Event : Type 0} (python : Python Cell) (args : LoopArgs)
    (out : Site Cell Event) where
  abbrev ends_with : ℕ → List Act → Ran Event
  ends_with code acts = record { ended = exit code; acts = acts; batches = [] }

  -- What was done before.
  abbrev after : List Act → Ran Event → Ran Event
  after acts body = record body { acts = acts ++ body.acts }

  -- `try: … finally: …`: the cleanup follows however the body ended, and does not change it.
  abbrev finally : List Act → Ran Event → Ran Event
  finally cleanup body = record body { acts = body.acts ++ cleanup }

  -- The body of the last `try`, which opens and closes nothing itself.
  unfoldable pub poll_session : Config → Ran Event
  unfolding assert_tls run_loop
  poll_session config = elim (assert_tls out.tls_row) [
    | none ↦ record { ended = escaped; acts = []; batches = [] }
    | some cipher ↦
        let env : Envelope = record {
          run_id = config.run_id;
          host = config.host;
          tier = config.tier;
        } in
        let (batches, raised) = run_loop python args env out.cycles in
        if out.identifies && out.loads_cursor
        then record { ended = ended_of raised; acts = []; batches = batches }
        else record { ended = escaped; acts = []; batches = [] }
  ]

  -- `connect`
  unfoldable pub connects : Config → Bool
  unfolding connect_parameters
  connects config = elim (connect_parameters out.is_file config) [
    | err e ↦ false
    | ok parameters ↦ out.driver_connects parameters
  ]

  -- From the connection on, with the sinks that were built.
  unfoldable pub with_sinks : Config → List SinkKind → Ran Event
  unfolding poll_session connects
  with_sinks config sinks =
      let session = finally (close_all sinks ++ (disconnected ∷ [])) (poll_session config) in
      if connects config
      then after (open_all sinks) (after (connected ∷ []) session)
      else ends_with 3 (open_all sinks)

  -- `main` without `--config`
  unfoldable pub target_main : List String → Ran Event
  unfolding from_env build_all kinds_or_jsonl build_sink with_sinks
  target_main kinds = elim (from_env out.to_int out.environ) [
    | err e ↦ ends_with 2 []
    | ok config ↦
        let (sinks, complete) =
          build_all (λ kind. build_sink kind config) out.constructs [] (kinds_or_jsonl kinds) in
        if complete then with_sinks config sinks else ends_with 2 (open_all sinks)
  ]

-- What the command of a plan finds outside.
pub record PlanSite (Point Event : Type 0) : Type 0 where
  pub document : Value
  pub environ : Environ
  pub constructs : SinkKind → Bool
  -- does `run` return, with these workers
  pub finishes : List (Target × Worker Point Event) → Bool

pub record PlanRan : Type 0 where
  pub ended : Ended
  pub acts : List Act

-- `except PlanError`: the exceptions of other classes leave the function.
pub is_plan_error : PlanError → Bool
is_plan_error overflow_error = false
is_plan_error value_error = false
is_plan_error key_error = false
is_plan_error out_of_fuel = false
is_plan_error _ = true

-- From the plan, the sinks and the exit code of its runtime.
unfoldable pub plan_ends :
    Result PlanError CollectionPlan → List SinkKind × Bool → (CollectionPlan → ℕ) → PlanRan
unfolding is_plan_error
plan_ends (err e) built run = record {
  ended = if is_plan_error e then exit 2 else escaped;
  acts = [];
}
plan_ends (ok plan) (sinks, complete) run = record {
  ended = exit (if complete then run plan else 2);
  acts = open_all sinks ++ close_all sinks;
}

module _ {Cell Point Event : Type 0} (python : Python Cell) (repr : Value → String)
    (out : PlanSite Point Event) where
  -- The `try` around the runtime.
  unfoldable pub run_plan : CollectionPlan → ℕ
  run_plan plan = elim (assemble 1000 30000 (keys (group_collectors python)) plan) [
    | err e ↦ 3
    | ok workers ↦ if out.finishes workers then 0 else 3
  ]

  -- The sinks of a plan.
  unfoldable pub plan_sinks : List String → List SinkKind × Bool
  unfolding build_all kinds_or_jsonl build_plan_sink plan_sink_config
  plan_sinks kinds =
      build_all (λ kind. build_plan_sink kind (plan_sink_config out.environ)) out.constructs []
        (kinds_or_jsonl kinds)

  -- `_plan_main`
  unfoldable pub plan_main : List String → PlanRan
  unfolding plan_ends plan_sinks run_plan
  plan_main kinds = plan_ends (load_plan repr out.document) (plan_sinks kinds) run_plan
