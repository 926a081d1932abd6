-- ===== src/Workload/Run.antt =====
-- open_loop_workload.py: `run_open_loop` from its queue on, and `_worker`. The producer and the
-- workers are threads over one queue: their steps come in any order.
use azure_mysql_monitoring.Prelude.{
  ltb, leb, if◌then◌else◌, length, ℕ, zero, suc, ◌+◌, ◌-◌, String, Bool, true, false, not, ◌&&◌,
  ◌||◌, Option, none, some, List, [], ◌∷◌, ◌++◌,
}
use azure_mysql_monitoring.Workload.{
  Operation, RunStats, no_stats, record_completion, record_failure,
}

-- An item of the queue.
pub data Item : Type 0 where
  sentinel : Item
  job : Operation → Item

-- Where a worker stands in its loop.
pub data Phase : Type 0 where
  opening waiting stopped : Phase
  holding : Item → Phase
  executing : Operation → Phase

pub record State : Type 0 where
  pub clock : ℕ
  -- what is left of the stream, and the operation that is counted and not put in the queue
  pub pending : List Operation
  pub offering : Option Operation
  pub sentinels : ℕ
  pub queue : List Item
  pub capacity : ℕ
  pub max_lag : ℕ
  pub workers : List Phase
  pub stats : RunStats

-- What a worker does, or what happens to it.
pub data Move : Type 0 where
  open_cursor cursor_fails get_item look finish : Move
  fail : String → Move

pub data Action : Type 0 where
  pass : ℕ → Action
  announce put_nowait put_sentinel skip_sentinel : Action
  move : ℕ → Move → Action

unfoldable pub phases : ℕ → List Phase
phases zero = []
phases (suc n) = opening ∷ phases n

-- The state in which the producer's loop begins.
unfoldable pub start : List Operation → ℕ → ℕ → ℕ → State
unfolding phases
start operations threads capacity max_lag = record {
  clock = 0;
  pending = operations;
  offering = none;
  sentinels = threads;
  queue = [];
  capacity = capacity;
  max_lag = max_lag;
  workers = phases threads;
  stats = no_stats;
}

unfoldable pub phase_at : ℕ → List Phase → Option Phase
phase_at n [] = none
phase_at zero (p ∷ ps) = some p
phase_at (suc n) (p ∷ ps) = phase_at n ps

unfoldable pub set_phase : ℕ → Phase → List Phase → List Phase
set_phase n q [] = []
set_phase zero q (p ∷ ps) = q ∷ ps
set_phase (suc n) q (p ∷ ps) = p ∷ set_phase n q ps

unfoldable pub become : ℕ → Phase → State → State
unfolding set_phase
become w p s = record s { workers = set_phase w p s.workers }

-- The producer sleeps until the operation is due, and counts it.
unfoldable pub announce_next : Option Operation → List Operation → State → Option State
announce_next (some op) ops s = none
announce_next none [] s = none
announce_next none (op ∷ ops) s =
    if ltb s.clock op.scheduled_at
    then none
    else some (record s {
      pending = ops;
      offering = some op;
      stats = record s.stats { scheduled = suc s.stats.scheduled };
    })

-- `put_nowait`, and what is done when the queue is full.
unfoldable pub put_next : Option Operation → State → Option State
put_next none s = none
put_next (some op) s =
    if ltb (length s.queue) s.capacity
    then some (record s { queue = s.queue ++ (job op ∷ []); offering = none })
    else some (record s {
      offering = none;
      stats = record s.stats { dropped_queue = suc s.stats.dropped_queue };
    })

-- The stream is at its end.
pub is_over : List Operation → Option Operation → Bool
is_over [] none = true
is_over _ _ = false

unfoldable pub sentinel_next : ℕ → State → Option State
unfolding is_over
sentinel_next zero s = none
sentinel_next (suc n) s =
    if is_over s.pending s.offering && ltb (length s.queue) s.capacity
    then some (record s { queue = s.queue ++ (sentinel ∷ []); sentinels = n })
    else none

unfoldable pub is_stopped : Phase → Bool
is_stopped stopped = true
is_stopped _ = false

-- `any(worker.is_alive() for worker in workers)`
unfoldable pub any_alive : List Phase → Bool
unfolding is_stopped
any_alive [] = false
any_alive (p ∷ ps) = not (is_stopped p) || any_alive ps

-- The queue is full, and nobody is left to empty it.
unfoldable pub skip_next : ℕ → State → Option State
unfolding is_over any_alive
skip_next zero s = none
skip_next (suc n) s =
    if is_over s.pending s.offering
      && (leb s.capacity (length s.queue) && not (any_alive s.workers))
    then some (record s { sentinels = n })
    else none

unfoldable pub take_item : ℕ → List Item → State → Option State
unfolding become
take_item w [] s = none
take_item w (item ∷ items) s = some (become w (holding item) (record s { queue = items }))

-- What a worker does with the item that it got.
unfoldable pub look_at : ℕ → Item → State → State
unfolding become
look_at w sentinel s = become w stopped s
look_at w (job op) s =
    if ltb (op.scheduled_at + s.max_lag) s.clock
    then become w waiting
        (record s { stats = record s.stats { dropped_late = suc s.stats.dropped_late } })
    else become w (executing op) s

-- One step of `_worker`; `none` where it does not stand there.
unfoldable pub advance_worker : ℕ → Move → Phase → State → Option State
unfolding become take_item look_at record_completion record_failure
advance_worker w open_cursor opening s = some (become w waiting s)
advance_worker w cursor_fails opening s = some (become w stopped s)
advance_worker w get_item waiting s = take_item w s.queue s
advance_worker w look (holding item) s = some (look_at w item s)
advance_worker w finish (executing op) s = some (
    become w waiting
      (record s { stats = record_completion op.kind (s.clock - op.scheduled_at) s.stats }))
advance_worker w (fail message) (executing op) s =
    some (become w stopped (record s { stats = record_failure message s.stats }))
advance_worker w _ _ s = none

unfoldable pub move_worker : ℕ → Move → Option Phase → State → Option State
unfolding advance_worker
move_worker w m none s = none
move_worker w m (some p) s = advance_worker w m p s

unfoldable pub step : Action → State → Option State
unfolding announce_next put_next sentinel_next skip_next phase_at move_worker
step (pass n) s = some (record s { clock = s.clock + n })
step announce s = announce_next s.offering s.pending s
step put_nowait s = put_next s.offering s
step put_sentinel s = sentinel_next s.sentinels s
step skip_sentinel s = skip_next s.sentinels s
step (move w m) s = move_worker w m (phase_at w s.workers) s

-- A sequence of steps, each possible where it stands.
unfoldable pub perform : List Action → State → Option State
unfolding step
perform [] s = some s
perform (a ∷ rest) s = elim (step a s) [ none ↦ none | some s2 ↦ perform rest s2 ]

-- The numbers of the workers that have not stopped.
alive_from : ℕ → List Phase → List ℕ
unfolding is_stopped
alive_from w [] = []
alive_from w (p ∷ ps) = if is_stopped p then alive_from (suc w) ps else w ∷ alive_from (suc w) ps

-- After the workers are joined: those that have not stopped are one more failure, with their numbers
-- in its message.
unfoldable pub note_alive : (List ℕ → String) → State → State
unfolding any_alive alive_from record_failure
note_alive message s =
    if any_alive s.workers
    then record s { stats = record_failure (message (alive_from 0 s.workers)) s.stats }
    else s

-- The exit code of the run.
unfoldable pub exit_code : (List ℕ → String) → State → ℕ
unfolding any_alive note_alive
exit_code message s =
    if ltb 0 (note_alive message s).stats.errors || any_alive s.workers then 4 else 0
