-- ===== src/Scheduler.antt =====
-- internal/scheduler/interval.go: the loop of the scheduler, the calls of other goroutines, and the runner's
-- work, as moves that interleave. `S` is the state that the runner works on.
pub mod Invariant
pub mod Stopping
use syncrules.Prelude.{
  ℕ, zero, suc, ◌+◌, ◌%◌, ◌^◌, Text, codes, Bool, true, false, Option, none, some, List, [], ◌∷◌,
  if◌then◌else◌,
}
use syncrules.Domain.{Error, other_error}

pub record SchedulerConfig : Type 0 where
  pub interval : ℕ
  pub rules : List Text

pub record Stats : Type 0 where
  pub last_run_time : ℕ
  pub next_run_time : ℕ
  pub total_runs : ℕ
  pub successful_runs : ℕ
  pub failed_runs : ℕ
  pub last_error : Option Error

-- Where the goroutine of `run` is.
pub data Loop : Type 0 where
  unstarted waiting executing exited : Loop

-- A closed channel is `true`; `exited` closes `stoppedChan`.
pub record Scheduler (S : Type 0) : Type 0 where
  pub running : Bool
  pub stopped : Bool
  pub stop_closed : Bool
  pub cancelled : Bool
  pub loop : Loop
  pub stats : Stats
  pub state : S

pub data Move : Type 0 where
  start : ℕ → Move
  tick : ℕ → Move
  finish exit : Move
  request_stop finish_stop cancel : Move

abbrev int : ℕ → ℕ
int n = n % 2 ^ 64

-- With no rules the runner is called once, with the empty name.
abbrev pub rules_to_run : List Text → List Text
rules_to_run [] = [] ∷ []
rules_to_run rules = rules

begin_run : SchedulerConfig → ℕ → Stats → Stats
begin_run config now s = record s {
  last_run_time = now;
  total_runs = int (s.total_runs + 1);
  next_run_time = now + config.interval;
}

end_run : Option Error → Stats → Stats
end_run (some e) s = record s { failed_runs = int (s.failed_runs + 1); last_error = some e }
end_run none s = record s { successful_runs = int (s.successful_runs + 1); last_error = none }

-- `Start` succeeds.
abbrev can_start : {S : Type 0} → Scheduler S → Bool
can_start m = if m.running then false else if m.stopped then false else true

abbrev pub started : {S : Type 0} → SchedulerConfig → ℕ → Scheduler S → Scheduler S
started config now m = record m {
  running = true;
  loop = waiting;
  stats = record (m.stats) { next_run_time = now + config.interval };
}

-- `Start` with its error.
unfoldable pub start_scheduler :
    {S : Type 0} → SchedulerConfig → ℕ → Scheduler S → Scheduler S × Option Error
start_scheduler config now m =
    if m.running
    then (m, some (other_error (codes "scheduler is already running")))
    else if m.stopped
    then (m, some (other_error (codes "scheduler cannot be restarted after stop")))
    else (started config now m, none)

-- The end of `run` and its deferred call.
leave : {S : Type 0} → Scheduler S → Scheduler S
leave m = record m { stopped = true; running = false; loop = exited }

-- The loop of `executeSync` over the rules: none is left out, and the last error counts.
unfoldable pub run_rules :
    {S : Type 0} → (Text → S → S × Option Error) → List Text → S → Option Error → S × Option Error
run_rules run_sync [] s last = (s, last)
run_rules run_sync (rule ∷ rules) s last =
    let r = run_sync rule s in
    run_rules run_sync rules r.0 (elim r.1 [ some e ↦ some e | none ↦ last ])

module _ {S : Type 0} (config : SchedulerConfig) (run_sync : Text → S → S × Option Error) where
  -- What a move does; `none` where it cannot be made. A call of `Start` or `Stop` can always be made; where
  -- it gives an error, it leaves everything as it is.
  unfoldable pub step : Move → Scheduler S → Option (Scheduler S)
  unfolding run_rules begin_run end_run leave
  step (start now) m = some (if can_start m then started config now m else m)
  step (tick now) m = elim m.loop [
    | waiting ↦ some (record m { loop = executing; stats = begin_run config now m.stats })
    | _ ↦ none
  ]
  step finish m = elim m.loop [
    | executing ↦
        let r = run_rules run_sync (rules_to_run config.rules) m.state none in
        some (record m { loop = waiting; stats = end_run r.1 m.stats; state = r.0 })
    | _ ↦ none
  ]
  step exit m = elim m.loop [
    | waiting ↦
        if m.cancelled then some (leave m) else if m.stop_closed then some (leave m) else none
    | _ ↦ none
  ]
  step request_stop m = some (if m.running then record m { stop_closed = true } else m)
  step finish_stop m = elim m.loop [
    | exited ↦ if m.stop_closed then some (record m { stopped = true }) else none
    | _ ↦ none
  ]
  step cancel m = some (record m { cancelled = true })

  -- Moves one after the other.
  unfoldable pub moves : List Move → Scheduler S → Option (Scheduler S)
  unfolding step
  moves [] m = some m
  moves (x ∷ xs) m = elim (step x m) [ none ↦ none | some m' ↦ moves xs m' ]

-- The runs at the given ticks, which `select` picks although the stop channel is closed, and what follows.
abbrev pub ticked : List ℕ → List Move → List Move
ticked [] xs = xs
ticked (now ∷ ticks) xs = Move.tick now ∷ Move.finish ∷ ticked ticks xs

-- The moves of the goroutine of `run` after a request to stop, from where it is, and the return of `Stop`.
abbrev pub ending : List ℕ → Loop → List Move
ending ticks executing = Move.finish ∷ ticked ticks (Move.exit ∷ Move.finish_stop ∷ [])
ending ticks exited = Move.finish_stop ∷ []
ending ticks _ = ticked ticks (Move.exit ∷ Move.finish_stop ∷ [])

-- `Stop`, when no other call is made meanwhile and `select` picks the given ticks before the stop
-- channel: the scheduler and the error when it returns, or `none` where it does not return so.
unfoldable pub stop :
    {S : Type 0}
    → SchedulerConfig
    → (Text → S → S × Option Error)
    → List ℕ
    → Scheduler S
    → Option (Scheduler S × Option Error)
unfolding moves
stop config run_sync ticks m =
    let ended = moves config run_sync (Move.request_stop ∷ ending ticks m.loop) m in
    if m.running
    then elim ended [ none ↦ none | some m' ↦ some (m', none) ]
    else some (m, some (other_error (codes "scheduler is not running")))

abbrev zero_stats : Stats
zero_stats = record {
  last_run_time = 0;
  next_run_time = 0;
  total_runs = 0;
  successful_runs = 0;
  failed_runs = 0;
  last_error = none;
}

-- `NewIntervalScheduler`, of an interval that is not positive as well. A runner is given.
unfoldable pub new_interval_scheduler : {S : Type 0} → SchedulerConfig → S → Option (Scheduler S)
new_interval_scheduler config s = elim config.interval [
  | zero ↦ none
  | suc _ ↦ some (record {
    running = false;
    stopped = false;
    stop_closed = false;
    cancelled = false;
    loop = unstarted;
    stats = zero_stats;
    state = s;
  })
]

-- What `Status` shows.
pub record SchedulerStatus : Type 0 where
  pub running : Bool
  pub last_run_time : ℕ
  pub next_run_time : ℕ
  pub total_runs : ℕ
  pub successful_runs : ℕ
  pub failed_runs : ℕ
  pub last_error : Option Error

abbrev pub scheduler_status : {S : Type 0} → Scheduler S → SchedulerStatus
scheduler_status m = record {
  running = m.running;
  last_run_time = m.stats.last_run_time;
  next_run_time = m.stats.next_run_time;
  total_runs = m.stats.total_runs;
  successful_runs = m.stats.successful_runs;
  failed_runs = m.stats.failed_runs;
  last_error = m.stats.last_error;
}
