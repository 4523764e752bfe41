-- ===== src/Tests/Daemons.antt =====
-- Runs and instances of the scheduler and of the daemon. The runner counts its calls.
use syncrules.Prelude.{
  ℕ, suc, ◌+◌, Text, codes, text_beq, Bool, true, false, Option, none, some, List, [], ◌∷◌, ok, err,
  map, All, ◌≡◌, ◌↔◌, refl, ap,
}
use syncrules.Domain.{Error, not_found}
use syncrules.Config.{find_named, get_rule, enabled_rules, get_scheduled_rules}
use syncrules.Scheduler.{
  SchedulerConfig, Scheduler, Move, Loop, waiting, exited, run_rules, step, moves, stop,
  start_scheduler, new_interval_scheduler,
}
use syncrules.Scheduler.Invariant.{IsConsistent, moves-IsConsistent}
use syncrules.Scheduler.Stopping.{Ended, stop-Ended}
use syncrules.Daemon.{
  Daemon, SyncOps, rules_named, run_sync, start_daemon, stop_daemon, status_running,
}
use syncrules.Daemon.Records.{record_name, rule_name, Coherent, Succeeded, run_sync-records}
use syncrules.Daemon.Control.{stop_daemon-LoopIsOver}
use syncrules.Tests.Samples.{rule}
use syncrules.Tests.Settings.{sample_config}

abbrev counting : Text → ℕ → ℕ × Option Error
counting name n = (suc n, none)

abbrev every_five : SchedulerConfig
every_five = record { interval = 5; rules = [] }

-- A scheduler whose loop is at the given place, with one run behind it.
abbrev at_place : Bool → Bool → Bool → Loop → Scheduler ℕ
at_place running stopped closed loop = record {
  running = running;
  stopped = stopped;
  stop_closed = closed;
  cancelled = false;
  loop = loop;
  stats = record {
    last_run_time = 6;
    next_run_time = 11;
    total_runs = 1;
    successful_runs = 1;
    failed_runs = 0;
    last_error = none;
  };
  state = 1;
}

abbrev fresh : Scheduler ℕ
fresh = record {
  running = false;
  stopped = false;
  stop_closed = false;
  cancelled = false;
  loop = Loop.unstarted;
  stats = record {
    last_run_time = 0;
    next_run_time = 0;
    total_runs = 0;
    successful_runs = 0;
    failed_runs = 0;
    last_error = none;
  };
  state = 0;
}

fresh-new : new_interval_scheduler every_five 0 ≡ some fresh
unfolding new_interval_scheduler
fresh-new = refl

abbrev one_run : List Move
one_run =
    Move.start 1 ∷ Move.tick 6 ∷ Move.finish ∷ Move.request_stop ∷ Move.exit ∷ Move.finish_stop ∷ []

fresh-moves : moves every_five counting one_run fresh ≡ some (at_place false true true exited)
unfolding moves step run_rules
fresh-moves = refl

moves-IsConsistent_example : IsConsistent (at_place false true true exited)
moves-IsConsistent_example =
    moves-IsConsistent every_five counting 0 fresh (at_place false true true exited) one_run
      fresh-new fresh-moves

stop-Ended_example :
    Ended every_five counting 3
      (stop every_five counting (7 ∷ 8 ∷ []) (at_place true false false waiting))
unfolding run_rules
stop-Ended_example =
    stop-Ended every_five counting (7 ∷ 8 ∷ []) (at_place true false false waiting)
      (refl, refl, refl) refl

still_ended :
    moves every_five counting (Move.finish_stop ∷ []) (at_place false true true exited)
    ≡ some (at_place false true true exited)
unfolding moves step
still_ended = refl

-- Every plan fails.
abbrev pub failing : SyncOps ℕ
failing = record {
  plan_sync = λ name n. (n + 1, err not_found);
  execute_sync = λ plan n. (n + 1, none);
  now = λ n. n;
}

pub docs_found : rules_named sample_config (codes "docs") ≡ ok (rule ∷ [])
unfolding rules_named get_rule find_named text_beq
docs_found = refl

run_sync-records_example :
    let r = run_sync failing sample_config (codes "docs") 0 in
    (map record_name r.1 ≡ map rule_name (rule ∷ []))
    × All Coherent r.1
    × ((r.2 ≡ none) ↔ All Succeeded r.1)
run_sync-records_example =
    run_sync-records failing sample_config (codes "docs") 0 (rule ∷ []) docs_found

-- A daemon before and after its Start.
abbrev idle : Daemon ℕ
idle = record { scheduler = none; service = 0 }

abbrev docs_config : SchedulerConfig
docs_config = record { interval = 5; rules = codes "docs" ∷ [] }

abbrev scheduled : Bool → Bool → Bool → Loop → Scheduler ℕ
scheduled running stopped cancelled loop = record {
  running = running;
  stopped = stopped;
  stop_closed = false;
  cancelled = cancelled;
  loop = loop;
  stats = record {
    last_run_time = 0;
    next_run_time = 25;
    total_runs = 0;
    successful_runs = 0;
    failed_runs = 0;
    last_error = none;
  };
  state = 0;
}

started_docs : start_daemon sample_config counting 5 20 idle ≡ (
  record { scheduler = some (docs_config, scheduled true false false waiting); service = 0 },
  none,
)
unfolding start_daemon get_scheduled_rules enabled_rules new_interval_scheduler start_scheduler
    text_beq
started_docs = refl

cancelled_docs :
    moves docs_config counting (Move.cancel ∷ Move.exit ∷ []) (scheduled true false false waiting)
    ≡ some (scheduled false true true exited)
unfolding moves step
cancelled_docs = refl

still_over :
    moves docs_config counting (Move.cancel ∷ []) (scheduled false true true exited)
    ≡ some (scheduled false true true exited)
unfolding moves step
still_over = refl

-- The daemon whose loop has ended since the context was cancelled.
abbrev orphaned : Daemon ℕ
orphaned = record { scheduler = some (docs_config, scheduled false true true exited); service = 0 }

stop_daemon-LoopIsOver_example :
    ((e : Error) × (stop_daemon sample_config counting [] orphaned ≡ some (orphaned, some e)))
    × ((e : Error) × (start_daemon sample_config counting 5 40 orphaned ≡ (orphaned, some e)))
    × (status_running orphaned ≡ true)
    × (◌≡◌ {A = ℕ} 0 0)
stop_daemon-LoopIsOver_example =
    stop_daemon-LoopIsOver sample_config counting idle 5 20 docs_config
      (scheduled true false false waiting) (scheduled false true true exited)
      (scheduled false true true exited) (Move.cancel ∷ Move.exit ∷ []) (Move.cancel ∷ []) 0 [] 5 40
      (ap (λ (r : Daemon ℕ × Option Error). r.1) started_docs)
      (ap (λ (r : Daemon ℕ × Option Error). r.0.scheduler) started_docs) cancelled_docs refl
      still_over

abbrev busy : Daemon ℕ
busy = record { scheduler = some (every_five, at_place true false false waiting); service = 0 }
