-- ===== src/Daemon.antt =====
-- internal/service/daemon.go: the runner that the scheduler calls, and the daemon around the scheduler.
pub mod Records
pub mod Control
pub mod Stored
pub mod Simulation
pub mod Locked
pub mod Opening
use syncrules.Prelude.{
  ℕ, Text, text_eq, codes, Bool, true, false, Option, none, some, List, [], ◌∷◌, ◌==◌,
  if◌then◌else◌, Result, ok, err, map,
}
use syncrules.Domain.{Error, wrapped, other_error, SyncPlan, SyncRule}
use syncrules.Config.{Config, get_rule, get_scheduled_rules}
use syncrules.Scheduler.{
  SchedulerConfig, Stats, Scheduler, Move, start_scheduler, stop, new_interval_scheduler,
}

pub data Status : Type 0 where
  success failed : Status

pub record ExecutionRecord : Type 0 where
  pub rule_name : Text
  pub start_time : ℕ
  pub end_time : ℕ
  pub status : Status
  pub files_synced : ℕ
  pub bytes_synced : ℕ
  pub error : Option Error

-- What the runner uses of the service, whose state, the time included, is `S`.
pub record SyncOps (S : Type 0) : Type 0 where
  pub plan_sync : Text → S → S × Result Error SyncPlan
  pub execute_sync : SyncPlan → S → S × Option Error
  pub now : S → ℕ

abbrev append_error : Option Error → List Error → List Error
append_error (some e) errors = e ∷ errors
append_error none errors = errors

abbrev pub aggregate : List Error → Option Error
aggregate [] = none
aggregate (_ ∷ _) = some (other_error (codes "sync completed with errors"))

-- The rules of a call of `RunSync`.
unfoldable pub rules_named : Config → Text → Result Error (List SyncRule)
unfolding get_rule get_scheduled_rules
rules_named c name = if name == [] then ok (get_scheduled_rules c) else elim (get_rule c name) [
  | err _ ↦ err (other_error (codes "rule not found"))
  | ok rule ↦ ok (rule ∷ [])
]

module _ {S : Type 0} (ops : SyncOps S) where
  failed_record : Text → ℕ → S → Error → ExecutionRecord
  failed_record name start s e = record {
    rule_name = name;
    start_time = start;
    end_time = ops.now s;
    status = failed;
    files_synced = 0;
    bytes_synced = 0;
    error = some e;
  }

  -- The body of the loop of `RunSync`: the record that it saves, and the error that it appends.
  unfoldable pub run_rule : SyncRule → S → S × ExecutionRecord × Option Error
  unfolding failed_record
  run_rule rule s =
      let p = ops.plan_sync rule.name s in
      elim p.1 [
        | err e ↦
            (p.0, failed_record rule.name (ops.now s) p.0 e, some (wrapped (codes "plan failed") e))
        | ok plan ↦
            let x = ops.execute_sync plan p.0 in
            elim x.1 [
              | some e ↦ (
                x.0,
                failed_record rule.name (ops.now s) x.0 e,
                some (wrapped (codes "execution failed") e),
              )
              | none ↦ (
                x.0,
                record {
                  rule_name = rule.name;
                  start_time = ops.now s;
                  end_time = ops.now x.0;
                  status = success;
                  files_synced = plan.stats.files_to_copy;
                  bytes_synced = plan.stats.bytes_to_sync;
                  error = none;
                },
                none,
              )
            ]
      ]

  -- The loop: the records saved and the errors, both in the order of the rules.
  pub run_each : List SyncRule → S → S × List ExecutionRecord × List Error
  unfolding run_rule
  run_each [] s = (s, [], [])
  run_each (rule ∷ rules) s =
      let r = run_rule rule s in
      let rest = run_each rules r.0 in (rest.0, r.1 ∷ rest.1, append_error r.2 rest.2)

  -- `RunSync`: the state, the records saved and the error.
  unfoldable pub run_sync : Config → Text → S → S × List ExecutionRecord × Option Error
  unfolding run_each rules_named
  run_sync c name s = elim (rules_named c name) [
    | err e ↦ (s, [], some e)
    | ok rules ↦ let r = run_each rules s in (r.0, r.1, aggregate r.2)
  ]

-- The daemon's scheduler with its configuration, and the state of its runner while there is no scheduler.
pub record Daemon (S : Type 0) : Type 0 where
  pub scheduler : Option (SchedulerConfig × Scheduler S)
  pub service : S

module _ {S : Type 0} (c : Config) (runner : Text → S → S × Option Error) where
  -- `Start` at the time `now`.
  unfoldable pub start_daemon : ℕ → ℕ → Daemon S → Daemon S × Option Error
  unfolding get_scheduled_rules new_interval_scheduler start_scheduler
  start_daemon interval now d = elim d.scheduler [
    | some _ ↦ (d, some (other_error (codes "daemon is already running")))
    | none ↦
        let config : SchedulerConfig = record {
          interval = interval;
          rules = map (λ (r : SyncRule). r.name) (get_scheduled_rules c);
        } in
        elim (new_interval_scheduler config d.service) [
          | none ↦ (d, some (other_error (codes "failed to create scheduler")))
          | some m ↦
              let (m', failure) = start_scheduler config now m in
              elim failure [
                | some e ↦ (d, some (wrapped (codes "failed to start scheduler") e))
                | none ↦ (record { scheduler = some (config, m'); service = d.service }, none)
              ]
        ]
  ]

  -- `Stop`, by the ticks that the loop still takes; `none` where it does not return.
  unfoldable pub stop_daemon : List ℕ → Daemon S → Option (Daemon S × Option Error)
  unfolding stop
  stop_daemon ticks d = elim d.scheduler [
    | none ↦ some (d, some (other_error (codes "daemon is not running")))
    | some (config, m) ↦ elim (stop config runner ticks m) [
      | none ↦ none
      | some (m', some e) ↦ some (d, some (wrapped (codes "failed to stop scheduler") e))
      | some (m', none) ↦ some (record { scheduler = none; service = m'.state }, none)
    ]
  ]

  -- `Close` up to the scheduler: it is dropped whatever its `Stop` returns.
  unfoldable pub close_scheduler : List ℕ → Daemon S → Option (Daemon S × Option Error)
  unfolding stop
  close_scheduler ticks d = elim d.scheduler [
    | none ↦ some (d, none)
    | some (config, m) ↦ elim (stop config runner ticks m) [
      | none ↦ none
      | some (m', failure) ↦ some (record { scheduler = none; service = m'.state }, failure)
    ]
  ]

-- `Close` of a part that may be missing; its error takes the place of the one before.
abbrev close_part :
    {S : Type 0} → Option (S → S × Option Error) → S × Option Error → S × Option Error
close_part none (s, last) = (s, last)
close_part (some close) (s, last) = let (s1, failure) = close s in (s1, latest failure last)
  where
    latest : Option Error → Option Error → Option Error
    latest (some e) last = some e
    latest none last = last

-- `Close`: the scheduler, the service and the state manager, whatever the ones before return.
unfoldable pub close_daemon :
    {S : Type 0}
    → Config
    → (Text → S → S × Option Error)
    → Option (S → S × Option Error)
    → Option (S → S × Option Error)
    → List ℕ
    → Daemon S
    → Option (Daemon S × Option Error)
unfolding close_scheduler
close_daemon c runner close_service close_state ticks d = elim (close_scheduler c runner ticks d) [
  | none ↦ none
  | some (d1, last) ↦
      let (s, failure) = close_part close_state (close_part close_service (d1.service, last)) in
      some (record { scheduler = d1.scheduler; service = s }, failure)
]

-- The field `Running` of `Status`.
abbrev pub status_running : {S : Type 0} → Daemon S → Bool
status_running d = elim d.scheduler [ some _ ↦ true | none ↦ false ]
