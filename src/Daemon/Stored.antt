-- ===== src/Daemon/Stored.antt =====
-- The records of `RunSync` in the execution history, and the last execution in `Status`
-- (internal/service/daemon.go with internal/state/manager.go).
use mathlib.Core.Path.{subst}
use syncrules.Prelude.{
  ℕ, ◌<◌, Text, text_eq, text_beq, codes, true, Option, none, some, List, Bool, [], ◌∷◌, ◌++◌, ◌≡◌,
  ◌↔◌, refl, ap, sym, ◌∙◌, arith, All, All-append, All-map, ok, err,
}
use syncrules.Domain.{Error, SyncRule}
use syncrules.Config.{Config}
use syncrules.History
use syncrules.History.{Time, Database, select, is_status, save_execution, get_all_history}
use syncrules.History.Table.{Table, InZone, TimesIn, get_all_history_inv}
use syncrules.History.Newest.{select-newest}
use syncrules.Scheduler.{SchedulerConfig, Scheduler, SchedulerStatus, scheduler_status}
use syncrules.Daemon.{
  Daemon, status_running, Status, success, failed, ExecutionRecord, SyncOps, run_rule, run_each,
  rules_named, run_sync, failed_record,
}
use syncrules.Daemon.Records.{run_sync-found}

abbrev status_text : Status → Text
status_text success = codes "success"
status_text failed = codes "failed"

-- The record that the state manager gets; `message` is the text of an error, and `local` gives the offset
-- of the local zone at an instant.
module _ (message : Error → Text) (local : ℕ → ℕ) where
  abbrev pub at_instant : ℕ → Time
  at_instant t = record { instant = t; offset = local t }

  abbrev error_text : Option Error → Text
  error_text none = []
  error_text (some e) = message e

  abbrev pub row : ExecutionRecord → History.ExecutionRecord
  row r = record {
    id = 0;
    rule_name = r.rule_name;
    start_time = at_instant r.start_time;
    end_time = at_instant r.end_time;
    status = status_text r.status;
    files_synced = r.files_synced;
    bytes_synced = r.bytes_synced;
    error = error_text r.error;
  }

  -- The calls of `SaveExecution`, whose errors are dropped.
  unfoldable pub save_records : {W : Type 0} → Database W → W → List ExecutionRecord → W
  unfolding save_execution
  save_records db w [] = w
  save_records db w (r ∷ records) = save_records db (save_execution db w (row r)).0 records

-- `LastExecution` of `Status`.
unfoldable pub last_execution : {W : Type 0} → Database W → W → Option History.ExecutionRecord
unfolding get_all_history
last_execution db w = elim (get_all_history db w 1) [
  | err _ ↦ none
  | ok records ↦ elim records [ [] ↦ none | r ∷ _ ↦ some r ]
]

-- `DaemonStatus`
pub record DaemonStatus : Type 0 where
  pub running : Bool
  pub scheduler_stats : Option SchedulerStatus
  pub last_execution : Option History.ExecutionRecord

abbrev stats_of : {S : Type 0} → Option (SchedulerConfig × Scheduler S) → Option SchedulerStatus
stats_of none = none
stats_of (some (_, m)) = some (scheduler_status m)

-- `Status`
unfoldable pub daemon_status : {W S : Type 0} → Database W → W → Daemon S → DaemonStatus
unfolding last_execution
daemon_status db w d = record {
  running = status_running d;
  scheduler_stats = stats_of d.scheduler;
  last_execution = last_execution db w;
}

last_execution-head :
    {W : Type 0} (db : Database W) (w : W) (x : History.ExecutionRecord)
    (xs : List History.ExecutionRecord)
    → get_all_history db w 1 ≡ ok (x ∷ xs)
    → last_execution db w ≡ some x
unfolding last_execution
last_execution-head db w x xs h = ground arith

status_text-is_status : (s : Status) → is_status (status_text s) ≡ true
unfolding is_status text_beq
status_text-is_status success = refl
status_text-is_status failed = refl

status_text-success : (s : Status) → (status_text s ≡ codes "success") ↔ (s ≡ success)
status_text-success s = ground arith

module _ {W : Type 0} (db : Database W) (table : Table db) where
  -- A record of the runner is never refused: where the database takes it, it is a new row.
  save-row :
      (message : Error → Text) (local : ℕ → ℕ) (w : W) (r : ExecutionRecord)
      → (db.insert w (row message local r)).1 ≡ none
      → (id : ℕ) × (db.rows (save_execution db w (row message local r)).0
          ≡ db.rows w ++ record (row message local r) { id = id } ∷ [])
  unfolding save_execution
  save-row message local w r h =
      let (id, e) = table.insert_law w (row message local r) h in
      (id, rw (status_text-is_status r.status) (ap db.rows (ground arith) ∙ e))

module _ {S : Type 0} (ops : SyncOps S) where
  run_rule-start :
      (rule : SyncRule) (s : S)
      → ((run_rule ops rule s).1.start_time ≡ ops.now s)
        × ((run_rule ops rule s).1.rule_name ≡ rule.name)
        × (((run_rule ops rule s).2 ≡ none) ↔ ((run_rule ops rule s).1.status ≡ success))
  unfolding run_rule failed_record
  run_rule-start rule s = ground arith

  run_one :
      (c : Config) (name : Text) (s : S) (rule : SyncRule)
      → rules_named c name ≡ ok (rule ∷ [])
      → ((run_sync ops c name s).1 ≡ (run_rule ops rule s).1 ∷ [])
        × (((run_sync ops c name s).2 ≡ none) ↔ ((run_rule ops rule s).2 ≡ none))
  unfolding run_each
  run_one c name s rule h = rw (run_sync-found ops c name s (rule ∷ []) h) (refl, ground arith)

  -- After RunSync of one rule, where the database takes the row, the rule starts later than all rows before
  -- it, its run and all rows start and end in one zone and before the last day of the year 9999, and the
  -- history can be read, `Status` shows an execution of this rule with this start, which says success
  -- exactly where RunSync gives no error.
  pub run_sync-last_execution :
      (message : Error → Text) (local : ℕ → ℕ) {W : Type 0} (db : Database W) (table : Table db)
      (zone : ℕ) (c : Config) (name : Text) (s : S) (rule : SyncRule) (w : W)
      (xs : List History.ExecutionRecord)
      → rules_named c name ≡ ok (rule ∷ [])
      → ((r : History.ExecutionRecord) → (db.insert w r).1 ≡ none)
      → InZone zone (at_instant message local (ops.now s))
      → InZone zone (at_instant message local (run_rule ops rule s).1.end_time)
      → All
          (λ (x : History.ExecutionRecord). TimesIn zone x × (x.start_time.instant < ops.now s))
          (db.rows w)
      → get_all_history db (save_records message local db w (run_sync ops c name s).1) 1 ≡ ok xs
      → (last : History.ExecutionRecord) × (last_execution db
            (save_records message local db w (run_sync ops c name s).1)
          ≡ some last)
        × (last.rule_name ≡ rule.name)
        × (last.start_time.instant ≡ ops.now s)
        × ((last.status ≡ codes "success") ↔ ((run_sync ops c name s).2 ≡ none))
  unfolding save_records
  run_sync-last_execution message local db table zone c name s rule w xs h takes zoned ends older
        read =
      let r = (run_rule ops rule s).1 in
      let (saved, agrees) = run_one c name s rule h in
      let (start, named, succeeded) = run_rule-start rule s in
      let w' = (save_execution db w (row message local r)).0 in
      let (id, rows) = save-row db table message local w r (takes (row message local r)) in
      let read' : get_all_history db w' 1 ≡ ok xs =
        ap (λ rs. get_all_history db (save_records message local db w rs) 1) (sym saved) ∙ read in
      let times : TimesIn zone (row message local r) =
        (subst (λ t. InZone zone (at_instant message local t)) (sym start) zoned, ends) in
      let (_, selected) =
        get_all_history_inv db table zone w' 1 xs
          (subst (All (TimesIn zone)) (sym rows) (
            All-append _ (db.rows w) (record (row message local r) { id = id } ∷ [])
              (All-map _ _ (db.rows w) (λ x k. k.0) older) (times, tt)))
          read' in
      let (rest, first) =
        select-newest db table zone (λ r. true) 1 (db.rows w)
          (record (row message local r) { id = id }) (omega arith) refl times
          (All-map _ _ (db.rows w)
            (λ x k m. (k.0, subst (λ t. x.start_time.instant < t) (sym start) k.1)) older) in
      let head = selected ∙ ap (select db.times (λ r. true) 1) rows ∙ first in
      (
        record (row message local r) { id = id },
        ap (λ rs. last_execution db (save_records message local db w rs)) saved
            ∙ last_execution-head db w' (record (row message local r) { id = id }) rest
                (read' ∙ ap ok head),
        named,
        start,
        (
          λ e. agrees.1 (succeeded.1 ((status_text-success r.status).0 e)),
          λ e. (status_text-success r.status).1 (succeeded.0 (agrees.0 e)),
        ),
      )
