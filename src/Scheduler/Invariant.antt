-- ===== src/Scheduler/Invariant.antt =====
-- What holds of the scheduler of internal/scheduler/interval.go after any moves.
use syncrules.Prelude.{
  ℕ, ◌+◌, Text, true, false, Option, none, some, List, [], ◌∷◌, ◌≡◌, sym, ◌∙◌, arith, Option-cases,
  inl, inr,
}
use syncrules.Domain.{Error}
use syncrules.Scheduler.{
  SchedulerConfig, Stats, unstarted, waiting, executing, exited, Scheduler, Move, begin_run,
  end_run, leave, run_rules, rules_to_run, step, moves, new_interval_scheduler, int,
}

int_suc : (a b : ℕ) → int (int (a + b) + 1) ≡ int (a + b + 1)
int_suc a b = omega arith

int_left : (a b : ℕ) → int (int (a + 1) + b) ≡ int (a + b + 1)
int_left a b = omega arith

int_right : (a b : ℕ) → int (a + int (b + 1)) ≡ int (a + b + 1)
int_right a b = omega arith

-- The runs that are over are counted as successful or failed.
abbrev pub Balanced : Stats → Type 0
Balanced s = s.total_runs ≡ int (s.successful_runs + s.failed_runs)

-- One run more has begun than is over.
abbrev pub OneOpen : Stats → Type 0
OneOpen s = s.total_runs ≡ int (s.successful_runs + s.failed_runs + 1)

-- The flags and the statistics fit the place of the goroutine: it runs exactly between Start and its
-- end, a scheduler that ended stays stopped, and each run is counted once.
abbrev pub IsConsistent : {S : Type 0} → Scheduler S → Type 0
IsConsistent m = elim m.loop [
  | unstarted ↦
      (m.running ≡ false) × (m.stopped ≡ false) × (m.stop_closed ≡ false) × Balanced m.stats
  | waiting ↦ (m.running ≡ true) × (m.stopped ≡ false) × Balanced m.stats
  | executing ↦ (m.running ≡ true) × (m.stopped ≡ false) × OneOpen m.stats
  | exited ↦ (m.running ≡ false) × (m.stopped ≡ true) × Balanced m.stats
]

begin_run-OneOpen :
    (config : SchedulerConfig) (now : ℕ) (s : Stats) → Balanced s → OneOpen (begin_run config now s)
unfolding begin_run
begin_run-OneOpen config now s h = rw h (int_suc s.successful_runs s.failed_runs)

end_run-Balanced : (e : Option Error) (s : Stats) → OneOpen s → Balanced (end_run e s)
unfolding end_run
end_run-Balanced (some e) s h = h ∙ sym (int_right s.successful_runs s.failed_runs)
end_run-Balanced none s h = h ∙ sym (int_left s.successful_runs s.failed_runs)

module _ {S : Type 0} (config : SchedulerConfig) (run_sync : Text → S → S × Option Error) where
  pub step-IsConsistent :
      (x : Move) (m m' : Scheduler S)
      → step config run_sync x m ≡ some m'
      → IsConsistent m
      → IsConsistent m'
  unfolding step leave
  step-IsConsistent (Move.start now) m m' e h = ground arith
  step-IsConsistent (Move.tick now) m m' e h = ground (arith, begin_run-OneOpen config now m.stats)
  step-IsConsistent Move.finish m m' e h = ground (
    arith,
    end_run-Balanced (run_rules run_sync (rules_to_run config.rules) m.state none).1 m.stats,
  )
  step-IsConsistent Move.exit m m' e h = ground arith
  step-IsConsistent Move.request_stop m m' e h = ground arith
  step-IsConsistent Move.finish_stop m m' e h = ground arith
  step-IsConsistent Move.cancel m m' e h = ground arith

  pub moves_keep :
      (xs : List Move) (m m' : Scheduler S)
      → moves config run_sync xs m ≡ some m'
      → IsConsistent m
      → IsConsistent m'
  unfolding moves
  moves_keep [] m m' e h = ground arith
  moves_keep (x ∷ xs) m m' e h = elim (Option-cases (step config run_sync x m)) [
    | inl n ↦ ground arith
    | inr (m1, q) ↦ moves_keep xs m1 m' (ground arith) (step-IsConsistent x m m1 q h)
  ]

new-IsConsistent :
    {S : Type 0} (config : SchedulerConfig) (s : S) (m : Scheduler S)
    → new_interval_scheduler config s ≡ some m
    → IsConsistent m
unfolding new_interval_scheduler
new-IsConsistent config s m e = ground arith

-- After any interleaving of the calls, the ticks and the end of the loop: the scheduler runs exactly
-- from Start to the end of its loop, one that ended stays stopped, and every run that is over is
-- counted once, as successful or as failed.
pub moves-IsConsistent :
    {S : Type 0} (config : SchedulerConfig) (run_sync : Text → S → S × Option Error) (s : S)
    (m m' : Scheduler S) (xs : List Move)
    → new_interval_scheduler config s ≡ some m
    → moves config run_sync xs m ≡ some m'
    → IsConsistent m'
moves-IsConsistent config run_sync s m m' xs e h =
    moves_keep config run_sync xs m m' h (new-IsConsistent config s m e)
