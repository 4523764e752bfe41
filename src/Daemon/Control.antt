-- ===== src/Daemon/Control.antt =====
-- `Start` and `Stop` of internal/service/daemon.go.
use syncrules.Prelude.{
  ℕ, zero, suc, Text, codes, List, true, false, Option, none, some, ◌≡◌, ◌≢◌, refl, arith,
  Option-cases, inl, inr,
}
use syncrules.Domain.{Error, wrapped, other_error}
use syncrules.Config.{Config}
use syncrules.Scheduler.{
  SchedulerConfig, Scheduler, Move, exited, moves, stop, new_interval_scheduler, start_scheduler,
}
use syncrules.Scheduler.Invariant.{IsConsistent, moves_keep}
use syncrules.Scheduler.Stopping.{stop-Ended, moves-exited}
use syncrules.Daemon.{Daemon, start_daemon, stop_daemon, status_running}

module _ {S : Type 0} (c : Config) (runner : Text → S → S × Option Error) where
  abbrev with_scheduler : SchedulerConfig → Scheduler S → S → Daemon S
  with_scheduler config m service = record { scheduler = some (config, m); service = service }

  over-stop :
      (config : SchedulerConfig) (m : Scheduler S) (service : S) (ticks : List ℕ)
      → m.loop ≡ exited
      → IsConsistent m
      → (e : Error) × (stop_daemon c runner ticks (with_scheduler config m service)
          ≡ some (with_scheduler config m service, some e))
  unfolding stop_daemon stop
  over-stop config m service ticks e h =
      let halted : m.running ≡ false = ground arith in
      (
        wrapped (codes "failed to stop scheduler") (other_error (codes "scheduler is not running")),
        ground arith,
      )

  over-start :
      (config : SchedulerConfig) (m : Scheduler S) (service : S) (interval now : ℕ)
      → (e : Error) × (start_daemon c runner interval now (with_scheduler config m service)
          ≡ (with_scheduler config m service, some e))
  unfolding start_daemon
  over-start config m service interval now = (_, refl)

  started-IsConsistent :
      (d : Daemon S) (interval now : ℕ) (config : SchedulerConfig) (m : Scheduler S)
      → (start_daemon c runner interval now d).1 ≡ none
      → (start_daemon c runner interval now d).0.scheduler ≡ some (config, m)
      → IsConsistent m
  unfolding start_daemon new_interval_scheduler start_scheduler
  started-IsConsistent d zero now config m h k = ground arith
  started-IsConsistent d (suc interval) now config m h k = ground arith

  -- After a Start that succeeded, once the scheduler's loop has ended, in whatever way and
  -- whatever happened in between, and the daemon still has the scheduler, as after the context is cancelled:
  -- then Stop returns at once with an error and Start gives an error, both leave the daemon as it is, Status
  -- says running, and so it stays after all further moves, by which the runner does not work any more.
  pub stop_daemon-LoopIsOver :
      (d : Daemon S) (interval now : ℕ) (config : SchedulerConfig) (m m1 m2 : Scheduler S)
      (xs ys : List Move) (service : S) (ticks : List ℕ) (next_interval later : ℕ)
      → (start_daemon c runner interval now d).1 ≡ none
      → (start_daemon c runner interval now d).0.scheduler ≡ some (config, m)
      → moves config runner xs m ≡ some m1
      → m1.loop ≡ exited
      → moves config runner ys m1 ≡ some m2
      → let over = with_scheduler config m2 service in
        ((e : Error) × (stop_daemon c runner ticks over ≡ some (over, some e)))
        × ((e : Error) × (start_daemon c runner next_interval later over ≡ (over, some e)))
        × (status_running over ≡ true)
        × (m2.state ≡ m1.state)
  stop_daemon-LoopIsOver d interval now config m m1 m2 xs ys service ticks next_interval later s at
        reached ended further =
      let consistent =
        moves_keep config runner xs m m1 reached
          (started-IsConsistent d interval now config m s at) in
      let (still, _, same) = moves-exited config runner ys m1 m2 ended consistent further in
      (
        over-stop config m2 service ticks still
            (moves_keep config runner ys m1 m2 further consistent),
        over-start config m2 service next_interval later,
        refl,
        same,
      )

  -- The daemon has a scheduler whose loop runs.
  abbrev pub LoopRuns : Daemon S → Type 0
  LoopRuns d = elim d.scheduler [ none ↦ ⊥ | some (_, m) ↦ (m.running ≡ true) × IsConsistent m ]

  start_daemon-LoopRuns :
      (d : Daemon S) (interval now : ℕ)
      → d.scheduler ≡ none
      → ((start_daemon c runner (suc interval) now d).1 ≡ none)
        × LoopRuns (start_daemon c runner (suc interval) now d).0
  unfolding start_daemon new_interval_scheduler start_scheduler
  start_daemon-LoopRuns d interval now h = rw (h, start_daemon) (refl, (refl, (refl, refl, refl)))

  start_daemon-busy :
      (d : Daemon S) (interval now : ℕ)
      → LoopRuns d
      → (start_daemon c runner interval now d).1 ≢ none
  unfolding start_daemon
  start_daemon-busy d interval now h = ground arith

  stop_daemon-LoopRuns :
      (d : Daemon S) (ticks : List ℕ)
      → LoopRuns d
      → (d' : Daemon S) × (stop_daemon c runner ticks d ≡ some (d', none)) × (d'.scheduler ≡ none)
  unfolding stop_daemon
  stop_daemon-LoopRuns d ticks h = elim (Option-cases d.scheduler) [
    | inl e ↦ absurd (ground arith)
    | inr ((config, m), e) ↦ elim (Option-cases (stop config runner ticks m)) [
      | inl f ↦ absurd (ground (arith, stop-Ended config runner ticks m))
      | inr ((m', failure), f) ↦
          let settled : failure ≡ none = ground (arith, stop-Ended config runner ticks m) in
          (
            record { scheduler = none; service = m'.state },
            rw (e, f, settled, stop_daemon) refl,
            refl,
          )
    ]
  ]

  -- Without a scheduler Start succeeds and leaves a running loop. While the loop runs, wherever it is,
  -- Start gives an error, Stop succeeds, and after it the daemon can be started again.
  pub start_daemon_lem :
      (d : Daemon S) (interval now : ℕ) (ticks : List ℕ)
      → (d.scheduler ≡ none
          → ((start_daemon c runner (suc interval) now d).1 ≡ none)
            × LoopRuns (start_daemon c runner (suc interval) now d).0)
        × (LoopRuns d
            → ((start_daemon c runner interval now d).1 ≢ none)
              × ((d' : Daemon S) × (stop_daemon c runner ticks d ≡ some (d', none))
                  × (status_running d' ≡ false)
                  × ((start_daemon c runner (suc interval) now d').1 ≡ none)))
  start_daemon_lem d interval now ticks = (
    start_daemon-LoopRuns d interval now,
    λ h.
        let (d', stops, gone) = stop_daemon-LoopRuns d ticks h in
        (
          start_daemon-busy d interval now h,
          (d', stops, ground arith, (start_daemon-LoopRuns d' interval now gone).0),
        ),
  )
