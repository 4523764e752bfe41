-- ===== src/Scheduler/Stopping.antt =====
-- How the scheduler of internal/scheduler/interval.go stops, and what one run does.
use mathlib.Core.Path.{subst}
use syncrules.Prelude.{
  ℕ, Text, Bool, true, false, Option, none, some, List, [], ◌∷◌, ◌≡◌, ◌↔◌, inl, inr, refl, arith,
  Option-cases, ◌∙◌, sym,
}
use syncrules.Domain.{Error}
use syncrules.Scheduler.{
  SchedulerConfig, Stats, Loop, unstarted, waiting, executing, exited, Scheduler, Move, leave,
  run_rules, rules_to_run, step, moves, ticked, stop,
}
use syncrules.Scheduler.Invariant.{IsConsistent, step-IsConsistent}

module _ {S : Type 0} (config : SchedulerConfig) (run_sync : Text → S → S × Option Error) where
  -- The runner's state after a run of the rules, and after some of them.
  abbrev one_run : S → S
  one_run s = (run_rules run_sync (rules_to_run config.rules) s none).0

  abbrev pub rounds : List ℕ → S → S
  rounds [] s = s
  rounds (now ∷ ticks) s = rounds ticks (one_run s)

  -- After the run in progress, if there is one.
  abbrev pub finished : Loop → S → S
  finished executing s = one_run s
  finished _ s = s

  abbrev pub Ended : S → Option (Scheduler S × Option Error) → Type 0
  Ended s none = ⊥
  Ended s (some (m, failure)) =
      (failure ≡ none)
      × (m.loop ≡ exited)
      × (m.running ≡ false)
      × (m.stopped ≡ true)
      × (m.state ≡ s)

  abbrev running_at : Loop → Bool → Bool → Bool → Stats → S → Scheduler S
  running_at loop stopped closed cancelled stats state = record {
    running = true;
    stopped = stopped;
    stop_closed = closed;
    cancelled = cancelled;
    loop = loop;
    stats = stats;
    state = state;
  }

  abbrev without_error : Option (Scheduler S) → Option (Scheduler S × Option Error)
  without_error none = none
  without_error (some m) = some (m, none)

  -- The loop with the stop channel closed.
  ticked-Ended :
      (ticks : List ℕ) (stopped cancelled : Bool) (stats : Stats) (state : S)
      → Ended (rounds ticks state) (
          without_error (
            moves config run_sync
              (ticked ticks (Move.exit ∷ Move.finish_stop ∷ []))
              (running_at waiting stopped true cancelled stats state)))
  unfolding moves step leave
  ticked-Ended [] stopped true stats state = (refl, refl, refl, refl, refl)
  ticked-Ended [] stopped false stats state = (refl, refl, refl, refl, refl)
  ticked-Ended (now ∷ ticks) stopped cancelled stats state =
      ticked-Ended ticks stopped cancelled _ (one_run state)

  running_at-Ended :
      (ticks : List ℕ) (loop : Loop) (stopped closed cancelled : Bool) (stats : Stats) (state : S)
      → IsConsistent (running_at loop stopped closed cancelled stats state)
      → Ended
          (rounds ticks (finished loop state))
          (stop config run_sync ticks (running_at loop stopped closed cancelled stats state))
  unfolding stop moves step
  running_at-Ended ticks unstarted stopped closed cancelled stats state h = ground arith
  running_at-Ended ticks exited stopped closed cancelled stats state h = ground arith
  running_at-Ended ticks waiting stopped closed cancelled stats state h =
      ticked-Ended ticks stopped cancelled stats state
  running_at-Ended ticks executing stopped closed cancelled stats state h =
      ticked-Ended ticks stopped cancelled _ (one_run state)

  -- `Stop` on a running scheduler returns without an error, whatever finite number of ticks `select` still
  -- picks before the closed channel: the run in progress and each of these runs are finished, and then the
  -- loop is over and the scheduler is stopped for good.
  pub stop-Ended :
      (ticks : List ℕ) (m : Scheduler S)
      → IsConsistent m
      → m.running ≡ true
      → Ended (rounds ticks (finished m.loop m.state)) (stop config run_sync ticks m)
  stop-Ended ticks m h r =
      subst
        (λ b.
          IsConsistent (record m { running = b })
          → Ended (rounds ticks (finished m.loop m.state))
              (stop config run_sync ticks (record m { running = b })))
        (sym r) (running_at-Ended ticks m.loop m.stopped m.stop_closed m.cancelled m.stats m.state)
        h

  step-exited :
      (x : Move) (m m' : Scheduler S)
      → m.loop ≡ exited
      → IsConsistent m
      → step config run_sync x m ≡ some m'
      → (m'.loop ≡ exited) × (m'.stats ≡ m.stats) × (m'.state ≡ m.state)
  unfolding step
  step-exited (Move.start now) m m' e h k = ground arith
  step-exited (Move.tick now) m m' e h k = ground arith
  step-exited Move.finish m m' e h k = ground arith
  step-exited Move.exit m m' e h k = ground arith
  step-exited Move.request_stop m m' e h k = ground arith
  step-exited Move.finish_stop m m' e h k = ground arith
  step-exited Move.cancel m m' e h k = ground arith

  -- Once the loop has ended nothing runs any more: no call starts it again, and neither the statistics nor
  -- the state that the runner works on change.
  pub moves-exited :
      (xs : List Move) (m m' : Scheduler S)
      → m.loop ≡ exited
      → IsConsistent m
      → moves config run_sync xs m ≡ some m'
      → (m'.loop ≡ exited) × (m'.stats ≡ m.stats) × (m'.state ≡ m.state)
  unfolding moves
  moves-exited [] m m' e h k = ground arith
  moves-exited (x ∷ xs) m m' e h k = elim (Option-cases (step config run_sync x m)) [
    | inl n ↦ ground arith
    | inr (m1, q) ↦
        let first = step-exited x m m1 e h q in
        let rest =
          moves-exited xs m1 m' first.0 (step-IsConsistent config run_sync x m m1 q h)
            (ground arith) in
        (rest.0, rest.1 ∙ first.1, rest.2 ∙ first.2)
  ]

-- No rule of the list gives an error, one after the other from the state `s`.
abbrev pub NoneFails : {S : Type 0} → (Text → S → S × Option Error) → List Text → S → Type 0
NoneFails run_sync [] s = Unit
NoneFails run_sync (rule ∷ rules) s =
    ((run_sync rule s).1 ≡ none) × NoneFails run_sync rules (run_sync rule s).0

run_rules-last :
    {S : Type 0} (run_sync : Text → S → S × Option Error) (rules : List Text) (s : S)
    (last : Option Error)
    → ((run_rules run_sync rules s last).1 ≡ none) ↔ ((last ≡ none) × NoneFails run_sync rules s)
unfolding run_rules
run_rules-last run_sync [] s last = ground arith
run_rules-last run_sync (rule ∷ rules) s last = ground (
  arith,
  run_rules-last run_sync rules (run_sync rule s).0
      (elim (run_sync rule s).1 [ some e ↦ some e | none ↦ last ]),
)

-- One run of the scheduler is counted as successful exactly where none of its rules fails.
pub run_rules-NoneFails :
    {S : Type 0} (run_sync : Text → S → S × Option Error) (rules : List Text) (s : S)
    → ((run_rules run_sync rules s none).1 ≡ none) ↔ NoneFails run_sync rules s
run_rules-NoneFails run_sync rules s = ground (arith, run_rules-last run_sync rules s none)
