-- ===== src/Progress/Transfers.antt =====
-- The reports of internal/progress/progress.go on what ExecuteSync of internal/service/sync.go does.
use mathlib.Core.Path.{subst}
use syncrules.Prelude.{
  ℕ, suc, ◌+◌, ◌%◌, ◌^◌, ◌<◌, Text, Bool, true, false, Option, none, some, List, [], ◌∷◌, ◌++◌, ◌≡◌,
  ◌⊎◌, inl, inr, refl, ◌∙◌, arith, Bool-cases, Option-cases, Result-cases, length, length-append,
  ltb,
}
use syncrules.Domain.{
  SyncAction, ActionType, copy, delete, mkdir, conflict, skip, source_to_target, target_to_source,
  SyncDirection, Error,
}
use syncrules.Adapter.{Adapter, concat}
use syncrules.Service.Execution.{
  Event, set_total, start, complete, error, overall_progress, reported_size, is_copy, written,
  copy_file, perform, execute_action, execute_actions,
}
use syncrules.Progress.{CallbackReporter, wrap, read_reports}
use syncrules.Progress

-- What a call of the reporter makes of its state.
report : ℕ → CallbackReporter → Event → CallbackReporter
report now r (set_total files bytes) = Progress.set_total files bytes r
report now r (start path size) = (Progress.start_file now path size r).0
report now r complete = (Progress.complete_file r).0
report now r (error e) = (Progress.report_error e r).0
report now r (overall_progress files bytes) = (Progress.overall_progress files bytes r).0

-- Whenever `OverallProgress` is called, its figures are those that the reporter has counted itself.
pub Agrees : ℕ → CallbackReporter → List Event → Type 0
unfolding report
Agrees now r [] = Unit
Agrees now r (overall_progress files bytes ∷ events) =
    (files ≡ r.files_completed)
    × (bytes ≡ r.bytes_completed)
    × Agrees now (report now r (overall_progress files bytes)) events
Agrees now r (event ∷ events) = Agrees now (report now r event) events

-- The calls of the reporter in an action that succeeds, and in one that fails.
Calls : SyncAction → ActionType → Option Error → List Event → Type 0
Calls a t none events =
    ((is_copy t ≡ true) × (path : Text) × (events ≡ start path (reported_size a) ∷ complete ∷ []))
    ⊎ ((is_copy t ≡ false) × (events ≡ []))
Calls a t (some e) events =
    (events ≡ [])
    ⊎ ((path : Text) × (size : ℕ) × (x : Error) × (events ≡ start path size ∷ error x ∷ []))

silent-Calls :
    (a : SyncAction) (t : ActionType) (failure : Option Error)
    → is_copy t ≡ false
    → Calls a t failure []
unfolding Calls
silent-Calls a t none h = inr (h, refl)
silent-Calls a t (some e) h = inl refl

Agrees-failed :
    (now : ℕ) (r : CallbackReporter) (a : SyncAction) (t : ActionType) (e x : Error)
    (events : List Event)
    → Calls a t (some e) events
    → Agrees now r (events ++ error x ∷ [])
unfolding Calls Agrees
Agrees-failed now r a t e x events (inl h) = rw h tt
Agrees-failed now r a t e x events (inr (path, size, y, h)) = rw h tt

module _ {W : Type 0} where
  copy_file-Calls :
      (from to : Adapter W) (a : SyncAction) (w : W)
      → Calls a copy
          (copy_file from to a.path (reported_size a) w).2
          (copy_file from to a.path (reported_size a) w).1
  unfolding copy_file written Calls
  copy_file-Calls from to a w = elim (Result-cases (from.read w a.path)) [
    | inr (e, f) ↦ rw (f, copy_file) (inr (a.path, reported_size a, e, refl))
    | inl (content, f) ↦ elim (Option-cases (to.write w a.path content).1) [
      | inl g ↦ rw (f, copy_file, g, written) (inl (refl, a.path, refl))
      | inr (e, g) ↦ rw (f, copy_file, g, written) (inr (a.path, reported_size a, e, refl))
    ]
  ]

  perform-Calls :
      (from to : Adapter W) (a : SyncAction) (t : ActionType) (w : W)
      → Calls a t (perform from to a t w).2 (perform from to a t w).1
  unfolding perform
  perform-Calls from to a copy w = copy_file-Calls from to a w
  perform-Calls from to a mkdir w = silent-Calls a mkdir (to.mkdir w a.path).1 refl
  perform-Calls from to a delete w = silent-Calls a delete (to.delete w a.path).1 refl
  perform-Calls from to a skip w = silent-Calls a skip none refl
  perform-Calls from to a conflict w = silent-Calls a conflict none refl
  perform-Calls from to a (ActionType.other t) w = silent-Calls a (ActionType.other t) (some _) refl

  execute_action-Calls :
      (source target : Adapter W) (a : SyncAction) (w : W)
      → Calls a a.type (execute_action source target a w).2 (execute_action source target a w).1
  unfolding execute_action
  execute_action-Calls source target a w = by_direction a.direction
    where
      by_direction :
          (d : SyncDirection)
          → Calls a a.type
              (elim d as (λ _. W × List Event × Option Error) [
                | source_to_target ↦ perform source target a a.type w
                | target_to_source ↦ perform target source a a.type w
              ]).2
              (elim d as (λ _. W × List Event × Option Error) [
                | source_to_target ↦ perform source target a a.type w
                | target_to_source ↦ perform target source a a.type w
              ]).1
      by_direction source_to_target = perform-Calls source target a a.type w
      by_direction target_to_source = perform-Calls target source a a.type w

  -- Where the reporter starts with the figures of the loop, it counts the files and bytes that are copied
  -- as the loop of `ExecuteSync` does, whatever the actions are and where the loop ends.
  pub execute_actions-Agrees :
      (done : ℕ → Bool) (source target : Adapter W) (now : ℕ) (actions : List SyncAction) (n : ℕ)
      (w : W) (r : CallbackReporter)
      → Agrees now r
          (execute_actions done source target actions n r.files_completed r.bytes_completed w).1
  unfolding execute_actions Agrees report Calls
  execute_actions-Agrees done source target now [] n w r = tt
  execute_actions-Agrees done source target now (a ∷ actions) n w r = elim (Bool-cases (done n)) [
    | inl stopped ↦ rw (stopped, execute_actions) tt
    | inr going ↦
        let x = execute_action source target a w in
        let calls = execute_action-Calls source target a w in
        elim (Option-cases x.2) [
          | inr (e, f) ↦
              rw (going, f, execute_actions)
                (Agrees-failed now r a a.type e e x.1 (subst (λ o. Calls a a.type o x.1) f calls))
          | inl f ↦ elim (subst (λ o. Calls a a.type o x.1) f calls) [
            | inr (other, silent) ↦
                rw (going, f, other, execute_actions, silent)
                  (execute_actions-Agrees done source target now actions (suc n) x.0 r)
            | inl (copied, path, events) ↦
                let r2 = report now (report now r (start path (reported_size a))) complete in
                rw (going, f, copied, execute_actions, events)
                  (refl, refl, execute_actions-Agrees done source target now actions (suc n) x.0 r2)
          ]
        ]
  ]

pub Rising : ℕ → List ℕ → Type 0
Rising t [] = Unit
Rising t (x ∷ xs) = (t < x) × Rising x xs

pub final : ℕ → List ℕ → ℕ
final t [] = t
final t (x ∷ xs) = final x xs

ltb→lt-added : (t n : ℕ) → ltb 0 n ≡ true → t < t + n
ltb→lt-added t n h = ground arith

-- While fewer than 2 ^ 64 bytes are read, the reader reports rising numbers, and at the end the number
-- of bytes of the content.
pub read_reports-Rising :
    (t : ℕ) (chunks : List Text)
    → t + length (concat chunks) < 2 ^ 64
    → Rising t (read_reports t chunks)
      × (final t (read_reports t chunks) ≡ t + length (concat chunks))
unfolding read_reports Rising final
read_reports-Rising t [] h = (tt, omega arith)
read_reports-Rising t (chunk ∷ chunks) h =
    let all = length-append chunk (concat chunks) in
    let same : (t + length chunk) % 2 ^ 64 ≡ t + length chunk = omega (arith, all) in
    elim (Bool-cases (ltb 0 (length chunk))) [
      | inl some_bytes ↦
          let (rising, at) = read_reports-Rising (t + length chunk) chunks (omega (arith, all)) in
          rw (some_bytes, same, read_reports)
            ((ltb→lt-added t (length chunk) some_bytes, rising), at ∙ omega (arith, all))
      | inr nothing ↦
          let (rising, at) = read_reports-Rising t chunks (omega (arith, all)) in
          rw (nothing, read_reports) (rising, at ∙ ground (arith, all))
    ]
