-- ===== src/Logger/Global.antt =====
-- internal/logger/logger.go: the logger of the package, and the calls that replace it. A `LegacyLogger` is
-- an object of its own; its level stands in a table.
use syncrules.Prelude.{
  ℕ, suc, nat_eq, codes, Bool, true, false, Option, none, some, List, [], ◌∷◌, ◌==◌, if◌then◌else◌,
  ok, err, ◌≡◌, ◌≢◌, inl, inr, arith, Result-cases,
}
use syncrules.Domain.{Error, wrapped, other_error}
use syncrules.Logger.{level_info}
use syncrules.Logger.Sanitizer.{SanitizeRule}
use syncrules.Logger.Output.{
  Config, LogSystem, Logger, slog, child, legacy, null, new_slog_logger, shutdown_logger,
}

pub record Global (W : Type 0) : Type 0 where
  pub default_logger : Option Logger
  pub initialized : Bool
  pub levels : ℕ → ℕ
  pub next : ℕ
  pub world : W

abbrev set_at : ℕ → ℕ → (ℕ → ℕ) → ℕ → ℕ
set_at n level levels m = if m == n then level else levels m

-- A call of the package; `init` has what the environment says of the legacy logger.
pub data Call : Type 0 where
  init : Bool → Config → Call
  shutdown : Call
  set_level : ℕ → Call

-- `Get`; a logger that is nil stands for itself.
unfoldable pub get : {W : Type 0} → Global W → Option Logger
get g = if g.initialized then g.default_logger else some null

module _ {W : Type 0} (system : LogSystem W) (rules : List SanitizeRule) where
  -- `Init`
  unfoldable pub init_logger : Bool → Config → Global W → Global W × Option Error
  init_logger use_legacy config g =
      let (w, created) = new_slog_logger system rules config g.world in
      if g.initialized
      then (g, some (other_error (codes "logger already initialized")))
      else if use_legacy
      then (
        record {
          default_logger = some (legacy g.next);
          initialized = true;
          levels = set_at g.next level_info g.levels;
          next = suc g.next;
          world = g.world;
        },
        none,
      )
      else elim created [
        | err e ↦ (record g { world = w }, some (wrapped (codes "failed to create slog logger") e))
        | ok l ↦ (record g { default_logger = some (slog l); initialized = true; world = w }, none)
      ]

  abbrev pub closing : Option Logger → W → W × Option Error
  closing none w = (w, none)
  closing (some l) w = shutdown_logger system l w

  -- `Shutdown`
  unfoldable pub shutdown_global : Global W → Global W × Option Error
  shutdown_global g =
      let (w, failed) = closing g.default_logger g.world in
      if g.initialized then (record g { initialized = false; world = w }, failed) else (g, none)

  -- `SetLevel`, of the last logger also after its `Shutdown`.
  unfoldable pub set_global_level : ℕ → Global W → Global W
  set_global_level level g = elim g.default_logger [
    | none ↦ g
    | some l ↦ elim l [
      | slog _ ↦ g
      | child _ ↦ g
      | legacy n ↦ record g { levels = set_at n level g.levels }
      | null ↦ g
    ]
  ]

  unfoldable pub call : Call → Global W → Global W × Option Error
  unfolding init_logger shutdown_global set_global_level
  call (init use_legacy config) g = init_logger use_legacy config g
  call shutdown g = shutdown_global g
  call (set_level level) g = (set_global_level level g, none)

  unfoldable pub calls : List Call → Global W → Global W
  unfolding call
  calls [] g = g
  calls (c ∷ cs) g = calls cs (call c g).0

  -- The logger is there when the flag is set.
  abbrev pub IsReady : Global W → Type 0
  IsReady g = g.initialized ≡ true → g.default_logger ≢ none

  init_logger-IsReady :
      (use_legacy : Bool) (config : Config) (g : Global W)
      → IsReady g
      → IsReady (init_logger use_legacy config g).0
  unfolding init_logger
  init_logger-IsReady use_legacy config g h =
      elim (Result-cases (new_slog_logger system rules config g.world).1) [
        | inl (l, k) ↦ ground arith
        | inr (x, k) ↦ ground arith
      ]

  call-IsReady : (c : Call) (g : Global W) → IsReady g → IsReady (call c g).0
  unfolding call shutdown_global set_global_level
  call-IsReady (init use_legacy config) g h = init_logger-IsReady use_legacy config g h
  call-IsReady shutdown g h = ground arith
  call-IsReady (set_level level) g h = ground arith

  -- After any calls of Init, Shutdown and SetLevel from the start of the program, Get gives a logger.
  pub get-calls : (cs : List Call) (g : Global W) → IsReady g → get (calls cs g) ≢ none
  unfolding calls get
  get-calls [] g h = ground arith
  get-calls (c ∷ cs) g h = get-calls cs (call c g).0 (call-IsReady c g h)
