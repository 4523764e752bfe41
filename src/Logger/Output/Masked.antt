-- ===== src/Logger/Output/Masked.antt =====
-- internal/logger/slog_adapter.go: what a logger writes depends on no secret.
use syncrules.Prelude.{ℕ, Text, List, ◌≡◌, ◌≢◌, refl, ap, ◌∙◌, arith}
use syncrules.Logger.Sanitizer.{Arg}
use syncrules.Logger.Sanitizer.Hides.{SameButSecrets, sanitize_args-SameButSecrets}
use syncrules.Logger.Output.{
  SlogLevel, LogSystem, Logger, slog, child, legacy, null, with_args, child_with, log_sanitized,
  log,
}

-- The logger is no `LegacyLogger`.
abbrev pub IsSanitizing : Logger → Type 0
IsSanitizing l = (n : ℕ) → l ≢ legacy n

with_args-SameButSecrets :
    (l : Logger) (args args' : List Arg)
    → SameButSecrets args args'
    → with_args l args ≡ with_args l args'
unfolding with_args child_with
with_args-SameButSecrets (slog l) args args' h = rw (sanitize_args-SameButSecrets args args' h) refl
with_args-SameButSecrets (child l) args args' h =
    rw (sanitize_args-SameButSecrets args args' h) refl
with_args-SameButSecrets (legacy n) args args' h = refl
with_args-SameButSecrets null args args' h = refl

module _ {W : Type 0} (system : LogSystem W) (levels : ℕ → ℕ) where
  log-SameButSecrets :
      (l : Logger) (level : SlogLevel) (msg : Text) (args args' : List Arg) (w : W)
      → IsSanitizing l
      → SameButSecrets args args'
      → log system levels l level msg args w ≡ log system levels l level msg args' w
  unfolding log log_sanitized
  log-SameButSecrets (slog l) level msg args args' w k h =
      rw (sanitize_args-SameButSecrets args args' h) refl
  log-SameButSecrets (child l) level msg args args' w k h =
      rw (sanitize_args-SameButSecrets args args' h) refl
  log-SameButSecrets (legacy n) level msg args args' w k h = absurd (k n refl)
  log-SameButSecrets null level msg args args' w k h = refl

  with_args-IsSanitizing :
      (l : Logger) (args : List Arg) → IsSanitizing l → IsSanitizing (with_args l args)
  unfolding with_args child_with
  with_args-IsSanitizing (slog l) args k n e = ground arith
  with_args-IsSanitizing (child l) args k n e = ground arith
  with_args-IsSanitizing (legacy m) args k n e = k m refl
  with_args-IsSanitizing null args k n e = ground arith

  -- A logger that is no LegacyLogger, and the loggers that With makes of it, write the same for two
  -- calls that differ only in secrets which look alike, and so do not tell them apart in any output.
  pub log-with_args-SameButSecrets :
      (l : Logger) (level : SlogLevel) (msg : Text) (bound bound' args args' : List Arg) (w : W)
      → IsSanitizing l
      → SameButSecrets bound bound'
      → SameButSecrets args args'
      → log system levels (with_args l bound) level msg args w
        ≡ log system levels (with_args l bound') level msg args' w
  log-with_args-SameButSecrets l level msg bound bound' args args' w k g h =
      log-SameButSecrets (with_args l bound) level msg args args' w
        (with_args-IsSanitizing l bound k) h
      ∙ ap (λ l'. log system levels l' level msg args' w)
          (with_args-SameButSecrets l bound bound' g)
