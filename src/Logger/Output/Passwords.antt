-- ===== src/Logger/Output/Passwords.antt =====
-- internal/logger/slog_adapter.go: the messages of the loggers that `NewSlogLogger` makes.
use syncrules.Prelude.{ℕ, Text, codes, true, List, ◌≡◌, refl, ok, arith, to_lower}
use syncrules.Logger.Sanitizer.{Arg, sanitize}
use syncrules.Logger.Sanitizer.Rules.{default_rules}
use syncrules.Logger.Sanitizer.Scan.{starts_blank}
use syncrules.Logger.Sanitizer.Password.{IsValue, with_password, sanitize-password}
use syncrules.Logger.Output.{
  Config, SlogLevel, LogSystem, SlogLogger, Logger, slog, child, legacy, null, with_args,
  child_with, new_slog_logger, log_sanitized, log,
}

module _ {W : Type 0} (system : LogSystem W) (levels : ℕ → ℕ) where
  -- The loggers that `NewSlogLogger` makes, and those that `With` makes of them.
  pub data Made : Logger → Type 0 where
    opened :
        (config : Config) (w w' : W) (l : SlogLogger)
        → new_slog_logger system default_rules config w ≡ (w', ok l)
        → Made (slog l)
    derived : (l : Logger) (args : List Arg) → Made l → Made (with_args l args)

  -- It sanitizes by the default rules.
  ByDefault : Logger → Type 0
  ByDefault (slog l) = l.sanitizer ≡ default_rules
  ByDefault (child l) = l.sanitizer ≡ default_rules
  ByDefault (legacy n) = ⊥
  ByDefault null = ⊥

  new_slog_logger-rules :
      (config : Config) (w w' : W) (l : SlogLogger)
      → new_slog_logger system default_rules config w ≡ (w', ok l)
      → l.sanitizer ≡ default_rules
  unfolding new_slog_logger
  new_slog_logger-rules config w w' l h = ground arith

  with_args-ByDefault : (l : Logger) (args : List Arg) → ByDefault l → ByDefault (with_args l args)
  unfolding with_args child_with ByDefault
  with_args-ByDefault (slog l) args h = h
  with_args-ByDefault (child l) args h = h
  with_args-ByDefault (legacy n) args h = h
  with_args-ByDefault null args h = h

  Made-ByDefault : (l : Logger) → Made l → ByDefault l
  unfolding ByDefault
  Made-ByDefault _ (opened config w w' l h) = new_slog_logger-rules config w w' l h
  Made-ByDefault _ (derived l args made) = with_args-ByDefault l args (Made-ByDefault l made)

  log-ByDefault :
      (l : Logger) (level : SlogLevel) (msg msg' : Text) (args : List Arg) (w : W)
      → ByDefault l
      → sanitize default_rules msg ≡ sanitize default_rules msg'
      → log system levels l level msg args w ≡ log system levels l level msg' args w
  unfolding log log_sanitized ByDefault
  log-ByDefault (slog l) level msg msg' args w h e = rw (h, e) refl
  log-ByDefault (child l) level msg msg' args w h e = rw (h, e) refl
  log-ByDefault (legacy n) level msg msg' args w h e = absurd h
  log-ByDefault null level msg msg' args w h e = absurd h

  -- A logger that `NewSlogLogger` makes, and each that `With` makes of it, writes the same for two
  -- messages that differ only in a password: a text without blanks that follows `password=`, in letters of
  -- any case, anywhere in the message, up to a blank or the end.
  pub log-password :
      (l : Logger) (level : SlogLevel) (u word v v' rest : Text) (args : List Arg) (w : W)
      → Made l
      → to_lower word ≡ codes "password"
      → IsValue v
      → IsValue v'
      → starts_blank rest ≡ true
      → log system levels l level (with_password u word v rest) args w
        ≡ log system levels l level (with_password u word v' rest) args w
  log-password l level u word v v' rest args w made named value value' blank =
      log-ByDefault l level (with_password u word v rest) (with_password u word v' rest) args w
        (Made-ByDefault l made) (sanitize-password u word v v' rest named value value' blank)
