-- ===== src/Tests/Logs.antt =====
-- A logger that writes to a stream and to a writer of the caller, and two calls that differ in a secret.
use syncrules.Prelude.{codes, true, false, none, some, List, [], ◌∷◌, ok, ◌≡◌, refl, arith}
use syncrules.Logger.Output.{
  Entry, Stream, Writer, standard, custom, SlogLevel, LogSystem, SlogLogger, slog, with_args, log,
  new_slog_logger, convert_level,
}
use syncrules.Logger.Output.Masked.{IsSanitizing, log-with_args-SameButSecrets}
use syncrules.Tests.Tools.{first_call, second_call, alike_calls}

abbrev Lines : Type 0
Lines = List (Writer × Entry)

abbrev screen : LogSystem Lines
screen = record {
  mkdir_all = λ w p. (w, none);
  write = λ w x e. ((x, e) ∷ w, none);
  close = λ w x. (w, none);
}

abbrev opened : SlogLogger
opened = record {
  logger = record {
    level = SlogLevel.slog_warn;
    json = true;
    outputs = standard Stream.stdout ∷ custom 3 true ∷ [];
    attributes = [];
  };
  sanitizer = [];
  writers = custom 3 true ∷ [];
}

opened-new :
    (new_slog_logger screen []
      (record {
        level = 2;
        format = 1;
        outputs =
            record { type = 0; writer = none }
            ∷ record { type = 1; writer = some (custom 3 true) }
            ∷ record { type = 2; writer = none }
            ∷ [];
        file = record {
          enabled = false;
          path = [];
          max_size_mb = 0;
          max_age_days = 0;
          max_backups = 0;
          compress = false;
        };
        daemon = record { enabled = false; level = 0; file_path = [] };
      })
      []).1
    ≡ ok opened
unfolding new_slog_logger convert_level
opened-new = refl

opened-IsSanitizing : IsSanitizing (slog opened)
opened-IsSanitizing n e = ground arith

log-with_args-SameButSecrets_example :
    log screen
      (λ n. 0)
      (with_args (slog opened) first_call)
      SlogLevel.slog_error
      (codes "down")
      first_call
      []
    ≡ log screen
        (λ n. 0)
        (with_args (slog opened) second_call)
        SlogLevel.slog_error
        (codes "down")
        second_call
        []
log-with_args-SameButSecrets_example =
    log-with_args-SameButSecrets screen (λ n. 0) (slog opened) SlogLevel.slog_error (codes "down")
      first_call second_call first_call second_call [] opened-IsSanitizing alike_calls alike_calls
