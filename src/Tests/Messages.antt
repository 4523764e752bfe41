-- ===== src/Tests/Messages.antt =====
-- Messages of a log under the default rules of internal/logger/sanitizer.go.
use syncrules.Prelude.{codes, true, false, none, List, [], ◌∷◌, ◌≡◌, refl, arith, to_lower}
use syncrules.Logger.Sanitizer.{Arg, sanitize}
use syncrules.Logger.Sanitizer.Patterns.{
  cut_prefix, cut_any, match_run, match, replace_from, replace_all_string,
}
use syncrules.Logger.Sanitizer.Rules.{password_rule, default_rules}
use syncrules.Logger.Sanitizer.Password.{with_password}
use syncrules.Logger.Output.{
  Config, Entry, Stream, Writer, standard, SlogLevel, LogSystem, SlogLogger, slog, with_args, log,
  new_slog_logger, convert_level,
}
use syncrules.Logger.Output.Passwords.{Made, log-password}

secrets-default_rules :
    sanitize default_rules
      (codes "login PassWord=hunter2 bob.smith@x.org /home/bob/x C:\\Users\\bob\\y")
    ≡ codes "login password=*** bob***@x.org /home/***/x ***:\\Users\\***\\y"
unfolding password_rule replace_all_string replace_from match match_run cut_any cut_prefix sanitize
secrets-default_rules = refl

-- The rule for a home takes the rest of the message as well, up to the next slash.
home-default_rules :
    sanitize default_rules (codes "cannot open /home/bob: permission denied")
    ≡ codes "cannot open /home/***"
unfolding password_rule replace_all_string replace_from match match_run cut_any cut_prefix sanitize
home-default_rules = refl

paths-default_rules :
    sanitize default_rules
      (codes "Bearer   abc.def api-KEY=12 \\\\srv\\share\\Users\\joe\\z TOKEN=a")
    ≡ codes "bearer *** api_key=*** \\\\***\\***\\Users\\***\\z token=***"
unfolding password_rule replace_all_string replace_from match match_run cut_any cut_prefix sanitize
paths-default_rules = refl

abbrev terminal : LogSystem (List (Writer × Entry))
terminal = record {
  mkdir_all = λ w p. (w, none);
  write = λ w x e. ((x, e) ∷ w, none);
  close = λ w x. (w, none);
}

abbrev settings : Config
settings = record {
  level = 0;
  format = 1;
  outputs = record { type = 0; writer = none } ∷ [];
  file = record {
    enabled = false;
    path = [];
    max_size_mb = 0;
    max_age_days = 0;
    max_backups = 0;
    compress = false;
  };
  daemon = record { enabled = false; level = 0; file_path = [] };
}

abbrev made : SlogLogger
made = record {
  logger = record {
    level = SlogLevel.slog_debug;
    json = true;
    outputs = standard Stream.stdout ∷ [];
    attributes = [];
  };
  sanitizer = default_rules;
  writers = [];
}

made-Made : Made terminal (λ n. 0) (with_args (slog made) (Arg.text (codes "rule") ∷ []))
unfolding new_slog_logger convert_level
made-Made =
    Made.derived (slog made) (Arg.text (codes "rule") ∷ []) (Made.opened settings [] [] made refl)

named-password : to_lower (codes "PassWord") ≡ codes "password"
unfolding to_lower
named-password = refl

log-password_example :
    log terminal
      (λ n. 0)
      (with_args (slog made) (Arg.text (codes "rule") ∷ []))
      SlogLevel.slog_info
      (with_password (codes "login with ") (codes "PassWord") (codes "hunter2") (codes " failed"))
      []
      []
    ≡ log terminal
        (λ n. 0)
        (with_args (slog made) (Arg.text (codes "rule") ∷ []))
        SlogLevel.slog_info
        (with_password (codes "login with ") (codes "PassWord") (codes "secret") (codes " failed"))
        []
        []
log-password_example =
    log-password terminal (λ n. 0) (with_args (slog made) (Arg.text (codes "rule") ∷ []))
      SlogLevel.slog_info (codes "login with ") (codes "PassWord") (codes "hunter2")
      (codes "secret") (codes " failed") [] [] made-Made named-password (refl, omega arith)
      (refl, omega arith) refl
