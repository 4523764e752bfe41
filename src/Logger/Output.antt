-- ===== src/Logger/Output.antt =====
-- internal/logger/slog_adapter.go, legacy.go and logger.go, with the configuration of types.go. Files and
-- streams are a parameter; `slog` is modelled by the entries that its handler writes.
pub mod Masked
pub mod Passwords
pub mod Owned
use syncrules.Prelude.{
  ℕ, suc, Text, text_eq, nat_eq, codes, Bool, true, false, not, Option, none, some, List, [], ◌∷◌,
  ◌++◌, ◌==◌, ◌&&◌, if◌then◌else◌, leb, Result, ok, err,
}
use syncrules.Paths.{dir}
use syncrules.Domain.{Error, wrapped, other_error}
use syncrules.Logger.{level_debug, level_info, level_warn, level_error, format_json}
use syncrules.Logger.Sanitizer.{Arg, SanitizeRule, sanitize, sanitize_args}

-- `Output`, an int; the three constants.
abbrev output_stdout : ℕ
output_stdout = 0

abbrev output_stderr : ℕ
output_stderr = 1

abbrev output_file : ℕ
output_file = 2

pub record FileConfig : Type 0 where
  pub enabled : Bool
  pub path : Text
  pub max_size_mb : ℕ
  pub max_age_days : ℕ
  pub max_backups : ℕ
  pub compress : Bool

-- The streams of the process.
pub data Stream : Type 0 where
  stdout stderr stdin : Stream

-- A stream, a writer of the caller with whether it can be closed, or a rotating file.
pub data Writer : Type 0 where
  standard : Stream → Writer
  custom : ℕ → Bool → Writer
  rotating : FileConfig → Writer

pub record OutputConfig : Type 0 where
  pub type : ℕ
  pub writer : Option Writer

pub record DaemonConfig : Type 0 where
  pub enabled : Bool
  pub level : ℕ
  pub file_path : Text

pub record Config : Type 0 where
  pub level : ℕ
  pub format : ℕ
  pub outputs : List OutputConfig
  pub file : FileConfig
  pub daemon : DaemonConfig

-- `slog.Level`, by the four that are used.
pub data SlogLevel : Type 0 where
  slog_debug slog_info slog_warn slog_error : SlogLevel

abbrev severity : SlogLevel → ℕ
severity slog_debug = 0
severity slog_info = 1
severity slog_warn = 2
severity slog_error = 3

-- `convertLevel`
unfoldable pub convert_level : ℕ → SlogLevel
convert_level l =
    if l == level_debug
    then slog_debug
    else if l == level_info
    then slog_info
    else if l == level_warn
    then slog_warn
    else if l == level_error
    then slog_error
    else slog_info

-- What is written: a record of a handler, with the arguments of each `With`, or a printed line.
pub data Entry : Type 0 where
  logged : Bool → SlogLevel → Text → List (List Arg) → List Arg → Entry
  printed : Text → Text → List Arg → Entry

pub record LogSystem (W : Type 0) : Type 0 where
  pub mkdir_all : W → Text → W × Option Error
  pub write : W → Writer → Entry → W × Option Error
  pub close : W → Writer → W × Option Error

-- The writers of the output, and those to be closed.
pub record Sinks : Type 0 where
  pub writers : List Writer
  pub closeable : List Writer

-- Whether a writer is an `io.WriteCloser`.
abbrev pub can_close : Writer → Bool
can_close (standard _) = true
can_close (custom _ closes) = closes
can_close (rotating _) = true

abbrev pub is_standard : Writer → Bool
is_standard (standard _) = true
is_standard (custom _ _) = false
is_standard (rotating _) = false

pub add_custom : Writer → Sinks → Sinks
add_custom w s = record {
  writers = s.writers ++ w ∷ [];
  closeable = if can_close w && not (is_standard w) then s.closeable ++ w ∷ [] else s.closeable;
}

pub add_stream : Stream → Option Writer → Sinks → Sinks
unfolding add_custom
add_stream stream (some w) s = add_custom w s
add_stream stream none s = record s { writers = s.writers ++ standard stream ∷ [] }

-- `slog.Logger`: the least level, the format, the writers of `io.MultiWriter`, and the arguments of `With`.
pub record Slog : Type 0 where
  pub level : SlogLevel
  pub json : Bool
  pub outputs : List Writer
  pub attributes : List (List Arg)

pub record SlogLogger : Type 0 where
  pub logger : Slog
  pub sanitizer : List SanitizeRule
  pub writers : List Writer

pub record ChildLogger : Type 0 where
  pub logger : Slog
  pub sanitizer : List SanitizeRule

-- The loggers of the package; `LegacyLogger` is a pointer, here a number.
pub data Logger : Type 0 where
  slog : SlogLogger → Logger
  child : ChildLogger → Logger
  legacy : ℕ → Logger
  null : Logger

-- `With` of a child, which owns no writers.
child_with : Slog → List SanitizeRule → List Arg → Logger
unfolding sanitize_args
child_with l rules args = child (record {
  logger = record l { attributes = l.attributes ++ sanitize_args args ∷ [] };
  sanitizer = rules;
})

-- `With`
unfoldable pub with_args : Logger → List Arg → Logger
unfolding child_with
with_args (slog l) args = child_with l.logger l.sanitizer args
with_args (child l) args = child_with l.logger l.sanitizer args
with_args (legacy n) args = legacy n
with_args null args = null

module _ {W : Type 0} (system : LogSystem W) where
  -- `createFileWriter`
  pub create_file_writer : FileConfig → W → W × Result Error Writer
  unfolding dir
  create_file_writer config w =
      if config.path == []
      then (w, err (other_error (codes "log file path cannot be empty")))
      else (let (w1, failed) = system.mkdir_all w (dir config.path) in
          elim failed [
            | some e ↦ (w1, err (wrapped (codes "failed to create log directory") e))
            | none ↦ (w1, ok (rotating config))
          ])

  add_file : FileConfig → Sinks → W → W × Result Error Sinks
  unfolding create_file_writer
  add_file config s w =
      let (w1, created) = create_file_writer config w in
      elim created [
        | err e ↦ (w1, err (wrapped (codes "failed to create file writer") e))
        | ok x ↦
            (w1, ok (record { writers = s.writers ++ x ∷ []; closeable = s.closeable ++ x ∷ [] }))
      ]

  pub add_output : FileConfig → OutputConfig → Sinks → W → W × Result Error Sinks
  unfolding add_stream add_file
  add_output config output s w =
      if output.type == output_stdout
      then (w, ok (add_stream stdout output.writer s))
      else if output.type == output_stderr
      then (w, ok (add_stream stderr output.writer s))
      else if output.type == output_file && config.enabled
      then add_file config s w
      else (w, ok s)

  pub add_outputs : FileConfig → List OutputConfig → Sinks → W → W × Result Error Sinks
  unfolding add_output
  add_outputs config [] s w = (w, ok s)
  add_outputs config (output ∷ outputs) s w =
      let (w1, r) = add_output config output s w in
      elim r [ err e ↦ (w1, err e) | ok s1 ↦ add_outputs config outputs s1 w1 ]

  abbrev pub or_stdout : List Writer → List Writer
  or_stdout [] = standard stdout ∷ []
  or_stdout (x ∷ xs) = x ∷ xs

  -- `NewSlogLogger`, with the rules of `NewSanitizer`.
  unfoldable pub new_slog_logger : List SanitizeRule → Config → W → W × Result Error SlogLogger
  unfolding add_outputs convert_level
  new_slog_logger rules config w =
      let (w1, r) =
        add_outputs config.file config.outputs (record { writers = []; closeable = [] }) w in
      elim r [
        | err e ↦ (w1, err e)
        | ok s ↦ (
          w1,
          ok (record {
            logger = record {
              level = convert_level config.level;
              json = config.format == format_json;
              outputs = or_stdout s.writers;
              attributes = [];
            };
            sanitizer = rules;
            writers = s.closeable;
          }),
        )
      ]

  -- `Write` of `io.MultiWriter`, which stops at the first error.
  pub multi_write : List Writer → Entry → W → W
  multi_write [] entry w = w
  multi_write (x ∷ xs) entry w =
      let (w1, failed) = system.write w x entry in
      let rest = multi_write xs entry w1 in elim failed [ some _ ↦ w1 | none ↦ rest ]

  -- `Debug`, `Info`, `Warn` and `Error` of a `slog.Logger` after the sanitizer.
  pub log_sanitized : Slog → List SanitizeRule → SlogLevel → Text → List Arg → W → W
  unfolding multi_write sanitize sanitize_args
  log_sanitized l rules level msg args w =
      if leb (severity l.level) (severity level)
      then multi_write l.outputs
          (logged l.json level (sanitize rules msg) l.attributes (sanitize_args args)) w
      else w

  -- The same of a `LegacyLogger` with the given level.
  pub log_legacy : ℕ → SlogLevel → Text → List Arg → W → W
  log_legacy least slog_debug msg args w =
      if leb least level_debug
      then (system.write w (standard stdout) (printed (codes "[DEBUG]") msg args)).0
      else w
  log_legacy least slog_info msg args w =
      if leb least level_info
      then (system.write w (standard stdout) (printed (codes "[INFO]") msg args)).0
      else w
  log_legacy least slog_warn msg args w =
      if leb least level_warn
      then (system.write w (standard stderr) (printed (codes "[WARN]") msg args)).0
      else w
  log_legacy least slog_error msg args w =
      if leb least level_error
      then (system.write w (standard stderr) (printed (codes "[ERROR]") msg args)).0
      else w

  -- A call of the logger at a level; `levels` has the level of each `LegacyLogger`.
  unfoldable pub log : (ℕ → ℕ) → Logger → SlogLevel → Text → List Arg → W → W
  unfolding log_sanitized log_legacy
  log levels (slog l) level msg args w = log_sanitized l.logger l.sanitizer level msg args w
  log levels (child l) level msg args w = log_sanitized l.logger l.sanitizer level msg args w
  log levels (legacy n) level msg args w = log_legacy (levels n) level msg args w
  log levels null level msg args w = w

  abbrev latest : Option Error → Option Error → Option Error
  latest (some e) last = some e
  latest none last = last

  -- The loop of `Shutdown`: an error does not stop it.
  pub close_all : List Writer → W → Option Error → W × Option Error
  close_all [] w last = (w, last)
  close_all (x ∷ xs) w last =
      let (w1, failed) = system.close w x in close_all xs w1 (latest failed last)

  -- `Shutdown` of a logger.
  unfoldable pub shutdown_logger : Logger → W → W × Option Error
  unfolding close_all
  shutdown_logger (slog l) w = close_all l.writers w none
  shutdown_logger (child l) w = (w, none)
  shutdown_logger (legacy n) w = (w, none)
  shutdown_logger null w = (w, none)
