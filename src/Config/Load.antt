-- ===== src/Config/Load.antt =====
-- `ApplyDefaults` of internal/config/config.go, and `Load` and `LoadFromString` of
-- internal/config/loader.go after viper has parsed the file: `is_set i` says whether the text sets `enabled`
-- of the rule number `i`.
use syncrules.Prelude.{
  ℕ, suc, Text, text_eq, nat_eq, codes, Bool, true, none, some, List, [], ◌∷◌, ◌==◌, if◌then◌else◌,
  Result, ok, err,
}
use syncrules.Domain.{Error, manual, SyncRule, is_unset}
use syncrules.Config.{Config, LoggingConfig, LogFileConfig, DaemonLoggingConfig, validate}

-- `if value == "" { value = default }`
abbrev pub text_or : Text → Text → Text
text_or value default = if value == [] then default else value

abbrev pub number_or : ℕ → ℕ → ℕ
number_or value default = if value == 0 then default else value

unfoldable pub file_defaults : LogFileConfig → LogFileConfig
file_defaults f =
    if f.enabled
    then record f {
      max_size_mb = number_or f.max_size_mb 100;
      max_age_days = number_or f.max_age_days 30;
      max_backups = number_or f.max_backups 5;
    }
    else f

unfoldable pub daemon_defaults : Text → DaemonLoggingConfig → DaemonLoggingConfig
daemon_defaults level d = if d.enabled then record d { level = text_or d.level level } else d

unfoldable pub logging_defaults : LoggingConfig → LoggingConfig
unfolding file_defaults daemon_defaults
logging_defaults l = record {
  level = text_or l.level (codes "info");
  format = text_or l.format (codes "text");
  file = file_defaults l.file;
  daemon = daemon_defaults (text_or l.level (codes "info")) l.daemon;
}

unfoldable pub apply_defaults : Config → Config
unfolding logging_defaults
apply_defaults c = record c { logging = logging_defaults c.logging }

abbrev pub strategy_or_manual : SyncRule → SyncRule
strategy_or_manual r =
    if is_unset r.conflict_strategy then record r { conflict_strategy = manual } else r

-- The loop of `Load` over the rules, from the index `i`.
unfoldable pub rule_defaults : (ℕ → Bool) → ℕ → List SyncRule → List SyncRule
rule_defaults is_set i [] = []
rule_defaults is_set i (r ∷ rules) =
    (if is_set i then strategy_or_manual r else record (strategy_or_manual r) { enabled = true })
    ∷ rule_defaults is_set (suc i) rules

-- The loop of `LoadFromString`.
unfoldable pub string_rule_defaults : List SyncRule → List SyncRule
string_rule_defaults [] = []
string_rule_defaults (r ∷ rules) =
    record (strategy_or_manual r) { enabled = true } ∷ string_rule_defaults rules

module _ (duration_ok : Text → Bool) where
  unfoldable pub accept : Config → Result Error Config
  unfolding validate
  accept c = elim (validate duration_ok c) [ some e ↦ err e | none ↦ ok c ]

  unfoldable pub load : Result Error (Config × (ℕ → Bool)) → Result Error Config
  unfolding accept apply_defaults rule_defaults
  load (err e) = err e
  load (ok (c, is_set)) =
      accept (apply_defaults (record c { rules = rule_defaults is_set 0 c.rules }))

  unfoldable pub load_from_string : Result Error Config → Result Error Config
  unfolding accept apply_defaults string_rule_defaults
  load_from_string (err e) = err e
  load_from_string (ok c) =
      accept (apply_defaults (record c { rules = string_rule_defaults c.rules }))
