-- ===== src/Config/Defaults.antt =====
-- What a configuration has after `Load` and `LoadFromString` of internal/config/loader.go.
use mathlib.Core.Path.{subst}
use syncrules.Prelude.{
  ℕ, suc, Text, text_eq, nat_eq, text_iff, codes, if◌then◌else◌, Bool, true, false, none, List, [],
  ◌∷◌, ◌==◌, Result, ok, err, ◌≡◌, refl, ap, ◌∙◌, Bool-cases, arith, inl, inr, All, All-Member,
  Member-All,
}
use syncrules.Domain.{
  Error, manual, SyncRule, is_unset, strategy_is_valid, validate as validate_rule,
}
use syncrules.Config.{
  Config, LoggingConfig, LogFileConfig, DaemonLoggingConfig, validate, enabled_rules,
  get_enabled_rules,
}
use syncrules.Config.Load.{
  file_defaults, daemon_defaults, logging_defaults, apply_defaults, rule_defaults,
  string_rule_defaults, accept, load, load_from_string, text_or,
}
use syncrules.Config.Consistency.{IsConsistent, RuleIsValid, validate-IsConsistent}

-- The rule names a strategy, known or not.
abbrev pub StrategyIsSet : SyncRule → Type 0
StrategyIsSet r = is_unset r.conflict_strategy ≡ false

abbrev pub StrategyIsValid : SyncRule → Type 0
StrategyIsValid r = strategy_is_valid r.conflict_strategy ≡ true

rule_defaults-StrategyIsSet :
    (is_set : ℕ → Bool) (i : ℕ) (rules : List SyncRule)
    → All StrategyIsSet (rule_defaults is_set i rules)
unfolding rule_defaults
rule_defaults-StrategyIsSet is_set i [] = tt
rule_defaults-StrategyIsSet is_set i (r ∷ rules) =
    (ground arith, rule_defaults-StrategyIsSet is_set (suc i) rules)

string_rule_defaults-StrategyIsSet :
    (rules : List SyncRule) → All StrategyIsSet (string_rule_defaults rules)
unfolding string_rule_defaults
string_rule_defaults-StrategyIsSet [] = tt
string_rule_defaults-StrategyIsSet (r ∷ rules) =
    (ground arith, string_rule_defaults-StrategyIsSet rules)

-- A rule with a strategy of the text, or `manual` where it has none, enabled, and otherwise as in the text.
abbrev pub IsEnabled : SyncRule → SyncRule → Type 0
IsEnabled parsed r = r ≡ record parsed {
  conflict_strategy =
      if is_unset parsed.conflict_strategy then manual else parsed.conflict_strategy;
  enabled = true;
}

abbrev pub AllEnabled : List SyncRule → List SyncRule → Type 0
AllEnabled [] [] = Unit
AllEnabled (parsed ∷ rules) (r ∷ rs) = IsEnabled parsed r × AllEnabled rules rs
AllEnabled _ _ = ⊥

string_rule_defaults-AllEnabled :
    (rules : List SyncRule) → AllEnabled rules (string_rule_defaults rules)
unfolding string_rule_defaults
string_rule_defaults-AllEnabled [] = tt
string_rule_defaults-AllEnabled (r ∷ rules) = (ground arith, string_rule_defaults-AllEnabled rules)

enabled_rules-AllEnabled :
    (parsed rules : List SyncRule) → AllEnabled parsed rules → enabled_rules rules ≡ rules
unfolding enabled_rules
enabled_rules-AllEnabled [] [] h = refl
enabled_rules-AllEnabled (p ∷ parsed) (r ∷ rules) (e, h) =
    let on : r.enabled ≡ true = ap (λ (x : SyncRule). x.enabled) e in
    ground (arith, enabled_rules-AllEnabled parsed rules h)
enabled_rules-AllEnabled [] (_ ∷ _) h = absurd h
enabled_rules-AllEnabled (_ ∷ _) [] h = absurd h

valid_of_set : (r : SyncRule) → validate_rule r ≡ none → StrategyIsSet r → StrategyIsValid r
unfolding validate_rule
valid_of_set r v u = ground (
  arith,
  text_iff r.name [],
  text_iff r.source_endpoint [],
  text_iff r.target_endpoint [],
  text_iff r.source_endpoint r.target_endpoint,
)

module _ (duration_ok : Text → Bool) where
  accept_lem :
      (c c' : Config) → accept duration_ok c ≡ ok c' → (validate duration_ok c ≡ none) × (c ≡ c')
  unfolding accept
  accept_lem c c' h = ground arith

  accepted-valid :
      (c : Config)
      → validate duration_ok c ≡ none
      → All StrategyIsSet c.rules
      → IsConsistent duration_ok c × All StrategyIsValid c.rules
  accepted-valid c v u =
      let good = (validate-IsConsistent duration_ok c).0 v in
      (
        good,
        All-Member StrategyIsValid c.rules (λ r m.
            valid_of_set r (Member-All (RuleIsValid c.endpoints) c.rules r good.4 m).3
              (Member-All StrategyIsSet c.rules r u m)),
      )

  -- A configuration that Load returns is consistent, and every rule of it has a known strategy.
  pub load-valid :
      (parsed : Result Error (Config × (ℕ → Bool))) (c : Config)
      → load duration_ok parsed ≡ ok c
      → IsConsistent duration_ok c × All StrategyIsValid c.rules
  unfolding load apply_defaults
  load-valid (err e) c h = ground arith
  load-valid (ok (raw, is_set)) c h =
      let (v, e) =
        accept_lem (apply_defaults (record raw { rules = rule_defaults is_set 0 raw.rules })) c h in
      subst (λ k. IsConsistent duration_ok k × All StrategyIsValid k.rules) e
        (accepted-valid (apply_defaults (record raw { rules = rule_defaults is_set 0 raw.rules })) v
          (rule_defaults-StrategyIsSet is_set 0 raw.rules))

  -- A configuration that LoadFromString returns has the rules of the text, one for one and in their
  -- order, each enabled, whatever the text says of that, and with the strategy `manual` where it has none;
  -- GetEnabledRules gives all of them.
  pub load_from_string-AllEnabled :
      (raw c : Config)
      → load_from_string duration_ok (ok raw) ≡ ok c
      → AllEnabled raw.rules c.rules × (get_enabled_rules c ≡ c.rules)
  unfolding load_from_string apply_defaults get_enabled_rules
  load_from_string-AllEnabled raw c h =
      let (_, e) =
        accept_lem (apply_defaults (record raw { rules = string_rule_defaults raw.rules })) c h in
      let all =
        subst (λ (k : Config). AllEnabled raw.rules k.rules) e
          (string_rule_defaults-AllEnabled raw.rules) in
      (all, enabled_rules-AllEnabled raw.rules c.rules all)

text_or_twice :
    (value default : Text) → text_or (text_or value default) default ≡ text_or value default
text_or_twice value default = elim (Bool-cases (value == [])) [
  | inl e ↦ rw e (elim (Bool-cases (default == [])) [ inl k ↦ rw k refl | inr k ↦ rw k refl ])
  | inr e ↦ rw (e, e) refl
]

file_defaults_twice : (f : LogFileConfig) → file_defaults (file_defaults f) ≡ file_defaults f
unfolding file_defaults
file_defaults_twice f = ground arith

daemon_defaults_twice :
    (level : Text) (d : DaemonLoggingConfig)
    → daemon_defaults level (daemon_defaults level d) ≡ daemon_defaults level d
unfolding daemon_defaults
daemon_defaults_twice level d = ground arith

logging_defaults_twice :
    (l : LoggingConfig) → logging_defaults (logging_defaults l) ≡ logging_defaults l
unfolding logging_defaults
logging_defaults_twice l =
    let level = text_or l.level (codes "info") in
    let same_level = text_or_twice l.level (codes "info") in
    let same_daemon =
      ap (λ k. daemon_defaults k (daemon_defaults level l.daemon)) same_level
      ∙ daemon_defaults_twice level l.daemon in
    λ i. record {
      level = same_level i;
      format = text_or_twice l.format (codes "text") i;
      file = file_defaults_twice l.file i;
      daemon = same_daemon i;
    }

-- Applying the defaults a second time changes nothing.
pub apply_defaults_twice : (c : Config) → apply_defaults (apply_defaults c) ≡ apply_defaults c
unfolding apply_defaults
apply_defaults_twice c = λ i. record c { logging = logging_defaults_twice c.logging i }
