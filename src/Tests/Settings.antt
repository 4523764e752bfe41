-- ===== src/Tests/Settings.antt =====
-- Runs and instances of the configuration.
use syncrules.Prelude.{
  Text, codes, text_beq, Bool, true, false, none, [], ◌∷◌, ok, ◌≡◌, ◌↔◌, inl, refl,
}
use syncrules.Prelude.Dict.{insert}
use syncrules.Domain.{
  Transport, local, Endpoint, transport_is_valid, mode_is_valid, strategy_is_valid,
  validate as validate_rule,
}
use syncrules.Config.{Config, validate, validate_loop, get_rule, get_enabled_rules}
use syncrules.Config.Load.{
  apply_defaults, rule_defaults, string_rule_defaults, accept, load, load_from_string,
}
use syncrules.Config.Defaults.{AllEnabled, load_from_string-AllEnabled}
use syncrules.Config.Consistency.{IsConsistent, validate-IsConsistent}
use syncrules.Config.Lookups.{Opens, validate-Opens}
use syncrules.Tests.Samples.{rule}

abbrev pub disk_transport : Transport
disk_transport = record { name = codes "disk"; type = local; credentials = []; config = [] }

abbrev here : Endpoint
here = record { name = codes "here"; transport = codes "disk"; root = codes "/here" }

abbrev there : Endpoint
there = record { name = codes "there"; transport = codes "disk"; root = codes "/there" }

abbrev pub sample_config : Config
sample_config = record {
  transports = disk_transport ∷ [];
  endpoints = here ∷ there ∷ [];
  rules = rule ∷ [];
  settings = record {
    lock_path = [];
    default_conflict = [];
    checksum_algorithm = [];
    verbose = false;
    dry_run = false;
  };
  scheduler = record { enabled = true; default_interval = codes "5m" };
  logging = record {
    level = [];
    format = [];
    file = record {
      enabled = false;
      path = [];
      max_size_mb = 0;
      max_age_days = 0;
      max_backups = 0;
      compress = false;
    };
    daemon = record { enabled = false; level = []; file_path = [] };
  };
}

abbrev five_minutes : Text → Bool
five_minutes = text_beq (codes "5m")

sample_config-accepted : validate five_minutes sample_config ≡ none
unfolding validate validate_loop text_beq transport_is_valid insert validate_rule mode_is_valid
    strategy_is_valid
sample_config-accepted = refl

validate-IsConsistent_example :
    (validate five_minutes sample_config ≡ none) ↔ IsConsistent five_minutes sample_config
validate-IsConsistent_example = validate-IsConsistent five_minutes sample_config

validate-Opens_example :
    (get_rule sample_config rule.name ≡ ok rule)
    × Opens sample_config rule.source_endpoint
    × Opens sample_config rule.target_endpoint
validate-Opens_example =
    validate-Opens five_minutes sample_config rule sample_config-accepted (inl refl)

abbrev loaded : Config
loaded =
    apply_defaults
      (record sample_config { rules = rule_defaults (λ i. false) 0 sample_config.rules })

loaded-ok : load five_minutes (ok (sample_config, λ i. false)) ≡ ok loaded
unfolding validate validate_loop text_beq transport_is_valid insert validate_rule mode_is_valid
    strategy_is_valid load accept apply_defaults rule_defaults
loaded-ok = refl

-- The text disables the rule.
abbrev switched_off : Config
switched_off = record sample_config { rules = record rule { enabled = false } ∷ [] }

abbrev switched_on : Config
switched_on =
    apply_defaults (record switched_off { rules = string_rule_defaults switched_off.rules })

switched_on-ok : load_from_string five_minutes (ok switched_off) ≡ ok switched_on
unfolding validate validate_loop text_beq transport_is_valid insert validate_rule mode_is_valid
    strategy_is_valid load_from_string accept apply_defaults string_rule_defaults
switched_on-ok = refl

load_from_string-AllEnabled_example :
    AllEnabled switched_off.rules switched_on.rules
    × (get_enabled_rules switched_on ≡ switched_on.rules)
load_from_string-AllEnabled_example =
    load_from_string-AllEnabled five_minutes switched_off switched_on switched_on-ok
