-- ===== src/Config.antt =====
-- internal/config/config.go: the configuration, its validation and its lookups. The schedule texts are
-- read by `time.ParseDuration`, of which `duration_ok` says whether it gives no error.
pub mod Loops
pub mod Consistency
pub mod Lookups
pub mod Load
pub mod Locations
pub mod Defaults
use syncrules.Prelude.{
  ℕ, Text, text_eq, nat_eq, codes, Bool, true, false, not, Option, none, some, List, [], ◌∷◌, ◌++◌,
  ◌==◌, ◌&&◌, if◌then◌else◌, Result, ok, err,
}
use syncrules.Prelude.Dict.{Dict, lookup, insert}
use syncrules.Domain.{
  Error, wrapped, other_error, config_invalid, endpoint_not_found, transport_not_found,
  invalid_rule, Transport, transport_is_valid, Endpoint, SyncRule, ScheduleConfig,
  validate as validate_rule,
}

pub record Settings : Type 0 where
  pub lock_path : Text
  pub default_conflict : Text
  pub checksum_algorithm : Text
  pub verbose : Bool
  pub dry_run : Bool

pub record SchedulerConfig : Type 0 where
  pub enabled : Bool
  pub default_interval : Text

pub record LogFileConfig : Type 0 where
  pub enabled : Bool
  pub path : Text
  pub max_size_mb : ℕ
  pub max_age_days : ℕ
  pub max_backups : ℕ
  pub compress : Bool

pub record DaemonLoggingConfig : Type 0 where
  pub enabled : Bool
  pub level : Text
  pub file_path : Text

pub record LoggingConfig : Type 0 where
  pub level : Text
  pub format : Text
  pub file : LogFileConfig
  pub daemon : DaemonLoggingConfig

pub record Config : Type 0 where
  pub transports : List Transport
  pub endpoints : List Endpoint
  pub rules : List SyncRule
  pub settings : Settings
  pub scheduler : SchedulerConfig
  pub logging : LoggingConfig

-- `m[name]` of a `map[string]bool`: false for a missing key.
unfoldable pub marked : Text → Dict Bool → Bool
unfolding lookup
marked name m = elim (lookup name m) [ some b ↦ b | none ↦ false ]

-- The three loops of `Validate` over named things have this shape: an empty name, a duplicate name,
-- the further checks of the thing, and then its name is marked.
module _ {A : Type 0} (name : A → Text) (empty : Error) (duplicate : A → Error)
    (check : A → Option Error) where
  unfoldable pub validate_loop : Dict Bool → List A → Result Error (Dict Bool)
  unfolding marked
  validate_loop seen [] = ok seen
  validate_loop seen (x ∷ xs) =
      let rest = validate_loop (insert (name x) true seen) xs in
      if name x == []
      then err empty
      else if marked (name x) seen
      then err (duplicate x)
      else elim (check x) [ some e ↦ err e | none ↦ rest ]

invalid : Text → Error
invalid message = wrapped message config_invalid

unfoldable pub check_transport : Transport → Option Error
unfolding invalid
check_transport t =
    if transport_is_valid t.type then none else some (invalid (codes "invalid transport type"))

unfoldable pub check_endpoint : Dict Bool → Endpoint → Option Error
unfolding invalid marked
check_endpoint transport_names e =
    if e.transport == []
    then some (invalid (codes "endpoint has no transport"))
    else if not (marked e.transport transport_names)
    then some (wrapped (codes "endpoint references unknown transport") transport_not_found)
    else if e.root == []
    then some (invalid (codes "endpoint has no root path"))
    else none

unfoldable pub check_rule : Dict Bool → SyncRule → Option Error
unfolding marked
check_rule endpoint_names r =
    if not (marked r.source_endpoint endpoint_names)
    then some (wrapped (codes "rule references unknown source endpoint") endpoint_not_found)
    else if not (marked r.target_endpoint endpoint_names)
    then some (wrapped (codes "rule references unknown target endpoint") endpoint_not_found)
    else elim (validate_rule r) [ some e ↦ some (wrapped (codes "rule") e) | none ↦ none ]

-- `Validate` of the transports, of the endpoints and of the rules.
unfoldable pub check_transports : List Transport → Result Error (Dict Bool)
unfolding validate_loop check_transport invalid
check_transports =
    validate_loop (λ (t : Transport). t.name) (invalid (codes "transport name cannot be empty"))
      (λ t. invalid (codes "duplicate transport name: " ++ t.name)) check_transport []

unfoldable pub check_endpoints : Dict Bool → List Endpoint → Result Error (Dict Bool)
unfolding validate_loop check_endpoint invalid
check_endpoints transport_names =
    validate_loop (λ (e : Endpoint). e.name) (invalid (codes "endpoint name cannot be empty"))
      (λ e. invalid (codes "duplicate endpoint name: " ++ e.name)) (check_endpoint transport_names)
      []

unfoldable pub check_rules : Dict Bool → List SyncRule → Result Error (Dict Bool)
unfolding validate_loop check_rule invalid
check_rules endpoint_names =
    validate_loop (λ (r : SyncRule). r.name) (invalid (codes "rule name cannot be empty"))
      (λ r. invalid (codes "duplicate rule name: " ++ r.name)) (check_rule endpoint_names) []

module _ (duration_ok : Text → Bool) where
  -- An interval is empty or a duration.
  unfoldable pub interval_ok : Text → Bool
  interval_ok interval = if interval == [] then true else duration_ok interval

  -- The last loop, over the schedules of the rules.
  unfoldable pub check_intervals : List SyncRule → Option Error
  unfolding interval_ok invalid
  check_intervals [] = none
  check_intervals (r ∷ rules) =
      let rest = check_intervals rules in
      elim r.schedule [
        | none ↦ rest
        | some schedule ↦
            if interval_ok schedule.interval
            then rest
            else some (invalid (codes "invalid schedule.interval"))
      ]

  unfoldable pub check_durations : Config → Option Error
  unfolding check_intervals interval_ok invalid
  check_durations c =
      if interval_ok c.scheduler.default_interval
      then check_intervals c.rules
      else some (invalid (codes "invalid scheduler.default_interval"))

  -- `Config.Validate`
  unfoldable pub validate : Config → Option Error
  unfolding check_transports check_endpoints check_rules check_durations
  validate c = elim (check_transports c.transports) [
    | err e ↦ some e
    | ok transport_names ↦ elim (check_endpoints transport_names c.endpoints) [
      | err e ↦ some e
      | ok endpoint_names ↦ elim (check_rules endpoint_names c.rules) [
        | err e ↦ some e
        | ok _ ↦ check_durations c
      ]
    ]
  ]

-- The loop of a lookup by name.
unfoldable pub find_named : {A : Type 0} → (A → Text) → Error → Text → List A → Result Error A
find_named key missing name [] = err missing
find_named key missing name (x ∷ xs) =
    if key x == name then ok x else find_named key missing name xs

unfoldable pub get_transport : Config → Text → Result Error Transport
unfolding find_named
get_transport c name = find_named (λ (t : Transport). t.name) transport_not_found name c.transports

unfoldable pub get_endpoint : Config → Text → Result Error Endpoint
unfolding find_named
get_endpoint c name = find_named (λ (e : Endpoint). e.name) endpoint_not_found name c.endpoints

unfoldable pub get_rule : Config → Text → Result Error SyncRule
unfolding find_named
get_rule c name = find_named (λ (r : SyncRule). r.name) invalid_rule name c.rules

unfoldable pub enabled_rules : List SyncRule → List SyncRule
enabled_rules [] = []
enabled_rules (r ∷ rules) = let rest = enabled_rules rules in if r.enabled then r ∷ rest else rest

unfoldable pub get_enabled_rules : Config → List SyncRule
unfolding enabled_rules
get_enabled_rules c = enabled_rules c.rules

-- Whether the loop of `GetScheduledRules` keeps a rule.
is_scheduled : SyncRule → Bool
is_scheduled r = if r.enabled then elim r.schedule [ some s ↦ s.enabled | none ↦ true ] else false

scheduled_rules : List SyncRule → List SyncRule
unfolding is_scheduled
scheduled_rules [] = []
scheduled_rules (r ∷ rules) =
    let rest = scheduled_rules rules in if is_scheduled r then r ∷ rest else rest

unfoldable pub get_scheduled_rules : Config → List SyncRule
unfolding scheduled_rules
get_scheduled_rules c = scheduled_rules c.rules
