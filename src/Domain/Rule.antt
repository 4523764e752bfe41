-- ===== src/Domain/Rule.antt =====
-- internal/domain/rule.go
use syncrules.Prelude.{
  Text, text_eq, Bool, true, false, not, Option, none, some, List, [], ◌==◌, ◌&&◌, ◌||◌,
  if◌then◌else◌,
}
use syncrules.Prelude.Dict.{Dict}
use syncrules.Domain.Errors.{Error, invalid_rule}
use syncrules.Domain.Sync.{SyncMode, ConflictStrategy, mode_is_valid, strategy_is_valid}

pub record ScheduleConfig : Type 0 where
  pub enabled : Bool
  pub interval : Text

pub record SyncRule : Type 0 where
  pub name : Text
  pub mode : SyncMode
  pub source_endpoint : Text
  pub target_endpoint : Text
  pub ignore_patterns : List Text
  pub conflict_strategy : ConflictStrategy
  pub enabled : Bool
  pub schedule : Option ScheduleConfig

-- `s == ""` on a strategy: the empty string is none of the constants.
abbrev pub is_unset : ConflictStrategy → Bool
is_unset (ConflictStrategy.other s) = s == []
is_unset _ = false

unfoldable pub validate : SyncRule → Option Error
validate r =
    if r.name == []
    then some invalid_rule
    else if r.source_endpoint == [] || r.target_endpoint == []
    then some invalid_rule
    else if r.source_endpoint == r.target_endpoint
    then some invalid_rule
    else if not (mode_is_valid r.mode)
    then some invalid_rule
    else if not (is_unset r.conflict_strategy) && not (strategy_is_valid r.conflict_strategy)
    then some invalid_rule
    else none

pub data TransportType : Type 0 where
  local gdrive : TransportType
  other : Text → TransportType

unfoldable pub transport_is_valid : TransportType → Bool
transport_is_valid (TransportType.other _) = false
transport_is_valid _ = true

pub record Transport : Type 0 where
  pub name : Text
  pub type : TransportType
  pub credentials : Text
  pub config : Dict Text

pub record Endpoint : Type 0 where
  pub name : Text
  pub transport : Text
  pub root : Text
