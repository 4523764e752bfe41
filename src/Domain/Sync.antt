-- ===== src/Domain/Sync.antt =====
-- internal/domain/sync.go. A string type with named constants is a data type with a constructor for
-- each constant, and `other` for every other string.
use syncrules.Prelude.{ℕ, Text, String, Bool, true, false, Option, List}
use syncrules.Domain.File.{FileInfo}

pub data SyncMode : Type 0 where
  one_way_push one_way_pull two_way : SyncMode
  other : Text → SyncMode

pub data ConflictStrategy : Type 0 where
  keep_local keep_remote keep_newest manual : ConflictStrategy
  other : Text → ConflictStrategy

unfoldable pub mode_is_valid : SyncMode → Bool
mode_is_valid (SyncMode.other _) = false
mode_is_valid _ = true

unfoldable pub strategy_is_valid : ConflictStrategy → Bool
strategy_is_valid (ConflictStrategy.other _) = false
strategy_is_valid _ = true

pub data ActionType : Type 0 where
  copy delete mkdir conflict skip : ActionType
  other : Text → ActionType

pub data SyncDirection : Type 0 where
  source_to_target target_to_source : SyncDirection

pub record SyncAction : Type 0 where
  pub type : ActionType
  pub direction : SyncDirection
  pub path : Text
  pub source_info : Option FileInfo
  pub target_info : Option FileInfo
  pub reason : String

pub record SyncPlanStats : Type 0 where
  pub total_files : ℕ
  pub files_to_copy : ℕ
  pub files_to_delete : ℕ
  pub dirs_to_create : ℕ
  pub conflicts : ℕ
  pub bytes_to_sync : ℕ

pub record SyncPlan : Type 0 where
  pub rule_name : Text
  pub actions : List SyncAction
  pub conflicts : List SyncAction
  pub stats : SyncPlanStats
