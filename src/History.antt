-- ===== src/History.antt =====
-- internal/state/manager.go. The table is a list of rows in the state of the database, on which the
-- queries are what their SQL says; the driver is a parameter.
pub mod Table
pub mod Newest
pub mod Opening
use syncrules.Planner.Order.{text_less}
use syncrules.Prelude.{
  ℕ, zero, suc, map, ◌^◌, Text, text_eq, codes, Bool, true, false, Option, none, some, List, [],
  ◌∷◌, ◌==◌, ◌||◌, ◌&&◌, not, if◌then◌else◌, ltb, leb, nat_eq, Result, ok, err,
}
use syncrules.Domain.{Error, other_error, wrapped}

-- A `time.Time`: an instant, and the minutes of its zone's offset from UTC, with those of a day added.
pub record Time : Type 0 where
  pub instant : ℕ
  pub offset : ℕ

-- `ExecutionRecord`; the identifier is set by the database.
pub record ExecutionRecord : Type 0 where
  pub id : ℕ
  pub rule_name : Text
  pub start_time : Time
  pub end_time : Time
  pub status : Text
  pub files_synced : ℕ
  pub bytes_synced : ℕ
  pub error : Text

abbrev pub success : Text
success = codes "success"

abbrev pub failed : Text
failed = codes "failed"

abbrev pub partial : Text
partial = codes "partial"

-- The text that the driver stores for a time, and what it reads from it.
pub record TimeText : Type 0 where
  pub format : Time → Text
  pub parse : Text → Result Error Time

-- The table `executions`, with what `INSERT` makes of it, and what `Query` and `rows.Err()` fail with.
pub record Database (W : Type 0) : Type 0 where
  pub times : TimeText
  pub rows : W → List ExecutionRecord
  pub insert : W → ExecutionRecord → W × Option Error
  pub query_failure : W → Option Error
  pub rows_failure : W → Option Error

-- `ORDER BY start_time DESC`: the column is compared as the text that it holds.
unfoldable pub place : TimeText → ExecutionRecord → List ExecutionRecord → List ExecutionRecord
place times r [] = r ∷ []
place times r (x ∷ xs) =
    let rest = place times r xs in
    if text_less (times.format r.start_time) (times.format x.start_time)
    then x ∷ rest
    else r ∷ x ∷ xs

-- `WHERE`
unfoldable pub where_rows : (ExecutionRecord → Bool) → List ExecutionRecord → List ExecutionRecord
where_rows meets [] = []
where_rows meets (r ∷ rows) = let rest = where_rows meets rows in if meets r then r ∷ rest else rest

unfoldable pub order_by_start : TimeText → List ExecutionRecord → List ExecutionRecord
unfolding place
order_by_start times [] = []
order_by_start times (r ∷ rows) = place times r (order_by_start times rows)

-- `LIMIT`
unfoldable pub limit_rows : ℕ → List ExecutionRecord → List ExecutionRecord
limit_rows zero rows = []
limit_rows (suc n) [] = []
limit_rows (suc n) (r ∷ rows) = r ∷ limit_rows n rows

abbrev pub select :
    TimeText → (ExecutionRecord → Bool) → ℕ → List ExecutionRecord → List ExecutionRecord
select times meets limit rows = limit_rows limit (order_by_start times (where_rows meets rows))

-- `rule_name = ?`, and the condition of `GetLastSuccess`.
abbrev pub of_rule : Text → ExecutionRecord → Bool
of_rule rule r = r.rule_name == rule

abbrev pub success_of : Text → ExecutionRecord → Bool
success_of rule r = r.rule_name == rule && r.status == success

-- `Scan` of a row.
unfoldable pub scan : TimeText → ExecutionRecord → Result Error ExecutionRecord
scan times r = elim (times.parse (times.format r.start_time)) [
  | err e ↦ err e
  | ok started ↦ elim (times.parse (times.format r.end_time)) [
    | err e ↦ err e
    | ok ended ↦ ok (record r { start_time = started; end_time = ended })
  ]
]

-- The statuses that `SaveExecution` takes.
unfoldable pub is_status : Text → Bool
is_status s = s == success || (s == failed || s == partial)

-- `limit <= 0`, of the bit pattern of an int.
unfoldable pub not_positive : ℕ → Bool
not_positive limit = limit == 0 || leb (2 ^ 63) limit

-- The loop over the rows; it ends at the first row that cannot be scanned.
collect : List (Result Error ExecutionRecord) → Option Error → Result Error (List ExecutionRecord)
collect [] none = ok []
collect [] (some e) = err (wrapped (codes "error iterating records") e)
collect (err e ∷ scans) failure = err (wrapped (codes "failed to scan record") e)
collect (ok r ∷ scans) failure = put r (collect scans failure)
  where
    put :
        ExecutionRecord → Result Error (List ExecutionRecord) → Result Error (List ExecutionRecord)
    put r (err e) = err e
    put r (ok records) = ok (r ∷ records)

module _ {W : Type 0} (db : Database W) where
  -- `Query` with the loop over its rows.
  pub query_rows : Text → W → (ExecutionRecord → Bool) → ℕ → Result Error (List ExecutionRecord)
  unfolding collect scan where_rows order_by_start limit_rows
  query_rows what w meets limit = elim (db.query_failure w) [
    | some e ↦ err (wrapped what e)
    | none ↦
        collect (map (scan db.times) (select db.times meets limit (db.rows w))) (db.rows_failure w)
  ]

  -- `SaveExecution`
  unfoldable pub save_execution : W → ExecutionRecord → W × Option Error
  unfolding is_status
  save_execution w r =
      if is_status r.status
      then (let (w1, failure) = db.insert w r in
          elim failure [
            | none ↦ (w1, none)
            | some e ↦ (w1, some (wrapped (codes "failed to save execution record") e))
          ])
      else (w, some (other_error (codes "invalid status")))

  -- `GetHistory`
  unfoldable pub get_history : W → Text → ℕ → Result Error (List ExecutionRecord)
  unfolding not_positive query_rows
  get_history w rule limit =
      if not_positive limit
      then err (other_error (codes "limit must be positive"))
      else query_rows (codes "failed to query history") w (of_rule rule) limit

  -- `GetAllHistory`
  unfoldable pub get_all_history : W → ℕ → Result Error (List ExecutionRecord)
  unfolding not_positive query_rows
  get_all_history w limit =
      if not_positive limit
      then err (other_error (codes "limit must be positive"))
      else query_rows (codes "failed to query all history") w (λ r. true) limit

  -- `Scan` of the row of `QueryRow`; `sql.ErrNoRows` is no error.
  scan_first : List ExecutionRecord → Result Error (Option ExecutionRecord)
  unfolding scan
  scan_first [] = ok none
  scan_first (r ∷ rows) = elim (scan db.times r) [
    | ok found ↦ ok (some found)
    | err e ↦ err (wrapped (codes "failed to query last success") e)
  ]

  -- `GetLastSuccess`
  unfoldable pub get_last_success : W → Text → Result Error (Option ExecutionRecord)
  unfolding scan_first where_rows order_by_start limit_rows
  get_last_success w rule = elim (db.query_failure w) [
    | some e ↦ err (wrapped (codes "failed to query last success") e)
    | none ↦ scan_first (select db.times (success_of rule) 1 (db.rows w))
  ]
