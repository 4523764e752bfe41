-- ===== src/Tests/Stores.antt =====
-- Instances of the execution history: a table of three rows, of which two are of one rule.
use syncrules.Prelude.{
  ℕ, suc, ◌+◌, ◌≤◌, ◌<◌, true, Text, codes, text_beq, nat_eq, nat_same_iff, Option, none, some,
  List, [], ◌∷◌, ◌++◌, ok, err, ◌≡◌, inl, inr, refl, Result, arith, length, ltb, ◌↔◌,
}
use syncrules.Domain.{Error, other_error}
use syncrules.Planner.Order.{text_less}
use syncrules.History.{
  Time, ExecutionRecord, Database, success, failed, where_rows, place, order_by_start, limit_rows,
  scan, save_execution, get_history, get_all_history, get_last_success,
}
use syncrules.History.Table.{Table, InZone}
use syncrules.History.Newest.{save_execution-history, get_last_success-history}
use syncrules.Daemon.{rules_named, run_rule, run_sync}
use syncrules.Daemon.Stored.{save_records, last_execution, run_sync-last_execution}
use syncrules.Tests.Samples.{rule}
use syncrules.Tests.Settings.{sample_config}
use syncrules.Tests.Daemons.{failing, docs_found}

-- A text of two characters, the instant and the offset.
abbrev two_codes : Time → Text
two_codes t = t.instant ∷ t.offset ∷ []

read_codes : Text → Result Error Time
read_codes (i ∷ o ∷ []) = ok (record { instant = i; offset = o })
read_codes _ = err (other_error (codes "no time"))

abbrev Rows : Type 0
Rows = List ExecutionRecord

abbrev list_db : Database Rows
list_db = record {
  times = record { format = two_codes; parse = read_codes };
  rows = λ w. w;
  insert = λ w r. (w ++ record r { id = suc (length w) } ∷ [], none);
  query_failure = λ w. none;
  rows_failure = λ w. none;
}

read_codes-two_codes : (t : Time) → read_codes (two_codes t) ≡ ok t
unfolding read_codes
read_codes-two_codes t = refl

two_codes-order :
    (zone : ℕ) (t t' : Time)
    → InZone zone t
    → InZone zone t'
    → text_less (two_codes t) (two_codes t') ≡ ltb t.instant t'.instant
unfolding text_less
two_codes-order zone t t' (z, _, _) (z', _, _) =
    ground (arith, nat_same_iff t.instant t'.instant, nat_same_iff t.offset t'.offset)

abbrev list_db-Table : Table list_db
list_db-Table = record {
  parse_law = λ zone t z. read_codes-two_codes t;
  order_law = two_codes-order;
  insert_law = λ w r h. (suc (length w), refl);
}

abbrev at : ℕ → Time
at i = record { instant = i; offset = 8 }

ends : (i : ℕ) → i < 1000 → InZone 8 (at i) × InZone 8 (at (i + 4))
ends i h = ((refl, omega arith, omega arith), (refl, omega arith, omega arith))

abbrev run_of : ℕ → Text → ℕ → Text → ExecutionRecord
run_of id name start status = record {
  id = id;
  rule_name = name;
  start_time = at start;
  end_time = at (start + 4);
  status = status;
  files_synced = 2;
  bytes_synced = 30;
  error = [];
}

abbrev older_rows : Rows
older_rows =
    run_of 1 (codes "docs") 20 success
    ∷ run_of 2 (codes "pics") 90 success
    ∷ run_of 3 (codes "docs") 10 failed
    ∷ []

abbrev all_rows : Rows
all_rows = older_rows ++ run_of 4 (codes "docs") 50 success ∷ []

saved : save_execution list_db older_rows (run_of 0 (codes "docs") 50 success) ≡ (all_rows, none)
unfolding save_execution text_beq
saved = refl

listed :
    get_history list_db all_rows (codes "docs") 2
    ≡ ok (run_of 4 (codes "docs") 50 success ∷ run_of 1 (codes "docs") 20 success ∷ [])
unfolding get_history text_beq where_rows order_by_start place limit_rows scan text_less read_codes
listed = refl

last :
    get_last_success list_db all_rows (codes "docs")
    ≡ ok (some (run_of 4 (codes "docs") 50 success))
unfolding get_last_success text_beq where_rows order_by_start place limit_rows scan text_less
    read_codes
last = refl

pics : text_beq (codes "pics") (codes "docs") ≡ true → ⊥
unfolding text_beq
pics m = ground arith

save_execution-history_example :
    (id : ℕ) × (rest : Rows) × (run_of 4 (codes "docs") 50 success
        ∷ run_of 1 (codes "docs") 20 success
        ∷ []
      ≡ run_of id (codes "docs") 50 success ∷ rest)
save_execution-history_example =
    save_execution-history list_db list_db-Table 8 older_rows all_rows
      (run_of 0 (codes "docs") 50 success) 2
      (run_of 4 (codes "docs") 50 success ∷ run_of 1 (codes "docs") 20 success ∷ []) saved
      (ends 50 (omega arith))
      (
        λ m. (ends 20 (omega arith), omega arith),
        (λ m. absurd (pics m), (λ m. (ends 10 (omega arith), omega arith), tt)),
      )
      listed

get_last_success-history_example :
    (newest : ExecutionRecord) × (◌≡◌ {A = Option ExecutionRecord}
      (some (run_of 4 (codes "docs") 50 success))
      (some newest))
    × (20 ≤ newest.start_time.instant)
    × (newest.rule_name ≡ codes "docs")
    × (newest.status ≡ success)
get_last_success-history_example =
    get_last_success-history list_db list_db-Table 8 all_rows (codes "docs") 2
      (run_of 4 (codes "docs") 50 success ∷ run_of 1 (codes "docs") 20 success ∷ [])
      (some (run_of 4 (codes "docs") 50 success)) (run_of 1 (codes "docs") 20 success)
      (
        ends 20 (omega arith),
        (ends 90 (omega arith), (ends 10 (omega arith), (ends 50 (omega arith), tt))),
      )
      listed last (inr (inl refl)) refl

abbrev text_of : Error → Text
text_of e = codes "not found"

-- The row of the failed execution, after one of another rule.
abbrev failed_row : ExecutionRecord
failed_row = record {
  id = 2;
  rule_name = codes "docs";
  start_time = at 7;
  end_time = at 8;
  status = failed;
  files_synced = 0;
  bytes_synced = 0;
  error = codes "not found";
}

abbrev first_row : Rows
first_row = run_of 1 (codes "pics") 5 success ∷ []

read_back :
    get_all_history list_db
      (save_records text_of
        (λ t. 8)
        list_db
        first_row
        (run_sync failing sample_config (codes "docs") 7).1)
      1
    ≡ ok (failed_row ∷ [])
unfolding get_all_history save_records run_sync save_execution text_beq rules_named where_rows
    order_by_start place limit_rows scan text_less read_codes
read_back = refl

docs_end : InZone 8 (at (run_rule failing rule 7).1.end_time)
unfolding run_rule
docs_end = (refl, omega arith, omega arith)

run_sync-last_execution_example :
    (last : ExecutionRecord) × (last_execution list_db (
        save_records text_of
          (λ t. 8)
          list_db
          first_row
          (run_sync failing sample_config (codes "docs") 7).1)
      ≡ some last)
    × (last.rule_name ≡ rule.name)
    × (last.start_time.instant ≡ 7)
    × ((last.status ≡ codes "success")
        ↔ ((run_sync failing sample_config (codes "docs") 7).2 ≡ none))
run_sync-last_execution_example =
    run_sync-last_execution failing text_of (λ t. 8) list_db list_db-Table 8 sample_config
      (codes "docs") 7 rule first_row (failed_row ∷ []) docs_found (λ r. refl)
      (refl, omega arith, omega arith) docs_end ((ends 5 (omega arith), omega arith), tt) read_back
