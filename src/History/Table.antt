-- ===== src/History/Table.antt =====
-- The statements of internal/state/manager.go: what their answers hold.
use syncrules.Prelude.{
  ℕ, zero, suc, ◌<◌, Text, text_eq, codes, Bool, true, false, Option, none, some, List, [], ◌∷◌,
  ◌++◌, ltb, ◌≡◌, ◌⊎◌, refl, inl, inr, ap, sym, ◌∙◌, arith, map, Member, All, All-Member,
  Member-All, All-map, ok, Result-cases, Option-cases, Bool-cases,
}
use syncrules.Domain.{Error}
use syncrules.Planner.Order.{text_less}
use syncrules.History.{
  Time, ExecutionRecord, TimeText, Database, collect, place, where_rows, order_by_start, limit_rows,
  select, of_rule, success_of, scan, scan_first, query_rows, not_positive, get_history,
  get_all_history, get_last_success,
}

-- The start of the last day of the year 9999 in UTC, in nanoseconds.
abbrev last_day : ℕ
last_day = 253402214400000000000

-- The time has the given offset, which is less than a day, and in each zone a year of four digits.
abbrev pub InZone : ℕ → Time → Type 0
InZone zone t = (t.offset ≡ zone) × (zone < 2880) × (t.instant < last_day)

abbrev pub TimesIn : ℕ → ExecutionRecord → Type 0
TimesIn zone r = InZone zone r.start_time × InZone zone r.end_time

-- What is documented of the driver, for times with one offset and years of four digits: a time is read back
-- from its text, and the texts are ordered as the times. And `INSERT` adds one row.
pub record Table {W : Type 0} (db : Database W) : Type 0 where
  pub parse_law : (zone : ℕ) (t : Time) → InZone zone t → db.times.parse (db.times.format t) ≡ ok t
  pub order_law :
      (zone : ℕ) (t t' : Time)
      → InZone zone t
      → InZone zone t'
      → text_less (db.times.format t) (db.times.format t') ≡ ltb t.instant t'.instant
  pub insert_law :
      (w : W) (r : ExecutionRecord)
      → (db.insert w r).1 ≡ none
      → (id : ℕ) × (db.rows (db.insert w r).0 ≡ db.rows w ++ record r { id = id } ∷ [])

collect_inv :
    (xs ys : List ExecutionRecord) (failure : Option Error)
    → collect (map ok xs) failure ≡ ok ys
    → ys ≡ xs
unfolding collect
collect_inv [] ys none h = ground arith
collect_inv [] ys (some e) h = ground arith
collect_inv (x ∷ xs) ys failure h = elim (Result-cases (collect (map ok xs) failure)) [
  | inr (e, f) ↦ absurd (ground arith)
  | inl (zs, f) ↦ ground (arith, collect_inv xs zs failure)
]

pub Member-where_rows :
    (meets : ExecutionRecord → Bool) (x : ExecutionRecord) (rows : List ExecutionRecord)
    → Member x (where_rows meets rows)
    → Member x rows × (meets x ≡ true)
unfolding where_rows
Member-where_rows meets x [] m = absurd m
Member-where_rows meets x (r ∷ rows) m = elim (Bool-cases (meets r)) [
  | inr e ↦ let (row, k) = Member-where_rows meets x rows (rw e at m) in (inr row, k)
  | inl e ↦ elim (rw e at m) [
    | inl same ↦ (inl same, ap meets same ∙ e)
    | inr later ↦ let (row, k) = Member-where_rows meets x rows later in (inr row, k)
  ]
]

pub where_rows-Member :
    (meets : ExecutionRecord → Bool) (x : ExecutionRecord) (rows : List ExecutionRecord)
    → Member x rows
    → meets x ≡ true
    → Member x (where_rows meets rows)
unfolding where_rows
where_rows-Member meets x [] m k = absurd m
where_rows-Member meets x (r ∷ rows) (inl same) k = rw (sym (ap meets same) ∙ k) (inl same)
where_rows-Member meets x (r ∷ rows) (inr m) k = elim (Bool-cases (meets r)) [
  | inr e ↦ rw e (where_rows-Member meets x rows m k)
  | inl e ↦ rw e (inr (where_rows-Member meets x rows m k))
]

pub Member-place :
    (times : TimeText) (r x : ExecutionRecord) (xs : List ExecutionRecord)
    → Member x (place times r xs)
    → (x ≡ r) ⊎ Member x xs
unfolding place
Member-place times r x [] (inl e) = inl e
Member-place times r x [] (inr m) = absurd m
Member-place times r x (y ∷ xs) m =
    elim (Bool-cases (text_less (times.format r.start_time) (times.format y.start_time))) [
      | inr e ↦ rw e at m
      | inl e ↦ elim (rw e at m) [
        | inl same ↦ inr (inl same)
        | inr later ↦ elim (Member-place times r x xs later) [
          | inl same ↦ inl same
          | inr old ↦ inr (inr old)
        ]
      ]
    ]

pub Member-order_by_start :
    (times : TimeText) (x : ExecutionRecord) (rows : List ExecutionRecord)
    → Member x (order_by_start times rows)
    → Member x rows
unfolding order_by_start
Member-order_by_start times x [] m = m
Member-order_by_start times x (r ∷ rows) m =
    elim (Member-place times r x (order_by_start times rows) m) [
      | inl same ↦ inl same
      | inr later ↦ inr (Member-order_by_start times x rows later)
    ]

pub Member-limit_rows :
    (n : ℕ) (x : ExecutionRecord) (rows : List ExecutionRecord)
    → Member x (limit_rows n rows)
    → Member x rows
unfolding limit_rows
Member-limit_rows zero x rows m = absurd m
Member-limit_rows (suc n) x [] m = m
Member-limit_rows (suc n) x (r ∷ rows) (inl e) = inl e
Member-limit_rows (suc n) x (r ∷ rows) (inr m) = inr (Member-limit_rows n x rows m)

pub select-All :
    (P : ExecutionRecord → Type 0) (times : TimeText) (meets : ExecutionRecord → Bool) (limit : ℕ)
    (rows : List ExecutionRecord)
    → All (λ (x : ExecutionRecord). meets x ≡ true → P x) rows
    → All P (select times meets limit rows)
select-All P times meets limit rows h = All-Member P (select times meets limit rows) (λ x m.
    let (row, k) = Member-where_rows meets x rows (
      Member-order_by_start times x (where_rows meets rows)
        (Member-limit_rows limit x (order_by_start times (where_rows meets rows)) m)) in
    Member-All (λ (y : ExecutionRecord). meets y ≡ true → P y) rows x h row k)

module _ {W : Type 0} (db : Database W) (table : Table db) (zone : ℕ) where
  scan-ok : (r : ExecutionRecord) → TimesIn zone r → scan db.times r ≡ ok r
  unfolding scan
  scan-ok r (z, z') =
      rw (table.parse_law zone r.start_time z, table.parse_law zone r.end_time z', scan) refl

  map-scan :
      (rows : List ExecutionRecord)
      → All (TimesIn zone) rows
      → map (scan db.times) rows ≡ map ok rows
  map-scan [] h = refl
  map-scan (r ∷ rows) (z, h) = rw (scan-ok r z, map-scan rows h) refl

  query_rows_inv :
      (what : Text) (w : W) (meets : ExecutionRecord → Bool) (limit : ℕ) (xs : List ExecutionRecord)
      → All (λ (x : ExecutionRecord). meets x ≡ true → TimesIn zone x) (db.rows w)
      → query_rows db what w meets limit ≡ ok xs
      → xs ≡ select db.times meets limit (db.rows w)
  unfolding query_rows
  query_rows_inv what w meets limit xs z h = elim (Option-cases (db.query_failure w)) [
    | inr (e, f) ↦ absurd (ground arith)
    | inl f ↦
        let rows = select db.times meets limit (db.rows w) in
        let read : collect (map (scan db.times) rows) (db.rows_failure w) ≡ ok xs = ground arith in
        collect_inv rows xs (db.rows_failure w) (
          ap (λ ss. collect ss (db.rows_failure w))
            (sym (map-scan rows (select-All (TimesIn zone) db.times meets limit (db.rows w) z)))
          ∙ read)
  ]

  pub get_history_inv :
      (w : W) (rule : Text) (limit : ℕ) (xs : List ExecutionRecord)
      → All (λ (x : ExecutionRecord). of_rule rule x ≡ true → TimesIn zone x) (db.rows w)
      → get_history db w rule limit ≡ ok xs
      → (not_positive limit ≡ false) × (xs ≡ select db.times (of_rule rule) limit (db.rows w))
  unfolding get_history
  get_history_inv w rule limit xs z h = elim (Bool-cases (not_positive limit)) [
    | inl e ↦ absurd (ground arith)
    | inr e ↦ (
      e,
      query_rows_inv (codes "failed to query history") w (of_rule rule) limit xs z (ground arith),
    )
  ]

  pub get_all_history_inv :
      (w : W) (limit : ℕ) (xs : List ExecutionRecord)
      → All (TimesIn zone) (db.rows w)
      → get_all_history db w limit ≡ ok xs
      → (not_positive limit ≡ false) × (xs ≡ select db.times (λ r. true) limit (db.rows w))
  unfolding get_all_history
  get_all_history_inv w limit xs z h = elim (Bool-cases (not_positive limit)) [
    | inl e ↦ absurd (ground arith)
    | inr e ↦ (
      e,
      query_rows_inv (codes "failed to query all history") w (λ r. true) limit xs
          (All-map _ _ (db.rows w) (λ x k m. k) z) (ground arith),
    )
  ]

  scan_first_inv :
      (rows : List ExecutionRecord) (found : Option ExecutionRecord)
      → All (TimesIn zone) rows
      → scan_first db rows ≡ ok found
      → ((rows ≡ []) × (found ≡ none))
        ⊎ ((r : ExecutionRecord) × (rest : List ExecutionRecord) × (rows ≡ r ∷ rest)
            × (found ≡ some r))
  unfolding scan_first
  scan_first_inv [] found z h = inl (refl, ground arith)
  scan_first_inv (r ∷ rest) found z h = inr (r, rest, refl, ground (arith, scan-ok r z.0))

  pub get_last_success_inv :
      (w : W) (rule : Text) (found : Option ExecutionRecord)
      → All (TimesIn zone) (db.rows w)
      → get_last_success db w rule ≡ ok found
      → let rows = select db.times (success_of rule) 1 (db.rows w) in
        ((rows ≡ []) × (found ≡ none))
        ⊎ ((r : ExecutionRecord) × (rest : List ExecutionRecord) × (rows ≡ r ∷ rest)
            × (found ≡ some r))
  unfolding get_last_success
  get_last_success_inv w rule found z h = elim (Option-cases (db.query_failure w)) [
    | inr (e, f) ↦ absurd (ground arith)
    | inl f ↦
        scan_first_inv (select db.times (success_of rule) 1 (db.rows w)) found
          (select-All (TimesIn zone) db.times (success_of rule) 1 (db.rows w)
            (All-map _ _ (db.rows w) (λ x k m. k) z))
          (ground arith)
  ]
