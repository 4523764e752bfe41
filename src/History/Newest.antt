-- ===== src/History/Newest.antt =====
-- What internal/state/manager.go returns of what was saved.
use mathlib.Core.Path.{subst}
use syncrules.Prelude.{
  ℕ, zero, suc, ◌≤◌, ◌<◌, Text, text_eq, text_iff, text_beq_refl, nat_same_iff, ◌∙◌, Bool, true,
  false, Option, none, some, List, [], ◌∷◌, ◌++◌, ◌≡◌, ◌⊎◌, refl, inl, inr, ap, sym, arith, Member,
  lt→ltb, All, Member-All, All-Member, All-append, All-map, ok, Option-cases, Bool-cases,
}
use syncrules.Planner.Order.{text_less}
use syncrules.History.{
  ExecutionRecord, Database, success, is_status, not_positive, place, where_rows, order_by_start,
  limit_rows, select, of_rule, success_of, save_execution, get_history, get_last_success,
}
use syncrules.History.Table.{
  Table, TimesIn, get_history_inv, get_last_success_inv, Member-where_rows, where_rows-Member,
  Member-order_by_start, Member-limit_rows,
}

abbrev pub IsOlder : ExecutionRecord → ExecutionRecord → Type 0
IsOlder r x = x.start_time.instant < r.start_time.instant

not_positive-lt : (limit : ℕ) → not_positive limit ≡ false → 0 < limit
unfolding not_positive
not_positive-lt limit h = ground (arith, nat_same_iff limit 0)

module _ {W : Type 0} (db : Database W) (table : Table db) (zone : ℕ) where
  -- A row that is newer than all others that meet the condition stands first.
  order-newest :
      (meets : ExecutionRecord → Bool) (rows : List ExecutionRecord) (r : ExecutionRecord)
      → meets r ≡ true
      → TimesIn zone r
      → All (λ (x : ExecutionRecord). meets x ≡ true → TimesIn zone x × IsOlder r x) rows
      → (rest : List ExecutionRecord) × (order_by_start db.times (where_rows meets (rows ++ r ∷ []))
          ≡ r ∷ rest)
  unfolding order_by_start where_rows place
  order-newest meets [] r m z older = ([], rw m refl)
  order-newest meets (x ∷ rows) r m z (old, older) = elim (Bool-cases (meets x)) [
    | inr e ↦ let (rest, f) = order-newest meets rows r m z older in (rest, rw e f)
    | inl e ↦
        let (rest, f) = order-newest meets rows r m z older in
        let (there, before) = old e in
        let less =
          table.order_law zone x.start_time r.start_time there.0 z.0
          ∙ lt→ltb x.start_time.instant r.start_time.instant before in
        (place db.times x rest, rw e (ap (place db.times x) f ∙ rw (less, place) refl))
  ]

  pub select-newest :
      (meets : ExecutionRecord → Bool) (limit : ℕ) (rows : List ExecutionRecord)
      (r : ExecutionRecord)
      → 0 < limit
      → meets r ≡ true
      → TimesIn zone r
      → All (λ (x : ExecutionRecord). meets x ≡ true → TimesIn zone x × IsOlder r x) rows
      → (rest : List ExecutionRecord) × (select db.times meets limit (rows ++ r ∷ []) ≡ r ∷ rest)
  unfolding limit_rows
  select-newest meets zero rows r h m z older = absurd (omega arith)
  select-newest meets (suc n) rows r h m z older =
      let (rest, e) = order-newest meets rows r m z older in
      (limit_rows n rest, ap (limit_rows (suc n)) e)

  pub save_inv :
      (w w' : W) (r : ExecutionRecord)
      → save_execution db w r ≡ (w', none)
      → (is_status r.status ≡ true) × (w' ≡ (db.insert w r).0) × ((db.insert w r).1 ≡ none)
  unfolding save_execution
  save_inv w w' r h = elim (Option-cases (db.insert w r).1) [
    | inl e ↦ ground arith
    | inr (x, e) ↦ ground arith
  ]

  -- After a record is saved that is newer than all records of its rule, where all of them start and end in
  -- one zone and before the last day of the year 9999, each history of the rule that is returned lists it first.
  pub save_execution-history :
      (w w' : W) (r : ExecutionRecord) (limit : ℕ) (xs : List ExecutionRecord)
      → save_execution db w r ≡ (w', none)
      → TimesIn zone r
      → All
          (λ (x : ExecutionRecord). of_rule r.rule_name x ≡ true → TimesIn zone x × IsOlder r x)
          (db.rows w)
      → get_history db w' r.rule_name limit ≡ ok xs
      → (id : ℕ) × (rest : List ExecutionRecord) × (xs ≡ record r { id = id } ∷ rest)
  save_execution-history w w' r limit xs saved z newer got =
      let (_, at, inserted) = save_inv w w' r saved in
      let (id, rows) = table.insert_law w r inserted in
      let after : db.rows w' ≡ db.rows w ++ record r { id = id } ∷ [] = ap db.rows at ∙ rows in
      let (positive, selected) =
        get_history_inv db table zone w' r.rule_name limit xs
          (subst (All (λ (x : ExecutionRecord). of_rule r.rule_name x ≡ true → TimesIn zone x))
            (sym after)
            (All-append _ (db.rows w) (record r { id = id } ∷ [])
              (All-map _ _ (db.rows w) (λ x k m. (k m).0) newer) ((λ m. z), tt)))
          got in
      let (rest, e) =
        select-newest (of_rule r.rule_name) limit (db.rows w) (record r { id = id })
          (not_positive-lt limit positive) (text_beq_refl r.rule_name) z newer in
      (id, rest, selected ∙ ap (select db.times (of_rule r.rule_name) limit) after ∙ e)

  -- The first of the ordered rows is not older than any.
  abbrev NotNewer : ExecutionRecord → ExecutionRecord → Type 0
  NotNewer r x = x.start_time.instant ≤ r.start_time.instant

  not-less :
      (r x : ExecutionRecord)
      → TimesIn zone r
      → TimesIn zone x
      → text_less (db.times.format r.start_time) (db.times.format x.start_time) ≡ false
      → NotNewer r x
  not-less r x z z' h =
      let e = sym (table.order_law zone r.start_time x.start_time z.0 z'.0) ∙ h in ground arith

  text_less-NotNewer :
      (r x : ExecutionRecord)
      → TimesIn zone r
      → TimesIn zone x
      → text_less (db.times.format r.start_time) (db.times.format x.start_time) ≡ true
      → NotNewer x r
  text_less-NotNewer r x z z' h =
      let e = sym (table.order_law zone r.start_time x.start_time z.0 z'.0) ∙ h in ground arith

  abbrev HeadNewest : List ExecutionRecord → List ExecutionRecord → Type 0
  HeadNewest rows [] = rows ≡ []
  HeadNewest rows (y ∷ ys) = TimesIn zone y × All (NotNewer y) rows

  place-HeadNewest :
      (r : ExecutionRecord) (rows ys : List ExecutionRecord)
      → TimesIn zone r
      → HeadNewest rows ys
      → HeadNewest (r ∷ rows) (place db.times r ys)
  unfolding place
  place-HeadNewest r rows [] z h = (z, (omega arith, rw h tt))
  place-HeadNewest r rows (y ∷ ys) z (z', h) =
      elim (Bool-cases (text_less (db.times.format r.start_time) (db.times.format y.start_time))) [
        | inl e ↦ rw e (z', (text_less-NotNewer r y z z' e, h))
        | inr e ↦ rw e (
          z,
          (
            omega arith,
            All-Member (NotNewer r) rows
                (λ x m. omega (arith, not-less r y z z' e, Member-All (NotNewer y) rows x h m)),
          ),
        )
      ]

  order-HeadNewest :
      (rows : List ExecutionRecord)
      → All (TimesIn zone) rows
      → HeadNewest rows (order_by_start db.times rows)
  unfolding order_by_start
  order-HeadNewest [] h = refl
  order-HeadNewest (r ∷ rows) (z, h) =
      place-HeadNewest r rows (order_by_start db.times rows) z (order-HeadNewest rows h)

  first-newest :
      (x : ExecutionRecord) (rows ys : List ExecutionRecord) (found : Option ExecutionRecord)
      → HeadNewest rows ys
      → Member x rows
      → ((limit_rows 1 ys ≡ []) × (found ≡ none))
        ⊎ ((r : ExecutionRecord) × (rest : List ExecutionRecord) × (limit_rows 1 ys ≡ r ∷ rest)
            × (found ≡ some r))
      → (last : ExecutionRecord) × (found ≡ some last) × NotNewer last x × Member last ys
  unfolding limit_rows
  first-newest x rows [] found h m answer =
      absurd (subst (λ (rs : List ExecutionRecord). Member x rs) h m)
  first-newest x rows (y ∷ ys) found (z, h) m (inl (e, _)) = absurd (ground arith)
  first-newest x rows (y ∷ ys) found (z, h) m (inr (r, rest, e, f)) =
      let same : y ≡ r = ground arith in
      (y, f ∙ ap some (sym same), Member-All (NotNewer y) rows x h m, inl refl)

  -- Where all records start and end in one zone and before the last day of the year 9999: for a success in a history of the rule,
  -- `GetLastSuccess`, where it gives no error, returns a success of the rule that is not older.
  pub get_last_success-history :
      (w : W) (rule : Text) (limit : ℕ) (xs : List ExecutionRecord) (found : Option ExecutionRecord)
      (x : ExecutionRecord)
      → All (TimesIn zone) (db.rows w)
      → get_history db w rule limit ≡ ok xs
      → get_last_success db w rule ≡ ok found
      → Member x xs
      → x.status ≡ success
      → (last : ExecutionRecord) × (found ≡ some last)
        × (x.start_time.instant ≤ last.start_time.instant)
        × (last.rule_name ≡ rule)
        × (last.status ≡ success)
  get_last_success-history w rule limit xs found x zoned got asked m s =
      let (_, selected) =
        get_history_inv db table zone w rule limit xs (All-map _ _ (db.rows w) (λ y k m'. k) zoned)
          got in
      let (row, ours) = Member-where_rows (of_rule rule) x (db.rows w) (
        Member-order_by_start db.times x (where_rows (of_rule rule) (db.rows w)) (
          Member-limit_rows limit x
            (order_by_start db.times (where_rows (of_rule rule) (db.rows w)))
            (subst (λ (ys : List ExecutionRecord). Member x ys) selected m))) in
      let rows = where_rows (success_of rule) (db.rows w) in
      let (last, e, newest, first) =
        first-newest x rows (order_by_start db.times rows) found
          (order-HeadNewest rows (
            All-Member (TimesIn zone) rows (λ y k.
              Member-All (TimesIn zone) (db.rows w) y zoned
                (Member-where_rows (success_of rule) y (db.rows w) k).0)))
          (where_rows-Member (success_of rule) x (db.rows w) row
            (ground (arith, text_iff x.rule_name rule, text_iff x.status success)))
          (get_last_success_inv db table zone w rule found zoned asked) in
      let meets =
        (Member-where_rows (success_of rule) last (db.rows w)
          (Member-order_by_start db.times last rows first)).1 in
      (
        last,
        e,
        newest,
        ground (arith, text_iff last.rule_name rule),
        ground (arith, text_iff last.status success, text_iff last.rule_name rule),
      )
