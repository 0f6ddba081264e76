-- ===== src/Traffic/Repository.antt =====
-- internal/traffic/repository.go: the operations of the repository.
pub mod Atomic
pub mod Hourly
pub mod Replaced
use sbox_manager.Common.{
  Bool, List, Option, String, [], any, eqb_ℤ, false, has, if◌then◌else◌, is_empty, keep, leb,
  length, ltb, ltb_ℤ, nat_eq, none, not, pos, pos_part, some, sort, suc, text_lt, true, zero, ℕ, ℤ,
  ◌&&◌, ◌++◌, ◌-◌, ◌==◌, ◌||◌, ◌∷◌,
}
use sbox_manager.Traffic.Records.{record_from_counter, stable_record_order}
use sbox_manager.Traffic.Tables.{
  Engine, Stmt, add_row, baseline_value, done, failed, next, put_baseline, replace_row, same_record,
  statement, transaction,
}
use sbox_manager.Traffic.Types.{Counter, Filter, Record, Target, Time, TimeRange, unix}
use sbox_manager.Traffic.Windows.{Location}

-- The increase of a counter over its baseline, and whether it was reset: it has less than before.
abbrev pub delta_of : Option ℕ → ℕ → ℕ × Bool
delta_of none value = (value, false)
delta_of (some baseline) value =
    if leb baseline value then (value - baseline, false) else (value, true)

unfoldable pub get_baseline : String → Counter → Stmt (Option ℕ)
get_baseline instance_name c =
    statement "query traffic baseline: %w" (λ db. (baseline_value instance_name c db.baselines, db))

unfoldable pub upsert_baseline : String → Counter → Time → Stmt (Unit {0})
upsert_baseline instance_name c now =
    statement "update traffic baseline: %w"
      (λ db. (tt, record db { baselines = put_baseline instance_name c now db.baselines }))

module _ (engine : Engine) where
  unfoldable pub add_record : Record → Stmt (Unit {0})
  add_record r =
      statement "write traffic record: %w"
        (λ db. (tt, record db { records = add_row engine r db.records }))

  -- The record of a positive increase is written; that of no increase is not.
  unfoldable pub add_increase : ℕ → Record → Stmt (List Record)
  add_increase delta r db =
      if ltb 0 delta then next (add_record r db) (λ u db'. (done (r ∷ []), db')) else (done [], db)

  module _ (location : Location) (target : Target) (window : TimeRange) (now : Time) where
    abbrev pub hourly_record : Counter → ℕ × Bool → Record
    hourly_record c (delta, reset) =
        record_from_counter location target "hourly" window c delta reset now

    -- One round of the loop of `AddHourlyCounters`: the records that it adds.
    unfoldable pub add_counter : Counter → Stmt (List Record)
    add_counter c db = next (get_baseline target.instance_name c db) λ baseline db1.
        next
          (add_increase (delta_of baseline c.value).0 (hourly_record c (delta_of baseline c.value))
            db1)
          λ added db2.
            next (upsert_baseline target.instance_name c now db2) λ u db3. (done added, db3)

    unfoldable pub add_counters : List Record → List Counter → Stmt (List Record)
    add_counters records [] db = (done records, db)
    add_counters records (c ∷ cs) db =
        next (add_counter c db) (λ added db'. add_counters (records ++ added) cs db')

    unfoldable pub add_hourly_counters : List Counter → Stmt (List Record)
    add_hourly_counters counters db =
        next (transaction (add_counters [] counters) db)
          (λ records db'. (done (stable_record_order records), db'))

  unfoldable pub add_records : List Record → Stmt (Unit {0})
  add_records [] db = (done tt, db)
  add_records (r ∷ rs) db =
      let rest = add_records rs db in
      if nat_eq r.bytes 0 then rest else next (add_record r db) (λ u db'. add_records rs db')

unfoldable pub replace_records : List Record → Stmt (Unit {0})
replace_records [] db = (done tt, db)
replace_records (r ∷ rs) db =
    next
      (statement {A = Unit {0}} "write traffic aggregate: %w"
        (λ d. (tt, record d { records = replace_row r d.records })) db)
      (λ u db'. replace_records rs db')

-- The rows that `ReplaceWindowRecords` deletes; no instances means all of them.
abbrev pub in_window : String → List String → TimeRange → Record → Bool
in_window period instances window r =
    r.period == period
    && eqb_ℤ r.start_ts (unix window.start)
    && (is_empty instances || has instances r.instance_name)

-- `tx.Create`: a row that the unique index has is an error.
unfoldable pub create_row : Record → Stmt (Unit {0})
create_row r db =
    if any (λ x. same_record x r) db.records
    then (failed "write traffic aggregate: %w", db)
    else statement "write traffic aggregate: %w"
        (λ d. (tt, record d { records = d.records ++ r ∷ [] })) db

unfoldable pub create_rows : List Record → Stmt (Unit {0})
create_rows [] db = (done tt, db)
create_rows (r ∷ rs) db = next (create_row r db) (λ u db'. create_rows rs db')

unfoldable pub replace_window_records :
    String → List String → TimeRange → List Record → Stmt (Unit {0})
replace_window_records period instances window records = transaction λ db.
    next
      (statement {A = Unit {0}} "delete old traffic aggregate: %w"
        (λ d. (
          tt,
          record d { records = keep (λ r. not (in_window period instances window r)) d.records },
        ))
        db)
      (λ u db'. create_rows records db')

-- The conditions of the query of `ListRecords`; a zero time sets no bound.
abbrev pub listed : String → Filter → TimeRange → Record → Bool
listed period filter range r =
    r.period == period
    && elim range.start [ none ↦ true | some t ↦ ltb_ℤ t r.end_ts ]
    && elim range.end [ none ↦ true | some t ↦ ltb_ℤ r.start_ts t ]
    && (is_empty filter.instances || has filter.instances r.instance_name)
    && (filter.scope == "" || r.scope == filter.scope)
    && (filter.name == "" || r.name == filter.name)

abbrev row_before : Record → Record → Bool
row_before a b =
    if not (eqb_ℤ a.start_ts b.start_ts)
    then ltb_ℤ a.start_ts b.start_ts
    else if not (a.instance_name == b.instance_name)
    then text_lt a.instance_name b.instance_name
    else if not (a.scope == b.scope)
    then text_lt a.scope b.scope
    else if not (a.name == b.name)
    then text_lt a.name b.name
    else text_lt a.direction b.direction

take : ℕ → List Record → List Record
take zero rs = []
take (suc n) [] = []
take (suc n) (r ∷ rs) = r ∷ take n rs

limited : ℤ → List Record → List Record
unfolding take
limited limit rs = if ltb_ℤ (pos 0) limit then take (pos_part limit) rs else rs

unfoldable pub list_records : String → Filter → TimeRange → Stmt (List Record)
unfolding limited
list_records period filter range = statement "query traffic records: %w" (λ db.
    (limited filter.limit (sort row_before (keep (listed period filter range) db.records)), db))

-- The rows of a period that start before a time.
abbrev pub is_before : String → ℤ → Record → Bool
is_before period cutoff r = r.period == period && ltb_ℤ r.start_ts cutoff

unfoldable pub count_before : String → ℤ → Stmt ℕ
count_before period cutoff =
    statement "count traffic records to clean: %w"
      (λ db. (length (keep (is_before period cutoff) db.records), db))

unfoldable pub delete_before : String → ℤ → Stmt ℕ
delete_before period cutoff = statement "clean traffic records: %w" (λ db. (
  length (keep (is_before period cutoff) db.records),
  record db { records = keep (λ r. not (is_before period cutoff r)) db.records },
))
