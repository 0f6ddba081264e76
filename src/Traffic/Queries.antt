-- ===== src/Traffic/Queries.antt =====
-- internal/traffic/query.go and collector.go: the history of a period, sums over records, and the
-- subtotal of all instances. The keys of the groups are compared part by part.
pub mod Subtotals
use sbox_manager.Common.{
  Bool, List, String, [], any, eqb_ℤ, false, if◌then◌else◌, keep, not, ◌&&◌, ◌++◌, ◌==◌, ◌∷◌,
}
use sbox_manager.Traffic.Records.{aggregate_yearly, group_records, stable_record_order}
use sbox_manager.Traffic.Repository.{list_records}
use sbox_manager.Traffic.Tables.{Stmt, done, next}
use sbox_manager.Traffic.Types.{Filter, Record, Time, TimeRange, all_instances_name}
use sbox_manager.Traffic.Windows.{Location}

module _ (location : Location) where
  -- `HistoryRecords`: years are made of the monthly records.
  unfoldable pub history_records : Time → String → Filter → TimeRange → Stmt (List Record)
  history_records now period filter range db =
      if period == "yearly"
      then next (list_records "monthly" filter range db)
          (λ monthly db'. (done (aggregate_yearly location now monthly), db'))
      else list_records period filter range db

abbrev pub same_slot : Record → Record → Bool
same_slot a b =
    a.period == b.period
    && eqb_ℤ a.start_ts b.start_ts
    && eqb_ℤ a.end_ts b.end_ts
    && a.start_time == b.start_time
    && a.end_time == b.end_time
    && a.scope == b.scope
    && a.name == b.name
    && a.direction == b.direction

abbrev pub all_instances_record : Record → Record
all_instances_record r = record r {
  instance_name = all_instances_name;
  server = all_instances_name;
  bytes = 0;
  reset_detected = false;
}

abbrev pub is_single : Record → Bool
is_single r = not (r.instance_name == all_instances_name)

-- Two records of different instances, as `len(instances) < 2` has it.
unfoldable pub spans : List Record → Bool
spans [] = false
spans (r ∷ rs) = any (λ x. not (x.instance_name == r.instance_name)) rs

-- `AddInstanceSubtotal`.
unfoldable pub add_instance_subtotal : List Record → List Record
unfolding spans
add_instance_subtotal records =
    let single = keep is_single records in
    if spans single
    then stable_record_order (records ++ group_records same_slot all_instances_record [] single)
    else records
