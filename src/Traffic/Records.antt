-- ===== src/Traffic/Records.antt =====
-- internal/traffic/collector.go and query.go: records made of counters, their order, and the sums
-- over them. The code's keys of groups are texts joined by NUL; here they are compared part by part,
-- which is the same for texts without NUL.
pub mod Sums
use sbox_manager.Common.{
  Bool, List, String, [], eqb_ℤ, false, if◌then◌else◌, ltb, ltb_ℤ, not, sort, text_lt, ℕ, ◌%◌, ◌&&◌,
  ◌+◌, ◌==◌, ◌^◌, ◌||◌, ◌∷◌,
}
use sbox_manager.Traffic.Types.{Counter, Record, Target, Time, TimeRange, unix}
use sbox_manager.Traffic.Windows.{Location, format_time, year_range}

-- The order of `stableRecordOrder`.
unfoldable pub record_before : Record → Record → Bool
record_before a b =
    if not (eqb_ℤ a.start_ts b.start_ts)
    then ltb_ℤ a.start_ts b.start_ts
    else if not (a.instance_name == b.instance_name)
    then text_lt a.instance_name b.instance_name
    else if not (a.scope == b.scope)
    then text_lt a.scope b.scope
    else if not (a.name == b.name)
    then text_lt a.name b.name
    else if not (a.direction == b.direction)
    then text_lt a.direction b.direction
    else ltb a.bytes b.bytes

unfoldable pub stable_record_order : List Record → List Record
unfolding record_before sort
stable_record_order records = sort record_before records

module _ (location : Location) where
  unfoldable pub record_from_counter :
      Target → String → TimeRange → Counter → ℕ → Bool → Time → Record
  record_from_counter target period window counter bytes reset created = record {
    instance_name = target.instance_name;
    server = target.server;
    period = period;
    start_ts = unix window.start;
    end_ts = unix window.end;
    start_time = format_time location window.start;
    end_time = format_time location window.end;
    scope = counter.scope;
    name = counter.name;
    direction = counter.direction;
    bytes = bytes;
    reset_detected = reset;
    created_at = created;
  }

-- The key of the groups of `AggregateRecords`.
abbrev pub same_series : Record → Record → Bool
same_series a b =
    a.instance_name == b.instance_name
    && a.scope == b.scope
    && a.name == b.name
    && a.direction == b.direction

-- Bytes are added in 64 bits, and the reset flags are joined.
abbrev pub absorb : Record → Record → Record
absorb aggregate r = record aggregate {
  bytes = (aggregate.bytes + r.bytes) % 2 ^ 64;
  reset_detected = aggregate.reset_detected || r.reset_detected;
}

-- One round: the group of the record is found by its key, or begun by `fresh`.
unfoldable pub group_record :
    (Record → Record → Bool) → (Record → Record) → Record → List Record → List Record
group_record same fresh r [] = absorb (fresh r) r ∷ []
group_record same fresh r (x ∷ xs) =
    let rest = group_record same fresh r xs in
    if same x (fresh r) then absorb x r ∷ xs else x ∷ rest

unfoldable pub group_records :
    (Record → Record → Bool) → (Record → Record) → List Record → List Record → List Record
group_records same fresh grouped [] = grouped
group_records same fresh grouped (r ∷ rs) =
    group_records same fresh (group_record same fresh r grouped) rs

module _ (location : Location) where
  -- The new group of a record in a window.
  abbrev pub window_record : String → TimeRange → Time → Record → Record
  window_record period window now r = record r {
    period = period;
    start_ts = unix window.start;
    end_ts = unix window.end;
    start_time = format_time location window.start;
    end_time = format_time location window.end;
    bytes = 0;
    reset_detected = false;
    created_at = now;
  }

  unfoldable pub aggregate_records : List Record → String → TimeRange → Time → List Record
  unfolding group_records group_record
  aggregate_records records period window now =
      stable_record_order (group_records same_series (window_record period window now) [] records)

  -- The year of a record is that of its start; groups of two years have two starts.
  year_window : Record → TimeRange
  year_window r = year_range location (location.civil r.start_ts).year

  unfoldable pub aggregate_yearly : Time → List Record → List Record
  unfolding group_records group_record year_window
  aggregate_yearly now records = stable_record_order (
      group_records (λ a b. same_series a b && eqb_ℤ a.start_ts b.start_ts)
        (λ r. window_record "yearly" (year_window r) now r) [] records)
