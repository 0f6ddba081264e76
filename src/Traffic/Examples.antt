-- ===== src/Traffic/Examples.antt =====
-- Data to which the theorems of internal/traffic apply: a zone of hours and days of fixed length,
-- and an engine whose sum is exact everywhere.
use sbox_manager.Common.{
  List, Member, String, [], arith, false, if◌then◌else◌, inl, keep, neg_part, negsuc, none, pos,
  pos_part, refl, some, suc, true, zero, ℕ, ℤ, ◌*◌, ◌+ℤ◌, ◌+◌, ◌-ℤ◌, ◌<◌, ◌^◌, ◌∷◌, ◌≡◌,
}
use sbox_manager.Traffic.Cleanup.{cleanup_one, minus}
use sbox_manager.Traffic.Cleanup.Recent.{HasPlainDays, cleanup_one-IsRecent}
use sbox_manager.Traffic.Cleanup.Retention.{CleanupEnds, cleanup_one_lem}
use sbox_manager.Traffic.Collector.{current_deltas}
use sbox_manager.Traffic.Collector.Reading.{current_deltas-SameTables}
use sbox_manager.Traffic.Collector.Totals.{
  IsRising, Poll, collections, collections-IsRising, collections_lem, end_value, polled,
}
use sbox_manager.Traffic.Queries.{add_instance_subtotal, is_single, same_slot, spans}
use sbox_manager.Traffic.Queries.Subtotals.{add_instance_subtotal_lem}
use sbox_manager.Traffic.Records.{aggregate_records, same_series}
use sbox_manager.Traffic.Records.Sums.{aggregate_records_lem, picked_bytes}
use sbox_manager.Traffic.Repository.{
  add_counter, add_counters, add_hourly_counters, add_increase, add_record, get_baseline,
}
use sbox_manager.Traffic.Repository.Atomic.{add_hourly_counters-failed}
use sbox_manager.Traffic.Repository.Hourly.{metered, stored}
use sbox_manager.Traffic.Repository.Replaced.{ReplaceEnds, replace_window_records_lem}
use sbox_manager.Traffic.Tables.{
  Db, Engine, SameTables, baseline_value, done, failed, statement, transaction,
}
use sbox_manager.Traffic.Types.{
  Counter, Options, Record, Target, TimeRange, filter_counters, no_filter,
}
use sbox_manager.Traffic.Windows.{Location, add_date, day_start}

abbrev plain_engine : Engine
plain_engine = record { sum = λ a b. a + b; sum_exact = λ a b h. refl }

abbrev still : Location
still = record {
  civil = λ t. record {
    year = pos 1970;
    month = pos 1;
    day = pos 1;
    hour = pos 0;
    minute = pos 0;
    second = t;
  };
  date = λ c. c.second;
  format = λ t. "";
}

abbrev edge_target : Target
edge_target = record { instance_name = "edge"; server = "127.0.0.1:10085"; token = ""; scopes = [] }

abbrev eric : ℕ → Counter
eric value = record { scope = "user"; name = "eric"; direction = "up"; value = value }

abbrev empty_db : Db
empty_db = record { records = []; baselines = []; faults = [] }

abbrev based_db : Db
based_db = record empty_db {
  baselines =
      (record {
        instance_name = "edge";
        scope = "user";
        name = "eric";
        direction = "up";
        value = 100;
        updated_at = none;
      })
      ∷ [];
}

abbrev hour_of : ℤ → TimeRange
hour_of t = record { start = some t; end = some t }

abbrev row : String → ℤ → ℕ → Record
row period at bytes = record {
  instance_name = "edge";
  server = "127.0.0.1:10085";
  period = period;
  start_ts = at;
  end_ts = at;
  start_time = "";
  end_time = "";
  scope = "user";
  name = "eric";
  direction = "up";
  bytes = bytes;
  reset_detected = false;
  created_at = none;
}

-- The counter is read at 100, 250 and, after a restart, at 40: 100 + 150 + 40 bytes.
abbrev three_polls : List Poll
three_polls = (pos 3600, eric 100 ∷ []) ∷ (pos 7200, eric 250 ∷ []) ∷ (pos 10800, eric 40 ∷ []) ∷ []

abbrev rising_polls : List Poll
rising_polls = (pos 3600, eric 150 ∷ []) ∷ (pos 7200, eric 150 ∷ eric 400 ∷ []) ∷ []

three_polls_small :
    stored "edge" (eric 0) empty_db.records
      + metered
          (baseline_value "edge" (eric 0) empty_db.baselines)
          (polled edge_target (eric 0) three_polls)
    < 2 ^ 63
unfolding baseline_value filter_counters
three_polls_small = omega arith

collections_lem_example :
    ((collections plain_engine still edge_target three_polls empty_db).0 ≡ done [])
    × (stored "edge"
          (eric 0)
          (collections plain_engine still edge_target three_polls empty_db).1.records
        ≡ stored "edge" (eric 0) empty_db.records
          + metered
              (baseline_value "edge" (eric 0) empty_db.baselines)
              (polled edge_target (eric 0) three_polls))
collections_lem_example =
    collections_lem plain_engine still edge_target (eric 0) three_polls empty_db refl
      three_polls_small

based_at_100 : baseline_value "edge" (eric 0) based_db.baselines ≡ some 100
unfolding baseline_value
based_at_100 = refl

rising_polls_rise : IsRising 100 (polled edge_target (eric 0) rising_polls)
unfolding filter_counters
rising_polls_rise = (omega arith, (omega arith, (omega arith, tt)))

rising_polls_small :
    stored "edge" (eric 0) based_db.records
      + end_value 100 (polled edge_target (eric 0) rising_polls)
    < 2 ^ 63
unfolding filter_counters
rising_polls_small = omega arith

collections-IsRising_example :
    stored "edge"
        (eric 0)
        (collections plain_engine still edge_target rising_polls based_db).1.records
      + 100
    ≡ stored "edge" (eric 0) based_db.records
      + end_value 100 (polled edge_target (eric 0) rising_polls)
collections-IsRising_example =
    collections-IsRising plain_engine still edge_target (eric 0) 100 rising_polls based_db refl
      based_at_100 rising_polls_rise rising_polls_small

-- The second statement fails: the reading of the baseline succeeds, the record is not written.
abbrev failing_db : Db
failing_db = record based_db { faults = false ∷ true ∷ [] }

failing_fails :
    (add_hourly_counters plain_engine still edge_target
      (hour_of (pos 0))
      none
      (eric 150 ∷ [])
      failing_db).0
    ≡ failed "write traffic record: %w"
unfolding add_hourly_counters add_counters add_counter get_baseline add_increase add_record
    transaction statement baseline_value
failing_fails = refl

add_hourly_counters-failed_example :
    SameTables
      (add_hourly_counters plain_engine still edge_target
        (hour_of (pos 0))
        none
        (eric 150 ∷ [])
        failing_db).1
      failing_db
add_hourly_counters-failed_example =
    add_hourly_counters-failed plain_engine still edge_target (hour_of (pos 0)) none (eric 150 ∷ [])
      failing_db failing_fails

abbrev full_db : Db
full_db = record empty_db {
  records = row "hourly" (pos 0) 7 ∷ row "hourly" (pos 3600) 8 ∷ row "daily" (pos 0) 3 ∷ [];
}

replace_window_records_lem_example :
    ReplaceEnds "daily" [] (hour_of (pos 0)) (row "daily" (pos 0) 15 ∷ []) full_db
replace_window_records_lem_example =
    replace_window_records_lem "daily" [] (hour_of (pos 0)) (row "daily" (pos 0) 15 ∷ []) full_db

aggregate_records_lem_example :
    picked_bytes
      (same_series (row "" (pos 0) 0))
      (aggregate_records still full_db.records "daily" (hour_of (pos 0)) none)
    ≡ picked_bytes (same_series (row "" (pos 0) 0)) full_db.records
aggregate_records_lem_example =
    aggregate_records_lem still "daily" (hour_of (pos 0)) none (row "" (pos 0) 0) full_db.records
      (omega arith)

abbrev some_options : Options
some_options = record {
  db_path = "";
  timezone = "UTC";
  retention_days = pos 1;
  daily_min_retention_days = pos 1;
  monthly_retention_months = pos 1;
  timeout = pos 0;
  monthly_retention_override = pos 0;
}

cleanup_one_lem_example : CleanupEnds still some_options (pos 3600) false "hourly" full_db
cleanup_one_lem_example = cleanup_one_lem still some_options (pos 3600) false "hourly" full_db

current_deltas-SameTables_example :
    SameTables
      (current_deltas still
        (λ t. some (eric 150 ∷ []))
        (edge_target ∷ [])
        (pos 0)
        no_filter
        failing_db).1
      failing_db
current_deltas-SameTables_example =
    current_deltas-SameTables still (λ t. some (eric 150 ∷ [])) (edge_target ∷ []) (pos 0) no_filter
      failing_db

-- The rows of a second instance.
abbrev two_instances : List Record
two_instances =
    row "hourly" (pos 0) 7 ∷ record (row "hourly" (pos 0) 8) { instance_name = "relay" } ∷ []

add_instance_subtotal_lem_example :
    picked_bytes (same_slot (row "hourly" (pos 0) 0)) (add_instance_subtotal two_instances)
    ≡ picked_bytes (same_slot (row "hourly" (pos 0) 0)) two_instances
      + (if spans (keep is_single two_instances)
          then picked_bytes (same_slot (row "hourly" (pos 0) 0)) (keep is_single two_instances)
          else 0)
add_instance_subtotal_lem_example =
    add_instance_subtotal_lem (row "hourly" (pos 0) 0) two_instances (omega arith)

-- A zone whose first day is the day 0.
abbrev day_seconds : ℤ → ℤ
day_seconds (pos d) = pos (d * 86400)
day_seconds (negsuc d) = negsuc (d * 86400 + 86399)

abbrev first_day : Location
first_day = record {
  civil = λ t. record {
    year = pos 0;
    month = pos 0;
    day = pos 0;
    hour = pos 0;
    minute = pos 0;
    second = t;
  };
  date = λ c. c.second +ℤ day_seconds c.day;
  format = λ t. "";
}

minus-suc : (n : ℕ) → minus (pos (suc n)) ≡ negsuc n
unfolding ◌-ℤ◌
minus-suc n = ground arith

zero-add : (n : ℕ) → (pos 0 +ℤ negsuc n) ≡ negsuc n
unfolding ◌+ℤ◌
zero-add n = ground arith

first_day_shifts :
    (days : ℕ)
    → let earlier =
        add_date first_day (day_start first_day (pos 5)) (pos 0) (pos 0) (minus (pos days)) in
      pos_part earlier + neg_part (day_start first_day (pos 5)) + days * 86400
      ≡ pos_part (day_start first_day (pos 5)) + neg_part earlier
unfolding add_date day_start ◌+ℤ◌ ◌-ℤ◌
first_day_shifts zero = refl
first_day_shifts (suc days) =
    rw (minus-suc days) (rw (zero-add days) (rw (zero-add (days * 86400 + 86399)) (omega arith)))

first_day-HasPlainDays : HasPlainDays first_day (pos 5)
unfolding day_start ◌+ℤ◌
first_day-HasPlainDays = (omega arith, first_day_shifts)

cleanup_one-IsRecent_example :
    Member
      (row "hourly" (pos 0) 7)
      (cleanup_one first_day some_options (pos 5) false "hourly" full_db).1.records
cleanup_one-IsRecent_example =
    cleanup_one-IsRecent first_day some_options (pos 5) false 1 1 "hourly" full_db
      (row "hourly" (pos 0) 7) first_day-HasPlainDays refl refl (inl refl) (inl (omega arith))
      (inl refl)
