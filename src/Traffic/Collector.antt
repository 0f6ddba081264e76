-- ===== src/Traffic/Collector.antt =====
-- internal/traffic/collector.go: hourly collection, daily and monthly aggregation, current increases.
pub mod Reading
pub mod Totals
use sbox_manager.Common.{List, Option, String, [], if◌then◌else◌, nat_eq, none, some, ℤ, ◌++◌, ◌∷◌}
use sbox_manager.Traffic.Records.{aggregate_records, record_from_counter, stable_record_order}
use sbox_manager.Traffic.Repository.{
  add_hourly_counters, delta_of, get_baseline, list_records, replace_window_records,
}
use sbox_manager.Traffic.Tables.{Engine, Stmt, done, failed, next}
use sbox_manager.Traffic.Types.{
  Counter, Filter, Record, Target, Time, TimeRange, filter_counters, no_filter,
}
use sbox_manager.Traffic.Windows.{Location, day_range, hour_range, month_range}

-- `client.Query`: the counters of a target, or `none` for an error.
abbrev pub Client : Type 0
Client = Target → Option (List Counter)

module _ (engine : Engine) (location : Location) where
  -- The loop of `CollectHourly`: an error keeps what the targets before it have written.
  unfoldable pub collect_targets :
      Client → TimeRange → Time → List Record → List Target → Stmt (List Record)
  collect_targets client window now all [] db = (done (stable_record_order all), db)
  collect_targets client window now all (target ∷ rest) db = elim (client target) [
    | none ↦ (failed "collect instance %s: %w", db)
    | some counters ↦
        next
          (add_hourly_counters engine location target window now
            (filter_counters counters target no_filter) db)
          (λ records db'. collect_targets client window now (all ++ records) rest db')
  ]

  unfoldable pub collect_hourly : Client → List Target → ℤ → Stmt (List Record)
  unfolding collect_targets
  collect_hourly client targets at =
      collect_targets client (hour_range location at) (some at) [] targets

module _ (location : Location) where
  -- The records of one period in a window become those of a longer one.
  unfoldable pub roll_up : String → String → List String → TimeRange → Time → Stmt (List Record)
  roll_up from to instances window now db =
      next (list_records from (record no_filter { instances = instances }) window db) λ finer db1.
        let records = aggregate_records location finer to window now in
        next (replace_window_records to instances window records db1) λ u db2. (done records, db2)

  unfoldable pub collect_daily : List String → ℤ → Time → Stmt (List Record)
  collect_daily instances day now = roll_up "hourly" "daily" instances (day_range location day) now

  unfoldable pub collect_monthly : List String → ℤ → Time → Stmt (List Record)
  collect_monthly instances month now =
      roll_up "daily" "monthly" instances (month_range location month) now

  -- The loop of `CurrentDeltas` over the counters of a target.
  unfoldable pub current_of :
      Target → TimeRange → Time → List Record → List Counter → Stmt (List Record)
  current_of target window now all [] db = (done all, db)
  current_of target window now all (c ∷ cs) db =
      next (get_baseline target.instance_name c db) λ baseline db'.
        let (delta, reset) = delta_of baseline c.value in
        let r = record_from_counter location target "current" window c delta reset now in
        current_of target window now (if nat_eq delta 0 then all else all ++ r ∷ []) cs db'

  unfoldable pub current_targets :
      Client → Filter → TimeRange → Time → List Record → List Target → Stmt (List Record)
  current_targets client filter window now all [] db = (done (stable_record_order all), db)
  current_targets client filter window now all (target ∷ rest) db = elim (client target) [
    | none ↦ (failed "query current traffic for instance %s: %w", db)
    | some counters ↦
        next (current_of target window now all (filter_counters counters target filter) db)
          (λ records db'. current_targets client filter window now records rest db')
  ]

  unfoldable pub current_deltas : Client → List Target → ℤ → Filter → Stmt (List Record)
  unfolding current_targets current_of
  current_deltas client targets at filter =
      current_targets client filter (hour_range location at) (some at) [] targets
