-- ===== src/Traffic/Windows.antt =====
-- internal/traffic/time.go: the windows of hours, days, months and years in the time zone of the
-- statistics. The zone itself is data of the machine: it gives the civil time of an instant, the
-- instant of a civil time whose fields may lie out of range, and the text of an instant.
use sbox_manager.Common.{String, pos, some, ℤ, ◌+ℤ◌}
use sbox_manager.Traffic.Types.{Time, TimeRange, unix}

pub record Civil : Type 0 where
  pub year : ℤ
  pub month : ℤ
  pub day : ℤ
  pub hour : ℤ
  pub minute : ℤ
  pub second : ℤ

pub record Location : Type 0 where
  pub civil : ℤ → Civil
  pub date : Civil → ℤ
  pub format : ℤ → String

module _ (location : Location) where
  -- `Time.AddDate`.
  unfoldable pub add_date : ℤ → ℤ → ℤ → ℤ → ℤ
  add_date t years months days =
      let c = location.civil t in
      location.date
        (record c { year = c.year +ℤ years; month = c.month +ℤ months; day = c.day +ℤ days })

  unfoldable pub hour_range : ℤ → TimeRange
  hour_range at =
      let start = location.date (record (location.civil at) { minute = pos 0; second = pos 0 }) in
      record { start = some start; end = some (start +ℤ pos 3600) }

  unfoldable pub day_start : ℤ → ℤ
  day_start t =
      location.date (record (location.civil t) { hour = pos 0; minute = pos 0; second = pos 0 })

  unfoldable pub day_range : ℤ → TimeRange
  unfolding add_date day_start
  day_range day =
      let start = day_start day in
      record { start = some start; end = some (add_date start (pos 0) (pos 0) (pos 1)) }

  unfoldable pub month_start : ℤ → ℤ
  month_start t =
      location.date
        (record (location.civil t) { day = pos 1; hour = pos 0; minute = pos 0; second = pos 0 })

  unfoldable pub month_range : ℤ → TimeRange
  unfolding add_date month_start
  month_range month =
      let start = month_start month in
      record { start = some start; end = some (add_date start (pos 0) (pos 1) (pos 0)) }

  unfoldable pub year_range : ℤ → TimeRange
  unfolding add_date
  year_range year =
      let start = location.date (record {
        year = year;
        month = pos 1;
        day = pos 1;
        hour = pos 0;
        minute = pos 0;
        second = pos 0;
      }) in
      record { start = some start; end = some (add_date start (pos 1) (pos 0) (pos 0)) }

  -- `FormatTime`.
  abbrev pub format_time : Time → String
  format_time t = location.format (unix t)
