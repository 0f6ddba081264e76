-- ===== src/Traffic/Cleanup/Recent.antt =====
-- internal/traffic/cleanup.go: records within their retention survive.
use sbox_manager.Common.{
  Bool, Bool-cases, List, Member, String, arith, false, if◌then◌else◌, inl, inr, known, ltb, ltb_ℤ,
  neg_part, pos, pos_part, sym, true, ℕ, ℤ, ◌*◌, ◌+◌, ◌<◌, ◌∙◌, ◌≡◌, ◌≤ℤ◌, ◌≤◌, ◌⊎◌,
}
use sbox_manager.Traffic.Cleanup.{cleanup_cutoff, cleanup_one, minus}
use sbox_manager.Traffic.Cleanup.Retention.{cleanup_one_lem}
use sbox_manager.Traffic.Tables.{Db}
use sbox_manager.Traffic.Types.{Options, Record}
use sbox_manager.Traffic.Windows.{Location, add_date, day_start}

-- `a` is at most `n` seconds before `b`.
abbrev pub IsWithin : ℕ → ℤ → ℤ → Type 0
IsWithin n a b = pos_part b + neg_part a ≤ pos_part a + neg_part b + n

-- The zone at a time has days of 24 hours: the day has begun, and so many days earlier is so many
-- times 86400 seconds earlier.
abbrev pub HasPlainDays : Location → ℤ → Type 0
HasPlainDays location now =
    (day_start location now ≤ℤ now)
    × ((days : ℕ)
        → let earlier =
            add_date location (day_start location now) (pos 0) (pos 0) (minus (pos days)) in
          pos_part earlier + neg_part (day_start location now) + days * 86400
          ≡ pos_part (day_start location now) + neg_part earlier)

-- A record of an hourly or daily period within the retention: it starts at most so many days ago, or,
-- if it is daily, at most the least number of days for daily records.
abbrev pub IsRecent : ℕ → ℕ → ℤ → String → Record → Type 0
IsRecent days least now period r =
    IsWithin (days * 86400) r.start_ts now
    ⊎ ((period ≡ "daily") × IsWithin (least * 86400) r.start_ts now)

ltb-true : (a b : ℕ) → ltb a b ≡ true → a < b
ltb-true a b h = ground (arith, h)

ltb-false : (a b : ℕ) → ltb a b ≡ false → b ≤ a
ltb-false a b h = ground (arith, h)

cutoff-IsRecent :
    (location : Location) (options : Options) (now : ℤ) (days least : ℕ) (period : String)
    (r : Record)
    → HasPlainDays location now
    → options.retention_days ≡ pos days
    → options.daily_min_retention_days ≡ pos least
    → (period ≡ "hourly") ⊎ (period ≡ "daily")
    → IsRecent days least now period r
    → cleanup_cutoff location period options now ≤ℤ r.start_ts
unfolding cleanup_cutoff
cutoff-IsRecent location options now days least period r (begun, shift) d l (inl hourly) recent =
    rw (hourly, d)
      (elim recent [
        | inl late ↦ omega (arith, begun, shift days, late)
        | inr (daily, _) ↦ absurd (let bad = sym hourly ∙ daily in cc)
      ])
cutoff-IsRecent location options now days least period r (begun, shift) d l (inr daily) recent =
    elim (Bool-cases (ltb_ℤ (pos days) (pos least))) [
      | inl less ↦
          rw (daily, d, l, less)
            (elim recent [
              | inl late ↦ omega (arith, begun, shift least, late, ltb-true _ _ less)
              | inr (_, late) ↦ omega (arith, begun, shift least, late)
            ])
      | inr more ↦
          rw (daily, d, l, more)
            (elim recent [
              | inl late ↦ omega (arith, begun, shift days, late)
              | inr (_, late) ↦ omega (arith, begun, shift days, late, ltb-false _ _ more)
            ])
    ]

-- In a zone with plain days at the time, an hourly or daily cleanup with a retention of some days and
-- a least number of days for daily records, whichever statements fail, leaves every record that is
-- within that retention.
pub cleanup_one-IsRecent :
    (location : Location) (options : Options) (now : ℤ) (dry_run : Bool) (days least : ℕ)
    (period : String) (db : Db) (r : Record)
    → HasPlainDays location now
    → options.retention_days ≡ pos days
    → options.daily_min_retention_days ≡ pos least
    → (period ≡ "hourly") ⊎ (period ≡ "daily")
    → IsRecent days least now period r
    → Member r db.records
    → Member r (cleanup_one location options now dry_run period db).1.records
cleanup_one-IsRecent location options now dry_run days least period db r plain d l known recent m =
    elim (cleanup_one_lem location options now dry_run period db) [
      | inr (e, after, ends, same) ↦ rw ends (rw (same.0) m)
      | inl (result, after, ends, cut, (based, told, kept, left, counted, members)) ↦
          let late =
            cutoff-IsRecent location options now days least period r plain d l known recent in
          rw ends (rw left (stays dry_run kept m ((members r).1 (m, inr (rw cut late)))))
    ]
  where
    stays :
        (dry : Bool) (kept : List Record)
        → Member r db.records
        → Member r kept
        → Member r (if dry then db.records else kept)
    stays true kept there inside = there
    stays false kept there inside = inside
