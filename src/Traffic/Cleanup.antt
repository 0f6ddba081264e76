-- ===== src/Traffic/Cleanup.antt =====
-- internal/traffic/cleanup.go: records older than their retention are counted or deleted. The
-- results that the code returns beside an error are left out.
pub mod Retention
pub mod Recent
use sbox_manager.Common.{
  Bool, List, Option, String, [], false, if◌then◌else◌, ltb_ℤ, none, pos, some, true, ℕ, ℤ, ◌++◌,
  ◌-ℤ◌, ◌==◌, ◌||◌, ◌∷◌,
}
use sbox_manager.Traffic.Repository.{count_before, delete_before}
use sbox_manager.Traffic.Tables.{Stmt, done, failed, next}
use sbox_manager.Traffic.Types.{Options}
use sbox_manager.Traffic.Windows.{Location, add_date, day_start, month_start}

pub record CleanupResult : Type 0 where
  pub period : String
  pub count : ℕ
  pub dry_run : Bool
  pub cutoff : ℤ
  pub deleted : Bool

unfoldable pub cleanup_periods : String → Option (List String)
cleanup_periods period =
    if period == "" || period == "all"
    then some ("hourly" ∷ "daily" ∷ "monthly" ∷ [])
    else if period == "hourly" || period == "daily" || period == "monthly"
    then some (period ∷ [])
    else none

abbrev pub minus : ℤ → ℤ
minus n = pos 0 -ℤ n

module _ (location : Location) where
  unfoldable pub cleanup_cutoff : String → Options → ℤ → ℤ
  cleanup_cutoff period options now =
      if period == "daily"
      then add_date location (day_start location now) (pos 0) (pos 0) (
          minus (
            if ltb_ℤ options.retention_days options.daily_min_retention_days
            then options.daily_min_retention_days
            else options.retention_days))
      else if period == "monthly"
      then add_date location (month_start location now) (pos 0)
          (minus (
            if ltb_ℤ (pos 0) options.monthly_retention_override
            then options.monthly_retention_override
            else options.monthly_retention_months))
          (pos 0)
      else add_date location (day_start location now) (pos 0) (pos 0) (minus options.retention_days)

  -- One round of the loop: always a count, and a deletion where it is no dry run.
  unfoldable pub cleanup_one : Options → ℤ → Bool → String → Stmt CleanupResult
  cleanup_one options now dry_run period db =
      let cutoff = cleanup_cutoff period options now in
      next (count_before period cutoff db) λ count db1.
        if dry_run
        then (
          done (record {
            period = period;
            count = count;
            dry_run = dry_run;
            cutoff = cutoff;
            deleted = false;
          }),
          db1,
        )
        else next (delete_before period cutoff db1) λ deleted db2. (
          done (record {
            period = period;
            count = deleted;
            dry_run = dry_run;
            cutoff = cutoff;
            deleted = true;
          }),
          db2,
        )

  unfoldable pub cleanup_all :
      Options → ℤ → Bool → List CleanupResult → List String → Stmt (List CleanupResult)
  cleanup_all options now dry_run results [] db = (done results, db)
  cleanup_all options now dry_run results (period ∷ rest) db =
      next (cleanup_one options now dry_run period db)
        (λ r db'. cleanup_all options now dry_run (results ++ r ∷ []) rest db')

  unfoldable pub cleanup_records : Options → String → ℤ → Bool → Stmt (List CleanupResult)
  unfolding cleanup_all
  cleanup_records options period now dry_run db = elim (cleanup_periods period) [
    | none ↦ (failed "unsupported cleanup period %q", db)
    | some periods ↦ cleanup_all options now dry_run [] periods db
  ]
