-- ===== src/Traffic/Repository/Atomic.antt =====
-- internal/traffic/repository.go: transactions that fail leave the tables alone.
use sbox_manager.Common.{List, String, [], refl, ◌≡◌}
use sbox_manager.Traffic.Records.{stable_record_order}
use sbox_manager.Traffic.Repository.{add_counters, add_hourly_counters}
use sbox_manager.Traffic.Tables.{
  Db, Engine, Result, SameTables, done, failed, next, transaction, transaction-failed,
}
use sbox_manager.Traffic.Types.{Counter, Record, Target, Time, TimeRange}
use sbox_manager.Traffic.Windows.{Location}

module _ (engine : Engine) (location : Location) (target : Target) (window : TimeRange)
    (now : Time) where
  -- When `AddHourlyCounters` returns an error, whichever of its statements failed, both tables are
  -- as they were: no bytes are recorded without their baseline, and no baseline without its bytes.
  pub add_hourly_counters-failed :
      (counters : List Counter) (db : Db) {e : String}
      → (add_hourly_counters engine location target window now counters db).0 ≡ failed e
      → SameTables (add_hourly_counters engine location target window now counters db).1 db
  unfolding add_hourly_counters
  add_hourly_counters-failed counters db {e} h =
      let body = add_counters engine location target window now [] counters in
      back (transaction body db) (λ m k. transaction-failed body db k) h
    where
      back :
          (r : Result (List Record) × Db)
          → ((m : String) → r.0 ≡ failed m → SameTables r.1 db)
          → (next r (λ records db'. (done (stable_record_order records), db'))).0 ≡ failed e
          → SameTables (next r (λ records db'. (done (stable_record_order records), db'))).1 db
      back (done rs, db') f k = cc
      back (failed m, db') f k = f m refl
