-- ===== src/Traffic/Collector/Totals.antt =====
-- internal/traffic/collector.go: what a series of calls of `CollectHourly` has stored in the end.
use sbox_manager.Common.{
  List, Option, [], arith, none, refl, some, ℕ, ℤ, ◌++◌, ◌+◌, ◌<◌, ◌^◌, ◌∷◌, ◌≡◌, ◌≤◌,
}
use sbox_manager.Traffic.Collector.{collect_hourly, collect_targets}
use sbox_manager.Traffic.Records.{stable_record_order}
use sbox_manager.Traffic.Repository.Hourly.{
  add_hourly_counters_healthy, after_counters, after_counters-IsHealthy, baseline-after_counters,
  last_reading, metered, readings, stored, stored-after_counters,
}
use sbox_manager.Traffic.Tables.{Db, Engine, IsHealthy, Stmt, baseline_value, done, next}
use sbox_manager.Traffic.Types.{Counter, Record, Target, filter_counters, no_filter}
use sbox_manager.Traffic.Windows.{Location, hour_range}

metered-append :
    (b : Option ℕ) (xs ys : List ℕ)
    → metered b (xs ++ ys) ≡ metered b xs + metered (last_reading b xs) ys
metered-append b [] ys = omega arith
metered-append none (x ∷ xs) ys = omega (arith, metered-append (some x) xs ys)
metered-append (some b) (x ∷ xs) ys = omega (arith, metered-append (some x) xs ys)

-- Readings that never go down, from `b` on.
abbrev pub IsRising : ℕ → List ℕ → Type 0
IsRising b [] = Unit {0}
IsRising b (v ∷ vs) = (b ≤ v) × IsRising v vs

abbrev pub end_value : ℕ → List ℕ → ℕ
end_value b [] = b
end_value b (v ∷ vs) = end_value v vs

metered-IsRising : (b : ℕ) (vs : List ℕ) → IsRising b vs → metered (some b) vs + b ≡ end_value b vs
metered-IsRising b [] h = omega arith
metered-IsRising b (v ∷ vs) (h, k) = ground (arith, metered-IsRising v vs k)

-- One collection: its time, and the counters that the instance answers with.
abbrev pub Poll : Type 0
Poll = ℤ × List Counter

abbrev pub polled : Target → Counter → List Poll → List ℕ
polled target c [] = []
polled target c ((at, counters) ∷ rest) =
    readings c (filter_counters counters target no_filter) ++ polled target c rest

module _ (engine : Engine) (location : Location) (target : Target) where
  abbrev pub collections : List Poll → Stmt (List Record)
  collections [] db = (done [], db)
  collections ((at, counters) ∷ rest) db =
      next (collect_hourly engine location (λ t. some counters) (target ∷ []) at db)
        (λ rows db'. collections rest db')

  abbrev after_poll : Poll → Db → Db
  after_poll (at, counters) =
      after_counters engine location target (hour_range location at) (some at)
        (filter_counters counters target no_filter)

  collect_hourly_healthy :
      (at : ℤ) (counters : List Counter) (db : Db)
      → IsHealthy db
      → (rows : List Record) × collect_hourly engine location
            (λ t. some counters)
            (target ∷ [])
            at
            db
          ≡ (done rows, after_poll (at, counters) db)
  unfolding collect_hourly collect_targets
  collect_hourly_healthy at counters db h =
      let (rows, eq) =
        add_hourly_counters_healthy engine location target (hour_range location at) (some at)
          (filter_counters counters target no_filter) db h in
      (stable_record_order ([] ++ rows), rw eq)

  -- On a database that answers, calls of `CollectHourly` on one instance, at any times and with any
  -- counters, all succeed, and what is stored for a counter grows by what its readings have consumed
  -- since its baseline, as long as that stays below 2 ^ 63.
  pub collections_lem :
      (c : Counter) (polls : List Poll) (db : Db)
      → IsHealthy db
      → stored target.instance_name c db.records
          + metered (baseline_value target.instance_name c db.baselines) (polled target c polls)
        < 2 ^ 63
      → ((collections polls db).0 ≡ done [])
        × (stored target.instance_name c (collections polls db).1.records
            ≡ stored target.instance_name c db.records
              + metered
                  (baseline_value target.instance_name c db.baselines)
                  (polled target c polls))
  collections_lem c [] db h k = (refl, omega arith)
  collections_lem c ((at, counters) ∷ rest) db h k =
      let i = target.instance_name in
      let kept = filter_counters counters target no_filter in
      let after = after_poll (at, counters) db in
      let (rows, eq) = collect_hourly_healthy at counters db h in
      let parts =
        metered-append (baseline_value i c db.baselines) (readings c kept) (polled target c rest) in
      let at_end =
        baseline-after_counters engine location target (hour_range location at) (some at) c kept
          db in
      let here =
        stored-after_counters engine location target (hour_range location at) (some at) c kept db
          (omega arith) in
      let healthy =
        after_counters-IsHealthy engine location target (hour_range location at) (some at) kept db
          h in
      let (answered, later) = collections_lem c rest after healthy (rw at_end (omega arith)) in
      rw eq (answered, rw (later, at_end) (omega arith))

  -- The bytes stored do not depend on when or how often an instance is read: on a database that
  -- answers, and with readings of a counter that never go down from its baseline on, what is stored
  -- grows by the last reading less the baseline, as long as the sum stays below 2 ^ 63.
  pub collections-IsRising :
      (c : Counter) (b : ℕ) (polls : List Poll) (db : Db)
      → IsHealthy db
      → baseline_value target.instance_name c db.baselines ≡ some b
      → IsRising b (polled target c polls)
      → stored target.instance_name c db.records + end_value b (polled target c polls) < 2 ^ 63
      → stored target.instance_name c (collections polls db).1.records + b
        ≡ stored target.instance_name c db.records + end_value b (polled target c polls)
  collections-IsRising c b polls db h e up k =
      let sum = metered-IsRising b (polled target c polls) up in
      let all = (collections_lem c polls db h (rw e (omega arith))).1 in rw (all, e) (omega arith)
