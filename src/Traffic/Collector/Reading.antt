-- ===== src/Traffic/Collector/Reading.antt =====
-- internal/traffic/collector.go: `CurrentDeltas` only reads.
use sbox_manager.Common.{
  Bool, List, Option-cases, String, [], false, inl, inr, refl, some, true, ℤ, ◌∷◌,
}
use sbox_manager.Traffic.Collector.{Client, current_deltas, current_of, current_targets}
use sbox_manager.Traffic.Repository.{get_baseline}
use sbox_manager.Traffic.Tables.{
  Db, Result, SameTables, attempt, baseline_value, done, failed, next, statement, succeed,
}
use sbox_manager.Traffic.Types.{Counter, Filter, Record, Target, Time, TimeRange, filter_counters}
use sbox_manager.Traffic.Windows.{Location, hour_range}

next-SameTables {ℓ κ} :
    {A : Type ℓ} {B : Type κ} (before : Db) (r : Result A × Db) (f : A → Db → Result B × Db)
    → SameTables r.1 before
    → ((a : A) (db : Db) → SameTables db before → SameTables (f a db).1 before)
    → SameTables (next r f).1 before
next-SameTables before (done a, db) f h k = k a db h
next-SameTables before (failed e, db) f h k = h

get_baseline-SameTables :
    (instance_name : String) (c : Counter) (before db : Db)
    → SameTables db before
    → SameTables (get_baseline instance_name c db).1 before
unfolding get_baseline statement attempt succeed
get_baseline-SameTables instance_name c before db h = kept db.faults h
  where
    kept :
        (faults : List Bool)
        → SameTables db before
        → SameTables
            ((attempt faults "query traffic baseline: %w"
              (λ x. (baseline_value instance_name c x.baselines, x))
              db).1)
            before
    kept [] k = k
    kept (true ∷ rest) k = k
    kept (false ∷ rest) k = k

module _ (location : Location) where
  current_of-SameTables :
      (target : Target) (window : TimeRange) (now : Time) (cs : List Counter) (all : List Record)
      (before db : Db)
      → SameTables db before
      → SameTables (current_of location target window now all cs db).1 before
  unfolding current_of
  current_of-SameTables target window now [] all before db h = h
  current_of-SameTables target window now (c ∷ cs) all before db h =
      next-SameTables before (get_baseline target.instance_name c db) _
        (get_baseline-SameTables target.instance_name c before db h)
        (λ b db' k. current_of-SameTables target window now cs _ before db' k)

  current_targets-SameTables :
      (client : Client) (filter : Filter) (window : TimeRange) (now : Time) (targets : List Target)
      (all : List Record) (before db : Db)
      → SameTables db before
      → SameTables (current_targets location client filter window now all targets db).1 before
  unfolding current_targets
  current_targets-SameTables client filter window now [] all before db h = h
  current_targets-SameTables client filter window now (t ∷ ts) all before db h =
      elim (Option-cases (client t)) [
        | inl e ↦ rw (e, current_targets) h
        | inr (cs, e) ↦
            rw (e, current_targets)
              (next-SameTables before
                (current_of location t window now all (filter_counters cs t filter) db) _
                (current_of-SameTables t window now (filter_counters cs t filter) all before db h)
                (λ rs db' k.
                  current_targets-SameTables client filter window now ts rs before db' k))
      ]

  -- `CurrentDeltas` leaves both tables as they are, whichever clients or statements fail: looking at
  -- the current increases moves no baseline, so what a later collection records is not less for it.
  pub current_deltas-SameTables :
      (client : Client) (targets : List Target) (at : ℤ) (filter : Filter) (db : Db)
      → SameTables (current_deltas location client targets at filter db).1 db
  unfolding current_deltas
  current_deltas-SameTables client targets at filter db =
      current_targets-SameTables client filter (hour_range location at) (some at) targets [] db db
        (refl, refl)
