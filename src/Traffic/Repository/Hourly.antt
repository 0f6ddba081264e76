-- ===== src/Traffic/Repository/Hourly.antt =====
-- internal/traffic/repository.go: what `AddHourlyCounters` adds to the stored bytes.
use sbox_manager.Common.{
  Bool, Bool-cases, List, Option, String, [], arith, eq_iff, eq_refl, false, if◌then◌else◌, inl,
  inr, keep, leb, ltb, map, none, refl, some, total, true, ℕ, ◌&&◌, ◌++◌, ◌+◌, ◌-◌, ◌<◌, ◌==◌, ◌^◌,
  ◌∷◌, ◌≡◌,
}
use sbox_manager.Traffic.Records.{record_from_counter, stable_record_order}
use sbox_manager.Traffic.Repository.{
  add_counter, add_counters, add_hourly_counters, add_increase, add_record, delta_of, get_baseline,
  hourly_record, upsert_baseline,
}
use sbox_manager.Traffic.Stats.{same_counter}
use sbox_manager.Traffic.Tables.{
  Db, Engine, IsHealthy, add_row, baseline_value, done, put_baseline, same_record, settle,
  statement_healthy, transaction,
}
use sbox_manager.Traffic.Types.{Baseline, Counter, Record, Target, Time, TimeRange}
use sbox_manager.Traffic.Windows.{Location}

-- The hourly records of one counter of an instance.
abbrev pub of_series : String → Counter → Record → Bool
of_series i c r =
    r.period == "hourly"
    && r.instance_name == i
    && r.scope == c.scope
    && r.name == c.name
    && r.direction == c.direction

abbrev pub bytes_if : (Record → Bool) → Record → ℕ
bytes_if p r = if p r then r.bytes else 0

-- The bytes that are stored for a counter, over all hours.
abbrev pub stored : String → Counter → List Record → ℕ
stored i c = total (bytes_if (of_series i c))

same_record-fields :
    (a b : Record)
    → same_record a b ≡ true
    → (a.instance_name ≡ b.instance_name)
      × (a.period ≡ b.period)
      × (a.scope ≡ b.scope)
      × (a.name ≡ b.name)
      × (a.direction ≡ b.direction)
same_record-fields a b h = ground (
  arith,
  eq_iff a.instance_name b.instance_name,
  eq_iff a.period b.period,
  eq_iff a.scope b.scope,
  eq_iff a.name b.name,
  eq_iff a.direction b.direction,
)

of_series-same :
    (i : String) (c : Counter) (a b : Record)
    → same_record a b ≡ true
    → of_series i c a ≡ of_series i c b
of_series-same i c a b h = let (e1, e2, e3, e4, e5) = same_record-fields a b h in cc

module _ (engine : Engine) where
  stored-add_row :
      (i : String) (c : Counter) (r : Record) (rows : List Record)
      → stored i c rows + bytes_if (of_series i c) r < 2 ^ 63
      → stored i c (add_row engine r rows) ≡ stored i c rows + bytes_if (of_series i c) r
  unfolding add_row
  stored-add_row i c r [] h = omega arith
  stored-add_row i c r (x ∷ xs) h = elim (Bool-cases (same_record x r)) [
    | inl e ↦
        rw (e, add_row) (joined (of_series i c x) (of_series i c r) (of_series-same i c x r e) h)
    | inr e ↦ rw (e, add_row) (omega (arith, stored-add_row i c r xs))
  ]
    where
      joined :
          (p q : Bool)
          → p ≡ q
          → (if p then x.bytes else 0) + stored i c xs + (if q then r.bytes else 0) < 2 ^ 63
          → (if p then engine.sum x.bytes r.bytes else 0) + stored i c xs
            ≡ (if p then x.bytes else 0) + stored i c xs + (if q then r.bytes else 0)
      joined true true e k = omega (arith, engine.sum_exact x.bytes r.bytes)
      joined false false e k = omega arith
      joined true false e k = cc
      joined false true e k = cc

baseline-put_baseline :
    (i : String) (c : Counter) (now : Time) (bs : List Baseline)
    → baseline_value i c (put_baseline i c now bs) ≡ some c.value
unfolding baseline_value put_baseline
baseline-put_baseline i c now [] = simp eq_refl
baseline-put_baseline i c now (b ∷ bs) = ground (arith, baseline-put_baseline i c now bs)

-- A baseline of another counter stays.
baseline-put_baseline_other :
    (i : String) (c e : Counter) (now : Time) (bs : List Baseline)
    → same_counter e c ≡ false
    → baseline_value i c (put_baseline i e now bs) ≡ baseline_value i c bs
unfolding baseline_value put_baseline
baseline-put_baseline_other i c e now [] h =
    grind (
      arith,
      eq_refl i,
      eq_iff e.scope c.scope,
      eq_iff e.name c.name,
      eq_iff e.direction c.direction,
    )
baseline-put_baseline_other i c e now (b ∷ bs) h = grind (
  arith,
  baseline-put_baseline_other i c e now bs h,
  eq_iff b.scope c.scope,
  eq_iff b.name c.name,
  eq_iff b.direction c.direction,
  eq_iff b.scope e.scope,
  eq_iff b.name e.name,
  eq_iff b.direction e.direction,
)

-- The readings of one counter among the counters of a poll, in order.
abbrev pub readings : Counter → List Counter → List ℕ
readings c cs = map (λ (x : Counter). x.value) (keep (λ x. same_counter x c) cs)

-- What a series of readings of one counter has consumed: the increase of each over the one before
-- it, and the whole value of one that is below the one before it.
abbrev pub metered : Option ℕ → List ℕ → ℕ
metered before [] = 0
metered none (v ∷ vs) = v + metered (some v) vs
metered (some b) (v ∷ vs) = (if leb b v then v - b else v) + metered (some v) vs

abbrev pub last_reading : Option ℕ → List ℕ → Option ℕ
last_reading before [] = before
last_reading before (v ∷ vs) = last_reading (some v) vs

metered-cons :
    (b : Option ℕ) (v : ℕ) (vs : List ℕ)
    → metered b (v ∷ vs) ≡ (delta_of b v).0 + metered (some v) vs
metered-cons none v vs = refl
metered-cons (some b) v vs = ground arith

baseline-same :
    (i : String) (c e : Counter) (bs : List Baseline)
    → same_counter e c ≡ true
    → baseline_value i c bs ≡ baseline_value i e bs
unfolding baseline_value
baseline-same i c e [] h = refl
baseline-same i c e (b ∷ bs) h = grind (
  arith,
  baseline-same i c e bs h,
  eq_iff e.scope c.scope,
  eq_iff e.name c.name,
  eq_iff e.direction c.direction,
)

module _ (engine : Engine) (location : Location) (target : Target) (window : TimeRange)
    (now : Time) where
  abbrev increase : Counter → Db → ℕ × Bool
  increase e db = delta_of (baseline_value target.instance_name e db.baselines) e.value

  abbrev row_of : Counter → Db → Record
  row_of e db = hourly_record engine location target window now e (increase e db)

  abbrev after_counter : Counter → Db → Db
  after_counter e db = record db {
    records =
        if ltb 0 (increase e db).0 then add_row engine (row_of e db) db.records else db.records;
    baselines = put_baseline target.instance_name e now db.baselines;
  }

  abbrev rows_of : Counter → Db → List Record
  rows_of e db = if ltb 0 (increase e db).0 then row_of e db ∷ [] else []

  add_increase_healthy :
      (delta : ℕ) (r : Record) (db : Db)
      → IsHealthy db
      → add_increase engine delta r db ≡ (
        done (if ltb 0 delta then r ∷ [] else []),
        record db { records = if ltb 0 delta then add_row engine r db.records else db.records },
      )
  unfolding add_increase add_record
  add_increase_healthy delta r db h = elim (Bool-cases (ltb 0 delta)) [
    | inl k ↦ rw k (rw (statement_healthy _ _ db h))
    | inr k ↦ rw k
  ]

  add_counter_healthy :
      (e : Counter) (db : Db)
      → IsHealthy db
      → add_counter engine location target window now e db
        ≡ (done (rows_of e db), after_counter e db)
  unfolding add_counter get_baseline upsert_baseline
  add_counter_healthy e db h = rw (statement_healthy _ _ db h) (
      rw (add_increase_healthy (increase e db).0 (row_of e db) db h)
        (rw (statement_healthy _ _ (record db { records = (after_counter e db).records }) h)))

  bytes-row_of :
      (c e : Counter) (db : Db)
      → bytes_if (of_series target.instance_name c) (row_of e db)
        ≡ (if same_counter e c then (increase e db).0 else 0)
  unfolding record_from_counter
  bytes-row_of c e db = simp (eq_refl target.instance_name)

  -- A round adds the increase to the records of its counter, and nothing to those of another.
  stored-after_counter :
      (c e : Counter) (db : Db)
      → stored target.instance_name c db.records
          + (if same_counter e c then (increase e db).0 else 0)
        < 2 ^ 63
      → stored target.instance_name c (after_counter e db).records
        ≡ stored target.instance_name c db.records
          + (if same_counter e c then (increase e db).0 else 0)
  stored-after_counter c e db h =
      let bytes = bytes-row_of c e db in
      elim (Bool-cases (ltb 0 (increase e db).0)) [
        | inl k ↦ rw (
          k,
          stored-add_row engine target.instance_name c (row_of e db) db.records (rw bytes h),
          bytes,
        )
        | inr k ↦ rw k (ground arith)
      ]

  abbrev pub after_counters : List Counter → Db → Db
  after_counters [] db = db
  after_counters (e ∷ es) db = after_counters es (after_counter e db)

  add_counters_healthy :
      (records : List Record) (es : List Counter) (db : Db)
      → IsHealthy db
      → (rows : List Record) × add_counters engine location target window now records es db
          ≡ (done rows, after_counters es db)
  unfolding add_counters
  add_counters_healthy records [] db h = (records, refl)
  add_counters_healthy records (e ∷ es) db h =
      let (rows, eq) = add_counters_healthy (records ++ rows_of e db) es (after_counter e db) h in
      (rows, rw (add_counter_healthy e db h) eq)

  metered-after_counter :
      (c e : Counter) (es : List Counter) (db : Db)
      → metered (baseline_value target.instance_name c db.baselines) (readings c (e ∷ es))
        ≡ (if same_counter e c then (increase e db).0 else 0)
          + metered
              (baseline_value target.instance_name c (after_counter e db).baselines)
              (readings c es)
  metered-after_counter c e es db =
      let i = target.instance_name in
      let bs = db.baselines in
      elim (Bool-cases (same_counter e c)) [
        | inl k ↦
            rw
              (
                k,
                baseline-same i c e (put_baseline i e now bs) k,
                baseline-put_baseline i e now bs,
                baseline-same i c e bs k,
              )
              (metered-cons (baseline_value i e bs) e.value (readings c es))
        | inr k ↦ rw (k, baseline-put_baseline_other i c e now bs k) (omega arith)
      ]

  pub stored-after_counters :
      (c : Counter) (es : List Counter) (db : Db)
      → stored target.instance_name c db.records
          + metered (baseline_value target.instance_name c db.baselines) (readings c es)
        < 2 ^ 63
      → stored target.instance_name c (after_counters es db).records
        ≡ stored target.instance_name c db.records
          + metered (baseline_value target.instance_name c db.baselines) (readings c es)
  stored-after_counters c [] db h = omega arith
  stored-after_counters c (e ∷ es) db h =
      let step = metered-after_counter c e es db in
      let here = stored-after_counter c e db (omega arith) in
      let rest = stored-after_counters c es (after_counter e db) (omega arith) in omega arith

  pub baseline-after_counters :
      (c : Counter) (es : List Counter) (db : Db)
      → baseline_value target.instance_name c (after_counters es db).baselines
        ≡ last_reading (baseline_value target.instance_name c db.baselines) (readings c es)
  baseline-after_counters c [] db = refl
  baseline-after_counters c (e ∷ es) db =
      let i = target.instance_name in
      let bs = db.baselines in
      let rest = baseline-after_counters c es (after_counter e db) in
      elim (Bool-cases (same_counter e c)) [
        | inl k ↦ rw (
          rest,
          k,
          baseline-same i c e (put_baseline i e now bs) k,
          baseline-put_baseline i e now bs,
        )
        | inr k ↦ rw (rest, k, baseline-put_baseline_other i c e now bs k)
      ]

  pub after_counters-IsHealthy :
      (es : List Counter) (db : Db) → IsHealthy db → IsHealthy (after_counters es db)
  after_counters-IsHealthy [] db h = h
  after_counters-IsHealthy (e ∷ es) db h = after_counters-IsHealthy es (after_counter e db) h

  -- The transaction of a healthy database is carried out in full.
  pub add_hourly_counters_healthy :
      (es : List Counter) (db : Db)
      → IsHealthy db
      → (rows : List Record) × add_hourly_counters engine location target window now es db
          ≡ (done rows, after_counters es db)
  unfolding add_hourly_counters transaction settle
  add_hourly_counters_healthy es db h =
      let (rows, eq) = add_counters_healthy [] es db h in (stable_record_order rows, rw eq)
