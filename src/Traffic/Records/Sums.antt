-- ===== src/Traffic/Records/Sums.antt =====
-- internal/traffic/collector.go: `AggregateRecords` loses and invents no bytes.
use sbox_manager.Common.{
  Bool, Bool-cases, List, String, [], arith, eq_iff, false, if◌then◌else◌, inl, inr, refl, total,
  total-sort, true, ℕ, ◌%◌, ◌+◌, ◌<◌, ◌^◌, ◌∷◌, ◌≡◌,
}
use sbox_manager.Traffic.Records.{
  absorb, aggregate_records, group_record, group_records, record_before, same_series,
  stable_record_order, window_record,
}
use sbox_manager.Traffic.Types.{Record, Time, TimeRange}
use sbox_manager.Traffic.Windows.{Location}

-- The bytes of the records that `p` picks.
abbrev pub picked_bytes : (Record → Bool) → List Record → ℕ
picked_bytes p = total (λ r. if p r then r.bytes else 0)

-- Groups that lie as a whole inside or outside of what `p` picks, and begin with no bytes.
pub record Grouping (p : Record → Bool) (same : Record → Record → Bool) (fresh : Record → Record)
    : Type 0 where
  pub begins : (r : Record) → p (absorb (fresh r) r) ≡ p r
  pub empty : (r : Record) → (fresh r).bytes ≡ 0
  pub joins : (x r : Record) → same x (fresh r) ≡ true → p x ≡ p r
  pub absorbs : (x r : Record) → p (absorb x r) ≡ p x

begun :
    (q : Bool) (n : ℕ)
    → (if q then n else 0) < 2 ^ 64
    → (if q then (0 + n) % 2 ^ 64 else 0) + 0 ≡ 0 + ((if q then n else 0) + 0)
begun true n h = omega arith
begun false n h = omega arith

absorbed :
    (p p' q : Bool) (x r t : ℕ)
    → p' ≡ p
    → p ≡ q
    → (if p then x else 0) + t + ((if q then r else 0) + 0) < 2 ^ 64
    → (if p' then (x + r) % 2 ^ 64 else 0) + t
      ≡ (if p then x else 0) + t + ((if q then r else 0) + 0)
absorbed true true true x r t d e h = omega arith
absorbed false false false x r t d e h = omega arith
absorbed true false q x r t d e h = cc
absorbed false true q x r t d e h = cc
absorbed true true false x r t d e h = cc
absorbed false false true x r t d e h = cc

module _ {p : Record → Bool} {same : Record → Record → Bool} {fresh : Record → Record}
    (g : Grouping p same fresh) where
  picked_bytes-group_record :
      (r : Record) (rows : List Record)
      → picked_bytes p rows + picked_bytes p (r ∷ []) < 2 ^ 64
      → picked_bytes p (group_record same fresh r rows)
        ≡ picked_bytes p rows + picked_bytes p (r ∷ [])
  unfolding group_record
  picked_bytes-group_record r [] h = rw (g.begins r, g.empty r) (begun (p r) r.bytes (omega arith))
  picked_bytes-group_record r (x ∷ xs) h = elim (Bool-cases (same x (fresh r))) [
    | inl e ↦ rw e (
        absorbed (p x) (p (absorb x r)) (p r) x.bytes r.bytes (picked_bytes p xs) (g.absorbs x r)
          (g.joins x r e) h)
    | inr e ↦ rw e (omega (arith, picked_bytes-group_record r xs))
  ]

  pub picked_bytes-group_records :
      (rows rs : List Record)
      → picked_bytes p rows + picked_bytes p rs < 2 ^ 64
      → picked_bytes p (group_records same fresh rows rs) ≡ picked_bytes p rows + picked_bytes p rs
  unfolding group_records
  picked_bytes-group_records rows [] h = omega arith
  picked_bytes-group_records rows (r ∷ rs) h =
      let here = picked_bytes-group_record r rows (omega arith) in
      let rest = picked_bytes-group_records (group_record same fresh r rows) rs (omega arith) in
      omega arith

same_series_trans : (k a b : Record) → same_series a b ≡ true → same_series k a ≡ same_series k b
same_series_trans k a b h = grind (
  arith,
  eq_iff a.instance_name b.instance_name,
  eq_iff a.scope b.scope,
  eq_iff a.name b.name,
  eq_iff a.direction b.direction,
)

module _ (location : Location) (period : String) (window : TimeRange) (now : Time) where
  by_series :
      (k : Record) → Grouping (same_series k) same_series (window_record location period window now)
  by_series k = record {
    begins = λ r. refl;
    empty = λ r. refl;
    joins = λ x r. same_series_trans k x r;
    absorbs = λ x r. refl;
  }

  -- The aggregated records of an instance, scope, name and direction have together the bytes of the
  -- records of it that were given, as long as these are below 2 ^ 64.
  pub aggregate_records_lem :
      (k : Record) (rs : List Record)
      → picked_bytes (same_series k) rs < 2 ^ 64
      → picked_bytes (same_series k) (aggregate_records location rs period window now)
        ≡ picked_bytes (same_series k) rs
  unfolding aggregate_records stable_record_order
  aggregate_records_lem k rs h =
      let sum = picked_bytes-group_records (by_series k) [] rs (omega arith) in
      let same = total-sort record_before (λ r. if same_series k r then r.bytes else 0) in
      rw (same (group_records same_series (window_record location period window now) [] rs))
        (omega arith)
