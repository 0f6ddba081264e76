-- ===== src/Traffic/Queries/Subtotals.antt =====
-- internal/traffic/collector.go: the subtotal that `AddInstanceSubtotal` adds.
use sbox_manager.Common.{
  Bool-cases, List, [], arith, eq_iff, eqb_ℤ→eq, if◌then◌else◌, inl, inr, keep, refl, total-append,
  total-sort, true, ◌++◌, ◌+◌, ◌<◌, ◌^◌, ◌≡◌,
}
use sbox_manager.Traffic.Queries.{
  add_instance_subtotal, all_instances_record, is_single, same_slot, spans,
}
use sbox_manager.Traffic.Records.{group_records, record_before, stable_record_order}
use sbox_manager.Traffic.Records.Sums.{Grouping, picked_bytes, picked_bytes-group_records}
use sbox_manager.Traffic.Types.{Record}

same_slot_trans : (k a b : Record) → same_slot a b ≡ true → same_slot k a ≡ same_slot k b
same_slot_trans k a b h = grind (
  arith,
  eq_iff a.period b.period,
  eq_iff a.start_time b.start_time,
  eq_iff a.end_time b.end_time,
  eq_iff a.scope b.scope,
  eq_iff a.name b.name,
  eq_iff a.direction b.direction,
  eqb_ℤ→eq a.start_ts b.start_ts,
  eqb_ℤ→eq a.end_ts b.end_ts,
)

by_slot : (k : Record) → Grouping (same_slot k) same_slot all_instances_record
by_slot k = record {
  begins = λ r. refl;
  empty = λ r. refl;
  joins = λ x r. same_slot_trans k x r;
  absorbs = λ x r. refl;
}

-- Where records of two instances stand, `AddInstanceSubtotal` adds to each slot (a period with its
-- bounds, a scope, a name and a direction) exactly the bytes of the records of single instances in
-- it, as long as the sums are below 2 ^ 64; where they do not, it adds nothing.
pub add_instance_subtotal_lem :
    (k : Record) (rs : List Record)
    → picked_bytes (same_slot k) (keep is_single rs) < 2 ^ 64
    → picked_bytes (same_slot k) (add_instance_subtotal rs)
      ≡ picked_bytes (same_slot k) rs
        + (if spans (keep is_single rs) then picked_bytes (same_slot k) (keep is_single rs) else 0)
unfolding add_instance_subtotal stable_record_order
add_instance_subtotal_lem k rs h =
    let single = keep is_single rs in
    let slot = λ (r : Record). if same_slot k r then r.bytes else 0 in
    let added = group_records same_slot all_instances_record [] single in
    let sum = picked_bytes-group_records (by_slot k) [] single (omega arith) in
    elim (Bool-cases (spans single)) [
      | inl e ↦
          rw (e, total-sort record_before slot (rs ++ added), total-append slot rs added)
            (omega arith)
      | inr e ↦ rw e (omega arith)
    ]
