-- ===== src/Traffic/Cleanup/Retention.antt =====
-- internal/traffic/cleanup.go: what a cleanup removes, and what it leaves.
use sbox_manager.Common.{
  Bool, Bool-cases, List, Member, Member-keep, String, [], ap, arith, eq_iff, eq_refl, false,
  if◌then◌else◌, inl, inr, keep, length, ltb_ℤ, not, refl, true, ℕ, ℤ, ◌+◌, ◌==◌, ◌↔◌, ◌∙◌, ◌∷◌,
  ◌≡◌, ◌≢◌, ◌≤ℤ◌, ◌⊎◌,
}
use sbox_manager.Traffic.Cleanup.{CleanupResult, cleanup_cutoff, cleanup_one}
use sbox_manager.Traffic.Repository.{count_before, delete_before, is_before}
use sbox_manager.Traffic.Tables.{Db, SameTables, done, failed, statement_cases}
use sbox_manager.Traffic.Types.{Options, Record}
use sbox_manager.Traffic.Windows.{Location}

abbrev result_of : String → ℤ → ℕ → Bool → CleanupResult
result_of period cutoff count dry_run = record {
  period = period;
  count = count;
  dry_run = dry_run;
  cutoff = cutoff;
  deleted = not dry_run;
}

-- A record that a cleanup of a period up to a cutoff leaves.
abbrev pub IsRetained : String → ℤ → Record → Type 0
IsRetained period cutoff r = (r.period ≢ period) ⊎ (cutoff ≤ℤ r.start_ts)

is_before-IsRetained :
    (period : String) (cutoff : ℤ) (r : Record)
    → (not (is_before period cutoff r) ≡ true) ↔ IsRetained period cutoff r
is_before-IsRetained period cutoff r = elim (Bool-cases (r.period == period)) [
  | inr e ↦ rw e (λ h. inl (λ same. let bad = rw (same, eq_refl period) at e in cc), λ h. refl)
  | inl e ↦ elim (Bool-cases (ltb_ℤ r.start_ts cutoff)) [
    | inl f ↦
        rw (e, f)
          (
            λ h. absurd (let bad = h in cc),
            λ h. absurd (elim h [
              | inl other ↦ other ((eq_iff r.period period).0 e)
              | inr late ↦ ground (arith, late, f)
            ]),
          )
    | inr f ↦ rw (e, f) (λ h. inr (ground (arith, f)), λ h. refl)
  ]
]

-- What a cleanup that answers says and leaves: of the rows before it a dry run leaves all and a real
-- run leaves the retained ones; either counts the others.
abbrev pub Cleans : String → Bool → CleanupResult → Db → Db → Type 0
Cleans period dry_run result before after =
    (after.baselines ≡ before.baselines)
    × (result.deleted ≡ not dry_run)
    × (kept : List Record) × (after.records ≡ (if dry_run then before.records else kept))
    × (result.count + length kept ≡ length before.records)
    × ((r : Record) → Member r kept ↔ (Member r before.records × IsRetained period result.cutoff r))

split_count :
    (p : Record → Bool) (rs : List Record)
    → length (keep p rs) + length (keep (λ r. not (p r)) rs) ≡ length rs
split_count p [] = refl
split_count p (r ∷ rs) = elim (Bool-cases (p r)) [
  | inl e ↦ rw e (omega (arith, split_count p rs))
  | inr e ↦ rw e (omega (arith, split_count p rs))
]

rows_left :
    (period : String) (cutoff : ℤ) (rs : List Record) (r : Record)
    → Member r (keep (λ x. not (is_before period cutoff x)) rs)
      ↔ (Member r rs × IsRetained period cutoff r)
rows_left period cutoff rs r =
    let (out', back) = Member-keep (λ x. not (is_before period cutoff x)) r rs in
    let (late, early) = is_before-IsRetained period cutoff r in
    (λ m. let (there, holds) = out' m in (there, late holds), λ h. back (h.0, early h.1))

abbrev retained : String → ℤ → List Record → List Record
retained period cutoff = keep (λ r. not (is_before period cutoff r))

module _ (location : Location) where
  -- How a round ends: with a result, or with an error.
  abbrev pub CleanupEnds : Options → ℤ → Bool → String → Db → Type 0
  CleanupEnds options now dry_run period db =
      ((result : CleanupResult) × (d : Db) × (cleanup_one location options now dry_run period db
          ≡ (done result, d))
        × (result.cutoff ≡ cleanup_cutoff location period options now)
        × Cleans period dry_run result db d)
      ⊎ ((e : String) × (d : Db) × (cleanup_one location options now dry_run period db
            ≡ (failed e, d))
          × SameTables d db)

  -- A round of a cleanup, whichever statements fail, ends in one of two ways. Either it answers, with
  -- the cutoff of its period: then the records of other periods and those that do not start before
  -- the cutoff are retained, the count is that of the others, a real run leaves exactly the retained
  -- ones, and a dry run leaves all. Or it returns an error, and both tables are as they were.
  pub cleanup_one_lem :
      (options : Options) (now : ℤ) (dry_run : Bool) (period : String) (db : Db)
      → CleanupEnds options now dry_run period db
  unfolding cleanup_one count_before delete_before
  cleanup_one_lem options now true period db =
      let cutoff = cleanup_cutoff location period options now in
      elim (statement_cases "count traffic records to clean: %w"
        (λ (d : Db). (length (keep (is_before period cutoff) d.records), d)) db) [
          | inr (d, same, f) ↦ inr ("count traffic records to clean: %w", d, rw f refl, same)
          | inl (d, (same, based), f) ↦ inl (
            result_of period cutoff (length (keep (is_before period cutoff) d.records)) true,
            d,
            rw f refl,
            refl,
            (
              based,
              refl,
              retained period cutoff db.records,
              same,
              rw same (split_count (is_before period cutoff) db.records),
              rows_left period cutoff db.records,
            ),
          )
        ]
  cleanup_one_lem options now false period db =
      let cutoff = cleanup_cutoff location period options now in
      elim (statement_cases "count traffic records to clean: %w"
        (λ (d : Db). (length (keep (is_before period cutoff) d.records), d)) db) [
          | inr (d, same, f) ↦ inr ("count traffic records to clean: %w", d, rw f refl, same)
          | inl (d, (same, based), f) ↦
              elim (statement_cases "clean traffic records: %w"
                (λ (x : Db). (
                  length (keep (is_before period cutoff) x.records),
                  record x { records = retained period cutoff x.records },
                ))
                d) [
                  | inr (x, (same', based'), g) ↦ inr (
                    "clean traffic records: %w",
                    x,
                    rw (f, g) refl,
                    (same' ∙ same, based' ∙ based),
                  )
                  | inl (x, (same', based'), g) ↦ inl (
                    result_of period cutoff (length (keep (is_before period cutoff) x.records))
                        false,
                    record x { records = retained period cutoff x.records },
                    rw (f, g) refl,
                    refl,
                    (
                      based' ∙ based,
                      refl,
                      retained period cutoff db.records,
                      ap (retained period cutoff) (same' ∙ same),
                      rw (same' ∙ same) (split_count (is_before period cutoff) db.records),
                      rows_left period cutoff db.records,
                    ),
                  )
                ]
        ]
