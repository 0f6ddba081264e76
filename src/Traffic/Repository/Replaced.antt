-- ===== src/Traffic/Repository/Replaced.antt =====
-- internal/traffic/repository.go: what `ReplaceWindowRecords` leaves.
use sbox_manager.Common.{
  Bool, Bool-cases, List, Member, Member-append_iff, Member-keep, String, [], any, ap, append-nil,
  append_assoc, arith, eq_iff, eq_refl, eqb_ℤ, eqb_ℤ→eq, false, has, has-Member, inl, inr, is_empty,
  keep, negsuc, not, or-false, pos, refl, sym, true, ℤ, ◌&&◌, ◌++◌, ◌==◌, ◌||◌, ◌↔◌, ◌∙◌, ◌∷◌, ◌≡◌,
  ◌≢◌, ◌⊎◌,
}
use sbox_manager.Traffic.Repository.{create_row, create_rows, in_window, replace_window_records}
use sbox_manager.Traffic.Tables.{
  Db, IsHealthy, Result, SameTables, done, failed, same_record, settle, statement_cases,
  statement_healthy, transaction,
}
use sbox_manager.Traffic.Types.{Record, TimeRange, unix}

-- The rows that the unique index accepts one after the other.
abbrev pub creatable : List Record → List Record → Bool
creatable rows [] = true
creatable rows (r ∷ rs) = not (any (λ x. same_record x r) rows) && creatable (rows ++ r ∷ []) rs

not-and-true : (p q : Bool) → (not p && q) ≡ true → (p ≡ false) × (q ≡ true)
not-and-true p q h = ground arith

create_rows_healthy :
    (rs : List Record) (db : Db)
    → IsHealthy db
    → creatable db.records rs ≡ true
    → create_rows rs db ≡ (done tt, record db { records = db.records ++ rs })
unfolding create_rows create_row
create_rows_healthy [] db h k = rw (append-nil db.records)
create_rows_healthy (r ∷ rs) db h k =
    let (fresh, rest) = not-and-true (any (λ x. same_record x r) db.records) _ k in
    let after = record db { records = db.records ++ r ∷ [] } in
    rw (statement_healthy _ _ db h)
      (rw (fresh, create_rows_healthy rs after h rest, append_assoc db.records (r ∷ []) rs))

-- The rows are added behind the others, or an error ends the loop.
create_rows_cases :
    (rs : List Record) (db : Db)
    → ((d : Db) × (create_rows rs db ≡ (done tt, d))
        × (d.records ≡ db.records ++ rs)
        × (d.baselines ≡ db.baselines))
      ⊎ ((d : Db) × (e : String) × (create_rows rs db ≡ (failed e, d)))
unfolding create_rows create_row
create_rows_cases [] db = inl (db, refl, sym (append-nil db.records), refl)
create_rows_cases (r ∷ rs) db = elim (Bool-cases (any (λ x. same_record x r) db.records)) [
  | inl e ↦ inr (db, "write traffic aggregate: %w", rw e refl)
  | inr e ↦
      elim (statement_cases {A = Unit {0}} "write traffic aggregate: %w"
        (λ d. (tt, record d { records = d.records ++ r ∷ [] })) db) [
          | inr (d, _, f) ↦ inr (d, "write traffic aggregate: %w", rw (e, f) refl)
          | inl (d, (same, based), f) ↦
              elim (create_rows_cases rs (record d { records = d.records ++ r ∷ [] })) [
                | inr (d', message, g) ↦ inr (d', message, rw (e, f, g) refl)
                | inl (d', g, all, kept) ↦ inl (
                  d',
                  rw (e, f, g) refl,
                  all ∙ rw same (append_assoc db.records (r ∷ []) rs),
                  kept ∙ based,
                )
              ]
        ]
]

-- A row that a replacement leaves alone: its period, its start or its instance is another.
abbrev pub IsElsewhere : String → List String → TimeRange → Record → Type 0
IsElsewhere period instances window r =
    (r.period ≢ period)
    ⊎ (r.start_ts ≢ unix window.start)
    ⊎ ((is_empty instances ≡ false) × ¬ (Member r.instance_name instances))

eqb_ℤ_self : (a : ℤ) → eqb_ℤ a a ≡ true
eqb_ℤ_self (pos n) = ground arith
eqb_ℤ_self (negsuc n) = ground arith

in_window-IsElsewhere :
    (period : String) (instances : List String) (window : TimeRange) (r : Record)
    → (not (in_window period instances window r) ≡ true) ↔ IsElsewhere period instances window r
in_window-IsElsewhere period instances window r = elim (Bool-cases (r.period == period)) [
  | inr e ↦ rw e (λ h. inl (λ same. let bad = rw (same, eq_refl period) at e in cc), λ h. refl)
  | inl e ↦ elim (Bool-cases (eqb_ℤ r.start_ts (unix window.start))) [
    | inr f ↦
        rw (e, f)
          (
            λ h. inr (inl (λ same. let bad = rw (same, eqb_ℤ_self (unix window.start)) at f in cc)),
            λ h. refl,
          )
    | inl f ↦ elim (Bool-cases (is_empty instances || has instances r.instance_name)) [
      | inl g ↦
          rw (e, f, g)
            (
              λ h. absurd (let bad = h in cc),
              λ h. absurd (elim h [
                | inl other ↦ other ((eq_iff r.period period).0 e)
                | inr (inl other) ↦ other (eqb_ℤ→eq r.start_ts (unix window.start) f)
                | inr (inr (some', other)) ↦
                    other ((has-Member r.instance_name instances).0 (rw some' at g))
              ]),
            )
      | inr g ↦
          let (full, absent) = or-false (is_empty instances) _ g in
          rw (e, f, g)
            (
              λ h. inr (
                  inr (
                    full,
                    λ m. let bad = rw ((has-Member r.instance_name instances).1 m) at absent in cc,
                  )),
              λ h. refl,
            )
    ]
  ]
]

abbrev pub outside : String → List String → TimeRange → List Record → List Record
outside period instances window = keep (λ r. not (in_window period instances window r))

replace_window_records_healthy :
    (period : String) (instances : List String) (window : TimeRange) (rs : List Record) (db : Db)
    → IsHealthy db
    → creatable (outside period instances window db.records) rs ≡ true
    → replace_window_records period instances window rs db
      ≡ (done tt, record db { records = outside period instances window db.records ++ rs })
unfolding replace_window_records transaction settle
replace_window_records_healthy period instances window rs db h k = rw (statement_healthy _ _ db h) (
    rw (
      create_rows_healthy rs (record db { records = outside period instances window db.records }) h
        k))

-- The rows after a replacement: those that stood elsewhere, and the new ones.
abbrev pub Replaces : String → List String → TimeRange → List Record → Db → Db → Type 0
Replaces period instances window rs before after =
    (after.baselines ≡ before.baselines)
    × ((r : Record)
        → Member r after.records
          ↔ ((Member r before.records × IsElsewhere period instances window r) ⊎ Member r rs))

outside-Replaces :
    (period : String) (instances : List String) (window : TimeRange) (rs : List Record) (db d : Db)
    → d.records ≡ outside period instances window db.records ++ rs
    → d.baselines ≡ db.baselines
    → Replaces period instances window rs db d
outside-Replaces period instances window rs db d all based = (
  based,
  λ r.
      let stays = λ (x : Record). not (in_window period instances window x) in
      let (split', join') = Member-append_iff r (outside period instances window db.records) rs in
      let (out', back) = Member-keep stays r db.records in
      let (apart', near) = in_window-IsElsewhere period instances window r in
      rw all (
        λ m. elim (split' m) [
          | inl k ↦ let (there, holds) = out' k in inl (there, apart' holds)
          | inr k ↦ inr k
        ],
        λ h. elim h [
          | inl (there, elsewhere) ↦ join' (inl (back (there, near elsewhere)))
          | inr k ↦ join' (inr k)
        ],
      ),
)

refused-unfit :
    (period : String) (instances : List String) (window : TimeRange) (rs : List Record) (db d : Db)
    (e : String)
    → replace_window_records period instances window rs db ≡ (failed e, d)
    → ¬ (IsHealthy db × (creatable (outside period instances window db.records) rs ≡ true))
refused-unfit period instances window rs db d e h (healthy, fit) =
    let bad = sym h ∙ replace_window_records_healthy period instances window rs db healthy fit in
    let worse = ap (λ (r : Result (Unit {0}) × Db). r.0) bad in cc

-- How a replacement ends: with the rows replaced, or with an error.
abbrev pub ReplaceEnds : String → List String → TimeRange → List Record → Db → Type 0
ReplaceEnds period instances window rs db =
    ((d : Db) × (replace_window_records period instances window rs db ≡ (done tt, d))
      × Replaces period instances window rs db d)
    ⊎ ((d : Db) × (e : String) × (replace_window_records period instances window rs db
          ≡ (failed e, d))
        × SameTables d db
        × ¬ (IsHealthy db × (creatable (outside period instances window db.records) rs ≡ true)))

-- `ReplaceWindowRecords`, whichever statements fail, ends in one of two ways. It succeeds, and then
-- the rows are exactly those from before that have another period, another start or (where instances
-- are named) another instance, and the new rows, and the baselines are as they were. Or it returns an
-- error, both tables are as they were, and a statement failed or the unique index refused a new row.
pub replace_window_records_lem :
    (period : String) (instances : List String) (window : TimeRange) (rs : List Record) (db : Db)
    → ReplaceEnds period instances window rs db
unfolding replace_window_records transaction settle
replace_window_records_lem period instances window rs db =
    elim (statement_cases {A = Unit {0}} "delete old traffic aggregate: %w"
      (λ d. (
        tt,
        record d { records = keep (λ r. not (in_window period instances window r)) d.records },
      ))
      db) [
        | inr (d, same, f) ↦
            let after = record d { records = db.records; baselines = db.baselines } in
            let message : String = "delete old traffic aggregate: %w" in
            inr (
              after,
              message,
              rw f refl,
              (refl, refl),
              refused-unfit period instances window rs db after message (rw f refl),
            )
        | inl (d, (same, based), f) ↦
            elim (create_rows_cases rs
              (record d { records = outside period instances window d.records })) [
                | inr (d', e, g) ↦
                    let after = record d' { records = db.records; baselines = db.baselines } in
                    inr (
                      after,
                      e,
                      rw (f, g) refl,
                      (refl, refl),
                      refused-unfit period instances window rs db after e (rw (f, g) refl),
                    )
                | inl (d', g, all, kept) ↦ inl (
                  d',
                  rw (f, g) refl,
                  outside-Replaces period instances window rs db d'
                      (all ∙ ap (λ (x : List Record). outside period instances window x ++ rs) same)
                      (kept ∙ based),
                )
              ]
      ]
