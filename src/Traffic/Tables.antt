-- ===== src/Traffic/Tables.antt =====
-- internal/traffic/repository.go: the two tables, the statements on them, and transactions. The
-- database engine is not part of the program: a statement may fail, by the list of `faults`, and
-- the sum that it stores is the engine's.
use sbox_manager.Common.{
  Bool, List, Option, String, [], eqb_ℤ, false, if◌then◌else◌, inl, inr, none, refl, some, true, ℕ,
  ◌&&◌, ◌+◌, ◌<◌, ◌==◌, ◌^◌, ◌||◌, ◌∷◌, ◌≡◌, ◌⊎◌,
}
use sbox_manager.Traffic.Types.{Baseline, Counter, Record, Time}

-- How the engine adds to a stored 64-bit integer: exactly, while the sum is below 2 ^ 63.
pub record Engine : Type 0 where
  pub sum : ℕ → ℕ → ℕ
  pub sum_exact : (a b : ℕ) → a + b < 2 ^ 63 → sum a b ≡ a + b

pub record Db : Type 0 where
  pub records : List Record
  pub baselines : List Baseline
  -- `true` at the head: the next statement fails.
  pub faults : List Bool

pub data Result {ℓ} (A : Type ℓ) : Type ℓ where
  done : A → Result A
  failed : String → Result A

abbrev pub Stmt {ℓ} : Type ℓ → Type ℓ
Stmt A = Db → Result A × Db

abbrev pub next {ℓ κ} :
    {A : Type ℓ} {B : Type κ} → Result A × Db → (A → Db → Result B × Db) → Result B × Db
next (done a, db) f = f a db
next (failed e, db) f = (failed e, db)

unfoldable pub succeed {ℓ} : {A : Type ℓ} → A × Db → Result A × Db
succeed (a, db) = (done a, db)

unfoldable pub attempt {ℓ} : {A : Type ℓ} → List Bool → String → (Db → A × Db) → Stmt A
unfolding succeed
attempt [] message act db = succeed (act db)
attempt (true ∷ rest) message act db = (failed message, record db { faults = rest })
attempt (false ∷ rest) message act db = succeed (act (record db { faults = rest }))

-- A statement: the engine's error with its message, or the effect.
unfoldable pub statement {ℓ} : {A : Type ℓ} → String → (Db → A × Db) → Stmt A
unfolding attempt
statement message act db = attempt db.faults message act db

-- A database on which no statement fails.
abbrev pub IsHealthy : Db → Type 0
IsHealthy db = db.faults ≡ []

-- Where no statement fails, a statement has its effect.
pub statement_healthy {ℓ} :
    {A : Type ℓ} (message : String) (act : Db → A × Db) (db : Db)
    → IsHealthy db
    → statement message act db ≡ (done (act db).0, (act db).1)
unfolding statement
statement_healthy message act db h = rw (h, attempt)

-- The two tables are the same in both.
abbrev pub SameTables : Db → Db → Type 0
SameTables a b = (a.records ≡ b.records) × (a.baselines ≡ b.baselines)

-- A statement has its effect on the tables, or fails and leaves them.
pub statement_cases {ℓ} :
    {A : Type ℓ} (message : String) (act : Db → A × Db) (db : Db)
    → ((d : Db) × SameTables d db × (statement message act db ≡ (done (act d).0, (act d).1)))
      ⊎ ((d : Db) × SameTables d db × (statement message act db ≡ (failed message, d)))
unfolding statement attempt succeed
statement_cases {A} message act db = by_faults db.faults
  where
    by_faults :
        (faults : List Bool)
        → ((d : Db) × SameTables d db
            × (attempt faults message act db ≡ (done (act d).0, (act d).1)))
          ⊎ ((d : Db) × SameTables d db × (attempt faults message act db ≡ (failed message, d)))
    by_faults [] = inl (db, (refl, refl), refl)
    by_faults (true ∷ rest) = inr (record db { faults = rest }, (refl, refl), refl)
    by_faults (false ∷ rest) = inl (record db { faults = rest }, (refl, refl), refl)

unfoldable pub settle {ℓ} : {A : Type ℓ} → Db → Result A × Db → Result A × Db
settle before (done a, db) = (done a, db)
settle before (failed e, db) =
    (failed e, record db { records = before.records; baselines = before.baselines })

-- `Transaction`: an error takes both tables back.
unfoldable pub transaction {ℓ} : {A : Type ℓ} → Stmt A → Stmt A
unfolding settle
transaction body db = settle db (body db)

-- An error takes both tables back; the tables change only on success.
pub transaction-failed {ℓ} :
    {A : Type ℓ} (body : Stmt A) (db : Db) {e : String}
    → (transaction body db).0 ≡ failed e
    → ((transaction body db).1.records ≡ db.records)
      × ((transaction body db).1.baselines ≡ db.baselines)
unfolding transaction
transaction-failed {A} body db {e} h = back (body db) h
  where
    back :
        (r : Result A × Db)
        → (settle db r).0 ≡ failed e
        → ((settle db r).1.records ≡ db.records) × ((settle db r).1.baselines ≡ db.baselines)
    back (done a, db') k = cc
    back (failed m, db') k = (refl, refl)

-- The unique index of the records.
abbrev pub same_record : Record → Record → Bool
same_record a b =
    a.instance_name == b.instance_name
    && a.period == b.period
    && eqb_ℤ a.start_ts b.start_ts
    && a.scope == b.scope
    && a.name == b.name
    && a.direction == b.direction

abbrev pub baseline_of : String → Counter → Baseline → Bool
baseline_of instance_name c b =
    b.instance_name == instance_name
    && b.scope == c.scope
    && b.name == c.name
    && b.direction == c.direction

module _ (engine : Engine) where
  -- `addRecordTx`: on a conflict the bytes are added and the reset flag is joined.
  unfoldable pub add_row : Record → List Record → List Record
  add_row r [] = r ∷ []
  add_row r (x ∷ xs) =
      let rest = add_row r xs in
      if same_record x r
      then record x {
        server = r.server;
        end_ts = r.end_ts;
        end_time = r.end_time;
        bytes = engine.sum x.bytes r.bytes;
        reset_detected = x.reset_detected || r.reset_detected;
      }
        ∷ xs
      else x ∷ rest

-- `ReplaceRecords`: on a conflict the new values stand.
unfoldable pub replace_row : Record → List Record → List Record
replace_row r [] = r ∷ []
replace_row r (x ∷ xs) =
    let rest = replace_row r xs in
    if same_record x r
    then record x {
      server = r.server;
      end_ts = r.end_ts;
      end_time = r.end_time;
      bytes = r.bytes;
      reset_detected = r.reset_detected;
    }
      ∷ xs
    else x ∷ rest

-- `upsertBaselineTx`.
unfoldable pub put_baseline : String → Counter → Time → List Baseline → List Baseline
put_baseline instance_name c now [] =
    (record {
      instance_name = instance_name;
      scope = c.scope;
      name = c.name;
      direction = c.direction;
      value = c.value;
      updated_at = now;
    })
    ∷ []
put_baseline instance_name c now (b ∷ bs) =
    let rest = put_baseline instance_name c now bs in
    if baseline_of instance_name c b
    then record b { value = c.value; updated_at = now } ∷ bs
    else b ∷ rest

-- `getBaselineTx`.
unfoldable pub baseline_value : String → Counter → List Baseline → Option ℕ
baseline_value instance_name c [] = none
baseline_value instance_name c (b ∷ bs) =
    let rest = baseline_value instance_name c bs in
    if baseline_of instance_name c b then some b.value else rest
