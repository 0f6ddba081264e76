-- ===== src/Runtime/Lifecycle.antt =====
-- internal/runtime/lifecycle.go. The checker and the service manager are parameters; what is started
-- is listed.
use sbox_manager.Common.{List, Option, Outcome, String, [], failure, none, some, success, ◌∷◌}
use sbox_manager.Runtime.Applies.{apply_plan}
use sbox_manager.Runtime.Model.{ApplyResult, Codec, DesiredFile, Disk, Plan}
use sbox_manager.Runtime.Plans.{services}

module _ {B : Type 0} where
  -- `CheckPlan`: the first configuration that the checker refuses ends the loop.
  unfoldable pub check_files : (String → B → Option String) → List (DesiredFile B) → Option String
  check_files checker [] = none
  check_files checker (d ∷ ds) = elim (checker d.file.instance_name d.contents) [
    | some e ↦ some e
    | none ↦ check_files checker ds
  ]

-- What a start or a restart leaves: the disk, the services that the manager was called with, and
-- the result.
pub record Started (B : Type 0) : Type 0 where
  pub disk : Disk B
  pub called : Option (List String)
  pub result : Outcome ApplyResult

module _ {B : Type 0} (codec : Codec B) where
  -- `Start` and `Restart`: they differ in the call of the manager.
  unfoldable pub start_plan :
      Plan B
      → (String → B → Option String)
      → (List String → Option String)
      → String
      → Disk B
      → Started B
  start_plan plan checker manager now disk = elim (check_files checker plan.desired_files) [
    | some e ↦ record { disk = disk; called = none; result = failure e }
    | none ↦
        let (applied, result) = apply_plan codec plan now disk in
        elim result [
          | failure e ↦ record { disk = applied; called = none; result = failure e }
          | success r ↦ record {
            disk = applied;
            called = some (services plan);
            result = elim (manager (services plan)) [ some e ↦ failure e | none ↦ success r ];
          }
        ]
  ]
