-- ===== src/Runtime/Guarded.antt =====
-- internal/runtime/lifecycle.go: what comes before a service is started.
use sbox_manager.Common.{
  All, List, Option, Option-cases, Outcome-cases, String, [], failure, inl, inr, none, refl, some,
  success, ◌∷◌, ◌≡◌,
}
use sbox_manager.Runtime.Applies.{apply_plan}
use sbox_manager.Runtime.Lifecycle.{check_files, start_plan}
use sbox_manager.Runtime.Model.{ApplyResult, Codec, DesiredFile, Disk, Plan}
use sbox_manager.Runtime.Plans.{services}

module _ {B : Type 0} where
  abbrev pub Passed : (String → B → Option String) → DesiredFile B → Type 0
  Passed checker d = checker d.file.instance_name d.contents ≡ none

  check_files-Passed :
      (checker : String → B → Option String) (ds : List (DesiredFile B))
      → check_files checker ds ≡ none
      → All (Passed checker) ds
  unfolding check_files
  check_files-Passed checker [] h = tt
  check_files-Passed checker (d ∷ ds) h =
      elim (Option-cases (checker d.file.instance_name d.contents)) [
        | inr (text, e) ↦ let bad = rw (e, check_files) at h in cc
        | inl e ↦ (e, check_files-Passed checker ds (rw (e, check_files) at h))
      ]

-- `Start` and `Restart` call the service manager only where the checker passes every desired file and
-- the plan is applied without an error, and then with the plan's services; where the checker refuses a
-- file they leave the disk as it is, call nothing, and return an error.
pub start_plan_guarded :
    {B : Type 0} (codec : Codec B) (plan : Plan B) (checker : String → B → Option String)
    (manager : List String → Option String) (now : String) (disk : Disk B)
    → ((called : List String)
        → (start_plan codec plan checker manager now disk).called ≡ some called
        → (called ≡ services plan)
          × All (Passed checker) plan.desired_files
          × (r : ApplyResult) × ((apply_plan codec plan now disk).1 ≡ success r))
      × ((text : String)
          → check_files checker plan.desired_files ≡ some text
          → (start_plan codec plan checker manager now disk).disk ≡ disk
            × (start_plan codec plan checker manager now disk).called ≡ none
            × (start_plan codec plan checker manager now disk).result ≡ failure text)
unfolding start_plan
start_plan_guarded codec plan checker manager now disk = (
  λ called h. elim (Option-cases (check_files checker plan.desired_files)) [
    | inr (text, e) ↦ let bad = rw (e, start_plan) at h in cc
    | inl e ↦ elim (Outcome-cases (apply_plan codec plan now disk).1) [
      | inr (text, f) ↦ let bad = rw (e, f, start_plan) at h in cc
      | inl (r, f) ↦
          let same = rw (e, f, start_plan) at h in
          (cc (same), check_files-Passed checker plan.desired_files e, r, f)
    ]
  ],
  λ text e. (rw (e, start_plan) refl, rw (e, start_plan) refl, rw (e, start_plan) refl),
)
