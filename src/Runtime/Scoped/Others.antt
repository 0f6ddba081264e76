-- ===== src/Runtime/Scoped/Others.antt =====
-- internal/runtime: a plan for one instance, applied.
use sbox_manager.Common.{
  All, All-Member, List, Member, Option, String, contains_code, false, inl, inr, lookup, place,
  refl, success, sym, ◌==◌, ◌∙◌, ◌≡◌, ◌≢◌, ◌⊎◌,
}
use sbox_manager.Domain.Models.{GlobalConfig, Instance}
use sbox_manager.Runtime.Applies.{apply_plan}
use sbox_manager.Runtime.Applies.Atomic.{
  Explained, apply_plan-Explained, as_it_was, deleted, written,
}
use sbox_manager.Runtime.Applies.Done.{apart}
use sbox_manager.Runtime.Model.{Change, Codec, Disk, ManifestFile, Plan}
use sbox_manager.Runtime.Plans.{build_plan, files_of, generated_path}
use sbox_manager.Runtime.Scoped.{OfTarget, build_plan-OfTarget}
use sbox_manager.Runtime.Scoped.Paths.{generated_path-injective}

-- What no change of the plan is for is as it was.
unaltered :
    {B : Type 0} {generated path : String} {changes : List (Change B)} {before after : Option B}
    → Explained generated path changes before after
    → ((c : Change B) → Member c changes → c.file.path ≡ path → ⊥)
    → after ≡ before
unaltered as_it_was none' = refl
unaltered (written c m same w e) none' = absurd (none' c m same)
unaltered (deleted c m same k u e) none' = absurd (none' c m same)

-- Applying a plan that was built for one instance, at any later state of the disk and whatever fails
-- on the way, leaves the generated file of every instance with another name as it is. The names have
-- no slash; the file is not the runtime manifest; and the manifest that the plan was built from does
-- not have that file under the name of the target.
pub apply_plan-build_plan :
    {B : Type 0} (codec : Codec B) (global : GlobalConfig) (instances : List Instance)
    (target other now : String) (disk later : Disk B) (plan : Plan B)
    → (target == "") ≡ false
    → build_plan codec global instances target disk ≡ success plan
    → contains_code b'/' target ≡ false
    → contains_code b'/' other ≡ false
    → other ≢ target
    → generated_path global.paths.generated other ≢ plan.manifest_path
    → All
        (λ (f : ManifestFile).
          (f.instance_name ≢ target) ⊎ (f.path ≢ generated_path global.paths.generated other))
        (files_of plan.existing)
    → lookup (generated_path global.paths.generated other) (apply_plan codec plan now later).0.files
      ≡ lookup (generated_path global.paths.generated other) later.files
apply_plan-build_plan codec global instances target other now disk later plan named built plain
      plain_other apart beside recorded =
    let path = generated_path global.paths.generated other in
    let of_target = build_plan-OfTarget codec global instances target disk plan named built in
    unaltered (apply_plan-Explained codec plan now path later beside) (λ c m same.
      elim (All-Member (OfTarget _ target _) c plan.changes of_target m) [
        | inl place ↦ apart (
            generated_path-injective global.paths.generated other target plain_other plain
              (sym same ∙ place))
        | inr (mine, listed') ↦
            elim (All-Member _ c.file (files_of plan.existing) recorded listed') [
              | inl foreign ↦ foreign mine
              | inr elsewhere ↦ elsewhere same
            ]
      ])
