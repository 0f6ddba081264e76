-- ===== src/Runtime/Converged/Again.antt =====
-- internal/runtime: the plan behind an application has nothing to do.
use sbox_manager.Common.{
  All, All-Member, All-keep, All-of_members, All-sort_stable, Ascending, Bool-cases, List, Member,
  String, [], any-false, ap, eq_refl, false, inl, inr, insert, is_blank, lookup, lookup-insert, map,
  none, refl, some, sort_stable, sort_stable-Ascending, success, text_lt_asym, ◌++◌, ◌∷◌, ◌≡◌,
}
use sbox_manager.Domain.Models.{GlobalConfig, Instance}
use sbox_manager.Runtime.Applies.{
  applied_files, apply_plan, build_applied_manifest, file_of, kept_files, old_hashes, put_hashes,
}
use sbox_manager.Runtime.Applies.Done.{apply_plan_done, effects}
use sbox_manager.Runtime.Applies.Recorded.{
  All-applied_files, Valid, applied_files-Member, applied_files-obsolete, put_hashes-Member,
  validate_files-none,
}
use sbox_manager.Runtime.Applies.Steps.{Leaves}
use sbox_manager.Runtime.Converged.Content.{Present-after}
use sbox_manager.Runtime.Converged.Loading.{
  Valid-named, action_of_file_same, load_manifest-Valid, text_at-some, traverse-map,
}
use sbox_manager.Runtime.Converged.Orderly.{Built, CodecLaws, IsOrderly, build_plan-Built}
use sbox_manager.Runtime.Manifests.{
  earlier_path, load_manifest, sort_manifest_files, validate_manifest,
}
use sbox_manager.Runtime.Model.{
  ApplyResult, Change, Codec, DesiredFile, Disk, ManifestFile, Plan, RuntimeManifest, no_change,
  read_file,
}
use sbox_manager.Runtime.Plans.{
  build_changes, build_plan, by_relative, change_before, desired_action, desired_before,
  desired_change, draft_plan, files_of, has_changes, hash_at, instance_hashes, is_change, obsolete,
  text_at,
}
use sbox_manager.Std.FilePaths.{join}

module _ {B : Type 0} (codec : Codec B) (laws : CodecLaws codec) {global : GlobalConfig}
    {instances : List Instance} {target : String} {disk : Disk B} {plan : Plan B} {now : String}
    (built : Built codec global instances target disk plan)
    (orderly : IsOrderly plan disk now) where
  recorded : RuntimeManifest
  recorded = build_applied_manifest plan now

  wanted_again : List (DesiredFile B)
  wanted_again = sort_stable desired_before built.wanted

  idle : DesiredFile B → Change B
  idle d = record { action = no_change; file = d.file; contents = d.contents }

  -- The fields of the plan.
  its_generated_dir : plan.generated_dir ≡ global.paths.generated
  its_generated_dir = ap (λ (p : Plan B). p.generated_dir) built.is_plan

  its_manifest_path : plan.manifest_path ≡ join global.paths.runtime "manifest.json"
  its_manifest_path = ap (λ (p : Plan B). p.manifest_path) built.is_plan

  its_config : plan.config_sha256 ≡ codec.hash (codec.encode_global global)
  its_config = ap (λ (p : Plan B). p.config_sha256) built.is_plan

  its_hashes : plan.instance_sha256 ≡ instance_hashes codec [] built.targets
  its_hashes = ap (λ (p : Plan B). p.instance_sha256) built.is_plan

  its_existing : plan.existing ≡ built.existing
  its_existing = ap (λ (p : Plan B). p.existing) built.is_plan

  its_desired : plan.desired_files ≡ wanted_again
  unfolding wanted_again
  its_desired = ap (λ (p : Plan B). p.desired_files) built.is_plan

  kept-Valid : All (Valid plan.generated_dir) (kept_files plan)
  unfolding kept_files
  kept-Valid = elim (Bool-cases plan.full_scope) [
    | inl e ↦ rw e tt
    | inr e ↦ rw e (
        All-keep (Valid plan.generated_dir) _ (files_of plan.existing) (
          rw (its_existing, its_generated_dir)
            (load_manifest-Valid codec disk _ global.paths.generated built.existing built.loaded)))
  ]

  desired-Valid :
      (ds : List (DesiredFile B))
      → All (λ (d : DesiredFile B). Valid plan.generated_dir d.file) ds
      → All (Valid plan.generated_dir) (map file_of ds)
  desired-Valid [] h = tt
  desired-Valid (d ∷ ds) (e, h) = (e, desired-Valid ds h)

  recorded_accepted : validate_manifest recorded plan.generated_dir ≡ none
  unfolding recorded build_applied_manifest validate_manifest
  recorded_accepted =
      let config : is_blank plan.config_sha256 ≡ false =
        rw its_config (laws.hash_text (codec.encode_global global)) in
      rw config (
        rw (orderly.clock) (
          validate_files-none plan.generated_dir (sort_manifest_files (applied_files plan))
            (All-applied_files plan (Valid plan.generated_dir) kept-Valid
              (desired-Valid plan.desired_files orderly.recordable))
            (in_order (applied_files plan))))
    where
      in_order : (fs : List ManifestFile) → Ascending earlier_path (sort_manifest_files fs)
      in_order fs =
          unfold sort_manifest_files in
          sort_stable-Ascending earlier_path (λ a b. text_lt_asym a.relative_path b.relative_path)
            fs

  recorded_config : recorded.config_sha256 ≡ plan.config_sha256
  unfolding recorded build_applied_manifest
  recorded_config = refl

  recorded_files : recorded.files ≡ sort_manifest_files (applied_files plan)
  unfolding recorded build_applied_manifest
  recorded_files = refl

  recorded_hash :
      (d : DesiredFile B)
      → Member d plan.desired_files
      → hash_at d.file.instance_name recorded.instance_sha256
        ≡ text_at d.file.instance_name plan.instance_sha256
  unfolding recorded build_applied_manifest
  recorded_hash d m =
      text_at-some d.file.instance_name
        (put_hashes plan.instance_sha256 plan.desired_files (old_hashes plan)) _
        (put_hashes-Member plan.instance_sha256 d plan.desired_files (old_hashes plan) m)

  module _ (behind : Disk B)
      (left : Leaves disk
        (insert plan.manifest_path
          (codec.encode_manifest recorded)
          (effects plan.changes disk.files))
        behind) where
    all_readable : (path : String) → read_file behind path ≡ success (lookup path behind.files)
    all_readable path = rw (left.1, orderly.readable) refl

    loaded_again :
        load_manifest codec behind plan.manifest_path plan.generated_dir ≡ success (some recorded)
    unfolding load_manifest
    loaded_again =
        let stored : lookup plan.manifest_path behind.files
            ≡ some (codec.encode_manifest recorded) =
          rw
            (
              left.0,
              lookup-insert plan.manifest_path plan.manifest_path (codec.encode_manifest recorded)
                  (effects plan.changes disk.files),
            )
            (rw (eq_refl plan.manifest_path) refl) in
        rw (all_readable plan.manifest_path, stored)
          (rw (laws.decodes recorded) (rw recorded_accepted refl))

    action_again :
        (d : DesiredFile B)
        → Member d plan.desired_files
        → desired_action codec behind
            (some recorded)
            plan.config_sha256
            (text_at d.file.instance_name plan.instance_sha256)
            d
            (some d.file)
          ≡ success no_change
    unfolding desired_action
    action_again d m =
        let (b, stored, same) =
          Present-after codec built orderly d (codec.encode_manifest recorded) m in
        let here : lookup d.file.path behind.files ≡ some b = rw left.0 stored in
        let valid = All-Member _ d plan.desired_files orderly.recordable m in
        rw (Valid-named plan.generated_dir d.file valid, desired_action)
          (rw (all_readable d.file.path, here)
            (rw
              (action_of_file_same codec recorded
                (text_at d.file.instance_name plan.instance_sha256) plan.config_sha256 d b same
                recorded_config (recorded_hash d m))
              refl))

    change_again :
        (d : DesiredFile B)
        → Member d plan.desired_files
        → desired_change codec behind
            (some recorded)
            plan.config_sha256
            plan.instance_sha256
            (by_relative [] recorded.files)
            d
          ≡ success (idle d)
    unfolding desired_change idle
    change_again d m =
        let found = applied_files-Member plan d orderly.relative_distinct m in
        let there : lookup d.file.relative_path (by_relative [] recorded.files) ≡ some d.file =
          rw recorded_files found in
        rw (there, desired_change) (rw (action_again d m) refl)

    changes_again :
        build_changes codec behind (record plan { existing = some recorded; changes = [] })
        ≡ success (record plan {
          existing = some recorded;
          changes = sort_stable change_before (map idle plan.desired_files ++ []);
        })
    unfolding build_changes
    changes_again =
        let all =
          traverse-map
            (desired_change codec behind (some recorded) plan.config_sha256 plan.instance_sha256
              (by_relative [] recorded.files))
            idle plan.desired_files (All-of_members _ plan.desired_files change_again) in
        let nothing : obsolete plan.full_scope plan.target_scope plan.desired_files recorded.files
            ≡ [] =
          rw recorded_files (applied_files-obsolete plan) in
        rw all (rw nothing refl)

    built_again :
        build_plan codec global instances target behind
        ≡ success (record plan {
          existing = some recorded;
          changes = sort_stable change_before (map idle plan.desired_files ++ []);
        })
    unfolding build_plan
    built_again =
        let load : load_manifest codec behind (join global.paths.runtime "manifest.json")
              global.paths.generated
            ≡ success (some recorded) =
          rw (its_manifest_path, its_generated_dir) at loaded_again in
        let same : record plan { existing = some recorded; changes = [] }
            ≡ draft_plan codec global target built.targets built.scope built.full_scope built.wanted
                (some recorded) =
          ap (λ (p : Plan B). record p { existing = some recorded; changes = [] }) built.is_plan in
        rw built.chosen (rw built.generated (rw load (rw (← same) changes_again)))

    idle_only :
        (ds : List (DesiredFile B))
        → All (λ (c : Change B). is_change c ≡ false) (map idle ds ++ [])
    unfolding idle
    idle_only [] = tt
    idle_only (d ∷ ds) = (refl, idle_only ds)

    nothing_to_do :
        (again : Plan B) × (build_plan codec global instances target behind ≡ success again)
        × (has_changes again ≡ false)
    unfolding has_changes
    nothing_to_do = (
      record plan {
        existing = some recorded;
        changes = sort_stable change_before (map idle plan.desired_files ++ []);
      },
      built_again,
      any-false is_change _ (
          All-sort_stable change_before _ (map idle plan.desired_files ++ [])
            (idle_only plan.desired_files)),
    )

-- Where a plan is built and applied without an error, in orderly circumstances, the plan that is then
-- built from the same configuration has no changes: all files and hashes are as it wants them.
pub apply_plan-converges :
    {B : Type 0} (codec : Codec B) (laws : CodecLaws codec) (global : GlobalConfig)
    (instances : List Instance) (target : String) (disk : Disk B) (plan : Plan B) (now : String)
    (r : ApplyResult)
    → build_plan codec global instances target disk ≡ success plan
    → IsOrderly plan disk now
    → (apply_plan codec plan now disk).1 ≡ success r
    → (again : Plan B) × (build_plan codec global instances target
          (apply_plan codec plan now disk).0
        ≡ success again)
      × (has_changes again ≡ false)
unfolding apply_plan build_plan
apply_plan-converges codec laws global instances target disk plan now r h orderly applied =
    elim (Bool-cases (has_changes plan)) [
      | inr e ↦ (plan, rw (e, apply_plan) h, e)
      | inl e ↦
          nothing_to_do codec laws (build_plan-Built codec global instances target disk plan h)
            orderly (apply_plan codec plan now disk).0
            (unfold recorded in apply_plan_done codec plan now disk r e applied)
    ]
