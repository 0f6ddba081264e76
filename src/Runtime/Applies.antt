-- ===== src/Runtime/Applies.antt =====
-- internal/runtime/apply.go. An error is its format; `none` is nil.
pub mod Steps
pub mod Atomic
pub mod Done
pub mod Entries
pub mod Recorded
use sbox_manager.Common.{
  List, Option, Outcome, String, [], failure, false, has, if◌then◌else◌, insert, keep, map, none,
  not, some, success, true, ◌++◌, ◌∷◌,
}
use sbox_manager.Runtime.Manifests.{is_path_under, sort_manifest_files}
use sbox_manager.Runtime.Model.{
  ApplyResult, Change, Codec, DesiredFile, Disk, ManifestFile, Plan, RuntimeManifest, after_change,
  before_change, create, delete, disk_after, disk_with, disk_without, manifest_schema_name,
  manifest_version_number, next_fault, no_change, update,
}
use sbox_manager.Runtime.Plans.{by_relative, files_of, has_changes, in_target_scope, text_at}

module _ {B : Type 0} where
  -- `writeFileAtomic`: the file is replaced whole, by a rename; what fails before that leaves the
  -- old file, what fails after it (the owner, the directory's entry) the new one.
  unfoldable pub write_file_atomic : String → B → Disk B → Disk B × Option String
  write_file_atomic path b disk = elim (next_fault disk.faults) [
    | none ↦ (disk_with path b disk, none)
    | some fault ↦ elim fault [
      | before_change ↦ (disk_after disk, some "replace file %s: %w")
      | after_change ↦ (disk_with path b disk, some "sync directory %s: %w")
    ]
  ]

  unfoldable pub remove_managed_file : String → String → Disk B → Disk B × Option String
  remove_managed_file path generated disk =
      if not (is_path_under generated path)
      then (disk, some "refuse to delete file outside generated directory: %s")
      else elim (next_fault disk.faults) [
        | none ↦ (disk_without path disk, none)
        | some fault ↦ elim fault [
          | before_change ↦ (disk_after disk, some "delete generated file %s: %w")
          | after_change ↦ (disk_without path disk, some "sync directory %s: %w")
        ]
      ]

  -- One round of the loop of `ApplyPlan`.
  unfoldable pub apply_change : String → Change B → Disk B → Disk B × Option String
  apply_change generated change disk = elim change.action [
    | create ↦ write_file_atomic change.file.path change.contents disk
    | update ↦ write_file_atomic change.file.path change.contents disk
    | delete ↦ remove_managed_file change.file.path generated disk
    | no_change ↦ (disk, none)
  ]

  -- The loop: it ends at the first error.
  unfoldable pub apply_changes : String → List (Change B) → Disk B → Disk B × Option String
  apply_changes generated [] disk = (disk, none)
  apply_changes generated (c ∷ cs) disk =
      let (one_step, error) = apply_change generated c disk in
      elim error [ some e ↦ (one_step, some e) | none ↦ apply_changes generated cs one_step ]

-- The hashes of the manifest that are out of the scope.
unfoldable pub kept_hashes : List String → List (String × String) → List (String × String)
kept_hashes scope [] = []
kept_hashes scope ((k, v) ∷ m) =
    let rest = kept_hashes scope m in if has scope k then rest else (k, v) ∷ rest

-- `buildAppliedManifest`: first the files and hashes that are kept, then those of the plan.
module _ {B : Type 0} where
  unfoldable pub kept_files : Plan B → List ManifestFile
  kept_files plan =
      if plan.full_scope
      then []
      else keep
          (λ (f : ManifestFile).
            not (in_target_scope plan.full_scope plan.target_scope f.instance_name))
          (files_of plan.existing)

  unfoldable pub old_hashes : Plan B → List (String × String)
  old_hashes plan = if plan.full_scope then [] else elim plan.existing [
    | none ↦ []
    | some m ↦ kept_hashes plan.target_scope (elim m.instance_sha256 [ none ↦ [] | some h ↦ h ])
  ]

  unfoldable pub put_hashes :
      List (String × String)
      → List (DesiredFile B)
      → List (String × String)
      → List (String × String)
  put_hashes hashes [] m = m
  put_hashes hashes (d ∷ ds) m =
      put_hashes hashes ds (insert d.file.instance_name (text_at d.file.instance_name hashes) m)

  abbrev pub file_of : DesiredFile B → ManifestFile
  file_of d = d.file

  unfoldable pub applied_files : Plan B → List ManifestFile
  applied_files plan =
      map (λ (e : String × ManifestFile). e.1)
        (by_relative [] (kept_files plan ++ map file_of plan.desired_files))

  unfoldable pub build_applied_manifest : Plan B → String → RuntimeManifest
  build_applied_manifest plan generated_at = record {
    manifest_schema = manifest_schema_name;
    manifest_version = manifest_version_number;
    config_sha256 = plan.config_sha256;
    instance_sha256 = some (put_hashes plan.instance_sha256 plan.desired_files (old_hashes plan));
    generated_at = generated_at;
    files = sort_manifest_files (applied_files plan);
  }

module _ {B : Type 0} (codec : Codec B) where
  -- `writeManifest`.
  unfoldable pub write_manifest : String → RuntimeManifest → Disk B → Disk B × Option String
  write_manifest path manifest disk = write_file_atomic path (codec.encode_manifest manifest) disk

  -- `ApplyPlan`; the clock gives the text of the time.
  unfoldable pub apply_plan : Plan B → String → Disk B → Disk B × Outcome ApplyResult
  apply_plan plan now disk =
      let manifest = build_applied_manifest plan now in
      if not (has_changes plan)
      then (disk, success (record { manifest = plan.existing; changed = false }))
      else let (changed_disk, error) = apply_changes plan.generated_dir plan.changes disk in
        elim error [
          | some e ↦ (changed_disk, failure e)
          | none ↦
              let (last, e) = write_manifest plan.manifest_path manifest changed_disk in
              (
                last,
                elim e [
                  | some text ↦ failure text
                  | none ↦ success (record { manifest = some manifest; changed = true })
                ],
              )
        ]
