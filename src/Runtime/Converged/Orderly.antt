-- ===== src/Runtime/Converged/Orderly.antt =====
-- internal/runtime: the circumstances of an application, and what a plan that is built is.
use sbox_manager.Common.{
  >>=-eq-success, All, Bool, Distinct, List, Member, Option, String, [], false, has, is_blank,
  lookup, map, some, sort_stable, success, success_injective, sym, traverse, ◌++◌, ◌≡◌,
}
use sbox_manager.Domain.Models.{GlobalConfig, Instance}
use sbox_manager.Runtime.Applies.Done.{paths_of}
use sbox_manager.Runtime.Applies.Recorded.{Valid}
use sbox_manager.Runtime.Manifests.{load_manifest}
use sbox_manager.Runtime.Model.{
  Change, Codec, DesiredFile, Disk, ManifestFile, Plan, RuntimeManifest,
}
use sbox_manager.Runtime.Plans.{
  build_changes, build_plan, by_relative, change_before, deletion, desired_before, desired_change,
  desired_file, draft_plan, files_of, instance_hashes, obsolete, relative_paths,
  select_target_instances,
}
use sbox_manager.Std.FilePaths.{join}

-- What the packages of Go promise: a manifest that is encoded is decoded again, and a hash is a text.
pub record CodecLaws {B : Type 0} (codec : Codec B) : Type 0 where
  pub decodes : (m : RuntimeManifest) → codec.decode_manifest (codec.encode_manifest m) ≡ some m
  pub hash_text : (b : B) → is_blank (codec.hash b) ≡ false

-- The circumstances of an application: all files can be read, the clock gives a text, no two
-- desired files share a relative path and no two changes a path, none of which is the manifest's;
-- the desired files can be recorded, and the manifest has them at their paths.
pub record IsOrderly {B : Type 0} (plan : Plan B) (disk : Disk B) (now : String) : Type 0 where
  pub readable : disk.unreadable ≡ []
  pub clock : is_blank now ≡ false
  pub relative_distinct : Distinct (relative_paths plan.desired_files)
  pub paths_distinct : Distinct (paths_of plan.changes)
  pub manifest_apart : has (paths_of plan.changes) plan.manifest_path ≡ false
  pub recordable : All (λ (d : DesiredFile B). Valid plan.generated_dir d.file) plan.desired_files
  pub same_paths :
      (d : DesiredFile B)
      → Member d plan.desired_files
      → (f : ManifestFile)
      → lookup d.file.relative_path (by_relative [] (files_of plan.existing)) ≡ some f
      → f.path ≡ d.file.path

module _ {B : Type 0} (codec : Codec B) where
  -- What a built plan is.
  pub record Built (global : GlobalConfig) (instances : List Instance) (target : String)
      (disk : Disk B) (plan : Plan B) : Type 0 where
    pub targets : List Instance
    pub scope : List String
    pub full_scope : Bool
    pub wanted : List (DesiredFile B)
    pub existing : Option RuntimeManifest
    pub changes : List (Change B)
    pub chosen : select_target_instances instances target ≡ success (targets, scope, full_scope)
    pub generated : traverse (desired_file codec global instances) targets ≡ success wanted
    pub loaded :
        load_manifest codec disk (join global.paths.runtime "manifest.json") global.paths.generated
        ≡ success existing
    pub compared :
        traverse
          (desired_change codec disk existing
            (codec.hash (codec.encode_global global))
            (instance_hashes codec [] targets)
            (by_relative [] (files_of existing)))
          (sort_stable desired_before wanted)
        ≡ success changes
    pub is_plan :
        plan ≡ record (draft_plan codec global target targets scope full_scope wanted existing) {
          changes = sort_stable change_before (
              changes
              ++ map (deletion codec.nil_bytes) (
                  obsolete full_scope scope
                    (sort_stable desired_before wanted)
                    (files_of existing)));
        }

  pub build_plan-Built :
      (global : GlobalConfig) (instances : List Instance) (target : String) (disk : Disk B)
      (plan : Plan B)
      → build_plan codec global instances target disk ≡ success plan
      → Built global instances target disk plan
  unfolding build_plan build_changes
  build_plan-Built global instances target disk plan h =
      let ((targets, scope, full_scope), chosen, h1) =
        >>=-eq-success (select_target_instances instances target) _ h in
      let (wanted, generated, h2) =
        >>=-eq-success (traverse (desired_file codec global instances) targets) _ h1 in
      let (existing, loaded, h3) =
        >>=-eq-success
          (load_manifest codec disk (join global.paths.runtime "manifest.json")
            global.paths.generated)
          _ h2 in
      let (changes, compared, h4) =
        >>=-eq-success
          (traverse
            (desired_change codec disk existing (codec.hash (codec.encode_global global))
              (instance_hashes codec [] targets) (by_relative [] (files_of existing)))
            (sort_stable desired_before wanted))
          _ h3 in
      record {
        targets = targets;
        scope = scope;
        full_scope = full_scope;
        wanted = wanted;
        existing = existing;
        changes = changes;
        chosen = chosen;
        generated = generated;
        loaded = loaded;
        compared = compared;
        is_plan = sym (success_injective h4);
      }
