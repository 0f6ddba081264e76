-- ===== src/Runtime/Plans.antt =====
-- internal/runtime/plan.go.
pub mod Found
use sbox_manager.Common.{
  Bool, List, Option, Outcome, String, [], any, failure, false, find_first, has, if◌then◌else◌,
  insert, keep, lookup, map, none, not, some, sort, sort_stable, success, text_lt, traverse, true,
  ◌&&◌, ◌++◌, ◌<>◌, ◌==◌, ◌>>=◌, ◌||◌, ◌∷◌,
}
use sbox_manager.Domain.Models.{GlobalConfig, Instance}
use sbox_manager.Generator.Builds.{build_config_with_instances}
use sbox_manager.Runtime.Manifests.{load_manifest, validate_relative_path}
use sbox_manager.Runtime.Model.{
  Action, Change, Codec, DesiredFile, Disk, ManifestFile, Plan, RuntimeManifest, action_text,
  create, delete, no_change, read_file, update,
}
use sbox_manager.Std.FilePaths.{join, rel}
use sbox_manager.Subscription.Inputs.{skipped}

-- `selectTargetInstances`: the instances, the scope, and whether all are meant.
unfoldable pub select_target_instances :
    List Instance → String → Outcome (List Instance × List String × Bool)
select_target_instances instances target =
    if target == ""
    then success (keep (λ (i : Instance). i.enabled) instances, [], true)
    else elim (find_first (λ (i : Instance). i.name == target) instances) [
      | none ↦ failure "instance %q does not exist"
      | some i ↦ success (i ∷ [], target ∷ [], false)
    ]

unfoldable pub relative_runtime_path : String → String → Outcome String
relative_runtime_path runtime file = elim (rel runtime file) [
  | none ↦ failure "calculate relative_path: %w"
  | some path ↦ elim (validate_relative_path path) [ none ↦ success path | some e ↦ failure e ]
]

abbrev pub instance_service : String → String
instance_service name = "sbox@" <> name <> ".service"

abbrev pub generated_path : String → String → String
generated_path generated name = join generated ("sing-box/" <> name <> ".json")

-- The last file of a manifest that has the relative path.
unfoldable pub by_relative :
    List (String × ManifestFile) → List ManifestFile → List (String × ManifestFile)
by_relative m [] = m
by_relative m (f ∷ fs) = by_relative (insert f.relative_path f m) fs

-- A map's value, or the zero value.
abbrev pub text_at : String → List (String × String) → String
text_at key m = elim (lookup key m) [ none ↦ "" | some v ↦ v ]

abbrev pub hash_at : String → Option (List (String × String)) → String
hash_at key none = ""
hash_at key (some m) = text_at key m

abbrev pub files_of : Option RuntimeManifest → List ManifestFile
files_of none = []
files_of (some m) = m.files

module _ {B : Type 0} (codec : Codec B) where
  -- One round of the loop over the target instances.
  unfoldable pub desired_file : GlobalConfig → List Instance → Instance → Outcome (DesiredFile B)
  desired_file global instances i = do
    config ← build_config_with_instances global instances i
    relative ←
        relative_runtime_path global.paths.runtime (generated_path global.paths.generated i.name)
    success (record {
      file = record {
        instance_name = i.name;
        path = generated_path global.paths.generated i.name;
        relative_path = relative;
        sha256 = codec.hash (codec.encode_config config);
        service = instance_service i.name;
      };
      contents = codec.encode_config config;
    })

  -- `InstanceSHA256`.
  unfoldable pub instance_hashes : List (String × String) → List Instance → List (String × String)
  instance_hashes m [] = m
  instance_hashes m (i ∷ is) =
      instance_hashes (insert i.name (codec.hash (codec.encode_instance i)) m) is

  -- The action where the file is there with the bytes `b`.
  unfoldable pub action_of_file :
      Option RuntimeManifest → String → String → DesiredFile B → ManifestFile → B → Action
  action_of_file manifest config_hash instance_hash desired existing b =
      if not (codec.hash b == desired.file.sha256) || not (existing.sha256 == desired.file.sha256)
      then update
      else elim manifest [
        | none ↦ update
        | some m ↦
            if not (m.config_sha256 == config_hash)
            then update
            else if not (hash_at desired.file.instance_name m.instance_sha256 == instance_hash)
            then update
            else no_change
      ]

  -- `desiredAction`; `existing` is the file of the manifest with the same relative path.
  unfoldable pub desired_action :
      Disk B
      → Option RuntimeManifest
      → String
      → String
      → DesiredFile B
      → Option ManifestFile
      → Outcome Action
  desired_action disk manifest config_hash instance_hash desired none = success create
  desired_action disk manifest config_hash instance_hash desired (some existing) =
      if existing.relative_path == "" then success create else do
        found ← read_file disk existing.path
        elim found [
          | none ↦ success create
          | some b ↦ success (action_of_file manifest config_hash instance_hash desired existing b)
        ]

  unfoldable pub desired_change :
      Disk B
      → Option RuntimeManifest
      → String
      → List (String × String)
      → List (String × ManifestFile)
      → DesiredFile B
      → Outcome (Change B)
  desired_change disk manifest config_hash hashes present desired = do
    action ←
        desired_action disk manifest config_hash (text_at desired.file.instance_name hashes) desired
          (lookup desired.file.relative_path present)
    success (record { action = action; file = desired.file; contents = desired.contents })

-- `inTargetScope`.
abbrev pub in_target_scope : Bool → List String → String → Bool
in_target_scope full_scope scope name = full_scope || has scope name

-- The texts without those that came before.
dedupe : List String → List String → List String
dedupe seen [] = []
dedupe seen (s ∷ ss) =
    let skipped = dedupe seen ss in
    let kept = s ∷ dedupe (s ∷ seen) ss in if has seen s then skipped else kept

module _ {B : Type 0} where
  -- `HasChanges`.
  abbrev pub is_change : Change B → Bool
  is_change c = not (action_text c.action == "no-change")

  unfoldable pub has_changes : Plan B → Bool
  has_changes plan = any is_change plan.changes

  abbrev pub relative_paths : List (DesiredFile B) → List String
  relative_paths = map (λ (d : DesiredFile B). d.file.relative_path)

  abbrev pub deletion : B → ManifestFile → Change B
  deletion nil_bytes file = record { action = delete; file = file; contents = nil_bytes }

  -- The files of the manifest in the scope that are desired no more.
  unfoldable pub obsolete :
      Bool → List String → List (DesiredFile B) → List ManifestFile → List ManifestFile
  obsolete full_scope scope desired = keep (λ (f : ManifestFile).
      in_target_scope full_scope scope f.instance_name
      && not (has (relative_paths desired) f.relative_path))

  -- The order of the changes.
  abbrev pub change_before : Change B → Change B → Bool
  change_before a b =
      if a.file.relative_path == b.file.relative_path
      then text_lt (action_text a.action) (action_text b.action)
      else text_lt a.file.relative_path b.file.relative_path

  abbrev pub desired_before : DesiredFile B → DesiredFile B → Bool
  desired_before a b = text_lt a.file.relative_path b.file.relative_path

  -- `Services`.
  unfoldable pub services : Plan B → List String
  unfolding dedupe
  services plan =
      sort text_lt (dedupe [] (map (λ (d : DesiredFile B). d.file.service) plan.desired_files))

module _ {B : Type 0} (codec : Codec B) where
  -- `buildChanges` of a plan without changes.
  unfoldable pub build_changes : Disk B → Plan B → Outcome (Plan B)
  build_changes disk plan = do
    changes ←
        traverse
          (desired_change codec disk plan.existing plan.config_sha256 plan.instance_sha256
            (by_relative [] (files_of plan.existing)))
          plan.desired_files
    success (record plan {
      changes = sort_stable change_before (
          changes
          ++ map (deletion codec.nil_bytes) (
              obsolete plan.full_scope plan.target_scope plan.desired_files
                (files_of plan.existing)));
    })

  -- The plan before its changes.
  abbrev pub draft_plan :
      GlobalConfig
      → String
      → List Instance
      → List String
      → Bool
      → List (DesiredFile B)
      → Option RuntimeManifest
      → Plan B
  draft_plan global target targets scope full_scope desired existing = record {
    manifest_path = join global.paths.runtime "manifest.json";
    runtime_dir = global.paths.runtime;
    generated_dir = global.paths.generated;
    target = target;
    config_sha256 = codec.hash (codec.encode_global global);
    instance_sha256 = instance_hashes codec [] targets;
    existing = existing;
    desired_files = sort_stable desired_before desired;
    changes = [];
    target_scope = scope;
    full_scope = full_scope;
  }

  -- `BuildPlan`.
  unfoldable pub build_plan : GlobalConfig → List Instance → String → Disk B → Outcome (Plan B)
  build_plan global instances target disk = do
    (targets, scope, full_scope) ← select_target_instances instances target
    desired ← traverse (desired_file codec global instances) targets
    existing ←
        load_manifest codec disk (join global.paths.runtime "manifest.json") global.paths.generated
    build_changes disk (draft_plan global target targets scope full_scope desired existing)
