-- ===== src/Runtime/Model.antt =====
-- internal/runtime/types.go, and the file system. `B` is the type of byte strings.
use sbox_manager.Common.{
  Bool, List, Option, Outcome, String, [], failure, has, if◌then◌else◌, insert, lookup, none, pos,
  success, ℤ, ◌==◌, ◌∷◌,
}
use sbox_manager.Domain.Models.{GlobalConfig, Instance}
use sbox_manager.Generator.Model.{SingBoxConfig}

-- `ManifestSchema`, `ManifestVersion`.
abbrev pub manifest_schema_name : String
manifest_schema_name = "sbox.runtime-manifest"

abbrev pub manifest_version_number : ℤ
manifest_version_number = pos 1

pub data Action : Type 0 where
  create : Action
  update : Action
  delete : Action
  no_change : Action

abbrev pub action_text : Action → String
action_text create = "create"
action_text update = "update"
action_text delete = "delete"
action_text no_change = "no-change"

pub record ManifestFile : Type 0 where
  pub instance_name : String
  pub path : String
  pub relative_path : String
  pub sha256 : String
  pub service : String

-- `Manifest`; the map of hashes may be nil.
pub record RuntimeManifest : Type 0 where
  pub manifest_schema : String
  pub manifest_version : ℤ
  pub config_sha256 : String
  pub instance_sha256 : Option (List (String × String))
  pub generated_at : String
  pub files : List ManifestFile

pub record DesiredFile (B : Type 0) : Type 0 where
  pub file : ManifestFile
  pub contents : B

-- `Data` is nil where the action is `delete`.
pub record Change (B : Type 0) : Type 0 where
  pub action : Action
  pub file : ManifestFile
  pub contents : B

pub record Plan (B : Type 0) : Type 0 where
  pub manifest_path : String
  pub runtime_dir : String
  pub generated_dir : String
  pub target : String
  pub config_sha256 : String
  pub instance_sha256 : List (String × String)
  pub existing : Option RuntimeManifest
  pub desired_files : List (DesiredFile B)
  pub changes : List (Change B)
  pub target_scope : List String
  pub full_scope : Bool

pub record ApplyResult : Type 0 where
  pub manifest : Option RuntimeManifest
  pub changed : Bool

-- What the packages encoding/json and crypto/sha256 answer: `MarshalStable` of the four types, the
-- strict decoding of one manifest, and the hash of bytes in hexadecimal digits.
pub record Codec (B : Type 0) : Type 0 where
  pub hash : B → String
  pub nil_bytes : B
  pub encode_manifest : RuntimeManifest → B
  pub decode_manifest : B → Option RuntimeManifest
  pub encode_global : GlobalConfig → B
  pub encode_instance : Instance → B
  pub encode_config : SingBoxConfig → B

-- How one of the next changes of the disk fails: before the file is replaced or removed, or after it.
pub data Fault : Type 0 where
  before_change : Fault
  after_change : Fault

-- The files by path, the paths that cannot be read, and what becomes of the next changes.
pub record Disk (B : Type 0) : Type 0 where
  pub files : List (String × B)
  pub unreadable : List String
  pub faults : List (Option Fault)

abbrev pub later_faults : List (Option Fault) → List (Option Fault)
later_faults [] = []
later_faults (f ∷ fs) = fs

abbrev pub next_fault : List (Option Fault) → Option Fault
next_fault [] = none
next_fault (f ∷ fs) = f

module _ {B : Type 0} where
  -- `os.ReadFile`: `none` where there is no file.
  abbrev pub read_file : Disk B → String → Outcome (Option B)
  read_file disk path =
      if has disk.unreadable path then failure "read %s: %w" else success (lookup path disk.files)

  abbrev pub without_path : String → List (String × B) → List (String × B)
  without_path path [] = []
  without_path path ((p, b) ∷ rest) =
      let later = without_path path rest in if p == path then later else (p, b) ∷ later

  abbrev pub disk_with : String → B → Disk B → Disk B
  disk_with path b disk = record disk {
    files = insert path b disk.files;
    faults = later_faults disk.faults;
  }

  abbrev pub disk_without : String → Disk B → Disk B
  disk_without path disk = record disk {
    files = without_path path disk.files;
    faults = later_faults disk.faults;
  }

  abbrev pub disk_after : Disk B → Disk B
  disk_after disk = record disk { faults = later_faults disk.faults }
