-- ===== src/Runtime/Manifests.antt =====
-- internal/runtime/manifest.go. An error is its format; `none` is nil.
use sbox_manager.Common.{
  Bool, List, Option, Outcome, String, [], contains, eqb_ℤ, failure, false, has_prefix,
  if◌then◌else◌, is_blank, is_none, none, not, some, sort_stable, success, text_lt, ◌&&◌, ◌==◌,
  ◌>>=◌, ◌||◌, ◌∷◌,
}
use sbox_manager.Runtime.Model.{
  Codec, Disk, ManifestFile, RuntimeManifest, manifest_schema_name, manifest_version_number,
  read_file,
}
use sbox_manager.Std.FilePaths.{clean, is_abs, rel}

unfoldable pub validate_relative_path : String → Option String
validate_relative_path path =
    let cleaned = clean path in
    if contains path "\\"
    then some "relative_path must not contain backslashes"
    else if is_abs path
    then some "relative_path must not be absolute"
    else if cleaned == "." || has_prefix cleaned "../" || cleaned == ".."
    then some "relative_path path traversal is not allowed"
    else if not (cleaned == path)
    then some "relative_path must be a clean path"
    else none

unfoldable pub is_path_under : String → String → Bool
is_path_under parent target = elim (rel (clean parent) (clean target)) [
  | none ↦ false
  | some path ↦ not (path == ".") && not (path == "..") && not (has_prefix path "../")
]

unfoldable pub validate_manifest_file : ManifestFile → String → Option String
validate_manifest_file file generated =
    if is_blank file.instance_name
    then some "instance cannot be empty"
    else if is_blank file.path
    then some "path cannot be empty"
    else if is_blank file.relative_path
    then some "relative_path cannot be empty"
    else if is_blank file.sha256
    then some "sha256 cannot be empty"
    else if is_blank file.service
    then some "service cannot be empty"
    else elim (validate_relative_path file.relative_path) [
      | some e ↦ some e
      | none ↦
          if not (is_path_under generated file.path)
          then some "path must be under paths.generated"
          else none
    ]

-- The loop over the files; `previous` is the relative path of the file before.
unfoldable pub validate_files : String → Option String → List ManifestFile → Option String
validate_files generated previous [] = none
validate_files generated previous (file ∷ rest) =
    let later = validate_files generated (some file.relative_path) rest in
    elim (validate_manifest_file file generated) [
      | some e ↦ some "files[%d]: %w"
      | none ↦ elim previous [
        | none ↦ later
        | some p ↦
            if text_lt file.relative_path p
            then some "files must be sorted stably by relative_path"
            else later
      ]
    ]

unfoldable pub validate_manifest : RuntimeManifest → String → Option String
validate_manifest m generated =
    if not (m.manifest_schema == manifest_schema_name)
    then some "manifest_schema must be %q"
    else if not (eqb_ℤ m.manifest_version manifest_version_number)
    then some "manifest_version must be %d"
    else if is_blank m.config_sha256
    then some "config_sha256 cannot be empty"
    else if is_none m.instance_sha256
    then some "instance_sha256 cannot be empty"
    else if is_blank m.generated_at
    then some "generated_at cannot be empty"
    else validate_files generated none m.files

abbrev pub earlier_path : ManifestFile → ManifestFile → Bool
earlier_path a b = text_lt a.relative_path b.relative_path

unfoldable pub sort_manifest_files : List ManifestFile → List ManifestFile
sort_manifest_files = sort_stable earlier_path

module _ {B : Type 0} (codec : Codec B) where
  -- `LoadManifest`.
  unfoldable pub load_manifest : Disk B → String → String → Outcome (Option RuntimeManifest)
  load_manifest disk path generated = do
    found ← read_file disk path
    elim found [
      | none ↦ success none
      | some b ↦ elim (codec.decode_manifest b) [
        | none ↦ failure "RuntimeManifest %s: %w"
        | some m ↦ elim (validate_manifest m generated) [
          | some e ↦ failure "RuntimeManifest %s: %w"
          | none ↦ success (some m)
        ]
      ]
    ]
