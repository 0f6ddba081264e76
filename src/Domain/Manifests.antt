-- ===== src/Domain/Manifests.antt =====
-- internal/domain/validation.go: the manifests of bundles and backups, and the names of their
-- members. A map of hashes is visited in the order of its association list.
use sbox_manager.Common.{
  List, Option, String, [], contains, contains_code, eqb_ℤ, if◌then◌else◌, is_blank, is_empty,
  is_none, lookup, none, not, some, strip_prefix, ◌++◌, ◌<>◌, ◌==◌, ◌||◌, ◌∷◌,
}
use sbox_manager.Domain.Checks.{allowed_value, is_sha256, validate_safe_name}
use sbox_manager.Domain.Defaults.{default_version}
use sbox_manager.Domain.Issues.{ValidationErrors, add, add_if}
use sbox_manager.Domain.Models.{BackupManifest, BundleManifest}
use sbox_manager.Domain.Platform.{Platform}
use sbox_manager.Std.Cut.{to_lower, trim_suffix}
use sbox_manager.Std.FilePaths.{base, clean, ext, is_abs}

abbrev config_extensions : List String
config_extensions = ".yaml" ∷ ".yml" ∷ ".json" ∷ []

-- `validateSubscriptionInputFilename`.
unfoldable pub validate_input_filename : String → String → ValidationErrors
validate_input_filename path name =
    let extension = to_lower (ext name) in
    if is_blank name
    then add path "cannot be empty" []
    else if not (base name == name) || is_abs name || contains_code b'\\' name || contains name ".."
    then add path "must be a safe basename" []
    else if not (allowed_value extension config_extensions)
    then add path "unsupported subscription input extension" []
    else validate_safe_name path (trim_suffix name extension)

-- The checks of a member below `instances/`.
instance_member : String → Option String → ValidationErrors
instance_member field' none = add field' "must be config.yaml or instances/*" []
instance_member field' (some base) =
    let extension = to_lower (ext base) in
    if base == "" || contains_code b'/' base
    then add field' "instances member must be a safe basename" []
    else if not (allowed_value extension config_extensions)
    then add field' "instance config extension must be .yaml, .yml, or .json" []
    else validate_safe_name field' (trim_suffix base extension)

unfoldable pub validate_backup_file_name : String → String → ValidationErrors
unfolding instance_member
validate_backup_file_name field' name =
    if is_blank name
    then add field' "cannot be empty" []
    else if contains_code b'\\' name || is_abs name || not (clean name == name)
    then add field' "path is unsafe" []
    else if name == "config.yaml"
    then []
    else instance_member field' (strip_prefix "instances/" name)

-- The loop over a map from names to hashes.
unfoldable pub validate_hashes :
    String → (String → String → ValidationErrors) → List (String × String) → ValidationErrors
validate_hashes prefix check [] = []
validate_hashes prefix check ((name, hash) ∷ rest) =
    check (prefix <> name) name
    ++ add_if (not (is_sha256 hash)) (prefix <> name) "must be SHA-256 hex" []
    ++ validate_hashes prefix check rest

module _ (platform : Platform) where
  unfoldable pub validate_bundle_manifest : BundleManifest → ValidationErrors
  unfolding validate_hashes
  validate_bundle_manifest manifest =
      add_if (not (manifest.bundle_schema == "sbox.sub-bundle")) "bundle_schema"
        "must be sbox.sub-bundle" []
      ++ add_if (not (eqb_ℤ manifest.bundle_version default_version)) "bundle_version" "must be 1"
          []
      ++ add_if (is_blank manifest.source) "source" "cannot be empty" []
      ++ add_if (not (platform.is_rfc3339 manifest.generated_at)) "generated_at"
          "must be an RFC3339 timestamp" []
      ++ add_if (is_empty manifest.inputs_sha256) "inputs_sha256" "cannot be empty" []
      ++ validate_hashes "inputs_sha256." validate_input_filename manifest.inputs_sha256
      ++ add_if (is_blank manifest.template_version) "template_version" "cannot be empty" []
      ++ add_if (not (manifest.access.type == "none")) "access.type"
          "bundle access currently only supports none" []
      ++ add_if (not (is_blank manifest.access.token)) "access.token"
          "bundle must not include token" []

  unfoldable pub validate_backup_manifest : BackupManifest → ValidationErrors
  unfolding validate_hashes
  validate_backup_manifest manifest =
      add_if (not (manifest.backup_schema == "sbox.agent-backup")) "backup_schema"
        "must be sbox.agent-backup" []
      ++ add_if (not (eqb_ℤ manifest.backup_version default_version)) "backup_version" "must be 1"
          []
      ++ add_if (not (platform.is_rfc3339 manifest.generated_at)) "generated_at"
          "must be an RFC3339 timestamp" []
      ++ add_if (is_empty manifest.files_sha256) "files_sha256" "cannot be empty" []
      ++ add_if (is_none (lookup "config.yaml" manifest.files_sha256)) "files_sha256.config.yaml"
          "must include config.yaml" []
      ++ validate_hashes "files_sha256." validate_backup_file_name manifest.files_sha256
