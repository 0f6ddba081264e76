-- ===== src/Runtime/Examples.antt =====
-- Plans to which the theorems of internal/runtime apply.
use sbox_manager.Common.{
  All, List, Option, String, [], contains, contains_code, digit, eq_iff, eq_refl, failure, false,
  has_prefix, if◌then◌else◌, is_blank, itoa, itoa_from, lookup, none, place_stable, refl, some,
  sort_stable, strip_prefix, success, trim_left, trim_right, trim_space, true, value_or, ◌==◌, ◌∷◌,
  ◌≡◌, ◌≢◌,
}
use sbox_manager.Domain.Defaults.{
  apply_group_defaults, apply_inbound_defaults, apply_instance_defaults, default_global_config,
  default_traffic_defaults_config,
}
use sbox_manager.Domain.Examples.{linked}
use sbox_manager.Domain.Models.{GlobalConfig, Instance}
use sbox_manager.Domain.Outbounds.{parse_outbound_ref}
use sbox_manager.Domain.Refs.{by_name_from, find_inbound_by_name, resolve_outbound_ref_target}
use sbox_manager.Generator.Builds.{
  build_completed, build_config_with_instances, build_experimental, build_outbound,
  normalize_ref_listen, resolve_outbound_ref,
}
use sbox_manager.Generator.Converts.{
  convert_group, convert_inbound, convert_outbound, convert_route_rule,
}
use sbox_manager.Generator.Model.{SingBoxConfig}
use sbox_manager.Generator.Transports.{
  convert_inbound_transport, convert_reality, convert_tls, convert_transport, convert_utls,
}
use sbox_manager.Runtime.Applies.{
  applied_files, apply_change, apply_changes, apply_plan, build_applied_manifest, kept_files,
  kept_hashes, old_hashes, put_hashes, remove_managed_file, write_file_atomic, write_manifest,
}
use sbox_manager.Runtime.Applies.Atomic.{Explained, apply_plan-Explained}
use sbox_manager.Runtime.Converged.Again.{apply_plan-converges}
use sbox_manager.Runtime.Converged.Orderly.{CodecLaws, IsOrderly}
use sbox_manager.Runtime.Guarded.{Passed, start_plan_guarded}
use sbox_manager.Runtime.Lifecycle.{check_files, start_plan}
use sbox_manager.Runtime.Manifests.{
  is_path_under, load_manifest, sort_manifest_files, validate_files, validate_manifest,
  validate_manifest_file, validate_relative_path,
}
use sbox_manager.Runtime.Model.{
  ApplyResult, Codec, Disk, ManifestFile, Plan, RuntimeManifest, before_change,
}
use sbox_manager.Runtime.Plans.{
  action_of_file, build_changes, build_plan, by_relative, desired_action, desired_change,
  desired_file, draft_plan, generated_path, has_changes, instance_hashes, obsolete,
  relative_runtime_path, select_target_instances, services,
}
use sbox_manager.Runtime.Scoped.Others.{apply_plan-build_plan}
use sbox_manager.Std.Cut.{cut_last, join_first, split}
use sbox_manager.Std.FilePaths.{
  clean, elements, is_abs, join, join_slash, rel, resolve, resolve_all,
}
use sbox_manager.Std.Net.{parse_ip}
use sbox_manager.Std.Numbers.{decimal}

-- Bytes that still are what they were made of, and their hash a text.
data Bytes : Type 0 where
  nothing : Bytes
  of_manifest : RuntimeManifest → Bytes
  of_global : GlobalConfig → Bytes
  of_instance : Instance → Bytes
  of_config : SingBoxConfig → Bytes

abbrev bytes_hash : Bytes → String
bytes_hash nothing = "0"
bytes_hash (of_manifest m) = "m"
bytes_hash (of_global g) = "g"
bytes_hash (of_instance i) = "i"
bytes_hash (of_config c) = "c"

abbrev manifest_of : Bytes → Option RuntimeManifest
manifest_of (of_manifest m) = some m
manifest_of nothing = none
manifest_of (of_global g) = none
manifest_of (of_instance i) = none
manifest_of (of_config c) = none

abbrev plain : Codec Bytes
plain = record {
  hash = bytes_hash;
  nil_bytes = nothing;
  encode_manifest = of_manifest;
  decode_manifest = manifest_of;
  encode_global = of_global;
  encode_instance = of_instance;
  encode_config = of_config;
}

hash_text : (b : Bytes) → is_blank (bytes_hash b) ≡ false
unfolding is_blank
hash_text nothing = refl
hash_text (of_manifest m) = refl
hash_text (of_global g) = refl
hash_text (of_instance i) = refl
hash_text (of_config c) = refl

abbrev plain_laws : CodecLaws plain
plain_laws = record { decodes = λ m. refl; hash_text = hash_text }

abbrev clean_disk : Disk Bytes
clean_disk = record { files = []; unreadable = []; faults = [] }

abbrev no_plan : Plan Bytes
no_plan = draft_plan plain default_global_config "" [] [] true [] none

abbrev first_plan : Plan Bytes
first_plan = value_or no_plan (build_plan plain default_global_config linked "" clean_disk)

first_built : build_plan plain default_global_config linked "" clean_disk ≡ success first_plan
unfolding build_plan select_target_instances desired_file build_config_with_instances
    apply_instance_defaults convert_inbound apply_inbound_defaults build_outbound
    resolve_outbound_ref convert_outbound convert_group apply_group_defaults relative_runtime_path
    rel is_abs default_global_config join place_stable sort_stable contains contains_code has_prefix
    is_blank itoa strip_prefix trim_left trim_right trim_space default_traffic_defaults_config
    parse_outbound_ref by_name_from find_inbound_by_name resolve_outbound_ref_target build_completed
    build_experimental normalize_ref_listen convert_route_rule convert_inbound_transport
    convert_reality convert_tls convert_transport convert_utls is_path_under load_manifest
    validate_files validate_manifest validate_manifest_file validate_relative_path action_of_file
    build_changes by_relative desired_action desired_change instance_hashes obsolete cut_last split
    clean elements join_slash parse_ip decimal
first_built = refl

no_files :
    (k : String) (f : ManifestFile) (p q : String) → lookup k (by_relative [] []) ≡ some f → p ≡ q
unfolding by_relative
no_files k f p q h = cc

first-IsOrderly : IsOrderly first_plan clean_disk "2026"
unfolding is_blank build_plan select_target_instances desired_file build_config_with_instances
    apply_instance_defaults convert_inbound apply_inbound_defaults build_outbound
    resolve_outbound_ref convert_outbound convert_group apply_group_defaults relative_runtime_path
    rel is_abs default_global_config join place_stable sort_stable contains contains_code has_prefix
    itoa strip_prefix trim_left trim_right trim_space default_traffic_defaults_config
    parse_outbound_ref by_name_from find_inbound_by_name resolve_outbound_ref_target build_completed
    build_experimental normalize_ref_listen convert_route_rule convert_inbound_transport
    convert_reality convert_tls convert_transport convert_utls is_path_under load_manifest
    validate_files validate_manifest validate_manifest_file validate_relative_path action_of_file
    build_changes by_relative desired_action desired_change instance_hashes obsolete cut_last split
    clean elements join_slash parse_ip decimal
first-IsOrderly = record {
  readable = refl;
  clock = refl;
  relative_distinct = (refl, (refl, tt));
  paths_distinct = (refl, (refl, tt));
  manifest_apart = refl;
  recordable = (refl, (refl, tt));
  same_paths = λ d m f h. no_files d.file.relative_path f f.path d.file.path h;
}

abbrev no_result : ApplyResult
no_result = record { manifest = none; changed = false }

abbrev first_result : ApplyResult
first_result = value_or no_result (apply_plan plain first_plan "2026" clean_disk).1

first_applied : (apply_plan plain first_plan "2026" clean_disk).1 ≡ success first_result
unfolding apply_plan has_changes build_plan select_target_instances desired_file
    build_config_with_instances apply_instance_defaults convert_inbound apply_inbound_defaults
    build_outbound resolve_outbound_ref convert_outbound convert_group apply_group_defaults
    relative_runtime_path rel is_abs place_stable sort_stable contains contains_code has_prefix
    is_blank itoa strip_prefix trim_left trim_right trim_space parse_outbound_ref by_name_from
    find_inbound_by_name resolve_outbound_ref_target build_completed build_experimental
    normalize_ref_listen convert_route_rule convert_inbound_transport convert_reality convert_tls
    convert_transport convert_utls applied_files apply_change apply_changes build_applied_manifest
    kept_files kept_hashes old_hashes put_hashes remove_managed_file write_file_atomic
    write_manifest is_path_under load_manifest sort_manifest_files validate_files validate_manifest
    validate_manifest_file validate_relative_path action_of_file build_changes by_relative
    desired_action desired_change instance_hashes obsolete cut_last split clean elements join
    join_slash parse_ip decimal default_global_config
first_applied = refl

apply_plan-converges_example :
    (again : Plan Bytes) × (build_plan plain default_global_config linked ""
        (apply_plan plain first_plan "2026" clean_disk).0
      ≡ success again)
    × (has_changes again ≡ false)
apply_plan-converges_example =
    apply_plan-converges plain plain_laws default_global_config linked "" clean_disk first_plan
      "2026" first_result first_built first-IsOrderly first_applied

-- A disk that fails at its second change.
abbrev failing_disk : Disk Bytes
failing_disk = record { files = []; unreadable = []; faults = none ∷ some before_change ∷ [] }

abbrev some_path : String
some_path = "/opt/sbox/runtime/generated/sing-box/a.json"

unequal : (a b : String) → (a == b) ≡ false → a ≢ b
unequal a b h = λ e. let bad = rw ((eq_iff a b).1 e) at h in cc

other_path : some_path ≢ first_plan.manifest_path
unfolding is_blank build_plan select_target_instances desired_file build_config_with_instances
    apply_instance_defaults convert_inbound apply_inbound_defaults build_outbound
    resolve_outbound_ref convert_outbound convert_group apply_group_defaults relative_runtime_path
    rel is_abs default_global_config join place_stable sort_stable contains contains_code has_prefix
    itoa strip_prefix trim_left trim_right trim_space default_traffic_defaults_config
    parse_outbound_ref by_name_from find_inbound_by_name resolve_outbound_ref_target build_completed
    build_experimental normalize_ref_listen convert_route_rule convert_inbound_transport
    convert_reality convert_tls convert_transport convert_utls is_path_under load_manifest
    validate_files validate_manifest validate_manifest_file validate_relative_path action_of_file
    build_changes by_relative desired_action desired_change instance_hashes obsolete cut_last split
    clean elements join_slash parse_ip decimal
other_path = unequal some_path first_plan.manifest_path refl

apply_plan-Explained_example :
    Explained first_plan.generated_dir some_path first_plan.changes
      (lookup some_path failing_disk.files)
      (lookup some_path (apply_plan plain first_plan "2026" failing_disk).0.files)
apply_plan-Explained_example =
    apply_plan-Explained plain first_plan "2026" some_path failing_disk other_path

abbrev scoped_plan : Plan Bytes
scoped_plan = value_or no_plan (build_plan plain default_global_config linked "b" clean_disk)

scoped_built : build_plan plain default_global_config linked "b" clean_disk ≡ success scoped_plan
unfolding build_plan select_target_instances desired_file build_config_with_instances
    apply_instance_defaults convert_inbound apply_inbound_defaults build_outbound
    resolve_outbound_ref convert_outbound parse_outbound_ref cut_last trim_space trim_right
    trim_left resolve_outbound_ref_target by_name_from place_stable sort_stable contains
    contains_code has_prefix is_blank itoa strip_prefix apply_group_defaults find_inbound_by_name
    build_completed build_experimental normalize_ref_listen convert_group convert_route_rule
    convert_inbound_transport convert_reality convert_tls convert_transport convert_utls
    is_path_under load_manifest validate_files validate_manifest validate_manifest_file
    validate_relative_path action_of_file build_changes by_relative desired_action desired_change
    instance_hashes obsolete relative_runtime_path split clean elements is_abs join join_slash rel
    parse_ip decimal default_global_config
scoped_built = refl

abbrev path_of_a : String
path_of_a = generated_path default_global_config.paths.generated "a"

path_beside_manifest : (path_of_a == scoped_plan.manifest_path) ≡ false
unfolding join default_global_config is_abs split build_plan select_target_instances desired_file
    build_config_with_instances apply_instance_defaults convert_inbound apply_inbound_defaults
    build_outbound resolve_outbound_ref convert_outbound parse_outbound_ref cut_last trim_space
    place_stable sort_stable contains contains_code digit has_prefix is_blank itoa itoa_from
    strip_prefix trim_left trim_right apply_group_defaults default_traffic_defaults_config
    by_name_from find_inbound_by_name resolve_outbound_ref_target build_completed build_experimental
    normalize_ref_listen convert_group convert_route_rule convert_inbound_transport convert_reality
    convert_tls convert_transport convert_utls is_path_under load_manifest validate_files
    validate_manifest validate_manifest_file validate_relative_path action_of_file build_changes
    by_relative desired_action desired_change instance_hashes obsolete relative_runtime_path
    join_first clean elements join_slash rel resolve resolve_all parse_ip decimal
path_beside_manifest = refl

a_is_other : ("a" == "b") ≡ false
a_is_other = refl

different_texts : (s t : String) → (s == t) ≡ false → s ≢ t
different_texts s t h same = let bad = rw (same, eq_refl t) at h in cc

apply_plan-build_plan_example :
    lookup path_of_a (apply_plan plain scoped_plan "2026" clean_disk).0.files
    ≡ lookup path_of_a clean_disk.files
unfolding contains_code build_plan select_target_instances desired_file build_config_with_instances
    apply_instance_defaults convert_inbound apply_inbound_defaults build_outbound
    resolve_outbound_ref convert_outbound parse_outbound_ref cut_last trim_space trim_right
    trim_left resolve_outbound_ref_target place_stable sort_stable contains digit has_prefix
    is_blank itoa itoa_from strip_prefix apply_group_defaults by_name_from find_inbound_by_name
    build_completed build_experimental normalize_ref_listen convert_group convert_route_rule
    convert_inbound_transport convert_reality convert_tls convert_transport convert_utls
    is_path_under load_manifest validate_files validate_manifest validate_manifest_file
    validate_relative_path action_of_file build_changes by_relative desired_action desired_change
    instance_hashes obsolete relative_runtime_path join_first split clean elements is_abs join
    join_slash rel resolve resolve_all parse_ip decimal default_global_config
apply_plan-build_plan_example =
    apply_plan-build_plan plain default_global_config linked "b" "a" "2026" clean_disk clean_disk
      scoped_plan refl scoped_built refl refl (different_texts "a" "b" a_is_other)
      (different_texts path_of_a scoped_plan.manifest_path path_beside_manifest) tt

-- A checker that refuses the second instance.
abbrev picky : String → Bytes → Option String
picky name b = if name == "b" then some "sing-box check failed" else none

start_plan_guarded_example :
    ((called : List String)
      → (start_plan plain first_plan picky (λ s. none) "2026" clean_disk).called ≡ some called
      → (called ≡ services first_plan)
        × All (Passed picky) first_plan.desired_files
        × (r : ApplyResult) × ((apply_plan plain first_plan "2026" clean_disk).1 ≡ success r))
    × ((text : String)
        → check_files picky first_plan.desired_files ≡ some text
        → (start_plan plain first_plan picky (λ s. none) "2026" clean_disk).disk ≡ clean_disk
          × (start_plan plain first_plan picky (λ s. none) "2026" clean_disk).called ≡ none
          × (start_plan plain first_plan picky (λ s. none) "2026" clean_disk).result ≡ failure text)
start_plan_guarded_example = start_plan_guarded plain first_plan picky (λ s. none) "2026" clean_disk
