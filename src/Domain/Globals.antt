-- ===== src/Domain/Globals.antt =====
-- internal/domain/validation.go: the global, traffic and subscription service configurations. The
-- two maps of `validatePaths` are visited in the order in which the code writes them.
use sbox_manager.Common.{
  List, Option, String, [], eqb_ℤ, if◌then◌else◌, insert, is_blank, leb_ℤ, lookup, none, not, pos,
  some, ℤ, ◌&&◌, ◌++◌, ◌<>◌, ◌==◌, ◌||◌, ◌∷◌,
}
use sbox_manager.Domain.Checks.{
  add_error, allowed_value, host_port, path_within, refused, split_listen_address,
  validate_api_config, validate_external_host, validate_port_range,
}
use sbox_manager.Domain.Defaults.{default_version}
use sbox_manager.Domain.Issues.{ValidationErrors, add, add_if}
use sbox_manager.Domain.Models.{
  GlobalConfig, PathsConfig, PortRangesConfig, SubConfig, TrafficConfig, TrafficDefaultsConfig,
}
use sbox_manager.Domain.Platform.{Platform, Url}
use sbox_manager.Std.FilePaths.{clean}

not_blank : List (String × String) → ValidationErrors
not_blank [] = []
not_blank ((name, value) ∷ rest) =
    add_if (is_blank value) name "cannot be empty" [] ++ not_blank rest

-- The loop over the critical paths: `seen` maps cleaned paths to names.
distinct_paths : List (String × String) → List (String × String) → ValidationErrors
distinct_paths seen [] = []
distinct_paths seen ((name, value) ∷ rest) =
    let fresh = distinct_paths (insert (clean value) name seen) rest in
    let same = distinct_paths seen rest in
    elim (lookup (clean value) seen) [
      | none ↦ fresh
      | some other ↦
          add ("paths." <> name) "must not use the same path as paths.%s" (other ∷ []) ++ same
    ]

unfoldable pub validate_paths : PathsConfig → ValidationErrors
unfolding not_blank distinct_paths
validate_paths paths =
    not_blank (
      ("paths.bin", paths.bin)
      ∷ ("paths.rules", paths.rules)
      ∷ ("paths.instances", paths.instances)
      ∷ ("paths.runtime", paths.runtime)
      ∷ ("paths.generated", paths.generated)
      ∷ ("paths.publish", paths.publish)
      ∷ ("paths.traffic", paths.traffic)
      ∷ ("paths.downloads", paths.downloads)
      ∷ ("paths.logs", paths.logs)
      ∷ [])
    ++ distinct_paths [] (
        ("instances", paths.instances)
        ∷ ("runtime", paths.runtime)
        ∷ ("generated", paths.generated)
        ∷ ("publish", paths.publish)
        ∷ ("traffic", paths.traffic)
        ∷ ("downloads", paths.downloads)
        ∷ ("logs", paths.logs)
        ∷ [])
    ++ add_if (not (path_within paths.runtime paths.generated)) "paths.generated"
        "must be under paths.runtime" []

unfoldable pub validate_port_ranges : PortRangesConfig → ValidationErrors
validate_port_ranges ranges =
    validate_port_range "port_ranges.inbound" ranges.inbound
    ++ validate_port_range "port_ranges.local_socks" ranges.local_socks
    ++ validate_port_range "port_ranges.local_http" ranges.local_http
    ++ validate_port_range "port_ranges.api" ranges.api

abbrev positive : String → ℤ → ValidationErrors
positive path value = add_if (leb_ℤ value (pos 0)) path "must be greater than 0" []

module _ (platform : Platform) where
  unfoldable pub validate_traffic_defaults : String → TrafficDefaultsConfig → ValidationErrors
  validate_traffic_defaults path traffic =
      add_if (not (platform.has_location traffic.timezone)) (path <> ".timezone")
        "invalid IANA timezone %q" (traffic.timezone ∷ [])
      ++ positive (path <> ".retention_days") traffic.retention_days
      ++ positive (path <> ".daily_min_retention_days") traffic.daily_min_retention_days
      ++ positive (path <> ".monthly_retention_months") traffic.monthly_retention_months
      ++ positive (path <> ".timeout_seconds") traffic.timeout_seconds
      ++ add_if (is_blank traffic.timer.hourly) (path <> ".timer.hourly") "cannot be empty" []
      ++ add_if (is_blank traffic.timer.daily) (path <> ".timer.daily") "cannot be empty" []
      ++ add_if (is_blank traffic.timer.monthly) (path <> ".timer.monthly") "cannot be empty" []

  unfoldable pub validate_global_config : GlobalConfig → ValidationErrors
  validate_global_config config =
      add_if (not (eqb_ℤ config.version default_version)) "version" "must be 1" []
      ++ add_error "external_host" (validate_external_host config.external_host)
      ++ validate_paths config.paths
      ++ validate_port_ranges config.port_ranges
      ++ add_if
          (not (
            allowed_value config.defaults.log_level
              ("trace" ∷ "debug" ∷ "info" ∷ "warn" ∷ "error" ∷ [])))
          "defaults.log_level" "unsupported log level %q" (config.defaults.log_level ∷ [])
      ++ validate_api_config "defaults.api" config.defaults.api
      ++ validate_api_config "defaults.clash_api" config.defaults.clash_api
      ++ validate_traffic_defaults "defaults.traffic" config.defaults.traffic

  unfoldable pub validate_traffic_config : TrafficConfig → ValidationErrors
  validate_traffic_config config =
      add_if (not (eqb_ℤ config.version default_version)) "version" "must be 1" []
      ++ validate_traffic_defaults "traffic" (record {
        enabled = config.enabled;
        timezone = config.timezone;
        retention_days = config.retention_days;
        daily_min_retention_days = config.daily_min_retention_days;
        monthly_retention_months = config.monthly_retention_months;
        timeout_seconds = config.timeout_seconds;
        timer = config.timer;
      })

  -- `validatePublicBaseURL`: the text of the error, if there is one.
  public_base_url_error : Option Url → Option String
  public_base_url_error none = some "invalid URL: %w"
  public_base_url_error (some url) =
      if not (url.scheme == "http") && not (url.scheme == "https")
      then some "only http or https is allowed"
      else if url.host == ""
      then some "host cannot be empty"
      else if not (url.raw_query == "") || not (url.fragment == "")
      then some "query or fragment is not allowed"
      else none

  unfoldable pub validate_sub_config : SubConfig → ValidationErrors
  unfolding public_base_url_error
  validate_sub_config config =
      let managed = config.managed_config in
      add_if (not (eqb_ℤ config.version default_version)) "version" "must be 1" []
      ++ elim (split_listen_address config.listen) [
        | refused message ↦ add "listen" "%v" (message ∷ [])
        | host_port host port ↦ []
      ]
      ++ (if config.access.type == "none"
          then []
          else if config.access.type == "token"
          then add_if (is_blank config.access.token) "access.token" "token mode requires token" []
          else add "access.type" "unsupported access type %q" (config.access.type ∷ []))
      ++ add_if (is_blank config.templates_dir) "templates_dir" "cannot be empty" []
      ++ positive "watch_interval" config.watch_interval
      ++ positive "watch_debounce" config.watch_debounce
      ++ (if managed.public_base_url == ""
          then []
          else add_error "managed_config.public_base_url"
              (public_base_url_error (platform.parse_url managed.public_base_url)))
      ++ positive "managed_config.interval" managed.interval
