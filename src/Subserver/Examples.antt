-- ===== src/Subserver/Examples.antt =====
-- Requests that internal/subserver answers, and polls of its watcher.
use sbox_manager.Common.{
  All, List, Option, String, [], at_index, contains, contains_code, digit, failure, false,
  has_prefix, is_blank, itoa, itoa_from, none, place_stable, pos, refl, some, sort_stable,
  strip_prefix, suc, success, trim_left, trim_right, trim_space, true, zero, ℕ, ℤ, ◌∷◌, ◌≡◌, ◌⊎◌,
}
use sbox_manager.Domain.Checks.{
  is_region, is_safe_name, is_uuid, matches_safe_name, validate_external_host, validate_port,
  validate_safe_name,
}
use sbox_manager.Domain.Examples.{bland}
use sbox_manager.Domain.Manifests.{validate_input_filename}
use sbox_manager.Domain.Merge.{
  merge_inputs, merge_node, merge_nodes, validate_merge_rules, validate_subscription_input,
  validate_subscription_inputs,
}
use sbox_manager.Domain.Models.{SubConfig, SubscriptionInput, SubscriptionNode}
use sbox_manager.Domain.Nodes.{required_safe_name, validate_input, validate_subscription_node}
use sbox_manager.Domain.Protocols.{
  password_fields, required_uuid, validate_subscription_auth, validate_transport_config,
  validate_vmess_network,
}
use sbox_manager.Std.Cut.{cut_last, split, to_lower, trim_suffix}
use sbox_manager.Std.Decimals.{itoa_injective}
use sbox_manager.Std.FilePaths.{base, ext, is_abs}
use sbox_manager.Subscription.Examples.{shared_built, shared_index, shared_input}
use sbox_manager.Subscription.Formats.{filter_nodes_for_format, parse_format}
use sbox_manager.Subscription.Index.{
  Index, build_index_from_inputs, empty_index, index_inputs, index_nodes, nodes_for_user,
  normalized, push_node,
}
use sbox_manager.Subscription.Inputs.{
  Directory, decode_input, format_for_input_name, has_suffix, input_entries, is_input_file_name,
  load_index_from_dir, load_inputs_from_dir, read_input, should_ignore_input_name,
}
use sbox_manager.Subserver.Requests.{
  Request, State, Web, answer, answer_indexed, answer_route, authorize, handle_subscription,
  refused, rendered,
}
use sbox_manager.Subserver.Requests.Own.{MayRead, Renders, handle_subscription-rendered}
use sbox_manager.Subserver.Routes.{
  SubscriptionRoute, build_subscription_route, is_subscription_prefix, parse_route_prefix,
  parse_route_token, parse_route_user, parse_subscription_route, trim_slashes,
}
use sbox_manager.Subserver.Watcher.{Watch, hash_entries, poll, snapshot_input_dir, start_watch}
use sbox_manager.Subserver.Watcher.Fresh.{
  IsCurrent, poll-keeps_index, quiet_rounds, quiet_rounds-IsCurrent,
}

abbrev plain_web : Web
plain_web = record {
  path_unescape = λ part. some part;
  status_text = λ status. "";
  render = λ format user nodes config url sources now. success user;
}

abbrev guarded_config : SubConfig
guarded_config = record {
  version = pos 1;
  listen = "127.0.0.1:8080";
  access = record { type = "token"; token = "secret" };
  templates_dir = "";
  watch_interval = pos 0;
  watch_debounce = pos 0;
  managed_config = record {
    enabled = false;
    public_base_url = "";
    interval = pos 0;
    strict = false;
  };
}

abbrev request_of : String → Request
request_of path = record { method = "GET"; path = path; query_token = ""; url = "" }

abbrev serving : State
serving = record { index = some shared_index; last_error = "" }

serving_answers :
    handle_subscription plain_web guarded_config (pos 9) serving (request_of "/sub/secret/anna")
    ≡ rendered "anna"
unfolding handle_subscription parse_subscription_route build_subscription_route split trim_slashes
    parse_route_prefix is_subscription_prefix parse_route_token parse_route_user answer_route
    parse_format authorize answer_indexed answer nodes_for_user index_inputs index_nodes
    filter_nodes_for_format normalized push_node
serving_answers = refl

serving_refuses :
    handle_subscription plain_web guarded_config (pos 9) serving (request_of "/sub/other/anna")
    ≡ refused 403 "forbidden" ""
unfolding handle_subscription parse_subscription_route build_subscription_route split trim_slashes
    parse_route_prefix is_subscription_prefix parse_route_token parse_route_user answer_route
    parse_format authorize
serving_refuses = refl

handle_subscription-rendered_example :
    let r = request_of "/sub/secret/anna" in
    (route : SubscriptionRoute) × (parse_subscription_route plain_web.path_unescape r.path
      ≡ some route)
    × MayRead guarded_config.access route.path_token r.query_token
    × Renders plain_web guarded_config (pos 9) shared_index r route.format route.user "anna"
    × All
        (λ (n : SubscriptionNode). n.user ≡ route.user)
        (filter_nodes_for_format route.format (nodes_for_user (some shared_index) route.user))
handle_subscription-rendered_example =
    handle_subscription-rendered plain_web guarded_config bland (pos 9) (pos 7) (shared_input ∷ [])
      serving shared_index (request_of "/sub/secret/anna") "anna" refl shared_built serving_answers

-- The bytes of a file are a number here: 0 is no input, and any other is the shared one.
abbrev decoded : String → ℕ → Option SubscriptionInput
decoded format zero = none
decoded format (suc b) = some shared_input

abbrev directory : ℕ → Directory ℕ
directory b = record {
  entries = some (
      record { name = ".a.yaml"; is_dir = false; is_regular = none; bytes = none }
      ∷ record { name = "a.yaml"; is_dir = false; is_regular = some true; bytes = some b }
      ∷ []);
}

abbrev no_directory : Directory ℕ
no_directory = record { entries = none }

first_loaded :
    load_index_from_dir decoded bland (pos 7) (directory 1)
    ≡ success (index_inputs (empty_index (pos 7)) (shared_input ∷ []))
unfolding load_index_from_dir load_inputs_from_dir input_entries should_ignore_input_name has_prefix
    has_suffix contains to_lower is_input_file_name ext cut_last validate_input_filename is_blank
    base split is_abs contains_code place_stable sort_stable at_index digit itoa itoa_from
    strip_prefix trim_left trim_right trim_space is_region is_safe_name is_uuid matches_safe_name
    validate_external_host validate_port validate_safe_name merge_inputs merge_node merge_nodes
    validate_merge_rules validate_subscription_input validate_subscription_inputs required_safe_name
    validate_input validate_subscription_node password_fields required_uuid
    validate_subscription_auth validate_transport_config validate_vmess_network trim_suffix
    build_index_from_inputs index_inputs index_nodes normalized push_node decode_input
    format_for_input_name read_input
first_loaded = refl

last_loaded :
    load_index_from_dir decoded bland (pos 12) (directory 2)
    ≡ success (index_inputs (empty_index (pos 12)) (shared_input ∷ []))
unfolding load_index_from_dir load_inputs_from_dir input_entries should_ignore_input_name has_prefix
    has_suffix contains to_lower is_input_file_name ext cut_last validate_input_filename is_blank
    base split is_abs contains_code place_stable sort_stable at_index digit itoa itoa_from
    strip_prefix trim_left trim_right trim_space is_region is_safe_name is_uuid matches_safe_name
    validate_external_host validate_port validate_safe_name merge_inputs merge_node merge_nodes
    validate_merge_rules validate_subscription_input validate_subscription_inputs required_safe_name
    validate_input validate_subscription_node password_fields required_uuid
    validate_subscription_auth validate_transport_config validate_vmess_network trim_suffix
    build_index_from_inputs index_inputs index_nodes normalized push_node decode_input
    format_for_input_name read_input
last_loaded = refl

last_seen : snapshot_input_dir itoa (directory 2) ≡ success (("a.yaml", "2") ∷ [])
unfolding snapshot_input_dir hash_entries should_ignore_input_name has_prefix has_suffix contains
    to_lower is_input_file_name ext cut_last validate_input_filename is_blank base split is_abs
    contains_code validate_safe_name strip_prefix is_safe_name matches_safe_name trim_suffix itoa
last_seen = refl

unreadable_fails :
    load_index_from_dir decoded bland (pos 8) (directory 0) ≡ failure "subscription input %s: %w"
unfolding load_index_from_dir load_inputs_from_dir input_entries should_ignore_input_name has_prefix
    has_suffix contains to_lower is_input_file_name ext cut_last validate_input_filename is_blank
    base split is_abs contains_code place_stable sort_stable at_index digit itoa itoa_from
    strip_prefix trim_left trim_right trim_space is_region is_safe_name is_uuid matches_safe_name
    validate_external_host validate_port validate_safe_name merge_inputs merge_node merge_nodes
    validate_merge_rules validate_subscription_input validate_subscription_inputs required_safe_name
    validate_input validate_subscription_node password_fields required_uuid
    validate_subscription_auth validate_transport_config validate_vmess_network trim_suffix
    build_index_from_inputs index_inputs index_nodes normalized push_node decode_input
    format_for_input_name read_input
unreadable_fails = refl

abbrev some_rounds : List (Directory ℕ × ℤ)
some_rounds = (no_directory, pos 8) ∷ (directory 0, pos 9) ∷ []

quiet_rounds-IsCurrent_example :
    IsCurrent itoa decoded bland
      (directory 2)
      (poll itoa decoded bland (directory 2) (pos 12) (directory 2) (
        quiet_rounds itoa decoded bland some_rounds (
          start_watch itoa (directory 1) (record {
            index = some (index_inputs (empty_index (pos 7)) (shared_input ∷ []));
            last_error = "";
          })))).state
quiet_rounds-IsCurrent_example =
    quiet_rounds-IsCurrent itoa decoded bland itoa_injective (directory 1) (pos 7) (pos 12)
      (index_inputs (empty_index (pos 7)) (shared_input ∷ []))
      (index_inputs (empty_index (pos 12)) (shared_input ∷ [])) some_rounds (directory 2)
      (("a.yaml", "2") ∷ []) first_loaded last_seen last_loaded

abbrev watching : Watch
watching = record { state = serving; previous = none }

poll-keeps_index_example :
    let w' = poll itoa decoded bland (directory 2) (pos 8) (directory 0) watching in
    (w'.state.index ≡ some shared_index)
    ⊎ ((index : Index) × (load_index_from_dir decoded bland (pos 8) (directory 0) ≡ success index)
        × (w'.state.index ≡ some index)
        × (w'.state.last_error ≡ ""))
poll-keeps_index_example =
    poll-keeps_index itoa decoded bland (directory 2) (directory 0) (pos 8) watching
