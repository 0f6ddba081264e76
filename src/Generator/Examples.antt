-- ===== src/Generator/Examples.antt =====
-- Configurations to which the theorems of internal/generator/singbox apply.
use sbox_manager.Common.{
  All, List, [], contains_code, map, none, pos, refl, some, success, trim_left, trim_right,
  trim_space, true, value_or, ◌++◌, ◌∷◌, ◌≡◌,
}
use sbox_manager.Domain.Defaults.{
  apply_group_defaults, apply_inbound_defaults, apply_instance_defaults, default_global_config,
}
use sbox_manager.Domain.Examples.{bland, edge, edge_accepted, linked, linked_accepted}
use sbox_manager.Domain.Instances.Accepted.{group_names_of, outbound_names_of}
use sbox_manager.Domain.Models.{Inbound, Instance, SubscriptionInput, SubscriptionNode}
use sbox_manager.Generator.Builds.{
  assemble, build_config_with_instances, build_outbound, normalize_ref_listen, resolve_outbound_ref,
}
use sbox_manager.Generator.Builds.Accepted.{Built, validate_config_set-Built}
use sbox_manager.Generator.Builds.Closed.{
  IsSelfContained, build_config_with_instances-IsSelfContained, tags_of,
}
use sbox_manager.Generator.Converts.{convert_group, convert_inbound, convert_outbound}
use sbox_manager.Generator.Inputs.{build_nodes, build_subscription_input, build_subscription_node}
use sbox_manager.Generator.Inputs.Secrets.{IsPublic, build_subscription_input-IsPublic}
use sbox_manager.Generator.Model.{SingBoxConfig}
use sbox_manager.Std.Cut.{split}
use sbox_manager.Std.Net.{parse_ip}
use sbox_manager.Std.Numbers.{decimal}

validate_config_set-Built_example : All (Built default_global_config linked) linked
validate_config_set-Built_example =
    validate_config_set-Built bland default_global_config linked linked_accepted

abbrev first : Instance
first = edge "a" (pos 24000) "127.0.0.1:10085"

abbrev first_config : SingBoxConfig
first_config =
    value_or (assemble default_global_config first [] [] [])
      (build_config_with_instances default_global_config linked first)

first_built : build_config_with_instances default_global_config linked first ≡ success first_config
unfolding build_config_with_instances apply_instance_defaults convert_inbound apply_inbound_defaults
    build_outbound resolve_outbound_ref convert_outbound convert_group apply_group_defaults
first_built = refl

build_config_with_instances-IsSelfContained_example :
    (tags_of first_config
      ≡ outbound_names_of (apply_instance_defaults first)
        ++ group_names_of (apply_instance_defaults first))
    × IsSelfContained first_config
build_config_with_instances-IsSelfContained_example =
    build_config_with_instances-IsSelfContained default_global_config linked first first_config
      edge_accepted first_built

-- An address for all becomes the loopback.
listed_anywhere : normalize_ref_listen " 0.0.0.0 " ≡ "127.0.0.1"
unfolding normalize_ref_listen parse_ip contains_code trim_space trim_right trim_left split decimal
listed_anywhere = refl

-- An inbound with a subscription.
abbrev listed : Instance
listed = record (edge "a" (pos 24000) "127.0.0.1:10085") {
  inbounds =
      map
        (λ (x : Inbound). record x {
          subscription = record {
            enabled = true;
            user = "eric";
            server = "sg.example.com";
            remark = "sg";
            region = "SG";
          };
        })
        (edge "a" (pos 24000) "127.0.0.1:10085").inbounds;
}

abbrev empty_input : SubscriptionInput
empty_input = record {
  input_schema = "";
  input_version = pos 1;
  source = "";
  generated_at = "";
  external_host = "";
  nodes = none;
}

abbrev listed_input : SubscriptionInput
listed_input =
    value_or empty_input (build_subscription_input default_global_config listed "2026-01-01")

listed_input_built :
    build_subscription_input default_global_config listed "2026-01-01" ≡ success listed_input
unfolding build_subscription_input build_nodes build_subscription_node
listed_input_built = refl

build_subscription_input-IsPublic_example :
    (listed_input.source ≡ "a")
    × (ns : List SubscriptionNode) × (listed_input.nodes ≡ some ns)
    × (map (λ (n : SubscriptionNode). n.id) ns ≡ "a:eric:in" ∷ [])
    × All IsPublic ns
build_subscription_input-IsPublic_example =
    build_subscription_input-IsPublic default_global_config listed "2026-01-01" listed_input
      listed_input_built
