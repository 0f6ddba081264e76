-- ===== src/Manager/Examples.antt =====
-- Instances whose ports internal/instance allocates, and that get members.
use sbox_manager.Common.{
  All, Distinct, Fresh, List, String, [], contains_code, digit, eqb_ℤ, false, has, is_blank, itoa,
  itoa_from, none, pos, refl, some, strip_prefix, success, trim_left, trim_right, trim_space, true,
  ◌∷◌, ◌≡◌,
}
use sbox_manager.Config.PortRanges.{first_available_port, is_used, validate_parsed_port_range}
use sbox_manager.Domain.Defaults.{default_global_config}
use sbox_manager.Domain.Examples.{direct, edge, fastest, socks}
use sbox_manager.Domain.Models.{GlobalConfig, Instance, Outbound, PortRangesConfig}
use sbox_manager.Domain.Refs.{resolve_outbound_ref_target}
use sbox_manager.Manager.Clones.{
  clone_instance, clone_instance_value, copied_texts, update_cloned_subscription_remarks,
}
use sbox_manager.Manager.Clones.Placed.{Copies, clone_instance-Fresh}
use sbox_manager.Manager.Members.{
  add_group_outbound, add_ref, add_ref_member_to_instance, allocate_ref_outbound_name, candidates,
  find_instance_by_name, find_mutable_group, member_of, next_available, outbound_name_available,
  outbound_names, ref_outbound, referenced_group_outbounds, remove_ref_member_from_instance,
  select_ref_member_inbound,
}
use sbox_manager.Manager.Members.Named.{add_ref_member_to_instance-Distinct}
use sbox_manager.Manager.Members.Names.{allocate_ref_outbound_name_total}
use sbox_manager.Manager.Members.Undone.{add_ref_member_to_instance-undone, with_member}
use sbox_manager.Manager.Ports.{
  allocate_api, allocate_inbounds, allocate_ports, is_loopback_listen, port_range_for_inbound,
  replace_listen_port, split_address, used_ports,
}
use sbox_manager.Manager.Ports.Allocated.{allocate_ports-Fresh, ports_of}
use sbox_manager.Std.Cut.{cut_first, cut_last, split}
use sbox_manager.Std.Net.{is_loopback_ip, join_host_port, parse_ip, split_host_port}
use sbox_manager.Std.Numbers.{atoi, decimal}

abbrev ranges : PortRangesConfig
ranges = record {
  inbound = record { start = pos 24000; end = pos 24003 };
  local_socks = record { start = pos 17000; end = pos 17003 };
  local_http = record { start = pos 18000; end = pos 18003 };
  api = record { start = pos 10000; end = pos 10003 };
}

abbrev global : GlobalConfig
global = record default_global_config { port_ranges = ranges }

abbrev present : List Instance
present = edge "a" (pos 17000) "127.0.0.1:10000" ∷ []

-- The new instance has the ports of the one that is there, and gets the next ones.
abbrev cloned : Instance
cloned = edge "b" (pos 17000) "127.0.0.1:10000"

abbrev placed : Instance
placed = edge "b" (pos 17001) "127.0.0.1:10001"

clone_fits : allocate_ports global present cloned ≡ success placed
unfolding allocate_ports allocate_inbounds first_available_port validate_parsed_port_range
    port_range_for_inbound is_loopback_listen trim_space trim_right trim_left is_loopback_ip
    contains_code split decimal used_ports split_address split_host_port cut_last itoa
    replace_listen_port cut_first join_host_port parse_ip atoi
clone_fits = refl

allocate_ports-Fresh_example : Fresh eqb_ℤ (ports_of placed.inbounds) (is_used (used_ports present))
allocate_ports-Fresh_example = allocate_ports-Fresh global present cloned placed clone_fits

abbrev hash : String → String
hash ref = "0000abcd"

-- The outbounds already have the plain name and the hashed one.
abbrev taken : List Outbound
taken =
    ref_outbound "a-in" "x.in"
    ∷ ref_outbound "a-in-0000abcd" "y.in"
    ∷ ref_outbound "a-in-0000abcd-2" "z.in"
    ∷ []

allocate_ref_outbound_name_total_example :
    (name : String) × (allocate_ref_outbound_name hash taken "a-in" "a.in" ≡ some name)
    × (has (outbound_names taken) name ≡ false)
allocate_ref_outbound_name_total_example = allocate_ref_outbound_name_total hash taken "a-in" "a.in"

third_name : allocate_ref_outbound_name hash taken "a-in" "a.in" ≡ some "a-in-0000abcd-3"
unfolding allocate_ref_outbound_name outbound_name_available next_available itoa
third_name = refl

abbrev extended : Instance
extended = with_member (edge "b" (pos 17000) "127.0.0.1:10000") [] fastest [] "a-in" "a.in"

extended_added :
    add_ref_member_to_instance hash (edge "b" (pos 17000) "127.0.0.1:10000") present "fast" "a"
    ≡ success extended
unfolding add_ref_member_to_instance find_instance_by_name select_ref_member_inbound add_ref
    allocate_ref_outbound_name outbound_name_available add_group_outbound find_mutable_group
extended_added = refl

found_a : find_instance_by_name present "a" ≡ some (edge "a" (pos 17000) "127.0.0.1:10000")
unfolding find_instance_by_name
found_a = refl

picked_a :
    select_ref_member_inbound (edge "a" (pos 17000) "127.0.0.1:10000")
    ≡ some (socks "in" "127.0.0.1" (pos 17000))
unfolding select_ref_member_inbound
picked_a = refl

resolved_a : member_of present "a.in" ≡ some "a"
unfolding member_of resolve_outbound_ref_target strip_prefix trim_space trim_right trim_left
    is_blank
resolved_a = refl

no_refs : candidates present "a" (direct ∷ []) ≡ []
unfolding candidates
no_refs = refl

listed_a :
    All
      (λ (n : String). has (outbound_names (direct ∷ [])) n ≡ true)
      (referenced_group_outbounds (fastest ∷ []))
unfolding referenced_group_outbounds
listed_a = (refl, tt)

add_ref_member_to_instance-undone_example :
    remove_ref_member_from_instance extended present "fast" "a"
    ≡ success (edge "b" (pos 17000) "127.0.0.1:10000")
add_ref_member_to_instance-undone_example =
    add_ref_member_to_instance-undone hash present (edge "b" (pos 17000) "127.0.0.1:10000") extended
      (edge "a" (pos 17000) "127.0.0.1:10000") (socks "in" "127.0.0.1" (pos 17000)) "fast" "a"
      found_a picked_a resolved_a no_refs listed_a extended_added

abbrev copied : Instance
copied = edge "c" (pos 17001) "127.0.0.1:10001"

copied_made : clone_instance global present "a" "c" true ≡ success copied
unfolding clone_instance allocate_ports allocate_inbounds update_cloned_subscription_remarks
    first_available_port validate_parsed_port_range port_range_for_inbound is_loopback_listen
    trim_space trim_right trim_left is_loopback_ip contains_code split decimal used_ports
    split_address digit itoa itoa_from strip_prefix allocate_api replace_listen_port cut_first
    cut_last join_host_port parse_ip split_host_port atoi clone_instance_value copied_texts
copied_made = refl

clone_instance-Fresh_example :
    (i : Instance) × (find_instance_by_name present "a" ≡ some i)
    × (find_instance_by_name present "c" ≡ none)
    × (copied.name ≡ "c")
    × Copies i copied
    × Fresh eqb_ℤ (ports_of copied.inbounds) (is_used (used_ports present))
clone_instance-Fresh_example = clone_instance-Fresh global present "a" "c" copied copied_made

add_ref_member_to_instance-Distinct_example : Distinct (outbound_names extended.outbounds)
add_ref_member_to_instance-Distinct_example =
    add_ref_member_to_instance-Distinct hash (edge "b" (pos 17000) "127.0.0.1:10000") extended
      present "fast" "a" (refl, tt) extended_added
