-- ===== src/Config/Examples.antt =====
-- Port ranges to which the theorems of internal/config apply.
use sbox_manager.Common.{
  [], is_none, none, pos, refl, success, trim_left, trim_right, trim_space, true, ◌∷◌, ◌≡◌,
}
use sbox_manager.Config.PortRanges.{
  first_available_port, parse_port_range, validate_parsed_port_range,
}
use sbox_manager.Config.PortRanges.Agreement.{
  parse_port_range-validate_port_range, validate_parsed_port_range-validate_port_range,
}
use sbox_manager.Config.PortRanges.FirstFree.{IsChoice, first_available_port-IsChoice}
use sbox_manager.Domain.Checks.{validate_port_range}
use sbox_manager.Domain.Issues.{is_ok}
use sbox_manager.Domain.Models.{PortRange}
use sbox_manager.Std.Cut.{split}
use sbox_manager.Std.Numbers.{atoi}

abbrev low_ports : PortRange
low_ports = record { start = pos 17000; end = pos 17002 }

low_ports_valid : validate_parsed_port_range low_ports ≡ none
unfolding validate_parsed_port_range
low_ports_valid = refl

first_available_port-IsChoice_example :
    IsChoice low_ports (pos 17000 ∷ []) (first_available_port low_ports (pos 17000 ∷ []))
first_available_port-IsChoice_example =
    first_available_port-IsChoice low_ports (pos 17000 ∷ []) low_ports_valid

second_chosen : first_available_port low_ports (pos 17000 ∷ []) ≡ success (pos 17001)
unfolding first_available_port validate_parsed_port_range
second_chosen = refl

validate_parsed_port_range-validate_port_range_example :
    is_none (validate_parsed_port_range low_ports) ≡ is_ok (validate_port_range "p" low_ports)
validate_parsed_port_range-validate_port_range_example =
    validate_parsed_port_range-validate_port_range "p" low_ports

low_ports_parsed : parse_port_range " 17000 - 17002" ≡ success low_ports
unfolding validate_parsed_port_range parse_port_range trim_space trim_left trim_right split atoi
low_ports_parsed = refl

parse_port_range-validate_port_range_example : is_ok (validate_port_range "p" low_ports) ≡ true
parse_port_range-validate_port_range_example =
    parse_port_range-validate_port_range " 17000 - 17002" "p" low_ports low_ports_parsed
