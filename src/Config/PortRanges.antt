-- ===== src/Config/PortRanges.antt =====
-- internal/config/portrange.go: port ranges as text, and the first port of a range that is free. The
-- map of the used ports is a list of them.
pub mod FirstFree
pub mod Agreement
use sbox_manager.Common.{
  Bool, List, Option, Outcome, String, [], any, eqb_ℤ, failure, false, if◌then◌else◌, ltb_ℤ, none,
  pos, pos_part, some, suc, success, trim_space, true, zero, ℕ, ℤ, ◌+◌, ◌-◌, ◌||◌, ◌∷◌,
}
use sbox_manager.Domain.Models.{PortRange}
use sbox_manager.Std.Cut.{split}
use sbox_manager.Std.Numbers.{atoi}

-- The message of `validateParsedPortRange`, if it refuses the range.
unfoldable pub validate_parsed_port_range : PortRange → Option String
validate_parsed_port_range range =
    if ltb_ℤ range.start (pos 1) || ltb_ℤ (pos 65535) range.start
    then some "port range start must be in range 1-65535"
    else if ltb_ℤ range.end (pos 1) || ltb_ℤ (pos 65535) range.end
    then some "port range end must be in range 1-65535"
    else if ltb_ℤ range.end range.start
    then some "port range start must be less than or equal to end"
    else none

checked : PortRange → Outcome PortRange
checked range = elim (validate_parsed_port_range range) [
  | none ↦ success range
  | some e ↦ failure e
]

both_ends : Option ℤ → Option ℤ → Outcome PortRange
unfolding checked
both_ends none end = failure "port range start must be an integer: %w"
both_ends (some start) none = failure "port range end must be an integer: %w"
both_ends (some start) (some end) = checked (record { start = start; end = end })

range_of : List String → Outcome PortRange
unfolding both_ends
range_of (a ∷ b ∷ []) = both_ends (atoi (trim_space a)) (atoi (trim_space b))
range_of _ = failure "port range must use start-end format"

-- `ParsePortRange`.
unfoldable pub parse_port_range : String → Outcome PortRange
unfolding range_of
parse_port_range text = range_of (split b'-' (trim_space text))

abbrev pub is_used : List ℤ → ℤ → Bool
is_used used port = any (λ k. eqb_ℤ k port) used

abbrev pub taken : List ℤ → ℕ → Bool
taken used port = is_used used (pos port)

-- The loop of `FirstAvailablePort` over `n` ports from `port` on.
scan : ℕ → ℕ → List ℤ → Option ℕ
scan zero port used = none
scan (suc n) port used = elim (taken used port) [
  | true ↦ scan n (suc port) used
  | false ↦ some port
]

-- `FirstAvailablePort`; the range is one of ports when the loop starts.
unfoldable pub first_available_port : PortRange → List ℤ → Outcome ℤ
unfolding scan
first_available_port range used = elim (validate_parsed_port_range range) [
  | some e ↦ failure e
  | none ↦ elim (scan (pos_part range.end + 1 - pos_part range.start) (pos_part range.start) used) [
    | some port ↦ success (pos port)
    | none ↦ failure "port range %d-%d has no available ports"
  ]
]
