-- ===== src/Config/PortRanges/Agreement.antt =====
-- internal/config/portrange.go and internal/domain/validation.go: the two checks of a port range.
use sbox_manager.Common.{
  List, Option, String, [], arith, failure, is_none, none, refl, some, success, sym, trim_space,
  true, ℤ, ◌∷◌, ◌≡◌,
}
use sbox_manager.Config.PortRanges.{
  both_ends, checked, parse_port_range, range_of, validate_parsed_port_range,
}
use sbox_manager.Domain.Checks.{validate_port_range}
use sbox_manager.Domain.Issues.{is_ok}
use sbox_manager.Domain.Models.{PortRange}
use sbox_manager.Std.Cut.{split}

-- The check of a range that is read from a text or an object accepts exactly the ranges of which the
-- validation of the configuration reports nothing.
pub validate_parsed_port_range-validate_port_range :
    (path : String) (range : PortRange)
    → is_none (validate_parsed_port_range range) ≡ is_ok (validate_port_range path range)
unfolding validate_parsed_port_range validate_port_range
validate_parsed_port_range-validate_port_range path range = ground arith

checked-success :
    (given r : PortRange) → checked given ≡ success r → validate_parsed_port_range r ≡ none
unfolding checked
checked-success given r h = settled (validate_parsed_port_range given) refl h
  where
    settled :
        (v : Option String)
        → v ≡ validate_parsed_port_range given
        → elim v [ none ↦ success given | some e ↦ failure e ] ≡ success r
        → validate_parsed_port_range r ≡ none
    settled none e k = let same : given ≡ r = cc in rw (sym same) (sym e)
    settled (some m) e k = cc

both_ends-success :
    (a b : Option ℤ) (r : PortRange)
    → both_ends a b ≡ success r
    → validate_parsed_port_range r ≡ none
unfolding both_ends
both_ends-success none b r h = cc
both_ends-success (some a) none r h = cc
both_ends-success (some a) (some b) r h = checked-success _ r h

range_of-success :
    (parts : List String) (r : PortRange)
    → range_of parts ≡ success r
    → validate_parsed_port_range r ≡ none
unfolding range_of
range_of-success [] r h = cc
range_of-success (a ∷ []) r h = cc
range_of-success (a ∷ b ∷ []) r h = both_ends-success _ _ r h
range_of-success (a ∷ b ∷ c ∷ rest) r h = cc

-- A range that `ParsePortRange` accepts is one that the validation of the configuration accepts.
pub parse_port_range-validate_port_range :
    (text path : String) (range : PortRange)
    → parse_port_range text ≡ success range
    → is_ok (validate_port_range path range) ≡ true
unfolding parse_port_range
parse_port_range-validate_port_range text path range h =
    let valid = range_of-success (split b'-' (trim_space text)) range h in
    rw (sym (validate_parsed_port_range-validate_port_range path range), valid)
