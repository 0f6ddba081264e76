-- ===== src/Config/PortRanges/FirstFree.antt =====
-- internal/config/portrange.go: the port that `FirstAvailablePort` chooses.
use mathlib.Core.Path.{subst}
use sbox_manager.Common.{
  Bool-cases, List, Option, Outcome, String, arith, failure, false, inl, inr, ltb_ℤ, nat_eq, negsuc,
  none, pos, pos_part, refl, some, suc, success, sym, true, zero, ℕ, ℤ, ◌+◌, ◌-◌, ◌<◌, ◌≡◌, ◌≤◌,
}
use sbox_manager.Config.PortRanges.{first_available_port, scan, taken, validate_parsed_port_range}
use sbox_manager.Domain.Models.{PortRange}

-- What a search from `low` below `high` has to say.
abbrev IsFirst : List ℤ → ℕ → ℕ → Option ℕ → Type 0
IsFirst used low high (some p) =
    (low ≤ p)
    × (p < high)
    × (taken used p ≡ false)
    × ((q : ℕ) → low ≤ q → q < p → taken used q ≡ true)
IsFirst used low high none = (q : ℕ) → low ≤ q → q < high → taken used q ≡ true

IsFirst-suc :
    (used : List ℤ) (low high : ℕ) (r : Option ℕ)
    → taken used low ≡ true
    → IsFirst used (suc low) high r
    → IsFirst used low high r
IsFirst-suc used low high none t h = λ q a b. elim (Bool-cases (nat_eq low q)) [
  | inl e ↦ let same : low ≡ q = ground arith in rw (sym same) t
  | inr e ↦ h q (ground arith) b
]
IsFirst-suc used low high (some p) t (a, b, c, h) = (
  omega arith,
  b,
  c,
  λ q d e. elim (Bool-cases (nat_eq low q)) [
    | inl k ↦ let same : low ≡ q = ground arith in rw (sym same) t
    | inr k ↦ h q (ground arith) e
  ],
)

scan-taken :
    (n low : ℕ) (used : List ℤ)
    → taken used low ≡ true
    → scan (suc n) low used ≡ scan n (suc low) used
unfolding scan
scan-taken n low used t = rw (t, scan)

scan_free : (n low : ℕ) (used : List ℤ) → taken used low ≡ false → scan (suc n) low used ≡ some low
unfolding scan
scan_free n low used t = rw (t, scan)

scan-IsFirst :
    (n low high : ℕ) (used : List ℤ) → high ≡ low + n → IsFirst used low high (scan n low used)
unfolding scan
scan-IsFirst zero low high used e = λ q a b. absurd (omega arith)
scan-IsFirst (suc n) low high used e = elim (Bool-cases (taken used low)) [
  | inl t ↦ subst (IsFirst used low high) (sym (scan-taken n low used t)) (
      IsFirst-suc used low high (scan n (suc low) used) t
        (scan-IsFirst n (suc low) high used (omega arith)))
  | inr t ↦
      subst (IsFirst used low high) (sym (scan_free n low used t))
        (omega arith, omega arith, t, λ q a b. absurd (omega arith))
]

-- What `FirstAvailablePort` promises: the least free port of the range, or an error when every port
-- of it is used.
abbrev pub IsChoice : PortRange → List ℤ → Outcome ℤ → Type 0
IsChoice range used (success (negsuc n)) = ⊥
IsChoice range used (success (pos p)) =
    (pos_part range.start ≤ p)
    × (p ≤ pos_part range.end)
    × (taken used p ≡ false)
    × ((q : ℕ) → pos_part range.start ≤ q → q < p → taken used q ≡ true)
IsChoice range used (failure e) =
    (q : ℕ) → pos_part range.start ≤ q → q ≤ pos_part range.end → taken used q ≡ true

valid-ordered :
    (range : PortRange)
    → validate_parsed_port_range range ≡ none
    → pos_part range.start ≤ pos_part range.end
unfolding validate_parsed_port_range
valid-ordered range h = ordered range.start range.end (ground arith) (ground arith)
  where
    ordered : (a b : ℤ) → ltb_ℤ a (pos 1) ≡ false → ltb_ℤ b a ≡ false → pos_part a ≤ pos_part b
    ordered (pos a) (pos b) x y = ground arith
    ordered (pos a) (negsuc b) x y = ground arith
    ordered (negsuc a) b x y = ground arith

-- On a range of ports, `FirstAvailablePort` returns the least port of the range that is not used, and
-- an error only when every port of the range is used.
pub first_available_port-IsChoice :
    (range : PortRange) (used : List ℤ)
    → validate_parsed_port_range range ≡ none
    → IsChoice range used (first_available_port range used)
unfolding first_available_port
first_available_port-IsChoice range used h =
    let low = pos_part range.start in
    let high = pos_part range.end + 1 in
    let ordered = valid-ordered range h in
    rw (h, IsChoice)
      (choice (scan (high - low) low used) (scan-IsFirst (high - low) low high used (omega arith)))
  where
    choice :
        (r : Option ℕ)
        → IsFirst used (pos_part range.start) (pos_part range.end + 1) r
        → IsChoice range used (elim r [
          | some port ↦ success (pos port)
          | none ↦ failure "port range %d-%d has no available ports"
        ])
    choice none f = λ q a b. f q a (omega arith)
    choice (some p) (a, b, c, f) = (a, omega arith, c, f)

pub first_valid :
    (range : PortRange) (used : List ℤ) (port : ℤ)
    → first_available_port range used ≡ success port
    → validate_parsed_port_range range ≡ none
unfolding first_available_port
first_valid range used port h = settled (validate_parsed_port_range range) refl h
  where
    settled :
        (v : Option String)
        → v ≡ validate_parsed_port_range range
        → elim v [
          | some e ↦ failure e
          | none ↦
              elim (scan
                (pos_part range.end + 1 - pos_part range.start)
                (pos_part range.start)
                used) [
                  | some p ↦ success (pos p)
                  | none ↦ failure "port range %d-%d has no available ports"
                ]
        ]
          ≡ success port
        → validate_parsed_port_range range ≡ none
    settled none e k = sym e
    settled (some m) e k = cc
