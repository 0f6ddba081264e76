-- ===== src/Std/Net.antt =====
-- Package `net`: `SplitHostPort`, `ParseIP` and `IP.IsLoopback`.
use Prim.Native.Char.{code}
use mathlib.Core.Option
use sbox_manager.Common.{
  Bool, List, Option, String, [], codes, contains_code, false, if◌then◌else◌, leb, length, ltb,
  nat_eq, none, not, refl, some, strip_prefix, suc, true, zero, ℕ, ◌&&◌, ◌*◌, ◌++◌, ◌+◌, ◌-◌, ◌/◌,
  ◌<>◌, ◌==◌, ◌||◌, ◌∷◌, ◌≡◌,
}
use sbox_manager.Std.Cut.{cut_first, cut_last, split}
use sbox_manager.Std.Numbers.{decimal}

-- A host in brackets: what stands behind the closing bracket is the colon and the port.
bracketed : Option (String × String) → Option (String × String)
bracketed none = none
bracketed (some (host, rest)) = elim (strip_prefix ":" rest) [
  | none ↦ none
  | some port ↦
      if contains_code b':' port
        || contains_code b'[' host
        || contains_code b'[' port
        || contains_code b']' port
      then none
      else some (host, port)
]

plain : Option (String × String) → Option (String × String)
plain none = none
plain (some (host, port)) =
    if contains_code b':' host
      || contains_code b'[' host
      || contains_code b'[' port
      || contains_code b']' host
      || contains_code b']' port
    then none
    else some (host, port)

-- `net.SplitHostPort`; the text of its error is not modelled.
unfoldable pub split_host_port : String → Option (String × String)
unfolding bracketed plain
split_host_port String.[] = none
split_host_port (String.◌∷◌ c s) =
    if nat_eq (code c) b'['
    then bracketed (cut_first b']' s)
    else plain (cut_last b':' (String.◌∷◌ c s))

has_leading_zero : String → Bool
has_leading_zero String.[] = false
has_leading_zero (String.◌∷◌ c s) = nat_eq (code c) b'0' && not (s == "")

-- One decimal field of an IPv4 address: no leading zero, at most 255.
octet : String → Option ℕ
unfolding has_leading_zero
octet s =
    if s == "" || has_leading_zero s
    then none
    else elim (decimal 0 s) [ none ↦ none | some n ↦ if ltb 255 n then none else some n ]

hex_digit : ℕ → Option ℕ
hex_digit c =
    if leb b'0' c && leb c b'9'
    then some (c - b'0')
    else if leb b'a' c && leb c b'f'
    then some (c - b'a' + 10)
    else if leb b'A' c && leb c b'F'
    then some (c - b'A' + 10)
    else none

hex_from : ℕ → String → Option ℕ
unfolding hex_digit
hex_from n String.[] = some n
hex_from n (String.◌∷◌ c s) = elim (hex_digit (code c)) [
  | none ↦ none
  | some d ↦ hex_from (n * 16 + d) s
]

-- One group of an IPv6 address: one to four hexadecimal digits.
hextet : String → Option ℕ
unfolding hex_from
hextet s = if s == "" then none else elim (hex_from 0 s) [
  | none ↦ none
  | some n ↦ if ltb 4 (length (codes s)) then none else some n
]

octets : List String → Option (List ℕ)
unfolding octet
octets [] = some []
octets (s ∷ ss) = elim (octet s) [ none ↦ none | some n ↦ Option.map (λ ns. n ∷ ns) (octets ss) ]

-- The four bytes of an IPv4 address.
ipv4 : String → Option (List ℕ)
unfolding octets
ipv4 s = elim (octets (split b'.' s)) [
  | none ↦ none
  | some ns ↦ if nat_eq (length ns) 4 then some ns else none
]

pairs : List ℕ → List ℕ
pairs (a ∷ b ∷ c ∷ d ∷ []) = (a * 256 + b) ∷ (c * 256 + d) ∷ []
pairs _ = []

-- The groups of a part of an IPv6 address; the last one may be an IPv4 address.
groups : List String → Option (List ℕ)
unfolding hextet ipv4 pairs
groups [] = some []
groups (s ∷ []) =
    if contains_code b'.' s then Option.map pairs (ipv4 s) else Option.map (λ n. n ∷ []) (hextet s)
groups (s ∷ t ∷ ss) =
    let rest = groups (t ∷ ss) in
    elim (hextet s) [ none ↦ none | some n ↦ Option.map (λ ns. n ∷ ns) rest ]

part_groups : String → Option (List ℕ)
unfolding groups
part_groups s = if s == "" then some [] else groups (split b':' s)

zeros : ℕ → List ℕ
zeros zero = []
zeros (suc n) = 0 ∷ zeros n

-- At the double colon: the text before it and behind it.
cut_double : String → Option (String × String)
cut_double String.[] = none
cut_double (String.◌∷◌ c s) =
    let rest = Option.map (λ (p : String × String). (String.◌∷◌ c p.0, p.1)) (cut_double s) in
    elim (strip_prefix "::" (String.◌∷◌ c s)) [ none ↦ rest | some behind ↦ some ("", behind) ]

fill : Option (List ℕ) → Option (List ℕ) → Option (List ℕ)
unfolding zeros
fill (some before) (some behind) =
    let count = length before + length behind in
    if ltb count 8 then some (before ++ zeros (8 - count) ++ behind) else none
fill _ _ = none

-- The eight groups of an IPv6 address. Before the double colon no IPv4 form may stand.
ipv6 : String → Option (List ℕ)
unfolding part_groups cut_double fill
ipv6 s = elim (cut_double s) [
  | none ↦ elim (part_groups s) [
    | none ↦ none
    | some ns ↦ if nat_eq (length ns) 8 then some ns else none
  ]
  | some (before, behind) ↦
      if contains_code b'.' before then none else fill (part_groups before) (part_groups behind)
]

-- `net.ParseIP` as eight groups of 16 bits; an IPv4 address is ::ffff:a.b.c.d, and a zone is refused.
unfoldable pub parse_ip : String → Option (List ℕ)
unfolding ipv6
parse_ip s =
    if contains_code b':' s
    then ipv6 s
    else Option.map (λ ns. zeros 5 ++ 0xffff ∷ pairs ns) (ipv4 s)

loopback_groups : List ℕ → Bool
loopback_groups (a ∷ b ∷ c ∷ d ∷ e ∷ f ∷ g ∷ h ∷ []) =
    let zero5 = nat_eq (a + b + c + d + e) 0 in
    (zero5 && nat_eq f 0xffff && nat_eq (g / 256) 127)
    || (zero5 && nat_eq f 0 && nat_eq g 0 && nat_eq h 1)
loopback_groups _ = false

-- `net.ParseIP(s).IsLoopback()`, and `false` where the address is not parsed.
unfoldable pub is_loopback_ip : String → Bool
unfolding parse_ip loopback_groups
is_loopback_ip s = elim (parse_ip s) [ none ↦ false | some ns ↦ loopback_groups ns ]

loopback_examples :
    (is_loopback_ip "127.0.0.1" ≡ true)
    × (is_loopback_ip "::1" ≡ true)
    × (is_loopback_ip "::ffff:127.1.2.3" ≡ true)
    × (is_loopback_ip "10.0.0.1" ≡ false)
    × (is_loopback_ip "0:0:0:0:0:0:0:1" ≡ true)
    × (is_loopback_ip "1:::1" ≡ false)
unfolding is_loopback_ip split decimal strip_prefix contains_code
loopback_examples = (refl, refl, refl, refl, refl, refl)

-- `net.JoinHostPort`.
unfoldable pub join_host_port : String → String → String
join_host_port host port =
    if contains_code b':' host then "[" <> host <> "]:" <> port else host <> ":" <> port
