-- ===== src/Manager/Ports.antt =====
-- internal/instance/manager.go: the ports that are given to a new or a cloned instance.
pub mod Allocated
use sbox_manager.Common.{
  Bool, List, Option, Outcome, String, [], codes, failure, false, if◌then◌else◌, itoa, leb, ltb_ℤ,
  nat_eq, none, not, pos, pos_part, some, success, trim_space, true, ℕ, ℤ, ◌&&◌, ◌++◌, ◌+◌, ◌==◌,
  ◌||◌, ◌∷◌,
}
use sbox_manager.Config.PortRanges.{first_available_port}
use sbox_manager.Domain.Models.{ApiConfig, GlobalConfig, Inbound, Instance, PortRange}
use sbox_manager.Std.Net.{is_loopback_ip, join_host_port, split_host_port}
use sbox_manager.Std.Numbers.{atoi}

-- `strings.EqualFold` against a text of ASCII letters: two characters beyond ASCII fold to ASCII
-- letters, the long s and the Kelvin sign.
fold_code : ℕ → ℕ
fold_code c =
    if leb b'A' c && leb c b'Z'
    then c + 32
    else if nat_eq c 383
    then b's'
    else if nat_eq c 8490
    then b'k'
    else c

folds_to : List ℕ → List ℕ → Bool
unfolding fold_code
folds_to [] [] = true
folds_to (a ∷ s) (b ∷ t) = nat_eq (fold_code a) b && folds_to s t
folds_to _ _ = false

-- `isLoopbackListen`.
unfoldable pub is_loopback_listen : String → Bool
unfolding folds_to
is_loopback_listen value =
    folds_to (codes (trim_space value)) (codes "localhost") || is_loopback_ip (trim_space value)

unfoldable pub port_range_for_inbound : GlobalConfig → Inbound → PortRange
port_range_for_inbound global inbound =
    if inbound.type == "socks5"
    then (if not (is_loopback_listen inbound.listen)
        then global.port_ranges.inbound
        else global.port_ranges.local_socks)
    else if inbound.type == "http"
    then (if not (is_loopback_listen inbound.listen)
        then global.port_ranges.inbound
        else global.port_ranges.local_http)
    else global.port_ranges.inbound

-- `splitListenAddress` of this package: any integer is a port.
unfoldable pub split_address : String → Option (String × ℤ)
split_address value = elim (split_host_port value) [
  | none ↦ none
  | some (host, text) ↦ elim (atoi text) [ none ↦ none | some port ↦ some (host, port) ]
]

used_by_inbounds : List Inbound → List ℤ
used_by_inbounds [] = []
used_by_inbounds (i ∷ is) =
    let rest = used_by_inbounds is in if ltb_ℤ (pos 0) i.port then i.port ∷ rest else rest

used_by_api : ApiConfig → List ℤ
used_by_api api = if not api.enabled then [] else elim (split_address api.listen) [
  | none ↦ []
  | some (host, port) ↦ if ltb_ℤ (pos 0) port then port ∷ [] else []
]

-- `usedPorts`.
unfoldable pub used_ports : List Instance → List ℤ
unfolding used_by_inbounds used_by_api
used_ports [] = []
used_ports (i ∷ is) = used_by_inbounds i.inbounds ++ used_by_api i.api ++ used_ports is

-- `replaceListenPort`.
unfoldable pub replace_listen_port : String → ℤ → String
replace_listen_port value port = elim (split_address value) [
  | none ↦ value
  | some (host, old) ↦ join_host_port host (itoa (pos_part port))
]

abbrev pub put_port : Inbound → ℤ → List Inbound × List ℤ → List Inbound × List ℤ
put_port i port (rest, used) = (record i { port = port } ∷ rest, used)

-- The loop of `allocatePorts` over the inbounds; the ports that it puts in stand in front.
unfoldable pub allocate_inbounds :
    GlobalConfig → List ℤ → List Inbound → Outcome (List Inbound × List ℤ)
allocate_inbounds global used [] = success ([], used)
allocate_inbounds global used (i ∷ is) =
    elim (first_available_port (port_range_for_inbound global i) used) [
      | failure e ↦ failure e
      | success port ↦ elim (allocate_inbounds global (port ∷ used) is) [
        | failure e ↦ failure e
        | success r ↦ success (put_port i port r)
      ]
    ]

unfoldable pub allocate_api : GlobalConfig → List ℤ → ApiConfig → Outcome ApiConfig
allocate_api global used api =
    if not api.enabled then success api else elim (split_address api.listen) [
      | none ↦ success api
      | some (host, old) ↦ elim (first_available_port global.port_ranges.api used) [
        | failure e ↦ failure e
        | success port ↦ success (record api { listen = replace_listen_port api.listen port })
      ]
    ]

-- `allocatePorts`: the target with its ports. What an error leaves of it is not used by the callers.
unfoldable pub allocate_ports : GlobalConfig → List Instance → Instance → Outcome Instance
unfolding allocate_api
allocate_ports global existing target =
    elim (allocate_inbounds global (used_ports existing) target.inbounds) [
      | failure e ↦ failure e
      | success (inbounds, used) ↦ elim (allocate_api global used target.api) [
        | failure e ↦ failure e
        | success api ↦ success (record target { inbounds = inbounds; api = api })
      ]
    ]
