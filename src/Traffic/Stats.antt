-- ===== src/Traffic/Stats.antt =====
-- internal/traffic/stats.go: counters from the entries of the stats API.
use Prim.Native.Char.{Char, code}
use sbox_manager.Common.{
  Bool, List, Option, String, [], has, has_prefix, if◌then◌else◌, nat_eq, negsuc, none, not, pos,
  some, suc, trim_space, zero, ℕ, ℤ, ◌%◌, ◌&&◌, ◌+◌, ◌<>◌, ◌==◌, ◌^◌, ◌||◌, ◌∷◌,
}
use sbox_manager.Std.Cut.{to_lower}
use sbox_manager.Traffic.Types.{Counter, valid_scopes}

-- `strings.ReplaceAll(name, "/", ">>>")`.
unfoldable pub slashes : String → String
slashes String.[] = ""
slashes (String.◌∷◌ c s) =
    let rest = slashes s in if nat_eq (code c) b'/' then ">>>" <> rest else String.◌∷◌ c rest

-- `strings.Split(s, ">>>")`: the number counts the characters of a separator still to skip.
add_char : Char → List String → List String
add_char c [] = (String.◌∷◌ c "") ∷ []
add_char c (p ∷ ps) = (String.◌∷◌ c p) ∷ ps

split_arrows_from : ℕ → String → List String
unfolding add_char
split_arrows_from n String.[] = "" ∷ []
split_arrows_from (suc n) (String.◌∷◌ c s) = split_arrows_from n s
split_arrows_from zero (String.◌∷◌ c s) =
    let cut = "" ∷ split_arrows_from 2 s in
    let on = add_char c (split_arrows_from 0 s) in
    if has_prefix (String.◌∷◌ c s) ">>>" then cut else on

unfoldable pub split_arrows : String → List String
unfolding split_arrows_from
split_arrows s = split_arrows_from 0 s

unfoldable pub normalize_direction : String → String
normalize_direction direction =
    let d = to_lower (trim_space direction) in
    if d == "uplink" || d == "up"
    then "up"
    else if d == "downlink" || d == "down"
    then "down"
    else ""

last_of : String → List String → String
last_of x [] = x
last_of x (y ∷ ys) = last_of y ys

-- The parts of a name: the scope, the name and the direction.
parse_parts : List String → Option (String × String × String)
unfolding last_of
parse_parts (a ∷ b ∷ c ∷ d ∷ rest) =
    let scope = trim_space a in
    let name = trim_space b in
    let direction = normalize_direction (last_of d rest) in
    if not (has valid_scopes scope) || name == "" || direction == ""
    then none
    else some (scope, name, direction)
parse_parts _ = none

unfoldable pub parse_stat_name : String → Option (String × String × String)
unfolding parse_parts
parse_stat_name name = parse_parts (split_arrows (slashes name))

unfoldable pub stat_to_counter : String → ℕ → Option Counter
stat_to_counter name value = elim (parse_stat_name name) [
  | none ↦ none
  | some (s, n, d) ↦ some (record { scope = s; name = n; direction = d; value = value })
]

abbrev pub same_counter : Counter → Counter → Bool
same_counter a b = a.scope == b.scope && a.name == b.name && a.direction == b.direction

-- The map of `statsToCounters`: the values of one counter are added in 64 bits.
unfoldable pub collect_counter : Counter → List Counter → List Counter
collect_counter c [] = c ∷ []
collect_counter c (x ∷ xs) =
    let rest = collect_counter c xs in
    if same_counter x c then record c { value = (c.value + x.value) % 2 ^ 64 } ∷ xs else x ∷ rest

-- A reply entry: its name and its signed value.
unfoldable pub stats_to_counters_from : List Counter → List (String × ℤ) → List Counter
stats_to_counters_from collected [] = collected
stats_to_counters_from collected ((name, negsuc n) ∷ rest) = stats_to_counters_from collected rest
stats_to_counters_from collected ((name, pos n) ∷ rest) =
    stats_to_counters_from
      (elim (stat_to_counter name n) [ none ↦ collected | some c ↦ collect_counter c collected ])
      rest

unfoldable pub stats_to_counters : List (String × ℤ) → List Counter
unfolding stats_to_counters_from collect_counter
stats_to_counters stats = stats_to_counters_from [] stats
