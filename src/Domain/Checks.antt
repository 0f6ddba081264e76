-- ===== src/Domain/Checks.antt =====
-- internal/domain/validation.go: the checks of single values.
pub mod Names
use Prim.Native.Char.{code}
use sbox_manager.Common.{
  Bool, List, Option, String, [], codes, contains, contains_code, false, has, has_prefix,
  if◌then◌else◌, is_blank, is_none, leb, ltb_ℤ, nat_eq, none, not, pos, some, strip_prefix, suc,
  trim_space, true, zero, ℕ, ℤ, ◌&&◌, ◌++◌, ◌<>◌, ◌==◌, ◌||◌, ◌∷◌,
}
use sbox_manager.Domain.Issues.{ValidationErrors, add, add_if}
use sbox_manager.Domain.Models.{ApiConfig, PortRange}
use sbox_manager.Std.FilePaths.{clean, rel}
use sbox_manager.Std.Net.{is_loopback_ip, parse_ip, split_host_port}
use sbox_manager.Std.Numbers.{atoi}

-- `allowedValue`.
abbrev pub allowed_value : String → List String → Bool
allowed_value value candidates = has candidates value

abbrev is_alnum : ℕ → Bool
is_alnum c = leb b'0' c && leb c b'9' || leb b'A' c && leb c b'Z' || leb b'a' c && leb c b'z'

abbrev is_name_char : ℕ → Bool
is_name_char c = is_alnum c || nat_eq c b'.' || nat_eq c b'_' || nat_eq c b'-'

all_name_chars : String → Bool
all_name_chars String.[] = true
all_name_chars (String.◌∷◌ c s) = is_name_char (code c) && all_name_chars s

-- `safeNamePattern`.
unfoldable pub matches_safe_name : String → Bool
unfolding all_name_chars
matches_safe_name String.[] = false
matches_safe_name (String.◌∷◌ c s) = is_alnum (code c) && all_name_chars s

-- The test of `validateSafeName`.
unfoldable pub is_safe_name : String → Bool
unfolding matches_safe_name
is_safe_name value =
    not (not (matches_safe_name value) || value == "." || value == ".." || contains value "..")

unfoldable pub validate_safe_name : String → String → ValidationErrors
validate_safe_name path value = add_if (not (is_safe_name value)) path "must be a safe basename" []

abbrev is_hex : ℕ → Bool
is_hex c = leb b'0' c && leb c b'9' || leb b'a' c && leb c b'f' || leb b'A' c && leb c b'F'

-- So many hexadecimal digits, and the rest behind them.
hex_run : ℕ → String → Option String
hex_run zero s = some s
hex_run (suc n) String.[] = none
hex_run (suc n) (String.◌∷◌ c s) = let rest = hex_run n s in if is_hex (code c) then rest else none

-- Groups of hexadecimal digits with dashes between them.
hex_groups : ℕ → List ℕ → String → Bool
unfolding hex_run
hex_groups n [] s = elim (hex_run n s) [ none ↦ false | some rest ↦ rest == "" ]
hex_groups n (m ∷ ms) s = elim (hex_run n s) [
  | none ↦ false
  | some rest ↦ elim (strip_prefix "-" rest) [ none ↦ false | some t ↦ hex_groups m ms t ]
]

-- `uuidPattern`.
unfoldable pub is_uuid : String → Bool
unfolding hex_groups
is_uuid = hex_groups 8 (4 ∷ 4 ∷ 4 ∷ 12 ∷ [])

-- `sha256Pattern`.
unfoldable pub is_sha256 : String → Bool
unfolding hex_groups
is_sha256 = hex_groups 64 []

abbrev is_upper : ℕ → Bool
is_upper c = leb b'A' c && leb c b'Z'

-- `^[A-Z]{2}$`.
unfoldable pub is_region : String → Bool
is_region s = elim (codes s) [ a ∷ b ∷ [] ↦ is_upper a && is_upper b | _ ↦ false ]

-- `port < 1 || port > 65535`.
abbrev pub is_port : ℤ → Bool
is_port port = not (ltb_ℤ port (pos 1) || ltb_ℤ (pos 65535) port)

unfoldable pub validate_port : String → ℤ → ValidationErrors
validate_port path port = add_if (not (is_port port)) path "must be in range 1-65535" []

-- How often a character stands in a text.
count_code : ℕ → String → ℕ
count_code k String.[] = 0
count_code k (String.◌∷◌ c s) = if nat_eq (code c) k then suc (count_code k s) else count_code k s

unfoldable pub validate_host : String → String → ValidationErrors
unfolding count_code
validate_host path host =
    if is_blank host
    then add path "cannot be empty" []
    else if contains_code b'/' host
    then add path "must not contain a path" []
    else add_if (nat_eq (count_code b':' host) 1 && is_none (parse_ip host)) path
        "must be a host without a port" []

-- `splitListenAddress`: the host and the port, or the format of the error.
pub data Split : Type 0 where
  host_port : String → ℤ → Split
  refused : String → Split

listen_port : String → Option ℤ → Split
listen_port host none = refused "port must be an integer from 1 to 65535: %w"
listen_port host (some port) =
    if is_port port then host_port host port else refused "port must be in range 1-65535"

listen_parts : Option (String × String) → Split
unfolding listen_port
listen_parts none = refused "must use HOST:PORT format: %w"
listen_parts (some (host, port)) =
    if is_blank host then refused "host cannot be empty" else listen_port host (atoi port)

unfoldable pub split_listen_address : String → Split
unfolding listen_parts
split_listen_address address = listen_parts (split_host_port address)

unfoldable pub is_loopback_host : String → Bool
is_loopback_host host = host == "localhost" || is_loopback_ip host

-- Some of the characters of `strings.ContainsAny`.
contains_any : List ℕ → String → Bool
contains_any [] s = false
contains_any (k ∷ ks) s = contains_code k s || contains_any ks s

host_error : String → Option String
unfolding contains_any
host_error host =
    if host == ""
    then none
    else if contains host "://" || contains_any (b'/' ∷ b'?' ∷ b'#' ∷ []) host
    then some "must not include URL scheme, path, query, or fragment"
    else if contains_any (b' ' ∷ 9 ∷ 13 ∷ 10 ∷ []) host
    then some "must not include whitespace"
    else none

-- `validateExternalHost`: the text of the error, if there is one.
unfoldable pub validate_external_host : String → Option String
unfolding host_error
validate_external_host host = host_error (trim_space host)

-- `if err != nil { errs.Add(path, "%v", err) }`.
abbrev pub add_error : String → Option String → ValidationErrors
add_error path none = []
add_error path (some text) = add path "%v" (text ∷ [])

-- `pathWithin`: below the parent, and not the parent itself.
unfoldable pub path_within : String → String → Bool
path_within parent child =
    if clean parent == clean child then false else elim (rel (clean parent) (clean child)) [
      | none ↦ false
      | some relative ↦
          not (relative == ".") && not (has_prefix relative "../") && not (relative == "..")
    ]

unfoldable pub validate_port_range : String → PortRange → ValidationErrors
validate_port_range path range =
    add_if (not (is_port range.start)) (path <> ".start") "must be in range 1-65535" []
    ++ add_if (not (is_port range.end)) (path <> ".end") "must be in range 1-65535" []
    ++ add_if (ltb_ℤ range.end range.start) path "start must be less than or equal to end" []

unfoldable pub validate_api_config : String → ApiConfig → ValidationErrors
validate_api_config path api =
    if not api.enabled then [] else elim (split_listen_address api.listen) [
      | refused text ↦ add (path <> ".listen") "%v" (text ∷ [])
      | host_port host port ↦
          add_if (not (is_loopback_host host) && is_blank api.token) (path <> ".token")
            "non-loopback listeners require token" []
    ]
