-- ===== src/Std/Numbers.antt =====
-- Package `strconv`: decimal integers.
use Prim.Native.Char.{code}
use sbox_manager.Common.{
  Bool, Option, String, false, if◌then◌else◌, itoa, leb, ltb, nat_eq, negsuc, none, pos, refl, some,
  true, ℕ, ℤ, ◌&&◌, ◌*◌, ◌+◌, ◌-◌, ◌<>◌, ◌==◌, ◌^◌, ◌≡◌,
}

abbrev pub is_digit : ℕ → Bool
is_digit c = leb b'0' c && leb c b'9'

-- The value of a text of digits alone.
unfoldable pub decimal : ℕ → String → Option ℕ
decimal n String.[] = some n
decimal n (String.◌∷◌ c s) =
    let rest = decimal (n * 10 + (code c - b'0')) s in if is_digit (code c) then rest else none

magnitude : String → Option ℕ
unfolding decimal
magnitude s = if s == "" then none else decimal 0 s

signed : Bool → Option ℕ → Option ℤ
signed minus none = none
signed true (some n) =
    if ltb (2 ^ 63) n then none else if nat_eq n 0 then some (pos 0) else some (negsuc (n - 1))
signed false (some n) = if ltb n (2 ^ 63) then some (pos n) else none

-- `strconv.Atoi` on a 64-bit machine.
unfoldable pub atoi : String → Option ℤ
unfolding magnitude signed
atoi String.[] = none
atoi (String.◌∷◌ c s) =
    if nat_eq (code c) b'-'
    then signed true (magnitude s)
    else if nat_eq (code c) b'+'
    then signed false (magnitude s)
    else signed false (magnitude (String.◌∷◌ c s))

-- `strconv.ParseUint(s, 10, 64)`.
unfoldable pub parse_uint : String → Option ℕ
unfolding magnitude
parse_uint s = elim (magnitude s) [ none ↦ none | some n ↦ if ltb n (2 ^ 64) then some n else none ]

atoi_minus : atoi "-12" ≡ some (negsuc 11)
unfolding atoi
atoi_minus = refl

-- `strconv.Itoa`.
abbrev pub itoa_ℤ : ℤ → String
itoa_ℤ (pos n) = itoa n
itoa_ℤ (negsuc n) = "-" <> itoa (n + 1)
