-- ===== src/Std/Cut.antt =====
-- Package `strings`: cutting a text at a character, letter case, suffixes.
use Prim.Native.Char.{Char, code}
use sbox_manager.Common.{
  Bool, List, Option, String, [], false, if◌then◌else◌, leb, nat_eq, none, not, some, true, ℕ, ◌&&◌,
  ◌==◌, ◌∷◌,
}

unfoldable pub join_first : Bool → Char → List String → List String
join_first true c parts = "" ∷ parts
join_first false c [] = (String.◌∷◌ c "") ∷ []
join_first false c (p ∷ ps) = (String.◌∷◌ c p) ∷ ps

-- `strings.Split` at one character: always at least one part.
unfoldable pub split : ℕ → String → List String
unfolding join_first
split k String.[] = "" ∷ []
split k (String.◌∷◌ c s) = join_first (nat_eq (code c) k) c (split k s)

onto : Char → Option (String × String) → Option (String × String)
onto c none = none
onto c (some (a, b)) = some (String.◌∷◌ c a, b)

-- The text before the first such character and the text behind it (`strings.Index`).
unfoldable pub cut_first : ℕ → String → Option (String × String)
unfolding onto
cut_first k String.[] = none
cut_first k (String.◌∷◌ c s) =
    let rest = cut_first k s in if nat_eq (code c) k then some ("", s) else onto c rest

onto_last : Bool → Char → String → Option (String × String) → Option (String × String)
onto_last hit c s (some (a, b)) = some (String.◌∷◌ c a, b)
onto_last true c s none = some ("", s)
onto_last false c s none = none

-- The same at the last such character (`strings.LastIndex`).
unfoldable pub cut_last : ℕ → String → Option (String × String)
unfolding onto_last
cut_last k String.[] = none
cut_last k (String.◌∷◌ c s) = onto_last (nat_eq (code c) k) c s (cut_last k s)

low : Char → Char
low c =
    let n = code c in
    if not (leb b'A' n && leb n b'Z')
    then c
    else if nat_eq n b'A'
    then "a"
    else if nat_eq n b'B'
    then "b"
    else if nat_eq n b'C'
    then "c"
    else if nat_eq n b'D'
    then "d"
    else if nat_eq n b'E'
    then "e"
    else if nat_eq n b'F'
    then "f"
    else if nat_eq n b'G'
    then "g"
    else if nat_eq n b'H'
    then "h"
    else if nat_eq n b'I'
    then "i"
    else if nat_eq n b'J'
    then "j"
    else if nat_eq n b'K'
    then "k"
    else if nat_eq n b'L'
    then "l"
    else if nat_eq n b'M'
    then "m"
    else if nat_eq n b'N'
    then "n"
    else if nat_eq n b'O'
    then "o"
    else if nat_eq n b'P'
    then "p"
    else if nat_eq n b'Q'
    then "q"
    else if nat_eq n b'R'
    then "r"
    else if nat_eq n b'S'
    then "s"
    else if nat_eq n b'T'
    then "t"
    else if nat_eq n b'U'
    then "u"
    else if nat_eq n b'V'
    then "v"
    else if nat_eq n b'W'
    then "w"
    else if nat_eq n b'X'
    then "x"
    else if nat_eq n b'Y'
    then "y"
    else "z"

-- `strings.ToLower` on the ASCII letters; the program compares the result with ASCII words alone.
unfoldable pub to_lower : String → String
unfolding low
to_lower String.[] = ""
to_lower (String.◌∷◌ c s) = String.◌∷◌ (low c) (to_lower s)

-- `strings.TrimSuffix`.
unfoldable pub trim_suffix : String → String → String
trim_suffix String.[] suffix = ""
trim_suffix (String.◌∷◌ c s) suffix =
    let rest = String.◌∷◌ c (trim_suffix s suffix) in if String.◌∷◌ c s == suffix then "" else rest
