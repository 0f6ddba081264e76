-- ===== src/Std/FilePaths.antt =====
-- Packages `path` and `path/filepath` on a Unix system: the lexical operations.
use Prim.Native.Char.{code}
use mathlib.Core.List.{reverse}
use sbox_manager.Common.{
  Bool, List, Option, String, [], bool_eq, false, has, if◌then◌else◌, keep, nat_eq, none, not, refl,
  some, ◌&&◌, ◌++◌, ◌<>◌, ◌==◌, ◌||◌, ◌∷◌, ◌≡◌,
}
use sbox_manager.Std.Cut.{cut_last, split}

unfoldable pub is_abs : String → Bool
is_abs String.[] = false
is_abs (String.◌∷◌ c s) = nat_eq (code c) b'/'

-- One element of a path: the kept elements have the last one at the head.
unfoldable pub resolve : Bool → List String → String → List String
resolve rooted [] part =
    if part == "" || part == "." then [] else if part == ".." && rooted then [] else part ∷ []
resolve rooted (top ∷ stack) part =
    if part == "" || part == "."
    then top ∷ stack
    else if part == ".."
    then (if top == ".." then part ∷ top ∷ stack else stack)
    else part ∷ top ∷ stack

unfoldable pub resolve_all : Bool → List String → List String → List String
unfolding resolve
resolve_all rooted stack [] = stack
resolve_all rooted stack (part ∷ parts) = resolve_all rooted (resolve rooted stack part) parts

-- The elements of the shortest equivalent path.
unfoldable pub elements : String → List String
unfolding resolve_all
elements p = reverse (resolve_all (is_abs p) [] (split b'/' p))

unfoldable pub join_slash : List String → String
join_slash [] = ""
join_slash (p ∷ []) = p
join_slash (p ∷ q ∷ ps) = p <> "/" <> join_slash (q ∷ ps)

-- `path.Clean`, `filepath.Clean`.
unfoldable pub clean : String → String
unfolding elements join_slash
clean p =
    let body = join_slash (elements p) in
    if is_abs p then "/" <> body else if body == "" then "." else body

-- `filepath.Join` of two elements: empty elements are ignored.
unfoldable pub join : String → String → String
unfolding clean
join a b = if a == "" then (if b == "" then "" else clean b) else clean (a <> "/" <> b)

drop_common : List String → List String → List String × List String
drop_common [] ys = ([], ys)
drop_common (x ∷ xs) [] = (x ∷ xs, [])
drop_common (x ∷ xs) (y ∷ ys) =
    let rest = drop_common xs ys in if x == y then rest else (x ∷ xs, y ∷ ys)

ups : List String → List String
ups [] = []
ups (x ∷ xs) = ".." ∷ ups xs

-- `filepath.Rel`: `none` where one path is rooted and the other is not, or where the base still
-- goes up at the place where they part.
unfoldable pub rel : String → String → Option String
unfolding elements join_slash drop_common ups
rel base target =
    let (b, t) = drop_common (elements base) (elements target) in
    let path = join_slash (ups b ++ t) in
    if not (bool_eq (is_abs base) (is_abs target))
    then none
    else if has b ".."
    then none
    else some (if path == "" then "." else path)

last_or : String → List String → String
last_or d [] = d
last_or d (x ∷ xs) = last_or x xs

-- `filepath.Base`.
unfoldable pub base : String → String
unfolding last_or
base p =
    if p == ""
    then "."
    else last_or (if is_abs p then "/" else ".") (keep (λ s. not (s == "")) (split b'/' p))

last_part : String → String
last_part p = elim (cut_last b'/' p) [ none ↦ p | some (a, b) ↦ b ]

-- `filepath.Ext`: from the last dot of the last element; empty if there is none.
unfoldable pub ext : String → String
unfolding last_part
ext p = elim (cut_last b'.' (last_part p)) [ none ↦ "" | some (a, b) ↦ "." <> b ]

clean_example : clean "/a/./b/../../c//d" ≡ "/c/d"
unfolding clean split is_abs
clean_example = refl

rel_example : rel "/a/b" "/a/c/d" ≡ some "../c/d"
unfolding rel split is_abs
rel_example = refl
