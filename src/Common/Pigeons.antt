-- ===== src/Common/Pigeons.antt =====
-- Distinct names that all stand in a list are not more than it has.
use Prim.Native.Nat.{◌+◌, ◌≤◌}
use mathlib.Core.Path.{◌≡◌}
use mathlib.Core.Bool.{true, false}
use mathlib.Core.List.{List, [], ◌∷◌}
use Prim.Native.String.{String}
use native.Mathlib.Omega.{arith}
use text.Mathlib.Text.{◌==◌}
use text.Mathlib.TextEquality.{eq_iff}
use sbox_manager.Common.Tests.{if◌then◌else◌}
use sbox_manager.Common.Lists.{All, Distinct, has, length}

-- The list without the first occurrence of a name.
drop_one : String → List String → List String
drop_one x [] = []
drop_one x (y ∷ ys) = let rest = y ∷ drop_one x ys in if y == x then ys else rest

length-drop_one :
    (x : String) (ys : List String) → has ys x ≡ true → length (drop_one x ys) + 1 ≡ length ys
unfolding drop_one
length-drop_one x [] h = let bad = h in cc
length-drop_one x (y ∷ ys) h = ground (arith, length-drop_one x ys)

has-drop_one :
    (x z : String) (ys : List String)
    → (z == x) ≡ false
    → has ys z ≡ true
    → has (drop_one x ys) z ≡ true
unfolding drop_one
has-drop_one x z [] other h = let bad = h in cc
has-drop_one x z (y ∷ ys) other h =
    ground (arith, eq_iff y x, eq_iff y z, eq_iff z x, has-drop_one x z ys)

still_there :
    (x : String) (xs ys : List String)
    → has xs x ≡ false
    → All (λ (z : String). has ys z ≡ true) xs
    → All (λ (z : String). has (drop_one x ys) z ≡ true) xs
still_there x [] ys h all = tt
still_there x (z ∷ zs) ys h (here, all) =
    (has-drop_one x z ys (ground arith) here, still_there x zs ys (ground arith) all)

pub length-le-length :
    (xs ys : List String)
    → Distinct xs
    → All (λ (z : String). has ys z ≡ true) xs
    → length xs ≤ length ys
length-le-length [] ys d all = omega arith
length-le-length (x ∷ xs) ys (fresh, d) (here, all) = omega (
  arith,
  length-drop_one x ys here,
  length-le-length xs (drop_one x ys) d (still_there x xs ys fresh all),
)
