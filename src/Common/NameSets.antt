-- ===== src/Common/NameSets.antt =====
-- Sets of names as lists: no name twice, no name in two lists, and names put in one after the other.
use mathlib.Core.Path.{◌≡◌, refl}
use mathlib.Core.Bool.{false, ◌||◌}
use mathlib.Core.List.{List, [], ◌∷◌, ◌++◌}
use Prim.Native.String.{String}
use native.Mathlib.Omega.{arith}
use text.Mathlib.Text.{◌==◌}
use text.Mathlib.TextEquality.{eq_iff}
use sbox_manager.Common.Lists.{All, Distinct, has}

abbrev pub Disjoint : List String → List String → Type 0
Disjoint xs ys = All (λ (y : String). has xs y ≡ false) ys

pub has-append : (xs ys : List String) (k : String) → has (xs ++ ys) k ≡ (has xs k || has ys k)
has-append [] ys k = refl
has-append (x ∷ xs) ys k = ground (arith, has-append xs ys k)

Disjoint-tail : (x : String) (xs ys : List String) → Disjoint (x ∷ xs) ys → Disjoint xs ys
Disjoint-tail x xs [] h = tt
Disjoint-tail x xs (y ∷ ys) (a, h) = (ground arith, Disjoint-tail x xs ys h)

Disjoint-head : (x : String) (xs ys : List String) → Disjoint (x ∷ xs) ys → has ys x ≡ false
Disjoint-head x xs [] h = refl
Disjoint-head x xs (y ∷ ys) (a, h) = ground (arith, eq_iff x y, eq_iff y x, Disjoint-head x xs ys h)

pub Distinct-append :
    (xs ys : List String) → Distinct xs → Distinct ys → Disjoint xs ys → Distinct (xs ++ ys)
Distinct-append [] ys dx dy h = dy
Distinct-append (x ∷ xs) ys dx dy h = (
  rw (has-append xs ys x) (rw (dx.0, Disjoint-head x xs ys h) refl),
  Distinct-append xs ys dx.1 dy (Disjoint-tail x xs ys h),
)

-- Each name is new when the loop reaches it.
abbrev pub NewNames : List String → List String → Type 0
NewNames seen [] = Unit
NewNames seen (k ∷ ks) = (has seen k ≡ false) × NewNames (k ∷ seen) ks

pub NewNames-Distinct : (seen ks : List String) → NewNames seen ks → Distinct ks × Disjoint seen ks
NewNames-Distinct seen [] h = (tt, tt)
NewNames-Distinct seen (k ∷ ks) (fresh, h) =
    let (one_each, apart) = NewNames-Distinct (k ∷ seen) ks h in
    ((Disjoint-head k seen ks apart, one_each), (fresh, Disjoint-tail k seen ks apart))

pub ==_comm : (a b : String) → (a == b) ≡ (b == a)
==_comm a b = ground (arith, eq_iff a b, eq_iff b a)
