-- ===== src/Domain/Refs/Longest.antt =====
-- internal/domain/validation.go: `resolveOutboundRefTarget` finds the longest instance name.
use mathlib.Core.Path.{subst}
use sbox_manager.Common.{
  Bool-cases, List, Option, Option-cases, String, [], ap, arith, codes, eq_iff, false, inl, inr,
  is_blank, length, none, not, refl, some, strip_prefix, trim_space, true, ℕ, ◌<>◌, ◌==◌, ◌||◌, ◌∷◌,
  ◌≡◌, ◌≤◌, ◌⊎◌,
}
use sbox_manager.Domain.Models.{Instance}
use sbox_manager.Domain.Refs.{Target, consider, longer, resolve_from, resolve_outbound_ref_target}

-- An entry of the map, with its key and its value.
abbrev pub In : String → Instance → List (String × Instance) → Type 0
In name instance' [] = ⊥
In name instance' ((n, i) ∷ m) = ((n ≡ name) × (i ≡ instance')) ⊎ In name instance' m

-- The length of the name that was found; 0 where none was.
abbrev pub found_length : Option Target → ℕ
found_length none = 0
found_length (some target) = length (codes target.instance_name)

-- The ref is the name, a dot and a rest that is not blank.
abbrev pub Names : String → String → String → Type 0
Names ref name behind = (strip_prefix (name <> ".") ref ≡ some behind) × (is_blank behind ≡ false)

abbrev pub IsTarget : String → List (String × Instance) → Target → Type 0
IsTarget ref m t =
    In t.instance_name t.found m
    × ((behind : String) × Names ref t.instance_name behind × (t.inbound_name ≡ trim_space behind))

empty_length : (name : String) → (name == "") ≡ true → length (codes name) ≡ 0
empty_length name h = rw ((eq_iff name "").0 h)

le-longer :
    (name : String) (best : Option Target)
    → longer name best ≡ false
    → length (codes name) ≤ found_length best
unfolding longer
le-longer name none h = ground (arith, empty_length name)
le-longer name (some t) h = ground arith

found_length-consider :
    (ref name : String) (i : Instance) (best : Option Target)
    → found_length best ≤ found_length (consider ref name i best)
unfolding consider longer
found_length-consider ref name i none = omega arith
found_length-consider ref name i (some t) = ground arith

consider_hit :
    (ref name : String) (i : Instance) (best : Option Target) (behind : String)
    → Names ref name behind
    → length (codes name) ≤ found_length (consider ref name i best)
unfolding consider
consider_hit ref name i best behind (e, b) = elim (Bool-cases (longer name best)) [
  | inl l ↦ rw (e, consider, l, b) (omega arith)
  | inr s ↦ rw (e, consider, s) (le-longer name best s)
]

found_length-resolve_from :
    (ref : String) (best : Option Target) (m : List (String × Instance))
    → found_length best ≤ found_length (resolve_from ref best m)
unfolding resolve_from
found_length-resolve_from ref best [] = omega arith
found_length-resolve_from ref best ((n, i) ∷ m) = omega (
  arith,
  found_length-resolve_from ref (consider ref n i best) m,
  found_length-consider ref n i best,
)

resolve_from_hit :
    (ref : String) (best : Option Target) (m : List (String × Instance)) (name : String)
    (i : Instance) (behind : String)
    → In name i m
    → Names ref name behind
    → length (codes name) ≤ found_length (resolve_from ref best m)
unfolding resolve_from
resolve_from_hit ref best [] name i behind (h) n = elim h [ ]
resolve_from_hit ref best ((n, j) ∷ m) name i behind (inl (e, e')) hit = omega (
  arith,
  consider_hit ref n j best behind (rw e hit),
  found_length-resolve_from ref (consider ref n j best) m,
  ap (λ (s : String). length (codes s)) e,
)
resolve_from_hit ref best ((n, j) ∷ m) name i behind (inr h) hit =
    resolve_from_hit ref (consider ref n j best) m name i behind h hit

-- The result is the start, or one of the entries that the ref names.
abbrev Found : String → Option Target → List (String × Instance) → Option Target → Type 0
Found ref best m none = Unit
Found ref best m (some t) = (best ≡ some t) ⊎ IsTarget ref m t

consider-Found :
    (ref n : String) (i : Instance) (best : Option Target) (m : List (String × Instance))
    → Found ref best ((n, i) ∷ m) (consider ref n i best)
unfolding consider
consider-Found ref n i best m = elim (Option-cases (strip_prefix (n <> ".") ref)) [
  | inl e ↦ rw (e, consider) (kept best)
  | inr (behind, e) ↦ elim (Bool-cases (not (longer n best) || is_blank behind)) [
    | inl k ↦ rw (e, consider, k) (kept best)
    | inr h ↦ rw (e, consider, h) (inr (inl (refl, refl), (behind, (e, ground arith), refl)))
  ]
]
  where
    kept : (b : Option Target) → Found ref b ((n, i) ∷ m) b
    kept none = tt
    kept (some t) = inl refl

IsTarget-cons :
    (ref : String) (e : String × Instance) (m : List (String × Instance)) (t : Target)
    → IsTarget ref m t
    → IsTarget ref (e ∷ m) t
IsTarget-cons ref e m t (h, k) = (inr h, k)

resolve_from-Found :
    (ref : String) (best : Option Target) (m : List (String × Instance))
    → Found ref best m (resolve_from ref best m)
unfolding resolve_from
resolve_from-Found ref none [] = tt
resolve_from-Found ref (some t) [] = inl refl
resolve_from-Found ref best ((n, i) ∷ m) =
    step (resolve_from ref (consider ref n i best) m)
      (resolve_from-Found ref (consider ref n i best) m)
  where
    back :
        (t : Target) (b : Option Target)
        → Found ref best ((n, i) ∷ m) b
        → b ≡ some t
        → (best ≡ some t) ⊎ IsTarget ref ((n, i) ∷ m) t
    back t none f e = cc
    back t (some u) f e =
        let same : u ≡ t = cc in
        subst (λ (x : Target). (best ≡ some x) ⊎ IsTarget ref ((n, i) ∷ m) x) same f

    step :
        (r : Option Target) → Found ref (consider ref n i best) m r → Found ref best ((n, i) ∷ m) r
    step none f = tt
    step (some t) (inl e) = back t (consider ref n i best) (consider-Found ref n i best m) e
    step (some t) (inr f) = inr (IsTarget-cons ref (n, i) m t f)

-- What `resolveOutboundRefTarget` finds is an entry of the map whose name, with a dot, begins the
-- trimmed ref, and the inbound name is the trimmed non-blank rest. The name found (of length 0
-- where none is found) is at least as long as that of each entry that the ref names so.
pub resolve_outbound_ref_target_lem :
    (ref : String) (m : List (String × Instance))
    → ((t : Target) → resolve_outbound_ref_target ref m ≡ some t → IsTarget (trim_space ref) m t)
      × ((name : String) (i : Instance) (behind : String)
          → In name i m
          → Names (trim_space ref) name behind
          → length (codes name) ≤ found_length (resolve_outbound_ref_target ref m))
unfolding resolve_outbound_ref_target
resolve_outbound_ref_target_lem ref m = (
  λ t e.
      sound t (resolve_from (trim_space ref) none m) (resolve_from-Found (trim_space ref) none m) e,
  resolve_from_hit (trim_space ref) none m,
)
  where
    sound :
        (t : Target) (r : Option Target)
        → Found (trim_space ref) none m r
        → r ≡ some t
        → IsTarget (trim_space ref) m t
    sound t none f e = cc
    sound t (some u) (inl f) e = cc
    sound t (some u) (inr f) e = let same : u ≡ t = cc in subst (IsTarget (trim_space ref) m) same f
