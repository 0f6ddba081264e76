-- ===== src/Common/Stable.antt =====
-- `sort.SliceStable`: insertion from the right, before the first element that is not less. Sorting
-- keeps what holds of all elements, and what is an element.
use mathlib.Core.Path.{◌≡◌, refl, sym}
use mathlib.Core.Logic.{◌⊎◌, ◌↔◌, inl, inr}
use mathlib.Core.Bool.{Bool, true, false}
use mathlib.Core.List.{List, [], ◌∷◌, ◌++◌, map}
use native.Mathlib.Omega.{arith}
use Prim.Native.String.compare
use Prim.Native.String.{String}
use sbox_manager.Common.Sort.{text_lt}
use sbox_manager.Common.Tests.{if◌then◌else◌, Bool-cases}
use sbox_manager.Common.Lists.{All, any, has, keep}
use text.Mathlib.Text.{◌==◌}
use text.Mathlib.TextEquality.{eq_iff}
use text.Mathlib.TextPositions.{eq_refl}

-- Membership with its place.
abbrev pub Member : {A : Type 0} → A → List A → Type 0
Member a [] = ⊥
Member a (x ∷ xs) = (a ≡ x) ⊎ Member a xs

pub text_lt_asym : (s t : String) → text_lt s t ≡ true → text_lt t s ≡ false
text_lt_asym String.[] String.[] h = refl
text_lt_asym String.[] (String.◌∷◌ d t) h = rw (compare.cons-nil d t) refl
text_lt_asym (String.◌∷◌ c s) String.[] h = let bad = rw (compare.cons-nil c s) at h in cc
text_lt_asym (String.◌∷◌ c s) (String.◌∷◌ d t) h =
    let before = rw (compare.cons-cons c d s t) at h in
    rw (compare.cons-cons d c t s) (ground (arith, before, text_lt_asym s t))

pub All-Member : {A : Type 0} (P : A → Type 0) (a : A) (xs : List A) → All P xs → Member a xs → P a
All-Member P a [] h m = elim m [ ]
All-Member P a (x ∷ xs) (h, hs) (inl e) = rw e h
All-Member P a (x ∷ xs) (h, hs) (inr m) = All-Member P a xs hs m

pub Member-map :
    {A B : Type 0} (f : A → B) (a : A) (xs : List A) → Member a xs → Member (f a) (map f xs)
Member-map f a [] m = m
Member-map f a (x ∷ xs) (inl e) = inl (rw e refl)
Member-map f a (x ∷ xs) (inr m) = inr (Member-map f a xs m)

pub Member-append : {A : Type 0} (a : A) (xs ys : List A) → Member a xs → Member a (xs ++ ys)
Member-append a [] ys m = elim m [ ]
Member-append a (x ∷ xs) ys (inl e) = inl e
Member-append a (x ∷ xs) ys (inr m) = inr (Member-append a xs ys m)

module _ {A : Type 0} (less : A → A → Bool) where
  unfoldable pub place_stable : A → List A → List A
  place_stable a [] = a ∷ []
  place_stable a (x ∷ xs) =
      let rest = place_stable a xs in if less x a then x ∷ rest else a ∷ x ∷ xs

  unfoldable pub sort_stable : List A → List A
  unfolding place_stable
  sort_stable [] = []
  sort_stable (x ∷ xs) = place_stable x (sort_stable xs)

  All-place_stable :
      (P : A → Type 0) (a : A) (xs : List A) → P a → All P xs → All P (place_stable a xs)
  unfolding place_stable
  All-place_stable P a [] h hs = (h, tt)
  All-place_stable P a (x ∷ xs) h (hx, hs) = elim (Bool-cases (less x a)) [
    | inl e ↦ rw e (hx, All-place_stable P a xs h hs)
    | inr e ↦ rw e (h, (hx, hs))
  ]

  pub All-sort_stable : (P : A → Type 0) (xs : List A) → All P xs → All P (sort_stable xs)
  unfolding sort_stable
  All-sort_stable P [] h = tt
  All-sort_stable P (x ∷ xs) (h, hs) =
      All-place_stable P x (sort_stable xs) h (All-sort_stable P xs hs)

  Member-place_self : (a : A) (xs : List A) → Member a (place_stable a xs)
  unfolding place_stable
  Member-place_self a [] = inl refl
  Member-place_self a (x ∷ xs) = elim (Bool-cases (less x a)) [
    | inl e ↦ rw e (inr (Member-place_self a xs))
    | inr e ↦ rw e (inl refl)
  ]

  Member-place : (b a : A) (xs : List A) → Member b xs → Member b (place_stable a xs)
  unfolding place_stable
  Member-place b a [] m = elim m [ ]
  Member-place b a (x ∷ xs) m = elim (Bool-cases (less x a)) [
    | inl e ↦ rw e (elim m [ inl p ↦ inl p | inr q ↦ inr (Member-place b a xs q) ])
    | inr e ↦ rw e (inr m)
  ]

  pub Member-sort_stable : (b : A) (xs : List A) → Member b xs → Member b (sort_stable xs)
  unfolding sort_stable
  Member-sort_stable b [] m = m
  Member-sort_stable b (x ∷ xs) (inl e) = rw e (Member-place_self x (sort_stable xs))
  Member-sort_stable b (x ∷ xs) (inr m) =
      Member-place b x (sort_stable xs) (Member-sort_stable b xs m)

  -- No element is less than the one before it.
  abbrev pub Ascending : List A → Type 0
  Ascending [] = Unit
  Ascending (x ∷ []) = Unit
  Ascending (x ∷ y ∷ ys) = (less y x ≡ false) × Ascending (y ∷ ys)

  module _ (asym : (a b : A) → less a b ≡ true → less b a ≡ false) where
    Ascending-place : (a : A) (xs : List A) → Ascending xs → Ascending (place_stable a xs)
    unfolding place_stable
    Ascending-place a [] h = tt
    Ascending-place a (x ∷ []) h = elim (Bool-cases (less x a)) [
      | inl e ↦ rw e (asym x a e, tt)
      | inr e ↦ rw e (e, tt)
    ]
    Ascending-place a (x ∷ y ∷ ys) (h, hs) = elim (Bool-cases (less x a)) [
      | inl e ↦ rw e (elim (Bool-cases (less y a)) [
        | inl f ↦ let ih = rw f at (Ascending-place a (y ∷ ys) hs) in rw f (h, ih)
        | inr f ↦ rw f (asym x a e, (f, hs))
      ])
      | inr e ↦ rw e (e, (h, hs))
    ]

    pub sort_stable-Ascending : (xs : List A) → Ascending (sort_stable xs)
    unfolding sort_stable
    sort_stable-Ascending [] = tt
    sort_stable-Ascending (x ∷ xs) = Ascending-place x (sort_stable xs) (sort_stable-Ascending xs)

pub All-of_members :
    {A : Type 0} (P : A → Type 0) (xs : List A) → ((x : A) → Member x xs → P x) → All P xs
All-of_members P [] h = tt
All-of_members P (x ∷ xs) h = (h x (inl refl), All-of_members P xs (λ y m. h y (inr m)))

pub All-keep :
    {A : Type 0} (P : A → Type 0) (p : A → Bool) (xs : List A) → All P xs → All P (keep p xs)
All-keep P p [] h = tt
All-keep P p (x ∷ xs) (h, hs) = elim (Bool-cases (p x)) [
  | inl e ↦ rw e (h, All-keep P p xs hs)
  | inr e ↦ rw e (All-keep P p xs hs)
]

pub any-false :
    {A : Type 0} (p : A → Bool) (xs : List A) → All (λ (x : A). p x ≡ false) xs → any p xs ≡ false
any-false p [] h = refl
any-false p (x ∷ xs) (e, h) = rw e (any-false p xs h)

pub keep-append :
    {A : Type 0} (p : A → Bool) (xs ys : List A) → keep p (xs ++ ys) ≡ keep p xs ++ keep p ys
keep-append p [] ys = refl
keep-append p (x ∷ xs) ys = elim (Bool-cases (p x)) [
  | inl e ↦ rw (e, keep-append p xs ys) refl
  | inr e ↦ rw (e, keep-append p xs ys) refl
]

pub Member-keep :
    {A : Type 0} (p : A → Bool) (a : A) (xs : List A)
    → Member a (keep p xs) ↔ (Member a xs × (p a ≡ true))
Member-keep p a [] = (λ m. elim m [ ], λ h. h.0)
Member-keep p a (x ∷ xs) = elim (Bool-cases (p x)) [
  | inl e ↦ rw e (
    λ m. elim m [
      | inl same ↦ (inl same, rw same e)
      | inr n ↦ let (there, holds) = (Member-keep p a xs).0 n in (inr there, holds)
    ],
    λ h. elim h.0 [ inl same ↦ inl same | inr n ↦ inr ((Member-keep p a xs).1 (n, h.1)) ],
  )
  | inr e ↦ rw e (
    λ m. let (there, holds) = (Member-keep p a xs).0 m in (inr there, holds),
    λ h. elim h.0 [
      | inl same ↦ absurd (let bad = rw same at h.1 in cc)
      | inr n ↦ (Member-keep p a xs).1 (n, h.1)
    ],
  )
]

pub Member-append_iff :
    {A : Type 0} (a : A) (xs ys : List A) → Member a (xs ++ ys) ↔ (Member a xs ⊎ Member a ys)
Member-append_iff a [] ys = (λ m. inr m, λ h. elim h [ inl m ↦ elim m [ ] | inr m ↦ m ])
Member-append_iff a (x ∷ xs) ys = (
  λ m. elim m [
    | inl e ↦ inl (inl e)
    | inr n ↦ elim ((Member-append_iff a xs ys).0 n) [ inl k ↦ inl (inr k) | inr k ↦ inr k ]
  ],
  λ h. elim h [
    | inl m ↦ elim m [ inl e ↦ inl e | inr k ↦ inr ((Member-append_iff a xs ys).1 (inl k)) ]
    | inr k ↦ inr ((Member-append_iff a xs ys).1 (inr k))
  ],
)

pub has-Member : (x : String) (xs : List String) → (has xs x ≡ true) ↔ Member x xs
has-Member x [] = (λ h. absurd (let bad = h in cc), λ m. elim m [ ])
has-Member x (y ∷ ys) = elim (Bool-cases (y == x)) [
  | inl e ↦ (λ h. inl (sym ((eq_iff y x).0 e)), λ m. rw e refl)
  | inr e ↦ rw e (
    λ h. inr ((has-Member x ys).0 h),
    λ m. elim m [
      | inl same ↦ absurd (let bad = rw (same, eq_refl y) at e in cc)
      | inr n ↦ (has-Member x ys).1 n
    ],
  )
]
