-- ===== src/Manager/Members/Names.antt =====
-- internal/instance/manager.go: `allocateRefOutboundName` ends, with a name that no outbound has.
use Prim.Native.String.append
use sbox_manager.Common.{
  All, Bool-cases, Distinct, List, String, [], arith, eq_iff, false, has, inl, inr, itoa, length,
  length-le-length, refl, some, suc, true, zero, ℕ, ◌+◌, ◌<>◌, ◌<◌, ◌==◌, ◌∷◌, ◌≡◌, ◌⊎◌,
}
use sbox_manager.Domain.Models.{Outbound}
use sbox_manager.Manager.Members.{
  allocate_ref_outbound_name, next_available, outbound_name_available, outbound_names,
}
use sbox_manager.Std.Decimals.{itoa_injective}

append_cancel : (p s t : String) → p <> s ≡ p <> t → s ≡ t
append_cancel String.[] s t h = rw (append.nil s, append.nil t) at h
append_cancel (String.◌∷◌ c p) s t h =
    let same = rw (append.cons c p s, append.cons c p t) at h in append_cancel p s t (cc (same))

-- The names that the loop tries.
abbrev tries : ℕ → String → ℕ → List String
tries zero prefix index = []
tries (suc fuel) prefix index = (prefix <> itoa index) ∷ tries fuel prefix (index + 1)

length-tries : (fuel : ℕ) (prefix : String) (index : ℕ) → length (tries fuel prefix index) ≡ fuel
length-tries zero prefix index = refl
length-tries (suc fuel) prefix index = omega (arith, length-tries fuel prefix (index + 1))

apart_from :
    (prefix : String) (k j : ℕ) → k < j → ((prefix <> itoa j) == (prefix <> itoa k)) ≡ false
apart_from prefix k j h = elim (Bool-cases ((prefix <> itoa j) == (prefix <> itoa k))) [
  | inr e ↦ e
  | inl e ↦
      let same = itoa_injective j k (append_cancel prefix (itoa j) (itoa k) ((eq_iff _ _).0 e)) in
      absurd (omega (arith, same))
]

tries-fresh :
    (fuel : ℕ) (prefix : String) (k j : ℕ)
    → k < j
    → has (tries fuel prefix j) (prefix <> itoa k) ≡ false
tries-fresh zero prefix k j h = refl
tries-fresh (suc fuel) prefix k j h =
    rw (apart_from prefix k j h) (tries-fresh fuel prefix k (j + 1) (omega arith))

tries-Distinct : (fuel : ℕ) (prefix : String) (index : ℕ) → Distinct (tries fuel prefix index)
tries-Distinct zero prefix index = tt
tries-Distinct (suc fuel) prefix index = (
  tries-fresh fuel prefix index (index + 1) (omega arith),
  tries-Distinct fuel prefix (index + 1),
)

-- What the loop returns, and what it means that it returns nothing.
next_available_cases :
    (fuel : ℕ) (os : List Outbound) (prefix : String) (index : ℕ)
    → ((name : String) × (next_available fuel os prefix index ≡ some name)
        × (has (outbound_names os) name ≡ false))
      ⊎ All (λ (n : String). has (outbound_names os) n ≡ true) (tries fuel prefix index)
unfolding next_available outbound_name_available
next_available_cases zero os prefix index = inr tt
next_available_cases (suc fuel) os prefix index =
    elim (Bool-cases (has (outbound_names os) (prefix <> itoa index))) [
      | inr e ↦ inl (prefix <> itoa index, rw (e, next_available) refl, e)
      | inl e ↦ elim (next_available_cases fuel os prefix (index + 1)) [
        | inl (name, found, free) ↦ inl (name, rw (e, next_available) found, free)
        | inr all ↦ inr (e, all)
      ]
    ]

length-outbound_names : (os : List Outbound) → length (outbound_names os) ≡ length os
length-outbound_names [] = refl
length-outbound_names (o ∷ os) = omega (arith, length-outbound_names os)

next_available_total :
    (os : List Outbound) (prefix : String) (index : ℕ)
    → (name : String) × (next_available (suc (length os)) os prefix index ≡ some name)
      × (has (outbound_names os) name ≡ false)
next_available_total os prefix index =
    elim (next_available_cases (suc (length os)) os prefix index) [
      | inl found ↦ found
      | inr all ↦
          let bound =
            length-le-length (tries (suc (length os)) prefix index) (outbound_names os)
              (tries-Distinct (suc (length os)) prefix index) all in
          absurd (
            omega
              (arith, bound, length-tries (suc (length os)) prefix index, length-outbound_names os))
    ]

-- The search for the name of a new ref ends within as many steps as there are outbounds and one, and
-- gives a name that none of the outbounds has, whatever the hash.
pub allocate_ref_outbound_name_total :
    (short_hash : String → String) (os : List Outbound) (base_name ref : String)
    → (name : String) × (allocate_ref_outbound_name short_hash os base_name ref ≡ some name)
      × (has (outbound_names os) name ≡ false)
unfolding allocate_ref_outbound_name outbound_name_available
allocate_ref_outbound_name_total short_hash os base_name ref =
    let hashed = base_name <> "-" <> short_hash ref in
    elim (Bool-cases (has (outbound_names os) base_name)) [
      | inr e ↦ (base_name, rw (e, allocate_ref_outbound_name) refl, e)
      | inl e ↦ elim (Bool-cases (has (outbound_names os) hashed)) [
        | inr f ↦ (hashed, rw (e, f, allocate_ref_outbound_name) refl, f)
        | inl f ↦
            let (name, found, free) = next_available_total os (hashed <> "-") 2 in
            (name, rw (e, f, allocate_ref_outbound_name) found, free)
      ]
    ]
