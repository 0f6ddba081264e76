-- ===== src/Domain/Inbounds/Accepted.antt =====
-- internal/domain/validation.go: what holds of inbounds that `validateInbounds` accepts, and when a
-- public listener without authentication is refused or warned of.
use sbox_manager.Common.{
  All, Bool, List, String, [], and-true, append4-eq-nil, arith, at_index, eq_iff, false, has,
  if◌then◌else◌, is_blank, not, refl, suc, true, ℕ, ◌&&◌, ◌<>◌, ◌==◌, ◌||◌, ◌∷◌, ◌≡◌,
}
use sbox_manager.Domain.Checks.{is_loopback_host, validate_safe_name}
use sbox_manager.Domain.Inbounds.{
  inbound_auth_warnings, is_inbound_type, validate_inbound, validate_inbound_auth,
  validate_inbounds, validate_inbounds_from,
}
use sbox_manager.Domain.Issues.{ValidationErrors, add, add_if, is_ok}
use sbox_manager.Domain.Models.{GlobalConfig, Inbound}
use sbox_manager.Domain.Protocols.{password_fields}

-- A socks5 or http listener that takes connections without a password from outside the machine.
abbrev pub exposed : Inbound → Bool
exposed inbound =
    (inbound.type == "socks5" || inbound.type == "http")
    && inbound.auth.type == "noauth"
    && not (is_loopback_host inbound.listen)

neither : (a b : Bool) → (a || b) ≡ true → (not a && not b) ≡ false
neither a b h = ground arith

not-eq-true : (b : Bool) → not b ≡ true → b ≡ false
not-eq-true true h = cc
not-eq-true false h = refl

-- For an inbound without authentication and with an exposed listener, `validateInboundAuth` reports
-- an issue exactly where the global switch asks for authentication, and the warnings name it exactly
-- where the switch does not: it is never passed over in silence.
pub exposed_reported :
    (global : GlobalConfig) (path : String) (inbound : Inbound)
    → exposed inbound ≡ true
    → (is_ok (validate_inbound_auth global path inbound)
        ≡ not global.security.require_auth_for_public_socks_http)
      × (is_ok (inbound_auth_warnings global path inbound)
          ≡ global.security.require_auth_for_public_socks_http)
unfolding validate_inbound_auth inbound_auth_warnings
exposed_reported global path inbound h =
    let (kn, out) =
      and-true
        ((inbound.type == "socks5" || inbound.type == "http") && inbound.auth.type == "noauth") _
        h in
    let (kind, noauth) = and-true (inbound.type == "socks5" || inbound.type == "http") _ kn in
    let auth : inbound.auth.type ≡ "noauth" = (eq_iff _ _).0 noauth in
    let other : (not (inbound.type == "socks5") && not (inbound.type == "http")) ≡ false =
      neither _ _ kind in
    let far : is_loopback_host inbound.listen ≡ false = not-eq-true _ out in
    simp (auth, other, far) (ground arith)

-- A password that is asked for is there: with the switch on, an accepted socks5 or http inbound that
-- is not on a loopback address has a user name and a password that are not blank.
pub accepted_auth :
    (global : GlobalConfig) (path : String) (inbound : Inbound)
    → validate_inbound_auth global path inbound ≡ []
    → (inbound.type == "socks5" || inbound.type == "http") ≡ true
    → global.security.require_auth_for_public_socks_http ≡ true
    → is_loopback_host inbound.listen ≡ false
    → (inbound.auth.type == "password" ≡ true)
      × (is_blank inbound.auth.username ≡ false)
      × (is_blank inbound.auth.password ≡ false)
unfolding validate_inbound_auth password_fields
accepted_auth global path inbound h t r l = ground arith

typed :
    (ok : Bool) (path : String) (args : List String) (rest : ValidationErrors)
    → (if not ok then add path "unsupported inbound type %q" args else rest) ≡ []
    → ok ≡ true
typed true path args rest h = refl
typed false path args rest h = cc

validate_inbounds_from-typed :
    (global : GlobalConfig) (k : ℕ) (names tags : List String) (is : List Inbound)
    → validate_inbounds_from global k names tags is ≡ []
    → All (λ (i : Inbound). is_inbound_type i.type ≡ true) is
unfolding validate_inbounds_from
validate_inbounds_from-typed global k names tags [] h = tt
validate_inbounds_from-typed global k names tags (i ∷ is) h =
    let path = at_index "inbounds" k in
    let later : List String =
      if is_inbound_type i.type && not (i.tag == "") then i.tag ∷ tags else tags in
    let (_, _, body, rest) =
      append4-eq-nil (validate_safe_name (path <> ".name") i.name)
        (add_if (has names i.name) (path <> ".name") "duplicate inbound name" [])
        (if not (is_inbound_type i.type)
          then add (path <> ".type") "unsupported inbound type %q" (i.type ∷ [])
          else validate_inbound global path tags i)
        (validate_inbounds_from global (suc k) (i.name ∷ names) later is) h in
    (typed _ _ _ _ body, validate_inbounds_from-typed global (suc k) (i.name ∷ names) later is rest)

-- Every accepted inbound has a type that the program knows.
pub validate_inbounds-typed :
    (global : GlobalConfig) (is : List Inbound)
    → validate_inbounds global is ≡ []
    → All (λ (i : Inbound). is_inbound_type i.type ≡ true) is
unfolding validate_inbounds
validate_inbounds-typed global [] h = tt
validate_inbounds-typed global (i ∷ is) h = validate_inbounds_from-typed global 0 [] [] (i ∷ is) h
