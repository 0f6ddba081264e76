-- ===== src/Manager/Ports/Allocated.antt =====
-- internal/instance/manager.go: the ports that `allocatePorts` gives out are new.
use sbox_manager.Common.{
  Fresh, List, Outcome, Outcome-cases, [], ap, eqb_ℤ, failure, false, inl, inr, map, negsuc, pos,
  refl, success, success_injective, sym, ℤ, ◌∷◌, ◌≡◌,
}
use sbox_manager.Config.PortRanges.{first_available_port, is_used}
use sbox_manager.Config.PortRanges.FirstFree.{IsChoice, first_available_port-IsChoice, first_valid}
use sbox_manager.Domain.Models.{ApiConfig, GlobalConfig, Inbound, Instance, PortRange}
use sbox_manager.Manager.Ports.{
  allocate_api, allocate_inbounds, allocate_ports, port_range_for_inbound, put_port, used_ports,
}

abbrev pub ports_of : List Inbound → List ℤ
ports_of = map (λ (i : Inbound). i.port)

chosen-free :
    (range : PortRange) (used : List ℤ) (port : ℤ) (o : Outcome ℤ)
    → IsChoice range used o
    → o ≡ success port
    → is_used used port ≡ false
chosen-free range used port (success (pos p)) c h = let same : port ≡ pos p = cc in rw same c.2
chosen-free range used port (success (negsuc n)) c h = absurd c
chosen-free range used port (failure e) c h = cc

first_free :
    (range : PortRange) (used : List ℤ) (port : ℤ)
    → first_available_port range used ≡ success port
    → is_used used port ≡ false
first_free range used port h =
    chosen-free range used port (first_available_port range used)
      (first_available_port-IsChoice range used (first_valid range used port h)) h

allocate_inbounds-Fresh :
    (global : GlobalConfig) (used : List ℤ) (is js : List Inbound) (used' : List ℤ)
    → allocate_inbounds global used is ≡ success (js, used')
    → Fresh eqb_ℤ (ports_of js) (is_used used)
unfolding allocate_inbounds
allocate_inbounds-Fresh global used [] js used' h =
    let whole : ([], used) ≡ (js, used') = success_injective h in
    let same : [] ≡ js = ap (λ (x : List Inbound × List ℤ). x.0) whole in rw (sym same) tt
allocate_inbounds-Fresh global used (i ∷ is) js used' h =
    first (λ port rest u a. allocate_inbounds-Fresh global (port ∷ used) is rest u a)
      (first_available_port (port_range_for_inbound global i) used) refl h
  where
    later :
        ((port : ℤ) (rest : List Inbound) (u : List ℤ)
          → allocate_inbounds global (port ∷ used) is ≡ success (rest, u)
          → Fresh eqb_ℤ (ports_of rest) (is_used (port ∷ used)))
        → (port : ℤ) (r : Outcome (List Inbound × List ℤ)) → is_used used port ≡ false
        → allocate_inbounds global (port ∷ used) is ≡ r
        → elim r [ failure e ↦ failure e | success r ↦ success (put_port i port r) ]
          ≡ success (js, used')
        → Fresh eqb_ℤ (ports_of js) (is_used used)
    later ih port (failure e) f a k = cc
    later ih port (success (rest, u)) f a k =
        let whole : put_port i port (rest, u) ≡ (js, used') = success_injective k in
        let same : record i { port = port } ∷ rest ≡ js =
          ap (λ (x : List Inbound × List ℤ). x.0) whole in
        rw (sym same) (f, ih port rest u a)

    first :
        ((port : ℤ) (rest : List Inbound) (u : List ℤ)
          → allocate_inbounds global (port ∷ used) is ≡ success (rest, u)
          → Fresh eqb_ℤ (ports_of rest) (is_used (port ∷ used)))
        → (o : Outcome ℤ) → first_available_port (port_range_for_inbound global i) used ≡ o
        → elim o [
          | failure e ↦ failure e
          | success port ↦ elim (allocate_inbounds global (port ∷ used) is) [
            | failure e ↦ failure e
            | success r ↦ success (put_port i port r)
          ]
        ]
          ≡ success (js, used')
        → Fresh eqb_ℤ (ports_of js) (is_used used)
    first ih (failure e) a k = cc
    first ih (success port) a k =
        later ih port (allocate_inbounds global (port ∷ used) is)
          (first_free (port_range_for_inbound global i) used port a) refl k

-- What `allocatePorts` succeeds with has inbounds whose ports no existing instance uses, and no two
-- of them have the same port.
pub allocate_ports-Fresh :
    (global : GlobalConfig) (existing : List Instance) (target result : Instance)
    → allocate_ports global existing target ≡ success result
    → Fresh eqb_ℤ (ports_of result.inbounds) (is_used (used_ports existing))
unfolding allocate_ports
allocate_ports-Fresh global existing target result h =
    all (allocate_inbounds global (used_ports existing) target.inbounds) refl h
  where
    with_api :
        (r : List Inbound × List ℤ) (o : Outcome ApiConfig)
        → elim o [
          | failure e ↦ failure e
          | success api ↦ success (record target { inbounds = r.0; api = api })
        ]
          ≡ success result
        → r.0 ≡ result.inbounds
    with_api r (failure e) k = cc
    with_api r (success api) k = ap (λ (t : Instance). t.inbounds) (success_injective k)

    all :
        (o : Outcome (List Inbound × List ℤ))
        → allocate_inbounds global (used_ports existing) target.inbounds ≡ o
        → elim o [
          | failure e ↦ failure e
          | success (inbounds, used) ↦ elim (allocate_api global used target.api) [
            | failure e ↦ failure e
            | success api ↦ success (record target { inbounds = inbounds; api = api })
          ]
        ]
          ≡ success result
        → Fresh eqb_ℤ (ports_of result.inbounds) (is_used (used_ports existing))
    all (failure e) a k = cc
    all (success (js, used)) a k =
        rw (sym (with_api (js, used) (allocate_api global used target.api) k))
          (allocate_inbounds-Fresh global (used_ports existing) target.inbounds js used a)

-- Nothing but the inbounds and the API changes.
pub allocate_ports-kept :
    (global : GlobalConfig) (existing : List Instance) (target result : Instance)
    → allocate_ports global existing target ≡ success result
    → result ≡ record target { inbounds = result.inbounds; api = result.api }
unfolding allocate_ports
allocate_ports-kept global existing target result h =
    elim (Outcome-cases (allocate_inbounds global (used_ports existing) target.inbounds)) [
      | inr (e, failed) ↦ let bad = rw (failed, allocate_ports) at h in cc
      | inl ((inbounds, used), found) ↦ elim (Outcome-cases (allocate_api global used target.api)) [
        | inr (e, failed) ↦ let bad = rw (found, failed, allocate_ports) at h in cc
        | inl (api, placed) ↦
            rw (← success_injective (rw (found, placed, allocate_ports) at h)) refl
      ]
    ]
