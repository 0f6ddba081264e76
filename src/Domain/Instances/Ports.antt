-- ===== src/Domain/Instances/Ports.antt =====
-- internal/domain/validation.go: `validatePortConflicts` against the list of the ports in use.
use sbox_manager.Common.{
  Bool-cases, Fresh, Fresh-append, List, Option-cases, String, [], append-eq-nil, at_index, eqb_ℤ,
  eqb_ℤ→eq, false, get, if◌then◌else◌, inl, inr, known, known-put, known-put_old, put_all,
  put_all-append, refl, suc, ℕ, ℤ, ◌++◌, ◌<>◌, ◌↔◌, ◌∷◌, ◌≡◌,
}
use sbox_manager.Domain.Checks.{Split, host_port, is_port, refused, split_listen_address}
use sbox_manager.Domain.Instances.{
  add_port_use, use_api, use_inbounds, use_instance, use_instances, validate_port_conflicts,
}
use sbox_manager.Domain.Issues.{ValidationErrors}
use sbox_manager.Domain.Models.{ApiConfig, Inbound, Instance}

abbrev pub inbound_ports : List Inbound → List ℤ
inbound_ports [] = []
inbound_ports (i ∷ is) = (if is_port i.port then i.port ∷ [] else []) ++ inbound_ports is

abbrev pub api_ports : ApiConfig → List ℤ
api_ports api =
    if api.enabled
    then elim (split_listen_address api.listen) [ refused e ↦ [] | host_port h p ↦ p ∷ [] ]
    else []

-- The ports that the enabled instances listen on, in the order of the configuration.
abbrev pub instance_ports : Instance → List ℤ
instance_ports i = if i.enabled then inbound_ports i.inbounds ++ api_ports i.api else []

abbrev pub ports_in_use : List Instance → List ℤ
ports_in_use [] = []
ports_in_use (i ∷ is) = instance_ports i ++ ports_in_use is

abbrev Run : Type 0
Run = ValidationErrors × List (ℤ × String)

-- A run over ports reports nothing exactly when they are fresh; then its map has grown by them.
record Uses (used : List (ℤ × String)) (ports : List ℤ) (r : Run) : Type 0 where
  fresh : r.0 ≡ [] → Fresh eqb_ℤ ports (known eqb_ℤ used)
  quiet : Fresh eqb_ℤ ports (known eqb_ℤ used) → r.0 ≡ []
  after : known eqb_ℤ r.1 ≡ put_all eqb_ℤ ports (known eqb_ℤ used)

Uses-none : (used : List (ℤ × String)) → Uses used [] ([], used)
Uses-none used = record { fresh = λ h. tt; quiet = λ h. refl; after = refl }

Uses-append :
    (used : List (ℤ × String)) (ps qs : List ℤ) (r s : Run)
    → Uses used ps r
    → Uses r.1 qs s
    → Uses used (ps ++ qs) (r.0 ++ s.0, s.1)
Uses-append used ps qs r s a b = record {
  fresh = λ h.
      let (hr, hs) = append-eq-nil r.0 s.0 h in
      (Fresh-append eqb_ℤ ps qs (known eqb_ℤ used)).1 (a.fresh hr, rw a.after at (b.fresh hs));
  quiet = λ h.
      let (hp, hq) = (Fresh-append eqb_ℤ ps qs (known eqb_ℤ used)).0 h in
      rw (a.quiet hp, b.quiet (rw a.after hq));
  after = rw (b.after, a.after, put_all-append eqb_ℤ ps qs (known eqb_ℤ used));
}

add_port_use-Uses :
    (used : List (ℤ × String)) (port : ℤ) (owner : String)
    → Uses used (port ∷ []) (add_port_use used port owner)
unfolding add_port_use
add_port_use-Uses used port owner = elim (Option-cases (get eqb_ℤ port used)) [
  | inl e ↦
      rw (e, add_port_use)
        (record {
          fresh = λ h. (rw e, tt);
          quiet = λ h. refl;
          after = known-put eqb_ℤ used port owner;
        })
  | inr (prev, e) ↦
      rw (e, add_port_use)
        (record {
          fresh = λ h. cc;
          quiet = λ h. cc (h.0, e);
          after = known-put_old eqb_ℤ eqb_ℤ→eq used port (rw e);
        })
]

use_inbounds-Uses :
    (i j : ℕ) (used : List (ℤ × String)) (is : List Inbound)
    → Uses used (inbound_ports is) (use_inbounds i j used is)
unfolding use_inbounds
use_inbounds-Uses i j used [] = Uses-none used
use_inbounds-Uses i j used (inbound ∷ rest) = elim (Bool-cases (is_port inbound.port)) [
  | inl e ↦
      rw (e, use_inbounds)
        (Uses-append used (inbound.port ∷ []) (inbound_ports rest) _ _
          (add_port_use-Uses used inbound.port _) (use_inbounds-Uses i (suc j) _ rest))
  | inr e ↦ rw (e, use_inbounds) (use_inbounds-Uses i (suc j) used rest)
]

split_api-Uses :
    (i : ℕ) (used : List (ℤ × String)) (s : Split)
    → Uses used
        (elim s [ refused e ↦ [] | host_port h p ↦ p ∷ [] ])
        (elim s [
          | refused message ↦ ([], used)
          | host_port host port ↦ add_port_use used port (at_index "instances" i <> ".api")
        ])
split_api-Uses i used (refused e) = Uses-none used
split_api-Uses i used (host_port h p) = add_port_use-Uses used p _

use_api-Uses :
    (i : ℕ) (used : List (ℤ × String)) (api : ApiConfig)
    → Uses used (api_ports api) (use_api i used api)
unfolding use_api
use_api-Uses i used api = elim (Bool-cases api.enabled) [
  | inl e ↦ rw (e, use_api) (split_api-Uses i used (split_listen_address api.listen))
  | inr e ↦ rw (e, use_api) (Uses-none used)
]

use_instance-Uses :
    (i : ℕ) (used : List (ℤ × String)) (instance' : Instance)
    → Uses used (instance_ports instance') (use_instance i used instance')
unfolding use_instance
use_instance-Uses i used instance' = elim (Bool-cases instance'.enabled) [
  | inl e ↦ rw e (
      Uses-append used (inbound_ports instance'.inbounds) _ _ _
        (use_inbounds-Uses i 0 used instance'.inbounds) (use_api-Uses i _ instance'.api))
  | inr e ↦ rw e (Uses-none used)
]

use_instances-Uses :
    (i : ℕ) (used : List (ℤ × String)) (is : List Instance)
    → Uses used (ports_in_use is) (use_instances i used is)
unfolding use_instances
use_instances-Uses i used [] = Uses-none used
use_instances-Uses i used (instance' ∷ rest) =
    Uses-append used (instance_ports instance') (ports_in_use rest) _ _
      (use_instance-Uses i used instance') (use_instances-Uses (suc i) _ rest)

-- `validatePortConflicts` reports nothing exactly when no port is used twice by the enabled
-- instances: neither by two inbounds whose port lies in 1-65535, nor by two APIs that are enabled
-- with a well-formed address, nor by an inbound and an API.
pub validate_port_conflicts-eq-nil_iff :
    (instances : List Instance)
    → (validate_port_conflicts instances ≡ [])
      ↔ Fresh eqb_ℤ (ports_in_use instances) (λ port. false)
unfolding validate_port_conflicts
validate_port_conflicts-eq-nil_iff instances =
    let u = use_instances-Uses 0 [] instances in (u.fresh, u.quiet)
