-- ===== src/Generator/Builds/Succeeds.antt =====
-- internal/generator/singbox/generator.go: what is accepted is built.
use sbox_manager.Common.{
  ==_comm, All, Bool-cases, List, Option, Option-cases, Outcome, String, [], ap, arith, eq_iff,
  false, inl, inr, is_none, not, not_failure-success, refl, success, traverse, trim_space, true,
  ◌&&◌, ◌<>◌, ◌==◌, ◌||◌, ◌∙◌, ◌∷◌, ◌≡◌,
}
use sbox_manager.Domain.Checks.{allowed_value}
use sbox_manager.Domain.Inbounds.{is_inbound_type}
use sbox_manager.Domain.Models.{GlobalConfig, Group, Inbound, Instance, Outbound}
use sbox_manager.Domain.Outbounds.{
  is_outbound_type, parse_outbound_ref, validate_outbound_ref_format, validate_outbound_remote,
}
use sbox_manager.Domain.Outbounds.Accepted.{OutboundOk}
use sbox_manager.Domain.Refs.Resolved.{All-map, RefOk}
use sbox_manager.Generator.Builds.{
  assemble, build_completed, build_outbound, resolve_outbound_ref, through,
}
use sbox_manager.Generator.Converts.{
  convert_group, convert_inbound, convert_outbound, is_plain_outbound,
}
use sbox_manager.Generator.Model.{SingBoxConfig, SingBoxInbound, SingBoxOutbound}
use sbox_manager.Std.Trims.{trim_space_idem}

-- Each round of a loop succeeds, so the loop does.
traverse_total {ℓ κ} :
    {A : Type ℓ} {B : Type κ} (f : A → Outcome B) (xs : List A)
    → All (λ (x : A). (y : B) × (f x ≡ success y)) xs
    → (ys : List B) × (traverse f xs ≡ success ys)
traverse_total f [] h = ([], refl)
traverse_total f (x ∷ xs) ((y, e), h) =
    let (ys, rest) = traverse_total f xs h in (y ∷ ys, rw e (rw rest refl))

convert_inbound_total :
    (i : Inbound)
    → is_inbound_type i.type ≡ true
    → (s : SingBoxInbound) × (convert_inbound i ≡ success s)
unfolding convert_inbound
convert_inbound_total i h = not_failure-success (convert_inbound i) λ e bad. ground (
  arith,
  ==_comm i.type "vmess",
  ==_comm i.type "vless",
  ==_comm i.type "anytls",
  ==_comm i.type "shadowsocks",
  ==_comm i.type "socks5",
  ==_comm i.type "http",
)

convert_outbound_total :
    (o : Outbound)
    → is_plain_outbound o.type ≡ true
    → (s : SingBoxOutbound) × (convert_outbound o ≡ success s)
unfolding convert_outbound
convert_outbound_total o h =
    not_failure-success (convert_outbound o) λ e bad. ground (arith, h, bad)

convert_group_total :
    (g : Group)
    → allowed_value g.type ("selector" ∷ "urltest" ∷ []) ≡ true
    → (s : SingBoxOutbound) × (convert_group g ≡ success s)
unfolding convert_group
convert_group_total g h =
    not_failure-success (convert_group g)
      λ e bad. ground (arith, ==_comm g.type "selector", ==_comm g.type "urltest")

abbrev pub RefFormed : Outbound → Type 0
RefFormed o = (o.type == "ref") ≡ true → is_none (parse_outbound_ref o.ref) ≡ false

parse_outbound_ref-trim_space :
    (ref : String) → parse_outbound_ref (trim_space ref) ≡ parse_outbound_ref ref
unfolding parse_outbound_ref
parse_outbound_ref-trim_space ref = rw (trim_space_idem ref, parse_outbound_ref) refl

ref_format-eq-nil :
    (path ref : String)
    → validate_outbound_ref_format path ref ≡ []
    → is_none (parse_outbound_ref ref) ≡ false
unfolding validate_outbound_ref_format
ref_format-eq-nil path ref h = elim (Bool-cases (is_none (parse_outbound_ref ref))) [
  | inl e ↦
      let bad =
        rw
          (ap (λ (x : Option (String × String)). is_none x) (parse_outbound_ref-trim_space ref) ∙ e)
          at h in
      cc
  | inr e ↦ e
]

-- The ref of an accepted outbound has the form of a ref.
pub ref_formed : (path : String) (o : Outbound) → validate_outbound_remote path o ≡ [] → RefFormed o
unfolding validate_outbound_remote
ref_formed path o h is_ref =
    let kind : o.type ≡ "ref" = (eq_iff _ _).0 is_ref in
    let format : validate_outbound_ref_format (path <> ".ref") o.ref ≡ [] = rw kind at h in
    ref_format-eq-nil _ o.ref format

proxy-plain :
    (type' : String)
    → (type' == "socks5" || type' == "http") ≡ true
    → (is_plain_outbound type' ≡ true)
      × ((not (type' == "socks5") && not (type' == "http")) ≡ false)
proxy-plain type' h = ground (arith, ==_comm type' "socks5", ==_comm type' "http")

other-plain :
    (type' : String)
    → is_outbound_type type' ≡ true
    → (type' == "ref") ≡ false
    → is_plain_outbound type' ≡ true
other-plain type' h e = ground (arith, ==_comm type' "ref")

-- A ref with a target becomes an outbound that can be converted.
resolve_total :
    (m : List (String × Instance)) (i : Instance) (o : Outbound)
    → RefOk m i o
    → RefFormed o
    → OutboundOk o
    → (r : Outbound) × (resolve_outbound_ref i.name o m ≡ success r)
      × (is_plain_outbound r.type ≡ true)
unfolding resolve_outbound_ref
resolve_total m i o refs formed (_, typed) = elim (Bool-cases (o.type == "ref")) [
  | inl e ↦ elim (Option-cases (parse_outbound_ref o.ref)) [
    | inl p ↦ let bad = rw p at (formed e) in cc
    | inr (parsed, p) ↦
        let (t, found, other, inbound, named, kind) = refs e (formed e) in
        let (plain, proxy) = proxy-plain inbound.type kind in
        (through o inbound, rw (e, p) (rw found (rw other (rw named (rw proxy refl)))), plain)
  ]
  | inr e ↦ (o, rw e refl, other-plain o.type typed e)
]

build_outbound_total :
    (m : List (String × Instance)) (i : Instance) (o : Outbound)
    → RefOk m i o
    → RefFormed o
    → OutboundOk o
    → (s : SingBoxOutbound) × (build_outbound i.name m o ≡ success s)
unfolding build_outbound
build_outbound_total m i o refs formed ok =
    let (r, resolved, plain) = resolve_total m i o refs formed ok in
    let (s, converted) = convert_outbound_total r plain in (s, rw resolved converted)

-- What the building of an instance needs of it.
pub record IsBuildable (m : List (String × Instance)) (i : Instance) : Type 0 where
  pub inbounds_typed : All (λ (x : Inbound). is_inbound_type x.type ≡ true) i.inbounds
  pub outbounds_ok : All (λ (o : Outbound). RefFormed o × OutboundOk o) i.outbounds
  pub refs_ok : All (RefOk m i) i.outbounds
  pub groups_typed :
      All (λ (g : Group). allowed_value g.type ("selector" ∷ "urltest" ∷ []) ≡ true) i.groups

outbounds_built :
    (m : List (String × Instance)) (i : Instance) (os : List Outbound)
    → All (λ (o : Outbound). RefFormed o × OutboundOk o) os
    → All (RefOk m i) os
    → All (λ (o : Outbound). (s : SingBoxOutbound) × (build_outbound i.name m o ≡ success s)) os
outbounds_built m i [] ok refs = tt
outbounds_built m i (o ∷ os) ((formed, ok), oks) (ref_ok, refs) =
    (build_outbound_total m i o ref_ok formed ok, outbounds_built m i os oks refs)

pub build_completed_total :
    (global : GlobalConfig) (m : List (String × Instance)) (i : Instance)
    → IsBuildable m i
    → (c : SingBoxConfig) × (build_completed global m i ≡ success c)
unfolding build_completed
build_completed_total global m i b =
    let (ins, built_ins) =
      traverse_total convert_inbound i.inbounds
        (All-map convert_inbound_total i.inbounds b.inbounds_typed) in
    let (os, built_os) =
      traverse_total (build_outbound i.name m) i.outbounds
        (outbounds_built m i i.outbounds b.outbounds_ok b.refs_ok) in
    let (gs, built_gs) =
      traverse_total convert_group i.groups (All-map convert_group_total i.groups b.groups_typed) in
    (assemble global i ins os gs, rw built_ins (rw built_os (rw built_gs refl)))
