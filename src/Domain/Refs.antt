-- ===== src/Domain/Refs.antt =====
-- internal/domain/validation.go: outbounds that refer to an inbound of another instance.
pub mod Longest
pub mod Resolved
use sbox_manager.Common.{
  Bool, List, Option, String, [], at_index, codes, find_first, if◌then◌else◌, insert, is_blank,
  length, ltb, none, not, some, strip_prefix, trim_space, ◌&&◌, ◌<>◌, ◌==◌, ◌||◌, ◌∷◌,
}
use sbox_manager.Domain.Issues.{ValidationErrors, add, add_if, each}
use sbox_manager.Domain.Models.{Inbound, Instance, Outbound}
use sbox_manager.Domain.Outbounds.{parse_outbound_ref}

pub record Target : Type 0 where
  pub instance_name : String
  pub inbound_name : String
  pub found : Instance

-- The best match so far, and one round of the loop of `resolveOutboundRefTarget`. Both names are
-- prefixes of one text, so their lengths in characters compare as their lengths in bytes.
longer : String → Option Target → Bool
longer name none = not (name == "")
longer name (some best) = ltb (length (codes best.instance_name)) (length (codes name))

consider : String → String → Instance → Option Target → Option Target
unfolding longer
consider ref name instance' best = elim (strip_prefix (name <> ".") ref) [
  | none ↦ best
  | some behind ↦
      if not (longer name best) || is_blank behind
      then best
      else some
          (record { instance_name = name; inbound_name = trim_space behind; found = instance' })
]

resolve_from : String → Option Target → List (String × Instance) → Option Target
unfolding consider
resolve_from ref best [] = best
resolve_from ref best ((name, instance') ∷ rest) =
    resolve_from ref (consider ref name instance' best) rest

-- `resolveOutboundRefTarget`.
unfoldable pub resolve_outbound_ref_target : String → List (String × Instance) → Option Target
unfolding resolve_from
resolve_outbound_ref_target ref by_name = resolve_from (trim_space ref) none by_name

-- The map from names to instances: a later instance replaces an earlier one of its name.
unfoldable pub by_name_from : List (String × Instance) → List Instance → List (String × Instance)
by_name_from m [] = m
by_name_from m (instance' ∷ rest) = by_name_from (insert instance'.name instance' m) rest

unfoldable pub find_inbound_by_name : List Inbound → String → Option Inbound
find_inbound_by_name inbounds name = find_first (λ inbound. inbound.name == name) inbounds

-- The checks of a ref whose target instance is found.
check_target : String → Instance → String → Target → ValidationErrors
check_target path instance' ref target =
    if target.instance_name == instance'.name
    then add path "ref outbound cannot reference the current instance" []
    else elim (find_inbound_by_name target.found.inbounds target.inbound_name) [
      | none ↦ add path "referenced inbound %q does not exist" (ref ∷ [])
      | some inbound ↦
          add_if (not (inbound.type == "socks5") && not (inbound.type == "http")) path
            "ref outbound can only reference socks5/http inbound, got %q" (inbound.type ∷ [])
    ]

unfoldable pub validate_ref :
    List (String × Instance) → String → Instance → Outbound → ValidationErrors
unfolding check_target
validate_ref by_name path instance' outbound =
    if not (outbound.type == "ref")
    then []
    else elim (resolve_outbound_ref_target outbound.ref by_name) [
      | none ↦ elim (parse_outbound_ref outbound.ref) [
        | none ↦ []
        | some (missing, name) ↦ add path "referenced instance %q does not exist" (missing ∷ [])
      ]
      | some target ↦ check_target path instance' outbound.ref target
    ]

-- `validateOutboundRefs`.
unfoldable pub validate_outbound_refs : List Instance → ValidationErrors
unfolding validate_ref by_name_from
validate_outbound_refs instances =
    let by_name = by_name_from [] instances in
    each
      (λ index instance'.
        each
          (λ outbound_index.
            validate_ref by_name
              (at_index (at_index "instances" index <> ".outbounds") outbound_index <> ".ref")
              instance')
          0 instance'.outbounds)
      0 instances
