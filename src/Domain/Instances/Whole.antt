-- ===== src/Domain/Instances/Whole.antt =====
-- internal/domain/validation.go: what holds of a configuration that `ValidateConfigSet` accepts.
use sbox_manager.Common.{
  All, Fresh, List, [], append-eq-nil, append4-eq-nil, eqb_ℤ, false, ◌∷◌, ◌≡◌,
}
use sbox_manager.Domain.Globals.{validate_global_config}
use sbox_manager.Domain.Instances.{
  validate_config_set, validate_instance, validate_instances, validate_port_conflicts,
}
use sbox_manager.Domain.Instances.Accepted.{IsClosed, validate_instance-IsClosed}
use sbox_manager.Domain.Instances.Ports.{ports_in_use, validate_port_conflicts-eq-nil_iff}
use sbox_manager.Domain.Models.{GlobalConfig, Instance}
use sbox_manager.Domain.Platform.{Platform}
use sbox_manager.Domain.Refs.{validate_outbound_refs}
use sbox_manager.Domain.Refs.Resolved.{RefsOk, validate_outbound_refs-eq-nil}

validate_instances-IsClosed :
    (global : GlobalConfig) (given : List Instance)
    → (validate_instances global given).0 ≡ []
    → All IsClosed (validate_instances global given).1
unfolding validate_instances
validate_instances-IsClosed global [] h = tt
validate_instances-IsClosed global (i ∷ is) h =
    let (here, rest) =
      append-eq-nil (validate_instance global i).0 (validate_instances global is).0 h in
    (validate_instance-IsClosed global i here, validate_instances-IsClosed global is rest)

-- In a configuration that `ValidateConfigSet` accepts, once the defaults are put in: every instance
-- is closed (its names are safe and distinct, and its groups and routes name what it has); every
-- outbound of the type ref with a well-formed ref names a socks5 or http inbound of another instance;
-- and no port is used twice by the enabled instances.
pub validate_config_set-eq-nil :
    (platform : Platform) (global : GlobalConfig) (given : List Instance)
    → (validate_config_set platform global given).0 ≡ []
    → All IsClosed (validate_config_set platform global given).1
      × RefsOk (validate_config_set platform global given).1
      × Fresh eqb_ℤ (ports_in_use (validate_config_set platform global given).1) (λ port. false)
unfolding validate_config_set
validate_config_set-eq-nil platform global given h =
    let is = (validate_instances global given).1 in
    let (whole, instances, refs, ports) =
      append4-eq-nil (validate_global_config platform global) (validate_instances global given).0
        (validate_outbound_refs is) (validate_port_conflicts is) h in
    (
      validate_instances-IsClosed global given instances,
      validate_outbound_refs-eq-nil is refs,
      (validate_port_conflicts-eq-nil_iff is).0 ports,
    )
