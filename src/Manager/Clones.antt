-- ===== src/Manager/Clones.antt =====
-- internal/instance/manager.go: cloned instances.
pub mod Placed
use sbox_manager.Common.{
  Bool, List, Option, Outcome, String, [], failure, find_first, if◌then◌else◌, is_none, map, none,
  not, some, success, ◌&&◌, ◌==◌, ◌∷◌,
}
use sbox_manager.Domain.Models.{GlobalConfig, Inbound, Instance}
use sbox_manager.Manager.Ports.{allocate_ports}

-- `updateClonedSubscriptionRemarks`.
unfoldable pub update_cloned_subscription_remarks : Instance → String → String → Instance
update_cloned_subscription_remarks i source target = record i {
  inbounds =
      map
        (λ (x : Inbound).
          if x.subscription.enabled && x.subscription.remark == source
          then record x { subscription = record (x.subscription) { remark = target } }
          else x)
        i.inbounds;
}

-- `append([]string(nil), texts...)`: no texts give nil.
unfoldable pub copied_texts : Option (List String) → Option (List String)
copied_texts none = none
copied_texts (some []) = none
copied_texts (some (t ∷ ts)) = some (t ∷ ts)

-- `cloneInstanceValue`. The slices that the models have as plain lists, for which nil is the empty
-- one, are the same in a copy.
unfoldable pub clone_instance_value : Instance → Instance
clone_instance_value i = record i {
  labels = copied_texts i.labels;
  traffic = record (i.traffic) { scopes = copied_texts i.traffic.scopes };
}

-- `Clone` between the loading of the configuration and the writing of the clone.
unfoldable pub clone_instance :
    GlobalConfig → List Instance → String → String → Bool → Outcome Instance
clone_instance global instances source target with_ports =
    elim (find_first (λ (i : Instance). i.name == source) instances) [
      | none ↦ failure "instance %q does not exist"
      | some i ↦
          if not (is_none (find_first (λ (x : Instance). x.name == target) instances))
          then failure "instance %q already exists"
          else let cloned =
              update_cloned_subscription_remarks (record (clone_instance_value i) { name = target })
                source target in
            if with_ports then allocate_ports global instances cloned else success cloned
    ]
