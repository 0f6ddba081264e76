-- ===== src/Manager/Clones/Placed.antt =====
-- internal/instance/manager.go: what a clone has.
use sbox_manager.Common.{
  Fresh, List, Option, Option-cases, String, [], ap, eqb_ℤ, inl, inr, none, refl, some, success,
  true, ◌∙◌, ◌∷◌, ◌≡◌,
}
use sbox_manager.Config.PortRanges.{is_used}
use sbox_manager.Domain.Models.{GlobalConfig, Instance}
use sbox_manager.Manager.Clones.{
  clone_instance, clone_instance_value, copied_texts, update_cloned_subscription_remarks,
}
use sbox_manager.Manager.Members.{find_instance_by_name}
use sbox_manager.Manager.Ports.{used_ports}
use sbox_manager.Manager.Ports.Allocated.{allocate_ports-Fresh, allocate_ports-kept, ports_of}

abbrev pub texts_of : Option (List String) → List String
texts_of none = []
texts_of (some texts) = texts

texts_of-copied_texts :
    (texts : Option (List String)) → texts_of (copied_texts texts) ≡ texts_of texts
unfolding copied_texts
texts_of-copied_texts none = refl
texts_of-copied_texts (some []) = refl
texts_of-copied_texts (some (t ∷ ts)) = refl

-- What a clone takes over: all but the name, the inbounds and the API, where no labels or scopes may
-- be an empty list in the one and nil in the other.
abbrev pub Copies : Instance → Instance → Type 0
Copies i result =
    (result ≡ record i {
      name = result.name;
      inbounds = result.inbounds;
      api = result.api;
      labels = result.labels;
      traffic = record (i.traffic) { scopes = result.traffic.scopes };
    })
    × (texts_of result.labels ≡ texts_of i.labels)
    × (texts_of result.traffic.scopes ≡ texts_of i.traffic.scopes)

copied-Copies :
    (i cloned : Instance)
    → cloned ≡ record (clone_instance_value i) {
      name = cloned.name;
      inbounds = cloned.inbounds;
      api = cloned.api;
    }
    → Copies i cloned
unfolding clone_instance_value
copied-Copies i cloned h = (
  h ∙ rw (ap (λ (x : Instance). x.labels) h, ap (λ (x : Instance). x.traffic.scopes) h) refl,
  ap (λ (x : Instance). texts_of x.labels) h ∙ texts_of-copied_texts i.labels,
  ap (λ (x : Instance). texts_of x.traffic.scopes) h ∙ texts_of-copied_texts i.traffic.scopes,
)

-- A clone with new ports has the target name, which no instance had; it has all of its source but
-- the name, the inbounds and the API, the labels and traffic scopes as the same lists, of which an
-- empty one may become nil; no instance uses a port of its inbounds, and no two of them have one
-- port.
pub clone_instance-Fresh :
    (global : GlobalConfig) (instances : List Instance) (source target : String) (result : Instance)
    → clone_instance global instances source target true ≡ success result
    → (i : Instance) × (find_instance_by_name instances source ≡ some i)
      × (find_instance_by_name instances target ≡ none)
      × (result.name ≡ target)
      × Copies i result
      × Fresh eqb_ℤ (ports_of result.inbounds) (is_used (used_ports instances))
unfolding clone_instance find_instance_by_name update_cloned_subscription_remarks
clone_instance-Fresh global instances source target result h =
    elim (Option-cases (find_instance_by_name instances source)) [
      | inl e ↦ let bad = rw (e, clone_instance) at h in cc
      | inr (i, e) ↦ elim (Option-cases (find_instance_by_name instances target)) [
        | inr (x, f) ↦ let bad = rw (e, f, clone_instance) at h in cc
        | inl f ↦
            let cloned =
              update_cloned_subscription_remarks (record (clone_instance_value i) { name = target })
                source target in
            let placed = rw (e, f, clone_instance) at h in
            let kept = allocate_ports-kept global instances cloned result placed in
            let named = ap (λ (x : Instance). x.name) kept in
            (
              i,
              e,
              f,
              named,
              copied-Copies i result (kept ∙ rw (← named) refl),
              allocate_ports-Fresh global instances cloned result placed,
            )
      ]
    ]
