-- ===== src/Runtime/Scoped.antt =====
-- internal/runtime/plan.go: a plan for one instance.
pub mod Paths
pub mod Others
use sbox_manager.Common.{
  >>=-eq-success, All, All-append, All-sort_stable, Bool, Bool-cases, List, Member, Option,
  Option-cases, String, [], and-true, ap, arith, eq_iff, false, find_first, has, inl, inr, map,
  none, not, refl, some, sort_stable, success, success_injective, sym, traverse, ◌&&◌, ◌==◌, ◌∙◌,
  ◌∷◌, ◌≡◌, ◌⊎◌,
}
use sbox_manager.Domain.Models.{GlobalConfig, Instance}
use sbox_manager.Generator.Builds.{build_config_with_instances}
use sbox_manager.Runtime.Converged.Orderly.{build_plan-Built}
use sbox_manager.Runtime.Model.{
  Change, Codec, DesiredFile, Disk, ManifestFile, Plan, RuntimeManifest,
}
use sbox_manager.Runtime.Plans.{
  build_plan, change_before, deletion, desired_before, desired_change, desired_file, files_of,
  generated_path, in_target_scope, obsolete, relative_paths, relative_runtime_path,
  select_target_instances,
}
use sbox_manager.Runtime.Plans.Found.{desired_change-Settled}

module _ {B : Type 0} where
  -- A change of the target's file: the generated one, or one that the manifest has for the target.
  abbrev pub OfTarget : String → String → List ManifestFile → Change B → Type 0
  OfTarget generated target recorded c =
      (c.file.path ≡ generated_path generated target)
      ⊎ ((c.file.instance_name ≡ target) × Member c.file recorded)

  obsolete-OfTarget :
      (generated target : String) (desired : List (DesiredFile B)) (nil_bytes : B)
      (recorded fs : List ManifestFile)
      → All (λ (f : ManifestFile). Member f recorded) fs
      → All
          (OfTarget generated target recorded)
          (map (deletion nil_bytes) (obsolete false (target ∷ []) desired fs))
  unfolding obsolete
  obsolete-OfTarget generated target desired nil_bytes recorded [] all = tt
  obsolete-OfTarget generated target desired nil_bytes recorded (f ∷ fs) (member, all) =
      elim (Bool-cases (
        in_target_scope false (target ∷ []) f.instance_name
        && not (has (relative_paths desired) f.relative_path))) [
          | inr e ↦
              rw (e, obsolete)
                (obsolete-OfTarget generated target desired nil_bytes recorded fs all)
          | inl e ↦
              let (inside, _) =
                and-true (in_target_scope false (target ∷ []) f.instance_name) _ e in
              rw (e, obsolete)
                (
                  inr (ground (arith, eq_iff target f.instance_name, inside), member),
                  obsolete-OfTarget generated target desired nil_bytes recorded fs all,
                )
        ]

find_first-name :
    (target : String) (is : List Instance) (i : Instance)
    → find_first (λ (x : Instance). x.name == target) is ≡ some i
    → i.name ≡ target
find_first-name target [] i h = let bad = h in cc
find_first-name target (x ∷ xs) i h = elim (Bool-cases (x.name == target)) [
  | inl e ↦
      let same = rw e at h in
      ap (λ (o : Option Instance). elim o [ none ↦ target | some y ↦ y.name ]) (sym same)
      ∙ (eq_iff x.name target).0 e
  | inr e ↦ find_first-name target xs i (rw e at h)
]

-- With a target the scope is its instance.
abbrev ForTarget : String → List Instance × List String × Bool → Type 0
ForTarget target (is, scope, full_scope) =
    All (λ (i : Instance). i.name ≡ target) is × (scope ≡ target ∷ []) × (full_scope ≡ false)

select_target_instances-ForTarget :
    (instances : List Instance) (target : String) (r : List Instance × List String × Bool)
    → (target == "") ≡ false
    → select_target_instances instances target ≡ success r
    → ForTarget target r
unfolding select_target_instances
select_target_instances-ForTarget instances target r named h =
    elim (Option-cases (find_first (λ (x : Instance). x.name == target) instances)) [
      | inl e ↦ let bad = rw (named, e, select_target_instances) at h in cc
      | inr (i, e) ↦
          let same = success_injective (rw (named, e, select_target_instances) at h) in
          rw (← same) ((find_first-name target instances i e, tt), refl, refl)
    ]

module _ {B : Type 0} (codec : Codec B) where
  desired_files-paths :
      (global : GlobalConfig) (instances is : List Instance) (target : String)
      (ds : List (DesiredFile B))
      → All (λ (i : Instance). i.name ≡ target) is
      → traverse (desired_file codec global instances) is ≡ success ds
      → All (λ (d : DesiredFile B). d.file.path ≡ generated_path global.paths.generated target) ds
  unfolding desired_file
  desired_files-paths global instances [] target ds all h = rw (← success_injective h) tt
  desired_files-paths global instances (i ∷ is) target ds (name, all) h =
      let (d, made, rest) = >>=-eq-success (desired_file codec global instances i) _ h in
      let (more, rest_made, last) =
        >>=-eq-success (traverse (desired_file codec global instances) is) _ rest in
      let (c, _, made2) = >>=-eq-success (build_config_with_instances global instances i) _ made in
      let (path, _, made3) =
        >>=-eq-success
          (relative_runtime_path global.paths.runtime
            (generated_path global.paths.generated i.name))
          _ made2 in
      rw (← success_injective last) (
        ap (λ (x : DesiredFile B). x.file.path) (sym (success_injective made3))
            ∙ ap (generated_path global.paths.generated) name,
        desired_files-paths global instances is target more all rest_made,
      )

  changes-OfTarget :
      (disk : Disk B) (manifest : Option RuntimeManifest) (config_hash : String)
      (hashes : List (String × String)) (present : List (String × ManifestFile))
      (generated target : String) (recorded : List ManifestFile) (ds : List (DesiredFile B))
      (cs : List (Change B))
      → All (λ (d : DesiredFile B). d.file.path ≡ generated_path generated target) ds
      → traverse (desired_change codec disk manifest config_hash hashes present) ds ≡ success cs
      → All (OfTarget generated target recorded) cs
  changes-OfTarget disk manifest config_hash hashes present generated target recorded [] cs all h =
      rw (← success_injective h) tt
  changes-OfTarget disk manifest config_hash hashes present generated target recorded (d ∷ ds) cs
        (placed, all) h =
      let f = desired_change codec disk manifest config_hash hashes present in
      let (c, made, rest) = >>=-eq-success (f d) _ h in
      let (more, rest_made, last) = >>=-eq-success (traverse f ds) _ rest in
      let (file, _, _) =
        desired_change-Settled codec disk manifest config_hash hashes present d c made in
      rw (← success_injective last) (
        inl (ap (λ (x : ManifestFile). x.path) file ∙ placed),
        changes-OfTarget disk manifest config_hash hashes present generated target recorded ds more
            all rest_made,
      )

list_inside :
    {A : Type 0} (xs ys : List A)
    → ((x : A) → Member x xs → Member x ys)
    → All (λ (x : A). Member x ys) xs
list_inside [] ys inside = tt
list_inside (x ∷ xs) ys inside = (inside x (inl refl), list_inside xs ys (λ y m. inside y (inr m)))

-- Every change of a plan that is built for one instance is of a file of this instance.
pub build_plan-OfTarget :
    {B : Type 0} (codec : Codec B) (global : GlobalConfig) (instances : List Instance)
    (target : String) (disk : Disk B) (plan : Plan B)
    → (target == "") ≡ false
    → build_plan codec global instances target disk ≡ success plan
    → All (OfTarget global.paths.generated target (files_of plan.existing)) plan.changes
build_plan-OfTarget codec global instances target disk plan named h =
    let b = build_plan-Built codec global instances target disk plan h in
    let generated = global.paths.generated in
    let recorded = files_of b.existing in
    let (names, scope, full) =
      select_target_instances-ForTarget instances target _ named b.chosen in
    let wanted =
      All-sort_stable desired_before _ b.wanted
        (desired_files-paths codec global instances b.targets target b.wanted names b.generated) in
    let first =
      changes-OfTarget codec disk b.existing _ _ _ generated target recorded _ b.changes wanted
        b.compared in
    let last =
      obsolete-OfTarget generated target (sort_stable desired_before b.wanted) codec.nil_bytes
        recorded recorded (list_inside recorded recorded (λ x m. m)) in
    rw (b.is_plan) (
      All-sort_stable change_before (OfTarget generated target recorded) _
        (All-append (OfTarget generated target recorded) b.changes _ first (rw (scope, full) last)))
