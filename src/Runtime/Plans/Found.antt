-- ===== src/Runtime/Plans/Found.antt =====
-- internal/runtime/plan.go: what a plan that is built says of its desired files.
use sbox_manager.Common.{
  >>=-eq-success, All, Bool-cases, List, Member, Option, Outcome, String, [], arith, false, inl,
  inr, lookup, none, refl, some, success, success_injective, sym, traverse, true, ◌==◌, ◌∙◌, ◌∷◌,
  ◌≡◌, ◌⊎◌,
}
use sbox_manager.Domain.Models.{GlobalConfig, Instance}
use sbox_manager.Generator.Builds.{build_config_with_instances}
use sbox_manager.Runtime.Applies.Atomic.{is_write}
use sbox_manager.Runtime.Model.{
  Action, Change, Codec, DesiredFile, Disk, ManifestFile, RuntimeManifest, create, no_change,
  read_file,
}
use sbox_manager.Runtime.Plans.{
  action_of_file, desired_action, desired_change, desired_file, generated_path,
  relative_runtime_path, text_at,
}

pub traverse-Member :
    {A B : Type 0} (f : A → Outcome B) (xs : List A) (ys : List B)
    → traverse f xs ≡ success ys
    → (x : A) → Member x xs
    → (y : B) × (f x ≡ success y) × Member y ys
traverse-Member f [] ys h x m = elim m [ ]
traverse-Member f (a ∷ xs) ys h x (inl e) =
    let (y, made, rest) = >>=-eq-success (f a) _ h in
    let (more, _, last) = >>=-eq-success (traverse f xs) _ rest in
    rw (← success_injective last) (y, rw e made, inl refl)
traverse-Member f (a ∷ xs) ys h x (inr m) =
    let (y, made, rest) = >>=-eq-success (f a) _ h in
    let (more, rest_made, last) = >>=-eq-success (traverse f xs) _ rest in
    let (z, found, there) = traverse-Member f xs more rest_made x m in
    rw (← success_injective last) (z, found, inr there)

module _ {B : Type 0} (codec : Codec B) where
  -- The hash of a desired file is that of its contents.
  abbrev pub Hashed : DesiredFile B → Type 0
  Hashed d = d.file.sha256 ≡ codec.hash d.contents

  desired_file-Hashed :
      (global : GlobalConfig) (instances : List Instance) (i : Instance) (d : DesiredFile B)
      → desired_file codec global instances i ≡ success d
      → Hashed d
  unfolding desired_file
  desired_file-Hashed global instances i d h =
      let (c, _, rest) = >>=-eq-success (build_config_with_instances global instances i) _ h in
      let (path, _, last) =
        >>=-eq-success
          (relative_runtime_path global.paths.runtime
            (generated_path global.paths.generated i.name))
          _ rest in
      rw (← success_injective last) refl

  pub desired_files-Hashed :
      (global : GlobalConfig) (instances is : List Instance) (ds : List (DesiredFile B))
      → traverse (desired_file codec global instances) is ≡ success ds
      → All Hashed ds
  desired_files-Hashed global instances [] ds h = rw (← success_injective h) tt
  desired_files-Hashed global instances (i ∷ is) ds h =
      let (d, made, rest) = >>=-eq-success (desired_file codec global instances i) _ h in
      let (more, rest_made, last) =
        >>=-eq-success (traverse (desired_file codec global instances) is) _ rest in
      rw (← success_injective last) (
        desired_file-Hashed global instances i d made,
        desired_files-Hashed global instances is more rest_made,
      )

  -- A desired file is written, or it is there already with its hash.
  abbrev pub Settled : Disk B → DesiredFile B → Option ManifestFile → Action → Type 0
  Settled disk d existing a =
      (is_write a ≡ true)
      ⊎ ((a ≡ no_change)
          × (f : ManifestFile) × (b : B) × (existing ≡ some f)
          × (read_file disk f.path ≡ success (some b))
          × ((codec.hash b == d.file.sha256) ≡ true))

  action_of_file_cases :
      (manifest : Option RuntimeManifest) (config_hash instance_hash : String) (d : DesiredFile B)
      (f : ManifestFile) (b : B)
      → (is_write (action_of_file codec manifest config_hash instance_hash d f b) ≡ true)
        ⊎ ((action_of_file codec manifest config_hash instance_hash d f b ≡ no_change)
            × ((codec.hash b == d.file.sha256) ≡ true))
  unfolding action_of_file
  action_of_file_cases manifest config_hash instance_hash d f b =
      elim (Bool-cases (codec.hash b == d.file.sha256)) [
        | inr e ↦ inl (rw (e, action_of_file) refl)
        | inl e ↦
            elim (Bool-cases
              (is_write (action_of_file codec manifest config_hash instance_hash d f b))) [
                | inl w ↦ inl w
                | inr w ↦ inr (same_action manifest w, e)
              ]
      ]
    where
      same_action :
          (m : Option RuntimeManifest)
          → is_write (action_of_file codec m config_hash instance_hash d f b) ≡ false
          → action_of_file codec m config_hash instance_hash d f b ≡ no_change
      same_action none w = ground arith
      same_action (some m) w = ground arith

  pub desired_action-Settled :
      (disk : Disk B) (manifest : Option RuntimeManifest) (config_hash instance_hash : String)
      (d : DesiredFile B) (existing : Option ManifestFile) (a : Action)
      → desired_action codec disk manifest config_hash instance_hash d existing ≡ success a
      → Settled disk d existing a
  unfolding desired_action
  desired_action-Settled disk manifest config_hash instance_hash d none a h =
      inl (rw (← success_injective h) refl)
  desired_action-Settled disk manifest config_hash instance_hash d (some f) a h =
      elim (Bool-cases (f.relative_path == "")) [
        | inl e ↦ inl (rw (← success_injective (rw (e, desired_action) at h)) refl)
        | inr e ↦
            let (found, read, rest) =
              >>=-eq-success (read_file disk f.path) _ (rw (e, desired_action) at h) in
            by_found found read rest
      ]
    where
      by_found :
          (found : Option B)
          → read_file disk f.path ≡ success found
          → (elim found [
            | none ↦ success create
            | some b ↦ success (action_of_file codec manifest config_hash instance_hash d f b)
          ])
            ≡ success a
          → Settled disk d (some f) a
      by_found none read k = inl (rw (← success_injective k) refl)
      by_found (some b) read k =
          let same = success_injective k in
          elim (action_of_file_cases manifest config_hash instance_hash d f b) [
            | inl w ↦ inl (rw (← same) w)
            | inr (n, e) ↦ inr (sym same ∙ n, f, b, refl, read, e)
          ]

  pub desired_change-Settled :
      (disk : Disk B) (manifest : Option RuntimeManifest) (config_hash : String)
      (hashes : List (String × String)) (present : List (String × ManifestFile)) (d : DesiredFile B)
      (c : Change B)
      → desired_change codec disk manifest config_hash hashes present d ≡ success c
      → (c.file ≡ d.file)
        × (c.contents ≡ d.contents)
        × Settled disk d (lookup d.file.relative_path present) c.action
  unfolding desired_change
  desired_change-Settled disk manifest config_hash hashes present d c h =
      let existing = lookup d.file.relative_path present in
      let hash = text_at d.file.instance_name hashes in
      let (a, made, last) =
        >>=-eq-success (desired_action codec disk manifest config_hash hash d existing) _ h in
      rw (← success_injective last)
        (refl, refl, desired_action-Settled disk manifest config_hash hash d existing a made)
