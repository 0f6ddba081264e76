-- ===== src/Runtime/Converged/Content.antt =====
-- internal/runtime: the desired files behind an application.
use mathlib.Core.Path.{subst}
use sbox_manager.Common.{
  All-Member, All-sort_stable, List, Member, Member-append, Member-sort_stable, Option, String, [],
  ap, eq_refl, inl, inr, insert, known, lookup, lookup-insert, map, refl, some, sort_stable,
  success_injective, sym, true, ◌++◌, ◌==◌, ◌≡◌,
}
use sbox_manager.Domain.Models.{GlobalConfig, Instance}
use sbox_manager.Runtime.Applies.Atomic.{is_write}
use sbox_manager.Runtime.Applies.Done.{
  apart, effects, left_by, lookup-effects, paths-Member, paths_of,
}
use sbox_manager.Runtime.Converged.Orderly.{Built, IsOrderly}
use sbox_manager.Runtime.Model.{
  Action, Change, Codec, DesiredFile, Disk, ManifestFile, Plan, create, delete, no_change, update,
}
use sbox_manager.Runtime.Plans.{
  by_relative, change_before, deletion, desired_before, files_of, obsolete,
}
use sbox_manager.Runtime.Plans.Found.{
  Hashed, Settled, desired_change-Settled, desired_files-Hashed, traverse-Member,
}

module _ {B : Type 0} (codec : Codec B) {global : GlobalConfig} {instances : List Instance}
    {target : String} {disk : Disk B} {plan : Plan B} {now : String}
    (built : Built codec global instances target disk plan)
    (orderly : IsOrderly plan disk now) where
  -- Each desired file has a change of the plan.
  change_of :
      (d : DesiredFile B)
      → Member d plan.desired_files
      → (c : Change B) × Member c plan.changes
        × (c.file ≡ d.file)
        × (c.contents ≡ d.contents)
        × Settled codec disk d
            (lookup d.file.relative_path (by_relative [] (files_of plan.existing)))
            c.action
  change_of d m =
      subst
        (λ (p : Plan B).
          Member d p.desired_files
          → (c : Change B) × Member c p.changes
            × (c.file ≡ d.file)
            × (c.contents ≡ d.contents)
            × Settled codec disk d
                (lookup d.file.relative_path (by_relative [] (files_of p.existing))) c.action)
        (sym built.is_plan) here m
    where
      here :
          Member d (sort_stable desired_before built.wanted)
          → (c : Change B) × Member c (
              sort_stable change_before (
                built.changes
                ++ map (deletion codec.nil_bytes) (
                    obsolete built.full_scope built.scope
                      (sort_stable desired_before built.wanted)
                      (files_of built.existing))))
            × (c.file ≡ d.file)
            × (c.contents ≡ d.contents)
            × Settled codec disk d
                (lookup d.file.relative_path (by_relative [] (files_of built.existing)))
                c.action
      here n =
          let (c, made, there) = traverse-Member _ _ built.changes built.compared d n in
          let (file, contents, settled) =
            desired_change-Settled codec disk built.existing _ _ _ d c made in
          (
            c,
            Member-sort_stable change_before c _ (Member-append c built.changes _ there),
            file,
            contents,
            settled,
          )

  hashed : (d : DesiredFile B) → Member d plan.desired_files → Hashed codec d
  hashed d m =
      let ds = sort_stable desired_before built.wanted in
      let all =
        All-sort_stable desired_before (Hashed codec) built.wanted (
          desired_files-Hashed codec global instances built.targets built.wanted built.generated) in
      All-Member (Hashed codec) d ds all
        (subst (λ (p : Plan B). Member d p.desired_files) built.is_plan m)

  -- The contents with the hash of the desired file stand at its path.
  abbrev pub Present : DesiredFile B → Option B → Type 0
  Present d o = (b : B) × (o ≡ some b) × ((codec.hash b == d.file.sha256) ≡ true)

  left-Present :
      (d : DesiredFile B) (c : Change B)
      → Hashed codec d
      → c.contents ≡ d.contents
      → Settled codec disk d
          (lookup d.file.relative_path (by_relative [] (files_of plan.existing)))
          c.action
      → Member d plan.desired_files
      → Present d (left_by c (lookup d.file.path disk.files))
  left-Present d c known contents (inl w) m = by_action c.action refl w
    where
      self : (codec.hash d.contents == d.file.sha256) ≡ true
      self = rw known (eq_refl (codec.hash d.contents))

      by_action :
          (a : Action)
          → c.action ≡ a
          → is_write c.action ≡ true
          → Present d (left_by c (lookup d.file.path disk.files))
      by_action create e k = rw e (rw contents (d.contents, refl, self))
      by_action update e k = rw e (rw contents (d.contents, refl, self))
      by_action delete e k = let bad = rw e at k in cc
      by_action no_change e k = let bad = rw e at k in cc
  left-Present d c known contents (inr (e, f, b, found, read, same)) m =
      let path = orderly.same_paths d m f found in rw e (b, stored path, same)
    where
      stored : f.path ≡ d.file.path → lookup d.file.path disk.files ≡ some b
      stored path = success_injective (rw (orderly.readable, path) at read)

  pub Present-after :
      (d : DesiredFile B) (manifest : B)
      → Member d plan.desired_files
      → Present d (
          lookup d.file.path (insert plan.manifest_path manifest (effects plan.changes disk.files)))
  Present-after d manifest m =
      let (c, there, file, contents, settled) = change_of d m in
      let same : c.file.path ≡ d.file.path = ap (λ (f : ManifestFile). f.path) file in
      let left = lookup-effects c plan.changes disk.files orderly.paths_distinct there in
      let other =
        apart (paths_of plan.changes) plan.manifest_path d.file.path orderly.manifest_apart
          (rw same at (paths-Member c plan.changes there)) in
      rw (lookup-insert plan.manifest_path d.file.path manifest (effects plan.changes disk.files))
        (rw other (rw (rw same at left) (left-Present d c (hashed d m) contents settled m)))
