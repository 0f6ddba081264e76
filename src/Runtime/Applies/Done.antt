-- ===== src/Runtime/Applies/Done.antt =====
-- internal/runtime/apply.go: the files behind a plan that is applied without an error.
use sbox_manager.Common.{
  Bool-cases, Distinct, List, Member, Option, Option-cases, String, [], ap, arith, eq_iff, eq_refl,
  false, has, inl, inr, insert, lookup, lookup-insert, map, none, refl, some, success, true, ◌==◌,
  ◌∙◌, ◌∷◌, ◌≡◌,
}
use sbox_manager.Runtime.Applies.{
  apply_change, apply_changes, apply_plan, build_applied_manifest, write_file_atomic,
  write_manifest,
}
use sbox_manager.Runtime.Applies.Steps.{
  Leaves, apply_change_done, effect, lookup-without_path, write_file_atomic_done,
}
use sbox_manager.Runtime.Model.{
  Action, ApplyResult, Change, Codec, Disk, Plan, create, delete, no_change, update,
}
use sbox_manager.Runtime.Plans.{has_changes}

pub apart :
    (ps : List String) (p q : String) → has ps p ≡ false → has ps q ≡ true → (p == q) ≡ false
apart ps p q h k = elim (Bool-cases (p == q)) [
  | inr e ↦ e
  | inl e ↦ let bad = rw ((eq_iff p q).0 e) at h in cc
]

module _ {B : Type 0} where
  abbrev pub effects : List (Change B) → List (String × B) → List (String × B)
  effects [] files = files
  effects (c ∷ cs) files = effects cs (effect c files)

  apply_changes_done :
      (generated : String) (cs : List (Change B)) (disk : Disk B)
      → (apply_changes generated cs disk).1 ≡ none
      → Leaves disk (effects cs disk.files) (apply_changes generated cs disk).0
  unfolding apply_changes
  apply_changes_done generated [] disk h = (refl, refl)
  apply_changes_done generated (c ∷ cs) disk h =
      let after_one = (apply_change generated c disk).0 in
      elim (Option-cases (apply_change generated c disk).1) [
        | inr (text, e) ↦ let bad = rw (e, apply_changes) at h in cc
        | inl e ↦
            let (files, readable) = apply_change_done generated c disk e in
            let (last, still) =
              apply_changes_done generated cs after_one (rw (e, apply_changes) at h) in
            rw (e, apply_changes) (last ∙ ap (effects cs) files, still ∙ readable)
      ]

  abbrev pub paths_of : List (Change B) → List String
  paths_of = map (λ (c : Change B). c.file.path)

  lookup-effect_other :
      (c : Change B) (path : String) (files : List (String × B))
      → (c.file.path == path) ≡ false
      → lookup path (effect c files) ≡ lookup path files
  lookup-effect_other c path files other = by_action c.action refl
    where
      by_action : (a : Action) → c.action ≡ a → lookup path (effect c files) ≡ lookup path files
      by_action create e =
          rw e (rw (lookup-insert c.file.path path c.contents files) (rw other refl))
      by_action update e =
          rw e (rw (lookup-insert c.file.path path c.contents files) (rw other refl))
      by_action delete e = rw e (rw (lookup-without_path c.file.path path files) (rw other refl))
      by_action no_change e = rw e refl

  pub lookup-effects_other :
      (cs : List (Change B)) (path : String) (files : List (String × B))
      → has (paths_of cs) path ≡ false
      → lookup path (effects cs files) ≡ lookup path files
  lookup-effects_other [] path files h = refl
  lookup-effects_other (c ∷ cs) path files h =
      lookup-effects_other cs path (effect c files) (ground arith)
      ∙ lookup-effect_other c path files (ground arith)

  -- What a change leaves at its path.
  abbrev pub left_by : Change B → Option B → Option B
  left_by c o = elim c.action [
    | create ↦ some c.contents
    | update ↦ some c.contents
    | delete ↦ none
    | no_change ↦ o
  ]

  lookup-effect_self :
      (c : Change B) (files : List (String × B))
      → lookup c.file.path (effect c files) ≡ left_by c (lookup c.file.path files)
  lookup-effect_self c files = by_action c.action refl
    where
      by_action :
          (a : Action)
          → c.action ≡ a
          → lookup c.file.path (effect c files) ≡ left_by c (lookup c.file.path files)
      by_action create e = rw e (
          rw (lookup-insert c.file.path c.file.path c.contents files)
            (rw (eq_refl c.file.path) refl))
      by_action update e = rw e (
          rw (lookup-insert c.file.path c.file.path c.contents files)
            (rw (eq_refl c.file.path) refl))
      by_action delete e =
          rw e
            (rw (lookup-without_path c.file.path c.file.path files) (rw (eq_refl c.file.path) refl))
      by_action no_change e = rw e refl

  pub paths-Member :
      (c : Change B) (cs : List (Change B)) → Member c cs → has (paths_of cs) c.file.path ≡ true
  paths-Member c [] m = elim m [ ]
  paths-Member c (x ∷ xs) (inl e) = rw e (rw (eq_refl x.file.path) refl)
  paths-Member c (x ∷ xs) (inr m) = ground (arith, paths-Member c xs m)

  -- Where no two changes are of one path, each leaves its own at its path.
  pub lookup-effects :
      (c : Change B) (cs : List (Change B)) (files : List (String × B))
      → Distinct (paths_of cs)
      → Member c cs
      → lookup c.file.path (effects cs files) ≡ left_by c (lookup c.file.path files)
  lookup-effects c [] files d m = elim m [ ]
  lookup-effects c (x ∷ xs) files (fresh, d) (inl e) =
      rw e (lookup-effects_other xs x.file.path (effect x files) fresh ∙ lookup-effect_self x files)
  lookup-effects c (x ∷ xs) files (fresh, d) (inr m) =
      let other = apart (paths_of xs) x.file.path c.file.path fresh (paths-Member c xs m) in
      lookup-effects c xs (effect x files) d m
      ∙ ap (left_by c) (lookup-effect_other x c.file.path files other)

-- A plan with changes that is applied leaves the files of its changes and the new manifest.
pub apply_plan_done :
    {B : Type 0} (codec : Codec B) (plan : Plan B) (now : String) (disk : Disk B) (r : ApplyResult)
    → has_changes plan ≡ true
    → (apply_plan codec plan now disk).1 ≡ success r
    → Leaves disk
        (insert plan.manifest_path
          (codec.encode_manifest (build_applied_manifest plan now))
          (effects plan.changes disk.files))
        (apply_plan codec plan now disk).0
unfolding apply_plan write_manifest
apply_plan_done codec plan now disk r e h =
    let generated = plan.generated_dir in
    let middle = (apply_changes generated plan.changes disk).0 in
    let m = codec.encode_manifest (build_applied_manifest plan now) in
    elim (Option-cases (apply_changes generated plan.changes disk).1) [
      | inr (text, f) ↦ let bad = rw (e, f, apply_plan) at h in cc
      | inl f ↦ elim (Option-cases (write_file_atomic plan.manifest_path m middle).1) [
        | inr (text, g) ↦ let bad = rw (e, f, g, apply_plan) at h in cc
        | inl g ↦
            let (files, readable) = apply_changes_done generated plan.changes disk f in
            let (last, still) = write_file_atomic_done plan.manifest_path m middle g in
            rw (e, f, apply_plan) (last ∙ ap (insert plan.manifest_path m) files, still ∙ readable)
      ]
    ]
