-- ===== src/Runtime/Applies/Atomic.antt =====
-- internal/runtime/apply.go: what can become of a file, whatever fails.
use sbox_manager.Common.{
  Bool, Bool-cases, List, Member, Option, Option-cases, String, [], arith, eq_iff, false, inl, inr,
  lookup, lookup-insert, none, refl, some, true, ◌==◌, ◌∷◌, ◌≡◌, ◌≢◌,
}
use sbox_manager.Runtime.Applies.{
  apply_change, apply_changes, apply_plan, build_applied_manifest, remove_managed_file,
  write_file_atomic, write_manifest,
}
use sbox_manager.Runtime.Applies.Steps.{
  apply_change_create, apply_change_delete, apply_change_no_change, apply_change_update,
  lookup-without_path, remove_managed_file_cases, write_file_atomic_cases,
}
use sbox_manager.Runtime.Manifests.{is_path_under}
use sbox_manager.Runtime.Model.{
  Action, Change, Codec, Disk, Plan, create, delete, no_change, update,
}
use sbox_manager.Runtime.Plans.{has_changes}

abbrev pub is_write : Action → Bool
is_write create = true
is_write update = true
is_write delete = false
is_write no_change = false

module _ {B : Type 0} where
  -- A file is as it was, or the whole contents of a change of the plan that writes it, or gone by a
  -- deletion of the plan below the directory of the generated files.
  pub data Explained (generated path : String) (changes : List (Change B))
      : Option B → Option B → Type 0 where
    as_it_was : {o : Option B} → Explained generated path changes o o
    written :
        {o n : Option B} (c : Change B)
        → Member c changes
        → c.file.path ≡ path
        → is_write c.action ≡ true
        → n ≡ some c.contents
        → Explained generated path changes o n
    deleted :
        {o n : Option B} (c : Change B)
        → Member c changes
        → c.file.path ≡ path
        → c.action ≡ delete
        → is_path_under generated path ≡ true
        → n ≡ none
        → Explained generated path changes o n

  widen :
      {generated path : String} {c : Change B} {cs : List (Change B)} {a b : Option B}
      → Explained generated path (c ∷ []) a b
      → Explained generated path (c ∷ cs) a b
  widen as_it_was = as_it_was
  widen (written x (inl same) p w e) = written x (inl same) p w e
  widen (written x (inr m) p w e) = elim m [ ]
  widen (deleted x (inl same) p k u e) = deleted x (inl same) p k u e
  widen (deleted x (inr m) p k u e) = elim m [ ]

  later :
      {generated path : String} {c : Change B} {cs : List (Change B)} {a b d : Option B}
      → Explained generated path (c ∷ []) a b
      → Explained generated path cs b d
      → Explained generated path (c ∷ cs) a d
  later first as_it_was = widen first
  later first (written x m p w e) = written x (inr m) p w e
  later first (deleted x m p k u e) = deleted x (inr m) p k u e

  write-Explained :
      (generated path : String) (c : Change B) (disk : Disk B)
      → is_write c.action ≡ true
      → Explained generated path
          (c ∷ [])
          (lookup path disk.files)
          (lookup path (write_file_atomic c.file.path c.contents disk).0.files)
  write-Explained generated path c disk w =
      elim (write_file_atomic_cases c.file.path c.contents disk) [
        | inl e ↦ rw e as_it_was
        | inr e ↦ elim (Bool-cases (c.file.path == path)) [
          | inl same ↦
              written c (inl refl) ((eq_iff _ _).0 same) w
                (rw e (rw (lookup-insert c.file.path path c.contents disk.files) (rw same refl)))
          | inr other ↦
              rw e (rw (lookup-insert c.file.path path c.contents disk.files) (rw other as_it_was))
        ]
      ]

  delete-Explained :
      (generated path : String) (c : Change B) (disk : Disk B)
      → c.action ≡ delete
      → Explained generated path
          (c ∷ [])
          (lookup path disk.files)
          (lookup path (remove_managed_file c.file.path generated disk).0.files)
  delete-Explained generated path c disk k =
      elim (remove_managed_file_cases c.file.path generated disk) [
        | inl e ↦ rw e as_it_was
        | inr (e, under) ↦ elim (Bool-cases (c.file.path == path)) [
          | inl same ↦
              let here : c.file.path ≡ path = (eq_iff _ _).0 same in
              deleted c (inl refl) here k (rw here at under)
                (rw e (rw (lookup-without_path c.file.path path disk.files) (rw same refl)))
          | inr other ↦
              rw e (rw (lookup-without_path c.file.path path disk.files) (rw other as_it_was))
        ]
      ]

  change-Explained :
      (generated path : String) (c : Change B) (disk : Disk B)
      → Explained generated path
          (c ∷ [])
          (lookup path disk.files)
          (lookup path (apply_change generated c disk).0.files)
  change-Explained generated path c disk = by_action c.action refl
    where
      by_action :
          (a : Action)
          → c.action ≡ a
          → Explained generated path
              (c ∷ [])
              (lookup path disk.files)
              (lookup path (apply_change generated c disk).0.files)
      by_action create e =
          rw (apply_change_create generated c disk e)
            (write-Explained generated path c disk (rw e refl))
      by_action update e =
          rw (apply_change_update generated c disk e)
            (write-Explained generated path c disk (rw e refl))
      by_action delete e =
          rw (apply_change_delete generated c disk e) (delete-Explained generated path c disk e)
      by_action no_change e = rw (apply_change_no_change generated c disk e) as_it_was

  changes-Explained :
      (generated path : String) (cs : List (Change B)) (disk : Disk B)
      → Explained generated path cs
          (lookup path disk.files)
          (lookup path (apply_changes generated cs disk).0.files)
  unfolding apply_changes
  changes-Explained generated path [] disk = as_it_was
  changes-Explained generated path (c ∷ cs) disk =
      let first = change-Explained generated path c disk in
      let after_one = (apply_change generated c disk).0 in
      elim (Option-cases (apply_change generated c disk).1) [
        | inl e ↦
            rw (e, apply_changes) (later first (changes-Explained generated path cs after_one))
        | inr (text, e) ↦ rw (e, apply_changes) (widen first)
      ]

different : (p path : String) → path ≢ p → (p == path) ≡ false
different p path other = ground (arith, eq_iff p path)

-- Whatever fails on the way, `ApplyPlan` leaves each file other than the runtime manifest as it was,
-- or with the whole contents of a change of the plan for its path, or, if the plan deletes its path
-- and that is below the directory of the generated files, without it.
pub apply_plan-Explained :
    {B : Type 0} (codec : Codec B) (plan : Plan B) (now path : String) (disk : Disk B)
    → path ≢ plan.manifest_path
    → Explained plan.generated_dir path plan.changes
        (lookup path disk.files)
        (lookup path (apply_plan codec plan now disk).0.files)
unfolding apply_plan write_manifest
apply_plan-Explained codec plan now path disk other =
    let generated = plan.generated_dir in
    let middle = (apply_changes generated plan.changes disk).0 in
    let manifest = codec.encode_manifest (build_applied_manifest plan now) in
    let all = changes-Explained generated path plan.changes disk in
    elim (Bool-cases (has_changes plan)) [
      | inr e ↦ rw (e, apply_plan) as_it_was
      | inl e ↦ elim (Option-cases (apply_changes generated plan.changes disk).1) [
        | inr (text, f) ↦ rw (e, f, apply_plan) all
        | inl f ↦
            rw (e, f, apply_plan)
              (elim (write_file_atomic_cases plan.manifest_path manifest middle) [
                | inl g ↦ rw g all
                | inr g ↦ rw g (
                    rw (lookup-insert plan.manifest_path path manifest middle.files)
                      (rw (different plan.manifest_path path other) all))
              ])
      ]
    ]
