-- ===== src/Runtime/Applies/Steps.antt =====
-- internal/runtime/apply.go: the effect of single changes.
use sbox_manager.Common.{
  Bool-cases, List, Option, String, [], arith, eq_iff, if◌then◌else◌, inl, inr, insert, lookup,
  none, refl, some, true, ◌==◌, ◌∷◌, ◌≡◌, ◌⊎◌,
}
use sbox_manager.Runtime.Applies.{apply_change, remove_managed_file, write_file_atomic}
use sbox_manager.Runtime.Manifests.{is_path_under}
use sbox_manager.Runtime.Model.{
  Action, Change, Disk, Fault, after_change, before_change, create, delete, next_fault, no_change,
  update, without_path,
}

Fault-cases :
    (fs : List (Option Fault))
    → (next_fault fs ≡ none)
      ⊎ ((next_fault fs ≡ some before_change) ⊎ (next_fault fs ≡ some after_change))
Fault-cases [] = inl refl
Fault-cases (none ∷ fs) = inl refl
Fault-cases (some before_change ∷ fs) = inr (inl refl)
Fault-cases (some after_change ∷ fs) = inr (inr refl)

module _ {B : Type 0} where
  pub lookup-without_path :
      (k j : String) (m : List (String × B))
      → lookup j (without_path k m) ≡ (if k == j then none else lookup j m)
  lookup-without_path k j [] = ground arith
  lookup-without_path k j ((i, w) ∷ m) =
      ground (arith, eq_iff k j, eq_iff i k, eq_iff i j, lookup-without_path k j m)

  -- A write leaves every file as it was, or puts the whole contents in the place of one.
  pub write_file_atomic_cases :
      (p : String) (b : B) (disk : Disk B)
      → ((write_file_atomic p b disk).0.files ≡ disk.files)
        ⊎ ((write_file_atomic p b disk).0.files ≡ insert p b disk.files)
  unfolding write_file_atomic
  write_file_atomic_cases p b disk = elim (Fault-cases disk.faults) [
    | inl e ↦ inr (rw (e, write_file_atomic) refl)
    | inr f ↦ elim f [
      | inl e ↦ inl (rw (e, write_file_atomic) refl)
      | inr e ↦ inr (rw (e, write_file_atomic) refl)
    ]
  ]

  pub remove_managed_file_cases :
      (p generated : String) (disk : Disk B)
      → ((remove_managed_file p generated disk).0.files ≡ disk.files)
        ⊎ (((remove_managed_file p generated disk).0.files ≡ without_path p disk.files)
            × (is_path_under generated p ≡ true))
  unfolding remove_managed_file
  remove_managed_file_cases p generated disk = elim (Bool-cases (is_path_under generated p)) [
    | inr u ↦ inl (rw (u, remove_managed_file) refl)
    | inl u ↦ elim (Fault-cases disk.faults) [
      | inl e ↦ inr (rw (u, e, remove_managed_file) refl, u)
      | inr f ↦ elim f [
        | inl e ↦ inl (rw (u, e, remove_managed_file) refl)
        | inr e ↦ inr (rw (u, e, remove_managed_file) refl, u)
      ]
    ]
  ]

  pub apply_change_create :
      (generated : String) (c : Change B) (disk : Disk B)
      → c.action ≡ create
      → apply_change generated c disk ≡ write_file_atomic c.file.path c.contents disk
  unfolding apply_change
  apply_change_create generated c disk e = rw (e, apply_change) refl

  pub apply_change_update :
      (generated : String) (c : Change B) (disk : Disk B)
      → c.action ≡ update
      → apply_change generated c disk ≡ write_file_atomic c.file.path c.contents disk
  unfolding apply_change
  apply_change_update generated c disk e = rw (e, apply_change) refl

  pub apply_change_delete :
      (generated : String) (c : Change B) (disk : Disk B)
      → c.action ≡ delete
      → apply_change generated c disk ≡ remove_managed_file c.file.path generated disk
  unfolding apply_change
  apply_change_delete generated c disk e = rw (e, apply_change) refl

  pub apply_change_no_change :
      (generated : String) (c : Change B) (disk : Disk B)
      → c.action ≡ no_change
      → apply_change generated c disk ≡ (disk, none)
  unfolding apply_change
  apply_change_no_change generated c disk e = rw (e, apply_change) refl

  -- What a change does to the files when nothing fails.
  abbrev pub effect : Change B → List (String × B) → List (String × B)
  effect c files = elim c.action [
    | create ↦ insert c.file.path c.contents files
    | update ↦ insert c.file.path c.contents files
    | delete ↦ without_path c.file.path files
    | no_change ↦ files
  ]

  -- The disk has these files, and what could be read before can be read.
  abbrev pub Leaves : Disk B → List (String × B) → Disk B → Type 0
  Leaves disk files after' = (after'.files ≡ files) × (after'.unreadable ≡ disk.unreadable)

  pub write_file_atomic_done :
      (p : String) (b : B) (disk : Disk B)
      → (write_file_atomic p b disk).1 ≡ none
      → Leaves disk (insert p b disk.files) (write_file_atomic p b disk).0
  unfolding write_file_atomic
  write_file_atomic_done p b disk h = elim (Fault-cases disk.faults) [
    | inl e ↦ rw (e, write_file_atomic) (refl, refl)
    | inr f ↦ elim f [
      | inl e ↦ let bad = rw (e, write_file_atomic) at h in cc
      | inr e ↦ let bad = rw (e, write_file_atomic) at h in cc
    ]
  ]

  remove_managed_file_done :
      (p generated : String) (disk : Disk B)
      → (remove_managed_file p generated disk).1 ≡ none
      → Leaves disk (without_path p disk.files) (remove_managed_file p generated disk).0
  unfolding remove_managed_file
  remove_managed_file_done p generated disk h = elim (Bool-cases (is_path_under generated p)) [
    | inr u ↦ let bad = rw (u, remove_managed_file) at h in cc
    | inl u ↦ elim (Fault-cases disk.faults) [
      | inl e ↦ rw (u, e, remove_managed_file) (refl, refl)
      | inr f ↦ elim f [
        | inl e ↦ let bad = rw (u, e, remove_managed_file) at h in cc
        | inr e ↦ let bad = rw (u, e, remove_managed_file) at h in cc
      ]
    ]
  ]

  pub apply_change_done :
      (generated : String) (c : Change B) (disk : Disk B)
      → (apply_change generated c disk).1 ≡ none
      → Leaves disk (effect c disk.files) (apply_change generated c disk).0
  apply_change_done generated c disk = by_action c.action refl
    where
      by_action :
          (a : Action)
          → c.action ≡ a
          → (apply_change generated c disk).1 ≡ none
          → Leaves disk (effect c disk.files) (apply_change generated c disk).0
      by_action create e h =
          let step = apply_change_create generated c disk e in
          rw (step, e) (write_file_atomic_done c.file.path c.contents disk (rw step at h))
      by_action update e h =
          let step = apply_change_update generated c disk e in
          rw (step, e) (write_file_atomic_done c.file.path c.contents disk (rw step at h))
      by_action delete e h =
          let step = apply_change_delete generated c disk e in
          rw (step, e) (remove_managed_file_done c.file.path generated disk (rw step at h))
      by_action no_change e h =
          let step = apply_change_no_change generated c disk e in rw (step, e) (refl, refl)
