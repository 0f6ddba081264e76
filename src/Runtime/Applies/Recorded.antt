-- ===== src/Runtime/Applies/Recorded.antt =====
-- internal/runtime/apply.go: what `buildAppliedManifest` records.
use mathlib.Core.Path.{subst}
use sbox_manager.Common.{
  All, All-append, All-sort_stable, Ascending, Bool, Bool-cases, Distinct, List, Member, Member-map,
  Member-sort_stable, Option, Option-cases, String, [], ap, arith, eq_iff, eq_refl, false, has,
  if◌then◌else◌, inl, inr, insert, keep, lookup, lookup-insert, map, none, not, refl, some,
  sort_stable, sym, text_lt, true, ◌&&◌, ◌++◌, ◌==◌, ◌∷◌, ◌≡◌,
}
use sbox_manager.Domain.Refs.Resolved.{All-map}
use sbox_manager.Runtime.Applies.{applied_files, file_of, kept_files, put_hashes}
use sbox_manager.Runtime.Applies.Done.{apart}
use sbox_manager.Runtime.Applies.Entries.{
  Agree, Agree-values, All-by_relative, Entry, Member-lookup, lookup-by_relative, values,
}
use sbox_manager.Runtime.Manifests.{
  earlier_path, sort_manifest_files, validate_files, validate_manifest, validate_manifest_file,
}
use sbox_manager.Runtime.Model.{DesiredFile, ManifestFile, Plan, RuntimeManifest}
use sbox_manager.Runtime.Plans.{
  by_relative, files_of, in_target_scope, obsolete, relative_paths, text_at,
}

abbrev pub Valid : String → ManifestFile → Type 0
Valid generated f = validate_manifest_file f generated ≡ none

-- Valid files in ascending order are accepted.
validate_files-some :
    (generated : String) (p : ManifestFile) (fs : List ManifestFile)
    → All (Valid generated) fs
    → Ascending earlier_path (p ∷ fs)
    → validate_files generated (some p.relative_path) fs ≡ none
unfolding validate_files
validate_files-some generated p [] h a = refl
validate_files-some generated p (f ∷ fs) (ok, h) (order, a) =
    rw (ok, validate_files) (rw order (validate_files-some generated f fs h a))

pub validate_files-none :
    (generated : String) (fs : List ManifestFile)
    → All (Valid generated) fs
    → Ascending earlier_path fs
    → validate_files generated none fs ≡ none
unfolding validate_files
validate_files-none generated [] h a = refl
validate_files-none generated (f ∷ fs) (ok, h) a =
    rw (ok, validate_files) (validate_files-some generated f fs h a)

-- The files of a manifest that is accepted are.
pub validate_files-Valid :
    (generated : String) (previous : Option String) (fs : List ManifestFile)
    → validate_files generated previous fs ≡ none
    → All (Valid generated) fs
unfolding validate_files
validate_files-Valid generated previous [] h = tt
validate_files-Valid generated previous (f ∷ fs) h =
    elim (Option-cases (validate_manifest_file f generated)) [
      | inr (text, e) ↦ let bad = rw (e, validate_files) at h in cc
      | inl e ↦ (
        e,
        validate_files-Valid generated (some f.relative_path) fs
            (by_previous previous (rw (e, validate_files) at h)),
      )
    ]
  where
    by_previous :
        (q : Option String)
        → (elim q [
          | none ↦ validate_files generated (some f.relative_path) fs
          | some p ↦
              if text_lt f.relative_path p
              then some "files must be sorted stably by relative_path"
              else validate_files generated (some f.relative_path) fs
        ])
          ≡ none
        → validate_files generated (some f.relative_path) fs ≡ none
    by_previous none k = k
    by_previous (some p) k = ground arith

pub validate_manifest-Valid :
    (m : RuntimeManifest) (generated : String)
    → validate_manifest m generated ≡ none
    → All (Valid generated) m.files
unfolding validate_manifest
validate_manifest-Valid m generated h = validate_files-Valid generated none m.files (ground arith)

module _ {B : Type 0} (plan : Plan B) where
  abbrev pub wanted_files : List ManifestFile
  wanted_files = map file_of plan.desired_files

  kept_unscoped :
      All
        (λ (f : ManifestFile).
          in_target_scope plan.full_scope plan.target_scope f.instance_name ≡ false)
        (kept_files plan)
  unfolding kept_files
  kept_unscoped = elim (Bool-cases plan.full_scope) [
    | inl e ↦ rw e tt
    | inr e ↦ rw e (all_kept _ (files_of plan.existing))
  ]
    where
      all_kept :
          (p : ManifestFile → Bool) (fs : List ManifestFile)
          → All (λ (f : ManifestFile). p f ≡ false) (keep (λ (f : ManifestFile). not (p f)) fs)
      all_kept p [] = tt
      all_kept p (f ∷ fs) = elim (Bool-cases (p f)) [
        | inl e ↦ rw e (all_kept p fs)
        | inr e ↦ rw e (e, all_kept p fs)
      ]

  -- What holds of the kept files and of the desired ones holds of the recorded ones.
  pub All-applied_files :
      (P : ManifestFile → Type 0)
      → All P (kept_files plan)
      → All P wanted_files
      → All P (sort_manifest_files (applied_files plan))
  unfolding applied_files sort_manifest_files
  All-applied_files P kept wanted =
      All-sort_stable earlier_path P (values (by_relative [] (kept_files plan ++ wanted_files))) (
        All-by_relative P [] (kept_files plan ++ wanted_files)
          (All-append P (kept_files plan) wanted_files kept wanted) tt)

  -- A file of the scope that is recorded is desired, so nothing recorded is obsolete.
  obsolete-none :
      (fs : List ManifestFile)
      → All
          (λ (f : ManifestFile).
            (in_target_scope plan.full_scope plan.target_scope f.instance_name
              && not (has (relative_paths plan.desired_files) f.relative_path))
            ≡ false)
          fs
      → obsolete plan.full_scope plan.target_scope plan.desired_files fs ≡ []
  unfolding obsolete
  obsolete-none [] h = refl
  obsolete-none (f ∷ fs) (e, h) = rw (e, obsolete) (obsolete-none fs h)

  wanted_known :
      (ds all : List (DesiredFile B))
      → ((d : DesiredFile B) → Member d ds → has (relative_paths all) d.file.relative_path ≡ true)
      → All
          (λ (f : ManifestFile).
            (in_target_scope plan.full_scope plan.target_scope f.instance_name
              && not (has (relative_paths all) f.relative_path))
            ≡ false)
          (map file_of ds)
  wanted_known [] all h = tt
  wanted_known (d ∷ ds) all h =
      (ground (arith, h d (inl refl)), wanted_known ds all (λ x m. h x (inr m)))

  relative-Member :
      (d : DesiredFile B) (ds : List (DesiredFile B))
      → Member d ds
      → has (relative_paths ds) d.file.relative_path ≡ true
  relative-Member d [] m = elim m [ ]
  relative-Member d (x ∷ xs) (inl e) = rw e (rw (eq_refl x.file.relative_path) refl)
  relative-Member d (x ∷ xs) (inr m) = ground (arith, relative-Member d xs m)

  pub applied_files-obsolete :
      obsolete plan.full_scope plan.target_scope plan.desired_files
        (sort_manifest_files (applied_files plan))
      ≡ []
  applied_files-obsolete = obsolete-none (sort_manifest_files (applied_files plan)) (
      All-applied_files _ (All-map (λ f e. ground (arith, e)) (kept_files plan) kept_unscoped) (
        wanted_known plan.desired_files plan.desired_files
          (λ d m. relative-Member d plan.desired_files m)))

  fresh-Agree :
      (f : ManifestFile) (ds : List (DesiredFile B))
      → has (relative_paths ds) f.relative_path ≡ false
      → Agree f (map file_of ds)
  fresh-Agree f [] h = tt
  fresh-Agree f (d ∷ ds) h =
      (λ same. let bad : ⊥ = ground (arith, same) in absurd bad, fresh-Agree f ds (ground arith))

  desired-Agree :
      (d : DesiredFile B) (ds : List (DesiredFile B))
      → Distinct (relative_paths ds)
      → Member d ds
      → Agree d.file (map file_of ds)
  desired-Agree d [] h m = tt
  desired-Agree d (x ∷ xs) (fresh, h) (inl e) = (
    λ same. ap file_of (sym e),
    subst (λ (y : DesiredFile B). Agree y.file (map file_of xs)) (sym e)
        (fresh-Agree x.file xs fresh),
  )
  desired-Agree d (x ∷ xs) (fresh, h) (inr m) = (
    λ same.
        let other =
          apart (relative_paths xs) x.file.relative_path d.file.relative_path fresh
            (relative-Member d xs m) in
        cc (same, other),
    desired-Agree d xs h m,
  )

by_relative-append :
    (m : List Entry) (xs ys : List ManifestFile)
    → by_relative m (xs ++ ys) ≡ by_relative (by_relative m xs) ys
unfolding by_relative
by_relative-append m [] ys = refl
by_relative-append m (x ∷ xs) ys = by_relative-append (insert x.relative_path x m) xs ys

-- A desired file is what the recorded manifest has at its relative path.
pub applied_files-Member :
    {B : Type 0} (plan : Plan B) (d : DesiredFile B)
    → Distinct (relative_paths plan.desired_files)
    → Member d plan.desired_files
    → lookup d.file.relative_path (by_relative [] (sort_manifest_files (applied_files plan)))
      ≡ some d.file
unfolding sort_manifest_files applied_files
applied_files-Member plan d distinct m =
    let wanted = map file_of plan.desired_files in
    let all = kept_files plan ++ wanted in
    let found : lookup d.file.relative_path (by_relative [] all) ≡ some d.file =
      rw (by_relative-append [] (kept_files plan) wanted) (
        lookup-by_relative d.file (by_relative [] (kept_files plan)) wanted
          (desired-Agree plan d plan.desired_files distinct m)
          (Member-map file_of d plan.desired_files m)) in
    lookup-by_relative d.file [] (sort_stable earlier_path (values (by_relative [] all)))
      (All-sort_stable earlier_path _ (values (by_relative [] all)) (Agree-values d.file all found))
      (Member-sort_stable earlier_path d.file (values (by_relative [] all))
        (Member-lookup d.file.relative_path d.file (by_relative [] all) found))

module _ {B : Type 0} (hashes : List (String × String)) where
  put_hashes-kept :
      (name : String) (ds : List (DesiredFile B)) (m : List (String × String))
      → lookup name m ≡ some (text_at name hashes)
      → lookup name (put_hashes hashes ds m) ≡ some (text_at name hashes)
  unfolding put_hashes
  put_hashes-kept name [] m h = h
  put_hashes-kept name (d ∷ ds) m h =
      let other = d.file.instance_name in
      let v = text_at other hashes in
      put_hashes-kept name ds (insert other v m) (
        rw (lookup-insert other name v m) (elim (Bool-cases (other == name)) [
          | inl e ↦ rw e (ap (λ (x : String). some (text_at x hashes)) ((eq_iff other name).0 e))
          | inr e ↦ rw e h
        ]))

  -- The hash of a desired file's instance is recorded.
  pub put_hashes-Member :
      (d : DesiredFile B) (ds : List (DesiredFile B)) (m : List (String × String))
      → Member d ds
      → lookup d.file.instance_name (put_hashes hashes ds m)
        ≡ some (text_at d.file.instance_name hashes)
  unfolding put_hashes
  put_hashes-Member d [] m n = elim n [ ]
  put_hashes-Member d (x ∷ xs) m (inl e) = rw e (
      put_hashes-kept x.file.instance_name xs
        (insert x.file.instance_name (text_at x.file.instance_name hashes) m)
        (rw
          (lookup-insert x.file.instance_name x.file.instance_name
            (text_at x.file.instance_name hashes) m)
          (rw (eq_refl x.file.instance_name) refl)))
  put_hashes-Member d (x ∷ xs) m (inr n) =
      put_hashes-Member d xs (insert x.file.instance_name (text_at x.file.instance_name hashes) m) n
