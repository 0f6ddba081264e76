-- ===== src/Runtime/Converged/Loading.antt =====
-- internal/runtime: a manifest that is loaded, and files that are found unchanged.
use sbox_manager.Common.{
  >>=-eq-success, All, Bool-cases, List, Option, Outcome, String, [], arith, eq_iff, eq_refl,
  failure, false, inl, inr, is_blank, lookup, map, none, refl, some, success, success_injective,
  traverse, true, ◌==◌, ◌∷◌, ◌≡◌,
}
use sbox_manager.Runtime.Applies.Recorded.{Valid, validate_manifest-Valid}
use sbox_manager.Runtime.Manifests.{load_manifest, validate_manifest, validate_manifest_file}
use sbox_manager.Runtime.Model.{
  Codec, DesiredFile, Disk, ManifestFile, RuntimeManifest, no_change, read_file,
}
use sbox_manager.Runtime.Plans.{action_of_file, files_of, hash_at, text_at}

pub traverse-map :
    {A C : Type 0} (f : A → Outcome C) (g : A → C) (xs : List A)
    → All (λ (x : A). f x ≡ success (g x)) xs
    → traverse f xs ≡ success (map g xs)
traverse-map f g [] h = refl
traverse-map f g (x ∷ xs) (e, h) = rw e (rw (traverse-map f g xs h) refl)

module _ {B : Type 0} (codec : Codec B) where
  pub load_manifest-Valid :
      (disk : Disk B) (path generated : String) (e : Option RuntimeManifest)
      → load_manifest codec disk path generated ≡ success e
      → All (Valid generated) (files_of e)
  unfolding load_manifest
  load_manifest-Valid disk path generated e h =
      let (found, _, rest) = >>=-eq-success (read_file disk path) _ h in by_found found rest
    where
      by_manifest :
          (m : RuntimeManifest) (v : Option String)
          → validate_manifest m generated ≡ v
          → (elim v [ some x ↦ failure "RuntimeManifest %s: %w" | none ↦ success (some m) ])
            ≡ success e
          → All (Valid generated) (files_of e)
      by_manifest m (some x) same k = let bad = k in cc
      by_manifest m none same k =
          rw (← success_injective k) (validate_manifest-Valid m generated same)

      by_decoded :
          (d : Option RuntimeManifest)
          → (elim d [
            | none ↦ failure "RuntimeManifest %s: %w"
            | some m ↦ elim (validate_manifest m generated) [
              | some x ↦ failure "RuntimeManifest %s: %w"
              | none ↦ success (some m)
            ]
          ])
            ≡ success e
          → All (Valid generated) (files_of e)
      by_decoded none k = let bad = k in cc
      by_decoded (some m) k = by_manifest m (validate_manifest m generated) refl k

      by_found :
          (found : Option B)
          → (elim found [
            | none ↦ success none
            | some b ↦ elim (codec.decode_manifest b) [
              | none ↦ failure "RuntimeManifest %s: %w"
              | some m ↦ elim (validate_manifest m generated) [
                | some x ↦ failure "RuntimeManifest %s: %w"
                | none ↦ success (some m)
              ]
            ]
          ])
            ≡ success e
          → All (Valid generated) (files_of e)
      by_found none k = rw (← success_injective k) tt
      by_found (some b) k = by_decoded (codec.decode_manifest b) k

pub Valid-named :
    (generated : String) (f : ManifestFile) → Valid generated f → (f.relative_path == "") ≡ false
unfolding validate_manifest_file
Valid-named generated f h = elim (Bool-cases (f.relative_path == "")) [
  | inr e ↦ e
  | inl e ↦
      let blank : is_blank f.relative_path ≡ true =
        rw ((eq_iff f.relative_path "").0 e) (unfold is_blank in refl) in
      ground (arith, blank)
]

pub text_at-some :
    (k : String) (m : List (String × String)) (v : String) → lookup k m ≡ some v → text_at k m ≡ v
text_at-some k m v e = rw (e, text_at) refl

-- An unchanged file of an unchanged instance is let be.
pub action_of_file_same :
    {B : Type 0} (codec : Codec B) (m : RuntimeManifest) (hash config : String) (d : DesiredFile B)
    (b : B)
    → (codec.hash b == d.file.sha256) ≡ true
    → m.config_sha256 ≡ config
    → hash_at d.file.instance_name m.instance_sha256 ≡ hash
    → action_of_file codec (some m) config hash d d.file b ≡ no_change
unfolding action_of_file
action_of_file_same codec m hash config d b h c i =
    rw (h, eq_refl d.file.sha256, c, eq_refl config, i, eq_refl hash, action_of_file) refl
