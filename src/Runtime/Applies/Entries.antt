-- ===== src/Runtime/Applies/Entries.antt =====
-- internal/runtime: files by their relative path, the maps of plan.go and apply.go.
use sbox_manager.Common.{
  ==_comm, All, Bool-cases, Distinct, List, Member, String, [], ap, arith, eq_iff, eq_refl, has,
  inl, inr, insert, lookup, lookup-insert, map, refl, some, true, ◌==◌, ◌||◌, ◌∷◌, ◌≡◌,
}
use sbox_manager.Runtime.Applies.Done.{apart}
use sbox_manager.Runtime.Model.{ManifestFile}
use sbox_manager.Runtime.Plans.{by_relative}

abbrev pub Entry : Type 0
Entry = String × ManifestFile

abbrev pub values : List Entry → List ManifestFile
values = map (λ (e : Entry). e.1)

abbrev keys : List Entry → List String
keys = map (λ (e : Entry). e.0)

abbrev Keyed : List Entry → Type 0
Keyed = All (λ (e : Entry). e.1.relative_path ≡ e.0)

-- What holds of all values and of the new value holds of all values.
All-insert :
    (P : ManifestFile → Type 0) (k : String) (f : ManifestFile) (m : List Entry)
    → P f
    → All P (values m)
    → All P (values (insert k f m))
All-insert P k f [] h hs = (h, tt)
All-insert P k f ((j, g) ∷ m) h (hg, hs) = elim (Bool-cases (j == k)) [
  | inl e ↦ rw e (h, hs)
  | inr e ↦ rw e (hg, All-insert P k f m h hs)
]

pub All-by_relative :
    (P : ManifestFile → Type 0) (m : List Entry) (fs : List ManifestFile)
    → All P fs
    → All P (values m)
    → All P (values (by_relative m fs))
unfolding by_relative
All-by_relative P m [] h hs = hs
All-by_relative P m (f ∷ fs) (hf, h) hs =
    All-by_relative P (insert f.relative_path f m) fs h (All-insert P f.relative_path f m hf hs)

Keyed-insert : (f : ManifestFile) (m : List Entry) → Keyed m → Keyed (insert f.relative_path f m)
Keyed-insert f [] h = (refl, tt)
Keyed-insert f ((j, g) ∷ m) (hg, hs) = elim (Bool-cases (j == f.relative_path)) [
  | inl e ↦ rw e (refl, hs)
  | inr e ↦ rw e (hg, Keyed-insert f m hs)
]

has-keys-insert :
    (k j : String) (f : ManifestFile) (m : List Entry)
    → has (keys (insert k f m)) j ≡ (k == j || has (keys m) j)
has-keys-insert k j f [] = refl
has-keys-insert k j f ((i, g) ∷ m) =
    ground (arith, eq_iff k j, eq_iff i k, eq_iff i j, has-keys-insert k j f m)

Distinct-insert :
    (k : String) (f : ManifestFile) (m : List Entry)
    → Distinct (keys m)
    → Distinct (keys (insert k f m))
Distinct-insert k f [] h = (refl, tt)
Distinct-insert k f ((j, g) ∷ m) (fresh, h) = elim (Bool-cases (j == k)) [
  | inl e ↦ rw e (rw ((eq_iff j k).0 e) at fresh, h)
  | inr e ↦
      rw e (rw (has-keys-insert k j f m) (rw (==_comm k j) (rw e fresh)), Distinct-insert k f m h)
]

-- Each value stands at its relative path, and each path once.
by_relative-keys :
    (m : List Entry) (fs : List ManifestFile)
    → Keyed m
    → Distinct (keys m)
    → Keyed (by_relative m fs) × Distinct (keys (by_relative m fs))
unfolding by_relative
by_relative-keys m [] h d = (h, d)
by_relative-keys m (f ∷ fs) h d =
    by_relative-keys (insert f.relative_path f m) fs (Keyed-insert f m h)
      (Distinct-insert f.relative_path f m d)

Member-keys :
    (g : ManifestFile) (m : List Entry)
    → Keyed m
    → Member g (values m)
    → has (keys m) g.relative_path ≡ true
Member-keys g [] h m = elim m [ ]
Member-keys g ((j, f) ∷ m) (hf, h) (inl e) = rw (e, hf, eq_refl j) refl
Member-keys g ((j, f) ∷ m) (hf, h) (inr n) = ground (arith, Member-keys g m h n)

lookup-Member :
    (g : ManifestFile) (m : List Entry)
    → Keyed m
    → Distinct (keys m)
    → Member g (values m)
    → lookup g.relative_path m ≡ some g
lookup-Member g [] h d n = elim n [ ]
lookup-Member g ((j, f) ∷ m) (hf, h) (fresh, d) (inl e) = rw e (rw (hf, eq_refl j) refl)
lookup-Member g ((j, f) ∷ m) (hf, h) (fresh, d) (inr n) =
    let other = apart (keys m) j g.relative_path fresh (Member-keys g m h n) in
    rw other (lookup-Member g m h d n)

pub Member-lookup :
    (k : String) (f : ManifestFile) (m : List Entry) → lookup k m ≡ some f → Member f (values m)
Member-lookup k f [] h = let bad = h in cc
Member-lookup k f ((j, g) ∷ m) h = elim (Bool-cases (j == k)) [
  | inl e ↦ inl (cc (rw e at h))
  | inr e ↦ inr (Member-lookup k f m (rw e at h))
]

-- The files that share the relative path of a file are that file.
abbrev pub Agree : ManifestFile → List ManifestFile → Type 0
Agree f = All (λ (g : ManifestFile). (g.relative_path == f.relative_path) ≡ true → g ≡ f)

lookup-by_relative_kept :
    (f : ManifestFile) (m : List Entry) (fs : List ManifestFile)
    → Agree f fs
    → lookup f.relative_path m ≡ some f
    → lookup f.relative_path (by_relative m fs) ≡ some f
unfolding by_relative
lookup-by_relative_kept f m [] a h = h
lookup-by_relative_kept f m (g ∷ fs) (ag, a) h =
    lookup-by_relative_kept f (insert g.relative_path g m) fs a (
      rw (lookup-insert g.relative_path f.relative_path g m)
        (elim (Bool-cases (g.relative_path == f.relative_path)) [
          | inl e ↦ rw e (ap some (ag e))
          | inr e ↦ rw e h
        ]))

pub lookup-by_relative :
    (f : ManifestFile) (m : List Entry) (fs : List ManifestFile)
    → Agree f fs
    → Member f fs
    → lookup f.relative_path (by_relative m fs) ≡ some f
unfolding by_relative
lookup-by_relative f m [] a n = elim n [ ]
lookup-by_relative f m (g ∷ fs) (ag, a) (inl e) =
    lookup-by_relative_kept f (insert g.relative_path g m) fs a (
      rw (lookup-insert g.relative_path f.relative_path g m)
        (rw (← e) (rw (eq_refl f.relative_path) refl)))
lookup-by_relative f m (g ∷ fs) (ag, a) (inr n) =
    lookup-by_relative f (insert g.relative_path g m) fs a n

-- What is at the path of a file is the only value with that path.
pub Agree-values :
    (f : ManifestFile) (fs : List ManifestFile)
    → lookup f.relative_path (by_relative [] fs) ≡ some f
    → Agree f (values (by_relative [] fs))
Agree-values f fs h =
    let (keyed, distinct) = by_relative-keys [] fs tt tt in
    from_members (values (by_relative [] fs)) λ g n e.
      let here = lookup-Member g (by_relative [] fs) keyed distinct n in
      let same = ap (λ (k : String). lookup k (by_relative [] fs)) ((eq_iff _ _).0 e) in
      cc (here, same, h)
  where
    from_members :
        (gs : List ManifestFile)
        → ((g : ManifestFile) → Member g gs → (g.relative_path == f.relative_path) ≡ true → g ≡ f)
        → Agree f gs
    from_members [] h = tt
    from_members (g ∷ gs) h = (h g (inl refl), from_members gs (λ x n. h x (inr n)))
