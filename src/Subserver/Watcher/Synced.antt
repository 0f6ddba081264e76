-- ===== src/Subserver/Watcher/Synced.antt =====
-- internal/subserver/server.go: equal hashes mean equal inputs, and errors have texts.
use sbox_manager.Common.{
  >>=-eq-success, Bool-cases, List, Option, Option-cases, Outcome, Outcome-cases, String, [],
  and-true, ap, arith, eq_iff, failure, false, inl, inr, is_empty, map, none, not, refl, some,
  success, success_injective, sym, traverse, true, ℤ, ◌&&◌, ◌==◌, ◌>>=◌, ◌∙◌, ◌∷◌, ◌≡◌,
}
use sbox_manager.Domain.Manifests.{validate_input_filename}
use sbox_manager.Domain.Merge.{validate_subscription_inputs}
use sbox_manager.Domain.Models.{SubscriptionInput}
use sbox_manager.Domain.Platform.{Platform}
use sbox_manager.Subscription.Index.{build_index_from_inputs}
use sbox_manager.Subscription.Inputs.{
  Directory, Entry, InputFile, decode_input, input_entries, load_index_from_dir,
  load_inputs_from_dir, read_input, skipped,
}
use sbox_manager.Subserver.Watcher.{hash_entries, same_entries, same_hashes, snapshot_input_dir}

cons_injective : {A : Type 0} {x y : A} {xs ys : List A} → x ∷ xs ≡ y ∷ ys → (x ≡ y) × (xs ≡ ys)
cons_injective h = (cc, cc)

same_entries→eq : (xs ys : List (String × String)) → same_entries xs ys ≡ true → xs ≡ ys
unfolding same_entries
same_entries→eq [] [] h = refl
same_entries→eq [] (y ∷ ys) h = let bad = h in cc
same_entries→eq (x ∷ xs) [] h = let bad = h in cc
same_entries→eq ((k, h) ∷ xs) ((j, g) ∷ ys) same =
    let (pair, later) = and-true (k == j && h == g) (same_entries xs ys) same in
    let (key, value) = and-true (k == j) (h == g) pair in
    rw ((eq_iff k j).0 key, (eq_iff h g).0 value, same_entries→eq xs ys later) refl

pub same_hashes→eq :
    (previous : Option (List (String × String))) (current : List (String × String))
    → same_hashes previous current ≡ true
    → previous ≡ some current
unfolding same_hashes
same_hashes→eq none current h = let bad = h in cc
same_hashes→eq (some xs) current h = ap some (same_entries→eq xs current h)

module _ {B : Type 0} (hash : B → String) where
  -- An input file as an entry of a directory.
  abbrev entry_of : String × B → Entry B
  entry_of (name, b) = record {
    name = name;
    is_dir = false;
    is_regular = some true;
    bytes = some b;
  }

  abbrev hashed : String × B → String × String
  hashed (name, b) = (name, hash b)

  entry-eq :
      (e : Entry B) (b : B)
      → e.is_dir ≡ false
      → e.is_regular ≡ some true
      → e.bytes ≡ some b
      → e ≡ entry_of (e.name, b)
  entry-eq e b d r f = rw (d, r, f) refl

  dirless : (e : Entry B) → skipped e ≡ false → e.is_dir ≡ false
  dirless e h = ground arith

  hash_entries-entries :
      (es : List (Entry B)) (h : List (String × String))
      → hash_entries hash es ≡ success h
      → (fs : List (String × B)) × (h ≡ map hashed fs)
        × (input_entries es ≡ success (map entry_of fs))
  unfolding hash_entries input_entries
  hash_entries-entries [] h ok = ([], sym (success_injective ok), refl)
  hash_entries-entries (e ∷ es) h ok = elim (Bool-cases (skipped e)) [
    | inl s ↦
        let (fs, here, there) = hash_entries-entries es h (rw (s, hash_entries) at ok) in
        (fs, here, rw (s, input_entries) there)
    | inr s ↦ elim (Bool-cases (not (is_empty (validate_input_filename "filename" e.name)))) [
      | inl n ↦ let bad = rw (s, n, hash_entries) at ok in cc
      | inr n ↦ elim (Option-cases e.is_regular) [
        | inl r ↦ let bad = rw (s, n, r, hash_entries) at ok in cc
        | inr (regular, r) ↦ elim (Bool-cases regular) [
          | inr other ↦
              let (fs, here, there) =
                hash_entries-entries es h (rw (s, n, r, other, hash_entries) at ok) in
              (fs, here, rw (s, n, r, other, input_entries) there)
          | inl is_file ↦ elim (Option-cases e.bytes) [
            | inl b ↦ let bad = rw (s, n, r, is_file, b, hash_entries) at ok in cc
            | inr (b, found) ↦
                let (later, made, last) =
                  >>=-eq-success (hash_entries hash es) _
                    (rw (s, n, r, is_file, found, hash_entries) at ok) in
                let (fs, here, there) = hash_entries-entries es later made in
                let whole = entry-eq e b (dirless e s) (r ∙ ap some is_file) found in
                (
                  (e.name, b) ∷ fs,
                  sym (success_injective last) ∙ ap (λ xs. (e.name, hash b) ∷ xs) here,
                  rw (s, n, r, is_file, input_entries)
                      (rw there (ap (λ (x : Entry B). success (x ∷ map entry_of fs)) whole)),
                )
          ]
        ]
      ]
    ]
  ]

  module _ (collision_free : (a b : B) → hash a ≡ hash b → a ≡ b) where
    hashed_injective : (fs gs : List (String × B)) → map hashed fs ≡ map hashed gs → fs ≡ gs
    hashed_injective [] [] h = refl
    hashed_injective [] (g ∷ gs) h = let bad = h in cc
    hashed_injective (f ∷ fs) [] h = let bad = h in cc
    hashed_injective ((n, b) ∷ fs) ((m, c) ∷ gs) h =
        let (first, later) = cons_injective h in
        rw
          (
            ap (λ (x : String × String). x.0) first,
            collision_free b c (ap (λ (x : String × String). x.1) first),
            hashed_injective fs gs later,
          )
          refl

    -- Directories with the same hashes have the same inputs.
    pub snapshot_input_dir-load_inputs_from_dir :
        (decode_strict : String → B → Option SubscriptionInput) (platform : Platform)
        (dir dir' : Directory B) (hashes : List (String × String))
        → snapshot_input_dir hash dir ≡ success hashes
        → snapshot_input_dir hash dir' ≡ success hashes
        → load_inputs_from_dir decode_strict platform dir
          ≡ load_inputs_from_dir decode_strict platform dir'
    unfolding snapshot_input_dir load_inputs_from_dir
    snapshot_input_dir-load_inputs_from_dir decode_strict platform dir dir' hashes h h' =
        elim (Option-cases dir.entries) [
          | inl e ↦ let bad = rw (e, snapshot_input_dir) at h in cc
          | inr (es, e) ↦ elim (Option-cases dir'.entries) [
            | inl e' ↦ let bad = rw (e', snapshot_input_dir) at h' in cc
            | inr (es', e') ↦
                let (fs, here, found) =
                  hash_entries-entries es hashes (rw (e, snapshot_input_dir) at h) in
                let (gs, here', found') =
                  hash_entries-entries es' hashes (rw (e', snapshot_input_dir) at h') in
                let same = hashed_injective fs gs (sym here ∙ here') in
                rw (e, e', load_inputs_from_dir) (rw (found, found', same) refl)
          ]
        ]

-- An outcome whose error, if it has one, has a text.
abbrev pub IsNamed : {A : Type 0} → Outcome A → Type 0
IsNamed (success a) = Unit
IsNamed (failure e) = (e == "") ≡ false

>>=-IsNamed :
    {A B : Type 0} (m : Outcome A) (f : A → Outcome B)
    → IsNamed m
    → ((a : A) → IsNamed (f a))
    → IsNamed (m >>= f)
>>=-IsNamed (success a) f h k = k a
>>=-IsNamed (failure e) f h k = h

traverse-IsNamed :
    {A B : Type 0} (f : A → Outcome B) (xs : List A)
    → ((a : A) → IsNamed (f a))
    → IsNamed (traverse f xs)
traverse-IsNamed f [] k = tt
traverse-IsNamed f (x ∷ xs) k =
    >>=-IsNamed (f x) _ (k x)
      λ y. >>=-IsNamed (traverse f xs) _ (traverse-IsNamed f xs k) (λ ys. tt)

module _ {B : Type 0} where
  pub hash_entries-IsNamed :
      (hash : B → String) (es : List (Entry B)) → IsNamed (hash_entries hash es)
  unfolding hash_entries
  hash_entries-IsNamed hash [] = tt
  hash_entries-IsNamed hash (e ∷ es) = elim (Bool-cases (skipped e)) [
    | inl s ↦ rw s (hash_entries-IsNamed hash es)
    | inr s ↦ elim (Bool-cases (not (is_empty (validate_input_filename "filename" e.name)))) [
      | inl n ↦ rw (s, n) refl
      | inr n ↦ elim (Option-cases e.is_regular) [
        | inl r ↦ rw (s, n, r) refl
        | inr (regular, r) ↦ elim (Bool-cases regular) [
          | inr other ↦ rw (s, n, r, other) (hash_entries-IsNamed hash es)
          | inl is_file ↦ elim (Option-cases e.bytes) [
            | inl b ↦ rw (s, n, r, is_file, b) refl
            | inr (b, found) ↦
                rw (s, n, r, is_file, found)
                  (>>=-IsNamed (hash_entries hash es) _ (hash_entries-IsNamed hash es)
                    (λ later. tt))
          ]
        ]
      ]
    ]
  ]

  input_entries-IsNamed : (es : List (Entry B)) → IsNamed (input_entries es)
  unfolding input_entries
  input_entries-IsNamed [] = tt
  input_entries-IsNamed (e ∷ es) = elim (Bool-cases (skipped e)) [
    | inl s ↦ rw s (input_entries-IsNamed es)
    | inr s ↦ elim (Bool-cases (not (is_empty (validate_input_filename "filename" e.name)))) [
      | inl n ↦ rw (s, n) refl
      | inr n ↦ elim (Option-cases e.is_regular) [
        | inl r ↦ rw (s, n, r) refl
        | inr (regular, r) ↦ elim (Bool-cases regular) [
          | inr other ↦ rw (s, n, r, other) (input_entries-IsNamed es)
          | inl is_file ↦
              rw (s, n, r, is_file)
                (>>=-IsNamed (input_entries es) _ (input_entries-IsNamed es) (λ later. tt))
        ]
      ]
    ]
  ]

  read_input-IsNamed :
      (decode_strict : String → B → Option SubscriptionInput) (platform : Platform) (e : Entry B)
      → IsNamed (read_input decode_strict platform e)
  unfolding read_input
  read_input-IsNamed decode_strict platform e = elim (Option-cases e.bytes) [
    | inl b ↦ rw (b, read_input) refl
    | inr (b, found) ↦ elim (Outcome-cases (decode_input decode_strict platform e.name b)) [
      | inl (input, d) ↦ rw (found, d, read_input) tt
      | inr (m, d) ↦ rw (found, d, read_input) refl
    ]
  ]

  pub load_index_from_dir-IsNamed :
      (decode_strict : String → B → Option SubscriptionInput) (platform : Platform) (now : ℤ)
      (dir : Directory B)
      → IsNamed (load_index_from_dir decode_strict platform now dir)
  unfolding load_index_from_dir load_inputs_from_dir read_input build_index_from_inputs
  load_index_from_dir-IsNamed decode_strict platform now dir =
      >>=-IsNamed (load_inputs_from_dir decode_strict platform dir) _
        (elim (Option-cases dir.entries) [
          | inl e ↦ rw (e, load_inputs_from_dir) refl
          | inr (es, e) ↦
              rw (e, load_inputs_from_dir)
                (>>=-IsNamed (input_entries es) _ (input_entries-IsNamed es)
                  (λ found. traverse-IsNamed _ _ (read_input-IsNamed decode_strict platform)))
        ])
        (λ files. built (map (λ (f : InputFile). f.input) files))
    where
      built :
          (inputs : List SubscriptionInput) → IsNamed (build_index_from_inputs platform now inputs)
      built inputs = elim (Bool-cases (is_empty (validate_subscription_inputs platform inputs))) [
        | inl e ↦ rw (e, build_index_from_inputs) tt
        | inr e ↦ rw (e, build_index_from_inputs) refl
      ]
