-- ===== src/Runtime/Scoped/Paths.antt =====
-- internal/runtime/plan.go: instances with different names have different generated files.
use Prim.Native.String.append
use Prim.Native.String.{count}
use text.Mathlib.TextLemmas.{append_assoc, append_cancel_right, length-append}
use sbox_manager.Common.{
  Bool, Bool-cases, String, ap, arith, contains_code, eq_iff, false, if◌then◌else◌, inl, inr, refl,
  sym, true, ℕ, ◌<>◌, ◌<◌, ◌==◌, ◌∙◌, ◌≡◌,
}
use sbox_manager.Runtime.Plans.{generated_path}
use sbox_manager.Std.FilePaths.{clean, join}
use sbox_manager.Std.Places.{IsPlain, clean-injective}

contains_code-append :
    (k : ℕ) (s t : String)
    → contains_code k s ≡ false
    → contains_code k t ≡ false
    → contains_code k (s <> t) ≡ false
unfolding contains_code
contains_code-append k String.[] t h h' = rw (append.nil t) h'
contains_code-append k (String.◌∷◌ c s) t h h' =
    rw (append.cons c s t) (ground (arith, h, contains_code-append k s t _ h'))

-- A file name with a long suffix is none of the special elements.
longer_name : (name short : String) → count short < 5 → ((name <> ".json") == short) ≡ false
longer_name name short bound = elim (Bool-cases ((name <> ".json") == short)) [
  | inr e ↦ e
  | inl e ↦
      let same = ap count ((eq_iff (name <> ".json") short).0 e) in
      absurd (omega (arith, same, bound, length-append name ".json"))
]

named-IsPlain : (name : String) → contains_code b'/' name ≡ false → IsPlain (name <> ".json")
unfolding contains_code
named-IsPlain name h = (
  contains_code-append b'/' name ".json" h refl,
  longer_name name "" (omega arith),
  longer_name name "." (omega arith),
  longer_name name ".." (omega arith),
)

-- The directory of the generated files with the last element apart.
above_name : String → String
above_name generated = if generated == "" then "sing-box" else generated <> "/" <> "sing-box"

relative_name :
    (name : String) → ("sing-box/" <> name <> ".json") ≡ "sing-box" <> ("/" <> (name <> ".json"))
relative_name name =
    append_assoc "sing-box/" name ".json" ∙ append_assoc "sing-box" "/" (name <> ".json")

join-clean :
    (a b : String) → (b == "") ≡ false → join a b ≡ clean (if a == "" then b else a <> "/" <> b)
unfolding join
join-clean a b h = elim (Bool-cases (a == "")) [
  | inl e ↦ rw (e, h, join) refl
  | inr e ↦ rw (e, join) refl
]

generated_path-clean :
    (generated name : String)
    → generated_path generated name ≡ clean (above_name generated <> ("/" <> (name <> ".json")))
unfolding above_name
generated_path-clean generated name =
    join-clean generated ("sing-box/" <> name <> ".json")
      (longer_name ("sing-box/" <> name) "" (omega arith))
    ∙ ap clean (placed (generated == ""))
  where
    placed :
        (empty : Bool)
        → (if empty
            then "sing-box/" <> name <> ".json"
            else generated <> "/" <> ("sing-box/" <> name <> ".json"))
          ≡ (if empty then "sing-box" else generated <> "/" <> "sing-box")
            <> ("/" <> (name <> ".json"))
    placed true = relative_name name
    placed false =
        ap (λ (r : String). generated <> "/" <> r) (relative_name name)
        ∙ sym (append_assoc (generated <> "/") "sing-box" ("/" <> (name <> ".json")))

pub generated_path-injective :
    (generated a b : String)
    → contains_code b'/' a ≡ false
    → contains_code b'/' b ≡ false
    → generated_path generated a ≡ generated_path generated b
    → a ≡ b
generated_path-injective generated a b ha hb h = append_cancel_right a b ".json" (
    clean-injective (above_name generated) (a <> ".json") (b <> ".json") (named-IsPlain a ha)
      (named-IsPlain b hb)
      (sym (generated_path-clean generated a) ∙ h ∙ generated_path-clean generated b))
