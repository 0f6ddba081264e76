-- ===== src/Std/Trims.antt =====
-- `strings.TrimSpace` twice is `strings.TrimSpace`.
use Prim.Native.Char.{Char, code}
use sbox_manager.Common.{
  Bool-cases, String, false, inl, inr, is_space, refl, trim_left, trim_right, trim_space, true,
  ◌&&◌, ◌==◌, ◌≡◌,
}

trim_right_idem : (s : String) → trim_right (trim_right s) ≡ trim_right s
unfolding trim_right
trim_right_idem String.[] = refl
trim_right_idem (String.◌∷◌ c s) = elim (Bool-cases (is_space (code c) && trim_right s == "")) [
  | inl e ↦ rw e refl
  | inr e ↦ rw e (rw (trim_right_idem s) (rw e refl))
]

trim_left-kept :
    (c : Char) (s : String)
    → is_space (code c) ≡ false
    → trim_left (String.◌∷◌ c s) ≡ String.◌∷◌ c s
unfolding trim_left
trim_left-kept c s e = rw e refl

trim_right-kept :
    (c : Char) (s : String)
    → is_space (code c) ≡ false
    → trim_right (String.◌∷◌ c s) ≡ String.◌∷◌ c (trim_right s)
unfolding trim_right
trim_right-kept c s e = rw e refl

trim_left-space :
    (c : Char) (s : String) → is_space (code c) ≡ true → trim_left (String.◌∷◌ c s) ≡ trim_left s
unfolding trim_left
trim_left-space c s e = rw e refl

trim_left-trim_right :
    (s : String) → trim_left (trim_right (trim_left s)) ≡ trim_right (trim_left s)
trim_left-trim_right String.[] = unfold trim_left trim_right in refl
trim_left-trim_right (String.◌∷◌ c s) = elim (Bool-cases (is_space (code c))) [
  | inl e ↦ rw (trim_left-space c s e) (trim_left-trim_right s)
  | inr e ↦
      rw (trim_left-kept c s e) (rw (trim_right-kept c s e) (trim_left-kept c (trim_right s) e))
]

pub trim_space_idem : (s : String) → trim_space (trim_space s) ≡ trim_space s
unfolding trim_space
trim_space_idem s = rw (trim_left-trim_right s) (trim_right_idem (trim_left s))
