-- ===== src/Domain/Checks/Names.antt =====
-- internal/domain/validation.go: what a safe basename cannot hold.
use Prim.Native.Char.{code}
use sbox_manager.Common.{
  Bool-cases, String, [], and-true, arith, contains, contains_code, false, inl, inr, nat_eq, refl,
  true, ℕ, ◌==◌, ◌≡◌,
}
use sbox_manager.Domain.Checks.{
  all_name_chars, is_alnum, is_name_char, is_safe_name, matches_safe_name, validate_safe_name,
}

name_char-ne : (c k : ℕ) → is_name_char k ≡ false → is_name_char c ≡ true → nat_eq c k ≡ false
name_char-ne c k hk hc = elim (Bool-cases (nat_eq c k)) [
  | inl e ↦ let same : c ≡ k = ground arith in cc
  | inr e ↦ e
]

all_name_chars-lacks :
    (k : ℕ) (s : String)
    → is_name_char k ≡ false
    → all_name_chars s ≡ true
    → contains_code k s ≡ false
unfolding all_name_chars contains_code
all_name_chars-lacks k String.[] hk h = refl
all_name_chars-lacks k (String.◌∷◌ c s) hk h =
    let (hc, hs) = and-true (is_name_char (code c)) (all_name_chars s) h in
    rw (name_char-ne (code c) k hk hc, all_name_chars-lacks k s hk hs)

alnum-name_char : (c : ℕ) → is_alnum c ≡ true → is_name_char c ≡ true
alnum-name_char c h = rw h

safe-all_name_chars : (s : String) → matches_safe_name s ≡ true → all_name_chars s ≡ true
unfolding matches_safe_name
safe-all_name_chars String.[] h = cc
safe-all_name_chars (String.◌∷◌ c s) h =
    let (hc, hs) = and-true (is_alnum (code c)) (all_name_chars s) h in
    rw (alnum-name_char (code c) hc, hs)

is_safe_name-parts :
    (s : String)
    → is_safe_name s ≡ true
    → (matches_safe_name s ≡ true)
      × (s == ".." ≡ false)
      × (s == "." ≡ false)
      × (contains s ".." ≡ false)
unfolding is_safe_name
is_safe_name-parts s h = ground arith

-- A safe basename is no path: it holds no slash, no backslash and no NUL, it is neither "." nor
-- "..", and ".." stands nowhere in it.
pub is_safe_name_lem :
    (s : String)
    → is_safe_name s ≡ true
    → (contains_code b'/' s ≡ false)
      × (contains_code b'\\' s ≡ false)
      × (contains_code 0 s ≡ false)
      × ((s == ".") ≡ false)
      × ((s == "..") ≡ false)
      × (contains s ".." ≡ false)
is_safe_name_lem s h =
    let (m, dots, dot, inside) = is_safe_name-parts s h in
    let chars = safe-all_name_chars s m in
    (
      all_name_chars-lacks b'/' s refl chars,
      all_name_chars-lacks b'\\' s refl chars,
      all_name_chars-lacks 0 s refl chars,
      dot,
      dots,
      inside,
    )

pub validate_safe_name-eq-nil :
    (path value : String) → validate_safe_name path value ≡ [] → is_safe_name value ≡ true
unfolding validate_safe_name
validate_safe_name-eq-nil path value h = ground arith
