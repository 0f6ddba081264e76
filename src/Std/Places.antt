-- ===== src/Std/Places.antt =====
-- Package `path/filepath`: files in one directory with different names have different paths.
use Prim.Native.Char.{Char, code}
use Prim.Native.String.append
use mathlib.Core.List.{reverse, reverse-cons}
use Prim.Native.String.{count}
use text.Mathlib.TextLemmas.{append_cancel_left, length-append}
use sbox_manager.Common.{
  Bool, Bool-cases, List, String, [], ap, arith, contains_code, eq_iff, false, if◌then◌else◌, inl,
  inr, nat_eq, refl, sym, true, ◌++◌, ◌<>◌, ◌==◌, ◌∙◌, ◌∷◌, ◌≡◌,
}
use sbox_manager.Std.Cut.{join_first, split}
use sbox_manager.Std.FilePaths.{clean, elements, is_abs, join_slash, resolve, resolve_all}

split-slash : (t : String) → split b'/' ("/" <> t) ≡ "" ∷ split b'/' t
unfolding split join_first
split-slash t = rw (append.cons "/" String.[] t) (rw (append.nil t) refl)

join_first-append :
    (b : Bool) (c : Char) (p : String) (ps qs : List String)
    → join_first b c ((p ∷ ps) ++ qs) ≡ join_first b c (p ∷ ps) ++ qs
unfolding join_first
join_first-append true c p ps qs = refl
join_first-append false c p ps qs = refl

-- A split has a first part.
split_parts : (s : String) → (p : String) × (ps : List String) × (split b'/' s ≡ p ∷ ps)
unfolding split join_first
split_parts String.[] = ("", [], refl)
split_parts (String.◌∷◌ c s) =
    let (p, ps, e) = split_parts s in
    elim (Bool-cases (nat_eq (code c) b'/')) [
      | inl f ↦ ("", split b'/' s, rw f refl)
      | inr f ↦ (String.◌∷◌ c p, ps, rw (f, e) refl)
    ]

split-append : (s t : String) → split b'/' (s <> ("/" <> t)) ≡ split b'/' s ++ split b'/' t
unfolding split
split-append String.[] t = rw (append.nil ("/" <> t)) (split-slash t)
split-append (String.◌∷◌ c s) t =
    let (p, ps, e) = split_parts s in
    rw (append.cons c s ("/" <> t)) (
      rw (split-append s t) (rw e (join_first-append (nat_eq (code c) b'/') c p ps (split b'/' t))))

split-plain : (t : String) → contains_code b'/' t ≡ false → split b'/' t ≡ t ∷ []
unfolding split contains_code join_first
split-plain String.[] h = refl
split-plain (String.◌∷◌ c s) h = elim (Bool-cases (nat_eq (code c) b'/')) [
  | inl e ↦ let bad = rw e at h in cc
  | inr e ↦ rw (e, split-plain s (rw e at h)) refl
]

-- A name of one element.
abbrev pub IsPlain : String → Type 0
IsPlain n =
    (contains_code b'/' n ≡ false)
    × ((n == "") ≡ false)
    × ((n == ".") ≡ false)
    × ((n == "..") ≡ false)

resolve_all-append :
    (rooted : Bool) (stack xs : List String) (n : String)
    → IsPlain n
    → resolve_all rooted stack (xs ++ n ∷ []) ≡ n ∷ resolve_all rooted stack xs
unfolding resolve_all resolve
resolve_all-append rooted [] [] n (_, e, f, g) = rw (e, f, g) refl
resolve_all-append rooted (top ∷ stack) [] n (_, e, f, g) = rw (e, f, g) refl
resolve_all-append rooted stack (x ∷ xs) n h =
    resolve_all-append rooted (resolve rooted stack x) xs n h

is_abs-append : (s n : String) → is_abs (s <> ("/" <> n)) ≡ is_abs (s <> "/")
unfolding is_abs
is_abs-append String.[] n = rw (append.nil ("/" <> n), append.cons "/" String.[] n) refl
is_abs-append (String.◌∷◌ c s) n = rw (append.cons c s ("/" <> n), append.cons c s "/") refl

-- The elements above the last one.
abbrev above : String → List String
above s = reverse (resolve_all (is_abs (s <> "/")) [] (split b'/' s))

elements-plain : (s n : String) → IsPlain n → elements (s <> ("/" <> n)) ≡ above s ++ n ∷ []
unfolding elements
elements-plain s n h =
    rw (is_abs-append s n, split-append s n, split-plain n (h.0))
      (rw (resolve_all-append (is_abs (s <> "/")) [] (split b'/' s) n h)
        (reverse-cons n (resolve_all (is_abs (s <> "/")) [] (split b'/' s))))

count-pos : (x y : String) → ((x <> "/" <> y) == "") ≡ false
count-pos x y = elim (Bool-cases ((x <> "/" <> y) == "")) [
  | inr e ↦ e
  | inl e ↦
      let same = ap count ((eq_iff (x <> "/" <> y) "").0 e) in
      absurd (omega (arith, same, length-append (x <> "/") y, length-append x "/"))
]

join_slash-injective :
    (xs : List String) (n m : String)
    → join_slash (xs ++ n ∷ []) ≡ join_slash (xs ++ m ∷ [])
    → n ≡ m
unfolding join_slash
join_slash-injective [] n m h = h
join_slash-injective (x ∷ []) n m h = append_cancel_left (x <> "/") n m h
join_slash-injective (x ∷ y ∷ ys) n m h = join_slash-injective (y ∷ ys) n m (
    append_cancel_left (x <> "/") (join_slash ((y ∷ ys) ++ n ∷ []))
      (join_slash ((y ∷ ys) ++ m ∷ [])) h)

join_slash-some :
    (xs : List String) (n : String) → (n == "") ≡ false → (join_slash (xs ++ n ∷ []) == "") ≡ false
unfolding join_slash
join_slash-some [] n h = h
join_slash-some (x ∷ []) n h = count-pos x n
join_slash-some (x ∷ y ∷ ys) n h = count-pos x (join_slash ((y ∷ ys) ++ n ∷ []))

clean-plain :
    (s n : String)
    → IsPlain n
    → clean (s <> ("/" <> n)) ≡ (
        if is_abs (s <> "/")
        then "/" <> join_slash (above s ++ n ∷ [])
        else join_slash (above s ++ n ∷ []))
unfolding clean
clean-plain s n h =
    rw (elements-plain s n h, is_abs-append s n) (rw (join_slash-some (above s) n (h.1)) refl)

rooted_same :
    (rooted : Bool) (x y : String)
    → (if rooted then "/" <> x else x) ≡ (if rooted then "/" <> y else y)
    → x ≡ y
rooted_same true x y h = append_cancel_left "/" x y h
rooted_same false x y h = h

pub clean-injective :
    (s n m : String)
    → IsPlain n
    → IsPlain m
    → clean (s <> ("/" <> n)) ≡ clean (s <> ("/" <> m))
    → n ≡ m
clean-injective s n m hn hm h = join_slash-injective (above s) n m (
    rooted_same (is_abs (s <> "/")) (join_slash (above s ++ n ∷ []))
      (join_slash (above s ++ m ∷ [])) (sym (clean-plain s n hn) ∙ h ∙ clean-plain s m hm))
