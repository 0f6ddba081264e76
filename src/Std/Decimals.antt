-- ===== src/Std/Decimals.antt =====
-- The decimal text of a number is read as the number.
use Prim.Native.Char.{code}
use Prim.Native.String.append
use sbox_manager.Common.{
  Bool-cases, String, ap, arith, digit, inl, inr, itoa, itoa_from, ltb, refl, some, suc, sym, zero,
  ℕ, ◌%◌, ◌*◌, ◌+◌, ◌-◌, ◌/◌, ◌<>◌, ◌<◌, ◌∙◌, ◌≡◌,
}
use sbox_manager.Std.Numbers.{decimal, is_digit}

decimal-digit : (d a : ℕ) → d < 10 → decimal a (digit d) ≡ some (a * 10 + d)
unfolding decimal digit
decimal-digit zero a h = refl
decimal-digit (suc zero) a h = refl
decimal-digit (suc (suc zero)) a h = refl
decimal-digit (suc (suc (suc zero))) a h = refl
decimal-digit (suc (suc (suc (suc zero)))) a h = refl
decimal-digit (suc (suc (suc (suc (suc zero))))) a h = refl
decimal-digit (suc (suc (suc (suc (suc (suc zero)))))) a h = refl
decimal-digit (suc (suc (suc (suc (suc (suc (suc zero))))))) a h = refl
decimal-digit (suc (suc (suc (suc (suc (suc (suc (suc zero)))))))) a h = refl
decimal-digit (suc (suc (suc (suc (suc (suc (suc (suc (suc zero))))))))) a h = refl
decimal-digit (suc (suc (suc (suc (suc (suc (suc (suc (suc (suc d)))))))))) a h =
    absurd (omega arith)

decimal-append : (s t : String) (a b : ℕ) → decimal a s ≡ some b → decimal a (s <> t) ≡ decimal b t
unfolding decimal
decimal-append String.[] t a b h = let same : a ≡ b = cc in rw (append.nil t) (rw same refl)
decimal-append (String.◌∷◌ c s) t a b h = elim (Bool-cases (is_digit (code c))) [
  | inr e ↦ let bad = rw e at h in cc
  | inl e ↦
      rw (append.cons c s t) (rw e (decimal-append s t (a * 10 + (code c - b'0')) b (rw e at h)))
]

decimal-itoa_from : (fuel n : ℕ) → n < fuel → decimal 0 (itoa_from fuel n) ≡ some n
unfolding itoa_from
decimal-itoa_from zero n h = absurd (omega arith)
decimal-itoa_from (suc fuel) n h = elim (Bool-cases (ltb n 10)) [
  | inl e ↦ rw e (decimal-digit n 0 (ground arith) ∙ ap some (omega arith))
  | inr e ↦ rw e (
      decimal-append (itoa_from fuel (n / 10)) (digit (n % 10)) 0 (n / 10)
        (decimal-itoa_from fuel (n / 10) (ground arith))
      ∙ decimal-digit (n % 10) (n / 10) (omega arith)
      ∙ ap some (omega arith))
]

pub decimal-itoa : (n : ℕ) → decimal 0 (itoa n) ≡ some n
unfolding itoa
decimal-itoa n = decimal-itoa_from (suc n) n (omega arith)

-- Different numbers have different texts.
pub itoa_injective : (m n : ℕ) → itoa m ≡ itoa n → m ≡ n
itoa_injective m n h =
    let same = sym (decimal-itoa m) ∙ ap (decimal 0) h ∙ decimal-itoa n in cc (same)
