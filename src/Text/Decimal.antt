-- ===== src/Text/Decimal.antt =====
-- `int` reads back what an f-string writes.
use you_mi_agent.Prelude.{
  All-append, All-map, ℕ, zero, suc, ◌+◌, ◌-◌, ◌*◌, ◌/◌, ◌%◌, ◌≤◌, ◌<◌, ◌≡◌, ◌≢◌, ◌∙◌, ap, refl,
  Bool, true, false, some, [], ◌∷◌, ◌++◌, arith, ltb, All, Bool-cases, inl, inr,
}
use mathlib.Core.List.{append_assoc, append-nil}
use you_mi_agent.Text.{
  Text, is_space, is_digit, strip_right, strip, digits_from, signed, with_sign, int_of,
  decimal_fuel, decimal,
}

abbrev pub IsDigit : ℕ → Type 0
IsDigit c = (48 ≤ c) × (c ≤ 57)

abbrev pub NotSpace : ℕ → Type 0
NotSpace c = is_space c ≡ false

decimal_fuel-digits : (f n : ℕ) → All IsDigit (decimal_fuel f n)
unfolding decimal_fuel
decimal_fuel-digits zero n = tt
decimal_fuel-digits (suc f) n = elim (Bool-cases (ltb n 10)) [
  | inl one ↦ rw one ((ground arith, ground arith), tt)
  | inr more ↦ rw more (
      All-append IsDigit (decimal_fuel f (n / 10)) _ (decimal_fuel-digits f (n / 10))
        ((omega arith, omega arith), tt))
]

pub decimal-digits : (n : ℕ) → All IsDigit (decimal n)
unfolding decimal
decimal-digits n = decimal_fuel-digits (n + 1) n

digits_from-digit :
    (c n : ℕ) (b : Bool) (s : Text)
    → IsDigit c
    → digits_from n b (c ∷ s) ≡ digits_from (n * 10 + (c - 48)) true s
unfolding digits_from
digits_from-digit c n b s h =
    let e : is_digit c ≡ true = unfold is_digit in ground arith in rw (e, digits_from)

digits_from-decimal :
    (f n : ℕ) (b : Bool) (s : Text)
    → n < f
    → digits_from 0 b (decimal_fuel f n ++ s) ≡ digits_from n true s
unfolding decimal_fuel
digits_from-decimal zero n b s h = elim h [ ]
digits_from-decimal (suc f) n b s h = elim (Bool-cases (ltb n 10)) [
  | inl one ↦ rw one (
      digits_from-digit (48 + n) 0 b s (ground arith)
      ∙ ap (λ k. digits_from k true s) (omega arith))
  | inr more ↦
      rw (more, append_assoc)
        (digits_from-decimal f (n / 10) b ((48 + n % 10) ∷ s) (ground arith)
          ∙ digits_from-digit (48 + n % 10) (n / 10) true s (omega arith, omega arith)
          ∙ ap (λ k. digits_from k true s) (omega arith))
]

strip_right-clean : (s : Text) → All NotSpace s → strip_right s ≡ s
unfolding strip_right
strip_right-clean [] h = refl
strip_right-clean (c ∷ []) h = rw h.0
strip_right-clean (c ∷ d ∷ s) h = rw (strip_right-clean (d ∷ s) h.1)

-- A text without spaces is left as it is.
pub strip-clean : (s : Text) → All NotSpace s → strip s ≡ s
unfolding strip
strip-clean [] h = refl
strip-clean (c ∷ s) h = rw h.0 (strip_right-clean (c ∷ s) h)

pub IsDigit-NotSpace : (c : ℕ) → IsDigit c → NotSpace c
unfolding is_space
IsDigit-NotSpace c h = ground arith

with_sign-digits :
    (s : Text) → s ≢ [] → All IsDigit s → with_sign s ≡ signed false (digits_from 0 false s)
unfolding with_sign
with_sign-digits [] ne h = absurd (ne refl)
with_sign-digits (c ∷ s) ne h = ground arith

digits_from-decimal_all : (n : ℕ) → digits_from 0 false (decimal n) ≡ some n
unfolding decimal
digits_from-decimal_all n =
    rw (append-nil) at (digits_from-decimal (n + 1) n false [] (omega arith))
    ∙ unfold digits_from in refl

decimal-ne-nil : (n : ℕ) → decimal n ≢ []
unfolding digits_from
decimal-ne-nil n e = cc (ap (digits_from 0 false) e, digits_from-decimal_all n)

-- `int(f"{n}")` is `n`.
pub int_of-decimal : (n : ℕ) → int_of (decimal n) ≡ some (false, n)
unfolding int_of
int_of-decimal n =
    rw
      (strip-clean (decimal n)
        (All-map IsDigit NotSpace (decimal n) IsDigit-NotSpace (decimal-digits n)))
      (with_sign-digits (decimal n) (decimal-ne-nil n) (decimal-digits n)
        ∙ ap (signed false) (digits_from-decimal_all n)
        ∙ unfold signed in refl)
