-- ===== src/Text.antt =====
-- What the program uses of Python's `str`, as a list of code points: `strip`, `split`, `lower`, `in`,
-- `int(s)` and the decimal of an f-string. Texts are read as ASCII (the other Unicode spaces and digits, which
-- `strip` and `int` accept too, are left out), and so is the interpreter's limit on the number of
-- digits that it converts (4300 by default).
pub mod Decimal
pub mod Split
use Prim.Native.Char.{code}
use you_mi_agent.Prelude.{
  ℕ, zero, suc, ◌+◌, ◌-◌, ◌*◌, ◌/◌, ◌%◌, ◌≤◌, ◌≡◌, String, Bool, true, false, ◌&&◌, ◌||◌, Option,
  none, some, List, [], ◌∷◌, ◌++◌, leb, ltb, ◌==◌, if◌then◌else◌,
}

abbrev pub Text : Type 0
Text = List ℕ

abbrev pub codes : String → Text
codes String.[] = []
codes (String.◌∷◌ c s) = code c ∷ codes s

unfoldable pub is_space : ℕ → Bool
is_space c = c == 32 || leb 9 c && leb c 13 || leb 28 c && leb c 31

unfoldable pub is_digit : ℕ → Bool
is_digit c = leb 48 c && leb c 57

-- `s == t`
unfoldable pub text_eq : Text → Text → Bool
text_eq [] [] = true
text_eq (c ∷ s) (d ∷ t) = c == d && text_eq s t
text_eq _ _ = false

-- `s.lower()` on ASCII
unfoldable pub lower : Text → Text
lower [] = []
lower (c ∷ t) = (if leb 65 c && leb c 90 then c + 32 else c) ∷ lower t

unfoldable pub is_prefix : Text → Text → Bool
is_prefix [] t = true
is_prefix (c ∷ s) [] = false
is_prefix (c ∷ s) (d ∷ t) = c == d && is_prefix s t

-- `s in t`
unfoldable pub is_within : Text → Text → Bool
unfolding is_prefix
is_within s [] = is_prefix s []
is_within s (c ∷ t) = is_prefix s (c ∷ t) || is_within s t

strip_left : Text → Text
unfolding is_space
strip_left [] = []
strip_left (c ∷ s) = if is_space c then strip_left s else c ∷ s

before_spaces : ℕ → Text → Text
unfolding is_space
before_spaces c [] = if is_space c then [] else c ∷ []
before_spaces c (d ∷ s) = c ∷ d ∷ s

strip_right : Text → Text
unfolding before_spaces
strip_right [] = []
strip_right (c ∷ s) = before_spaces c (strip_right s)

-- `s.strip()`
unfoldable pub strip : Text → Text
unfolding strip_left strip_right
strip s = strip_right (strip_left s)

onto_first : ℕ → List Text → List Text
onto_first c [] = (c ∷ []) ∷ []
onto_first c (s ∷ parts) = (c ∷ s) ∷ parts

-- `s.split(sep)` for a separator of one character
unfoldable pub split : ℕ → Text → List Text
unfolding onto_first
split sep [] = [] ∷ []
split sep (c ∷ s) = let parts = split sep s in if c == sep then [] ∷ parts else onto_first c parts

-- The digits of an integer literal, from a value read so far; a `_` may stand between two digits.
-- The Boolean says that the last character was a digit.
digits_from : ℕ → Bool → Text → Option ℕ
unfolding is_digit
digits_from n after_digit [] = if after_digit then some n else none
digits_from n after_digit (c ∷ s) = elim (is_digit c) [
  | true ↦ digits_from (n * 10 + (c - 48)) true s
  | false ↦ elim (c == b'_' && after_digit) [ true ↦ digits_from n false s | false ↦ none ]
]

-- An integer: its absolute value, and whether it is below zero.
abbrev pub Signed : Type 0
Signed = Bool × ℕ

signed : Bool → Option ℕ → Option Signed
signed minus none = none
signed minus (some n) = some (minus && ltb 0 n, n)

with_sign : Text → Option Signed
unfolding signed digits_from
with_sign [] = none
with_sign (c ∷ s) =
    if c == b'-'
    then signed true (digits_from 0 false s)
    else if c == b'+'
    then signed false (digits_from 0 false s)
    else signed false (digits_from 0 false (c ∷ s))

-- `int(s)`: `none` for `ValueError`
unfoldable pub int_of : Text → Option Signed
unfolding strip with_sign
int_of s = with_sign (strip s)

-- `f"{n}"`, with fuel for the digits
decimal_fuel : ℕ → ℕ → Text
decimal_fuel zero n = []
decimal_fuel (suc f) n =
    let rest = decimal_fuel f (n / 10) in
    if ltb n 10 then (48 + n) ∷ [] else rest ++ (48 + n % 10) ∷ []

unfoldable pub decimal : ℕ → Text
unfolding decimal_fuel
decimal n = decimal_fuel (n + 1) n
