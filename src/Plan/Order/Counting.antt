-- ===== src/Plan/Order/Counting.antt =====
-- How often a name stands in a list.
use you_mi_agent.Prelude.{
  ℕ, ◌+◌, ◌≤◌, String, ◌≡◌, refl, true, ◌||◌, List, [], ◌∷◌, ◌++◌, arith, str_eq, leb, eq_iff,
  eq_refl, length, count, All,
}
use you_mi_agent.Plan.{is_in}

abbrev pub occurrences : String → List String → ℕ
occurrences x xs = count (λ y. str_eq y x) xs

pub occurrences-append :
    (x : String) (xs ys : List String)
    → occurrences x (xs ++ ys) ≡ occurrences x xs + occurrences x ys
occurrences-append x [] ys = omega arith
occurrences-append x (y ∷ xs) ys = ground (arith, occurrences-append x xs ys)

pub is_in-occurrences : (x : String) (xs : List String) → is_in x xs ≡ (leb 1 (occurrences x xs))
is_in-occurrences x [] = refl
is_in-occurrences x (y ∷ xs) = ground (arith, is_in-occurrences x xs)

pub is_in-append :
    (x : String) (xs ys : List String) → is_in x (xs ++ ys) ≡ (is_in x xs || is_in x ys)
is_in-append x [] ys = refl
is_in-append x (y ∷ xs) ys = ground (arith, is_in-append x xs ys)

-- How many of the names are among `done`.
abbrev pub among : List String → List String → ℕ
among done xs = count (λ y. is_in y done) xs

pub among-le : (done xs : List String) → among done xs ≤ length xs
among-le done [] = omega arith
among-le done (x ∷ xs) = ground (arith, among-le done xs)

-- One more name that was not there counts its occurrences.
pub among-more :
    (done : List String) (sid : String) (xs : List String)
    → occurrences sid done ≡ 0
    → among (done ++ (sid ∷ [])) xs ≡ among done xs + occurrences sid xs
among-more done sid [] h = omega arith
among-more done sid (x ∷ xs) h = ground (
  arith,
  among-more done sid xs h,
  is_in-append x done (sid ∷ []),
  is_in-occurrences x done,
  eq_iff x sid,
  eq_iff sid x,
)

pub All-among :
    (done xs : List String) → among done xs ≡ length xs → All (λ y. is_in y done ≡ true) xs
All-among done [] h = tt
All-among done (x ∷ xs) h =
    (ground (arith, among-le done xs), All-among done xs (ground (arith, among-le done xs)))

pub All-occurring :
    (P : String → Type 0) (xs : List String)
    → ((x : String) → 1 ≤ occurrences x xs → P x)
    → All P xs
All-occurring P [] h = tt
All-occurring P (x ∷ xs) h =
    (h x (ground (arith, eq_refl x)), All-occurring P xs (λ y k. h y (ground arith)))
