-- ===== src/Memory/Windows.antt =====
-- A list that is cut after every message is the cut of the list of all messages.
use you_mi_agent.Prelude.{
  ℕ, zero, suc, ◌-◌, ◌≤◌, ◌≡◌, refl, sym, ◌∙◌, ap, List, [], ◌∷◌, ◌++◌, arith, length, leb,
  Bool-cases, inl, inr, length-append,
}
use you_mi_agent.Memory.{Message, drop, slice_last, append_bounded}

drop-append : (n : ℕ) (xs ys : List Message) → n ≤ length xs → drop n (xs ++ ys) ≡ drop n xs ++ ys
unfolding drop
drop-append zero xs ys h = refl
drop-append (suc n) [] ys h = absurd (omega (arith, h))
drop-append (suc n) (x ∷ xs) ys h = drop-append n xs ys (omega (arith, h))

drop-suc : (n : ℕ) (xs : List Message) → drop 1 (drop n xs) ≡ drop (suc n) xs
unfolding drop
drop-suc zero xs = refl
drop-suc (suc n) [] = refl
drop-suc (suc n) (x ∷ xs) = drop-suc n xs

length-drop : (n : ℕ) (xs : List Message) → length (drop n xs) ≡ length xs - n
unfolding drop
length-drop zero xs = omega arith
length-drop (suc n) [] = omega arith
length-drop (suc n) (x ∷ xs) = omega (arith, length-drop n xs)

-- At a limit that is reached, one more message takes the first one's place.
slide :
    (limit : ℕ) (m : Message) (ms : List Message)
    → 1 ≤ limit
    → limit ≤ length ms
    → drop 1 (drop (length ms - limit) ms ++ (m ∷ []))
      ≡ drop (length (ms ++ (m ∷ [])) - limit) (ms ++ (m ∷ []))
unfolding drop
slide limit m ms positive reached =
    let d = length ms - limit in
    let next : suc d ≡ length (ms ++ (m ∷ [])) - limit =
      omega (arith, positive, reached, length-append ms (m ∷ [])) in
    ap (drop 1) (sym (drop-append d ms (m ∷ []) (omega arith)))
    ∙ drop-suc d (ms ++ (m ∷ []))
    ∙ ap (λ n. drop n (ms ++ (m ∷ []))) next

slice_last-suc : (l : ℕ) (ms : List Message) → slice_last (suc l) ms ≡ drop (length ms - suc l) ms
unfolding slice_last
slice_last-suc l ms = ground arith

append_over :
    (limit : ℕ) (m : Message) (ms : List Message)
    → suc limit ≤ length (ms ++ (m ∷ []))
    → append_bounded limit m ms ≡ slice_last limit (ms ++ (m ∷ []))
unfolding append_bounded
append_over limit m ms h = ground (arith, h)

append_within :
    (limit : ℕ) (m : Message) (ms : List Message)
    → length (ms ++ (m ∷ [])) ≤ limit
    → append_bounded limit m ms ≡ ms ++ (m ∷ [])
unfolding append_bounded
append_within limit m ms h = ground (arith, h)

at_limit :
    (l : ℕ) (m : Message) (ms : List Message)
    → suc l ≤ length ms
    → append_bounded (suc l) m (slice_last (suc l) ms) ≡ slice_last (suc l) (ms ++ (m ∷ []))
at_limit l m ms reached =
    let kept = drop (length ms - suc l) ms in
    let one_more : length (kept ++ (m ∷ [])) ≡ suc (suc l) =
      omega (arith, length-append kept (m ∷ []), length-drop (length ms - suc l) ms, reached) in
    let cut : length (kept ++ (m ∷ [])) - suc l ≡ 1 = omega (arith, one_more) in
    ap (append_bounded (suc l) m) (slice_last-suc l ms)
    ∙ append_over (suc l) m kept (omega (arith, one_more))
    ∙ slice_last-suc l (kept ++ (m ∷ []))
    ∙ ap (λ n. drop n (kept ++ (m ∷ []))) cut
    ∙ slide (suc l) m ms (omega arith) reached
    ∙ sym (slice_last-suc l (ms ++ (m ∷ [])))

below_limit :
    (l : ℕ) (m : Message) (ms : List Message)
    → length ms ≤ l
    → append_bounded (suc l) m (slice_last (suc l) ms) ≡ slice_last (suc l) (ms ++ (m ∷ []))
unfolding drop
below_limit l m ms short =
    let whole : length ms - suc l ≡ 0 = omega (arith, short) in
    let still : length (ms ++ (m ∷ [])) - suc l ≡ 0 =
      omega (arith, short, length-append ms (m ∷ [])) in
    ap (append_bounded (suc l) m) (slice_last-suc l ms ∙ ap (λ n. drop n ms) whole)
    ∙ append_within (suc l) m ms (omega (arith, short, length-append ms (m ∷ [])))
    ∙ sym (slice_last-suc l (ms ++ (m ∷ [])) ∙ ap (λ n. drop n (ms ++ (m ∷ []))) still)

pub append_bounded-slice_last :
    (limit : ℕ) (m : Message) (ms : List Message)
    → append_bounded limit m (slice_last limit ms) ≡ slice_last limit (ms ++ (m ∷ []))
unfolding append_bounded slice_last
append_bounded-slice_last zero m ms = ground arith
append_bounded-slice_last (suc l) m ms = elim (Bool-cases (leb (suc l) (length ms))) [
  | inl reached ↦ at_limit l m ms (ground (arith, reached))
  | inr short ↦ below_limit l m ms (ground (arith, short))
]
