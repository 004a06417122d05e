-- ===== src/Hooks/Sorting.antt =====
-- The sort of the entries: ordered by priority, and stable.
use you_mi_agent.Prelude.{
  ◌≡◌, refl, sym, ◌∙◌, ap, Bool, true, false, ◌&&◌, List, [], ◌∷◌, ◌++◌, arith, select, All,
  All-map, Bool-cases, inl, inr,
}
use mathlib.Core.List.{append-nil, append_assoc}
use you_mi_agent.Prelude.Int.{ℤ, pos, negsuc}
use you_mi_agent.Hooks.{HookEntry, leq, insert_entry, sort_onto}

leq_trans : (a b c : ℤ) → leq a b ≡ true → leq b c ≡ true → leq a c ≡ true
unfolding leq
leq_trans (pos a) (pos b) (pos c) h k = ground arith
leq_trans (pos a) (pos b) (negsuc c) h k = k
leq_trans (pos a) (negsuc b) c h k = absurd (ground arith)
leq_trans (negsuc a) (pos b) (pos c) h k = refl
leq_trans (negsuc a) (pos b) (negsuc c) h k = absurd (ground arith)
leq_trans (negsuc a) (negsuc b) (pos c) h k = refl
leq_trans (negsuc a) (negsuc b) (negsuc c) h k = ground arith

leq-total : (a b : ℤ) → leq a b ≡ false → leq b a ≡ true
unfolding leq
leq-total (pos a) (pos b) h = ground arith
leq-total (pos a) (negsuc b) h = refl
leq-total (negsuc a) (pos b) h = absurd (ground arith)
leq-total (negsuc a) (negsuc b) h = ground arith

leq_refl : (a : ℤ) → leq a a ≡ true
unfolding leq
leq_refl (pos a) = ground arith
leq_refl (negsuc a) = ground arith

-- The entries of one priority.
unfoldable pub at : ℤ → HookEntry → Bool
unfolding leq
at p e = leq e.priority p && leq p e.priority

abbrev pub IsSorted : List HookEntry → Type 0
IsSorted [] = Unit
IsSorted (e ∷ es) = All (λ x. leq e.priority x.priority ≡ true) es × IsSorted es

insert_entry-All :
    (P : HookEntry → Type 0) (e : HookEntry) (es : List HookEntry)
    → P e
    → All P es
    → All P (insert_entry e es)
unfolding insert_entry
insert_entry-All P e [] p h = (p, tt)
insert_entry-All P e (x ∷ xs) p h = elim (Bool-cases (leq x.priority e.priority)) [
  | inl le ↦ rw le (h.0, insert_entry-All P e xs p h.1)
  | inr gt ↦ rw gt (p, h)
]

insert_entry-IsSorted :
    (e : HookEntry) (es : List HookEntry) → IsSorted es → IsSorted (insert_entry e es)
unfolding insert_entry
insert_entry-IsSorted e [] h = (tt, tt)
insert_entry-IsSorted e (x ∷ xs) h = elim (Bool-cases (leq x.priority e.priority)) [
  | inl le ↦ rw le (
    insert_entry-All (λ y. leq x.priority y.priority ≡ true) e xs le h.0,
    insert_entry-IsSorted e xs h.1,
  )
  | inr gt ↦ rw gt (
      let e≤x = leq-total x.priority e.priority gt in
      (
        (
          e≤x,
          All-map (λ y. leq x.priority y.priority ≡ true) (λ y. leq e.priority y.priority ≡ true) xs
              (λ y x≤y. leq_trans e.priority x.priority y.priority e≤x x≤y) h.0,
        ),
        h,
      ))
]

pub sort_onto-IsSorted : (done es : List HookEntry) → IsSorted done → IsSorted (sort_onto done es)
unfolding sort_onto
sort_onto-IsSorted done [] h = h
sort_onto-IsSorted done (e ∷ es) h =
    sort_onto-IsSorted (insert_entry e done) es (insert_entry-IsSorted e done h)

module _ {ℓ} {A : Type ℓ} where
  pub select-append :
      (q : A → Bool) (xs ys : List A) → select q (xs ++ ys) ≡ select q xs ++ select q ys
  select-append q [] ys = refl
  select-append q (x ∷ xs) ys = ground (arith, select-append q xs ys)

  pub select-select :
      (q r : A → Bool) (xs : List A) → select q (select r xs) ≡ select r (select q xs)
  select-select q r [] = refl
  select-select q r (x ∷ xs) = ground (arith, select-select q r xs)

  All-select : (P : A → Type 0) (q : A → Bool) (xs : List A) → All P xs → All P (select q xs)
  All-select P q [] h = tt
  All-select P q (x ∷ xs) h = elim (Bool-cases (q x)) [
    | inl k ↦ rw k (h.0, All-select P q xs h.1)
    | inr k ↦ rw k (All-select P q xs h.1)
  ]

pub select-IsSorted :
    (q : HookEntry → Bool) (es : List HookEntry) → IsSorted es → IsSorted (select q es)
select-IsSorted q [] h = tt
select-IsSorted q (e ∷ es) h = elim (Bool-cases (q e)) [
  | inl k ↦
      rw k (All-select (λ x. leq e.priority x.priority ≡ true) q es h.0, select-IsSorted q es h.1)
  | inr k ↦ rw k (select-IsSorted q es h.1)
]

-- Nothing of the priority of `e` stands in a sorted list that begins above it.
select-above :
    (p : ℤ) (e x : HookEntry) (xs : List HookEntry)
    → leq x.priority e.priority ≡ false
    → at p e ≡ true
    → All (λ y. leq x.priority y.priority ≡ true) xs
    → select (at p) xs ≡ []
select-above p e x [] gt h below = refl
select-above p e x (y ∷ ys) gt h below = elim (Bool-cases (at p y)) [
  | inl k ↦ absurd (
      unfold at in
      ground (arith, leq_trans y.priority p e.priority, leq_trans x.priority y.priority e.priority))
  | inr k ↦ rw k (select-above p e x ys gt h below.1)
]

select-insert_entry :
    (p : ℤ) (e : HookEntry) (es : List HookEntry)
    → IsSorted es
    → select (at p) (insert_entry e es) ≡ select (at p) es ++ select (at p) (e ∷ [])
unfolding insert_entry
select-insert_entry p e [] h = refl
select-insert_entry p e (x ∷ xs) h = elim (Bool-cases (leq x.priority e.priority)) [
  | inl le ↦ rw le (ground (arith, select-insert_entry p e xs h.1))
  | inr gt ↦ rw gt (elim (Bool-cases (at p e)) [
    | inl k ↦
        let above = select-above p e x xs gt k h.0 in
        let head_off = select-above p e x (x ∷ []) gt k (leq_refl x.priority, tt) in ground arith
    | inr k ↦ rw k (sym (append-nil (select (at p) (x ∷ xs))))
  ])
]

pub select-sort_onto :
    (p : ℤ) (done es : List HookEntry)
    → IsSorted done
    → select (at p) (sort_onto done es) ≡ select (at p) done ++ select (at p) es
unfolding sort_onto
select-sort_onto p done [] h = sym (append-nil (select (at p) done))
select-sort_onto p done (e ∷ es) h =
    select-sort_onto p (insert_entry e done) es (insert_entry-IsSorted e done h)
    ∙ ap (λ t. t ++ select (at p) es) (select-insert_entry p e done h)
    ∙ append_assoc (select (at p) done) (select (at p) (e ∷ [])) (select (at p) es)
    ∙ ap (λ t. select (at p) done ++ t) (sym (select-append (at p) (e ∷ []) es))
