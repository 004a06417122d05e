-- ===== src/Gateway/Registry/Listing.antt =====
-- What `list` and `stats` show.
use you_mi_agent.Prelude.{
  ℕ, zero, suc, ◌+◌, ◌≤◌, String, ◌≡◌, Bool, true, Option, none, some, List, [], ◌∷◌, arith, ltb,
  str_eq, eq_iff, length, select, count, take, All, Bool-cases, inl, inr,
}
use mathlib.Core.List.{reverse}
use you_mi_agent.Dict.{Dict, values}
use you_mi_agent.Gateway.{TaskStatus, queued, running, completed, failed, cancelled, TaskRecord}
use you_mi_agent.Gateway.Registry.{
  Registry, same_status, of_tenant, of_status, limited, list, by_status, total,
}

All-select {ℓ} :
    {A : Type ℓ} (P : A → Type 0) (p : A → Bool) (xs : List A)
    → ((a : A) → p a ≡ true → P a)
    → All P (select p xs)
All-select P p [] h = tt
All-select P p (x ∷ xs) h = elim (Bool-cases (p x)) [
  | inl good ↦ rw good (h x good, All-select P p xs h)
  | inr bad ↦ rw bad (All-select P p xs h)
]

All-select_kept {ℓ} :
    {A : Type ℓ} (P : A → Type 0) (p : A → Bool) (xs : List A) → All P xs → All P (select p xs)
All-select_kept P p [] h = tt
All-select_kept P p (x ∷ xs) h = elim (Bool-cases (p x)) [
  | inl good ↦ rw good (h.0, All-select_kept P p xs h.1)
  | inr bad ↦ rw bad (All-select_kept P p xs h.1)
]

All-take {ℓ} : {A : Type ℓ} (P : A → Type 0) (n : ℕ) (xs : List A) → All P xs → All P (take n xs)
All-take P zero xs h = tt
All-take P (suc n) [] h = tt
All-take P (suc n) (x ∷ xs) h = (h.0, All-take P n xs h.1)

All-limited :
    (P : TaskRecord → Type 0) (n : ℕ) (xs : List TaskRecord) → All P xs → All P (limited n xs)
unfolding limited
All-limited P n xs h = elim (Bool-cases (ltb 0 n)) [
  | inl cut ↦ rw cut (All-take P n xs h)
  | inr whole ↦ rw whole h
]

All-of_status :
    (P : TaskRecord → Type 0) (s : Option TaskStatus) (xs : List TaskRecord)
    → All P xs
    → All P (of_status s xs)
unfolding of_status
All-of_status P none xs h = h
All-of_status P (some s) xs h = All-select_kept P (λ r. same_status r.status s) xs h

-- The list for a tenant shows no record of another tenant, whatever the other filters.
pub list-of_tenant :
    (t : String) (s : Option TaskStatus) (limit : ℕ) (g : Registry)
    → All (λ r. r.tenant ≡ t) (list (some t) s limit g)
unfolding list of_tenant
list-of_tenant t s limit g =
    let P : TaskRecord → Type 0 = λ r. r.tenant ≡ t in
    let rs = reverse (values g.records) in
    All-limited P limit _ (
      All-of_status P s _
        (All-select P (λ r. str_eq r.tenant t) rs (λ r h. (eq_iff r.tenant t).0 h)))

length-take : (n : ℕ) (rs : List TaskRecord) → length (take n rs) ≤ n
length-take zero rs = omega arith
length-take (suc n) [] = omega arith
length-take (suc n) (x ∷ rs) = omega (arith, length-take n rs)

-- With a positive limit the list shows at most that many records.
pub length-list :
    (t : Option String) (s : Option TaskStatus) (limit : ℕ) (g : Registry)
    → 1 ≤ limit
    → length (list t s limit g) ≤ limit
unfolding list limited
length-list t s limit g h =
    let e : ltb 0 limit ≡ true = ground arith in
    rw e (length-take limit (of_status s (of_tenant t (reverse (values g.records)))))

sum_of_counts :
    (d : Dict TaskRecord)
    → count (λ r. same_status r.status queued) (values d)
        + count (λ r. same_status r.status running) (values d)
        + count (λ r. same_status r.status completed) (values d)
        + count (λ r. same_status r.status failed) (values d)
        + count (λ r. same_status r.status cancelled) (values d)
      ≡ length d
unfolding same_status
sum_of_counts [] = omega arith
sum_of_counts ((k, r) ∷ d) = ground (arith, sum_of_counts d)

-- The counts that `stats` gives for the five statuses add up to its total.
pub stats_add_up :
    (g : Registry)
    → by_status g queued
        + by_status g running
        + by_status g completed
        + by_status g failed
        + by_status g cancelled
      ≡ total g
unfolding by_status total
stats_add_up g = sum_of_counts g.records
