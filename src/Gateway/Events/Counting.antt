-- ===== src/Gateway/Events/Counting.antt =====
-- How often a queue stands in the lists of subscribers.
use you_mi_agent.Prelude.{
  ℕ, zero, suc, ◌+◌, ◌≤◌, String, ◌≡◌, refl, ◌∙◌, sym, ap, false, Option, List, [], ◌∷◌, ◌++◌,
  arith, str_eq, eq_iff, count, replicate, ◌==◌, ==_iff, if◌then◌else◌, Bool-cases, inl, inr,
}
use mathlib.Core.List.{append_assoc, append-nil}
use you_mi_agent.Dict.{Dict, insert, remove, lookup-insert, lookup-remove}
use you_mi_agent.Gateway.Events.{queues_of, without, push, push_all, kept, remove_found}

abbrev pub times : ℕ → List ℕ → ℕ
times q ks = count (λ k. k == q) ks

pub times-append : (q : ℕ) (ks ls : List ℕ) → times q (ks ++ ls) ≡ times q ks + times q ls
times-append q [] ls = omega arith
times-append q (k ∷ ks) ls = ground (arith, times-append q ks ls)

pub times-without : (q k : ℕ) (ks : List ℕ) → (k == q) ≡ false → times q (without k ks) ≡ times q ks
unfolding without
times-without q k [] h = refl
times-without q k (j ∷ ks) h = ground (arith, times-without q k ks h)

pub times-without-le : (q k : ℕ) (ks : List ℕ) → times q (without k ks) ≤ times q ks
unfolding without
times-without-le q k [] = omega arith
times-without-le q k (j ∷ ks) = ground (arith, times-without-le q k ks)

replicate_end {ℓ} : {A : Type ℓ} (n : ℕ) (a : A) → replicate n a ++ (a ∷ []) ≡ a ∷ replicate n a
replicate_end zero a = refl
replicate_end (suc n) a = ap (λ t. a ∷ t) (replicate_end n a)

pub push_all-replicate :
    {E : Type 0} (e : Option E) (ks : List ℕ) (qs : ℕ → List (Option E)) (q : ℕ)
    → push_all e ks qs q ≡ qs q ++ replicate (times q ks) e
unfolding push_all push
push_all-replicate e [] qs q = sym (append-nil (qs q))
push_all-replicate e (k ∷ ks) qs q = elim (Bool-cases (k == q)) [
  | inl here ↦
      push_all-replicate e ks (push e k qs) q
      ∙ ground (
        arith,
        here,
        append_assoc (qs q) (e ∷ []) (replicate (times q ks) e),
        ==_iff k q,
        ==_iff q k,
      )
  | inr other ↦
      push_all-replicate e ks (push e k qs) q ∙ ground (arith, other, ==_iff k q, ==_iff q k)
]

pub queues_of-insert :
    (id u : String) (l : List ℕ) (d : Dict (List ℕ))
    → queues_of u (insert id l d) ≡ (if str_eq id u then l else queues_of u d)
unfolding queues_of
queues_of-insert id u l d = ground (arith, lookup-insert id u l d)

pub queues_of-remove :
    (id u : String) (d : Dict (List ℕ))
    → queues_of u (remove id d) ≡ (if str_eq id u then [] else queues_of u d)
unfolding queues_of
queues_of-remove id u d = ground (arith, lookup-remove id u d)

queues_of-kept :
    (id u : String) (l : List ℕ) (d : Dict (List ℕ))
    → queues_of u (kept id l d) ≡ (if str_eq id u then l else queues_of u d)
unfolding kept
queues_of-kept id u [] d = queues_of-remove id u d
queues_of-kept id u (k ∷ ks) d = queues_of-insert id u (k ∷ ks) d

queues_of-found :
    (id u : String) (q : ℕ) (l : List ℕ) (d : Dict (List ℕ))
    → queues_of id d ≡ l
    → queues_of u (remove_found id q l d) ≡ (if str_eq id u then without q l else queues_of u d)
unfolding remove_found without
queues_of-found id u q [] d e = elim (Bool-cases (str_eq id u)) [
  | inl same ↦ rw same (ap (λ n. queues_of n d) (sym ((eq_iff id u).0 same)) ∙ e)
  | inr other ↦ rw other refl
]
queues_of-found id u q (k ∷ ks) d e = queues_of-kept id u (without q (k ∷ ks)) d

-- The list that `_remove` leaves.
pub queues_of-remove_found :
    (id u : String) (q : ℕ) (d : Dict (List ℕ))
    → queues_of u (remove_found id q (queues_of id d) d)
      ≡ (if str_eq id u then without q (queues_of id d) else queues_of u d)
queues_of-remove_found id u q d = queues_of-found id u q (queues_of id d) d refl
