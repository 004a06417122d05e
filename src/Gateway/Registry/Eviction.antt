-- ===== src/Gateway/Registry/Eviction.antt =====
-- What `put` evicts.
use you_mi_agent.Prelude.{
  ℕ, zero, suc, ◌+◌, ◌-◌, ◌≤◌, min, String, ◌≡◌, ◌⊎◌, refl, sym, ap, ◌||◌, Bool, false, not, some,
  [], ◌∷◌, ◌++◌, arith, leb, ◌==◌, if◌then◌else◌, length, select, count, inl, inr, Bool-cases,
}
use you_mi_agent.Dict.{Dict, lookup, insert}
use you_mi_agent.Gateway.{finished, TaskRecord}
use you_mi_agent.Gateway.Registry.{Registry, evict, evict_if_needed, put, get}

abbrev pub is_finished : String × TaskRecord → Bool
is_finished (k, r) = finished r.status

evict-length :
    (n : ℕ) (d : Dict TaskRecord) → length (evict n d) + min n (count is_finished d) ≡ length d
unfolding evict
evict-length zero d = omega arith
evict-length (suc n) [] = omega arith
evict-length (suc n) ((k, r) ∷ d) = ground (arith, evict-length n d, evict-length (suc n) d)

evict-finished :
    (n : ℕ) (d : Dict TaskRecord) → count is_finished (evict n d) ≡ count is_finished d - n
unfolding evict
evict-finished zero d = omega arith
evict-finished (suc n) [] = omega arith
evict-finished (suc n) ((k, r) ∷ d) = ground (arith, evict-finished n d, evict-finished (suc n) d)

evict-unfinished :
    (n : ℕ) (d : Dict TaskRecord) (k : String) (r : TaskRecord)
    → lookup k d ≡ some r
    → finished r.status ≡ false
    → lookup k (evict n d) ≡ some r
unfolding evict
evict-unfinished zero d k r h f = h
evict-unfinished (suc n) [] k r h f = cc
evict-unfinished (suc n) ((j, w) ∷ d) k r h f =
    ground (arith, evict-unfinished n d k r, evict-unfinished (suc n) d k r)

-- A registry without its oldest finished records: up to a place in the order all finished records
-- are gone, and from there on nothing is.
pub record OldestGone (n : ℕ) (d d' : Dict TaskRecord) : Type 0 where
  pub older : Dict TaskRecord
  pub newer : Dict TaskRecord
  pub whole : d ≡ older ++ newer
  pub left : d' ≡ select (λ e. not (is_finished e)) older ++ newer
  pub gone : count is_finished older ≡ min n (count is_finished d)

evict-OldestGone : (n : ℕ) (d : Dict TaskRecord) → OldestGone n d (evict n d)
unfolding evict
evict-OldestGone zero d = record {
  older = [];
  newer = d;
  whole = refl;
  left = refl;
  gone = omega arith;
}
evict-OldestGone (suc n) [] = record {
  older = [];
  newer = [];
  whole = refl;
  left = refl;
  gone = omega arith;
}
evict-OldestGone (suc n) ((k, r) ∷ d) = elim (Bool-cases (finished r.status)) [
  | inl done ↦
      let h = evict-OldestGone n d in
      record {
        older = (k, r) ∷ h.older;
        newer = h.newer;
        whole = ap (λ l. (k, r) ∷ l) h.whole;
        left = rw done h.left;
        gone = rw done (omega (arith, h.gone));
      }
  | inr active ↦
      let h = evict-OldestGone (suc n) d in
      record {
        older = (k, r) ∷ h.older;
        newer = h.newer;
        whole = ap (λ l. (k, r) ∷ l) h.whole;
        left = rw active (ap (λ l. (k, r) ∷ l) h.left);
        gone = rw active h.gone;
      }
]

-- The records that are too many once `r` is written.
abbrev pub overflow : TaskRecord → Registry → ℕ
overflow r g =
    if g.max_records == 0 then 0 else length (insert r.task_id r g.records) - g.max_records

evict-zero : (n : ℕ) (d : Dict TaskRecord) → n ≡ 0 → evict n d ≡ d
unfolding evict
evict-zero zero d h = refl
evict-zero (suc n) d h = absurd (omega arith)

records-evict_if_needed :
    (g : Registry)
    → (evict_if_needed g).records
      ≡ evict (if g.max_records == 0 then 0 else length g.records - g.max_records) g.records
unfolding evict_if_needed
records-evict_if_needed g =
    let n : ℕ = if g.max_records == 0 then 0 else length g.records - g.max_records in
    elim (Bool-cases (g.max_records == 0 || leb (length g.records) g.max_records)) [
      | inl fits ↦ rw fits (sym (evict-zero n g.records (ground arith)))
      | inr over ↦ rw over (ap (λ k. evict k g.records) (ground arith))
    ]

put-eq-evict :
    (r : TaskRecord) (g : Registry)
    → (put r g).records ≡ evict (overflow r g) (insert r.task_id r g.records)
unfolding put
put-eq-evict r g = records-evict_if_needed (record g { records = insert r.task_id r g.records })

-- `put` writes the record and then drops exactly the oldest finished records, as many as there are
-- too many, or all of them if they are fewer; the order of the others stays.
pub put-OldestGone :
    (r : TaskRecord) (g : Registry)
    → OldestGone (overflow r g) (insert r.task_id r g.records) (put r g).records
put-OldestGone r g =
    rw put-eq-evict (evict-OldestGone (overflow r g) (insert r.task_id r g.records))

-- With a positive limit, after `put` the records are within the limit, or none of them is finished.
pub put_within_limit :
    (r : TaskRecord) (g : Registry)
    → 1 ≤ g.max_records
    → (length (put r g).records ≤ g.max_records) ⊎ (count is_finished (put r g).records ≡ 0)
put_within_limit r g h =
    let d = insert r.task_id r g.records in
    rw put-eq-evict (ground (arith, evict-length (overflow r g) d, evict-finished (overflow r g) d))

-- A record that is not finished, and that the registry holds once `r` is written, is not evicted.
pub put-keeps_unfinished :
    (r s : TaskRecord) (k : String) (g : Registry)
    → lookup k (insert r.task_id r g.records) ≡ some s
    → finished s.status ≡ false
    → get k (put r g) ≡ some s
unfolding get
put-keeps_unfinished r s k g h active =
    rw put-eq-evict (evict-unfinished (overflow r g) (insert r.task_id r g.records) k s h active)
