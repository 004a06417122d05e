-- ===== src/Dict/Distinct.antt =====
-- Dicts whose keys are distinct, as those of Python are.
use you_mi_agent.Prelude.{
  String, ◌≡◌, sym, none, [], ◌∷◌, arith, str_eq, eq_iff, Bool-cases, inl, inr,
}
use you_mi_agent.Dict.{Dict, lookup, insert, remove, lookup-insert, lookup-remove}

module _ {ℓ} {V : Type ℓ} where
  abbrev pub IsDistinct : Dict V → Type ℓ
  IsDistinct [] = Unit
  IsDistinct ((k, v) ∷ d) = (lookup k d ≡ none) × IsDistinct d

  pub insert-IsDistinct :
      (k : String) (v : V) (d : Dict V) → IsDistinct d → IsDistinct (insert k v d)
  insert-IsDistinct k v [] h = ground arith
  insert-IsDistinct k v ((j, w) ∷ d) h = elim (Bool-cases (str_eq j k)) [
    | inl e ↦ rw (e, sym ((eq_iff j k).0 e)) h
    | inr e ↦
        rw e (
          ground (arith, lookup-insert k j v d, eq_iff j k, eq_iff k j),
          insert-IsDistinct k v d h.1,
        )
  ]

  pub remove-IsDistinct : (k : String) (d : Dict V) → IsDistinct d → IsDistinct (remove k d)
  remove-IsDistinct k [] h = tt
  remove-IsDistinct k ((j, w) ∷ d) h = elim (Bool-cases (str_eq j k)) [
    | inl e ↦ rw e (remove-IsDistinct k d h.1)
    | inr e ↦
        rw e
          (ground (arith, lookup-remove k j d, eq_iff j k, eq_iff k j), remove-IsDistinct k d h.1)
  ]

  pub remove-absent : (k : String) (d : Dict V) → lookup k d ≡ none → remove k d ≡ d
  remove-absent k [] h = ground arith
  remove-absent k ((j, w) ∷ d) h = ground (arith, remove-absent k d)
