-- ===== src/Text/Split.antt =====
-- `split` cuts a text at each separator.
use you_mi_agent.Prelude.{ℕ, ◌≡◌, refl, false, [], ◌∷◌, ◌++◌, ◌==◌, All, arith}
use you_mi_agent.Text.{Text, split}

abbrev pub Lacks : ℕ → ℕ → Type 0
Lacks sep c = (c == sep) ≡ false

-- A text without the separator is one part.
pub split-whole : (sep : ℕ) (s : Text) → All (Lacks sep) s → split sep s ≡ s ∷ []
unfolding split
split-whole sep [] h = refl
split-whole sep (c ∷ s) h = rw (h.0, split-whole sep s h.1)

-- The first part ends at the first separator.
pub split-first :
    (sep : ℕ) (s t : Text) → All (Lacks sep) s → split sep (s ++ sep ∷ t) ≡ s ∷ split sep t
unfolding split
split-first sep [] t h = ground arith
split-first sep (c ∷ s) t h = rw (h.0, split-first sep s t h.1)
