-- ===== src/Plan/Executor/Deps.antt =====
-- The step that a name stands for, and what bears on whether it is skipped.
use you_mi_agent.Prelude.{
  String, ◌≡◌, refl, ◌∙◌, sym, ap, subst, Bool, true, false, none, some, List, [], ◌∷◌, ◌++◌, arith,
  All, inl, inr, str_eq, eq_iff, is_some, Bool-cases,
}
use mathlib.Core.Option.{some-injective}
use you_mi_agent.Dict.{Dict, insert, lookup-insert}
use you_mi_agent.Plan.{WorkflowStep, StepResult, is_in, get_step}
use you_mi_agent.Plan.Order.Edges.{all_deps}
use you_mi_agent.Plan.Executor.{blocked}
use you_mi_agent.Plan.Executor.Flat.{AllIn}

pub never_both : {s : WorkflowStep} → none ≡ some s → false ≡ true
never_both h = ap (λ o. is_some o) h

pub get_step-id :
    (sid : String) (ss : List WorkflowStep) {s : WorkflowStep}
    → get_step sid ss ≡ some s
    → s.step_id ≡ sid
unfolding get_step
get_step-id sid [] {s = s} h = absurd (ground arith)
get_step-id sid (t ∷ ss) {s = s} h = elim (Bool-cases (str_eq t.step_id sid)) [
  | inl this ↦ ground (arith, eq_iff t.step_id sid)
  | inr other ↦ get_step-id sid ss {s = s} (rw other at h)
]

-- A name that is none of the dependencies does not bear on them.
pub blocked-insert :
    (ff : Bool) (d : Dict StepResult) (sid : String) (v : StepResult) (deps : List String)
    → is_in sid deps ≡ false
    → blocked ff (insert sid v d) deps ≡ blocked ff d deps
unfolding blocked
blocked-insert ff d sid v [] h = refl
blocked-insert ff d sid v (dep ∷ deps) h = ground (
  arith,
  lookup-insert sid dep v d,
  blocked-insert ff d sid v deps (ground arith),
  eq_iff sid dep,
  eq_iff dep sid,
)

pub not_among :
    (sid : String) (done deps : List String)
    → is_in sid done ≡ false
    → AllIn done deps
    → is_in sid deps ≡ false
not_among sid done [] h k = refl
not_among sid done (dep ∷ deps) h k = ground (arith, not_among sid done deps h k.1, eq_iff dep sid)

All-left : (P : String → Type 0) (xs ys : List String) → All P (xs ++ ys) → All P xs
All-left P [] ys h = tt
All-left P (x ∷ xs) ys h = (h.0, All-left P xs ys h.1)

pub own_deps :
    (P : String → Type 0) (sid : String) (ss : List WorkflowStep) {s : WorkflowStep}
    → get_step sid ss ≡ some s
    → All P (all_deps sid ss)
    → All P s.depends_on
unfolding get_step
own_deps P sid [] h k = absurd (ground arith)
own_deps P sid (t ∷ ss) {s = s} h k = elim (Bool-cases (str_eq t.step_id sid)) [
  | inl this ↦
      subst (λ u. All P u.depends_on) (some-injective _ _ (rw this at h))
        (All-left P t.depends_on (all_deps sid ss) (rw this at k))
  | inr other ↦ own_deps P sid ss {s = s} (rw other at h) (rw other at k)
]

pub same_step :
    (ss : List WorkflowStep) (s t : WorkflowStep)
    → get_step s.step_id ss ≡ some s
    → get_step t.step_id ss ≡ some t
    → str_eq s.step_id t.step_id ≡ true
    → s ≡ t
same_step ss s t h k e =
    some-injective _ _ (sym h ∙ ap (λ x. get_step x ss) ((eq_iff s.step_id t.step_id).0 e) ∙ k)
