-- ===== src/Gateway/Pool/Conservation.antt =====
-- No record is lost, taken twice or taken out of turn.
use you_mi_agent.Prelude.{
  ℕ, suc, ◌+◌, String, ◌≡◌, refl, ◌∙◌, sym, ap, subst, true, ◌&&◌, not, some, List, [], ◌∷◌, ◌++◌,
  arith, length, length-append, Bool-cases, Option-cases, inl, inr,
}
use mathlib.Core.Option.{some-injective}
use mathlib.Core.List.{append_assoc, append-nil}
use you_mi_agent.Gateway.{TaskRecord}
use you_mi_agent.Gateway.Pool.{
  Pool, init, is_full, put, start, is_running, take_first, get, is_in, is_busy, without, end_task,
  stop,
}
use you_mi_agent.Gateway.Pool.Histories.{
  Op, op_put, op_start, op_get, op_end, op_stop, step, run, submitted,
}

-- What was submitted is what was taken and then what waits, and the counter of `join` counts what
-- waits or is executed.
pub record Conserves (all : List TaskRecord) (p : Pool) : Type 0 where
  pub in_order : p.taken ++ p.queue ≡ all
  pub counted : p.unfinished ≡ length p.queue + length p.busy

length-without :
    (w : String) (b : List (String × TaskRecord))
    → is_busy w b ≡ true
    → length b ≡ suc (length (without w b))
unfolding is_busy without
length-without w [] h = absurd (ground arith)
length-without w ((v, r) ∷ b) h = ground (arith, length-without w b)

put-Conserves :
    (r : TaskRecord) (all : List TaskRecord) (p q : Pool)
    → put r p ≡ some q
    → Conserves all p
    → Conserves (all ++ (r ∷ [])) q
unfolding put
put-Conserves r all p q e h = elim (Bool-cases (is_full p)) [
  | inl full ↦ absurd (ground (arith, e, full))
  | inr free ↦
      subst (Conserves (all ++ (r ∷ []))) (some-injective _ _ (rw (put, free) at e)) (record {
        in_order = sym (append_assoc p.taken p.queue (r ∷ [])) ∙ ap (λ l. l ++ (r ∷ [])) h.in_order;
        counted = omega (arith, h.counted, length-append p.queue (r ∷ []));
      })
]

take_first-Conserves :
    (w : String) (rs all : List TaskRecord) (p q : Pool)
    → p.queue ≡ rs
    → take_first w rs p ≡ some q
    → Conserves all p
    → Conserves all q
unfolding take_first
take_first-Conserves w [] all p q s e h = absurd (ground (arith, e))
take_first-Conserves w (r ∷ rs) all p q s e h =
    subst (Conserves all) (some-injective _ _ e) (record {
      in_order = append_assoc p.taken (r ∷ []) rs ∙ ap (λ l. p.taken ++ l) (sym s) ∙ h.in_order;
      counted = ground (arith, h.counted, ap length s);
    })

get-Conserves :
    (w : String) (all : List TaskRecord) (p q : Pool)
    → get w p ≡ some q
    → Conserves all p
    → Conserves all q
unfolding get
get-Conserves w all p q e h = elim (Bool-cases (is_in w p.worker_ids && not (is_busy w p.busy))) [
  | inl idle ↦ take_first-Conserves w p.queue all p q refl (rw (get, idle) at e) h
  | inr no_turn ↦ absurd (ground (arith, e, no_turn))
]

end_task-Conserves :
    (w : String) (all : List TaskRecord) (p q : Pool)
    → end_task w p ≡ some q
    → Conserves all p
    → Conserves all q
unfolding end_task
end_task-Conserves w all p q e h = elim (Bool-cases (is_busy w p.busy)) [
  | inl executes ↦
      subst (Conserves all) (some-injective _ _ (rw (end_task, executes) at e)) (record {
        in_order = h.in_order;
        counted = omega (arith, h.counted, length-without w p.busy executes);
      })
  | inr idle ↦ absurd (ground (arith, e, idle))
]

start-Conserves :
    (name : ℕ → String) (size : ℕ) (all : List TaskRecord) (p : Pool)
    → Conserves all p
    → Conserves all (start name size p)
unfolding start
start-Conserves name size all p h = elim (Bool-cases (is_running p)) [
  | inl on ↦ rw (start, on) h
  | inr off ↦ rw (start, off) (record { in_order = h.in_order; counted = h.counted })
]

stop-Conserves : (all : List TaskRecord) (p : Pool) → Conserves all p → Conserves all (stop p)
unfolding stop
stop-Conserves all p h = record { in_order = h.in_order; counted = ground (arith, h.counted) }

abbrev Kept : Op → List TaskRecord → Pool → Type 0
Kept op all p = (q : Pool) → step op p ≡ some q → Conserves (all ++ submitted (op ∷ [])) q

step-Conserves : (op : Op) (all : List TaskRecord) (p : Pool) → Conserves all p → Kept op all p
unfolding step submitted
step-Conserves (op_put r) all p h q e = put-Conserves r all p q e h
step-Conserves (op_start name size) all p h q e =
    rw append-nil (subst (Conserves all) (some-injective _ q e) (start-Conserves name size all p h))
step-Conserves (op_get w) all p h q e = rw append-nil (get-Conserves w all p q e h)
step-Conserves (op_end w) all p h q e = rw append-nil (end_task-Conserves w all p q e h)
step-Conserves op_stop all p h q e =
    rw append-nil (subst (Conserves all) (some-injective _ q e) (stop-Conserves all p h))

submitted-cons :
    (op : Op) (ops : List Op) → submitted (op ∷ ops) ≡ submitted (op ∷ []) ++ submitted ops
unfolding submitted
submitted-cons (op_put r) ops = refl
submitted-cons (op_start name size) ops = refl
submitted-cons (op_get w) ops = refl
submitted-cons (op_end w) ops = refl
submitted-cons op_stop ops = refl

run-Conserves :
    (ops : List Op) (all : List TaskRecord) (p q : Pool)
    → run ops p ≡ some q
    → Conserves all p
    → Conserves (all ++ submitted ops) q
unfolding run
run-Conserves [] all p q e h =
    unfold submitted in rw append-nil (subst (Conserves all) (some-injective p q e) h)
run-Conserves (op ∷ ops) all p q e h = elim (Option-cases (step op p)) [
  | inl off ↦ absurd (ground (arith, e, off))
  | inr (m, on) ↦
      subst (λ l. Conserves l q)
        (append_assoc all (submitted (op ∷ [])) (submitted ops)
          ∙ ap (λ l. all ++ l) (sym (submitted-cons op ops)))
        (run-Conserves ops (all ++ submitted (op ∷ [])) m q (rw (run, on) at e)
          (step-Conserves op all p h m on))
]

-- After any history of a new pool: the records that the workers took, in the order in which they took
-- them, and then those that wait, are the records that were put, in their order, and the counter of
-- `join` is the number of those that wait or are being executed.
pub queue_conserves :
    (maxsize : ℕ) (ops : List Op) (p : Pool)
    → run ops (init maxsize) ≡ some p
    → (p.taken ++ p.queue ≡ submitted ops) × (p.unfinished ≡ length p.queue + length p.busy)
unfolding init
queue_conserves maxsize ops p e =
    let h =
      run-Conserves ops [] (init maxsize) p e (record { in_order = refl; counted = omega arith }) in
    (h.in_order, h.counted)
