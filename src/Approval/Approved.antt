-- ===== src/Approval/Approved.antt =====
-- Who approved a request.
use you_mi_agent.Prelude.{
  ℕ, sym, subst, eq_refl, String, ◌≡◌, refl, true, Option, some, List, [], ◌∷◌, ◌⊎◌, arith, str_eq,
  eq_iff, Bool-cases, Option-cases, inl, inr, any, ◌&&◌,
}
use mathlib.Core.Option.{some-injective}
use you_mi_agent.Dict.{lookup, lookup-insert}
use you_mi_agent.Approval.{
  is_in, ApprovalRecord, ApprovalManager, ApprovalLevel, approved, denied, auto, manual, master,
  init, set_auto_approve_list, set_sensitive_tools, add_auto_approve, add_sensitive_tool,
  submit_request, approve, deny, clear_resolved, reset, get_record, requested, evaluate, store,
  is_pending, is_approved, decided, decide_found, resolved_ids,
}
use you_mi_agent.Approval.Histories.{
  Op, op_set_auto, op_set_sensitive, op_add_auto, op_add_sensitive, op_submit, op_approve, op_deny,
  op_clear, op_reset, step, run, approves, submits_listed, was_listed,
}
use you_mi_agent.Approval.Audit.{lookup-remove_each}

-- It is signed by "system", and some call asked for its tool under its identifier when the list of
-- automatic approvals had the tool; or some call approved it in the name of who signed it.
abbrev pub IsCovered : ApprovalManager → List Op → String → ApprovalRecord → Type 0
IsCovered m ops id r =
    ((r.level ≡ auto) × (r.decided_by ≡ "system") × (was_listed id r.tool_name m ops ≡ true))
    ⊎ (any (approves id r.decided_by) ops ≡ true)

-- A new record is approved only where its level is AUTO.
requested-auto :
    (id : String) (time : ℕ) (agent tool : String) (level : ApprovalLevel)
    → is_approved (requested id time agent tool level) ≡ true
    → (level ≡ auto)
      × ((requested id time agent tool level).level ≡ auto)
      × ((requested id time agent tool level).decided_by ≡ "system")
      × ((requested id time agent tool level).tool_name ≡ tool)
unfolding requested is_approved
requested-auto id time agent tool auto h = (refl, refl, refl, refl)
requested-auto id time agent tool manual h = absurd (ground arith)
requested-auto id time agent tool master h = absurd (ground arith)

evaluate-auto :
    (tool : String) (risk : Option String) (m : ApprovalManager)
    → evaluate tool risk m ≡ auto
    → any (λ listed. str_eq listed tool) m.auto_approve_list ≡ true
unfolding evaluate is_in
evaluate-auto tool risk m h = ground arith

module _ (m : ApprovalManager) (k : String) (r : ApprovalRecord) (p : is_approved r ≡ true) where
  approve-IsCovered :
      (id by why : String)
      → lookup k (decide_found approved id by why m (lookup id m.records)).0.records ≡ some r
      → (lookup k m.records ≡ some r) ⊎ ((str_eq id k && str_eq by r.decided_by) ≡ true)
  unfolding decide_found store decided
  approve-IsCovered id by why = elim (Option-cases (lookup id m.records)) [
    | inl e ↦ rw e (λ h. inl h)
    | inr (r', e) ↦ rw e (elim (Bool-cases (is_pending r')) [
      | inl q ↦ rw q (λ h. ground (
        arith,
        eq_iff by r.decided_by,
        lookup-insert id k (decided approved by why r') m.records,
      ))
      | inr q ↦ rw q (λ h. inl h)
    ])
  ]

  deny-IsCovered :
      (id by why : String)
      → lookup k (decide_found denied id by why m (lookup id m.records)).0.records ≡ some r
      → lookup k m.records ≡ some r
  unfolding decide_found store decided is_approved
  deny-IsCovered id by why = elim (Option-cases (lookup id m.records)) [
    | inl e ↦ rw e (λ h. h)
    | inr (r', e) ↦ rw e (elim (Bool-cases (is_pending r')) [
      | inl q ↦ rw q (λ h. ground (arith, lookup-insert id k (decided denied by why r') m.records))
      | inr q ↦ rw q (λ h. h)
    ])
  ]

  abbrev Listed : Op → ApprovalRecord → Type 0
  Listed op x =
      (x.level ≡ auto) × (x.decided_by ≡ "system") × (submits_listed k x.tool_name m op ≡ true)

  new-Listed :
      (id : String) (time : ℕ) (agent tool : String) (risk : Option String)
      → str_eq id k ≡ true
      → is_approved (requested id time agent tool (evaluate tool risk m)) ≡ true
      → Listed
          (op_submit id time agent tool risk)
          (requested id time agent tool (evaluate tool risk m))
  unfolding submits_listed
  new-Listed id time agent tool risk this q =
      let (level, a, system, same) = requested-auto id time agent tool (evaluate tool risk m) q in
      (a, system, rw same (ground (arith, this, eq_refl tool, evaluate-auto tool risk m level)))

  submit-IsCovered :
      (id : String) (time : ℕ) (agent tool : String) (risk : Option String)
      → lookup k (submit_request id time agent tool risk m).0.records ≡ some r
      → (lookup k m.records ≡ some r) ⊎ Listed (op_submit id time agent tool risk) r
  unfolding submit_request store
  submit-IsCovered id time agent tool risk h =
      let new = requested id time agent tool (evaluate tool risk m) in
      elim (Bool-cases (str_eq id k)) [
        | inl this ↦
            let same : new ≡ r =
              some-injective new r (ground (arith, this, h, lookup-insert id k new m.records)) in
            inr (
              subst (Listed (op_submit id time agent tool risk)) same (
                new-Listed id time agent tool risk this
                  (subst (λ x. is_approved x ≡ true) (sym same) p)))
        | inr other ↦ inl (ground (arith, other, h, lookup-insert id k new m.records))
      ]

  step-IsCovered :
      (op : Op)
      → lookup k (step op m).records ≡ some r
      → (lookup k m.records ≡ some r) ⊎ IsCovered m (op ∷ []) k r
  unfolding step approves was_listed
  step-IsCovered (op_set_auto tools) h = inl (unfold set_auto_approve_list in h)
  step-IsCovered (op_set_sensitive tools) h = inl (unfold set_sensitive_tools in h)
  step-IsCovered (op_add_auto tool) h = inl (unfold add_auto_approve in h)
  step-IsCovered (op_add_sensitive tool) h = inl (unfold add_sensitive_tool in h)
  step-IsCovered (op_submit id time agent tool risk) h =
      ground (arith, submit-IsCovered id time agent tool risk h)
  step-IsCovered (op_approve id by why) h =
      ground (arith, approve-IsCovered id by why (unfold approve in h))
  step-IsCovered (op_deny id by why) h = inl (deny-IsCovered id by why (unfold deny in h))
  step-IsCovered op_clear h =
      inl (unfold clear_resolved in lookup-remove_each (resolved_ids m.records) k m.records r h)
  step-IsCovered op_reset h = absurd (unfold reset in ground arith)

run-IsCovered :
    (ops : List Op) (m : ApprovalManager) (k : String) (r : ApprovalRecord)
    → is_approved r ≡ true
    → lookup k (run ops m).records ≡ some r
    → (lookup k m.records ≡ some r) ⊎ IsCovered m ops k r
unfolding run was_listed
run-IsCovered [] m k r p h = inl h
run-IsCovered (op ∷ ops) m k r p h = elim (run-IsCovered ops (step op m) k r p h) [
  | inl e ↦ ground (arith, step-IsCovered m k r p op e)
  | inr c ↦ ground (arith, c)
]

-- After any history of a new manager, an approved record has the level AUTO and is signed by
-- "system", and the history has a request for its tool under its identifier that came when the list of
-- automatic approvals had the tool; or the history has a call of `approve` for it by the one who
-- signed it.
pub approval_has_author :
    (auto_list sensitive : Option (List String)) (ops : List Op) (id : String) (r : ApprovalRecord)
    → get_record id (run ops (init auto_list sensitive)) ≡ some r
    → is_approved r ≡ true
    → IsCovered (init auto_list sensitive) ops id r
unfolding get_record init
approval_has_author auto_list sensitive ops id r h p =
    elim (run-IsCovered ops (init auto_list sensitive) id r p h) [
      | inl e ↦ absurd (ground arith)
      | inr c ↦ c
    ]
