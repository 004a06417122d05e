-- ===== src/Bus/Broker/Members.antt =====
-- Who is a member of a workflow, over any history of the broker.
use you_mi_agent.Prelude.{
  ℕ, String, ◌≡◌, refl, ◌∙◌, ap, subst, true, false, not, ◌&&◌, ◌||◌, List, [], ◌∷◌, ◌++◌, arith,
  str_eq, eq_iff, eq_refl, if◌then◌else◌, Bool-cases, inl, inr, length, ◌==◌, ◌+◌,
}
use you_mi_agent.Dict.{Dict, insert, remove, lookup-insert, lookup-remove}
use you_mi_agent.Bus.Broker.{
  InProcessBroker, is_in, get_list, add, discard, with_key, add_to, subscribe, leave, leave_all,
  unsubscribe, create_workflow,
}

module _ {A : Type 0} where
  get_list-insert :
      (k j : String) (l : List A) (d : Dict (List A))
      → get_list j (insert k l d) ≡ (if str_eq k j then l else get_list j d)
  get_list-insert k j l d = ground (arith, lookup-insert k j l d)

  get_list-remove :
      (k j : String) (d : Dict (List A))
      → get_list j (remove k d) ≡ (if str_eq k j then [] else get_list j d)
  get_list-remove k j d = ground (arith, lookup-remove k j d)

  get_list-with_key : (k j : String) (d : Dict (List A)) → get_list j (with_key k d) ≡ get_list j d
  unfolding with_key
  get_list-with_key k j d =
      let nothing : List A = [] in ground (arith, lookup-insert k j nothing d, eq_iff k j)

is_in-append : (x : String) (xs ys : List String) → is_in x (xs ++ ys) ≡ (is_in x xs || is_in x ys)
is_in-append x [] ys = refl
is_in-append x (y ∷ xs) ys = ground (arith, is_in-append x xs ys)

is_in-add : (x y : String) (xs : List String) → is_in y (add x xs) ≡ (is_in y xs || str_eq x y)
unfolding add
is_in-add x y xs = ground (arith, is_in-append y xs (x ∷ []), eq_iff x y)

is_in-discard :
    (x y : String) (xs : List String) → is_in y (discard x xs) ≡ (is_in y xs && not (str_eq y x))
unfolding discard
is_in-discard x y [] = refl
is_in-discard x y (z ∷ xs) =
    ground (arith, is_in-discard x y xs, eq_iff z x, eq_iff z y, eq_iff y x)

is_in-add_to :
    (k x j y : String) (d : Dict (List String))
    → is_in y (get_list j (add_to k x d)) ≡ (is_in y (get_list j d) || (str_eq k j && str_eq x y))
unfolding add_to
is_in-add_to k x j y d =
    ground (
      arith,
      get_list-insert k j (add x (get_list k d)) d,
      is_in-add x y (get_list k d),
      eq_iff k j,
    )

empty_has_none : (y : String) (xs : List String) → (length xs == 0) ≡ true → is_in y xs ≡ false
empty_has_none y [] h = refl
empty_has_none y (x ∷ xs) h = absurd (ground arith)

leave_own :
    (a wf y : String) (d : Dict (List String))
    → is_in y (get_list wf (leave a wf d)) ≡ (is_in y (get_list wf d) && not (str_eq y a))
unfolding leave
leave_own a wf y d =
    let ms = discard a (get_list wf d) in
    let rest : is_in y ms ≡ (is_in y (get_list wf d) && not (str_eq y a)) =
      is_in-discard a y (get_list wf d) in
    elim (Bool-cases (length ms == 0)) [
      | inl gone ↦ rw gone (
          ap (is_in y) (get_list-remove wf wf d)
          ∙ ground (arith, eq_refl wf, rest, empty_has_none y ms gone))
      | inr kept ↦
          rw kept (ap (is_in y) (get_list-insert wf wf ms d) ∙ ground (arith, eq_refl wf, rest))
    ]

is_in-leave :
    (a wf j y : String) (d : Dict (List String))
    → is_in y (get_list j (leave a wf d))
      ≡ (is_in y (get_list j d) && not (str_eq wf j && str_eq y a))
unfolding leave
is_in-leave a wf j y d =
    let left = is_in-discard a y (get_list wf d) in
    elim (Bool-cases (str_eq wf j)) [
      | inl this ↦
          subst
            (λ i.
              is_in y (get_list i (leave a wf d))
              ≡ (is_in y (get_list i d) && not (str_eq wf i && str_eq y a)))
            ((eq_iff wf j).0 this) (ground (arith, leave_own a wf y d, eq_refl wf))
      | inr other ↦
          ground (
            arith,
            get_list-insert wf j (discard a (get_list wf d)) d,
            get_list-remove wf j d,
            other,
          )
    ]

pub is_in-leave_all :
    (a j y : String) (wfs : List String) (d : Dict (List String))
    → is_in y (get_list j (leave_all a wfs d))
      ≡ (is_in y (get_list j d) && not (is_in j wfs && str_eq y a))
unfolding leave_all
is_in-leave_all a j y [] d = ground arith
is_in-leave_all a j y (wf ∷ wfs) d =
    ground (arith, is_in-leave_all a j y wfs (leave a wf d), is_in-leave a wf j y d)

-- Who is listed in a workflow has subscribed to it.
abbrev pub IsLinked : InProcessBroker → Type 0
IsLinked b =
    (a wf : String)
    → is_in a (get_list wf b.workflow_members) ≡ true
    → is_in wf (get_list a b.subscriptions) ≡ true

pub subscribe-IsLinked :
    (a wf t : String) (b : InProcessBroker) → IsLinked b → IsLinked (subscribe a wf t b)
unfolding subscribe
subscribe-IsLinked a wf t b h a' wf' m = elim (Bool-cases (str_eq wf "")) [
  | inl all ↦ ground (arith, all, h a' wf', m, get_list-with_key a a' b.subscriptions)
  | inr one ↦ ground (
    arith,
    one,
    h a' wf',
    m,
    get_list-with_key a a' b.subscriptions,
    is_in-add_to wf a wf' a' b.workflow_members,
    is_in-add_to a wf a' wf' (with_key a b.subscriptions),
  )
]

pub unsubscribe-IsLinked :
    (a : String) (b : InProcessBroker) → IsLinked b → IsLinked (unsubscribe a b)
unfolding unsubscribe
unsubscribe-IsLinked a b h a' wf m = ground (
  arith,
  h a' wf,
  m,
  is_in-leave_all a wf a' (get_list a b.subscriptions) b.workflow_members,
  get_list-remove a a' b.subscriptions,
  eq_iff a' a,
  eq_iff a a',
)

pub create-IsLinked :
    (name : ℕ → String) (b : InProcessBroker) → IsLinked b → IsLinked (create_workflow name b).0
unfolding create_workflow
create-IsLinked name b h a wf m =
    ground
      (arith, h a wf, m, get_list-insert (name (b.workflow_counter + 1)) wf [] b.workflow_members)
