-- ===== src/Codegen/Regions.antt =====
-- src/compiler/codegen/expr.rs and src/compiler/codegen/parallel.rs: lets, branches and traps follow the check of
-- src/compiler/analysis/verify.rs.
use llmlang.Prelude.{
  ℕ, suc, ◌≡◌, refl, sym, ap, subst, ◌∙◌, true, Text, codes, List, [], ◌∷◌, Option, none, some,
  length, pop, lookup, Bool-cases, arith, inl, inr, if◌then◌else◌,
}
use llmlang.Ast.{Expr}
use llmlang.Error.{Result, ok, err, bind}
use llmlang.Verify.{
  infer_shape, VariableState, VerificationContext, Check, ◌>>◌, on_expand, from_top,
  unknown_identifier, push, pop_variable, check_let, states_eq, check_branches,
}
use llmlang.Codegen.Stack.{infer_item_shape, StackItem}
use llmlang.Codegen.Agreement.{states}
use llmlang.Codegen.Variables.{
  Frame, Step, Panic, Settings, return, next, emit, expand_item, push_item, pop_item,
  drop_available, returns_ptr, returns_ptr,
}
use llmlang.Codegen.Generate.{
  restore, gen_let, then_branch, join_branches, else_branch, gen_branches,
}
use llmlang.Codegen.Follows.{
  idle, Agrees, Fine, Follows, then-Fine, emit-Follows, return-Follows, next-Follows, end-Follows,
}

module _ {V : Type 0} where
  states-restore :
      (is js : List (StackItem V))
      → length js ≡ length is
      → (states (restore is js) ≡ states is) × (length (restore is js) ≡ length js)
  unfolding restore
  states-restore [] [] h = (refl, refl)
  states-restore [] (j ∷ js) h = absurd (ground arith)
  states-restore (i ∷ is) [] h = absurd (ground arith)
  states-restore (i ∷ is) (j ∷ js) h =
      let (a, b) = states-restore is js (ground arith) in (ap (λ r. i.state ∷ r) a, ap suc b)

  length-states : (is : List (StackItem V)) → length (states is) ≡ length is
  length-states [] = refl
  length-states (i ∷ is) = ap suc (length-states is)

abbrev same_states : List VariableState → Check
same_states ss ce = if states_eq ss ce.stack then ok ce else err (codes "E009")

module _ {G V : Type 0} (expand_map : List (Text × ℕ)) where
  pub expand-Follows :
      (p : ℕ → Check) (m : ℕ → Step G V V) (name : Text)
      → ((k : ℕ) → Follows expand_map (p k) (m k))
      → Follows expand_map (on_expand p name) (expand_item m expand_map name)
  unfolding on_expand expand_item
  expand-Follows p m name hm c c' f h e = at (lookup name expand_map) (
      sym (λ j. elim (lookup name (h.0 j)) [
        | none ↦ err (unknown_identifier name)
        | some index ↦ p (from_top (depth j) index) c
      ])
      ∙ e)
    where
      depth : length c.stack ≡ length f.stack
      depth = ap length h.1 ∙ length-states f.stack

      at :
          (o : Option ℕ)
          → (elim o as (λ _. Result Text VerificationContext) [
            | none ↦ err (unknown_identifier name)
            | some index ↦ p (from_top (length f.stack) index) c
          ])
            ≡ ok c'
          → Fine expand_map c' (length f.stack) (elim o as (λ _. Result Panic (V × Frame G V)) [
            | none ↦ err (Panic.other (codes "E013"))
            | some index ↦ m (from_top (length f.stack) index) f
          ])
      at none q = tt
      at (some index) q = hm (from_top (length f.stack) index) c c' f h q

  pub gen_let-Follows :
      (s : Settings G V) (v : Expr) (val : V) (q : Check) (body : Step G V V)
      → Follows expand_map q body
      → Follows expand_map (check_let v q) (gen_let s v val body)
  unfolding check_let push pop_variable gen_let push_item pop_item next
  gen_let-Follows s v val q body hb c c' f h e = at (q inner) refl e
    where
      inner : VerificationContext
      inner = push (infer_shape v c.stack_shapes) c

      pushed : Frame G V
      pushed = record f {
        stack =
            record {
              value = val;
              state = VariableState.available;
              shape = infer_item_shape v f.stack;
              is_ptr = returns_ptr s v f.stack;
            }
            ∷ f.stack;
      }

      popped :
          (c₁ : VerificationContext) (res : V) (f₁ : Frame G V)
          → pop_variable c₁ ≡ c'
          → Agrees expand_map c₁ f₁
          → length f₁.stack ≡ suc (length f.stack)
          → (stack : List (StackItem V)) → f₁.stack ≡ stack
          → Fine expand_map c' (length f.stack) (
              next
                (λ _. elim stack as (λ _. Result Panic (StackItem V × Frame G V)) [
                  | [] ↦ err (Panic.other (codes "unwrap"))
                  | item ∷ items ↦ ok (item, record f₁ { stack = items })
                ])
                (λ item. next (emit (drop_available s item)) λ _. return res)
                f₁)
      popped c₁ res f₁ p agrees n [] t = tt
      popped c₁ res f₁ p agrees n (item ∷ items) t =
          let same : length items ≡ length f.stack = cc (ap length t, n) in
          let below : Agrees expand_map c' (record f₁ { stack = items }) =
            subst (λ d. Agrees expand_map d (record f₁ { stack = items })) p
              (agrees.0, ap pop (agrees.1 ∙ ap states t)) in
          subst
            (λ m.
              Fine expand_map c' m (
                next (emit (drop_available s item)) (λ _. return res)
                  (record f₁ { stack = items })))
            same
            (end-Follows expand_map idle (emit (drop_available s item)) (λ _. return res)
              (emit-Follows expand_map (drop_available s item)) (λ _. return-Follows expand_map res)
              c' c' (record f₁ { stack = items }) below refl)

      at :
          (r : Result Text VerificationContext)
          → q inner ≡ r
          → bind r (λ d. ok (pop_variable d)) ≡ ok c'
          → Fine expand_map c' (length f.stack) (gen_let s v val body f)
      at (ok c₁) p q' =
          let popped_eq : pop_variable c₁ ≡ c' = cc in
          then-Fine expand_map c₁ c' (suc (length f.stack)) (length f.stack) _
            (λ res f₁ agrees n. popped c₁ res f₁ popped_eq agrees n f₁.stack refl) (body pushed)
            (hb inner c₁ pushed (h.0, ap (λ ss. VariableState.available ∷ ss) h.1) p)
      at (err x) p q' = absurd (cc (q'))

  then-Follows :
      (s : Settings G V) (blocks : V × V × V) (p : Check) (body : Step G V V)
      → Follows expand_map p body
      → Follows expand_map p (then_branch s blocks body)
  unfolding then_branch
  then-Follows s (true_bb, false_bb, merge_bb) p body hp =
      next-Follows expand_map idle p (emit _) _ (emit-Follows expand_map _) λ _.
        end-Follows expand_map p body _ hp λ true_val.
          end-Follows expand_map idle (emit _) _ (emit-Follows expand_map _)
            λ true_end. let res : V × V = (true_val, true_end) in return-Follows expand_map res

  join-Follows :
      (s : Settings G V) (merge_bb : V) (t e : V × V) (ss : List VariableState)
      → Follows expand_map (same_states ss) (join_branches s merge_bb t e ss)
  unfolding join_branches
  join-Follows s merge_bb (tv, te) (fv, fe) ss c c' f h z =
      elim (Bool-cases (states_eq ss c.stack)) [
        | inr b ↦ absurd (cc (z, b))
        | inl b ↦
            let same : c ≡ c' = cc in
            let equal : states_eq ss (states f.stack) ≡ true = sym (ap (states_eq ss) h.1) ∙ b in
            rw equal (emit-Follows expand_map _ c c' f h (ap ok same))
      ]

  else-Follows :
      (s : Settings G V) (blocks : V × V × V) (t : V × V) (ss : List VariableState) (q : Check)
      (body : Step G V V)
      → Follows expand_map q body
      → Follows expand_map (q >> same_states ss) (else_branch s blocks t ss body)
  unfolding else_branch
  else-Follows s (true_bb, false_bb, merge_bb) t ss q body hq =
      next-Follows expand_map idle (q >> same_states ss) (emit _) _ (emit-Follows expand_map _) λ _.
        next-Follows expand_map q (same_states ss) body _ hq λ false_val.
          next-Follows expand_map idle (same_states ss) (emit _) _ (emit-Follows expand_map _)
            λ false_end. join-Follows s merge_bb t (false_val, false_end) ss

  pub gen_branches-Follows :
      (s : Settings G V) (blocks : V × V × V) (p q : Check) (then_body else_body : Step G V V)
      → Follows expand_map p then_body
      → Follows expand_map q else_body
      → Follows expand_map (check_branches p q) (gen_branches s blocks then_body else_body)
  unfolding check_branches gen_branches next
  gen_branches-Follows s blocks p q then_body else_body hp hq c c' f h e = at (p c) refl e
    where
      back : VerificationContext → VerificationContext
      back ct = record ct { stack = c.stack; stack_shapes = c.stack_shapes }

      at :
          (r : Result Text VerificationContext)
          → p c ≡ r
          → bind r (λ ct. bind (q (back ct)) (same_states ct.stack)) ≡ ok c'
          → Fine expand_map c' (length f.stack) (gen_branches s blocks then_body else_body f)
      at (err x) t z = absurd (cc (z))
      at (ok ct) t z =
          then-Fine expand_map ct c' (length f.stack) (length f.stack) _
            (λ true_res ft agrees n.
              let (same, len) = states-restore f.stack ft.stack n in
              let restored : Frame G V = record ft { stack = restore f.stack ft.stack } in
              subst
                (λ m.
                  Fine expand_map c' m
                    (else_branch s blocks true_res (states ft.stack) else_body restored))
                (len ∙ n)
                (else-Follows s blocks true_res (states ft.stack) q else_body hq (back ct) c'
                  restored (agrees.0, h.1 ∙ sym same)
                  (subst (λ ss. bind (q (back ct)) (same_states ss) ≡ ok c') agrees.1 z)))
            (then_branch s blocks then_body f) (then-Follows s blocks p then_body hp c ct f h t)
