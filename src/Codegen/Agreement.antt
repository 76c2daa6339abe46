-- ===== src/Codegen/Agreement.antt =====
-- The ownership check (src/compiler/analysis/verify.rs) and the code generator (src/compiler/codegen) keep
-- the same states and shapes of the variables.
use llmlang.Prelude.{
  ℕ, zero, suc, ◌≡◌, refl, sym, ap, ◌∙◌, Text, List, [], ◌∷◌, Option, none, some, get_elem?, map,
  Bool-cases, inl, inr,
}
use llmlang.Ast.{Expr}
use llmlang.Verify.{
  VariableState, VerificationContext, infer_shape, is_captured, captured_states, captured_shapes,
  captured,
}
use llmlang.Codegen.Stack.{StackItem, infer_item_shape, is_capturable, captured_items}

same_test : (s : VariableState) → is_capturable s ≡ is_captured s
unfolding is_capturable is_captured
same_test VariableState.available = refl
same_test VariableState.moved = refl
same_test VariableState.borrowed = refl
same_test VariableState.mut_borrowed = refl

module _ {V : Type 0} where
  abbrev pub states : List (StackItem V) → List VariableState
  states items = map (λ i. i.state) items

  abbrev pub shapes : List (StackItem V) → List (Option Text)
  shapes items = map (λ i. i.shape) items

  shape_at :
      (items : List (StackItem V)) (k : ℕ)
      → (elim (get_elem? items k) [ none ↦ none | some i ↦ i.shape ])
        ≡ elim (get_elem? (shapes items) k) [ none ↦ none | some s ↦ s ]
  shape_at [] k = refl
  shape_at (i ∷ is) zero = refl
  shape_at (i ∷ is) (suc k) = shape_at is k

  infer-shapes :
      (e : Expr) (items : List (StackItem V))
      → infer_item_shape e items ≡ infer_shape e (shapes items)
  unfolding infer_item_shape infer_shape
  infer-shapes (Expr.map e _ _) items = infer-shapes e items
  infer-shapes (Expr.filter e _) items = infer-shapes e items
  infer-shapes (Expr.de_bruijn k) items = shape_at items k
  infer-shapes (Expr.move e) items = infer-shapes e items
  infer-shapes (Expr.borrow e) items = infer-shapes e items
  infer-shapes (Expr.mut_borrow e) items = infer-shapes e items
  infer-shapes _ items = refl

  pub captured-agree :
      (load : ℕ → V) (items : List (StackItem V))
      → (states (captured_items load items) ≡ captured_states (states items))
        × (shapes (captured_items load items) ≡ captured_shapes (states items) (shapes items))
  unfolding captured_items captured_states captured_shapes
  captured-agree load [] = (refl, refl)
  captured-agree load (i ∷ is) =
      let (ss, ns) = captured-agree load is in
      elim (Bool-cases (is_captured i.state)) [
        | inl e ↦
            rw (same_test i.state ∙ e)
              (ap (λ r. VariableState.borrowed ∷ r) ss, ap (λ r. i.shape ∷ r) ns)
        | inr e ↦ rw (same_test i.state ∙ e) (ss, ns)
      ]

  -- If the check's context stands for the stack of the code generator, then both infer the same shape for
  -- every expression, and under a trap the check's context stands for the stack of the generated function.
  pub captured-items :
      (load : ℕ → V) (items : List (StackItem V)) (c : VerificationContext)
      → c.stack ≡ states items
      → c.stack_shapes ≡ shapes items
      → ((e : Expr) → infer_shape e c.stack_shapes ≡ infer_item_shape e items)
        × ((captured c).stack ≡ states (captured_items load items))
        × ((captured c).stack_shapes ≡ shapes (captured_items load items))
  unfolding captured
  captured-items load items c h k =
      let (a, b) = captured-agree load items in
      (
        λ e. ap (infer_shape e) k ∙ sym (infer-shapes e items),
        ap captured_states h ∙ sym a,
        (λ i. captured_shapes (h i) (k i)) ∙ sym b,
      )
