-- ===== src/Codegen/Stack.antt =====
-- src/compiler/codegen/mod.rs `StackItem`, src/compiler/codegen/shape.rs `infer_shape`, and the stack on
-- which src/compiler/codegen/parallel.rs `gen_trap_sub_fn` generates a side of a trap. An LLVM value is
-- an element of `V`; `load` stands for what is loaded from the environment of the captured values. The
-- stack is kept with its top first.
use llmlang.Prelude.{
  ℕ, Bool, true, false, Text, List, [], ◌∷◌, Option, none, some, get_elem?, length, if◌then◌else◌,
}
use llmlang.Ast.{Expr}
use llmlang.Verify.{VariableState}

pub record StackItem (V : Type 0) : Type 0 where
  pub value : V
  pub state : VariableState
  pub shape : Option Text
  pub is_ptr : Bool

-- `item.state == Available || item.state == Borrowed`
unfoldable pub is_capturable : VariableState → Bool
is_capturable VariableState.available = true
is_capturable VariableState.moved = false
is_capturable VariableState.borrowed = true
is_capturable VariableState.mut_borrowed = false

module _ {V : Type 0} where
  unfoldable pub infer_item_shape : Expr → List (StackItem V) → Option Text
  infer_item_shape (Expr.new name _) stack = some name
  infer_item_shape (Expr.unpack _ name) stack = some name
  infer_item_shape (Expr.map e _ _) stack = infer_item_shape e stack
  infer_item_shape (Expr.filter e _) stack = infer_item_shape e stack
  infer_item_shape (Expr.de_bruijn idx) stack = elim (get_elem? stack idx) [
    | none ↦ none
    | some item ↦ item.shape
  ]
  infer_item_shape (Expr.move inner) stack = infer_item_shape inner stack
  infer_item_shape (Expr.borrow inner) stack = infer_item_shape inner stack
  infer_item_shape (Expr.mut_borrow inner) stack = infer_item_shape inner stack
  infer_item_shape _ stack = none

  -- The stack of the generated function; a captured value is loaded from its place in the environment,
  -- which is the number of captured values below it.
  unfoldable pub captured_items : (ℕ → V) → List (StackItem V) → List (StackItem V)
  unfolding is_capturable
  captured_items load [] = []
  captured_items load (item ∷ items) =
      let rest = captured_items load items in
      if is_capturable item.state
      then record {
        value = load (length rest);
        state = VariableState.borrowed;
        shape = item.shape;
        is_ptr = item.is_ptr;
      }
        ∷ rest
      else rest
