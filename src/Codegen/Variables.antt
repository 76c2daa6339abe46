-- ===== src/Codegen/Variables.antt =====
-- src/compiler/codegen/expr.rs: the stack of variables as `gen_expr` uses and changes it, `is_owned_ptr` and
-- `maybe_drop_val`. The stack is kept with its top first.
use llmlang.Prelude.{
  ℕ, Bool, true, false, not, ◌&&◌, Text, codes, List, [], ◌∷◌, Option, none, some, map, length,
  get_elem?, set, lookup, if◌then◌else◌,
}
use llmlang.Token.{Float}
use llmlang.Ast.{Expr}
use llmlang.Error.{Result, ok, err}
use llmlang.Verify.{VariableState, is_moved, is_borrowed, from_top}
use llmlang.Analysis.{returns_ptr_with_stack}
use llmlang.Codegen.Names.{SourceFile, Symbols}
use llmlang.Codegen.Stack.{StackItem, infer_item_shape}
use llmlang.Codegen.Builder.{Llvm, Emit, ◌>>◌, pure, emit_auto_drop}

-- The panics on the states of variables, and all others.
pub data Panic : Type 0 where
  e003 e004 e005 e009 e016 out_of_fuel : Panic
  other : Text → Panic

-- What the code generator keeps while it generates a function: the variables, how many tasks it is in,
-- and LLVM's module.
pub record Frame (G V : Type 0) : Type 0 where
  pub stack : List (StackItem V)
  pub parallel_depth : ℕ
  pub llvm : G

-- A step that may panic and changes the frame.
abbrev pub Step : Type 0 → Type 0 → Type 0 → Type 0
Step G V A = Frame G V → Result Panic (A × Frame G V)

-- What the code generator knows of the module.
pub record Settings (G V : Type 0) : Type 0 where
  pub llvm : Llvm G V
  pub file : SourceFile
  pub input_path : Text
  pub symbols : Symbols
  pub fn_returns_ptr : List (Text × Bool)
  pub fn_param_ptrs : List (Text × List Bool)
  pub parallel_threshold : ℕ
  pub max_parallel_depth : ℕ
  pub has_sufficient_stack : G → Bool
  pub hash : Text → Text
  pub float_text : Float → Text

abbrev pub ptrs : {V : Type 0} → List (StackItem V) → List Bool
ptrs items = map (λ i. i.is_ptr) items

unfoldable pub is_available : VariableState → Bool
is_available VariableState.available = true
is_available _ = false

module _ {G V : Type 0} where
  unfoldable pub return : {A : Type 0} → A → Step G V A
  return a f = ok (a, f)

  unfoldable pub next : {A B : Type 0} → Step G V A → (A → Step G V B) → Step G V B
  next m k f = elim (m f) [ err e ↦ err e | ok (a, f') ↦ k a f' ]

  abbrev pub emitted : {A : Type 0} → Frame G V → Result Text (A × G) → Result Panic (A × Frame G V)
  emitted f (err e) = err (Panic.other e)
  emitted f (ok (a, g)) = ok (a, record f { llvm = g })

  -- Code is emitted, for which the variables are read.
  unfoldable pub emit_on : {A : Type 0} → (List (StackItem V) → Emit G A) → Step G V A
  emit_on m f = emitted f (m f.stack f.llvm)

  unfoldable pub emit : {A : Type 0} → Emit G A → Step G V A
  emit m = emit_on λ _. m

  unfoldable pub read_item : StackItem V → Step G V V
  unfolding is_moved
  read_item item f = if is_moved item.state then err Panic.e004 else ok (item.value, f)

  -- An access to the variable with this index from the top.
  unfoldable pub access_item : ℕ → Step G V V
  unfolding read_item
  access_item index f = elim (get_elem? f.stack index) [
    | none ↦ err Panic.e003
    | some item ↦ read_item item f
  ]

  unfoldable pub take_item : ℕ → StackItem V → Step G V V
  unfolding is_moved is_borrowed
  take_item index item f =
      if is_moved item.state
      then err Panic.e005
      else if is_borrowed item.state
      then err Panic.e016
      else ok (
        item.value,
        record f { stack = set f.stack index (record item { state = VariableState.moved }) },
      )

  -- A move of the variable with this index from the top.
  unfoldable pub move_item : ℕ → Step G V V
  unfolding take_item
  move_item index f = elim (get_elem? f.stack index) [
    | none ↦ err Panic.e003
    | some item ↦ take_item index item f
  ]

  -- A variable in `expand_map`, whose indices count from the bottom.
  unfoldable pub expand_item : (ℕ → Step G V V) → List (Text × ℕ) → Text → Step G V V
  unfolding from_top lookup
  expand_item k expand_map name f = elim (lookup name expand_map) [
    | none ↦ err (Panic.other (codes "E013"))
    | some index ↦ k (from_top (length f.stack) index) f
  ]

  unfoldable pub move_of : List (Text × ℕ) → Expr → Step G V V → Step G V V
  unfolding move_item expand_item
  move_of expand_map (Expr.de_bruijn index) inner = move_item index
  move_of expand_map (Expr.expand name) inner = expand_item move_item expand_map name
  move_of expand_map _ inner = inner

  unfoldable pub push_item : StackItem V → Step G V (Unit {0})
  push_item item f = ok (tt, record f { stack = item ∷ f.stack })

  unfoldable pub pop_item : Step G V (StackItem V)
  pop_item f = elim f.stack [
    | [] ↦ err (Panic.other (codes "unwrap"))
    | item ∷ items ↦ ok (item, record f { stack = items })
  ]

-- An expression that reads a variable or borrows owns nothing.
unfoldable pub is_reading : Expr → Bool
is_reading (Expr.borrow _) = true
is_reading (Expr.mut_borrow _) = true
is_reading (Expr.de_bruijn _) = true
is_reading (Expr.expand _) = true
is_reading _ = false

module _ {G V : Type 0} (s : Settings G V) where
  unfoldable pub returns_ptr : Expr → List (StackItem V) → Bool
  unfolding returns_ptr_with_stack
  returns_ptr e stack = returns_ptr_with_stack e (ptrs stack) s.fn_returns_ptr

  unfoldable pub is_owned_ptr : Expr → List (StackItem V) → Bool
  unfolding returns_ptr is_reading
  is_owned_ptr e stack = returns_ptr e stack && not (is_reading e)

  abbrev pub drop_val : V → Option Text → Bool → Emit G (Unit {0})
  drop_val val shape is_ptr = emit_auto_drop s.llvm s.symbols.shapes val shape is_ptr

  unfoldable pub maybe_drop_val : Expr → V → List (StackItem V) → Emit G (Unit {0})
  unfolding is_owned_ptr infer_item_shape emit_auto_drop
  maybe_drop_val e val stack =
      if is_owned_ptr e stack then drop_val val (infer_item_shape e stack) true else pure tt

  unfoldable pub drop_available : StackItem V → Emit G (Unit {0})
  unfolding is_available emit_auto_drop
  drop_available item =
      if is_available item.state then drop_val item.value item.shape item.is_ptr else pure tt

  -- All of them, from the bottom on.
  unfoldable pub drop_all : List (StackItem V) → Emit G (Unit {0})
  unfolding drop_available
  drop_all [] = pure tt
  drop_all (item ∷ items) = do drop_all items; drop_available item

  -- The results of an operation's operands are dropped, where they are owned.
  unfoldable pub drop_operands : List (Expr × V) → List (StackItem V) → Emit G (Unit {0})
  unfolding maybe_drop_val
  drop_operands [] stack = pure tt
  drop_operands ((e, val) ∷ operands) stack = do
    maybe_drop_val e val stack
    drop_operands operands stack
