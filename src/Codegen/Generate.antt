-- ===== src/Codegen/Generate.antt =====
-- src/compiler/codegen/expr.rs: `gen_expr`. The bodies of templates are generated by `expand`, which
-- `gen_expr` at the end ties on fuel: a template that calls itself is expanded for ever.
use llmlang.Prelude.{
  Text, codes, List, [], ◌∷◌, ◌++◌, Option, none, some, lookup, join, map, if◌then◌else◌,
}
use llmlang.Ast.{Expr}
use llmlang.Error.{ok, err}
use llmlang.Verify.{VariableState, states_eq}
use llmlang.Codegen.Stack.{StackItem, infer_item_shape}
use llmlang.Codegen.Opencl.{translate_to_opencl}
use llmlang.Codegen.Builder.{
  Emit, i64, pure, expects, const, build, build_load, call, append_basic_block, position_at_end,
  insert_block, as_int, gen_string_constant,
}
use llmlang.Codegen.Rows.{Mapped}
use llmlang.Codegen.Variables.{
  Step, Panic, Settings, return, next, emit, emit_on, push_item, pop_item, returns_ptr,
  drop_available, drop_operands,
}
use llmlang.Codegen.Calls.{resolve}

infixl 5 ◌>>=◌
abbrev ◌>>=◌ : {G V A B : Type 0} → Step G V A → (A → Step G V B) → Step G V B
m >>= k = next m k

abbrev pub emit_then : {G A B : Type 0} → Emit G A → (A → Emit G B) → Emit G B
emit_then m k g = elim (m g) [ err e ↦ err e | ok (a, g') ↦ k a g' ]

-- The states, shapes and pointer flags of the first stack, with the values of the second.
unfoldable pub restore : {V : Type 0} → List (StackItem V) → List (StackItem V) → List (StackItem V)
restore (i ∷ is) (j ∷ js) =
    record { value = j.value; state = i.state; shape = i.shape; is_ptr = i.is_ptr } ∷ restore is js
restore _ js = js

abbrev pub item_states : {V : Type 0} → List (StackItem V) → List VariableState
item_states items = map (λ i. i.state) items

module _ {G V : Type 0} (s : Settings G V) where
  -- A call of the runtime, behind which the operands that are owned are dropped.
  unfoldable pub runtime_call : Text → List V → List (Expr × V) → Step G V V
  unfolding drop_operands
  runtime_call name vals drops = emit_on λ stack.
      emit_then (call s.llvm name vals) λ res. emit_then (drop_operands s drops stack) λ _. pure res

  abbrev pub then_drop : Emit G V → Expr → V → Step G V V
  then_drop m e val =
      emit_on
        λ stack. emit_then m λ res. emit_then (drop_operands s ((e, val) ∷ []) stack) λ _. pure res

  -- The body of a `let` under its new variable, which is dropped at the end where it is still available.
  unfoldable pub gen_let : Expr → V → Step G V V → Step G V V
  unfolding push_item pop_item returns_ptr infer_item_shape drop_available
  gen_let val_expr val body f =
      (push_item (record {
        value = val;
        state = VariableState.available;
        shape = infer_item_shape val_expr f.stack;
        is_ptr = returns_ptr s val_expr f.stack;
      })
          >>= λ _.
              body >>= λ res. pop_item >>= λ item. emit (drop_available s item) >>= λ _. return res)
        f

  -- The block `then`, the block `else` and the one behind them.
  unfoldable pub open_branches : V → Emit G (V × V × V)
  unfolding as_int
  open_branches cond_val = emit_then (as_int s.llvm cond_val) λ cond.
      emit_then (append_basic_block s.llvm (codes "then")) λ true_bb.
        emit_then (append_basic_block s.llvm (codes "else")) λ false_bb.
          emit_then (append_basic_block s.llvm (codes "ifcont")) λ merge_bb.
            emit_then (build s.llvm (codes "int_compare NE") (cond ∷ const s.llvm 0 ∷ []))
              λ cond_bool.
                emit_then
                  (build s.llvm (codes "conditional_branch") (cond_bool ∷ true_bb ∷ false_bb ∷ []))
                  λ _. pure (true_bb, false_bb, merge_bb)

  -- The end of a branch: the block in which it ends.
  abbrev close_branch : V → Emit G V
  close_branch merge_bb =
      emit_then (build s.llvm (codes "unconditional_branch") (merge_bb ∷ []))
        λ _. insert_block s.llvm

  abbrev merge : V → V → V → V → V → Emit G V
  merge merge_bb true_val true_end false_val false_end =
      emit_then (position_at_end s.llvm merge_bb)
        λ _. build s.llvm (codes "phi") (true_val ∷ true_end ∷ false_val ∷ false_end ∷ [])

  unfoldable pub then_branch : V × V × V → Step G V V → Step G V (V × V)
  then_branch (true_bb, false_bb, merge_bb) then_body =
      emit (position_at_end s.llvm true_bb) >>= λ _. then_body >>= λ true_val.
      emit (close_branch merge_bb) >>= λ true_end. return (true_val, true_end)

  -- The result of both branches, which have to end in the same states.
  unfoldable pub join_branches : V → V × V → V × V → List VariableState → Step G V V
  unfolding states_eq
  join_branches merge_bb (true_val, true_end) (false_val, false_end) true_states f =
      if states_eq true_states (item_states f.stack)
      then emit (merge merge_bb true_val true_end false_val false_end) f
      else err Panic.e009

  unfoldable pub else_branch : V × V × V → V × V → List VariableState → Step G V V → Step G V V
  unfolding join_branches
  else_branch (true_bb, false_bb, merge_bb) true_res true_states else_body =
      emit (position_at_end s.llvm false_bb) >>= λ _. else_body >>= λ false_val.
      emit (close_branch merge_bb) >>= λ false_end.
      join_branches merge_bb true_res (false_val, false_end) true_states

  -- The two branches in their blocks, each from the same states.
  unfoldable pub gen_branches : V × V × V → Step G V V → Step G V V → Step G V V
  unfolding restore then_branch else_branch
  gen_branches blocks then_body else_body f =
      (then_branch blocks then_body >>= λ true_res. λ ft.
          else_branch blocks true_res (item_states ft.stack) else_body
            (record ft { stack = restore f.stack ft.stack }))
        f

  -- The function that `map` and `flt` apply, where it is named.
  unfoldable pub mapped : Expr → Mapped G
  unfolding resolve translate_to_opencl
  mapped (Expr.identifier name) = record {
    resolved = some (resolve s name);
    kernel = translate_to_opencl s.float_text s.symbols name;
  }
  mapped _ = record { resolved = none; kernel = none }

  unfoldable pub emit_pack : Option Text → V → Emit G V
  unfolding as_int gen_string_constant lookup join
  emit_pack inferred val = emit_then (expects (codes "E006") inferred) λ shape_name.
      emit_then (expects (codes "E006") (lookup shape_name s.symbols.shapes)) λ fields.
        emit_then (as_int s.llvm val) λ val_int.
          emit_then (gen_string_constant s.llvm s.hash (join (codes ",") fields)) λ fields_val.
            emit_then (as_int s.llvm fields_val)
              λ fields_int. call s.llvm (codes "llm_pack") (val_int ∷ fields_int ∷ [])

  unfoldable pub emit_unpack : Text → V → Emit G V
  unfolding as_int gen_string_constant lookup join
  emit_unpack shape_name json_val =
      emit_then (expects (codes "E006") (lookup shape_name s.symbols.shapes)) λ fields.
        emit_then (gen_string_constant s.llvm s.hash (join (codes ",") fields)) λ fields_val.
          emit_then (as_int s.llvm fields_val)
            λ fields_int. call s.llvm (codes "llm_unpack") (json_val ∷ fields_int ∷ [])

  unfoldable pub as_ints : List V → Emit G (List V)
  unfolding as_int
  as_ints [] = pure []
  as_ints (val ∷ vals) =
      emit_then (as_int s.llvm val) λ int. emit_then (as_ints vals) λ ints. pure (int ∷ ints)

  -- The operands of an event are sent as integers.
  unfoldable pub emit_async : List V → List V → Emit G V
  unfolding as_ints
  emit_async tag vals =
      emit_then (as_ints vals) λ ints. call s.llvm (codes "llm_emit_async") (tag ++ ints)

  unfoldable pub emit_len : Option Text → V → Emit G V
  unfolding as_int
  emit_len none s_val = call s.llvm (codes "llm_len") (s_val ∷ [])
  emit_len (some _) s_val = emit_then (as_int s.llvm s_val) λ s_int.
      emit_then (build s.llvm (codes "int_to_ptr") (s_int ∷ [])) λ ptr. build_load s.llvm i64 ptr
