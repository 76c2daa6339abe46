-- ===== src/Codegen/Tasks.antt =====
-- src/compiler/codegen/parallel.rs, and `trap` of src/compiler/codegen/expr.rs `gen_expr`: code in functions of
-- their own, which load the captured variables from an environment. An external function is declared
-- where it is called.
use llmlang.Prelude.{
  ℕ, suc, ltb, Bool, ◌&&◌, Text, codes, List, [], ◌∷◌, ◌++◌, none, some, length, get_elem?,
  print_decimal, if◌then◌else◌,
}
use llmlang.Ast.{Expr}
use llmlang.Error.{ok, err}
use llmlang.Analysis.{is_pure, complexity}
use llmlang.Codegen.Stack.{StackItem, captured_items, is_capturable}
use llmlang.Codegen.Builder.{
  Emit, i64, ◌>>=◌, ◌>>◌, pure, const, build, build_load, build_gep, call, position_at_end,
}
use llmlang.Codegen.Variables.{Frame, Step, Settings, return, next, emit, emitted, drop_all}

-- The captured values, the lowest variable first.
unfoldable pub captured_values : {V : Type 0} → List (StackItem V) → List V
unfolding is_capturable
captured_values [] = []
captured_values (item ∷ items) =
    let rest = captured_values items in
    if is_capturable item.state then rest ++ (item.value ∷ []) else rest

abbrev pub nth : {V : Type 0} → V → List V → ℕ → V
nth default vals i = elim (get_elem? vals i) [ none ↦ default | some v ↦ v ]

module _ {G V : Type 0} (s : Settings G V) where
  unfoldable pub hoists : Expr → Frame G V → Bool
  unfolding is_pure complexity
  hoists e f =
      ltb f.parallel_depth s.max_parallel_depth
      && s.has_sufficient_stack f.llvm
      && is_pure e
      && ltb s.parallel_threshold (complexity e)

  -- For each captured value, from this place on, the load from the environment.
  unfoldable pub load_captures : V → ℕ → List V → Emit G (List V)
  load_captures env_ptr i [] = pure []
  load_captures env_ptr i (_ ∷ vals) = do
    member_ptr ← build_gep s.llvm i64 env_ptr (const s.llvm i)
    loaded ← build_load s.llvm i64 member_ptr
    later ← load_captures env_ptr (suc i) vals
    pure (loaded ∷ later)

  unfoldable pub store_captures : V → ℕ → List V → Emit G (Unit {0})
  store_captures env_alloc i [] = pure tt
  store_captures env_alloc i (val ∷ vals) = do
    member_ptr ← build_gep s.llvm i64 env_alloc (const s.llvm i)
    build s.llvm (codes "store") (member_ptr ∷ val ∷ [])
    store_captures env_alloc (suc i) vals

  unfoldable pub alloc_captures : List V → Emit G V
  unfolding store_captures
  alloc_captures vals = do
    env_alloc ← build s.llvm (codes "array_alloca") (const s.llvm (length vals) ∷ [])
    store_captures env_alloc 0 vals
    pure env_alloc

  -- The name of a task, with the number of functions so far.
  abbrev pub numbered : Text → G → Text
  numbered prefix g = prefix ++ print_decimal (length (s.llvm.functions g))

  abbrev add_task : Text → Emit G V
  add_task name g = ok (s.llvm.add_function name 1 g)

  abbrev entry_of : V → Emit G V
  entry_of task_fn g = ok (s.llvm.append_entry task_fn g)

  abbrev insert_block : Emit G V
  insert_block g = ok (s.llvm.get_insert_block g, g)

  -- The function of a task, the block from which it is started, and the loaded values.
  unfoldable pub open_task : Text → List V → Emit G (V × V × List V)
  unfolding load_captures
  open_task name vals = do
    task_fn ← add_task name
    entry ← entry_of task_fn
    current_bb ← insert_block
    position_at_end s.llvm entry
    loaded ← load_captures (s.llvm.get_nth_param task_fn 0) 0 vals
    pure (task_fn, current_bb, loaded)

  unfoldable pub close_task : V → V → Emit G (Unit {0})
  close_task current_bb res = do
    build s.llvm (codes "return") (res ∷ [])
    position_at_end s.llvm current_bb

  -- A step on the variables of a task, behind which those of its caller are back.
  unfoldable pub in_task : {A : Type 0} → List (StackItem V) → ℕ → Step G V A → Step G V A
  in_task stack depth m f = elim (m (record f { stack = stack; parallel_depth = depth })) [
    | err e ↦ err e
    | ok (a, f') ↦ ok (a, record f { llvm = f'.llvm })
  ]

  abbrev task_stack : V → List V → List (StackItem V) → List (StackItem V)
  task_stack default loaded items = captured_items (nth default loaded) items

  abbrev fork : V → V → Emit G V
  fork task_fn env_alloc = do
    fn_int ← build s.llvm (codes "ptr_to_int") (task_fn ∷ [])
    env_int ← build s.llvm (codes "ptr_to_int") (env_alloc ∷ [])
    call s.llvm (codes "llm_fork") (fn_int ∷ env_int ∷ [])

  -- `gen_parallel_expr`, whose expression `body` generates.
  unfoldable pub gen_parallel_expr : Step G V V → Step G V V
  unfolding captured_values open_task in_task captured_items close_task alloc_captures
  gen_parallel_expr body f =
      let vals = captured_values f.stack in
      next (emit (open_task (numbered (codes "parallel_task_") f.llvm) vals))
        (λ (task_fn, current, loaded).
          next (in_task (task_stack task_fn loaded f.stack) (suc f.parallel_depth) body) λ res.
            emit
              (do close_task current res; env_alloc ← alloc_captures vals; fork task_fn env_alloc))
        f

  -- The expression in a task of its own, whose handle is joined, or where it stands.
  unfoldable pub gen_or_fork : Expr → Step G V V → Step G V (Bool × V)
  unfolding hoists gen_parallel_expr
  gen_or_fork e body f =
      if hoists e f
      then next (gen_parallel_expr body) (λ handle. return (Bool.true, handle)) f
      else next body (λ val. return (Bool.false, val)) f

  unfoldable pub join : Bool × V → Emit G V
  join (Bool.true, handle) = call s.llvm (codes "llm_join") (handle ∷ [])
  join (Bool.false, val) = pure val

  -- The body of a trap's function, behind which the variables that are still available are dropped.
  unfoldable pub trap_body : Step G V V → Step G V V
  unfolding drop_all
  trap_body body = next body λ res.
      λ f. emitted f (elim (drop_all s f.stack f.llvm) [ err e ↦ err e | ok (_, g) ↦ ok (res, g) ])

  unfoldable pub trap_task : List (StackItem V) → ℕ → Step G V V → V × V × List V → Step G V V
  unfolding in_task captured_items trap_body close_task
  trap_task items depth body (task_fn, current, loaded) =
      next (in_task (task_stack task_fn loaded items) depth (trap_body body))
        λ res. emit (do close_task current res; pure task_fn)

  unfoldable pub gen_trap_sub_fn : Step G V V → Text → Step G V V
  unfolding captured_values open_task trap_task
  gen_trap_sub_fn body name f =
      next (emit (open_task name (captured_values f.stack)))
        (trap_task f.stack f.parallel_depth body) f

  unfoldable pub start_trap : List V → V → V → Emit G V
  unfolding alloc_captures
  start_trap vals try_fn fallback_fn = do
    env_alloc ← alloc_captures vals
    try_int ← build s.llvm (codes "ptr_to_int") (try_fn ∷ [])
    fallback_int ← build s.llvm (codes "ptr_to_int") (fallback_fn ∷ [])
    env_int ← build s.llvm (codes "ptr_to_int") (env_alloc ∷ [])
    call s.llvm (codes "llm_try") (try_int ∷ env_int ∷ fallback_int ∷ env_int ∷ [])

  unfoldable pub gen_trap : Step G V V → Step G V V → Step G V V
  unfolding gen_trap_sub_fn start_trap captured_values
  gen_trap try_body fallback_body f =
      next (gen_trap_sub_fn try_body (numbered (codes "trap_try_") f.llvm))
        (λ try_fn.
          next (gen_trap_sub_fn fallback_body (numbered (codes "trap_fallback_") f.llvm))
            λ fallback_fn. emit (start_trap (captured_values f.stack) try_fn fallback_fn))
        f
