-- ===== src/Codegen/Calls.antt =====
-- src/compiler/codegen/expr.rs `gen_expr`: calls of functions, of templates and of the runtime. Behind the
-- arguments, `pending` values are the handles of tasks.
use llmlang.Prelude.{
  ℕ, leb, Bool, true, false, not, ◌&&◌, Text, codes, text_eq, List, [], ◌∷◌, ◌++◌, Option, none,
  some, length, lookup, insert, any, join, if◌then◌else◌,
}
use llmlang.Ast.{Param, Expr, Exprs}
use llmlang.Error.{ok, err}
use llmlang.Codegen.Names.{Template, has_function, resolve_func_name}
use llmlang.Codegen.Stack.{StackItem, infer_item_shape}
use llmlang.Verify.{VariableState}
use llmlang.Codegen.Builder.{Emit, plain, ◌>>=◌, ◌>>◌, pure, call, call_value, gen_string_constant}
use llmlang.Codegen.Variables.{
  Step, Panic, Settings, return, next, emit, emit_on, emitted, push_item, returns_ptr, is_owned_ptr,
  drop_available, drop_operands,
}
use llmlang.Codegen.Tasks.{gen_or_fork}

abbrev pub list_of : Exprs → List Expr
list_of Exprs.nil = []
list_of (Exprs.cons e es) = e ∷ list_of es

abbrev pub is_nil : Exprs → Bool
is_nil Exprs.nil = true
is_nil (Exprs.cons _ _) = false

abbrev pub zip : {A B : Type 0} → List A → List B → List (A × B)
zip (x ∷ xs) (y ∷ ys) = (x, y) ∷ zip xs ys
zip _ _ = []

abbrev pub is_borrow : Expr → Bool
is_borrow (Expr.borrow _) = true
is_borrow (Expr.mut_borrow _) = true
is_borrow _ = false

-- The modules whose functions are of another language.
abbrev pub ffi_modules : List Text
ffi_modules =
    codes "crypto" ∷ codes "cms" ∷ codes "file" ∷ codes "http" ∷ codes "json" ∷ codes "db" ∷ []

module _ {G V : Type 0} (s : Settings G V) where
  -- The names among the functions that LLVM's module has by now.
  unfoldable pub resolve : Text → G → Text
  unfolding resolve_func_name
  resolve name g =
      resolve_func_name s.file (record s.symbols { functions = s.llvm.functions g }) name

  unfoldable pub is_db_query : Text → Bool
  unfolding text_eq lookup
  is_db_query name =
      text_eq name (codes "query")
      && elim (lookup name s.symbols.imports) [ none ↦ false | some m ↦ text_eq m (codes "db") ]

  unfoldable pub fields_of : Expr → Option Text
  unfolding lookup join
  fields_of (Expr.string shape_name) = elim (lookup shape_name s.symbols.shapes) [
    | none ↦ none
    | some fields ↦ some (join (codes ",") fields)
  ]
  fields_of _ = none

  -- The argument that is generated, and its code: for the shape of a query, the shape's fields.
  unfoldable pub final_arg : Bool → Expr → Step G V V → Expr × Step G V V
  unfolding fields_of gen_string_constant
  final_arg false arg body = (arg, body)
  final_arg true arg body = elim (fields_of arg) [
    | none ↦ (arg, body)
    | some csv ↦ (Expr.string csv, emit (gen_string_constant s.llvm s.hash csv))
  ]

  -- The last argument is never hoisted.
  unfoldable pub gen_arg : Bool → Expr × Step G V V → Step G V (Bool × V)
  unfolding gen_or_fork
  gen_arg true (arg, body) = next body λ val. return (false, val)
  gen_arg false (arg, body) = gen_or_fork s arg body

  unfoldable pub join_args : List (Bool × V) → Emit G (List V)
  join_args [] = pure []
  join_args ((true, handle) ∷ vals) = do
    val ← call s.llvm (codes "llm_join") (handle ∷ [])
    later ← join_args vals
    pure (val ∷ later)
  join_args ((false, val) ∷ vals) = do later ← join_args vals; pure (val ∷ later)

  unfoldable pub identifier_value : Text → Emit G V
  unfolding resolve has_function
  identifier_value name g =
      if has_function (resolve name g) (s.llvm.functions g)
      then ok (s.llvm.function_value (resolve name g), g)
      else if has_function name (s.llvm.functions g)
      then ok (s.llvm.function_value name, g)
      else err (codes "E013: Unknown identifier " ++ name)

  unfoldable pub known_arity : Text → Text → Option ℕ
  unfolding lookup
  known_arity name final_name = elim (lookup name s.fn_param_ptrs) [
    | some flags ↦ some (length flags)
    | none ↦ elim (lookup final_name s.fn_param_ptrs) [
      | some flags ↦ some (length flags)
      | none ↦ none
    ]
  ]

  unfoldable pub find_or_declare : Text → Text → Emit G V
  unfolding has_function known_arity
  find_or_declare name final_name g =
      if has_function final_name (s.llvm.functions g)
      then ok (s.llvm.function_value final_name, g)
      else elim (known_arity name final_name) [
        | some arity ↦ ok (s.llvm.add_function final_name arity g)
        | none ↦ err (codes "E010")
      ]

  unfoldable pub is_ffi : Text → Bool
  unfolding lookup text_eq
  is_ffi name = elim (lookup name s.symbols.imports) [
    | none ↦ false
    | some module_name ↦ any (text_eq module_name) ffi_modules
  ]

  -- A borrowed pointer is duplicated for a function of the language.
  unfoldable pub call_args : Bool → List (Expr × V) → List (StackItem V) → Emit G (List V)
  unfolding returns_ptr
  call_args user_defined [] stack = pure []
  call_args user_defined ((arg, val) ∷ args) stack = do
    final_val ←
        if user_defined && is_borrow arg && returns_ptr s arg stack
        then call s.llvm (codes "llm_dup") (val ∷ [])
        else pure val
    later ← call_args user_defined args stack
    pure (final_val ∷ later)

  abbrev set_tail_call : V → Emit G V
  set_tail_call inst g = ok (s.llvm.build (plain (codes "set_tail_call")) (inst ∷ []) g)

  unfoldable pub call_function : Text → Text → List Expr → List V → List (StackItem V) → Emit G V
  unfolding find_or_declare call_args is_ffi drop_operands
  call_function name final_name args vals stack = do
    function ← find_or_declare name final_name
    final_vals ← call_args (not (is_ffi name)) (zip args vals) stack
    res ← call_value s.llvm function final_vals
    set_tail_call res
    if is_ffi name then drop_operands s (zip args vals) stack else pure tt
    pure res

  -- The parameters of a template above its caller's variables: the new expand_map, and which are owned,
  -- the last parameter first.
  unfoldable pub push_params :
      List (Param × (V × Expr))
      → List (Text × ℕ)
      → List Bool
      → Step G V (List (Text × ℕ) × List Bool)
  unfolding push_item returns_ptr infer_item_shape is_owned_ptr insert
  push_params [] expand_map owned f = ok ((expand_map, owned), f)
  push_params ((param, (val, arg)) ∷ params) expand_map owned f =
      let item : StackItem V = record {
        value = val;
        state = VariableState.available;
        shape = infer_item_shape arg f.stack;
        is_ptr = returns_ptr s arg f.stack;
      } in
      next (push_item item)
        (λ _.
          push_params params
            (if param.expand then insert param.name (length f.stack) expand_map else expand_map)
            (is_owned_ptr s arg (item ∷ f.stack) ∷ owned))
        f

  -- What stands above the lowest `n` variables, and these.
  unfoldable pub split_above : ℕ → List (StackItem V) → List (StackItem V) × List (StackItem V)
  split_above n [] = ([], [])
  split_above n (item ∷ items) =
      let rest = split_above n items in
      if leb n (length items) then (item ∷ rest.0, rest.1) else ([], item ∷ items)

  -- From the lowest parameter on.
  unfoldable pub drop_owned : List (StackItem V × Bool) → Emit G (Unit {0})
  unfolding drop_available
  drop_owned [] = pure tt
  drop_owned ((item, owned) ∷ items) = do
    drop_owned items
    if owned then drop_available s item else pure tt

  unfoldable pub drain_params : ℕ → List Bool → Step G V (Unit {0})
  unfolding split_above drop_owned
  drain_params n owned f =
      let parts = split_above n f.stack in
      emitted (record f { stack = parts.1 }) (drop_owned (zip parts.0 owned) f.llvm)

  -- `expand` generates a template's body under its expand_map.
  unfoldable pub gen_template :
      (Expr → List (Text × ℕ) → Step G V V) → Template → List Expr → List V → Step G V V
  unfolding push_params drain_params
  gen_template expand t args vals f =
      next (push_params (zip t.params (zip vals args)) [] [])
        (λ (expand_map, owned).
          next (expand t.body expand_map)
            λ res. next (drain_params (length f.stack) owned) λ _. return res)
        f

  unfoldable pub gen_call :
      (Expr → List (Text × ℕ) → Step G V V)
      → Text
      → Text
      → Option Template
      → List Expr
      → List V
      → Step G V V
  unfolding gen_template call_function
  gen_call expand name final_name (some t) args vals = gen_template expand t args vals
  gen_call expand name final_name none args vals = emit_on (call_function name final_name args vals)

  -- The name is resolved before the arguments are generated.
  unfoldable pub gen_apply :
      (Expr → List (Text × ℕ) → Step G V V)
      → Expr
      → List Expr
      → Step G V (List (Bool × V))
      → Step G V V
  unfolding resolve lookup join_args gen_call
  gen_apply expand (Expr.identifier name) args gen_args f =
      let final_name = resolve name f.llvm in
      next gen_args
        (λ pending.
          next (emit (join_args pending)) λ vals.
            gen_call expand name final_name (lookup final_name s.symbols.templates) args vals)
        f
  gen_apply expand _ args gen_args f = err (Panic.other (codes "E012"))
